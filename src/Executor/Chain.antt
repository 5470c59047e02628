-- ===== src/Executor/Chain.antt =====
-- `connect` of apps/executor/src/chain.ts, of what the contract's client returns or throws.
pub mod Answers
use aegis_phase.Prelude.{
  ℕ, Bool, true, false, ◌||◌, Option, none, some, Text, Bytes, codes, text_eq, if◌then◌else◌, ◌==◌,
}
use aegis_phase.Prelude.Result.{Result, ok, err}
use aegis_phase.Canonical.Amount.{value_from}
use aegis_phase.Gateway.Paths.{contains}
use aegis_phase.Gateway.ContractErrors.{contract_code}
use aegis_phase.Gateway.Chain.Decisions.{Decision}
use aegis_phase.Executor.Errors.{
  Thrown, other, settlement, decision_not_found, mark_settled_failed, source_unavailable,
}
use aegis_phase.Executor.World.{OnChainDecision, ChainClient}

-- `NOT_FOUND`.
abbrev pub not_found_name : Text
not_found_name = codes "DecisionNotFound"

-- The discriminant decides, where there is one.
abbrev pub by_discriminant : Option Text → Text → Bool
by_discriminant (some digits) text = value_from 0 digits == 6
by_discriminant none text = contains not_found_name text

unfoldable pub reads_as_not_found : Text → Bool
unfolding contract_code contains
reads_as_not_found text = by_discriminant (contract_code text) text

-- A simulated view: its raw error, the empty text where there is none, and its value or the message of
-- its `Err`.
pub record View (A : Type 0) : Type 0 where
  pub raw_error : Text
  pub result : Result Text A

unfoldable pub normalize : Decision → OnChainDecision
normalize d = record {
  decision_id = d.decision_id;
  intent_hash = d.intent_hash;
  agent = d.agent;
  service_id = d.service_id;
  asset = d.asset;
  amount = d.amount;
  policy_version = d.policy_version;
  verdict = d.verdict;
  settled = d.settled;
  resolved = d.resolved;
  ledger_seq = d.ledger_seq;
}

abbrev pub not_found_or : {A : Type 0} → Bool → Result Thrown (Option A)
not_found_or true = ok none
not_found_or false = err (settlement source_unavailable)

abbrev pub decision_in : Text → Result Text Decision → Result Thrown (Option OnChainDecision)
decision_in raw (err message) = not_found_or (reads_as_not_found raw || reads_as_not_found message)
decision_in raw (ok d) = ok (some (normalize d))

-- `getDecision`; `none` is "not-found".
unfoldable pub get_decision : Result Text (View Decision) → Result Thrown (Option OnChainDecision)
unfolding reads_as_not_found normalize
get_decision (err message) = not_found_or (reads_as_not_found message)
get_decision (ok view) = decision_in view.raw_error view.result

abbrev pub missing_or : {A : Type 0} → Bool → Result Thrown A
missing_or true = err (settlement decision_not_found)
missing_or false = err (settlement source_unavailable)

-- Of an `Err` the message alone is read.
abbrev pub hash_in : Result Text Bytes → Result Thrown Bytes
hash_in (err message) = missing_or (contains not_found_name message)
hash_in (ok hash) = ok hash

-- `memoHash`.
unfoldable pub memo_hash : Result Text (View Bytes) → Result Thrown Bytes
unfolding reads_as_not_found contains
memo_hash (err message) = missing_or (reads_as_not_found message)
memo_hash (ok view) = hash_in view.result

-- `getTransactionResponse`.
pub record TransactionResponse : Type 0 where
  pub status : Text
  pub ledger : ℕ
  pub tx_hash : Text

-- What simulating `mark_settled` returned, and what signing and sending would return. The getter
-- `result` of the SDK throws where the simulation failed for no error of the contract.
pub record Assembled : Type 0 where
  pub result : Result Text (Result Text (Unit {0}))
  pub sign_and_send : Result Text (Option TransactionResponse)

pub record MarkSettledResult : Type 0 where
  pub ledger : ℕ
  pub tx_hash : Text

abbrev pub failed_to_mark : {A : Type 0} → Result Thrown A
failed_to_mark = err (settlement mark_settled_failed)

abbrev pub confirmed : Result Text (Option TransactionResponse) → Result Thrown MarkSettledResult
confirmed (err message) = failed_to_mark
confirmed (ok none) = failed_to_mark
confirmed (ok (some response)) =
    if text_eq response.status (codes "SUCCESS")
    then ok record { ledger = response.ledger; tx_hash = response.tx_hash }
    else failed_to_mark

-- Whether the transaction was signed and sent, and what came of it.
-- The getter is read outside of the `try`: what it throws is no `SettlementError`.
abbrev pub marked :
    Assembled → Result Text (Result Text (Unit {0})) → Bool × Result Thrown MarkSettledResult
marked tx (err message) = (false, err other)
marked tx (ok (err message)) = (false, failed_to_mark)
marked tx (ok (ok u)) = (true, confirmed tx.sign_and_send)

-- `markSettled`.
unfoldable pub mark_settled : Result Text Assembled → Bool × Result Thrown MarkSettledResult
mark_settled (err message) = (false, failed_to_mark)
mark_settled (ok tx) = marked tx tx.result

-- The contract's client, which answers each call by its number.
pub record Contract : Type 0 where
  pub get_decision : ℕ → Bytes → Result Text (View Decision)
  pub memo_hash : ℕ → Bytes → Result Text (View Bytes)
  pub mark_settled : ℕ → Bytes → Result Text Assembled

abbrev pub ledger_of : Result Thrown MarkSettledResult → Result Thrown ℕ
ledger_of (err thrown) = err thrown
ledger_of (ok r) = ok r.ledger

-- `connect`.
unfoldable pub connect : Contract → ChainClient
unfolding get_decision memo_hash mark_settled
connect contract = record {
  get_decision = λ n id. get_decision (contract.get_decision n id);
  memo_hash = λ n id. memo_hash (contract.memo_hash n id);
  mark_settled = λ n id. ledger_of (mark_settled (contract.mark_settled n id)).1;
}
