-- ===== src/Verifier/Verify.antt =====
-- tools/verifier/src/verify.ts: what is fetched, which checks are made of it, and the report. The
-- texts that say why a check could not be made are left out.
use aegis_phase.Prelude.{
  ℕ, Bool, true, false, Option, none, some, List, [], ◌∷◌, ◌++◌, Text, Bytes, codes,
}
use aegis_phase.Prelude.Result.{Result, ok, err, ◌>>=◌}
use aegis_phase.Canonical.Amount.{RangeError}
use aegis_phase.Canonical.Bytes.{from_hex}
use aegis_phase.Verifier.Types.{
  Check, from_receipt, from_horizon, from_rpc, from_derived, from_registry, pass, fail, unavailable,
  exit_code_for, verdict_for,
}
use aegis_phase.Verifier.Sources.{
  HorizonTransaction, HorizonOperation, MemoScan, ChainDecision, ChainReader, ServiceRegistry,
  service_of, Receipt, CliOptions, Sources, Outage,
}
use aegis_phase.Verifier.Checks.{
  check_tx_matches_receipt, check_transaction_successful, check_transaction_not_found,
  check_single_payment_operation, check_decision_not_found, check_decision_found,
  check_verdict_approved, check_settled, check_receipt_matches_decision, check_contract_memo_hash,
  check_receipt_memo_hash, check_payment_amount, check_destination, check_source,
  check_settlement_order, check_replay, check_registry_contract, check_memo_is_hash32,
  check_memo_commitment, check_receipt_preimage, check_payment_asset, check_decision_id_derivation,
}
use aegis_phase.Verifier.Scan.{scan_for_memo}

-- What `verify` throws: a usage error, or the `RangeError` of a malformed receipt.
pub data VerifyError : Type 0 where
  usage_error malformed : VerifyError

-- The addresses that the report names.
pub record Resolved : Type 0 where
  pub horizon : Text
  pub rpc : Text
  pub contract : Text
  pub network_passphrase : Text
  pub registry : Option Text

pub record VerifyReport : Type 0 where
  pub tx : Text
  pub receipt_path : Text
  pub strict : Bool
  pub resolved : Resolved
  pub checks : List Check
  pub verdict : Text
  pub exit_code : ℕ

pub record LedgerRead : Type 0 where
  pub checks : List Check
  pub tx : Option HorizonTransaction
  pub payment : Option HorizonOperation
  pub memo : Option Bytes

pub record ChainRead : Type 0 where
  pub checks : List Check
  pub decision : Option ChainDecision
  pub memo_hash : Option Bytes
  pub settled_ledger : Option ℕ

abbrev pub or_else : Option Text → Text → Text
or_else none t = t
or_else (some o) t = o

-- A source that gives no answer, or that it has nothing, gives no value.
abbrev pub answer : {A : Type 0} → Result Outage (Option A) → Option A
answer (ok found) = found
answer (err e) = none

abbrev pub loaded : Result Outage ServiceRegistry → Option ServiceRegistry
loaded (ok registry) = some registry
loaded (err e) = none

abbrev pub no_transaction : Check → LedgerRead
no_transaction first = record {
  checks =
      first
      ∷ unavailable (codes "horizon.single_payment") from_horizon
      ∷ unavailable (codes "horizon.memo_hash") from_horizon
      ∷ [];
  tx = none;
  payment = none;
  memo = none;
}

-- The checks of the chain when there is no decision.
abbrev pub no_decision : Check → List Check
no_decision first =
    first
    ∷ unavailable (codes "rpc.verdict_approved") from_rpc
    ∷ unavailable (codes "rpc.settled") from_rpc
    ∷ unavailable (codes "rpc.receipt_matches_decision") from_rpc
    ∷ []

abbrev pub no_chain : ChainRead
no_chain = record {
  checks = no_decision (unavailable (codes "rpc.decision_found") from_rpc);
  decision = none;
  memo_hash = none;
  settled_ledger = none;
}

abbrev pub pinned_check : Text → Option Text → Check
pinned_check contract none = unavailable (codes "registry.contract") from_registry
pinned_check contract (some pinned) = check_registry_contract contract pinned

abbrev pub registry_check : Text → Option ServiceRegistry → Check
registry_check contract none = unavailable (codes "registry.contract") from_registry
registry_check contract (some registry) = pinned_check contract registry.contract_id

abbrev pub contract_memo_check : Option Bytes → Bytes → Check
contract_memo_check none memo = unavailable (codes "rpc.contract_memo_hash") from_rpc
contract_memo_check (some m) memo = check_contract_memo_hash m memo

abbrev pub destination_check : HorizonOperation → Option Text → Check
destination_check payment none = fail (codes "payment.destination") from_registry
destination_check payment (some destination) = check_destination payment destination

abbrev pub payee_check : ServiceRegistry → Option HorizonOperation → Option ChainDecision → Check
payee_check registry (some payment) (some decision) =
    destination_check payment (service_of registry decision.service_id)
payee_check registry _ _ = unavailable (codes "payment.destination") from_registry

abbrev pub source_check : Option HorizonTransaction → Option Text → Check
source_check (some tx) (some executor) = check_source tx executor
source_check _ _ = unavailable (codes "payment.source") from_registry

-- `registryChecks`.
abbrev pub registry_checks : Option ServiceRegistry → LedgerRead → Option ChainDecision → List Check
registry_checks none ledger decision =
    unavailable (codes "payment.destination") from_registry
    ∷ unavailable (codes "payment.source") from_registry
    ∷ []
registry_checks (some registry) ledger decision =
    payee_check registry ledger.payment decision ∷ source_check ledger.tx registry.executor ∷ []

abbrev pub order_check : Option ℕ → Option HorizonTransaction → Check
order_check (some settled_ledger) (some tx) = check_settlement_order settled_ledger tx.ledger
order_check _ _ = unavailable (codes "strict.settle_order") from_rpc

abbrev pub listed : Option Text → List Text
listed none = []
listed (some t) = t ∷ []

abbrev published : Option ServiceRegistry → Option ChainDecision → List Text
published (some registry) (some decision) =
    listed (service_of registry decision.service_id) ++ listed registry.executor
published _ _ = []

-- The accounts that the settlement touched, from the ledger and the registry.
abbrev pub accounts_of :
    HorizonTransaction
    → Option HorizonOperation
    → Option ServiceRegistry
    → Option ChainDecision
    → List Text
accounts_of tx payment registry decision =
    tx.source_account
    ∷ (elim payment [ none ↦ [] | some p ↦ listed p.to ] ++ published registry decision)

abbrev pub scanned : Result Outage MemoScan → Text → Check
scanned (ok scan) tx = check_replay scan tx
scanned (err e) tx = unavailable (codes "replay.unique") from_horizon

-- `fromHex` throws for the whole of `verify`.
abbrev pub thrown : {A : Type 0} → Result RangeError A → Result VerifyError A
thrown (ok a) = ok a
thrown (err e) = err malformed

module _ (s : Sources) where
  abbrev pub operations_read :
      HorizonTransaction → Result Outage (List HorizonOperation) → Check × Option HorizonOperation
  operations_read tx (ok ops) = check_single_payment_operation tx ops
  operations_read tx (err e) = (unavailable (codes "horizon.single_payment") from_horizon, none)

  abbrev pub ledger_of :
      Result Outage (Option HorizonTransaction) → Result Outage (List HorizonOperation) → LedgerRead
  ledger_of (err e) fetched =
      no_transaction (unavailable (codes "horizon.tx_successful") from_horizon)
  ledger_of (ok none) fetched = no_transaction check_transaction_not_found
  ledger_of (ok (some tx)) fetched = record {
    checks =
        check_transaction_successful tx
        ∷ (operations_read tx fetched).0
        ∷ (check_memo_is_hash32 s tx).0
        ∷ [];
    tx = some tx;
    payment = (operations_read tx fetched).1;
    memo = (check_memo_is_hash32 s tx).1;
  }

  -- `readLedger`; the operations are fetched only for a transaction that was found.
  abbrev pub read_ledger : Text → Text → LedgerRead
  read_ledger horizon tx =
      ledger_of (s.fetch_transaction horizon tx) (s.fetch_operations horizon tx)

  abbrev pub chain_checks : Receipt → Option ChainDecision → List Check
  chain_checks receipt none = no_decision check_decision_not_found
  chain_checks receipt (some d) =
      check_decision_found d
      ∷ check_verdict_approved d
      ∷ check_settled d
      ∷ check_receipt_matches_decision receipt d
      ∷ []

  abbrev pub decision_read :
      ChainReader → Receipt → Bytes → Bool → Result Outage (Option ChainDecision) → ChainRead
  decision_read reader receipt id strict (err e) = no_chain
  decision_read reader receipt id strict (ok found) = record {
    checks = chain_checks receipt found;
    decision = found;
    memo_hash = answer (reader.memo_hash id);
    settled_ledger = elim strict [
      | true ↦ answer (reader.decision_entry_last_modified_ledger id)
      | false ↦ none
    ];
  }

  abbrev pub chain_of : Receipt → Bool → Bytes → Result Outage ChainReader → ChainRead
  chain_of receipt strict id (err e) = no_chain
  chain_of receipt strict id (ok reader) =
      decision_read reader receipt id strict (reader.get_decision id)

  -- `readChain`.
  unfoldable pub read_chain : Text → Text → Text → Receipt → Bool → Result RangeError ChainRead
  read_chain contract rpc passphrase receipt strict = do
    id ← from_hex receipt.chain.decision_id
    ok (chain_of receipt strict id (s.connect contract rpc passphrase))

  abbrev pub registry_at : Option Text → Option ServiceRegistry
  registry_at none = none
  registry_at (some path) = loaded (s.load_registry path)

  -- `readRegistry`.
  abbrev pub read_registry : CliOptions → Option ServiceRegistry
  read_registry options = registry_at (s.find_registry_path options.registry options.receipt)

  unfoldable pub commitment_checks :
      Receipt → Option Bytes → Option Bytes → Result RangeError (List Check)
  commitment_checks receipt none contract_memo = ok (
      unavailable (codes "receipt.memo_hash") from_receipt
      ∷ unavailable (codes "commitment.memo_matches") from_derived
      ∷ unavailable (codes "receipt.preimage") from_receipt
      ∷ unavailable (codes "rpc.contract_memo_hash") from_rpc
      ∷ [])
  commitment_checks receipt (some memo) contract_memo = do
    commitment ← check_memo_commitment s receipt memo
    preimage ← check_receipt_preimage s receipt memo
    ok (
        check_receipt_memo_hash receipt memo
        ∷ commitment
        ∷ preimage
        ∷ contract_memo_check contract_memo memo
        ∷ [])

  unfoldable pub payment_checks : Option HorizonOperation → Option ChainDecision → Text → List Check
  payment_checks (some payment) (some decision) passphrase =
      check_payment_amount payment decision ∷ check_payment_asset s payment passphrase decision ∷ []
  payment_checks _ _ passphrase =
      unavailable (codes "payment.amount") from_horizon
      ∷ unavailable (codes "payment.asset") from_derived
      ∷ []

  unfoldable pub derivation_check : Option ChainDecision → Result RangeError Check
  derivation_check none = ok (unavailable (codes "strict.decision_id") from_derived)
  derivation_check (some decision) = check_decision_id_derivation s decision

  unfoldable pub strict_checks :
      Bool
      → Option ChainDecision
      → Option ℕ
      → Option HorizonTransaction
      → Result RangeError (List Check)
  unfolding derivation_check
  strict_checks false decision settled_ledger tx = ok []
  strict_checks true decision settled_ledger tx = do
    derivation ← derivation_check decision
    ok (derivation ∷ order_check settled_ledger tx ∷ [])

  -- `replayCheck`.
  unfoldable pub replay_check :
      Text
      → Text
      → Option Bytes
      → Option HorizonTransaction
      → Option HorizonOperation
      → Option ServiceRegistry
      → Option ChainDecision
      → Check
  replay_check horizon tx_hash (some memo) (some tx) payment registry decision =
      scanned
        (scan_for_memo s horizon (accounts_of tx payment registry decision) (s.to_base64 memo))
        tx_hash
  replay_check horizon tx_hash _ _ payment registry decision =
      unavailable (codes "replay.unique") from_horizon

  abbrev pub report : CliOptions → Resolved → List Check → VerifyReport
  report options resolved checks = record {
    tx = options.tx;
    receipt_path = options.receipt;
    strict = options.strict;
    resolved = resolved;
    checks = checks;
    verdict = verdict_for (exit_code_for checks);
    exit_code = exit_code_for checks;
  }

  abbrev pub unresolved : CliOptions → Resolved
  unresolved options = record {
    horizon = or_else options.horizon (codes "(unresolved)");
    rpc = or_else options.rpc (codes "(unresolved)");
    contract = or_else options.contract (codes "(unresolved)");
    network_passphrase = or_else options.network (codes "(unresolved)");
    registry = none;
  }

  abbrev pub resolve : CliOptions → Receipt → Option ServiceRegistry → Resolved
  resolve options receipt registry = record {
    horizon = or_else options.horizon receipt.network.horizon;
    rpc = or_else options.rpc receipt.network.rpc;
    contract = or_else options.contract receipt.network.contract_id;
    network_passphrase = or_else options.network receipt.network.passphrase;
    registry = elim registry [ none ↦ none | some r ↦ some r.path ];
  }

  -- The checks of a receipt, from what the three sources gave.
  unfoldable pub all_checks :
      CliOptions
      → Receipt
      → LedgerRead
      → ChainRead
      → Option ServiceRegistry
      → Result RangeError (List Check)
  unfolding commitment_checks payment_checks strict_checks replay_check
  all_checks options receipt ledger chain registry =
      let r = resolve options receipt registry in
      do
        commitment ← commitment_checks receipt ledger.memo chain.memo_hash
        strict ← strict_checks options.strict chain.decision chain.settled_ledger ledger.tx
        ok (
            pass (codes "receipt.parse") from_receipt
            ∷ check_tx_matches_receipt options.tx receipt
            ∷ registry_check r.contract registry
            ∷ (ledger.checks
                ++ (chain.checks
                    ++ (commitment
                        ++ (payment_checks ledger.payment chain.decision r.network_passphrase
                            ++ (registry_checks registry ledger chain.decision
                                ++ (strict
                                    ++ replay_check r.horizon options.tx ledger.memo ledger.tx
                                        ledger.payment registry chain.decision
                                      ∷ [])))))))

  -- `verify`, with a receipt that was parsed.
  unfoldable pub verify_receipt : CliOptions → Receipt → Result RangeError VerifyReport
  unfolding read_chain all_checks
  verify_receipt options receipt =
      let registry = read_registry options in
      let r = resolve options receipt registry in
      do
        chain ← read_chain r.contract r.rpc r.network_passphrase receipt options.strict
        checks ← all_checks options receipt (read_ledger r.horizon options.tx) chain registry
        ok (report options r checks)

  unfoldable pub verify_parsed : CliOptions → Option Receipt → Result VerifyError VerifyReport
  unfolding verify_receipt
  verify_parsed options none =
      ok (report options (unresolved options) (fail (codes "receipt.parse") from_receipt ∷ []))
  verify_parsed options (some receipt) = thrown (verify_receipt options receipt)

  unfoldable pub verify_text : CliOptions → Result Outage Text → Result VerifyError VerifyReport
  unfolding verify_parsed
  verify_text options (err e) = err usage_error
  verify_text options (ok text) = verify_parsed options (s.parse_receipt_json text)

  -- `verify`.
  unfoldable pub verify : CliOptions → Result VerifyError VerifyReport
  unfolding verify_text
  verify options = verify_text options (s.read_file options.receipt)
