-- ===== src/Gateway/Chain/Decisions.antt =====
-- The values of apps/gateway/src/chain.ts, and what a submission does.
use aegis_phase.Prelude.{ℕ, Bool, Option, List, ◌++◌, Text, Bytes}
use aegis_phase.Prelude.Result.{Result, ok, err}
use aegis_phase.Prelude.Int.{ℤ}
use aegis_phase.Canonical.Bytes.{to_hex}
use aegis_phase.Executor.World.{Verdict}
use aegis_phase.Gateway.ContractErrors.{ChainError, rethrow, Returned}

pub data ReasonCode : Type 0 where
  ok_code cap_exceeded service_not_allowed asset_mismatch agent_revoked : ReasonCode
  window_cap_exceeded pending_approval owner_rejected : ReasonCode

-- The ABI's `Decision`.
pub record Decision : Type 0 where
  pub decision_id : Bytes
  pub intent_hash : Bytes
  pub agent : Text
  pub service_id : Text
  pub asset : Text
  pub amount : ℤ
  pub policy_version : ℕ
  pub verdict : Verdict
  pub reason_code : ReasonCode
  pub original_reason_code : ReasonCode
  pub resolved_policy_version : Option ℕ
  pub ledger_seq : ℕ
  pub resolved : Bool
  pub settled : Bool

pub record ChainDecision : Type 0 where
  pub decision_id : Text
  pub intent_hash : Text
  pub agent : Text
  pub service_id : Text
  pub asset : Text
  pub amount : ℤ
  pub policy_version : ℕ
  pub verdict : Verdict
  pub reason_code : ReasonCode
  pub original_reason_code : ReasonCode
  pub resolved_policy_version : Option ℕ
  pub ledger_seq : ℕ
  pub resolved : Bool
  pub settled : Bool

unfoldable pub normalize_decision : Decision → ChainDecision
normalize_decision d = record {
  decision_id = to_hex d.decision_id;
  intent_hash = to_hex d.intent_hash;
  agent = d.agent;
  service_id = d.service_id;
  asset = d.asset;
  amount = d.amount;
  policy_version = d.policy_version;
  verdict = d.verdict;
  reason_code = d.reason_code;
  original_reason_code = d.original_reason_code;
  resolved_policy_version = d.resolved_policy_version;
  ledger_seq = d.ledger_seq;
  resolved = d.resolved;
  settled = d.settled;
}

-- The fields of a policy that the gateway reads.
pub record ChainPolicy : Type 0 where
  pub agent : Text
  pub approval_threshold : ℤ
  pub version : ℕ

-- What `signAndSend` does: the hash that the watcher is told, and the result with its ledger.
pub record Sent : Type 0 where
  pub hash : Option Text
  pub outcome : Result ChainError (Returned Decision × Option ℕ)

-- An assembled transaction.
pub record Assembled : Type 0 where
  pub simulation_error : Option Text
  pub result : Result ChainError (Returned Decision)
  pub is_read_call : Bool
  pub outstanding : List Text
  pub sign_auth_entry : Text → Result ChainError (Unit {0})
  pub send : Sent

pub record SubmissionResult : Type 0 where
  pub decision : ChainDecision
  pub tx_hash : Option Text
  pub ledger_seq : Option ℕ
  pub submitted : Bool

-- What a submission does in order: the hooks that it fires, the entries that it signs, the sending.
pub data Action : Type 0 where
  verdict_known : ChainDecision → Action
  entry_signed : Text → Action
  sent : Action
  accepted_as : Text → Action
  final_in : Text → ℕ → Action

abbrev pub Run : Type 0
Run = List Action × Result ChainError SubmissionResult

abbrev pub after : List Action → Run → Run
after done run = (done ++ run.0, run.1)

abbrev pub caught : {A : Type 0} → Result ChainError A → Result ChainError A
caught (ok a) = ok a
caught (err e) = err (rethrow e)
