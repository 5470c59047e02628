-- ===== src/Gateway/Store.antt =====
-- apps/gateway/src/db/store.ts: the rows, the store's interface, the store in memory and the one on
-- tables. A time is a number.
pub mod Degraded
pub mod Postgres
use aegis_phase.Prelude.{ℕ, Bool, Option, List, Text}
use aegis_phase.Prelude.Int.{ℤ}
use aegis_phase.Executor.World.{Verdict}
use aegis_phase.Gateway.Chain.Decisions.{ReasonCode}

pub record IntentRow : Type 0 where
  pub intent_hash : Text
  pub agent_id : Text
  pub service_id : Text
  pub asset : Text
  pub amount : ℕ
  pub purpose : Text
  pub client_ref : Text
  pub canonical_preimage : Text
  pub agent_address : Text
  pub asset_sac : Text
  pub registry_version : ℕ
  pub request_id : Text

pub record DecisionRow : Type 0 where
  pub intent_hash : Text
  pub decision_id : Text
  pub verdict : Verdict
  pub reason_code : ReasonCode
  pub original_reason_code : ReasonCode
  pub policy_version : ℕ
  pub resolved : Bool
  pub settled : Bool
  pub ledger_seq : Option ℕ
  pub tx_hash : Option Text

pub record ApprovalRow : Type 0 where
  pub decision_id : Text
  pub intent_hash : Text
  pub rule : Text
  pub threshold_snapshot : ℤ
  pub amount : ℤ
  pub policy_version_snapshot : ℕ

pub record FailureRow : Type 0 where
  pub request_id : Text
  pub intent_hash : Option Text
  pub contract_error : Option Text
  pub http_status : ℕ
  pub raw_error : Text

pub record ApprovalCandidate : Type 0 where
  pub row : ApprovalRow
  pub escalated_at : ℕ
  pub agent_id : Option Text
  pub service_id : Option Text
  pub purpose : Option Text
  pub client_ref : Option Text

-- `IntentStore`: a method takes the state and returns the next one with its result.
pub record IntentStore : Type 1 where
  pub State : Type 0
  pub degraded : Bool
  pub record_intent : IntentRow → State → Bool × State
  pub record_decision : DecisionRow → State → State
  pub enqueue_approval : ℕ → ApprovalRow → State → State
  pub record_failure : FailureRow → State → State
  pub approval_candidates : ℕ → State → List ApprovalCandidate × State
  pub intent_by_hash : Text → State → Option IntentRow × State
