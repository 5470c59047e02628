-- ===== src/Gateway/Server/State.antt =====
-- The state of the gateway, and what its handlers of apps/gateway/src/server.ts return.
use aegis_phase.Prelude.{
  ℕ, Bool, true, false, Option, none, some, List, [], ◌∷◌, ◌++◌, Text, Bytes, length,
}
use aegis_phase.Prelude.Int.{ℤ, pos}
use aegis_phase.Canonical.Commitment.{Intent, intent_hash}
use aegis_phase.Executor.World.{Verdict, approved, rejected, requires_approval}
use aegis_phase.Gateway.ContractErrors.{ChainError, MappedError}
use aegis_phase.Gateway.Chain.Calls.{AuthorizeInput, Client}
use aegis_phase.Gateway.Chain.Decisions.{
  ChainDecision, Action, verdict_known, entry_signed, sent, accepted_as, final_in, SubmissionResult,
}
use aegis_phase.Gateway.Request.{IntentRequest}
use aegis_phase.Gateway.Registry.{ServiceRow, Registry}
use aegis_phase.Gateway.Store.{IntentRow, DecisionRow, ApprovalCandidate, IntentStore}

abbrev pub is_escalated : Verdict → Bool
is_escalated approved = false
is_escalated rejected = false
is_escalated requires_approval = true

-- What the gateway asks of the chain.
pub data ChainCall : Type 0 where
  authorized : AuthorizeInput → ChainCall
  resolved_as : Text → Bool → ChainCall
  decision_read : Text → ChainCall
  intent_read : Text → ChainCall
  policy_read : Text → ChainCall

-- The records of the transcript.
pub data Transcript : Type 0 where
  intent_received : Text → Text → Text → Bool → Transcript
  chain_submitted : Text → Text → Transcript
  decision_recorded : Text → Text → Transcript
  intent_failed : Text → ℕ → Transcript
  canonicalization_rejected : Text → Transcript

pub record World (S : IntentStore) : Type 0 where
  pub store : S.State
  pub calls : List ChainCall
  pub transcript : List Transcript
  pub clock : ℕ

-- The chain answers each call by its number.
pub record Services : Type 0 where
  pub registry : Registry
  pub chain : ℕ → Client
  pub nfc : Text → Text
  pub sha256 : Bytes → Bytes

-- The rule of an escalation with what it was rendered from, or why it could not be read.
pub data Escalation : Type 0 where
  rendered : Text → ℤ → ℕ → Escalation
  unavailable : ChainError → Escalation

pub data Body : Type 0 where
  refused : Text → Body
  failed_with : MappedError → Option Text → Body
  decision_of_intent : ChainDecision → Option Text → Bool → Option Text → Option Escalation → Body
  decision_resolved : ChainDecision → Option Text → Body
  decision_with_preimage : ChainDecision → Option IntentRow → Bool → Body
  approvals : List (ChainDecision × ApprovalCandidate) → List Text → Bool → Body

pub record Reply : Type 0 where
  pub status : ℕ
  pub body : Body
  pub location : Option Text

abbrev pub reply : ℕ → Body → Reply
reply status body = record { status = status; body = body; location = none }

abbrev pub bad_request : Text → Reply
bad_request error = reply 400 (refused error)

-- The hash that `onSubmitted` was told last.
unfoldable pub hash_told : List Action → Option Text
hash_told [] = none
hash_told (accepted_as hash ∷ rest) = elim (hash_told rest) [
  | some later ↦ some later
  | none ↦ some hash
]
hash_told (verdict_known d ∷ rest) = hash_told rest
hash_told (entry_signed address ∷ rest) = hash_told rest
hash_told (sent ∷ rest) = hash_told rest
hash_told (final_in hash ledger ∷ rest) = hash_told rest

unfoldable pub submissions : Text → List Action → List Transcript
submissions request_id [] = []
submissions request_id (accepted_as hash ∷ rest) =
    chain_submitted request_id hash ∷ submissions request_id rest
submissions request_id (verdict_known d ∷ rest) = submissions request_id rest
submissions request_id (entry_signed address ∷ rest) = submissions request_id rest
submissions request_id (sent ∷ rest) = submissions request_id rest
submissions request_id (final_in hash ledger ∷ rest) = submissions request_id rest

abbrev pub or_ledger : Option ℕ → ℕ → Option ℕ
or_ledger none n = some n
or_ledger (some ledger) n = some ledger

abbrev pub decision_row : Text → ChainDecision → SubmissionResult → Option Text → DecisionRow
decision_row intent_hash d r tx_hash = record {
  intent_hash = intent_hash;
  decision_id = d.decision_id;
  verdict = d.verdict;
  reason_code = d.reason_code;
  original_reason_code = d.original_reason_code;
  policy_version = d.policy_version;
  resolved = d.resolved;
  settled = d.settled;
  ledger_seq = or_ledger r.ledger_seq d.ledger_seq;
  tx_hash = tx_hash;
}

abbrev pub destination_in : Option ServiceRow → Option Text
destination_in none = none
destination_in (some s) = some s.destination

-- What is hashed and sent.
pub record Canonicalized : Type 0 where
  pub amount : ℕ
  pub canonical_hex : Text
  pub intent_hex : Text

abbrev pub intent_of : IntentRequest → ℕ → Intent
intent_of body amount = record {
  agent_id = body.agent_id;
  service_id = body.service_id;
  asset = body.asset;
  amount = pos amount;
  purpose = body.purpose;
  client_ref = body.client_ref;
}

module _ (S : IntentStore) (svc : Services) where
  abbrev pub Handled : Type 0
  Handled = Reply × World S

  -- The client at the number of this call.
  abbrev pub client_at : World S → Client
  client_at w = svc.chain (length w.calls)

  abbrev pub called : ChainCall → World S → World S
  called call w = record w { calls = w.calls ++ call ∷ [] }

  abbrev pub noted : List Transcript → World S → World S
  noted records w = record w { transcript = w.transcript ++ records }
