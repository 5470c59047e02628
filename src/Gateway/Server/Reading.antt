-- ===== src/Gateway/Server/Reading.antt =====
-- The routes of apps/gateway/src/server.ts that read.
use aegis_phase.Prelude.{
  ℕ, suc, leb, Bool, not, ◌&&◌, Option, none, some, List, [], ◌∷◌, ◌++◌, Text, codes, if◌then◌else◌,
  length,
}
use aegis_phase.Prelude.Result.{Result, ok, err}
use aegis_phase.Gateway.ContractErrors.{ChainError, chain_error_response}
use aegis_phase.Gateway.Chain.Calls.{get_decision, decision_by_intent}
use aegis_phase.Gateway.Chain.Decisions.{ChainDecision}
use aegis_phase.Gateway.Request.{hash32_hex}
use aegis_phase.Gateway.Store.{IntentRow, ApprovalCandidate, IntentStore}
use aegis_phase.Gateway.Server.State.{
  ChainCall, decision_read, intent_read, World, Services, failed_with, decision_with_preimage,
  approvals, reply, bad_request, is_escalated, Handled, client_at, called,
}

module _ (S : IntentStore) (svc : Services) where
  abbrev pub chain_failed : World S → ChainError → Handled S svc
  chain_failed w e =
      let mapped = chain_error_response e in (reply mapped.status (failed_with mapped none), w)

  abbrev pub looked_up : ChainDecision → World S → Option IntentRow × S.State → Handled S svc
  looked_up d w (row, store) =
      (reply 200 (decision_with_preimage d row S.degraded), record w { store = store })

  abbrev pub decision_answer : World S → Result ChainError ChainDecision → Handled S svc
  decision_answer w (err e) = chain_failed w e
  decision_answer w (ok d) = looked_up d w (S.intent_by_hash d.intent_hash w.store)

  abbrev pub decision_at : World S → Option Text → Handled S svc
  decision_at w none = (bad_request (codes "invalid_decision_id"), w)
  decision_at w (some id) =
      decision_answer (called S svc (decision_read id) w) (get_decision (client_at S svc w) id)

  -- `GET /v1/decisions/:id`.
  unfoldable pub get_decisions : Text → World S → Handled S svc
  unfolding hash32_hex get_decision
  get_decisions id w = decision_at w (hash32_hex id)

  abbrev pub intent_answer :
      World S → Option IntentRow → Result ChainError ChainDecision → Handled S svc
  intent_answer w row (err e) = chain_failed w e
  intent_answer w row (ok d) = (reply 200 (decision_with_preimage d row S.degraded), w)

  abbrev pub intent_found : World S → Text → Option IntentRow × S.State → Handled S svc
  intent_found w hash (row, store) =
      intent_answer (called S svc (intent_read hash) (record w { store = store })) row
        (decision_by_intent (client_at S svc w) hash)

  abbrev pub intent_at : World S → Option Text → Handled S svc
  intent_at w none = (bad_request (codes "invalid_intent_hash"), w)
  intent_at w (some hash) = intent_found w hash (S.intent_by_hash hash w.store)

  -- `GET /v1/intents/:intent_hash`.
  unfoldable pub get_intents : Text → World S → Handled S svc
  unfolding hash32_hex decision_by_intent
  get_intents hash w = intent_at w (hash32_hex hash)

  -- What the loop over the candidates has collected, and the calls that it made.
  pub record Collected : Type 0 where
    pub pending : List (ChainDecision × ApprovalCandidate)
    pub unreadable : List Text
    pub asked : List ChainCall

  abbrev pub is_pending : ChainDecision → Bool
  is_pending d = is_escalated d.verdict && not d.resolved

  abbrev pub collected : ApprovalCandidate → Collected → Result ChainError ChainDecision → Collected
  collected c rest (err e) = record rest {
    unreadable = c.row.decision_id ∷ rest.unreadable;
    asked = decision_read c.row.decision_id ∷ rest.asked;
  }
  collected c rest (ok d) = record {
    pending = if is_pending d then (d, c) ∷ rest.pending else rest.pending;
    unreadable = rest.unreadable;
    asked = decision_read c.row.decision_id ∷ rest.asked;
  }

  -- Every candidate is read from the chain, call after call.
  unfoldable pub collect : ℕ → List ApprovalCandidate → Collected
  unfolding get_decision
  collect n [] = record { pending = []; unreadable = []; asked = [] }
  collect n (c ∷ rest) =
      collected c (collect (suc n) rest) (get_decision (svc.chain n) c.row.decision_id)

  abbrev pub listed : World S → List ApprovalCandidate × S.State → Handled S svc
  listed w (candidates, store) =
      let found = collect (length w.calls) candidates in
      (
        reply 200 (approvals found.pending found.unreadable S.degraded),
        record w { store = store; calls = w.calls ++ found.asked },
      )

  -- `ApprovalsQuery`: an integer between 1 and 200, 50 where it is absent; a number is coerced.
  abbrev pub limit_of : Option ℕ → Option ℕ
  limit_of none = some 50
  limit_of (some n) = if leb 1 n && leb n 200 then some n else none

  abbrev pub approvals_with : World S → Option ℕ → Handled S svc
  approvals_with w none = (bad_request (codes "invalid_query"), w)
  approvals_with w (some limit) = listed w (S.approval_candidates limit w.store)

  -- `GET /v1/approvals`.
  unfoldable pub get_approvals : Option ℕ → World S → Handled S svc
  unfolding collect
  get_approvals limit w = approvals_with w (limit_of limit)
