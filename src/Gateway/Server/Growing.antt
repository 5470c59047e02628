-- ===== src/Gateway/Server/Growing.antt =====
-- The calls and the transcript of apps/gateway/src/server.ts only grow, and the store is written.
use aegis_phase.Prelude.{
  ℕ, ◌≡◌, refl, sym, ap, ◌∙◌, Bool, true, false, Option, List, [], ◌∷◌, ◌++◌, Text, if◌then◌else◌,
  All,
}
use mathlib.Core.List.{append_assoc, append-nil}
use aegis_phase.Prelude.Result.{Result, ok, err}
use aegis_phase.Gateway.ContractErrors.{ChainError, chain_error_response}
use aegis_phase.Gateway.Chain.Calls.{get_policy}
use aegis_phase.Gateway.Chain.Decisions.{ChainPolicy, ChainDecision, SubmissionResult}
use aegis_phase.Gateway.Request.{IntentRequest}
use aegis_phase.Gateway.Store.{IntentStore}
use aegis_phase.Gateway.Server.Stores.{Updates, no_update, decides, queues, fails}
use aegis_phase.Gateway.Server.Posting.{
  snapshot, snapshot_escalation, escalated, accepted_at, after_authorize,
}
use aegis_phase.Gateway.Server.State.{
  Body, ChainCall, authorized, policy_read, decision_read, intent_read, resolved_as, Transcript,
  decision_recorded, World, Services, is_escalated, client_at, called,
}

abbrev pub IsPolicyRead : ChainCall → Type 0
IsPolicyRead (policy_read a) = Unit {0}
IsPolicyRead (authorized i) = ⊥
IsPolicyRead (resolved_as d a) = ⊥
IsPolicyRead (decision_read d) = ⊥
IsPolicyRead (intent_read h) = ⊥

-- 202 for an escalation and 200 for any other decision; the status of the error otherwise.
abbrev pub status_of : Result ChainError SubmissionResult → ℕ
status_of (ok r) = if is_escalated r.decision.verdict then 202 else 200
status_of (err e) = (chain_error_response e).status

module _ (S : IntentStore) (svc : Services) where
  -- The state only grows at its ends.
  pub record Grows (w w' : World S) : Type 0 where
    pub more_calls : List ChainCall
    pub more_records : List Transcript
    pub calls_grow : w'.calls ≡ w.calls ++ more_calls
    pub transcript_grows : w'.transcript ≡ w.transcript ++ more_records
    pub policy_reads : All IsPolicyRead more_calls
    pub store_updates : Updates S w.store w'.store

  snapshot-Grows :
      (d : ChainDecision) (w : World S) (r : Result ChainError ChainPolicy)
      → Grows w (snapshot S svc d (called S svc (policy_read d.agent) w) r).1
  snapshot-Grows d w (err e) = record {
    more_calls = policy_read d.agent ∷ [];
    more_records = [];
    calls_grow = refl;
    transcript_grows = sym (append-nil w.transcript);
    policy_reads = (tt, tt);
    store_updates = no_update;
  }
  snapshot-Grows d w (ok policy) = record {
    more_calls = policy_read d.agent ∷ [];
    more_records = [];
    calls_grow = refl;
    transcript_grows = sym (append-nil w.transcript);
    policy_reads = (tt, tt);
    store_updates = queues _ _ no_update;
  }

  escalated-Grows : (d : ChainDecision) (b : Bool) (w : World S) → Grows w (escalated S svc d b w).1
  unfolding snapshot_escalation
  escalated-Grows d false w = record {
    more_calls = [];
    more_records = [];
    calls_grow = sym (append-nil w.calls);
    transcript_grows = sym (append-nil w.transcript);
    policy_reads = tt;
    store_updates = no_update;
  }
  escalated-Grows d true w = snapshot-Grows d w (get_policy (client_at S svc w) d.agent)

  accepted_at-status :
      (d : ChainDecision) (b : Bool) (body : Body)
      → (accepted_at S svc d b body).status ≡ (if b then 202 else 200)
  accepted_at-status d true body = refl
  accepted_at-status d false body = refl

  pub after_authorize-Grows :
      (body : IntentRequest) (request_id intent_hex : Text) (tx_hash : Option Text) (w : World S)
      (r : Result ChainError SubmissionResult)
      → Grows w (after_authorize S svc body request_id intent_hex tx_hash w r).1
        × ((after_authorize S svc body request_id intent_hex tx_hash w r).0.status ≡ status_of r)
  after_authorize-Grows body request_id intent_hex tx_hash w (err e) = (
    record {
      more_calls = [];
      more_records = _;
      calls_grow = sym (append-nil w.calls);
      transcript_grows = refl;
      policy_reads = tt;
      store_updates = fails _ no_update;
    },
    refl,
  )
  after_authorize-Grows body request_id intent_hex tx_hash w (ok r) =
      let g = escalated-Grows r.decision (is_escalated r.decision.verdict) w in
      (
        record {
          more_calls = g.more_calls;
          more_records =
              g.more_records ++ (decision_recorded request_id r.decision.decision_id ∷ []);
          calls_grow = g.calls_grow;
          transcript_grows =
              ap (λ t. t ++ decision_recorded request_id r.decision.decision_id ∷ [])
                g.transcript_grows
              ∙ append_assoc w.transcript g.more_records
                  (decision_recorded request_id r.decision.decision_id ∷ []);
          policy_reads = g.policy_reads;
          store_updates = decides _ g.store_updates;
        },
        accepted_at-status r.decision (is_escalated r.decision.verdict) _,
      )
