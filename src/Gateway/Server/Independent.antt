-- ===== src/Gateway/Server/Independent.antt =====
-- The reply to a posted intent of apps/gateway/src/server.ts does not depend on the store.
use aegis_phase.Prelude.{
  ◌≡◌, refl, ap, ◌∙◌, Bool, true, false, Option, none, some, List, [], ◌∷◌, ◌++◌, Text, length,
}
use aegis_phase.Prelude.Result.{Result, ok, err}
use aegis_phase.Canonical.Amount.{RangeError}
use aegis_phase.Receipt.Json.{Json}
use aegis_phase.Gateway.ContractErrors.{ChainError}
use aegis_phase.Gateway.Chain.Calls.{Client, authorize, get_policy}
use aegis_phase.Gateway.Chain.Decisions.{ChainPolicy, ChainDecision, SubmissionResult}
use aegis_phase.Gateway.Request.{intent_request, IntentRequest}
use aegis_phase.Gateway.Registry
use aegis_phase.Gateway.Registry.{AgentRow, AssetRow}
use aegis_phase.Gateway.Store.{IntentStore}
use aegis_phase.Gateway.Server.Posting.{
  snapshot, snapshot_escalation, escalated, accepted_at, after_authorize, canonicalize, input_of,
  received, ran, submitted, by_canonical, by_asset, by_agent, by_request, post_intents,
}
use aegis_phase.Gateway.Server.State.{
  decision_of_intent, destination_in, ChainCall, authorized, policy_read, World, Services,
  Canonicalized, is_escalated, hash_told, Escalation, client_at, called, Handled, submissions,
  noted,
}

module _ (S S' : IntentStore) (svc : Services) where
  -- The same reply, after the same calls.
  abbrev pub Alike : Handled S svc → Handled S' svc → Type 0
  Alike h h' = (h.0 ≡ h'.0) × (h.1.calls ≡ h'.1.calls)

  module _ (w : World S) (w' : World S') (same : w.calls ≡ w'.calls) where
    snapshot-Alike :
        (d : ChainDecision) (r : Result ChainError ChainPolicy)
        → let s = snapshot S svc d (called S svc (policy_read d.agent) w) r in
          let s' = snapshot S' svc d (called S' svc (policy_read d.agent) w') r in
          (s.0 ≡ s'.0) × (s.1.calls ≡ s'.1.calls)
    snapshot-Alike d (err e) = (refl, ap (λ l. l ++ policy_read d.agent ∷ []) same)
    snapshot-Alike d (ok policy) = (refl, ap (λ l. l ++ policy_read d.agent ∷ []) same)

    client_same : client_at S svc w ≡ client_at S' svc w'
    client_same = ap (λ (l : List ChainCall). svc.chain (length l)) same

    escalated-Alike :
        (d : ChainDecision) (b : Bool)
        → ((escalated S svc d b w).0 ≡ (escalated S' svc d b w').0)
          × ((escalated S svc d b w).1.calls ≡ (escalated S' svc d b w').1.calls)
    unfolding snapshot_escalation
    escalated-Alike d false = (refl, same)
    escalated-Alike d true =
        let (a, b) = snapshot-Alike d (get_policy (client_at S svc w) d.agent) in
        let e =
          ap
            (λ (c : Client).
              snapshot S' svc d (called S' svc (policy_read d.agent) w') (get_policy c d.agent))
            client_same in
        (ap some (a ∙ ap (λ s. s.0) e), b ∙ ap (λ s. s.1.calls) e)

    after_authorize-Alike :
        (body : IntentRequest) (request_id intent_hex : Text) (tx_hash : Option Text)
        (r : Result ChainError SubmissionResult)
        → Alike
            (after_authorize S svc body request_id intent_hex tx_hash w r)
            (after_authorize S' svc body request_id intent_hex tx_hash w' r)
    after_authorize-Alike body request_id intent_hex tx_hash (err e) = (refl, same)
    after_authorize-Alike body request_id intent_hex tx_hash (ok r) =
        let (a, b) = escalated-Alike r.decision (is_escalated r.decision.verdict) in
        (
          ap
              (λ (e : Option Escalation).
                accepted_at S svc r.decision (is_escalated r.decision.verdict) (
                  decision_of_intent r.decision tx_hash r.submitted
                    (destination_in (Registry.service svc.registry body.service_id)) e))
              a,
          b,
        )

  submitted-Alike :
      (w : World S) (w' : World S') (body : IntentRequest) (agent : AgentRow) (asset : AssetRow)
      (c : Canonicalized) (request_id : Text)
      → w.calls ≡ w'.calls
      → Alike
          (submitted S svc body agent asset c request_id w)
          (submitted S' svc body agent asset c request_id w')
  submitted-Alike w w' body agent asset c request_id same =
      let input = input_of S svc body agent asset c in
      let run = authorize (client_at S svc w) input in
      let (a, b) =
        after_authorize-Alike
          (noted S svc (submissions request_id run.0)
            (called S svc (authorized input) (received S svc body agent asset c request_id w)))
          (noted S' svc (submissions request_id run.0)
            (called S' svc (authorized input) (received S' svc body agent asset c request_id w')))
          (ap (λ l. l ++ authorized input ∷ []) same) body request_id c.intent_hex (hash_told run.0)
          run.1 in
      let e =
        ap
          (λ (k : Client).
            ran S' svc body request_id c.intent_hex
              (received S' svc body agent asset c request_id w') input (authorize k input))
          (client_same w w' same) in
      (a ∙ ap (λ h. h.0) e, b ∙ ap (λ h. h.1.calls) e)

  module _ (w : World S) (w' : World S') (same : w.calls ≡ w'.calls) (request_id : Text) where
    by_canonical-Alike :
        (body : IntentRequest) (agent : AgentRow) (asset : AssetRow)
        (r : Result RangeError Canonicalized)
        → Alike
            (by_canonical S svc body agent asset request_id w r)
            (by_canonical S' svc body agent asset request_id w' r)
    by_canonical-Alike body agent asset (err e) = (refl, same)
    by_canonical-Alike body agent asset (ok c) =
        submitted-Alike w w' body agent asset c request_id same

    by_asset-Alike :
        (body : IntentRequest) (agent : AgentRow) (o : Option AssetRow)
        → Alike
            (by_asset S svc body agent request_id w o)
            (by_asset S' svc body agent request_id w' o)
    unfolding canonicalize
    by_asset-Alike body agent none = (refl, same)
    by_asset-Alike body agent (some asset) =
        by_canonical-Alike body agent asset (canonicalize S svc body)

    by_agent-Alike :
        (body : IntentRequest) (o : Option AgentRow)
        → Alike (by_agent S svc body request_id w o) (by_agent S' svc body request_id w' o)
    by_agent-Alike body none = (refl, same)
    by_agent-Alike body (some agent) = by_asset-Alike body agent _

    by_request-Alike :
        (o : Option IntentRequest)
        → Alike (by_request S svc request_id w o) (by_request S' svc request_id w' o)
    by_request-Alike none = (refl, same)
    by_request-Alike (some body) = by_agent-Alike body _

    -- With the same calls made before, two gateways with any two stores, in any states, give the same
    -- reply to a posted intent and make the same calls: a store that fails, or that is absent, never
    -- changes what is decided.
    pub post_intents-Alike :
        (json : Json)
        → Alike (post_intents S svc json request_id w) (post_intents S' svc json request_id w')
    unfolding post_intents
    post_intents-Alike json = by_request-Alike (intent_request svc.nfc json)
