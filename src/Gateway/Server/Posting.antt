-- ===== src/Gateway/Server/Posting.antt =====
-- `POST /v1/intents` of apps/gateway/src/server.ts.
use aegis_phase.Prelude.{
  Bool, true, false, not, Option, none, some, [], ◌∷◌, ◌++◌, Text, codes, if◌then◌else◌,
}
use aegis_phase.Prelude.Result.{Result, ok, err, ◌>>=◌}
use aegis_phase.Prelude.Int.{pos}
use aegis_phase.Canonical.Amount.{RangeError, parse_amount, format_amount}
use aegis_phase.Canonical.Bytes.{to_hex}
use aegis_phase.Canonical.Commitment.{canonical_intent, intent_hash}
use aegis_phase.Receipt.Json.{Json}
use aegis_phase.Gateway.ContractErrors.{ChainError, chain_error_response}
use aegis_phase.Gateway.Chain.Calls.{AuthorizeInput, buffer_of, authorize, get_policy}
use aegis_phase.Gateway.Chain.Decisions.{ChainDecision, ChainPolicy, SubmissionResult, Run}
use aegis_phase.Gateway.Request.{IntentRequest, intent_request}
use aegis_phase.Gateway.Registry
use aegis_phase.Gateway.Registry.{AgentRow, AssetRow, ServiceRow, Registry}
use aegis_phase.Gateway.Store.{IntentRow, IntentStore}
use aegis_phase.Gateway.Server.State.{
  authorized, policy_read, intent_received, decision_recorded, intent_failed,
  canonicalization_rejected, World, Services, Escalation, rendered, unavailable, Body, failed_with,
  decision_of_intent, Reply, reply, bad_request, is_escalated, hash_told, submissions, decision_row,
  destination_in, Canonicalized, intent_of, Handled, client_at, called, noted,
}

module _ (S : IntentStore) (svc : Services) where
  unfoldable pub canonicalize : IntentRequest → Result RangeError Canonicalized
  unfolding parse_amount canonical_intent intent_hash to_hex
  canonicalize body = do
    amount ← parse_amount body.amount
    canonical ← canonical_intent svc.nfc (intent_of body amount)
    hash ← intent_hash svc.sha256 svc.nfc (intent_of body amount)
    ok record { amount = amount; canonical_hex = to_hex canonical; intent_hex = to_hex hash }

  abbrev pub rule_of : ChainDecision → ChainPolicy → Text
  rule_of d policy =
      codes "amount "
      ++ (format_amount d.amount
          ++ (codes " > threshold " ++ format_amount policy.approval_threshold))

  abbrev pub snapshot :
      ChainDecision → World S → Result ChainError ChainPolicy → Escalation × World S
  snapshot d w (err e) = (unavailable e, w)
  snapshot d w (ok policy) = (
    rendered (rule_of d policy) policy.approval_threshold policy.version,
    record w {
      store =
          S.enqueue_approval w.clock
            record {
              decision_id = d.decision_id;
              intent_hash = d.intent_hash;
              rule = rule_of d policy;
              threshold_snapshot = policy.approval_threshold;
              amount = d.amount;
              policy_version_snapshot = policy.version;
            }
            w.store;
    },
  )

  -- `snapshotEscalation`.
  unfoldable pub snapshot_escalation : ChainDecision → World S → Escalation × World S
  unfolding get_policy
  snapshot_escalation d w =
      snapshot d (called S svc (policy_read d.agent) w) (get_policy (client_at S svc w) d.agent)

  abbrev pub some_escalation : Escalation × World S → Option Escalation × World S
  some_escalation (e, w) = (some e, w)

  abbrev pub escalated : ChainDecision → Bool → World S → Option Escalation × World S
  escalated d false w = (none, w)
  escalated d true w = some_escalation (snapshot_escalation d w)

  abbrev pub accepted_at : ChainDecision → Bool → Body → Reply
  accepted_at d true body = record {
    status = 202;
    body = body;
    location = some (codes "/v1/decisions/" ++ d.decision_id);
  }
  accepted_at d false body = reply 200 body

  abbrev pub concluded :
      IntentRequest
      → Text
      → Text
      → SubmissionResult
      → Option Text
      → Option Escalation × World S
      → Handled S svc
  concluded body request_id intent_hex r tx_hash (escalation, w) = (
    accepted_at r.decision (is_escalated r.decision.verdict) (
        decision_of_intent r.decision tx_hash r.submitted
          (destination_in (Registry.service svc.registry body.service_id)) escalation),
    noted S svc (decision_recorded request_id r.decision.decision_id ∷ []) (record w {
      store = S.record_decision (decision_row intent_hex r.decision r tx_hash) w.store;
    }),
  )

  -- What follows `chain.authorize`, in the `try` and in the `catch`.
  abbrev pub after_authorize :
      IntentRequest
      → Text
      → Text
      → Option Text
      → World S
      → Result ChainError SubmissionResult
      → Handled S svc
  after_authorize body request_id intent_hex tx_hash w (ok r) =
      concluded body request_id intent_hex r tx_hash
        (escalated r.decision (is_escalated r.decision.verdict) w)
  after_authorize body request_id intent_hex tx_hash w (err e) =
      let mapped = chain_error_response e in
      (
        reply mapped.status (failed_with mapped (some intent_hex)),
        noted S svc (intent_failed request_id mapped.status ∷ []) (record w {
          store =
              S.record_failure
                record {
                  request_id = request_id;
                  intent_hash = some intent_hex;
                  contract_error = mapped.contract_error;
                  http_status = mapped.status;
                  raw_error = mapped.raw;
                }
                w.store;
        }),
      )

  abbrev pub input_of : IntentRequest → AgentRow → AssetRow → Canonicalized → AuthorizeInput
  input_of body agent asset c = record {
    intent_hash = buffer_of c.intent_hex;
    agent_address = agent.address;
    service_id = body.service_id;
    asset_sac = asset.sac;
    amount = pos c.amount;
  }

  abbrev pub intent_row : IntentRequest → AgentRow → AssetRow → Canonicalized → Text → IntentRow
  intent_row body agent asset c request_id = record {
    intent_hash = c.intent_hex;
    agent_id = body.agent_id;
    service_id = body.service_id;
    asset = body.asset;
    amount = c.amount;
    purpose = body.purpose;
    client_ref = body.client_ref;
    canonical_preimage = c.canonical_hex;
    agent_address = agent.address;
    asset_sac = asset.sac;
    registry_version = svc.registry.registry_version;
    request_id = request_id;
  }

  -- The intent is recorded and told before the chain is called S svc.
  abbrev pub received :
      IntentRequest → AgentRow → AssetRow → Canonicalized → Text → World S → World S
  received body agent asset c request_id w =
      let (first, store) = S.record_intent (intent_row body agent asset c request_id) w.store in
      noted S svc (intent_received request_id c.intent_hex c.canonical_hex (not first) ∷ [])
        (record w { store = store })

  abbrev pub ran : IntentRequest → Text → Text → World S → AuthorizeInput → Run → Handled S svc
  ran body request_id intent_hex w input run =
      after_authorize body request_id intent_hex (hash_told run.0)
        (noted S svc (submissions request_id run.0) (called S svc (authorized input) w)) run.1

  abbrev pub submitted :
      IntentRequest → AgentRow → AssetRow → Canonicalized → Text → World S → Handled S svc
  submitted body agent asset c request_id w =
      ran body request_id c.intent_hex (received body agent asset c request_id w)
        (input_of body agent asset c) (authorize (client_at S svc w) (input_of body agent asset c))

  abbrev pub by_canonical :
      IntentRequest
      → AgentRow
      → AssetRow
      → Text
      → World S
      → Result RangeError Canonicalized
      → Handled S svc
  by_canonical body agent asset request_id w (err e) = (
    bad_request (codes "canonicalization_failed"),
    noted S svc (canonicalization_rejected request_id ∷ []) w,
  )
  by_canonical body agent asset request_id w (ok c) = submitted body agent asset c request_id w

  abbrev pub by_asset : IntentRequest → AgentRow → Text → World S → Option AssetRow → Handled S svc
  by_asset body agent request_id w none = (bad_request (codes "unknown_asset"), w)
  by_asset body agent request_id w (some asset) =
      by_canonical body agent asset request_id w (canonicalize body)

  abbrev pub active_agent : Option AgentRow → Option AgentRow
  active_agent none = none
  active_agent (some a) = if a.active then some a else none

  abbrev pub by_agent : IntentRequest → Text → World S → Option AgentRow → Handled S svc
  by_agent body request_id w none = (bad_request (codes "unknown_agent"), w)
  by_agent body request_id w (some agent) =
      by_asset body agent request_id w (Registry.asset svc.registry body.asset)

  abbrev pub by_request : Text → World S → Option IntentRequest → Handled S svc
  by_request request_id w none = (bad_request (codes "invalid_intent"), w)
  by_request request_id w (some body) =
      by_agent body request_id w (active_agent (Registry.agent svc.registry body.agent_id))

  -- `POST /v1/intents`.
  unfoldable pub post_intents : Json → Text → World S → Handled S svc
  unfolding intent_request canonicalize authorize hash_told submissions snapshot_escalation
  post_intents json request_id w = by_request request_id w (intent_request svc.nfc json)
