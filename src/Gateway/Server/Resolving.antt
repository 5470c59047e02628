-- ===== src/Gateway/Server/Resolving.antt =====
-- `POST /v1/decisions/:id/resolve` of apps/gateway/src/server.ts.
use aegis_phase.Prelude.{Bool, Option, none, some, [], ◌∷◌, Text, codes}
use aegis_phase.Prelude.Result.{Result, ok, err}
use aegis_phase.Receipt.Json.{Json}
use aegis_phase.Gateway.ContractErrors.{ChainError, chain_error_response}
use aegis_phase.Gateway.Chain.Calls.{resolve}
use aegis_phase.Gateway.Chain.Decisions.{SubmissionResult, Run}
use aegis_phase.Gateway.Request.{resolve_request, hash32_hex}
use aegis_phase.Gateway.Store.{IntentStore}
use aegis_phase.Gateway.Server.State.{
  resolved_as, decision_recorded, intent_failed, World, Services, failed_with, decision_resolved,
  reply, bad_request, hash_told, submissions, decision_row, Handled, client_at, called, noted,
}

module _ (S : IntentStore) (svc : Services) where
  abbrev pub after_resolve :
      Text → Option Text → World S → Result ChainError SubmissionResult → Handled S svc
  after_resolve request_id tx_hash w (err e) =
      let mapped = chain_error_response e in
      (
        reply mapped.status (failed_with mapped none),
        noted S svc (intent_failed request_id mapped.status ∷ []) w,
      )
  after_resolve request_id tx_hash w (ok r) = (
    reply 200 (decision_resolved r.decision tx_hash),
    noted S svc (decision_recorded request_id r.decision.decision_id ∷ []) (record w {
      store = S.record_decision (decision_row r.decision.intent_hash r.decision r tx_hash) w.store;
    }),
  )

  abbrev pub resolve_ran : Text → World S → Run → Handled S svc
  resolve_ran request_id w run =
      after_resolve request_id (hash_told run.0) (noted S svc (submissions request_id run.0) w)
        run.1

  abbrev pub resolve_with : Text → Text → World S → Option (Bool × Option Text) → Handled S svc
  resolve_with request_id id w none = (bad_request (codes "invalid_resolve"), w)
  resolve_with request_id id w (some (approve, remark)) =
      resolve_ran request_id (called S svc (resolved_as id approve) w)
        (resolve (client_at S svc w) id approve)

  abbrev pub resolve_at : Json → Text → World S → Option Text → Handled S svc
  resolve_at json request_id w none = (bad_request (codes "invalid_decision_id"), w)
  resolve_at json request_id w (some id) =
      resolve_with request_id id w (resolve_request svc.nfc json)

  -- `POST /v1/decisions/:id/resolve`.
  unfoldable pub post_resolve : Text → Json → Text → World S → Handled S svc
  unfolding hash32_hex resolve_request resolve hash_told submissions
  post_resolve id json request_id w = resolve_at json request_id w (hash32_hex id)
