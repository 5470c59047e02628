-- ===== src/Console/Display/Blank.antt =====
-- What fetchIntentDisplay of apps/console/src/aegisApi.ts makes of the replies of GET /v1/intents of
-- apps/gateway/src/server.ts.
use aegis_phase.Prelude.{
  ℕ, ◌≡◌, ◌≤◌, refl, arith, Bool, true, false, ◌&&◌, Option, none, some, Text, codes, text_eq,
  if◌then◌else◌, leb, ◌==◌, inl, inr,
}
use aegis_phase.Prelude.Result.{Result, ok, err}
use aegis_phase.Receipt.Json.{Json, string, object, value_at}
use aegis_phase.Gateway.ContractErrors.{ChainError, chain_error_response}
use aegis_phase.Gateway.ContractErrors.Mapped.{chain_error_response-IsFair}
use aegis_phase.Gateway.Chain.Calls.{decision_by_intent}
use aegis_phase.Gateway.Chain.Decisions.{ChainDecision}
use aegis_phase.Gateway.Request.{hash32_hex}
use aegis_phase.Gateway.Store.{IntentRow, IntentStore}
use aegis_phase.Gateway.Server.State.{
  World, Services, Body, decision_with_preimage, Reply, intent_read, client_at, called,
}
use aegis_phase.Gateway.Server.Reading.{get_intents, intent_at, intent_answer}
use aegis_phase.Gateway.Server.Bodies.{decision_body, intent_members, preimage_block}
use aegis_phase.Console.Display.{
  IntentDisplay, AegisApiLookup, display_found, display_absent, display_error, responded, Response,
  pick_string, display_of, fetch_intent_display,
}

-- The JSON of a reply; of the bodies without a decision, whatever it is.
abbrev pub json_of : (Body → Result Text Json) → Body → Result Text Json
json_of other (decision_with_preimage d row degraded) =
    ok (object (decision_body d (preimage_block row degraded)))
json_of other body = other body

abbrev pub sent_as : (Body → Result Text Json) → Reply → Response
sent_as other r = record { status = r.status; json = json_of other r.body }

abbrev pub nothing_shown : IntentDisplay
nothing_shown = record { purpose = none; client_ref = none; settlement_tx_hash = none }

-- By the status alone.
abbrev pub shown_for : ℕ → AegisApiLookup
shown_for status =
    if status == 200
    then display_found nothing_shown
    else if status == 404
    then display_absent
    else display_error (responded status)

module _ (other : Body → Result Text Json) where
  abbrev Shown : Reply → Type 0
  Shown r = fetch_intent_display (ok (sent_as other r)) ≡ shown_for r.status

  decision-Shown :
      (d : ChainDecision) (row : Option IntentRow) (degraded : Bool)
      → fetch_intent_display (
          ok record {
            status = 200;
            json = ok (object (decision_body d (preimage_block row degraded)));
          })
        ≡ display_found nothing_shown
  unfolding fetch_intent_display decision_body preimage_block display_of value_at pick_string
      text_eq
  decision-Shown d none degraded = refl
  decision-Shown d (some row) degraded = refl

  past_success : (n : ℕ) → 400 ≤ n → leb n 299 ≡ false
  past_success n h = ground arith

  not_ok : (n : ℕ) → 400 ≤ n → (n == 200) ≡ false
  not_ok n h = ground arith

  and_false : (b : Bool) → (b && false) ≡ false
  and_false true = refl
  and_false false = refl

  -- A status of an error leaves the body unread.
  error-Shown : (r : Reply) → 400 ≤ r.status → Shown r
  unfolding fetch_intent_display
  error-Shown r h =
      rw (past_success r.status h, not_ok r.status h, and_false (leb 200 r.status)) refl

  failed-status : (e : ChainError) → 400 ≤ (chain_error_response e).status
  failed-status e = elim (chain_error_response-IsFair e) [
    | inl (a, h) ↦ omega arith
    | inr (a, h, k) ↦ h
  ]

  module _ (S : IntentStore) (svc : Services) where
    answer-Shown :
        (w : World S) (row : Option IntentRow) (r : Result ChainError ChainDecision)
        → Shown (intent_answer S svc w row r).0
    answer-Shown w row (ok d) = decision-Shown d row S.degraded
    answer-Shown w row (err e) = error-Shown (intent_answer S svc w row (err e)).0 (failed-status e)

    at-Shown : (w : World S) (hash : Option Text) → Shown (intent_at S svc w hash).0
    at-Shown w none = error-Shown (intent_at S svc w none).0 (omega arith)
    at-Shown w (some hash) =
        let (row, store) = S.intent_by_hash hash w.store in
        answer-Shown (called S svc (intent_read hash) (record w { store = store })) row
          (decision_by_intent (client_at S svc w) hash)

-- Of any reply of the gateway to `GET /v1/intents`, the page shows what the status alone says: of a
-- decision it finds neither a purpose, nor a reference, nor a hash of the settlement, although the body
-- that the gateway sends has, under `preimage`, the purpose and the reference of the stored row.
pub get_intents-Shown :
    (other : Body → Result Text Json) (S : IntentStore) (svc : Services) (hash : Text) (w : World S)
    (d : ChainDecision) (row : IntentRow) (degraded : Bool)
    → (fetch_intent_display (ok (sent_as other (get_intents S svc hash w).0))
        ≡ shown_for (get_intents S svc hash w).0.status)
      × (value_at (decision_body d (preimage_block (some row) degraded)) (codes "preimage")
          ≡ some (object (intent_members row)))
      × (value_at (intent_members row) (codes "purpose") ≡ some (string row.purpose))
      × (value_at (intent_members row) (codes "client_ref") ≡ some (string row.client_ref))
unfolding get_intents decision_body preimage_block value_at text_eq
get_intents-Shown other S svc hash w d row degraded =
    (at-Shown other S svc w (hash32_hex hash), refl, refl, refl)
