-- ===== src/Console/Display.antt =====
-- apps/console/src/aegisApi.ts: what the page shows beside the evidence. The call of the API throws with
-- a message, or it answers with a status and a body, whose JSON may not parse.
pub mod Blank
use aegis_phase.Prelude.{
  ℕ, Bool, not, ◌&&◌, Option, none, some, [], ◌∷◌, Text, codes, if◌then◌else◌, leb, ◌==◌,
}
use aegis_phase.Prelude.Result.{Result, ok, err}
use aegis_phase.Receipt.Json.{
  Json, null, boolean, integer, fraction, string, array, object, Members, end, value_at,
}
use aegis_phase.Gateway.ContractErrors.{or_else}
use aegis_phase.Http.{Response, is_success}

pub record IntentDisplay : Type 0 where
  pub purpose : Option Text
  pub client_ref : Option Text
  pub settlement_tx_hash : Option Text

-- What an `error` says.
pub data LookupError : Type 0 where
  responded : ℕ → LookupError
  non_object_body : LookupError
  thrown : Text → LookupError

pub data AegisApiLookup : Type 0 where
  display_found : IntentDisplay → AegisApiLookup
  display_absent : AegisApiLookup
  display_error : LookupError → AegisApiLookup

unfoldable pub pick_string : Option Json → Option Text
pick_string (some (string (c ∷ s))) = some (c ∷ s)
pick_string other = none

unfoldable pub display_of : Members → IntentDisplay
unfolding pick_string value_at
display_of body = record {
  purpose = pick_string (value_at body (codes "purpose"));
  client_ref =
      or_else (pick_string (value_at body (codes "client_ref")))
        (pick_string (value_at body (codes "clientRef")));
  settlement_tx_hash =
      or_else (pick_string (value_at body (codes "settlement_tx_hash")))
        (pick_string (value_at body (codes "settlementTxHash")));
}

-- An array is an object without these keys.
abbrev pub lookup_of : Result Text Json → AegisApiLookup
lookup_of (err message) = display_error (thrown message)
lookup_of (ok (object members)) = display_found (display_of members)
lookup_of (ok (array items)) = display_found (display_of end)
lookup_of (ok other) = display_error non_object_body

unfoldable pub fetch_intent_display : Result Text Response → AegisApiLookup
unfolding display_of
fetch_intent_display (err message) = display_error (thrown message)
fetch_intent_display (ok res) =
    if res.status == 404
    then display_absent
    else if not (is_success res.status)
    then display_error (responded res.status)
    else lookup_of res.json
