-- ===== src/Gateway/Request.antt =====
-- apps/gateway/src/schema.ts: what a request's body must be. NFC is a parameter; the issues of a
-- refusal are not modelled.
pub mod Hashable
use aegis_phase.Prelude.{
  ℕ, ◌+◌, Bool, true, false, not, ◌&&◌, ◌||◌, Option, none, some, [], ◌∷◌, Text, codes, leb, ltb,
  ◌==◌, length, any, all, if◌then◌else◌,
}
use aegis_phase.Prelude.Result.{Result, ok, err}
use aegis_phase.Canonical.Amount.{is_digit, span_digits}
use aegis_phase.Canonical.Bytes.{encode}
use aegis_phase.Receipt.Json.{
  Json, null, boolean, integer, fraction, string, array, object, Members, value_at,
}

abbrev pub is_full : Text → Bool
is_full [] = false
is_full (c ∷ s) = true

-- One to seven digits after the point.
abbrev pub fraction_ok : Text → Bool
fraction_ok [] = true
fraction_ok (c ∷ s) = c == b'.' && is_full s && leb (length s) 7 && all is_digit s

-- `/^\d+(\.\d{1,7})?$/`.
unfoldable pub is_decimal : Text → Bool
unfolding span_digits
is_decimal s = is_full (span_digits s).0 && fraction_ok (span_digits s).1

-- `/[1-9]/`.
unfoldable pub has_nonzero : Text → Bool
has_nonzero s = any (λ c. leb b'1' c && leb c b'9') s

pub record IntentRequest : Type 0 where
  pub agent_id : Text
  pub service_id : Text
  pub asset : Text
  pub amount : Text
  pub purpose : Text
  pub client_ref : Text

abbrev pub kept : Bool → Text → Option Text
kept true s = some s
kept false s = none

infixl 5 ◌>>=◌
abbrev pub ◌>>=◌ : {A B : Type 0} → Option A → (A → Option B) → Option B
none >>= f = none
some a >>= f = f a

module _ (nfc : Text → Text) where
  unfoldable pub utf8_byte_length : Text → ℕ
  unfolding encode
  utf8_byte_length s = length (encode (nfc s))

  -- `bounded(limit, minLength)`.
  unfoldable pub bounded : ℕ → ℕ → Option Json → Option Text
  unfolding utf8_byte_length
  bounded limit min_length (some (string s)) =
      kept (leb min_length (length s) && leb (utf8_byte_length s) limit) s
  bounded limit min_length other = none

  unfoldable pub amount_field : Option Json → Option Text
  unfolding is_decimal has_nonzero
  amount_field (some (string s)) = kept (is_decimal s && has_nonzero s) s
  amount_field other = none

  unfoldable pub intent_request : Json → Option IntentRequest
  unfolding bounded amount_field
  intent_request (object o) = do
    agent_id ← bounded 255 1 (value_at o (codes "agent_id"))
    service_id ← bounded 255 1 (value_at o (codes "service_id"))
    asset ← bounded 255 1 (value_at o (codes "asset"))
    amount ← amount_field (value_at o (codes "amount"))
    purpose ← bounded 65535 0 (value_at o (codes "purpose"))
    client_ref ← bounded 255 0 (value_at o (codes "client_ref"))
    some record {
      agent_id = agent_id;
      service_id = service_id;
      asset = asset;
      amount = amount;
      purpose = purpose;
      client_ref = client_ref;
    }
  intent_request other = none

  abbrev pub optional_note : Option Json → Option (Option Text)
  optional_note none = some none
  optional_note (some v) = do note ← bounded 1024 0 (some v); some (some note)

  abbrev pub boolean_of : Option Json → Option Bool
  boolean_of (some (boolean b)) = some b
  boolean_of other = none

  -- `ResolveRequest`: `approve` has no default.
  unfoldable pub resolve_request : Json → Option (Bool × Option Text)
  unfolding bounded
  resolve_request (object o) = do
    approve ← boolean_of (value_at o (codes "approve"))
    note ← optional_note (value_at o (codes "note"))
    some (approve, note)
  resolve_request other = none

-- `Hash32Hex`.
unfoldable pub hash32_hex : Text → Option Text
hash32_hex s =
    kept (length s == 64 && all (λ c. (leb b'0' c && leb c b'9') || (leb b'a' c && leb c b'f')) s) s
