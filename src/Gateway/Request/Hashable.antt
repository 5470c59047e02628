-- ===== src/Gateway/Request/Hashable.antt =====
-- What apps/gateway/src/schema.ts accepts, against what the canonical hasher takes.
use aegis_phase.Prelude.{
  ◌==◌, all, ℕ, ◌≤◌, ◌<◌, ◌≡◌, refl, Bool, true, false, ◌&&◌, Option, none, some, [], ◌∷◌, Text,
  codes, leb, leb→le, length, and-true, arith,
}
use mathlib.Core.Path.{subst}
use mathlib.Core.Option.{some-injective}
use aegis_phase.Canonical.Bytes.{encode}
use aegis_phase.Receipt.Json.{
  Json, null, boolean, integer, fraction, string, array, object, value_at,
}
use aegis_phase.Canonical.Amount.{is_digit, span_digits, parse_amount}
use aegis_phase.Canonical.Amount.Decimal.{Fraction, parse_amount-pos}
use aegis_phase.Gateway.Request.{
  ok, fraction_ok, is_full, IntentRequest, kept, bounded, amount_field, intent_request, ◌>>=◌,
  is_decimal, has_nonzero, utf8_byte_length,
}

>>=-eq-some :
    {A B : Type 0} (m : Option A) (f : A → Option B) {b : B}
    → (m >>= f) ≡ some b
    → (a : A) × (m ≡ some a) × (f a ≡ some b)
>>=-eq-some none f h = cc
>>=-eq-some (some a) f h = (a, refl, h)

kept-eq-some : (b : Bool) (s : Text) {r : Text} → kept b s ≡ some r → (b ≡ true) × (s ≡ r)
kept-eq-some true s h = (refl, some-injective _ _ h)
kept-eq-some false s h = cc

fraction_ok-Fraction : (s : Text) → fraction_ok s ≡ true → Fraction s
fraction_ok-Fraction [] h = tt
fraction_ok-Fraction (c ∷ s) h =
    let (x, d) = and-true (c == b'.' && is_full s && leb (length s) 7) (all is_digit s) h in
    let (y, l) = and-true (c == b'.' && is_full s) (leb (length s) 7) x in
    let (p, f) = and-true (c == b'.') (is_full s) y in (p, d, full-le s f, leb→le (length s) 7 l)
  where
    full-le : (s : Text) → is_full s ≡ true → 1 ≤ length s
    full-le [] e = cc
    full-le (a ∷ t) e = omega arith

module _ (nfc : Text → Text) where
  bounded-le :
      (limit min_length : ℕ) (v : Option Json) {s : Text}
      → bounded nfc limit min_length v ≡ some s
      → (min_length ≤ length s) × (length (encode (nfc s)) ≤ limit)
  unfolding bounded utf8_byte_length
  bounded-le limit min_length (some (string t)) h =
      let (b, e) =
        kept-eq-some (leb min_length (length t) && leb (length (encode (nfc t))) limit) t h in
      let (x, y) = and-true (leb min_length (length t)) (leb (length (encode (nfc t))) limit) b in
      subst (λ (u : Text). (min_length ≤ length u) × (length (encode (nfc u)) ≤ limit)) e
        (leb→le _ _ x, leb→le _ _ y)
  bounded-le limit min_length none h = cc
  bounded-le limit min_length (some null) h = cc
  bounded-le limit min_length (some (boolean b)) h = cc
  bounded-le limit min_length (some (integer n)) h = cc
  bounded-le limit min_length (some (fraction n)) h = cc
  bounded-le limit min_length (some (array items)) h = cc
  bounded-le limit min_length (some (object o)) h = cc

  amount_field-Decimal :
      (v : Option Json) {s : Text}
      → amount_field nfc v ≡ some s
      → (n : ℕ) × (parse_amount s ≡ ok n) × (0 < n)
  unfolding amount_field is_decimal has_nonzero
  amount_field-Decimal (some (string t)) h =
      let (b, e) = kept-eq-some (is_decimal t && has_nonzero t) t h in
      let (x, y) = and-true (is_decimal t) (has_nonzero t) b in
      let (f, g) = and-true (is_full (span_digits t).0) (fraction_ok (span_digits t).1) x in
      subst (λ (u : Text). (n : ℕ) × (parse_amount u ≡ ok n) × (0 < n)) e
        (parse_amount-pos t (full-lt (span_digits t).0 f) (fraction_ok-Fraction (span_digits t).1 g)
          y)
    where
      full-lt : (u : Text) → is_full u ≡ true → 0 < length u
      full-lt [] k = cc
      full-lt (a ∷ u) k = omega arith
  amount_field-Decimal none h = cc
  amount_field-Decimal (some null) h = cc
  amount_field-Decimal (some (boolean b)) h = cc
  amount_field-Decimal (some (integer n)) h = cc
  amount_field-Decimal (some (fraction n)) h = cc
  amount_field-Decimal (some (array items)) h = cc
  amount_field-Decimal (some (object o)) h = cc

  -- What the schema promises of a request.
  pub record IsRequest (r : IntentRequest) : Type 0 where
    pub stroops : ℕ
    pub parsed : parse_amount r.amount ≡ ok stroops
    pub positive : 0 < stroops
    pub agent_id : length (encode (nfc r.agent_id)) ≤ 255
    pub service_id : length (encode (nfc r.service_id)) ≤ 255
    pub asset : length (encode (nfc r.asset)) ≤ 255
    pub purpose : length (encode (nfc r.purpose)) ≤ 65535
    pub client_ref : length (encode (nfc r.client_ref)) ≤ 255

  pub intent_request-IsRequest :
      (json : Json) (r : IntentRequest) → intent_request nfc json ≡ some r → IsRequest r
  unfolding intent_request
  intent_request-IsRequest (object o) r h =
      let (agent, e1, h1) = >>=-eq-some (bounded nfc 255 1 (value_at o (codes "agent_id"))) _ h in
      let (service, e2, h2) =
        >>=-eq-some (bounded nfc 255 1 (value_at o (codes "service_id"))) _ h1 in
      let (asset, e3, h3) = >>=-eq-some (bounded nfc 255 1 (value_at o (codes "asset"))) _ h2 in
      let (amount, e4, h4) = >>=-eq-some (amount_field nfc (value_at o (codes "amount"))) _ h3 in
      let (purpose, e5, h5) =
        >>=-eq-some (bounded nfc 65535 0 (value_at o (codes "purpose"))) _ h4 in
      let (client, e6, h6) =
        >>=-eq-some (bounded nfc 255 0 (value_at o (codes "client_ref"))) _ h5 in
      let (n, p, q) = amount_field-Decimal (value_at o (codes "amount")) e4 in
      subst IsRequest (some-injective _ _ h6) record {
        stroops = n;
        parsed = p;
        positive = q;
        agent_id = (bounded-le 255 1 (value_at o (codes "agent_id")) e1).1;
        service_id = (bounded-le 255 1 (value_at o (codes "service_id")) e2).1;
        asset = (bounded-le 255 1 (value_at o (codes "asset")) e3).1;
        purpose = (bounded-le 65535 0 (value_at o (codes "purpose")) e5).1;
        client_ref = (bounded-le 255 0 (value_at o (codes "client_ref")) e6).1;
      }
  intent_request-IsRequest null r h = cc
  intent_request-IsRequest (boolean b) r h = cc
  intent_request-IsRequest (integer n) r h = cc
  intent_request-IsRequest (fraction n) r h = cc
  intent_request-IsRequest (string s) r h = cc
  intent_request-IsRequest (array items) r h = cc
