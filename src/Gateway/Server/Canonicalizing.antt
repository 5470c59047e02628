-- ===== src/Gateway/Server/Canonicalizing.antt =====
-- `canonicalize` of apps/gateway/src/server.ts.
use aegis_phase.Prelude.{
  ◌^◌, ◌↔◌, ◌<◌, false, some, lt→ltb, ltb→lt, arith, ℕ, ◌≡◌, refl, sym, ap, ◌∙◌, Bytes,
}
use mathlib.Core.Path.{subst}
use aegis_phase.Prelude.Result.{ok, >>=-eq-ok, ok-injective}
use aegis_phase.Canonical.Amount.{parse_amount}
use aegis_phase.Canonical.Bytes.{to_hex}
use aegis_phase.Canonical.Commitment.{canonical_intent, intent_hash}
use aegis_phase.Gateway.Request.{IntentRequest}
use aegis_phase.Gateway.Store.{IntentStore}
use aegis_phase.Gateway.Server.Posting.{canonicalize}
use aegis_phase.Gateway.Server.State.{Services, Canonicalized, intent_of}
use aegis_phase.Prelude.Result.{Total}
use aegis_phase.Prelude.Int.{pos, leb_ℤ}
use aegis_phase.Canonical.Commitment.Injective.{layout, canonical_intent_iff, layout_lem}
use aegis_phase.Receipt.Json.{Json}
use aegis_phase.Gateway.Request.{intent_request}
use aegis_phase.Gateway.Request.Hashable.{IsRequest, intent_request-IsRequest}

module _ (S : IntentStore) (svc : Services) where
  pub canonicalize-eq-ok :
      (body : IntentRequest) (c : Canonicalized)
      → canonicalize S svc body ≡ ok c
      → (canonical : Bytes) × (parse_amount body.amount ≡ ok c.amount)
        × (canonical_intent svc.nfc (intent_of body c.amount) ≡ ok canonical)
        × (c.canonical_hex ≡ to_hex canonical)
        × (c.intent_hex ≡ to_hex (svc.sha256 canonical))
  unfolding canonicalize intent_hash
  canonicalize-eq-ok body c h =
      let (amount, e1, h1) = >>=-eq-ok (parse_amount body.amount) _ h in
      let (canonical, e2, h2) = >>=-eq-ok (canonical_intent svc.nfc (intent_of body amount)) _ h1 in
      let (hash, e3, h3) =
        >>=-eq-ok (intent_hash svc.sha256 svc.nfc (intent_of body amount)) _ h2 in
      let same = ok-injective h3 in
      subst
        (λ (x : Canonicalized).
          (b : Bytes) × (parse_amount body.amount ≡ ok x.amount)
          × (canonical_intent svc.nfc (intent_of body x.amount) ≡ ok b)
          × (x.canonical_hex ≡ to_hex b)
          × (x.intent_hex ≡ to_hex (svc.sha256 b)))
        same
        (canonical, e1, e2, refl, ap to_hex (ok-injective (sym e3 ∙ hash_lem amount canonical e2)))
    where
      hash_lem :
          (amount : ℕ) (canonical : Bytes)
          → canonical_intent svc.nfc (intent_of body amount) ≡ ok canonical
          → intent_hash svc.sha256 svc.nfc (intent_of body amount) ≡ ok (svc.sha256 canonical)
      hash_lem amount canonical e = rw e refl

  canonicalize-Total :
      (body : IntentRequest) (amount : ℕ)
      → IsRequest svc.nfc body
      → parse_amount body.amount ≡ ok amount
      → amount < 2 ^ 127
      → Total (canonicalize S svc body)
  unfolding canonicalize intent_hash
  canonicalize-Total body amount r p l =
      let positive : 0 < amount = subst (λ n. 0 < n) (ok-injective (sym r.parsed ∙ p)) r.positive in
      let e = (canonical_intent_iff svc.nfc (intent_of body amount)).1 (
        above amount positive,
        lt→ltb amount (2 ^ 127) l,
        r.agent_id,
        r.service_id,
        r.asset,
        r.purpose,
        r.client_ref,
      ) in
      (
        record {
          amount = amount;
          canonical_hex = to_hex (layout svc.nfc (intent_of body amount));
          intent_hex = to_hex (svc.sha256 (layout svc.nfc (intent_of body amount)));
        },
        rw (p, e) refl,
      )
    where
      above : (n : ℕ) → 0 < n → leb_ℤ (pos n) (pos 0) ≡ false
      above n h = ground arith

  -- Of an accepted request, the canonical form with its hash exists exactly when the amount that it
  -- states is below 2^127: nothing else that the schema accepts is refused by the hasher.
  pub canonicalize_iff :
      (json : Json) (body : IntentRequest)
      → intent_request svc.nfc json ≡ some body
      → Total (canonicalize S svc body)
        ↔ ((amount : ℕ) × (parse_amount body.amount ≡ ok amount) × (amount < 2 ^ 127))
  canonicalize_iff json body h =
      let r = intent_request-IsRequest svc.nfc json body h in
      (
        λ (c, e).
            let (canonical, p, q, _, _) = canonicalize-eq-ok body c e in
            (c.amount, p, ltb→lt _ _ (layout_lem svc.nfc (intent_of body c.amount) q).0),
        λ (amount, p, l). canonicalize-Total body amount r p l,
      )
