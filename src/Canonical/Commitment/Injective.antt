-- ===== src/Canonical/Commitment/Injective.antt =====
-- The canonical forms and the fields behind them.
use mathlib.Core.List.{append-nil}
use aegis_phase.Prelude.{
  ℕ, ◌/◌, ◌%◌, ◌^◌, ◌≤◌, ◌≡◌, refl, sym, ◌∙◌, ◌↔◌, true, false, [], ◌∷◌, ◌++◌, Text, Bytes, length,
  arith,
}
use aegis_phase.Prelude.Result.{ok}
use aegis_phase.Prelude.Int.{pos, leb_ℤ}
use aegis_phase.Canonical.Bytes.{
  encode, ascii, str8, str16, u32, i128, raw, finish, be_bytes, fits_i128, twos_complement,
}
use aegis_phase.Canonical.Bytes.Laws.{
  length-be_bytes, be_bytes-injective, twos_complement-lt, twos_complement-injective, append-split,
  prefix8-injective, prefix16-injective, cons-injective,
}
use aegis_phase.Canonical.Commitment.{
  Intent, intent_domain, decision_domain, canonical_intent, write_intent, memo_preimage,
  decision_preimage,
}

abbrev pub lp8 : Bytes → Bytes → Bytes
lp8 b rest = length b ∷ b ++ rest

abbrev pub lp16 : Bytes → Bytes → Bytes
lp16 b rest = (length b / 256) ∷ (length b % 256) ∷ b ++ rest

module _ (nfc : Text → Text) where
  abbrev field : Text → Bytes
  field s = encode (nfc s)

  -- SPEC.md §1: the domain, then each field in its place.
  abbrev pub layout : Intent → Bytes
  layout i =
      encode intent_domain
      ++ lp8 (field i.agent_id) (
          lp8 (field i.service_id) (
            lp8 (field i.asset) (
              be_bytes 16 (twos_complement i.amount)
              ++ lp16 (field i.purpose) (lp8 (field i.client_ref) []))))

  pub layout_lem :
      (i : Intent) {b : Bytes}
      → canonical_intent nfc i ≡ ok b
      → (fits_i128 i.amount ≡ true) × (leb_ℤ i.amount (pos 0) ≡ false) × (layout i ≡ b)
  unfolding canonical_intent write_intent ascii str8 str16 i128 finish
  layout_lem i h = (ground arith, ground arith, ground arith)

  -- The bytes of the fields that are hashed, and the amount, are the same in two intents.
  pub record SameFields (i j : Intent) : Type 0 where
    pub agent : field i.agent_id ≡ field j.agent_id
    pub service : field i.service_id ≡ field j.service_id
    pub asset : field i.asset ≡ field j.asset
    pub amount : i.amount ≡ j.amount
    pub purpose : field i.purpose ≡ field j.purpose
    pub client : field i.client_ref ≡ field j.client_ref

  same_fields :
      (i j : Intent)
      → fits_i128 i.amount ≡ true
      → fits_i128 j.amount ≡ true
      → layout i ≡ layout j
      → SameFields i j
  same_fields i j hi hj e =
      let (_, e1) = append-split (encode intent_domain) (encode intent_domain) _ _ refl e in
      let (agent, e2) = prefix8-injective _ _ _ _ e1 in
      let (service, e3) = prefix8-injective _ _ _ _ e2 in
      let (asset, e4) = prefix8-injective _ _ _ _ e3 in
      let (number, e5) =
        append-split (be_bytes 16 (twos_complement i.amount))
          (be_bytes 16 (twos_complement j.amount)) _ _
          (length-be_bytes 16 _ ∙ sym (length-be_bytes 16 _)) e4 in
      let (purpose, e6) = prefix16-injective _ _ _ _ e5 in
      let (client, _) = prefix8-injective _ _ _ _ e6 in
      record {
        agent = agent;
        service = service;
        asset = asset;
        amount = twos_complement-injective i.amount j.amount hi hj (
            be_bytes-injective 16 _ _ (twos_complement-lt i.amount hi)
              (twos_complement-lt j.amount hj) number);
        purpose = purpose;
        client = client;
      }

  -- Two intents with the same canonical form have the same amount, and texts that are the same
  -- once normalised and encoded: no field can flow over into the next.
  pub canonical_intent-injective :
      (i j : Intent) (b : Bytes)
      → canonical_intent nfc i ≡ ok b
      → canonical_intent nfc j ≡ ok b
      → SameFields i j
  canonical_intent-injective i j b h k =
      let (fi, _, li) = layout_lem i h in
      let (fj, _, lj) = layout_lem j k in same_fields i j fi fj (li ∙ sym lj)

  -- An intent has a canonical form exactly if its amount is positive and within an i128, and no
  -- text is too long for its prefix; the form is then the layout of SPEC.md.
  pub canonical_intent_iff :
      (i : Intent)
      → (canonical_intent nfc i ≡ ok (layout i)) ↔ (
          (leb_ℤ i.amount (pos 0) ≡ false)
          × (fits_i128 i.amount ≡ true)
          × (length (field i.agent_id) ≤ 255)
          × (length (field i.service_id) ≤ 255)
          × (length (field i.asset) ≤ 255)
          × (length (field i.purpose) ≤ 65535)
          × (length (field i.client_ref) ≤ 255))
  unfolding canonical_intent write_intent ascii str8 str16 i128 finish
  canonical_intent_iff i = (
    λ h. (
      ground arith,
      ground arith,
      ground arith,
      ground arith,
      ground arith,
      ground arith,
      ground arith,
    ),
    λ h. ground arith,
  )

abbrev u32_bytes : ℕ → Bytes → Bytes
u32_bytes n rest = (n / 2 ^ 24 % 256) ∷ (n / 2 ^ 16 % 256) ∷ (n / 2 ^ 8 % 256) ∷ (n % 256) ∷ rest

u32_bytes-injective :
    (n m : ℕ) (s t : Bytes)
    → n ≤ 0xffffffff
    → m ≤ 0xffffffff
    → u32_bytes n s ≡ u32_bytes m t
    → (n ≡ m) × (s ≡ t)
u32_bytes-injective n m s t hn hm e =
    let (a, e1) = cons-injective _ _ _ _ e in
    let (b, e2) = cons-injective _ _ _ _ e1 in
    let (c, e3) = cons-injective _ _ _ _ e2 in
    let (d, e4) = cons-injective _ _ _ _ e3 in (omega arith, e4)

pub memo_preimage_lem :
    (intent : Bytes) (version : ℕ) (decision : Bytes) {b : Bytes}
    → memo_preimage intent version decision ≡ ok b
    → (version ≤ 0xffffffff) × (intent ++ u32_bytes version (decision ++ []) ≡ b)
unfolding memo_preimage raw u32 finish
memo_preimage_lem intent version decision h = (ground arith, ground arith)

pub decision_preimage_lem :
    (intent : Bytes) (version : ℕ) {b : Bytes}
    → decision_preimage intent version ≡ ok b
    → (version ≤ 0xffffffff) × (encode decision_domain ++ (intent ++ u32_bytes version []) ≡ b)
unfolding decision_preimage ascii raw u32 finish
decision_preimage_lem intent version h = (ground arith, ground arith)

-- The 68 bytes under a memo determine the intent's hash, the policy version and the decision's id.
pub memo_preimage-injective :
    (intent intent' : Bytes) (version version' : ℕ) (decision decision' : Bytes) (b : Bytes)
    → length intent ≡ length intent'
    → memo_preimage intent version decision ≡ ok b
    → memo_preimage intent' version' decision' ≡ ok b
    → (intent ≡ intent') × (version ≡ version') × (decision ≡ decision')
memo_preimage-injective intent intent' version version' decision decision' b l h k =
    let (hv, hb) = memo_preimage_lem intent version decision h in
    let (kv, kb) = memo_preimage_lem intent' version' decision' k in
    let (same, rest) = append-split intent intent' _ _ l (hb ∙ sym kb) in
    let (v, rest') = u32_bytes-injective version version' _ _ hv kv rest in
    (same, v, sym (append-nil decision) ∙ (rest' ∙ append-nil decision'))
