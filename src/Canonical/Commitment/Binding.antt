-- ===== src/Canonical/Commitment/Binding.antt =====
-- What a memo on the ledger commits to, for any hash function.
use aegis_phase.Prelude.{
  ltb, false, [], ◌∷◌, ℕ, ◌≤◌, refl, ◌≡◌, ◌≢◌, sym, ap, ◌∙◌, ◌⊎◌, inl, inr, Bytes, text_eq,
  text_eq_iff, length, arith, Bool-cases,
}
use aegis_phase.Prelude.Result.{ok, >>=-eq-ok, Total, Total-bind}
use aegis_phase.Canonical.Commitment.{
  memo_hash, memo_preimage, need32, decision_id, decision_preimage,
}
use aegis_phase.Canonical.Bytes.{Writer, ascii, raw, u32, finish}
use aegis_phase.Canonical.Commitment.Injective.{memo_preimage-injective}

need32_lem : (b : Bytes) {u : Unit {0}} → need32 b ≡ ok u → length b ≡ 32
unfolding need32
need32_lem b h = ground arith

need32-Total : (b : Bytes) → length b ≡ 32 → Total (need32 b)
unfolding need32
need32-Total b h = (tt, rw h refl)

u32-Total : (version : ℕ) (w : Writer) → version ≤ 0xffffffff → Total (u32 version w)
unfolding u32
u32-Total version w h = let e : ltb 0xffffffff version ≡ false = ground arith in rw e (_, refl)

memo_preimage-Total :
    (intent : Bytes) (version : ℕ) (decision : Bytes)
    → version ≤ 0xffffffff
    → Total (memo_preimage intent version decision)
unfolding memo_preimage raw finish
memo_preimage-Total intent version decision h =
    Total-bind (u32 version (intent ∷ [])) _ (u32-Total version (intent ∷ []) h) (λ w _. (_, refl))

decision_preimage-Total :
    (intent : Bytes) (version : ℕ) → version ≤ 0xffffffff → Total (decision_preimage intent version)
unfolding decision_preimage ascii raw finish
decision_preimage-Total intent version h =
    Total-bind (u32 version _) _ (u32-Total version _ h) (λ w _. (_, refl))

module _ (sha256 : Bytes → Bytes) where
  pub memo_hash-Total :
      (intent : Bytes) (version : ℕ) (decision : Bytes)
      → length intent ≡ 32
      → length decision ≡ 32
      → version ≤ 0xffffffff
      → Total (memo_hash sha256 intent version decision)
  unfolding memo_hash
  memo_hash-Total intent version decision l l' v =
      Total-bind (need32 intent) _ (need32-Total intent l) (λ _ _.
        Total-bind (need32 decision) _ (need32-Total decision l') (λ _ _.
          Total-bind (memo_preimage intent version decision) _
            (memo_preimage-Total intent version decision v) (λ b _. (sha256 b, refl))))

  pub decision_id-Total :
      (intent : Bytes) (version : ℕ)
      → length intent ≡ 32
      → version ≤ 0xffffffff
      → Total (decision_id sha256 intent version)
  unfolding decision_id
  decision_id-Total intent version l v =
      Total-bind (need32 intent) _ (need32-Total intent l) (λ _ _.
        Total-bind (decision_preimage intent version) _ (decision_preimage-Total intent version v)
          (λ b _. (sha256 b, refl)))

  -- The preimages of the two memos are different inputs of the hash with one value.
  pub record Collision (intent : Bytes) (version : ℕ) (decision intent' : Bytes) (version' : ℕ)
      (decision' : Bytes) : Type 0 where
    pub left : Bytes
    pub right : Bytes
    pub is_left : memo_preimage intent version decision ≡ ok left
    pub is_right : memo_preimage intent' version' decision' ≡ ok right
    pub apart : left ≢ right
    pub same : sha256 left ≡ sha256 right

  memo_hash_lem :
      (intent : Bytes) (version : ℕ) (decision : Bytes) {m : Bytes}
      → memo_hash sha256 intent version decision ≡ ok m
      → (length intent ≡ 32)
        × (length decision ≡ 32)
        × ((b : Bytes) × (memo_preimage intent version decision ≡ ok b) × (sha256 b ≡ m))
  unfolding memo_hash need32
  memo_hash_lem intent version decision h =
      let (_, h1, rest) = >>=-eq-ok (need32 intent) _ h in
      let (_, h2, rest') = >>=-eq-ok (need32 decision) _ rest in
      let (b, h3, last) = >>=-eq-ok (memo_preimage intent version decision) _ rest' in
      (need32_lem intent h1, need32_lem decision h2, (b, h3, cc))

  -- Two decisions with the same memo hash have the same intent hash, policy version and decision id,
  -- or their two memo preimages are a collision of the hash function.
  pub memo_hash_binds :
      (intent intent' : Bytes) (version version' : ℕ) (decision decision' m : Bytes)
      → memo_hash sha256 intent version decision ≡ ok m
      → memo_hash sha256 intent' version' decision' ≡ ok m
      → ((intent ≡ intent') × (version ≡ version') × (decision ≡ decision'))
        ⊎ Collision intent version decision intent' version' decision'
  memo_hash_binds intent intent' version version' decision decision' m h k =
      let (l, _, pre) = memo_hash_lem intent version decision h in
      let (l', _, pre') = memo_hash_lem intent' version' decision' k in
      let (b, hb, hs) = pre in
      let (b', kb, ks) = pre' in
      elim (Bool-cases (text_eq b b')) [
        | inl e ↦ inl (
            memo_preimage-injective intent intent' version version' decision decision' b
              (l ∙ sym l') hb (kb ∙ ap ok (sym ((text_eq_iff b b').0 e))))
        | inr e ↦ inr (record {
          left = b;
          right = b';
          is_left = hb;
          is_right = kb;
          apart = λ q. cc ((text_eq_iff b b').1 q, e);
          same = hs ∙ sym ks;
        })
      ]
