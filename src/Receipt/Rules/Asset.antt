-- ===== src/Receipt/Rules/Asset.antt =====
-- The rules of the settlement asset and of the URLs in packages/receipt/src/validate.ts.
use aegis_phase.Prelude.{
  or-false, not-false, All, All-of_all, Bool, List, Option, Text, [], all_of_All, and-true, ap,
  arith, codes, false, if◌then◌else◌, inl, inr, leb, leb→le, length, none, not, refl, some, text_eq,
  text_eq_iff, true, ℕ, ◌&&◌, ◌==◌, ◌||◌, ◌∙◌, ◌∷◌, ◌≡◌, ◌≢◌, ◌≤◌, ◌⊎◌,
}
use mathlib.Core.Path.{subst}
use aegis_phase.Receipt.Validate.{
  good, url_of, protocol_checked, asset_parts_checked, asset_checked, Issue, is_strkey, starts_with,
  is_alphanumeric,
}
use aegis_phase.Receipt.Valid.{IsUrl, IsAsset, Base32, Alphanumeric, IsStrkey}
use aegis_phase.Prelude.Split.{split, split-append, split-single, split-pair}
use aegis_phase.Receipt.Rules.{
  guarded, value-eq, starts_with_iff, is_strkey_iff, Alphanumeric-of, of_Alphanumeric,
}

below : (c : ℕ) → Alphanumeric c → c ≢ b':'
below c h = λ e. ground arith

no_colon : (s : Text) → All Alphanumeric s → All (λ c. c ≢ b':') s
no_colon [] h = tt
no_colon (c ∷ s) (h, k) = (below c h, no_colon s k)

Base32-ne : (c : ℕ) → Base32 c → c ≢ b':'
Base32-ne c h = λ e. ground arith

no_colon-Base32 : (s : Text) → All Base32 s → All (λ c. c ≢ b':') s
no_colon-Base32 [] h = tt
no_colon-Base32 (c ∷ s) (h, k) = (Base32-ne c h, no_colon-Base32 s k)

nonzero : (n : ℕ) → (n == 0) ≡ false → 1 ≤ n
nonzero n h = ground arith

parts-IsAsset :
    (t : Text) (parts : List Text)
    → split b':' t ≡ parts
    → asset_parts_checked parts ≡ (tt, [])
    → IsAsset t
unfolding asset_parts_checked
parts-IsAsset t (code ∷ issuer ∷ []) p h =
    let (a, k) =
      guarded
        (length code == 0
          || length issuer == 0
          || not (is_strkey issuer)
          || not (starts_with b'G' issuer))
        tt tt _ _ h in
    let (u, g) = or-false (length code == 0 || length issuer == 0 || not (is_strkey issuer)) _ a in
    let (v, w) = or-false (length code == 0 || length issuer == 0) _ u in
    let (x, y) = or-false (length code == 0) _ v in
    let (l, b) = (is_strkey_iff issuer).0 (not-false _ w) in
    let (m, n) = and-true (leb (length code) 12) _ (passed _ _ k) in
    (
      code,
      issuer,
      split-pair b':' t code issuer p,
      nonzero _ x,
      leb→le _ _ m,
      All-of_all Alphanumeric is_alphanumeric Alphanumeric-of code n,
      (l, b, (starts_with_iff b'G' issuer).0 (not-false _ g)),
    )
  where
    passed :
        (t : Bool) (issue : Issue) → (if t then good tt else (tt, issue ∷ [])) ≡ (tt, []) → t ≡ true
    passed true issue h = refl
    passed false issue h = cc
parts-IsAsset t [] p h = cc
parts-IsAsset t (code ∷ []) p h = cc
parts-IsAsset t (code ∷ issuer ∷ next ∷ parts) p h = cc

pub checked-IsAsset : (s : Text) → s ≢ [] → asset_checked s ≡ (tt, []) → IsAsset s
unfolding asset_checked
checked-IsAsset [] n h = absurd (n refl)
checked-IsAsset (c ∷ s) n h = parts-IsAsset (c ∷ s) (split b':' (c ∷ s)) refl h

asset_parts_of :
    (code issuer : Text)
    → 1 ≤ length code
    → length code ≤ 12
    → All Alphanumeric code
    → IsStrkey b'G' issuer
    → asset_parts_checked (code ∷ issuer ∷ []) ≡ (tt, [])
unfolding asset_parts_checked
asset_parts_of code issuer low high a (l, b, w) =
    let x : (length code == 0) ≡ false = ground arith in
    let y : (length issuer == 0) ≡ false = ground arith in
    let z : leb (length code) 12 ≡ true = ground arith in
    rw
      (
        x,
        y,
        z,
        (is_strkey_iff issuer).1 (l, b),
        (starts_with_iff b'G' issuer).1 w,
        all_of_All Alphanumeric is_alphanumeric of_Alphanumeric code a,
      )
      refl

checked_of_split :
    (s : Text) (code issuer : Text)
    → split b':' s ≡ code ∷ issuer ∷ []
    → asset_parts_checked (code ∷ issuer ∷ []) ≡ (tt, [])
    → asset_checked s ≡ (tt, [])
unfolding asset_checked
checked_of_split [] code issuer h k = refl
checked_of_split (c ∷ s) code issuer h k = ap asset_parts_checked h ∙ k

pub asset_of_IsAsset : (s : Text) → IsAsset s → asset_checked s ≡ (tt, [])
asset_of_IsAsset s (code, issuer, e, low, high, a, k) =
    let (l, b, w) = k in
    checked_of_split s code issuer
      (ap (split b':') e
        ∙ split-append b':' code issuer (no_colon code a)
        ∙ ap (λ p. code ∷ p) (split-single b':' issuer (no_colon-Base32 issuer b)))
      (asset_parts_of code issuer low high a (l, b, w))

module _ (protocol : Text → Option Text) where
  protocol-IsUrl :
      (at t : Text) (o : Option Text) {s : Text}
      → t ≢ []
      → protocol t ≡ o
      → protocol_checked protocol at t o ≡ (s, [])
      → IsUrl protocol s
  protocol-IsUrl at t none n q h = cc
  protocol-IsUrl at t (some p) {s} n q h =
      let (a, e) =
        guarded (not (text_eq p (codes "http:")) && not (text_eq p (codes "https:"))) s [] _ _ h in
      subst (IsUrl protocol) (value-eq e) (
        n,
        elim (and-false _ _ a) [
          | inl x ↦ inl (q ∙ ap some ((text_eq_iff _ _).0 x))
          | inr x ↦ inr (q ∙ ap some ((text_eq_iff _ _).0 x))
        ],
      )
    where
      and-false : (x y : Bool) → (not x && not y) ≡ false → (x ≡ true) ⊎ (y ≡ true)
      and-false true y h = inl refl
      and-false false true h = inr refl
      and-false false false h = cc

  pub checked-IsUrl :
      (at t : Text) {s : Text} → t ≢ [] → url_of protocol at t ≡ (s, []) → IsUrl protocol s
  checked-IsUrl at [] n h = absurd (n refl)
  checked-IsUrl at (c ∷ t) n h = protocol-IsUrl at (c ∷ t) (protocol (c ∷ t)) n refl h

  known_protocol :
      (at s : Text) (o : Option Text)
      → (o ≡ some (codes "http:")) ⊎ (o ≡ some (codes "https:"))
      → protocol_checked protocol at s o ≡ (s, [])
  unfolding text_eq
  known_protocol at s o (inl e) = rw e refl
  known_protocol at s o (inr e) = rw e refl

  pub url_of-IsUrl : (at s : Text) → IsUrl protocol s → url_of protocol at s ≡ (s, [])
  url_of-IsUrl at [] (n, h) = absurd (n refl)
  url_of-IsUrl at (c ∷ s) (n, h) = known_protocol at (c ∷ s) (protocol (c ∷ s)) h
