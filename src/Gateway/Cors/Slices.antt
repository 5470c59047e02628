-- ===== src/Gateway/Cors/Slices.antt =====
-- Parts of a text, for the patterns of apps/gateway/src/cors.ts.
use aegis_phase.Prelude.{
  ◌+◌, ℕ, zero, suc, ◌≡◌, ◌≤◌, refl, ap, ◌∙◌, true, [], ◌∷◌, ◌++◌, Text, leb, ==_iff, length, take,
  drop, arith,
}
use aegis_phase.Gateway.Paths.{has_prefix}

pub take-drop : (n : ℕ) (s : Text) → take n s ++ drop n s ≡ s
take-drop zero s = refl
take-drop (suc n) [] = refl
take-drop (suc n) (c ∷ s) = ap (λ t. c ∷ t) (take-drop n s)

pub length-take_within : (n : ℕ) (s : Text) → n ≤ length s → length (take n s) ≡ n
length-take_within zero s h = refl
length-take_within (suc n) [] h = absurd (omega arith)
length-take_within (suc n) (c ∷ s) h = ap suc (length-take_within n s (omega arith))

pub drop-append : (p s : Text) (n : ℕ) → drop (length p + n) (p ++ s) ≡ drop n s
drop-append [] s n = let e : 0 + n ≡ n = omega arith in ap (λ (k : ℕ). drop k s) e
drop-append (c ∷ p) s n =
    let e : length (c ∷ p) + n ≡ suc (length p + n) = omega arith in
    ap (λ (k : ℕ). drop k (c ∷ (p ++ s))) e ∙ drop-append p s n

pub take-append : (p s : Text) → take (length p) (p ++ s) ≡ p
take-append [] s = refl
take-append (c ∷ p) s = ap (λ t. c ∷ t) (take-append p s)

pub has_prefix_of_append : (p s : Text) → has_prefix p (p ++ s) ≡ true
unfolding has_prefix
has_prefix_of_append [] s = refl
has_prefix_of_append (c ∷ p) s = rw ((==_iff c c).1 refl) (has_prefix_of_append p s)

pub le→leb : (a b : ℕ) → a ≤ b → leb a b ≡ true
le→leb a b h = ground arith

pub drop_prefix : (p s : Text) → drop (length p) (p ++ s) ≡ s
drop_prefix [] s = refl
drop_prefix (c ∷ p) s = drop_prefix p s
