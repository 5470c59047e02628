-- ===== src/Prelude/Split.antt =====
-- `String.prototype.split` by one character.
use aegis_phase.Prelude.Tests.{Text, if◌then◌else◌, ◌==◌, ==_iff, Bool-cases}
use aegis_phase.Prelude.Lists.{All}
use Prim.Native.Nat.{ℕ}
use mathlib.Core.Path.{◌≡◌, refl, ap, sym, ◌∙◌}
use mathlib.Core.Logic.{◌≢◌, inl, inr}
use mathlib.Core.List.{List, [], ◌∷◌, ◌++◌}

unfoldable pub onto_first : ℕ → List Text → List Text
onto_first x [] = (x ∷ []) ∷ []
onto_first x (part ∷ parts) = (x ∷ part) ∷ parts

unfoldable pub split : ℕ → Text → List Text
unfolding onto_first
split c [] = [] ∷ []
split c (x ∷ s) = if x == c then [] ∷ split c s else onto_first x (split c s)

-- The text that the parts make.
pub join : ℕ → List Text → Text
join c [] = []
join c (part ∷ []) = part
join c (part ∷ next ∷ parts) = part ++ (c ∷ join c (next ∷ parts))

join-onto_first : (c x : ℕ) (parts : List Text) → join c (onto_first x parts) ≡ x ∷ join c parts
unfolding join onto_first
join-onto_first c x [] = refl
join-onto_first c x (part ∷ []) = refl
join-onto_first c x (part ∷ next ∷ parts) = refl

split-ne-nil : (c : ℕ) (s : Text) → split c s ≢ []
unfolding split
split-ne-nil c [] = λ e. cc
split-ne-nil c (x ∷ s) = elim (Bool-cases (x == c)) [
  | inl e ↦ rw e (λ q. cc)
  | inr e ↦ rw e (onto_first-ne-nil x (split c s))
]
  where
    onto_first-ne-nil : (x : ℕ) (parts : List Text) → onto_first x parts ≢ []
    onto_first-ne-nil x [] = λ q. cc
    onto_first-ne-nil x (part ∷ parts) = λ q. cc

join-nil_cons : (c : ℕ) (parts : List Text) → parts ≢ [] → join c ([] ∷ parts) ≡ c ∷ join c parts
unfolding join
join-nil_cons c [] h = absurd (h refl)
join-nil_cons c (part ∷ parts) h = refl

pub join-split : (c : ℕ) (s : Text) → join c (split c s) ≡ s
unfolding split
join-split c [] = join_single c []
  where
    join_single : (c : ℕ) (s : Text) → join c (s ∷ []) ≡ s
    join_single c s = unfold join in refl
join-split c (x ∷ s) = elim (Bool-cases (x == c)) [
  | inl e ↦ rw e (
      join-nil_cons c (split c s) (split-ne-nil c s)
      ∙ ap (λ t. c ∷ t) (join-split c s)
      ∙ ap (λ y. y ∷ s) (sym ((==_iff x c).0 e)))
  | inr e ↦ rw e (join-onto_first c x (split c s) ∙ ap (λ t. x ∷ t) (join-split c s))
]

-- A text in two parts is the parts with the separator between them.
pub split-pair :
    (c : ℕ) (s left right : Text) → split c s ≡ left ∷ right ∷ [] → s ≡ left ++ (c ∷ right)
unfolding join
split-pair c s left right h = sym (join-split c s) ∙ ap (join c) h

-- A text without the separator is one part.
pub split-single : (c : ℕ) (s : Text) → All (λ x. x ≢ c) s → split c s ≡ s ∷ []
unfolding split
split-single c [] h = refl
split-single c (x ∷ s) (n, h) = elim (Bool-cases (x == c)) [
  | inl e ↦ absurd (n ((==_iff x c).0 e))
  | inr e ↦ rw (e, split-single c s h) refl
]

pub split-append :
    (c : ℕ) (s t : Text) → All (λ x. x ≢ c) s → split c (s ++ (c ∷ t)) ≡ s ∷ split c t
unfolding split
split-append c [] t h = rw ((==_iff c c).1 refl) refl
split-append c (x ∷ s) t (n, h) = elim (Bool-cases (x == c)) [
  | inl e ↦ absurd (n ((==_iff x c).0 e))
  | inr e ↦ rw (e, split-append c s t h) refl
]
