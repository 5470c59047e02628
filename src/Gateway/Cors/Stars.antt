-- ===== src/Gateway/Cors/Stars.antt =====
-- The first star of a pattern of apps/gateway/src/cors.ts, and a text without dots.
use aegis_phase.Prelude.{
  ◌||◌, ℕ, ◌≡◌, ◌≢◌, inl, inr, refl, ap, true, not, Option, none, some, [], ◌∷◌, ◌++◌, Text, ◌==◌,
  ==_iff, any, All, Bool-cases,
}
use mathlib.Core.Path.{subst}
use aegis_phase.Gateway.Cors.{prefixed, star_split}

abbrev pub Starless : Text → Type 0
Starless = All (λ c. c ≢ b'*')

abbrev pub Dotless : Text → Type 0
Dotless = All (λ c. c ≢ b'.')

pub not-any-Dotless : (s : Text) → not (any (λ c. c == b'.') s) ≡ true → Dotless s
unfolding any
not-any-Dotless [] h = tt
not-any-Dotless (c ∷ s) h = elim (Bool-cases (c == b'.')) [
  | inl e ↦ absurd (
      let k : not (true || any (λ x. x == b'.') s) ≡ true =
        subst (λ b. not (b || any (λ x. x == b'.') s) ≡ true) e h in
      cc)
  | inr e ↦ (
    λ d. absurd (let k : (c == b'.') ≡ true = (==_iff c b'.').1 d in cc),
    not-any-Dotless s (subst (λ b. not (b || any (λ x. x == b'.') s) ≡ true) e h),
  )
]

pub not-any_of_Dotless : (s : Text) → Dotless s → not (any (λ c. c == b'.') s) ≡ true
unfolding any
not-any_of_Dotless [] h = refl
not-any_of_Dotless (c ∷ s) (n, h) = elim (Bool-cases (c == b'.')) [
  | inl e ↦ absurd (n ((==_iff c b'.').0 e))
  | inr e ↦ rw e (not-any_of_Dotless s h)
]

-- The split at the first star.
unfoldable pub Splits : Text → Option (Text × Text) → Type 0
Splits s none = Starless s
Splits s (some (before, after)) = (s ≡ before ++ (b'*' ∷ after)) × Starless before

prefixed-Splits :
    (c : ℕ) (s : Text) (o : Option (Text × Text))
    → c ≢ b'*'
    → Splits s o
    → Splits (c ∷ s) (prefixed c o)
unfolding Splits
prefixed-Splits c s none n h = (n, h)
prefixed-Splits c s (some (before, after)) n (e, h) = (ap (λ t. c ∷ t) e, (n, h))

pub star_split-Splits : (s : Text) → Splits s (star_split s)
unfolding star_split Splits
star_split-Splits [] = tt
star_split-Splits (c ∷ s) = elim (Bool-cases (c == b'*')) [
  | inl e ↦ rw e (ap (λ x. x ∷ s) ((==_iff c b'*').0 e), tt)
  | inr e ↦ rw e (
      prefixed-Splits c s (star_split s)
        (λ k. absurd (let d : (c == b'*') ≡ true = (==_iff c b'*').1 k in cc))
        (star_split-Splits s))
]

pub star_split-Starless : (s : Text) → Starless s → star_split s ≡ none
unfolding star_split
star_split-Starless [] h = refl
star_split-Starless (c ∷ s) (n, h) = elim (Bool-cases (c == b'*')) [
  | inl e ↦ absurd (n ((==_iff c b'*').0 e))
  | inr e ↦ rw (e, star_split-Starless s h) refl
]

pub star_split-append :
    (before after : Text)
    → Starless before
    → star_split (before ++ (b'*' ∷ after)) ≡ some (before, after)
unfolding star_split
star_split-append [] after h = refl
star_split-append (c ∷ before) after (n, h) = elim (Bool-cases (c == b'*')) [
  | inl e ↦ absurd (n ((==_iff c b'*').0 e))
  | inr e ↦ rw (e, star_split-append before after h) refl
]
