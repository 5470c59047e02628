-- ===== src/Canonical/Amount/Decimal.antt =====
-- The decimals that packages/canonical/src/amount.ts reads, by their form.
use aegis_phase.Prelude.{
  ℕ, ◌+◌, ◌-◌, ◌*◌, ◌≤◌, ◌<◌, ◌≡◌, inl, inr, refl, sym, ap, ◌∙◌, Bool, true, false, not, ◌&&◌, ◌||◌,
  [], ◌∷◌, ◌++◌, Text, leb, ◌==◌, length, all, any, replicate, Bool-cases, or-true, arith,
}
use aegis_phase.Prelude.Result.{ok}
use aegis_phase.Canonical.Amount.{
  stroops_per_unit, is_digit, is_space, trim, span_digits, value_from, pad_end, match_fraction,
  match_whole, parse_amount,
}
use aegis_phase.Canonical.Amount.Digits.{all-append}
use aegis_phase.Canonical.Amount.RoundTrip.{trim-solid}

abbrev pub is_nonzero : ℕ → Bool
is_nonzero c = leb b'1' c && leb c b'9'

-- A point with one to seven digits, or nothing.
abbrev pub Fraction : Text → Type 0
Fraction [] = Unit {0}
Fraction (c ∷ s) = ((c == b'.') ≡ true) × (all is_digit s ≡ true) × (1 ≤ length s) × (length s ≤ 7)

span_digits-join : (s : Text) → (span_digits s).0 ++ (span_digits s).1 ≡ s
unfolding span_digits
span_digits-join [] = refl
span_digits-join (c ∷ s) = elim (Bool-cases (is_digit c)) [
  | inl e ↦ rw e (ap (λ t. c ∷ t) (span_digits-join s))
  | inr e ↦ rw e refl
]

span_digits-digits : (s : Text) → all is_digit (span_digits s).0 ≡ true
unfolding span_digits all
span_digits-digits [] = refl
span_digits-digits (c ∷ s) = elim (Bool-cases (is_digit c)) [
  | inl e ↦ rw (e, span_digits-digits s) (rw e refl)
  | inr e ↦ rw e refl
]

abbrev solid : ℕ → Bool
solid c = not (is_space c)

digit-solid : (c : ℕ) → is_digit c ≡ true → solid c ≡ true
digit-solid c h = ground arith

point-solid : (c : ℕ) → (c == b'.') ≡ true → solid c ≡ true
point-solid c h = ground arith

digits-solid : (s : Text) → all is_digit s ≡ true → all solid s ≡ true
unfolding all
digits-solid [] h = refl
digits-solid (c ∷ s) h = ground (arith, digit-solid c, digits-solid s)

Fraction-solid : (s : Text) → Fraction s → all solid s ≡ true
unfolding all
Fraction-solid [] h = refl
Fraction-solid (c ∷ s) (p, d, _, _) = rw (point-solid c p, digits-solid s d) refl

any-append : (p : ℕ → Bool) (s t : Text) → any p (s ++ t) ≡ (any p s || any p t)
unfolding any
any-append p [] t = refl
any-append p (c ∷ s) t = ground (arith, any-append p s t)

value_from-grows : (acc : ℕ) (s : Text) → acc ≤ value_from acc s
unfolding value_from
value_from-grows acc [] = omega arith
value_from-grows acc (c ∷ s) = omega (arith, value_from-grows (acc * 10 + (c - b'0')) s)

value_from-pos : (acc : ℕ) (s : Text) → any is_nonzero s ≡ true → 0 < value_from acc s
unfolding value_from any
value_from-pos acc [] h = cc
value_from-pos acc (c ∷ s) h = elim (or-true (is_nonzero c) (any is_nonzero s) h) [
  | inl e ↦ ground (arith, value_from-grows (acc * 10 + (c - b'0')) s)
  | inr e ↦ value_from-pos (acc * 10 + (c - b'0')) s e
]

point-zero : (c : ℕ) → (c == b'.') ≡ true → is_nonzero c ≡ false
point-zero c h = ground arith

later : (a b : Bool) → a ≡ false → (a || b) ≡ true → b ≡ true
later true b h k = cc
later false b h k = k

-- The whole part and the fraction are read, and one of them is not zero.
match_fraction-pos :
    (whole rest : Text)
    → Fraction rest
    → (any is_nonzero whole || any is_nonzero rest) ≡ true
    → (n : ℕ) × (match_fraction whole rest ≡ ok n) × (0 < n)
unfolding match_fraction any pad_end
match_fraction-pos whole [] h p = (
  value_from 0 whole * stroops_per_unit + value_from 0 (pad_end 7 []),
  refl,
  elim (or-true (any is_nonzero whole) false p) [
    | inl e ↦ omega (arith, value_from-pos 0 whole e)
    | inr e ↦ absurd (cc)
  ],
)
match_fraction-pos whole (c ∷ frac) (d, a, l, k) p = (
  value_from 0 whole * stroops_per_unit + value_from 0 (pad_end 7 frac),
  (let x : leb 1 (length frac) ≡ true = ground arith in
      let y : leb (length frac) 7 ≡ true = ground arith in rw (d, a, x, y) refl),
  elim (or-true (any is_nonzero whole) (is_nonzero c || any is_nonzero frac) p) [
    | inl e ↦ omega (arith, value_from-pos 0 whole e)
    | inr e ↦
        let f : any is_nonzero frac ≡ true =
          later (is_nonzero c) (any is_nonzero frac) (point-zero c d) e in
        let g : any is_nonzero (frac ++ replicate (7 - length frac) b'0') ≡ true =
          any-append is_nonzero frac (replicate (7 - length frac) b'0') ∙ rw f refl in
        omega (arith, value_from-pos 0 (frac ++ replicate (7 - length frac) b'0') g)
  ],
)

match_whole-pos :
    (whole rest : Text)
    → 0 < length whole
    → Fraction rest
    → (any is_nonzero whole || any is_nonzero rest) ≡ true
    → (n : ℕ) × (match_whole (whole, rest) ≡ ok n) × (0 < n)
unfolding match_whole
match_whole-pos [] rest l h p = absurd (omega arith)
match_whole-pos (c ∷ whole) rest l h p = match_fraction-pos (c ∷ whole) rest h p

-- Digits, perhaps a point with one to seven digits, and one digit that is not 0: a positive amount.
pub parse_amount-pos :
    (s : Text)
    → 0 < length (span_digits s).0
    → Fraction (span_digits s).1
    → any is_nonzero s ≡ true
    → (n : ℕ) × (parse_amount s ≡ ok n) × (0 < n)
unfolding parse_amount
parse_amount-pos s l h p =
    let join = span_digits-join s in
    let whole = (span_digits s).0 in
    let rest = (span_digits s).1 in
    let t : trim s ≡ s = trim-solid s (
      ap (all solid) (sym join)
      ∙ all-append solid whole rest (digits-solid whole (span_digits-digits s))
          (Fraction-solid rest h)) in
    let (n, e, q) =
      match_whole-pos whole rest l h
        (sym (any-append is_nonzero whole rest) ∙ (ap (any is_nonzero) join ∙ p)) in
    (n, ap (λ u. match_whole (span_digits u)) t ∙ e, q)
