-- ===== src/Canonical/Amount/RoundTrip.antt =====
-- Formatting an amount and parsing the text.
use mathlib.Core.Path.{ap₂}
use mathlib.Core.List.{reverse-cons, reverse-reverse}
use aegis_phase.Prelude.{
  ℕ, zero, suc, ◌+◌, ◌-◌, ◌*◌, ◌/◌, ◌%◌, ◌≤◌, ◌<◌, ◌≡◌, refl, sym, ap, ◌∙◌, Bool, true, not, [],
  ◌∷◌, ◌++◌, reverse, Text, ◌==◌, length, replicate, all, arith, Bool-cases, length-append,
  length-replicate, inl, inr, ==_iff,
}
use aegis_phase.Prelude.Result.{ok}
use aegis_phase.Prelude.Int.{pos}
use aegis_phase.Canonical.Amount.{
  stroops_per_unit, is_digit, is_space, drop_while, trim, span_digits, value_from, pad_end,
  pad_start, match_fraction, match_whole, parse_amount, to_decimal, digits_fuel, strip_zeros,
  strip_head, dotted, format_amount,
}
use aegis_phase.Canonical.Amount.Digits.{
  all-append, value-to_decimal, digits_fuel-digits, digits_fuel-length, digits_fuel-length-le,
}

abbrev solid : ℕ → Bool
solid c = not (is_space c)

drop_while-solid : (s : Text) → all solid s ≡ true → drop_while is_space s ≡ s
unfolding drop_while all
drop_while-solid [] h = refl
drop_while-solid (c ∷ s) h = ground arith

all-reverse : (p : ℕ → Bool) (s : Text) → all p s ≡ true → all p (reverse s) ≡ true
unfolding all
all-reverse p [] h = refl
all-reverse p (c ∷ s) h =
    rw reverse-cons
      (all-append p (reverse s) (c ∷ []) (all-reverse p s (ground arith)) (ground arith))

pub trim-solid : (s : Text) → all solid s ≡ true → trim s ≡ s
unfolding trim
trim-solid s h =
    rw (drop_while-solid s h)
      (rw (drop_while-solid (reverse s) (all-reverse solid s h)) (reverse-reverse s))

digit-solid : (c : ℕ) → is_digit c ≡ true → solid c ≡ true
digit-solid c h = ground arith

digits-solid : (s : Text) → all is_digit s ≡ true → all solid s ≡ true
unfolding all
digits-solid [] h = refl
digits-solid (c ∷ s) h = ground (arith, digit-solid c, digits-solid s)

span_digits-append :
    (s t : Text) → all is_digit s ≡ true → span_digits t ≡ ([], t) → span_digits (s ++ t) ≡ (s, t)
unfolding span_digits all
span_digits-append [] t h k = k
span_digits-append (c ∷ s) t h k = ground (arith, span_digits-append s t)

strip_head-digits :
    (c : ℕ) (t : Text)
    → is_digit c ≡ true
    → all is_digit t ≡ true
    → all is_digit (strip_head c t) ≡ true
unfolding strip_head all
strip_head-digits c [] h k = ground arith
strip_head-digits c (d ∷ r) h k = ground arith

strip_zeros-digits : (s : Text) → all is_digit s ≡ true → all is_digit (strip_zeros s) ≡ true
unfolding strip_zeros all
strip_zeros-digits [] h = refl
strip_zeros-digits (c ∷ s) h =
    strip_head-digits c (strip_zeros s) (ground arith) (strip_zeros-digits s (ground arith))

length-strip_head : (c : ℕ) (t : Text) → length (strip_head c t) ≤ suc (length t)
unfolding strip_head
length-strip_head c [] = ground arith
length-strip_head c (d ∷ r) = omega arith

length-strip : (s : Text) → length (strip_zeros s) ≤ length s
unfolding strip_zeros
length-strip [] = omega arith
length-strip (c ∷ s) = omega (arith, length-strip_head c (strip_zeros s), length-strip s)

pad-strip_head :
    (c : ℕ) (t s : Text)
    → t ++ replicate (length s - length t) b'0' ≡ s
    → strip_head c t ++ replicate (suc (length s) - length (strip_head c t)) b'0' ≡ c ∷ s
unfolding strip_head
pad-strip_head c [] s h =
    let zeros : replicate (length s) b'0' ≡ s =
      ap (λ (k : ℕ). replicate k b'0') (let e : length s ≡ length s - 0 = omega arith in e) ∙ h in
    let whole : suc (length s) - 0 ≡ suc (length s) = omega arith in
    let less : suc (length s) - 1 ≡ length s = omega arith in
    elim (Bool-cases (c == b'0')) [
      | inl e ↦ rw e (
          ap (λ (k : ℕ). replicate k b'0') whole
          ∙ (ap (λ (x : Text). b'0' ∷ x) zeros ∙ ap (λ (x : ℕ). x ∷ s) (sym ((==_iff c b'0').0 e))))
      | inr e ↦ rw e (ap (λ (k : ℕ). c ∷ replicate k b'0') less ∙ ap (λ (x : Text). c ∷ x) zeros)
    ]
pad-strip_head c (d ∷ r) s h =
    let e : suc (length s) - suc (suc (length r)) ≡ length s - suc (length r) = omega arith in
    ap (λ (k : ℕ). c ∷ d ∷ r ++ replicate k b'0') e ∙ ap (λ (x : Text). c ∷ x) h

pad-strip : (s : Text) → strip_zeros s ++ replicate (length s - length (strip_zeros s)) b'0' ≡ s
unfolding strip_zeros
pad-strip [] = refl
pad-strip (c ∷ s) = pad-strip_head c (strip_zeros s) s (pad-strip s)

value-zeros : (k : ℕ) (s : Text) → value_from 0 (replicate k b'0' ++ s) ≡ value_from 0 s
unfolding value_from
value-zeros zero s = refl
value-zeros (suc k) s = value-zeros k s

replicate-digits : (k : ℕ) → all is_digit (replicate k b'0') ≡ true
unfolding all
replicate-digits zero = refl
replicate-digits (suc k) = replicate-digits k

-- The seven digits of a number of stroops below one unit.
abbrev cents : ℕ → Text
cents r = pad_start 7 (to_decimal r)

cents-length : (r : ℕ) → r < stroops_per_unit → length (cents r) ≡ 7
unfolding pad_start to_decimal
cents-length r h = omega (
  arith,
  length-append {0} (replicate (7 - length (digits_fuel (suc r) r)) b'0') (digits_fuel (suc r) r),
  length-replicate {0} {A = ℕ} (7 - length (digits_fuel (suc r) r)) b'0',
  digits_fuel-length-le (suc r) 6 r h,
)

cents-value : (r : ℕ) → value_from 0 (cents r) ≡ r
unfolding pad_start
cents-value r = value-zeros (7 - length (to_decimal r)) (to_decimal r) ∙ value-to_decimal r

cents-digits : (r : ℕ) → all is_digit (cents r) ≡ true
unfolding pad_start to_decimal
cents-digits r =
    all-append is_digit (replicate (7 - length (digits_fuel (suc r) r)) b'0') _ (replicate-digits _)
      (digits_fuel-digits (suc r) r)

-- Padding what is left of the fraction gives the seven digits again.
fraction-value :
    (r : ℕ) → r < stroops_per_unit → value_from 0 (pad_end 7 (strip_zeros (cents r))) ≡ r
unfolding pad_end
fraction-value r h =
    ap
      (λ (k : ℕ).
        value_from 0 (strip_zeros (cents r) ++ replicate (k - length (strip_zeros (cents r))) b'0'))
      (sym (cents-length r h))
    ∙ (ap (value_from 0) (pad-strip (cents r)) ∙ cents-value r)

match_fraction-dotted :
    (whole frac : Text)
    → all is_digit frac ≡ true
    → length frac ≤ 7
    → match_fraction whole (dotted frac)
      ≡ ok (value_from 0 whole * stroops_per_unit + value_from 0 (pad_end 7 frac))
unfolding match_fraction
match_fraction-dotted whole [] h k = refl
match_fraction-dotted whole (c ∷ frac) h k = ground (arith, h)

dotted-solid : (s : Text) → all is_digit s ≡ true → all solid (dotted s) ≡ true
unfolding all
dotted-solid [] h = refl
dotted-solid (c ∷ s) h = digits-solid (c ∷ s) h

span_digits-dotted : (s : Text) → span_digits (dotted s) ≡ ([], dotted s)
unfolding span_digits
span_digits-dotted [] = refl
span_digits-dotted (c ∷ s) = refl

-- A whole part of one digit at least, then the fraction.
match_whole-digits :
    (whole rest : Text) → 0 < length whole → match_whole (whole, rest) ≡ match_fraction whole rest
unfolding match_whole
match_whole-digits [] rest h = absurd (omega arith)
match_whole-digits (c ∷ whole) rest h = refl

-- The parser on what the formatter writes: digits, and a fraction of at most seven digits.
parse_amount-digits :
    (whole frac : Text)
    → all is_digit whole ≡ true
    → all is_digit frac ≡ true
    → 0 < length whole
    → length frac ≤ 7
    → parse_amount (whole ++ dotted frac)
      ≡ ok (value_from 0 whole * stroops_per_unit + value_from 0 (pad_end 7 frac))
unfolding parse_amount
parse_amount-digits whole frac hw hf long short =
    rw
      (trim-solid (whole ++ dotted frac)
        (all-append solid whole (dotted frac) (digits-solid whole hw) (dotted-solid frac hf)))
      (rw (span_digits-append whole (dotted frac) hw (span_digits-dotted frac))
        (match_whole-digits whole (dotted frac) long ∙ match_fraction-dotted whole frac hf short))

-- Every amount of stroops that is not negative is parsed back from the text that it is formatted
-- as: nothing is lost between the ledger's decimal form and the contract's integer.
pub parse_amount-format_amount : (n : ℕ) → parse_amount (format_amount (pos n)) ≡ ok n
unfolding format_amount to_decimal
parse_amount-format_amount n =
    let whole = n / stroops_per_unit in
    let rest = n % stroops_per_unit in
    let small : rest < stroops_per_unit = omega arith in
    parse_amount-digits (to_decimal whole) (strip_zeros (cents rest))
      (digits_fuel-digits (suc whole) whole) (strip_zeros-digits (cents rest) (cents-digits rest))
      (digits_fuel-length whole whole)
      (omega (arith, length-strip (cents rest), cents-length rest small))
    ∙ ap ok (
        ap₂ (λ (a b : ℕ). a * stroops_per_unit + b) (value-to_decimal whole)
          (fraction-value rest small)
        ∙ (omega arith))
