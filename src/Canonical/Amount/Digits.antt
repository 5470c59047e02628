-- ===== src/Canonical/Amount/Digits.antt =====
-- Decimal digits: what is printed is read back.
use native.Mathlib.Nat.{pow-suc}
use aegis_phase.Prelude.{
  ℕ, zero, suc, ◌+◌, ◌-◌, ◌*◌, ◌/◌, ◌%◌, ◌^◌, ◌≤◌, ◌<◌, ◌≡◌, refl, Bool, true, [], ◌∷◌, ◌++◌, Text,
  ltb, length, all, arith, Bool-cases, length-append, inl, inr, lt→ltb,
}
use aegis_phase.Canonical.Amount.{is_digit, value_from, digits_fuel, to_decimal}

pub value_from-append :
    (acc : ℕ) (s t : Text) → value_from acc (s ++ t) ≡ value_from (value_from acc s) t
unfolding value_from
value_from-append acc [] t = refl
value_from-append acc (c ∷ s) t = value_from-append (acc * 10 + (c - b'0')) s t

pub all-append :
    (p : ℕ → Bool) (s t : Text) → all p s ≡ true → all p t ≡ true → all p (s ++ t) ≡ true
unfolding all
all-append p [] t h k = k
all-append p (c ∷ s) t h k = ground (arith, all-append p s t)

-- With more fuel than its value, a number is printed whole.
value-digits_fuel : (f n : ℕ) → n < f → value_from 0 (digits_fuel f n) ≡ n
unfolding digits_fuel value_from
value-digits_fuel zero n h = absurd (omega arith)
value-digits_fuel (suc f) n h = elim (Bool-cases (ltb n 10)) [
  | inl e ↦ rw e (omega arith)
  | inr e ↦ rw e (
      rw (value_from-append 0 (digits_fuel f (n / 10)) ((b'0' + n % 10) ∷ []))
        (unfold value_from in rw (value-digits_fuel f (n / 10) (ground arith)) (omega arith)))
]

pub digits_fuel-digits : (f n : ℕ) → all is_digit (digits_fuel f n) ≡ true
unfolding digits_fuel all
digits_fuel-digits zero n = refl
digits_fuel-digits (suc f) n = elim (Bool-cases (ltb n 10)) [
  | inl e ↦ rw e (ground arith)
  | inr e ↦ rw e (
      all-append is_digit (digits_fuel f (n / 10)) ((b'0' + n % 10) ∷ [])
        (digits_fuel-digits f (n / 10)) (ground arith))
]

-- A number is printed with at least one digit.
pub digits_fuel-length : (f n : ℕ) → 0 < length (digits_fuel (suc f) n)
unfolding digits_fuel
digits_fuel-length f n = elim (Bool-cases (ltb n 10)) [
  | inl e ↦ rw e (omega arith)
  | inr e ↦ rw e (omega (arith, length-append {0} (digits_fuel f (n / 10)) ((b'0' + n % 10) ∷ [])))
]

-- A number below 10 ^ k is printed with at most k digits.
pub digits_fuel-length-le : (f k n : ℕ) → n < 10 ^ suc k → length (digits_fuel f n) ≤ suc k
unfolding digits_fuel
digits_fuel-length-le zero k n h = omega arith
digits_fuel-length-le (suc f) zero n h = rw (lt→ltb n 10 h) (omega arith)
digits_fuel-length-le (suc f) (suc k) n h = elim (Bool-cases (ltb n 10)) [
  | inl e ↦ rw e (omega arith)
  | inr e ↦ rw e (
      omega (
        arith,
        length-append {0} (digits_fuel f (n / 10)) ((b'0' + n % 10) ∷ []),
        digits_fuel-length-le f k (n / 10) (omega (arith, pow-suc 10 (suc k))),
      ))
]

pub value-to_decimal : (n : ℕ) → value_from 0 (to_decimal n) ≡ n
unfolding to_decimal
value-to_decimal n = value-digits_fuel (suc n) n (omega arith)
