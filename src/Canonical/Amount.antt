-- ===== src/Canonical/Amount.antt =====
-- packages/canonical/src/amount.ts: the one parser and the one formatter of money.
pub mod Digits
pub mod RoundTrip
pub mod Decimal
use aegis_phase.Prelude.{
  ℕ, zero, suc, ◌+◌, ◌-◌, ◌*◌, ◌/◌, ◌%◌, Bool, ◌&&◌, ◌||◌, [], ◌∷◌, ◌++◌, reverse, Text, leb, ltb,
  ◌==◌, if◌then◌else◌, length, replicate, all,
}
use aegis_phase.Prelude.Result.{Result, ok, err}
use aegis_phase.Prelude.Int.{ℤ, pos, negsuc}

-- What the canonical package throws: `RangeError`.
pub data RangeError : Type 0 where
  range_error : RangeError

abbrev pub stroops_per_unit : ℕ
stroops_per_unit = 10000000

abbrev pub is_digit : ℕ → Bool
is_digit c = leb b'0' c && leb c b'9'

-- `String.prototype.trim`: the white space and line terminators of ECMAScript.
abbrev pub is_space : ℕ → Bool
is_space c =
    (leb 9 c && leb c 13)
    || c == 32
    || c == 160
    || c == 0x1680
    || (leb 0x2000 c && leb c 0x200a)
    || c == 0x2028
    || c == 0x2029
    || c == 0x202f
    || c == 0x205f
    || c == 0x3000
    || c == 0xfeff

unfoldable pub drop_while : (ℕ → Bool) → Text → Text
drop_while p [] = []
drop_while p (c ∷ s) = if p c then drop_while p s else c ∷ s

unfoldable pub trim : Text → Text
unfolding drop_while
trim s = reverse (drop_while is_space (reverse (drop_while is_space s)))

-- The longest prefix of digits, and what follows it: the greedy `\d+`.
unfoldable pub span_digits : Text → Text × Text
span_digits [] = ([], [])
span_digits (c ∷ s) =
    let (front, rest) = span_digits s in if is_digit c then (c ∷ front, rest) else ([], c ∷ s)

-- `BigInt` of a text of digits.
unfoldable pub value_from : ℕ → Text → ℕ
value_from acc [] = acc
value_from acc (c ∷ s) = value_from (acc * 10 + (c - b'0')) s

unfoldable pub pad_end : ℕ → Text → Text
pad_end n s = s ++ replicate (n - length s) b'0'

unfoldable pub pad_start : ℕ → Text → Text
pad_start n s = replicate (n - length s) b'0' ++ s

-- The match of `(?:\.(\d{1,7}))?$` after the whole part.
match_fraction : Text → Text → Result RangeError ℕ
unfolding value_from pad_end all
match_fraction whole [] = ok (value_from 0 whole * stroops_per_unit + value_from 0 (pad_end 7 []))
match_fraction whole (c ∷ frac) =
    if c == b'.' && all is_digit frac && leb 1 (length frac) && leb (length frac) 7
    then ok (value_from 0 whole * stroops_per_unit + value_from 0 (pad_end 7 frac))
    else err range_error

match_whole : Text × Text → Result RangeError ℕ
unfolding match_fraction
match_whole ([], rest) = err range_error
match_whole (c ∷ whole, rest) = match_fraction (c ∷ whole) rest

unfoldable pub parse_amount : Text → Result RangeError ℕ
unfolding trim span_digits match_whole
parse_amount decimal = match_whole (span_digits (trim decimal))

-- `BigInt.prototype.toString`, on fuel: `n + 1` rounds are enough.
unfoldable pub digits_fuel : ℕ → ℕ → Text
digits_fuel zero n = []
digits_fuel (suc f) n =
    let shorter = digits_fuel f (n / 10) ++ (b'0' + n % 10) ∷ [] in
    if ltb n 10 then (b'0' + n) ∷ [] else shorter

unfoldable pub to_decimal : ℕ → Text
unfolding digits_fuel
to_decimal n = digits_fuel (suc n) n

strip_head : ℕ → Text → Text
strip_head c [] = if c == b'0' then [] else c ∷ []
strip_head c (d ∷ r) = c ∷ d ∷ r

-- `.replace(/0+$/, "")`.
unfoldable pub strip_zeros : Text → Text
unfolding strip_head
strip_zeros [] = []
strip_zeros (c ∷ s) = strip_head c (strip_zeros s)

abbrev dotted : Text → Text
dotted [] = []
dotted (c ∷ s) = b'.' ∷ c ∷ s

unfoldable pub format_abs : ℕ → Text
unfolding to_decimal strip_zeros pad_start
format_abs a =
    to_decimal (a / stroops_per_unit)
    ++ dotted (strip_zeros (pad_start 7 (to_decimal (a % stroops_per_unit))))

unfoldable pub format_amount : ℤ → Text
unfolding format_abs
format_amount (pos a) = format_abs a
format_amount (negsuc n) = b'-' ∷ format_abs (suc n)

-- `bigint.toString()` with its sign.
unfoldable pub to_decimal_ℤ : ℤ → Text
unfolding to_decimal
to_decimal_ℤ (pos n) = to_decimal n
to_decimal_ℤ (negsuc n) = b'-' ∷ to_decimal (suc n)
