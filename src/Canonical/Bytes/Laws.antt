-- ===== src/Canonical/Bytes/Laws.antt =====
-- The encodings: hexadecimal, big-endian numbers, two's complement and prefixes.

use mathlib.Core.Path.{ap₂}
use aegis_phase.Prelude.{
  ℕ, zero, suc, ◌+◌, ◌*◌, ◌/◌, ◌%◌, ◌^◌, ◌<◌, ◌≡◌, refl, sym, ap, ◌∙◌, true, [], ◌∷◌, ◌++◌, Bytes,
  ◌==◌, length, All, arith, length-append, every_below, every_below_lem, ==_iff,
}
use native.Mathlib.Nat.{pow-suc}
use aegis_phase.Prelude.Result.{ok}
use aegis_phase.Prelude.Int.{ℤ, pos, negsuc}
use aegis_phase.Canonical.Bytes.{
  be_bytes, fits_i128, twos_complement, hex_digit, to_hex, pair_value, from_hex,
}

abbrev pub IsByte : ℕ → Type 0
IsByte b = b < 256

hex_table : every_below (λ b. pair_value (hex_digit (b / 16)) (hex_digit (b % 16)) == b) 256 ≡ true
unfolding every_below
hex_table = refl

pair_value-hex : (b : ℕ) → b < 256 → pair_value (hex_digit (b / 16)) (hex_digit (b % 16)) ≡ b
pair_value-hex b h = (==_iff _ b).0 (every_below_lem _ 256 b h hex_table)

-- Reading the hexadecimal text of a byte array returns the byte array.
pub from_hex-to_hex : (b : Bytes) → All IsByte b → from_hex (to_hex b) ≡ ok b
unfolding from_hex to_hex
from_hex-to_hex [] h = refl
from_hex-to_hex (x ∷ b) (h, hs) =
    rw (from_hex-to_hex b hs) (ap (λ (c : ℕ). ok (c ∷ b)) (pair_value-hex x h))

pub be_value : ℕ → Bytes → ℕ
be_value acc [] = acc
be_value acc (b ∷ bs) = be_value (acc * 256 + b) bs

be_value-append : (acc : ℕ) (s t : Bytes) → be_value acc (s ++ t) ≡ be_value (be_value acc s) t
unfolding be_value
be_value-append acc [] t = refl
be_value-append acc (c ∷ s) t = be_value-append (acc * 256 + c) s t

pub length-be_bytes : (k u : ℕ) → length (be_bytes k u) ≡ k
unfolding be_bytes
length-be_bytes zero u = refl
length-be_bytes (suc k) u =
    omega (
      arith,
      length-append {0} (be_bytes k (u / 256)) ((u % 256) ∷ []),
      length-be_bytes k (u / 256),
    )

be_value-snoc : (s : Bytes) (c : ℕ) → be_value 0 (s ++ c ∷ []) ≡ be_value 0 s * 256 + c
unfolding be_value
be_value-snoc s c = be_value-append 0 s (c ∷ [])

be_value_nil : be_value 0 [] ≡ 0
unfolding be_value
be_value_nil = refl

-- A number that fits into `k` bytes is the value of its bytes.
pub be_value-be_bytes : (k u : ℕ) → u < 256 ^ k → be_value 0 (be_bytes k u) ≡ u
unfolding be_bytes
be_value-be_bytes zero u h = omega (arith, be_value_nil)
be_value-be_bytes (suc k) u h = omega (
  arith,
  be_value-snoc (be_bytes k (u / 256)) (u % 256),
  be_value-be_bytes k (u / 256) (omega (arith, pow-suc 256 k)),
)

pub be_bytes-injective :
    (k u v : ℕ) → u < 256 ^ k → v < 256 ^ k → be_bytes k u ≡ be_bytes k v → u ≡ v
be_bytes-injective k u v hu hv e =
    sym (be_value-be_bytes k u hu) ∙ (ap (be_value 0) e ∙ be_value-be_bytes k v hv)

pub twos_complement-lt : (v : ℤ) → fits_i128 v ≡ true → twos_complement v < 256 ^ 16
twos_complement-lt (pos n) h = ground arith
twos_complement-lt (negsuc n) h = ground arith

pub twos_complement-injective :
    (u v : ℤ)
    → fits_i128 u ≡ true
    → fits_i128 v ≡ true
    → twos_complement u ≡ twos_complement v
    → u ≡ v
twos_complement-injective (pos n) (pos m) h k e = ground arith
twos_complement-injective (pos n) (negsuc m) h k e = ground arith
twos_complement-injective (negsuc n) (pos m) h k e = ground arith
twos_complement-injective (negsuc n) (negsuc m) h k e = ground arith

head_or : ℕ → Bytes → ℕ
head_or n [] = n
head_or n (b ∷ bs) = b

pub cons-injective : (a b : ℕ) (s t : Bytes) → (a ∷ s) ≡ (b ∷ t) → (a ≡ b) × (s ≡ t)
cons-injective a b s t e = (cc, cc)

-- Equal texts whose first parts are equally long have equal parts.
pub append-split : (a b s t : Bytes) → length a ≡ length b → a ++ s ≡ b ++ t → (a ≡ b) × (s ≡ t)
append-split [] [] s t l e = (refl, e)
append-split [] (y ∷ b) s t l e = absurd (omega arith)
append-split (x ∷ a) [] s t l e = absurd (omega arith)
append-split (x ∷ a) (y ∷ b) s t l e =
    let (same, rest) = cons-injective x y (a ++ s) (b ++ t) e in
    let (same', rest') = append-split a b s t (omega arith) rest in
    (ap₂ (λ (c : ℕ) (r : Bytes). c ∷ r) same same', rest')

-- A part behind its length in one byte, or in two.
pub prefix8-injective :
    (a b s t : Bytes) → length a ∷ a ++ s ≡ length b ∷ b ++ t → (a ≡ b) × (s ≡ t)
prefix8-injective a b s t e =
    let (l, rest) = cons-injective (length a) (length b) (a ++ s) (b ++ t) e in
    append-split a b s t l rest

pub prefix16-injective :
    (a b s t : Bytes)
    → (length a / 256) ∷ (length a % 256) ∷ a ++ s ≡ (length b / 256) ∷ (length b % 256) ∷ b ++ t
    → (a ≡ b) × (s ≡ t)
prefix16-injective a b s t e =
    let (high, low_rest) = cons-injective _ _ _ _ e in
    let (low, rest) = cons-injective _ _ _ _ low_rest in append-split a b s t (omega arith) rest
