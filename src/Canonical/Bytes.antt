-- ===== src/Canonical/Bytes.antt =====
-- packages/canonical/src/bytes.ts: the byte writer of the canonical form, and hexadecimal.
-- A writer is the list of its chunks; a method returns the writer or throws.
pub mod Laws
use aegis_phase.Prelude.{
  ℕ, zero, suc, ◌+◌, ◌-◌, ◌*◌, ◌/◌, ◌%◌, ◌^◌, Bool, ◌&&◌, ◌||◌, List, [], ◌∷◌, ◌++◌, Text, Bytes,
  leb, ◌==◌, ltb, if◌then◌else◌, length, concat, Option, none, some,
}
use aegis_phase.Prelude.Result.{Result, ok, err, ◌>>=◌}
use aegis_phase.Prelude.Int.{ℤ, pos, negsuc}
use aegis_phase.Canonical.Amount.{RangeError, range_error, is_space}

-- One code point in UTF-8; a lone surrogate is written as U+FFFD, as `TextEncoder` does.
unfoldable pub utf8_char : ℕ → Bytes
utf8_char c =
    if ltb c 0x80
    then c ∷ []
    else if ltb c 0x800
    then (0xc0 + c / 64) ∷ (0x80 + c % 64) ∷ []
    else if leb 0xd800 c && leb c 0xdfff
    then 0xef ∷ 0xbf ∷ 0xbd ∷ []
    else if ltb c 0x10000
    then (0xe0 + c / 4096) ∷ (0x80 + c / 64 % 64) ∷ (0x80 + c % 64) ∷ []
    else (0xf0 + c / 262144) ∷ (0x80 + c / 4096 % 64) ∷ (0x80 + c / 64 % 64) ∷ (0x80 + c % 64) ∷ []

unfoldable pub encode : Text → Bytes
unfolding utf8_char
encode [] = []
encode (c ∷ s) = utf8_char c ++ encode s

abbrev pub Writer : Type 0
Writer = List Bytes

-- `this.chunks.push(…)`.
abbrev pub push : Bytes → Writer → Writer
push b w = w ++ b ∷ []

unfoldable pub ascii : Text → Writer → Result RangeError Writer
unfolding encode
ascii s w = ok (push (encode s) w)

-- The low `k` bytes of `u`, big-endian: `out[i] = u & 0xff; u >>= 8` from the last place down.
unfoldable pub be_bytes : ℕ → ℕ → Bytes
be_bytes zero u = []
be_bytes (suc k) u = be_bytes k (u / 256) ++ (u % 256) ∷ []

-- `normalize("NFC")` is the parameter.
module _ (nfc : Text → Text) where
  unfoldable pub str8 : Text → Writer → Result RangeError Writer
  unfolding encode
  str8 s w =
      let b = encode (nfc s) in
      if ltb 0xff (length b) then err range_error else ok (push b (push (length b ∷ []) w))

  unfoldable pub str16 : Text → Writer → Result RangeError Writer
  unfolding encode
  str16 s w =
      let b = encode (nfc s) in
      if ltb 0xffff (length b)
      then err range_error
      else ok (push b (push (length b / 256 ∷ length b % 256 ∷ []) w))

unfoldable pub u32 : ℕ → Writer → Result RangeError Writer
u32 n w =
    if ltb 0xffffffff n
    then err range_error
    else ok (push (n / 2 ^ 24 % 256 ∷ n / 2 ^ 16 % 256 ∷ n / 2 ^ 8 % 256 ∷ n % 256 ∷ []) w)

-- `v < -(2n ** 127n) || v > 2n ** 127n - 1n`.
abbrev pub fits_i128 : ℤ → Bool
fits_i128 (pos n) = ltb n (2 ^ 127)
fits_i128 (negsuc n) = ltb n (2 ^ 127)

-- Two's complement: `v < 0n ? v + 2n ** 128n : v`.
abbrev pub twos_complement : ℤ → ℕ
twos_complement (pos n) = n
twos_complement (negsuc n) = 2 ^ 128 - (n + 1)

unfoldable pub i128 : ℤ → Writer → Result RangeError Writer
unfolding be_bytes
i128 v w = if fits_i128 v then ok (push (be_bytes 16 (twos_complement v)) w) else err range_error

unfoldable pub raw : Bytes → Writer → Result RangeError Writer
raw b w = ok (push b w)

unfoldable pub finish : Writer → Bytes
finish w = concat w

abbrev pub hex_digit : ℕ → ℕ
hex_digit n = if ltb n 10 then b'0' + n else b'a' + (n - 10)

unfoldable pub to_hex : Bytes → Text
to_hex [] = []
to_hex (b ∷ bs) = hex_digit (b / 16) ∷ hex_digit (b % 16) ∷ to_hex bs

-- The value of a hexadecimal digit of either case.
abbrev pub hex_value : ℕ → Option ℕ
hex_value c =
    if leb b'0' c && leb c b'9'
    then some (c - b'0')
    else if leb b'a' c && leb c b'f'
    then some (c - b'a' + 10)
    else if leb b'A' c && leb c b'F'
    then some (c - b'A' + 10)
    else none

abbrev digits_value : Option ℕ → Option ℕ → ℕ
digits_value none low = 0
digits_value (some h) none = h
digits_value (some h) (some l) = h * 16 + l

abbrev or_zero : Option ℕ → ℕ
or_zero none = 0
or_zero (some n) = n

-- `parseInt` of two characters as a byte: white space and a sign may stand in front, it stops at
-- the first character that is no digit, and `NaN` is stored as 0.
abbrev pub pair_value : ℕ → ℕ → ℕ
pair_value a b =
    if is_space a || a == b'+'
    then or_zero (hex_value b)
    else if a == b'-'
    then (256 - or_zero (hex_value b)) % 256
    else digits_value (hex_value a) (hex_value b)

unfoldable pub from_hex : Text → Result RangeError Bytes
from_hex [] = ok []
from_hex (a ∷ []) = err range_error
from_hex (a ∷ b ∷ s) = do rest ← from_hex s; ok (pair_value a b ∷ rest)
