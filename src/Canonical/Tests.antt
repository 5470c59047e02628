-- ===== src/Canonical/Tests.antt =====
-- The canonical package at concrete inputs.
use aegis_phase.Prelude.{
  ℕ, ◌≤◌, ◌≡◌, refl, ◌↔◌, ◌⊎◌, true, false, [], ◌∷◌, ◌++◌, Text, Bytes, codes, replicate, take,
  length,
}
use aegis_phase.Prelude.Result.{ok, err}
use aegis_phase.Prelude.Int.{pos, negsuc, leb_ℤ}
use aegis_phase.Canonical.Amount.{parse_amount, format_amount, range_error}
use aegis_phase.Canonical.Amount.RoundTrip.{parse_amount-format_amount}
use aegis_phase.Canonical.Bytes.{encode, ascii, str8, str16, u32, i128, raw, finish, fits_i128}
use aegis_phase.Canonical.Commitment.{Intent, canonical_intent, memo_preimage, memo_hash}
use aegis_phase.Canonical.Commitment.Injective.{
  layout, SameFields, canonical_intent-injective, canonical_intent_iff,
}
use aegis_phase.Canonical.Commitment.Binding.{Collision, memo_hash_binds}

formats :
    (format_amount (pos 125000000) ≡ codes "12.5")
    × (format_amount (negsuc 0) ≡ codes "-0.0000001")
    × (format_amount (pos 0) ≡ codes "0")
unfolding format_amount
formats = (refl, refl, refl)

parses :
    (parse_amount (codes " 12.5 ") ≡ ok 125000000)
    × (parse_amount (codes "1.") ≡ err range_error)
    × (parse_amount (codes "1.12345678") ≡ err range_error)
    × (parse_amount (codes ".5") ≡ err range_error)
unfolding parse_amount
parses = (refl, refl, refl, refl)

parse_amount-format_amount_example : parse_amount (format_amount (pos 100000001)) ≡ ok 100000001
parse_amount-format_amount_example = parse_amount-format_amount 100000001

abbrev as_is : Text → Text
as_is s = s

abbrev sample : Intent
sample = record {
  agent_id = codes "bot";
  service_id = codes "api";
  asset = codes "USDC:G";
  amount = pos 125000000;
  purpose = codes "é";
  client_ref = [];
}

canonical_intent-injective_example : SameFields as_is sample sample
unfolding canonical_intent ascii str8 str16 i128 finish encode
canonical_intent-injective_example =
    canonical_intent-injective as_is sample sample (layout as_is sample) refl refl

canonical_intent_iff_example : (canonical_intent as_is sample ≡ ok (layout as_is sample)) ↔ (
    (leb_ℤ sample.amount (pos 0) ≡ false)
    × (fits_i128 sample.amount ≡ true)
    × (length (encode (codes "bot")) ≤ 255)
    × (length (encode (codes "api")) ≤ 255)
    × (length (encode (codes "USDC:G")) ≤ 255)
    × (length (encode (codes "é")) ≤ 65535)
    × (length (encode []) ≤ 255))
canonical_intent_iff_example = canonical_intent_iff as_is sample

-- A hash that keeps the first bytes only.
abbrev weak_hash : Bytes → Bytes
weak_hash b = take 40 b

memo_hash_binds_example :
    ((◌≡◌ {A = Bytes} (replicate 32 7) (replicate 32 7))
      × (◌≡◌ {A = ℕ} 3 3)
      × (◌≡◌ {A = Bytes} (replicate 32 9) (replicate 32 9)))
    ⊎ Collision weak_hash (replicate 32 7) 3 (replicate 32 9) (replicate 32 7) 3 (replicate 32 9)
unfolding memo_hash memo_preimage raw u32 finish
memo_hash_binds_example =
    memo_hash_binds weak_hash (replicate 32 7) (replicate 32 7) 3 3 (replicate 32 9)
      (replicate 32 9) (replicate 32 7 ++ 0 ∷ 0 ∷ 0 ∷ 3 ∷ 9 ∷ 9 ∷ 9 ∷ 9 ∷ []) refl refl
