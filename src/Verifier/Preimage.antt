-- ===== src/Verifier/Preimage.antt =====
-- The preimage that tools/verifier/src/checks.ts writes by offsets, against the byte writer of
-- packages/canonical/src/memo.ts.
use aegis_phase.Prelude.{
  ℕ, zero, suc, ◌+◌, ◌/◌, ◌%◌, ◌^◌, ◌≤◌, ◌≡◌, refl, sym, ap, ◌∙◌, true, [], ◌∷◌, ◌++◌, Bytes,
  length, All, take, drop, replicate, leb, arith, length-append,
}
use mathlib.Core.Path.{subst}
use mathlib.Core.List.{append_assoc, append-nil}
use aegis_phase.Prelude.Result.{ok}
use aegis_phase.Canonical.Bytes.{be_bytes, to_hex, raw, u32, finish}
use aegis_phase.Canonical.Bytes.Laws.{IsByte, from_hex-to_hex, length-be_bytes}
use aegis_phase.Canonical.Commitment.{memo_preimage}
use aegis_phase.Verifier.Sources.{ReceiptChain}
use aegis_phase.Verifier.Checks.{set_at, expected_preimage}

take-append : (a b : Bytes) → take (length a) (a ++ b) ≡ a
take-append [] b = refl
take-append (x ∷ a) b = ap (λ t. x ∷ t) (take-append a b)

drop-append :
    (a old rest : Bytes) (n : ℕ) → n ≡ length a + length old → drop n (a ++ (old ++ rest)) ≡ rest
drop-append [] [] rest zero h = refl
drop-append [] [] rest (suc n) h = absurd (omega arith)
drop-append [] (x ∷ old) rest zero h = absurd (omega arith)
drop-append [] (x ∷ old) rest (suc n) h = drop-append [] old rest n (omega arith)
drop-append (x ∷ a) old rest zero h = absurd (omega arith)
drop-append (x ∷ a) old rest (suc n) h = drop-append a old rest n (omega arith)

-- Bytes written over as many old ones.
set_at-over :
    (n : ℕ) (a old rest bytes : Bytes)
    → length a ≡ n
    → length bytes ≡ length old
    → set_at n bytes (a ++ (old ++ rest)) ≡ ok (a ++ (bytes ++ rest))
set_at-over n a old rest bytes h k =
    subst (λ (m : ℕ). set_at m bytes (a ++ (old ++ rest)) ≡ ok (a ++ (bytes ++ rest))) h
      (let fits : leb (length a + length bytes) (length (a ++ (old ++ rest))) ≡ true =
          ground (arith, length-append a (old ++ rest), length-append old rest) in
        rw fits (
          rw
            (
              take-append a (old ++ rest),
              drop-append a old rest (length a + length bytes) (omega arith),
            )
            refl))

u32-be_bytes :
    (v : ℕ)
    → v ≤ 0xffffffff
    → be_bytes 4 (v % 2 ^ 32)
      ≡ (v / 2 ^ 24 % 256) ∷ (v / 2 ^ 16 % 256) ∷ (v / 2 ^ 8 % 256) ∷ (v % 256) ∷ []
unfolding be_bytes
u32-be_bytes v h = ground arith

pub memo_preimage_eq :
    (intent : Bytes) (v : ℕ) (decision : Bytes)
    → v ≤ 0xffffffff
    → memo_preimage intent v decision ≡ ok (intent ++ (be_bytes 4 (v % 2 ^ 32) ++ decision))
unfolding memo_preimage raw u32 finish
memo_preimage_eq intent v decision h = rw (u32-be_bytes v h) (ground (arith, append-nil decision))

set_at_last :
    (a b decision : Bytes)
    → length a + length b ≡ 36
    → length decision ≡ 32
    → set_at 36 decision (a ++ (b ++ replicate 32 0)) ≡ ok (a ++ (b ++ decision))
set_at_last a b decision h k =
    ap (λ (t : Bytes). set_at 36 decision t) (sym (append_assoc a b (replicate 32 0)))
    ∙ (set_at-over 36 (a ++ b) (replicate 32 0) [] decision (length-append a b ∙ h) k
        ∙ ap (λ (t : Bytes). ok t)
            (ap (λ (t : Bytes). (a ++ b) ++ t) (append-nil decision) ∙ append_assoc a b decision))

-- On the hexadecimal texts of two hashes both write the same 68 bytes.
pub expected_preimage-memo_preimage :
    (c : ReceiptChain) (intent decision : Bytes)
    → All IsByte intent
    → All IsByte decision
    → length intent ≡ 32
    → length decision ≡ 32
    → c.policy_version ≤ 0xffffffff
    → c.intent_hash ≡ to_hex intent
    → c.decision_id ≡ to_hex decision
    → expected_preimage c ≡ memo_preimage intent c.policy_version decision
unfolding expected_preimage
expected_preimage-memo_preimage c intent decision bi bd li ld v ei ed =
    let be = be_bytes 4 (c.policy_version % 2 ^ 32) in
    rw
      (
        ei,
        from_hex-to_hex intent bi,
        set_at-over 0 [] (replicate 32 0) (replicate 36 0) intent refl li,
        set_at-over 32 intent (replicate 4 0) (replicate 32 0) be li
            (length-be_bytes 4 (c.policy_version % 2 ^ 32)),
        ed,
        from_hex-to_hex decision bd,
      )
      (set_at_last intent be decision (omega (arith, length-be_bytes 4 (c.policy_version % 2 ^ 32)))
          ld
        ∙ sym (memo_preimage_eq intent c.policy_version decision v))
