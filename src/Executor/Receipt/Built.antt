-- ===== src/Executor/Receipt/Built.antt =====
-- The receipt of apps/executor/src/receipt.ts against the checks of tools/verifier/src/checks.ts.
use aegis_phase.Prelude.{
  zero, ltb, Bool-cases, suc, ℕ, ◌+◌, ◌/◌, ◌%◌, ◌^◌, ◌≤◌, ◌<◌, ◌≡◌, ◌≢◌, ◌⊎◌, inl, inr, refl, sym,
  ap, ◌∙◌, Option, [], ◌∷◌, ◌++◌, Text, Bytes, codes, length, All, All-append, text_eq_refl, arith,
  length-append,
}
use mathlib.Core.Path.{subst}
use aegis_phase.Prelude.Result.{ok-injective, ok}
use aegis_phase.Prelude.Int.{ℤ, pos}
use aegis_phase.Canonical.Amount.{to_decimal, digits_fuel, to_decimal_ℤ}
use aegis_phase.Canonical.Bytes.{be_bytes, to_hex, hex_digit}
use aegis_phase.Canonical.Bytes.Laws.{length-be_bytes, IsByte}
use aegis_phase.Receipt.Validate.{parse_receipt}
use aegis_phase.Receipt.RoundTrip.{safe_parse_receipt-receipt_json}
use aegis_phase.Receipt.Valid.{
  Within, IsAmount, LowerHex, IsHex, IsStrkey, IsUrl, IsReceipt, Alphanumeric,
}
use aegis_phase.Executor.World.{OnChainDecision}
use aegis_phase.Canonical.Commitment.{memo_hash}
use aegis_phase.Canonical.Bytes.Laws.{from_hex-to_hex}
use aegis_phase.Verifier.Types.{pass, from_rpc, from_receipt, from_derived}
use aegis_phase.Verifier.Sources.{ChainDecision, Receipt, Sources}
use aegis_phase.Verifier.Checks.{
  expected_preimage, cmp, mismatches, agreed, check_receipt_matches_decision,
  check_receipt_memo_hash, check_memo_commitment, check_receipt_preimage,
}
use aegis_phase.Verifier.Preimage.{memo_preimage_eq, expected_preimage-memo_preimage}
use aegis_phase.Executor.Receipt.{candidate, build_receipt, validated_or, ReceiptInputs}

hex_digit-LowerHex : (n : ℕ) → n < 16 → LowerHex (hex_digit n)
hex_digit-LowerHex n h = ground arith

to_hex-IsHex : (b : Bytes) → All IsByte b → IsHex (length b) (to_hex b)
unfolding to_hex
to_hex-IsHex [] h = (refl, tt)
to_hex-IsHex (x ∷ b) (h, hs) =
    let (l, a) = to_hex-IsHex b hs in
    (
      omega arith,
      (hex_digit-LowerHex (x / 16) (omega arith), (hex_digit-LowerHex (x % 16) (omega arith), a)),
    )

digits_fuel-IsAmount : (f n : ℕ) → n < f → 0 < n → IsAmount (digits_fuel f n)
unfolding digits_fuel
digits_fuel-IsAmount zero n h p = absurd (omega arith)
digits_fuel-IsAmount (suc f) n h p = elim (Bool-cases (ltb n 10)) [
  | inl e ↦ rw e (b'0' + n, [], refl, (ground arith, ground arith), tt)
  | inr e ↦ rw e (extended f n (digits_fuel-IsAmount f (n / 10) (ground arith) (ground arith)))
]
  where
    extended :
        (f n : ℕ)
        → IsAmount (digits_fuel f (n / 10))
        → IsAmount (digits_fuel f (n / 10) ++ (b'0' + n % 10) ∷ [])
    extended f n (c, rest, e, w, d) = (
      c,
      rest ++ (b'0' + n % 10) ∷ [],
      ap (λ t. t ++ (b'0' + n % 10) ∷ []) e,
      w,
      All-append (Within b'0' b'9') rest ((b'0' + n % 10) ∷ []) d ((omega arith, omega arith), tt),
    )

to_decimal-IsAmount : (n : ℕ) → 0 < n → IsAmount (to_decimal n)
unfolding to_decimal
to_decimal-IsAmount n p = digits_fuel-IsAmount (suc n) n (omega arith) p

-- Thirty-two bytes.
abbrev pub IsHash : Bytes → Type 0
IsHash b = (length b ≡ 32) × All IsByte b

-- What the gate and the confirmed transaction give the receipt.
pub record IsInputs (protocol : Text → Option Text) (i : ReceiptInputs) : Type 0 where
  pub decision_id : IsHash i.decision.decision_id
  pub intent_hash : IsHash i.decision.intent_hash
  pub memo_hash : IsHash i.memo_hash
  pub policy_version : i.decision.policy_version ≤ 0xffffffff
  pub stroops : ℕ
  pub amount : i.decision.amount ≡ pos stroops
  pub positive : 0 < stroops
  pub agent : IsStrkey b'G' i.decision.agent ⊎ IsStrkey b'C' i.decision.agent
  pub service_id : i.decision.service_id ≢ []
  pub sac : IsStrkey b'C' i.decision.asset
  pub passphrase : i.network_passphrase ≢ []
  pub contract_id : IsStrkey b'C' i.contract_id
  pub horizon : IsUrl protocol i.horizon_url
  pub rpc : IsUrl protocol i.rpc_url
  pub tx_hash : IsHex 32 i.tx_hash
  pub source : IsStrkey b'G' i.source
  pub destination : IsStrkey b'G' i.destination
  pub code : (1 ≤ length i.asset_code) × (length i.asset_code ≤ 12) × All Alphanumeric i.asset_code
  pub issuer : IsStrkey b'G' i.asset_issuer

hash_hex : (b : Bytes) → IsHash b → IsHex 32 (to_hex b)
hash_hex b (l, h) = subst (λ (n : ℕ). IsHex n (to_hex b)) l (to_hex-IsHex b h)

u32_IsByte : (n : ℕ) → All IsByte (be_bytes 4 n)
unfolding be_bytes
u32_IsByte n = (omega arith, (omega arith, (omega arith, (omega arith, tt))))

preimage_of : ReceiptInputs → Bytes
preimage_of i =
    i.decision.intent_hash
    ++ (be_bytes 4 (i.decision.policy_version % 2 ^ 32) ++ i.decision.decision_id)

-- The verifier's reading of the decision that the executor read.
pub record SameDecision (d : OnChainDecision) (c : ChainDecision) : Type 0 where
  pub decision_id : c.decision_id ≡ d.decision_id
  pub intent_hash : c.intent_hash ≡ d.intent_hash
  pub policy_version : c.policy_version ≡ d.policy_version
  pub agent : c.agent ≡ d.agent
  pub service_id : c.service_id ≡ d.service_id
  pub asset : c.asset ≡ d.asset
  pub amount : c.amount ≡ d.amount

cmp_same : (field s t : Text) → s ≡ t → cmp field s t ≡ []
cmp_same field s t e = rw (e, text_eq_refl t) refl

module _ (protocol : Text → Option Text) (i : ReceiptInputs) (h : IsInputs protocol i) where
  preimage_hex : IsHex 68 (to_hex (preimage_of i))
  unfolding preimage_of
  preimage_hex =
      subst (λ (n : ℕ). IsHex n (to_hex (preimage_of i))) {y = 68}
        (omega (
          arith,
          length-append i.decision.intent_hash
              (be_bytes 4 (i.decision.policy_version % 2 ^ 32) ++ i.decision.decision_id),
          length-append (be_bytes 4 (i.decision.policy_version % 2 ^ 32)) i.decision.decision_id,
          length-be_bytes 4 (i.decision.policy_version % 2 ^ 32),
          h.intent_hash.0,
          h.decision_id.0,
        ))
        (to_hex-IsHex (preimage_of i) (
          All-append IsByte i.decision.intent_hash _ h.intent_hash.1 (
            All-append IsByte (be_bytes 4 (i.decision.policy_version % 2 ^ 32)) _ (u32_IsByte _)
              h.decision_id.1)))

  candidate-IsReceipt : IsReceipt protocol (candidate i (preimage_of i))
  unfolding to_decimal_ℤ to_decimal
  candidate-IsReceipt = record {
    network = record {
      passphrase = h.passphrase;
      contract_id = h.contract_id;
      horizon = h.horizon;
      rpc = h.rpc;
    };
    chain = record {
      decision_id = hash_hex i.decision.decision_id h.decision_id;
      intent_hash = hash_hex i.decision.intent_hash h.intent_hash;
      policy_version = h.policy_version;
      agent = h.agent;
      service_id = h.service_id;
      asset = h.sac;
      amount =
          subst (λ (z : ℤ). IsAmount (to_decimal_ℤ z)) (sym h.amount)
            (to_decimal-IsAmount h.stroops h.positive);
    };
    settlement = record {
      tx_hash = h.tx_hash;
      memo_hash = hash_hex i.memo_hash h.memo_hash;
      memo_preimage = preimage_hex;
      source = h.source;
      destination = h.destination;
      asset = (i.asset_code, i.asset_issuer, refl, h.code.0, h.code.1, h.code.2, h.issuer);
    };
  }

  build_receipt-ok : build_receipt protocol i ≡ ok (candidate i (preimage_of i))
  unfolding build_receipt parse_receipt preimage_of
  build_receipt-ok =
      rw
        (memo_preimage_eq i.decision.intent_hash i.decision.policy_version i.decision.decision_id
          h.policy_version)
        (ap validated_or (
          (safe_parse_receipt-receipt_json protocol (candidate i (preimage_of i))).1
            candidate-IsReceipt))

  candidate_agrees :
      (c : ChainDecision)
      → SameDecision i.decision c
      → mismatches (candidate i (preimage_of i)).chain c ≡ []
  candidate_agrees c same =
      rw
        (
          cmp_same (codes "decision_id") _ _ (ap to_hex same.decision_id),
          cmp_same (codes "intent_hash") _ _ (ap to_hex same.intent_hash),
          cmp_same (codes "policy_version") _ _ (ap to_decimal same.policy_version),
          cmp_same (codes "agent") _ _ same.agent,
          cmp_same (codes "service_id") _ _ same.service_id,
          cmp_same (codes "asset") _ _ same.asset,
          cmp_same (codes "amount") _ _ (ap to_decimal_ℤ same.amount),
        )
        refl

  module _ (s : Sources)
      (commits : memo_hash s.sha256 i.decision.intent_hash i.decision.policy_version
          i.decision.decision_id
        ≡ ok i.memo_hash) where
    preimage_hashes : s.sha256 (preimage_of i) ≡ i.memo_hash
    unfolding memo_hash preimage_of
    preimage_hashes =
        let e : memo_hash s.sha256 i.decision.intent_hash i.decision.policy_version
              i.decision.decision_id
            ≡ ok (s.sha256 (preimage_of i)) =
          rw
            (
              h.intent_hash.0,
              h.decision_id.0,
              memo_preimage_eq i.decision.intent_hash i.decision.policy_version
                  i.decision.decision_id h.policy_version,
            )
            refl in
        ok-injective (sym e ∙ commits)

    commitment_passes :
        check_memo_commitment s (candidate i (preimage_of i)) i.memo_hash
        ≡ ok (pass (codes "commitment.memo_matches") from_derived)
    unfolding check_memo_commitment
    commitment_passes =
        rw
          (
            from_hex-to_hex i.decision.intent_hash h.intent_hash.1,
            from_hex-to_hex i.decision.decision_id h.decision_id.1,
            commits,
            text_eq_refl i.memo_hash,
          )
          refl

    preimage_IsByte : All IsByte (preimage_of i)
    unfolding preimage_of
    preimage_IsByte = All-append IsByte i.decision.intent_hash _ h.intent_hash.1 (
        All-append IsByte (be_bytes 4 (i.decision.policy_version % 2 ^ 32)) _ (u32_IsByte _)
          h.decision_id.1)

    expected : expected_preimage (candidate i (preimage_of i)).chain ≡ ok (preimage_of i)
    unfolding preimage_of
    expected =
        expected_preimage-memo_preimage (candidate i (preimage_of i)).chain i.decision.intent_hash
          i.decision.decision_id h.intent_hash.1 h.decision_id.1 h.intent_hash.0 h.decision_id.0
          h.policy_version refl refl
        ∙ memo_preimage_eq i.decision.intent_hash i.decision.policy_version i.decision.decision_id
            h.policy_version

    preimage_passes :
        check_receipt_preimage s (candidate i (preimage_of i)) i.memo_hash
        ≡ ok (pass (codes "receipt.preimage") from_receipt)
    unfolding check_receipt_preimage
    preimage_passes =
        rw
          (
            from_hex-to_hex (preimage_of i) preimage_IsByte,
            expected,
            text_eq_refl (preimage_of i),
            preimage_hashes,
            text_eq_refl i.memo_hash,
          )
          refl

    -- For well-formed inputs whose memo is the commitment to the decision, buildReceipt returns a
    -- receipt, and the verifier's checks of it pass: it matches every contract decision with the same
    -- fields, it states the memo, the memo is the commitment to its fields, and its preimage is the
    -- one expected and hashes to the memo.
    pub build_receipt-Passes :
        (c : ChainDecision)
        → SameDecision i.decision c
        → (r : Receipt) × (build_receipt protocol i ≡ ok r)
          × (check_receipt_matches_decision r c
              ≡ pass (codes "rpc.receipt_matches_decision") from_rpc)
          × (check_receipt_memo_hash r i.memo_hash ≡ pass (codes "receipt.memo_hash") from_receipt)
          × (check_memo_commitment s r i.memo_hash
              ≡ ok (pass (codes "commitment.memo_matches") from_derived))
          × (check_receipt_preimage s r i.memo_hash
              ≡ ok (pass (codes "receipt.preimage") from_receipt))
    build_receipt-Passes c same = (
      candidate i (preimage_of i),
      build_receipt-ok,
      ap agreed (candidate_agrees c same),
      rw (text_eq_refl (to_hex i.memo_hash)) refl,
      commitment_passes,
      preimage_passes,
    )
