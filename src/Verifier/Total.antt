-- ===== src/Verifier/Total.antt =====
-- What the verifier needs so that it does not throw.
use aegis_phase.Prelude.{
  ℕ, ◌+◌, ◌-◌, ◌%◌, ◌^◌, ◌≤◌, ◌≡◌, refl, sym, ap, ◌∙◌, Bool, true, false, Option, none, some, [],
  ◌∷◌, ◌++◌, Text, Bytes, length, take, drop, replicate, leb, suc, zero, length-append,
  length-replicate, arith,
}
use mathlib.Core.Path.{subst}
use aegis_phase.Prelude.Result.{Result, ok, err, Total, Total-bind, ok-injective, >>=-eq-ok}
use aegis_phase.Canonical.Bytes.{from_hex, be_bytes}
use aegis_phase.Canonical.Bytes.Laws.{length-be_bytes}
use aegis_phase.Canonical.Commitment.{memo_hash, decision_id}
use aegis_phase.Canonical.Commitment.Binding.{memo_hash-Total, decision_id-Total}
use aegis_phase.Verifier.Sources.{
  HorizonTransaction, ChainDecision, ChainReader, Receipt, CliOptions, Outage, Sources,
}
use aegis_phase.Verifier.Checks.{
  set_at, expected_preimage, check_memo_commitment, check_receipt_preimage,
  check_decision_id_derivation,
}
use aegis_phase.Verifier.Verify.{
  thrown, chain_of, decision_read, ChainRead, commitment_checks, derivation_check, strict_checks,
  all_checks, read_chain, read_ledger, read_registry, verify_receipt, verify_parsed, verify_text,
  verify, resolve,
}

-- What the receipt's validation promises of the fields that are decoded.
pub record WellFormed (receipt : Receipt) : Type 0 where
  pub intent : Bytes
  pub decision : Bytes
  pub preimage : Bytes
  pub intent_read : from_hex receipt.chain.intent_hash ≡ ok intent
  pub decision_read : from_hex receipt.chain.decision_id ≡ ok decision
  pub preimage_read : from_hex receipt.settlement.memo_preimage ≡ ok preimage
  pub intent_length : length intent ≡ 32
  pub decision_length : length decision ≡ 32
  pub version : receipt.chain.policy_version ≤ 0xffffffff

length-take : (n : ℕ) (b : Bytes) → n ≤ length b → length (take n b) ≡ n
length-take zero b h = refl
length-take (suc n) [] h = absurd (omega arith)
length-take (suc n) (x ∷ b) h = ap suc (length-take n b (omega arith))

length-drop : (n : ℕ) (b : Bytes) → length (drop n b) ≡ length b - n
length-drop zero b = omega arith
length-drop (suc n) [] = omega arith
length-drop (suc n) (x ∷ b) = omega (arith, length-drop n b)

set_at-fits :
    (offset : ℕ) (bytes target : Bytes)
    → offset + length bytes ≤ length target
    → set_at offset bytes target
      ≡ ok (take offset target ++ (bytes ++ drop (offset + length bytes) target))
set_at-fits offset bytes target h =
    let e : leb (offset + length bytes) (length target) ≡ true = ground arith in rw e refl

length-set_at :
    (offset : ℕ) (bytes target r : Bytes)
    → offset + length bytes ≤ length target
    → set_at offset bytes target ≡ ok r
    → length r ≡ length target
length-set_at offset bytes target r h e =
    let same = ok-injective (sym (set_at-fits offset bytes target h) ∙ e) in
    ap length (sym same)
    ∙ omega (
      arith,
      length-append (take offset target) (bytes ++ drop (offset + length bytes) target),
      length-append bytes (drop (offset + length bytes) target),
      length-take offset target (omega arith),
      length-drop (offset + length bytes) target,
    )

module _ (receipt : Receipt) (good : WellFormed receipt) where
  expected_preimage-Total : Total (expected_preimage receipt.chain)
  unfolding expected_preimage
  expected_preimage-Total =
      Total-bind (from_hex receipt.chain.intent_hash) _ (good.intent, good.intent_read)
        (λ i ei.
          let li : length i ≡ 32 =
            ap length (ok-injective (sym ei ∙ good.intent_read)) ∙ good.intent_length in
          let l0 = length-replicate {A = ℕ} 68 0 in
          let f0 : 0 + length i ≤ length (replicate {A = ℕ} 68 0) = omega arith in
          Total-bind (set_at 0 i (replicate 68 0)) _ (_, set_at-fits 0 i (replicate 68 0) f0)
            (λ t et.
              let lt : length t ≡ 68 = length-set_at 0 i (replicate 68 0) t f0 et ∙ l0 in
              let lb = length-be_bytes 4 (receipt.chain.policy_version % 2 ^ 32) in
              let f1 : 32 + length (be_bytes 4 (receipt.chain.policy_version % 2 ^ 32)) ≤ length t =
                omega arith in
              Total-bind (set_at 32 (be_bytes 4 (receipt.chain.policy_version % 2 ^ 32)) t) _
                (_, set_at-fits 32 (be_bytes 4 (receipt.chain.policy_version % 2 ^ 32)) t f1)
                (λ u eu.
                  let lu : length u ≡ 68 =
                    length-set_at 32 (be_bytes 4 (receipt.chain.policy_version % 2 ^ 32)) t u f1 eu
                    ∙ lt in
                  Total-bind (from_hex receipt.chain.decision_id) _
                    (good.decision, good.decision_read)
                    (λ k ek.
                      let lk : length k ≡ 32 =
                        ap length (ok-injective (sym ek ∙ good.decision_read))
                        ∙ good.decision_length in
                      (_, set_at-fits 36 k u (omega arith))))))

  module _ (s : Sources) where
    check_memo_commitment-Total : (memo : Bytes) → Total (check_memo_commitment s receipt memo)
    unfolding check_memo_commitment
    check_memo_commitment-Total memo =
        Total-bind (from_hex receipt.chain.intent_hash) _ (good.intent, good.intent_read)
          (λ i ei.
            Total-bind (from_hex receipt.chain.decision_id) _ (good.decision, good.decision_read)
              (λ k ek.
                Total-bind (memo_hash s.sha256 i receipt.chain.policy_version k) _
                  (memo_hash-Total s.sha256 i receipt.chain.policy_version k
                    (ap length (ok-injective (sym ei ∙ good.intent_read)) ∙ good.intent_length)
                    (ap length (ok-injective (sym ek ∙ good.decision_read)) ∙ good.decision_length)
                    good.version)
                  (λ c _. (_, refl))))

    check_receipt_preimage-Total : (memo : Bytes) → Total (check_receipt_preimage s receipt memo)
    unfolding check_receipt_preimage
    check_receipt_preimage-Total memo =
        Total-bind (from_hex receipt.settlement.memo_preimage) _ (good.preimage, good.preimage_read)
          (λ p _.
            Total-bind (expected_preimage receipt.chain) _ expected_preimage-Total
              (λ e _. (_, refl)))

    commitment_checks-Total :
        (memo contract_memo : Option Bytes) → Total (commitment_checks s receipt memo contract_memo)
    unfolding commitment_checks
    commitment_checks-Total none contract_memo = (_, refl)
    commitment_checks-Total (some memo) contract_memo =
        Total-bind (check_memo_commitment s receipt memo) _ (check_memo_commitment-Total memo)
          (λ c _.
            Total-bind (check_receipt_preimage s receipt memo) _ (check_receipt_preimage-Total memo)
              (λ p _. (_, refl)))

-- A decision with a hash of 32 bytes and a 32-bit version.
abbrev pub Sized : ChainDecision → Type 0
Sized d = (length d.intent_hash ≡ 32) × (d.policy_version ≤ 0xffffffff)

-- The decisions that the contract's client returns are sized.
abbrev pub ReadsSized : Sources → Type 0
ReadsSized s =
    (contract rpc passphrase : Text) (reader : ChainReader) (id : Bytes) (d : ChainDecision)
    → s.connect contract rpc passphrase ≡ ok reader
    → reader.get_decision id ≡ ok (some d)
    → Sized d

abbrev AllSized : Option ChainDecision → Type 0
AllSized o = (d : ChainDecision) → o ≡ some d → Sized d

module _ (s : Sources) where
  strict_checks-Total :
      (b : Bool) (o : Option ChainDecision) (settled_ledger : Option ℕ)
      (tx : Option HorizonTransaction)
      → AllSized o
      → Total (strict_checks s b o settled_ledger tx)
  unfolding strict_checks derivation_check check_decision_id_derivation
  strict_checks-Total false o settled_ledger tx h = (_, refl)
  strict_checks-Total true none settled_ledger tx h = (_, refl)
  strict_checks-Total true (some d) settled_ledger tx h =
      let (l, v) = h d refl in
      Total-bind (derivation_check s (some d)) _
        (Total-bind (decision_id s.sha256 d.intent_hash d.policy_version) _
          (decision_id-Total s.sha256 d.intent_hash d.policy_version l v) (λ k _. (_, refl)))
        (λ c _. (_, refl))

  module _ (sized : ReadsSized s) (contract rpc passphrase : Text) (receipt : Receipt)
      (strict : Bool) (id : Bytes) where
    decision_read-AllSized :
        (reader : ChainReader) (r : Result Outage (Option ChainDecision))
        → s.connect contract rpc passphrase ≡ ok reader
        → reader.get_decision id ≡ r
        → AllSized (decision_read s reader receipt id strict r).decision
    decision_read-AllSized reader (err x) c f d e = cc
    decision_read-AllSized reader (ok o) c f d e =
        sized contract rpc passphrase reader id d c (f ∙ ap ok e)

    chain_of-AllSized :
        (r : Result Outage ChainReader)
        → s.connect contract rpc passphrase ≡ r
        → AllSized (chain_of s receipt strict id r).decision
    chain_of-AllSized (err x) c d e = cc
    chain_of-AllSized (ok reader) c d e = decision_read-AllSized reader _ c refl d e

  read_chain-AllSized :
      (options : CliOptions) (receipt : Receipt)
      → ReadsSized s
      → (chain : ChainRead)
      → read_chain s
          (resolve s options receipt (read_registry s options)).contract
          (resolve s options receipt (read_registry s options)).rpc
          (resolve s options receipt (read_registry s options)).network_passphrase
          receipt
          options.strict
        ≡ ok chain
      → AllSized chain.decision
  unfolding read_chain
  read_chain-AllSized options receipt sized chain e =
      let (id, _, last) = >>=-eq-ok (from_hex receipt.chain.decision_id) _ e in
      subst (λ (c : ChainRead). AllSized c.decision) (ok-injective last)
        (chain_of-AllSized sized _ _ _ receipt options.strict id _ refl)

  verify_receipt-Total :
      (options : CliOptions) (receipt : Receipt)
      → WellFormed receipt
      → ReadsSized s
      → Total (verify_receipt s options receipt)
  unfolding verify_receipt read_chain all_checks
  verify_receipt-Total options receipt good sized =
      let r = resolve s options receipt (read_registry s options) in
      Total-bind (read_chain s r.contract r.rpc r.network_passphrase receipt options.strict) _
        (Total-bind (from_hex receipt.chain.decision_id) _ (good.decision, good.decision_read)
          (λ id _. (_, refl)))
        (λ chain e.
          let l = read_ledger s r.horizon options.tx in
          Total-bind (all_checks s options receipt l chain (read_registry s options)) _
            (Total-bind (commitment_checks s receipt l.memo chain.memo_hash) _
              (commitment_checks-Total receipt good s l.memo chain.memo_hash)
              (λ c _.
                Total-bind (strict_checks s options.strict chain.decision chain.settled_ledger l.tx)
                  _
                  (strict_checks-Total options.strict chain.decision chain.settled_ledger l.tx
                    (read_chain-AllSized options receipt sized chain e))
                  (λ x _. (_, refl))))
            (λ checks _. (_, refl)))

  -- For a receipt that was read, parsed and is well-formed (its hashes decode to 32 bytes, its
  -- preimage decodes, its policy version fits 32 bits), and a contract client that returns
  -- decisions with a hash of 32 bytes and a 32-bit version, verify returns a report whatever the
  -- other sources answer or fail to answer.
  pub verify-Total :
      (options : CliOptions) (text : Text) (receipt : Receipt)
      → s.read_file options.receipt ≡ ok text
      → s.parse_receipt_json text ≡ some receipt
      → WellFormed receipt
      → ReadsSized s
      → Total (verify s options)
  unfolding verify verify_text verify_parsed
  verify-Total options text receipt h p good sized =
      let (report_, e) = verify_receipt-Total options receipt good sized in
      (report_, ap (verify_text s options) h ∙ (ap (verify_parsed s options) p ∙ ap thrown e))
