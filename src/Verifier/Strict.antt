-- ===== src/Verifier/Strict.antt =====
-- What the checks of the strict mode add for a verified settlement.
use aegis_phase.Prelude.{
  ℕ, ◌≤◌, Text, ◌≡◌, refl, sym, ap, ◌∙◌, true, Option, none, some, List, text_eq, text_eq_iff, leb,
  leb→le, All,
}
use mathlib.Core.Path.{subst}
use aegis_phase.Prelude.Result.{Result, ok, err, >>=-eq-ok, ok-injective}
use aegis_phase.Canonical.Commitment.{decision_id}
use aegis_phase.Verifier.Types.{Check}
use aegis_phase.Verifier.Sources.{
  HorizonTransaction, ChainDecision, Outage, Receipt, ServiceRegistry, CliOptions, Sources,
}
use aegis_phase.Verifier.Checks.{judged, check_decision_id_derivation}
use aegis_phase.Verifier.Verify.{
  answer, LedgerRead, ChainRead, order_check, derivation_check, strict_checks, VerifyReport, verify,
}
use aegis_phase.Verifier.ChainFacts.{settled_at}
use aegis_phase.Verifier.Verdict.{Passed, judged-Passed}
use aegis_phase.Verifier.Sound.{Settlement}
use aegis_phase.Verifier.Types.{exit_verified}
use aegis_phase.Verifier.Verified.{Verified, verify-Verified}

order_check-Passed :
    (o : Option ℕ) (tx : HorizonTransaction)
    → Passed (order_check o (some tx))
    → (n : ℕ) × (o ≡ some n) × (n ≤ tx.ledger)
order_check-Passed none tx h = cc
order_check-Passed (some n) tx h =
    (n, refl, leb→le _ _ (judged-Passed (leb n tx.ledger) _ _ refl h))

module _ (s : Sources) where
  derivation-Passed :
      (d : ChainDecision) (c : Check)
      → check_decision_id_derivation s d ≡ ok c
      → Passed c
      → decision_id s.sha256 d.intent_hash d.policy_version ≡ ok d.decision_id
  unfolding check_decision_id_derivation
  derivation-Passed d c e h =
      let (derived, e1, r1) = >>=-eq-ok (decision_id s.sha256 d.intent_hash d.policy_version) _ e in
      let same : judged (text_eq derived d.decision_id) _ _ ≡ c = ok-injective r1 in
      let b = judged-Passed (text_eq derived d.decision_id) _ _ refl (subst Passed (sym same) h) in
      e1 ∙ ap ok ((text_eq_iff _ _).0 b)

  strict_checks-Passed :
      (d : ChainDecision) (o : Option ℕ) (tx : HorizonTransaction) (checks : List Check)
      → strict_checks s true (some d) o (some tx) ≡ ok checks
      → All Passed checks
      → (decision_id s.sha256 d.intent_hash d.policy_version ≡ ok d.decision_id)
        × ((n : ℕ) × (o ≡ some n) × (n ≤ tx.ledger))
  unfolding strict_checks derivation_check
  strict_checks-Passed d o tx checks e h =
      let (c, e1, r1) = >>=-eq-ok (derivation_check s (some d)) _ e in
      let h' = subst (All Passed) (sym (ok-injective r1)) h in
      (derivation-Passed d c e1 h'.0, order_check-Passed o tx h'.1.0)

  answer-eq-some : (r : Result Outage (Option ℕ)) {n : ℕ} → answer r ≡ some n → r ≡ ok (some n)
  answer-eq-some (ok o) e = ap ok e
  answer-eq-some (err e) h = cc

  -- What the checks of the strict mode say of a settlement: the id of its decision is derived from the
  -- intent hash and the policy version, and the contract's client, asked for the entry of the id that
  -- the receipt states, said that it was last written at or before the ledger of the payment.
  abbrev pub IsStrict :
      {options : CliOptions} {receipt : Receipt} {ledger : LedgerRead} {chain : ChainRead}
      {registry : ServiceRegistry}
      → Settlement s options receipt ledger chain registry
      → Type 0
  IsStrict found =
      (decision_id s.sha256 found.on_chain.decision.intent_hash
          found.on_chain.decision.policy_version
        ≡ ok found.on_chain.decision.decision_id)
      × ((n : ℕ) × (found.on_chain.reader.decision_entry_last_modified_ledger found.on_chain.id
            ≡ ok (some n))
          × (n ≤ found.on_ledger.tx.ledger))

  Settlement-strict :
      (options : CliOptions) (receipt : Receipt) (ledger : LedgerRead) (chain : ChainRead)
      (registry : ServiceRegistry) (found : Settlement s options receipt ledger chain registry)
      → options.strict ≡ true
      → IsStrict found
  Settlement-strict options receipt ledger chain registry found is_strict =
      let c = found.on_chain in
      let d = found.on_chain.decision in
      let tx = found.on_ledger.tx in
      let o = chain.settled_ledger in
      let e1 =
        subst (λ b. strict_checks s b chain.decision o ledger.tx ≡ ok found.strict) is_strict
          found.strict_made in
      let e2 =
        subst (λ q. strict_checks s true q o ledger.tx ≡ ok found.strict)
          found.on_chain.decision_read e1 in
      let e3 =
        subst (λ q. strict_checks s true (some d) o q ≡ ok found.strict) found.on_ledger.tx_read
          e2 in
      let (derived, (n, said, before)) =
        strict_checks-Passed d o tx found.strict e3 found.strict_passed in
      let asked = subst (λ b. o ≡ settled_at s b c.reader c.id) is_strict c.ledger_read in
      (derived, (n, answer-eq-some _ (sym asked ∙ said), before))

  -- When verify in the strict mode returns a report with exit code 0, the receipt was read and parsed,
  -- and the ledger, the contract and the registry agree on a settlement whose decision has an id that
  -- is derived from its intent hash and its policy version, and whose entry, of which the
  -- contract's client was asked by the id that the receipt states, was last written at or before the
  -- ledger of the payment.
  pub verify-IsStrict :
      (options : CliOptions) (result : VerifyReport)
      → verify s options ≡ ok result
      → result.exit_code ≡ exit_verified
      → options.strict ≡ true
      → (text : Text) × (receipt : Receipt) × (s.read_file options.receipt ≡ ok text)
        × (s.parse_receipt_json text ≡ some receipt)
        × ((facts : Verified s options receipt) × IsStrict facts.3)
  verify-IsStrict options result returned zero_ is_strict =
      let (text, receipt, read, parsed, facts) = verify-Verified s options result returned zero_ in
      (
        text,
        receipt,
        read,
        parsed,
        (facts, Settlement-strict options receipt _ _ facts.0 facts.3 is_strict),
      )
