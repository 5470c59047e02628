-- ===== src/Verifier/Verified.antt =====
-- What a reader of the verifier's exit code may conclude.
use aegis_phase.Prelude.{Bytes, ◌≡◌, refl, sym, ap, ◌∙◌, Option, none, some, Text, All, any, arith}
use mathlib.Core.Option.{some-injective}
use aegis_phase.Prelude.Result.{Result, ok, err, >>=-eq-ok, ok-injective}
use aegis_phase.Canonical.Amount.{RangeError}
use aegis_phase.Canonical.Bytes.{from_hex}
use aegis_phase.Canonical.Bytes.Laws.{IsByte, from_hex-to_hex}
use aegis_phase.Canonical.Commitment.{memo_hash}
use aegis_phase.Verifier.Types.{exit_code_for, exit_verified, exit_failed}
use aegis_phase.Verifier.Sources.{
  ChainDecision, ChainReader, Receipt, ServiceRegistry, CliOptions, Outage, Sources,
}
use aegis_phase.Verifier.Verify.{
  VerifyReport, LedgerRead, ChainRead, resolve, thrown, read_ledger, read_chain, read_registry,
  all_checks, verify_receipt, verify_parsed, verify_text, verify,
}
use aegis_phase.Verifier.Verdict.{exit_code_for_iff}
use aegis_phase.Verifier.LedgerFacts.{read_ledger-Passed}
use aegis_phase.Verifier.ChainFacts.{read_chain-Passed}
use aegis_phase.Verifier.PaymentFacts.{registry_check-Passed}
use aegis_phase.Verifier.Sound.{Settlement, Groups, all_checks-Passed, Groups-Settlement}

-- The hashes of a decision that the contract's client returns are byte arrays.
abbrev pub ReadsBytes : Sources → Type 0
ReadsBytes s =
    (contract rpc passphrase : Text) (reader : ChainReader) (id : Bytes) (d : ChainDecision)
    → s.connect contract rpc passphrase ≡ ok reader
    → reader.get_decision id ≡ ok (some d)
    → All IsByte d.intent_hash × All IsByte d.decision_id

module _ (s : Sources) (options : CliOptions) where
  -- The receipt's facts: a published registry, and a settlement.
  abbrev pub Verified : Receipt → Type 0
  Verified receipt =
      (registry : ServiceRegistry) × (chain : ChainRead) × (read_registry s options ≡ some registry)
      × Settlement s options receipt
          (read_ledger s (resolve s options receipt (some registry)).horizon options.tx) chain
          registry

  Groups-Verified :
      (receipt : Receipt) (chain : ChainRead) (o : Option ServiceRegistry)
      → read_registry s options ≡ o
      → read_chain s
          (resolve s options receipt o).contract
          (resolve s options receipt o).rpc
          (resolve s options receipt o).network_passphrase
          receipt
          options.strict
        ≡ ok chain
      → Groups s options receipt
          (read_ledger s (resolve s options receipt o).horizon options.tx)
          chain
          o
      → Verified receipt
  Groups-Verified receipt chain none loaded e g = cc
  Groups-Verified receipt chain (some registry) loaded e g =
      let (registry', same, pinned) = registry_check-Passed _ (some registry) g.contract in
      let pin : registry.contract_id ≡ _ =
        ap (λ (r : ServiceRegistry). r.contract_id) (some-injective _ _ same) ∙ pinned in
      (
        registry,
        chain,
        loaded,
        Groups-Settlement s options receipt _ chain registry pin g
            (read_ledger-Passed s _ options.tx g.ledger_passed)
            (read_chain-Passed s _ _ _ receipt options.strict chain e g.chain_passed),
      )

  verify_receipt-Verified :
      (receipt : Receipt) (result : VerifyReport)
      → verify_receipt s options receipt ≡ ok result
      → result.exit_code ≡ exit_verified
      → Verified receipt
  unfolding verify_receipt
  verify_receipt-Verified receipt result e zero_ =
      let (chain, read, r1) = >>=-eq-ok (read_chain s _ _ _ receipt options.strict) _ e in
      let (checks, made, r2) = >>=-eq-ok (all_checks s options receipt _ chain _) _ r1 in
      let code : exit_code_for checks ≡ exit_verified =
        ap (λ (r : VerifyReport). r.exit_code) (ok-injective r2) ∙ zero_ in
      Groups-Verified receipt chain (read_registry s options) refl read (
        all_checks-Passed s options receipt _ chain _ checks made
          ((exit_code_for_iff checks).0.0 code))

  thrown-eq-ok : {A : Type 0} (r : Result RangeError A) {a : A} → thrown r ≡ ok a → r ≡ ok a
  thrown-eq-ok (ok a) h = ap ok (ok-injective h)
  thrown-eq-ok (err e) h = cc

  verify_parsed-Verified :
      (o : Option Receipt) (result : VerifyReport)
      → verify_parsed s options o ≡ ok result
      → result.exit_code ≡ exit_verified
      → (receipt : Receipt) × (o ≡ some receipt) × Verified receipt
  unfolding verify_parsed exit_code_for any
  verify_parsed-Verified none result e zero_ =
      let code : exit_failed ≡ result.exit_code =
        ap (λ (r : VerifyReport). r.exit_code) (ok-injective e) in
      absurd (omega arith)
  verify_parsed-Verified (some receipt) result e zero_ =
      (receipt, refl, verify_receipt-Verified receipt result (thrown-eq-ok _ e) zero_)

  verify_text-Verified :
      (r : Result Outage Text) (result : VerifyReport)
      → verify_text s options r ≡ ok result
      → result.exit_code ≡ exit_verified
      → (text : Text) × (receipt : Receipt) × (r ≡ ok text)
        × (s.parse_receipt_json text ≡ some receipt)
        × Verified receipt
  unfolding verify_text
  verify_text-Verified (err x) result e zero_ = cc
  verify_text-Verified (ok text) result e zero_ =
      let (receipt, parsed, facts) = verify_parsed-Verified _ result e zero_ in
      (text, receipt, refl, parsed, facts)

  -- When verify returns a report with exit code 0, the receipt was read and parsed, the registry
  -- was found, and the ledger, the contract and the registry agree on one settlement: a successful
  -- transaction with one payment and a hash memo; an approved and settled decision of the pinned
  -- contract with the fields that the receipt states; a memo that is the hash of the intent hash,
  -- the policy version and the decision id; the authorized amount and asset; the published payee
  -- and payer; and an exhaustive scan that found this transaction alone.
  pub verify-Verified :
      (result : VerifyReport)
      → verify s options ≡ ok result
      → result.exit_code ≡ exit_verified
      → (text : Text) × (receipt : Receipt) × (s.read_file options.receipt ≡ ok text)
        × (s.parse_receipt_json text ≡ some receipt)
        × Verified receipt
  unfolding verify
  verify-Verified result e zero_ = verify_text-Verified _ result e zero_

  -- For a settlement that was verified, with a contract client that returns byte arrays, the memo on
  -- the ledger is the commitment to the fields of the decision that the contract holds.
  pub Settlement-memo_hash :
      (receipt : Receipt) (ledger : LedgerRead) (chain : ChainRead) (registry : ServiceRegistry)
      (found : Settlement s options receipt ledger chain registry)
      → ReadsBytes s
      → memo_hash s.sha256 found.on_chain.decision.intent_hash
          found.on_chain.decision.policy_version found.on_chain.decision.decision_id
        ≡ ok found.on_ledger.memo
  Settlement-memo_hash receipt ledger chain registry found reads =
      let c = found.on_chain in
      let (hi, hd) = reads _ _ _ c.reader c.id c.decision c.connected c.found in
      let claims = found.on_chain.claims in
      let intent = ok-injective (
        sym (from_hex-to_hex _ hi)
        ∙ (ap from_hex claims.intent_hash ∙ found.commits.intent_read)) in
      let decision = ok-injective (
        sym (from_hex-to_hex _ hd)
        ∙ (ap from_hex claims.decision_id ∙ found.commits.decision_read)) in
      rw (intent, decision, claims.policy_version) found.commits.committed
