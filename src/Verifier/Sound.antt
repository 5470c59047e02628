-- ===== src/Verifier/Sound.antt =====
-- A report with exit code 0: what the ledger, the contract and the registry say then.
use aegis_phase.Prelude.{◌≡◌, refl, sym, true, Option, some, List, [], ◌∷◌, All}
use mathlib.Core.Path.{subst}
use aegis_phase.Prelude.Result.{ok, >>=-eq-ok, ok-injective}
use aegis_phase.Verifier.Types.{Check}
use aegis_phase.Verifier.Sources.{
  HorizonTransaction, HorizonOperation, MemoScan, ChainDecision, Receipt, ServiceRegistry,
  service_of, CliOptions, Sources,
}
use aegis_phase.Verifier.Checks.{or_empty, check_tx_matches_receipt}
use aegis_phase.Prelude.{text_eq, text_eq_iff}
use aegis_phase.Verifier.Scan.{scan_for_memo}
use aegis_phase.Verifier.Verify.{
  Resolved, LedgerRead, ChainRead, resolve, registry_check, registry_checks, payee_check,
  source_check, commitment_checks, payment_checks, strict_checks, replay_check, all_checks,
  accounts_of,
}
use aegis_phase.Verifier.Verdict.{Passed, judged-Passed, All-split}
use aegis_phase.Verifier.LedgerFacts.{LedgerFacts}
use aegis_phase.Verifier.ChainFacts.{ChainFacts}
use aegis_phase.Verifier.PaymentFacts.{
  PaysAmount, PaysAsset, Commits, payee_check-Passed, source_check-Passed, scanned-Passed,
  payment_checks-Passed, commitment_checks-Passed,
}

module _ (s : Sources) where
  -- The payment on the ledger is the one that the contract's decision authorized.
  pub record Settlement (options : CliOptions) (receipt : Receipt) (ledger : LedgerRead)
      (chain : ChainRead) (registry : ServiceRegistry) : Type 0 where
    pub on_ledger :
        LedgerFacts s (resolve s options receipt (some registry)).horizon options.tx ledger
    pub on_chain :
        ChainFacts s
          (resolve s options receipt (some registry)).contract
          (resolve s options receipt (some registry)).rpc
          (resolve s options receipt (some registry)).network_passphrase
          receipt
          options.strict
          chain
    pub described : options.tx ≡ receipt.settlement.tx_hash
    pub pinned : registry.contract_id ≡ some (resolve s options receipt (some registry)).contract
    pub commits : Commits s receipt on_ledger.memo chain.memo_hash
    pub amount : PaysAmount on_ledger.payment.amount on_chain.decision.amount
    pub asset :
        PaysAsset s on_ledger.payment
          (resolve s options receipt (some registry)).network_passphrase
          on_chain.decision.asset
    pub payee :
        service_of registry on_chain.decision.service_id ≡ some (or_empty on_ledger.payment.to)
    pub payer : registry.executor ≡ some on_ledger.tx.source_account
    pub scan : MemoScan
    pub scanned :
        scan_for_memo s
          (resolve s options receipt (some registry)).horizon
          (accounts_of on_ledger.tx
            (some on_ledger.payment)
            (some registry)
            (some on_chain.decision))
          (s.to_base64 on_ledger.memo)
        ≡ ok scan
    pub exhaustive : scan.exhaustive ≡ true
    pub alone : scan.hashes ≡ options.tx ∷ []
    pub strict : List Check
    pub strict_made :
        strict_checks s options.strict chain.decision chain.settled_ledger ledger.tx ≡ ok strict
    pub strict_passed : All Passed strict

  -- The groups of checks that `all_checks` puts together.
  module _ (options : CliOptions) (receipt : Receipt) (ledger : LedgerRead) (chain : ChainRead)
      (registry : Option ServiceRegistry) where
    pub record Groups : Type 0 where
      pub commitment : List Check
      pub committed : commitment_checks s receipt ledger.memo chain.memo_hash ≡ ok commitment
      pub tx_match : Passed (check_tx_matches_receipt options.tx receipt)
      pub contract : Passed (registry_check (resolve s options receipt registry).contract registry)
      pub ledger_passed : All Passed ledger.checks
      pub chain_passed : All Passed chain.checks
      pub commitment_passed : All Passed commitment
      pub payment_passed : All Passed (
          payment_checks s ledger.payment chain.decision
            (resolve s options receipt registry).network_passphrase)
      pub registry_passed : All Passed (registry_checks registry ledger chain.decision)
      pub strict : List Check
      pub strict_made :
          strict_checks s options.strict chain.decision chain.settled_ledger ledger.tx ≡ ok strict
      pub strict_passed : All Passed strict
      pub replay_passed : Passed (
          replay_check s
            (resolve s options receipt registry).horizon
            options.tx
            ledger.memo
            ledger.tx
            ledger.payment
            registry
            chain.decision)

    pub all_checks-Passed :
        (checks : List Check)
        → all_checks s options receipt ledger chain registry ≡ ok checks
        → All Passed checks
        → Groups
    unfolding all_checks
    all_checks-Passed checks e h =
        let (commitment, committed, r1) =
          >>=-eq-ok (commitment_checks s receipt ledger.memo chain.memo_hash) _ e in
        let (strict, strict_made, r2) =
          >>=-eq-ok (strict_checks s options.strict chain.decision chain.settled_ledger ledger.tx) _
            r1 in
        let h' = subst (All Passed) (sym (ok-injective r2)) h in
        let (l, h1) = All-split Passed ledger.checks _ h'.1.1.1 in
        let (c, h2) = All-split Passed chain.checks _ h1 in
        let (m, h3) = All-split Passed commitment _ h2 in
        let (p, h4) =
          All-split Passed
            (payment_checks s ledger.payment chain.decision
              (resolve s options receipt registry).network_passphrase)
            _ h3 in
        let (r, h5) = All-split Passed (registry_checks registry ledger chain.decision) _ h4 in
        let (x, h6) = All-split Passed strict _ h5 in
        record {
          commitment = commitment;
          committed = committed;
          tx_match = h'.1.0;
          contract = h'.1.1.0;
          ledger_passed = l;
          chain_passed = c;
          commitment_passed = m;
          payment_passed = p;
          registry_passed = r;
          strict = strict;
          strict_made = strict_made;
          strict_passed = x;
          replay_passed = h6.0;
        }

  module _ (options : CliOptions) (receipt : Receipt) (ledger : LedgerRead) (chain : ChainRead)
      (registry : ServiceRegistry) where
    abbrev pub at_ : Resolved
    at_ = resolve s options receipt (some registry)

    replayed :
        (l : LedgerFacts s at_.horizon options.tx ledger)
        (c : ChainFacts s at_.contract at_.rpc at_.network_passphrase receipt options.strict chain)
        → Passed (
            replay_check s at_.horizon options.tx ledger.memo ledger.tx ledger.payment
              (some registry)
              chain.decision)
        → Passed (
            replay_check s at_.horizon options.tx ledger.memo
              (some l.tx)
              (some l.payment)
              (some registry)
              (some c.decision))
    replayed l c h =
        let check_ : Option HorizonTransaction
            → Option HorizonOperation
            → Option ChainDecision
            → Check =
          λ x p d. replay_check s at_.horizon options.tx ledger.memo x p (some registry) d in
        subst (λ x. Passed (check_ x (some l.payment) (some c.decision))) l.tx_read
          (subst (λ p. Passed (check_ ledger.tx p (some c.decision))) l.payment_read
            (subst (λ d. Passed (check_ ledger.tx ledger.payment d)) c.decision_read h))

    pub Groups-Settlement :
        registry.contract_id ≡ some at_.contract
        → Groups options receipt ledger chain (some registry)
        → LedgerFacts s at_.horizon options.tx ledger
        → ChainFacts s at_.contract at_.rpc at_.network_passphrase receipt options.strict chain
        → Settlement options receipt ledger chain registry
    unfolding replay_check
    Groups-Settlement pinned g l c =
        let pass_ = at_.network_passphrase in
        let paid =
          subst (λ p. All Passed (payment_checks s p (some c.decision) pass_)) l.payment_read
            (subst (λ d. All Passed (payment_checks s ledger.payment d pass_)) c.decision_read
              g.payment_passed) in
        let pays = payment_checks-Passed s l.payment c.decision pass_ paid in
        let listed =
          subst (λ p. Passed (payee_check registry p (some c.decision))) l.payment_read
            (subst (λ d. Passed (payee_check registry ledger.payment d)) c.decision_read
              g.registry_passed.0) in
        let replay =
          subst
            (λ m. Passed (
              replay_check s at_.horizon options.tx m (some l.tx) (some l.payment) (some registry)
                (some c.decision)))
            l.memo_read (replayed l c g.replay_passed) in
        let (scan, scanned, exhaustive, alone) = scanned-Passed _ options.tx replay in
        record {
          on_ledger = l;
          on_chain = c;
          described =
              (text_eq_iff _ _).0
                (judged-Passed (text_eq options.tx receipt.settlement.tx_hash) _ _ refl g.tx_match);
          pinned = pinned;
          commits =
              commitment_checks-Passed s receipt l.memo chain.memo_hash g.commitment
                (subst (λ m. commitment_checks s receipt m chain.memo_hash ≡ ok g.commitment)
                  l.memo_read g.committed)
                g.commitment_passed;
          amount = pays.0;
          asset = pays.1;
          payee = payee_check-Passed registry l.payment c.decision listed;
          payer = source_check-Passed l.tx registry.executor (
              subst (λ x. Passed (source_check x registry.executor)) l.tx_read
                g.registry_passed.1.0);
          scan = scan;
          scanned = scanned;
          exhaustive = exhaustive;
          alone = alone;
          strict = g.strict;
          strict_made = g.strict_made;
          strict_passed = g.strict_passed;
        }
