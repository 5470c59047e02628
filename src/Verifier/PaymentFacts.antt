-- ===== src/Verifier/PaymentFacts.antt =====
-- What the checks of the commitment, the payment, the registry and the replay scan establish when
-- they pass.
use aegis_phase.Prelude.{
  ℕ, ◌≡◌, refl, sym, ap, ◌∙◌, ◌⊎◌, inl, inr, Bool, true, false, not, ◌&&◌, Option, none, some, List,
  [], ◌∷◌, Text, Bytes, text_eq, text_eq_iff, All, any, length, ltb, ltb, if◌then◌else◌, arith,
  and-true,
}
use mathlib.Core.Path.{subst}
use mathlib.Core.Option.{some-injective}
use aegis_phase.Prelude.Result.{Result, ok, err, >>=-eq-ok, ok-injective}
use aegis_phase.Prelude.Int.{ℤ, pos, eqb_ℤ, eqb_ℤ_iff}
use aegis_phase.Canonical.Amount.{RangeError, parse_amount}
use aegis_phase.Canonical.Bytes.{to_hex, from_hex}
use aegis_phase.Canonical.Commitment.{memo_hash}
use aegis_phase.Verifier.Types.{Check, status_fail, status_unavailable}
use aegis_phase.Verifier.Sources.{
  HorizonTransaction, HorizonOperation, MemoScan, ChainDecision, Receipt, ServiceRegistry,
  service_of, Outage, Sources,
}
use aegis_phase.Verifier.Checks.{
  judged, or_empty, amount_check, paid_amount, derives, issued_asset, is_native, check_replay,
  hashed, expected_preimage, check_memo_commitment, check_receipt_preimage,
}
use aegis_phase.Verifier.Verify.{
  pinned_check, registry_check, contract_memo_check, destination_check, payee_check, source_check,
  scanned, commitment_checks, payment_checks,
}
use aegis_phase.Verifier.Verdict.{Passed, judged-Passed}

pub registry_check-Passed :
    (contract : Text) (o : Option ServiceRegistry)
    → Passed (registry_check contract o)
    → (registry : ServiceRegistry) × (o ≡ some registry) × (registry.contract_id ≡ some contract)
registry_check-Passed contract none h = cc
registry_check-Passed contract (some registry) h = (registry, refl, pinned registry.contract_id h)
  where
    pinned : (o : Option Text) → Passed (pinned_check contract o) → o ≡ some contract
    pinned none h = cc
    pinned (some c) h =
        ap some (sym ((text_eq_iff _ _).0 (judged-Passed (text_eq contract c) _ _ refl h)))

destination_check-Passed :
    (payment : HorizonOperation) (o : Option Text)
    → Passed (destination_check payment o)
    → o ≡ some (or_empty payment.to)
destination_check-Passed payment none h = cc
destination_check-Passed payment (some t) h =
    ap some (sym ((text_eq_iff _ _).0 (judged-Passed (text_eq (or_empty payment.to) t) _ _ refl h)))

pub payee_check-Passed :
    (registry : ServiceRegistry) (payment : HorizonOperation) (d : ChainDecision)
    → Passed (payee_check registry (some payment) (some d))
    → service_of registry d.service_id ≡ some (or_empty payment.to)
payee_check-Passed registry payment d h = destination_check-Passed payment _ h

pub source_check-Passed :
    (tx : HorizonTransaction) (o : Option Text)
    → Passed (source_check (some tx) o)
    → o ≡ some tx.source_account
source_check-Passed tx none h = cc
source_check-Passed tx (some t) h =
    ap some (sym ((text_eq_iff _ _).0 (judged-Passed (text_eq tx.source_account t) _ _ refl h)))

-- The amount paid is the amount authorized.
abbrev pub PaysAmount : Option Text → ℤ → Type 0
PaysAmount o authorized =
    (t : Text) × (n : ℕ) × (o ≡ some t) × (parse_amount t ≡ ok n) × (authorized ≡ pos n)

paid_amount-Passed :
    (r : Result RangeError ℕ) (authorized : ℤ)
    → Passed (paid_amount r authorized)
    → (n : ℕ) × (r ≡ ok n) × (authorized ≡ pos n)
paid_amount-Passed (err e) authorized h = cc
paid_amount-Passed (ok n) authorized h =
    (n, refl, sym ((eqb_ℤ_iff _ _).0 (judged-Passed (eqb_ℤ (pos n) authorized) _ _ refl h)))

pub amount_check-Passed :
    (o : Option Text) (authorized : ℤ)
    → Passed (amount_check o authorized)
    → PaysAmount o authorized
amount_check-Passed none authorized h = cc
amount_check-Passed (some t) authorized h =
    let (n, parsed, same) = paid_amount-Passed (parse_amount t) authorized h in
    (t, n, refl, parsed, same)

one_of_two :
    (tx : Text) (hashes : List Text)
    → any (text_eq tx) hashes ≡ true
    → ltb 1 (length hashes) ≡ false
    → hashes ≡ tx ∷ []
unfolding any
one_of_two tx [] a l = cc
one_of_two tx (h ∷ []) a l =
    let e : text_eq tx h ≡ true = ground arith in ap (λ t. t ∷ []) (sym ((text_eq_iff tx h).0 e))
one_of_two tx (h ∷ k ∷ hashes) a l = absurd (ground arith)

tests_of_replay :
    (exhaustive found more : Bool) (missed lost twice once : Check)
    → missed.status ≡ status_unavailable
    → lost.status ≡ status_fail
    → twice.status ≡ status_fail
    → Passed (
        if not exhaustive
        then missed
        else (if not found then lost else (if more then twice else once)))
    → (exhaustive ≡ true) × (found ≡ true) × (more ≡ false)
tests_of_replay false found more missed lost twice once u f g h = cc
tests_of_replay true false more missed lost twice once u f g h = cc
tests_of_replay true true true missed lost twice once u f g h = cc
tests_of_replay true true false missed lost twice once u f g h = (refl, refl, refl)

-- The scan was exhaustive and found this transaction alone.
pub check_replay-Passed :
    (scan : MemoScan) (tx : Text)
    → Passed (check_replay scan tx)
    → (scan.exhaustive ≡ true) × (scan.hashes ≡ tx ∷ [])
check_replay-Passed scan tx h =
    let (e, a, l) =
      tests_of_replay scan.exhaustive (any (text_eq tx) scan.hashes) (ltb 1 (length scan.hashes)) _
        _ _ _ refl refl refl h in
    (e, one_of_two tx scan.hashes a l)

pub scanned-Passed :
    (r : Result Outage MemoScan) (tx : Text)
    → Passed (scanned r tx)
    → (scan : MemoScan) × (r ≡ ok scan) × (scan.exhaustive ≡ true) × (scan.hashes ≡ tx ∷ [])
scanned-Passed (err e) tx h = cc
scanned-Passed (ok scan) tx h = let (e, u) = check_replay-Passed scan tx h in (scan, refl, e, u)

pub contract_memo_check-Passed :
    (o : Option Bytes) (memo : Bytes) → Passed (contract_memo_check o memo) → o ≡ some memo
contract_memo_check-Passed none memo h = cc
contract_memo_check-Passed (some m) memo h =
    ap some ((text_eq_iff _ _).0 (judged-Passed (text_eq m memo) _ _ refl h))

module _ (s : Sources) where
  -- The asset paid has the contract address that was authorized.
  abbrev pub PaysAsset : HorizonOperation → Text → Text → Type 0
  PaysAsset payment passphrase authorized =
      ((is_native s payment.asset_type ≡ true) × (s.native_contract passphrase ≡ authorized))
      ⊎ ((code : Text) × (issuer : Text) × (payment.asset_code ≡ some code)
          × (payment.asset_issuer ≡ some issuer)
          × (s.asset_contract code issuer passphrase ≡ some authorized))

  derives-Passed :
      (o : Option Text) (authorized : Text) → Passed (derives s o authorized) → o ≡ some authorized
  derives-Passed none authorized h = cc
  derives-Passed (some t) authorized h =
      ap some ((text_eq_iff _ _).0 (judged-Passed (text_eq t authorized) _ _ refl h))

  issued_asset-Passed :
      (code issuer : Option Text) (passphrase authorized : Text)
      → Passed (issued_asset s code issuer passphrase authorized)
      → (c : Text) × (i : Text) × (code ≡ some c)
        × (issuer ≡ some i)
        × (s.asset_contract c i passphrase ≡ some authorized)
  issued_asset-Passed none none passphrase authorized h = cc
  issued_asset-Passed none (some i) passphrase authorized h = cc
  issued_asset-Passed (some c) none passphrase authorized h = cc
  issued_asset-Passed (some c) (some i) passphrase authorized h =
      (c, i, refl, refl, derives-Passed _ authorized h)

  asset_lem :
      (b : Bool) (payment : HorizonOperation) (passphrase authorized : Text)
      → is_native s payment.asset_type ≡ b
      → Passed (
          if b
          then derives s (some (s.native_contract passphrase)) authorized
          else issued_asset s payment.asset_code payment.asset_issuer passphrase authorized)
      → PaysAsset payment passphrase authorized
  asset_lem true payment passphrase authorized e h =
      inl (e, some-injective _ _ (derives-Passed _ authorized h))
  asset_lem false payment passphrase authorized e h =
      inr (issued_asset-Passed _ _ passphrase authorized h)

  pub payment_checks-Passed :
      (payment : HorizonOperation) (d : ChainDecision) (passphrase : Text)
      → All Passed (payment_checks s (some payment) (some d) passphrase)
      → PaysAmount payment.amount d.amount × PaysAsset payment passphrase d.asset
  unfolding payment_checks
  payment_checks-Passed payment d passphrase h = (
    amount_check-Passed payment.amount d.amount h.0,
    asset_lem _ payment passphrase d.asset refl h.1.0,
  )

  -- The receipt's fields, the memo on the ledger and the contract's memo are one commitment.
  pub record Commits (receipt : Receipt) (memo : Bytes) (contract_memo : Option Bytes)
      : Type 0 where
    pub intent : Bytes
    pub decision : Bytes
    pub preimage : Bytes
    pub intent_read : from_hex receipt.chain.intent_hash ≡ ok intent
    pub decision_read : from_hex receipt.chain.decision_id ≡ ok decision
    pub committed : memo_hash s.sha256 intent receipt.chain.policy_version decision ≡ ok memo
    pub preimage_read : from_hex receipt.settlement.memo_preimage ≡ ok preimage
    pub spelled : expected_preimage receipt.chain ≡ ok preimage
    pub hashes : s.sha256 preimage ≡ memo
    pub stated : receipt.settlement.memo_hash ≡ to_hex memo
    pub computed : contract_memo ≡ some memo

  memo_commitment-Passed :
      (receipt : Receipt) (memo : Bytes) (c : Check)
      → check_memo_commitment s receipt memo ≡ ok c
      → Passed c
      → (intent : Bytes) × (decision : Bytes) × (from_hex receipt.chain.intent_hash ≡ ok intent)
        × (from_hex receipt.chain.decision_id ≡ ok decision)
        × (memo_hash s.sha256 intent receipt.chain.policy_version decision ≡ ok memo)
  unfolding check_memo_commitment
  memo_commitment-Passed receipt memo c e h =
      let (intent, e1, r1) = >>=-eq-ok (from_hex receipt.chain.intent_hash) _ e in
      let (decision, e2, r2) = >>=-eq-ok (from_hex receipt.chain.decision_id) _ r1 in
      let (computed, e3, r3) =
        >>=-eq-ok (memo_hash s.sha256 intent receipt.chain.policy_version decision) _ r2 in
      let same : judged (text_eq computed memo) _ _ ≡ c = ok-injective r3 in
      let b = judged-Passed (text_eq computed memo) _ _ refl (subst Passed (sym same) h) in
      (intent, decision, e1, e2, e3 ∙ ap ok ((text_eq_iff _ _).0 b))

  preimage-Passed :
      (receipt : Receipt) (memo : Bytes) (c : Check)
      → check_receipt_preimage s receipt memo ≡ ok c
      → Passed c
      → (preimage : Bytes) × (from_hex receipt.settlement.memo_preimage ≡ ok preimage)
        × (expected_preimage receipt.chain ≡ ok preimage)
        × (s.sha256 preimage ≡ memo)
  unfolding check_receipt_preimage
  preimage-Passed receipt memo c e h =
      let (preimage, e1, r1) = >>=-eq-ok (from_hex receipt.settlement.memo_preimage) _ e in
      let (expected, e2, r2) = >>=-eq-ok (expected_preimage receipt.chain) _ r1 in
      let same : hashed s preimage expected memo ≡ c = ok-injective r2 in
      let b =
        judged-Passed (text_eq preimage expected && text_eq (s.sha256 preimage) memo) _ _ refl
          (subst Passed (sym same) h) in
      let (b1, b2) = and-true _ _ b in
      (preimage, e1, e2 ∙ ap ok (sym ((text_eq_iff _ _).0 b1)), (text_eq_iff _ _).0 b2)

  pub commitment_checks-Passed :
      (receipt : Receipt) (memo : Bytes) (contract_memo : Option Bytes) (checks : List Check)
      → commitment_checks s receipt (some memo) contract_memo ≡ ok checks
      → All Passed checks
      → Commits receipt memo contract_memo
  unfolding commitment_checks
  commitment_checks-Passed receipt memo contract_memo checks e h =
      let (c, e1, r1) = >>=-eq-ok (check_memo_commitment s receipt memo) _ e in
      let (p, e2, r2) = >>=-eq-ok (check_receipt_preimage s receipt memo) _ r1 in
      let h' = subst (All Passed) (sym (ok-injective r2)) h in
      let (intent, decision, i, d, m) = memo_commitment-Passed receipt memo c e1 h'.1.0 in
      let (preimage, q, sp, hs) = preimage-Passed receipt memo p e2 h'.1.1.0 in
      record {
        intent = intent;
        decision = decision;
        preimage = preimage;
        intent_read = i;
        decision_read = d;
        committed = m;
        preimage_read = q;
        spelled = sp;
        hashes = hs;
        stated =
            (text_eq_iff _ _).0
              (judged-Passed (text_eq receipt.settlement.memo_hash (to_hex memo)) _ _ refl h'.0);
        computed = contract_memo_check-Passed contract_memo memo h'.1.1.1.0;
      }
