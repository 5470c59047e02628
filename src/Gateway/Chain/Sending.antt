-- ===== src/Gateway/Chain/Sending.antt =====
-- The order of what a submission of apps/gateway/src/chain.ts does.
use aegis_phase.Prelude.{
  ℕ, All-append, ◌≡◌, refl, sym, ap, ◌∙◌, Bool, true, false, Option, none, some, List, [], ◌∷◌,
  ◌++◌, Text, if◌then◌else◌, All, map,
}
use mathlib.Core.Path.{subst}
use aegis_phase.Prelude.Result.{Result, ok, err}
use aegis_phase.Gateway.ContractErrors.{ChainError, Returned}
use aegis_phase.Gateway.Chain.Decisions.{
  Decision, ChainDecision, Assembled, Sent, Action, verdict_known, entry_signed, sent, accepted_as,
  final_in, Run, caught,
}
use aegis_phase.Gateway.Chain.Submitting.{
  normalized, assert_simulation_ok, sign_and_send, accepted, finality, observed, with_result,
  truthy, has_signer, signed_then, sign_all, by_kind, judged_as, simulated, submit,
}

abbrev pub IsSent : Action → Type 0
IsSent sent = Unit {0}
IsSent (verdict_known d) = ⊥
IsSent (entry_signed a) = ⊥
IsSent (accepted_as h) = ⊥
IsSent (final_in h l) = ⊥

-- Nothing of a list is the sending.
abbrev pub Unsent : List Action → Type 0
Unsent = All (λ a. ¬ IsSent a)

cons-eq : (a b : Action) (xs ys : List Action) → a ∷ xs ≡ b ∷ ys → (a ≡ b) × (xs ≡ ys)
cons-eq a b xs ys e = (cc, cc)

Unsent-split : (pre post xs : List Action) → Unsent xs → xs ≡ pre ++ (sent ∷ post) → ⊥
Unsent-split [] post [] u e = cc
Unsent-split [] post (a ∷ xs) (n, u) e = n (subst IsSent (sym ((cons-eq a sent xs post e).0)) tt)
Unsent-split (p ∷ pre) post [] u e = cc
Unsent-split (p ∷ pre) post (a ∷ xs) (n, u) e = Unsent-split pre post xs u (cons-eq a p xs _ e).1

observed-Unsent :
    (hash : Option Text) (o : Result ChainError (Returned Decision × Option ℕ))
    → Unsent (observed hash o).0
observed-Unsent hash (err e) = tt
observed-Unsent hash (ok (returned, ledger)) =
    with_result-Unsent hash ledger (normalized (ok returned))
  where
    finality-Unsent : (h : Option Text) (l : Option ℕ) → Unsent (finality h l)
    finality-Unsent none l = tt
    finality-Unsent (some h) none = tt
    finality-Unsent (some h) (some l) = (λ z. z, tt)

    with_result-Unsent :
        (h : Option Text) (l : Option ℕ) (r : Result ChainError ChainDecision)
        → Unsent (with_result h l r).0
    with_result-Unsent h l (err e) = tt
    with_result-Unsent h l (ok d) = finality-Unsent h l

accepted-Unsent : (h : Option Text) → Unsent (accepted h)
accepted-Unsent none = tt
accepted-Unsent (some h) = (λ z. z, tt)

-- The sending comes first, and once.
sign_and_send-first :
    (s : Sent) (pre post : List Action) → (sign_and_send s).0 ≡ pre ++ (sent ∷ post) → pre ≡ []
unfolding sign_and_send
sign_and_send-first s [] post e = refl
sign_and_send-first s (p ∷ pre) post e = absurd (
    Unsent-split pre post (accepted (truthy s.hash) ++ (observed (truthy s.hash) s.outcome).0)
      (All-append (λ a. ¬ IsSent a) (accepted (truthy s.hash)) _ (accepted-Unsent (truthy s.hash))
        (observed-Unsent (truthy s.hash) s.outcome))
      (cons-eq sent p _ _ e).1)

-- Nothing stands before the sending.
abbrev First : List Action → Type 0
First actions = (p q : List Action) → actions ≡ p ++ (sent ∷ q) → p ≡ []

module _ (signer : Text) (can_sign : Text → Bool) where
  abbrev pub Signs : List Text → Type 0
  Signs = All (λ address. has_signer signer can_sign address ≡ true)

  -- What stands before a sending: an entry signed for each address.
  abbrev Signed : List Text → List Action → Type 0
  Signed addresses actions =
      (p q : List Action)
      → actions ≡ p ++ (sent ∷ q)
      → (p ≡ map entry_signed addresses) × Signs addresses

  signed_then-Signed :
      (a : Text) (addresses : List Text) (r : Result ChainError (Unit {0})) (rest : Run)
      → has_signer signer can_sign a ≡ true
      → Signed addresses rest.0
      → Signed (a ∷ addresses) (signed_then signer can_sign a r rest).0
  signed_then-Signed a addresses (err x) rest s ih p q h = absurd (Unsent-split p q [] tt h)
  signed_then-Signed a addresses (ok x) rest s ih [] q h =
      absurd (subst IsSent (sym ((cons-eq (entry_signed a) sent _ _ h).0)) tt)
  signed_then-Signed a addresses (ok x) rest s ih (b ∷ p) q h =
      let (x1, x2) = cons-eq (entry_signed a) b _ _ h in
      let (u, v) = ih p q x2 in (ap (λ c. c ∷ p) (sym x1) ∙ ap (λ l. entry_signed a ∷ l) u, (s, v))

  chosen :
      (b : Bool) (a : Text) (addresses : List Text) (run : Run) (e : ChainError)
      → has_signer signer can_sign a ≡ b
      → (has_signer signer can_sign a ≡ true → Signed (a ∷ addresses) run.0)
      → Signed (a ∷ addresses) (if b then run else ([], err e)).0
  chosen true a addresses run e h k = k h
  chosen false a addresses run e h k = λ p q z. absurd (Unsent-split p q [] tt z)

  sign_all-Signed :
      (tx : Assembled) (addresses : List Text) (rest : Run)
      → First rest.0
      → Signed addresses (sign_all signer can_sign tx addresses rest).0
  unfolding sign_all
  sign_all-Signed tx [] rest first = λ p q h. (first p q h, tt)
  sign_all-Signed tx (a ∷ addresses) rest first =
      chosen (has_signer signer can_sign a) a addresses _ _ refl (λ s.
        signed_then-Signed a addresses (tx.sign_auth_entry a)
          (sign_all signer can_sign tx addresses rest) s (sign_all-Signed tx addresses rest first))

  -- What a submission needs before it is sent.
  pub record Prepared (build : Result ChainError Assembled) (before : List Action) : Type 0 where
    pub tx : Assembled
    pub decision : ChainDecision
    pub built : build ≡ ok tx
    pub simulation_passed : tx.simulation_error ≡ none
    pub simulated_decision : normalized tx.result ≡ ok decision
    pub writes : tx.is_read_call ≡ false
    pub signers : Signs tx.outstanding
    pub done : before ≡ verdict_known decision ∷ map entry_signed tx.outstanding

  assert-none : (o : Option Text) → assert_simulation_ok o ≡ ok tt → o ≡ none
  unfolding assert_simulation_ok
  assert-none none h = refl
  assert-none (some e) h = cc

  by_kind-Signed :
      (tx : Assembled) (d : ChainDecision) (read : Bool) (p q : List Action)
      → (by_kind signer can_sign tx d read).0 ≡ p ++ (sent ∷ q)
      → (read ≡ false) × (p ≡ map entry_signed tx.outstanding) × Signs tx.outstanding
  by_kind-Signed tx d true p q h = absurd (Unsent-split p q [] tt h)
  by_kind-Signed tx d false p q h =
      let (u, v) =
        sign_all-Signed tx tx.outstanding (sign_and_send tx.send) (sign_and_send-first tx.send) p q
          h in
      (refl, u, v)

  module _ (build : Result ChainError Assembled) (tx : Assembled) (built : build ≡ ok tx) where
    judged_as-Prepared :
        (r : Result ChainError ChainDecision) (p q : List Action)
        → tx.simulation_error ≡ none
        → normalized tx.result ≡ r
        → (judged_as signer can_sign tx (caught r)).0 ≡ p ++ (sent ∷ q)
        → Prepared build p
    judged_as-Prepared (err e) p q s n h = absurd (Unsent-split p q [] tt h)
    judged_as-Prepared (ok d) [] q s n h =
        absurd (subst IsSent (sym ((cons-eq (verdict_known d) sent _ _ h).0)) tt)
    judged_as-Prepared (ok d) (a ∷ p) q s n h =
        let (x, y) = cons-eq (verdict_known d) a _ _ h in
        let (k, u, v) = by_kind-Signed tx d tx.is_read_call p q y in
        record {
          tx = tx;
          decision = d;
          built = built;
          simulation_passed = s;
          simulated_decision = n;
          writes = k;
          signers = v;
          done = ap (λ c. c ∷ p) (sym x) ∙ ap (λ l. verdict_known d ∷ l) u;
        }

    simulated-Prepared :
        (r : Result ChainError (Unit {0})) (p q : List Action)
        → assert_simulation_ok tx.simulation_error ≡ r
        → (simulated signer can_sign tx r).0 ≡ p ++ (sent ∷ q)
        → Prepared build p
    simulated-Prepared (err e) p q s h = absurd (Unsent-split p q [] tt h)
    simulated-Prepared (ok done) p q s h =
        judged_as-Prepared (normalized tx.result) p q (assert-none tx.simulation_error s) refl h

  -- Before a submission sends anything, its transaction was built, the simulation passed and gave a
  -- decision that was reported, the call is no read, and an entry was signed for each outstanding
  -- address, in order, each the signer's own or one that the agent signer can sign for; nothing else
  -- was done.
  pub submit-Prepared :
      (build : Result ChainError Assembled) (before rest : List Action)
      → (submit signer can_sign build).0 ≡ before ++ (sent ∷ rest)
      → Prepared build before
  unfolding submit
  submit-Prepared (err e) before rest h = absurd (Unsent-split before rest [] tt h)
  submit-Prepared (ok tx) before rest h =
      simulated-Prepared (ok tx) tx refl (assert_simulation_ok tx.simulation_error) before rest refl
        h
