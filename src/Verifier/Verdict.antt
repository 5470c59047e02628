-- ===== src/Verifier/Verdict.antt =====
-- What the exit code of the verifier says of its checks.
use aegis_phase.Prelude.{
  ◌≡◌, refl, ◌↔◌, Bool, true, false, ◌||◌, List, [], ◌∷◌, ◌++◌, Text, any, All, arith,
}
use aegis_phase.Verifier.Types.{
  CheckSource, CheckStatus, status_pass, status_fail, status_unavailable, Check, is_fail,
  is_unavailable, exit_code_for, exit_verified, exit_failed, exit_unavailable,
}
use aegis_phase.Verifier.Checks.{judged}

abbrev pub Passed : Check → Type 0
Passed c = c.status ≡ status_pass

Passed_of_tests :
    (id : Text) (source : CheckSource) (status : CheckStatus)
    → is_fail (record { id = id; source = source; status = status }) ≡ false
    → is_unavailable (record { id = id; source = source; status = status }) ≡ false
    → status ≡ status_pass
Passed_of_tests id source status_pass f u = refl
Passed_of_tests id source status_fail f u = cc
Passed_of_tests id source status_unavailable f u = cc

or-false : (a b : Bool) → (a || b) ≡ false → (a ≡ false) × (b ≡ false)
or-false a b h = ground arith

All-Passed :
    (checks : List Check)
    → any is_fail checks ≡ false
    → any is_unavailable checks ≡ false
    → All Passed checks
unfolding any
All-Passed [] f u = tt
All-Passed (c ∷ checks) f u =
    let (f0, f1) = or-false (is_fail c) _ f in
    let (u0, u1) = or-false (is_unavailable c) _ u in
    (Passed_of_tests c.id c.source c.status f0 u0, All-Passed checks f1 u1)

any-Passed :
    (checks : List Check)
    → All Passed checks
    → (any is_fail checks ≡ false) × (any is_unavailable checks ≡ false)
unfolding any
any-Passed [] h = (refl, refl)
any-Passed (c ∷ checks) (p, h) = let (f, u) = any-Passed checks h in (rw p f, rw p u)

-- The exit code is 0 exactly when every check was made and passed, 1 exactly when some check failed,
-- and 3 exactly when no check failed and some check could not be made.
pub exit_code_for_iff :
    (checks : List Check)
    → ((exit_code_for checks ≡ exit_verified) ↔ All Passed checks)
      × ((exit_code_for checks ≡ exit_failed) ↔ (any is_fail checks ≡ true))
      × ((exit_code_for checks ≡ exit_unavailable)
          ↔ ((any is_fail checks ≡ false) × (any is_unavailable checks ≡ true)))
unfolding exit_code_for
exit_code_for_iff checks = (
  (
    λ h. All-Passed checks (ground arith) (ground arith),
    λ h. let (f, u) = any-Passed checks h in rw f (rw u refl),
  ),
  (λ h. ground arith, λ h. ground arith),
  (λ h. ground arith, λ h. ground arith),
)

-- A check that passes on a test passes only if the test holds.
pub judged-Passed :
    (b : Bool) (good bad : Check) → bad.status ≡ status_fail → Passed (judged b good bad) → b ≡ true
judged-Passed true good bad e h = refl
judged-Passed false good bad e h = cc

module _ {A : Type 0} (P : A → Type 0) where
  pub All-split : (xs ys : List A) → All P (xs ++ ys) → All P xs × All P ys
  All-split [] ys h = (tt, h)
  All-split (x ∷ xs) ys (p, h) = let (l, r) = All-split xs ys h in ((p, l), r)
