-- ===== src/Executor/Exec.antt =====
-- Actions of the executor: a state, and a result or what was thrown. What was done before a throw
-- stays done, so the state comes back beside the error too.
use aegis_phase.Prelude.{◌≡◌, refl, Bool, true, false, Option, none, some, if◌then◌else◌}
use aegis_phase.Prelude.Result.{Result, ok, err}
use aegis_phase.Executor.Errors.{Thrown, SettlementErrorCode, settlement}

abbrev pub Exec : Type 0 → Type 0 → Type 0
Exec S A = S → Result Thrown A × S

module _ {S A : Type 0} where
  unfoldable pub gets : (S → A) → Exec S A
  gets view now = (ok (view now), now)

  unfoldable pub lift : Result Thrown A → Exec S A
  lift outcome now = (outcome, now)

  unfoldable pub raise : Thrown → Exec S A
  raise thrown now = (err thrown, now)

  unfoldable pub pure : A → Exec S A
  pure value now = (ok value, now)

unfoldable pub modify : {S : Type 0} → (S → S) → Exec S (Unit {0})
modify f s = (ok tt, f s)

module _ {S A B : Type 0} where
  abbrev pub continue : Result Thrown A → (A → Exec S B) → Exec S B
  continue (err thrown) next now = (err thrown, now)
  continue (ok value) next now = next value now

  infixl 5 ◌>>=◌
  unfoldable pub ◌>>=◌ : Exec S A → (A → Exec S B) → Exec S B
  ◌>>=◌ first next start = let (outcome, after) = first start in continue outcome next after

  infixl 5 ◌>>◌
  abbrev pub ◌>>◌ : Exec S A → Exec S B → Exec S B
  first >> second = first >>= λ _. second

-- `throw new SettlementError(code, …)`.
abbrev pub fail : {S A : Type 0} → SettlementErrorCode → Exec S A
fail code = raise (settlement code)

-- `if (test) throw new SettlementError(code, …)`.
abbrev pub refuse_if : {S : Type 0} → Bool → SettlementErrorCode → Exec S (Unit {0})
refuse_if true code = fail code
refuse_if false code = pure tt

-- A value that is `undefined` or "not-found" is refused.
abbrev pub require : {S A : Type 0} → Option A → SettlementErrorCode → Exec S A
require none code = fail code
require (some a) code = pure a

-- What holds after an action: `Q` of the value and the state if it returns, `E` of the state if it
-- throws.
abbrev pub Post : {S A : Type 0} → (A → S → Type 0) → (S → Type 0) → Result Thrown A × S → Type 0
Post Q E (ok a, s) = Q a s
Post Q E (err e, s) = E s

-- From `P`, the action ends in `Q`, or throws and ends in `E`.
pub record Triple {S A : Type 0} (P : S → Type 0) (m : Exec S A) (Q : A → S → Type 0)
    (E : S → Type 0) : Type 0 where
  pub at : (s : S) → P s → Post Q E (m s)

module _ {S A : Type 0} {P : S → Type 0} {E : S → Type 0} where
  pub Triple-pure : (a : A) {Q : A → S → Type 0} → ((s : S) → P s → Q a s) → Triple P (pure a) Q E
  unfolding pure
  Triple-pure a h = record { at = h }

  pub Triple-raise :
      (e : Thrown) {Q : A → S → Type 0} → ((s : S) → P s → E s) → Triple P (raise e) Q E
  unfolding raise
  Triple-raise e h = record { at = h }

module _ {S A B : Type 0} {E : S → Type 0} where
  Post-continue :
      (Q : A → S → Type 0) (R : B → S → Type 0) (f : A → Exec S B) (r : Result Thrown A) (s : S)
      → Post Q E (r, s)
      → ((a : A) → Triple (Q a) (f a) R E)
      → Post R E (continue r f s)
  Post-continue Q R f (ok a) s h k = (k a).at s h
  Post-continue Q R f (err e) s h k = h

  pub Triple-bind :
      {P : S → Type 0} (Q : A → S → Type 0) {R : B → S → Type 0} {m : Exec S A} {f : A → Exec S B}
      → Triple P m Q E
      → ((a : A) → Triple (Q a) (f a) R E)
      → Triple P (m >>= f) R E
  unfolding ◌>>=◌
  Triple-bind Q {R} {m} {f} h k = record {
    at = λ s p. let (r, s') = m s in Post-continue Q R f r s' (h.at s p) k;
  }

module _ {S A : Type 0} where
  Post-weaken :
      (E : S → Type 0) {Q Q' : A → S → Type 0}
      → ((a : A) (s : S) → Q a s → Q' a s)
      → (r : Result Thrown A × S) → Post Q E r
      → Post Q' E r
  Post-weaken E f (ok a, s) q = f a s q
  Post-weaken E f (err e, s) q = q

module _ {S A : Type 0} {E : S → Type 0} where
  -- The precondition is used at the state where the action starts.
  pub Triple-assume :
      {P P' : S → Type 0} {Q : A → S → Type 0} {m : Exec S A}
      → ((s : S) → P s → P' s)
      → Triple P' m Q E
      → Triple P m Q E
  Triple-assume f h = record { at = λ s p. h.at s (f s p) }

  pub Triple-weaken :
      {P : S → Type 0} {Q Q' : A → S → Type 0} {m : Exec S A}
      → ((a : A) (s : S) → Q a s → Q' a s)
      → Triple P m Q E
      → Triple P m Q' E
  Triple-weaken {m} f h = record { at = λ s p. Post-weaken E f (m s) (h.at s p) }

  pub Triple-lift :
      {P : S → Type 0} (r : Result Thrown A)
      → ((s : S) → P s → E s)
      → Triple P (lift r) (λ a s. P s × (r ≡ ok a)) E
  unfolding lift
  Triple-lift (ok a) k = record { at = λ s p. (p, refl) }
  Triple-lift (err e) k = record { at = k }

  pub Triple-gets : {P : S → Type 0} (f : S → A) → Triple P (gets f) (λ a s. P s × (f s ≡ a)) E
  unfolding gets
  Triple-gets f = record { at = λ s p. (p, refl) }

  pub Triple-require :
      {P : S → Type 0} (o : Option A) (code : SettlementErrorCode)
      → ((s : S) → P s → E s)
      → Triple P (require o code) (λ a s. P s × (o ≡ some a)) E
  unfolding pure raise
  Triple-require none code k = record { at = k }
  Triple-require (some a) code k = record { at = λ s p. (p, refl) }

  pub Triple-if :
      {P : S → Type 0} {Q : A → S → Type 0} (b : Bool) (m n : Exec S A)
      → (b ≡ true → Triple P m Q E)
      → (b ≡ false → Triple P n Q E)
      → Triple P (if b then m else n) Q E
  Triple-if true m n h k = h refl
  Triple-if false m n h k = k refl

  -- A fact that does not depend on the state leaves the precondition.
  pub Triple-fact :
      {P : S → Type 0} {F : Type 0} {Q : A → S → Type 0} {m : Exec S A}
      → (F → Triple P m Q E)
      → Triple (λ s. P s × F) m Q E
  Triple-fact h = record { at = λ s p. (h p.1).at s p.0 }

module _ {S : Type 0} {E : S → Type 0} where
  pub Triple-refuse :
      {P : S → Type 0} (b : Bool) (code : SettlementErrorCode)
      → ((s : S) → P s → E s)
      → Triple P (refuse_if b code) (λ _ s. P s × (b ≡ false)) E
  unfolding pure raise
  Triple-refuse true code k = record { at = k }
  Triple-refuse false code k = record { at = λ s p. (p, refl) }

  pub Triple-modify :
      {P : S → Type 0} (f : S → S) {Q : Unit {0} → S → Type 0}
      → ((s : S) → P s → Q tt (f s))
      → Triple P (modify f) Q E
  unfolding modify
  Triple-modify f h = record { at = h }

-- What a step that returned was made of.
module _ {S A B : Type 0} where
  continue-ok :
      (r : Result Thrown A) (f : A → Exec S B) (s : S) {b : B}
      → (continue r f s).0 ≡ ok b
      → (a : A) × (r ≡ ok a) × ((f a s).0 ≡ ok b)
  continue-ok (ok a) f s h = (a, refl, h)
  continue-ok (err e) f s h = cc

  pub >>=-ok :
      (m : Exec S A) (f : A → Exec S B) (s : S) {b : B}
      → ((m >>= f) s).0 ≡ ok b
      → (a : A) × ((m s).0 ≡ ok a) × ((f a (m s).1).0 ≡ ok b)
  unfolding ◌>>=◌
  >>=-ok m f s h = continue-ok (m s).0 f (m s).1 h

module _ {S : Type 0} where
  pub refuse_if-ok :
      (b : Bool) (code : SettlementErrorCode) (s : S) {u : Unit {0}}
      → (refuse_if b code s).0 ≡ ok u
      → b ≡ false
  unfolding raise
  refuse_if-ok true code s h = cc
  refuse_if-ok false code s h = refl

  pub require-ok :
      {A : Type 0} (o : Option A) (code : SettlementErrorCode) (s : S) {a : A}
      → (require o code s).0 ≡ ok a
      → o ≡ some a
  unfolding raise pure
  require-ok none code s h = cc
  require-ok (some x) code s h = cc
