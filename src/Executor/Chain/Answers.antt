-- ===== src/Executor/Chain/Answers.antt =====
-- What the executor takes for an answer of the contract (apps/executor/src/chain.ts).
use aegis_phase.Prelude.{
  ◌≡◌, ◌↔◌, ◌⊎◌, inl, inr, sym, ◌∙◌, refl, Bool, true, false, ◌||◌, Option, none, some, Text, codes,
  text_eq, text_eq_iff, if◌then◌else◌,
}
use aegis_phase.Prelude.Result.{Result, ok, err, ok-injective, err-injective}
use mathlib.Core.Path.{subst}
use aegis_phase.Gateway.Chain.Decisions.{Decision}
use aegis_phase.Executor.Errors.{Thrown, other, settlement, mark_settled_failed, source_unavailable}
use aegis_phase.Executor.World.{OnChainDecision}
use aegis_phase.Executor.Chain.{
  reads_as_not_found, View, normalize, not_found_or, decision_in, get_decision, TransactionResponse,
  Assembled, MarkSettledResult, failed_to_mark, confirmed, marked, mark_settled,
}

-- An error text of the call that names the missing decision.
abbrev pub SaysNotFound : Result Text (View Decision) → Type 0
SaysNotFound (err message) = reads_as_not_found message ≡ true
SaysNotFound (ok view) =
    (message : Text) × (view.result ≡ err message)
    × ((reads_as_not_found view.raw_error || reads_as_not_found message) ≡ true)

-- What an answer to a read of the decision rests on.
abbrev pub Answers : Result Text (View Decision) → Result Thrown (Option OnChainDecision) → Type 0
Answers call (err thrown) = (thrown ≡ settlement source_unavailable) × ¬ SaysNotFound call
Answers call (ok none) = SaysNotFound call
Answers call (ok (some d)) =
    (view : View Decision) × (value : Decision) × (call ≡ ok view)
    × (view.result ≡ ok value)
    × (d ≡ normalize value)

-- A simulation without an error.
abbrev pub IsClean : Result Text Assembled → Type 0
IsClean call = (tx : Assembled) × (call ≡ ok tx) × (tx.result ≡ ok (ok tt))

-- The simulation failed so that reading its result throws.
abbrev pub IsUnreadable : Result Text Assembled → Type 0
IsUnreadable call = (tx : Assembled) × (message : Text) × (call ≡ ok tx) × (tx.result ≡ err message)

-- What the end of a call of `mark_settled` rests on.
abbrev pub Ends : Result Text Assembled → Result Thrown MarkSettledResult → Type 0
Ends call (err thrown) =
    ((thrown ≡ settlement mark_settled_failed) × ¬ IsUnreadable call)
    ⊎ ((thrown ≡ other) × IsUnreadable call)
Ends call (ok r) =
    (tx : Assembled) × (response : TransactionResponse) × (call ≡ ok tx)
    × (tx.sign_and_send ≡ ok (some response))
    × (response.status ≡ codes "SUCCESS")
    × (r.ledger ≡ response.ledger)

module _ (call : Result Text (View Decision)) where
  missing-Answers :
      (b : Bool)
      → (b ≡ true → SaysNotFound call)
      → (SaysNotFound call → b ≡ true)
      → Answers call (not_found_or b)
  missing-Answers true h k = h refl
  missing-Answers false h k = (refl, λ s. let e = k s in cc)

by_result :
    (view : View Decision) (r : Result Text Decision)
    → view.result ≡ r
    → Answers (ok view) (decision_in view.raw_error r)
by_result view (ok d) e = (view, d, refl, e, refl)
by_result view (err message) e =
    missing-Answers (ok view) (reads_as_not_found view.raw_error || reads_as_not_found message)
      (λ h. (message, e, h))
      λ (m', f, h).
        subst (λ m. (reads_as_not_found view.raw_error || reads_as_not_found m) ≡ true)
          (err-injective (sym f ∙ e)) h

pub get_decision-Answers : (call : Result Text (View Decision)) → Answers call (get_decision call)
unfolding get_decision
get_decision-Answers (err message) =
    missing-Answers (err message) (reads_as_not_found message) (λ h. h) λ h. h
get_decision-Answers (ok view) = by_result view view.result refl

readable : (tx : Assembled) {r : Result Text (Unit {0})} → tx.result ≡ ok r → ¬ IsUnreadable (ok tx)
readable tx e = λ (t, m, f, h). let g = ok-injective f in cc

status-Ends :
    (tx : Assembled) (response : TransactionResponse) (b : Bool)
    → ¬ IsUnreadable (ok tx)
    → tx.sign_and_send ≡ ok (some response)
    → text_eq response.status (codes "SUCCESS") ≡ b
    → Ends (ok tx) (
        if b
        then ok record { ledger = response.ledger; tx_hash = response.tx_hash }
        else failed_to_mark)
status-Ends tx response true n e s =
    (tx, response, refl, e, (text_eq_iff response.status (codes "SUCCESS")).0 s, refl)
status-Ends tx response false n e s = inl (refl, n)

sent-Ends :
    (tx : Assembled) (r : Result Text (Option TransactionResponse))
    → ¬ IsUnreadable (ok tx)
    → tx.sign_and_send ≡ r
    → Ends (ok tx) (confirmed r)
sent-Ends tx (err message) n e = inl (refl, n)
sent-Ends tx (ok none) n e = inl (refl, n)
sent-Ends tx (ok (some response)) n e = status-Ends tx response _ n e refl

-- It was sent exactly after a clean simulation.
abbrev pub Marks : Result Text Assembled → Bool × Result Thrown MarkSettledResult → Type 0
Marks call (sent, r) = ((sent ≡ true) ↔ IsClean call) × Ends call r

marked-Marks :
    (tx : Assembled) (r : Result Text (Result Text (Unit {0})))
    → tx.result ≡ r
    → Marks (ok tx) (marked tx r)
marked-Marks tx (err message) e = (
  (λ h. absurd (cc), λ (t, f, h). absurd (let g = ok-injective f in cc)),
  inr (refl, (tx, message, refl, e)),
)
marked-Marks tx (ok (err message)) e = (
  (λ h. absurd (cc), λ (t, f, h). absurd (let g = ok-injective f in cc)),
  inl (refl, readable tx e),
)
marked-Marks tx (ok (ok u)) e =
    ((λ _. (tx, refl, e), λ _. refl), sent-Ends tx tx.sign_and_send (readable tx e) refl)

mark_settled-Marks : (call : Result Text Assembled) → Marks call (mark_settled call)
unfolding mark_settled
mark_settled-Marks (err message) =
    ((λ h. absurd (cc), λ (tx, e, h). absurd (cc)), inl (refl, λ (tx, m, e, h). absurd (cc)))
mark_settled-Marks (ok tx) = marked-Marks tx tx.result refl

-- A read of the decision says "not-found" exactly when an error of the call names the missing decision,
-- by its discriminant or, without one, by its name; it returns the contract's value, or throws
-- SOURCE_UNAVAILABLE. `mark_settled` is sent exactly after a clean simulation; it returns only the
-- ledger of a transaction that Soroban reports as applied. Otherwise it throws MARK_SETTLED_FAILED, or
-- the error of the SDK where the result of the simulation cannot be read, and only there.
pub mark_settled-IsConfirmed :
    (read : Result Text (View Decision)) (call : Result Text Assembled)
    → Answers read (get_decision read) × Marks call (mark_settled call)
mark_settled-IsConfirmed read call = (get_decision-Answers read, mark_settled-Marks call)
