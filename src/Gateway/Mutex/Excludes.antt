-- ===== src/Gateway/Mutex/Excludes.antt =====
-- What the mutex of apps/gateway/src/mutex.ts is for.
use aegis_phase.Prelude.{
  ℕ, ◌<◌, ◌≡◌, ◌⊎◌, inl, inr, Bool-cases, refl, false, true, none, Option, Text,
}
use mathlib.Core.Path.{subst}
use aegis_phase.Gateway.Mutex.{
  Status, waiting, running, over, KeyedMutex, is_over, is_waiting, is_running, Reach,
}
use aegis_phase.Gateway.Mutex.Queue.{AllOver, IsLast}
use aegis_phase.Gateway.Mutex.Order.{Reach-IsQueue}

-- The two tasks take turns, the second after the first.
abbrev pub TakeTurns : KeyedMutex → ℕ → ℕ → Type 0
TakeTurns m q n =
    ¬ ((is_running (m.task q).status ≡ true) × (is_running (m.task n).status ≡ true))
    × ((is_waiting (m.task n).status ≡ true) ⊎ (is_over (m.task q).status ≡ true))

running-called : (s : Status) → is_running s ≡ true → (is_waiting s ≡ false) × (is_over s ≡ false)
running-called waiting e = cc
running-called running e = (refl, refl)
running-called (over f) e = cc

-- In every state that calls of `run` can lead to, two tasks of one key never run at once, and the later
-- one is not called before the earlier one is over, fulfilled or rejected.
pub Reach-TakeTurns :
    {m : KeyedMutex}
    → Reach m
    → (q n : ℕ) → q < n
    → n < m.count
    → (m.task q).key ≡ (m.task n).key
    → TakeTurns m q n
Reach-TakeTurns {m} r q n x l e = (
  λ (a, b).
      let (w, o) = running-called (m.task n).status b in
      let (w', o') = running-called (m.task q).status a in let z = before w in cc,
  elim (Bool-cases (is_waiting (m.task n).status)) [ inl w ↦ inl w | inr w ↦ inr (before w) ],
)
  where
    before : is_waiting (m.task n).status ≡ false → is_over (m.task q).status ≡ true
    before w = (Reach-IsQueue r).ordered n l w q x e

-- A key without an entry has only tasks that are over.
pub Reach-AllOver :
    {m : KeyedMutex} → Reach m → (key : Text) → m.tails key ≡ none → AllOver m.task key m.count
Reach-AllOver {m} r key h =
    subst (λ (o : Option ℕ). IsLast m.task key m.count o) h ((Reach-IsQueue r).tailed key)
