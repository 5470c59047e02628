-- ===== src/Gateway/Mutex/Queue.antt =====
-- The last task of a key, in the queues of apps/gateway/src/mutex.ts.
use aegis_phase.Prelude.{
  ℕ, suc, ◌<◌, ◌≤◌, ◌≡◌, ◌≢◌, ◌⊎◌, inl, inr, refl, sym, ap, ◌∙◌, true, false, Option, none, some,
  Text, ◌==◌, ==_iff, Bool-cases, arith,
}
use mathlib.Core.Path.{subst}
use aegis_phase.Gateway.Mutex.{
  Status, waiting, running, over, is_over, is_waiting, Task, KeyedMutex, is_ready,
}

-- Every task of this key before a number is over.
abbrev pub AllOver : (ℕ → Task) → Text → ℕ → Type 0
AllOver task key n = (q : ℕ) → q < n → (task q).key ≡ key → is_over (task q).status ≡ true

-- The task that a number names is the last of this key before another.
abbrev pub IsLast : (ℕ → Task) → Text → ℕ → Option ℕ → Type 0
IsLast task key n none = AllOver task key n
IsLast task key n (some p) =
    (p < n) × ((task p).key ≡ key) × ((q : ℕ) → p < q → q < n → (task q).key ≢ key)

pub record IsQueue (m : KeyedMutex) : Type 0 where
  -- A task waits for the last one of its key before it.
  pub linked : (n : ℕ) → n < m.count → IsLast m.task (m.task n).key n (m.task n).previous
  -- A task that was called has only tasks that are over before it.
  pub ordered :
      (n : ℕ) → n < m.count → is_waiting (m.task n).status ≡ false → AllOver m.task (m.task n).key n
  pub tailed : (key : Text) → IsLast m.task key m.count (m.tails key)

-- The same tasks, and none that was over is no longer.
pub record Advances (t t' : ℕ → Task) : Type 0 where
  pub keys : (q : ℕ) → (t' q).key ≡ (t q).key
  pub links : (q : ℕ) → (t' q).previous ≡ (t q).previous
  pub overs : (q : ℕ) → is_over (t q).status ≡ true → is_over (t' q).status ≡ true

module _ (t t' : ℕ → Task) (key : Text) (n : ℕ) where
  pub AllOver-advance : Advances t t' → AllOver t key n → AllOver t' key n
  AllOver-advance a h q l e = a.overs q (h q l (sym (a.keys q) ∙ e))

  pub IsLast-advance : Advances t t' → (o : Option ℕ) → IsLast t key n o → IsLast t' key n o
  IsLast-advance a none h = AllOver-advance a h
  IsLast-advance a (some p) (l, k, h) = (l, a.keys p ∙ k, λ q x y e. h q x y (sym (a.keys q) ∙ e))

  -- Tasks that agree below the number.
  pub IsLast-agree :
      ((q : ℕ) → q < n → t' q ≡ t q) → (o : Option ℕ) → IsLast t key n o → IsLast t' key n o
  IsLast-agree a none h = λ q l e. rw (a q l) (h q l (ap (λ (x : Task). x.key) (sym (a q l)) ∙ e))
  IsLast-agree a (some p) (l, k, h) = (
    l,
    ap (λ (x : Task). x.key) (a p l) ∙ k,
    λ q x y e. h q x y (ap (λ (z : Task). z.key) (sym (a q y)) ∙ e),
  )

  -- One more task, of another key.
  pub IsLast-next : (t n).key ≢ key → (o : Option ℕ) → IsLast t key n o → IsLast t key (suc n) o
  IsLast-next d none h = λ q l e. elim (Bool-cases (q == n)) [
    | inl x ↦ absurd (d (ap (λ (i : ℕ). (t i).key) (sym ((==_iff q n).0 x)) ∙ e))
    | inr x ↦ h q (ground arith) e
  ]
  IsLast-next d (some p) (l, k, h) = (
    omega arith,
    k,
    λ q x y e. elim (Bool-cases (q == n)) [
      | inl z ↦ d (ap (λ (i : ℕ). (t i).key) (sym ((==_iff q n).0 z)) ∙ e)
      | inr z ↦ h q x (ground arith) e
    ],
  )

-- The last task of a key is over, so all are.
pub last-AllOver :
    (m : KeyedMutex) (key : Text) (n p : ℕ)
    → IsQueue m
    → n ≤ m.count
    → IsLast m.task key n (some p)
    → is_over (m.task p).status ≡ true
    → AllOver m.task key n
last-AllOver m key n p i l (x, k, h) r = λ q y e. elim (Bool-cases (q == p)) [
  | inl z ↦ subst (λ (j : ℕ). is_over (m.task j).status ≡ true) (sym ((==_iff q p).0 z)) r
  | inr z ↦ elim (lt-cases q p (λ w. absurd (let v : (q == p) ≡ true = (==_iff q p).1 w in cc))) [
    | inl below ↦ i.ordered p (omega arith) (over-called (m.task p).status r) q below (e ∙ sym k)
    | inr above ↦ absurd (h q above y e)
  ]
]
  where
    over-called : (s : Status) → is_over s ≡ true → is_waiting s ≡ false
    over-called waiting e = cc
    over-called running e = cc
    over-called (over f) e = refl

    lt-cases : (q p : ℕ) → (q ≢ p) → (q < p) ⊎ (p < q)
    lt-cases q p d = ground arith

-- What a task waits for is ready, so all before it are over.
pub ready-AllOver :
    (m : KeyedMutex) (n : ℕ) (o : Option ℕ)
    → IsQueue m
    → n < m.count
    → IsLast m.task (m.task n).key n o
    → is_ready m.task o ≡ true
    → AllOver m.task (m.task n).key n
ready-AllOver m n none i l h r = h
ready-AllOver m n (some p) i l h r = last-AllOver m (m.task n).key n p i (omega arith) h r
