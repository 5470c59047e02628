-- ===== src/Gateway/Mutex/Serves.antt =====
-- The mutex of apps/gateway/src/mutex.ts leaves no task behind.
use aegis_phase.Prelude.{
  ◌⊎◌, ◌≤◌, ℕ, zero, suc, ◌+◌, ◌<◌, ◌≡◌, refl, ap, true, false, Option, none, some, ◌==◌, ==_iff,
  Bool-cases, inl, inr, arith,
}
use aegis_phase.Gateway.Mutex.{
  Status, waiting, running, over, is_over, is_waiting, is_running, Task, KeyedMutex, with_task,
  Step, runs, starts, settles, drops, Reach, later,
}
use aegis_phase.Gateway.Mutex.Queue.{IsLast, IsQueue}
use aegis_phase.Gateway.Mutex.Order.{Reach-IsQueue}

-- A call and an end for a task that waits, an end for one that runs.
abbrev pub weight : Status → ℕ
weight waiting = 2
weight running = 1
weight (over f) = 0

unfoldable pub total : ℕ → (ℕ → Task) → ℕ
total zero task = 0
total (suc n) task = total n task + weight (task n).status

-- The calls and the ends to come.
abbrev pub remaining : KeyedMutex → ℕ
remaining m = total m.count m.task

total-above :
    (n i : ℕ) (t : Task) (task : ℕ → Task) → n ≤ i → total n (with_task i t task) ≡ total n task
unfolding total
total-above zero i t task h = refl
total-above (suc n) i t task h =
    let e : (n == i) ≡ false = ground arith in
    rw e (ap (λ (x : ℕ). x + weight (task n).status) (total-above n i t task (omega arith)))

total-with_task :
    (n i : ℕ) (t : Task) (task : ℕ → Task)
    → i < n
    → total n (with_task i t task) + weight (task i).status ≡ total n task + weight t.status
unfolding total
total-with_task zero i t task h = absurd (omega arith)
total-with_task (suc n) i t task h = elim (Bool-cases (n == i)) [
  | inl e ↦
      let x : n ≡ i = (==_iff n i).0 e in
      let y : weight (task n).status ≡ weight (task i).status =
        ap (λ (j : ℕ). weight (task j).status) x in
      rw e (omega (arith, total-above n i t task (omega arith)))
  | inr e ↦ rw e (omega (arith, total-with_task n i t task (ground arith)))
]

-- A step that calls a task or ends it.
abbrev pub Works : {m m' : KeyedMutex} → Step m m' → Type 0
Works (runs m key) = ⊥
Works (starts m n l w r) = Unit {0}
Works (settles m n f l r) = Unit {0}
Works (drops m n l o e) = ⊥

abbrev pub Drops : {m m' : KeyedMutex} → Step m m' → Type 0
Drops (runs m key) = ⊥
Drops (starts m n l w r) = ⊥
Drops (settles m n f l r) = ⊥
Drops (drops m n l o e) = Unit {0}

-- Steps without a new call of `run`, so many of which call a task or end it.
pub data Served (m : KeyedMutex) : ℕ → KeyedMutex → Type 0 where
  idle : Served m 0 m
  works :
      {k : ℕ} {m' m'' : KeyedMutex}
      → Served m k m'
      → (s : Step m' m'') → Works s
      → Served m (suc k) m''
  cleans :
      {k : ℕ} {m' m'' : KeyedMutex} → Served m k m' → (s : Step m' m'') → Drops s → Served m k m''

abbrev pub AllDone : KeyedMutex → Type 0
AllDone m = (n : ℕ) → n < m.count → is_over (m.task n).status ≡ true

abbrev pub CanWork : KeyedMutex → Type 0
CanWork m = (m' : KeyedMutex) × (s : Step m m') × Works s

Works-remaining : {m m' : KeyedMutex} (s : Step m m') → Works s → suc (remaining m') ≡ remaining m
Works-remaining (runs m key) w = absurd w
Works-remaining (starts m n l e r) w = omega (
  arith,
  total-with_task m.count n (record (m.task n) { status = running }) m.task l,
  waits (m.task n).status e,
)
  where
    waits : (s : Status) → is_waiting s ≡ true → weight s ≡ 2
    waits waiting e = refl
    waits running e = cc
    waits (over f) e = cc
Works-remaining (settles m n f l e) w = omega (
  arith,
  total-with_task m.count n (record (m.task n) { status = over f }) m.task l,
  runs_now (m.task n).status e,
)
  where
    runs_now : (s : Status) → is_running s ≡ true → weight s ≡ 1
    runs_now waiting e = cc
    runs_now running e = refl
    runs_now (over f) e = cc
Works-remaining (drops m n l o e) w = absurd w

Drops-remaining : {m m' : KeyedMutex} (s : Step m m') → Drops s → remaining m' ≡ remaining m
Drops-remaining (runs m key) w = absurd w
Drops-remaining (starts m n l e r) w = absurd w
Drops-remaining (settles m n f l e) w = absurd w
Drops-remaining (drops m n l o e) w = refl

Served-remaining : {m m' : KeyedMutex} {k : ℕ} → Served m k m' → k + remaining m' ≡ remaining m
Served-remaining idle = omega arith
Served-remaining (works p s w) = omega (arith, Served-remaining p, Works-remaining s w)
Served-remaining (cleans p s w) = omega (arith, Served-remaining p, Drops-remaining s w)

Served-Reach : {m m' : KeyedMutex} {k : ℕ} → Reach m → Served m k m' → Reach m'
Served-Reach r idle = r
Served-Reach r (works p s w) = later (Served-Reach r p) s
Served-Reach r (cleans p s w) = later (Served-Reach r p) s

-- Where a task is not over, it or one before it can be called or can end.
module _ (m : KeyedMutex) (i : IsQueue m) where
  -- What is known of the tasks before a task.
  abbrev Earlier : ℕ → Type 0
  Earlier n = (p : ℕ) → p < n → p < m.count → is_over (m.task p).status ≡ false → CanWork m

  by_previous :
      (n : ℕ) (o : Option ℕ)
      → n < m.count
      → (m.task n).previous ≡ o
      → IsLast m.task (m.task n).key n o
      → is_waiting (m.task n).status ≡ true
      → Earlier n
      → CanWork m
  by_previous n none l e h w earlier = (_, starts m n l w (rw e refl), tt)
  by_previous n (some p) l e (x, k, h) w earlier = elim (Bool-cases (is_over (m.task p).status)) [
    | inl z ↦ (_, starts m n l w (rw e z), tt)
    | inr z ↦ earlier p x (omega arith) z
  ]

  by_status :
      (n : ℕ) (s : Status)
      → n < m.count
      → (m.task n).status ≡ s
      → is_over s ≡ false
      → Earlier n
      → CanWork m
  by_status n waiting l e o earlier =
      by_previous n (m.task n).previous l refl (i.linked n l) (rw e refl) earlier
  by_status n running l e o earlier = (_, settles m n true l (rw e refl), tt)
  by_status n (over f) l e o earlier = absurd (cc)

  can_work : (bound n : ℕ) → n < bound → n < m.count → is_over (m.task n).status ≡ false → CanWork m
  can_work zero n b l o = absurd (omega arith)
  can_work (suc bound) n b l o =
      by_status n (m.task n).status l refl o λ p x y z. can_work bound p (omega arith) y z

-- The first tasks are over, or one of them is not.
first_open :
    (m : KeyedMutex) (b : ℕ)
    → ((n : ℕ) → n < b → is_over (m.task n).status ≡ true)
      ⊎ ((n : ℕ) × (n < b) × (is_over (m.task n).status ≡ false))
first_open m zero = inl λ n l. absurd (omega arith)
first_open m (suc b) = elim (first_open m b) [
  | inr (n, l, e) ↦ inr (n, omega arith, e)
  | inl below ↦ elim (Bool-cases (is_over (m.task b).status)) [
    | inr e ↦ inr (b, omega arith, e)
    | inl e ↦ inl λ n l. elim (lt_or_last n b l) [ inl x ↦ below n x | inr x ↦ rw x e ]
  ]
]
  where
    lt_or_last : (n b : ℕ) → n < suc b → (n < b) ⊎ (n ≡ b)
    lt_or_last n b l = ground arith

-- From every state that calls of `run` can lead to, serving the queues without a new call takes exactly
-- the calls and ends that remain, each of which lowers their number by one, and as long as not every
-- task is over, a call or an end is possible, whatever the earlier tasks threw.
pub Served-AllDone :
    {m m' : KeyedMutex} {k : ℕ}
    → Reach m
    → Served m k m'
    → (k + remaining m' ≡ remaining m) × (CanWork m' ⊎ AllDone m')
Served-AllDone {m} {m'} {k} r p = (
  Served-remaining p,
  elim (first_open m' m'.count) [
    | inl done ↦ inr done
    | inr (n, l, e) ↦
        inl (can_work m' (Reach-IsQueue (Served-Reach r p)) (suc n) n (omega arith) l e)
  ],
)
