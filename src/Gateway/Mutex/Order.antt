-- ===== src/Gateway/Mutex/Order.antt =====
-- What every state of the queues of apps/gateway/src/mutex.ts satisfies.
use aegis_phase.Prelude.{
  ℕ, suc, ◌<◌, ◌≤◌, ◌≡◌, inl, inr, refl, sym, ap, ◌∙◌, Bool, true, false, Option, none, some, Text,
  text_eq, text_eq_iff, if◌then◌else◌, ◌==◌, ==_iff, Bool-cases, arith,
}
use mathlib.Core.Path.{subst}
use aegis_phase.Gateway.Mutex.{
  Status, waiting, running, over, is_over, is_waiting, is_running, Task, KeyedMutex, created,
  with_task, with_tail, with_status, run, Step, runs, starts, settles, drops, Reach, start, later,
}
use aegis_phase.Gateway.Mutex.Queue.{
  AllOver, IsLast, IsQueue, Advances, AllOver-advance, IsLast-advance, IsLast-agree, IsLast-next,
  last-AllOver, ready-AllOver,
}

created-IsQueue : IsQueue created
created-IsQueue = record {
  linked = λ n h. absurd (omega arith);
  ordered = λ n h w. absurd (omega arith);
  tailed = λ key q h e. absurd (omega arith);
}

module _ (m : KeyedMutex) (n : ℕ) (s : Status) (open_task : is_over (m.task n).status ≡ false) where
  status-Advances : Advances m.task (with_task n (record (m.task n) { status = s }) m.task)
  status-Advances = record {
    keys = λ q. elim (Bool-cases (q == n)) [
      | inl e ↦ rw e (ap (λ (i : ℕ). (m.task i).key) (sym ((==_iff q n).0 e)))
      | inr e ↦ rw e refl
    ];
    links = λ q. elim (Bool-cases (q == n)) [
      | inl e ↦ rw e (ap (λ (i : ℕ). (m.task i).previous) (sym ((==_iff q n).0 e)))
      | inr e ↦ rw e refl
    ];
    overs = λ q h. elim (Bool-cases (q == n)) [
      | inl e ↦ absurd (
          let x : is_over (m.task n).status ≡ true =
            subst (λ (i : ℕ). is_over (m.task i).status ≡ true) ((==_iff q n).0 e) h in
          cc)
      | inr e ↦ rw e h
    ];
  }

  with_status-IsQueue : IsQueue m → AllOver m.task (m.task n).key n → IsQueue (with_status n s m)
  with_status-IsQueue i h = record {
    linked = λ q l.
        subst (λ (k : Text). IsLast t' k q (t' q).previous) (sym (a.keys q))
          (subst (λ (o : Option ℕ). IsLast t' (m.task q).key q o) (sym (a.links q))
            (IsLast-advance m.task t' (m.task q).key q a (m.task q).previous (i.linked q l)));
    ordered = λ q l w.
        subst (λ (k : Text). AllOver t' k q) (sym (a.keys q))
          (AllOver-advance m.task t' (m.task q).key q a (before q l w));
    tailed = λ key. IsLast-advance m.task t' key m.count a (m.tails key) (i.tailed key);
  }
    where
      t' : ℕ → Task
      t' = with_task n (record (m.task n) { status = s }) m.task

      a : Advances m.task t'
      a = status-Advances

      before :
          (q : ℕ) → q < m.count → is_waiting (t' q).status ≡ false → AllOver m.task (m.task q).key q
      before q l w = elim (Bool-cases (q == n)) [
        | inl e ↦ subst (λ (j : ℕ). AllOver m.task (m.task j).key j) (sym ((==_iff q n).0 e)) h
        | inr e ↦ i.ordered q l (
            subst
              (λ (b : Bool).
                is_waiting (if b then record (m.task n) { status = s } else m.task q).status
                ≡ false)
              e w)
      ]

module _ (m : KeyedMutex) (key : Text) where
  abbrev run_task : ℕ → Task
  run_task = (run key m).task

  run_task-eq : (q : ℕ) → q < m.count → run_task q ≡ m.task q
  run_task-eq q l = elim (Bool-cases (q == m.count)) [
    | inl e ↦ absurd (let x : q ≡ m.count = (==_iff q m.count).0 e in omega arith)
    | inr e ↦ rw e refl
  ]

  run_task_new : run_task m.count ≡ record { key = key; previous = m.tails key; status = waiting }
  run_task_new = rw ((==_iff m.count m.count).1 refl) refl

  run-IsQueue : IsQueue m → IsQueue (run key m)
  run-IsQueue i = record {
    linked = λ n l. elim (Bool-cases (n == m.count)) [
      | inl e ↦
          subst (λ (j : ℕ). IsLast run_task (run_task j).key j (run_task j).previous)
            (sym ((==_iff n m.count).0 e))
            (subst (λ (x : Task). IsLast run_task x.key m.count x.previous) (sym run_task_new)
              (agree m.count key (m.tails key) (omega arith) (i.tailed key)))
      | inr e ↦
          let below : n < m.count = ground arith in
          subst (λ (x : Task). IsLast run_task x.key n x.previous) (sym (run_task-eq n below))
            (agree n (m.task n).key (m.task n).previous (omega arith) (i.linked n below))
    ];
    ordered = λ n l w. elim (Bool-cases (n == m.count)) [
      | inl e ↦ absurd (
          let x : is_waiting (run_task m.count).status ≡ false =
            subst (λ (j : ℕ). is_waiting (run_task j).status ≡ false) ((==_iff n m.count).0 e) w in
          let y : true ≡ false = subst (λ (z : Task). is_waiting z.status ≡ false) run_task_new x in
          cc)
      | inr e ↦
          let below : n < m.count = ground arith in
          subst (λ (x : Task). AllOver run_task x.key n) (sym (run_task-eq n below))
            (agree n (m.task n).key none (omega arith) (
              i.ordered n below
                (subst (λ (x : Task). is_waiting x.status ≡ false) (run_task-eq n below) w)))
    ];
    tailed = λ k. by_key k (text_eq key k) refl;
  }
    where
      agree :
          (n : ℕ) (k : Text) (o : Option ℕ)
          → n ≤ m.count
          → IsLast m.task k n o
          → IsLast run_task k n o
      agree n k o l h = IsLast-agree m.task run_task k n (λ q x. run_task-eq q (omega arith)) o h

      by_key :
          (k : Text) (b : Bool)
          → text_eq key k ≡ b
          → IsLast run_task k (suc m.count) (if b then some m.count else m.tails k)
      by_key k true e = (
        omega arith,
        ap (λ (x : Task). x.key) run_task_new ∙ (text_eq_iff key k).0 e,
        λ q x y z. absurd (omega arith),
      )
      by_key k false e =
          IsLast-next run_task run_task k m.count
            (λ z. absurd (
              let x : text_eq key k ≡ true =
                (text_eq_iff key k).1 (sym (ap (λ (w : Task). w.key) run_task_new) ∙ z) in
              cc))
            (m.tails k) (agree m.count k (m.tails k) (omega arith) (i.tailed k))

drop-IsQueue :
    (m : KeyedMutex) (n : ℕ)
    → is_over (m.task n).status ≡ true
    → m.tails (m.task n).key ≡ some n
    → IsQueue m
    → IsQueue (record m { tails = with_tail (m.task n).key none m.tails })
drop-IsQueue m n o e i = record {
  linked = i.linked;
  ordered = i.ordered;
  tailed = λ k. by_key k (text_eq (m.task n).key k) refl;
}
  where
    by_key :
        (k : Text) (b : Bool)
        → text_eq (m.task n).key k ≡ b
        → IsLast m.task k m.count (if b then none else m.tails k)
    by_key k true x =
        last-AllOver m k m.count n i (omega arith)
          (subst (λ (p : Option ℕ). IsLast m.task k m.count p)
            (ap m.tails (sym ((text_eq_iff (m.task n).key k).0 x)) ∙ e) (i.tailed k))
          o
    by_key k false x = i.tailed k

Step-IsQueue : {m m' : KeyedMutex} → Step m m' → IsQueue m → IsQueue m'
Step-IsQueue (runs m key) i = run-IsQueue m key i
Step-IsQueue (starts m n l w r) i =
    with_status-IsQueue m n running (waiting-open (m.task n).status w) i
      (ready-AllOver m n (m.task n).previous i l (i.linked n l) r)
  where
    waiting-open : (s : Status) → is_waiting s ≡ true → is_over s ≡ false
    waiting-open waiting e = refl
    waiting-open running e = cc
    waiting-open (over f) e = cc
Step-IsQueue (settles m n f l w) i =
    with_status-IsQueue m n (over f) (running-open (m.task n).status w).0 i
      (i.ordered n l (running-open (m.task n).status w).1)
  where
    running-open : (s : Status) → is_running s ≡ true → (is_over s ≡ false) × (is_waiting s ≡ false)
    running-open waiting e = cc
    running-open running e = (refl, refl)
    running-open (over f) e = cc
Step-IsQueue (drops m n l o e) i = drop-IsQueue m n o e i

pub Reach-IsQueue : {m : KeyedMutex} → Reach m → IsQueue m
Reach-IsQueue start = created-IsQueue
Reach-IsQueue (later r s) = Step-IsQueue s (Reach-IsQueue r)
