-- ===== src/Gateway/Mutex.antt =====
-- apps/gateway/src/mutex.ts: the queue of each key. A call of `run` is a task by its number; a task
-- waits for the tail that its key had, whatever became of it. A map is a function.
pub mod Queue
pub mod Order
pub mod Excludes
pub mod Serves
mod Tests
use aegis_phase.Prelude.{
  [], ℕ, zero, suc, ◌+◌, ◌<◌, ◌≡◌, Bool, true, false, Option, none, some, Text, text_eq,
  if◌then◌else◌, ◌==◌,
}

-- A task that is over was fulfilled or rejected.
pub data Status : Type 0 where
  waiting running : Status
  over : Bool → Status

abbrev pub is_over : Status → Bool
is_over waiting = false
is_over running = false
is_over (over fulfilled) = true

abbrev pub is_waiting : Status → Bool
is_waiting waiting = true
is_waiting running = false
is_waiting (over fulfilled) = false

abbrev pub is_running : Status → Bool
is_running waiting = false
is_running running = true
is_running (over fulfilled) = false

pub record Task : Type 0 where
  pub key : Text
  pub previous : Option ℕ
  pub status : Status

pub record KeyedMutex : Type 0 where
  pub count : ℕ
  pub task : ℕ → Task
  pub tails : Text → Option ℕ

abbrev pub created : KeyedMutex
created = record {
  count = 0;
  task = λ n. record { key = []; previous = none; status = waiting };
  tails = λ key. none;
}

abbrev pub with_task : ℕ → Task → (ℕ → Task) → ℕ → Task
with_task n t task q = if q == n then t else task q

abbrev pub with_tail : Text → Option ℕ → (Text → Option ℕ) → Text → Option ℕ
with_tail key tail tails k = if text_eq key k then tail else tails k

abbrev pub with_status : ℕ → Status → KeyedMutex → KeyedMutex
with_status n s m = record m { task = with_task n (record (m.task n) { status = s }) m.task }

-- `previous.then(fn, fn)` calls `fn` once the previous tail is over.
abbrev pub is_ready : (ℕ → Task) → Option ℕ → Bool
is_ready task none = true
is_ready task (some p) = is_over (task p).status

-- `run(key, fn)`, up to the first suspension.
abbrev pub run : Text → KeyedMutex → KeyedMutex
run key m = record {
  count = suc m.count;
  task = with_task m.count (record { key = key; previous = m.tails key; status = waiting }) m.task;
  tails = with_tail key (some m.count) m.tails;
}

-- A task is called and is over; its entry is dropped while it is still the last of its key.
pub data Step : KeyedMutex → KeyedMutex → Type 0 where
  runs : (m : KeyedMutex) (key : Text) → Step m (run key m)
  starts :
      (m : KeyedMutex) (n : ℕ)
      → n < m.count
      → is_waiting (m.task n).status ≡ true
      → is_ready m.task (m.task n).previous ≡ true
      → Step m (with_status n running m)
  settles :
      (m : KeyedMutex) (n : ℕ) (fulfilled : Bool)
      → n < m.count
      → is_running (m.task n).status ≡ true
      → Step m (with_status n (over fulfilled) m)
  drops :
      (m : KeyedMutex) (n : ℕ)
      → n < m.count
      → is_over (m.task n).status ≡ true
      → m.tails (m.task n).key ≡ some n
      → Step m (record m { tails = with_tail (m.task n).key none m.tails })

pub data Reach : KeyedMutex → Type 0 where
  start : Reach created
  later : {m m' : KeyedMutex} → Reach m → Step m m' → Reach m'
