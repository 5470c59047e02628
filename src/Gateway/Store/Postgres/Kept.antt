-- ===== src/Gateway/Store/Postgres/Kept.antt =====
-- What the tables of apps/gateway/src/db/store.ts keep.
use aegis_phase.Prelude.{
  ℕ, ◌≡◌, Bool, true, false, Option, none, some, List, [], ◌∷◌, ◌++◌, if◌then◌else◌, find,
  Bool-cases, inl, inr,
}
use aegis_phase.Gateway.Store.{IntentRow, DecisionRow, ApprovalRow, FailureRow}
use aegis_phase.Gateway.Store.Postgres.{
  QueueRow, Tables, next_outcome, later_outcomes, guard, has_intent, has_decision_id, insert_once,
  insert_intent, insert_approval, insert_failure, upsert_decision, record_intent, record_decision,
  enqueue_approval, record_failure,
}

head_or :
    {A : Type 0} (b : Bool) (x : A) (r r' : Option A) (a : A)
    → (if b then some x else r) ≡ some a
    → (r ≡ some a → r' ≡ some a)
    → (if b then some x else r') ≡ some a
head_or true x r r' a h k = h
head_or false x r r' a h k = k h

find-append :
    {A : Type 0} (p : A → Bool) (xs ys : List A) (a : A)
    → find p xs ≡ some a
    → find p (xs ++ ys) ≡ some a
unfolding find
find-append p [] ys a h = cc
find-append p (x ∷ xs) ys a h = head_or (p x) x _ _ a h (find-append p xs ys a)

insert_once-find :
    {A : Type 0} (p : A → Bool) (found : Option A) (row : A) (xs : List A) (a : A)
    → find p xs ≡ some a
    → find p (insert_once found row xs).1 ≡ some a
unfolding insert_once
insert_once-find p none row xs a h = find-append p xs (row ∷ []) a h
insert_once-find p (some x) row xs a h = h

pub data Call : Type 0 where
  recorded : IntentRow → Call
  decided : DecisionRow → Call
  enqueued : ℕ → ApprovalRow → Call
  failed : FailureRow → Call

pub called : Tables → Call → Tables
called s (recorded row) = (record_intent row s).1
called s (decided row) = record_decision row s
called s (enqueued now row) = enqueue_approval now row s
called s (failed row) = record_failure row s

pub called_all : Tables → List Call → Tables
unfolding called
called_all s [] = s
called_all s (c ∷ calls) = called_all (called s c) calls

-- A property of the tables, whatever the outcomes to come.
guard-keeps :
    {A : Type 0} (P : Tables → Type 0) (f : Tables → A × Tables) (fallback : A) (s : Tables)
    → ((rest : List Bool) → P (f (record s { outcomes = rest })).1)
    → ((rest : List Bool) → P (record s { outcomes = rest }))
    → P (guard f fallback s).1
guard-keeps P f fallback s h k = elim (Bool-cases (next_outcome s.outcomes)) [
  | inl e ↦ rw e (h (later_outcomes s.outcomes))
  | inr e ↦ rw e (k (later_outcomes s.outcomes))
]

-- The escalation of a decision, and the intent of a hash.
abbrev pub Holds : QueueRow → IntentRow → Tables → Type 0
Holds q i s =
    (find (has_decision_id q.row.decision_id) s.approval_queue ≡ some q)
    × (find (has_intent i.intent_hash) s.intents ≡ some i)

called-Holds :
    (q : QueueRow) (i : IntentRow) (s : Tables) (c : Call) → Holds q i s → Holds q i (called s c)
unfolding called record_intent record_decision enqueue_approval record_failure
called-Holds q i s (recorded row) (a, b) =
    guard-keeps (Holds q i) (insert_intent row) true s
      (λ rest. (a, insert_once-find (has_intent i.intent_hash) _ row s.intents i b))
      (λ rest. (a, b))
called-Holds q i s (decided row) (a, b) =
    guard-keeps (Holds q i) (upsert_decision row) tt s (λ rest. (a, b)) (λ rest. (a, b))
called-Holds q i s (enqueued now row) (a, b) =
    guard-keeps (Holds q i) (insert_approval record { row = row; escalated_at = now }) tt s
      (λ rest. (insert_once-find (has_decision_id q.row.decision_id) _ _ s.approval_queue q a, b))
      (λ rest. (a, b))
called-Holds q i s (failed row) (a, b) =
    guard-keeps (Holds q i) (insert_failure row) tt s (λ rest. (a, b)) (λ rest. (a, b))

-- The escalation that the tables hold for a decision, with its rule and its threshold, and the intent
-- that they hold for a hash stay the same after any sequence of calls, whether the statements succeed
-- or fail: the snapshot of an escalation is written once.
pub called_all-Holds :
    (q : QueueRow) (i : IntentRow) (s : Tables) (calls : List Call)
    → Holds q i s
    → Holds q i (called_all s calls)
unfolding called_all
called_all-Holds q i s [] h = h
called_all-Holds q i s (c ∷ calls) h =
    called_all-Holds q i (called s c) calls (called-Holds q i s c h)
