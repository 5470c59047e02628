-- ===== src/Gateway/Store/Postgres.antt =====
-- `PostgresStore` of apps/gateway/src/db/store.ts. A table is a list of rows; a statement takes
-- effect as a whole or fails, as the list of outcomes to come says. Hashes are kept by their
-- hexadecimal texts, which the code turns into bytes and back.
pub mod Kept
use aegis_phase.Prelude.{
  ℕ, Bool, true, false, not, Option, none, some, List, [], ◌∷◌, ◌++◌, map, Text, text_eq,
  if◌then◌else◌, take, find,
}
use aegis_phase.Gateway.Store.{
  IntentRow, DecisionRow, ApprovalRow, FailureRow, ApprovalCandidate, IntentStore,
}
use aegis_phase.Gateway.Store.Degraded.{candidate, newest_first}

-- An escalation with the time that its row defaults to.
pub record QueueRow : Type 0 where
  pub row : ApprovalRow
  pub escalated_at : ℕ

pub record Tables : Type 0 where
  pub intents : List IntentRow
  pub decisions : List DecisionRow
  pub approval_queue : List QueueRow
  pub submission_failures : List FailureRow
  pub outcomes : List Bool

-- Does the next statement succeed? With no outcome left it does.
abbrev pub next_outcome : List Bool → Bool
next_outcome [] = true
next_outcome (b ∷ rest) = b

abbrev pub later_outcomes : List Bool → List Bool
later_outcomes [] = []
later_outcomes (b ∷ rest) = rest

-- `guard`: on a failure the fallback, and the tables as they were.
abbrev pub guard : {A : Type 0} → (Tables → A × Tables) → A → Tables → A × Tables
guard statement fallback s =
    let rest = record s { outcomes = later_outcomes s.outcomes } in
    if next_outcome s.outcomes then statement rest else (fallback, rest)

abbrev pub has_intent : Text → IntentRow → Bool
has_intent hash row = text_eq row.intent_hash hash

abbrev pub has_decision_id : Text → QueueRow → Bool
has_decision_id id q = text_eq q.row.decision_id id

abbrev pub has_request : Text → FailureRow → Bool
has_request id row = text_eq row.request_id id

-- `onConflictDoNothing`: the list, and whether a row was inserted.
unfoldable pub insert_once : {A : Type 0} → Option A → A → List A → Bool × List A
insert_once none row rows = (true, rows ++ row ∷ [])
insert_once (some found) row rows = (false, rows)

abbrev pub insert_intent : IntentRow → Tables → Bool × Tables
insert_intent row s =
    let (inserted, rows) =
      insert_once (find (has_intent row.intent_hash) s.intents) row s.intents in
    (inserted, record s { intents = rows })

unfoldable pub record_intent : IntentRow → Tables → Bool × Tables
unfolding insert_once find
record_intent row s = guard (insert_intent row) true s

-- The columns that a conflict sets.
abbrev pub refreshed : DecisionRow → DecisionRow → DecisionRow
refreshed row old = record old {
  verdict = row.verdict;
  reason_code = row.reason_code;
  resolved = row.resolved;
  settled = row.settled;
}

unfoldable pub upsert : DecisionRow → List DecisionRow → List DecisionRow
upsert row [] = row ∷ []
upsert row (old ∷ rest) =
    if text_eq old.intent_hash row.intent_hash
    then refreshed row old ∷ rest
    else old ∷ upsert row rest

abbrev pub upsert_decision : DecisionRow → Tables → Unit {0} × Tables
upsert_decision row s = (tt, record s { decisions = upsert row s.decisions })

unfoldable pub record_decision : DecisionRow → Tables → Tables
unfolding upsert
record_decision row s = (guard (upsert_decision row) tt s).1

abbrev pub insert_approval : QueueRow → Tables → Unit {0} × Tables
insert_approval q s = (
  tt,
  record s {
    approval_queue =
        (insert_once (find (has_decision_id q.row.decision_id) s.approval_queue) q
          s.approval_queue).1;
  },
)

unfoldable pub enqueue_approval : ℕ → ApprovalRow → Tables → Tables
unfolding insert_once find
enqueue_approval now row s =
    (guard (insert_approval record { row = row; escalated_at = now }) tt s).1

abbrev pub insert_failure : FailureRow → Tables → Unit {0} × Tables
insert_failure row s = (
  tt,
  record s {
    submission_failures =
        (insert_once (find (has_request row.request_id) s.submission_failures) row
          s.submission_failures).1;
  },
)

unfoldable pub record_failure : FailureRow → Tables → Tables
unfolding insert_once find
record_failure row s = (guard (insert_failure row) tt s).1

-- The left join of an escalation with its intent.
abbrev pub joined : List IntentRow → QueueRow → ApprovalCandidate
joined intents q = candidate q.escalated_at q.row (find (has_intent q.row.intent_hash) intents)

unfoldable pub approval_candidates : ℕ → Tables → List ApprovalCandidate × Tables
unfolding find newest_first
approval_candidates limit s =
    guard (λ t. (take limit (newest_first (map (joined t.intents) t.approval_queue)), t)) [] s

unfoldable pub intent_by_hash : Text → Tables → Option IntentRow × Tables
unfolding find
intent_by_hash hash s = guard (λ t. (find (has_intent hash) t.intents, t)) none s

abbrev pub postgres_store : IntentStore
postgres_store = record {
  State = Tables;
  degraded = false;
  record_intent = record_intent;
  record_decision = record_decision;
  enqueue_approval = enqueue_approval;
  record_failure = record_failure;
  approval_candidates = approval_candidates;
  intent_by_hash = intent_by_hash;
}
