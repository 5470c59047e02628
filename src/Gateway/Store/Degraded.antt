-- ===== src/Gateway/Store/Degraded.antt =====
-- `DegradedStore` of apps/gateway/src/db/store.ts. A `Map` is a list of entries in the order of
-- their insertion.
pub mod Bounded
use aegis_phase.Prelude.{
  ℕ, suc, Bool, true, false, not, Option, none, some, List, [], ◌∷◌, map, Text, text_eq,
  if◌then◌else◌, leb, ltb, length, take,
}
use aegis_phase.Gateway.Store.{
  IntentRow, DecisionRow, ApprovalRow, FailureRow, ApprovalCandidate, IntentStore,
}

abbrev pub max_entries : ℕ
max_entries = 1000

module _ {V : Type 0} where
  unfoldable pub map_get : List (Text × V) → Text → Option V
  map_get [] key = none
  map_get ((k, v) ∷ rest) key = if text_eq k key then some v else map_get rest key

  -- `Map.set`: a known key keeps its place.
  unfoldable pub map_set : List (Text × V) → Text → V → List (Text × V)
  map_set [] key v = (key, v) ∷ []
  map_set ((k, w) ∷ rest) key v =
      if text_eq k key then (k, v) ∷ rest else (k, w) ∷ map_set rest key v

  -- While there are too many entries, the oldest is deleted.
  unfoldable pub trim : List (Text × V) → List (Text × V)
  trim [] = []
  trim (entry ∷ rest) = if ltb max_entries (length (entry ∷ rest)) then trim rest else entry ∷ rest

abbrev pub is_some : {A : Type 0} → Option A → Bool
is_some none = false
is_some (some a) = true

pub record DegradedState : Type 0 where
  pub seen : List (Text × IntentRow)
  pub queue : List (Text × ApprovalCandidate)

unfoldable pub record_intent : IntentRow → DegradedState → Bool × DegradedState
unfolding map_get map_set trim
record_intent row s = (
  not (is_some (map_get s.seen row.intent_hash)),
  record s { seen = trim (map_set s.seen row.intent_hash row) },
)

abbrev pub field_of : {A B : Type 0} → (A → B) → Option A → Option B
field_of f none = none
field_of f (some a) = some (f a)

abbrev pub candidate : ℕ → ApprovalRow → Option IntentRow → ApprovalCandidate
candidate now row intent = record {
  row = row;
  escalated_at = now;
  agent_id = field_of (λ (i : IntentRow). i.agent_id) intent;
  service_id = field_of (λ (i : IntentRow). i.service_id) intent;
  purpose = field_of (λ (i : IntentRow). i.purpose) intent;
  client_ref = field_of (λ (i : IntentRow). i.client_ref) intent;
}

unfoldable pub enqueue_approval : ℕ → ApprovalRow → DegradedState → DegradedState
unfolding map_get map_set trim
enqueue_approval now row s = record s {
  queue =
      trim (map_set s.queue row.decision_id (candidate now row (map_get s.seen row.intent_hash)));
}

-- The stable sort by `escalatedAt`, the newest first.
unfoldable pub insert_newest : ApprovalCandidate → List ApprovalCandidate → List ApprovalCandidate
insert_newest c [] = c ∷ []
insert_newest c (d ∷ rest) =
    if leb d.escalated_at c.escalated_at then c ∷ d ∷ rest else d ∷ insert_newest c rest

unfoldable pub newest_first : List ApprovalCandidate → List ApprovalCandidate
unfolding insert_newest
newest_first [] = []
newest_first (c ∷ rest) = insert_newest c (newest_first rest)

unfoldable pub approval_candidates : ℕ → DegradedState → List ApprovalCandidate
unfolding newest_first
approval_candidates limit s = take limit (newest_first (map (λ entry. entry.1) s.queue))

unfoldable pub intent_by_hash : Text → DegradedState → Option IntentRow
unfolding map_get
intent_by_hash intent_hash s = map_get s.seen intent_hash

abbrev pub degraded_store : IntentStore
degraded_store = record {
  State = DegradedState;
  degraded = true;
  record_intent = record_intent;
  record_decision = λ row s. s;
  enqueue_approval = enqueue_approval;
  record_failure = λ row s. s;
  approval_candidates = λ limit s. (approval_candidates limit s, s);
  intent_by_hash = λ intent_hash s. (intent_by_hash intent_hash s, s);
}
