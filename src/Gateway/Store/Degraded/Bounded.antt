-- ===== src/Gateway/Store/Degraded/Bounded.antt =====
-- The bound of `DegradedStore` of apps/gateway/src/db/store.ts, and what it still holds.
use aegis_phase.Prelude.{
  ℕ, suc, ◌≤◌, ◌≡◌, inl, inr, refl, ap, ◌∙◌, Bool, true, false, Option, none, some, List, [], ◌∷◌,
  Text, text_eq, text_eq_refl, if◌then◌else◌, ltb, ltb→lt, zero, length, take, Bool-cases, arith,
}
use aegis_phase.Gateway.Store.{IntentRow, ApprovalRow, ApprovalCandidate}
use aegis_phase.Gateway.Store.Degraded.{
  max_entries, map_get, map_set, trim, DegradedState, record_intent, enqueue_approval,
  approval_candidates, intent_by_hash, candidate,
}

module _ {V : Type 0} where
  length-trim-le : (m : List (Text × V)) → length (trim m) ≤ max_entries
  unfolding trim
  length-trim-le [] = omega arith
  length-trim-le (e ∷ rest) = ground (arith, length-trim-le rest)

  length-map_set-le :
      (m : List (Text × V)) (key : Text) (v : V) → length (map_set m key v) ≤ suc (length m)
  unfolding map_set
  length-map_set-le [] key v = omega arith
  length-map_set-le ((k, w) ∷ rest) key v = ground (arith, length-map_set-le rest key v)

  map_get-set : (m : List (Text × V)) (key : Text) (v : V) → map_get (map_set m key v) key ≡ some v
  unfolding map_get map_set
  map_get-set [] key v = rw (text_eq_refl key) refl
  map_get-set ((k, w) ∷ rest) key v = elim (Bool-cases (text_eq k key)) [
    | inl e ↦ rw e (rw e refl)
    | inr e ↦ rw e (rw e (map_get-set rest key v))
  ]

  trim-small : (m : List (Text × V)) → length m ≤ max_entries → trim m ≡ m
  unfolding trim
  trim-small [] h = refl
  trim-small (e ∷ rest) h = ground arith

  -- A key that is known already adds no entry.
  length-map_set_known :
      (m : List (Text × V)) (key : Text) (v w : V)
      → map_get m key ≡ some w
      → length (map_set m key v) ≡ length m
  unfolding map_get map_set
  length-map_set_known [] key v w h = cc
  length-map_set_known ((k, u) ∷ rest) key v w h = ground (arith, length-map_set_known rest key v w)

  -- A new key goes to the end.
  length-map_set_new :
      (m : List (Text × V)) (key : Text) (v : V)
      → map_get m key ≡ none
      → length (map_set m key v) ≡ suc (length m)
  unfolding map_get map_set
  length-map_set_new [] key v h = omega arith
  length-map_set_new ((k, u) ∷ rest) key v h = ground (arith, length-map_set_new rest key v)

  -- Of too many entries by one, the first is dropped.
  trim_full :
      (e : Text × V) (rest : List (Text × V)) → length rest ≡ max_entries → trim (e ∷ rest) ≡ rest
  unfolding trim
  trim_full e [] h = absurd (omega arith)
  trim_full e (f ∷ rest) h = ground arith

  full_set :
      (m : List (Text × V)) (key : Text) (v : V)
      → length m ≡ max_entries
      → map_get m key ≡ none
      → map_get (trim (map_set m key v)) key ≡ some v
  unfolding map_get map_set
  full_set [] key v l h = absurd (omega arith)
  full_set ((k, u) ∷ rest) key v l h = by_key (text_eq k key) refl h
    where
      by_key :
          (b : Bool)
          → text_eq k key ≡ b
          → (if b then some u else map_get rest key) ≡ none
          → map_get (trim (if b then (k, v) ∷ rest else (k, u) ∷ map_set rest key v)) key ≡ some v
      by_key true e z = cc
      by_key false e z =
          ap (λ (t : List (Text × V)). map_get t key)
            (trim_full (k, u) (map_set rest key v) (omega (arith, length-map_set_new rest key v z)))
          ∙ map_get-set rest key v

  small_set :
      (m : List (Text × V)) (key : Text) (v : V)
      → length (map_set m key v) ≤ max_entries
      → map_get (trim (map_set m key v)) key ≡ some v
  small_set m key v h =
      ap (λ (t : List (Text × V)). map_get t key) (trim-small (map_set m key v) h)
      ∙ map_get-set m key v

  known_or_new :
      (m : List (Text × V)) (key : Text) (v : V) (o : Option V)
      → length m ≤ max_entries
      → map_get m key ≡ o
      → map_get (trim (map_set m key v)) key ≡ some v
  known_or_new m key v (some w) l h =
      small_set m key v (omega (arith, length-map_set_known m key v w h))
  known_or_new m key v none l h = elim (Bool-cases (ltb (length m) max_entries)) [
    | inl e ↦
        small_set m key v
          (omega (arith, length-map_set_new m key v h, ltb→lt (length m) max_entries e))
    | inr e ↦ full_set m key v (let g : max_entries ≤ length m = ground arith in omega arith) h
  ]

-- A call that changes the store.
pub data Call : Type 0 where
  recorded : IntentRow → Call
  enqueued : ℕ → ApprovalRow → Call

pub called : DegradedState → Call → DegradedState
called s (recorded row) = (record_intent row s).1
called s (enqueued now row) = enqueue_approval now row s

pub called_all : DegradedState → List Call → DegradedState
unfolding called
called_all s [] = s
called_all s (c ∷ calls) = called_all (called s c) calls

abbrev pub fresh : DegradedState
fresh = record { seen = []; queue = [] }

abbrev pub IsBounded : DegradedState → Type 0
IsBounded s = (length s.seen ≤ max_entries) × (length s.queue ≤ max_entries)

called-IsBounded : (s : DegradedState) (c : Call) → IsBounded s → IsBounded (called s c)
unfolding called record_intent enqueue_approval
called-IsBounded s (recorded row) (a, b) = (length-trim-le (map_set s.seen row.intent_hash row), b)
called-IsBounded s (enqueued now row) (a, b) = (
  a,
  length-trim-le
      (map_set s.queue row.decision_id (candidate now row (map_get s.seen row.intent_hash))),
)

called_all-IsBounded :
    (s : DegradedState) (calls : List Call) → IsBounded s → IsBounded (called_all s calls)
unfolding called_all
called_all-IsBounded s [] h = h
called_all-IsBounded s (c ∷ calls) h =
    called_all-IsBounded (called s c) calls (called-IsBounded s c h)

length-take-le : (n : ℕ) (l : List ApprovalCandidate) → length (take n l) ≤ n
length-take-le zero l = omega arith
length-take-le (suc n) [] = omega arith
length-take-le (suc n) (c ∷ l) = omega (arith, length-take-le n l)

-- What holds of the store for an intent and an escalation to come, and for a listing.
pub record Keeps (row : IntentRow) (now : ℕ) (approval : ApprovalRow) (limit : ℕ)
    (s : DegradedState) : Type 0 where
  pub bounded : IsBounded s
  pub recorded_next : intent_by_hash row.intent_hash (record_intent row s).1 ≡ some row
  pub enqueued_next :
      map_get (enqueue_approval now approval s).queue approval.decision_id
      ≡ some (candidate now approval (map_get s.seen approval.intent_hash))
  pub listed : length (approval_candidates limit s) ≤ limit

-- After any sequence of calls the store in memory holds at most 1000 intents and 1000 escalations; an
-- intent that is recorded next is found again by its hash, an escalation that is enqueued next is
-- held, and a listing has at most as many entries as it was asked for.
pub called_all-Keeps :
    (calls : List Call) (row : IntentRow) (now : ℕ) (approval : ApprovalRow) (limit : ℕ)
    → Keeps row now approval limit (called_all fresh calls)
unfolding record_intent enqueue_approval intent_by_hash approval_candidates
called_all-Keeps calls row now approval limit =
    let b = called_all-IsBounded fresh calls (omega arith, omega arith) in
    record {
      bounded = b;
      recorded_next = known_or_new (called_all fresh calls).seen row.intent_hash row _ b.0 refl;
      enqueued_next = known_or_new (called_all fresh calls).queue approval.decision_id _ _ b.1 refl;
      listed = length-take-le limit _;
    }
