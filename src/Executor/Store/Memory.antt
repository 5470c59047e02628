-- ===== src/Executor/Store/Memory.antt =====
-- apps/executor/src/store/memory.ts: `MemorySettlementStore`, a `Map` in insertion order.
-- `now` is `new Date().toISOString()` at the call.
use aegis_phase.Prelude.{
  ◌≡◌, refl, false, Option, none, some, List, [], Text, if◌then◌else◌, arith, Option-cases, inl,
  inr,
}
use aegis_phase.Prelude.Result.{Result, ok, err}
use aegis_phase.Executor.Errors.{Thrown, other}
use aegis_phase.Executor.Store.{
  SettlementStatus, prepared, is_prepared, Draft, SettlementRecord, SettlementPatch, coalesce,
  fresh, advanced, replaced, Writes, conflict, SettlementStore,
}
use aegis_phase.Executor.Store.Rows.{find_row, set_row, key-find_row, find_row-set_row}

abbrev pub id_of : SettlementRecord → Text
id_of r = r.decision_id

abbrev pub Map : Type 0
Map = List SettlementRecord

unfoldable pub get : Text → Map → Option SettlementRecord
get decision_id rows = find_row id_of decision_id rows

unfoldable pub put_prepared : Text → Draft → Map → Result Thrown (SettlementRecord × Map)
put_prepared now d rows = elim (find_row id_of d.decision_id rows) [
  | some r ↦ err conflict
  | none ↦ ok (fresh now d, set_row id_of (fresh now d) rows)
]

unfoldable pub advance :
    Text → Text → SettlementStatus → SettlementPatch → Map → Result Thrown (SettlementRecord × Map)
advance now decision_id status patch rows = elim (find_row id_of decision_id rows) [
  | none ↦ err conflict
  | some row ↦
      ok (advanced now status patch row, set_row id_of (advanced now status patch row) rows)
]

-- `{ ...row, ...record, status, updatedAt }`: a field that `record` lacks keeps the row's value.
abbrev pub spread : Text → Draft → SettlementRecord → SettlementRecord
spread now d row = record row {
  draft = record d { ledger = coalesce d.ledger row.ledger; note = coalesce d.note row.note };
  status = prepared;
  updated_at = now;
}

unfoldable pub replace_prepared : Text → Draft → Map → Result Thrown (SettlementRecord × Map)
replace_prepared now d rows = elim (find_row id_of d.decision_id rows) [
  | none ↦ err conflict
  | some row ↦
      if is_prepared row.status
      then ok (spread now d row, set_row id_of (spread now d row) rows)
      else err conflict
]

set_Writes :
    (rows : Map) (k : Text) (r : SettlementRecord)
    → r.decision_id ≡ k
    → Writes get rows (set_row id_of r rows) k r
unfolding get
set_Writes rows k r h j = rw (find_row-set_row id_of j r rows) (rw h)

pub get-empty : (k : Text) → get k [] ≡ none
unfolding get find_row
get-empty k = refl

pub get-id : (k : Text) (s : Map) {r : SettlementRecord} → get k s ≡ some r → r.decision_id ≡ k
unfolding get
get-id k s h = key-find_row id_of k s h

pub put_fresh :
    (now : Text) (d : Draft) (s : Map)
    → d.ledger ≡ none
    → get d.decision_id s ≡ none
    → (s' : Map) × (put_prepared now d s ≡ ok (fresh now d, s'))
      × Writes get s s' d.decision_id (fresh now d)
unfolding get put_prepared
put_fresh now d s l h = (
  set_row id_of (fresh now d) s,
  rw (h, put_prepared),
  unfold get in set_Writes s d.decision_id (fresh now d) refl,
)

pub put_taken :
    (now : Text) (d : Draft) (s : Map) (r : SettlementRecord)
    → get d.decision_id s ≡ some r
    → put_prepared now d s ≡ err conflict
unfolding get put_prepared
put_taken now d s r h = rw (h, put_prepared)

pub advance_found :
    (now k : Text) (status : SettlementStatus) (p : SettlementPatch) (s : Map)
    (r : SettlementRecord)
    → get k s ≡ some r
    → (s' : Map) × (advance now k status p s ≡ ok (advanced now status p r, s'))
      × Writes get s s' k (advanced now status p r)
unfolding get advance
advance_found now k status p s r h =
    let next = advanced now status p r in
    (
      set_row id_of next s,
      rw (h, advance),
      unfold get in set_Writes s k next (key-find_row id_of k s h),
    )

pub advance_missing :
    (now k : Text) (status : SettlementStatus) (p : SettlementPatch) (s : Map)
    → get k s ≡ none
    → advance now k status p s ≡ err conflict
unfolding get advance
advance_missing now k status p s h = rw (h, advance)

spread-replaced :
    (now : Text) (d : Draft) (r : SettlementRecord) {n : Text}
    → d.ledger ≡ none
    → d.note ≡ some n
    → spread now d r ≡ replaced now d r
spread-replaced now d r l m = ground arith

pub replace_found :
    (now : Text) (d : Draft) (s : Map) (r : SettlementRecord) {n : Text}
    → d.ledger ≡ none
    → d.note ≡ some n
    → get d.decision_id s ≡ some r
    → r.status ≡ prepared
    → (s' : Map) × (replace_prepared now d s ≡ ok (replaced now d r, s'))
      × Writes get s s' d.decision_id (replaced now d r)
unfolding get replace_prepared
replace_found now d s r l m h p =
    let next = replaced now d r in
    (
      set_row id_of next s,
      rw (h, replace_prepared) (rw p (rw (spread-replaced now d r l m))),
      unfold get in set_Writes s d.decision_id next refl,
    )

pub replace_refused :
    (now : Text) (d : Draft) (s : Map)
    → ((r : SettlementRecord) → get d.decision_id s ≡ some r → is_prepared r.status ≡ false)
    → replace_prepared now d s ≡ err conflict
unfolding get replace_prepared
replace_refused now d s h = elim (Option-cases (find_row id_of d.decision_id s)) [
  | inl e ↦ rw (e, replace_prepared)
  | inr (r, e) ↦ rw (e, replace_prepared) (rw (h r e))
]

abbrev pub MemorySettlementStore : SettlementStore
MemorySettlementStore = record {
  State = Map;
  empty = [];
  get = get;
  put_prepared = put_prepared;
  advance = advance;
  replace_prepared = replace_prepared;
  insert_failure = other;
  get-empty = get-empty;
  get-id = get-id;
  put_fresh = put_fresh;
  put_taken = put_taken;
  advance_found = advance_found;
  advance_missing = advance_missing;
  replace_found = replace_found;
  replace_refused = replace_refused;
}
