-- ===== src/Executor/Store/Sqlite.antt =====
-- apps/executor/src/store/sqlite.ts: `SqliteSettlementStore`, a table with a primary key. SQLite is
-- modelled by its rows; `none` is NULL, and the column `status` holds the text of a status.
use aegis_phase.Prelude.{
  ℕ, ◌≡◌, refl, sym, ap, ◌∙◌, Bool, true, false, Option, none, some, List, [], Text, text_eq,
  text_eq_refl, if◌then◌else◌, arith,
}
use mathlib.Core.Path.{subst}
use aegis_phase.Prelude.Result.{Result, ok, err}
use aegis_phase.Executor.Errors.{Thrown}
use aegis_phase.Executor.Store.{
  SettlementStatus, prepared, is_prepared, Draft, SettlementRecord, SettlementPatch, coalesce,
  fresh, advanced, replaced, Writes, conflict, SettlementStore,
}
use aegis_phase.Executor.Store.Rows.{
  find_row, set_row, update_row, key-find_row, find_row-set_row, update_row-eq-some,
  update_row-eq-none,
}

pub record Row : Type 0 where
  pub decision_id : Text
  pub tx_hash : Text
  pub envelope_xdr : Text
  pub source : Text
  pub sequence : Text
  pub max_time : ℕ
  pub status : SettlementStatus
  pub ledger : Option ℕ
  pub note : Option Text
  pub created_at : Text
  pub updated_at : Text

abbrev pub to_record : Row → SettlementRecord
to_record r = record {
  draft = record {
    decision_id = r.decision_id;
    tx_hash = r.tx_hash;
    envelope_xdr = r.envelope_xdr;
    source = r.source;
    sequence = r.sequence;
    max_time = r.max_time;
    ledger = r.ledger;
    note = r.note;
  };
  status = r.status;
  created_at = r.created_at;
  updated_at = r.updated_at;
}

abbrev pub primary_key : Row → Text
primary_key r = r.decision_id

abbrev pub Table : Type 0
Table = List Row

abbrev pub selected : Option Row → Option SettlementRecord
selected none = none
selected (some r) = some (to_record r)

unfoldable pub get : Text → Table → Option SettlementRecord
get decision_id rows = selected (find_row primary_key decision_id rows)

-- The read after a write: what is missing then is a conflict.
abbrev pub read_back : Option SettlementRecord → Table → Result Thrown (SettlementRecord × Table)
read_back none rows = err conflict
read_back (some r) rows = ok (r, rows)

-- The `INSERT`.
abbrev pub inserted : Text → Draft → Row
inserted now d = record {
  decision_id = d.decision_id;
  tx_hash = d.tx_hash;
  envelope_xdr = d.envelope_xdr;
  source = d.source;
  sequence = d.sequence;
  max_time = d.max_time;
  status = prepared;
  ledger = none;
  note = d.note;
  created_at = now;
  updated_at = now;
}

abbrev pub insert : Option Row → Text → Draft → Table → Result Thrown (SettlementRecord × Table)
insert (some r) now d rows = err conflict
insert none now d rows =
    read_back
      (selected (find_row primary_key d.decision_id (set_row primary_key (inserted now d) rows)))
      (set_row primary_key (inserted now d) rows)

unfoldable pub put_prepared : Text → Draft → Table → Result Thrown (SettlementRecord × Table)
put_prepared now d rows = insert (find_row primary_key d.decision_id rows) now d rows

-- After an `UPDATE`; `none` is no change.
abbrev pub changed : Option Table → Text → Result Thrown (SettlementRecord × Table)
changed none decision_id = err conflict
changed (some rows) decision_id = read_back (selected (find_row primary_key decision_id rows)) rows

abbrev pub moved_row : Text → SettlementStatus → SettlementPatch → Row → Row
moved_row now status patch r = record r {
  status = status;
  ledger = coalesce patch.ledger r.ledger;
  note = coalesce patch.note r.note;
  updated_at = now;
}

unfoldable pub advance :
    Text
    → Text
    → SettlementStatus
    → SettlementPatch
    → Table
    → Result Thrown (SettlementRecord × Table)
advance now decision_id status patch rows =
    changed (update_row primary_key decision_id (λ r. true) (moved_row now status patch) rows)
      decision_id

abbrev pub rebuilt : Text → Draft → Row → Row
rebuilt now d r = record r {
  tx_hash = d.tx_hash;
  envelope_xdr = d.envelope_xdr;
  source = d.source;
  sequence = d.sequence;
  max_time = d.max_time;
  note = d.note;
  updated_at = now;
}

unfoldable pub replace_prepared : Text → Draft → Table → Result Thrown (SettlementRecord × Table)
replace_prepared now d rows =
    changed (update_row primary_key d.decision_id (λ r. is_prepared r.status) (rebuilt now d) rows)
      d.decision_id

found_of_selected :
    (o : Option Row) {r : SettlementRecord}
    → selected o ≡ some r
    → (row : Row) × (o ≡ some row) × (to_record row ≡ r)
found_of_selected none h = cc
found_of_selected (some row) h = (row, refl, cc)

missing_of_selected : (o : Option Row) → selected o ≡ none → o ≡ none
missing_of_selected none h = refl
missing_of_selected (some row) h = cc

selected-if :
    (b : Bool) (row : Row) (o : Option Row)
    → selected (if b then some row else o) ≡ (if b then some (to_record row) else selected o)
selected-if true row o = refl
selected-if false row o = refl

set_Writes :
    (rows : Table) (k : Text) (row : Row)
    → row.decision_id ≡ k
    → Writes get rows (set_row primary_key row rows) k (to_record row)
unfolding get
set_Writes rows k row h j =
    ap selected (find_row-set_row primary_key j row rows)
    ∙ (selected-if _ row _
        ∙ ap
            (λ q.
              if text_eq j q then some (to_record row) else selected (find_row primary_key j rows))
            h)

if-same : (k : Text) (x y : Option SettlementRecord) → (if text_eq k k then x else y) ≡ x
if-same k x y = rw (text_eq_refl k) refl

-- A row that was just written is read back.
read_back-set_row :
    (rows : Table) (k : Text) (row : Row)
    → row.decision_id ≡ k
    → read_back
        (selected (find_row primary_key k (set_row primary_key row rows)))
        (set_row primary_key row rows)
      ≡ ok (to_record row, set_row primary_key row rows)
unfolding get
read_back-set_row rows k row h =
    let found : selected (find_row primary_key k (set_row primary_key row rows))
        ≡ some (to_record row) =
      set_Writes rows k row h k ∙ if-same k _ _ in
    ap (λ o. read_back o (set_row primary_key row rows)) found

pub get-empty : (k : Text) → get k [] ≡ none
unfolding get find_row
get-empty k = refl

pub get-id : (k : Text) (s : Table) {r : SettlementRecord} → get k s ≡ some r → r.decision_id ≡ k
unfolding get
get-id k s h =
    let (row, found, same) = found_of_selected (find_row primary_key k s) h in
    ap (λ (q : SettlementRecord). q.decision_id) (sym same) ∙ key-find_row primary_key k s found

inserted-fresh :
    (now : Text) (d : Draft) → d.ledger ≡ none → to_record (inserted now d) ≡ fresh now d
inserted-fresh now d l = ground arith

pub put_fresh :
    (now : Text) (d : Draft) (s : Table)
    → d.ledger ≡ none
    → get d.decision_id s ≡ none
    → (s' : Table) × (put_prepared now d s ≡ ok (fresh now d, s'))
      × Writes get s s' d.decision_id (fresh now d)
unfolding get put_prepared
put_fresh now d s l h =
    let s' = set_row primary_key (inserted now d) s in
    let same = inserted-fresh now d l in
    (
      s',
      ap (λ o. insert o now d s) (missing_of_selected _ h)
          ∙ (read_back-set_row s d.decision_id (inserted now d) refl ∙ ap (λ q. ok (q, s')) same),
      subst (Writes get s s' d.decision_id) same (set_Writes s d.decision_id (inserted now d) refl),
    )

pub put_taken :
    (now : Text) (d : Draft) (s : Table) (r : SettlementRecord)
    → get d.decision_id s ≡ some r
    → put_prepared now d s ≡ err conflict
unfolding get put_prepared
put_taken now d s r h =
    let (row, found, _) = found_of_selected (find_row primary_key d.decision_id s) h in
    ap (λ o. insert o now d s) found

pub advance_found :
    (now k : Text) (status : SettlementStatus) (p : SettlementPatch) (s : Table)
    (r : SettlementRecord)
    → get k s ≡ some r
    → (s' : Table) × (advance now k status p s ≡ ok (advanced now status p r, s'))
      × Writes get s s' k (advanced now status p r)
unfolding get advance
advance_found now k status p s r h =
    let (row, found, same) = found_of_selected (find_row primary_key k s) h in
    let next = moved_row now status p row in
    let s' = set_row primary_key next s in
    let key : next.decision_id ≡ k = key-find_row primary_key k s found in
    let stored : to_record next ≡ advanced now status p r = ap (advanced now status p) same in
    (
      s',
      ap (λ o. changed o k)
            (update_row-eq-some primary_key k _ (moved_row now status p) s found refl)
          ∙ (read_back-set_row s k next key ∙ ap (λ q. ok (q, s')) stored),
      subst (Writes get s s' k) stored (set_Writes s k next key),
    )

pub advance_missing :
    (now k : Text) (status : SettlementStatus) (p : SettlementPatch) (s : Table)
    → get k s ≡ none
    → advance now k status p s ≡ err conflict
unfolding get advance
advance_missing now k status p s h =
    let none_ = missing_of_selected _ h in
    ap (λ o. changed o k)
      (update_row-eq-none primary_key k _ (moved_row now status p) s (λ r e. cc (none_, e)))

rebuilt-replaced :
    (now : Text) (d : Draft) (row : Row)
    → row.decision_id ≡ d.decision_id
    → row.status ≡ prepared
    → to_record (rebuilt now d row) ≡ replaced now d (to_record row)
rebuilt-replaced now d row k p = ground arith

pub replace_found :
    (now : Text) (d : Draft) (s : Table) (r : SettlementRecord) {n : Text}
    → d.ledger ≡ none
    → d.note ≡ some n
    → get d.decision_id s ≡ some r
    → r.status ≡ prepared
    → (s' : Table) × (replace_prepared now d s ≡ ok (replaced now d r, s'))
      × Writes get s s' d.decision_id (replaced now d r)
unfolding get replace_prepared
replace_found now d s r l m h p =
    let (row, found, same) = found_of_selected (find_row primary_key d.decision_id s) h in
    let next = rebuilt now d row in
    let s' = set_row primary_key next s in
    let key = key-find_row primary_key d.decision_id s found in
    let is_new : row.status ≡ prepared = ap (λ (q : SettlementRecord). q.status) same ∙ p in
    let stored : to_record next ≡ replaced now d r =
      rebuilt-replaced now d row key is_new ∙ ap (replaced now d) same in
    (
      s',
      ap (λ o. changed o d.decision_id)
            (update_row-eq-some primary_key d.decision_id _ (rebuilt now d) s found
              (rw is_new refl))
          ∙ (read_back-set_row s d.decision_id next key ∙ ap (λ q. ok (q, s')) stored),
      subst (Writes get s s' d.decision_id) stored (set_Writes s d.decision_id next key),
    )

pub replace_refused :
    (now : Text) (d : Draft) (s : Table)
    → ((r : SettlementRecord) → get d.decision_id s ≡ some r → is_prepared r.status ≡ false)
    → replace_prepared now d s ≡ err conflict
unfolding get replace_prepared
replace_refused now d s h =
    ap (λ o. changed o d.decision_id)
      (update_row-eq-none primary_key d.decision_id _ (rebuilt now d) s
        (λ r e. h (to_record r) (ap selected e)))

-- What the `INSERT` throws is caught, whatever it is, and reported as a conflict.
abbrev pub SqliteSettlementStore : SettlementStore
SqliteSettlementStore = record {
  State = Table;
  empty = [];
  get = get;
  put_prepared = put_prepared;
  advance = advance;
  replace_prepared = replace_prepared;
  insert_failure = conflict;
  get-empty = get-empty;
  get-id = get-id;
  put_fresh = put_fresh;
  put_taken = put_taken;
  advance_found = advance_found;
  advance_missing = advance_missing;
  replace_found = replace_found;
  replace_refused = replace_refused;
}
