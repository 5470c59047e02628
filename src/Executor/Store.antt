-- ===== src/Executor/Store.antt =====
-- apps/executor/src/store/types.ts: the records of the settlement journal, and the interface
-- `SettlementStore` as its operations with the laws by which the executor uses them.
pub mod Rows
pub mod Memory
pub mod Sqlite
pub mod Agree
mod Tests
use aegis_phase.Prelude.{
  ℕ, ◌≡◌, Bool, true, false, Option, none, some, Text, text_eq, if◌then◌else◌,
}
use aegis_phase.Prelude.Result.{Result, ok, err}
use aegis_phase.Executor.Errors.{Thrown, settlement, store_conflict}

pub data SettlementStatus : Type 0 where
  prepared marked submitted settled abandoned : SettlementStatus

-- `isTerminal`.
unfoldable pub is_terminal : SettlementStatus → Bool
is_terminal settled = true
is_terminal abandoned = true
is_terminal _ = false

-- `Omit<SettlementRecord, "createdAt" | "updatedAt" | "status">`.
pub record Draft : Type 0 where
  pub decision_id : Text
  pub tx_hash : Text
  pub envelope_xdr : Text
  pub source : Text
  pub sequence : Text
  pub max_time : ℕ
  pub ledger : Option ℕ
  pub note : Option Text

pub record SettlementRecord : Type 0 where
  pub draft : Draft
  pub open draft use *
  pub status : SettlementStatus
  pub created_at : Text
  pub updated_at : Text

pub record SettlementPatch : Type 0 where
  pub ledger : Option ℕ
  pub note : Option Text

-- A field that the patch gives replaces the old one: `COALESCE(?, ledger)`.
abbrev pub coalesce : {A : Type 0} → Option A → Option A → Option A
coalesce none old = old
coalesce (some new) old = some new

-- What `putPrepared` stores.
abbrev pub fresh : Text → Draft → SettlementRecord
fresh now d = record { draft = d; status = prepared; created_at = now; updated_at = now }

-- What `advance` stores.
abbrev pub advanced :
    Text → SettlementStatus → SettlementPatch → SettlementRecord → SettlementRecord
advanced now status patch r = record r {
  draft = record r.draft {
    ledger = coalesce patch.ledger r.ledger;
    note = coalesce patch.note r.note;
  };
  status = status;
  updated_at = now;
}

-- What `replacePrepared` stores, given a draft with a note and without a ledger.
abbrev pub replaced : Text → Draft → SettlementRecord → SettlementRecord
replaced now d r = record r {
  draft = record d { ledger = r.ledger };
  status = prepared;
  updated_at = now;
}

abbrev pub is_prepared : SettlementStatus → Bool
is_prepared prepared = true
is_prepared _ = false

-- The state after a write: `k` is found under its own key, and all else is as before.
abbrev pub Writes :
    {S : Type 0} → (Text → S → Option SettlementRecord) → S → S → Text → SettlementRecord → Type 0
Writes get s s' id r = (k : Text) → get k s' ≡ (if text_eq k id then some r else get k s)

abbrev pub conflict : Thrown
conflict = settlement store_conflict

-- `SettlementStore`. An operation takes the time and the state, and returns the record stored with
-- the next state, or throws; a write that throws leaves the state alone. `insert_failure` is what a
-- fault of the disk becomes in `putPrepared`.
pub record SettlementStore : Type 1 where
  pub State : Type 0
  pub empty : State
  pub get : Text → State → Option SettlementRecord
  pub put_prepared : Text → Draft → State → Result Thrown (SettlementRecord × State)
  pub advance :
      Text
      → Text
      → SettlementStatus
      → SettlementPatch
      → State
      → Result Thrown (SettlementRecord × State)
  pub replace_prepared : Text → Draft → State → Result Thrown (SettlementRecord × State)
  pub insert_failure : Thrown
  pub get-empty : (k : Text) → get k empty ≡ none
  pub get-id : (k : Text) (s : State) {r : SettlementRecord} → get k s ≡ some r → r.decision_id ≡ k
  pub put_fresh :
      (now : Text) (d : Draft) (s : State)
      → d.ledger ≡ none
      → get d.decision_id s ≡ none
      → (s' : State) × (put_prepared now d s ≡ ok (fresh now d, s'))
        × Writes get s s' d.decision_id (fresh now d)
  pub put_taken :
      (now : Text) (d : Draft) (s : State) (r : SettlementRecord)
      → get d.decision_id s ≡ some r
      → put_prepared now d s ≡ err conflict
  pub advance_found :
      (now k : Text) (status : SettlementStatus) (p : SettlementPatch) (s : State)
      (r : SettlementRecord)
      → get k s ≡ some r
      → (s' : State) × (advance now k status p s ≡ ok (advanced now status p r, s'))
        × Writes get s s' k (advanced now status p r)
  pub advance_missing :
      (now k : Text) (status : SettlementStatus) (p : SettlementPatch) (s : State)
      → get k s ≡ none
      → advance now k status p s ≡ err conflict
  pub replace_found :
      (now : Text) (d : Draft) (s : State) (r : SettlementRecord) {n : Text}
      → d.ledger ≡ none
      → d.note ≡ some n
      → get d.decision_id s ≡ some r
      → r.status ≡ prepared
      → (s' : State) × (replace_prepared now d s ≡ ok (replaced now d r, s'))
        × Writes get s s' d.decision_id (replaced now d r)
  pub replace_refused :
      (now : Text) (d : Draft) (s : State)
      → ((r : SettlementRecord) → get d.decision_id s ≡ some r → is_prepared r.status ≡ false)
      → replace_prepared now d s ≡ err conflict
