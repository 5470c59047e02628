-- ===== src/Executor/Store/Tests.antt =====
-- The two journals at a concrete sequence of operations.
use aegis_phase.Prelude.{◌≡◌, refl, none, some, List, [], ◌∷◌, Text, codes, text_eq}
use aegis_phase.Executor.Store.{Draft, marked, conflict}
use aegis_phase.Executor.Store.Rows.{find_row, set_row, update_row}
use aegis_phase.Executor.Store.Memory.{MemorySettlementStore}
use aegis_phase.Executor.Store.Memory
use aegis_phase.Executor.Store.Sqlite.{SqliteSettlementStore}
use aegis_phase.Executor.Store.Sqlite
use aegis_phase.Executor.Store.Agree.{
  Operation, get_op, put_op, advance_op, replace_op, Answer, stored, thrown, Proper, answers,
  sqlite-memory,
}

abbrev draft : Draft
draft = record {
  decision_id = codes "d";
  tx_hash = codes "h";
  envelope_xdr = codes "e";
  source = codes "s";
  sequence = codes "1";
  max_time = 10;
  ledger = none;
  note = some (codes "n");
}

draft-Proper : Proper draft
draft-Proper = record { note = codes "n"; has_note = refl; no_ledger = refl }

abbrev ops : List Operation
ops =
    put_op (codes "t0") draft
    ∷ replace_op (codes "t1") draft
    ∷ advance_op (codes "t2") (codes "d") marked (record { ledger = none; note = none })
    ∷ replace_op (codes "t3") draft
    ∷ get_op (codes "d")
    ∷ []

sqlite-memory_example :
    answers SqliteSettlementStore ops SqliteSettlementStore.empty
    ≡ answers MemorySettlementStore ops MemorySettlementStore.empty
sqlite-memory_example =
    sqlite-memory ops (draft-Proper, (draft-Proper, (tt, (draft-Proper, (tt, tt)))))

abbrev first_answer : List Answer → Answer
first_answer [] = thrown conflict
first_answer (a ∷ rest) = a

abbrev last_answer : List Answer → Answer
last_answer [] = thrown conflict
last_answer (a ∷ []) = a
last_answer (a ∷ b ∷ rest) = last_answer (b ∷ rest)

-- A draft without a note, which the executor never writes: the map keeps the old note, the table
-- clears it.
abbrev no_note : List Operation
no_note = put_op (codes "t0") draft ∷ replace_op (codes "t1") (record draft { note = none }) ∷ []

abbrev note_of : Answer → Text
note_of (stored r) = elim r.note [ none ↦ codes "NULL" | some n ↦ n ]
note_of _ = []

notes :
    (note_of (last_answer (answers MemorySettlementStore no_note [])) ≡ codes "n")
    × (note_of (last_answer (answers SqliteSettlementStore no_note [])) ≡ codes "NULL")
unfolding Memory.put_prepared Memory.replace_prepared Sqlite.put_prepared Sqlite.replace_prepared
    find_row set_row update_row text_eq
notes = (refl, refl)
