-- ===== src/Verifier/LedgerFacts.antt =====
-- What the checks of the ledger establish when they pass.
use aegis_phase.Prelude.{
  ◌≡◌, refl, sym, ap, ◌∙◌, Bool, true, false, Option, none, some, List, [], ◌∷◌, Text, Bytes, codes,
  text_eq, text_eq_iff, length, ◌==◌, ==_iff, All, if-eq-some, if◌then◌else◌,
}
use mathlib.Core.Option.{some-injective}
use aegis_phase.Prelude.Result.{Result, ok, err}
use aegis_phase.Verifier.Types.{Check, status_fail}
use aegis_phase.Verifier.Sources.{HorizonTransaction, HorizonOperation, Outage, Sources}
use aegis_phase.Verifier.Checks.{single_operation, only_operation, decoded, memo_check}
use aegis_phase.Verifier.Verify.{LedgerRead, operations_read, ledger_of, read_ledger}
use aegis_phase.Verifier.Verdict.{Passed, judged-Passed}

if-Passed :
    (b : Bool) (good bad : Check × Option HorizonOperation)
    → bad.0.status ≡ status_fail
    → Passed (if b then good else bad).0
    → b ≡ true
if-Passed true good bad e h = refl
if-Passed false good bad e h = cc

single_operation-Passed :
    (op : HorizonOperation)
    → Passed (single_operation op).0
    → (op.kind ≡ codes "payment") × ((single_operation op).1 ≡ some op)
single_operation-Passed op h =
    let e = if-Passed (text_eq op.kind (codes "payment")) _ _ refl h in
    ((text_eq_iff _ _).0 e, rw e refl)

only_operation-Passed :
    (b : Bool) (ops : List HorizonOperation)
    → Passed (only_operation b ops).0
    → (op : HorizonOperation) × (b ≡ true)
      × (ops ≡ op ∷ [])
      × (op.kind ≡ codes "payment")
      × ((only_operation b ops).1 ≡ some op)
only_operation-Passed true [] h = cc
only_operation-Passed true (op ∷ []) h =
    let (kind, same) = single_operation-Passed op h in (op, refl, refl, kind, same)
only_operation-Passed true (op ∷ p ∷ ops) h = cc
only_operation-Passed false [] h = cc
only_operation-Passed false (op ∷ []) h = cc
only_operation-Passed false (op ∷ p ∷ ops) h = cc

module _ (s : Sources) where
  operations_read-Passed :
      (tx : HorizonTransaction) (r : Result Outage (List HorizonOperation))
      → Passed (operations_read s tx r).0
      → (op : HorizonOperation) × (tx.operation_count ≡ 1)
        × (r ≡ ok (op ∷ []))
        × (op.kind ≡ codes "payment")
        × ((operations_read s tx r).1 ≡ some op)
  operations_read-Passed tx (err e) h = cc
  operations_read-Passed tx (ok ops) h =
      let (op, b, o, kind, same) = only_operation-Passed (tx.operation_count == 1) ops h in
      (op, (==_iff _ _).0 b, ap ok o, kind, same)

  memo_check-Passed :
      (o : Option Bytes)
      → Passed (memo_check s o).0
      → (memo : Bytes) × (o ≡ some memo) × ((memo_check s o).1 ≡ some memo)
  memo_check-Passed none h = cc
  memo_check-Passed (some memo) h = (memo, refl, refl)

  decoded-eq-some :
      (o : Option Text) {memo : Bytes}
      → decoded s o ≡ some memo
      → (o ≡ some (s.to_base64 memo)) × (length memo ≡ 32)
  decoded-eq-some none h = cc
  decoded-eq-some (some t) h =
      let (b, h1) = if-eq-some (text_eq (s.to_base64 (s.from_base64 t)) t) _ h in
      let (l, h2) = if-eq-some (length (s.from_base64 t) == 32) _ h1 in
      let same = some-injective _ _ h2 in
      (
        ap some (sym ((text_eq_iff _ _).0 b) ∙ ap s.to_base64 same),
        sym (ap length same) ∙ (==_iff _ _).0 l,
      )

  pub record LedgerFacts (horizon tx_hash : Text) (l : LedgerRead) : Type 0 where
    pub tx : HorizonTransaction
    pub payment : HorizonOperation
    pub memo : Bytes
    pub fetched : s.fetch_transaction horizon tx_hash ≡ ok (some tx)
    pub successful : tx.successful ≡ true
    pub counted : tx.operation_count ≡ 1
    pub listed : s.fetch_operations horizon tx_hash ≡ ok (payment ∷ [])
    pub is_payment : payment.kind ≡ codes "payment"
    pub memo_type : tx.memo_type ≡ codes "hash"
    pub carried : tx.memo ≡ some (s.to_base64 memo)
    pub memo_length : length memo ≡ 32
    pub tx_read : l.tx ≡ some tx
    pub payment_read : l.payment ≡ some payment
    pub memo_read : l.memo ≡ some memo

  ledger_of_lem :
      (horizon tx_hash : Text) (r : Result Outage (Option HorizonTransaction))
      → s.fetch_transaction horizon tx_hash ≡ r
      → All Passed (ledger_of s r (s.fetch_operations horizon tx_hash)).checks
      → LedgerFacts horizon tx_hash (ledger_of s r (s.fetch_operations horizon tx_hash))
  ledger_of_lem horizon tx_hash (err e) f h = cc
  ledger_of_lem horizon tx_hash (ok none) f h = cc
  ledger_of_lem horizon tx_hash (ok (some tx)) f h =
      let (op, counted, listed, kind, payment_read) = operations_read-Passed tx _ h.1.0 in
      let (memo, found, memo_read) = memo_check-Passed _ h.1.1.0 in
      let (typed, carried) = if-eq-some (text_eq tx.memo_type (codes "hash")) _ found in
      let (carried_, length_) = decoded-eq-some tx.memo carried in
      record {
        tx = tx;
        payment = op;
        memo = memo;
        fetched = f;
        successful = judged-Passed tx.successful _ _ refl h.0;
        counted = counted;
        listed = listed;
        is_payment = kind;
        memo_type = (text_eq_iff _ _).0 typed;
        carried = carried_;
        memo_length = length_;
        tx_read = refl;
        payment_read = payment_read;
        memo_read = memo_read;
      }

  pub read_ledger-Passed :
      (horizon tx_hash : Text)
      → All Passed (read_ledger s horizon tx_hash).checks
      → LedgerFacts horizon tx_hash (read_ledger s horizon tx_hash)
  read_ledger-Passed horizon tx_hash h = ledger_of_lem horizon tx_hash _ refl h
