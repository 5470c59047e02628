-- ===== src/Verifier/Checks.antt =====
-- tools/verifier/src/checks.ts: every check, as a function of what was fetched.
use aegis_phase.Prelude.{
  ℕ, ◌+◌, ◌%◌, ◌^◌, Bool, true, false, not, ◌&&◌, Option, none, some, List, [], ◌∷◌, ◌++◌, Text,
  Bytes, codes, text_eq, any, length, replicate, take, drop, ◌==◌, leb, ltb, if◌then◌else◌,
}
use aegis_phase.Prelude.Result.{Result, ok, err, ◌>>=◌}
use aegis_phase.Prelude.Int.{ℤ, pos, eqb_ℤ}
use aegis_phase.Canonical.Amount.{RangeError, range_error, parse_amount, to_decimal, to_decimal_ℤ}
use aegis_phase.Canonical.Bytes.{to_hex, from_hex, be_bytes}
use aegis_phase.Canonical.Commitment.{memo_hash, decision_id}
use aegis_phase.Verifier.Types.{
  Check, from_receipt, from_horizon, from_rpc, from_derived, from_registry, pass, fail, unavailable,
}
use aegis_phase.Verifier.Sources.{
  HorizonTransaction, HorizonOperation, MemoScan, ChainDecision, Receipt, ReceiptChain, Sources,
}

-- A check that passes on a test: `test ? pass(…) : fail(…)`.
abbrev pub judged : Bool → Check → Check → Check
judged true good bad = good
judged false good bad = bad

abbrev pub or_empty : Option Text → Text
or_empty none = []
or_empty (some t) = t

abbrev pub check_tx_matches_receipt : Text → Receipt → Check
check_tx_matches_receipt tx receipt =
    judged (text_eq tx receipt.settlement.tx_hash) (pass (codes "receipt.tx_match") from_receipt)
      (fail (codes "receipt.tx_match") from_receipt)

abbrev pub check_transaction_successful : HorizonTransaction → Check
check_transaction_successful tx =
    judged tx.successful (pass (codes "horizon.tx_successful") from_horizon)
      (fail (codes "horizon.tx_successful") from_horizon)

abbrev pub check_transaction_not_found : Check
check_transaction_not_found = fail (codes "horizon.tx_successful") from_horizon

-- The check and the payment operation, when there is exactly one operation and it is a payment.
abbrev pub single_operation : HorizonOperation → Check × Option HorizonOperation
single_operation op =
    if text_eq op.kind (codes "payment")
    then (pass (codes "horizon.single_payment") from_horizon, some op)
    else (fail (codes "horizon.single_payment") from_horizon, none)

abbrev pub only_operation : Bool → List HorizonOperation → Check × Option HorizonOperation
only_operation true (op ∷ []) = single_operation op
only_operation _ _ = (fail (codes "horizon.single_payment") from_horizon, none)

abbrev pub check_single_payment_operation :
    HorizonTransaction → List HorizonOperation → Check × Option HorizonOperation
check_single_payment_operation tx ops = only_operation (tx.operation_count == 1) ops

abbrev pub check_decision_not_found : Check
check_decision_not_found = fail (codes "rpc.decision_found") from_rpc

abbrev pub check_decision_found : ChainDecision → Check
check_decision_found d = pass (codes "rpc.decision_found") from_rpc

abbrev pub check_verdict_approved : ChainDecision → Check
check_verdict_approved d =
    judged (text_eq d.verdict (codes "Approved")) (pass (codes "rpc.verdict_approved") from_rpc)
      (fail (codes "rpc.verdict_approved") from_rpc)

abbrev pub check_settled : ChainDecision → Check
check_settled d =
    judged d.settled (pass (codes "rpc.settled") from_rpc) (fail (codes "rpc.settled") from_rpc)

-- `cmp`: the field's name when the two texts differ.
abbrev pub cmp : Text → Text → Text → List Text
cmp field expected actual = if text_eq expected actual then [] else field ∷ []

abbrev pub mismatches : ReceiptChain → ChainDecision → List Text
mismatches c d =
    cmp (codes "decision_id") (to_hex d.decision_id) c.decision_id
    ++ (cmp (codes "intent_hash") (to_hex d.intent_hash) c.intent_hash
        ++ (cmp (codes "policy_version") (to_decimal d.policy_version) (to_decimal c.policy_version)
            ++ (cmp (codes "agent") d.agent c.agent
                ++ (cmp (codes "service_id") d.service_id c.service_id
                    ++ (cmp (codes "asset") d.asset c.asset
                        ++ cmp (codes "amount") (to_decimal_ℤ d.amount) c.amount)))))

abbrev pub agreed : List Text → Check
agreed [] = pass (codes "rpc.receipt_matches_decision") from_rpc
agreed _ = fail (codes "rpc.receipt_matches_decision") from_rpc

abbrev pub check_receipt_matches_decision : Receipt → ChainDecision → Check
check_receipt_matches_decision receipt d = agreed (mismatches receipt.chain d)

abbrev pub check_contract_memo_hash : Bytes → Bytes → Check
check_contract_memo_hash contract_memo memo =
    judged (text_eq contract_memo memo) (pass (codes "rpc.contract_memo_hash") from_rpc)
      (fail (codes "rpc.contract_memo_hash") from_rpc)

abbrev pub check_receipt_memo_hash : Receipt → Bytes → Check
check_receipt_memo_hash receipt memo =
    judged (text_eq receipt.settlement.memo_hash (to_hex memo))
      (pass (codes "receipt.memo_hash") from_receipt)
      (fail (codes "receipt.memo_hash") from_receipt)

-- The amount paid, in stroops, against the amount that the contract authorized.
abbrev pub paid_amount : Result RangeError ℕ → ℤ → Check
paid_amount (err e) authorized = fail (codes "payment.amount") from_horizon
paid_amount (ok paid) authorized =
    judged (eqb_ℤ (pos paid) authorized) (pass (codes "payment.amount") from_horizon)
      (fail (codes "payment.amount") from_horizon)

abbrev pub amount_check : Option Text → ℤ → Check
amount_check none authorized = fail (codes "payment.amount") from_horizon
amount_check (some amount) authorized = paid_amount (parse_amount amount) authorized

abbrev pub check_payment_amount : HorizonOperation → ChainDecision → Check
check_payment_amount op d = amount_check op.amount d.amount

abbrev pub check_destination : HorizonOperation → Text → Check
check_destination op registry_destination =
    judged (text_eq (or_empty op.to) registry_destination)
      (pass (codes "payment.destination") from_registry)
      (fail (codes "payment.destination") from_registry)

abbrev pub check_source : HorizonTransaction → Text → Check
check_source tx executor =
    judged (text_eq tx.source_account executor) (pass (codes "payment.source") from_registry)
      (fail (codes "payment.source") from_registry)

abbrev pub check_settlement_order : ℕ → ℕ → Check
check_settlement_order mark_settled_ledger payment_ledger =
    judged (leb mark_settled_ledger payment_ledger) (pass (codes "strict.settle_order") from_rpc)
      (fail (codes "strict.settle_order") from_rpc)

abbrev pub check_replay : MemoScan → Text → Check
check_replay scan tx_hash =
    if not scan.exhaustive
    then unavailable (codes "replay.unique") from_horizon
    else (if not (any (text_eq tx_hash) scan.hashes)
        then fail (codes "replay.unique") from_horizon
        else (if ltb 1 (length scan.hashes)
            then fail (codes "replay.unique") from_horizon
            else pass (codes "replay.unique") from_horizon))

abbrev pub check_registry_contract : Text → Text → Check
check_registry_contract used registry_contract_id =
    judged (text_eq used registry_contract_id) (pass (codes "registry.contract") from_registry)
      (fail (codes "registry.contract") from_registry)

-- `Uint8Array.prototype.set`: bytes written at an offset; past the end it throws.
abbrev pub set_at : ℕ → Bytes → Bytes → Result RangeError Bytes
set_at offset bytes target =
    if leb (offset + length bytes) (length target)
    then ok (take offset target ++ (bytes ++ drop (offset + length bytes) target))
    else err range_error

-- The preimage that `checkReceiptPreimage` expects: 32 + 4 + 32 bytes.
unfoldable pub expected_preimage : ReceiptChain → Result RangeError Bytes
expected_preimage c = do
  intent ← from_hex c.intent_hash
  first ← set_at 0 intent (replicate 68 0)
  second ← set_at 32 (be_bytes 4 (c.policy_version % 2 ^ 32)) first
  decision ← from_hex c.decision_id
  set_at 36 decision second

module _ (s : Sources) where
  abbrev pub memo_of_length : Bytes → Option Bytes
  memo_of_length bytes = if length bytes == 32 then some bytes else none

  abbrev pub decoded : Option Text → Option Bytes
  decoded none = none
  decoded (some memo) =
      let bytes = s.from_base64 memo in
      if text_eq (s.to_base64 bytes) memo then memo_of_length bytes else none

  -- `decodeMemo`, without the text of the error.
  abbrev pub decode_memo : HorizonTransaction → Option Bytes
  decode_memo tx = decoded tx.memo

  abbrev pub memo_check : Option Bytes → Check × Option Bytes
  memo_check none = (fail (codes "horizon.memo_hash") from_horizon, none)
  memo_check (some memo) = (pass (codes "horizon.memo_hash") from_horizon, some memo)

  abbrev pub check_memo_is_hash32 : HorizonTransaction → Check × Option Bytes
  check_memo_is_hash32 tx =
      memo_check (if text_eq tx.memo_type (codes "hash") then decode_memo tx else none)

  -- A malformed field of the receipt throws.
  unfoldable pub check_memo_commitment : Receipt → Bytes → Result RangeError Check
  unfolding memo_hash
  check_memo_commitment receipt memo = do
    intent ← from_hex receipt.chain.intent_hash
    decision ← from_hex receipt.chain.decision_id
    computed ← memo_hash s.sha256 intent receipt.chain.policy_version decision
    ok (
        judged (text_eq computed memo) (pass (codes "commitment.memo_matches") from_derived)
          (fail (codes "commitment.memo_matches") from_derived))

  abbrev pub hashed : Bytes → Bytes → Bytes → Check
  hashed preimage expected memo =
      judged (text_eq preimage expected && text_eq (s.sha256 preimage) memo)
        (pass (codes "receipt.preimage") from_receipt)
        (fail (codes "receipt.preimage") from_receipt)

  unfoldable pub check_receipt_preimage : Receipt → Bytes → Result RangeError Check
  unfolding expected_preimage
  check_receipt_preimage receipt memo = do
    preimage ← from_hex receipt.settlement.memo_preimage
    expected ← expected_preimage receipt.chain
    ok (hashed preimage expected memo)

  abbrev pub derives : Option Text → Text → Check
  derives none authorized = fail (codes "payment.asset") from_derived
  derives (some derived) authorized =
      judged (text_eq derived authorized) (pass (codes "payment.asset") from_derived)
        (fail (codes "payment.asset") from_derived)

  abbrev pub issued_asset : Option Text → Option Text → Text → Text → Check
  issued_asset (some code) (some issuer) passphrase authorized =
      derives (s.asset_contract code issuer passphrase) authorized
  issued_asset _ _ passphrase authorized = fail (codes "payment.asset") from_horizon

  abbrev pub is_native : Option Text → Bool
  is_native none = false
  is_native (some t) = text_eq t (codes "native")

  abbrev pub check_payment_asset : HorizonOperation → Text → ChainDecision → Check
  check_payment_asset op passphrase d =
      if is_native op.asset_type
      then derives (some (s.native_contract passphrase)) d.asset
      else issued_asset op.asset_code op.asset_issuer passphrase d.asset

  unfoldable pub check_decision_id_derivation : ChainDecision → Result RangeError Check
  unfolding decision_id
  check_decision_id_derivation d = do
    derived ← decision_id s.sha256 d.intent_hash d.policy_version
    ok (
        judged (text_eq derived d.decision_id) (pass (codes "strict.decision_id") from_derived)
          (fail (codes "strict.decision_id") from_derived))
