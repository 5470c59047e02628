-- ===== src/Executor/Errors.antt =====
-- apps/executor/src/errors.ts: the closed set of codes with which a settlement refuses, and all
-- that a step of the executor can throw. Messages and the `expected` and `actual` texts are left
-- out: no code reads them back.
use aegis_phase.Prelude.{Bool, true, false}

pub data SettlementErrorCode : Type 0 where
  decision_not_found not_approved already_settled asset_mismatch : SettlementErrorCode
  amount_out_of_range unknown_service memo_mismatch preflight_failed : SettlementErrorCode
  config_invalid registry_invalid source_mismatch contract_mismatch : SettlementErrorCode
  lock_held mark_settled_failed submit_failed non_inclusion_proven : SettlementErrorCode
  inclusion_unknown store_conflict abandoned source_unavailable : SettlementErrorCode

-- Membership in `GATE_CODES`.
unfoldable pub is_gate_code : SettlementErrorCode → Bool
is_gate_code decision_not_found = true
is_gate_code not_approved = true
is_gate_code already_settled = true
is_gate_code asset_mismatch = true
is_gate_code amount_out_of_range = true
is_gate_code unknown_service = true
is_gate_code memo_mismatch = true
is_gate_code preflight_failed = true
is_gate_code _ = false

-- `settlement` is a `SettlementError`, `lock_busy` a `LockBusyError`, `other` any other exception
-- (`RangeError`, `ReceiptValidationError`, a fault of the disk). `died` is the end of the process,
-- which no code catches, and `still_polling` says that the model's fuel for polling ran out.
pub data Thrown : Type 0 where
  settlement : SettlementErrorCode → Thrown
  lock_busy other died still_polling : Thrown

pub Code-discrete : Discrete SettlementErrorCode
Code-discrete = hlevel
