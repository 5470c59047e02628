-- ===== src/Gateway/Server/Stores.antt =====
-- The operations of the store of apps/gateway/src/db/store.ts that a handler of server.ts makes, one
-- after another: those that read, and those that write what came of an intent.
use aegis_phase.Prelude.{ℕ, Text}
use aegis_phase.Gateway.Store.{DecisionRow, ApprovalRow, FailureRow, IntentStore}

module _ (S : IntentStore) where
  -- From the first state to the second by lookups alone.
  pub data Looks : S.State → S.State → Type 0 where
    no_look : {s : S.State} → Looks s s
    looks_up : {s s' : S.State} (hash : Text) → Looks s s' → Looks s (S.intent_by_hash hash s').1
    lists : {s s' : S.State} (limit : ℕ) → Looks s s' → Looks s (S.approval_candidates limit s').1

  -- From the first state to the second by what follows an intent.
  pub data Updates : S.State → S.State → Type 0 where
    no_update : {s : S.State} → Updates s s
    decides :
        {s s' : S.State} (row : DecisionRow) → Updates s s' → Updates s (S.record_decision row s')
    queues :
        {s s' : S.State} (now : ℕ) (row : ApprovalRow)
        → Updates s s'
        → Updates s (S.enqueue_approval now row s')
    fails : {s s' : S.State} (row : FailureRow) → Updates s s' → Updates s (S.record_failure row s')
