-- ===== src/Executor/World.antt =====
-- What the executor works with: the interfaces of apps/executor/src/chain.ts, horizon.ts, config.ts
-- and registry.ts, `ExecutorDeps` of settle.ts, and the state that its actions change.
-- Every answer of the outside is a function of the number of the call, so a theorem for all
-- `Deps` covers every environment: outages, lies, and the end of the process at any call.
use aegis_phase.Prelude.{
  ℕ, suc, ◌+◌, Bool, true, false, ◌&&◌, Option, none, some, List, ◌∷◌, Text, Bytes, text_eq, find,
}
use aegis_phase.Prelude.Result.{Result, ok, err}
use aegis_phase.Prelude.Int.{ℤ}
use aegis_phase.Executor.Errors.{Thrown, died}
use aegis_phase.Executor.Exec.{Exec}
use aegis_phase.Executor.Store.{SettlementRecord, SettlementStore}

pub data Verdict : Type 0 where
  approved rejected requires_approval : Verdict

pub record OnChainDecision : Type 0 where
  pub decision_id : Bytes
  pub intent_hash : Bytes
  pub agent : Text
  pub service_id : Text
  pub asset : Text
  pub amount : ℤ
  pub policy_version : ℕ
  pub verdict : Verdict
  pub settled : Bool
  pub resolved : Bool
  pub ledger_seq : ℕ

-- A method takes the number of the call first; `none` is "not-found".
pub record ChainClient : Type 0 where
  pub get_decision : ℕ → Bytes → Result Thrown (Option OnChainDecision)
  pub memo_hash : ℕ → Bytes → Result Thrown Bytes
  pub mark_settled : ℕ → Bytes → Result Thrown ℕ

pub record HorizonBalance : Type 0 where
  pub balance : Text
  pub asset_type : Text
  pub asset_code : Option Text
  pub asset_issuer : Option Text
  pub is_authorized : Option Bool

pub record HorizonAccount : Type 0 where
  pub id : Text
  pub sequence : Text
  pub balances : List HorizonBalance

pub record HorizonTransaction : Type 0 where
  pub hash : Text
  pub ledger : ℕ
  pub successful : Bool

pub data SubmitOutcome : Type 0 where
  included : (hash : Text) (ledger : ℕ) (successful : Bool) → SubmitOutcome
  unknown rejected : SubmitOutcome

pub record HorizonClient : Type 0 where
  pub account : ℕ → Text → Result Thrown (Option HorizonAccount)
  pub transaction : ℕ → Text → Result Thrown (Option HorizonTransaction)
  pub submit : ℕ → Text → Result Thrown SubmitOutcome
  pub latest_ledger_close_time : ℕ → Result Thrown ℕ

abbrev is_text : Option Text → Text → Bool
is_text none t = false
is_text (some s) t = text_eq s t

-- The trustline of `code` and `issuer`, if the account holds one.
unfoldable pub trustline : HorizonAccount → Text → Text → Option HorizonBalance
unfolding find
trustline account code issuer =
    find (λ b. is_text b.asset_code code && is_text b.asset_issuer issuer) account.balances

-- `executor` is the public key of the account that signs and sources the payment.
pub record ExecutorConfig : Type 0 where
  pub network_passphrase : Text
  pub rpc_url : Text
  pub horizon_url : Text
  pub contract_id : Text
  pub executor : Text
  pub timeout_seconds : ℕ

pub record RegistryAsset : Type 0 where
  pub code : Text
  pub issuer : Text
  pub sac : Text

pub record ServiceRegistry : Type 0 where
  pub network_passphrase : Text
  pub contract_id : Text
  pub executor_account : Text
  pub asset : RegistryAsset
  pub destinations : List (Text × Text)

abbrev pub second : Option (Text × Text) → Option Text
second none = none
second (some (k, v)) = some v

unfoldable pub destination_for : ServiceRegistry → Text → Option Text
unfolding find
destination_for registry service_id =
    second (find (λ entry. text_eq entry.0 service_id) registry.destinations)

-- What `TransactionBuilder` is given, with the `Payment` operation and the memo.
pub record Transaction : Type 0 where
  pub source : Text
  pub current_sequence : Text
  pub fee : Text
  pub network_passphrase : Text
  pub memo : Bytes
  pub destination : Text
  pub asset_code : Text
  pub asset_issuer : Text
  pub amount : Text
  pub max_time : ℕ

-- `@stellar/stellar-sdk` and `node:crypto`: the address of an asset's contract, the hash, the
-- signed bytes and the sequence number of a transaction, and SHA-256.
pub record Sdk : Type 0 where
  pub contract_of : Text → Text → Text → Text
  pub hash_of : Transaction → Text
  pub envelope_of : Transaction → Text
  pub sequence_of : Transaction → Text
  pub sha256 : Bytes → Bytes

-- What a write of the journal meets: `dies_after` is a process that ends when the commit is on
-- disk and before the call returns.
pub data Disk : Type 0 where
  healthy fails dies_before dies_after : Disk

-- `ExecutorDeps`, with the passing of time: the milliseconds that a call takes, and the text of a
-- time; and the protocol of a URL, for the validator of receipts.
pub record Deps : Type 1 where
  pub config : ExecutorConfig
  pub registry : ServiceRegistry
  pub chain : ChainClient
  pub store : SettlementStore
  pub horizon : HorizonClient
  pub sdk : Sdk
  pub disk : ℕ → Disk
  pub elapsed : ℕ → ℕ
  pub iso : ℕ → Text
  pub protocol : Text → Option Text

-- What a run has done so far, the latest first; the code keeps no such list. `posted` has the
-- decision and the bytes that were POSTed for it.
pub data Event : Type 0 where
  read_decision : Text → OnChainDecision → Event
  committed : SettlementRecord → Event
  moved : SettlementRecord → Event
  mark_called : Text → Event
  mark_confirmed : Text → Event
  posted : Text → Text → Event

pub record World (d : Deps) : Type 0 where
  pub journal : d.store.State
  pub log : List Event
  pub tick : ℕ
  pub clock : ℕ
  pub held : List Text

module _ (d : Deps) where
  abbrev pub tock : World d → World d
  tock w = record w { tick = suc w.tick; clock = w.clock + d.elapsed w.tick }

  abbrev pub note_event : Event → World d → World d
  note_event e w = record w { log = e ∷ w.log }

  -- A call of the outside.
  unfoldable pub call : {A : Type 0} → (ℕ → Result Thrown A) → Exec (World d) A
  call f w = (f w.tick, tock w)

  unfoldable pub landed :
      World d
      → (SettlementRecord → Event)
      → Bool
      → Result Thrown (SettlementRecord × d.store.State)
      → Result Thrown SettlementRecord × World d
  landed w event false (ok (r, s)) = (ok r, note_event (event r) (record (tock w) { journal = s }))
  landed w event true (ok (r, s)) =
      (err died, note_event (event r) (record (tock w) { journal = s }))
  landed w event dies (err e) = (err e, tock w)

  unfoldable pub on_disk :
      Disk
      → Thrown
      → World d
      → (SettlementRecord → Event)
      → Result Thrown (SettlementRecord × d.store.State)
      → Result Thrown SettlementRecord × World d
  on_disk healthy failure w event r = landed w event false r
  on_disk fails failure w event r = (err failure, tock w)
  on_disk dies_before failure w event r = (err died, tock w)
  on_disk dies_after failure w event r = landed w event true r

  -- A write of the journal, at the present time, with what a fault of the disk becomes.
  unfoldable pub write :
      Thrown
      → (SettlementRecord → Event)
      → (Text → d.store.State → Result Thrown (SettlementRecord × d.store.State))
      → Exec (World d) SettlementRecord
  write failure event op w = on_disk (d.disk w.tick) failure w event (op (d.iso w.clock) w.journal)
