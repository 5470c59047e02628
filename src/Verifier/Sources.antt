-- ===== src/Verifier/Sources.antt =====
-- What the verifier reads: the values of tools/verifier/src/horizon.ts, chain.ts, registry.ts and
-- args.ts, the receipt of packages/receipt/src/types.ts, and the sources as functions.
use aegis_phase.Prelude.{ℕ, Bool, Option, none, some, List, Text, Bytes, text_eq, find}
use aegis_phase.Prelude.Result.{Result}
use aegis_phase.Prelude.Int.{ℤ}

pub record HorizonTransaction : Type 0 where
  pub hash : Text
  pub successful : Bool
  pub ledger : ℕ
  pub created_at : Text
  pub source_account : Text
  pub operation_count : ℕ
  pub memo_type : Text
  pub memo : Option Text

-- `type` is a keyword here: `kind`.
pub record HorizonOperation : Type 0 where
  pub kind : Text
  pub from : Option Text
  pub to : Option Text
  pub amount : Option Text
  pub asset_type : Option Text
  pub asset_code : Option Text
  pub asset_issuer : Option Text

pub record MemoScan : Type 0 where
  pub hashes : List Text
  pub accounts : List Text
  pub exhaustive : Bool

pub record ChainDecision : Type 0 where
  pub decision_id : Bytes
  pub intent_hash : Bytes
  pub agent : Text
  pub service_id : Text
  pub asset : Text
  pub amount : ℤ
  pub policy_version : ℕ
  pub verdict : Text
  pub reason_code : Text
  pub original_reason_code : Text
  pub ledger_seq : ℕ
  pub resolved : Bool
  pub settled : Bool

-- `SourceUnavailableError` and the like: a source that gave no answer.
pub data Outage : Type 0 where
  outage : Outage

-- `none` is "not-found", which is an answer.
pub record ChainReader : Type 0 where
  pub get_decision : Bytes → Result Outage (Option ChainDecision)
  pub memo_hash : Bytes → Result Outage (Option Bytes)
  pub decision_entry_last_modified_ledger : Bytes → Result Outage (Option ℕ)

pub record ServiceRegistry : Type 0 where
  pub path : Text
  pub executor : Option Text
  pub contract_id : Option Text
  pub services : List (Text × Text)

abbrev value_of : Option (Text × Text) → Option Text
value_of none = none
value_of (some (k, v)) = some v

-- `registry.services.get`.
unfoldable pub service_of : ServiceRegistry → Text → Option Text
unfolding find
service_of registry service_id =
    value_of (find (λ entry. text_eq entry.0 service_id) registry.services)

pub record ReceiptNetwork : Type 0 where
  pub passphrase : Text
  pub contract_id : Text
  pub horizon : Text
  pub rpc : Text

pub record ReceiptChain : Type 0 where
  pub decision_id : Text
  pub intent_hash : Text
  pub policy_version : ℕ
  pub agent : Text
  pub service_id : Text
  pub asset : Text
  pub amount : Text

pub record ReceiptSettlement : Type 0 where
  pub tx_hash : Text
  pub memo_hash : Text
  pub memo_preimage : Text
  pub source : Text
  pub destination : Text
  pub asset : Text

pub record Receipt : Type 0 where
  pub network : ReceiptNetwork
  pub chain : ReceiptChain
  pub settlement : ReceiptSettlement
  pub issued_at : Option Text

pub record CliOptions : Type 0 where
  pub tx : Text
  pub receipt : Text
  pub horizon : Option Text
  pub rpc : Option Text
  pub contract : Option Text
  pub network : Option Text
  pub registry : Option Text
  pub json : Bool
  pub strict : Bool

-- A page of an account's transactions, with the address of the next one.
pub record Page : Type 0 where
  pub records : List HorizonTransaction
  pub next : Option Text

-- The file system, Horizon, the contract, `parseReceiptJson`, and the libraries: SHA-256, base64,
-- and the contract address of an asset (`new Asset` throws on what is no code or no issuer).
pub record Sources : Type 0 where
  pub read_file : Text → Result Outage Text
  pub parse_receipt_json : Text → Option Receipt
  pub fetch_transaction : Text → Text → Result Outage (Option HorizonTransaction)
  pub fetch_operations : Text → Text → Result Outage (List HorizonOperation)
  pub fetch_page : Text → Result Outage (Option Page)
  pub connect : Text → Text → Text → Result Outage ChainReader
  pub find_registry_path : Option Text → Text → Option Text
  pub load_registry : Text → Result Outage ServiceRegistry
  pub sha256 : Bytes → Bytes
  pub to_base64 : Bytes → Text
  pub from_base64 : Text → Bytes
  pub native_contract : Text → Text
  pub asset_contract : Text → Text → Text → Option Text
