-- ===== src/Executor/Receipt.antt =====
-- apps/executor/src/receipt.ts: the receipt that the executor writes.
pub mod Built
use aegis_phase.Prelude.{ℕ, Option, List, [], ◌∷◌, ◌++◌, Text, Bytes, codes}
use aegis_phase.Prelude.Result.{Result, ok, err, ◌>>=◌}
use aegis_phase.Canonical.Amount.{RangeError, to_decimal_ℤ}
use aegis_phase.Canonical.Bytes.{to_hex}
use aegis_phase.Canonical.Commitment.{memo_preimage}
use aegis_phase.Receipt.Validate.{Issue, parse_receipt}
use aegis_phase.Receipt.RoundTrip.{receipt_json}
use aegis_phase.Verifier.Sources.{Receipt}
use aegis_phase.Executor.World.{OnChainDecision}

pub record ReceiptInputs : Type 0 where
  pub decision : OnChainDecision
  pub network_passphrase : Text
  pub contract_id : Text
  pub horizon_url : Text
  pub rpc_url : Text
  pub tx_hash : Text
  pub memo_hash : Bytes
  pub source : Text
  pub destination : Text
  pub asset_code : Text
  pub asset_issuer : Text
  pub issued_at : Option Text

-- The byte writer's error, or the validator's.
pub data ReceiptError : Type 0 where
  out_of_range : RangeError → ReceiptError
  invalid_receipt : List Issue → ReceiptError

abbrev pub ranged : {A : Type 0} → Result RangeError A → Result ReceiptError A
ranged (ok a) = ok a
ranged (err e) = err (out_of_range e)

abbrev pub validated_or : {A : Type 0} → Result (List Issue) A → Result ReceiptError A
validated_or (ok a) = ok a
validated_or (err issues) = err (invalid_receipt issues)

-- The literal of `candidate`, with the bytes that `memoPreimage` returned.
abbrev pub candidate : ReceiptInputs → Bytes → Receipt
candidate input preimage = record {
  network = record {
    passphrase = input.network_passphrase;
    contract_id = input.contract_id;
    horizon = input.horizon_url;
    rpc = input.rpc_url;
  };
  chain = record {
    decision_id = to_hex input.decision.decision_id;
    intent_hash = to_hex input.decision.intent_hash;
    policy_version = input.decision.policy_version;
    agent = input.decision.agent;
    service_id = input.decision.service_id;
    asset = input.decision.asset;
    amount = to_decimal_ℤ input.decision.amount;
  };
  settlement = record {
    tx_hash = input.tx_hash;
    memo_hash = to_hex input.memo_hash;
    memo_preimage = to_hex preimage;
    source = input.source;
    destination = input.destination;
    asset = input.asset_code ++ (b':' ∷ input.asset_issuer);
  };
  issued_at = input.issued_at;
}

module _ (protocol : Text → Option Text) where
  -- `buildReceipt`.
  unfoldable pub build_receipt : ReceiptInputs → Result ReceiptError Receipt
  unfolding parse_receipt
  build_receipt input = do
    preimage ← ranged (
        memo_preimage input.decision.intent_hash input.decision.policy_version
          input.decision.decision_id)
    validated_or (parse_receipt protocol (receipt_json (candidate input preimage)))
