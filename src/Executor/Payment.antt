-- ===== src/Executor/Payment.antt =====
-- apps/executor/src/payment.ts: the payment that settles a decision.
pub mod Prepared
use aegis_phase.Prelude.{ℕ, not, Text, Bytes, codes, length, ◌==◌}
use aegis_phase.Prelude.Result.{Result, ok, ◌>>◌, throw_if}
use aegis_phase.Prelude.Int.{ℤ, pos, leb_ℤ, ltb_ℤ}
use aegis_phase.Canonical.Amount.{format_amount}
use aegis_phase.Executor.Errors.{Thrown, settlement, amount_out_of_range, memo_mismatch}
use aegis_phase.Executor.World.{ExecutorConfig, RegistryAsset, Transaction, Sdk}

abbrev pub max_int64_stroops : ℤ
max_int64_stroops = pos 9223372036854775807

abbrev pub payment_fee_stroops : ℕ
payment_fee_stroops = 100000

pub record PreparedPayment : Type 0 where
  pub tx_hash : Text
  pub envelope_xdr : Text
  pub source : Text
  pub sequence : Text
  pub max_time : ℕ
  pub destination : Text
  pub amount_stroops : ℤ
  pub amount_decimal : Text
  pub memo_hash : Bytes

-- `assertPayableAmount`.
unfoldable pub assert_payable_amount : ℤ → Result Thrown (Unit {0})
assert_payable_amount stroops = do
  throw_if (leb_ℤ stroops (pos 0)) (settlement amount_out_of_range)
  throw_if (ltb_ℤ max_int64_stroops stroops) (settlement amount_out_of_range)

-- `deriveSac`: the contract address of the asset, from the network's passphrase.
unfoldable pub derive_sac : Sdk → Text → Text → Text → Text
derive_sac sdk code issuer passphrase = sdk.contract_of code issuer passphrase

abbrev pub transaction_for :
    ExecutorConfig → RegistryAsset → Text → Text → Text → Bytes → ℕ → Transaction
transaction_for config asset current_sequence destination amount_decimal memo max_time = record {
  source = config.executor;
  current_sequence = current_sequence;
  fee = codes "100000";
  network_passphrase = config.network_passphrase;
  memo = memo;
  destination = destination;
  asset_code = asset.code;
  asset_issuer = asset.issuer;
  amount = amount_decimal;
  max_time = max_time;
}

-- `preparePayment`.
unfoldable pub prepare_payment :
    Sdk
    → ExecutorConfig
    → RegistryAsset
    → Text
    → Text
    → ℤ
    → Bytes
    → ℕ
    → Result Thrown PreparedPayment
unfolding assert_payable_amount
prepare_payment sdk config asset current_sequence destination amount memo max_time = do
  assert_payable_amount amount
  throw_if (not (length memo == 32)) (settlement memo_mismatch)
  let decimal = format_amount amount
  let tx = transaction_for config asset current_sequence destination decimal memo max_time
  ok (record {
    tx_hash = sdk.hash_of tx;
    envelope_xdr = sdk.envelope_of tx;
    source = config.executor;
    sequence = sdk.sequence_of tx;
    max_time = max_time;
    destination = destination;
    amount_stroops = amount;
    amount_decimal = decimal;
    memo_hash = memo;
  })
