-- ===== src/Executor/Payment/Prepared.antt =====
-- What a prepared payment pays.
use aegis_phase.Prelude.{
  ℕ, ◌≤◌, ◌<◌, ◌≡◌, refl, ap, ◌∙◌, Bool, true, false, not, Text, Bytes, length, ◌==◌, arith,
}
use mathlib.Core.Path.{subst}
use aegis_phase.Prelude.Result.{ok, ok-injective, >>=-eq-ok, throw_if}
use aegis_phase.Prelude.Int.{ℤ, pos, negsuc, leb_ℤ, ltb_ℤ}
use aegis_phase.Canonical.Amount.{parse_amount, format_amount}
use aegis_phase.Canonical.Amount.RoundTrip.{parse_amount-format_amount}
use aegis_phase.Executor.Errors.{settlement, amount_out_of_range, memo_mismatch}
use aegis_phase.Executor.World.{ExecutorConfig, RegistryAsset, Transaction, Sdk}
use aegis_phase.Executor.Payment.{
  max_int64_stroops, PreparedPayment, assert_payable_amount, transaction_for, prepare_payment,
}

-- A positive amount that a payment can carry.
pub record Payable (a : ℤ) : Type 0 where
  pub stroops : ℕ
  pub is_stroops : a ≡ pos stroops
  pub positive : 0 < stroops
  pub bounded : stroops ≤ 9223372036854775807

throw_if-ok : {E : Type 0} (b : Bool) (e : E) {u : Unit {0}} → throw_if b e ≡ ok u → b ≡ false
throw_if-ok true e h = cc
throw_if-ok false e h = refl

pub assert_payable_amount-Payable :
    (a : ℤ) {u : Unit {0}} → assert_payable_amount a ≡ ok u → Payable a
unfolding assert_payable_amount
assert_payable_amount-Payable (pos n) h =
    let e = settlement amount_out_of_range in
    let (_, h1, h2) = >>=-eq-ok (throw_if (leb_ℤ (pos n) (pos 0)) e) _ h in
    let low = throw_if-ok (leb_ℤ (pos n) (pos 0)) e h1 in
    let high = throw_if-ok (ltb_ℤ max_int64_stroops (pos n)) e h2 in
    record { stroops = n; is_stroops = refl; positive = ground arith; bounded = ground arith }
assert_payable_amount-Payable (negsuc n) h = cc

length-memo : (memo : Bytes) → not (length memo == 32) ≡ false → length memo ≡ 32
length-memo memo h = ground arith

-- A payment of an amount to a destination.
pub record Pays (sdk : Sdk) (config : ExecutorConfig) (asset : RegistryAsset)
    (sequence destination : Text) (amount : ℤ) (memo : Bytes) (max_time : ℕ) (p : PreparedPayment)
    : Type 0 where
  pub payable : Payable amount
  pub written : parse_amount p.amount_decimal ≡ ok payable.stroops
  pub memo_length : length memo ≡ 32
  pub tx : Transaction
  pub bytes : p.envelope_xdr ≡ sdk.envelope_of tx
  pub hash : p.tx_hash ≡ sdk.hash_of tx
  pub numbered : p.sequence ≡ sdk.sequence_of tx
  pub from : tx.source ≡ config.executor
  pub to : tx.destination ≡ destination
  pub paid : parse_amount tx.amount ≡ ok payable.stroops
  pub in_asset : (tx.asset_code ≡ asset.code) × (tx.asset_issuer ≡ asset.issuer)
  pub with_memo : tx.memo ≡ memo
  pub after_sequence : tx.current_sequence ≡ sequence
  pub valid_until : (tx.max_time ≡ max_time) × (p.max_time ≡ max_time)
  pub on_network : tx.network_passphrase ≡ config.network_passphrase
  pub sourced : p.source ≡ config.executor
  pub noted : p.amount_stroops ≡ amount
  pub addressed : p.destination ≡ destination
  pub carried : p.memo_hash ≡ memo

-- The bytes, the hash and the sequence number of a prepared payment are those of one transaction on
-- the configured network, which pays the given destination from the executor's account, in the
-- registry's asset, an amount that reads back as the given number of stroops, above 0 and at most
-- int64, with the given memo, of 32 bytes, after the given sequence number and until the given time;
-- and the record of the payment says the same source, destination, amount, memo and time.
pub prepare_payment-Pays :
    (sdk : Sdk) (config : ExecutorConfig) (asset : RegistryAsset) (sequence destination : Text)
    (amount : ℤ) (memo : Bytes) (max_time : ℕ) (p : PreparedPayment)
    → prepare_payment sdk config asset sequence destination amount memo max_time ≡ ok p
    → Pays sdk config asset sequence destination amount memo max_time p
unfolding prepare_payment
prepare_payment-Pays sdk config asset sequence destination amount memo max_time p h =
    let (_, e0, r0) = >>=-eq-ok (assert_payable_amount amount) _ h in
    let (_, e1, r1) =
      >>=-eq-ok (throw_if (not (length memo == 32)) (settlement memo_mismatch)) _ r0 in
    let payable = assert_payable_amount-Payable amount e0 in
    subst (Pays sdk config asset sequence destination amount memo max_time) (ok-injective r1)
      (record {
        payable = payable;
        written =
            ap (λ a. parse_amount (format_amount a)) payable.is_stroops
            ∙ parse_amount-format_amount payable.stroops;
        memo_length = length-memo memo (throw_if-ok _ _ e1);
        tx = transaction_for config asset sequence destination (format_amount amount) memo max_time;
        bytes = refl;
        hash = refl;
        numbered = refl;
        from = refl;
        to = refl;
        paid =
            ap (λ a. parse_amount (format_amount a)) payable.is_stroops
            ∙ parse_amount-format_amount payable.stroops;
        in_asset = (refl, refl);
        with_memo = refl;
        after_sequence = refl;
        valid_until = (refl, refl);
        on_network = refl;
        sourced = refl;
        noted = refl;
        addressed = refl;
        carried = refl;
      })
