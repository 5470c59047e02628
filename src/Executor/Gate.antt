-- ===== src/Executor/Gate.antt =====
-- apps/executor/src/settle.ts, first half: what is checked before anything is written.
pub mod Accepted
pub mod Published
use aegis_phase.Prelude.{
  ℕ, ◌+◌, ◌/◌, Bool, true, false, not, Option, none, some, Text, Bytes, codes, text_eq, find,
  if◌then◌else◌, leb, ltb,
}
use aegis_phase.Prelude.Result.{Result, ok, err}
use aegis_phase.Prelude.Int.{pos, ltb_ℤ}
use aegis_phase.Canonical.Amount.{RangeError, parse_amount}
use aegis_phase.Canonical.Bytes.{to_hex, from_hex}
use aegis_phase.Canonical.Commitment.{memo_hash}
use aegis_phase.Executor.Errors.{
  Thrown, other, contract_mismatch, source_mismatch, config_invalid, registry_invalid,
  decision_not_found, not_approved, unknown_service, asset_mismatch, memo_mismatch,
  preflight_failed,
}
use aegis_phase.Executor.Exec.{Exec, pure, lift, gets, modify, refuse_if, require, ◌>>=◌, ◌>>◌}
use aegis_phase.Executor.World.{
  Verdict, approved, OnChainDecision, HorizonBalance, HorizonAccount, trustline, destination_for,
  Deps, World, read_decision, call, note_event,
}
use aegis_phase.Executor.Payment.{assert_payable_amount, derive_sac, payment_fee_stroops}

pub record Gated : Type 0 where
  pub decision : OnChainDecision
  pub destination : Text
  pub memo : Bytes

-- A `RangeError` of the canonical package is no `SettlementError`.
abbrev pub uncaught : {A : Type 0} → Result RangeError A → Result Thrown A
uncaught (ok a) = ok a
uncaught (err e) = err other

abbrev pub is_approved : Verdict → Bool
is_approved approved = true
is_approved _ = false

abbrev pub is_false : Option Bool → Bool
is_false (some false) = true
is_false _ = false

module _ (d : Deps) where
  -- `assertConfigAgreesWithRegistry`.
  unfoldable pub assert_config_agrees_with_registry : Exec (World d) (Unit {0})
  unfolding derive_sac
  assert_config_agrees_with_registry = do
    refuse_if (not (text_eq registry.contract_id config.contract_id)) contract_mismatch
    refuse_if (not (text_eq registry.executor_account config.executor)) source_mismatch
    refuse_if (not (text_eq registry.network_passphrase config.network_passphrase)) config_invalid
    refuse_if
        (not (
          text_eq
            (derive_sac d.sdk registry.asset.code registry.asset.issuer config.network_passphrase)
            registry.asset.sac))
        registry_invalid
    where
      open d use {registry, config}

  -- `chain.getDecision`, with what it returned noted under the id that was asked for.
  unfoldable pub read : Text → Bytes → Exec (World d) OnChainDecision
  read id id_bytes = do
    found ← call d (λ n. d.chain.get_decision n id_bytes)
    decision ← require found decision_not_found
    modify (note_event d (read_decision id decision))
    pure decision

  -- The checks of `gate` that make no call.
  unfoldable pub judge : Text → OnChainDecision → Exec (World d) Gated
  unfolding assert_payable_amount destination_for derive_sac memo_hash
  judge id decision = do
    refuse_if (not (text_eq (to_hex decision.decision_id) id)) decision_not_found
    refuse_if (not (is_approved decision.verdict)) not_approved
    lift (assert_payable_amount decision.amount)
    destination ← require (destination_for d.registry decision.service_id) unknown_service
    refuse_if
        (not (
          text_eq
            (derive_sac d.sdk d.registry.asset.code d.registry.asset.issuer
              d.config.network_passphrase)
            decision.asset))
        asset_mismatch
    memo ← lift (
        uncaught (
          memo_hash d.sdk.sha256 decision.intent_hash decision.policy_version decision.decision_id))
    pure (record { decision = decision; destination = destination; memo = memo })

  -- `gate`.
  unfoldable pub gate : Text → Exec (World d) Gated
  unfolding read judge
  gate id = do
    id_bytes ← lift (uncaught (from_hex id))
    decision ← read id id_bytes
    g ← judge id decision
    on_chain ← call d (λ n. d.chain.memo_hash n id_bytes)
    refuse_if (not (text_eq g.memo on_chain)) memo_mismatch
    pure g

  -- The account exists, and has an authorized trustline for the settlement asset.
  unfoldable pub funded : Text → Exec (World d) (HorizonAccount × HorizonBalance)
  unfolding trustline
  funded account_id = do
    found ← call d (λ n. d.horizon.account n account_id)
    account ← require found preflight_failed
    line ←
        require (trustline account d.registry.asset.code d.registry.asset.issuer) preflight_failed
    refuse_if (is_false line.is_authorized) preflight_failed
    pure (account, line)

  unfoldable pub covers_fee : Option HorizonBalance → Exec (World d) (Unit {0})
  covers_fee none = pure tt
  covers_fee (some native) = do
    balance ← lift (uncaught (parse_amount native.balance))
    refuse_if (ltb balance payment_fee_stroops) preflight_failed

  -- `preflight`; the result is the sequence number of the source account.
  unfoldable pub preflight : Gated → Exec (World d) Text
  unfolding funded covers_fee
  preflight g = do
    (from, line) ← funded d.config.executor
    balance ← lift (uncaught (parse_amount line.balance))
    refuse_if (ltb_ℤ (pos balance) g.decision.amount) preflight_failed
    covers_fee (find (λ b. text_eq b.asset_type (codes "native")) from.balances)
    to ← funded g.destination
    pure from.sequence

  -- `chooseMaxTime`; `now()` is the clock in whole seconds.
  unfoldable pub choose_max_time : Exec (World d) ℕ
  choose_max_time = do
    ledger_now ← call d d.horizon.latest_ledger_close_time
    now ← gets (λ w. w.clock / 1000)
    pure ((if leb now ledger_now then ledger_now else now) + d.config.timeout_seconds)
