-- ===== src/Executor/Settle.antt =====
-- apps/executor/src/settle.ts, second half: the settlement state machine.
pub mod Invariant
pub mod Gating
pub mod Steps
pub mod Flow
pub mod Runs
pub mod Safety
pub mod Polling
pub mod Locking
mod Tests
use aegis_phase.Prelude.{
  ℕ, zero, suc, ◌+◌, ◌/◌, Bool, true, false, ◌&&◌, ◌||◌, Option, none, some, ◌++◌, Text, codes, all,
  length, ◌==◌, leb, ltb, if◌then◌else◌,
}
use aegis_phase.Prelude.Result.{Result, ok, err}
use aegis_phase.Canonical.Amount.{to_decimal, to_decimal_ℤ, is_digit}
use aegis_phase.Canonical.Bytes.{to_hex}
use aegis_phase.Executor.Errors.{
  Thrown, other, still_polling, abandoned as abandoned_error, submit_failed, non_inclusion_proven,
  inclusion_unknown, already_settled, store_conflict, config_invalid,
}
use aegis_phase.Executor.Exec.{Exec, pure, raise, fail, lift, gets, modify, ◌>>=◌, ◌>>◌}
use aegis_phase.Executor.Store.{
  SettlementStatus, prepared, marked, submitted, settled, abandoned, is_terminal, Draft,
  SettlementRecord, SettlementPatch,
}
use aegis_phase.Executor.World.{
  SubmitOutcome, included, unknown, rejected, Deps, World, committed, moved, mark_called,
  mark_confirmed, posted, tock, note_event, call, write,
}
use aegis_phase.Executor.Payment.{PreparedPayment, prepare_payment}
use aegis_phase.Verifier.Sources.{Receipt}
use aegis_phase.Executor.Receipt.{ReceiptError, build_receipt}
use aegis_phase.Executor.Lock.{with_lock, catch_busy}
use aegis_phase.Executor.Gate.{
  Gated, gate, preflight, choose_max_time, assert_config_agrees_with_registry,
}

pub record SettleOptions : Type 0 where
  pub dry_run : Bool
  pub confirm_timeout_ms : ℕ

-- `DEFAULT_CONFIRM_TIMEOUT_MS` and `POLL_INTERVAL_MS`.
abbrev pub default_confirm_timeout_ms : ℕ
default_confirm_timeout_ms = 90000

abbrev pub poll_interval_ms : ℕ
poll_interval_ms = 2000

pub record SettleResult : Type 0 where
  pub decision_id : Text
  pub tx_hash : Text
  pub memo_hash : Text
  pub status : SettlementStatus
  pub dry_run : Bool
  pub destination : Text
  pub amount_stroops : Text
  pub ledger : Option ℕ
  pub mark_settled_ledger : Option ℕ
  pub receipt : Receipt

-- `/^[0-9a-f]{64}$/`.
unfoldable pub is_decision_id : Text → Bool
unfolding all
is_decision_id id = length id == 64 && all (λ c. is_digit c || (leb b'a' c && leb c b'f')) id

abbrev pub no_patch : SettlementPatch
no_patch = record { ledger = none; note = none }

abbrev pub note_patch : Text → SettlementPatch
note_patch n = record { ledger = none; note = some n }

abbrev pub ledger_patch : ℕ → SettlementPatch
ledger_patch n = record { ledger = some n; note = none }

abbrev pub failed_patch : ℕ → SettlementPatch
failed_patch n = record {
  ledger = some n;
  note = some (
      codes "included but unsuccessful — no payment; decision is settled and needs reconciliation");
}

-- Polling makes one round per interval until the deadline, so these rounds are enough.
abbrev pub rounds_for : ℕ → ℕ
rounds_for timeout_ms = timeout_ms / poll_interval_ms + 2

-- A `RangeError` or a `ReceiptValidationError` is no `SettlementError`.
abbrev pub unreceipted : {A : Type 0} → Result ReceiptError A → Result Thrown A
unreceipted (ok a) = ok a
unreceipted (err e) = err other

module _ (d : Deps) where
  -- `receiptFor`, at the present time.
  pub receipt_for : Gated → Text → Text → Result Thrown Receipt
  unfolding build_receipt
  receipt_for g tx_hash now = unreceipted (
      build_receipt d.protocol record {
        decision = g.decision;
        network_passphrase = d.config.network_passphrase;
        contract_id = d.config.contract_id;
        horizon_url = d.config.horizon_url;
        rpc_url = d.config.rpc_url;
        tx_hash = tx_hash;
        memo_hash = g.memo;
        source = d.config.executor;
        destination = g.destination;
        asset_code = d.registry.asset.code;
        asset_issuer = d.registry.asset.issuer;
        issued_at = some now;
      })

  -- `result`: it throws where the receipt does.
  pub result : Gated → SettlementRecord → Bool → Option ℕ → Exec (World d) SettleResult
  unfolding receipt_for to_decimal_ℤ to_hex
  result g r dry_run mark_settled_ledger = do
    now ← gets (λ w. d.iso w.clock)
    receipt ← lift (receipt_for g r.tx_hash now)
    pure (record {
      decision_id = to_hex g.decision.decision_id;
      tx_hash = r.tx_hash;
      memo_hash = to_hex g.memo;
      status = r.status;
      dry_run = dry_run;
      destination = g.destination;
      amount_stroops = to_decimal_ℤ g.decision.amount;
      ledger = r.ledger;
      mark_settled_ledger = mark_settled_ledger;
      receipt = receipt;
    })

  pub advance : Text → SettlementStatus → SettlementPatch → Exec (World d) SettlementRecord
  advance id status patch = write d other moved (λ now. d.store.advance now id status patch)

  pub draft_of : Gated → PreparedPayment → Draft
  unfolding to_hex
  draft_of g p = record {
    decision_id = to_hex g.decision.decision_id;
    tx_hash = p.tx_hash;
    envelope_xdr = p.envelope_xdr;
    source = p.source;
    sequence = p.sequence;
    max_time = p.max_time;
    ledger = none;
    note = some (
        p.amount_decimal
        ++ (codes " " ++ (d.registry.asset.code ++ (codes " -> " ++ p.destination))));
  }

  pub commit : Bool → Draft → Exec (World d) SettlementRecord
  commit true row = write d other committed (λ now. d.store.replace_prepared now row)
  commit false row = write d d.store.insert_failure committed (λ now. d.store.put_prepared now row)

  -- `prepare`: build an envelope and commit it.
  pub prepare : Gated → Bool → Exec (World d) SettlementRecord
  prepare g replacing = do
    sequence ← preflight d g
    max_time ← choose_max_time d
    payment ← lift (
        prepare_payment d.sdk d.config d.registry.asset sequence g.destination g.decision.amount
          g.memo max_time)
    commit replacing (draft_of g payment)

  -- A transaction that is on the ledger: paid, or failed for good.
  pub on_ledger : SettlementRecord → Gated → ℕ → Bool → Option ℕ → Exec (World d) SettleResult
  on_ledger r g ledger true mark_ledger = do
    done ← advance r.decision_id settled (ledger_patch ledger)
    result g done false mark_ledger
  on_ledger r g ledger false mark_ledger = do
    advance r.decision_id abandoned (failed_patch ledger)
    fail submit_failed

  pub sleep : ℕ → Exec (World d) (Unit {0})
  sleep ms w = (ok tt, record (tock d w) { clock = w.clock + ms + d.elapsed w.tick })

  pub absent_note : ℕ → ℕ → Text
  absent_note ledger_now max_time =
      codes "non-inclusion proven: ledger close "
      ++ (to_decimal ledger_now ++ (codes " > max_time " ++ to_decimal max_time))

  pub wait : SettlementRecord → ℕ → Exec (World d) SettleResult → Exec (World d) SettleResult
  wait r deadline again = do
    present ← gets (λ w. w.clock)
    if leb deadline present then fail inclusion_unknown else (sleep poll_interval_ms >> again)

  pub absent : SettlementRecord → ℕ → Exec (World d) SettleResult
  absent r ledger_now = do
    advance r.decision_id abandoned (note_patch (absent_note ledger_now r.max_time))
    fail non_inclusion_proven

  pub poll_absent : SettlementRecord → ℕ → Exec (World d) SettleResult → Exec (World d) SettleResult
  poll_absent r deadline again = do
    ledger_now ← call d d.horizon.latest_ledger_close_time
    if ltb r.max_time ledger_now then absent r ledger_now else wait r deadline again

  -- One round of the loop of `awaitInclusion`; `again` is the next.
  pub poll :
      SettlementRecord
      → Gated
      → ℕ
      → Option ℕ
      → Exec (World d) SettleResult
      → Exec (World d) SettleResult
  poll r g deadline mark_ledger again = do
    found ← call d (λ n. d.horizon.transaction n r.tx_hash)
    elim found [
      | some tx ↦ on_ledger r g tx.ledger tx.successful mark_ledger
      | none ↦ poll_absent r deadline again
    ]

  pub await_rounds : ℕ → SettlementRecord → Gated → ℕ → Option ℕ → Exec (World d) SettleResult
  await_rounds zero r g deadline mark_ledger = raise still_polling
  await_rounds (suc rounds) r g deadline mark_ledger =
      poll r g deadline mark_ledger (await_rounds rounds r g deadline mark_ledger)

  -- `awaitInclusion`; the ledger of `mark_settled` that its caller adds to the result goes along.
  pub await_inclusion : SettlementRecord → Gated → ℕ → Option ℕ → Exec (World d) SettleResult
  await_inclusion r g timeout_ms mark_ledger = do
    present ← gets (λ w. w.clock)
    await_rounds (rounds_for timeout_ms) r g (present + timeout_ms) mark_ledger

  -- `horizon.submit`, noted with the decision that the bytes are for.
  pub post : SettlementRecord → Exec (World d) SubmitOutcome
  post r = do
    modify (note_event d (posted r.decision_id r.envelope_xdr))
    call d (λ n. d.horizon.submit n r.envelope_xdr)

  pub after_post :
      SubmitOutcome → SettlementRecord → Gated → ℕ → Option ℕ → Exec (World d) SettleResult
  after_post (included hash ledger successful) r g timeout_ms mark_ledger =
      on_ledger r g ledger successful mark_ledger
  after_post rejected r g timeout_ms mark_ledger = fail submit_failed
  after_post unknown r g timeout_ms mark_ledger = await_inclusion r g timeout_ms mark_ledger

  -- `submitAndConfirm`.
  pub submit_and_confirm : SettlementRecord → Gated → ℕ → Option ℕ → Exec (World d) SettleResult
  submit_and_confirm r g timeout_ms mark_ledger = do
    submitted_record ← advance r.decision_id submitted no_patch
    outcome ← post submitted_record
    after_post outcome submitted_record g timeout_ms mark_ledger

  -- `chain.markSettled`.
  pub mark : Gated → Exec (World d) ℕ
  mark g = do
    modify (note_event d (mark_called (to_hex g.decision.decision_id)))
    ledger ← call d (λ n. d.chain.mark_settled n g.decision.decision_id)
    modify (note_event d (mark_confirmed (to_hex g.decision.decision_id)))
    pure ledger

  -- `mark_settled`, the journal's note of it, and the payment: how a prepared record goes on.
  pub mark_and_submit : SettlementRecord → Gated → ℕ → Exec (World d) SettleResult
  mark_and_submit r g timeout_ms = do
    ledger ← mark g
    marked_record ←
        advance r.decision_id marked
          (note_patch (codes "mark_settled in ledger " ++ to_decimal ledger))
    submit_and_confirm marked_record g timeout_ms (some ledger)

  pub caught_up : Text
  caught_up = codes "chain reports settled; mark_settled applied before the journal was updated"

  -- A prepared record whose decision the chain reports as settled.
  pub catch_up : SettlementRecord → Gated → SettleOptions → Exec (World d) SettleResult
  catch_up r g options = do
    marked_record ← advance r.decision_id marked (note_patch caught_up)
    if options.dry_run
        then result g marked_record true none
        else submit_and_confirm marked_record g options.confirm_timeout_ms none

  -- A prepared record whose decision is not settled: an expired envelope is built anew.
  pub refresh : SettlementRecord → Gated → Exec (World d) SettlementRecord
  refresh r g = do
    ledger_now ← call d d.horizon.latest_ledger_close_time
    if leb r.max_time ledger_now then prepare g true else pure r

  pub proceed : SettlementRecord → Gated → SettleOptions → Exec (World d) SettleResult
  proceed r g options = do
    live ← refresh r g
    if options.dry_run
        then result g live true none
        else mark_and_submit live g options.confirm_timeout_ms

  -- A record that is marked or submitted: only the stored bytes may settle the decision.
  pub repost : SettlementRecord → Gated → SettleOptions → Exec (World d) SettleResult
  repost r g options = if options.dry_run then result g r true none else do
    found ← call d (λ n. d.horizon.transaction n r.tx_hash)
    elim found [
      | some tx ↦ await_inclusion r g options.confirm_timeout_ms none
      | none ↦ submit_and_confirm r g options.confirm_timeout_ms none
    ]

  pub resume_in :
      SettlementStatus → SettlementRecord → Gated → SettleOptions → Exec (World d) SettleResult
  resume_in abandoned r g options = fail abandoned_error
  resume_in prepared r g options =
      if g.decision.settled then catch_up r g options else proceed r g options
  resume_in _ r g options = repost r g options

  -- `resume`: the recovery matrix.
  pub resume : SettlementRecord → Gated → SettleOptions → Exec (World d) SettleResult
  resume r g options = resume_in r.status r g options

  pub begin : Gated → SettleOptions → Exec (World d) SettleResult
  begin g options = do
    prepared_record ← prepare g false
    if options.dry_run
        then result g prepared_record true none
        else mark_and_submit prepared_record g options.confirm_timeout_ms

  pub start : Gated → SettleOptions → Bool → Exec (World d) SettleResult
  start g options allow_fresh = if allow_fresh then begin g options else fail store_conflict

  pub choose : Option SettlementRecord → Gated → SettleOptions → Bool → Exec (World d) SettleResult
  choose none g options allow_fresh =
      if g.decision.settled then fail already_settled else start g options allow_fresh
  choose (some r) g options allow_fresh =
      if g.decision.settled && is_terminal r.status
      then fail already_settled
      else resume r g options

  -- What `run` does under the lock.
  pub locked : Text → SettleOptions → Bool → Exec (World d) SettleResult
  locked id options allow_fresh = do
    assert_config_agrees_with_registry d
    g ← gate d id
    found ← gets (λ w. d.store.get id w.journal)
    choose found g options allow_fresh

  -- `run`.
  pub run : Text → SettleOptions → Bool → Exec (World d) SettleResult
  run id options allow_fresh =
      if is_decision_id id
      then catch_busy d (with_lock d id (locked id options allow_fresh))
      else fail config_invalid

  pub settle : Text → SettleOptions → Exec (World d) SettleResult
  settle id options = run id options true

  pub recover : Text → SettleOptions → Exec (World d) SettleResult
  recover id options = run id options false
