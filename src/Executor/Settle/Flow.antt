-- ===== src/Executor/Settle/Flow.antt =====
-- The invariant through every path of the settlement state machine.
use aegis_phase.Prelude.{
  ℕ, zero, suc, ◌≡◌, refl, sym, Bool, true, false, Option, none, some, List, Text, leb, ltb,
  if◌then◌else◌,
}
use aegis_phase.Canonical.Bytes.{to_hex}
use aegis_phase.Executor.Errors.{inclusion_unknown}
use aegis_phase.Executor.Exec.{
  Exec, fail, ◌>>◌, pure, Triple, Triple-pure, Triple-raise, Triple-bind, Triple-assume,
  Triple-weaken, Triple-lift, Triple-gets, Triple-if, Triple-fact,
}
use aegis_phase.Executor.Store.{marked, submitted, settled, abandoned, SettlementRecord}
use aegis_phase.Executor.World.{Event, SubmitOutcome, included, unknown, rejected, Deps, World}
use aegis_phase.Executor.Gate.{Gated}
use aegis_phase.Executor.Settle.{
  SettleOptions, SettleResult, poll_interval_ms, result, draft_of, prepare, on_ledger, sleep, wait,
  absent, poll_absent, poll, await_rounds, await_inclusion, after_post, submit_and_confirm,
  mark_and_submit, catch_up, refresh, proceed, repost,
}
use aegis_phase.Executor.Settle.Gating.{At, Safe, call_lem, preflight_lem, choose_max_time_lem}
use aegis_phase.Executor.Settle.Steps.{
  Stored, Marked, Live, Approved, Committed, advance_lem, commit_lem, mark_lem, post_lem,
}

module _ (d : Deps) where
  -- A run is safe from `P` if it ends in a safe state however it ends.
  abbrev pub Safely : (World d → Type 0) → Exec (World d) SettleResult → Type 0
  Safely P m = Triple P m (λ _. Safe d) (Safe d)

  pub Live-Safe : (r : SettlementRecord) (w : World d) → At d (Live d r) w → Safe d w
  Live-Safe r w p = p.hold.hold.inv

  -- The receipt may throw, and changes nothing.
  result_lem :
      {P : World d → Type 0} (g : Gated) (r : SettlementRecord) (dry_run : Bool)
      (mark_ledger : Option ℕ)
      → ((w : World d) → P w → Safe d w)
      → Triple P (result d g r dry_run mark_ledger) (λ _. Safe d) (Safe d)
  unfolding result
  result_lem g r dry_run mark_ledger weaken =
      Triple-bind _ (Triple-gets (λ w. d.iso w.clock)) (λ now.
        Triple-bind _ (Triple-lift _ (λ w p. weaken w p.0))
          (λ receipt. Triple-pure _ (λ w p. weaken w p.0.0)))

  on_ledger_lem :
      (r : SettlementRecord) (g : Gated) (ledger : ℕ) (successful : Bool) (mark_ledger : Option ℕ)
      → Safely (At d (Live d r)) (on_ledger d r g ledger successful mark_ledger)
  unfolding on_ledger
  on_ledger_lem r g ledger true mark_ledger =
      Triple-bind _ (Triple-assume (λ w p. p.hold) (advance_lem d r settled _ refl))
        (λ done. result_lem g done false mark_ledger (Live-Safe done))
  on_ledger_lem r g ledger false mark_ledger =
      Triple-bind _ (Triple-assume (λ w p. p.hold) (advance_lem d r abandoned _ refl))
        (λ done. Triple-raise _ (Live-Safe done))

  sleep_lem :
      (r : SettlementRecord) (ms : ℕ)
      → Triple (At d (Live d r)) (sleep d ms) (λ _. At d (Live d r)) (Safe d)
  unfolding sleep
  sleep_lem r ms = record { at = λ w p. p }

  wait_lem :
      (r : SettlementRecord) (deadline : ℕ) (again : Exec (World d) SettleResult)
      → Safely (At d (Live d r)) again
      → Safely (At d (Live d r)) (wait d r deadline again)
  unfolding wait
  wait_lem r deadline again h = Triple-bind _ (Triple-gets _) (λ present.
      Triple-if (leb deadline present) (fail inclusion_unknown) (sleep d poll_interval_ms >> again)
        (λ _. Triple-raise _ (λ w p. Live-Safe r w p.0))
        (λ _.
          Triple-assume (λ w p. p.0)
            (Triple-bind (λ _. At d (Live d r)) (sleep_lem r poll_interval_ms) (λ _. h))))

  absent_lem :
      (r : SettlementRecord) (ledger_now : ℕ) → Safely (At d (Live d r)) (absent d r ledger_now)
  unfolding absent
  absent_lem r ledger_now =
      Triple-bind _ (Triple-assume (λ w p. p.hold) (advance_lem d r abandoned _ refl))
        (λ done. Triple-raise _ (Live-Safe done))

  poll_absent_lem :
      (r : SettlementRecord) (deadline : ℕ) (again : Exec (World d) SettleResult)
      → Safely (At d (Live d r)) again
      → Safely (At d (Live d r)) (poll_absent d r deadline again)
  unfolding poll_absent
  poll_absent_lem r deadline again h =
      Triple-bind (λ _. At d (Live d r)) (call_lem d _ _ (λ w p. (p, Live-Safe r w p)))
        (λ ledger_now.
          Triple-if (ltb r.max_time ledger_now) (absent d r ledger_now) (wait d r deadline again)
            (λ _. absent_lem r ledger_now) (λ _. wait_lem r deadline again h))

  -- A transaction that Horizon shows is taken to its end; an absent one is waited for.
  poll_lem :
      (r : SettlementRecord) (g : Gated) (deadline : ℕ) (mark_ledger : Option ℕ)
      (again : Exec (World d) SettleResult)
      → Safely (At d (Live d r)) again
      → Safely (At d (Live d r)) (poll d r g deadline mark_ledger again)
  unfolding poll
  poll_lem r g deadline mark_ledger again h =
      Triple-bind (λ _. At d (Live d r)) (call_lem d _ _ (λ w p. (p, Live-Safe r w p)))
        (elim [
          | some tx ↦ on_ledger_lem r g tx.ledger tx.successful mark_ledger
          | none ↦ poll_absent_lem r deadline again h
        ])

  await_rounds_lem :
      (rounds : ℕ) (r : SettlementRecord) (g : Gated) (deadline : ℕ) (mark_ledger : Option ℕ)
      → Safely (At d (Live d r)) (await_rounds d rounds r g deadline mark_ledger)
  unfolding await_rounds
  await_rounds_lem zero r g deadline mark_ledger = Triple-raise _ (Live-Safe r)
  await_rounds_lem (suc rounds) r g deadline mark_ledger =
      poll_lem r g deadline mark_ledger _ (await_rounds_lem rounds r g deadline mark_ledger)

  await_inclusion_lem :
      (r : SettlementRecord) (g : Gated) (timeout_ms : ℕ) (mark_ledger : Option ℕ)
      → Safely (At d (Live d r)) (await_inclusion d r g timeout_ms mark_ledger)
  unfolding await_inclusion
  await_inclusion_lem r g timeout_ms mark_ledger =
      Triple-bind _ (Triple-gets _)
        (λ present. Triple-assume (λ w p. p.0) (await_rounds_lem _ r g _ mark_ledger))

  after_post_lem :
      (o : SubmitOutcome) (r : SettlementRecord) (g : Gated) (timeout_ms : ℕ)
      (mark_ledger : Option ℕ)
      → Safely (At d (Live d r)) (after_post d o r g timeout_ms mark_ledger)
  unfolding after_post
  after_post_lem (included hash ledger successful) r g timeout_ms mark_ledger =
      on_ledger_lem r g ledger successful mark_ledger
  after_post_lem rejected r g timeout_ms mark_ledger = Triple-raise _ (Live-Safe r)
  after_post_lem unknown r g timeout_ms mark_ledger = await_inclusion_lem r g timeout_ms mark_ledger

  pub submit_and_confirm_lem :
      (r : SettlementRecord) (g : Gated) (timeout_ms : ℕ) (mark_ledger : Option ℕ)
      → Safely (At d (Marked d r)) (submit_and_confirm d r g timeout_ms mark_ledger)
  unfolding submit_and_confirm
  submit_and_confirm_lem r g timeout_ms mark_ledger =
      Triple-bind _ (advance_lem d r submitted _ refl)
        (λ r'. Triple-bind _ (post_lem d r') (λ o. after_post_lem o r' g timeout_ms mark_ledger))

  pub mark_and_submit_lem :
      (r : SettlementRecord) (g : Gated) (timeout_ms : ℕ)
      → to_hex g.decision.decision_id ≡ r.decision_id
      → Safely (At d (Stored d r)) (mark_and_submit d r g timeout_ms)
  unfolding mark_and_submit
  mark_and_submit_lem r g timeout_ms named = Triple-bind _ (mark_lem d r g named) (λ ledger.
      Triple-bind _ (advance_lem d r marked _ refl)
        (λ r'. Triple-assume (λ w p. p.hold) (submit_and_confirm_lem r' g timeout_ms _)))

  pub prepare_lem :
      (g : Gated) (replacing : Bool)
      → Triple
          (At d (Approved d (to_hex g.decision.decision_id)))
          (prepare d g replacing)
          (λ r. At d (Committed d (to_hex g.decision.decision_id) r))
          (Safe d)
  unfolding prepare draft_of
  prepare_lem g replacing =
      let weaken =
        λ (s : d.store.State) (log : List Event)
            (p : Approved d (to_hex g.decision.decision_id) s log).
          p.0 in
      Triple-bind _ (preflight_lem d weaken g) (λ sequence.
        Triple-bind _ (choose_max_time_lem d weaken) (λ max_time.
          Triple-bind _ (Triple-lift _ (λ w p. p.0)) (λ payment.
            Triple-fact (λ _. commit_lem d replacing (draft_of d g payment) refl refl))))

  pub catch_up_lem :
      (r : SettlementRecord) (g : Gated) (options : SettleOptions)
      → Safely (At d (Marked d r)) (catch_up d r g options)
  unfolding catch_up
  catch_up_lem r g options = Triple-bind _ (advance_lem d r marked _ refl) (λ r'.
      Triple-if options.dry_run _ (submit_and_confirm d r' g options.confirm_timeout_ms none)
        (λ _. result_lem g r' true none (Live-Safe r'))
        (λ _. Triple-assume (λ w p. p.hold) (submit_and_confirm_lem r' g _ none)))

  -- A record is as good as its decision's gate.
  abbrev pub Own : SettlementRecord → Gated → d.store.State → List Event → Type 0
  Own r g s log = Stored d r s log × (to_hex g.decision.decision_id ≡ r.decision_id)

  pub Stored-Approved :
      (r : SettlementRecord) (id : Text) (s : d.store.State) (log : List Event)
      → Stored d r s log
      → id ≡ r.decision_id
      → Approved d id s log
  Stored-Approved r id s log p e = (p.inv, rw e p.approved)

  refresh_lem :
      (r : SettlementRecord) (g : Gated)
      → to_hex g.decision.decision_id ≡ r.decision_id
      → Triple (At d (Stored d r)) (refresh d r g) (λ r'. At d (Own r' g)) (Safe d)
  unfolding refresh
  refresh_lem r g named =
      Triple-bind (λ _. At d (Stored d r)) (call_lem d _ _ (λ w p. (p, p.inv)))
        (λ ledger_now.
          Triple-if (leb r.max_time ledger_now) (prepare d g true) (pure r)
            (λ _.
              Triple-weaken (λ r' w p. (p.0, sym p.1))
                (Triple-assume (λ w p. Stored-Approved r _ w.journal w.log p named)
                  (prepare_lem g true)))
            (λ _. Triple-pure r (λ w p. (p, named))))

  -- A dry run stops here; any other goes on to `mark_settled`.
  pub onwards :
      (r : SettlementRecord) (g : Gated) (options : SettleOptions)
      → Safely (At d (Own r g)) (
          if options.dry_run
          then result d g r true none
          else mark_and_submit d r g options.confirm_timeout_ms)
  onwards r g options = Triple-fact (λ named.
      Triple-if options.dry_run _ (mark_and_submit d r g options.confirm_timeout_ms)
        (λ _. result_lem g r true none (λ w p. p.inv))
        (λ _. mark_and_submit_lem r g options.confirm_timeout_ms named))

  pub proceed_lem :
      (r : SettlementRecord) (g : Gated) (options : SettleOptions)
      → to_hex g.decision.decision_id ≡ r.decision_id
      → Safely (At d (Stored d r)) (proceed d r g options)
  unfolding proceed
  proceed_lem r g options named =
      Triple-bind _ (refresh_lem r g named) (λ live. onwards live g options)

  pub repost_lem :
      (r : SettlementRecord) (g : Gated) (options : SettleOptions)
      → Safely (At d (Live d r)) (repost d r g options)
  unfolding repost
  repost_lem r g options =
      Triple-if options.dry_run (result d g r true none) _
        (λ _. result_lem g r true none (Live-Safe r))
        (λ _.
          Triple-bind (λ _. At d (Live d r)) (call_lem d _ _ (λ w p. (p, Live-Safe r w p)))
            (elim [
              | some tx ↦ await_inclusion_lem r g _ none
              | none ↦ Triple-assume (λ w p. p.hold) (submit_and_confirm_lem r g _ none)
            ]))
