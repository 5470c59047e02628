-- ===== src/Executor/Settle/Polling.antt =====
-- The polling of `awaitInclusion`, and the rounds that the model gives it.
use aegis_phase.Prelude.{
  ℕ, zero, suc, ◌+◌, ◌*◌, ◌/◌, ◌≤◌, ◌≡◌, ◌≢◌, refl, ap, Bool, true, false, Option, none, some, Text,
  leb, ltb, if◌then◌else◌, arith, Option-cases, inl, inr,
}
use mathlib.Core.Path.{subst}
use aegis_phase.Prelude.Result.{Result, ok, err, err-injective}
use aegis_phase.Executor.Errors.{
  other, Thrown, still_polling, SettlementErrorCode, submit_failed, non_inclusion_proven,
  inclusion_unknown,
}
use aegis_phase.Executor.Exec.{lift, Exec, pure, raise, fail, gets, continue, ◌>>=◌, ◌>>◌}
use aegis_phase.Executor.Store.{
  SettlementStatus, SettlementRecord, SettlementPatch, settled, abandoned,
}
use aegis_phase.Executor.World.{
  HorizonTransaction, Deps, World, Event, Disk, healthy, fails, dies_before, dies_after, moved,
  call, write, landed, on_disk,
}
use aegis_phase.Executor.Gate.{Gated}
use aegis_phase.Executor.Receipt.{ReceiptError}
use aegis_phase.Executor.Settle.{
  receipt_for, unreceipted, result, SettleResult, poll_interval_ms, rounds_for, advance, on_ledger,
  sleep, wait, absent, poll_absent, poll, await_rounds, await_inclusion,
}

-- The action does not run out of rounds.
abbrev pub Ends : {A : Type 0} → Result Thrown A → Type 0
Ends {A} r = r ≢ err still_polling

module _ {S A B : Type 0} where
  continue-Ends :
      (r : Result Thrown A) (f : A → Exec S B) (s : S)
      → Ends r
      → ((a : A) → r ≡ ok a → Ends (f a s).0)
      → Ends (continue r f s).0
  continue-Ends (ok a) f s h k = k a refl
  continue-Ends (err e) f s h k = λ q. h (ap err (err-injective q))

  bind-Ends :
      (m : Exec S A) (f : A → Exec S B) (s : S)
      → Ends (m s).0
      → ((a : A) → (m s).0 ≡ ok a → Ends (f a (m s).1).0)
      → Ends ((m >>= f) s).0
  unfolding ◌>>=◌
  bind-Ends m f s h k = continue-Ends (m s).0 f (m s).1 h k

fail-Ends :
    {S A : Type 0} (code : SettlementErrorCode) (s : S) → Ends (fail {S = S} {A = A} code s).0
unfolding raise
fail-Ends code s = λ q. cc

if-Ends :
    {S A : Type 0} (b : Bool) (m n : Exec S A) (s : S)
    → (b ≡ true → Ends (m s).0)
    → (b ≡ false → Ends (n s).0)
    → Ends ((if b then m else n) s).0
if-Ends true m n s h k = h refl
if-Ends false m n s h k = k refl

module _ (d : Deps) where
  landed-Ends :
      (w : World d) (event : SettlementRecord → Event) (b : Bool)
      (r : Result Thrown (SettlementRecord × d.store.State))
      → Ends r
      → Ends (landed d w event b r).0
  unfolding landed
  landed-Ends w event false (ok (r, s)) h = λ q. cc
  landed-Ends w event true (ok (r, s)) h = λ q. cc
  landed-Ends w event false (err e) h = λ q. h (ap err (err-injective q))
  landed-Ends w event true (err e) h = λ q. h (ap err (err-injective q))

  on_disk-Ends :
      (k : Disk) (w : World d) (event : SettlementRecord → Event)
      (r : Result Thrown (SettlementRecord × d.store.State))
      → Ends r
      → Ends (on_disk d k other w event r).0
  unfolding on_disk
  on_disk-Ends healthy w event r h = landed-Ends w event false r h
  on_disk-Ends fails w event r h = λ q. cc
  on_disk-Ends dies_before w event r h = λ q. cc
  on_disk-Ends dies_after w event r h = landed-Ends w event true r h

  store-Ends :
      (now id : Text) (status : SettlementStatus) (patch : SettlementPatch) (s : d.store.State)
      → Ends (d.store.advance now id status patch s)
  store-Ends now id status patch s = elim (Option-cases (d.store.get id s)) [
    | inl e ↦ λ q. cc (d.store.advance_missing now id status patch s e, q)
    | inr (r, e) ↦
        (let (s', same, _) = d.store.advance_found now id status patch s r e in λ q. cc (same, q))
  ]

  advance-Ends :
      (id : Text) (status : SettlementStatus) (patch : SettlementPatch) (w : World d)
      → Ends (advance d id status patch w).0
  unfolding advance write
  advance-Ends id status patch w =
      on_disk-Ends _ w moved _ (store-Ends (d.iso w.clock) id status patch w.journal)

  receipt-Ends : (g : Gated) (tx_hash now : Text) → Ends (receipt_for d g tx_hash now)
  unfolding receipt_for
  receipt-Ends g tx_hash now = by_receipt _
    where
      by_receipt : {A : Type 0} (r : Result ReceiptError A) → Ends (unreceipted r)
      by_receipt (ok a) = λ q. cc
      by_receipt (err e) = λ q. cc

  result-Ends :
      (g : Gated) (r : SettlementRecord) (dry_run : Bool) (o : Option ℕ) (w : World d)
      → Ends (result d g r dry_run o w).0
  unfolding result pure lift gets ◌>>=◌
  result-Ends g r dry_run o w =
      bind-Ends (lift (receipt_for d g r.tx_hash (d.iso w.clock))) _ w
        (receipt-Ends g r.tx_hash (d.iso w.clock)) (λ receipt e q. cc)

  on_ledger-Ends :
      (r : SettlementRecord) (g : Gated) (ledger : ℕ) (b : Bool) (o : Option ℕ) (w : World d)
      → Ends (on_ledger d r g ledger b o w).0
  unfolding on_ledger pure
  on_ledger-Ends r g ledger true o w =
      bind-Ends (advance d r.decision_id settled _) _ w (advance-Ends _ _ _ w)
        (λ done e. result-Ends g done false o _)
  on_ledger-Ends r g ledger false o w =
      bind-Ends (advance d r.decision_id abandoned _) _ w (advance-Ends _ _ _ w)
        (λ done e. fail-Ends submit_failed _)

  absent-Ends :
      (r : SettlementRecord) (ledger_now : ℕ) (w : World d) → Ends (absent d r ledger_now w).0
  unfolding absent
  absent-Ends r ledger_now w =
      bind-Ends (advance d r.decision_id abandoned _) _ w (advance-Ends _ _ _ w)
        (λ done e. fail-Ends non_inclusion_proven _)

  -- Horizon answers, or throws what the code throws.
  pub record Answers : Type 0 where
    pub transaction : (n : ℕ) (hash : Text) → Ends (d.horizon.transaction n hash)
    pub ledger : (n : ℕ) → Ends (d.horizon.latest_ledger_close_time n)

  -- The next round, which starts an interval later, ends.
  abbrev Onwards : ℕ → ℕ → Exec (World d) SettleResult → Type 0
  Onwards clock deadline again =
      (w : World d)
      → clock + poll_interval_ms ≤ w.clock
      → leb deadline clock ≡ false
      → Ends (again w).0

  wait-Ends :
      (r : SettlementRecord) (deadline clock : ℕ) (again : Exec (World d) SettleResult)
      (w : World d)
      → clock ≤ w.clock
      → Onwards clock deadline again
      → Ends (wait d r deadline again w).0
  unfolding wait gets sleep ◌>>=◌
  wait-Ends r deadline clock again w h onwards =
      if-Ends (leb deadline w.clock) (fail inclusion_unknown) (sleep d poll_interval_ms >> again) w
        (λ _. fail-Ends inclusion_unknown w) (λ e. onwards _ (omega arith) (ground arith))

  poll_absent-Ends :
      (answers : Answers) (r : SettlementRecord) (deadline clock : ℕ)
      (again : Exec (World d) SettleResult) (w : World d)
      → clock ≤ w.clock
      → Onwards clock deadline again
      → Ends (poll_absent d r deadline again w).0
  unfolding poll_absent call
  poll_absent-Ends answers r deadline clock again w h onwards =
      bind-Ends (call d d.horizon.latest_ledger_close_time) _ w (answers.ledger w.tick)
        (λ ledger_now e.
          if-Ends (ltb r.max_time ledger_now) (absent d r ledger_now) (wait d r deadline again) _
            (λ _. absent-Ends r ledger_now _)
            (λ _. wait-Ends r deadline clock again _ (omega arith) onwards))

  found-Ends :
      (answers : Answers) (r : SettlementRecord) (g : Gated) (deadline clock : ℕ) (o : Option ℕ)
      (again : Exec (World d) SettleResult) (found : Option HorizonTransaction) (w : World d)
      → clock ≤ w.clock
      → Onwards clock deadline again
      → Ends
          ((elim found as (λ _. Exec (World d) SettleResult) [
            | some tx ↦ on_ledger d r g tx.ledger tx.successful o
            | none ↦ poll_absent d r deadline again
          ])
            w).0
  found-Ends answers r g deadline clock o again (some tx) w h onwards =
      on_ledger-Ends r g tx.ledger tx.successful o w
  found-Ends answers r g deadline clock o again none w h onwards =
      poll_absent-Ends answers r deadline clock again w h onwards

  poll-Ends :
      (answers : Answers) (r : SettlementRecord) (g : Gated) (deadline clock : ℕ) (o : Option ℕ)
      (again : Exec (World d) SettleResult) (w : World d)
      → clock ≤ w.clock
      → Onwards clock deadline again
      → Ends (poll d r g deadline o again w).0
  unfolding poll call
  poll-Ends answers r g deadline clock o again w h onwards =
      bind-Ends (call d (λ n. d.horizon.transaction n r.tx_hash)) _ w
        (answers.transaction w.tick r.tx_hash)
        (λ found e. found-Ends answers r g deadline clock o again found _ (omega arith) onwards)

  await_rounds-Ends :
      (answers : Answers) (k : ℕ) (r : SettlementRecord) (g : Gated) (deadline : ℕ) (o : Option ℕ)
      (w : World d)
      → deadline ≤ w.clock + k * poll_interval_ms
      → Ends (await_rounds d (suc k) r g deadline o w).0
  unfolding await_rounds
  await_rounds-Ends answers zero r g deadline o w h =
      poll-Ends answers r g deadline w.clock o _ w (omega arith) (λ w' h' e. absurd (ground arith))
  await_rounds-Ends answers (suc k) r g deadline o w h =
      poll-Ends answers r g deadline w.clock o _ w (omega arith)
        (λ w' h' e. await_rounds-Ends answers k r g deadline o w' (omega arith))

  -- When the calls of Horizon do not themselves end with the model's out-of-rounds error,
  -- awaitInclusion with any timeout never runs out of rounds: it returns or throws what the code
  -- throws.
  pub await_inclusion-Ends :
      (answers : Answers) (r : SettlementRecord) (g : Gated) (timeout_ms : ℕ) (o : Option ℕ)
      (w : World d)
      → Ends (await_inclusion d r g timeout_ms o w).0
  unfolding await_inclusion gets ◌>>=◌
  await_inclusion-Ends answers r g timeout_ms o w =
      let rounds : suc (timeout_ms / poll_interval_ms + 1) ≡ rounds_for timeout_ms = omega arith in
      subst (λ k. Ends (await_rounds d k r g (w.clock + timeout_ms) o w).0) rounds
        (await_rounds-Ends answers (timeout_ms / poll_interval_ms + 1) r g (w.clock + timeout_ms) o
          w (omega arith))
