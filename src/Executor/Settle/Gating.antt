-- ===== src/Executor/Settle/Gating.antt =====
-- The gate and the preflight change neither the journal nor the events, but for the decision read.
use aegis_phase.Prelude.{
  ℕ, ◌≡◌, refl, Bool, true, false, not, Option, none, some, List, Text, Bytes, text_eq_iff,
  text_eq_refl, any, arith,
}
use aegis_phase.Prelude.Result.{Result, ok, err}
use aegis_phase.Canonical.Bytes.{to_hex}
use aegis_phase.Executor.Errors.{Thrown}
use aegis_phase.Executor.Exec.{
  Post, Triple, Triple-pure, Triple-bind, Triple-assume, Triple-lift, Triple-gets, Triple-require,
  Triple-fact, Triple-weaken, Triple-refuse, Triple-modify,
}
use aegis_phase.Executor.World.{
  OnChainDecision, Event, HorizonBalance, Deps, World, read_decision, call, tock, note_event,
}
use aegis_phase.Executor.Gate.{
  Gated, gate, read, judge, funded, covers_fee, preflight, choose_max_time, is_approved,
  assert_config_agrees_with_registry,
}
use aegis_phase.Executor.Settle.Invariant.{Inv, Inv-event, read_approved, shows_settled}

module _ (d : Deps) where
  -- A statement of the journal and the events, at a state of the executor.
  abbrev pub At : (d.store.State → List Event → Type 0) → World d → Type 0
  At P w = P w.journal w.log

  abbrev pub Safe : World d → Type 0
  Safe = At (Inv d.store)

  -- A call of the outside changes neither.
  pub call_lem :
      {A : Type 0} (P : World d → Type 0) (f : ℕ → Result Thrown A)
      → ((w : World d) → P w → P (tock d w) × Safe w)
      → Triple P (call d f) (λ a. P) Safe
  unfolding call
  call_lem P f keep = record {
    at = λ w p. elim (f w.tick) as (λ r. Post (λ a. P) Safe (r, tock d w)) [
      | ok a ↦ (keep w p).0
      | err e ↦ (keep w p).1
    ];
  }

  -- What a read of the decision establishes.
  abbrev Read : Text → OnChainDecision → d.store.State → List Event → Type 0
  Read id decision s log =
      Inv d.store s log
      × (is_approved decision.verdict ≡ true → any (read_approved id) log ≡ true)
      × (decision.settled ≡ true → any (shows_settled id) log ≡ true)

  Read-event :
      (id : Text) (decision : OnChainDecision) (w : World d)
      → Safe w
      → At (Read id decision) (note_event d (read_decision id decision) w)
  unfolding any
  Read-event id decision w inv = (
    Inv-event d.store (read_decision id decision) w.journal w.log tt tt inv,
    λ a. rw (text_eq_refl id) (rw a),
    λ a. rw (text_eq_refl id) (rw a),
  )

  read_lem :
      (id : Text) (b : Bytes) → Triple Safe (read d id b) (λ decision. At (Read id decision)) Safe
  unfolding read
  read_lem id b =
      Triple-bind (λ _. Safe) (call_lem Safe _ (λ w p. (p, p)))
        (λ found. Triple-bind _ (Triple-require found _ (λ w p. p)) (λ decision.
          Triple-bind (λ _. At (Read id decision))
            (Triple-modify _ (λ w p. Read-event id decision w p.0))
            (λ _. Triple-pure decision (λ w p. p))))

  not-false : (b : Bool) → not b ≡ false → b ≡ true
  not-false b h = ground arith

  -- The verdict and the id of a decision that `judge` lets through; no state is changed.
  judge_lem :
      {P : World d → Type 0} (id : Text) (decision : OnChainDecision)
      → ((w : World d) → P w → Safe w)
      → Triple P
          (judge d id decision)
          (λ g w.
            P w
            × ((g.decision ≡ decision)
                × (to_hex decision.decision_id ≡ id)
                × (is_approved decision.verdict ≡ true)))
          Safe
  unfolding judge
  judge_lem id decision weaken = Triple-bind _ (Triple-refuse _ _ weaken) (λ _. Triple-fact (λ same.
      Triple-bind _ (Triple-refuse _ _ weaken) (λ _. Triple-fact (λ yes_.
        Triple-bind _ (Triple-lift _ weaken) (λ _. Triple-fact (λ _.
          Triple-bind _ (Triple-require _ _ weaken) (λ destination. Triple-fact (λ _.
            Triple-bind _ (Triple-refuse _ _ weaken) (λ _. Triple-fact (λ _.
              Triple-bind _ (Triple-lift _ weaken) (λ memo. Triple-fact (λ _. Triple-pure _ (λ w p.
                (p, (refl, (text_eq_iff _ _).0 (not-false _ same), not-false _ yes_)))))))))))))))

  -- What a decision that passed the gate establishes.
  pub record Passed (id : Text) (g : Gated) (s : d.store.State) (log : List Event) : Type 0 where
    pub inv : Inv d.store s log
    pub approved : any (read_approved id) log ≡ true
    pub settled : g.decision.settled ≡ true → any (shows_settled id) log ≡ true
    pub named : to_hex g.decision.decision_id ≡ id

  passed :
      (id : Text) (g : Gated) (decision : OnChainDecision) (s : d.store.State) (log : List Event)
      → Read id decision s log
      → (g.decision ≡ decision)
        × (to_hex decision.decision_id ≡ id)
        × (is_approved decision.verdict ≡ true)
      → Passed id g s log
  passed id g decision s log (inv, approved, settled) (same, named, ok_) = record {
    inv = inv;
    approved = approved ok_;
    settled = λ h. settled (rw (← same) h);
    named = rw same named;
  }

  pub gate_lem : (id : Text) → Triple Safe (gate d id) (λ g. At (Passed id g)) Safe
  unfolding gate
  gate_lem id = Triple-bind _ (Triple-lift _ (λ w p. p)) (λ id_bytes. Triple-fact (λ _.
      Triple-bind _ (read_lem id id_bytes) (λ decision.
        Triple-bind _ (judge_lem id decision (λ w p. p.0)) (λ g. Triple-fact (λ facts.
          Triple-bind (λ _. At (Read id decision)) (call_lem _ _ (λ w p. (p, p.0)))
            (λ on_chain. Triple-bind _ (Triple-refuse _ _ (λ w p. p.0)) (λ _.
              Triple-fact
                (λ _. Triple-pure g (λ w p. passed id g decision w.journal w.log p facts)))))))))

  module _ {P : d.store.State → List Event → Type 0}
      (weaken : (s : d.store.State) (log : List Event) → P s log → Inv d.store s log) where
    weak : (w : World d) → At P w → Safe w
    weak w p = weaken w.journal w.log p

    funded_lem : (account : Text) → Triple (At P) (funded d account) (λ _. At P) Safe
    unfolding funded
    funded_lem account = Triple-bind _ (call_lem (At P) _ (λ w p. (p, weak w p))) (λ found.
        Triple-bind _ (Triple-require found _ weak) (λ a. Triple-fact (λ _.
          Triple-bind _ (Triple-require _ _ weak) (λ line. Triple-fact (λ _.
            Triple-bind _ (Triple-refuse _ _ weak)
              (λ _. Triple-fact (λ _. Triple-pure _ (λ w p. p))))))))

    covers_fee_lem : (o : Option HorizonBalance) → Triple (At P) (covers_fee d o) (λ _. At P) Safe
    unfolding covers_fee
    covers_fee_lem none = Triple-pure tt (λ w p. p)
    covers_fee_lem (some b) = Triple-bind _ (Triple-lift _ weak) (λ balance.
        Triple-fact
          (λ _. Triple-assume (λ w p. p) (Triple-weaken (λ _ w p. p.0) (Triple-refuse _ _ weak))))

    pub preflight_lem : (g : Gated) → Triple (At P) (preflight d g) (λ _. At P) Safe
    unfolding preflight
    preflight_lem g = Triple-bind _ (funded_lem _) (λ from.
        Triple-bind _ (Triple-lift _ weak) (λ balance. Triple-fact (λ _.
          Triple-bind _ (Triple-refuse _ _ weak) (λ _. Triple-fact (λ _.
            Triple-bind _ (covers_fee_lem _)
              (λ _. Triple-bind _ (funded_lem g.destination) (λ to. Triple-pure _ (λ w p. p))))))))

    pub choose_max_time_lem : Triple (At P) (choose_max_time d) (λ _. At P) Safe
    unfolding choose_max_time
    choose_max_time_lem =
        Triple-bind _ (call_lem (At P) _ (λ w p. (p, weak w p)))
          (λ ledger_now. Triple-bind _ (Triple-gets _) (λ now. Triple-pure _ (λ w p. p.0)))

    pub config_lem : Triple (At P) (assert_config_agrees_with_registry d) (λ _. At P) Safe
    unfolding assert_config_agrees_with_registry
    config_lem = Triple-bind _ (Triple-refuse _ _ weak) (λ _. Triple-fact (λ _.
        Triple-bind _ (Triple-refuse _ _ weak) (λ _. Triple-fact (λ _.
          Triple-bind _ (Triple-refuse _ _ weak)
            (λ _. Triple-fact (λ _. Triple-weaken (λ _ w p. p.0) (Triple-refuse _ _ weak)))))))
