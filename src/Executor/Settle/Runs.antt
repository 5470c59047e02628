-- ===== src/Executor/Settle/Runs.antt =====
-- The invariant through whole runs of `settle` and `recover`, and through any sequence of them:
-- the process may end in any call of any of them, and is started again on the same journal.
use aegis_phase.Prelude.{
  ◌≡◌, refl, sym, ◌∙◌, inl, inr, Bool, true, false, Option, none, some, List, [], ◌∷◌, Text,
  Bool-cases, ◌&&◌,
}
use mathlib.Core.Path.{subst}
use aegis_phase.Prelude.Result.{Result, ok, err}
use aegis_phase.Canonical.Bytes.{to_hex}
use aegis_phase.Executor.Errors.{
  Thrown, died, lock_busy, already_settled, store_conflict, config_invalid,
}
use aegis_phase.Executor.Exec.{
  Exec, fail, Post, Triple-raise, Triple-bind, Triple-assume, Triple-gets, Triple-if,
}
use aegis_phase.Executor.Store.{
  SettlementStatus, prepared, marked, submitted, settled, abandoned, is_terminal, SettlementRecord,
  is_prepared,
}
use aegis_phase.Executor.World.{Event, Deps, World}
use aegis_phase.Executor.Lock.{with_lock, catch_busy, is_held, released, translate}
use aegis_phase.Executor.Gate.{Gated}
use aegis_phase.Executor.Settle.{
  SettleOptions, SettleResult, catch_up, proceed, repost, resume_in, resume, begin, start, choose,
  locked, run, settle, recover, is_decision_id,
}
use aegis_phase.Executor.Settle.Invariant.{Inv-empty}
use aegis_phase.Executor.Settle.Gating.{At, Safe, Passed, gate_lem, config_lem}
use aegis_phase.Executor.Settle.Steps.{Stored, Marked, Live}
use aegis_phase.Executor.Settle.Flow.{
  Safely, catch_up_lem, proceed_lem, repost_lem, onwards, prepare_lem,
}

-- What a client asks of the executor.
pub data Request : Type 0 where
  settle_request recover_request : Text → SettleOptions → Request

module _ (d : Deps) where
  -- The gate was passed, and the journal holds a record of the decision.
  abbrev Found : Text → Gated → SettlementRecord → d.store.State → List Event → Type 0
  Found id g r s log = Passed d id g s log × (d.store.get id s ≡ some r)

  module _ (id : Text) (g : Gated) (r : SettlementRecord) (s : d.store.State) (log : List Event)
      (p : Found id g r s log) where
    own_id : r.decision_id ≡ id
    own_id = d.store.get-id id s p.1

    found_named : to_hex g.decision.decision_id ≡ r.decision_id
    found_named = p.0.named ∙ sym own_id

    found_Stored : Stored d r s log
    found_Stored = record {
      inv = p.0.inv;
      approved = rw own_id p.0.approved;
      stored = subst (λ k. d.store.get k s ≡ some r) (sym own_id) p.1;
    }

    found_Marked : g.decision.settled ≡ true → Marked d r s log
    found_Marked h = record { hold = found_Stored; settled = rw own_id (p.0.settled h) }

    found_Live : is_prepared r.status ≡ false → Live d r s log
    found_Live beyond = record {
      hold = record {
        hold = found_Stored;
        settled = elim (p.0.inv.journal id r p.1).1 [ inl e ↦ cc (e, beyond) | inr e ↦ e ];
      };
      beyond = beyond;
    }

  Found-Safe :
      (id : Text) (g : Gated) (r : SettlementRecord) (w : World d)
      → At d (Found id g r) w
      → Safe d w
  Found-Safe id g r w p = p.0.inv

  resume_lem :
      (id : Text) (g : Gated) (r : SettlementRecord) (options : SettleOptions)
      → Safely d (At d (Found id g r)) (resume d r g options)
  unfolding resume
  resume_lem id g r options = in_status r.status refl
    where
      in_repost :
          is_prepared r.status ≡ false → Safely d (At d (Found id g r)) (repost d r g options)
      in_repost e =
          Triple-assume (λ w p. found_Live id g r w.journal w.log p e) (repost_lem d r g options)

      in_status :
          (status : SettlementStatus)
          → r.status ≡ status
          → Safely d (At d (Found id g r)) (resume_in d status r g options)
      in_status abandoned e = unfold resume_in in Triple-raise _ (Found-Safe id g r)
      in_status prepared e =
          unfold resume_in in
          Triple-if g.decision.settled (catch_up d r g options) (proceed d r g options)
            (λ h.
              Triple-assume (λ w p. found_Marked id g r w.journal w.log p h)
                (catch_up_lem d r g options))
            (λ h. record {
              at = λ w p.
                  (proceed_lem d r g options (found_named id g r w.journal w.log p)).at w
                    (found_Stored id g r w.journal w.log p);
            })
      in_status marked e = unfold resume_in in in_repost (rw e)
      in_status submitted e = unfold resume_in in in_repost (rw e)
      in_status settled e = unfold resume_in in in_repost (rw e)

  begin_lem :
      (id : Text) (g : Gated) (options : SettleOptions)
      → Safely d (At d (Passed d id g)) (begin d g options)
  unfolding begin
  begin_lem id g options =
      Triple-bind _ (Triple-assume (λ w p. (p.inv, rw p.named p.approved)) (prepare_lem d g false))
        (λ r. Triple-assume (λ w p. (p.0, sym p.1)) (onwards d r g options))

  choose_lem :
      (id : Text) (g : Gated) (found : Option SettlementRecord) (options : SettleOptions)
      (allow_fresh : Bool)
      → Safely d
          (λ w. At d (Passed d id g) w × (d.store.get id w.journal ≡ found))
          (choose d found g options allow_fresh)
  unfolding choose start
  choose_lem id g none options allow_fresh =
      Triple-assume (λ w p. p.0)
        (Triple-if g.decision.settled (fail already_settled) _ (λ _. Triple-raise _ (λ w p. p.inv))
          (λ _.
            Triple-if allow_fresh (begin d g options) (fail store_conflict)
              (λ _. begin_lem id g options) (λ _. Triple-raise _ (λ w p. p.inv))))
  choose_lem id g (some r) options allow_fresh =
      Triple-if (g.decision.settled && is_terminal r.status) (fail already_settled)
        (resume d r g options) (λ _. Triple-raise _ (λ w p. p.0.inv))
        (λ _. resume_lem id g r options)

  locked_lem :
      (id : Text) (options : SettleOptions) (allow_fresh : Bool)
      → Safely d (Safe d) (locked d id options allow_fresh)
  unfolding locked
  locked_lem id options allow_fresh = Triple-bind _ (config_lem d (λ s log p. p)) (λ _.
      Triple-bind _ (gate_lem d id)
        (λ g. Triple-bind _ (Triple-gets _) (λ found. choose_lem id g found options allow_fresh)))

  -- The lock and the translation of its error touch neither the journal nor the events.
  abbrev Ended : Result Thrown SettleResult × World d → Type 0
  Ended = Post (λ _. Safe d) (Safe d)

  released_lem :
      (id : Text) (r : Result Thrown SettleResult) (w : World d)
      → Ended (r, w)
      → Ended (released d id (r, w))
  unfolding released
  released_lem id (ok a) w p = p
  released_lem id (err died) w p = p
  released_lem id (err _) w p = p

  translate_lem : (x : Result Thrown SettleResult × World d) → Ended x → Ended (translate d x)
  unfolding translate
  translate_lem (ok a, w) p = p
  translate_lem (err lock_busy, w) p = p
  translate_lem (err _, w) p = p

  with_lock_lem :
      (id : Text) (m : Exec (World d) SettleResult)
      → Safely d (Safe d) m
      → Safely d (Safe d) (with_lock d id m)
  unfolding with_lock
  with_lock_lem id m h = record {
    at = λ w p. elim (Bool-cases (is_held id w.held)) [
      | inl e ↦ rw e p
      | inr e ↦
          let start_ : World d = record w { held = id ∷ w.held } in
          rw e (released_lem id (m start_).0 (m start_).1 (h.at start_ p))
    ];
  }

  run_lem :
      (id : Text) (options : SettleOptions) (allow_fresh : Bool)
      → Safely d (Safe d) (run d id options allow_fresh)
  unfolding run catch_busy
  run_lem id options allow_fresh =
      Triple-if (is_decision_id id) _ (fail config_invalid)
        (λ _. record {
          at = λ w p.
              translate_lem _ ((with_lock_lem id _ (locked_lem id options allow_fresh)).at w p);
        })
        (λ _. Triple-raise _ (λ w p. p))

  Ended-Safe : (x : Result Thrown SettleResult × World d) → Ended x → Safe d x.1
  Ended-Safe (ok a, w) p = p
  Ended-Safe (err e, w) p = p

  unfoldable pub serve_one : Request → World d → World d
  serve_one (settle_request id options) w = (settle d id options w).1
  serve_one (recover_request id options) w = (recover d id options w).1

  -- A sequence of requests; one that throws, or in which the process ends, is followed by the next.
  unfoldable pub serve : List Request → World d → World d
  serve [] w = w
  serve (request ∷ requests) w = serve requests (serve_one request w)

  -- The executor at its first start, with an empty journal.
  abbrev pub initial : World d
  initial = record { journal = d.store.empty; log = []; tick = 0; clock = 0; held = [] }

  serve_one-Safe : (request : Request) (w : World d) → Safe d w → Safe d (serve_one request w)
  unfolding serve_one settle recover
  serve_one-Safe (settle_request id options) w p = Ended-Safe _ ((run_lem id options true).at w p)
  serve_one-Safe (recover_request id options) w p = Ended-Safe _ ((run_lem id options false).at w p)

  serve-Safe : (requests : List Request) (w : World d) → Safe d w → Safe d (serve requests w)
  unfolding serve
  serve-Safe [] w p = p
  serve-Safe (request ∷ requests) w p =
      serve-Safe requests (serve_one request w) (serve_one-Safe request w p)

  pub reached_Inv : (requests : List Request) → Safe d (serve requests initial)
  reached_Inv requests = serve-Safe requests initial (Inv-empty d.store)
