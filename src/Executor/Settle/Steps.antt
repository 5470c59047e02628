-- ===== src/Executor/Settle/Steps.antt =====
-- What each effect of the executor does to the invariant: the writes of the journal, the call of
-- `mark_settled`, and the POST.
use aegis_phase.Prelude.{
  ◌≡◌, refl, sym, ap, ◌∙◌, ◌⊎◌, inl, inr, Bool, true, false, Option, none, some, List, [], ◌∷◌,
  Text, text_eq_refl, any, arith,
}
use mathlib.Core.Option.{some-injective}
use aegis_phase.Prelude.Result.{ok, err}
use aegis_phase.Canonical.Bytes.{to_hex}
use aegis_phase.Executor.Errors.{Thrown}
use aegis_phase.Executor.Exec.{Post, Triple, Triple-pure, Triple-bind, Triple-modify}
use aegis_phase.Executor.Store.{
  SettlementStatus, prepared, Draft, SettlementRecord, SettlementPatch, is_prepared, fresh,
  advanced, replaced, Writes,
}
use aegis_phase.Executor.World.{
  Disk, healthy, fails, dies_before, dies_after, Deps, World, Event, committed, moved,
  read_decision, mark_called, mark_confirmed, posted, tock, note_event, landed, on_disk, write,
}
use aegis_phase.Executor.Gate.{Gated}
use aegis_phase.Executor.Settle.{advance, commit, mark, post}
use aegis_phase.Executor.Settle.Invariant.{
  Inv, Inv-event, Inv-write, read_approved, shows_settled, commits, commits_some,
}
use aegis_phase.Executor.Settle.Gating.{At, Safe, call_lem}

prepared_cases : (status : SettlementStatus) → (status ≡ prepared) ⊎ (is_prepared status ≡ false)
prepared_cases prepared = inl refl
prepared_cases _ = inr refl

module _ (d : Deps) where
  -- A write that succeeds ends in `Q`, and in a state that is safe when the process ends with it.
  landed_lem :
      (Q : SettlementRecord → World d → Type 0) (disk : Disk) (failure : Thrown) (w : World d)
      (event : SettlementRecord → Event) (r : SettlementRecord) (s' : d.store.State)
      → Safe d w
      → Safe d (note_event d (event r) (record (tock d w) { journal = s' }))
      → Q r (note_event d (event r) (record (tock d w) { journal = s' }))
      → Post Q (Safe d) (on_disk d disk failure w event (ok (r, s')))
  unfolding on_disk landed
  landed_lem Q healthy f w event r s' safe next q = q
  landed_lem Q fails f w event r s' safe next q = safe
  landed_lem Q dies_before f w event r s' safe next q = safe
  landed_lem Q dies_after f w event r s' safe next q = next

  refused_lem :
      (Q : SettlementRecord → World d → Type 0) (disk : Disk) (failure : Thrown) (w : World d)
      (event : SettlementRecord → Event) (e : Thrown)
      → Safe d w
      → Post Q (Safe d) (on_disk d disk failure w event (err e))
  unfolding on_disk landed
  refused_lem Q healthy f w event e safe = safe
  refused_lem Q fails f w event e safe = safe
  refused_lem Q dies_before f w event e safe = safe
  refused_lem Q dies_after f w event e safe = safe

  -- A record in hand that the journal holds, of a decision that was read as approved.
  pub record Stored (r : SettlementRecord) (s : d.store.State) (log : List Event) : Type 0 where
    pub inv : Inv d.store s log
    pub approved : any (read_approved r.decision_id) log ≡ true
    pub stored : d.store.get r.decision_id s ≡ some r

  -- A record in hand whose decision is known to be settled.
  pub record Marked (r : SettlementRecord) (s : d.store.State) (log : List Event) : Type 0 where
    pub hold : Stored r s log
    pub settled : any (shows_settled r.decision_id) log ≡ true

  -- A record in hand that has left `PREPARED`.
  pub record Live (r : SettlementRecord) (s : d.store.State) (log : List Event) : Type 0 where
    pub hold : Marked r s log
    pub beyond : is_prepared r.status ≡ false

  moved_any :
      (p : Event → Bool) (r : SettlementRecord) (log : List Event)
      → any p log ≡ true
      → any p (moved r ∷ log) ≡ true
  unfolding any
  moved_any p r log h = ground arith

  advanced-Live :
      (now : Text) (status : SettlementStatus) (patch : SettlementPatch) (r : SettlementRecord)
      (s s' : d.store.State) (log : List Event)
      → is_prepared status ≡ false
      → Marked r s log
      → Writes d.store.get s s' r.decision_id (advanced now status patch r)
      → Live (advanced now status patch r) s' (moved (advanced now status patch r) ∷ log)
  advanced-Live now status patch r s s' log beyond m w =
      let next = advanced now status patch r in
      let sound = m.hold.inv.journal r.decision_id r m.hold.stored in
      record {
        hold = record {
          hold = record {
            inv =
                Inv-write d.store s s' r.decision_id next (moved next) log w
                  (λ old found gone. (
                    beyond,
                    ap (λ x. x.envelope_xdr) (some-injective _ _ (sym m.hold.stored ∙ found)),
                  ))
                  tt tt (moved_any _ next log sound.0, inr (moved_any _ next log m.settled))
                  m.hold.inv;
            approved = moved_any _ next log m.hold.approved;
            stored = rw (w r.decision_id) (rw (text_eq_refl r.decision_id));
          };
          settled = moved_any _ next log m.settled;
        };
        beyond = beyond;
      }

  -- `advance` to a state beyond `PREPARED`, of a record whose decision is settled.
  pub advance_lem :
      (r : SettlementRecord) (status : SettlementStatus) (patch : SettlementPatch)
      → is_prepared status ≡ false
      → Triple
          (At d (Marked r))
          (advance d r.decision_id status patch)
          (λ r'. At d (Live r'))
          (Safe d)
  unfolding advance write
  advance_lem r status patch beyond = record {
    at = λ w m.
        let now = d.iso w.clock in
        let (s', e, writes) =
          d.store.advance_found now r.decision_id status patch w.journal r m.hold.stored in
        let live = advanced-Live now status patch r w.journal s' w.log beyond m writes in
        rw e (
          landed_lem (λ r'. At d (Live r')) (d.disk w.tick) _ w moved _ s' m.hold.inv
            live.hold.hold.inv live);
  }

  committed_any :
      (p : Event → Bool) (r : SettlementRecord) (log : List Event)
      → any p log ≡ true
      → any p (committed r ∷ log) ≡ true
  unfolding any
  committed_any p r log h = ground arith

  commits_self :
      (r : SettlementRecord) (log : List Event)
      → any (commits r.decision_id r.envelope_xdr) (committed r ∷ log) ≡ true
  unfolding any
  commits_self r log = rw (text_eq_refl r.decision_id) (rw (text_eq_refl r.envelope_xdr))

  -- A prepared record that is written where nothing is beyond `PREPARED` is stored.
  commit_Stored :
      (r : SettlementRecord) (s s' : d.store.State) (log : List Event)
      → ((old : SettlementRecord)
          → d.store.get r.decision_id s ≡ some old
          → is_prepared old.status ≡ true)
      → is_prepared r.status ≡ true
      → Inv d.store s log
      → any (read_approved r.decision_id) log ≡ true
      → Writes d.store.get s s' r.decision_id r
      → Stored r s' (committed r ∷ log)
  commit_Stored r s s' log fresh_ p inv approved w = record {
    inv =
        Inv-write d.store s s' r.decision_id r (committed r) log w
          (λ old found gone. cc (fresh_ old found, gone)) tt tt (commits_self r log, inl p) inv;
    approved = committed_any _ r log approved;
    stored = rw (w r.decision_id) (rw (text_eq_refl r.decision_id));
  }

  -- What a commit needs and what it gives.
  abbrev pub Approved : Text → d.store.State → List Event → Type 0
  Approved id s log = Inv d.store s log × (any (read_approved id) log ≡ true)

  abbrev pub Committed : Text → SettlementRecord → d.store.State → List Event → Type 0
  Committed id r s log = Stored r s log × (r.decision_id ≡ id)

  put-At :
      (row : Draft) (w : World d) (o : Option SettlementRecord)
      → row.ledger ≡ none
      → d.store.get row.decision_id w.journal ≡ o
      → At d (Approved row.decision_id) w
      → Post (λ r. At d (Committed row.decision_id r)) (Safe d) (commit d false row w)
  unfolding commit write
  put-At row w none l h (inv, approved) =
      let now = d.iso w.clock in
      let (s', e, writes) = d.store.put_fresh now row w.journal l h in
      let stored =
        commit_Stored (fresh now row) w.journal s' w.log (λ old found. cc (h, found)) refl inv
          approved writes in
      rw e (
        landed_lem (λ r. At d (Committed row.decision_id r)) (d.disk w.tick) _ w committed _ s' inv
          stored.inv (stored, refl))
  put-At row w (some old) l h (inv, approved) =
      rw (d.store.put_taken (d.iso w.clock) row w.journal old h)
        (refused_lem (λ r. At d (Committed row.decision_id r)) (d.disk w.tick) _ w committed _ inv)

  replace-At :
      (row : Draft) {n : Text} (w : World d) (o : Option SettlementRecord)
      → row.ledger ≡ none
      → row.note ≡ some n
      → d.store.get row.decision_id w.journal ≡ o
      → At d (Approved row.decision_id) w
      → Post (λ r. At d (Committed row.decision_id r)) (Safe d) (commit d true row w)
  unfolding commit write
  replace-At row w none l m h (inv, approved) =
      rw (d.store.replace_refused (d.iso w.clock) row w.journal (λ r found. cc (h, found)))
        (refused_lem (λ r. At d (Committed row.decision_id r)) (d.disk w.tick) _ w committed _ inv)
  replace-At row w (some old) l m h (inv, approved) = elim (prepared_cases old.status) [
    | inl p ↦
        let now = d.iso w.clock in
        let (s', e, writes) = d.store.replace_found now row w.journal old l m h p in
        let stored =
          commit_Stored (replaced now row old) w.journal s' w.log
            (λ r found. rw (ap (λ x. x.status) (some-injective _ _ (sym found ∙ h))) (rw p)) refl
            inv approved writes in
        rw e (
          landed_lem (λ r. At d (Committed row.decision_id r)) (d.disk w.tick) _ w committed _ s'
            inv stored.inv (stored, refl))
    | inr p ↦
        rw
          (d.store.replace_refused (d.iso w.clock) row w.journal
            (λ r found. rw (ap (λ x. x.status) (some-injective _ _ (sym found ∙ h))) p))
          (refused_lem (λ r. At d (Committed row.decision_id r)) (d.disk w.tick) _ w committed _
            inv)
  ]

  pub commit_lem :
      (replacing : Bool) (row : Draft) {n : Text}
      → row.ledger ≡ none
      → row.note ≡ some n
      → Triple
          (At d (Approved row.decision_id))
          (commit d replacing row)
          (λ r. At d (Committed row.decision_id r))
          (Safe d)
  commit_lem true row l m = record { at = λ w p. replace-At row w _ l m refl p }
  commit_lem false row l m = record { at = λ w p. put-At row w _ l refl p }

  any-cons :
      (p : Event → Bool) (e : Event) (log : List Event) → any p log ≡ true → any p (e ∷ log) ≡ true
  unfolding any
  any-cons p e log h = ground arith

  commits-commits_some :
      (id envelope : Text) (log : List Event)
      → any (commits id envelope) log ≡ true
      → any (commits_some id) log ≡ true
  unfolding any
  commits-commits_some id envelope [] h = cc
  commits-commits_some id envelope (committed r ∷ log) h =
      ground (arith, commits-commits_some id envelope log)
  commits-commits_some id envelope (read_decision _ _ ∷ log) h =
      commits-commits_some id envelope log h
  commits-commits_some id envelope (moved _ ∷ log) h = commits-commits_some id envelope log h
  commits-commits_some id envelope (mark_called _ ∷ log) h = commits-commits_some id envelope log h
  commits-commits_some id envelope (mark_confirmed _ ∷ log) h =
      commits-commits_some id envelope log h
  commits-commits_some id envelope (posted _ _ ∷ log) h = commits-commits_some id envelope log h

  -- `mark_settled` is called where it may be, and a confirmation makes the decision settled.
  pub mark_lem :
      (r : SettlementRecord) (g : Gated)
      → to_hex g.decision.decision_id ≡ r.decision_id
      → Triple (At d (Stored r)) (mark d g) (λ _. At d (Marked r)) (Safe d)
  unfolding mark
  mark_lem r g named =
      Triple-bind (λ _. At d (Stored r)) (Triple-modify _ (λ w p. called w p))
        (λ _.
          Triple-bind (λ _. At d (Stored r)) (call_lem d (At d (Stored r)) _ (λ w p. (p, p.inv)))
            (λ ledger.
              Triple-bind (λ _. At d (Marked r)) (Triple-modify _ (λ w p. confirmed w p))
                (λ _. Triple-pure ledger (λ w p. p))))
    where
      called :
          (w : World d)
          → At d (Stored r) w
          → At d (Stored r) (note_event d (mark_called (to_hex g.decision.decision_id)) w)
      called w p = record {
        inv =
            Inv-event d.store _ w.journal w.log tt
              (
                rw named p.approved,
                rw named (
                    commits-commits_some r.decision_id r.envelope_xdr w.log
                      (p.inv.journal _ r p.stored).0),
              )
              p.inv;
        approved = any-cons _ _ w.log p.approved;
        stored = p.stored;
      }

      confirmed :
          (w : World d)
          → At d (Stored r) w
          → At d (Marked r) (note_event d (mark_confirmed (to_hex g.decision.decision_id)) w)
      confirmed w p = record {
        hold = record {
          inv = Inv-event d.store _ w.journal w.log tt tt p.inv;
          approved = any-cons _ _ w.log p.approved;
          stored = p.stored;
        };
        settled = unfold any in rw named (rw (text_eq_refl r.decision_id));
      }

  -- The POST is of the committed bytes of a record beyond `PREPARED`.
  pub post_lem :
      (r : SettlementRecord) → Triple (At d (Live r)) (post d r) (λ _. At d (Live r)) (Safe d)
  unfolding post
  post_lem r =
      Triple-bind (λ _. At d (Live r)) (Triple-modify _ (λ w p. sent w p))
        (λ _. call_lem d (At d (Live r)) _ (λ w p. (p, p.hold.hold.inv)))
    where
      sent :
          (w : World d)
          → At d (Live r) w
          → At d (Live r) (note_event d (posted r.decision_id r.envelope_xdr) w)
      sent w p =
          let hold = p.hold.hold in
          record {
            hold = record {
              hold = record {
                inv =
                    Inv-event d.store (posted r.decision_id r.envelope_xdr) w.journal w.log
                      (r, hold.stored, p.beyond, refl)
                      (hold.approved, p.hold.settled, (hold.inv.journal _ r hold.stored).0)
                      hold.inv;
                approved = any-cons _ _ w.log hold.approved;
                stored = hold.stored;
              };
              settled = any-cons _ _ w.log p.hold.settled;
            };
            beyond = p.beyond;
          }
