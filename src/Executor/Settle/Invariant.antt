-- ===== src/Executor/Settle/Invariant.antt =====
-- What holds of the journal and of the events between two steps of the executor, in whatever order
-- calls fail or the process ends.
use aegis_phase.Prelude.{
  ◌≡◌, sym, ◌⊎◌, inl, inr, Bool, true, false, ◌&&◌, some, List, [], ◌∷◌, Text, text_eq, text_eq_iff,
  any, ◌∙◌, All, arith, Bool-cases,
}
use mathlib.Core.Path.{subst}
use aegis_phase.Executor.Store.{SettlementRecord, SettlementStore, Writes, is_prepared}
use aegis_phase.Executor.World.{
  Event, read_decision, committed, moved, mark_called, mark_confirmed, posted,
}
use aegis_phase.Executor.Gate.{is_approved}

-- The decision was read from the contract, and was approved.
abbrev pub read_approved : Text → Event → Bool
read_approved id (read_decision k decision) = text_eq k id && is_approved decision.verdict
read_approved id _ = false

-- The contract is known to hold the decision as settled: it said so, or confirmed `mark_settled`.
abbrev pub shows_settled : Text → Event → Bool
shows_settled id (read_decision k decision) = text_eq k id && decision.settled
shows_settled id (mark_confirmed k) = text_eq k id
shows_settled id _ = false

-- The envelope was committed to the journal.
abbrev pub commits : Text → Text → Event → Bool
commits id envelope (committed r) = text_eq r.decision_id id && text_eq r.envelope_xdr envelope
commits id envelope _ = false

abbrev pub commits_some : Text → Event → Bool
commits_some id (committed r) = text_eq r.decision_id id
commits_some id _ = false

-- What must have happened before an event: a payment is POSTed for a decision that was read as
-- approved and is known to be settled, with an envelope committed before; `mark_settled` is called
-- for a decision that was read as approved and has a committed envelope.
abbrev pub Preceded : Event → List Event → Type 0
Preceded (posted id envelope) log =
    (any (read_approved id) log ≡ true)
    × (any (shows_settled id) log ≡ true)
    × (any (commits id envelope) log ≡ true)
Preceded (mark_called id) log =
    (any (read_approved id) log ≡ true) × (any (commits_some id) log ≡ true)
Preceded _ log = Unit

abbrev pub Ordered : List Event → Type 0
Ordered [] = Unit
Ordered (e ∷ log) = Preceded e log × Ordered log

module _ (store : SettlementStore) where
  -- Bytes that were POSTed are those of the decision's record, which has left `PREPARED`.
  abbrev pub Backed : store.State → Event → Type 0
  Backed s (posted id envelope) =
      (r : SettlementRecord) × (store.get id s ≡ some r)
      × (is_prepared r.status ≡ false)
      × (r.envelope_xdr ≡ envelope)
  Backed s _ = Unit

  -- A record's envelope was committed, and one beyond `PREPARED` is of a settled decision.
  abbrev pub Sound : List Event → SettlementRecord → Type 0
  Sound log r =
      (any (commits r.decision_id r.envelope_xdr) log ≡ true)
      × ((is_prepared r.status ≡ true) ⊎ (any (shows_settled r.decision_id) log ≡ true))

  pub record Inv (s : store.State) (log : List Event) : Type 0 where
    pub backed : All (Backed s) log
    pub ordered : Ordered log
    pub journal : (id : Text) (r : SettlementRecord) → store.get id s ≡ some r → Sound log r

  pub Inv-empty : Inv store.empty []
  Inv-empty = record { backed = tt; ordered = tt; journal = λ id r h. cc (store.get-empty id) }

  -- An event that is no POST adds nothing to the journal's side.
  Sound-cons :
      (e : Event) (log : List Event) (r : SettlementRecord) → Sound log r → Sound (e ∷ log) r
  unfolding any
  Sound-cons e log r h = ground arith

  pub Inv-event :
      (e : Event) (s : store.State) (log : List Event)
      → Backed s e
      → Preceded e log
      → Inv s log
      → Inv s (e ∷ log)
  Inv-event e s log b p inv = record {
    backed = (b, inv.backed);
    ordered = (p, inv.ordered);
    journal = λ id r h. Sound-cons e log r (inv.journal id r h);
  }

  -- A write keeps what was POSTed backed if it does not touch the envelope of a record beyond
  -- `PREPARED`, nor moves it back.
  abbrev Careful : store.State → Text → SettlementRecord → Type 0
  Careful s id r' =
      (r : SettlementRecord)
      → store.get id s ≡ some r
      → is_prepared r.status ≡ false
      → (is_prepared r'.status ≡ false) × (r'.envelope_xdr ≡ r.envelope_xdr)

  Backed-write :
      (s s' : store.State) (id : Text) (r' : SettlementRecord) (e : Event)
      → Writes store.get s s' id r'
      → Careful s id r'
      → Backed s e
      → Backed s' e
  Backed-write s s' id r' (posted k envelope) w careful (r, found, gone, same) =
      elim (Bool-cases (text_eq k id)) [
        | inl e ↦
            let k-id : k ≡ id = (text_eq_iff k id).0 e in
            let kept = careful r (rw (← k-id) found) gone in
            (r', rw (w k) (rw e), kept.0, kept.1 ∙ same)
        | inr e ↦ (r, rw (w k) (rw e found), gone, same)
      ]
  Backed-write s s' id r' (read_decision _ _) w careful b = tt
  Backed-write s s' id r' (committed _) w careful b = tt
  Backed-write s s' id r' (moved _) w careful b = tt
  Backed-write s s' id r' (mark_called _) w careful b = tt
  Backed-write s s' id r' (mark_confirmed _) w careful b = tt

  All-Backed-write :
      (s s' : store.State) (id : Text) (r' : SettlementRecord) (log : List Event)
      → Writes store.get s s' id r'
      → Careful s id r'
      → All (Backed s) log
      → All (Backed s') log
  All-Backed-write s s' id r' [] w careful b = tt
  All-Backed-write s s' id r' (e ∷ log) w careful (b, bs) =
      (Backed-write s s' id r' e w careful b, All-Backed-write s s' id r' log w careful bs)

  journal-write :
      (s s' : store.State) (id : Text) (r' : SettlementRecord) (log : List Event)
      → Writes store.get s s' id r'
      → Sound log r'
      → ((k : Text) (r : SettlementRecord) → store.get k s ≡ some r → Sound log r)
      → (k : Text) (r : SettlementRecord) → store.get k s' ≡ some r
      → Sound log r
  journal-write s s' id r' log w sound old k r h = elim (Bool-cases (text_eq k id)) [
    | inl e ↦ let same : r' ≡ r = cc (sym (w k) ∙ h, e) in subst (Sound log) same sound
    | inr e ↦ old k r (sym (rw (w k) (rw e)) ∙ h)
  ]

  pub Inv-write :
      (s s' : store.State) (id : Text) (r' : SettlementRecord) (e : Event) (log : List Event)
      → Writes store.get s s' id r'
      → Careful s id r'
      → Backed s' e
      → Preceded e log
      → Sound (e ∷ log) r'
      → Inv s log
      → Inv s' (e ∷ log)
  Inv-write s s' id r' e log w careful b p sound inv = record {
    backed = (b, All-Backed-write s s' id r' log w careful inv.backed);
    ordered = (p, inv.ordered);
    journal =
        journal-write s s' id r' (e ∷ log) w sound
          (λ k r h. Sound-cons e log r (inv.journal k r h));
  }
