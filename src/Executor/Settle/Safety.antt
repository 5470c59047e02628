-- ===== src/Executor/Settle/Safety.antt =====
-- What any sequence of settlements and recoveries guarantees about payments.
use aegis_phase.Prelude.{◌≡◌, sym, ap, ◌∙◌, true, false, some, List, [], ◌∷◌, ◌++◌, Text, any, All}
use mathlib.Core.List.{Memᴰ}
use mathlib.Core.Path.{subst}
use mathlib.Core.Option.{some-injective}
use aegis_phase.Executor.Store.{SettlementRecord, is_prepared}
use aegis_phase.Executor.World.{Deps, Event, mark_called, posted}
use aegis_phase.Executor.Settle.Invariant.{
  Backed, Ordered, Preceded, read_approved, shows_settled, commits, commits_some,
}
use aegis_phase.Executor.Settle.Runs.{Request, serve, initial, reached_Inv}

All-Mem : {A : Type 0} (P : A → Type 0) {x : A} {xs : List A} → Memᴰ x xs → All P xs → P x
All-Mem P (Memᴰ.head e) h = subst P (sym e) h.0
All-Mem P (Memᴰ.tail m) h = All-Mem P m h.1

Ordered-at :
    (later : List Event) (e : Event) (earlier : List Event)
    → Ordered (later ++ e ∷ earlier)
    → Preceded e earlier
Ordered-at [] e earlier h = h.0
Ordered-at (x ∷ later) e earlier h = Ordered-at later e earlier h.1

-- Whatever settlements and recoveries are asked for, in whatever order, and whatever the outside
-- answers or wherever the process ends, all bytes that are ever POSTed for a decision are the same.
pub one_envelope :
    (d : Deps) (requests : List Request) (id first second : Text)
    → Memᴰ (posted id first) (serve d requests (initial d)).log
    → Memᴰ (posted id second) (serve d requests (initial d)).log
    → first ≡ second
one_envelope d requests id first second m n =
    let inv = reached_Inv d requests in
    let (r, found, _, same) = All-Mem (Backed d.store _) m inv.backed in
    let (r', found', _, same') = All-Mem (Backed d.store _) n inv.backed in
    sym same
    ∙ (ap (λ (x : SettlementRecord). x.envelope_xdr) (some-injective _ _ (sym found ∙ found'))
        ∙ same')

-- When bytes are POSTed for a decision, the contract was read before and had approved it, it was
-- known to hold the decision as settled, and these very bytes were committed to the journal.
pub post_preceded :
    (d : Deps) (requests : List Request) (later earlier : List Event) (id envelope : Text)
    → (serve d requests (initial d)).log ≡ later ++ posted id envelope ∷ earlier
    → (any (read_approved id) earlier ≡ true)
      × (any (shows_settled id) earlier ≡ true)
      × (any (commits id envelope) earlier ≡ true)
post_preceded d requests later earlier id envelope e =
    Ordered-at later (posted id envelope) earlier (subst Ordered e (reached_Inv d requests).ordered)

-- When `mark_settled` is called for a decision, the contract was read before and had approved it,
-- and an envelope for the decision was committed to the journal.
pub mark_preceded :
    (d : Deps) (requests : List Request) (later earlier : List Event) (id : Text)
    → (serve d requests (initial d)).log ≡ later ++ mark_called id ∷ earlier
    → (any (read_approved id) earlier ≡ true) × (any (commits_some id) earlier ≡ true)
mark_preceded d requests later earlier id e =
    Ordered-at later (mark_called id) earlier (subst Ordered e (reached_Inv d requests).ordered)

-- The journal holds, for every decision for which bytes were POSTed, a record with those bytes that
-- has left `PREPARED`: a crash at any point loses no envelope that may be on the ledger.
pub posted_recorded :
    (d : Deps) (requests : List Request) (id envelope : Text)
    → Memᴰ (posted id envelope) (serve d requests (initial d)).log
    → (r : SettlementRecord) × (d.store.get id (serve d requests (initial d)).journal ≡ some r)
      × (is_prepared r.status ≡ false)
      × (r.envelope_xdr ≡ envelope)
posted_recorded d requests id envelope m =
    All-Mem (Backed d.store _) m (reached_Inv d requests).backed
