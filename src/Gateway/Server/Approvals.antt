-- ===== src/Gateway/Server/Approvals.antt =====
-- `GET /v1/approvals` of apps/gateway/src/server.ts: what is listed is what the chain says is pending.
use aegis_phase.Prelude.{
  ℕ, suc, ◌≡◌, ◌↔◌, refl, sym, ap, ◌∙◌, Bool, true, false, not, some, List, [], ◌∷◌, Text, and-true,
  if◌then◌else◌, length,
}
use mathlib.Core.List.{Memᴰ}
use mathlib.Core.Path.{subst}
use aegis_phase.Prelude.Result.{Result, ok, err, ok-injective}
use aegis_phase.Executor.World.{Verdict, approved, rejected, requires_approval}
use aegis_phase.Gateway.ContractErrors.{ChainError}
use aegis_phase.Gateway.Chain.Calls.{Client, get_decision}
use aegis_phase.Gateway.Chain.Decisions.{ChainDecision}
use aegis_phase.Gateway.Store.{ApprovalCandidate, IntentStore}
use aegis_phase.Gateway.Server.Reading.{
  Collected, collect, collected, is_pending, limit_of, get_approvals,
}
use aegis_phase.Gateway.Server.State.{World, Services, approvals, is_escalated}

module _ (S : IntentStore) (svc : Services) (client : Client) where
  -- The chain answers every read as the client does.
  abbrev pub IsStill : Type 0
  IsStill = (n : ℕ) (id : Text) → get_decision (svc.chain n) id ≡ get_decision client id

  -- A candidate's decision is read and waits for its approval.
  abbrev pub Waits : List ApprovalCandidate → ChainDecision → ApprovalCandidate → Type 0
  Waits candidates d c =
      Memᴰ c candidates
      × (get_decision client c.row.decision_id ≡ ok d)
      × (d.verdict ≡ requires_approval)
      × (d.resolved ≡ false)

  -- A candidate's decision cannot be read.
  abbrev pub Fails : List ApprovalCandidate → Text → Type 0
  Fails candidates id =
      (c : ApprovalCandidate) × Memᴰ c candidates
      × (c.row.decision_id ≡ id)
      × ((e : ChainError) × (get_decision client id ≡ err e))

  -- The two lists are these.
  abbrev pub IsExact : List ApprovalCandidate → Collected S svc → Type 0
  IsExact candidates found =
      ((d : ChainDecision) (c : ApprovalCandidate)
        → Memᴰ (d, c) found.pending ↔ Waits candidates d c)
      × ((id : Text) → Memᴰ id found.unreadable ↔ Fails candidates id)

  is_pending-waits :
      (d : ChainDecision)
      → is_pending S svc d ≡ true
      → (d.verdict ≡ requires_approval) × (d.resolved ≡ false)
  is_pending-waits d h =
      let (a, b) = and-true (is_escalated d.verdict) (not d.resolved) h in
      (escalates d.verdict a, open_one d.resolved b)
    where
      escalates : (v : Verdict) → is_escalated v ≡ true → v ≡ requires_approval
      escalates approved e = cc
      escalates rejected e = cc
      escalates requires_approval e = refl

      open_one : (b : Bool) → not b ≡ true → b ≡ false
      open_one true e = cc
      open_one false e = refl

  waits-is_pending :
      (d : ChainDecision)
      → d.verdict ≡ requires_approval
      → d.resolved ≡ false
      → is_pending S svc d ≡ true
  waits-is_pending d v r = rw (v, r) refl

  module _ (c : ApprovalCandidate) (candidates : List ApprovalCandidate)
      (rest : Collected S svc) where
    later :
        (d : ChainDecision) (x : ApprovalCandidate)
        → Waits candidates d x
        → Waits (c ∷ candidates) d x
    later d x (m, g, v, r) = (Memᴰ.tail m, g, v, r)

    later-Fails : (id : Text) → Fails candidates id → Fails (c ∷ candidates) id
    later-Fails id (x, m, i, g) = (x, Memᴰ.tail m, i, g)

    -- The candidate cannot be read.
    unread-IsExact :
        (e : ChainError)
        → get_decision client c.row.decision_id ≡ err e
        → IsExact candidates rest
        → IsExact (c ∷ candidates) (collected S svc c rest (err e))
    unread-IsExact e k (p, u) =
        (λ d x. (λ m. later d x ((p d x).0 m), waits d x), λ id. (unread id, fails id))
      where
        waits :
            (d : ChainDecision) (x : ApprovalCandidate)
            → Waits (c ∷ candidates) d x
            → Memᴰ (d, x) rest.pending
        waits d x (Memᴰ.head q, g, v, r) = cc
        waits d x (Memᴰ.tail m, g, v, r) = (p d x).1 (m, g, v, r)

        unread :
            (id : Text) → Memᴰ id (c.row.decision_id ∷ rest.unreadable) → Fails (c ∷ candidates) id
        unread id (Memᴰ.head q) = (c, Memᴰ.head refl, sym q, (e, ap (get_decision client) q ∙ k))
        unread id (Memᴰ.tail m) = later-Fails id ((u id).0 m)

        fails :
            (id : Text) → Fails (c ∷ candidates) id → Memᴰ id (c.row.decision_id ∷ rest.unreadable)
        fails id (x, Memᴰ.head q, i, g) =
            Memᴰ.head (sym i ∙ ap (λ (a : ApprovalCandidate). a.row.decision_id) q)
        fails id (x, Memᴰ.tail m, i, g) = Memᴰ.tail ((u id).1 (x, m, i, g))

    -- The candidate is read.
    module _ (d : ChainDecision) (k : get_decision client c.row.decision_id ≡ ok d) where
      still-Fails :
          (u : (id : Text) → Memᴰ id rest.unreadable ↔ Fails candidates id) (id : Text)
          → Memᴰ id rest.unreadable ↔ Fails (c ∷ candidates) id
      still-Fails u id = (λ m. later-Fails id ((u id).0 m), fails)
        where
          fails : Fails (c ∷ candidates) id → Memᴰ id rest.unreadable
          fails (x, Memᴰ.head q, i, (e, g)) = cc
          fails (x, Memᴰ.tail m, i, g) = (u id).1 (x, m, i, g)

      same :
          (a : ChainDecision) (x : ApprovalCandidate)
          → get_decision client x.row.decision_id ≡ ok a
          → x ≡ c
          → a ≡ d
      same a x g q =
          ok-injective
            (sym g ∙ (ap (λ (z : ApprovalCandidate). get_decision client z.row.decision_id) q ∙ k))

      pending_or :
          (b : Bool)
          → is_pending S svc d ≡ b
          → IsExact candidates rest
          → IsExact (c ∷ candidates) (record {
            pending = if b then (d, c) ∷ rest.pending else rest.pending;
            unreadable = rest.unreadable;
            asked = [];
          })
      pending_or true h (p, u) = (λ a x. (found a x, waits a x), still-Fails u)
        where
          found :
              (a : ChainDecision) (x : ApprovalCandidate)
              → Memᴰ (a, x) ((d, c) ∷ rest.pending)
              → Waits (c ∷ candidates) a x
          found a x (Memᴰ.head q) =
              let (v, r) = is_pending-waits d h in
              subst (λ (z : ChainDecision × ApprovalCandidate). Waits (c ∷ candidates) z.0 z.1)
                (sym q) (Memᴰ.head refl, k, v, r)
          found a x (Memᴰ.tail m) = later a x ((p a x).0 m)

          waits :
              (a : ChainDecision) (x : ApprovalCandidate)
              → Waits (c ∷ candidates) a x
              → Memᴰ (a, x) ((d, c) ∷ rest.pending)
          waits a x (Memᴰ.head q, g, v, r) = Memᴰ.head (
              ap (λ (y : ChainDecision). (y, x)) (same a x g q)
              ∙ ap (λ (y : ApprovalCandidate). (d, y)) q)
          waits a x (Memᴰ.tail m, g, v, r) = Memᴰ.tail ((p a x).1 (m, g, v, r))
      pending_or false h (p, u) = (λ a x. (λ m. later a x ((p a x).0 m), waits a x), still-Fails u)
        where
          waits :
              (a : ChainDecision) (x : ApprovalCandidate)
              → Waits (c ∷ candidates) a x
              → Memᴰ (a, x) rest.pending
          waits a x (Memᴰ.head q, g, v, r) = absurd (
              let y : is_pending S svc d ≡ true =
                subst (λ (z : ChainDecision). is_pending S svc z ≡ true) (same a x g q)
                  (waits-is_pending a v r) in
              cc)
          waits a x (Memᴰ.tail m, g, v, r) = (p a x).1 (m, g, v, r)

  collected-IsExact :
      (c : ApprovalCandidate) (candidates : List ApprovalCandidate) (rest : Collected S svc)
      (r : Result ChainError ChainDecision)
      → get_decision client c.row.decision_id ≡ r
      → IsExact candidates rest
      → IsExact (c ∷ candidates) (collected S svc c rest r)
  collected-IsExact c candidates rest (err e) k x = unread-IsExact c candidates rest e k x
  collected-IsExact c candidates rest (ok d) k x = pending_or c candidates rest d k _ refl x

  collect-IsExact :
      IsStill
      → (n : ℕ) (candidates : List ApprovalCandidate)
      → IsExact candidates (collect S svc n candidates)
  unfolding collect
  collect-IsExact still n [] = (
    λ d c. (λ m. elim m [ ], λ (m, g, v, r). elim m [ ]),
    λ id. (λ m. elim m [ ], λ (c, m, i, g). elim m [ ]),
  )
  collect-IsExact still n (c ∷ rest) =
      collected-IsExact c rest (collect S svc (suc n) rest)
        (get_decision (svc.chain n) c.row.decision_id) (sym (still n c.row.decision_id))
        (collect-IsExact still (suc n) rest)

  -- A listing of at most so many candidates, on a chain that answers every read as this client does,
  -- has exactly the candidates whose decision waits for its approval on the chain, each with that
  -- decision, and apart from them exactly the candidates that could not be read.
  pub get_approvals-IsExact :
      IsStill
      → (limit n : ℕ) (w : World S) → limit_of S svc (some limit) ≡ some n
      → (found : Collected S svc) × ((get_approvals S svc (some limit) w).0.body
          ≡ approvals found.pending found.unreadable S.degraded)
        × IsExact (S.approval_candidates n w.store).0 found
  unfolding get_approvals
  get_approvals-IsExact still limit n w h = (
    collect S svc (length w.calls) (S.approval_candidates n w.store).0,
    rw h refl,
    collect-IsExact still (length w.calls) (S.approval_candidates n w.store).0,
  )
