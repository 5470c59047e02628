-- ===== src/Gateway/Routes/Reading.antt =====
-- What the reading handlers of apps/gateway/src/server.ts do.
use aegis_phase.Gateway.Routes.Writes.{Writes}
use aegis_phase.Prelude.{
  suc, length, ℕ, ◌≡◌, refl, sym, Option, none, some, List, [], ◌∷◌, ◌++◌, Text, Bytes, All,
}
use mathlib.Core.List.{append-nil}
use aegis_phase.Prelude.Result.{Result, ok, err}
use aegis_phase.Gateway.ContractErrors.{ChainError}
use aegis_phase.Gateway.Store.{IntentRow, IntentStore, ApprovalCandidate}
use aegis_phase.Gateway.Chain.Calls.{get_decision, decision_by_intent}
use aegis_phase.Gateway.Chain.Decisions.{ChainDecision}
use aegis_phase.Gateway.Request.{hash32_hex}
use aegis_phase.Gateway.Server.Stores.{Looks, no_look, looks_up, lists}
use aegis_phase.Gateway.Server.Reading.{
  collect, decision_answer, decision_at, intent_answer, intent_found, intent_at, collected,
  limit_of, listed, approvals_with, get_decisions, get_intents, get_approvals,
}
use aegis_phase.Gateway.Server.State.{
  ChainCall, authorized, resolved_as, decision_read, intent_read, policy_read, World, Services,
  client_at, called,
}
use aegis_phase.Gateway.Routes.{
  Route, posts_intent, resolves, reads_decision, reads_intent, lists_approvals, no_route, Request,
  handled,
}

abbrev pub IsRead : ChainCall → Type 0
IsRead (authorized i) = ⊥
IsRead (resolved_as d a) = ⊥
IsRead (decision_read d) = Unit {0}
IsRead (intent_read h) = Unit {0}
IsRead (policy_read a) = Unit {0}

module _ (S : IntentStore) (svc : Services) where
  -- Only reads of the chain were added, and no record; and of the store's operations only lookups were
  -- made.
  pub record Reads (w w' : World S) : Type 0 where
    pub more_calls : List ChainCall
    pub calls_grow : w'.calls ≡ w.calls ++ more_calls
    pub reads_only : All IsRead more_calls
    pub transcript_same : w'.transcript ≡ w.transcript
    pub looks_only : Looks S w.store w'.store

  pub nothing_done : (w : World S) → Reads w w
  nothing_done w = record {
    more_calls = [];
    calls_grow = sym (append-nil w.calls);
    reads_only = tt;
    transcript_same = refl;
    looks_only = no_look;
  }

  decision_answer-Reads :
      (id : Text) (w : World S) (r : Result ChainError ChainDecision)
      → Reads w (decision_answer S svc (called S svc (decision_read id) w) r).1
  decision_answer-Reads id w (err e) = record {
    more_calls = decision_read id ∷ [];
    calls_grow = refl;
    reads_only = (tt, tt);
    transcript_same = refl;
    looks_only = no_look;
  }
  decision_answer-Reads id w (ok d) = record {
    more_calls = decision_read id ∷ [];
    calls_grow = refl;
    reads_only = (tt, tt);
    transcript_same = refl;
    looks_only = looks_up d.intent_hash no_look;
  }

  get_decisions-Reads : (id : Text) (w : World S) → Reads w (get_decisions S svc id w).1
  unfolding get_decisions
  get_decisions-Reads id w = at (hash32_hex id)
    where
      at : (o : Option Text) → Reads w (decision_at S svc w o).1
      at none = nothing_done w
      at (some i) = decision_answer-Reads i w (get_decision (client_at S svc w) i)

  get_intents-Reads : (id : Text) (w : World S) → Reads w (get_intents S svc id w).1
  unfolding get_intents
  get_intents-Reads id w = at (hash32_hex id)
    where
      answer :
          (hash : Text) (row : Option IntentRow) (store : S.State)
          (r : Result ChainError ChainDecision)
          → Looks S w.store store
          → Reads w
              (intent_answer S svc
                (called S svc (intent_read hash) (record w { store = store }))
                row
                r).1
      answer hash row store (err e) l = record {
        more_calls = intent_read hash ∷ [];
        calls_grow = refl;
        reads_only = (tt, tt);
        transcript_same = refl;
        looks_only = l;
      }
      answer hash row store (ok d) l = record {
        more_calls = intent_read hash ∷ [];
        calls_grow = refl;
        reads_only = (tt, tt);
        transcript_same = refl;
        looks_only = l;
      }

      found :
          (hash : Text) (r : Option IntentRow × S.State)
          → Looks S w.store r.1
          → Reads w (intent_found S svc w hash r).1
      found hash (row, store) = answer hash row store (decision_by_intent (client_at S svc w) hash)

      at : (o : Option Text) → Reads w (intent_at S svc w o).1
      at none = nothing_done w
      at (some hash) = found hash (S.intent_by_hash hash w.store) (looks_up hash no_look)

  collect-reads :
      (n : ℕ) (candidates : List ApprovalCandidate) → All IsRead (collect S svc n candidates).asked
  unfolding collect
  collect-reads n [] = tt
  collect-reads n (c ∷ rest) =
      asked (get_decision (svc.chain n) c.row.decision_id) (collect-reads (suc n) rest)
    where
      asked :
          (r : Result ChainError ChainDecision)
          → All IsRead (collect S svc (suc n) rest).asked
          → All IsRead (collected S svc c (collect S svc (suc n) rest) r).asked
      asked (err e) h = (tt, h)
      asked (ok d) h = (tt, h)

  get_approvals-Reads : (limit : Option ℕ) (w : World S) → Reads w (get_approvals S svc limit w).1
  unfolding get_approvals
  get_approvals-Reads limit w = with_limit (limit_of S svc limit)
    where
      listing :
          (r : List ApprovalCandidate × S.State)
          → Looks S w.store r.1
          → Reads w (listed S svc w r).1
      listing (candidates, store) l = record {
        more_calls = (collect S svc (length w.calls) candidates).asked;
        calls_grow = refl;
        reads_only = collect-reads (length w.calls) candidates;
        transcript_same = refl;
        looks_only = l;
      }

      with_limit : (o : Option ℕ) → Reads w (approvals_with S svc w o).1
      with_limit none = nothing_done w
      with_limit (some n) = listing (S.approval_candidates n w.store) (lists n no_look)

  pub handled-Reads :
      (digest : Text → Bytes) (path_of : Text → Text) (q : Request) (w : World S) (r : Route)
      → ¬ Writes r
      → Reads w (handled S svc digest path_of q w r).1
  handled-Reads digest path_of q w posts_intent n = absurd (n tt)
  handled-Reads digest path_of q w (resolves id) n = absurd (n tt)
  handled-Reads digest path_of q w (reads_decision id) n = get_decisions-Reads id w
  handled-Reads digest path_of q w (reads_intent hash) n = get_intents-Reads hash w
  handled-Reads digest path_of q w lists_approvals n = get_approvals-Reads q.limit w
  handled-Reads digest path_of q w no_route n = nothing_done w
