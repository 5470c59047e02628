-- ===== src/Console/Evidence/Supported.antt =====
-- What the page of apps/console/src/chain.ts may say of a reference.
use aegis_phase.Prelude.{
  ◌≡◌, ◌⊎◌, inl, inr, refl, Bool, true, false, Option, none, some, Text, codes, text_eq,
  if◌then◌else◌,
}
use mathlib.Core.Path.{subst}
use aegis_phase.Prelude.Result.{Result, ok, err, ◌>>=◌}
use aegis_phase.Gateway.Chain.Decisions.{Decision, ChainDecision, normalize_decision}
use aegis_phase.Gateway.Chain.Calls.{buffer_of}
use aegis_phase.Console.Lookup.{
  Via, intent, decision, Simulated, TransportError, DecisionLookup, found, absent, archived,
  Absence, lookup, error_of, is_archived, named, clean, simulated, contract_error_name,
  needs_restore, decision_not_found, answered,
}
use aegis_phase.Console.Evidence.{
  Rpc, Evidence, fetch_evidence, fetch_decision_by_intent, fetch_decision_by_id,
  fetch_current_policy, fetch_current_window, fetch_memo_hash, first_read, second_read, or_second,
  unless_absent, supported,
}

-- The decision that a call returned, after a simulation without an error.
pub record Returned (call : Result Text Simulated) (d : ChainDecision) : Type 0 where
  pub tx : Simulated
  pub value : Decision
  pub answered_ok : call ≡ ok tx
  pub no_error : error_of tx.simulation_error ≡ none
  pub holds : tx.result ≡ ok (some value)
  pub same : d ≡ normalize_decision value

-- Which lookup the three branches of a contract's error give.
NotFound : Result TransportError DecisionLookup → Type 0
NotFound r = (d : ChainDecision) (via : Via) → ¬ (r ≡ ok (found d via))

named-NotFound : (message : Text) (o : Option Text) → NotFound (named message o)
unfolding NotFound
named-NotFound message none d via = λ e. cc
named-NotFound message (some name) d via =
    by_name (text_eq name (codes "DecisionNotFound")) (text_eq name (codes "NotInitialized"))
  where
    by_name :
        (a b : Bool)
        → ¬ (
            (if a
              then ok (absent decision_not_found)
              else if b
              then err TransportError.contract_not_initialized
              else ok (absent (answered name)))
            ≡ ok (found d via))
    by_name true b = λ e. cc
    by_name false true = λ e. cc
    by_name false false = λ e. cc

clean-Returned :
    (call : Result Text Simulated) (tx : Simulated) (via v : Via) (restore : Bool)
    (o : Result Text (Option Decision)) (d : ChainDecision)
    → call ≡ ok tx
    → error_of tx.simulation_error ≡ none
    → tx.result ≡ o
    → clean via restore o ≡ ok (found d v)
    → Returned call d × (via ≡ v)
clean-Returned call tx via v restore (err message) d c n h e = cc
clean-Returned call tx via v restore (ok (some raw)) d c n h e =
    (record { tx = tx; value = raw; answered_ok = c; no_error = n; holds = h; same = cc }, cc)
clean-Returned call tx via v true (ok none) d c n h e = cc
clean-Returned call tx via v false (ok none) d c n h e = cc

module _ (via v : Via) (d : ChainDecision) where
  chosen :
      (b : Bool) (r : Result TransportError DecisionLookup)
      → NotFound r
      → ¬ ((if b then ok archived else r) ≡ ok (found d v))
  unfolding NotFound
  chosen true r n = λ e. cc
  chosen false r n = n d v

  simulated-Returned :
      (call : Result Text Simulated) (tx : Simulated) (o : Option Text)
      → call ≡ ok tx
      → error_of tx.simulation_error ≡ o
      → simulated via tx o ≡ ok (found d v)
      → Returned call d × (via ≡ v)
  simulated-Returned call tx none c n e =
      clean-Returned call tx via v (needs_restore tx) tx.result d c n refl e
  simulated-Returned call tx (some message) c n e = absurd (
      chosen (is_archived message) (named message (contract_error_name message))
        (named-NotFound message _) e)

  lookup-Returned :
      (call : Result Text Simulated)
      → lookup via call ≡ ok (found d v)
      → Returned call d × (via ≡ v)
  unfolding lookup NotFound
  lookup-Returned (err message) e =
      absurd
        (chosen (is_archived message) (err (TransportError.call_failed message)) (λ a b z. cc) e)
  lookup-Returned (ok tx) e =
      simulated-Returned (ok tx) tx (error_of tx.simulation_error) refl refl e

module _ (rpc : Rpc) (ref : Text) where
  abbrev pub call : Via → Result Text Simulated
  call intent = rpc.decision_by_intent (buffer_of ref)
  call decision = rpc.get_decision (buffer_of ref)

  -- What the evidence rests on: a decision on the contract's answer, with the reads for its agent and
  -- its id; an absence on two answers; an archived entry on one of them.
  abbrev pub Supports : Via → Evidence → DecisionLookup → Type 0
  Supports prefer e (found d via) =
      Returned (call via) d
      × (e.memo_hash ≡ fetch_memo_hash rpc d.decision_id)
      × (e.policy ≡ fetch_current_policy rpc d.agent)
      × (e.window ≡ fetch_current_window rpc d.agent)
  Supports prefer e (absent reason) =
      (first_read rpc prefer ref ≡ ok (absent reason))
      × ((other : Absence) × (second_read rpc prefer ref ≡ ok (absent other)))
  Supports prefer e archived =
      (first_read rpc prefer ref ≡ ok archived) ⊎ (second_read rpc prefer ref ≡ ok archived)

  -- The same of what was chosen.
  abbrev Chosen : Via → DecisionLookup → Type 0
  Chosen prefer (found d via) = Returned (call via) d
  Chosen prefer (absent reason) =
      (first_read rpc prefer ref ≡ ok (absent reason))
      × ((other : Absence) × (second_read rpc prefer ref ≡ ok (absent other)))
  Chosen prefer archived =
      (first_read rpc prefer ref ≡ ok archived) ⊎ (second_read rpc prefer ref ≡ ok archived)

  by_id-Returned :
      (d : ChainDecision) (v : Via)
      → fetch_decision_by_id rpc ref ≡ ok (found d v)
      → Returned (call v) d
  unfolding fetch_decision_by_id
  by_id-Returned d v e =
      let (r, s) = lookup-Returned decision v d (call decision) e in
      subst (λ (x : Via). Returned (call x) d) s r

  by_intent-Returned :
      (d : ChainDecision) (v : Via)
      → fetch_decision_by_intent rpc ref ≡ ok (found d v)
      → Returned (call v) d
  unfolding fetch_decision_by_intent
  by_intent-Returned d v e =
      let (r, s) = lookup-Returned intent v d (call intent) e in
      subst (λ (x : Via). Returned (call x) d) s r

  first-Returned :
      (prefer : Via) (d : ChainDecision) (v : Via)
      → first_read rpc prefer ref ≡ ok (found d v)
      → Returned (call v) d
  first-Returned intent d v e = by_intent-Returned d v e
  first-Returned decision d v e = by_id-Returned d v e

  second-Returned :
      (prefer : Via) (d : ChainDecision) (v : Via)
      → second_read rpc prefer ref ≡ ok (found d v)
      → Returned (call v) d
  second-Returned intent d v e = by_id-Returned d v e
  second-Returned decision d v e = by_intent-Returned d v e

  unless_absent-Chosen :
      (prefer : Via) (reason : Absence) (fallback : DecisionLookup)
      → first_read rpc prefer ref ≡ ok (absent reason)
      → second_read rpc prefer ref ≡ ok fallback
      → Chosen prefer (unless_absent rpc reason fallback)
  unless_absent-Chosen prefer reason (found d via) f s = second-Returned prefer d via s
  unless_absent-Chosen prefer reason archived f s = inr s
  unless_absent-Chosen prefer reason (absent other) f s = (f, (other, s))

  supported-Supports :
      (prefer : Via) (chosen : DecisionLookup)
      → Chosen prefer chosen
      → Supports prefer (supported rpc ref chosen) (supported rpc ref chosen).lookup
  supported-Supports prefer (found d via) h = (h, refl, refl, refl)
  supported-Supports prefer (absent reason) h = h
  supported-Supports prefer archived h = h

  abbrev pub other_of : Via → Via
  other_of intent = decision
  other_of decision = intent

  either :
      (prefer : Via) (d : ChainDecision) (via : Via) (reason : Absence)
      → first_read rpc prefer ref ≡ ok (found d via)
      → second_read rpc prefer ref ≡ ok (absent reason)
      → fetch_evidence rpc ref (other_of prefer) ≡ ok (supported rpc ref (found d via))
  unfolding fetch_evidence
  either intent d via reason f s = rw (s, f) refl
  either decision d via reason f s = rw (s, f) refl

  -- An error is one of the two lookups'; the second is made only where the first finds no decision.
  abbrev pub IsBacked : Via → Result TransportError Evidence → Type 0
  IsBacked prefer (err e) =
      (first_read rpc prefer ref ≡ err e)
      ⊎ ((reason : Absence) × (first_read rpc prefer ref ≡ ok (absent reason))
          × (second_read rpc prefer ref ≡ err e))
  IsBacked prefer (ok e) = Supports prefer e e.lookup

  from_second :
      (prefer : Via) (reason : Absence)
      → first_read rpc prefer ref ≡ ok (absent reason)
      → (r : Result TransportError DecisionLookup) → second_read rpc prefer ref ≡ r
      → IsBacked prefer (do
        chosen ← (do fallback ← r; ok (unless_absent rpc reason fallback))
        ok (supported rpc ref chosen))
  from_second prefer reason f (err e) s = inr (reason, f, s)
  from_second prefer reason f (ok fallback) s =
      supported-Supports prefer (unless_absent rpc reason fallback)
        (unless_absent-Chosen prefer reason fallback f s)

  from_first :
      (prefer : Via) (r : Result TransportError DecisionLookup)
      → first_read rpc prefer ref ≡ r
      → IsBacked prefer
          (do first ← r; chosen ← or_second rpc prefer ref first; ok (supported rpc ref chosen))
  from_first prefer (err e) f = inl f
  from_first prefer (ok (found d via)) f =
      supported-Supports prefer (found d via) (first-Returned prefer d via f)
  from_first prefer (ok archived) f = supported-Supports prefer archived (inl f)
  from_first prefer (ok (absent reason)) f =
      from_second prefer reason f (second_read rpc prefer ref) refl

  -- The evidence of a reference says a decision only if a simulation of the contract without an error
  -- returned it, beside what was read for that decision's agent and id; it says that there is none only
  -- if the lookups by intent and by decision both say so, and that it is archived only if one of them
  -- does. It fails only with the error of the first lookup, or with that of the second where the first
  -- says that there is none: a read that supports the decision never makes it fail.
  pub fetch_evidence-IsBacked : (prefer : Via) → IsBacked prefer (fetch_evidence rpc ref prefer)
  unfolding fetch_evidence
  fetch_evidence-IsBacked prefer = from_first prefer (first_read rpc prefer ref) refl

  -- Where one lookup finds a decision and the other says that there is none, the page finds it,
  -- whichever the URL named.
  pub fetch_evidence-either :
      (prefer : Via) (d : ChainDecision) (via : Via) (reason : Absence)
      → first_read rpc prefer ref ≡ ok (found d via)
      → second_read rpc prefer ref ≡ ok (absent reason)
      → (fetch_evidence rpc ref prefer ≡ ok (supported rpc ref (found d via)))
        × (fetch_evidence rpc ref (other_of prefer) ≡ ok (supported rpc ref (found d via)))
  unfolding fetch_evidence
  fetch_evidence-either prefer d via reason f s = (rw f refl, either prefer d via reason f s)
