-- ===== src/Console/Evidence.antt =====
-- `fetchEvidence` of apps/console/src/chain.ts. The contract's client and the RPC server are
-- parameters.
pub mod Supported
use aegis_phase.Prelude.{ℕ, Option, none, some, Text, Bytes}
use aegis_phase.Prelude.Result.{Result, ok, err, ◌>>=◌}
use aegis_phase.Canonical.Bytes.{to_hex}
use aegis_phase.Gateway.Chain.Calls.{buffer_of}
use aegis_phase.Gateway.Chain.Decisions.{ChainDecision}
use aegis_phase.Console.Policies.{CurrentPolicy, CurrentWindow}
use aegis_phase.Console.Lookup.{
  Via, intent, decision, Simulated, TransportError, DecisionLookup, found, absent, archived,
  Absence, lookup,
}

-- A view returns `Ok` with a value, `Err`, or throws.
pub record Rpc : Type 0 where
  pub decision_by_intent : Bytes → Result Text Simulated
  pub get_decision : Bytes → Result Text Simulated
  pub memo_hash : Bytes → Result Text (Option Bytes)
  pub get_policy : Text → Result Text (Option CurrentPolicy)
  pub get_window : Text → Result Text (Option CurrentWindow)
  pub latest_ledger : Result Text ℕ

pub record Evidence : Type 0 where
  pub ref : Text
  pub lookup : DecisionLookup
  pub memo_hash : Option Text
  pub policy : Option CurrentPolicy
  pub window : Option CurrentWindow
  pub latest_ledger : Option ℕ

-- What a supporting read degrades to.
abbrev pub value_or_null : {A : Type 0} → Result Text (Option A) → Option A
value_or_null (ok o) = o
value_or_null (err message) = none

abbrev pub hex_or_null : Option Bytes → Option Text
hex_or_null none = none
hex_or_null (some b) = some (to_hex b)

abbrev pub ledger_or_null : Result Text ℕ → Option ℕ
ledger_or_null (ok n) = some n
ledger_or_null (err message) = none

module _ (rpc : Rpc) where
  unfoldable pub fetch_decision_by_intent : Text → Result TransportError DecisionLookup
  unfolding buffer_of
  fetch_decision_by_intent hash = lookup intent (rpc.decision_by_intent (buffer_of hash))

  unfoldable pub fetch_decision_by_id : Text → Result TransportError DecisionLookup
  unfolding buffer_of
  fetch_decision_by_id id = lookup decision (rpc.get_decision (buffer_of id))

  abbrev pub fetch_memo_hash : Text → Option Text
  fetch_memo_hash id = hex_or_null (value_or_null (rpc.memo_hash (buffer_of id)))

  abbrev pub fetch_current_policy : Text → Option CurrentPolicy
  fetch_current_policy agent = value_or_null (rpc.get_policy agent)

  abbrev pub fetch_current_window : Text → Option CurrentWindow
  fetch_current_window agent = value_or_null (rpc.get_window agent)

  abbrev pub fetch_latest_ledger : Option ℕ
  fetch_latest_ledger = ledger_or_null rpc.latest_ledger

  abbrev pub first_read : Via → Text → Result TransportError DecisionLookup
  first_read intent ref = fetch_decision_by_intent ref
  first_read decision ref = fetch_decision_by_id ref

  abbrev pub second_read : Via → Text → Result TransportError DecisionLookup
  second_read intent ref = fetch_decision_by_id ref
  second_read decision ref = fetch_decision_by_intent ref

  -- `if (fallback.status !== "absent") lookup = fallback`.
  abbrev pub unless_absent : Absence → DecisionLookup → DecisionLookup
  unless_absent reason (found d via) = found d via
  unless_absent reason archived = archived
  unless_absent reason (absent other) = absent reason

  abbrev pub or_second : Via → Text → DecisionLookup → Result TransportError DecisionLookup
  or_second prefer ref (found d via) = ok (found d via)
  or_second prefer ref archived = ok archived
  or_second prefer ref (absent reason) = do
    fallback ← second_read prefer ref
    ok (unless_absent reason fallback)

  -- The reads that support a decision.
  abbrev pub supported : Text → DecisionLookup → Evidence
  supported ref (found d via) = record {
    ref = ref;
    lookup = found d via;
    memo_hash = fetch_memo_hash d.decision_id;
    policy = fetch_current_policy d.agent;
    window = fetch_current_window d.agent;
    latest_ledger = fetch_latest_ledger;
  }
  supported ref other = record {
    ref = ref;
    lookup = other;
    memo_hash = none;
    policy = none;
    window = none;
    latest_ledger = fetch_latest_ledger;
  }

  unfoldable pub fetch_evidence : Text → Via → Result TransportError Evidence
  unfolding fetch_decision_by_intent fetch_decision_by_id
  fetch_evidence ref prefer = do
    first ← first_read prefer ref
    chosen ← or_second prefer ref first
    ok (supported ref chosen)
