-- ===== src/Gateway/Chain/Calls.antt =====
-- The methods of `AegisChain` of apps/gateway/src/chain.ts.
use aegis_phase.Prelude.{ℕ, ◌+◌, ◌*◌, Bool, Option, none, some, [], ◌∷◌, Text, Bytes, codes}
use aegis_phase.Prelude.Result.{Result, ok, err}
use aegis_phase.Prelude.Int.{ℤ}
use aegis_phase.Canonical.Bytes.{hex_value}
use aegis_phase.Gateway.ContractErrors.{ChainError, chain_unavailable, rethrow, Returned, unwrap}
use aegis_phase.Gateway.Chain.Decisions.{
  Decision, ChainDecision, normalize_decision, ChainPolicy, Assembled, Run, caught,
}
use aegis_phase.Gateway.Chain.Submitting.{unwrapped, assert_simulation_ok, submit}

-- `Buffer.from(s, "hex")`: it stops at the first pair that is no byte.
abbrev pub pair : Option ℕ → Option ℕ → Option ℕ
pair none low = none
pair (some high) none = none
pair (some high) (some low) = some (high * 16 + low)

abbrev pub pushed : Option ℕ → Bytes → Bytes
pushed none rest = []
pushed (some b) rest = b ∷ rest

unfoldable pub buffer_of : Text → Bytes
buffer_of [] = []
buffer_of (a ∷ []) = []
buffer_of (a ∷ b ∷ s) = pushed (pair (hex_value a) (hex_value b)) (buffer_of s)

-- A view: its simulation and its result.
pub record View (A : Type 0) : Type 0 where
  pub simulation_error : Option Text
  pub result : Result ChainError (Returned A)

pub record AuthorizeInput : Type 0 where
  pub intent_hash : Bytes
  pub agent_address : Text
  pub service_id : Text
  pub asset_sac : Text
  pub amount : ℤ

-- The contract's client and the keys, as the methods use them.
pub record Client : Type 0 where
  pub caller : Text
  pub owner : Option Text
  pub can_sign : Text → Bool
  pub authorize : Text → AuthorizeInput → Result ChainError Assembled
  pub resolve : Bytes → Bool → Result ChainError Assembled
  pub get_decision : Bytes → Result ChainError (View Decision)
  pub decision_by_intent : Bytes → Result ChainError (View Decision)
  pub get_policy : Text → Result ChainError (View ChainPolicy)

abbrev pub read_result : {A : Type 0} → Result ChainError (Returned A) → Result ChainError A
read_result (err e) = err e
read_result (ok returned) = unwrap returned

abbrev pub checked_view : {A : Type 0} → View A → Result ChainError (Unit {0}) → Result ChainError A
checked_view v (err e) = err e
checked_view v (ok done) = read_result v.result

-- `assertSimulationOk`, then `unwrap`.
unfoldable pub view_result : {A : Type 0} → Result ChainError (View A) → Result ChainError A
unfolding assert_simulation_ok unwrap
view_result (err e) = err e
view_result (ok v) = checked_view v (assert_simulation_ok v.simulation_error)

module _ (client : Client) where
  -- `AegisChain.authorize`.
  unfoldable pub authorize : AuthorizeInput → Run
  unfolding submit
  authorize input = submit client.caller client.can_sign (client.authorize client.caller input)

  abbrev pub owner_resolves : Option Text → Text → Bool → Run
  owner_resolves none decision_id approve = (
    [],
    err (
        chain_unavailable
          (codes "resolve() is owner-only on chain and OWNER_SECRET is not configured")
          (codes "OWNER_SECRET missing")),
  )
  owner_resolves (some owner) decision_id approve =
      submit owner client.can_sign (client.resolve (buffer_of decision_id) approve)

  -- `AegisChain.resolve`.
  unfoldable pub resolve : Text → Bool → Run
  unfolding submit buffer_of
  resolve decision_id approve = owner_resolves client.owner decision_id approve

  unfoldable pub get_decision : Text → Result ChainError ChainDecision
  unfolding view_result normalize_decision rethrow buffer_of
  get_decision decision_id =
      caught (unwrapped (view_result (client.get_decision (buffer_of decision_id))))

  unfoldable pub decision_by_intent : Text → Result ChainError ChainDecision
  unfolding view_result normalize_decision rethrow buffer_of
  decision_by_intent intent_hash =
      caught (unwrapped (view_result (client.decision_by_intent (buffer_of intent_hash))))

  unfoldable pub get_policy : Text → Result ChainError ChainPolicy
  unfolding view_result rethrow
  get_policy agent = caught (view_result (client.get_policy agent))
