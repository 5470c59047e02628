-- ===== src/Console/Policies.antt =====
-- The values that apps/console/src/chain.ts reads beside a decision.
use aegis_phase.Prelude.{ℕ, List, Text}
use aegis_phase.Prelude.Int.{ℤ}

pub data AgentStatus : Type 0 where
  active revoked : AgentStatus

-- `CurrentPolicy`, with the fields of the bindings' `Policy`.
pub record CurrentPolicy : Type 0 where
  pub agent : Text
  pub owner : Text
  pub allowed_asset : Text
  pub allowed_services : List Text
  pub approval_threshold : ℤ
  pub per_intent_cap : ℤ
  pub cumulative_window_cap : ℤ
  pub window_seconds : ℕ
  pub status : AgentStatus
  pub version : ℕ

-- `CurrentWindow`, with the fields of the bindings' `WindowState`.
pub record CurrentWindow : Type 0 where
  pub spent : ℤ
  pub window_start : ℕ
