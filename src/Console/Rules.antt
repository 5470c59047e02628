-- ===== src/Console/Rules.antt =====
-- apps/console/src/derive.ts and labels.ts: what the page derives from a decision. The sentences of
-- summaries and messages are not modelled.
pub mod Honest
use aegis_phase.Prelude.{
  ℕ, Bool, true, false, Option, none, some, List, [], ◌∷◌, ◌++◌, Text, codes, text_eq,
  if◌then◌else◌, ◌==◌,
}
use aegis_phase.Prelude.Int.{ℤ}
use aegis_phase.Canonical.Amount.{format_amount, to_decimal}
use aegis_phase.Executor.World.{Verdict, approved, rejected, requires_approval}
use aegis_phase.Gateway.Chain.Decisions.{
  ChainDecision, ReasonCode, ok_code, cap_exceeded, service_not_allowed, asset_mismatch,
  agent_revoked, window_cap_exceeded, pending_approval, owner_rejected,
}
use aegis_phase.Console.Policies.{AgentStatus, active, revoked, CurrentPolicy, CurrentWindow}

-- `REASON_NAME`.
abbrev pub reason_name : ReasonCode → Text
reason_name ok_code = codes "Ok"
reason_name cap_exceeded = codes "CapExceeded"
reason_name service_not_allowed = codes "ServiceNotAllowed"
reason_name asset_mismatch = codes "AssetMismatch"
reason_name agent_revoked = codes "AgentRevoked"
reason_name window_cap_exceeded = codes "WindowCapExceeded"
reason_name pending_approval = codes "PendingApproval"
reason_name owner_rejected = codes "OwnerRejected"

pub record RuleOperand : Type 0 where
  pub label : Text
  pub value : Text
  pub from_current_policy : Bool

pub record RuleExplanation : Type 0 where
  pub predicate : Text
  pub operands : List RuleOperand

abbrev pub unreadable : Text
unreadable = codes "unavailable (get_policy could not be read)"

abbrev pub chain : Text → Text → RuleOperand
chain label value = record { label = label; value = value; from_current_policy = false }

-- `value ?? UNREADABLE`.
abbrev pub or_unreadable : Option Text → Text
or_unreadable none = unreadable
or_unreadable (some value) = value

abbrev pub current : Text → Option Text → RuleOperand
current label value = record {
  label = label;
  value = or_unreadable value;
  from_current_policy = true;
}

abbrev pub amount_operand : ChainDecision → RuleOperand
amount_operand d = chain (codes "amount (this intent)") (format_amount d.amount)

-- `policy ? f(policy) : null`.
abbrev pub of_policy : {P : Type 0} → (P → Text) → Option P → Option Text
of_policy f none = none
of_policy f (some p) = some (f p)

-- `join(", ")`, and `||`.
abbrev pub commas : List Text → Text
commas [] = []
commas (s ∷ []) = s
commas (s ∷ u ∷ rest) = s ++ (codes ", " ++ commas (u ∷ rest))

abbrev pub or_none : Text → Text
or_none [] = codes "(none)"
or_none (c ∷ s) = c ∷ s

abbrev pub status_name : AgentStatus → Text
status_name revoked = codes "Revoked"
status_name active = codes "Active"

abbrev pub per_intent_cap : Option CurrentPolicy → RuleOperand
per_intent_cap policy =
    current (codes "per_intent_cap")
      (of_policy (λ (p : CurrentPolicy). format_amount p.per_intent_cap) policy)

abbrev pub approval_threshold : Option CurrentPolicy → RuleOperand
approval_threshold policy =
    current (codes "approval_threshold")
      (of_policy (λ (p : CurrentPolicy). format_amount p.approval_threshold) policy)

abbrev pub cumulative_window_cap : Option CurrentPolicy → RuleOperand
cumulative_window_cap policy =
    current (codes "cumulative_window_cap")
      (of_policy (λ (p : CurrentPolicy). format_amount p.cumulative_window_cap) policy)

abbrev pub allowed_services : Option CurrentPolicy → RuleOperand
allowed_services policy =
    current (codes "allowed_services")
      (of_policy (λ (p : CurrentPolicy). or_none (commas p.allowed_services)) policy)

abbrev pub service_operand : ChainDecision → RuleOperand
service_operand d = chain (codes "service_id") d.service_id

-- `RULES`.
unfoldable pub rule :
    ReasonCode → ChainDecision → Option CurrentPolicy → Option CurrentWindow → RuleExplanation
rule ok_code d policy window = record {
  predicate =
      codes
        "amount <= per_intent_cap && amount <= approval_threshold && service_id ∈ allowed_services && asset == allowed_asset && window_spent + amount <= cumulative_window_cap && status == Active";
  operands =
      amount_operand d
      ∷ per_intent_cap policy
      ∷ approval_threshold policy
      ∷ cumulative_window_cap policy
      ∷ service_operand d
      ∷ allowed_services policy
      ∷ [];
}
rule cap_exceeded d policy window = record {
  predicate = codes "amount > per_intent_cap";
  operands = amount_operand d ∷ per_intent_cap policy ∷ [];
}
rule service_not_allowed d policy window = record {
  predicate = codes "service_id ∉ allowed_services";
  operands = service_operand d ∷ allowed_services policy ∷ [];
}
rule asset_mismatch d policy window = record {
  predicate = codes "asset != allowed_asset";
  operands =
      chain (codes "asset (this intent)") d.asset
      ∷ current (codes "allowed_asset") (of_policy (λ (p : CurrentPolicy). p.allowed_asset) policy)
      ∷ [];
}
rule agent_revoked d policy window = record {
  predicate = codes "status == Revoked";
  operands =
      current (codes "status") (of_policy (λ (p : CurrentPolicy). status_name p.status) policy)
      ∷ [];
}
rule window_cap_exceeded d policy window = record {
  predicate = codes "window_spent + amount > cumulative_window_cap";
  operands =
      amount_operand d
      ∷ current (codes "window_spent (now)")
          (of_policy (λ (w : CurrentWindow). format_amount w.spent) window)
      ∷ cumulative_window_cap policy
      ∷ current (codes "window_seconds")
          (of_policy (λ (p : CurrentPolicy). to_decimal p.window_seconds) policy)
      ∷ [];
}
rule pending_approval d policy window = record {
  predicate = codes "amount > approval_threshold  (and amount <= per_intent_cap)";
  operands = amount_operand d ∷ approval_threshold policy ∷ per_intent_cap policy ∷ [];
}
rule owner_rejected d policy window = record {
  predicate = codes "resolve(decision_id, approve = false)";
  operands =
      amount_operand d
      ∷ chain (codes "original_reason_code") (reason_name d.original_reason_code)
      ∷ [];
}

unfoldable pub explain_rule :
    ChainDecision → Option CurrentPolicy → Option CurrentWindow → RuleExplanation
unfolding rule
explain_rule d policy window = rule d.reason_code d policy window

-- `===` on the numbers of the codes.
abbrev pub code_number : ReasonCode → ℕ
code_number ok_code = 0
code_number cap_exceeded = 1
code_number service_not_allowed = 2
code_number asset_mismatch = 3
code_number agent_revoked = 4
code_number window_cap_exceeded = 5
code_number pending_approval = 6
code_number owner_rejected = 7

unfoldable pub explain_original_rule :
    ChainDecision → Option CurrentPolicy → Option CurrentWindow → Option RuleExplanation
unfolding rule
explain_original_rule d policy window =
    if code_number d.original_reason_code == code_number d.reason_code
    then none
    else some (rule d.original_reason_code d policy window)

pub data EscalationState : Type 0 where
  no_escalation pending resolved : EscalationState

abbrev pub by_verdict : Verdict → EscalationState
by_verdict requires_approval = pending
by_verdict approved = no_escalation
by_verdict rejected = no_escalation

-- The state that `escalation` gives.
unfoldable pub escalation : ChainDecision → EscalationState
escalation d = if d.resolved then resolved else by_verdict d.verdict

pub data Caveat : Type 0 where
  policy_unreadable : Caveat
  same_version : ℕ → Caveat
  other_version : ℕ → ℕ → Caveat
  rejudged : ℕ → ℕ → Caveat

abbrev pub rejudged_at : ChainDecision → Option ℕ → List Caveat
rejudged_at d none = []
rejudged_at d (some version) =
    if version == d.policy_version then [] else rejudged version d.policy_version ∷ []

unfoldable pub policy_version_caveats : ChainDecision → Option CurrentPolicy → List Caveat
policy_version_caveats d none = policy_unreadable ∷ []
policy_version_caveats d (some policy) =
    (if policy.version == d.policy_version
      then same_version policy.version
      else other_version policy.version d.policy_version)
    ∷ rejudged_at d d.resolved_policy_version

unfoldable pub asset_label : Text → Option Text → Option Text
asset_label sac none = none
asset_label sac (some usdc) = if text_eq sac usdc then some (codes "USDC (testnet)") else none
