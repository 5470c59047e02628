-- ===== src/Console/Rules/Honest.antt =====
-- What the derivations of apps/console/src/derive.ts depend on.
use aegis_phase.Prelude.{
  ℕ, ◌≡◌, ◌↔◌, refl, Bool, true, false, not, Option, none, some, List, [], ◌∷◌, All, filter,
  if◌then◌else◌, ◌==◌, ==_iff,
}
use mathlib.Core.List.{Memᴰ}
use aegis_phase.Executor.World.{Verdict, approved, rejected, requires_approval}
use aegis_phase.Gateway.Chain.Decisions.{
  ChainDecision, ReasonCode, ok_code, cap_exceeded, service_not_allowed, asset_mismatch,
  agent_revoked, window_cap_exceeded, pending_approval, owner_rejected,
}
use aegis_phase.Console.Policies.{CurrentPolicy, CurrentWindow}
use aegis_phase.Console.Rules.{
  RuleOperand, unreadable, RuleExplanation, rule, explain_rule, escalation, pending, resolved,
  by_verdict, same_version, other_version, rejudged, rejudged_at, policy_version_caveats,
}

-- The operands that are said to be the decision's own.
abbrev pub of_decision : RuleExplanation → List RuleOperand
of_decision e = filter (λ (o : RuleOperand). not o.from_current_policy) e.operands

-- An operand that is said to be the policy's is said to be unreadable.
abbrev pub IsUnread : RuleOperand → Type 0
IsUnread o = o.from_current_policy ≡ true → o.value ≡ unreadable

abbrev SameRule : RuleExplanation → RuleExplanation → Type 0
SameRule e e' = (e.predicate ≡ e'.predicate) × (of_decision e ≡ of_decision e')

rule-SameRule :
    (r : ReasonCode) (d : ChainDecision) (p p' : Option CurrentPolicy) (w w' : Option CurrentWindow)
    → SameRule (rule r d p w) (rule r d p' w')
unfolding rule filter
rule-SameRule ok_code d p p' w w' = (refl, refl)
rule-SameRule cap_exceeded d p p' w w' = (refl, refl)
rule-SameRule service_not_allowed d p p' w w' = (refl, refl)
rule-SameRule asset_mismatch d p p' w w' = (refl, refl)
rule-SameRule agent_revoked d p p' w w' = (refl, refl)
rule-SameRule window_cap_exceeded d p p' w w' = (refl, refl)
rule-SameRule pending_approval d p p' w w' = (refl, refl)
rule-SameRule owner_rejected d p p' w w' = (refl, refl)

rule-IsUnread : (r : ReasonCode) (d : ChainDecision) → All IsUnread (rule r d none none).operands
unfolding rule
rule-IsUnread ok_code d =
    (λ e. cc, (λ e. refl, (λ e. refl, (λ e. refl, (λ e. cc, (λ e. refl, tt))))))
rule-IsUnread cap_exceeded d = (λ e. cc, (λ e. refl, tt))
rule-IsUnread service_not_allowed d = (λ e. cc, (λ e. refl, tt))
rule-IsUnread asset_mismatch d = (λ e. cc, (λ e. refl, tt))
rule-IsUnread agent_revoked d = (λ e. refl, tt)
rule-IsUnread window_cap_exceeded d = (λ e. cc, (λ e. refl, (λ e. refl, (λ e. refl, tt))))
rule-IsUnread pending_approval d = (λ e. cc, (λ e. refl, (λ e. refl, tt)))
rule-IsUnread owner_rejected d = (λ e. cc, (λ e. cc, tt))

escalation-pending :
    (d : ChainDecision)
    → (escalation d ≡ pending) ↔ ((d.verdict ≡ requires_approval) × (d.resolved ≡ false))
unfolding escalation
escalation-pending d = (to d.resolved d.verdict, λ (v, r). rw (v, r) refl)
  where
    to :
        (b : Bool) (v : Verdict)
        → (if b then resolved else by_verdict v) ≡ pending
        → (v ≡ requires_approval) × (b ≡ false)
    to true v e = cc
    to false approved e = cc
    to false rejected e = cc
    to false requires_approval e = (refl, refl)

module _ (d : ChainDecision) (policy : CurrentPolicy) where
  not_rejudged : (v : ℕ) (o : Option ℕ) → Memᴰ (same_version v) (rejudged_at d o) → ⊥
  not_rejudged v none m = elim m [ ]
  not_rejudged v (some n) m = by_version (n == d.policy_version) m
    where
      by_version :
          (b : Bool)
          → Memᴰ (same_version v) (if b then [] else rejudged n d.policy_version ∷ [])
          → ⊥
      by_version true m = elim m [ ]
      by_version false (Memᴰ.head e) = absurd (cc)
      by_version false (Memᴰ.tail m) = elim m [ ]

  caveats-same :
      Memᴰ (same_version policy.version) (policy_version_caveats d (some policy))
      ↔ (policy.version ≡ d.policy_version)
  unfolding policy_version_caveats
  caveats-same =
      (to _ refl, λ e. rw ((==_iff policy.version d.policy_version).1 e) (Memᴰ.head refl))
    where
      to :
          (b : Bool)
          → (policy.version == d.policy_version) ≡ b
          → Memᴰ (same_version policy.version) (
              (if b
                then same_version policy.version
                else other_version policy.version d.policy_version)
              ∷ rejudged_at d d.resolved_policy_version)
          → policy.version ≡ d.policy_version
      to true e m = (==_iff policy.version d.policy_version).0 e
      to false e (Memᴰ.head h) = absurd (cc)
      to false e (Memᴰ.tail m) = absurd (not_rejudged policy.version d.resolved_policy_version m)

-- The rule that is shown for a decision, and the operands that are said to be the decision's own, are
-- the same under every policy and window that may be current; when neither could be read, every other
-- operand says so. The page says that an approval is awaited exactly when the verdict asks for one and
-- the decision is not resolved, and that the values are those that were applied exactly when the
-- current policy has the decision's version.
pub explain_rule-IsHonest :
    (d : ChainDecision) (p p' : Option CurrentPolicy) (w w' : Option CurrentWindow)
    (policy : CurrentPolicy)
    → ((explain_rule d p w).predicate ≡ (explain_rule d p' w').predicate)
      × (of_decision (explain_rule d p w) ≡ of_decision (explain_rule d p' w'))
      × All IsUnread (explain_rule d none none).operands
      × ((escalation d ≡ pending) ↔ ((d.verdict ≡ requires_approval) × (d.resolved ≡ false)))
      × (Memᴰ (same_version policy.version) (policy_version_caveats d (some policy))
          ↔ (policy.version ≡ d.policy_version))
unfolding explain_rule
explain_rule-IsHonest d p p' w w' policy =
    let (a, b) = rule-SameRule d.reason_code d p p' w w' in
    (a, b, rule-IsUnread d.reason_code d, escalation-pending d, caveats-same d policy)
