-- ===== src/Gateway/Server/Bodies.antt =====
-- `decisionBody` and `preimageBlock` of apps/gateway/src/server.ts: the JSON of a decision.
use aegis_phase.Prelude.{ℕ, Bool, true, false, Option, none, some, Text, codes}
use aegis_phase.Prelude.Int.{pos}
use aegis_phase.Canonical.Amount.{format_amount, to_decimal, to_decimal_ℤ}
use aegis_phase.Executor.World.{Verdict, approved, rejected, requires_approval}
use aegis_phase.Receipt.Json.{Json, null, boolean, integer, string, object, Members, end, member}
use aegis_phase.Gateway.Chain.Decisions.{
  ChainDecision, ReasonCode, ok_code, cap_exceeded, service_not_allowed, asset_mismatch,
  agent_revoked, window_cap_exceeded, pending_approval, owner_rejected,
}
use aegis_phase.Gateway.Store.{IntentRow}

abbrev pub verdict_name : Verdict → Text
verdict_name approved = codes "Approved"
verdict_name rejected = codes "Rejected"
verdict_name requires_approval = codes "RequiresApproval"

abbrev pub verdict_number : Verdict → ℕ
verdict_number approved = 0
verdict_number rejected = 1
verdict_number requires_approval = 2

abbrev pub reason_name : ReasonCode → Text
reason_name ok_code = codes "Ok"
reason_name cap_exceeded = codes "CapExceeded"
reason_name service_not_allowed = codes "ServiceNotAllowed"
reason_name asset_mismatch = codes "AssetMismatch"
reason_name agent_revoked = codes "AgentRevoked"
reason_name window_cap_exceeded = codes "WindowCapExceeded"
reason_name pending_approval = codes "PendingApproval"
reason_name owner_rejected = codes "OwnerRejected"

abbrev pub reason_number : ReasonCode → ℕ
reason_number ok_code = 0
reason_number cap_exceeded = 1
reason_number service_not_allowed = 2
reason_number asset_mismatch = 3
reason_number agent_revoked = 4
reason_number window_cap_exceeded = 5
reason_number pending_approval = 6
reason_number owner_rejected = 7

-- `?? null`.
abbrev pub number_or_null : Option ℕ → Json
number_or_null none = null
number_or_null (some n) = integer (pos n)

-- `decisionBody`, with the members of `extra` last: none of them has a name of those before.
unfoldable pub decision_body : ChainDecision → Members → Members
decision_body d extra = member (codes "decision_id") (string d.decision_id) (
    member (codes "intent_hash") (string d.intent_hash) (
      member (codes "verdict") (string (verdict_name d.verdict)) (
        member (codes "verdict_code") (integer (pos (verdict_number d.verdict))) (
          member (codes "reason_code") (string (reason_name d.reason_code)) (
            member (codes "reason_code_number") (integer (pos (reason_number d.reason_code))) (
              member (codes "original_reason_code") (string (reason_name d.original_reason_code)) (
                member (codes "original_reason_code_number")
                  (integer (pos (reason_number d.original_reason_code)))
                  (member (codes "policy_version") (integer (pos d.policy_version)) (
                    member (codes "resolved_policy_version")
                      (number_or_null d.resolved_policy_version)
                      (member (codes "agent") (string d.agent) (
                        member (codes "service_id") (string d.service_id) (
                          member (codes "asset_sac") (string d.asset) (
                            member (codes "amount") (string (format_amount d.amount)) (
                              member (codes "amount_stroops") (string (to_decimal_ℤ d.amount)) (
                                member (codes "ledger_seq") (integer (pos d.ledger_seq)) (
                                  member (codes "resolved") (boolean d.resolved) (
                                    member (codes "settled") (boolean d.settled)
                                      extra)))))))))))))))))

abbrev pub intent_members : IntentRow → Members
intent_members row = member (codes "agent_id") (string row.agent_id) (
    member (codes "service_id") (string row.service_id) (
      member (codes "asset") (string row.asset) (
        member (codes "amount") (string (format_amount (pos row.amount))) (
          member (codes "amount_stroops") (string (to_decimal row.amount)) (
            member (codes "purpose") (string row.purpose) (
              member (codes "client_ref") (string row.client_ref)
                (member (codes "canonical_hex") (string row.canonical_preimage) end)))))))

-- The notes say where the fields came from.
abbrev pub missing_note : Bool → Text
missing_note true =
    codes
      "purpose/client_ref are hashed into intent_hash but not stored on-chain, and this gateway is running without a database — recover them from the intent.received transcript record"
missing_note false =
    codes "no stored intent for this hash; the decision above is still authoritative"

abbrev pub preimage_note : Text
preimage_note =
    codes
      "sha256 of canonical_hex is intent_hash; purpose and client_ref are hashed into it but never stored on-chain"

unfoldable pub preimage_block : Option IntentRow → Bool → Members
preimage_block none degraded =
    member (codes "preimage") null
      (member (codes "preimage_note") (string (missing_note degraded)) end)
preimage_block (some row) degraded =
    member (codes "preimage") (object (intent_members row))
      (member (codes "preimage_note") (string preimage_note) end)
