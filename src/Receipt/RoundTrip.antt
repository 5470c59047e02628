-- ===== src/Receipt/RoundTrip.antt =====
-- The document of a receipt, as a literal of the executor's receipt.ts writes it, and its validation.
use aegis_phase.Prelude.{
  any, filter, sym, ◌≢◌, ℕ, map, ◌≡◌, ◌↔◌, refl, ap, ◌∙◌, Option, none, some, [], ◌∷◌, ◌++◌, Text,
  codes, text_eq,
}
use aegis_phase.Prelude.Split.{split}
use aegis_phase.Prelude.Result.{ok}
use aegis_phase.Prelude.Int.{pos}
use aegis_phase.Verifier.Sources.{ReceiptNetwork, ReceiptChain, ReceiptSettlement, Receipt}
use aegis_phase.Receipt.Json.{
  Json, string, integer, object, Members, end, member, value_at, own_keys, as_string, as_integer,
}
use aegis_phase.Receipt.Validate.{
  unknown_top, unknown, top_keys, dotted, non_empty_checked, object_in, object_checked, hex, strkey,
  address, non_empty_string, u32, stroops, version_checked, issued_at_checked, chain_checked,
  settlement_checked, network_checked, validated, accepted, safe_parse_receipt, url,
  receipt_version,
}
use aegis_phase.Receipt.Valid.{IsAsset, IsUrl, IsNetwork, IsChain, IsSettlement, IsReceipt}
use aegis_phase.Receipt.Rules.{
  good->>=, hex_of_IsHex, strkey_of_IsStrkey, address_of_IsStrkey, non_empty_of_ne, u32_of_le,
  stroops_of_IsAmount,
}
use aegis_phase.Receipt.Rules.Asset.{asset_of_IsAsset, url_of-IsUrl}
use aegis_phase.Receipt.Accepts.{safe_parse_receipt-IsReceipt}

abbrev pub network_json : ReceiptNetwork → Members
network_json n = member (codes "passphrase") (string n.passphrase) (
    member (codes "contract_id") (string n.contract_id)
      (member (codes "horizon") (string n.horizon) (member (codes "rpc") (string n.rpc) end)))

abbrev pub chain_json : ReceiptChain → Members
chain_json c = member (codes "decision_id") (string c.decision_id) (
    member (codes "intent_hash") (string c.intent_hash) (
      member (codes "policy_version") (integer (pos c.policy_version)) (
        member (codes "agent") (string c.agent) (
          member (codes "service_id") (string c.service_id) (
            member (codes "asset") (string c.asset)
              (member (codes "amount") (string c.amount) end))))))

abbrev pub settlement_json : ReceiptSettlement → Members
settlement_json s = member (codes "tx_hash") (string s.tx_hash) (
    member (codes "memo_hash") (string s.memo_hash) (
      member (codes "memo_preimage") (string s.memo_preimage) (
        member (codes "source") (string s.source) (
          member (codes "destination") (string s.destination)
            (member (codes "asset") (string s.asset) end)))))

-- `...(issuedAt === undefined ? {} : { issued_at })`.
abbrev pub issued_json : Option Text → Members
issued_json none = end
issued_json (some at) = member (codes "issued_at") (string at) end

abbrev pub receipt_members : Receipt → Members
receipt_members r = member (codes "version") (string receipt_version) (
    member (codes "network") (object (network_json r.network)) (
      member (codes "chain") (object (chain_json r.chain)) (
        member (codes "settlement") (object (settlement_json r.settlement))
          (issued_json r.issued_at))))

abbrev pub receipt_json : Receipt → Json
receipt_json r = object (receipt_members r)

chain_of_IsChain : (c : ReceiptChain) → IsChain c → chain_checked (some (chain_json c)) ≡ (c, [])
unfolding chain_checked hex u32 address non_empty_string strkey stroops value_at as_string
    as_integer text_eq
chain_of_IsChain c h = good->>= _ _ c.decision_id (hex_of_IsHex _ 32 _ h.decision_id) (
    good->>= _ _ c.intent_hash (hex_of_IsHex _ 32 _ h.intent_hash) (
      good->>= _ _ c.policy_version (u32_of_le _ _ h.policy_version) (
        good->>= _ _ c.agent (address_of_IsStrkey _ _ h.agent) (
          good->>= _ _ c.service_id (non_empty_of_ne _ _ h.service_id) (
            good->>= _ _ c.asset (strkey_of_IsStrkey _ b'C' _ h.asset)
              (good->>= _ _ c.amount (stroops_of_IsAmount _ _ h.amount) refl))))))

append_cons-ne : (s t : Text) (c : ℕ) → s ++ (c ∷ t) ≢ []
append_cons-ne [] t c = λ e. cc
append_cons-ne (x ∷ s) t c = λ e. cc

asset-ne : (s : Text) → IsAsset s → s ≢ []
asset-ne s (code, issuer, e, _, _, _, _) = λ z. append_cons-ne code issuer b':' (sym e ∙ z)

settlement_of_IsSettlement :
    (s : ReceiptSettlement)
    → IsSettlement s
    → settlement_checked (some (settlement_json s)) ≡ (s, [])
unfolding settlement_checked hex non_empty_string strkey value_at as_string text_eq
settlement_of_IsSettlement s h = good->>= _ _ s.tx_hash (hex_of_IsHex _ 32 _ h.tx_hash) (
    good->>= _ _ s.memo_hash (hex_of_IsHex _ 32 _ h.memo_hash) (
      good->>= _ _ s.memo_preimage (hex_of_IsHex _ 68 _ h.memo_preimage) (
        good->>= _ _ s.source (strkey_of_IsStrkey _ b'G' _ h.source) (
          good->>= _ _ s.destination (strkey_of_IsStrkey _ b'G' _ h.destination)
            (good->>= _ _ s.asset (non_empty_of_ne _ _ (asset-ne s.asset h.asset)) refl)))))

module _ (protocol : Text → Option Text) where
  url_of_json :
      (o : Members) (key s : Text)
      → as_string (value_at o key) ≡ ok s
      → IsUrl protocol s
      → url protocol o (codes "network") key ≡ (s, [])
  unfolding url non_empty_string
  url_of_json o key s e h =
      good->>= _ _ s
        (ap (non_empty_checked (dotted (codes "network") key)) e ∙ non_empty_of_ne _ s h.0)
        (url_of-IsUrl protocol _ s h)

  network_of_IsNetwork :
      (n : ReceiptNetwork)
      → IsNetwork protocol n
      → network_checked protocol (some (network_json n)) ≡ (n, [])
  unfolding network_checked non_empty_string strkey value_at as_string text_eq
  network_of_IsNetwork n h = good->>= _ _ n.passphrase (non_empty_of_ne _ _ h.passphrase) (
      good->>= _ _ n.contract_id (strkey_of_IsStrkey _ b'C' _ h.contract_id) (
        good->>= _ _ n.horizon
          (url_of_json (network_json n) (codes "horizon") n.horizon refl h.horizon)
          (good->>= _ _ n.rpc (url_of_json (network_json n) (codes "rpc") n.rpc refl h.rpc) refl)))

  validated-receipt_members :
      (r : Receipt) → IsReceipt protocol r → validated protocol (receipt_members r) ≡ (r, [])
  unfolding validated object_in object_checked split value_at as_string text_eq version_checked
      issued_at_checked own_keys filter any
  validated-receipt_members r h = good->>= _ _ tt (ap (λ is. (tt, is)) (top_names r.issued_at)) (
      good->>= _ _ tt refl (
        good->>= _ _ r.issued_at (issued r.issued_at) (
          good->>= _ _ (some (network_json r.network)) refl (
            good->>= _ _ (some (chain_json r.chain)) refl (
              good->>= _ _ (some (settlement_json r.settlement)) refl (
                good->>= _ _ r.network (network_of_IsNetwork r.network h.network) (
                  good->>= _ _ r.chain (chain_of_IsChain r.chain h.chain) (
                    good->>= _ _ r.settlement (settlement_of_IsSettlement r.settlement h.settlement)
                      (good->>= _ _ tt (asset_of_IsAsset _ h.settlement.asset) refl)))))))))
    where
      top_names :
          (at : Option Text)
          → map unknown_top (
              filter (unknown top_keys) (
                codes "version"
                ∷ codes "network"
                ∷ codes "chain"
                ∷ codes "settlement"
                ∷ own_keys (issued_json at)))
            ≡ []
      top_names none = refl
      top_names (some at) = refl

      issued :
          (at : Option Text)
          → issued_at_checked (value_at (issued_json at) (codes "issued_at")) ≡ (at, [])
      issued none = refl
      issued (some at) = refl

  -- The document of a receipt is accepted, and gives that receipt back, exactly when the receipt is
  -- well-formed.
  pub safe_parse_receipt-receipt_json :
      (r : Receipt) → (safe_parse_receipt protocol (receipt_json r) ≡ ok r) ↔ IsReceipt protocol r
  unfolding safe_parse_receipt
  safe_parse_receipt-receipt_json r = (
    λ h. (safe_parse_receipt-IsReceipt protocol (receipt_json r) r h).2,
    λ h. ap accepted (validated-receipt_members r h),
  )
