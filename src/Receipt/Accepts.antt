-- ===== src/Receipt/Accepts.antt =====
-- What safeParseReceipt of packages/receipt/src/validate.ts accepts.
use aegis_phase.Prelude.{
  ◌≡◌, ◌≢◌, refl, sym, ap, ◌∙◌, Bool, true, false, not, Option, none, some, List, [], ◌∷◌, map,
  Text, codes, text_eq, if◌then◌else◌, filter, any, All,
}
use mathlib.Core.Path.{subst}
use aegis_phase.Prelude.Split.{split}
use aegis_phase.Prelude.Result.{ok, ok-injective}
use aegis_phase.Verifier.Sources.{ReceiptNetwork, ReceiptChain, ReceiptSettlement, Receipt}
use aegis_phase.Receipt.Json.{
  Json, null, boolean, integer, fraction, string, array, object, Members, value_at, own_keys,
  as_string,
}
use aegis_phase.Receipt.Validate.{
  Checked, Issue, object_in, object_checked, hex, strkey, address, non_empty_string, u32, stroops,
  version_checked, issued_at_checked, asset_checked, chain_checked, settlement_checked,
  network_checked, validated, accepted, safe_parse_receipt, url, unknown, unknown_top, unknown_at,
  network_keys, chain_keys, settlement_keys, top_keys,
}
use aegis_phase.Receipt.Valid.{IsAsset, IsUrl, IsNetwork, IsChain, IsSettlement, IsReceipt}
use aegis_phase.Receipt.Rules.{
  >>=-eq-good, value-eq, hex-IsHex, checked-IsStrkey, address-IsStrkey, non_empty-ne, u32-le,
  stroops-IsAmount,
}
use aegis_phase.Receipt.Rules.Asset.{checked-IsAsset, checked-IsUrl}

checked-IsChain : (o : Members) {c : ReceiptChain} → chain_checked (some o) ≡ (c, []) → IsChain c
unfolding chain_checked hex u32 address non_empty_string strkey stroops
checked-IsChain o h =
    let (a, h1) = >>=-eq-good (hex o (codes "chain") (codes "decision_id") 32) _ h in
    let (b, h2) = >>=-eq-good (hex o (codes "chain") (codes "intent_hash") 32) _ h1 in
    let (c, h3) = >>=-eq-good (u32 o (codes "chain") (codes "policy_version")) _ h2 in
    let (d, h4) = >>=-eq-good (address o (codes "chain") (codes "agent")) _ h3 in
    let (e, h5) = >>=-eq-good (non_empty_string o (codes "chain") (codes "service_id")) _ h4 in
    let (f, h6) = >>=-eq-good (strkey o (codes "chain") (codes "asset") b'C') _ h5 in
    let (g, h7) = >>=-eq-good (stroops o (codes "chain") (codes "amount")) _ h6 in
    subst IsChain (value-eq h7) record {
      decision_id = hex-IsHex _ 32 _ a;
      intent_hash = hex-IsHex _ 32 _ b;
      policy_version = u32-le _ _ c;
      agent = address-IsStrkey _ _ d;
      service_id = non_empty-ne _ _ e;
      asset = checked-IsStrkey _ b'C' _ f;
      amount = stroops-IsAmount _ _ g;
    }

checked-IsSettlement :
    (o : Members) {s : ReceiptSettlement}
    → settlement_checked (some o) ≡ (s, [])
    → asset_checked s.asset ≡ (tt, [])
    → IsSettlement s
unfolding settlement_checked hex non_empty_string strkey
checked-IsSettlement o {s} h k =
    let (a, h1) = >>=-eq-good (hex o (codes "settlement") (codes "tx_hash") 32) _ h in
    let (b, h2) = >>=-eq-good (hex o (codes "settlement") (codes "memo_hash") 32) _ h1 in
    let (c, h3) = >>=-eq-good (hex o (codes "settlement") (codes "memo_preimage") 68) _ h2 in
    let (d, h4) = >>=-eq-good (strkey o (codes "settlement") (codes "source") b'G') _ h3 in
    let (e, h5) = >>=-eq-good (strkey o (codes "settlement") (codes "destination") b'G') _ h4 in
    let (f, h6) = >>=-eq-good (non_empty_string o (codes "settlement") (codes "asset")) _ h5 in
    let n = subst (λ (x : ReceiptSettlement). x.asset ≢ []) (value-eq h6) (non_empty-ne _ _ f) in
    subst (λ (x : ReceiptSettlement). IsAsset x.asset → IsSettlement x) (value-eq h6)
      (λ is. record {
        tx_hash = hex-IsHex _ 32 _ a;
        memo_hash = hex-IsHex _ 32 _ b;
        memo_preimage = hex-IsHex _ 68 _ c;
        source = checked-IsStrkey _ b'G' _ d;
        destination = checked-IsStrkey _ b'G' _ e;
        asset = is;
      })
      (checked-IsAsset s.asset n k)

-- Every own key is one of the keys.
abbrev pub Known : List Text → Members → Type 0
Known keys o = All (λ key. any (text_eq key) keys ≡ true) (own_keys o)

known_step :
    (f : Text → Issue) (keys names : List Text) (name : Text) (b : Bool)
    → any (text_eq name) keys ≡ b
    → (map f (filter (unknown keys) names) ≡ [] → All (λ key. any (text_eq key) keys ≡ true) names)
    → map f (if not b then name ∷ filter (unknown keys) names else filter (unknown keys) names) ≡ []
    → (any (text_eq name) keys ≡ true) × All (λ key. any (text_eq key) keys ≡ true) names
known_step f keys names name true e rest k = (e, rest k)
known_step f keys names name false e rest k = cc

known_of_filter :
    (f : Text → Issue) (keys names : List Text)
    → map f (filter (unknown keys) names) ≡ []
    → All (λ key. any (text_eq key) keys ≡ true) names
unfolding filter
known_of_filter f keys [] h = tt
known_of_filter f keys (name ∷ names) h =
    known_step f keys names name (any (text_eq name) keys) refl (known_of_filter f keys names) h

object_in-Known :
    (path : Text) (keys : List Text) (v : Option Json) {found : Option Members}
    → object_checked path keys v ≡ (found, [])
    → (o : Members) × (found ≡ some o) × (v ≡ some (object o)) × Known keys o
unfolding object_checked
object_in-Known path keys (some (object o)) h = (
  o,
  sym (value-eq (ap (λ p. (p.0, [])) h)),
  refl,
  known_of_filter (unknown_at path) keys (own_keys o) (ap (λ p. p.1) h),
)
object_in-Known path keys none h = cc
object_in-Known path keys (some null) h = cc
object_in-Known path keys (some (boolean b)) h = cc
object_in-Known path keys (some (integer n)) h = cc
object_in-Known path keys (some (fraction n)) h = cc
object_in-Known path keys (some (string s)) h = cc
object_in-Known path keys (some (array items)) h = cc

-- The three objects, each with its own keys only, and the own keys of the document.
pub record Strict (o : Members) : Type 0 where
  pub top : Known top_keys o
  pub network : Members
  pub chain : Members
  pub settlement : Members
  pub network_read : value_at o (codes "network") ≡ some (object network)
  pub chain_read : value_at o (codes "chain") ≡ some (object chain)
  pub settlement_read : value_at o (codes "settlement") ≡ some (object settlement)
  pub network_known : Known network_keys network
  pub chain_known : Known chain_keys chain
  pub settlement_known : Known settlement_keys settlement

accepted-eq-ok : (c : Checked Receipt) {r : Receipt} → accepted c ≡ ok r → c ≡ (r, [])
accepted-eq-ok (r, []) h = ap (λ x. (x, [])) (ok-injective h)
accepted-eq-ok (r, issue ∷ issues) h = cc

module _ (protocol : Text → Option Text) where
  checked-IsNetwork :
      (o : Members) {n : ReceiptNetwork}
      → network_checked protocol (some o) ≡ (n, [])
      → IsNetwork protocol n
  unfolding network_checked non_empty_string strkey url
  checked-IsNetwork o h =
      let (a, h1) = >>=-eq-good (non_empty_string o (codes "network") (codes "passphrase")) _ h in
      let (b, h2) = >>=-eq-good (strkey o (codes "network") (codes "contract_id") b'C') _ h1 in
      let (c, h3) = >>=-eq-good (url protocol o (codes "network") (codes "horizon")) _ h2 in
      let (d, h4) = >>=-eq-good (url protocol o (codes "network") (codes "rpc")) _ h3 in
      subst (IsNetwork protocol) (value-eq h4) record {
        passphrase = non_empty-ne _ _ a;
        contract_id = checked-IsStrkey _ b'C' _ b;
        horizon = url_read o (codes "horizon") c;
        rpc = url_read o (codes "rpc") d;
      }
    where
      url_read :
          (o : Members) (key : Text) {s : Text}
          → url protocol o (codes "network") key ≡ (s, [])
          → IsUrl protocol s
      url_read o key h =
          let (a, b) = >>=-eq-good (non_empty_string o (codes "network") key) _ h in
          checked-IsUrl protocol _ _ (non_empty-ne _ _ a) b

  validated-IsReceipt :
      (o : Members) {r : Receipt} → validated protocol o ≡ (r, []) → IsReceipt protocol r × Strict o
  unfolding validated object_in split
  validated-IsReceipt o h =
      let (a, h0) = >>=-eq-good _ _ h in
      let (_, h1) = >>=-eq-good (version_checked (as_string (value_at o (codes "version")))) _ h0 in
      let (_, h2) = >>=-eq-good (issued_at_checked (value_at o (codes "issued_at"))) _ h1 in
      let (b, h3) = >>=-eq-good (object_in o (codes "network") network_keys) _ h2 in
      let (c, h4) = >>=-eq-good (object_in o (codes "chain") chain_keys) _ h3 in
      let (d, h5) = >>=-eq-good (object_in o (codes "settlement") settlement_keys) _ h4 in
      let (n, en, vn, kn) = object_in-Known (codes "network") network_keys _ b in
      let (x, ex, vx, kx) = object_in-Known (codes "chain") chain_keys _ c in
      let (s, es, vs, ks) = object_in-Known (codes "settlement") settlement_keys _ d in
      let (e, h6) =
        >>=-eq-good (network_checked protocol (object_in o (codes "network") network_keys).0) _
          h5 in
      let (f, h7) = >>=-eq-good (chain_checked (object_in o (codes "chain") chain_keys).0) _ h6 in
      let (g, h8) =
        >>=-eq-good (settlement_checked (object_in o (codes "settlement") settlement_keys).0) _
          h7 in
      let (k, h9) =
        >>=-eq-good
          (asset_checked
            (settlement_checked (object_in o (codes "settlement") settlement_keys).0).0.asset)
          _ h8 in
      (
        subst (IsReceipt protocol) (value-eq h9) record {
          network = checked-IsNetwork n (ap (network_checked protocol) (sym en) ∙ e);
          chain = checked-IsChain x (ap chain_checked (sym ex) ∙ f);
          settlement = checked-IsSettlement s (ap settlement_checked (sym es) ∙ g) k;
        },
        record {
          top = known_of_filter unknown_top top_keys (own_keys o) (ap (λ p. p.1) a);
          network = n;
          chain = x;
          settlement = s;
          network_read = vn;
          chain_read = vx;
          settlement_read = vs;
          network_known = kn;
          chain_known = kx;
          settlement_known = ks;
        },
      )

  -- An accepted document is an object with the known keys only, at the top and in its three objects,
  -- and the receipt is well-formed in every field: hashes in lower-case hexadecimal of 32 bytes, a
  -- preimage of 68, a version of 32 bits, addresses of 56 base32 characters with their letter, HTTP
  -- URLs, a positive decimal amount, and an asset in the form CODE:ISSUER.
  pub safe_parse_receipt-IsReceipt :
      (json : Json) (r : Receipt)
      → safe_parse_receipt protocol json ≡ ok r
      → (o : Members) × (json ≡ object o) × IsReceipt protocol r × Strict o
  unfolding safe_parse_receipt
  safe_parse_receipt-IsReceipt (object o) r h =
      let (a, b) = validated-IsReceipt o (accepted-eq-ok (validated protocol o) h) in
      (o, refl, a, b)
  safe_parse_receipt-IsReceipt null r h = cc
  safe_parse_receipt-IsReceipt (boolean b) r h = cc
  safe_parse_receipt-IsReceipt (integer n) r h = cc
  safe_parse_receipt-IsReceipt (fraction n) r h = cc
  safe_parse_receipt-IsReceipt (string s) r h = cc
  safe_parse_receipt-IsReceipt (array items) r h = cc
