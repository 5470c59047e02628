-- ===== src/Receipt/Validate.antt =====
-- packages/receipt/src/validate.ts: the validation of a receipt. A method of `Ctx` returns its value
-- with the issues that it pushes. `new URL` is a parameter: the protocol, or `none` where it throws.
use aegis_phase.Prelude.{
  ℕ, ◌*◌, ◌+◌, Bool, false, not, ◌&&◌, ◌||◌, Option, none, some, List, [], ◌∷◌, ◌++◌, map, Text,
  codes, text_eq, if◌then◌else◌, leb, ltb, ◌==◌, length, all, any, filter,
}
use aegis_phase.Prelude.Split.{split}
use aegis_phase.Prelude.Result.{Result, ok, err}
use aegis_phase.Prelude.Int.{ℤ, pos, negsuc}
use aegis_phase.Canonical.Amount.{is_digit, value_from}
use aegis_phase.Verifier.Sources.{ReceiptNetwork, ReceiptChain, ReceiptSettlement, Receipt}
use aegis_phase.Receipt.Json.{
  Json, string, object, Members, Kind, number_kind, string_kind, describe, value_at, own_keys,
  as_string, as_integer,
}

-- The messages, with what they quote.
pub data Message : Type 0 where
  unknown_field expected_version expected_hex_characters expected_digits : Message
  expected_positive expected_code_issuer expected_asset_code : Message
  string_not_number not_json : Message
  expected_object expected_string expected_json_object expected_hex_string : Kind → Message
  expected_strkey_string expected_address_string expected_non_empty : Kind → Message
  expected_integer expected_decimal_string : Kind → Message
  expected_bytes : ℕ → ℕ → Message
  expected_strkey : ℕ → Text → Message
  expected_address expected_absolute_url expected_http_url : Text → Message

-- An issue is its path and its message.
abbrev pub Issue : Type 0
Issue = Text × Message

abbrev pub Checked : Type 0 → Type 0
Checked A = A × List Issue

abbrev pub good : {A : Type 0} → A → Checked A
good a = (a, [])

abbrev pub bad : {A : Type 0} → A → Text → Message → Checked A
bad a path message = (a, (path, message) ∷ [])

infixl 5 ◌>>=◌
unfoldable pub ◌>>=◌ : {A B : Type 0} → Checked A → (A → Checked B) → Checked B
m >>= f = ((f m.0).0, m.1 ++ (f m.0).1)

infixl 5 ◌>>◌
abbrev pub ◌>>◌ : {B : Type 0} → Checked (Unit {0}) → Checked B → Checked B
m >> k = m >>= λ _. k

abbrev pub receipt_version : Text
receipt_version = codes "aegis-receipt/1"

abbrev pub u32_max : ℕ
u32_max = 0xffffffff

-- `[A-Z2-7]`.
abbrev pub is_base32 : ℕ → Bool
is_base32 c = (leb b'A' c && leb c b'Z') || (leb b'2' c && leb c b'7')

unfoldable pub is_strkey : Text → Bool
is_strkey s = length s == 56 && all is_base32 s

unfoldable pub starts_with : ℕ → Text → Bool
starts_with prefix [] = false
starts_with prefix (c ∷ s) = c == prefix

-- `toLowerCase` on ASCII. No other character has a lower case that is a hexadecimal digit, so the
-- test that follows refuses the same texts.
abbrev pub lower : ℕ → ℕ
lower c = if leb b'A' c && leb c b'Z' then c + 32 else c

abbrev pub is_lower_hex : ℕ → Bool
is_lower_hex c = (leb b'0' c && leb c b'9') || (leb b'a' c && leb c b'f')

abbrev pub is_alphanumeric : ℕ → Bool
is_alphanumeric c =
    (leb b'A' c && leb c b'Z') || (leb b'a' c && leb c b'z') || (leb b'0' c && leb c b'9')

-- `${path}.${key}`.
abbrev pub dotted : Text → Text → Text
dotted path key = path ++ (b'.' ∷ key)

-- `parts.pop()`.
abbrev pub pop : List Text → Text
pop [] = []
pop (part ∷ []) = part
pop (part ∷ next ∷ parts) = pop (next ∷ parts)

abbrev pub unknown : List Text → Text → Bool
unknown keys key = not (any (text_eq key) keys)

abbrev pub unknown_at : Text → Text → Issue
unknown_at path key = (dotted path key, unknown_field)

unfoldable pub object_checked : Text → List Text → Option Json → Checked (Option Members)
object_checked path keys (some (object members)) =
    (some members, map (unknown_at path) (filter (unknown keys) (own_keys members)))
object_checked path keys other = bad none path (expected_object (describe other))

-- `Ctx.object`.
unfoldable pub object_in : Members → Text → List Text → Checked (Option Members)
object_in parent path keys = object_checked path keys (value_at parent (pop (split b'.' path)))

unfoldable pub lowered_hex : Text → ℕ → Text → Checked Text
lowered_hex at bytes s =
    if not (all is_lower_hex s)
    then bad [] at expected_hex_characters
    else if not (length s == bytes * 2)
    then bad [] at (expected_bytes bytes (length s))
    else good s

unfoldable pub hex_checked : Text → ℕ → Result Kind Text → Checked Text
unfolding lowered_hex
hex_checked at bytes (err kind) = bad [] at (expected_hex_string kind)
hex_checked at bytes (ok s) = lowered_hex at bytes (map lower s)

-- `Ctx.hex`.
unfoldable pub hex : Members → Text → Text → ℕ → Checked Text
hex o path key bytes = hex_checked (dotted path key) bytes (as_string (value_at o key))

unfoldable pub strkey_checked : Text → ℕ → Result Kind Text → Checked Text
strkey_checked at prefix (err kind) = bad [] at (expected_strkey_string kind)
strkey_checked at prefix (ok s) =
    if not (is_strkey s) || not (starts_with prefix s)
    then bad [] at (expected_strkey prefix s)
    else good s

-- `Ctx.strkey`.
unfoldable pub strkey : Members → Text → Text → ℕ → Checked Text
strkey o path key prefix = strkey_checked (dotted path key) prefix (as_string (value_at o key))

unfoldable pub address_checked : Text → Result Kind Text → Checked Text
address_checked at (err kind) = bad [] at (expected_address_string kind)
address_checked at (ok s) =
    if not (is_strkey s) || not (starts_with b'G' s || starts_with b'C' s)
    then bad [] at (expected_address s)
    else good s

-- `Ctx.address`.
unfoldable pub address : Members → Text → Text → Checked Text
address o path key = address_checked (dotted path key) (as_string (value_at o key))

unfoldable pub non_empty_checked : Text → Result Kind Text → Checked Text
non_empty_checked at (err kind) = bad [] at (expected_non_empty kind)
non_empty_checked at (ok []) = bad [] at (expected_non_empty string_kind)
non_empty_checked at (ok (c ∷ s)) = good (c ∷ s)

-- `Ctx.nonEmptyString`.
unfoldable pub non_empty_string : Members → Text → Text → Checked Text
non_empty_string o path key = non_empty_checked (dotted path key) (as_string (value_at o key))

unfoldable pub u32_checked : Text → Result Kind ℤ → Checked ℕ
u32_checked at (err kind) = bad 0 at (expected_integer kind)
u32_checked at (ok (negsuc n)) = bad 0 at (expected_integer number_kind)
u32_checked at (ok (pos n)) =
    if ltb u32_max n then bad 0 at (expected_integer number_kind) else good n

-- `Ctx.u32`.
unfoldable pub u32 : Members → Text → Text → Checked ℕ
u32 o path key = u32_checked (dotted path key) (as_integer (value_at o key))

-- `/^(?:0|[1-9][0-9]*)$/`.
unfoldable pub is_numeral : Text → Bool
is_numeral [] = false
is_numeral (c ∷ s) = text_eq (c ∷ s) (b'0' ∷ []) || (leb b'1' c && leb c b'9' && all is_digit s)

abbrev pub zero_text : Text
zero_text = b'0' ∷ []

unfoldable pub stroops_checked : Text → Result Kind Text → Checked Text
stroops_checked at (err number_kind) = bad zero_text at string_not_number
stroops_checked at (err kind) = bad zero_text at (expected_decimal_string kind)
stroops_checked at (ok s) =
    if not (is_numeral s)
    then bad zero_text at expected_digits
    else if value_from 0 s == 0
    then bad zero_text at expected_positive
    else good s

-- `Ctx.stroops`.
unfoldable pub stroops : Members → Text → Text → Checked Text
stroops o path key = stroops_checked (dotted path key) (as_string (value_at o key))

unfoldable pub version_checked : Result Kind Text → Checked (Unit {0})
version_checked (err kind) = bad tt (codes "version") expected_version
version_checked (ok s) =
    if text_eq s receipt_version then good tt else bad tt (codes "version") expected_version

unfoldable pub issued_at_checked : Option Json → Checked (Option Text)
issued_at_checked none = good none
issued_at_checked (some (string s)) = good (some s)
issued_at_checked other = bad none (codes "issued_at") (expected_string (describe other))

-- The asset in its parts, after `split(":")`.
unfoldable pub asset_parts_checked : List Text → Checked (Unit {0})
asset_parts_checked (code ∷ issuer ∷ []) =
    if length code == 0
      || length issuer == 0
      || not (is_strkey issuer)
      || not (starts_with b'G' issuer)
    then bad tt (codes "settlement.asset") expected_code_issuer
    else if leb (length code) 12 && all is_alphanumeric code
    then good tt
    else bad tt (codes "settlement.asset") expected_asset_code
asset_parts_checked parts = bad tt (codes "settlement.asset") expected_code_issuer

-- An empty asset has its issue already.
unfoldable pub asset_checked : Text → Checked (Unit {0})
unfolding asset_parts_checked
asset_checked [] = good tt
asset_checked (c ∷ s) = asset_parts_checked (split b':' (c ∷ s))

abbrev pub network_keys : List Text
network_keys = codes "passphrase" ∷ codes "contract_id" ∷ codes "horizon" ∷ codes "rpc" ∷ []

abbrev pub chain_keys : List Text
chain_keys =
    codes "decision_id"
    ∷ codes "intent_hash"
    ∷ codes "policy_version"
    ∷ codes "agent"
    ∷ codes "service_id"
    ∷ codes "asset"
    ∷ codes "amount"
    ∷ []

abbrev pub settlement_keys : List Text
settlement_keys =
    codes "tx_hash"
    ∷ codes "memo_hash"
    ∷ codes "memo_preimage"
    ∷ codes "source"
    ∷ codes "destination"
    ∷ codes "asset"
    ∷ []

abbrev pub top_keys : List Text
top_keys =
    codes "version" ∷ codes "network" ∷ codes "chain" ∷ codes "settlement" ∷ codes "issued_at" ∷ []

unfoldable pub chain_checked : Option Members → Checked ReceiptChain
chain_checked none = good record {
  decision_id = [];
  intent_hash = [];
  policy_version = 0;
  agent = [];
  service_id = [];
  asset = [];
  amount = zero_text;
}
chain_checked (some o) = do
  decision_id ← hex o (codes "chain") (codes "decision_id") 32
  intent_hash ← hex o (codes "chain") (codes "intent_hash") 32
  policy_version ← u32 o (codes "chain") (codes "policy_version")
  agent ← address o (codes "chain") (codes "agent")
  service_id ← non_empty_string o (codes "chain") (codes "service_id")
  asset ← strkey o (codes "chain") (codes "asset") b'C'
  amount ← stroops o (codes "chain") (codes "amount")
  good record {
    decision_id = decision_id;
    intent_hash = intent_hash;
    policy_version = policy_version;
    agent = agent;
    service_id = service_id;
    asset = asset;
    amount = amount;
  }

unfoldable pub settlement_checked : Option Members → Checked ReceiptSettlement
settlement_checked none = good record {
  tx_hash = [];
  memo_hash = [];
  memo_preimage = [];
  source = [];
  destination = [];
  asset = [];
}
settlement_checked (some o) = do
  tx_hash ← hex o (codes "settlement") (codes "tx_hash") 32
  memo_hash ← hex o (codes "settlement") (codes "memo_hash") 32
  memo_preimage ← hex o (codes "settlement") (codes "memo_preimage") 68
  source ← strkey o (codes "settlement") (codes "source") b'G'
  destination ← strkey o (codes "settlement") (codes "destination") b'G'
  asset ← non_empty_string o (codes "settlement") (codes "asset")
  good record {
    tx_hash = tx_hash;
    memo_hash = memo_hash;
    memo_preimage = memo_preimage;
    source = source;
    destination = destination;
    asset = asset;
  }

abbrev pub accepted : Checked Receipt → Result (List Issue) Receipt
accepted (receipt, []) = ok receipt
accepted (receipt, issue ∷ issues) = err (issue ∷ issues)

abbrev pub unknown_top : Text → Issue
unknown_top key = (key, unknown_field)

module _ (protocol : Text → Option Text) where
  abbrev pub protocol_checked : Text → Text → Option Text → Checked Text
  protocol_checked at s none = bad [] at (expected_absolute_url s)
  protocol_checked at s (some p) =
      if not (text_eq p (codes "http:")) && not (text_eq p (codes "https:"))
      then bad [] at (expected_http_url s)
      else good s

  abbrev pub url_of : Text → Text → Checked Text
  url_of at [] = good []
  url_of at (c ∷ s) = protocol_checked at (c ∷ s) (protocol (c ∷ s))

  -- `Ctx.url`.
  unfoldable pub url : Members → Text → Text → Checked Text
  url o path key = do s ← non_empty_string o path key; url_of (dotted path key) s

  unfoldable pub network_checked : Option Members → Checked ReceiptNetwork
  network_checked none = good record { passphrase = []; contract_id = []; horizon = []; rpc = [] }
  network_checked (some o) = do
    passphrase ← non_empty_string o (codes "network") (codes "passphrase")
    contract_id ← strkey o (codes "network") (codes "contract_id") b'C'
    horizon ← url o (codes "network") (codes "horizon")
    rpc ← url o (codes "network") (codes "rpc")
    good record { passphrase = passphrase; contract_id = contract_id; horizon = horizon; rpc = rpc }

  -- Every issue of an object, in the order of the checks.
  unfoldable pub validated : Members → Checked Receipt
  validated o = do
    (tt, map unknown_top (filter (unknown top_keys) (own_keys o)))
    version_checked (as_string (value_at o (codes "version")))
    issued_at ← issued_at_checked (value_at o (codes "issued_at"))
    net_object ← object_in o (codes "network") network_keys
    chain_object ← object_in o (codes "chain") chain_keys
    set_object ← object_in o (codes "settlement") settlement_keys
    network ← network_checked net_object
    chain ← chain_checked chain_object
    settlement ← settlement_checked set_object
    asset_checked settlement.asset
    good record { network = network; chain = chain; settlement = settlement; issued_at = issued_at }

  -- `safeParseReceipt`.
  unfoldable pub safe_parse_receipt : Json → Result (List Issue) Receipt
  safe_parse_receipt (object o) = accepted (validated o)
  safe_parse_receipt other =
      err ((codes "receipt", expected_json_object (describe (some other))) ∷ [])

  -- `parseReceipt`: the issues are those of the `ReceiptValidationError` that it throws.
  unfoldable pub parse_receipt : Json → Result (List Issue) Receipt
  unfolding safe_parse_receipt
  parse_receipt input = safe_parse_receipt input

  abbrev pub parsed_or_issue : Option Json → Result (List Issue) Receipt
  parsed_or_issue none = err ((codes "receipt", not_json) ∷ [])
  parsed_or_issue (some value) = safe_parse_receipt value

  -- `parseReceiptJson`; `JSON.parse` is a parameter, `none` where it throws.
  unfoldable pub parse_receipt_json : (Text → Option Json) → Text → Result (List Issue) Receipt
  unfolding safe_parse_receipt
  parse_receipt_json json_parse text = parsed_or_issue (json_parse text)
