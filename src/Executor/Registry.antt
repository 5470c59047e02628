-- ===== src/Executor/Registry.antt =====
-- `loadRegistry` of apps/executor/src/registry.ts, of the file's JSON. The path, the hash of the file
-- and its version are not modelled: no code of the executor but the receipt's reads them.
pub mod Reading
pub mod Payees
pub mod Published
use aegis_phase.Prelude.{
  ℕ, Bool, true, false, not, ◌&&◌, ◌||◌, Option, none, some, List, [], ◌∷◌, Text, codes, text_eq,
  if◌then◌else◌, length, leb, all,
}
use aegis_phase.Prelude.Result.{Result, ok, err, ◌>>=◌, ◌>>◌, throw_if}
use aegis_phase.Prelude.Int.{ℤ}
use aegis_phase.Receipt.Json.{
  Json, boolean, integer, string, array, object, Items, nil, cons, Members, value_at,
}
use aegis_phase.Receipt.Validate.{is_strkey, starts_with}
use aegis_phase.Executor.Errors.{Thrown, settlement, registry_invalid}
use aegis_phase.Executor.World.{RegistryAsset, ServiceRegistry}

abbrev pub invalid : Thrown
invalid = settlement registry_invalid

abbrev pub as_object : Option Json → Result Thrown Members
as_object (some (object members)) = ok members
as_object other = err invalid

abbrev pub address_of : ℕ → Option Json → Result Thrown Text
address_of prefix (some (string s)) =
    if is_strkey s && starts_with prefix s then ok s else err invalid
address_of prefix other = err invalid

-- `strkey`.
abbrev pub address : Members → Text → ℕ → Result Thrown Text
address o key prefix = address_of prefix (value_at o key)

abbrev pub text_of : Option Json → Result Thrown Text
text_of (some (string (c ∷ s))) = ok (c ∷ s)
text_of other = err invalid

-- `text`.
abbrev pub text : Members → Text → Result Thrown Text
text o key = text_of (value_at o key)

abbrev pub is_active : Option Json → Bool
is_active (some (boolean b)) = b
is_active other = false

unfoldable pub has : List (Text × Text) → Text → Bool
has [] id = false
has ((key, value) ∷ rest) id = text_eq key id || has rest id

abbrev pub set_if : Bool → Text → Text → List (Text × Text) → Result Thrown (List (Text × Text))
set_if false id destination destinations = ok destinations
set_if true id destination destinations =
    if has destinations id then err invalid else ok ((id, destination) ∷ destinations)

-- One round of the loop over the services.
unfoldable pub add_service : List (Text × Text) → Json → Result Thrown (List (Text × Text))
unfolding is_strkey starts_with has
add_service destinations entry = do
  s ← as_object (some entry)
  id ← text s (codes "service_id")
  destination ← address s (codes "destination") b'G'
  set_if (is_active (value_at s (codes "active"))) id destination destinations

unfoldable pub add_services : List (Text × Text) → Items → Result Thrown (List (Text × Text))
unfolding add_service
add_services destinations nil = ok destinations
add_services destinations (cons entry rest) = do
  next ← add_service destinations entry
  add_services next rest

abbrev pub is_schema : Option Json → Bool
is_schema (some (string s)) = text_eq s (codes "aegis.service-registry.v1")
is_schema other = false

abbrev pub integer_of : Option Json → Result Thrown ℤ
integer_of (some (integer n)) = ok n
integer_of other = err invalid

abbrev pub services_of : Option Json → Result Thrown (List (Text × Text))
services_of (some (array services)) = add_services [] services
services_of other = err invalid

abbrev pub is_alphanumeric : ℕ → Bool
is_alphanumeric c =
    (leb b'A' c && leb c b'Z') || (leb b'a' c && leb c b'z') || (leb b'0' c && leb c b'9')

abbrev pub is_asset_code : Text → Bool
is_asset_code s = leb 1 (length s) && leb (length s) 12 && all is_alphanumeric s

-- A file that cannot be read is refused like one that is no JSON.
abbrev pub parsed : Result Text Json → Result Thrown Members
parsed (err message) = err invalid
parsed (ok root) = as_object (some root)

-- `loadRegistry`.
unfoldable pub load_registry : Result Text Json → Result Thrown ServiceRegistry
unfolding add_services is_strkey starts_with
load_registry file = do
  root ← parsed file
  throw_if (not (is_schema (value_at root (codes "schema")))) invalid
  network ← as_object (value_at root (codes "network"))
  asset ← as_object (value_at root (codes "asset"))
  executor ← as_object (value_at root (codes "executor"))
  version ← integer_of (value_at root (codes "registry_version"))
  destinations ← services_of (value_at root (codes "services"))
  code ← text asset (codes "code")
  throw_if (not (is_asset_code code)) invalid
  passphrase ← text network (codes "passphrase")
  contract_id ← address network (codes "contract_id") b'C'
  executor_account ← address executor (codes "account_id") b'G'
  issuer ← address asset (codes "issuer") b'G'
  sac ← address asset (codes "sac") b'C'
  ok record {
    network_passphrase = passphrase;
    contract_id = contract_id;
    executor_account = executor_account;
    asset = record { code = code; issuer = issuer; sac = sac };
    destinations = destinations;
  }
