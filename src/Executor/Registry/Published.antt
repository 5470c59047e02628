-- ===== src/Executor/Registry/Published.antt =====
-- The payee of a service (apps/executor/src/registry.ts).
use aegis_phase.Prelude.{
  ◌≡◌, ◌↔◌, ◌∙◌, ap, inl, inr, sym, refl, not, Option, none, some, List, [], Text, codes,
}
use aegis_phase.Prelude.Result.{Result, ok, err, throw_if, ok-injective, >>=-eq-ok}
use mathlib.Core.Path.{subst}
use aegis_phase.Receipt.Json.{
  Json, null, fraction, boolean, integer, string, array, object, Items, Members, value_at,
}
use aegis_phase.Executor.World.{ServiceRegistry, destination_for}
use aegis_phase.Executor.Registry.{
  invalid, as_object, address, text, add_services, services_of, load_registry, parsed, integer_of,
  is_schema, is_asset_code,
}
use aegis_phase.Executor.Registry.Reading.{Lists, Among, as_object-ok}
use aegis_phase.Executor.Registry.Payees.{add_services-lem}

services_of-array :
    (o : Option Json) {all_of : List (Text × Text)}
    → services_of o ≡ ok all_of
    → (services : Items) × (o ≡ some (array services)) × (add_services [] services ≡ ok all_of)
services_of-array (some (array services)) e = (services, refl, e)
services_of-array none e = cc
services_of-array (some null) e = cc
services_of-array (some (boolean b)) e = cc
services_of-array (some (integer n)) e = cc
services_of-array (some (fraction n)) e = cc
services_of-array (some (string t)) e = cc
services_of-array (some (object members)) e = cc

parsed-object :
    (file : Result Text Json) {root : Members} → parsed file ≡ ok root → file ≡ ok (object root)
parsed-object (err message) e = cc
parsed-object (ok json) e = let o = as_object-ok (some json) e in cc

-- The file's list of services, from which the payees were read.
record Loaded (file : Result Text Json) (registry : ServiceRegistry) : Type 0 where
  root : Members
  services : Items
  is_root : file ≡ ok (object root)
  is_services : value_at root (codes "services") ≡ some (array services)
  read : add_services [] services ≡ ok registry.destinations

load_registry-Loaded :
    (file : Result Text Json) {registry : ServiceRegistry}
    → load_registry file ≡ ok registry
    → Loaded file registry
unfolding load_registry
load_registry-Loaded file h =
    let (root, a, h1) = >>=-eq-ok (parsed file) _ h in
    let (u, b, h2) =
      >>=-eq-ok (throw_if (not (is_schema (value_at root (codes "schema")))) invalid) _ h1 in
    let (network, c, h3) = >>=-eq-ok (as_object (value_at root (codes "network"))) _ h2 in
    let (asset, d, h4) = >>=-eq-ok (as_object (value_at root (codes "asset"))) _ h3 in
    let (executor, e, h5) = >>=-eq-ok (as_object (value_at root (codes "executor"))) _ h4 in
    let (version, f, h6) = >>=-eq-ok (integer_of (value_at root (codes "registry_version"))) _ h5 in
    let (destinations, g, h7) = >>=-eq-ok (services_of (value_at root (codes "services"))) _ h6 in
    let (code, i, h8) = >>=-eq-ok (text asset (codes "code")) _ h7 in
    let (v, j, h9) = >>=-eq-ok (throw_if (not (is_asset_code code)) invalid) _ h8 in
    let (passphrase, k, h10) = >>=-eq-ok (text network (codes "passphrase")) _ h9 in
    let (contract_id, l, h11) = >>=-eq-ok (address network (codes "contract_id") b'C') _ h10 in
    let (account, m, h12) = >>=-eq-ok (address executor (codes "account_id") b'G') _ h11 in
    let (issuer, n, h13) = >>=-eq-ok (address asset (codes "issuer") b'G') _ h12 in
    let (sac, o, h14) = >>=-eq-ok (address asset (codes "sac") b'C') _ h13 in
    let (services, p, q) = services_of-array (value_at root (codes "services")) g in
    record {
      root = root;
      services = services;
      is_root = parsed-object file a;
      is_services = p;
      read = q ∙ ap (λ (r : ServiceRegistry). ok r.destinations) (ok-injective h14);
    }

-- An entry of the file's services lists the service as active, with this payee.
pub record Publishes (file : Result Text Json) (id destination : Text) : Type 0 where
  pub root : Members
  pub services : Items
  pub entry : Json
  pub is_root : file ≡ ok (object root)
  pub is_services : value_at root (codes "services") ≡ some (array services)
  pub among : Among entry services
  pub lists : Lists id destination entry

same_services :
    {file : Result Text Json} {root root' : Members} {services services' : Items}
    → file ≡ ok (object root)
    → file ≡ ok (object root')
    → value_at root (codes "services") ≡ some (array services)
    → value_at root' (codes "services") ≡ some (array services')
    → services ≡ services'
same_services {root'} {services} e f g h =
    let r = object-injective (ok-injective (sym e ∙ f)) in
    let s = subst (λ m. value_at m (codes "services") ≡ some (array services)) r g in cc
  where
    object-injective : {a b : Members} → object a ≡ object b → a ≡ b
    object-injective e = cc

-- The payee that a loaded registry gives a service is the one that an entry of the file lists for it
-- as active, with an account's address: where the registry is loaded, no active entry lists another
-- payee for it, and of a service that no active entry lists there is none.
pub destination_for-IsPublished :
    (file : Result Text Json) (registry : ServiceRegistry)
    → load_registry file ≡ ok registry
    → (id destination : Text)
    → (destination_for registry id ≡ some destination) ↔ Publishes file id destination
unfolding destination_for
destination_for-IsPublished file registry h id destination =
    let l = load_registry-Loaded file h in
    let (to, from) = add_services-lem id destination [] l.services l.read in
    (
      λ p. elim (to p) [
        | inl q ↦ absurd (cc)
        | inr (entry, m, x) ↦ record {
          root = l.root;
          services = l.services;
          entry = entry;
          is_root = l.is_root;
          is_services = l.is_services;
          among = m;
          lists = x;
        }
      ],
      λ p. from (
          inr (
            p.entry,
            subst (Among p.entry) (same_services p.is_root l.is_root p.is_services l.is_services)
                p.among,
            p.lists,
          )),
    )
