-- ===== src/Executor/Registry/Reading.antt =====
-- What is read of an entry of the registry (apps/executor/src/registry.ts).
use aegis_phase.Prelude.{
  ◌≡◌, refl, Bool, true, false, ◌&&◌, Option, none, some, List, [], ◌∷◌, Text, codes, if◌then◌else◌,
}
use aegis_phase.Prelude.Result.{ok, err, ok-injective, >>=-eq-ok}
use mathlib.Core.Path.{subst}
use aegis_phase.Receipt.Json.{
  Json, null, fraction, boolean, integer, string, array, object, Items, cons, Members, value_at,
}
use aegis_phase.Receipt.Validate.{is_strkey, starts_with}
use aegis_phase.Executor.Registry.{
  invalid, as_object, address_of, address, text_of, text, is_active, set_if, add_service,
}

-- An entry that lists a service as active, with this payee.
pub record Lists (id destination : Text) (entry : Json) : Type 0 where
  pub body : Members
  pub is_body : entry ≡ object body
  pub has_id : value_at body (codes "service_id") ≡ some (string id)
  pub has_destination : value_at body (codes "destination") ≡ some (string destination)
  pub active : is_active (value_at body (codes "active")) ≡ true
  pub address : is_strkey destination && starts_with b'G' destination ≡ true

-- The entry is among the services.
pub data Among (entry : Json) : Items → Type 0 where
  here : {rest : Items} → Among entry (cons entry rest)
  there : {other : Json} {rest : Items} → Among entry rest → Among entry (cons other rest)

pub as_object-ok :
    (o : Option Json) {body : Members} → as_object o ≡ ok body → o ≡ some (object body)
as_object-ok none e = cc
as_object-ok (some (object members)) e = cc
as_object-ok (some null) e = cc
as_object-ok (some (boolean b)) e = cc
as_object-ok (some (integer n)) e = cc
as_object-ok (some (fraction n)) e = cc
as_object-ok (some (string t)) e = cc
as_object-ok (some (array items)) e = cc

pub text_of-ok : (o : Option Json) {s : Text} → text_of o ≡ ok s → o ≡ some (string s)
text_of-ok none e = cc
text_of-ok (some (string [])) e = cc
text_of-ok (some (string (c ∷ t))) e = cc
text_of-ok (some null) e = cc
text_of-ok (some (boolean b)) e = cc
text_of-ok (some (integer n)) e = cc
text_of-ok (some (fraction n)) e = cc
text_of-ok (some (array items)) e = cc
text_of-ok (some (object members)) e = cc

-- What a test lets through.
pub passed :
    {A : Type 0} (b : Bool) {a a' : A}
    → (if b then ok a else err invalid) ≡ ok a'
    → (b ≡ true) × (a ≡ a')
passed true e = (refl, ok-injective e)
passed false e = cc

pub address_of-ok :
    (o : Option Json) {s : Text}
    → address_of b'G' o ≡ ok s
    → (o ≡ some (string s)) × (is_strkey s && starts_with b'G' s ≡ true)
address_of-ok none e = cc
address_of-ok (some (string t)) e =
    let (b, h) = passed (is_strkey t && starts_with b'G' t) e in
    (rw h refl, subst (λ x. is_strkey x && starts_with b'G' x ≡ true) h b)
address_of-ok (some null) e = cc
address_of-ok (some (boolean b)) e = cc
address_of-ok (some (integer n)) e = cc
address_of-ok (some (fraction n)) e = cc
address_of-ok (some (array items)) e = cc
address_of-ok (some (object members)) e = cc

-- What was read of an entry that was let through.
pub record Entry (entry : Json) (destinations next : List (Text × Text)) : Type 0 where
  pub body : Members
  pub id : Text
  pub destination : Text
  pub is_body : entry ≡ object body
  pub has_id : value_at body (codes "service_id") ≡ some (string id)
  pub has_destination : value_at body (codes "destination") ≡ some (string destination)
  pub is_address : is_strkey destination && starts_with b'G' destination ≡ true
  pub set :
      set_if (is_active (value_at body (codes "active"))) id destination destinations ≡ ok next

pub add_service-Entry :
    (destinations : List (Text × Text)) (entry : Json) {next : List (Text × Text)}
    → add_service destinations entry ≡ ok next
    → Entry entry destinations next
unfolding add_service
add_service-Entry destinations entry h =
    let (s, a, h1) = >>=-eq-ok (as_object (some entry)) _ h in
    let (id, b, h2) = >>=-eq-ok (text s (codes "service_id")) _ h1 in
    let (destination, c, h3) = >>=-eq-ok (address s (codes "destination") b'G') _ h2 in
    let (d, k) = address_of-ok (value_at s (codes "destination")) c in
    record {
      body = s;
      id = id;
      destination = destination;
      is_body = let e = as_object-ok (some entry) a in cc;
      has_id = text_of-ok (value_at s (codes "service_id")) b;
      has_destination = d;
      is_address = k;
      set = h3;
    }
