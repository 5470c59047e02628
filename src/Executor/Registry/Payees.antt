-- ===== src/Executor/Registry/Payees.antt =====
-- The payees that the loop over the services collects (apps/executor/src/registry.ts).
use aegis_phase.Prelude.{
  ◌≡◌, ◌⊎◌, ◌↔◌, inl, inr, sym, refl, Bool, true, false, ◌||◌, Option, none, some, List, [], ◌∷◌,
  Text, codes, text_eq, text_eq_iff, if◌then◌else◌, find,
}
use aegis_phase.Prelude.Result.{ok, err, ok-injective, >>=-eq-ok}
use mathlib.Core.Path.{subst}
use aegis_phase.Receipt.Json.{Json, string, Items, nil, cons, value_at}
use aegis_phase.Executor.World.{second}
use aegis_phase.Executor.Registry.{invalid, is_active, has, set_if, add_service, add_services}
use aegis_phase.Executor.Registry.Reading.{Lists, Among, here, there, Entry, add_service-Entry}

-- `destinations.get(id)`.
abbrev pub payee : List (Text × Text) → Text → Option Text
payee destinations id = second (find (λ (e : Text × Text). text_eq e.0 id) destinations)

pub or-false : (a b : Bool) → (a || b) ≡ false → (a ≡ false) × (b ≡ false)
or-false true b h = cc
or-false false b h = (refl, h)

pub payee-fresh :
    (destinations : List (Text × Text)) (id : Text)
    → has destinations id ≡ false
    → payee destinations id ≡ none
unfolding has find
payee-fresh [] id h = refl
payee-fresh ((key, value) ∷ rest) id h =
    let (a, b) = or-false (text_eq key id) (has rest id) h in rw a (payee-fresh rest id b)

pub added :
    {A : Type 0} (b : Bool) {a a' : A}
    → (if b then err invalid else ok a) ≡ ok a'
    → (b ≡ false) × (a ≡ a')
added true e = cc
added false e = (refl, ok-injective e)

module _ (id destination : Text) where
  -- The payee of the service afterwards is its payee before, or the entry's.
  abbrev Extends : Json → List (Text × Text) → List (Text × Text) → Type 0
  Extends entry destinations next =
      (payee next id ≡ some destination)
      ↔ ((payee destinations id ≡ some destination) ⊎ Lists id destination entry)

  same_text : {o : Option Json} {s t : Text} → o ≡ some (string s) → o ≡ some (string t) → s ≡ t
  same_text e f = cc

  -- The two readings of an entry agree.
  agree :
      {entry : Json} {ds next : List (Text × Text)}
      → (e : Entry entry ds next) → Lists id destination entry
      → (is_active (value_at e.body (codes "active")) ≡ true)
        × (e.id ≡ id)
        × (e.destination ≡ destination)
  agree {entry} e l =
      let same = the_body in
      (
        subst (λ b. is_active (value_at b (codes "active")) ≡ true) same l.active,
        same_text e.has_id
            (subst (λ b. value_at b (codes "service_id") ≡ some (string id)) same l.has_id),
        same_text e.has_destination (
            subst (λ b. value_at b (codes "destination") ≡ some (string destination)) same
              l.has_destination),
      )
    where
      the_body : l.body ≡ e.body
      the_body = let a = l.is_body in let b = e.is_body in cc

  lists :
      {entry : Json} {ds next : List (Text × Text)}
      → (e : Entry entry ds next) → is_active (value_at e.body (codes "active")) ≡ true
      → e.id ≡ id
      → e.destination ≡ destination
      → Lists id destination entry
  lists e a i d = record {
    body = e.body;
    is_body = e.is_body;
    has_id = rw (sym i) e.has_id;
    has_destination = rw (sym d) e.has_destination;
    active = a;
    address = rw (sym d) e.is_address;
  }

  head-Extends :
      {entry : Json} {destinations next : List (Text × Text)}
      → (e : Entry entry destinations next) → is_active (value_at e.body (codes "active")) ≡ true
      → has destinations e.id ≡ false
      → (b : Bool) → text_eq e.id id ≡ b
      → (second (
            if b
            then some (e.id, e.destination)
            else find (λ (x : Text × Text). text_eq x.0 id) destinations)
          ≡ some destination)
        ↔ ((payee destinations id ≡ some destination) ⊎ Lists id destination entry)
  head-Extends {entry} {destinations} e a h true k =
      let same = (text_eq_iff e.id id).0 k in
      (
        λ p. inr (lists e a same (let q = p in cc)),
        λ x. elim x [
          | inl p ↦ absurd (
              let q =
                payee-fresh destinations id (subst (λ y. has destinations y ≡ false) same h) in
              cc)
          | inr l ↦ let (c, d, f) = agree e l in rw f refl
        ],
      )
  head-Extends e a h false k = (
    λ p. inl p,
    λ x. elim x [
      | inl p ↦ p
      | inr l ↦ absurd (let (c, d, f) = agree e l in let t = (text_eq_iff e.id id).1 d in cc)
    ],
  )

  set-Extends :
      {entry : Json} {destinations next : List (Text × Text)}
      → (e : Entry entry destinations next) → (b : Bool)
      → is_active (value_at e.body (codes "active")) ≡ b
      → set_if b e.id e.destination destinations ≡ ok next
      → Extends entry destinations next
  unfolding find
  set-Extends e false a h = (
    λ p. inl (rw (ok-injective h) p),
    λ x. elim x [
      | inl p ↦ rw (sym (ok-injective h)) p
      | inr l ↦ absurd (let (c, d, f) = agree e l in cc)
    ],
  )
  set-Extends {entry} {destinations} {next} e true a h =
      let (f, same) = added (has destinations e.id) h in
      subst (Extends entry destinations) same (head-Extends e a f (text_eq e.id id) refl)

  -- The payee of the service after the loop is its payee before, or that of one of the entries.
  pub add_services-lem :
      (destinations : List (Text × Text)) (services : Items) {all_of : List (Text × Text)}
      → add_services destinations services ≡ ok all_of
      → (payee all_of id ≡ some destination) ↔ (
          (payee destinations id ≡ some destination)
          ⊎ ((entry : Json) × Among entry services × Lists id destination entry))
  unfolding add_services
  add_services-lem destinations nil h = (
    λ p. inl (rw (ok-injective h) p),
    λ x. elim x [ inl p ↦ rw (sym (ok-injective h)) p | inr (entry, m, l) ↦ absurd (elim m [ ]) ],
  )
  add_services-lem destinations (cons entry rest) h =
      let (next, a, h1) = >>=-eq-ok (add_service destinations entry) _ h in
      let e = add_service-Entry destinations entry a in
      let (to, from) = set-Extends e (is_active (value_at e.body (codes "active"))) refl e.set in
      let (later_to, later_from) = add_services-lem next rest h1 in
      (
        λ p. elim (later_to p) [
          | inr (x, m, l) ↦ inr (x, there m, l)
          | inl q ↦ elim (to q) [ inl r ↦ inl r | inr l ↦ inr (entry, here, l) ]
        ],
        λ x. elim x [
          | inl p ↦ later_from (inl (from (inl p)))
          | inr (y, here, l) ↦ later_from (inl (from (inr l)))
          | inr (y, there m, l) ↦ later_from (inr (y, m, l))
        ],
      )
