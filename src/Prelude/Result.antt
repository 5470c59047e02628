-- ===== src/Prelude/Result.antt =====
-- A value or what was thrown, and its do-notation.
use mathlib.Core.Path.{◌≡◌, refl}
use mathlib.Core.Bool.{Bool, true, false}

pub data Result (E A : Type 0) : Type 0 where
  ok : A → Result E A
  err : E → Result E A

infixl 5 ◌>>=◌
abbrev pub ◌>>=◌ : {E A B : Type 0} → Result E A → (A → Result E B) → Result E B
err thrown >>= next = err thrown
ok value >>= next = next value

infixl 5 ◌>>◌
abbrev pub ◌>>◌ : {E B : Type 0} → Result E (Unit {0}) → Result E B → Result E B
first >> second = first >>= λ _. second

-- `if (test) throw e`.
abbrev pub throw_if : {E : Type 0} → Bool → E → Result E (Unit {0})
throw_if true e = err e
throw_if false e = ok tt

pub >>=-eq-ok :
    {E A B : Type 0} (first : Result E A) (next : A → Result E B) {last : B}
    → (first >>= next) ≡ ok last
    → (mid : A) × (first ≡ ok mid) × (next mid ≡ ok last)
>>=-eq-ok (err thrown) next e = cc
>>=-eq-ok (ok value) next e = (value, refl, e)

pub ok-injective : {E A : Type 0} {a b : A} → ◌≡◌ {A = Result E A} (ok a) (ok b) → a ≡ b
ok-injective e = cc

pub err-injective : {E A : Type 0} {a b : E} → ◌≡◌ {A = Result E A} (err a) (err b) → a ≡ b
err-injective e = cc

-- It is no throw.
abbrev pub Total : {E A : Type 0} → Result E A → Type 0
Total {E} {A} r = (a : A) × r ≡ ok a

pub Total-bind :
    {E A B : Type 0} (first : Result E A) (next : A → Result E B)
    → Total first
    → ((value : A) → first ≡ ok value → Total (next value))
    → Total (first >>= next)
Total-bind (ok value) next h k = k value refl
Total-bind (err thrown) next (a, e) k = cc
