-- ===== src/Receipt/Rules.antt =====
-- Each method of `Ctx` returns its value without an issue exactly on a field of its kind.
pub mod Asset
use aegis_phase.Prelude.{
  or-true, or-false, not-false, ℕ, ◌+◌, ◌-◌, ◌*◌, ◌≤◌, ◌≡◌, ◌≢◌, ◌↔◌, ◌⊎◌, inl, inr, refl, sym, ap,
  ◌∙◌, Bool, true, false, not, ◌&&◌, ◌||◌, List, [], ◌∷◌, ◌++◌, map, Text, text_eq, text_eq_iff,
  ==_iff, if◌then◌else◌, leb, leb→le, ltb, ◌==◌, length, all, All, All-of_all, all_of_All, and-true,
  arith,
}
use mathlib.Core.Path.{subst}
use aegis_phase.Prelude.Result.{Result, ok, err}
use aegis_phase.Prelude.Int.{ℤ, pos, negsuc}
use aegis_phase.Canonical.Amount.{is_digit, value_from}
use aegis_phase.Receipt.Json.{Kind}
use aegis_phase.Receipt.Validate.{
  Checked, Issue, ◌>>=◌, is_base32, is_strkey, starts_with, lower, is_lower_hex, is_alphanumeric,
  lowered_hex, hex_checked, strkey_checked, address_checked, non_empty_checked, u32_checked,
  is_numeral, stroops_checked, zero_text,
}
use aegis_phase.Receipt.Valid.{
  Within, LowerHex, Base32, Alphanumeric, IsHex, StartsWith, IsStrkey, IsAmount,
}

append-eq-nil {ℓ} : {A : Type ℓ} (xs ys : List A) → xs ++ ys ≡ [] → (xs ≡ []) × (ys ≡ [])
append-eq-nil [] ys h = (refl, h)
append-eq-nil (x ∷ xs) ys h = cc

-- No issue of a sequence: none of its parts.
pub >>=-eq-good :
    {A B : Type 0} (m : Checked A) (f : A → Checked B) {b : B}
    → (m >>= f) ≡ (b, [])
    → (m ≡ (m.0, [])) × (f m.0 ≡ (b, []))
unfolding ◌>>=◌
>>=-eq-good (a, is) f h =
    let (e, k) = append-eq-nil is (f a).1 (ap (λ p. p.1) h) in
    (ap (λ js. (a, js)) e, λ i. ((h i).0, k i))

pub good->>= :
    {A B : Type 0} (m : Checked A) (f : A → Checked B) (a : A) {b : B}
    → m ≡ (a, [])
    → f a ≡ (b, [])
    → (m >>= f) ≡ (b, [])
unfolding ◌>>=◌
good->>= m f a h k = ap (λ p. (p >>= f)) h ∙ k

LowerHex-of : (c : ℕ) → is_lower_hex c ≡ true → LowerHex c
LowerHex-of c h = ground arith

of_LowerHex : (c : ℕ) → LowerHex c → is_lower_hex c ≡ true
of_LowerHex c h = ground arith

Base32-of : (c : ℕ) → is_base32 c ≡ true → Base32 c
Base32-of c h = ground arith

of_Base32 : (c : ℕ) → Base32 c → is_base32 c ≡ true
of_Base32 c h = ground arith

pub Alphanumeric-of : (c : ℕ) → is_alphanumeric c ≡ true → Alphanumeric c
Alphanumeric-of c h = ground arith

pub of_Alphanumeric : (c : ℕ) → Alphanumeric c → is_alphanumeric c ≡ true
of_Alphanumeric c h = ground arith

digit_of : (c : ℕ) → is_digit c ≡ true → Within b'0' b'9' c
digit_of c h = ground arith

of_digit : (c : ℕ) → Within b'0' b'9' c → is_digit c ≡ true
of_digit c h = ground arith

-- A refusal under a test.
pub guarded :
    {A : Type 0} (t : Bool) (a b : A) (issue : Issue) (rest : Checked A)
    → (if t then (b, issue ∷ []) else rest) ≡ (a, [])
    → (t ≡ false) × (rest ≡ (a, []))
guarded true a b issue rest h = cc
guarded false a b issue rest h = (refl, h)

pub value-eq : {A : Type 0} {a b : A} → ◌≡◌ {A = Checked A} (a, []) (b, []) → a ≡ b
value-eq h = ap (λ p. p.0) h

pub starts_with_iff : (c : ℕ) (s : Text) → (starts_with c s ≡ true) ↔ StartsWith c s
unfolding starts_with
starts_with_iff c [] = (λ h. cc, λ (rest, e). cc)
starts_with_iff c (x ∷ s) =
    (λ h. (s, ap (λ y. y ∷ s) ((==_iff x c).0 h)), λ (rest, e). (==_iff x c).1 (cc))

pub is_strkey_iff : (s : Text) → (is_strkey s ≡ true) ↔ ((length s ≡ 56) × All Base32 s)
unfolding is_strkey
is_strkey_iff s = (
  λ h.
      let (a, b) = and-true (length s == 56) (all is_base32 s) h in
      ((==_iff (length s) 56).0 a, All-of_all Base32 is_base32 Base32-of s b),
  λ (a, b). rw ((==_iff (length s) 56).1 a, all_of_All Base32 is_base32 of_Base32 s b) refl,
)

lower_of_LowerHex : (c : ℕ) → LowerHex c → lower c ≡ c
lower_of_LowerHex c h = ground arith

map-lower : (s : Text) → All LowerHex s → map lower s ≡ s
map-lower [] h = refl
map-lower (c ∷ s) (h, k) =
    ap (λ x. x ∷ map lower s) (lower_of_LowerHex c h) ∙ ap (λ t. c ∷ t) (map-lower s k)

pub hex-IsHex :
    (at : Text) (n : ℕ) (r : Result Kind Text) {s : Text} → hex_checked at n r ≡ (s, []) → IsHex n s
unfolding hex_checked lowered_hex
hex-IsHex at n (err kind) h = cc
hex-IsHex at n (ok t) {s} h =
    let (a, k) = guarded (not (all is_lower_hex (map lower t))) s [] _ _ h in
    let (b, e) = guarded (not (length (map lower t) == n * 2)) s [] _ _ k in
    subst (IsHex n) (value-eq e) (
      (==_iff _ _).0 (not-false _ b),
      All-of_all LowerHex is_lower_hex LowerHex-of _ (not-false _ a),
    )

pub hex_of_IsHex : (at : Text) (n : ℕ) (s : Text) → IsHex n s → hex_checked at n (ok s) ≡ (s, [])
unfolding hex_checked lowered_hex
hex_of_IsHex at n s (e, h) =
    rw
      (
        map-lower s h,
        all_of_All LowerHex is_lower_hex of_LowerHex s h,
        (==_iff (length s) (n * 2)).1 e,
      )
      refl

pub checked-IsStrkey :
    (at : Text) (c : ℕ) (r : Result Kind Text) {s : Text}
    → strkey_checked at c r ≡ (s, [])
    → IsStrkey c s
unfolding strkey_checked
checked-IsStrkey at c (err kind) h = cc
checked-IsStrkey at c (ok t) {s} h =
    let (a, e) = guarded (not (is_strkey t) || not (starts_with c t)) s [] _ _ h in
    let (x, y) = or-false _ _ a in
    let (l, b) = (is_strkey_iff t).0 (not-false _ x) in
    subst (IsStrkey c) (value-eq e) (l, b, (starts_with_iff c t).0 (not-false _ y))

pub strkey_of_IsStrkey :
    (at : Text) (c : ℕ) (s : Text) → IsStrkey c s → strkey_checked at c (ok s) ≡ (s, [])
unfolding strkey_checked
strkey_of_IsStrkey at c s (l, b, w) =
    rw ((is_strkey_iff s).1 (l, b), (starts_with_iff c s).1 w) refl

pub address-IsStrkey :
    (at : Text) (r : Result Kind Text) {s : Text}
    → address_checked at r ≡ (s, [])
    → IsStrkey b'G' s ⊎ IsStrkey b'C' s
unfolding address_checked
address-IsStrkey at (err kind) h = cc
address-IsStrkey at (ok t) {s} h =
    let (a, e) =
      guarded (not (is_strkey t) || not (starts_with b'G' t || starts_with b'C' t)) s [] _ _ h in
    let (x, y) = or-false _ _ a in
    let (l, b) = (is_strkey_iff t).0 (not-false _ x) in
    subst (λ u. IsStrkey b'G' u ⊎ IsStrkey b'C' u) (value-eq e)
      (elim (or-true _ _ (not-false _ y)) [
        | inl g ↦ inl (l, b, (starts_with_iff b'G' t).0 g)
        | inr c ↦ inr (l, b, (starts_with_iff b'C' t).0 c)
      ])

or_right : (s : Bool) → (s || true) ≡ true
or_right true = refl
or_right false = refl

pub address_of_IsStrkey :
    (at : Text) (s : Text) → IsStrkey b'G' s ⊎ IsStrkey b'C' s → address_checked at (ok s) ≡ (s, [])
unfolding address_checked
address_of_IsStrkey at s (inl (l, b, w)) =
    rw ((is_strkey_iff s).1 (l, b), (starts_with_iff b'G' s).1 w) refl
address_of_IsStrkey at s (inr (l, b, w)) =
    rw ((is_strkey_iff s).1 (l, b), (starts_with_iff b'C' s).1 w, or_right (starts_with b'G' s))
      refl

pub non_empty-ne :
    (at : Text) (r : Result Kind Text) {s : Text} → non_empty_checked at r ≡ (s, []) → s ≢ []
unfolding non_empty_checked
non_empty-ne at (err kind) h = cc
non_empty-ne at (ok []) h = cc
non_empty-ne at (ok (c ∷ t)) h = λ e. cc

pub non_empty_of_ne : (at s : Text) → s ≢ [] → non_empty_checked at (ok s) ≡ (s, [])
unfolding non_empty_checked
non_empty_of_ne at [] h = absurd (h refl)
non_empty_of_ne at (c ∷ s) h = refl

pub u32-le : (at : Text) (r : Result Kind ℤ) {n : ℕ} → u32_checked at r ≡ (n, []) → n ≤ 0xffffffff
unfolding u32_checked
u32-le at (err kind) h = cc
u32-le at (ok (negsuc k)) h = cc
u32-le at (ok (pos k)) {n} h =
    let (a, e) = guarded (ltb 0xffffffff k) n 0 _ _ h in
    let same : k ≡ n = value-eq e in let le : k ≤ 0xffffffff = ground arith in omega arith

pub u32_of_le : (at : Text) (n : ℕ) → n ≤ 0xffffffff → u32_checked at (ok (pos n)) ≡ (n, [])
unfolding u32_checked
u32_of_le at n h = let e : ltb 0xffffffff n ≡ false = ground arith in rw e refl

value_from-ge : (acc : ℕ) (s : Text) → acc ≤ value_from acc s
unfolding value_from
value_from-ge acc [] = omega arith
value_from-ge acc (c ∷ s) = omega (arith, value_from-ge (acc * 10 + (c - b'0')) s)

numeral-IsAmount : (s : Text) → is_numeral s ≡ true → (value_from 0 s == 0) ≡ false → IsAmount s
unfolding is_numeral value_from
numeral-IsAmount [] h z = cc
numeral-IsAmount (c ∷ s) h z = elim (or-true _ _ h) [
  | inl e ↦ absurd (zero-not_positive c s ((text_eq_iff (c ∷ s) (b'0' ∷ [])).0 e) z)
  | inr e ↦
      let (w, d) = and-true (leb b'1' c && leb c b'9') (all is_digit s) e in
      (
        c,
        s,
        refl,
        (ground arith, ground arith),
        All-of_all (Within b'0' b'9') is_digit digit_of s d,
      )
]
  where
    zero-not_positive :
        (c : ℕ) (s : Text) → c ∷ s ≡ b'0' ∷ [] → (value_from 0 (c ∷ s) == 0) ≡ false → ⊥
    zero-not_positive c s e z =
        let k : (value_from 0 (b'0' ∷ []) == 0) ≡ false =
          subst (λ t. (value_from 0 t == 0) ≡ false) e z in
        cc

pub stroops-IsAmount :
    (at : Text) (r : Result Kind Text) {s : Text} → stroops_checked at r ≡ (s, []) → IsAmount s
unfolding stroops_checked
stroops-IsAmount at (ok t) {s} h =
    let (a, k) = guarded (not (is_numeral t)) s zero_text _ _ h in
    let (b, e) = guarded (value_from 0 t == 0) s zero_text _ _ k in
    subst IsAmount (value-eq e) (numeral-IsAmount t (not-false _ a) b)
stroops-IsAmount at (err Kind.number_kind) h = cc
stroops-IsAmount at (err kind) h = cc

pub stroops_of_IsAmount : (at s : Text) → IsAmount s → stroops_checked at (ok s) ≡ (s, [])
unfolding stroops_checked is_numeral value_from
stroops_of_IsAmount at s (c, rest, e, w, d) =
    subst (λ t. stroops_checked at (ok t) ≡ (t, [])) (sym e)
      (let x : (leb b'1' c && leb c b'9') ≡ true = ground arith in
        let v : (value_from (0 * 10 + (c - b'0')) rest == 0) ≡ false =
          ground (arith, value_from-ge (0 * 10 + (c - b'0')) rest) in
        rw
          (
            x,
            all_of_All (Within b'0' b'9') is_digit of_digit rest d,
            or_right (text_eq (c ∷ rest) (b'0' ∷ [])),
            v,
          )
          refl)
