-- ===== src/Gateway/Cors/Admitted.antt =====
-- What a pattern of apps/gateway/src/cors.ts admits, both ways.
use aegis_phase.Prelude.{
  or-true, ◌+◌, ◌-◌, ◌||◌, ℕ, ◌≡◌, ◌<◌, ◌≤◌, ◌↔◌, ◌⊎◌, inl, inr, refl, sym, ap, ◌∙◌, Bool, true,
  false, not, ◌&&◌, Option, none, some, [], ◌∷◌, ◌++◌, Text, codes, text_eq, text_eq_iff,
  if◌then◌else◌, leb, ltb, ◌==◌, length, any, take, drop, and-true, ltb→lt, lt→ltb, length-append,
  arith,
}
use mathlib.Core.Path.{subst}
use aegis_phase.Gateway.Paths.{has_prefix}
use aegis_phase.Gateway.Paths.Served.{has_prefix-append}
use aegis_phase.Gateway.Cors.{List, has_suffix, slice, star_split, by_star, compile}
use mathlib.Core.List.{Memᴰ}
use aegis_phase.Gateway.Cors.{origin_allowed}
use aegis_phase.Gateway.Cors.Slices.{
  take-drop, length-take_within, drop-append, take-append, has_prefix_of_append, le→leb,
  drop_prefix,
}
use aegis_phase.Gateway.Cors.Stars.{
  Starless, Dotless, Splits, not-any-Dotless, not-any_of_Dotless, star_split-Splits,
  star_split-Starless, star_split-append,
}

-- A label in place of the first `*`.
pub record Wild (pattern origin : Text) : Type 0 where
  pub prefix : Text
  pub label : Text
  pub suffix : Text
  pub pattern_is : pattern ≡ prefix ++ (b'*' ∷ suffix)
  pub origin_is : origin ≡ prefix ++ (label ++ suffix)
  pub starless : Starless prefix
  pub non_empty : 0 < length label
  pub dotless : Dotless label

-- Every origin, that origin, or one with a label in place of the star.
abbrev pub Admits : Text → Text → Type 0
Admits pattern origin =
    (pattern ≡ codes "*") ⊎ ((Starless pattern × (origin ≡ pattern)) ⊎ Wild pattern origin)

module _ (prefix suffix : Text) where
  -- Where the suffix begins, in an origin that begins with the prefix.
  at_suffix :
      (r : Text)
      → length suffix ≤ length r
      → length (prefix ++ r) - length suffix ≡ length prefix + (length r - length suffix)
  at_suffix r h = omega (arith, length-append prefix r)

  ends :
      (r : Text)
      → length suffix ≤ length r
      → has_suffix suffix (prefix ++ r) ≡ true
      → drop (length r - length suffix) r ≡ suffix
  unfolding has_suffix
  ends r l h =
      let (_, e) = and-true (leb (length suffix) (length (prefix ++ r))) _ h in
      sym (drop-append prefix r (length r - length suffix))
      ∙ (ap (λ (n : ℕ). drop n (prefix ++ r)) (sym (at_suffix r l)) ∙ (text_eq_iff _ _).0 e)

  slice_lem :
      (r : Text)
      → length suffix ≤ length r
      → slice (length prefix) (length (prefix ++ r) - length suffix) (prefix ++ r)
        ≡ take (length r - length suffix) r
  slice_lem r l =
      ap (λ (t : Text). take ((length (prefix ++ r) - length suffix) - length prefix) t)
        (drop_prefix prefix r)
      ∙ ap (λ (n : ℕ). take n r) (omega (arith, at_suffix r l))

  rest-Wild :
      (pattern r : Text)
      → pattern ≡ prefix ++ (b'*' ∷ suffix)
      → Starless prefix
      → length suffix < length r
      → has_suffix suffix (prefix ++ r) ≡ true
      → not (
          any
            (λ c. c == b'.')
            (slice (length prefix) (length (prefix ++ r) - length suffix) (prefix ++ r)))
        ≡ true
      → Wild pattern (prefix ++ r)
  rest-Wild pattern r p s l e d = record {
    prefix = prefix;
    label = take (length r - length suffix) r;
    suffix = suffix;
    pattern_is = p;
    origin_is =
        ap (λ t. prefix ++ t)
          (sym (take-drop (length r - length suffix) r)
            ∙ ap (λ t. take (length r - length suffix) r ++ t) (ends r (omega arith) e));
    starless = s;
    non_empty = omega (arith, length-take_within (length r - length suffix) r (omega arith));
    dotless =
        not-any-Dotless (take (length r - length suffix) r)
          (subst (λ (t : Text). not (any (λ c. c == b'.') t) ≡ true) (slice_lem r (omega arith)) d);
  }

  by_star-Wild :
      (pattern origin : Text)
      → pattern ≡ prefix ++ (b'*' ∷ suffix)
      → Starless prefix
      → by_star pattern origin (some (prefix, suffix)) ≡ true
      → Wild pattern origin
  by_star-Wild pattern origin p s h =
      let (l, h1) = and-true (ltb (length prefix + length suffix) (length origin)) _ h in
      let (b, h2) = and-true (has_prefix prefix origin) _ h1 in
      let (e, d) = and-true (has_suffix suffix origin) _ h2 in
      let (r, o) = has_prefix-append prefix origin b in
      subst (Wild pattern) (sym o) (
        rest-Wild pattern r p s
          (longer r
            (subst (λ (t : Text). length prefix + length suffix < length t) o (ltb→lt _ _ l)))
          (subst (λ (t : Text). has_suffix suffix t ≡ true) o e)
          (subst
            (λ (t : Text).
              not (any (λ c. c == b'.') (slice (length prefix) (length t - length suffix) t))
              ≡ true)
            o d))
    where
      longer :
          (r : Text)
          → length prefix + length suffix < length (prefix ++ r)
          → length suffix < length r
      longer r h = omega (arith, length-append prefix r)

  -- The other way.
  by_star_of_Wild :
      (pattern label : Text)
      → 0 < length label
      → Dotless label
      → by_star pattern (prefix ++ (label ++ suffix)) (some (prefix, suffix)) ≡ true
  unfolding has_suffix
  by_star_of_Wild pattern label l d =
      let r = label ++ suffix in
      let q : length label + length suffix ≡ length r = sym (length-append label suffix) in
      let k : length r - length suffix ≡ length label = omega arith in
      let e1 : ltb (length prefix + length suffix) (length (prefix ++ r)) ≡ true =
        lt→ltb _ _ (omega (arith, length-append prefix r)) in
      let e2 = has_prefix_of_append prefix r in
      let e3 : leb (length suffix) (length (prefix ++ r)) ≡ true =
        le→leb _ _ (omega (arith, length-append prefix r)) in
      let e4 : drop (length (prefix ++ r) - length suffix) (prefix ++ r) ≡ suffix =
        ap (λ (n : ℕ). drop n (prefix ++ r)) (at_suffix r (omega arith))
        ∙ (drop-append prefix r (length r - length suffix)
            ∙ (ap (λ (n : ℕ). drop n r) k ∙ drop_prefix label suffix)) in
      let e5 : slice (length prefix) (length (prefix ++ r) - length suffix) (prefix ++ r) ≡ label =
        slice_lem r (omega arith) ∙ (ap (λ (n : ℕ). take n r) k ∙ take-append label suffix) in
      all_true e1 e2 e3 ((text_eq_iff _ _).1 e4) (
        subst (λ (t : Text). not (any (λ c. c == b'.') t) ≡ true) (sym e5)
          (not-any_of_Dotless label d))
    where
      all_true :
          {a b c d e : Bool}
          → a ≡ true
          → b ≡ true
          → c ≡ true
          → d ≡ true
          → e ≡ true
          → (a && (b && ((c && d) && e))) ≡ true
      all_true a b c d e = rw (a, b, c, d, e) refl

tested-Admits :
    (pattern origin : Text) (b : Bool) (o : Option (Text × Text))
    → text_eq pattern (codes "*") ≡ b
    → Splits pattern o
    → (if b then true else by_star pattern origin o) ≡ true
    → Admits pattern origin
unfolding Splits
tested-Admits pattern origin true o e s h = inl ((text_eq_iff pattern (codes "*")).0 e)
tested-Admits pattern origin false none e s h = inr (inl (s, (text_eq_iff origin pattern).0 h))
tested-Admits pattern origin false (some (before, after)) e (p, s) h =
    inr (inr (by_star-Wild before after pattern origin p s h))

either : (b : Bool) {c : Bool} → c ≡ true → (if b then true else c) ≡ true
either true h = refl
either false h = h

compile_of_Admits : (pattern origin : Text) → Admits pattern origin → compile pattern origin ≡ true
unfolding compile
compile_of_Admits pattern origin (inl e) = rw ((text_eq_iff pattern (codes "*")).1 e) refl
compile_of_Admits pattern origin (inr (inl (s, e))) =
    either (text_eq pattern (codes "*"))
      (rw (star_split-Starless pattern s) ((text_eq_iff origin pattern).1 e))
compile_of_Admits pattern origin (inr (inr w)) = either (text_eq pattern (codes "*")) (
    subst (λ (p : Text). by_star pattern origin (star_split p) ≡ true) (sym w.pattern_is)
      (rw (star_split-append w.prefix w.suffix w.starless) (
        subst (λ (o : Text). by_star pattern o (some (w.prefix, w.suffix)) ≡ true) (sym w.origin_is)
          (by_star_of_Wild w.prefix w.suffix pattern w.label w.non_empty w.dotless))))

compile_iff : (pattern origin : Text) → (compile pattern origin ≡ true) ↔ Admits pattern origin
unfolding compile
compile_iff pattern origin = (
  tested-Admits pattern origin (text_eq pattern (codes "*")) (star_split pattern) refl
      (star_split-Splits pattern),
  compile_of_Admits pattern origin,
)

one_allows :
    (patterns : List Text) (origin p : Text)
    → Admits p origin
    → Memᴰ p patterns
    → origin_allowed patterns origin ≡ true
unfolding origin_allowed any
one_allows [] origin p a m = elim m [ ]
one_allows (first ∷ rest) origin p a (Memᴰ.head e) =
    rw ((compile_iff first origin).1 (subst (λ (x : Text). Admits x origin) e a)) refl
one_allows (first ∷ rest) origin p a (Memᴰ.tail m) =
    or_later (compile first origin) (one_allows rest origin p a m)
  where
    or_later : (b : Bool) {c : Bool} → c ≡ true → (b || c) ≡ true
    or_later true h = refl
    or_later false h = h

one_allowed :
    (patterns : List Text) (origin : Text)
    → origin_allowed patterns origin ≡ true
    → (pattern : Text) × Memᴰ pattern patterns × Admits pattern origin
unfolding origin_allowed any
one_allowed [] origin h = cc
one_allowed (first ∷ rest) origin h = elim (or-true (compile first origin) _ h) [
  | inl e ↦ (first, Memᴰ.head refl, (compile_iff first origin).0 e)
  | inr e ↦ let (p, m, a) = one_allowed rest origin e in (p, Memᴰ.tail m, a)
]

-- An origin is allowed exactly when one of the patterns admits it: the star alone, or a pattern with no
-- star that is the origin, or a pattern in which a label that is not empty and has no dot, put in place
-- of the first star, gives the origin.
pub origin_allowed_iff :
    (patterns : List Text) (origin : Text)
    → (origin_allowed patterns origin ≡ true)
      ↔ ((pattern : Text) × Memᴰ pattern patterns × Admits pattern origin)
origin_allowed_iff patterns origin =
    (one_allowed patterns origin, λ (p, m, a). one_allows patterns origin p a m)
