-- ===== src/Gateway/Paths/Served.antt =====
-- What the handler of apps/gateway/src/staticConsole.ts may serve.
use aegis_phase.Prelude.{
  not-false, or-false, if-eq-some, or-true, and-true, ◌≡◌, ◌⊎◌, inl, inr, refl, sym, ap, ◌∙◌, Bool,
  true, false, not, ◌||◌, Option, none, some, List, [], ◌∷◌, ◌++◌, Text, codes, text_eq,
  text_eq_iff, if◌then◌else◌, ◌==◌, ==_iff, any, filter, Bool-cases,
}
use mathlib.Core.Path.{subst}
use mathlib.Core.Option.{some-injective}
use mathlib.Core.List.{append_assoc}
use aegis_phase.Prelude.Split.{split}
use aegis_phase.Gateway.Paths.{
  has_prefix, is_api_path, has_dot_segment, inside, FileSystem, contained, regular, file_of,
  resolve_within, is_full, is_foreign, Answer, json_not_found, send_file, fallback, not_found,
  extname, last_of,
}

pub has_prefix-append : (p s : Text) → has_prefix p s ≡ true → (rest : Text) × (s ≡ p ++ rest)
unfolding has_prefix
has_prefix-append [] s h = (s, refl)
has_prefix-append (p ∷ ps) [] h = cc
has_prefix-append (p ∷ ps) (c ∷ s) h =
    let (a, b) = and-true (p == c) (has_prefix ps s) h in
    let (rest, e) = has_prefix-append ps s b in
    (rest, ap (λ t. c ∷ t) e ∙ ap (λ x. x ∷ (ps ++ rest)) (sym ((==_iff p c).0 a)))

-- The root itself, or a path below it.
abbrev pub Below : Text → Text → Type 0
Below root path = (path ≡ root) ⊎ ((rest : Text) × (path ≡ root ++ (b'/' ∷ rest)))

inside-Below : (root path : Text) → inside root path ≡ true → Below root path
inside-Below root path h = elim (or-true _ _ h) [
  | inl e ↦ inl ((text_eq_iff path root).0 e)
  | inr e ↦ inr (below (has_prefix-append (root ++ (b'/' ∷ [])) path e))
]
  where
    below :
        ((rest : Text) × (path ≡ (root ++ (b'/' ∷ [])) ++ rest))
        → (rest : Text) × (path ≡ root ++ (b'/' ∷ rest))
    below (rest, e) = (rest, e ∙ append_assoc root (b'/' ∷ []) rest)

module _ (fs : FileSystem) (root : Text) where
  -- A regular file whose target without links is the given path, below the root.
  pub record IsServed (file : Text) : Type 0 where
    pub asked : Text
    pub regular_file : fs.is_file asked ≡ some true
    pub target : fs.realpath asked ≡ some file
    pub below : Below root file

  contained-IsServed :
      (asked : Text) (o : Option Text) {file : Text}
      → fs.is_file asked ≡ some true
      → fs.realpath asked ≡ o
      → contained fs root o ≡ some file
      → IsServed file
  contained-IsServed asked none f r h = cc
  contained-IsServed asked (some real) f r h =
      let (e, k) = if-eq-some (inside root real) (some real) h in
      record {
        asked = asked;
        regular_file = f;
        target = r ∙ k;
        below = subst (Below root) (some-injective _ _ k) (inside-Below root real e);
      }

  regular-IsServed :
      (asked : Text) (o : Option Bool) {file : Text}
      → fs.is_file asked ≡ o
      → regular fs root asked o ≡ some file
      → IsServed file
  regular-IsServed asked none f h = cc
  regular-IsServed asked (some false) f h = cc
  regular-IsServed asked (some true) f h = contained-IsServed asked _ f refl h

  resolve_within-IsServed :
      (path : Text) {file : Text} → resolve_within fs root path ≡ some file → IsServed file
  unfolding resolve_within
  resolve_within-IsServed path h =
      let (_, k) =
        if-some-else
          (has_dot_segment path || any (any is_foreign) (filter is_full (split b'/' path))) _ h in
      let (_, l) =
        if-eq-some (inside root (file_of fs root (filter is_full (split b'/' path)))) _ k in
      regular-IsServed (file_of fs root (filter is_full (split b'/' path))) _ refl l
    where
      if-some-else :
          {A : Type 0} (b : Bool) (o : Option A) {a : A}
          → (if b then none else o) ≡ some a
          → (b ≡ false) × (o ≡ some a)
      if-some-else true o e = cc
      if-some-else false o e = (refl, e)

  module _ (prefixes : List Text) (method path : Text) where
    -- The index page of the root, or a regular file below the root.
    abbrev pub Serves : Answer → Type 0
    Serves json_not_found = ⊥
    Serves (send_file file immutable) = (file ≡ root ++ codes "/index.html") ⊎ IsServed file

    -- What the handler requires of a request that it answers with a file.
    abbrev pub IsPage : Type 0
    IsPage =
        (is_api_path prefixes path ≡ false)
        × (has_dot_segment path ≡ false)
        × ((method ≡ codes "GET") ⊎ (method ≡ codes "HEAD"))

    fallback-Serves :
        (found : Option Text)
        → resolve_within fs root path ≡ found
        → (fallback fs root prefixes path found ≡ json_not_found)
          ⊎ Serves (fallback fs root prefixes path found)
    fallback-Serves (some file) e = inr (inr (resolve_within-IsServed path e))
    fallback-Serves none e = elim (Bool-cases (is_full (extname (last_of (split b'/' path))))) [
      | inl x ↦ inl (rw x refl)
      | inr x ↦ inr (rw x (inl refl))
    ]

    answered :
        (b : Bool)
        → (is_api_path prefixes path
            || has_dot_segment path
            || not (text_eq method (codes "GET") || text_eq method (codes "HEAD")))
          ≡ b
        → let answer =
            if b
            then json_not_found
            else fallback fs root prefixes path (resolve_within fs root path) in
          (answer ≡ json_not_found) ⊎ (IsPage × Serves answer)
    answered true e = inl refl
    answered false e =
        let (x, y) = or-false (is_api_path prefixes path || has_dot_segment path) _ e in
        let (u, v) = or-false (is_api_path prefixes path) _ x in
        elim (fallback-Serves (resolve_within fs root path) refl) [
          | inl n ↦ inl n
          | inr s ↦ inr (
            (
              u,
              v,
              elim (or-true _ _ (not-false _ y)) [
                | inl g ↦ inl ((text_eq_iff _ _).0 g)
                | inr g ↦ inr ((text_eq_iff _ _).0 g)
              ],
            ),
            s,
          )
        ]

    -- The handler answers with a JSON 404, or else the request is a GET or a HEAD outside the API with
    -- no dot segment, and the file that is sent is the index page of the root, or a regular file whose
    -- target without links is the root or lies below it.
    pub not_found-Serves :
        (not_found fs root prefixes method (some path) ≡ json_not_found)
        ⊎ (IsPage × Serves (not_found fs root prefixes method (some path)))
    unfolding not_found
    not_found-Serves = answered _ refl
