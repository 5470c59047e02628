-- ===== src/Gateway/Cors.antt =====
-- apps/gateway/src/cors.ts: which origins may call the API from a page.
pub mod Slices
pub mod Stars
pub mod Admitted
mod Tests
use aegis_phase.Prelude.{
  ◌+◌, ◌-◌, ℕ, Bool, true, false, not, ◌&&◌, Option, none, some, List, [], ◌∷◌, map, Text, codes,
  text_eq, if◌then◌else◌, leb, ltb, ◌==◌, length, any, filter, take, drop,
}
use aegis_phase.Prelude.Split.{split}
use aegis_phase.Canonical.Amount.{trim}
use aegis_phase.Gateway.Paths.{has_prefix, is_full}

-- `endsWith`.
unfoldable pub has_suffix : Text → Text → Bool
has_suffix suffix s =
    leb (length suffix) (length s) && text_eq (drop (length s - length suffix) s) suffix

-- `slice(from, to)`.
abbrev pub slice : ℕ → ℕ → Text → Text
slice from to s = take (to - from) (drop from s)

-- What stands before the first `*`, and after it.
abbrev pub prefixed : ℕ → Option (Text × Text) → Option (Text × Text)
prefixed c none = none
prefixed c (some (before, after)) = some (c ∷ before, after)

unfoldable pub star_split : Text → Option (Text × Text)
star_split [] = none
star_split (c ∷ s) = if c == b'*' then some ([], s) else prefixed c (star_split s)

abbrev pub by_star : Text → Text → Option (Text × Text) → Bool
by_star pattern origin none = text_eq origin pattern
by_star pattern origin (some (prefix, suffix)) =
    ltb (length prefix + length suffix) (length origin)
    && (has_prefix prefix origin
        && (has_suffix suffix origin
            && not (
                any (λ c. c == b'.')
                  (slice (length prefix) (length origin - length suffix) origin))))

-- `compile(pattern)(origin)`.
unfoldable pub compile : Text → Text → Bool
unfolding has_prefix has_suffix star_split
compile pattern origin =
    if text_eq pattern (codes "*") then true else by_star pattern origin (star_split pattern)

unfoldable pub parse_cors_origins : Option Text → List Text
parse_cors_origins none = []
parse_cors_origins (some raw) = filter is_full (map trim (split b',' raw))

unfoldable pub origin_allowed : List Text → Text → Bool
unfolding compile
origin_allowed patterns origin = any (λ pattern. compile pattern origin) patterns

-- The `origin` of `corsOptions`: a request without an origin is allowed.
unfoldable pub allows : List Text → Option Text → Bool
unfolding origin_allowed
allows patterns none = true
allows patterns (some origin) = origin_allowed patterns origin
