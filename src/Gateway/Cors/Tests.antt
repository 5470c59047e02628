-- ===== src/Gateway/Cors/Tests.antt =====
-- Patterns of apps/gateway/src/cors.ts, origins, and the theorem at them.
use aegis_phase.Prelude.{
  ◌≡◌, ◌↔◌, refl, true, false, none, some, [], ◌∷◌, List, Text, codes, any, text_eq,
}
use mathlib.Core.List.{Memᴰ}
use aegis_phase.Gateway.Paths.{has_prefix}
use aegis_phase.Gateway.Cors.{has_suffix, star_split, compile, origin_allowed, allows}
use aegis_phase.Gateway.Cors.Admitted.{Admits, origin_allowed_iff}

abbrev patterns : List Text
patterns = codes "https://a.org" ∷ codes "https://*.up.app" ∷ []

-- A label in place of the star is allowed, a dot in it is not; a request without an origin is.
labels_only :
    (origin_allowed patterns (codes "https://pr-7.up.app") ≡ true)
    × (origin_allowed patterns (codes "https://x.y.up.app") ≡ false)
    × (origin_allowed patterns (codes "https://.up.app") ≡ false)
    × (allows [] none ≡ true)
    × (allows [] (some (codes "https://a.org")) ≡ false)
unfolding origin_allowed allows compile star_split has_prefix has_suffix any text_eq
labels_only = (refl, refl, refl, refl, refl)

origin_allowed_iff_example :
    (origin_allowed patterns (codes "https://pr-7.up.app") ≡ true)
    ↔ ((pattern : Text) × Memᴰ pattern patterns × Admits pattern (codes "https://pr-7.up.app"))
origin_allowed_iff_example = origin_allowed_iff patterns (codes "https://pr-7.up.app")
