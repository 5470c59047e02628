-- ===== src/Gateway/Paths.antt =====
-- apps/gateway/src/staticConsole.ts: which request is the API's, and which file a path may name.
-- `stat`, `realpath` and the URL parser are parameters.
pub mod Served
use aegis_phase.Prelude.{
  ℕ, ◌+◌, ◌≡◌, ◌⊎◌, inl, inr, refl, sym, ap, ◌∙◌, Bool, true, false, not, ◌&&◌, ◌||◌, Option, none,
  some, List, [], ◌∷◌, ◌++◌, map, reverse, Text, codes, text_eq, text_eq_iff, if◌then◌else◌, leb,
  ◌==◌, length, any, all, drop, filter, and-true,
}
use aegis_phase.Prelude.Split.{split}
use aegis_phase.Canonical.Amount.{trim, is_space}

-- `startsWith`.
unfoldable pub has_prefix : Text → Text → Bool
has_prefix [] s = true
has_prefix (p ∷ ps) [] = false
has_prefix (p ∷ ps) (c ∷ s) = p == c && has_prefix ps s

-- A substring.
unfoldable pub contains : Text → Text → Bool
unfolding has_prefix
contains needle [] = has_prefix needle []
contains needle (c ∷ s) = has_prefix needle (c ∷ s) || contains needle s

abbrev pub api_prefixes : List Text
api_prefixes = codes "/v1" ∷ codes "/health" ∷ []

unfoldable pub is_api_path : List Text → Text → Bool
unfolding has_prefix
is_api_path prefixes path = any (λ p. text_eq path p || has_prefix (p ++ (b'/' ∷ [])) path) prefixes

-- `toLowerCase`, of the letters of ASCII.
abbrev pub lower_text : Text → Text
lower_text = map (λ c. if leb b'A' c && leb c b'Z' then c + 32 else c)

-- `extname` of `node:path`: from the last dot of the last segment, none where that segment begins
-- with its only dot.
unfoldable pub from_last_dot : Text → Option Text
from_last_dot [] = none
from_last_dot (c ∷ s) = elim (from_last_dot s) [
  | some found ↦ some found
  | none ↦ if c == b'.' then some (c ∷ s) else none
]

abbrev pub after_first : Text → Option Text
after_first [] = none
after_first (c ∷ s) = from_last_dot s

abbrev pub or_empty_text : Option Text → Text
or_empty_text none = []
or_empty_text (some s) = s

abbrev pub last_of : List Text → Text
last_of [] = []
last_of (s ∷ []) = s
last_of (s ∷ t ∷ rest) = last_of (t ∷ rest)

unfoldable pub extname : Text → Text
unfolding from_last_dot
extname path = or_empty_text (after_first (last_of (split b'/' path)))

abbrev pub content_types : List (Text × Text)
content_types =
    (codes ".html", codes "text/html; charset=utf-8")
    ∷ (codes ".js", codes "text/javascript; charset=utf-8")
    ∷ (codes ".mjs", codes "text/javascript; charset=utf-8")
    ∷ (codes ".css", codes "text/css; charset=utf-8")
    ∷ (codes ".json", codes "application/json; charset=utf-8")
    ∷ (codes ".map", codes "application/json; charset=utf-8")
    ∷ (codes ".txt", codes "text/plain; charset=utf-8")
    ∷ (codes ".svg", codes "image/svg+xml")
    ∷ (codes ".png", codes "image/png")
    ∷ (codes ".jpg", codes "image/jpeg")
    ∷ (codes ".jpeg", codes "image/jpeg")
    ∷ (codes ".gif", codes "image/gif")
    ∷ (codes ".webp", codes "image/webp")
    ∷ (codes ".avif", codes "image/avif")
    ∷ (codes ".ico", codes "image/x-icon")
    ∷ (codes ".woff", codes "font/woff")
    ∷ (codes ".woff2", codes "font/woff2")
    ∷ (codes ".ttf", codes "font/ttf")
    ∷ (codes ".webmanifest", codes "application/manifest+json")
    ∷ []

unfoldable pub type_in : List (Text × Text) → Text → Text
type_in [] ext = codes "application/octet-stream"
type_in ((e, t) ∷ rest) ext = if text_eq e ext then t else type_in rest ext

unfoldable pub content_type_for : Text → Text
unfolding type_in
content_type_for path = type_in content_types (lower_text (extname path))

unfoldable pub is_compressible : Text → Bool
is_compressible t =
    has_prefix (codes "text/") t
    || has_prefix (codes "application/json") t
    || text_eq t (codes "image/svg+xml")
    || text_eq t (codes "application/manifest+json")

abbrev pub is_full : Text → Bool
is_full [] = false
is_full (c ∷ s) = true

-- `q=0` without its white space, or `/^q=0(\.0+)?$/`.
unfoldable pub is_refusal : Text → Bool
unfolding has_prefix
is_refusal x =
    text_eq (filter (λ c. not (is_space c)) x) (codes "q=0")
    || text_eq x (codes "q=0")
    || (has_prefix (codes "q=0.") x && is_full (drop 4 x) && all (λ c. c == b'0') (drop 4 x))

abbrev pub offers_gzip : List Text → Bool
offers_gzip [] = false
offers_gzip (coding ∷ params) =
    (text_eq coding (codes "gzip") || text_eq coding (codes "*")) && not (any is_refusal params)

abbrev pub accepts_part : Text → Bool
accepts_part part = offers_gzip (map trim (split b';' (lower_text (trim part))))

unfoldable pub accepts_gzip : Option Text → Bool
unfolding is_refusal
accepts_gzip none = false
accepts_gzip (some header) = any accepts_part (split b',' header)

abbrev pub is_dotted : Text → Bool
is_dotted [] = false
is_dotted (c ∷ s) = c == b'.'

unfoldable pub has_dot_segment : Text → Bool
has_dot_segment path = any is_dotted (split b'/' path)

abbrev pub is_foreign : ℕ → Bool
is_foreign c = c == b'\\' || c == 0

-- `join(root, ...segments)` where no segment is empty, `.` or `..`.
abbrev pub joined : Text → List Text → Text
joined root [] = root
joined root (s ∷ rest) = joined (root ++ (b'/' ∷ s)) rest

abbrev pub inside : Text → Text → Bool
inside root path = text_eq path root || has_prefix (root ++ (b'/' ∷ [])) path

-- What the file system answers: whether a path is a regular file, and its target without links.
pub record FileSystem : Type 0 where
  pub is_file : Text → Option Bool
  pub realpath : Text → Option Text

module _ (fs : FileSystem) where
  abbrev pub contained : Text → Option Text → Option Text
  contained root none = none
  contained root (some real) = if inside root real then some real else none

  abbrev pub regular : Text → Text → Option Bool → Option Text
  regular root path none = none
  regular root path (some false) = none
  regular root path (some true) = contained root (fs.realpath path)

  abbrev pub file_of : Text → List Text → Text
  file_of root [] = joined root (codes "index.html" ∷ [])
  file_of root (s ∷ rest) = joined root (s ∷ rest)

  abbrev pub located : Text → Text → Option Text
  located root path = if inside root path then regular root path (fs.is_file path) else none

  -- `resolveWithin`.
  unfoldable pub resolve_within : Text → Text → Option Text
  resolve_within root path =
      let segments = filter is_full (split b'/' path) in
      if has_dot_segment path || any (any is_foreign) segments
      then none
      else located root (file_of root segments)

-- What the not-found handler answers.
pub data Answer : Type 0 where
  json_not_found : Answer
  send_file : Text → Bool → Answer

module _ (fs : FileSystem) (root : Text) (prefixes : List Text) where
  -- A file on disk, an asset that is missing, or a route of the page.
  abbrev pub fallback : Text → Option Text → Answer
  fallback path (some file) = send_file file (has_prefix (codes "/assets/") path)
  fallback path none =
      if is_full (extname (last_of (split b'/' path)))
      then json_not_found
      else send_file (root ++ codes "/index.html") false

  -- The handler that `registerConsole` installs, at a decoded path.
  unfoldable pub not_found : Text → Option Text → Answer
  unfolding is_api_path has_dot_segment
  not_found method none = json_not_found
  not_found method (some path) =
      if is_api_path prefixes path
        || has_dot_segment path
        || not (text_eq method (codes "GET") || text_eq method (codes "HEAD"))
      then json_not_found
      else fallback path (resolve_within fs root path)
