-- ===== src/Gateway/WriteAuth.antt =====
-- apps/gateway/src/writeAuth.ts and `readWriteKey` of config.ts: who may write.
-- SHA-256 of a text is a parameter.
pub mod Decided
use aegis_phase.Prelude.{
  ◌-◌, ℕ, Bool, true, false, not, ◌&&◌, ◌||◌, Option, none, some, List, [], ◌∷◌, map, Text, Bytes,
  codes, text_eq, if◌then◌else◌, leb, ltb, ◌==◌, length, any, all,
}
use aegis_phase.Prelude.Result.{Result, ok, err}
use aegis_phase.Canonical.Amount.{trim, is_space, drop_while}
use aegis_phase.Gateway.Paths.{api_prefixes, is_api_path, lower_text, has_prefix}

abbrev pub min_write_key_length : ℕ
min_write_key_length = 24

-- `toUpperCase` of a method, whose letters are of ASCII.
abbrev pub upper_text : Text → Text
upper_text = map (λ c. if leb b'a' c && leb c b'z' then c - 32 else c)

abbrev pub read_methods : List Text
read_methods = codes "GET" ∷ codes "HEAD" ∷ codes "OPTIONS" ∷ []

-- `url.split(/[?#]/, 1)[0]`.
unfoldable pub before_query : Text → Text
before_query [] = []
before_query (c ∷ s) = if c == b'?' || c == b'#' then [] else c ∷ before_query s

unfoldable pub is_guarded_write : Text → Text → Bool
unfolding any is_api_path before_query
is_guarded_write method url =
    not (any (text_eq (upper_text method)) read_methods)
    && is_api_path api_prefixes (before_query url)

-- `(\S+)$`.
abbrev pub whole_token : Text → Option Text
whole_token [] = none
whole_token (c ∷ s) = if all (λ x. not (is_space x)) (c ∷ s) then some (c ∷ s) else none

-- `[ ]+`.
abbrev pub after_spaces : Text → Option Text
after_spaces [] = none
after_spaces (c ∷ s) = if c == b' ' then whole_token (drop_while (λ x. x == b' ') s) else none

-- `/^Bearer[ ]+(\S+)$/i` on the trimmed header.
abbrev pub scheme_then : Text → Option Text
scheme_then (b ∷ e ∷ a ∷ r ∷ f ∷ g ∷ s) =
    if text_eq (lower_text (b ∷ e ∷ a ∷ r ∷ f ∷ g ∷ [])) (codes "bearer")
    then after_spaces s
    else none
scheme_then s = none

unfoldable pub bearer_token : Option Text → Option Text
bearer_token none = none
bearer_token (some header) = scheme_then (trim header)

pub data WriteAuthOutcome : Type 0 where
  allowed not_a_write writes_disabled unauthorized : WriteAuthOutcome

module _ (digest : Text → Bytes) where
  unfoldable pub key_matches : Text → Text → Bool
  key_matches presented expected = text_eq (digest presented) (digest expected)

  abbrev pub presented_with : Text → Option Text → WriteAuthOutcome
  presented_with key none = unauthorized
  presented_with key (some presented) = if key_matches presented key then allowed else unauthorized

  abbrev pub with_key : Option Text → Option Text → WriteAuthOutcome
  with_key authorization none = writes_disabled
  with_key authorization (some []) = writes_disabled
  with_key authorization (some (c ∷ key)) = presented_with (c ∷ key) (bearer_token authorization)

  unfoldable pub classify : Text → Text → Option Text → Option Text → WriteAuthOutcome
  unfolding is_guarded_write bearer_token key_matches
  classify method url authorization write_key =
      if not (is_guarded_write method url) then not_a_write else with_key authorization write_key

-- The hook's answer, as its status and its error, or none where the request goes on.
unfoldable pub hook_reply : WriteAuthOutcome → Option (ℕ × Text)
hook_reply allowed = none
hook_reply not_a_write = none
hook_reply writes_disabled = some (503, codes "writes_disabled")
hook_reply unauthorized = some (401, codes "unauthorized")

-- `Error` of a key that is too short.
pub data KeyError : Type 0 where
  key_too_short : ℕ → KeyError

abbrev pub long_enough : Text → Result KeyError (Option Text)
long_enough [] = ok none
long_enough (c ∷ s) =
    if ltb (length (c ∷ s)) min_write_key_length
    then err (key_too_short (length (c ∷ s)))
    else ok (some (c ∷ s))

unfoldable pub read_write_key : Option Text → Result KeyError (Option Text)
read_write_key none = ok none
read_write_key (some raw) = long_enough (trim raw)
