-- ===== src/Receipt/Json.antt =====
-- The JSON values that packages/receipt/src/validate.ts reads, and what it asks of them.
use aegis_phase.Prelude.{Bool, Option, none, some, List, [], ◌∷◌, Text, text_eq, if◌then◌else◌}
use aegis_phase.Prelude.Result.{Result, ok, err}
use aegis_phase.Prelude.Int.{ℤ}

-- A number that is no integer is kept by its text.
mutual
  pub data Json : Type 0 where
    null : Json
    boolean : Bool → Json
    integer : ℤ → Json
    fraction : Text → Json
    string : Text → Json
    array : Items → Json
    object : Members → Json

  pub data Items : Type 0 where
    nil : Items
    cons : Json → Items → Items

  pub data Members : Type 0 where
    end : Members
    member : Text → Json → Members → Members

-- What `describe` tells apart.
pub data Kind : Type 0 where
  nothing null_kind array_kind object_kind string_kind number_kind boolean_kind : Kind

unfoldable pub describe : Option Json → Kind
describe none = nothing
describe (some null) = null_kind
describe (some (boolean b)) = boolean_kind
describe (some (integer n)) = number_kind
describe (some (fraction n)) = number_kind
describe (some (string s)) = string_kind
describe (some (array items)) = array_kind
describe (some (object members)) = object_kind

-- `o[key]`.
unfoldable pub value_at : Members → Text → Option Json
value_at end key = none
value_at (member name value rest) key = if text_eq name key then some value else value_at rest key

-- `Object.keys`.
unfoldable pub own_keys : Members → List Text
own_keys end = []
own_keys (member name value rest) = name ∷ own_keys rest

-- The string, or what stands in its place.
unfoldable pub as_string : Option Json → Result Kind Text
unfolding describe
as_string (some (string s)) = ok s
as_string other = err (describe other)

-- The integer, or what stands in its place.
unfoldable pub as_integer : Option Json → Result Kind ℤ
unfolding describe
as_integer (some (integer n)) = ok n
as_integer other = err (describe other)
