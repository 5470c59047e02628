-- ===== src/Executor/Horizon.antt =====
-- `horizonClient` of apps/executor/src/horizon.ts, of what its calls of `fetch` give. What `Number`,
-- `String` and `Date.parse` make of a value that is of no type they expect are parameters.
pub mod Certain
use aegis_phase.Prelude.{
  ℕ, Bool, true, false, not, ◌&&◌, ◌||◌, Option, none, some, Text, codes, text_eq, if◌then◌else◌,
  ◌==◌, ◌/◌, [],
}
use aegis_phase.Prelude.Result.{Result, ok, err, ◌>>=◌}
use aegis_phase.Prelude.Int.{ℤ, pos}
use aegis_phase.Receipt.Json.{
  Json, null, boolean, integer, string, array, object, Members, end, value_at,
}
use aegis_phase.Http.{Response, is_success}
use aegis_phase.Gateway.Paths.{contains}
use aegis_phase.Executor.Errors.{Thrown, settlement, source_unavailable}
use aegis_phase.Executor.World.{HorizonTransaction, SubmitOutcome, included, unknown, rejected}

pub record Coercions : Type 0 where
  pub number : Option Json → ℕ
  pub text : Json → Text
  pub milliseconds : Text → Option ℕ

abbrev pub unavailable : Thrown
unavailable = settlement source_unavailable

abbrev pub not_found : Json
not_found = string (codes "not-found")

-- `body === "not-found"`.
abbrev pub is_not_found : Json → Bool
is_not_found (string s) = text_eq s (codes "not-found")
is_not_found other = false

abbrev pub body_of : Result Text Json → Result Thrown Json
body_of (ok body) = ok body
body_of (err message) = err unavailable

-- `getJson`.
unfoldable pub get_json : Result Text Response → Result Thrown Json
get_json (err message) = err unavailable
get_json (ok res) =
    if res.status == 404
    then ok not_found
    else if not (is_success res.status)
    then err unavailable
    else body_of res.json

-- The members of a body, where it is an object: of any other value a property is `undefined`.
abbrev pub members_of : Json → Members
members_of (object members) = members
members_of other = end

abbrev pub is_true : Option Json → Bool
is_true (some (boolean b)) = b
is_true other = false

abbrev pub string_or_none : Option Json → Option Text
string_or_none (some (string s)) = some s
string_or_none other = none

abbrev pub hash_in : Members → Option Text
hash_in body = string_or_none (value_at body (codes "hash"))

-- A body that does not parse has no member.
abbrev pub members_or_end : Result Text Json → Members
members_or_end (ok body) = members_of body
members_or_end (err message) = end

module _ (js : Coercions) where
  -- `Number`.
  abbrev pub number_of : Option Json → ℕ
  number_of (some (integer (pos n))) = n
  number_of other = js.number other

  -- `Number(v ?? 0)`.
  abbrev pub number_or_zero : Option Json → ℕ
  number_or_zero none = 0
  number_or_zero (some null) = 0
  number_or_zero (some value) = number_of (some value)

  -- `String(v ?? "")`.
  abbrev pub text_of : Option Json → Text
  text_of none = []
  text_of (some null) = []
  text_of (some (string s)) = s
  text_of (some value) = js.text value

  abbrev pub transaction_in : Members → Option Text → Result Thrown (Option HorizonTransaction)
  transaction_in body none = err unavailable
  transaction_in body (some hash) = ok (
      some record {
        hash = hash;
        ledger = number_of (value_at body (codes "ledger"));
        successful = is_true (value_at body (codes "successful"));
      })

  -- `transaction`; `none` is "not-found".
  unfoldable pub transaction : Result Text Response → Result Thrown (Option HorizonTransaction)
  unfolding get_json
  transaction fetched = do
    body ← get_json fetched
    if is_not_found body
        then ok none
        else transaction_in (members_of body) (hash_in (members_of body))

  abbrev pub included_in : Members → Option Text → SubmitOutcome
  included_in body none = unknown
  included_in body (some hash) =
      included hash (number_or_zero (value_at body (codes "ledger")))
        (is_true (value_at body (codes "successful")))

  abbrev pub is_timeout : ℕ → Members → Bool
  is_timeout status problem =
      status == 504 || contains (codes "timeout") (text_of (value_at problem (codes "type")))

  -- `submit`.
  unfoldable pub submit : Result Text Response → SubmitOutcome
  unfolding contains
  submit (err message) = unknown
  submit (ok res) =
      let body = members_or_end res.json in
      if is_success res.status
      then included_in body (hash_in body)
      else if is_timeout res.status body
      then unknown
      else rejected

  abbrev pub seconds_of : Option ℕ → Result Thrown ℕ
  seconds_of none = err unavailable
  seconds_of (some milliseconds) = ok (milliseconds / 1000)

  abbrev pub closed_at : Option Json → Result Thrown ℕ
  closed_at (some (string s)) = seconds_of (js.milliseconds s)
  closed_at other = err unavailable

  -- `latestLedgerCloseTime`.
  unfoldable pub latest_ledger_close_time : Result Text Response → Result Thrown ℕ
  unfolding get_json
  latest_ledger_close_time fetched = do
    body ← get_json fetched
    if is_not_found body
        then err unavailable
        else closed_at (value_at (members_of body) (codes "history_latest_ledger_closed_at"))
