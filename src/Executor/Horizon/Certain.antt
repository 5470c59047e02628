-- ===== src/Executor/Horizon/Certain.antt =====
-- What the executor concludes of a POST or a read of Horizon (apps/executor/src/horizon.ts).
use aegis_phase.Prelude.{◌≡◌, ◌⊎◌, Bool, true, false, Option, none, some, Text, codes}
use aegis_phase.Prelude.Result.{Result, ok, err, ◌>>=◌}
use aegis_phase.Receipt.Json.{Json, string, object, Members, value_at}
use aegis_phase.Http.{Response, is_success}
use aegis_phase.Executor.Errors.{Thrown}
use aegis_phase.Executor.World.{HorizonTransaction, SubmitOutcome, included, unknown, rejected}
use aegis_phase.Executor.Horizon.{
  Coercions, unavailable, not_found, hash_in, is_timeout, members_or_end,
}

-- A response that came back, with a status of success or without.
abbrev pub Answered : Result Text Response → Bool → (Response → Type 0) → Type 0
Answered fetched success P =
    (res : Response) × (fetched ≡ ok res) × (is_success res.status ≡ success) × P res

-- The object that a body parsed to has this hash.
abbrev pub HasHash : Text → Response → Type 0
HasHash hash res =
    (body : Members) × (res.json ≡ ok (object body))
    × (value_at body (codes "hash") ≡ some (string hash))

module _ (js : Coercions) (fetched : Result Text Response) where
  -- What each outcome of a POST rests on.
  abbrev pub Concludes : SubmitOutcome → Type 0
  Concludes (included hash ledger successful) = Answered fetched true (HasHash hash)
  Concludes rejected =
      Answered fetched false (λ res. is_timeout js res.status (members_or_end res.json) ≡ false)
  Concludes unknown =
      ((message : Text) × (fetched ≡ err message))
      ⊎ (Answered fetched true (λ res. hash_in (members_or_end res.json) ≡ none)
          ⊎ Answered fetched false
              (λ res. is_timeout js res.status (members_or_end res.json) ≡ true))

  -- What each answer to a read rests on.
  abbrev pub Reads : Result Thrown (Option HorizonTransaction) → Type 0
  Reads (err thrown) = thrown ≡ unavailable
  Reads (ok (some t)) = Answered fetched true (HasHash t.hash)
  Reads (ok none) =
      (res : Response) × (fetched ≡ ok res) × ((res.status ≡ 404) ⊎ (res.json ≡ ok not_found))
