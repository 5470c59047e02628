-- ===== src/Http.antt =====
-- What a call of `fetch` gives apps/executor/src/horizon.ts and apps/console/src/aegisApi.ts, where it
-- completes: a status, and a body whose JSON may not parse.
use aegis_phase.Prelude.{ℕ, Bool, ◌&&◌, Text, leb}
use aegis_phase.Prelude.Result.{Result}
use aegis_phase.Receipt.Json.{Json}

pub record Response : Type 0 where
  pub status : ℕ
  pub json : Result Text Json

-- `res.ok`.
abbrev pub is_success : ℕ → Bool
is_success status = leb 200 status && leb status 299
