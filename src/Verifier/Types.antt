-- ===== src/Verifier/Types.antt =====
-- tools/verifier/src/types.ts: the result of a check, the exit code and the verdict. The texts of a
-- check (title, detail, expected, actual) are left out.
use aegis_phase.Prelude.{ℕ, Bool, true, false, List, Text, codes, any, if◌then◌else◌, ◌==◌}

pub data CheckSource : Type 0 where
  from_receipt from_horizon from_rpc from_derived from_registry : CheckSource

pub data CheckStatus : Type 0 where
  status_pass status_fail status_unavailable : CheckStatus

pub record Check : Type 0 where
  pub id : Text
  pub source : CheckSource
  pub status : CheckStatus

abbrev pub pass : Text → CheckSource → Check
pass id source = record { id = id; source = source; status = status_pass }

abbrev pub fail : Text → CheckSource → Check
fail id source = record { id = id; source = source; status = status_fail }

abbrev pub unavailable : Text → CheckSource → Check
unavailable id source = record { id = id; source = source; status = status_unavailable }

-- `EXIT`.
abbrev pub exit_verified : ℕ
exit_verified = 0

abbrev pub exit_failed : ℕ
exit_failed = 1

abbrev pub exit_usage : ℕ
exit_usage = 2

abbrev pub exit_unavailable : ℕ
exit_unavailable = 3

abbrev pub is_fail : Check → Bool
is_fail c = elim c.status [ status_fail ↦ true | _ ↦ false ]

abbrev pub is_unavailable : Check → Bool
is_unavailable c = elim c.status [ status_unavailable ↦ true | _ ↦ false ]

-- `exitCodeFor`: a mismatch outranks a check that could not be made.
unfoldable pub exit_code_for : List Check → ℕ
unfolding any
exit_code_for checks =
    if any is_fail checks
    then exit_failed
    else (if any is_unavailable checks then exit_unavailable else exit_verified)

unfoldable pub verdict_for : ℕ → Text
verdict_for code =
    if code == exit_verified
    then codes "VERIFIED"
    else (if code == exit_failed then codes "FAILED" else codes "UNAVAILABLE")
