-- ===== src/Executor/Lock.antt =====
-- apps/executor/src/lock.ts: the per-decision mutex of one process.
use aegis_phase.Prelude.{Bool, List, [], ◌∷◌, Text, text_eq, any, if◌then◌else◌}
use aegis_phase.Prelude.Result.{Result, err}
use aegis_phase.Executor.Errors.{Thrown, settlement, lock_busy, lock_held, died}
use aegis_phase.Executor.Exec.{Exec}
use aegis_phase.Executor.World.{Deps, World}

-- `held.delete(key)`.
unfoldable pub release : Text → List Text → List Text
release key [] = []
release key (k ∷ ks) = if text_eq k key then release key ks else k ∷ release key ks

unfoldable pub is_held : Text → List Text → Bool
unfolding any
is_held key held = any (λ k. text_eq k key) held

module _ (d : Deps) {A : Type 0} where
  -- The `finally`; the end of the process ends the map with it.
  unfoldable pub released : Text → Result Thrown A × World d → Result Thrown A × World d
  released key (err died, w) = (err died, record w { held = [] })
  released key (r, w) = (r, record w { held = release key w.held })

  unfoldable pub with_lock : Text → Exec (World d) A → Exec (World d) A
  with_lock key body w =
      if is_held key w.held
      then (err lock_busy, w)
      else released key (body (record w { held = key ∷ w.held }))

  -- `.catch`: a busy lock is a refusal of its own.
  unfoldable pub translate : Result Thrown A × World d → Result Thrown A × World d
  translate (err lock_busy, w) = (err (settlement lock_held), w)
  translate (r, w) = (r, w)

  unfoldable pub catch_busy : Exec (World d) A → Exec (World d) A
  catch_busy m w = translate (m w)
