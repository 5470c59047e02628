-- ===== src/Executor/Settle/Locking.antt =====
-- The lock of a decision around a run.
use aegis_phase.Prelude.{
  ◌≡◌, refl, sym, Bool, true, false, List, [], ◌∷◌, Text, text_eq, any, if◌then◌else◌,
}
use mathlib.Core.Path.{subst}
use aegis_phase.Prelude.Result.{Result, ok, err}
use aegis_phase.Executor.Errors.{
  Thrown, settlement, lock_busy, lock_held, other, died, still_polling,
}
use aegis_phase.Executor.World.{Deps, World}
use aegis_phase.Executor.Lock.{release, is_held, released, with_lock, translate, catch_busy}
use aegis_phase.Executor.Settle.{SettleOptions, is_decision_id, locked, run}

test-release :
    (b : Bool) (key k : Text) (rest : List Text)
    → text_eq k key ≡ b
    → is_held key rest ≡ false
    → is_held key (if b then rest else k ∷ rest) ≡ false
unfolding is_held any
test-release true key k rest e h = h
test-release false key k rest e h = rw e h

is_held-release : (key : Text) (held : List Text) → is_held key (release key held) ≡ false
unfolding release is_held any
is_held-release key [] = refl
is_held-release key (k ∷ held) =
    test-release (text_eq k key) key k (release key held) refl (is_held-release key held)

module _ (d : Deps) {A : Type 0} where
  held-released :
      (key : Text) (r : Result Thrown A) (w : World d)
      → is_held key (released d key (r, w)).1.held ≡ false
  unfolding released is_held any
  held-released key (ok a) w = is_held-release key w.held
  held-released key (err died) w = refl
  held-released key (err (settlement c)) w = is_held-release key w.held
  held-released key (err lock_busy) w = is_held-release key w.held
  held-released key (err other) w = is_held-release key w.held
  held-released key (err still_polling) w = is_held-release key w.held

  state-translate : (r : Result Thrown A) (w : World d) → (translate d (r, w)).1 ≡ w
  unfolding translate
  state-translate (ok a) w = refl
  state-translate (err died) w = refl
  state-translate (err (settlement c)) w = refl
  state-translate (err lock_busy) w = refl
  state-translate (err other) w = refl
  state-translate (err still_polling) w = refl

  locked_out :
      (b : Bool) (key : Text) (m : Result Thrown A × World d) (w : World d)
      → b ≡ true
      → translate d (if b then (err lock_busy, w) else m) ≡ (err (settlement lock_held), w)
  unfolding translate
  locked_out true key m w e = refl
  locked_out false key m w e = cc

  let_in :
      (b : Bool) (key : Text) (x y : Result Thrown A × World d)
      → b ≡ false
      → is_held key y.1.held ≡ false
      → is_held key (translate d (if b then x else y)).1.held ≡ false
  let_in true key x y e h = cc
  let_in false key x y e h =
      subst (λ (w : World d). is_held key w.held ≡ false) (sym (state-translate y.0 y.1)) h

-- A run, for a well-formed id, of a decision that is being settled is refused with LOCK_HELD and
-- changes nothing; any other such run leaves the decision's lock free, whether it returns, throws,
-- or the process ends.
pub run-is_held :
    (d : Deps) (id : Text) (options : SettleOptions) (allow_fresh : Bool) (w : World d)
    → is_decision_id id ≡ true
    → (is_held id w.held ≡ true → run d id options allow_fresh w ≡ (err (settlement lock_held), w))
      × (is_held id w.held ≡ false → is_held id (run d id options allow_fresh w).1.held ≡ false)
unfolding run catch_busy with_lock
run-is_held d id options allow_fresh w e = (
  λ h. rw e (locked_out d (is_held id w.held) id _ w h),
  λ h. rw e (
      let_in d (is_held id w.held) id _ _ h (
        held-released d id (locked d id options allow_fresh (record w { held = id ∷ w.held })).0
          _)),
)
