-- ===== src/Executor/Store/Rows.antt =====
-- Finding and updating the row of a key in a list of rows: what a `Map` and a table with a primary
-- key share.
use aegis_phase.Prelude.{
  ◌≡◌, refl, true, false, Option-cases, inl, inr, Bool, Option, none, some, List, [], ◌∷◌, Text,
  text_eq, text_eq_iff, if◌then◌else◌, arith,
}

module _ {R : Type 0} (key : R → Text) where
  unfoldable pub find_row : Text → List R → Option R
  find_row k [] = none
  find_row k (r ∷ rs) = if text_eq (key r) k then some r else find_row k rs

  -- `Map.prototype.set`: in place if the key is there, else at the end.
  unfoldable pub set_row : R → List R → List R
  set_row r [] = r ∷ []
  set_row r (x ∷ xs) = if text_eq (key x) (key r) then r ∷ xs else x ∷ set_row r xs

  -- `UPDATE … WHERE decision_id = k AND test`: the key is primary, so at most one row is changed;
  -- `none` says that `changes` is 0.
  unfoldable pub update_row : Text → (R → Bool) → (R → R) → List R → Option (List R)
  update_row k test f rs = elim (find_row k rs) [
    | none ↦ none
    | some r ↦ if test r then some (set_row (f r) rs) else none
  ]

  pub key-find_row : (k : Text) (rs : List R) {r : R} → find_row k rs ≡ some r → key r ≡ k
  unfolding find_row
  key-find_row k [] h = cc
  key-find_row k (x ∷ xs) {r} h =
      ground (arith, text_eq_iff (key x) k, λ (e : find_row k xs ≡ some r). key-find_row k xs e)

  pub find_row-set_row :
      (k : Text) (r : R) (rs : List R)
      → find_row k (set_row r rs) ≡ (if text_eq k (key r) then some r else find_row k rs)
  unfolding find_row set_row
  find_row-set_row k r [] = ground (arith, text_eq_iff (key r) k, text_eq_iff k (key r))
  find_row-set_row k r (x ∷ xs) = ground (
    arith,
    text_eq_iff (key r) k,
    text_eq_iff k (key r),
    text_eq_iff (key x) k,
    text_eq_iff (key x) (key r),
    find_row-set_row k r xs,
  )

  pub update_row-eq-some :
      (k : Text) (test : R → Bool) (f : R → R) (rs : List R) {r : R}
      → find_row k rs ≡ some r
      → test r ≡ true
      → update_row k test f rs ≡ some (set_row (f r) rs)
  unfolding update_row
  update_row-eq-some k test f rs h e = rw (h, update_row) (rw e refl)

  pub update_row-eq-none :
      (k : Text) (test : R → Bool) (f : R → R) (rs : List R)
      → ((r : R) → find_row k rs ≡ some r → test r ≡ false)
      → update_row k test f rs ≡ none
  unfolding update_row
  update_row-eq-none k test f rs h = elim (Option-cases (find_row k rs)) [
    | inl e ↦ rw (e, update_row) refl
    | inr (r, e) ↦ rw (e, update_row) (rw (h r e) refl)
  ]
