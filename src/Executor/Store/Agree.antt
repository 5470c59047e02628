-- ===== src/Executor/Store/Agree.antt =====
-- What a client sees of a store, and the comparison of two stores with the laws of the interface.
use aegis_phase.Prelude.{
  ◌≡◌, refl, sym, ap, ◌∙◌, Option, none, some, List, [], ◌∷◌, Text, text_eq, if◌then◌else◌, All,
  Option-cases, inl, inr, true, false, Bool-cases,
}
use mathlib.Core.Path.{ap₂}
use mathlib.Core.Option.{some-injective}
use aegis_phase.Prelude.Result.{Result, ok, err}
use aegis_phase.Executor.Errors.{Thrown}
use aegis_phase.Executor.Store.{
  SettlementStatus, prepared, is_prepared, Draft, SettlementRecord, SettlementPatch, fresh,
  advanced, replaced, Writes, conflict, SettlementStore,
}
use aegis_phase.Executor.Store.Memory.{MemorySettlementStore}
use aegis_phase.Executor.Store.Sqlite.{SqliteSettlementStore}

-- What a client asks of a store; the first text is the time.
pub data Operation : Type 0 where
  get_op : Text → Operation
  put_op : Text → Draft → Operation
  advance_op : Text → Text → SettlementStatus → SettlementPatch → Operation
  replace_op : Text → Draft → Operation

pub data Answer : Type 0 where
  found : Option SettlementRecord → Answer
  stored : SettlementRecord → Answer
  thrown : Thrown → Answer

-- The drafts that the executor hands to a store have a note and no ledger.
pub record Proper (d : Draft) : Type 0 where
  pub note : Text
  pub has_note : d.note ≡ some note
  pub no_ledger : d.ledger ≡ none

abbrev pub Valid : Operation → Type 0
Valid (put_op now d) = Proper d
Valid (replace_op now d) = Proper d
Valid _ = Unit

module _ (S : SettlementStore) where
  abbrev pub kept : S.State → Result Thrown (SettlementRecord × S.State) → Answer × S.State
  kept s (ok (r, s')) = (stored r, s')
  kept s (err e) = (thrown e, s)

  abbrev pub step : Operation → S.State → Answer × S.State
  step (get_op k) s = (found (S.get k s), s)
  step (put_op now d) s = kept s (S.put_prepared now d s)
  step (advance_op now k status patch) s = kept s (S.advance now k status patch s)
  step (replace_op now d) s = kept s (S.replace_prepared now d s)

  abbrev pub answers : List Operation → S.State → List Answer
  answers [] s = []
  answers (op ∷ ops) s = (step op s).0 ∷ answers ops (step op s).1

status-cases : (t : SettlementStatus) → is_prepared t ≡ true → t ≡ prepared
status-cases prepared h = refl
status-cases SettlementStatus.marked h = cc
status-cases SettlementStatus.submitted h = cc
status-cases SettlementStatus.settled h = cc
status-cases SettlementStatus.abandoned h = cc

module _ (A B : SettlementStore) where
  abbrev pub Agree : A.State → B.State → Type 0
  Agree a b = (k : Text) → A.get k a ≡ B.get k b

  abbrev Alike : Answer × A.State → Answer × B.State → Type 0
  Alike x y = (x.0 ≡ y.0) × Agree x.1 y.1

  Alike-err :
      (a : A.State) (b : B.State) (x : Result Thrown (SettlementRecord × A.State))
      (y : Result Thrown (SettlementRecord × B.State))
      → x ≡ err conflict
      → y ≡ err conflict
      → Agree a b
      → Alike (kept A a x) (kept B b y)
  Alike-err a b x y e f g = rw (e, f) (refl, g)

  Alike-ok :
      (a a' : A.State) (b b' : B.State) (x : Result Thrown (SettlementRecord × A.State))
      (y : Result Thrown (SettlementRecord × B.State)) (k : Text) (r : SettlementRecord)
      → x ≡ ok (r, a')
      → y ≡ ok (r, b')
      → Writes A.get a a' k r
      → Writes B.get b b' k r
      → Agree a b
      → Alike (kept A a x) (kept B b y)
  Alike-ok a a' b b' x y k r e f wa wb g =
      rw (e, f) (refl, λ j. wa j ∙ (ap (λ o. if text_eq j k then some r else o) (g j) ∙ sym (wb j)))

  step_put :
      (now : Text) (d : Draft) (a : A.State) (b : B.State)
      → Proper d
      → Agree a b
      → Alike (step A (put_op now d) a) (step B (put_op now d) b)
  step_put now d a b v g = elim (Option-cases (A.get d.decision_id a)) [
    | inl e ↦
        (let (a', x, wa) = A.put_fresh now d a v.no_ledger e in
          let (b', y, wb) = B.put_fresh now d b v.no_ledger (sym (g _) ∙ e) in
          Alike-ok a a' b b' _ _ d.decision_id (fresh now d) x y wa wb g)
    | inr (r, e) ↦
        Alike-err a b _ _ (A.put_taken now d a r e) (B.put_taken now d b r (sym (g _) ∙ e)) g
  ]

  step_advance :
      (now k : Text) (status : SettlementStatus) (patch : SettlementPatch) (a : A.State)
      (b : B.State)
      → Agree a b
      → Alike (step A (advance_op now k status patch) a) (step B (advance_op now k status patch) b)
  step_advance now k status patch a b g = elim (Option-cases (A.get k a)) [
    | inl e ↦
        Alike-err a b _ _ (A.advance_missing now k status patch a e)
          (B.advance_missing now k status patch b (sym (g _) ∙ e)) g
    | inr (r, e) ↦
        (let (a', x, wa) = A.advance_found now k status patch a r e in
          let (b', y, wb) = B.advance_found now k status patch b r (sym (g _) ∙ e) in
          Alike-ok a a' b b' _ _ k (advanced now status patch r) x y wa wb g)
  ]

  refused :
      (now : Text) (d : Draft) (a : A.State) (b : B.State)
      → ((r : SettlementRecord) → A.get d.decision_id a ≡ some r → is_prepared r.status ≡ false)
      → Agree a b
      → Alike (step A (replace_op now d) a) (step B (replace_op now d) b)
  refused now d a b no_ g =
      Alike-err a b _ _ (A.replace_refused now d a no_)
        (B.replace_refused now d b (λ r e. no_ r (g _ ∙ e))) g

  step_replace :
      (now : Text) (d : Draft) (a : A.State) (b : B.State)
      → Proper d
      → Agree a b
      → Alike (step A (replace_op now d) a) (step B (replace_op now d) b)
  step_replace now d a b v g = elim (Option-cases (A.get d.decision_id a)) [
    | inl e ↦ refused now d a b (λ r f. cc (e, f)) g
    | inr (r, e) ↦ elim (Bool-cases (is_prepared r.status)) [
      | inl p ↦
          (let q = status-cases r.status p in
            let (a', x, wa) = A.replace_found now d a r v.no_ledger v.has_note e q in
            let (b', y, wb) = B.replace_found now d b r v.no_ledger v.has_note (sym (g _) ∙ e) q in
            Alike-ok a a' b b' _ _ d.decision_id (replaced now d r) x y wa wb g)
      | inr p ↦
          refused now d a b
            (λ r' f.
              ap (λ (x : SettlementRecord). is_prepared x.status) (some-injective _ _ (sym f ∙ e))
              ∙ p)
            g
    ]
  ]

  step-Alike :
      (op : Operation) (a : A.State) (b : B.State)
      → Valid op
      → Agree a b
      → Alike (step A op a) (step B op b)
  step-Alike (get_op k) a b v g = (ap found (g k), g)
  step-Alike (put_op now d) a b v g = step_put now d a b v g
  step-Alike (advance_op now k status patch) a b v g = step_advance now k status patch a b g
  step-Alike (replace_op now d) a b v g = step_replace now d a b v g

  answers_alike :
      (ops : List Operation) (a : A.State) (b : B.State)
      → All Valid ops
      → Agree a b
      → answers A ops a ≡ answers B ops b
  answers_alike [] a b v g = refl
  answers_alike (op ∷ ops) a b (v, vs) g =
      let (same, next) = step-Alike op a b v g in
      ap₂ (λ x xs. x ∷ xs) same (answers_alike ops _ _ vs next)

  -- Two stores give the same answers to the same operations, from the empty journal on.
  pub answers-same :
      (ops : List Operation) → All Valid ops → answers A ops A.empty ≡ answers B ops B.empty
  answers-same ops v =
      answers_alike ops A.empty B.empty v (λ k. A.get-empty k ∙ sym (B.get-empty k))

-- The SQLite journal and the in-memory journal give the same answers, records and refusals, to any
-- sequence of operations whose drafts have a note and no ledger.
pub sqlite-memory :
    (ops : List Operation)
    → All Valid ops
    → answers SqliteSettlementStore ops SqliteSettlementStore.empty
      ≡ answers MemorySettlementStore ops MemorySettlementStore.empty
sqlite-memory ops v = answers-same SqliteSettlementStore MemorySettlementStore ops v
