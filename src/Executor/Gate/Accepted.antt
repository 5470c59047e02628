-- ===== src/Executor/Gate/Accepted.antt =====
-- What a decision that passes the gate is known to be.
use aegis_phase.Prelude.{
  ℕ, ◌≡◌, refl, sym, ap, ◌∙◌, Bool, true, false, not, some, Text, Bytes, text_eq, text_eq_iff,
}
use mathlib.Core.Path.{subst}
use aegis_phase.Prelude.Result.{Result, ok, err, ok-injective}
use aegis_phase.Canonical.Amount.{RangeError}
use aegis_phase.Canonical.Bytes.{to_hex, from_hex}
use aegis_phase.Canonical.Commitment.{memo_hash}
use aegis_phase.Executor.Errors.{
  decision_not_found, not_approved, unknown_service, asset_mismatch, memo_mismatch,
}
use aegis_phase.Executor.Exec.{
  lift, pure, modify, refuse_if, require, >>=-ok, refuse_if-ok, require-ok,
}
use aegis_phase.Executor.World.{
  Verdict, approved, rejected, requires_approval, destination_for, OnChainDecision, Deps, World,
  call, note_event, read_decision,
}
use aegis_phase.Executor.Payment.{assert_payable_amount, derive_sac}
use aegis_phase.Executor.Payment.Prepared.{Payable, assert_payable_amount-Payable}
use aegis_phase.Executor.Gate.{Gated, uncaught, is_approved, read, judge, gate}

approved-eq : (v : Verdict) → is_approved v ≡ true → v ≡ approved
approved-eq approved h = refl
approved-eq rejected h = cc
approved-eq requires_approval h = cc

not-eq-false : (b : Bool) → not b ≡ false → b ≡ true
not-eq-false true h = refl
not-eq-false false h = cc

uncaught-ok : {A : Type 0} (r : Result RangeError A) {a : A} → uncaught r ≡ ok a → r ≡ ok a
uncaught-ok (ok a) h = cc
uncaught-ok (err e) h = cc

module _ (d : Deps) where
  pub record Judged (id : Text) (g : Gated) : Type 0 where
    pub named : to_hex g.decision.decision_id ≡ id
    pub is_approved : g.decision.verdict ≡ approved
    pub payable : Payable g.decision.amount
    pub destination : destination_for d.registry g.decision.service_id ≡ some g.destination
    pub asset :
        derive_sac d.sdk d.registry.asset.code d.registry.asset.issuer d.config.network_passphrase
        ≡ g.decision.asset
    pub committed :
        memo_hash d.sdk.sha256 g.decision.intent_hash g.decision.policy_version
          g.decision.decision_id
        ≡ ok g.memo

  judge-Judged :
      (id : Text) (decision : OnChainDecision) (w : World d) (g : Gated)
      → (judge d id decision w).0 ≡ ok g
      → (g.decision ≡ decision) × Judged id g
  unfolding judge lift pure
  judge-Judged id decision w g h =
      let (_, e0, r0) =
        >>=-ok (refuse_if (not (text_eq (to_hex decision.decision_id) id)) decision_not_found) _ w
          h in
      let (_, e1, r1) =
        >>=-ok (refuse_if (not (is_approved decision.verdict)) not_approved) _ _ r0 in
      let (_, e2, r2) = >>=-ok (lift (assert_payable_amount decision.amount)) _ _ r1 in
      let (destination, e3, r3) =
        >>=-ok (require (destination_for d.registry decision.service_id) unknown_service) _ _ r2 in
      let (_, e4, r4) =
        >>=-ok
          (refuse_if
            (not (
              text_eq
                (derive_sac d.sdk d.registry.asset.code d.registry.asset.issuer
                  d.config.network_passphrase)
                decision.asset))
            asset_mismatch)
          _ _ r3 in
      let (memo, e5, r5) =
        >>=-ok
          (lift (
            uncaught (
              memo_hash d.sdk.sha256 decision.intent_hash decision.policy_version
                decision.decision_id)))
          _ _ r4 in
      let same : ◌≡◌ {A = Gated}
          (record { decision = decision; destination = destination; memo = memo }) g =
        ok-injective r5 in
      (
        sym (ap (λ (x : Gated). x.decision) same),
        subst (Judged id) same (record {
          named = (text_eq_iff _ _).0 (not-eq-false _ (refuse_if-ok _ _ _ e0));
          is_approved = approved-eq _ (not-eq-false _ (refuse_if-ok _ _ _ e1));
          payable = assert_payable_amount-Payable decision.amount e2;
          destination = require-ok _ _ _ e3;
          asset = (text_eq_iff _ _).0 (not-eq-false _ (refuse_if-ok _ _ _ e4));
          committed = uncaught-ok _ e5;
        }),
      )

  -- What the gate has established of a decision.
  pub record Accepted (id : Text) (g : Gated) : Type 0 where
    pub id_bytes : Bytes
    pub id_read : from_hex id ≡ ok id_bytes
    pub asked : ℕ
    pub found : d.chain.get_decision asked id_bytes ≡ ok (some g.decision)
    pub judged : Judged id g
    pub compared : ℕ
    pub agreed : d.chain.memo_hash compared id_bytes ≡ ok g.memo

  read-ok :
      (id : Text) (id_bytes : Bytes) (w : World d) (decision : OnChainDecision)
      → (read d id id_bytes w).0 ≡ ok decision
      → d.chain.get_decision w.tick id_bytes ≡ ok (some decision)
  unfolding read call pure modify
  read-ok id id_bytes w decision h =
      let (found, e0, r0) = >>=-ok (call d (λ n. d.chain.get_decision n id_bytes)) _ w h in
      let (x, e1, r1) = >>=-ok (require found decision_not_found) _ _ r0 in
      let (_, e2, r2) = >>=-ok (modify (note_event d (read_decision id x))) _ _ r1 in
      e0 ∙ ap ok (require-ok _ _ _ e1 ∙ ap some (ok-injective r2))

  -- A decision that passes the gate was read from the contract under the id that was asked for, is
  -- approved, has an amount in stroops above 0 and at most int64, the settlement asset and a
  -- published destination; and its memo is the commitment to its fields, on which the contract's
  -- own view agrees.
  pub gate-Accepted : (id : Text) (w : World d) (g : Gated) → (gate d id w).0 ≡ ok g → Accepted id g
  unfolding gate lift call pure
  gate-Accepted id w g h =
      let (id_bytes, e0, r0) = >>=-ok (lift (uncaught (from_hex id))) _ w h in
      let (decision, e1, r1) = >>=-ok (read d id id_bytes) _ _ r0 in
      let (g', e2, r2) = >>=-ok (judge d id decision) _ _ r1 in
      let (on_chain, e3, r3) = >>=-ok (call d (λ n. d.chain.memo_hash n id_bytes)) _ _ r2 in
      let (_, e4, r4) = >>=-ok (refuse_if (not (text_eq g'.memo on_chain)) memo_mismatch) _ _ r3 in
      let (same, judged) = judge-Judged id decision _ g' e2 in
      subst (Accepted id) (ok-injective r4) (record {
        id_bytes = id_bytes;
        id_read = uncaught-ok _ e0;
        asked = _;
        found = read-ok id id_bytes _ decision e1 ∙ ap (λ x. ok (some x)) (sym same);
        judged = judged;
        compared = _;
        agreed = e3 ∙ ap ok (sym ((text_eq_iff _ _).0 (not-eq-false _ (refuse_if-ok _ _ _ e4))));
      })
