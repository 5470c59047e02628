-- ===== src/Verifier/ChainFacts.antt =====
-- What the checks of the contract's decision establish when they pass.
use aegis_phase.Prelude.{
  ℕ, ◌≡◌, refl, sym, ap, ◌∙◌, Bool, true, false, Option, none, some, List, [], ◌∷◌, ◌++◌, Text,
  Bytes, codes, text_eq, text_eq_iff, All, if◌then◌else◌,
}
use mathlib.Core.Path.{subst}
use aegis_phase.Prelude.Result.{Result, ok, err, >>=-eq-ok}
use aegis_phase.Canonical.Amount.{to_decimal, to_decimal_ℤ, value_from}
use aegis_phase.Canonical.Amount.Digits.{value-to_decimal}
use aegis_phase.Canonical.Bytes.{to_hex, from_hex}
use aegis_phase.Verifier.Sources.{
  ChainDecision, ChainReader, Receipt, ReceiptChain, Outage, Sources,
}
use aegis_phase.Verifier.Checks.{cmp, mismatches, agreed}
use aegis_phase.Verifier.Verify.{ChainRead, answer, decision_read, chain_of, read_chain}
use aegis_phase.Verifier.Verdict.{Passed, judged-Passed}

-- The receipt's claims are the fields of the decision.
pub record Claims (c : ReceiptChain) (d : ChainDecision) : Type 0 where
  pub decision_id : to_hex d.decision_id ≡ c.decision_id
  pub intent_hash : to_hex d.intent_hash ≡ c.intent_hash
  pub policy_version : d.policy_version ≡ c.policy_version
  pub agent : d.agent ≡ c.agent
  pub service_id : d.service_id ≡ c.service_id
  pub asset : d.asset ≡ c.asset
  pub amount : to_decimal_ℤ d.amount ≡ c.amount

test-nil :
    (b : Bool) (field : Text) (rest : List Text)
    → ((if b then [] else field ∷ []) ++ rest) ≡ []
    → (b ≡ true) × (rest ≡ [])
test-nil true field rest h = (refl, h)
test-nil false field rest h = cc

cmp-nil :
    (field expected actual : Text) (rest : List Text)
    → (cmp field expected actual ++ rest) ≡ []
    → (expected ≡ actual) × (rest ≡ [])
cmp-nil field expected actual rest h =
    let (b, r) = test-nil (text_eq expected actual) field rest h in ((text_eq_iff _ _).0 b, r)

to_decimal-injective : (m n : ℕ) → to_decimal m ≡ to_decimal n → m ≡ n
to_decimal-injective m n e = sym (value-to_decimal m) ∙ (ap (value_from 0) e ∙ value-to_decimal n)

append-nil : {A : Type 0} (xs : List A) → xs ++ [] ≡ xs
append-nil [] = refl
append-nil (x ∷ xs) = ap (λ ys. x ∷ ys) (append-nil xs)

mismatches-nil : (c : ReceiptChain) (d : ChainDecision) → mismatches c d ≡ [] → Claims c d
mismatches-nil c d h =
    let (e0, h0) = cmp-nil (codes "decision_id") (to_hex d.decision_id) c.decision_id _ h in
    let (e1, h1) = cmp-nil (codes "intent_hash") (to_hex d.intent_hash) c.intent_hash _ h0 in
    let (e2, h2) =
      cmp-nil (codes "policy_version") (to_decimal d.policy_version) (to_decimal c.policy_version) _
        h1 in
    let (e3, h3) = cmp-nil (codes "agent") d.agent c.agent _ h2 in
    let (e4, h4) = cmp-nil (codes "service_id") d.service_id c.service_id _ h3 in
    let (e5, h5) = cmp-nil (codes "asset") d.asset c.asset _ h4 in
    let (e6, h6) =
      cmp-nil (codes "amount") (to_decimal_ℤ d.amount) c.amount [] (append-nil _ ∙ h5) in
    record {
      decision_id = e0;
      intent_hash = e1;
      policy_version = to_decimal-injective _ _ e2;
      agent = e3;
      service_id = e4;
      asset = e5;
      amount = e6;
    }

agreed-Passed : (fields : List Text) → Passed (agreed fields) → fields ≡ []
agreed-Passed [] h = refl
agreed-Passed (f ∷ fields) h = cc

module _ (s : Sources) where
  -- What the contract's client says of the last write of the decision's entry; the strict mode asks.
  abbrev pub settled_at : Bool → ChainReader → Bytes → Option ℕ
  settled_at true reader id = answer (reader.decision_entry_last_modified_ledger id)
  settled_at false reader id = none

  pub record ChainFacts (contract rpc passphrase : Text) (receipt : Receipt) (strict : Bool)
      (c : ChainRead) : Type 0 where
    pub id : Bytes
    pub reader : ChainReader
    pub decision : ChainDecision
    pub asked : from_hex receipt.chain.decision_id ≡ ok id
    pub connected : s.connect contract rpc passphrase ≡ ok reader
    pub found : reader.get_decision id ≡ ok (some decision)
    pub approved : decision.verdict ≡ codes "Approved"
    pub settled : decision.settled ≡ true
    pub claims : Claims receipt.chain decision
    pub decision_read : c.decision ≡ some decision
    pub memo_read : c.memo_hash ≡ answer (reader.memo_hash id)
    pub ledger_read : c.settled_ledger ≡ settled_at strict reader id

  module _ (contract rpc passphrase : Text) (receipt : Receipt) (strict : Bool) (id : Bytes)
      (asked : from_hex receipt.chain.decision_id ≡ ok id) where
    by_mode :
        (b : Bool) (reader : ChainReader)
        → (elim b as (λ _. Option ℕ) [
          | true ↦ answer (reader.decision_entry_last_modified_ledger id)
          | false ↦ none
        ])
          ≡ settled_at b reader id
    by_mode true reader = refl
    by_mode false reader = refl

    decision_read-Passed :
        (reader : ChainReader) (r : Result Outage (Option ChainDecision))
        → s.connect contract rpc passphrase ≡ ok reader
        → reader.get_decision id ≡ r
        → All Passed (decision_read s reader receipt id strict r).checks
        → ChainFacts contract rpc passphrase receipt strict
            (decision_read s reader receipt id strict r)
    decision_read-Passed reader (err e) connected found h = cc
    decision_read-Passed reader (ok none) connected found h = cc
    decision_read-Passed reader (ok (some d)) connected found h = record {
      id = id;
      reader = reader;
      decision = d;
      asked = asked;
      connected = connected;
      found = found;
      approved =
          (text_eq_iff _ _).0 (judged-Passed (text_eq d.verdict (codes "Approved")) _ _ refl h.1.0);
      settled = judged-Passed d.settled _ _ refl h.1.1.0;
      claims = mismatches-nil receipt.chain d (agreed-Passed _ h.1.1.1.0);
      decision_read = refl;
      memo_read = refl;
      ledger_read = by_mode strict reader;
    }

    chain_of-Passed :
        (r : Result Outage ChainReader)
        → s.connect contract rpc passphrase ≡ r
        → All Passed (chain_of s receipt strict id r).checks
        → ChainFacts contract rpc passphrase receipt strict (chain_of s receipt strict id r)
    chain_of-Passed (err e) connected h = cc
    chain_of-Passed (ok reader) connected h = decision_read-Passed reader _ connected refl h

  pub read_chain-Passed :
      (contract rpc passphrase : Text) (receipt : Receipt) (strict : Bool) (c : ChainRead)
      → read_chain s contract rpc passphrase receipt strict ≡ ok c
      → All Passed c.checks
      → ChainFacts contract rpc passphrase receipt strict c
  unfolding read_chain
  read_chain-Passed contract rpc passphrase receipt strict c e h =
      let (id, asked, last) = >>=-eq-ok (from_hex receipt.chain.decision_id) _ e in
      let same : chain_of s receipt strict id (s.connect contract rpc passphrase) ≡ c = cc in
      subst (λ r. ChainFacts contract rpc passphrase receipt strict r) same
        (chain_of-Passed contract rpc passphrase receipt strict id asked _ refl
          (subst (λ (r : ChainRead). All Passed r.checks) (sym same) h))
