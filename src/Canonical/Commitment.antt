-- ===== src/Canonical/Commitment.antt =====
-- packages/canonical/src/intent.ts and memo.ts: the canonical intent and the two commitments.
-- `sha256` of `node:crypto` and NFC normalisation are parameters.
pub mod Injective
pub mod Binding
use aegis_phase.Prelude.{ℕ, not, [], Text, Bytes, codes, length, ◌==◌}
use aegis_phase.Prelude.Result.{Result, ok, ◌>>=◌, ◌>>◌, throw_if}
use aegis_phase.Prelude.Int.{ℤ, pos, leb_ℤ}
use aegis_phase.Canonical.Amount.{RangeError, range_error}
use aegis_phase.Canonical.Bytes.{Writer, ascii, str8, str16, u32, i128, raw, finish}

abbrev pub intent_domain : Text
intent_domain = codes "AEGIS-INTENT-v1"

abbrev pub decision_domain : Text
decision_domain = codes "AEGIS-DECISION-v1"

pub record Intent : Type 0 where
  pub agent_id : Text
  pub service_id : Text
  pub asset : Text
  pub amount : ℤ
  pub purpose : Text
  pub client_ref : Text

module _ (nfc : Text → Text) where
  -- The writer's methods in the order in which `canonicalIntent` calls them.
  write_intent : Intent → Writer → Result RangeError Writer
  write_intent i w0 = do
    w1 ← ascii intent_domain w0
    w2 ← str8 nfc i.agent_id w1
    w3 ← str8 nfc i.service_id w2
    w4 ← str8 nfc i.asset w3
    w5 ← i128 i.amount w4
    w6 ← str16 nfc i.purpose w5
    str8 nfc i.client_ref w6

  unfoldable pub canonical_intent : Intent → Result RangeError Bytes
  unfolding write_intent
  canonical_intent i = do
    throw_if (leb_ℤ i.amount (pos 0)) range_error
    w ← write_intent i []
    ok (finish w)

need32 : Bytes → Result RangeError (Unit {0})
need32 b = throw_if (not (length b == 32)) range_error

-- `intent_hash || policy_version || decision_id`, as `memoPreimage` of the executor's receipt.ts
-- and `memoHash` both write it.
unfoldable pub memo_preimage : Bytes → ℕ → Bytes → Result RangeError Bytes
memo_preimage intent_hash policy_version decision_id = do
  w1 ← raw intent_hash []
  w2 ← u32 policy_version w1
  w3 ← raw decision_id w2
  ok (finish w3)

unfoldable pub decision_preimage : Bytes → ℕ → Result RangeError Bytes
decision_preimage intent_hash policy_version = do
  w1 ← ascii decision_domain []
  w2 ← raw intent_hash w1
  w3 ← u32 policy_version w2
  ok (finish w3)

module _ (sha256 : Bytes → Bytes) where
  unfoldable pub intent_hash : (Text → Text) → Intent → Result RangeError Bytes
  intent_hash nfc i = do b ← canonical_intent nfc i; ok (sha256 b)

  unfoldable pub memo_hash : Bytes → ℕ → Bytes → Result RangeError Bytes
  unfolding need32
  memo_hash intent policy_version decision = do
    need32 intent
    need32 decision
    pre ← memo_preimage intent policy_version decision
    ok (sha256 pre)

  unfoldable pub decision_id : Bytes → ℕ → Result RangeError Bytes
  unfolding need32
  decision_id intent policy_version = do
    need32 intent
    pre ← decision_preimage intent policy_version
    ok (sha256 pre)
