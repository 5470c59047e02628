-- ===== src/Verifier/Receipts.antt =====
-- tools/verifier/src/verify.ts with the validation of packages/receipt/src/validate.ts in its place.
use aegis_phase.Prelude.{
  ℕ, zero, suc, ◌≡◌, refl, ap, ◌∙◌, Option, none, some, List, [], ◌∷◌, Text, Bytes, length, arith,
}
use aegis_phase.Prelude.Result.{Result, ok, err, Total}
use aegis_phase.Canonical.Bytes.{from_hex, pair_value}
use aegis_phase.Receipt.Json.{Json}
use aegis_phase.Receipt.Validate.{Issue, parse_receipt_json, parsed_or_issue}
use aegis_phase.Receipt.Valid.{IsHex, IsReceipt}
use aegis_phase.Receipt.Accepts.{safe_parse_receipt-IsReceipt}
use aegis_phase.Verifier.Sources.{Receipt, CliOptions, Sources}
use aegis_phase.Verifier.Verify.{verify, verify_text, verify_parsed}
use aegis_phase.Verifier.Total.{WellFormed, ReadsSized, verify-Total}

-- Hexadecimal text of so many bytes decodes to so many bytes.
from_hex-IsHex : (n : ℕ) (s : Text) → IsHex n s → (b : Bytes) × (from_hex s ≡ ok b) × (length b ≡ n)
unfolding from_hex
from_hex-IsHex zero [] (l, h) = ([], refl, refl)
from_hex-IsHex zero (a ∷ s) (l, h) = absurd (omega arith)
from_hex-IsHex (suc n) [] (l, h) = absurd (omega arith)
from_hex-IsHex (suc n) (a ∷ []) (l, h) = absurd (omega arith)
from_hex-IsHex (suc n) (a ∷ b ∷ s) (l, (h, (k, hs))) =
    let (bytes, e, m) = from_hex-IsHex n s (omega arith, hs) in
    (pair_value a b ∷ bytes, rw e refl, omega arith)

IsReceipt-WellFormed :
    (protocol : Text → Option Text) (r : Receipt) → IsReceipt protocol r → WellFormed r
IsReceipt-WellFormed protocol r h =
    let (intent, ei, li) = from_hex-IsHex 32 _ h.chain.intent_hash in
    let (decision, ed, ld) = from_hex-IsHex 32 _ h.chain.decision_id in
    let (preimage, ep, _) = from_hex-IsHex 68 _ h.settlement.memo_preimage in
    record {
      intent = intent;
      decision = decision;
      preimage = preimage;
      intent_read = ei;
      decision_read = ed;
      preimage_read = ep;
      intent_length = li;
      decision_length = ld;
      version = h.chain.policy_version;
    }

abbrev pub receipt_of : Result (List Issue) Receipt → Option Receipt
receipt_of (ok r) = some r
receipt_of (err issues) = none

module _ (json_parse : Text → Option Json) (protocol : Text → Option Text) where
  -- The sources with the validator of the receipt package.
  abbrev pub with_validator : Sources → Sources
  with_validator s = record s {
    parse_receipt_json = λ text. receipt_of (parse_receipt_json protocol json_parse text);
  }

  parsed_or_issue-WellFormed :
      (o : Option Json) (r : Receipt) → parsed_or_issue protocol o ≡ ok r → WellFormed r
  parsed_or_issue-WellFormed none r h = cc
  parsed_or_issue-WellFormed (some json) r h =
      IsReceipt-WellFormed protocol r (safe_parse_receipt-IsReceipt protocol json r h).2

  module _ (s : Sources) (options : CliOptions) (text : Text) where
    by_outcome :
        (parsed : Result (List Issue) Receipt)
        → parse_receipt_json protocol json_parse text ≡ parsed
        → s.read_file options.receipt ≡ ok text
        → ReadsSized s
        → Total (verify (with_validator s) options)
    unfolding parse_receipt_json
    by_outcome (ok r) e f sized =
        verify-Total (with_validator s) options text r f (ap receipt_of e)
          (parsed_or_issue-WellFormed (json_parse text) r e) sized
    by_outcome (err issues) e f sized =
        unfold verify verify_text verify_parsed in
        (
          _,
          ap (verify_text (with_validator s) options) f
              ∙ ap (verify_parsed (with_validator s) options) (ap receipt_of e),
        )

    -- With the receipt package's own validator, a receipt file that can be read, and a contract
    -- client that returns decisions with a hash of 32 bytes and a 32-bit version, verify returns a
    -- report, whatever the file contains and whatever the other sources answer or fail to answer.
    pub verify-with_validator :
        s.read_file options.receipt ≡ ok text
        → ReadsSized s
        → Total (verify (with_validator s) options)
    verify-with_validator f sized = by_outcome _ refl f sized
