-- ===== src/Receipt/Tests.antt =====
-- A receipt, its document, documents that are refused, and the theorems at them.
use aegis_phase.Prelude.{
  ◌≡◌, ◌↔◌, refl, true, false, inl, Option, some, none, [], ◌∷◌, ◌++◌, Text, codes, text_eq,
  replicate, take, all, any, filter, if◌then◌else◌, arith,
}
use aegis_phase.Prelude.Split.{split}
use aegis_phase.Prelude.Result.{ok, err, Total}
use aegis_phase.Prelude.Int.{pos}
use aegis_phase.Canonical.Amount.{value_from}
use aegis_phase.Canonical.Bytes.{raw, u32, finish}
use aegis_phase.Canonical.Commitment.{memo_hash, memo_preimage}
use aegis_phase.Receipt.Json.{
  Members, null, object, member, describe, value_at, own_keys, as_string, as_integer,
}
use aegis_phase.Receipt.Validate
use aegis_phase.Receipt.Validate.{
  ◌>>=◌, Issue, unknown_field, expected_object, safe_parse_receipt, validated, object_in,
  object_checked, hex, hex_checked, lowered_hex, strkey, strkey_checked, is_strkey, starts_with,
  address, address_checked, non_empty_string, non_empty_checked, stroops, stroops_checked,
  is_numeral, u32_checked, version_checked, issued_at_checked, asset_checked, asset_parts_checked,
  url, network_checked, chain_checked, settlement_checked,
}
use aegis_phase.Receipt.Valid.{IsReceipt}
use aegis_phase.Receipt.Accepts.{Strict, safe_parse_receipt-IsReceipt}
use aegis_phase.Receipt.RoundTrip.{receipt_json, receipt_members, safe_parse_receipt-receipt_json}
use aegis_phase.Verifier.Sources.{Outage, Receipt, Sources, ChainDecision, CliOptions}
use aegis_phase.Verifier.Types.{pass, from_rpc, from_receipt, from_derived}
use aegis_phase.Verifier.Checks.{
  check_receipt_matches_decision, check_receipt_memo_hash, check_memo_commitment,
  check_receipt_preimage,
}
use aegis_phase.Verifier.Verify.{verify}
use aegis_phase.Verifier.Total.{ReadsSized}
use aegis_phase.Verifier.Receipts.{with_validator, verify-with_validator}
use aegis_phase.Executor.World.{OnChainDecision, Verdict}
use aegis_phase.Executor.Receipt.{ReceiptInputs, build_receipt}
use aegis_phase.Executor.Receipt.Built.{IsInputs, build_receipt-Passes}

-- Only the scheme of a URL is read.
abbrev protocol : Text → Option Text
protocol s = if text_eq (take 6 s) (codes "https:") then some (codes "https:") else none

abbrev account : Text
account = b'G' ∷ replicate 55 b'A'

abbrev contract : Text
contract = b'C' ∷ replicate 55 b'B'

abbrev hash_text : Text
hash_text = replicate 64 b'7'

abbrev sample : Receipt
sample = record {
  network = record {
    passphrase = codes "Test";
    contract_id = contract;
    horizon = codes "https://h";
    rpc = codes "https://r";
  };
  chain = record {
    decision_id = hash_text;
    intent_hash = hash_text;
    policy_version = 3;
    agent = account;
    service_id = codes "svc";
    asset = contract;
    amount = codes "125";
  };
  settlement = record {
    tx_hash = hash_text;
    memo_hash = hash_text;
    memo_preimage = replicate 136 b'7';
    source = account;
    destination = account;
    asset = codes "USDC:" ++ account;
  };
  issued_at = none;
}

-- A test unfolds this name for all that a validation calls.
validator : Unit {0}
unfolding ◌>>=◌ safe_parse_receipt validated object_in object_checked hex hex_checked lowered_hex
    strkey strkey_checked is_strkey starts_with address address_checked non_empty_string
    non_empty_checked stroops stroops_checked is_numeral u32_checked version_checked
    issued_at_checked asset_checked asset_parts_checked url network_checked chain_checked
    settlement_checked Validate.u32 split describe value_at own_keys as_string as_integer text_eq
    all any filter value_from
validator = tt

accepts_sample : safe_parse_receipt protocol (receipt_json sample) ≡ ok sample
unfolding validator
accepts_sample = refl

-- An unknown field is an issue.
refuses_unknown :
    safe_parse_receipt protocol (object (member (codes "memo") null (receipt_members sample)))
    ≡ err ((codes "memo", unknown_field) ∷ [])
unfolding validator
refuses_unknown = refl

-- Upper-case hexadecimal is accepted and returned in lower case.
lowers_case : hex_checked (codes "x") 2 (ok (codes "0AfF")) ≡ (codes "0aff", [])
unfolding hex_checked lowered_hex all
lowers_case = refl

safe_parse_receipt-IsReceipt_example :
    (o : Members) × (receipt_json sample ≡ object o) × IsReceipt protocol sample × Strict o
safe_parse_receipt-IsReceipt_example =
    safe_parse_receipt-IsReceipt protocol (receipt_json sample) sample accepts_sample

safe_parse_receipt-receipt_json_example :
    (safe_parse_receipt protocol (receipt_json sample) ≡ ok sample) ↔ IsReceipt protocol sample
safe_parse_receipt-receipt_json_example = safe_parse_receipt-receipt_json protocol sample

-- Sources that answer nothing but the receipt file.
abbrev silent : Sources
silent = record {
  read_file = λ path. ok (codes "{}");
  parse_receipt_json = λ text. none;
  fetch_transaction = λ base hash. err Outage.outage;
  fetch_operations = λ base hash. err Outage.outage;
  fetch_page = λ address. err Outage.outage;
  connect = λ contract rpc passphrase. err Outage.outage;
  find_registry_path = λ given receipt. none;
  load_registry = λ path. err Outage.outage;
  sha256 = λ b. take 32 b;
  to_base64 = λ b. b;
  from_base64 = λ t. t;
  native_contract = λ passphrase. [];
  asset_contract = λ code issuer passphrase. none;
}

abbrev options : CliOptions
options = record {
  tx = hash_text;
  receipt = codes "receipt.json";
  horizon = none;
  rpc = none;
  contract = none;
  network = none;
  registry = none;
  json = false;
  strict = false;
}

silent-ReadsSized : ReadsSized silent
silent-ReadsSized contract rpc passphrase reader id d c e = cc

verify-with_validator_example :
    Total (verify (with_validator (λ text. some (receipt_json sample)) protocol silent) options)
verify-with_validator_example =
    verify-with_validator (λ text. some (receipt_json sample)) protocol silent options (codes "{}")
      refl silent-ReadsSized

abbrev decided : OnChainDecision
decided = record {
  decision_id = replicate 32 9;
  intent_hash = replicate 32 7;
  agent = account;
  service_id = codes "svc";
  asset = contract;
  amount = pos 125;
  policy_version = 3;
  verdict = Verdict.approved;
  settled = true;
  resolved = false;
  ledger_seq = 900;
}

abbrev inputs : ReceiptInputs
inputs = record {
  decision = decided;
  network_passphrase = codes "Test";
  contract_id = contract;
  horizon_url = codes "https://h";
  rpc_url = codes "https://r";
  tx_hash = hash_text;
  memo_hash = replicate 32 7;
  source = account;
  destination = account;
  asset_code = codes "USDC";
  asset_issuer = account;
  issued_at = none;
}

abbrev on_chain : ChainDecision
on_chain = record {
  decision_id = replicate 32 9;
  intent_hash = replicate 32 7;
  agent = account;
  service_id = codes "svc";
  asset = contract;
  amount = pos 125;
  policy_version = 3;
  verdict = codes "Approved";
  reason_code = [];
  original_reason_code = [];
  ledger_seq = 900;
  resolved = false;
  settled = true;
}

sampled : IsReceipt protocol sample
sampled = (safe_parse_receipt-IsReceipt protocol (receipt_json sample) sample accepts_sample).2

inputs-IsInputs : IsInputs protocol inputs
unfolding text_eq
inputs-IsInputs = record {
  decision_id = (refl, omega arith);
  intent_hash = (refl, omega arith);
  memo_hash = (refl, omega arith);
  policy_version = omega arith;
  stroops = 125;
  amount = refl;
  positive = omega arith;
  agent = inl sampled.settlement.source;
  service_id = λ e. cc;
  sac = sampled.chain.asset;
  passphrase = λ e. cc;
  contract_id = sampled.network.contract_id;
  horizon = sampled.network.horizon;
  rpc = sampled.network.rpc;
  tx_hash = sampled.settlement.tx_hash;
  source = sampled.settlement.source;
  destination = sampled.settlement.source;
  code = (omega arith, omega arith, ground arith);
  issuer = sampled.settlement.source;
}

commits :
    memo_hash silent.sha256 inputs.decision.intent_hash inputs.decision.policy_version
      inputs.decision.decision_id
    ≡ ok inputs.memo_hash
unfolding memo_hash memo_preimage raw u32 finish
commits = refl

build_receipt-Passes_example :
    (r : Receipt) × (build_receipt protocol inputs ≡ ok r)
    × (check_receipt_matches_decision r on_chain
        ≡ pass (codes "rpc.receipt_matches_decision") from_rpc)
    × (check_receipt_memo_hash r inputs.memo_hash ≡ pass (codes "receipt.memo_hash") from_receipt)
    × (check_memo_commitment silent r inputs.memo_hash
        ≡ ok (pass (codes "commitment.memo_matches") from_derived))
    × (check_receipt_preimage silent r inputs.memo_hash
        ≡ ok (pass (codes "receipt.preimage") from_receipt))
build_receipt-Passes_example =
    build_receipt-Passes protocol inputs inputs-IsInputs silent commits on_chain record {
      decision_id = refl;
      intent_hash = refl;
      policy_version = refl;
      agent = refl;
      service_id = refl;
      asset = refl;
      amount = refl;
    }
