-- ===== src/Verifier/Tests.antt =====
-- The verifier on a small concrete settlement, and the theorems at it.
use aegis_phase.Prelude.{
  ◌≡◌, refl, sym, true, false, some, none, [], ◌∷◌, ◌++◌, Text, Bytes, codes, replicate, take,
  text_eq, find, all, any, All, length, arith,
}
use mathlib.Core.Path.{subst}
use mathlib.Core.Option.{some-injective}
use aegis_phase.Prelude.Result.{Total, Result, ok, err, ok-injective}
use aegis_phase.Prelude.Int.{pos}
use aegis_phase.Canonical.Amount.{parse_amount, to_decimal, to_decimal_ℤ}
use aegis_phase.Canonical.Bytes.{be_bytes, to_hex, from_hex, u32, raw, finish, ascii, encode}
use aegis_phase.Canonical.Bytes.Laws.{IsByte}
use aegis_phase.Canonical.Commitment.{memo_hash, memo_preimage, decision_id, decision_preimage}
use aegis_phase.Verifier.Types.{exit_code_for, verdict_for}
use aegis_phase.Verifier.Sources.{
  HorizonTransaction, HorizonOperation, ChainDecision, ChainReader, Receipt, ServiceRegistry,
  service_of, CliOptions, Sources,
}
use aegis_phase.Verifier.Checks.{
  expected_preimage, check_memo_commitment, check_receipt_preimage, check_decision_id_derivation,
}
use aegis_phase.Verifier.Strict.{IsStrict, verify-IsStrict}
use aegis_phase.Verifier.Total.{WellFormed, Sized, ReadsSized, verify-Total}
use aegis_phase.Verifier.Alone.{OnlyBy, Settlement-OnlyBy}
use aegis_phase.Verifier.Scan.{distinct, scan_for_memo}
use aegis_phase.Verifier.Verify.{
  listed, resolve, VerifyError, VerifyReport, read_chain, commitment_checks, payment_checks,
  strict_checks, replay_check, all_checks, verify_receipt, verify_parsed, verify_text, verify,
}
use aegis_phase.Verifier.Verified.{ReadsBytes, Verified, verify-Verified, Settlement-memo_hash}

abbrev intent : Bytes
intent = replicate 32 7

-- The hash of the demonstration keeps the first bytes.
abbrev sha256 : Bytes → Bytes
sha256 b = take 32 b

abbrev id : Bytes
id = codes "AEGIS-DECISION-v1" ++ replicate 15 7

abbrev tx : HorizonTransaction
tx = record {
  hash = codes "t";
  successful = true;
  ledger = 900;
  created_at = codes "now";
  source_account = codes "GX";
  operation_count = 1;
  memo_type = codes "hash";
  memo = some intent;
}

abbrev payment : HorizonOperation
payment = record {
  kind = codes "payment";
  from = some (codes "GX");
  to = some (codes "GD");
  amount = some (codes "12.5000000");
  asset_type = some (codes "credit_alphanum4");
  asset_code = some (codes "USDC");
  asset_issuer = some (codes "GI");
}

abbrev decision : ChainDecision
decision = record {
  decision_id = id;
  intent_hash = intent;
  agent = codes "G";
  service_id = codes "api";
  asset = codes "SAC";
  amount = pos 125000000;
  policy_version = 1;
  verdict = codes "Approved";
  reason_code = codes "Ok";
  original_reason_code = codes "Ok";
  ledger_seq = 5;
  resolved = false;
  settled = true;
}

abbrev receipt : Receipt
receipt = record {
  network = record {
    passphrase = codes "test";
    contract_id = codes "C";
    horizon = codes "hz/";
    rpc = codes "rpc";
  };
  chain = record {
    decision_id = to_hex id;
    intent_hash = to_hex intent;
    policy_version = 1;
    agent = codes "G";
    service_id = codes "api";
    asset = codes "SAC";
    amount = codes "125000000";
  };
  settlement = record {
    tx_hash = codes "t";
    memo_hash = to_hex intent;
    memo_preimage = to_hex (intent ++ (0 ∷ 0 ∷ 0 ∷ 1 ∷ id));
    source = codes "GX";
    destination = codes "GD";
    asset = codes "USDC:GI";
  };
  issued_at = none;
}

abbrev reader : ChainReader
reader = record {
  get_decision = λ b. ok (some decision);
  memo_hash = λ b. ok (some intent);
  decision_entry_last_modified_ledger = λ b. ok (some 899);
}

abbrev registry : ServiceRegistry
registry = record {
  path = codes "services.json";
  executor = some (codes "GX");
  contract_id = some (codes "C");
  services = (codes "api", codes "GD") ∷ [];
}

abbrev demo : Sources
demo = record {
  read_file = λ p. ok (codes "{}");
  parse_receipt_json = λ t. some receipt;
  fetch_transaction = λ h t. ok (some tx);
  fetch_operations = λ h t. ok (payment ∷ []);
  fetch_page = λ u. ok (some (record { records = tx ∷ []; next = none }));
  connect = λ c r p. ok reader;
  find_registry_path = λ o p. some (codes "services.json");
  load_registry = λ p. ok registry;
  sha256 = sha256;
  to_base64 = λ b. b;
  from_base64 = λ t. t;
  native_contract = λ p. codes "XLM";
  asset_contract = λ c i p. some (codes "SAC");
}

abbrev options : CliOptions
options = record {
  tx = codes "t";
  receipt = codes "r.json";
  horizon = none;
  rpc = none;
  contract = none;
  network = none;
  registry = none;
  json = false;
  strict = true;
}

-- A test unfolds this name for all that a run calls.
verifier : Unit {0}
unfolding be_bytes verify verify_text verify_parsed verify_receipt all_checks replay_check
    strict_checks payment_checks commitment_checks read_chain scan_for_memo
    check_decision_id_derivation check_receipt_preimage check_memo_commitment expected_preimage
    service_of exit_code_for verdict_for memo_hash memo_preimage decision_id decision_preimage u32
    raw finish ascii encode to_hex from_hex parse_amount to_decimal to_decimal_ℤ text_eq find all
    any
verifier = tt

abbrev blank : VerifyReport
blank = record {
  tx = [];
  receipt_path = [];
  strict = false;
  resolved = record {
    horizon = [];
    rpc = [];
    contract = [];
    network_passphrase = [];
    registry = none;
  };
  checks = [];
  verdict = [];
  exit_code = 3;
}

abbrev report_of : Result VerifyError VerifyReport → VerifyReport
report_of (ok r) = r
report_of (err e) = blank

abbrev result : VerifyReport
result = report_of (verify demo options)

verdict : (result.verdict ≡ codes "VERIFIED") × (length result.checks ≡ 21)
unfolding verifier
verdict = (refl, refl)

verify-Verified_example :
    (text : Text) × (r : Receipt) × (demo.read_file options.receipt ≡ ok text)
    × (demo.parse_receipt_json text ≡ some r)
    × Verified demo options r
unfolding verifier
verify-Verified_example = verify-Verified demo options result refl refl

reads_lem :
    (r : ChainReader) (k : Bytes) (d : ChainDecision)
    → demo.connect [] [] [] ≡ ok r
    → r.get_decision k ≡ ok (some d)
    → decision ≡ d
reads_lem r k d c f = some-injective _ _ (
    ok-injective
      (subst (λ (q : ChainReader). q.get_decision k ≡ ok (some d)) (sym (ok-injective c)) f))

reads : ReadsBytes demo
reads contract rpc passphrase r k d c f =
    subst (λ (q : ChainDecision). All IsByte q.intent_hash × All IsByte q.decision_id)
      (reads_lem r k d c f) (omega arith, omega arith)

abbrev checked : Receipt
checked = verify-Verified_example.1

abbrev verified : Verified demo options checked
verified = verify-Verified_example.4

Settlement-memo_hash_example :
    memo_hash sha256 verified.3.on_chain.decision.intent_hash
      verified.3.on_chain.decision.policy_version verified.3.on_chain.decision.decision_id
    ≡ ok verified.3.on_ledger.memo
Settlement-memo_hash_example =
    Settlement-memo_hash demo options checked _ verified.1 verified.0 verified.3 reads

Settlement-OnlyBy_example :
    (verified.3.scan.accounts
      ≡ distinct [] (
          verified.3.on_ledger.tx.source_account
          ∷ (listed verified.3.on_ledger.payment.to
              ++ (listed (service_of verified.0 verified.3.on_chain.decision.service_id)
                  ++ listed verified.0.executor))))
    × All
        (OnlyBy demo
          (demo.to_base64 verified.3.on_ledger.memo)
          (resolve demo options checked (some verified.0)).horizon
          options.tx)
        verified.3.scan.accounts
Settlement-OnlyBy_example =
    Settlement-OnlyBy demo options checked _ verified.1 verified.0 verified.3

verify-IsStrict_example :
    (text : Text) × (r : Receipt) × (demo.read_file options.receipt ≡ ok text)
    × (demo.parse_receipt_json text ≡ some r)
    × ((facts : Verified demo options r) × IsStrict demo facts.3)
unfolding verifier
verify-IsStrict_example = verify-IsStrict demo options result refl refl refl

receipt-WellFormed : WellFormed receipt
unfolding verifier
receipt-WellFormed = record {
  intent = intent;
  decision = id;
  preimage = intent ++ (0 ∷ 0 ∷ 0 ∷ 1 ∷ id);
  intent_read = refl;
  decision_read = refl;
  preimage_read = refl;
  intent_length = refl;
  decision_length = refl;
  version = omega arith;
}

reads_sized : ReadsSized demo
reads_sized contract rpc passphrase r k d c f =
    subst Sized (reads_lem r k d c f) (refl, omega arith)

verify-Total_example : Total (verify demo options)
verify-Total_example =
    verify-Total demo options (codes "{}") receipt refl refl receipt-WellFormed reads_sized
