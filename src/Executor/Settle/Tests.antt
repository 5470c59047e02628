-- ===== src/Executor/Settle/Tests.antt =====
-- A settlement on a small concrete environment, and the theorems at it.
use aegis_phase.Prelude.{
  ◌≡◌, refl, true, false, none, some, List, [], ◌∷◌, Text, Bytes, codes, replicate, take, drop, map,
  text_eq, find, all, any, filter,
}
use mathlib.Core.List.{Memᴰ}
use aegis_phase.Prelude.Result.{ok, err}
use aegis_phase.Prelude.Int.{pos}
use aegis_phase.Canonical.Amount.{parse_amount, format_amount, to_decimal, to_decimal_ℤ}
use aegis_phase.Canonical.Bytes.{to_hex, from_hex, u32, raw, finish}
use aegis_phase.Canonical.Commitment.{memo_hash, memo_preimage}
use aegis_phase.Executor.Exec.{pure, raise, lift, gets, modify, ◌>>=◌}
use aegis_phase.Executor.Store.Memory.{MemorySettlementStore}
use aegis_phase.Executor.Store.Memory
use aegis_phase.Executor.Store.Rows.{find_row, set_row}
use aegis_phase.Executor.World.{
  approved, OnChainDecision, HorizonAccount, included, Deps, Event, posted, mark_called,
  mark_confirmed, read_decision, committed, moved, healthy, call, write, landed, on_disk, trustline,
  destination_for,
}
use aegis_phase.Executor.Payment.{
  PreparedPayment, assert_payable_amount, derive_sac, prepare_payment,
}
use aegis_phase.Executor.Lock.{with_lock, catch_busy, released, translate, is_held, release}
use aegis_phase.Executor.Errors.{settlement, inclusion_unknown, lock_held}
use aegis_phase.Receipt.Json.{value_at, as_integer, as_string, own_keys, describe}
use aegis_phase.Receipt.Validate
use aegis_phase.Canonical.Amount.{value_from}
use aegis_phase.Prelude.Split.{onto_first, split}
use aegis_phase.Gateway.Chain.Decisions.{Decision, ok_code}
use aegis_phase.Executor.Chain.{View, Contract, connect}
use aegis_phase.Executor.Registry.{load_registry, add_services}
use aegis_phase.Executor.Gate.Published.{Backed, gate-Backed}
use aegis_phase.Executor.Tests
use aegis_phase.Executor.Gate.Accepted.{Accepted, gate-Accepted}
use aegis_phase.Executor.Payment.Prepared.{Pays, prepare_payment-Pays}
use aegis_phase.Executor.Settle.Polling.{Answers, Ends, await_inclusion-Ends}
use aegis_phase.Executor.Settle.Locking.{run-is_held}
use aegis_phase.Executor.Gate.{
  Gated, gate, read, judge, funded, covers_fee, preflight, choose_max_time,
  assert_config_agrees_with_registry,
}
use aegis_phase.Executor.Settle.{
  SettleOptions, receipt_for, result, is_decision_id, advance, draft_of, commit, prepare, on_ledger,
  sleep, wait, absent, poll_absent, poll, await_rounds, await_inclusion, post, after_post,
  submit_and_confirm, mark, mark_and_submit, catch_up, refresh, proceed, repost, resume_in, resume,
  begin, start, choose, locked, run, settle, recover,
}
use aegis_phase.Executor.Store.{submitted, SettlementRecord, is_prepared}
use aegis_phase.Executor.Settle.Invariant.{read_approved, shows_settled, commits, commits_some}
use aegis_phase.Executor.Settle.Runs.{
  Request, settle_request, recover_request, serve_one, serve, initial,
}
use aegis_phase.Executor.Settle.Safety.{one_envelope, post_preceded, mark_preceded, posted_recorded}

-- A test unfolds this name for all that a run calls.
executor : Unit {0}
unfolding serve serve_one settle recover run locked choose start begin resume resume_in repost
    proceed refresh catch_up mark_and_submit mark submit_and_confirm after_post post await_inclusion
    await_rounds poll poll_absent absent wait sleep on_ledger prepare commit draft_of advance
    is_decision_id receipt_for result assert_config_agrees_with_registry choose_max_time preflight
    covers_fee funded judge read gate with_lock catch_busy released translate is_held release
    assert_payable_amount derive_sac prepare_payment call write landed on_disk trustline
    destination_for find_row set_row Memory.get Memory.put_prepared Memory.advance
    Memory.replace_prepared pure raise lift gets modify ◌>>=◌ memo_hash memo_preimage u32 raw finish
    to_hex from_hex parse_amount format_amount to_decimal to_decimal_ℤ text_eq find all any
    value_from onto_first split as_integer as_string own_keys filter describe value_at
    Validate.validated Validate.◌>>=◌ Validate.version_checked Validate.address
    Validate.address_checked Validate.asset_checked Validate.asset_parts_checked
    Validate.chain_checked Validate.hex Validate.hex_checked Validate.is_numeral Validate.is_strkey
    Validate.issued_at_checked Validate.lowered_hex Validate.network_checked
    Validate.non_empty_checked Validate.non_empty_string Validate.object_checked Validate.object_in
    Validate.settlement_checked Validate.starts_with Validate.strkey Validate.strkey_checked
    Validate.stroops Validate.stroops_checked Validate.u32 Validate.u32_checked Validate.url
executor = tt

abbrev id_bytes : Bytes
id_bytes = replicate 32 0xab

abbrev id : Text
id = to_hex id_bytes

abbrev decision : OnChainDecision
decision = record {
  decision_id = id_bytes;
  intent_hash = replicate 32 7;
  agent = codes "G";
  service_id = codes "api";
  asset = codes "SAC";
  amount = pos 125000000;
  policy_version = 1;
  verdict = approved;
  settled = false;
  resolved = false;
  ledger_seq = 5;
}

abbrev sha256 : Bytes → Bytes
sha256 b = take 32 b

abbrev account : HorizonAccount
account = record {
  id = codes "GX";
  sequence = codes "41";
  balances =
      record {
        balance = codes "100.5";
        asset_type = codes "credit_alphanum4";
        asset_code = some (codes "USDC");
        asset_issuer = some (codes "GI");
        is_authorized = none;
      }
      ∷ [];
}

abbrev demo : Deps
demo = record {
  config = record {
    network_passphrase = codes "test";
    rpc_url = codes "rpc";
    horizon_url = codes "hz";
    contract_id = codes "C";
    executor = codes "GX";
    timeout_seconds = 180;
  };
  registry = record {
    network_passphrase = codes "test";
    contract_id = codes "C";
    executor_account = codes "GX";
    asset = record { code = codes "USDC"; issuer = codes "GI"; sac = codes "SAC" };
    destinations = (codes "api", codes "GD") ∷ [];
  };
  chain = record {
    get_decision = λ n b. ok (some decision);
    memo_hash = λ n b. ok (replicate 32 7);
    mark_settled = λ n b. ok 900;
  };
  store = MemorySettlementStore;
  horizon = record {
    account = λ n a. ok (some account);
    transaction = λ n h. ok none;
    submit = λ n e. ok (included (codes "hash") 901 true);
    latest_ledger_close_time = λ n. ok 1000;
  };
  sdk = record {
    contract_of = λ code issuer pass. codes "SAC";
    hash_of = λ t. codes "hash";
    envelope_of = λ t. t.amount;
    sequence_of = λ t. codes "42";
    sha256 = sha256;
  };
  disk = λ n. healthy;
  elapsed = λ n. 10;
  iso = λ t. [];
  protocol = λ url. none;
}

abbrev wet : SettleOptions
wet = record { dry_run = false; confirm_timeout_ms = 4000 }

abbrev twice : List Request
twice = settle_request id wet ∷ recover_request id wet ∷ []

abbrev kind : Event → Text
kind (read_decision _ _) = codes "r"
kind (committed _) = codes "c"
kind (moved _) = codes "m"
kind (mark_called _) = codes "k"
kind (mark_confirmed _) = codes "K"
kind (posted _ e) = e

abbrev kinds : List Event → List Text
kinds [] = []
kinds (e ∷ es) = kind e ∷ kinds es

-- The first request pays; the second meets a record that is settled and a contract that does not say
-- so, and posts the stored bytes again.
events :
    kinds (serve demo twice (initial demo)).log
    ≡ map codes ("m" ∷ "12.5" ∷ "m" ∷ "r" ∷ "m" ∷ "12.5" ∷ "m" ∷ "m" ∷ "K" ∷ "k" ∷ "c" ∷ "r" ∷ [])
unfolding executor
events = refl

abbrev log : List Event
log = (serve demo twice (initial demo)).log

one_envelope_example : ◌≡◌ {A = Text} (codes "12.5") (codes "12.5")
unfolding executor
one_envelope_example =
    one_envelope demo twice id (codes "12.5") (codes "12.5") (Memᴰ.tail (Memᴰ.head refl))
      (Memᴰ.tail (Memᴰ.head refl))

post_preceded_example :
    (any (read_approved id) (drop 2 log) ≡ true)
    × (any (shows_settled id) (drop 2 log) ≡ true)
    × (any (commits id (codes "12.5")) (drop 2 log) ≡ true)
unfolding executor
post_preceded_example = post_preceded demo twice (take 1 log) (drop 2 log) id (codes "12.5") refl

mark_preceded_example :
    (any (read_approved id) (drop 10 log) ≡ true) × (any (commits_some id) (drop 10 log) ≡ true)
unfolding executor
mark_preceded_example = mark_preceded demo twice (take 9 log) (drop 10 log) id refl

posted_recorded_example :
    (r : SettlementRecord) × (demo.store.get id (serve demo twice (initial demo)).journal ≡ some r)
    × (is_prepared r.status ≡ false)
    × (r.envelope_xdr ≡ codes "12.5")
unfolding executor
posted_recorded_example = posted_recorded demo twice id (codes "12.5") (Memᴰ.tail (Memᴰ.head refl))

abbrev gated : Gated
gated = record { decision = decision; destination = codes "GD"; memo = replicate 32 7 }

gate-Accepted_example : Accepted demo id gated
unfolding executor
gate-Accepted_example = gate-Accepted demo id (initial demo) gated refl

abbrev view : View Decision
view = record {
  raw_error = [];
  result = ok record {
    decision_id = id_bytes;
    intent_hash = replicate 32 7;
    agent = codes "G";
    service_id = codes "api";
    asset = codes "SAC";
    amount = pos 125000000;
    policy_version = 1;
    verdict = approved;
    reason_code = ok_code;
    original_reason_code = ok_code;
    resolved_policy_version = none;
    ledger_seq = 5;
    resolved = false;
    settled = false;
  };
}

abbrev approving : Contract
approving = record {
  get_decision = λ n b. ok view;
  memo_hash = λ n b. ok record { raw_error = []; result = ok (replicate 32 7) };
  mark_settled = λ n b. err (codes "down");
}

-- The same environment with the contract's client and the loaded registry.
abbrev connected : Deps
connected = record demo { registry = Tests.loaded; chain = connect approving }

abbrev gated_payee : Gated
gated_payee = record { decision = decision; destination = Tests.account; memo = replicate 32 7 }

gate-Backed_example : Backed approving (ok Tests.file) id gated_payee
unfolding executor connect load_registry value_at add_services
gate-Backed_example =
    gate-Backed connected approving (ok Tests.file) refl refl id (initial connected) gated_payee
      refl

abbrev payment : PreparedPayment
payment = record {
  tx_hash = codes "hash";
  envelope_xdr = codes "12.5";
  source = codes "GX";
  sequence = codes "42";
  max_time = 1180;
  destination = codes "GD";
  amount_stroops = pos 125000000;
  amount_decimal = codes "12.5";
  memo_hash = replicate 32 7;
}

prepare_payment-Pays_example :
    Pays demo.sdk demo.config demo.registry.asset
      (codes "41")
      (codes "GD")
      (pos 125000000)
      (replicate 32 7)
      1180
      payment
unfolding executor
prepare_payment-Pays_example =
    prepare_payment-Pays demo.sdk demo.config demo.registry.asset (codes "41") (codes "GD")
      (pos 125000000) (replicate 32 7) 1180 payment refl

demo_answers : Answers demo
demo_answers = record { transaction = λ n h q. cc; ledger = λ n q. cc }

abbrev row : SettlementRecord
row = record {
  draft = record {
    decision_id = id;
    tx_hash = codes "hash";
    envelope_xdr = codes "12.5";
    source = codes "GX";
    sequence = codes "42";
    max_time = 1180;
    ledger = none;
    note = none;
  };
  status = submitted;
  created_at = [];
  updated_at = [];
}

await_inclusion-Ends_example : Ends (await_inclusion demo row gated 4000 none (initial demo)).0
await_inclusion-Ends_example =
    await_inclusion-Ends demo demo_answers row gated 4000 none (initial demo)

-- The example's environment never reports the transaction: the deadline ends the polling.
deadline :
    (await_inclusion demo row gated 4000 none (initial demo)).0 ≡ err (settlement inclusion_unknown)
unfolding executor
deadline = refl

run-is_held_example :
    (is_held id (initial demo).held ≡ true
      → run demo id wet true (initial demo) ≡ (err (settlement lock_held), initial demo))
    × (is_held id (initial demo).held ≡ false
        → is_held id (run demo id wet true (initial demo)).1.held ≡ false)
unfolding executor
run-is_held_example = run-is_held demo id wet true (initial demo) refl
