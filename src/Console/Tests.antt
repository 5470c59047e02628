-- ===== src/Console/Tests.antt =====
-- A decision that the contract has under its id, with a stored row, and the theorems of the page at it.
use aegis_phase.Prelude.{
  ◌≡◌, refl, true, false, some, none, [], ◌∷◌, Text, codes, text_eq, replicate, take, any, all,
}
use aegis_phase.Prelude.Result.{ok, err}
use aegis_phase.Prelude.Int.{pos}
use aegis_phase.Canonical.Amount.{trim, span_digits, value_from}
use aegis_phase.Executor.World.{Verdict}
use aegis_phase.Receipt.Json.{null, string, object, member, end, value_at}
use aegis_phase.Gateway.ContractErrors.{chain_unavailable, value}
use aegis_phase.Gateway.Chain.Calls.{Client}
use aegis_phase.Gateway.Chain.Decisions.{Decision, ok_code, normalize_decision}
use aegis_phase.Gateway.Store.{IntentRow}
use aegis_phase.Gateway.Store.Degraded.{degraded_store}
use aegis_phase.Gateway.Server.State.{World, Services}
use aegis_phase.Gateway.Server.Reading.{get_intents}
use aegis_phase.Gateway.Server.Bodies.{decision_body, intent_members, preimage_block}
use aegis_phase.Console.Lookup.{Simulated, found, Via, normalize_ref, lookup}
use aegis_phase.Console.Evidence.{
  Rpc, supported, fetch_evidence, fetch_decision_by_intent, fetch_decision_by_id,
}
use aegis_phase.Console.Evidence.Supported.{IsBacked, fetch_evidence-IsBacked}
use aegis_phase.Console.Display.{fetch_intent_display, display_found}
use aegis_phase.Console.Display.Blank.{sent_as, shown_for, get_intents-Shown}

abbrev hash : Text
hash = codes "0707070707070707070707070707070707070707070707070707070707070707"

abbrev stored : Decision
stored = record {
  decision_id = replicate 32 9;
  intent_hash = replicate 32 7;
  agent = codes "GA";
  service_id = codes "svc";
  asset = codes "CB";
  amount = pos 125;
  policy_version = 3;
  verdict = Verdict.approved;
  reason_code = ok_code;
  original_reason_code = ok_code;
  resolved_policy_version = none;
  ledger_seq = 900;
  resolved = false;
  settled = false;
}

abbrev not_found_tx : Simulated
not_found_tx = record {
  simulation_error = some (codes "HostError: Error(Contract, #6)");
  restore_preamble = false;
  result = ok none;
}

abbrev found_tx : Simulated
found_tx = record { simulation_error = none; restore_preamble = false; result = ok (some stored) }

-- The reference names an intent, and the views that support the decision are down.
abbrev rpc : Rpc
rpc = record {
  decision_by_intent = λ b. ok found_tx;
  get_decision = λ b. ok not_found_tx;
  memo_hash = λ b. err (codes "down");
  get_policy = λ agent. err (codes "down");
  get_window = λ agent. ok none;
  latest_ledger = ok 1000;
}

fetch_evidence-IsBacked_example :
    IsBacked rpc hash Via.decision (fetch_evidence rpc hash Via.decision)
fetch_evidence-IsBacked_example = fetch_evidence-IsBacked rpc hash Via.decision

-- The id names no decision, so that the lookup by intent is the one that finds it.
finds_by_intent :
    fetch_evidence rpc hash Via.decision
    ≡ ok (supported rpc hash (found (normalize_decision stored) Via.intent))
unfolding fetch_evidence fetch_decision_by_intent fetch_decision_by_id lookup any span_digits
    value_from text_eq
finds_by_intent = refl

-- A prefix and capitals are accepted in a reference, another length is not.
normalizes :
    (normalize_ref (codes " 0X0707070707070707070707070707070707070707070707070707070707070707")
      ≡ some hash)
    × (normalize_ref (codes "0707") ≡ none)
unfolding normalize_ref any all trim
normalizes = (refl, refl)

abbrev row : IntentRow
row = record {
  intent_hash = hash;
  agent_id = codes "agent";
  service_id = codes "svc";
  asset = codes "USDC";
  amount = 5000000;
  purpose = codes "test";
  client_ref = codes "1";
  canonical_preimage = codes "00";
  agent_address = codes "GA";
  asset_sac = codes "CB";
  registry_version = 1;
  request_id = codes "r";
}

abbrev client : Client
client = record {
  caller = codes "GC";
  owner = none;
  can_sign = λ address. true;
  authorize = λ caller input. err (chain_unavailable (codes "down") (codes "down"));
  resolve = λ id approve. err (chain_unavailable (codes "down") (codes "down"));
  get_decision = λ id. err (chain_unavailable (codes "down") (codes "down"));
  decision_by_intent = λ b. ok record { simulation_error = none; result = ok (value stored) };
  get_policy = λ agent. err (chain_unavailable (codes "down") (codes "down"));
}

abbrev services : Services
services = record {
  registry = record { registry_version = 1; agents = []; assets = []; services = [] };
  chain = λ n. client;
  nfc = λ s. s;
  sha256 = λ b. take 32 b;
}

abbrev holding : World degraded_store
holding = record {
  store = record { seen = (hash, row) ∷ []; queue = [] };
  calls = [];
  transcript = [];
  clock = 0;
}

get_intents-Shown_example :
    (fetch_intent_display
        (ok (sent_as (λ body. ok null) (get_intents degraded_store services hash holding).0))
      ≡ shown_for (get_intents degraded_store services hash holding).0.status)
    × (value_at
          (decision_body (normalize_decision stored) (preimage_block (some row) true))
          (codes "preimage")
        ≡ some (object (intent_members row)))
    × (value_at (intent_members row) (codes "purpose") ≡ some (string row.purpose))
    × (value_at (intent_members row) (codes "client_ref") ≡ some (string row.client_ref))
get_intents-Shown_example =
    get_intents-Shown (λ body. ok null) degraded_store services hash holding
      (normalize_decision stored) row true

-- The decision is found, and of its row nothing is shown; a body with the fields at the top is shown.
shows :
    ((get_intents degraded_store services hash holding).0.status ≡ 200)
    × (fetch_intent_display (
          ok record {
            status = 200;
            json = ok (object (member (codes "purpose") (string (codes "test")) end));
          })
        ≡ display_found
            record { purpose = some (codes "test"); client_ref = none; settlement_tx_hash = none })
unfolding get_intents fetch_intent_display text_eq all
shows = (refl, refl)
