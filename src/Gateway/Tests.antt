-- ===== src/Gateway/Tests.antt =====
-- A gateway with one agent and one asset, a transaction that is sent, and the theorems at them.
use aegis_phase.Prelude.{
  ◌^◌, ◌||◌, ℕ, ◌≡◌, ◌↔◌, ◌⊎◌, refl, true, false, some, none, [], ◌∷◌, ◌++◌, Text, Bytes, codes,
  text_eq, replicate, take, all, any, find, length, ◌<◌,
}
use aegis_phase.Prelude.Result.{ok, err, Total}
use aegis_phase.Prelude.Int.{pos}
use aegis_phase.Canonical.Amount.{value_from, trim, drop_while, parse_amount, span_digits}
use aegis_phase.Canonical.Bytes.{ascii, str8, i128, str16, encode, to_hex}
use aegis_phase.Receipt.Json.{Json, object, string, member, value_at, end}
use aegis_phase.Executor.World.{Verdict}
use aegis_phase.Gateway.Paths.{FileSystem, json_not_found, api_prefixes, not_found}
use aegis_phase.Gateway.Paths.Served.{IsPage, Serves, not_found-Serves}
use aegis_phase.Gateway.WriteAuth.{
  allowed, not_a_write, classify, is_guarded_write, read_write_key, key_too_short,
}
use aegis_phase.Gateway.WriteAuth.Decided.{Presents, classify_iff}
use aegis_phase.Gateway.ContractErrors.{chain_unavailable, value}
use aegis_phase.Gateway.Chain.Calls.{Client}
use aegis_phase.Gateway.Chain.Decisions.{
  Decision, ok_code, Assembled, entry_signed, verdict_known, accepted_as, final_in,
  normalize_decision,
}
use aegis_phase.Gateway.Chain.Submitting.{submit}
use aegis_phase.Gateway.Chain.Sending.{Prepared, submit-Prepared}
use aegis_phase.Canonical.Commitment.{canonical_intent, intent_hash}
use aegis_phase.Gateway.Request.{IntentRequest, intent_request}
use aegis_phase.Gateway.Registry
use aegis_phase.Gateway.Registry.{Registry}
use aegis_phase.Gateway.Store.{IntentRow, ApprovalRow}
use aegis_phase.Gateway.Store.Degraded.{degraded_store}
use aegis_phase.Gateway.Store.Degraded.Bounded
use aegis_phase.Gateway.Store.Degraded.Bounded.{fresh, Keeps, called_all-Keeps}
use aegis_phase.Gateway.Store.Postgres.{QueueRow, Tables, postgres_store}
use aegis_phase.Gateway.Store.Postgres.Kept
use aegis_phase.Gateway.Store.Postgres.Kept.{Holds, called_all-Holds}
use aegis_phase.Gateway.Server.Posting.{canonicalize, post_intents}
use aegis_phase.Gateway.Server.State.{World, Services}
use aegis_phase.Gateway.Server.Canonicalizing.{canonicalize_iff}
use aegis_phase.Gateway.Server.Intents.{Outcome, post_intents-Outcome}
use aegis_phase.Gateway.Server.Independent.{Alike, post_intents-Alike}
use aegis_phase.Gateway.Paths.{has_prefix, is_api_path}
use aegis_phase.Gateway.WriteAuth.{bearer_token, key_matches, before_query}
use aegis_phase.Gateway.Store.Degraded.{enqueue_approval, approval_candidates}
use aegis_phase.Gateway.Server.Reading.{Collected, get_approvals}
use aegis_phase.Gateway.Server.State.{approvals}
use aegis_phase.Gateway.Server.Approvals.{IsExact, get_approvals-IsExact}
use aegis_phase.Gateway.Routes.{Request, dispatch}
use aegis_phase.Gateway.Routes.Reading.{Reads}
use aegis_phase.Gateway.Routes.Guarded.{dispatch-Reads}

-- A disk with two files, and no link.
abbrev disk : FileSystem
disk = record {
  is_file =
      λ path. some (text_eq path (codes "/www/a.js") || text_eq path (codes "/www/index.html"));
  realpath = λ path. some path;
}

not_found-Serves_example :
    (not_found disk (codes "/www") api_prefixes (codes "GET") (some (codes "/a.js"))
      ≡ json_not_found)
    ⊎ (IsPage disk (codes "/www") api_prefixes (codes "GET") (codes "/a.js")
        × Serves disk
            (codes "/www")
            api_prefixes
            (codes "GET")
            (codes "/a.js")
            (not_found disk (codes "/www") api_prefixes (codes "GET") (some (codes "/a.js"))))
not_found-Serves_example =
    not_found-Serves disk (codes "/www") api_prefixes (codes "GET") (codes "/a.js")

abbrev key : Text
key = replicate 24 b'k'

abbrev no_digest : Text → Bytes
no_digest s = s

classify_iff_example :
    ((classify no_digest
          (codes "POST")
          (codes "/v1/intents")
          (some (codes "Bearer " ++ key))
          (some key)
        ≡ not_a_write)
      ↔ (is_guarded_write (codes "POST") (codes "/v1/intents") ≡ false))
    × ((classify no_digest
            (codes "POST")
            (codes "/v1/intents")
            (some (codes "Bearer " ++ key))
            (some key)
          ≡ allowed)
        ↔ ((is_guarded_write (codes "POST") (codes "/v1/intents") ≡ true)
            × Presents no_digest (some (codes "Bearer " ++ key)) (some key)))
classify_iff_example =
    classify_iff no_digest (codes "POST") (codes "/v1/intents") (some (codes "Bearer " ++ key))
      (some key)

-- The white space around a key is dropped; a short key is refused.
reads_key :
    (read_write_key (some (codes "  " ++ (key ++ codes " "))) ≡ ok (some key))
    × (read_write_key (some (codes "short")) ≡ err (key_too_short 5))
unfolding read_write_key trim drop_while
reads_key = (refl, refl)

abbrev decided : Decision
decided = record {
  decision_id = replicate 32 9;
  intent_hash = replicate 32 7;
  agent = codes "GA";
  service_id = codes "svc";
  asset = codes "CB";
  amount = pos 125;
  policy_version = 3;
  verdict = Verdict.approved;
  reason_code = ok_code;
  original_reason_code = ok_code;
  resolved_policy_version = none;
  ledger_seq = 900;
  resolved = false;
  settled = false;
}

abbrev transaction : Assembled
transaction = record {
  simulation_error = none;
  result = ok (value decided);
  is_read_call = false;
  outstanding = codes "GA" ∷ [];
  sign_auth_entry = λ address. ok tt;
  send = record { hash = some (codes "ff"); outcome = ok (value decided, some 901) };
}

submit-Prepared_example :
    Prepared
      (codes "GC")
      (λ address. true)
      (ok transaction)
      (verdict_known (normalize_decision decided) ∷ entry_signed (codes "GA") ∷ [])
unfolding submit text_eq to_hex
submit-Prepared_example =
    submit-Prepared (codes "GC") (λ address. true) (ok transaction)
      (verdict_known (normalize_decision decided) ∷ entry_signed (codes "GA") ∷ [])
      (accepted_as (codes "ff") ∷ final_in (codes "ff") 901 ∷ []) refl

abbrev registry : Registry
registry = record {
  registry_version = 1;
  agents =
      (codes "agent", record { agent_id = codes "agent"; address = codes "GA"; active = true })
      ∷ [];
  assets =
      (codes "USDC", record { asset = codes "USDC"; sac = codes "CB"; policy_asset = true }) ∷ [];
  services = [];
}

abbrev client : Client
client = record {
  caller = codes "GC";
  owner = none;
  can_sign = λ address. true;
  authorize = λ caller input. ok transaction;
  resolve = λ id approve. ok transaction;
  get_decision = λ id. err (chain_unavailable (codes "down") (codes "down"));
  decision_by_intent = λ hash. err (chain_unavailable (codes "down") (codes "down"));
  get_policy = λ agent. err (chain_unavailable (codes "down") (codes "down"));
}

abbrev services : Services
services = record {
  registry = registry;
  chain = λ n. client;
  nfc = λ s. s;
  sha256 = λ b. take 32 b;
}

abbrev posted : Json
posted = object (
    member (codes "agent_id") (string (codes "agent")) (
      member (codes "service_id") (string (codes "svc")) (
        member (codes "asset") (string (codes "USDC")) (
          member (codes "amount") (string (codes "0.5")) (
            member (codes "purpose") (string (codes "test"))
              (member (codes "client_ref") (string (codes "1")) end))))))

abbrev requested : IntentRequest
requested = record {
  agent_id = codes "agent";
  service_id = codes "svc";
  asset = codes "USDC";
  amount = codes "0.5";
  purpose = codes "test";
  client_ref = codes "1";
}

abbrev start : World degraded_store
start = record { store = fresh; calls = []; transcript = []; clock = 0 }

abbrev start_tables : World postgres_store
start_tables = record {
  store = record {
    intents = [];
    decisions = [];
    approval_queue = [];
    submission_failures = [];
    outcomes = false ∷ [];
  };
  calls = [];
  transcript = [];
  clock = 0;
}

-- The posted intent is accepted, sent once and answered with 200.
answers_posted :
    ((post_intents degraded_store services posted (codes "r") start).0.status ≡ 200)
    × (length (post_intents degraded_store services posted (codes "r") start).1.calls ≡ 1)
unfolding post_intents intent_request canonicalize value_at text_eq parse_amount span_digits
    value_from canonical_intent intent_hash any Registry.agent Registry.asset ascii str8 i128 str16
answers_posted = (refl, refl)

post_intents-Outcome_example :
    Outcome degraded_store services posted
      (codes "r")
      start
      (post_intents degraded_store services posted (codes "r") start)
post_intents-Outcome_example = post_intents-Outcome degraded_store services posted (codes "r") start

post_intents-Alike_example :
    Alike degraded_store postgres_store services
      (post_intents degraded_store services posted (codes "r") start)
      (post_intents postgres_store services posted (codes "r") start_tables)
post_intents-Alike_example =
    post_intents-Alike degraded_store postgres_store services start start_tables refl (codes "r")
      posted

canonicalize_iff_example :
    Total (canonicalize degraded_store services requested)
    ↔ ((amount : ℕ) × (parse_amount (codes "0.5") ≡ ok amount) × (amount < 2 ^ 127))
unfolding intent_request value_at text_eq span_digits any all encode
canonicalize_iff_example = canonicalize_iff degraded_store services posted requested refl

abbrev row : IntentRow
row = record {
  intent_hash = codes "07";
  agent_id = codes "agent";
  service_id = codes "svc";
  asset = codes "USDC";
  amount = 5000000;
  purpose = codes "test";
  client_ref = codes "1";
  canonical_preimage = codes "00";
  agent_address = codes "GA";
  asset_sac = codes "CB";
  registry_version = 1;
  request_id = codes "r";
}

abbrev approval : ApprovalRow
approval = record {
  decision_id = codes "09";
  intent_hash = codes "07";
  rule = codes "amount 0.5 > threshold 0.1";
  threshold_snapshot = pos 1000000;
  amount = pos 5000000;
  policy_version_snapshot = 3;
}

called_all-Keeps_example :
    Keeps row 5 approval 50 (Bounded.called_all fresh (Bounded.recorded row ∷ []))
called_all-Keeps_example = called_all-Keeps (Bounded.recorded row ∷ []) row 5 approval 50

abbrev queued : QueueRow
queued = record { row = approval; escalated_at = 5 }

abbrev tables : Tables
tables = record {
  intents = row ∷ [];
  decisions = [];
  approval_queue = queued ∷ [];
  submission_failures = [];
  outcomes = true ∷ false ∷ [];
}

called_all-Holds_example : Holds queued row (
    Kept.called_all tables
      (Kept.enqueued 7 (record approval { rule = codes "another" }) ∷ Kept.recorded row ∷ []))
unfolding find text_eq
called_all-Holds_example =
    called_all-Holds queued row tables
      (Kept.enqueued 7 (record approval { rule = codes "another" }) ∷ Kept.recorded row ∷ [])
      (refl, refl)

abbrev bare : Request
bare = record {
  method = codes "POST";
  url = codes "/v1/intents?x=1";
  authorization = some (codes "Bearer wrong");
  body = posted;
  limit = none;
  request_id = codes "r";
}

-- Without the key the intent is refused; with it, it is handled.
refuses_bare :
    ((dispatch degraded_store services no_digest before_query (some key) bare start).0.status ≡ 401)
    × ((dispatch degraded_store services no_digest before_query none bare start).0.status ≡ 503)
unfolding dispatch classify is_guarded_write bearer_token key_matches trim drop_while any
    before_query is_api_path has_prefix text_eq all
refuses_bare = (refl, refl)

-- The hook reads the URL as it is written: an encoded letter takes it out of the guard.
misses_encoded : is_guarded_write (codes "POST") (codes "/%761/intents") ≡ false
unfolding is_guarded_write any before_query is_api_path has_prefix text_eq
misses_encoded = refl

dispatch-Reads_example :
    Presents no_digest (some (codes "Bearer wrong")) (some key)
    ⊎ Reads degraded_store services start
        (dispatch degraded_store services no_digest before_query (some key) bare start).1
dispatch-Reads_example =
    dispatch-Reads degraded_store services no_digest before_query (some key) bare start refl

abbrev pending_client : Client
pending_client = record client {
  get_decision = λ id. ok record {
    simulation_error = none;
    result = ok (value (record decided { verdict = Verdict.requires_approval }));
  };
}

abbrev pending_services : Services
pending_services = record services { chain = λ n. pending_client }

abbrev queue : World degraded_store
queue = record start { store = enqueue_approval 5 approval fresh }

get_approvals-IsExact_example :
    (found : Collected degraded_store pending_services) × ((get_approvals degraded_store
        pending_services
        (some 20)
        queue).0.body
      ≡ approvals found.pending found.unreadable true)
    × IsExact degraded_store pending_services pending_client
        (approval_candidates 20 queue.store)
        found
get_approvals-IsExact_example =
    get_approvals-IsExact degraded_store pending_services pending_client (λ n id. refl) 20 20 queue
      refl
