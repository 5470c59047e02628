-- ===== src/Gateway/Server/Intents.antt =====
-- What `POST /v1/intents` of apps/gateway/src/server.ts does, on every branch.
use aegis_phase.Prelude.{
  not, ℕ, ◌≡◌, ◌⊎◌, inl, inr, refl, ◌∙◌, Option, none, some, List, [], ◌∷◌, ◌++◌, Text, Bytes, All,
}
use mathlib.Core.List.{append_assoc}
use aegis_phase.Prelude.Result.{Result, ok, err}
use aegis_phase.Prelude.Int.{pos}
use aegis_phase.Canonical.Amount.{RangeError, parse_amount}
use aegis_phase.Canonical.Bytes.{to_hex}
use aegis_phase.Canonical.Commitment.{canonical_intent}
use aegis_phase.Receipt.Json.{Json}
use aegis_phase.Gateway.Chain.Calls.{authorize, buffer_of}
use aegis_phase.Gateway.Request.{intent_request, IntentRequest}
use aegis_phase.Gateway.Registry
use aegis_phase.Gateway.Registry.{AgentRow, AssetRow}
use aegis_phase.Gateway.Store.{IntentRow, IntentStore}
use aegis_phase.Gateway.Server.Stores.{Updates}
use aegis_phase.Gateway.Server.Posting.{
  intent_row, canonicalize, active_agent, input_of, received, submitted, by_canonical, by_asset,
  by_agent, by_request, post_intents,
}
use aegis_phase.Gateway.Server.State.{
  ChainCall, authorized, Transcript, intent_received, World, Services, Canonicalized, intent_of,
  hash_told, submissions, client_at, called, noted, Handled,
}
use aegis_phase.Gateway.Server.Growing.{IsPolicyRead, status_of, after_authorize-Grows}
use aegis_phase.Gateway.Server.Canonicalizing.{canonicalize-eq-ok}

module _ (S : IntentStore) (svc : Services) where
  -- A submission that reached the chain. The request, its agent and its asset were resolved; the
  -- intent was hashed, its preimage told in the transcript and its row, with the preimage under the
  -- hash, recorded in the store, which then only took what came of the intent; the one call carries
  -- the hash of that preimage, and only policies were read after it.
  pub record Submitted (json : Json) (request_id : Text) (w : World S) (handled : Handled S svc)
      : Type 0 where
    pub body : IntentRequest
    pub agent : AgentRow
    pub asset : AssetRow
    pub amount : ℕ
    pub canonical : Bytes
    pub row : IntentRow
    pub read : intent_request svc.nfc json ≡ some body
    pub agent_known : active_agent S svc (Registry.agent svc.registry body.agent_id) ≡ some agent
    pub asset_known : Registry.asset svc.registry body.asset ≡ some asset
    pub amount_read : parse_amount body.amount ≡ ok amount
    pub hashed : canonical_intent svc.nfc (intent_of body amount) ≡ ok canonical
    pub canonical_hex : Text
    pub intent_hex : Text
    pub canonical_written : canonical_hex ≡ to_hex canonical
    pub hash_written : intent_hex ≡ to_hex (svc.sha256 canonical)
    pub later_calls : List ChainCall
    pub later_records : List Transcript
    pub calls :
        handled.1.calls
        ≡ w.calls
          ++ (authorized record {
            intent_hash = buffer_of intent_hex;
            agent_address = agent.address;
            service_id = body.service_id;
            asset_sac = asset.sac;
            amount = pos amount;
          }
              ∷ later_calls)
    pub reads_only : All IsPolicyRead later_calls
    pub transcript :
        handled.1.transcript
        ≡ w.transcript
          ++ (intent_received request_id intent_hex canonical_hex
                (not (S.record_intent row w.store).0)
              ∷ later_records)
    pub row_written : row ≡ record {
      intent_hash = intent_hex;
      agent_id = body.agent_id;
      service_id = body.service_id;
      asset = body.asset;
      amount = amount;
      purpose = body.purpose;
      client_ref = body.client_ref;
      canonical_preimage = canonical_hex;
      agent_address = agent.address;
      asset_sac = asset.sac;
      registry_version = svc.registry.registry_version;
      request_id = request_id;
    }
    pub recorded : Updates S (S.record_intent row w.store).1 handled.1.store
    pub status :
        handled.0.status
        ≡ status_of
            (authorize (client_at S svc w) record {
              intent_hash = buffer_of intent_hex;
              agent_address = agent.address;
              service_id = body.service_id;
              asset_sac = asset.sac;
              amount = pos amount;
            }).1

  -- A refusal: the store is left alone and the chain is not called.
  abbrev pub Refused : World S → Handled S svc → Type 0
  Refused w handled =
      (handled.0.status ≡ 400) × (handled.1.store ≡ w.store) × (handled.1.calls ≡ w.calls)

  submitted-Submitted :
      (json : Json) (request_id : Text) (w : World S) (body : IntentRequest) (agent : AgentRow)
      (asset : AssetRow) (c : Canonicalized)
      → intent_request svc.nfc json ≡ some body
      → active_agent S svc (Registry.agent svc.registry body.agent_id) ≡ some agent
      → Registry.asset svc.registry body.asset ≡ some asset
      → canonicalize S svc body ≡ ok c
      → Submitted json request_id w (submitted S svc body agent asset c request_id w)
  submitted-Submitted json request_id w body agent asset c r a b h =
      let (canonical, amount_read, hashed, hex, hash) = canonicalize-eq-ok S svc body c h in
      let input = input_of S svc body agent asset c in
      let run = authorize (client_at S svc w) input in
      let w1 = received S svc body agent asset c request_id w in
      let (g, s) =
        after_authorize-Grows S svc body request_id c.intent_hex (hash_told run.0)
          (noted S svc (submissions request_id run.0) (called S svc (authorized input) w1)) run.1 in
      record {
        body = body;
        agent = agent;
        asset = asset;
        amount = c.amount;
        canonical = canonical;
        row = intent_row S svc body agent asset c request_id;
        row_written = refl;
        recorded = g.store_updates;
        read = r;
        agent_known = a;
        asset_known = b;
        amount_read = amount_read;
        hashed = hashed;
        canonical_hex = c.canonical_hex;
        intent_hex = c.intent_hex;
        canonical_written = hex;
        hash_written = hash;
        later_calls = g.more_calls;
        later_records = submissions request_id run.0 ++ g.more_records;
        calls = g.calls_grow ∙ append_assoc w.calls (authorized input ∷ []) g.more_calls;
        reads_only = g.policy_reads;
        transcript =
            g.transcript_grows
            ∙ (append_assoc w1.transcript (submissions request_id run.0) g.more_records
                ∙ append_assoc w.transcript
                    (intent_received request_id c.intent_hex c.canonical_hex (
                        not
                          (S.record_intent (intent_row S svc body agent asset c request_id)
                            w.store).0)
                      ∷ [])
                    (submissions request_id run.0 ++ g.more_records));
        status = s;
      }

  -- Which of the two a request comes to.
  abbrev pub Outcome : Json → Text → World S → Handled S svc → Type 0
  Outcome json request_id w handled = Refused w handled ⊎ Submitted json request_id w handled

  module _ (json : Json) (request_id : Text) (w : World S) where
    by_canonical-Outcome :
        (body : IntentRequest) (agent : AgentRow) (asset : AssetRow)
        (r : Result RangeError Canonicalized)
        → intent_request svc.nfc json ≡ some body
        → active_agent S svc (Registry.agent svc.registry body.agent_id) ≡ some agent
        → Registry.asset svc.registry body.asset ≡ some asset
        → canonicalize S svc body ≡ r
        → Outcome json request_id w (by_canonical S svc body agent asset request_id w r)
    by_canonical-Outcome body agent asset (err e) r a b h = inl (refl, refl, refl)
    by_canonical-Outcome body agent asset (ok c) r a b h =
        inr (submitted-Submitted json request_id w body agent asset c r a b h)

    by_asset-Outcome :
        (body : IntentRequest) (agent : AgentRow) (o : Option AssetRow)
        → intent_request svc.nfc json ≡ some body
        → active_agent S svc (Registry.agent svc.registry body.agent_id) ≡ some agent
        → Registry.asset svc.registry body.asset ≡ o
        → Outcome json request_id w (by_asset S svc body agent request_id w o)
    by_asset-Outcome body agent none r a b = inl (refl, refl, refl)
    by_asset-Outcome body agent (some asset) r a b =
        by_canonical-Outcome body agent asset _ r a b refl

    by_agent-Outcome :
        (body : IntentRequest) (o : Option AgentRow)
        → intent_request svc.nfc json ≡ some body
        → active_agent S svc (Registry.agent svc.registry body.agent_id) ≡ o
        → Outcome json request_id w (by_agent S svc body request_id w o)
    by_agent-Outcome body none r a = inl (refl, refl, refl)
    by_agent-Outcome body (some agent) r a = by_asset-Outcome body agent _ r a refl

    by_request-Outcome :
        (o : Option IntentRequest)
        → intent_request svc.nfc json ≡ o
        → Outcome json request_id w (by_request S svc request_id w o)
    by_request-Outcome none r = inl (refl, refl, refl)
    by_request-Outcome (some body) r = by_agent-Outcome body _ r refl

    -- A posted intent is refused with status 400, with the store left alone and the chain not called,
    -- or it is submitted: its request, agent and asset were resolved, the intent was hashed, its
    -- preimage was told in the transcript and its row, with the preimage under the hash, recorded in
    -- the store, which after that only takes what came of the intent; one call of the chain carries the
    -- hash of that preimage, the agent's address, the asset's and the amount that was read; after it only
    -- policies are read, and the status is 202 for an escalation, 200 for any other decision, and that of the
    -- error when the call fails.
    pub post_intents-Outcome : Outcome json request_id w (post_intents S svc json request_id w)
    unfolding post_intents
    post_intents-Outcome = by_request-Outcome (intent_request svc.nfc json) refl
