-- ===== src/Gateway/Routes.antt =====
-- apps/gateway/src/server.ts and writeAuth.ts together: the hook of a request, then its route. The path
-- that the router takes from a URL is a parameter; the answer to HEAD is not modelled.
pub mod Writes
pub mod Reading
pub mod Guarded
use aegis_phase.Prelude.{
  ℕ, Bool, true, false, not, ◌&&◌, Option, none, some, List, [], ◌∷◌, Text, Bytes, codes, text_eq,
  if◌then◌else◌,
}
use aegis_phase.Prelude.Split.{split}
use aegis_phase.Receipt.Json.{Json}
use aegis_phase.Gateway.Paths.{is_full}
use aegis_phase.Gateway.WriteAuth.{classify, hook_reply}
use aegis_phase.Gateway.ContractErrors.{strip_prefix}
use aegis_phase.Gateway.Store.{IntentStore}
use aegis_phase.Gateway.Server.Posting.{post_intents}
use aegis_phase.Gateway.Server.Reading.{get_decisions, get_intents, get_approvals}
use aegis_phase.Gateway.Server.Resolving.{post_resolve}
use aegis_phase.Gateway.Server.State.{World, Services, Handled, reply, refused}

pub data Route : Type 0 where
  posts_intent : Route
  resolves : Text → Route
  reads_decision : Text → Route
  reads_intent : Text → Route
  lists_approvals : Route
  no_route : Route

-- `:id/resolve`.
abbrev pub resolve_in : List Text → Route
resolve_in (id ∷ action ∷ []) =
    if is_full id && text_eq action (codes "resolve") then resolves id else no_route
resolve_in other = no_route

abbrev pub resolve_route : Option Text → Route
resolve_route none = no_route
resolve_route (some rest) = resolve_in (split b'/' rest)

abbrev pub post_route : Text → Route
post_route path =
    if text_eq path (codes "/v1/intents")
    then posts_intent
    else resolve_route (strip_prefix (codes "/v1/decisions/") path)

-- One segment.
abbrev pub single : (Text → Route) → List Text → Route
single route (id ∷ []) = if is_full id then route id else no_route
single route other = no_route

abbrev pub intent_route : Option Text → Route
intent_route none = no_route
intent_route (some rest) = single reads_intent (split b'/' rest)

abbrev pub decision_route : Text → Option Text → Route
decision_route path none = intent_route (strip_prefix (codes "/v1/intents/") path)
decision_route path (some rest) = single reads_decision (split b'/' rest)

abbrev pub get_route : Text → Route
get_route path =
    if text_eq path (codes "/v1/approvals")
    then lists_approvals
    else decision_route path (strip_prefix (codes "/v1/decisions/") path)

-- The routes that `registerRoutes` registers, less /health.
unfoldable pub route_of : Text → Text → Route
unfolding strip_prefix
route_of method path =
    if text_eq method (codes "POST")
    then post_route path
    else if text_eq method (codes "GET")
    then get_route path
    else no_route

pub record Request : Type 0 where
  pub method : Text
  pub url : Text
  pub authorization : Option Text
  pub body : Json
  pub limit : Option ℕ
  pub request_id : Text

module _ (S : IntentStore) (svc : Services) (digest : Text → Bytes) (path_of : Text → Text) where
  abbrev pub handled : Request → World S → Route → Handled S svc
  handled q w posts_intent = post_intents S svc q.body q.request_id w
  handled q w (resolves id) = post_resolve S svc id q.body q.request_id w
  handled q w (reads_decision id) = get_decisions S svc id w
  handled q w (reads_intent hash) = get_intents S svc hash w
  handled q w lists_approvals = get_approvals S svc q.limit w
  handled q w no_route = (reply 404 (refused (codes "not_found")), w)

  abbrev pub hooked : Request → World S → Option (ℕ × Text) → Handled S svc
  hooked q w (some (status, error)) = (reply status (refused error), w)
  hooked q w none = handled q w (route_of q.method (path_of q.url))

  -- The hook, then the route.
  unfoldable pub dispatch : Option Text → Request → World S → Handled S svc
  unfolding classify hook_reply route_of
  dispatch write_key q w =
      hooked q w (hook_reply (classify digest q.method q.url q.authorization write_key))
