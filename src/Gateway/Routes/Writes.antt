-- ===== src/Gateway/Routes/Writes.antt =====
-- Which routes of apps/gateway/src/server.ts change state.
use aegis_phase.Prelude.{
  if-eq-some, any, ◌||◌, ◌==◌, if-eq-some, any, ◌≡◌, refl, sym, Bool, true, false, Option, none,
  some, List, [], ◌∷◌, ◌++◌, Text, codes, text_eq, text_eq_iff, if◌then◌else◌,
}
use mathlib.Core.Path.{subst}
use aegis_phase.Prelude.Split.{split}
use aegis_phase.Gateway.Paths.{has_prefix, is_api_path, api_prefixes}
use aegis_phase.Gateway.ContractErrors.{strip_prefix}
use aegis_phase.Gateway.WriteAuth.{is_guarded_write, before_query}
use aegis_phase.Gateway.Paths.{is_full}
use aegis_phase.Gateway.Routes.{
  Route, posts_intent, resolves, reads_decision, reads_intent, lists_approvals, no_route,
  resolve_route, post_route, get_route, route_of, single, intent_route, decision_route,
}

-- The routes that change state.
abbrev pub Writes : Route → Type 0
Writes posts_intent = Unit {0}
Writes (resolves id) = Unit {0}
Writes (reads_decision id) = ⊥
Writes (reads_intent hash) = ⊥
Writes lists_approvals = ⊥
Writes no_route = ⊥

strip_prefix-has_prefix :
    (p q s : Text) {rest : Text} → strip_prefix (p ++ q) s ≡ some rest → has_prefix p s ≡ true
unfolding strip_prefix has_prefix
strip_prefix-has_prefix [] q s h = refl
strip_prefix-has_prefix (a ∷ p) q [] h = cc
strip_prefix-has_prefix (a ∷ p) q (c ∷ s) h =
    let (e, k) = if-eq-some (a == c) (strip_prefix (p ++ q) s) h in
    rw (e, strip_prefix-has_prefix p q s k) refl

under_decisions :
    (path : Text) (o : Option Text)
    → strip_prefix (codes "/v1/decisions/") path ≡ o
    → Writes (resolve_route o)
    → is_api_path api_prefixes path ≡ true
unfolding is_api_path any
under_decisions path none e h = absurd h
under_decisions path (some rest) e h =
    rw (strip_prefix-has_prefix (codes "/v1/") (codes "decisions/") path e) (or_true_mid _ _)
  where
    or_true_mid : (a b : Bool) → (a || true) || b ≡ true
    or_true_mid true b = refl
    or_true_mid false b = refl

post_route-api :
    (path : Text) (b : Bool)
    → text_eq path (codes "/v1/intents") ≡ b
    → Writes
        (if b then posts_intent else resolve_route (strip_prefix (codes "/v1/decisions/") path))
    → is_api_path api_prefixes path ≡ true
unfolding is_api_path any has_prefix text_eq
post_route-api path true e h =
    subst (λ (p : Text). is_api_path api_prefixes p ≡ true)
      (sym ((text_eq_iff path (codes "/v1/intents")).0 e)) refl
post_route-api path false e h = under_decisions path _ refl h

single_reads :
    (route : Text → Route) (segments : List Text)
    → ((id : Text) → ¬ Writes (route id))
    → ¬ Writes (single route segments)
single_reads route [] n = λ z. z
single_reads route (id ∷ []) n = chosen (is_full id)
  where
    chosen : (b : Bool) → ¬ Writes (if b then route id else no_route)
    chosen true = n id
    chosen false = λ z. z
single_reads route (id ∷ more ∷ rest) n = λ z. z

get_route-reads : (path : Text) → ¬ Writes (get_route path)
get_route-reads path = listed (text_eq path (codes "/v1/approvals"))
  where
    intents : (o : Option Text) → ¬ Writes (intent_route o)
    intents none = λ z. z
    intents (some rest) = single_reads reads_intent (split b'/' rest) (λ id z. z)

    decisions : (o : Option Text) → ¬ Writes (decision_route path o)
    decisions none = intents (strip_prefix (codes "/v1/intents/") path)
    decisions (some rest) = single_reads reads_decision (split b'/' rest) (λ id z. z)

    listed :
        (b : Bool)
        → ¬ Writes (
            if b
            then lists_approvals
            else decision_route path (strip_prefix (codes "/v1/decisions/") path))
    listed true = λ z. z
    listed false = decisions (strip_prefix (codes "/v1/decisions/") path)

-- A route that changes state is a POST below a prefix of the API.
pub route_of-Writes :
    (method path : Text)
    → Writes (route_of method path)
    → (method ≡ codes "POST") × (is_api_path api_prefixes path ≡ true)
unfolding route_of
route_of-Writes method path = posted (text_eq method (codes "POST")) refl
  where
    got : (b : Bool) → ¬ Writes (if b then get_route path else no_route)
    got true = get_route-reads path
    got false = λ z. z

    posted :
        (b : Bool)
        → text_eq method (codes "POST") ≡ b
        → Writes (
            if b
            then post_route path
            else if text_eq method (codes "GET")
            then get_route path
            else no_route)
        → (method ≡ codes "POST") × (is_api_path api_prefixes path ≡ true)
    posted true e h = ((text_eq_iff method _).0 e, post_route-api path _ refl h)
    posted false e h = absurd (got (text_eq method (codes "GET")) h)

-- A POST below a prefix of the API is guarded.
pub guarded_post :
    (method url : Text)
    → method ≡ codes "POST"
    → is_api_path api_prefixes (before_query url) ≡ true
    → is_guarded_write method url ≡ true
unfolding is_guarded_write any text_eq
guarded_post method url m h =
    subst (λ (n : Text). is_guarded_write n url ≡ true) (sym m) (rw h refl)
