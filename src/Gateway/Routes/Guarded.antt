-- ===== src/Gateway/Routes/Guarded.antt =====
-- What the hook of apps/gateway/src/writeAuth.ts guards of the routes of server.ts.
use aegis_phase.Prelude.{◌≡◌, ◌⊎◌, inl, inr, refl, true, false, Option, Text, Bytes, codes}
use mathlib.Core.Path.{subst}
use aegis_phase.Gateway.Paths.{is_api_path, api_prefixes}
use aegis_phase.Gateway.WriteAuth.{
  WriteAuthOutcome, allowed, not_a_write, writes_disabled, unauthorized, classify, hook_reply,
  is_guarded_write, before_query,
}
use aegis_phase.Gateway.WriteAuth.Decided.{Presents, classify_iff}
use aegis_phase.Gateway.Store.{IntentStore}
use aegis_phase.Gateway.Server.State.{World, Services}
use aegis_phase.Gateway.Routes.{Request, hooked, dispatch}
use aegis_phase.Gateway.Routes.Writes.{route_of-Writes, guarded_post}
use aegis_phase.Gateway.Routes.Reading.{Reads, nothing_done, handled-Reads}

module _ (S : IntentStore) (svc : Services) where
  module _ (digest : Text → Bytes) (path_of : Text → Text) (write_key : Option Text) (q : Request)
      (w : World S) where
    by_outcome :
        (o : WriteAuthOutcome)
        → classify digest q.method q.url q.authorization write_key ≡ o
        → path_of q.url ≡ before_query q.url
        → Presents digest q.authorization write_key
          ⊎ Reads S svc w (hooked S svc digest path_of q w (hook_reply o)).1
    unfolding hook_reply
    by_outcome allowed e p =
        inl (((classify_iff digest q.method q.url q.authorization write_key).1.0 e).1)
    by_outcome writes_disabled e p = inr (nothing_done S svc w)
    by_outcome unauthorized e p = inr (nothing_done S svc w)
    by_outcome not_a_write e p =
        let free = (classify_iff digest q.method q.url q.authorization write_key).0.0 e in
        inr (
          handled-Reads S svc digest path_of q w _
            (λ writes. unguarded free (route_of-Writes _ _ writes)))
      where
        unguarded :
            is_guarded_write q.method q.url ≡ false
            → (q.method ≡ codes "POST") × (is_api_path api_prefixes (path_of q.url) ≡ true)
            → ⊥
        unguarded free (m, a) =
            let g =
              guarded_post q.method q.url m
                (subst (λ (t : Text). is_api_path api_prefixes t ≡ true) p a) in
            cc

    -- Of a URL whose path the router takes as it is written, a request that does not present the key
    -- only reads: it makes no call of the chain but reads, tells nothing in the transcript, and of the
    -- store's operations makes only the lookups, whatever its method.
    pub dispatch-Reads :
        path_of q.url ≡ before_query q.url
        → Presents digest q.authorization write_key
          ⊎ Reads S svc w (dispatch S svc digest path_of write_key q w).1
    unfolding dispatch
    dispatch-Reads p = by_outcome _ refl p
