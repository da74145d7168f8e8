-- ===== src/Server/Routes.antt =====
-- Which requests get to a handler, over all routes of the server.
use Prim.Native.String.{String, ◌++◌ as ◌<>◌}
use llmproxy.Common.{
  ℕ, ◌≡◌, refl, List, [], ◌∷◌, Option, none, some, All, if_prove, Bool-cases, inl, inr, ltb, length,
  ◌&&◌, not,
}
use llmproxy.Common.Eq.{Bytes, codes}
use llmproxy.Common.Int.{pos}
use llmproxy.Common.Returns.{Allows}
use llmproxy.Json.{Value}
use llmproxy.Domain.{ApiKey, ModelNode, Result}
use llmproxy.Http.{ResponseWriter}
use llmproxy.Middleware.{ApiRequest, Handler}
use llmproxy.Middleware.Guard.{Authenticated, Administers, proxy_stack-guard, admin_stack-guard}
use llmproxy.Server.{
  PathHandler, ClientHandlers, AdminHandlers, Handlers, Route, matches, longer, best, is_registered,
  redirect, not_found, health, ui_page, root_page, client_route, admin_route, routes, chosen, serve,
}

module _ {A : Type 0} (P : String × A → Type 0) where
  longer-Allows :
      (a : String × A) (m : Option (String × A)) → P a → Allows P m → Allows P (longer a m)
  longer-Allows a none h k = h
  longer-Allows a (some b) h k =
      if_prove (Allows P) (ltb (length (codes a.0)) (length (codes b.0))) (λ _. k) (λ _. h)

  -- Whatever is said of every entry is said of the one that counts.
  best-Allows :
      (path : String) (table : List (String × A)) → All P table → Allows P (best path table)
  unfolding best
  best-Allows path [] h = tt
  best-Allows path (a ∷ as_) h =
      if_prove (Allows P) (matches a.0 path)
        (λ _. longer-Allows a (best path as_) h.0 (best-Allows path as_ h.1))
        (λ _. best-Allows path as_ h.1)

module _ (encode : Value → Bytes) (origins : List String) (fresh_id : String)
    (get_key : Bytes → Result (Option ApiKey)) (now : ℕ) (admin_token : Bytes) where
  -- What a request may come to: an answer that none of the handlers gives, a handler of the client API
  -- with a key as which the request is authenticated, or a handler of the administrator's API, for a
  -- request with the administrator's token, which is not empty.
  pub data Guarded (r : ApiRequest) (f : Handlers → ResponseWriter) : Type 0 where
    answered : (answer : ResponseWriter) → ((h : Handlers) → f h ≡ answer) → Guarded r f
    reached_client :
        (handler : ClientHandlers → Handler) (r' : ApiRequest) (w : ResponseWriter)
        → Authenticated get_key now r r'
        → ((h : Handlers) → f h ≡ handler h.client r' w)
        → Guarded r f
    reached_admin :
        (handler : AdminHandlers → Handler) (r' : ApiRequest) (w : ResponseWriter)
        → Administers admin_token r r'
        → ((h : Handlers) → f h ≡ handler h.admin r' w)
        → Guarded r f

  -- A route is guarded, whatever the request.
  abbrev GuardedRoute : Route → Type 0
  GuardedRoute route =
      (path : String) (r : ApiRequest) (w : ResponseWriter) → Guarded r (λ h. route.1 h path r w)

  client_route-Guarded :
      (handler : ClientHandlers → PathHandler)
      → GuardedRoute (client_route encode origins fresh_id get_key now admin_token "" handler)
  client_route-Guarded handler path r w =
      elim (proxy_stack-guard encode origins fresh_id get_key now r w) [
        | inl (answer, k) ↦ answered answer (λ h. k (handler h.client path))
        | inr (r', w', p, k) ↦
            reached_client (λ c. handler c path) r' w' p (λ h. k (handler h.client path))
      ]

  admin_route-Guarded :
      (handler : AdminHandlers → PathHandler)
      → GuardedRoute (admin_route encode origins fresh_id get_key now admin_token "" handler)
  admin_route-Guarded handler path r w =
      elim (admin_stack-guard encode origins fresh_id admin_token r w) [
        | inl (answer, k) ↦ answered answer (λ h. k (handler h.admin path))
        | inr (r', w', p, k) ↦
            reached_admin (λ a. handler a path) r' w' p (λ h. k (handler h.admin path))
      ]

  module _ (listed : Result (List ModelNode)) (checked : Option String)
      (files : Bytes → Handler) where
    routes-Guarded :
        All GuardedRoute
          (routes encode origins fresh_id get_key now admin_token listed checked files)
    unfolding routes
    routes-Guarded = (
      client_route-Guarded (λ h. h.chat_completions),
      (
        client_route-Guarded (λ h. h.chat_completions),
        (
          client_route-Guarded (λ h. h.embeddings),
          (
            client_route-Guarded (λ h. h.responses),
            (
              client_route-Guarded (λ h. h.list_models),
              (
                admin_route-Guarded (λ h. h.stats),
                (
                  admin_route-Guarded (λ h. h.stats_time_series),
                  (
                    admin_route-Guarded (λ h. h.stats_top),
                    (
                      admin_route-Guarded (λ h. h.nodes),
                      (
                        admin_route-Guarded (λ h. h.node_by_id),
                        (
                          admin_route-Guarded (λ h. h.keys),
                          (
                            admin_route-Guarded (λ h. h.logs),
                            (
                              admin_route-Guarded (λ h. h.log_export),
                              (
                                admin_route-Guarded (λ h. h.log_detail),
                                (
                                  admin_route-Guarded (λ h. h.metrics),
                                  (
                                    (λ path r w.
                                        answered (health encode listed checked r w) (λ h. refl)),
                                    (
                                      (λ path r w. answered (ui_page files path r w) (λ h. refl)),
                                      ((λ path r w. answered (root_page path r w) (λ h. refl)), tt),
                                    ),
                                  ),
                                ),
                              ),
                            ),
                          ),
                        ),
                      ),
                    ),
                  ),
                ),
              ),
            ),
          ),
        ),
      ),
    )

    chosen-Guarded : (m : Option Route) → Allows GuardedRoute m → GuardedRoute ("", chosen m)
    chosen-Guarded none k path r w = answered (not_found r w) (λ h. refl)
    chosen-Guarded (some route) k path r w = k path r w

    -- Whatever the path: a handler of the client API is given a request with the key as which
    -- `Authenticate` lets the token of the client's request through, a handler of the administrator's
    -- API a request with an administrator's token that is not empty, and any other answer depends on
    -- none of these handlers.
    pub serve-Guarded :
        (path : String) (r : ApiRequest) (w : ResponseWriter)
        → Guarded r (λ h.
          serve
            (routes encode origins fresh_id get_key now admin_token listed checked files)
            h
            path
            r
            w)
    unfolding serve
    serve-Guarded path r w =
        let table = routes encode origins fresh_id get_key now admin_token listed checked files in
        elim (Bool-cases (not (is_registered path table) && is_registered (path <> "/") table)) [
          | inl e ↦
              answered (redirect (path <> "/") (pos 301) "Moved Permanently" r w)
                (λ h. rw (e, serve) refl)
          | inr e ↦
              elim (chosen-Guarded (best path table)
                (best-Allows GuardedRoute path table routes-Guarded) path r w) [
                  | answered answer k ↦ answered answer (λ h. rw (e, serve) (k h))
                  | reached_client handler r' w' p k ↦
                      reached_client handler r' w' p (λ h. rw (e, serve) (k h))
                  | reached_admin handler r' w' p k ↦
                      reached_admin handler r' w' p (λ h. rw (e, serve) (k h))
                ]
        ]
