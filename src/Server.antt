-- ===== src/Server.antt =====
-- internal/api/server.go: the routes of the HTTP server with what stands before them, its health
-- check, and its end; the routes of internal/api/openai.go and internal/api/admin.go. The handlers
-- behind a stack of middleware are parameters, and so is the file server of the embedded files. The
-- path of a request is clean, since the ServeMux redirects any other itself.
pub mod Routes
use Prim.Native.String.{String, ◌++◌ as ◌<>◌}
use text.Mathlib.Text.{◌==◌ as str_eq}
use llmproxy.Common.{
  ℕ, Bool, true, false, ◌&&◌, ◌||◌, not, List, [], ◌∷◌, ◌++◌, Option, none, some, length, ltb, ◌==◌,
  if◌then◌else◌,
}
use llmproxy.Common.Int.{ℤ, pos}
use llmproxy.Common.Eq.{Bytes, codes, lookup, string_instance}
use llmproxy.Json.{Value, str, obj, end, field}
use llmproxy.Domain.{ApiKey, ModelNode, GoError, Result, ok, failed}
use llmproxy.Http
use llmproxy.Http.{Header, ResponseWriter, header_set}
use llmproxy.Stream.{after_prefix}
use llmproxy.Middleware.{Handler, write_json, proxy_stack, admin_stack}

-- A handler that reads the path.
abbrev pub PathHandler : Type 0
PathHandler = String → Handler

pub record ClientHandlers : Type 0 where
  pub chat_completions : PathHandler
  pub embeddings : PathHandler
  pub responses : PathHandler
  pub list_models : PathHandler

pub record AdminHandlers : Type 0 where
  pub stats : PathHandler
  pub stats_time_series : PathHandler
  pub stats_top : PathHandler
  pub nodes : PathHandler
  pub node_by_id : PathHandler
  pub keys : PathHandler
  pub logs : PathHandler
  pub log_export : PathHandler
  pub log_detail : PathHandler
  pub metrics : PathHandler

pub record Handlers : Type 0 where
  pub client : ClientHandlers
  pub admin : AdminHandlers

-- `_, ok := h[k]`
abbrev pub has_header : String → Header → Bool
has_header k h = elim (lookup k h) [ none ↦ false | some _ ↦ true ]

-- `http.Redirect` to a path of the server, and `http.NotFound`.
unfoldable pub redirect : String → ℤ → String → Handler
redirect url status text r w =
    let typed = has_header "Content-Type" w.header in
    let located = header_set "Location" url w.header in
    let h =
      if not typed && (str_eq r.method "GET" || str_eq r.method "HEAD")
      then header_set "Content-Type" "text/html; charset=utf-8" located
      else located in
    let started = Http.write_header status (record w { header = h }) in
    if not typed && str_eq r.method "GET"
    then (Http.write (codes ("<a href=\"" <> url <> "\">" <> text <> "</a>.") ++ 10 ∷ 10 ∷ [])
        started).0
    else started

unfoldable pub not_found : Handler
not_found r w =
    let h =
      header_set "X-Content-Type-Options" "nosniff"
        (header_set "Content-Type" "text/plain; charset=utf-8" w.header) in
    (Http.write (codes "404 page not found" ++ 10 ∷ [])
      (Http.write_header (pos 404) (record w { header = h }))).0

-- `http.ServeMux`: a pattern stands for its own path, and one that ends in a slash for all paths
-- that begin with it; the longest one counts.
is_subtree : Bytes → Bool
is_subtree [] = false
is_subtree (b ∷ []) = b == 47
is_subtree (b ∷ c ∷ s) = is_subtree (c ∷ s)

unfoldable pub matches : String → String → Bool
unfolding is_subtree after_prefix
matches pattern path =
    str_eq pattern path
    || (is_subtree (codes pattern)
        && elim (after_prefix (codes pattern) (codes path)) [ none ↦ false | some _ ↦ true ])

module _ {A : Type 0} where
  abbrev pub longer : String × A → Option (String × A) → Option (String × A)
  longer a none = some a
  longer a (some b) = if ltb (length (codes a.0)) (length (codes b.0)) then some b else some a

  unfoldable pub best : String → List (String × A) → Option (String × A)
  unfolding matches
  best path [] = none
  best path (a ∷ as_) = let rest = best path as_ in if matches a.0 path then longer a rest else rest

  unfoldable pub is_registered : String → List (String × A) → Bool
  is_registered path [] = false
  is_registered path (a ∷ as_) = str_eq a.0 path || is_registered path as_

-- The health check, of what `ListNodes` and the limiter's `Check` yield: an error each, if any.
unfoldable pub check_text : Option String → String
check_text none = "ok"
check_text (some e) = "failed: " <> e

abbrev pub listing_error : Result (List ModelNode) → Option String
listing_error (ok ns) = none
listing_error (failed e) = some e.text

abbrev pub is_fine : Option String → Bool
is_fine none = true
is_fine (some e) = false

unfoldable pub health : (Value → Bytes) → Result (List ModelNode) → Option String → Handler
unfolding check_text
health encode listed checked r w =
    let fine = is_fine (listing_error listed) && is_fine checked in
    write_json encode (if fine then pos 200 else pos 503)
      (obj (
        field "status" (str (if fine then "ok" else "error")) (
          field "checks"
            (obj (
              field "db" (str (check_text (listing_error listed)))
                (field "cache" (str (check_text checked)) end)))
            end)))
      w

-- Everything that is not a route of its own: the page, and for the root a way to it.
unfoldable pub ui_page : (Bytes → Handler) → PathHandler
unfolding after_prefix
ui_page files path = elim (after_prefix (codes "/ui/") (codes path)) [
  | none ↦ not_found
  | some rest ↦ files rest
]

unfoldable pub root_page : PathHandler
root_page path = if str_eq path "/" then redirect "/ui/" (pos 302) "Found" else not_found

abbrev pub Route : Type 0
Route = String × (Handlers → PathHandler)

module _ (encode : Value → Bytes) (origins : List String) (fresh_id : String)
    (get_key : Bytes → Result (Option ApiKey)) (now : ℕ) (admin_token : Bytes) where
  abbrev pub client_route : String → (ClientHandlers → PathHandler) → Route
  client_route pattern handler =
      (pattern, λ h path. proxy_stack encode origins fresh_id get_key now (handler h.client path))

  abbrev pub admin_route : String → (AdminHandlers → PathHandler) → Route
  admin_route pattern handler =
      (pattern, λ h path. admin_stack encode origins fresh_id admin_token (handler h.admin path))

  abbrev pub client_routes : List Route
  client_routes =
      client_route "/v1/chat/completions" (λ h. h.chat_completions)
      ∷ client_route "/v1/completions" (λ h. h.chat_completions)
      ∷ client_route "/v1/embeddings" (λ h. h.embeddings)
      ∷ client_route "/v1/responses" (λ h. h.responses)
      ∷ client_route "/v1/models" (λ h. h.list_models)
      ∷ []

  abbrev pub admin_routes : List Route
  admin_routes =
      admin_route "/admin/stats" (λ h. h.stats)
      ∷ admin_route "/admin/stats/timeseries" (λ h. h.stats_time_series)
      ∷ admin_route "/admin/stats/top" (λ h. h.stats_top)
      ∷ admin_route "/admin/nodes" (λ h. h.nodes)
      ∷ admin_route "/admin/nodes/" (λ h. h.node_by_id)
      ∷ admin_route "/admin/keys" (λ h. h.keys)
      ∷ admin_route "/admin/logs" (λ h. h.logs)
      ∷ admin_route "/admin/logs/export" (λ h. h.log_export)
      ∷ admin_route "/admin/logs/" (λ h. h.log_detail)
      ∷ []

  unfoldable pub routes : Result (List ModelNode) → Option String → (Bytes → Handler) → List Route
  routes listed checked files =
      client_routes
      ++ admin_routes
      ++ admin_route "/metrics" (λ h. h.metrics)
        ∷ ("/health", λ h path. health encode listed checked)
        ∷ ("/ui/", λ h path. ui_page files path)
        ∷ ("/", λ h path. root_page path)
        ∷ []

-- A path without a route, where the one with a slash has one, is redirected there. The query that the
-- redirect keeps is left out.
abbrev pub chosen : Option Route → Handlers → PathHandler
chosen none h path = not_found
chosen (some route) h path = route.1 h path

unfoldable pub serve : List Route → Handlers → PathHandler
unfolding best is_registered
serve table h path =
    if not (is_registered path table) && is_registered (path <> "/") table
    then redirect (path <> "/") (pos 301) "Moved Permanently"
    else chosen (best path table) h path

-- `Shutdown`: the server's own, and the flush of the log, whose error is only printed.
unfoldable pub shutdown :
    {S : Type 0} → Option GoError → (S → S × Option GoError) → S → S × Option GoError
shutdown (some e) flush s = (s, some e)
shutdown none flush s = ((flush s).0, none)
