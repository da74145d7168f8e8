-- ===== src/Tests/Routes.antt =====
-- The routes of the server.
use Prim.Native.String.{String}
use llmproxy.Common.{◌≡◌, refl, false, List, [], ◌∷◌, Option, none, some}
use llmproxy.Common.Int.{pos}
use llmproxy.Common.Eq.{Bytes, codes, lookup, insert, string_instance}
use llmproxy.Domain.{ok}
use llmproxy.Json.{Value}
use llmproxy.Http.{ResponseWriter}
use llmproxy.Http
use llmproxy.Middleware.{ApiRequest, Handler, write_json}
use llmproxy.Server.{Route, matches, best, not_found, health, routes, serve}
use llmproxy.Server.Routes.{Guarded, serve-Guarded}
use llmproxy.Stream.{after_prefix}
use llmproxy.Tests.Access.{keys}

-- A request with the key's token; the administrator's token is another.
abbrev request : ApiRequest
request = record {
  method = "POST";
  header = ("Authorization", "Bearer secret" ∷ []) ∷ [];
  query_token = [];
  request_id = "";
  session_id = "";
  api_key = none;
}

abbrev client : ResponseWriter
client = record { header = []; sent = none; body = []; broken = false }

abbrev no_text : Value → Bytes
no_text v = []

abbrev no_files : Bytes → Handler
no_files path = not_found

abbrev table : List Route
table = routes no_text ("*" ∷ []) "id" keys 50 (codes "admin") (ok []) none no_files

abbrev pattern_of : Option Route → String
pattern_of none = ""
pattern_of (some route) = route.0

-- A path below a subtree, one with a route of its own, and one that falls to the root.
subtree_run : pattern_of (best "/admin/nodes/a" table) ≡ "/admin/nodes/"
unfolding best matches after_prefix routes
subtree_run = refl

own_run : pattern_of (best "/admin/nodes" table) ≡ "/admin/nodes"
unfolding best matches after_prefix routes
own_run = refl

other_run : pattern_of (best "/favicon.ico" table) ≡ "/"
unfolding best matches after_prefix routes
other_run = refl

health_run :
    (health no_text (ok []) (some "cache read: wrote but could not read back") request client).sent
    ≡ some (pos 503, ("Content-Type", "application/json" ∷ []) ∷ [])
unfolding health write_json Http.write_header Http.write Http.header_set lookup insert
health_run = refl

serve-Guarded_example :
    Guarded no_text
      ("*" ∷ [])
      "id"
      keys
      50
      (codes "admin")
      request
      (λ h. serve table h "/v1/models" request client)
serve-Guarded_example =
    serve-Guarded no_text ("*" ∷ []) "id" keys 50 (codes "admin") (ok []) none no_files "/v1/models"
      request client
