-- ===== src/Middleware.antt =====
-- internal/api/middleware.go and context.go: what stands before the handlers of the HTTP server. A
-- handler is a function of the request and of the client's writer; the values that the context of a
-- request carries are fields of it. The JSON encoder and the generator of identifiers are
-- parameters. The access log only prints.
pub mod Guard
use Prim.Native.String.{String}
use text.Mathlib.Text.{◌==◌ as str_eq}
use llmproxy.Common.{
  ℕ, ◌≡◌, refl, ap, Bool, true, false, ◌&&◌, ◌||◌, not, List, [], ◌∷◌, ◌++◌, Option, none, some,
  ◌⊎◌, inl, inr, arith, length, ◌==◌, if◌then◌else◌, if_prove,
}
use llmproxy.Common.Int.{ℤ, pos, eqb_ℤ}
use llmproxy.Common.Eq.{Bytes, bytes_eq, codes}
use llmproxy.Json.{Value, Fields, str, num, obj, end, field}
use llmproxy.Domain.{ApiKey, GoError, Result}
use llmproxy.Auth.{Refusal, unauthorized, expired_key, extract_token, authenticate}
use llmproxy.Http
use llmproxy.Http.{Header, ResponseWriter, header_set, values}

-- `query_token` is `r.URL.Query().Get("token")`; `api_key` is that of the `ProxyContext`.
pub record ApiRequest : Type 0 where
  pub method : String
  pub header : Header
  pub query_token : Bytes
  pub request_id : String
  pub session_id : String
  pub api_key : Option ApiKey

abbrev pub Handler : Type 0
Handler = ApiRequest → ResponseWriter → ResponseWriter

-- `Header.Get`
abbrev pub header_get : String → Header → String
header_get k h = elim (values k h) [ [] ↦ "" | ◌∷◌ v vs ↦ v ]

-- `chain`: the first middleware is the outermost.
unfoldable pub chain : Handler → List (Handler → Handler) → Handler
chain h [] = h
chain h (m ∷ ms) = m (chain h ms)

-- `strings.ToLower(http.StatusText(status))` of the statuses that the server answers with.
unfoldable pub status_text : ℤ → String
status_text status =
    if eqb_ℤ status (pos 400)
    then "bad request"
    else if eqb_ℤ status (pos 401)
    then "unauthorized"
    else if eqb_ℤ status (pos 403)
    then "forbidden"
    else if eqb_ℤ status (pos 404)
    then "not found"
    else if eqb_ℤ status (pos 405)
    then "method not allowed"
    else if eqb_ℤ status (pos 500)
    then "internal server error"
    else if eqb_ℤ status (pos 503)
    then "service unavailable"
    else if eqb_ℤ status (pos 504)
    then "gateway timeout"
    else ""

-- The token of the header, or else that of the query, which is none if it is empty.
unfoldable pub admin_token_of : ApiRequest → Bytes
admin_token_of r = elim (extract_token (codes (header_get "Authorization" r.header))) [
  | none ↦ r.query_token
  | some token ↦ token
]

module _ (encode : Value → Bytes) where
  unfoldable pub write_json : ℤ → Value → ResponseWriter → ResponseWriter
  write_json status v w =
      let started =
        Http.write_header status
          (record w { header = header_set "Content-Type" "application/json" w.header }) in
      (Http.write (encode v) started).0

  unfoldable pub write_error : ℤ → String → ResponseWriter → ResponseWriter
  unfolding write_json status_text
  write_error status msg w =
      write_json status
        (obj (
          field "error"
            (obj (
              field "message" (str msg)
                (field "type" (str (status_text status)) (field "code" (num status 0) end))))
            end))
        w

  -- What a refused key is answered.
  refusal_message : Refusal → String
  refusal_message expired_key = "api key expired"
  refusal_message unauthorized = "unauthorized"

  unfoldable pub auth_middleware : (Bytes → Result (Option ApiKey)) → ℕ → Handler → Handler
  unfolding refusal_message
  auth_middleware get_key now next r w =
      elim (extract_token (codes (header_get "Authorization" r.header))) [
        | none ↦ write_error (pos 401) "missing or invalid Authorization header" w
        | some token ↦ elim (authenticate get_key now token) [
          | inl refusal ↦ write_error (pos 401) (refusal_message refusal) w
          | inr key ↦ next (record r { api_key = some key }) w
        ]
      ]

  unfoldable pub admin_auth_middleware : Bytes → Handler → Handler
  unfolding admin_token_of
  admin_auth_middleware admin_token next r w =
      let token = admin_token_of r in
      if length admin_token == 0
      then write_error (pos 403) "admin access disabled: no admin_token configured" w
      else if length token == 0 || not (bytes_eq token admin_token)
      then write_error (pos 401) "unauthorized" w
      else next r w

is_listed : String → List String → Bool
is_listed o [] = false
is_listed o (x ∷ xs) = str_eq x o || is_listed o xs

-- `len(origins) == 1 && origins[0] == "*"`
unfoldable pub allows_all : List String → Bool
allows_all (o ∷ []) = str_eq o "*"
allows_all _ = false

unfoldable pub cors_headers : List String → String → Header → Header
unfolding is_listed allows_all
cors_headers origins origin h =
    if not (str_eq origin "") && (allows_all origins || is_listed origin origins)
    then header_set "Access-Control-Max-Age" "86400" (
        header_set "Access-Control-Allow-Headers" "Content-Type,Authorization,X-Session-Id" (
          header_set "Access-Control-Allow-Methods" "GET,POST,PUT,DELETE,OPTIONS"
            (header_set "Access-Control-Allow-Origin" origin h)))
    else h

unfoldable pub cors_middleware : List String → Handler → Handler
unfolding cors_headers
cors_middleware origins next r w =
    let w' = record w { header = cors_headers origins (header_get "Origin" r.header) w.header } in
    if str_eq r.method "OPTIONS" then Http.write_header (pos 204) w' else next r w'

-- `fresh_id` is what `auth.GenerateID` yields.
abbrev pub request_id_of : String → ApiRequest → String
request_id_of fresh_id r =
    if str_eq (header_get "X-Request-Id" r.header) ""
    then fresh_id
    else header_get "X-Request-Id" r.header

unfoldable pub trace_middleware : String → Handler → Handler
trace_middleware fresh_id next r w =
    let rid = request_id_of fresh_id r in
    next (record r { request_id = rid; session_id = header_get "X-Session-Id" r.header })
      (record w { header = header_set "X-Request-Id" rid w.header })

-- The stacks of internal/api/server.go, for the API of the clients and for that of the
-- administrator. The access log hands everything on.
unfoldable pub access_log_middleware : Handler → Handler
access_log_middleware next r w = next r w

module _ (encode : Value → Bytes) (origins : List String) (fresh_id : String) where
  unfoldable pub proxy_stack : (Bytes → Result (Option ApiKey)) → ℕ → Handler → Handler
  proxy_stack get_key now h = chain h (
      cors_middleware origins
      ∷ trace_middleware fresh_id
      ∷ access_log_middleware
      ∷ auth_middleware encode get_key now
      ∷ [])

  unfoldable pub admin_stack : Bytes → Handler → Handler
  admin_stack admin_token h = chain h (
      cors_middleware origins
      ∷ trace_middleware fresh_id
      ∷ access_log_middleware
      ∷ admin_auth_middleware encode admin_token
      ∷ [])
