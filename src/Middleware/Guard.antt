-- ===== src/Middleware/Guard.antt =====
-- Which requests get past the middleware to a handler.
use Prim.Native.String.{String}
use text.Mathlib.Text.{◌==◌ as str_eq}
use llmproxy.Common.{
  ℕ, ◌<◌, ◌≡◌, refl, ◌∙◌, false, ◌||◌, not, List, Option, some, ◌⊎◌, inl, inr, arith, length, ◌==◌,
  if_prove, Bool-cases, Option-cases,
}
use llmproxy.Common.Int.{pos}
use llmproxy.Common.Eq.{Bytes, bytes_eq, bytes_eq_sound, codes}
use llmproxy.Json.{Value}
use llmproxy.Domain.{ApiKey, Result}
use llmproxy.Auth.{extract_token, authenticate}
use llmproxy.Http
use llmproxy.Http.{ResponseWriter}
use llmproxy.Middleware.{
  ApiRequest, Handler, header_get, chain, auth_middleware, admin_token_of, admin_auth_middleware,
  cors_middleware, trace_middleware, access_log_middleware, write_error, refusal_message,
  cors_headers, request_id_of, proxy_stack, admin_stack,
}

-- The answer is the same whatever the handler is: the handler is not asked.
abbrev pub Ignores : (Handler → ResponseWriter) → Type 0
Ignores f = (answer : ResponseWriter) × ((h : Handler) → f h ≡ answer)

-- The answer is what the handler makes of a request with the property.
abbrev pub PassesOn : (ApiRequest → Type 0) → (Handler → ResponseWriter) → Type 0
PassesOn P f = (r : ApiRequest) × (w : ResponseWriter) × P r × ((h : Handler) → f h ≡ h r w)

sum-cases : {A B : Type 0} (s : A ⊎ B) → ((a : A) × (s ≡ inl a)) ⊎ ((b : B) × (s ≡ inr b))
sum-cases (inl a) = inl (a, refl)
sum-cases (inr b) = inr (b, refl)

-- The request's token is that of the administrator, and there is one.
abbrev pub Administers : Bytes → ApiRequest → ApiRequest → Type 0
Administers admin_token r r' = (admin_token_of r ≡ admin_token) × (0 < length admin_token)

-- A handler is given the key that the storage has for the token of the client's request.
abbrev pub Authenticated : (Bytes → Result (Option ApiKey)) → ℕ → ApiRequest → ApiRequest → Type 0
Authenticated get_key now r r' =
    (token : Bytes) × (key : ApiKey) × (extract_token (codes (header_get "Authorization" r.header))
      ≡ some token)
    × (authenticate get_key now token ≡ inr key)
    × (r'.api_key ≡ some key)

module _ (encode : Value → Bytes) (origins : List String) (fresh_id : String) where
  auth-guard :
      (get_key : Bytes → Result (Option ApiKey)) (now : ℕ) (r : ApiRequest) (w : ResponseWriter)
      → Ignores (λ h. auth_middleware encode get_key now h r w)
        ⊎ PassesOn (Authenticated get_key now r) (λ h. auth_middleware encode get_key now h r w)
  unfolding auth_middleware
  auth-guard get_key now r w =
      elim (Option-cases (extract_token (codes (header_get "Authorization" r.header)))) [
        | inl e ↦ inl (
          write_error encode (pos 401) "missing or invalid Authorization header" w,
          λ h. rw (e, auth_middleware) refl,
        )
        | inr (token, e) ↦ elim (sum-cases (authenticate get_key now token)) [
          | inl (refusal, f) ↦ inl (
            write_error encode (pos 401) (refusal_message encode refusal) w,
            λ h. rw (e, f, auth_middleware) refl,
          )
          | inr (key, f) ↦ inr (
            record r { api_key = some key },
            w,
            (token, key, e, f, refl),
            λ h. rw (e, f, auth_middleware) refl,
          )
        ]
      ]

  admin-guard :
      (admin_token : Bytes) (r : ApiRequest) (w : ResponseWriter)
      → Ignores (λ h. admin_auth_middleware encode admin_token h r w)
        ⊎ PassesOn (Administers admin_token r) (λ h. admin_auth_middleware encode admin_token h r w)
  unfolding admin_auth_middleware
  admin-guard admin_token r w =
      let token = admin_token_of r in
      elim (Bool-cases (length admin_token == 0)) [
        | inl e ↦ inl (
          write_error encode (pos 403) "admin access disabled: no admin_token configured" w,
          λ h. rw (e, admin_auth_middleware) refl,
        )
        | inr e ↦ elim (Bool-cases (length token == 0 || not (bytes_eq token admin_token))) [
          | inl f ↦ inl (
            write_error encode (pos 401) "unauthorized" w,
            λ h. rw (e, f, admin_auth_middleware) refl,
          )
          | inr f ↦ inr (
            r,
            w,
            (bytes_eq_sound _ admin_token (ground (arith, f)), ground (arith, e)),
            λ h. rw (e, f, admin_auth_middleware) refl,
          )
        ]
      ]

  -- What stands before the check of either stack: a preflight is answered, any other request goes
  -- on with new headers and identifiers, and with its own headers and token.
  abbrev traced : ApiRequest → ApiRequest
  traced r = record r {
    request_id = request_id_of fresh_id r;
    session_id = header_get "X-Session-Id" r.header;
  }

  abbrev headed : ApiRequest → ResponseWriter → ResponseWriter
  headed r w = record w {
    header =
        Http.header_set "X-Request-Id" (request_id_of fresh_id r)
          (cors_headers origins (header_get "Origin" r.header) w.header);
  }

  abbrev before : (Handler → Handler) → ApiRequest → ResponseWriter → Handler → ResponseWriter
  before check r w h =
      cors_middleware origins (trace_middleware fresh_id (access_log_middleware (check h))) r w

  before-onward :
      (check : Handler → Handler) (h : Handler) (r : ApiRequest) (w : ResponseWriter)
      → str_eq r.method "OPTIONS" ≡ false
      → before check r w h ≡ check h (traced r) (headed r w)
  unfolding cors_middleware trace_middleware access_log_middleware
  before-onward check h r w e =
      if_prove (λ z. z ≡ check h (traced r) (headed r w)) (str_eq r.method "OPTIONS")
        (λ f. cc (e, f)) (λ _. refl)

  before-guard :
      (check : Handler → Handler) (P : ApiRequest → ApiRequest → Type 0)
      → ((r : ApiRequest) (w : ResponseWriter)
          → Ignores (λ h. check h r w) ⊎ PassesOn (P r) (λ h. check h r w))
      → (r : ApiRequest) (w : ResponseWriter) → ((r' : ApiRequest) → P (traced r) r' → P r r')
      → Ignores (before check r w) ⊎ PassesOn (P r) (before check r w)
  unfolding cors_middleware
  before-guard check P guard r w same = elim (Bool-cases (str_eq r.method "OPTIONS")) [
    | inl e ↦ inl (
      Http.write_header (pos 204)
          (record w { header = cors_headers origins (header_get "Origin" r.header) w.header }),
      λ h. rw (e, cors_middleware) refl,
    )
    | inr e ↦ elim (guard (traced r) (headed r w)) [
      | inl (answer, k) ↦ inl (answer, λ h. before-onward check h r w e ∙ k h)
      | inr (r', w', p, k) ↦ inr (r', w', same r' p, λ h. before-onward check h r w e ∙ k h)
    ]
  ]

  -- Either the stack of the client API answers a request without its handler, or the handler gets a
  -- request with the key as which `Authenticate` lets the token of the client's request through.
  pub proxy_stack-guard :
      (get_key : Bytes → Result (Option ApiKey)) (now : ℕ) (r : ApiRequest) (w : ResponseWriter)
      → Ignores (λ h. proxy_stack encode origins fresh_id get_key now h r w)
        ⊎ PassesOn
            (Authenticated get_key now r)
            (λ h. proxy_stack encode origins fresh_id get_key now h r w)
  unfolding proxy_stack chain
  proxy_stack-guard get_key now r w =
      before-guard (auth_middleware encode get_key now) (Authenticated get_key now)
        (auth-guard get_key now) r w (λ r' p. p)

  -- Either the stack of the administrator's API answers a request without its handler, or there is
  -- an administrator's token that is not empty and the request has it.
  pub admin_stack-guard :
      (admin_token : Bytes) (r : ApiRequest) (w : ResponseWriter)
      → Ignores (λ h. admin_stack encode origins fresh_id admin_token h r w)
        ⊎ PassesOn
            (Administers admin_token r)
            (λ h. admin_stack encode origins fresh_id admin_token h r w)
  unfolding admin_stack chain admin_token_of
  admin_stack-guard admin_token r w =
      before-guard (admin_auth_middleware encode admin_token) (Administers admin_token)
        (admin-guard admin_token) r w (λ r' p. p)
