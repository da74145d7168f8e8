-- ===== src/Auth.antt =====
-- internal/auth/auth.go: the bearer token of a request, the API key that it stands for, and the
-- models that the key may use. The storage that looks a token up is a parameter.
use mathlib.Core.Bool.{Bool-set}
use mathlib.Core.List.{not-mem-nil, mem-cons_self, mem-cons_of_mem, eq-or-mem_of_mem-cons}
use mathlib.Core.Logic.Or
use mathlib.Core.Option.{some-injective}
use Prim.Native.String.{String}
use text.Mathlib.Text.{◌==◌ as str_eq}
use text.Mathlib.TextEquality.{eq_iff}
use llmproxy.Common.{
  ℕ, ◌<◌, ◌≤◌, ◌≡◌, ◌↔◌, ◌⊎◌, refl, sym, ap, ◌∙◌, Bool, true, false, not, List, [], ◌∷◌, ◌++◌,
  Option, none, some, Mem, arith, length, ltb, ◌==◌, if◌then◌else◌, if_prove, Option-cases, inl,
  inr,
}
use llmproxy.Common.Eq.{Bytes, codes}
use llmproxy.Domain.{ApiKey, Result, ok, failed}
use llmproxy.Stream.{after_prefix}

-- `ErrUnauthorized` and `ErrExpired`
pub data Refusal : Type 0 where
  unauthorized expired_key : Refusal

-- The argument is what `Get("Authorization")` yields, the empty text if there is no such header.
unfoldable pub extract_token : Bytes → Option Bytes
unfolding after_prefix
extract_token header = elim (after_prefix (codes "Bearer ") header) [
  | none ↦ none
  | some token ↦ if length token == 0 then none else some token
]

-- `time.Now().After(*key.ExpiresAt)`
unfoldable pub is_expired : ℕ → Option ℕ → Bool
is_expired now none = false
is_expired now (some t) = ltb t now

unfoldable pub judge : ℕ → Result (Option ApiKey) → Refusal ⊎ ApiKey
unfolding is_expired
judge now (failed e) = inl unauthorized
judge now (ok none) = inl unauthorized
judge now (ok (some key)) =
    if not key.enabled
    then inl unauthorized
    else if is_expired now key.expires_at
    then inl expired_key
    else inr key

unfoldable pub authenticate : (Bytes → Result (Option ApiKey)) → ℕ → Bytes → Refusal ⊎ ApiKey
unfolding judge
authenticate get_key now token = judge now (get_key token)

model_listed : String → List String → Bool
model_listed model [] = false
model_listed model (a ∷ as_) =
    let rest = model_listed model as_ in if str_eq a model then true else rest

unfoldable pub check_model_allowed : ApiKey → String → Bool
unfolding model_listed
check_model_allowed key model =
    if length key.allow_models == 0 then true else model_listed model key.allow_models

after_prefix_iff :
    (prefix line rest : Bytes) → (after_prefix prefix line ≡ some rest) ↔ (line ≡ prefix ++ rest)
unfolding after_prefix
after_prefix_iff [] line rest = (λ h. some-injective _ _ h, λ h. ap some h)
after_prefix_iff (b ∷ prefix) [] rest = (λ h. cc h, λ h. cc h)
after_prefix_iff (b ∷ prefix) (c ∷ line) rest =
    let ih = after_prefix_iff prefix line rest in
    (λ h. ground (arith, h, ih), λ h. ground (arith, h, ih))

-- The token of a header is found exactly if the header is the scheme and a token that is not empty.
pub extract_token_iff :
    (header token : Bytes)
    → (extract_token header ≡ some token)
      ↔ ((header ≡ codes "Bearer " ++ token) × (0 < length token))
unfolding extract_token
extract_token_iff header token =
    let split = after_prefix_iff (codes "Bearer ") header in
    elim (Option-cases (after_prefix (codes "Bearer ") header)) [
      | inl e ↦ (rw (e, extract_token) (λ h. cc h), λ h. absurd (cc (e, (split token).1 h.0)))
      | inr (t, e) ↦ (
        rw (e, extract_token)
            (if_prove
              (λ z. z ≡ some token → (header ≡ codes "Bearer " ++ token) × (0 < length token))
              (length t == 0) (λ _ h. cc h)
              (λ some_byte h.
                let same = some-injective _ _ h in
                ((split token).0 (e ∙ ap some same), ground (arith, some_byte, ap length same)))),
        λ h.
            let same : t ≡ token = some-injective _ _ (sym e ∙ (split token).1 h.0) in
            rw (e, extract_token)
              (if_prove (λ z. z ≡ some token) (length t == 0)
                (λ empty. absurd (ground (arith, empty, h.1, ap length same))) (λ _. ap some same)),
      )
    ]

abbrev Granted : Result (Option ApiKey) → ℕ → ApiKey → Type 0
Granted r now key =
    (r ≡ ok (some key)) × (key.enabled ≡ true) × (is_expired now key.expires_at ≡ false)

judge_iff :
    (r : Result (Option ApiKey)) (now : ℕ) (key : ApiKey)
    → (judge now r ≡ inr key) ↔ Granted r now key
unfolding judge
judge_iff (failed e) now key = (λ h. cc h, λ h. cc h.0)
judge_iff (ok none) now key = (λ h. cc h, λ h. cc h.0)
judge_iff (ok (some k)) now key = (
  if_prove (λ z. z ≡ inr key → Granted (ok (some k)) now key) (not k.enabled) (λ _ h. cc h)
      (λ on.
        if_prove (λ z. z ≡ inr key → Granted (ok (some k)) now key) (is_expired now k.expires_at)
          (λ _ h. cc h)
          (λ young h.
            let same : k ≡ key = cc h in
            (ap (λ z. ok (some z)) same, rw (← same) (ground (arith, on)), rw (← same) young))),
  λ h. let same : k ≡ key = cc h.0 in rw same (rw (h.1, h.2) refl),
)

-- Whatever the time of expiry is, it is not before now.
abbrev pub InTime : ℕ → Option ℕ → Type 0
InTime now expires_at = (t : ℕ) → expires_at ≡ some t → now ≤ t

is_expired_iff : (now : ℕ) (e : Option ℕ) → (is_expired now e ≡ false) ↔ InTime now e
unfolding is_expired
is_expired_iff now none = (λ _ t h. cc h, λ _. refl)
is_expired_iff now (some t) = (
  λ young u h. let same : t ≡ u = some-injective t u h in ground (arith, young, same),
  λ h. let later : now ≤ t = h t refl in ground (arith, later),
)

-- A request is authenticated as a key exactly if the storage has that key for the token, the key is
-- enabled, and the key has no time of expiry or one that is now or later.
pub authenticate_iff :
    (get_key : Bytes → Result (Option ApiKey)) (now : ℕ) (token : Bytes) (key : ApiKey)
    → (authenticate get_key now token ≡ inr key)
      ↔ ((get_key token ≡ ok (some key)) × (key.enabled ≡ true) × InTime now key.expires_at)
unfolding authenticate
authenticate_iff get_key now token key =
    let judged = judge_iff (get_key token) now key in
    let young = is_expired_iff now key.expires_at in
    (
      λ h. let (found, on, live) = judged.0 h in (found, on, young.0 live),
      λ h. judged.1 (h.0, h.1, young.1 h.2),
    )

model_listed_iff :
    (model : String) (names : List String) → (model_listed model names ≡ true) ↔ Mem model names
unfolding model_listed
model_listed_iff model [] = (λ h. cc h, λ h. absurd (not-mem-nil h))
model_listed_iff model (a ∷ names) =
    let rest = model_listed_iff model names in
    if_prove (λ z. (z ≡ true) ↔ Mem model (a ∷ names)) (str_eq a model)
      (λ same. (λ _. rw ((eq_iff a model).0 same) mem-cons_self, λ _. refl))
      (λ other. (
        λ h. mem-cons_of_mem a (rest.0 h),
        λ h.
            Or.elim (Bool-set _ _) (eq-or-mem_of_mem-cons h)
              (λ same. absurd (cc (other, (eq_iff a model).1 (sym same)))) rest.1,
      ))

-- A key may use a model exactly if it lists no models or lists that one.
pub check_model_allowed_iff :
    (key : ApiKey) (model : String)
    → (check_model_allowed key model ≡ true)
      ↔ ((length key.allow_models ≡ 0) ⊎ Mem model key.allow_models)
unfolding check_model_allowed
check_model_allowed_iff key model =
    let listed = model_listed_iff model key.allow_models in
    if_prove (λ z. (z ≡ true) ↔ ((length key.allow_models ≡ 0) ⊎ Mem model key.allow_models))
      (length key.allow_models == 0) (λ empty. (λ _. inl (ground (arith, empty)), λ _. refl))
      (λ some_listed. (
        λ h. inr (listed.0 h),
        λ h. elim h [
          | inl empty ↦ absurd (ground (arith, some_listed, empty))
          | inr there ↦ listed.1 there
        ],
      ))
