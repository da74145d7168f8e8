-- ===== src/Logging.antt =====
-- internal/logging/chain_logger.go: the classes of failures, which decide whether a request is tried
-- at another node. Throttle has the line on the rate limit; the other methods of the file only print.
pub mod Throttle
use Prim.Native.String.{String}
use text.Mathlib.Text.{◌==◌ as str_eq, find?}
use llmproxy.Common.{
  ◌≡◌, refl, Bool-cases, inl, inr, Bool, true, false, not, ◌&&◌, ◌||◌, Option, none, some,
  if◌then◌else◌,
}
use llmproxy.Common.Int.{ℤ, pos, leb_ℤ, eqb_ℤ}
use llmproxy.Domain.{GoError}

-- `strings.Contains(s, part)`
abbrev contains : String → String → Bool
contains s part = elim (find? s part) [ none ↦ false | some _ ↦ true ]

unfoldable pub classify_error : Option GoError → ℤ → String
classify_error none status_code =
    if leb_ℤ (pos 500) status_code
    then "upstream_5xx"
    else if eqb_ℤ status_code (pos 429)
    then "upstream_429"
    else if leb_ℤ (pos 400) status_code
    then "upstream_4xx"
    else "unknown"
classify_error (some err) status_code =
    if err.deadline_exceeded
    then "upstream_timeout"
    else if err.cancelled
    then "client_cancelled"
    else if contains err.text "connection refused"
    then "connection_refused"
    else if contains err.text "connection reset"
    then "connection_reset"
    else if contains err.text "no such host"
    then "dns_error"
    else "unknown_error"

unfoldable pub is_retryable : String → Bool
is_retryable error_type =
    str_eq error_type "upstream_timeout"
    || str_eq error_type "upstream_5xx"
    || str_eq error_type "upstream_429"
    || str_eq error_type "connection_refused"
    || str_eq error_type "connection_reset"
    || str_eq error_type "dns_error"

-- A status alone is worth another try exactly if it is 500 or above, or 429.
retryable_status :
    (status_code : ℤ)
    → is_retryable (classify_error none status_code)
      ≡ (leb_ℤ (pos 500) status_code || eqb_ℤ status_code (pos 429))
unfolding is_retryable classify_error
retryable_status status_code = elim (Bool-cases (leb_ℤ (pos 500) status_code)) [
  | inl server ↦ rw server refl
  | inr no_server ↦ rw no_server (elim (Bool-cases (eqb_ℤ status_code (pos 429))) [
    | inl many ↦ rw many refl
    | inr few ↦ rw few (elim (Bool-cases (leb_ℤ (pos 400) status_code)) [
      | inl client ↦ rw client refl
      | inr good ↦ rw good refl
    ])
  ])
]

-- An error of the exchange is worth another try if it is the deadline, or if the client did not
-- cancel and the connection could not be made or broke.
abbrev pub is_worth_retry : GoError → Bool
is_worth_retry err =
    err.deadline_exceeded
    || (not err.cancelled
        && (contains err.text "connection refused"
            || contains err.text "connection reset"
            || contains err.text "no such host"))

-- An attempt is tried again exactly in these cases: it ended with an error that is the deadline, or
-- one that is not a cancellation by the client and names a connection refused or reset or a host
-- that is not found; or it ended without an error and with a status of 500 or above, or 429.
pub retryable_outcome :
    (outcome : Option GoError) (status_code : ℤ)
    → is_retryable (classify_error outcome status_code) ≡ (elim outcome [
      | none ↦ leb_ℤ (pos 500) status_code || eqb_ℤ status_code (pos 429)
      | some err ↦ is_worth_retry err
    ])
unfolding is_retryable classify_error
retryable_outcome none status_code = retryable_status status_code
retryable_outcome (some err) status_code = elim (Bool-cases err.deadline_exceeded) [
  | inl late ↦ rw late refl
  | inr in_time ↦ rw in_time (elim (Bool-cases err.cancelled) [
    | inl gone ↦ rw gone refl
    | inr stays ↦ rw stays (elim (Bool-cases (contains err.text "connection refused")) [
      | inl refused ↦ rw refused refl
      | inr fine ↦ rw fine (elim (Bool-cases (contains err.text "connection reset")) [
        | inl reset ↦ rw reset refl
        | inr whole ↦ rw whole (elim (Bool-cases (contains err.text "no such host")) [
          | inl lost ↦ rw lost refl
          | inr known ↦ rw known refl
        ])
      ])
    ])
  ])
]
