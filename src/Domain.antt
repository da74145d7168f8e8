-- ===== src/Domain.antt =====
-- internal/domain/types.go and worker.go: the data that the components exchange.
-- Times are nanoseconds or seconds on one clock, as the field says; a pointer that may be nil is an
-- `Option`. An error value is the text it prints and what `errors.Is` finds in its chain.
use Prim.Native.String.{String, ◌++◌ as ◌<>◌}
use llmproxy.Common.{◌≡◌, ◌⊎◌, refl, inl, inr, ℕ, Bool, List, Option}
use llmproxy.Common.Int.{ℤ}
use llmproxy.Json.{Fields}

-- `EndpointType` is a string; these are its named values.
abbrev pub EndpointType : Type 0
EndpointType = String

abbrev pub endpoint_chat : EndpointType
endpoint_chat = "chat"

abbrev pub endpoint_embedding : EndpointType
endpoint_embedding = "embedding"

abbrev pub endpoint_responses : EndpointType
endpoint_responses = "responses"

abbrev pub endpoint_all : EndpointType
endpoint_all = "all"

-- One upstream backend; `timeout_sec` may be negative, `override` is a decoded TOML table.
pub record ModelNode : Type 0 where
  pub id : String
  pub name : String
  pub aliases : List String
  pub base_url : String
  pub api_key : String
  pub model_name : String
  pub endpoint_type : EndpointType
  pub tpm : ℤ
  pub rpm : ℤ
  pub override : Fields
  pub timeout_sec : ℤ
  pub enabled : Bool

pub record RateLimitConfig : Type 0 where
  pub tpm : ℤ
  pub rpm : ℤ
  pub max_retries : ℤ

pub record RateLimitStatus : Type 0 where
  pub rpm_current : ℤ
  pub rpm_limit : ℤ
  pub tpm_current : ℤ
  pub tpm_limit : ℤ
  pub block_reason : String

pub record ApiKey : Type 0 where
  pub id : String
  pub key : String
  pub name : String
  pub enabled : Bool
  pub tpm : ℤ
  pub rpm : ℤ
  pub allow_models : List String
  pub expires_at : Option ℕ

-- How an error of the transport, of the context or of the program itself looks to its readers.
pub record GoError : Type 0 where
  pub deadline_exceeded : Bool
  pub cancelled : Bool
  pub text : String

-- A value or an error.
pub data Result {ℓ} (A : Type ℓ) : Type ℓ where
  ok : A → Result A
  failed : GoError → Result A

pub Result-cases {ℓ} :
    {A : Type ℓ} (r : Result A) → ((a : A) × (r ≡ ok a)) ⊎ ((e : GoError) × (r ≡ failed e))
Result-cases (ok a) = inl (a, refl)
Result-cases (failed e) = inr (e, refl)

-- `fmt.Errorf("prefix: %w", err)`: `errors.Is` still sees what is wrapped.
unfoldable pub wrap : String → GoError → GoError
wrap prefix err = record err { text = prefix <> err.text }

-- `AttemptLog` and `ExecutionResult` without the durations, which nothing reads but a print.
pub record AttemptLog : Type 0 where
  pub attempt : ℕ
  pub node_id : String
  pub node_name : String
  pub status_code : ℤ
  pub error_type : String
  pub error : Option GoError
  pub prompt_tokens : ℤ
  pub completion_tokens : ℤ

pub record ExecutionResult : Type 0 where
  pub status_code : ℤ
  pub body : List ℕ
  pub prompt_tokens : ℤ
  pub completion_tokens : ℤ
  pub total_tokens : ℤ
  pub final_node_id : String
  pub attempts : List AttemptLog
  pub error : String
  pub error_type : String

-- The entries of the log; times and durations are milliseconds.
pub record RequestLog : Type 0 where
  pub id : String
  pub session_id : String
  pub timestamp : ℕ
  pub api_key_id : String
  pub model_alias : String
  pub node_id : String
  pub actual_model : String
  pub prompt_tokens : ℤ
  pub completion_tokens : ℤ
  pub total_tokens : ℤ
  pub duration_ms : ℕ
  pub status_code : ℤ
  pub stream : Bool
  pub error_msg : String
  pub has_detail : Bool

pub record DetailLog : Type 0 where
  pub trace_id : String
  pub session_id : String
  pub timestamp : ℕ
  pub request_body : List ℕ
  pub response_body : List ℕ

pub record LogStats : Type 0 where
  pub total_requests : ℤ
  pub prompt_tokens : ℤ
  pub completion_tokens : ℤ
  pub total_tokens : ℤ

-- What the administrator asks of the log; an empty text is no condition.
pub record LogFilter : Type 0 where
  pub api_key_id : String
  pub model_alias : String
  pub node_id : String
  pub session_id : String
  pub status_code : ℤ
  pub error_only : Bool
  pub keyword : String
  pub start_time : Option ℕ
  pub end_time : Option ℕ
  pub page : ℤ
  pub page_size : ℤ

pub record TimeSeriesPoint : Type 0 where
  pub timestamp : ℕ
  pub requests : ℤ
  pub prompt_tokens : ℤ
  pub completion_tokens : ℤ
  pub total_tokens : ℤ

pub record TopEntity : Type 0 where
  pub name : String
  pub requests : ℤ
  pub total_tokens : ℤ
  pub prompt_tokens : ℤ
  pub completion_tokens : ℤ
  pub avg_duration_ms : ℤ
  pub avg_tokens : ℤ
