-- ===== src/ClientApi/Settling.antt =====
-- internal/api/openai.go: what `forward` does after its `select`. What is charged to the limiter by a
-- goroutine of its own is charged at once, and an error of it is dropped as the code does.
use Prim.Native.String.{String}
use text.Mathlib.Text.{◌==◌ as str_eq}
use llmproxy.Common.{ℕ, true, ◌&&◌, not, Option, none, some, length, ◌==◌, if◌then◌else◌}
use llmproxy.Common.Int.{pos, ltb_ℤ, leb_ℤ}
use llmproxy.Common.Eq.{Bytes, string_instance}
use llmproxy.Json.{Value}
use llmproxy.Domain.{ApiKey, ExecutionResult, RequestLog, DetailLog}
use llmproxy.Cache.{Cache}
use llmproxy.Http.{ResponseWriter}
use llmproxy.Middleware.{write_error}
use llmproxy.Metrics.{inc_requests, add_tokens}
use llmproxy.AsyncLogger.{async_log, async_log_detail}
use llmproxy.RateLimit.{record_tokens}
use llmproxy.ClientApi.{
  ClientRequest, Service, Demand, Wake, finished, deadline, cancelled, TokenCount,
}

unfoldable pub own_tokens : ExecutionResult → TokenCount
own_tokens result = record {
  prompt = result.prompt_tokens;
  completion = result.completion_tokens;
  total = result.total_tokens;
}

-- The counts of the result, or those of the usage in its body; `usage_of` decodes that, and fails
-- with `none`.
unfoldable pub settled_tokens : (Bytes → Option TokenCount) → ExecutionResult → TokenCount
unfolding own_tokens
settled_tokens usage_of result =
    if leb_ℤ result.total_tokens (pos 0) && not (length result.body == 0)
    then elim (usage_of result.body) [
      | none ↦ own_tokens result
      | some usage ↦ if ltb_ℤ (pos 0) usage.total then usage else own_tokens result
    ]
    else own_tokens result

unfoldable pub request_log_of :
    ClientRequest → ApiKey → Demand → ExecutionResult → TokenCount → ℕ → RequestLog
request_log_of cr key d result tokens duration_ms = record {
  id = cr.api.request_id;
  session_id = cr.api.session_id;
  timestamp = cr.start_time;
  api_key_id = key.id;
  model_alias = d.model_alias;
  node_id = result.final_node_id;
  actual_model = "";
  prompt_tokens = tokens.prompt;
  completion_tokens = tokens.completion;
  total_tokens = tokens.total;
  duration_ms = duration_ms;
  status_code = result.status_code;
  stream = d.stream;
  error_msg = result.error;
  has_detail = true;
}

unfoldable pub detail_log_of : ClientRequest → Demand → ExecutionResult → DetailLog
detail_log_of cr d result = record {
  trace_id = cr.api.request_id;
  session_id = cr.api.session_id;
  timestamp = cr.start_time;
  request_body = d.raw;
  response_body = result.body;
}

module _ {S : Type 0} (c : Cache S) where
  -- The tokens go to the metrics and, with the clock at `now`, to the limiter.
  unfoldable pub charge : ℕ → String → String → TokenCount → Service S → Service S
  charge now key_id alias tokens svc =
      if ltb_ℤ (pos 0) tokens.total
      then record svc {
        metrics =
            add_tokens alias "completion" tokens.completion
              (add_tokens alias "prompt" tokens.prompt svc.metrics);
        counters = (record_tokens c now key_id alias tokens.total svc.counters).0;
      }
      else svc

module _ {S : Type 0} (c : Cache S) (usage_of : Bytes → Option TokenCount) where
  unfoldable pub settle :
      ClientRequest → ApiKey → Demand → ℕ → ℕ → ExecutionResult → Service S → Service S
  unfolding settled_tokens charge request_log_of detail_log_of
  settle cr key d now duration_ms result svc =
      let tokens = settled_tokens usage_of result in
      let status = if str_eq result.error "" then "success" else "error" in
      let counted = record svc { metrics = inc_requests d.model_alias status svc.metrics } in
      let charged = charge c now key.id d.model_alias tokens counted in
      record charged {
        log =
            async_log_detail (detail_log_of cr d result)
              (async_log (request_log_of cr key d result tokens duration_ms) charged.log);
      }

  unfoldable pub forward_wake :
      (Value → Bytes)
      → ClientRequest
      → ApiKey
      → Demand
      → ℕ
      → ℕ
      → Wake
      → Service S
      → ResponseWriter
      → Service S × ResponseWriter
  unfolding settle
  forward_wake encode cr key d now duration_ms (finished result) svc w =
      (settle cr key d now duration_ms result svc, w)
  forward_wake encode cr key d now duration_ms deadline svc w = (
    record svc { metrics = inc_requests d.model_alias "timeout" svc.metrics },
    write_error encode (pos 504) "request timeout after waiting in queue" w,
  )
  forward_wake encode cr key d now duration_ms cancelled svc w =
      (record svc { metrics = inc_requests d.model_alias "cancelled" svc.metrics }, w)
