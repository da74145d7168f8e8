-- ===== src/Worker.antt =====
-- internal/worker/pool.go: how a worker serves one request. The forwarding of an attempt is a
-- parameter here, which internal/proxy fills; so are the draws of the random generator and what the
-- request's context says before each attempt. Durations, prints and the pause before another attempt
-- are left out.
pub mod Answers
pub mod Attempts
pub mod Delivery
pub mod Outcomes
pub mod Whole
use Prim.Native.String.{String}
use text.Mathlib.Text.{◌==◌ as str_eq}
use llmproxy.Common.{
  ℕ, zero, suc, ◌+◌, ◌*◌, Bool, true, false, ◌&&◌, ◌||◌, not, List, [], ◌∷◌, ◌++◌, Option, none,
  some, if◌then◌else◌,
}
use llmproxy.Common.Int.{ℤ, pos, ◌+ℤ◌, negsuc, ltb_ℤ, eqb_ℤ}
use llmproxy.Common.Eq.{codes, Bytes}
use llmproxy.Common.Decimal.{format_int}
use llmproxy.Common.Returns.{◌>>=◌}
use llmproxy.Domain.{ModelNode, EndpointType, AttemptLog, ExecutionResult}
use llmproxy.Logging.{classify_error, is_retryable}
use llmproxy.Http
use llmproxy.Http.{ResponseWriter, header_set}
use llmproxy.Stream.{StreamResult}
use llmproxy.Proxy.{ForwardResult, Forwarded}
use llmproxy.Router.{Router, resolve, pick}
use llmproxy.RetryRecorder.{Recorder, new_recorder, commit}

pub record WorkerConfig : Type 0 where
  pub worker_count : ℤ
  pub max_retry_attempts : ℤ
  pub retry_delay_ms : ℤ

-- `excluded[id]`
unfoldable pub is_excluded : String → List String → Bool
is_excluded id [] = false
is_excluded id (x ∷ xs) = str_eq x id || is_excluded id xs

unfoldable pub available : List ModelNode → List String → List ModelNode
unfolding is_excluded
available [] excluded = []
available (n ∷ ns) excluded =
    let rest = available ns excluded in
    if not (is_excluded n.id excluded) && n.enabled then n ∷ rest else rest

unfoldable pub pick_node : ℕ → List ModelNode → List String → Option ModelNode
unfolding available
pick_node draw candidates excluded = pick draw (available candidates excluded)

unfoldable pub error_message : String → String
error_message error_type =
    if str_eq error_type "dns_error"
      || str_eq error_type "connection_refused"
      || str_eq error_type "connection_reset"
    then "model service unreachable"
    else if str_eq error_type "upstream_timeout"
    then "model service timeout"
    else if str_eq error_type "upstream_5xx"
    then "model service internal error"
    else if str_eq error_type "upstream_429"
    then "model service rate limited, please retry later"
    else "service unavailable"

unfoldable pub write_worker_error : ResponseWriter → ℤ → String → ResponseWriter
unfolding error_message
write_worker_error w status error_type =
    let page =
      codes "{\"error\":{\"message\":\""
      ++ codes (error_message error_type)
      ++ codes "\",\"type\":\"proxy_error\",\"code\":"
      ++ format_int status
      ++ codes "}}" in
    let started =
      Http.write_header status
        (record w { header = header_set "Content-Type" "application/json" w.header }) in
    (Http.write page started).0

-- The status of an attempt: that of the result, or what the recorder has seen.
unfoldable pub status_of : Forwarded → ℤ
status_of f = elim f.result [ some r ↦ r.status_code | none ↦ f.recorder.status_code ]

unfoldable pub error_type_of : Forwarded → String
unfolding status_of
error_type_of f = classify_error f.error (status_of f)

-- `fwdErr == nil && !retryable`
unfoldable pub succeeded : Forwarded → Bool
unfolding error_type_of
succeeded f = elim f.error [ none ↦ not (is_retryable (error_type_of f)) | some e ↦ false ]

abbrev stream_of : Forwarded → Option StreamResult
stream_of f = elim f.result [ none ↦ none | some r ↦ r.stream ]

abbrev prompt_tokens_of : Forwarded → ℤ
prompt_tokens_of f = elim (stream_of f) [ none ↦ pos 0 | some s ↦ s.prompt_tokens ]

abbrev completion_tokens_of : Forwarded → ℤ
completion_tokens_of f = elim (stream_of f) [ none ↦ pos 0 | some s ↦ s.completion_tokens ]

-- The body of a result that is not streamed.
abbrev body_of : Forwarded → Bytes
body_of f = elim f.result [ none ↦ [] | some r ↦ elim r.stream [ none ↦ r.body | some s ↦ [] ] ]

unfoldable pub log_of : ℕ → ModelNode → Forwarded → AttemptLog
log_of attempt node f = record {
  attempt = attempt;
  node_id = node.id;
  node_name = node.name;
  status_code = status_of f;
  error_type = error_type_of f;
  error = f.error;
  prompt_tokens = prompt_tokens_of f;
  completion_tokens = completion_tokens_of f;
}

unfoldable pub failure : ℤ → String → String → List AttemptLog → ExecutionResult
failure status_code error error_type attempts = record {
  status_code = status_code;
  body = [];
  prompt_tokens = pos 0;
  completion_tokens = pos 0;
  total_tokens = pos 0;
  final_node_id = "";
  attempts = attempts;
  error = error;
  error_type = error_type;
}

unfoldable pub success : ModelNode → Forwarded → List AttemptLog → ExecutionResult
success node f attempts = record {
  status_code = status_of f;
  body = body_of f;
  prompt_tokens = prompt_tokens_of f;
  completion_tokens = completion_tokens_of f;
  total_tokens = prompt_tokens_of f +ℤ completion_tokens_of f;
  final_node_id = node.id;
  attempts = attempts;
  error = "";
  error_type = "";
}

-- What the last failed attempt leaves for the client: what it has held back, or an error page.
unfoldable pub finish_failed : Forwarded → ResponseWriter
unfolding status_of error_type_of write_worker_error
finish_failed f =
    let rec = f.recorder in
    let flushed = commit rec in
    let status = if eqb_ℤ (status_of f) (pos 0) then pos 502 else status_of f in
    if rec.committed
    then rec.w
    else if rec.wrote_header
    then (Http.write flushed.body flushed.w).0
    else write_worker_error rec.w status (error_type_of f)

-- The rounds of `for attempt := 1; attempt <= max; attempt++`.
abbrev pub rounds : ℤ → ℕ
rounds (pos n) = n
rounds (negsuc n) = 0

module _ (forward : ℕ → ModelNode → Recorder → Option Forwarded) (draw : ℕ → ℕ)
    (cancelled : ℕ → Bool) (max_attempts : ℤ) (candidates : List ModelNode) where
  -- `attempt < MaxRetryAttempts && pickNode(...) != nil`
  unfoldable pub will_retry : ℕ → List String → Bool
  will_retry attempt excluded =
      ltb_ℤ (pos attempt) max_attempts
      && (elim (pick_node (draw (2 * attempt + 1)) candidates excluded) [
        | none ↦ false
        | some _ ↦ true
      ])

  -- The first argument counts the rounds that are left, `MaxRetryAttempts - attempt + 1`.
  unfoldable pub retry_loop :
      ℕ
      → ℕ
      → List String
      → List AttemptLog
      → ResponseWriter
      → Option (ResponseWriter × ExecutionResult)
  unfolding will_retry
  retry_loop zero attempt excluded attempts w = some (w, failure (pos 502) "all failed" "" attempts)
  retry_loop (suc k) attempt excluded attempts w =
      let serve = λ (node : ModelNode). forward attempt node (new_recorder w) >>= λ f.
      let attempts' = attempts ++ log_of attempt node f ∷ [] in
      let excluded' = node.id ∷ excluded in
      let rest = retry_loop k (suc attempt) excluded' attempts' f.recorder.w in
      if succeeded f
      then some (f.recorder.w, success node f attempts')
      else if will_retry attempt excluded'
      then rest
      else some
          (finish_failed f, failure (status_of f) (error_type_of f) (error_type_of f) attempts') in
      if cancelled attempt
      then some (w, failure (pos 499) "cancelled" "" attempts)
      else elim (pick_node (draw (2 * attempt)) candidates excluded) [
        | none ↦ some (w, failure (pos 502) "all failed" "" attempts)
        | some node ↦ serve node
      ]

  -- The part of `forwardWithRetry` after `Resolve`; `none` is a panic. The list is the candidates.
  unfoldable pub start_with :
      List ModelNode → ResponseWriter → Option (ResponseWriter × ExecutionResult)
  unfolding retry_loop
  start_with [] w = some (w, failure (pos 502) "no nodes" "" [])
  start_with (n ∷ ns) w = retry_loop (rounds max_attempts) 1 [] [] w

  unfoldable pub serve_candidates : ResponseWriter → Option (ResponseWriter × ExecutionResult)
  unfolding start_with
  serve_candidates w = start_with candidates w

-- `forwardWithRetry`
unfoldable pub forward_with_retry :
    (ℕ → ModelNode → Recorder → Option Forwarded)
    → (ℕ → ℕ)
    → (ℕ → Bool)
    → WorkerConfig
    → Router
    → String
    → EndpointType
    → ResponseWriter
    → Option (ResponseWriter × ExecutionResult)
unfolding serve_candidates
forward_with_retry forward draw cancelled config router alias et w =
    serve_candidates forward draw cancelled config.max_retry_attempts (resolve alias et router) w
