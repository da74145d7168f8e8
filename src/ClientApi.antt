-- ===== src/ClientApi.antt =====
-- internal/api/openai.go: the handlers of the client API. A handler gives control away where it
-- waits for the worker: `forward_arrive` is `forward` up to its `select`, and Settling has what it
-- does after it. The JSON decoders and the conversion of a float64 to an int are parameters. The log
-- lines only print. Listing has the list of models.
pub mod Listing
pub mod Settling
pub mod Models
pub mod Arrival
pub mod Accounts
use Prim.Native.String.{String}
use text.Mathlib.Text.{◌==◌ as str_eq}
use llmproxy.Common.{
  ℕ, Bool, true, false, ◌&&◌, not, List, [], ◌∷◌, ◌++◌, Option, none, some, ◌⊎◌, inl, inr, length,
  ◌==◌, if◌then◌else◌,
}
use llmproxy.Common.Int.{ℤ, pos, negsuc, ltb_ℤ, leb_ℤ, eqb_ℤ}
use llmproxy.Common.Eq.{Bytes, Dict, lookup, insert, string_instance}
use llmproxy.Common.Returns.{◌>>=◌}
use llmproxy.Json.{
  Value, Fields, null, bool, num, str, arr, obj, end, field, Items, nil, cons, find,
}
use llmproxy.Domain.{
  EndpointType, endpoint_chat, endpoint_responses, endpoint_embedding, ModelNode, ApiKey, Result,
  ok, failed, ExecutionResult, RequestLog, DetailLog,
}
use llmproxy.Auth.{check_model_allowed}
use llmproxy.Cache.{Cache}
use llmproxy.Http.{Header, ResponseWriter}
use llmproxy.Middleware.{ApiRequest, write_json, write_error}
use llmproxy.Metrics.{Registry, inc_requests, add_tokens, set_queue_length}
use llmproxy.AsyncLogger.{AsyncLogger, async_log, async_log_detail}
use llmproxy.RateLimit.{record_tokens}
use llmproxy.RequestQueue.{PendingRequest, RequestQueue, enqueue}
use llmproxy.Router.{list_enabled}

-- `body` is what reading the body yields, `now` and `start_time` are readings of the clock, and
-- `writer`, `result_chan` and `context` name the writer, the channel and the context that the queue keeps.
pub record ClientRequest : Type 0 where
  pub api : ApiRequest
  pub body : Result Bytes
  pub path : String
  pub remote_addr : String
  pub now : ℕ
  pub start_time : ℕ
  pub writer : ℕ
  pub result_chan : ℕ
  pub context : ℕ

-- What the handlers share with the rest of the program; `S` is the state of the counter store.
pub record Service (S : Type 0) : Type 0 where
  pub queue : RequestQueue
  pub log : AsyncLogger
  pub metrics : Registry
  pub counters : S

-- What a body asks for.
pub record Demand : Type 0 where
  pub raw : Bytes
  pub model_alias : String
  pub stream : Bool
  pub priority : ℤ

-- Whether the handler has answered by itself, or waits.
pub data Arrived : Type 0 where
  answered : ResponseWriter → Arrived
  waiting : PendingRequest → Demand → Arrived

-- How the `select` ends.
pub data Wake : Type 0 where
  finished : ExecutionResult → Wake
  deadline cancelled : Wake

pub record TokenCount : Type 0 where
  pub prompt : ℤ
  pub completion : ℤ
  pub total : ℤ

-- `reqBody[k]`, of a map that may be nil.
abbrev pub field_of : String → Option Fields → Option Value
field_of k none = none
field_of k (some m) = find k m

-- The type assertions, with the zero value if they fail.
abbrev pub as_string : Option Value → String
as_string (some (str s)) = s
as_string _ = ""

abbrev pub as_bool : Option Value → Bool
as_bool (some (bool b)) = b
as_bool _ = false

-- `maxWaitSec`
unfoldable pub max_wait_sec : ℤ → ℤ
max_wait_sec configured = if leb_ℤ configured (pos 0) then pos 1800 else configured

module _ (unmarshal : Bytes → Result (Option Fields)) (to_int : ℤ → ℕ → ℤ)
    (default_priority : ℤ) where
  priority_of : Option Value → ℤ
  priority_of (some (num mantissa scale)) = to_int mantissa scale
  priority_of _ = default_priority

  demand_of : Bytes → Result (Option Fields) → (ℤ × String) ⊎ Demand
  unfolding priority_of
  demand_of raw (failed e) = inl (pos 400, "invalid JSON body")
  demand_of raw (ok body) =
      let alias = as_string (field_of "model" body) in
      if str_eq alias ""
      then inl (pos 400, "missing 'model' field")
      else inr (record {
        raw = raw;
        model_alias = alias;
        stream = as_bool (field_of "stream" body);
        priority = priority_of (field_of "priority" body);
      })

  -- The checks that need the body only; a refusal is a status and a message.
  unfoldable pub parse_demand : Result Bytes → (ℤ × String) ⊎ Demand
  unfolding demand_of
  parse_demand (failed e) = inl (pos 400, "cannot read request body")
  parse_demand (ok raw) = demand_of raw (unmarshal raw)

unfoldable pub pending_of : ClientRequest → ApiKey → EndpointType → Demand → PendingRequest
pending_of cr key et d = record {
  id = cr.api.request_id;
  session_id = cr.api.session_id;
  request_id = cr.api.request_id;
  priority = d.priority;
  api_key_id = key.id;
  model_alias = d.model_alias;
  endpoint_type = et;
  timestamp = cr.now;
  body_bytes = d.raw;
  headers = cr.api.header;
  method = cr.api.method;
  path = cr.path;
  remote_addr = cr.remote_addr;
  writer = cr.writer;
  result_chan = cr.result_chan;
  context = cr.context;
  cancel = cr.context;
  queue_wait_ms = pos 0;
  execution_ms = pos 0;
  ratelimit_retries = pos 0;
}

module _ {S : Type 0} (encode : Value → Bytes) where
  after_enqueue :
      PendingRequest
      → Demand
      → Service S
      → ResponseWriter
      → RequestQueue × ℤ × ℤ
      → Service S × Arrived
  after_enqueue p d svc w (q, position, size) =
      if eqb_ℤ position (negsuc 0)
      then (
        record svc { queue = q; metrics = inc_requests d.model_alias "queue_full" svc.metrics },
        answered (write_error encode (pos 503) "queue is full" w),
      )
      else (
        record svc { queue = q; metrics = set_queue_length d.model_alias size svc.metrics },
        waiting p d,
      )

  -- `none` is a panic.
  unfoldable pub submit :
      PendingRequest → Demand → Service S → ResponseWriter → Option (Service S × Arrived)
  unfolding after_enqueue
  submit p d svc w = enqueue svc.queue p >>= λ r. some (after_enqueue p d svc w r)

  authorise :
      ClientRequest
      → EndpointType
      → Service S
      → ResponseWriter
      → Option ApiKey
      → Demand
      → Option (Service S × Arrived)
  unfolding submit pending_of
  authorise cr et svc w none d = none
  authorise cr et svc w (some key) d =
      if not (check_model_allowed key d.model_alias)
      then some (svc, answered (write_error encode (pos 403) "model not allowed for this key" w))
      else submit (pending_of cr key et d) d svc w

  admit :
      ClientRequest
      → EndpointType
      → Service S
      → ResponseWriter
      → (ℤ × String) ⊎ Demand
      → Option (Service S × Arrived)
  unfolding authorise
  admit cr et svc w (inl (status, message)) =
      some (svc, answered (write_error encode status message w))
  admit cr et svc w (inr d) = authorise cr et svc w cr.api.api_key d

  module _ (unmarshal : Bytes → Result (Option Fields)) (to_int : ℤ → ℕ → ℤ)
      (default_priority : ℤ) where
    unfoldable pub forward_arrive :
        EndpointType → ClientRequest → Service S → ResponseWriter → Option (Service S × Arrived)
    unfolding admit parse_demand
    forward_arrive et cr svc w =
        admit cr et svc w (parse_demand unmarshal to_int default_priority cr.body)

    post_only :
        EndpointType → ClientRequest → Service S → ResponseWriter → Option (Service S × Arrived)
    unfolding forward_arrive
    post_only et cr svc w =
        if str_eq cr.api.method "POST"
        then forward_arrive et cr svc w
        else some (svc, answered (write_error encode (pos 405) "method not allowed" w))

    unfoldable pub chat_completions :
        ClientRequest → Service S → ResponseWriter → Option (Service S × Arrived)
    unfolding post_only
    chat_completions = post_only endpoint_chat

    unfoldable pub responses :
        ClientRequest → Service S → ResponseWriter → Option (Service S × Arrived)
    unfolding post_only
    responses = post_only endpoint_responses

    unfoldable pub embeddings :
        ClientRequest → Service S → ResponseWriter → Option (Service S × Arrived)
    unfolding post_only
    embeddings = post_only endpoint_embedding
