-- ===== src/Tests/Clients.antt =====
-- Runs of the handlers of the client API.
use Prim.Native.String.{String}
use llmproxy.Common.{
  ℕ, ◌≡◌, refl, Bool, true, false, List, [], ◌∷◌, Option, none, some, arith, inr, if◌then◌else◌,
}
use llmproxy.Common.Int.{pos}
use llmproxy.Common.Eq.{Bytes, bytes_eq, codes, lookup, insert}
use llmproxy.Common.Returns.{Returns}
use llmproxy.Json.{Fields, end, field, str, find}
use llmproxy.Domain.{
  ApiKey, ModelNode, Result, ok, failed, endpoint_chat, endpoint_all, ExecutionResult,
}
use llmproxy.Http.{ResponseWriter}
use llmproxy.Metrics.{
  empty_registry, counter_at, count_requests, status_label, counter_at-count_requests,
}
use llmproxy.AsyncLogger.{new_logger}
use llmproxy.MemoryCache.{MemoryCache, new_memory_cache, as_cache}
use llmproxy.MemoryCache.Laws.{as_cache-IsCounting}
use llmproxy.RequestQueue.{new_request_queue}
use llmproxy.RequestQueue.Methods.{new-IsValid}
use llmproxy.Router.{list_enabled}
use llmproxy.ClientApi.{ClientRequest, Service, Demand, forward_arrive, parse_demand}
use llmproxy.ClientApi.Listing.{model_loop}
use llmproxy.ClientApi.Settling.{settle}
use llmproxy.ClientApi.Arrival.{Arrival, forward_arrive-Arrival}
use llmproxy.ClientApi.Accounts.{Settled, settle-Settled}

abbrev key : ApiKey
key = record {
  id = "k";
  key = "secret";
  name = "team";
  enabled = true;
  tpm = pos 0;
  rpm = pos 0;
  allow_models = "m" ∷ [];
  expires_at = none;
}

abbrev request : ClientRequest
request = record {
  api = record {
    method = "POST";
    header = [];
    query_token = [];
    request_id = "r1";
    session_id = "s";
    api_key = some key;
  };
  body = ok (codes "{\"model\":\"m\"}");
  path = "/v1/chat/completions";
  remote_addr = "10.0.0.1:1";
  now = 5;
  start_time = 4;
  writer = 0;
  result_chan = 0;
  context = 0;
}

-- A decoder that knows one body.
abbrev decode : Bytes → Result (Option Fields)
decode raw =
    if bytes_eq raw (codes "{\"model\":\"m\"}")
    then ok (some (field "model" (str "m") end))
    else failed (record { deadline_exceeded = false; cancelled = false; text = "invalid" })

abbrev service : Service MemoryCache
service = record {
  queue = new_request_queue (pos 10);
  log = new_logger 4;
  metrics = empty_registry;
  counters = new_memory_cache;
}

abbrev client : ResponseWriter
client = record { header = []; sent = none; body = []; broken = false }

abbrev wanted : Demand
wanted = record {
  raw = codes "{\"model\":\"m\"}";
  model_alias = "m";
  stream = false;
  priority = pos 3;
}

parse_run : parse_demand decode (λ m s. m) (pos 3) request.body ≡ inr wanted
unfolding parse_demand find
parse_run = refl

forward_arrive-Arrival_example :
    Returns
      (Arrival (λ v. []) decode key endpoint_chat request service client)
      (forward_arrive (λ v. []) decode (λ m s. m) (pos 3) endpoint_chat request service client)
forward_arrive-Arrival_example =
    forward_arrive-Arrival (λ v. []) decode (λ m s. m) (pos 3) key endpoint_chat request service
      client (new-IsValid (pos 10)) refl

abbrev node : String → List String → Bool → ModelNode
node id aliases enabled = record {
  id = id;
  name = id;
  aliases = aliases;
  base_url = "";
  api_key = "";
  model_name = "";
  endpoint_type = endpoint_all;
  tpm = pos 0;
  rpm = pos 0;
  override = end;
  timeout_sec = pos 0;
  enabled = enabled;
}

abbrev nodes : List ModelNode
nodes = node "a" ("m" ∷ "n" ∷ []) true ∷ node "b" ("m" ∷ []) true ∷ node "c" ("o" ∷ []) false ∷ []

models_run : model_loop [] (list_enabled nodes) ≡ "m" ∷ "n" ∷ []
unfolding model_loop list_enabled lookup insert
models_run = refl

abbrev noon : ℕ
noon = 1_700_000_000_000_000_000

abbrev result : ExecutionResult
result = record {
  status_code = pos 200;
  body = [];
  prompt_tokens = pos 3;
  completion_tokens = pos 4;
  total_tokens = pos 7;
  final_node_id = "a";
  attempts = [];
  error = "";
  error_type = "";
}

settle-Settled_example :
    Settled
      (as_cache noon)
      (as_cache-IsCounting noon)
      request
      key
      wanted
      noon
      result
      service
      (settle (as_cache noon) (λ raw. none) request key wanted noon 9 result service)
unfolding new_logger
settle-Settled_example =
    settle-Settled (as_cache noon) (as_cache-IsCounting noon) (λ raw. none) request key wanted noon
      9 result service (omega arith) (omega arith)

counter_at-count_requests_example :
    counter_at
      (status_label "m" "success")
      (count_requests
        (("m", "success") ∷ ("m", "error") ∷ ("m", "success") ∷ [])
        empty_registry).requests_total
    ≡ 2
unfolding counter_at empty_registry status_label lookup
counter_at-count_requests_example =
    counter_at-count_requests (status_label "m" "success")
      (("m", "success") ∷ ("m", "error") ∷ ("m", "success") ∷ []) empty_registry (omega arith)
