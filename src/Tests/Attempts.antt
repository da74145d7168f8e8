-- ===== src/Tests/Attempts.antt =====
-- A request that a first node refuses for the moment and a second one answers.
use mathlib.Core.Logic.Or
use Prim.Native.String.{String}
use text.Mathlib.Text.{◌==◌ as str_eq}
use llmproxy.Common.{ℕ, refl, true, false, List, [], ◌∷◌, Option, none, some, if◌then◌else◌}
use llmproxy.Common.Int.{pos}
use llmproxy.Common.Eq.{codes}
use llmproxy.Common.Returns.{Returns, returns}
use llmproxy.Json.{end}
use llmproxy.Domain.{ModelNode, GoError, ok}
use llmproxy.Http.{ResponseWriter}
use llmproxy.RetryRecorder.{Recorder, new_recorder}
use llmproxy.RetryRecorder.Buffering.{
  Kept, Act, put_status, put, written, run_acts, run_acts_correct,
}
use llmproxy.Proxy.{HttpRequest, Upstream, UpstreamRequest, UpstreamResponse, Forwarded}
use llmproxy.Worker.{serve_candidates}
use llmproxy.Worker.Attempts.{Done, serve_candidates_fair}

abbrev node : String → ModelNode
node id = record {
  id = id;
  name = id;
  aliases = "m" ∷ [];
  base_url = id;
  api_key = "";
  model_name = "model";
  endpoint_type = "chat";
  tpm = pos 0;
  rpm = pos 0;
  override = end;
  timeout_sec = pos 0;
  enabled = true;
}

abbrev both : List ModelNode
both = node "busy" ∷ node "idle" ∷ []

abbrev client : ResponseWriter
client = record { header = []; sent = none; body = []; broken = false }

abbrev request : HttpRequest
request = record { method = "POST"; uri = "/v1/embeddings"; header = []; body = codes "{}" }

abbrev broken_pipe : GoError
broken_pipe = record { deadline_exceeded = false; cancelled = false; text = "broken pipe" }

abbrev answer : UpstreamRequest → UpstreamResponse
answer req = record {
  status_code = if str_eq req.url "busy/v1/embeddings" then pos 503 else pos 200;
  header = [];
  content = codes "[]";
  read_error = none;
}

abbrev upstream : Upstream
upstream = record {
  unmarshal = λ b. ok (some end);
  marshal = λ m. ok (codes "{}");
  decoder = record { chunk = λ b. none; responses = λ b. none };
  request_error = λ m u. none;
  exchange = λ t req. ok (answer req);
  ctx_done = λ i. none;
  write_error = broken_pipe;
}

-- The attempt at the busy node fails, any other succeeds.
abbrev try_node : ℕ → ModelNode → Recorder → Option Forwarded
try_node attempt n r = some (record {
  recorder = r;
  result = some (record {
    status_code = if str_eq n.id "busy" then pos 503 else pos 200;
    body = [];
    stream = none;
  });
  error = none;
})

serve_candidates_fair_example :
    Returns
      (Done both (pos 3))
      (serve_candidates try_node (λ i. 0) (λ attempt. false) (pos 3) both client)
serve_candidates_fair_example =
    serve_candidates_fair try_node both (λ attempt n r h. returns tt) (λ i. 0) (λ attempt. false)
      (pos 3) client

abbrev held_acts : List Act
held_acts = put_status (pos 503) ∷ put (codes "busy") ∷ []

run_acts_correct_example :
    Kept client (written held_acts) (run_acts held_acts (new_recorder client))
run_acts_correct_example = run_acts_correct client refl refl held_acts
