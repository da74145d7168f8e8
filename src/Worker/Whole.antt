-- ===== src/Worker/Whole.antt =====
-- Requests that are not streamed: the worker over the forwarding of internal/proxy.
use llmproxy.Common.{ℕ, ◌≡◌, true, false, List, [], Mem}
use llmproxy.Common.Int.{pos}
use llmproxy.Common.Returns.{Returns}
use llmproxy.Domain.{ModelNode, ExecutionResult}
use llmproxy.Http.{ResponseWriter}
use llmproxy.Proxy.{HttpRequest, Upstream, UpstreamResponse}
use llmproxy.Worker.{error_message}
use llmproxy.Worker.Delivery
use llmproxy.Worker.Answers.{Answer, Got, again, page}

-- How a request ends: for the client, whose writer was `w` before, and in the result. It gets the
-- answer of an enabled candidate that is not tried again, and the result names the candidate and has
-- the answer's status and body; or what the last attempt held back, an answer that is tried again; or
-- a page with the status 502, if the last attempt got no answer; or nothing. In all but the first case
-- the result names no node, and has no body.
pub data Served (up : ℕ → Upstream) (req : HttpRequest) (candidates : List ModelNode)
    (w : ResponseWriter) : ResponseWriter × ExecutionResult → Type 0 where
  delivered :
      {out : ResponseWriter} {r : ExecutionResult} (attempt : ℕ) (node : ModelNode)
      (resp : UpstreamResponse)
      → Mem node candidates
      → node.enabled ≡ true
      → Answer (up attempt) req node resp
      → again resp.status_code ≡ false
      → Got w resp.status_code resp.content out
      → (r.status_code ≡ resp.status_code) × (r.body ≡ resp.content) × (r.final_node_id ≡ node.id)
      → Served up req candidates w (out, r)
  held_back :
      {out : ResponseWriter} {r : ExecutionResult} (attempt : ℕ) (node : ModelNode)
      (resp : UpstreamResponse)
      → Mem node candidates
      → Answer (up attempt) req node resp
      → again resp.status_code ≡ true
      → Got w resp.status_code resp.content out
      → (r.status_code ≡ resp.status_code) × (r.body ≡ []) × (r.final_node_id ≡ "")
      → Served up req candidates w (out, r)
  apologised :
      {out : ResponseWriter} {r : ExecutionResult}
      → Got w (pos 502) (page (error_message r.error_type)) out
      → (r.body ≡ []) × (r.final_node_id ≡ "")
      → Served up req candidates w (out, r)
  untouched :
      {out : ResponseWriter} {r : ExecutionResult}
      → out ≡ w
      → (r.body ≡ []) × (r.final_node_id ≡ "")
      → Served up req candidates w (out, r)
