-- ===== src/Worker/Answers.antt =====
-- What a client gets of one answer, and of the page in its place: the recorder and writeWorkerError
-- of internal/worker/pool.go.
use mathlib.Core.Path.{subst}
use Prim.Native.String.{String, ◌++◌ as ◌<>◌}
use llmproxy.Common.{
  ℕ, ◌≡◌, refl, ap, ◌∙◌, sym, Bool, true, false, not, [], ◌++◌, Option, none, some,
}
use llmproxy.Common.Int.{ℤ, pos, ◌≤ℤ◌, eqb_ℤ}
use llmproxy.Common.Eq.{Bytes, codes}
use llmproxy.Common.Decimal.{format_int}
use llmproxy.Json.{Fields}
use llmproxy.Domain.{ModelNode, ok}
use llmproxy.Logging.{classify_error, is_retryable}
use llmproxy.Http
use llmproxy.Http.{Header, ResponseWriter, add_all, is_sendable}
use llmproxy.RetryRecorder.{Recorder, new_recorder, commit, write_header, emit, write}
use llmproxy.RetryRecorder.Buffering.{commit-Sent}
use llmproxy.Proxy.{
  HttpRequest, Upstream, UpstreamRequest, UpstreamResponse, Forwarded, parse_body, modified,
  is_stream, forward, effective_timeout,
}
use llmproxy.Worker.{error_message, write_worker_error}

-- The client of the writer `w` got this status and these bytes.
pub record Got (w : ResponseWriter) (code : ℤ) (bytes : Bytes) (out : ResponseWriter) : Type 0 where
  pub header : Header
  pub sent : out.sent ≡ some (code, header)
  pub body : out.body ≡ w.body ++ bytes

-- The page of an attempt that got no answer.
abbrev pub page : String → Bytes
page message =
    codes "{\"error\":{\"message\":\""
    ++ codes message
    ++ codes "\",\"type\":\"proxy_error\",\"code\":"
    ++ format_int (pos 502)
    ++ codes "}}"

abbrev pub again : ℤ → Bool
again code = is_retryable (classify_error none code)

-- The code is one of three digits.
abbrev pub HasThreeDigits : ℤ → Type 0
HasThreeDigits code = (pos 100 ≤ℤ code) × (code ≤ℤ pos 999)

-- No stream is asked for; a panic is none of its cases.
abbrev pub is_calm : Option (Option Fields) → Bool
is_calm none = true
is_calm (some body) = not (is_stream body)

-- The request is not streamed at a node: its body, if it parses, is an object, and does not ask for a
-- stream when it is modified for the node.
abbrev pub IsWhole : Upstream → HttpRequest → ModelNode → Type 0
IsWhole up req node =
    (parsed : Option Fields)
    → parse_body up req.body ≡ ok parsed
    → (m : Fields) × (parsed ≡ some m) × (is_calm (modified node (some m)) ≡ true)

-- What the client of net/http says of its answers.
abbrev pub AnswersInDigits : Upstream → Type 0
AnswersInDigits up =
    (timeout : ℤ) (q : UpstreamRequest) (resp : UpstreamResponse)
    → up.exchange timeout q ≡ ok resp
    → HasThreeDigits resp.status_code

-- Each attempt has an upstream of its own, since the answers may differ.
abbrev pub forward_to : (ℕ → Upstream) → HttpRequest → ℕ → ModelNode → Recorder → Option Forwarded
forward_to up req attempt node r = forward (up attempt) node req r

abbrev pub fresh_with : Header → ResponseWriter → Recorder
fresh_with h w = record (new_recorder w) { header = h }

-- An answer of an upstream that was asked for the node, whole.
pub record Answer (up : Upstream) (req : HttpRequest) (node : ModelNode) (resp : UpstreamResponse)
    : Type 0 where
  pub asked : UpstreamRequest
  pub to_node : asked.url ≡ node.base_url <> req.uri
  pub came : up.exchange (effective_timeout node.timeout_sec) asked ≡ ok resp
  pub whole : resp.read_error ≡ none
  pub digits : HasThreeDigits resp.status_code

module _ (w : ResponseWriter) (open_ : w.sent ≡ none) (sound : w.broken ≡ false) where
  -- An answer that is tried again stays in the recorder, and one that is not is sent.
  pub stays :
      (code : ℤ) (b : Bytes) (h : Header)
      → again code ≡ true
      → (write b (write_header code (fresh_with h w))).0
        ≡ record (fresh_with h w) { status_code = code; wrote_header = true; body = b }
  unfolding new_recorder write_header write emit
  stays code b h e = rw e refl

  abbrev pub marked : ℤ → Bytes → Header → Recorder
  marked code b h = record (fresh_with h w) { status_code = code; wrote_header = true; body = b }

  abbrev sends : ℤ → Header → ResponseWriter
  sends code hd = Http.write_header code (record w { header = hd })

  sent_then : (code : ℤ) (b : Bytes) (hd : Header) → Got w code b (Http.write b (sends code hd)).0
  unfolding Http.write Http.write_header
  sent_then code b hd = rw (open_, sound) (record { header = hd; sent = refl; body = refl })

  write_header-final :
      (code : ℤ) (h : Header)
      → again code ≡ false
      → write_header code (fresh_with h w) ≡ commit (marked code [] h)
  unfolding new_recorder write_header
  write_header-final code h e = rw e refl

  write-sends :
      (code : ℤ) (b : Bytes) (h hd : Header)
      → (write b (record (marked code [] h) { committed = true; w = sends code hd })).0.w
        ≡ (Http.write b (sends code hd)).0
  unfolding new_recorder write emit
  write-sends code b h hd = refl

  commits :
      (code : ℤ) (b : Bytes) (h : Header)
      → eqb_ℤ code (pos 0) ≡ false
      → (hd : Header) × (commit (marked code b h)
          ≡ record (marked code b h) { committed = true; w = sends code hd })
  unfolding new_recorder
  commits code b h f = commit-Sent (marked code b h) refl f

  pub goes :
      (code : ℤ) (b : Bytes) (h : Header)
      → again code ≡ false
      → eqb_ℤ code (pos 0) ≡ false
      → Got w code b (write b (write_header code (fresh_with h w))).0.w
  goes code b h e f =
      let (hd, same) = commits code [] h f in
      let whole =
        ap (λ r. (write b r).0.w) (write_header-final code h e ∙ same) ∙ write-sends code b h hd in
      subst (Got w code b) (sym whole) (sent_then code b hd)

  -- What is held back is sent in the end.
  pub committed_late :
      (code : ℤ) (b : Bytes) (h : Header)
      → eqb_ℤ code (pos 0) ≡ false
      → Got w code b (Http.write (commit (marked code b h)).body (commit (marked code b h)).w).0
  committed_late code b h f =
      let (hd, same) = commits code b h f in
      subst (Got w code b) (sym (ap (λ (r : Recorder). (Http.write r.body r.w).0) same))
        (sent_then code b hd)

  pub paged :
      (error_type : String)
      → Got w
          (pos 502)
          (page (error_message error_type))
          (write_worker_error w (pos 502) error_type)
  unfolding write_worker_error Http.write Http.write_header
  paged error_type = rw (open_, sound) (record { header = _; sent = refl; body = refl })
