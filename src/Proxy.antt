-- ===== src/Proxy.antt =====
-- internal/proxy/proxy.go: one attempt to forward a request to a node. The JSON codec, the test of
-- method and URL that `http.NewRequestWithContext` makes, and the exchange with the upstream are
-- parameters. The time limit is passed to the exchange.
use Prim.Native.String.{String, ◌++◌ as ◌<>◌}
use text.Mathlib.Text.{◌==◌ as str_eq}
use llmproxy.Common.{
  ◌||◌, ℕ, Bool, true, false, [], Option, none, some, length, ◌==◌, if◌then◌else◌,
}
use llmproxy.Common.Int.{ℤ, pos, leb_ℤ, eqb_ℤ}
use llmproxy.Common.Eq.{Bytes}
use llmproxy.Common.Returns.{◌>>=◌}
use llmproxy.Json.{Value, Fields, str, bool, end, field, find, assign}
use llmproxy.Override.{apply_override}
use llmproxy.Domain.{ModelNode, GoError, Result, ok, failed, wrap}
use llmproxy.Http.{Header, header_set, add_all, is_sendable}
use llmproxy.Stream.{Decoder, StreamResult, forward_stream}
use llmproxy.RetryRecorder.{Recorder, write_header, write}

pub record HttpRequest : Type 0 where
  pub method : String
  pub uri : String
  pub header : Header
  pub body : Bytes

pub record UpstreamRequest : Type 0 where
  pub method : String
  pub url : String
  pub header : Header
  pub body : Bytes

-- `content` is what the body yields before it ends or fails.
pub record UpstreamResponse : Type 0 where
  pub status_code : ℤ
  pub header : Header
  pub content : Bytes
  pub read_error : Option GoError

-- A nil map is `none`. `timeout` is in seconds.
pub record Upstream : Type 0 where
  pub unmarshal : Bytes → Result (Option Fields)
  pub marshal : Option Fields → Result Bytes
  pub decoder : Decoder
  pub request_error : String → String → Option GoError
  pub exchange : (timeout : ℤ) → UpstreamRequest → Result UpstreamResponse
  pub ctx_done : ℕ → Option GoError
  pub write_error : GoError

pub record ForwardResult : Type 0 where
  pub status_code : ℤ
  pub body : Bytes
  pub stream : Option StreamResult

-- The recorder, the result and the error that `Forward` leaves.
pub record Forwarded : Type 0 where
  pub recorder : Recorder
  pub result : Option ForwardResult
  pub error : Option GoError

unfoldable pub effective_timeout : ℤ → ℤ
effective_timeout timeout_sec = if leb_ℤ timeout_sec (pos 0) then pos 120 else timeout_sec

unfoldable pub parse_body : Upstream → Bytes → Result (Option Fields)
parse_body up raw = if length raw == 0 then ok (some end) else up.unmarshal raw

abbrev has_fields : Fields → Bool
has_fields end = false
has_fields (field k v m) = true

-- The model name and the override; an assignment to a nil map panics, which is `none`.
unfoldable pub modified : ModelNode → Option Fields → Option (Option Fields)
modified node none =
    if str_eq node.model_name "" then if has_fields node.override then none else some none else none
modified node (some m) = some (
    some (
      apply_override
        (if str_eq node.model_name "" then m else assign "model" (str node.model_name) m)
        node.override))

is_true : Option Value → Bool
is_true (some (bool b)) = b
is_true v = false

-- `bodyMap["stream"].(bool)`
unfoldable pub is_stream : Option Fields → Bool
unfolding is_true
is_stream none = false
is_stream (some m) = is_true (find "stream" m)

unfoldable pub upstream_header : ModelNode → Header → Header
upstream_header node h =
    let base = header_set "Content-Type" "application/json" (add_all h []) in
    if str_eq node.api_key ""
    then base
    else header_set "Authorization" ("Bearer " <> node.api_key) base

unfoldable pub stream_headers : Header → Header → Header
stream_headers upstream h = header_set "X-Accel-Buffering" "no" (
    header_set "Cache-Control" "no-cache" (
      header_set "Content-Type" "text/event-stream"
        (header_set "Transfer-Encoding" "chunked" (add_all upstream h))))

-- The end of `Forward` for a streaming request, and for one that is not.
unfoldable pub respond_stream : Upstream → UpstreamResponse → Recorder → Forwarded
respond_stream up resp r =
    let started =
      write_header resp.status_code (record r { header = stream_headers resp.header r.header }) in
    let (last, streamed, err) =
      forward_stream up.decoder up.ctx_done up.write_error resp.content resp.read_error started in
    record {
      recorder = last;
      result = some (record { status_code = resp.status_code; body = []; stream = some streamed });
      error = elim err [ none ↦ none | some e ↦ some (wrap "proxy: stream forward: " e) ];
    }

unfoldable pub respond_whole : Upstream → UpstreamResponse → Recorder → Forwarded
respond_whole up resp r = elim resp.read_error [
  | some e ↦ record {
    recorder = r;
    result = none;
    error = some (wrap "proxy: read upstream response: " e);
  }
  | none ↦
      let started =
        write_header resp.status_code (record r { header = add_all resp.header r.header }) in
      let sent = write resp.content started in
      record {
        recorder = sent.0;
        result =
            some (record { status_code = resp.status_code; body = resp.content; stream = none });
        error =
            if sent.1 then none else some (wrap "proxy: write response to client: " up.write_error);
      }
]

abbrev pub fail : Recorder → String → GoError → Forwarded
fail r prefix e = record { recorder = r; result = none; error = some (wrap prefix e) }

unfoldable pub upstream_request : ModelNode → HttpRequest → Bytes → UpstreamRequest
unfolding upstream_header
upstream_request node req bytes = record {
  method = req.method;
  url = node.base_url <> req.uri;
  header = upstream_header node req.header;
  body = bytes;
}

-- The header of the answer panics with a code that the server does not send, but for 0, which the
-- recorder takes for 200. An answer that is tried again is not sent at once; its code is at least 429,
-- and the client of net/http yields none above 999.
abbrev pub answered : ℤ → Forwarded → Option Forwarded
answered code f = if eqb_ℤ code (pos 0) || is_sendable code then some f else none

unfoldable pub respond : Upstream → Option Fields → UpstreamResponse → Recorder → Option Forwarded
unfolding is_stream respond_stream respond_whole
respond up body resp r =
    if is_stream body
    then answered resp.status_code (respond_stream up resp r)
    else elim resp.read_error [
      | some e ↦ some (respond_whole up resp r)
      | none ↦ answered resp.status_code (respond_whole up resp r)
    ]

-- From the modified body on.
unfoldable pub send :
    Upstream → ModelNode → HttpRequest → Option Fields → Recorder → Option Forwarded
unfolding upstream_request effective_timeout respond
send up node req body r = elim (up.marshal body) [
  | failed e ↦ some (fail r "proxy: marshal modified body: " e)
  | ok bytes ↦ elim (up.request_error req.method (node.base_url <> req.uri)) [
    | some e ↦ some (fail r "proxy: build upstream request: " e)
    | none ↦
        elim (up.exchange (effective_timeout node.timeout_sec) (upstream_request node req bytes)) [
          | failed e ↦ some (fail r "proxy: upstream request: " e)
          | ok resp ↦ respond up body resp r
        ]
  ]
]

-- `none` is a panic. The body of the request is in memory, so that reading it does not fail.
unfoldable pub forward : Upstream → ModelNode → HttpRequest → Recorder → Option Forwarded
unfolding parse_body modified send
forward up node req r = elim (parse_body up req.body) [
  | failed e ↦ some (fail r "proxy: parse request body: " e)
  | ok parsed ↦ do body ← modified node parsed; send up node req body r
]
