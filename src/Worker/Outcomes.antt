-- ===== src/Worker/Outcomes.antt =====
-- How Forward of internal/proxy/proxy.go ends on a fresh recorder, for a body that is not streamed.
use mathlib.Core.Path.{subst}
use Prim.Native.String.{◌++◌ as ◌<>◌}
use llmproxy.Common.{
  ◌≡◌, refl, sym, true, false, ◌||◌, [], Option, none, some, arith, Bool-cases, Option-cases, inl,
  inr,
}
use llmproxy.Common.Int.{ℤ, pos, eqb_ℤ}
use llmproxy.Common.Eq.{Bytes}
use llmproxy.Common.Returns.{Returns, returns}
use llmproxy.Json.{Fields}
use llmproxy.Domain.{ModelNode, GoError, ok, Result-cases}
use llmproxy.Http.{Header, ResponseWriter, add_all, is_sendable}
use llmproxy.RetryRecorder.{new_recorder, write_header, write}
use llmproxy.RetryRecorder.Buffering.{silent, write_header-Kept, write_ok}
use llmproxy.Proxy.{
  HttpRequest, Upstream, UpstreamRequest, UpstreamResponse, Forwarded, parse_body, modified,
  is_stream, respond_whole, respond, fail, send, forward, upstream_request, effective_timeout,
}
use llmproxy.Worker.Answers.{
  Answer, AnswersInDigits, Got, HasThreeDigits, IsWhole, again, fresh_with, goes, stays,
}

-- How an attempt on a fresh recorder ends: with an answer, of which the recorder has its status and
-- bytes, sent or held back; or with an error and an untouched recorder.
pub data Attempted (up : Upstream) (req : HttpRequest) (node : ModelNode) (w : ResponseWriter)
    (f : Forwarded) : Type 0 where
  answer_held :
      (resp : UpstreamResponse) (h : Header)
      → Answer up req node resp
      → again resp.status_code ≡ true
      → f.error ≡ none
      → f.result
        ≡ some (record { status_code = resp.status_code; body = resp.content; stream = none })
      → f.recorder ≡ record (fresh_with h w) {
        status_code = resp.status_code;
        wrote_header = true;
        body = resp.content;
      }
      → Attempted up req node w f
  answer_sent :
      (resp : UpstreamResponse)
      → Answer up req node resp
      → again resp.status_code ≡ false
      → f.error ≡ none
      → f.result
        ≡ some (record { status_code = resp.status_code; body = resp.content; stream = none })
      → Got w resp.status_code resp.content f.recorder.w
      → Attempted up req node w f
  no_answer :
      (x : GoError)
      → f.error ≡ some x
      → f.result ≡ none
      → f.recorder ≡ new_recorder w
      → Attempted up req node w f

module _ (up : Upstream) (req : HttpRequest) (node : ModelNode) (w : ResponseWriter)
    (open_ : w.sent ≡ none) (sound : w.broken ≡ false) where
  whole_ok :
      (code : ℤ) (b : Bytes) (h : Header) → (write b (write_header code (fresh_with h w))).1 ≡ true
  unfolding new_recorder
  whole_ok code b h = write_ok w open_ sound b [] _ (
      write_header-Kept w open_ sound code [] (fresh_with h w) (silent refl refl refl (refl, refl)))

  respond_whole-Attempted :
      (resp : UpstreamResponse)
      → Answer up req node resp
      → Attempted up req node w (respond_whole up resp (new_recorder w))
  unfolding respond_whole new_recorder
  respond_whole-Attempted resp a =
      let h = add_all resp.header [] in
      elim (Bool-cases (again resp.status_code)) [
        | inl e ↦
            rw (a.whole, whole_ok resp.status_code resp.content h)
              (answer_held resp h a e refl refl
                (stays w open_ sound resp.status_code resp.content h e))
        | inr e ↦
            rw (a.whole, whole_ok resp.status_code resp.content h)
              (answer_sent resp a e refl refl
                (goes w open_ sound resp.status_code resp.content h e (ground (arith, a.digits))))
      ]

  respond_broken :
      (resp : UpstreamResponse) (x : GoError)
      → resp.read_error ≡ some x
      → respond_whole up resp (new_recorder w)
        ≡ fail (new_recorder w) "proxy: read upstream response: " x
  unfolding respond_whole
  respond_broken resp x e = rw e refl

  respond-Attempted :
      (body : Option Fields) (resp : UpstreamResponse) (asked : UpstreamRequest)
      → is_stream body ≡ false
      → asked.url ≡ node.base_url <> req.uri
      → up.exchange (effective_timeout node.timeout_sec) asked ≡ ok resp
      → HasThreeDigits resp.status_code
      → Returns (Attempted up req node w) (respond up body resp (new_recorder w))
  unfolding respond
  respond-Attempted body resp asked calm url came digits = elim (Option-cases resp.read_error) [
    | inr (x, e) ↦
        rw (calm, e)
          (returns (
            subst (Attempted up req node w) (sym (respond_broken resp x e))
              (no_answer _ refl refl refl)))
    | inl e ↦
        let fits : (eqb_ℤ resp.status_code (pos 0) || is_sendable resp.status_code) ≡ true =
          ground (arith, digits) in
        let a : Answer up req node resp = record {
          asked = asked;
          to_node = url;
          came = came;
          whole = e;
          digits = digits;
        } in
        rw (calm, e, fits) (returns (respond_whole-Attempted resp a))
  ]

  send-Attempted :
      (body : Option Fields)
      → is_stream body ≡ false
      → AnswersInDigits up
      → Returns (Attempted up req node w) (send up node req body (new_recorder w))
  unfolding send upstream_request
  send-Attempted body calm digits = elim (Result-cases (up.marshal body)) [
    | inr (x, e) ↦ rw (e, send) (returns (no_answer _ refl refl refl))
    | inl (bytes, e) ↦
        rw (e, send)
          (elim (Option-cases (up.request_error req.method (node.base_url <> req.uri))) [
            | inr (x, f) ↦ rw f (returns (no_answer _ refl refl refl))
            | inl f ↦
                rw f
                  (elim (Result-cases (
                    up.exchange (effective_timeout node.timeout_sec)
                      (upstream_request node req bytes))) [
                        | inr (x, g) ↦ rw g (returns (no_answer _ refl refl refl))
                        | inl (resp, g) ↦ rw g (
                            respond-Attempted body resp (upstream_request node req bytes) calm refl
                              g (digits _ _ resp g))
                      ])
          ])
  ]

  pub forward-Attempted :
      IsWhole up req node
      → AnswersInDigits up
      → Returns (Attempted up req node w) (forward up node req (new_recorder w))
  unfolding forward modified
  forward-Attempted whole digits = elim (Result-cases (parse_body up req.body)) [
    | inr (x, e) ↦ rw (e, forward) (returns (no_answer _ refl refl refl))
    | inl (parsed, e) ↦
        let (m, object, calm) = whole parsed e in
        rw (e, forward, object) (send-Attempted _ (ground (arith, calm)) digits)
  ]
