-- ===== src/ClientApi/Accounts.antt =====
-- When the worker has answered, the log and the limiter get the same account of the request.
use mathlib.Core.Path.{subst}
use Prim.Native.String.{String}
use text.Mathlib.Text.{◌==◌ as str_eq}
use llmproxy.Common.{
  ℕ, ◌<◌, ◌≡◌, refl, sym, true, ◌&&◌, not, [], ◌∷◌, ◌++◌, Option, arith, length, ltb, ◌==◌,
  if◌then◌else◌, if_prove,
}
use llmproxy.Common.Int.{pos, ◌+ℤ◌, ◌<ℤ◌, leb_ℤ, ltb_ℤ}
use llmproxy.Common.Eq.{Bytes}
use llmproxy.Cache.{Cache, IsCounting}
use llmproxy.Domain.{ApiKey, ExecutionResult, RequestLog, DetailLog}
use llmproxy.AsyncLogger.{AsyncLogger, Half, async_log, async_log_detail, send_or_drop}
use llmproxy.RateLimit.Charging.{is_one_of, charged_keys, record_tokens_charged}
use llmproxy.Metrics.{inc_requests}
use llmproxy.ClientApi.{ClientRequest, Service, Demand, TokenCount}
use llmproxy.ClientApi.Settling.{
  own_tokens, settled_tokens, request_log_of, detail_log_of, charge, settle,
}

module _ {S : Type 0} (c : Cache S) (counting : IsCounting c) where
  open counting use {count}

  -- The account of a request: an entry of the log and one of the details, with its identifier, and
  -- the tokens of that entry on the counters of the limiter.
  pub record Settled (cr : ClientRequest) (key : ApiKey) (d : Demand) (now : ℕ)
      (result : ExecutionResult) (svc svc' : Service S) : Type 0 where
    pub entry : RequestLog
    pub detail : DetailLog
    pub logged : svc'.log.requests.channel.buffer ≡ svc.log.requests.channel.buffer ++ entry ∷ []
    pub detailed : svc'.log.details.channel.buffer ≡ svc.log.details.channel.buffer ++ detail ∷ []
    pub identified : (entry.id ≡ cr.api.request_id) × (detail.trace_id ≡ cr.api.request_id)
    pub owned : (entry.api_key_id ≡ key.id) × (entry.model_alias ≡ d.model_alias)
    pub counted : pos 0 <ℤ result.total_tokens → entry.total_tokens ≡ result.total_tokens
    pub charged :
        (j : Bytes)
        → count j svc'.counters ≡ (
            if leb_ℤ entry.total_tokens (pos 0)
            then count j svc.counters
            else if is_one_of j (charged_keys now key.id d.model_alias)
            then count j svc.counters +ℤ entry.total_tokens
            else count j svc.counters)
    pub queue_kept : svc'.queue ≡ svc.queue

  charge_counts :
      (now : ℕ) (key_id alias : String) (tokens : TokenCount) (svc : Service S) (j : Bytes)
      → count j (charge c now key_id alias tokens svc).counters ≡ (
          if leb_ℤ tokens.total (pos 0)
          then count j svc.counters
          else if is_one_of j (charged_keys now key_id alias)
          then count j svc.counters +ℤ tokens.total
          else count j svc.counters)
  unfolding charge
  charge_counts now key_id alias tokens svc j =
      if_prove
        (λ (svc' : Service S). count j svc'.counters ≡ (
          if leb_ℤ tokens.total (pos 0)
          then count j svc.counters
          else if is_one_of j (charged_keys now key_id alias)
          then count j svc.counters +ℤ tokens.total
          else count j svc.counters))
        (ltb_ℤ (pos 0) tokens.total)
        (λ _. record_tokens_charged c counting now key_id alias tokens.total svc.counters j)
        (λ no.
          let no_tokens : leb_ℤ tokens.total (pos 0) ≡ true = ground (arith, no) in
          rw no_tokens refl)

  -- The charge leaves the log and the queue alone.
  log-charge :
      (now : ℕ) (key_id alias : String) (tokens : TokenCount) (svc : Service S)
      → (charge c now key_id alias tokens svc).log ≡ svc.log
  unfolding charge
  log-charge now key_id alias tokens svc =
      if_prove (λ (svc' : Service S). svc'.log ≡ svc.log) (ltb_ℤ (pos 0) tokens.total) (λ _. refl)
        (λ _. refl)

  queue-charge :
      (now : ℕ) (key_id alias : String) (tokens : TokenCount) (svc : Service S)
      → (charge c now key_id alias tokens svc).queue ≡ svc.queue
  unfolding charge
  queue-charge now key_id alias tokens svc =
      if_prove (λ (svc' : Service S). svc'.queue ≡ svc.queue) (ltb_ℤ (pos 0) tokens.total)
        (λ _. refl) (λ _. refl)

send_or_drop_room {ℓ} :
    {A : Type ℓ} (x : A) (h : Half A)
    → length h.channel.buffer < h.channel.capacity
    → (send_or_drop x h).channel.buffer ≡ h.channel.buffer ++ x ∷ []
unfolding send_or_drop
send_or_drop_room {A = A} x h room =
    if_prove (λ (h' : Half A). h'.channel.buffer ≡ h.channel.buffer ++ x ∷ [])
      (ltb (length h.channel.buffer) h.channel.capacity) (λ _. refl)
      (λ no. absurd (ground (arith, room)))

settled_tokens_own :
    (usage_of : Bytes → Option TokenCount) (result : ExecutionResult)
    → pos 0 <ℤ result.total_tokens
    → (settled_tokens usage_of result).total ≡ result.total_tokens
unfolding settled_tokens own_tokens
settled_tokens_own usage_of result h =
    if_prove (λ (t : TokenCount). t.total ≡ result.total_tokens)
      (leb_ℤ result.total_tokens (pos 0) && not (length result.body == 0))
      (λ e. absurd (ground (arith, h, e))) (λ _. refl)

-- Over a counting store, and with room in the channels of the log, the account of a request that
-- the worker has answered is one entry of the log and one of the details, both under the
-- identifier of the request, and the limiter is charged the tokens of that entry: once on each of
-- the three counters if they are positive, and else not at all. They are those of the result, if
-- the result has any.
pub settle-Settled :
    {S : Type 0} (c : Cache S) (counting : IsCounting c) (usage_of : Bytes → Option TokenCount)
    (cr : ClientRequest) (key : ApiKey) (d : Demand) (now duration_ms : ℕ)
    (result : ExecutionResult) (svc : Service S)
    → length svc.log.requests.channel.buffer < svc.log.requests.channel.capacity
    → length svc.log.details.channel.buffer < svc.log.details.channel.capacity
    → Settled c counting cr key d now result svc
        (settle c usage_of cr key d now duration_ms result svc)
unfolding settle request_log_of detail_log_of async_log async_log_detail
settle-Settled {S = S} c counting usage_of cr key d now duration_ms result svc room room' =
    let tokens = settled_tokens usage_of result in
    let status = if str_eq result.error "" then "success" else "error" in
    let before : Service S = record svc {
      metrics = inc_requests d.model_alias status svc.metrics;
    } in
    let log_kept = log-charge c counting now key.id d.model_alias tokens before in
    let e = request_log_of cr key d result tokens duration_ms in
    record {
      entry = e;
      detail = detail_log_of cr d result;
      logged =
          subst
            (λ (l : AsyncLogger).
              (send_or_drop e l.requests).channel.buffer
              ≡ svc.log.requests.channel.buffer ++ e ∷ [])
            (sym log_kept) (send_or_drop_room e svc.log.requests room);
      detailed =
          subst
            (λ (l : AsyncLogger).
              (send_or_drop (detail_log_of cr d result) l.details).channel.buffer
              ≡ svc.log.details.channel.buffer ++ detail_log_of cr d result ∷ [])
            (sym log_kept) (send_or_drop_room (detail_log_of cr d result) svc.log.details room');
      identified = (refl, refl);
      owned = (refl, refl);
      counted = settled_tokens_own usage_of result;
      charged = charge_counts c counting now key.id d.model_alias tokens before;
      queue_kept = queue-charge c counting now key.id d.model_alias tokens before;
    }
