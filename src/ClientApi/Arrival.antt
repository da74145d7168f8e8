-- ===== src/ClientApi/Arrival.antt =====
-- What a request has to be for the queue to take it in, and that one that is turned away leaves the
-- queue, the log and the counters alone.
use mathlib.Core.Path.{subst}
use Prim.Native.String.{String}
use text.Mathlib.Text.{◌==◌ as str_eq}
use text.Mathlib.TextEquality.{eq_iff}
use llmproxy.Common.{
  ℕ, ◌≡◌, ◌≢◌, ◌⊎◌, refl, sym, true, false, not, ◌∷◌, Option, none, some, Mem, Perm, arith, inl,
  inr, length, if_prove,
}
use llmproxy.Common.Int.{ℤ, pos, negsuc, eqb_ℤ}
use llmproxy.Common.Eq.{Bytes}
use llmproxy.Common.Returns.{Returns, returns, Returns-bind, Returns-if}
use llmproxy.Json.{Value, Fields, null, bool, num, str, arr, obj, find}
use llmproxy.Domain.{EndpointType, ApiKey, Result, ok, failed}
use llmproxy.Auth.{check_model_allowed, check_model_allowed_iff}
use llmproxy.Http.{ResponseWriter}
use llmproxy.Middleware.{write_error}
use llmproxy.Metrics.{Registry}
use llmproxy.RequestQueue.{RequestQueue, refuses}
use llmproxy.RequestQueue.Methods.{IsValid, Enqueued, refused, accepted, enqueue_correct}
use llmproxy.ClientApi.{
  ClientRequest, Service, Demand, Arrived, answered, waiting, as_string, demand_of, parse_demand,
  pending_of, after_enqueue, submit, authorise, admit, forward_arrive,
}

-- The body was read, is a JSON object, and has a model's name that is not empty.
pub record Asked (unmarshal : Bytes → Result (Option Fields)) (body : Result Bytes) (d : Demand)
    : Type 0 where
  pub fields : Fields
  pub read : body ≡ ok d.raw
  pub decoded : unmarshal d.raw ≡ ok (some fields)
  pub named : find "model" fields ≡ some (str d.model_alias)
  pub not_empty : d.model_alias ≢ ""

-- What the handler has done when it has answered or waits.
pub data Arrival {S : Type 0} (encode : Value → Bytes) (unmarshal : Bytes → Result (Option Fields))
    (key : ApiKey) (et : EndpointType) (cr : ClientRequest) (svc : Service S) (w : ResponseWriter)
    : Service S × Arrived → Type 0 where
  invalid :
      (message : String)
      → Arrival encode unmarshal key et cr svc w
          (svc, answered (write_error encode (pos 400) message w))
  forbidden :
      (d : Demand)
      → Asked unmarshal cr.body d
      → check_model_allowed key d.model_alias ≡ false
      → Arrival encode unmarshal key et cr svc w
          (svc, answered (write_error encode (pos 403) "model not allowed for this key" w))
  queue_full :
      (metrics : Registry)
      → refuses svc.queue ≡ true
      → Arrival encode unmarshal key et cr svc w (
        record svc { metrics = metrics },
        answered (write_error encode (pos 503) "queue is full" w),
      )
  queued :
      (metrics : Registry) (q : RequestQueue) (d : Demand)
      → Asked unmarshal cr.body d
      → (length key.allow_models ≡ 0) ⊎ Mem d.model_alias key.allow_models
      → IsValid q
      → Perm q.heap (pending_of cr key et d ∷ svc.queue.heap)
      → Arrival encode unmarshal key et cr svc w
          (record svc { queue = q; metrics = metrics }, waiting (pending_of cr key et d) d)

as_string_sound : (o : Option Value) → as_string o ≢ "" → o ≡ some (str (as_string o))
as_string_sound none h = absurd (h refl)
as_string_sound (some (str s)) h = refl
as_string_sound (some null) h = absurd (h refl)
as_string_sound (some (bool b)) h = absurd (h refl)
as_string_sound (some (num m s)) h = absurd (h refl)
as_string_sound (some (arr a)) h = absurd (h refl)
as_string_sound (some (obj o)) h = absurd (h refl)

-- A refusal has status 400, and a demand is what the body asks for.
abbrev Parsed : (Bytes → Result (Option Fields)) → Result Bytes → (ℤ × String) ⊎ Demand → Type 0
Parsed unmarshal body (inl refusal) = refusal.0 ≡ pos 400
Parsed unmarshal body (inr d) = Asked unmarshal body d

module _ (unmarshal : Bytes → Result (Option Fields)) (to_int : ℤ → ℕ → ℤ)
    (default_priority : ℤ) where
  demand_of-Parsed :
      (raw : Bytes) (r : Result (Option Fields))
      → unmarshal raw ≡ r
      → Parsed unmarshal (ok raw) (demand_of unmarshal to_int default_priority raw r)
  unfolding demand_of
  demand_of-Parsed raw (failed e) f = refl
  demand_of-Parsed raw (ok none) f = refl
  demand_of-Parsed raw (ok (some fields)) f =
      if_prove (Parsed unmarshal (ok raw)) (str_eq (as_string (find "model" fields)) "") (λ e. refl)
        (λ e.
          let filled : as_string (find "model" fields) ≢ "" =
            λ h. absurd (cc ((eq_iff (as_string (find "model" fields)) "").1 h, e)) in
          record {
            fields = fields;
            read = refl;
            decoded = f;
            named = as_string_sound (find "model" fields) filled;
            not_empty = filled;
          })

  parse_demand-Parsed :
      (body : Result Bytes)
      → Parsed unmarshal body (parse_demand unmarshal to_int default_priority body)
  unfolding parse_demand
  parse_demand-Parsed (failed e) = refl
  parse_demand-Parsed (ok raw) = demand_of-Parsed raw (unmarshal raw) refl

module _ {S : Type 0} (encode : Value → Bytes) (unmarshal : Bytes → Result (Option Fields))
    (key : ApiKey) (et : EndpointType) (cr : ClientRequest) (svc : Service S)
    (w : ResponseWriter) where
  after_enqueue-Arrival :
      (d : Demand)
      → Asked unmarshal cr.body d
      → (length key.allow_models ≡ 0) ⊎ Mem d.model_alias key.allow_models
      → (r : RequestQueue × ℤ × ℤ) → Enqueued svc.queue (pending_of cr key et d) r
      → Arrival encode unmarshal key et cr svc w
          (after_enqueue encode (pending_of cr key et d) d svc w r)
  unfolding after_enqueue
  after_enqueue-Arrival d asked allowed _ (refused e) = queue_full _ e
  after_enqueue-Arrival d asked allowed _ (accepted {p = p} e v same _ _ _ _) =
      if_prove (Arrival encode unmarshal key et cr svc w) (eqb_ℤ (pos p) (negsuc 0))
        (λ minus_one. absurd (ground (arith, minus_one))) (λ _. queued _ _ d asked allowed v same)

  authorise-Arrival :
      IsValid svc.queue
      → (d : Demand) → Asked unmarshal cr.body d
      → Returns
          (Arrival encode unmarshal key et cr svc w)
          (authorise encode cr et svc w (some key) d)
  unfolding authorise submit
  authorise-Arrival v d asked =
      Returns-if (not (check_model_allowed key d.model_alias))
        (λ e. returns (forbidden d asked (ground (arith, e))))
        (λ e.
          let allowed : check_model_allowed key d.model_alias ≡ true = ground (arith, e) in
          Returns-bind (enqueue_correct svc.queue (pending_of cr key et d) v) λ r done. returns (
            after_enqueue-Arrival d asked ((check_model_allowed_iff key d.model_alias).0 allowed) r
              done))

  admit-Arrival :
      IsValid svc.queue
      → cr.api.api_key ≡ some key
      → (s : (ℤ × String) ⊎ Demand) → Parsed unmarshal cr.body s
      → Returns (Arrival encode unmarshal key et cr svc w) (admit encode cr et svc w s)
  unfolding admit
  admit-Arrival v e (inl (status, message)) p = rw p (returns (invalid message))
  admit-Arrival v e (inr d) p =
      subst
        (λ o. Returns (Arrival encode unmarshal key et cr svc w) (authorise encode cr et svc w o d))
        (sym e) (authorise-Arrival v d p)

-- With a valid queue and the key that the middleware puts into the context, a request to forward
-- does not make the handler panic. It waits only with a body that is read and decoded, a model
-- that is named, not empty and allowed by the key, and then the valid queue has this request
-- besides what it had; else the handler answers 400, 403 or, with a queue that refuses, 503, and
-- neither the queue nor the log nor the counters of the limiter change.
pub forward_arrive-Arrival :
    {S : Type 0} (encode : Value → Bytes) (unmarshal : Bytes → Result (Option Fields))
    (to_int : ℤ → ℕ → ℤ) (default_priority : ℤ) (key : ApiKey) (et : EndpointType)
    (cr : ClientRequest) (svc : Service S) (w : ResponseWriter)
    → IsValid svc.queue
    → cr.api.api_key ≡ some key
    → Returns
        (Arrival encode unmarshal key et cr svc w)
        (forward_arrive encode unmarshal to_int default_priority et cr svc w)
unfolding forward_arrive
forward_arrive-Arrival encode unmarshal to_int default_priority key et cr svc w v e =
    admit-Arrival encode unmarshal key et cr svc w v e
      (parse_demand unmarshal to_int default_priority cr.body)
      (parse_demand-Parsed unmarshal to_int default_priority cr.body)
