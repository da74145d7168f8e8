-- ===== src/RequestQueue.antt =====
-- internal/queue/priority_queue.go: the queue of pending requests, one global heap under a mutex.
-- Each method body runs under the lock, so it is one function of the state; `DequeueBlocking`
-- gives the lock up only in `cond.Wait`, where its function ends with `blocked`.
pub mod Order
pub mod Methods
pub mod Wakeups
use Prim.Native.String.{String}
use text.Mathlib.Text.{◌==◌ as str_eq}
use llmproxy.Common.{
  ℕ, zero, suc, ◌+◌, Bool, true, false, ◌&&◌, ◌||◌, not, List, [], ◌∷◌, Option, none, some, length,
  ltb, ◌==◌, if◌then◌else◌,
}
use llmproxy.Common.Int.{ℤ, pos, negsuc, ltb_ℤ, leb_ℤ, eqb_ℤ}
use llmproxy.Common.Returns.{◌>>=◌}
use llmproxy.Domain.{EndpointType}
use llmproxy.Http.{Header}
use llmproxy.Heap

-- What is shared with the request's handler has a name here: `writer` is its response writer,
-- `result_chan` the channel of its result, `context` its context and `cancel` what ends that.
-- `timestamp` is in nanoseconds.
pub record PendingRequest : Type 0 where
  pub id : String
  pub session_id : String
  pub request_id : String
  pub priority : ℤ
  pub api_key_id : String
  pub model_alias : String
  pub endpoint_type : EndpointType
  pub timestamp : ℕ
  pub body_bytes : List ℕ
  pub headers : Header
  pub method : String
  pub path : String
  pub remote_addr : String
  pub writer : ℕ
  pub result_chan : ℕ
  pub context : ℕ
  pub cancel : ℕ
  pub queue_wait_ms : ℤ
  pub execution_ms : ℤ
  pub ratelimit_retries : ℤ

-- `Less`: `x` leaves the queue before `y`.
unfoldable pub less : PendingRequest → PendingRequest → Bool
less x y =
    if eqb_ℤ x.priority y.priority then ltb x.timestamp y.timestamp else ltb_ℤ y.priority x.priority

pub record RequestQueue : Type 0 where
  pub heap : List PendingRequest
  pub max : ℤ
  pub closed : Bool

-- `heap.Init` of the empty heap makes no round.
unfoldable pub new_request_queue : ℤ → RequestQueue
new_request_queue max_size = record { heap = []; max = max_size; closed = false }

unfoldable pub close : RequestQueue → RequestQueue
close q = record q { closed = true }

-- The loop that estimates the position of `req`.
unfoldable pub position_loop : PendingRequest → ℕ → List PendingRequest → ℕ
position_loop req position [] = position
position_loop req position (r ∷ rs) =
    position_loop req
      (if ltb_ℤ req.priority r.priority
          || (eqb_ℤ r.priority req.priority && ltb r.timestamp req.timestamp)
        then position + 1
        else position)
      rs

unfoldable pub refuses : RequestQueue → Bool
refuses q = q.closed || (ltb_ℤ (pos 0) q.max && leb_ℤ q.max (pos (length q.heap)))

unfoldable pub enqueue : RequestQueue → PendingRequest → Option (RequestQueue × ℤ × ℤ)
unfolding refuses
enqueue q req = if refuses q then some (q, negsuc 0, negsuc 0) else (do
  h ← Heap.push less q.heap req
  some (record q { heap = h }, pos (position_loop req 0 h), pos (length h)))

-- How a run of `DequeueBlocking` up to its return or its next `cond.Wait` ends.
pub data Outcome : Type 0 where
  got : PendingRequest → Outcome
  finished blocked : Outcome

-- `cancelled r` is what `r.Context.Err() != nil` says when `r` is popped.
unfoldable pub dequeue_loop :
    ℕ → (PendingRequest → Bool) → RequestQueue → Option (RequestQueue × Outcome)
dequeue_loop zero cancelled q = none
dequeue_loop (suc k) cancelled q =
    let pop_one : Option (RequestQueue × Outcome) = do
      (item, h) ← Heap.pop less q.heap
      let rest = dequeue_loop k cancelled (record q { heap = h })
      if cancelled item then rest else some (record q { heap = h }, got item)
    in if (length q.heap == 0) && not q.closed
      then some (q, blocked)
      else if q.closed && (length q.heap == 0)
      then some (q, finished)
      else pop_one

unfoldable pub dequeue_blocking :
    (PendingRequest → Bool) → RequestQueue → Option (RequestQueue × Outcome)
unfolding dequeue_loop
dequeue_blocking cancelled q = dequeue_loop (length q.heap + 1) cancelled q

unfoldable pub queue_length : RequestQueue → ℕ
queue_length q = length q.heap

-- The index of the first request with the id.
unfoldable pub index_from : ℕ → String → List PendingRequest → Option ℕ
index_from i request_id [] = none
index_from i request_id (r ∷ rs) =
    if str_eq r.id request_id then some i else index_from (suc i) request_id rs

unfoldable pub remove : RequestQueue → String → Option (RequestQueue × ℤ)
unfolding index_from
remove q request_id = elim (index_from 0 request_id q.heap) [
  | none ↦ some (q, negsuc 0)
  | some i ↦ do (_, h) ← Heap.remove less q.heap i; some (record q { heap = h }, pos i)
]
