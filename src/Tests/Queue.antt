-- ===== src/Tests/Queue.antt =====
-- The request queue on a heap of two requests.
use mathlib.Core.Option.{some-injective}
use Prim.Native.String.{String}
use text.Mathlib.Text.{◌==◌ as str_eq}
use llmproxy.Common.{ℕ, zero, suc, ◌≡◌, refl, Bool, false, [], ◌∷◌, some, arith}
use llmproxy.Common.Int.{ℤ, pos}
use llmproxy.Common.Returns.{Returns}
use llmproxy.Heap
use llmproxy.Heap.Order.{IsHeap}
use llmproxy.RequestQueue.{
  PendingRequest, less, RequestQueue, new_request_queue, refuses, position_loop, enqueue,
  dequeue_loop, dequeue_blocking, remove,
}
use llmproxy.RequestQueue.Methods.{
  IsValid, Dequeued, dequeue_correct, Removed, remove_by_id_correct,
}
use llmproxy.RequestQueue.Wakeups.{
  Monitor, Reach, begin, next, arrive, run, add, start, IsLive, Reach-IsLive, after_run,
  after_enqueue, signal,
}

abbrev request : String → ℤ → ℕ → PendingRequest
request id priority timestamp = record {
  id = id;
  session_id = "";
  request_id = id;
  priority = priority;
  api_key_id = "";
  model_alias = "m";
  endpoint_type = "chat";
  timestamp = timestamp;
  body_bytes = [];
  headers = [];
  method = "POST";
  path = "/v1/chat/completions";
  remote_addr = "";
  writer = 0;
  result_chan = 0;
  context = 0;
  cancel = 0;
  queue_wait_ms = pos 0;
  execution_ms = pos 0;
  ratelimit_retries = pos 0;
}

abbrev urgent : PendingRequest
urgent = request "a" (pos 5) 30

abbrev normal : PendingRequest
normal = request "b" (pos 1) 10

abbrev late_urgent : PendingRequest
late_urgent = request "c" (pos 5) 40

abbrev two_queued : RequestQueue
two_queued = record { heap = urgent ∷ normal ∷ []; max = pos 3; closed = false }

abbrev gone : PendingRequest → Bool
gone r = str_eq r.id "a"

two_queued-IsHeap : IsHeap less (urgent ∷ normal ∷ [])
unfolding less
two_queued-IsHeap zero x y e f = rw (← some-injective _ _ e, ← some-injective _ _ f) refl
two_queued-IsHeap (suc zero) x y e f = rw (← some-injective _ _ e, ← some-injective _ _ f) refl
two_queued-IsHeap (suc (suc c)) x y e f = cc f

two_queued-IsValid : IsValid two_queued
two_queued-IsValid = record { ordered = two_queued-IsHeap; bounded = λ p. omega arith }

-- The second request of the highest priority goes behind the first and before all others.
enqueue_run :
    enqueue two_queued late_urgent
    ≡ some (record two_queued { heap = urgent ∷ normal ∷ late_urgent ∷ [] }, pos 1, pos 3)
unfolding enqueue refuses position_loop less Heap.push Heap.up Heap.up_loop Heap.less_at Heap.swap
enqueue_run = refl

dequeue_correct_example : Returns (Dequeued gone two_queued) (dequeue_blocking gone two_queued)
dequeue_correct_example = dequeue_correct gone two_queued two_queued-IsValid

remove_by_id_correct_example : Returns (Removed two_queued "b") (remove two_queued "b")
remove_by_id_correct_example = remove_by_id_correct two_queued "b" two_queued-IsValid

-- A goroutine that sleeps on an empty queue is woken by the first request.
abbrev asleep : Monitor
asleep = record (start (pos 3)) { waiting = 1 }

abbrev served_one : Monitor
served_one = record asleep {
  queue = record { heap = normal ∷ []; max = pos 3; closed = false };
  waiting = 0;
  woken = 1;
}

asleep-Reach : Reach (pos 3) asleep
unfolding dequeue_blocking dequeue_loop after_run new_request_queue
asleep-Reach = next (next begin arrive) (run gone 0 refl refl)

served_one-Reach : Reach (pos 3) served_one
unfolding enqueue refuses position_loop less Heap.push Heap.up Heap.up_loop Heap.less_at Heap.swap
    after_enqueue signal new_request_queue
served_one-Reach = next asleep-Reach (add normal refl)

Reach-IsLive_example : IsLive served_one
Reach-IsLive_example = Reach-IsLive served_one-Reach
