-- ===== src/Pool.antt =====
-- internal/worker/pool.go, the loop of the workers: a request is taken from the queue, asked of the
-- limiter, and forwarded, or put back after a pause by a goroutine of its own. A step is what one
-- goroutine does up to its next wait; what the limiter answers and what contexts say is chosen by
-- the step. The forwarding itself is in Worker.
pub mod Requests
use llmproxy.Common.{
  ℕ, suc, ◌+◌, ◌≡◌, Bool, true, false, List, [], ◌∷◌, ◌++◌, Option, none, some, if◌then◌else◌,
}
use llmproxy.Common.Int.{ℤ, pos, ◌+ℤ◌, ◌-ℤ◌}
use llmproxy.Common.Returns.{◌>>=◌}
use llmproxy.RequestQueue.{
  PendingRequest, RequestQueue, new_request_queue, close, refuses, enqueue, Outcome, got, finished,
  blocked, dequeue_blocking,
}

-- `sleeping` are the requests that goroutines hold back, `busy` those that workers forward,
-- `answered` those with a result, and `refused` those that the queue did not take back.
pub record Pool : Type 0 where
  pub queue : RequestQueue
  pub sleeping : List PendingRequest
  pub busy : List PendingRequest
  pub answered : List PendingRequest
  pub refused : List PendingRequest
  pub stopped : Bool
  pub blocked_count : ℕ
  pub active_worker : ℤ

abbrev pub new_pool : RequestQueue → Pool
new_pool q = record {
  queue = q;
  sleeping = [];
  busy = [];
  answered = [];
  refused = [];
  stopped = false;
  blocked_count = 0;
  active_worker = pos 0;
}

-- A worker has the request `r`, and the limiter has answered.
unfoldable pub admit_or_hold : Bool → PendingRequest → Pool → Pool
admit_or_hold true r m = record m { busy = r ∷ m.busy; active_worker = m.active_worker +ℤ pos 1 }
admit_or_hold false r m = record m {
  sleeping = r ∷ m.sleeping;
  blocked_count = suc m.blocked_count;
  active_worker = m.active_worker +ℤ pos 1 -ℤ pos 1;
}

-- What follows a run of `DequeueBlocking`; a worker that gets nil returns, and one that blocks waits.
unfoldable pub after_dequeue : Bool → RequestQueue → Outcome → Pool → Pool
unfolding admit_or_hold
after_dequeue allowed q (got r) m = admit_or_hold allowed r (record m { queue = q })
after_dequeue allowed q finished m = record m { queue = q }
after_dequeue allowed q blocked m = record m { queue = q }

-- The pause of `r` is over; `rest` are the other requests that are held back. The result of
-- `Enqueue` is dropped. `none` is a panic.
unfoldable pub wake_up : Bool → PendingRequest → List PendingRequest → Pool → Option Pool
wake_up true r rest m = some (record m { sleeping = rest })
wake_up false r rest m = do
  (q, _, _) ← enqueue m.queue r
  some (record m {
    queue = q;
    sleeping = rest;
    refused = if refuses m.queue then r ∷ m.refused else m.refused;
  })

-- The result of `r` goes to its channel, or its context is done.
unfoldable pub hand_back : PendingRequest → List PendingRequest → Pool → Pool
hand_back r rest m = record m {
  busy = rest;
  answered = r ∷ m.answered;
  active_worker = m.active_worker -ℤ pos 1;
}

-- `Stop` up to its wait.
unfoldable pub stop : Pool → Pool
stop m = record m { stopped = true; queue = close m.queue }

-- The steps, where `ends` are the requests whose context ends at some time.
pub data Step (ends : PendingRequest → Bool) (m : Pool) : Pool → Type 0 where
  work :
      {q : RequestQueue} {o : Outcome} (allowed : Bool) (cancelled : PendingRequest → Bool)
      → ((x : PendingRequest) → cancelled x ≡ true → ends x ≡ true)
      → dequeue_blocking cancelled m.queue ≡ some (q, o)
      → Step ends m (after_dequeue allowed q o m)
  wake :
      {m' : Pool} (gone : Bool) (r : PendingRequest) (before after : List PendingRequest)
      → (gone ≡ true → ends r ≡ true)
      → m.sleeping ≡ before ++ r ∷ after
      → wake_up gone r (before ++ after) m ≡ some m'
      → Step ends m m'
  finish :
      (r : PendingRequest) (before after : List PendingRequest)
      → m.busy ≡ before ++ r ∷ after
      → Step ends m (hand_back r (before ++ after) m)
  shut : Step ends m (stop m)

-- The states that the steps and the handlers of clients lead to, with the requests that the queue
-- took from the handlers.
pub data Reach (ends : PendingRequest → Bool) (max_size : ℤ)
    : Pool → List PendingRequest → Type 0 where
  begin : Reach ends max_size (new_pool (new_request_queue max_size)) []
  next :
      {m m' : Pool} {taken : List PendingRequest}
      → Reach ends max_size m taken
      → Step ends m m'
      → Reach ends max_size m' taken
  submit :
      {m : Pool} {taken : List PendingRequest} {q : RequestQueue} {p n : ℤ} (r : PendingRequest)
      → Reach ends max_size m taken
      → enqueue m.queue r ≡ some (q, p, n)
      → Reach ends max_size (record m { queue = q }) (if refuses m.queue then taken else r ∷ taken)
