-- ===== src/RequestQueue/Wakeups.antt =====
-- The goroutines around the queue's condition variable: callers of `DequeueBlocking`, `Enqueue`
-- with its `Signal`, `Remove`, and `Close`, which broadcasts after it gave up the lock.
use Prim.Native.String.{String}
use llmproxy.Common.{
  ℕ, zero, suc, ◌+◌, ◌≤◌, ◌<◌, ◌≡◌, refl, ap, Bool, true, false, ◌∷◌, some, arith, length,
  length-perm, length-append, inl, inr,
}
use llmproxy.Common.Int.{ℤ}
use llmproxy.Common.Returns.{Returns-at}
use llmproxy.RequestQueue.{
  PendingRequest, RequestQueue, new_request_queue, close, refuses, enqueue, Outcome, got, finished,
  blocked, dequeue_blocking, remove,
}
use llmproxy.RequestQueue.Methods.{
  IsValid, empty-IsValid, Enqueued, refused, accepted, enqueue_correct, Dequeued, item, no_item,
  dequeue_correct, Removed, absent, removed, remove_by_id_correct,
}

-- `waiting` goroutines are in `cond.Wait`, `woken` ones are about to run the loop, and
-- `broadcasts` calls of `Close` have set the flag and not yet broadcast.
pub record Monitor : Type 0 where
  pub queue : RequestQueue
  pub waiting : ℕ
  pub woken : ℕ
  pub broadcasts : ℕ

-- `cond.Signal` wakes one waiting goroutine, if there is one.
unfoldable pub signal : ℕ → ℕ → ℕ × ℕ
signal zero woken = (zero, woken)
signal (suc waiting) woken = (waiting, suc woken)

unfoldable pub after_enqueue : Monitor → RequestQueue → Bool → Monitor
unfolding signal
after_enqueue m q' true = record m { queue = q' }
after_enqueue m q' false = record m {
  queue = q';
  waiting = (signal m.waiting m.woken).0;
  woken = (signal m.waiting m.woken).1;
}

unfoldable pub after_run : Monitor → ℕ → RequestQueue → Outcome → Monitor
after_run m woken q' (got r) = record m { queue = q'; woken = woken }
after_run m woken q' finished = record m { queue = q'; woken = woken }
after_run m woken q' blocked = record m { queue = q'; woken = woken; waiting = suc m.waiting }

pub data Step (m : Monitor) : Monitor → Type 0 where
  arrive : Step m (record m { woken = suc m.woken })
  run :
      {q' : RequestQueue} {o : Outcome} (cancelled : PendingRequest → Bool) (w : ℕ)
      → m.woken ≡ suc w
      → dequeue_blocking cancelled m.queue ≡ some (q', o)
      → Step m (after_run m w q' o)
  add :
      {q' : RequestQueue} {p n : ℤ} (req : PendingRequest)
      → enqueue m.queue req ≡ some (q', p, n)
      → Step m (after_enqueue m q' (refuses m.queue))
  take_out :
      {q' : RequestQueue} {n : ℤ} (request_id : String)
      → remove m.queue request_id ≡ some (q', n)
      → Step m (record m { queue = q' })
  close_flag : Step m (record m { queue = close m.queue; broadcasts = suc m.broadcasts })
  close_broadcast :
      (b : ℕ)
      → m.broadcasts ≡ suc b
      → Step m (record m { waiting = 0; woken = m.woken + m.waiting; broadcasts = b })

abbrev pub start : ℤ → Monitor
start max_size = record {
  queue = new_request_queue max_size;
  waiting = 0;
  woken = 0;
  broadcasts = 0;
}

pub data Reach (max_size : ℤ) : Monitor → Type 0 where
  begin : Reach max_size (start max_size)
  next : {m m' : Monitor} → Reach max_size m → Step m m' → Reach max_size m'

-- While a goroutine waits, each queued request has a woken goroutine of its own, and a closed
-- queue still has a broadcast to come.
pub record IsLive (m : Monitor) : Type 0 where
  pub valid : IsValid m.queue
  pub served : 0 < m.waiting → length m.queue.heap ≤ m.woken
  pub ended : m.queue.closed ≡ true → 0 < m.waiting → 0 < m.broadcasts

run-IsLive :
    (m : Monitor) {q' : RequestQueue} {o : Outcome} (cancelled : PendingRequest → Bool) (w : ℕ)
    → m.woken ≡ suc w
    → Dequeued cancelled m.queue (q', o)
    → IsLive m
    → IsLive (after_run m w q' o)
unfolding after_run
run-IsLive m cancelled w e (item {q' = q'} {r = r} dropped v (kept, same_flag) live gone all least)
      h =
    let size = length-perm all in
    let parts = length-append dropped (r ∷ q'.heap) in
    record {
      valid = v;
      served = λ p. omega (arith, size, parts, h.served p);
      ended = λ c p. h.ended (rw (← same_flag) c) p;
    }
run-IsLive m cancelled w e (no_item {q' = q'} {o = o} dropped same gone all (inl (end, flag))) h =
    rw end (record {
      valid = empty-IsValid q' same.0;
      served = λ p. omega (arith, ap length same.0);
      ended = λ c p. h.ended flag p;
    })
run-IsLive m cancelled w e (no_item {q' = q'} {o = o} dropped same gone all (inr (end, flag))) h =
    rw end (record {
      valid = empty-IsValid q' same.0;
      served = λ p. omega (arith, ap length same.0);
      ended = λ c p. cc (c, same.2, flag);
    })

signal_wakes :
    (waiting woken : ℕ)
    → 0 < (signal waiting woken).0
    → (0 < waiting) × ((signal waiting woken).1 ≡ suc woken)
unfolding signal
signal_wakes zero woken h = absurd (omega arith)
signal_wakes (suc waiting) woken h = (omega arith, refl)

accepts_open : (q : RequestQueue) → refuses q ≡ false → q.closed ≡ false
unfolding refuses
accepts_open q h = ground arith

add-IsLive :
    (m : Monitor) {r : RequestQueue × ℤ × ℤ} (req : PendingRequest)
    → Enqueued m.queue req r
    → IsLive m
    → IsLive (after_enqueue m r.0 (refuses m.queue))
unfolding after_enqueue
add-IsLive m req (refused e) h = rw e h
add-IsLive m req (accepted {q' = q'} e v same same_max same_flag p n) h =
    let size : length q'.heap ≡ suc (length m.queue.heap) = length-perm same in
    rw e (record {
      valid = v;
      served = λ w.
          let (some_wait, one_more) = signal_wakes m.waiting m.woken w in
          omega (arith, size, one_more, h.served some_wait);
      ended = λ c w. cc (c, same_flag, accepts_open m.queue e);
    })

take_out-IsLive :
    (m : Monitor) {r : RequestQueue × ℤ} (request_id : String)
    → Removed m.queue request_id r
    → IsLive m
    → IsLive (record m { queue = r.0 })
take_out-IsLive m request_id (absent none_has) h = h
take_out-IsLive m request_id (removed {q' = q'} first v same (same_max, same_flag)) h =
    let size = length-perm same in
    record {
      valid = v;
      served = λ p. omega (arith, size, h.served p);
      ended = λ c p. h.ended (rw (← same_flag) c) p;
    }

Step-IsLive : {m m' : Monitor} → Step m m' → IsLive m → IsLive m'
unfolding close
Step-IsLive arrive h = record {
  valid = h.valid;
  served = λ p. omega (arith, h.served p);
  ended = h.ended;
}
Step-IsLive {m} (run cancelled w e f) h =
    run-IsLive m cancelled w e (Returns-at (dequeue_correct cancelled m.queue h.valid) f) h
Step-IsLive {m} (add req f) h =
    add-IsLive m req (Returns-at (enqueue_correct m.queue req h.valid) f) h
Step-IsLive {m} (take_out request_id f) h =
    take_out-IsLive m request_id (Returns-at (remove_by_id_correct m.queue request_id h.valid) f) h
Step-IsLive close_flag h = record {
  valid = record { ordered = h.valid.ordered; bounded = h.valid.bounded };
  served = h.served;
  ended = λ c p. omega arith;
}
Step-IsLive (close_broadcast b e) h = record {
  valid = h.valid;
  served = λ p. absurd (omega arith);
  ended = λ c p. absurd (omega arith);
}

-- However the calls interleave, no wake-up is lost: while a goroutine sleeps in `DequeueBlocking`,
-- there are at least as many woken goroutines as queued requests, and if the queue is closed then
-- a `Close` has still to broadcast. The heap stays valid throughout.
pub Reach-IsLive : {max_size : ℤ} {m : Monitor} → Reach max_size m → IsLive m
unfolding new_request_queue
Reach-IsLive {max_size} begin = record {
  valid = empty-IsValid (new_request_queue max_size) refl;
  served = λ p. absurd (omega arith);
  ended = λ c p. absurd (omega arith);
}
Reach-IsLive (next r s) = Step-IsLive s (Reach-IsLive r)
