-- ===== src/AsyncLogger.antt =====
-- internal/logging/logger.go: the asynchronous log. Its two halves, for request logs and for their
-- details, are a buffered channel and a worker each, which differ in their entries and in the size
-- of a batch; a bulk insert is a call that is written down, since its error is only printed. A
-- handler that logs, the worker, `Flush` and `Close` run interleaved: an event is one receive or
-- send of one of them, or what it does up to its next one. The queries of the interface go to the
-- database unchanged.
pub mod Accounting
pub mod Order
use llmproxy.Common.{
  ℕ, zero, suc, ◌≤◌, ◌<◌, ◌≡◌, Bool, true, false, List, [], ◌∷◌, ◌++◌, Option, none, some, ltb,
  length, if◌then◌else◌,
}
use llmproxy.Common.Returns.{◌>>=◌}
use llmproxy.Domain.{RequestLog, DetailLog}

-- A buffered channel; `capacity` is positive.
pub record Channel {ℓ} (A : Type ℓ) : Type ℓ where
  pub capacity : ℕ
  pub buffer : List A

-- Where the loop of a worker is: in its `select`, in the one that drains, or returned.
pub data Phase : Type 0 where
  serving draining exited : Phase

-- `flushing` is what a running call of `Flush` has received; `inserts` are the bulk inserts, the
-- first one first, and `dropped` is the number of warnings.
pub record Half {ℓ} (A : Type ℓ) : Type ℓ where
  pub channel : Channel A
  pub batch : List A
  pub phase : Phase
  pub stopped : Bool
  pub flushing : Option (List A)
  pub inserts : List (List A)
  pub dropped : ℕ

pub record AsyncLogger : Type 0 where
  pub requests : Half RequestLog
  pub details : Half DetailLog

abbrev pub new_half {ℓ} : {A : Type ℓ} → ℕ → Half A
new_half buffer_size = record {
  channel = record { capacity = buffer_size; buffer = [] };
  batch = [];
  phase = serving;
  stopped = false;
  flushing = none;
  inserts = [];
  dropped = 0;
}

unfoldable pub new_logger : ℕ → AsyncLogger
new_logger buffer_size = record { requests = new_half buffer_size; details = new_half buffer_size }

module _ {ℓ} {A : Type ℓ} where
  -- The send of `AsyncLog` and of `AsyncLogDetail`.
  unfoldable pub send_or_drop : A → Half A → Half A
  send_or_drop x h =
      if ltb (length h.channel.buffer) h.channel.capacity
      then record h { channel = record h.channel { buffer = h.channel.buffer ++ x ∷ [] } }
      else record h { dropped = suc h.dropped }

  unfoldable pub insert_batch : List A → List (List A) → List (List A)
  insert_batch [] inserts = inserts
  insert_batch (x ∷ xs) inserts = inserts ++ (x ∷ xs) ∷ []

  -- The closure `flush` of a worker. The error of the bulk insert is printed and the batch is gone
  -- whether there is one or not, so that the insert stands here for its call.
  unfoldable pub flush_batch : Half A → Half A
  unfolding insert_batch
  flush_batch h = record h { batch = []; inserts = insert_batch h.batch h.inserts }

  -- The worker receives `x`, and `rest` is left in the channel.
  abbrev pub received : A → List A → Half A → Half A
  received x rest h = record h {
    channel = record h.channel { buffer = rest };
    batch = h.batch ++ x ∷ [];
  }

  unfoldable pub serve_one : ℕ → A → List A → Half A → Half A
  unfolding flush_batch
  serve_one limit x rest h =
      let h' = received x rest h in if ltb (length h'.batch) limit then h' else flush_batch h'

  -- The case of the worker's `select` that receives, where `limit` is the size of a batch and the
  -- list is what the channel holds. The empty channel blocks it, and is the default of the loop
  -- that drains.
  unfoldable pub receives : ℕ → Half A → Phase → List A → Option (Half A)
  unfolding serve_one
  receives limit h serving [] = none
  receives limit h serving (x ∷ rest) = some (serve_one limit x rest h)
  receives limit h draining [] = some (record (flush_batch h) { phase = exited })
  receives limit h draining (x ∷ rest) = some (received x rest h)
  receives limit h exited _ = none

  unfoldable pub ticks : Half A → Phase → Option (Half A)
  unfolding flush_batch
  ticks h serving = some (flush_batch h)
  ticks h _ = none

  unfoldable pub observes_stop : Half A → Phase → Bool → Option (Half A)
  observes_stop h serving true = some (record h { phase = draining })
  observes_stop h _ _ = none

  -- `Flush` up to its first receive, and one receive of its loop with what follows it.
  unfoldable pub flush_begins : Half A → Option (List A) → Option (Half A)
  flush_begins h none = some (record h { flushing = some [] })
  flush_begins h (some got) = none

  unfoldable pub flush_receives : Half A → Option (List A) → List A → Option (Half A)
  unfolding insert_batch
  flush_receives h none _ = none
  flush_receives h (some got) [] =
      some (record h { flushing = none; inserts = insert_batch got h.inserts })
  flush_receives h (some got) (x ∷ rest) =
      some
        (record h { channel = record h.channel { buffer = rest }; flushing = some (got ++ x ∷ []) })

  unfoldable pub close : Half A → Half A
  close h = record h { stopped = true }

unfoldable pub async_log : RequestLog → AsyncLogger → AsyncLogger
async_log x l = record l { requests = send_or_drop x l.requests }

unfoldable pub async_log_detail : DetailLog → AsyncLogger → AsyncLogger
async_log_detail x l = record l { details = send_or_drop x l.details }

-- The one signal of `Close` stops both workers.
unfoldable pub close_both : AsyncLogger → AsyncLogger
close_both l = record l { requests = close l.requests; details = close l.details }

-- What the goroutines of a half do next, besides logging.
pub data Event : Type 0 where
  work_receive work_tick work_stop do_flush flush_next do_close : Event

-- An event of a call of `Flush`.
unfoldable pub of_flush : Event → Bool
of_flush do_flush = true
of_flush flush_next = true
of_flush _ = false

module _ {ℓ} {A : Type ℓ} (limit : ℕ) where
  -- The state after an event, if the goroutine of the event is where it can do it.
  unfoldable pub perform : Event → Half A → Option (Half A)
  unfolding receives ticks observes_stop flush_begins flush_receives close
  perform work_receive h = receives limit h h.phase h.channel.buffer
  perform work_tick h = ticks h h.phase
  perform work_stop h = observes_stop h h.phase h.stopped
  perform do_flush h = flush_begins h h.flushing
  perform flush_next h = flush_receives h h.flushing h.channel.buffer
  perform do_close h = some (close h)

  -- `k` rounds of the worker's loop, of which each receives.
  unfoldable pub rounds : ℕ → Half A → Option (Half A)
  rounds zero h = some h
  rounds (suc k) h = receives limit h h.phase h.channel.buffer >>= λ h'. rounds k h'

  -- The states that an interleaving of the events that may happen can reach, with the entries that
  -- the channel took in, the first one first.
  pub data Reach (may : Event → Bool) (buffer_size : ℕ) : Half A → List A → Type ℓ where
    begin : Reach may buffer_size (new_half buffer_size) []
    taken :
        {h : Half A} {accepted : List A} (x : A)
        → Reach may buffer_size h accepted
        → length h.channel.buffer < h.channel.capacity
        → Reach may buffer_size (send_or_drop x h) (accepted ++ x ∷ [])
    full :
        {h : Half A} {accepted : List A} (x : A)
        → Reach may buffer_size h accepted
        → h.channel.capacity ≤ length h.channel.buffer
        → Reach may buffer_size (send_or_drop x h) accepted
    inside :
        {h h' : Half A} {accepted : List A} (e : Event)
        → Reach may buffer_size h accepted
        → may e ≡ true
        → perform e h ≡ some h'
        → Reach may buffer_size h' accepted

-- The two workers.
abbrev pub request_worker : Event → Half RequestLog → Option (Half RequestLog)
request_worker = perform 256

abbrev pub detail_worker : Event → Half DetailLog → Option (Half DetailLog)
detail_worker = perform 64
