-- ===== src/MemoryQueue.antt =====
-- internal/storage/memory/queue.go: the message queue in memory. A topic holds its channel, its
-- dispatcher and its subscribers; `topics`, `fanout` and `dispatchers` of the code have the same keys,
-- and are one map here. A call gives control away where it releases the lock and where it waits, so
-- that the operations below are what a goroutine does between two such places: Publish is
-- `publish_begin` under the lock and then `publish_send` without it. `taken` and `handled` are not in
-- the code: they list the messages that the channel took in, and those that the handler was called
-- with. A send on a closed channel panics.
pub mod Delivery
pub mod Topics
pub mod Runs
use Prim.Native.String.{String}
use llmproxy.Common.{
  ℕ, zero, suc, Bool, true, false, List, [], ◌∷◌, ◌++◌, Option, none, some, length, ltb, ◌==◌,
  if◌then◌else◌,
}
use llmproxy.Common.Int.{ℤ, pos, pos_part, leb_ℤ}
use llmproxy.Common.Eq.{Bytes, Dict, lookup, insert, string_instance}

-- A subscription with its goroutine.
pub record Subscriber : Type 0 where
  pub buffer : List Bytes
  pub closed : Bool
  pub finished : Bool
  pub handled : List Bytes

-- Where the dispatcher is: at its `select`, with a message before it copies the subscribers, in the
-- loop over its copy with so many of so many served, or returned.
pub data Dispatcher : Type 0 where
  waiting : Dispatcher
  holding : Bytes → Dispatcher
  sending : Bytes → ℕ → ℕ → Dispatcher
  returned : Dispatcher

pub record Topic : Type 0 where
  pub buffer : List Bytes
  pub closed : Bool
  pub cancelled : Bool
  pub dispatcher : Dispatcher
  pub subscribers : List Subscriber
  pub taken : List Bytes

pub record MemoryQueue : Type 0 where
  pub buffer_size : ℕ
  pub topics : Dict String Topic
  pub closed : Bool

unfoldable pub new_memory_queue : ℤ → MemoryQueue
new_memory_queue buffer_size = record {
  buffer_size = if leb_ℤ buffer_size (pos 0) then 4096 else pos_part buffer_size;
  topics = [];
  closed = false;
}

abbrev pub new_topic : Topic
new_topic = record {
  buffer = [];
  closed = false;
  cancelled = false;
  dispatcher = waiting;
  subscribers = [];
  taken = [];
}

unfoldable pub ensure_topic : String → MemoryQueue → MemoryQueue
ensure_topic k q = elim (lookup k q.topics) [
  | none ↦ record q { topics = insert k new_topic q.topics }
  | some t ↦ q
]

-- `none` is the error of a closed queue.
unfoldable pub publish_begin : String → MemoryQueue → Option MemoryQueue
unfolding ensure_topic
publish_begin k q = if q.closed then none else some (ensure_topic k q)

-- How a send without waiting ends.
pub data Sent : Type 0 where
  sent full panicked : Sent

unfoldable pub publish_send : ℕ → Bytes → Topic → Sent × Topic
publish_send capacity msg t =
    if t.closed
    then (panicked, t)
    else if ltb (length t.buffer) capacity
    then (sent, record t { buffer = t.buffer ++ msg ∷ []; taken = t.taken ++ msg ∷ [] })
    else (full, t)

abbrev pub new_subscriber : Subscriber
new_subscriber = record { buffer = []; closed = false; finished = false; handled = [] }

abbrev pub add_subscriber : Topic → Topic
add_subscriber t = record t { subscribers = t.subscribers ++ new_subscriber ∷ [] }

abbrev pub with_subscriber : String → MemoryQueue → MemoryQueue
with_subscriber k q = elim (lookup k q.topics) [
  | none ↦ q
  | some t ↦ record q { topics = insert k (add_subscriber t) q.topics }
]

unfoldable pub subscribe : String → MemoryQueue → Option MemoryQueue
unfolding ensure_topic
subscribe k q = if q.closed then none else some (with_subscriber k (ensure_topic k q))

-- The dispatcher at its `select`: it gets the next message, or finds the channel closed and empty, or
-- finds its context cancelled. `none`: it cannot go on so.
receive_from : List Bytes → Topic → Option Topic
receive_from [] t = if t.closed then some (record t { dispatcher = returned }) else none
receive_from (msg ∷ rest) t = some (record t { buffer = rest; dispatcher = holding msg })

dispatch_at : Dispatcher → Topic → Option Topic
unfolding receive_from
dispatch_at waiting t = receive_from t.buffer t
dispatch_at _ t = none

unfoldable pub dispatch_receive : Topic → Option Topic
unfolding dispatch_at
dispatch_receive t = dispatch_at t.dispatcher t

copy_at : Dispatcher → Topic → Option Topic
copy_at (holding msg) t = some (record t { dispatcher = sending msg 0 (length t.subscribers) })
copy_at _ t = none

-- The copy of the subscribers, under the lock; later ones stand behind those that are copied.
unfoldable pub dispatch_copy : Topic → Option Topic
unfolding copy_at
dispatch_copy t = copy_at t.dispatcher t

cancel_at : Dispatcher → Topic → Option Topic
cancel_at waiting t = if t.cancelled then some (record t { dispatcher = returned }) else none
cancel_at _ t = none

unfoldable pub dispatch_cancelled : Topic → Option Topic
unfolding cancel_at
dispatch_cancelled t = cancel_at t.dispatcher t

-- The send to one subscriber, which drops the message if the channel is full; `none` is the panic.
offer : ℕ → Bytes → Subscriber → Option Subscriber
offer capacity msg s =
    if s.closed
    then none
    else some
        (if ltb (length s.buffer) capacity then record s { buffer = s.buffer ++ msg ∷ [] } else s)

abbrev put_first : Option Subscriber → List Subscriber → Option (List Subscriber)
put_first none ss = none
put_first (some s) ss = some (s ∷ ss)

abbrev put_later : Subscriber → Option (List Subscriber) → Option (List Subscriber)
put_later s none = none
put_later s (some ss) = some (s ∷ ss)

pub offer_at : ℕ → Bytes → ℕ → List Subscriber → Option (List Subscriber)
unfolding offer
offer_at capacity msg i [] = none
offer_at capacity msg zero (s ∷ ss) = put_first (offer capacity msg s) ss
offer_at capacity msg (suc i) (s ∷ ss) = put_later s (offer_at capacity msg i ss)

abbrev pub put_subscribers : Dispatcher → Topic → Option (List Subscriber) → Option Topic
put_subscribers d t none = none
put_subscribers d t (some ss) = some (record t { dispatcher = d; subscribers = ss })

send_at : ℕ → Dispatcher → Topic → Option Topic
unfolding offer_at
send_at capacity (sending msg i n) t =
    if i == n
    then some (record t { dispatcher = waiting })
    else put_subscribers (sending msg (suc i) n) t (offer_at capacity msg i t.subscribers)
send_at capacity _ t = none

-- The dispatcher in its loop over the copy of the subscribers.
unfoldable pub dispatch_send : ℕ → Topic → Option Topic
unfolding send_at
dispatch_send capacity t = send_at capacity t.dispatcher t

-- The goroutine of a subscription: it calls the handler with the next message, or returns when the
-- channel is closed and empty, or when the context of the subscription ends.
handle_from : List Bytes → Subscriber → Option Subscriber
handle_from [] s = if s.closed then some (record s { finished = true }) else none
handle_from (msg ∷ rest) s = some (record s { buffer = rest; handled = s.handled ++ msg ∷ [] })

unfoldable pub handle_next : Subscriber → Option Subscriber
unfolding handle_from
handle_next s = if s.finished then none else handle_from s.buffer s

unfoldable pub handle_done : Subscriber → Option Subscriber
handle_done s = if s.finished then none else some (record s { finished = true })

unfoldable pub serve_at :
    (Subscriber → Option Subscriber) → ℕ → List Subscriber → Option (List Subscriber)
serve_at serve i [] = none
serve_at serve zero (s ∷ ss) = put_first (serve s) ss
serve_at serve (suc i) (s ∷ ss) = put_later s (serve_at serve i ss)

-- The goroutine of the subscription that stands at an index.
abbrev pub serve_topic : (Subscriber → Option Subscriber) → ℕ → Topic → Option Topic
serve_topic serve j t = put_subscribers t.dispatcher t (serve_at serve j t.subscribers)

abbrev close_subscriber : Subscriber → Subscriber
close_subscriber s = record s { closed = true }

pub close_subscribers : List Subscriber → List Subscriber
close_subscribers [] = []
close_subscribers (s ∷ ss) = close_subscriber s ∷ close_subscribers ss

unfoldable pub close_topic : Topic → Topic
unfolding close_subscribers
close_topic t = record t {
  closed = true;
  cancelled = true;
  subscribers = close_subscribers t.subscribers;
}

unfoldable pub close_topics : Dict String Topic → Dict String Topic
unfolding close_topic
close_topics [] = []
close_topics ((k, t) ∷ m) = (k, close_topic t) ∷ close_topics m

-- `Close` up to where it waits for the goroutines.
unfoldable pub close : MemoryQueue → MemoryQueue
unfolding close_topics
close q = if q.closed then q else record q { topics = close_topics q.topics; closed = true }
