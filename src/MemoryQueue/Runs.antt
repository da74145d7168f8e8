-- ===== src/MemoryQueue/Runs.antt =====
-- The message queue in a program whose goroutines publish, subscribe, dispatch, handle and close in any
-- order.
use Prim.Native.String.{String}
use mathlib.Core.Option.{some-injective}
use mathlib.Core.Path.{subst}
use text.Mathlib.Text.{◌==◌ as str_eq}
use llmproxy.Common.{
  ℕ, zero, suc, ◌≡◌, refl, sym, ◌∙◌, List, [], ◌∷◌, ◌++◌, append_assoc, Option, none, some, All,
  if_prove, Bool-cases, Option-cases, inl, inr,
}
use llmproxy.Common.Int.{ℤ}
use llmproxy.Common.Returns.{Allows, Allows-at}
use llmproxy.Common.Eq.{Bytes, Dict, lookup, insert, lookup-insert, string_instance}
use llmproxy.MemoryQueue.{
  Subscriber, Dispatcher, waiting, holding, sending, returned, Topic, MemoryQueue, new_topic,
  new_memory_queue, ensure_topic, publish_begin, publish_send, add_subscriber, with_subscriber,
  subscribe, dispatch_receive, dispatch_copy, dispatch_cancelled, dispatch_send, handle_next,
  handle_done, serve_topic, close_topic, close_topics, close,
}
use llmproxy.MemoryQueue.Delivery.{Within, Within-append, got, Fits, Split, IsOrdered}
use llmproxy.MemoryQueue.Topics.{
  new_topic-IsOrdered, publish_send-IsOrdered, add_subscriber-IsOrdered, close_topic-IsOrdered,
  dispatch_receive-IsOrdered, dispatch_copy-IsOrdered, dispatch_cancelled-IsOrdered,
  dispatch_send-IsOrdered, handle_next-Moves, handle_done-Moves, serve_topic-IsOrdered,
}

-- What a goroutine does to a topic on its own, without the lock; the first argument is the capacity.
pub data Act : Type 0 where
  send : Bytes → Act
  receive copy observe_cancel pass_on : Act
  handle leave : ℕ → Act

unfoldable pub act : ℕ → Act → Topic → Option Topic
act capacity (send msg) t = some (publish_send capacity msg t).1
act capacity receive t = dispatch_receive t
act capacity copy t = dispatch_copy t
act capacity observe_cancel t = dispatch_cancelled t
act capacity pass_on t = dispatch_send capacity t
act capacity (handle j) t = serve_topic handle_next j t
act capacity (leave j) t = serve_topic handle_done j t

-- One step: what runs under the lock, or an act on a topic that there is. The send of a Publish stands
-- on its own, since other steps may come between it and the beginning.
pub data Step : MemoryQueue → MemoryQueue → Type 0 where
  began :
      {q : MemoryQueue} (k : String) (q' : MemoryQueue) → publish_begin k q ≡ some q' → Step q q'
  subscribed :
      {q : MemoryQueue} (k : String) (q' : MemoryQueue) → subscribe k q ≡ some q' → Step q q'
  acted :
      {q : MemoryQueue} (k : String) (a : Act) (t t' : Topic)
      → lookup k q.topics ≡ some t
      → act q.buffer_size a t ≡ some t'
      → Step q (record q { topics = insert k t' q.topics })
  closed_all : {q : MemoryQueue} → Step q (close q)

pub data Reach (buffer_size : ℤ) : MemoryQueue → Type 0 where
  here : Reach buffer_size (new_memory_queue buffer_size)
  next : {q q' : MemoryQueue} → Reach buffer_size q → Step q q' → Reach buffer_size q'

-- Every topic delivers in order.
abbrev AllOrdered : Dict String Topic → Type 0
AllOrdered m = (k : String) (t : Topic) → lookup k m ≡ some t → IsOrdered t

insert-AllOrdered :
    (k : String) (t : Topic) (m : Dict String Topic)
    → IsOrdered t
    → AllOrdered m
    → AllOrdered (insert k t m)
insert-AllOrdered k t m o all j u e =
    if_prove (λ z. z ≡ some u → IsOrdered u) (str_eq k j)
      (λ _ f. subst IsOrdered (some-injective t u f) o) (λ _ f. all j u f)
      (sym (lookup-insert k j t m) ∙ e)

act-IsOrdered :
    (capacity : ℕ) (a : Act) (t : Topic) → IsOrdered t → Allows IsOrdered (act capacity a t)
unfolding act
act-IsOrdered capacity (send msg) t o = publish_send-IsOrdered capacity msg t o
act-IsOrdered capacity receive t o = dispatch_receive-IsOrdered t o
act-IsOrdered capacity copy t o = dispatch_copy-IsOrdered t o
act-IsOrdered capacity observe_cancel t o = dispatch_cancelled-IsOrdered t o
act-IsOrdered capacity pass_on t o = dispatch_send-IsOrdered capacity t o
act-IsOrdered capacity (handle j) t o = serve_topic-IsOrdered handle_next j t handle_next-Moves o
act-IsOrdered capacity (leave j) t o = serve_topic-IsOrdered handle_done j t handle_done-Moves o

ensure_topic-AllOrdered :
    (k : String) (q : MemoryQueue) → AllOrdered q.topics → AllOrdered (ensure_topic k q).topics
unfolding ensure_topic
ensure_topic-AllOrdered k q all = elim (Option-cases (lookup k q.topics)) [
  | inl new ↦
      rw (new, ensure_topic) (insert-AllOrdered k new_topic q.topics new_topic-IsOrdered all)
  | inr (t, old) ↦ rw (old, ensure_topic) all
]

with_subscriber-AllOrdered :
    (k : String) (q : MemoryQueue) → AllOrdered q.topics → AllOrdered (with_subscriber k q).topics
with_subscriber-AllOrdered k q all = elim (Option-cases (lookup k q.topics)) [
  | inl new ↦ rw (new, with_subscriber) all
  | inr (t, old) ↦
      rw (old, with_subscriber)
        (insert-AllOrdered k (add_subscriber t) q.topics (add_subscriber-IsOrdered t (all k t old))
          all)
]

lookup-close_topics :
    (k : String) (m : Dict String Topic)
    → lookup k (close_topics m)
      ≡ (elim (lookup k m) [ none ↦ none | some t ↦ some (close_topic t) ])
unfolding close_topics lookup
lookup-close_topics k [] = refl
lookup-close_topics k ((j, t) ∷ m) = elim (Bool-cases (str_eq j k)) [
  | inl found ↦ rw found refl
  | inr other ↦ rw other (lookup-close_topics k m)
]

close_topics-AllOrdered : (m : Dict String Topic) → AllOrdered m → AllOrdered (close_topics m)
close_topics-AllOrdered m all k u e = elim (Option-cases (lookup k m)) [
  | inl absent ↦ cc (rw absent at (sym (lookup-close_topics k m) ∙ e))
  | inr (t, there) ↦
      subst IsOrdered
        (some-injective (close_topic t) u (rw there at (sym (lookup-close_topics k m) ∙ e)))
        (close_topic-IsOrdered t (all k t there))
]

Step-AllOrdered : {q q' : MemoryQueue} → Step q q' → AllOrdered q.topics → AllOrdered q'.topics
unfolding publish_begin subscribe close
Step-AllOrdered (began {q} k q' e) all =
    Allows-at (λ (r : MemoryQueue). AllOrdered r.topics)
      (if_prove (Allows (λ (r : MemoryQueue). AllOrdered r.topics)) q.closed (λ _. tt)
        (λ _. ensure_topic-AllOrdered k q all))
      e
Step-AllOrdered (subscribed {q} k q' e) all =
    Allows-at (λ (r : MemoryQueue). AllOrdered r.topics)
      (if_prove (Allows (λ (r : MemoryQueue). AllOrdered r.topics)) q.closed (λ _. tt)
        (λ _. with_subscriber-AllOrdered k (ensure_topic k q) (ensure_topic-AllOrdered k q all)))
      e
Step-AllOrdered (acted {q} k a t t' there e) all =
    insert-AllOrdered k t' q.topics
      (Allows-at IsOrdered (act-IsOrdered q.buffer_size a t (all k t there)) e) all
Step-AllOrdered (closed_all {q}) all =
    if_prove (λ (r : MemoryQueue). AllOrdered r.topics) q.closed (λ _. all)
      (λ _. close_topics-AllOrdered q.topics all)

Reach-AllOrdered : {n : ℤ} {q : MemoryQueue} → Reach n q → AllOrdered q.topics
unfolding new_memory_queue lookup
Reach-AllOrdered here = λ k t e. cc e
Reach-AllOrdered (next r st) = Step-AllOrdered st (Reach-AllOrdered r)

Fits-Within :
    (before : List Bytes) (msg : Bytes) (i : ℕ) (ss : List Subscriber) (rest : List Bytes)
    → Fits before msg i ss
    → All (λ s. Within (got s) (before ++ msg ∷ rest)) ss
unfolding Fits
Fits-Within before msg i [] rest f = tt
Fits-Within before msg zero (s ∷ ss) rest f =
    (Within-append (msg ∷ rest) f.0, Fits-Within before msg zero ss rest f.1)
Fits-Within before msg (suc i) (s ∷ ss) rest f = (
  rw (append_assoc before (msg ∷ []) rest) at (Within-append rest f.0),
  Fits-Within before msg i ss rest f.1,
)

Fits-Within_none :
    (before : List Bytes) (ss : List Subscriber) (rest : List Bytes)
    → Fits before [] 0 ss
    → All (λ s. Within (got s) (before ++ rest)) ss
unfolding Fits
Fits-Within_none before [] rest f = tt
Fits-Within_none before (s ∷ ss) rest f =
    (Within-append rest f.0, Fits-Within_none before ss rest f.1)

Split-Within :
    (d : Dispatcher) (before buffer taken : List Bytes) (ss : List Subscriber)
    → Split d before buffer taken ss
    → All (λ s. Within (got s) taken) ss
Split-Within waiting before buffer taken ss h = rw h.0 (Fits-Within_none before ss buffer h.1)
Split-Within returned before buffer taken ss h = rw h.0 (Fits-Within_none before ss buffer h.1)
Split-Within (holding msg) before buffer taken ss h =
    rw h.0 (Fits-Within before msg 0 ss buffer h.1)
Split-Within (sending msg i n) before buffer taken ss h =
    rw h.0 (Fits-Within before msg i ss buffer h.1)

-- However goroutines publish, subscribe, dispatch, handle and close: what the handler of a subscriber
-- was called with, followed by what waits in its channel, are messages that the topic's channel took
-- in, in the order in which it did, and each of them no more often than it did.
pub Reach-InOrder :
    {n : ℤ} {q : MemoryQueue} (k : String) (t : Topic)
    → Reach n q
    → lookup k q.topics ≡ some t
    → All (λ s. Within (got s) t.taken) t.subscribers
Reach-InOrder k t r e =
    let o = Reach-AllOrdered r k t e in
    Split-Within t.dispatcher o.before t.buffer t.taken t.subscribers o.split
