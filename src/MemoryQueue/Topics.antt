-- ===== src/MemoryQueue/Topics.antt =====
-- Every operation on a topic keeps the order in which its messages are delivered.
use llmproxy.Common.{
  ℕ, suc, ◌≡◌, refl, sym, ap, ◌∙◌, List, [], ◌∷◌, ◌++◌, append_assoc, Option, none, some, length,
  ltb, if_prove, ◌==◌,
}
use llmproxy.Common.Returns.{Allows}
use llmproxy.Common.Eq.{Bytes}
use llmproxy.MemoryQueue.{
  Subscriber, Dispatcher, waiting, holding, sending, returned, Topic, new_topic, Sent, serve_topic,
  publish_send, add_subscriber, receive_from, dispatch_at, dispatch_receive, copy_at, dispatch_copy,
  cancel_at, dispatch_cancelled, offer_at, put_subscribers, send_at, dispatch_send, handle_from,
  handle_next, handle_done, serve_at, close_topic,
}
use llmproxy.MemoryQueue.Delivery.{
  got, Fits, Split, IsOrdered, Fits-later, Fits-sent, Fits-added, Fits-closed, Fits-served,
  Fits-offered,
}

pub new_topic-IsOrdered : IsOrdered new_topic
unfolding Fits
new_topic-IsOrdered = record { before = []; split = (refl, tt) }

-- A message that joins the channel, or subscribers that fit as those before.
Split-taken :
    (d : Dispatcher) (before buffer taken : List Bytes) (ss : List Subscriber) (msg : Bytes)
    → Split d before buffer taken ss
    → Split d before (buffer ++ msg ∷ []) (taken ++ msg ∷ []) ss
Split-taken waiting before buffer taken ss msg h =
    (rw h.0 (append_assoc before buffer (msg ∷ [])), h.1)
Split-taken returned before buffer taken ss msg h =
    (rw h.0 (append_assoc before buffer (msg ∷ [])), h.1)
Split-taken (holding m) before buffer taken ss msg h =
    (rw h.0 (append_assoc before (m ∷ buffer) (msg ∷ [])), h.1)
Split-taken (sending m i n) before buffer taken ss msg h =
    (rw h.0 (append_assoc before (m ∷ buffer) (msg ∷ [])), h.1)

Split-Fits :
    (d : Dispatcher) (before buffer taken : List Bytes) (ss ss' : List Subscriber)
    → ((msg : Bytes) (i : ℕ) → Fits before msg i ss → Fits before msg i ss')
    → Split d before buffer taken ss
    → Split d before buffer taken ss'
Split-Fits waiting before buffer taken ss ss' k h = (h.0, k [] 0 h.1)
Split-Fits returned before buffer taken ss ss' k h = (h.0, k [] 0 h.1)
Split-Fits (holding m) before buffer taken ss ss' k h = (h.0, k m 0 h.1)
Split-Fits (sending m i n) before buffer taken ss ss' k h = (h.0, k m i h.1)

pub publish_send-IsOrdered :
    (capacity : ℕ) (msg : Bytes) (t : Topic)
    → IsOrdered t
    → IsOrdered (publish_send capacity msg t).1
unfolding publish_send
publish_send-IsOrdered capacity msg t o =
    if_prove (λ (r : Sent × Topic). IsOrdered r.1) t.closed (λ _. o)
      (λ _.
        if_prove (λ (r : Sent × Topic). IsOrdered r.1) (ltb (length t.buffer) capacity)
          (λ _. record {
            before = o.before;
            split = Split-taken t.dispatcher o.before t.buffer t.taken t.subscribers msg o.split;
          })
          (λ _. o))

pub add_subscriber-IsOrdered : (t : Topic) → IsOrdered t → IsOrdered (add_subscriber t)
add_subscriber-IsOrdered t o = record {
  before = o.before;
  split =
      Split-Fits t.dispatcher o.before t.buffer t.taken t.subscribers _
        (λ msg i f. Fits-added o.before msg i t.subscribers f) o.split;
}

pub close_topic-IsOrdered : (t : Topic) → IsOrdered t → IsOrdered (close_topic t)
unfolding close_topic
close_topic-IsOrdered t o = record {
  before = o.before;
  split =
      Split-Fits t.dispatcher o.before t.buffer t.taken t.subscribers _
        (λ msg i f. Fits-closed o.before msg i t.subscribers f) o.split;
}

receive_from-IsOrdered :
    (buffer : List Bytes) (t : Topic) (before : List Bytes)
    → t.buffer ≡ buffer
    → Split waiting before buffer t.taken t.subscribers
    → Allows IsOrdered (receive_from buffer t)
unfolding receive_from
receive_from-IsOrdered [] t before same h =
    if_prove (Allows IsOrdered) t.closed
      (λ _. record { before = before; split = (h.0 ∙ ap (λ b. before ++ b) (sym same), h.1) })
      (λ _. tt)
receive_from-IsOrdered (msg ∷ rest) t before same h = record {
  before = before;
  split = (h.0, Fits-later before [] msg t.subscribers h.1);
}

dispatch_at-IsOrdered :
    (d : Dispatcher) (t : Topic) (before : List Bytes)
    → Split d before t.buffer t.taken t.subscribers
    → Allows IsOrdered (dispatch_at d t)
unfolding dispatch_at
dispatch_at-IsOrdered waiting t before h = receive_from-IsOrdered t.buffer t before refl h
dispatch_at-IsOrdered returned t before h = tt
dispatch_at-IsOrdered (holding msg) t before h = tt
dispatch_at-IsOrdered (sending msg i n) t before h = tt

pub dispatch_receive-IsOrdered : (t : Topic) → IsOrdered t → Allows IsOrdered (dispatch_receive t)
unfolding dispatch_receive
dispatch_receive-IsOrdered t o = dispatch_at-IsOrdered t.dispatcher t o.before o.split

copy_at-IsOrdered :
    (d : Dispatcher) (t : Topic) (before : List Bytes)
    → Split d before t.buffer t.taken t.subscribers
    → Allows IsOrdered (copy_at d t)
unfolding copy_at
copy_at-IsOrdered (holding msg) t before h = record { before = before; split = h }
copy_at-IsOrdered waiting t before h = tt
copy_at-IsOrdered returned t before h = tt
copy_at-IsOrdered (sending msg i n) t before h = tt

pub dispatch_copy-IsOrdered : (t : Topic) → IsOrdered t → Allows IsOrdered (dispatch_copy t)
unfolding dispatch_copy
dispatch_copy-IsOrdered t o = copy_at-IsOrdered t.dispatcher t o.before o.split

cancel_at-IsOrdered :
    (d : Dispatcher) (t : Topic) (before : List Bytes)
    → Split d before t.buffer t.taken t.subscribers
    → Allows IsOrdered (cancel_at d t)
unfolding cancel_at
cancel_at-IsOrdered waiting t before h =
    if_prove (Allows IsOrdered) t.cancelled (λ _. record { before = before; split = h }) (λ _. tt)
cancel_at-IsOrdered (holding msg) t before h = tt
cancel_at-IsOrdered returned t before h = tt
cancel_at-IsOrdered (sending msg i n) t before h = tt

pub dispatch_cancelled-IsOrdered :
    (t : Topic) → IsOrdered t → Allows IsOrdered (dispatch_cancelled t)
unfolding dispatch_cancelled
dispatch_cancelled-IsOrdered t o = cancel_at-IsOrdered t.dispatcher t o.before o.split

put_subscribers-IsOrdered :
    (d : Dispatcher) (t : Topic) (o : Option (List Subscriber)) (before : List Bytes)
    → Allows (λ ss. Split d before t.buffer t.taken ss) o
    → Allows IsOrdered (put_subscribers d t o)
put_subscribers-IsOrdered d t none before h = tt
put_subscribers-IsOrdered d t (some ss) before h = record { before = before; split = h }

Allows-map :
    {A : Type 0} (P Q : A → Type 0) (o : Option A) → ((a : A) → P a → Q a) → Allows P o → Allows Q o
Allows-map P Q none k h = tt
Allows-map P Q (some a) k h = k a h

send_at-IsOrdered :
    (capacity : ℕ) (d : Dispatcher) (t : Topic) (before : List Bytes)
    → Split d before t.buffer t.taken t.subscribers
    → Allows IsOrdered (send_at capacity d t)
unfolding send_at
send_at-IsOrdered capacity (sending msg i n) t before h =
    if_prove (Allows IsOrdered) (i == n)
      (λ _. record {
        before = before ++ msg ∷ [];
        split = (
          h.0 ∙ sym (append_assoc before (msg ∷ []) t.buffer),
          Fits-sent before msg [] i t.subscribers h.1,
        );
      })
      (λ _.
        put_subscribers-IsOrdered (sending msg (suc i) n) t (offer_at capacity msg i t.subscribers)
          before
          (Allows-map (Fits before msg (suc i)) _ (offer_at capacity msg i t.subscribers)
            (λ ss g. (h.0, g)) (Fits-offered before msg capacity i t.subscribers h.1)))
send_at-IsOrdered capacity waiting t before h = tt
send_at-IsOrdered capacity (holding msg) t before h = tt
send_at-IsOrdered capacity returned t before h = tt

pub dispatch_send-IsOrdered :
    (capacity : ℕ) (t : Topic) → IsOrdered t → Allows IsOrdered (dispatch_send capacity t)
unfolding dispatch_send
dispatch_send-IsOrdered capacity t o = send_at-IsOrdered capacity t.dispatcher t o.before o.split

-- A subscription's goroutine moves messages from its channel to its handler.
pub Moves : (Subscriber → Option Subscriber) → Type 0
Moves serve = (s : Subscriber) → Allows (λ s'. got s' ≡ got s) (serve s)

handle_from-Moves :
    (buffer : List Bytes) (s : Subscriber)
    → s.buffer ≡ buffer
    → Allows (λ s'. got s' ≡ s.handled ++ buffer) (handle_from buffer s)
unfolding handle_from
handle_from-Moves [] s same =
    if_prove (Allows (λ s'. got s' ≡ s.handled ++ [])) s.closed (λ _. ap (λ b. s.handled ++ b) same)
      (λ _. tt)
handle_from-Moves (msg ∷ rest) s same = append_assoc s.handled (msg ∷ []) rest

pub handle_next-Moves : Moves handle_next
unfolding Moves handle_next
handle_next-Moves s =
    if_prove (Allows (λ s'. got s' ≡ got s)) s.finished (λ _. tt)
      (λ _. handle_from-Moves s.buffer s refl)

pub handle_done-Moves : Moves handle_done
unfolding Moves handle_done
handle_done-Moves s = if_prove (Allows (λ s'. got s' ≡ got s)) s.finished (λ _. tt) (λ _. refl)

serve_at-Split :
    (serve : Subscriber → Option Subscriber) (moves : Moves serve) (j : ℕ) (d : Dispatcher)
    (before buffer taken : List Bytes) (ss : List Subscriber)
    → Split d before buffer taken ss
    → Allows (λ ss'. Split d before buffer taken ss') (serve_at serve j ss)
unfolding Moves
serve_at-Split serve moves j waiting before buffer taken ss h =
    Allows-map (Fits before [] 0) _ (serve_at serve j ss) (λ ss' g. (h.0, g))
      (Fits-served before [] serve moves 0 j ss h.1)
serve_at-Split serve moves j returned before buffer taken ss h =
    Allows-map (Fits before [] 0) _ (serve_at serve j ss) (λ ss' g. (h.0, g))
      (Fits-served before [] serve moves 0 j ss h.1)
serve_at-Split serve moves j (holding msg) before buffer taken ss h =
    Allows-map (Fits before msg 0) _ (serve_at serve j ss) (λ ss' g. (h.0, g))
      (Fits-served before msg serve moves 0 j ss h.1)
serve_at-Split serve moves j (sending msg i n) before buffer taken ss h =
    Allows-map (Fits before msg i) _ (serve_at serve j ss) (λ ss' g. (h.0, g))
      (Fits-served before msg serve moves i j ss h.1)

pub serve_topic-IsOrdered :
    (serve : Subscriber → Option Subscriber) (j : ℕ) (t : Topic)
    → Moves serve
    → IsOrdered t
    → Allows IsOrdered (serve_topic serve j t)
serve_topic-IsOrdered serve j t moves o =
    put_subscribers-IsOrdered t.dispatcher t (serve_at serve j t.subscribers) o.before
      (serve_at-Split serve moves j t.dispatcher o.before t.buffer t.taken t.subscribers o.split)
