-- ===== src/Tests/Messages.antt =====
-- A message that is published, dispatched and handled.
use llmproxy.Common.{◌≡◌, refl, false, [], ◌∷◌, some, All}
use llmproxy.Common.Int.{pos}
use llmproxy.Common.Eq.{Bytes, lookup, insert, string_instance}
use llmproxy.MemoryQueue.{
  Subscriber, Topic, MemoryQueue, holding, sending, new_memory_queue, new_topic, publish_begin,
  publish_send, subscribe, dispatch_receive, dispatch_copy, dispatch_send, handle_next, serve_at,
}
use llmproxy.MemoryQueue.Delivery.{Within, got}
use llmproxy.MemoryQueue.Runs.{
  act, Reach, here, next, began, subscribed, acted, send, receive, copy, pass_on, handle,
  Reach-InOrder,
}

abbrev message : Bytes
message = 104 ∷ 105 ∷ []

abbrev with_topic : Topic → MemoryQueue
with_topic t = record { buffer_size = 2; topics = ("logs", t) ∷ []; closed = false }

abbrev listener : Subscriber
listener = record { buffer = []; closed = false; finished = false; handled = [] }

abbrev subscribed_topic : Topic
subscribed_topic = record new_topic { subscribers = listener ∷ [] }

abbrev sent_topic : Topic
sent_topic = record subscribed_topic { buffer = message ∷ []; taken = message ∷ [] }

abbrev held_topic : Topic
held_topic = record sent_topic { buffer = []; dispatcher = holding message }

abbrev passed_topic : Topic
passed_topic = record held_topic {
  dispatcher = sending message 1 1;
  subscribers = record listener { buffer = message ∷ [] } ∷ [];
}

abbrev handled_topic : Topic
handled_topic = record passed_topic {
  subscribers = record listener { handled = message ∷ [] } ∷ [];
}

Reach-handled : Reach (pos 2) (with_topic handled_topic)
unfolding new_memory_queue publish_begin subscribe act publish_send dispatch_receive dispatch_copy
    dispatch_send handle_next serve_at lookup insert
Reach-handled =
    next
      (next
        (next
          (next
            (next
              (next (next here (began "logs" (with_topic new_topic) refl))
                (subscribed "logs" (with_topic subscribed_topic) refl))
              (acted "logs" (send message) subscribed_topic sent_topic refl refl))
            (acted "logs" receive sent_topic held_topic refl refl))
          (acted "logs" copy held_topic (record held_topic { dispatcher = sending message 0 1 })
            refl refl))
        (acted "logs" pass_on (record held_topic { dispatcher = sending message 0 1 }) passed_topic
          refl refl))
      (acted "logs" (handle 0) passed_topic handled_topic refl refl)

found_topic : lookup "logs" (with_topic handled_topic).topics ≡ some handled_topic
unfolding lookup
found_topic = refl

Reach-InOrder_example : All (λ s. Within (got s) handled_topic.taken) handled_topic.subscribers
Reach-InOrder_example = Reach-InOrder "logs" handled_topic Reach-handled found_topic
