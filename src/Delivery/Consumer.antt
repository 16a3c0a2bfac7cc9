-- ===== src/Delivery/Consumer.antt =====
-- consumers/notification_created_consumer.py: what becomes of the messages of one fetch. The loop
-- around it, which waits for messages, never ends and is left out.
pub mod Acks
use substy.Base.{
  ℕ, Bool, true, false, Option, none, some, List, [], ◌∷◌, ◌++◌, String, if◌then◌else◌, Outcome, ok,
  err,
}
use substy.Delivery.Model.{Store}
use substy.Delivery.Fanout.{NotificationCreatedEvent, FanoutService, process_notification_created}

pub record Msg : Type 0 where
  pub «data» : String
  pub subject : String

-- What JetStream is told about a message.
pub data Reply : Type 0 where
  acked nacked : Msg → Reply

pub record Consumer : Type 0 where
  pub store : Store
  pub replies : List Reply

abbrev pub replied : Reply → Store → List Reply → Consumer
replied reply store replies = record { store = store; replies = replies ++ reply ∷ [] }

-- `parse` is the JSON of the data as a validated event (`none`: it raises), `service` the fan-out
-- service with the answers that it gets while the message is handled, `ack_ok` whether the
-- acknowledgement goes through, and `fuel` bounds the pages of subscribers.
module _ (parse : String → Option NotificationCreatedEvent) (service : Msg → FanoutService)
    (ack_ok : Msg → Bool) (fuel : ℕ) where
  -- `await msg.ack()`: where it raises, the message is given back.
  abbrev pub answered : Msg → List Reply → Outcome Bool × Store → Consumer
  answered msg replies (ok is_new, store) =
      replied (if ack_ok msg then acked msg else nacked msg) store replies
  answered msg replies (err e, store) = replied (nacked msg) store replies

  unfoldable pub handle_message : Msg → Consumer → Consumer
  unfolding process_notification_created
  handle_message msg c = elim (parse msg.«data») [
    | none ↦ replied (nacked msg) c.store c.replies
    | some event ↦
        answered msg c.replies
          (process_notification_created (service msg) event fuel msg.subject c.store)
  ]

  unfoldable pub handle_messages : List Msg → Consumer → Consumer
  unfolding handle_message
  handle_messages [] c = c
  handle_messages (msg ∷ messages) c = handle_messages messages (handle_message msg c)
