-- ===== src/Delivery/Fanout/Duplicates.antt =====
-- A second attempt for the same notification, user and channel (repositories/delivery_attempts.py).
use substy.Base.{
  ℕ, ◌≡◌, true, false, Option, String, Json, ok, err, postgres, in_tx, no_tx, find_row, some, arith,
  aborted_tx,
}
use substy.Delivery.Model.{DeliveryAttemptRecord, Store, Env}
use substy.Delivery.Attempts.{same_target, channel_allowed, create_or_get}

module _ (env : Env) (id notification_id user_id : ℕ) (channel : String) (payload : Json)
    (start end : Option ℕ) (timezone : String) (s : Store)
    (allowed : channel_allowed channel ≡ true) (a : DeliveryAttemptRecord)
    (there : find_row (same_target notification_id user_id channel) s.db.delivery_attempts
      ≡ some a) where
  -- Outside a transaction, for an allowed channel, `create_or_get` returns the row that is there
  -- for the notification, user and channel, and writes nothing.
  pub create_or_get_again :
      s.tx ≡ no_tx
      → create_or_get env id notification_id user_id channel payload start end timezone s
        ≡ (ok (a, false), s)
  unfolding create_or_get
  create_or_get_again idle = ground arith

  -- Within a transaction, as the fan-out calls it, and for an allowed channel whose row is there,
  -- the refused INSERT has aborted the block: the SELECT for that row is refused too, and the call
  -- raises.
  pub create_or_get_in_block :
      s.tx ≡ in_tx
      → create_or_get env id notification_id user_id channel payload start end timezone s
        ≡ (err (postgres "25P02"), record s { tx = aborted_tx })
  unfolding create_or_get
  create_or_get_in_block block = ground arith
