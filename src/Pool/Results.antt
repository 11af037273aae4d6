-- ===== src/Pool/Results.antt =====
-- What the delivery workers report back: `note_delivery_result`, `requeue_delivery` and
-- `collect_ready_deliveries` of message-relayer/src/pool/mod.rs, on one route.
pub mod Sound
pub mod Retry
use asc_message_relayer.Prelude.{ℕ, ◌+◌, ◌-◌, Bool, true, false, Option, none, some, List}
use asc_message_relayer.Prelude.Map.{Map, lookup, insert, keys}
use asc_message_relayer.Types.{
  Crypto, secs, DeliveryJob, DeliveryResultKind, delivered, terminal, retryable, awaiting_votes,
  awaiting_execution,
}
use asc_message_relayer.Delivery.Backoff.{pending_retry_delay, delivery_retry_delay}
use asc_message_relayer.Pool.Slot.{MessageSlot, RouteState, dispatch_all}

-- `get_mut(&hash)` of one slot and a change to it.
unfoldable pub update_slot : ℕ → (MessageSlot → MessageSlot) → RouteState → RouteState
update_slot hash f r = elim (lookup hash r.by_message) [
  | none ↦ r
  | some s ↦ record r { by_message = insert hash (f s) r.by_message }
]

-- The `match` on the outcome. `now` is the pool's clock, `unix` the wall clock in seconds.
unfoldable pub settle_slot : DeliveryResultKind → ℕ → Option ℕ → MessageSlot → MessageSlot
settle_slot delivered now unix s = record s { in_flight = false; delivered = true }
settle_slot terminal now unix s = record s { in_flight = false; terminal = true }
settle_slot retryable now unix s = record s {
  in_flight = false;
  next_delivery_attempt_at = some (now + delivery_retry_delay s.delivery_attempts);
}
settle_slot awaiting_votes now unix s = record s {
  in_flight = false;
  last_reconciled_at = some now;
  execution_accepted = false;
  next_delivery_attempt_at = none;
}
settle_slot (awaiting_execution retry_after) now unix s = record s {
  in_flight = false;
  last_reconciled_at = some now;
  execution_accepted = true;
  next_delivery_attempt_at =
      some (now + pending_retry_delay (s.delivery_attempts - 1) retry_after unix);
}

-- The source returns `None` on every path, so only the state is modelled.
unfoldable pub note_delivery_result :
    ℕ → DeliveryResultKind → ℕ → Option ℕ → RouteState → RouteState
note_delivery_result message_id outcome now unix r =
    update_slot message_id (settle_slot outcome now unix) r

abbrev pub requeue_delay : ℕ
requeue_delay = secs 2

abbrev pub requeue_slot : ℕ → MessageSlot → MessageSlot
requeue_slot now s = record s {
  in_flight = false;
  delivery_attempts = s.delivery_attempts - 1;
  next_delivery_attempt_at = some (now + requeue_delay);
}

unfoldable pub requeue_delivery : ℕ → ℕ → RouteState → RouteState
requeue_delivery message_id now r = update_slot message_id (requeue_slot now) r

unfoldable pub collect_ready_deliveries :
    Crypto → ℕ → ℕ → RouteState → RouteState × List DeliveryJob
collect_ready_deliveries x chain_key now r = dispatch_all x chain_key now true (keys r.by_message) r
