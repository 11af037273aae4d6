-- ===== src/Ack.antt =====
-- The acknowledgement submitter of a route: message-relayer/src/ack/mod.rs, from the logs that it
-- finds on the destination to what it does with the outcome of each settlement. An error is `none`.
use asc_message_relayer.Prelude.{
  ℕ, ◌+◌, ◌-◌, Bool, true, false, ◌||◌, ◌&&◌, not, Option, none, some, List, [], ◌∷◌, ◌++◌, ltb,
  leb, min, ◌==◌, if◌then◌else◌, sat_add64,
}
use asc_message_relayer.Pacing.{RateLimitPacer}
use asc_message_relayer.Delivery.Receipt.{first_topic, is_topic}
use asc_message_relayer.Pending.{
  NotReadyPolicy, PendingTxs, BoundedSeen, tracks, is_full, was_seen, insert_tx, note_meta,
}
pub mod Discovery
pub mod Worker
pub mod Holding
pub mod Settled
pub mod Scanned
pub mod Lossless
pub mod Routes
pub mod Attempt
pub mod Final
pub mod EndToEnd

pub record DeliveryEvent : Type 0 where
  pub message_id : ℕ
  pub executed : Bool

pub data EventName : Type 0 where
  message_received message_queued message_deferred message_executed : EventName

-- A log as the RPC returns it.
pub record RpcLog : Type 0 where
  pub address : ℕ
  pub removed : Bool
  pub transaction_hash : Option ℕ
  pub block_number : Option ℕ
  pub topics : List ℕ
  pub payload : List ℕ

-- The bindings of the Inbox: the signature of each event, and its decoder down to the message id.
pub record InboxEvents : Type 0 where
  pub signature : EventName → ℕ
  pub decode : EventName → RpcLog → Option ℕ

abbrev pub named : EventName → Option ℕ → Option (Option (EventName × ℕ))
named name none = none
named name (some id) = some (some (name, id))

-- `some none` is a log of another event.
unfoldable pub decode_delivery_log : InboxEvents → RpcLog → Option (Option (EventName × ℕ))
decode_delivery_log x log =
    let sig = first_topic log.topics in
    if is_topic sig (x.signature message_received)
    then named message_received (x.decode message_received log)
    else if is_topic sig (x.signature message_queued)
    then named message_queued (x.decode message_queued log)
    else if is_topic sig (x.signature message_deferred)
    then named message_deferred (x.decode message_deferred log)
    else if is_topic sig (x.signature message_executed)
    then named message_executed (x.decode message_executed log)
    else some none

abbrev pub is_executed : EventName → Bool
is_executed message_executed = true
is_executed _ = false

pub record Decoded : Type 0 where
  pub tx_hash : ℕ
  pub block : ℕ
  pub event : DeliveryEvent

abbrev pub event_of : EventName × ℕ → DeliveryEvent
event_of (name, id) = record { message_id = id; executed = is_executed name }

abbrev pub outside : ℕ → ℕ → ℕ → Bool
outside from to block = ltb block from || ltb to block

abbrev pub at_block : InboxEvents → RpcLog → ℕ → ℕ → Option (List Decoded)
at_block x log tx block = elim (decode_delivery_log x log) [
  | none ↦ none
  | some none ↦ some []
  | some (some e) ↦ some (record { tx_hash = tx; block = block; event = event_of e } ∷ [])
]

abbrev pub located : InboxEvents → ℕ → ℕ → RpcLog → Option ℕ → Option ℕ → Option (List Decoded)
located x from to log none block = none
located x from to log (some tx) none = none
located x from to log (some tx) (some block) =
    if outside from to block then none else at_block x log tx block

-- One turn of the first loop: no decoded log, or one, or the error that ends the scan.
abbrev pub decode_one : InboxEvents → ℕ → ℕ → ℕ → RpcLog → Option (List Decoded)
decode_one x inbox from to log =
    if not (log.address == inbox) || log.removed
    then none
    else located x from to log log.transaction_hash log.block_number

abbrev pub both : Option (List Decoded) → Option (List Decoded) → Option (List Decoded)
both none rest = none
both (some ds) none = none
both (some ds) (some rest) = some (ds ++ rest)

unfoldable pub decode_range : InboxEvents → ℕ → ℕ → ℕ → List RpcLog → Option (List Decoded)
decode_range x inbox from to [] = some []
decode_range x inbox from to (log ∷ logs) =
    both (decode_one x inbox from to log) (decode_range x inbox from to logs)

abbrev pub same_bool : Bool → Bool → Bool
same_bool true b = b
same_bool false b = not b

abbrev pub same_event : DeliveryEvent → DeliveryEvent → Bool
same_event a b = a.message_id == b.message_id && same_bool a.executed b.executed

abbrev pub earlier : Option ℕ → ℕ → Option ℕ
earlier none block = some block
earlier (some old) block = some (min old block)

-- One turn of the second loop. `seen_at` is the instant at which a hash is inserted.
unfoldable pub observe :
    (ℕ → ℕ)
    → BoundedSeen
    → Decoded
    → PendingTxs DeliveryEvent × Option ℕ
    → PendingTxs DeliveryEvent × Option ℕ
observe seen_at done d (pending, first) =
    if was_seen d.tx_hash done
    then (pending, first)
    else if tracks d.tx_hash pending
    then (note_meta same_event d.tx_hash d.event pending, first)
    else if is_full pending
    then (pending, earlier first d.block)
    else ((insert_tx d.tx_hash (seen_at d.tx_hash) d.block (d.event ∷ []) pending).0, first)

unfoldable pub observe_all :
    (ℕ → ℕ)
    → BoundedSeen
    → List Decoded
    → PendingTxs DeliveryEvent × Option ℕ
    → PendingTxs DeliveryEvent × Option ℕ
observe_all seen_at done [] s = s
observe_all seen_at done (d ∷ ds) s = observe_all seen_at done ds (observe seen_at done d s)

pub record AckConfig : Type 0 where
  pub inbox : ℕ
  pub confirmation_depth : ℕ
  pub start_block : Option ℕ
  pub scan_lookback_blocks : ℕ
  pub policy : NotReadyPolicy

-- What the worker holds in memory, and the cursor that the checkpoint store holds for it.
pub record AckState : Type 0 where
  pub last_seen : ℕ
  pub pending : PendingTxs DeliveryEvent
  pub done : BoundedSeen
  pub pacer : RateLimitPacer
  pub checkpoint : Option ℕ

abbrev pub max_pending_acks : ℕ
max_pending_acks = 10000

abbrev pub max_done_tracked : ℕ
max_done_tracked = 10000

abbrev pub max_acks_per_tick : ℕ
max_acks_per_tick = 256

abbrev pub max_blocks_per_scan : ℕ
max_blocks_per_scan = 2000

abbrev pub cursor_after : Option ℕ → ℕ → ℕ
cursor_after none to = to
cursor_after (some block) to = block - 1

abbrev pub admit : (ℕ → ℕ) → ℕ → Option (List Decoded) → AckState → AckState × Bool
admit seen_at to none s = (s, false)
admit seen_at to (some ds) s =
    let (pending, first) = observe_all seen_at s.done ds (s.pending, none) in
    (record s { pending = pending; last_seen = cursor_after first to }, true)

abbrev pub decode_answer : InboxEvents → ℕ → ℕ → ℕ → Option (List RpcLog) → Option (List Decoded)
decode_answer x inbox from to none = none
decode_answer x inbox from to (some logs) = decode_range x inbox from to logs

abbrev pub first_block : AckState → ℕ
first_block s = s.last_seen + 1

abbrev pub last_block : ℕ → AckState → ℕ
last_block confirmed s = min confirmed (sat_add64 s.last_seen max_blocks_per_scan)

-- The state and whether the scan succeeded. `tip` and `get_logs` are what the RPC answers; the
-- guard leaves `last_seen` below the largest word, so that its successor does not wrap.
unfoldable pub discover_delivered :
    InboxEvents
    → AckConfig
    → (ℕ → ℕ)
    → Option ℕ
    → (ℕ → ℕ → Option (List RpcLog))
    → AckState
    → AckState × Bool
discover_delivered x cfg seen_at none get_logs s = (s, false)
discover_delivered x cfg seen_at (some tip) get_logs s =
    let confirmed = tip - cfg.confirmation_depth in
    let from = first_block s in
    let to = last_block confirmed s in
    if leb confirmed s.last_seen
    then (s, true)
    else admit seen_at to (decode_answer x cfg.inbox from to (get_logs from to)) s
