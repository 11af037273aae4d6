-- ===== src/Delivery/Receipt.antt =====
-- What the logs of a mined delivery say: `classify_success_logs` of
-- message-relayer/src/delivery/mod.rs. The event signatures and the decoders are the contract
-- bindings', and so parameters.
use asc_message_relayer.Prelude.{
  ℕ, ◌≡◌, refl, Bool, true, false, ◌||◌, ◌&&◌, not, Option, none, some, List, [], ◌∷◌, ◌==◌,
  if◌then◌else◌, arith,
}

pub record Log : Type 0 where
  pub address : ℕ
  pub topics : List ℕ
  pub payload : List ℕ

-- The signature hashes, and the decoders of the two events that are decoded.
pub record Bindings : Type 0 where
  pub destination_failed : ℕ
  pub message_queued : ℕ
  pub message_deferred : ℕ
  pub message_executed : ℕ
  pub decode_dispatcher : Log → Option ℕ
  pub decodes_executed : Log → Bool

pub data ReceiptClass : Type 0 where
  delivered : ReceiptClass
  destination_failed_by : ℕ → ReceiptClass
  pending unknown : ReceiptClass

abbrev pub first_topic : List ℕ → Option ℕ
first_topic [] = none
first_topic (t ∷ ts) = some t

abbrev pub second_topic : List ℕ → Option ℕ
second_topic [] = none
second_topic (t ∷ ts) = first_topic ts

abbrev pub is_topic : Option ℕ → ℕ → Bool
is_topic none t = false
is_topic (some u) t = u == t

-- The log is the Inbox's, and about the message.
abbrev pub relevant : ℕ → ℕ → Log → Bool
relevant inbox message_id log =
    log.address == inbox && is_topic (second_topic log.topics) message_id

abbrev pub is_event : ℕ → Log → Bool
is_event t log = is_topic (first_topic log.topics) t

abbrev pub is_pending : Bindings → Log → Bool
is_pending x log = is_event x.message_queued log || is_event x.message_deferred log

abbrev pub dispatcher_of : Option ℕ → ℕ
dispatcher_of none = 0
dispatcher_of (some a) = a

abbrev pub verdict : Bool → Bool → ReceiptClass
verdict pending_seen executed =
    if pending_seen then pending else if executed then delivered else unknown

-- The loop, with its two flags.
unfoldable pub classify_loop : Bindings → ℕ → ℕ → List Log → Bool → Bool → ReceiptClass
classify_loop x inbox message_id [] pending_seen executed = verdict pending_seen executed
classify_loop x inbox message_id (log ∷ logs) pending_seen executed =
    let skip = classify_loop x inbox message_id logs pending_seen executed in
    let queued = classify_loop x inbox message_id logs true executed in
    let ran = classify_loop x inbox message_id logs pending_seen (x.decodes_executed log) in
    if not (relevant inbox message_id log)
    then skip
    else if is_event x.destination_failed log
    then destination_failed_by (dispatcher_of (x.decode_dispatcher log))
    else if is_pending x log
    then queued
    else if is_event x.message_executed log
    then ran
    else skip

unfoldable pub classify_success_logs : Bindings → ℕ → ℕ → List Log → ReceiptClass
classify_success_logs x inbox message_id logs = classify_loop x inbox message_id logs false false

abbrev pub any_log : (Log → Bool) → List Log → Bool
any_log p [] = false
any_log p (log ∷ logs) = p log || any_log p logs

-- The logs that prove execution, and those that speak against it.
abbrev pub proves : Bindings → ℕ → ℕ → Log → Bool
proves x inbox message_id log =
    relevant inbox message_id log && (is_event x.message_executed log && x.decodes_executed log)

abbrev pub disproves : Bindings → ℕ → ℕ → Log → Bool
disproves x inbox message_id log =
    relevant inbox message_id log && (is_event x.destination_failed log || is_pending x log)

classify_loop-delivered :
    (x : Bindings) (inbox message_id : ℕ) (logs : List Log) (pending_seen executed : Bool)
    → classify_loop x inbox message_id logs pending_seen executed ≡ delivered
    → (pending_seen ≡ false)
      × ((executed || any_log (proves x inbox message_id) logs) ≡ true)
      × (any_log (disproves x inbox message_id) logs ≡ false)
unfolding classify_loop
classify_loop-delivered x inbox message_id [] pending_seen executed e =
    (ground (arith, e), ground (arith, e), refl)
classify_loop-delivered x inbox message_id (log ∷ logs) pending_seen executed e =
    let skip = classify_loop-delivered x inbox message_id logs pending_seen executed in
    let queued = classify_loop-delivered x inbox message_id logs true executed in
    let ran =
      classify_loop-delivered x inbox message_id logs pending_seen (x.decodes_executed log) in
    (
      ground (arith, e, skip, queued, ran),
      ground (arith, e, skip, queued, ran),
      ground (arith, e, skip, queued, ran),
    )

-- A delivery counts as executed only if the Inbox itself logged an execution of this message that
-- decodes, and logged neither a failure nor a queueing nor a deferral of it.
pub classify_success_logs-delivered :
    (x : Bindings) (inbox message_id : ℕ) (logs : List Log)
    → classify_success_logs x inbox message_id logs ≡ delivered
    → (any_log (proves x inbox message_id) logs ≡ true)
      × (any_log (disproves x inbox message_id) logs ≡ false)
unfolding classify_success_logs
classify_success_logs-delivered x inbox message_id logs e =
    let (p, q, r) = classify_loop-delivered x inbox message_id logs false false e in (q, r)
