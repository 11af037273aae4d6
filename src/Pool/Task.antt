-- ===== src/Pool/Task.antt =====
-- The pool task: `run` and `dispatch_delivery_job` of message-relayer/src/pool/mod.rs. One event is
-- one iteration of the loop. A delivery channel is a bounded queue that `try_send` appends to; what
-- the store answers, and the clocks, come with the event.
use asc_message_relayer.Prelude.{
  ℕ, zero, suc, ◌+◌, ◌-◌, Bool, true, false, ◌&&◌, ◌||◌, not, Option, none, some, List, [], ◌∷◌,
  ◌++◌, length, ltb, leb, if◌then◌else◌, is_some,
}
use asc_message_relayer.Prelude.Map.{Map, lookup, insert}
use asc_message_relayer.Types.{
  Crypto, IndexedMessage, MessageVote, DeliveryJob, DeliveryResult, DeliveryResultKind,
  ReobservationRequest, RouteAttestors, VoteBundle, VoteCacheConfig, delivered, terminal, retryable,
  awaiting_votes, awaiting_execution,
}
use asc_message_relayer.Pool.State.{
  State, new, note_indexed_at, note_vote_at, note_delivery_result_at, requeue_delivery_at,
  apply_attestor_set_at, can_index_at, prune_expired_at, collect_ready_at, refill_at,
  collect_stalled_at, query_bundle,
}
pub mod Safety

pub record Channel : Type 0 where
  pub queue : List DeliveryJob
  pub capacity : ℕ
  pub closed : Bool

pub record Task : Type 0 where
  pub state : State
  pub deferred : Option IndexedMessage
  pub durable : Bool  -- `work.is_some()`
  pub channels : Map Channel
  pub running : Bool

-- `dispatch_delivery_job`: `false` stands for the error, on which the caller requeues.
unfoldable pub dispatch_delivery_job : DeliveryJob → Map Channel → Map Channel × Bool
dispatch_delivery_job job channels = elim (lookup job.chain_key channels) [
  | none ↦ (channels, false)
  | some c ↦
      if c.closed || leb c.capacity (length c.queue)
      then (channels, false)
      else (insert job.chain_key (record c { queue = c.queue ++ job ∷ [] }) channels, true)
]

-- Dispatch, and return the slot to the pool if that fails.
unfoldable pub send : ℕ → DeliveryJob → Task → Task
send now job t =
    let (channels, sent) = dispatch_delivery_job job t.channels in
    if sent
    then record t { channels = channels }
    else record t { state = requeue_delivery_at job.chain_key job.message_id now t.state }

abbrev pub send_opt : ℕ → Option DeliveryJob → Task → Task
send_opt now none t = t
send_opt now (some job) t = send now job t

unfoldable pub send_all : ℕ → List DeliveryJob → Task → Task
send_all now [] t = t
send_all now (job ∷ jobs) t = send_all now jobs (send now job t)

pub data Event : Type 0 where
  cancelled indexed_closed votes_closed : Event
  set_update : RouteAttestors → Event
  indexed : IndexedMessage → Event
  vote : MessageVote → Event
  -- A report, the wall clock, and whether the store completed a final result.
  delivery_result : DeliveryResult → Option ℕ → Bool → Event
  query : ℕ → Event
  -- The tick, with what `refill` reads for each route, or its failure.
  prune_tick : Option (ℕ → List IndexedMessage) → Event
  -- A delivery worker takes the next job of its channel.
  job_taken : ℕ → Event

abbrev pub is_final : DeliveryResultKind → Bool
is_final delivered = true
is_final terminal = true
is_final retryable = false
is_final awaiting_votes = false
is_final (awaiting_execution retry_after) = false

-- What the pool gives back besides jobs.
pub data Reply : Type 0 where
  silent : Reply
  bundle : Option VoteBundle → Reply
  requests : List ReobservationRequest → Reply

-- The top of the loop: a deferred message is indexed once it fits.
unfoldable pub resume_deferred : Crypto → ℕ → Task → Task
resume_deferred x now t = elim t.deferred [
  | none ↦ t
  | some m ↦
      if can_index_at m t.state
      then (let (s, job) = note_indexed_at x m now t.state in
          send_opt now job (record t { state = s; deferred = none }))
      else t
]

-- The arm of an indexed message; it is polled only while none is deferred.
unfoldable pub on_indexed : Crypto → ℕ → IndexedMessage → Task → Task
on_indexed x now m t =
    if is_some t.deferred
    then t
    else if can_index_at m t.state
    then (let (s, job) = note_indexed_at x m now t.state in
        send_opt now job (record t { state = s }))
    else if t.durable
    then t
    else record t { deferred = some m }

-- `refill` and the dispatch of what it loads, with persistence.
unfoldable pub refilled : Crypto → ℕ → (ℕ → List IndexedMessage) → Task → Task
refilled x now pending t =
    if t.durable
    then (let (s, jobs) = refill_at x pending now t.state in
        send_all now jobs (record t { state = s }))
    else t

-- The rest of the tick: requests for votes that are missing, and the deliveries that are due.
unfoldable pub rounds : Crypto → ℕ → Task → Task × Reply
rounds x now t =
    let (s2, stalled) = collect_stalled_at now t.state in
    let (s3, ready) = collect_ready_at x now s2 in
    (send_all now ready (record t { state = s3 }), requests stalled)

-- The arm of the tick. With a store, its failure ends the task; without one, it is not asked.
unfoldable pub on_tick : Crypto → ℕ → Option (ℕ → List IndexedMessage) → Task → Task × Reply
on_tick x now none t =
    let t1 = record t { state = prune_expired_at now t.state } in
    if t.durable then (record t1 { running = false }, silent) else rounds x now t1
on_tick x now (some pending) t =
    rounds x now (refilled x now pending (record t { state = prune_expired_at now t.state }))

abbrev pub rest_of : List DeliveryJob → List DeliveryJob
rest_of [] = []
rest_of (job ∷ jobs) = jobs

unfoldable pub on_event : Crypto → ℕ → Event → Task → Task × Reply
on_event x now cancelled t = (record t { running = false }, silent)
on_event x now indexed_closed t = (record t { running = false }, silent)
on_event x now votes_closed t = (record t { running = false }, silent)
on_event x now (set_update update) t =
    let (s, jobs) = apply_attestor_set_at x update now t.state in
    (send_all now jobs (record t { state = s }), silent)
on_event x now (indexed m) t = (on_indexed x now m t, silent)
on_event x now (vote v) t =
    let (s, job) = note_vote_at x v now t.state in
    (send_opt now job (record t { state = s }), silent)
on_event x now (delivery_result result unix completed) t =
    if is_final result.outcome && (t.durable && not completed)
    then (record t { running = false }, silent)
    else (let (s, job) = note_delivery_result_at result now unix t.state in
        (send_opt now job (record t { state = s }), silent))
on_event x now (query message_id) t = (t, bundle (query_bundle message_id t.state.by_route))
on_event x now (prune_tick answers) t = on_tick x now answers t
on_event x now (job_taken chain_key) t = elim (lookup chain_key t.channels) [
  | none ↦ (t, silent)
  | some c ↦ (
    record t { channels = insert chain_key (record c { queue = rest_of c.queue }) t.channels },
    silent,
  )
]

-- One iteration of the loop, while it runs.
unfoldable pub iterate : Crypto → ℕ → Event → Task → Task × Reply
iterate x now e t = if t.running then on_event x now e (resume_deferred x now t) else (t, silent)

-- A run: a list of clock readings with events.
unfoldable pub run : Crypto → List (ℕ × Event) → Task → Task
run x [] t = t
run x ((now, e) ∷ es) t = run x es (iterate x now e t).0

-- The start: an empty pool and an empty channel of a given capacity for each route.
unfoldable pub empty_channels : Map ℕ → Map Channel
empty_channels [] = []
empty_channels ((k, n) ∷ m) =
    (k, record { queue = []; capacity = n; closed = false }) ∷ empty_channels m

unfoldable pub start : List RouteAttestors → VoteCacheConfig → Bool → Map ℕ → Task
start routes cache durable capacities = record {
  state = new routes cache;
  deferred = none;
  durable = durable;
  channels = empty_channels capacities;
  running = true;
}
