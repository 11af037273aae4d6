-- ===== src/Pool/Slot.antt =====
-- The state of the vote pool and of one message in it: `State`, `RouteState`, `EarlyVotes`,
-- `MessageSlot`, `dispatch_if_ready`
-- and the loops that call it, of message-relayer/src/pool/mod.rs.

pub mod Dispatch
use asc_message_relayer.Prelude.{
  ℕ, zero, suc, ◌+◌, ◌-◌, ◌<◌, ◌≤◌, ◌≡◌, Bool, true, false, ◌&&◌, ◌||◌, not, Option, none, some,
  List, [], ◌∷◌, length, ltb, leb, if◌then◌else◌, arith, sat_add32,
}
use asc_message_relayer.Prelude.Map.{Map, values, lookup, insert}
use asc_message_relayer.Types.{Bytes, Crypto, IndexedMessage, DeliveryJob}
use asc_message_relayer.Delivery.Backoff.{delivery_retry_max}

pub record EarlyVotes : Type 0 where
  pub signers : Map Bytes
  pub first_seen : ℕ

pub record MessageSlot : Type 0 where
  pub indexed : IndexedMessage
  pub signers : Map Bytes
  pub delivered : Bool
  pub terminal : Bool
  pub in_flight : Bool
  pub last_reconciled_at : Option ℕ
  pub execution_accepted : Bool
  pub delivery_attempts : ℕ
  pub next_delivery_attempt_at : Option ℕ
  pub inserted_at : ℕ
  pub last_reobs_request : Option ℕ

pub record RouteState : Type 0 where
  pub attestors : List ℕ
  pub threshold : ℕ
  pub by_message : Map MessageSlot
  pub order : List ℕ
  pub cache_max : ℕ
  pub early_votes : Map EarlyVotes

-- `slot.delivered || slot.terminal`.
abbrev pub resolved : MessageSlot → Bool
resolved s = s.delivered || s.terminal

-- `Option::is_none_or` of a test on the time that has passed since.
abbrev pub none_or_since : Option ℕ → ℕ → ℕ → Bool
none_or_since none now d = true
none_or_since (some t) now d = leb d (now - t)

-- `next.is_some_and(|next| now < next)`.
abbrev pub before : ℕ → Option ℕ → Bool
before now none = false
before now (some next) = ltb now next

abbrev pub has_quorum : ℕ → MessageSlot → Bool
has_quorum threshold s = ltb 0 threshold && leb threshold (length s.signers)

abbrev pub can_reconcile : Bool → ℕ → MessageSlot → Bool
can_reconcile allow_probe now s =
    s.execution_accepted || allow_probe && none_or_since s.last_reconciled_at now delivery_retry_max

abbrev pub job_of : Crypto → ℕ → Bool → MessageSlot → DeliveryJob
job_of x chain_key quorum s = record {
  chain_key = chain_key;
  message_id = s.indexed.message_id;
  emitter = s.indexed.emitter;
  outbox = s.indexed.outbox;
  sequence = s.indexed.sequence;
  payload = s.indexed.payload;
  votes_calldata = x.abi_encode (values s.signers);
  signer_count = length s.signers;
  indexed_at = s.inserted_at;
  reconcile_only = s.execution_accepted || not quorum;
}

-- The slot as the dispatch leaves it.
abbrev pub launch : MessageSlot → MessageSlot
launch s = record s {
  in_flight = true;
  delivery_attempts = sat_add32 s.delivery_attempts 1;
  next_delivery_attempt_at = none;
}

-- `dispatch_if_ready` on the slot it looked up.
unfoldable pub dispatch_slot :
    Crypto → ℕ → ℕ → ℕ → Bool → MessageSlot → MessageSlot × Option DeliveryJob
dispatch_slot x chain_key threshold now allow_probe s =
    let quorum = has_quorum threshold s in
    if resolved s || (s.in_flight || (not quorum && not (can_reconcile allow_probe now s)))
    then (s, none)
    else if before now s.next_delivery_attempt_at
    then (s, none)
    else (launch s, some (job_of x chain_key quorum s))

-- `if let Some(job) = ... { jobs.push(job) }`.
abbrev pub push_job : Option DeliveryJob → List DeliveryJob → List DeliveryJob
push_job none jobs = jobs
push_job (some job) jobs = job ∷ jobs

-- `get_mut(&hash)?` and the dispatch of the slot found.
unfoldable pub dispatch_if_ready :
    Crypto → ℕ → ℕ → ℕ → Bool → RouteState → RouteState × Option DeliveryJob
dispatch_if_ready x chain_key hash now allow_probe r = elim (lookup hash r.by_message) [
  | none ↦ (r, none)
  | some s ↦
      let (s', job) = dispatch_slot x chain_key r.threshold now allow_probe s in
      (record r { by_message = insert hash s' r.by_message }, job)
]

-- The dispatches of a loop over ids, in order.
unfoldable pub dispatch_all :
    Crypto → ℕ → ℕ → Bool → List ℕ → RouteState → RouteState × List DeliveryJob
dispatch_all x chain_key now allow_probe [] r = (r, [])
dispatch_all x chain_key now allow_probe (hash ∷ hashes) r =
    let (r', job) = dispatch_if_ready x chain_key hash now allow_probe r in
    let (r'', jobs) = dispatch_all x chain_key now allow_probe hashes r' in (r'', push_job job jobs)
