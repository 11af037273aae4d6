-- ===== src/Pool/State.antt =====
-- The vote pool over all routes: `State` and its methods in message-relayer/src/pool/mod.rs. Each
-- looks up a route by chain key, or goes through the routes in the order of the map.
use asc_message_relayer.Prelude.{
  ℕ, zero, suc, ◌+◌, ◌-◌, Bool, true, false, ◌&&◌, ◌||◌, not, Option, none, some, List, [], ◌∷◌,
  ◌++◌, length,
}
use asc_message_relayer.Prelude.Map.{Map, lookup, insert, keys}
use asc_message_relayer.Types.{
  Crypto, secs, IndexedMessage, MessageVote, DeliveryJob, DeliveryResult, ReobservationRequest,
  RouteAttestors, VoteCacheConfig, VoteBundle, VoteOutcome,
}
use asc_message_relayer.Pool.Slot.{MessageSlot, RouteState, push_job}
use asc_message_relayer.Pool.Admission.{can_index, note_indexed}
use asc_message_relayer.Pool.Voting.{note_vote}
use asc_message_relayer.Pool.Results.{
  note_delivery_result, requeue_delivery, collect_ready_deliveries,
}
use asc_message_relayer.Pool.Upkeep.{
  prune_expired, apply_attestor_set, collect_stalled_reobservations, refill_route,
}
pub mod Keyed
pub mod Invariant

pub record State : Type 0 where
  pub by_route : Map RouteState
  pub cache : VoteCacheConfig

abbrev pub empty_route : RouteAttestors → ℕ → RouteState
empty_route a cap = record {
  attestors = a.attestors;
  threshold = a.threshold;
  by_message = [];
  order = [];
  cache_max = cap;
  early_votes = [];
}

-- `collect` into the map: a later route of the same key replaces an earlier one.
unfoldable pub collect_routes : ℕ → List RouteAttestors → Map RouteState → Map RouteState
collect_routes cap [] m = m
collect_routes cap (a ∷ routes) m =
    collect_routes cap routes (insert a.chain_key (empty_route a cap) m)

unfoldable pub new : List RouteAttestors → VoteCacheConfig → State
new routes cache = record { by_route = collect_routes cache.max_messages routes []; cache = cache }

-- `get_mut(&chain_key)` and an operation on the route found, with what it returns on a missing one.
unfoldable pub on_route : {A : Type 0} → ℕ → A → (RouteState → RouteState × A) → State → State × A
on_route chain_key missing f s = elim (lookup chain_key s.by_route) [
  | none ↦ (s, missing)
  | some r ↦ let (r', a) = f r in (record s { by_route = insert chain_key r' s.by_route }, a)
]

unfoldable pub note_indexed_at : Crypto → IndexedMessage → ℕ → State → State × Option DeliveryJob
note_indexed_at x indexed now =
    on_route indexed.chain_key none (note_indexed x indexed.chain_key indexed now)

unfoldable pub note_vote_at : Crypto → MessageVote → ℕ → State → State × Option DeliveryJob
note_vote_at x vote now =
    on_route vote.chain_key none (λ r. let (r', job, outcome) = note_vote x vote now r in (r', job))

unfoldable pub note_delivery_result_at :
    DeliveryResult → ℕ → Option ℕ → State → State × Option DeliveryJob
note_delivery_result_at result now unix =
    on_route result.chain_key none
      (λ r. (note_delivery_result result.message_id result.outcome now unix r, none))

unfoldable pub requeue_delivery_at : ℕ → ℕ → ℕ → State → State
requeue_delivery_at chain_key message_id now s =
    (on_route {A = Unit {0}} chain_key tt (λ r. (requeue_delivery message_id now r, tt)) s).0

unfoldable pub apply_attestor_set_at :
    Crypto → RouteAttestors → ℕ → State → State × List DeliveryJob
apply_attestor_set_at x update now = on_route update.chain_key [] (apply_attestor_set x update now)

unfoldable pub can_index_at : IndexedMessage → State → Bool
can_index_at indexed s = elim (lookup indexed.chain_key s.by_route) [
  | none ↦ true
  | some r ↦ can_index indexed r
]

-- The loops over the routes. `ttl` is in milliseconds.
unfoldable pub prune_routes : ℕ → ℕ → Map RouteState → Map RouteState
prune_routes now ttl [] = []
prune_routes now ttl ((k, r) ∷ m) = (k, prune_expired now ttl r) ∷ prune_routes now ttl m

unfoldable pub prune_expired_at : ℕ → State → State
prune_expired_at now s = record s {
  by_route = prune_routes now (secs s.cache.ttl_seconds) s.by_route;
}

-- A round over the routes that may dispatch jobs.
unfoldable pub each_route :
    (ℕ → RouteState → RouteState × List DeliveryJob)
    → Map RouteState
    → Map RouteState × List DeliveryJob
each_route f [] = ([], [])
each_route f ((k, r) ∷ m) =
    let (r', jobs) = f k r in let (m', more) = each_route f m in ((k, r') ∷ m', jobs ++ more)

unfoldable pub collect_ready_at : Crypto → ℕ → State → State × List DeliveryJob
collect_ready_at x now s =
    let (m, jobs) = each_route (λ k r. collect_ready_deliveries x k now r) s.by_route in
    (record s { by_route = m }, jobs)

-- `refill`, given the records that the store returns for each route.
unfoldable pub refill_at : Crypto → (ℕ → List IndexedMessage) → ℕ → State → State × List DeliveryJob
refill_at x pending now s =
    let (m, jobs) = each_route (λ k r. refill_route x k (pending k) now r) s.by_route in
    (record s { by_route = m }, jobs)

unfoldable pub stalled_routes : ℕ → Map RouteState → Map RouteState × List ReobservationRequest
stalled_routes now [] = ([], [])
stalled_routes now ((k, r) ∷ m) =
    let (r', requests) = collect_stalled_reobservations k now r in
    let (m', more) = stalled_routes now m in ((k, r') ∷ m', requests ++ more)

unfoldable pub collect_stalled_at : ℕ → State → State × List ReobservationRequest
collect_stalled_at now s =
    let (m, requests) = stalled_routes now s.by_route in (record s { by_route = m }, requests)

unfoldable pub total_pending : Map RouteState → ℕ
total_pending [] = 0
total_pending ((k, r) ∷ m) = length r.by_message + total_pending m

-- `query_bundle`: the first route that has the message.
abbrev pub bundle_of : ℕ → ℕ → MessageSlot → VoteBundle
bundle_of chain_key threshold s = record {
  chain_key = chain_key;
  message_id = s.indexed.message_id;
  threshold = threshold;
  signer_count = length s.signers;
  delivered = s.delivered;
  signers = keys s.signers;
}

unfoldable pub query_bundle : ℕ → Map RouteState → Option VoteBundle
query_bundle message_id [] = none
query_bundle message_id ((k, r) ∷ m) =
    let rest = query_bundle message_id m in
    elim (lookup message_id r.by_message) [
      | none ↦ rest
      | some s ↦ some (bundle_of k r.threshold s)
    ]
