-- ===== src/Examples/Pool.antt =====
-- The theorems on the vote pool at a route with three attestors.
use asc_message_relayer.Prelude.{
  ℕ, suc, length, ltb, ◌==◌, ◌&&◌, if◌then◌else◌, ◌*◌, ◌≤◌, ◌<◌, ◌≡◌, refl, true, false, ◌||◌,
  Option, none, some, List, [], ◌∷◌, ◌++◌, inl, arith,
}
use asc_message_relayer.Prelude.Map.{lookup, insert, contains_key}
use asc_message_relayer.Prelude.Sorted.{insert_sorted}
use asc_message_relayer.Types.{DeliveryJob, RouteAttestors, VoteCacheConfig, retryable}
use asc_message_relayer.Pool.Signature.{calculate_threshold, recover_signer, secp256k1_half_order}
use asc_message_relayer.Pool.Signature.Canonical.{recover_signer-encode, encode, secp256k1_order}
use asc_message_relayer.Pool.Signature.Quorum.{calculate_threshold-overlap, Within, common}
use asc_message_relayer.Pool.Slot.{
  push_job, dispatch_if_ready, dispatch_slot, has_quorum, job_of, MessageSlot,
}
use asc_message_relayer.Pool.Invariant.{Sound, Sound?}
use asc_message_relayer.Pool.Admission.{
  make_room, make_room_loop, admit, fresh_slot, note_indexed, can_index,
}
use asc_message_relayer.Pool.Admission.Room.{Ended, make_room_loop-Ended, make_room-can_index}
use asc_message_relayer.Pool.Admission.Index.{
  note_indexed-Sound, note_indexed-stores, note_indexed-keeps,
}
use asc_message_relayer.Pool.Voting.{note_vote, checked_signer, count_vote, vote_on_slot}
use asc_message_relayer.Pool.Voting.Sound.{note_vote-Sound}
use asc_message_relayer.Pool.Voting.Counting.{
  Accepted, note_vote-Accepted, KeepsSignature, note_vote-KeepsSignature,
}
use asc_message_relayer.Pool.Results.{settle_slot, note_delivery_result, collect_ready_deliveries}
use asc_message_relayer.Pool.Results.Retry.{HasJob, report-redispatches}
use asc_message_relayer.Pool.Upkeep.{prune_expired, apply_attestor_set, refill_route}
use asc_message_relayer.Pool.Upkeep.Sound.{Pruned, lookup-prune_expired, apply_attestor_set-Sound}
use asc_message_relayer.Pool.Upkeep.Rotation.{refill_route-keeps}
use asc_message_relayer.Pool.Task.{Event, indexed, vote, set_update, run, start}
use asc_message_relayer.Pool.Task.Safety.{TaskInv, updates_of, run-start-TaskInv}
use asc_message_relayer.Pool.Flight.{jobs_for, flight}
use asc_message_relayer.Pool.Flight.Single.{Reaches, starts, indexes, votes, single_flight}
use asc_message_relayer.Examples.Data.{
  crypto, zeros, signature_of, set, message, vote_of, idle_route, indexed_route, voted_route,
  launched_route, idle_route-RouteInv, voted_route-RouteInv, launched_route-RouteInv,
}

abbrev cache : VoteCacheConfig
cache = record { ttl_seconds = 60; max_messages = 1 }

abbrev events : List (ℕ × Event)
events =
    (10, indexed (message 5))
    ∷ (20, vote (vote_of 5 1))
    ∷ (30, vote (vote_of 5 2))
    ∷ (40, set_update (record set { threshold = 3 }))
    ∷ []

run-start-TaskInv_example :
    TaskInv crypto
      ((set ∷ []) ++ updates_of events)
      (run crypto events (start (set ∷ []) cache false ((7, 4) ∷ [])))
run-start-TaskInv_example = run-start-TaskInv crypto (set ∷ []) cache false ((7, 4) ∷ []) events

abbrev launched_jobs : List DeliveryJob
launched_jobs = push_job (note_vote crypto (vote_of 5 2) 30 voted_route).1 (
    push_job (note_vote crypto (vote_of 5 1) 20 indexed_route).1
      (push_job (note_indexed crypto 7 (message 5) 10 idle_route).1 []))

launched_route-Reaches : Reaches crypto set 1 launched_route launched_jobs
launched_route-Reaches =
    votes (vote_of 5 2) 30 (votes (vote_of 5 1) 20 (indexes (message 5) 10 starts))

single_flight_example :
    (jobs_for 5 launched_jobs ≤ 1) × (jobs_for 5 launched_jobs ≡ flight 5 launched_route)
single_flight_example =
    single_flight crypto set 1 launched_route launched_jobs launched_route-Reaches 5

note_vote-Accepted_example : Accepted crypto (vote_of 5 1) 20 indexed_route
unfolding note_vote note_indexed make_room make_room_loop admit lookup insert recover_signer
    checked_signer count_vote vote_on_slot dispatch_if_ready dispatch_slot insert_sorted
note_vote-Accepted_example = note_vote-Accepted crypto (vote_of 5 1) 20 indexed_route refl

voted_route-KeepsSignature : KeepsSignature voted_route 5 1 (signature_of 1)
unfolding note_vote note_indexed make_room make_room_loop admit lookup insert recover_signer
    checked_signer count_vote vote_on_slot dispatch_if_ready dispatch_slot insert_sorted
voted_route-KeepsSignature = (_, refl, refl)

note_vote-KeepsSignature_example :
    KeepsSignature (note_vote crypto (vote_of 5 2) 30 voted_route).0 5 1 (signature_of 1)
note_vote-KeepsSignature_example =
    note_vote-KeepsSignature crypto (vote_of 5 2) 30 voted_route 5 1 (signature_of 1)
      voted_route-RouteInv voted_route-KeepsSignature

note_vote-Sound_example :
    Sound? crypto voted_route
      (note_vote crypto (vote_of 5 2) 30 voted_route).0
      (note_vote crypto (vote_of 5 2) 30 voted_route).1
note_vote-Sound_example = note_vote-Sound crypto (vote_of 5 2) 30 voted_route voted_route-RouteInv

note_indexed-Sound_example :
    Sound? crypto launched_route
      (note_indexed crypto 7 (message 6) 40 launched_route).0
      (note_indexed crypto 7 (message 6) 40 launched_route).1
note_indexed-Sound_example =
    note_indexed-Sound crypto 7 (message 6) 40 launched_route launched_route-RouteInv

note_indexed-stores_example :
    contains_key 5 (note_indexed crypto 7 (message 5) 10 idle_route).0.by_message ≡ true
unfolding can_index lookup
note_indexed-stores_example =
    note_indexed-stores crypto 7 (message 5) 10 idle_route idle_route-RouteInv refl

-- The slot found, or that of a message just indexed.
abbrev slot_of : Option MessageSlot → MessageSlot
slot_of none = fresh_slot (message 5) 10
slot_of (some s) = s

abbrev launched_slot : MessageSlot
launched_slot = slot_of (lookup 5 launched_route.by_message)

note_indexed-keeps_example :
    lookup 5 (note_indexed crypto 7 (message 6) 40 launched_route).0.by_message ≡ some launched_slot
unfolding note_vote note_indexed make_room make_room_loop admit lookup insert recover_signer
    checked_signer count_vote vote_on_slot dispatch_if_ready dispatch_slot insert_sorted
note_indexed-keeps_example =
    note_indexed-keeps crypto 7 (message 6) 40 launched_route 5 launched_slot refl refl

make_room_loop-Ended_example :
    Ended (make_room_loop (suc (length launched_route.by_message)) launched_route)
make_room_loop-Ended_example =
    make_room_loop-Ended crypto (suc (length launched_route.by_message)) launched_route
      launched_route-RouteInv (omega arith)

make_room-can_index_example :
    can_index (message 6) launched_route
    ≡ (contains_key 6 launched_route.by_message || (make_room launched_route).1)
make_room-can_index_example =
    make_room-can_index crypto launched_route (message 6) launched_route-RouteInv

report-redispatches_example :
    HasJob
      (job_of crypto 7
        (has_quorum launched_route.threshold (settle_slot retryable 50 none launched_slot))
        (settle_slot retryable 50 none launched_slot))
      (collect_ready_deliveries crypto 7 300050
        (note_delivery_result 5 retryable 50 none launched_route)).1
unfolding settle_slot note_vote note_indexed make_room make_room_loop admit lookup insert
    recover_signer checked_signer count_vote vote_on_slot dispatch_if_ready dispatch_slot
    insert_sorted
report-redispatches_example =
    report-redispatches crypto 7 5 50 300050 none retryable launched_route launched_slot refl refl
      refl (omega arith)

refill_route-keeps_example :
    lookup 5 (refill_route crypto 7 (message 6 ∷ []) 9999999 launched_route).0.by_message
    ≡ some launched_slot
unfolding note_vote note_indexed make_room make_room_loop admit lookup insert recover_signer
    checked_signer count_vote vote_on_slot dispatch_if_ready dispatch_slot insert_sorted
refill_route-keeps_example =
    refill_route-keeps crypto 7 (message 6 ∷ []) 9999999 launched_route 5 launched_slot refl refl
      (inl refl)

lookup-prune_expired_example :
    Pruned 50 60
      (lookup 5 launched_route.by_message)
      (lookup 5 (prune_expired 50 60 launched_route).by_message)
lookup-prune_expired_example =
    lookup-prune_expired crypto 50 60 launched_route 5 launched_route-RouteInv

abbrev update : RouteAttestors
update = record { chain_key = 7; attestors = 2 ∷ 3 ∷ 4 ∷ []; threshold = 1 }

apply_attestor_set-Sound_example :
    Sound crypto
      (record voted_route { attestors = update.attestors; threshold = update.threshold })
      (apply_attestor_set crypto update 25 voted_route).0
      (apply_attestor_set crypto update 25 voted_route).1
apply_attestor_set-Sound_example =
    apply_attestor_set-Sound crypto update 25 voted_route voted_route-RouteInv

-- Two groups of three out of four.
abbrev four : List ℕ
four = 1 ∷ 2 ∷ 3 ∷ 4 ∷ []

first_in_four : Within (1 ∷ 2 ∷ 3 ∷ []) four
first_in_four a h = ground (arith, h)

last_in_four : Within (2 ∷ 3 ∷ 4 ∷ []) four
last_in_four a h = ground (arith, h)

calculate_threshold-overlap_example :
    (calculate_threshold 4 ≤ 4)
    × (2 * 4 < 3 * calculate_threshold 4)
    × (4 < 3 * length (common (1 ∷ 2 ∷ 3 ∷ []) (2 ∷ 3 ∷ 4 ∷ [])))
unfolding calculate_threshold
calculate_threshold-overlap_example =
    calculate_threshold-overlap four (1 ∷ 2 ∷ 3 ∷ []) (2 ∷ 3 ∷ 4 ∷ []) (omega arith) (omega arith)
      (refl, (refl, (refl, tt))) (refl, (refl, (refl, tt))) first_in_four last_in_four (omega arith)
      (omega arith)

-- The largest s that is accepted.
recover_signer-encode_example :
    recover_signer crypto 5 (encode (1 ∷ zeros 31) secp256k1_half_order 27) ≡ (
      if (27 == 27 || 27 == 28) && ltb (2 * secp256k1_half_order) secp256k1_order
      then crypto.recover_address 5 (encode (1 ∷ zeros 31) secp256k1_half_order 27)
      else none)
recover_signer-encode_example =
    recover_signer-encode (1 ∷ zeros 31) secp256k1_half_order 27 refl crypto 5 (omega arith)
