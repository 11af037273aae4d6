-- ===== src/Pool/Upkeep.antt =====
-- Upkeep of one route: `prune_expired`, `apply_attestor_set`, `collect_stalled_reobservations` and
-- the rotation of `refill` of message-relayer/src/pool/mod.rs.
pub mod Sound
pub mod Rotation
use asc_message_relayer.Prelude.{
  ℕ, ◌+◌, ◌-◌, ◌*◌, ◌/◌, Bool, true, false, ◌&&◌, ◌||◌, not, Option, none, some, List, [], ◌∷◌,
  ◌++◌, length, ltb, leb, ◌==◌, if◌then◌else◌, contains, retain, take, max,
}
use asc_message_relayer.Prelude.Map.{
  Map, lookup, remove, retain_map, contains_key, keys, map_values,
}
use asc_message_relayer.Types.{
  Bytes, Crypto, secs, IndexedMessage, DeliveryJob, ReobservationRequest, RouteAttestors,
}
use asc_message_relayer.Pool.Slot.{
  EarlyVotes, MessageSlot, RouteState, resolved, none_or_since, dispatch_all, push_job,
}
use asc_message_relayer.Pool.Admission.{note_indexed}

abbrev pub reobs_stall_after : ℕ
reobs_stall_after = secs 60

abbrev pub reobs_repeat_every : ℕ
reobs_repeat_every = secs 60

abbrev pub working_set_residence : ℕ
working_set_residence = secs (5 * 60)

-- What `prune_expired` removes: delivered slots, and terminal ones past the TTL.
abbrev pub expired : ℕ → ℕ → MessageSlot → Bool
expired now ttl s = s.delivered || s.terminal && ltb ttl (now - s.inserted_at)

unfoldable pub prune_expired : ℕ → ℕ → RouteState → RouteState
prune_expired now ttl r =
    let kept = retain_map (λ h s. not (expired now ttl s)) r.by_message in
    record r {
      by_message = kept;
      order = retain (λ h. contains_key h kept) r.order;
      early_votes = retain_map (λ h e. leb (now - e.first_seen) ttl) r.early_votes;
    }

-- The loop of `apply_attestor_set` over the slots: prune the signers of those that are unresolved.
abbrev pub prune_signers : List ℕ → MessageSlot → MessageSlot
prune_signers attestors s =
    if resolved s
    then s
    else record s { signers = retain_map (λ a sig. contains attestors a) s.signers }

abbrev pub prune_slots : List ℕ → Map MessageSlot → Map MessageSlot
prune_slots attestors m = map_values (prune_signers attestors) m

-- The ids that the same loop collects.
unfoldable pub ready_ids : ℕ → Map MessageSlot → List ℕ
ready_ids threshold [] = []
ready_ids threshold ((h, s) ∷ m) =
    let rest = ready_ids threshold m in
    if resolved s || (s.in_flight || ltb (length s.signers) threshold) then rest else h ∷ rest

-- `Vec`'s equality.
abbrev pub same_addresses : List ℕ → List ℕ → Bool
same_addresses [] [] = true
same_addresses (a ∷ as') (b ∷ bs) = a == b && same_addresses as' bs
same_addresses _ _ = false

unfoldable pub apply_attestor_set :
    Crypto → RouteAttestors → ℕ → RouteState → RouteState × List DeliveryJob
apply_attestor_set x update now r =
    let r' = record r { attestors = update.attestors; threshold = update.threshold } in
    if same_addresses r.attestors update.attestors && r.threshold == update.threshold
    then (r', [])
    else (let slots = prune_slots update.attestors r.by_message in
        dispatch_all x update.chain_key now false (ready_ids update.threshold slots)
          (record r' { by_message = slots }))

-- A message that waits below quorum, and that no recent request names.
abbrev pub stalled : ℕ → ℕ → MessageSlot → Bool
stalled threshold now s =
    not (resolved s || (s.in_flight || (s.execution_accepted || leb threshold (length s.signers))))
    && (leb reobs_stall_after (now - s.inserted_at)
        && none_or_since s.last_reobs_request now reobs_repeat_every)

abbrev pub request_of : ℕ → MessageSlot → ReobservationRequest
request_of chain_key s = record {
  chain_key = chain_key;
  message_id = s.indexed.message_id;
  tx_hash = s.indexed.tx_hash;
  block_height = s.indexed.block_height;
}

abbrev pub mark_slot : ℕ → ℕ → MessageSlot → MessageSlot
mark_slot threshold now s =
    if stalled threshold now s then record s { last_reobs_request = some now } else s

abbrev pub mark_stalled : ℕ → ℕ → Map MessageSlot → Map MessageSlot
mark_stalled threshold now m = map_values (mark_slot threshold now) m

unfoldable pub stalled_requests : ℕ → ℕ → ℕ → Map MessageSlot → List ReobservationRequest
stalled_requests chain_key threshold now [] = []
stalled_requests chain_key threshold now ((h, s) ∷ m) =
    let rest = stalled_requests chain_key threshold now m in
    if stalled threshold now s then request_of chain_key s ∷ rest else rest

unfoldable pub collect_stalled_reobservations :
    ℕ → ℕ → RouteState → RouteState × List ReobservationRequest
collect_stalled_reobservations chain_key now r = (
  record r { by_message = mark_stalled r.threshold now r.by_message },
  stalled_requests chain_key r.threshold now r.by_message,
)

-- A slot that `refill` may give up for a record that waits on disk.
abbrev pub rotatable : ℕ → Map MessageSlot → ℕ → Bool
rotatable now m id = elim (lookup id m) [
  | none ↦ false
  | some s ↦
      not s.in_flight && (not (resolved s) && leb working_set_residence (now - s.inserted_at))
]

unfoldable pub rotation_candidates : ℕ → RouteState → List ℕ
rotation_candidates now r =
    take (max (r.cache_max / 4) 1) (retain (rotatable now r.by_message) r.order)

unfoldable pub drop_ids : List ℕ → RouteState → RouteState
drop_ids [] r = r
drop_ids (id ∷ ids) r =
    drop_ids ids (record r {
      by_message = remove id r.by_message;
      order = retain (λ s. not (s == id)) r.order;
    })

unfoldable pub index_all :
    Crypto → ℕ → List IndexedMessage → ℕ → RouteState → RouteState × List DeliveryJob
index_all x chain_key [] now r = (r, [])
index_all x chain_key (m ∷ ms) now r =
    let (r', job) = note_indexed x chain_key m now r in
    let (r'', jobs) = index_all x chain_key ms now r' in (r'', push_job job jobs)

-- One route's round of `refill`, once the store has answered with `pending` and has recorded the
-- messages that are given up. `capacity` is the room before the round.
unfoldable pub refill_route :
    Crypto → ℕ → List IndexedMessage → ℕ → RouteState → RouteState × List DeliveryJob
refill_route x chain_key pending now r =
    let capacity = r.cache_max - length r.by_message in
    let replace = length pending - capacity in
    index_all x chain_key pending now (drop_ids (take replace (rotation_candidates now r)) r)
