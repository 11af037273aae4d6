-- ===== src/Pool/Admission.antt =====
-- Admission of an indexed message to a route's bounded working set: `can_index`, `make_room` and
-- `note_indexed` of message-relayer/src/pool/mod.rs, on the `RouteState` looked up by chain key.
pub mod Loop
pub mod Room
pub mod Index
pub mod Marks
use asc_message_relayer.Prelude.{
  ℕ, zero, suc, ◌+◌, ◌-◌, ◌<◌, ◌≤◌, ◌≡◌, Bool, true, false, ◌&&◌, ◌||◌, not, Option, none, some,
  List, [], ◌∷◌, ◌++◌, length, ltb, leb, ◌==◌, if◌then◌else◌, contains, retain, find_first, is_some,
}
use asc_message_relayer.Prelude.Map.{Map, lookup, insert, remove, retain_map, contains_key}
use asc_message_relayer.Prelude.Sorted.{insert_sorted}
use asc_message_relayer.Types.{
  Bytes, Crypto, secs, IndexedMessage, MessageVote, DeliveryJob, DeliveryResultKind, delivered,
  terminal, retryable, awaiting_votes, awaiting_execution, VoteOutcome, accept, reject, ignore,
  buffered,
}
use asc_message_relayer.Delivery.Backoff.{pending_retry_delay, delivery_retry_delay}
use asc_message_relayer.Pool.Signature.{recover_signer}
use asc_message_relayer.Pool.Slot.{EarlyVotes, MessageSlot, RouteState, resolved, dispatch_if_ready}

-- `is_resolved` of the slot under an id of `order`, in `make_room` and `can_index`.
abbrev pub resolved_opt : Option MessageSlot → Bool
resolved_opt none = false
resolved_opt (some s) = resolved s

abbrev pub resolved_at : Map MessageSlot → ℕ → Bool
resolved_at m hash = resolved_opt (lookup hash m)

-- The `while` loop of `make_room`: fuel bounds the rounds, and each round removes one slot.
unfoldable pub make_room_loop : ℕ → RouteState → RouteState × Bool
make_room_loop zero r = (r, false)
make_room_loop (suc fuel) r = elim (leb r.cache_max (length r.by_message)) [
  | false ↦ (r, true)
  | true ↦ elim (find_first (resolved_at r.by_message) r.order) [
    | none ↦ (r, false)
    | some victim ↦ make_room_loop fuel (record r {
      order = retain (λ h. not (h == victim)) r.order;
      by_message = remove victim r.by_message;
    })
  ]
]

unfoldable pub make_room : RouteState → RouteState × Bool
make_room r = make_room_loop (suc (length r.by_message)) r

-- The slot of a message that has just been indexed.
abbrev pub fresh_slot : IndexedMessage → ℕ → MessageSlot
fresh_slot indexed now = record {
  indexed = indexed;
  signers = [];
  delivered = false;
  terminal = false;
  in_flight = false;
  last_reconciled_at = none;
  execution_accepted = false;
  delivery_attempts = 0;
  next_delivery_attempt_at = none;
  inserted_at = now;
  last_reobs_request = none;
}

-- The loop over the early votes: those of present attestors are adopted.
unfoldable pub adopt : List ℕ → Map Bytes → Map Bytes → Map Bytes
adopt attestors [] signers = signers
adopt attestors ((signer, signature) ∷ early) signers =
    adopt attestors early
      (if contains attestors signer then insert_sorted signer signature signers else signers)

-- `note_indexed` once room is made: insert the slot, adopt the early votes, dispatch.
unfoldable pub admit :
    Crypto → ℕ → IndexedMessage → ℕ → RouteState → RouteState × Option DeliveryJob
admit x chain_key indexed now r =
    let hash = indexed.message_id in
    let slot = fresh_slot indexed now in
    let r1 = record r {
      by_message = insert hash slot r.by_message;
      order = r.order ++ hash ∷ [];
    } in
    elim (lookup hash r.early_votes) [
      | none ↦ (r1, none)
      | some early ↦ dispatch_if_ready x chain_key hash now false (record r1 {
        early_votes = remove hash r.early_votes;
        by_message =
            insert hash (record slot { signers = adopt r.attestors early.signers [] })
              r1.by_message;
      })
    ]

unfoldable pub note_indexed :
    Crypto → ℕ → IndexedMessage → ℕ → RouteState → RouteState × Option DeliveryJob
note_indexed x chain_key indexed now r =
    if contains_key indexed.message_id r.by_message
    then (r, none)
    else (let (r', room) = make_room r in
        if room then admit x chain_key indexed now r' else (r', none))

-- `Iterator::any` over the slots.
abbrev pub any_resolved : Map MessageSlot → Bool
any_resolved [] = false
any_resolved ((h, s) ∷ m) = resolved s || any_resolved m

unfoldable pub can_index : IndexedMessage → RouteState → Bool
can_index indexed r =
    contains_key indexed.message_id r.by_message
    || (ltb (length r.by_message) r.cache_max || any_resolved r.by_message)
