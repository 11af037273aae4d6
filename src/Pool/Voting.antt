-- ===== src/Pool/Voting.antt =====
-- Votes: `note_vote`, `buffer_early_vote` and `evict_early_overflow` of
-- message-relayer/src/pool/mod.rs, on the `RouteState` looked up by chain key.
pub mod Eviction
pub mod Sound
pub mod Counting
use asc_message_relayer.Prelude.{
  ℕ, zero, suc, Bool, true, false, ◌&&◌, ◌||◌, not, Option, none, some, List, [], ◌∷◌, length, ltb,
  leb, ◌==◌, if◌then◌else◌, contains,
}
use asc_message_relayer.Prelude.Map.{Map, lookup, insert, remove, contains_key}
use asc_message_relayer.Prelude.Sorted.{insert_sorted}
use asc_message_relayer.Types.{
  Bytes, Crypto, MessageVote, DeliveryJob, VoteOutcome, accept, reject, ignore, buffered,
}
use asc_message_relayer.Pool.Signature.{recover_signer}
use asc_message_relayer.Pool.Slot.{EarlyVotes, MessageSlot, RouteState, resolved, dispatch_if_ready}

-- The checks that both paths make of a vote: the allowlist, recovery, and agreement of the two.
unfoldable pub checked_signer : Crypto → List ℕ → ℕ → MessageVote → Option ℕ
checked_signer x attestors hash vote =
    if not (contains attestors vote.signer)
    then none
    else elim (recover_signer x hash vote.signature) [
      | none ↦ none
      | some recovered ↦ if recovered == vote.signer then some recovered else none
    ]

-- `min_by_key(first_seen)`: the first of the oldest entries.
abbrev pub older : ℕ × ℕ → Option (ℕ × ℕ) → ℕ × ℕ
older a none = a
older a (some b) = if leb a.1 b.1 then a else b

abbrev pub oldest : Map EarlyVotes → Option (ℕ × ℕ)
oldest [] = none
oldest ((h, e) ∷ m) = some (older (h, e.first_seen) (oldest m))

-- The `while` loop; each round removes one entry, so the number of entries is enough fuel.
unfoldable pub evict_loop : ℕ → ℕ → Map EarlyVotes → Map EarlyVotes
evict_loop zero cache_max m = m
evict_loop (suc fuel) cache_max m = elim (ltb cache_max (length m)) [
  | false ↦ m
  | true ↦ elim (oldest m) [ none ↦ m | some (h, t) ↦ evict_loop fuel cache_max (remove h m) ]
]

unfoldable pub evict_early_overflow : RouteState → RouteState
evict_early_overflow r = record r {
  early_votes = evict_loop (length r.early_votes) r.cache_max r.early_votes;
}

-- `entry(hash).or_insert_with(...)`.
abbrev pub early_entry : ℕ → Option EarlyVotes → EarlyVotes
early_entry now none = record { signers = []; first_seen = now }
early_entry now (some e) = e

unfoldable pub buffer_early_vote :
    Crypto → ℕ → MessageVote → ℕ → RouteState → RouteState × VoteOutcome
buffer_early_vote x hash vote now r = elim (checked_signer x r.attestors hash vote) [
  | none ↦ (r, reject)
  | some recovered ↦
      let entry = early_entry now (lookup hash r.early_votes) in
      let entry' = record entry {
        signers = insert_sorted recovered vote.signature entry.signers;
      } in
      (evict_early_overflow (record r { early_votes = insert hash entry' r.early_votes }), buffered)
]

-- `note_vote` from the dedup on, for a verified signer.
unfoldable pub count_vote :
    Crypto
    → MessageVote
    → ℕ
    → MessageSlot
    → ℕ
    → RouteState
    → RouteState × Option DeliveryJob × VoteOutcome
count_vote x vote recovered s now r =
    if contains_key recovered s.signers
    then (r, none, ignore)
    else (let s' = record s { signers = insert_sorted recovered vote.signature s.signers } in
        let r' = record r { by_message = insert vote.message_id s' r.by_message } in
        if ltb (length s'.signers) r.threshold || s.in_flight
        then (r', none, accept)
        else (let (r'', job) = dispatch_if_ready x vote.chain_key vote.message_id now false r' in
            (r'', job, accept)))

-- The vote for a message that is indexed.
unfoldable pub vote_on_slot :
    Crypto
    → MessageVote
    → MessageSlot
    → ℕ
    → RouteState
    → RouteState × Option DeliveryJob × VoteOutcome
vote_on_slot x vote s now r =
    if resolved s
    then (r, none, ignore)
    else elim (checked_signer x r.attestors vote.message_id vote) [
      | none ↦ (r, none, reject)
      | some recovered ↦ count_vote x vote recovered s now r
    ]

unfoldable pub note_vote :
    Crypto → MessageVote → ℕ → RouteState → RouteState × Option DeliveryJob × VoteOutcome
note_vote x vote now r = elim (lookup vote.message_id r.by_message) [
  | none ↦
      (let (r', outcome) = buffer_early_vote x vote.message_id vote now r in (r', none, outcome))
  | some s ↦ vote_on_slot x vote s now r
]
