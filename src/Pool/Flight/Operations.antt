-- ===== src/Pool/Flight/Operations.antt =====
-- Each operation of a route marks exactly the messages that it dispatches
-- (message-relayer/src/pool/mod.rs).
use asc_message_relayer.Prelude.{
  ℕ, ◌≡◌, refl, ◌∙◌, true, false, ◌&&◌, Option, none, some, List, ◌==◌, arith, Bool-cases,
  Option-cases, inl, inr, ==_iff,
}
use asc_message_relayer.Prelude.Map.{
  Map, lookup, map_values, map_opt, keys, lookup-insert, lookup-map_values, AllEntries-lookup,
}
use asc_message_relayer.Types.{Crypto, MessageVote, RouteAttestors}
use asc_message_relayer.Pool.Slot.{MessageSlot, RouteState}
use asc_message_relayer.Pool.Invariant.{SlotInv, RouteInv}
use asc_message_relayer.Pool.Voting.{note_vote}
use asc_message_relayer.Pool.Voting.Sound.{
  noted, early, late, refused, counted_vote, counts, again, waits, dispatches, with_counted,
  with_counted-RouteInv, checked_signer-Checked, buffer_early_vote-by_message,
}
use asc_message_relayer.Pool.Results.{collect_ready_deliveries}
use asc_message_relayer.Pool.Upkeep.{
  expired, prune_expired, prune_signers, prune_slots, ready_ids, same_addresses, apply_attestor_set,
  stalled, mark_slot, collect_stalled_reobservations,
}
use asc_message_relayer.Pool.Upkeep.Sound.{lookup-pruned, reloaded, reloaded-RouteInv}
use asc_message_relayer.Pool.Flight.{
  flight, flight_of, Marks, MarksAll, dispatch_if_ready-Marks, dispatch_all-Marks,
}

-- A vote.
module _ (x : Crypto) (vote : MessageVote) (now : ℕ) (r : RouteState) (v : RouteInv x r) where
  flight-with_counted :
      (a : ℕ) (s : MessageSlot) (h : ℕ)
      → lookup vote.message_id r.by_message ≡ some s
      → flight h (with_counted x vote a s now r) ≡ flight h r
  flight-with_counted a s h p = elim (Bool-cases (vote.message_id == h)) [
    | inl e ↦ rw lookup-insert (rw e (rw (← (==_iff vote.message_id h).0 e) (rw p)))
    | inr e ↦ rw lookup-insert (rw e)
  ]

  pub note_vote-Marks : Marks r (note_vote x vote now r).0 (note_vote x vote now r).1
  note_vote-Marks h = elim (noted x vote now r) [
    | early n e ↦ rw (e, buffer_early_vote-by_message) (omega arith)
    | late s p d e ↦ rw e (omega arith)
    | refused s p d n e ↦ rw e (omega arith)
    | counted_vote s a p d c e ↦ elim (counts x vote a s now r) [
      | again old f ↦ rw (e ∙ f) (omega arith)
      | waits new f ↦ rw (e ∙ f) (omega (arith, flight-with_counted a s h p))
      | dispatches new f ↦
          let w =
            with_counted-RouteInv x vote a s now r v p
              (checked_signer-Checked x r.attestors vote.message_id vote a c) in
          rw (e ∙ f) (
            omega (
              arith,
              flight-with_counted a s h p,
              dispatch_if_ready-Marks x vote.chain_key vote.message_id now false
                  (with_counted x vote a s now r) w h,
            ))
    ]
  ]

-- A change to every slot that leaves the mark alone.
flight_of-map_opt :
    (f : MessageSlot → MessageSlot)
    → ((s : MessageSlot) → (f s).in_flight ≡ s.in_flight)
    → (o : Option MessageSlot) → flight_of (map_opt f o) ≡ flight_of o
flight_of-map_opt f same none = refl
flight_of-map_opt f same (some s) = rw (same s)

flight-map_values :
    (f : MessageSlot → MessageSlot) (m : Map MessageSlot) (h : ℕ)
    → ((s : MessageSlot) → (f s).in_flight ≡ s.in_flight)
    → flight_of (lookup h (map_values f m)) ≡ flight_of (lookup h m)
flight-map_values f m h same = rw (lookup-map_values f h m) (flight_of-map_opt f same (lookup h m))

prune_signers-mark :
    (attestors : List ℕ) (s : MessageSlot) → (prune_signers attestors s).in_flight ≡ s.in_flight
prune_signers-mark attestors s = ground arith

mark_slot-mark :
    (threshold now : ℕ) (s : MessageSlot) → (mark_slot threshold now s).in_flight ≡ s.in_flight
mark_slot-mark threshold now s = elim (Bool-cases (stalled threshold now s)) [
  | inl e ↦ rw e
  | inr e ↦ rw e
]

module _ (x : Crypto) (r : RouteState) (v : RouteInv x r) where
  pub apply_attestor_set-Marks :
      (update : RouteAttestors) (now : ℕ)
      → MarksAll r (apply_attestor_set x update now r).0 (apply_attestor_set x update now r).1
  unfolding apply_attestor_set
  apply_attestor_set-Marks update now h =
      elim (Bool-cases
        (same_addresses r.attestors update.attestors && r.threshold == update.threshold)) [
          | inl e ↦ rw (e, apply_attestor_set) (omega arith)
          | inr e ↦
              rw (e, apply_attestor_set)
                (omega (
                  arith,
                  flight-map_values (prune_signers update.attestors) r.by_message h
                      (prune_signers-mark update.attestors),
                  dispatch_all-Marks x update.chain_key now false
                      (ready_ids update.threshold (prune_slots update.attestors r.by_message))
                      (reloaded x update now r) (reloaded-RouteInv x update now r v) h,
                ))
        ]

  pub collect_stalled-Marks :
      (chain_key now h : ℕ)
      → flight h (collect_stalled_reobservations chain_key now r).0 ≡ flight h r
  unfolding collect_stalled_reobservations
  collect_stalled-Marks chain_key now h =
      flight-map_values (mark_slot r.threshold now) r.by_message h (mark_slot-mark r.threshold now)

  pub collect_ready-Marks :
      (chain_key now : ℕ)
      → MarksAll r
          (collect_ready_deliveries x chain_key now r).0
          (collect_ready_deliveries x chain_key now r).1
  unfolding collect_ready_deliveries
  collect_ready-Marks chain_key now =
      dispatch_all-Marks x chain_key now true (keys r.by_message) r v

  -- What is pruned is resolved, and so idle.
  pub prune_expired-Marks : (now ttl h : ℕ) → flight h (prune_expired now ttl r) ≡ flight h r
  prune_expired-Marks now ttl h =
      rw (lookup-pruned x now ttl r h v) (elim (Option-cases (lookup h r.by_message)) [
        | inl n ↦ rw n
        | inr (s, p) ↦
            let i = AllEntries-lookup (SlotInv x r.attestors) h r.by_message v.slots p in
            rw p (elim (Bool-cases (expired now ttl s)) [
              | inl e ↦ rw e (rw (i.idle (ground (arith, e))))
              | inr e ↦ rw e
            ])
      ])
