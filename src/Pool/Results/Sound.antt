-- ===== src/Pool/Results/Sound.antt =====
-- The reports of the delivery workers keep the invariant of the route
-- (message-relayer/src/pool/mod.rs).
use asc_message_relayer.Prelude.{
  ℕ, ◌≡◌, refl, true, Option, none, List, arith, Option-cases, inl, inr,
}
use asc_message_relayer.Prelude.Map.{lookup, keys, AllEntries-lookup}
use asc_message_relayer.Types.{
  Crypto, DeliveryResultKind, delivered, terminal, retryable, awaiting_votes, awaiting_execution,
}
use asc_message_relayer.Pool.Slot.{MessageSlot, RouteState}
use asc_message_relayer.Pool.Slot.Dispatch.{dispatch_all-Sound}
use asc_message_relayer.Pool.Invariant.{SlotInv, RouteInv, Sound, Sound?, insert-RouteInv}
use asc_message_relayer.Pool.Results.{
  update_slot, settle_slot, note_delivery_result, requeue_slot, requeue_delivery,
  collect_ready_deliveries,
}

module _ (x : Crypto) (hash : ℕ) (f : MessageSlot → MessageSlot) (r : RouteState) where
  update_slot-RouteInv :
      RouteInv x r
      → ((s : MessageSlot) → SlotInv x r.attestors hash s → SlotInv x r.attestors hash (f s))
      → RouteInv x (update_slot hash f r)
  unfolding update_slot
  update_slot-RouteInv v keep = elim (Option-cases (lookup hash r.by_message)) [
    | inl n ↦ rw (n, update_slot) v
    | inr (s, p) ↦
        rw (p, update_slot)
          (insert-RouteInv x r hash s (f s) p v
            (keep s (AllEntries-lookup (SlotInv x r.attestors) hash r.by_message v.slots p)))
  ]

-- The configuration stays.
module _ (hash : ℕ) (f : MessageSlot → MessageSlot) (r : RouteState) where
  update_slot-config :
      ((update_slot hash f r).attestors ≡ r.attestors)
      × ((update_slot hash f r).threshold ≡ r.threshold)
  unfolding update_slot
  update_slot-config = elim (Option-cases (lookup hash r.by_message)) [
    | inl n ↦ rw (n, update_slot) (refl, refl)
    | inr (s, p) ↦ rw (p, update_slot) (refl, refl)
  ]

module _ (x : Crypto) (attestors : List ℕ) (hash now : ℕ) (s : MessageSlot)
    (v : SlotInv x attestors hash s) where
  settle_slot-SlotInv :
      (outcome : DeliveryResultKind) (unix : Option ℕ)
      → SlotInv x attestors hash (settle_slot outcome now unix s)
  unfolding settle_slot
  settle_slot-SlotInv delivered unix = record {
    keyed = v.keyed;
    verified = v.verified;
    sorted = v.sorted;
    members = λ h. absurd (cc);
    idle = λ h. refl;
  }
  settle_slot-SlotInv terminal unix = record {
    keyed = v.keyed;
    verified = v.verified;
    sorted = v.sorted;
    members = λ h. absurd (ground arith);
    idle = λ h. refl;
  }
  settle_slot-SlotInv retryable unix = record {
    keyed = v.keyed;
    verified = v.verified;
    sorted = v.sorted;
    members = v.members;
    idle = λ h. refl;
  }
  settle_slot-SlotInv awaiting_votes unix = record {
    keyed = v.keyed;
    verified = v.verified;
    sorted = v.sorted;
    members = v.members;
    idle = λ h. refl;
  }
  settle_slot-SlotInv (awaiting_execution retry_after) unix = record {
    keyed = v.keyed;
    verified = v.verified;
    sorted = v.sorted;
    members = v.members;
    idle = λ h. refl;
  }

  requeue_slot-SlotInv : SlotInv x attestors hash (requeue_slot now s)
  requeue_slot-SlotInv = record {
    keyed = v.keyed;
    verified = v.verified;
    sorted = v.sorted;
    members = v.members;
    idle = λ h. refl;
  }

pub note_delivery_result-threshold :
    (message_id now : ℕ) (r : RouteState) (outcome : DeliveryResultKind) (unix : Option ℕ)
    → (note_delivery_result message_id outcome now unix r).threshold ≡ r.threshold
unfolding note_delivery_result
note_delivery_result-threshold message_id now r outcome unix =
    (update_slot-config message_id (settle_slot outcome now unix) r).1

module _ (x : Crypto) (message_id now : ℕ) (r : RouteState) where
  pub note_delivery_result-Sound :
      (outcome : DeliveryResultKind) (unix : Option ℕ)
      → RouteInv x r
      → Sound? x r (note_delivery_result message_id outcome now unix r) none
  unfolding note_delivery_result
  note_delivery_result-Sound outcome unix v =
      let cfg = update_slot-config message_id (settle_slot outcome now unix) r in
      record {
        inv =
            update_slot-RouteInv x message_id (settle_slot outcome now unix) r v
              (λ s i. settle_slot-SlotInv x r.attestors message_id now s i outcome unix);
        attestors = cfg.0;
        threshold = cfg.1;
        job_good = tt;
      }

  pub requeue_delivery-Sound : RouteInv x r → Sound? x r (requeue_delivery message_id now r) none
  unfolding requeue_delivery
  requeue_delivery-Sound v =
      let cfg = update_slot-config message_id (requeue_slot now) r in
      record {
        inv =
            update_slot-RouteInv x message_id (requeue_slot now) r v
              (λ s i. requeue_slot-SlotInv x r.attestors message_id now s i);
        attestors = cfg.0;
        threshold = cfg.1;
        job_good = tt;
      }

module _ (x : Crypto) (now : ℕ) (r : RouteState) where
  pub collect_ready_deliveries-Sound :
      (chain_key : ℕ)
      → RouteInv x r
      → Sound x r
          (collect_ready_deliveries x chain_key now r).0
          (collect_ready_deliveries x chain_key now r).1
  unfolding collect_ready_deliveries
  collect_ready_deliveries-Sound chain_key v =
      dispatch_all-Sound x chain_key now true (keys r.by_message) r v
