-- ===== src/Pool/Flight/Upkeep.antt =====
-- Reports, requeues and rotations of message-relayer/src/pool/mod.rs clear the mark of one message,
-- or of none.
use asc_message_relayer.Prelude.{
  ℕ, ◌-◌, ◌≡◌, refl, true, false, Option, none, List, [], ◌∷◌, ◌==◌, length, if◌then◌else◌, arith,
  Bool-cases, Option-cases, inl, inr, ==_iff, contains, take,
}
use asc_message_relayer.Prelude.Map.{lookup, lookup-insert, lookup-remove}
use asc_message_relayer.Types.{
  Crypto, IndexedMessage, DeliveryResultKind, delivered, terminal, retryable, awaiting_votes,
  awaiting_execution,
}
use asc_message_relayer.Pool.Slot.{MessageSlot, RouteState}
use asc_message_relayer.Pool.Invariant.{RouteInv}
use asc_message_relayer.Pool.Admission.{note_indexed}
use asc_message_relayer.Pool.Admission.Index.{note_indexed-Sound}
use asc_message_relayer.Pool.Admission.Marks.{note_indexed-Marks}
use asc_message_relayer.Pool.Results.{
  update_slot, settle_slot, note_delivery_result, requeue_slot, requeue_delivery,
}
use asc_message_relayer.Pool.Upkeep.{rotation_candidates, drop_ids, index_all, refill_route}
use asc_message_relayer.Pool.Upkeep.Rotation.{
  drop_ids-RouteInv, lookup-drop_ids, candidates-Rotatable,
}
use asc_message_relayer.Pool.Flight.{flight, MarksAll, MarksAll-push}

-- A change that leaves the slot idle clears the mark of its message, and no other.
abbrev pub Clears : ℕ → RouteState → RouteState → Type 0
Clears hash r r' = (h : ℕ) → flight h r' ≡ (if hash == h then 0 else flight h r)

module _ (hash : ℕ) (f : MessageSlot → MessageSlot)
    (idle : (s : MessageSlot) → (f s).in_flight ≡ false) (r : RouteState) where
  update_slot-Clears : Clears hash r (update_slot hash f r)
  unfolding update_slot
  update_slot-Clears h = elim (Option-cases (lookup hash r.by_message)) [
    | inl n ↦
        rw (n, update_slot)
          (elim (Bool-cases (hash == h)) [
            | inl e ↦ rw e (rw (← (==_iff hash h).0 e) (rw n))
            | inr e ↦ rw e
          ])
    | inr (s, p) ↦
        rw (p, update_slot)
          (rw lookup-insert
            (elim (Bool-cases (hash == h)) [ inl e ↦ rw e (rw (idle s)) | inr e ↦ rw e ]))
  ]

settle_slot-idle :
    (outcome : DeliveryResultKind) (now : ℕ) (unix : Option ℕ) (s : MessageSlot)
    → (settle_slot outcome now unix s).in_flight ≡ false
unfolding settle_slot
settle_slot-idle delivered now unix s = refl
settle_slot-idle terminal now unix s = refl
settle_slot-idle retryable now unix s = refl
settle_slot-idle awaiting_votes now unix s = refl
settle_slot-idle (awaiting_execution retry_after) now unix s = refl

pub note_delivery_result-Clears :
    (hash : ℕ) (outcome : DeliveryResultKind) (now : ℕ) (unix : Option ℕ) (r : RouteState)
    → Clears hash r (note_delivery_result hash outcome now unix r)
unfolding note_delivery_result
note_delivery_result-Clears hash outcome now unix r =
    update_slot-Clears hash (settle_slot outcome now unix) (settle_slot-idle outcome now unix) r

pub requeue_delivery-Clears :
    (hash now : ℕ) (r : RouteState) → Clears hash r (requeue_delivery hash now r)
unfolding requeue_delivery
requeue_delivery-Clears hash now r = update_slot-Clears hash (requeue_slot now) (λ s. refl) r

-- What is gone stays gone.
drop_ids-none :
    (ids : List ℕ) (r : RouteState) (h : ℕ)
    → lookup h r.by_message ≡ none
    → lookup h (drop_ids ids r).by_message ≡ none
unfolding drop_ids
drop_ids-none [] r h n = n
drop_ids-none (id ∷ ids) r h n =
    drop_ids-none ids _ h (ground (arith, lookup-remove id h r.by_message, n))

drop_ids-gone :
    (ids : List ℕ) (r : RouteState) (h : ℕ)
    → contains ids h ≡ true
    → lookup h (drop_ids ids r).by_message ≡ none
unfolding drop_ids
drop_ids-gone [] r h c = absurd (cc)
drop_ids-gone (id ∷ ids) r h c = elim (Bool-cases (id == h)) [
  | inl e ↦ drop_ids-none ids _ h (ground (arith, lookup-remove id h r.by_message, e))
  | inr e ↦ drop_ids-gone ids _ h (ground (arith, c, e))
]

-- A rotation gives up idle messages only.
flight-rotated :
    (now n h : ℕ) (r : RouteState)
    → flight h (drop_ids (take n (rotation_candidates now r)) r) ≡ flight h r
flight-rotated now n h r =
    let gone = take n (rotation_candidates now r) in
    elim (Bool-cases (contains gone h)) [
      | inl c ↦
          let (s, p, idle, fresh, old) = candidates-Rotatable now r n h c in
          rw (drop_ids-gone gone r h c) (rw p (rw idle))
      | inr c ↦ rw (lookup-drop_ids gone r h c)
    ]

index_all-Marks :
    (x : Crypto) (chain_key : ℕ) (ms : List IndexedMessage) (now : ℕ) (r : RouteState)
    → RouteInv x r
    → MarksAll r (index_all x chain_key ms now r).0 (index_all x chain_key ms now r).1
unfolding index_all
index_all-Marks x chain_key [] now r v h = omega arith
index_all-Marks x chain_key (m ∷ ms) now r v h =
    MarksAll-push r (note_indexed x chain_key m now r).0
      (index_all x chain_key ms now (note_indexed x chain_key m now r).0).0 _ _
      (note_indexed-Marks x chain_key m now r v)
      (index_all-Marks x chain_key ms now _ (note_indexed-Sound x chain_key m now r v).inv) h

pub refill_route-Marks :
    (x : Crypto) (chain_key : ℕ) (pending : List IndexedMessage) (now : ℕ) (r : RouteState)
    → RouteInv x r
    → MarksAll r
        (refill_route x chain_key pending now r).0
        (refill_route x chain_key pending now r).1
unfolding refill_route
refill_route-Marks x chain_key pending now r v h =
    let n = length pending - (r.cache_max - length r.by_message) in
    let gone = take n (rotation_candidates now r) in
    omega (
      arith,
      flight-rotated now n h r,
      index_all-Marks x chain_key pending now (drop_ids gone r) (drop_ids-RouteInv x gone r v) h,
    )
