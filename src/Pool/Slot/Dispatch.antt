-- ===== src/Pool/Slot/Dispatch.antt =====
-- What a dispatch may do to a slot and to the route (`dispatch_if_ready` of
-- message-relayer/src/pool/mod.rs), and why its jobs carry a quorum.
use asc_message_relayer.Prelude.{
  ℕ, ◌≡◌, refl, sym, ap, ◌∙◌, Bool, true, false, ◌&&◌, ◌||◌, not, none, some, List, [], ◌∷◌, arith,
  Bool-cases, Option-cases, ◌⊎◌, inl, inr, ◌==◌, ==_refl, ==_iff,
}
use asc_message_relayer.Prelude.Map.{lookup, insert, lookup-insert, contains_key, AllEntries-lookup}
use asc_message_relayer.Types.{Crypto}
use asc_message_relayer.Pool.Slot.{
  MessageSlot, RouteState, resolved, has_quorum, can_reconcile, before, launch, job_of,
  dispatch_slot, dispatch_if_ready, dispatch_all,
}
use asc_message_relayer.Pool.Invariant.{
  SlotInv, RouteInv, GoodJob, GoodJob?, Sound, Sound?, Sound-none, Sound-push,
  contains_key-insert_old, insert-RouteInv,
}

-- The guard of a launch, read back.
unblocked :
    (done flying quorum probe : Bool)
    → (done || (flying || not quorum && not probe)) ≡ false
    → (done ≡ false) × (flying ≡ false) × ((quorum || probe) ≡ true)
unblocked done flying quorum probe h = ground arith

module _ (x : Crypto) (chain_key threshold now : ℕ) (allow_probe : Bool) (s : MessageSlot) where
  -- What a launch has checked.
  pub record Launches : Type 0 where
    pub unresolved : resolved s ≡ false
    pub idle : s.in_flight ≡ false
    pub due : before now s.next_delivery_attempt_at ≡ false
    pub reason : (has_quorum threshold s || can_reconcile allow_probe now s) ≡ true
    pub result :
        dispatch_slot x chain_key threshold now allow_probe s
        ≡ (launch s, some (job_of x chain_key (has_quorum threshold s) s))

  pub dispatch_slot-cases :
      (dispatch_slot x chain_key threshold now allow_probe s ≡ (s, none)) ⊎ Launches
  unfolding dispatch_slot
  dispatch_slot-cases =
      let quorum = has_quorum threshold s in
      let probe = can_reconcile allow_probe now s in
      elim (Bool-cases (resolved s || (s.in_flight || not quorum && not probe))) [
        | inl e ↦ inl (rw e)
        | inr e ↦ elim (Bool-cases (before now s.next_delivery_attempt_at)) [
          | inl b ↦ inl (rw (e, b))
          | inr b ↦
              let free = unblocked (resolved s) s.in_flight quorum probe e in
              inr (record {
                unresolved = free.0;
                idle = free.1;
                due = b;
                reason = free.2;
                result = rw (e, b);
              })
        ]
      ]

  -- A dispatch changes neither the votes nor the message of the slot.
  pub dispatch_slot-signers :
      (dispatch_slot x chain_key threshold now allow_probe s).0.signers ≡ s.signers
  dispatch_slot-signers = elim dispatch_slot-cases [ inl e ↦ rw e | inr l ↦ rw l.result ]

-- A launch keeps what holds of the slot, and its job carries the quorum that the slot holds.
module _ (x : Crypto) (chain_key threshold now : ℕ) (allow_probe : Bool) (attestors : List ℕ)
    (hash : ℕ) (s : MessageSlot) (v : SlotInv x attestors hash s) where
  launch-SlotInv : resolved s ≡ false → SlotInv x attestors hash (launch s)
  launch-SlotInv e = record {
    keyed = v.keyed;
    verified = v.verified;
    sorted = v.sorted;
    members = v.members;
    idle = λ h. cc;
  }

  job_of-GoodJob :
      resolved s ≡ false
      → GoodJob x attestors threshold (job_of x chain_key (has_quorum threshold s) s)
  job_of-GoodJob e =
      elim (Bool-cases (job_of x chain_key (has_quorum threshold s) s).reconcile_only) [
        | inl h ↦ inl h
        | inr h ↦ inr (record {
          signers = s.signers;
          sorted = v.sorted;
          verified = rw v.keyed v.verified;
          members = v.members e;
          positive = ground arith;
          enough = ground arith;
          counted = refl;
          encoded = refl;
        })
      ]

  pub dispatch_slot-SlotInv :
      SlotInv x attestors hash (dispatch_slot x chain_key threshold now allow_probe s).0
  dispatch_slot-SlotInv = elim (dispatch_slot-cases x chain_key threshold now allow_probe s) [
    | inl e ↦ rw e v
    | inr l ↦ rw l.result (launch-SlotInv l.unresolved)
  ]

  pub dispatch_slot-GoodJob :
      GoodJob? x attestors threshold (dispatch_slot x chain_key threshold now allow_probe s).1
  dispatch_slot-GoodJob = elim (dispatch_slot-cases x chain_key threshold now allow_probe s) [
    | inl e ↦ rw e tt
    | inr l ↦ rw l.result (job_of-GoodJob l.unresolved)
  ]

-- The same of the route.
module _ (x : Crypto) (chain_key hash now : ℕ) (allow_probe : Bool) (r : RouteState) where
  dispatch_some :
      (s : MessageSlot)
      → lookup hash r.by_message ≡ some s
      → dispatch_if_ready x chain_key hash now allow_probe r ≡ (
        record r {
          by_message =
              insert hash (dispatch_slot x chain_key r.threshold now allow_probe s).0 r.by_message;
        },
        (dispatch_slot x chain_key r.threshold now allow_probe s).1,
      )
  unfolding dispatch_if_ready
  dispatch_some s e = rw (e, dispatch_if_ready)

  pub dispatch_if_ready-none :
      lookup hash r.by_message ≡ none
      → dispatch_if_ready x chain_key hash now allow_probe r ≡ (r, none)
  unfolding dispatch_if_ready
  dispatch_if_ready-none e = rw (e, dispatch_if_ready)

  dispatch_if_ready-RouteInv :
      RouteInv x r → RouteInv x (dispatch_if_ready x chain_key hash now allow_probe r).0
  dispatch_if_ready-RouteInv v = elim (Option-cases (lookup hash r.by_message)) [
    | inl e ↦ rw (dispatch_if_ready-none e) v
    | inr (s, e) ↦ rw (dispatch_some s e) (
        insert-RouteInv x r hash s _ e v (
          dispatch_slot-SlotInv x chain_key r.threshold now allow_probe r.attestors hash s
            (AllEntries-lookup (SlotInv x r.attestors) hash r.by_message v.slots e)))
  ]

  dispatch_if_ready-GoodJob :
      RouteInv x r
      → GoodJob? x r.attestors r.threshold (dispatch_if_ready x chain_key hash now allow_probe r).1
  dispatch_if_ready-GoodJob v = elim (Option-cases (lookup hash r.by_message)) [
    | inl e ↦ rw (dispatch_if_ready-none e) tt
    | inr (s, e) ↦ rw (dispatch_some s e) (
        dispatch_slot-GoodJob x chain_key r.threshold now allow_probe r.attestors hash s
          (AllEntries-lookup (SlotInv x r.attestors) hash r.by_message v.slots e))
  ]

  pub dispatch_if_ready-attestors :
      (dispatch_if_ready x chain_key hash now allow_probe r).0.attestors ≡ r.attestors
  dispatch_if_ready-attestors = elim (Option-cases (lookup hash r.by_message)) [
    | inl e ↦ rw (dispatch_if_ready-none e)
    | inr (s, e) ↦ rw (dispatch_some s e)
  ]

  pub dispatch_if_ready-threshold :
      (dispatch_if_ready x chain_key hash now allow_probe r).0.threshold ≡ r.threshold
  dispatch_if_ready-threshold = elim (Option-cases (lookup hash r.by_message)) [
    | inl e ↦ rw (dispatch_if_ready-none e)
    | inr (s, e) ↦ rw (dispatch_some s e)
  ]

  -- Only the slot under the id changes, and no slot is added or removed.
  pub dispatch_if_ready-other :
      (h : ℕ)
      → (hash == h) ≡ false
      → lookup h (dispatch_if_ready x chain_key hash now allow_probe r).0.by_message
        ≡ lookup h r.by_message
  dispatch_if_ready-other h ne = elim (Option-cases (lookup hash r.by_message)) [
    | inl e ↦ rw (dispatch_if_ready-none e)
    | inr (s, e) ↦ rw (dispatch_some s e) (rw lookup-insert (rw ne))
  ]

  pub dispatch_if_ready_self :
      (s : MessageSlot)
      → lookup hash r.by_message ≡ some s
      → lookup hash (dispatch_if_ready x chain_key hash now allow_probe r).0.by_message
        ≡ some (dispatch_slot x chain_key r.threshold now allow_probe s).0
  dispatch_if_ready_self s e = rw (dispatch_some s e) (rw lookup-insert (rw (==_refl hash)))

  pub dispatch_if_ready-some :
      (s : MessageSlot)
      → lookup hash r.by_message ≡ some s
      → (dispatch_if_ready x chain_key hash now allow_probe r).1
        ≡ (dispatch_slot x chain_key r.threshold now allow_probe s).1
  dispatch_if_ready-some s e = rw (dispatch_some s e)

  -- Every message keeps its slot and its votes.
  pub dispatch_if_ready-signers :
      (h : ℕ) (s : MessageSlot)
      → lookup h r.by_message ≡ some s
      → (s' : MessageSlot) × (lookup h
            (dispatch_if_ready x chain_key hash now allow_probe r).0.by_message
          ≡ some s')
        × (s'.signers ≡ s.signers)
  dispatch_if_ready-signers h s e = elim (Bool-cases (hash == h)) [
    | inl q ↦
        let same = (==_iff hash h).0 q in
        (
          (dispatch_slot x chain_key r.threshold now allow_probe s).0,
          ap (λ k. lookup k (dispatch_if_ready x chain_key hash now allow_probe r).0.by_message)
                (sym same)
              ∙ dispatch_if_ready_self s (rw same e),
          dispatch_slot-signers x chain_key r.threshold now allow_probe s,
        )
    | inr q ↦ (s, dispatch_if_ready-other h q ∙ e, refl)
  ]

  pub dispatch_if_ready-contains :
      (h : ℕ)
      → contains_key h (dispatch_if_ready x chain_key hash now allow_probe r).0.by_message
        ≡ contains_key h r.by_message
  dispatch_if_ready-contains h = elim (Option-cases (lookup hash r.by_message)) [
    | inl e ↦ rw (dispatch_if_ready-none e)
    | inr (s, e) ↦ rw (dispatch_some s e) (contains_key-insert_old r hash s _ h e)
  ]

  pub dispatch_if_ready-Sound :
      RouteInv x r
      → Sound? x r
          (dispatch_if_ready x chain_key hash now allow_probe r).0
          (dispatch_if_ready x chain_key hash now allow_probe r).1
  dispatch_if_ready-Sound v = record {
    inv = dispatch_if_ready-RouteInv v;
    attestors = dispatch_if_ready-attestors;
    threshold = dispatch_if_ready-threshold;
    job_good = dispatch_if_ready-GoodJob v;
  }

pub dispatch_all-Sound :
    (x : Crypto) (chain_key now : ℕ) (allow_probe : Bool) (hashes : List ℕ) (r : RouteState)
    → RouteInv x r
    → Sound x r
        (dispatch_all x chain_key now allow_probe hashes r).0
        (dispatch_all x chain_key now allow_probe hashes r).1
unfolding dispatch_all
dispatch_all-Sound x chain_key now allow_probe [] r v = Sound-none x r v
dispatch_all-Sound x chain_key now allow_probe (hash ∷ hashes) r v =
    let first = dispatch_if_ready-Sound x chain_key hash now allow_probe r v in
    Sound-push x r _ _ _ _ first (
      dispatch_all-Sound x chain_key now allow_probe hashes
        (dispatch_if_ready x chain_key hash now allow_probe r).0 first.inv)
