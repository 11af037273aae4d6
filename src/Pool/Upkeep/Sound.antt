-- ===== src/Pool/Upkeep/Sound.antt =====
-- Upkeep keeps the invariant of the route: `prune_expired`, `apply_attestor_set`,
-- `collect_stalled_reobservations` and the rotation of `refill` (message-relayer/src/pool/mod.rs).
use mathlib.Core.Path.{subst}
use asc_message_relayer.Prelude.{
  Bool, if◌then◌else◌, ℕ, ◌-◌, ◌≤◌, ◌<◌, ltb, ◌≡◌, refl, sym, ◌∙◌, true, false, ◌&&◌, not, Option,
  none, some, List, [], ◌∷◌, leb, arith, Bool-cases, inl, inr, contains, retain, contains-retain,
  ◌==◌, is_some,
}
use asc_message_relayer.Prelude.Map.{
  Map, lookup, retain_map, contains_key, keep_if, map_values, map_opt, AllEntries,
  AllEntries-retain, AllEntries-map_values, length-retain_map, lookup-retain_map, lookup-map_values,
  length-map_values, Distinct-retain, Distinct-map_values,
}
use asc_message_relayer.Prelude.Sorted.{Above-retain}
use asc_message_relayer.Types.{Bytes, Crypto, RouteAttestors}
use asc_message_relayer.Pool.Slot.{MessageSlot, RouteState, resolved}
use asc_message_relayer.Pool.Slot.Dispatch.{dispatch_all-Sound}
use asc_message_relayer.Pool.Invariant.{
  SlotInv, EarlyInv, RouteInv, Signed, Member, Sound, Sound-none, Sound-from,
}
use asc_message_relayer.Pool.Upkeep.{
  expired, prune_expired, prune_signers, prune_slots, ready_ids, same_addresses, apply_attestor_set,
  stalled, mark_slot, collect_stalled_reobservations,
}

-- What becomes of the slot of an id when its route is pruned.
pub data Pruned (now ttl : ℕ) : Option MessageSlot → Option MessageSlot → Type 0 where
  absent : Pruned now ttl none none
  unresolved :
      (s : MessageSlot)
      → s.delivered ≡ false
      → s.terminal ≡ false
      → Pruned now ttl (some s) (some s)
  recent :
      (s : MessageSlot)
      → s.delivered ≡ false
      → s.terminal ≡ true
      → now - s.inserted_at ≤ ttl
      → Pruned now ttl (some s) (some s)
  finished : (s : MessageSlot) → s.delivered ≡ true → Pruned now ttl (some s) none
  too_old :
      (s : MessageSlot)
      → s.delivered ≡ false
      → s.terminal ≡ true
      → ttl < now - s.inserted_at
      → Pruned now ttl (some s) none

keep_if-Pruned :
    (now ttl h : ℕ) (o : Option MessageSlot)
    → Pruned now ttl o (keep_if (λ j s. not (expired now ttl s)) h o)
keep_if-Pruned now ttl h none = absent
keep_if-Pruned now ttl h (some s) = elim (Bool-cases s.delivered) [
  | inl d ↦ by_test true (ground (arith, d)) (finished s d)
  | inr d ↦ elim (Bool-cases s.terminal) [
    | inr t ↦ by_test false (ground (arith, d, t)) (unresolved s d t)
    | inl t ↦ elim (Bool-cases (ltb ttl (now - s.inserted_at))) [
      | inl old ↦ by_test true (ground (arith, d, t, old)) (too_old s d t (ground (arith, old)))
      | inr new ↦ by_test false (ground (arith, d, t, new)) (recent s d t (ground (arith, new)))
    ]
  ]
]
  where
    by_test :
        (b : Bool)
        → expired now ttl s ≡ b
        → Pruned now ttl (some s) (if not b then some s else none)
        → Pruned now ttl (some s) (if not (expired now ttl s) then some s else none)
    by_test b e p = subst (λ c. Pruned now ttl (some s) (if not c then some s else none)) (sym e) p

module _ (x : Crypto) (now ttl : ℕ) (r : RouteState) where
  -- The slots that stay.
  abbrev kept : Map MessageSlot
  kept = retain_map (λ h s. not (expired now ttl s)) r.by_message

  kept_order :
      (h : ℕ)
      → RouteInv x r
      → contains (retain (λ j. contains_key j kept) r.order) h ≡ contains_key h kept
  kept_order h v = ground (
    arith,
    contains-retain (λ j. contains_key j kept) r.order h,
    v.ordered h,
    lookup-retain_map (λ j s. not (expired now ttl s)) h r.by_message v.distinct,
  )

  pub prune_expired-RouteInv : RouteInv x r → RouteInv x (prune_expired now ttl r)
  unfolding prune_expired
  prune_expired-RouteInv v = record {
    slots =
        AllEntries-retain (SlotInv x r.attestors) (λ h s. not (expired now ttl s)) r.by_message
          v.slots;
    early =
        AllEntries-retain (EarlyInv x) (λ h e. leb (now - e.first_seen) ttl) r.early_votes v.early;
    distinct = Distinct-retain (λ h s. not (expired now ttl s)) r.by_message v.distinct;
    bounded =
        omega (arith, length-retain_map (λ h s. not (expired now ttl s)) r.by_message, v.bounded);
    early_bounded = omega (
      arith,
      length-retain_map (λ h e. leb (now - e.first_seen) ttl) r.early_votes,
      v.early_bounded,
    );
    ordered = λ h. kept_order h v;
  }

  pub lookup-pruned :
      (h : ℕ)
      → RouteInv x r
      → lookup h (prune_expired now ttl r).by_message
        ≡ keep_if (λ j s. not (expired now ttl s)) h (lookup h r.by_message)
  unfolding prune_expired
  lookup-pruned h v = lookup-retain_map (λ j s. not (expired now ttl s)) h r.by_message v.distinct

  -- On a route that meets the invariant, pruning takes away each slot that is delivered, and each
  -- that is terminal and older than the time to live, and leaves every other slot unchanged.
  pub lookup-prune_expired :
      (h : ℕ)
      → RouteInv x r
      → Pruned now ttl (lookup h r.by_message) (lookup h (prune_expired now ttl r).by_message)
  lookup-prune_expired h v =
      rw (lookup-pruned h v) (keep_if-Pruned now ttl h (lookup h r.by_message))

-- A new attestor set.
retained_members :
    (attestors : List ℕ) (m : Map Bytes)
    → AllEntries (Member attestors) (retain_map (λ a sig. contains attestors a) m)
unfolding retain_map
retained_members attestors [] = tt
retained_members attestors ((a, sig) ∷ m) = elim (Bool-cases (contains attestors a)) [
  | inl c ↦ rw c (c, retained_members attestors m)
  | inr c ↦ rw c (retained_members attestors m)
]

same_addresses-eq : (as' bs : List ℕ) → same_addresses as' bs ≡ true → as' ≡ bs
same_addresses-eq [] [] h = refl
same_addresses-eq [] (b ∷ bs) h = absurd (cc)
same_addresses-eq (a ∷ as') [] h = absurd (cc)
same_addresses-eq (a ∷ as') (b ∷ bs) h = ground (arith, same_addresses-eq as' bs)

prune_signers-SlotInv :
    (x : Crypto) (old new : List ℕ) (hash : ℕ) (s : MessageSlot)
    → SlotInv x old hash s
    → SlotInv x new hash (prune_signers new s)
prune_signers-SlotInv x old new hash s v = elim (Bool-cases (resolved s)) [
  | inl d ↦ rw d (record {
    keyed = v.keyed;
    verified = v.verified;
    sorted = v.sorted;
    members = λ h. absurd (cc);
    idle = v.idle;
  })
  | inr d ↦ rw d (record {
    keyed = v.keyed;
    verified = AllEntries-retain (Signed x hash) (λ a sig. contains new a) s.signers v.verified;
    sorted = Above-retain 0 (λ a sig. contains new a) s.signers v.sorted;
    members = λ h. retained_members new s.signers;
    idle = v.idle;
  })
]

contains_key-map_values :
    (f : MessageSlot → MessageSlot) (m : Map MessageSlot) (h : ℕ)
    → contains_key h (map_values f m) ≡ contains_key h m
contains_key-map_values f m h = rw (lookup-map_values f h m) (map_opt_some f (lookup h m))
  where
    map_opt_some :
        (f : MessageSlot → MessageSlot) (o : Option MessageSlot) → is_some (map_opt f o) ≡ is_some o
    map_opt_some f none = refl
    map_opt_some f (some s) = refl

-- A change to every slot that takes the slot invariant over to the new attestors.
map_values-RouteInv :
    (x : Crypto) (f : MessageSlot → MessageSlot) (attestors : List ℕ) (threshold : ℕ)
    (r : RouteState)
    → RouteInv x r
    → ((h : ℕ) (s : MessageSlot) → SlotInv x r.attestors h s → SlotInv x attestors h (f s))
    → RouteInv x (record r {
      attestors = attestors;
      threshold = threshold;
      by_message = map_values f r.by_message;
    })
map_values-RouteInv x f attestors threshold r v keep = record {
  slots =
      AllEntries-map_values f (SlotInv x r.attestors) (SlotInv x attestors) r.by_message keep
        v.slots;
  early = v.early;
  distinct = Distinct-map_values f r.by_message v.distinct;
  bounded = omega (arith, length-map_values f r.by_message, v.bounded);
  early_bounded = v.early_bounded;
  ordered = λ h. v.ordered h ∙ sym (contains_key-map_values f r.by_message h);
}

module _ (x : Crypto) (update : RouteAttestors) (now : ℕ) (r : RouteState) where
  -- The route under the new set, its votes pruned.
  abbrev pub reloaded : RouteState
  reloaded = record r {
    attestors = update.attestors;
    threshold = update.threshold;
    by_message = prune_slots update.attestors r.by_message;
  }

  pub reloaded-RouteInv : RouteInv x r → RouteInv x reloaded
  reloaded-RouteInv v =
      map_values-RouteInv x (prune_signers update.attestors) update.attestors update.threshold r v
        (λ h s. prune_signers-SlotInv x r.attestors update.attestors h s)

  -- On a route that meets the invariant, a new attestor set leaves the invariant true of the new
  -- set and threshold, so that no unresolved message counts a departed attestor, and each job
  -- dispatched only asks what became of its message or carries a quorum of the new set.
  pub apply_attestor_set-Sound :
      RouteInv x r
      → Sound x
          (record r { attestors = update.attestors; threshold = update.threshold })
          (apply_attestor_set x update now r).0
          (apply_attestor_set x update now r).1
  unfolding apply_attestor_set
  apply_attestor_set-Sound v =
      elim (Bool-cases
        (same_addresses r.attestors update.attestors && r.threshold == update.threshold)) [
          | inl e ↦
              let same = same_addresses-eq r.attestors update.attestors (ground arith) in
              rw (e, apply_attestor_set)
                (Sound-none x _ (record {
                  slots = rw same at v.slots;
                  early = v.early;
                  distinct = v.distinct;
                  bounded = v.bounded;
                  early_bounded = v.early_bounded;
                  ordered = v.ordered;
                }))
          | inr e ↦
              rw (e, apply_attestor_set)
                (Sound-from x reloaded _ _ _ refl refl (
                  dispatch_all-Sound x update.chain_key now false
                    (ready_ids update.threshold (prune_slots update.attestors r.by_message))
                    reloaded (reloaded-RouteInv v)))
        ]

-- Marking a request changes nothing that the invariant speaks of.
mark_slot-SlotInv :
    (x : Crypto) (attestors : List ℕ) (threshold now hash : ℕ) (s : MessageSlot)
    → SlotInv x attestors hash s
    → SlotInv x attestors hash (mark_slot threshold now s)
mark_slot-SlotInv x attestors threshold now hash s v = elim (Bool-cases (stalled threshold now s)) [
  | inl e ↦ rw e (record {
    keyed = v.keyed;
    verified = v.verified;
    sorted = v.sorted;
    members = v.members;
    idle = v.idle;
  })
  | inr e ↦ rw e v
]

pub collect_stalled-RouteInv :
    (x : Crypto) (chain_key now : ℕ) (r : RouteState)
    → RouteInv x r
    → RouteInv x (collect_stalled_reobservations chain_key now r).0
unfolding collect_stalled_reobservations
collect_stalled-RouteInv x chain_key now r v =
    map_values-RouteInv x (mark_slot r.threshold now) r.attestors r.threshold r v
      (λ h s. mark_slot-SlotInv x r.attestors r.threshold now h s)
