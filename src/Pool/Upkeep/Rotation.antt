-- ===== src/Pool/Upkeep/Rotation.antt =====
-- The rotation of the working set through the durable backlog: `refill` of
-- message-relayer/src/pool/mod.rs.
use asc_message_relayer.Prelude.{
  ℕ, zero, suc, ◌-◌, ◌<◌, ◌≤◌, ◌≡◌, refl, ◌∙◌, true, false, some, List, [], ◌∷◌, length, arith,
  Bool-cases, Option-cases, ◌⊎◌, inl, inr, contains, retain, contains-retain, ◌==◌, take, max, ◌/◌,
}
use asc_message_relayer.Prelude.Map.{lookup, lookup-remove}
use asc_message_relayer.Types.{Crypto, IndexedMessage}
use asc_message_relayer.Pool.Slot.{MessageSlot, RouteState, resolved}
use asc_message_relayer.Pool.Invariant.{RouteInv, Sound, Sound-none, Sound-push, Sound-from}
use asc_message_relayer.Pool.Admission.{note_indexed}
use asc_message_relayer.Pool.Admission.Loop.{without-RouteInv}
use asc_message_relayer.Pool.Admission.Index.{note_indexed-Sound, note_indexed-keeps}
use asc_message_relayer.Pool.Upkeep.{
  rotatable, rotation_candidates, drop_ids, index_all, refill_route, working_set_residence,
}

pub drop_ids-RouteInv :
    (x : Crypto) (ids : List ℕ) (r : RouteState) → RouteInv x r → RouteInv x (drop_ids ids r)
unfolding drop_ids
drop_ids-RouteInv x [] r v = v
drop_ids-RouteInv x (id ∷ ids) r v = drop_ids-RouteInv x ids _ (without-RouteInv x r id v)

drop_ids-config :
    (ids : List ℕ) (r : RouteState)
    → ((drop_ids ids r).attestors ≡ r.attestors) × ((drop_ids ids r).threshold ≡ r.threshold)
unfolding drop_ids
drop_ids-config [] r = (refl, refl)
drop_ids-config (id ∷ ids) r = drop_ids-config ids _

index_all-Sound :
    (x : Crypto) (chain_key : ℕ) (ms : List IndexedMessage) (now : ℕ) (r : RouteState)
    → RouteInv x r
    → Sound x r (index_all x chain_key ms now r).0 (index_all x chain_key ms now r).1
unfolding index_all
index_all-Sound x chain_key [] now r v = Sound-none x r v
index_all-Sound x chain_key (m ∷ ms) now r v =
    let first = note_indexed-Sound x chain_key m now r v in
    Sound-push x r _ _ _ _ first
      (index_all-Sound x chain_key ms now (note_indexed x chain_key m now r).0 first.inv)

pub refill_route-Sound :
    (x : Crypto) (chain_key : ℕ) (pending : List IndexedMessage) (now : ℕ) (r : RouteState)
    → RouteInv x r
    → Sound x r
        (refill_route x chain_key pending now r).0
        (refill_route x chain_key pending now r).1
unfolding refill_route
refill_route-Sound x chain_key pending now r v =
    let gone =
      take (length pending - (r.cache_max - length r.by_message)) (rotation_candidates now r) in
    let cfg = drop_ids-config gone r in
    Sound-from x (drop_ids gone r) r _ _ cfg.0 cfg.1
      (index_all-Sound x chain_key pending now (drop_ids gone r) (drop_ids-RouteInv x gone r v))

-- What a rotation may give up: unresolved messages that are not in flight and have had their time.
abbrev pub Rotatable : ℕ → RouteState → ℕ → Type 0
Rotatable now r id =
    (s : MessageSlot) × (lookup id r.by_message ≡ some s)
    × (s.in_flight ≡ false)
    × (resolved s ≡ false)
    × (working_set_residence ≤ now - s.inserted_at)

rotatable-Rotatable :
    (now : ℕ) (r : RouteState) (id : ℕ) → rotatable now r.by_message id ≡ true → Rotatable now r id
rotatable-Rotatable now r id h = elim (Option-cases (lookup id r.by_message)) [
  | inl n ↦ let bad : false ≡ true = rw (n, rotatable) at h in absurd (cc)
  | inr (s, p) ↦
      let test = rw (p, rotatable) at h in
      (s, p, ground (arith, test), ground (arith, test), ground (arith, test))
]

contains-take : (n : ℕ) (xs : List ℕ) (a : ℕ) → contains (take n xs) a ≡ true → contains xs a ≡ true
contains-take zero xs a h = absurd (cc)
contains-take (suc n) [] a h = absurd (cc)
contains-take (suc n) (x ∷ xs) a h = ground (arith, contains-take n xs a)

pub candidates-Rotatable :
    (now : ℕ) (r : RouteState) (n id : ℕ)
    → contains (take n (rotation_candidates now r)) id ≡ true
    → Rotatable now r id
unfolding rotation_candidates
candidates-Rotatable now r n id h =
    let eligible = retain (rotatable now r.by_message) r.order in
    let listed =
      contains-take (max (r.cache_max / 4) 1) eligible id
        (contains-take n (rotation_candidates now r) id h) in
    rotatable-Rotatable now r id
      (ground (arith, listed, contains-retain (rotatable now r.by_message) r.order id))

pub lookup-drop_ids :
    (ids : List ℕ) (r : RouteState) (h : ℕ)
    → contains ids h ≡ false
    → lookup h (drop_ids ids r).by_message ≡ lookup h r.by_message
unfolding drop_ids
lookup-drop_ids [] r h n = refl
lookup-drop_ids (id ∷ ids) r h n =
    lookup-drop_ids ids _ h (ground (arith, n))
    ∙ rw lookup-remove (let other : (id == h) ≡ false = ground (arith, n) in rw other)

index_all-keeps :
    (x : Crypto) (chain_key : ℕ) (ms : List IndexedMessage) (now : ℕ) (r : RouteState) (h : ℕ)
    (s : MessageSlot)
    → lookup h r.by_message ≡ some s
    → resolved s ≡ false
    → lookup h (index_all x chain_key ms now r).0.by_message ≡ some s
unfolding index_all
index_all-keeps x chain_key [] now r h s p u = p
index_all-keeps x chain_key (m ∷ ms) now r h s p u =
    index_all-keeps x chain_key ms now _ h s (note_indexed-keeps x chain_key m now r h s p u) u

-- A refill leaves an unresolved slot unchanged that is in flight, or that was admitted less than
-- the residence time ago.
pub refill_route-keeps :
    (x : Crypto) (chain_key : ℕ) (pending : List IndexedMessage) (now : ℕ) (r : RouteState) (h : ℕ)
    (s : MessageSlot)
    → lookup h r.by_message ≡ some s
    → resolved s ≡ false
    → (s.in_flight ≡ true) ⊎ (now - s.inserted_at < working_set_residence)
    → lookup h (refill_route x chain_key pending now r).0.by_message ≡ some s
unfolding refill_route
refill_route-keeps x chain_key pending now r h s p u young =
    let n = length pending - (r.cache_max - length r.by_message) in
    let gone = take n (rotation_candidates now r) in
    elim (Bool-cases (contains gone h)) [
      | inl c ↦
          let (t, q, idle, fresh, old) = candidates-Rotatable now r n h c in
          absurd (ground (arith, p, q, idle, old, young))
      | inr c ↦
          index_all-keeps x chain_key pending now (drop_ids gone r) h s
            (lookup-drop_ids gone r h c ∙ p) u
    ]
