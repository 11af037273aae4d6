-- ===== src/Pool/Admission/Room.antt =====
-- `make_room` of message-relayer/src/pool/mod.rs: it ends, it keeps every unresolved message, and it
-- succeeds exactly when `can_index` says so.
use asc_message_relayer.Prelude.{
  ℕ, Bool, zero, suc, ◌<◌, ◌≤◌, ◌≡◌, refl, ◌∙◌, true, false, ◌||◌, none, some, [], ◌∷◌, length, leb,
  arith, Bool-cases, ◌⊎◌, inl, inr, find_first, find_first-none, contains, ==_refl,
}
use asc_message_relayer.Prelude.Map.{Map, lookup, contains_key, length-remove_lt, Distinct}
use asc_message_relayer.Types.{Crypto, IndexedMessage}
use asc_message_relayer.Pool.Slot.{MessageSlot, RouteState, resolved}
use asc_message_relayer.Pool.Invariant.{RouteInv}
use asc_message_relayer.Pool.Admission.{
  resolved_opt, resolved_at, make_room_loop, make_room, any_resolved, can_index,
}
use asc_message_relayer.Pool.Admission.Loop.{
  without, without-RouteInv, round, make_room_loop-RouteInv, make_room_loop-fuel,
  make_room_loop-room, distinct_tail, make_room_loop-keeps, make_room_loop-absent,
  make_room_loop-cases, make_room_loop-config, room, stuck, evict,
}

any_resolved-some :
    (m : Map MessageSlot)
    → Distinct m
    → any_resolved m ≡ true
    → (h : ℕ) × (s : MessageSlot) × (lookup h m ≡ some s) × (resolved s ≡ true)
unfolding lookup
any_resolved-some [] d e = absurd (cc)
any_resolved-some ((h, s) ∷ m) d e = elim (Bool-cases (resolved s)) [
  | inl t ↦ (h, s, rw (==_refl h), t)
  | inr f ↦
      let rest = any_resolved-some m d.1 (ground arith) in
      (rest.0, rest.1, distinct_tail h rest.0 s rest.1 m d.0 rest.2, rest.3)
]

any_resolved-lookup :
    (m : Map MessageSlot) (h : ℕ) (s : MessageSlot)
    → lookup h m ≡ some s
    → resolved s ≡ true
    → any_resolved m ≡ true
unfolding lookup
any_resolved-lookup [] h s e d = cc
any_resolved-lookup ((j, t) ∷ m) h s e d = ground (arith, any_resolved-lookup m h s)

-- Where no id of the order is resolved, no slot is.
none_resolved :
    (x : Crypto) (r : RouteState)
    → RouteInv x r
    → find_first (resolved_at r.by_message) r.order ≡ none
    → any_resolved r.by_message ≡ false
none_resolved x r v n = elim (Bool-cases (any_resolved r.by_message)) [
  | inr f ↦ f
  | inl t ↦
      let (h, s, p, d) = any_resolved-some r.by_message v.distinct t in
      let listed : contains r.order h ≡ true = v.ordered h ∙ rw p refl in
      let fresh : resolved_opt (some s) ≡ false =
        rw p at (find_first-none (resolved_at r.by_message) r.order h n listed) in
      cc
]

-- A route with room stops at once.
room_left :
    (fuel : ℕ) (r : RouteState)
    → length r.by_message < r.cache_max
    → make_room_loop (suc fuel) r ≡ (r, true)
unfolding make_room_loop
room_left fuel r h =
    let e : leb r.cache_max (length r.by_message) ≡ false = ground arith in rw (e, make_room_loop)

-- After one eviction from a full route there is room.
evicted_room :
    (r : RouteState) (victim : ℕ) (s : MessageSlot)
    → lookup victim r.by_message ≡ some s
    → length r.by_message ≤ r.cache_max
    → (make_room_loop (length r.by_message) (without victim r)).1 ≡ true
evicted_room r victim s p b =
    let shorter = length-remove_lt victim r.by_message p in
    rw
      (make_room_loop-fuel (length r.by_message) (suc (length r.by_message)) (without victim r)
        shorter (omega (arith, shorter)))
      (rw (room_left (length r.by_message) (without victim r) (omega (arith, shorter))))

-- On a route that meets the invariant, can_index accepts a message exactly if it is known or
-- make_room succeeds.
pub make_room-can_index :
    (x : Crypto) (r : RouteState) (indexed : IndexedMessage)
    → RouteInv x r
    → can_index indexed r ≡ (contains_key indexed.message_id r.by_message || (make_room r).1)
unfolding can_index make_room
make_room-can_index x r indexed v = elim (round r) [
  | room lt e ↦ rw (e _) (ground (arith, lt))
  | stuck le n e ↦ rw (e _) (ground (arith, none_resolved x r v n))
  | evict le victim s p d e ↦ rw (e _) (
      rw (evicted_room r victim s p v.bounded)
        (ground (arith, any_resolved-lookup r.by_message victim s p d)))
]

-- How the loop ends: with room, or full of messages none of which is resolved.
abbrev pub Ended : RouteState × Bool → Type 0
Ended (r, true) = length r.by_message < r.cache_max
Ended (r, false) =
    (r.cache_max ≤ length r.by_message)
    × ((h : ℕ) (s : MessageSlot) → lookup h r.by_message ≡ some s → resolved s ≡ false)

all_unresolved :
    (x : Crypto) (r : RouteState)
    → RouteInv x r
    → find_first (resolved_at r.by_message) r.order ≡ none
    → (h : ℕ) (s : MessageSlot) → lookup h r.by_message ≡ some s
    → resolved s ≡ false
all_unresolved x r v n h s p = elim (Bool-cases (resolved s)) [
  | inr f ↦ f
  | inl t ↦
      let some_resolved = any_resolved-lookup r.by_message h s p t in
      let no_resolved = none_resolved x r v n in absurd (cc)
]

-- On a route that meets the invariant, with any fuel above the number of slots the loop of
-- make_room ends either with room for one more, or on a full route none of whose slots is
-- resolved.
pub make_room_loop-Ended :
    (x : Crypto) (fuel : ℕ) (r : RouteState)
    → RouteInv x r
    → length r.by_message < fuel
    → Ended (make_room_loop fuel r)
make_room_loop-Ended x zero r v h = elim h [ ]
make_room_loop-Ended x (suc fuel) r v h = elim (round r) [
  | room lt e ↦ rw (e fuel) lt
  | stuck le n e ↦ rw (e fuel) (le, all_unresolved x r v n)
  | evict _ victim s p _ e ↦
      let shorter = length-remove_lt victim r.by_message p in
      rw (e fuel) (
        make_room_loop-Ended x fuel (without victim r) (without-RouteInv x r victim v)
          (omega (arith, shorter, h)))
]

module _ (r : RouteState) where
  pub make_room-RouteInv : (x : Crypto) → RouteInv x r → RouteInv x (make_room r).0
  unfolding make_room
  make_room-RouteInv x v = make_room_loop-RouteInv x (suc (length r.by_message)) r v

  -- Success means room for one more.
  pub make_room-room :
      (make_room r).1 ≡ true → length (make_room r).0.by_message < (make_room r).0.cache_max
  unfolding make_room
  make_room-room h = make_room_loop-room (suc (length r.by_message)) r h

  -- No unresolved message is given up.
  pub make_room-keeps :
      (h : ℕ) (s : MessageSlot)
      → lookup h r.by_message ≡ some s
      → resolved s ≡ false
      → lookup h (make_room r).0.by_message ≡ some s
  unfolding make_room
  make_room-keeps h s p u = make_room_loop-keeps (suc (length r.by_message)) r h s p u

  pub make_room-absent :
      (h : ℕ) → lookup h r.by_message ≡ none → lookup h (make_room r).0.by_message ≡ none
  unfolding make_room
  make_room-absent h n = make_room_loop-absent (suc (length r.by_message)) r h n

  pub make_room-cases :
      (h : ℕ)
      → (lookup h (make_room r).0.by_message ≡ lookup h r.by_message)
        ⊎ ((s : MessageSlot) × (lookup h r.by_message ≡ some s)
            × (resolved s ≡ true)
            × (lookup h (make_room r).0.by_message ≡ none))
  unfolding make_room
  make_room-cases h = make_room_loop-cases (suc (length r.by_message)) r h

  pub make_room-config :
      ((make_room r).0.attestors ≡ r.attestors)
      × ((make_room r).0.threshold ≡ r.threshold)
      × ((make_room r).0.early_votes ≡ r.early_votes)
      × ((make_room r).0.cache_max ≡ r.cache_max)
  unfolding make_room
  make_room-config = make_room_loop-config (suc (length r.by_message)) r
