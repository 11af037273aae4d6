-- ===== src/Pool/Admission/Loop.antt =====
-- The loop of `make_room` of message-relayer/src/pool/mod.rs, round by round.
use asc_message_relayer.Prelude.{
  ℕ, zero, suc, ◌<◌, ◌≤◌, ◌≡◌, refl, sym, ap, ◌∙◌, true, false, not, Option, none, some, ◌∷◌,
  length, leb, arith, Bool-cases, Option-cases, ◌⊎◌, inl, inr, ==_iff, leb→le, ◌==◌, find_first,
  retain, find_first-some, contains, contains-retain, ==_comm,
}
use asc_message_relayer.Prelude.Map.{
  Map, lookup, remove, contains_key, AllEntries-remove, lookup-remove, length-remove,
  length-remove_lt, Distinct-remove,
}
use asc_message_relayer.Types.{Crypto}
use asc_message_relayer.Pool.Slot.{MessageSlot, RouteState, resolved}
use asc_message_relayer.Pool.Invariant.{SlotInv, RouteInv}
use asc_message_relayer.Pool.Admission.{resolved_opt, resolved_at, make_room_loop}

-- The route without one slot.
abbrev pub without : ℕ → RouteState → RouteState
without victim r = record r {
  order = retain (λ h. not (h == victim)) r.order;
  by_message = remove victim r.by_message;
}

pub without-ordered :
    (r : RouteState) (victim h : ℕ)
    → contains r.order h ≡ contains_key h r.by_message
    → contains (without victim r).order h ≡ contains_key h (without victim r).by_message
without-ordered r victim h e = ground (
  arith,
  contains-retain (λ j. not (j == victim)) r.order h,
  lookup-remove victim h r.by_message,
  ==_comm victim h,
)

pub without-RouteInv :
    (x : Crypto) (r : RouteState) (victim : ℕ) → RouteInv x r → RouteInv x (without victim r)
without-RouteInv x r victim v = record {
  slots = AllEntries-remove (SlotInv x r.attestors) victim r.by_message v.slots;
  early = v.early;
  distinct = Distinct-remove victim r.by_message v.distinct;
  bounded = omega (arith, length-remove victim r.by_message, v.bounded);
  early_bounded = v.early_bounded;
  ordered = λ h. without-ordered r victim h (v.ordered h);
}

pub resolved_opt-some :
    (o : Option MessageSlot)
    → resolved_opt o ≡ true
    → (s : MessageSlot) × (o ≡ some s) × (resolved s ≡ true)
resolved_opt-some none h = cc
resolved_opt-some (some s) h = (s, refl, h)

-- A round stops with room, stops without a victim, or goes on without the victim.
pub data Round (r : RouteState) : Type 0 where
  room :
      length r.by_message < r.cache_max
      → ((fuel : ℕ) → make_room_loop (suc fuel) r ≡ (r, true))
      → Round r
  stuck :
      r.cache_max ≤ length r.by_message
      → find_first (resolved_at r.by_message) r.order ≡ none
      → ((fuel : ℕ) → make_room_loop (suc fuel) r ≡ (r, false))
      → Round r
  evict :
      r.cache_max ≤ length r.by_message
      → (victim : ℕ) (s : MessageSlot) → lookup victim r.by_message ≡ some s
      → resolved s ≡ true
      → ((fuel : ℕ) → make_room_loop (suc fuel) r ≡ make_room_loop fuel (without victim r))
      → Round r

pub round : (r : RouteState) → Round r
unfolding make_room_loop
round r = elim (Bool-cases (leb r.cache_max (length r.by_message))) [
  | inr lt ↦ room (ground arith) (λ fuel. rw (lt, make_room_loop))
  | inl le ↦ elim (Option-cases (find_first (resolved_at r.by_message) r.order)) [
    | inl e ↦ stuck (leb→le _ _ le) e (λ fuel. rw (le, e, make_room_loop))
    | inr (victim, e) ↦
        let hit = find_first-some (resolved_at r.by_message) r.order e in
        let found = resolved_opt-some (lookup victim r.by_message) hit.0 in
        evict (leb→le _ _ le) victim found.0 found.1 found.2 (λ fuel. rw (le, e, make_room_loop))
  ]
]

-- The invariant holds after any number of rounds.
pub make_room_loop-RouteInv :
    (x : Crypto) (fuel : ℕ) (r : RouteState) → RouteInv x r → RouteInv x (make_room_loop fuel r).0
make_room_loop-RouteInv x zero r v = unfold make_room_loop in v
make_room_loop-RouteInv x (suc fuel) r v = elim (round r) [
  | room _ e ↦ rw (e fuel) v
  | stuck _ _ e ↦ rw (e fuel) v
  | evict _ victim _ _ _ e ↦
      rw (e fuel)
        (make_room_loop-RouteInv x fuel (without victim r) (without-RouteInv x r victim v))
]

-- With more fuel than slots, the fuel makes no difference: the loop ends by itself.
pub make_room_loop-fuel :
    (f g : ℕ) (r : RouteState)
    → length r.by_message < f
    → length r.by_message < g
    → make_room_loop f r ≡ make_room_loop g r
make_room_loop-fuel zero g r hf hg = elim hf [ ]
make_room_loop-fuel (suc f) zero r hf hg = elim hg [ ]
make_room_loop-fuel (suc f) (suc g) r hf hg = elim (round r) [
  | room _ e ↦ e f ∙ sym (e g)
  | stuck _ _ e ↦ e f ∙ sym (e g)
  | evict _ victim s p _ e ↦
      let shorter = length-remove_lt victim r.by_message p in
      e f
      ∙ make_room_loop-fuel f g (without victim r) (omega (arith, shorter)) (omega (arith, shorter))
      ∙ sym (e g)
]

-- Success means that there is room.
pub make_room_loop-room :
    (fuel : ℕ) (r : RouteState)
    → (make_room_loop fuel r).1 ≡ true
    → length (make_room_loop fuel r).0.by_message < (make_room_loop fuel r).0.cache_max
make_room_loop-room zero r h = absurd (unfold make_room_loop in ground arith)
make_room_loop-room (suc fuel) r h = elim (round r) [
  | room lt e ↦ rw (e fuel) lt
  | stuck _ _ e ↦ let no_room : false ≡ true = sym (ap (λ p. p.1) (e fuel)) ∙ h in absurd (cc)
  | evict _ victim _ _ _ e ↦
      rw (e fuel) (make_room_loop-room fuel (without victim r) (rw (e fuel) at h))
]

-- The removal of one resolved slot leaves the others.
pub without-lookup :
    (r : RouteState) (victim h : ℕ) (s t : MessageSlot)
    → lookup h r.by_message ≡ some s
    → lookup victim r.by_message ≡ some t
    → resolved s ≡ false
    → resolved t ≡ true
    → lookup h (without victim r).by_message ≡ some s
without-lookup r victim h s t p q u d = ground (arith, lookup-remove victim h r.by_message)

pub distinct_tail :
    (j h : ℕ) (t s : MessageSlot) (m : Map MessageSlot)
    → lookup j m ≡ none
    → lookup h m ≡ some s
    → lookup h ((j, t) ∷ m) ≡ some s
unfolding lookup
distinct_tail j h t s m n e = ground arith

-- Whatever is not resolved stays.
pub make_room_loop-keeps :
    (fuel : ℕ) (r : RouteState) (h : ℕ) (s : MessageSlot)
    → lookup h r.by_message ≡ some s
    → resolved s ≡ false
    → lookup h (make_room_loop fuel r).0.by_message ≡ some s
make_room_loop-keeps zero r h s p u = unfold make_room_loop in p
make_room_loop-keeps (suc fuel) r h s p u = elim (round r) [
  | room _ e ↦ rw (e fuel) p
  | stuck _ _ e ↦ rw (e fuel) p
  | evict _ victim t q d e ↦
      rw (e fuel)
        (make_room_loop-keeps fuel (without victim r) h s (without-lookup r victim h s t p q u d) u)
]

-- Nothing appears.
pub make_room_loop-absent :
    (fuel : ℕ) (r : RouteState) (h : ℕ)
    → lookup h r.by_message ≡ none
    → lookup h (make_room_loop fuel r).0.by_message ≡ none
make_room_loop-absent zero r h n = unfold make_room_loop in n
make_room_loop-absent (suc fuel) r h n = elim (round r) [
  | room _ e ↦ rw (e fuel) n
  | stuck _ _ e ↦ rw (e fuel) n
  | evict _ victim _ _ _ e ↦ rw (e fuel) (
      make_room_loop-absent fuel (without victim r) h
        (ground (arith, lookup-remove victim h r.by_message)))
]

-- Under an id, the loop changes nothing or removes a resolved slot.
pub make_room_loop-cases :
    (fuel : ℕ) (r : RouteState) (h : ℕ)
    → (lookup h (make_room_loop fuel r).0.by_message ≡ lookup h r.by_message)
      ⊎ ((s : MessageSlot) × (lookup h r.by_message ≡ some s)
          × (resolved s ≡ true)
          × (lookup h (make_room_loop fuel r).0.by_message ≡ none))
make_room_loop-cases zero r h = inl (unfold make_room_loop in refl)
make_room_loop-cases (suc fuel) r h = elim (round r) [
  | room _ e ↦ inl (rw (e fuel))
  | stuck _ _ e ↦ inl (rw (e fuel))
  | evict _ victim t q d e ↦ elim (Bool-cases (victim == h)) [
    | inl same ↦
        let here = (==_iff victim h).0 same in
        inr (
          t,
          rw here at q,
          d,
          rw (e fuel)
              (make_room_loop-absent fuel (without victim r) h (rw lookup-remove (rw same))),
        )
    | inr other ↦
        let kept : lookup h (without victim r).by_message ≡ lookup h r.by_message =
          rw lookup-remove (rw other) in
        elim (make_room_loop-cases fuel (without victim r) h) [
          | inl c ↦ inl (rw (e fuel) (c ∙ kept))
          | inr (s, p, u, c) ↦ inr (s, sym kept ∙ p, u, rw (e fuel) c)
        ]
  ]
]

-- What the loop leaves of the configuration.
pub make_room_loop-config :
    (fuel : ℕ) (r : RouteState)
    → ((make_room_loop fuel r).0.attestors ≡ r.attestors)
      × ((make_room_loop fuel r).0.threshold ≡ r.threshold)
      × ((make_room_loop fuel r).0.early_votes ≡ r.early_votes)
      × ((make_room_loop fuel r).0.cache_max ≡ r.cache_max)
make_room_loop-config zero r = unfold make_room_loop in (refl, refl, refl, refl)
make_room_loop-config (suc fuel) r = elim (round r) [
  | room _ e ↦ rw (e fuel) (refl, refl, refl, refl)
  | stuck _ _ e ↦ rw (e fuel) (refl, refl, refl, refl)
  | evict _ victim _ _ _ e ↦ rw (e fuel) (make_room_loop-config fuel (without victim r))
]
