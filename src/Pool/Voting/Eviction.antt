-- ===== src/Pool/Voting/Eviction.antt =====
-- The bound on buffered votes: `evict_early_overflow` of message-relayer/src/pool/mod.rs.
use asc_message_relayer.Prelude.{
  ℕ, zero, suc, ◌+◌, ◌≤◌, ◌≡◌, refl, none, some, [], ◌∷◌, length, ltb, leb, arith, Bool-cases,
  Option-cases, inl, inr, ◌==◌, ==_refl,
}
use asc_message_relayer.Prelude.Map.{
  Map, lookup, remove, AllEntries, AllEntries-remove, AllEntries-mono, length-remove_lt,
}
use asc_message_relayer.Pool.Slot.{EarlyVotes, RouteState}
use asc_message_relayer.Pool.Voting.{oldest, evict_loop, evict_early_overflow}

-- The entry found in front, or further down.
found_below :
    (k : ℕ) (e : EarlyVotes) (m : Map EarlyVotes) (h : ℕ)
    → (d : EarlyVotes) × (lookup h m ≡ some d)
    → (d : EarlyVotes) × (lookup h ((k, e) ∷ m) ≡ some d)
unfolding lookup
found_below k e m h (d, p) = elim (Bool-cases (k == h)) [ inl q ↦ (e, rw q) | inr q ↦ (d, rw q p) ]

-- The oldest entry is one of the map, and none is older.
oldest-lookup :
    (m : Map EarlyVotes) (a : ℕ × ℕ)
    → oldest m ≡ some a
    → (d : EarlyVotes) × (lookup a.0 m ≡ some d)
unfolding lookup
oldest-lookup [] a p = absurd (cc)
oldest-lookup ((k, e) ∷ m) a p = elim (Option-cases (oldest m)) [
  | inl n ↦
      let head : (k, e.first_seen) ≡ a = ground (arith, n, p) in (e, rw (← head) (rw (==_refl k)))
  | inr (b, q) ↦ elim (Bool-cases (leb e.first_seen b.1)) [
    | inl first ↦
        let head : (k, e.first_seen) ≡ a = ground (arith, q, p, first) in
        (e, rw (← head) (rw (==_refl k)))
    | inr rest ↦
        let tail : b ≡ a = ground (arith, q, p, rest) in
        found_below k e m a.0 (oldest-lookup m a (rw (← tail) q))
  ]
]

oldest-none : (m : Map EarlyVotes) → oldest m ≡ none → length m ≡ 0
oldest-none [] p = refl
oldest-none ((k, e) ∷ m) p = absurd (cc)

empty_AllEntries :
    (t : ℕ) (m : Map EarlyVotes) → length m ≡ 0 → AllEntries (λ h e. t ≤ e.first_seen) m
empty_AllEntries t [] p = tt
empty_AllEntries t ((k, e) ∷ m) p = absurd (omega arith)

pub oldest-le :
    (m : Map EarlyVotes) (a : ℕ × ℕ) → oldest m ≡ some a → AllEntries (λ h e. a.1 ≤ e.first_seen) m
oldest-le [] a p = tt
oldest-le ((k, e) ∷ m) a p = elim (Option-cases (oldest m)) [
  | inl n ↦
      let head : e.first_seen ≡ a.1 = ground (arith, n, p) in
      (omega arith, empty_AllEntries a.1 m (oldest-none m n))
  | inr (b, q) ↦
      let first : a.1 ≤ e.first_seen = ground (arith, q, p) in
      let rest : a.1 ≤ b.1 = ground (arith, q, p) in
      (
        first,
        AllEntries-mono (λ h e. b.1 ≤ e.first_seen) (λ h e. a.1 ≤ e.first_seen) m
            (λ h e le. omega arith) (oldest-le m b q),
      )
]

-- Each round removes one entry, so the loop ends with at most `cache_max` of them.
length-evict_loop :
    (fuel cache_max : ℕ) (m : Map EarlyVotes)
    → length m ≤ fuel + cache_max
    → length (evict_loop fuel cache_max m) ≤ cache_max
unfolding evict_loop
length-evict_loop zero cache_max m h = omega arith
length-evict_loop (suc fuel) cache_max m h = elim (Bool-cases (ltb cache_max (length m))) [
  | inr e ↦ rw (e, evict_loop) (ground arith)
  | inl e ↦ elim (Option-cases (oldest m)) [
    | inl n ↦ let empty = oldest-none m n in rw (e, n, evict_loop) (omega arith)
    | inr (a, p) ↦
        let found = oldest-lookup m a p in
        rw (e, p, evict_loop)
          (length-evict_loop fuel cache_max (remove a.0 m)
            (omega (arith, length-remove_lt a.0 m found.1)))
  ]
]

evict_loop-AllEntries {κ} :
    (P : ℕ → EarlyVotes → Type κ) (fuel cache_max : ℕ) (m : Map EarlyVotes)
    → AllEntries P m
    → AllEntries P (evict_loop fuel cache_max m)
unfolding evict_loop
evict_loop-AllEntries P zero cache_max m a = a
evict_loop-AllEntries P (suc fuel) cache_max m a = elim (Bool-cases (ltb cache_max (length m))) [
  | inr e ↦ rw (e, evict_loop) a
  | inl e ↦ elim (Option-cases (oldest m)) [
    | inl n ↦ rw (e, n, evict_loop) a
    | inr (b, p) ↦
        rw (e, p, evict_loop)
          (evict_loop-AllEntries P fuel cache_max (remove b.0 m) (AllEntries-remove P b.0 m a))
  ]
]

module _ (r : RouteState) where
  pub length-evict_early_overflow :
      length (evict_early_overflow r).early_votes ≤ (evict_early_overflow r).cache_max
  unfolding evict_early_overflow
  length-evict_early_overflow =
      length-evict_loop (length r.early_votes) r.cache_max r.early_votes (omega arith)

  pub evict_early_overflow-AllEntries {κ} :
      (P : ℕ → EarlyVotes → Type κ)
      → AllEntries P r.early_votes
      → AllEntries P (evict_early_overflow r).early_votes
  unfolding evict_early_overflow
  evict_early_overflow-AllEntries P a =
      evict_loop-AllEntries P (length r.early_votes) r.cache_max r.early_votes a
