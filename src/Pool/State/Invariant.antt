-- ===== src/Pool/State/Invariant.antt =====
-- Every operation of the pool's state keeps the invariant of every route
-- (message-relayer/src/pool/mod.rs).
use mathlib.Core.Path.{subst, subst₂}
use asc_message_relayer.Prelude.{
  ℕ, ◌≡◌, ◌⊎◌, sym, refl, Option, none, some, List, [], ◌∷◌, ◌++◌, arith, Option-cases, inl, inr,
}
use asc_message_relayer.Prelude.Map.{
  Map, lookup, insert, AllEntries, AllEntries-lookup, AllEntries-insert,
}
use asc_message_relayer.Types.{
  Crypto, IndexedMessage, MessageVote, DeliveryJob, DeliveryResult, RouteAttestors, VoteCacheConfig,
}
use asc_message_relayer.Pool.Slot.{RouteState}
use asc_message_relayer.Pool.Invariant.{RouteInv, GoodJob, GoodJobs, Sound, Sound?}
use asc_message_relayer.Pool.Admission.Index.{note_indexed-Sound}
use asc_message_relayer.Pool.Voting.Sound.{note_vote-Sound}
use asc_message_relayer.Pool.Results.Sound.{
  note_delivery_result-Sound, requeue_delivery-Sound, collect_ready_deliveries-Sound,
}
use asc_message_relayer.Pool.Upkeep.Sound.{
  prune_expired-RouteInv, apply_attestor_set-Sound, collect_stalled-RouteInv,
}
use asc_message_relayer.Pool.Upkeep.Rotation.{refill_route-Sound}
use asc_message_relayer.Pool.Results.{collect_ready_deliveries}
use asc_message_relayer.Pool.Upkeep.{refill_route, prune_expired, collect_stalled_reobservations}
use asc_message_relayer.Pool.State.Keyed.{
  Keyed?, Keyed, note_indexed-Keyed?, note_vote-Keyed?, apply_attestor_set-Keyed,
  refill_route-Keyed, collect_ready-Keyed,
}
use asc_message_relayer.Pool.State.{
  State, empty_route, collect_routes, new, on_route, note_indexed_at, note_vote_at,
  note_delivery_result_at, requeue_delivery_at, apply_attestor_set_at, prune_routes,
  prune_expired_at, each_route, collect_ready_at, refill_at, stalled_routes, collect_stalled_at,
}

-- A set of attestors and a threshold that some entry of a list configures for a chain key.
abbrev pub Configured : List RouteAttestors → ℕ → List ℕ → ℕ → Type 0
Configured [] chain_key attestors threshold = ⊥
Configured (set ∷ sets) chain_key attestors threshold =
    ((set.chain_key ≡ chain_key) × (set.attestors ≡ attestors) × (set.threshold ≡ threshold))
    ⊎ Configured sets chain_key attestors threshold

-- Each route meets its invariant under a set that is configured for it.
abbrev pub RoutesInv : Crypto → List RouteAttestors → Map RouteState → Type 0
RoutesInv x sets m = AllEntries (λ k r. RouteInv x r × Configured sets k r.attestors r.threshold) m

-- A job that asks for a delivery carries a quorum of a set that is configured for its route.
pub record Quorate (x : Crypto) (sets : List RouteAttestors) (job : DeliveryJob) : Type 0 where
  pub attestors : List ℕ
  pub threshold : ℕ
  pub configured : Configured sets job.chain_key attestors threshold
  pub good : GoodJob x attestors threshold job

abbrev pub Quorate? : Crypto → List RouteAttestors → Option DeliveryJob → Type 0
Quorate? x sets none = Unit {0}
Quorate? x sets (some job) = Quorate x sets job

abbrev pub AllQuorate : Crypto → List RouteAttestors → List DeliveryJob → Type 0
AllQuorate x sets [] = Unit {0}
AllQuorate x sets (job ∷ jobs) = Quorate x sets job × AllQuorate x sets jobs

pub AllQuorate-append :
    (x : Crypto) (sets : List RouteAttestors) (js ks : List DeliveryJob)
    → AllQuorate x sets js
    → AllQuorate x sets ks
    → AllQuorate x sets (js ++ ks)
AllQuorate-append x sets [] ks a b = b
AllQuorate-append x sets (j ∷ js) ks a b = (a.0, AllQuorate-append x sets js ks a.1 b)

module _ (x : Crypto) (sets : List RouteAttestors) where
  -- A route between two operations.
  abbrev Held : ℕ → RouteState → Type 0
  Held k r = RouteInv x r × Configured sets k r.attestors r.threshold

  Sound-AllQuorate :
      (k : ℕ) (attestors : List ℕ) (threshold : ℕ) (jobs : List DeliveryJob)
      → Configured sets k attestors threshold
      → Keyed k jobs
      → GoodJobs x attestors threshold jobs
      → AllQuorate x sets jobs
  Sound-AllQuorate k attestors threshold [] c ks g = tt
  Sound-AllQuorate k attestors threshold (job ∷ jobs) c ks g = (
    record {
      attestors = attestors;
      threshold = threshold;
      configured = subst (λ j. Configured sets j attestors threshold) (sym ks.0) c;
      good = g.0;
    },
    Sound-AllQuorate k attestors threshold jobs c ks.1 g.1,
  )

  Sound?-Quorate :
      (k : ℕ) (r r' : RouteState) (job : Option DeliveryJob)
      → Configured sets k r.attestors r.threshold
      → Keyed? k job
      → Sound? x r r' job
      → Quorate? x sets job
  Sound?-Quorate k r r' none c ks s = tt
  Sound?-Quorate k r r' (some job) c ks s = record {
    attestors = r.attestors;
    threshold = r.threshold;
    configured = subst (λ j. Configured sets j r.attestors r.threshold) (sym ks) c;
    good = s.job_good;
  }

  -- What keeps the invariant and the configuration keeps the route held.
  Sound?-Held :
      (k : ℕ) (r r' : RouteState) (job : Option DeliveryJob)
      → Configured sets k r.attestors r.threshold
      → Sound? x r r' job
      → Held k r'
  Sound?-Held k r r' job c s =
      (s.inv, subst₂ (Configured sets k) (sym s.attestors) (sym s.threshold) c)

  Sound-Held :
      (k : ℕ) (r r' : RouteState) (jobs : List DeliveryJob)
      → Configured sets k r.attestors r.threshold
      → Sound x r r' jobs
      → Held k r'
  Sound-Held k r r' jobs c s =
      (s.inv, subst₂ (Configured sets k) (sym s.attestors) (sym s.threshold) c)

module _ {A : Type 0} (x : Crypto) (sets : List RouteAttestors) (chain_key : ℕ) (missing : A)
    (f : RouteState → RouteState × A) (s : State) where
  on_route-RoutesInv :
      RoutesInv x sets s.by_route
      → ((r : RouteState) → Held x sets chain_key r → Held x sets chain_key (f r).0)
      → RoutesInv x sets (on_route chain_key missing f s).0.by_route
  unfolding on_route
  on_route-RoutesInv v keep = elim (Option-cases (lookup chain_key s.by_route)) [
    | inl n ↦ rw (n, on_route) v
    | inr (r, p) ↦
        rw (p, on_route)
          (AllEntries-insert (Held x sets) chain_key (f r).0 s.by_route v
            (keep r (AllEntries-lookup (Held x sets) chain_key s.by_route v p)))
  ]

  -- What the operation returns meets a property that the default meets.
  on_route-result {κ} :
      (P : A → Type κ)
      → RoutesInv x sets s.by_route
      → P missing
      → ((r : RouteState) → Held x sets chain_key r → P (f r).1)
      → P (on_route chain_key missing f s).1
  unfolding on_route
  on_route-result P v d keep = elim (Option-cases (lookup chain_key s.by_route)) [
    | inl n ↦ rw (n, on_route) d
    | inr (r, p) ↦
        rw (p, on_route) (keep r (AllEntries-lookup (Held x sets) chain_key s.by_route v p))
  ]

-- A state that meets the invariant, with jobs that carry quorums.
pub record Step? (x : Crypto) (sets : List RouteAttestors) (s : State) (job : Option DeliveryJob)
    : Type 0 where
  pub inv : RoutesInv x sets s.by_route
  pub quorate : Quorate? x sets job

pub record Steps (x : Crypto) (sets : List RouteAttestors) (s : State) (jobs : List DeliveryJob)
    : Type 0 where
  pub inv : RoutesInv x sets s.by_route
  pub quorate : AllQuorate x sets jobs

module _ (x : Crypto) (sets : List RouteAttestors) (now : ℕ) (s : State)
    (v : RoutesInv x sets s.by_route) where
  pub note_indexed_at-Step? :
      (m : IndexedMessage)
      → Step? x sets (note_indexed_at x m now s).0 (note_indexed_at x m now s).1
  unfolding note_indexed_at
  note_indexed_at-Step? m = record {
    inv = on_route-RoutesInv x sets m.chain_key none _ s v (λ r i.
        Sound?-Held x sets m.chain_key r _ _ i.1 (note_indexed-Sound x m.chain_key m now r i.0));
    quorate = on_route-result x sets m.chain_key none _ s (Quorate? x sets) v tt (λ r i.
        Sound?-Quorate x sets m.chain_key r _ _ i.1 (note_indexed-Keyed? x m.chain_key m now r)
          (note_indexed-Sound x m.chain_key m now r i.0));
  }

  pub note_vote_at-Step? :
      (vote : MessageVote)
      → Step? x sets (note_vote_at x vote now s).0 (note_vote_at x vote now s).1
  unfolding note_vote_at
  note_vote_at-Step? vote = record {
    inv =
        on_route-RoutesInv x sets vote.chain_key none _ s v
          (λ r i. Sound?-Held x sets vote.chain_key r _ _ i.1 (note_vote-Sound x vote now r i.0));
    quorate = on_route-result x sets vote.chain_key none _ s (Quorate? x sets) v tt (λ r i.
        Sound?-Quorate x sets vote.chain_key r _ _ i.1 (note_vote-Keyed? x vote now r)
          (note_vote-Sound x vote now r i.0));
  }

  pub note_delivery_result_at-Step? :
      (result : DeliveryResult) (unix : Option ℕ)
      → Step? x sets
          (note_delivery_result_at result now unix s).0
          (note_delivery_result_at result now unix s).1
  unfolding note_delivery_result_at
  note_delivery_result_at-Step? result unix = record {
    inv = on_route-RoutesInv x sets result.chain_key none _ s v (λ r i.
        Sound?-Held x sets result.chain_key r _ none i.1
          (note_delivery_result-Sound x result.message_id now r result.outcome unix i.0));
    quorate = on_route-result x sets result.chain_key none _ s (Quorate? x sets) v tt (λ r i. tt);
  }

  pub requeue_delivery_at-RoutesInv :
      (chain_key message_id : ℕ)
      → RoutesInv x sets (requeue_delivery_at chain_key message_id now s).by_route
  unfolding requeue_delivery_at
  requeue_delivery_at-RoutesInv chain_key message_id =
      on_route-RoutesInv {A = Unit {0}} x sets chain_key tt _ s v (λ r i.
        Sound?-Held x sets chain_key r _ none i.1 (requeue_delivery-Sound x message_id now r i.0))

  -- The new set is one of those configured.
  pub apply_attestor_set_at-Steps :
      (update : RouteAttestors)
      → Configured sets update.chain_key update.attestors update.threshold
      → Steps x sets
          (apply_attestor_set_at x update now s).0
          (apply_attestor_set_at x update now s).1
  unfolding apply_attestor_set_at
  apply_attestor_set_at-Steps update c = record {
    inv = on_route-RoutesInv x sets update.chain_key [] _ s v (λ r i.
        Sound-Held x sets update.chain_key
          (record r { attestors = update.attestors; threshold = update.threshold }) _ _ c
          (apply_attestor_set-Sound x update now r i.0));
    quorate = on_route-result x sets update.chain_key [] _ s (AllQuorate x sets) v tt (λ r i.
        Sound-AllQuorate x sets update.chain_key update.attestors update.threshold _ c
          (apply_attestor_set-Keyed x update now r)
          (apply_attestor_set-Sound x update now r i.0).jobs_good);
  }

module _ (x : Crypto) (sets : List RouteAttestors) where
  prune_routes-RoutesInv :
      (now ttl : ℕ) (m : Map RouteState)
      → RoutesInv x sets m
      → RoutesInv x sets (prune_routes now ttl m)
  unfolding prune_routes prune_expired
  prune_routes-RoutesInv now ttl [] v = tt
  prune_routes-RoutesInv now ttl ((k, r) ∷ m) v =
      ((prune_expired-RouteInv x now ttl r v.0.0, v.0.1), prune_routes-RoutesInv now ttl m v.1)

  stalled_routes-RoutesInv :
      (now : ℕ) (m : Map RouteState)
      → RoutesInv x sets m
      → RoutesInv x sets (stalled_routes now m).0
  unfolding stalled_routes collect_stalled_reobservations
  stalled_routes-RoutesInv now [] v = tt
  stalled_routes-RoutesInv now ((k, r) ∷ m) v =
      ((collect_stalled-RouteInv x k now r v.0.0, v.0.1), stalled_routes-RoutesInv now m v.1)

  each_route-Steps :
      (f : ℕ → RouteState → RouteState × List DeliveryJob) (m : Map RouteState)
      → ((k : ℕ) (r : RouteState)
          → RouteInv x r
          → Sound x r (f k r).0 (f k r).1 × Keyed k (f k r).1)
      → RoutesInv x sets m
      → RoutesInv x sets (each_route f m).0 × AllQuorate x sets (each_route f m).1
  unfolding each_route
  each_route-Steps f [] keep v = (tt, tt)
  each_route-Steps f ((k, r) ∷ m) keep v =
      let (first, keyed) = keep k r v.0.0 in
      let rest = each_route-Steps f m keep v.1 in
      (
        (Sound-Held x sets k r _ _ v.0.1 first, rest.0),
        AllQuorate-append x sets _ _
            (Sound-AllQuorate x sets k r.attestors r.threshold _ v.0.1 keyed first.jobs_good)
            rest.1,
      )

module _ (x : Crypto) (sets : List RouteAttestors) (now : ℕ) (s : State)
    (v : RoutesInv x sets s.by_route) where
  pub prune_expired_at-RoutesInv : RoutesInv x sets (prune_expired_at now s).by_route
  unfolding prune_expired_at
  prune_expired_at-RoutesInv = prune_routes-RoutesInv x sets now _ s.by_route v

  pub collect_stalled_at-RoutesInv : RoutesInv x sets (collect_stalled_at now s).0.by_route
  unfolding collect_stalled_at
  collect_stalled_at-RoutesInv = stalled_routes-RoutesInv x sets now s.by_route v

  pub collect_ready_at-Steps :
      Steps x sets (collect_ready_at x now s).0 (collect_ready_at x now s).1
  unfolding collect_ready_at
  collect_ready_at-Steps =
      let both =
        each_route-Steps x sets (λ k r. collect_ready_deliveries x k now r) s.by_route
          (λ k r i. (collect_ready_deliveries-Sound x now r k i, collect_ready-Keyed x k now r))
          v in
      record { inv = both.0; quorate = both.1 }

  pub refill_at-Steps :
      (pending : ℕ → List IndexedMessage)
      → Steps x sets (refill_at x pending now s).0 (refill_at x pending now s).1
  unfolding refill_at
  refill_at-Steps pending =
      let both =
        each_route-Steps x sets (λ k r. refill_route x k (pending k) now r) s.by_route
          (λ k r i.
            (refill_route-Sound x k (pending k) now r i, refill_route-Keyed x k (pending k) now r))
          v in
      record { inv = both.0; quorate = both.1 }

pub empty_route-RouteInv :
    (x : Crypto) (a : RouteAttestors) (cap : ℕ) → RouteInv x (empty_route a cap)
unfolding lookup
empty_route-RouteInv x a cap = record {
  slots = tt;
  early = tt;
  distinct = tt;
  bounded = omega arith;
  early_bounded = omega arith;
  ordered = λ h. refl;
}

pub Configured-append_left :
    (sets more : List RouteAttestors) (k : ℕ) (attestors : List ℕ) (threshold : ℕ)
    → Configured sets k attestors threshold
    → Configured (sets ++ more) k attestors threshold
Configured-append_left [] more k attestors threshold c = absurd c
Configured-append_left (set ∷ sets) more k attestors threshold (inl c) = inl c
Configured-append_left (set ∷ sets) more k attestors threshold (inr c) =
    inr (Configured-append_left sets more k attestors threshold c)

pub Configured-append_right :
    (sets more : List RouteAttestors) (k : ℕ) (attestors : List ℕ) (threshold : ℕ)
    → Configured more k attestors threshold
    → Configured (sets ++ more) k attestors threshold
Configured-append_right [] more k attestors threshold c = c
Configured-append_right (set ∷ sets) more k attestors threshold c =
    inr (Configured-append_right sets more k attestors threshold c)

collect_routes-RoutesInv :
    (x : Crypto) (cap : ℕ) (sets routes : List RouteAttestors) (m : Map RouteState)
    → ((k : ℕ) (attestors : List ℕ) (threshold : ℕ)
        → Configured routes k attestors threshold
        → Configured sets k attestors threshold)
    → RoutesInv x sets m
    → RoutesInv x sets (collect_routes cap routes m)
unfolding collect_routes
collect_routes-RoutesInv x cap sets [] m sub v = v
collect_routes-RoutesInv x cap sets (a ∷ routes) m sub v =
    collect_routes-RoutesInv x cap sets routes (insert a.chain_key (empty_route a cap) m)
      (λ k as' t c. sub k as' t (inr c))
      (AllEntries-insert (Held x sets) a.chain_key (empty_route a cap) m v (
        empty_route-RouteInv x a cap,
        sub a.chain_key a.attestors a.threshold (inl (refl, refl, refl)),
      ))

-- A new pool meets the invariant under any sets that include those of its routes.
pub new-RoutesInv :
    (x : Crypto) (routes more : List RouteAttestors) (cache : VoteCacheConfig)
    → RoutesInv x (routes ++ more) (new routes cache).by_route
unfolding new
new-RoutesInv x routes more cache =
    collect_routes-RoutesInv x cache.max_messages (routes ++ more) routes []
      (λ k as' t c. Configured-append_left routes more k as' t c) tt
