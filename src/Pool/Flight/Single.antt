-- ===== src/Pool/Flight/Single.antt =====
-- One delivery at a time: a route of message-relayer/src/pool/mod.rs together with the jobs that it
-- has handed out and that no worker has reported on yet.
use asc_message_relayer.Prelude.{
  ℕ, ◌+◌, ◌≤◌, ◌≡◌, refl, Option, List, [], ◌∷◌, ◌++◌, arith, Bool-cases, Option-cases, inl, inr,
}
use asc_message_relayer.Prelude.Map.{lookup}
use asc_message_relayer.Types.{
  Crypto, IndexedMessage, MessageVote, DeliveryJob, DeliveryResultKind, RouteAttestors,
}
use asc_message_relayer.Pool.Slot.{RouteState, push_job}
use asc_message_relayer.Pool.Invariant.{RouteInv}
use asc_message_relayer.Pool.Admission.{note_indexed}
use asc_message_relayer.Pool.Admission.Index.{note_indexed-Sound}
use asc_message_relayer.Pool.Admission.Marks.{note_indexed-Marks}
use asc_message_relayer.Pool.Voting.{note_vote}
use asc_message_relayer.Pool.Voting.Sound.{note_vote-Sound}
use asc_message_relayer.Pool.Results.{
  note_delivery_result, requeue_delivery, collect_ready_deliveries,
}
use asc_message_relayer.Pool.Results.Sound.{
  note_delivery_result-Sound, requeue_delivery-Sound, collect_ready_deliveries-Sound,
}
use asc_message_relayer.Pool.Upkeep.{
  prune_expired, apply_attestor_set, collect_stalled_reobservations, refill_route,
}
use asc_message_relayer.Pool.Upkeep.Sound.{
  prune_expired-RouteInv, apply_attestor_set-Sound, collect_stalled-RouteInv,
}
use asc_message_relayer.Pool.Upkeep.Rotation.{refill_route-Sound}
use asc_message_relayer.Pool.State.{empty_route}
use asc_message_relayer.Pool.State.Invariant.{empty_route-RouteInv}
use asc_message_relayer.Pool.Flight.{flight, jobs_for, jobs_for-push_job, Marks, MarksAll}
use asc_message_relayer.Pool.Flight.Operations.{
  note_vote-Marks, apply_attestor_set-Marks, collect_stalled-Marks, collect_ready-Marks,
  prune_expired-Marks,
}
use asc_message_relayer.Pool.Flight.Upkeep.{
  Clears, note_delivery_result-Clears, requeue_delivery-Clears, refill_route-Marks,
}

-- The states that a route reaches from its start, with the jobs that are outstanding. A report and a
-- requeue end one of those.
pub data Reaches (x : Crypto) (a : RouteAttestors) (limit : ℕ)
    : RouteState → List DeliveryJob → Type 0 where
  starts : Reaches x a limit (empty_route a limit) []
  indexes :
      (m : IndexedMessage) (now : ℕ) {r : RouteState} {jobs : List DeliveryJob}
      → Reaches x a limit r jobs
      → Reaches x a limit
          (note_indexed x a.chain_key m now r).0
          (push_job (note_indexed x a.chain_key m now r).1 jobs)
  votes :
      (vote : MessageVote) (now : ℕ) {r : RouteState} {jobs : List DeliveryJob}
      → Reaches x a limit r jobs
      → Reaches x a limit (note_vote x vote now r).0 (push_job (note_vote x vote now r).1 jobs)
  collects :
      (now : ℕ) {r : RouteState} {jobs : List DeliveryJob}
      → Reaches x a limit r jobs
      → Reaches x a limit
          (collect_ready_deliveries x a.chain_key now r).0
          ((collect_ready_deliveries x a.chain_key now r).1 ++ jobs)
  refills :
      (pending : List IndexedMessage) (now : ℕ) {r : RouteState} {jobs : List DeliveryJob}
      → Reaches x a limit r jobs
      → Reaches x a limit
          (refill_route x a.chain_key pending now r).0
          ((refill_route x a.chain_key pending now r).1 ++ jobs)
  reconfigures :
      (update : RouteAttestors) (now : ℕ) {r : RouteState} {jobs : List DeliveryJob}
      → Reaches x a limit r jobs
      → Reaches x a limit
          (apply_attestor_set x update now r).0
          ((apply_attestor_set x update now r).1 ++ jobs)
  reobserves :
      (now : ℕ) {r : RouteState} {jobs : List DeliveryJob}
      → Reaches x a limit r jobs
      → Reaches x a limit (collect_stalled_reobservations a.chain_key now r).0 jobs
  prunes :
      (now ttl : ℕ) {r : RouteState} {jobs : List DeliveryJob}
      → Reaches x a limit r jobs
      → Reaches x a limit (prune_expired now ttl r) jobs
  reports :
      (before : List DeliveryJob) (job : DeliveryJob) (after : List DeliveryJob)
      (outcome : DeliveryResultKind) (now : ℕ) (unix : Option ℕ) {r : RouteState}
      → Reaches x a limit r (before ++ job ∷ after)
      → Reaches x a limit (note_delivery_result job.message_id outcome now unix r) (before ++ after)
  requeues :
      (before : List DeliveryJob) (job : DeliveryJob) (after : List DeliveryJob) (now : ℕ)
      {r : RouteState}
      → Reaches x a limit r (before ++ job ∷ after)
      → Reaches x a limit (requeue_delivery job.message_id now r) (before ++ after)

-- The marks of a route are the jobs that are outstanding.
record Matches (x : Crypto) (r : RouteState) (jobs : List DeliveryJob) : Type 0 where
  inv : RouteInv x r
  counted : (h : ℕ) → jobs_for h jobs ≡ flight h r

jobs_for-++ :
    (h : ℕ) (js ks : List DeliveryJob) → jobs_for h (js ++ ks) ≡ jobs_for h js + jobs_for h ks
jobs_for-++ h [] ks = omega arith
jobs_for-++ h (j ∷ js) ks = omega (arith, jobs_for-++ h js ks)

flight_of-le : (h : ℕ) (r : RouteState) → flight h r ≤ 1
flight_of-le h r = elim (Option-cases (lookup h r.by_message)) [
  | inl n ↦ rw n (omega arith)
  | inr (s, p) ↦
      rw p
        (elim (Bool-cases s.in_flight) [ inl e ↦ rw e (omega arith) | inr e ↦ rw e (omega arith) ])
]

module _ (x : Crypto) (r r' : RouteState) (jobs : List DeliveryJob) (m : Matches x r jobs)
    (v : RouteInv x r') where
  opened : (job : Option DeliveryJob) → Marks r r' job → Matches x r' (push_job job jobs)
  opened job marks = record {
    inv = v;
    counted = λ h. omega (arith, jobs_for-push_job h job jobs, marks h, m.counted h);
  }

  opened_all : (more : List DeliveryJob) → MarksAll r r' more → Matches x r' (more ++ jobs)
  opened_all more marks = record {
    inv = v;
    counted = λ h. omega (arith, jobs_for-++ h more jobs, marks h, m.counted h);
  }

  kept : ((h : ℕ) → flight h r' ≡ flight h r) → Matches x r' jobs
  kept same = record { inv = v; counted = λ h. omega (arith, same h, m.counted h) }

-- An outstanding job is the only one of its message, so the mark that its end clears was its own.
closed :
    (x : Crypto) (r r' : RouteState) (before : List DeliveryJob) (job : DeliveryJob)
    (after : List DeliveryJob)
    → Matches x r (before ++ job ∷ after)
    → RouteInv x r'
    → Clears job.message_id r r'
    → Matches x r' (before ++ after)
closed x r r' before job after m v clears = record {
  inv = v;
  counted = λ h.
      let all = jobs_for-++ h before (job ∷ after) in
      let rest = jobs_for-++ h before after in
      let bound = flight_of-le h r in ground (arith, clears h, m.counted h, all, rest, bound);
}

starts-Matches :
    (x : Crypto) (a : RouteAttestors) (max_messages : ℕ) → Matches x (empty_route a max_messages) []
unfolding lookup
starts-Matches x a max_messages = record {
  inv = empty_route-RouteInv x a max_messages;
  counted = λ h. refl;
}

Reaches-Matches :
    (x : Crypto) (a : RouteAttestors) (limit : ℕ) {r : RouteState} {jobs : List DeliveryJob}
    → Reaches x a limit r jobs
    → Matches x r jobs
Reaches-Matches x a limit starts = starts-Matches x a limit
Reaches-Matches x a limit (indexes m now {r} {jobs} p) =
    let i = Reaches-Matches x a limit p in
    opened x r _ jobs i (note_indexed-Sound x a.chain_key m now r i.inv).inv _
      (note_indexed-Marks x a.chain_key m now r i.inv)
Reaches-Matches x a limit (votes vote now {r} {jobs} p) =
    let i = Reaches-Matches x a limit p in
    opened x r _ jobs i (note_vote-Sound x vote now r i.inv).inv _
      (note_vote-Marks x vote now r i.inv)
Reaches-Matches x a limit (collects now {r} {jobs} p) =
    let i = Reaches-Matches x a limit p in
    opened_all x r _ jobs i (collect_ready_deliveries-Sound x now r a.chain_key i.inv).inv _
      (collect_ready-Marks x r i.inv a.chain_key now)
Reaches-Matches x a limit (refills pending now {r} {jobs} p) =
    let i = Reaches-Matches x a limit p in
    opened_all x r _ jobs i (refill_route-Sound x a.chain_key pending now r i.inv).inv _
      (refill_route-Marks x a.chain_key pending now r i.inv)
Reaches-Matches x a limit (reconfigures update now {r} {jobs} p) =
    let i = Reaches-Matches x a limit p in
    opened_all x r _ jobs i (apply_attestor_set-Sound x update now r i.inv).inv _
      (apply_attestor_set-Marks x r i.inv update now)
Reaches-Matches x a limit (reobserves now {r} {jobs} p) =
    let i = Reaches-Matches x a limit p in
    kept x r _ jobs i (collect_stalled-RouteInv x a.chain_key now r i.inv)
      (collect_stalled-Marks x r i.inv a.chain_key now)
Reaches-Matches x a limit (prunes now ttl {r} {jobs} p) =
    let i = Reaches-Matches x a limit p in
    kept x r _ jobs i (prune_expired-RouteInv x now ttl r i.inv)
      (prune_expired-Marks x r i.inv now ttl)
Reaches-Matches x a limit (reports before job after outcome now unix {r} p) =
    let i = Reaches-Matches x a limit p in
    closed x r _ before job after i
      (note_delivery_result-Sound x job.message_id now r outcome unix i.inv).inv
      (note_delivery_result-Clears job.message_id outcome now unix r)
Reaches-Matches x a limit (requeues before job after now {r} p) =
    let i = Reaches-Matches x a limit p in
    closed x r _ before job after i (requeue_delivery-Sound x job.message_id now r i.inv).inv
      (requeue_delivery-Clears job.message_id now r)

-- In every state that a route reaches, as long as workers report only on jobs that they were given
-- and once each, at most one job is outstanding for a message, and exactly when its slot is marked
-- as in flight.
pub single_flight :
    (x : Crypto) (a : RouteAttestors) (limit : ℕ) (r : RouteState) (jobs : List DeliveryJob)
    → Reaches x a limit r jobs
    → (h : ℕ) → (jobs_for h jobs ≤ 1) × (jobs_for h jobs ≡ flight h r)
single_flight x a limit r jobs p h =
    let m = Reaches-Matches x a limit p in
    (omega (arith, m.counted h, flight_of-le h r), m.counted h)
