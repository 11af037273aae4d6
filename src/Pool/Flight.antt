-- ===== src/Pool/Flight.antt =====
-- How many deliveries of a message are under way, as the pool of message-relayer/src/pool/mod.rs
-- marks it (`in_flight`) and as jobs count it.
pub mod Operations
pub mod Upkeep
pub mod Single
use asc_message_relayer.Prelude.{
  ℕ, suc, ◌+◌, ◌≤◌, ◌≡◌, refl, sym, ◌∙◌, Bool, true, false, Option, none, some, List, [], ◌∷◌, ◌++◌,
  ◌==◌, if◌then◌else◌, arith, Bool-cases, Option-cases, inl, inr, ==_iff, ==_refl,
}
use asc_message_relayer.Prelude.Map.{lookup, insert, lookup-insert, AllEntries-lookup}
use asc_message_relayer.Types.{Crypto, DeliveryJob}
use asc_message_relayer.Pool.Slot.{
  MessageSlot, RouteState, resolved, dispatch_slot, dispatch_if_ready, dispatch_all, push_job,
  launch,
}
use asc_message_relayer.Pool.Slot.Dispatch.{
  dispatch_slot-cases, dispatch_if_ready_self, dispatch_if_ready-other, dispatch_if_ready-some,
  dispatch_if_ready-none, dispatch_if_ready-Sound,
}
use asc_message_relayer.Pool.Invariant.{SlotInv, RouteInv}

abbrev pub as_count : Bool → ℕ
as_count true = 1
as_count false = 0

abbrev pub flight_of : Option MessageSlot → ℕ
flight_of none = 0
flight_of (some s) = as_count s.in_flight

-- One if the message is marked, and none if not.
abbrev pub flight : ℕ → RouteState → ℕ
flight h r = flight_of (lookup h r.by_message)

abbrev pub jobs_for : ℕ → List DeliveryJob → ℕ
jobs_for h [] = 0
jobs_for h (job ∷ jobs) = as_count (job.message_id == h) + jobs_for h jobs

abbrev pub job_for : ℕ → Option DeliveryJob → ℕ
job_for h none = 0
job_for h (some job) = as_count (job.message_id == h)

pub jobs_for-push_job :
    (h : ℕ) (o : Option DeliveryJob) (jobs : List DeliveryJob)
    → jobs_for h (push_job o jobs) ≡ job_for h o + jobs_for h jobs
jobs_for-push_job h none jobs = omega arith
jobs_for-push_job h (some job) jobs = refl

-- An operation marks exactly what it dispatches.
abbrev pub Marks : RouteState → RouteState → Option DeliveryJob → Type 0
Marks r r' job = (h : ℕ) → job_for h job + flight h r ≡ flight h r'

abbrev pub MarksAll : RouteState → RouteState → List DeliveryJob → Type 0
MarksAll r r' jobs = (h : ℕ) → jobs_for h jobs + flight h r ≡ flight h r'

pub MarksAll-push :
    (r r' r'' : RouteState) (job : Option DeliveryJob) (jobs : List DeliveryJob)
    → Marks r r' job
    → MarksAll r' r'' jobs
    → MarksAll r r'' (push_job job jobs)
MarksAll-push r r' r'' job jobs a b h = omega (arith, jobs_for-push_job h job jobs, a h, b h)

module _ (x : Crypto) (chain_key threshold now : ℕ) (allow_probe : Bool) (attestors : List ℕ)
    (hash : ℕ) (s : MessageSlot) (v : SlotInv x attestors hash s) where
  dispatch_slot-Marks :
      job_for hash (dispatch_slot x chain_key threshold now allow_probe s).1 + as_count s.in_flight
      ≡ as_count (dispatch_slot x chain_key threshold now allow_probe s).0.in_flight
  dispatch_slot-Marks = elim (dispatch_slot-cases x chain_key threshold now allow_probe s) [
    | inl e ↦ rw e (omega arith)
    | inr l ↦ rw l.result (rw (l.idle, v.keyed) (rw (==_refl hash)))
  ]

  -- No other message is counted.
  dispatch_slot-elsewhere :
      (h : ℕ)
      → (hash == h) ≡ false
      → job_for h (dispatch_slot x chain_key threshold now allow_probe s).1 ≡ 0
  dispatch_slot-elsewhere h ne =
      elim (dispatch_slot-cases x chain_key threshold now allow_probe s) [
        | inl e ↦ rw e
        | inr l ↦ rw l.result (rw v.keyed (rw ne))
      ]

module _ (x : Crypto) (chain_key hash now : ℕ) (allow_probe : Bool) (r : RouteState)
    (v : RouteInv x r) where
  found-Marks :
      (s : MessageSlot)
      → lookup hash r.by_message ≡ some s
      → Marks r
          (dispatch_if_ready x chain_key hash now allow_probe r).0
          (dispatch_if_ready x chain_key hash now allow_probe r).1
  found-Marks s p h =
      let i = AllEntries-lookup (SlotInv x r.attestors) hash r.by_message v.slots p in
      rw (dispatch_if_ready-some x chain_key hash now allow_probe r s p)
        (elim (Bool-cases (hash == h)) [
          | inl e ↦
              let same = (==_iff hash h).0 e in
              rw (← same, p, dispatch_if_ready_self x chain_key hash now allow_probe r s p)
                (dispatch_slot-Marks x chain_key r.threshold now allow_probe r.attestors hash s i)
          | inr e ↦
              rw
                (
                  dispatch_if_ready-other x chain_key hash now allow_probe r h e,
                  dispatch_slot-elsewhere x chain_key r.threshold now allow_probe r.attestors hash s
                      i h e,
                )
                (omega arith)
        ])

  pub dispatch_if_ready-Marks :
      Marks r
        (dispatch_if_ready x chain_key hash now allow_probe r).0
        (dispatch_if_ready x chain_key hash now allow_probe r).1
  dispatch_if_ready-Marks h = elim (Option-cases (lookup hash r.by_message)) [
    | inl n ↦ rw (dispatch_if_ready-none x chain_key hash now allow_probe r n) (omega arith)
    | inr (s, p) ↦ found-Marks s p h
  ]

pub dispatch_all-Marks :
    (x : Crypto) (chain_key now : ℕ) (allow_probe : Bool) (hashes : List ℕ) (r : RouteState)
    → RouteInv x r
    → MarksAll r
        (dispatch_all x chain_key now allow_probe hashes r).0
        (dispatch_all x chain_key now allow_probe hashes r).1
unfolding dispatch_all
dispatch_all-Marks x chain_key now allow_probe [] r v h = omega arith
dispatch_all-Marks x chain_key now allow_probe (hash ∷ hashes) r v h =
    MarksAll-push r (dispatch_if_ready x chain_key hash now allow_probe r).0
      (dispatch_all x chain_key now allow_probe hashes
        (dispatch_if_ready x chain_key hash now allow_probe r).0).0
      _ _ (dispatch_if_ready-Marks x chain_key hash now allow_probe r v)
      (dispatch_all-Marks x chain_key now allow_probe hashes _
        (dispatch_if_ready-Sound x chain_key hash now allow_probe r v).inv)
      h
