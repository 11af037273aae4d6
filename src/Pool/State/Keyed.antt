-- ===== src/Pool/State/Keyed.antt =====
-- Each operation on a route of message-relayer/src/pool/mod.rs dispatches jobs for the chain key of
-- that route.
use asc_message_relayer.Prelude.{
  ℕ, ◌≡◌, refl, Bool, Option, none, some, List, [], ◌∷◌, ◌&&◌, ◌==◌, Option-cases, inl, inr, All,
  if_both,
}
use asc_message_relayer.Prelude.Map.{lookup, contains_key, keys}
use asc_message_relayer.Types.{Crypto, IndexedMessage, MessageVote, DeliveryJob, RouteAttestors}
use asc_message_relayer.Pool.Slot.{
  MessageSlot, RouteState, dispatch_slot, dispatch_if_ready, dispatch_all, push_job,
}
use asc_message_relayer.Pool.Slot.Dispatch.{dispatch_slot-cases}
use asc_message_relayer.Pool.Admission.{admit, make_room, note_indexed}
use asc_message_relayer.Pool.Voting.{note_vote}
use asc_message_relayer.Pool.Voting.Sound.{
  noted, early, late, refused, counted_vote, counts, again, waits, dispatches,
}
use asc_message_relayer.Pool.Results.{collect_ready_deliveries}
use asc_message_relayer.Pool.Upkeep.{same_addresses, apply_attestor_set, index_all, refill_route}

abbrev pub Keyed? : ℕ → Option DeliveryJob → Type 0
Keyed? chain_key none = Unit {0}
Keyed? chain_key (some job) = job.chain_key ≡ chain_key

abbrev pub Keyed : ℕ → List DeliveryJob → Type 0
Keyed chain_key jobs = All (λ job. job.chain_key ≡ chain_key) jobs

push_job-Keyed :
    (chain_key : ℕ) (job : Option DeliveryJob) (jobs : List DeliveryJob)
    → Keyed? chain_key job
    → Keyed chain_key jobs
    → Keyed chain_key (push_job job jobs)
push_job-Keyed chain_key none jobs k ks = ks
push_job-Keyed chain_key (some job) jobs k ks = (k, ks)

module _ (x : Crypto) (chain_key : ℕ) where
  dispatch_slot-Keyed? :
      (threshold now : ℕ) (allow_probe : Bool) (s : MessageSlot)
      → Keyed? chain_key (dispatch_slot x chain_key threshold now allow_probe s).1
  dispatch_slot-Keyed? threshold now allow_probe s =
      elim (dispatch_slot-cases x chain_key threshold now allow_probe s) [
        | inl e ↦ rw e tt
        | inr l ↦ rw l.result refl
      ]

  dispatch_if_ready-Keyed? :
      (hash now : ℕ) (allow_probe : Bool) (r : RouteState)
      → Keyed? chain_key (dispatch_if_ready x chain_key hash now allow_probe r).1
  unfolding dispatch_if_ready
  dispatch_if_ready-Keyed? hash now allow_probe r = elim (Option-cases (lookup hash r.by_message)) [
    | inl n ↦ rw (n, dispatch_if_ready) tt
    | inr (s, e) ↦ rw (e, dispatch_if_ready) (dispatch_slot-Keyed? r.threshold now allow_probe s)
  ]

  pub dispatch_all-Keyed :
      (now : ℕ) (allow_probe : Bool) (hashes : List ℕ) (r : RouteState)
      → Keyed chain_key (dispatch_all x chain_key now allow_probe hashes r).1
  unfolding dispatch_all
  dispatch_all-Keyed now allow_probe [] r = tt
  dispatch_all-Keyed now allow_probe (hash ∷ hashes) r =
      push_job-Keyed chain_key _ _ (dispatch_if_ready-Keyed? hash now allow_probe r)
        (dispatch_all-Keyed now allow_probe hashes _)

  admit-Keyed? :
      (m : IndexedMessage) (now : ℕ) (r : RouteState)
      → Keyed? chain_key (admit x chain_key m now r).1
  unfolding admit
  admit-Keyed? m now r = elim (Option-cases (lookup m.message_id r.early_votes)) [
    | inl n ↦ rw (n, admit) tt
    | inr (e, p) ↦ rw (p, admit) (dispatch_if_ready-Keyed? m.message_id now _ _)
  ]

  pub note_indexed-Keyed? :
      (m : IndexedMessage) (now : ℕ) (r : RouteState)
      → Keyed? chain_key (note_indexed x chain_key m now r).1
  unfolding note_indexed
  note_indexed-Keyed? m now r =
      if_both {A = RouteState × Option DeliveryJob} (λ p. Keyed? chain_key p.1)
        (contains_key m.message_id r.by_message) _ _ tt
        (if_both {A = RouteState × Option DeliveryJob} (λ p. Keyed? chain_key p.1) (make_room r).1 _
          _ (admit-Keyed? m now (make_room r).0) tt)

  index_all-Keyed :
      (ms : List IndexedMessage) (now : ℕ) (r : RouteState)
      → Keyed chain_key (index_all x chain_key ms now r).1
  unfolding index_all
  index_all-Keyed [] now r = tt
  index_all-Keyed (m ∷ ms) now r =
      push_job-Keyed chain_key _ _ (note_indexed-Keyed? m now r) (index_all-Keyed ms now _)

  pub refill_route-Keyed :
      (pending : List IndexedMessage) (now : ℕ) (r : RouteState)
      → Keyed chain_key (refill_route x chain_key pending now r).1
  unfolding refill_route
  refill_route-Keyed pending now r = index_all-Keyed pending now _

  pub collect_ready-Keyed :
      (now : ℕ) (r : RouteState) → Keyed chain_key (collect_ready_deliveries x chain_key now r).1
  unfolding collect_ready_deliveries
  collect_ready-Keyed now r = dispatch_all-Keyed now _ (keys r.by_message) r

pub note_vote-Keyed? :
    (x : Crypto) (vote : MessageVote) (now : ℕ) (r : RouteState)
    → Keyed? vote.chain_key (note_vote x vote now r).1
note_vote-Keyed? x vote now r = elim (noted x vote now r) [
  | early n e ↦ rw e tt
  | late s p d e ↦ rw e tt
  | refused s p d n e ↦ rw e tt
  | counted_vote s a p d c e ↦ rw e (elim (counts x vote a s now r) [
    | again k q ↦ rw q tt
    | waits k q ↦ rw q tt
    | dispatches k q ↦ rw q (dispatch_if_ready-Keyed? x vote.chain_key vote.message_id now _ _)
  ])
]

pub apply_attestor_set-Keyed :
    (x : Crypto) (update : RouteAttestors) (now : ℕ) (r : RouteState)
    → Keyed update.chain_key (apply_attestor_set x update now r).1
unfolding apply_attestor_set
apply_attestor_set-Keyed x update now r =
    if_both {A = RouteState × List DeliveryJob} (λ p. Keyed update.chain_key p.1)
      (same_addresses r.attestors update.attestors && r.threshold == update.threshold) _ _ tt
      (dispatch_all-Keyed x update.chain_key now _ _ _)
