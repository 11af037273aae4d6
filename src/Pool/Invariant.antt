-- ===== src/Pool/Invariant.antt =====
-- What holds of a route's pool between two operations (message-relayer/src/pool/mod.rs).
use mathlib.Core.Path.{subst₂}
use asc_message_relayer.Prelude.{
  ℕ, ◌<◌, ◌≤◌, ◌≡◌, refl, true, false, Option, none, some, List, [], ◌∷◌, length, contains, arith,
  sym, ◌∙◌, ◌⊎◌,
}
use asc_message_relayer.Prelude.Map.{
  Map, lookup, insert, values, contains_key, AllEntries, lookup-insert, length-insert_old,
  AllEntries-insert, Distinct, Distinct-insert,
}
use asc_message_relayer.Prelude.Sorted.{IsSorted}
use asc_message_relayer.Types.{Bytes, Crypto, DeliveryJob}
use asc_message_relayer.Pool.Signature.{recover_signer}
use asc_message_relayer.Pool.Slot.{EarlyVotes, MessageSlot, RouteState, resolved, push_job}

-- The signature recovers, in canonical form, to the address it is filed under.
abbrev pub Signed : Crypto → ℕ → ℕ → Bytes → Type 0
Signed x hash a sig = recover_signer x hash sig ≡ some a

abbrev pub Member : List ℕ → ℕ → Bytes → Type 0
Member attestors a sig = contains attestors a ≡ true

pub record SlotInv (x : Crypto) (attestors : List ℕ) (hash : ℕ) (s : MessageSlot) : Type 0 where
  pub keyed : s.indexed.message_id ≡ hash
  pub verified : AllEntries (Signed x hash) s.signers
  pub sorted : IsSorted s.signers
  pub members : resolved s ≡ false → AllEntries (Member attestors) s.signers
  pub idle : resolved s ≡ true → s.in_flight ≡ false

pub record EarlyInv (x : Crypto) (hash : ℕ) (e : EarlyVotes) : Type 0 where
  pub verified : AllEntries (Signed x hash) e.signers
  pub sorted : IsSorted e.signers

pub record RouteInv (x : Crypto) (r : RouteState) : Type 0 where
  pub slots : AllEntries (SlotInv x r.attestors) r.by_message
  pub early : AllEntries (EarlyInv x) r.early_votes
  pub distinct : Distinct r.by_message
  pub bounded : length r.by_message ≤ r.cache_max
  pub early_bounded : length r.early_votes ≤ r.cache_max
  pub ordered : (h : ℕ) → contains r.order h ≡ contains_key h r.by_message

-- The signatures of a job that asks for a delivery: a quorum of present attestors, each once, each
-- signature recovering to its attestor, encoded in the order of the addresses.
pub record QuorumOf (x : Crypto) (attestors : List ℕ) (threshold : ℕ) (job : DeliveryJob)
    : Type 0 where
  pub signers : Map Bytes
  pub sorted : IsSorted signers
  pub verified : AllEntries (Signed x job.message_id) signers
  pub members : AllEntries (Member attestors) signers
  pub positive : 0 < threshold
  pub enough : threshold ≤ job.signer_count
  pub counted : job.signer_count ≡ length signers
  pub encoded : job.votes_calldata ≡ x.abi_encode (values signers)

-- A job only asks what became of the message, or carries a quorum.
abbrev pub GoodJob : Crypto → List ℕ → ℕ → DeliveryJob → Type 0
GoodJob x attestors threshold job = (job.reconcile_only ≡ true) ⊎ QuorumOf x attestors threshold job

abbrev pub GoodJob? : Crypto → List ℕ → ℕ → Option DeliveryJob → Type 0
GoodJob? x attestors threshold none = Unit {0}
GoodJob? x attestors threshold (some job) = GoodJob x attestors threshold job

abbrev pub GoodJobs : Crypto → List ℕ → ℕ → List DeliveryJob → Type 0
GoodJobs x attestors threshold [] = Unit {0}
GoodJobs x attestors threshold (job ∷ jobs) =
    GoodJob x attestors threshold job × GoodJobs x attestors threshold jobs

-- An operation that keeps the invariant and the configuration, and whose jobs are good.
pub record Sound (x : Crypto) (r r' : RouteState) (jobs : List DeliveryJob) : Type 0 where
  pub inv : RouteInv x r'
  pub attestors : r'.attestors ≡ r.attestors
  pub threshold : r'.threshold ≡ r.threshold
  pub jobs_good : GoodJobs x r.attestors r.threshold jobs

pub record Sound? (x : Crypto) (r r' : RouteState) (job : Option DeliveryJob) : Type 0 where
  pub inv : RouteInv x r'
  pub attestors : r'.attestors ≡ r.attestors
  pub threshold : r'.threshold ≡ r.threshold
  pub job_good : GoodJob? x r.attestors r.threshold job

pub Sound-none : (x : Crypto) (r : RouteState) → RouteInv x r → Sound x r r []
Sound-none x r v = record { inv = v; attestors = refl; threshold = refl; jobs_good = tt }

pub Sound?-none : (x : Crypto) (r : RouteState) → RouteInv x r → Sound? x r r none
Sound?-none x r v = record { inv = v; attestors = refl; threshold = refl; job_good = tt }

-- The start may be any state with the same configuration.
pub Sound?-from :
    (x : Crypto) (q r r' : RouteState) (job : Option DeliveryJob)
    → q.attestors ≡ r.attestors
    → q.threshold ≡ r.threshold
    → Sound? x q r' job
    → Sound? x r r' job
Sound?-from x q r r' job a t s = record {
  inv = s.inv;
  attestors = s.attestors ∙ a;
  threshold = s.threshold ∙ t;
  job_good = subst₂ (λ m k. GoodJob? x m k job) a t s.job_good;
}

pub Sound-from :
    (x : Crypto) (q r r' : RouteState) (jobs : List DeliveryJob)
    → q.attestors ≡ r.attestors
    → q.threshold ≡ r.threshold
    → Sound x q r' jobs
    → Sound x r r' jobs
Sound-from x q r r' jobs a t s = record {
  inv = s.inv;
  attestors = s.attestors ∙ a;
  threshold = s.threshold ∙ t;
  jobs_good = subst₂ (λ m k. GoodJobs x m k jobs) a t s.jobs_good;
}

push_job-GoodJobs :
    (x : Crypto) (attestors : List ℕ) (threshold : ℕ) (job : Option DeliveryJob)
    (jobs : List DeliveryJob)
    → GoodJob? x attestors threshold job
    → GoodJobs x attestors threshold jobs
    → GoodJobs x attestors threshold (push_job job jobs)
push_job-GoodJobs x attestors threshold none jobs g gs = gs
push_job-GoodJobs x attestors threshold (some job) jobs g gs = (g, gs)

pub Sound-push :
    (x : Crypto) (r r' r'' : RouteState) (job : Option DeliveryJob) (jobs : List DeliveryJob)
    → Sound? x r r' job
    → Sound x r' r'' jobs
    → Sound x r r'' (push_job job jobs)
Sound-push x r r' r'' job jobs a b = record {
  inv = b.inv;
  attestors = b.attestors ∙ a.attestors;
  threshold = b.threshold ∙ a.threshold;
  jobs_good =
      push_job-GoodJobs x r.attestors r.threshold job jobs a.job_good
        (subst₂ (λ m t. GoodJobs x m t jobs) a.attestors a.threshold b.jobs_good);
}

-- Writing back a slot that was looked up keeps the invariant, if the new slot meets its own.
module _ (r : RouteState) (hash : ℕ) (s s' : MessageSlot) where
  pub contains_key-insert_old :
      (h : ℕ)
      → lookup hash r.by_message ≡ some s
      → contains_key h (insert hash s' r.by_message) ≡ contains_key h r.by_message
  contains_key-insert_old h e = ground (arith, lookup-insert hash h s' r.by_message)

module _ (x : Crypto) (r : RouteState) (hash : ℕ) (s s' : MessageSlot) where
  pub insert-RouteInv :
      lookup hash r.by_message ≡ some s
      → RouteInv x r
      → SlotInv x r.attestors hash s'
      → RouteInv x (record r { by_message = insert hash s' r.by_message })
  insert-RouteInv e v i = record {
    slots = AllEntries-insert (SlotInv x r.attestors) hash s' r.by_message v.slots i;
    early = v.early;
    distinct = Distinct-insert hash s' r.by_message v.distinct;
    bounded = omega (arith, length-insert_old hash s' r.by_message e, v.bounded);
    early_bounded = v.early_bounded;
    ordered = λ h. v.ordered h ∙ sym (contains_key-insert_old r hash s s' h e);
  }
