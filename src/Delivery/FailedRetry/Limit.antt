-- ===== src/Delivery/FailedRetry/Limit.antt =====
-- The budget over a run of the worker, in one process and across restarts
-- (message-relayer/src/delivery/failed_retry.rs).
use asc_message_relayer.Prelude.{
  ℕ, ◌+◌, ◌-◌, ◌≤◌, ◌≡◌, refl, Bool, true, false, ◌&&◌, not, Option, some, List, [], ◌∷◌, ◌==◌, max,
  if◌then◌else◌, leb, arith, Bool-cases, Option-cases, inl, inr, ==_iff, u32_max,
}
use asc_message_relayer.Prelude.Map.{Map, lookup}
use asc_message_relayer.Delivery.FailedRetry.{
  FailedRetryState, FailedRetryPolicy, FailedRetries, Answers, Event, observed, retried, restarted,
  proceed, get, or_default, gate, retry_failed, on_event, concerns, transactions,
}
use asc_message_relayer.Delivery.FailedRetry.View.{disk_entry}
use asc_message_relayer.Delivery.FailedRetry.Budget.{
  attempts_of, spent, Ahead, Spends, Spends-same, observe-Spends,
}
use asc_message_relayer.Delivery.FailedRetry.Passing.{
  Gate-cases, judge-proceed, retry_failed-Spends,
}
use asc_message_relayer.Delivery.FailedRetry.Keeps.{observe-SameView, retry_failed-SameView}
use asc_message_relayer.Delivery.FailedRetry.Durable.{is_restart, stores, Durable, event-Durable}

-- Without a budget, the gate never opens.
gate-budget :
    (readable : Bool) (id : ℕ) (policy : FailedRetryPolicy) (now : ℕ) (r : FailedRetries)
    → (gate readable id policy now r).1 ≡ proceed
    → 1 ≤ policy.max_attempts
unfolding gate
gate-budget readable id policy now r e = elim (Option-cases (get readable id r).1) [
  | inl n ↦ let bad = rw (n, gate) at e in absurd (cc)
  | inr (o, p) ↦
      let passed = rw (p, gate) at e in
      omega (arith, judge-proceed policy now (or_default o) passed)
]

retry_failed-none :
    (id : ℕ) (policy : FailedRetryPolicy) (io : Answers) (broadcast failed_again : Bool)
    (r : FailedRetries)
    → policy.max_attempts ≡ 0
    → (retry_failed io policy id broadcast failed_again r).1 ≡ 0
unfolding retry_failed
retry_failed-none id policy io broadcast failed_again r zero_budget =
    elim (Gate-cases (gate io.readable id policy io.now r).1) [
      | inl e ↦ absurd (omega (arith, gate-budget io.readable id policy io.now r e, zero_budget))
      | inr (inl (t, e)) ↦ rw (e, retry_failed)
      | inr (inr (t, e)) ↦ rw (e, retry_failed)
    ]

-- The transactions of one event that count for a message.
abbrev counted : ℕ → Event → ℕ → ℕ
counted id e n = if concerns id e then n else 0

transactions-step :
    (policy : FailedRetryPolicy) (id : ℕ) (e : Event) (es : List Event) (r : FailedRetries)
    → transactions policy id (e ∷ es) r
      ≡ counted id e (on_event policy e r).1 + transactions policy id es (on_event policy e r).0
unfolding transactions
transactions-step policy id e es r = ground arith

no_budget :
    (policy : FailedRetryPolicy) (id : ℕ) (es : List Event) (r : FailedRetries)
    → policy.max_attempts ≡ 0
    → transactions policy id es r ≡ 0
unfolding transactions on_event
no_budget policy id [] r z = refl
no_budget policy id (observed j io ∷ es) r z =
    ground (arith, no_budget policy id es (on_event policy (observed j io) r).0 z)
no_budget policy id (retried j io broadcast failed_again ∷ es) r z = ground (
  arith,
  no_budget policy id es (on_event policy (retried j io broadcast failed_again) r).0 z,
  retry_failed-none j policy io broadcast failed_again r z,
)
no_budget policy id (restarted ∷ es) r z =
    ground (arith, no_budget policy id es (on_event policy restarted r).0 z)

module _ (policy : FailedRetryPolicy) (id : ℕ) (budget : 1 ≤ policy.max_attempts)
    (word : policy.max_attempts ≤ u32_max) where
  event-Spends :
      (e : Event) (r : FailedRetries)
      → is_restart e ≡ false
      → Ahead id r
      → Spends id policy.max_attempts r
          (on_event policy e r).0
          (counted id e (on_event policy e r).1)
  unfolding on_event
  event-Spends (observed j io) r n a = elim (Bool-cases (j == id)) [
    | inl e ↦
        let eq = (==_iff j id).0 e in
        rw e (rw eq (observe-Spends id policy r a policy.max_attempts io budget))
    | inr e ↦ rw e (Spends-same id policy.max_attempts r _ (observe-SameView j id e policy io r) a)
  ]
  event-Spends (retried j io broadcast failed_again) r n a = elim (Bool-cases (j == id)) [
    | inl e ↦
        let eq = (==_iff j id).0 e in
        rw e (rw eq (retry_failed-Spends id policy word io r a broadcast failed_again))
    | inr e ↦ rw e (
        Spends-same id policy.max_attempts r _
          (retry_failed-SameView j id e policy io r broadcast failed_again) a)
  ]
  event-Spends restarted r n a = absurd (cc)

abbrev pub in_process : List Event → Bool
in_process [] = true
in_process (e ∷ es) = not (is_restart e) && in_process es

abbrev pub all_stored : List Event → Bool
all_stored [] = true
all_stored (e ∷ es) = stores e && all_stored es

module _ (policy : FailedRetryPolicy) (id : ℕ) (budget : 1 ≤ policy.max_attempts)
    (word : policy.max_attempts ≤ u32_max) where
  process-limit :
      (es : List Event) (r : FailedRetries)
      → in_process es ≡ true
      → Ahead id r
      → transactions policy id es r + spent id r ≤ max (spent id r) policy.max_attempts
  unfolding transactions
  process-limit [] r p a = omega arith
  process-limit (e ∷ es) r p a =
      let here : is_restart e ≡ false = ground (arith, p) in
      let later : in_process es ≡ true = ground (arith, p) in
      let s = event-Spends policy id budget word e r here a in
      let rest = process-limit es (on_event policy e r).0 later s.ahead in
      omega (arith, transactions-step policy id e es r, s.grown, s.capped, rest)

  restart-limit :
      (es : List Event) (r : FailedRetries)
      → all_stored es ≡ true
      → Ahead id r
      → Durable id r
      → transactions policy id es r + spent id r ≤ max (spent id r) policy.max_attempts
  unfolding transactions on_event lookup
  restart-limit [] r p a d = omega arith
  restart-limit (restarted ∷ es) r p a d =
      let fresh = record r { memory = [] } in
      let rest =
        restart-limit es fresh p (inl refl) (record { flushed = omega arith; opened = d.opened }) in
      omega (arith, transactions-step policy id restarted es r, rest, d.flushed)
  restart-limit (e ∷ es) r p a d =
      let here : stores e ≡ true = ground (arith, p) in
      let later : all_stored es ≡ true = ground (arith, p) in
      let s = event-Spends policy id budget word e r refl a in
      let rest =
        restart-limit es (on_event policy e r).0 later s.ahead
          (event-Durable policy id e r here refl d) in
      omega (arith, transactions-step policy id e es r, s.grown, s.capped, rest)

-- For a policy with a 32-bit number of attempts, in a process that starts with an empty memory and
-- is not restarted, whatever reads and writes fail and whatever the clock says, the transactions
-- counted for a message are at most what the policy allows beyond the attempts on disk at the
-- start.
pub within_budget :
    (policy : FailedRetryPolicy) (id : ℕ) (es : List Event) (disk : Option (Map FailedRetryState))
    → policy.max_attempts ≤ u32_max
    → in_process es ≡ true
    → transactions policy id es (record { memory = []; disk = disk })
      ≤ policy.max_attempts - attempts_of (disk_entry id disk)
unfolding lookup
within_budget policy id es disk word p = elim (Bool-cases (leb 1 policy.max_attempts)) [
  | inl b ↦ omega (
    arith,
    process-limit policy id (ground (arith, b)) word es (record { memory = []; disk = disk }) p
        (inl refl),
  )
  | inr z ↦
      omega
        (arith, no_budget policy id es (record { memory = []; disk = disk }) (ground (arith, z)))
]

-- For a policy with a 32-bit number of attempts, from an empty memory and any entries on disk,
-- with restarts at any point and whatever reads fail, the same bound holds if every write takes
-- effect.
pub within_budget-restarts :
    (policy : FailedRetryPolicy) (id : ℕ) (es : List Event) (entries : Map FailedRetryState)
    → policy.max_attempts ≤ u32_max
    → all_stored es ≡ true
    → transactions policy id es (record { memory = []; disk = some entries })
      ≤ policy.max_attempts - attempts_of (lookup id entries)
unfolding lookup
within_budget-restarts policy id es entries word p = elim (Bool-cases (leb 1 policy.max_attempts)) [
  | inl b ↦ omega (
    arith,
    restart-limit policy id (ground (arith, b)) word es
        (record { memory = []; disk = some entries }) p (inl refl)
        (record { flushed = omega arith; opened = refl }),
  )
  | inr z ↦ omega (
    arith,
    no_budget policy id es (record { memory = []; disk = some entries }) (ground (arith, z)),
  )
]
