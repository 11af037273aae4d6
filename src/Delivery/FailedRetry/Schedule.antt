-- ===== src/Delivery/FailedRetry/Schedule.antt =====
-- When `retryFailedMessage` may be sent again (message-relayer/src/config.rs and
-- delivery/failed_retry.rs).
use asc_message_relayer.Prelude.{
  ℕ, suc, ◌+◌, ◌*◌, ◌^◌, ◌≤◌, ◌≡◌, ◌∙◌, Bool, true, Option, none, some, ltb, if◌then◌else◌, arith,
  Bool-cases, inl, inr, u64_max,
}
use native.Mathlib.Nat.{mul-le-mul_left, one-le-pow, pow-suc}
use asc_message_relayer.Delivery.FailedRetry.{
  FailedRetryState, FailedRetryPolicy, FailedRetries, validate, backoff, proceed, merged,
  or_default, get, gate, judge, record_attempt, next_state, previous_of,
}
use asc_message_relayer.Delivery.FailedRetry.View.{held, kept, failed, found, get-Got, held-put}

abbrev factor : ℕ → ℕ
factor n = if ltb n 64 then 2 ^ n else u64_max

factor-grows : (n : ℕ) → (1 ≤ factor n) × (factor n ≤ factor (suc n))
factor-grows n =
    let p : 1 ≤ 2 ^ n = one-le-pow n 2 (omega arith) in
    let q : 2 ^ suc n ≡ 2 ^ n * 2 = pow-suc 2 n in
    elim (Bool-cases (ltb (suc n) 64)) [
      | inl e ↦ (ground (arith, e, p), ground (arith, e, p, q))
      | inr e ↦ elim (Bool-cases (ltb n 64)) [
        | inl f ↦
            let last : n ≡ 63 = ground (arith, e, f) in (rw f p, rw (e, f) (rw last (omega arith)))
        | inr f ↦ (rw f (omega arith), rw (e, f) (omega arith))
      ]
    ]

-- The schedule of a valid policy with 64-bit waits starts at the initial wait, never shrinks from
-- one attempt to the next, and stays below the cap.
pub backoff-grows :
    (p : FailedRetryPolicy) (n : ℕ)
    → validate p ≡ true
    → p.initial_backoff_secs ≤ u64_max
    → (p.initial_backoff_secs ≤ backoff p n)
      × (backoff p n ≤ backoff p (suc n))
      × (backoff p (suc n) ≤ p.max_backoff_secs)
unfolding backoff
backoff-grows p n ok word =
    let (one, more) = factor-grows n in
    let base : p.initial_backoff_secs * 1 ≤ p.initial_backoff_secs * factor n =
      mul-le-mul_left p.initial_backoff_secs one in
    let step : p.initial_backoff_secs * factor n ≤ p.initial_backoff_secs * factor (suc n) =
      mul-le-mul_left p.initial_backoff_secs more in
    let below : p.initial_backoff_secs ≤ p.max_backoff_secs = ground (arith, ok) in
    (omega (arith, base, word, below), omega (arith, step), omega arith)

judge-due :
    (policy : FailedRetryPolicy) (now : ℕ) (s : FailedRetryState)
    → judge policy now s ≡ proceed
    → s.next_attempt_at ≤ now
judge-due policy now s e = ground arith

due_of-merged :
    (s : FailedRetryState) (o : Option FailedRetryState)
    → s.next_attempt_at ≤ (or_default (merged (some s) o)).next_attempt_at
due_of-merged s none = omega arith
due_of-merged s (some t) = omega arith

-- A message that memory holds waits at least until then.
gate-due :
    (readable : Bool) (id : ℕ) (policy : FailedRetryPolicy) (now : ℕ) (s : FailedRetryState)
    (r : FailedRetries)
    → held id r ≡ some s
    → (gate readable id policy now r).1 ≡ proceed
    → s.next_attempt_at ≤ now
unfolding gate
gate-due readable id policy now s r p e = elim (get-Got readable id r) [
  | failed q f ↦
      let known : (get readable id r).1 ≡ some (some s) = f ∙ rw p in
      judge-due policy now s (rw (known, gate) at e)
  | found q d f ↦
      let known : (get readable id r).1 ≡ some (merged (some s) (kept id r)) = f ∙ rw p in
      omega (
        arith,
        due_of-merged s (kept id r),
        judge-due policy now (or_default (merged (some s) (kept id r))) (rw (known, gate) at e),
      )
]

-- For a valid policy, and away from the end of the 64-bit clock, the gate opens for a message no
-- sooner than the initial wait after an attempt was counted, whatever the disk answers, then or
-- later.
pub gate-spaced :
    (policy : FailedRetryPolicy) (id now then_at : ℕ) (readable stored readable_then : Bool)
    (r : FailedRetries)
    → validate policy ≡ true
    → now + policy.max_backoff_secs ≤ u64_max
    → (gate readable_then id policy then_at (record_attempt readable stored id policy now r).0).1
      ≡ proceed
    → now + policy.initial_backoff_secs ≤ then_at
unfolding record_attempt
gate-spaced policy id now then_at readable stored readable_then r ok word e =
    let r1 = (get readable id r).0 in
    let s = next_state policy now (previous_of (get readable id r).1) in
    let due = gate-due readable_then id policy then_at s _ (held-put stored id s r1) e in
    let (low, more, high) = backoff-grows policy s.attempts ok (ground (arith, ok, word)) in
    omega (arith, due, low, more, high, word)
