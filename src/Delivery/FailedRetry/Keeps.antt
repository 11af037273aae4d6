-- ===== src/Delivery/FailedRetry/Keeps.antt =====
-- What reads and writes keep, the worker's handlers keep
-- (message-relayer/src/delivery/failed_retry.rs).
use asc_message_relayer.Prelude.{
  ℕ, ◌≡◌, refl, Bool, false, ◌==◌, leb, Bool-cases, Option-cases, inl, inr, is_some, if_both,
}
use asc_message_relayer.Delivery.FailedRetry.{
  FailedRetryState, FailedRetryPolicy, FailedRetries, Answers, get, put, start, gate,
  record_attempt, entombed, give_up, give_up_failed_retries, after_failed_retry, observe_failure,
  retry_failed, first_failure,
}
use asc_message_relayer.Delivery.FailedRetry.View.{
  SameView, SameView-trans, get-SameView, put-SameView,
}
use asc_message_relayer.Delivery.FailedRetry.Passing.{Gate-cases}

module _ (P : FailedRetries → Type 0) (id : ℕ) (policy : FailedRetryPolicy) (io : Answers)
    (reads : (readable : Bool) (r : FailedRetries) → P r → P (get readable id r).0)
    (writes : (s : FailedRetryState) (r : FailedRetries) → P r → P (put io.stored id s r))
    (ends : (s : FailedRetryState) (r : FailedRetries) → P r → P (put io.stored_end id s r)) where
  start-keeps :
      (readable : Bool) (now : ℕ) (r : FailedRetries)
      → P r
      → P (start readable io.stored id policy now r).0
  unfolding start
  start-keeps readable now r v =
      let r1 = (get readable id r).0 in
      let s = reads readable r v in
      elim (Option-cases (get readable id r).1) [
        | inl n ↦ rw (n, start) s
        | inr (o, p) ↦ elim (Option-cases o) [
          | inl n ↦ rw (p, n, start) (writes (first_failure policy now) r1 s)
          | inr (t, q) ↦ rw (p, q, start) s
        ]
      ]

  gate-keeps :
      (readable : Bool) (now : ℕ) (r : FailedRetries) → P r → P (gate readable id policy now r).0
  unfolding gate
  gate-keeps readable now r v =
      let s = reads readable r v in
      elim (Option-cases (get readable id r).1) [
        | inl n ↦ rw (n, gate) s
        | inr (o, p) ↦ rw (p, gate) s
      ]

  record_attempt-keeps :
      (readable : Bool) (now : ℕ) (r : FailedRetries)
      → P r
      → P (record_attempt readable io.stored id policy now r).0
  unfolding record_attempt
  record_attempt-keeps readable now r v = writes _ (get readable id r).0 (reads readable r v)

  give_up-keeps :
      (s : FailedRetryState) (r : FailedRetries) → P r → P (give_up_failed_retries io id s r)
  unfolding give_up_failed_retries give_up
  give_up-keeps s r v = if_both P (is_some s.gave_up_at) _ _ v (ends (entombed io.later s) r v)

  after-keeps :
      (s : FailedRetryState) (r : FailedRetries) → P r → P (after_failed_retry io policy id s r)
  after-keeps s r v = if_both P (leb policy.max_attempts s.attempts) _ _ (give_up-keeps s r v) v

  pub observe-keeps : (r : FailedRetries) → P r → P (observe_failure io policy id r)
  unfolding observe_failure
  observe-keeps r v =
      after-keeps _ (start io.readable io.stored id policy io.now r).0
        (start-keeps io.readable io.now r v)

  pub retry_failed-keeps :
      (broadcast failed_again : Bool) (r : FailedRetries)
      → P r
      → P (retry_failed io policy id broadcast failed_again r).0
  unfolding retry_failed
  retry_failed-keeps broadcast failed_again r v =
      let r1 = (gate io.readable id policy io.now r).0 in
      let s = gate-keeps io.readable io.now r v in
      let (r2, t) = record_attempt io.readable_later io.stored id policy io.later r1 in
      let w = record_attempt-keeps io.readable_later io.later r1 s in
      elim (Gate-cases (gate io.readable id policy io.now r).1) [
        | inl e ↦
            rw (e, retry_failed)
              (elim (Bool-cases broadcast) [
                | inl b ↦ rw b (if_both P failed_again _ _ (after-keeps t r2 w) w)
                | inr b ↦ rw b s
              ])
        | inr (inl (at_time, e)) ↦ rw (e, retry_failed) s
        | inr (inr (g, e)) ↦ rw (e, retry_failed) (give_up-keeps g r1 s)
      ]

-- The ledger of another message.
module _ (id j : ℕ) (ne : (id == j) ≡ false) (policy : FailedRetryPolicy) (io : Answers)
    (r : FailedRetries) where
  same : SameView j r r
  same = record { held_same = refl; kept_same = refl }

  reads-same :
      (readable : Bool) (r' : FailedRetries) → SameView j r r' → SameView j r (get readable id r').0
  reads-same readable r' s = SameView-trans j r r' _ s (get-SameView readable id j r' ne)

  puts-same :
      (stored : Bool) (s : FailedRetryState) (r' : FailedRetries)
      → SameView j r r'
      → SameView j r (put stored id s r')
  puts-same stored s r' v = SameView-trans j r r' _ v (put-SameView stored id j s r' ne)

  pub observe-SameView : SameView j r (observe_failure io policy id r)
  observe-SameView =
      observe-keeps (SameView j r) id policy io reads-same (puts-same io.stored)
        (puts-same io.stored_end) r same

  pub retry_failed-SameView :
      (broadcast failed_again : Bool)
      → SameView j r (retry_failed io policy id broadcast failed_again r).0
  retry_failed-SameView broadcast failed_again =
      retry_failed-keeps (SameView j r) id policy io reads-same (puts-same io.stored)
        (puts-same io.stored_end) broadcast failed_again r same
