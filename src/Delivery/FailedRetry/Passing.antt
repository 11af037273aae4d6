-- ===== src/Delivery/FailedRetry/Passing.antt =====
-- What passes the gate of message-relayer/src/delivery/failed_retry.rs is within the budget, and is
-- counted.
use asc_message_relayer.Prelude.{
  ℕ, ◌+◌, ◌≤◌, ◌≡◌, refl, sym, ap, Bool, Option, ◌⊎◌, if◌then◌else◌, arith, Bool-cases,
  Option-cases, inl, inr, if_both, u32_max,
}
use asc_message_relayer.Delivery.FailedRetry.{
  FailedRetryState, FailedRetryPolicy, FailedRetries, Answers, Gate, proceed, wait, gives_up,
  or_default, get, judge, gate, previous_of, next_state, record_attempt, after_failed_retry,
  retry_failed,
}
use asc_message_relayer.Delivery.FailedRetry.View.{held, get-Got}
use asc_message_relayer.Delivery.FailedRetry.Budget.{
  attempts_of, spent, Ahead, Synced, Spends, Spends-trans, attempts-or_default, Got-Spends,
  Got-known, Got-previous, Got-spent, put-spent, put-Spends, give_up-Spends, after-Spends,
}

-- What the gate's verdict means.
record Judged (id : ℕ) (policy : FailedRetryPolicy) (r : FailedRetries) (v : Gate) : Type 0 where
  open_gate : v ≡ proceed → Synced id r × (spent id r + 1 ≤ policy.max_attempts)
  closed_gate : (s : FailedRetryState) → v ≡ gives_up s → s.attempts ≡ spent id r

pub judge-proceed :
    (policy : FailedRetryPolicy) (now : ℕ) (s : FailedRetryState)
    → judge policy now s ≡ proceed
    → s.attempts + 1 ≤ policy.max_attempts
judge-proceed policy now s e = ground arith

judge-gives_up :
    (policy : FailedRetryPolicy) (now : ℕ) (s t : FailedRetryState)
    → judge policy now s ≡ gives_up t
    → s ≡ t
judge-gives_up policy now s t e = ground arith

module _ (id : ℕ) (policy : FailedRetryPolicy) (r : FailedRetries) (a : Ahead id r) where
  judge-Judged :
      (now : ℕ) (o : Option FailedRetryState) (r1 : FailedRetries)
      → (attempts_of o ≡ attempts_of (held id r1)) × Synced id r1
      → Judged id policy r1 (judge policy now (or_default o))
  judge-Judged now o r1 k =
      let d = attempts-or_default o in
      record {
        open_gate =
            λ e. (k.1, omega (arith, judge-proceed policy now (or_default o) e, d, k.0, k.1));
        closed_gate = λ s e.
            let same =
              ap (λ (t : FailedRetryState). t.attempts)
                (judge-gives_up policy now (or_default o) s e) in
            omega (arith, same, d, k.0, k.1);
      }

  gate-Judged :
      (readable : Bool) (now : ℕ)
      → Spends id policy.max_attempts r (gate readable id policy now r).0 0
        × Judged id policy (gate readable id policy now r).0 (gate readable id policy now r).1
  unfolding gate
  gate-Judged readable now =
      let g = get-Got readable id r in
      let s = Got-Spends id r policy.max_attempts _ _ g a in
      elim (Option-cases (get readable id r).1) [
        | inl n ↦
            rw (n, gate)
              (s, record { open_gate = λ e. absurd (cc); closed_gate = λ t e. absurd (cc) })
        | inr (o, p) ↦
            rw (p, gate) (s, judge-Judged now o (get readable id r).0 (Got-known id r _ _ o g a p))
      ]

  record_attempt-Spends :
      (readable stored : Bool) (now : ℕ)
      → Synced id r
      → spent id r + 1 ≤ policy.max_attempts
      → policy.max_attempts ≤ u32_max
      → Spends id policy.max_attempts r (record_attempt readable stored id policy now r).0 1
        × ((record_attempt readable stored id policy now r).1.attempts
            ≡ spent id (record_attempt readable stored id policy now r).0)
  unfolding record_attempt
  record_attempt-Spends readable stored now synced room word =
      let r1 = (get readable id r).0 in
      let g = get-Got readable id r in
      let before = Got-spent id r r1 _ g in
      let previous = Got-previous id r r1 _ g synced in
      let s = next_state policy now (previous_of (get readable id r).1) in
      let count : s.attempts ≡ spent id r + 1 = omega (arith, previous, synced, room, word) in
      let low : 1 + spent id r1 ≤ s.attempts = omega (arith, before, count) in
      let w = put-Spends id r1 stored s policy.max_attempts 1 low (omega (arith, count, room)) in
      (
        record {
          ahead = w.ahead;
          grown = omega (arith, w.grown, before);
          capped = omega (arith, w.capped, before);
        },
        sym (put-spent id r1 stored s (omega (arith, low))).0,
      )

pub Gate-cases :
    (g : Gate)
    → (g ≡ proceed) ⊎ (((t : ℕ) × (g ≡ wait t)) ⊎ ((s : FailedRetryState) × (g ≡ gives_up s)))
Gate-cases proceed = inl refl
Gate-cases (wait t) = inr (inl (t, refl))
Gate-cases (gives_up s) = inr (inr (s, refl))

module _ (id : ℕ) (policy : FailedRetryPolicy) (word : policy.max_attempts ≤ u32_max) (io : Answers)
    (r : FailedRetries) (a : Ahead id r) where
  -- The branch of a transaction.
  sent-Spends :
      (failed_again : Bool)
      → Synced id r
      → spent id r + 1 ≤ policy.max_attempts
      → (let (r2, s) = record_attempt io.readable_later io.stored id policy io.later r in
          Spends id policy.max_attempts r
            (if failed_again then after_failed_retry io policy id s r2 else r2)
            1)
  sent-Spends failed_again synced room =
      let (w, known) =
        record_attempt-Spends id policy r a io.readable_later io.stored io.later synced room word in
      let r2 = (record_attempt io.readable_later io.stored id policy io.later r).0 in
      if_both (λ r'. Spends id policy.max_attempts r r' 1) failed_again _ _
        (Spends-trans id policy.max_attempts r r2 _ 1 w
          (after-Spends id policy.max_attempts io _ r2 w.ahead policy (λ h. known)))
        w

module _ (id : ℕ) (policy : FailedRetryPolicy) (word : policy.max_attempts ≤ u32_max) (io : Answers)
    (r : FailedRetries) (a : Ahead id r) (broadcast failed_again : Bool) where
  pub retry_failed-Spends :
      Spends id policy.max_attempts r
        (retry_failed io policy id broadcast failed_again r).0
        (retry_failed io policy id broadcast failed_again r).1
  unfolding retry_failed
  retry_failed-Spends =
      let (s, j) = gate-Judged id policy r a io.readable io.now in
      let r1 = (gate io.readable id policy io.now r).0 in
      elim (Gate-cases (gate io.readable id policy io.now r).1) [
        | inl e ↦
            let (synced, room) = j.open_gate e in
            let sent = sent-Spends id policy word io r1 s.ahead failed_again synced room in
            rw (e, retry_failed)
              (elim (Bool-cases broadcast) [
                | inl b ↦ rw b (record {
                  ahead = sent.ahead;
                  grown = omega (arith, s.grown, sent.grown);
                  capped = omega (arith, s.capped, sent.capped);
                })
                | inr b ↦ rw b s
              ])
        | inr (inl (t, e)) ↦ rw (e, retry_failed) s
        | inr (inr (t, e)) ↦
            rw (e, retry_failed)
              (Spends-trans id policy.max_attempts r r1 _ 0 s
                (give_up-Spends id policy.max_attempts io t r1 s.ahead (j.closed_gate t e)))
      ]
