-- ===== src/Pool/Results/Retry.antt =====
-- A delivery that failed is tried again, soon and for ever: `note_delivery_result`,
-- `requeue_delivery` and `collect_ready_deliveries` of message-relayer/src/pool/mod.rs.
use asc_message_relayer.Prelude.{
  ℕ, zero, suc, ◌+◌, ◌-◌, ◌^◌, ◌<◌, ◌≤◌, ◌≡◌, refl, ◌∙◌, true, false, ◌||◌, Option, none, some,
  List, [], ◌∷◌, arith, Bool-cases, ◌⊎◌, inl, inr, ==_refl, ◌==◌, ==_iff, contains, min,
}
use asc_message_relayer.Prelude.Map.{lookup, keys, lookup-insert, contains-keys}
use asc_message_relayer.Types.{
  Crypto, secs, DeliveryResultKind, delivered, terminal, retryable, awaiting_votes,
  awaiting_execution, DeliveryJob,
}
use asc_message_relayer.Delivery.Backoff.{
  delivery_retry_delay, delivery_retry_max, pending_retry_delay, max_retry_deferred_wait,
}
use asc_message_relayer.Pool.Slot.{
  MessageSlot, RouteState, resolved, has_quorum, dispatch_slot, dispatch_if_ready, job_of, before,
  push_job, dispatch_all,
}
use asc_message_relayer.Pool.Slot.Dispatch.{
  dispatch_if_ready-some, dispatch_if_ready-other, dispatch_if_ready-threshold,
}
use asc_message_relayer.Pool.Results.Sound.{note_delivery_result-threshold}
use asc_message_relayer.Pool.Results.{
  collect_ready_deliveries, update_slot, settle_slot, note_delivery_result,
}

-- `2 ^ k` at the shifts that occur.
shift_bounds : (k : ℕ) → (1 ≤ 2 ^ min k 4) × (2 ^ min k 4 ≤ 16)
shift_bounds zero = omega arith
shift_bounds (suc zero) = omega arith
shift_bounds (suc (suc zero)) = omega arith
shift_bounds (suc (suc (suc zero))) = omega arith
shift_bounds (suc (suc (suc (suc k)))) =
    let e : min (suc (suc (suc (suc k)))) 4 ≡ 4 = omega arith in rw e (omega arith)

-- The delay before a new delivery attempt is between half a minute and five minutes.
pub delivery_retry_delay_bounds :
    (attempts : ℕ)
    → (secs 30 ≤ delivery_retry_delay attempts)
      × (delivery_retry_delay attempts ≤ delivery_retry_max)
unfolding delivery_retry_delay
delivery_retry_delay_bounds attempts =
    let b = shift_bounds (attempts - 1) in (omega (arith, b), omega arith)

-- The wait for an execution retry is more than five seconds, and at most the cap on the
-- dispatcher's hint.
pub pending_retry_delay_bounds :
    (attempt : ℕ) (retry_after now : Option ℕ)
    → (secs 5 < pending_retry_delay attempt retry_after now)
      × (pending_retry_delay attempt retry_after now ≤ max_retry_deferred_wait)
unfolding pending_retry_delay
pending_retry_delay_bounds zero (some ts) (some now) = ground arith
pending_retry_delay_bounds (suc zero) (some ts) (some now) = ground arith
pending_retry_delay_bounds (suc (suc n)) (some ts) (some now) = ground arith
pending_retry_delay_bounds zero (some ts) none = ground arith
pending_retry_delay_bounds (suc zero) (some ts) none = ground arith
pending_retry_delay_bounds (suc (suc n)) (some ts) none = ground arith
pending_retry_delay_bounds zero none now = ground arith
pending_retry_delay_bounds (suc zero) none now = ground arith
pending_retry_delay_bounds (suc (suc n)) none now = ground arith

-- The longest wait that follows a report.
abbrev pub longest_wait : DeliveryResultKind → ℕ
longest_wait (awaiting_execution retry_after) = max_retry_deferred_wait
longest_wait other = delivery_retry_max

-- The dispatch of a slot that is due.
due_dispatch :
    (x : Crypto) (chain_key threshold later : ℕ) (s : MessageSlot)
    → resolved s ≡ false
    → s.in_flight ≡ false
    → (has_quorum threshold s || s.execution_accepted) ≡ true
    → before later s.next_delivery_attempt_at ≡ false
    → (dispatch_slot x chain_key threshold later true s).1
      ≡ some (job_of x chain_key (has_quorum threshold s) s)
unfolding dispatch_slot
due_dispatch x chain_key threshold later s d f q b = ground arith

module _ (x : Crypto) (chain_key message_id now later : ℕ) (unix : Option ℕ) (r : RouteState)
    (s : MessageSlot) where
  -- The pool once the worker has reported.
  abbrev reported : DeliveryResultKind → RouteState
  reported outcome = note_delivery_result message_id outcome now unix r

  reported-lookup :
      (outcome : DeliveryResultKind)
      → lookup message_id r.by_message ≡ some s
      → lookup message_id (reported outcome).by_message ≡ some (settle_slot outcome now unix s)
  unfolding note_delivery_result update_slot
  reported-lookup outcome p = rw (p, update_slot) (rw lookup-insert (rw (==_refl message_id)))

  -- A report that does not resolve the message leaves it idle.
  settle_slot-idle :
      (outcome : DeliveryResultKind) → (settle_slot outcome now unix s).in_flight ≡ false
  unfolding settle_slot
  settle_slot-idle delivered = refl
  settle_slot-idle terminal = refl
  settle_slot-idle retryable = refl
  settle_slot-idle awaiting_votes = refl
  settle_slot-idle (awaiting_execution retry_after) = refl

  settle_slot-due :
      (outcome : DeliveryResultKind)
      → resolved (settle_slot outcome now unix s) ≡ false
      → now + longest_wait outcome ≤ later
      → before later (settle_slot outcome now unix s).next_delivery_attempt_at ≡ false
  unfolding settle_slot
  settle_slot-due delivered d h = absurd (cc)
  settle_slot-due terminal d h = absurd (ground arith)
  settle_slot-due retryable d h = ground (arith, delivery_retry_delay_bounds s.delivery_attempts)
  settle_slot-due awaiting_votes d h = refl
  settle_slot-due (awaiting_execution retry_after) d h =
      ground (arith, pending_retry_delay_bounds (s.delivery_attempts - 1) retry_after unix)

-- A job among those of a round.
abbrev pub HasJob : DeliveryJob → List DeliveryJob → Type 0
HasJob job [] = ⊥
HasJob job (j ∷ jobs) = (j ≡ job) ⊎ HasJob job jobs

push_job-HasJob :
    (job : DeliveryJob) (o : Option DeliveryJob) (jobs : List DeliveryJob)
    → HasJob job jobs
    → HasJob job (push_job o jobs)
push_job-HasJob job none jobs h = h
push_job-HasJob job (some j) jobs h = inr h

-- A round dispatches each listed message that is due.
dispatch_all-HasJob :
    (x : Crypto) (chain_key now hash : ℕ) (hashes : List ℕ) (r : RouteState) (s : MessageSlot)
    (job : DeliveryJob)
    → contains hashes hash ≡ true
    → lookup hash r.by_message ≡ some s
    → (dispatch_slot x chain_key r.threshold now true s).1 ≡ some job
    → HasJob job (dispatch_all x chain_key now true hashes r).1
unfolding dispatch_all
dispatch_all-HasJob x chain_key now hash [] r s job c p d = absurd (cc)
dispatch_all-HasJob x chain_key now hash (h ∷ hashes) r s job c p d =
    elim (Bool-cases (h == hash)) [
      | inl e ↦
          let here : (dispatch_if_ready x chain_key h now true r).1 ≡ some job =
            rw ((==_iff h hash).0 e)
              (rw (dispatch_if_ready-some x chain_key hash now true r s p) d) in
          rw here (inl refl)
      | inr e ↦ push_job-HasJob job (dispatch_if_ready x chain_key h now true r).1 _ (
          dispatch_all-HasJob x chain_key now hash hashes
            (dispatch_if_ready x chain_key h now true r).0 s job (ground (arith, c, e))
            (dispatch_if_ready-other x chain_key h now true r hash e ∙ p)
            (rw (dispatch_if_ready-threshold x chain_key h now true r) d))
    ]

module _ (x : Crypto) (chain_key message_id now later : ℕ) (unix : Option ℕ)
    (outcome : DeliveryResultKind) (r : RouteState) (s : MessageSlot) where
  -- After a report that leaves a message unresolved, if it has a quorum or is accepted on chain
  -- then, a round of ready deliveries at least the longest wait for that report later dispatches
  -- it again.
  pub report-redispatches :
      lookup message_id r.by_message ≡ some s
      → resolved (settle_slot outcome now unix s) ≡ false
      → (has_quorum r.threshold (settle_slot outcome now unix s)
          || (settle_slot outcome now unix s).execution_accepted)
        ≡ true
      → now + longest_wait outcome ≤ later
      → HasJob
          (job_of x chain_key
            (has_quorum r.threshold (settle_slot outcome now unix s))
            (settle_slot outcome now unix s))
          (collect_ready_deliveries x chain_key later
            (note_delivery_result message_id outcome now unix r)).1
  unfolding collect_ready_deliveries
  report-redispatches p d q h =
      let r' = note_delivery_result message_id outcome now unix r in
      let there = reported-lookup x chain_key message_id now later unix r s outcome p in
      dispatch_all-HasJob x chain_key later message_id (keys r'.by_message) r'
        (settle_slot outcome now unix s) _ (contains-keys r'.by_message message_id ∙ rw there refl)
        there
        (rw (note_delivery_result-threshold message_id now r outcome unix) (
          due_dispatch x chain_key r.threshold later (settle_slot outcome now unix s) d
            (settle_slot-idle x chain_key message_id now later unix r s outcome) q
            (settle_slot-due x chain_key message_id now later unix r s outcome d h)))
