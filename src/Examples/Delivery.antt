-- ===== src/Examples/Delivery.antt =====
-- The theorems on the delivery worker and its helpers at concrete inputs.
use asc_message_relayer.Prelude.{
  ℕ, ◌+◌, ◌-◌, ◌≤◌, ◌<◌, ◌≡◌, ◌↔◌, refl, Bool, true, false, Option, none, some, List, [], ◌∷◌, map,
  arith,
}
use asc_message_relayer.Prelude.Map.{lookup, insert}
use asc_message_relayer.Types.{secs}
use asc_message_relayer.Delivery.Backoff.{
  delivery_retry_max, delivery_retry_delay, pending_retry_delay, max_retry_deferred_wait,
}
use asc_message_relayer.Pool.Results.Retry.{delivery_retry_delay_bounds, pending_retry_delay_bounds}
use asc_message_relayer.Delivery.FailedRetry.{
  FailedRetryState, FailedRetryPolicy, FailedRetries, Answers, Event, observed, retried, restarted,
  backoff, get, put, gate, record_attempt, transactions,
}
use asc_message_relayer.Delivery.FailedRetry.Limit.{within_budget, within_budget-restarts}
use asc_message_relayer.Delivery.FailedRetry.Schedule.{backoff-grows, gate-spaced}
use asc_message_relayer.Delivery.FailedRetry.Tombstone.{given_up-final}
use asc_message_relayer.Delivery.TopUp.{
  TopUpEvent, refused_delivery, landed, did_not_complete, requests_sent, requests_sent-bounded,
  max_top_up_attempts,
}
use asc_message_relayer.Delivery.Receipt.{
  Log, Bindings, classify_loop, classify_success_logs, any_log, proves, disproves,
  classify_success_logs-delivered,
}
use asc_message_relayer.Outcome.{DeliveryOutcome, OutcomeKind, new, record_outcome}
use asc_message_relayer.Outcome.Bounds.{OutcomeInv, Recorded, record_outcome-kept, new-OutcomeInv}
use asc_message_relayer.Pacing.{
  paced, fresh, deferring, after, level_cap, longest_window, paced-bounded, paced-recovers,
}
use asc_message_relayer.Pacing.Errors.{contains_standalone, Standalone, contains_standalone_iff}
use asc_message_relayer.Events.Finality.{picks, Ascending, picks-Ascending}
use asc_message_relayer.Events.Finality

abbrev policy : FailedRetryPolicy
policy = record { max_attempts = 2; initial_backoff_secs = 60; max_backoff_secs = 3600 }

-- Everything works; the worker reads at `now` and again a second later.
abbrev at_time : ℕ → Answers
at_time now = record {
  readable = true;
  now = now;
  readable_later = true;
  later = now + 1;
  stored = true;
  stored_end = true;
}

-- Nothing of the store works.
abbrev blind : ℕ → Answers
blind now = record {
  readable = false;
  now = now;
  readable_later = false;
  later = now + 1;
  stored = false;
  stored_end = false;
}

abbrev attempts : List Event
attempts =
    observed 5 (at_time 100)
    ∷ retried 5 (at_time 200) true true
    ∷ retried 5 (blind 5000) true true
    ∷ retried 5 (blind 9000) true true
    ∷ []

abbrev attempts_restarted : List Event
attempts_restarted =
    observed 5 (at_time 100)
    ∷ retried 5 (at_time 200) true true
    ∷ restarted
    ∷ retried 5 (at_time 5000) true true
    ∷ restarted
    ∷ retried 5 (at_time 9000) true true
    ∷ []

within_budget_example :
    transactions policy 5 attempts (record { memory = []; disk = some [] })
    ≤ policy.max_attempts - 0
unfolding lookup
within_budget_example = within_budget policy 5 attempts (some []) (omega arith) refl

within_budget-restarts_example :
    transactions policy 5 attempts_restarted (record { memory = []; disk = some [] })
    ≤ policy.max_attempts - 0
unfolding lookup
within_budget-restarts_example =
    within_budget-restarts policy 5 attempts_restarted [] (omega arith) refl

abbrev tombstone : FailedRetryState
tombstone = record { attempts = 1; next_attempt_at = 300; gave_up_at = some 400 }

given_up-final_example :
    transactions policy 5 attempts (record { memory = []; disk = some ((5, tombstone) ∷ []) }) ≡ 0
unfolding lookup
given_up-final_example =
    given_up-final policy 5 attempts (record { memory = []; disk = some ((5, tombstone) ∷ []) })
      refl refl

backoff-grows_example :
    (60 ≤ backoff policy 3) × (backoff policy 3 ≤ backoff policy 4) × (backoff policy 4 ≤ 3600)
backoff-grows_example = backoff-grows policy 3 refl (omega arith)

abbrev empty_ledger : FailedRetries
empty_ledger = record { memory = []; disk = none }

gate-spaced_example : 100 + 60 ≤ 500
unfolding record_attempt get put gate lookup insert backoff
gate-spaced_example =
    gate-spaced policy 5 100 500 true true true empty_ledger refl (omega arith) refl

delivery_retry_delay_bounds_example :
    (secs 30 ≤ delivery_retry_delay 3) × (delivery_retry_delay 3 ≤ delivery_retry_max)
delivery_retry_delay_bounds_example = delivery_retry_delay_bounds 3

pending_retry_delay_bounds_example :
    (secs 5 < pending_retry_delay 0 (some 90) (some 10))
    × (pending_retry_delay 0 (some 90) (some 10) ≤ max_retry_deferred_wait)
pending_retry_delay_bounds_example = pending_retry_delay_bounds 0 (some 90) (some 10)

abbrev refusals : List TopUpEvent
refusals =
    refused_delivery 5
    ∷ did_not_complete 5
    ∷ refused_delivery 5
    ∷ landed 5
    ∷ refused_delivery 5
    ∷ []

requests_sent-bounded_example : requests_sent 5 refusals [] ≤ max_top_up_attempts
requests_sent-bounded_example = requests_sent-bounded 5 refusals

abbrev bindings : Bindings
bindings = record {
  destination_failed = 1;
  message_queued = 2;
  message_deferred = 3;
  message_executed = 4;
  decode_dispatcher = λ log. none;
  decodes_executed = λ log. true;
}

abbrev receipt : List Log
receipt = record { address = 9; topics = 4 ∷ 5 ∷ []; payload = [] } ∷ []

classify_success_logs-delivered_example :
    (any_log (proves bindings 9 5) receipt ≡ true)
    × (any_log (disproves bindings 9 5) receipt ≡ false)
unfolding classify_success_logs classify_loop
classify_success_logs-delivered_example = classify_success_logs-delivered bindings 9 5 receipt refl

abbrev outcome : DeliveryOutcome
outcome = record {
  kind = OutcomeKind.delivered;
  chain_key = 7;
  tx_hash = some 77;
  reason = none;
  recorded_at = 100;
}

record_outcome-kept_example :
    OutcomeInv (record_outcome 5 outcome (new 1))
    × (lookup 5 (record_outcome 5 outcome (new 1)).by_id ≡ some outcome)
    × Recorded 5 outcome (new 1) (record_outcome 5 outcome (new 1))
record_outcome-kept_example = record_outcome-kept 5 outcome (new 1) (new-OutcomeInv 1)

abbrev limits : List (ℕ × Bool)
limits = (1000, true) ∷ (2000, true) ∷ (3000, false) ∷ []

paced-bounded_example :
    ((paced limits fresh).level ≤ level_cap) × (1 ≤ 9000) × (9000 ≤ longest_window)
unfolding paced after deferring
paced-bounded_example =
    paced-bounded limits 3000 9000 (omega arith, (omega arith, (omega arith, tt))) refl

paced-recovers_example :
    (paced
      (map (λ t. (t, false)) (4000 ∷ 5000 ∷ []))
      (record { level = 2; defer_until = some 9000 })).level
    ≡ 0
paced-recovers_example =
    paced-recovers (record { level = 2; defer_until = some 9000 }) (4000 ∷ 5000 ∷ []) (omega arith)

abbrev heads : List (Option ℕ × ℕ)
heads = (some 90, 1) ∷ (none, 2) ∷ (some 80, 3) ∷ (some 95, 4) ∷ []

picks-Ascending_example : Ascending (picks heads (Finality.new 0))
picks-Ascending_example = picks-Ascending heads 0

-- "x 429 y" and "429".
abbrev text : List ℕ
text = 120 ∷ 32 ∷ 52 ∷ 50 ∷ 57 ∷ 32 ∷ 121 ∷ []

contains_standalone_iff_example :
    (contains_standalone text (52 ∷ 50 ∷ 57 ∷ []) ≡ true)
    ↔ ((i : ℕ) × Standalone (52 ∷ 50 ∷ 57 ∷ []) text i)
contains_standalone_iff_example = contains_standalone_iff 52 (50 ∷ 57 ∷ []) text
