-- ===== src/Delivery/FailedRetry.antt =====
-- The budget of `retryFailedMessage`: `FailedRetries` of message-relayer/src/delivery/failed_retry.rs
-- with `FailedRetryPolicy` (config.rs), `FailedRetryState` and the disk entries (work.rs), and how the
-- delivery worker of delivery/mod.rs goes through it. One route's ledger is modelled; each call to
-- the store comes with whether the entry can be read, and whether a write takes effect. A confirmed
-- execution ends the matter: `forget` drops the entry then, and a run is taken up to that point.
use asc_message_relayer.Prelude.{
  ℕ, ◌+◌, ◌*◌, ◌^◌, Bool, true, false, ◌&&◌, ◌||◌, not, Option, none, some, List, [], ◌∷◌, ltb, leb,
  if◌then◌else◌, min, max, is_some, ◌==◌, sat_add32, sat_add64, u64_max,
}
use asc_message_relayer.Prelude.Map.{Map, lookup, insert, remove}
pub mod View
pub mod Budget
pub mod Passing
pub mod Keeps
pub mod Durable
pub mod Limit
pub mod Schedule
pub mod Tombstone

pub record FailedRetryState : Type 0 where
  pub attempts : ℕ
  pub next_attempt_at : ℕ
  pub gave_up_at : Option ℕ

pub record FailedRetryPolicy : Type 0 where
  pub max_attempts : ℕ
  pub initial_backoff_secs : ℕ
  pub max_backoff_secs : ℕ

-- `true` stands for `Ok`.
abbrev pub validate : FailedRetryPolicy → Bool
validate p = ltb 0 p.initial_backoff_secs && leb p.initial_backoff_secs p.max_backoff_secs

-- `checked_shl` of one, or the largest word; then a saturating product, capped.
unfoldable pub backoff : FailedRetryPolicy → ℕ → ℕ
backoff p attempts =
    let factor = if ltb attempts 64 then 2 ^ attempts else u64_max in
    min (min (p.initial_backoff_secs * factor) u64_max) p.max_backoff_secs

pub record FailedRetries : Type 0 where
  pub memory : Map FailedRetryState
  pub disk : Option (Map FailedRetryState)

pub data Gate : Type 0 where
  proceed : Gate
  wait : ℕ → Gate
  gives_up : FailedRetryState → Gate

-- `FailedRetryState::default()`.
abbrev pub no_attempts : FailedRetryState
no_attempts = record { attempts = 0; next_attempt_at = 0; gave_up_at = none }

abbrev pub or_default : Option FailedRetryState → FailedRetryState
or_default none = no_attempts
or_default (some s) = s

abbrev pub or_else : Option ℕ → Option ℕ → Option ℕ
or_else (some a) b = some a
or_else none b = b

abbrev pub stricter : FailedRetryState → FailedRetryState → FailedRetryState
stricter a b = record {
  attempts = max a.attempts b.attempts;
  next_attempt_at = max a.next_attempt_at b.next_attempt_at;
  gave_up_at = or_else a.gave_up_at b.gave_up_at;
}

abbrev pub merged : Option FailedRetryState → Option FailedRetryState → Option FailedRetryState
merged (some a) (some b) = some (stricter a b)
merged (some a) none = some a
merged none b = b

-- What the store answers: `none` is its error.
abbrev pub read_disk : Bool → ℕ → Option (Map FailedRetryState) → Option (Option FailedRetryState)
read_disk readable id none = some none
read_disk readable id (some entries) = if readable then some (lookup id entries) else none

-- `memory.map(Some).ok_or(())`.
abbrev pub fallback : Option FailedRetryState → Option (Option FailedRetryState)
fallback none = none
fallback (some s) = some (some s)

abbrev pub cached : ℕ → Option FailedRetryState → FailedRetries → FailedRetries
cached id none r = r
cached id (some s) r = record r { memory = insert id s r.memory }

unfoldable pub get : Bool → ℕ → FailedRetries → FailedRetries × Option (Option FailedRetryState)
get readable id r = elim (read_disk readable id r.disk) [
  | none ↦ (r, fallback (lookup id r.memory))
  | some entry ↦
      (cached id (merged (lookup id r.memory) entry) r, some (merged (lookup id r.memory) entry))
]

-- A write that fails is only logged, so what counts is whether it took effect.
abbrev pub write_disk :
    Bool → ℕ → FailedRetryState → Option (Map FailedRetryState) → Option (Map FailedRetryState)
write_disk stored id s none = none
write_disk stored id s (some entries) = some (if stored then insert id s entries else entries)

unfoldable pub put : Bool → ℕ → FailedRetryState → FailedRetries → FailedRetries
put stored id s r = record { memory = insert id s r.memory; disk = write_disk stored id s r.disk }

abbrev pub remove_disk : Bool → ℕ → Option (Map FailedRetryState) → Option (Map FailedRetryState)
remove_disk removed id none = none
remove_disk removed id (some entries) = some (if removed then remove id entries else entries)

unfoldable pub forget : Bool → ℕ → FailedRetries → FailedRetries
forget removed id r = record { memory = remove id r.memory; disk = remove_disk removed id r.disk }

abbrev pub first_failure : FailedRetryPolicy → ℕ → FailedRetryState
first_failure policy now = record {
  attempts = 0;
  next_attempt_at = sat_add64 now (backoff policy 0);
  gave_up_at = none;
}

unfoldable pub start :
    Bool → Bool → ℕ → FailedRetryPolicy → ℕ → FailedRetries → FailedRetries × FailedRetryState
start readable stored id policy now r =
    let first = first_failure policy now in
    let (r1, answer) = get readable id r in
    elim answer [
      | some (some existing) ↦ (r1, existing)
      | some none ↦ (put stored id first r1, first)
      | none ↦ (r1, first)
    ]

abbrev pub judge : FailedRetryPolicy → ℕ → FailedRetryState → Gate
judge policy now s =
    if is_some s.gave_up_at || leb policy.max_attempts s.attempts
    then gives_up s
    else if ltb now s.next_attempt_at
    then wait s.next_attempt_at
    else proceed

unfoldable pub gate : Bool → ℕ → FailedRetryPolicy → ℕ → FailedRetries → FailedRetries × Gate
gate readable id policy now r =
    let (r1, answer) = get readable id r in
    elim answer [
      | none ↦ (r1, wait (sat_add64 now (backoff policy 0)))
      | some s ↦ (r1, judge policy now (or_default s))
    ]

-- `ok().flatten().unwrap_or_default()`.
abbrev pub previous_of : Option (Option FailedRetryState) → FailedRetryState
previous_of none = no_attempts
previous_of (some s) = or_default s

abbrev pub next_state : FailedRetryPolicy → ℕ → FailedRetryState → FailedRetryState
next_state policy now previous = record {
  attempts = sat_add32 previous.attempts 1;
  next_attempt_at = sat_add64 now (backoff policy (sat_add32 previous.attempts 1));
  gave_up_at = none;
}

unfoldable pub record_attempt :
    Bool → Bool → ℕ → FailedRetryPolicy → ℕ → FailedRetries → FailedRetries × FailedRetryState
record_attempt readable stored id policy now r =
    let (r1, answer) = get readable id r in
    let s = next_state policy now (previous_of answer) in (put stored id s r1, s)

abbrev pub entombed : ℕ → FailedRetryState → FailedRetryState
entombed now s = record s { gave_up_at = or_else s.gave_up_at (some now) }

unfoldable pub give_up :
    Bool → ℕ → FailedRetryState → ℕ → FailedRetries → FailedRetries × FailedRetryState
give_up stored id s now r = (put stored id (entombed now s) r, entombed now s)

-- What the store and the clock answer in one call of the worker.
pub record Answers : Type 0 where
  pub readable : Bool
  pub now : ℕ
  pub readable_later : Bool
  pub later : ℕ
  pub stored : Bool
  pub stored_end : Bool

-- `give_up_failed_retries`: a tombstone that is there already is left alone.
unfoldable pub give_up_failed_retries :
    Answers → ℕ → FailedRetryState → FailedRetries → FailedRetries
give_up_failed_retries io id s r =
    if is_some s.gave_up_at then r else (give_up io.stored_end id s io.later r).0

-- The end of a spent attempt, and of a first failure: out of budget, the worker gives up.
abbrev pub after_failed_retry :
    Answers → FailedRetryPolicy → ℕ → FailedRetryState → FailedRetries → FailedRetries
after_failed_retry io policy id s r =
    if leb policy.max_attempts s.attempts then give_up_failed_retries io id s r else r

unfoldable pub observe_failure : Answers → FailedRetryPolicy → ℕ → FailedRetries → FailedRetries
observe_failure io policy id r =
    let (r1, s) = start io.readable io.stored id policy io.now r in
    after_failed_retry io policy id s r1

-- One execution retry of a failed message: the gate, the transaction, and its count. `broadcast`
-- holds unless an error shows that nothing was sent. With the number of transactions counted.
unfoldable pub retry_failed :
    Answers → FailedRetryPolicy → ℕ → Bool → Bool → FailedRetries → FailedRetries × ℕ
retry_failed io policy id broadcast failed_again r =
    let (r1, verdict) = gate io.readable id policy io.now r in
    elim verdict [
      | wait at ↦ (r1, 0)
      | gives_up s ↦ (give_up_failed_retries io id s r1, 0)
      | proceed ↦
          let (r2, spent) = record_attempt io.readable_later io.stored id policy io.later r1 in
          if not broadcast
          then (r1, 0)
          else (if failed_again then after_failed_retry io policy id spent r2 else r2, 1)
    ]

pub data Event : Type 0 where
  observed : ℕ → Answers → Event
  retried : ℕ → Answers → Bool → Bool → Event
  -- The process ends and another one opens the same store.
  restarted : Event

unfoldable pub on_event : FailedRetryPolicy → Event → FailedRetries → FailedRetries × ℕ
on_event policy (observed id io) r = (observe_failure io policy id r, 0)
on_event policy (retried id io broadcast failed_again) r =
    retry_failed io policy id broadcast failed_again r
on_event policy restarted r = (record r { memory = [] }, 0)

abbrev pub concerns : ℕ → Event → Bool
concerns id (observed j io) = j == id
concerns id (retried j io broadcast failed_again) = j == id
concerns id restarted = false

-- The transactions that a run of the worker counts for one message.
unfoldable pub transactions : FailedRetryPolicy → ℕ → List Event → FailedRetries → ℕ
transactions policy id [] r = 0
transactions policy id (e ∷ es) r =
    let (r', n) = on_event policy e r in
    let rest = transactions policy id es r' in if concerns id e then n + rest else rest
