-- ===== src/Health.antt =====
-- The liveness of the workers: message-relayer/src/health.rs. Names are numbers, and times are Unix
-- milliseconds.
use asc_message_relayer.Prelude.{
  ℕ, ◌+◌, ◌-◌, ◌*◌, Bool, true, false, not, ◌&&◌, Option, none, some, List, [], ◌∷◌, ltb, leb, ◌==◌,
  if◌then◌else◌,
}
use asc_message_relayer.Prelude.Map.{Map, lookup, insert}
use asc_message_relayer.Types.{secs}
pub mod Verdict
pub mod Heard

abbrev pub progress_deadline : ℕ
progress_deadline = secs (6 * 60)

pub record Component : Type 0 where
  pub last_ok : ℕ
  pub last_err : ℕ

pub record Report : Type 0 where
  pub stale : List ℕ
  pub degraded : List ℕ

abbrev pub is_alive : Report → Bool
is_alive r = elim r.stale [ [] ↦ true | _ ∷ _ ↦ false ]

pub record Health : Type 0 where
  pub components : Map Component
  pub deadline_ms : ℕ
  pub last_reported : Report

abbrev pub empty_report : Report
empty_report = record { stale = []; degraded = [] }

abbrev pub new : ℕ → Health
new deadline = record { components = []; deadline_ms = deadline; last_reported = empty_report }

abbrev pub or_default : Option Component → Component
or_default none = record { last_ok = 0; last_err = 0 }
or_default (some c) = c

-- `entry(name).or_default()`, and the change to the entry.
abbrev pub at_entry : ℕ → (Component → Component) → Health → Health
at_entry name f s = record s {
  components = insert name (f (or_default (lookup name s.components))) s.components;
}

unfoldable pub heartbeat : ℕ → ℕ → Health → Health
heartbeat now name s = at_entry name (λ c. record c { last_ok = now }) s

-- A first report that is a failure dates the registration.
abbrev pub failed_at : ℕ → Component → Component
failed_at now c = record { last_ok = if c.last_ok == 0 then now else c.last_ok; last_err = now }

unfoldable pub error : ℕ → ℕ → Health → Health
error now name s = at_entry name (failed_at now) s

abbrev pub ok_overdue : ℕ → ℕ → Component → Bool
ok_overdue deadline now c = ltb deadline (now - c.last_ok)

abbrev pub err_recent : ℕ → ℕ → Component → Bool
err_recent deadline now c = not (c.last_err == 0) && leb (now - c.last_err) deadline

-- A sorted insertion; the source sorts the two lists in the end.
unfoldable pub insert_name : ℕ → List ℕ → List ℕ
insert_name name [] = name ∷ []
insert_name name (n ∷ ns) =
    let rest = insert_name name ns in if leb name n then name ∷ n ∷ ns else n ∷ rest

abbrev pub classified : ℕ → ℕ → ℕ → Component → Report → Report
classified deadline now name c r =
    if not (ok_overdue deadline now c)
    then r
    else if err_recent deadline now c
    then record r { degraded = insert_name name r.degraded }
    else record r { stale = insert_name name r.stale }

unfoldable pub classify : ℕ → ℕ → Map Component → Report
classify deadline now [] = empty_report
classify deadline now ((name, c) ∷ m) = classified deadline now name c (classify deadline now m)

unfoldable pub status : ℕ → Health → Report
status now s = classify s.deadline_ms now s.components

-- `report` without the log lines: the verdict, which is kept for the next.
unfoldable pub report : ℕ → Health → Health × Report
report now s = let current = status now s in (record s { last_reported = current }, current)

-- A report of a worker: the time, the name, and whether the iteration succeeded.
pub record Beat : Type 0 where
  pub time : ℕ
  pub name : ℕ
  pub succeeded : Bool

abbrev pub beat : Beat → Health → Health
beat b s = if b.succeeded then heartbeat b.time b.name s else error b.time b.name s

unfoldable pub beats : List Beat → Health → Health
beats [] s = s
beats (b ∷ bs) s = beats bs (beat b s)
