-- ===== src/Delivery/Backoff.antt =====
-- When a delivery or an execution retry is due: `pending_retry_delay` of
-- message-relayer/src/delivery/mod.rs and `delivery_retry_delay` of message-relayer/src/pool/mod.rs.
use asc_message_relayer.Prelude.{
  ℕ, zero, suc, ◌+◌, ◌-◌, ◌*◌, ◌^◌, Option, none, some, ltb, if◌then◌else◌, min,
}
use asc_message_relayer.Types.{secs}

abbrev pub retry_deferred_margin : ℕ
retry_deferred_margin = secs 5

abbrev pub max_retry_deferred_wait : ℕ
max_retry_deferred_wait = secs (6 * 3600)

-- `PENDING_RETRY_DELAYS[attempt.min(2)]`.
abbrev pub fixed_delay : ℕ → ℕ
fixed_delay zero = secs 15
fixed_delay (suc zero) = secs 60
fixed_delay (suc (suc _)) = secs 240

-- `retry_after` and `now` are Unix seconds.
unfoldable pub pending_retry_delay : ℕ → Option ℕ → Option ℕ → ℕ
pending_retry_delay attempt (some ts) (some now) =
    if ltb now ts
    then min (secs (ts - now) + retry_deferred_margin) max_retry_deferred_wait
    else fixed_delay attempt
pending_retry_delay attempt (some ts) none = fixed_delay attempt
pending_retry_delay attempt none now = fixed_delay attempt

abbrev pub delivery_retry_base : ℕ
delivery_retry_base = secs 30

abbrev pub delivery_retry_max : ℕ
delivery_retry_max = secs (5 * 60)

-- `30s << (attempts - 1).min(4)`, capped. The product is below 2^64, so it does not saturate.
unfoldable pub delivery_retry_delay : ℕ → ℕ
delivery_retry_delay attempts = min (secs (30 * 2 ^ min (attempts - 1) 4)) delivery_retry_max
