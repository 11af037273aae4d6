-- ===== src/Ack/Lossless.antt =====
-- No delivery is lost by the submitter of message-relayer/src/ack/mod.rs: what holds of its state.
pub mod Scan
pub mod Persist
pub mod Process
pub mod Run
use mathlib.Core.Path.{subst}
use mathlib.Core.List.{append_assoc}
use asc_message_relayer.Prelude.{
  ℕ, suc, ◌+◌, ◌-◌, ◌≤◌, ◌<◌, ◌≡◌, ◌⊎◌, ◌∙◌, sym, ap, refl, Bool, true, false, ◌||◌, Option, none,
  some, List, [], ◌∷◌, ◌++◌, ◌==◌, leb, min, if◌then◌else◌, arith, Bool-cases, Option-cases, inl,
  inr, All, contains, contains-append, ==_refl, is_some, u64_max, if_both,
}
use asc_message_relayer.Prelude.Map.{Map, lookup, AllEntries, Distinct}
use asc_message_relayer.Pending.{
  PendingTx, PendingTxs, tracks, was_seen, insert_seen, oldest_block, oldest_pending_block, update,
  defer, record_transient_failure, remove_tx, ready, failed_once,
}
use asc_message_relayer.Pending.Tracks.{
  Reaches, oldest_block-Reaches, was_seen-insert, tracks-update, AllEntries-update, contains-remove,
}
use asc_message_relayer.Pacing.{deferring}
use asc_message_relayer.Ack.{
  InboxEvents, RpcLog, AckConfig, AckState, Decoded, DeliveryEvent, discover_delivered, observe_all,
  decode_range, decode_delivery_log, cursor_after, first_block, last_block, admit, decode_answer,
  max_acks_per_tick,
}
use asc_message_relayer.Ack.Holding.{Holds}
use asc_message_relayer.Ack.Discovery.{
  AnyOf, Mined, Shows, Placed, decode_range-Placed, decode_range-finds,
}
use asc_message_relayer.Ack.Settled.{Handled, is_done, is_tracked, is_held, HeldBy, Within}
use asc_message_relayer.Ack.Scanned.{Scanned, observe_all-Scanned}
use asc_message_relayer.Ack.Worker.{
  AckOutcome, acknowledged, terminal, not_ready, rejected, failed, work_on, TickInput, Event, ticks,
  restarts, apply_result, apply_results, process_pending, persist, held_back, scan, scanned, tick,
  start, resume_from, starting_block, step, run, finish, postpone, or_zero,
}

-- A block number has 64 bits.
abbrev pub IsWord : Option ℕ → Type 0
IsWord none = Unit {0}
IsWord (some tip) = tip ≤ u64_max

-- The route and its destination chain: the block of each transaction, the delivery events in each,
-- and where the scans are to begin.
pub record Destination : Type 1 where
  pub events : InboxEvents
  pub config : AckConfig
  pub block_of : ℕ → ℕ
  pub Emits : ℕ → DeliveryEvent → Type 0
  pub begin : ℕ

abbrev pub Anchor : Destination → ℕ → ℕ → Type 0
Anchor net tx block = (block ≡ net.block_of tx) × (1 ≤ block)

-- The queue has the event, or the transaction was reported as settled.
abbrev pub Accounted : Destination → List ℕ → AckState → ℕ → DeliveryEvent → Type 0
Accounted net settled s tx ev = Holds s.pending tx ev ⊎ (contains settled tx ≡ true)

-- The cursor has passed the block of a transaction, or the queue has an entry for it.
abbrev pub Reached : Destination → AckState → ℕ → Type 0
Reached net s tx = (net.block_of tx ≤ s.last_seen) ⊎ (tracks tx s.pending ≡ true)

-- All deliveries up to a stored cursor are settled.
abbrev pub Stored : Destination → List ℕ → Option ℕ → Type 0
Stored net settled none = Unit
Stored net settled (some c) =
    (tx : ℕ) (ev : DeliveryEvent)
    → net.Emits tx ev
    → net.begin ≤ net.block_of tx
    → net.block_of tx ≤ c
    → contains settled tx ≡ true

pub record Safe (net : Destination) (settled : List ℕ) (s : AckState) : Type 0 where
  pub anchored : AllEntries (λ tx e. Anchor net tx e.block) s.pending.seen
  pub covered :
      (tx : ℕ) (ev : DeliveryEvent)
      → net.Emits tx ev
      → net.begin ≤ net.block_of tx
      → Reached net s tx
      → Accounted net settled s tx ev
  pub distinct : Distinct s.pending.seen
  pub done_settled : (tx : ℕ) → was_seen tx s.done ≡ true → contains settled tx ≡ true
  pub stored : Stored net settled s.checkpoint

-- What an answer of `eth_getLogs` is relied on for: each log is in the block of its transaction,
-- and no delivery event in the range is missing.
pub record Answers (net : Destination) (get_logs : ℕ → ℕ → Option (List RpcLog)) : Type 0 where
  pub in_place :
      (from to : ℕ) (logs : List RpcLog)
      → get_logs from to ≡ some logs
      → All (Mined net.block_of) logs
  pub complete :
      (from to tx : ℕ) (ev : DeliveryEvent) (logs : List RpcLog)
      → get_logs from to ≡ some logs
      → net.Emits tx ev
      → from ≤ net.block_of tx
      → net.block_of tx ≤ to
      → AnyOf (Shows net.events tx ev) logs

-- What is relied on of each tick; nothing of a restart.
abbrev pub Reliable : Destination → Event → Type 0
Reliable net (ticks i) = Answers net i.get_logs × IsWord i.tip
Reliable net (restarts head) = Unit
