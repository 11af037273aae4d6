-- ===== src/Ack/Worker.antt =====
-- The loop of the acknowledgement submitter: the rest of `run` and `process_pending` of
-- message-relayer/src/ack/mod.rs.
use asc_message_relayer.Prelude.{
  ℕ, ◌+◌, ◌-◌, Bool, true, false, Option, none, some, List, [], ◌∷◌, ◌++◌, min, if◌then◌else◌,
  is_some,
}
use asc_message_relayer.Pacing.{after, deferring, fresh}
use asc_message_relayer.Pending.{
  new, nothing_seen, age, insert_seen, remove_tx, defer, record_transient_failure, ready,
  next_delay, oldest_pending_block, transient_backoff_max,
}
use asc_message_relayer.Ack.{
  InboxEvents, RpcLog, AckConfig, AckState, DeliveryEvent, max_pending_acks, max_done_tracked,
  max_acks_per_tick, discover_delivered,
}

-- `AckOutcome`, with the error of the attempt as `failed`.
pub data AckOutcome : Type 0 where
  acknowledged not_ready rejected terminal failed : AckOutcome

-- `unwrap_or_default`.
abbrev pub or_zero : Option ℕ → ℕ
or_zero none = 0
or_zero (some n) = n

abbrev pub postpone : ℕ → ℕ → AckState → AckState
postpone tx until s = record s { pending = defer tx until s.pending }

abbrev pub finish : ℕ → AckState → AckState
finish tx s = record s { pending = remove_tx tx s.pending; done = insert_seen tx s.done }

-- One result, and the hashes that it reports as settled.
unfoldable pub apply_result : AckConfig → ℕ → ℕ → AckOutcome → AckState → AckState × List ℕ
apply_result cfg now tx acknowledged s = (finish tx s, tx ∷ [])
apply_result cfg now tx terminal s = (finish tx s, tx ∷ [])
apply_result cfg now tx not_ready s =
    (postpone tx (now + next_delay cfg.policy (or_zero (age tx now s.pending))) s, [])
apply_result cfg now tx rejected s = (postpone tx (now + transient_backoff_max) s, [])
apply_result cfg now tx failed s =
    (record s { pending = (record_transient_failure tx now s.pending).0 }, [])

unfoldable pub apply_results : AckConfig → ℕ → List (ℕ × AckOutcome) → AckState → AckState × List ℕ
apply_results cfg now [] s = (s, [])
apply_results cfg now ((tx, outcome) ∷ results) s =
    let (s', first) = apply_result cfg now tx outcome s in
    let (s'', rest) = apply_results cfg now results s' in (s'', first ++ rest)

-- What a tick gets from outside: the instants and what the RPCs answer. `connected` is whether the
-- destination could be dialled, `settle` the results of a batch in the order in which they come.
pub record TickInput : Type 0 where
  pub now : ℕ
  pub connected : Bool
  pub tip : Option ℕ
  pub get_logs : ℕ → ℕ → Option (List RpcLog)
  pub seen_at : ℕ → ℕ
  pub rate_limited : Bool
  pub written : Bool
  pub settle : List (ℕ × List DeliveryEvent) → List (ℕ × AckOutcome)
  pub settled_at : ℕ

-- A batch that is not empty is worked on.
abbrev pub work_on :
    AckConfig → TickInput → List (ℕ × List DeliveryEvent) → AckState → AckState × List ℕ
work_on cfg i [] s = (s, [])
work_on cfg i (job ∷ jobs) s = apply_results cfg i.settled_at (i.settle (job ∷ jobs)) s

unfoldable pub process_pending : AckConfig → TickInput → AckState → AckState × List ℕ
process_pending cfg i s = work_on cfg i (ready max_acks_per_tick i.now s.pending) s

-- `map_or` of the oldest pending block.
abbrev pub held_back : ℕ → Option ℕ → ℕ
held_back last_seen none = last_seen
held_back last_seen (some block) = min last_seen (block - 1)

-- What is done with the scan before the pending transactions: the checkpoint.
abbrev pub persist : Bool → AckState → AckState
persist true s = record s {
  checkpoint = some (held_back s.last_seen (oldest_pending_block s.pending));
}
persist false s = s

unfoldable pub scan : InboxEvents → AckConfig → TickInput → AckState → AckState × Bool
scan x cfg i s =
    if i.connected then discover_delivered x cfg i.seen_at i.tip i.get_logs s else (s, false)

-- A failed scan may be a rate limit.
abbrev pub scanned : InboxEvents → AckConfig → TickInput → AckState → AckState × Bool
scanned x cfg i s =
    let (s', succeeded) = scan x cfg i s in
    if succeeded then (persist i.written s', false) else (s', i.rate_limited)

unfoldable pub tick : InboxEvents → AckConfig → TickInput → AckState → AckState × List ℕ
tick x cfg i s =
    let (s', limited) = scanned x cfg i s in
    let (s'', settled) = process_pending cfg i s' in
    if is_some (deferring i.now s.pacer)
    then (s, [])
    else (record s'' { pacer = after limited i.settled_at s''.pacer }, settled)

abbrev pub starting_block : Option ℕ → ℕ → ℕ
starting_block none head = head
starting_block (some start) head = start - 1

-- Where a new process resumes. `head` is the head of the chain at that time.
abbrev pub resume_from : AckConfig → Option ℕ → ℕ → ℕ
resume_from cfg none head = starting_block cfg.start_block head
resume_from cfg (some block) head = block - cfg.scan_lookback_blocks

-- The memory of a new process, with the checkpoint that it finds.
unfoldable pub start : AckConfig → Option ℕ → ℕ → AckState
start cfg checkpoint head = record {
  last_seen = resume_from cfg checkpoint head;
  pending = new max_pending_acks;
  done = nothing_seen max_done_tracked;
  pacer = fresh;
  checkpoint = checkpoint;
}

-- A tick, or a crash after which the process starts again.
pub data Event : Type 0 where
  ticks : TickInput → Event
  restarts : ℕ → Event

unfoldable pub step : InboxEvents → AckConfig → Event → AckState → AckState × List ℕ
step x cfg (ticks i) s = tick x cfg i s
step x cfg (restarts head) s = (start cfg s.checkpoint head, [])

-- The state in the end, and all that was reported as settled.
unfoldable pub run : InboxEvents → AckConfig → List Event → AckState → AckState × List ℕ
run x cfg [] s = (s, [])
run x cfg (e ∷ es) s =
    let (s', first) = step x cfg e s in let (s'', rest) = run x cfg es s' in (s'', first ++ rest)
