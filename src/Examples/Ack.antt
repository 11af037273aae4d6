-- ===== src/Examples/Ack.antt =====
-- The acknowledgement submitter at a concrete destination: one delivery, in transaction 7 of block
-- 100.
use mathlib.Core.Path.{subst}
use asc_message_relayer.Prelude.{
  ℕ, ◌==◌, ◌≤◌, ◌≡◌, refl, sym, ap, Bool, true, false, Option, none, some, List, [], ◌∷◌, arith,
  inl, inr, if◌then◌else◌, All, contains,
}
use asc_message_relayer.Pacing.{after, deferring}
use asc_message_relayer.Prelude.Map.{lookup, insert, remove}
use asc_message_relayer.Pending.{
  insert_tx, trim, ready, first_due, sort_by_age, insert_by_age, due, defer,
  record_transient_failure, insert_seen, oldest_block, note_meta,
}
use asc_message_relayer.Ack.{
  EventName, message_received, InboxEvents, RpcLog, AckConfig, AckState, DeliveryEvent, outside,
  decode_delivery_log, discover_delivered, decode_range, observe_all, observe,
}
use asc_message_relayer.Ack.Discovery.{AnyOf, Mined, Shows, ShowsEvent}
use asc_message_relayer.Ack.Worker.{
  AckOutcome, acknowledged, TickInput, Event, ticks, restarts, run, start, step, tick, scan,
  process_pending, apply_results, apply_result,
}
use asc_message_relayer.Ack.Routes.{
  OutboxMessage, SourceReads, found, Route, insert_id, validators, validators_loop, validator_for,
}
use asc_message_relayer.Ack.Attempt.{
  World, proof_ready, proof_rejected, sent, mined, ack_and_claim, acknowledgment, claim_delivery,
  acknowledge_tx, ids_of, relay_claimable_ids, settle, fails, classify_submit,
}
use asc_message_relayer.Ack.Attempt.Justified.{Justified, acknowledge_tx-Justified}
use asc_message_relayer.Ack.Lossless.{Destination, Answers, Accounted, Reliable}
use asc_message_relayer.Ack.EndToEnd.{IsHonest, GivenUp, checkpoint-GivenUp}
use asc_message_relayer.Ack.Final.{FromAttempt}
use asc_message_relayer.Ack.Lossless.Run.{run-start-Accounted, run-checkpoint-settled}

abbrev topic : EventName → ℕ
topic message_received = 1
topic EventName.message_queued = 2
topic EventName.message_deferred = 3
topic EventName.message_executed = 4

abbrev events : InboxEvents
events = record { signature = topic; decode = λ name log. some 42 }

abbrev executed : RpcLog
executed = record {
  address = 9;
  removed = false;
  transaction_hash = some 7;
  block_number = some 100;
  topics = 4 ∷ [];
  payload = [];
}

abbrev get_logs : ℕ → ℕ → Option (List RpcLog)
get_logs from to = some (if outside from to 100 then [] else executed ∷ [])

abbrev config : AckConfig
config = record {
  inbox = 9;
  confirmation_depth = 5;
  start_block = some 50;
  scan_lookback_blocks = 10;
  policy = record { poll_interval = 5000; poll_window = 60000 };
}

-- An attempt whose acknowledgement and claim both go through.
abbrev route : Route
route = record {
  source_chain_id = 42;
  destination_chain_key = 2;
  candidates = 5 ∷ [];
  message_id = λ outbox m chain. 42;
}

abbrev published : Bool → OutboxMessage
published acked = record {
  emitter = 7;
  sequence = 11;
  payload_hash = 1;
  can_ack = true;
  acknowledged = acked;
}

abbrev source : Bool → SourceReads
source acked = record {
  get_message = λ outbox id. found (published acked);
  validator = λ outbox. some 8;
  bound_outbox = λ a. some 5;
  bound_destination = λ a. some 2;
}

abbrev world : World
world = record {
  source = source false;
  info = λ id. some (record { payer = 3; relay_settled = false });
  fetch = proof_ready (record { encoded_length = some 900; converts = true });
  submit = λ a. some (sent (mined true));
  claim = λ id. some (sent (mined true));
  source_after = source true;
  info_after = λ id. some (record { payer = 3; relay_settled = true });
}

-- The service refuses the proof.
abbrev refused : World
refused = record world { fetch = proof_rejected }

abbrev all_of : World → List (ℕ × List DeliveryEvent) → List (ℕ × AckOutcome)
all_of w [] = []
all_of w ((tx, meta) ∷ jobs) = (tx, (acknowledge_tx route ack_and_claim w meta).0) ∷ all_of w jobs

abbrev input : ℕ → ℕ → World → TickInput
input now tip w = record {
  now = now;
  connected = true;
  tip = some tip;
  get_logs = get_logs;
  seen_at = λ tx. now;
  rate_limited = false;
  written = true;
  settle = all_of w;
  settled_at = now;
}

-- The proof is refused, the process restarts, finds the delivery again and settles it.
abbrev history : List Event
history =
    ticks (input 1000 200 refused)
    ∷ restarts 300
    ∷ ticks (input 9000 300 world)
    ∷ ticks (input 15000 300 world)
    ∷ []

abbrev executed_42 : DeliveryEvent
executed_42 = record { message_id = 42; executed = true }

abbrev IsSeven : ℕ → DeliveryEvent → Type 0
IsSeven tx ev = (tx ≡ 7) × (ev ≡ executed_42)

abbrev block_of : ℕ → ℕ
block_of tx = 100

abbrev net : Destination
net = record { events = events; config = config; block_of = block_of; Emits = IsSeven; begin = 50 }

shown :
    (b : Bool) {logs : List RpcLog}
    → some (if b then [] else executed ∷ []) ≡ some logs
    → All (Mined block_of) logs
shown true {logs} q = let is : [] ≡ logs = cc in subst (All (Mined block_of)) is tt
shown false {logs} q =
    let mined : Mined block_of executed =
      λ tx block t b. (let is : some 100 ≡ some block = b in cc) in
    let is : executed ∷ [] ≡ logs = cc in subst (All (Mined block_of)) is (mined, tt)

decoded : decode_delivery_log events executed ≡ some (some (EventName.message_executed, 42))
unfolding decode_delivery_log
decoded = refl

finds_seven :
    (from to tx : ℕ) (ev : DeliveryEvent) (logs : List RpcLog)
    → get_logs from to ≡ some logs
    → IsSeven tx ev
    → from ≤ 100
    → 100 ≤ to
    → AnyOf (Shows events tx ev) logs
finds_seven from to tx ev logs q e low high =
    let inside : outside from to 100 ≡ false = ground (arith, low, high) in
    let is : executed ∷ [] ≡ logs =
      (let q' : some (executed ∷ []) ≡ some logs = rw inside at q in cc) in
    subst (AnyOf (Shows events tx ev)) is
      (inl (ap some (sym e.0), subst (ShowsEvent ev) (sym decoded) (sym e.1)))

answers : Answers net get_logs
answers = record {
  in_place = λ from to logs q. shown (outside from to 100) q;
  complete = λ from to tx ev logs q e low high. finds_seven from to tx ev logs q e low high;
}

reliable : All (Reliable net) history
reliable = ((answers, omega arith), (tt, ((answers, omega arith), ((answers, omega arith), tt))))

abbrev ended : AckState
ended = (run events config history (start config none 60)).0

last_seen_is : ended.last_seen ≡ 295
unfolding run step tick scan discover_delivered decode_range decode_delivery_log observe_all observe
    insert_tx trim process_pending ready first_due sort_by_age insert_by_age due apply_results
    apply_result defer record_transient_failure insert_seen lookup insert remove oldest_block after
    deferring start note_meta acknowledge_tx ids_of insert_id validators validators_loop
    validator_for relay_claimable_ids settle fails classify_submit
last_seen_is = refl

checkpoint_is : ended.checkpoint ≡ some 295
unfolding run step tick scan discover_delivered decode_range decode_delivery_log observe_all observe
    insert_tx trim process_pending ready first_due sort_by_age insert_by_age due apply_results
    apply_result defer record_transient_failure insert_seen lookup insert remove oldest_block after
    deferring start note_meta acknowledge_tx ids_of insert_id validators validators_loop
    validator_for relay_claimable_ids settle fails classify_submit
checkpoint_is = refl

run-start-Accounted_example :
    Accounted net
      (run events config history (start config none 60)).1
      (run events config history (start config none 60)).0
      7
      executed_42
run-start-Accounted_example =
    run-start-Accounted net history 60 refl (omega arith) reliable 7 executed_42 (refl, refl)
      (omega arith) (omega (arith, last_seen_is))

run-checkpoint-settled_example :
    contains (run events config history (start config none 60)).1 7 ≡ true
run-checkpoint-settled_example =
    run-checkpoint-settled net history 60 refl (omega arith) reliable 7 executed_42 295 (refl, refl)
      (omega arith) checkpoint_is (omega arith)

abbrev delivered : List DeliveryEvent
delivered =
    record { message_id = 42; executed = true } ∷ record { message_id = 42; executed = false } ∷ []

acknowledge_tx-Justified_example :
    Justified route ack_and_claim world delivered
      (acknowledge_tx route ack_and_claim world delivered).0
acknowledge_tx-Justified_example = acknowledge_tx-Justified route ack_and_claim world delivered

both_submitted :
    acknowledge_tx route ack_and_claim world delivered
    ≡ (acknowledged, acknowledgment 8 ∷ claim_delivery 42 ∷ [])
unfolding acknowledge_tx ids_of insert_id validators validators_loop validator_for
    relay_claimable_ids settle fails classify_submit
both_submitted = refl

-- What the attempts of each tick read: the first is refused.
abbrev reads : TickInput → ℕ → World
reads i tx = if i.now == 1000 then refused else world

from_attempts :
    (w : World) (r : ℕ → World)
    → ((tx : ℕ) → r tx ≡ w)
    → (jobs : List (ℕ × List DeliveryEvent))
    → All (FromAttempt route ack_and_claim r jobs) (all_of w jobs)
from_attempts w r same [] = tt
from_attempts w r same ((tx, meta) ∷ jobs) = (
  record {
    meta = meta;
    in_batch = inl refl;
    outcome_is = ap (λ v. (acknowledge_tx route ack_and_claim v meta).0) (sym (same tx));
  },
  later (all_of w jobs) (from_attempts w r same jobs),
)
  where
    later :
        (rs : List (ℕ × AckOutcome))
        → All (FromAttempt route ack_and_claim r jobs) rs
        → All (FromAttempt route ack_and_claim r ((tx, meta) ∷ jobs)) rs
    later [] a = tt
    later (o ∷ rs) a = (
      record { meta = a.0.meta; in_batch = inr a.0.in_batch; outcome_is = a.0.outcome_is },
      later rs a.1,
    )

honest : All (IsHonest route ack_and_claim reads) history
honest = (
  λ jobs. from_attempts refused (reads (input 1000 200 refused)) (λ tx. refl) jobs,
  (
    tt,
    (
      λ jobs. from_attempts world (reads (input 9000 300 world)) (λ tx. refl) jobs,
      (λ jobs. from_attempts world (reads (input 15000 300 world)) (λ tx. refl) jobs, tt),
    ),
  ),
)

checkpoint-GivenUp_example :
    GivenUp net route ack_and_claim reads 7 executed_42 history (start config none 60)
checkpoint-GivenUp_example =
    checkpoint-GivenUp net route ack_and_claim reads 7 executed_42 history 60 295 refl (omega arith)
      reliable honest (refl, refl) (omega arith) checkpoint_is (omega arith)
