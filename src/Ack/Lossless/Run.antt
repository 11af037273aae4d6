-- ===== src/Ack/Lossless/Run.antt =====
-- Ticks and restarts of message-relayer/src/ack/mod.rs, in any order, lose no delivery.
use mathlib.Core.Path.{subst}
use mathlib.Core.List.{append_assoc}
use asc_message_relayer.Prelude.{
  ℕ, ◌-◌, ◌≤◌, ◌≡◌, Bool, true, Option, none, some, List, [], ◌∷◌, ◌++◌, arith, Bool-cases, inl,
  inr, All, contains, is_some, if_both,
}
use asc_message_relayer.Pacing.{deferring}
use asc_message_relayer.Ack.{AckState, DeliveryEvent}
use asc_message_relayer.Ack.Worker.{
  TickInput, Event, ticks, restarts, scan, scanned, tick, start, resume_from, step, run,
}
use asc_message_relayer.Prelude.Map.{lookup}
use asc_message_relayer.Ack.Lossless.{
  Reached, Destination, Safe, Stored, Accounted, Answers, IsWord, Reliable,
}
use asc_message_relayer.Ack.Lossless.Scan.{scan-Safe}
use asc_message_relayer.Ack.Lossless.Persist.{persist-Safe}
use asc_message_relayer.Ack.Lossless.Process.{Safe-more, process-Safe}

module _ (net : Destination) where
  module _ (settled : List ℕ) (s : AckState) (v : Safe net settled s) where
    pub scanned-Safe :
        (i : TickInput)
        → Answers net i.get_logs
        → IsWord i.tip
        → Safe net settled (scanned net.events net.config i s).0
    scanned-Safe i a w =
        let s' = (scan net.events net.config i s).0 in
        let v' = scan-Safe net settled s v i a w in
        if_both {A = AckState × Bool} (λ r. Safe net settled r.0) (scan net.events net.config i s).1
          _ _ (persist-Safe net settled s' v' i.written) v'

    pub tick-Safe :
        (i : TickInput)
        → Answers net i.get_logs
        → IsWord i.tip
        → Safe net
            (settled ++ (tick net.events net.config i s).1)
            (tick net.events net.config i s).0
    unfolding tick
    tick-Safe i a w =
        let p =
          process-Safe net i settled (scanned net.events net.config i s).0 (scanned-Safe i a w) in
        elim (Bool-cases (is_some (deferring i.now s.pacer))) [
          | inl e ↦ rw e (Safe-more net settled [] s v)
          | inr e ↦ rw e (record {
            anchored = p.anchored;
            covered = p.covered;
            distinct = p.distinct;
            done_settled = p.done_settled;
            stored = p.stored;
          })
        ]

  pub start-Safe :
      (settled : List ℕ) (checkpoint : Option ℕ) (head : ℕ)
      → net.config.start_block ≡ some net.begin
      → 1 ≤ net.begin
      → Stored net settled checkpoint
      → Safe net settled (start net.config checkpoint head)
  unfolding start lookup
  start-Safe settled checkpoint head e one h = record {
    anchored = tt;
    covered = λ tx ev em b r. inr (resumed checkpoint h tx ev em b (passed tx r));
    distinct = tt;
    done_settled = λ tx h. absurd (cc);
    stored = h;
  }
    where
      passed :
          (tx : ℕ)
          → Reached net (start net.config checkpoint head) tx
          → net.block_of tx ≤ resume_from net.config checkpoint head
      passed tx (inl le) = le
      passed tx (inr t) = absurd (cc)

      resumed :
          (c : Option ℕ)
          → Stored net settled c
          → (tx : ℕ) (ev : DeliveryEvent) → net.Emits tx ev
          → net.begin ≤ net.block_of tx
          → net.block_of tx ≤ resume_from net.config c head
          → contains settled tx ≡ true
      resumed none h tx ev em b le =
          let le' : net.block_of tx ≤ net.begin - 1 = rw e at le in
          absurd (omega (arith, le', b, one))
      resumed (some c) h tx ev em b le = h tx ev em b (omega (arith, le))

  run-Safe :
      (es : List Event) (settled : List ℕ) (s : AckState)
      → net.config.start_block ≡ some net.begin
      → 1 ≤ net.begin
      → All (Reliable net) es
      → Safe net settled s
      → Safe net (settled ++ (run net.events net.config es s).1) (run net.events net.config es s).0
  unfolding run step
  run-Safe [] settled s e one a v = Safe-more net settled [] s v
  run-Safe (ticks i ∷ es) settled s e one a v =
      let s' = (tick net.events net.config i s).0 in
      let first = (tick net.events net.config i s).1 in
      let rest =
        run-Safe es (settled ++ first) s' e one a.1 (tick-Safe settled s v i a.0.0 a.0.1) in
      subst (λ l. Safe net l (run net.events net.config es s').0)
        (append_assoc settled first (run net.events net.config es s').1) rest
  run-Safe (restarts head ∷ es) settled s e one a v =
      run-Safe es settled (start net.config s.checkpoint head) e one a.1
        (start-Safe settled s.checkpoint head e one v.stored)

  module _ (es : List Event) (head : ℕ) (e : net.config.start_block ≡ some net.begin)
      (one : 1 ≤ net.begin) (a : All (Reliable net) es) where
    safe :
        Safe net
          (run net.events net.config es (start net.config none head)).1
          (run net.events net.config es (start net.config none head)).0
    safe = run-Safe es [] (start net.config none head) e one a (start-Safe [] none head e one tt)

    -- If each answer of eth_getLogs has every log of its range and each log names the block of its
    -- transaction, then after any ticks and restarts of a submitter with a start block above zero,
    -- each delivery event from there up to the cursor is held by the queue, in the metadata of its
    -- transaction, or its transaction was reported as settled.
    pub run-start-Accounted :
        (tx : ℕ) (ev : DeliveryEvent)
        → net.Emits tx ev
        → net.begin ≤ net.block_of tx
        → net.block_of tx ≤ (run net.events net.config es (start net.config none head)).0.last_seen
        → Accounted net
            (run net.events net.config es (start net.config none head)).1
            (run net.events net.config es (start net.config none head)).0
            tx
            ev
    run-start-Accounted tx ev em low high = safe.covered tx ev em low (inl high)

    -- Under the same conditions, each transaction with a delivery event from the start block up to
    -- the cursor in the checkpoint was reported as settled.
    pub run-checkpoint-settled :
        (tx : ℕ) (ev : DeliveryEvent) (c : ℕ)
        → net.Emits tx ev
        → net.begin ≤ net.block_of tx
        → (run net.events net.config es (start net.config none head)).0.checkpoint ≡ some c
        → net.block_of tx ≤ c
        → contains (run net.events net.config es (start net.config none head)).1 tx ≡ true
    run-checkpoint-settled tx ev c em low q high =
        let stored : Stored net (run net.events net.config es (start net.config none head)).1
            (some c) =
          subst (Stored net (run net.events net.config es (start net.config none head)).1) q
            safe.stored in
        stored tx ev em low high
