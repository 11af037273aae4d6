-- ===== src/Ack/EndToEnd.antt =====
-- From the cursor of message-relayer/src/ack/mod.rs back to the attempts that settled each delivery.
use mathlib.Core.Path.{subst}
use asc_message_relayer.Prelude.{◌⊎◌}
use asc_message_relayer.Prelude.{
  ℕ, ◌≤◌, ◌≡◌, sym, ap, true, false, none, some, List, [], ◌∷◌, arith, Bool-cases, inl, inr, All,
  contains, is_some,
}
use asc_message_relayer.Pacing.{deferring}
use asc_message_relayer.Prelude.Map.{lookup, Distinct}
use asc_message_relayer.Prelude.{map, ◌∙◌, ◌++◌, refl}
use asc_message_relayer.Pending.{PendingTx, PendingTxs, any_equal, ready}
use asc_message_relayer.Pending.Delays.{Listed, Listed-lookup, ready-Batch}
use asc_message_relayer.Ack.{same_event}
use asc_message_relayer.Ack.Holding.{holds}
use asc_message_relayer.Ack.{DeliveryEvent, AckState, max_acks_per_tick}
use asc_message_relayer.Ack.Worker.{
  AckOutcome, TickInput, Event, ticks, restarts, work_on, process_pending, scanned, tick, start,
  step, run,
}
use asc_message_relayer.Ack.Discovery.{AnyOf}
use asc_message_relayer.Ack.Lossless.{Destination, Reliable, Safe}
use asc_message_relayer.Ack.Lossless.Process.{contains-++}
use asc_message_relayer.Ack.Lossless.Run.{
  run-checkpoint-settled, scanned-Safe, tick-Safe, start-Safe,
}
use asc_message_relayer.Ack.Routes.{Route}
use asc_message_relayer.Ack.Attempt.{SettlementMode, World, acknowledge_tx}
use asc_message_relayer.Ack.Attempt.Justified.{Justified, acknowledge_tx-Justified}
use asc_message_relayer.Ack.Final.{IsFinal, FromAttempt, apply_results-Final, pick}

-- The attempt at the entry of a transaction in a batch, which has the event, gave the transaction
-- up, and what the attempt read justifies it.
pub record Verdict (route : Route) (mode : SettlementMode) (reads : ℕ → World) (tx : ℕ)
    (ev : DeliveryEvent) (batch : List (ℕ × List DeliveryEvent))
    (settle : List (ℕ × List DeliveryEvent) → List (ℕ × AckOutcome)) : Type 0 where
  pub meta : List DeliveryEvent
  pub in_batch : AnyOf {A = ℕ × List DeliveryEvent} (λ j. j ≡ (tx, meta)) batch
  pub mentioned : any_equal same_event meta ev ≡ true
  pub reported : AnyOf (λ r. r ≡ (tx, (acknowledge_tx route mode (reads tx) meta).0)) (settle batch)
  pub final : IsFinal (acknowledge_tx route mode (reads tx) meta).0
  pub justified : Justified route mode (reads tx) meta (acknowledge_tx route mode (reads tx) meta).0

-- The results of a tick are those of attempts at the entries it hands over, in any order, where
-- `reads` says what the attempt at each transaction of the tick reads.
abbrev pub IsHonest : Route → SettlementMode → (TickInput → ℕ → World) → Event → Type 0
IsHonest route mode reads (ticks i) =
    (jobs : List (ℕ × List DeliveryEvent))
    → All (FromAttempt route mode (reads i) jobs) (i.settle jobs)
IsHonest route mode reads (restarts head) = Unit

-- The batch of a tick.
abbrev pub batch_of : Destination → TickInput → AckState → List (ℕ × List DeliveryEvent)
batch_of net i s = ready max_acks_per_tick i.now (scanned net.events net.config i s).0.pending

-- In a run from a state, some tick that is not deferred gives the transaction up.
abbrev pub GivenUp :
    Destination
    → Route
    → SettlementMode
    → (TickInput → ℕ → World)
    → ℕ
    → DeliveryEvent
    → List Event
    → AckState
    → Type 0
GivenUp net route mode reads tx ev [] s = ⊥
GivenUp net route mode reads tx ev (ticks i ∷ es) s =
    ((is_some (deferring i.now s.pacer) ≡ false)
      × Verdict route mode (reads i) tx ev (batch_of net i s) i.settle)
    ⊎ GivenUp net route mode reads tx ev es (tick net.events net.config i s).0
GivenUp net route mode reads tx ev (restarts head ∷ es) s =
    GivenUp net route mode reads tx ev es (start net.config s.checkpoint head)

-- The entry that a job of a batch comes from.
entry_of :
    (p : PendingTxs DeliveryEvent) (now tx : ℕ) (meta : List DeliveryEvent)
    (batch : List (ℕ × PendingTx DeliveryEvent))
    → Distinct p.seen
    → All (λ x. Listed x p.seen × (x.1.next_attempt_at ≤ now)) batch
    → AnyOf {A = ℕ × List DeliveryEvent} (λ j. j ≡ (tx, meta)) (map (λ x. (x.0, x.1.meta)) batch)
    → (e : PendingTx DeliveryEvent) × (lookup tx p.seen ≡ some e) × (e.meta ≡ meta)
entry_of p now tx meta [] d a h = absurd h
entry_of p now tx meta (x ∷ xs) d a (inl q) = (
  x.1,
  subst (λ k. lookup k p.seen ≡ some x.1) (ap (λ j. j.0) q) (Listed-lookup x p.seen d a.0.0),
  ap (λ j. j.1) q,
)
entry_of p now tx meta (x ∷ xs) d a (inr h) = entry_of p now tx meta xs d a.1 h

module _ (net : Destination) (tx : ℕ) (ev : DeliveryEvent) (em : net.Emits tx ev)
    (low : net.begin ≤ net.block_of tx) where
  -- The job of a transaction that is not settled yet has the event.
  ready-mentions :
      (settled : List ℕ) (s : AckState) (now : ℕ) (meta : List DeliveryEvent)
      → Safe net settled s
      → contains settled tx ≡ false
      → AnyOf {A = ℕ × List DeliveryEvent}
          (λ j. j ≡ (tx, meta))
          (ready max_acks_per_tick now s.pending)
      → any_equal same_event meta ev ≡ true
  ready-mentions settled s now meta v new a =
      let (batch, b, is) = ready-Batch max_acks_per_tick now s.pending in
      let (e, q, m) =
        entry_of s.pending now tx meta batch v.distinct b.is_due
          (subst (AnyOf {A = ℕ × List DeliveryEvent} (λ j. j ≡ (tx, meta))) is a) in
      elim (v.covered tx ev em low (inr (ap is_some q))) [
        | inl h ↦ ap (λ l. any_equal same_event l ev) (sym m) ∙ (ap (holds ev) (sym q) ∙ h)
        | inr c ↦ absurd (cc)
      ]

module _ (net : Destination) (route : Route) (mode : SettlementMode) (reads : TickInput → ℕ → World)
    (tx : ℕ) (ev : DeliveryEvent) where
  work_on-Verdict :
      (i : TickInput) (jobs : List (ℕ × List DeliveryEvent)) (s : AckState)
      → IsHonest route mode reads (ticks i)
      → ((meta : List DeliveryEvent)
          → AnyOf {A = ℕ × List DeliveryEvent} (λ j. j ≡ (tx, meta)) jobs
          → any_equal same_event meta ev ≡ true)
      → contains (work_on net.config i jobs s).1 tx ≡ true
      → Verdict route mode (reads i) tx ev jobs i.settle
  work_on-Verdict i [] s h m c = absurd (cc)
  work_on-Verdict i (job ∷ jobs) s h m c =
      let (o, found, f, from) =
        pick route mode (reads i) tx (job ∷ jobs) (i.settle (job ∷ jobs)) (h (job ∷ jobs))
          (apply_results-Final net.config i.settled_at tx (i.settle (job ∷ jobs)) s c) in
      record {
        meta = from.meta;
        in_batch = from.in_batch;
        mentioned = m from.meta from.in_batch;
        reported =
            subst (λ p. AnyOf (λ r. r ≡ (tx, p)) (i.settle (job ∷ jobs))) from.outcome_is found;
        final = subst IsFinal from.outcome_is f;
        justified = acknowledge_tx-Justified route mode (reads i tx) from.meta;
      }

  module _ (em : net.Emits tx ev) (low : net.begin ≤ net.block_of tx) where
    tick-Verdict :
        (i : TickInput) (settled : List ℕ) (s : AckState)
        → Safe net settled s
        → Reliable net (ticks i)
        → IsHonest route mode reads (ticks i)
        → contains settled tx ≡ false
        → contains (tick net.events net.config i s).1 tx ≡ true
        → (is_some (deferring i.now s.pacer) ≡ false)
          × Verdict route mode (reads i) tx ev (batch_of net i s) i.settle
    unfolding tick process_pending
    tick-Verdict i settled s v a h new c = elim (Bool-cases (is_some (deferring i.now s.pacer))) [
      | inl e ↦ let bad : false ≡ true = rw e at c in absurd (cc)
      | inr e ↦
          let s' = (scanned net.events net.config i s).0 in
          (
            e,
            work_on-Verdict i (batch_of net i s) s' h
                (λ meta m.
                  ready-mentions net tx ev em low settled s' i.now meta
                    (scanned-Safe net settled s v i a.0 a.1) new m)
                (rw e at c),
          )
    ]

    run-GivenUp :
        (es : List Event) (settled : List ℕ) (s : AckState)
        → net.config.start_block ≡ some net.begin
        → 1 ≤ net.begin
        → Safe net settled s
        → All (Reliable net) es
        → All (IsHonest route mode reads) es
        → contains settled tx ≡ false
        → contains (run net.events net.config es s).1 tx ≡ true
        → GivenUp net route mode reads tx ev es s
    unfolding run step
    run-GivenUp [] settled s e one v a h new c = absurd (cc)
    run-GivenUp (ticks i ∷ es) settled s e one v a h new c =
        let s' = (tick net.events net.config i s).0 in
        let first = (tick net.events net.config i s).1 in
        elim (Bool-cases (contains first tx)) [
          | inl f ↦ inl (tick-Verdict i settled s v a.0 h.0 new f)
          | inr f ↦
              let rest = (run net.events net.config es s').1 in
              inr (
                run-GivenUp es (settled ++ first) s' e one (tick-Safe net settled s v i a.0.0 a.0.1)
                  a.1 h.1 (ground (arith, contains-++ settled first tx, new, f))
                  (ground (arith, contains-++ first rest tx, c, f)))
        ]
    run-GivenUp (restarts head ∷ es) settled s e one v a h new c =
        run-GivenUp es settled (start net.config s.checkpoint head) e one
          (start-Safe net settled s.checkpoint head e one v.stored) a.1 h.1 new c

  -- If each answer of eth_getLogs has every log of its range and each log names the block of its
  -- transaction, and the results of each tick are those of attempts at entries handed over, given
  -- what each attempt reads, then in any run of ticks and restarts of a submitter with a start
  -- block above zero, for each delivery event from there up to the cursor in the checkpoint, some
  -- tick that is not deferred has in its batch an entry of its transaction with the event, and the
  -- attempt at that entry, given what it reads, is acknowledged or terminal, as these reads
  -- justify.
  pub checkpoint-GivenUp :
      (es : List Event) (head c : ℕ)
      → net.config.start_block ≡ some net.begin
      → 1 ≤ net.begin
      → All (Reliable net) es
      → All (IsHonest route mode reads) es
      → net.Emits tx ev
      → net.begin ≤ net.block_of tx
      → (run net.events net.config es (start net.config none head)).0.checkpoint ≡ some c
      → net.block_of tx ≤ c
      → GivenUp net route mode reads tx ev es (start net.config none head)
  checkpoint-GivenUp es head c e one reliable honest em low q high =
      run-GivenUp em low es [] (start net.config none head) e one
        (start-Safe net [] none head e one tt) reliable honest refl
        (run-checkpoint-settled net es head e one reliable tx ev c em low q high)
