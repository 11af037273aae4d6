-- ===== src/Ack/Lossless/Process.antt =====
-- The outcomes that message-relayer/src/ack/mod.rs applies lose no delivery.
use mathlib.Core.Path.{subst}
use mathlib.Core.List.{append_assoc}
use asc_message_relayer.Prelude.{
  ℕ, ◌≡◌, ◌∙◌, sym, ap, refl, true, ◌||◌, Option, none, some, List, [], ◌∷◌, ◌++◌, ◌==◌, arith,
  Bool-cases, Option-cases, inl, inr, contains, contains-append,
}
use asc_message_relayer.Prelude.Map.{
  lookup, AllEntries, AllEntries-remove, Distinct, Distinct-remove,
}
use asc_message_relayer.Pending.{
  PendingTx, PendingTxs, tracks, any_equal, update, defer, record_transient_failure, ready,
  failed_once,
}
use asc_message_relayer.Pending.Tracks.{
  tracks-update, contains-remove, Distinct-update, was_seen-insert, AllEntries-update,
}
use asc_message_relayer.Ack.Holding.{Holds, Holds-update, Holds-remove}
use asc_message_relayer.Ack.{same_event, AckState, DeliveryEvent, max_acks_per_tick}
use asc_message_relayer.Ack.Worker.{
  AckOutcome, acknowledged, terminal, not_ready, rejected, failed, work_on, TickInput, apply_result,
  apply_results, process_pending, finish,
}
use asc_message_relayer.Ack.Lossless.{Reached, Destination, Safe, Stored, Anchor}

pub contains-++ :
    (xs ys : List ℕ) (a : ℕ) → contains (xs ++ ys) a ≡ (contains xs a || contains ys a)
contains-++ [] ys a = refl
contains-++ (x ∷ xs) ys a = ground (arith, contains-++ xs ys a)

module _ (net : Destination) where
  -- More transactions settled.
  pub Safe-more :
      (settled more : List ℕ) (s : AckState) → Safe net settled s → Safe net (settled ++ more) s
  Safe-more settled more s v = record {
    anchored = v.anchored;
    covered =
        λ tx ev e b h. elim (v.covered tx ev e b h) [ inl t ↦ inl t | inr c ↦ inr (still tx c) ];
    distinct = v.distinct;
    done_settled = λ tx h. still tx (v.done_settled tx h);
    stored = Stored-more s.checkpoint v.stored;
  }
    where
      still : (tx : ℕ) → contains settled tx ≡ true → contains (settled ++ more) tx ≡ true
      still tx c = ground (arith, contains-++ settled more tx, c)

      Stored-more : (c : Option ℕ) → Stored net settled c → Stored net (settled ++ more) c
      Stored-more none h = tt
      Stored-more (some c) h =
          λ tx ev e b le. ground (arith, contains-++ settled more tx, h tx ev e b le)

  module _ (settled : List ℕ) (s : AckState) (v : Safe net settled s) where
    -- A queue with the same hashes and blocks.
    same-Safe :
        (p : PendingTxs DeliveryEvent)
        → ((tx : ℕ) (ev : DeliveryEvent) → Holds s.pending tx ev → Holds p tx ev)
        → ((tx : ℕ) → tracks tx p ≡ tracks tx s.pending)
        → Distinct p.seen
        → AllEntries (λ tx e. Anchor net tx e.block) p.seen
        → Safe net (settled ++ []) (record s { pending = p })
    same-Safe p t k d a =
        Safe-more settled [] (record s { pending = p })
          (record {
            anchored = a;
            covered = λ tx ev e b h. elim (v.covered tx ev e b (reached tx h)) [
              | inl k ↦ inl (t tx ev k)
              | inr k ↦ inr k
            ];
            distinct = d;
            done_settled = v.done_settled;
            stored = v.stored;
          })
      where
        reached : (tx : ℕ) → Reached net (record s { pending = p }) tx → Reached net s tx
        reached tx (inl le) = inl le
        reached tx (inr r) = inr (sym (k tx) ∙ r)

    update-Safe :
        (tx : ℕ) (f : PendingTx DeliveryEvent → PendingTx DeliveryEvent)
        → ((e : PendingTx DeliveryEvent) → ((f e).block ≡ e.block) × ((f e).meta ≡ e.meta))
        → Safe net (settled ++ []) (record s { pending = update tx f s.pending })
    update-Safe tx f same =
        same-Safe (update tx f s.pending)
          (λ k ev.
            Holds-update k tx ev f s.pending
              (λ e q. ap (λ m. any_equal same_event m ev) (same e).1 ∙ q))
          (λ k. tracks-update k tx f s.pending) (Distinct-update tx f s.pending v.distinct)
          (AllEntries-update (λ k e. Anchor net k e.block) tx f s.pending
            (λ k e h. ((same e).0 ∙ h.0, omega (arith, (same e).0, h.1))) v.anchored)

    finish-Safe : (tx : ℕ) → Safe net (settled ++ tx ∷ []) (finish tx s)
    finish-Safe tx = record {
      anchored = AllEntries-remove (λ k e. Anchor net k e.block) tx s.pending.seen v.anchored;
      covered = λ k ev e b h. elim (Bool-cases (tx == k)) [
        | inl same ↦ inr (ground (arith, contains-append settled tx k, same))
        | inr other ↦ elim (v.covered k ev e b (reached k h)) [
          | inl t ↦ inl (Holds-remove tx k ev s.pending other t)
          | inr c ↦ inr (ground (arith, contains-append settled tx k, c))
        ]
      ];
      distinct = Distinct-remove tx s.pending.seen v.distinct;
      done_settled = λ k h.
          ground
            (arith, contains-append settled tx k, was_seen-insert k tx s.done h, v.done_settled k);
      stored = (Safe-more settled (tx ∷ []) s v).stored;
    }
      where
        reached : (k : ℕ) → Reached net (finish tx s) k → Reached net s k
        reached k (inl le) = inl le
        reached k (inr r) = inr (ground (arith, contains-remove k tx s.pending.seen, r))

    transient-Safe :
        (tx now : ℕ)
        → Safe net
            (settled ++ [])
            (record s { pending = (record_transient_failure tx now s.pending).0 })
    unfolding record_transient_failure
    transient-Safe tx now = elim (Option-cases (lookup tx s.pending.seen)) [
      | inl n ↦ rw (n, record_transient_failure) (Safe-more settled [] s v)
      | inr (e, q) ↦
          rw (q, record_transient_failure) (update-Safe tx (failed_once now) (λ e. (refl, refl)))
    ]

    apply_result-Safe :
        (now tx : ℕ) (outcome : AckOutcome)
        → Safe net
            (settled ++ (apply_result net.config now tx outcome s).1)
            (apply_result net.config now tx outcome s).0
    unfolding apply_result defer
    apply_result-Safe now tx acknowledged = finish-Safe tx
    apply_result-Safe now tx terminal = finish-Safe tx
    apply_result-Safe now tx not_ready =
        update-Safe tx (λ e. record e { next_attempt_at = _ }) (λ e. (refl, refl))
    apply_result-Safe now tx rejected =
        update-Safe tx (λ e. record e { next_attempt_at = _ }) (λ e. (refl, refl))
    apply_result-Safe now tx failed = transient-Safe tx now

  apply_results-Safe :
      (now : ℕ) (results : List (ℕ × AckOutcome)) (settled : List ℕ) (s : AckState)
      → Safe net settled s
      → Safe net
          (settled ++ (apply_results net.config now results s).1)
          (apply_results net.config now results s).0
  unfolding apply_results
  apply_results-Safe now [] settled s v = Safe-more settled [] s v
  apply_results-Safe now ((tx, outcome) ∷ results) settled s v =
      let s' = (apply_result net.config now tx outcome s).0 in
      let first = (apply_result net.config now tx outcome s).1 in
      let rest =
        apply_results-Safe now results (settled ++ first) s'
          (apply_result-Safe settled s v now tx outcome) in
      subst (λ l. Safe net l (apply_results net.config now results s').0)
        (append_assoc settled first (apply_results net.config now results s').1) rest

  work_on-Safe :
      (i : TickInput) (jobs : List (ℕ × List DeliveryEvent)) (settled : List ℕ) (s : AckState)
      → Safe net settled s
      → Safe net (settled ++ (work_on net.config i jobs s).1) (work_on net.config i jobs s).0
  work_on-Safe i [] settled s v = Safe-more settled [] s v
  work_on-Safe i (job ∷ jobs) settled s v =
      apply_results-Safe i.settled_at (i.settle (job ∷ jobs)) settled s v

  pub process-Safe :
      (i : TickInput) (settled : List ℕ) (s : AckState)
      → Safe net settled s
      → Safe net (settled ++ (process_pending net.config i s).1) (process_pending net.config i s).0
  unfolding process_pending
  process-Safe i settled s v = work_on-Safe i (ready max_acks_per_tick i.now s.pending) settled s v
