-- ===== src/Ack/Lossless/Scan.antt =====
-- A scan of message-relayer/src/ack/mod.rs, and the cursor that it leaves, pass over no delivery.
use asc_message_relayer.Prelude.{
  ℕ, suc, ◌+◌, ◌-◌, ◌≤◌, ◌<◌, ◌≡◌, ◌⊎◌, ap, refl, Bool, true, false, Option, none, some, List, [],
  ◌∷◌, leb, arith, Bool-cases, Option-cases, inl, inr, All, contains, if_both,
}
use asc_message_relayer.Prelude.Map.{lookup, Map, AllEntries, AllEntries-mono, AllEntries-lookup}
use asc_message_relayer.Pending.{PendingTx, PendingTxs, tracks}
use asc_message_relayer.Pending.Tracks.{AllEntries-tracked}
use asc_message_relayer.Ack.{
  RpcLog, AckState, Decoded, DeliveryEvent, discover_delivered, decode_range, cursor_after,
  first_block, last_block, admit,
}
use mathlib.Core.Path.{subst}
use asc_message_relayer.Ack.Holding.{Holds}
use asc_message_relayer.Ack.Discovery.{
  AnyOf, IsDecoded, Placed, decode_range-Placed, decode_range-finds,
}
use asc_message_relayer.Ack.Settled.{Handled, is_done, is_tracked, is_held, HeldBy, Within}
use asc_message_relayer.Ack.Scanned.{observe_all-Scanned}
use asc_message_relayer.Ack.Worker.{TickInput, scan}
use asc_message_relayer.Ack.Lossless.{Destination, Safe, Answers, Anchor, IsWord}

cursor-Within :
    (first : Option ℕ) (last from to : ℕ)
    → from ≡ last + 1
    → suc last ≤ to
    → Within from to first
    → (last ≤ cursor_after first to) × (cursor_after first to ≤ to)
cursor-Within none last from to e le h = omega (arith, le)
cursor-Within (some f) last from to e le h = omega (arith, h.0, h.1, e)

held-above :
    (first : Option ℕ) (block to : ℕ)
    → 1 ≤ block
    → HeldBy block first
    → cursor_after first to < block
held-above none block to one h = absurd h
held-above (some f) block to one h = omega (arith, one, h)

module _ (net : Destination) where
  module _ (settled : List ℕ) (seen_at : ℕ → ℕ) (from to : ℕ) (s : AckState)
      (v : Safe net settled s) (at : from ≡ first_block s) (le : suc s.last_seen ≤ to) where
    found-Accounted :
        (p : PendingTxs DeliveryEvent) (first : Option ℕ) (ds : List Decoded) (tx : ℕ)
        (ev : DeliveryEvent)
        → All (Placed net.block_of from to) ds
        → All (λ d. Handled s.done d.tx_hash d.event d.block p first) ds
        → AnyOf (IsDecoded tx ev) ds
        → (net.block_of tx ≤ cursor_after first to) ⊎ (tracks tx p ≡ true)
        → Holds p tx ev ⊎ (contains settled tx ≡ true)
    found-Accounted p first [] tx ev pl h a le = absurd a
    found-Accounted p first (d ∷ ds) tx ev pl h (inl e) r = elim h.0 [
      | is_done q ↦ inr (v.done_settled tx (rw e.0 at q))
      | is_tracked q ↦ inl (subst (Holds p tx) e.1 (rw e.0 at q))
      | is_held q shut out ↦ elim r [
        | inl le ↦
            let above = held-above first d.block to (omega (arith, pl.0.1, at)) q in
            absurd (omega (arith, above, le, pl.0.0, ap net.block_of e.0))
        | inr t ↦ let gone : tracks tx p ≡ false = rw e.0 at out in absurd (cc)
      ]
    ]
    found-Accounted p first (d ∷ ds) tx ev pl h (inr a) le =
        found-Accounted p first ds tx ev pl.1 h.1 a le

    -- An entry was there before, or is of a block of the range.
    abbrev Known : ℕ → ℕ → Type 0
    Known tx block =
        Anchor net tx block × ((tracks tx s.pending ≡ true) ⊎ ((from ≤ block) × (block ≤ to)))

    Placed-Known :
        (ds : List Decoded)
        → All (Placed net.block_of from to) ds
        → All (λ d. Known d.tx_hash d.block × (from ≤ d.block) × (d.block ≤ to)) ds
    Placed-Known [] pl = tt
    Placed-Known (d ∷ ds) pl = (
      (((pl.0.0, omega (arith, pl.0.1, at)), inr (pl.0.1, pl.0.2)), pl.0.1, pl.0.2),
      Placed-Known ds pl.1,
    )

    before-Known :
        (m : Map (PendingTx DeliveryEvent))
        → AllEntries (λ tx e. Anchor net tx e.block) m
        → AllEntries (λ tx e. tracks tx s.pending ≡ true) m
        → AllEntries (λ tx e. Known tx e.block) m
    before-Known [] a t = tt
    before-Known ((tx, e) ∷ m) a t = ((a.0, inl t.0), before-Known m a.1 t.1)

    -- A new entry is of a block of the range.
    entered-le :
        (p : PendingTxs DeliveryEvent) (tx : ℕ)
        → AllEntries (λ tx e. Known tx e.block) p.seen
        → tracks tx s.pending ≡ false
        → tracks tx p ≡ true
        → net.block_of tx ≤ to
    entered-le p tx a old new = elim (Option-cases (lookup tx p.seen)) [
      | inl n ↦ let bad : false ≡ true = rw n at new in absurd (cc)
      | inr (e, q) ↦
          let known = AllEntries-lookup (λ tx e. Known tx e.block) tx p.seen a q in
          elim known.1 [ inl t ↦ absurd (cc) | inr place ↦ omega (arith, place.1, known.0.0) ]
    ]

    admit-Safe :
        (ds : List Decoded)
        → All (Placed net.block_of from to) ds
        → ((tx : ℕ) (ev : DeliveryEvent)
            → net.Emits tx ev
            → from ≤ net.block_of tx
            → net.block_of tx ≤ to
            → AnyOf (IsDecoded tx ev) ds)
        → Safe net settled (admit seen_at to (some ds) s).0
    admit-Safe ds placed finds =
        let o =
          observe_all-Scanned Known from to seen_at s.done ds s.pending none
            (Placed-Known ds placed) in
        let entries =
          o.entries (before-Known s.pending.seen v.anchored (AllEntries-tracked s.pending.seen)) in
        let up = (cursor-Within _ s.last_seen from to at le (o.within tt)).1 in
        record {
          anchored =
              AllEntries-mono (λ tx e. Known tx e.block) (λ tx e. Anchor net tx e.block) _
                (λ tx e k. k.0) entries;
          covered = λ tx ev e b r. elim (Bool-cases (tracks tx s.pending)) [
            | inl old ↦ elim (v.covered tx ev e b (inr old)) [
              | inl t ↦ inl (o.still_tracked tx ev t)
              | inr k ↦ inr k
            ]
            | inr absent ↦ elim (Bool-cases (leb (net.block_of tx) s.last_seen)) [
              | inl old ↦ elim (v.covered tx ev e b (inl (ground (arith, old)))) [
                | inl t ↦ inl (o.still_tracked tx ev t)
                | inr k ↦ inr k
              ]
              | inr new ↦
                  let inside : from ≤ net.block_of tx = ground (arith, new, at) in
                  let low_enough : net.block_of tx ≤ to = elim r [
                    | inl h ↦ omega (arith, h, up)
                    | inr t ↦
                        entered-le (admit seen_at to (some ds) s).0.pending tx entries absent t
                  ] in
                  found-Accounted _ _ ds tx ev placed o.handled (finds tx ev e inside low_enough) r
            ]
          ];
          distinct = o.distinct v.distinct;
          done_settled = v.done_settled;
          stored = v.stored;
        }

  module _ (settled : List ℕ) (s : AckState) (v : Safe net settled s) where
    discover-Safe :
        (seen_at : ℕ → ℕ) (tip : Option ℕ) (get_logs : ℕ → ℕ → Option (List RpcLog))
        → Answers net get_logs
        → IsWord tip
        → Safe net settled (discover_delivered net.events net.config seen_at tip get_logs s).0
    unfolding discover_delivered
    discover-Safe seen_at none get_logs a w = v
    discover-Safe seen_at (some tip) get_logs a w =
        let from = first_block s in
        let to = last_block (tip - net.config.confirmation_depth) s in
        elim (Bool-cases (leb (tip - net.config.confirmation_depth) s.last_seen)) [
          | inl e ↦ rw e v
          | inr e ↦ rw e (elim (Option-cases (get_logs from to)) [
            | inl n ↦ rw n v
            | inr (logs, q) ↦
                rw q (elim (Option-cases (decode_range net.events net.config.inbox from to logs)) [
                  | inl n ↦ rw n v
                  | inr (ds, r) ↦ rw r (
                      admit-Safe settled seen_at from to s v refl (ground (arith, e, w)) ds
                        (decode_range-Placed net.events net.config.inbox from to net.block_of logs
                          (a.in_place from to logs q) r)
                        (λ tx ev em low high.
                          decode_range-finds net.events net.config.inbox from to net.block_of tx ev
                            logs (a.complete from to tx ev logs q em low high) r))
                ])
          ])
        ]

    pub scan-Safe :
        (i : TickInput)
        → Answers net i.get_logs
        → IsWord i.tip
        → Safe net settled (scan net.events net.config i s).0
    unfolding scan
    scan-Safe i a w =
        if_both {A = AckState × Bool} (λ r. Safe net settled r.0) i.connected _ _
          (discover-Safe i.seen_at i.tip i.get_logs a w) v
