-- ===== src/Ack/Lossless/Persist.antt =====
-- The cursor that message-relayer/src/ack/mod.rs stores leaves nothing behind that is not settled.
use asc_message_relayer.Prelude.{
  ℕ, ◌≤◌, ◌≡◌, Bool, true, false, Option, none, some, List, arith, Bool-cases, Option-cases, inl,
  inr, contains,
}
use asc_message_relayer.Prelude.Map.{lookup, AllEntries-lookup}
use asc_message_relayer.Pending.{PendingTx, oldest_block, oldest_pending_block}
use asc_message_relayer.Pending.Tracks.{Reaches, oldest_block-Reaches}
use asc_message_relayer.Ack.{AckState, DeliveryEvent}
use asc_message_relayer.Ack.Worker.{persist, held_back}
use asc_message_relayer.Ack.Lossless.{Destination, Safe, Stored, Anchor}

held_back-le : (last : ℕ) (oldest : Option ℕ) → held_back last oldest ≤ last
held_back-le last none = omega arith
held_back-le last (some b) = omega arith

-- No entry is at or before a held-back cursor.
held_back-below :
    (last : ℕ) (oldest : Option ℕ) (e : PendingTx DeliveryEvent) (block : ℕ)
    → e.block ≡ block
    → 1 ≤ e.block
    → Reaches oldest e
    → block ≤ held_back last oldest
    → ⊥
held_back-below last none e block q one r h = absurd r
held_back-below last (some b) e block q one r h = omega (arith, q, one, r, h)

module _ (net : Destination) (settled : List ℕ) (s : AckState) (v : Safe net settled s) where
  -- What the held-back cursor leaves behind is settled.
  held_back-Stored :
      Stored net settled (some (held_back s.last_seen (oldest_pending_block s.pending)))
  held_back-Stored tx ev e b h = elim (Bool-cases (contains settled tx)) [
    | inl c ↦ c
    | inr c ↦
        elim (v.covered tx ev e b
          (inl (omega (arith, h, held_back-le s.last_seen (oldest_pending_block s.pending))))) [
            | inr k ↦ k
            | inl t ↦ elim (Option-cases (lookup tx s.pending.seen)) [
              | inl n ↦ let bad : false ≡ true = rw n at t in absurd (cc)
              | inr (f, q) ↦
                  let anchor =
                    AllEntries-lookup (λ tx e. Anchor net tx e.block) tx s.pending.seen v.anchored
                      q in
                  let reach =
                    AllEntries-lookup (λ tx e. Reaches (oldest_block s.pending.seen) e) tx
                      s.pending.seen (oldest_block-Reaches s.pending.seen) q in
                  absurd (
                    held_back-below s.last_seen (oldest_block s.pending.seen) f (net.block_of tx)
                      anchor.0 anchor.1 reach h)
            ]
          ]
  ]

  pub persist-Safe : (written : Bool) → Safe net settled (persist written s)
  persist-Safe true = record {
    anchored = v.anchored;
    covered = v.covered;
    distinct = v.distinct;
    done_settled = v.done_settled;
    stored = held_back-Stored;
  }
  persist-Safe false = v
