-- ===== src/Ack/Scanned.antt =====
-- What the loop of message-relayer/src/ack/mod.rs over the decoded logs leaves of a scan.
use asc_message_relayer.Prelude.{false, ℕ, ◌≤◌, ◌≡◌, true, Option, List, [], ◌∷◌, All}
use asc_message_relayer.Prelude.Map.{AllEntries, Distinct}
use asc_message_relayer.Pending.{BoundedSeen, tracks, is_full}
use asc_message_relayer.Ack.{DeliveryEvent, Decoded, observe, observe_all}
use asc_message_relayer.Ack.Holding.{Holds}
use asc_message_relayer.Ack.Settled.{
  Handled, is_done, is_tracked, is_held, HeldBy, Within, Queue, observe-Observed, Observed-Handled,
  Observed-Holds, Observed-HeldBy, Observed-Within, Observed-AllEntries, Observed-shut,
  Observed-Distinct,
}

-- What the loop over the decoded logs of a scan of a range leaves, for any predicate on the hash and
-- block of an entry.
pub record Scanned (P : ℕ → ℕ → Type 0) (from to : ℕ) (done : BoundedSeen) (ds : List Decoded)
    (p : Queue) (first : Option ℕ) (p' : Queue) (first' : Option ℕ) : Type 0 where
  pub handled : All (λ d. Handled done d.tx_hash d.event d.block p' first') ds
  pub still_tracked : (k : ℕ) (ev : DeliveryEvent) → Holds p k ev → Holds p' k ev
  pub still_shut :
      (k : ℕ) → is_full p ≡ true → tracks k p ≡ false → (is_full p' ≡ true) × (tracks k p' ≡ false)
  pub distinct : Distinct p.seen → Distinct p'.seen
  pub still_held : (block : ℕ) → HeldBy block first → HeldBy block first'
  pub within : Within from to first → Within from to first'
  pub entries : AllEntries (λ tx e. P tx e.block) p.seen → AllEntries (λ tx e. P tx e.block) p'.seen

module _ (P : ℕ → ℕ → Type 0) (from to : ℕ) (seen_at : ℕ → ℕ) (done : BoundedSeen) where
  Handled-mono :
      (tx : ℕ) (ev : DeliveryEvent) (block : ℕ) (p : Queue) (first : Option ℕ) (p' : Queue)
      (first' : Option ℕ)
      → ((k : ℕ) (ev : DeliveryEvent) → Holds p k ev → Holds p' k ev)
      → ((k : ℕ)
          → is_full p ≡ true
          → tracks k p ≡ false
          → (is_full p' ≡ true) × (tracks k p' ≡ false))
      → ((b : ℕ) → HeldBy b first → HeldBy b first')
      → Handled done tx ev block p first
      → Handled done tx ev block p' first'
  Handled-mono tx ev block p first p' first' t c h (is_done s) = is_done s
  Handled-mono tx ev block p first p' first' t c h (is_tracked k) = is_tracked (t tx ev k)
  Handled-mono tx ev block p first p' first' t c h (is_held b shut out) =
      is_held (h block b) (c tx shut out).0 (c tx shut out).1

  pub observe_all-Scanned :
      (ds : List Decoded) (p : Queue) (first : Option ℕ)
      → All (λ d. P d.tx_hash d.block × (from ≤ d.block) × (d.block ≤ to)) ds
      → Scanned P from to done ds p first
          (observe_all seen_at done ds (p, first)).0
          (observe_all seen_at done ds (p, first)).1
  unfolding observe_all
  observe_all-Scanned [] p first a = record {
    handled = tt;
    still_tracked = λ k ev h. h;
    still_shut = λ k shut out. (shut, out);
    distinct = λ h. h;
    still_held = λ b h. h;
    within = λ h. h;
    entries = λ h. h;
  }
  observe_all-Scanned (d ∷ ds) p first a =
      let p1 = (observe seen_at done d (p, first)).0 in
      let first1 = (observe seen_at done d (p, first)).1 in
      let o = observe-Observed seen_at done d p first in
      let rest = observe_all-Scanned ds p1 first1 a.1 in
      record {
        handled = (
          Handled-mono d.tx_hash d.event d.block p1 first1 _ _ rest.still_tracked rest.still_shut
              rest.still_held (Observed-Handled done d p first p1 first1 o),
          rest.handled,
        );
        still_tracked =
            λ k ev h. rest.still_tracked k ev (Observed-Holds done d p first p1 first1 k ev o h);
        still_shut = λ k shut out.
            let next = Observed-shut done d p first p1 first1 k o shut out in
            rest.still_shut k next.0 next.1;
        distinct = λ h. rest.distinct (Observed-Distinct done d p first p1 first1 o h);
        still_held = λ b h. rest.still_held b (Observed-HeldBy done d p first p1 first1 b o h);
        within =
            λ h. rest.within (Observed-Within done d p first p1 first1 from to a.0.1 a.0.2 o h);
        entries = λ h. rest.entries (Observed-AllEntries done d p first p1 first1 P a.0.0 o h);
      }
