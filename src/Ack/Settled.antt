-- ===== src/Ack/Settled.antt =====
-- What becomes of the logs that a scan of message-relayer/src/ack/mod.rs decodes: each transaction is
-- tracked, known as done, or holds the cursor back.
use asc_message_relayer.Prelude.{
  false, ℕ, ◌≤◌, ◌≡◌, ap, ◌∙◌, refl, true, Option, none, some, [], ◌∷◌, arith, Bool-cases, inl, inr,
  if_both,
}
use asc_message_relayer.Prelude.Map.{
  insert, AllEntries, Distinct, Distinct-insert, AllEntries-insert,
}
use asc_message_relayer.Pending.{
  PendingTx, PendingTxs, BoundedSeen, tracks, is_full, was_seen, note_meta, fresh, update,
  with_meta, any_equal,
}
use asc_message_relayer.Pending.Tracks.{
  insert_tx-room, with_seen, AllEntries-update, Distinct-update, is_full-update, tracks-update,
}
use asc_message_relayer.Ack.{DeliveryEvent, Decoded, same_event, observe, earlier}
use asc_message_relayer.Ack.Holding.{
  Holds, same_event_refl, with_meta-keeps, Holds-update, Holds-noted, Holds-insert_new,
  Holds-inserted,
}

abbrev pub Queue : Type 0
Queue = PendingTxs DeliveryEvent

-- How one turn of the loop over the decoded logs ends.
pub data Observed (done : BoundedSeen) (d : Decoded) (p : Queue) (first : Option ℕ) (p' : Queue)
    (first' : Option ℕ) : Type 0 where
  finished :
      was_seen d.tx_hash done ≡ true → p' ≡ p → first' ≡ first → Observed done d p first p' first'
  noted :
      tracks d.tx_hash p ≡ true
      → p' ≡ update d.tx_hash (with_meta same_event d.event) p
      → first' ≡ first
      → Observed done d p first p' first'
  full :
      is_full p ≡ true
      → tracks d.tx_hash p ≡ false
      → p' ≡ p
      → first' ≡ earlier first d.block
      → Observed done d p first p' first'
  admitted :
      (now : ℕ)
      → is_full p ≡ false
      → tracks d.tx_hash p ≡ false
      → p' ≡ with_seen (insert d.tx_hash (fresh now d.block (d.event ∷ [])) p.seen) p
      → first' ≡ first
      → Observed done d p first p' first'

module _ (seen_at : ℕ → ℕ) (done : BoundedSeen) where
  pub observe-Observed :
      (d : Decoded) (p : Queue) (first : Option ℕ)
      → Observed done d p first
          (observe seen_at done d (p, first)).0
          (observe seen_at done d (p, first)).1
  unfolding observe note_meta
  observe-Observed d p first = elim (Bool-cases (was_seen d.tx_hash done)) [
    | inl s ↦ rw s (finished s refl refl)
    | inr s ↦ elim (Bool-cases (tracks d.tx_hash p)) [
      | inl t ↦ rw (s, t) (noted t refl refl)
      | inr t ↦ elim (Bool-cases (is_full p)) [
        | inl f ↦ rw (s, t, f) (full f t refl refl)
        | inr f ↦
            rw (s, t, f)
              (admitted (seen_at d.tx_hash) f t
                (ap (λ r. r.0)
                  (insert_tx-room d.tx_hash (seen_at d.tx_hash) d.block (d.event ∷ []) p t f))
                refl)
      ]
    ]
  ]

-- The block that holds the cursor back is not above a block, or is within a range.
abbrev pub HeldBy : ℕ → Option ℕ → Type 0
HeldBy block none = ⊥
HeldBy block (some f) = f ≤ block

abbrev pub Within : ℕ → ℕ → Option ℕ → Type 0
Within from to none = Unit {0}
Within from to (some f) = (from ≤ f) × (f ≤ to)

earlier-HeldBy : (first : Option ℕ) (block : ℕ) → HeldBy block (earlier first block)
earlier-HeldBy none block = omega arith
earlier-HeldBy (some f) block = omega arith

earlier-keeps :
    (first : Option ℕ) (block other : ℕ) → HeldBy other first → HeldBy other (earlier first block)
earlier-keeps none block other h = absurd h
earlier-keeps (some f) block other h = omega (arith, h)

earlier-Within :
    (from to : ℕ) (first : Option ℕ) (block : ℕ)
    → from ≤ block
    → block ≤ to
    → Within from to first
    → Within from to (earlier first block)
earlier-Within from to none block low high h = (low, high)
earlier-Within from to (some f) block low high h = omega (arith, low, high, h.0, h.1)

-- What is known of a decoded transaction after the loop.
pub data Handled (done : BoundedSeen) (tx : ℕ) (ev : DeliveryEvent) (block : ℕ) (p : Queue)
    (first : Option ℕ) : Type 0 where
  is_done : was_seen tx done ≡ true → Handled done tx ev block p first
  is_tracked : Holds p tx ev → Handled done tx ev block p first
  is_held :
      HeldBy block first → is_full p ≡ true → tracks tx p ≡ false → Handled done tx ev block p first

module _ (done : BoundedSeen) (d : Decoded) (p : Queue) (first : Option ℕ) (p' : Queue)
    (first' : Option ℕ) where
  pub Observed-Handled :
      Observed done d p first p' first' → Handled done d.tx_hash d.event d.block p' first'
  Observed-Handled (finished s e f) = is_done s
  Observed-Handled (noted t e f) = is_tracked (rw e (Holds-noted d.tx_hash d.event p t))
  Observed-Handled (full shut out e f) =
      is_held (rw f (earlier-HeldBy first d.block)) (rw (e, shut)) (rw (e, out))
  Observed-Handled (admitted now room n e f) = is_tracked (
      rw e (
        Holds-inserted d.tx_hash d.event (fresh now d.block (d.event ∷ [])) p.seen
          (ground (arith, same_event_refl d.event))))

  pub Observed-Holds :
      (k : ℕ) (ev : DeliveryEvent)
      → Observed done d p first p' first'
      → Holds p k ev
      → Holds p' k ev
  Observed-Holds k ev (finished s e f) h = rw (e, h)
  Observed-Holds k ev (noted t e f) h = rw e (
      Holds-update k d.tx_hash ev (with_meta same_event d.event) p
        (λ g q. with_meta-keeps d.event ev g q) h)
  Observed-Holds k ev (full shut out e f) h = rw (e, h)
  Observed-Holds k ev (admitted now room n e f) h =
      rw e (Holds-insert_new d.tx_hash k ev (fresh now d.block (d.event ∷ [])) p n h)

  -- A full queue stays full, and takes no one in.
  pub Observed-shut :
      (k : ℕ)
      → Observed done d p first p' first'
      → is_full p ≡ true
      → tracks k p ≡ false
      → (is_full p' ≡ true) × (tracks k p' ≡ false)
  Observed-shut k (finished s e f) h t = (rw (e, h), rw (e, t))
  Observed-shut k (noted s e f) h t = (
    rw e (is_full-update d.tx_hash (with_meta same_event d.event) p ∙ h),
    rw e (tracks-update k d.tx_hash (with_meta same_event d.event) p ∙ t),
  )
  Observed-shut k (full shut out e f) h t = (rw (e, h), rw (e, t))
  Observed-shut k (admitted now room n e f) h t = absurd (cc)

  pub Observed-Distinct : Observed done d p first p' first' → Distinct p.seen → Distinct p'.seen
  Observed-Distinct (finished s e f) h = rw e h
  Observed-Distinct (noted t e f) h =
      rw e (Distinct-update d.tx_hash (with_meta same_event d.event) p h)
  Observed-Distinct (full shut out e f) h = rw e h
  Observed-Distinct (admitted now room n e f) h =
      rw e (Distinct-insert d.tx_hash (fresh now d.block (d.event ∷ [])) p.seen h)

  pub Observed-HeldBy :
      (block : ℕ) → Observed done d p first p' first' → HeldBy block first → HeldBy block first'
  Observed-HeldBy block (finished s e f) h = rw f h
  Observed-HeldBy block (noted t e f) h = rw f h
  Observed-HeldBy block (full shut out e f) h = rw f (earlier-keeps first d.block block h)
  Observed-HeldBy block (admitted now room n e f) h = rw f h

  pub Observed-Within :
      (from to : ℕ)
      → from ≤ d.block
      → d.block ≤ to
      → Observed done d p first p' first'
      → Within from to first
      → Within from to first'
  Observed-Within from to low high (finished s e f) h = rw f h
  Observed-Within from to low high (noted t e f) h = rw f h
  Observed-Within from to low high (full shut out e f) h =
      rw f (earlier-Within from to first d.block low high h)
  Observed-Within from to low high (admitted now room n e f) h = rw f h

  -- A predicate on the hash and block of an entry.
  pub Observed-AllEntries :
      (P : ℕ → ℕ → Type 0)
      → P d.tx_hash d.block
      → Observed done d p first p' first'
      → AllEntries (λ tx e. P tx e.block) p.seen
      → AllEntries (λ tx e. P tx e.block) p'.seen
  Observed-AllEntries P h (finished s e f) a = rw e a
  Observed-AllEntries P h (noted t e f) a = rw e (
      AllEntries-update (λ tx e. P tx e.block) d.tx_hash (with_meta same_event d.event) p
        (λ k e q.
          if_both (λ (e' : PendingTx DeliveryEvent). P k e'.block)
            (any_equal same_event e.meta d.event) _ _ q q)
        a)
  Observed-AllEntries P h (full shut out e f) a = rw e a
  Observed-AllEntries P h (admitted now room n e f) a = rw e (
      AllEntries-insert (λ tx e. P tx e.block) d.tx_hash (fresh now d.block (d.event ∷ [])) p.seen a
        h)
