-- ===== src/Pending/Tracks.antt =====
-- Which transactions the queue of message-relayer/src/pending.rs has after each operation, and the
-- block that holds the checkpoint back.
use asc_message_relayer.Prelude.{
  ℕ, ◌≤◌, ◌≡◌, ◌∙◌, sym, ap, refl, true, false, not, ◌&&◌, ◌||◌, Option, none, some, List, [], ◌∷◌,
  ◌++◌, ◌==◌, length, ltb, leb, arith, Bool-cases, Option-cases, inl, inr, is_some, ==_iff,
  contains,
}
use asc_message_relayer.Prelude.Map.{
  Map, lookup, insert, remove, contains_key, AllEntries, AllEntries-lookup, AllEntries-mono,
  AllEntries-insert, lookup-insert, lookup-remove, length-insert_le, length-insert_old, Distinct,
  Distinct-insert,
}
use asc_message_relayer.Pending.{
  PendingTx, PendingTxs, BoundedSeen, tracks, is_full, oldest_block, lower, fresh, trim, insert_tx,
  update, was_seen, without, pop_oldest, insert_seen,
}

lower-le : (block : ℕ) (o : Option ℕ) → lower block o ≤ block
lower-le block none = omega arith
lower-le block (some b) = omega arith

module _ {M : Type 0} where
  abbrev pub with_seen : Map (PendingTx M) → PendingTxs M → PendingTxs M
  with_seen seen p = record p { seen = seen }

  -- With room, an insertion only adds.
  pub insert_tx-room :
      (tx now block : ℕ) (meta : List M) (p : PendingTxs M)
      → tracks tx p ≡ false
      → is_full p ≡ false
      → insert_tx tx now block meta p
        ≡ (with_seen (insert tx (fresh now block meta) p.seen) p, none)
  unfolding insert_tx trim
  insert_tx-room tx now block meta p k full =
      let grown = insert tx (fresh now block meta) p.seen in
      let room : ltb p.cap (length grown) ≡ false =
        ground (arith, full, length-insert_le tx (fresh now block meta) p.seen) in
      rw (k, room)

  pub contains-insert :
      (k tx : ℕ) (e : PendingTx M) (m : Map (PendingTx M))
      → contains_key k (insert tx e m) ≡ (tx == k || contains_key k m)
  contains-insert k tx e m = ground (arith, lookup-insert tx k e m)

  pub contains-remove :
      (k tx : ℕ) (m : Map (PendingTx M))
      → contains_key k (remove tx m) ≡ (not (tx == k) && contains_key k m)
  contains-remove k tx m = ground (arith, lookup-remove tx k m)

  pub tracks-update :
      (k tx : ℕ) (f : PendingTx M → PendingTx M) (p : PendingTxs M)
      → tracks k (update tx f p) ≡ tracks k p
  tracks-update k tx f p = elim (Option-cases (lookup tx p.seen)) [
    | inl n ↦ rw (n, update) refl
    | inr (e, q) ↦
        rw (q, update)
          (elim (Bool-cases (tx == k)) [
            | inl same ↦
                let there : contains_key k p.seen ≡ true =
                  rw ((==_iff tx k).0 same) at (ap is_some q) in
                contains-insert k tx (f e) p.seen ∙ (rw same (sym there))
            | inr other ↦ contains-insert k tx (f e) p.seen ∙ (rw other refl)
          ])
  ]

  pub AllEntries-update :
      (P : ℕ → PendingTx M → Type 0) (tx : ℕ) (f : PendingTx M → PendingTx M) (p : PendingTxs M)
      → ((k : ℕ) (e : PendingTx M) → P k e → P k (f e))
      → AllEntries P p.seen
      → AllEntries P (update tx f p).seen
  AllEntries-update P tx f p h a = elim (Option-cases (lookup tx p.seen)) [
    | inl n ↦ rw (n, update, AllEntries) a
    | inr (e, q) ↦
        rw (q, update, AllEntries)
          (AllEntries-insert P tx (f e) p.seen a (h tx e (AllEntries-lookup P tx p.seen a q)))
  ]

  pub Distinct-update :
      (tx : ℕ) (f : PendingTx M → PendingTx M) (p : PendingTxs M)
      → Distinct p.seen
      → Distinct (update tx f p).seen
  Distinct-update tx f p d = elim (Option-cases (lookup tx p.seen)) [
    | inl n ↦ rw (n, update) d
    | inr (e, q) ↦ rw (q, update) (Distinct-insert tx (f e) p.seen d)
  ]

  pub is_full-update :
      (tx : ℕ) (f : PendingTx M → PendingTx M) (p : PendingTxs M)
      → is_full (update tx f p) ≡ is_full p
  is_full-update tx f p = elim (Option-cases (lookup tx p.seen)) [
    | inl n ↦ rw (n, update) refl
    | inr (e, q) ↦ rw (q, update) (ap (leb p.cap) (length-insert_old tx (f e) p.seen q))
  ]

  pub AllEntries-tracked : (m : Map (PendingTx M)) → AllEntries (λ tx e. contains_key tx m ≡ true) m
  unfolding lookup
  AllEntries-tracked [] = tt
  AllEntries-tracked ((k, e) ∷ m) = (
    ground arith,
    AllEntries-mono (λ tx f. contains_key tx m ≡ true) (λ tx f. contains_key tx ((k, e) ∷ m) ≡ true)
        m (λ tx f h. ground (arith, h)) (AllEntries-tracked m),
  )

  -- The block found is a lower bound of all; without one there is no entry.
  abbrev pub Reaches : Option ℕ → PendingTx M → Type 0
  Reaches none e = ⊥
  Reaches (some b) e = b ≤ e.block

  Reaches-lower :
      (block : ℕ) (o : Option ℕ) (e : PendingTx M) → Reaches o e → Reaches (some (lower block o)) e
  Reaches-lower block none e h = absurd h
  Reaches-lower block (some b) e h = omega (arith, h)

  pub oldest_block-Reaches :
      (m : Map (PendingTx M)) → AllEntries (λ tx e. Reaches (oldest_block m) e) m
  unfolding oldest_block
  oldest_block-Reaches [] = tt
  oldest_block-Reaches ((tx, e) ∷ m) = (
    lower-le e.block (oldest_block m),
    AllEntries-mono (λ tx f. Reaches (oldest_block m) f)
        (λ tx f. Reaches (some (lower e.block (oldest_block m))) f) m
        (λ k f h. Reaches-lower e.block (oldest_block m) f h) (oldest_block-Reaches m),
  )

without-contains :
    (k old : ℕ) (xs : List ℕ) → contains (without old xs) k ≡ true → contains xs k ≡ true
without-contains k old [] h = absurd (cc)
without-contains k old (x ∷ xs) h = ground (arith, without-contains k old xs, h)

pop_oldest-was_seen :
    (k : ℕ) (set order : List ℕ) (cap : ℕ)
    → was_seen k (pop_oldest (record { set = set; order = order; cap = cap })) ≡ true
    → contains set k ≡ true
pop_oldest-was_seen k set [] cap h = h
pop_oldest-was_seen k set (old ∷ order) cap h = without-contains k old set h

-- Only what was inserted is taken for seen.
pub was_seen-insert :
    (k tx : ℕ) (s : BoundedSeen)
    → was_seen k (insert_seen tx s) ≡ true
    → (tx == k || was_seen k s) ≡ true
unfolding insert_seen
was_seen-insert k tx s h = elim (Bool-cases (was_seen tx s)) [
  | inl known ↦ (let h' : was_seen k s ≡ true = rw known at h in ground (arith, h'))
  | inr new ↦ elim (Bool-cases (ltb s.cap (length (tx ∷ s.set)))) [
    | inl over ↦ pop_oldest-was_seen k (tx ∷ s.set) (s.order ++ tx ∷ []) s.cap (rw (new, over) at h)
    | inr room ↦ rw (new, room) at h
  ]
]
