-- ===== src/Pending/Queue.antt =====
-- What the queue of message-relayer/src/pending.rs keeps: its bound, and which entry it gives up.
use mathlib.Core.Path.{subst}
use asc_message_relayer.Prelude.{
  ℕ, ◌≤◌, ◌<◌, ◌≡◌, refl, sym, ◌∙◌, true, false, Option, none, some, List, [], ◌∷◌, ◌==◌, length,
  ltb, leb, arith, Bool-cases, Option-cases, inl, inr, ==_refl, ==_iff,
}
use asc_message_relayer.Prelude.Map.{
  Map, lookup, insert, remove, AllEntries, AllEntries-mono, Distinct, Distinct-insert,
  Distinct-remove, length-insert_new, length-remove_lt,
}
use asc_message_relayer.Pending.{
  PendingTx, PendingTxs, tracks, oldest_seen, fresh, trim, older, insert_tx,
}

-- The queue has each hash once, and no more than fit.
pub record Bounded {M : Type 0} (p : PendingTxs M) : Type 0 where
  pub distinct : Distinct p.seen
  pub bounded : length p.seen ≤ p.cap

module _ {M : Type 0} where
  -- No entry of the map is older.
  abbrev pub IsOldest : PendingTx M → Map (PendingTx M) → Type 0
  IsOldest e m = AllEntries (λ tx other. e.first_seen ≤ other.first_seen) m

  oldest_seen-none :
      (e : PendingTx M) (m : Map (PendingTx M))
      → oldest_seen m ≡ none
      → (length m ≡ 0) × IsOldest e m
  unfolding oldest_seen
  oldest_seen-none e [] h = (refl, tt)
  oldest_seen-none e (x ∷ m) h = absurd (cc)

  -- What the search for the oldest entry finds.
  abbrev pub FoundOldest : Map (PendingTx M) → ℕ × PendingTx M → Type 0
  FoundOldest m x = (lookup x.0 m ≡ some x.1) × IsOldest x.1 m

  IsOldest-trans :
      (e f : PendingTx M) (m : Map (PendingTx M))
      → e.first_seen ≤ f.first_seen
      → IsOldest f m
      → IsOldest e m
  IsOldest-trans e f m le o =
      AllEntries-mono (λ k g. f.first_seen ≤ g.first_seen) (λ k g. e.first_seen ≤ g.first_seen) m
        (λ k g h. omega (arith, h, le)) o

  lookup-tail :
      (tx k : ℕ) (e : PendingTx M) (m : Map (PendingTx M)) {f : PendingTx M}
      → lookup tx m ≡ none
      → lookup k m ≡ some f
      → lookup k ((tx, e) ∷ m) ≡ some f
  unfolding lookup
  lookup-tail tx k e m n h = elim (Bool-cases (tx == k)) [
    | inl q ↦ let bad : lookup k m ≡ none = rw ((==_iff tx k).0 q) at n in absurd (cc)
    | inr q ↦ rw (q, h)
  ]

  oldest_seen-some :
      (m : Map (PendingTx M)) {x : ℕ × PendingTx M}
      → Distinct m
      → oldest_seen m ≡ some x
      → FoundOldest m x
  unfolding oldest_seen lookup
  oldest_seen-some [] d h = absurd (cc)
  oldest_seen-some ((tx, e) ∷ m) {x} d h =
      let all = (tx, e) ∷ m in
      let is : older (tx, e) (oldest_seen m) ≡ x = cc in
      elim (Option-cases (oldest_seen m)) [
        | inl n ↦
            let chosen : older (tx, e) (oldest_seen m) ≡ (tx, e) = rw n refl in
            subst (FoundOldest all) (sym chosen ∙ is)
              (rw (==_refl tx), (omega arith, (oldest_seen-none e m n).1))
        | inr (y, q) ↦
            let (found, least) = oldest_seen-some m {x = y} d.1 q in
            elim (Bool-cases (leb e.first_seen y.1.first_seen)) [
              | inl le ↦
                  let chosen : older (tx, e) (oldest_seen m) ≡ (tx, e) = rw (q, le) refl in
                  subst (FoundOldest all) (sym chosen ∙ is) (
                    rw (==_refl tx),
                    (omega arith, IsOldest-trans e y.1 m (ground (arith, le)) least),
                  )
              | inr gt ↦
                  let chosen : older (tx, e) (oldest_seen m) ≡ y = rw (q, gt) refl in
                  subst (FoundOldest all) (sym chosen ∙ is)
                    (lookup-tail tx y.0 e m d.0 found, (ground (arith, gt), least))
            ]
      ]

  -- How an insertion ends.
  pub data Inserted (tx now block : ℕ) (meta : List M) (p p' : PendingTxs M) (evicted : Option ℕ)
      : Type 0 where
    known : tracks tx p ≡ true → p' ≡ p → evicted ≡ none → Inserted tx now block meta p p' evicted
    added :
        tracks tx p ≡ false
        → length p.seen < p.cap
        → p' ≡ record p { seen = insert tx (fresh now block meta) p.seen }
        → evicted ≡ none
        → Inserted tx now block meta p p' evicted
    displaced :
        (old : ℕ) (e : PendingTx M)
        → tracks tx p ≡ false
        → length p.seen ≡ p.cap
        → FoundOldest (insert tx (fresh now block meta) p.seen) (old, e)
        → p' ≡ record p { seen = remove old (insert tx (fresh now block meta) p.seen) }
        → evicted ≡ some old
        → Inserted tx now block meta p p' evicted

  module _ (tx now block : ℕ) (meta : List M) (p : PendingTxs M) (b : Bounded p) where
    abbrev grown : Map (PendingTx M)
    grown = insert tx (fresh now block meta) p.seen

    unknown : tracks tx p ≡ false → lookup tx p.seen ≡ none
    unknown h = elim (Option-cases (lookup tx p.seen)) [
      | inl n ↦ n
      | inr (e, q) ↦ let bad : true ≡ false = rw q at h in absurd (cc)
    ]

    insert-Inserted :
        Inserted tx now block meta p
          (insert_tx tx now block meta p).0
          (insert_tx tx now block meta p).1
    unfolding insert_tx trim
    insert-Inserted = elim (Bool-cases (tracks tx p)) [
      | inl k ↦ rw k (known k refl refl)
      | inr k ↦
          let size = length-insert_new tx (fresh now block meta) p.seen (unknown k) in
          elim (Bool-cases (ltb p.cap (length grown))) [
            | inr room ↦ rw (k, room) (added k (ground (arith, room, size)) refl refl)
            | inl over ↦ elim (Option-cases (oldest_seen grown)) [
              | inl n ↦
                  let empty = (oldest_seen-none (fresh now block meta) grown n).0 in
                  absurd (omega (arith, size, empty))
              | inr (x, q) ↦
                  let found =
                    oldest_seen-some grown {x = x} (Distinct-insert tx _ p.seen b.distinct) q in
                  rw (k, over, q)
                    (displaced x.0 x.1 k (ground (arith, over, size, b.bounded)) found refl refl)
            ]
          ]
    ]

    Inserted-Bounded :
        (p' : PendingTxs M) (evicted : Option ℕ)
        → Inserted tx now block meta p p' evicted
        → Bounded p'
    Inserted-Bounded p' evicted (known k e n) = rw e b
    Inserted-Bounded p' evicted (added k room e n) = rw e (record {
      distinct = Distinct-insert tx (fresh now block meta) p.seen b.distinct;
      bounded = omega (arith, length-insert_new tx (fresh now block meta) p.seen (unknown k), room);
    })
    Inserted-Bounded p' evicted (displaced old e k full found q n) = rw q (record {
      distinct =
          Distinct-remove old grown (Distinct-insert tx (fresh now block meta) p.seen b.distinct);
      bounded = omega (
        arith,
        length-remove_lt old grown found.0,
        length-insert_new tx (fresh now block meta) p.seen (unknown k),
        full,
      );
    })

    -- On a queue that has each hash once and no more than fit, an insertion keeps that so; it does
    -- nothing to a known hash, adds a new one while there is room, and else gives up an entry than
    -- which none is older.
    pub insert_tx-kept :
        Bounded (insert_tx tx now block meta p).0
        × Inserted tx now block meta p
            (insert_tx tx now block meta p).0
            (insert_tx tx now block meta p).1
    insert_tx-kept = let i = insert-Inserted in (Inserted-Bounded _ _ i, i)
