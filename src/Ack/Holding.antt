-- ===== src/Ack/Holding.antt =====
-- The delivery events that the queue of message-relayer/src/ack/mod.rs has for a transaction.
use asc_message_relayer.Prelude.{
  ℕ, ◌≡◌, ◌∙◌, refl, Bool, true, false, ◌||◌, Option, none, some, List, [], ◌∷◌, ◌++◌, ◌==◌,
  if◌then◌else◌, arith, Bool-cases, Option-cases, inl, inr, is_some, ==_refl, ==_iff, ap,
}
use asc_message_relayer.Prelude.Map.{
  Map, lookup, insert, remove, lookup-insert, lookup-remove, map_opt,
}
use asc_message_relayer.Pending.{PendingTx, PendingTxs, tracks, update, any_equal, with_meta}
use asc_message_relayer.Ack.{DeliveryEvent, same_event}

abbrev pub holds : DeliveryEvent → Option (PendingTx DeliveryEvent) → Bool
holds ev none = false
holds ev (some e) = any_equal same_event e.meta ev

-- The entry of a transaction has the event.
abbrev pub Holds : PendingTxs DeliveryEvent → ℕ → DeliveryEvent → Type 0
Holds p tx ev = holds ev (lookup tx p.seen) ≡ true

pub same_event_refl : (ev : DeliveryEvent) → same_event ev ev ≡ true
same_event_refl ev = ground arith

any_equal-append :
    (ms : List DeliveryEvent) (item ev : DeliveryEvent)
    → any_equal same_event (ms ++ item ∷ []) ev ≡ (any_equal same_event ms ev || same_event item ev)
any_equal-append [] item ev = ground arith
any_equal-append (m ∷ ms) item ev = ground (arith, any_equal-append ms item ev)

-- Noting an event keeps the others and adds it.
pub with_meta-keeps :
    (item ev : DeliveryEvent) (e : PendingTx DeliveryEvent)
    → any_equal same_event e.meta ev ≡ true
    → any_equal same_event (with_meta same_event item e).meta ev ≡ true
with_meta-keeps item ev e h = elim (Bool-cases (any_equal same_event e.meta item)) [
  | inl k ↦ rw (k, h)
  | inr k ↦ rw k (any_equal-append e.meta item ev ∙ rw h refl)
]

pub with_meta-adds :
    (item : DeliveryEvent) (e : PendingTx DeliveryEvent)
    → any_equal same_event (with_meta same_event item e).meta item ≡ true
with_meta-adds item e = elim (Bool-cases (any_equal same_event e.meta item)) [
  | inl k ↦ rw (k, k)
  | inr k ↦ rw k (any_equal-append e.meta item item ∙ ground (arith, k, same_event_refl item))
]

lookup-update :
    (k tx : ℕ) (f : PendingTx DeliveryEvent → PendingTx DeliveryEvent)
    (p : PendingTxs DeliveryEvent)
    → lookup k (update tx f p).seen
      ≡ (if tx == k then map_opt f (lookup k p.seen) else lookup k p.seen)
lookup-update k tx f p = elim (Option-cases (lookup tx p.seen)) [
  | inl n ↦
      rw (n, update)
        (elim (Bool-cases (tx == k)) [
          | inr other ↦ rw other refl
          | inl same ↦
              let gone : lookup k p.seen ≡ none = rw ((==_iff tx k).0 same) at n in
              rw (same, gone) refl
        ])
  | inr (e, q) ↦
      rw (q, update)
        (lookup-insert tx k (f e) p.seen ∙ (elim (Bool-cases (tx == k)) [
          | inr other ↦ rw other refl
          | inl same ↦
              let there : lookup k p.seen ≡ some e = rw ((==_iff tx k).0 same) at q in
              rw (same, there) refl
        ]))
]

-- A change to an entry that keeps its events.
pub Holds-update :
    (k tx : ℕ) (ev : DeliveryEvent) (f : PendingTx DeliveryEvent → PendingTx DeliveryEvent)
    (p : PendingTxs DeliveryEvent)
    → ((e : PendingTx DeliveryEvent)
        → any_equal same_event e.meta ev ≡ true
        → any_equal same_event (f e).meta ev ≡ true)
    → Holds p k ev
    → Holds (update tx f p) k ev
Holds-update k tx ev f p keep h = elim (Bool-cases (tx == k)) [
  | inr other ↦ ap (holds ev) (lookup-update k tx f p ∙ rw other refl) ∙ h
  | inl same ↦ ap (holds ev) (lookup-update k tx f p ∙ rw same refl) ∙ mapped (lookup k p.seen) h
]
  where
    mapped :
        (o : Option (PendingTx DeliveryEvent)) → holds ev o ≡ true → holds ev (map_opt f o) ≡ true
    mapped none q = absurd (cc)
    mapped (some e) q = keep e q

pub Holds-noted :
    (tx : ℕ) (ev : DeliveryEvent) (p : PendingTxs DeliveryEvent)
    → tracks tx p ≡ true
    → Holds (update tx (with_meta same_event ev) p) tx ev
Holds-noted tx ev p t =
    ap (holds ev) (lookup-update tx tx (with_meta same_event ev) p ∙ rw (==_refl tx) refl)
    ∙ mapped (lookup tx p.seen) t
  where
    mapped :
        (o : Option (PendingTx DeliveryEvent))
        → is_some o ≡ true
        → holds ev (map_opt (with_meta same_event ev) o) ≡ true
    mapped none q = absurd (cc)
    mapped (some e) q = with_meta-adds ev e

-- A new entry has its event, and leaves those of the others.
pub Holds-insert_new :
    (tx k : ℕ) (ev : DeliveryEvent) (e : PendingTx DeliveryEvent) (p : PendingTxs DeliveryEvent)
    → tracks tx p ≡ false
    → Holds p k ev
    → holds ev (lookup k (insert tx e p.seen)) ≡ true
Holds-insert_new tx k ev e p absent h = elim (Bool-cases (tx == k)) [
  | inr other ↦ ap (holds ev) (lookup-insert tx k e p.seen ∙ rw other refl) ∙ h
  | inl same ↦
      let tracked : is_some (lookup k p.seen) ≡ true = there (lookup k p.seen) h in
      let gone : is_some (lookup k p.seen) ≡ false = rw ((==_iff tx k).0 same) at absent in
      absurd (cc)
]
  where
    there : (o : Option (PendingTx DeliveryEvent)) → holds ev o ≡ true → is_some o ≡ true
    there none q = absurd (cc)
    there (some e) q = refl

pub Holds-remove :
    (tx k : ℕ) (ev : DeliveryEvent) (p : PendingTxs DeliveryEvent)
    → (tx == k) ≡ false
    → Holds p k ev
    → holds ev (lookup k (remove tx p.seen)) ≡ true
Holds-remove tx k ev p other h = ap (holds ev) (lookup-remove tx k p.seen ∙ rw other refl) ∙ h

pub Holds-inserted :
    (tx : ℕ) (ev : DeliveryEvent) (e : PendingTx DeliveryEvent) (m : Map (PendingTx DeliveryEvent))
    → any_equal same_event e.meta ev ≡ true
    → holds ev (lookup tx (insert tx e m)) ≡ true
Holds-inserted tx ev e m h =
    let found : lookup tx (insert tx e m) ≡ some e =
      lookup-insert tx tx e m ∙ rw (==_refl tx) refl in
    ap (holds ev) found ∙ h

-- What is held is tracked.
pub Holds-tracked :
    (tx : ℕ) (ev : DeliveryEvent) (p : PendingTxs DeliveryEvent)
    → Holds p tx ev
    → tracks tx p ≡ true
Holds-tracked tx ev p h = elim (Option-cases (lookup tx p.seen)) [
  | inl n ↦ let bad : false ≡ true = rw n at h in absurd (cc)
  | inr (e, q) ↦ rw q refl
]
