-- ===== src/Pending.antt =====
-- The transactions that a proof submitter still has to settle: message-relayer/src/pending.rs. An
-- Instant and a Duration count milliseconds, and `M` is what a submitter keeps on a transaction.
use asc_message_relayer.Prelude.{
  ℕ, zero, suc, ◌+◌, ◌-◌, ◌*◌, ◌/◌, ◌%◌, ◌^◌, Bool, true, false, not, ◌||◌, Option, none, some,
  List, [], ◌∷◌, ◌++◌, map, ltb, leb, min, max, take, length, contains, ◌==◌, if◌then◌else◌,
  is_some,
}
use asc_message_relayer.Prelude.Map.{Map, lookup, insert, remove, contains_key, map_opt}
use asc_message_relayer.Types.{secs}
pub mod Queue
pub mod Delays
pub mod Tracks

abbrev pub transient_backoff_base : ℕ
transient_backoff_base = 30

abbrev pub transient_backoff_max : ℕ
transient_backoff_max = secs (10 * 60)

pub record NotReadyPolicy : Type 0 where
  pub poll_interval : ℕ
  pub poll_window : ℕ

-- `ilog2` of a positive number, on fuel that bounds the bits of a machine word.
unfoldable pub ilog2 : ℕ → ℕ → ℕ
ilog2 zero n = 0
ilog2 (suc bits) n = let rest = ilog2 bits (n / 2) in if ltb n 2 then 0 else suc rest

-- The doubling delay that both schedules have: the base 30 s times 2^exp, capped. An exponent of at
-- most 31 keeps the power in 32 bits and the product in a Duration.
abbrev pub doubled : ℕ → ℕ
doubled exp = min (secs (transient_backoff_base * 2 ^ exp)) transient_backoff_max

unfoldable pub next_delay : NotReadyPolicy → ℕ → ℕ
next_delay policy waited =
    let excess = waited - policy.poll_window in
    let steps = excess / 1000 / max transient_backoff_base 1 + 1 in
    if ltb waited policy.poll_window
    then policy.poll_interval
    else doubled (min (ilog2 64 steps) 31)

pub record PendingTx (M : Type 0) : Type 0 where
  pub first_seen : ℕ
  pub block : ℕ
  pub next_attempt_at : ℕ
  pub transient_attempts : ℕ
  pub meta : List M

pub record PendingTxs (M : Type 0) : Type 0 where
  pub seen : Map (PendingTx M)
  pub cap : ℕ

-- `min` of the blocks, one turn.
abbrev pub lower : ℕ → Option ℕ → ℕ
lower block none = block
lower block (some b) = min block b

module _ {M : Type 0} where
  abbrev pub new : ℕ → PendingTxs M
  new cap = record { seen = []; cap = cap }

  abbrev pub tracks : ℕ → PendingTxs M → Bool
  tracks tx p = contains_key tx p.seen

  abbrev pub is_full : PendingTxs M → Bool
  is_full p = leb p.cap (length p.seen)

  abbrev pub remove_tx : ℕ → PendingTxs M → PendingTxs M
  remove_tx tx p = record p { seen = remove tx p.seen }

  abbrev pub age : ℕ → ℕ → PendingTxs M → Option ℕ
  age tx now p = elim (lookup tx p.seen) [ none ↦ none | some e ↦ some (now - e.first_seen) ]

  unfoldable pub oldest_block : Map (PendingTx M) → Option ℕ
  oldest_block [] = none
  oldest_block ((tx, e) ∷ m) = some (lower e.block (oldest_block m))

  abbrev pub oldest_pending_block : PendingTxs M → Option ℕ
  oldest_pending_block p = oldest_block p.seen

  -- `min_by_key` by `first_seen`: the first of the least.
  abbrev pub older : ℕ × PendingTx M → Option (ℕ × PendingTx M) → ℕ × PendingTx M
  older x none = x
  older x (some y) = if leb x.1.first_seen y.1.first_seen then x else y

  unfoldable pub oldest_seen : Map (PendingTx M) → Option (ℕ × PendingTx M)
  oldest_seen [] = none
  oldest_seen (x ∷ m) = some (older x (oldest_seen m))

  abbrev pub fresh : ℕ → ℕ → List M → PendingTx M
  fresh now block meta = record {
    first_seen = now;
    block = block;
    next_attempt_at = now;
    transient_attempts = 0;
    meta = meta;
  }

  -- The eviction of the oldest entry when there is one too many.
  unfoldable pub trim : PendingTxs M → PendingTxs M × Option ℕ
  trim p =
      if ltb p.cap (length p.seen)
      then (elim (oldest_seen p.seen) [
        | none ↦ (p, none)
        | some (oldest, e) ↦ (record p { seen = remove oldest p.seen }, some oldest)
      ])
      else (p, none)

  unfoldable pub insert_tx : ℕ → ℕ → ℕ → List M → PendingTxs M → PendingTxs M × Option ℕ
  insert_tx tx now block meta p =
      if tracks tx p
      then (p, none)
      else trim (record p { seen = insert tx (fresh now block meta) p.seen })

  -- `get_mut`, with what is done to the entry.
  abbrev pub update : ℕ → (PendingTx M → PendingTx M) → PendingTxs M → PendingTxs M
  update tx f p = elim (lookup tx p.seen) [
    | none ↦ p
    | some e ↦ record p { seen = insert tx (f e) p.seen }
  ]

  abbrev pub any_equal : (M → M → Bool) → List M → M → Bool
  any_equal eq [] item = false
  any_equal eq (m ∷ ms) item = eq m item || any_equal eq ms item

  abbrev pub with_meta : (M → M → Bool) → M → PendingTx M → PendingTx M
  with_meta eq item e =
      if any_equal eq e.meta item then e else record e { meta = e.meta ++ item ∷ [] }

  unfoldable pub note_meta : (M → M → Bool) → ℕ → M → PendingTxs M → PendingTxs M
  note_meta eq tx item p = update tx (with_meta eq item) p

  unfoldable pub due : ℕ → Map (PendingTx M) → List (ℕ × PendingTx M)
  due now [] = []
  due now ((tx, e) ∷ m) =
      let rest = due now m in if leb e.next_attempt_at now then (tx, e) ∷ rest else rest

  -- `sort_by_key` by `first_seen`, which is stable.
  unfoldable pub insert_by_age : ℕ × PendingTx M → List (ℕ × PendingTx M) → List (ℕ × PendingTx M)
  insert_by_age x [] = x ∷ []
  insert_by_age x (y ∷ ys) =
      let rest = insert_by_age x ys in
      if leb x.1.first_seen y.1.first_seen then x ∷ y ∷ ys else y ∷ rest

  unfoldable pub sort_by_age : List (ℕ × PendingTx M) → List (ℕ × PendingTx M)
  sort_by_age [] = []
  sort_by_age (x ∷ xs) = insert_by_age x (sort_by_age xs)

  -- The first `n` entries of that order; `ready` hands out their hashes and metadata.
  unfoldable pub first_due : ℕ → ℕ → PendingTxs M → List (ℕ × PendingTx M)
  first_due n now p = take n (sort_by_age (due now p.seen))

  unfoldable pub ready : ℕ → ℕ → PendingTxs M → List (ℕ × List M)
  ready n now p = map (λ x. (x.0, x.1.meta)) (first_due n now p)

  unfoldable pub defer : ℕ → ℕ → PendingTxs M → PendingTxs M
  defer tx until p = update tx (λ e. record e { next_attempt_at = until }) p

  -- The counter has 32 bits.
  abbrev pub failed_once : ℕ → PendingTx M → PendingTx M
  failed_once now e =
      let attempts = (e.transient_attempts + 1) % 2 ^ 32 in
      record e {
        transient_attempts = attempts;
        next_attempt_at = now + doubled (min (attempts - 1) 31);
      }

  unfoldable pub record_transient_failure : ℕ → ℕ → PendingTxs M → PendingTxs M × ℕ
  record_transient_failure tx now p = elim (lookup tx p.seen) [
    | none ↦ (p, 0)
    | some e ↦ (update tx (failed_once now) p, (failed_once now e).transient_attempts)
  ]

-- `BoundedSeen`: the set and the order of insertion.
pub record BoundedSeen : Type 0 where
  pub set : List ℕ
  pub order : List ℕ
  pub cap : ℕ

abbrev pub nothing_seen : ℕ → BoundedSeen
nothing_seen cap = record { set = []; order = []; cap = cap }

abbrev pub was_seen : ℕ → BoundedSeen → Bool
was_seen tx s = contains s.set tx

abbrev pub without : ℕ → List ℕ → List ℕ
without old [] = []
without old (x ∷ xs) = let rest = without old xs in if x == old then rest else x ∷ rest

abbrev pub pop_oldest : BoundedSeen → BoundedSeen
pop_oldest s = elim s.order [
  | [] ↦ s
  | old ∷ order ↦ record s { set = without old s.set; order = order }
]

unfoldable pub insert_seen : ℕ → BoundedSeen → BoundedSeen
insert_seen tx s =
    let added = record s { set = tx ∷ s.set; order = s.order ++ tx ∷ [] } in
    if was_seen tx s then s else if ltb s.cap (length added.set) then pop_oldest added else added
