-- ===== src/Outcome.antt =====
-- The bounded store of verdicts: `OutcomeStore` of message-relayer/src/outcome.rs.
pub mod Bounds
use asc_message_relayer.Prelude.{
  ℕ, suc, ◌+◌, ◌≤◌, ◌<◌, ◌≡◌, refl, sym, ap, ◌∙◌, true, false, Option, none, some, List, [], ◌∷◌,
  ◌++◌, ◌==◌, length, ltb, max, if◌then◌else◌, arith, Bool-cases, Option-cases, inl, inr, is_some,
  ==_refl, ==_iff, ltb→lt,
}
use asc_message_relayer.Prelude.Map.{
  Map, lookup, insert, remove, keys, Distinct, lookup-insert, length-insert_old, length-insert_new,
  length-insert_le, Distinct-insert,
}

pub data OutcomeKind : Type 0 where
  delivered destination_failed pending undeliverable terminal : OutcomeKind

pub record DeliveryOutcome : Type 0 where
  pub kind : OutcomeKind
  pub chain_key : ℕ
  pub tx_hash : Option ℕ
  pub reason : Option (List ℕ)
  pub recorded_at : ℕ

pub record OutcomeStore : Type 0 where
  pub by_id : Map DeliveryOutcome
  pub order : List ℕ
  pub cap : ℕ
  pub evictions : ℕ

abbrev pub new : ℕ → OutcomeStore
new capacity = record { by_id = []; order = []; cap = max capacity 1; evictions = 0 }

-- The `while` loop: it pops the front of `order` while that is too long.
unfoldable pub evict : ℕ → List ℕ → Map DeliveryOutcome → ℕ → OutcomeStore
evict limit [] by_id evictions = record {
  by_id = by_id;
  order = [];
  cap = limit;
  evictions = evictions;
}
evict limit (old ∷ order) by_id evictions =
    let popped = evict limit order (remove old by_id) (evictions + 1) in
    if ltb limit (length (old ∷ order))
    then popped
    else record { by_id = by_id; order = old ∷ order; cap = limit; evictions = evictions }

unfoldable pub record_outcome : ℕ → DeliveryOutcome → OutcomeStore → OutcomeStore
record_outcome message_id outcome s =
    let by_id = insert message_id outcome s.by_id in
    if is_some (lookup message_id s.by_id)
    then record s { by_id = by_id }
    else evict s.cap (s.order ++ message_id ∷ []) by_id s.evictions

unfoldable pub get_many : List ℕ → OutcomeStore → List (ℕ × DeliveryOutcome)
get_many [] s = []
get_many (id ∷ ids) s =
    let rest = get_many ids s in elim (lookup id s.by_id) [ none ↦ rest | some o ↦ (id, o) ∷ rest ]
