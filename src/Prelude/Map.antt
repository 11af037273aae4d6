-- ===== src/Prelude/Map.antt =====
-- A hash map as an association list over numbers (chain keys, ids, addresses). Its order is the
-- unspecified order of iteration, so a theorem over any map holds for every such order.
use asc_message_relayer.Prelude.Tests.{◌==◌, if◌then◌else◌, Bool-cases, ==_iff, ==_refl}
use mathlib.Core.Logic.{inl, inr}
use asc_message_relayer.Prelude.Lists.{length, is_some, contains}
use Prim.Native.Nat.{ℕ, suc, ◌≤◌, ◌<◌}
use mathlib.Core.Path.{◌≡◌, refl}
use mathlib.Core.Bool.{Bool}
use mathlib.Core.Option.{Option, none, some}
use mathlib.Core.List.{List, [], ◌∷◌}
use native.Mathlib.Omega.{arith}

abbrev pub Map {ℓ} : Type ℓ → Type ℓ
Map V = List (ℕ × V)

module _ {ℓ} {V : Type ℓ} where
  unfoldable pub lookup : ℕ → Map V → Option V
  lookup k [] = none
  lookup k ((j, v) ∷ m) = if j == k then some v else lookup k m

  unfoldable pub insert : ℕ → V → Map V → Map V
  insert key value [] = (key, value) ∷ []
  insert key value ((k, old) ∷ entries) =
      if k == key then (key, value) ∷ entries else (k, old) ∷ insert key value entries

  unfoldable pub remove : ℕ → Map V → Map V
  remove k [] = []
  remove k ((j, w) ∷ m) = let rest = remove k m in if j == k then rest else (j, w) ∷ rest

  -- `retain` of a map.
  unfoldable pub retain_map : (ℕ → V → Bool) → Map V → Map V
  retain_map p [] = []
  retain_map p ((j, w) ∷ m) = let rest = retain_map p m in if p j w then (j, w) ∷ rest else rest

  unfoldable pub keys : Map V → List ℕ
  keys [] = []
  keys ((j, w) ∷ m) = j ∷ keys m

  unfoldable pub values : Map V → List V
  values [] = []
  values ((j, w) ∷ m) = w ∷ values m

  abbrev pub contains_key : ℕ → Map V → Bool
  contains_key k m = is_some (lookup k m)

  -- A predicate on each entry.
  abbrev pub AllEntries {κ} : (ℕ → V → Type κ) → Map V → Type κ
  AllEntries P [] = Unit
  AllEntries P ((k, v) ∷ m) = P k v × AllEntries P m

-- How each operation changes what is found under a key.
module _ {ℓ} {V : Type ℓ} where
  pub lookup-insert :
      (key other : ℕ) (value : V) (entries : Map V)
      → lookup other (insert key value entries)
        ≡ (if key == other then some value else lookup other entries)
  unfolding lookup insert
  lookup-insert key other value [] = refl
  lookup-insert key other value ((k, old) ∷ entries) =
      ground (arith, lookup-insert key other value entries)

  pub lookup-remove :
      (k j : ℕ) (m : Map V) → lookup j (remove k m) ≡ (if k == j then none else lookup j m)
  unfolding lookup remove
  lookup-remove k j [] = ground arith
  lookup-remove k j ((i, w) ∷ m) = ground (arith, lookup-remove k j m)

  pub contains-keys : (m : Map V) (k : ℕ) → contains (keys m) k ≡ contains_key k m
  unfolding lookup keys
  contains-keys [] k = refl
  contains-keys ((i, w) ∷ m) k = ground (arith, contains-keys m k)

  pub length-remove : (k : ℕ) (m : Map V) → length (remove k m) ≤ length m
  unfolding remove
  length-remove k [] = omega arith
  length-remove k ((i, w) ∷ m) = ground (arith, length-remove k m)

  pub length-remove_lt :
      (k : ℕ) (m : Map V) {v : V} → lookup k m ≡ some v → length (remove k m) < length m
  unfolding remove lookup
  length-remove_lt k [] h = cc
  length-remove_lt k ((i, w) ∷ m) {v} h =
      ground (arith, length-remove k m, length-remove_lt k m {v = v})

  pub length-insert_new :
      (k : ℕ) (v : V) (m : Map V) → lookup k m ≡ none → length (insert k v m) ≡ suc (length m)
  unfolding insert lookup
  length-insert_new k v [] h = refl
  length-insert_new k v ((i, w) ∷ m) h = ground (arith, length-insert_new k v m)

  pub length-insert_old :
      (k : ℕ) (v : V) (m : Map V) {w : V} → lookup k m ≡ some w → length (insert k v m) ≡ length m
  unfolding insert lookup
  length-insert_old k v [] h = cc
  length-insert_old k v ((i, w) ∷ m) {w = u} h = ground (arith, length-insert_old k v m {w = u})

  pub length-insert_le : (k : ℕ) (v : V) (m : Map V) → length (insert k v m) ≤ suc (length m)
  unfolding insert
  length-insert_le k v [] = omega arith
  length-insert_le k v ((i, w) ∷ m) = ground (arith, length-insert_le k v m)

  pub length-retain_map : (p : ℕ → V → Bool) (m : Map V) → length (retain_map p m) ≤ length m
  unfolding retain_map
  length-retain_map p [] = omega arith
  length-retain_map p ((i, w) ∷ m) = ground (arith, length-retain_map p m)

-- What holds of every entry.
module _ {ℓ κ} {V : Type ℓ} (P : ℕ → V → Type κ) where
  pub AllEntries-lookup : (k : ℕ) (m : Map V) {v : V} → AllEntries P m → lookup k m ≡ some v → P k v
  unfolding lookup
  AllEntries-lookup k [] a h = cc
  AllEntries-lookup k ((i, w) ∷ m) {v} a h = ground (arith, AllEntries-lookup k m {v = v} a.1)

  pub AllEntries-insert :
      (k : ℕ) (v : V) (m : Map V) → AllEntries P m → P k v → AllEntries P (insert k v m)
  unfolding insert
  AllEntries-insert k v [] a h = (h, tt)
  AllEntries-insert k v ((i, w) ∷ m) a h = ground (arith, AllEntries-insert k v m a.1 h)

  pub AllEntries-remove : (k : ℕ) (m : Map V) → AllEntries P m → AllEntries P (remove k m)
  unfolding remove
  AllEntries-remove k [] a = tt
  AllEntries-remove k ((i, w) ∷ m) a = ground (arith, AllEntries-remove k m a.1)

  pub AllEntries-retain :
      (p : ℕ → V → Bool) (m : Map V) → AllEntries P m → AllEntries P (retain_map p m)
  unfolding retain_map
  AllEntries-retain p [] a = tt
  AllEntries-retain p ((i, w) ∷ m) a = ground (arith, AllEntries-retain p m a.1)

  pub AllEntries-mono {μ} :
      (Q : ℕ → V → Type μ) (m : Map V)
      → ((k : ℕ) (v : V) → P k v → Q k v)
      → AllEntries P m
      → AllEntries Q m
  AllEntries-mono Q [] f a = tt
  AllEntries-mono Q ((k, v) ∷ m) f a = (f k v a.0, AllEntries-mono Q m f a.1)

-- No key occurs twice, as in a hash map.
abbrev pub Distinct {ℓ} : {V : Type ℓ} → Map V → Type ℓ
Distinct [] = Unit
Distinct ((k, v) ∷ m) = (lookup k m ≡ none) × Distinct m

-- What `retain` leaves of the value found.
abbrev pub keep_if {ℓ} : {V : Type ℓ} → (ℕ → V → Bool) → ℕ → Option V → Option V
keep_if p k none = none
keep_if p k (some v) = if p k v then some v else none

module _ {ℓ} {V : Type ℓ} where
  pub Distinct-insert : (k : ℕ) (v : V) (m : Map V) → Distinct m → Distinct (insert k v m)
  unfolding insert lookup
  Distinct-insert k v [] d = (refl, tt)
  Distinct-insert k v ((j, w) ∷ m) d =
      ground (arith, Distinct-insert k v m d.1, lookup-insert k j v m)

  pub Distinct-remove : (k : ℕ) (m : Map V) → Distinct m → Distinct (remove k m)
  unfolding remove
  Distinct-remove k [] d = tt
  Distinct-remove k ((j, w) ∷ m) d = ground (arith, Distinct-remove k m d.1, lookup-remove k j m)

  lookup-retain_none :
      (p : ℕ → V → Bool) (k : ℕ) (m : Map V) → lookup k m ≡ none → lookup k (retain_map p m) ≡ none
  unfolding retain_map lookup
  lookup-retain_none p k [] h = refl
  lookup-retain_none p k ((j, w) ∷ m) h = ground (arith, lookup-retain_none p k m)

  pub lookup-retain_map :
      (p : ℕ → V → Bool) (k : ℕ) (m : Map V)
      → Distinct m
      → lookup k (retain_map p m) ≡ keep_if p k (lookup k m)
  unfolding retain_map lookup
  lookup-retain_map p k [] d = refl
  lookup-retain_map p k ((j, w) ∷ m) d = elim (Bool-cases (j == k)) [
    | inl e ↦
        let e' = (==_iff j k).0 e in
        rw (← e') (
          rw (==_refl j) (elim (Bool-cases (p j w)) [
            | inl h ↦ rw (h, ==_refl j)
            | inr h ↦ rw h (lookup-retain_none p j m d.0)
          ]))
    | inr e ↦ rw e (elim (Bool-cases (p j w)) [
      | inl h ↦ rw (h, e) (lookup-retain_map p k m d.1)
      | inr h ↦ rw h (lookup-retain_map p k m d.1)
    ])
  ]

  pub Distinct-retain : (p : ℕ → V → Bool) (m : Map V) → Distinct m → Distinct (retain_map p m)
  unfolding retain_map
  Distinct-retain p [] d = tt
  Distinct-retain p ((j, w) ∷ m) d =
      ground (arith, Distinct-retain p m d.1, lookup-retain_none p j m d.0)

-- `iter_mut` over the values.
unfoldable pub map_values {ℓ} : {V : Type ℓ} → (V → V) → Map V → Map V
map_values f [] = []
map_values f ((k, v) ∷ m) = (k, f v) ∷ map_values f m

-- The value found, changed.
abbrev pub map_opt {ℓ} : {V : Type ℓ} → (V → V) → Option V → Option V
map_opt f none = none
map_opt f (some v) = some (f v)

module _ {ℓ} {V : Type ℓ} (f : V → V) where
  pub lookup-map_values : (k : ℕ) (m : Map V) → lookup k (map_values f m) ≡ map_opt f (lookup k m)
  unfolding map_values lookup
  lookup-map_values k [] = refl
  lookup-map_values k ((j, v) ∷ m) = elim (Bool-cases (j == k)) [
    | inl e ↦ rw e
    | inr e ↦ rw e (lookup-map_values k m)
  ]

  pub length-map_values : (m : Map V) → length (map_values f m) ≡ length m
  unfolding map_values
  length-map_values [] = refl
  length-map_values ((j, v) ∷ m) = omega (arith, length-map_values m)

  pub Distinct-map_values : (m : Map V) → Distinct m → Distinct (map_values f m)
  unfolding map_values
  Distinct-map_values [] d = tt
  Distinct-map_values ((j, v) ∷ m) d = (rw (lookup-map_values j m, d.0), Distinct-map_values m d.1)

  pub AllEntries-map_values {κ μ} :
      (P : ℕ → V → Type κ) (Q : ℕ → V → Type μ) (m : Map V)
      → ((k : ℕ) (v : V) → P k v → Q k (f v))
      → AllEntries P m
      → AllEntries Q (map_values f m)
  unfolding map_values
  AllEntries-map_values P Q [] h a = tt
  AllEntries-map_values P Q ((j, v) ∷ m) h a = (h j v a.0, AllEntries-map_values P Q m h a.1)
