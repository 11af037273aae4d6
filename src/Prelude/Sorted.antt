-- ===== src/Prelude/Sorted.antt =====
-- A `BTreeMap` as an association list in ascending order of its keys, the order of iteration.
use asc_message_relayer.Prelude.Tests.{◌==◌, ltb, if◌then◌else◌}
use asc_message_relayer.Prelude.Lists.{length}
use asc_message_relayer.Prelude.Map.{Map, lookup, retain_map, AllEntries}
use Prim.Native.Nat.{ℕ, suc, ◌≤◌, ◌<◌}
use mathlib.Core.Path.{◌≡◌, refl}
use mathlib.Core.Bool.{Bool}
use mathlib.Core.Option.{none, some}
use mathlib.Core.List.{[], ◌∷◌}
use native.Mathlib.Omega.{arith}

-- Every key is above the bound, and the keys ascend.
abbrev pub Above {ℓ} : {V : Type ℓ} → ℕ → Map V → Type 0
Above b [] = Unit
Above b ((k, v) ∷ m) = (b ≤ k) × Above (suc k) m

-- The keys ascend strictly, so they are distinct.
abbrev pub IsSorted {ℓ} : {V : Type ℓ} → Map V → Type 0
IsSorted m = Above 0 m

module _ {ℓ} {V : Type ℓ} where
  unfoldable pub insert_sorted : ℕ → V → Map V → Map V
  insert_sorted k v [] = (k, v) ∷ []
  insert_sorted k v ((j, w) ∷ m) =
      if k == j
      then (k, v) ∷ m
      else if ltb k j
      then (k, v) ∷ (j, w) ∷ m
      else (j, w) ∷ insert_sorted k v m

  pub Above-mono : (a b : ℕ) (m : Map V) → a ≤ b → Above b m → Above a m
  Above-mono a b [] h s = tt
  Above-mono a b ((k, v) ∷ m) h s = (omega arith, s.1)

  pub Above-insert :
      (b k : ℕ) (v : V) (m : Map V) → b ≤ k → Above b m → Above b (insert_sorted k v m)
  unfolding insert_sorted
  Above-insert b k v [] h s = (h, tt)
  Above-insert b k v ((j, w) ∷ m) h s = ground (arith, Above-insert (suc j) k v m)

  pub Above-retain : (b : ℕ) (p : ℕ → V → Bool) (m : Map V) → Above b m → Above b (retain_map p m)
  unfolding retain_map
  Above-retain b p [] s = tt
  Above-retain b p ((j, w) ∷ m) s =
      ground (arith, Above-retain (suc j) p m s.1, Above-mono b (suc j) (retain_map p m))

  pub lookup-Above : (b k : ℕ) (m : Map V) → Above b m → k < b → lookup k m ≡ none
  unfolding lookup
  lookup-Above b k [] s h = refl
  lookup-Above b k ((j, w) ∷ m) s h = ground (arith, lookup-Above (suc j) k m s.1)

  pub lookup-insert_sorted :
      (b k j : ℕ) (v : V) (m : Map V)
      → Above b m
      → lookup j (insert_sorted k v m) ≡ (if k == j then some v else lookup j m)
  unfolding lookup insert_sorted
  lookup-insert_sorted b k j v [] s = refl
  lookup-insert_sorted b k j v ((i, w) ∷ m) s =
      ground (arith, lookup-insert_sorted (suc i) k j v m s.1)

  pub length-insert_sorted :
      (b k : ℕ) (v : V) (m : Map V)
      → Above b m
      → lookup k m ≡ none
      → length (insert_sorted k v m) ≡ suc (length m)
  unfolding lookup insert_sorted
  length-insert_sorted b k v [] s h = refl
  length-insert_sorted b k v ((i, w) ∷ m) s h =
      ground (arith, length-insert_sorted (suc i) k v m s.1)

  pub AllEntries-insert_sorted {κ} :
      (P : ℕ → V → Type κ) (k : ℕ) (v : V) (m : Map V)
      → AllEntries P m
      → P k v
      → AllEntries P (insert_sorted k v m)
  unfolding insert_sorted
  AllEntries-insert_sorted P k v [] a h = (h, tt)
  AllEntries-insert_sorted P k v ((j, w) ∷ m) a h =
      ground (arith, AllEntries-insert_sorted P k v m a.1 h)
