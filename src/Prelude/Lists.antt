-- ===== src/Prelude/Lists.antt =====
-- Lists measured by native numbers, under the library's names, and options as Boolean tests.
use Prim.Native.Nat.{ℕ, zero, suc, ◌+◌, ◌≤◌}
use mathlib.Core.Path.{◌≡◌}
use mathlib.Core.Bool.{Bool, true, false, ◌||◌, ◌&&◌}
use mathlib.Core.List.{List, [], ◌∷◌, ◌++◌}
use mathlib.Core.Option.{Option, none, some}
use native.Mathlib.Omega.{arith}
use asc_message_relayer.Prelude.Tests.{◌==◌, if◌then◌else◌}

module _ {ℓ} {A : Type ℓ} where
  abbrev pub length : List A → ℕ
  length [] = 0
  length (x ∷ xs) = suc (length xs)

  abbrev pub take : ℕ → List A → List A
  take zero xs = []
  take (suc n) [] = []
  take (suc n) (x ∷ xs) = x ∷ take n xs

  abbrev pub drop : ℕ → List A → List A
  drop zero xs = xs
  drop (suc n) [] = []
  drop (suc n) (x ∷ xs) = drop n xs

  abbrev pub get_elem? : List A → ℕ → Option A
  get_elem? [] i = none
  get_elem? (x ∷ xs) zero = some x
  get_elem? (x ∷ xs) (suc i) = get_elem? xs i

  pub length-append : (xs ys : List A) → length (xs ++ ys) ≡ length xs + length ys
  length-append [] ys = omega arith
  length-append (x ∷ xs) ys = omega (arith, length-append xs ys)

  -- `retain` of `Vec` and `VecDeque`, by a Boolean test.
  abbrev pub retain : (A → Bool) → List A → List A
  retain p [] = []
  retain p (x ∷ xs) = let rest = retain p xs in if p x then x ∷ rest else rest

  -- `Iterator::find`.
  abbrev pub find_first : (A → Bool) → List A → Option A
  find_first p [] = none
  find_first p (x ∷ xs) = let rest = find_first p xs in if p x then some x else rest

  abbrev pub is_some : Option A → Bool
  is_some none = false
  is_some (some x) = true

  -- A predicate on each entry; it computes to a tuple.
  abbrev pub All {κ} : (A → Type κ) → List A → Type κ
  All P [] = Unit
  All P (x ∷ xs) = P x × All P xs

module _ {ℓ} {A : Type ℓ} where
  pub length-retain : (p : A → Bool) (xs : List A) → length (retain p xs) ≤ length xs
  length-retain p [] = omega arith
  length-retain p (x ∷ xs) = ground (arith, length-retain p xs)

  pub All-append {κ} : (P : A → Type κ) (xs ys : List A) → All P xs → All P ys → All P (xs ++ ys)
  All-append P [] ys hx hy = hy
  All-append P (x ∷ xs) ys hx hy = (hx.0, All-append P xs ys hx.1 hy)

-- `contains` of a vector of addresses or ids.
abbrev pub contains : List ℕ → ℕ → Bool
contains [] a = false
contains (x ∷ xs) a = (x == a) || contains xs a

pub contains-append :
    (xs : List ℕ) (k a : ℕ) → contains (xs ++ k ∷ []) a ≡ (contains xs a || k == a)
contains-append [] k a = ground arith
contains-append (x ∷ xs) k a = ground (arith, contains-append xs k a)

pub contains-retain :
    (p : ℕ → Bool) (xs : List ℕ) (a : ℕ) → contains (retain p xs) a ≡ (contains xs a && p a)
contains-retain p [] a = ground arith
contains-retain p (x ∷ xs) a = ground (arith, contains-retain p xs a)

pub find_first-some :
    (p : ℕ → Bool) (xs : List ℕ) {a : ℕ}
    → find_first p xs ≡ some a
    → (p a ≡ true) × (contains xs a ≡ true)
find_first-some p [] h = cc
find_first-some p (x ∷ xs) {a} h = ground (arith, find_first-some p xs {a = a})

pub find_first-none :
    (p : ℕ → Bool) (xs : List ℕ) (a : ℕ)
    → find_first p xs ≡ none
    → contains xs a ≡ true
    → p a ≡ false
find_first-none p [] a h m = cc
find_first-none p (x ∷ xs) a h m = ground (arith, find_first-none p xs a)
