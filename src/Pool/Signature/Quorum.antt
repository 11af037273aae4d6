-- ===== src/Pool/Signature/Quorum.antt =====
-- What the threshold of message-relayer/src/pool/mod.rs guarantees of two groups of attestors.
use native.Mathlib.Nat.{mod-eq_of_lt, mul-div-le, lt-mul-div-succ}
use asc_message_relayer.Prelude.{
  ℕ, suc, ◌+◌, ◌*◌, ◌/◌, ◌%◌, ◌^◌, ◌≤◌, ◌<◌, ◌≡◌, refl, Bool, true, false, not, List, [], ◌∷◌,
  length, length-retain, contains, contains-retain, retain, ◌==◌, ==_iff, arith, Bool-cases, inl,
  inr,
}
use asc_message_relayer.Pool.Signature.{calculate_threshold}

-- No address occurs twice.
abbrev pub Unrepeated : List ℕ → Type 0
Unrepeated [] = Unit {0}
Unrepeated (x ∷ xs) = (contains xs x ≡ false) × Unrepeated xs

abbrev pub Within : List ℕ → List ℕ → Type 0
Within xs ys = (a : ℕ) → contains xs a ≡ true → contains ys a ≡ true

-- The members of both.
abbrev pub common : List ℕ → List ℕ → List ℕ
common xs ys = retain (contains xs) ys

without_lt :
    (a : ℕ) (ys : List ℕ)
    → contains ys a ≡ true
    → suc (length (retain (λ b. not (b == a)) ys)) ≤ length ys
without_lt a [] h = absurd (cc)
without_lt a (y ∷ ys) h = elim (Bool-cases (y == a)) [
  | inl e ↦ rw e (omega (arith, length-retain (λ b. not (b == a)) ys))
  | inr e ↦ rw e (omega (arith, without_lt a ys (rw e at h)))
]

-- A list without repetitions is not longer than one that has all its members.
pub length-Within : (xs ys : List ℕ) → Unrepeated xs → Within xs ys → length xs ≤ length ys
length-Within [] ys u w = omega arith
length-Within (x ∷ xs) ys u w =
    let there : contains ys x ≡ true = w x (ground arith) in
    let rest = length-Within xs (retain (λ b. not (b == x)) ys) u.1 inside in
    omega (arith, without_lt x ys there, rest)
  where
    inside : Within xs (retain (λ b. not (b == x)) ys)
    inside a h = elim (Bool-cases (a == x)) [
      | inl e ↦ (let bad : contains xs x ≡ true = rw ((==_iff a x).0 e) at h in absurd (cc))
      | inr e ↦
          let in_ys = w a (ground (arith, h)) in
          ground (arith, contains-retain (λ b. not (b == x)) ys a, in_ys, e)
    ]

Unrepeated-retain : (p : ℕ → Bool) (xs : List ℕ) → Unrepeated xs → Unrepeated (retain p xs)
Unrepeated-retain p [] u = tt
Unrepeated-retain p (x ∷ xs) u = elim (Bool-cases (p x)) [
  | inl e ↦ rw e (ground (arith, contains-retain p xs x, u.0), Unrepeated-retain p xs u.1)
  | inr e ↦ rw e (Unrepeated-retain p xs u.1)
]

length-split :
    (p : ℕ → Bool) (xs : List ℕ)
    → length (retain p xs) + length (retain (λ a. not (p a)) xs) ≡ length xs
length-split p [] = refl
length-split p (x ∷ xs) = ground (arith, length-split p xs)

-- Two groups of a list have as many members in common as their sizes exceed its length by.
length-common :
    (all xs ys : List ℕ)
    → Unrepeated xs
    → Unrepeated ys
    → Within xs all
    → Within ys all
    → length xs + length ys ≤ length all + length (common xs ys)
length-common all xs ys ux uy wx wy =
    let in_xs = length-Within xs (retain (contains xs) all) ux both in
    let out_xs =
      length-Within (retain (λ a. not (contains xs a)) ys) (retain (λ a. not (contains xs a)) all)
        (Unrepeated-retain (λ a. not (contains xs a)) ys uy) others in
    omega (arith, in_xs, out_xs, length-split (contains xs) ys, length-split (contains xs) all)
  where
    both : Within xs (retain (contains xs) all)
    both a h = ground (arith, contains-retain (contains xs) all a, wx a h, h)

    others : Within (retain (λ a. not (contains xs a)) ys) (retain (λ a. not (contains xs a)) all)
    others a h =
        let here = contains-retain (λ b. not (contains xs b)) ys a in
        let there = contains-retain (λ b. not (contains xs b)) all a in
        let in_ys : contains ys a ≡ true = ground (arith, h, here) in
        ground (arith, h, here, there, wy a in_ys)

-- Of at least one and fewer than 2^63 attestors, all together reach the threshold, it exceeds two
-- thirds of them, and any two groups of distinct attestors among them that each reach it have more
-- than a third of them in common.
pub calculate_threshold-overlap :
    (attestors xs ys : List ℕ)
    → 1 ≤ length attestors
    → length attestors < 2 ^ 63
    → Unrepeated xs
    → Unrepeated ys
    → Within xs attestors
    → Within ys attestors
    → calculate_threshold (length attestors) ≤ length xs
    → calculate_threshold (length attestors) ≤ length ys
    → (calculate_threshold (length attestors) ≤ length attestors)
      × (2 * length attestors < 3 * calculate_threshold (length attestors))
      × (length attestors < 3 * length (common xs ys))
unfolding calculate_threshold
calculate_threshold-overlap attestors xs ys one word ux uy wx wy tx ty =
    let n = length attestors in
    let exact : 2 * n % 2 ^ 64 ≡ 2 * n = mod-eq_of_lt (omega (arith, word)) in
    let low = mul-div-le (2 * n) 3 in
    let high = lt-mul-div-succ (2 * n) {b = 3} (omega arith) in
    let t : calculate_threshold n ≡ 2 * n / 3 + 1 = rw exact in
    let shared = length-common attestors xs ys ux uy wx wy in
    (
      omega (arith, t, low, high, one),
      omega (arith, t, low, high),
      omega (arith, t, low, high, shared, tx, ty),
    )
