-- ===== src/Pending/Delays.antt =====
-- When a transaction of message-relayer/src/pending.rs is due again, and which come first.
use mathlib.Core.Path.{ap₂, subst}
use asc_message_relayer.Prelude.{
  ℕ, zero, suc, ◌^◌, ◌≤◌, ◌≡◌, ◌⊎◌, ◌==◌, ==_iff, ==_refl, ◌∙◌, sym, refl, ap, true, none, some,
  List, [], ◌∷◌, length, take, map, ltb, leb, arith, Bool-cases, inl, inr, All, if_both,
}
use asc_message_relayer.Prelude.Map.{Map, lookup, Distinct}
use asc_message_relayer.Types.{secs}
use asc_message_relayer.Pending.{
  NotReadyPolicy, PendingTx, PendingTxs, doubled, next_delay, due, insert_by_age, sort_by_age,
  first_due, ready,
}

power_positive : (e : ℕ) → 1 ≤ 2 ^ e
power_positive zero = omega arith
power_positive (suc e) = omega (arith, power_positive e)

pub doubled_bounds : (exp : ℕ) → (secs 30 ≤ doubled exp) × (doubled exp ≤ secs 600)
doubled_bounds exp = omega (arith, power_positive exp)

-- Inside the window the delay is the interval of the policy, past it from half a minute to ten.
next_delay_bounds :
    (policy : NotReadyPolicy) (waited : ℕ)
    → (next_delay policy waited ≡ policy.poll_interval)
      ⊎ ((policy.poll_window ≤ waited)
          × (secs 30 ≤ next_delay policy waited)
          × (next_delay policy waited ≤ secs 600))
unfolding next_delay
next_delay_bounds policy waited = elim (Bool-cases (ltb waited policy.poll_window)) [
  | inl e ↦ rw e (inl refl)
  | inr e ↦ rw e (inr (ground (arith, e), (doubled_bounds _).0, (doubled_bounds _).1))
]

-- The entries by age: each is no younger than those after it.
abbrev pub ByAge : {M : Type 0} → List (ℕ × PendingTx M) → Type 0
ByAge [] = Unit {0}
ByAge (x ∷ xs) = All (λ y. x.1.first_seen ≤ y.1.first_seen) xs × ByAge xs

module _ {M : Type 0} where
  All-insert_by_age :
      (P : ℕ × PendingTx M → Type 0) (x : ℕ × PendingTx M) (xs : List (ℕ × PendingTx M))
      → P x
      → All P xs
      → All P (insert_by_age x xs)
  unfolding insert_by_age
  All-insert_by_age P x [] px a = (px, tt)
  All-insert_by_age P x (y ∷ ys) px a =
      if_both (All P) (leb x.1.first_seen y.1.first_seen) _ _ (px, a)
        (a.0, All-insert_by_age P x ys px a.1)

  All-mono :
      (P Q : ℕ × PendingTx M → Type 0) (xs : List (ℕ × PendingTx M))
      → ((x : ℕ × PendingTx M) → P x → Q x)
      → All P xs
      → All Q xs
  All-mono P Q [] f a = tt
  All-mono P Q (x ∷ xs) f a = (f x a.0, All-mono P Q xs f a.1)

  insert_by_age-ByAge :
      (x : ℕ × PendingTx M) (xs : List (ℕ × PendingTx M)) → ByAge xs → ByAge (insert_by_age x xs)
  unfolding insert_by_age
  insert_by_age-ByAge x [] a = (tt, tt)
  insert_by_age-ByAge x (y ∷ ys) a = elim (Bool-cases (leb x.1.first_seen y.1.first_seen)) [
    | inl e ↦
        let le : x.1.first_seen ≤ y.1.first_seen = ground (arith, e) in
        rw e (
          (
            le,
            All-mono (λ z. y.1.first_seen ≤ z.1.first_seen) (λ z. x.1.first_seen ≤ z.1.first_seen)
                ys (λ z h. omega (arith, h, le)) a.0,
          ),
          a,
        )
    | inr e ↦ rw e (
      All-insert_by_age (λ z. y.1.first_seen ≤ z.1.first_seen) x ys (ground (arith, e)) a.0,
      insert_by_age-ByAge x ys a.1,
    )
  ]

  sort-ByAge : (xs : List (ℕ × PendingTx M)) → ByAge (sort_by_age xs)
  unfolding sort_by_age
  sort-ByAge [] = tt
  sort-ByAge (x ∷ xs) = insert_by_age-ByAge x (sort_by_age xs) (sort-ByAge xs)

  All-sort :
      (P : ℕ × PendingTx M → Type 0) (xs : List (ℕ × PendingTx M))
      → All P xs
      → All P (sort_by_age xs)
  unfolding sort_by_age
  All-sort P [] a = tt
  All-sort P (x ∷ xs) a = All-insert_by_age P x (sort_by_age xs) a.0 (All-sort P xs a.1)

  -- Where an entry stands in a list.
  abbrev pub Listed : ℕ × PendingTx M → List (ℕ × PendingTx M) → Type 0
  Listed x [] = ⊥
  Listed x (y ∷ ys) = (y ≡ x) ⊎ Listed x ys

  Listed-insert :
      (x y : ℕ × PendingTx M) (ys : List (ℕ × PendingTx M))
      → (y ≡ x) ⊎ Listed x ys
      → Listed x (insert_by_age y ys)
  unfolding insert_by_age
  Listed-insert x y [] h = h
  Listed-insert x y (z ∷ zs) h = elim (Bool-cases (leb y.1.first_seen z.1.first_seen)) [
    | inl e ↦ rw e h
    | inr e ↦ rw e (elim h [
      | inl q ↦ inr (Listed-insert x y zs (inl q))
      | inr (inl q) ↦ inl q
      | inr (inr l) ↦ inr (Listed-insert x y zs (inr l))
    ])
  ]

  Listed-sort :
      (x : ℕ × PendingTx M) (xs : List (ℕ × PendingTx M)) → Listed x xs → Listed x (sort_by_age xs)
  unfolding sort_by_age
  Listed-sort x [] h = h
  Listed-sort x (y ∷ ys) (inl q) = Listed-insert x y (sort_by_age ys) (inl q)
  Listed-sort x (y ∷ ys) (inr l) = Listed-insert x y (sort_by_age ys) (inr (Listed-sort x ys l))

  All-take :
      (P : ℕ × PendingTx M → Type 0) (n : ℕ) (xs : List (ℕ × PendingTx M))
      → All P xs
      → All P (take n xs)
  All-take P zero xs a = tt
  All-take P (suc n) [] a = tt
  All-take P (suc n) (x ∷ xs) a = (a.0, All-take P n xs a.1)

  All-Listed :
      (P : ℕ × PendingTx M → Type 0) (x : ℕ × PendingTx M) (xs : List (ℕ × PendingTx M))
      → All P xs
      → Listed x xs
      → P x
  All-Listed P x [] a l = absurd l
  All-Listed P x (y ∷ ys) a (inl q) = subst P q a.0
  All-Listed P x (y ∷ ys) a (inr l) = All-Listed P x ys a.1 l

  pub Listed-lookup :
      (x : ℕ × PendingTx M) (m : Map (PendingTx M))
      → Distinct m
      → Listed x m
      → lookup x.0 m ≡ some x.1
  unfolding lookup
  Listed-lookup x [] d l = absurd l
  Listed-lookup x ((k, e) ∷ m) d (inl q) =
      rw (ap (λ y. y.0) q) (rw (==_refl x.0) (ap (λ y. some y.1) q))
  Listed-lookup x ((k, e) ∷ m) d (inr l) =
      let found : lookup x.0 m ≡ some x.1 = Listed-lookup x m d.1 l in
      elim (Bool-cases (k == x.0)) [
        | inl same ↦
            let gone : lookup x.0 m ≡ none = rw ((==_iff k x.0).0 same) at d.0 in
            let bad : some x.1 ≡ none = sym found ∙ gone in absurd (cc)
        | inr other ↦ rw other found
      ]

  due-All :
      (now : ℕ) (m : Map (PendingTx M))
      → All (λ x. Listed x m × (x.1.next_attempt_at ≤ now)) (due now m)
  unfolding due
  due-All now [] = tt
  due-All now ((k, f) ∷ m) =
      let rest =
        All-mono (λ x. Listed x m × (x.1.next_attempt_at ≤ now))
          (λ x. ((k, f) ≡ x ⊎ Listed x m) × (x.1.next_attempt_at ≤ now)) (due now m)
          (λ x h. (inr h.0, h.1)) (due-All now m) in
      elim (Bool-cases (leb f.next_attempt_at now)) [
        | inl e ↦ rw e ((inl refl, ground (arith, e)), rest)
        | inr e ↦ rw e rest
      ]

  due-Listed :
      (now tx : ℕ) (m : Map (PendingTx M)) {e : PendingTx M}
      → lookup tx m ≡ some e
      → e.next_attempt_at ≤ now
      → Listed (tx, e) (due now m)
  unfolding due lookup
  due-Listed now tx [] h le = absurd (cc)
  due-Listed now tx ((k, f) ∷ m) {e} h le = elim (Bool-cases (k == tx)) [
    | inl q ↦
        let same : f ≡ e = (let s : some f ≡ some e = rw q at h in cc) in
        let at : leb f.next_attempt_at now ≡ true =
          ground (arith, ap (λ g. g.next_attempt_at) same, le) in
        rw at (inl (ap₂ (λ a b. (a, b)) ((==_iff k tx).0 q) same))
    | inr q ↦
        let rest = due-Listed now tx m {e = e} (rw q at h) le in
        elim (Bool-cases (leb f.next_attempt_at now)) [
          | inl d ↦ rw d (inr rest)
          | inr d ↦ rw d rest
        ]
  ]

  ByAge-take : (n : ℕ) (xs : List (ℕ × PendingTx M)) → ByAge xs → ByAge (take n xs)
  ByAge-take zero xs a = tt
  ByAge-take (suc n) [] a = tt
  ByAge-take (suc n) (x ∷ xs) a = (All-take _ n xs a.0, ByAge-take n xs a.1)

  length-take_le : (n : ℕ) (xs : List (ℕ × PendingTx M)) → length (take n xs) ≤ n
  length-take_le zero xs = omega arith
  length-take_le (suc n) [] = omega arith
  length-take_le (suc n) (x ∷ xs) = omega (arith, length-take_le n xs)

  -- An entry that a batch leaves out: the batch is full, of entries that are no younger.
  abbrev pub Waits : ℕ → ℕ × PendingTx M → List (ℕ × PendingTx M) → Type 0
  Waits n x batch = (length batch ≡ n) × All (λ y. y.1.first_seen ≤ x.1.first_seen) batch

  take-Listed :
      (n : ℕ) (x : ℕ × PendingTx M) (xs : List (ℕ × PendingTx M))
      → ByAge xs
      → Listed x xs
      → Listed x (take n xs) ⊎ Waits n x (take n xs)
  take-Listed n x [] a l = absurd l
  take-Listed zero x (y ∷ ys) a l = inr (refl, tt)
  take-Listed (suc n) x (y ∷ ys) a (inl q) = inl (inl q)
  take-Listed (suc n) x (y ∷ ys) a (inr l) = elim (take-Listed n x ys a.1 l) [
    | inl k ↦ inl (inr k)
    | inr w ↦
        inr
          (omega (arith, w.0), (All-Listed (λ z. y.1.first_seen ≤ z.1.first_seen) x ys a.0 l, w.1))
  ]

  -- What a round takes: entries that are due, the oldest first, no more than it may; and a due entry
  -- that it leaves out waits behind a full batch of no younger ones.
  pub record Batch (n now : ℕ) (p : PendingTxs M) (batch : List (ℕ × PendingTx M)) : Type 0 where
    pub oldest_first : ByAge batch
    pub bounded : length batch ≤ n
    pub is_due : All (λ x. Listed x p.seen × (x.1.next_attempt_at ≤ now)) batch
    pub fair :
        (tx : ℕ) (e : PendingTx M)
        → lookup tx p.seen ≡ some e
        → e.next_attempt_at ≤ now
        → Listed (tx, e) batch ⊎ Waits n (tx, e) batch

  -- Ready hands out due entries only, oldest first and no more than asked for, and a due entry
  -- that it leaves out waits behind a full batch of entries that are no younger.
  pub ready-Batch :
      (n now : ℕ) (p : PendingTxs M)
      → (batch : List (ℕ × PendingTx M)) × Batch n now p batch
        × (ready n now p ≡ map (λ x. (x.0, x.1.meta)) batch)
  unfolding ready first_due
  ready-Batch n now p =
      let sorted = sort_by_age (due now p.seen) in
      (
        take n sorted,
        record {
          oldest_first = ByAge-take n sorted (sort-ByAge (due now p.seen));
          bounded = length-take_le n sorted;
          is_due = All-take _ n sorted (All-sort _ (due now p.seen) (due-All now p.seen));
          fair = λ tx e h le.
              take-Listed n (tx, e) sorted (sort-ByAge (due now p.seen))
                (Listed-sort (tx, e) (due now p.seen) (due-Listed now tx p.seen h le));
        },
        refl,
      )
