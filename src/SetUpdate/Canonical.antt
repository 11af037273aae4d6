-- ===== src/SetUpdate/Canonical.antt =====
-- The canonical order of write-ability/src/hash.rs: one array for each set of addresses.
use mathlib.Core.Path.{ap₂}
use asc_message_relayer.Prelude.{
  ℕ, ◌≤◌, ◌<◌, ◌≡◌, ◌∙◌, sym, ap, refl, true, false, ◌||◌, List, [], ◌∷◌, ◌==◌, contains, leb,
  arith, Bool-cases, inl, inr, All, if_both, ==_refl, ==_iff,
}
use asc_message_relayer.SetUpdate.{
  insert_address, sort_addresses, cons_new, dedup, canonical_attestor_order,
}

abbrev pub Sorted : List ℕ → Type 0
Sorted [] = Unit {0}
Sorted (a ∷ bs) = All (λ b. a ≤ b) bs × Sorted bs

abbrev pub Rising : List ℕ → Type 0
Rising [] = Unit {0}
Rising (a ∷ bs) = All (λ b. a < b) bs × Rising bs

All-mono : (P Q : ℕ → Type 0) (xs : List ℕ) → ((x : ℕ) → P x → Q x) → All P xs → All Q xs
All-mono P Q [] f a = tt
All-mono P Q (x ∷ xs) f a = (f x a.0, All-mono P Q xs f a.1)

All-contains : (P : ℕ → Type 0) (xs : List ℕ) (a : ℕ) → All P xs → contains xs a ≡ true → P a
All-contains P [] a p c = absurd (cc)
All-contains P (x ∷ xs) a p c = elim (Bool-cases (x == a)) [
  | inl e ↦ rw (← (==_iff x a).0 e) p.0
  | inr e ↦ All-contains P xs a p.1 (ground (arith, c, e))
]

All-insert_address :
    (P : ℕ → Type 0) (a : ℕ) (bs : List ℕ) → P a → All P bs → All P (insert_address a bs)
unfolding insert_address
All-insert_address P a [] p q = (p, tt)
All-insert_address P a (b ∷ bs) p q =
    if_both (All P) (leb a b) _ _ (p, q) (q.0, All-insert_address P a bs p q.1)

insert_address-Sorted : (a : ℕ) (bs : List ℕ) → Sorted bs → Sorted (insert_address a bs)
unfolding insert_address
insert_address-Sorted a [] s = (tt, tt)
insert_address-Sorted a (b ∷ bs) s = elim (Bool-cases (leb a b)) [
  | inl e ↦
      let le : a ≤ b = ground (arith, e) in
      rw e ((le, All-mono (λ c. b ≤ c) (λ c. a ≤ c) bs (λ c h. omega (arith, h, le)) s.0), s)
  | inr e ↦
      rw e (
        All-insert_address (λ c. b ≤ c) a bs (ground (arith, e)) s.0,
        insert_address-Sorted a bs s.1,
      )
]

contains-insert_address :
    (a c : ℕ) (bs : List ℕ) → contains (insert_address a bs) c ≡ (a == c || contains bs c)
unfolding insert_address
contains-insert_address a c [] = refl
contains-insert_address a c (b ∷ bs) = ground (arith, contains-insert_address a c bs)

sort_addresses-Sorted : (xs : List ℕ) → Sorted (sort_addresses xs)
unfolding sort_addresses
sort_addresses-Sorted [] = tt
sort_addresses-Sorted (a ∷ xs) =
    insert_address-Sorted a (sort_addresses xs) (sort_addresses-Sorted xs)

contains-sort_addresses : (c : ℕ) (xs : List ℕ) → contains (sort_addresses xs) c ≡ contains xs c
unfolding sort_addresses
contains-sort_addresses c [] = refl
contains-sort_addresses c (a ∷ xs) =
    contains-insert_address a c (sort_addresses xs)
    ∙ ap (λ b. a == c || b) (contains-sort_addresses c xs)

-- Below all of a rising list, or equal to the first of it.
cons_new-Rising : (a : ℕ) (bs : List ℕ) → All (λ b. a ≤ b) bs → Rising bs → Rising (cons_new a bs)
cons_new-Rising a [] s r = (tt, tt)
cons_new-Rising a (b ∷ bs) s r = elim (Bool-cases (a == b)) [
  | inl e ↦ rw e r
  | inr e ↦
      let lt : a < b = ground (arith, e, s.0) in
      rw e ((lt, All-mono (λ c. b < c) (λ c. a < c) bs (λ c h. omega (arith, h, lt)) r.0), r)
]

contains-cons_new : (a c : ℕ) (bs : List ℕ) → contains (cons_new a bs) c ≡ (a == c || contains bs c)
contains-cons_new a c [] = refl
contains-cons_new a c (b ∷ bs) = ground arith

All-cons_new : (P : ℕ → Type 0) (a : ℕ) (bs : List ℕ) → P a → All P bs → All P (cons_new a bs)
All-cons_new P a [] p q = (p, tt)
All-cons_new P a (b ∷ bs) p q = if_both (All P) (a == b) _ _ q (p, q)

All-dedup : (P : ℕ → Type 0) (xs : List ℕ) → All P xs → All P (dedup xs)
unfolding dedup
All-dedup P [] a = tt
All-dedup P (x ∷ xs) a = All-cons_new P x (dedup xs) a.0 (All-dedup P xs a.1)

dedup-Rising : (xs : List ℕ) → Sorted xs → Rising (dedup xs)
unfolding dedup
dedup-Rising [] s = tt
dedup-Rising (x ∷ xs) s =
    cons_new-Rising x (dedup xs) (All-dedup (λ b. x ≤ b) xs s.0) (dedup-Rising xs s.1)

contains-dedup : (c : ℕ) (xs : List ℕ) → contains (dedup xs) c ≡ contains xs c
unfolding dedup
contains-dedup c [] = refl
contains-dedup c (x ∷ xs) =
    contains-cons_new x c (dedup xs) ∙ ap (λ b. x == c || b) (contains-dedup c xs)

canonical-Rising : (xs : List ℕ) → Rising (canonical_attestor_order xs)
unfolding canonical_attestor_order
canonical-Rising xs = dedup-Rising (sort_addresses xs) (sort_addresses-Sorted xs)

contains-canonical :
    (c : ℕ) (xs : List ℕ) → contains (canonical_attestor_order xs) c ≡ contains xs c
unfolding canonical_attestor_order
contains-canonical c xs = contains-dedup c (sort_addresses xs) ∙ contains-sort_addresses c xs

head_le : (y a : ℕ) (ys : List ℕ) → Rising (y ∷ ys) → contains (y ∷ ys) a ≡ true → y ≤ a
head_le y a ys r c =
    All-contains (λ b. y ≤ b) (y ∷ ys) a
      (omega arith, All-mono (λ b. y < b) (λ b. y ≤ b) ys (λ b h. omega (arith, h)) r.0) c

not_below_itself : (x a : ℕ) (xs : List ℕ) → All (λ b. x < b) xs → x ≡ a → contains xs a ≡ false
not_below_itself x a xs s e = elim (Bool-cases (contains xs a)) [
  | inr n ↦ n
  | inl c ↦ let lt = All-contains (λ b. x < b) xs a s c in absurd (omega (arith, lt, e))
]

-- A rising list is known by its members.
Rising-unique :
    (xs ys : List ℕ) → Rising xs → Rising ys → ((a : ℕ) → contains xs a ≡ contains ys a) → xs ≡ ys
Rising-unique [] [] r s h = refl
Rising-unique [] (y ∷ ys) r s h =
    let there : contains (y ∷ ys) y ≡ true = ground (arith, ==_refl y) in
    let bad : false ≡ true = h y ∙ there in absurd (cc)
Rising-unique (x ∷ xs) [] r s h =
    let there : contains (x ∷ xs) x ≡ true = ground (arith, ==_refl x) in
    let bad : true ≡ false = sym there ∙ h x in absurd (cc)
Rising-unique (x ∷ xs) (y ∷ ys) r s h =
    let in_left : contains (x ∷ xs) x ≡ true = ground (arith, ==_refl x) in
    let in_right : contains (y ∷ ys) y ≡ true = ground (arith, ==_refl y) in
    let up = head_le y x ys s (sym (h x) ∙ in_left) in
    let down = head_le x y xs r (h y ∙ in_right) in
    let same : x ≡ y = omega (arith, up, down) in
    ap₂ (λ a as'. a ∷ as') same
      (Rising-unique xs ys r.1 s.1 (λ a. elim (Bool-cases (x == a)) [
        | inl e ↦
            let e' = (==_iff x a).0 e in
            not_below_itself x a xs r.0 e' ∙ sym (not_below_itself y a ys s.0 (sym same ∙ e'))
        | inr n ↦ let n' : (y == a) ≡ false = (rw same at n) in let q = h a in rw (n, n') at q
      ]))

-- Lists of the same addresses, in any order and with any repetition, have one canonical order,
-- which rises strictly and has just these addresses.
pub canonical_attestor_order_unique :
    (xs ys : List ℕ)
    → ((a : ℕ) → contains xs a ≡ contains ys a)
    → Rising (canonical_attestor_order xs)
      × ((a : ℕ) → contains (canonical_attestor_order xs) a ≡ contains xs a)
      × (canonical_attestor_order xs ≡ canonical_attestor_order ys)
canonical_attestor_order_unique xs ys h = (
  canonical-Rising xs,
  λ a. contains-canonical a xs,
  Rising-unique (canonical_attestor_order xs) (canonical_attestor_order ys) (canonical-Rising xs)
      (canonical-Rising ys) (λ a. contains-canonical a xs ∙ h a ∙ sym (contains-canonical a ys)),
)
