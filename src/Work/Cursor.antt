-- ===== src/Work/Cursor.antt =====
-- The walk through a route's records: `RouteCursor` of message-relayer/src/work.rs. A directory is
-- the list of the ids that its record files name, in the order in which the filesystem gives them.
use asc_message_relayer.Prelude.{
  ℕ, zero, suc, ◌≤◌, ◌≡◌, refl, Bool, true, false, ◌&&◌, ◌||◌, Option, none, some, List, [], ◌∷◌,
  ltb, leb, max, take, length, contains, ◌==◌, if◌then◌else◌, arith, Bool-cases, if_both, ==_iff,
  inl, inr, ◌⊎◌, is_some,
}

abbrev pub window_size : ℕ
window_size = 4096

pub record RouteCursor : Type 0 where
  pub live_records : ℕ
  pub after : Option ℕ
  pub window : List ℕ
  pub lap_end : Option ℕ

-- `RouteCursor::new` counts the records.
abbrev pub new : List ℕ → RouteCursor
new ids = record { live_records = length ids; after = none; window = []; lap_end = none }

-- `largest.max(Some(id))`.
abbrev pub larger : Option ℕ → ℕ → Option ℕ
larger none id = some id
larger (some a) id = some (max a id)

unfoldable pub largest : Option ℕ → List ℕ → Option ℕ
largest found [] = found
largest found (id ∷ ids) = largest (larger found id) ids

abbrev pub is_some_and : (ℕ → Bool) → Option ℕ → Bool
is_some_and p none = false
is_some_and p (some a) = p a

-- What the scan skips: ids up to `after`, and, within a lap, ids past its end.
abbrev pub skipped : RouteCursor → ℕ → Bool
skipped c id =
    is_some_and (λ after. leb id after) c.after
    || is_some c.after && is_some_and (λ end. ltb end id) c.lap_end

-- The heap, as the ascending list of what it holds.
unfoldable pub insert_ascending : ℕ → List ℕ → List ℕ
insert_ascending id [] = id ∷ []
insert_ascending id (w ∷ ws) = if leb id w then id ∷ w ∷ ws else w ∷ insert_ascending id ws

-- A push, and a pop of the largest if there are then too many.
abbrev pub push_bounded : ℕ → ℕ → List ℕ → List ℕ
push_bounded size id heap =
    let pushed = insert_ascending id heap in
    if ltb size (length pushed) then take size pushed else pushed

unfoldable pub smallest : RouteCursor → ℕ → List ℕ → List ℕ → List ℕ
smallest c size [] heap = heap
smallest c size (id ∷ ids) heap =
    smallest c size ids (if skipped c id then heap else push_bounded size id heap)

unfoldable pub refill : List ℕ → RouteCursor → RouteCursor
refill ids c = record c {
  lap_end = if is_some c.after then c.lap_end else largest none ids;
  window = smallest c window_size ids [];
}

abbrev pub AllIds : (ℕ → Type 0) → List ℕ → Type 0
AllIds P [] = Unit {0}
AllIds P (id ∷ ids) = P id × AllIds P ids

abbrev pub Ascending : List ℕ → Type 0
Ascending [] = Unit {0}
Ascending (id ∷ ids) = AllIds (λ j. id ≤ j) ids × Ascending ids

AllIds-mono :
    (P Q : ℕ → Type 0) (ids : List ℕ) → ((j : ℕ) → P j → Q j) → AllIds P ids → AllIds Q ids
AllIds-mono P Q [] f a = tt
AllIds-mono P Q (id ∷ ids) f a = (f id a.0, AllIds-mono P Q ids f a.1)

AllIds-insert :
    (P : ℕ → Type 0) (id : ℕ) (ws : List ℕ) → P id → AllIds P ws → AllIds P (insert_ascending id ws)
unfolding insert_ascending
AllIds-insert P id [] p a = (p, tt)
AllIds-insert P id (w ∷ ws) p a =
    if_both (AllIds P) (leb id w) _ _ (p, a) (a.0, AllIds-insert P id ws p a.1)

AllIds-take : (P : ℕ → Type 0) (n : ℕ) (ws : List ℕ) → AllIds P ws → AllIds P (take n ws)
AllIds-take P zero ws a = tt
AllIds-take P (suc n) [] a = tt
AllIds-take P (suc n) (w ∷ ws) a = (a.0, AllIds-take P n ws a.1)

insert_ascending-Ascending :
    (id : ℕ) (ws : List ℕ) → Ascending ws → Ascending (insert_ascending id ws)
unfolding insert_ascending
insert_ascending-Ascending id [] a = (tt, tt)
insert_ascending-Ascending id (w ∷ ws) a = elim (Bool-cases (leb id w)) [
  | inl e ↦
      let le : id ≤ w = ground (arith, e) in
      rw e ((le, AllIds-mono (λ j. w ≤ j) (λ j. id ≤ j) ws (λ j h. omega (arith, h, le)) a.0), a)
  | inr e ↦ rw e (
    AllIds-insert (λ j. w ≤ j) id ws (ground (arith, e)) a.0,
    insert_ascending-Ascending id ws a.1,
  )
]

take-Ascending : (n : ℕ) (ws : List ℕ) → Ascending ws → Ascending (take n ws)
take-Ascending zero ws a = tt
take-Ascending (suc n) [] a = tt
take-Ascending (suc n) (w ∷ ws) a = (AllIds-take (λ j. w ≤ j) n ws a.0, take-Ascending n ws a.1)

length-insert_ascending : (id : ℕ) (ws : List ℕ) → length (insert_ascending id ws) ≡ suc (length ws)
unfolding insert_ascending
length-insert_ascending id [] = refl
length-insert_ascending id (w ∷ ws) = ground (arith, length-insert_ascending id ws)

contains-insert_ascending :
    (id j : ℕ) (ws : List ℕ) → contains (insert_ascending id ws) j ≡ (id == j || contains ws j)
unfolding insert_ascending
contains-insert_ascending id j [] = ground arith
contains-insert_ascending id j (w ∷ ws) = ground (arith, contains-insert_ascending id j ws)

-- An id that a window may miss: the window is full, and of smaller ids.
abbrev pub Passed : ℕ → ℕ → List ℕ → Type 0
Passed size id ws = (length ws ≡ size) × AllIds (λ j. j ≤ id) ws

-- Of an ascending list, a cut misses only what is not below what it keeps.
cut :
    (n id : ℕ) (ws : List ℕ)
    → Ascending ws
    → contains ws id ≡ true
    → (contains (take n ws) id ≡ true) ⊎ Passed n id (take n ws)
cut n id [] a c = absurd (cc)
cut zero id (w ∷ ws) a c = inr (refl, tt)
cut (suc n) id (w ∷ ws) a c = elim (Bool-cases (w == id)) [
  | inl e ↦ inl (ground (arith, e))
  | inr e ↦
      let there : contains ws id ≡ true = ground (arith, c, e) in
      let above : w ≤ id = member-AllIds id w ws a.0 there in
      elim (cut n id ws a.1 there) [
        | inl h ↦ inl (ground (arith, h))
        | inr h ↦ inr (omega (arith, h.0), (above, h.1))
      ]
]
  where
    member-AllIds : (i w : ℕ) (vs : List ℕ) → AllIds (λ j. w ≤ j) vs → contains vs i ≡ true → w ≤ i
    member-AllIds i w [] a c = absurd (cc)
    member-AllIds i w (v ∷ vs) a c = ground (arith, member-AllIds i w vs a.1, a.0)

length-take : (n : ℕ) (ws : List ℕ) → n ≤ length ws → length (take n ws) ≡ n
length-take zero ws le = refl
length-take (suc n) [] le = absurd (omega (arith, le))
length-take (suc n) (w ∷ ws) le = omega (arith, length-take n ws (omega (arith, le)))

-- A full window stays below an id that it has passed.
passed : (n id x : ℕ) (ws : List ℕ) → Passed n id ws → Passed n id (take n (insert_ascending x ws))
unfolding insert_ascending
passed zero id x ws p = (refl, tt)
passed (suc n) id x [] p = absurd (omega (arith, p.0))
passed (suc n) id x (w ∷ ws) p = elim (Bool-cases (leb x w)) [
  | inl e ↦ rw e (
    omega (arith, length-take n (w ∷ ws) (omega (arith, p.0))),
    (ground (arith, e, p.1.0), AllIds-take (λ j. j ≤ id) n (w ∷ ws) p.1),
  )
  | inr e ↦
      let q = passed n id x ws (omega (arith, p.0), p.1.1) in
      rw e (omega (arith, q.0), (p.1.0, q.1))
]

-- The window has an id, or has passed it.
abbrev pub Offers : ℕ → ℕ → List ℕ → Type 0
Offers size id ws = (contains ws id ≡ true) ⊎ Passed size id ws

-- What holds of a window while it is filled.
abbrev Filled : ℕ → List ℕ → Type 0
Filled size ws = Ascending ws × (length ws ≤ size)

module _ (size x : ℕ) (ws : List ℕ) (f : Filled size ws) where
  push-Filled : Filled size (push_bounded size x ws)
  push-Filled =
      let pushed = insert_ascending x ws in
      let up = insert_ascending-Ascending x ws f.0 in
      elim (Bool-cases (ltb size (length pushed))) [
        | inl e ↦
            let full : size ≤ length pushed = ground (arith, e) in
            rw e (take-Ascending size pushed up, omega (arith, length-take size pushed full))
        | inr e ↦ rw e (up, ground (arith, e))
      ]

  push-Offers-new :
      (id : ℕ)
      → contains (insert_ascending x ws) id ≡ true
      → Offers size id (push_bounded size x ws)
  push-Offers-new id c = elim (Bool-cases (ltb size (length (insert_ascending x ws)))) [
    | inl e ↦ rw e (cut size id (insert_ascending x ws) (insert_ascending-Ascending x ws f.0) c)
    | inr e ↦ rw e (inl c)
  ]

  push-Offers : (id : ℕ) → Offers size id ws → Offers size id (push_bounded size x ws)
  push-Offers id (inl c) = push-Offers-new id (ground (arith, contains-insert_ascending x id ws, c))
  push-Offers id (inr p) =
      let over : ltb size (length (insert_ascending x ws)) ≡ true =
        ground (arith, length-insert_ascending x ws, p.0) in
      rw over (inr (passed size id x ws p))

-- One id of the scan.
abbrev scanned : RouteCursor → ℕ → ℕ → List ℕ → List ℕ
scanned c size id heap = if skipped c id then heap else push_bounded size id heap

module _ (c : RouteCursor) (size : ℕ) where
  scanned-Filled : (x : ℕ) (ws : List ℕ) → Filled size ws → Filled size (scanned c size x ws)
  scanned-Filled x ws f = if_both (Filled size) (skipped c x) _ _ f (push-Filled size x ws f)

  smallest-Filled : (ids ws : List ℕ) → Filled size ws → Filled size (smallest c size ids ws)
  unfolding smallest
  smallest-Filled [] ws f = f
  smallest-Filled (x ∷ ids) ws f = smallest-Filled ids (scanned c size x ws) (scanned-Filled x ws f)

  smallest-keeps :
      (id : ℕ) (ids ws : List ℕ)
      → Filled size ws
      → Offers size id ws
      → Offers size id (smallest c size ids ws)
  unfolding smallest
  smallest-keeps id [] ws f o = o
  smallest-keeps id (x ∷ ids) ws f o =
      smallest-keeps id ids (scanned c size x ws) (scanned-Filled x ws f)
        (if_both (Offers size id) (skipped c x) _ _ o (push-Offers size x ws f id o))

  smallest-finds :
      (id : ℕ) (ids ws : List ℕ)
      → Filled size ws
      → contains ids id ≡ true
      → skipped c id ≡ false
      → Offers size id (smallest c size ids ws)
  unfolding smallest
  smallest-finds id [] ws f m e = absurd (cc)
  smallest-finds id (x ∷ ids) ws f m e = elim (Bool-cases (x == id)) [
    | inl q ↦
        let same = (==_iff x id).0 q in
        smallest-keeps id ids (scanned c size x ws) (scanned-Filled x ws f) (
          rw same (
            rw e (
              push-Offers-new size id ws f id
                (ground (arith, contains-insert_ascending id id ws)))))
    | inr q ↦
        smallest-finds id ids (scanned c size x ws) (scanned-Filled x ws f) (ground (arith, m, q)) e
  ]

  AllIds-push :
      (P : ℕ → Type 0) (x : ℕ) (ws : List ℕ) → P x → AllIds P ws → AllIds P (push_bounded size x ws)
  AllIds-push P x ws p a =
      let pushed = AllIds-insert P x ws p a in
      if_both (AllIds P) (ltb size (length (insert_ascending x ws))) _ _
        (AllIds-take P size (insert_ascending x ws) pushed) pushed

  smallest-AllIds :
      (P : ℕ → Type 0) (ids ws : List ℕ)
      → ((id : ℕ) → contains ids id ≡ true → skipped c id ≡ false → P id)
      → AllIds P ws
      → AllIds P (smallest c size ids ws)
  unfolding smallest
  smallest-AllIds P [] ws h a = a
  smallest-AllIds P (x ∷ ids) ws h a =
      smallest-AllIds P ids (scanned c size x ws) (λ id m e. h id (ground (arith, m)) e)
        (elim (Bool-cases (skipped c x)) [
          | inl e ↦ rw e a
          | inr e ↦ rw e (AllIds-push P x ws (h x (ground arith) e) a)
        ])

-- What a refill makes of the records.
pub record Refilled (ids : List ℕ) (c c' : RouteCursor) : Type 0 where
  pub ascending : Ascending c'.window
  pub bounded : length c'.window ≤ window_size
  pub records : AllIds (λ id. (contains ids id ≡ true) × (skipped c id ≡ false)) c'.window
  pub position : c'.after ≡ c.after

module _ (ids : List ℕ) (c : RouteCursor) where
  refill-Filled : Filled window_size (refill ids c).window
  unfolding refill
  refill-Filled = smallest-Filled c window_size ids [] (tt, omega arith)

  refill-records :
      AllIds (λ id. (contains ids id ≡ true) × (skipped c id ≡ false)) (refill ids c).window
  unfolding refill
  refill-records =
      smallest-AllIds c window_size (λ id. (contains ids id ≡ true) × (skipped c id ≡ false)) ids []
        (λ id m e. (m, e)) tt

  -- A refill makes the window ascending, no larger than its size, and of records of the directory
  -- after the position and within the lap only, and leaves the position.
  pub refill-Refilled : Refilled ids c (refill ids c)
  unfolding refill
  refill-Refilled = record {
    ascending = refill-Filled.0;
    bounded = refill-Filled.1;
    records = refill-records;
    position = refl;
  }

  -- A refill loses no record: each one after the position and within the lap is in the window, or
  -- the window is full and holds no greater one.
  pub refill-Offers :
      (id : ℕ)
      → contains ids id ≡ true
      → skipped c id ≡ false
      → Offers window_size id (refill ids c).window
  unfolding refill
  refill-Offers id m e = smallest-finds c window_size id ids [] (tt, omega arith) m e
