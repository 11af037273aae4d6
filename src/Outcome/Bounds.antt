-- ===== src/Outcome/Bounds.antt =====
-- What a record of message-relayer/src/outcome.rs leaves in the store.
use asc_message_relayer.Prelude.{
  ℕ, suc, ◌+◌, ◌≤◌, ◌<◌, ◌≡◌, refl, sym, ap, ◌∙◌, true, false, none, some, [], ◌∷◌, ◌++◌, ◌==◌,
  length, ltb, arith, Bool-cases, Option-cases, inl, inr, is_some, ==_refl, ==_iff, ltb→lt,
}
use asc_message_relayer.Prelude.Map.{
  Map, lookup, insert, remove, keys, Distinct, lookup-insert, length-insert_old, length-insert_new,
  length-insert_le, Distinct-insert,
}
use asc_message_relayer.Outcome.{DeliveryOutcome, OutcomeStore, new, evict, record_outcome}

-- `order` lists the ids stored, each once, and no more than fit.
pub record OutcomeInv (s : OutcomeStore) : Type 0 where
  pub listed : s.order ≡ keys s.by_id
  pub distinct : Distinct s.by_id
  pub bounded : length s.by_id ≤ s.cap
  pub positive : 1 ≤ s.cap

pub new-OutcomeInv : (capacity : ℕ) → OutcomeInv (new capacity)
unfolding keys
new-OutcomeInv capacity = record {
  listed = refl;
  distinct = tt;
  bounded = omega arith;
  positive = omega arith;
}

module _ {V : Type 0} where
  length-keys : (m : Map V) → length (keys m) ≡ length m
  unfolding keys
  length-keys [] = refl
  length-keys ((k, v) ∷ m) = omega (arith, length-keys m)

  keys-insert_old :
      (k : ℕ) (v : V) (m : Map V) → is_some (lookup k m) ≡ true → keys (insert k v m) ≡ keys m
  unfolding keys insert lookup
  keys-insert_old k v [] h = absurd (cc)
  keys-insert_old k v ((j, w) ∷ m) h = elim (Bool-cases (j == k)) [
    | inl e ↦ rw e (ap (λ i. i ∷ keys m) (sym ((==_iff j k).0 e)))
    | inr e ↦ rw e (ap (λ ks. j ∷ ks) (keys-insert_old k v m (ground (arith, h, e))))
  ]

  keys-insert_new :
      (k : ℕ) (v : V) (m : Map V) → lookup k m ≡ none → keys (insert k v m) ≡ keys m ++ k ∷ []
  unfolding keys insert lookup
  keys-insert_new k v [] h = refl
  keys-insert_new k v ((j, w) ∷ m) h = elim (Bool-cases (j == k)) [
    | inl e ↦ let bad : some w ≡ none = rw e at h in absurd (cc)
    | inr e ↦ rw e (ap (λ ks. j ∷ ks) (keys-insert_new k v m (rw e at h)))
  ]

  remove-absent : (k : ℕ) (m : Map V) → lookup k m ≡ none → remove k m ≡ m
  unfolding remove lookup
  remove-absent k [] h = refl
  remove-absent k ((j, w) ∷ m) h = elim (Bool-cases (j == k)) [
    | inl e ↦ let bad : some w ≡ none = rw e at h in absurd (cc)
    | inr e ↦ rw e (ap (λ n. (j, w) ∷ n) (remove-absent k m (rw e at h)))
  ]

-- Nothing is popped while the entries fit, and the oldest when there is one too many.
evict-fits :
    (limit evictions : ℕ) (m : Map DeliveryOutcome)
    → length m ≤ limit
    → evict limit (keys m) m evictions
      ≡ record { by_id = m; order = keys m; cap = limit; evictions = evictions }
unfolding evict keys
evict-fits limit evictions [] le = refl
evict-fits limit evictions ((k, v) ∷ m) le =
    let room : ltb limit (length (k ∷ keys m)) ≡ false = ground (arith, le, length-keys m) in
    rw room

evict-oldest :
    (limit evictions k : ℕ) (v : DeliveryOutcome) (m : Map DeliveryOutcome)
    → Distinct ((k, v) ∷ m)
    → length m ≡ limit
    → evict limit (keys ((k, v) ∷ m)) ((k, v) ∷ m) evictions
      ≡ record { by_id = m; order = keys m; cap = limit; evictions = evictions + 1 }
unfolding evict keys remove
evict-oldest limit evictions k v m d e =
    let full : ltb limit (length (k ∷ keys m)) ≡ true = ground (arith, e, length-keys m) in
    rw full (
      rw (==_refl k)
        (rw (remove-absent k m d.0) (evict-fits limit (evictions + 1) m (omega (arith, e)))))

evict-full :
    (id : ℕ) (o : DeliveryOutcome) (limit evictions : ℕ) (m : Map DeliveryOutcome)
    → lookup id m ≡ none
    → Distinct m
    → length m ≤ limit
    → 1 ≤ limit
    → ltb (length m) limit ≡ false
    → (k : ℕ) × (v : DeliveryOutcome) × (n : Map DeliveryOutcome) × (m ≡ (k, v) ∷ n)
      × (length n < limit)
      × (evict limit (keys (insert id o m)) (insert id o m) evictions ≡ record {
        by_id = insert id o n;
        order = keys (insert id o n);
        cap = limit;
        evictions = evictions + 1;
      })
unfolding lookup insert
evict-full id o limit evictions [] n d le one full = absurd (ground (arith, one, full))
evict-full id o limit evictions ((k, v) ∷ m) n d le one full = elim (Bool-cases (k == id)) [
  | inl e ↦ let bad : some v ≡ none = rw e at n in absurd (cc)
  | inr e ↦
      let absent : lookup id m ≡ none = rw e at n in
      let other : lookup k (insert id o m) ≡ none =
        lookup-insert id k o m ∙ (let ne : (id == k) ≡ false = ground (arith, e) in rw ne d.0) in
      let size : length (insert id o m) ≡ suc (length m) = length-insert_new id o m absent in
      (
        k,
        v,
        m,
        refl,
        omega (arith, le),
        rw e (
            evict-oldest limit evictions k v (insert id o m) (other, Distinct-insert id o m d.1)
              (ground (arith, size, le, full))),
      )
]

-- How a record ends.
pub data Recorded (id : ℕ) (o : DeliveryOutcome) (s s' : OutcomeStore) : Type 0 where
  replaced :
      is_some (lookup id s.by_id) ≡ true
      → s' ≡ record s { by_id = insert id o s.by_id }
      → Recorded id o s s'
  added :
      lookup id s.by_id ≡ none
      → length s.by_id < s.cap
      → s' ≡ record s { by_id = insert id o s.by_id; order = keys (insert id o s.by_id) }
      → Recorded id o s s'
  rotated :
      (k : ℕ) (v : DeliveryOutcome) (m : Map DeliveryOutcome)
      → lookup id s.by_id ≡ none
      → s.by_id ≡ (k, v) ∷ m
      → length m < s.cap
      → s' ≡ record s {
        by_id = insert id o m;
        order = keys (insert id o m);
        evictions = s.evictions + 1;
      }
      → Recorded id o s s'

module _ (id : ℕ) (o : DeliveryOutcome) (s : OutcomeStore) (v : OutcomeInv s) where
  record-Recorded : Recorded id o s (record_outcome id o s)
  unfolding record_outcome
  record-Recorded = elim (Option-cases (lookup id s.by_id)) [
    | inr (w, p) ↦ replaced (rw p) (rw (p, record_outcome))
    | inl n ↦ elim (Bool-cases (ltb (length s.by_id) s.cap)) [
      | inl room ↦ added n (ground (arith, room)) (
          rw (n, record_outcome)
            (rw (v.listed) (
              rw (← keys-insert_new id o s.by_id n) (
                evict-fits s.cap s.evictions (insert id o s.by_id) (
                  omega (
                    arith,
                    length-insert_new id o s.by_id n,
                    ltb→lt (length s.by_id) s.cap room,
                  ))))))
      | inr full ↦
          let (k, w, m, p, le, e) =
            evict-full id o s.cap s.evictions s.by_id n v.distinct v.bounded v.positive full in
          rotated k w m n p le
            (rw (n, record_outcome) (rw v.listed (rw (← keys-insert_new id o s.by_id n) e)))
    ]
  ]

  Recorded-OutcomeInv : (s' : OutcomeStore) → Recorded id o s s' → OutcomeInv s'
  Recorded-OutcomeInv s' (replaced p e) = rw e (record {
    listed = v.listed ∙ sym (keys-insert_old id o s.by_id p);
    distinct = Distinct-insert id o s.by_id v.distinct;
    bounded = kept_length;
    positive = v.positive;
  })
    where
      kept_length : length (insert id o s.by_id) ≤ s.cap
      kept_length = elim (Option-cases (lookup id s.by_id)) [
        | inl n ↦ let bad : false ≡ true = rw n at p in absurd (cc)
        | inr (w, q) ↦ omega (arith, length-insert_old id o s.by_id q, v.bounded)
      ]
  Recorded-OutcomeInv s' (added n le e) = rw e (record {
    listed = refl;
    distinct = Distinct-insert id o s.by_id v.distinct;
    bounded = omega (arith, length-insert_new id o s.by_id n, le);
    positive = v.positive;
  })
  Recorded-OutcomeInv s' (rotated k w m n p le e) =
      let d : Distinct ((k, w) ∷ m) = rw p at v.distinct in
      rw e (record {
        listed = refl;
        distinct = Distinct-insert id o m d.1;
        bounded = omega (arith, length-insert_le id o m, le);
        positive = v.positive;
      })

  Recorded-get : (s' : OutcomeStore) → Recorded id o s s' → lookup id s'.by_id ≡ some o
  Recorded-get s' (replaced p e) = rw e (lookup-insert id id o s.by_id ∙ rw (==_refl id))
  Recorded-get s' (added n le e) = rw e (lookup-insert id id o s.by_id ∙ rw (==_refl id))
  Recorded-get s' (rotated k w m n p le e) = rw e (lookup-insert id id o m ∙ rw (==_refl id))

  -- On a store that lists its ids once each and within the bound, a record keeps that so, is found
  -- afterwards, and replaces the entry of the same id, is added while there is room, or is added
  -- in place of the oldest entry.
  pub record_outcome-kept :
      OutcomeInv (record_outcome id o s)
      × (lookup id (record_outcome id o s).by_id ≡ some o)
      × Recorded id o s (record_outcome id o s)
  record_outcome-kept =
      let r = record-Recorded in
      (Recorded-OutcomeInv (record_outcome id o s) r, Recorded-get (record_outcome id o s) r, r)
