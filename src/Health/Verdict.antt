-- ===== src/Health/Verdict.antt =====
-- What a verdict of message-relayer/src/health.rs says of a worker.
use mathlib.Core.Path.{subst}
use asc_message_relayer.Prelude.{
  ℕ, ◌≡◌, ◌∙◌, refl, Bool, false, not, ◌&&◌, ◌||◌, Option, none, some, List, [], ◌∷◌, ◌==◌,
  if◌then◌else◌, arith, contains, Bool-cases, inl, inr, ==_iff,
}
use asc_message_relayer.Prelude.Map.{Map, lookup, Distinct}
use asc_message_relayer.Health.{
  Component, Report, ok_overdue, err_recent, insert_name, classified, classify,
}

contains-insert_name :
    (n k : ℕ) (ns : List ℕ) → contains (insert_name n ns) k ≡ (n == k || contains ns k)
unfolding insert_name
contains-insert_name n k [] = refl
contains-insert_name n k (m ∷ ns) = ground (arith, contains-insert_name n k ns)

-- The two tests of a worker that is registered.
abbrev pub is_stale : ℕ → ℕ → Option Component → Bool
is_stale deadline now none = false
is_stale deadline now (some c) = ok_overdue deadline now c && not (err_recent deadline now c)

abbrev pub is_degraded : ℕ → ℕ → Option Component → Bool
is_degraded deadline now none = false
is_degraded deadline now (some c) = ok_overdue deadline now c && err_recent deadline now c

abbrev pub Tells : ℕ → ℕ → ℕ → Option Component → Report → Type 0
Tells deadline now k o r =
    (contains r.stale k ≡ is_stale deadline now o)
    × (contains r.degraded k ≡ is_degraded deadline now o)

module _ (deadline now k : ℕ) where
  stale_after :
      (name : ℕ) (c : Component) (r : Report)
      → contains (classified deadline now name c r).stale k
        ≡ ((name == k && is_stale deadline now (some c)) || contains r.stale k)
  stale_after name c r = elim (Bool-cases (ok_overdue deadline now c)) [
    | inr e ↦ rw e (ground arith)
    | inl e ↦ elim (Bool-cases (err_recent deadline now c)) [
      | inl f ↦ rw (e, f) (ground arith)
      | inr f ↦ rw (e, f) (ground (arith, contains-insert_name name k r.stale))
    ]
  ]

  degraded_after :
      (name : ℕ) (c : Component) (r : Report)
      → contains (classified deadline now name c r).degraded k
        ≡ ((name == k && is_degraded deadline now (some c)) || contains r.degraded k)
  degraded_after name c r = elim (Bool-cases (ok_overdue deadline now c)) [
    | inr e ↦ rw e (ground arith)
    | inl e ↦ elim (Bool-cases (err_recent deadline now c)) [
      | inl f ↦ rw (e, f) (ground (arith, contains-insert_name name k r.degraded))
      | inr f ↦ rw (e, f) (ground arith)
    ]
  ]

  classified-Tells :
      (name : ℕ) (c : Component) (o : Option Component) (r : Report)
      → (name ≡ k → o ≡ none)
      → Tells deadline now k o r
      → Tells deadline now k (if name == k then some c else o) (classified deadline now name c r)
  classified-Tells name c o r absent t = elim (Bool-cases (name == k)) [
    | inr n ↦ rw n (stale_after name c r ∙ (rw n t.0), degraded_after name c r ∙ (rw n t.1))
    | inl y ↦
        let gone = absent ((==_iff name k).0 y) in
        let old : Tells deadline now k none r = subst (λ p. Tells deadline now k p r) gone t in
        rw y (
          stale_after name c r ∙ (rw (y, old.0) (ground arith)),
          degraded_after name c r ∙ (rw (y, old.1) (ground arith)),
        )
  ]

  pub classify-Tells :
      (m : Map Component) → Distinct m → Tells deadline now k (lookup k m) (classify deadline now m)
  unfolding classify lookup
  classify-Tells [] d = (refl, refl)
  classify-Tells ((name, c) ∷ m) d =
      classified-Tells name c (lookup k m) (classify deadline now m)
        (λ e. subst (λ j. lookup j m ≡ none) e d.0) (classify-Tells m d.1)
