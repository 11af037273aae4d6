-- ===== src/Delivery/FailedRetry/Budget.antt =====
-- The relayer never pays for more `retryFailedMessage` transactions than the policy allows,
-- whatever reads and writes of the store fail (message-relayer/src/delivery/failed_retry.rs).
use asc_message_relayer.Prelude.{
  ℕ, ◌+◌, ◌≤◌, ◌≡◌, refl, sym, ◌∙◌, Bool, Option, none, some, ◌⊎◌, max, leb, arith, Bool-cases,
  Option-cases, inl, inr, is_some, if_both,
}
use asc_message_relayer.Delivery.FailedRetry.{
  FailedRetryState, FailedRetryPolicy, FailedRetries, Answers, or_default, merged, get, put, start,
  previous_of, first_failure, entombed, give_up, give_up_failed_retries, after_failed_retry,
  observe_failure,
}
use asc_message_relayer.Delivery.FailedRetry.View.{
  held, kept, SameView, Got, failed, found, get-Got, held-put, kept-put,
}

abbrev pub attempts_of : Option FailedRetryState → ℕ
attempts_of none = 0
attempts_of (some s) = s.attempts

-- The attempts that the ledger knows of.
abbrev pub spent : ℕ → FailedRetries → ℕ
spent id r = max (attempts_of (held id r)) (attempts_of (kept id r))

-- What is in memory is never behind the disk.
abbrev pub Ahead : ℕ → FailedRetries → Type 0
Ahead id r = (held id r ≡ none) ⊎ (attempts_of (kept id r) ≤ attempts_of (held id r))

-- `n` transactions later: what is known has grown by them, within the budget.
pub record Spends (id limit : ℕ) (r r' : FailedRetries) (n : ℕ) : Type 0 where
  pub ahead : Ahead id r'
  pub grown : n + spent id r ≤ spent id r'
  pub capped : spent id r' ≤ max (spent id r) limit

pub Spends-same :
    (id limit : ℕ) (r r' : FailedRetries) → SameView id r r' → Ahead id r → Spends id limit r r' 0
Spends-same id limit r r' s a = record {
  ahead = ground (arith, s.held_same, s.kept_same, a);
  grown = rw (s.held_same, s.kept_same) (omega arith);
  capped = rw (s.held_same, s.kept_same) (omega arith);
}

pub Spends-trans :
    (id limit : ℕ) (r r' r'' : FailedRetries) (n : ℕ)
    → Spends id limit r r' n
    → Spends id limit r' r'' 0
    → Spends id limit r r'' n
Spends-trans id limit r r' r'' n a b = record {
  ahead = b.ahead;
  grown = omega (arith, a.grown, b.grown);
  capped = omega (arith, a.capped, b.capped);
}

pub attempts-merged :
    (a b : Option FailedRetryState) → attempts_of (merged a b) ≡ max (attempts_of a) (attempts_of b)
attempts-merged none none = omega arith
attempts-merged none (some b) = omega arith
attempts-merged (some a) none = omega arith
attempts-merged (some a) (some b) = refl

pub attempts-or_default : (o : Option FailedRetryState) → (or_default o).attempts ≡ attempts_of o
attempts-or_default none = refl
attempts-or_default (some s) = refl

-- Memory has at least what the disk has.
abbrev pub Synced : ℕ → FailedRetries → Type 0
Synced id r = attempts_of (kept id r) ≤ attempts_of (held id r)

module _ (id : ℕ) (r : FailedRetries) where
  pub Got-Spends :
      (limit : ℕ) (r' : FailedRetries) (answer : Option (Option FailedRetryState))
      → Got id r r' answer
      → Ahead id r
      → Spends id limit r r' 0
  Got-Spends limit r' answer (failed e f) a =
      Spends-same id limit r r' (record { held_same = rw e; kept_same = rw e }) a
  Got-Spends limit r' answer (found e d f) a =
      let m = attempts-merged (held id r) (kept id r) in
      record {
        ahead = inr (rw (d, e) (omega (arith, m)));
        grown = rw (d, e) (omega (arith, m));
        capped = rw (d, e) (omega (arith, m));
      }

  pub Got-known :
      (r' : FailedRetries) (answer : Option (Option FailedRetryState)) (o : Option FailedRetryState)
      → Got id r r' answer
      → Ahead id r
      → answer ≡ some o
      → (attempts_of o ≡ attempts_of (held id r')) × Synced id r'
  Got-known r' answer o (found e d f) a q =
      let m = attempts-merged (held id r) (kept id r) in
      let same : o ≡ merged (held id r) (kept id r) = cc in
      (rw (e, same), rw (d, e) (omega (arith, m)))
  Got-known r' answer o (failed e f) a q = elim (Option-cases (held id r)) [
    | inl n ↦ let bad : none ≡ some o = rw n at (sym f ∙ q) in absurd (cc)
    | inr (s, p) ↦
        let known : some (some s) ≡ some o = rw p at (sym f ∙ q) in
        let same : o ≡ some s = cc in (rw (e, same, p), ground (arith, e, p, a))
  ]

  pub Got-previous :
      (r' : FailedRetries) (answer : Option (Option FailedRetryState))
      → Got id r r' answer
      → Synced id r
      → (previous_of answer).attempts ≡ attempts_of (held id r)
  Got-previous r' answer (found e d f) a =
      let m = attempts-merged (held id r) (kept id r) in
      let o = attempts-or_default (merged (held id r) (kept id r)) in rw f (omega (arith, m, o, a))
  Got-previous r' answer (failed e f) a =
      rw f (elim (Option-cases (held id r)) [ inl n ↦ rw n | inr (s, p) ↦ rw p ])

  pub put-spent :
      (stored : Bool) (s : FailedRetryState)
      → attempts_of (kept id r) ≤ s.attempts
      → (spent id (put stored id s r) ≡ s.attempts) × Ahead id (put stored id s r)
  put-spent stored s le =
      let h = held-put stored id s r in
      elim (kept-put stored id s r) [
        | inl e ↦ (rw (h, e) (omega arith), inr (rw (h, e) (omega arith)))
        | inr e ↦ (rw (h, e) (omega (arith, le)), inr (rw (h, e) le))
      ]

  pub put-Spends :
      (stored : Bool) (s : FailedRetryState) (limit n : ℕ)
      → n + spent id r ≤ s.attempts
      → s.attempts ≤ max (spent id r) limit
      → Spends id limit r (put stored id s r) n
  put-Spends stored s limit n low high =
      let p = put-spent stored s (omega (arith, low)) in
      record { ahead = p.1; grown = omega (arith, p.0, low); capped = omega (arith, p.0, high) }

  pub Got-spent :
      (r' : FailedRetries) (answer : Option (Option FailedRetryState))
      → Got id r r' answer
      → spent id r' ≡ spent id r
  Got-spent r' answer (failed e f) = rw e
  Got-spent r' answer (found e d f) =
      rw (d, e) (omega (arith, attempts-merged (held id r) (kept id r)))

module _ (id limit : ℕ) (io : Answers) (s : FailedRetryState) (r : FailedRetries)
    (a : Ahead id r) where
  pub give_up-Spends :
      s.attempts ≡ spent id r → Spends id limit r (give_up_failed_retries io id s r) 0
  unfolding give_up_failed_retries give_up
  give_up-Spends e =
      if_both (λ r'. Spends id limit r r' 0) (is_some s.gave_up_at) _ _
        (Spends-same id limit r r (record { held_same = refl; kept_same = refl }) a)
        (put-Spends id r io.stored_end (entombed io.later s) limit 0 (omega (arith, e))
          (omega (arith, e)))

  pub after-Spends :
      (policy : FailedRetryPolicy)
      → (policy.max_attempts ≤ s.attempts → s.attempts ≡ spent id r)
      → Spends id limit r (after_failed_retry io policy id s r) 0
  after-Spends policy known = elim (Bool-cases (leb policy.max_attempts s.attempts)) [
    | inl e ↦ rw e (give_up-Spends (known (ground (arith, e))))
    | inr e ↦ rw e (Spends-same id limit r r (record { held_same = refl; kept_same = refl }) a)
  ]

module _ (id : ℕ) (policy : FailedRetryPolicy) (r : FailedRetries) (a : Ahead id r)
    (limit : ℕ) where
  read-Spends : (readable : Bool) → Spends id limit r (get readable id r).0 0
  read-Spends readable = Got-Spends id r limit _ _ (get-Got readable id r) a

  start-Spends :
      (readable stored : Bool) (now : ℕ)
      → Spends id limit r (start readable stored id policy now r).0 0
        × (((start readable stored id policy now r).1.attempts
              ≡ spent id (start readable stored id policy now r).0)
            ⊎ ((start readable stored id policy now r).1.attempts ≡ 0))
  unfolding start
  start-Spends readable stored now =
      let r1 = (get readable id r).0 in
      let g = get-Got readable id r in
      let s = read-Spends readable in
      elim (Option-cases (get readable id r).1) [
        | inl n ↦ rw (n, start) (s, inr refl)
        | inr (o, p) ↦
            let k = Got-known id r r1 _ o g a p in
            elim (Option-cases o) [
              | inl n ↦
                  let none_yet : attempts_of (held id r1) ≡ 0 = sym k.0 ∙ rw n in
                  let w =
                    put-Spends id r1 stored (first_failure policy now) limit 0
                      (omega (arith, none_yet, k.1)) (omega arith) in
                  rw (p, n, start) (Spends-trans id limit r r1 _ 0 s w, inr refl)
              | inr (t, q) ↦
                  let known : t.attempts ≡ attempts_of (held id r1) = rw q at k.0 in
                  rw (p, q, start) (s, inl (omega (arith, known, k.1)))
            ]
      ]

  pub observe-Spends :
      (io : Answers)
      → 1 ≤ policy.max_attempts
      → Spends id limit r (observe_failure io policy id r) 0
  unfolding observe_failure
  observe-Spends io some_budget =
      let (s, known) = start-Spends io.readable io.stored io.now in
      let r1 = (start io.readable io.stored id policy io.now r).0 in
      Spends-trans id limit r r1 _ 0 s (
        after-Spends id limit io _ r1 s.ahead policy (λ spent_up. elim known [
          | inl e ↦ e
          | inr z ↦ absurd (omega (arith, z, spent_up, some_budget))
        ]))
