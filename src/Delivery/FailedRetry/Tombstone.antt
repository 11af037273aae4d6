-- ===== src/Delivery/FailedRetry/Tombstone.antt =====
-- A tombstone is final: a message that was given up is never paid for again
-- (message-relayer/src/delivery/failed_retry.rs).
use asc_message_relayer.Prelude.{
  ℕ, ◌≡◌, refl, ◌∙◌, Bool, true, false, Option, none, some, List, [], ◌∷◌, ◌==◌, ◌⊎◌, leb, is_some,
  arith, Bool-cases, Option-cases, inl, inr, ==_iff, if_both,
}
use asc_message_relayer.Delivery.FailedRetry.{
  FailedRetryState, FailedRetryPolicy, FailedRetries, Answers, Event, observed, retried, restarted,
  gives_up, wait, or_else, merged, get, put, start, gate, entombed, give_up, give_up_failed_retries,
  observe_failure, retry_failed, on_event, transactions,
}
use asc_message_relayer.Delivery.FailedRetry.View.{
  held, kept, SameView, Got, failed, found, get-Got, held-put,
}
use asc_message_relayer.Delivery.FailedRetry.Keeps.{observe-SameView, retry_failed-SameView}
use asc_message_relayer.Delivery.FailedRetry.Limit.{in_process}

abbrev pub buried : Option FailedRetryState → Bool
buried none = false
buried (some s) = is_some s.gave_up_at

-- The tombstone is in memory, or on disk before the first read.
abbrev pub closed_by : Option FailedRetryState → Option FailedRetryState → Bool
closed_by none b = buried b
closed_by (some a) b = buried (some a)

abbrev pub Closed : ℕ → FailedRetries → Type 0
Closed id r = closed_by (held id r) (kept id r) ≡ true

closed_by-held : (a b : Option FailedRetryState) → buried a ≡ true → closed_by a b ≡ true
closed_by-held none b h = absurd (cc)
closed_by-held (some a) b h = h

closed_by-merged :
    (a b : Option FailedRetryState) → closed_by a b ≡ true → buried (merged a b) ≡ true
closed_by-merged none none h = h
closed_by-merged none (some b) h = h
closed_by-merged (some a) none h = h
closed_by-merged (some a) (some b) h = ground arith

buried-some :
    (o : Option FailedRetryState)
    → buried o ≡ true
    → (s : FailedRetryState) × (o ≡ some s) × (is_some s.gave_up_at ≡ true)
buried-some none h = absurd (cc)
buried-some (some s) h = (s, refl, h)

-- A read finds the tombstone or fails.
module _ (id : ℕ) (r : FailedRetries) (c : Closed id r) where
  Got-Closed :
      (r' : FailedRetries) (answer : Option (Option FailedRetryState))
      → Got id r r' answer
      → Closed id r'
        × ((answer ≡ none)
            ⊎ ((s : FailedRetryState) × (answer ≡ some (some s)) × (is_some s.gave_up_at ≡ true)))
  Got-Closed r' answer (found e d f) =
      let b = closed_by-merged (held id r) (kept id r) c in
      let (s, p, t) = buried-some (merged (held id r) (kept id r)) b in
      (closed_by-held (held id r') (kept id r') (rw e b), inr (s, rw (f, p), t))
  Got-Closed r' answer (failed e f) = (
    rw e c,
    elim (Option-cases (held id r)) [
      | inl n ↦ inl (f ∙ rw n)
      | inr (s, p) ↦ inr (s, f ∙ rw p, ground (arith, c, p))
    ],
  )

  start-Closed :
      (readable stored : Bool) (policy : FailedRetryPolicy) (now : ℕ)
      → Closed id (start readable stored id policy now r).0
  unfolding start
  start-Closed readable stored policy now =
      let (d, known) = Got-Closed (get readable id r).0 _ (get-Got readable id r) in
      elim known [ inl n ↦ rw (n, start) d | inr (s, p, b) ↦ rw (p, start) d ]

  gate-Closed :
      (readable : Bool) (policy : FailedRetryPolicy) (now : ℕ)
      → Closed id (gate readable id policy now r).0
        × (((t : ℕ) × ((gate readable id policy now r).1 ≡ wait t))
            ⊎ ((s : FailedRetryState) × ((gate readable id policy now r).1 ≡ gives_up s)))
  unfolding gate
  gate-Closed readable policy now =
      let (d, known) = Got-Closed (get readable id r).0 _ (get-Got readable id r) in
      elim known [
        | inl n ↦ rw (n, gate) (d, inl (_, refl))
        | inr (s, p, b) ↦ rw (p, gate) (d, inr (s, rw b))
      ]

  give_up-Closed :
      (io : Answers) (s : FailedRetryState) → Closed id (give_up_failed_retries io id s r)
  unfolding give_up_failed_retries give_up
  give_up-Closed io s = elim (Bool-cases (is_some s.gave_up_at)) [
    | inl b ↦ rw b c
    | inr b ↦ rw b (
        closed_by-held _ (kept id (put io.stored_end id (entombed io.later s) r)) (
          rw (held-put io.stored_end id (entombed io.later s) r)
            (or_else-some s.gave_up_at io.later)))
  ]
    where
      or_else-some : (o : Option ℕ) (now : ℕ) → is_some (or_else o (some now)) ≡ true
      or_else-some none now = refl
      or_else-some (some t) now = refl

module _ (id : ℕ) (r : FailedRetries) (c : Closed id r) (policy : FailedRetryPolicy)
    (io : Answers) where
  observe-Closed : Closed id (observe_failure io policy id r)
  unfolding observe_failure
  observe-Closed =
      let d = start-Closed id r c io.readable io.stored policy io.now in
      let (r1, s) = start io.readable io.stored id policy io.now r in
      if_both (Closed id) (leb policy.max_attempts s.attempts) _ _ (give_up-Closed id r1 d io s) d

  retry_failed-Closed :
      (broadcast failed_again : Bool)
      → Closed id (retry_failed io policy id broadcast failed_again r).0
        × ((retry_failed io policy id broadcast failed_again r).1 ≡ 0)
  unfolding retry_failed
  retry_failed-Closed broadcast failed_again =
      let (d, shut) = gate-Closed id r c io.readable policy io.now in
      elim shut [
        | inl (t, e) ↦ rw (e, retry_failed) (d, refl)
        | inr (s, e) ↦
            rw (e, retry_failed)
              (give_up-Closed id (gate io.readable id policy io.now r).0 d io s, refl)
      ]

Closed-SameView : (id : ℕ) (r r' : FailedRetries) → SameView id r r' → Closed id r → Closed id r'
Closed-SameView id r r' s c = rw (s.held_same, s.kept_same) c

-- Once the entry of a message has a tombstone, in memory or, while memory has no entry, on disk,
-- no later transaction of a process that is not restarted counts for it, under any policy and
-- whatever the store answers.
pub given_up-final :
    (policy : FailedRetryPolicy) (id : ℕ) (es : List Event) (r : FailedRetries)
    → Closed id r
    → in_process es ≡ true
    → transactions policy id es r ≡ 0
unfolding transactions on_event
given_up-final policy id [] r c p = refl
given_up-final policy id (observed j io ∷ es) r c p = elim (Bool-cases (j == id)) [
  | inl e ↦
      let eq = (==_iff j id).0 e in
      rw e (
        rw eq (
          omega (
            arith,
            given_up-final policy id es (observe_failure io policy id r)
                (observe-Closed id r c policy io) p,
          )))
  | inr e ↦ rw e (
      given_up-final policy id es (observe_failure io policy j r)
        (Closed-SameView id r _ (observe-SameView j id e policy io r) c) p)
]
given_up-final policy id (retried j io broadcast failed_again ∷ es) r c p =
    elim (Bool-cases (j == id)) [
      | inl e ↦
          let eq = (==_iff j id).0 e in
          let (d, zero_sent) = retry_failed-Closed id r c policy io broadcast failed_again in
          rw e (
            rw eq (
              rw zero_sent (
                omega (
                  arith,
                  given_up-final policy id es (retry_failed io policy id broadcast failed_again r).0
                      d p,
                ))))
      | inr e ↦ rw e (
          given_up-final policy id es (retry_failed io policy j broadcast failed_again r).0
            (Closed-SameView id r _
              (retry_failed-SameView j id e policy io r broadcast failed_again) c)
            p)
    ]
given_up-final policy id (restarted ∷ es) r c p = absurd (cc)
