-- ===== src/Delivery/TopUp.antt =====
-- The bookkeeping of `requestTopUp` signals: `TopUpLedger` of message-relayer/src/delivery/mod.rs.
use asc_message_relayer.Prelude.{
  ℕ, ◌+◌, ◌≤◌, ◌≡◌, ◌∙◌, Option, none, some, List, [], ◌∷◌, ◌==◌, leb, if◌then◌else◌, arith,
  Bool-cases, Option-cases, inl, inr, ==_iff,
}
use asc_message_relayer.Prelude.Map.{Map, lookup, insert, lookup-insert}

abbrev pub max_top_up_attempts : ℕ
max_top_up_attempts = 3

pub data TopUpMark : Type 0 where
  in_flight : ℕ → TopUpMark
  settled : TopUpMark
  failed : ℕ → TopUpMark

-- The attempt number of a request that may go out now; `none` stands for the error.
abbrev pub next_attempt : Option TopUpMark → Option ℕ
next_attempt none = some 1
next_attempt (some (in_flight attempts)) = none
next_attempt (some settled) = none
next_attempt (some (failed attempts)) =
    if leb max_top_up_attempts attempts then none else some (attempts + 1)

unfoldable pub begin : ℕ → Map TopUpMark → Map TopUpMark × Option ℕ
begin id marks = elim (next_attempt (lookup id marks)) [
  | none ↦ (marks, none)
  | some attempts ↦ (insert id (in_flight attempts) marks, some attempts)
]

unfoldable pub settle : ℕ → Map TopUpMark → Map TopUpMark
settle id marks = insert id settled marks

abbrev pub failed_mark : Option TopUpMark → Option TopUpMark
failed_mark none = some (failed 1)
failed_mark (some (in_flight attempts)) = some (failed attempts)
failed_mark (some settled) = none
failed_mark (some (failed attempts)) = some (failed attempts)

unfoldable pub fail : ℕ → Map TopUpMark → Map TopUpMark
fail id marks = elim (failed_mark (lookup id marks)) [
  | none ↦ marks
  | some mark ↦ insert id mark marks
]

pub data TopUpEvent : Type 0 where
  refused_delivery landed did_not_complete : ℕ → TopUpEvent

abbrev sent_for : ℕ → ℕ → Option ℕ → ℕ
sent_for id j none = 0
sent_for id j (some attempts) = if j == id then 1 else 0

-- The requests sent for one message in a run of the ledger.
unfoldable pub requests_sent : ℕ → List TopUpEvent → Map TopUpMark → ℕ
requests_sent id [] marks = 0
requests_sent id (refused_delivery j ∷ es) marks =
    let (after, answer) = begin j marks in sent_for id j answer + requests_sent id es after
requests_sent id (landed j ∷ es) marks = requests_sent id es (settle j marks)
requests_sent id (did_not_complete j ∷ es) marks = requests_sent id es (fail j marks)

abbrev used : Option TopUpMark → ℕ
used none = 0
used (some (in_flight attempts)) = attempts
used (some settled) = max_top_up_attempts
used (some (failed attempts)) = attempts

next_attempt-used :
    (o : Option TopUpMark) (n : ℕ)
    → next_attempt o ≡ some n
    → (n ≡ used o + 1) × (n ≤ max_top_up_attempts)
next_attempt-used none n e = ground arith
next_attempt-used (some (in_flight attempts)) n e = absurd (cc)
next_attempt-used (some settled) n e = absurd (cc)
next_attempt-used (some (failed attempts)) n e = ground arith

failed_mark-used :
    (o : Option TopUpMark) (m : TopUpMark)
    → failed_mark o ≡ some m
    → used o ≤ max_top_up_attempts
    → (used o ≤ used (some m)) × (used (some m) ≤ max_top_up_attempts)
failed_mark-used none m e le = ground arith
failed_mark-used (some (in_flight attempts)) m e le = ground arith
failed_mark-used (some settled) m e le = absurd (cc)
failed_mark-used (some (failed attempts)) m e le = ground arith

used_after :
    (id j : ℕ) (m : TopUpMark) (marks : Map TopUpMark)
    → used (lookup id (insert j m marks))
      ≡ (if j == id then used (some m) else used (lookup id marks))
used_after id j m marks =
    rw lookup-insert (elim (Bool-cases (j == id)) [ inl e ↦ rw e | inr e ↦ rw e ])

-- A message's attempts after a write of the mark of any.
insert-used :
    (id j n : ℕ) (m : TopUpMark) (marks : Map TopUpMark)
    → used (lookup id marks) ≤ max_top_up_attempts
    → n + used (lookup j marks) ≤ used (some m)
    → used (some m) ≤ max_top_up_attempts
    → ((if j == id then n else 0) + used (lookup id marks) ≤ used (lookup id (insert j m marks)))
      × (used (lookup id (insert j m marks)) ≤ max_top_up_attempts)
insert-used id j n m marks le low high = elim (Bool-cases (j == id)) [
  | inl e ↦
      let now : used (lookup id (insert j m marks)) ≡ used (some m) =
        used_after id j m marks ∙ rw e in
      rw e (omega (arith, now, high, rw ((==_iff j id).0 e) at low), omega (arith, now, high))
  | inr e ↦
      let now : used (lookup id (insert j m marks)) ≡ used (lookup id marks) =
        used_after id j m marks ∙ rw e in
      rw e (omega (arith, now), omega (arith, now, le))
]

module _ (id j : ℕ) (marks : Map TopUpMark)
    (le : (k : ℕ) → used (lookup k marks) ≤ max_top_up_attempts) where
  begin-used :
      (sent_for id j (begin j marks).1 + used (lookup id marks)
        ≤ used (lookup id (begin j marks).0))
      × (used (lookup id (begin j marks).0) ≤ max_top_up_attempts)
  unfolding begin
  begin-used = elim (Option-cases (next_attempt (lookup j marks))) [
    | inl n ↦ rw (n, begin) (omega arith, le id)
    | inr (a, p) ↦
        let known = next_attempt-used (lookup j marks) a p in
        rw (p, begin)
          (ground (
            arith,
            insert-used id j 1 (in_flight a) marks (le id) (omega (arith, known.0)) known.1,
          ))
  ]

  settle-used :
      (used (lookup id marks) ≤ used (lookup id (settle j marks)))
      × (used (lookup id (settle j marks)) ≤ max_top_up_attempts)
  unfolding settle
  settle-used =
      ground (arith, insert-used id j 0 settled marks (le id) (omega (arith, le j)) (omega arith))

  fail-used :
      (used (lookup id marks) ≤ used (lookup id (fail j marks)))
      × (used (lookup id (fail j marks)) ≤ max_top_up_attempts)
  unfolding fail
  fail-used = elim (Option-cases (failed_mark (lookup j marks))) [
    | inl n ↦ rw (n, fail) (omega arith, le id)
    | inr (m, p) ↦
        let known = failed_mark-used (lookup j marks) m p (le j) in
        rw (p, fail)
          (ground (arith, insert-used id j 0 m marks (le id) (omega (arith, known.0)) known.1))
  ]

requests-counted :
    (id : ℕ) (es : List TopUpEvent) (marks : Map TopUpMark)
    → ((k : ℕ) → used (lookup k marks) ≤ max_top_up_attempts)
    → requests_sent id es marks + used (lookup id marks) ≤ max_top_up_attempts
unfolding requests_sent
requests-counted id [] marks le = omega (arith, le id)
requests-counted id (refused_delivery j ∷ es) marks le = omega (
  arith,
  (begin-used id j marks le).0,
  requests-counted id es (begin j marks).0 (λ k. (begin-used k j marks le).1),
)
requests-counted id (landed j ∷ es) marks le = omega (
  arith,
  (settle-used id j marks le).0,
  requests-counted id es (settle j marks) (λ k. (settle-used k j marks le).1),
)
requests-counted id (did_not_complete j ∷ es) marks le = omega (
  arith,
  (fail-used id j marks le).0,
  requests-counted id es (fail j marks) (λ k. (fail-used k j marks le).1),
)

-- In the life of a process, at most three top-up requests are sent for a message, however
-- deliveries are refused and however the requests end.
pub requests_sent-bounded :
    (id : ℕ) (es : List TopUpEvent) → requests_sent id es [] ≤ max_top_up_attempts
unfolding lookup
requests_sent-bounded id es = omega (arith, requests-counted id es [] (λ k. omega arith))
