-- ===== src/Health/Heard.antt =====
-- Workers that report, and workers that fall silent: message-relayer/src/health.rs over any reports.
use asc_message_relayer.Prelude.{
  ℕ, ◌+◌, ◌≤◌, ◌<◌, ◌≡◌, ◌⊎◌, ◌∙◌, sym, ap, refl, Bool, true, false, ◌&&◌, Option, none, some, List,
  [], ◌∷◌, ◌++◌, ◌==◌, if◌then◌else◌, arith, contains, Bool-cases, inl, inr, All, ==_iff, ==_refl,
  if_both,
}
use mathlib.Core.Path.{subst}
use asc_message_relayer.Prelude.Map.{lookup, lookup-insert, Distinct, Distinct-insert}
use asc_message_relayer.Health.{
  Component, Health, new, or_default, at_entry, heartbeat, failed_at, error, classify, status, Beat,
  beat, beats,
}
use asc_message_relayer.Health.Verdict.{is_stale, is_degraded, Tells, classify-Tells}

-- The change that a report makes to the entry of its worker.
abbrev pub changed : Beat → Component → Component
changed b c = if b.succeeded then record c { last_ok = b.time } else failed_at b.time c

beat-changed : (b : Beat) (s : Health) → beat b s ≡ at_entry b.name (changed b) s
unfolding heartbeat error
beat-changed b s = elim (Bool-cases b.succeeded) [ inl e ↦ rw e refl | inr e ↦ rw e refl ]

-- What holds of the entry of a worker, if it has one, after a report.
lookup-beat :
    (b : Beat) (s : Health) (k : ℕ)
    → lookup k (beat b s).components ≡ (
        if b.name == k
        then some (changed b (or_default (lookup b.name s.components)))
        else lookup k s.components)
lookup-beat b s k =
    ap (λ r. lookup k r.components) (beat-changed b s)
    ∙ lookup-insert b.name k (changed b (or_default (lookup b.name s.components))) s.components

Distinct-beat : (b : Beat) (s : Health) → Distinct s.components → Distinct (beat b s).components
Distinct-beat b s d =
    subst (λ r. Distinct r.components) (sym (beat-changed b s))
      (Distinct-insert b.name (changed b (or_default (lookup b.name s.components))) s.components d)

Distinct-beats :
    (bs : List Beat) (s : Health) → Distinct s.components → Distinct (beats bs s).components
unfolding beats
Distinct-beats [] s d = d
Distinct-beats (b ∷ bs) s d = Distinct-beats bs (beat b s) (Distinct-beat b s d)

deadline-beats : (bs : List Beat) (s : Health) → (beats bs s).deadline_ms ≡ s.deadline_ms
unfolding beats
deadline-beats [] s = refl
deadline-beats (b ∷ bs) s =
    deadline-beats bs (beat b s) ∙ ap (λ r. r.deadline_ms) (beat-changed b s)

beats-append :
    (before after : List Beat) (s : Health)
    → beats (before ++ after) s ≡ beats after (beats before s)
unfolding beats
beats-append [] after s = refl
beats-append (b ∷ before) after s = beats-append before after (beat b s)

-- An entry that meets a predicate.
abbrev Present : (Component → Type 0) → Option Component → Type 0
Present P none = ⊥
Present P (some c) = P c

module _ (P : Component → Type 0) (k : ℕ) where
  Present-beat :
      (b : Beat) (s : Health)
      → (b.name ≡ k → (c : Component) → P c → P (changed b c))
      → Present P (lookup k s.components)
      → Present P (lookup k (beat b s).components)
  Present-beat b s step p = elim (Bool-cases (b.name == k)) [
    | inr n ↦ subst (Present P) (sym (lookup-beat b s k ∙ rw n refl)) p
    | inl y ↦
        let same = (==_iff b.name k).0 y in
        let found : lookup k (beat b s).components
            ≡ some (changed b (or_default (lookup k s.components))) =
          lookup-beat b s k ∙ (rw (y, same) refl) in
        subst (Present P) (sym found) (step same _ (default (lookup k s.components) p))
  ]
    where
      default : (o : Option Component) → Present P o → P (or_default o)
      default none p = absurd p
      default (some c) p = p

  Present-beats :
      (bs : List Beat) (s : Health)
      → All (λ b. b.name ≡ k → (c : Component) → P c → P (changed b c)) bs
      → Present P (lookup k s.components)
      → Present P (lookup k (beats bs s).components)
  unfolding beats
  Present-beats [] s a p = p
  Present-beats (b ∷ bs) s a p = Present-beats bs (beat b s) a.1 (Present-beat b s a.0 p)

-- A verdict of the state after any reports.
status-Tells :
    (bs : List Beat) (deadline now k : ℕ)
    → Tells deadline now k
        (lookup k (beats bs (new deadline)).components)
        (status now (beats bs (new deadline)))
unfolding status
status-Tells bs deadline now k =
    subst
      (λ d.
        Tells deadline now k (lookup k (beats bs (new deadline)).components)
          (classify d now (beats bs (new deadline)).components))
      (sym (deadline-beats bs (new deadline)))
      (classify-Tells deadline now k (beats bs (new deadline)).components
        (Distinct-beats bs (new deadline) tt))

-- Reported at a time or later, and the part of it that is a success.
abbrev HeardSince : ℕ → Component → Type 0
HeardSince t c = (t ≤ c.last_ok) ⊎ (t ≤ c.last_err)

abbrev SucceededSince : ℕ → Bool → Component → Type 0
SucceededSince t true c = t ≤ c.last_ok
SucceededSince t false c = HeardSince t c

changed-SucceededSince :
    (t : ℕ) (b : Beat) (ok : Bool) (c : Component)
    → t ≤ b.time
    → SucceededSince t ok c
    → SucceededSince t ok (changed b c)
changed-SucceededSince t b true c le h = elim (Bool-cases b.succeeded) [
  | inl e ↦ rw e le
  | inr e ↦ rw e (if_both (λ n. t ≤ n) (c.last_ok == 0) _ _ le h)
]
changed-SucceededSince t b false c le h = elim (Bool-cases b.succeeded) [
  | inl e ↦ rw e (inl le)
  | inr e ↦ rw e (inr le)
]

first-SucceededSince : (b : Beat) (c : Component) → SucceededSince b.time b.succeeded (changed b c)
first-SucceededSince b c = elim (Bool-cases b.succeeded) [
  | inl e ↦ rw e (omega arith)
  | inr e ↦ rw e (inr (omega arith))
]

module _ (deadline now t : ℕ) (positive : 1 ≤ t) (recent : now ≤ t + deadline) where
  heard_not_stale :
      (ok : Bool) (o : Option Component)
      → Present (SucceededSince t ok) o
      → (is_stale deadline now o ≡ false) × ((ok && is_degraded deadline now o) ≡ false)
  heard_not_stale ok none p = absurd p
  heard_not_stale true (some c) p = ground (arith, p, positive, recent)
  heard_not_stale false (some c) (inl p) = ground (arith, p, positive, recent)
  heard_not_stale false (some c) (inr p) = ground (arith, p, positive, recent)

module _ (before after : List Beat) (b : Beat) (deadline now : ℕ) where
  abbrev reported : List Beat
  reported = before ++ b ∷ after

  -- If a report of a worker, at a time above zero, is not older than the deadline and no later
  -- report has an earlier time, the worker is not stale, and not degraded either if the report was
  -- of a success.
  pub beats-heard :
      1 ≤ b.time
      → All (λ a. b.time ≤ a.time) after
      → now ≤ b.time + deadline
      → (contains (status now (beats reported (new deadline))).stale b.name ≡ false)
        × ((b.succeeded && contains (status now (beats reported (new deadline))).degraded b.name)
            ≡ false)
  unfolding beats
  beats-heard positive later recent =
      let P = SucceededSince b.time b.succeeded in
      let s = beats before (new deadline) in
      let entry = changed b (or_default (lookup b.name s.components)) in
      let found : lookup b.name (beat b s).components ≡ some entry =
        lookup-beat b s b.name ∙ rw (==_refl b.name) refl in
      let first : Present P (lookup b.name (beat b s).components) =
        subst (Present P) (sym found)
          (first-SucceededSince b (or_default (lookup b.name s.components))) in
      let kept = Present-beats P b.name after (beat b s) (steps after later) first in
      let all =
        subst (λ r. Present P (lookup b.name r.components))
          (sym (beats-append before (b ∷ after) (new deadline))) kept in
      let says = heard_not_stale deadline now b.time positive recent b.succeeded _ all in
      let tells = status-Tells reported deadline now b.name in
      (tells.0 ∙ says.0, ap (λ d. b.succeeded && d) tells.1 ∙ says.1)
    where
      steps :
          (bs : List Beat)
          → All (λ a. b.time ≤ a.time) bs
          → All
              (λ a.
                a.name ≡ b.name
                → (c : Component) → SucceededSince b.time b.succeeded c
                → SucceededSince b.time b.succeeded (changed a c))
              bs
      steps [] l = tt
      steps (a ∷ bs) l =
          (λ e c h. changed-SucceededSince b.time a b.succeeded c l.0 h, steps bs l.1)

-- All reports of a worker are older than the deadline.
abbrev IsQuiet : ℕ → ℕ → Component → Type 0
IsQuiet deadline now c = (c.last_ok + deadline < now) × (c.last_err + deadline < now)

changed-IsQuiet :
    (deadline now : ℕ) (b : Beat) (c : Component)
    → b.time + deadline < now
    → IsQuiet deadline now c
    → IsQuiet deadline now (changed b c)
changed-IsQuiet deadline now b c old q = elim (Bool-cases b.succeeded) [
  | inl e ↦ rw e (old, q.1)
  | inr e ↦ rw e (if_both (λ n. n + deadline < now) (c.last_ok == 0) _ _ old q.0, old)
]

-- What a report of another worker leaves, and a first report makes.
abbrev QuietIf : ℕ → ℕ → Option Component → Type 0
QuietIf deadline now none = Unit {0}
QuietIf deadline now (some c) = IsQuiet deadline now c

module _ (deadline now k : ℕ) where
  abbrev Old : Beat → Type 0
  Old b = b.name ≡ k → b.time + deadline < now

  Old-steps :
      (bs : List Beat)
      → All Old bs
      → All
          (λ b.
            b.name ≡ k
            → (c : Component) → IsQuiet deadline now c
            → IsQuiet deadline now (changed b c))
          bs
  Old-steps [] a = tt
  Old-steps (b ∷ bs) a = (λ e c q. changed-IsQuiet deadline now b c (a.0 e) q, Old-steps bs a.1)

  quiet_stale :
      (o : Option Component) → Present (IsQuiet deadline now) o → is_stale deadline now o ≡ true
  quiet_stale none p = absurd p
  quiet_stale (some c) p = ground (arith, p.0, p.1)

  first-IsQuiet :
      (b : Beat) (o : Option Component)
      → b.time + deadline < now
      → QuietIf deadline now o
      → IsQuiet deadline now (changed b (or_default o))
  first-IsQuiet b none old q =
      changed-IsQuiet deadline now b (or_default none) old (omega (arith, old), omega (arith, old))
  first-IsQuiet b (some c) old q = changed-IsQuiet deadline now b c old q

  QuietIf-beat :
      (b : Beat) (s : Health)
      → Old b
      → QuietIf deadline now (lookup k s.components)
      → QuietIf deadline now (lookup k (beat b s).components)
  QuietIf-beat b s old q = elim (Bool-cases (b.name == k)) [
    | inr n ↦ subst (QuietIf deadline now) (sym (lookup-beat b s k ∙ rw n refl)) q
    | inl y ↦
        let same = (==_iff b.name k).0 y in
        let entry = changed b (or_default (lookup k s.components)) in
        let found : lookup k (beat b s).components ≡ some entry =
          lookup-beat b s k ∙ (rw (y, same) refl) in
        subst (QuietIf deadline now) (sym found)
          (first-IsQuiet b (lookup k s.components) (old same) q)
  ]

  QuietIf-beats :
      (bs : List Beat) (s : Health)
      → All Old bs
      → QuietIf deadline now (lookup k s.components)
      → QuietIf deadline now (lookup k (beats bs s).components)
  unfolding beats
  QuietIf-beats [] s a q = q
  QuietIf-beats (b ∷ bs) s a q = QuietIf-beats bs (beat b s) a.1 (QuietIf-beat b s a.0 q)

module _ (before after : List Beat) (b : Beat) (deadline now : ℕ) where
  -- A worker that has reported, and all of whose reports are older than the deadline, is found
  -- stale.
  pub beats-silent :
      All (λ a. a.name ≡ b.name → a.time + deadline < now) before
      → b.time + deadline < now
      → All (λ a. a.name ≡ b.name → a.time + deadline < now) after
      → contains (status now (beats (before ++ b ∷ after) (new deadline))).stale b.name ≡ true
  unfolding beats lookup
  beats-silent earlier old later =
      let P = IsQuiet deadline now in
      let s = beats before (new deadline) in
      let start = QuietIf-beats deadline now b.name before (new deadline) earlier tt in
      let entry = changed b (or_default (lookup b.name s.components)) in
      let found : lookup b.name (beat b s).components ≡ some entry =
        lookup-beat b s b.name ∙ rw (==_refl b.name) refl in
      let first : Present P (lookup b.name (beat b s).components) =
        subst (Present P) (sym found)
          (first-IsQuiet deadline now b.name b (lookup b.name s.components) old start) in
      let kept =
        Present-beats P b.name after (beat b s) (Old-steps deadline now b.name after later) first in
      let all =
        subst (λ r. Present P (lookup b.name r.components))
          (sym (beats-append before (b ∷ after) (new deadline))) kept in
      let tells = status-Tells (before ++ b ∷ after) deadline now b.name in
      tells.0 ∙ quiet_stale deadline now b.name _ all
