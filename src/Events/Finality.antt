-- ===== src/Events/Finality.antt =====
-- Up to which block the source may be scanned: message-relayer/src/events/finality.rs.
use asc_message_relayer.Prelude.{
  ℕ, ◌-◌, ◌≤◌, ◌≡◌, refl, Bool, true, false, not, Option, none, some, List, [], ◌∷◌, ltb, leb,
  if◌then◌else◌, arith, Bool-cases, inl, inr,
}
use asc_message_relayer.Types.{secs}

abbrev pub finality_stall_timeout : ℕ
finality_stall_timeout = secs 600

pub data FinalityPolicy : Type 0 where
  finalized_head : FinalityPolicy
  depth : ℕ → FinalityPolicy

pub record FinalityTracker : Type 0 where
  pub last_finalized : Option ℕ
  pub last_advance : ℕ
  pub stalled : Bool

abbrev pub new : ℕ → FinalityTracker
new now = record { last_finalized = none; last_advance = now; stalled = false }

-- `is_none_or` of a comparison with the previous head.
abbrev pub is_none_or : (ℕ → Bool) → Option ℕ → Bool
is_none_or p none = true
is_none_or p (some previous) = p previous

abbrev pub advanced : ℕ → ℕ → FinalityTracker → FinalityTracker
advanced finalized now t = record {
  last_finalized = some finalized;
  last_advance = now;
  stalled = false;
}

abbrev pub waited : ℕ → FinalityTracker → FinalityTracker
waited now t = record t { stalled = leb finality_stall_timeout (now - t.last_advance) }

-- `none` stands for the error.
unfoldable pub pick_to_block :
    Option ℕ → ℕ → FinalityPolicy → FinalityTracker → ℕ → FinalityTracker × Option ℕ
pick_to_block finalized tip (depth d) t now = (t, some (tip - d))
pick_to_block none tip finalized_head t now = (t, none)
pick_to_block (some finalized) tip finalized_head t now =
    if not (is_none_or (λ previous. leb previous finalized) t.last_finalized)
    then (t, none)
    else if is_none_or (λ previous. ltb previous finalized) t.last_finalized
    then (advanced finalized now t, some finalized)
    else (waited now t, some finalized)

abbrev pub cons_opt : Option ℕ → List ℕ → List ℕ
cons_opt none bs = bs
cons_opt (some b) bs = b ∷ bs

-- The blocks that a series of scans may go up to: the answers of the finalized head, with the time.
unfoldable pub picks : List (Option ℕ × ℕ) → FinalityTracker → List ℕ
picks [] t = []
picks ((finalized, now) ∷ reads) t =
    let (t', picked) = pick_to_block finalized 0 finalized_head t now in
    cons_opt picked (picks reads t')

abbrev AtLeast : Option ℕ → List ℕ → Type 0
AtLeast low [] = Unit {0}
AtLeast none (b ∷ bs) = Unit {0}
AtLeast (some a) (b ∷ bs) = a ≤ b

abbrev pub Ascending : List ℕ → Type 0
Ascending [] = Unit {0}
Ascending (a ∷ bs) = AtLeast (some a) bs × Ascending bs

-- How a read under finality ends.
data Picked (finalized : Option ℕ) (t t' : FinalityTracker) (picked : Option ℕ) : Type 0 where
  refused : t' ≡ t → picked ≡ none → Picked finalized t t' picked
  scanned :
      (b : ℕ)
      → finalized ≡ some b
      → picked ≡ some b
      → t'.last_finalized ≡ some b
      → is_none_or (λ previous. leb previous b) t.last_finalized ≡ true
      → Picked finalized t t' picked

equal_heads :
    (o : Option ℕ) (b : ℕ)
    → is_none_or (λ previous. leb previous b) o ≡ true
    → is_none_or (λ previous. ltb previous b) o ≡ false
    → o ≡ some b
equal_heads none b le lt = absurd (cc)
equal_heads (some a) b le lt = let same : a ≡ b = ground (arith, le, lt) in cc

pick-Picked :
    (finalized : Option ℕ) (tip : ℕ) (t : FinalityTracker) (now : ℕ)
    → Picked finalized t
        (pick_to_block finalized tip finalized_head t now).0
        (pick_to_block finalized tip finalized_head t now).1
unfolding pick_to_block
pick-Picked none tip t now = refused refl refl
pick-Picked (some b) tip t now =
    elim (Bool-cases (is_none_or (λ previous. leb previous b) t.last_finalized)) [
      | inr e ↦ rw e (refused refl refl)
      | inl e ↦ elim (Bool-cases (is_none_or (λ previous. ltb previous b) t.last_finalized)) [
        | inl f ↦ rw (e, f) (scanned b refl refl refl e)
        | inr f ↦ rw (e, f) (scanned b refl refl (equal_heads t.last_finalized b e f) e)
      ]
    ]

AtLeast-cons :
    (o : Option ℕ) (b : ℕ) (bs : List ℕ)
    → is_none_or (λ previous. leb previous b) o ≡ true
    → AtLeast o (b ∷ bs)
AtLeast-cons none b bs h = tt
AtLeast-cons (some a) b bs h = ground (arith, h)

picks-ordered :
    (reads : List (Option ℕ × ℕ)) (t : FinalityTracker)
    → AtLeast t.last_finalized (picks reads t) × Ascending (picks reads t)
unfolding picks
picks-ordered [] t = (tt, tt)
picks-ordered ((finalized, now) ∷ reads) t = elim (pick-Picked finalized 0 t now) [
  | refused e f ↦ rw (f, picks) (rw e (picks-ordered reads t))
  | scanned b h p l o ↦
      let t' = (pick_to_block finalized 0 finalized_head t now).0 in
      let (low, more) = picks-ordered reads t' in
      rw (p, picks) (AtLeast-cons t.last_finalized b (picks reads t') o, (rw l at low, more))
]

-- Under the finalized policy, however the reads of the head answer, the bounds of successive scans
-- never decrease.
pub picks-Ascending : (reads : List (Option ℕ × ℕ)) (now : ℕ) → Ascending (picks reads (new now))
picks-Ascending reads now = (picks-ordered reads (new now)).1
