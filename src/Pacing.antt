-- ===== src/Pacing.antt =====
-- The damper of the read loops: `RateLimitPacer` of message-relayer/src/pacing.rs.
pub mod Errors
use asc_message_relayer.Prelude.{
  ℕ, zero, suc, ◌+◌, ◌-◌, ◌*◌, ◌^◌, ◌≤◌, ◌≡◌, Bool, true, false, Option, none, some, List, [], ◌∷◌,
  min, ltb, length, map, if◌then◌else◌, arith,
}
use asc_message_relayer.Types.{secs}

abbrev pub level_cap : ℕ
level_cap = 5

abbrev pub base : ℕ
base = secs 5

pub record RateLimitPacer : Type 0 where
  pub level : ℕ
  pub defer_until : Option ℕ

abbrev pub fresh : RateLimitPacer
fresh = record { level = 0; defer_until = none }

unfoldable pub after : Bool → ℕ → RateLimitPacer → RateLimitPacer
after true now p =
    let level = min (p.level + 1) level_cap in
    record { level = level; defer_until = some (now + base * 2 ^ (level - 1)) }
after false now p = record p { level = p.level - 1 }

abbrev pub remaining : Option ℕ → ℕ → Option ℕ
remaining none now = none
remaining (some until) now = if ltb now until then some (until - now) else none

unfoldable pub deferring : ℕ → RateLimitPacer → Option ℕ
deferring now p = remaining p.defer_until now

-- The outcomes of a loop, each with its time.
unfoldable pub paced : List (ℕ × Bool) → RateLimitPacer → RateLimitPacer
paced [] p = p
paced ((now, limited) ∷ outcomes) p = paced outcomes (after limited now p)

abbrev pub TimesWithin : ℕ → List (ℕ × Bool) → Type 0
TimesWithin t [] = Unit {0}
TimesWithin t ((now, limited) ∷ outcomes) = (now ≤ t) × TimesWithin t outcomes

abbrev pub longest_window : ℕ
longest_window = secs 80

abbrev EndsBy : ℕ → Option ℕ → Type 0
EndsBy t none = Unit {0}
EndsBy t (some until) = until ≤ t

record PacerInv (t : ℕ) (p : RateLimitPacer) : Type 0 where
  capped : p.level ≤ level_cap
  window : EndsBy (t + longest_window) p.defer_until

window-le : (n : ℕ) → n ≤ 5 → base * 2 ^ (n - 1) ≤ longest_window
window-le zero le = omega arith
window-le (suc zero) le = omega arith
window-le (suc (suc zero)) le = omega arith
window-le (suc (suc (suc zero))) le = omega arith
window-le (suc (suc (suc (suc zero)))) le = omega arith
window-le (suc (suc (suc (suc (suc zero))))) le = omega arith
window-le (suc (suc (suc (suc (suc (suc n)))))) le = absurd (omega (arith, le))

after-PacerInv :
    (limited : Bool) (now t : ℕ) (p : RateLimitPacer)
    → now ≤ t
    → PacerInv t p
    → PacerInv t (after limited now p)
unfolding after
after-PacerInv true now t p le v = record {
  capped = omega arith;
  window = omega (arith, le, window-le (min (p.level + 1) 5) (omega arith));
}
after-PacerInv false now t p le v = record { capped = omega (arith, v.capped); window = v.window }

paced-PacerInv :
    (outcomes : List (ℕ × Bool)) (t : ℕ) (p : RateLimitPacer)
    → TimesWithin t outcomes
    → PacerInv t p
    → PacerInv t (paced outcomes p)
unfolding paced
paced-PacerInv [] t p w v = v
paced-PacerInv ((now, limited) ∷ outcomes) t p w v =
    paced-PacerInv outcomes t (after limited now p) w.1 (after-PacerInv limited now t p w.0 v)

remaining-le :
    (o : Option ℕ) (t d : ℕ)
    → EndsBy (t + longest_window) o
    → remaining o t ≡ some d
    → (d ≤ longest_window) × (1 ≤ d)
remaining-le none t d e h = absurd (cc)
remaining-le (some until) t d e h = (ground (arith, e, h), ground (arith, e, h))

-- At any time that is not before the outcomes of a loop, a wait that the loop still has is at
-- least a millisecond and at most 80 seconds, and the level is at most five.
pub paced-bounded :
    (outcomes : List (ℕ × Bool)) (now d : ℕ)
    → TimesWithin now outcomes
    → deferring now (paced outcomes fresh) ≡ some d
    → ((paced outcomes fresh).level ≤ level_cap) × (1 ≤ d) × (d ≤ longest_window)
unfolding deferring
paced-bounded outcomes now d w h =
    let v = paced-PacerInv outcomes now fresh w (record { capped = omega arith; window = tt }) in
    let (high, low) = remaining-le (paced outcomes fresh).defer_until now d v.window h in
    (v.capped, low, high)

-- After at least as many clean runs as its level, the level of a loop is zero.
pub paced-recovers :
    (p : RateLimitPacer) (times : List ℕ)
    → p.level ≤ length times
    → (paced (map (λ t. (t, false)) times) p).level ≡ 0
unfolding paced after
paced-recovers p [] le = omega (arith, le)
paced-recovers p (t ∷ times) le =
    paced-recovers (record p { level = p.level - 1 }) times (omega (arith, le))
