-- ===== src/SetUpdate/Single.antt =====
-- How often message-relayer/src/set_update/mod.rs submits an update.
use mathlib.Core.Path.{subst}
use asc_message_relayer.Prelude.{
  ℕ, ◌≡◌, sym, refl, true, false, Option, none, some, List, [], ◌∷◌, ◌==◌, length, contains, ltb,
  arith, Bool-cases, inl, inr, is_some, All,
}
use asc_message_relayer.Prelude.Map.{lookup, insert}
use asc_message_relayer.Prelude.Sorted.{insert_sorted}
use asc_message_relayer.Types.{Bytes, Crypto}
use asc_message_relayer.SetUpdate.{
  SetUpdateVote, OnChain, RouteState, UpdateDigest, Verified, verify_vote, Submission, slot_of,
  submission_of, count_update, verified_by, with_view, handle_vote, advanced, refresh, Event,
  refreshes, votes_for, cons_some, run,
}

-- The view has the nonce, if there is one.
abbrev pub HasNonce : ℕ → Option OnChain → Type 0
HasNonce n none = Unit {0}
HasNonce n (some c) = c.nonce ≡ n

-- The nonce stays, and submissions succeed.
abbrev pub Steady : ℕ → Event → Type 0
Steady n (refreshes view) = HasNonce n view
Steady n (votes_for vote ok) = ok ≡ true

-- No update is submitted twice.
abbrev pub Single : List Submission → Type 0
Single [] = Unit {0}
Single (sub ∷ subs) = All (λ other. (other.digest == sub.digest) ≡ false) subs × Single subs

abbrev NotIn : List ℕ → Submission → Type 0
NotIn in_flight sub = contains in_flight sub.digest ≡ false

-- A vote leaves the view, and what it submits is new and in flight afterwards.
data Marks (s s' : RouteState) : Option Submission → Type 0 where
  silent : s'.current ≡ s.current → s'.in_flight ≡ s.in_flight → Marks s s' none
  marked :
      (sub : Submission)
      → s'.current ≡ s.current
      → contains s.in_flight sub.digest ≡ false
      → s'.in_flight ≡ sub.digest ∷ s.in_flight
      → Marks s s' (some sub)

count_update-Marks :
    (threshold : ℕ) (signature : Bytes) (v : Verified) (s : RouteState)
    → Marks s
        (count_update true threshold signature v s).0
        (count_update true threshold signature v s).1
unfolding count_update
count_update-Marks threshold signature v s =
    let before = slot_of (lookup v.digest s.votes) in
    let slot = insert_sorted v.signer signature before in
    let counted = record s { votes = insert v.digest slot s.votes } in
    elim (Bool-cases (contains s.in_flight v.digest)) [
      | inl f ↦ rw f (silent refl refl)
      | inr f ↦ elim (Bool-cases (is_some (lookup v.signer before))) [
        | inl k ↦ rw (f, k) (silent refl refl)
        | inr k ↦ elim (Bool-cases (ltb (length slot) threshold)) [
          | inl less ↦ rw (f, k, less) (silent refl refl)
          | inr full ↦ rw (f, k, full) (marked (submission_of v slot counted) refl f refl)
        ]
      ]
    ]

-- Submissions that are not under way, and differ.
abbrev Fresh : List ℕ → List Submission → Type 0
Fresh in_flight subs = All (NotIn in_flight) subs × Single subs

All-other :
    (d : ℕ) (in_flight : List ℕ) (subs : List Submission)
    → All (NotIn (d ∷ in_flight)) subs
    → All (NotIn in_flight) subs × All (λ other. (other.digest == d) ≡ false) subs
All-other d in_flight [] a = (tt, tt)
All-other d in_flight (sub ∷ subs) a =
    let (old, new) = All-other d in_flight subs a.1 in
    ((ground (arith, a.0), old), (ground (arith, a.0), new))

step-Fresh :
    (s s' : RouteState) (o : Option Submission) (subs : List Submission)
    → Marks s s' o
    → Fresh s'.in_flight subs
    → Fresh s.in_flight (cons_some o subs)
step-Fresh s s' none subs (silent e f) g = subst (λ l. Fresh l subs) f g
step-Fresh s s' (some sub) subs (marked _ e n f) g =
    let g' : Fresh (sub.digest ∷ s.in_flight) subs = subst (λ l. Fresh l subs) f g in
    let (old, new) = All-other sub.digest s.in_flight subs g'.0 in ((n, old), (new, g'.1))

view-Marks_same :
    (s s' : RouteState) (o : Option Submission) → Marks s s' o → s'.current ≡ s.current
view-Marks_same s s' none (silent e f) = e
view-Marks_same s s' (some sub) (marked _ e n f) = e

module _ (x : Crypto) (h : UpdateDigest) where
  verified-Marks :
      (threshold : ℕ) (signature : Bytes) (o : Option Verified) (s : RouteState)
      → Marks s
          (verified_by true threshold signature o s).0
          (verified_by true threshold signature o s).1
  verified-Marks threshold signature none s = silent refl refl
  verified-Marks threshold signature (some v) s = count_update-Marks threshold signature v s

  view-Marks :
      (vote : SetUpdateVote) (o : Option OnChain) (s : RouteState)
      → Marks s (with_view x h true vote o s).0 (with_view x h true vote o s).1
  view-Marks vote none s = silent refl refl
  view-Marks vote (some c) s =
      verified-Marks c.threshold vote.signature (verify_vote x h vote s.validator c) s

  handle_vote-Marks :
      (vote : SetUpdateVote) (s : RouteState)
      → Marks s (handle_vote x h true vote s).0 (handle_vote x h true vote s).1
  unfolding handle_vote
  handle_vote-Marks vote s = view-Marks vote s.current s

  steady_view :
      (n : ℕ) (o : Option OnChain) (c : OnChain)
      → HasNonce n o
      → c.nonce ≡ n
      → advanced o c.nonce ≡ false
  steady_view n none c a b = refl
  steady_view n (some d) c a b = ground (arith, a, b)

  refresh_steady :
      (n : ℕ) (view : Option OnChain) (s : RouteState)
      → HasNonce n s.current
      → HasNonce n view
      → ((refresh view s).in_flight ≡ s.in_flight) × HasNonce n (refresh view s).current
  unfolding refresh
  refresh_steady n none s a b = (refl, a)
  refresh_steady n (some c) s a b = rw (steady_view n s.current c a b) (refl, b)

  run-Fresh :
      (n : ℕ) (es : List Event) (s : RouteState)
      → All (Steady n) es
      → HasNonce n s.current
      → Fresh s.in_flight (run x h es s).1
  unfolding run
  run-Fresh n [] s a c = (tt, tt)
  run-Fresh n (refreshes view ∷ es) s a c =
      let (same, c') = refresh_steady n view s c a.0 in
      subst (λ l. Fresh l (run x h es (refresh view s)).1) same
        (run-Fresh n es (refresh view s) a.1 c')
  run-Fresh n (votes_for vote ok ∷ es) s a c = rw a.0 (
      let s' = (handle_vote x h true vote s).0 in
      let o = (handle_vote x h true vote s).1 in
      let m = handle_vote-Marks vote s in
      step-Fresh s s' o (run x h es s').1 m
        (run-Fresh n es s' a.1 (subst (HasNonce n) (sym (view-Marks_same s s' o m)) c)))

  -- While refreshes that succeed read one nonce and all submissions succeed, the updates submitted
  -- have different digests, whatever votes come.
  pub run-Single :
      (n : ℕ) (es : List Event) (s : RouteState)
      → All (Steady n) es
      → HasNonce n s.current
      → Single (run x h es s).1
  run-Single n es s a c = (run-Fresh n es s a c).1
