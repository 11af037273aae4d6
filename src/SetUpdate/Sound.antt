-- ===== src/SetUpdate/Sound.antt =====
-- What is submitted by message-relayer/src/set_update/mod.rs.
use mathlib.Core.Path.{subst}
use asc_message_relayer.Prelude.{
  ℕ, ◌≤◌, ◌≡◌, ◌∙◌, sym, ap, refl, Bool, true, false, not, Option, none, some, List, [], ◌∷◌, ◌==◌,
  length, contains, ltb, arith, Bool-cases, inl, inr, is_some, All, ==_iff,
}
use asc_message_relayer.Prelude.Map.{
  Map, lookup, insert, AllEntries, AllEntries-lookup, AllEntries-insert, AllEntries-remove,
  AllEntries-mono,
}
use asc_message_relayer.Prelude.Sorted.{
  IsSorted, insert_sorted, Above-insert, AllEntries-insert_sorted,
}
use asc_message_relayer.Types.{Bytes, Crypto}
use asc_message_relayer.Pool.Signature.{recover_signer}
use asc_message_relayer.SetUpdate.{
  SetUpdateVote, OnChain, RouteState, UpdateDigest, canonical_attestor_order, Verified, verify_vote,
  known_signer, Submission, slot_of, submitted, submission_of, count_update, verified_by, with_view,
  handle_vote, advanced, refresh, new_route, Event, refreshes, votes_for, cons_some, run,
}

-- The view shows the signer as an attestor.
abbrev pub Attests : Option OnChain → ℕ → Type 0
Attests none a = ⊥
Attests (some c) a = contains c.attestors a ≡ true

-- The view after a refresh, which may have failed.
abbrev pub latest : Option OnChain → Option OnChain → Option OnChain
latest view none = view
latest view (some read) = some read

module _ (x : Crypto) (h : UpdateDigest) (set_at : ℕ → List ℕ) where
  -- A signature over the digest, by an attestor.
  abbrev pub Signs : Option OnChain → ℕ → ℕ → Bytes → Type 0
  Signs current digest a signature =
      (recover_signer x digest signature ≡ some a) × Attests current a

  abbrev pub GoodSlot : Option OnChain → ℕ → Map Bytes → Type 0
  GoodSlot current digest slot = IsSorted slot × AllEntries (Signs current digest) slot

  -- The set that a nonce stands for.
  abbrev pub Consistent : Option OnChain → Type 0
  Consistent none = Unit
  Consistent (some c) = c.attestors ≡ set_at c.nonce

  record RouteInv (s : RouteState) : Type 0 where
    slots : AllEntries (GoodSlot s.current) s.votes
    consistent : Consistent s.current

  -- A submission under a view: the digest is that of the validator, the canonical set and the view,
  -- and at least as many attestors of the view as its threshold, each once, have signed it.
  pub record Sound (c : OnChain) (sub : Submission) : Type 0 where
    pub bound : sub.digest ≡ h sub.validator sub.new_attestors c.chain_id c.nonce
    pub quorum : c.threshold ≤ length sub.signatures
    pub signers_once : IsSorted sub.signatures
    pub signed : AllEntries (Signs (some c) sub.digest) sub.signatures

  Attests-same :
      (o : Option OnChain) (c : OnChain) (a : ℕ)
      → Consistent o
      → Consistent (some c)
      → advanced o c.nonce ≡ false
      → Attests o a
      → Attests (some c) a
  Attests-same none c a k l e h = absurd h
  Attests-same (some b) c a k l e h =
      let same : b.nonce ≡ c.nonce = (==_iff b.nonce c.nonce).0 (ground (arith, e)) in
      subst (λ as'. contains as' a ≡ true) (k ∙ ap set_at same ∙ sym l) h

  refresh-RouteInv :
      (view : Option OnChain) (s : RouteState)
      → Consistent view
      → RouteInv s
      → RouteInv (refresh view s)
  unfolding refresh
  refresh-RouteInv none s k v = v
  refresh-RouteInv (some view) s k v = elim (Bool-cases (advanced s.current view.nonce)) [
    | inl e ↦ rw e (record { slots = tt; consistent = k })
    | inr e ↦ rw e (record {
      slots =
          AllEntries-mono (GoodSlot s.current) (GoodSlot (some view)) s.votes
            (λ d slot g. (
              g.0,
              AllEntries-mono (Signs s.current d) (Signs (some view) d) slot
                  (λ a sig p. (p.0, Attests-same s.current view a v.consistent k e p.1)) g.1,
            ))
            v.slots;
      consistent = k;
    })
  ]

  -- What a verification has checked.
  record Checked (vote : SetUpdateVote) (validator : ℕ) (c : OnChain) (v : Verified) : Type 0 where
    digest_is : v.digest ≡ h validator v.canonical c.chain_id c.nonce
    signs : Signs (some c) v.digest v.signer vote.signature

  known_signer-Checked :
      (vote : SetUpdateVote) (validator : ℕ) (c : OnChain) (canonical : List ℕ) (digest : ℕ)
      (o : Option ℕ) {v : Verified}
      → digest ≡ h validator canonical c.chain_id c.nonce
      → recover_signer x digest vote.signature ≡ o
      → known_signer c canonical digest o ≡ some v
      → Checked vote validator c v
  known_signer-Checked vote validator c canonical digest none d r e = absurd (cc)
  known_signer-Checked vote validator c canonical digest (some a) {v} d r e =
      elim (Bool-cases (contains c.attestors a)) [
        | inr n ↦ let bad : none ≡ some v = rw n at e in absurd (cc)
        | inl m ↦
            let found : Verified = record { canonical = canonical; digest = digest; signer = a } in
            let is' : some found ≡ some v = rw m at e in
            let is : found ≡ v = cc in
            subst (Checked vote validator c) is (record { digest_is = d; signs = (r, m) })
      ]

  verify-Checked :
      (vote : SetUpdateVote) (validator : ℕ) (c : OnChain) {v : Verified}
      → verify_vote x h vote validator c ≡ some v
      → Checked vote validator c v
  unfolding verify_vote
  verify-Checked vote validator c {v} e =
      let canonical = canonical_attestor_order vote.new_attestors in
      let digest = h validator canonical c.chain_id vote.nonce in
      elim (Bool-cases (not (vote.nonce == c.nonce))) [
        | inl q ↦ let bad : none ≡ some v = rw q at e in absurd (cc)
        | inr q ↦
            let same : vote.nonce ≡ c.nonce = (==_iff vote.nonce c.nonce).0 (ground (arith, q)) in
            known_signer-Checked vote validator c canonical digest
              (recover_signer x digest vote.signature) (ap (h validator canonical c.chain_id) same)
              refl (rw q at e)
      ]

  abbrev pub SoundIf : Option OnChain → Option Submission → Type 0
  SoundIf current none = Unit
  SoundIf none (some sub) = ⊥
  SoundIf (some c) (some sub) = Sound c sub

  -- A vote keeps the invariant and the view, and what it submits is sound.
  record Ends (s : RouteState) (r : RouteState × Option Submission) : Type 0 where
    kept : RouteInv r.0
    same_view : r.0.current ≡ s.current
    sound : SoundIf s.current r.1

  unchanged-Ends : (s : RouteState) → RouteInv s → Ends s (s, none)
  unchanged-Ends s v = record { kept = v; same_view = refl; sound = silent s.current }
    where
      silent : (o : Option OnChain) → SoundIf o none
      silent none = tt
      silent (some c) = tt

  module _ (c : OnChain) (vote : SetUpdateVote) (v : Verified) (s : RouteState) (inv : RouteInv s)
      (view : s.current ≡ some c) (checked : Checked vote s.validator c v) where
    abbrev before : Map Bytes
    before = slot_of (lookup v.digest s.votes)

    abbrev grown : Map Bytes
    grown = insert_sorted v.signer vote.signature before

    abbrev counted : RouteState
    counted = record s { votes = insert v.digest grown s.votes }

    before-GoodSlot :
        (o : Option (Map Bytes))
        → lookup v.digest s.votes ≡ o
        → GoodSlot s.current v.digest (slot_of o)
    before-GoodSlot none q = (tt, tt)
    before-GoodSlot (some slot) q =
        AllEntries-lookup (GoodSlot s.current) v.digest s.votes inv.slots q

    grown-GoodSlot : GoodSlot s.current v.digest grown
    grown-GoodSlot =
        let b = before-GoodSlot (lookup v.digest s.votes) refl in
        let signs : Signs s.current v.digest v.signer vote.signature =
          subst (λ o. Signs o v.digest v.signer vote.signature) (sym view) checked.signs in
        (
          Above-insert 0 v.signer vote.signature before (omega arith) b.0,
          AllEntries-insert_sorted (Signs s.current v.digest) v.signer vote.signature before b.1
              signs,
        )

    counted-RouteInv : RouteInv counted
    counted-RouteInv = record {
      slots =
          AllEntries-insert (GoodSlot s.current) v.digest grown s.votes inv.slots grown-GoodSlot;
      consistent = inv.consistent;
    }

    submitted-RouteInv : (ok : Bool) → RouteInv (submitted ok v grown counted)
    submitted-RouteInv true = record {
      slots = AllEntries-remove (GoodSlot s.current) v.digest counted.votes counted-RouteInv.slots;
      consistent = inv.consistent;
    }
    submitted-RouteInv false = record {
      slots = AllEntries-remove (GoodSlot s.current) v.digest counted.votes counted-RouteInv.slots;
      consistent = inv.consistent;
    }

    submitted_view : (ok : Bool) → (submitted ok v grown counted).current ≡ s.current
    submitted_view true = refl
    submitted_view false = refl

    submission-Sound :
        ltb (length grown) c.threshold ≡ false
        → SoundIf s.current (some (submission_of v grown counted))
    submission-Sound full =
        subst (λ o. SoundIf o (some (submission_of v grown counted))) (sym view)
          (record {
            bound = checked.digest_is;
            quorum = ground (arith, full);
            signers_once = grown-GoodSlot.0;
            signed = subst (λ o. AllEntries (Signs o v.digest) grown) view grown-GoodSlot.1;
          })

    count_update-Ends : (ok : Bool) → Ends s (count_update ok c.threshold vote.signature v s)
    unfolding count_update
    count_update-Ends ok = elim (Bool-cases (contains s.in_flight v.digest)) [
      | inl f ↦ rw f (unchanged-Ends s inv)
      | inr f ↦ elim (Bool-cases (is_some (lookup v.signer before))) [
        | inl k ↦
            rw (f, k)
              (record {
                kept = counted-RouteInv;
                same_view = refl;
                sound = (unchanged-Ends s inv).sound;
              })
        | inr k ↦ elim (Bool-cases (ltb (length grown) c.threshold)) [
          | inl less ↦
              rw (f, k, less)
                (record {
                  kept = counted-RouteInv;
                  same_view = refl;
                  sound = (unchanged-Ends s inv).sound;
                })
          | inr full ↦
              rw (f, k, full)
                (record {
                  kept = submitted-RouteInv ok;
                  same_view = submitted_view ok;
                  sound = submission-Sound full;
                })
        ]
      ]
    ]

  verified_by-Ends :
      (ok : Bool) (vote : SetUpdateVote) (c : OnChain) (s : RouteState) (o : Option Verified)
      → RouteInv s
      → s.current ≡ some c
      → verify_vote x h vote s.validator c ≡ o
      → Ends s (verified_by ok c.threshold vote.signature o s)
  verified_by-Ends ok vote c s none inv view q = unchanged-Ends s inv
  verified_by-Ends ok vote c s (some v) inv view q =
      count_update-Ends c vote v s inv view (verify-Checked vote s.validator c q) ok

  with_view-Ends :
      (ok : Bool) (vote : SetUpdateVote) (s : RouteState) (o : Option OnChain)
      → RouteInv s
      → s.current ≡ o
      → Ends s (with_view x h ok vote o s)
  with_view-Ends ok vote s none inv view = unchanged-Ends s inv
  with_view-Ends ok vote s (some c) inv view =
      verified_by-Ends ok vote c s (verify_vote x h vote s.validator c) inv view refl

  handle_vote-Ends :
      (ok : Bool) (vote : SetUpdateVote) (s : RouteState)
      → RouteInv s
      → Ends s (handle_vote x h ok vote s)
  unfolding handle_vote
  handle_vote-Ends ok vote s inv = with_view-Ends ok vote s s.current inv refl

  -- The submissions of a run from a state: what a vote submits is sound under the view that the
  -- last refresh before it read.
  abbrev pub Backing : Option OnChain → List Event → RouteState → List Submission → Type 0
  Backing view [] s subs = subs ≡ []
  Backing view (refreshes read ∷ es) s subs = Backing (latest view read) es (refresh read s) subs
  Backing view (votes_for vote ok ∷ es) s subs =
      SoundIf view (handle_vote x h ok vote s).1
      × ((rest : List Submission) × (subs ≡ cons_some (handle_vote x h ok vote s).1 rest)
          × Backing view es (handle_vote x h ok vote s).0 rest)

  refresh-latest_view :
      (read : Option OnChain) (s : RouteState) → (refresh read s).current ≡ latest s.current read
  unfolding refresh
  refresh-latest_view none s = refl
  refresh-latest_view (some view) s = elim (Bool-cases (advanced s.current view.nonce)) [
    | inl e ↦ rw e refl
    | inr e ↦ rw e refl
  ]

  -- A refresh reads the set of the nonce that it reads.
  abbrev pub Reads : Event → Type 0
  Reads (refreshes view) = Consistent view
  Reads (votes_for vote ok) = Unit

  run-Backing :
      (es : List Event) (s : RouteState)
      → All Reads es
      → RouteInv s
      → Backing s.current es s (run x h es s).1
  unfolding run
  run-Backing [] s r inv = refl
  run-Backing (refreshes read ∷ es) s r inv =
      let s' = refresh read s in
      subst (λ view. Backing view es s' (run x h es s').1) (refresh-latest_view read s)
        (run-Backing es s' r.1 (refresh-RouteInv read s r.0 inv))
  run-Backing (votes_for vote ok ∷ es) s r inv =
      let e = handle_vote-Ends ok vote s inv in
      let s' = (handle_vote x h ok vote s).0 in
      (
        e.sound,
        (
          (run x h es s').1,
          refl,
          subst (λ view. Backing view es s' (run x h es s').1) e.same_view
              (run-Backing es s' r.1 e.kept),
        ),
      )

  -- If refreshes read the set that belongs to the nonce they read, each update that a new route
  -- submits at a vote carries the digest of its validator, its array and the view that the last
  -- successful refresh before that vote read, with at least as many signatures as the threshold of
  -- that view, each over the digest and by an attestor of that view of its own.
  pub run-new-Backing :
      (es : List Event) (validator : ℕ)
      → All Reads es
      → Backing none es (new_route validator) (run x h es (new_route validator)).1
  run-new-Backing es validator r =
      run-Backing es (new_route validator) r (record { slots = tt; consistent = tt })
