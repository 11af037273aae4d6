-- ===== src/Pool/Voting/Counting.antt =====
-- Which votes `note_vote` of message-relayer/src/pool/mod.rs counts, and what becomes of the others.
use asc_message_relayer.Prelude.{
  ℕ, ◌≡◌, refl, sym, ap, ◌∙◌, false, none, some, arith, Bool-cases, ◌⊎◌, inl, inr, ◌==◌, ==_iff,
  ==_refl,
}
use asc_message_relayer.Prelude.Map.{Map, lookup, contains_key, lookup-insert, AllEntries-lookup}
use asc_message_relayer.Prelude.Sorted.{IsSorted, insert_sorted, lookup-insert_sorted}
use asc_message_relayer.Types.{Bytes, Crypto, MessageVote, accept, reject, ignore, buffered}
use asc_message_relayer.Pool.Slot.{
  MessageSlot, RouteState, resolved, dispatch_if_ready, dispatch_slot,
}
use asc_message_relayer.Pool.Slot.Dispatch.{
  dispatch_if_ready_self, dispatch_if_ready-signers, dispatch_slot-signers,
}
use asc_message_relayer.Pool.Invariant.{SlotInv, RouteInv}
use asc_message_relayer.Pool.Voting.{buffer_early_vote, note_vote}
use asc_message_relayer.Pool.Voting.Sound.{
  Checked, buffer_early_vote-cases, buffer_early_vote-by_message, checked_signer-Checked, counted,
  with_counted, counts, again, waits, dispatches, noted, early, late, refused, counted_vote,
}

-- The slot of a message after an operation, with the votes it then holds.
abbrev pub Holds : RouteState → ℕ → Map Bytes → Type 0
Holds r hash signers =
    (s : MessageSlot) × (lookup hash r.by_message ≡ some s) × (s.signers ≡ signers)

module _ (x : Crypto) (vote : MessageVote) (a : ℕ) (s : MessageSlot) (now : ℕ)
    (r : RouteState) where
  counted-Holds :
      Holds
        (with_counted x vote a s now r)
        vote.message_id
        (insert_sorted a vote.signature s.signers)
  counted-Holds = (counted x vote a s now r, rw lookup-insert (rw (==_refl vote.message_id)), refl)

  dispatched-Holds :
      Holds
        (dispatch_if_ready x vote.chain_key vote.message_id now false
          (with_counted x vote a s now r)).0
        vote.message_id
        (insert_sorted a vote.signature s.signers)
  dispatched-Holds = (
    (dispatch_slot x vote.chain_key r.threshold now false (counted x vote a s now r)).0,
    dispatch_if_ready_self x vote.chain_key vote.message_id now false
        (with_counted x vote a s now r) (counted x vote a s now r)
        (rw lookup-insert (rw (==_refl vote.message_id))),
    dispatch_slot-signers x vote.chain_key r.threshold now false (counted x vote a s now r),
  )

-- What an accepted vote was, and what it adds.
pub record Accepted (x : Crypto) (vote : MessageVote) (now : ℕ) (r : RouteState) : Type 0 where
  pub slot : MessageSlot
  pub indexed : lookup vote.message_id r.by_message ≡ some slot
  pub unresolved : resolved slot ≡ false
  pub checked : Checked x r.attestors vote.message_id vote vote.signer
  pub new : contains_key vote.signer slot.signers ≡ false
  pub holds :
      Holds
        (note_vote x vote now r).0
        vote.message_id
        (insert_sorted vote.signer vote.signature slot.signers)

module _ (x : Crypto) (vote : MessageVote) (now : ℕ) (r : RouteState) where
  buffer_early_vote-ne : (buffer_early_vote x vote.message_id vote now r).1 ≡ accept → ⊥
  buffer_early_vote-ne h = elim (buffer_early_vote-cases x vote.message_id vote now r) [
    | inl e ↦ let bad : reject ≡ accept = sym (ap (λ t. t.1) e) ∙ h in cc
    | inr e ↦ let bad : buffered ≡ accept = sym e ∙ h in cc
  ]

  Accepted-at :
      (s : MessageSlot) (a : ℕ)
      → lookup vote.message_id r.by_message ≡ some s
      → resolved s ≡ false
      → Checked x r.attestors vote.message_id vote a
      → contains_key a s.signers ≡ false
      → Holds (note_vote x vote now r).0 vote.message_id (insert_sorted a vote.signature s.signers)
      → Accepted x vote now r
  Accepted-at s a p d c new h = record {
    slot = s;
    indexed = p;
    unresolved = d;
    checked = rw c.claimed at c;
    new = rw c.claimed at new;
    holds = rw c.claimed at h;
  }

  -- A vote is accepted only for an indexed, unresolved message, from a present attestor whose own
  -- signature it is and whom the message does not count yet; then that signature is added.
  pub note_vote-Accepted : (note_vote x vote now r).2 ≡ accept → Accepted x vote now r
  note_vote-Accepted h = elim (noted x vote now r) [
    | early n e ↦ absurd (buffer_early_vote-ne (sym (ap (λ t. t.2) e) ∙ h))
    | late s p d e ↦ let bad : ignore ≡ accept = sym (ap (λ t. t.2) e) ∙ h in absurd (cc)
    | refused s p d n e ↦ let bad : reject ≡ accept = sym (ap (λ t. t.2) e) ∙ h in absurd (cc)
    | counted_vote s a p d c e ↦
        let checked = checked_signer-Checked x r.attestors vote.message_id vote a c in
        elim (counts x vote a s now r) [
          | again old f ↦ let bad : ignore ≡ accept = sym (ap (λ t. t.2) (e ∙ f)) ∙ h in absurd (cc)
          | waits new f ↦
              Accepted-at s a p d checked new (rw (e ∙ f) (counted-Holds x vote a s now r))
          | dispatches new f ↦
              Accepted-at s a p d checked new (rw (e ∙ f) (dispatched-Holds x vote a s now r))
        ]
  ]

  -- A vote that is rejected or ignored changes nothing and dispatches nothing.
  pub note_vote-unchanged :
      ((note_vote x vote now r).2 ≡ reject) ⊎ ((note_vote x vote now r).2 ≡ ignore)
      → ((note_vote x vote now r).0 ≡ r) × ((note_vote x vote now r).1 ≡ none)
  note_vote-unchanged h = elim (noted x vote now r) [
    | early n e ↦ elim (buffer_early_vote-cases x vote.message_id vote now r) [
      | inl f ↦ rw (e, f) (refl, refl)
      | inr f ↦ let o = ap (λ t. t.2) e ∙ f in absurd (ground (arith, h, o))
    ]
    | late s p d e ↦ rw e (refl, refl)
    | refused s p d n e ↦ rw e (refl, refl)
    | counted_vote s a p d c e ↦ elim (counts x vote a s now r) [
      | again old f ↦ rw (e ∙ f) (refl, refl)
      | waits new f ↦ let o = ap (λ t. t.2) (e ∙ f) in absurd (ground (arith, h, o))
      | dispatches new f ↦ let o = ap (λ t. t.2) (e ∙ f) in absurd (ground (arith, h, o))
    ]
  ]

-- A counted signature stays under its address.
abbrev pub KeepsSignature : RouteState → ℕ → ℕ → Bytes → Type 0
KeepsSignature r hash b sig =
    (s : MessageSlot) × (lookup hash r.by_message ≡ some s) × (lookup b s.signers ≡ some sig)

module _ (x : Crypto) (vote : MessageVote) (now : ℕ) (r : RouteState) (hash b : ℕ)
    (sig : Bytes) where
  -- The new vote is another attestor's.
  counted-keeps :
      (a : ℕ) (s : MessageSlot)
      → IsSorted s.signers
      → contains_key a s.signers ≡ false
      → lookup b s.signers ≡ some sig
      → lookup b (insert_sorted a vote.signature s.signers) ≡ some sig
  counted-keeps a s sorted new q = elim (Bool-cases (a == b)) [
    | inl e ↦
        let no : contains_key b s.signers ≡ false = rw ((==_iff a b).0 e) at new in
        absurd (ground (arith, no, q))
    | inr e ↦ lookup-insert_sorted 0 a b vote.signature s.signers sorted ∙ rw e q
  ]

  with_counted-keeps :
      (a : ℕ) (t : MessageSlot)
      → RouteInv x r
      → lookup vote.message_id r.by_message ≡ some t
      → contains_key a t.signers ≡ false
      → KeepsSignature r hash b sig
      → KeepsSignature (with_counted x vote a t now r) hash b sig
  with_counted-keeps a t v p new (s, q, k) = elim (Bool-cases (vote.message_id == hash)) [
    | inl e ↦
        let here = (==_iff vote.message_id hash).0 e in
        let same : t ≡ s = ground (arith, p, q, here) in
        let slot =
          AllEntries-lookup (SlotInv x r.attestors) vote.message_id r.by_message v.slots p in
        (
          counted x vote a t now r,
          rw lookup-insert (rw e),
          counted-keeps a t slot.sorted new (rw same k),
        )
    | inr e ↦ (s, rw lookup-insert (rw e q), k)
  ]

  -- On a route that meets the invariant, a signature counted for a message stays under its signer,
  -- whatever vote comes.
  pub note_vote-KeepsSignature :
      RouteInv x r
      → KeepsSignature r hash b sig
      → KeepsSignature (note_vote x vote now r).0 hash b sig
  note_vote-KeepsSignature v k = elim (noted x vote now r) [
    | early n e ↦ rw (e, buffer_early_vote-by_message) k
    | late s p d e ↦ rw e k
    | refused s p d n e ↦ rw e k
    | counted_vote s a p d c e ↦ elim (counts x vote a s now r) [
      | again old f ↦ rw (e ∙ f) k
      | waits new f ↦ rw (e ∙ f) (with_counted-keeps a s v p new k)
      | dispatches new f ↦
          let (t, q, l) = with_counted-keeps a s v p new k in
          let (t', q', same) =
            dispatch_if_ready-signers x vote.chain_key vote.message_id now false
              (with_counted x vote a s now r) hash t q in
          rw (e ∙ f) (t', q', rw same l)
    ]
  ]
