-- ===== src/Pool/Voting/Sound.antt =====
-- `note_vote` of message-relayer/src/pool/mod.rs keeps the invariant, dispatches only on a quorum,
-- and counts a signer once.
use asc_message_relayer.Prelude.{
  ℕ, ◌≡◌, refl, true, false, ◌||◌, none, some, List, length, ltb, arith, Bool-cases, Option-cases,
  ◌⊎◌, inl, inr, contains,
}
use asc_message_relayer.Prelude.Map.{
  lookup, insert, contains_key, AllEntries-lookup, AllEntries-insert,
}
use asc_message_relayer.Prelude.Sorted.{insert_sorted, Above-insert, AllEntries-insert_sorted}
use asc_message_relayer.Types.{Crypto, MessageVote, accept, reject, ignore, buffered}
use asc_message_relayer.Pool.Signature.{recover_signer}
use asc_message_relayer.Pool.Slot.{EarlyVotes, MessageSlot, RouteState, resolved, dispatch_if_ready}
use asc_message_relayer.Pool.Slot.Dispatch.{dispatch_if_ready-Sound}
use asc_message_relayer.Pool.Invariant.{
  SlotInv, EarlyInv, RouteInv, Signed, Member, Sound?, Sound?-none, Sound?-from, insert-RouteInv,
}
use asc_message_relayer.Pool.Voting.{
  checked_signer, early_entry, evict_early_overflow, buffer_early_vote, count_vote, vote_on_slot,
  note_vote,
}
use asc_message_relayer.Pool.Voting.Eviction.{
  length-evict_early_overflow, evict_early_overflow-AllEntries,
}

-- A vote that passes the checks is a present attestor's own.
pub record Checked (x : Crypto) (attestors : List ℕ) (hash : ℕ) (vote : MessageVote) (a : ℕ)
    : Type 0 where
  pub member : contains attestors a ≡ true
  pub signed : recover_signer x hash vote.signature ≡ some a
  pub claimed : a ≡ vote.signer

pub checked_signer-Checked :
    (x : Crypto) (attestors : List ℕ) (hash : ℕ) (vote : MessageVote) (a : ℕ)
    → checked_signer x attestors hash vote ≡ some a
    → Checked x attestors hash vote a
unfolding checked_signer
checked_signer-Checked x attestors hash vote a h =
    elim (Option-cases (recover_signer x hash vote.signature)) [
      | inl n ↦ absurd (ground (arith, n, h))
      | inr (b, e) ↦ record {
        member = ground (arith, e, h);
        signed = ground (arith, e, h);
        claimed = ground (arith, e, h);
      }
    ]

-- Buffering.
module _ (x : Crypto) (hash : ℕ) (vote : MessageVote) (now : ℕ) (r : RouteState) where
  early_entry-EarlyInv :
      RouteInv x r → EarlyInv x hash (early_entry now (lookup hash r.early_votes))
  early_entry-EarlyInv v = elim (Option-cases (lookup hash r.early_votes)) [
    | inl n ↦ rw n (record { verified = tt; sorted = tt })
    | inr (e, p) ↦ rw p (AllEntries-lookup (EarlyInv x) hash r.early_votes v.early p)
  ]

  -- The entry with one more verified vote.
  abbrev with_vote : ℕ → EarlyVotes
  with_vote a = record (early_entry now (lookup hash r.early_votes)) {
    signers = insert_sorted a vote.signature (early_entry now (lookup hash r.early_votes)).signers;
  }

  with_vote-EarlyInv :
      (a : ℕ) → RouteInv x r → Checked x r.attestors hash vote a → EarlyInv x hash (with_vote a)
  with_vote-EarlyInv a v c =
      let e = early_entry-EarlyInv v in
      record {
        verified = AllEntries-insert_sorted (Signed x hash) a vote.signature _ e.verified c.signed;
        sorted = Above-insert 0 a vote.signature _ (omega arith) e.sorted;
      }

  -- The route with that entry, before the overflow is evicted.
  abbrev with_early : ℕ → RouteState
  with_early a = record r { early_votes = insert hash (with_vote a) r.early_votes }

  evicted-RouteInv :
      (a : ℕ)
      → RouteInv x r
      → Checked x r.attestors hash vote a
      → RouteInv x (evict_early_overflow (with_early a))
  unfolding evict_early_overflow
  evicted-RouteInv a v c = record {
    slots = v.slots;
    early = evict_early_overflow-AllEntries (with_early a) (EarlyInv x) (
        AllEntries-insert (EarlyInv x) hash (with_vote a) r.early_votes v.early
          (with_vote-EarlyInv a v c));
    distinct = v.distinct;
    bounded = v.bounded;
    early_bounded = length-evict_early_overflow (with_early a);
    ordered = v.ordered;
  }

  buffer_early_vote-Sound : RouteInv x r → Sound? x r (buffer_early_vote x hash vote now r).0 none
  unfolding buffer_early_vote evict_early_overflow
  buffer_early_vote-Sound v = elim (Option-cases (checked_signer x r.attestors hash vote)) [
    | inl n ↦ rw (n, buffer_early_vote) (Sound?-none x r v)
    | inr (a, e) ↦
        rw (e, buffer_early_vote)
          (Sound?-from x (evict_early_overflow (with_early a)) r _ none refl refl (
            Sound?-none x _
              (evicted-RouteInv a v (checked_signer-Checked x r.attestors hash vote a e))))
  ]

  -- Buffering rejects the vote or files it, and touches no indexed message.
  pub buffer_early_vote-cases :
      (buffer_early_vote x hash vote now r ≡ (r, reject))
      ⊎ ((buffer_early_vote x hash vote now r).1 ≡ buffered)
  unfolding buffer_early_vote
  buffer_early_vote-cases = elim (Option-cases (checked_signer x r.attestors hash vote)) [
    | inl n ↦ inl (rw (n, buffer_early_vote))
    | inr (a, e) ↦ inr (rw (e, buffer_early_vote))
  ]

  pub buffer_early_vote-by_message :
      (buffer_early_vote x hash vote now r).0.by_message ≡ r.by_message
  unfolding buffer_early_vote evict_early_overflow
  buffer_early_vote-by_message = elim (Option-cases (checked_signer x r.attestors hash vote)) [
    | inl n ↦ rw (n, buffer_early_vote)
    | inr (a, e) ↦ rw (e, buffer_early_vote)
  ]

-- Counting.
module _ (x : Crypto) (vote : MessageVote) (a : ℕ) (s : MessageSlot) (now : ℕ)
    (r : RouteState) where
  abbrev pub counted : MessageSlot
  counted = record s { signers = insert_sorted a vote.signature s.signers }

  abbrev pub with_counted : RouteState
  with_counted = record r { by_message = insert vote.message_id counted r.by_message }

  -- How the count ends.
  pub data Counts : Type 0 where
    again :
        contains_key a s.signers ≡ true → count_vote x vote a s now r ≡ (r, none, ignore) → Counts
    waits :
        contains_key a s.signers ≡ false
        → count_vote x vote a s now r ≡ (with_counted, none, accept)
        → Counts
    dispatches :
        contains_key a s.signers ≡ false
        → count_vote x vote a s now r ≡ (
          (dispatch_if_ready x vote.chain_key vote.message_id now false with_counted).0,
          (dispatch_if_ready x vote.chain_key vote.message_id now false with_counted).1,
          accept,
        )
        → Counts

  pub counts : Counts
  unfolding count_vote
  counts = elim (Bool-cases (contains_key a s.signers)) [
    | inl c ↦ again c (rw (c, count_vote))
    | inr c ↦ elim (Bool-cases (ltb (length counted.signers) r.threshold || s.in_flight)) [
      | inl w ↦ waits c (rw (c, count_vote) (rw w))
      | inr w ↦ dispatches c (rw (c, count_vote) (rw w))
    ]
  ]

  counted-SlotInv :
      SlotInv x r.attestors vote.message_id s
      → Checked x r.attestors vote.message_id vote a
      → SlotInv x r.attestors vote.message_id counted
  counted-SlotInv v c = record {
    keyed = v.keyed;
    verified =
        AllEntries-insert_sorted (Signed x vote.message_id) a vote.signature s.signers v.verified
          c.signed;
    sorted = Above-insert 0 a vote.signature s.signers (omega arith) v.sorted;
    members = λ h.
        AllEntries-insert_sorted (Member r.attestors) a vote.signature s.signers (v.members h)
          c.member;
    idle = v.idle;
  }

  pub with_counted-RouteInv :
      RouteInv x r
      → lookup vote.message_id r.by_message ≡ some s
      → Checked x r.attestors vote.message_id vote a
      → RouteInv x with_counted
  with_counted-RouteInv v p c = insert-RouteInv x r vote.message_id s counted p v (
      counted-SlotInv
        (AllEntries-lookup (SlotInv x r.attestors) vote.message_id r.by_message v.slots p) c)

  count_vote-Sound :
      RouteInv x r
      → lookup vote.message_id r.by_message ≡ some s
      → Checked x r.attestors vote.message_id vote a
      → Sound? x r (count_vote x vote a s now r).0 (count_vote x vote a s now r).1
  count_vote-Sound v p c =
      let w = with_counted-RouteInv v p c in
      elim counts [
        | again _ e ↦ rw e (Sound?-none x r v)
        | waits _ e ↦ rw e (record { inv = w; attestors = refl; threshold = refl; job_good = tt })
        | dispatches _ e ↦ rw e (
            Sound?-from x with_counted r _ _ refl refl
              (dispatch_if_ready-Sound x vote.chain_key vote.message_id now false with_counted w))
      ]

module _ (x : Crypto) (vote : MessageVote) (now : ℕ) (r : RouteState) where
  -- How `note_vote` ends.
  pub data Noted : Type 0 where
    early :
        lookup vote.message_id r.by_message ≡ none
        → note_vote x vote now r ≡ (
          (buffer_early_vote x vote.message_id vote now r).0,
          none,
          (buffer_early_vote x vote.message_id vote now r).1,
        )
        → Noted
    late :
        (s : MessageSlot)
        → lookup vote.message_id r.by_message ≡ some s
        → resolved s ≡ true
        → note_vote x vote now r ≡ (r, none, ignore)
        → Noted
    refused :
        (s : MessageSlot)
        → lookup vote.message_id r.by_message ≡ some s
        → resolved s ≡ false
        → checked_signer x r.attestors vote.message_id vote ≡ none
        → note_vote x vote now r ≡ (r, none, reject)
        → Noted
    counted_vote :
        (s : MessageSlot) (a : ℕ)
        → lookup vote.message_id r.by_message ≡ some s
        → resolved s ≡ false
        → checked_signer x r.attestors vote.message_id vote ≡ some a
        → note_vote x vote now r ≡ count_vote x vote a s now r
        → Noted

  pub noted : Noted
  unfolding note_vote vote_on_slot
  noted = elim (Option-cases (lookup vote.message_id r.by_message)) [
    | inl n ↦ early n (rw (n, note_vote))
    | inr (s, p) ↦ elim (Bool-cases (resolved s)) [
      | inl d ↦ late s p d (rw (p, note_vote) (rw (d, vote_on_slot)))
      | inr d ↦ elim (Option-cases (checked_signer x r.attestors vote.message_id vote)) [
        | inl n ↦ refused s p d n (rw (p, note_vote) (rw (d, vote_on_slot) (rw n)))
        | inr (a, e) ↦ counted_vote s a p d e (rw (p, note_vote) (rw (d, vote_on_slot) (rw e)))
      ]
    ]
  ]

  -- A vote keeps the invariant of the route and its configuration, and the job that it may
  -- dispatch only asks what became of its message or carries a quorum.
  pub note_vote-Sound :
      RouteInv x r → Sound? x r (note_vote x vote now r).0 (note_vote x vote now r).1
  note_vote-Sound v = elim noted [
    | early n e ↦ rw e (buffer_early_vote-Sound x vote.message_id vote now r v)
    | late s p d e ↦ rw e (Sound?-none x r v)
    | refused s p d n e ↦ rw e (Sound?-none x r v)
    | counted_vote s a p d c e ↦ rw e (
        count_vote-Sound x vote a s now r v p
          (checked_signer-Checked x r.attestors vote.message_id vote a c))
  ]
