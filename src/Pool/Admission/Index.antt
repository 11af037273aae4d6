-- ===== src/Pool/Admission/Index.antt =====
-- `note_indexed` of message-relayer/src/pool/mod.rs: what it stores, and that it keeps the invariant.
use asc_message_relayer.Prelude.{
  ℕ, ◌<◌, ◌≡◌, refl, sym, ◌∙◌, true, false, none, some, List, [], ◌∷◌, ◌++◌, length, arith,
  Bool-cases, Option-cases, inl, inr, ◌==◌, contains, contains-append, ==_refl,
}
use asc_message_relayer.Prelude.Map.{
  Map, lookup, insert, remove, contains_key, AllEntries-lookup, AllEntries-remove,
  AllEntries-insert, lookup-insert, AllEntries, length-remove, length-insert_new, Distinct-insert,
}
use asc_message_relayer.Prelude.Sorted.{IsSorted, Above-insert, AllEntries-insert_sorted}
use asc_message_relayer.Types.{Bytes, Crypto, IndexedMessage}
use asc_message_relayer.Pool.Slot.{MessageSlot, RouteState, EarlyVotes, resolved}
use asc_message_relayer.Pool.Slot.Dispatch.{
  dispatch_if_ready-Sound, dispatch_if_ready-other, dispatch_if_ready-contains,
}
use asc_message_relayer.Pool.Invariant.{
  SlotInv, EarlyInv, RouteInv, Signed, Member, Sound?, Sound?-none, Sound?-from, insert-RouteInv,
}
use asc_message_relayer.Pool.Admission.{
  fresh_slot, adopt, make_room, admit, note_indexed, can_index,
}
use asc_message_relayer.Pool.Admission.Room.{
  make_room-RouteInv, make_room-room, make_room-can_index, make_room-config, make_room-keeps,
  make_room-absent,
}

-- Adopted votes keep what the buffer knew of them, are ordered, and come from present attestors.
module _ (x : Crypto) (hash : ℕ) (attestors : List ℕ) where
  adopt-verified :
      (early signers : Map Bytes)
      → AllEntries (Signed x hash) early
      → AllEntries (Signed x hash) signers
      → AllEntries (Signed x hash) (adopt attestors early signers)
  unfolding adopt
  adopt-verified [] signers he hs = hs
  adopt-verified ((a, sig) ∷ early) signers he hs = elim (Bool-cases (contains attestors a)) [
    | inl c ↦ rw c (
        adopt-verified early _ he.1
          (AllEntries-insert_sorted (Signed x hash) a sig signers hs he.0))
    | inr c ↦ rw c (adopt-verified early signers he.1 hs)
  ]

module _ (attestors : List ℕ) where
  adopt-IsSorted :
      (early signers : Map Bytes) → IsSorted signers → IsSorted (adopt attestors early signers)
  unfolding adopt
  adopt-IsSorted [] signers hs = hs
  adopt-IsSorted ((a, sig) ∷ early) signers hs = elim (Bool-cases (contains attestors a)) [
    | inl c ↦ rw c (adopt-IsSorted early _ (Above-insert 0 a sig signers (omega arith) hs))
    | inr c ↦ rw c (adopt-IsSorted early signers hs)
  ]

  adopt-members :
      (early signers : Map Bytes)
      → AllEntries (Member attestors) signers
      → AllEntries (Member attestors) (adopt attestors early signers)
  unfolding adopt
  adopt-members [] signers hs = hs
  adopt-members ((a, sig) ∷ early) signers hs = elim (Bool-cases (contains attestors a)) [
    | inl c ↦
        rw c
          (adopt-members early _ (AllEntries-insert_sorted (Member attestors) a sig signers hs c))
    | inr c ↦ rw c (adopt-members early signers hs)
  ]

module _ (x : Crypto) (r : RouteState) (indexed : IndexedMessage) (now : ℕ) where
  -- The slot with some signers.
  abbrev pub slot_with : Map Bytes → MessageSlot
  slot_with signers = record (fresh_slot indexed now) { signers = signers }

  -- The route with the new slot, before the early votes are looked up.
  abbrev pub with_slot : RouteState
  with_slot = record r {
    by_message = insert indexed.message_id (fresh_slot indexed now) r.by_message;
    order = r.order ++ indexed.message_id ∷ [];
  }

  fresh-SlotInv : SlotInv x r.attestors indexed.message_id (fresh_slot indexed now)
  fresh-SlotInv = record {
    keyed = refl;
    verified = tt;
    sorted = tt;
    members = λ h. tt;
    idle = λ h. refl;
  }

  pub with_slot-RouteInv :
      RouteInv x r
      → lookup indexed.message_id r.by_message ≡ none
      → length r.by_message < r.cache_max
      → RouteInv x with_slot
  with_slot-RouteInv v new room = record {
    slots =
        AllEntries-insert (SlotInv x r.attestors) indexed.message_id (fresh_slot indexed now)
          r.by_message v.slots fresh-SlotInv;
    early = v.early;
    distinct = Distinct-insert indexed.message_id (fresh_slot indexed now) r.by_message v.distinct;
    bounded = omega (
      arith,
      length-insert_new indexed.message_id (fresh_slot indexed now) r.by_message new,
      room,
    );
    early_bounded = v.early_bounded;
    ordered = λ h. ground (
      arith,
      v.ordered h,
      contains-append r.order indexed.message_id h,
      lookup-insert indexed.message_id h (fresh_slot indexed now) r.by_message,
    );
  }

  adopted-SlotInv :
      (early : EarlyVotes)
      → EarlyInv x indexed.message_id early
      → SlotInv x r.attestors indexed.message_id (slot_with (adopt r.attestors early.signers []))
  adopted-SlotInv early e = record {
    keyed = refl;
    verified = adopt-verified x indexed.message_id r.attestors early.signers [] e.verified tt;
    sorted = adopt-IsSorted r.attestors early.signers [] tt;
    members = λ h. adopt-members r.attestors early.signers [] tt;
    idle = λ h. refl;
  }

  -- The route that the dispatch after an adoption starts from.
  abbrev pub adopted : EarlyVotes → RouteState
  adopted early = record with_slot {
    early_votes = remove indexed.message_id r.early_votes;
    by_message =
        insert indexed.message_id (slot_with (adopt r.attestors early.signers []))
          (insert indexed.message_id (fresh_slot indexed now) r.by_message);
  }

  without_early-RouteInv :
      RouteInv x with_slot
      → RouteInv x (record with_slot { early_votes = remove indexed.message_id r.early_votes })
  without_early-RouteInv w = record {
    slots = w.slots;
    early = AllEntries-remove (EarlyInv x) indexed.message_id r.early_votes w.early;
    distinct = w.distinct;
    bounded = w.bounded;
    early_bounded = omega (arith, length-remove indexed.message_id r.early_votes, w.early_bounded);
    ordered = w.ordered;
  }

  pub adopted-RouteInv :
      (early : EarlyVotes)
      → RouteInv x with_slot
      → EarlyInv x indexed.message_id early
      → RouteInv x (adopted early)
  adopted-RouteInv early w e =
      insert-RouteInv x (record with_slot { early_votes = remove indexed.message_id r.early_votes })
        indexed.message_id (fresh_slot indexed now) (slot_with (adopt r.attestors early.signers []))
        (rw lookup-insert (rw (==_refl indexed.message_id))) (without_early-RouteInv w)
        (adopted-SlotInv early e)

  admit-Sound :
      (chain_key : ℕ)
      → RouteInv x r
      → lookup indexed.message_id r.by_message ≡ none
      → length r.by_message < r.cache_max
      → Sound? x r (admit x chain_key indexed now r).0 (admit x chain_key indexed now r).1
  unfolding admit
  admit-Sound chain_key v new room =
      let w = with_slot-RouteInv v new room in
      elim (Option-cases (lookup indexed.message_id r.early_votes)) [
        | inl e ↦
            rw (e, admit) (record { inv = w; attestors = refl; threshold = refl; job_good = tt })
        | inr (early, e) ↦
            rw (e, admit)
              (Sound?-from x (adopted early) r _ _ refl refl (
                dispatch_if_ready-Sound x chain_key indexed.message_id now false (adopted early) (
                  adopted-RouteInv early w
                    (AllEntries-lookup (EarlyInv x) indexed.message_id r.early_votes v.early e))))
      ]

  admit-contains :
      (chain_key : ℕ)
      → contains_key indexed.message_id (admit x chain_key indexed now r).0.by_message ≡ true
  unfolding admit
  admit-contains chain_key = elim (Option-cases (lookup indexed.message_id r.early_votes)) [
    | inl e ↦ rw (e, admit) (rw lookup-insert (rw (==_refl indexed.message_id)))
    | inr (early, e) ↦
        rw (e, admit)
          (dispatch_if_ready-contains x chain_key indexed.message_id now false (adopted early)
              indexed.message_id
            ∙ rw lookup-insert (rw (==_refl indexed.message_id)))
  ]

  admit-other :
      (chain_key h : ℕ)
      → (indexed.message_id == h) ≡ false
      → lookup h (admit x chain_key indexed now r).0.by_message ≡ lookup h r.by_message
  unfolding admit
  admit-other chain_key h ne = elim (Option-cases (lookup indexed.message_id r.early_votes)) [
    | inl e ↦ rw (e, admit) (rw lookup-insert (rw ne))
    | inr (early, e) ↦
        rw (e, admit)
          (dispatch_if_ready-other x chain_key indexed.message_id now false (adopted early) h ne
            ∙ rw lookup-insert (rw ne (rw lookup-insert (rw ne))))
  ]

-- How `note_indexed` ends.
module _ (x : Crypto) (chain_key : ℕ) (indexed : IndexedMessage) (now : ℕ) (r : RouteState) where
  pub data Noted : Type 0 where
    known :
        contains_key indexed.message_id r.by_message ≡ true
        → note_indexed x chain_key indexed now r ≡ (r, none)
        → Noted
    full :
        contains_key indexed.message_id r.by_message ≡ false
        → (make_room r).1 ≡ false
        → note_indexed x chain_key indexed now r ≡ ((make_room r).0, none)
        → Noted
    stored :
        contains_key indexed.message_id r.by_message ≡ false
        → (make_room r).1 ≡ true
        → note_indexed x chain_key indexed now r ≡ admit x chain_key indexed now (make_room r).0
        → Noted

  pub noted : Noted
  unfolding note_indexed
  noted = elim (Bool-cases (contains_key indexed.message_id r.by_message)) [
    | inl c ↦ known c (rw (c, note_indexed))
    | inr c ↦ elim (Bool-cases (make_room r).1) [
      | inl b ↦ stored c b (rw (c, note_indexed) (rw b))
      | inr b ↦ full c b (rw (c, note_indexed) (rw b))
    ]
  ]

  differs :
      (h : ℕ) (s : MessageSlot)
      → contains_key indexed.message_id r.by_message ≡ false
      → lookup h r.by_message ≡ some s
      → (indexed.message_id == h) ≡ false
  differs h s c p = ground arith

  pub absent :
      contains_key indexed.message_id r.by_message ≡ false
      → lookup indexed.message_id r.by_message ≡ none
  absent c = ground arith

  -- Indexing keeps the invariant of the route and its configuration, and the job that it may
  -- dispatch only asks what became of its message or carries a quorum.
  pub note_indexed-Sound :
      RouteInv x r
      → Sound? x r
          (note_indexed x chain_key indexed now r).0
          (note_indexed x chain_key indexed now r).1
  note_indexed-Sound v =
      let cfg = make_room-config r in
      let w = make_room-RouteInv r x v in
      elim noted [
        | known c e ↦ rw e (Sound?-none x r v)
        | full c b e ↦
            rw e (Sound?-from x (make_room r).0 r _ _ cfg.0 cfg.1 (Sound?-none x (make_room r).0 w))
        | stored c b e ↦ rw e (
            Sound?-from x (make_room r).0 r _ _ cfg.0 cfg.1 (
              admit-Sound x (make_room r).0 indexed now chain_key w
                (make_room-absent r indexed.message_id (absent c)) (make_room-room r b)))
      ]

  -- On a route that meets the invariant, a message that can_index accepts has a slot once it is
  -- indexed.
  pub note_indexed-stores :
      RouteInv x r
      → can_index indexed r ≡ true
      → contains_key indexed.message_id (note_indexed x chain_key indexed now r).0.by_message ≡ true
  note_indexed-stores v can = elim noted [
    | known c e ↦ rw e c
    | full c b e ↦
        let no : false ≡ true = sym (make_room-can_index x r indexed v ∙ rw (c, b)) ∙ can in
        absurd (cc)
    | stored c b e ↦ rw e (admit-contains x (make_room r).0 indexed now chain_key)
  ]

  -- Whatever message is indexed, an unresolved slot that was there before is there afterwards,
  -- unchanged.
  pub note_indexed-keeps :
      (h : ℕ) (s : MessageSlot)
      → lookup h r.by_message ≡ some s
      → resolved s ≡ false
      → lookup h (note_indexed x chain_key indexed now r).0.by_message ≡ some s
  note_indexed-keeps h s p u = elim noted [
    | known c e ↦ rw e p
    | full c b e ↦ rw e (make_room-keeps r h s p u)
    | stored c b e ↦ rw e (
        admit-other x (make_room r).0 indexed now chain_key h (differs h s c p)
        ∙ make_room-keeps r h s p u)
  ]
