-- ===== src/Pool/Admission/Marks.antt =====
-- `note_indexed` of message-relayer/src/pool/mod.rs marks exactly the message that it dispatches.
use asc_message_relayer.Prelude.{
  ℕ, ◌<◌, ◌≡◌, false, none, [], ◌==◌, length, arith, Bool-cases, Option-cases, inl, inr, ==_iff,
}
use asc_message_relayer.Prelude.Map.{Map, lookup, insert, lookup-insert, AllEntries-lookup}
use asc_message_relayer.Types.{Bytes, Crypto, IndexedMessage}
use asc_message_relayer.Pool.Slot.{RouteState, EarlyVotes}
use asc_message_relayer.Pool.Invariant.{SlotInv, EarlyInv, RouteInv}
use asc_message_relayer.Pool.Flight.{flight, flight_of, Marks, dispatch_if_ready-Marks}
use asc_message_relayer.Pool.Admission.{make_room, admit, note_indexed}
use asc_message_relayer.Pool.Admission.Room.{
  make_room-cases, make_room-RouteInv, make_room-absent, make_room-room,
}
use asc_message_relayer.Pool.Admission.Index.{
  slot_with, adopted, with_slot-RouteInv, adopted-RouteInv, noted, known, full, stored, absent,
}

-- Room is made at the cost of no flight: a resolved slot is idle.
flight-make_room :
    (x : Crypto) (r : RouteState) (h : ℕ) → RouteInv x r → flight h (make_room r).0 ≡ flight h r
flight-make_room x r h v = elim (make_room-cases r h) [
  | inl e ↦ rw e
  | inr (s, p, d, e) ↦
      let i = AllEntries-lookup (SlotInv x r.attestors) h r.by_message v.slots p in
      rw (e, p) (rw (i.idle d))
]

module _ (x : Crypto) (r : RouteState) (indexed : IndexedMessage) (now : ℕ) where
  -- The new slot is idle, and its message was not there.
  flight-fresh :
      (signers : Map Bytes) (h : ℕ)
      → lookup indexed.message_id r.by_message ≡ none
      → flight_of
          (lookup h (insert indexed.message_id (slot_with x r indexed now signers) r.by_message))
        ≡ flight h r
  flight-fresh signers h n = elim (Bool-cases (indexed.message_id == h)) [
    | inl e ↦ rw lookup-insert (rw e (rw (← (==_iff indexed.message_id h).0 e) (rw n)))
    | inr e ↦ rw lookup-insert (rw e)
  ]

  flight-adopted :
      (early : EarlyVotes) (h : ℕ)
      → lookup indexed.message_id r.by_message ≡ none
      → flight h (adopted x r indexed now early) ≡ flight h r
  flight-adopted early h n = elim (Bool-cases (indexed.message_id == h)) [
    | inl e ↦ rw lookup-insert (rw e (rw (← (==_iff indexed.message_id h).0 e) (rw n)))
    | inr e ↦ rw lookup-insert (rw e (rw lookup-insert (rw e)))
  ]

  admit-Marks :
      (chain_key : ℕ)
      → RouteInv x r
      → lookup indexed.message_id r.by_message ≡ none
      → length r.by_message < r.cache_max
      → Marks r (admit x chain_key indexed now r).0 (admit x chain_key indexed now r).1
  unfolding admit
  admit-Marks chain_key v n room h = elim (Option-cases (lookup indexed.message_id r.early_votes)) [
    | inl e ↦ rw (e, admit) (omega (arith, flight-fresh [] h n))
    | inr (early, e) ↦
        let w = with_slot-RouteInv x r indexed now v n room in
        let i =
          adopted-RouteInv x r indexed now early w
            (AllEntries-lookup (EarlyInv x) indexed.message_id r.early_votes v.early e) in
        rw (e, admit)
          (omega (
            arith,
            flight-adopted early h n,
            dispatch_if_ready-Marks x chain_key indexed.message_id now false
                (adopted x r indexed now early) i h,
          ))
  ]

pub note_indexed-Marks :
    (x : Crypto) (chain_key : ℕ) (indexed : IndexedMessage) (now : ℕ) (r : RouteState)
    → RouteInv x r
    → Marks r (note_indexed x chain_key indexed now r).0 (note_indexed x chain_key indexed now r).1
note_indexed-Marks x chain_key indexed now r v h =
    let w = make_room-RouteInv r x v in
    let room = flight-make_room x r h v in
    elim (noted x chain_key indexed now r) [
      | known c e ↦ rw e (omega arith)
      | full c b e ↦ rw e (omega (arith, room))
      | stored c b e ↦ rw e (
          omega (
            arith,
            room,
            admit-Marks x (make_room r).0 indexed now chain_key w
                (make_room-absent r indexed.message_id (absent x chain_key indexed now r c))
                (make_room-room r b) h,
          ))
    ]
