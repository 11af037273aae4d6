-- ===== src/Work/Store/Returned.antt =====
-- What `pending` of message-relayer/src/work.rs returns.
use asc_message_relayer.Prelude.{
  ℕ, zero, suc, ◌+◌, ◌≤◌, ◌<◌, ◌≡◌, ◌∙◌, ap, refl, Bool, true, false, ◌&&◌, Option, none, some,
  List, [], ◌∷◌, ◌++◌, ltb, length, length-append, contains, ◌==◌, is_some, arith, Bool-cases, inl,
  inr, All, All-append,
}
use asc_message_relayer.Prelude.Map.{Map, lookup, keys}
use asc_message_relayer.Types.{IndexedMessage}
use asc_message_relayer.Work.Cursor.{RouteCursor, is_some_and}
use asc_message_relayer.Work.Store.{
  File, stored, undecodable, RouteWork, ReadAnswers, or_empty, Filled, filled, ended, broken, fill,
  Examined, returned, failed, passed, loads, loaded_file, examine, pending_loop, with_cursor,
  open_cursor, with_opened, pending, max_examined_per_call,
}

-- A message of the route, stored under its id, that the caller does not hold.
pub record Pends (chain_key : ℕ) (files : Map File) (held : List ℕ) (m : IndexedMessage)
    : Type 0 where
  pub is_stored : lookup m.message_id files ≡ some (stored m)
  pub of_route : m.chain_key ≡ chain_key
  pub unheld : contains held m.message_id ≡ false

abbrev pub Returns : ℕ → Map File → List ℕ → ℕ → Option (List IndexedMessage) → Type 0
Returns chain_key files held limit none = Unit
Returns chain_key files held limit (some ms) =
    All (Pends chain_key files held) ms × (length ms ≤ limit)

module _ (a : ReadAnswers) (chain_key : ℕ) (files : Map File) where
  abbrev Loads : List ℕ → Examined → Type 0
  Loads held (returned c) = Unit {0}
  Loads held (failed c) = Unit {0}
  Loads held (passed c) = Unit {0}
  Loads held (loads c m) = Pends chain_key files held m

  loaded_file-Loads :
      (held : List ℕ) (id : ℕ) (c : RouteCursor) (read : Bool) (file : Option File)
      → lookup id files ≡ file
      → contains held id ≡ false
      → Loads held (loaded_file chain_key id c read file)
  loaded_file-Loads held id c read none q h = tt
  loaded_file-Loads held id c read (some undecodable) q h = tt
  loaded_file-Loads held id c read (some (stored m)) q h =
      elim (Bool-cases (read && (m.chain_key == chain_key && m.message_id == id))) [
        | inr e ↦ rw e tt
        | inl e ↦
            let same : m.message_id ≡ id = ground (arith, e) in
            rw e (record {
              is_stored = ap (λ k. lookup k files) same ∙ q;
              of_route = ground (arith, e);
              unheld = ap (λ k. contains held k) same ∙ h;
            })
      ]

  examine-Loads :
      (start : Option ℕ) (wrapped : Bool) (held : List ℕ) (c : RouteCursor) (ids : List ℕ)
      → Loads held (examine a chain_key files start wrapped held c ids)
  unfolding examine
  examine-Loads start wrapped held c [] = tt
  examine-Loads start wrapped held c (id ∷ ids) =
      elim (Bool-cases (wrapped && is_some_and (λ s. ltb s id) start)) [
        | inl e ↦ rw e tt
        | inr e ↦ rw e (elim (Bool-cases (contains held id)) [
          | inl k ↦ rw k tt
          | inr k ↦ rw k (
              loaded_file-Loads held id (record c { window = ids; after = some id }) (a.reads id)
                (lookup id files) refl k)
        ])
      ]

  -- More that is held.
  Pends-less :
      (held more : List ℕ) (m : IndexedMessage)
      → ((k : ℕ) → contains held k ≡ true → contains more k ≡ true)
      → Pends chain_key files more m
      → Pends chain_key files held m
  Pends-less held more m h p = record {
    is_stored = p.is_stored;
    of_route = p.of_route;
    unheld = elim (Bool-cases (contains held m.message_id)) [
      | inr e ↦ e
      | inl e ↦ (let in_more = h m.message_id e in let out = p.unheld in absurd (cc))
    ];
  }

  module _ (present : Bool) (held : List ℕ) (limit : ℕ) (start : Option ℕ) where
    abbrev Out : RouteCursor × Option (List IndexedMessage) → Type 0
    Out r = Returns chain_key files held limit r.1

    -- What the messages found so far and the ids held meet.
    abbrev Found : List ℕ → List IndexedMessage → Type 0
    Found loaded messages =
        ((k : ℕ) → contains held k ≡ true → contains loaded k ≡ true)
        × All (Pends chain_key files held) messages
        × (length messages < limit)

    module _ (left : ℕ)
        (rest : (wrapped : Bool) (loaded : List ℕ) (messages : List IndexedMessage)
            (c : RouteCursor)
          → Found loaded messages
          → Out (pending_loop a chain_key present files limit start left wrapped loaded messages c))
        (wrapped : Bool) (loaded : List ℕ) (messages : List IndexedMessage) (c : RouteCursor)
        (f : Found loaded messages) where
      stop : All (Pends chain_key files held) messages × (length messages ≤ limit)
      stop = (f.1, omega (arith, f.2))

      examined-Out :
          (c' : RouteCursor) (wrapped' : Bool)
          → fill a present (keys files) start wrapped left c ≡ filled c' wrapped'
          → (x : Examined) → examine a chain_key files start wrapped' loaded c' c'.window ≡ x
          → Loads loaded x
          → Out (
              pending_loop a chain_key present files limit start
                (suc left)
                wrapped
                loaded
                messages
                c)
      unfolding pending_loop
      examined-Out c' wrapped' e (returned c'') q k = rw (e, q, pending_loop) stop
      examined-Out c' wrapped' e (failed c'') q k = rw (e, q, pending_loop) tt
      examined-Out c' wrapped' e (passed c'') q k =
          rw (e, q, pending_loop) (rest wrapped' loaded messages c'' f)
      examined-Out c' wrapped' e (loads c'' m) q k =
          let good =
            All-append (Pends chain_key files held) messages (m ∷ []) f.1
              (Pends-less held loaded m f.0 k, tt) in
          let len : length (messages ++ m ∷ []) ≡ length messages + 1 =
            length-append messages (m ∷ []) in
          rw (e, q, pending_loop)
            (elim (Bool-cases (length (messages ++ m ∷ []) == limit)) [
              | inl full ↦ rw full (good, omega (arith, len, f.2))
              | inr room ↦ rw room (
                  rest wrapped' (m.message_id ∷ loaded) (messages ++ m ∷ []) c''
                    (λ j h. ground (arith, f.0 j h), good, ground (arith, len, f.2, room)))
            ])

      round-Out :
          (x : Filled)
          → fill a present (keys files) start wrapped left c ≡ x
          → Out (
              pending_loop a chain_key present files limit start
                (suc left)
                wrapped
                loaded
                messages
                c)
      unfolding pending_loop
      round-Out (ended c') e = rw (e, pending_loop) stop
      round-Out (broken c') e = rw (e, pending_loop) tt
      round-Out (filled c' wrapped') e =
          examined-Out c' wrapped' e (examine a chain_key files start wrapped' loaded c' c'.window)
            refl (examine-Loads start wrapped' loaded c' c'.window)

    pending_loop-Out :
        (left : ℕ) (wrapped : Bool) (loaded : List ℕ) (messages : List IndexedMessage)
        (c : RouteCursor)
        → Found loaded messages
        → Out (pending_loop a chain_key present files limit start left wrapped loaded messages c)
    unfolding pending_loop
    pending_loop-Out zero wrapped loaded messages c f = (f.1, omega (arith, f.2))
    pending_loop-Out (suc left) wrapped loaded messages c f =
        round-Out left (λ w l m d g. pending_loop-Out left w l m d g) wrapped loaded messages c f
          (fill a present (keys files) start wrapped left c) refl

with_cursor-Returns :
    (a : ReadAnswers) (chain_key : ℕ) (held : List ℕ) (limit : ℕ) (r : RouteWork) (c : RouteCursor)
    → 1 ≤ limit
    → Returns chain_key (or_empty r.directory) held limit (with_cursor a chain_key held limit r c).1
with_cursor-Returns a chain_key held limit r c one =
    pending_loop-Out a chain_key (or_empty r.directory) (is_some r.directory) held limit c.after
      max_examined_per_call false held [] c ((λ k h. h), tt, omega (arith, one))

with_opened-Returns :
    (a : ReadAnswers) (chain_key : ℕ) (held : List ℕ) (limit : ℕ) (r : RouteWork)
    (o : Option (Option RouteCursor))
    → 1 ≤ limit
    → Returns chain_key (or_empty r.directory) held limit (with_opened a chain_key held limit r o).1
with_opened-Returns a chain_key held limit r none one = tt
with_opened-Returns a chain_key held limit r (some none) one = (tt, omega arith)
with_opened-Returns a chain_key held limit r (some (some c)) one =
    with_cursor-Returns a chain_key held limit r c one

-- Pending fails or returns no more messages than asked for, each stored in the directory under its
-- own id, of the route that was asked for, and not among those that the caller holds.
pub pending-Returns :
    (a : ReadAnswers) (chain_key : ℕ) (held : List ℕ) (limit : ℕ) (r : RouteWork)
    → Returns chain_key (or_empty r.directory) held limit (pending a chain_key held limit r).1
unfolding pending
pending-Returns a chain_key held limit r = elim (Bool-cases (limit == 0)) [
  | inl e ↦ rw e (tt, omega arith)
  | inr e ↦
      rw e
        (with_opened-Returns a chain_key held limit r (open_cursor a.opened r) (ground (arith, e)))
]
