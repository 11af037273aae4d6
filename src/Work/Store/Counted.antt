-- ===== src/Work/Store/Counted.antt =====
-- The count of a cursor of message-relayer/src/work.rs is that of the records of its directory.
use mathlib.Core.Path.{subst}
use asc_message_relayer.Prelude.{
  ℕ, zero, suc, ◌≡◌, sym, ap, refl, Bool, true, false, not, ◌&&◌, ◌||◌, Option, none, some, List,
  [], ◌∷◌, ◌++◌, ltb, length, contains, ◌==◌, if◌then◌else◌, is_some, arith, Bool-cases,
  Option-cases, inl, inr, if_both, ==_iff,
}
use asc_message_relayer.Prelude.Map.{
  Map, lookup, insert, remove, keys, contains_key, Distinct, Distinct-insert, Distinct-remove,
  length-insert_new, length-insert_old, map_opt,
}
use asc_message_relayer.Types.{IndexedMessage}
use asc_message_relayer.Work.Cursor.{RouteCursor, refill, is_some_and}
use asc_message_relayer.Work.Store.{
  File, stored, undecodable, RouteWork, WriteAnswers, RemoveAnswers, ReadAnswers, or_empty,
  one_more, one_less, record_message, complete, Filled, filled, ended, broken, is_empty, refilled,
  next_lap, fill, Examined, returned, failed, passed, loads, loaded_file, examine, pending_loop,
  with_cursor, with_opened, opening, open_cursor, pending, Call, records, completes, reads_pending,
  restarts, call, run, max_examined_per_call,
}

length-keys : (m : Map File) → length (keys m) ≡ length m
unfolding keys
length-keys [] = refl
length-keys ((k, v) ∷ m) = omega (arith, length-keys m)

length-remove_absent : (k : ℕ) (m : Map File) → lookup k m ≡ none → length (remove k m) ≡ length m
unfolding remove lookup
length-remove_absent k [] h = refl
length-remove_absent k ((j, w) ∷ m) h = ground (arith, length-remove_absent k m)

length-remove_old :
    (k : ℕ) (m : Map File)
    → Distinct m
    → contains_key k m ≡ true
    → suc (length (remove k m)) ≡ length m
unfolding remove lookup
length-remove_old k [] d h = absurd (cc)
length-remove_old k ((j, w) ∷ m) d h = elim (Bool-cases (j == k)) [
  | inl e ↦
      let gone : lookup k m ≡ none = rw ((==_iff j k).0 e) at d.0 in
      rw e (ap suc (length-remove_absent k m gone))
  | inr e ↦ rw e (ap suc (length-remove_old k m d.1 (rw e at h)))
]

module _ (a : ReadAnswers) (n : ℕ) where
  -- A count that a round leaves.
  abbrev Fills : Filled → Type 0
  Fills (filled c wrapped) = c.live_records ≡ n
  Fills (ended c) = c.live_records ≡ n
  Fills (broken c) = c.live_records ≡ n

  refilled-Fills :
      (listed wrapped : Bool) (otherwise : RouteCursor → Filled) (ids : List ℕ) (c : RouteCursor)
      → ((c : RouteCursor) → c.live_records ≡ n → Fills (otherwise c))
      → c.live_records ≡ n
      → Fills (refilled listed wrapped otherwise ids c)
  unfolding refill
  refilled-Fills listed wrapped otherwise ids c f h = if_both Fills (not listed) _ _ h (
      if_both Fills (is_empty (refill ids c).window) _ _
        (f (record (refill ids c) { after = none }) h) h)

  next_lap-Fills :
      (listed : Bool) (start : Option ℕ) (wrapped : Bool) (ids : List ℕ) (c : RouteCursor)
      → c.live_records ≡ n
      → Fills (next_lap listed start wrapped ids c)
  next_lap-Fills listed start wrapped ids c h =
      if_both Fills (wrapped || not (is_some start)) (ended c) (refilled listed true ended ids c) h
        (refilled-Fills listed true ended ids c (λ c' h'. h') h)

  fill-Fills :
      (present : Bool) (ids : List ℕ) (start : Option ℕ) (wrapped : Bool) (left : ℕ)
      (c : RouteCursor)
      → c.live_records ≡ n
      → Fills (fill a present ids start wrapped left c)
  unfolding fill
  fill-Fills present ids start wrapped left c h =
      let lap = next_lap (present && a.lists true left) start wrapped ids in
      if_both Fills (not (is_empty c.window)) _ _ h (
        if_both Fills (c.live_records == 0) _ _ h (
          refilled-Fills (present && a.lists wrapped left) wrapped lap ids c
            (next_lap-Fills (present && a.lists true left) start wrapped ids) h))

  abbrev Examines : Examined → Type 0
  Examines (returned c) = c.live_records ≡ n
  Examines (failed c) = c.live_records ≡ n
  Examines (passed c) = c.live_records ≡ n
  Examines (loads c m) = c.live_records ≡ n

  loaded_file-Examines :
      (chain_key id : ℕ) (c : RouteCursor) (read : Bool) (file : Option File)
      → c.live_records ≡ n
      → Examines (loaded_file chain_key id c read file)
  loaded_file-Examines chain_key id c read none h = h
  loaded_file-Examines chain_key id c read (some undecodable) h = h
  loaded_file-Examines chain_key id c read (some (stored m)) h =
      if_both Examines (read && (m.chain_key == chain_key && m.message_id == id)) (loads c m)
        (failed c) h h

  examine-Examines :
      (chain_key : ℕ) (files : Map File) (start : Option ℕ) (wrapped : Bool) (loaded : List ℕ)
      (c : RouteCursor) (ids : List ℕ)
      → c.live_records ≡ n
      → Examines (examine a chain_key files start wrapped loaded c ids)
  unfolding examine
  examine-Examines chain_key files start wrapped loaded c [] h = h
  examine-Examines chain_key files start wrapped loaded c (id ∷ ids) h =
      let c' = record c { window = ids; after = some id } in
      if_both Examines (wrapped && is_some_and (λ s. ltb s id) start) (returned c) _ h (
        if_both Examines (contains loaded id) (passed c') _ h (
          loaded_file-Examines chain_key id (record c { window = ids; after = some id })
            (a.reads id) (lookup id files) h))

  abbrev Live : RouteCursor × Option (List IndexedMessage) → Type 0
  Live r = r.0.live_records ≡ n

  -- A round, given the rest of them.
  module _ (chain_key : ℕ) (present : Bool) (files : Map File) (limit : ℕ) (start : Option ℕ)
      (left : ℕ)
      (rest : (wrapped : Bool) (loaded : List ℕ) (messages : List IndexedMessage) (c : RouteCursor)
        → c.live_records ≡ n
        → Live (pending_loop a chain_key present files limit start left wrapped loaded messages c))
      (wrapped : Bool) (loaded : List ℕ) (messages : List IndexedMessage) (c : RouteCursor) where
    examined-Live :
        (c' : RouteCursor) (wrapped' : Bool)
        → fill a present (keys files) start wrapped left c ≡ filled c' wrapped'
        → (x : Examined) → examine a chain_key files start wrapped' loaded c' c'.window ≡ x
        → Examines x
        → Live (
            pending_loop a chain_key present files limit start (suc left) wrapped loaded messages c)
    unfolding pending_loop
    examined-Live c' wrapped' e (returned c'') q k = rw (e, q, pending_loop) k
    examined-Live c' wrapped' e (failed c'') q k = rw (e, q, pending_loop) k
    examined-Live c' wrapped' e (passed c'') q k =
        rw (e, q, pending_loop) (rest wrapped' loaded messages c'' k)
    examined-Live c' wrapped' e (loads c'' m) q k =
        rw (e, q, pending_loop)
          (elim (Bool-cases (length (messages ++ m ∷ []) == limit)) [
            | inl full ↦ rw full k
            | inr room ↦ rw room (rest wrapped' (m.message_id ∷ loaded) (messages ++ m ∷ []) c'' k)
          ])

    round-Live :
        (x : Filled)
        → fill a present (keys files) start wrapped left c ≡ x
        → Fills x
        → Live (
            pending_loop a chain_key present files limit start (suc left) wrapped loaded messages c)
    unfolding pending_loop
    round-Live (ended c') e k = rw (e, pending_loop) k
    round-Live (broken c') e k = rw (e, pending_loop) k
    round-Live (filled c' wrapped') e k =
        examined-Live c' wrapped' e (examine a chain_key files start wrapped' loaded c' c'.window)
          refl (examine-Examines chain_key files start wrapped' loaded c' c'.window k)

  pending_loop-Live :
      (chain_key : ℕ) (present : Bool) (files : Map File) (limit : ℕ) (start : Option ℕ) (left : ℕ)
      (wrapped : Bool) (loaded : List ℕ) (messages : List IndexedMessage) (c : RouteCursor)
      → c.live_records ≡ n
      → Live (pending_loop a chain_key present files limit start left wrapped loaded messages c)
  unfolding pending_loop
  pending_loop-Live chain_key present files limit start zero wrapped loaded messages c h = h
  pending_loop-Live chain_key present files limit start (suc left) wrapped loaded messages c h =
      round-Live chain_key present files limit start left
        (λ w l m d k. pending_loop-Live chain_key present files limit start left w l m d k) wrapped
        loaded messages c (fill a present (keys files) start wrapped left c) refl
        (fill-Fills present (keys files) start wrapped left c h)

abbrev pub CountIs : ℕ → Option RouteCursor → Type 0
CountIs n none = Unit {0}
CountIs n (some c) = c.live_records ≡ n

-- Each id names one file, and a cursor has the count of the files.
pub record Counted (r : RouteWork) : Type 0 where
  pub distinct : Distinct (or_empty r.directory)
  pub counts : CountIs (length (or_empty r.directory)) r.cursor

CountIs-map :
    (n k : ℕ) (f : RouteCursor → RouteCursor) (c : Option RouteCursor)
    → ((d : RouteCursor) → d.live_records ≡ n → (f d).live_records ≡ k)
    → CountIs n c
    → CountIs k (map_opt f c)
CountIs-map n k f none h v = tt
CountIs-map n k f (some d) h v = h d v

insert-Counted :
    (m : IndexedMessage) (r : RouteWork)
    → Counted r
    → Counted (record {
      directory = some (insert m.message_id (stored m) (or_empty r.directory));
      cursor =
          if contains_key m.message_id (or_empty r.directory)
          then r.cursor
          else map_opt one_more r.cursor;
    })
insert-Counted m r v =
    let files = or_empty r.directory in
    let id = m.message_id in
    record {
      distinct = Distinct-insert id (stored m) files v.distinct;
      counts = elim (Option-cases (lookup id files)) [
        | inl n ↦ rw n (
            CountIs-map (length files) (length (insert id (stored m) files)) one_more r.cursor
              (λ d h. omega (arith, h, length-insert_new id (stored m) files n)) v.counts)
        | inr (old, q) ↦ rw q (
            subst (λ k. CountIs k r.cursor) (sym (length-insert_old id (stored m) files q))
              v.counts)
      ];
    }

record_message-Counted :
    (a : WriteAnswers) (m : IndexedMessage) (r : RouteWork)
    → Counted r
    → Counted (record_message a m r).0
unfolding record_message
record_message-Counted a m r v =
    if_both {A = RouteWork × Bool} (λ p. Counted p.0) (not a.created) _ _ v
      (if_both {A = RouteWork × Bool} (λ p. Counted p.0)
        (not (a.checked && a.serialized && a.written)) _ _
        (record { distinct = v.distinct; counts = v.counts }) (insert-Counted m r v))

complete-Counted :
    (a : RemoveAnswers) (id : ℕ) (r : RouteWork) → Counted r → Counted (complete a id r).0
unfolding complete
complete-Counted a id r v = elim (Bool-cases (not a.removed)) [
  | inl e ↦ rw e v
  | inr e ↦ rw e (elim (Bool-cases (contains_key id (or_empty r.directory))) [
    | inr none_there ↦ rw none_there v
    | inl there ↦ rw there (record {
      distinct = Distinct-remove id (or_empty r.directory) v.distinct;
      counts =
          CountIs-map (length (or_empty r.directory)) (length (remove id (or_empty r.directory)))
            one_less r.cursor
            (λ d h. omega (arith, h, length-remove_old id (or_empty r.directory) v.distinct there))
            v.counts;
    })
  ])
]

with_cursor-Counted :
    (a : ReadAnswers) (chain_key : ℕ) (loaded : List ℕ) (limit : ℕ) (r : RouteWork)
    (c : RouteCursor)
    → Counted r
    → c.live_records ≡ length (or_empty r.directory)
    → Counted (with_cursor a chain_key loaded limit r c).0
with_cursor-Counted a chain_key loaded limit r c v h = record {
  distinct = v.distinct;
  counts =
      pending_loop-Live a (length (or_empty r.directory)) chain_key (is_some r.directory)
        (or_empty r.directory) limit c.after max_examined_per_call false loaded [] c h;
}

abbrev OpenCount : ℕ → Option (Option RouteCursor) → Type 0
OpenCount n none = Unit {0}
OpenCount n (some o) = CountIs n o

opening-OpenCount :
    (opened : Bool) (files : Option (Map File))
    → OpenCount (length (or_empty files)) (opening opened files)
opening-OpenCount opened none = tt
opening-OpenCount true (some files) = length-keys files
opening-OpenCount false (some files) = tt

open_cursor-OpenCount :
    (opened : Bool) (files : Option (Map File)) (cursor : Option RouteCursor)
    → CountIs (length (or_empty files)) cursor
    → OpenCount
        (length (or_empty files))
        (open_cursor opened (record { directory = files; cursor = cursor }))
open_cursor-OpenCount opened files none v = opening-OpenCount opened files
open_cursor-OpenCount opened files (some c) v = v

with_opened-Counted :
    (a : ReadAnswers) (chain_key : ℕ) (loaded : List ℕ) (limit : ℕ) (r : RouteWork)
    (o : Option (Option RouteCursor))
    → Counted r
    → OpenCount (length (or_empty r.directory)) o
    → Counted (with_opened a chain_key loaded limit r o).0
with_opened-Counted a chain_key loaded limit r none v h = v
with_opened-Counted a chain_key loaded limit r (some none) v h = v
with_opened-Counted a chain_key loaded limit r (some (some c)) v h =
    with_cursor-Counted a chain_key loaded limit r c v h

pending-Counted :
    (a : ReadAnswers) (chain_key : ℕ) (loaded : List ℕ) (limit : ℕ) (r : RouteWork)
    → Counted r
    → Counted (pending a chain_key loaded limit r).0
unfolding pending
pending-Counted a chain_key loaded limit r v = elim (Bool-cases (limit == 0)) [
  | inl e ↦ rw e v
  | inr e ↦ rw e (
      with_opened-Counted a chain_key loaded limit r (open_cursor a.opened r) v
        (open_cursor-OpenCount a.opened r.directory r.cursor v.counts))
]

call-Counted : (chain_key : ℕ) (c : Call) (r : RouteWork) → Counted r → Counted (call chain_key c r)
call-Counted chain_key (records a m) r v = record_message-Counted a m r v
call-Counted chain_key (completes a id) r v = complete-Counted a id r v
call-Counted chain_key (reads_pending a loaded limit) r v =
    pending-Counted a chain_key loaded limit r v
call-Counted chain_key restarts r v = record { distinct = v.distinct; counts = tt }

-- On a route whose files have distinct ids and whose cursor, if there is one, counts them, any
-- calls of record, pending and complete and any restarts keep this true, whatever reads, writes
-- and removals fail.
pub run-Counted :
    (chain_key : ℕ) (calls : List Call) (r : RouteWork)
    → Counted r
    → Counted (run chain_key calls r)
unfolding run
run-Counted chain_key [] r v = v
run-Counted chain_key (c ∷ calls) r v =
    run-Counted chain_key calls (call chain_key c r) (call-Counted chain_key c r v)
