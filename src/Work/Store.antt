-- ===== src/Work/Store.antt =====
-- A route of the durable store: `record`, `pending` and `complete` of message-relayer/src/work.rs. The
-- route has a directory, once it is created, and a cursor, once it is read. What the filesystem
-- answers comes in as arguments.
pub mod Counted
pub mod Returned
use asc_message_relayer.Prelude.{
  ℕ, zero, suc, ◌-◌, ◌+◌, ◌≤◌, ◌≡◌, ◌∙◌, refl, Bool, true, false, not, ◌&&◌, ◌||◌, Option, none,
  some, List, [], ◌∷◌, ◌++◌, ltb, length, contains, ◌==◌, if◌then◌else◌, is_some, arith,
}
use asc_message_relayer.Prelude.Map.{Map, lookup, insert, remove, keys, contains_key, map_opt}
use asc_message_relayer.Types.{IndexedMessage}
use asc_message_relayer.Work.Cursor.{RouteCursor, new, refill, is_some_and}

abbrev pub max_examined_per_call : ℕ
max_examined_per_call = 4096

-- What a record file decodes to, if it does.
pub data File : Type 0 where
  stored : IndexedMessage → File
  undecodable : File

pub record RouteWork : Type 0 where
  pub directory : Option (Map File)
  pub cursor : Option RouteCursor

pub record WriteAnswers : Type 0 where
  pub created : Bool
  pub checked : Bool
  pub serialized : Bool
  pub written : Bool
  pub synced : Bool

abbrev pub or_empty : Option (Map File) → Map File
or_empty none = []
or_empty (some files) = files

abbrev pub one_more : RouteCursor → RouteCursor
one_more c = record c { live_records = c.live_records + 1 }

abbrev pub one_less : RouteCursor → RouteCursor
one_less c = record c { live_records = c.live_records - 1 }

-- `record`: whether it returns Ok.
unfoldable pub record_message : WriteAnswers → IndexedMessage → RouteWork → RouteWork × Bool
record_message a m r =
    let files = or_empty r.directory in
    let existed = contains_key m.message_id files in
    if not a.created
    then (r, false)
    else if not (a.checked && a.serialized && a.written)
    then (record r { directory = some files }, false)
    else (
      record {
        directory = some (insert m.message_id (stored m) files);
        cursor = if existed then r.cursor else map_opt one_more r.cursor;
      },
      a.synced,
    )

-- The removal fails with another error than a missing file, or the directory is not synced.
pub record RemoveAnswers : Type 0 where
  pub removed : Bool
  pub synced : Bool

unfoldable pub complete : RemoveAnswers → ℕ → RouteWork → RouteWork × Bool
complete a id r =
    let files = or_empty r.directory in
    if not a.removed then (r, false) else if not (contains_key id files) then (r, true) else (
      record { directory = some (remove id files); cursor = map_opt one_less r.cursor },
      a.synced,
    )

-- What `pending` reads: whether the directory is listed, by whether the call wrapped and how many
-- records it may still examine, and whether the file of an id is read.
pub record ReadAnswers : Type 0 where
  pub opened : Bool
  pub lists : Bool → ℕ → Bool
  pub reads : ℕ → Bool

-- How the part of a round ends that fills the window.
pub data Filled : Type 0 where
  filled : RouteCursor → Bool → Filled
  ended broken : RouteCursor → Filled

abbrev pub is_empty : List ℕ → Bool
is_empty [] = true
is_empty (id ∷ ids) = false

abbrev pub refilled : Bool → Bool → (RouteCursor → Filled) → List ℕ → RouteCursor → Filled
refilled listed wrapped otherwise ids c =
    let c' = refill ids c in
    if not listed
    then broken c
    else if is_empty c'.window
    then otherwise (record c' { after = none })
    else filled c' wrapped

-- Past the last record the next lap starts, once per call.
abbrev pub next_lap : Bool → Option ℕ → Bool → List ℕ → RouteCursor → Filled
next_lap listed start wrapped ids c =
    if wrapped || not (is_some start) then ended c else refilled listed true ended ids c

-- An empty window is filled.
unfoldable pub fill : ReadAnswers → Bool → List ℕ → Option ℕ → Bool → ℕ → RouteCursor → Filled
fill a present ids start wrapped left c =
    if not (is_empty c.window)
    then filled c wrapped
    else if c.live_records == 0
    then ended (record c { after = none })
    else refilled (present && a.lists wrapped left) wrapped
        (next_lap (present && a.lists true left) start wrapped ids) ids c

-- How the first id of the window is taken.
pub data Examined : Type 0 where
  returned failed passed : RouteCursor → Examined
  loads : RouteCursor → IndexedMessage → Examined

abbrev pub loaded_file : ℕ → ℕ → RouteCursor → Bool → Option File → Examined
loaded_file chain_key id c read none = passed c
loaded_file chain_key id c read (some undecodable) = failed c
loaded_file chain_key id c read (some (stored m)) =
    if read && (m.chain_key == chain_key && m.message_id == id) then loads c m else failed c

unfoldable pub examine :
    ReadAnswers → ℕ → Map File → Option ℕ → Bool → List ℕ → RouteCursor → List ℕ → Examined
examine a chain_key files start wrapped loaded c [] = returned c
examine a chain_key files start wrapped loaded c (id ∷ ids) =
    let c' = record c { window = ids; after = some id } in
    if wrapped && is_some_and (λ s. ltb s id) start
    then returned c
    else if contains loaded id
    then passed c'
    else loaded_file chain_key id c' (a.reads id) (lookup id files)

-- The loop of `pending`: `left` is how many records it may still examine.
module _ (a : ReadAnswers) (chain_key : ℕ) (present : Bool) (files : Map File) (limit : ℕ)
    (start : Option ℕ) where
  unfoldable pub pending_loop :
      ℕ
      → Bool
      → List ℕ
      → List IndexedMessage
      → RouteCursor
      → RouteCursor × Option (List IndexedMessage)
  pending_loop zero wrapped loaded messages c = (c, some messages)
  pending_loop (suc left) wrapped loaded messages c =
      elim (fill a present (keys files) start wrapped left c) [
        | ended c' ↦ (c', some messages)
        | broken c' ↦ (c', none)
        | filled c' wrapped' ↦ elim (examine a chain_key files start wrapped' loaded c' c'.window) [
          | returned c'' ↦ (c'', some messages)
          | failed c'' ↦ (c'', none)
          | passed c'' ↦ pending_loop left wrapped' loaded messages c''
          | loads c'' m ↦ elim (length (messages ++ m ∷ []) == limit) [
            | true ↦ (c'', some (messages ++ m ∷ []))
            | false ↦ pending_loop left wrapped' (m.message_id ∷ loaded) (messages ++ m ∷ []) c''
          ]
        ]
      ]

abbrev pub with_cursor :
    ReadAnswers
    → ℕ
    → List ℕ
    → ℕ
    → RouteWork
    → RouteCursor
    → RouteWork × Option (List IndexedMessage)
with_cursor a chain_key loaded limit r c =
    let files = or_empty r.directory in
    let (c', out) =
      pending_loop a chain_key (is_some r.directory) files limit c.after max_examined_per_call false
        loaded [] c in
    (record r { cursor = some c' }, out)

-- A cursor that is not there yet counts the records of the directory.
abbrev pub opening : Bool → Option (Map File) → Option (Option RouteCursor)
opening opened none = some none
opening opened (some files) = if opened then some (some (new (keys files))) else none

abbrev pub open_cursor : Bool → RouteWork → Option (Option RouteCursor)
open_cursor opened r = elim r.cursor [ none ↦ opening opened r.directory | some c ↦ some (some c) ]

abbrev pub with_opened :
    ReadAnswers
    → ℕ
    → List ℕ
    → ℕ
    → RouteWork
    → Option (Option RouteCursor)
    → RouteWork × Option (List IndexedMessage)
with_opened a chain_key loaded limit r none = (r, none)
with_opened a chain_key loaded limit r (some none) = (r, some [])
with_opened a chain_key loaded limit r (some (some c)) = with_cursor a chain_key loaded limit r c

unfoldable pub pending :
    ReadAnswers → ℕ → List ℕ → ℕ → RouteWork → RouteWork × Option (List IndexedMessage)
pending a chain_key loaded limit r =
    if limit == 0
    then (r, some [])
    else with_opened a chain_key loaded limit r (open_cursor a.opened r)

-- The calls on a route, in any order; the lock makes one wait for another.
pub data Call : Type 0 where
  records : WriteAnswers → IndexedMessage → Call
  completes : RemoveAnswers → ℕ → Call
  reads_pending : ReadAnswers → List ℕ → ℕ → Call
  restarts : Call

abbrev pub call : ℕ → Call → RouteWork → RouteWork
call chain_key (records a m) r = (record_message a m r).0
call chain_key (completes a id) r = (complete a id r).0
call chain_key (reads_pending a loaded limit) r = (pending a chain_key loaded limit r).0
call chain_key restarts r = record r { cursor = none }

unfoldable pub run : ℕ → List Call → RouteWork → RouteWork
run chain_key [] r = r
run chain_key (c ∷ calls) r = run chain_key calls (call chain_key c r)
