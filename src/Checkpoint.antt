-- ===== src/Checkpoint.antt =====
-- The file of scan cursors: message-relayer/src/checkpoint.rs. Keys, addresses and texts are numbers.
use asc_message_relayer.Prelude.{
  ℕ, Bool, true, false, Option, none, some, List, [], ◌∷◌, if◌then◌else◌,
}
use asc_message_relayer.Prelude.Map.{Map, lookup, insert, remove}
pub mod Reload

pub record Entry : Type 0 where
  pub block : ℕ
  pub outbox : Option ℕ
  pub durable_work : Bool

abbrev pub default_entry : Entry
default_entry = record { block = 0; outbox = none; durable_work = false }

-- A value inside an entry of the file. `other` is any that no field takes: a negative number, a
-- fraction, one of more than 64 bits, an array, an object.
pub data Scalar : Type 0 where
  number : ℕ → Scalar
  text : ℕ → Scalar
  boolean : Bool → Scalar
  null other : Scalar

-- A value of the file's object: a scalar, or an object, by what it has under the three names.
pub data Json : Type 0 where
  scalar : Scalar → Json
  object : Option Scalar → Option Scalar → Option Scalar → Json

pub data RawEntry : Type 0 where
  legacy : ℕ → RawEntry
  full : ℕ → Option ℕ → Bool → RawEntry

abbrev pub block_field : Option Scalar → Option ℕ
block_field (some (number n)) = some n
block_field _ = none

-- `#[serde(default)]` of an optional text.
abbrev pub outbox_field : Option Scalar → Option (Option ℕ)
outbox_field none = some none
outbox_field (some (text t)) = some (some t)
outbox_field (some null) = some none
outbox_field (some (number n)) = none
outbox_field (some (boolean b)) = none
outbox_field (some other) = none

abbrev pub durable_field : Option Scalar → Option Bool
durable_field none = some false
durable_field (some (boolean b)) = some b
durable_field (some (number n)) = none
durable_field (some (text t)) = none
durable_field (some null) = none
durable_field (some other) = none

abbrev pub full_of : Option ℕ → Option (Option ℕ) → Option Bool → Option RawEntry
full_of none outbox durable = none
full_of (some block) none durable = none
full_of (some block) (some outbox) none = none
full_of (some block) (some outbox) (some durable) = some (full block outbox durable)

-- The untagged choice: a bare number, or an object.
unfoldable pub deserialize : Json → Option RawEntry
deserialize (scalar (number n)) = some (legacy n)
deserialize (scalar (text t)) = none
deserialize (scalar (boolean b)) = none
deserialize (scalar null) = none
deserialize (scalar other) = none
deserialize (object block outbox durable) =
    full_of (block_field block) (outbox_field outbox) (durable_field durable)

unfoldable pub from : RawEntry → Entry
from (legacy block) = record default_entry { block = block }
from (full block outbox durable_work) = record {
  block = block;
  outbox = outbox;
  durable_work = durable_work;
}

abbrev pub text_field : Option ℕ → Option Scalar
text_field none = none
text_field (some t) = some (text t)

abbrev pub flag_field : Bool → Option Scalar
flag_field true = some (boolean true)
flag_field false = none

-- `Serialize`, which skips what is absent or false.
unfoldable pub serialize : Entry → Json
serialize e = object (some (number e.block)) (text_field e.outbox) (flag_field e.durable_work)

abbrev pub serialized : Map Entry → Map Json
serialized [] = []
serialized ((k, e) ∷ m) = (k, serialize e) ∷ serialized m

abbrev pub and_entry : ℕ → Option RawEntry → Option (Map Entry) → Option (Map Entry)
and_entry k none rest = none
and_entry k (some raw) none = none
and_entry k (some raw) (some rest) = some ((k, from raw) ∷ rest)

unfoldable pub decode_entries : Map Json → Option (Map Entry)
decode_entries [] = some []
decode_entries ((k, j) ∷ m) = and_entry k (deserialize j) (decode_entries m)

-- The JSON library on texts (lists of characters), and what counts as white space.
pub record Format : Type 0 where
  pub print : Map Json → Option (List ℕ)
  pub parse : List ℕ → Option (Map Json)
  pub is_white_space : ℕ → Bool

-- What a read of the file gives.
pub data ReadResult : Type 0 where
  contents : List ℕ → ReadResult
  not_found unreadable : ReadResult

abbrev pub is_blank : Format → List ℕ → Bool
is_blank f [] = true
is_blank f (c ∷ cs) = let rest = is_blank f cs in if f.is_white_space c then rest else false

abbrev pub decode_file : Option (Map Json) → Option (Map Entry)
decode_file none = none
decode_file (some m) = decode_entries m

unfoldable pub load : Format → ReadResult → Option (Map Entry)
load f (contents cs) = if is_blank f cs then none else decode_file (f.parse cs)
load f not_found = some []
load f unreadable = none

-- The map in memory, and the file, `none` while it is missing.
pub record CheckpointStore : Type 0 where
  pub inner : Map Entry
  pub file : Option (List ℕ)

unfoldable pub get : ℕ → CheckpointStore → Option ℕ
get key s = elim (lookup key s.inner) [ none ↦ none | some e ↦ some e.block ]

unfoldable pub get_outbox : ℕ → CheckpointStore → Option ℕ
get_outbox key s = elim (lookup key s.inner) [ none ↦ none | some e ↦ e.outbox ]

unfoldable pub has_durable_work : ℕ → CheckpointStore → Bool
has_durable_work key s = elim (lookup key s.inner) [ none ↦ false | some e ↦ e.durable_work ]

-- `write_atomic`: the file is replaced, or the old one stays.
abbrev pub write : Bool → Option (List ℕ) → Option (List ℕ) → Option (List ℕ) × Bool
write ok old none = (old, false)
write true old (some cs) = (some cs, true)
write false old (some cs) = (old, false)

unfoldable pub persist : Format → Bool → Map Entry → Option (List ℕ) → Option (List ℕ) × Bool
persist f ok entries old = write ok old (f.print (serialized entries))

abbrev pub undo : ℕ → Option Entry → Map Entry → Map Entry
undo key none entries = remove key entries
undo key (some previous) entries = insert key previous entries

-- The new state, and whether it succeeded. `ok` is whether the writes to the disk do.
unfoldable pub persist_entry : Format → Bool → ℕ → Entry → CheckpointStore → CheckpointStore × Bool
persist_entry f ok key entry s =
    let entries = insert key entry s.inner in
    let (file, done) = persist f ok entries s.file in
    if done
    then (record { inner = entries; file = file }, true)
    else (record { inner = undo key (lookup key s.inner) entries; file = file }, false)

abbrev pub or_default : Option Entry → Entry
or_default none = default_entry
or_default (some e) = e

unfoldable pub set : Format → Bool → ℕ → ℕ → CheckpointStore → CheckpointStore × Bool
set f ok key block s =
    persist_entry f ok key (record (or_default (lookup key s.inner)) { block = block }) s

unfoldable pub set_with_outbox :
    Format → Bool → ℕ → ℕ → ℕ → CheckpointStore → CheckpointStore × Bool
set_with_outbox f ok key block outbox s =
    persist_entry f ok key (record { block = block; outbox = some outbox; durable_work = false }) s

unfoldable pub set_journaled :
    Format → Bool → ℕ → ℕ → Option ℕ → CheckpointStore → CheckpointStore × Bool
set_journaled f ok key block outbox s =
    persist_entry f ok key (record { block = block; outbox = outbox; durable_work = true }) s

unfoldable pub set_with_work : Format → Bool → ℕ → ℕ → ℕ → CheckpointStore → CheckpointStore × Bool
set_with_work f ok key block outbox s = set_journaled f ok key block (some outbox) s
