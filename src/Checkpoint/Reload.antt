-- ===== src/Checkpoint/Reload.antt =====
-- What the file of message-relayer/src/checkpoint.rs promises: a map that takes the writes that
-- succeed, and gives the same after a restart.
use mathlib.Core.Path.{fun_ext}
use asc_message_relayer.Prelude.{
  ℕ, ◌≡◌, ◌∙◌, sym, ap, refl, Bool, true, false, Option, none, some, List, [], ◌∷◌, ◌==◌, ==_iff,
  if◌then◌else◌, Bool-cases, Option-cases, inl, inr,
}
use asc_message_relayer.Prelude.Map.{Map, lookup, insert, lookup-insert, lookup-remove}
use asc_message_relayer.Checkpoint.{
  Entry, Json, Format, ReadResult, contents, not_found, CheckpointStore, or_default, serialize,
  serialized, deserialize, from, full, text_field, flag_field, outbox_field, durable_field,
  decode_entries, is_blank, load, persist, undo, persist_entry, set, set_with_outbox, set_journaled,
}

-- What the JSON library is relied on for: it prints each map, not blank, and parses it back.
pub record Faithful (f : Format) (m : Map Json) : Type 0 where
  pub printed : List ℕ
  pub prints : f.print m ≡ some printed
  pub parses : f.parse printed ≡ some m
  pub not_blank : is_blank f printed ≡ false

-- Each entry reads back as it was.
outbox-text : (o : Option ℕ) → outbox_field (text_field o) ≡ some o
outbox-text none = refl
outbox-text (some t) = refl

durable-flag : (b : Bool) → durable_field (flag_field b) ≡ some b
durable-flag true = refl
durable-flag false = refl

deserialize-serialize :
    (e : Entry) → deserialize (serialize e) ≡ some (full e.block e.outbox e.durable_work)
unfolding deserialize serialize
deserialize-serialize e = rw (outbox-text e.outbox, durable-flag e.durable_work) refl

decode-serialized : (m : Map Entry) → decode_entries (serialized m) ≡ some m
unfolding decode_entries from
decode-serialized [] = refl
decode-serialized ((k, e) ∷ m) = rw (deserialize-serialize e, decode-serialized m) refl

-- The calls, each with whether its writes to the disk succeed.
pub data Call : Type 0 where
  sets : ℕ → ℕ → Call
  sets_with_outbox : ℕ → ℕ → ℕ → Call
  sets_journaled : ℕ → ℕ → Option ℕ → Call

module _ (f : Format) where
  abbrev pub call : Bool → Call → CheckpointStore → CheckpointStore
  call ok (sets key block) s = (set f ok key block s).0
  call ok (sets_with_outbox key block outbox) s = (set_with_outbox f ok key block outbox s).0
  call ok (sets_journaled key block outbox) s = (set_journaled f ok key block outbox s).0

  unfoldable pub run : List (Call × Bool) → CheckpointStore → CheckpointStore
  run [] s = s
  run ((c, ok) ∷ calls) s = run calls (call ok c s)

-- The specification: cursors by key.
abbrev pub Cursors : Type 0
Cursors = ℕ → Option Entry

abbrev pub updated : ℕ → Entry → Cursors → Cursors
updated key e c k = if key == k then some e else c k

-- A plain progress update keeps what else the entry says.
abbrev pub promised : Call → Cursors → Cursors
promised (sets key block) c = updated key (record (or_default (c key)) { block = block }) c
promised (sets_with_outbox key block outbox) c =
    updated key (record { block = block; outbox = some outbox; durable_work = false }) c
promised (sets_journaled key block outbox) c =
    updated key (record { block = block; outbox = outbox; durable_work = true }) c

-- The calls that fail do nothing.
unfoldable pub replay : List (Call × Bool) → Cursors → Cursors
replay [] c = c
replay ((x, ok) ∷ calls) c = replay calls (if ok then promised x c else c)

abbrev pub cursors : CheckpointStore → Cursors
cursors s k = lookup k s.inner

-- The file as it is read, and what a restart finds in it: the map in memory.
abbrev pub read_of : Option (List ℕ) → ReadResult
read_of none = not_found
read_of (some cs) = contents cs

abbrev pub Reloads : Format → CheckpointStore → Type 0
Reloads f s =
    (m : Map Entry) × (load f (read_of s.file) ≡ some m) × ((k : ℕ) → lookup k m ≡ lookup k s.inner)

abbrev undone : ℕ → Entry → Map Entry → Map Entry
undone key e m = undo key (lookup key m) (insert key e m)

lookup-undone : (key k : ℕ) (e : Entry) (m : Map Entry) → lookup k (undone key e m) ≡ lookup k m
lookup-undone key k e m = elim (Option-cases (lookup key m)) [
  | inl n ↦ rw n (lookup-remove key k (insert key e m) ∙ restored none n)
  | inr (p, n) ↦ rw n (lookup-insert key k p (insert key e m) ∙ restored (some p) n)
]
  where
    restored :
        (o : Option Entry)
        → lookup key m ≡ o
        → (if key == k then o else lookup k (insert key e m)) ≡ lookup k m
    restored o n = elim (Bool-cases (key == k)) [
      | inl q ↦ rw q (sym n ∙ ap (λ j. lookup j m) ((==_iff key k).0 q))
      | inr q ↦ rw q (lookup-insert key k e m ∙ rw q refl)
    ]

module _ (f : Format) (serves : (m : Map Entry) → Faithful f (serialized m)) where
  abbrev written : Map Entry → List ℕ
  written m = (serves m).printed

  persist-ok :
      (m : Map Entry) (old : Option (List ℕ)) → persist f true m old ≡ (some (written m), true)
  unfolding persist
  persist-ok m old = rw (serves m).prints refl

  persist-failed : (m : Map Entry) (old : Option (List ℕ)) → persist f false m old ≡ (old, false)
  unfolding persist
  persist-failed m old = rw (serves m).prints refl

  load-written : (m : Map Entry) → load f (contents (written m)) ≡ some m
  unfolding load
  load-written m = rw ((serves m).not_blank, (serves m).parses) (decode-serialized m)

  persist_entry-cursors :
      (ok : Bool) (key : ℕ) (e : Entry) (s : CheckpointStore) (k : ℕ)
      → cursors (persist_entry f ok key e s).0 k
        ≡ (if ok then updated key e (cursors s) else cursors s) k
  unfolding persist_entry
  persist_entry-cursors true key e s k =
      rw (persist-ok (insert key e s.inner) s.file) (lookup-insert key k e s.inner)
  persist_entry-cursors false key e s k =
      rw (persist-failed (insert key e s.inner) s.file) (lookup-undone key k e s.inner)

  persist_entry-Reloads :
      (ok : Bool) (key : ℕ) (e : Entry) (s : CheckpointStore)
      → Reloads f s
      → Reloads f (persist_entry f ok key e s).0
  unfolding persist_entry
  persist_entry-Reloads true key e s r =
      rw (persist-ok (insert key e s.inner) s.file)
        (insert key e s.inner, load-written (insert key e s.inner), λ k. refl)
  persist_entry-Reloads false key e s (m, l, h) =
      rw (persist-failed (insert key e s.inner) s.file)
        (m, l, λ k. h k ∙ sym (lookup-undone key k e s.inner))

  call-cursors :
      (ok : Bool) (c : Call) (s : CheckpointStore)
      → cursors (call f ok c s) ≡ (if ok then promised c (cursors s) else cursors s)
  unfolding set set_with_outbox set_journaled
  call-cursors ok (sets key block) s = fun_ext (λ k.
      persist_entry-cursors ok key (record (or_default (lookup key s.inner)) { block = block }) s k)
  call-cursors ok (sets_with_outbox key block outbox) s = fun_ext (λ k.
      persist_entry-cursors ok key
        (record { block = block; outbox = some outbox; durable_work = false }) s k)
  call-cursors ok (sets_journaled key block outbox) s = fun_ext (λ k.
      persist_entry-cursors ok key (record { block = block; outbox = outbox; durable_work = true })
        s k)

  call-Reloads :
      (ok : Bool) (c : Call) (s : CheckpointStore) → Reloads f s → Reloads f (call f ok c s)
  unfolding set set_with_outbox set_journaled
  call-Reloads ok (sets key block) s r =
      persist_entry-Reloads ok key (record (or_default (lookup key s.inner)) { block = block }) s r
  call-Reloads ok (sets_with_outbox key block outbox) s r =
      persist_entry-Reloads ok key
        (record { block = block; outbox = some outbox; durable_work = false }) s r
  call-Reloads ok (sets_journaled key block outbox) s r =
      persist_entry-Reloads ok key (record { block = block; outbox = outbox; durable_work = true })
        s r

  -- If the JSON library prints each map and parses it back, then whatever writes fail, the cursors
  -- in memory are those of a map to which just the calls that succeed are applied.
  pub run_refines :
      (calls : List (Call × Bool)) (s : CheckpointStore)
      → cursors (run f calls s) ≡ replay calls (cursors s)
  unfolding run replay
  run_refines [] s = refl
  run_refines ((c, ok) ∷ calls) s =
      run_refines calls (call f ok c s) ∙ ap (replay calls) (call-cursors ok c s)

  run-keeps_Reloads :
      (calls : List (Call × Bool)) (s : CheckpointStore) → Reloads f s → Reloads f (run f calls s)
  unfolding run
  run-keeps_Reloads [] s r = r
  run-keeps_Reloads ((c, ok) ∷ calls) s r =
      run-keeps_Reloads calls (call f ok c s) (call-Reloads ok c s r)

  -- If the JSON library prints each map and parses it back, then after any calls on a store whose
  -- entries were loaded from its file, whatever writes fail, loading the file again succeeds and
  -- gives the entries in memory.
  pub run-Reloads :
      (calls : List (Call × Bool)) (inner : Map Entry) (file : Option (List ℕ))
      → load f (read_of file) ≡ some inner
      → Reloads f (run f calls (record { inner = inner; file = file }))
  run-Reloads calls inner file h =
      run-keeps_Reloads calls (record { inner = inner; file = file }) (inner, h, λ k. refl)
