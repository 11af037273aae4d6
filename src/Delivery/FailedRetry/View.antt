-- ===== src/Delivery/FailedRetry/View.antt =====
-- What the ledger of message-relayer/src/delivery/failed_retry.rs holds for one message, in memory
-- and on disk, and how each operation changes it.
use asc_message_relayer.Prelude.{
  ℕ, ◌≡◌, refl, ◌∙◌, Bool, true, false, Option, none, some, ◌==◌, ◌⊎◌, Option-cases, inl, inr,
  is_some, ==_refl,
}
use asc_message_relayer.Prelude.Map.{Map, lookup, lookup-insert}
use asc_message_relayer.Delivery.FailedRetry.{
  FailedRetryState, FailedRetries, read_disk, merged, fallback, cached, get, put, write_disk,
}

abbrev pub held : ℕ → FailedRetries → Option FailedRetryState
held id r = lookup id r.memory

abbrev pub disk_entry : ℕ → Option (Map FailedRetryState) → Option FailedRetryState
disk_entry id none = none
disk_entry id (some entries) = lookup id entries

abbrev pub kept : ℕ → FailedRetries → Option FailedRetryState
kept id r = disk_entry id r.disk

pub record SameView (id : ℕ) (r r' : FailedRetries) : Type 0 where
  pub held_same : held id r' ≡ held id r
  pub kept_same : kept id r' ≡ kept id r

pub SameView-trans :
    (id : ℕ) (r r' r'' : FailedRetries) → SameView id r r' → SameView id r' r'' → SameView id r r''
SameView-trans id r r' r'' a b = record {
  held_same = b.held_same ∙ a.held_same;
  kept_same = b.kept_same ∙ a.kept_same;
}

-- How a read ends.
pub data Got (id : ℕ) (r r' : FailedRetries) (answer : Option (Option FailedRetryState))
    : Type 0 where
  failed : r' ≡ r → answer ≡ fallback (held id r) → Got id r r' answer
  found :
      held id r' ≡ merged (held id r) (kept id r)
      → r'.disk ≡ r.disk
      → answer ≡ some (merged (held id r) (kept id r))
      → Got id r r' answer

read_disk-cases :
    (readable : Bool) (id : ℕ) (disk : Option (Map FailedRetryState))
    → (read_disk readable id disk ≡ none) ⊎ (read_disk readable id disk ≡ some (disk_entry id disk))
read_disk-cases readable id none = inr refl
read_disk-cases true id (some entries) = inr refl
read_disk-cases false id (some entries) = inl refl

held-cached :
    (id : ℕ) (o : Option FailedRetryState) (r : FailedRetries)
    → held id (cached id (merged (held id r) o) r) ≡ merged (held id r) o
held-cached id o r = elim (Option-cases (merged (held id r) o)) [
  | inl n ↦ rw n (merged-none (held id r) o n)
  | inr (s, p) ↦ rw p (rw lookup-insert (rw (==_refl id)))
]
  where
    merged-none : (a b : Option FailedRetryState) → merged a b ≡ none → a ≡ none
    merged-none none b e = refl
    merged-none (some s) none e = absurd (cc)
    merged-none (some s) (some t) e = absurd (cc)

cached-disk :
    (id : ℕ) (o : Option FailedRetryState) (r : FailedRetries) → (cached id o r).disk ≡ r.disk
cached-disk id none r = refl
cached-disk id (some s) r = refl

pub get-Got :
    (readable : Bool) (id : ℕ) (r : FailedRetries)
    → Got id r (get readable id r).0 (get readable id r).1
unfolding get
get-Got readable id r = elim (read_disk-cases readable id r.disk) [
  | inl e ↦ rw (e, get) (failed refl refl)
  | inr e ↦
      rw (e, get)
        (found (held-cached id (kept id r) r) (cached-disk id (merged (held id r) (kept id r)) r)
          refl)
]

-- Another message is left alone.
cached-SameView :
    (id j : ℕ) (o : Option FailedRetryState) (r : FailedRetries)
    → (id == j) ≡ false
    → SameView j r (cached id o r)
cached-SameView id j none r ne = record { held_same = refl; kept_same = refl }
cached-SameView id j (some s) r ne = record {
  held_same = lookup-insert id j s r.memory ∙ rw ne;
  kept_same = refl;
}

pub get-SameView :
    (readable : Bool) (id j : ℕ) (r : FailedRetries)
    → (id == j) ≡ false
    → SameView j r (get readable id r).0
unfolding get
get-SameView readable id j r ne = elim (read_disk-cases readable id r.disk) [
  | inl e ↦ rw (e, get) (record { held_same = refl; kept_same = refl })
  | inr e ↦ rw (e, get) (cached-SameView id j (merged (held id r) (kept id r)) r ne)
]

entry-write_disk :
    (stored : Bool) (id j : ℕ) (s : FailedRetryState) (disk : Option (Map FailedRetryState))
    → (id == j) ≡ false
    → disk_entry j (write_disk stored id s disk) ≡ disk_entry j disk
entry-write_disk stored id j s none ne = refl
entry-write_disk true id j s (some entries) ne = lookup-insert id j s entries ∙ rw ne
entry-write_disk false id j s (some entries) ne = refl

pub put-SameView :
    (stored : Bool) (id j : ℕ) (s : FailedRetryState) (r : FailedRetries)
    → (id == j) ≡ false
    → SameView j r (put stored id s r)
unfolding put
put-SameView stored id j s r ne = record {
  held_same = lookup-insert id j s r.memory ∙ rw ne;
  kept_same = entry-write_disk stored id j s r.disk ne;
}

-- A write is seen in memory at once, and on disk if it takes effect.
pub held-put :
    (stored : Bool) (id : ℕ) (s : FailedRetryState) (r : FailedRetries)
    → held id (put stored id s r) ≡ some s
unfolding put
held-put stored id s r = lookup-insert id id s r.memory ∙ rw (==_refl id)

entry-written :
    (stored : Bool) (id : ℕ) (s : FailedRetryState) (disk : Option (Map FailedRetryState))
    → (disk_entry id (write_disk stored id s disk) ≡ some s)
      ⊎ (disk_entry id (write_disk stored id s disk) ≡ disk_entry id disk)
entry-written stored id s none = inr refl
entry-written true id s (some entries) = inl (lookup-insert id id s entries ∙ rw (==_refl id))
entry-written false id s (some entries) = inr refl

pub kept-put :
    (stored : Bool) (id : ℕ) (s : FailedRetryState) (r : FailedRetries)
    → (kept id (put stored id s r) ≡ some s) ⊎ (kept id (put stored id s r) ≡ kept id r)
unfolding put
kept-put stored id s r = entry-written stored id s r.disk

pub put-stored :
    (id : ℕ) (s : FailedRetryState) (r : FailedRetries)
    → is_some r.disk ≡ true
    → (is_some (put true id s r).disk ≡ true) × (kept id (put true id s r) ≡ some s)
unfolding put
put-stored id s r d = stored_entry r.disk d
  where
    stored_entry :
        (disk : Option (Map FailedRetryState))
        → is_some disk ≡ true
        → (is_some (write_disk true id s disk) ≡ true)
          × (disk_entry id (write_disk true id s disk) ≡ some s)
    stored_entry none e = absurd (cc)
    stored_entry (some entries) e = (refl, lookup-insert id id s entries ∙ rw (==_refl id))
