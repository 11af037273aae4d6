-- ===== src/Examples/Checkpoint.antt =====
-- The checkpoint file with a concrete text format: a brace, then seven numbers for each entry, of
-- which a pair stands for a field.
use asc_message_relayer.Prelude.{
  ℕ, ◌≡◌, refl, Bool, true, false, Option, none, some, List, [], ◌∷◌, ◌==◌, if◌then◌else◌,
}
use asc_message_relayer.Prelude.Map.{Map}
use asc_message_relayer.Checkpoint.{
  Scalar, Json, number, text, boolean, null, other, scalar, object, Entry, Format, CheckpointStore,
  serialize, serialized, text_field, flag_field, load,
}
use asc_message_relayer.Checkpoint.Reload.{
  Faithful, Call, sets, sets_with_outbox, sets_journaled, run, replay, cursors, Reloads, read_of,
  run_refines, run-Reloads,
}

abbrev code : Option Scalar → ℕ
code none = 0
code (some (number n)) = 1
code (some (text t)) = 2
code (some (boolean true)) = 3
code (some (boolean false)) = 4
code (some null) = 5
code (some other) = 6

abbrev payload : Option Scalar → ℕ
payload (some (number n)) = n
payload (some (text t)) = t
payload _ = 0

abbrev field : ℕ → ℕ → Option Scalar
field c n =
    if c == 1
    then some (number n)
    else if c == 2
    then some (text n)
    else if c == 3
    then some (boolean true)
    else if c == 4
    then some (boolean false)
    else if c == 5
    then some null
    else if c == 6
    then some other
    else none

abbrev line : ℕ → Option Scalar → Option Scalar → Option Scalar → List ℕ → List ℕ
line k a b c rest = k ∷ code a ∷ payload a ∷ code b ∷ payload b ∷ code c ∷ payload c ∷ rest

abbrev lines : Map Json → List ℕ
lines [] = []
lines ((k, scalar s) ∷ m) = line k (some s) none none (lines m)
lines ((k, object a b c) ∷ m) = line k a b c (lines m)

abbrev entries : List ℕ → Map Json
entries (k ∷ a ∷ x ∷ b ∷ y ∷ c ∷ z ∷ rest) =
    (k, object (field a x) (field b y) (field c z)) ∷ entries rest
entries _ = []

abbrev parsed : List ℕ → Option (Map Json)
parsed [] = none
parsed (brace ∷ cs) = some (entries cs)

abbrev format : Format
format = record { print = λ m. some (123 ∷ lines m); parse = parsed; is_white_space = λ c. c == 32 }

text-field : (o : Option ℕ) → field (code (text_field o)) (payload (text_field o)) ≡ text_field o
text-field none = refl
text-field (some t) = refl

flag-field : (b : Bool) → field (code (flag_field b)) (payload (flag_field b)) ≡ flag_field b
flag-field true = refl
flag-field false = refl

entries-lines : (m : Map Entry) → entries (lines (serialized m)) ≡ serialized m
unfolding serialize
entries-lines [] = refl
entries-lines ((k, e) ∷ m) =
    rw (text-field e.outbox, flag-field e.durable_work, entries-lines m) refl

faithful : (m : Map Entry) → Faithful format (serialized m)
faithful m = record {
  printed = 123 ∷ lines (serialized m);
  prints = refl;
  parses = rw (entries-lines m) refl;
  not_blank = refl;
}

-- The second write fails.
abbrev calls : List (Call × Bool)
calls =
    (sets_journaled 1 100 (some 7), true)
    ∷ (sets 1 200, false)
    ∷ (sets_with_outbox 2 50 8, true)
    ∷ (sets 1 300, true)
    ∷ []

abbrev fresh : CheckpointStore
fresh = record { inner = []; file = none }

run_refines_example : cursors (run format calls fresh) ≡ replay calls (cursors fresh)
run_refines_example = run_refines format faithful calls fresh

nothing_there : load format (read_of none) ≡ some []
unfolding load
nothing_there = refl

run-Reloads_example : Reloads format (run format calls (record { inner = []; file = none }))
run-Reloads_example = run-Reloads format faithful calls [] none nothing_there
