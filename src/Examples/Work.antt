-- ===== src/Examples/Work.antt =====
-- The durable store of a route at concrete directories: its walk, and a few calls.
use asc_message_relayer.Prelude.Map.{lookup, insert, remove, keys}
use asc_message_relayer.Prelude.{ℕ, refl, none, true, false, some, List, [], ◌∷◌}
use asc_message_relayer.Prelude.{◌≡◌}
use asc_message_relayer.Work.Cursor.{
  smallest, largest, insert_ascending, RouteCursor, refill, Offers, window_size, refill-Offers,
}
use asc_message_relayer.Work.Store.{
  WriteAnswers, ReadAnswers, Call, records, completes, reads_pending, RouteWork, run, or_empty,
  pending, record_message, complete, pending_loop, fill, examine,
}
use asc_message_relayer.Work.Store.Counted.{Counted, run-Counted}
use asc_message_relayer.Work.Store.Returned.{Returns, pending-Returns}
use asc_message_relayer.Examples.Data.{message}

abbrev ids : List ℕ
ids = 30 ∷ 10 ∷ 50 ∷ 20 ∷ []

-- In the middle of a lap that ends at 40.
abbrev cursor : RouteCursor
cursor = record { live_records = 4; after = some 10; window = []; lap_end = some 40 }

refill-Offers_example : Offers window_size 20 (refill ids cursor).window
refill-Offers_example = refill-Offers ids cursor 20 refl refl

-- Two records are written, one is completed, and the backlog is read.
abbrev wrote : WriteAnswers
wrote = record { created = true; checked = true; serialized = true; written = true; synced = true }

abbrev read_all : ReadAnswers
read_all = record { opened = true; lists = λ wrapped left. true; reads = λ id. true }

abbrev calls : List Call
calls =
    records wrote (message 5)
    ∷ reads_pending read_all [] 10
    ∷ records wrote (message 6)
    ∷ completes (record { removed = true; synced = false }) 5
    ∷ []

abbrev untouched : RouteWork
untouched = record { directory = none; cursor = none }

run-Counted_example : Counted (run 7 calls untouched)
run-Counted_example = run-Counted 7 calls untouched (record { distinct = tt; counts = tt })

pending-Returns_example :
    Returns 7
      (or_empty (run 7 calls untouched).directory)
      []
      10
      (pending read_all 7 [] 10 (run 7 calls untouched)).1
pending-Returns_example = pending-Returns read_all 7 [] 10 (run 7 calls untouched)

returns_six : (pending read_all 7 [] 10 (run 7 calls untouched)).1 ≡ some (message 6 ∷ [])
unfolding pending run record_message complete pending_loop fill examine refill smallest largest
    insert_ascending lookup insert remove keys
returns_six = refl
