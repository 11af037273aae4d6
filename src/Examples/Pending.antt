-- ===== src/Examples/Pending.antt =====
-- The queue of transactions to settle at concrete entries.
use asc_message_relayer.Prelude.{ℕ, ◌≡◌, refl, List, [], ◌∷◌, map, arith}
use asc_message_relayer.Prelude.Map.{lookup}
use asc_message_relayer.Pending.{PendingTx, PendingTxs, insert_tx, ready}
use asc_message_relayer.Pending.Queue.{Bounded, Inserted, insert_tx-kept}
use asc_message_relayer.Pending.Delays.{Batch, ready-Batch}

abbrev entry : ℕ → ℕ → PendingTx ℕ
entry seen attempt = record {
  first_seen = seen;
  block = seen;
  next_attempt_at = attempt;
  transient_attempts = 0;
  meta = seen ∷ [];
}

abbrev queue : PendingTxs ℕ
queue = record { seen = (1, entry 50 90) ∷ (2, entry 30 40) ∷ (3, entry 40 40) ∷ []; cap = 3 }

queue-Bounded : Bounded queue
unfolding lookup
queue-Bounded = record { distinct = (refl, (refl, (refl, tt))); bounded = omega arith }

-- The queue is full, and gives up 2.
insert_tx-kept_example :
    Bounded (insert_tx 4 60 70 [] queue).0
    × Inserted 4 60 70 [] queue (insert_tx 4 60 70 [] queue).0 (insert_tx 4 60 70 [] queue).1
insert_tx-kept_example = insert_tx-kept 4 60 70 [] queue queue-Bounded

ready-Batch_example :
    (batch : List (ℕ × PendingTx ℕ)) × Batch 1 60 queue batch
    × (ready 1 60 queue ≡ map (λ x. (x.0, x.1.meta)) batch)
ready-Batch_example = ready-Batch 1 60 queue
