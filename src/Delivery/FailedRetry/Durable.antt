-- ===== src/Delivery/FailedRetry/Durable.antt =====
-- While writes take effect, the disk of message-relayer/src/delivery/failed_retry.rs is not behind
-- memory.
use asc_message_relayer.Prelude.{
  ℕ, ◌≤◌, ◌≡◌, ◌∙◌, Bool, true, false, ◌&&◌, ◌==◌, arith, Bool-cases, inl, inr, is_some, ==_iff,
}
use asc_message_relayer.Delivery.FailedRetry.{
  FailedRetryState, FailedRetryPolicy, FailedRetries, Event, observed, retried, restarted, get, put,
  on_event,
}
use asc_message_relayer.Delivery.FailedRetry.View.{
  held, kept, SameView, failed, found, get-Got, get-SameView, put-SameView, held-put, put-stored,
}
use asc_message_relayer.Delivery.FailedRetry.Budget.{attempts_of, attempts-merged}
use asc_message_relayer.Delivery.FailedRetry.Keeps.{observe-keeps, retry_failed-keeps}

abbrev pub is_restart : Event → Bool
is_restart (observed j io) = false
is_restart (retried j io broadcast failed_again) = false
is_restart restarted = true

-- What is on disk is not behind memory, so that a restart forgets nothing.
pub record Durable (id : ℕ) (r : FailedRetries) : Type 0 where
  pub flushed : attempts_of (held id r) ≤ attempts_of (kept id r)
  pub opened : is_some r.disk ≡ true

Durable-SameView :
    (id : ℕ) (r r' : FailedRetries)
    → SameView id r r'
    → is_some r'.disk ≡ is_some r.disk
    → Durable id r
    → Durable id r'
Durable-SameView id r r' s d v = record {
  flushed = rw (s.held_same, s.kept_same) v.flushed;
  opened = d ∙ v.opened;
}

get-disk : (readable : Bool) (id : ℕ) (r : FailedRetries) → (get readable id r).0.disk ≡ r.disk
get-disk readable id r = elim (get-Got readable id r) [ failed e f ↦ rw e | found e d f ↦ d ]

get-Durable :
    (id j : ℕ) (readable : Bool) (r : FailedRetries)
    → Durable id r
    → Durable id (get readable j r).0
get-Durable id j readable r v = elim (Bool-cases (j == id)) [
  | inr e ↦ Durable-SameView id r _ (get-SameView readable j id r e) (rw (get-disk readable j r)) v
  | inl e ↦ rw ((==_iff j id).0 e) (elim (get-Got readable id r) [
    | failed q f ↦ rw q v
    | found q d f ↦ record {
      flushed = rw (q, d) (omega (arith, attempts-merged (held id r) (kept id r), v.flushed));
      opened = rw d v.opened;
    }
  ])
]

put-Durable :
    (id j : ℕ) (stored : Bool) (s : FailedRetryState) (r : FailedRetries)
    → stored ≡ true
    → Durable id r
    → Durable id (put stored j s r)
put-Durable id j stored s r all v =
    let (disk_there, written) = put-stored j s r v.opened in
    rw all (elim (Bool-cases (j == id)) [
      | inr e ↦ Durable-SameView id r _ (put-SameView true j id s r e) (rw (disk_there, v.opened)) v
      | inl e ↦
          let eq = (==_iff j id).0 e in
          record {
            flushed = rw (← eq) (rw (held-put true j s r, written) (omega arith));
            opened = disk_there;
          }
    ])

-- Every write of the event takes effect.
abbrev pub stores : Event → Bool
stores (observed j io) = io.stored && io.stored_end
stores (retried j io broadcast failed_again) = io.stored && io.stored_end
stores restarted = true

module _ (policy : FailedRetryPolicy) (id : ℕ) where
  pub event-Durable :
      (e : Event) (r : FailedRetries)
      → stores e ≡ true
      → is_restart e ≡ false
      → Durable id r
      → Durable id (on_event policy e r).0
  unfolding on_event
  event-Durable (observed j io) r all n v =
      observe-keeps (Durable id) j policy io (get-Durable id j)
        (λ s r'. put-Durable id j io.stored s r' (ground (arith, all)))
        (λ s r'. put-Durable id j io.stored_end s r' (ground (arith, all))) r v
  event-Durable (retried j io broadcast failed_again) r all n v =
      retry_failed-keeps (Durable id) j policy io (get-Durable id j)
        (λ s r'. put-Durable id j io.stored s r' (ground (arith, all)))
        (λ s r'. put-Durable id j io.stored_end s r' (ground (arith, all))) broadcast failed_again r
        v
  event-Durable restarted r all n v = absurd (cc)
