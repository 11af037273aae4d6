-- ===== src/Pool/Task/Safety.antt =====
-- Whatever happens to the pool task, the jobs that wait for the delivery workers carry quorums, and
-- the channels stay within their capacity (message-relayer/src/pool/mod.rs).
use mathlib.Core.Path.{subst}
use mathlib.Core.List.{append_assoc}
use asc_message_relayer.Prelude.{
  ℕ, ◌≤◌, ◌++◌, refl, All, Bool, Option, none, some, List, [], ◌∷◌, ◌&&◌, ◌||◌, not, length,
  length-append, arith, Bool-cases, Option-cases, inl, inr, leb, is_some, if_both,
}
use asc_message_relayer.Prelude.Map.{Map, lookup, AllEntries, AllEntries-lookup, AllEntries-insert}
use asc_message_relayer.Types.{
  Crypto, IndexedMessage, DeliveryJob, DeliveryResult, RouteAttestors, VoteCacheConfig,
}
use asc_message_relayer.Pool.State.{State, can_index_at, prune_expired_at, collect_stalled_at}
use asc_message_relayer.Pool.State.Invariant.{
  Configured, Configured-append_right, RoutesInv, Quorate, Quorate?, AllQuorate, AllQuorate-append,
  Step?, Steps, note_indexed_at-Step?, note_vote_at-Step?, note_delivery_result_at-Step?,
  requeue_delivery_at-RoutesInv, apply_attestor_set_at-Steps, prune_expired_at-RoutesInv,
  collect_stalled_at-RoutesInv, collect_ready_at-Steps, refill_at-Steps, new-RoutesInv,
}
use asc_message_relayer.Pool.Task.{
  Channel, Task, Reply, Event, cancelled, indexed_closed, votes_closed, set_update, indexed, vote,
  delivery_result, query, prune_tick, job_taken, dispatch_delivery_job, send, send_opt, send_all,
  is_final, resume_deferred, on_indexed, rounds, on_tick, on_event, iterate, run, refilled, rest_of,
  empty_channels, start,
}

-- The set that an event brings is among those configured.
abbrev pub IsKnown : List RouteAttestors → Event → Type 0
IsKnown sets cancelled = Unit {0}
IsKnown sets indexed_closed = Unit {0}
IsKnown sets votes_closed = Unit {0}
IsKnown sets (set_update update) =
    Configured sets update.chain_key update.attestors update.threshold
IsKnown sets (indexed m) = Unit {0}
IsKnown sets (vote w) = Unit {0}
IsKnown sets (delivery_result result unix completed) = Unit {0}
IsKnown sets (query message_id) = Unit {0}
IsKnown sets (prune_tick answers) = Unit {0}
IsKnown sets (job_taken chain_key) = Unit {0}

-- A channel holds quorate jobs, at most as many as fit.
pub record ChannelInv (x : Crypto) (sets : List RouteAttestors) (c : Channel) : Type 0 where
  pub quorate : AllQuorate x sets c.queue
  pub bounded : length c.queue ≤ c.capacity

pub record TaskInv (x : Crypto) (sets : List RouteAttestors) (t : Task) : Type 0 where
  pub routes : RoutesInv x sets t.state.by_route
  pub channels : AllEntries (λ k c. ChannelInv x sets c) t.channels

module _ (x : Crypto) (sets : List RouteAttestors) (job : DeliveryJob)
    (channels : Map Channel) where
  dispatch_delivery_job-inv :
      AllEntries (λ k c. ChannelInv x sets c) channels
      → Quorate x sets job
      → AllEntries (λ k c. ChannelInv x sets c) (dispatch_delivery_job job channels).0
  unfolding dispatch_delivery_job
  dispatch_delivery_job-inv v q = elim (Option-cases (lookup job.chain_key channels)) [
    | inl n ↦ rw (n, dispatch_delivery_job) v
    | inr (c, p) ↦ elim (Bool-cases (c.closed || leb c.capacity (length c.queue))) [
      | inl full ↦ rw (p, dispatch_delivery_job) (rw full v)
      | inr room ↦
          let ci = AllEntries-lookup (λ k d. ChannelInv x sets d) job.chain_key channels v p in
          rw (p, dispatch_delivery_job)
            (rw room (
              AllEntries-insert (λ k d. ChannelInv x sets d) job.chain_key _ channels v
                (record {
                  quorate = AllQuorate-append x sets c.queue (job ∷ []) ci.quorate (q, tt);
                  bounded = ground (arith, room, length-append c.queue (job ∷ []));
                })))
    ]
  ]

module _ (x : Crypto) (sets : List RouteAttestors) (now : ℕ) where
  send-TaskInv :
      (job : DeliveryJob) (t : Task)
      → TaskInv x sets t
      → Quorate x sets job
      → TaskInv x sets (send now job t)
  unfolding send
  send-TaskInv job t v q = elim (Bool-cases (dispatch_delivery_job job t.channels).1) [
    | inl sent ↦
        rw (sent, send)
          (record {
            routes = v.routes;
            channels = dispatch_delivery_job-inv x sets job t.channels v.channels q;
          })
    | inr full ↦
        rw (full, send)
          (record {
            routes =
                requeue_delivery_at-RoutesInv x sets now t.state v.routes job.chain_key
                  job.message_id;
            channels = v.channels;
          })
  ]

  send_opt-TaskInv :
      (job : Option DeliveryJob) (t : Task)
      → TaskInv x sets t
      → Quorate? x sets job
      → TaskInv x sets (send_opt now job t)
  send_opt-TaskInv none t v q = v
  send_opt-TaskInv (some job) t v q = send-TaskInv job t v q

  send_all-TaskInv :
      (jobs : List DeliveryJob) (t : Task)
      → TaskInv x sets t
      → AllQuorate x sets jobs
      → TaskInv x sets (send_all now jobs t)
  unfolding send_all
  send_all-TaskInv [] t v q = v
  send_all-TaskInv (job ∷ jobs) t v q =
      send_all-TaskInv jobs (send now job t) (send-TaskInv job t v q.0) q.1

  -- A state step, and the dispatch of its jobs.
  Step?-TaskInv :
      (t : Task) (s : State) (job : Option DeliveryJob) (deferred : Option IndexedMessage)
      → TaskInv x sets t
      → Step? x sets s job
      → TaskInv x sets (send_opt now job (record t { state = s; deferred = deferred }))
  Step?-TaskInv t s job deferred v st =
      send_opt-TaskInv job (record t { state = s; deferred = deferred })
        (record { routes = st.inv; channels = v.channels }) st.quorate

  Steps-TaskInv :
      (t : Task) (s : State) (jobs : List DeliveryJob)
      → TaskInv x sets t
      → Steps x sets s jobs
      → TaskInv x sets (send_all now jobs (record t { state = s }))
  Steps-TaskInv t s jobs v st =
      send_all-TaskInv jobs (record t { state = s })
        (record { routes = st.inv; channels = v.channels }) st.quorate

  resume_deferred-TaskInv : (t : Task) → TaskInv x sets t → TaskInv x sets (resume_deferred x now t)
  unfolding resume_deferred
  resume_deferred-TaskInv t v = elim (Option-cases t.deferred) [
    | inl n ↦ rw (n, resume_deferred) v
    | inr (m, p) ↦ elim (Bool-cases (can_index_at m t.state)) [
      | inl c ↦
          rw (p, resume_deferred)
            (rw c
              (Step?-TaskInv t _ _ none v (note_indexed_at-Step? x sets now t.state v.routes m)))
      | inr c ↦ rw (p, resume_deferred) (rw c v)
    ]
  ]

  on_indexed-TaskInv :
      (m : IndexedMessage) (t : Task) → TaskInv x sets t → TaskInv x sets (on_indexed x now m t)
  unfolding on_indexed
  on_indexed-TaskInv m t v = if_both (TaskInv x sets) (is_some t.deferred) _ _ v (
      if_both (TaskInv x sets) (can_index_at m t.state) _ _
        (Step?-TaskInv t _ _ t.deferred v (note_indexed_at-Step? x sets now t.state v.routes m))
        (if_both (TaskInv x sets) t.durable _ _ v
          (record { routes = v.routes; channels = v.channels })))

  refilled-TaskInv :
      (pending : ℕ → List IndexedMessage) (t : Task)
      → TaskInv x sets t
      → TaskInv x sets (refilled x now pending t)
  unfolding refilled
  refilled-TaskInv pending t v =
      if_both (TaskInv x sets) t.durable _ _
        (Steps-TaskInv t _ _ v (refill_at-Steps x sets now t.state v.routes pending)) v

  rounds-TaskInv : (t : Task) → TaskInv x sets t → TaskInv x sets (rounds x now t).0
  unfolding rounds
  rounds-TaskInv t v = Steps-TaskInv t _ _ v (
      collect_ready_at-Steps x sets now (collect_stalled_at now t.state).0
        (collect_stalled_at-RoutesInv x sets now t.state v.routes))

  pruned-TaskInv :
      (t : Task)
      → TaskInv x sets t
      → TaskInv x sets (record t { state = prune_expired_at now t.state })
  pruned-TaskInv t v = record {
    routes = prune_expired_at-RoutesInv x sets now t.state v.routes;
    channels = v.channels;
  }

  on_tick-TaskInv :
      (answers : Option (ℕ → List IndexedMessage)) (t : Task)
      → TaskInv x sets t
      → TaskInv x sets (on_tick x now answers t).0
  unfolding on_tick
  on_tick-TaskInv none t v =
      let w = pruned-TaskInv t v in
      if_both (λ (p : Task × Reply). TaskInv x sets p.0) t.durable _ _
        (record { routes = w.routes; channels = w.channels })
        (rounds-TaskInv (record t { state = prune_expired_at now t.state }) w)
  on_tick-TaskInv (some pending) t v = rounds-TaskInv _ (
      refilled-TaskInv pending (record t { state = prune_expired_at now t.state })
        (pruned-TaskInv t v))

  -- A worker takes a job: the rest of the queue is as good.
  taken-ChannelInv :
      (c : Channel) → ChannelInv x sets c → ChannelInv x sets (record c { queue = rest_of c.queue })
  taken-ChannelInv c v =
      let both = rest_of-inv c.queue v.quorate in
      record { quorate = both.0; bounded = omega (arith, both.1, v.bounded) }
    where
      rest_of-inv :
          (jobs : List DeliveryJob)
          → AllQuorate x sets jobs
          → AllQuorate x sets (rest_of jobs) × (length (rest_of jobs) ≤ length jobs)
      rest_of-inv [] q = (tt, omega arith)
      rest_of-inv (job ∷ jobs) q = (q.1, omega arith)

  taken-TaskInv :
      (chain_key : ℕ) (t : Task)
      → TaskInv x sets t
      → TaskInv x sets (on_event x now (job_taken chain_key) t).0
  unfolding on_event
  taken-TaskInv chain_key t v = elim (Option-cases (lookup chain_key t.channels)) [
    | inl n ↦ rw (n, on_event) v
    | inr (c, p) ↦
        rw (p, on_event)
          (record {
            routes = v.routes;
            channels =
                AllEntries-insert (λ k d. ChannelInv x sets d) chain_key _ t.channels v.channels
                  (taken-ChannelInv c (
                    AllEntries-lookup (λ k d. ChannelInv x sets d) chain_key t.channels v.channels
                      p));
          })
  ]

  reported-TaskInv :
      (result : DeliveryResult) (unix : Option ℕ) (completed : Bool) (t : Task)
      → TaskInv x sets t
      → TaskInv x sets (on_event x now (delivery_result result unix completed) t).0
  unfolding on_event
  reported-TaskInv result unix completed t v =
      elim (Bool-cases (is_final result.outcome && (t.durable && not completed))) [
        | inl e ↦ rw (e, on_event) (record { routes = v.routes; channels = v.channels })
        | inr e ↦
            rw (e, on_event)
              (Step?-TaskInv t _ _ t.deferred v
                (note_delivery_result_at-Step? x sets now t.state v.routes result unix))
      ]

  on_event-TaskInv :
      (e : Event) (t : Task)
      → IsKnown sets e
      → TaskInv x sets t
      → TaskInv x sets (on_event x now e t).0
  unfolding on_event
  on_event-TaskInv cancelled t k v = record { routes = v.routes; channels = v.channels }
  on_event-TaskInv indexed_closed t k v = record { routes = v.routes; channels = v.channels }
  on_event-TaskInv votes_closed t k v = record { routes = v.routes; channels = v.channels }
  on_event-TaskInv (set_update update) t k v =
      Steps-TaskInv t _ _ v (apply_attestor_set_at-Steps x sets now t.state v.routes update k)
  on_event-TaskInv (indexed m) t k v = on_indexed-TaskInv m t v
  on_event-TaskInv (vote w) t k v =
      Step?-TaskInv t _ _ t.deferred v (note_vote_at-Step? x sets now t.state v.routes w)
  on_event-TaskInv (delivery_result result unix completed) t k v =
      reported-TaskInv result unix completed t v
  on_event-TaskInv (query message_id) t k v = v
  on_event-TaskInv (prune_tick answers) t k v = on_tick-TaskInv answers t v
  on_event-TaskInv (job_taken chain_key) t k v = taken-TaskInv chain_key t v

  iterate-TaskInv :
      (e : Event) (t : Task)
      → IsKnown sets e
      → TaskInv x sets t
      → TaskInv x sets (iterate x now e t).0
  unfolding iterate
  iterate-TaskInv e t k v =
      if_both (λ (p : Task × Reply). TaskInv x sets p.0) t.running _ _
        (on_event-TaskInv e (resume_deferred x now t) k (resume_deferred-TaskInv t v)) v

run-TaskInv :
    (x : Crypto) (sets : List RouteAttestors) (es : List (ℕ × Event)) (t : Task)
    → All (λ e. IsKnown sets e.1) es
    → TaskInv x sets t
    → TaskInv x sets (run x es t)
unfolding run
run-TaskInv x sets [] t k v = v
run-TaskInv x sets ((now, e) ∷ es) t k v =
    run-TaskInv x sets es (iterate x now e t).0 k.1 (iterate-TaskInv x sets now e t k.0 v)

empty_channels-inv :
    (x : Crypto) (sets : List RouteAttestors) (capacities : Map ℕ)
    → AllEntries (λ k c. ChannelInv x sets c) (empty_channels capacities)
unfolding empty_channels
empty_channels-inv x sets [] = tt
empty_channels-inv x sets ((k, n) ∷ m) =
    (record { quorate = tt; bounded = omega arith }, empty_channels-inv x sets m)

-- The sets that events bring.
abbrev pub update_of : Event → List RouteAttestors
update_of cancelled = []
update_of indexed_closed = []
update_of votes_closed = []
update_of (set_update update) = update ∷ []
update_of (indexed m) = []
update_of (vote w) = []
update_of (delivery_result result unix completed) = []
update_of (query message_id) = []
update_of (prune_tick answers) = []
update_of (job_taken chain_key) = []

abbrev pub updates_of : List (ℕ × Event) → List RouteAttestors
updates_of [] = []
updates_of (e ∷ es) = update_of e.1 ++ updates_of es

update_of-IsKnown :
    (before after : List RouteAttestors) (e : Event) → IsKnown (before ++ (update_of e ++ after)) e
update_of-IsKnown before after cancelled = tt
update_of-IsKnown before after indexed_closed = tt
update_of-IsKnown before after votes_closed = tt
update_of-IsKnown before after (set_update update) =
    Configured-append_right before (update ∷ after) _ _ _ (inl (refl, refl, refl))
update_of-IsKnown before after (indexed m) = tt
update_of-IsKnown before after (vote w) = tt
update_of-IsKnown before after (delivery_result result unix completed) = tt
update_of-IsKnown before after (query message_id) = tt
update_of-IsKnown before after (prune_tick answers) = tt
update_of-IsKnown before after (job_taken chain_key) = tt

updates_of-IsKnown :
    (before : List RouteAttestors) (es : List (ℕ × Event))
    → All (λ e. IsKnown (before ++ updates_of es) e.1) es
updates_of-IsKnown before [] = tt
updates_of-IsKnown before (e ∷ es) = (
  update_of-IsKnown before (updates_of es) e.1,
  subst (λ sets. All (λ d. IsKnown sets d.1) es)
      (append_assoc before (update_of e.1) (updates_of es))
      (updates_of-IsKnown (before ++ update_of e.1) es),
)

-- Whatever events reach a pool that starts empty, each route meets its invariant under a set and
-- threshold that its start or a set update configured for its chain key; each job in a channel
-- only asks what became of its message, or carries at least as many signatures as the threshold of
-- such a set of its chain key, by distinct attestors of that set, each canonical and its own over
-- the message; and no channel exceeds its capacity.
pub run-start-TaskInv :
    (x : Crypto) (routes : List RouteAttestors) (cache : VoteCacheConfig) (durable : Bool)
    (capacities : Map ℕ) (es : List (ℕ × Event))
    → TaskInv x (routes ++ updates_of es) (run x es (start routes cache durable capacities))
unfolding start
run-start-TaskInv x routes cache durable capacities es =
    run-TaskInv x (routes ++ updates_of es) es (start routes cache durable capacities)
      (updates_of-IsKnown routes es)
      (record {
        routes = new-RoutesInv x routes (updates_of es) cache;
        channels = empty_channels-inv x (routes ++ updates_of es) capacities;
      })
