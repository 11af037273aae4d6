-- ===== src/Lib.antt =====
-- The relayer of cross-chain messages (message-relayer/) watches a source chain for messages, collects
-- attestor votes on them in a vote pool, and delivers a message to the Inbox of its destination chain
-- once a quorum has signed it. Afterwards it acknowledges the delivery on the source chain. It also
-- submits updates of the attestor set. This library models the parts that decide: the vote pool, the
-- budgets and delays of the delivery worker, the acknowledgement submitter, the set updates, the
-- verdict on the health of each worker, and the stores that the workers share.
--
-- The parts and how they interact. The event scan (message-relayer/src/events/) finds a message up to
-- the block that `pick_to_block` allows and hands it to the pool as indexed. Gossip hands votes to the
-- pool. The pool task (message-relayer/src/pool/mod.rs, `run`) keeps a slot for each message of each
-- route, dispatches a delivery job to the worker of the route when a quorum is reached, takes the
-- worker's report, and on each tick prunes, refills from the durable backlog, asks for votes that are
-- missing and dispatches again what is due. The delivery worker (message-relayer/src/delivery/) sends
-- the transaction, reads its receipt, and limits what it spends on messages that keep failing.
-- The acknowledgement submitter (message-relayer/src/ack/) finds the delivery events of the Inbox up
-- to a confirmed block, keeps the transactions in a bounded queue with a retry schedule
-- (message-relayer/src/pending.rs), settles a batch of them on each tick, and stores in the checkpoint
-- file (message-relayer/src/checkpoint.rs) a cursor below all that it still has to settle. The set
-- update worker (message-relayer/src/set_update/) collects votes on the next set of a validator and
-- submits an update with a quorum. Every worker reports to message-relayer/src/health.rs.
--
-- The files.
--   Prelude: shared names. Prelude/Tests has Boolean tests, the conditional and saturating words,
--     Prelude/Lists list functions over the native numbers, Prelude/Map hash maps as association
--     lists, Prelude/Sorted the ordered maps of signatures (BTreeMap).
--   Types: the records that the workers exchange (events/mod.rs, delivery/mod.rs, config.rs,
--     write-ability/src/envelope.rs), and the parameter `Crypto`.
--   Pool/Signature: calculate_threshold, recover_signer; Quorum is about groups of attestors, Canonical
--     about the bytes of a signature. Pool/Slot: MessageSlot, RouteState,
--     dispatch_if_ready. Pool/Admission: make_room, note_indexed, can_index. Pool/Voting: note_vote,
--     buffer_early_vote, evict_early_overflow. Pool/Results: note_delivery_result, requeue_delivery,
--     collect_ready_deliveries. Pool/Upkeep: prune_expired, apply_attestor_set,
--     collect_stalled_reobservations, refill. Pool/State: the same over the map of routes
--     (Pool/State/Keyed: the chain keys of the jobs).
--     Pool/Task: run and dispatch_delivery_job, an event at a time. These are message-relayer/src/
--     pool/mod.rs. Pool/Invariant states what holds of a route between operations; the child modules
--     prove that each operation keeps it. Pool/Flight counts the deliveries that are under way.
--   Delivery/Backoff: pending_retry_delay, delivery_retry_delay. Delivery/FailedRetry: the budget of
--     retryFailedMessage (delivery/failed_retry.rs, work.rs, config.rs and its use in
--     delivery/mod.rs). Delivery/TopUp: TopUpLedger. Delivery/Gas: bumped_gas_limit.
--     Delivery/Receipt: classify_success_logs. These are under message-relayer/src/delivery/.
--   Pending: PendingTxs, BoundedSeen and the delays of message-relayer/src/pending.rs; Queue, Delays and
--     Tracks prove what holds of them.
--   Ack: discover_delivered, a scan of message-relayer/src/ack/mod.rs. Ack/Worker: process_pending and
--     run, a tick or a restart at a time. Ack/Routes: validators and validator_for (ack/routes.rs).
--     Ack/Attempt: acknowledge_tx, relay_claimable_ids and classify_submit. Ack/Discovery, Ack/Holding,
--     Ack/Settled and Ack/Scanned say what becomes of each log of a scan. Ack/Lossless has the
--     invariant of the submitter; Scan, Persist, Process and Run under it show that each step keeps
--     it. Ack/Final traces an outcome to its attempt, and Ack/EndToEnd joins the run with the attempts.
--   Checkpoint: CheckpointStore (message-relayer/src/checkpoint.rs); Checkpoint/Reload relates the memory
--     and the file of a store to the calls on it.
--   SetUpdate: message-relayer/src/set_update/mod.rs and canonical_attestor_order of
--     write-ability/src/hash.rs; Sound, Single and Canonical prove what holds of them.
--   Health: message-relayer/src/health.rs; Verdict and Heard under it relate reports and verdicts.
--   Work/Cursor: RouteCursor and its refill (message-relayer/src/work.rs). Work/Store: record, pending
--     and complete of WorkStore, on one route; Work/Store/Counted is about the count of its records,
--     Work/Store/Returned about what pending returns.
--   Outcome: OutcomeStore (message-relayer/src/outcome.rs). Pacing: RateLimitPacer
--     and, in Pacing/Errors, contains_standalone (message-relayer/src/pacing.rs). Events/Finality: pick_to_block
--     (message-relayer/src/events/finality.rs).
--   Examples: concrete inputs at which the theorems are applied.
--
-- How state corresponds. A struct is a record, an enum a data type, a hash map an association list
-- whose order stands for the unspecified order of iteration. Ids, addresses and hashes are the numbers
-- that their bytes spell. An Instant is a count of milliseconds; the clock, the random choices of the
-- runtime and what the store answers come in as arguments, so that a theorem about any list of events
-- is about any interleaving of them. An error is `none` or a Boolean that is false. Machine words
-- saturate or wrap where the code makes them.
--
-- Bounds and fuel. The loops of make_room and evict_early_overflow run on fuel, one more than the
-- slots and as many as the entries, of which each round removes one; that of contains_standalone on
-- one more than the bytes, as each round moves on. All other loops are structural,
-- save that of a binary logarithm, which runs on fuel of 64, the bits of the word that it halves.
--
-- Parameters. Recovery of a signer and the ABI encoding are alloy's (`Crypto`); the event signatures
-- and decoders are the contract bindings' (`Bindings`, `InboxEvents`); the text of the checkpoint
-- file is that of the JSON library (`Format`); the digest of a set update is a function of its
-- validator, nonce and set. What the chains, the proof service and the file system answer are fields
-- of the input of a step (`TickInput`, `World`), or arguments of it.
--
-- Not modelled: RPC calls and transactions, gossip and web sockets, metrics and logs, parsing of
-- configuration, the paths of the work store, claims and the generation of proofs, the
-- discovery of historical routes of an acknowledgement, the locks of signers and balances.

pub mod Prelude
pub mod Types
pub mod Delivery
pub mod Pool
pub mod Outcome
pub mod Pacing
pub mod Events
pub mod Work
pub mod Pending
pub mod Ack
pub mod Checkpoint
pub mod SetUpdate
pub mod Health
pub mod Examples
