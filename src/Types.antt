-- ===== src/Types.antt =====
-- The data that the workers pass to each other: message-relayer/src/events/mod.rs, delivery/mod.rs,
-- config.rs and write-ability/src/envelope.rs. Ids, addresses and hashes are the numbers that their
-- bytes spell; byte strings are lists of numbers below 256. An `Instant` is a count of milliseconds.
use asc_message_relayer.Prelude.{ℕ, ◌*◌, Bool, List, Option}

abbrev pub Bytes : Type 0
Bytes = List ℕ

-- `Duration::from_secs`.
abbrev pub secs : ℕ → ℕ
secs n = n * 1000

-- What alloy provides: recovery of a signer from a digest and 65 signature bytes (parsing
-- included), and `abi.encode(bytes[])`.
pub record Crypto : Type 0 where
  pub recover_address : ℕ → Bytes → Option ℕ
  pub abi_encode : List Bytes → Bytes

pub record IndexedMessage : Type 0 where
  pub chain_key : ℕ
  pub message_id : ℕ
  pub emitter : ℕ
  pub outbox : ℕ
  pub sequence : ℕ
  pub destination_chain_key : ℕ
  pub creditcoin_chain_id : ℕ
  pub payload : Bytes
  pub tx_hash : ℕ
  pub block_height : ℕ

pub record MessageVote : Type 0 where
  pub chain_key : ℕ
  pub message_id : ℕ
  pub signer : ℕ
  pub signature : Bytes

pub record ReobservationRequest : Type 0 where
  pub chain_key : ℕ
  pub message_id : ℕ
  pub tx_hash : ℕ
  pub block_height : ℕ

pub record VoteCacheConfig : Type 0 where
  pub ttl_seconds : ℕ
  pub max_messages : ℕ

pub record RouteAttestors : Type 0 where
  pub chain_key : ℕ
  pub attestors : List ℕ
  pub threshold : ℕ

pub record DeliveryJob : Type 0 where
  pub chain_key : ℕ
  pub message_id : ℕ
  pub emitter : ℕ
  pub outbox : ℕ
  pub sequence : ℕ
  pub payload : Bytes
  pub votes_calldata : Bytes
  pub signer_count : ℕ
  pub indexed_at : ℕ
  pub reconcile_only : Bool

pub data DeliveryResultKind : Type 0 where
  delivered terminal retryable awaiting_votes : DeliveryResultKind
  awaiting_execution : Option ℕ → DeliveryResultKind

pub record DeliveryResult : Type 0 where
  pub chain_key : ℕ
  pub message_id : ℕ
  pub outcome : DeliveryResultKind

-- How the vote counter counts one vote.
pub data VoteOutcome : Type 0 where
  accept reject ignore dropped buffered : VoteOutcome

-- A read-only view of the votes held for one message.
pub record VoteBundle : Type 0 where
  pub chain_key : ℕ
  pub message_id : ℕ
  pub threshold : ℕ
  pub signer_count : ℕ
  pub delivered : Bool
  pub signers : List ℕ
