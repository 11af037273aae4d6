-- ===== src/Ack/Routes.antt =====
-- Where an executed message is to be acknowledged: `validators` and `validator_for` of
-- message-relayer/src/ack/routes.rs.
pub mod Acked
use asc_message_relayer.Prelude.{
  ℕ, Bool, true, false, not, ◌||◌, ◌&&◌, Option, none, some, List, [], ◌∷◌, ltb, ◌==◌,
  if◌then◌else◌,
}

pub record OutboxMessage : Type 0 where
  pub emitter : ℕ
  pub sequence : ℕ
  pub payload_hash : ℕ
  pub can_ack : Bool
  pub acknowledged : Bool

pub data MessageRead : Type 0 where
  found : OutboxMessage → MessageRead
  not_found read_failed : MessageRead

-- What the source chain answers: the record of a message in an Outbox, the validator of an Outbox,
-- and the Outbox and destination that a validator is bound to.
pub record SourceReads : Type 0 where
  pub get_message : ℕ → ℕ → MessageRead
  pub validator : ℕ → Option ℕ
  pub bound_outbox : ℕ → Option ℕ
  pub bound_destination : ℕ → Option ℕ

-- The route, with its candidate Outboxes in ascending order, and the hash that makes message ids.
pub record Route : Type 0 where
  pub source_chain_id : ℕ
  pub destination_chain_key : ℕ
  pub candidates : List ℕ
  pub message_id : ℕ → OutboxMessage → ℕ → ℕ

-- `Ok(Some(_))`, `Ok(None)` and `Err(_)`.
pub data Resolved : Type 0 where
  authority : ℕ → Resolved
  not_needed unknown : Resolved

abbrev pub is_value : Option ℕ → ℕ → Bool
is_value none n = false
is_value (some m) n = m == n

-- The validator of the Outbox, if it is bound to it and to the destination.
abbrev pub bound_validator : Route → SourceReads → ℕ → Option ℕ → Resolved
bound_validator route source outbox none = unknown
bound_validator route source outbox (some a) =
    if a == 0
    then unknown
    else if not (is_value (source.bound_outbox a) outbox)
    then unknown
    else if not (is_value (source.bound_destination a) route.destination_chain_key)
    then unknown
    else authority a

-- Whether the record is the message's own.
abbrev pub is_original : Route → ℕ → ℕ → OutboxMessage → Bool
is_original route outbox id m =
    not (m.emitter == 0) && route.message_id outbox m route.source_chain_id == id

abbrev pub decide : Route → SourceReads → ℕ → OutboxMessage → Resolved
decide route source outbox m =
    if m.can_ack && not m.acknowledged
    then bound_validator route source outbox (source.validator outbox)
    else not_needed

-- A candidate without the record, or whose read fails, is passed over.
abbrev pub from_read : Route → SourceReads → ℕ → ℕ → MessageRead → Resolved → Resolved
from_read route source outbox id (found m) rest =
    if is_original route outbox id m then decide route source outbox m else rest
from_read route source outbox id not_found rest = rest
from_read route source outbox id read_failed rest = rest

unfoldable pub validator_for : Route → SourceReads → ℕ → List ℕ → Resolved
validator_for route source id [] = unknown
validator_for route source id (outbox ∷ outboxes) =
    from_read route source outbox id (source.get_message outbox id)
      (validator_for route source id outboxes)

-- A `BTreeSet` as its ascending list.
unfoldable pub insert_id : ℕ → List ℕ → List ℕ
insert_id id [] = id ∷ []
insert_id id (x ∷ xs) =
    let rest = insert_id id xs in
    if ltb id x then id ∷ x ∷ xs else if id == x then x ∷ xs else x ∷ rest

-- The validators that have messages to acknowledge, and whether some message was not resolved.
pub record Resolution : Type 0 where
  pub authorities : List ℕ
  pub failure : Bool

abbrev pub added : Resolved → Resolution → Resolution
added (authority a) r = record r { authorities = insert_id a r.authorities }
added not_needed r = r
added unknown r = record r { failure = true }

unfoldable pub validators_loop : Route → SourceReads → List ℕ → Resolution → Resolution
validators_loop route source [] r = r
validators_loop route source (id ∷ ids) r =
    validators_loop route source ids (added (validator_for route source id route.candidates) r)

abbrev pub is_nil : List ℕ → Bool
is_nil [] = true
is_nil (x ∷ xs) = false

unfoldable pub validators : Route → SourceReads → List ℕ → Resolution
validators route source ids =
    validators_loop route source ids (record { authorities = []; failure = is_nil ids })
