-- ===== src/Ack/Attempt.antt =====
-- One attempt to settle a delivery: `acknowledge_tx`, `classify_submit` and `relay_claimable_ids` of
-- message-relayer/src/ack/mod.rs.
use asc_message_relayer.Prelude.{
  ℕ, zero, suc, Bool, true, false, not, ◌||◌, ◌&&◌, Option, none, some, List, [], ◌∷◌, ◌++◌, ltb,
  ◌==◌, if◌then◌else◌,
}
use asc_message_relayer.Ack.{DeliveryEvent}
use asc_message_relayer.Ack.Routes.{Resolution, SourceReads, Route, validators, insert_id}
use asc_message_relayer.Ack.Worker.{AckOutcome, acknowledged, not_ready, rejected, terminal, failed}
pub mod Justified

pub data SettlementMode : Type 0 where
  ack ack_and_claim : SettlementMode

-- What a broadcast gives: the receipt, if it was sent. A refusal may be a terminal revert.
pub data Receipt : Type 0 where
  timed_out unavailable : Receipt
  mined : Bool → Receipt

pub data Sent : Type 0 where
  sent : Receipt → Sent
  refused : Bool → Sent

pub data SubmitOutcome : Type 0 where
  confirmed reverted errored : SubmitOutcome

unfoldable pub classify_submit : Sent → SubmitOutcome
classify_submit (sent timed_out) = errored
classify_submit (sent unavailable) = errored
classify_submit (sent (mined true)) = confirmed
classify_submit (sent (mined false)) = reverted
classify_submit (refused true) = reverted
classify_submit (refused false) = errored

-- Whether a submission leaves a failure behind. `none` is a broadcast that stalled.
unfoldable pub fails : Option Sent → Bool
fails none = true
fails (some s) = elim (classify_submit s) [ errored ↦ true | _ ↦ false ]

-- The proof: the length of its encoded transaction, if that decodes, and whether it converts to the
-- form that the contracts take.
pub record Proof : Type 0 where
  pub encoded_length : Option ℕ
  pub converts : Bool

pub data ProofFetch : Type 0 where
  proof_ready : Proof → ProofFetch
  proof_not_ready proof_rejected proof_error : ProofFetch

-- What the fee ledger says of a message; the payer is zero when the fee was not paid through it.
pub record MessageInfo : Type 0 where
  pub payer : ℕ
  pub relay_settled : Bool

abbrev pub is_owed : MessageInfo → Bool
is_owed i = not (i.payer == 0) && not i.relay_settled

abbrev pub and_id : Bool → ℕ → Option (List ℕ) → Option (List ℕ)
and_id owed id none = none
and_id owed id (some rest) = some (if owed then id ∷ rest else rest)

unfoldable pub relay_claimable_ids : (ℕ → Option MessageInfo) → List ℕ → Option (List ℕ)
relay_claimable_ids info [] = some []
relay_claimable_ids info (id ∷ ids) =
    let rest = relay_claimable_ids info ids in
    elim (info id) [ none ↦ none | some i ↦ and_id (is_owed i) id rest ]

-- What an attempt asks the chains and the service. The reads come twice, before and after.
pub record World : Type 0 where
  pub source : SourceReads
  pub info : ℕ → Option MessageInfo
  pub fetch : ProofFetch
  pub submit : ℕ → Option Sent
  pub claim : ℕ → Option Sent
  pub source_after : SourceReads
  pub info_after : ℕ → Option MessageInfo

pub data Submission : Type 0 where
  acknowledgment claim_delivery : ℕ → Submission

abbrev pub max_encoded_transaction_bytes : ℕ
max_encoded_transaction_bytes = 500000

unfoldable pub ids_of : Bool → List DeliveryEvent → List ℕ
ids_of executed [] = []
ids_of executed (e ∷ es) =
    let rest = ids_of executed es in
    if (e.executed && executed) || (not e.executed && not executed)
    then insert_id e.message_id rest
    else rest

abbrev pub nothing : Resolution
nothing = record { authorities = []; failure = false }

-- No message, no route to resolve.
abbrev pub resolved : Route → SourceReads → List ℕ → Resolution
resolved route source [] = nothing
resolved route source (id ∷ ids) = validators route source (id ∷ ids)

abbrev pub or_all : Option (List ℕ) → List ℕ → List ℕ
or_all none ids = ids
or_all (some claimable) ids = claimable

-- The messages whose fee is to be claimed; a failed read attempts all.
abbrev pub claims_of : SettlementMode → World → List ℕ → List ℕ
claims_of ack w ids = []
claims_of ack_and_claim w ids = or_all (relay_claimable_ids w.info ids) ids

abbrev pub is_empty : List ℕ → Bool
is_empty [] = true
is_empty (x ∷ xs) = false

abbrev pub submissions : (ℕ → Submission) → List ℕ → List Submission
submissions make [] = []
submissions make (x ∷ xs) = make x ∷ submissions make xs

-- Each submission is made, whether others fail or not.
abbrev pub any_fails : (ℕ → Option Sent) → List ℕ → Bool
any_fails send [] = false
any_fails send (x ∷ xs) = fails (send x) || any_fails send xs

-- What the source still shows after the submissions.
abbrev pub unacknowledged : Route → World → List ℕ → Bool
unacknowledged route w executed =
    let r = resolved route w.source_after executed in r.failure || not (is_empty r.authorities)

abbrev pub unsettled : Option (List ℕ) → Bool
unsettled none = true
unsettled (some remaining) = not (is_empty remaining)

abbrev pub unclaimed : SettlementMode → World → List ℕ → Bool
unclaimed ack w claims = false
unclaimed ack_and_claim w claims = unsettled (relay_claimable_ids w.info_after claims)

abbrev pub when_failed : Bool → AckOutcome → AckOutcome
when_failed failure outcome = if failure then failed else outcome

-- The submissions and the check of the source after them, given a proof that is not too long. A
-- proof that does not convert ends the attempt at the first submission.
unfoldable pub settle :
    Route
    → SettlementMode
    → World
    → Bool
    → List ℕ
    → Resolution
    → List ℕ
    → AckOutcome × List Submission
settle route mode w converts executed routes claims =
    let failure =
      routes.failure
      || any_fails w.submit routes.authorities
      || any_fails w.claim claims
      || unacknowledged route w executed
      || unclaimed mode w claims in
    let all = submissions acknowledgment routes.authorities ++ submissions claim_delivery claims in
    if not converts && not (is_empty routes.authorities && is_empty claims)
    then (failed, [])
    else (when_failed failure acknowledged, all)

abbrev pub with_length :
    Route
    → SettlementMode
    → World
    → Bool
    → Option ℕ
    → List ℕ
    → Resolution
    → List ℕ
    → AckOutcome × List Submission
with_length route mode w converts none executed routes claims = (failed, [])
with_length route mode w converts (some length) executed routes claims =
    if ltb max_encoded_transaction_bytes length
    then (terminal, [])
    else settle route mode w converts executed routes claims

abbrev pub with_proof :
    Route
    → SettlementMode
    → World
    → ProofFetch
    → List ℕ
    → Resolution
    → List ℕ
    → AckOutcome × List Submission
with_proof route mode w (proof_ready p) executed routes claims =
    with_length route mode w p.converts p.encoded_length executed routes claims
with_proof route mode w proof_not_ready executed routes claims =
    (when_failed routes.failure not_ready, [])
with_proof route mode w proof_rejected executed routes claims =
    (when_failed routes.failure rejected, [])
with_proof route mode w proof_error executed routes claims = (failed, [])

-- The outcome of the attempt, and what it submitted, in order.
unfoldable pub acknowledge_tx :
    Route → SettlementMode → World → List DeliveryEvent → AckOutcome × List Submission
acknowledge_tx route mode w messages =
    let executed = ids_of true messages in
    let routes = resolved route w.source executed in
    let claims = claims_of mode w (ids_of false messages) in
    let idle = is_empty claims && is_empty routes.authorities in
    if idle && routes.failure
    then (failed, [])
    else if idle
    then (terminal, [])
    else with_proof route mode w w.fetch executed routes claims
