-- ===== src/SetUpdate.antt =====
-- The aggregation of attestor-set updates: message-relayer/src/set_update/mod.rs, with the vote of
-- write-ability/src/envelope.rs and the canonical order of write-ability/src/hash.rs.
use asc_message_relayer.Prelude.{
  ℕ, Bool, true, false, not, ◌||◌, Option, none, some, List, [], ◌∷◌, length, contains, ltb, leb,
  ◌==◌, if◌then◌else◌, is_some, retain,
}
use asc_message_relayer.Prelude.Map.{Map, lookup, insert, remove, values}
use asc_message_relayer.Prelude.Sorted.{insert_sorted}
use asc_message_relayer.Types.{Bytes, Crypto}
use asc_message_relayer.Pool.Signature.{recover_signer}
pub mod Sound
pub mod Canonical
pub mod Single

pub record SetUpdateVote : Type 0 where
  pub chain_key : ℕ
  pub new_attestors : List ℕ
  pub nonce : ℕ
  pub signer : ℕ
  pub signature : Bytes

pub record OnChain : Type 0 where
  pub attestors : List ℕ
  pub threshold : ℕ
  pub nonce : ℕ
  pub chain_id : ℕ

-- The signer key and the RPC URL are left to the transaction.
pub record RouteState : Type 0 where
  pub validator : ℕ
  pub current : Option OnChain
  pub votes : Map (Map Bytes)
  pub in_flight : List ℕ

-- The hash that attestors sign: of the validator, the set, the chain id and the nonce.
abbrev pub UpdateDigest : Type 0
UpdateDigest = ℕ → List ℕ → ℕ → ℕ → ℕ

-- `sort_unstable` of addresses, and `dedup` of neighbours.
unfoldable pub insert_address : ℕ → List ℕ → List ℕ
insert_address a [] = a ∷ []
insert_address a (b ∷ bs) =
    let rest = insert_address a bs in if leb a b then a ∷ b ∷ bs else b ∷ rest

unfoldable pub sort_addresses : List ℕ → List ℕ
sort_addresses [] = []
sort_addresses (a ∷ as') = insert_address a (sort_addresses as')

abbrev pub cons_new : ℕ → List ℕ → List ℕ
cons_new a [] = a ∷ []
cons_new a (b ∷ bs) = if a == b then b ∷ bs else a ∷ b ∷ bs

unfoldable pub dedup : List ℕ → List ℕ
dedup [] = []
dedup (a ∷ as') = cons_new a (dedup as')

unfoldable pub canonical_attestor_order : List ℕ → List ℕ
canonical_attestor_order addrs = dedup (sort_addresses addrs)

-- What `verify_vote` returns: the canonical set, the digest and the signer.
pub record Verified : Type 0 where
  pub canonical : List ℕ
  pub digest : ℕ
  pub signer : ℕ

abbrev pub known_signer : OnChain → List ℕ → ℕ → Option ℕ → Option Verified
known_signer current canonical digest none = none
known_signer current canonical digest (some signer) =
    if contains current.attestors signer
    then some (record { canonical = canonical; digest = digest; signer = signer })
    else none

unfoldable pub verify_vote : Crypto → UpdateDigest → SetUpdateVote → ℕ → OnChain → Option Verified
verify_vote x h vote validator current =
    let canonical = canonical_attestor_order vote.new_attestors in
    let digest = h validator canonical current.chain_id vote.nonce in
    if not (vote.nonce == current.nonce)
    then none
    else known_signer current canonical digest (recover_signer x digest vote.signature)

-- A call of `submitAttestorSetUpdate`. The contract takes the signatures alone, in this order.
pub record Submission : Type 0 where
  pub validator : ℕ
  pub new_attestors : List ℕ
  pub digest : ℕ
  pub signatures : Map Bytes

abbrev pub remove_digest : ℕ → List ℕ → List ℕ
remove_digest d ds = retain (λ e. not (e == d)) ds

abbrev pub slot_of : Option (Map Bytes) → Map Bytes
slot_of none = []
slot_of (some slot) = slot

-- The mark stays if the submission succeeds.
abbrev pub submitted : Bool → Verified → Map Bytes → RouteState → RouteState
submitted true v slot s = record s {
  votes = remove v.digest s.votes;
  in_flight = v.digest ∷ s.in_flight;
}
submitted false v slot s = record s {
  votes = remove v.digest s.votes;
  in_flight = remove_digest v.digest (v.digest ∷ s.in_flight);
}

abbrev pub submission_of : Verified → Map Bytes → RouteState → Submission
submission_of v slot s = record {
  validator = s.validator;
  new_attestors = v.canonical;
  digest = v.digest;
  signatures = slot;
}

-- A verified vote. `ok` is whether the submission, should there be one, succeeds.
unfoldable pub count_update :
    Bool → ℕ → Bytes → Verified → RouteState → RouteState × Option Submission
count_update ok threshold signature v s =
    let before = slot_of (lookup v.digest s.votes) in
    let slot = insert_sorted v.signer signature before in
    let counted = record s { votes = insert v.digest slot s.votes } in
    if contains s.in_flight v.digest
    then (s, none)
    else if is_some (lookup v.signer before)
    then (counted, none)
    else if ltb (length slot) threshold
    then (counted, none)
    else (submitted ok v slot counted, some (submission_of v slot counted))

abbrev pub verified_by :
    Bool → ℕ → Bytes → Option Verified → RouteState → RouteState × Option Submission
verified_by ok threshold signature none s = (s, none)
verified_by ok threshold signature (some v) s = count_update ok threshold signature v s

abbrev pub with_view :
    Crypto
    → UpdateDigest
    → Bool
    → SetUpdateVote
    → Option OnChain
    → RouteState
    → RouteState × Option Submission
with_view x h ok vote none s = (s, none)
with_view x h ok vote (some current) s =
    verified_by ok current.threshold vote.signature (verify_vote x h vote s.validator current) s

-- `handle_vote`, on the route of the vote.
unfoldable pub handle_vote :
    Crypto → UpdateDigest → Bool → SetUpdateVote → RouteState → RouteState × Option Submission
handle_vote x h ok vote s = with_view x h ok vote s.current s

abbrev pub advanced : Option OnChain → ℕ → Bool
advanced none nonce = false
advanced (some c) nonce = not (c.nonce == nonce)

-- `refresh`, given what the chain answers, `none` for an error.
unfoldable pub refresh : Option OnChain → RouteState → RouteState
refresh none s = s
refresh (some view) s =
    if advanced s.current view.nonce
    then record s { current = some view; votes = []; in_flight = [] }
    else record s { current = some view }

abbrev pub new_route : ℕ → RouteState
new_route validator = record { validator = validator; current = none; votes = []; in_flight = [] }

-- What reaches a route, one at a time.
pub data Event : Type 0 where
  refreshes : Option OnChain → Event
  votes_for : SetUpdateVote → Bool → Event

abbrev pub cons_some : Option Submission → List Submission → List Submission
cons_some none subs = subs
cons_some (some sub) subs = sub ∷ subs

unfoldable pub run : Crypto → UpdateDigest → List Event → RouteState → RouteState × List Submission
run x h [] s = (s, [])
run x h (refreshes view ∷ es) s = run x h es (refresh view s)
run x h (votes_for vote ok ∷ es) s =
    let (s', sub) = handle_vote x h ok vote s in
    let (s'', subs) = run x h es s' in (s'', cons_some sub subs)

-- The routes by chain key; a vote for another is dropped.
unfoldable pub handle_vote_at :
    Crypto
    → UpdateDigest
    → Bool
    → SetUpdateVote
    → Map RouteState
    → Map RouteState × Option Submission
handle_vote_at x h ok vote states = elim (lookup vote.chain_key states) [
  | none ↦ (states, none)
  | some s ↦ let (s', sub) = handle_vote x h ok vote s in (insert vote.chain_key s' states, sub)
]
