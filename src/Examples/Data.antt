-- ===== src/Examples/Data.antt =====
-- A route with three attestors, its messages and votes, and a stand-in for the signature library
-- that recovers the first byte of a signature.
use asc_message_relayer.Prelude.{ℕ, suc, zero, List, [], ◌∷◌, ◌++◌, get_elem?}
use asc_message_relayer.Types.{Bytes, Crypto, IndexedMessage, MessageVote, RouteAttestors}
use asc_message_relayer.Pool.Slot.{RouteState}
use asc_message_relayer.Pool.Invariant.{RouteInv}
use asc_message_relayer.Pool.Admission.{note_indexed}
use asc_message_relayer.Pool.Admission.Index.{note_indexed-Sound}
use asc_message_relayer.Pool.Voting.{note_vote}
use asc_message_relayer.Pool.Voting.Sound.{note_vote-Sound}
use asc_message_relayer.Pool.State.{empty_route}
use asc_message_relayer.Pool.State.Invariant.{empty_route-RouteInv}

abbrev joined : List Bytes → Bytes
joined [] = []
joined (b ∷ bs) = b ++ joined bs

abbrev pub crypto : Crypto
crypto = record { recover_address = λ hash raw. get_elem? raw 0; abi_encode = joined }

abbrev pub zeros : ℕ → Bytes
zeros zero = []
zeros (suc n) = 0 ∷ zeros n

abbrev pub signature_of : ℕ → Bytes
signature_of a = a ∷ zeros 63 ++ 27 ∷ []

abbrev pub set : RouteAttestors
set = record { chain_key = 7; attestors = 1 ∷ 2 ∷ 3 ∷ []; threshold = 2 }

abbrev pub message : ℕ → IndexedMessage
message id = record {
  chain_key = 7;
  message_id = id;
  emitter = 100;
  outbox = 101;
  sequence = id;
  destination_chain_key = 8;
  creditcoin_chain_id = 42;
  payload = 5 ∷ 6 ∷ [];
  tx_hash = 77;
  block_height = 9;
}

abbrev pub vote_of : ℕ → ℕ → MessageVote
vote_of id a = record { chain_key = 7; message_id = id; signer = a; signature = signature_of a }

-- The route at its start, with message 5 indexed, with one vote, and with the two it needs.
abbrev pub idle_route : RouteState
idle_route = empty_route set 1

abbrev pub indexed_route : RouteState
indexed_route = (note_indexed crypto 7 (message 5) 10 idle_route).0

abbrev pub voted_route : RouteState
voted_route = (note_vote crypto (vote_of 5 1) 20 indexed_route).0

abbrev pub launched_route : RouteState
launched_route = (note_vote crypto (vote_of 5 2) 30 voted_route).0

pub idle_route-RouteInv : RouteInv crypto idle_route
idle_route-RouteInv = empty_route-RouteInv crypto set 1

pub indexed_route-RouteInv : RouteInv crypto indexed_route
indexed_route-RouteInv =
    (note_indexed-Sound crypto 7 (message 5) 10 idle_route idle_route-RouteInv).inv

pub voted_route-RouteInv : RouteInv crypto voted_route
voted_route-RouteInv =
    (note_vote-Sound crypto (vote_of 5 1) 20 indexed_route indexed_route-RouteInv).inv

pub launched_route-RouteInv : RouteInv crypto launched_route
launched_route-RouteInv =
    (note_vote-Sound crypto (vote_of 5 2) 30 voted_route voted_route-RouteInv).inv
