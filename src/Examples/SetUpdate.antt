-- ===== src/Examples/SetUpdate.antt =====
-- An attestor-set update at concrete attestors.
use asc_message_relayer.Prelude.{
  ℕ, ◌≡◌, refl, true, Option, none, some, List, [], ◌∷◌, contains, arith,
}
use asc_message_relayer.Types.{Bytes, Crypto}
use asc_message_relayer.SetUpdate.{
  SetUpdateVote, OnChain, UpdateDigest, Event, refreshes, votes_for, new_route, run,
  canonical_attestor_order,
}
use asc_message_relayer.SetUpdate.Sound.{Backing, run-new-Backing}
use asc_message_relayer.SetUpdate.Canonical.{Rising, canonical_attestor_order_unique}
use asc_message_relayer.SetUpdate.Single.{Single, run-Single}

-- A signature of 65 bytes; the signer is its first byte.
abbrev zeros : ℕ → Bytes → Bytes
zeros ℕ.zero rest = rest
zeros (ℕ.suc n) rest = 0 ∷ zeros n rest

abbrev signed_by : ℕ → Bytes
signed_by a = a ∷ zeros 63 (27 ∷ [])

abbrev first_byte : Bytes → Option ℕ
first_byte [] = none
first_byte (b ∷ bs) = some b

abbrev crypto : Crypto
crypto = record { recover_address = λ hash raw. first_byte raw; abi_encode = λ bs. [] }

abbrev digest : UpdateDigest
digest validator attestors chain nonce = nonce

abbrev view : OnChain
view = record { attestors = 1 ∷ 2 ∷ 3 ∷ []; threshold = 2; nonce = 6; chain_id = 9 }

abbrev set_at : ℕ → List ℕ
set_at nonce = 1 ∷ 2 ∷ 3 ∷ []

abbrev vote : ℕ → SetUpdateVote
vote a = record {
  chain_key = 2;
  new_attestors = 5 ∷ 4 ∷ 5 ∷ [];
  nonce = 6;
  signer = a;
  signature = signed_by a;
}

-- The third vote would reach the threshold again.
abbrev history : List Event
history =
    refreshes (some view)
    ∷ votes_for (vote 1) true
    ∷ votes_for (vote 2) true
    ∷ refreshes none
    ∷ votes_for (vote 3) true
    ∷ votes_for (vote 1) true
    ∷ []

run-new-Backing_example :
    Backing crypto digest set_at none history
      (new_route 8)
      (run crypto digest history (new_route 8)).1
run-new-Backing_example =
    run-new-Backing crypto digest set_at history 8 (refl, (tt, (tt, (tt, (tt, (tt, tt))))))

run-Single_example : Single (run crypto digest history (new_route 8)).1
run-Single_example =
    run-Single crypto digest 6 history (new_route 8)
      (refl, (refl, (refl, (tt, (refl, (refl, tt)))))) tt

canonical_attestor_order_unique_example :
    Rising (canonical_attestor_order (5 ∷ 4 ∷ 5 ∷ []))
    × ((a : ℕ)
        → contains (canonical_attestor_order (5 ∷ 4 ∷ 5 ∷ [])) a ≡ contains (5 ∷ 4 ∷ 5 ∷ []) a)
    × (canonical_attestor_order (5 ∷ 4 ∷ 5 ∷ []) ≡ canonical_attestor_order (4 ∷ 5 ∷ []))
canonical_attestor_order_unique_example =
    canonical_attestor_order_unique (5 ∷ 4 ∷ 5 ∷ []) (4 ∷ 5 ∷ []) same_members
  where
    same_members : (a : ℕ) → contains (5 ∷ 4 ∷ 5 ∷ []) a ≡ contains (4 ∷ 5 ∷ []) a
    same_members a = ground arith
