-- ===== src/Ack/Attempt/Justified.antt =====
-- When `acknowledge_tx` of message-relayer/src/ack/mod.rs gives up a delivery, and when it keeps it.
use asc_message_relayer.Prelude.{
  ℕ, ◌<◌, ◌≡◌, ◌∙◌, ap, refl, Bool, true, false, not, ◌&&◌, Option, none, some, List, [], ◌∷◌, ltb,
  arith, Bool-cases, Option-cases, inl, inr, All, if_both,
}
use asc_message_relayer.Ack.{DeliveryEvent}
use asc_message_relayer.Ack.Worker.{AckOutcome, acknowledged, not_ready, rejected, terminal, failed}
use asc_message_relayer.Ack.Routes.{SourceReads, Route, Resolution, validators}
use asc_message_relayer.Ack.Attempt.{
  SettlementMode, ack, ack_and_claim, World, Proof, ProofFetch, proof_ready, proof_not_ready,
  proof_rejected, proof_error, MessageInfo, is_owed, and_id, relay_claimable_ids, ids_of, resolved,
  claims_of, is_empty, unacknowledged, unclaimed, when_failed, settle, with_length, with_proof,
  acknowledge_tx, max_encoded_transaction_bytes, Submission,
}
use asc_message_relayer.Ack.Routes.Acked.{Acked, Complete, loop-Acked}

-- A read that shows no fee owed.
abbrev pub NotOwed : Option MessageInfo → Type 0
NotOwed none = ⊥
NotOwed (some i) = is_owed i ≡ false

-- What the source showed, after the submissions, of the fees that the attempt was to claim.
abbrev pub Claimed : SettlementMode → World → List ℕ → Type 0
Claimed ack w claims = Unit {0}
Claimed ack_and_claim w claims = All (λ id. NotOwed (w.info_after id)) claims

-- What an outcome says. Only the first three give the delivery up.
pub data Justified (route : Route) (mode : SettlementMode) (w : World)
    (messages : List DeliveryEvent) : AckOutcome → Type 0 where
  settled :
      All (Acked route w.source_after) (ids_of true messages)
      → Claimed mode w (claims_of mode w (ids_of false messages))
      → Justified route mode w messages acknowledged
  nothing_to_settle :
      All (Acked route w.source) (ids_of true messages)
      → claims_of mode w (ids_of false messages) ≡ []
      → Justified route mode w messages terminal
  too_long :
      (p : Proof) (length : ℕ)
      → w.fetch ≡ proof_ready p
      → p.encoded_length ≡ some length
      → max_encoded_transaction_bytes < length
      → Justified route mode w messages terminal
  kept_not_ready : w.fetch ≡ proof_not_ready → Justified route mode w messages not_ready
  kept_rejected : w.fetch ≡ proof_rejected → Justified route mode w messages rejected
  kept_failed : Justified route mode w messages failed

is_empty-true : (xs : List ℕ) → is_empty xs ≡ true → xs ≡ []
is_empty-true [] h = refl
is_empty-true (x ∷ xs) h = absurd (cc)

module _ (info : ℕ → Option MessageInfo) where
  and_id-nil :
      (owed : Bool) (id : ℕ) (rest : Option (List ℕ))
      → and_id owed id rest ≡ some []
      → (owed ≡ false) × (rest ≡ some [])
  and_id-nil owed id none h = absurd (cc)
  and_id-nil true id (some rest) h = absurd (never (cc))
    where
      never : id ∷ rest ≡ [] → ⊥
      never q = cc
  and_id-nil false id (some rest) h = (refl, h)

  relay_claimable_ids-none_owed :
      (ids : List ℕ) → relay_claimable_ids info ids ≡ some [] → All (λ id. NotOwed (info id)) ids
  unfolding relay_claimable_ids
  relay_claimable_ids-none_owed [] h = tt
  relay_claimable_ids-none_owed (id ∷ ids) h = elim (Option-cases (info id)) [
    | inl n ↦ let bad : none ≡ some [] = rw (n, relay_claimable_ids) at h in absurd (cc)
    | inr (i, q) ↦
        let h' : and_id (is_owed i) id (relay_claimable_ids info ids) ≡ some [] =
          rw (q, relay_claimable_ids) at h in
        let (owed, rest) = and_id-nil (is_owed i) id (relay_claimable_ids info ids) h' in
        (rw (q, owed), relay_claimable_ids-none_owed ids rest)
  ]

module _ (route : Route) (source : SourceReads) where
  resolved-Acked :
      (ids : List ℕ) → Complete (resolved route source ids) → All (Acked route source) ids
  unfolding validators
  resolved-Acked [] h = tt
  resolved-Acked (id ∷ ids) h =
      (loop-Acked route source (id ∷ ids) (record { authorities = []; failure = false }) h).0

module _ (route : Route) (mode : SettlementMode) (w : World) (messages : List DeliveryEvent) where
  abbrev executed : List ℕ
  executed = ids_of true messages

  abbrev claims : List ℕ
  claims = claims_of mode w (ids_of false messages)

  abbrev Says : AckOutcome → Type 0
  Says = Justified route mode w messages

  when_failed-Says :
      (failure : Bool) (o : AckOutcome) → (failure ≡ false → Says o) → Says (when_failed failure o)
  when_failed-Says true o h = kept_failed
  when_failed-Says false o h = h refl

  acknowledged-Complete :
      unacknowledged route w executed ≡ false → Complete (resolved route w.source_after executed)
  acknowledged-Complete h = (
    is_empty-true (resolved route w.source_after executed).authorities (ground (arith, h)),
    ground (arith, h),
  )

  unclaimed-Claimed :
      (m : SettlementMode) (ids : List ℕ) → unclaimed m w ids ≡ false → Claimed m w ids
  unclaimed-Claimed ack ids h = tt
  unclaimed-Claimed ack_and_claim ids h =
      elim (Option-cases (relay_claimable_ids w.info_after ids)) [
        | inl n ↦ let bad : true ≡ false = rw n at h in absurd (cc)
        | inr (rest, q) ↦
            let empty : is_empty rest ≡ true =
              (let h' : not (is_empty rest) ≡ false = rw q at h in ground (arith, h')) in
            relay_claimable_ids-none_owed w.info_after ids (q ∙ ap some (is_empty-true rest empty))
      ]

  settle-Says :
      (converts : Bool) (routes : Resolution)
      → Says (settle route mode w converts executed routes claims).0
  unfolding settle
  settle-Says converts routes =
      if_both {A = AckOutcome × List Submission} (λ r. Says r.0)
        (not converts && not (is_empty routes.authorities && is_empty claims)) _ _ kept_failed
        (when_failed-Says _ acknowledged (λ h.
          settled
            (resolved-Acked route w.source_after executed
              (acknowledged-Complete (ground (arith, h))))
            (unclaimed-Claimed mode claims (ground (arith, h)))))

  with_proof-Says :
      (fetch : ProofFetch) (routes : Resolution)
      → w.fetch ≡ fetch
      → Says (with_proof route mode w fetch executed routes claims).0
  with_proof-Says (proof_ready p) routes e = with_length-Says p.encoded_length refl
    where
      with_length-Says :
          (length : Option ℕ)
          → p.encoded_length ≡ length
          → Says (with_length route mode w p.converts length executed routes claims).0
      with_length-Says none q = kept_failed
      with_length-Says (some length) q =
          elim (Bool-cases (ltb max_encoded_transaction_bytes length)) [
            | inl over ↦ rw over (too_long p length e q (ground (arith, over)))
            | inr fits ↦ rw fits (settle-Says p.converts routes)
          ]
  with_proof-Says proof_not_ready routes e =
      when_failed-Says routes.failure not_ready (λ h. kept_not_ready e)
  with_proof-Says proof_rejected routes e =
      when_failed-Says routes.failure rejected (λ h. kept_rejected e)
  with_proof-Says proof_error routes e = kept_failed

  -- An attempt acknowledges a delivery only if reads after the submissions show, for each executed
  -- message, a record on a candidate Outbox that needs no acknowledgement and, where fees are
  -- claimed, none owed; it is terminal only if earlier reads show this or the proof is too long;
  -- else it is kept.
  pub acknowledge_tx-Justified :
      Justified route mode w messages (acknowledge_tx route mode w messages).0
  unfolding acknowledge_tx
  acknowledge_tx-Justified =
      let routes = resolved route w.source executed in
      elim (Bool-cases (is_empty claims && is_empty routes.authorities)) [
        | inr busy ↦ rw busy (with_proof-Says w.fetch routes refl)
        | inl idle ↦ elim (Bool-cases routes.failure) [
          | inl f ↦ rw (idle, f) kept_failed
          | inr f ↦
              rw (idle, f)
                (nothing_to_settle
                  (resolved-Acked route w.source executed
                    (is_empty-true routes.authorities (ground (arith, idle)), f))
                  (is_empty-true claims (ground (arith, idle))))
        ]
      ]
