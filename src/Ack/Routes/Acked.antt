-- ===== src/Ack/Routes/Acked.antt =====
-- What a complete resolution of message-relayer/src/ack/routes.rs has seen of each message.
use asc_message_relayer.Prelude.{
  ℕ, ◌≡◌, refl, true, false, not, ◌&&◌, Option, none, some, List, [], ◌∷◌, ltb, ◌==◌, arith,
  Bool-cases, inl, inr, All, contains, ==_refl, if_both,
}
use asc_message_relayer.Ack.Routes.{
  OutboxMessage, MessageRead, found, not_found, read_failed, SourceReads, Route, Resolved,
  authority, not_needed, unknown, is_original, from_read, bound_validator, validator_for, insert_id,
  Resolution, added, validators_loop, is_value,
}

-- The reads show a record that is the message's own and asks for no acknowledgement, or has it.
pub record Acked (route : Route) (source : SourceReads) (id : ℕ) : Type 0 where
  pub outbox : ℕ
  pub message : OutboxMessage
  pub is_candidate : contains route.candidates outbox ≡ true
  pub reads : source.get_message outbox id ≡ found message
  pub is_own : is_original route outbox id message ≡ true
  pub is_complete : (message.can_ack && not message.acknowledged) ≡ false

abbrev pub Complete : Resolution → Type 0
Complete r = (r.authorities ≡ []) × (r.failure ≡ false)

abbrev IsFilled : List ℕ → Type 0
IsFilled xs = xs ≡ [] → ⊥

cons-IsFilled : (x : ℕ) (xs : List ℕ) → IsFilled (x ∷ xs)
cons-IsFilled x xs q = cc

insert_id-IsFilled : (a : ℕ) (xs : List ℕ) → IsFilled (insert_id a xs)
unfolding insert_id
insert_id-IsFilled a [] = cons-IsFilled a []
insert_id-IsFilled a (x ∷ xs) =
    if_both IsFilled (ltb a x) _ _ (cons-IsFilled a (x ∷ xs))
      (if_both IsFilled (a == x) _ _ (cons-IsFilled x xs) (cons-IsFilled x (insert_id a xs)))

module _ (route : Route) (source : SourceReads) where
  abbrev IsNeeded : Resolved → Type 0
  IsNeeded r = r ≡ not_needed → ⊥

  unknown-IsNeeded : IsNeeded unknown
  unknown-IsNeeded q = cc

  authority-IsNeeded : (a : ℕ) → IsNeeded (authority a)
  authority-IsNeeded a q = cc

  bound-IsNeeded : (outbox : ℕ) (v : Option ℕ) → IsNeeded (bound_validator route source outbox v)
  bound-IsNeeded outbox none = unknown-IsNeeded
  bound-IsNeeded outbox (some a) = if_both IsNeeded (a == 0) _ _ unknown-IsNeeded (
      if_both IsNeeded (not (is_value (source.bound_outbox a) outbox)) _ _ unknown-IsNeeded (
        if_both IsNeeded (not (is_value (source.bound_destination a) route.destination_chain_key)) _
          _ unknown-IsNeeded (authority-IsNeeded a)))

  from_read-Acked :
      (id o : ℕ) (read : MessageRead) (rest : Resolved)
      → contains route.candidates o ≡ true
      → source.get_message o id ≡ read
      → (rest ≡ not_needed → Acked route source id)
      → from_read route source o id read rest ≡ not_needed
      → Acked route source id
  from_read-Acked id o not_found rest c e later h = later h
  from_read-Acked id o read_failed rest c e later h = later h
  from_read-Acked id o (found m) rest c e later h = elim (Bool-cases (is_original route o id m)) [
    | inr other ↦ later (rw other at h)
    | inl own ↦ elim (Bool-cases (m.can_ack && not m.acknowledged)) [
      | inl wanted ↦
          let needed : bound_validator route source o (source.validator o) ≡ not_needed =
            rw (own, wanted) at h in
          absurd (bound-IsNeeded o (source.validator o) needed)
      | inr closed ↦ record {
        outbox = o;
        message = m;
        is_candidate = c;
        reads = e;
        is_own = own;
        is_complete = closed;
      }
    ]
  ]

  not_needed-Acked :
      (id : ℕ) (outboxes : List ℕ)
      → ((outbox : ℕ) → contains outboxes outbox ≡ true → contains route.candidates outbox ≡ true)
      → validator_for route source id outboxes ≡ not_needed
      → Acked route source id
  unfolding validator_for
  not_needed-Acked id [] sub h = absurd (cc)
  not_needed-Acked id (o ∷ os) sub h =
      from_read-Acked id o (source.get_message o id) (validator_for route source id os)
        (sub o (ground (arith, ==_refl o))) refl
        (not_needed-Acked id os (λ p m. sub p (ground (arith, m)))) h

  -- A resolution that is complete in the end was so all along.
  added-Complete :
      (v : Resolved) (r : Resolution) → Complete (added v r) → (v ≡ not_needed) × Complete r
  added-Complete (authority a) r h = absurd (insert_id-IsFilled a r.authorities h.0)
  added-Complete not_needed r h = (refl, h)
  added-Complete unknown r h = absurd (let bad : true ≡ false = h.1 in cc)

  pub loop-Acked :
      (ids : List ℕ) (r : Resolution)
      → Complete (validators_loop route source ids r)
      → All (Acked route source) ids × Complete r
  unfolding validators_loop
  loop-Acked [] r h = (tt, h)
  loop-Acked (id ∷ ids) r h =
      let v = validator_for route source id route.candidates in
      let (rest, kept) = loop-Acked ids (added v r) h in
      let (e, before) = added-Complete v r kept in
      ((not_needed-Acked id route.candidates (λ o m. m) e, rest), before)
