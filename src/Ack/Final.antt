-- ===== src/Ack/Final.antt =====
-- The outcomes with which message-relayer/src/ack/mod.rs is done with a transaction, and the attempts
-- that they come from.
use mathlib.Core.Path.{subst}
use asc_message_relayer.Prelude.{
  ℕ, ◌≡◌, ap, true, List, [], ◌∷◌, arith, Bool-cases, inl, inr, All, contains,
}
use asc_message_relayer.Ack.{DeliveryEvent, AckConfig, AckState}
use asc_message_relayer.Ack.Worker.{
  AckOutcome, acknowledged, terminal, not_ready, rejected, failed, apply_result, apply_results,
}
use asc_message_relayer.Ack.Discovery.{AnyOf}
use asc_message_relayer.Ack.Lossless.Process.{contains-++}
use asc_message_relayer.Ack.Routes.{Route}
use asc_message_relayer.Ack.Attempt.{SettlementMode, World, acknowledge_tx}

-- The outcomes that give a delivery up.
abbrev pub IsFinal : AckOutcome → Type 0
IsFinal acknowledged = Unit {0}
IsFinal terminal = Unit {0}
IsFinal not_ready = ⊥
IsFinal rejected = ⊥
IsFinal failed = ⊥

-- A result that gives a transaction up.
abbrev pub Final : ℕ → ℕ × AckOutcome → Type 0
Final tx r = (r.0 ≡ tx) × IsFinal r.1

module _ (cfg : AckConfig) (now tx : ℕ) where
  apply_result-Final :
      (hash : ℕ) (o : AckOutcome) (s : AckState)
      → contains (apply_result cfg now hash o s).1 tx ≡ true
      → Final tx (hash, o)
  unfolding apply_result
  apply_result-Final hash acknowledged s c = (ground (arith, c), tt)
  apply_result-Final hash terminal s c = (ground (arith, c), tt)
  apply_result-Final hash not_ready s c = absurd (cc)
  apply_result-Final hash rejected s c = absurd (cc)
  apply_result-Final hash failed s c = absurd (cc)

  pub apply_results-Final :
      (results : List (ℕ × AckOutcome)) (s : AckState)
      → contains (apply_results cfg now results s).1 tx ≡ true
      → AnyOf (Final tx) results
  unfolding apply_results
  apply_results-Final [] s c = absurd (cc)
  apply_results-Final ((hash, o) ∷ results) s c =
      let s' = (apply_result cfg now hash o s).0 in
      let first = (apply_result cfg now hash o s).1 in
      let rest = (apply_results cfg now results s').1 in
      elim (Bool-cases (contains first tx)) [
        | inl f ↦ inl (apply_result-Final hash o s f)
        | inr f ↦
            inr (apply_results-Final results s' (ground (arith, contains-++ first rest tx, c, f)))
      ]

-- A result is that of the attempt at an entry of the batch, given what each attempt reads.
pub record FromAttempt (route : Route) (mode : SettlementMode) (reads : ℕ → World)
    (jobs : List (ℕ × List DeliveryEvent)) (r : ℕ × AckOutcome) : Type 0 where
  pub meta : List DeliveryEvent
  pub in_batch : AnyOf (λ j. j ≡ (r.0, meta)) jobs
  pub outcome_is : r.1 ≡ (acknowledge_tx route mode (reads r.0) meta).0

module _ (route : Route) (mode : SettlementMode) (reads : ℕ → World) (tx : ℕ) where
  -- The final result of a transaction among those of a batch.
  pub pick :
      (jobs : List (ℕ × List DeliveryEvent)) (results : List (ℕ × AckOutcome))
      → All (FromAttempt route mode reads jobs) results
      → AnyOf (Final tx) results
      → (o : AckOutcome) × AnyOf (λ r. r ≡ (tx, o)) results
        × IsFinal o
        × FromAttempt route mode reads jobs (tx, o)
  pick jobs [] h a = absurd a
  pick jobs ((hash, o) ∷ results) h (inl f) = (
    o,
    inl (ap (λ k. (k, o)) f.0),
    f.1,
    subst (λ k. FromAttempt route mode reads jobs (k, o)) f.0 h.0,
  )
  pick jobs (r ∷ results) h (inr a) =
      let (o, found, f, from) = pick jobs results h.1 a in (o, inr found, f, from)
