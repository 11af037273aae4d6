-- ===== src/Ack/Discovery.antt =====
-- What the scans of message-relayer/src/ack/mod.rs find: decoding, and what is done with each log.
use asc_message_relayer.Prelude.{
  ℕ, ◌≤◌, ◌≡◌, ◌⊎◌, sym, refl, not, ◌||◌, Option, none, some, List, [], ◌∷◌, ◌++◌, ◌==◌, arith,
  Bool-cases, Option-cases, inl, inr, All, All-append,
}
use mathlib.Core.Path.{subst}
use asc_message_relayer.Ack.{
  InboxEvents, RpcLog, EventName, Decoded, DeliveryEvent, event_of, decode_delivery_log, outside,
  at_block, located, decode_one, decode_range,
}

-- Some entry of a list meets a predicate.
abbrev pub AnyOf {ℓ} : {A : Type ℓ} → (A → Type 0) → List A → Type 0
AnyOf P [] = ⊥
AnyOf P (x ∷ xs) = P x ⊎ AnyOf P xs

module _ {A : Type 0} (P : A → Type 0) where
  AnyOf-append_left : (xs ys : List A) → AnyOf P xs → AnyOf P (xs ++ ys)
  AnyOf-append_left [] ys a = absurd a
  AnyOf-append_left (x ∷ xs) ys (inl p) = inl p
  AnyOf-append_left (x ∷ xs) ys (inr a) = inr (AnyOf-append_left xs ys a)

  AnyOf-append_right : (xs ys : List A) → AnyOf P ys → AnyOf P (xs ++ ys)
  AnyOf-append_right [] ys a = a
  AnyOf-append_right (x ∷ xs) ys a = inr (AnyOf-append_right xs ys a)

-- A log names the block of its transaction.
abbrev pub Mined : (ℕ → ℕ) → RpcLog → Type 0
Mined block_of log =
    (tx block : ℕ)
    → log.transaction_hash ≡ some tx
    → log.block_number ≡ some block
    → block ≡ block_of tx

abbrev pub ShowsEvent : DeliveryEvent → Option (Option (EventName × ℕ)) → Type 0
ShowsEvent ev none = Unit {0}
ShowsEvent ev (some none) = ⊥
ShowsEvent ev (some (some e)) = event_of e ≡ ev

-- A log of a transaction that shows a delivery event, or fails to decode as one.
abbrev pub Shows : InboxEvents → ℕ → DeliveryEvent → RpcLog → Type 0
Shows x tx ev log = (log.transaction_hash ≡ some tx) × ShowsEvent ev (decode_delivery_log x log)

-- The decoded transaction and event.
abbrev pub IsDecoded : ℕ → DeliveryEvent → Decoded → Type 0
IsDecoded tx ev d = (d.tx_hash ≡ tx) × (d.event ≡ ev)

abbrev pub Placed : (ℕ → ℕ) → ℕ → ℕ → Decoded → Type 0
Placed block_of from to d = (d.block ≡ block_of d.tx_hash) × (from ≤ d.block) × (d.block ≤ to)

-- What a log that passes the checks is decoded to.
data DecodedOne (x : InboxEvents) (from to : ℕ) (log : RpcLog) (ds : List Decoded) : Type 0 where
  ignored : decode_delivery_log x log ≡ some none → ds ≡ [] → DecodedOne x from to log ds
  kept :
      (tx block : ℕ) (e : EventName × ℕ)
      → log.transaction_hash ≡ some tx
      → log.block_number ≡ some block
      → decode_delivery_log x log ≡ some (some e)
      → from ≤ block
      → block ≤ to
      → ds ≡ record { tx_hash = tx; block = block; event = event_of e } ∷ []
      → DecodedOne x from to log ds

module _ (x : InboxEvents) (inbox from to : ℕ) where
  at_block-DecodedOne :
      (log : RpcLog) (tx block : ℕ) {ds : List Decoded}
      → log.transaction_hash ≡ some tx
      → log.block_number ≡ some block
      → from ≤ block
      → block ≤ to
      → at_block x log tx block ≡ some ds
      → DecodedOne x from to log ds
  at_block-DecodedOne log tx block {ds} ht hb low high h =
      elim (Option-cases (decode_delivery_log x log)) [
        | inl n ↦ let bad : none ≡ some ds = rw (n, at_block) at h in absurd (cc)
        | inr (none, q) ↦ let is : some [] ≡ some ds = rw (q, at_block) at h in ignored q (cc)
        | inr (some e, q) ↦
            let is : some (record { tx_hash = tx; block = block; event = event_of e } ∷ [])
                ≡ some ds =
              rw (q, at_block) at h in
            kept tx block e ht hb q low high (cc)
      ]

  located-DecodedOne :
      (log : RpcLog) (hash number : Option ℕ) {ds : List Decoded}
      → log.transaction_hash ≡ hash
      → log.block_number ≡ number
      → located x from to log hash number ≡ some ds
      → DecodedOne x from to log ds
  located-DecodedOne log none number t b h = absurd (cc)
  located-DecodedOne log (some tx) none t b h = absurd (cc)
  located-DecodedOne log (some tx) (some block) {ds} t b h =
      elim (Bool-cases (outside from to block)) [
        | inl o ↦ let bad : none ≡ some ds = rw o at h in absurd (cc)
        | inr o ↦
            at_block-DecodedOne log tx block t b (ground (arith, o)) (ground (arith, o)) (rw o at h)
      ]

  decode_one-DecodedOne :
      (log : RpcLog) {ds : List Decoded}
      → decode_one x inbox from to log ≡ some ds
      → DecodedOne x from to log ds
  decode_one-DecodedOne log {ds} h = elim (Bool-cases (not (log.address == inbox) || log.removed)) [
    | inl q ↦ let bad : none ≡ some ds = rw q at h in absurd (cc)
    | inr q ↦ located-DecodedOne log log.transaction_hash log.block_number refl refl (rw q at h)
  ]

  -- A range that decodes: the log and the rest of them.
  decode_range-cons :
      (log : RpcLog) (logs : List RpcLog) {ds : List Decoded}
      → decode_range x inbox from to (log ∷ logs) ≡ some ds
      → (first : List Decoded) × (rest : List Decoded) × (decode_one x inbox from to log
          ≡ some first)
        × (decode_range x inbox from to logs ≡ some rest)
        × (ds ≡ first ++ rest)
  unfolding decode_range
  decode_range-cons log logs {ds} h = elim (Option-cases (decode_one x inbox from to log)) [
    | inl n ↦ let bad : none ≡ some ds = rw n at h in absurd (cc)
    | inr (first, q) ↦ elim (Option-cases (decode_range x inbox from to logs)) [
      | inl n ↦ let bad : none ≡ some ds = rw (q, n) at h in absurd (cc)
      | inr (rest, r) ↦
          let is : some (first ++ rest) ≡ some ds = rw (q, r) at h in (first, rest, q, r, (cc))
    ]
  ]

  module _ (block_of : ℕ → ℕ) where
    decode_one-Placed :
        (log : RpcLog) (ds : List Decoded)
        → Mined block_of log
        → DecodedOne x from to log ds
        → All (Placed block_of from to) ds
    decode_one-Placed log ds m (ignored n e) = subst (All (Placed block_of from to)) (sym e) tt
    decode_one-Placed log ds m (kept tx block e ht hb de low high q) =
        subst (All (Placed block_of from to)) (sym q) ((m tx block ht hb, low, high), tt)

    decode_one-finds :
        (tx : ℕ) (ev : DeliveryEvent) (log : RpcLog) (ds : List Decoded)
        → Shows x tx ev log
        → DecodedOne x from to log ds
        → AnyOf (IsDecoded tx ev) ds
    decode_one-finds tx ev log ds s (ignored n e) = absurd (subst (ShowsEvent ev) n s.1)
    decode_one-finds tx ev log ds s (kept tx' block e ht hb de low high q) =
        let same : tx' ≡ tx = (let t = s.0 in cc) in
        subst (AnyOf (IsDecoded tx ev)) (sym q) (inl (same, subst (ShowsEvent ev) de s.1))

    pub decode_range-Placed :
        (logs : List RpcLog) {ds : List Decoded}
        → All (Mined block_of) logs
        → decode_range x inbox from to logs ≡ some ds
        → All (Placed block_of from to) ds
    unfolding decode_range
    decode_range-Placed [] {ds} m h =
        let e : [] ≡ ds = cc in subst (All (Placed block_of from to)) e tt
    decode_range-Placed (log ∷ logs) {ds} m h =
        let (first, rest, q, r, e) = decode_range-cons log logs h in
        subst (All (Placed block_of from to)) (sym e) (
          All-append (Placed block_of from to) first rest
            (decode_one-Placed log first m.0 (decode_one-DecodedOne log q))
            (decode_range-Placed logs {ds = rest} m.1 r))

    pub decode_range-finds :
        (tx : ℕ) (ev : DeliveryEvent) (logs : List RpcLog) {ds : List Decoded}
        → AnyOf (Shows x tx ev) logs
        → decode_range x inbox from to logs ≡ some ds
        → AnyOf (IsDecoded tx ev) ds
    unfolding decode_range
    decode_range-finds tx ev [] a h = absurd a
    decode_range-finds tx ev (log ∷ logs) {ds} a h =
        let (first, rest, q, r, e) = decode_range-cons log logs h in
        subst (AnyOf (IsDecoded tx ev)) (sym e) (elim a [
          | inl s ↦
              AnyOf-append_left _ first rest
                (decode_one-finds tx ev log first s (decode_one-DecodedOne log q))
          | inr s ↦ AnyOf-append_right _ first rest (decode_range-finds tx ev logs {ds = rest} s r)
        ])
