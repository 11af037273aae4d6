-- ===== src/Pacing/Errors.antt =====
-- The recognition of error codes in a text: `contains_standalone` of message-relayer/src/pacing.rs.
-- A text is the list of its bytes.
use asc_message_relayer.Prelude.{
  ℕ, zero, suc, ◌+◌, ◌-◌, ◌≤◌, ◌<◌, ◌≡◌, refl, sym, ap, ◌∙◌, Bool, true, false, ◌&&◌, ◌||◌, not,
  Option, none, some, List, [], ◌∷◌, ◌==◌, ltb, leb, length, drop, get_elem?, if◌then◌else◌, arith,
  Bool-cases, Option-cases, inl, inr, ◌↔◌, ==_iff, ltb→lt,
}

-- `is_ascii_alphanumeric`.
abbrev pub is_alphanumeric : ℕ → Bool
is_alphanumeric c = (leb 48 c && leb c 57) || ((leb 65 c && leb c 90) || (leb 97 c && leb c 122))

unfoldable pub starts_with : List ℕ → List ℕ → Bool
starts_with [] text = true
starts_with (n ∷ needle) [] = false
starts_with (n ∷ needle) (c ∷ text) = n == c && starts_with needle text

abbrev pub suc_opt : Option ℕ → Option ℕ
suc_opt none = none
suc_opt (some i) = some (suc i)

-- `str::find`.
unfoldable pub find : List ℕ → List ℕ → Option ℕ
find needle [] = if starts_with needle [] then some 0 else none
find needle (c ∷ text) =
    let rest = find needle text in if starts_with needle (c ∷ text) then some 0 else suc_opt rest

abbrev pub alphanumeric_at : List ℕ → ℕ → Bool
alphanumeric_at text i = elim (get_elem? text i) [ none ↦ false | some c ↦ is_alphanumeric c ]

abbrev pub before_ok : List ℕ → ℕ → Bool
before_ok text i = i == 0 || not (alphanumeric_at text (i - 1))

abbrev pub after_ok : List ℕ → ℕ → Bool
after_ok text after = leb (length text) after || not (alphanumeric_at text after)

abbrev pub bounded_at : List ℕ → List ℕ → ℕ → Bool
bounded_at needle text i = before_ok text i && after_ok text (i + length needle)

-- The `while` loop; each round moves `start` on, so one more than the length is enough fuel.
unfoldable pub standalone_loop : ℕ → List ℕ → List ℕ → ℕ → Bool
standalone_loop zero needle text start = false
standalone_loop (suc fuel) needle text start = elim (find needle (drop start text)) [
  | none ↦ false
  | some pos ↦
      bounded_at needle text (start + pos) || standalone_loop fuel needle text (start + pos + 1)
]

unfoldable pub contains_standalone : List ℕ → List ℕ → Bool
contains_standalone text needle = standalone_loop (suc (length text)) needle text 0

-- An occurrence of the needle between bytes that are not alphanumeric.
abbrev pub Standalone : List ℕ → List ℕ → ℕ → Type 0
Standalone needle text i =
    (starts_with needle (drop i text) ≡ true) × (bounded_at needle text i ≡ true)

drop_nil : (i : ℕ) → drop {A = ℕ} i [] ≡ []
drop_nil zero = refl
drop_nil (suc i) = refl

drop-drop : (i j : ℕ) (text : List ℕ) → drop j (drop i text) ≡ drop (i + j) text
drop-drop zero j text = ap (λ k. drop k text) (omega arith)
drop-drop (suc i) j [] = drop_nil j ∙ sym (drop_nil (suc i + j))
drop-drop (suc i) j (c ∷ text) =
    let count : suc (i + j) ≡ suc i + j = omega arith in
    drop-drop i j text ∙ ap (λ k. drop k (c ∷ text)) count

drop-all : (i : ℕ) (text : List ℕ) → length text ≤ i → drop i text ≡ []
drop-all zero [] le = refl
drop-all zero (c ∷ text) le = absurd (omega (arith, le))
drop-all (suc i) [] le = refl
drop-all (suc i) (c ∷ text) le = drop-all i text (omega (arith, le))

find-matches :
    (needle text : List ℕ) (p : ℕ)
    → find needle text ≡ some p
    → starts_with needle (drop p text) ≡ true
unfolding find
find-matches needle [] p e = elim (Bool-cases (starts_with needle [])) [
  | inl h ↦ let q : some 0 ≡ some p = rw h at e in let z : p ≡ 0 = ground arith in rw z h
  | inr h ↦ let q : none ≡ some p = rw h at e in absurd (cc)
]
find-matches needle (c ∷ text) p e = elim (Bool-cases (starts_with needle (c ∷ text))) [
  | inl h ↦ let q : some 0 ≡ some p = rw h at e in let z : p ≡ 0 = ground arith in rw z h
  | inr h ↦
      let q : suc_opt (find needle text) ≡ some p = rw h at e in
      elim (Option-cases (find needle text)) [
        | inl n ↦ let bad : none ≡ some p = rw n at q in absurd (cc)
        | inr (k, n) ↦
            let same : some (suc k) ≡ some p = rw n at q in
            let z : p ≡ suc k = ground arith in rw z (find-matches needle text k n)
      ]
]

-- No occurrence is before the first one found, and none is there if none is found.
find-first :
    (n : ℕ) (needle text : List ℕ) (p j : ℕ)
    → find (n ∷ needle) text ≡ some p
    → j < p
    → starts_with (n ∷ needle) (drop j text) ≡ false
unfolding find starts_with
find-first n needle [] p j e lt = absurd (cc)
find-first n needle (c ∷ text) p zero e lt =
    elim (Bool-cases (starts_with (n ∷ needle) (c ∷ text))) [
      | inl h ↦ let q : some 0 ≡ some p = rw h at e in absurd (ground (arith, q, lt))
      | inr h ↦ h
    ]
find-first n needle (c ∷ text) p (suc j) e lt =
    elim (Bool-cases (starts_with (n ∷ needle) (c ∷ text))) [
      | inl h ↦ let q : some 0 ≡ some p = rw h at e in absurd (ground (arith, q, lt))
      | inr h ↦
          let q : suc_opt (find (n ∷ needle) text) ≡ some p = rw h at e in
          elim (Option-cases (find (n ∷ needle) text)) [
            | inl none_found ↦ let bad : none ≡ some p = rw none_found at q in absurd (cc)
            | inr (k, found) ↦
                let same : some (suc k) ≡ some p = rw found at q in
                let z : p ≡ suc k = ground arith in
                find-first n needle text k j found (omega (arith, z, lt))
          ]
    ]

find-none :
    (n : ℕ) (needle text : List ℕ) (j : ℕ)
    → find (n ∷ needle) text ≡ none
    → starts_with (n ∷ needle) (drop j text) ≡ false
unfolding find starts_with
find-none n needle [] zero e = refl
find-none n needle [] (suc j) e = refl
find-none n needle (c ∷ text) zero e = ground (arith, e)
find-none n needle (c ∷ text) (suc j) e = find-none n needle text j (ground (arith, e))

-- A match is within the text.
match-within :
    (n : ℕ) (needle text : List ℕ) (i : ℕ)
    → starts_with (n ∷ needle) (drop i text) ≡ true
    → i < length text
unfolding starts_with
match-within n needle text i m = elim (Bool-cases (ltb i (length text))) [
  | inl e ↦ ground (arith, e)
  | inr e ↦
      let gone : drop i text ≡ [] = drop-all i text (ground (arith, e)) in
      let bad : false ≡ true = rw gone at m in absurd (cc)
]

loop_sound :
    (fuel : ℕ) (needle text : List ℕ) (start : ℕ)
    → standalone_loop fuel needle text start ≡ true
    → (i : ℕ) × Standalone needle text i
unfolding standalone_loop
loop_sound zero needle text start h = absurd (cc)
loop_sound (suc fuel) needle text start h = elim (Option-cases (find needle (drop start text))) [
  | inl n ↦ let bad : false ≡ true = rw (n, standalone_loop) at h in absurd (cc)
  | inr (pos, p) ↦
      let found : (bounded_at needle text (start + pos)
            || standalone_loop fuel needle text (start + pos + 1))
          ≡ true =
        rw (p, standalone_loop) at h in
      elim (Bool-cases (bounded_at needle text (start + pos))) [
        | inl b ↦
            let m = find-matches needle (drop start text) pos p in
            (start + pos, (rw (drop-drop start pos text) at m, b))
        | inr b ↦ loop_sound fuel needle text (start + pos + 1) (ground (arith, found, b))
      ]
]

loop_complete :
    (fuel n : ℕ) (needle text : List ℕ) (start i : ℕ)
    → Standalone (n ∷ needle) text i
    → start ≤ i
    → i < start + fuel
    → standalone_loop fuel (n ∷ needle) text start ≡ true
unfolding standalone_loop
loop_complete zero n needle text start i s le lt = absurd (omega (arith, le, lt))
loop_complete (suc fuel) n needle text start i s le lt =
    let here : starts_with (n ∷ needle) (drop (i - start) (drop start text)) ≡ true =
      rw (drop-drop start (i - start) text)
        (let back : start + (i - start) ≡ i = omega (arith, le) in rw back s.0) in
    elim (Option-cases (find (n ∷ needle) (drop start text))) [
      | inl e ↦ absurd (ground (arith, find-none n needle (drop start text) (i - start) e, here))
      | inr (pos, p) ↦ elim (Bool-cases (ltb (i - start) pos)) [
        | inl early ↦ absurd (
            ground (
              arith,
              find-first n needle (drop start text) pos (i - start) p
                  (ltb→lt (i - start) pos early),
              here,
            ))
        | inr late ↦ elim (Bool-cases (bounded_at (n ∷ needle) text (start + pos))) [
          | inl b ↦ rw (p, standalone_loop) (rw b refl)
          | inr b ↦
              let apart : start + pos + 1 ≤ i = elim (Bool-cases (start + pos == i)) [
                | inl same ↦
                    let eq = (==_iff (start + pos) i).0 same in
                    let bad : bounded_at (n ∷ needle) text i ≡ false = rw eq at b in
                    absurd (ground (arith, bad, s.1))
                | inr other ↦ ground (arith, late, le, other)
              ] in
              rw (p, standalone_loop)
                (rw b (
                  loop_complete fuel n needle text (start + pos + 1) i s apart (omega (arith, lt))))
        ]
      ]
    ]

-- For a needle that is not empty, contains_standalone holds exactly if the text has an occurrence
-- of it with no alphanumeric byte next to it.
pub contains_standalone_iff :
    (n : ℕ) (needle text : List ℕ)
    → (contains_standalone text (n ∷ needle) ≡ true) ↔ ((i : ℕ) × Standalone (n ∷ needle) text i)
unfolding contains_standalone
contains_standalone_iff n needle text = (
  loop_sound (suc (length text)) (n ∷ needle) text 0,
  λ s.
      loop_complete (suc (length text)) n needle text 0 s.0 s.1 (omega arith)
        (omega (arith, match-within n needle text s.0 s.1.0)),
)
