-- ===== src/Pool/Signature/Canonical.antt =====
-- The one form in which a signature is accepted: `recover_signer` of message-relayer/src/pool/mod.rs
-- on the 65 bytes r, s and v that a signature is encoded as.
use asc_message_relayer.Prelude.{
  ℕ, zero, suc, ◌+◌, ◌*◌, ◌/◌, ◌%◌, ◌^◌, ◌<◌, ◌≡◌, ◌∙◌, ap, refl, true, false, ◌||◌, ◌&&◌, none,
  some, [], ◌∷◌, ◌++◌, length, length-append, take, drop, get_elem?, ltb, ◌==◌, if◌then◌else◌,
  arith, Bool-cases, inl, inr,
}
use asc_message_relayer.Types.{Bytes, Crypto}
use asc_message_relayer.Pool.Signature.{
  from_be, recovery_byte, s_value, secp256k1_half_order, recover_signer,
}

-- A number in big-endian bytes, and a signature.
unfoldable pub to_be : ℕ → ℕ → Bytes
to_be zero n = []
to_be (suc k) n = to_be k (n / 256) ++ n % 256 ∷ []

abbrev pub encode : Bytes → ℕ → ℕ → Bytes
encode r s v = r ++ (to_be 32 s ++ v ∷ [])

abbrev pub secp256k1_order : ℕ
secp256k1_order = 0xFFFFFFFFFFFFFFFFFFFFFFFFFFFFFFFEBAAEDCE6AF48A03BBFD25E8CD0364141

from_be-append :
    (acc : ℕ) (xs : Bytes) (b : ℕ) → from_be acc (xs ++ b ∷ []) ≡ from_be acc xs * 256 + b
from_be-append acc [] b = refl
from_be-append acc (x ∷ xs) b = from_be-append (acc * 256 + x) xs b

from_be-to_be : (k n : ℕ) → n < 256 ^ k → from_be 0 (to_be k n) ≡ n
unfolding to_be
from_be-to_be zero n h = omega (arith, h)
from_be-to_be (suc k) n h =
    let high = from_be-to_be k (n / 256) (omega (arith, h)) in
    from_be-append 0 (to_be k (n / 256)) (n % 256) ∙ omega (arith, high)

length-to_be : (k n : ℕ) → length (to_be k n) ≡ k
unfolding to_be
length-to_be zero n = refl
length-to_be (suc k) n =
    omega (arith, length-append (to_be k (n / 256)) (n % 256 ∷ []), length-to_be k (n / 256))

drop-append : (n : ℕ) (xs ys : Bytes) → length xs ≡ n → drop n (xs ++ ys) ≡ ys
drop-append zero [] ys h = refl
drop-append zero (x ∷ xs) ys h = absurd (omega (arith, h))
drop-append (suc n) [] ys h = absurd (omega (arith, h))
drop-append (suc n) (x ∷ xs) ys h = drop-append n xs ys (omega (arith, h))

take-append : (n : ℕ) (xs ys : Bytes) → length xs ≡ n → take n (xs ++ ys) ≡ xs
take-append zero [] ys h = refl
take-append zero (x ∷ xs) ys h = absurd (omega (arith, h))
take-append (suc n) [] ys h = absurd (omega (arith, h))
take-append (suc n) (x ∷ xs) ys h = ap (λ zs. x ∷ zs) (take-append n xs ys (omega (arith, h)))

get_elem?-append :
    (n i : ℕ) (xs ys : Bytes) → length xs ≡ n → get_elem? (xs ++ ys) (n + i) ≡ get_elem? ys i
get_elem?-append zero i [] ys h = ap (get_elem? ys) (omega arith)
get_elem?-append zero i (x ∷ xs) ys h = absurd (omega (arith, h))
get_elem?-append (suc n) i [] ys h = absurd (omega (arith, h))
get_elem?-append (suc n) i (x ∷ xs) ys h =
    ap (get_elem? (x ∷ xs ++ ys)) (shift n i) ∙ get_elem?-append n i xs ys (omega (arith, h))
  where
    shift : (n i : ℕ) → suc n + i ≡ suc (n + i)
    shift n i = omega arith

module _ (r : Bytes) (s v : ℕ) (size : length r ≡ 32) where
  recovery_byte-encode : recovery_byte (encode r s v) ≡ v
  recovery_byte-encode =
      let last : get_elem? (encode r s v) 64 ≡ some v =
        get_elem?-append 32 32 r (to_be 32 s ++ v ∷ []) size
        ∙ get_elem?-append 32 0 (to_be 32 s) (v ∷ []) (length-to_be 32 s) in
      rw (last, recovery_byte) refl

  s_value-encode : s < 256 ^ 32 → s_value (encode r s v) ≡ s
  s_value-encode word =
      ap (λ bs. from_be 0 (take 32 bs)) (drop-append 32 r (to_be 32 s ++ v ∷ []) size)
      ∙ ap (from_be 0) (take-append 32 (to_be 32 s) (v ∷ []) (length-to_be 32 s))
      ∙ from_be-to_be 32 s word

  -- The signer of 32 bytes, an s in 32 big-endian bytes and a v is the address recovered from them
  -- if v is 27 or 28 and twice s is below the order of the curve, and else the signature is
  -- refused.
  pub recover_signer-encode :
      (x : Crypto) (hash : ℕ)
      → s < 256 ^ 32
      → recover_signer x hash (encode r s v) ≡ (
          if (v == 27 || v == 28) && ltb (2 * s) secp256k1_order
          then x.recover_address hash (encode r s v)
          else none)
  unfolding recover_signer
  recover_signer-encode x hash word = elim (Bool-cases (v == 27 || v == 28)) [
    | inr f ↦ rw (recovery_byte-encode, f, recover_signer) refl
    | inl t ↦ elim (Bool-cases (ltb (2 * s) secp256k1_order)) [
      | inl low ↦
          let fits : ltb secp256k1_half_order (s_value (encode r s v)) ≡ false =
            ground (arith, low, s_value-encode word) in
          rw (recovery_byte-encode, t, low, fits) refl
      | inr high ↦
          let over : ltb secp256k1_half_order (s_value (encode r s v)) ≡ true =
            ground (arith, high, s_value-encode word) in
          rw (recovery_byte-encode, t, high, over) refl
    ]
  ]
