-- ===== src/Pool/Signature.antt =====
-- Thresholds and canonical signatures: `calculate_threshold` and `recover_signer` of
-- message-relayer/src/pool/mod.rs.
pub mod Canonical
pub mod Quorum
use asc_message_relayer.Prelude.{
  ℕ, ◌+◌, ◌*◌, ◌/◌, ◌%◌, ◌^◌, ◌||◌, not, Option, none, some, [], ◌∷◌, take, drop, get_elem?, ltb,
  ◌==◌, if◌then◌else◌,
}
use asc_message_relayer.Types.{Bytes, Crypto}

-- `(2 * n) / 3 + 1` on `usize`.
unfoldable pub calculate_threshold : ℕ → ℕ
calculate_threshold n = 2 * n % 2 ^ 64 / 3 + 1

abbrev pub from_be : ℕ → Bytes → ℕ
from_be acc [] = acc
from_be acc (b ∷ bs) = from_be (acc * 256 + b) bs

-- n / 2 for the order n of secp256k1.
abbrev pub secp256k1_half_order : ℕ
secp256k1_half_order = 0x7FFFFFFFFFFFFFFFFFFFFFFFFFFFFFFF5D576E7357A4501DDFE92F46681B20A0

-- The last byte; a signature has 65, so the default is never read.
abbrev pub recovery_byte : Bytes → ℕ
recovery_byte raw = elim (get_elem? raw 64) [ none ↦ 0 | some v ↦ v ]

abbrev pub s_value : Bytes → ℕ
s_value raw = from_be 0 (take 32 (drop 32 raw))

-- `none` stands for the error; the checks come before recovery, as in the source.
unfoldable pub recover_signer : Crypto → ℕ → Bytes → Option ℕ
recover_signer x hash raw =
    if not (recovery_byte raw == 27 || recovery_byte raw == 28)
    then none
    else if ltb secp256k1_half_order (s_value raw)
    then none
    else x.recover_address hash raw
