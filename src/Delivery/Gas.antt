-- ===== src/Delivery/Gas.antt =====
-- The next gas limit after a delivery ran out of gas: `bumped_gas_limit` of
-- message-relayer/src/delivery/mod.rs.
use asc_message_relayer.Prelude.{
  ℕ, ◌*◌, ◌/◌, ◌≤◌, ◌<◌, ◌≡◌, refl, Option, none, some, leb, min, max, if◌then◌else◌, arith,
  Bool-cases, inl, inr, sat_add64, u64_max,
}

abbrev pub base_of : Option ℕ → Option ℕ → Option ℕ
base_of (some g) envelope_gas = some g
base_of none envelope_gas = envelope_gas

abbrev pub bumped : ℕ → ℕ
bumped base = max (min (base * 5) u64_max / 4) (sat_add64 base 1)

abbrev pub bump_from : Option ℕ → ℕ → Option ℕ
bump_from none limit = none
bump_from (some base) limit = if leb limit base then none else some (min (bumped base) limit)

unfoldable pub bumped_gas_limit : Option ℕ → Option ℕ → ℕ → Option ℕ
bumped_gas_limit current envelope_gas limit = bump_from (base_of current envelope_gas) limit

-- How a bump ends: with more gas than before and no more than the cap, or with none, as there is
-- nothing to bump or the limit is reached.
pub data Bump (base : Option ℕ) (limit : ℕ) (result : Option ℕ) : Type 0 where
  raised : (b g : ℕ) → base ≡ some b → result ≡ some g → b < g → g ≤ limit → Bump base limit result
  reached : (b : ℕ) → base ≡ some b → result ≡ none → limit ≤ b → Bump base limit result
  nothing : base ≡ none → result ≡ none → Bump base limit result

bump_from-Bump :
    (base : Option ℕ) (limit : ℕ) → limit ≤ u64_max → Bump base limit (bump_from base limit)
bump_from-Bump none limit word = nothing refl refl
bump_from-Bump (some b) limit word = elim (Bool-cases (leb limit b)) [
  | inl e ↦ reached b refl (rw e) (ground (arith, e))
  | inr e ↦
      let less : b < limit = ground (arith, e) in
      raised b (min (bumped b) limit) refl (rw e) (omega (arith, less, word)) (omega arith)
]

-- Below a 64-bit cap, a bump raises the gas limit strictly and not above the cap, or gives none,
-- and then the cap is reached or there is no limit to start from.
pub bumped_gas_limit-Bump :
    (current envelope_gas : Option ℕ) (limit : ℕ)
    → limit ≤ u64_max
    → Bump (base_of current envelope_gas) limit (bumped_gas_limit current envelope_gas limit)
unfolding bumped_gas_limit
bumped_gas_limit-Bump current envelope_gas limit word =
    bump_from-Bump (base_of current envelope_gas) limit word
