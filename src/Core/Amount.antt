-- ===== src/Core/Amount.antt =====
-- crates/obschain-core/src/amount.rs and fee.rs: amounts in satoshis, fee rates and virtual sizes.
pub mod RoundTrip
pub mod Bounds
pub mod Reading
use obschain.Prelude.{
  ℕ, zero, suc, ◌+◌, ◌*◌, ◌/◌, Option, none, some, List, [], ◌∷◌, Text, codes, trim, split_first,
  replicate, parse_uint, is_ascii_digit, u64_max, leb, ltb, ◌==◌, nat_eq, if◌then◌else◌, ◌-◌,
}

abbrev pub sats_per_btc : ℕ
sats_per_btc = 100_000_000

abbrev pub max_money_sats : ℕ
max_money_sats = 2_100_000_000_000_000

-- The constant texts that `InvalidDecimal` carries. (The sixth, for a fraction that is not UTF-8,
-- stands behind a test that ASCII digits pass.)
pub data InvalidDecimal : Type 0 where
  empty_string multiple_points whole_part fraction_digit frac_part : InvalidDecimal

pub data AmountError : Type 0 where
  negative non_finite exceeds_max_supply overflow : AmountError
  invalid_decimal : InvalidDecimal → AmountError

pub data Result {ℓ} (A : Type ℓ) : Type ℓ where
  ok : A → Result A
  err : AmountError → Result A

infixl 5 ◌>>=◌
abbrev pub ◌>>=◌ {ℓ κ} : {A : Type ℓ} {B : Type κ} → Result A → (A → Result B) → Result B
ok a >>= f = f a
err e >>= f = err e

abbrev pub ok_or {ℓ} : {A : Type ℓ} → AmountError → Option A → Result A
ok_or e none = err e
ok_or e (some a) = ok a

abbrev checked : ℕ → Option ℕ
checked n = if leb n u64_max then some n else none

-- The loop over `frac_padded`: `n` bytes are left to fill. A byte of the fraction must be a digit,
-- and what lies behind the eighth is not looked at.
unfoldable pub pad_fraction : ℕ → Text → Option Text
unfolding is_ascii_digit
pad_fraction zero s = some []
pad_fraction (suc n) [] = some (replicate (suc n) b'0')
pad_fraction (suc n) (c ∷ s) = elim (pad_fraction n s) [
  | none ↦ none
  | some rest ↦ if is_ascii_digit c then some (c ∷ rest) else none
]

-- `whole_str` and `frac_str`, and whether there is a third part
abbrev parts : Text × List Text → Result (Text × Text)
parts (whole, []) = ok (whole, [])
parts (whole, frac ∷ []) = ok (whole, frac)
parts (whole, frac ∷ more ∷ rest) = err (invalid_decimal multiple_points)

abbrev or_zero : Text → Text
or_zero [] = codes "0"
or_zero (c ∷ s) = c ∷ s

-- the checked arithmetic at the end of the function
unfoldable pub total_sats : ℕ → ℕ → Result ℕ
total_sats whole frac_val = do
  whole_sats ← ok_or overflow (checked (whole * sats_per_btc))
  total ← ok_or overflow (checked (whole_sats + frac_val))
  if ltb max_money_sats total then err exceeds_max_supply else ok total

-- the part of the function behind the split at the points
unfoldable pub combine : Text → Text → Result ℕ
unfolding pad_fraction total_sats
combine whole_str frac_str = do
  whole ← ok_or (invalid_decimal whole_part) (parse_uint u64_max (or_zero whole_str))
  frac_padded ← ok_or (invalid_decimal fraction_digit) (pad_fraction 8 frac_str)
  frac_val ← ok_or (invalid_decimal frac_part) (parse_uint u64_max frac_padded)
  total_sats whole frac_val

abbrev parse_nonnegative : Text → Result ℕ
parse_nonnegative s = do
  (whole_str, frac_str) ← parts (split_first b'.' s)
  combine whole_str frac_str

abbrev dispatch : Text → Result ℕ
dispatch [] = err (invalid_decimal empty_string)
dispatch (c ∷ s) = if c == b'-' then err negative else parse_nonnegative (c ∷ s)

unfoldable pub btc_str_to_sats : Text → Result ℕ
unfolding combine
btc_str_to_sats btc_str = dispatch (trim btc_str)

-- `calculate_satoshi_days`: the product of two `u64` fits into a `u128`.
abbrev pub calculate_satoshi_days : ℕ → ℕ → ℕ
calculate_satoshi_days value_sats age_days = value_sats * age_days

-- `calculate_vsize_from_weight`: `weight.div_ceil(4)`
unfoldable pub calculate_vsize_from_weight : ℕ → ℕ
calculate_vsize_from_weight weight = (weight + 3) / 4
