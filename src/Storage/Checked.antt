-- ===== src/Storage/Checked.antt =====
-- crates/obschain-storage/src/repository.rs: the numbers of the program as those of the database. An
-- `i64` is its 64-bit pattern, whose upper half is negative.
use obschain.Prelude.{ℕ, ◌^◌, ltb, if◌then◌else◌, arith, ◌≡◌, ◌↔◌}
use obschain.Storage.Memory.{Stored, ok, err, exceeds_limit, is_negative}

unfoldable pub u64_to_i64_checked : ℕ → Stored ℕ
u64_to_i64_checked val = if ltb val (2 ^ 63) then ok val else err (exceeds_limit val)

unfoldable pub i64_to_u64_checked : ℕ → Stored ℕ
i64_to_u64_checked val = if ltb val (2 ^ 63) then ok val else err (is_negative val)

value : ℕ → Stored ℕ → ℕ
value n (ok m) = m
value n (err e) = n

-- The two conversions undo each other: a `u64` converts to an `i64` exactly when that `i64` converts
-- back to it.
pub checked_inverse :
    (val stored : ℕ) → (u64_to_i64_checked val ≡ ok stored) ↔ (i64_to_u64_checked stored ≡ ok val)
unfolding u64_to_i64_checked i64_to_u64_checked
checked_inverse val stored = grind arith
