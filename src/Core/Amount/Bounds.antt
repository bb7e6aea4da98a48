-- ===== src/Core/Amount/Bounds.antt =====
-- The ranges of the results of crates/obschain-core/src/amount.rs and fee.rs.
use obschain.Prelude.{ℕ, [], ◌∷◌, ◌≤◌, ◌≡◌, Text, trim, arith}
use obschain.Core.Amount.{ok, btc_str_to_sats, dispatch, combine, total_sats, max_money_sats}

total_sats-le : (w v n : ℕ) → total_sats w v ≡ ok n → n ≤ max_money_sats
unfolding total_sats
total_sats-le w v n h = ground arith

combine-le : (whole frac : Text) (n : ℕ) → combine whole frac ≡ ok n → n ≤ max_money_sats
unfolding combine
combine-le whole frac n h = grind (arith, total_sats-le)

dispatch-le : (s : Text) (n : ℕ) → dispatch s ≡ ok n → n ≤ max_money_sats
dispatch-le [] n h = cc
dispatch-le (c ∷ s) n h = grind (arith, combine-le)

-- Whatever text is parsed, an accepted amount is at most 21 million bitcoin.
btc_str_to_sats-le : (s : Text) (n : ℕ) → btc_str_to_sats s ≡ ok n → n ≤ max_money_sats
unfolding btc_str_to_sats
btc_str_to_sats-le s n h = dispatch-le (trim s) n h
