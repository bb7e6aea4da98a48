-- ===== src/Core/Amount/Reading.antt =====
-- How decimal notation passes through the steps of `btc_str_to_sats` in
-- crates/obschain-core/src/amount.rs.
use obschain.Prelude.{
  ℕ, zero, suc, ◌-◌, ◌*◌, ◌^◌, ◌≤◌, ◌<◌, ◌≡◌, refl, some, [], ◌∷◌, ◌++◌, Text, All-append, Lacks,
  length, replicate, show, IsDigits, show-IsDigits, parse_uint, parse_uint-show, is_ascii_digit,
  is_whitespace, u64_max, true, false, arith,
}
use obschain.Prelude.Decimal.Fixed.{fixed_digits, AllDigits}
use obschain.Prelude.Splitting.{NoSpace, trim_id, split_first_at}
use obschain.Core.Amount.{
  btc_str_to_sats, combine, total_sats, pad_fraction, sats_per_btc, dispatch, or_zero,
}

-- The amount `whole.fraction`, with `k` digits behind the point.
abbrev pub decimal : ℕ → ℕ → ℕ → Text
decimal w k f = show w ++ b'.' ∷ fixed_digits k f []

pub fixed_digits-append :
    (k n : ℕ) (out s : Text) → fixed_digits k n out ++ s ≡ fixed_digits k n (out ++ s)
unfolding fixed_digits
fixed_digits-append zero n out s = refl
fixed_digits-append (suc k) n out s = fixed_digits-append k _ _ s

pub pad_fraction-fits :
    (n : ℕ) (s : Text)
    → AllDigits s
    → length s ≤ n
    → pad_fraction n s ≡ some (s ++ replicate (n - length s) b'0')
unfolding pad_fraction
pad_fraction-fits zero [] h le = refl
pad_fraction-fits zero (c ∷ s) h le = absurd (omega arith)
pad_fraction-fits (suc n) [] h le = let e : suc n - 0 ≡ suc n = omega arith in rw e
pad_fraction-fits (suc n) (c ∷ s) h le = ground (arith, pad_fraction-fits n s h.1, h.0)

pub pad_fraction-cut :
    (n : ℕ) (s t : Text) → AllDigits s → length s ≡ n → pad_fraction n (s ++ t) ≡ some s
unfolding pad_fraction
pad_fraction-cut zero [] t h le = refl
pad_fraction-cut zero (c ∷ s) t h le = absurd (omega arith)
pad_fraction-cut (suc n) [] t h le = absurd (omega arith)
pad_fraction-cut (suc n) (c ∷ s) t h le = ground (arith, pad_fraction-cut n s t h.1, h.0)

pub AllDigits-replicate : (m : ℕ) → AllDigits (replicate m b'0')
unfolding is_ascii_digit
AllDigits-replicate zero = tt
AllDigits-replicate (suc m) = (refl, AllDigits-replicate m)

pub IsDigits-of_length : (s : Text) → AllDigits s → 1 ≤ length s → IsDigits s
IsDigits-of_length [] h le = absurd (omega arith)
IsDigits-of_length (c ∷ s) h le = (h.0, h.1)

-- A digit is neither a point nor white space.
digit_is_plain :
    (c : ℕ) → is_ascii_digit c ≡ true → (c ≡ b'.' → ⊥) × (is_whitespace c ≡ false) × (c ≡ b'-' → ⊥)
unfolding is_ascii_digit is_whitespace
digit_is_plain c h = ground arith

pub AllDigits-plain : (s : Text) → AllDigits s → Lacks b'.' s × NoSpace s
AllDigits-plain [] h = (tt, tt)
AllDigits-plain (c ∷ s) h =
    let (l, n) = AllDigits-plain s h.1 in let (p, q, r) = digit_is_plain c h.0 in ((p, l), (q, n))

pub show-AllDigits : (n : ℕ) → AllDigits (show n)
show-AllDigits n = of_IsDigits (show n) (show-IsDigits n)
  where
    of_IsDigits : (s : Text) → IsDigits s → AllDigits s
    of_IsDigits [] h = tt
    of_IsDigits (c ∷ s) h = h

dispatch-combine :
    (s frac : Text)
    → IsDigits s
    → Lacks b'.' s
    → Lacks b'.' frac
    → dispatch (s ++ b'.' ∷ frac) ≡ combine s frac
dispatch-combine [] frac h hs hf = absurd h
dispatch-combine (c ∷ s) frac h hs hf =
    ground (arith, split_first_at b'.' (c ∷ s) frac hs hf, digit_is_plain c h.0)

-- The text is split at its point, whatever digits and other plain characters stand behind it.
pub btc_str_to_sats-combine :
    (w : ℕ) (frac : Text)
    → Lacks b'.' frac
    → NoSpace frac
    → btc_str_to_sats (show w ++ b'.' ∷ frac) ≡ combine (show w) frac
unfolding btc_str_to_sats is_whitespace
btc_str_to_sats-combine w frac lacks plain =
    let (l, n) = AllDigits-plain (show w) (show-AllDigits w) in
    rw (trim_id (show w ++ b'.' ∷ frac) (All-append _ (show w) (b'.' ∷ frac) n (refl, plain)))
      (dispatch-combine (show w) frac (show-IsDigits w) l lacks)

pub or_zero-show : (w : ℕ) → or_zero (show w) ≡ show w
or_zero-show w = of_IsDigits (show w) (show-IsDigits w)
  where
    of_IsDigits : (s : Text) → IsDigits s → or_zero s ≡ s
    of_IsDigits [] h = absurd h
    of_IsDigits (c ∷ s) h = refl

pub combine-total_sats :
    (w v : ℕ) (frac padded : Text)
    → w ≤ u64_max
    → pad_fraction 8 frac ≡ some padded
    → parse_uint u64_max padded ≡ some v
    → combine (show w) frac ≡ total_sats w v
unfolding combine
combine-total_sats w v frac padded fits p q =
    rw (or_zero-show w, parse_uint-show u64_max w fits, p, q)

-- The value of a fraction of `k` digits, in satoshis.
abbrev pub fraction_sats : ℕ → ℕ → ℕ
fraction_sats k f = f * 10 ^ (8 - k)

pub fraction_sats-lt : (k f : ℕ) → k ≤ 8 → f < 10 ^ k → fraction_sats k f < sats_per_btc
fraction_sats-lt zero f le lt = omega arith
fraction_sats-lt (suc zero) f le lt = omega arith
fraction_sats-lt (suc (suc zero)) f le lt = omega arith
fraction_sats-lt (suc (suc (suc zero))) f le lt = omega arith
fraction_sats-lt (suc (suc (suc (suc zero)))) f le lt = omega arith
fraction_sats-lt (suc (suc (suc (suc (suc zero))))) f le lt = omega arith
fraction_sats-lt (suc (suc (suc (suc (suc (suc zero)))))) f le lt = omega arith
fraction_sats-lt (suc (suc (suc (suc (suc (suc (suc zero))))))) f le lt = omega arith
fraction_sats-lt (suc (suc (suc (suc (suc (suc (suc (suc k)))))))) f le lt =
    let e : k ≡ 0 = omega arith in let small : f < 10 ^ 8 = rw e at lt in rw e (omega arith)
