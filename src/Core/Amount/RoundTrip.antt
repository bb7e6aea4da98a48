-- ===== src/Core/Amount/RoundTrip.antt =====
-- Amounts in decimal notation are read back exactly: `btc_str_to_sats` in
-- crates/obschain-core/src/amount.rs.
use mathlib.Core.List.{append_assoc, append-nil}
use obschain.Prelude.{
  ℕ, ◌+◌, ◌-◌, ◌*◌, ◌^◌, ◌≤◌, ◌<◌, ◌≡◌, sym, ◌∙◌, some, [], ◌++◌, Text, All-append, Lacks, length,
  length-replicate, replicate, show, leb, if◌then◌else◌, ap, ltb→lt, parse_uint, parse_uint-scan,
  parse_uint-show_above, u64_max, arith, inl, inr, ltb, Bool-cases,
}
use obschain.Prelude.Decimal.Fixed.{
  fixed_digits, AllDigits, fixed_digits-AllDigits, length-fixed_digits, scan-fixed_digits,
  scan-replicate, le-shift,
}
use obschain.Prelude.Splitting.{NoSpace}
use obschain.Core.Amount.{
  AmountError, ok, err, invalid_decimal, whole_part, overflow, exceeds_max_supply, btc_str_to_sats,
  combine, total_sats, pad_fraction, sats_per_btc, max_money_sats,
}
use obschain.Core.Amount.Reading.{
  decimal, or_zero-show, fraction_sats, fraction_sats-lt, fixed_digits-append, pad_fraction-fits,
  pad_fraction-cut, AllDigits-replicate, IsDigits-of_length, AllDigits-plain,
  btc_str_to_sats-combine, combine-total_sats,
}

parse_padded :
    (k f : ℕ)
    → k ≤ 8
    → f < 10 ^ k
    → parse_uint u64_max (fixed_digits k f (replicate (8 - k) b'0')) ≡ some (fraction_sats k f)
parse_padded k f le lt =
    let zeros : Text = replicate (8 - k) b'0' in
    let s : Text = fixed_digits k f zeros in
    let plain : AllDigits s = fixed_digits-AllDigits k f zeros (AllDigits-replicate (8 - k)) in
    let small = fraction_sats-lt k f le lt in
    let eight : length s ≡ 8 =
      omega (arith, length-fixed_digits k f zeros, length-replicate {A = ℕ} (8 - k) b'0') in
    parse_uint-scan u64_max s (IsDigits-of_length s plain (omega arith))
    ∙ scan-fixed_digits u64_max k f zeros lt (omega (arith, le-shift (8 - k) f))
    ∙ scan-replicate u64_max (8 - k) f (omega arith)

pad_fixed :
    (k f : ℕ)
    → k ≤ 8
    → pad_fraction 8 (fixed_digits k f []) ≡ some (fixed_digits k f (replicate (8 - k) b'0'))
pad_fixed k f le =
    let s = fixed_digits k f [] in
    let len : length s ≡ k = omega (arith, length-fixed_digits k f []) in
    pad_fraction-fits 8 s (fixed_digits-AllDigits k f [] tt) (omega arith)
    ∙ rw len (ap some (fixed_digits-append k f [] (replicate (8 - k) b'0')))

combine-decimal :
    (w k f : ℕ)
    → k ≤ 8
    → f < 10 ^ k
    → w ≤ u64_max
    → combine (show w) (fixed_digits k f []) ≡ total_sats w (fraction_sats k f)
combine-decimal w k f le lt fits =
    combine-total_sats w (fraction_sats k f) (fixed_digits k f []) _ fits (pad_fixed k f le)
      (parse_padded k f le lt)

combine_above :
    (w : ℕ) (frac : Text) → u64_max < w → combine (show w) frac ≡ err (invalid_decimal whole_part)
unfolding combine
combine_above w frac h = rw (or_zero-show w, parse_uint-show_above u64_max w h)

-- Why an amount above the supply is refused.
abbrev pub refusal : ℕ → ℕ → AmountError
refusal w total =
    if ltb u64_max w
    then invalid_decimal whole_part
    else if ltb u64_max total
    then overflow
    else exceeds_max_supply

total_sats-refusal :
    (w v : ℕ)
    → w ≤ u64_max
    → total_sats w v ≡ (
        if leb (w * sats_per_btc + v) max_money_sats
        then ok (w * sats_per_btc + v)
        else err (refusal w (w * sats_per_btc + v)))
unfolding total_sats
total_sats-refusal w v h = ground arith

-- Of an amount with up to eight digits behind the point, exactly the number of satoshis is read,
-- if it is at most 21 million bitcoin. Above that it is refused: its whole part does not fit into
-- a `u64`, its satoshis do not, or they exceed the supply.
pub btc_str_to_sats-decimal :
    (w k f : ℕ)
    → k ≤ 8
    → f < 10 ^ k
    → btc_str_to_sats (decimal w k f) ≡ (
        if leb (w * sats_per_btc + fraction_sats k f) max_money_sats
        then ok (w * sats_per_btc + fraction_sats k f)
        else err (refusal w (w * sats_per_btc + fraction_sats k f)))
btc_str_to_sats-decimal w k f le lt =
    let (lacks, plain) = AllDigits-plain _ (fixed_digits-AllDigits k f [] tt) in
    btc_str_to_sats-combine w (fixed_digits k f []) lacks plain
    ∙ elim (Bool-cases (ltb u64_max w)) [
      | inl above ↦ combine_above w (fixed_digits k f []) (ltb→lt _ _ above) ∙ ground arith
      | inr below ↦
          combine-decimal w k f le lt (ground arith)
          ∙ total_sats-refusal w (fraction_sats k f) (ground arith)
    ]

same_padding :
    (whole s t : Text) → pad_fraction 8 s ≡ pad_fraction 8 t → combine whole s ≡ combine whole t
unfolding combine
same_padding whole s t h = rw h

-- What stands behind the eighth digit of the fraction is not read at all: an amount may be followed
-- by any text without points and white space, and is accepted or refused as without it.
pub btc_str_to_sats_ignores :
    (w f : ℕ) (junk : Text)
    → Lacks b'.' junk
    → NoSpace junk
    → btc_str_to_sats (decimal w 8 f ++ junk) ≡ btc_str_to_sats (decimal w 8 f)
btc_str_to_sats_ignores w f junk lacks plain =
    let frac : Text = fixed_digits 8 f [] in
    let digits : AllDigits frac = fixed_digits-AllDigits 8 f [] tt in
    let (l, n) = AllDigits-plain frac digits in
    let len : length frac ≡ 8 = omega (arith, length-fixed_digits 8 f []) in
    rw append_assoc (
      btc_str_to_sats-combine w (frac ++ junk) (All-append _ frac junk l lacks)
        (All-append _ frac junk n plain)
      ∙ same_padding (show w) (frac ++ junk) frac (
          pad_fraction-cut 8 frac junk digits len
          ∙ sym
              (ap (pad_fraction 8) (sym (append-nil frac)) ∙ pad_fraction-cut 8 frac [] digits len))
      ∙ sym (btc_str_to_sats-combine w frac l n))
