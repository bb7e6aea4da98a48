-- ===== src/Prelude/Decimal.antt =====
-- Decimal numbers as Rust prints and parses them.
pub mod Fixed
use mathlib.Core.List.{[], ◌∷◌}
use mathlib.Core.Bool.{Bool, true, ◌&&◌}
use mathlib.Core.Option.{Option, none, some}
use mathlib.Core.Path.{◌≡◌, ◌∙◌}
use native.Mathlib.Omega.{arith}
use Prim.Native.Nat.{ℕ, zero, suc, ◌+◌, ◌-◌, ◌*◌, ◌/◌, ◌%◌, ◌^◌, ◌≤◌, ◌<◌}
use obschain.Prelude.Tests.{ltb, leb, nat_eq, ◌==◌, if◌then◌else◌}
use obschain.Prelude.Lists.{All}
use obschain.Prelude.Texts.{Text}

abbrev pub u32_max : ℕ
u32_max = 2 ^ 32 - 1

abbrev pub u64_max : ℕ
u64_max = 2 ^ 64 - 1

abbrev pub u128_max : ℕ
u128_max = 2 ^ 128 - 1

-- `u8::is_ascii_digit`
unfoldable pub is_ascii_digit : ℕ → Bool
is_ascii_digit c = leb b'0' c && leb c b'9'

-- The digits of `n`, most significant first, before `out`. `suc n` rounds are enough.
digits : ℕ → ℕ → Text → Text
digits zero n out = out
digits (suc f) n out =
    let rest = digits f (n / 10) ((b'0' + n % 10) ∷ out) in
    if ltb n 10 then (b'0' + n) ∷ out else rest

-- `Display` of an unsigned integer.
unfoldable pub show : ℕ → Text
unfolding digits
show n = digits (suc n) n []

-- The loop of `from_str_radix`: a digit that is none, or a value above the type's maximum, fails.
unfoldable pub scan : ℕ → Text → ℕ → Option ℕ
unfolding is_ascii_digit
scan max [] n = some n
scan max (c ∷ s) n =
    let next = n * 10 + (c - b'0') in
    let rest = scan max s next in
    if is_ascii_digit c then (if leb next max then rest else none) else none

unfoldable pub parse_digits : ℕ → Text → Option ℕ
unfolding scan
parse_digits max [] = none
parse_digits max (c ∷ s) = scan max (c ∷ s) 0

-- `str::parse` into an unsigned integer type with the maximum `max`: one leading `+` is skipped.
unfoldable pub parse_uint : ℕ → Text → Option ℕ
unfolding parse_digits
parse_uint max [] = none
parse_uint max (c ∷ s) = if c == b'+' then parse_digits max s else parse_digits max (c ∷ s)

scan-digits :
    (max f n : ℕ) (out : Text) → n < f → n ≤ max → scan max (digits f n out) 0 ≡ scan max out n
unfolding scan digits
scan-digits max zero n out lt le = absurd (omega arith)
scan-digits max (suc f) n out lt le =
    ground (arith, scan-digits max f (n / 10) ((b'0' + n % 10) ∷ out))

-- A text of decimal digits only, of which there is at least one.
abbrev pub IsDigits : Text → Type 0
IsDigits [] = ⊥
IsDigits (c ∷ s) = (is_ascii_digit c ≡ true) × All (λ d. is_ascii_digit d ≡ true) s

digits-IsDigits :
    (f n : ℕ) (out : Text)
    → n < f
    → All (λ d. is_ascii_digit d ≡ true) out
    → IsDigits (digits f n out)
unfolding digits is_ascii_digit
digits-IsDigits zero n out lt h = absurd (omega arith)
digits-IsDigits (suc f) n out lt h =
    let ih = digits-IsDigits f (n / 10) ((b'0' + n % 10) ∷ out) in ground (arith, ih)

pub show-IsDigits : (n : ℕ) → IsDigits (show n)
unfolding show
show-IsDigits n = digits-IsDigits (suc n) n [] (omega arith) tt

pub parse_uint-scan : (max : ℕ) (s : Text) → IsDigits s → parse_uint max s ≡ scan max s 0
unfolding parse_uint is_ascii_digit
parse_uint-scan max [] h = absurd h
parse_uint-scan max (c ∷ s) h = ground (arith, h.0)

-- Every number in range is read back from its print.
pub parse_uint-show : (max n : ℕ) → n ≤ max → parse_uint max (show n) ≡ some n
unfolding show scan
parse_uint-show max n h =
    parse_uint-scan max (show n) (show-IsDigits n) ∙ scan-digits max (suc n) n [] (omega arith) h

pub show-injective : (m n : ℕ) → show m ≡ show n → m ≡ n
show-injective m n h =
    cc (parse_uint-show (m + n) m (omega arith), parse_uint-show (m + n) n (omega arith))

scan-digits_above :
    (max f n : ℕ) (out : Text) → n < f → max < n → scan max (digits f n out) 0 ≡ none
unfolding scan digits
scan-digits_above max zero n out lt above = absurd (omega arith)
scan-digits_above max (suc f) n out lt above = ground (
  arith,
  scan-digits_above max f (n / 10) ((b'0' + n % 10) ∷ out),
  scan-digits max f (n / 10) ((b'0' + n % 10) ∷ out),
)

-- A number above the maximum is refused.
pub parse_uint-show_above : (max n : ℕ) → max < n → parse_uint max (show n) ≡ none
unfolding show
parse_uint-show_above max n h =
    parse_uint-scan max (show n) (show-IsDigits n)
    ∙ scan-digits_above max (suc n) n [] (omega arith) h
