-- ===== src/Prelude/Decimal/Fixed.antt =====
-- Decimal digits to a fixed width, with leading zeros: `{:0width$}`.
use mathlib.Core.Bool.{true}
use mathlib.Core.List.{◌∷◌}
use mathlib.Core.Option.{Option, some}
use mathlib.Core.Path.{◌≡◌, ap}
use native.Mathlib.Nat.{pow-suc}
use native.Mathlib.Omega.{arith}
use Prim.Native.Nat.{ℕ, zero, suc, ◌+◌, ◌*◌, ◌/◌, ◌%◌, ◌^◌, ◌≤◌, ◌<◌}
use obschain.Prelude.Lists.{All, length, replicate}
use obschain.Prelude.Texts.{Text}
use obschain.Prelude.Decimal.{is_ascii_digit, scan}

-- The last `k` digits of `n`, before `out`.
unfoldable pub fixed_digits : ℕ → ℕ → Text → Text
fixed_digits zero n out = out
fixed_digits (suc k) n out = fixed_digits k (n / 10) ((b'0' + n % 10) ∷ out)

abbrev pub AllDigits : Text → Type 0
AllDigits = All (λ d. is_ascii_digit d ≡ true)

pub fixed_digits-AllDigits :
    (k n : ℕ) (out : Text) → AllDigits out → AllDigits (fixed_digits k n out)
unfolding fixed_digits is_ascii_digit
fixed_digits-AllDigits zero n out h = h
fixed_digits-AllDigits (suc k) n out h =
    fixed_digits-AllDigits k (n / 10) ((b'0' + n % 10) ∷ out) (ground arith, h)

pub length-fixed_digits : (k n : ℕ) (out : Text) → length (fixed_digits k n out) ≡ k + length out
unfolding fixed_digits
length-fixed_digits zero n out = omega arith
length-fixed_digits (suc k) n out =
    omega (arith, length-fixed_digits k (n / 10) ((b'0' + n % 10) ∷ out))

div-lt-pow : (k n : ℕ) → n < 10 ^ suc k → n / 10 < 10 ^ k
div-lt-pow k n h = omega (arith, pow-suc 10 k)

pub scan-fixed_digits :
    (max k n : ℕ) (out : Text)
    → n < 10 ^ k
    → n ≤ max
    → scan max (fixed_digits k n out) 0 ≡ scan max out n
unfolding fixed_digits scan
scan-fixed_digits max zero n out lt le = let e : n ≡ 0 = omega arith in rw e
scan-fixed_digits max (suc k) n out lt le =
    ground (arith, scan-fixed_digits max k (n / 10) ((b'0' + n % 10) ∷ out), div-lt-pow k n lt)

pow-pos : (m : ℕ) → 1 ≤ 10 ^ m
pow-pos zero = omega arith
pow-pos (suc m) = omega (arith, pow-pos m, pow-suc 10 m)

shift_eq : (m n : ℕ) → n * 10 ^ suc m ≡ n * 10 * 10 ^ m
shift_eq m n = omega (arith, ap (λ (t : ℕ). n * t) (pow-suc 10 m))

pub le-shift : (m n : ℕ) → n ≤ n * 10 ^ m
le-shift m n = grind (arith, pow-pos m)

pub scan-replicate :
    (max m n : ℕ) → n * 10 ^ m ≤ max → scan max (replicate m b'0') n ≡ some (n * 10 ^ m)
unfolding scan
scan-replicate max zero n h = ap {B = Option ℕ} some (omega arith)
scan-replicate max (suc m) n h =
    ground (arith, scan-replicate max m (n * 10), shift_eq m n, le-shift m (n * 10))
