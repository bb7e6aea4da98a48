-- ===== src/Detectors/FanOut/Sorting.antt =====
-- The sort that the output statistics stand on: it orders, and it keeps every value as often as it
-- occurs.
use obschain.Prelude.{
  ℕ, zero, suc, ◌+◌, ◌≤◌, ◌<◌, List, [], ◌∷◌, length, get_elem?, All, arith, ◌≡◌, refl, leb, ◌==◌,
  nat_eq, if◌then◌else◌, inl, inr, Bool-cases, leb→le,
}
use obschain.Detectors.FanOut.{place, sort, or_zero}

abbrev pub Above : ℕ → List ℕ → Type 0
Above a xs = All (λ b. a ≤ b) xs

abbrev pub Sorted : List ℕ → Type 0
Sorted [] = Unit
Sorted (a ∷ xs) = Above a xs × Sorted xs

-- how often a value occurs
abbrev pub count : ℕ → List ℕ → ℕ
count n [] = 0
count n (a ∷ xs) = let rest = count n xs in if a == n then rest + 1 else rest

Above-le : (a b : ℕ) (xs : List ℕ) → a ≤ b → Above b xs → Above a xs
Above-le a b [] h u = tt
Above-le a b (c ∷ xs) h u = (omega (arith, h, u.0), Above-le a b xs h u.1)

Above-place : (a b : ℕ) (xs : List ℕ) → b ≤ a → Above b xs → Above b (place a xs)
unfolding place
Above-place a b [] h u = (h, tt)
Above-place a b (c ∷ xs) h u = elim (Bool-cases (leb a c)) [
  | inl e ↦ rw e (h, (u.0, u.1))
  | inr e ↦ rw e (u.0, Above-place a b xs h u.1)
]

place-Sorted : (a : ℕ) (xs : List ℕ) → Sorted xs → Sorted (place a xs)
unfolding place
place-Sorted a [] s = (tt, tt)
place-Sorted a (b ∷ xs) s = elim (Bool-cases (leb a b)) [
  | inl e ↦ rw e ((leb→le a b e, Above-le a b xs (leb→le a b e) s.0), (s.0, s.1))
  | inr e ↦ rw e (Above-place a b xs (ground (arith, e)) s.0, place-Sorted a xs s.1)
]

pub sort-Sorted : (xs : List ℕ) → Sorted (sort xs)
unfolding sort
sort-Sorted [] = tt
sort-Sorted (a ∷ xs) = place-Sorted a (sort xs) (sort-Sorted xs)

count-place : (n a : ℕ) (xs : List ℕ) → count n (place a xs) ≡ count n (a ∷ xs)
unfolding place
count-place n a [] = refl
count-place n a (b ∷ xs) = ground (arith, count-place n a xs)

pub count-sort : (n : ℕ) (xs : List ℕ) → count n (sort xs) ≡ count n xs
unfolding sort
count-sort n [] = refl
count-sort n (a ∷ xs) = ground (arith, count-place n a (sort xs), count-sort n xs)

length-place : (a : ℕ) (xs : List ℕ) → length (place a xs) ≡ suc (length xs)
unfolding place
length-place a [] = refl
length-place a (b ∷ xs) = ground (arith, length-place a xs)

pub length-sort : (xs : List ℕ) → length (sort xs) ≡ length xs
unfolding sort
length-sort [] = refl
length-sort (a ∷ xs) = omega (arith, length-place a (sort xs), length-sort xs)

Above-get : (a i : ℕ) (xs : List ℕ) → Above a xs → i < length xs → a ≤ or_zero (get_elem? xs i)
Above-get a i [] u h = omega arith
Above-get a zero (b ∷ xs) u h = u.0
Above-get a (suc i) (b ∷ xs) u h = Above-get a i xs u.1 (omega arith)

-- In a sorted list a later element is not less.
pub Sorted-get :
    (i j : ℕ) (xs : List ℕ)
    → Sorted xs
    → i ≤ j
    → j < length xs
    → or_zero (get_elem? xs i) ≤ or_zero (get_elem? xs j)
Sorted-get i j [] s h k = omega arith
Sorted-get zero zero (a ∷ xs) s h k = omega arith
Sorted-get zero (suc j) (a ∷ xs) s h k = Above-get a j xs s.0 (omega arith)
Sorted-get (suc i) zero (a ∷ xs) s h k = omega arith
Sorted-get (suc i) (suc j) (a ∷ xs) s h k = Sorted-get i j xs s.1 (omega arith) (omega arith)

-- A value that occurs lies between the ends of a sorted list.
pub occurs-get :
    (n : ℕ) (xs : List ℕ)
    → 0 < count n xs
    → (i : ℕ) × (i < length xs) × (or_zero (get_elem? xs i) ≡ n)
occurs-get n [] h = ground arith
occurs-get n (a ∷ xs) h = elim (Bool-cases (a == n)) [
  | inl e ↦ (0, omega arith, ground (arith, e))
  | inr e ↦
      let (i, small, at) = occurs-get n xs (ground (arith, e)) in (suc i, omega (arith, small), at)
]
