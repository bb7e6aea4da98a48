-- ===== src/Prelude/Sorting.antt =====
-- The stable sort of the language, by a test that tells whether an element may stand before another.
use mathlib.Core.Path.{◌≡◌, refl, ap, ◌∙◌}
use mathlib.Core.Logic.{inl, inr}
use mathlib.Core.Bool.{Bool, true, false}
use mathlib.Core.List.{List, [], ◌∷◌}
use Prim.Native.Nat.{suc}
use native.Mathlib.Omega.{arith}
use obschain.Prelude.Tests.{if◌then◌else◌, Bool-cases}
use obschain.Prelude.Lists.{length, All}

module _ {A : Type 0} (before : A → A → Bool) where
  place : A → List A → List A
  place a [] = a ∷ []
  place a (b ∷ bs) = let rest = place a bs in if before a b then a ∷ b ∷ bs else b ∷ rest

  -- `sort_by`
  unfoldable pub sort_by : List A → List A
  unfolding place
  sort_by [] = []
  sort_by (a ∷ xs) = place a (sort_by xs)

  length-place : (a : A) (xs : List A) → length (place a xs) ≡ suc (length xs)
  unfolding place
  length-place a [] = refl
  length-place a (b ∷ xs) = ground (arith, length-place a xs)

  pub length-sort_by : (xs : List A) → length (sort_by xs) ≡ length xs
  unfolding sort_by
  length-sort_by [] = refl
  length-sort_by (a ∷ xs) = length-place a (sort_by xs) ∙ ap suc (length-sort_by xs)

  module _ (P : A → Type 0) where
    place-All : (a : A) (xs : List A) → P a → All P xs → All P (place a xs)
    unfolding place
    place-All a [] p ps = (p, tt)
    place-All a (b ∷ xs) p (q, qs) = elim (Bool-cases (before a b)) [
      | inl e ↦ rw e (p, (q, qs))
      | inr e ↦ rw e (q, place-All a xs p qs)
    ]

    -- What holds of every element holds of every element of the sorted list.
    pub sort_by-All : (xs : List A) → All P xs → All P (sort_by xs)
    unfolding sort_by
    sort_by-All [] ps = tt
    sort_by-All (a ∷ xs) (p, ps) = place-All a (sort_by xs) p (sort_by-All xs ps)

  -- Every element may stand before every later one.
  abbrev pub Sorted : List A → Type 0
  Sorted [] = Unit
  Sorted (a ∷ xs) = All (λ b. before a b ≡ true) xs × Sorted xs

  pub record IsOrder : Type 0 where
    pub total : (a b : A) → before a b ≡ false → before b a ≡ true
    pub trans : (a b c : A) → before a b ≡ true → before b c ≡ true → before a c ≡ true

  module _ (o : IsOrder) where
    All-trans :
        (a b : A) (xs : List A)
        → before a b ≡ true
        → All (λ c. before b c ≡ true) xs
        → All (λ c. before a c ≡ true) xs
    All-trans a b [] h ps = tt
    All-trans a b (c ∷ xs) h (p, ps) = (o.trans a b c h p, All-trans a b xs h ps)

    place-Sorted : (a : A) (xs : List A) → Sorted xs → Sorted (place a xs)
    unfolding place
    place-Sorted a [] s = (tt, tt)
    place-Sorted a (b ∷ xs) (least, s) = elim (Bool-cases (before a b)) [
      | inl e ↦ rw e ((e, All-trans a b xs e least), (least, s))
      | inr e ↦
          rw e (place-All (λ c. before b c ≡ true) a xs (o.total a b e) least, place-Sorted a xs s)
    ]

    pub sort_by-Sorted : (xs : List A) → Sorted (sort_by xs)
    unfolding sort_by
    sort_by-Sorted [] = tt
    sort_by-Sorted (a ∷ xs) = place-Sorted a (sort_by xs) (sort_by-Sorted xs)
