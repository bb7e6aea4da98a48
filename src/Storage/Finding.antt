-- ===== src/Storage/Finding.antt =====
-- What the operations on the collections of crates/obschain-storage/src/repository.rs do to their
-- lengths and to what `find` finds.
use obschain.Prelude.{
  ℕ, ◌+◌, ◌-◌, ◌≤◌, ◌<◌, Bool, true, false, none, some, List, [], ◌∷◌, ◌++◌, any, find, length,
  arith, ◌≡◌, refl, inl, inr, Bool-cases,
}
use obschain.Storage.Memory.{upsert, change_first, make_room}

-- the least capacity a collection has: `push_back` follows `pop_front` even when the limit is 0
abbrev pub capacity : ℕ → ℕ
capacity limit = limit - 1 + 1

pub length-make_room :
    {A : Type 0} (limit most : ℕ) (xs : List A)
    → limit ≤ most
    → length xs ≤ capacity most
    → length (make_room limit xs) + 1 ≤ capacity most
unfolding make_room
length-make_room limit most [] le h = omega arith
length-make_room limit most (x ∷ xs) le h = ground arith

module _ {A : Type 0} where
  pub length-upsert :
      (p : A → Bool) (a : A) (xs : List A) → any p xs ≡ true → length (upsert p a xs) ≡ length xs
  unfolding upsert
  length-upsert p a [] h = cc
  length-upsert p a (x ∷ xs) h = ground (arith, length-upsert p a xs)

  pub length-change_first :
      (p : A → Bool) (f : A → A) (xs : List A) → length (change_first p f xs) ≡ length xs
  unfolding change_first
  length-change_first p f [] = refl
  length-change_first p f (x ∷ xs) = ground (arith, length-change_first p f xs)

  pub find-absent : (p : A → Bool) (xs : List A) → any p xs ≡ false → find p xs ≡ none
  find-absent p [] h = refl
  find-absent p (x ∷ xs) h = ground (arith, find-absent p xs)

  pub make_room-find :
      (limit : ℕ) (p : A → Bool) (xs : List A)
      → any p xs ≡ false
      → find p (make_room limit xs) ≡ none
  unfolding make_room
  make_room-find limit p [] h = refl
  make_room-find limit p (x ∷ xs) h = ground (arith, find-absent p xs)

  pub find-last :
      (p : A → Bool) (a : A) (xs : List A)
      → p a ≡ true
      → find p xs ≡ none
      → find p (xs ++ a ∷ []) ≡ some a
  find-last p a [] h n = rw h refl
  find-last p a (x ∷ xs) h n = ground (arith, find-last p a xs h)

  find-last_other :
      (p : A → Bool) (a : A) (xs : List A) → p a ≡ false → find p (xs ++ a ∷ []) ≡ find p xs
  find-last_other p a [] h = rw h refl
  find-last_other p a (x ∷ xs) h = ground (arith, find-last_other p a xs h)

  -- No other element is lost while there is room.
  pub find-push_other :
      (limit : ℕ) (p : A → Bool) (a : A) (xs : List A)
      → length xs < limit
      → p a ≡ false
      → find p (make_room limit xs ++ a ∷ []) ≡ find p xs
  unfolding make_room
  find-push_other limit p a [] room h = find-last_other p a [] h
  find-push_other limit p a (x ∷ xs) room h = ground (arith, find-last_other p a (x ∷ xs) h)

  pub find-any : (p : A → Bool) (xs : List A) → any p xs ≡ true → (a : A) × (find p xs ≡ some a)
  find-any p [] h = cc
  find-any p (x ∷ xs) h = elim (Bool-cases (p x)) [
    | inl here ↦ (x, rw here refl)
    | inr later ↦ let (a, found) = find-any p xs (ground arith) in (a, rw later found)
  ]
