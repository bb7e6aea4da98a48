-- ===== src/Storage/Kept.antt =====
-- A bounded collection of crates/obschain-storage/src/repository.rs whose elements have keys of their own.
use obschain.Prelude.{
  ℕ, ◌≤◌, Bool, true, false, List, [], ◌∷◌, ◌++◌, map, any, length, Eq, ◌==◌, arith, ◌≡◌,
  length-append, map-append, sym, ◌∙◌,
}
use obschain.Storage.Memory.{upsert, make_room, change_first}
use obschain.Storage.Finding.{capacity, length-make_room, length-upsert, length-change_first}
use obschain.Storage.Keys.{
  Unique, Unique-last, any-keys, enter-Unique, enter_bounded-Unique, upsert-keys, change_first-keys,
  push-keys,
}

-- A collection whose elements have different keys, and no more of them than its limit.
pub record IsKept {A K : Type 0} ⦃e : Eq K⦄ (key : A → K) (limit : ℕ) (xs : List A) : Type 0 where
  pub unique : Unique (map key xs)
  pub bounded : length xs ≤ capacity limit

module _ {A K : Type 0} ⦃e : Eq K⦄ (key : A → K) where
  pub push-IsKept :
      (limit most : ℕ) (a : A) (xs : List A)
      → limit ≤ most
      → any (λ x. key x == key a) xs ≡ false
      → IsKept key most xs
      → IsKept key most (make_room limit xs ++ a ∷ [])
  push-IsKept limit most a xs le new h = record {
    unique =
        rw (push-keys key limit a xs new)
          (enter_bounded-Unique limit (key a) (map key xs) h.unique);
    bounded = omega (
      arith,
      length-append (make_room limit xs) (a ∷ []),
      length-make_room limit most xs le h.bounded,
    );
  }

  pub push-Unique :
      (a : A) (xs : List A)
      → any (λ x. key x == key a) xs ≡ false
      → Unique (map key xs)
      → Unique (map key (xs ++ a ∷ []))
  push-Unique a xs new u =
      rw (map-append key xs (a ∷ []))
        (Unique-last (key a) (map key xs) (sym (any-keys key (key a) xs) ∙ new) u)

  pub upsert-Unique :
      (a : A) (xs : List A)
      → Unique (map key xs)
      → Unique (map key (upsert (λ x. key x == key a) a xs))
  upsert-Unique a xs u = rw (upsert-keys key a xs) (enter-Unique (key a) (map key xs) u)

  pub upsert-IsKept :
      (limit : ℕ) (a : A) (xs : List A)
      → any (λ x. key x == key a) xs ≡ true
      → IsKept key limit xs
      → IsKept key limit (upsert (λ x. key x == key a) a xs)
  upsert-IsKept limit a xs there h = record {
    unique = upsert-Unique a xs h.unique;
    bounded = omega (arith, length-upsert (λ x. key x == key a) a xs there, h.bounded);
  }

  pub change-IsKept :
      (limit : ℕ) (p : A → Bool) (f : A → A) (xs : List A)
      → ((x : A) → key (f x) ≡ key x)
      → IsKept key limit xs
      → IsKept key limit (change_first p f xs)
  change-IsKept limit p f xs same h = record {
    unique = rw (change_first-keys key p f xs same) h.unique;
    bounded = omega (arith, length-change_first p f xs, h.bounded);
  }

  pub nil-IsKept : (limit : ℕ) → IsKept key limit []
  nil-IsKept limit = record { unique = tt; bounded = omega arith }
