-- ===== src/Storage/Keys.antt =====
-- The collections of crates/obschain-storage/src/repository.rs by the keys of their elements: what
-- saving an element does to the keys, and that it is found again.
use obschain.Prelude.{
  ℕ, ◌<◌, Bool, true, false, some, List, [], ◌∷◌, ◌++◌, map, any, find, length, contains,
  contains-append, map-append, leb, Eq, ◌==◌, beq_refl, beq_sym, if◌then◌else◌, arith, ◌≡◌, refl,
  ap, sym, ◌∙◌, inl, inr, Bool-cases, length-map,
}
use obschain.Storage.Memory.{upsert, change_first, make_room}
use obschain.Storage.Finding.{find-last, make_room-find, find-push_other}

module _ {K : Type 0} ⦃e : Eq K⦄ where
  -- No key occurs twice.
  abbrev pub Unique : List K → Type 0
  Unique [] = Unit
  Unique (k ∷ ks) = (contains k ks ≡ false) × Unique ks

  -- A key that is new comes last.
  abbrev pub enter : K → List K → List K
  enter k ks = if contains k ks then ks else ks ++ k ∷ []

  -- A key that is new comes last, and the oldest one gives way to it in a full collection.
  abbrev pub enter_bounded : ℕ → K → List K → List K
  enter_bounded limit k ks = if contains k ks then ks else make_room limit ks ++ k ∷ []

  pub Unique-last :
      (k : K) (ks : List K) → contains k ks ≡ false → Unique ks → Unique (ks ++ k ∷ [])
  Unique-last k [] h u = (refl, tt)
  Unique-last k (j ∷ ks) h u = (
    ground (arith, contains-append j ks (k ∷ []), beq_sym j k, beq_sym k j, u.0),
    Unique-last k ks (ground (arith, beq_sym j k)) u.1,
  )

  pub enter-Unique : (k : K) (ks : List K) → Unique ks → Unique (enter k ks)
  enter-Unique k ks u = elim (Bool-cases (contains k ks)) [
    | inl there ↦ rw there u
    | inr new ↦ rw new (Unique-last k ks new u)
  ]

  make_room-Unique : (limit : ℕ) (ks : List K) → Unique ks → Unique (make_room limit ks)
  unfolding make_room
  make_room-Unique limit [] u = tt
  make_room-Unique limit (k ∷ ks) u = elim (Bool-cases (leb limit (length (k ∷ ks)))) [
    | inl full ↦ rw full u.1
    | inr room ↦ rw room u
  ]

  make_room-absent :
      (limit : ℕ) (k : K) (ks : List K)
      → contains k ks ≡ false
      → contains k (make_room limit ks) ≡ false
  unfolding make_room
  make_room-absent limit k [] h = refl
  make_room-absent limit k (j ∷ ks) h = ground arith

  pub enter_bounded-Unique :
      (limit : ℕ) (k : K) (ks : List K) → Unique ks → Unique (enter_bounded limit k ks)
  enter_bounded-Unique limit k ks u = elim (Bool-cases (contains k ks)) [
    | inl there ↦ rw there u
    | inr new ↦ rw new (
        Unique-last k (make_room limit ks) (make_room-absent limit k ks new)
          (make_room-Unique limit ks u))
  ]

module _ {A K : Type 0} ⦃e : Eq K⦄ (key : A → K) where
  pub any-keys : (k : K) (xs : List A) → any (λ x. key x == k) xs ≡ contains k (map key xs)
  any-keys k [] = refl
  any-keys k (x ∷ xs) = ground (arith, any-keys k xs)

  pub upsert-keys :
      (a : A) (xs : List A)
      → map key (upsert (λ x. key x == key a) a xs) ≡ enter (key a) (map key xs)
  unfolding upsert
  upsert-keys a [] = refl
  upsert-keys a (x ∷ xs) = elim (Bool-cases (key x == key a)) [
    | inl same ↦ rw same (ap (λ k. k ∷ map key xs) (sym ((e.beq_iff (key x) (key a)).0 same)))
    | inr other ↦ elim (Bool-cases (contains (key a) (map key xs))) [
      | inl there ↦ rw (other, there) (ap (λ ks. key x ∷ ks) (upsert-keys a xs ∙ rw there refl))
      | inr new ↦ rw (other, new) (ap (λ ks. key x ∷ ks) (upsert-keys a xs ∙ rw new refl))
    ]
  ]

  pub change_first-keys :
      (p : A → Bool) (f : A → A) (xs : List A)
      → ((x : A) → key (f x) ≡ key x)
      → map key (change_first p f xs) ≡ map key xs
  unfolding change_first
  change_first-keys p f [] h = refl
  change_first-keys p f (x ∷ xs) h = ground (arith, change_first-keys p f xs h, h x)

  make_room-keys :
      (limit : ℕ) (xs : List A) → map key (make_room limit xs) ≡ make_room limit (map key xs)
  unfolding make_room
  make_room-keys limit [] = refl
  make_room-keys limit (x ∷ xs) =
      rw (length-map key xs) elim (Bool-cases (leb limit (length (x ∷ xs)))) [
        | inl full ↦ rw full refl
        | inr room ↦ rw room refl
      ]

  -- what `save_event`, `save_activity` and `save_alert` do to the keys of a new element
  pub push-keys :
      (limit : ℕ) (a : A) (xs : List A)
      → any (λ x. key x == key a) xs ≡ false
      → map key (make_room limit xs ++ a ∷ []) ≡ enter_bounded limit (key a) (map key xs)
  push-keys limit a xs new = rw (sym (any-keys (key a) xs) ∙ new) (
      map-append key (make_room limit xs) (a ∷ [])
      ∙ ap (λ ks. ks ++ key a ∷ []) (make_room-keys limit xs))

  pub known-keys :
      (limit : ℕ) (k : K) (xs : List A)
      → any (λ x. key x == k) xs ≡ true
      → enter_bounded limit k (map key xs) ≡ map key xs
  known-keys limit k xs there = rw (sym (any-keys k xs) ∙ there) refl

  pub enter-known :
      (k : K) (xs : List A) → any (λ x. key x == k) xs ≡ true → enter k (map key xs) ≡ map key xs
  enter-known k xs there = rw (sym (any-keys k xs) ∙ there) refl

  pub find-upsert :
      (a : A) (xs : List A)
      → find (λ x. key x == key a) (upsert (λ x. key x == key a) a xs) ≡ some a
  unfolding upsert
  find-upsert a [] = rw (beq_refl (key a)) refl
  find-upsert a (x ∷ xs) = ground (arith, find-upsert a xs, beq_refl (key a))

  pub find-upsert_other :
      (k : K) (a : A) (xs : List A)
      → (key a == k) ≡ false
      → find (λ x. key x == k) (upsert (λ x. key x == key a) a xs) ≡ find (λ x. key x == k) xs
  unfolding upsert
  find-upsert_other k a [] h = rw h refl
  find-upsert_other k a (x ∷ xs) h =
      ground (arith, find-upsert_other k a xs h, e.beq_iff (key x) (key a))

  -- A new element is found after it is pushed, even into a full collection.
  pub find-push :
      (limit : ℕ) (a : A) (xs : List A)
      → any (λ x. key x == key a) xs ≡ false
      → find (λ x. key x == key a) (make_room limit xs ++ a ∷ []) ≡ some a
  find-push limit a xs new =
      find-last (λ x. key x == key a) a (make_room limit xs) (beq_refl (key a))
        (make_room-find limit (λ x. key x == key a) xs new)

  pub find-change_first :
      (k : K) (f : A → A) (xs : List A) (b : A)
      → ((x : A) → key (f x) ≡ key x)
      → find (λ x. key x == k) xs ≡ some b
      → find (λ x. key x == k) (change_first (λ x. key x == k) f xs) ≡ some (f b)
  unfolding change_first
  find-change_first k f [] b same h = cc
  find-change_first k f (x ∷ xs) b same h = ground (arith, find-change_first k f xs b same, same x)

  pub find-upsert_at :
      (k : K) (a : A) (xs : List A)
      → find (λ x. key x == k) (upsert (λ x. key x == key a) a xs)
        ≡ (if key a == k then some a else find (λ x. key x == k) xs)
  unfolding upsert
  find-upsert_at k a [] = refl
  find-upsert_at k a (x ∷ xs) = ground (
    arith,
    find-upsert_at k a xs,
    e.beq_iff (key x) (key a),
    e.beq_iff (key x) k,
    e.beq_iff (key a) k,
  )

  pub find-push_at :
      (limit : ℕ) (k : K) (a : A) (xs : List A)
      → length xs < limit
      → any (λ x. key x == key a) xs ≡ false
      → find (λ x. key x == k) (make_room limit xs ++ a ∷ [])
        ≡ (if key a == k then some a else find (λ x. key x == k) xs)
  find-push_at limit k a xs room new = elim (Bool-cases (key a == k)) [
    | inl same ↦ rw (same, sym ((e.beq_iff (key a) k).0 same)) (find-push limit a xs new)
    | inr other ↦ rw other (find-push_other limit (λ x. key x == k) a xs room other)
  ]
