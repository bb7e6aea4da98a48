-- ===== src/Prelude/Queue.antt =====
-- A map with a queue of its keys, oldest first, as the program's bounded caches keep it.
use Prim.Native.Nat.{◌≤◌}
use mathlib.Core.Path.{◌≡◌, refl, ap}
use mathlib.Core.Bool.{true, false, not}
use mathlib.Core.Logic.{inl, inr}
use mathlib.Core.Option.{some}
use mathlib.Core.List.{List, [], ◌∷◌}
use native.Mathlib.Omega.{arith}
use obschain.Prelude.Tests.{Eq, ◌==◌, beq_refl, Option-cases}
use obschain.Prelude.Lists.{length, contains, retain}
use obschain.Prelude.Map.{
  HashMap, get, remove, Distinct, get-remove, length-remove, remove-Distinct, remove_absent,
}

-- Every key of the map waits in the queue.
module _ {K : Type 0} ⦃e : Eq K⦄ where
  abbrev pub Queued : {V : Type 0} → HashMap K V → List K → Type 0
  Queued {V} m order = (k : K) (v : V) → get k m ≡ some v → contains k order ≡ true

  pub Queued-remove :
      {V : Type 0} (m : HashMap K V) (oldest : K) (rest : List K)
      → Queued m (oldest ∷ rest)
      → Queued (remove oldest m) rest
  Queued-remove m oldest rest q k v h = ground (arith, get-remove oldest k m, q k v)

  pub Queued-nil : {V : Type 0} (m : HashMap K V) → Queued m [] → length m ≡ 0
  unfolding get
  Queued-nil [] q = refl
  Queued-nil ((k, v) ∷ m) q = cc (q k v (rw (beq_refl k)))

  -- A map whose keys all wait is no longer than its queue.
  pub Queued-length-le :
      {V : Type 0} (m : HashMap K V) (order : List K)
      → Distinct m
      → Queued m order
      → length m ≤ length order
  Queued-length-le m [] d q = omega (arith, Queued-nil m q)
  Queued-length-le m (k ∷ rest) d q =
      let ih =
        Queued-length-le (remove k m) rest (remove-Distinct k m d) (Queued-remove m k rest q) in
      elim (Option-cases (get k m)) [
        | inl absent ↦ omega (arith, ih, ap length (remove_absent k m absent))
        | inr (v, there) ↦ omega (arith, ih, length-remove k v m d there)
      ]

  -- The queue without a key: `order.retain(|k| k != key)`
  abbrev pub without : K → List K → List K
  without key order = retain (λ k. not (k == key)) order

  contains-without :
      (key k : K) (order : List K)
      → (key == k) ≡ false
      → contains k (without key order) ≡ contains k order
  contains-without key k [] h = refl
  contains-without key k (j ∷ order) h =
      ground
        (arith, contains-without key k order h, e.beq_iff j key, e.beq_iff j k, e.beq_iff key k)

  pub Queued-without :
      {V : Type 0} (key : K) (m : HashMap K V) (order : List K)
      → Queued m order
      → Queued (remove key m) (without key order)
  Queued-without key m order q k v h =
      ground (arith, get-remove key k m, q k v, contains-without key k order)
