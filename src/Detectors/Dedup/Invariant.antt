-- ===== src/Detectors/Dedup/Invariant.antt =====
-- The deduplicator stays bounded: `EventDeduplicator` in crates/obschain-detectors/src/dedup.rs.
use Prim.Native.Nat.{max}
use obschain.Prelude.{
  ℕ, ◌<◌, ◌≤◌, true, false, List, [], ◌∷◌, ◌++◌, Text, text_eq, contains-append, length, arith, ◌≡◌,
  refl, ◌==◌, inl, inr, Bool-cases, text_beq_iff, Option-cases,
}
use obschain.Prelude.Map.{HashMap, get, Distinct, get-insert, insert-Distinct, length-insert-le}
use obschain.Prelude.Queue.{Queued}
use obschain.Core.External.{DateTime}
use obschain.Core.Source.{ObservationWitness, new_witness}
use obschain.Core.Event.{ChainEvent}
use obschain.Detectors.Dedup.{
  Deduplicator, Instant, new, event_key, recorded, make_room, is_duplicate, drop_duplicate,
  record_fresh, attribute, push_witness, filter_one, filter_loop, filter,
}
use obschain.Detectors.Dedup.Room.{Attributed, HasRoom, make_room-HasRoom}

-- The deduplicator holds at most `m` keys.
pub record IsValid (m : ℕ) (d : Deduplicator) : Type 0 where
  pub limit : d.max_capacity ≡ m
  pub positive : 0 < d.max_capacity
  pub bounded : length d.seen ≤ d.max_capacity
  pub distinct : Distinct d.seen
  pub queued : Queued d.seen d.order
  pub attributed : Attributed d

pub new-IsValid : (max_capacity ttl : ℕ) → IsValid (max max_capacity 1) (new max_capacity ttl)
unfolding new get
new-IsValid max_capacity ttl = record {
  limit = refl;
  positive = omega arith;
  bounded = omega arith;
  distinct = tt;
  queued = λ k v h. cc;
  attributed = λ k h. refl;
}

get-push_ne :
    (key k : Text) (w : ObservationWitness) (m : HashMap Text (List ObservationWitness))
    → (key == k) ≡ false
    → get k (push_witness key w m) ≡ get k m
unfolding push_witness
get-push_ne key k w m h = ground (arith, get-insert key k (recorded key m ++ w ∷ []) m)

get-attribute_ne :
    (wall : DateTime) (event : ChainEvent) (m : HashMap Text (List ObservationWitness)) (k : Text)
    → (event_key event == k) ≡ false
    → get k (attribute wall event m) ≡ get k m
unfolding attribute
get-attribute_ne wall event m k h = elim (Option-cases event.source) [
  | inl e ↦ rw (e, attribute) refl
  | inr (src, e) ↦ rw (e, attribute) (get-push_ne (event_key event) k (new_witness wall src) m h)
]

module _ (now : Instant) (wall : DateTime) (event : ChainEvent) (d : Deduplicator) where
  record_fresh-IsValid : {m : ℕ} → HasRoom m d → IsValid m (record_fresh now wall event d)
  unfolding record_fresh
  record_fresh-IsValid h =
      let key : Text = event_key event in
      record {
        limit = h.limit;
        positive = omega (arith, h.room);
        bounded = omega (arith, h.room, length-insert-le key now d.seen);
        distinct = insert-Distinct key now d.seen h.distinct;
        queued = λ k v p. ground (
          arith,
          contains-append k d.order (key ∷ []),
          get-insert key k now d.seen,
          h.queued k v,
        );
        attributed = λ k p. ground (
          arith,
          get-insert key k now d.seen,
          get-attribute_ne wall event d.witnesses k,
          h.attributed k,
        );
      }

  drop_duplicate-IsValid :
      {m : ℕ}
      → IsValid m d
      → is_duplicate now (event_key event) d ≡ true
      → IsValid m (drop_duplicate wall event d)
  unfolding drop_duplicate is_duplicate
  drop_duplicate-IsValid h dup =
      let key : Text = event_key event in
      record {
        limit = h.limit;
        positive = h.positive;
        bounded = h.bounded;
        distinct = h.distinct;
        queued = h.queued;
        attributed = λ k p.
            ground (
              arith,
              text_beq_iff key k,
              get-attribute_ne wall event d.witnesses k,
              h.attributed k,
            );
      }

filter_one-IsValid :
    {m : ℕ} (now : Instant) (event : ChainEvent) (wall : DateTime) (d : Deduplicator)
    → IsValid m d
    → IsValid m (filter_one now event wall d).1
unfolding filter_one
filter_one-IsValid now event wall d h = elim (Bool-cases (is_duplicate now (event_key event) d)) [
  | inl dup ↦ rw dup (drop_duplicate-IsValid now wall event d h dup)
  | inr fresh ↦ rw fresh (
      record_fresh-IsValid now wall event (make_room d.order d)
        (make_room-HasRoom d.order d h.limit h.positive h.distinct h.queued h.attributed))
]

filter_loop-IsValid :
    {m : ℕ} (now : Instant) (events : List (ChainEvent × DateTime)) (d : Deduplicator)
    → IsValid m d
    → IsValid m (filter_loop now events d).1
unfolding filter_loop
filter_loop-IsValid now [] d h = h
filter_loop-IsValid now ((event, wall) ∷ events) d h =
    filter_loop-IsValid now events (filter_one now event wall d).1
      (filter_one-IsValid now event wall d h)

pub filter-IsValid :
    {m : ℕ} (now : Instant) (events : List (ChainEvent × DateTime)) (d : Deduplicator)
    → IsValid m d
    → IsValid m (filter now events d).1
unfolding filter
filter-IsValid now events d h = elim (Bool-cases d.poisoned) [
  | inl p ↦ simp p h
  | inr p ↦ simp p (filter_loop-IsValid now events d h)
]

-- What a history of batches leaves, each with the instant of its call.
unfoldable pub runs : List (Instant × List (ChainEvent × DateTime)) → Deduplicator → Deduplicator
runs [] d = d
runs ((now, events) ∷ batches) d = runs batches (filter now events d).1

runs-keeps :
    {m : ℕ} (batches : List (Instant × List (ChainEvent × DateTime))) (d : Deduplicator)
    → IsValid m d
    → IsValid m (runs batches d)
unfolding runs
runs-keeps [] d h = h
runs-keeps ((now, events) ∷ batches) d h =
    runs-keeps batches (filter now events d).1 (filter-IsValid now events d h)

-- Whatever capacity and time to live a deduplicator is made with, 0 included, and whatever
-- batches it has filtered at whatever instants: it holds at most `max(capacity, 1)` keys, each
-- key once, each of them waits in the eviction queue, and only they have witnesses.
pub runs-IsValid :
    (max_capacity ttl : ℕ) (batches : List (Instant × List (ChainEvent × DateTime)))
    → IsValid (max max_capacity 1) (runs batches (new max_capacity ttl))
runs-IsValid max_capacity ttl batches = runs-keeps batches _ (new-IsValid max_capacity ttl)
