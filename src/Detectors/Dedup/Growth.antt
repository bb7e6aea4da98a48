-- ===== src/Detectors/Dedup/Growth.antt =====
-- The eviction queue keeps the old places of keys that are seen again: `EventDeduplicator::filter`
-- in crates/obschain-detectors/src/dedup.rs.
use obschain.Prelude.{
  ℕ, zero, suc, ◌+◌, ◌<◌, true, false, List, [], ◌∷◌, Text, text_eq, length, length-append, arith,
  ◌≡◌, refl, ap, ltb, beq_refl,
}
use obschain.Prelude.Map.{get, insert, remove}
use obschain.Core.External.{DateTime}
use obschain.Core.Event.{ChainEvent}
use obschain.Detectors.Dedup.{
  Deduplicator, Instant, new, event_key, make_room, is_duplicate, record_fresh, filter_one,
}

-- One key is seen, last at `at`, and the queue holds `n` places.
record Lone (n at : ℕ) (event : ChainEvent) (d d' : Deduplicator) : Type 0 where
  seen : d'.seen ≡ (event_key event, at) ∷ []
  queue : length d'.order ≡ n
  capacity : d'.max_capacity ≡ d.max_capacity
  ttl : d'.ttl ≡ d.ttl

pub make_room_spare :
    (order : List Text) (d : Deduplicator)
    → ltb (length d.seen) d.max_capacity ≡ true
    → make_room order d ≡ record d { order = order }
unfolding make_room
make_room_spare [] d h = refl
make_room_spare (k ∷ order) d h = rw h refl

first-Lone :
    (at cap ttl : ℕ) (event : ChainEvent) (wall : DateTime)
    → Lone 1 at event (new cap ttl) (filter_one at event wall (new cap ttl)).1
unfolding new filter_one is_duplicate get make_room record_fresh insert remove
first-Lone at cap ttl event wall = record { seen = refl; queue = refl; capacity = refl; ttl = refl }

module _ (n at : ℕ) (event : ChainEvent) (d d' : Deduplicator) (h : Lone n at event d d') where
  stale : is_duplicate (at + d.ttl) (event_key event) d' ≡ false
  unfolding is_duplicate get
  stale = ground (arith, h.seen, h.ttl, beq_refl (event_key event))

  reinserted : insert (event_key event) (at + d.ttl) d'.seen ≡ (event_key event, at + d.ttl) ∷ []
  unfolding insert remove
  reinserted = ground (arith, h.seen, beq_refl (event_key event))

  step-Lone :
      (wall : DateTime)
      → 1 < d.max_capacity
      → Lone (suc n) (at + d.ttl) event d (filter_one (at + d.ttl) event wall d').1
  unfolding filter_one record_fresh
  step-Lone wall cap =
      rw (stale, make_room_spare d'.order d' (ground (arith, h.seen, h.capacity)))
        (record {
          seen = reinserted;
          queue = omega (arith, h.queue, length-append d'.order (event_key event ∷ []));
          capacity = h.capacity;
          ttl = h.ttl;
        })

-- `filter` sees the event `n + 1` times, from instant 0 on, one time to live apart.
unfoldable pub repeated : ℕ → ChainEvent → DateTime → Deduplicator → Instant × Deduplicator
repeated zero event wall d = (0, (filter_one 0 event wall d).1)
repeated (suc n) event wall d =
    let (at, d') = repeated n event wall d in
    (at + d.ttl, (filter_one (at + d.ttl) event wall d').1)

repeated-Lone :
    (n cap ttl : ℕ) (event : ChainEvent) (wall : DateTime)
    → 1 < cap
    → Lone
        (suc n)
        (repeated n event wall (new cap ttl)).0
        event
        (new cap ttl)
        (repeated n event wall (new cap ttl)).1
unfolding repeated new
repeated-Lone zero cap ttl event wall h = first-Lone 0 cap ttl event wall
repeated-Lone (suc n) cap ttl event wall h =
    step-Lone (suc n) (repeated n event wall (new cap ttl)).0 event (new cap ttl)
      (repeated n event wall (new cap ttl)).1 (repeated-Lone n cap ttl event wall h) wall
      (omega arith)

-- The eviction queue has no bound: with any capacity above 1, an event that comes back each time
-- its time to live is over takes one more place of the queue each time, while the deduplicator
-- keeps one key.
pub repeated-order :
    (n cap ttl : ℕ) (event : ChainEvent) (wall : DateTime)
    → 1 < cap
    → (length (repeated n event wall (new cap ttl)).1.order ≡ n + 1)
      × (length (repeated n event wall (new cap ttl)).1.seen ≡ 1)
repeated-order n cap ttl event wall h =
    let lone = repeated-Lone n cap ttl event wall h in
    (omega (arith, lone.queue), ap (λ m. length m) lone.seen)
