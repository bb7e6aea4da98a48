-- ===== src/Detectors/Dedup/Counting.antt =====
-- Every event is counted once: `filter` in crates/obschain-detectors/src/dedup.rs.
use obschain.Prelude.{
  ℕ, suc, ◌+◌, ◌%◌, ◌^◌, false, List, [], ◌∷◌, length, arith, ◌≡◌, refl, inl, inr, Bool-cases,
}
use obschain.Core.External.{DateTime}
use obschain.Core.Event.{ChainEvent}
use obschain.Detectors.Dedup.{
  Deduplicator, Instant, event_key, make_room, is_duplicate, drop_duplicate, record_fresh,
  filter_one, filter_loop, filter,
}
use obschain.Detectors.Dedup.Room.{make_room-Untouched}

abbrev pub modulus : ℕ
modulus = 2 ^ 64

-- The counters hold `passed` and `dropped` more, as 64-bit counters do.
pub record Counted (passed dropped : ℕ) (d d' : Deduplicator) : Type 0 where
  pub passed_more : d'.passed_count % modulus ≡ (d.passed_count + passed) % modulus
  pub dropped_more : d'.deduplicated_count % modulus ≡ (d.deduplicated_count + dropped) % modulus

record_fresh-Counted :
    (now : Instant) (wall : DateTime) (event : ChainEvent) (d : Deduplicator)
    → Counted 1 0 d (record_fresh now wall event (make_room d.order d))
unfolding record_fresh
record_fresh-Counted now wall event d =
    let u = make_room-Untouched d.order d in
    record { passed_more = omega (arith, u.passed); dropped_more = omega (arith, u.deduplicated) }

drop_duplicate-Counted :
    (wall : DateTime) (event : ChainEvent) (d : Deduplicator)
    → Counted 0 1 d (drop_duplicate wall event d)
unfolding drop_duplicate
drop_duplicate-Counted wall event d = record {
  passed_more = omega arith;
  dropped_more = omega arith;
}

-- A batch that passed `passed` of its `passed + dropped` events is counted so.
pub record Accounted (events : ℕ) (fresh : List ChainEvent) (d d' : Deduplicator) : Type 0 where
  pub dropped : ℕ
  pub all : length fresh + dropped ≡ events
  pub counted : Counted (length fresh) dropped d d'

module _ (n : ℕ) (d d' d'' : Deduplicator) where
  Accounted-drop :
      (out : List ChainEvent)
      → Counted 0 1 d d'
      → Accounted n out d' d''
      → Accounted (suc n) out d d''
  Accounted-drop out c h = record {
    dropped = h.dropped + 1;
    all = omega (arith, h.all);
    counted = record {
      passed_more = omega (arith, c.passed_more, h.counted.passed_more);
      dropped_more = omega (arith, c.dropped_more, h.counted.dropped_more);
    };
  }

  Accounted-pass :
      (event : ChainEvent) (out : List ChainEvent)
      → Counted 1 0 d d'
      → Accounted n out d' d''
      → Accounted (suc n) (event ∷ out) d d''
  Accounted-pass event out c h = record {
    dropped = h.dropped;
    all = omega (arith, h.all);
    counted = record {
      passed_more = omega (arith, c.passed_more, h.counted.passed_more);
      dropped_more = omega (arith, c.dropped_more, h.counted.dropped_more);
    };
  }

filter_loop-Accounted :
    (now : Instant) (events : List (ChainEvent × DateTime)) (d : Deduplicator)
    → Accounted (length events) (filter_loop now events d).0 d (filter_loop now events d).1
unfolding filter_loop filter_one
filter_loop-Accounted now [] d = record {
  dropped = 0;
  all = refl;
  counted = record { passed_more = omega arith; dropped_more = omega arith };
}
filter_loop-Accounted now ((event, wall) ∷ events) d =
    elim (Bool-cases (is_duplicate now (event_key event) d)) [
      | inl dup ↦ rw dup (
          Accounted-drop (length events) d (drop_duplicate wall event d) _ _
            (drop_duplicate-Counted wall event d)
            (filter_loop-Accounted now events (drop_duplicate wall event d)))
      | inr fresh ↦ rw fresh (
          Accounted-pass (length events) d (record_fresh now wall event (make_room d.order d)) _ _ _
            (record_fresh-Counted now wall event d)
            (filter_loop-Accounted now events (record_fresh now wall event (make_room d.order d))))
    ]

-- While its lock is not poisoned, `filter` splits a batch into the events that it returns and
-- those that it drops: the 64-bit counters `passed_count` and `deduplicated_count` grow by the
-- numbers of the one and of the other, which add up to the length of the batch.
pub filter-Accounted :
    (now : Instant) (events : List (ChainEvent × DateTime)) (d : Deduplicator)
    → d.poisoned ≡ false
    → Accounted (length events) (filter now events d).0 d (filter now events d).1
unfolding filter
filter-Accounted now events d h = simp h (filter_loop-Accounted now events d)
