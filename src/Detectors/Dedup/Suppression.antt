-- ===== src/Detectors/Dedup/Suppression.antt =====
-- A repeated event within the time to live is suppressed: `EventDeduplicator::filter` in
-- crates/obschain-detectors/src/dedup.rs.
use mathlib.Core.List.{append-nil}
use obschain.Detectors.Dedup.Growth.{make_room_spare}
use obschain.Prelude.{
  ℕ, length, ◌≤◌, ◌==◌, inl, inr, Bool-cases, text_beq_iff, lt→ltb, ◌∙◌, ◌<◌, ◌-◌, ◌+◌, ◌%◌, ◌^◌,
  true, false, Option, none, some, List, [], ◌∷◌, ◌++◌, Text, text_eq, arith, ◌≡◌, refl, sym,
}
use obschain.Prelude.Map.{HashMap, get, get-insert, get-insert_self, length-insert-le}
use obschain.Core.External.{DateTime}
use obschain.Core.Source.{ObservationSource, ObservationWitness, new_witness}
use obschain.Core.Event.{ChainEvent, identity_key}
use obschain.Detectors.Dedup.{
  Deduplicator, Instant, event_key, make_room, is_duplicate, drop_duplicate, record_fresh,
  filter_one, recorded, attribute, push_witness,
}
use obschain.Detectors.Dedup.Room.{make_room-Untouched}

-- The deduplicator's key of an event is the key of the event's identity.
pub event_key-identity_key : (event : ChainEvent) → event_key event ≡ identity_key event
unfolding event_key identity_key
event_key-identity_key event = refl

-- An event that passes is seen at its instant.
first-StillSeen :
    (now : Instant) (event : ChainEvent) (wall : DateTime) (d : Deduplicator)
    → is_duplicate now (event_key event) d ≡ false
    → (get (event_key event) (filter_one now event wall d).1.seen ≡ some now)
      × ((filter_one now event wall d).1.ttl ≡ d.ttl)
unfolding filter_one record_fresh
first-StillSeen now event wall d fresh =
    let roomy = make_room d.order d in
    rw fresh (get-insert_self (event_key event) now roomy.seen, (make_room-Untouched d.order d).ttl)

-- the witness that an event leaves: its source, if it names one
abbrev pub witness_of : DateTime → Option ObservationSource → List ObservationWitness
witness_of wall none = []
witness_of wall (some src) = new_witness wall src ∷ []

-- Nothing is passed on; the duplicate is counted and its source is one more witness of its key, and
-- the keys, their instants, the queue and the other counter are as before.
pub record Suppressed (wall : DateTime) (event : ChainEvent) (d : Deduplicator)
    (result : Option ChainEvent × Deduplicator) : Type 0 where
  pub dropped : result.0 ≡ none
  pub seen : result.1.seen ≡ d.seen
  pub order : result.1.order ≡ d.order
  pub passed : result.1.passed_count ≡ d.passed_count
  pub counted : result.1.deduplicated_count ≡ (d.deduplicated_count + 1) % 2 ^ 64
  pub witnessed :
      recorded (event_key event) result.1.witnesses
      ≡ recorded (event_key event) d.witnesses ++ witness_of wall event.source

recorded-left :
    (wall : DateTime) (key : Text) (source : Option ObservationSource)
    (m : HashMap Text (List ObservationWitness))
    → recorded key (elim source [ none ↦ m | some src ↦ push_witness key (new_witness wall src) m ])
      ≡ recorded key m ++ witness_of wall source
unfolding push_witness recorded
recorded-left wall key none m = sym (append-nil (recorded key m))
recorded-left wall key (some src) m =
    rw (push_witness, recorded, get-insert_self key (recorded key m ++ new_witness wall src ∷ []) m)
      refl

drop_duplicate-Suppressed :
    (wall : DateTime) (event : ChainEvent) (d : Deduplicator)
    → Suppressed wall event d (none, drop_duplicate wall event d)
unfolding drop_duplicate attribute
drop_duplicate-Suppressed wall event d = record {
  dropped = refl;
  seen = refl;
  order = refl;
  passed = refl;
  counted = refl;
  witnessed = recorded-left wall (event_key event) event.source d.witnesses;
}

-- The events that come after one another, each at an instant and with the wall clock's reading.
abbrev pub Arrivals : Type 0
Arrivals = List (Instant × ChainEvent × DateTime)

unfoldable pub after_all : Arrivals → Deduplicator → Deduplicator
after_all [] d = d
after_all ((now, event, wall) ∷ rest) d = after_all rest (filter_one now event wall d).1

-- Each comes within the time to live of the instant `now`.
abbrev pub Soon : Instant → ℕ → Arrivals → Type 0
Soon now ttl [] = Unit
Soon now ttl ((now', event, wall) ∷ rest) = (now' - now < ttl) × Soon now ttl rest

Soon-same :
    (now : Instant) (bs : Arrivals) (ttl ttl' : ℕ) → ttl' ≡ ttl → Soon now ttl bs → Soon now ttl' bs
Soon-same now bs ttl ttl' e h = rw e h

-- There is a free place for each.
abbrev pub Roomy : Arrivals → Deduplicator → Type 0
Roomy [] d = Unit
Roomy (a ∷ rest) d = length d.seen + length (a ∷ rest) ≤ d.max_capacity

-- The key was last passed at `now`, and no more than one place was taken.
record StillSeen (now : Instant) (key : Text) (d d' : Deduplicator) : Type 0 where
  seen : get key d'.seen ≡ some now
  size : length d'.seen ≤ length d.seen + 1
  capacity : d'.max_capacity ≡ d.max_capacity
  ttl : d'.ttl ≡ d.ttl

module _ (now now' : Instant) (key : Text) (event : ChainEvent) (wall : DateTime) (d : Deduplicator)
    (seen : get key d.seen ≡ some now) (soon : now' - now < d.ttl) where
  another_key : is_duplicate now' (event_key event) d ≡ false → (event_key event == key) ≡ false
  unfolding is_duplicate
  another_key fresh = elim (Bool-cases (event_key event == key)) [
    | inr other ↦ other
    | inl same ↦
        let e : event_key event ≡ key = ground (arith, text_beq_iff (event_key event) key, same) in
        ground (arith, fresh, e)
  ]

  filter_one-StillSeen :
      length d.seen < d.max_capacity → StillSeen now key d (filter_one now' event wall d).1
  unfolding filter_one drop_duplicate record_fresh
  filter_one-StillSeen room = elim (Bool-cases (is_duplicate now' (event_key event) d)) [
    | inl dup ↦ rw dup (record { seen = seen; size = omega arith; capacity = refl; ttl = refl })
    | inr fresh ↦
        rw (fresh, make_room_spare d.order d (ground (arith, room)))
          (record {
            seen = ground (arith, get-insert (event_key event) key now' d.seen, another_key fresh);
            size = length-insert-le (event_key event) now' d.seen;
            capacity = refl;
            ttl = refl;
          })
  ]

after_all-seen :
    (now : Instant) (key : Text) (between : Arrivals) (d : Deduplicator)
    → get key d.seen ≡ some now
    → Soon now d.ttl between
    → Roomy between d
    → (get key (after_all between d).seen ≡ some now) × ((after_all between d).ttl ≡ d.ttl)
unfolding after_all
after_all-seen now key [] d seen soon room = (seen, refl)
after_all-seen now key ((now', event, wall) ∷ []) d seen soon room =
    let h = filter_one-StillSeen now now' key event wall d seen soon.0 (omega (arith, room)) in
    (h.seen, h.ttl)
after_all-seen now key ((now', event, wall) ∷ a ∷ rest) d seen soon room =
    let h = filter_one-StillSeen now now' key event wall d seen soon.0 (omega (arith, room)) in
    let later =
      after_all-seen now key (a ∷ rest) (filter_one now' event wall d).1 h.seen
        (Soon-same now (a ∷ rest) d.ttl (filter_one now' event wall d).1.ttl h.ttl soon.1)
        (omega (arith, room, h.size, h.capacity)) in
    (later.0, later.1 ∙ h.ttl)

seen-duplicate :
    (now now' : Instant) (key : Text) (d : Deduplicator)
    → get key d.seen ≡ some now
    → now' - now < d.ttl
    → is_duplicate now' key d ≡ true
unfolding is_duplicate
seen-duplicate now now' key d seen soon = rw (is_duplicate, seen) (lt→ltb (now' - now) d.ttl soon)

-- Once an event has passed, a later event with the same key is suppressed within the time to live,
-- even behind other events, if these come within it too and there is a free place for each: nothing
-- is passed on, it is counted as a duplicate and not as passed, it leaves its source, if it has one,
-- as one more witness of the key, and the keys that were seen, their instants and the eviction queue
-- stay. If it comes directly after the first, no free place is asked for.
pub filter_one_again :
    (now now' : Instant) (event event' : ChainEvent) (wall wall' : DateTime) (between : Arrivals)
    (d : Deduplicator)
    → is_duplicate now (event_key event) d ≡ false
    → event_key event' ≡ event_key event
    → Soon now d.ttl between
    → Roomy between (filter_one now event wall d).1
    → now' - now < d.ttl
    → Suppressed wall' event'
        (after_all between (filter_one now event wall d).1)
        (filter_one now' event' wall' (after_all between (filter_one now event wall d).1))
unfolding filter_one
filter_one_again now now' event event' wall wall' between d fresh same soon room last =
    let d1 : Deduplicator = (filter_one now event wall d).1 in
    let passed = first-StillSeen now event wall d fresh in
    let h =
      after_all-seen now (event_key event) between d1 passed.0
        (Soon-same now between d.ttl d1.ttl passed.1 soon) room in
    rw
      (
        same,
        seen-duplicate now now' (event_key event) (after_all between d1) h.0
            (omega (arith, h.1, passed.1, last)),
      )
      (drop_duplicate-Suppressed wall' event' (after_all between d1))
