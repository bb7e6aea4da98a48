-- ===== src/Detectors/Dedup.antt =====
-- crates/obschain-detectors/src/dedup.rs: `EventDeduplicator`. An `Instant` is a number of
-- nanoseconds; the locked state and the two counters are one record.
pub mod Room
pub mod Invariant
pub mod Suppression
pub mod Counting
pub mod Growth
use Prim.Native.Nat.{max}
use obschain.Prelude.{
  ℕ, ◌+◌, ◌-◌, ◌%◌, ◌^◌, Bool, false, Option, none, some, List, [], ◌∷◌, ◌++◌, map, Text, codes,
  concat, show, text_eq, length, ltb, if◌then◌else◌,
}
use obschain.Prelude.Map.{HashMap, get, insert, remove}
use obschain.Core.External.{DateTime}
use obschain.Core.Source.{ObservationWitness, new_witness}
use obschain.Core.Event.{ChainEvent, debug, add_witness}

abbrev pub Instant : Type 0
Instant = ℕ

pub record Deduplicator : Type 0 where
  pub seen : HashMap Text Instant
  pub witnesses : HashMap Text (List ObservationWitness)
  pub order : List Text
  pub max_capacity : ℕ
  pub ttl : ℕ
  pub poisoned : Bool
  pub deduplicated_count : ℕ
  pub passed_count : ℕ

unfoldable pub new : ℕ → ℕ → Deduplicator
new max_capacity ttl = record {
  seen = [];
  witnesses = [];
  order = [];
  max_capacity = max max_capacity 1;
  ttl = ttl;
  poisoned = false;
  deduplicated_count = 0;
  passed_count = 0;
}

abbrev pub bump : ℕ → ℕ
bump n = (n + 1) % 2 ^ 64

unfoldable pub event_key : ChainEvent → Text
event_key event = elim event.txid [
  | some txid ↦ concat (debug event.event_type ∷ codes ":tx:" ∷ txid ∷ [])
  | none ↦ elim event.block_hash [
    | some block_hash ↦ concat (debug event.event_type ∷ codes ":block:" ∷ block_hash ∷ [])
    | none ↦ elim event.block_height [
      | some height ↦ concat (debug event.event_type ∷ codes ":height:" ∷ show height ∷ [])
      | none ↦ concat (debug event.event_type ∷ codes ":title:" ∷ event.title ∷ [])
    ]
  ]
]

-- `get(key).cloned().unwrap_or_default()`
unfoldable pub recorded : Text → HashMap Text (List ObservationWitness) → List ObservationWitness
recorded key m = elim (get key m) [ none ↦ [] | some ws ↦ ws ]

unfoldable pub witnesses_for : Text → Deduplicator → List ObservationWitness
unfolding recorded
witnesses_for key d = if d.poisoned then [] else recorded key d.witnesses

-- `entry(key).or_default().push(witness)`
unfoldable pub push_witness :
    Text
    → ObservationWitness
    → HashMap Text (List ObservationWitness)
    → HashMap Text (List ObservationWitness)
unfolding recorded
push_witness key w m = insert key (recorded key m ++ w ∷ []) m

-- The loop that makes room: the argument is what is left of the queue.
unfoldable pub make_room : List Text → Deduplicator → Deduplicator
make_room [] d = record d { order = [] }
make_room (oldest ∷ rest) d =
    if ltb (length d.seen) d.max_capacity
    then record d { order = oldest ∷ rest }
    else make_room rest (record d {
      seen = remove oldest d.seen;
      witnesses = remove oldest d.witnesses;
      order = rest;
    })

unfoldable pub is_duplicate : Instant → Text → Deduplicator → Bool
is_duplicate now key d = elim (get key d.seen) [
  | none ↦ false
  | some seen_at ↦ ltb (now - seen_at) d.ttl
]

-- `if let Some(src) = &event.source { … push(witness) }`, which both branches do
unfoldable pub attribute :
    DateTime
    → ChainEvent
    → HashMap Text (List ObservationWitness)
    → HashMap Text (List ObservationWitness)
unfolding push_witness
attribute wall event m = elim event.source [
  | none ↦ m
  | some src ↦ push_witness (event_key event) (new_witness wall src) m
]

-- What a duplicate leaves: its source as one more witness.
unfoldable pub drop_duplicate : DateTime → ChainEvent → Deduplicator → Deduplicator
drop_duplicate wall event d = record d {
  witnesses = attribute wall event d.witnesses;
  deduplicated_count = bump d.deduplicated_count;
}

-- The event that is passed on, with its own source as a witness.
unfoldable pub stamped : DateTime → ChainEvent → ChainEvent
stamped wall event = elim event.source [
  | none ↦ event
  | some src ↦ add_witness (new_witness wall src) event
]

-- What a fresh event leaves, once there is room.
unfoldable pub record_fresh : Instant → DateTime → ChainEvent → Deduplicator → Deduplicator
record_fresh now wall event d = record d {
  seen = insert (event_key event) now d.seen;
  witnesses = attribute wall event d.witnesses;
  order = d.order ++ event_key event ∷ [];
  passed_count = bump d.passed_count;
}

-- One round of the loop of `filter`.
unfoldable pub filter_one :
    Instant → ChainEvent → DateTime → Deduplicator → Option ChainEvent × Deduplicator
filter_one now event wall d =
    if is_duplicate now (event_key event) d
    then (none, drop_duplicate wall event d)
    else (some (stamped wall event), record_fresh now wall event (make_room d.order d))

abbrev pub keep : Option ChainEvent → List ChainEvent → List ChainEvent
keep none events = events
keep (some e) events = e ∷ events

unfoldable pub filter_loop :
    Instant → List (ChainEvent × DateTime) → Deduplicator → List ChainEvent × Deduplicator
filter_loop now [] d = ([], d)
filter_loop now ((event, wall) ∷ events) d =
    let (passed, d') = filter_one now event wall d in
    let (fresh, d'') = filter_loop now events d' in (keep passed fresh, d'')

-- `filter`. Each event comes with the wall clock's reading at its turn.
unfoldable pub filter :
    Instant → List (ChainEvent × DateTime) → Deduplicator → List ChainEvent × Deduplicator
unfolding filter_loop
filter now events d = if d.poisoned then (map (λ p. p.0) events, d) else filter_loop now events d

unfoldable pub len : Deduplicator → ℕ
len d = if d.poisoned then 0 else length d.seen
