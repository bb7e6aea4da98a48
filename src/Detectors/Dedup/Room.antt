-- ===== src/Detectors/Dedup/Room.antt =====
-- The eviction loop of `EventDeduplicator::filter` makes room and keeps the queue complete.
use obschain.Prelude.{
  ℕ, ◌<◌, none, List, [], ◌∷◌, Text, text_eq, length, ltb, arith, ◌≡◌, refl, inl, inr, Bool-cases,
  ltb→lt,
}
use obschain.Prelude.Map.{get, remove, Distinct, get-remove, remove-Distinct}
use obschain.Prelude.Queue.{Queued, Queued-remove, Queued-nil}
use obschain.Detectors.Dedup.{Deduplicator, make_room}

-- Only keys that were seen have witnesses.
abbrev pub Attributed : Deduplicator → Type 0
Attributed d = (k : Text) → get k d.seen ≡ none → get k d.witnesses ≡ none

-- One place is free, of `m`.
pub record HasRoom (m : ℕ) (d : Deduplicator) : Type 0 where
  pub limit : d.max_capacity ≡ m
  pub room : length d.seen < d.max_capacity
  pub distinct : Distinct d.seen
  pub queued : Queued d.seen d.order
  pub attributed : Attributed d

-- With a complete queue the loop ends with a free place: it never runs out of keys to evict.
pub make_room-HasRoom :
    {m : ℕ} (order : List Text) (d : Deduplicator)
    → d.max_capacity ≡ m
    → 0 < d.max_capacity
    → Distinct d.seen
    → Queued d.seen order
    → Attributed d
    → HasRoom m (make_room order d)
unfolding make_room
make_room-HasRoom [] d limit pos dis q at = record {
  limit = limit;
  room = omega (arith, Queued-nil d.seen q);
  distinct = dis;
  queued = q;
  attributed = at;
}
make_room-HasRoom (oldest ∷ rest) d limit pos dis q at =
    elim (Bool-cases (ltb (length d.seen) d.max_capacity)) [
      | inl room ↦
          rw (room, make_room)
            (record {
              limit = limit;
              room = ltb→lt _ _ room;
              distinct = dis;
              queued = q;
              attributed = at;
            })
      | inr full ↦
          rw (full, make_room)
            (make_room-HasRoom rest
              (record d {
                seen = remove oldest d.seen;
                witnesses = remove oldest d.witnesses;
                order = rest;
              })
              limit pos (remove-Distinct oldest d.seen dis) (Queued-remove d.seen oldest rest q)
              (λ k h.
                ground (arith, get-remove oldest k d.seen, get-remove oldest k d.witnesses, at k)))
    ]

-- What the loop leaves alone.
pub record Untouched (d d' : Deduplicator) : Type 0 where
  pub capacity : d'.max_capacity ≡ d.max_capacity
  pub ttl : d'.ttl ≡ d.ttl
  pub poisoned : d'.poisoned ≡ d.poisoned
  pub deduplicated : d'.deduplicated_count ≡ d.deduplicated_count
  pub passed : d'.passed_count ≡ d.passed_count

pub make_room-Untouched : (order : List Text) (d : Deduplicator) → Untouched d (make_room order d)
unfolding make_room
make_room-Untouched [] d = record {
  capacity = refl;
  ttl = refl;
  poisoned = refl;
  deduplicated = refl;
  passed = refl;
}
make_room-Untouched (oldest ∷ rest) d =
    let ih = make_room-Untouched rest (record d {
      seen = remove oldest d.seen;
      witnesses = remove oldest d.witnesses;
      order = rest;
    }) in
    ground (arith, ih)
