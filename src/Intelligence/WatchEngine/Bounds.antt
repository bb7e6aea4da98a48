-- ===== src/Intelligence/WatchEngine/Bounds.antt =====
-- The engine follows a bounded number of descendants to a bounded depth: the queue of
-- crates/obschain-intelligence/src/watch_engine.rs holds every output that is followed.
use mathlib.Core.Path.{subst}
use obschain.Prelude.{
  if◌then◌else◌, ℕ, ◌+◌, ◌%◌, ◌^◌, ◌≤◌, ◌<◌, some, List, [], ◌∷◌, Text, length, length-append, ap,
  contains-append, true, false, arith, ◌≡◌, refl, leb, ltb, inl, inr, Bool-cases,
}
use obschain.Prelude.Map.{
  HashMap, get, insert, remove, Distinct, get-insert, get-remove, insert-Distinct, remove-Distinct,
}
use obschain.Prelude.Queue.{Queued, Queued-remove, Queued-length-le}
use obschain.Core.External.{Externals}
use obschain.Core.Observation.{TransactionObservation, TxOutputObservation}
use obschain.Intelligence.WatchEngine.{
  IncidentWatchEngine, OutPoint, TrackedDescendantOutpoint, enroll_descendants, enroll_output,
  enroll_outputs, evict_oldest, is_op_return, outpoint_eq, tracked_descendants_count,
}

-- every followed output is at a depth from 1 to the limit
abbrev pub Shallow : ℕ → HashMap OutPoint TrackedDescendantOutpoint → Type 0
Shallow limit m =
    (key : OutPoint) (d : TrackedDescendantOutpoint)
    → get key m ≡ some d
    → (1 ≤ d.depth) × (d.depth ≤ limit)

pub record Bounded (followed : HashMap OutPoint TrackedDescendantOutpoint) (fifo : List OutPoint)
    (depth most : ℕ) : Type 0 where
  pub capacity : 0 < most
  pub queue : length fifo ≤ most
  pub distinct : Distinct followed
  pub queued : Queued followed fifo
  pub shallow : Shallow depth followed

abbrev pub IsBounded : IncidentWatchEngine → Type 0
IsBounded e =
    Bounded e.descendant_outpoints e.descendant_fifo e.max_descendant_depth
      e.max_tracked_descendants

pub IsBounded-count :
    (e : IncidentWatchEngine)
    → IsBounded e
    → tracked_descendants_count e ≤ e.max_tracked_descendants
unfolding tracked_descendants_count
IsBounded-count e h =
    omega (
      arith,
      h.queue,
      Queued-length-le e.descendant_outpoints e.descendant_fifo h.distinct h.queued,
    )

Shallow-remove :
    (limit : ℕ) (key : OutPoint) (m : HashMap OutPoint TrackedDescendantOutpoint)
    → Shallow limit m
    → Shallow limit (remove key m)
Shallow-remove limit key m h k d p = h k d (ground (arith, get-remove key k m))

Shallow-insert :
    (limit : ℕ) (key : OutPoint) (t : TrackedDescendantOutpoint)
    (m : HashMap OutPoint TrackedDescendantOutpoint)
    → 1 ≤ t.depth
    → t.depth ≤ limit
    → Shallow limit m
    → Shallow limit (insert key t m)
Shallow-insert limit key t m low high h k d p = ground (arith, get-insert key k t m, h k d)

-- Forgetting a descendant leaves its place in the queue.
pub forget-IsBounded :
    (key : OutPoint) (e : IncidentWatchEngine)
    → IsBounded e
    → IsBounded (record e { descendant_outpoints = remove key e.descendant_outpoints })
forget-IsBounded key e h = record {
  capacity = h.capacity;
  queue = h.queue;
  distinct = remove-Distinct key e.descendant_outpoints h.distinct;
  queued = λ k d p. h.queued k d (ground (arith, get-remove key k e.descendant_outpoints));
  shallow = Shallow-remove e.max_descendant_depth key e.descendant_outpoints h.shallow;
}

-- After an eviction there is a place in the queue.
record HasPlace (limit : ℕ) (e : IncidentWatchEngine) : Type 0 where
  place : length e.descendant_fifo < e.max_tracked_descendants
  distinct : Distinct e.descendant_outpoints
  queued : Queued e.descendant_outpoints e.descendant_fifo
  shallow : Shallow limit e.descendant_outpoints
  depth : e.max_descendant_depth ≡ limit

evict_oldest-HasPlace :
    (order : List OutPoint) (e : IncidentWatchEngine)
    → e.descendant_fifo ≡ order
    → IsBounded e
    → HasPlace e.max_descendant_depth (evict_oldest order e)
unfolding evict_oldest
evict_oldest-HasPlace [] e p h = record {
  place = rw p h.capacity;
  distinct = h.distinct;
  queued = h.queued;
  shallow = h.shallow;
  depth = refl;
}
evict_oldest-HasPlace (old_key ∷ rest) e p h =
    elim (Bool-cases (leb e.max_tracked_descendants (length (old_key ∷ rest)))) [
      | inl full ↦ rw full (record {
        place = ground (arith, h.queue, ap length p);
        distinct = remove-Distinct old_key e.descendant_outpoints h.distinct;
        queued =
            Queued-remove e.descendant_outpoints old_key rest
              (subst (λ o. Queued e.descendant_outpoints o) p h.queued);
        shallow = Shallow-remove e.max_descendant_depth old_key e.descendant_outpoints h.shallow;
        depth = refl;
      })
      | inr room ↦ rw room (record {
        place = ground (arith, ap length p);
        distinct = h.distinct;
        queued = h.queued;
        shallow = h.shallow;
        depth = refl;
      })
    ]

evict_oldest-depth :
    (order : List OutPoint) (e : IncidentWatchEngine)
    → (evict_oldest order e).max_descendant_depth ≡ e.max_descendant_depth
unfolding evict_oldest
evict_oldest-depth [] e = refl
evict_oldest-depth (old_key ∷ rest) e = ground arith

module _ (key : OutPoint) (t : TrackedDescendantOutpoint) (e0 : IncidentWatchEngine) where
  enroll_output-IsBounded :
      1 ≤ t.depth
      → t.depth ≤ e0.max_descendant_depth
      → IsBounded e0
      → IsBounded (enroll_output key t e0)
  unfolding enroll_output
  enroll_output-IsBounded low high h =
      let e = evict_oldest e0.descendant_fifo e0 in
      let p = evict_oldest-HasPlace e0.descendant_fifo e0 refl h in
      record {
        capacity = omega (arith, p.place);
        queue = omega (arith, p.place, length-append e.descendant_fifo (key ∷ []));
        distinct = insert-Distinct key t e.descendant_outpoints p.distinct;
        queued = λ k d q. ground (
          arith,
          contains-append k e.descendant_fifo (key ∷ []),
          get-insert key k t e.descendant_outpoints,
          p.queued k d,
        );
        shallow = rw p.depth (
            Shallow-insert e0.max_descendant_depth key t e.descendant_outpoints low high p.shallow);
      }

  enroll_output-depth : (enroll_output key t e0).max_descendant_depth ≡ e0.max_descendant_depth
  unfolding enroll_output
  enroll_output-depth = evict_oldest-depth e0.descendant_fifo e0

enroll_outputs-IsBounded :
    (txid : Text) (t : TrackedDescendantOutpoint) (vout : ℕ) (outs : List TxOutputObservation)
    (e : IncidentWatchEngine)
    → 1 ≤ t.depth
    → t.depth ≤ e.max_descendant_depth
    → IsBounded e
    → IsBounded (enroll_outputs txid t vout outs e)
unfolding enroll_outputs
enroll_outputs-IsBounded txid t vout [] e low high h = h
enroll_outputs-IsBounded txid t vout (out ∷ outs) e low high h =
    let key : OutPoint = (txid, vout % 2 ^ 32) in
    let e1 = enroll_output key t e in
    elim (is_op_return out)
      as (λ b. IsBounded (enroll_outputs txid t (vout + 1) outs (if b then e else e1))) [
        | true ↦ enroll_outputs-IsBounded txid t (vout + 1) outs e low high h
        | false ↦
            enroll_outputs-IsBounded txid t (vout + 1) outs e1 low
              (rw (enroll_output-depth key t e) high) (enroll_output-IsBounded key t e low high h)
      ]

pub enroll_descendants-IsBounded :
    (x : Externals) (tx : TransactionObservation) (t : TrackedDescendantOutpoint)
    (e : IncidentWatchEngine)
    → 1 ≤ t.depth
    → IsBounded e
    → IsBounded (enroll_descendants x tx t e)
unfolding enroll_descendants
enroll_descendants-IsBounded x tx t e low h =
    elim (Bool-cases (ltb e.max_descendant_depth t.depth)) [
      | inl deep ↦ rw deep h
      | inr followed ↦
          rw followed (
            enroll_outputs-IsBounded (x.to_lowercase tx.txid) t 0 tx.outputs e low (ground arith) h)
    ]
