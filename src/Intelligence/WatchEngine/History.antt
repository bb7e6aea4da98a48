-- ===== src/Intelligence/WatchEngine/History.antt =====
-- Histories of calls of `IncidentWatchEngine`, and the bounds that hold after every history.
use obschain.Prelude.{
  if◌then◌else◌, ℕ, ◌≤◌, List, [], ◌∷◌, Text, text_eq, nat_eq, length, true, false, arith, ◌≡◌,
  refl, ap, ◌∙◌, inl, inr, Option-cases,
}
use obschain.Prelude.Map.{get, insert}
use obschain.Core.External.{Externals, Uuid}
use obschain.Core.Observation.{TransactionObservation}
use obschain.Core.Watch.{
  WatchTarget, WatchTargetKind, out_point, script_pub_key, address, transaction,
}
use obschain.Intelligence.WatchEngine.{
  IncidentWatchEngine, TrackedDescendantOutpoint, add_target, enroll_descendants, index_target,
  outpoint_eq, register_incident_title, remove_target, tracked_descendants_count, unindex_target,
  with_follow_depth,
}
use obschain.Intelligence.WatchEngine.Activities.{Call}
use obschain.Intelligence.WatchEngine.Processing.{process_transaction}
use obschain.Intelligence.WatchEngine.Following.{process_transaction-keeps}
use obschain.Prelude.Queue.{Queued}
use obschain.Intelligence.WatchEngine.Enrolling.{enroll_descendants-rest}
use obschain.Intelligence.WatchEngine.Bounds.{
  IsBounded, IsBounded-count, Shallow, enroll_descendants-IsBounded, forget-IsBounded,
}

-- The calls that change the engine; `process_replacement` and `process_block` do not.
pub data EngineOp : Type 0 where
  adds : WatchTarget → EngineOp
  removes : Uuid → EngineOp
  titles : Text → Text → EngineOp
  observes : Call → EngineOp

unfoldable pub apply_op : Externals → EngineOp → IncidentWatchEngine → IncidentWatchEngine
apply_op x (adds target) e = add_target x target e
apply_op x (removes target_id) e = remove_target x target_id e
apply_op x (titles case_id title) e = register_incident_title case_id title e
apply_op x (observes c) e = (process_transaction x c e).engine

unfoldable pub run : Externals → List EngineOp → IncidentWatchEngine → IncidentWatchEngine
unfolding apply_op
run x [] e = e
run x (op ∷ ops) e = run x ops (apply_op x op e)

-- What a new engine is limited to, and stays limited to.
abbrev HasLimits : IncidentWatchEngine → Type 0
HasLimits e = IsBounded e × (e.max_tracked_descendants ≡ 1_000) × (e.max_descendant_depth ≤ 5)

with_follow_depth-HasLimits : (depth : ℕ) → HasLimits (with_follow_depth depth)
unfolding with_follow_depth get
with_follow_depth-HasLimits depth = (
  record {
    capacity = omega arith;
    queue = omega arith;
    distinct = tt;
    queued = λ k d h. cc;
    shallow = λ k d h. cc;
  },
  refl,
  ground arith,
)

index_target-HasLimits :
    (x : Externals) (target : WatchTarget) (kind : WatchTargetKind) (e : IncidentWatchEngine)
    → HasLimits e
    → HasLimits (index_target x target kind e)
unfolding index_target
index_target-HasLimits x target (out_point txid vout) e h = h
index_target-HasLimits x target (script_pub_key script_hex) e h = h
index_target-HasLimits x target (address addr attribution) e h = h
index_target-HasLimits x target (transaction txid) e h = h

unindex_target-HasLimits :
    (x : Externals) (target_id : Uuid) (kind : WatchTargetKind) (e : IncidentWatchEngine)
    → HasLimits e
    → HasLimits (unindex_target x target_id kind e)
unfolding unindex_target
unindex_target-HasLimits x target_id (out_point txid vout) e h = h
unindex_target-HasLimits x target_id (script_pub_key script_hex) e h = h
unindex_target-HasLimits x target_id (address addr attribution) e h = h
unindex_target-HasLimits x target_id (transaction txid) e h = h

enroll_descendants-HasLimits :
    (x : Externals) (tx : TransactionObservation) (t : TrackedDescendantOutpoint)
    (e : IncidentWatchEngine)
    → 1 ≤ t.depth
    → HasLimits e
    → HasLimits (enroll_descendants x tx t e)
enroll_descendants-HasLimits x tx t e low h =
    let same = enroll_descendants-rest x tx t e in
    (
      enroll_descendants-IsBounded x tx t e low h.0,
      ap (λ (e' : IncidentWatchEngine). e'.max_tracked_descendants) same ∙ h.1,
      omega (arith, ap (λ (e' : IncidentWatchEngine). e'.max_descendant_depth) same, h.2),
    )

apply_op-HasLimits :
    (x : Externals) (op : EngineOp) (e : IncidentWatchEngine)
    → HasLimits e
    → HasLimits (apply_op x op e)
unfolding apply_op add_target remove_target register_incident_title
apply_op-HasLimits x (adds target) e h =
    let e1 = record e { all_targets = insert target.id target e.all_targets } in
    elim target.active as (λ b. HasLimits (if b then index_target x target target.kind e1 else e)) [
      | true ↦ index_target-HasLimits x target target.kind e1 h
      | false ↦ h
    ]
apply_op-HasLimits x (removes target_id) e h = elim (Option-cases (get target_id e.all_targets)) [
  | inl absent ↦ rw (absent, remove_target) h
  | inr (target, there) ↦
      rw (there, remove_target) (unindex_target-HasLimits x target_id target.kind _ h)
]
apply_op-HasLimits x (titles case_id title) e h = h
apply_op-HasLimits x (observes c) e h =
    process_transaction-keeps x c HasLimits (enroll_descendants-HasLimits x c.tx)
      (λ key e' h'. (forget-IsBounded key e' h'.0, h'.1, h'.2)) e h

run-HasLimits :
    (x : Externals) (ops : List EngineOp) (e : IncidentWatchEngine)
    → HasLimits e
    → HasLimits (run x ops e)
unfolding run
run-HasLimits x [] e h = h
run-HasLimits x (op ∷ ops) e h = run-HasLimits x ops (apply_op x op e) (apply_op-HasLimits x op e h)

-- After any calls, whatever depth was asked for, an engine follows at most 1,000 outputs, its queue
-- holds at most 1,000 places and every followed output among them, and each is at a depth from 1 to
-- the engine's limit, which is at most 5.
pub run-bounded :
    (x : Externals) (depth : ℕ) (ops : List EngineOp)
    → (tracked_descendants_count (run x ops (with_follow_depth depth)) ≤ 1_000)
      × (length (run x ops (with_follow_depth depth)).descendant_fifo ≤ 1_000)
      × Queued
          (run x ops (with_follow_depth depth)).descendant_outpoints
          (run x ops (with_follow_depth depth)).descendant_fifo
      × Shallow
          (run x ops (with_follow_depth depth)).max_descendant_depth
          (run x ops (with_follow_depth depth)).descendant_outpoints
      × ((run x ops (with_follow_depth depth)).max_descendant_depth ≤ 5)
run-bounded x depth ops =
    let e = run x ops (with_follow_depth depth) in
    let (b, most, deep) =
      run-HasLimits x ops (with_follow_depth depth) (with_follow_depth-HasLimits depth) in
    (
      omega (arith, IsBounded-count e b, most),
      omega (arith, b.queue, most),
      b.queued,
      b.shallow,
      deep,
    )
