-- ===== src/Intelligence/WatchEngine/Targets.antt =====
-- What histories of calls of `IncidentWatchEngine` do to the list of targets that its indices stand for.
use mathlib.Core.Path.{subst}
use obschain.Prelude.{
  ℕ, ◌≤◌, none, some, List, [], ◌∷◌, ◌++◌, text_eq, nat_eq, true, false, if◌then◌else◌, ◌≡◌, refl,
  ◌∙◌, sym, inl, inr, Option-cases,
}
use obschain.Prelude.Map.{get, insert, remove}
use obschain.Core.External.{Externals, Uuid}
use obschain.Core.Observation.{TransactionObservation}
use obschain.Core.Watch.{WatchTarget}
use obschain.Intelligence.WatchEngine.{
  IncidentWatchEngine, TrackedDescendantOutpoint, add_target, enroll_descendants, index_target,
  outpoint_eq, register_incident_title, remove_target, targets_at, unindex_target,
  with_follow_depth,
}
use obschain.Intelligence.WatchEngine.Activities.{Call}
use obschain.Intelligence.WatchEngine.Processing.{process_transaction}
use obschain.Intelligence.WatchEngine.Following.{process_transaction-keeps}
use obschain.Intelligence.WatchEngine.Enrolling.{enroll_descendants-rest, with_descendants}
use obschain.Intelligence.WatchEngine.Watched.{with_id, with_id-id, without_id, without_id_absent}
use obschain.Intelligence.WatchEngine.History.{
  EngineOp, adds, removes, titles, observes, apply_op, run,
}
use obschain.Intelligence.WatchEngine.Represented.{
  Represents, index_target-Represents, unindex_target-Represents,
}

-- What the calls do to the list.
unfoldable pub apply_spec : EngineOp → List WatchTarget → List WatchTarget
apply_spec (adds t) ts = if t.active then ts ++ t ∷ [] else ts
apply_spec (removes id) ts = without_id id ts
apply_spec (titles case_id title) ts = ts
apply_spec (observes c) ts = ts

unfoldable pub run_spec : List EngineOp → List WatchTarget → List WatchTarget
unfolding apply_spec
run_spec [] ts = ts
run_spec (op ∷ ops) ts = run_spec ops (apply_spec op ts)

-- Every target that is added has an identifier that no target of the list has.
abbrev pub FreshOp : EngineOp → List WatchTarget → Type 0
FreshOp (adds t) ts = with_id t.id ts ≡ none
FreshOp (removes id) ts = Unit
FreshOp (titles case_id title) ts = Unit
FreshOp (observes c) ts = Unit

abbrev pub Fresh : List EngineOp → List WatchTarget → Type 0
Fresh [] ts = Unit
Fresh (op ∷ ops) ts = FreshOp op ts × Fresh ops (apply_spec op ts)

remove_target-Represents :
    (x : Externals) (id : Uuid) (ts : List WatchTarget) (e : IncidentWatchEngine)
    → Represents x ts e
    → Represents x (without_id id ts) (remove_target x id e)
unfolding remove_target
remove_target-Represents x id ts e r = elim (Option-cases (get id e.all_targets)) [
  | inl absent ↦
      rw (absent, remove_target) (rw (without_id_absent id ts (sym (r.all id) ∙ absent)) r)
  | inr (t, there) ↦
      let found = sym (r.all id) ∙ there in
      let own = with_id-id id ts t found in
      rw (there, remove_target)
        (subst
          (λ i.
            Represents x (without_id i ts)
              (unindex_target x i t.kind (record e { all_targets = remove i e.all_targets })))
          own
          (unindex_target-Represents x ts t e t.kind refl
            (subst (λ i. with_id i ts ≡ some t) (sym own) found) r))
]

-- Following descendants leaves the targets alone.
pub enroll_descendants-Represents :
    (x : Externals) (tx : TransactionObservation) (ts : List WatchTarget)
    (t : TrackedDescendantOutpoint) (e : IncidentWatchEngine)
    → 1 ≤ t.depth
    → Represents x ts e
    → Represents x ts (enroll_descendants x tx t e)
enroll_descendants-Represents x tx ts t e low r =
    let r' : Represents x ts (with_descendants e (enroll_descendants x tx t e)) = r in
    subst (λ e'. Represents x ts e') (sym (enroll_descendants-rest x tx t e)) r'

process_transaction-Represents :
    (x : Externals) (c : Call) (ts : List WatchTarget) (e : IncidentWatchEngine)
    → Represents x ts e
    → Represents x ts (process_transaction x c e).engine
process_transaction-Represents x c ts =
    process_transaction-keeps x c (Represents x ts) (enroll_descendants-Represents x c.tx ts)
      (λ key e r. r)

apply_op-Represents :
    (x : Externals) (op : EngineOp) (ts : List WatchTarget) (e : IncidentWatchEngine)
    → FreshOp op ts
    → Represents x ts e
    → Represents x (apply_spec op ts) (apply_op x op e)
unfolding apply_op apply_spec add_target register_incident_title
apply_op-Represents x (adds t) ts e fresh r =
    let e1 = record e { all_targets = insert t.id t e.all_targets } in
    elim t.active
      as (λ b.
        Represents x (if b then ts ++ t ∷ [] else ts)
          (if b then index_target x t t.kind e1 else e)) [
            | true ↦ index_target-Represents x ts t e t.kind refl fresh r
            | false ↦ r
          ]
apply_op-Represents x (removes id) ts e fresh r = remove_target-Represents x id ts e r
apply_op-Represents x (titles case_id title) ts e fresh r = r
apply_op-Represents x (observes c) ts e fresh r = process_transaction-Represents x c ts e r

run-Represents_from :
    (x : Externals) (ops : List EngineOp) (ts : List WatchTarget) (e : IncidentWatchEngine)
    → Fresh ops ts
    → Represents x ts e
    → Represents x (run_spec ops ts) (run x ops e)
unfolding run run_spec
run-Represents_from x [] ts e fresh r = r
run-Represents_from x (op ∷ ops) ts e fresh r =
    run-Represents_from x ops (apply_spec op ts) (apply_op x op e) fresh.1
      (apply_op-Represents x op ts e fresh.0 r)

-- After any calls in which every added target has an identifier that no watched target has, the four
-- indices and the map of a new engine stand for the list of the active targets that were added and not
-- removed since: each index lists, at each key, exactly the targets of the list with that key, in the
-- order in which they were added, and no identifier occurs twice.
pub run-Represents :
    (x : Externals) (depth : ℕ) (ops : List EngineOp)
    → Fresh ops []
    → Represents x (run_spec ops []) (run x ops (with_follow_depth depth))
run-Represents x depth ops fresh = run-Represents_from x ops [] (with_follow_depth depth) fresh (
    unfold with_follow_depth targets_at get in
    record {
      outpoints = λ key. refl;
      scripts = λ key. refl;
      addresses = λ key. refl;
      txids = λ key. refl;
      all = λ id. refl;
      unique = tt;
    })
