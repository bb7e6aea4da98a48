-- ===== src/Intelligence/WatchEngine/Enrolling.antt =====
-- Enrolling descendants changes nothing of the engine but its descendants.
use obschain.Prelude.{
  ℕ, ◌+◌, ◌%◌, ◌^◌, List, [], ◌∷◌, Text, ltb, arith, ◌≡◌, refl, ap, ◌∙◌, inl, inr, Bool-cases, true,
  false, if◌then◌else◌,
}
use obschain.Core.External.{Externals}
use obschain.Core.Observation.{TransactionObservation, TxOutputObservation}
use obschain.Intelligence.WatchEngine.{
  IncidentWatchEngine, OutPoint, TrackedDescendantOutpoint, enroll_descendants, enroll_output,
  enroll_outputs, evict_oldest, is_op_return,
}

-- the engine with other descendants
abbrev pub with_descendants : IncidentWatchEngine → IncidentWatchEngine → IncidentWatchEngine
with_descendants e e' = record e {
  descendant_outpoints = e'.descendant_outpoints;
  descendant_fifo = e'.descendant_fifo;
}

evict_oldest-rest :
    (order : List OutPoint) (e : IncidentWatchEngine)
    → evict_oldest order e ≡ with_descendants e (evict_oldest order e)
unfolding evict_oldest
evict_oldest-rest [] e = refl
evict_oldest-rest (old_key ∷ rest) e = ground arith

enroll_output-rest :
    (key : OutPoint) (t : TrackedDescendantOutpoint) (e : IncidentWatchEngine)
    → enroll_output key t e ≡ with_descendants e (enroll_output key t e)
unfolding enroll_output
enroll_output-rest key t e =
    ap (λ e'. with_descendants e' (enroll_output key t e)) (evict_oldest-rest e.descendant_fifo e)

enroll_outputs-rest :
    (txid : Text) (t : TrackedDescendantOutpoint) (vout : ℕ) (outs : List TxOutputObservation)
    (e : IncidentWatchEngine)
    → enroll_outputs txid t vout outs e ≡ with_descendants e (enroll_outputs txid t vout outs e)
unfolding enroll_outputs
enroll_outputs-rest txid t vout [] e = refl
enroll_outputs-rest txid t vout (out ∷ outs) e =
    let key : OutPoint = (txid, vout % 2 ^ 32) in
    let e1 = enroll_output key t e in
    let goal = λ (e' : IncidentWatchEngine). enroll_outputs txid t (vout + 1) outs e' in
    elim (is_op_return out)
      as (λ b. goal (if b then e else e1) ≡ with_descendants e (goal (if b then e else e1))) [
        | true ↦ enroll_outputs-rest txid t (vout + 1) outs e
        | false ↦
            enroll_outputs-rest txid t (vout + 1) outs e1
            ∙ ap (λ e'. with_descendants e' (goal e1)) (enroll_output-rest key t e)
      ]

pub enroll_descendants-rest :
    (x : Externals) (tx : TransactionObservation) (t : TrackedDescendantOutpoint)
    (e : IncidentWatchEngine)
    → enroll_descendants x tx t e ≡ with_descendants e (enroll_descendants x tx t e)
unfolding enroll_descendants
enroll_descendants-rest x tx t e = elim (Bool-cases (ltb e.max_descendant_depth t.depth)) [
  | inl deep ↦ rw deep refl
  | inr followed ↦ rw followed (enroll_outputs-rest (x.to_lowercase tx.txid) t 0 tx.outputs e)
]
