-- ===== src/Intelligence/WatchEngine/Indices.antt =====
-- One index of `IncidentWatchEngine` against a list of targets.
use obschain.Prelude.{
  some, List, [], ◌∷◌, ◌++◌, text_eq, nat_eq, false, ◌==◌, Eq, if◌then◌else◌, arith, ◌≡◌, refl, ◌∙◌,
  ap, sym, inl, inr, Bool-cases, Option-cases, Bool,
}
use obschain.Prelude.Map.{get, get-insert, get-remove}
use obschain.Core.External.{Uuid}
use obschain.Core.Watch.{WatchTarget, WatchTargetKind}
use obschain.Intelligence.WatchEngine.{Index, drop_target, outpoint_eq, push_target, targets_at}
use obschain.Intelligence.WatchEngine.Watched.{
  UniqueIds, of_kind, of_kind-snoc, of_kind-without_id, of_kind-without_id_other, with_id,
  without_id,
}

module _ {K : Type 0} ⦃k_eq : Eq K⦄ where
  -- An index lists at each key the targets of the list that belong there, in their order.
  abbrev pub Lists : (K → WatchTargetKind → Bool) → Index K → List WatchTarget → Type 0
  Lists here m ts = (key : K) → targets_at key m ≡ of_kind (here key) ts

  targets_at-push :
      (k key : K) (t : WatchTarget) (m : Index K)
      → targets_at k (push_target key t m)
        ≡ (if key == k then targets_at k m ++ t ∷ [] else targets_at k m)
  unfolding targets_at push_target
  targets_at-push k key t m =
      ground (arith, get-insert key k (targets_at key m ++ t ∷ []) m, k_eq.beq_iff key k)

  targets_at-drop_some :
      (k key : K) (id : Uuid) (m : Index K) (ts kept : List WatchTarget)
      → get key m ≡ some ts
      → without_id id ts ≡ kept
      → targets_at k (drop_target key id m)
        ≡ (if key == k then without_id id (targets_at k m) else targets_at k m)
  unfolding targets_at drop_target
  targets_at-drop_some k key id m ts [] there e =
      ground (arith, get-remove key k m, k_eq.beq_iff key k)
  targets_at-drop_some k key id m ts (t ∷ kept) there e =
      ground (arith, get-insert key k (t ∷ kept) m, k_eq.beq_iff key k)

  targets_at-drop :
      (k key : K) (id : Uuid) (m : Index K)
      → targets_at k (drop_target key id m)
        ≡ (if key == k then without_id id (targets_at k m) else targets_at k m)
  targets_at-drop k key id m = elim (Option-cases (get key m)) [
    | inl absent ↦ unfold targets_at drop_target in ground (arith, k_eq.beq_iff key k)
    | inr (ts, there) ↦ targets_at-drop_some k key id m ts (without_id id ts) there refl
  ]

module _ {K : Type 0} ⦃k_eq : Eq K⦄ (here : K → WatchTargetKind → Bool) (t : WatchTarget)
    (m : Index K) (ts : List WatchTarget) (lists : Lists here m ts) where
  pub Lists-push :
      (key : K)
      → ((k : K) → here k t.kind ≡ (key == k))
      → Lists here (push_target key t m) (ts ++ t ∷ [])
  Lists-push key at k =
      ground (arith, targets_at-push k key t m, of_kind-snoc (here k) ts t, at k, lists k)

  pub Lists-skip : ((k : K) → here k t.kind ≡ false) → Lists here m (ts ++ t ∷ [])
  Lists-skip away k = ground (arith, of_kind-snoc (here k) ts t, away k, lists k)

  pub Lists-drop :
      UniqueIds ts
      → with_id t.id ts ≡ some t
      → (key : K) → ((k : K) → here k t.kind ≡ (key == k))
      → Lists here (drop_target key t.id m) (without_id t.id ts)
  Lists-drop unique found key at k = elim (Bool-cases (key == k)) [
    | inl same ↦
        targets_at-drop k key t.id m
        ∙ (rw same (ap (λ us. without_id t.id us) (lists k)))
        ∙ sym (of_kind-without_id (here k) t.id ts)
    | inr other ↦
        targets_at-drop k key t.id m
        ∙ (rw other (lists k))
        ∙ sym (of_kind-without_id_other (here k) t.id ts t unique found (at k ∙ other))
  ]

  pub Lists-keep :
      UniqueIds ts
      → with_id t.id ts ≡ some t
      → ((k : K) → here k t.kind ≡ false)
      → Lists here m (without_id t.id ts)
  Lists-keep unique found away k =
      lists k ∙ sym (of_kind-without_id_other (here k) t.id ts t unique found (away k))
