-- ===== src/Intelligence/WatchEngine/Represented.antt =====
-- The four indices of `IncidentWatchEngine` (crates/obschain-intelligence/src/watch_engine.rs) and the
-- list of targets that they stand for.
use obschain.Prelude.{none, some, List, [], ◌∷◌, ◌++◌, Text, text_eq, nat_eq, arith, ◌≡◌, refl}
use obschain.Prelude.Map.{HashMap, get, insert, remove, get-insert, get-remove}
use obschain.Core.External.{Externals, Uuid}
use obschain.Core.Watch.{
  WatchTarget, WatchTargetKind, out_point, script_pub_key, address, transaction,
}
use obschain.Intelligence.WatchEngine.{
  IncidentWatchEngine, Index, OutPoint, index_target, outpoint_eq, targets_at, unindex_target,
}
use obschain.Intelligence.WatchEngine.Watched.{
  UniqueIds, UniqueIds-snoc, UniqueIds-without_id, is_address, is_outpoint, is_script, is_txid,
  of_kind, with_id, with_id-snoc, with_id-without_id, without_id,
}
use obschain.Intelligence.WatchEngine.Indices.{Lists-drop, Lists-keep, Lists-push, Lists-skip}

-- The indices and the map by identifiers stand for a list without repetitions.
pub record Indexed (x : Externals) (ts : List WatchTarget) (by_outpoint : Index OutPoint)
    (by_script by_address by_txid : Index Text) (all_targets : HashMap Uuid WatchTarget)
    : Type 0 where
  pub outpoints : (key : OutPoint) → targets_at key by_outpoint ≡ of_kind (is_outpoint x key) ts
  pub scripts : (key : Text) → targets_at key by_script ≡ of_kind (is_script x key) ts
  pub addresses : (key : Text) → targets_at key by_address ≡ of_kind (is_address key) ts
  pub txids : (key : Text) → targets_at key by_txid ≡ of_kind (is_txid x key) ts
  pub all : (id : Uuid) → get id all_targets ≡ with_id id ts
  pub unique : UniqueIds ts

abbrev pub Represents : Externals → List WatchTarget → IncidentWatchEngine → Type 0
Represents x ts e =
    Indexed x ts e.outpoint_index e.script_index e.address_index e.txid_index e.all_targets

module _ (x : Externals) (ts : List WatchTarget) (t : WatchTarget) (e : IncidentWatchEngine) where
  insert-all :
      with_id t.id ts ≡ none
      → Represents x ts e
      → (id : Uuid) → get id (insert t.id t e.all_targets) ≡ with_id id (ts ++ t ∷ [])
  insert-all fresh r id =
      ground (arith, get-insert t.id id t e.all_targets, with_id-snoc id ts t fresh, r.all id)

  -- The entry goes to the index of the target's kind; to the other indices the target is nothing.
  pub index_target-Represents :
      (kind : WatchTargetKind)
      → t.kind ≡ kind
      → with_id t.id ts ≡ none
      → Represents x ts e
      → Represents x
          (ts ++ t ∷ [])
          (index_target x t kind (record e { all_targets = insert t.id t e.all_targets }))
  unfolding index_target
  index_target-Represents (out_point txid vout) k fresh r = record {
    outpoints =
        Lists-push (is_outpoint x) t e.outpoint_index ts r.outpoints (x.to_lowercase txid, vout)
          (λ key. rw k refl);
    scripts = Lists-skip (is_script x) t e.script_index ts r.scripts (λ key. rw k refl);
    addresses = Lists-skip is_address t e.address_index ts r.addresses (λ key. rw k refl);
    txids = Lists-skip (is_txid x) t e.txid_index ts r.txids (λ key. rw k refl);
    all = insert-all fresh r;
    unique = UniqueIds-snoc ts t r.unique fresh;
  }
  index_target-Represents (script_pub_key script_hex) k fresh r = record {
    outpoints = Lists-skip (is_outpoint x) t e.outpoint_index ts r.outpoints (λ key. rw k refl);
    scripts =
        Lists-push (is_script x) t e.script_index ts r.scripts (x.to_lowercase script_hex)
          (λ key. rw k refl);
    addresses = Lists-skip is_address t e.address_index ts r.addresses (λ key. rw k refl);
    txids = Lists-skip (is_txid x) t e.txid_index ts r.txids (λ key. rw k refl);
    all = insert-all fresh r;
    unique = UniqueIds-snoc ts t r.unique fresh;
  }
  index_target-Represents (address addr attribution) k fresh r = record {
    outpoints = Lists-skip (is_outpoint x) t e.outpoint_index ts r.outpoints (λ key. rw k refl);
    scripts = Lists-skip (is_script x) t e.script_index ts r.scripts (λ key. rw k refl);
    addresses = Lists-push is_address t e.address_index ts r.addresses addr (λ key. rw k refl);
    txids = Lists-skip (is_txid x) t e.txid_index ts r.txids (λ key. rw k refl);
    all = insert-all fresh r;
    unique = UniqueIds-snoc ts t r.unique fresh;
  }
  index_target-Represents (transaction txid) k fresh r = record {
    outpoints = Lists-skip (is_outpoint x) t e.outpoint_index ts r.outpoints (λ key. rw k refl);
    scripts = Lists-skip (is_script x) t e.script_index ts r.scripts (λ key. rw k refl);
    addresses = Lists-skip is_address t e.address_index ts r.addresses (λ key. rw k refl);
    txids =
        Lists-push (is_txid x) t e.txid_index ts r.txids (x.to_lowercase txid) (λ key. rw k refl);
    all = insert-all fresh r;
    unique = UniqueIds-snoc ts t r.unique fresh;
  }

  remove-all :
      (gone : Uuid)
      → Represents x ts e
      → (id : Uuid) → get id (remove gone e.all_targets) ≡ with_id id (without_id gone ts)
  remove-all gone r id =
      ground (arith, get-remove gone id e.all_targets, with_id-without_id id gone ts, r.all id)

  pub unindex_target-Represents :
      (kind : WatchTargetKind)
      → t.kind ≡ kind
      → with_id t.id ts ≡ some t
      → Represents x ts e
      → Represents x
          (without_id t.id ts)
          (unindex_target x t.id kind (record e { all_targets = remove t.id e.all_targets }))
  unfolding unindex_target
  unindex_target-Represents (out_point txid vout) k found r = record {
    outpoints =
        Lists-drop (is_outpoint x) t e.outpoint_index ts r.outpoints r.unique found
          (x.to_lowercase txid, vout) (λ key. rw k refl);
    scripts =
        Lists-keep (is_script x) t e.script_index ts r.scripts r.unique found (λ key. rw k refl);
    addresses =
        Lists-keep is_address t e.address_index ts r.addresses r.unique found (λ key. rw k refl);
    txids = Lists-keep (is_txid x) t e.txid_index ts r.txids r.unique found (λ key. rw k refl);
    all = remove-all t.id r;
    unique = UniqueIds-without_id t.id ts r.unique;
  }
  unindex_target-Represents (script_pub_key script_hex) k found r = record {
    outpoints =
        Lists-keep (is_outpoint x) t e.outpoint_index ts r.outpoints r.unique found
          (λ key. rw k refl);
    scripts =
        Lists-drop (is_script x) t e.script_index ts r.scripts r.unique found
          (x.to_lowercase script_hex) (λ key. rw k refl);
    addresses =
        Lists-keep is_address t e.address_index ts r.addresses r.unique found (λ key. rw k refl);
    txids = Lists-keep (is_txid x) t e.txid_index ts r.txids r.unique found (λ key. rw k refl);
    all = remove-all t.id r;
    unique = UniqueIds-without_id t.id ts r.unique;
  }
  unindex_target-Represents (address addr attribution) k found r = record {
    outpoints =
        Lists-keep (is_outpoint x) t e.outpoint_index ts r.outpoints r.unique found
          (λ key. rw k refl);
    scripts =
        Lists-keep (is_script x) t e.script_index ts r.scripts r.unique found (λ key. rw k refl);
    addresses =
        Lists-drop is_address t e.address_index ts r.addresses r.unique found addr
          (λ key. rw k refl);
    txids = Lists-keep (is_txid x) t e.txid_index ts r.txids r.unique found (λ key. rw k refl);
    all = remove-all t.id r;
    unique = UniqueIds-without_id t.id ts r.unique;
  }
  unindex_target-Represents (transaction txid) k found r = record {
    outpoints =
        Lists-keep (is_outpoint x) t e.outpoint_index ts r.outpoints r.unique found
          (λ key. rw k refl);
    scripts =
        Lists-keep (is_script x) t e.script_index ts r.scripts r.unique found (λ key. rw k refl);
    addresses =
        Lists-keep is_address t e.address_index ts r.addresses r.unique found (λ key. rw k refl);
    txids =
        Lists-drop (is_txid x) t e.txid_index ts r.txids r.unique found (x.to_lowercase txid)
          (λ key. rw k refl);
    all = remove-all t.id r;
    unique = UniqueIds-without_id t.id ts r.unique;
  }
