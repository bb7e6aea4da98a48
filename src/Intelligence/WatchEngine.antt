-- ===== src/Intelligence/WatchEngine.antt =====
-- crates/obschain-intelligence/src/watch_engine.rs: the state of `IncidentWatchEngine`, its targets
-- and the outputs that descend from a watched one.
pub mod Alerts
pub mod Activities
pub mod Inputs
pub mod Outputs
pub mod Processing
pub mod Following
pub mod Bounds
pub mod Enrolling
pub mod History
pub mod Watched
pub mod Indices
pub mod Represented
pub mod Targets
pub mod Expected
pub mod Matches
pub mod Completeness
pub mod Justified
pub mod Claims
use obschain.Prelude.{
  ℕ, ◌+◌, ◌%◌, ◌^◌, Bool, true, false, not, ◌||◌, Option, none, some, List, [], ◌∷◌, ◌++◌, length,
  retain, Text, codes, ltb, leb, text_eq, text_beq, text_beq_iff, nat_eq, nat_beq, nat_beq_iff, Eq,
  ◌==◌, ◌&&◌, ◌↔◌, ◌≡◌, arith, if◌then◌else◌, parse_uint, u64_max,
}
use obschain.Prelude.Map.{HashMap, get, insert, remove}
use obschain.Core.External.{Uuid, DateTime, Externals}
use obschain.Core.Incident.{ProvenanceClassification}
use obschain.Core.Observation.{TransactionObservation, TxOutputObservation}
use obschain.Core.Watch.{
  WatchTarget, WatchTargetKind, out_point, script_pub_key, address, transaction,
}

-- a transaction's output: its hash in lower case, and its number
abbrev pub OutPoint : Type 0
OutPoint = Text × ℕ

unfoldable pub outpoint_beq : OutPoint → OutPoint → Bool
outpoint_beq a b = text_beq a.0 b.0 && nat_beq a.1 b.1

pub outpoint_beq_iff : (a b : OutPoint) → (outpoint_beq a b ≡ true) ↔ (a ≡ b)
unfolding outpoint_beq
outpoint_beq_iff (s, n) (t, m) = ground (arith, text_beq_iff s t, nat_beq_iff n m)

instance abbrev pub outpoint_eq : Eq OutPoint
outpoint_eq = record { beq = outpoint_beq; beq_iff = outpoint_beq_iff }

pub record TrackedDescendantOutpoint : Type 0 where
  pub incident_id : Uuid
  pub case_id : Text
  pub origin_target_id : Uuid
  pub depth : ℕ
  pub confidence : ProvenanceClassification
  pub created_at : DateTime

-- An index from what a transaction shows to the targets that it touches.
abbrev pub Index : Type 0 → Type 0
Index K = HashMap K (List WatchTarget)

pub record IncidentWatchEngine : Type 0 where
  pub outpoint_index : Index OutPoint
  pub script_index : Index Text
  pub address_index : Index Text
  pub txid_index : Index Text
  pub all_targets : HashMap Uuid WatchTarget
  pub descendant_outpoints : HashMap OutPoint TrackedDescendantOutpoint
  pub descendant_fifo : List OutPoint
  pub max_descendant_depth : ℕ
  pub max_tracked_descendants : ℕ
  pub incident_titles : HashMap Text Text

abbrev pub default_follow_depth : ℕ
default_follow_depth = 3

abbrev pub max_allowed_follow_depth : ℕ
max_allowed_follow_depth = 5

abbrev pub default_max_tracked_descendants : ℕ
default_max_tracked_descendants = 1_000

-- `clamp`
clamp : ℕ → ℕ → ℕ → ℕ
clamp low high n = if ltb n low then low else if ltb high n then high else n

unfoldable pub with_follow_depth : ℕ → IncidentWatchEngine
unfolding clamp
with_follow_depth max_depth = record {
  outpoint_index = [];
  script_index = [];
  address_index = [];
  txid_index = [];
  all_targets = [];
  descendant_outpoints = [];
  descendant_fifo = [];
  max_descendant_depth = clamp 1 max_allowed_follow_depth max_depth;
  max_tracked_descendants = default_max_tracked_descendants;
  incident_titles = [];
}

-- `from_env`, with the variable's text, if it is set
unfoldable pub from_env : Option Text → IncidentWatchEngine
unfolding with_follow_depth
from_env none = with_follow_depth (clamp 1 max_allowed_follow_depth default_follow_depth)
from_env (some v) = elim (parse_uint u64_max v) [
  | none ↦ with_follow_depth (clamp 1 max_allowed_follow_depth default_follow_depth)
  | some depth ↦ with_follow_depth (clamp 1 max_allowed_follow_depth depth)
]

unfoldable pub register_incident_title : Text → Text → IncidentWatchEngine → IncidentWatchEngine
register_incident_title case_id title e = record e {
  incident_titles = insert case_id title e.incident_titles;
}

module _ {K : Type 0} ⦃k_eq : Eq K⦄ where
  -- `index.get(key).cloned()`; a key that is missing has no targets.
  unfoldable pub targets_at : K → Index K → List WatchTarget
  targets_at key m = elim (get key m) [ none ↦ [] | some ts ↦ ts ]

  -- `index.entry(key).or_default().push(target)`
  unfoldable pub push_target : K → WatchTarget → Index K → Index K
  unfolding targets_at
  push_target key target m = insert key (targets_at key m ++ target ∷ []) m

  -- the removal of a target from one entry, which goes with its last target
  unfoldable pub drop_target : K → Uuid → Index K → Index K
  drop_target key target_id m = elim (get key m) [
    | none ↦ m
    | some ts ↦ elim (retain (λ (t : WatchTarget). not (t.id == target_id)) ts) [
      | [] ↦ remove key m
      | t ∷ kept ↦ insert key (t ∷ kept) m
    ]
  ]

module _ (x : Externals) where
  -- the entry of a target in the index for its kind
  unfoldable pub index_target :
      WatchTarget → WatchTargetKind → IncidentWatchEngine → IncidentWatchEngine
  unfolding push_target
  index_target target (out_point txid vout) e = record e {
    outpoint_index = push_target (x.to_lowercase txid, vout) target e.outpoint_index;
  }
  index_target target (script_pub_key script_hex) e = record e {
    script_index = push_target (x.to_lowercase script_hex) target e.script_index;
  }
  index_target target (address addr attribution) e = record e {
    address_index = push_target addr target e.address_index;
  }
  index_target target (transaction txid) e = record e {
    txid_index = push_target (x.to_lowercase txid) target e.txid_index;
  }

  unfoldable pub add_target : WatchTarget → IncidentWatchEngine → IncidentWatchEngine
  unfolding index_target
  add_target target e =
      if target.active
      then index_target target target.kind
          (record e { all_targets = insert target.id target e.all_targets })
      else e

  unfoldable pub load_targets : List WatchTarget → IncidentWatchEngine → IncidentWatchEngine
  unfolding add_target
  load_targets [] e = e
  load_targets (target ∷ targets) e = load_targets targets (add_target target e)

  unfoldable pub unindex_target : Uuid → WatchTargetKind → IncidentWatchEngine → IncidentWatchEngine
  unfolding drop_target
  unindex_target target_id (out_point txid vout) e = record e {
    outpoint_index = drop_target (x.to_lowercase txid, vout) target_id e.outpoint_index;
  }
  unindex_target target_id (script_pub_key script_hex) e = record e {
    script_index = drop_target (x.to_lowercase script_hex) target_id e.script_index;
  }
  unindex_target target_id (address addr attribution) e = record e {
    address_index = drop_target addr target_id e.address_index;
  }
  unindex_target target_id (transaction txid) e = record e {
    txid_index = drop_target (x.to_lowercase txid) target_id e.txid_index;
  }

  unfoldable pub remove_target : Uuid → IncidentWatchEngine → IncidentWatchEngine
  unfolding unindex_target
  remove_target target_id e = elim (get target_id e.all_targets) [
    | none ↦ e
    | some target ↦
        unindex_target target_id target.kind
          (record e { all_targets = remove target_id e.all_targets })
  ]

unfoldable pub active_target_count : IncidentWatchEngine → ℕ
active_target_count e = length e.all_targets

unfoldable pub tracked_descendants_count : IncidentWatchEngine → ℕ
tracked_descendants_count e = length e.descendant_outpoints

-- `starts_with("6a") || starts_with("6A")`
starts_op_return : Option Text → Bool
starts_op_return (some (a ∷ b ∷ s)) = (a == b'6') && ((b == b'a') || (b == b'A'))
starts_op_return _ = false

is_type : Text → Option Text → Bool
is_type name none = false
is_type name (some t) = t == name

-- `TxOutputObservation::is_op_return`
unfoldable pub is_op_return : TxOutputObservation → Bool
unfolding starts_op_return is_type
is_op_return out =
    is_type (codes "op_return") out.script_pubkey_type || starts_op_return out.scriptpubkey_hex

-- The oldest place of the queue is given up when the queue is full.
unfoldable pub evict_oldest : List OutPoint → IncidentWatchEngine → IncidentWatchEngine
evict_oldest [] e = e
evict_oldest (old_key ∷ rest) e =
    if leb e.max_tracked_descendants (length (old_key ∷ rest))
    then record e {
      descendant_fifo = rest;
      descendant_outpoints = remove old_key e.descendant_outpoints;
    }
    else e

unfoldable pub enroll_output :
    OutPoint → TrackedDescendantOutpoint → IncidentWatchEngine → IncidentWatchEngine
unfolding evict_oldest
enroll_output key tracked e0 =
    let e = evict_oldest e0.descendant_fifo e0 in
    record e {
      descendant_fifo = e.descendant_fifo ++ key ∷ [];
      descendant_outpoints = insert key tracked e.descendant_outpoints;
    }

-- the loop over the outputs, of which the first has the number `vout`
unfoldable pub enroll_outputs :
    Text
    → TrackedDescendantOutpoint
    → ℕ
    → List TxOutputObservation
    → IncidentWatchEngine
    → IncidentWatchEngine
unfolding enroll_output is_op_return
enroll_outputs txid tracked vout [] e = e
enroll_outputs txid tracked vout (out ∷ outs) e =
    enroll_outputs txid tracked (vout + 1) outs
      (if is_op_return out then e else enroll_output (txid, vout % 2 ^ 32) tracked e)

-- `enroll_descendants`, with `tracked` for the incident, the case, the origin, the depth and the
-- confidence that it is given and for the instant that it reads
unfoldable pub enroll_descendants :
    Externals
    → TransactionObservation
    → TrackedDescendantOutpoint
    → IncidentWatchEngine
    → IncidentWatchEngine
unfolding enroll_outputs
enroll_descendants x tx tracked e =
    if ltb e.max_descendant_depth tracked.depth
    then e
    else enroll_outputs (x.to_lowercase tx.txid) tracked 0 tx.outputs e
