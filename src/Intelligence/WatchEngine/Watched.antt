-- ===== src/Intelligence/WatchEngine/Watched.antt =====
-- The specification of the targets of `IncidentWatchEngine`: one list, in the order in which they were
-- added, and what of it a transaction touches.
use obschain.Prelude.{
  Bool, true, false, not, Option, none, some, List, [], ◌∷◌, ◌++◌, Text, text_eq, nat_eq, retain,
  find, ◌==◌, if◌then◌else◌, arith, ◌≡◌, refl,
}
use obschain.Core.External.{Externals, Uuid}
use obschain.Core.Watch.{
  WatchTarget, WatchTargetKind, out_point, script_pub_key, address, transaction,
}
use obschain.Intelligence.WatchEngine.{OutPoint, outpoint_eq}

abbrev pub is_outpoint : Externals → OutPoint → WatchTargetKind → Bool
is_outpoint x key (out_point txid vout) =
    let own : OutPoint = (x.to_lowercase txid, vout) in own == key
is_outpoint x key (script_pub_key script_hex) = false
is_outpoint x key (address addr attribution) = false
is_outpoint x key (transaction txid) = false

abbrev pub is_script : Externals → Text → WatchTargetKind → Bool
is_script x key (out_point txid vout) = false
is_script x key (script_pub_key script_hex) = x.to_lowercase script_hex == key
is_script x key (address addr attribution) = false
is_script x key (transaction txid) = false

abbrev pub is_address : Text → WatchTargetKind → Bool
is_address key (out_point txid vout) = false
is_address key (script_pub_key script_hex) = false
is_address key (address addr attribution) = addr == key
is_address key (transaction txid) = false

abbrev pub is_txid : Externals → Text → WatchTargetKind → Bool
is_txid x key (out_point txid vout) = false
is_txid x key (script_pub_key script_hex) = false
is_txid x key (address addr attribution) = false
is_txid x key (transaction txid) = x.to_lowercase txid == key

-- the targets of a kind
abbrev pub of_kind : (WatchTargetKind → Bool) → List WatchTarget → List WatchTarget
of_kind p ts = retain (λ (t : WatchTarget). p t.kind) ts

abbrev pub with_id : Uuid → List WatchTarget → Option WatchTarget
with_id id ts = find (λ (t : WatchTarget). t.id == id) ts

abbrev pub without_id : Uuid → List WatchTarget → List WatchTarget
without_id id ts = retain (λ (t : WatchTarget). not (t.id == id)) ts

-- no two targets have one identifier
abbrev pub UniqueIds : List WatchTarget → Type 0
UniqueIds [] = Unit
UniqueIds (t ∷ ts) = (with_id t.id ts ≡ none) × UniqueIds ts

module _ (p : WatchTargetKind → Bool) where
  pub of_kind-snoc :
      (ts : List WatchTarget) (t : WatchTarget)
      → of_kind p (ts ++ t ∷ []) ≡ (if p t.kind then of_kind p ts ++ t ∷ [] else of_kind p ts)
  of_kind-snoc [] t = ground arith
  of_kind-snoc (u ∷ ts) t = ground (arith, of_kind-snoc ts t)

  pub of_kind-without_id :
      (id : Uuid) (ts : List WatchTarget)
      → of_kind p (without_id id ts) ≡ without_id id (of_kind p ts)
  of_kind-without_id id [] = refl
  of_kind-without_id id (u ∷ ts) = ground (arith, of_kind-without_id id ts)

pub without_id_absent :
    (id : Uuid) (ts : List WatchTarget) → with_id id ts ≡ none → without_id id ts ≡ ts
without_id_absent id [] h = refl
without_id_absent id (u ∷ ts) h = ground (arith, without_id_absent id ts)

-- A target of another kind goes unnoticed.
pub of_kind-without_id_other :
    (p : WatchTargetKind → Bool) (id : Uuid) (ts : List WatchTarget) (t : WatchTarget)
    → UniqueIds ts
    → with_id id ts ≡ some t
    → p t.kind ≡ false
    → of_kind p (without_id id ts) ≡ of_kind p ts
of_kind-without_id_other p id [] t u h other = cc
of_kind-without_id_other p id (v ∷ ts) t u h other = ground (
  arith,
  nat_eq.beq_iff v.id id,
  of_kind-without_id_other p id ts t u.1,
  without_id_absent id ts,
  u.0,
)

pub with_id-snoc :
    (id : Uuid) (ts : List WatchTarget) (t : WatchTarget)
    → with_id t.id ts ≡ none
    → with_id id (ts ++ t ∷ []) ≡ (if t.id == id then some t else with_id id ts)
with_id-snoc id [] t h = ground arith
with_id-snoc id (u ∷ ts) t h = ground (
  arith,
  with_id-snoc id ts t,
  nat_eq.beq_iff u.id id,
  nat_eq.beq_iff t.id id,
  nat_eq.beq_iff u.id t.id,
)

pub with_id-without_id :
    (id gone : Uuid) (ts : List WatchTarget)
    → with_id id (without_id gone ts) ≡ (if gone == id then none else with_id id ts)
with_id-without_id id gone [] = ground arith
with_id-without_id id gone (u ∷ ts) = ground (
  arith,
  with_id-without_id id gone ts,
  nat_eq.beq_iff u.id id,
  nat_eq.beq_iff u.id gone,
  nat_eq.beq_iff gone id,
)

pub UniqueIds-snoc :
    (ts : List WatchTarget) (t : WatchTarget)
    → UniqueIds ts
    → with_id t.id ts ≡ none
    → UniqueIds (ts ++ t ∷ [])
UniqueIds-snoc [] t u h = (refl, tt)
UniqueIds-snoc (v ∷ ts) t u h = (
  ground
      (arith, with_id-snoc v.id ts t, u.0, h, nat_eq.beq_iff t.id v.id, nat_eq.beq_iff v.id t.id),
  UniqueIds-snoc ts t u.1 (ground (arith, h)),
)

pub UniqueIds-without_id :
    (id : Uuid) (ts : List WatchTarget) → UniqueIds ts → UniqueIds (without_id id ts)
UniqueIds-without_id id [] u = tt
UniqueIds-without_id id (v ∷ ts) u =
    elim (v.id == id)
      as (λ b. UniqueIds (if not b then v ∷ without_id id ts else without_id id ts)) [
        | true ↦ UniqueIds-without_id id ts u.1
        | false ↦
            (ground (arith, with_id-without_id v.id id ts, u.0), UniqueIds-without_id id ts u.1)
      ]

pub with_id-id :
    (id : Uuid) (ts : List WatchTarget) (t : WatchTarget) → with_id id ts ≡ some t → t.id ≡ id
with_id-id id [] t h = cc
with_id-id id (u ∷ ts) t h = ground (arith, nat_eq.beq_iff u.id id, with_id-id id ts t)
