-- ===== src/Ingest/Coordinator/Walk.antt =====
-- What the search for the common ancestor finds: `handle_potential_reorg` in
-- crates/obschain-ingest/src/bitcoin_coordinator.rs.
use obschain.Prelude.{
  ℕ, zero, suc, ◌+◌, ◌%◌, ◌^◌, ◌<◌, false, none, some, List, [], ◌∷◌, ◌++◌, Text, codes, text_eq,
  text_beq_iff, length, arith, ◌≡◌, ◌≢◌, refl, ◌∙◌, ◌==◌, beq_refl,
}
use mathlib.Core.List.{append_assoc, append-nil}
use obschain.Core.External.{DateTime}
use obschain.Core.Source.{bitcoin_core_zmq}
use obschain.Core.Observation.{reorg}
use obschain.Ingest.Coordinator.{
  BitcoinCoordinator, Headers, Search, search, handle_potential_reorg,
}

-- Two branches of `n` blocks each, newest first, that meet in `ancestor`: the node knows of each
-- block the one before it, and at no height before the ancestor are the two blocks the same.
pub data Fork (headers : Headers) (ancestor : Text)
    : List Text → List Text → Text → Text → Type 0 where
  meet : Fork headers ancestor [] [] ancestor ancestor
  apart :
      (old new op np : Text) (olds news : List Text)
      → old ≢ new
      → headers old ≡ some (some op)
      → headers new ≡ some (some np)
      → Fork headers ancestor olds news op np
      → Fork headers ancestor (old ∷ olds) (new ∷ news) old new

-- A search at the blocks `old` and `new`.
abbrev at_blocks : Text → Text → ℕ → List Text → List Text → Search
at_blocks old new depth disconnected connected = record {
  current_old = old;
  current_new = new;
  common_ancestor = none;
  depth = depth;
  disconnected = disconnected;
  connected = connected;
}

-- the search that met the two branches
abbrev met : Text → ℕ → List Text → List Text → Search
met ancestor depth disconnected connected =
    record (at_blocks ancestor ancestor depth disconnected connected) {
      common_ancestor = some ancestor;
    }

differ : (old new : Text) → old ≢ new → (old == new) ≡ false
differ old new h = ground (arith, text_beq_iff old new)

search-met :
    (headers : Headers) (ancestor : Text) (olds news : List Text) (old new : Text) (n depth : ℕ)
    (disconnected connected : List Text)
    → Fork headers ancestor olds news old new
    → length olds < n
    → search headers n (at_blocks old new depth disconnected connected)
      ≡ met ancestor (depth + length olds) (disconnected ++ olds) (connected ++ news)
unfolding search
search-met headers ancestor _ _ _ _ zero depth dis con f h = ground arith
search-met headers ancestor _ _ _ _ (suc n) depth dis con meet h =
    rw (beq_refl ancestor, append-nil dis, append-nil con, plus_zero depth) refl
  where
    plus_zero : (d : ℕ) → d + 0 ≡ d
    plus_zero d = omega arith
search-met headers ancestor _ _ _ _ (suc n) depth dis con (apart old new op np olds news d o p f)
      h =
    rw (differ old new d, o, p)
      (search-met headers ancestor olds news op np n (depth + 1) (dis ++ old ∷ []) (con ++ new ∷ [])
          f (omega arith)
        ∙ regroup)
  where
    one_more : (k : ℕ) → depth + 1 + k ≡ depth + suc k
    one_more k = omega arith

    regroup :
        met ancestor
          (depth + 1 + length olds)
          ((dis ++ old ∷ []) ++ olds)
          ((con ++ new ∷ []) ++ news)
        ≡ met ancestor (depth + suc (length olds)) (dis ++ old ∷ olds) (con ++ new ∷ news)
    regroup =
        rw
          (
            append_assoc dis (old ∷ []) olds,
            append_assoc con (new ∷ []) news,
            one_more (length olds),
          )
          refl

-- A fork of fewer than 100 blocks is followed to its root: where the known tip and the block before
-- the new one head two branches of the same length that meet in a block, exactly one reorganisation
-- is sent. It names both tips with their heights and that block, the blocks of the known branch as
-- disconnected and the new tip and the other blocks of its branch as connected, newest first; its
-- depth is one more than the number of disconnected blocks. One request and one reorganisation are
-- counted.
pub handle_potential_reorg-Fork :
    (headers : Headers) (now : DateTime) (ancestor old_tip new_tip new_prev : Text) (new_height : ℕ)
    (olds news : List Text) (c : BitcoinCoordinator)
    → Fork headers ancestor olds news old_tip new_prev
    → length olds < 100
    → handle_potential_reorg headers now old_tip new_tip new_height new_prev c ≡ (
      reorg (record {
        old_tip_hash = old_tip;
        old_tip_height = c.last_tip_height;
        new_tip_hash = new_tip;
        new_tip_height = new_height;
        common_ancestor_hash = some ancestor;
        depth = 1 + length olds;
        disconnected_blocks = olds;
        connected_blocks = new_tip ∷ news;
        observed_at = now;
        source = some (bitcoin_core_zmq (codes "zmq:sequence"));
      })
          ∷ [],
      record c {
        rpc_requests_total = (c.rpc_requests_total + 1) % 2 ^ 64;
        reorgs_detected = (c.reorgs_detected + 1) % 2 ^ 64;
      },
    )
unfolding handle_potential_reorg
handle_potential_reorg-Fork headers now ancestor old_tip new_tip new_prev new_height olds news c f
      h =
    rw (search-met headers ancestor olds news old_tip new_prev 100 1 [] (new_tip ∷ []) f h) refl
