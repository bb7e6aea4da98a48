-- ===== src/Ingest/Replay/Range.antt =====
-- Which ranges may be replayed: `validate_capabilities_and_range` in
-- crates/obschain-ingest/src/historical_replay.rs.
use obschain.Prelude.{ℕ, ◌+◌, ◌-◌, ◌^◌, ◌<◌, ◌≤◌, true, false, none, some, arith, ◌≡◌, ◌↔◌, ◌⊎◌}
use obschain.Ingest.Replay.{
  BitcoinNodeCapabilities, ReplayResult, ok, validate_capabilities, validate_capabilities_and_range,
}

-- The node can serve the blocks from `start` to `end_height`.
pub record Servable (start end_height : ℕ) (c : BitcoinNodeCapabilities) : Type 0 where
  pub synced : (c.initial_block_download ≡ false) ⊎ (c.regtest ≡ true)
  pub reached : end_height ≤ c.blocks
  pub retained :
      (c.pruned ≡ false)
      ⊎ ((c.prune_height ≡ none) ⊎ ((h : ℕ) × (c.prune_height ≡ some h) × (h ≤ start)))

validate_capabilities_iff :
    (start end_height : ℕ) (c d : BitcoinNodeCapabilities)
    → (validate_capabilities start end_height c ≡ ok d) ↔ (Servable start end_height c × (c ≡ d))
unfolding validate_capabilities
validate_capabilities_iff start end_height c d = ground arith

-- For heights below 2^64 - 1 a range is accepted exactly when it is not empty and not longer than
-- configured, the node answers, is not in its initial download (unless on regtest), has reached the
-- end of the range and has not pruned its start; the node's answer is returned.
pub validate_capabilities_and_range_iff :
    (max_range start end_height : ℕ) (node : ReplayResult BitcoinNodeCapabilities)
    (c : BitcoinNodeCapabilities)
    → end_height < 2 ^ 64 - 1
    → (validate_capabilities_and_range max_range start end_height node ≡ ok c) ↔ (
        (start ≤ end_height)
        × (end_height - start + 1 ≤ max_range)
        × (node ≡ ok c)
        × Servable start end_height c)
unfolding validate_capabilities_and_range
validate_capabilities_and_range_iff max_range start end_height node c fits =
    ground (arith, λ (d : BitcoinNodeCapabilities). validate_capabilities_iff start end_height d c)
