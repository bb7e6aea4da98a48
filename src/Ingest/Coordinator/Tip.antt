-- ===== src/Ingest/Coordinator/Tip.antt =====
-- The tip follows the blocks: `process_zmq_block` in crates/obschain-ingest/src/bitcoin_coordinator.rs.
use obschain.Prelude.{
  ◌+◌, ◌%◌, ◌^◌, false, none, some, List, [], ◌∷◌, ◌++◌, map, Text, text_eq, text_beq_iff, arith,
  ◌≡◌, refl, sym, ap, ◌==◌, ◌⊎◌, beq_refl, inl, inr, Bool-cases, Option-cases,
}
use obschain.Core.External.{DateTime}
use obschain.Core.Observation.{
  Observation, block, transaction, reorg, BlockObservation, TransactionObservation,
  ReorgObservation,
}
use obschain.Ingest.Coordinator.{
  BitcoinCoordinator, Headers, set_tip, handle_potential_reorg, process_zmq_block,
}

-- The blocks that arrive one after the other, each with its transactions.
unfoldable pub process_blocks :
    Headers
    → DateTime
    → List (BlockObservation × List TransactionObservation)
    → BitcoinCoordinator
    → List Observation × BitcoinCoordinator
process_blocks headers now [] c = ([], c)
process_blocks headers now ((b, txs) ∷ bs) c =
    let (sent, c') = process_zmq_block headers now b txs c in
    let (more, c'') = process_blocks headers now bs c' in (sent ++ more, c'')

-- Each block builds on the one before it, the first on `tip`.
abbrev pub Chain : Text → List (BlockObservation × List TransactionObservation) → Type 0
Chain tip [] = Unit
Chain tip ((b, txs) ∷ bs) = (b.previous_block_hash ≡ tip) × Chain b.block_hash bs

-- every block, followed by its transactions
abbrev pub all_announced : List (BlockObservation × List TransactionObservation) → List Observation
all_announced [] = []
all_announced ((b, txs) ∷ bs) = block b ∷ map transaction txs ++ all_announced bs

-- the coordinator after the last of the blocks
abbrev pub at_last :
    List (BlockObservation × List TransactionObservation) → BitcoinCoordinator → BitcoinCoordinator
at_last [] c = c
at_last ((b, txs) ∷ bs) c =
    at_last bs (record c { last_tip_hash = some b.block_hash; last_tip_height = b.height })

process_zmq_block-extends :
    (headers : Headers) (now : DateTime) (b : BlockObservation) (txs : List TransactionObservation)
    (tip : Text) (c : BitcoinCoordinator)
    → c.last_tip_hash ≡ some tip
    → b.previous_block_hash ≡ tip
    → process_zmq_block headers now b txs c
      ≡ (block b ∷ map transaction txs, set_tip b.block_hash b.height c)
unfolding process_zmq_block
process_zmq_block-extends headers now b txs tip c known builds = ground (arith, beq_refl tip)

-- A chain of blocks on the known tip is passed on block by block, each followed by its transactions
-- in their order; no reorganisation is reported, the last block becomes the tip, and no counter
-- changes.
pub process_blocks-Chain :
    (headers : Headers) (now : DateTime)
    (bs : List (BlockObservation × List TransactionObservation)) (tip : Text)
    (c : BitcoinCoordinator)
    → c.last_tip_hash ≡ some tip
    → Chain tip bs
    → process_blocks headers now bs c ≡ (all_announced bs, at_last bs c)
unfolding process_blocks
process_blocks-Chain headers now [] tip c known h = refl
process_blocks-Chain headers now ((b, txs) ∷ bs) tip c known h =
    rw
      (
        process_zmq_block-extends headers now b txs tip c known h.0,
        process_blocks-Chain headers now bs b.block_hash (set_tip b.block_hash b.height c) refl h.1,
      )
      refl

-- No reorganisation is due: no tip is known, or the block builds on it.
abbrev pub Extends : BlockObservation → BitcoinCoordinator → Type 0
Extends b c = (c.last_tip_hash ≡ none) ⊎ (c.last_tip_hash ≡ some b.previous_block_hash)

-- The reorganisation from the tip to the block.
abbrev pub Reports : Text → BlockObservation → BitcoinCoordinator → ReorgObservation → Type 0
Reports tip b c r =
    (r.old_tip_hash ≡ tip)
    × (r.old_tip_height ≡ c.last_tip_height)
    × (r.new_tip_hash ≡ b.block_hash)
    × (r.new_tip_height ≡ b.height)

-- What comes of a block: it is sent with its transactions, behind one reorganisation exactly when
-- another tip than the block before it was known, which is then counted.
abbrev pub Outcome :
    BlockObservation
    → List TransactionObservation
    → BitcoinCoordinator
    → List Observation × BitcoinCoordinator
    → Type 0
Outcome b txs c (sent, c') =
    (Extends b c
      × (sent ≡ block b ∷ map transaction txs)
      × (c'.reorgs_detected ≡ c.reorgs_detected))
    ⊎ ((tip : Text) × (r : ReorgObservation) × (c.last_tip_hash ≡ some tip)
        × ((b.previous_block_hash == tip) ≡ false)
        × Reports tip b c r
        × (sent ≡ reorg r ∷ block b ∷ map transaction txs)
        × (c'.reorgs_detected ≡ (c.reorgs_detected + 1) % 2 ^ 64))

-- Whatever the tip was, a block becomes the tip and is sent, followed by its transactions in their
-- order. Exactly when another block was the tip than the one it builds on, one reorganisation is sent
-- before it, which names the two tips with their heights, and is counted.
pub process_zmq_block-reports :
    (headers : Headers) (now : DateTime) (b : BlockObservation) (txs : List TransactionObservation)
    (c : BitcoinCoordinator)
    → ((process_zmq_block headers now b txs c).1.last_tip_hash ≡ some b.block_hash)
      × ((process_zmq_block headers now b txs c).1.last_tip_height ≡ b.height)
      × Outcome b txs c (process_zmq_block headers now b txs c)
unfolding process_zmq_block handle_potential_reorg
process_zmq_block-reports headers now b txs c = elim (Option-cases c.last_tip_hash) [
  | inl unknown ↦ rw (process_zmq_block, unknown) (refl, refl, inl (inl refl, refl, refl))
  | inr (tip, known) ↦ elim (Bool-cases (b.previous_block_hash == tip)) [
    | inl builds ↦
        let same : b.previous_block_hash ≡ tip =
          ground (arith, text_beq_iff b.previous_block_hash tip, builds) in
        rw (process_zmq_block, known, builds)
          (refl, refl, inl (inr (ap some (sym same)), refl, refl))
    | inr other ↦
        rw (process_zmq_block, known, other)
          (refl, refl, inr (tip, _, refl, other, (refl, refl, refl, refl), refl, refl))
  ]
]
