-- ===== src/Ingest/Coordinator.antt =====
-- crates/obschain-ingest/src/bitcoin_coordinator.rs: how blocks from the node extend or replace the
-- known tip. What the node answers is a parameter; what the coordinator sends is a list, oldest first.
pub mod Walk
pub mod Tip
use obschain.Prelude.{
  ℕ, zero, suc, ◌+◌, ◌%◌, ◌^◌, Option, none, some, List, [], ◌∷◌, ◌++◌, map, Text, codes, text_eq,
  ◌==◌, if◌then◌else◌, find,
}
use obschain.Core.External.{DateTime}
use obschain.Core.Source.{bitcoin_core_zmq}
use obschain.Core.Observation.{
  Observation, block, transaction, reorg, BlockObservation, TransactionObservation,
}

-- The tip and the counters of `BitcoinCoordinator`
pub record BitcoinCoordinator : Type 0 where
  pub last_tip_hash : Option Text
  pub last_tip_height : ℕ
  pub rpc_requests_total : ℕ
  pub rpc_errors_total : ℕ
  pub reorgs_detected : ℕ

abbrev pub bump : ℕ → ℕ
bump n = (n + 1) % 2 ^ 64

-- The answer to `get_block_header`: an error, or the previous hash, if the block has one.
abbrev pub Headers : Type 0
Headers = Text → Option (Option Text)

-- the variables of the search
pub record Search : Type 0 where
  pub current_old : Text
  pub current_new : Text
  pub common_ancestor : Option Text
  pub depth : ℕ
  pub disconnected : List Text
  pub connected : List Text

abbrev pub deepen : Text → Text → Search → Search
deepen op np s = record s { current_old = op; current_new = np; depth = s.depth + 1 }

abbrev pub push_both : Search → Search
push_both s = record s {
  disconnected = s.disconnected ++ s.current_old ∷ [];
  connected = s.connected ++ s.current_new ∷ [];
}

-- the hashes before both blocks, where the node knows both
abbrev pub previous_of : Option (Option Text) → Option (Option Text) → Option (Text × Text)
previous_of (some (some op)) (some (some np)) = some (op, np)
previous_of _ _ = none

-- The search for the common ancestor: so many rounds are left.
unfoldable pub search : Headers → ℕ → Search → Search
search headers zero s = s
search headers (suc n) s =
    if s.current_old == s.current_new
    then record s { common_ancestor = some s.current_old }
    else elim (previous_of (headers s.current_old) (headers s.current_new)) [
      | none ↦ push_both s
      | some (op, np) ↦ search headers n (deepen op np (push_both s))
    ]

abbrev pub search_start : Text → Text → Text → Search
search_start old_tip new_tip new_prev = record {
  current_old = old_tip;
  current_new = new_prev;
  common_ancestor = none;
  depth = 1;
  disconnected = [];
  connected = new_tip ∷ [];
}

-- `handle_potential_reorg`: what it sends, and its counters.
unfoldable pub handle_potential_reorg :
    Headers
    → DateTime
    → Text
    → Text
    → ℕ
    → Text
    → BitcoinCoordinator
    → List Observation × BitcoinCoordinator
unfolding search bitcoin_core_zmq
handle_potential_reorg headers now old_tip new_tip new_height new_prev c =
    let s = search headers 100 (search_start old_tip new_tip new_prev) in
    (
      reorg (record {
        old_tip_hash = old_tip;
        old_tip_height = c.last_tip_height;
        new_tip_hash = new_tip;
        new_tip_height = new_height;
        common_ancestor_hash = s.common_ancestor;
        depth = s.depth;
        disconnected_blocks = s.disconnected;
        connected_blocks = s.connected;
        observed_at = now;
        source = some (bitcoin_core_zmq (codes "zmq:sequence"));
      })
          ∷ [],
      record c {
        rpc_requests_total = bump c.rpc_requests_total;
        reorgs_detected = bump c.reorgs_detected;
      },
    )

abbrev pub set_tip : Text → ℕ → BitcoinCoordinator → BitcoinCoordinator
set_tip hash height c = record c { last_tip_hash = some hash; last_tip_height = height }

-- the block and its transactions, as each branch sends them
abbrev pub announced : BlockObservation → List TransactionObservation → List Observation
announced b txs = block b ∷ map transaction txs

unfoldable pub process_zmq_block :
    Headers
    → DateTime
    → BlockObservation
    → List TransactionObservation
    → BitcoinCoordinator
    → List Observation × BitcoinCoordinator
unfolding handle_potential_reorg
process_zmq_block headers now b txs c = elim c.last_tip_hash [
  | none ↦ (announced b txs, set_tip b.block_hash b.height c)
  | some expected ↦
      if b.previous_block_hash == expected
      then (announced b txs, set_tip b.block_hash b.height c)
      else let (sent, c') =
          handle_potential_reorg headers now expected b.block_hash b.height b.previous_block_hash
            c in
        (sent ++ announced b txs, set_tip b.block_hash b.height c')
]

-- an element of the answer to `get_chain_tips`
pub record ChainTip : Type 0 where
  pub height : ℕ
  pub hash : Text
  pub status : Text

unfoldable pub investigate_chain_tips :
    Headers
    → DateTime
    → Option (List ChainTip)
    → BitcoinCoordinator
    → List Observation × BitcoinCoordinator
unfolding handle_potential_reorg
investigate_chain_tips headers now tips c =
    let asked : BitcoinCoordinator = record c { rpc_requests_total = bump c.rpc_requests_total } in
    elim tips [
      | none ↦ ([], record asked { rpc_errors_total = bump c.rpc_errors_total })
      | some ts ↦ elim (find (λ (t : ChainTip). t.status == codes "active") ts) [
        | none ↦ ([], asked)
        | some active ↦ elim c.last_tip_hash [
          | none ↦ ([], asked)
          | some last ↦
              if last == active.hash
              then ([], asked)
              else let (sent, c') =
                  handle_potential_reorg headers now last active.hash active.height [] asked in
                (sent, set_tip active.hash active.height c')
        ]
      ]
    ]
