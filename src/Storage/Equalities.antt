-- ===== src/Storage/Equalities.antt =====
-- The derived equalities that crates/obschain-storage/src/repository.rs compares with.
use obschain.Prelude.{
  ℕ, Bool, true, false, Option, none, some, [], ◌∷◌, get_elem?, Eq, position_eq, ◌≡◌, refl,
}
use obschain.Core.Event.{
  EventType, large_transfer, dormant_coins_moved, consolidation, fan_out, extreme_fee,
  transaction_replacement, long_block_interval, reorg_detected, mining_anomaly, unusual_fee_ratio,
  EventSeverity, info, low, medium, high, critical,
}
use obschain.Core.Mode.{ObservationMode, live, historical_replay}
use obschain.Core.Occurrence.{
  EventObservationKind, first_seen, mempool_seen, confirmed, reorged_out, witnessed, replayed,
}
use obschain.Core.Watch.{ActivityStatus, mempool}

-- `==` on two `Option`s
abbrev pub option_beq {ℓ} : {A : Type ℓ} ⦃e : Eq A⦄ → Option A → Option A → Bool
option_beq none none = true
option_beq ⦃e⦄ (some a) (some b) = e.beq a b
option_beq _ _ = false

unfoldable pub type_position : EventType → ℕ
type_position large_transfer = 0
type_position dormant_coins_moved = 1
type_position consolidation = 2
type_position fan_out = 3
type_position extreme_fee = 4
type_position transaction_replacement = 5
type_position long_block_interval = 6
type_position reorg_detected = 7
type_position mining_anomaly = 8
type_position unusual_fee_ratio = 9

pub type_at : ℕ → Option EventType
type_at n =
    get_elem?
      (large_transfer ∷ dormant_coins_moved ∷ consolidation ∷ fan_out ∷ extreme_fee
        ∷ transaction_replacement ∷ long_block_interval ∷ reorg_detected ∷ mining_anomaly
        ∷ unusual_fee_ratio ∷ [])
      n

pub type_at-position : (t : EventType) → type_at (type_position t) ≡ some t
unfolding type_at type_position
type_at-position large_transfer = refl
type_at-position dormant_coins_moved = refl
type_at-position consolidation = refl
type_at-position fan_out = refl
type_at-position extreme_fee = refl
type_at-position transaction_replacement = refl
type_at-position long_block_interval = refl
type_at-position reorg_detected = refl
type_at-position mining_anomaly = refl
type_at-position unusual_fee_ratio = refl

instance abbrev pub type_eq : Eq EventType
type_eq = position_eq type_position type_at type_at-position

unfoldable pub severity_position : EventSeverity → ℕ
severity_position info = 0
severity_position low = 1
severity_position medium = 2
severity_position high = 3
severity_position critical = 4

pub severity_at : ℕ → Option EventSeverity
severity_at n = get_elem? (info ∷ low ∷ medium ∷ high ∷ critical ∷ []) n

pub severity_at-position : (s : EventSeverity) → severity_at (severity_position s) ≡ some s
unfolding severity_at severity_position
severity_at-position info = refl
severity_at-position low = refl
severity_at-position medium = refl
severity_at-position high = refl
severity_at-position critical = refl

instance abbrev pub severity_eq : Eq EventSeverity
severity_eq = position_eq severity_position severity_at severity_at-position

unfoldable pub mode_position : ObservationMode → ℕ
mode_position live = 0
mode_position historical_replay = 1

pub mode_at : ℕ → Option ObservationMode
mode_at n = get_elem? (live ∷ historical_replay ∷ []) n

pub mode_at-position : (m : ObservationMode) → mode_at (mode_position m) ≡ some m
unfolding mode_at mode_position
mode_at-position live = refl
mode_at-position historical_replay = refl

instance abbrev pub mode_eq : Eq ObservationMode
mode_eq = position_eq mode_position mode_at mode_at-position

unfoldable pub kind_position : EventObservationKind → ℕ
kind_position first_seen = 0
kind_position mempool_seen = 1
kind_position confirmed = 2
kind_position reorged_out = 3
kind_position witnessed = 4
kind_position replayed = 5

pub kind_at : ℕ → Option EventObservationKind
kind_at n =
    get_elem? (first_seen ∷ mempool_seen ∷ confirmed ∷ reorged_out ∷ witnessed ∷ replayed ∷ []) n

pub kind_at-position : (k : EventObservationKind) → kind_at (kind_position k) ≡ some k
unfolding kind_at kind_position
kind_at-position first_seen = refl
kind_at-position mempool_seen = refl
kind_at-position confirmed = refl
kind_at-position reorged_out = refl
kind_at-position witnessed = refl
kind_at-position replayed = refl

instance abbrev pub kind_eq : Eq EventObservationKind
kind_eq = position_eq kind_position kind_at kind_at-position

unfoldable pub status_position : ActivityStatus → ℕ
status_position mempool = 0
status_position ActivityStatus.confirmed = 1
status_position ActivityStatus.reorged_out = 2

pub status_at : ℕ → Option ActivityStatus
status_at n = get_elem? (mempool ∷ ActivityStatus.confirmed ∷ ActivityStatus.reorged_out ∷ []) n

pub status_at-position : (s : ActivityStatus) → status_at (status_position s) ≡ some s
unfolding status_at status_position
status_at-position mempool = refl
status_at-position ActivityStatus.confirmed = refl
status_at-position ActivityStatus.reorged_out = refl

instance abbrev pub status_eq : Eq ActivityStatus
status_eq = position_eq status_position status_at status_at-position
