-- ===== src/Detectors/Transactions/Keys.antt =====
-- What identifies the events of the detectors in crates/obschain-detectors/src that look at
-- transactions: the kind of the event and the transaction.
use obschain.Prelude.{
  Bool, true, false, Option, none, some, List, [], ◌∷◌, Text, codes, concat, nat_eq, if◌then◌else◌,
  All, All-append, ◌++◌, arith, ◌≡◌, refl,
}
use obschain.Core.External.{Externals, Readings}
use obschain.Core.Observation.{Observation, transaction, replacement}
use obschain.Core.Event.{ChainEvent, identity_key, debug}
use obschain.Detectors.Metadata.{Encoders}
use obschain.Detectors.FanOut.{
  FanOutDetector, ConsolidationDetector, detect_fan_out, detect_consolidation, fan_out_event,
  consolidation_event,
}
use obschain.Detectors.Dormant.{DormantCoinDetector, detect_dormant, dormant_event}
use obschain.Detectors.Transactions.{
  LargeTransactionDetector, ExtremeFeeDetector, detect_large, detect_extreme_fee,
  detect_replacement, large_event, extreme_fee_event, replacement_event,
}

-- the transaction that an observation is about
abbrev pub subject : Observation → Option Text
subject (transaction tx) = some tx.txid
subject (replacement repl) = some repl.replacement_txid
subject _ = none

-- The event is identified by its kind and the observed transaction.
abbrev pub Keyed : Observation → ChainEvent → Type 0
Keyed obs e =
    (txid : Text) × (subject obs ≡ some txid)
    × (identity_key e ≡ concat (debug e.event_type ∷ codes ":tx:" ∷ txid ∷ []))

All-if :
    (P : ChainEvent → Type 0) (b : Bool) (e : ChainEvent) → P e → All P (if b then [] else e ∷ [])
All-if P true e p = tt
All-if P false e p = (p, tt)

module _ (x : Externals) (encode : Encoders) (r : Readings) where
  large-Keyed :
      (d : LargeTransactionDetector) (obs : Observation)
      → All (Keyed obs) (detect_large x encode r d obs)
  unfolding detect_large large_event identity_key
  large-Keyed d (transaction tx) = All-if (Keyed (transaction tx)) _ _ (tx.txid, refl, refl)
  large-Keyed d _ = tt

  extreme_fee-Keyed :
      (d : ExtremeFeeDetector) (obs : Observation)
      → All (Keyed obs) (detect_extreme_fee x encode r d obs)
  unfolding detect_extreme_fee extreme_fee_event identity_key
  extreme_fee-Keyed d (transaction tx) = All-if (Keyed (transaction tx)) _ _ (tx.txid, refl, refl)
  extreme_fee-Keyed d _ = tt

  replacement-Keyed : (obs : Observation) → All (Keyed obs) (detect_replacement x encode r obs)
  unfolding detect_replacement replacement_event identity_key
  replacement-Keyed (replacement repl) =
      All-if (Keyed (replacement repl)) _ _ (repl.replacement_txid, refl, refl)
  replacement-Keyed _ = tt

  fan_out-Keyed :
      (d : FanOutDetector) (obs : Observation) → All (Keyed obs) (detect_fan_out x encode r d obs)
  unfolding detect_fan_out fan_out_event identity_key
  fan_out-Keyed d (transaction tx) = All-if (Keyed (transaction tx)) _ _ (tx.txid, refl, refl)
  fan_out-Keyed d _ = tt

  consolidation-Keyed :
      (d : ConsolidationDetector) (obs : Observation)
      → All (Keyed obs) (detect_consolidation x encode r d obs)
  unfolding detect_consolidation consolidation_event identity_key
  consolidation-Keyed d (transaction tx) = ground arith
  consolidation-Keyed d _ = tt

  dormant-Keyed :
      (d : DormantCoinDetector) (obs : Observation)
      → All (Keyed obs) (detect_dormant x encode r d obs)
  unfolding detect_dormant dormant_event identity_key
  dormant-Keyed d (transaction tx) = All-if (Keyed (transaction tx)) _ _ (tx.txid, refl, refl)
  dormant-Keyed d _ = tt

  -- what all six detectors find in an observation
  abbrev pub found_by_all :
      LargeTransactionDetector
      → ExtremeFeeDetector
      → FanOutDetector
      → ConsolidationDetector
      → DormantCoinDetector
      → Observation
      → List ChainEvent
  found_by_all large fee fan_out consolidation dormant obs =
      detect_large x encode r large obs
      ++ (detect_extreme_fee x encode r fee obs
          ++ (detect_fan_out x encode r fan_out obs
              ++ (detect_consolidation x encode r consolidation obs
                  ++ (detect_dormant x encode r dormant obs ++ detect_replacement x encode r obs))))

-- Whatever their thresholds, all events that the six detectors of transactions find in an
-- observation are identified by their kind and by the observed (or the replacing) transaction
-- alone: not by clocks, fees, blocks or texts. They find none in an observation of anything else.
found_by_all-Keyed :
    (x : Externals) (encode : Encoders) (r : Readings) (large : LargeTransactionDetector)
    (fee : ExtremeFeeDetector) (fan_out : FanOutDetector) (consolidation : ConsolidationDetector)
    (dormant : DormantCoinDetector) (obs : Observation)
    → All (Keyed obs) (found_by_all x encode r large fee fan_out consolidation dormant obs)
found_by_all-Keyed x encode r large fee fan_out consolidation dormant obs =
    All-append (Keyed obs) _ _ (large-Keyed x encode r large obs) (
      All-append (Keyed obs) _ _ (extreme_fee-Keyed x encode r fee obs) (
        All-append (Keyed obs) _ _ (fan_out-Keyed x encode r fan_out obs) (
          All-append (Keyed obs) _ _ (consolidation-Keyed x encode r consolidation obs) (
            All-append (Keyed obs) _ _ (dormant-Keyed x encode r dormant obs)
              (replacement-Keyed x encode r obs)))))
