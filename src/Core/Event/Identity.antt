-- ===== src/Core/Event/Identity.antt =====
-- When two events have one identity: `ChainEvent::deterministic_id` in crates/obschain-core/src/event.rs.
use obschain.Prelude.{
  ℕ, Option, none, some, ◌∷◌, ◌++◌, Text, codes, show, show-injective, ◌≡◌, refl, ap, ◌↔◌, arith,
  Lacks, split_unique, text_beq, if◌then◌else◌,
}
use obschain.Core.External.{Externals}
use obschain.Core.Event.{
  EventType, large_transfer, dormant_coins_moved, consolidation, fan_out, extreme_fee,
  transaction_replacement, long_block_interval, reorg_detected, mining_anomaly, unusual_fee_ratio,
  debug, ChainEvent, identity_key, deterministic_id,
}

-- What an event is about.
pub data Target : Type 0 where
  tx : Text → Target
  block : Text → Target
  height : ℕ → Target
  titled : Text → Target

abbrev pick : Option Text → Option Text → Option ℕ → Text → Target
pick (some t) hash h title = tx t
pick none (some hash) h title = block hash
pick none none (some h) title = height h
pick none none none title = titled title

abbrev pub target : ChainEvent → Target
target e = pick e.txid e.block_hash e.block_height e.title

-- what stands behind the first colon
suffix : Target → Text
suffix (tx t) = codes "tx:" ++ t
suffix (block hash) = codes "block:" ++ hash
suffix (height h) = codes "height:" ++ show h
suffix (titled title) = codes "title:" ++ title

of_debug : Text → Option EventType
of_debug s =
    if text_beq s (debug large_transfer)
    then some large_transfer
    else if text_beq s (debug dormant_coins_moved)
    then some dormant_coins_moved
    else if text_beq s (debug consolidation)
    then some consolidation
    else if text_beq s (debug fan_out)
    then some fan_out
    else if text_beq s (debug extreme_fee)
    then some extreme_fee
    else if text_beq s (debug transaction_replacement)
    then some transaction_replacement
    else if text_beq s (debug long_block_interval)
    then some long_block_interval
    else if text_beq s (debug reorg_detected)
    then some reorg_detected
    else if text_beq s (debug mining_anomaly)
    then some mining_anomaly
    else some unusual_fee_ratio

of_debug-debug : (t : EventType) → of_debug (debug t) ≡ some t
unfolding of_debug text_beq
of_debug-debug large_transfer = refl
of_debug-debug _ = refl

debug-injective : (t u : EventType) → debug t ≡ debug u → t ≡ u
debug-injective t u h = cc (of_debug-debug t, of_debug-debug u)

debug-Lacks : (t : EventType) → Lacks b':' (debug t)
debug-Lacks large_transfer = omega arith
debug-Lacks _ = omega arith

suffix-injective : (s t : Target) → suffix s ≡ suffix t → s ≡ t
unfolding suffix
suffix-injective (height m) (height n) h = cc (show-injective m n (cc))
suffix-injective (tx a) t h = ground arith
suffix-injective s t h = ground arith

identity_key-suffix :
    (e : ChainEvent) → identity_key e ≡ debug e.event_type ++ b':' ∷ suffix (target e)
unfolding identity_key suffix
identity_key-suffix e = ground arith

-- Two events are hashed under one name exactly when they have one type and one target: whatever
-- else they hold, live or replayed, they then get one deterministic identifier.
pub identity_key_iff :
    (x : Externals) (e f : ChainEvent)
    → ((identity_key e ≡ identity_key f) ↔ ((e.event_type ≡ f.event_type) × (target e ≡ target f)))
      × ((e.event_type ≡ f.event_type)
          → target e ≡ target f
          → deterministic_id x e ≡ deterministic_id x f)
unfolding deterministic_id
identity_key_iff x e f = ((forth, λ h. back h.0 h.1), λ p q. ap x.new_v5 (back p q))
  where
    forth : identity_key e ≡ identity_key f → (e.event_type ≡ f.event_type) × (target e ≡ target f)
    forth h =
        let (p, q) =
          split_unique b':' (debug e.event_type) (debug f.event_type) (suffix (target e))
            (suffix (target f)) (debug-Lacks e.event_type) (debug-Lacks f.event_type)
            (cc (identity_key-suffix e, identity_key-suffix f)) in
        (debug-injective e.event_type f.event_type p, suffix-injective (target e) (target f) q)

    back : e.event_type ≡ f.event_type → target e ≡ target f → identity_key e ≡ identity_key f
    back p q = cc (identity_key-suffix e, identity_key-suffix f)
