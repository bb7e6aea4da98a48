-- ===== src/Core/Source.antt =====
-- crates/obschain-core/src/source.rs: where an observation comes from, and who else saw it.
use obschain.Prelude.{
  Bool, true, false, Option, none, some, Text, codes, ◌↔◌, ◌≡◌, arith, text_eq, text_beq,
  text_beq_iff, Eq, ◌&&◌,
}
use obschain.Core.External.{Json, DateTime}

pub record ObservationSource : Type 0 where
  pub provider : Text
  pub transport : Text
  pub endpoint : Option Text

pub mempool_rest : Text → ObservationSource
mempool_rest endpoint = record {
  provider = codes "mempool.space";
  transport = codes "rest";
  endpoint = some endpoint;
}

pub mempool_ws : Text → ObservationSource
mempool_ws endpoint = record {
  provider = codes "mempool.space";
  transport = codes "websocket";
  endpoint = some endpoint;
}

pub bitcoin_core_rpc : Text → ObservationSource
bitcoin_core_rpc endpoint = record {
  provider = codes "bitcoin_core";
  transport = codes "rpc";
  endpoint = some endpoint;
}

unfoldable pub bitcoin_core_zmq : Text → ObservationSource
bitcoin_core_zmq endpoint = record {
  provider = codes "bitcoin_core";
  transport = codes "zmq";
  endpoint = some endpoint;
}

pub data SourceHealthState : Type 0 where
  connected connecting syncing degraded disconnected not_configured : SourceHealthState

pub record ObservationWitness : Type 0 where
  pub source : ObservationSource
  pub observed_at : DateTime
  pub metadata : Option Json

-- `ObservationWitness::new`, at the instant that the clock shows
abbrev pub new_witness : DateTime → ObservationSource → ObservationWitness
new_witness now source = record { source = source; observed_at = now; metadata = none }

option_beq : Option Text → Option Text → Bool
option_beq none none = true
option_beq (some s) (some t) = text_beq s t
option_beq _ _ = false

option_beq_iff : (a b : Option Text) → (option_beq a b ≡ true) ↔ (a ≡ b)
unfolding option_beq
option_beq_iff none none = ground arith
option_beq_iff none (some t) = ground arith
option_beq_iff (some s) none = ground arith
option_beq_iff (some s) (some t) = ground (arith, text_beq_iff s t)

-- The derived `PartialEq`: field by field.
unfoldable pub source_beq : ObservationSource → ObservationSource → Bool
unfolding option_beq
source_beq a b =
    text_beq a.provider b.provider
    && text_beq a.transport b.transport
    && option_beq a.endpoint b.endpoint

pub source_beq_iff : (a b : ObservationSource) → (source_beq a b ≡ true) ↔ (a ≡ b)
source_beq_iff a b =
    unfold source_beq in
    ground (
      arith,
      text_beq_iff a.provider b.provider,
      text_beq_iff a.transport b.transport,
      option_beq_iff a.endpoint b.endpoint,
    )

instance abbrev pub source_eq : Eq ObservationSource
source_eq = record { beq = source_beq; beq_iff = source_beq_iff }
