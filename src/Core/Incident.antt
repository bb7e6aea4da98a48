-- ===== src/Core/Incident.antt =====
-- crates/obschain-core/src/incident.rs: the dossier of an incident.
use obschain.Prelude.{
  ℕ, ◌-◌, Bool, true, false, Option, none, List, [], ◌∷◌, ◌++◌, Text, text_eq, any, ◌==◌,
  if◌then◌else◌,
}
use obschain.Core.External.{Uuid, DateTime, Json}

pub data Chain : Type 0 where
  bitcoin liquid : Chain

pub data ProvenanceClassification : Type 0 where
  on_chain_verified officially_attributed reputable_reporting : ProvenanceClassification
  heuristic unverified disputed : ProvenanceClassification

abbrev pub is_cryptographically_verified : ProvenanceClassification → Bool
is_cryptographically_verified on_chain_verified = true
is_cryptographically_verified _ = false

abbrev pub allows_definitive_ownership_claim : ProvenanceClassification → Bool
allows_definitive_ownership_claim on_chain_verified = true
allows_definitive_ownership_claim officially_attributed = true
allows_definitive_ownership_claim _ = false

abbrev pub allows_verified_identity_claim : ProvenanceClassification → Bool
allows_verified_identity_claim officially_attributed = true
allows_verified_identity_claim _ = false

pub data EvidenceType : Type 0 where
  on_chain_transaction on_chain_block mempool_snapshot official_statement : EvidenceType
  official_technical_report security_advisory source_repository : EvidenceType
  heuristic_cluster disputed_claim independent_reporting : EvidenceType

pub record Evidence : Type 0 where
  pub id : Uuid
  pub incident_id : Uuid
  pub evidence_type : EvidenceType
  pub confidence : ProvenanceClassification
  pub title : Text
  pub description : Text
  pub observed_at : Option DateTime
  pub source_id : Option Uuid
  pub source_reference : Option Text
  pub txid : Option Text
  pub block_hash : Option Text
  pub block_height : Option ℕ
  pub chain : Chain
  pub verified : Bool
  pub raw_data : Option Json
  pub created_at : DateTime
  pub reference : Option Text
  pub classification : Option ProvenanceClassification

pub record OnChainMessage : Type 0 where
  pub txid : Text
  pub chain : Chain
  pub encoding : Text
  pub decoded_text : Text
  pub raw_hex : Text
  pub confirmed_at : Option DateTime
  pub block_height : Option ℕ
  pub attributed_sender : Option Text
  pub sender_attribution_confidence : ProvenanceClassification

pub data TimelineCategory : Type 0 where
  exploit on_chain_movement discovery containment communication : TimelineCategory
  disclosure patch recovery network_restart other : TimelineCategory

pub record TimelineEntry : Type 0 where
  pub id : Uuid
  pub timestamp : DateTime
  pub title : Text
  pub description : Text
  pub category : TimelineCategory
  pub source_id : Option Uuid
  pub evidence_ids : List Uuid
  pub transaction_txids : List Text
  pub block_heights : List ℕ
  pub classification : ProvenanceClassification

pub record RecoverySummary : Type 0 where
  pub affected_sats : ℕ
  pub recovered_sats : ℕ
  pub outstanding_sats : ℕ
  pub as_of_timestamp : DateTime
  pub source : Option Text
  pub is_estimate : Bool

-- `RecoverySummary::new`; `saturating_sub` is the subtraction of natural numbers.
unfoldable pub new_recovery : ℕ → ℕ → DateTime → RecoverySummary
new_recovery affected_sats recovered_sats as_of = record {
  affected_sats = affected_sats;
  recovered_sats = recovered_sats;
  outstanding_sats = affected_sats - recovered_sats;
  as_of_timestamp = as_of;
  source = none;
  is_estimate = false;
}

pub record IncidentUpdate : Type 0 where
  pub id : Uuid
  pub timestamp : DateTime
  pub title : Text
  pub summary : Text
  pub source_id : Option Uuid
  pub recovery_state : Option RecoverySummary

pub data GraphNodeType : Type 0 where
  transaction block address entity source evidence : GraphNodeType

pub record GraphNode : Type 0 where
  pub id : Text
  pub label : Text
  pub node_type : GraphNodeType
  pub chain : Option Chain
  pub metadata : Option Json

pub data GraphEdgeType : Type 0 where
  spends confirmed_in forwards_to returns_to references : GraphEdgeType
  supports attributed_to possibly_related : GraphEdgeType

pub record GraphEdge : Type 0 where
  pub source : Text
  pub target : Text
  pub relationship : GraphEdgeType
  pub confidence : ProvenanceClassification

pub record IncidentGraph : Type 0 where
  pub nodes : List GraphNode
  pub edges : List GraphEdge

abbrev pub empty_graph : IncidentGraph
empty_graph = record { nodes = []; edges = [] }

-- `IncidentGraph::add_node`
unfoldable pub add_node : GraphNode → IncidentGraph → IncidentGraph
add_node node g =
    if any (λ (n : GraphNode). n.id == node.id) g.nodes
    then g
    else record g { nodes = g.nodes ++ node ∷ [] }

-- `IncidentGraph::add_edge`
unfoldable pub add_edge : GraphEdge → IncidentGraph → IncidentGraph
add_edge edge g = record g { edges = g.edges ++ edge ∷ [] }

-- The fields of `Incident` that its validation and its storage read.
pub record Incident : Type 0 where
  pub id : Uuid
  pub case_id : Text
  pub recovery : RecoverySummary
  pub on_chain_messages : List OnChainMessage
  pub timeline : List TimelineEntry
  pub evidence : List Evidence
  pub updates : List IncidentUpdate
  pub graph : IncidentGraph
