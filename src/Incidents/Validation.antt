-- ===== src/Incidents/Validation.antt =====
-- crates/obschain-incidents/src/validation.rs: what an incident dossier has to satisfy. The texts that
-- errors carry are not modelled.
pub mod Meaning
pub mod Graph
use obschain.Prelude.{
  ◌-◌, Bool, true, not, ◌&&◌, Option, none, some, List, [], ◌∷◌, map, Text, text_eq, nat_eq,
  contains, ltb, Eq, ◌==◌, if◌then◌else◌,
}
use obschain.Core.External.{DateTime}
use obschain.Core.Incident.{
  Evidence, ProvenanceClassification, is_cryptographically_verified,
  allows_definitive_ownership_claim, OnChainMessage, TimelineEntry, RecoverySummary, IncidentUpdate,
  GraphNode, GraphEdge, IncidentGraph, Incident,
}

-- the errors of `CoreError` that the validation returns
pub data CoreError : Type 0 where
  validation provenance_violation : CoreError

-- `Result<(), CoreError>`
pub data Checked : Type 0 where
  ok : Checked
  err : CoreError → Checked

infixr 40 ◌and_then◌
abbrev pub ◌and_then◌ : Checked → Checked → Checked
ok and_then rest = rest
err e and_then rest = err e

unfoldable pub validate_evidence_claim : Evidence → Bool → Checked
validate_evidence_claim evidence is_definitive =
    if is_definitive && not (allows_definitive_ownership_claim evidence.confidence)
    then err provenance_violation
    else ok

unfoldable pub require_on_chain_backing : ProvenanceClassification → Checked
require_on_chain_backing c =
    if not (is_cryptographically_verified c) then err provenance_violation else ok

unfoldable pub validate_sender_identity_claim : Bool → ProvenanceClassification → Checked
validate_sender_identity_claim is_self_attributed c =
    if is_self_attributed && is_cryptographically_verified c then err provenance_violation else ok

-- The loop over the nodes and over the evidence: a key that was inserted before is an error.
module _ {A : Type 0} ⦃e : Eq A⦄ where
  unfoldable pub check_unique : List A → List A → Checked
  check_unique seen [] = ok
  check_unique seen (k ∷ ks) =
      if contains k seen then err validation else check_unique (k ∷ seen) ks

unfoldable pub check_edges : List Text → List GraphEdge → Checked
check_edges ids [] = ok
check_edges ids (edge ∷ edges) =
    if not (contains edge.source ids)
    then err validation
    else if not (contains edge.target ids)
    then err validation
    else check_edges ids edges

abbrev pub node_ids : IncidentGraph → List Text
node_ids g = map (λ (n : GraphNode). n.id) g.nodes

unfoldable pub validate_incident_graph : IncidentGraph → Checked
unfolding check_unique check_edges
validate_incident_graph g = check_unique [] (node_ids g) and_then check_edges (node_ids g) g.edges

unfoldable pub validate_fund_arithmetic : RecoverySummary → Checked
validate_fund_arithmetic r =
    if ltb r.affected_sats r.recovered_sats
    then err validation
    else if not r.is_estimate && not (r.outstanding_sats == r.affected_sats - r.recovered_sats)
    then err validation
    else ok

-- The loops over the timeline and over the updates, with the instant before.
unfoldable pub check_order : Option DateTime → List DateTime → Checked
check_order prev [] = ok
check_order none (t ∷ ts) = check_order (some t) ts
check_order (some prev) (t ∷ ts) = if ltb t prev then err validation else check_order (some t) ts

unfoldable pub check_messages : List OnChainMessage → Checked
unfolding validate_sender_identity_claim
check_messages [] = ok
check_messages (msg ∷ msgs) = elim msg.attributed_sender [
  | none ↦ check_messages msgs
  | some sender ↦
      validate_sender_identity_claim true msg.sender_attribution_confidence
      and_then check_messages msgs
]

unfoldable pub validate_incident : Incident → Checked
unfolding validate_fund_arithmetic validate_incident_graph check_order check_unique check_messages
validate_incident i =
    validate_fund_arithmetic i.recovery
    and_then validate_incident_graph i.graph
    and_then check_order none (map (λ (e : TimelineEntry). e.timestamp) i.timeline)
    and_then check_unique [] (map (λ (e : Evidence). e.id) i.evidence)
    and_then check_messages i.on_chain_messages
    and_then check_order none (map (λ (u : IncidentUpdate). u.timestamp) i.updates)
