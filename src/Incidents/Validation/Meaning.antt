-- ===== src/Incidents/Validation/Meaning.antt =====
-- What the validation of a dossier accepts: `validate_incident` in
-- crates/obschain-incidents/src/validation.rs.
use obschain.Prelude.{
  ◌-◌, ◌≤◌, true, false, none, some, List, [], ◌∷◌, map, Text, text_eq, nat_eq, Eq, contains, All,
  arith, ◌≡◌, ◌↔◌, ◌⊎◌, refl,
}
use obschain.Core.External.{Uuid, DateTime}
use obschain.Core.Incident.{
  Evidence, is_cryptographically_verified, OnChainMessage, TimelineEntry, RecoverySummary,
  IncidentUpdate, GraphEdge, IncidentGraph, Incident,
}
use obschain.Incidents.Validation.{
  Checked, ok, err, ◌and_then◌, check_unique, check_edges, node_ids, validate_incident_graph,
  validate_fund_arithmetic, validate_sender_identity_claim, check_order, check_messages,
  validate_incident,
}

-- No element occurs twice.
module _ {A : Type 0} ⦃e : Eq A⦄ where
  abbrev pub Unique : List A → Type 0
  Unique [] = Unit
  Unique (k ∷ ks) = (contains k ks ≡ false) × Unique ks

-- No instant comes before one that stands in front of it.
abbrev pub Chronological : List DateTime → Type 0
Chronological [] = Unit
Chronological (t ∷ ts) = All (λ s. t ≤ s) ts × Chronological ts

abbrev pub Connects : List Text → GraphEdge → Type 0
Connects ids edge = (contains edge.source ids ≡ true) × (contains edge.target ids ≡ true)

-- A message with a sender does not call the sender verified on the chain.
abbrev pub Modest : OnChainMessage → Type 0
Modest msg =
    (msg.attributed_sender ≡ none)
    ⊎ (is_cryptographically_verified msg.sender_attribution_confidence ≡ false)

pub record ValidFunds (r : RecoverySummary) : Type 0 where
  pub within : r.recovered_sats ≤ r.affected_sats
  pub balanced : (r.is_estimate ≡ true) ⊎ (r.outstanding_sats ≡ r.affected_sats - r.recovered_sats)

pub record ValidIncident (i : Incident) : Type 0 where
  pub funds : ValidFunds i.recovery
  pub nodes : Unique (node_ids i.graph)
  pub edges : All (Connects (node_ids i.graph)) i.graph.edges
  pub timeline : Chronological (map (λ (e : TimelineEntry). e.timestamp) i.timeline)
  pub evidence : Unique (map (λ (e : Evidence). e.id) i.evidence)
  pub messages : All Modest i.on_chain_messages
  pub updates : Chronological (map (λ (u : IncidentUpdate). u.timestamp) i.updates)

module _ {A : Type 0} ⦃e : Eq A⦄ where
  abbrev Avoids : List A → List A → Type 0
  Avoids seen ks = All (λ k. contains k seen ≡ false) ks

  Avoids-cons :
      (k : A) (seen ks : List A) → Avoids (k ∷ seen) ks ↔ ((contains k ks ≡ false) × Avoids seen ks)
  Avoids-cons k seen [] = (λ h. (refl, tt), λ h. tt)
  Avoids-cons k seen (j ∷ ks) = ground (arith, Avoids-cons k seen ks, e.beq_iff k j, e.beq_iff j k)

  Avoids-nil : (ks : List A) → Avoids [] ks
  Avoids-nil [] = tt
  Avoids-nil (k ∷ ks) = (refl, Avoids-nil ks)

  check_unique_iff : (seen ks : List A) → (check_unique seen ks ≡ ok) ↔ (Unique ks × Avoids seen ks)
  unfolding check_unique
  check_unique_iff seen [] = (λ h. (tt, tt), λ h. refl)
  check_unique_iff seen (k ∷ ks) =
      ground (arith, check_unique_iff (k ∷ seen) ks, Avoids-cons k seen ks)

check_edges_iff :
    (ids : List Text) (edges : List GraphEdge)
    → (check_edges ids edges ≡ ok) ↔ All (Connects ids) edges
unfolding check_edges
check_edges_iff ids [] = (λ h. tt, λ h. refl)
check_edges_iff ids (edge ∷ edges) = ground (arith, check_edges_iff ids edges)

validate_fund_arithmetic_iff :
    (r : RecoverySummary) → (validate_fund_arithmetic r ≡ ok) ↔ ValidFunds r
unfolding validate_fund_arithmetic
validate_fund_arithmetic_iff r = ground arith

Later-le : (s t : DateTime) (ts : List DateTime) → s ≤ t → All (λ u. t ≤ u) ts → All (λ u. s ≤ u) ts
Later-le s t [] h k = tt
Later-le s t (u ∷ ts) h k = (omega (arith, h, k.0), Later-le s t ts h k.1)

check_order_iff :
    (prev : DateTime) (ts : List DateTime)
    → (check_order (some prev) ts ≡ ok) ↔ (All (λ s. prev ≤ s) ts × Chronological ts)
unfolding check_order
check_order_iff prev [] = (λ h. (tt, tt), λ h. refl)
check_order_iff prev (t ∷ ts) = ground (arith, check_order_iff t ts, Later-le prev t ts)

check_messages_iff : (msgs : List OnChainMessage) → (check_messages msgs ≡ ok) ↔ All Modest msgs
unfolding check_messages validate_sender_identity_claim
check_messages_iff [] = (λ h. tt, λ h. refl)
check_messages_iff (msg ∷ msgs) = ground (arith, check_messages_iff msgs)

check_order-Chronological : (ts : List DateTime) → (check_order none ts ≡ ok) ↔ Chronological ts
unfolding check_order
check_order-Chronological [] = (λ h. tt, λ h. refl)
check_order-Chronological (t ∷ ts) = check_order_iff t ts

check_unique-Unique : {A : Type 0} ⦃e : Eq A⦄ (ks : List A) → (check_unique [] ks ≡ ok) ↔ Unique ks
check_unique-Unique ks =
    (λ h. ((check_unique_iff [] ks).0 h).0, λ u. (check_unique_iff [] ks).1 (u, Avoids-nil ks))

both_ok : (a b : Checked) → ((a and_then b) ≡ ok) ↔ ((a ≡ ok) × (b ≡ ok))
both_ok ok b = (λ h. (refl, h), λ h. h.1)
both_ok (err e) b = (λ h. cc, λ h. cc)

validate_incident_graph_iff :
    (g : IncidentGraph)
    → (validate_incident_graph g ≡ ok) ↔ (Unique (node_ids g) × All (Connects (node_ids g)) g.edges)
unfolding validate_incident_graph
validate_incident_graph_iff g =
    let both = both_ok (check_unique [] (node_ids g)) (check_edges (node_ids g) g.edges) in
    let unique = check_unique-Unique (node_ids g) in
    let edges = check_edges_iff (node_ids g) g.edges in
    (λ h. let (p, q) = both.0 h in (unique.0 p, edges.0 q), λ h. both.1 (unique.1 h.0, edges.1 h.1))

-- A dossier is accepted exactly when it is consistent: no more was recovered than affected and the
-- outstanding amount is the difference (unless it is an estimate), graph nodes have distinct names and
-- edges join existing nodes, the timeline and the updates are in the order of time, evidence has
-- distinct identifiers, and no message with an attributed sender claims an on-chain identity.
pub validate_incident_iff : (i : Incident) → (validate_incident i ≡ ok) ↔ ValidIncident i
unfolding validate_incident
validate_incident_iff i = (forth, back)
  where
    times : List DateTime
    times = map (λ (e : TimelineEntry). e.timestamp) i.timeline

    updates : List DateTime
    updates = map (λ (u : IncidentUpdate). u.timestamp) i.updates

    ids : List Uuid
    ids = map (λ (e : Evidence). e.id) i.evidence

    forth : validate_incident i ≡ ok → ValidIncident i
    forth h =
        let (funds, h1) = (both_ok (validate_fund_arithmetic i.recovery) _).0 h in
        let (graph, h2) = (both_ok (validate_incident_graph i.graph) _).0 h1 in
        let (line, h3) = (both_ok (check_order none times) _).0 h2 in
        let (unique, h4) = (both_ok (check_unique [] ids) _).0 h3 in
        let (msgs, ups) = (both_ok (check_messages i.on_chain_messages) _).0 h4 in
        let (nodes, edges) = (validate_incident_graph_iff i.graph).0 graph in
        record {
          funds = (validate_fund_arithmetic_iff i.recovery).0 funds;
          nodes = nodes;
          edges = edges;
          timeline = (check_order-Chronological times).0 line;
          evidence = (check_unique-Unique ids).0 unique;
          messages = (check_messages_iff i.on_chain_messages).0 msgs;
          updates = (check_order-Chronological updates).0 ups;
        }

    back : ValidIncident i → validate_incident i ≡ ok
    back v =
        rw
          (
            (validate_fund_arithmetic_iff i.recovery).1 v.funds,
            (validate_incident_graph_iff i.graph).1 (v.nodes, v.edges),
            (check_order-Chronological times).1 v.timeline,
            (check_unique-Unique ids).1 v.evidence,
            (check_messages_iff i.on_chain_messages).1 v.messages,
            (check_order-Chronological updates).1 v.updates,
          )
          refl
