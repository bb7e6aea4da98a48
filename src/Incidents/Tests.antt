-- ===== src/Incidents/Tests.antt =====
-- The theorems on dossiers at concrete data.
use obschain.Prelude.{text_eq, text_beq, ◌↔◌, ◌≡◌, refl, none, some, [], ◌∷◌, codes, nat_eq}
use obschain.Core.Incident.{
  new_recovery, GraphNode, GraphEdge, address, spends, heuristic, bitcoin, OnChainMessage, Incident,
  unverified,
}
use obschain.Incidents.Validation.{
  ok, err, validation, validate_incident, check_order, check_unique, check_edges, check_messages,
  validate_fund_arithmetic,
}
use obschain.Incidents.Validation.Meaning.{ValidIncident, validate_incident_iff}

abbrev wallet : GraphNode
wallet = record {
  id = codes "a";
  label = codes "wallet";
  node_type = address;
  chain = some bitcoin;
  metadata = none;
}

abbrev to_wallet : GraphEdge
to_wallet = record {
  source = codes "a";
  target = codes "b";
  relationship = spends;
  confidence = heuristic;
}

abbrev message : OnChainMessage
message = record {
  txid = codes "aa";
  chain = bitcoin;
  encoding = codes "utf8";
  decoded_text = codes "hello";
  raw_hex = codes "68";
  confirmed_at = none;
  block_height = none;
  attributed_sender = some (codes "white hat");
  sender_attribution_confidence = unverified;
}

abbrev dossier : Incident
dossier = record {
  id = 1;
  case_id = codes "OBS-1";
  recovery = new_recovery 900 400 0;
  on_chain_messages = message ∷ [];
  timeline = [];
  evidence = [];
  updates = [];
  graph = record { nodes = wallet ∷ []; edges = [] };
}

dossier_is_accepted : validate_incident dossier ≡ ok
unfolding validate_incident validate_fund_arithmetic new_recovery check_order check_unique
    check_edges check_messages
dossier_is_accepted = refl

dangling_is_refused :
    validate_incident
      (record dossier { graph = record { nodes = wallet ∷ []; edges = to_wallet ∷ [] } })
    ≡ err validation
unfolding validate_incident validate_fund_arithmetic new_recovery check_order check_unique
    check_edges check_messages text_beq
dangling_is_refused = refl

validate_incident_iff_example : (validate_incident dossier ≡ ok) ↔ ValidIncident dossier
validate_incident_iff_example = validate_incident_iff dossier
