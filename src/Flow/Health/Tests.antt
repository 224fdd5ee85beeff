-- ===== src/Flow/Health/Tests.antt =====
-- The health of an edge at a concrete flow.
use mc_gantry.Base.{◌≡◌, refl, List, [], ◌∷◌, none, some, Text, codes, true, text_eq}
use mc_gantry.Base.Int.{pos}
use mc_gantry.Flow.Types.{FlowNode, entity, FlowEdge, one_way}
use mc_gantry.Flow.Health.{
  Status, healthy, unhealthy, connected_edge_health, end_status, worse,
  connected_edge_health-eq-worse,
}

abbrev service : Text → FlowNode
service name = entity (record {
  id = name;
  entity_ref = record { kind = codes "Service"; name = name; namespace = some [] };
  shape = none;
  width = none;
  height = none;
  position = record { x = pos 0; y = pos 0 };
  locked = none;
  z_index = none;
  parent_id = none;
  badge = none;
})

abbrev node_map : List (Text × FlowNode)
node_map = (codes "a", service (codes "a")) ∷ (codes "b", service (codes "b")) ∷ []

abbrev statuses : List (Text × Status)
statuses = (codes "Service:default:a", healthy) ∷ (codes "Service:default:b", unhealthy) ∷ []

abbrev edge : FlowEdge
edge = record {
  id = codes "e";
  source = codes "a";
  target = codes "b";
  relation = codes "calls";
  direction = one_way;
  label = none;
  animated = true;
  source_handle = none;
  target_handle = none;
}

health_test : connected_edge_health node_map statuses edge ≡ some unhealthy
unfolding connected_edge_health text_eq
health_test = refl

connected_edge_health-eq-worse_example :
    connected_edge_health node_map statuses edge
    ≡ worse (end_status node_map statuses edge.source) (end_status node_map statuses edge.target)
connected_edge_health-eq-worse_example = connected_edge_health-eq-worse node_map statuses edge
