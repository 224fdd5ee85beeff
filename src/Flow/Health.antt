-- ===== src/Flow/Health.antt =====
-- Keys of entities and the health of an edge: web/src/lib/flow.tsx. A status is
-- `true`, `false` or `null` in the source, and a missing one is `undefined`.
mod Tests
use mc_gantry.Base.{
  ◌≡◌, refl, ◌≢◌, ◌↔◌, ◌⊎◌, inl, inr, Bool, true, false, ◌||◌, List, [], ◌∷◌, ◌++◌, Option, none,
  some, arith, if◌then◌else◌, Text, codes, or_text, any, Option-cases,
}
use mc_gantry.Base.Map.{get}
use mc_gantry.Flow.Types.{FlowEntityRef, FlowNode, entity, mock, FlowEdge}

pub data Status : Type 0 where
  healthy unhealthy unknown : Status

-- `namespace || 'default'`
abbrev pub namespace_or_default : Option Text → Text
namespace_or_default none = codes "default"
namespace_or_default (some namespace) = or_text namespace (codes "default")

unfoldable pub flow_entity_ref_key : FlowEntityRef → Text
flow_entity_ref_key r =
    r.kind ++ (codes ":" ++ (namespace_or_default r.namespace ++ (codes ":" ++ r.name)))

unfoldable pub node_entity_key : FlowNode → Text
unfolding flow_entity_ref_key
node_entity_key (mock n) = []
node_entity_key (entity n) = flow_entity_ref_key n.entity_ref

abbrev is_status : Status → Option Status → Bool
is_status healthy (some healthy) = true
is_status unhealthy (some unhealthy) = true
is_status unknown (some unknown) = true
is_status s o = false

-- The more telling of two statuses, with `undefined` below all.
unfoldable pub worse : Option Status → Option Status → Option Status
worse (some unhealthy) b = some unhealthy
worse (some healthy) (some unhealthy) = some unhealthy
worse (some healthy) b = some healthy
worse (some unknown) none = some unknown
worse (some unknown) (some s) = some s
worse none b = b

module _ (node_map : List (Text × FlowNode)) (health_statuses : List (Text × Status)) where
  -- The statuses of those of the named nodes that are there and are entities.
  connected_statuses : List Text → List (Option Status)
  unfolding get node_entity_key
  connected_statuses [] = []
  connected_statuses (id ∷ ids) = elim (get id node_map) [
    | none ↦ connected_statuses ids
    | some (mock n) ↦ connected_statuses ids
    | some (entity n) ↦ get (node_entity_key (entity n)) health_statuses ∷ connected_statuses ids
  ]

  unfoldable pub connected_edge_health : FlowEdge → Option Status
  unfolding connected_statuses any
  connected_edge_health edge =
      let statuses = connected_statuses (edge.source ∷ edge.target ∷ []) in
      if any (is_status unhealthy) statuses
      then some unhealthy
      else if any (is_status healthy) statuses
      then some healthy
      else if any (is_status unknown) statuses
      then some unknown
      else none

  -- The status that an end of an edge has for itself.
  pub end_status : Text → Option Status
  end_status id = elim (get id node_map) [
    | none ↦ none
    | some (mock n) ↦ none
    | some (entity n) ↦ get (node_entity_key (entity n)) health_statuses
  ]

  -- The health of an edge is the more telling of those of its two ends: unhealthy before healthy
  -- before unknown before none, where a missing node and a mock node have none.
  pub connected_edge_health-eq-worse :
      (edge : FlowEdge)
      → connected_edge_health edge ≡ worse (end_status edge.source) (end_status edge.target)
  unfolding connected_edge_health worse end_status
  connected_edge_health-eq-worse edge = ground arith
