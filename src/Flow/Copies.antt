-- ===== src/Flow/Copies.antt =====
-- Duplicates of flows: `nextDuplicateFlowName` and `cloneFlowSpecWithNewIDs` of
-- web/src/pages/Flow.tsx. The names that exist are a list of which only membership is used, and the
-- `while` loop takes fuel; `uuid i` is what the call number `i` of `crypto.randomUUID` returns.
pub mod Names
pub mod Clones
mod Tests
use mc_gantry.Base.{
  ℕ, zero, suc, ◌+◌, Bool, true, false, ◌&&◌, List, [], ◌∷◌, ◌++◌, map, Option, none, some, length,
  filter, if◌then◌else◌, Text, codes, or_text,
}
use mc_gantry.Base.Map.{get, set, has, mem}
use mc_gantry.Export.Bytes.{decimal}
use mc_gantry.Export.FileName.{sanitize_flow_name}
use mc_gantry.Flow.Types.{FlowNode, entity, mock, FlowEdge, FlowSpec, node_id}
use mc_gantry.Flow.Graph.{parent_key}

abbrev pub numbered : Text → ℕ → Text
numbered copy_base counter = copy_base ++ (codes "-" ++ decimal counter)

-- The `while` loop.
pub first_free : List Text → Text → ℕ → ℕ → Option Text
unfolding mem decimal
first_free existing_names copy_base zero counter = none
first_free existing_names copy_base (suc fuel) counter =
    let rest = first_free existing_names copy_base fuel (suc counter) in
    if mem (numbered copy_base counter) existing_names
    then rest
    else some (numbered copy_base counter)

abbrev pub copy_base_of : (Text → Text) → Text → Text
copy_base_of to_lower base_name =
    or_text (sanitize_flow_name to_lower base_name) (codes "flow") ++ codes "-copy"

unfoldable pub next_duplicate_flow_name : (Text → Text) → Text → List Text → Option Text
unfolding first_free mem sanitize_flow_name
next_duplicate_flow_name to_lower base_name existing_names =
    let copy_base = copy_base_of to_lower base_name in
    if mem copy_base existing_names
    then first_free existing_names copy_base (suc (length existing_names)) 2
    else some copy_base

-- `m.get(k)!`: the source says that the key is there; `[]` stands for `undefined`.
abbrev pub get_text : Text → List (Text × Text) → Text
get_text k m = elim (get k m) [ none ↦ [] | some v ↦ v ]

abbrev pub parent_in : List (Text × Text) → FlowNode → Option Text
parent_in node_ids node = elim (parent_key node) [ none ↦ none | some k ↦ get k node_ids ]

abbrev pub clone_node : List (Text × Text) → FlowNode → FlowNode
clone_node node_ids (entity n) = entity (record {
  id = get_text n.id node_ids;
  entity_ref = n.entity_ref;
  shape = n.shape;
  width = n.width;
  height = n.height;
  position = n.position;
  locked = n.locked;
  z_index = n.z_index;
  parent_id = parent_in node_ids (entity n);
  badge = n.badge;
})
clone_node node_ids (mock n) = mock (record {
  id = get_text n.id node_ids;
  label = n.label;
  subtitle = n.subtitle;
  shape = n.shape;
  color = n.color;
  width = n.width;
  height = n.height;
  position = n.position;
  locked = n.locked;
  z_index = n.z_index;
  parent_id = parent_in node_ids (mock n);
  badge = n.badge;
})

abbrev pub has_both_ends : List (Text × Text) → FlowEdge → Bool
has_both_ends node_ids e = has e.source node_ids && has e.target node_ids

module _ (uuid : ℕ → Text) where
  -- `nodeIDMap`, from the call number `i` on.
  unfoldable pub add_node_ids : ℕ → List FlowNode → List (Text × Text) → List (Text × Text)
  unfolding set
  add_node_ids i [] m = m
  add_node_ids i (node ∷ nodes) m = add_node_ids (suc i) nodes (set (node_id node) (uuid i) m)

  abbrev pub clone_edge : List (Text × Text) → ℕ → FlowEdge → FlowEdge
  clone_edge node_ids i e = record {
    id = uuid i;
    source = get_text e.source node_ids;
    target = get_text e.target node_ids;
    relation = e.relation;
    direction = e.direction;
    label = e.label;
    animated = e.animated;
    source_handle = e.source_handle;
    target_handle = e.target_handle;
  }

  unfoldable pub clone_edges : List (Text × Text) → ℕ → List FlowEdge → List FlowEdge
  unfolding get
  clone_edges node_ids i [] = []
  clone_edges node_ids i (e ∷ edges) = clone_edge node_ids i e ∷ clone_edges node_ids (suc i) edges

  unfoldable pub clone_flow_spec_with_new_ids : FlowSpec → FlowSpec
  unfolding add_node_ids clone_edges filter get
  clone_flow_spec_with_new_ids spec =
      let node_ids = add_node_ids 0 spec.nodes [] in
      record {
        viewport = spec.viewport;
        nodes = map (clone_node node_ids) spec.nodes;
        edges =
            clone_edges node_ids (length spec.nodes) (filter (has_both_ends node_ids) spec.edges);
      }
