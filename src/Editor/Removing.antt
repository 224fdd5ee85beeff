-- ===== src/Editor/Removing.antt =====
-- Handlers that remove: `removeNode`, `removeSelectedNodes` and `removeEdge` of
-- web/src/pages/Flow.tsx.
use mc_gantry.Base.{
  Bool, true, false, ◌&&◌, not, List, [], ◌∷◌, Option, none, some, map, filter, is_empty,
  if◌then◌else◌, Text, text_eq,
}
use mc_gantry.Base.Map.{mem}
use mc_gantry.Flow.Types.{FlowNode, FlowEdge, FlowSpec, node_id}
use mc_gantry.Flow.Graph.{has_parent}
use mc_gantry.Flow.Fields.{with_parent}
use mc_gantry.Editor.State.{Editor, where_allowed, set_nodes, set_edges, changed, remove_id, is_id}
use mc_gantry.Editor.Nodes.{has_parent_among}

abbrev pub is_other : Text → FlowNode → Bool
is_other id node = not (text_eq (node_id node) id)

abbrev pub clear_parent : Text → FlowNode → FlowNode
clear_parent id node = if has_parent node id then with_parent none node else node

abbrev pub avoids : Text → FlowEdge → Bool
avoids id e = not (text_eq e.source id) && not (text_eq e.target id)

unfoldable pub without_node : Text → FlowSpec → FlowSpec
unfolding filter text_eq
without_node id spec =
    set_edges (filter (avoids id) spec.edges)
      (set_nodes (map (clear_parent id) (filter (is_other id) spec.nodes)) spec)

unfoldable pub remove_node : Text → Editor → Editor
unfolding without_node filter text_eq
remove_node id s = where_allowed s (record (changed (without_node id s.flow_spec) s) {
  selected_node_id = none;
  selected_node_ids = remove_id id s.selected_node_ids;
  selected_edge_id = none;
  connect_from_id = if is_id s.connect_from_id id then none else s.connect_from_id;
})

abbrev pub is_kept : List Text → FlowNode → Bool
is_kept ids node = not (mem (node_id node) ids)

abbrev pub clear_parent_among : List Text → FlowNode → FlowNode
clear_parent_among ids node = if has_parent_among ids node then with_parent none node else node

abbrev pub avoids_all : List Text → FlowEdge → Bool
avoids_all ids e = not (mem e.source ids) && not (mem e.target ids)

unfoldable pub without_nodes : List Text → FlowSpec → FlowSpec
unfolding filter mem has_parent_among
without_nodes ids spec =
    set_edges (filter (avoids_all ids) spec.edges)
      (set_nodes (map (clear_parent_among ids) (filter (is_kept ids) spec.nodes)) spec)

-- `connectFromId && ids.has(connectFromId)`
abbrev pub is_id_among : List Text → Option Text → Bool
is_id_among ids none = false
is_id_among ids (some []) = false
is_id_among ids (some (c ∷ id)) = mem (c ∷ id) ids

abbrev pub drop_selected_nodes : Editor → Editor
drop_selected_nodes s =
    let ids = s.selected_node_ids in
    if is_empty ids then s else record s {
      flow_spec = without_nodes ids s.flow_spec;
      selected_node_id = none;
      selected_node_ids = [];
      connect_from_id = if is_id_among ids s.connect_from_id then none else s.connect_from_id;
    }

abbrev pub is_other_edge : Text → FlowEdge → Bool
is_other_edge id e = not (text_eq e.id id)

abbrev pub without_edge : Text → FlowSpec → FlowSpec
without_edge id spec = set_edges (filter (is_other_edge id) spec.edges) spec

-- A state that holds no id, or the empty one.
abbrev pub is_absent : Option Text → Bool
is_absent none = true
is_absent (some []) = true
is_absent (some (c ∷ id)) = false

abbrev pub drop_selected_edge : Option Text → Editor → Editor
drop_selected_edge none s = s
drop_selected_edge (some []) s = s
drop_selected_edge (some (c ∷ id)) s = record s {
  flow_spec = without_edge (c ∷ id) s.flow_spec;
  selected_edge_id = none;
}

unfoldable pub remove_selected_nodes : Editor → Editor
unfolding without_nodes filter text_eq
remove_selected_nodes s =
    let dropped = drop_selected_edge s.selected_edge_id (drop_selected_nodes s) in
    where_allowed s (
      if is_empty s.selected_node_ids && is_absent s.selected_edge_id
      then s
      else record dropped { dirty = true; notice = [] })

unfoldable pub remove_edge : Text → Editor → Editor
unfolding filter text_eq
remove_edge id s =
    where_allowed s (record (changed (without_edge id s.flow_spec) s) { selected_edge_id = none })
