-- ===== src/Editor/Nesting.antt =====
-- Handlers that change what lies in what: `unnestSelected`, `unnestAllChildren` and the end of a drag
-- (`handleUp`) of web/src/pages/Flow.tsx.
use mc_gantry.Base.{
  Bool, true, false, ◌||◌, ◌&&◌, List, [], ◌∷◌, Option, none, some, map, if◌then◌else◌, Text,
  text_eq,
}
use mc_gantry.Base.Int.{◌-ℤ◌}
use mc_gantry.Base.Map.{get, mem}
use mc_gantry.Flow.Types.{FlowNode, FlowSpec, Position, node_id}
use mc_gantry.Flow.Graph.{absolute_in, node_map_of, parent_key, collect_descendants, has_parent}
use mc_gantry.Flow.Fields.{with_position, with_parent}
use mc_gantry.Editor.State.{Editor, no_guides, where_allowed, where_selected, set_nodes, touched}

abbrev pub lift_out : List (Text × FlowNode) → FlowNode → FlowNode
lift_out node_map node = with_parent none (with_position (absolute_in node_map node) node)

abbrev pub has_parent_key : FlowNode → Bool
has_parent_key node = elim (parent_key node) [ none ↦ false | some k ↦ true ]

abbrev pub unnest_node : List Text → List (Text × FlowNode) → FlowNode → FlowNode
unnest_node ids node_map node =
    if mem (node_id node) ids && has_parent_key node then lift_out node_map node else node

unfoldable pub unnest_selected : Editor → Editor
unfolding mem absolute_in node_map_of
unnest_selected s =
    let nodes = s.flow_spec.nodes in
    where_selected s (
      touched
        (set_nodes (map (unnest_node s.selected_node_ids (node_map_of nodes)) nodes) s.flow_spec) s)

abbrev pub free_child : Text → List (Text × FlowNode) → FlowNode → FlowNode
free_child parent_id node_map node =
    if has_parent node parent_id then lift_out node_map node else node

unfoldable pub unnest_all_children : Text → Editor → Editor
unfolding text_eq absolute_in node_map_of
unnest_all_children parent_id s =
    let nodes = s.flow_spec.nodes in
    where_allowed s
      (touched (set_nodes (map (free_child parent_id (node_map_of nodes)) nodes) s.flow_spec) s)

-- `descendants.has(targetId)`; the search always ends, so that the second case is none.
unfoldable pub is_descendant : List FlowNode → Text → Text → Bool
unfolding collect_descendants mem
is_descendant nodes root id = elim (collect_descendants nodes root) [
  | some descendants ↦ mem id descendants
  | none ↦ false
]

abbrev pub relative_to : Position → Position → Position
relative_to target p = record { x = p.x -ℤ target.x; y = p.y -ℤ target.y }

abbrev pub put_into : Text → Position → Text → FlowNode → FlowNode
put_into id position target_id node =
    if text_eq (node_id node) id
    then with_parent (some target_id) (with_position position node)
    else node

-- The flow after a node was dropped on another.
unfoldable pub nested : Text → Text → FlowSpec → FlowSpec
unfolding get text_eq node_map_of absolute_in is_descendant
nested id target_id spec =
    let node_map = node_map_of spec.nodes in
    elim (get id node_map) [
      | none ↦ spec
      | some primary_node ↦ elim (get target_id node_map) [
        | none ↦ spec
        | some target_node ↦
            let position =
              relative_to (absolute_in node_map target_node) (absolute_in node_map primary_node) in
            if text_eq target_id (node_id primary_node)
              || is_descendant spec.nodes (node_id primary_node) target_id
            then spec
            else set_nodes (map (put_into id position target_id) spec.nodes) spec
      ]
    ]

abbrev pub drop_on : Text → Option Text → Editor → Editor
drop_on id none s = s
drop_on id (some []) s = s
drop_on id (some (c ∷ target)) s = touched (nested id (c ∷ target) s.flow_spec) s

-- The end of the drag of a node, with `nestTargetRef.current`.
unfoldable pub end_drag : Text → Option Text → Editor → Editor
unfolding nested
end_drag id pending_nest s = record (drop_on id pending_nest s) {
  nest_target = none;
  alignment_guides = no_guides;
  dragging = none;
}
