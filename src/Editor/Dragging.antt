-- ===== src/Editor/Dragging.antt =====
-- Dragging and resizing with the pointer: the handlers of `mousedown` on a node and on its handles
-- (`startNodeResize`), and `handleMove` and `handleUp` of the two effects of web/src/pages/Flow.tsx. What
-- depends on the pointer is an input: where `getAlignmentPosition` puts the dragged node, with its
-- guides, and how far the pointer moved. `snap` is `snapVal`.
use mc_gantry.Base.{
  Bool, true, false, ◌&&◌, not, List, [], ◌∷◌, Option, none, some, map, if◌then◌else◌, Text,
  text_eq,
}
use mc_gantry.Base.Int.{ℤ, pos, ◌-ℤ◌}
use mc_gantry.Base.Map.{get, mem}
use mc_gantry.Flow.Types.{FlowNode, FlowSpec, Position, node_id, node_position}
use mc_gantry.Flow.Graph.{absolute_in, node_map_of, parent_key}
use mc_gantry.Flow.Dimensions.{Size}
use mc_gantry.Flow.Fields.{with_position, node_locked}
use mc_gantry.Editor.State.{
  Editor, view, edit, Guides, no_guides, Dragging, ResizeHandle, set_nodes,
}
use mc_gantry.Editor.Nodes.{has_parent_among, moved_by}
use mc_gantry.Editor.Nesting.{end_drag}
use mc_gantry.Editor.Resize.{resize_move}

-- `!readOnly && flowSettings.canEdit`; the canvas is `readOnly` in the viewing mode.
abbrev pub in_editor : Editor → Bool
in_editor s = elim s.mode [ view ↦ false | edit ↦ s.can_edit ]

-- The pointer goes down on a node.
unfoldable pub start_drag : Bool → FlowNode → Editor → Editor
unfolding mem
start_drag shift node s =
    if in_editor s && not (node_locked node)
    then record s {
      alignment_guides = no_guides;
      dragging = some (record {
        dragged_id = node_id node;
        dragged_ids =
            if mem (node_id node) s.selected_node_ids && not shift
            then s.selected_node_ids
            else node_id node ∷ [];
      });
    }
    else s

-- Where the dragged node goes, in its parent.
unfoldable pub next_position : (ℤ → ℤ) → List (Text × FlowNode) → Position → FlowNode → Position
unfolding get absolute_in
next_position snap node_map aligned primary_node = elim (parent_key primary_node) [
  | none ↦ aligned
  | some parent_id ↦ elim (get parent_id node_map) [
    | none ↦ aligned
    | some parent ↦
        let parent_abs = absolute_in node_map parent in
        record { x = snap (aligned.x -ℤ parent_abs.x); y = snap (aligned.y -ℤ parent_abs.y) }
  ]
]

-- A node that is dragged along keeps its place in a parent that is dragged as well.
unfoldable pub drag_node : Dragging → FlowNode → Position → FlowNode → FlowNode
unfolding mem text_eq has_parent_among
drag_node drag primary_node next node =
    let dx = next.x -ℤ (node_position primary_node).x in
    let dy = next.y -ℤ (node_position primary_node).y in
    if not (mem (node_id node) drag.dragged_ids)
    then node
    else if text_eq (node_id node) drag.dragged_id
    then (if has_parent_among drag.dragged_ids primary_node
        then moved_by dx dy node
        else with_position next node)
    else if has_parent_among drag.dragged_ids node
    then node
    else moved_by dx dy node

unfoldable pub dragged_nodes : (ℤ → ℤ) → Position → Dragging → FlowSpec → FlowSpec
unfolding get node_map_of next_position drag_node
dragged_nodes snap aligned drag spec =
    let node_map = node_map_of spec.nodes in
    elim (get drag.dragged_id node_map) [
      | none ↦ spec
      | some primary_node ↦
          let next = next_position snap node_map aligned primary_node in
          set_nodes (map (drag_node drag primary_node next) spec.nodes) spec
    ]

-- The pointer moves while a node is dragged.
unfoldable pub drag_move : (ℤ → ℤ) → Position → Guides → Editor → Editor
unfolding dragged_nodes
drag_move snap aligned guides s = elim s.dragging [
  | none ↦ s
  | some drag ↦ record s {
    flow_spec = dragged_nodes snap aligned drag s.flow_spec;
    alignment_guides = guides;
    dirty = true;
  }
]

-- The pointer goes up, over the node `nestTargetRef.current`.
unfoldable pub release : Option Text → Editor → Editor
unfolding end_drag
release pending_nest s = elim s.dragging [
  | none ↦ s
  | some drag ↦ end_drag drag.dragged_id pending_nest s
]

-- The pointer goes down on one of the handles of a node, which is shown in a certain size.
unfoldable pub start_node_resize : ResizeHandle → Size → FlowNode → Editor → Editor
start_node_resize handle size node s =
    if in_editor s && not (node_locked node)
    then record s {
      selected_node_id = some (node_id node);
      selected_node_ids = node_id node ∷ [];
      selected_edge_id = none;
      resizing = some (record {
        resized_id = node_id node;
        handle = handle;
        start_horizontal = record { start = (node_position node).x; size = pos size.width };
        start_vertical = record { start = (node_position node).y; size = pos size.height };
      });
    }
    else s

-- The pointer moves and goes up while a node is resized.
unfoldable pub drag_handle : (ℤ → ℤ) → (FlowNode → Size) → ℤ → ℤ → Editor → Editor
unfolding resize_move
drag_handle half size_of dx dy s = elim s.resizing [
  | none ↦ s
  | some r ↦
      resize_move half size_of r.resized_id r.handle dx dy r.start_horizontal r.start_vertical s
]

abbrev pub end_resize : Editor → Editor
end_resize s = elim s.resizing [
  | none ↦ s
  | some r ↦ record s { alignment_guides = no_guides; resizing = none }
]
