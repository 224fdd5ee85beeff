-- ===== src/Editor/Actions.antt =====
-- What a user can do to a flow in the editor of web/src/pages/Flow.tsx, and a run of such actions. A
-- node that is clicked, or whose panel is open, is one of the flow.
use mc_gantry.Base.{
  ℕ, Bool, true, false, is_empty, List, [], ◌∷◌, Option, none, some, if◌then◌else◌, Text, text_eq,
}
use mc_gantry.Base.Int.{ℤ, pos, ◌-ℤ◌}
use mc_gantry.Base.Map.{mem}
use mc_gantry.Utils.Json.{Json}
use mc_gantry.Flow.Types.{FlowNode, Position, node_id}
use mc_gantry.Flow.Copies.Clones.{ids_of}
use mc_gantry.Editor.State.{Editor, view, edit, Entity, Guides, ResizeHandle, is_id, find, touched}
use mc_gantry.Editor.Nodes
use mc_gantry.Editor.Nodes.{
  Delta, nudge_selected_nodes, toggle_lock_selected, adjust_z_index, update_node,
}
use mc_gantry.Editor.Nesting.{unnest_selected, unnest_all_children}
use mc_gantry.Editor.Dragging.{
  start_drag, drag_move, release, start_node_resize, drag_handle, end_resize,
}
use mc_gantry.Flow.Dimensions.{Size}
use mc_gantry.Flow.Arrange.Rows.{auto_arrange_nodes}
use mc_gantry.Editor.Adding.{Template, add_entity_node, add_mock_node, duplicate_selected_nodes}
use mc_gantry.Editor.Removing.{remove_node, remove_selected_nodes, remove_edge}
use mc_gantry.Editor.Edges
use mc_gantry.Editor.Edges.{update_edge, click_node, seed_edges_from_relationships}

pub data Action : Type 0 where
  nudge : Bool → ℤ → ℤ → Action
  toggle_lock unnest duplicate remove_selected connect_from escape click_canvas : Action
  arrange let_go : Action
  adjust : Delta → Action
  change_node : Text → Nodes.Patch → Action
  change_edge : Text → Edges.Patch → Action
  free_children remove remove_edge_of select_edge : Text → Action
  press : Bool → Text → Action
  drag_to : (ℤ → ℤ) → Position → Guides → Action
  drag_end : Option Text → Action
  press_handle : ResizeHandle → Text → Action
  drag_handle_by : ℤ → ℤ → Action
  add_entity : Entity → Action
  add_mock : Template → Action
  click : Bool → Text → Action
  seed : List Entity → Action

-- The panel's button: from the selected node, if it is there.
unfoldable pub toggle_connect : Editor → Editor
unfolding find text_eq
toggle_connect s = elim (find (λ node. is_id s.selected_node_id (node_id node)) s.flow_spec.nodes) [
  | none ↦ s
  | some node ↦ record s {
    connect_from_id = if is_id s.connect_from_id (node_id node) then none else some (node_id node);
  }
]

-- A click beside all nodes, and the key Escape, which also ends a connection.
abbrev pub clear_selection : Editor → Editor
clear_selection s = record s {
  selected_node_id = none;
  selected_node_ids = [];
  selected_edge_id = none;
}

abbrev pub press_escape : Editor → Editor
press_escape s = record (clear_selection s) { connect_from_id = none }

-- The keys that `handleKeyDown` tells apart.
pub data Key : Type 0 where
  escape_key arrow_left arrow_right arrow_up arrow_down delete_key other_key : Key

-- `ARROW_NUDGE_LARGE_STEP` and `ARROW_NUDGE_STEP`
abbrev pub nudge_step : Bool → ℕ
nudge_step shift = if shift then 10 else 1

-- An arrow key moves what is selected, if anything is.
abbrev pub arrow : Bool → ℤ → ℤ → Editor → List Action
arrow at_once dx dy s = if is_empty s.selected_node_ids then [] else nudge at_once dx dy ∷ []

-- What a key does in the editing mode; `in_field` tells whether it was pressed in an input
-- field, and `at_once` whether React then runs the update of a nudge at once.
unfoldable pub key_actions : Bool → Bool → Bool → Key → Editor → List Action
key_actions at_once true shift k s = []
key_actions at_once false shift escape_key s = escape ∷ []
key_actions at_once false shift arrow_left s =
    arrow at_once (pos 0 -ℤ pos (nudge_step shift)) (pos 0) s
key_actions at_once false shift arrow_right s = arrow at_once (pos (nudge_step shift)) (pos 0) s
key_actions at_once false shift arrow_up s =
    arrow at_once (pos 0) (pos 0 -ℤ pos (nudge_step shift)) s
key_actions at_once false shift arrow_down s = arrow at_once (pos 0) (pos (nudge_step shift)) s
key_actions at_once false shift delete_key s = remove_selected ∷ []
key_actions at_once false shift other_key s = []

-- The node with an id that is drawn.
abbrev pub drawn : Text → Editor → Option FlowNode
drawn id s = find (λ node. text_eq (node_id node) id) s.flow_spec.nodes

-- The button `Auto-arrange`, which is not there where the canvas is `readOnly`.
unfoldable pub press_arrange : (ℤ → ℤ) → Editor → Editor
unfolding auto_arrange_nodes
press_arrange half s = elim s.mode [
  | view ↦ s
  | edit ↦ touched (auto_arrange_nodes half s.flow_spec) s
]

unfoldable pub press_node : Bool → Text → Editor → Editor
unfolding find text_eq start_drag
press_node shift id s = elim (drawn id s) [ none ↦ s | some node ↦ start_drag shift node s ]

unfoldable pub press_handle_of : (FlowNode → Size) → ResizeHandle → Text → Editor → Editor
unfolding find text_eq start_node_resize
press_handle_of size_of handle id s = elim (drawn id s) [
  | none ↦ s
  | some node ↦ start_node_resize handle (size_of node) node s
]

-- `half` is the division by two, and `size_of` is `getRenderedNodeDimensions`.
module _ (uuid : ℕ → Text) (to_string : Json → Text) (half : ℤ → ℤ)
    (size_of : FlowNode → Size) where
  unfoldable pub act : Action → Editor → Editor
  unfolding mem
  act (nudge at_once dx dy) s = nudge_selected_nodes at_once dx dy s
  act toggle_lock s = toggle_lock_selected s
  act unnest s = unnest_selected s
  act duplicate s = duplicate_selected_nodes uuid s
  act remove_selected s = remove_selected_nodes s
  act connect_from s = toggle_connect s
  act escape s = press_escape s
  act click_canvas s = clear_selection s
  act (adjust delta) s = adjust_z_index delta s
  act (change_node id patch) s = update_node id patch s
  act (change_edge id patch) s = update_edge id patch s
  act (free_children id) s = unnest_all_children id s
  act (remove id) s = remove_node id s
  act (remove_edge_of id) s = remove_edge id s
  act (select_edge id) s = record s {
    selected_edge_id = some id;
    selected_node_id = none;
    selected_node_ids = [];
  }
  act arrange s = press_arrange half s
  act (press shift id) s = press_node shift id s
  act (drag_to snap aligned guides) s = drag_move snap aligned guides s
  act (drag_end pending_nest) s = release pending_nest s
  act (press_handle handle id) s = press_handle_of size_of handle id s
  act (drag_handle_by dx dy) s = drag_handle half size_of dx dy s
  act let_go s = end_resize s
  act (add_entity e) s = add_entity_node uuid e s
  act (add_mock template) s = add_mock_node uuid template s
  act (click shift id) s = if mem id (ids_of s.flow_spec) then click_node uuid shift id s else s
  act (seed available) s = seed_edges_from_relationships uuid to_string available s

  unfoldable pub run : List Action → Editor → Editor
  run [] s = s
  run (a ∷ actions) s = run actions (act a s)

  -- The effect listens only in the editing mode.
  unfoldable pub handle_key_down : Bool → Bool → Bool → Key → Editor → Editor
  unfolding key_actions run
  handle_key_down at_once in_field shift k s = elim s.mode [
    | view ↦ s
    | edit ↦ run (key_actions at_once in_field shift k s) s
  ]
