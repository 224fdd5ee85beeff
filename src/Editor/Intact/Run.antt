-- ===== src/Editor/Intact/Run.antt =====
-- No action in the editor of web/src/pages/Flow.tsx leaves a reference to a node that is not there.
use mc_gantry.Base.{ℕ, inl, inr, List, [], ◌∷◌, Bool-cases, Text}
use mc_gantry.Base.Map.{mem}
use mc_gantry.Utils.Json.{Json}
use mc_gantry.Flow.Graph.Scan.{mem_iff}
use mc_gantry.Base.Int.{ℤ}
use mc_gantry.Flow.Types.{FlowNode}
use mc_gantry.Flow.Dimensions.{Size}
use mc_gantry.Flow.Copies.Clones.{ids_of}
use mc_gantry.Editor.State.{Editor}
use mc_gantry.Editor.Actions.{
  Action, nudge, toggle_lock, unnest, duplicate, remove_selected, connect_from, escape,
  click_canvas, adjust, change_node, change_edge, free_children, remove, remove_edge_of,
  select_edge, arrange, press, drag_to, drag_end, press_handle, drag_handle_by, let_go, add_entity,
  add_mock, click, seed, act, run,
}
use mc_gantry.Editor.Intact.{
  IsIntact, nudge_selected_nodes-IsIntact, toggle_lock_selected-IsIntact, adjust_z_index-IsIntact,
  update_node-IsIntact, unnest_selected-IsIntact, unnest_all_children-IsIntact,
}
use mc_gantry.Editor.Intact.Dragged.{
  press_arrange-IsIntact, press_node-IsIntact, drag_move-IsIntact, release-IsIntact,
  press_handle_of-IsIntact, drag_handle-IsIntact, end_resize-IsIntact,
}
use mc_gantry.Editor.Intact.Added.{
  add_entity_node-IsIntact, add_mock_node-IsIntact, duplicate_selected_nodes-IsIntact,
}
use mc_gantry.Editor.Intact.Removed.{
  remove_node-IsIntact, remove_edge-IsIntact, remove_selected_nodes-IsIntact,
}
use mc_gantry.Editor.Intact.Linked.{
  update_edge-IsIntact, toggle_connect-IsIntact, click_node-IsIntact,
  seed_edges_from_relationships-IsIntact,
}

module _ (uuid : ℕ → Text) (to_string : Json → Text) (half : ℤ → ℤ)
    (size_of : FlowNode → Size) where
  act-IsIntact :
      (a : Action) (s : Editor) → IsIntact s → IsIntact (act uuid to_string half size_of a s)
  unfolding act
  act-IsIntact (nudge at_once dx dy) s i = nudge_selected_nodes-IsIntact s i at_once dx dy
  act-IsIntact toggle_lock s i = toggle_lock_selected-IsIntact s i
  act-IsIntact unnest s i = unnest_selected-IsIntact s i
  act-IsIntact duplicate s i = duplicate_selected_nodes-IsIntact uuid s i
  act-IsIntact remove_selected s i = remove_selected_nodes-IsIntact s i
  act-IsIntact connect_from s i = toggle_connect-IsIntact s i
  act-IsIntact escape s (c, p) = (c, tt)
  act-IsIntact click_canvas s i = i
  act-IsIntact (adjust delta) s i = adjust_z_index-IsIntact s i delta
  act-IsIntact (change_node id patch) s i = update_node-IsIntact s i id patch
  act-IsIntact (change_edge id patch) s i = update_edge-IsIntact id patch s i
  act-IsIntact (free_children id) s i = unnest_all_children-IsIntact s i id
  act-IsIntact (remove id) s i = remove_node-IsIntact s i id
  act-IsIntact (remove_edge_of id) s i = remove_edge-IsIntact s i id
  act-IsIntact (select_edge id) s i = i
  act-IsIntact arrange s i = press_arrange-IsIntact half s i
  act-IsIntact (press shift id) s i = press_node-IsIntact shift id s i
  act-IsIntact (drag_to snap aligned guides) s i = drag_move-IsIntact snap aligned guides s i
  act-IsIntact (drag_end pending_nest) s i = release-IsIntact pending_nest s i
  act-IsIntact (press_handle handle id) s i = press_handle_of-IsIntact half size_of handle id s i
  act-IsIntact (drag_handle_by dx dy) s i = drag_handle-IsIntact half size_of dx dy s i
  act-IsIntact let_go s i = end_resize-IsIntact s i
  act-IsIntact (add_entity e) s i = add_entity_node-IsIntact uuid s i e
  act-IsIntact (add_mock template) s i = add_mock_node-IsIntact uuid s i template
  act-IsIntact (click shift id) s i = elim (Bool-cases (mem id (ids_of s.flow_spec))) [
    | inl m ↦ rw m (click_node-IsIntact uuid s i shift id ((mem_iff id (ids_of s.flow_spec)).0 m))
    | inr m ↦ rw m i
  ]
  act-IsIntact (seed available) s i =
      seed_edges_from_relationships-IsIntact uuid to_string available s i

  -- Whatever a user does to a flow, in whatever order (every handler of the page that changes it, with
  -- the button Auto-arrange, dragging and resizing, but for those that replace it by another one: a
  -- loaded flow, a new draft or a duplicate): if all references of the flow lead to its own nodes, and
  -- the start of a connection is one of them, this stays so.
  pub run-IsIntact :
      (actions : List Action) (s : Editor)
      → IsIntact s
      → IsIntact (run uuid to_string half size_of actions s)
  unfolding run
  run-IsIntact [] s i = i
  run-IsIntact (a ∷ actions) s i =
      run-IsIntact actions (act uuid to_string half size_of a s) (act-IsIntact a s i)
