-- ===== src/Editor/Guards.antt =====
-- The actions in the editor of web/src/pages/Flow.tsx, for somebody who may not edit.
use mc_gantry.Base.{
  ℕ, ◌≡◌, refl, ◌∙◌, inl, inr, Bool, true, false, ◌||◌, ◌&&◌, not, List, [], ◌∷◌, Option, none,
  some, Option-cases, is_empty, if◌then◌else◌, Text, text_eq,
}
use mc_gantry.Base.Map.{mem}
use mc_gantry.Utils.Json.{Json}
use mc_gantry.Flow.Types.{FlowNode, node_id}
use mc_gantry.Flow.Copies.Clones.{ids_of}
use mc_gantry.Editor.State.{view, ResizeHandle, Editor, find, is_id, where_allowed, where_selected}
use mc_gantry.Editor.Nodes.{nudge_selected_nodes, toggle_lock_selected, adjust_z_index, update_node}
use mc_gantry.Editor.Nesting.{unnest_selected, unnest_all_children}
use mc_gantry.Base.Int.{ℤ}
use mc_gantry.Flow.Dimensions.{Size}
use mc_gantry.Editor.Dragging.{
  in_editor, start_drag, drag_move, release, start_node_resize, drag_handle,
}
use mc_gantry.Editor.Adding.{add_entity_node, add_mock_node, duplicate_selected_nodes}
use mc_gantry.Editor.Removing.{remove_node, remove_selected_nodes, remove_edge}
use mc_gantry.Editor.Edges.{
  update_edge, create_edge, click_selects, click_from, click_node, seed_edges_from_relationships,
}
use mc_gantry.Editor.Actions.{
  Action, nudge, toggle_lock, unnest, duplicate, remove_selected, connect_from, escape,
  click_canvas, adjust, change_node, change_edge, free_children, remove, remove_edge_of,
  select_edge, arrange, press, drag_to, drag_end, press_handle, drag_handle_by, let_go, add_entity,
  add_mock, click, seed, act, run, toggle_connect, press_arrange, press_node, press_handle_of,
  drawn,
}

-- The permission, the mode, and what is under way.
abbrev pub IsSameWay : Editor → Editor → Type 0
IsSameWay s t =
    (t.can_edit ≡ s.can_edit)
    × (t.mode ≡ s.mode)
    × (t.dragging ≡ s.dragging)
    × (t.resizing ≡ s.resizing)

-- The flow and its mark are the same as well.
abbrev IsSame : Editor → Editor → Type 0
IsSame s t = (t.flow_spec ≡ s.flow_spec) × (t.dirty ≡ s.dirty) × IsSameWay s t

-- Nobody may edit, the editing mode is left, and no node is dragged or resized.
abbrev pub IsReadOnly : Editor → Type 0
IsReadOnly s = (s.can_edit ≡ false) × (s.mode ≡ view) × (s.dragging ≡ none) × (s.resizing ≡ none)

IsSame-refl : (s : Editor) → IsSame s s
IsSame-refl s = (refl, refl, (refl, refl, refl, refl))

IsReadOnly-same : (s t : Editor) → IsSameWay s t → IsReadOnly s → IsReadOnly t
IsReadOnly-same s t (a, b, c, d) (a', b', c', d') = (a ∙ a', b ∙ b', c ∙ c', d ∙ d')

IsSame-if : (b : Bool) (s t u : Editor) → IsSame s t → IsSame s u → IsSame s (if b then t else u)
IsSame-if true s t u h k = h
IsSame-if false s t u h k = k

IsSame-guarded : (s t : Editor) → s.can_edit ≡ false → IsSame s (where_allowed s t)
IsSame-guarded s t h = barred s.can_edit h
  where
    barred : (b : Bool) → b ≡ false → IsSame s (if b then t else s)
    barred true e = absurd cc
    barred false e = (refl, refl, (refl, refl, refl, refl))

IsSame-selected : (s t : Editor) → s.can_edit ≡ false → IsSame s (where_selected s t)
IsSame-selected s t h = barred s.can_edit h
  where
    barred :
        (b : Bool) → b ≡ false → IsSame s (if not b || is_empty s.selected_node_ids then s else t)
    barred true e = absurd cc
    barred false e = (refl, refl, (refl, refl, refl, refl))

IsSame-toggle_connect : (s : Editor) → IsSame s (toggle_connect s)
unfolding toggle_connect
IsSame-toggle_connect s =
    elim (Option-cases (find (λ node. is_id s.selected_node_id (node_id node)) s.flow_spec.nodes)) [
      | inl e ↦ rw (e, toggle_connect) (refl, refl, (refl, refl, refl, refl))
      | inr (n, e) ↦ rw (e, toggle_connect) (refl, refl, (refl, refl, refl, refl))
    ]

IsSame-click_selects : (shift : Bool) (id : Text) (s : Editor) → IsSame s (click_selects shift id s)
IsSame-click_selects true id s = (refl, refl, (refl, refl, refl, refl))
IsSame-click_selects false id s = (refl, refl, (refl, refl, refl, refl))

in_editor-view : (s : Editor) → s.mode ≡ view → in_editor s ≡ false
in_editor-view s m = rw m refl

IsSame-barred :
    (s t : Editor) (b : Bool) → s.mode ≡ view → IsSame s (if in_editor s && b then t else s)
IsSame-barred s t b m = barred (in_editor s) (in_editor-view s m)
  where
    barred : (a : Bool) → a ≡ false → IsSame s (if a && b then t else s)
    barred true e = absurd cc
    barred false e = IsSame-refl s

IsSame-press_node :
    (shift : Bool) (id : Text) (s : Editor) → s.mode ≡ view → IsSame s (press_node shift id s)
unfolding press_node start_drag
IsSame-press_node shift id s m = elim (Option-cases (drawn id s)) [
  | inl e ↦ rw (e, press_node) (IsSame-refl s)
  | inr (node, e) ↦ rw (e, press_node) (IsSame-barred s _ _ m)
]

IsSame-press_handle :
    (size_of : FlowNode → Size) (handle : ResizeHandle) (id : Text) (s : Editor)
    → s.mode ≡ view
    → IsSame s (press_handle_of size_of handle id s)
unfolding press_handle_of start_node_resize
IsSame-press_handle size_of handle id s m = elim (Option-cases (drawn id s)) [
  | inl e ↦ rw (e, press_handle_of) (IsSame-refl s)
  | inr (node, e) ↦ rw (e, press_handle_of) (IsSame-barred s _ _ m)
]

module _ (uuid : ℕ → Text) (to_string : Json → Text) (half : ℤ → ℤ)
    (size_of : FlowNode → Size) where
  IsSame-click_from :
      (from : Option Text) (shift : Bool) (id : Text) (s : Editor)
      → s.can_edit ≡ false
      → IsSame s (click_from uuid from shift id s)
  IsSame-click_from none shift id s h = IsSame-click_selects shift id s
  IsSame-click_from (some []) shift id s h = IsSame-click_selects shift id s
  IsSame-click_from (some (c ∷ from)) shift id s h = barred s.can_edit h
    where
      barred :
          (b : Bool)
          → b ≡ false
          → IsSame s (
              if b && not (text_eq (c ∷ from) id)
              then create_edge uuid (c ∷ from) id s
              else click_selects shift id s)
      barred true e = absurd cc
      barred false e = IsSame-click_selects shift id s

  act-read_only :
      (a : Action) (s : Editor) → IsReadOnly s → IsSame s (act uuid to_string half size_of a s)
  unfolding act press_arrange drag_move release drag_handle nudge_selected_nodes
      toggle_lock_selected unnest_selected duplicate_selected_nodes remove_selected_nodes
      adjust_z_index update_node update_edge unnest_all_children remove_node remove_edge
      add_entity_node add_mock_node click_node seed_edges_from_relationships
  act-read_only (nudge at_once dx dy) s (h, m, d, z) = IsSame-selected s _ h
  act-read_only toggle_lock s (h, m, d, z) = IsSame-selected s _ h
  act-read_only unnest s (h, m, d, z) = IsSame-selected s _ h
  act-read_only duplicate s (h, m, d, z) = IsSame-selected s _ h
  act-read_only remove_selected s (h, m, d, z) = IsSame-guarded s _ h
  act-read_only connect_from s (h, m, d, z) = IsSame-toggle_connect s
  act-read_only escape s (h, m, d, z) = (refl, refl, (refl, refl, refl, refl))
  act-read_only click_canvas s (h, m, d, z) = (refl, refl, (refl, refl, refl, refl))
  act-read_only (adjust delta) s (h, m, d, z) = IsSame-selected s _ h
  act-read_only (change_node id patch) s (h, m, d, z) = IsSame-guarded s _ h
  act-read_only (change_edge id patch) s (h, m, d, z) = IsSame-guarded s _ h
  act-read_only (free_children id) s (h, m, d, z) = IsSame-guarded s _ h
  act-read_only (remove id) s (h, m, d, z) = IsSame-guarded s _ h
  act-read_only (remove_edge_of id) s (h, m, d, z) = IsSame-guarded s _ h
  act-read_only (select_edge id) s (h, m, d, z) = (refl, refl, (refl, refl, refl, refl))
  act-read_only arrange s (h, m, d, z) = rw (m, press_arrange) (refl, refl, (refl, m, refl, refl))
  act-read_only (press shift id) s (h, m, d, z) = IsSame-press_node shift id s m
  act-read_only (drag_to snap aligned guides) s (h, m, d, z) =
      rw (d, drag_move) (refl, refl, (refl, refl, d, refl))
  act-read_only (drag_end pending_nest) s (h, m, d, z) =
      rw (d, release) (refl, refl, (refl, refl, d, refl))
  act-read_only (press_handle handle id) s (h, m, d, z) = IsSame-press_handle size_of handle id s m
  act-read_only (drag_handle_by dx dy) s (h, m, d, z) =
      rw (z, drag_handle) (refl, refl, (refl, refl, refl, z))
  act-read_only let_go s (h, m, d, z) = rw z (refl, refl, (refl, refl, refl, refl))
  act-read_only (add_entity e) s (h, m, d, z) = IsSame-guarded s _ h
  act-read_only (add_mock template) s (h, m, d, z) = IsSame-guarded s _ h
  act-read_only (click shift id) s (h, m, d, z) =
      IsSame-if (mem id (ids_of s.flow_spec)) s (click_node uuid shift id s) s
        (IsSame-click_from s.connect_from_id shift id s h) (refl, refl, (refl, refl, refl, refl))
  act-read_only (seed available) s (h, m, d, z) = IsSame-guarded s _ h

  -- Without the permission to edit, once the editing mode is left and while no node is dragged or
  -- resized, no sequence of actions changes the flow or marks it as changed.
  pub run-read_only :
      (actions : List Action) (s : Editor)
      → IsReadOnly s
      → ((run uuid to_string half size_of actions s).flow_spec ≡ s.flow_spec)
        × ((run uuid to_string half size_of actions s).dirty ≡ s.dirty)
  unfolding run
  run-read_only [] s h = (refl, refl)
  run-read_only (a ∷ actions) s h =
      let s' = act uuid to_string half size_of a s in
      let (same, mark, way) = act-read_only a s h in
      let (same', mark') = run-read_only actions s' (IsReadOnly-same s s' way h) in
      (same' ∙ same, mark' ∙ mark)
