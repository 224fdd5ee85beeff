-- ===== src/Editor/Marks.antt =====
-- The mark that there are unsaved changes, `dirty` of web/src/pages/Flow.tsx, after the actions of a user.
use mc_gantry.Base.{
  ℕ, ◌≡◌, refl, sym, ◌∙◌, ◌≢◌, inl, inr, ⊎_elim, Bool, true, false, ◌||◌, ◌&&◌, not, List, [], ◌∷◌,
  map, Bool-cases, is_empty, if◌then◌else◌, arith, Text,
}
use mc_gantry.Base.Map.{mem, set_all}
use mc_gantry.Base.Int.{ℤ}
use mc_gantry.Utils.Json.{Json}
use mc_gantry.Flow.Types.{FlowNode, FlowSpec}
use mc_gantry.Flow.Dimensions.{Size}
use mc_gantry.Flow.Copies.Clones.{ids_of}
use mc_gantry.Editor.State.{Editor, Entity, set_nodes}
use mc_gantry.Editor.Nodes.{
  nudge_node, nudge_selected_nodes, toggle_lock_selected, adjust_z_index, update_node,
}
use mc_gantry.Editor.Nesting.{unnest_selected, unnest_all_children}
use mc_gantry.Editor.Adding.{entity_key, add_mock_node, duplicate_selected_nodes}
use mc_gantry.Editor.Removing.{remove_node, remove_selected_nodes, remove_edge}
use mc_gantry.Editor.Edges.{update_edge, click_node, seed_edges_from_relationships, Seeding}
use mc_gantry.Editor.Seeds.{seed_nodes-Good}
use mc_gantry.Editor.Actions.{
  Action, nudge, toggle_lock, unnest, duplicate, remove_selected, connect_from, escape,
  click_canvas, adjust, change_node, change_edge, free_children, remove, remove_edge_of,
  select_edge, arrange, press, drag_to, drag_end, press_handle, drag_handle_by, let_go, add_entity,
  add_mock, click, seed, act, run,
}
use mc_gantry.Editor.Marking.{
  Marked, Marked-refl, Marked-trans, Marked-if, Marked-where_allowed, Marked-where_selected,
  nudge-Marked, toggle_connect-Marked, remove_selected-Marked, Counted, maybe_add-Counted,
  finish-Marked, duplicate_nodes-Marked, click_from-Marked, add_entity_node-Marked,
  drag_move-Marked, release-Marked, press_node-Marked, end_resize-Marked, press_arrange-Marked,
  press_handle-Marked, drag_handle-Marked,
}

-- Whether React runs the update of a nudge at once.
abbrev pub runs_at_once : Action → Bool
runs_at_once (nudge at_once dx dy) = at_once
runs_at_once a = true

unfoldable pub every_at_once : List Action → Bool
every_at_once [] = true
every_at_once (a ∷ actions) = runs_at_once a && every_at_once actions

module _ (uuid : ℕ → Text) (to_string : Json → Text) (half : ℤ → ℤ)
    (size_of : FlowNode → Size) where
  seed-Marked :
      (available : List Entity) (s : Editor)
      → Marked s (seed_edges_from_relationships uuid to_string available s)
  unfolding seed_edges_from_relationships
  seed-Marked available s =
      let start : Seeding = record { next_edges = s.flow_spec.edges; added = 0 } in
      let nodes = s.flow_spec.nodes in
      Marked-where_allowed s _ (
        finish-Marked uuid _ s (
          seed_nodes-Good uuid to_string s.next_uuid nodes (Counted start)
            (λ source target rel x ms mt h.
              maybe_add-Counted uuid s.next_uuid start source target rel x h)
            (set_all [] (map (λ e. (entity_key e, e)) available)) nodes start (λ n m. m)
            (inr refl)))

  pub act-Marked :
      (a : Action) (s : Editor)
      → runs_at_once a ≡ true
      → Marked s (act uuid to_string half size_of a s)
  unfolding act toggle_lock_selected unnest_selected duplicate_selected_nodes remove_selected_nodes
      adjust_z_index update_node update_edge unnest_all_children remove_node remove_edge
      add_mock_node click_node
  act-Marked (nudge true dx dy) s h = nudge-Marked dx dy s
  act-Marked (nudge false dx dy) s h = absurd cc
  act-Marked toggle_lock s h = Marked-where_selected s _ (inl refl)
  act-Marked unnest s h = Marked-where_selected s _ (inl refl)
  act-Marked duplicate s h = Marked-where_selected s _ (duplicate_nodes-Marked uuid _ s)
  act-Marked remove_selected s h = remove_selected-Marked s
  act-Marked connect_from s h = toggle_connect-Marked s
  act-Marked escape s h = inr (refl, refl)
  act-Marked click_canvas s h = inr (refl, refl)
  act-Marked (adjust delta) s h = Marked-where_selected s _ (inl refl)
  act-Marked (change_node id patch) s h = Marked-where_allowed s _ (inl refl)
  act-Marked (change_edge id patch) s h = Marked-where_allowed s _ (inl refl)
  act-Marked (free_children id) s h = Marked-where_allowed s _ (inl refl)
  act-Marked (remove id) s h = Marked-where_allowed s _ (inl refl)
  act-Marked (remove_edge_of id) s h = Marked-where_allowed s _ (inl refl)
  act-Marked (select_edge id) s h = inr (refl, refl)
  act-Marked arrange s h = press_arrange-Marked half s
  act-Marked (press shift id) s h = press_node-Marked shift id s
  act-Marked (drag_to snap aligned guides) s h = drag_move-Marked snap aligned guides s
  act-Marked (drag_end pending_nest) s h = release-Marked pending_nest s
  act-Marked (press_handle handle id) s h = press_handle-Marked half size_of handle id s
  act-Marked (drag_handle_by dx dy) s h = drag_handle-Marked half size_of dx dy s
  act-Marked let_go s h = end_resize-Marked s
  act-Marked (add_entity e) s h = add_entity_node-Marked uuid e s
  act-Marked (add_mock template) s h = Marked-where_allowed s _ (inl refl)
  act-Marked (click shift id) s h =
      Marked-if (mem id (ids_of s.flow_spec)) s _ s
        (click_from-Marked uuid s.connect_from_id shift id s) (Marked-refl s)
  act-Marked (seed available) s h = seed-Marked available s

  late_nudge-dirty :
      (dx dy : ℤ) (s : Editor) → s.dirty ≡ true → (nudge_selected_nodes false dx dy s).dirty ≡ true
  unfolding nudge_selected_nodes
  late_nudge-dirty dx dy s d =
      either (not s.can_edit || is_empty s.selected_node_ids)
        (set_nodes (map (nudge_node s.selected_node_ids dx dy) s.flow_spec.nodes) s.flow_spec)
    where
      either :
          (b : Bool) (spec : FlowSpec)
          → (if b then s else record s { flow_spec = spec }).dirty ≡ true
      either true spec = d
      either false spec = d

  -- No action takes the mark away.
  pub act-dirty :
      (a : Action) (s : Editor)
      → s.dirty ≡ true
      → (act uuid to_string half size_of a s).dirty ≡ true
  unfolding act
  act-dirty a s d = elim (Bool-cases (runs_at_once a)) [
    | inl h ↦ ⊎_elim (λ e. e) (λ (same, mark). mark ∙ d) (act-Marked a s h)
    | inr h ↦ late a h
  ]
    where
      late :
          (a : Action) → runs_at_once a ≡ false → (act uuid to_string half size_of a s).dirty ≡ true
      late (nudge false dx dy) h = late_nudge-dirty dx dy s d
      late a h = absurd cc

  all_left : (a b : Bool) → (a && b) ≡ true → a ≡ true
  all_left a b h = ground arith

  all_right : (a b : Bool) → (a && b) ≡ true → b ≡ true
  all_right a b h = ground arith

  run-Marked :
      (actions : List Action) (s : Editor)
      → every_at_once actions ≡ true
      → Marked s (run uuid to_string half size_of actions s)
  unfolding run every_at_once
  run-Marked [] s h = Marked-refl s
  run-Marked (a ∷ actions) s h =
      let s' = act uuid to_string half size_of a s in
      Marked-trans s s' (run uuid to_string half size_of actions s')
        (act-Marked a s (all_left (runs_at_once a) (every_at_once actions) h))
        (run-Marked actions s' (all_right (runs_at_once a) (every_at_once actions) h))

  -- No change goes unmarked, whatever a user does to a flow without replacing it by another one, provided
  -- that React runs the update of every nudge before `setFlowSpec` returns: if there are no unsaved changes after some actions, the flow is what
  -- it was before them, and there were none before them either.
  pub run-unmarked :
      (actions : List Action) (s : Editor)
      → every_at_once actions ≡ true
      → (run uuid to_string half size_of actions s).dirty ≡ false
      → ((run uuid to_string half size_of actions s).flow_spec ≡ s.flow_spec) × (s.dirty ≡ false)
  run-unmarked actions s all h =
      ⊎_elim (λ e. absurd (false_is_true (sym h ∙ e))) (λ (same, mark). (same, sym mark ∙ h))
        (run-Marked actions s all)
    where
      false_is_true : false ≢ true
      false_is_true e = cc
