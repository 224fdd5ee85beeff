-- ===== src/Editor/Marking.antt =====
-- What each handler of web/src/pages/Flow.tsx does to the mark that there are unsaved changes, `dirty`.
use mc_gantry.Base.{
  ℕ, ◌≡◌, refl, sym, ◌∙◌, ap, subst, ◌⊎◌, ◌≢◌, inl, inr, Bool, true, false, ◌||◌, ◌&&◌, not, List,
  [], ◌∷◌, map, Option, none, some, Option-cases, Bool-cases, any, is_empty, if◌then◌else◌, ltb,
  arith, Text, text_eq, suc,
}
use mc_gantry.Base.Map.{get}
use mc_gantry.Base.Int.{ℤ}
use mc_gantry.Flow.Types.{FlowNode, Position, node_id}
use mc_gantry.Flow.Graph.{node_map_of}
use mc_gantry.Flow.Dimensions.{Size}
use mc_gantry.Editor.Resize.{resize_move}
use mc_gantry.Editor.Dragging.{
  in_editor, start_drag, drag_move, release, start_node_resize, drag_handle, end_resize,
}
use mc_gantry.Flow.Health.{node_entity_key}
use mc_gantry.Editor.State.{
  Mode, view, edit, Guides, ResizeHandle, Editor, Entity, find, is_id, set_nodes, where_allowed,
  where_selected,
}
use mc_gantry.Editor.Nodes.{is_nudged, moved_by, nudge_selected_nodes}
use mc_gantry.Editor.Nesting.{end_drag}
use mc_gantry.Editor.Adding.{entity_key, add_entity_node, duplicate_nodes}
use mc_gantry.Editor.Removing.{
  drop_selected_edge, drop_selected_nodes, is_absent, remove_selected_nodes,
}
use mc_gantry.Editor.Edges.{
  is_between, create_edge, click_selects, click_from, Seeding, maybe_add, is_same_link,
  finish_seeding,
}
use mc_gantry.Editor.Actions.{toggle_connect, press_arrange, press_node, press_handle_of, drawn}

-- There are unsaved changes now, or the flow and the mark are as they were.
abbrev pub Marked : Editor → Editor → Type 0
Marked s t = (t.dirty ≡ true) ⊎ ((t.flow_spec ≡ s.flow_spec) × (t.dirty ≡ s.dirty))

pub Marked-refl : (s : Editor) → Marked s s
Marked-refl s = inr (refl, refl)

pub Marked-trans : (s t u : Editor) → Marked s t → Marked t u → Marked s u
Marked-trans s t u h (inl e) = inl e
Marked-trans s t u (inl d) (inr (e, k)) = inl (k ∙ d)
Marked-trans s t u (inr (e, k)) (inr (e', k')) = inr (e' ∙ e, k' ∙ k)

pub Marked-if :
    (b : Bool) (s t u : Editor) → Marked s t → Marked s u → Marked s (if b then t else u)
Marked-if true s t u h k = h
Marked-if false s t u h k = k

pub Marked-where_allowed : (s t : Editor) → Marked s t → Marked s (where_allowed s t)
Marked-where_allowed s t h = Marked-if s.can_edit s t s h (Marked-refl s)

pub Marked-where_selected : (s t : Editor) → Marked s t → Marked s (where_selected s t)
Marked-where_selected s t h =
    Marked-if (not s.can_edit || is_empty s.selected_node_ids) s s t (Marked-refl s) h

idle-map :
    (p : FlowNode → Bool) (f : FlowNode → FlowNode) (nodes : List FlowNode)
    → any p nodes ≡ false
    → map (λ n. if p n then f n else n) nodes ≡ nodes
unfolding any
idle-map p f [] h = refl
idle-map p f (n ∷ nodes) h = elim (Bool-cases (p n)) [
  | inl e ↦ absurd (true_is_false (rw e at h))
  | inr e ↦ rw e (ap (λ ns. n ∷ ns) (idle-map p f nodes (rw e at h)))
]
  where
    true_is_false : true ≢ false
    true_is_false e = cc

pub nudge-Marked : (dx dy : ℤ) (s : Editor) → Marked s (nudge_selected_nodes true dx dy s)
unfolding nudge_selected_nodes
nudge-Marked dx dy s =
    let ids = s.selected_node_ids in
    Marked-where_selected s _ (elim (Bool-cases (any (is_nudged ids) s.flow_spec.nodes)) [
      | inl a ↦ rw a (inl refl)
      | inr a ↦ rw a (
          inr (
            ap (λ nodes. set_nodes nodes s.flow_spec)
                (idle-map (is_nudged ids) (moved_by dx dy) s.flow_spec.nodes a),
            refl,
          ))
    ])

pub toggle_connect-Marked : (s : Editor) → Marked s (toggle_connect s)
unfolding toggle_connect
toggle_connect-Marked s =
    elim (Option-cases (find (λ node. is_id s.selected_node_id (node_id node)) s.flow_spec.nodes)) [
      | inl e ↦ rw (e, toggle_connect) (Marked-refl s)
      | inr (n, e) ↦ rw (e, toggle_connect) (inr (refl, refl))
    ]

click_selects-Marked : (shift : Bool) (id : Text) (s : Editor) → Marked s (click_selects shift id s)
click_selects-Marked true id s = inr (refl, refl)
click_selects-Marked false id s = inr (refl, refl)

drop_on-Marked : (id : Text) (target : Option Text) (s : Editor) → Marked s (end_drag id target s)
unfolding end_drag
drop_on-Marked id none s = inr (refl, refl)
drop_on-Marked id (some []) s = inr (refl, refl)
drop_on-Marked id (some (c ∷ t)) s = inl refl

pub remove_selected-Marked : (s : Editor) → Marked s (remove_selected_nodes s)
unfolding remove_selected_nodes
remove_selected-Marked s =
    let dropped = drop_selected_edge s.selected_edge_id (drop_selected_nodes s) in
    Marked-where_allowed s _ (
      Marked-if (is_empty s.selected_node_ids && is_absent s.selected_edge_id) s s
        (record dropped { dirty = true; notice = [] }) (Marked-refl s) (inl refl))

-- Edges were counted, or nothing was added.
abbrev pub Counted : Seeding → Seeding → Type 0
Counted start s = (ltb 0 s.added ≡ true) ⊎ (s ≡ start)

pub maybe_add-Counted :
    (uuid : ℕ → Text) (first : ℕ) (start : Seeding) (source target rel : Text) (s : Seeding)
    → Counted start s
    → Counted start (maybe_add uuid first source target rel s)
maybe_add-Counted uuid first start source target rel s h =
    elim (Bool-cases (text_eq source target)) [
      | inl b ↦ rw b h
      | inr b ↦ rw b (elim (Bool-cases (any (is_same_link source target rel) s.next_edges)) [
        | inl d ↦ rw d h
        | inr d ↦ rw d (inl (ltb-suc s.added))
      ])
    ]
  where
    ltb-suc : (n : ℕ) → ltb 0 (suc n) ≡ true
    ltb-suc n = ground arith

pub finish-Marked :
    (uuid : ℕ → Text) (seeding : Seeding) (s : Editor)
    → Counted (record { next_edges = s.flow_spec.edges; added = 0 }) seeding
    → Marked s (finish_seeding uuid seeding s)
finish-Marked uuid seeding s (inl e) = inl (rw e refl)
finish-Marked uuid seeding s (inr e) =
    subst (λ x. Marked s (finish_seeding uuid x s)) (sym e) (inr (refl, refl))

module _ (uuid : ℕ → Text) where
  pub duplicate_nodes-Marked :
      (chosen : List FlowNode) (s : Editor) → Marked s (duplicate_nodes uuid chosen s)
  duplicate_nodes-Marked [] s = Marked-refl s
  duplicate_nodes-Marked (n ∷ others) s = inl refl

  create_edge-Marked :
      (source target : Text) (s : Editor) → Marked s (create_edge uuid source target s)
  unfolding create_edge
  create_edge-Marked source target s =
      Marked-where_allowed s _ (elim (Bool-cases (text_eq source target)) [
        | inl b ↦ rw b (Marked-refl s)
        | inr b ↦ rw b (elim (Option-cases (find (is_between source target) s.flow_spec.edges)) [
          | inl e ↦ rw e (inl refl)
          | inr (d, e) ↦ rw e (inr (refl, refl))
        ])
      ])

  pub click_from-Marked :
      (from : Option Text) (shift : Bool) (id : Text) (s : Editor)
      → Marked s (click_from uuid from shift id s)
  click_from-Marked none shift id s = click_selects-Marked shift id s
  click_from-Marked (some []) shift id s = click_selects-Marked shift id s
  click_from-Marked (some (c ∷ from)) shift id s =
      Marked-if (s.can_edit && not (text_eq (c ∷ from) id)) s _ _
        (create_edge-Marked (c ∷ from) id s) (click_selects-Marked shift id s)

  pub add_entity_node-Marked : (e : Entity) (s : Editor) → Marked s (add_entity_node uuid e s)
  unfolding add_entity_node
  add_entity_node-Marked e s =
      Marked-where_allowed s _
        (elim (Option-cases
          (find (λ node. text_eq (node_entity_key node) (entity_key e)) s.flow_spec.nodes)) [
            | inl h ↦ rw h (inl refl)
            | inr (n, h) ↦ rw h (inr (refl, refl))
          ])

pub drag_move-Marked :
    (snap : ℤ → ℤ) (aligned : Position) (guides : Guides) (s : Editor)
    → Marked s (drag_move snap aligned guides s)
unfolding drag_move
drag_move-Marked snap aligned guides s = elim (Option-cases s.dragging) [
  | inl e ↦ rw (e, drag_move) (Marked-refl s)
  | inr (drag, e) ↦ rw (e, drag_move) (inl refl)
]

pub release-Marked : (pending_nest : Option Text) (s : Editor) → Marked s (release pending_nest s)
unfolding release
release-Marked pending_nest s = elim (Option-cases s.dragging) [
  | inl e ↦ rw (e, release) (Marked-refl s)
  | inr (drag, e) ↦ rw (e, release) (drop_on-Marked drag.dragged_id pending_nest s)
]

pub press_node-Marked : (shift : Bool) (id : Text) (s : Editor) → Marked s (press_node shift id s)
unfolding press_node start_drag
press_node-Marked shift id s = elim (Option-cases (drawn id s)) [
  | inl e ↦ rw (e, press_node) (Marked-refl s)
  | inr (node, e) ↦
      rw (e, press_node) (Marked-if (in_editor s && not _) s _ s (inr (refl, refl)) (Marked-refl s))
]

pub end_resize-Marked : (s : Editor) → Marked s (end_resize s)
end_resize-Marked s = elim (Option-cases s.resizing) [
  | inl e ↦ rw e (Marked-refl s)
  | inr (r, e) ↦ rw e (inr (refl, refl))
]

pub press_arrange-Marked : (half : ℤ → ℤ) (s : Editor) → Marked s (press_arrange half s)
unfolding press_arrange
press_arrange-Marked half s = of_mode s.mode refl
  where
    of_mode : (m : Mode) → s.mode ≡ m → Marked s (press_arrange half s)
    of_mode view e = rw (e, press_arrange) (Marked-refl s)
    of_mode edit e = rw (e, press_arrange) (inl refl)

module _ (half : ℤ → ℤ) (size_of : FlowNode → Size) where
  pub press_handle-Marked :
      (handle : ResizeHandle) (id : Text) (s : Editor)
      → Marked s (press_handle_of size_of handle id s)
  unfolding press_handle_of start_node_resize
  press_handle-Marked handle id s = elim (Option-cases (drawn id s)) [
    | inl e ↦ rw (e, press_handle_of) (Marked-refl s)
    | inr (node, e) ↦
        rw (e, press_handle_of)
          (Marked-if (in_editor s && not _) s _ s (inr (refl, refl)) (Marked-refl s))
  ]

  pub drag_handle-Marked : (dx dy : ℤ) (s : Editor) → Marked s (drag_handle half size_of dx dy s)
  unfolding drag_handle resize_move
  drag_handle-Marked dx dy s = elim (Option-cases s.resizing) [
    | inl e ↦ rw (e, drag_handle) (Marked-refl s)
    | inr (r, e) ↦ elim (Option-cases (get r.resized_id (node_map_of s.flow_spec.nodes))) [
      | inl e' ↦ rw (e, drag_handle, e', resize_move) (inl refl)
      | inr (node, e') ↦ rw (e, drag_handle, e', resize_move) (inl refl)
    ]
  ]
