-- ===== src/Editor/Intact/Dragged.antt =====
-- Dragging, resizing and the automatic layout of web/src/pages/Flow.tsx change no reference.
use mc_gantry.Base.{
  ◌≡◌, refl, inl, inr, Bool, true, false, not, ◌&&◌, ◌∷◌, Option, Option-cases, List-cases, List,
  filter, if◌then◌else◌, Text, text_eq,
}
use mc_gantry.Base.Int.{ℤ}
use mc_gantry.Base.Map.{get, mem}
use mc_gantry.Flow.Types.{FlowNode, FlowSpec, Position, entity, mock, node_id}
use mc_gantry.Flow.Graph.{node_map_of}
use mc_gantry.Flow.Dimensions.{Size}
use mc_gantry.Flow.Arrange.{is_top_level, levels_of}
use mc_gantry.Flow.Arrange.Rows.{moved_to, auto_arrange_nodes}
use mc_gantry.Editor.State.{Editor, Mode, view, edit, Guides, Dragging, ResizeHandle, Span}
use mc_gantry.Editor.Closed.{Keeps, Keeps-refl, Keeps-if}
use mc_gantry.Editor.Nodes.{has_parent_among}
use mc_gantry.Editor.Resize.{Aligned, resized, shape_to, shape_node, resize_move}
use mc_gantry.Editor.Dragging.{
  next_position, drag_node, dragged_nodes, drag_move, release, start_drag, start_node_resize,
  drag_handle, end_resize, in_editor,
}
use mc_gantry.Editor.Actions.{press_arrange, press_node, press_handle_of, drawn}
use mc_gantry.Editor.Intact.{
  IsWhole, IsIntact, IsIntact-if, mapped-IsWhole, Keeps-with_position, end_drag-IsIntact,
}

Keeps-either :
    (ids : List Text) (b : Bool) (n m m' : FlowNode)
    → Keeps ids n m
    → Keeps ids n m'
    → Keeps ids n (if b then m else m')
Keeps-either ids true n m m' h k = h
Keeps-either ids false n m m' h k = k

drag_node-Keeps :
    (ids : List Text) (drag : Dragging) (primary_node : FlowNode) (next : Position) (n : FlowNode)
    → Keeps ids n (drag_node drag primary_node next n)
unfolding drag_node
drag_node-Keeps ids drag primary_node next n =
    let moved = Keeps-with_position ids _ n in
    Keeps-either ids (not (mem (node_id n) drag.dragged_ids)) n n _ (Keeps-refl ids n) (
      Keeps-either ids (text_eq (node_id n) drag.dragged_id) n _ _
        (Keeps-either ids (has_parent_among drag.dragged_ids primary_node) n _ _ moved
          (Keeps-with_position ids next n))
        (Keeps-either ids (has_parent_among drag.dragged_ids n) n n _ (Keeps-refl ids n) moved))

dragged_nodes-IsWhole :
    (from : Option Text) (snap : ℤ → ℤ) (aligned : Position) (drag : Dragging) (spec : FlowSpec)
    → IsWhole from spec
    → IsWhole from (dragged_nodes snap aligned drag spec)
unfolding dragged_nodes
dragged_nodes-IsWhole from snap aligned drag spec h =
    elim (Option-cases (get drag.dragged_id (node_map_of spec.nodes))) [
      | inl e ↦ rw (e, dragged_nodes) h
      | inr (node, e) ↦
          let next = next_position snap (node_map_of spec.nodes) aligned node in
          rw (e, dragged_nodes)
            (mapped-IsWhole from spec (drag_node drag node next)
              (λ n. drag_node-Keeps _ drag node next n) h)
    ]

pub drag_move-IsIntact :
    (snap : ℤ → ℤ) (aligned : Position) (guides : Guides) (s : Editor)
    → IsIntact s
    → IsIntact (drag_move snap aligned guides s)
unfolding drag_move
drag_move-IsIntact snap aligned guides s i = elim (Option-cases s.dragging) [
  | inl e ↦ rw (e, drag_move) i
  | inr (drag, e) ↦
      rw (e, drag_move) (dragged_nodes-IsWhole s.connect_from_id snap aligned drag s.flow_spec i)
]

pub release-IsIntact :
    (pending_nest : Option Text) (s : Editor) → IsIntact s → IsIntact (release pending_nest s)
unfolding release
release-IsIntact pending_nest s i = elim (Option-cases s.dragging) [
  | inl e ↦ rw (e, release) i
  | inr (drag, e) ↦ rw (e, release) (end_drag-IsIntact s drag.dragged_id pending_nest i)
]

pub press_node-IsIntact :
    (shift : Bool) (id : Text) (s : Editor) → IsIntact s → IsIntact (press_node shift id s)
unfolding press_node start_drag
press_node-IsIntact shift id s i = elim (Option-cases (drawn id s)) [
  | inl e ↦ rw (e, press_node) i
  | inr (node, e) ↦ rw (e, press_node) (IsIntact-if (in_editor s && not _) s _ i i)
]

pub end_resize-IsIntact : (s : Editor) → IsIntact s → IsIntact (end_resize s)
end_resize-IsIntact s i = elim (Option-cases s.resizing) [ inl e ↦ rw e i | inr (r, e) ↦ rw e i ]

Keeps-moved_to :
    (ids : List Text) (positions : List (Text × Position)) (n : FlowNode)
    → Keeps ids n (moved_to positions n)
unfolding moved_to
Keeps-moved_to ids positions n = elim (Option-cases (get (node_id n) positions)) [
  | inl e ↦ rw (e, moved_to) (Keeps-refl ids n)
  | inr (p, e) ↦ rw (e, moved_to) (Keeps-with_position ids p n)
]

auto_arrange_nodes-IsWhole :
    (from : Option Text) (half : ℤ → ℤ) (spec : FlowSpec)
    → IsWhole from spec
    → IsWhole from (auto_arrange_nodes half spec)
unfolding auto_arrange_nodes
auto_arrange_nodes-IsWhole from half spec h = elim (List-cases (filter is_top_level spec.nodes)) [
  | inl e ↦ rw (e, auto_arrange_nodes) h
  | inr (first, others, e) ↦ elim (Option-cases (levels_of (first ∷ others) spec.edges)) [
    | inl e' ↦ rw (e, e', auto_arrange_nodes) h
    | inr (level, e') ↦
        rw (e, e', auto_arrange_nodes)
          (mapped-IsWhole from spec (moved_to _) (λ n. Keeps-moved_to _ _ n) h)
  ]
]

pub press_arrange-IsIntact :
    (half : ℤ → ℤ) (s : Editor) → IsIntact s → IsIntact (press_arrange half s)
unfolding press_arrange
press_arrange-IsIntact half s i = of_mode s.mode refl
  where
    of_mode : (m : Mode) → s.mode ≡ m → IsIntact (press_arrange half s)
    of_mode view e = rw (e, press_arrange) i
    of_mode edit e =
        rw (e, press_arrange) (auto_arrange_nodes-IsWhole s.connect_from_id half s.flow_spec i)

module _ (half : ℤ → ℤ) (size_of : FlowNode → Size) where
  pub press_handle_of-IsIntact :
      (handle : ResizeHandle) (id : Text) (s : Editor)
      → IsIntact s
      → IsIntact (press_handle_of size_of handle id s)
  unfolding press_handle_of start_node_resize
  press_handle_of-IsIntact handle id s i = elim (Option-cases (drawn id s)) [
    | inl e ↦ rw (e, press_handle_of) i
    | inr (node, e) ↦ rw (e, press_handle_of) (IsIntact-if (in_editor s && not _) s _ i i)
  ]

  Keeps-shape_to :
      (ids : List Text) (a : Aligned) (n : FlowNode) → Keeps ids n (shape_to half size_of a n)
  Keeps-shape_to ids a (entity n) = (refl, λ h. h)
  Keeps-shape_to ids a (mock n) = (refl, λ h. h)

  resize_move-IsIntact :
      (id : Text) (h : ResizeHandle) (dx dy : ℤ) (x y : Span) (s : Editor)
      → IsIntact s
      → IsIntact (resize_move half size_of id h dx dy x y s)
  unfolding resize_move
  resize_move-IsIntact id h dx dy x y s i =
      let node_map = node_map_of s.flow_spec.nodes in
      elim (Option-cases (get id node_map)) [
        | inl e ↦ rw (e, resize_move) i
        | inr (node, e) ↦
            let aligned = resized half size_of node h dx dy x y node_map in
            rw (e, resize_move)
              (mapped-IsWhole s.connect_from_id s.flow_spec (shape_node half size_of id aligned)
                (λ n. Keeps-if _ (text_eq (node_id n) id) n _ (Keeps-shape_to _ aligned n)) i)
      ]

  pub drag_handle-IsIntact :
      (dx dy : ℤ) (s : Editor) → IsIntact s → IsIntact (drag_handle half size_of dx dy s)
  unfolding drag_handle
  drag_handle-IsIntact dx dy s i = elim (Option-cases s.resizing) [
    | inl e ↦ rw (e, drag_handle) i
    | inr (r, e) ↦
        rw (e, drag_handle)
          (resize_move-IsIntact r.resized_id r.handle dx dy r.start_horizontal r.start_vertical s i)
  ]
