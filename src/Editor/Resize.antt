-- ===== src/Editor/Resize.antt =====
-- A node that is resized at one of its handles: `getResizeAlignment` and the effect for `resizing` of
-- web/src/pages/Flow.tsx. `half` stands for the division by two, and `dx` and `dy` are what the pointer
-- moved, on the canvas.
pub mod Anchors
pub mod Bounds
mod Tests
use mc_gantry.Base.{
  ℕ, ◌+◌, Bool, true, false, ◌||◌, ◌&&◌, not, List, [], ◌∷◌, ◌++◌, Option, none, some, map,
  if◌then◌else◌, leb, Text, text_eq,
}
use mc_gantry.Base.Int.{ℤ, pos, pos_part, neg_part, ◌+ℤ◌, ◌-ℤ◌, leb_ℤ}
use mc_gantry.Base.Map.{get}
use mc_gantry.Flow.Types.{FlowNode, FlowSpec, Position, node_id}
use mc_gantry.Flow.Graph.{absolute_in, node_map_of, parent_key}
use mc_gantry.Flow.Dimensions.{max_node_width, Size}
use mc_gantry.Flow.Fields.{with_position, with_width, with_height}
use mc_gantry.Editor.State.{Editor, Guides, no_guides, origin, set_nodes}
pub use mc_gantry.Editor.State.{
  ResizeHandle, at_n, at_e, at_s, at_w, at_ne, at_se, at_sw, at_nw, Span,
}

-- `handle.includes('w')`, and so on.
abbrev pub drag_left : ResizeHandle → Bool
drag_left at_w = true
drag_left at_sw = true
drag_left at_nw = true
drag_left h = false

abbrev pub drag_right : ResizeHandle → Bool
drag_right at_e = true
drag_right at_ne = true
drag_right at_se = true
drag_right h = false

abbrev pub drag_top : ResizeHandle → Bool
drag_top at_n = true
drag_top at_ne = true
drag_top at_nw = true
drag_top h = false

abbrev pub drag_bottom : ResizeHandle → Bool
drag_bottom at_s = true
drag_bottom at_se = true
drag_bottom at_sw = true
drag_bottom h = false

abbrev pub min_width : ℤ
min_width = pos 96

abbrev pub min_height : ℤ
min_height = pos 64

abbrev pub max_width : ℤ
max_width = pos max_node_width

-- `a < b`
abbrev pub is_less : ℤ → ℤ → Bool
is_less a b = not (leb_ℤ b a)

-- The span that follows the pointer, for a drag at its lower or its upper end.
abbrev pub dragged : Bool → Bool → ℤ → Span → Span
dragged true high d span = record { start = span.start +ℤ d; size = span.size -ℤ d }
dragged false true d span = record { start = span.start; size = span.size +ℤ d }
dragged false false d span = span

-- A span of the size of a limit: it ends where the old one ended, if its lower end is dragged.
abbrev pub cut_to : Bool → ℤ → Span → Span → Span
cut_to low limit old span = record {
  start = if low then old.start +ℤ old.size -ℤ limit else span.start;
  size = limit;
}

abbrev pub at_least : Bool → ℤ → Span → Span → Span
at_least low limit old span = if is_less span.size limit then cut_to low limit old span else span

abbrev pub at_most : Bool → ℤ → Span → Span → Span
at_most low limit old span = if is_less limit span.size then cut_to low limit old span else span

abbrev pub next_horizontal : ResizeHandle → ℤ → Span → Span
next_horizontal h dx old =
    let low = drag_left h in
    at_most low max_width old (at_least low min_width old (dragged low (drag_right h) dx old))

abbrev pub next_vertical : ResizeHandle → ℤ → Span → Span
next_vertical h dy old =
    at_least (drag_top h) min_height old (dragged (drag_top h) (drag_bottom h) dy old)

-- `verticalMatches` and `horizontalMatches`
pub record Match : Type 0 where
  pub delta : ℤ
  pub guide : ℤ
  pub start : ℤ
  pub size : ℤ

-- `Math.abs`
abbrev pub magnitude : ℤ → ℕ
magnitude d = pos_part d + neg_part d

-- `considerVertical` and `considerHorizontal`
abbrev pub consider : (ℤ → Bool) → ℤ → ℤ → ℤ → ℤ → ℤ → List Match
consider fits parent current guide start size =
    let delta = guide -ℤ current in
    if fits size && leb (magnitude delta) 10
    then record { delta = delta; guide = guide; start = start -ℤ parent; size = size } ∷ []
    else []

-- `matches.sort((a, b) => …)[0]`: the first of those with the least distance.
unfoldable pub best : List Match → Option Match
best [] = none
best (m ∷ matches) = elim (best matches) [
  | none ↦ some m
  | some other ↦ if leb (magnitude m.delta) (magnitude other.delta) then some m else some other
]

module _ (half : ℤ → ℤ) (fits : ℤ → Bool) (parent : ℤ) (low high : Bool) (span : Span) where
  -- What one target offers to the span, which is given relative to the parent.
  abbrev pub offers : ℤ → List Match
  offers target =
      let start = parent +ℤ span.start in
      let center = start +ℤ half span.size in
      let end = start +ℤ span.size in
      let below = end -ℤ target in
      let above = target -ℤ start in
      (if low
        then consider fits parent start target target below
          ++ consider fits parent center target (end -ℤ (below +ℤ below)) (below +ℤ below)
        else [])
      ++ (if high
          then consider fits parent end target start above
            ++ consider fits parent center target start (above +ℤ above)
          else [])

  unfoldable pub all_offers : List ℤ → List Match
  all_offers [] = []
  all_offers (target ∷ targets) = offers target ++ all_offers targets

  abbrev pub snapped : List ℤ → Span × Option ℤ
  snapped targets = elim (best (all_offers targets)) as (λ _. Span × Option ℤ) [
    | none ↦ (span, none)
    | some m ↦ (record { start = m.start; size = m.size }, some m.guide)
  ]

-- The three lines of one axis of a node.
abbrev pub lines_of : (ℤ → ℤ) → ℤ → ℤ → List ℤ
lines_of half start size = start ∷ (start +ℤ half size) ∷ (start +ℤ size) ∷ []

abbrev pub fits_width : ℤ → Bool
fits_width width = not (is_less width min_width || is_less max_width width)

abbrev pub fits_height : ℤ → Bool
fits_height height = not (is_less height min_height)

-- `resizedNode.parentId ? nodeMap.get(resizedNode.parentId) : null`, and where it lies.
unfoldable pub parent_position : List (Text × FlowNode) → FlowNode → Position
unfolding get absolute_in
parent_position node_map node = elim (parent_key node) [
  | none ↦ origin
  | some k ↦ elim (get k node_map) [ none ↦ origin | some parent ↦ absolute_in node_map parent ]
]

pub record Aligned : Type 0 where
  pub horizontal : Span
  pub vertical : Span
  pub guides : Guides

module _ (half : ℤ → ℤ) (size_of : FlowNode → Size) where
  -- The lines of all nodes but the one that is resized.
  unfoldable pub targets_x : Text → List (Text × FlowNode) → List (Text × FlowNode) → List ℤ
  unfolding absolute_in text_eq
  targets_x id node_map [] = []
  targets_x id node_map ((k, node) ∷ nodes) =
      let rest = targets_x id node_map nodes in
      if text_eq (node_id node) id
      then rest
      else lines_of half (absolute_in node_map node).x (pos (size_of node).width) ++ rest

  unfoldable pub targets_y : Text → List (Text × FlowNode) → List (Text × FlowNode) → List ℤ
  unfolding absolute_in text_eq
  targets_y id node_map [] = []
  targets_y id node_map ((k, node) ∷ nodes) =
      let rest = targets_y id node_map nodes in
      if text_eq (node_id node) id
      then rest
      else lines_of half (absolute_in node_map node).y (pos (size_of node).height) ++ rest

  unfoldable pub get_resize_alignment :
      FlowNode → Span → Span → List (Text × FlowNode) → ResizeHandle → Aligned
  unfolding targets_x targets_y parent_position all_offers best
  get_resize_alignment node horizontal vertical node_map h =
      let parent = parent_position node_map node in
      let id = node_id node in
      let x =
        snapped half fits_width parent.x (drag_left h) (drag_right h) horizontal
          (targets_x id node_map node_map) in
      let y =
        snapped half fits_height parent.y (drag_top h) (drag_bottom h) vertical
          (targets_y id node_map node_map) in
      record {
        horizontal = x.0;
        vertical = y.0;
        guides = record { vertical = x.1; horizontal = y.1 };
      }

  -- `resizing`: the node, the handle, and the rectangle at the start.
  unfoldable pub resized :
      FlowNode → ResizeHandle → ℤ → ℤ → Span → Span → List (Text × FlowNode) → Aligned
  unfolding get_resize_alignment
  resized node h dx dy start_horizontal start_vertical node_map =
      get_resize_alignment node (next_horizontal h dx start_horizontal)
        (next_vertical h dy start_vertical) node_map h

  abbrev pub shape_to : Aligned → FlowNode → FlowNode
  shape_to aligned node = with_height (some aligned.vertical.size) (
      with_width (some aligned.horizontal.size)
        (with_position (record { x = aligned.horizontal.start; y = aligned.vertical.start }) node))

  abbrev pub shape_node : Text → Aligned → FlowNode → FlowNode
  shape_node id aligned node = if text_eq (node_id node) id then shape_to aligned node else node

  -- `handleMove`; the guides go where nothing is found.
  unfoldable pub resize_move : Text → ResizeHandle → ℤ → ℤ → Span → Span → Editor → Editor
  unfolding get node_map_of text_eq resized
  resize_move id h dx dy start_horizontal start_vertical s =
      let node_map = node_map_of s.flow_spec.nodes in
      elim (get id node_map) [
        | none ↦ record s { alignment_guides = no_guides; dirty = true }
        | some node ↦
            let aligned = resized node h dx dy start_horizontal start_vertical node_map in
            record s {
              flow_spec = set_nodes (map (shape_node id aligned) s.flow_spec.nodes) s.flow_spec;
              alignment_guides = aligned.guides;
              dirty = true;
            }
      ]
