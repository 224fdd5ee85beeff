-- ===== src/Flow/Arrange/Rows.antt =====
-- The rows of `autoArrangeNodes` of web/src/lib/flow.tsx, one for each level, with `getNodeEffectiveBounds`.
-- `half` stands for the division by two. The bounds of a node are computed where the source keeps them
-- by id, which is the same for nodes with distinct ids.
pub mod Spaced
mod Tests
use mc_gantry.Base.{
  ℕ, zero, suc, ◌+◌, ◌*◌, ◌-◌, max, Bool, true, false, ◌||◌, not, ◌==◌, ltb, leb, List, [], ◌∷◌,
  ◌++◌, Option, none, some, map, filter, length, if◌then◌else◌, Text, text_eq,
}
use mc_gantry.Base.Int.{ℤ, pos, ◌+ℤ◌, ◌-ℤ◌, min_ℤ, max_ℤ}
use mc_gantry.Base.Map.{get, set, mem}
use mc_gantry.Flow.Types.{FlowNode, FlowSpec, Position, node_id, node_position}
use mc_gantry.Flow.Graph.{absolute_in, collect_descendants, node_map_of}
use mc_gantry.Flow.Dimensions.{get_node_dimensions}
use mc_gantry.Flow.Fields.{with_position}
use mc_gantry.Flow.Arrange.{is_top_level, neighbours, links_of, level_or_zero, levels_of}

-- Relative to the node itself.
pub record Bounds : Type 0 where
  pub min_x : ℤ
  pub min_y : ℤ
  pub max_x : ℤ
  pub max_y : ℤ

-- `included.has(node.id)`; the search always ends, so that its second case is none.
unfoldable pub is_included : List FlowNode → Text → Text → Bool
unfolding collect_descendants mem text_eq
is_included nodes root id = text_eq id root || (elim (collect_descendants nodes root) [
  | none ↦ false
  | some descendants ↦ mem id descendants
])

abbrev pub stretch : FlowNode → Position → Position → Bounds → Bounds
stretch node root_abs abs b =
    let dim = get_node_dimensions node none none in
    let rel_x = abs.x -ℤ root_abs.x in
    let rel_y = abs.y -ℤ root_abs.y in
    record {
      min_x = min_ℤ b.min_x rel_x;
      min_y = min_ℤ b.min_y rel_y;
      max_x = max_ℤ b.max_x (rel_x +ℤ pos dim.width);
      max_y = max_ℤ b.max_y (rel_y +ℤ pos dim.height);
    }

unfoldable pub stretch_all :
    (FlowNode → Bool) → (FlowNode → Position) → Position → List FlowNode → Bounds → Bounds
unfolding min_ℤ max_ℤ get_node_dimensions
stretch_all included abs root_abs [] b = b
stretch_all included abs root_abs (node ∷ nodes) b =
    let next = stretch node root_abs (abs node) b in
    if included node
    then stretch_all included abs root_abs nodes next
    else stretch_all included abs root_abs nodes b

unfoldable pub get_node_effective_bounds : FlowNode → List FlowNode → Bounds
unfolding stretch_all absolute_in node_map_of is_included get_node_dimensions
get_node_effective_bounds root nodes =
    let node_map = node_map_of nodes in
    let size = get_node_dimensions root none none in
    stretch_all (λ node. is_included nodes (node_id root) (node_id node)) (absolute_in node_map)
      (absolute_in node_map root) nodes
      (record { min_x = pos 0; min_y = pos 0; max_x = pos size.width; max_y = pos size.height })

abbrev pub width_of : Bounds → ℤ
width_of b = b.max_x -ℤ b.min_x

abbrev pub height_of : Bounds → ℤ
height_of b = b.max_y -ℤ b.min_y

-- `[...byLevel.keys()].sort((a, b) => a - b)`
unfoldable pub insert_level : ℕ → List ℕ → List ℕ
insert_level l [] = l ∷ []
insert_level l (k ∷ ks) =
    let rest = insert_level l ks in
    if l == k then k ∷ ks else if ltb l k then l ∷ k ∷ ks else k ∷ rest

unfoldable pub sorted_levels : List (Text × ℕ) → List FlowNode → List ℕ
unfolding insert_level get
sorted_levels level [] = []
sorted_levels level (n ∷ nodes) =
    insert_level (level_or_zero (node_id n) level) (sorted_levels level nodes)

abbrev pub nodes_at : List (Text × ℕ) → ℕ → List FlowNode → List FlowNode
nodes_at level lv nodes = filter (λ n. level_or_zero (node_id n) level == lv) nodes

-- `prevIndex`
unfoldable pub index_from : ℕ → List FlowNode → List (Text × ℕ) → List (Text × ℕ)
unfolding set
index_from i [] m = m
index_from i (n ∷ nodes) m = index_from (suc i) nodes (set (node_id n) i m)

-- The sum and the number of the indices of the predecessors that have one.
unfoldable pub sum_of : List (Text × ℕ) → List Text → ℕ × ℕ
unfolding get
sum_of index [] = (0, 0)
sum_of index (p ∷ preds) =
    let (total, count) = sum_of index preds in
    elim (get p index) as (λ _. ℕ × ℕ) [ none ↦ (total, count) | some i ↦ (i + total, suc count) ]

-- `barycenter(a) - barycenter(b)` is not positive, or no number: a sum over no predecessors is infinite.
unfoldable pub is_before : ℕ × ℕ → ℕ × ℕ → Bool
is_before (total, zero) (other, zero) = true
is_before (total, zero) (other, suc count) = false
is_before (total, suc count) (other, zero) = true
is_before (total, suc count) (other, suc count') = leb (total * suc count') (other * suc count)

unfoldable pub insert_node : (FlowNode → ℕ × ℕ) → FlowNode → List FlowNode → List FlowNode
unfolding is_before
insert_node barycenter x [] = x ∷ []
insert_node barycenter x (y ∷ nodes) =
    let rest = insert_node barycenter x nodes in
    if is_before (barycenter x) (barycenter y) then x ∷ y ∷ nodes else y ∷ rest

unfoldable pub sort_nodes : (FlowNode → ℕ × ℕ) → List FlowNode → List FlowNode
unfolding insert_node
sort_nodes barycenter [] = []
sort_nodes barycenter (x ∷ nodes) = insert_node barycenter x (sort_nodes barycenter nodes)

-- The nodes of each level, those after the first level in the order of their predecessors before.
unfoldable pub order_rows :
    List (Text × List Text) → List FlowNode → List (List FlowNode) → List (List FlowNode)
unfolding sort_nodes index_from sum_of get
order_rows incoming previous [] = []
order_rows incoming previous (nodes ∷ rows) =
    let index = index_from 0 previous [] in
    let ordered = sort_nodes (λ n. sum_of index (neighbours (node_id n) incoming)) nodes in
    ordered ∷ order_rows incoming ordered rows

abbrev pub ordered_rows : List (Text × List Text) → List (List FlowNode) → List (List FlowNode)
ordered_rows incoming [] = []
ordered_rows incoming (first ∷ rows) = first ∷ order_rows incoming first rows

module _ (bounds : FlowNode → Bounds) where
  unfoldable pub row_height : List FlowNode → ℤ
  unfolding max_ℤ
  row_height [] = pos 0
  row_height (n ∷ nodes) = max_ℤ (height_of (bounds n)) (row_height nodes)

  unfoldable pub widths : List FlowNode → ℤ
  widths [] = pos 0
  widths (n ∷ nodes) = width_of (bounds n) +ℤ widths nodes

  -- With the gaps between the nodes.
  unfoldable pub row_width : List FlowNode → ℤ
  unfolding widths
  row_width nodes = widths nodes +ℤ pos ((length nodes - 1) * 80)

  unfoldable pub max_row_width : List (List FlowNode) → ℤ
  unfolding row_width max_ℤ
  max_row_width [] = pos 0
  max_row_width (nodes ∷ rows) = max_ℤ (row_width nodes) (max_row_width rows)

  module _ (half : ℤ → ℤ) where
    -- One row, from left to right.
    unfoldable pub place_row : ℤ → ℤ → ℤ → List FlowNode → List (FlowNode × Position)
    place_row row_y level_h x [] = []
    place_row row_y level_h x (n ∷ nodes) =
        let b = bounds n in
        (n, record { x = x -ℤ b.min_x; y = row_y +ℤ half (level_h -ℤ height_of b) -ℤ b.min_y })
        ∷ place_row row_y level_h (x +ℤ width_of b +ℤ pos 80) nodes

    -- The rows from top to bottom, each in the middle of the widest.
    unfoldable pub place_rows : ℤ → ℤ → List (List FlowNode) → List (FlowNode × Position)
    unfolding place_row row_height row_width
    place_rows max_width row_y [] = []
    place_rows max_width row_y (nodes ∷ rows) =
        place_row row_y (row_height nodes) (pos 48 +ℤ half (max_width -ℤ row_width nodes)) nodes
        ++ place_rows max_width (row_y +ℤ row_height nodes +ℤ pos 110) rows

unfoldable pub new_positions :
    List (FlowNode × Position) → List (Text × Position) → List (Text × Position)
unfolding set
new_positions [] m = m
new_positions ((n, p) ∷ placed) m = new_positions placed (set (node_id n) p m)

unfoldable pub moved_to : List (Text × Position) → FlowNode → FlowNode
unfolding get
moved_to positions node = elim (get (node_id node) positions) [
  | none ↦ node
  | some p ↦ with_position p node
]

module _ (half : ℤ → ℤ) where
  abbrev pub arranged : List (Text × ℕ) → List FlowNode → FlowSpec → FlowSpec
  arranged level top_level spec =
      let bounds = λ (n : FlowNode). get_node_effective_bounds n spec.nodes in
      let rows =
        ordered_rows (links_of top_level spec.edges).incoming
          (map (λ lv. nodes_at level lv top_level) (sorted_levels level top_level)) in
      let positions =
        new_positions (place_rows bounds half (max_row_width bounds rows) (pos 48) rows) [] in
      record spec { nodes = map (moved_to positions) spec.nodes }

  -- `levels_of` always gives levels, so that the last case is none.
  unfoldable pub auto_arrange_nodes : FlowSpec → FlowSpec
  unfolding levels_of links_of get_node_effective_bounds order_rows sorted_levels place_rows
      max_row_width new_positions moved_to filter get
  auto_arrange_nodes spec = elim (filter is_top_level spec.nodes) [
    | [] ↦ spec
    | first ∷ others ↦ elim (levels_of (first ∷ others) spec.edges) [
      | some level ↦ arranged level (first ∷ others) spec
      | none ↦ spec
    ]
  ]
