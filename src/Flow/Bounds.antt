-- ===== src/Flow/Bounds.antt =====
-- `getFlowBounds` of web/src/pages/Flow.tsx: the rectangle around a flow. `resolve_text` gives the title
-- and the subtitle that are shown for a node, where they differ from its own.
mod Tests
use mc_gantry.Base.{
  ℕ, ◌+◌, ◌≤◌, ◌≡◌, refl, subst, ◌⊎◌, inl, inr, ⊎_elim, List, [], ◌∷◌, Option, none, some, Memᴰ,
  arith, Text, if◌then◌else◌,
}
use mathlib.Core.List.Memᴰ
use mc_gantry.Base.Int.{
  ℤ, pos, pos_part, neg_part, ◌+ℤ◌, ◌-ℤ◌, ◌≤ℤ◌, min_ℤ, max_ℤ, +ℤ_parts, -ℤ_parts,
}
use mc_gantry.Flow.Types.{FlowNode, FlowSpec, Position}
use mc_gantry.Flow.Graph.{absolute_in, node_map_of}
use mc_gantry.Flow.Dimensions.{Size, get_node_dimensions}

-- A rectangle from its least to its greatest coordinates.
pub record Extent : Type 0 where
  pub min_x : ℤ
  pub min_y : ℤ
  pub max_x : ℤ
  pub max_y : ℤ

pub record FlowBounds : Type 0 where
  pub extent : Extent
  pub width : ℤ
  pub height : ℤ

-- The rectangle of one node.
unfoldable pub extent_of :
    (FlowNode → Option Text × Option Text) → List (Text × FlowNode) → FlowNode → Extent
unfolding get_node_dimensions absolute_in
extent_of resolve_text node_map node =
    let size = get_node_dimensions node (resolve_text node).0 (resolve_text node).1 in
    let abs_pos = absolute_in node_map node in
    record {
      min_x = abs_pos.x;
      min_y = abs_pos.y;
      max_x = abs_pos.x +ℤ pos size.width;
      max_y = abs_pos.y +ℤ pos size.height;
    }

unfoldable pub join : Extent → Extent → Extent
unfolding min_ℤ max_ℤ
join a b = record {
  min_x = min_ℤ a.min_x b.min_x;
  min_y = min_ℤ a.min_y b.min_y;
  max_x = max_ℤ a.max_x b.max_x;
  max_y = max_ℤ a.max_y b.max_y;
}

-- The loop over the nodes; the first one takes the place of the infinite start.
unfoldable pub join_all : (FlowNode → Extent) → Extent → List FlowNode → Extent
unfolding join
join_all extent e [] = e
join_all extent e (node ∷ nodes) = join_all extent (join e (extent node)) nodes

-- With `CONTENT_PADDING` on all sides.
abbrev pub padded : Extent → Extent
padded e = record {
  min_x = e.min_x -ℤ pos 64;
  min_y = e.min_y -ℤ pos 64;
  max_x = e.max_x +ℤ pos 64;
  max_y = e.max_y +ℤ pos 64;
}

abbrev pub measured : Extent → FlowBounds
measured e = record {
  extent = e;
  width = max_ℤ (pos 1) (e.max_x -ℤ e.min_x);
  height = max_ℤ (pos 1) (e.max_y -ℤ e.min_y);
}

unfoldable pub bounds_of_nodes : (FlowNode → Extent) → List FlowNode → FlowBounds
unfolding join_all max_ℤ
bounds_of_nodes extent [] = record {
  extent = record { min_x = pos 0; min_y = pos 0; max_x = pos 1600; max_y = pos 900 };
  width = pos 1600;
  height = pos 900;
}
bounds_of_nodes extent (node ∷ nodes) = measured (padded (join_all extent (extent node) nodes))

unfoldable pub get_flow_bounds : (FlowNode → Option Text × Option Text) → FlowSpec → FlowBounds
unfolding bounds_of_nodes extent_of node_map_of
get_flow_bounds resolve_text spec =
    bounds_of_nodes (extent_of resolve_text (node_map_of spec.nodes)) spec.nodes

-- A rectangle of the given size at `p` lies in `b`, with `pad` units to spare on all sides.
pub record IsInside (pad : ℕ) (p : Position) (size : Size) (b : Extent) : Type 0 where
  pub left : b.min_x +ℤ pos pad ≤ℤ p.x
  pub above : b.min_y +ℤ pos pad ≤ℤ p.y
  pub right : p.x +ℤ pos size.width +ℤ pos pad ≤ℤ b.max_x
  pub below : p.y +ℤ pos size.height +ℤ pos pad ≤ℤ b.max_y

-- Without room to spare, in the order of the coordinates.
abbrev Holds : Extent → Extent → Type 0
Holds b a =
    (b.min_x ≤ℤ a.min_x) × (b.min_y ≤ℤ a.min_y) × (a.max_x ≤ℤ b.max_x) × (a.max_y ≤ℤ b.max_y)

min_left : (a b : ℤ) → min_ℤ a b ≤ℤ a
unfolding min_ℤ
min_left a b = ground arith

min_right : (a b : ℤ) → min_ℤ a b ≤ℤ b
unfolding min_ℤ
min_right a b = ground arith

max_left : (a b : ℤ) → a ≤ℤ max_ℤ a b
unfolding max_ℤ
max_left a b = ground arith

max_right : (a b : ℤ) → b ≤ℤ max_ℤ a b
unfolding max_ℤ
max_right a b = ground arith

≤ℤ-trans : (a b c : ℤ) → a ≤ℤ b → b ≤ℤ c → a ≤ℤ c
≤ℤ-trans a b c h k = omega arith

Holds-trans : (a b c : Extent) → Holds a b → Holds b c → Holds a c
Holds-trans a b c (h, i, j, k) (h', i', j', k') = (
  ≤ℤ-trans a.min_x b.min_x c.min_x h h',
  ≤ℤ-trans a.min_y b.min_y c.min_y i i',
  ≤ℤ-trans c.max_x b.max_x a.max_x j' j,
  ≤ℤ-trans c.max_y b.max_y a.max_y k' k,
)

join-Holds : (a b : Extent) → Holds (join a b) a × Holds (join a b) b
unfolding join
join-Holds a b = (
  (
    min_left a.min_x b.min_x,
    min_left a.min_y b.min_y,
    max_left a.max_x b.max_x,
    max_left a.max_y b.max_y,
  ),
  (
    min_right a.min_x b.min_x,
    min_right a.min_y b.min_y,
    max_right a.max_x b.max_x,
    max_right a.max_y b.max_y,
  ),
)

join_all-Holds :
    (extent : FlowNode → Extent) (e : Extent) (nodes : List FlowNode)
    → Holds (join_all extent e nodes) e
unfolding join_all
join_all-Holds extent e [] = (omega arith, omega arith, omega arith, omega arith)
join_all-Holds extent e (node ∷ nodes) =
    Holds-trans (join_all extent (join e (extent node)) nodes) (join e (extent node)) e
      (join_all-Holds extent (join e (extent node)) nodes) (join-Holds e (extent node)).0

join_all-Holds_node :
    (extent : FlowNode → Extent) (e : Extent) (nodes : List FlowNode) (n : FlowNode)
    → Memᴰ n nodes
    → Holds (join_all extent e nodes) (extent n)
unfolding join_all
join_all-Holds_node extent e [] n m = absurd (Memᴰ.not-nil m)
join_all-Holds_node extent e (node ∷ nodes) n m = elim (Memᴰ.cases_cons m) [
  | inl here ↦ rw here (
      Holds-trans (join_all extent (join e (extent node)) nodes) (join e (extent node))
        (extent node) (join_all-Holds extent (join e (extent node)) nodes)
        (join-Holds e (extent node)).1)
  | inr later ↦ join_all-Holds_node extent (join e (extent node)) nodes n later
]

padded-IsInside :
    (e : Extent) (p : Position) (size : Size)
    → Holds e (record {
      min_x = p.x;
      min_y = p.y;
      max_x = p.x +ℤ pos size.width;
      max_y = p.y +ℤ pos size.height;
    })
    → IsInside 64 p size (padded e)
padded-IsInside e p size (h, i, j, k) = record {
  left = omega (arith, -ℤ_parts e.min_x (pos 64), +ℤ_parts (e.min_x -ℤ pos 64) (pos 64));
  above = omega (arith, -ℤ_parts e.min_y (pos 64), +ℤ_parts (e.min_y -ℤ pos 64) (pos 64));
  right = omega (arith, +ℤ_parts e.max_x (pos 64), +ℤ_parts (p.x +ℤ pos size.width) (pos 64));
  below = omega (arith, +ℤ_parts e.max_y (pos 64), +ℤ_parts (p.y +ℤ pos size.height) (pos 64));
}

-- Every node of a flow lies within its bounds, at least 64 units from each side: the rectangle at its
-- absolute position that has its size, with the text that is shown for it.
pub get_flow_bounds-IsInside :
    (resolve_text : FlowNode → Option Text × Option Text) (spec : FlowSpec) (n : FlowNode)
    → Memᴰ n spec.nodes
    → IsInside 64
        (absolute_in (node_map_of spec.nodes) n)
        (get_node_dimensions n (resolve_text n).0 (resolve_text n).1)
        (get_flow_bounds resolve_text spec).extent
unfolding get_flow_bounds
get_flow_bounds-IsInside resolve_text spec n m =
    of_nodes (extent_of resolve_text (node_map_of spec.nodes)) spec.nodes m
      (unfold extent_of in refl)
  where
    of_nodes :
        (extent : FlowNode → Extent) (nodes : List FlowNode)
        → Memᴰ n nodes
        → extent n ≡ record {
          min_x = (absolute_in (node_map_of spec.nodes) n).x;
          min_y = (absolute_in (node_map_of spec.nodes) n).y;
          max_x =
              (absolute_in (node_map_of spec.nodes) n).x
              +ℤ pos (get_node_dimensions n (resolve_text n).0 (resolve_text n).1).width;
          max_y =
              (absolute_in (node_map_of spec.nodes) n).y
              +ℤ pos (get_node_dimensions n (resolve_text n).0 (resolve_text n).1).height;
        }
        → IsInside 64
            (absolute_in (node_map_of spec.nodes) n)
            (get_node_dimensions n (resolve_text n).0 (resolve_text n).1)
            (bounds_of_nodes extent nodes).extent
    of_nodes extent [] m e = absurd (Memᴰ.not-nil m)
    of_nodes extent (node ∷ nodes) m e = padded-IsInside (join_all extent (extent node) nodes) _ _ (
        subst (Holds (join_all extent (extent node) nodes)) e (
          ⊎_elim (λ here. at_first extent node nodes here)
            (λ later. join_all-Holds_node extent (extent node) nodes n later) (Memᴰ.cases_cons m)))
      where
        at_first :
            (extent : FlowNode → Extent) (node : FlowNode) (nodes : List FlowNode)
            → n ≡ node
            → Holds (join_all extent (extent node) nodes) (extent n)
        at_first extent node nodes here = rw here (join_all-Holds extent (extent node) nodes)
