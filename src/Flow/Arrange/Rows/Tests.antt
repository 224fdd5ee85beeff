-- ===== src/Flow/Arrange/Rows/Tests.antt =====
-- Arranging concrete flows.
use mc_gantry.Base.{
  ℕ, ◌/◌, ◌≡◌, refl, false, List, [], ◌∷◌, Option, none, some, map, Text, codes, text_eq,
}
use mc_gantry.Base.Int.{ℤ, pos, negsuc, ◌+ℤ◌, ◌-ℤ◌}
use mc_gantry.Flow.Types.{FlowNode, FlowEdge, mock, box, one_way, node_position}
use mc_gantry.Flow.Arrange.{levels_of}
use mc_gantry.Flow.Arrange.Ends.{levels_of-ends}
use mc_gantry.Flow.Arrange.Rows.{get_node_effective_bounds, place_row, auto_arrange_nodes}
use mc_gantry.Flow.Arrange.Rows.Spaced.{IsSpaced, IsApart, row-IsSpaced}

abbrev half : ℤ → ℤ
half (pos n) = pos (n / 2)
half (negsuc n) = negsuc (n / 2)

abbrev step : Text → Option Text → FlowNode
step id parent = mock (record {
  id = id;
  label = id;
  subtitle = none;
  shape = box;
  color = none;
  width = none;
  height = none;
  position = record { x = pos 500; y = pos 10 };
  locked = none;
  z_index = none;
  parent_id = parent;
  badge = none;
})

abbrev link : Text → Text → FlowEdge
link source target = record {
  id = codes "e";
  source = source;
  target = target;
  relation = codes "calls";
  direction = one_way;
  label = none;
  animated = false;
  source_handle = none;
  target_handle = none;
}

abbrev a : Text
a = codes "a"

abbrev b : Text
b = codes "b"

abbrev c : Text
c = codes "c"

abbrev steps : List FlowNode
steps = step a none ∷ step b none ∷ step c none ∷ []

-- A chain with a short cut, and a cycle behind a node.
level_tests :
    (levels_of steps (link a c ∷ link a b ∷ link b c ∷ []) ≡ some ((a, 0) ∷ (c, 2) ∷ (b, 1) ∷ []))
    × (levels_of steps (link a b ∷ link b c ∷ link c b ∷ []) ≡ some ((a, 0) ∷ (b, 1) ∷ (c, 2) ∷ []))
unfolding levels_of text_eq ◌-ℤ◌
level_tests = (refl, refl)

levels_of-ends_example :
    (levels : List (Text × ℕ)) × (levels_of steps (link a b ∷ link b c ∷ link c b ∷ [])
      ≡ some levels)
levels_of-ends_example = levels_of-ends steps (link a b ∷ link b c ∷ link c b ∷ [])

-- A step with another one in it, beside a third.
abbrev nested_steps : List FlowNode
nested_steps = step a none ∷ step b (some a) ∷ step c none ∷ []

row-IsSpaced_example : IsSpaced (IsApart nested_steps) (
    place_row
      (λ n. get_node_effective_bounds n nested_steps)
      half
      (pos 48)
      (pos 300)
      (pos 48)
      (step a none ∷ step c none ∷ []))
row-IsSpaced_example =
    row-IsSpaced half nested_steps (pos 48) (pos 300) (pos 48) (step a none ∷ step c none ∷ [])

abbrev arranged_nodes : List FlowNode
arranged_nodes =
    (auto_arrange_nodes half (record {
      viewport = record { x = pos 0; y = pos 0; zoom = pos 1 };
      nodes = steps;
      edges = link a b ∷ link a c ∷ [];
    })).nodes

-- The first step stands over the middle of the other two.
arrange_test :
    map node_position arranged_nodes
    ≡ record { x = pos 178; y = pos 48 }
      ∷ record { x = pos 48; y = pos 250 }
      ∷ record { x = pos 308; y = pos 250 }
      ∷ []
unfolding auto_arrange_nodes text_eq ◌+ℤ◌ ◌-ℤ◌
arrange_test = refl
