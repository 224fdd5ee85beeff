-- ===== src/Flow/Bounds/Tests.antt =====
-- The bounds of concrete flows.
use mc_gantry.Base.{◌≡◌, refl, [], ◌∷◌, Option, none, some, Text, codes, text_eq}
use mathlib.Core.List.Memᴰ
use mc_gantry.Base.Int.{pos, ◌+ℤ◌, ◌-ℤ◌}
use mc_gantry.Flow.Types.{FlowNode, FlowSpec, mock, box}
use mc_gantry.Flow.Graph.{absolute_in, node_map_of}
use mc_gantry.Flow.Dimensions.{get_node_dimensions}
use mc_gantry.Flow.Bounds.{IsInside, get_flow_bounds, get_flow_bounds-IsInside}

abbrev step : Text → Option Text → FlowNode
step id parent = mock (record {
  id = id;
  label = id;
  subtitle = none;
  shape = box;
  color = none;
  width = none;
  height = none;
  position = record { x = pos 200; y = pos 100 };
  locked = none;
  z_index = none;
  parent_id = parent;
  badge = none;
})

abbrev own_text : FlowNode → Option Text × Option Text
own_text node = (none, none)

-- A step in another one.
abbrev spec : FlowSpec
spec = record {
  viewport = record { x = pos 0; y = pos 0; zoom = pos 1 };
  nodes = step (codes "a") none ∷ step (codes "b") (some (codes "a")) ∷ [];
  edges = [];
}

bounds_tests :
    ((get_flow_bounds own_text spec).extent.min_x ≡ pos 136)
    × ((get_flow_bounds own_text spec).extent.max_x ≡ pos 644)
    × ((get_flow_bounds own_text spec).width ≡ pos 508)
unfolding get_flow_bounds text_eq ◌+ℤ◌ ◌-ℤ◌
bounds_tests = (refl, refl, refl)

get_flow_bounds-IsInside_example :
    IsInside 64
      (absolute_in (node_map_of spec.nodes) (step (codes "b") (some (codes "a"))))
      (get_node_dimensions (step (codes "b") (some (codes "a"))) none none)
      (get_flow_bounds own_text spec).extent
get_flow_bounds-IsInside_example =
    get_flow_bounds-IsInside own_text spec (step (codes "b") (some (codes "a")))
      (Memᴰ.tail (Memᴰ.head refl))
