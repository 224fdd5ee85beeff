-- ===== src/Flow/Dimensions/Tests.antt =====
-- Sizes at concrete nodes.
use mc_gantry.Base.{◌≡◌, refl, some, none, codes}
use mc_gantry.Base.Int.{pos}
use mc_gantry.Flow.Types.{FlowMockNode, mock, diamond}
use mc_gantry.Flow.Dimensions.{get_node_dimensions, estimate_wrapped_lines}
use mc_gantry.Flow.Dimensions.Bounds.{IsDrawable, get_node_dimensions-IsDrawable}

abbrev step : FlowMockNode
step = record {
  id = codes "m1";
  label = codes "Decide";
  subtitle = none;
  shape = diamond;
  color = none;
  width = some (pos 300);
  height = none;
  position = record { x = pos 0; y = pos 0 };
  locked = none;
  z_index = none;
  parent_id = none;
  badge = none;
}

dimension_tests :
    (get_node_dimensions (mock step) none none ≡ record { width = 300; height = 120 })
    × (estimate_wrapped_lines (codes "a b c d") 3 ≡ 3)
unfolding get_node_dimensions estimate_wrapped_lines
dimension_tests = (refl, refl)

get_node_dimensions-IsDrawable_example :
    IsDrawable (mock step) (get_node_dimensions (mock step) none none)
get_node_dimensions-IsDrawable_example = get_node_dimensions-IsDrawable (mock step) none none
