-- ===== src/Flow/Graph/Tests.antt =====
-- Nesting at concrete flows.
use mc_gantry.Base.{◌≡◌, refl, ◌↔◌, true, List, [], ◌∷◌, Option, none, some, Text, codes, text_eq}
use mc_gantry.Base.Int.{pos, ◌+ℤ◌}
use mc_gantry.Base.Map.{mem, get}
use mc_gantry.Flow.Types.{FlowNode, mock, box, Position}
use mc_gantry.Flow.Graph.{node_map_of, get_absolute_position, collect_descendants, add_position}
use mc_gantry.Flow.Graph.Absolute.{
  get_absolute_position-ends, get_absolute_position-Placed, Placed, parent_of,
}
use mc_gantry.Flow.Graph.Descendants.{Below, collect_descendants-decides}

abbrev step : Text → Option Text → FlowNode
step id parent = mock (record {
  id = id;
  label = id;
  subtitle = none;
  shape = box;
  color = none;
  width = none;
  height = none;
  position = record { x = pos 10; y = pos 1 };
  locked = none;
  z_index = none;
  parent_id = parent;
  badge = none;
})

abbrev nested : List FlowNode
nested =
    step (codes "a") none
    ∷ step (codes "b") (some (codes "a"))
    ∷ step (codes "c") (some (codes "b"))
    ∷ []

-- Two nodes that lie in each other.
abbrev cyclic : List FlowNode
cyclic = step (codes "a") (some (codes "b")) ∷ step (codes "b") (some (codes "a")) ∷ []

graph_tests :
    (get_absolute_position (node_map_of nested) (step (codes "c") (some (codes "b")))
      ≡ some (record { x = pos 30; y = pos 3 }))
    × (get_absolute_position (node_map_of cyclic) (step (codes "a") (some (codes "b")))
        ≡ some (record { x = pos 30; y = pos 3 }))
    × (collect_descendants nested (codes "a") ≡ some (codes "b" ∷ codes "c" ∷ []))
    × (collect_descendants cyclic (codes "a") ≡ some (codes "b" ∷ codes "a" ∷ []))
unfolding get_absolute_position node_map_of collect_descendants ◌+ℤ◌ text_eq
graph_tests = (refl, refl, refl, refl)

get_absolute_position-ends_example :
    (q : Position) × (get_absolute_position
        (node_map_of cyclic)
        (step (codes "a") (some (codes "b")))
      ≡ some q)
get_absolute_position-ends_example =
    get_absolute_position-ends cyclic (step (codes "a") (some (codes "b")))

b-Placed :
    Placed
      (node_map_of nested)
      1
      (step (codes "b") (some (codes "a")))
      (add_position (record { x = pos 10; y = pos 1 }) (record { x = pos 10; y = pos 1 }))
unfolding parent_of node_map_of text_eq
b-Placed = (step (codes "a") none, record { x = pos 10; y = pos 1 }, refl, (refl, refl), refl)

b_there : get (codes "b") (node_map_of nested) ≡ some (step (codes "b") (some (codes "a")))
unfolding node_map_of get text_eq
b_there = refl

get_absolute_position-Placed_example :
    get_absolute_position (node_map_of nested) (step (codes "b") (some (codes "a")))
    ≡ some (add_position (record { x = pos 10; y = pos 1 }) (record { x = pos 10; y = pos 1 }))
get_absolute_position-Placed_example =
    get_absolute_position-Placed nested (step (codes "b") (some (codes "a"))) 1
      (add_position (record { x = pos 10; y = pos 1 }) (record { x = pos 10; y = pos 1 })) b_there
      b-Placed

collect_descendants-decides_example :
    (d : List Text) × (collect_descendants cyclic (codes "a") ≡ some d)
    × ((id : Text) → (mem id d ≡ true) ↔ Below cyclic (codes "a") id)
collect_descendants-decides_example = collect_descendants-decides cyclic (codes "a")
