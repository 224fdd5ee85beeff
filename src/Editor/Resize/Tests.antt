-- ===== src/Editor/Resize/Tests.antt =====
-- Resizing a node beside another one.
use mc_gantry.Base.{ℕ, ◌/◌, ◌≡◌, refl, List, [], ◌∷◌, none, Text, codes, text_eq}
use mc_gantry.Base.Int.{ℤ, pos, negsuc, ◌≤ℤ◌, ◌+ℤ◌, ◌-ℤ◌}
use mc_gantry.Flow.Types.{FlowNode, mock, box}
use mc_gantry.Flow.Graph.{node_map_of}
use mc_gantry.Flow.Dimensions.{Size}
use mc_gantry.Editor.Resize.{
  ResizeHandle, at_e, at_nw, drag_left, drag_top, Span, Aligned, min_width, min_height, max_width,
  resized,
}
use mc_gantry.Editor.Resize.Anchors.{IsAnchored}
use mc_gantry.Editor.Resize.Bounds.{resized-IsAnchored}

abbrev half : ℤ → ℤ
half (pos n) = pos (n / 2)
half (negsuc n) = negsuc (n / 2)

abbrev node_at : Text → ℕ → FlowNode
node_at id x = mock (record {
  id = id;
  label = id;
  subtitle = none;
  shape = box;
  color = none;
  width = none;
  height = none;
  position = record { x = pos x; y = pos 0 };
  locked = none;
  z_index = none;
  parent_id = none;
  badge = none;
})

abbrev size_of : FlowNode → Size
size_of node = record { width = 100; height = 80 }

abbrev across : Span
across = record { start = pos 10; size = pos 200 }

abbrev down : Span
down = record { start = pos 20; size = pos 100 }

abbrev nodes : List FlowNode
nodes = node_at (codes "a") 10 ∷ node_at (codes "b") 300 ∷ []

abbrev after : ResizeHandle → ℤ → ℤ → Aligned
after h dx dy =
    resized half size_of (node_at (codes "a") 10) h dx dy across down (node_map_of nodes)

-- The right edge snaps to the other node, and the corner stops at the least size.
resize_tests :
    ((after at_e (pos 85) (pos 0)).horizontal ≡ record { start = pos 10; size = pos 290 })
    × ((after at_nw (pos 500) (pos 500)).horizontal ≡ record { start = pos 114; size = pos 96 })
unfolding resized text_eq node_map_of ◌-ℤ◌ ◌+ℤ◌
resize_tests = (refl, refl)

resized-IsAnchored_example :
    (min_width ≤ℤ (after at_nw (pos 500) (pos 30)).horizontal.size)
    × ((after at_nw (pos 500) (pos 30)).horizontal.size ≤ℤ max_width)
    × (min_height ≤ℤ (after at_nw (pos 500) (pos 30)).vertical.size)
    × IsAnchored (drag_left at_nw) across (after at_nw (pos 500) (pos 30)).horizontal
    × IsAnchored (drag_top at_nw) down (after at_nw (pos 500) (pos 30)).vertical
resized-IsAnchored_example =
    resized-IsAnchored half size_of (node_at (codes "a") 10) at_nw (pos 500) (pos 30) across down
      (node_map_of nodes)
