-- ===== src/Editor/Nodes.antt =====
-- Handlers that change the selected nodes in place: `nudgeSelectedNodes`, `toggleLockSelected`,
-- `adjustZIndex` and `updateNode` of web/src/pages/Flow.tsx.
use mc_gantry.Base.{
  Bool, true, false, ◌&&◌, not, List, [], ◌∷◌, Option, none, some, map, any, if◌then◌else◌, Text,
  text_eq,
}
use mc_gantry.Base.Int.{ℤ, pos, ◌+ℤ◌, ◌-ℤ◌, min_ℤ, max_ℤ}
use mc_gantry.Base.Map.{mem}
use mc_gantry.Flow.Types.{FlowNode, FlowMockShape, Position, node_id, node_position}
use mc_gantry.Flow.Graph.{parent_key}
use mc_gantry.Flow.Fields.{
  with_position, with_locked, with_z_index, with_badge, with_shape, with_width, with_height,
  with_label, with_subtitle, with_color, node_locked, node_z_index,
}
use mc_gantry.Editor.State.{Editor, where_allowed, where_selected, set_nodes, changed, touched}

-- `node.parentId && ids.has(node.parentId)`
unfoldable pub has_parent_among : List Text → FlowNode → Bool
unfolding mem
has_parent_among ids node = elim (parent_key node) [ none ↦ false | some k ↦ mem k ids ]

-- Whether a nudge moves the node: it is selected, not locked, and not carried by its parent.
unfoldable pub is_nudged : List Text → FlowNode → Bool
unfolding mem has_parent_among
is_nudged ids node =
    mem (node_id node) ids && not (node_locked node) && not (has_parent_among ids node)

abbrev pub moved_by : ℤ → ℤ → FlowNode → FlowNode
moved_by dx dy node =
    with_position (record { x = (node_position node).x +ℤ dx; y = (node_position node).y +ℤ dy })
      node

abbrev pub nudge_node : List Text → ℤ → ℤ → FlowNode → FlowNode
nudge_node ids dx dy node = if is_nudged ids node then moved_by dx dy node else node

-- `moved` is read right after `setFlowSpec`, whose argument sets it: `at_once` tells whether React has
-- called that argument by then, which it does only where no other update of the flow waits.
unfoldable pub nudge_selected_nodes : Bool → ℤ → ℤ → Editor → Editor
unfolding is_nudged any
nudge_selected_nodes at_once dx dy s =
    let ids = s.selected_node_ids in
    let spec = set_nodes (map (nudge_node ids dx dy) s.flow_spec.nodes) s.flow_spec in
    where_selected s (
      if at_once && any (is_nudged ids) s.flow_spec.nodes
      then changed spec s
      else record s { flow_spec = spec })

abbrev pub lock_node : List Text → Bool → FlowNode → FlowNode
lock_node ids some_unlocked node =
    if mem (node_id node) ids
    then with_locked (if some_unlocked then some true else none) node
    else node

unfoldable pub toggle_lock_selected : Editor → Editor
unfolding mem any
toggle_lock_selected s =
    let ids = s.selected_node_ids in
    let some_unlocked = any (λ n. mem (node_id n) ids && not (node_locked n)) s.flow_spec.nodes in
    where_selected s
      (touched (set_nodes (map (lock_node ids some_unlocked) s.flow_spec.nodes) s.flow_spec) s)

-- `delta: number | 'front' | 'back'`
pub data Delta : Type 0 where
  front back : Delta
  by : ℤ → Delta

-- `node.zIndex ?? 0`
abbrev pub z_of : FlowNode → ℤ
z_of node = elim (node_z_index node) [ none ↦ pos 0 | some z ↦ z ]

-- `Math.max(0, ...allZ)` and `Math.min(0, ...allZ)`
unfoldable pub max_z : List FlowNode → ℤ
unfolding max_ℤ
max_z [] = pos 0
max_z (node ∷ nodes) = max_ℤ (z_of node) (max_z nodes)

unfoldable pub min_z : List FlowNode → ℤ
unfolding min_ℤ
min_z [] = pos 0
min_z (node ∷ nodes) = min_ℤ (z_of node) (min_z nodes)

abbrev pub next_z : Delta → List FlowNode → FlowNode → ℤ
next_z front nodes node = max_z nodes +ℤ pos 1
next_z back nodes node = min_z nodes -ℤ pos 1
next_z (by delta) nodes node = z_of node +ℤ delta

abbrev pub raise_node : List Text → Delta → List FlowNode → FlowNode → FlowNode
raise_node ids delta nodes node =
    if mem (node_id node) ids then with_z_index (some (next_z delta nodes node)) node else node

unfoldable pub adjust_z_index : Delta → Editor → Editor
unfolding mem max_z min_z
adjust_z_index delta s =
    let nodes = s.flow_spec.nodes in
    where_selected s
      (touched (set_nodes (map (raise_node s.selected_node_ids delta nodes) nodes) s.flow_spec) s)

-- The patches that the panel of the selected node hands to `updateNode`.
pub data Patch : Type 0 where
  badge : Option Text → Patch
  shape : FlowMockShape → Patch
  label subtitle color : Text → Patch
  width height : Option ℤ → Patch
  position : Position → Patch
  locked : Option Bool → Patch

abbrev pub patched : Patch → FlowNode → FlowNode
patched (badge b) node = with_badge b node
patched (shape s) node = with_shape s node
patched (label t) node = with_label t node
patched (subtitle t) node = with_subtitle t node
patched (color t) node = with_color t node
patched (width w) node = with_width w node
patched (height h) node = with_height h node
patched (position p) node = with_position p node
patched (locked l) node = with_locked l node

abbrev pub patch_node : Text → Patch → FlowNode → FlowNode
patch_node id patch node = if text_eq (node_id node) id then patched patch node else node

unfoldable pub update_node : Text → Patch → Editor → Editor
unfolding text_eq
update_node id patch s =
    where_allowed s
      (changed (set_nodes (map (patch_node id patch) s.flow_spec.nodes) s.flow_spec) s)
