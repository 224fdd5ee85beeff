-- ===== src/Flow/Fields.antt =====
-- A node with one of its fields changed (`{ ...node, field }`), for both kinds of nodes of
-- web/src/lib/types.ts.
use mc_gantry.Base.{Bool, false, Option, none, some, Text}
use mc_gantry.Base.Int.{ℤ}
use mc_gantry.Flow.Types.{FlowNode, entity, mock, FlowMockShape, Position}

abbrev pub with_id : Text → FlowNode → FlowNode
with_id id (entity n) = entity (record n { id = id })
with_id id (mock n) = mock (record n { id = id })

abbrev pub with_position : Position → FlowNode → FlowNode
with_position p (entity n) = entity (record n { position = p })
with_position p (mock n) = mock (record n { position = p })

abbrev pub with_parent : Option Text → FlowNode → FlowNode
with_parent parent (entity n) = entity (record n { parent_id = parent })
with_parent parent (mock n) = mock (record n { parent_id = parent })

abbrev pub with_locked : Option Bool → FlowNode → FlowNode
with_locked locked (entity n) = entity (record n { locked = locked })
with_locked locked (mock n) = mock (record n { locked = locked })

abbrev pub with_z_index : Option ℤ → FlowNode → FlowNode
with_z_index z (entity n) = entity (record n { z_index = z })
with_z_index z (mock n) = mock (record n { z_index = z })

abbrev pub with_badge : Option Text → FlowNode → FlowNode
with_badge badge (entity n) = entity (record n { badge = badge })
with_badge badge (mock n) = mock (record n { badge = badge })

abbrev pub with_shape : FlowMockShape → FlowNode → FlowNode
with_shape shape (entity n) = entity (record n { shape = some shape })
with_shape shape (mock n) = mock (record n { shape = shape })

abbrev pub with_width : Option ℤ → FlowNode → FlowNode
with_width width (entity n) = entity (record n { width = width })
with_width width (mock n) = mock (record n { width = width })

abbrev pub with_height : Option ℤ → FlowNode → FlowNode
with_height height (entity n) = entity (record n { height = height })
with_height height (mock n) = mock (record n { height = height })

-- The fields of mock nodes alone: they can be changed only where a mock node is selected.
abbrev pub with_label : Text → FlowNode → FlowNode
with_label label (entity n) = entity n
with_label label (mock n) = mock (record n { label = label })

abbrev pub with_subtitle : Text → FlowNode → FlowNode
with_subtitle subtitle (entity n) = entity n
with_subtitle subtitle (mock n) = mock (record n { subtitle = some subtitle })

abbrev pub with_color : Text → FlowNode → FlowNode
with_color color (entity n) = entity n
with_color color (mock n) = mock (record n { color = some color })

-- The fields that the editor tests.
abbrev pub node_locked : FlowNode → Bool
node_locked (entity n) = elim n.locked [ none ↦ false | some b ↦ b ]
node_locked (mock n) = elim n.locked [ none ↦ false | some b ↦ b ]

abbrev pub node_z_index : FlowNode → Option ℤ
node_z_index (entity n) = n.z_index
node_z_index (mock n) = n.z_index
