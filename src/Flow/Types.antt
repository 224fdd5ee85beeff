-- ===== src/Flow/Types.antt =====
-- The types of a flow: web/src/lib/types.ts. A number is a whole number of
-- pixels, and a field that may be missing is an `Option`.
use mc_gantry.Base.{Bool, true, false, List, Option, Text}
use mc_gantry.Base.Int.{ℤ}

pub record FlowEntityRef : Type 0 where
  pub kind : Text
  pub name : Text
  pub namespace : Option Text

pub data FlowMockShape : Type 0 where
  box pill diamond note : FlowMockShape

pub record Position : Type 0 where
  pub x : ℤ
  pub y : ℤ

pub record FlowViewport : Type 0 where
  pub x : ℤ
  pub y : ℤ
  pub zoom : ℤ

pub record FlowEntityNode : Type 0 where
  pub id : Text
  pub entity_ref : FlowEntityRef
  pub shape : Option FlowMockShape
  pub width : Option ℤ
  pub height : Option ℤ
  pub position : Position
  pub locked : Option Bool
  pub z_index : Option ℤ
  pub parent_id : Option Text
  pub badge : Option Text

pub record FlowMockNode : Type 0 where
  pub id : Text
  pub label : Text
  pub subtitle : Option Text
  pub shape : FlowMockShape
  pub color : Option Text
  pub width : Option ℤ
  pub height : Option ℤ
  pub position : Position
  pub locked : Option Bool
  pub z_index : Option ℤ
  pub parent_id : Option Text
  pub badge : Option Text

-- `nodeType` is the constructor.
pub data FlowNode : Type 0 where
  entity : FlowEntityNode → FlowNode
  mock : FlowMockNode → FlowNode

pub data FlowHandleSide : Type 0 where
  top right bottom left : FlowHandleSide

pub data Direction : Type 0 where
  one_way two_way : Direction

pub record FlowEdge : Type 0 where
  pub id : Text
  pub source : Text
  pub target : Text
  pub relation : Text
  pub direction : Direction
  pub label : Option Text
  pub animated : Bool
  pub source_handle : Option FlowHandleSide
  pub target_handle : Option FlowHandleSide

pub record FlowSpec : Type 0 where
  pub viewport : FlowViewport
  pub nodes : List FlowNode
  pub edges : List FlowEdge

-- The fields that both kinds of nodes have.
abbrev pub node_id : FlowNode → Text
node_id (entity n) = n.id
node_id (mock n) = n.id

abbrev pub node_parent : FlowNode → Option Text
node_parent (entity n) = n.parent_id
node_parent (mock n) = n.parent_id

abbrev pub node_position : FlowNode → Position
node_position (entity n) = n.position
node_position (mock n) = n.position

abbrev pub node_width : FlowNode → Option ℤ
node_width (entity n) = n.width
node_width (mock n) = n.width

abbrev pub node_height : FlowNode → Option ℤ
node_height (entity n) = n.height
node_height (mock n) = n.height

abbrev pub is_mock_node : FlowNode → Bool
is_mock_node (entity n) = false
is_mock_node (mock n) = true
