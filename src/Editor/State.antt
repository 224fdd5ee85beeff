-- ===== src/Editor/State.antt =====
-- The state of the flow editor that its handlers read and change: web/src/pages/Flow.tsx. A `Set` of
-- ids is a list of which only membership, emptiness and order of insertion count. A state that React
-- is told to set is set at once. `next_uuid` counts the calls of `crypto.randomUUID`.
use mc_gantry.Base.{
  ℕ, Bool, true, false, ◌||◌, not, List, [], ◌∷◌, ◌++◌, Option, none, some, is_empty, if◌then◌else◌,
  Text, text_eq, filter,
}
use mc_gantry.Base.Int.{ℤ, pos}
use mc_gantry.Base.Map.{mem}
use mc_gantry.Utils.Json.{Json}
use mc_gantry.Flow.Types.{FlowSpec, FlowNode, FlowEdge, Position}

pub record EntityMetadata : Type 0 where
  pub name : Text
  pub namespace : Option Text
  pub title : Option Text
  pub description : Option Text
  pub owner : Option Text

-- `spec` is `undef` where it is missing.
pub record Entity : Type 0 where
  pub kind : Text
  pub metadata : EntityMetadata
  pub spec : Json

pub data Mode : Type 0 where
  view edit : Mode

pub data ZoomMode : Type 0 where
  fit manual : ZoomMode

pub record Guides : Type 0 where
  pub vertical : Option ℤ
  pub horizontal : Option ℤ

-- `ResizeHandle`
pub data ResizeHandle : Type 0 where
  at_n at_e at_s at_w at_ne at_se at_sw at_nw : ResizeHandle

-- One axis of a rectangle: where it starts, and how long it is.
pub record Span : Type 0 where
  pub start : ℤ
  pub size : ℤ

-- `dragging`, without the offset of the pointer in the node.
pub record Dragging : Type 0 where
  pub dragged_id : Text
  pub dragged_ids : List Text

-- `resizing`, without where the pointer was.
pub record Resizing : Type 0 where
  pub resized_id : Text
  pub handle : ResizeHandle
  pub start_horizontal : Span
  pub start_vertical : Span

pub record Editor : Type 0 where
  pub can_edit : Bool
  pub editor_role : Text
  pub mode : Mode
  pub saving : Bool
  pub flows : List Entity
  pub current_flow_name : Option Text
  pub current_namespace : Text
  pub flow_name : Text
  pub flow_title_value : Text
  pub flow_description : Text
  pub flow_owner : Text
  pub flow_spec : FlowSpec
  pub selected_node_id : Option Text
  pub selected_node_ids : List Text
  pub selected_edge_id : Option Text
  pub connect_from_id : Option Text
  pub dragging : Option Dragging
  pub resizing : Option Resizing
  pub nest_target : Option Text
  pub alignment_guides : Guides
  pub zoom_mode : ZoomMode
  pub pan_offset : Position
  pub dirty : Bool
  pub notice : Text
  pub error : Text
  pub next_uuid : ℕ

abbrev pub no_guides : Guides
no_guides = record { vertical = none; horizontal = none }

abbrev pub origin : Position
origin = record { x = pos 0; y = pos 0 }

-- `defaultFlowSpec`
abbrev pub default_flow_spec : FlowSpec
default_flow_spec = record {
  viewport = record { x = pos 0; y = pos 0; zoom = pos 1 };
  nodes = [];
  edges = [];
}

-- `if (!flowSettings.canEdit) return;`
abbrev pub where_allowed : Editor → Editor → Editor
where_allowed s t = if s.can_edit then t else s

-- `if (!flowSettings.canEdit || selectedNodeIds.size === 0) return;`
abbrev pub where_selected : Editor → Editor → Editor
where_selected s t = if not s.can_edit || is_empty s.selected_node_ids then s else t

abbrev pub set_nodes : List FlowNode → FlowSpec → FlowSpec
set_nodes nodes spec = record spec { nodes = nodes }

abbrev pub set_edges : List FlowEdge → FlowSpec → FlowSpec
set_edges edges spec = record spec { edges = edges }

-- `setDirty(true); setNotice('');` with a new flow.
abbrev pub changed : FlowSpec → Editor → Editor
changed spec s = record s { flow_spec = spec; dirty = true; notice = [] }

-- The same without a word on the notice.
abbrev pub touched : FlowSpec → Editor → Editor
touched spec s = record s { flow_spec = spec; dirty = true }

-- `next.add(id)` and `next.delete(id)` on a copy of a set.
abbrev pub add_id : Text → List Text → List Text
add_id id ids = if mem id ids then ids else ids ++ id ∷ []

abbrev pub remove_id : Text → List Text → List Text
remove_id id ids = filter (λ j. not (text_eq j id)) ids

-- `id === other` for a state that may be `null`.
abbrev pub is_id : Option Text → Text → Bool
is_id none id = false
is_id (some other) id = text_eq other id

-- `list.find(p)`
unfoldable pub find {ℓ} : {A : Type ℓ} → (A → Bool) → List A → Option A
find p [] = none
find p (x ∷ xs) = let rest = find p xs in if p x then some x else rest
