-- ===== src/Editor/Samples.antt =====
-- An editor with a few nodes, for the tests of the editor of web/src/pages/Flow.tsx.
use mc_gantry.Base.{
  ℕ, ◌/◌, Bool, false, List, [], ◌∷◌, ◌++◌, map, Option, none, Text, codes, ascii_lower,
}
use mc_gantry.Base.Int.{ℤ, pos, negsuc}
use mc_gantry.Utils.Json.{Json}
use mc_gantry.Export.Bytes.{decimal}
use mc_gantry.Flow.Types.{FlowNode, entity, mock, box}
use mc_gantry.Flow.Dimensions.{Size}
use mc_gantry.Editor.State.{Editor, edit, fit, no_guides, origin, default_flow_spec}

abbrev pub lower : Text → Text
lower = map ascii_lower

abbrev pub half : ℤ → ℤ
half (pos n) = pos (n / 2)
half (negsuc n) = negsuc (n / 2)

abbrev pub size_of : FlowNode → Size
size_of node = record { width = 100; height = 80 }

abbrev pub uuid : ℕ → Text
uuid i = codes "n" ++ decimal i

abbrev pub to_string : Json → Text
to_string v = codes "?"

abbrev pub step_node : Text → Option Text → FlowNode
step_node id parent = mock (record {
  id = id;
  label = id;
  subtitle = none;
  shape = box;
  color = none;
  width = none;
  height = none;
  position = record { x = pos 10; y = pos 1 };
  locked = none;
  z_index = none;
  parent_id = parent;
  badge = none;
})

abbrev pub service_node : Text → Text → FlowNode
service_node id service = entity (record {
  id = id;
  entity_ref = record { kind = codes "Service"; name = service; namespace = none };
  shape = none;
  width = none;
  height = none;
  position = origin;
  locked = none;
  z_index = none;
  parent_id = none;
  badge = none;
})

abbrev pub with_nodes : Bool → List FlowNode → Editor
with_nodes can_edit nodes = record {
  can_edit = can_edit;
  editor_role = codes "developer";
  mode = edit;
  saving = false;
  flows = [];
  current_flow_name = none;
  current_namespace = codes "default";
  flow_name = codes "Pay ";
  flow_title_value = codes " Payments";
  flow_description = [];
  flow_owner = [];
  flow_spec = record default_flow_spec { nodes = nodes };
  selected_node_id = none;
  selected_node_ids = [];
  selected_edge_id = none;
  connect_from_id = none;
  dragging = none;
  resizing = none;
  nest_target = none;
  alignment_guides = no_guides;
  zoom_mode = fit;
  pan_offset = origin;
  dirty = false;
  notice = [];
  error = [];
  next_uuid = 0;
}

abbrev pub two_steps : List FlowNode
two_steps = step_node (codes "a") none ∷ step_node (codes "b") none ∷ []
