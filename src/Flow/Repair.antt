-- ===== src/Flow/Repair.antt =====
-- `ensureFlowSpec` of web/src/lib/flow.tsx: a flow from a value of any shape. `to_string` stands for
-- `String` of what is no text, and `uuid i` is what the call number `i` of `crypto.randomUUID` returns.
pub mod WellFormed
mod Tests
use mc_gantry.Base.{
  ℕ, zero, suc, Bool, true, false, ◌||◌, ◌&&◌, not, List, [], ◌∷◌, Option, none, some, is_empty,
  if◌then◌else◌, String, Text, text_eq, codes, or_text, trim,
}
use mc_gantry.Base.Int.{ℤ, pos, negsuc}
use mc_gantry.Utils.Json.{
  Json, undef, null, bool, num, str, arr, obj, Items, nil, cons, Fields, end, field, get_field,
}
use mc_gantry.Flow.Types.{
  FlowNode, entity, mock, FlowEdge, FlowSpec, FlowViewport, Position, FlowEntityRef, FlowMockShape,
  box, pill, diamond, note, FlowHandleSide, top, right, bottom, left, Direction, one_way, two_way,
}

-- `v?.k`; what is no object has none of the fields that are read.
unfoldable pub at : String → Json → Json
unfolding get_field
at k (obj fs) = get_field (codes k) fs
at k v = undef

abbrev pub items_of : Json → Items
items_of (arr vs) = vs
items_of v = nil

-- `typeof v === 'object'` of a value that is not `null`.
abbrev pub is_object : Json → Bool
is_object (arr vs) = true
is_object (obj fs) = true
is_object v = false

abbrev pub number_or : ℤ → Json → ℤ
number_or default (num n) = n
number_or default v = default

abbrev pub number : Json → Option ℤ
number (num n) = some n
number v = none

abbrev pub boolean : Json → Option Bool
boolean (bool b) = some b
boolean v = none

abbrev pub text : Json → Option Text
text (str s) = some s
text v = none

-- A text that is not blank, or the default.
abbrev pub visible_or : Text → Json → Text
visible_or default (str s) = if is_empty (trim s) then default else s
visible_or default v = default

unfoldable pub shape_of : Json → Option FlowMockShape
unfolding text_eq
shape_of (str s) =
    if text_eq s (codes "box")
    then some box
    else if text_eq s (codes "pill")
    then some pill
    else if text_eq s (codes "diamond")
    then some diamond
    else if text_eq s (codes "note")
    then some note
    else none
shape_of v = none

unfoldable pub side_of : Json → Option FlowHandleSide
unfolding text_eq
side_of (str s) =
    if text_eq s (codes "top")
    then some top
    else if text_eq s (codes "right")
    then some right
    else if text_eq s (codes "bottom")
    then some bottom
    else if text_eq s (codes "left")
    then some left
    else none
side_of v = none

abbrev pub is_text : String → Json → Bool
is_text t (str s) = text_eq s (codes t)
is_text t v = false

abbrev pub position_of : Json → Position
position_of node = record {
  x = number_or (pos 0) (at "x" (at "position" node));
  y = number_or (pos 0) (at "y" (at "position" node));
}

abbrev pub viewport_of : Json → FlowViewport
viewport_of viewport = record {
  x = number_or (pos 0) (at "x" viewport);
  y = number_or (pos 0) (at "y" viewport);
  zoom = number_or (pos 1) (at "zoom" viewport);
}

module _ (to_string : Json → Text) (uuid : ℕ → Text) where
  -- `String(v || default)`
  abbrev pub string_or : Text → Json → Text
  string_or default (str s) = or_text s default
  string_or default (bool true) = to_string (bool true)
  string_or default (num (pos zero)) = default
  string_or default (num (pos (suc n))) = to_string (num (pos (suc n)))
  string_or default (num (negsuc n)) = to_string (num (negsuc n))
  string_or default (arr vs) = to_string (arr vs)
  string_or default (obj fs) = to_string (obj fs)
  string_or default v = default

  -- The id, and the number of calls of `crypto.randomUUID` from then on.
  abbrev pub id_of : ℕ → Json → Text
  id_of i (str s) = s
  id_of i v = uuid i

  abbrev pub calls_after : ℕ → Json → ℕ
  calls_after i (str s) = i
  calls_after i v = suc i

  abbrev pub mock_of : ℕ → Json → FlowNode
  mock_of i node = mock (record {
    id = id_of i (at "id" node);
    label = visible_or (codes "Mock Node") (at "label" node);
    subtitle = some (elim (text (at "subtitle" node)) [ none ↦ [] | some s ↦ s ]);
    shape = elim (shape_of (at "shape" node)) [ none ↦ box | some s ↦ s ];
    color = some (visible_or (codes "#64748B") (at "color" node));
    width = number (at "width" node);
    height = number (at "height" node);
    position = position_of node;
    locked = boolean (at "locked" node);
    z_index = number (at "zIndex" node);
    parent_id = text (at "parentId" node);
    badge = text (at "badge" node);
  })

  abbrev pub ref_of : Json → FlowEntityRef
  ref_of node = record {
    kind = string_or [] (at "kind" (at "entityRef" node));
    name = string_or [] (at "name" (at "entityRef" node));
    namespace = text (at "namespace" (at "entityRef" node));
  }

  abbrev pub entity_of : ℕ → Json → FlowNode
  entity_of i node = entity (record {
    id = id_of i (at "id" node);
    entity_ref = ref_of node;
    shape = shape_of (at "shape" node);
    width = number (at "width" node);
    height = number (at "height" node);
    position = position_of node;
    locked = boolean (at "locked" node);
    z_index = number (at "zIndex" node);
    parent_id = text (at "parentId" node);
    badge = text (at "badge" node);
  })

  -- An entity node without kind or name is left out.
  abbrev pub is_named : Json → Bool
  is_named node = not (is_empty (ref_of node).kind) && not (is_empty (ref_of node).name)

  abbrev pub nodes_of_one : ℕ → Json → List FlowNode → List FlowNode
  nodes_of_one i node rest =
      if is_text "mock" (at "nodeType" node)
      then mock_of i node ∷ rest
      else if is_named node
      then entity_of i node ∷ rest
      else rest

  unfoldable pub nodes_of : ℕ → Items → List FlowNode
  unfolding at shape_of trim
  nodes_of i nil = []
  nodes_of i (cons node nodes) =
      let skipped = nodes_of i nodes in
      let rest = nodes_of (calls_after i (at "id" node)) nodes in
      if is_object node then nodes_of_one i node rest else skipped

  -- The number of calls after all the nodes.
  unfoldable pub calls_after_all : ℕ → Items → ℕ
  unfolding at
  calls_after_all i nil = i
  calls_after_all i (cons node nodes) =
      let skipped = calls_after_all i nodes in
      let rest = calls_after_all (calls_after i (at "id" node)) nodes in
      if is_object node then rest else skipped

  abbrev pub edge_of : ℕ → Json → FlowEdge
  edge_of i edge = record {
    id = id_of i (at "id" edge);
    source = string_or [] (at "source" edge);
    target = string_or [] (at "target" edge);
    relation = string_or (codes "calls") (at "relation" edge);
    direction = if is_text "two-way" (at "direction" edge) then two_way else one_way;
    label = some (elim (text (at "label" edge)) [ none ↦ [] | some s ↦ s ]);
    animated = elim (boolean (at "animated" edge)) [ none ↦ true | some b ↦ b ];
    source_handle = side_of (at "sourceHandle" edge);
    target_handle = side_of (at "targetHandle" edge);
  }

  abbrev pub is_complete : FlowEdge → Bool
  is_complete e = not (is_empty e.source) && not (is_empty e.target) && not (is_empty e.relation)

  unfoldable pub edges_of : ℕ → Items → List FlowEdge
  unfolding at side_of
  edges_of i nil = []
  edges_of i (cons edge edges) =
      let skipped = edges_of i edges in
      let rest = edges_of (calls_after i (at "id" edge)) edges in
      if is_object edge
      then (if is_complete (edge_of i edge) then edge_of i edge ∷ rest else rest)
      else skipped

  unfoldable pub ensure_flow_spec : Json → FlowSpec
  unfolding at nodes_of calls_after_all edges_of
  ensure_flow_spec spec = record {
    viewport = viewport_of (at "viewport" spec);
    nodes = nodes_of 0 (items_of (at "nodes" spec));
    edges = edges_of (calls_after_all 0 (items_of (at "nodes" spec))) (items_of (at "edges" spec));
  }
