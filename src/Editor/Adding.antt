-- ===== src/Editor/Adding.antt =====
-- Handlers that add nodes: `addEntityNode`, `addMockNode` and `duplicateSelectedNodes` of
-- web/src/pages/Flow.tsx.
use mc_gantry.Base.{
  ℕ, suc, ◌+◌, ◌*◌, ◌/◌, ◌%◌, Bool, false, ◌==◌, List, [], ◌∷◌, ◌++◌, Option, none, some, map,
  foldl, filter, length, if◌then◌else◌, Text, text_eq, codes, or_text,
}
use mc_gantry.Base.Int.{ℤ, pos, ◌+ℤ◌}
use mc_gantry.Base.Map.{get, mem, has}
use mc_gantry.Export.Bytes.{decimal}
use mc_gantry.Flow.Types.{
  FlowNode, entity, mock, FlowMockShape, FlowSpec, FlowEdge, Position, node_id, node_position,
}
use mc_gantry.Flow.Health.{namespace_or_default, node_entity_key}
use mc_gantry.Flow.Graph.{parent_key, collect_descendants}
use mc_gantry.Flow.Fields.{with_id, with_position, with_parent}
use mc_gantry.Flow.Copies.{get_text, add_node_ids, has_both_ends, clone_edges}
use mc_gantry.Editor.State.{
  Editor, Entity, where_allowed, where_selected, set_nodes, set_edges, changed, add_id, find,
}

unfoldable pub entity_key : Entity → Text
entity_key e =
    e.kind
    ++ (codes ":" ++ (namespace_or_default e.metadata.namespace ++ (codes ":" ++ e.metadata.name)))

-- The place of the next node in rows of four.
abbrev pub next_place : List FlowNode → Position
next_place nodes = record {
  x = pos (48 + length nodes % 4 * 250);
  y = pos (48 + length nodes / 4 * 150);
}

abbrev pub select_only : Text → Editor → Editor
select_only id s = record s {
  selected_node_id = some id;
  selected_node_ids = id ∷ [];
  selected_edge_id = none;
}

abbrev pub append_node : FlowNode → Editor → Editor
append_node node s =
    record (select_only (node_id node)
      (changed (set_nodes (s.flow_spec.nodes ++ node ∷ []) s.flow_spec) s)) {
        connect_from_id = none;
        next_uuid = suc s.next_uuid;
      }

-- The template of a mock node.
pub record Template : Type 0 where
  pub label : Text
  pub subtitle : Text
  pub shape : FlowMockShape
  pub color : Text

abbrev pub offset_node : ℤ → FlowNode → FlowNode
offset_node d node =
    with_position (record { x = (node_position node).x +ℤ d; y = (node_position node).y +ℤ d }) node

-- The parent of a copy: the copy of the parent, or the parent itself.
abbrev pub copied_parent : List (Text × Text) → FlowNode → Option Text
copied_parent node_ids node = elim (parent_key node) [
  | none ↦ none
  | some k ↦ some (or_text (get_text k node_ids) k)
]

abbrev pub parent_is_copied : List (Text × Text) → FlowNode → Bool
parent_is_copied node_ids node = elim (parent_key node) [ none ↦ false | some k ↦ has k node_ids ]

abbrev pub duplicate_node : List (Text × Text) → FlowNode → FlowNode
duplicate_node node_ids node = with_parent (copied_parent node_ids node) (
    with_id (get_text (node_id node) node_ids)
      (if parent_is_copied node_ids node then node else offset_node (pos 32) node))

-- The selected ids and those of all that lies in them.
unfoldable pub with_descendants : List FlowNode → List Text → List Text → List Text
unfolding mem collect_descendants
with_descendants nodes ids [] = ids
with_descendants nodes ids (id ∷ selected) =
    let found = elim (collect_descendants nodes id) as (λ _. List Text) [
      | none ↦ []
      | some d ↦ d
    ] in
    with_descendants nodes (foldl (λ ids d. add_id d ids) ids found) selected

abbrev pub plural_node : ℕ → Text
plural_node n = if n == 1 then codes " node." else codes " nodes."

-- The id that is selected after the copying.
abbrev pub next_primary : Option Text → List (Text × Text) → Text → Text
next_primary none node_ids first = first
next_primary (some []) node_ids first = first
next_primary (some (c ∷ id)) node_ids first = or_text (get_text (c ∷ id) node_ids) first

module _ (uuid : ℕ → Text) where
  abbrev pub entity_node : Entity → Editor → FlowNode
  entity_node e s = entity (record {
    id = uuid s.next_uuid;
    entity_ref = record {
      kind = e.kind;
      name = e.metadata.name;
      namespace = some (namespace_or_default e.metadata.namespace);
    };
    shape = none;
    width = none;
    height = none;
    position = next_place s.flow_spec.nodes;
    locked = none;
    z_index = none;
    parent_id = none;
    badge = none;
  })

  unfoldable pub add_entity_node : Entity → Editor → Editor
  unfolding find node_entity_key entity_key text_eq
  add_entity_node e s =
      where_allowed s
        (elim (find (λ node. text_eq (node_entity_key node) (entity_key e)) s.flow_spec.nodes) [
          | some existing_node ↦ select_only (node_id existing_node) s
          | none ↦ append_node (entity_node e s) s
        ])

  abbrev pub mock_node : Template → Editor → FlowNode
  mock_node template s = mock (record {
    id = uuid s.next_uuid;
    label = template.label;
    subtitle = some template.subtitle;
    shape = template.shape;
    color = some template.color;
    width = none;
    height = none;
    position = next_place s.flow_spec.nodes;
    locked = none;
    z_index = none;
    parent_id = none;
    badge = none;
  })

  unfoldable pub add_mock_node : Template → Editor → Editor
  add_mock_node template s = where_allowed s (append_node (mock_node template s) s)

  -- The flow with copies of some nodes and of the edges between them.
  abbrev pub copied_nodes : List FlowNode → Editor → List FlowNode
  copied_nodes chosen s = map (duplicate_node (add_node_ids uuid s.next_uuid chosen [])) chosen

  abbrev pub copied_edges : List FlowNode → Editor → List FlowEdge
  copied_edges chosen s =
      let node_ids = add_node_ids uuid s.next_uuid chosen [] in
      clone_edges uuid node_ids (s.next_uuid + length chosen)
        (filter (has_both_ends node_ids) s.flow_spec.edges)

  abbrev pub with_copies : List FlowNode → Editor → FlowSpec
  with_copies chosen s =
      set_edges (s.flow_spec.edges ++ copied_edges chosen s)
        (set_nodes (s.flow_spec.nodes ++ copied_nodes chosen s) s.flow_spec)

  abbrev pub duplicate_nodes : List FlowNode → Editor → Editor
  duplicate_nodes [] s = s
  duplicate_nodes (first ∷ others) s =
      let chosen = first ∷ others in
      let node_ids = add_node_ids uuid s.next_uuid chosen [] in
      record (changed (with_copies chosen s) s) {
        selected_node_ids =
            foldl (λ ids node. add_id (node_id node) ids) [] (copied_nodes chosen s);
        selected_node_id =
            some (next_primary s.selected_node_id node_ids (get_text (node_id first) node_ids));
        selected_edge_id = none;
        connect_from_id = none;
        notice = codes "Duplicated " ++ (decimal (length chosen) ++ plural_node (length chosen));
        next_uuid = s.next_uuid + length chosen + length (copied_edges chosen s);
      }

  unfoldable pub duplicate_selected_nodes : Editor → Editor
  unfolding with_descendants filter mem add_node_ids clone_edges get decimal
  duplicate_selected_nodes s =
      let nodes = s.flow_spec.nodes in
      let ids = with_descendants nodes s.selected_node_ids s.selected_node_ids in
      where_selected s (duplicate_nodes (filter (λ node. mem (node_id node) ids) nodes) s)
