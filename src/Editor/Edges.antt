-- ===== src/Editor/Edges.antt =====
-- Handlers of edges: `createEdge`, `updateEdge` and `seedEdgesFromRelationships`, and what a click on a
-- node does, of web/src/pages/Flow.tsx.
use mc_gantry.Base.{
  ℕ, zero, suc, ◌+◌, Bool, true, false, ◌||◌, ◌&&◌, not, ◌==◌, List, [], ◌∷◌, ◌++◌, Option, none,
  some, map, any, filter, is_empty, if◌then◌else◌, ltb, String, Text, text_eq, codes,
}
use mc_gantry.Base.Map.{get, set_all, mem}
use mc_gantry.Export.Bytes.{decimal}
use mc_gantry.Utils.Json.{Json, str, Items, nil, cons}
use mc_gantry.Flow.Types.{
  FlowNode, FlowEdge, FlowHandleSide, left, right, Direction, one_way, node_id, is_mock_node,
}
use mc_gantry.Flow.Health.{namespace_or_default, node_entity_key}
use mc_gantry.Flow.Repair.{at, items_of, is_object, string_or}
use mc_gantry.Editor.State.{Editor, Entity, where_allowed, set_edges, changed, remove_id, find}
use mc_gantry.Editor.Adding.{entity_key}

abbrev pub is_between : Text → Text → FlowEdge → Bool
is_between source_id target_id e = text_eq e.source source_id && text_eq e.target target_id

abbrev pub new_edge : Text → Text → Text → Text → FlowEdge
new_edge id source_id target_id relation = record {
  id = id;
  source = source_id;
  target = target_id;
  relation = relation;
  direction = one_way;
  label = some [];
  animated = true;
  source_handle = some right;
  target_handle = some left;
}

abbrev pub select_edge : Text → Editor → Editor
select_edge id s = record s {
  selected_edge_id = some id;
  selected_node_id = none;
  connect_from_id = none;
}

-- The patches that the panel of the selected edge hands to `updateEdge`.
pub data Patch : Type 0 where
  relation label : Text → Patch
  direction : Direction → Patch
  source_handle target_handle : FlowHandleSide → Patch
  animated : Bool → Patch

abbrev pub patched : Patch → FlowEdge → FlowEdge
patched (relation t) e = record e { relation = t }
patched (label t) e = record e { label = some t }
patched (direction d) e = record e { direction = d }
patched (source_handle h) e = record e { source_handle = some h }
patched (target_handle h) e = record e { target_handle = some h }
patched (animated b) e = record e { animated = b }

abbrev pub patch_edge : Text → Patch → FlowEdge → FlowEdge
patch_edge id patch e = if text_eq e.id id then patched patch e else e

unfoldable pub update_edge : Text → Patch → Editor → Editor
unfolding text_eq
update_edge id patch s =
    where_allowed s
      (changed (set_edges (map (patch_edge id patch) s.flow_spec.edges) s.flow_spec) s)

-- A click on a node that starts no connection.
abbrev pub click_selects : Bool → Text → Editor → Editor
click_selects true id s = record s {
  selected_node_ids =
      if mem id s.selected_node_ids
      then remove_id id s.selected_node_ids
      else s.selected_node_ids ++ id ∷ [];
  selected_node_id = some id;
  selected_edge_id = none;
}
click_selects false id s = record s {
  selected_node_ids = id ∷ [];
  selected_node_id = some id;
  selected_edge_id = none;
}

-- The edges as they grow, and how many calls of `crypto.randomUUID` were made.
pub record Seeding : Type 0 where
  pub next_edges : List FlowEdge
  pub added : ℕ

abbrev pub is_same_link : Text → Text → Text → FlowEdge → Bool
is_same_link source_id target_id rel e =
    text_eq e.source source_id && text_eq e.target target_id && text_eq e.relation rel

abbrev pub names_of : String → Json → Items
names_of k spec = items_of (at k spec)

-- The node of an entity; the last one of a key counts.
unfoldable pub node_by_entity : List FlowNode → List (Text × FlowNode)
unfolding set_all filter node_entity_key
node_by_entity nodes =
    set_all [] (map (λ n. (node_entity_key n, n)) (filter (λ n. not (is_mock_node n)) nodes))

abbrev pub or_node : Option FlowNode → Option FlowNode → Option FlowNode
or_node (some n) other = some n
or_node none other = other

abbrev pub seed_notice : ℕ → Text
seed_notice zero = codes "No new relationship edges were found to add."
seed_notice (suc n) =
    codes "Added "
    ++ (decimal (suc n)
        ++ (codes " relationship edge"
            ++ ((if suc n == 1 then [] else codes "s") ++ codes " from entity metadata.")))

module _ (uuid : ℕ → Text) where
  abbrev pub connect : Text → Text → Editor → Editor
  connect source_id target_id s =
      let id = uuid s.next_uuid in
      let spec =
        set_edges (s.flow_spec.edges ++ new_edge id source_id target_id (codes "calls") ∷ [])
          s.flow_spec in
      record (select_edge id (changed spec s)) { next_uuid = suc s.next_uuid }

  unfoldable pub create_edge : Text → Text → Editor → Editor
  unfolding find text_eq
  create_edge source_id target_id s = where_allowed s (
      if text_eq source_id target_id
      then s
      else elim (find (is_between source_id target_id) s.flow_spec.edges) [
        | some duplicate ↦ select_edge duplicate.id s
        | none ↦ connect source_id target_id s
      ])

  -- A click on a node of the canvas, in the editing mode.
  abbrev pub click_from : Option Text → Bool → Text → Editor → Editor
  click_from none shift id s = click_selects shift id s
  click_from (some []) shift id s = click_selects shift id s
  click_from (some (c ∷ from)) shift id s =
      if s.can_edit && not (text_eq (c ∷ from) id)
      then create_edge (c ∷ from) id s
      else click_selects shift id s

  unfoldable pub click_node : Bool → Text → Editor → Editor
  unfolding create_edge mem filter text_eq
  click_node shift id s = click_from s.connect_from_id shift id s

  -- `maybeAdd`, where `first` calls of `crypto.randomUUID` were made before.
  abbrev pub maybe_add : ℕ → Text → Text → Text → Seeding → Seeding
  maybe_add first source_id target_id rel s =
      if text_eq source_id target_id
      then s
      else if any (is_same_link source_id target_id rel) s.next_edges
      then s
      else record {
        next_edges = s.next_edges ++ new_edge (uuid (first + s.added)) source_id target_id rel ∷ [];
        added = suc s.added;
      }

  abbrev pub add_to : ℕ → FlowNode → Text → Option FlowNode → Seeding → Seeding
  add_to first node rel none s = s
  add_to first node rel (some target) s = maybe_add first (node_id node) (node_id target) rel s

  module _ (to_string : Json → Text) (first : ℕ) (by_entity : List (Text × FlowNode)) where
    -- One entry of `dependsOn`.
    abbrev pub seed_dependency : FlowNode → Text → Json → Seeding → Seeding
    seed_dependency node namespace dependency s =
        let kind = string_or to_string uuid [] (at "kind" dependency) in
        let name = string_or to_string uuid [] (at "name" dependency) in
        let near = kind ++ (codes ":" ++ (namespace ++ (codes ":" ++ name))) in
        let far = kind ++ (codes ":default:" ++ name) in
        let target = or_node (get near by_entity) (get far by_entity) in
        if is_object dependency && not (is_empty kind) && not (is_empty name)
        then add_to first node (codes "dependsOn") target s
        else s

    unfoldable pub seed_dependencies : FlowNode → Text → Items → Seeding → Seeding
    unfolding get at any text_eq
    seed_dependencies node namespace nil s = s
    seed_dependencies node namespace (cons d ds) s =
        seed_dependencies node namespace ds (seed_dependency node namespace d s)

    -- `String(apiName)`
    abbrev pub api_name : Json → Text
    api_name (str t) = t
    api_name v = to_string v

    unfoldable pub seed_apis : FlowNode → Text → Items → Seeding → Seeding
    unfolding get any text_eq
    seed_apis node rel nil s = s
    seed_apis node rel (cons a apis) s =
        seed_apis node rel apis
          (add_to first node rel (get (codes "API:default:" ++ api_name a) by_entity) s)

    -- The three lists of one entity.
    abbrev pub seed_entity : FlowNode → Entity → Seeding → Seeding
    seed_entity node e s =
        let namespace = namespace_or_default e.metadata.namespace in
        let depends = seed_dependencies node namespace (names_of "dependsOn" e.spec) s in
        let consumes = seed_apis node (codes "consumes") (names_of "consumesApis" e.spec) depends in
        seed_apis node (codes "provides") (names_of "providesApis" e.spec) consumes

    abbrev pub seed_node : List (Text × Entity) → FlowNode → Seeding → Seeding
    seed_node entity_map node s =
        if is_mock_node node then s else elim (get (node_entity_key node) entity_map) [
          | none ↦ s
          | some e ↦ seed_entity node e s
        ]

    unfoldable pub seed_nodes : List (Text × Entity) → List FlowNode → Seeding → Seeding
    unfolding seed_dependencies seed_apis node_entity_key
    seed_nodes entity_map [] s = s
    seed_nodes entity_map (node ∷ nodes) s =
        seed_nodes entity_map nodes (seed_node entity_map node s)

  abbrev pub finish_seeding : Seeding → Editor → Editor
  finish_seeding seeding s = record s {
    flow_spec = set_edges seeding.next_edges s.flow_spec;
    dirty = ltb 0 seeding.added || s.dirty;
    notice = seed_notice seeding.added;
    next_uuid = s.next_uuid + seeding.added;
  }

  unfoldable pub seed_edges_from_relationships : (Json → Text) → List Entity → Editor → Editor
  unfolding seed_nodes node_by_entity set_all entity_key decimal
  seed_edges_from_relationships to_string available_entities s =
      let entity_map = set_all [] (map (λ e. (entity_key e, e)) available_entities) in
      let start : Seeding = record { next_edges = s.flow_spec.edges; added = 0 } in
      where_allowed s (
        finish_seeding
          (seed_nodes to_string s.next_uuid (node_by_entity s.flow_spec.nodes) entity_map
            s.flow_spec.nodes start)
          s)
