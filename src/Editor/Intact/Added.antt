-- ===== src/Editor/Intact/Added.antt =====
-- The references of a flow to which nodes are added in the editor of web/src/pages/Flow.tsx.
use mc_gantry.Base.{
  ℕ, ◌+◌, present, ◌≡◌, refl, sym, subst, append-nil, ◌≢◌, inl, inr, ◌||◌, not, List, [], ◌∷◌, ◌++◌,
  map, Memᴰ, Option, none, some, Option-cases, All, filter, Text, text_eq, or_text, is_empty,
  length,
}
use mathlib.Core.List.Memᴰ
use mc_gantry.Base.Map.{get, mem}
use mc_gantry.Flow.Types.{FlowNode, entity, mock, node_id}
use mc_gantry.Flow.Graph.{parent_key}
use mc_gantry.Flow.Health.{node_entity_key}
use mc_gantry.Flow.Copies.{get_text, add_node_ids}
use mc_gantry.Flow.Copies.Clones.{
  IsParentIn, HasParentIn, HasEndsIn, IsClosed, ids_of, found-Memᴰ, clone_edges-HasEndsIn,
}
use mc_gantry.Flow.Fields.{with_id, with_parent}
use mc_gantry.Editor.State.{Editor, Entity, find}
use mc_gantry.Editor.Closed.{append-IsClosed, filter-All}
use mc_gantry.Editor.Intact.{IsIntact, IsIntact-if}
use mc_gantry.Editor.Adding.{
  Template, entity_key, entity_node, mock_node, append_node, add_entity_node, add_mock_node,
  copied_parent, duplicate_node, copied_nodes, copied_edges, with_copies, duplicate_nodes,
  duplicate_selected_nodes, with_descendants,
}

append_node-IsIntact :
    (s : Editor) (n : FlowNode) → parent_key n ≡ none → IsIntact s → IsIntact (append_node n s)
append_node-IsIntact s n e (c, p) =
    let all =
      append-IsClosed s.flow_spec (n ∷ []) []
        (subst (IsParentIn (ids_of s.flow_spec ++ node_id n ∷ [])) (sym e) tt, tt) tt c in
    (
      record {
        parents = all.parents;
        ends =
            subst (All (HasEndsIn (map node_id (s.flow_spec.nodes ++ n ∷ []))))
              (append-nil s.flow_spec.edges) all.ends;
      },
      tt,
    )

module _ (uuid : ℕ → Text) (s : Editor) (i : IsIntact s) where
  pub add_entity_node-IsIntact : (e : Entity) → IsIntact (add_entity_node uuid e s)
  unfolding add_entity_node
  add_entity_node-IsIntact e =
      IsIntact-if s.can_edit s _ i
        (elim (Option-cases
          (find (λ node. text_eq (node_entity_key node) (entity_key e)) s.flow_spec.nodes)) [
            | inl h ↦ rw h (append_node-IsIntact s (entity_node uuid e s) refl i)
            | inr (n, h) ↦ rw h i
          ])

  pub add_mock_node-IsIntact : (template : Template) → IsIntact (add_mock_node uuid template s)
  unfolding add_mock_node
  add_mock_node-IsIntact template =
      IsIntact-if s.can_edit s _ i (append_node-IsIntact s (mock_node uuid template s) refl i)

node_id-with_id :
    (id : Text) (p : Option Text) (n : FlowNode) → node_id (with_parent p (with_id id n)) ≡ id
node_id-with_id id p (entity n) = refl
node_id-with_id id p (mock n) = refl

parent_key-with_parent :
    (id : Text) (p : Option Text) (n : FlowNode)
    → parent_key (with_parent p (with_id id n)) ≡ present p
parent_key-with_parent id p (entity n) = refl
parent_key-with_parent id p (mock n) = refl

or_text-IsParentIn :
    (ids : List Text) (v k : Text)
    → IsParentIn ids (some k)
    → (v ≢ [] → Memᴰ v ids)
    → IsParentIn ids (present (some (or_text v k)))
or_text-IsParentIn ids [] [] h f = tt
or_text-IsParentIn ids [] (c ∷ k) h f = h
or_text-IsParentIn ids (c ∷ v) k h f = f (λ e. cc)

module _ (uuid : ℕ → Text) (s : Editor) (i : IsIntact s) (chosen : List FlowNode) where
  abbrev node_ids : List (Text × Text)
  node_ids = add_node_ids uuid s.next_uuid chosen []

  abbrev new_ids : List Text
  new_ids = map node_id (copied_nodes uuid chosen s)

  abbrev all_ids : List Text
  all_ids = ids_of s.flow_spec ++ new_ids

  found : (k v : Text) → get k node_ids ≡ some v → Memᴰ v new_ids
  found k v h =
      found-Memᴰ uuid s.next_uuid chosen (duplicate_node node_ids)
        (λ n. node_id-with_id (get_text (node_id n) node_ids) (copied_parent node_ids n) _) k v h

  text_found :
      (k : Text) (o : Option Text)
      → get k node_ids ≡ o
      → get_text k node_ids ≢ []
      → Memᴰ (get_text k node_ids) all_ids
  text_found k none e h = absurd (h (rw (e, get_text) refl))
  text_found k (some v) e h = rw (e, get_text) (Memᴰ.append_right _ (found k v e))

  copied_parent-IsParentIn :
      (n : FlowNode) (o : Option Text)
      → parent_key n ≡ o
      → IsParentIn (ids_of s.flow_spec) o
      → IsParentIn all_ids (present (copied_parent node_ids n))
  copied_parent-IsParentIn n none e h = rw (e, copied_parent) tt
  copied_parent-IsParentIn n (some k) e h =
      rw (e, copied_parent)
        (or_text-IsParentIn all_ids (get_text k node_ids) k (Memᴰ.append_left _ h)
          (text_found k (get k node_ids) refl))

  copies-HasParentIn :
      (nodes : List FlowNode)
      → All (HasParentIn (ids_of s.flow_spec)) nodes
      → All (HasParentIn all_ids) (map (duplicate_node node_ids) nodes)
  copies-HasParentIn [] h = tt
  copies-HasParentIn (n ∷ nodes) (p, h) = (
    subst (IsParentIn all_ids)
        (sym (parent_key-with_parent (get_text (node_id n) node_ids) (copied_parent node_ids n) _))
        (copied_parent-IsParentIn n (parent_key n) refl p),
    copies-HasParentIn nodes h,
  )

  with_copies-IsClosed :
      All (HasParentIn (ids_of s.flow_spec)) chosen → IsClosed (with_copies uuid chosen s)
  with_copies-IsClosed h =
      append-IsClosed s.flow_spec (copied_nodes uuid chosen s) (copied_edges uuid chosen s)
        (copies-HasParentIn chosen h)
        (clone_edges-HasEndsIn node_ids all_ids (λ k v e. Memᴰ.append_right _ (found k v e)) uuid
          (s.next_uuid + length chosen) s.flow_spec.edges)
        i.0

duplicate_nodes-IsIntact :
    (uuid : ℕ → Text) (s : Editor) (chosen : List FlowNode)
    → All (HasParentIn (ids_of s.flow_spec)) chosen
    → IsIntact s
    → IsIntact (duplicate_nodes uuid chosen s)
duplicate_nodes-IsIntact uuid s [] h i = i
duplicate_nodes-IsIntact uuid s (n ∷ others) h i =
    (with_copies-IsClosed uuid s i (n ∷ others) h, tt)

pub duplicate_selected_nodes-IsIntact :
    (uuid : ℕ → Text) (s : Editor) → IsIntact s → IsIntact (duplicate_selected_nodes uuid s)
unfolding duplicate_selected_nodes
duplicate_selected_nodes-IsIntact uuid s i =
    let ids = with_descendants s.flow_spec.nodes s.selected_node_ids s.selected_node_ids in
    let chosen = filter (λ node. mem (node_id node) ids) s.flow_spec.nodes in
    IsIntact-if (not s.can_edit || is_empty s.selected_node_ids) _ s
      (duplicate_nodes-IsIntact uuid s chosen
        (filter-All (HasParentIn (ids_of s.flow_spec)) (λ node. mem (node_id node) ids)
          s.flow_spec.nodes i.0.parents)
        i)
      i
