-- ===== src/Editor/Seeds.antt =====
-- The growing of edges from relationships, `seedEdgesFromRelationships` of web/src/pages/Flow.tsx, as an
-- induction over the calls of `maybeAdd`.
use mc_gantry.Base.{
  ℕ, ◌≡◌, refl, inl, inr, ⊎_elim, Bool, ◌&&◌, not, List, [], ◌∷◌, ◌++◌, map, Memᴰ, Option, none,
  some, Option-cases, Bool-cases, filter, Text, is_empty, codes,
}
use mathlib.Core.List.Memᴰ
use mc_gantry.Base.Map.{get}
use mc_gantry.Utils.Json.{Json, Items, nil, cons}
use mc_gantry.Flow.Types.{FlowNode, node_id, is_mock_node}
use mc_gantry.Flow.Health.{namespace_or_default, node_entity_key}
use mc_gantry.Flow.Repair.{at, is_object, string_or}
use mc_gantry.Editor.State.{Entity}
use mc_gantry.Editor.Closed.{found-is_node, map-Memᴰ}
use mc_gantry.Editor.Edges.{
  Seeding, node_by_entity, or_node, maybe_add, add_to, seed_dependency, seed_dependencies,
  seed_apis, api_name, seed_node, seed_nodes, names_of,
}

-- What holds of the growing edges holds when all are added, if adding one edge between two nodes of the
-- flow keeps it.
module _ {ℓ} (uuid : ℕ → Text) (to_string : Json → Text) (first : ℕ) (nodes : List FlowNode)
    (Good : Seeding → Type ℓ)
    (keeps : (source target rel : Text) (s : Seeding)
      → Memᴰ source (map node_id nodes)
      → Memᴰ target (map node_id nodes)
      → Good s
      → Good (maybe_add uuid first source target rel s)) where
  abbrev IsOfNodes : Option FlowNode → Type 0
  IsOfNodes none = Unit
  IsOfNodes (some n) = Memᴰ (node_id n) (map node_id nodes)

  add_to-Good :
      (n : FlowNode) (rel : Text) (o : Option FlowNode) (s : Seeding)
      → Memᴰ (node_id n) (map node_id nodes)
      → IsOfNodes o
      → Good s
      → Good (add_to uuid first n rel o s)
  add_to-Good n rel none s m h j = j
  add_to-Good n rel (some target) s m h j = keeps (node_id n) (node_id target) rel s m h j

  filter-sub :
      (p : FlowNode → Bool) (n : FlowNode) (xs : List FlowNode) → Memᴰ n (filter p xs) → Memᴰ n xs
  unfolding filter
  filter-sub p n [] m = m
  filter-sub p n (x ∷ xs) m = elim (Bool-cases (p x)) [
    | inl e ↦
        ⊎_elim (λ h. Memᴰ.head h) (λ h. Memᴰ.tail (filter-sub p n xs h))
          (Memᴰ.cases_cons (rw e at m))
    | inr e ↦ Memᴰ.tail (filter-sub p n xs (rw e at m))
  ]

  by_entity-IsOfNodes : (k : Text) → IsOfNodes (get k (node_by_entity nodes))
  unfolding node_by_entity
  by_entity-IsOfNodes k = of_found (get k (node_by_entity nodes)) refl
    where
      of_found : (o : Option FlowNode) → get k (node_by_entity nodes) ≡ o → IsOfNodes o
      of_found none e = tt
      of_found (some n) e = map-Memᴰ node_id n nodes (
          filter-sub (λ n. not (is_mock_node n)) n nodes
            (found-is_node node_entity_key (filter (λ n. not (is_mock_node n)) nodes) k n e).1)

  or_node-IsOfNodes :
      (o o' : Option FlowNode) → IsOfNodes o → IsOfNodes o' → IsOfNodes (or_node o o')
  or_node-IsOfNodes none o' h h' = h'
  or_node-IsOfNodes (some n) o' h h' = h

  seed_dependency-Good :
      (n : FlowNode) (namespace : Text) (d : Json) (s : Seeding)
      → Memᴰ (node_id n) (map node_id nodes)
      → Good s
      → Good (seed_dependency uuid to_string first (node_by_entity nodes) n namespace d s)
  seed_dependency-Good n namespace d s m j =
      let kind = string_or to_string uuid [] (at "kind" d) in
      let name = string_or to_string uuid [] (at "name" d) in
      let near = kind ++ (codes ":" ++ (namespace ++ (codes ":" ++ name))) in
      let far = kind ++ (codes ":default:" ++ name) in
      let target = or_node (get near (node_by_entity nodes)) (get far (node_by_entity nodes)) in
      elim (Bool-cases (is_object d && not (is_empty kind) && not (is_empty name))) [
        | inl b ↦ rw b (
            add_to-Good n (codes "dependsOn") target s m
              (or_node-IsOfNodes _ _ (by_entity-IsOfNodes near) (by_entity-IsOfNodes far)) j)
        | inr b ↦ rw b j
      ]

  seed_dependencies-Good :
      (n : FlowNode) (namespace : Text) (ds : Items) (s : Seeding)
      → Memᴰ (node_id n) (map node_id nodes)
      → Good s
      → Good (seed_dependencies uuid to_string first (node_by_entity nodes) n namespace ds s)
  unfolding seed_dependencies
  seed_dependencies-Good n namespace nil s m j = j
  seed_dependencies-Good n namespace (cons d ds) s m j =
      seed_dependencies-Good n namespace ds
        (seed_dependency uuid to_string first (node_by_entity nodes) n namespace d s) m
        (seed_dependency-Good n namespace d s m j)

  seed_apis-Good :
      (n : FlowNode) (rel : Text) (apis : Items) (s : Seeding)
      → Memᴰ (node_id n) (map node_id nodes)
      → Good s
      → Good (seed_apis uuid to_string first (node_by_entity nodes) n rel apis s)
  unfolding seed_apis
  seed_apis-Good n rel nil s m j = j
  seed_apis-Good n rel (cons a apis) s m j =
      let target =
        get (codes "API:default:" ++ api_name uuid to_string first (node_by_entity nodes) a)
          (node_by_entity nodes) in
      seed_apis-Good n rel apis (add_to uuid first n rel target s) m
        (add_to-Good n rel target s m (by_entity-IsOfNodes _) j)

  seed_node-Good :
      (entity_map : List (Text × Entity)) (n : FlowNode) (s : Seeding)
      → Memᴰ (node_id n) (map node_id nodes)
      → Good s
      → Good (seed_node uuid to_string first (node_by_entity nodes) entity_map n s)
  seed_node-Good entity_map n s m j = elim (Bool-cases (is_mock_node n)) [
    | inl b ↦ rw b j
    | inr b ↦ rw b (elim (Option-cases (get (node_entity_key n) entity_map)) [
      | inl e ↦ rw e j
      | inr (x, e) ↦ rw e (
          seed_apis-Good n (codes "provides") (names_of "providesApis" x.spec) _ m (
            seed_apis-Good n (codes "consumes") (names_of "consumesApis" x.spec) _ m (
              seed_dependencies-Good n (namespace_or_default x.metadata.namespace)
                (names_of "dependsOn" x.spec) s m j)))
    ])
  ]

  pub seed_nodes-Good :
      (entity_map : List (Text × Entity)) (todo : List FlowNode) (s : Seeding)
      → ((n : FlowNode) → Memᴰ n todo → Memᴰ n nodes)
      → Good s
      → Good (seed_nodes uuid to_string first (node_by_entity nodes) entity_map todo s)
  unfolding seed_nodes
  seed_nodes-Good entity_map [] s sub j = j
  seed_nodes-Good entity_map (n ∷ todo) s sub j =
      seed_nodes-Good entity_map todo
        (seed_node uuid to_string first (node_by_entity nodes) entity_map n s)
        (λ x m. sub x (Memᴰ.tail m))
        (seed_node-Good entity_map n s (map-Memᴰ node_id n nodes (sub n (Memᴰ.head refl))) j)
