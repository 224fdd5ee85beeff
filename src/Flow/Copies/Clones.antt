-- ===== src/Flow/Copies/Clones.antt =====
-- The clone of a flow is closed and has new ids: `cloneFlowSpecWithNewIDs` of web/src/pages/Flow.tsx.
use mc_gantry.Base.{
  present, ℕ, suc, ◌≡◌, refl, sym, ap, ap₂, ◌∙◌, ◌≢◌, ◌⊎◌, inl, inr, ⊎_elim, Bool, true, false,
  ◌&&◌, List, [], ◌∷◌, map, Memᴰ, Option, none, some, Option-cases, subst, arith, length, filter,
  All, Text, text_eq, text_eq_iff, text_eq_refl, Bool-cases,
}
use mathlib.Core.List.Memᴰ
use mc_gantry.Base.Map.{get, set, has, get-set}
use mc_gantry.Flow.Types.{FlowNode, FlowEdge, FlowSpec, entity, mock, node_id}
use mc_gantry.Flow.Graph.{parent_key}
use mc_gantry.Flow.Copies.{
  parent_in, get_text, clone_node, clone_edges, has_both_ends, add_node_ids,
  clone_flow_spec_with_new_ids,
}

abbrev pub ids_of : FlowSpec → List Text
ids_of spec = map node_id spec.nodes

abbrev pub IsParentIn : List Text → Option Text → Type 0
IsParentIn ids none = Unit
IsParentIn ids (some k) = Memᴰ k ids

-- The parent is missing or one of the ids.
abbrev pub HasParentIn : List Text → FlowNode → Type 0
HasParentIn ids node = IsParentIn ids (parent_key node)

abbrev pub HasEndsIn : List Text → FlowEdge → Type 0
HasEndsIn ids e = Memᴰ e.source ids × Memᴰ e.target ids

-- All references of a flow lead to its own nodes.
pub record IsClosed (spec : FlowSpec) : Type 0 where
  pub parents : All (HasParentIn (ids_of spec)) spec.nodes
  pub ends : All (HasEndsIn (ids_of spec)) spec.edges

-- A key of the map is the id of a node.
get-add_node_ids :
    (uuid : ℕ → Text) (i : ℕ) (nodes : List FlowNode) (m : List (Text × Text)) (k v : Text)
    → get k (add_node_ids uuid i nodes m) ≡ some v
    → Memᴰ k (map node_id nodes) ⊎ (get k m ≡ some v)
unfolding add_node_ids
get-add_node_ids uuid i [] m k v h = inr h
get-add_node_ids uuid i (node ∷ nodes) m k v h =
    ⊎_elim (λ later. inl (Memᴰ.tail later)) (λ here. split here)
      (get-add_node_ids uuid (suc i) nodes (set (node_id node) (uuid i) m) k v h)
  where
    split :
        get k (set (node_id node) (uuid i) m) ≡ some v
        → Memᴰ k (node_id node ∷ map node_id nodes) ⊎ (get k m ≡ some v)
    split here = elim (Bool-cases (text_eq (node_id node) k)) [
      | inl e ↦ inl (Memᴰ.head (sym ((text_eq_iff (node_id node) k).0 e)))
      | inr e ↦ inr (rw (get-set (node_id node) k (uuid i) m, e) at here)
    ]

node_id-clone_node :
    (m : List (Text × Text)) (node : FlowNode)
    → node_id (clone_node m node) ≡ get_text (node_id node) m
node_id-clone_node m (entity n) = refl
node_id-clone_node m (mock n) = refl

nothing_in_empty : (k v : Text) → get k [] ≢ some v
unfolding get
nothing_in_empty k v e = cc

module _ (m : List (Text × Text)) (copy : FlowNode → FlowNode)
    (node_id-copy : (node : FlowNode) → node_id (copy node) ≡ get_text (node_id node) m) where
  -- The id that the copy of a node gets.
  copy-Memᴰ :
      (nodes : List FlowNode) (k : Text)
      → Memᴰ k (map node_id nodes)
      → Memᴰ (get_text k m) (map node_id (map copy nodes))
  copy-Memᴰ [] k h = absurd (Memᴰ.not-nil h)
  copy-Memᴰ (node ∷ nodes) k h =
      ⊎_elim (λ e. Memᴰ.head (ap (λ j. get_text j m) e ∙ sym (node_id-copy node)))
        (λ later. Memᴰ.tail (copy-Memᴰ nodes k later)) (Memᴰ.cases_cons h)

-- What the map leads to is the id of a copy.
pub found-Memᴰ :
    (uuid : ℕ → Text) (i : ℕ) (nodes : List FlowNode) (copy : FlowNode → FlowNode)
    → ((node : FlowNode)
        → node_id (copy node) ≡ get_text (node_id node) (add_node_ids uuid i nodes []))
    → (k v : Text) → get k (add_node_ids uuid i nodes []) ≡ some v
    → Memᴰ v (map node_id (map copy nodes))
found-Memᴰ uuid i nodes copy id_of_copy k v h =
    let m = add_node_ids uuid i nodes [] in
    let there : get_text k m ≡ v = rw (h, get_text) refl in
    ⊎_elim
      (λ mem.
        subst (λ w. Memᴰ w (map node_id (map copy nodes))) there
          (copy-Memᴰ m copy id_of_copy nodes k mem))
      (λ e. absurd (nothing_in_empty k v e)) (get-add_node_ids uuid i nodes [] k v h)

module _ (m : List (Text × Text)) (ids : List Text)
    (found : (k v : Text) → get k m ≡ some v → Memᴰ v ids) where
  abbrev found_in : Option Text → Option Text
  found_in none = none
  found_in (some k) = get k m

  present-IsParentIn :
      (o : Option Text) → ((v : Text) → o ≡ some v → Memᴰ v ids) → IsParentIn ids (present o)
  present-IsParentIn none h = tt
  present-IsParentIn (some []) h = tt
  present-IsParentIn (some (c ∷ v)) h = h (c ∷ v) refl

  found_in-IsParentIn : (o : Option Text) → IsParentIn ids (present (found_in o))
  found_in-IsParentIn none = tt
  found_in-IsParentIn (some k) = present-IsParentIn (get k m) (found k)

  parent_in-found_in : (node : FlowNode) → parent_in m node ≡ found_in (parent_key node)
  parent_in-found_in node = elim (Option-cases (parent_key node)) [
    | inl e ↦ rw (e, parent_in, found_in) refl
    | inr (k, e) ↦ rw (e, parent_in, found_in) refl
  ]

  parent_in-IsParentIn : (node : FlowNode) → IsParentIn ids (present (parent_in m node))
  parent_in-IsParentIn node =
      subst (λ o. IsParentIn ids (present o)) (sym (parent_in-found_in node))
        (found_in-IsParentIn (parent_key node))

  clone_node-HasParentIn : (node : FlowNode) → HasParentIn ids (clone_node m node)
  clone_node-HasParentIn (entity n) = parent_in-IsParentIn (entity n)
  clone_node-HasParentIn (mock n) = parent_in-IsParentIn (mock n)

  clone_nodes-HasParentIn :
      (nodes : List FlowNode) → All (HasParentIn ids) (map (clone_node m) nodes)
  clone_nodes-HasParentIn [] = tt
  clone_nodes-HasParentIn (node ∷ nodes) =
      (clone_node-HasParentIn node, clone_nodes-HasParentIn nodes)

  end_is_in : (k : Text) → has k m ≡ true → Memᴰ (get_text k m) ids
  end_is_in k h = elim (Option-cases (get k m)) [
    | inl e ↦ absurd (false_ne_true (rw (e, has) at h))
    | inr (v, e) ↦ rw (e, get_text) (found k v e)
  ]
    where
      false_ne_true : false ≢ true
      false_ne_true e = cc

  pub clone_edges-HasEndsIn :
      (uuid : ℕ → Text) (i : ℕ) (edges : List FlowEdge)
      → All (HasEndsIn ids) (clone_edges uuid m i (filter (has_both_ends m) edges))
  unfolding clone_edges filter
  clone_edges-HasEndsIn uuid i [] = tt
  clone_edges-HasEndsIn uuid i (e ∷ edges) = elim (Bool-cases (has_both_ends m e)) [
    | inl h ↦ rw h (
      (
        end_is_in e.source (and_left (has e.source m) (has e.target m) h),
        end_is_in e.target (and_right (has e.source m) (has e.target m) h),
      ),
      clone_edges-HasEndsIn uuid (suc i) edges,
    )
    | inr h ↦ rw h (clone_edges-HasEndsIn uuid i edges)
  ]
    where
      and_left : (a b : Bool) → (a && b) ≡ true → a ≡ true
      and_left a b h = ground arith

      and_right : (a b : Bool) → (a && b) ≡ true → b ≡ true
      and_right a b h = ground arith

-- All references of a cloned flow lead to its own nodes: the ends of its edges, and the parents of
-- its nodes where they have one, whatever the flow and its ids are.
pub clone_flow_spec_with_new_ids-IsClosed :
    (uuid : ℕ → Text) (spec : FlowSpec) → IsClosed (clone_flow_spec_with_new_ids uuid spec)
unfolding clone_flow_spec_with_new_ids
clone_flow_spec_with_new_ids-IsClosed uuid spec =
    let m = add_node_ids uuid 0 spec.nodes [] in
    let ids = map node_id (map (clone_node m) spec.nodes) in
    record {
      parents =
          clone_nodes-HasParentIn m ids
            (found-Memᴰ uuid 0 spec.nodes (clone_node m) (node_id-clone_node m)) spec.nodes;
      ends =
          clone_edges-HasEndsIn m ids
            (found-Memᴰ uuid 0 spec.nodes (clone_node m) (node_id-clone_node m)) uuid
            (length spec.nodes) spec.edges;
    }

abbrev HasFreeId : FlowNode → List FlowNode → Type 0
HasFreeId node [] = Unit
HasFreeId node (other ∷ nodes) = (node_id other ≢ node_id node) × HasFreeId node nodes

abbrev pub HasDistinctIds : List FlowNode → Type 0
HasDistinctIds [] = Unit
HasDistinctIds (node ∷ nodes) = HasFreeId node nodes × HasDistinctIds nodes

-- The results of some calls of `crypto.randomUUID`, one for each element.
abbrev pub uuids_for {ℓ} : {A : Type ℓ} → (ℕ → Text) → ℕ → List A → List Text
uuids_for uuid i [] = []
uuids_for uuid i (x ∷ xs) = uuid i ∷ uuids_for uuid (suc i) xs

get_free :
    (uuid : ℕ → Text) (i : ℕ) (node : FlowNode) (nodes : List FlowNode) (m : List (Text × Text))
    → HasFreeId node nodes
    → get (node_id node) (add_node_ids uuid i nodes m) ≡ get (node_id node) m
unfolding add_node_ids
get_free uuid i node [] m h = refl
get_free uuid i node (other ∷ nodes) m (ne, h) =
    get_free uuid (suc i) node nodes (set (node_id other) (uuid i) m) h
    ∙ get-set (node_id other) (node_id node) (uuid i) m
    ∙ ground (arith, text_eq_iff (node_id other) (node_id node))

clone_ids :
    (uuid : ℕ → Text) (i : ℕ) (nodes : List FlowNode) (m : List (Text × Text))
    → HasDistinctIds nodes
    → map node_id (map (clone_node (add_node_ids uuid i nodes m)) nodes) ≡ uuids_for uuid i nodes
unfolding add_node_ids
clone_ids uuid i [] m h = refl
clone_ids uuid i (node ∷ nodes) m (free, h) =
    let m' = set (node_id node) (uuid i) m in
    let here : get (node_id node) (add_node_ids uuid (suc i) nodes m') ≡ some (uuid i) =
      get_free uuid (suc i) node nodes m' free
      ∙ rw (get-set (node_id node) (node_id node) (uuid i) m, text_eq_refl (node_id node)) refl in
    ap₂ ◌∷◌
      (node_id-clone_node (add_node_ids uuid (suc i) nodes m') node
        ∙ ap (λ o. elim o [ none ↦ [] | some v ↦ v ]) here)
      (clone_ids uuid (suc i) nodes m' h)

-- In the clone of a flow whose nodes have distinct ids, the nodes have the results of the first
-- calls of `crypto.randomUUID` as their ids, one call for each node and in order.
pub ids-clone_flow_spec_with_new_ids :
    (uuid : ℕ → Text) (spec : FlowSpec)
    → HasDistinctIds spec.nodes
    → ids_of (clone_flow_spec_with_new_ids uuid spec) ≡ uuids_for uuid 0 spec.nodes
unfolding clone_flow_spec_with_new_ids
ids-clone_flow_spec_with_new_ids uuid spec h = clone_ids uuid 0 spec.nodes [] h
