-- ===== src/Editor/Intact/Linked.antt =====
-- The references of a flow whose edges are made or changed in the editor of web/src/pages/Flow.tsx.
use mc_gantry.Base.{
  ℕ, ◌+◌, present, ◌≡◌, sym, subst, inl, inr, Bool, true, false, ◌&&◌, not, List, [], ◌∷◌, map,
  Memᴰ, Option, none, some, Option-cases, Bool-cases, All, All-append, any, if◌then◌else◌, Text,
  text_eq, codes,
}
use mc_gantry.Base.Map.{set_all}
use mc_gantry.Utils.Json.{Json}
use mc_gantry.Flow.Types.{FlowNode, FlowEdge, node_id}
use mc_gantry.Flow.Copies.Clones.{IsParentIn, HasEndsIn, ids_of}
use mc_gantry.Editor.State.{Editor, Entity, is_id, find}
use mc_gantry.Editor.Closed.{set_edges-IsClosed, map-Memᴰ}
use mc_gantry.Editor.Intact.{IsIntact, IsIntact-if, present-IsParentIn}
use mc_gantry.Editor.Adding.{entity_key}
use mc_gantry.Editor.Edges.{
  Patch, relation, label, direction, source_handle, target_handle, animated, patched, patch_edge,
  update_edge, is_between, connect, create_edge, click_selects, click_from, click_node, new_edge,
  Seeding, is_same_link, maybe_add, seed_edges_from_relationships,
}
use mc_gantry.Editor.Seeds.{seed_nodes-Good}
use mc_gantry.Editor.Actions.{toggle_connect}

patched-HasEndsIn :
    (ids : List Text) (patch : Patch) (e : FlowEdge)
    → HasEndsIn ids e
    → HasEndsIn ids (patched patch e)
patched-HasEndsIn ids (relation t) e h = h
patched-HasEndsIn ids (label t) e h = h
patched-HasEndsIn ids (direction t) e h = h
patched-HasEndsIn ids (source_handle t) e h = h
patched-HasEndsIn ids (target_handle t) e h = h
patched-HasEndsIn ids (animated t) e h = h

patched_edges-All :
    (ids : List Text) (id : Text) (patch : Patch) (edges : List FlowEdge)
    → All (HasEndsIn ids) edges
    → All (HasEndsIn ids) (map (patch_edge id patch) edges)
patched_edges-All ids id patch [] h = tt
patched_edges-All ids id patch (e ∷ edges) (p, h) =
    (either (text_eq e.id id) e p, patched_edges-All ids id patch edges h)
  where
    either :
        (b : Bool) (e : FlowEdge)
        → HasEndsIn ids e
        → HasEndsIn ids (if b then patched patch e else e)
    either true e h = patched-HasEndsIn ids patch e h
    either false e h = h

pub update_edge-IsIntact :
    (id : Text) (patch : Patch) (s : Editor) → IsIntact s → IsIntact (update_edge id patch s)
unfolding update_edge
update_edge-IsIntact id patch s i = IsIntact-if s.can_edit s _ i (
  set_edges-IsClosed s.flow_spec (map (patch_edge id patch) s.flow_spec.edges)
      (patched_edges-All (ids_of s.flow_spec) id patch s.flow_spec.edges i.0.ends) i.0,
  i.1,
)

find-Memᴰ :
    (p : FlowNode → Bool) (nodes : List FlowNode) (n : FlowNode)
    → find p nodes ≡ some n
    → Memᴰ n nodes
unfolding find
find-Memᴰ p [] n h = absurd cc
find-Memᴰ p (x ∷ nodes) n h = elim (Bool-cases (p x)) [
  | inl e ↦ Memᴰ.head (sym (same x n (rw e at h)))
  | inr e ↦ Memᴰ.tail (find-Memᴰ p nodes n (rw e at h))
]
  where
    same : (x n : FlowNode) → some x ≡ some n → x ≡ n
    same x n e = cc

pub toggle_connect-IsIntact : (s : Editor) → IsIntact s → IsIntact (toggle_connect s)
unfolding toggle_connect
toggle_connect-IsIntact s (c, p) =
    elim (Option-cases (find (λ node. is_id s.selected_node_id (node_id node)) s.flow_spec.nodes)) [
      | inl e ↦ rw (e, toggle_connect) (c, p)
      | inr (n, e) ↦
          let m =
            map-Memᴰ node_id n s.flow_spec.nodes
              (find-Memᴰ (λ node. is_id s.selected_node_id (node_id node)) s.flow_spec.nodes n e) in
          rw (e, toggle_connect)
            (
              c,
              present-IsParentIn (ids_of s.flow_spec) _
                  (from_node (is_id s.connect_from_id (node_id n)) n m),
            )
    ]
  where
    from_node :
        (b : Bool) (n : FlowNode)
        → Memᴰ (node_id n) (ids_of s.flow_spec)
        → (k : Text) → (if b then none else some (node_id n)) ≡ some k
        → Memᴰ k (ids_of s.flow_spec)
    from_node true n m k e = absurd cc
    from_node false n m k e = subst (λ j. Memᴰ j (ids_of s.flow_spec)) (same (node_id n) k e) m
      where
        same : (j k : Text) → some j ≡ some k → j ≡ k
        same j k e = cc

module _ (uuid : ℕ → Text) (s : Editor) (i : IsIntact s) where
  connect-IsIntact :
      (source target : Text)
      → Memᴰ source (ids_of s.flow_spec)
      → Memᴰ target (ids_of s.flow_spec)
      → IsIntact (connect uuid source target s)
  connect-IsIntact source target ms mt = (
    set_edges-IsClosed s.flow_spec _
        (All-append (HasEndsIn (ids_of s.flow_spec)) s.flow_spec.edges
          (new_edge (uuid s.next_uuid) source target (codes "calls") ∷ []) i.0.ends ((ms, mt), tt))
        i.0,
    tt,
  )

  create_edge-IsIntact :
      (source target : Text)
      → Memᴰ source (ids_of s.flow_spec)
      → Memᴰ target (ids_of s.flow_spec)
      → IsIntact (create_edge uuid source target s)
  unfolding create_edge
  create_edge-IsIntact source target ms mt =
      IsIntact-if s.can_edit s _ i (elim (Bool-cases (text_eq source target)) [
        | inl b ↦ rw b i
        | inr b ↦ rw b (elim (Option-cases (find (is_between source target) s.flow_spec.edges)) [
          | inl e ↦ rw e (connect-IsIntact source target ms mt)
          | inr (d, e) ↦ rw e (i.0, tt)
        ])
      ])

  click_selects-IsIntact : (shift : Bool) (id : Text) → IsIntact (click_selects shift id s)
  click_selects-IsIntact true id = i
  click_selects-IsIntact false id = i

  pub click_node-IsIntact :
      (shift : Bool) (id : Text)
      → Memᴰ id (ids_of s.flow_spec)
      → IsIntact (click_node uuid shift id s)
  unfolding click_node
  click_node-IsIntact shift id m = of_from s.connect_from_id i.1
    where
      of_from :
          (from : Option Text)
          → IsParentIn (ids_of s.flow_spec) (present from)
          → IsIntact (click_from uuid from shift id s)
      of_from none p = click_selects-IsIntact shift id
      of_from (some []) p = click_selects-IsIntact shift id
      of_from (some (c ∷ from)) p =
          IsIntact-if (s.can_edit && not (text_eq (c ∷ from) id)) _ _
            (click_selects-IsIntact shift id) (create_edge-IsIntact (c ∷ from) id p m)

-- The edges that grow from relationships join nodes of the flow.
abbrev Joins : List FlowNode → Seeding → Type 0
Joins nodes s = All (HasEndsIn (map node_id nodes)) s.next_edges

maybe_add-Joins :
    (uuid : ℕ → Text) (first : ℕ) (nodes : List FlowNode) (source target rel : Text) (s : Seeding)
    → Memᴰ source (map node_id nodes)
    → Memᴰ target (map node_id nodes)
    → Joins nodes s
    → Joins nodes (maybe_add uuid first source target rel s)
maybe_add-Joins uuid first nodes source target rel s ms mt j =
    elim (Bool-cases (text_eq source target)) [
      | inl b ↦ rw b j
      | inr b ↦ rw b (elim (Bool-cases (any (is_same_link source target rel) s.next_edges)) [
        | inl d ↦ rw d j
        | inr d ↦ rw d (
            All-append (HasEndsIn (map node_id nodes)) s.next_edges
              (new_edge (uuid (first + s.added)) source target rel ∷ []) j ((ms, mt), tt))
      ])
    ]

pub seed_edges_from_relationships-IsIntact :
    (uuid : ℕ → Text) (to_string : Json → Text) (available : List Entity) (s : Editor)
    → IsIntact s
    → IsIntact (seed_edges_from_relationships uuid to_string available s)
unfolding seed_edges_from_relationships
seed_edges_from_relationships-IsIntact uuid to_string available s i =
    let start : Seeding = record { next_edges = s.flow_spec.edges; added = 0 } in
    let nodes = s.flow_spec.nodes in
    IsIntact-if s.can_edit s _ i (
      set_edges-IsClosed s.flow_spec _
          (seed_nodes-Good uuid to_string s.next_uuid nodes (Joins nodes)
            (maybe_add-Joins uuid s.next_uuid nodes)
            (set_all [] (map (λ e. (entity_key e, e)) available)) nodes start (λ n m. m) i.0.ends)
          i.0,
      i.1,
    )
