-- ===== src/Editor/Intact/Removed.antt =====
-- The references of a flow from which nodes or edges are removed in the editor of web/src/pages/Flow.tsx.
use mc_gantry.Base.{
  present, ◌≡◌, refl, Bool, true, false, ◌&&◌, not, List, [], ◌∷◌, map, Memᴰ, Option, none, some,
  filter, subst, if◌then◌else◌, arith, Text, text_eq, is_empty,
}
use mc_gantry.Base.Map.{mem}
use mc_gantry.Flow.Types.{FlowNode, FlowEdge, FlowSpec, entity, mock, node_id, node_parent}
use mc_gantry.Flow.Graph.{parent_key, has_parent}
use mc_gantry.Flow.Copies.Clones.{IsParentIn, HasParentIn, HasEndsIn, ids_of}
use mc_gantry.Flow.Fields.{with_parent}
use mc_gantry.Editor.State.{Editor, is_id, set_nodes, set_edges}
use mc_gantry.Editor.Closed.{filtered-IsClosed, kept-Memᴰ, set_edges-IsClosed, filter-All}
use mc_gantry.Editor.Nodes.{has_parent_among}
use mc_gantry.Editor.Intact.{IsWhole, IsIntact, IsIntact-if}
use mc_gantry.Editor.Removing.{
  avoids, without_node, remove_node, avoids_all, without_nodes, is_id_among, drop_selected_nodes,
  is_other_edge, without_edge, drop_selected_edge, is_absent, remove_selected_nodes, remove_edge,
}

-- Clearing a parent, when some test on the parent says so.
node_id-if_cleared :
    (b : Bool) (n : FlowNode) → node_id (if b then with_parent none n else n) ≡ node_id n
node_id-if_cleared true (entity n) = refl
node_id-if_cleared true (mock n) = refl
node_id-if_cleared false n = refl

cleared_parent-HasParentIn : (ids : List Text) (n : FlowNode) → HasParentIn ids (with_parent none n)
cleared_parent-HasParentIn ids (entity n) = tt
cleared_parent-HasParentIn ids (mock n) = tt

-- A parent that stays is kept: `gone k` tells the ids that leave.
if_cleared-HasParentIn :
    (gone : Text → Bool) (b : Bool) (ids ids' : List Text) (n : FlowNode)
    → ((k : Text) → parent_key n ≡ some k → b ≡ false → gone k ≡ false)
    → ((k : Text) → Memᴰ k ids → not (gone k) ≡ true → Memᴰ k ids')
    → HasParentIn ids n
    → HasParentIn ids' (if b then with_parent none n else n)
if_cleared-HasParentIn gone true ids ids' n h w p = cleared_parent-HasParentIn ids' n
if_cleared-HasParentIn gone false ids ids' n h w p = moved (parent_key n) (λ k e. h k e refl) p
  where
    moved :
        (o : Option Text)
        → ((k : Text) → o ≡ some k → gone k ≡ false)
        → IsParentIn ids o
        → IsParentIn ids' o
    moved none h p = tt
    moved (some k) h p = w k p (rw (h k refl) refl)

both : (a b : Bool) → not a && not b ≡ true → (not a ≡ true) × (not b ≡ true)
both a b h = ground arith

has_parent-key :
    (n : FlowNode) (id k : Text)
    → parent_key n ≡ some k
    → has_parent n id ≡ false
    → text_eq k id ≡ false
has_parent-key n id k e h = of_parent (node_parent n) e h
  where
    same : (j k : Text) → some j ≡ some k → j ≡ k
    same j k e = cc

    of_parent :
        (o : Option Text)
        → present o ≡ some k
        → (elim o as (λ _. Bool) [ none ↦ false | some p ↦ text_eq p id ]) ≡ false
        → text_eq k id ≡ false
    of_parent none e h = absurd cc
    of_parent (some []) e h = absurd cc
    of_parent (some (c ∷ p)) e h = subst (λ j. text_eq j id ≡ false) (same (c ∷ p) k e) h

has_parent_among-key :
    (n : FlowNode) (ids : List Text) (k : Text)
    → parent_key n ≡ some k
    → has_parent_among ids n ≡ false
    → mem k ids ≡ false
unfolding has_parent_among
has_parent_among-key n ids k e h = rw (e, has_parent_among) at h

-- A connection that starts at a node that stays.
from-IsParentIn :
    (gone : Text → Bool) (b : Bool) (ids ids' : List Text) (from : Option Text)
    → ((k : Text) → present from ≡ some k → b ≡ false → gone k ≡ false)
    → ((k : Text) → Memᴰ k ids → not (gone k) ≡ true → Memᴰ k ids')
    → IsParentIn ids (present from)
    → IsParentIn ids' (present (if b then none else from))
from-IsParentIn gone true ids ids' from h w p = tt
from-IsParentIn gone false ids ids' from h w p = moved (present from) (λ k e. h k e refl) p
  where
    moved :
        (o : Option Text)
        → ((k : Text) → o ≡ some k → gone k ≡ false)
        → IsParentIn ids o
        → IsParentIn ids' o
    moved none h p = tt
    moved (some k) h p = w k p (rw (h k refl) refl)

is_id-key :
    (o : Option Text) (id k : Text) → present o ≡ some k → is_id o id ≡ false → text_eq k id ≡ false
is_id-key none id k e h = absurd cc
is_id-key (some []) id k e h = absurd cc
is_id-key (some (c ∷ p)) id k e h = subst (λ j. text_eq j id ≡ false) (same (c ∷ p) k e) h
  where
    same : (j k : Text) → some j ≡ some k → j ≡ k
    same j k e = cc

is_id_among-key :
    (o : Option Text) (ids : List Text) (k : Text)
    → present o ≡ some k
    → is_id_among ids o ≡ false
    → mem k ids ≡ false
is_id_among-key none ids k e h = absurd cc
is_id_among-key (some []) ids k e h = absurd cc
is_id_among-key (some (c ∷ p)) ids k e h = subst (λ j. mem j ids ≡ false) (same (c ∷ p) k e) h
  where
    same : (j k : Text) → some j ≡ some k → j ≡ k
    same j k e = cc

-- Some ids leave: `test` and `stop` tell whether a parent and the start of the connection are among them.
module _ (gone : Text → Bool) (test : FlowNode → Bool) (avoid : FlowEdge → Bool)
    (test_key : (n : FlowNode) (k : Text) → parent_key n ≡ some k → test n ≡ false → gone k ≡ false)
    (avoided : (e : FlowEdge)
      → avoid e ≡ true
      → (not (gone e.source) ≡ true) × (not (gone e.target) ≡ true)) where
  abbrev cleared_parent : FlowNode → FlowNode
  cleared_parent n = if test n then with_parent none n else n

  abbrev kept : Text → Bool
  kept k = not (gone k)

  kept_parent :
      (ids ids' : List Text) (n : FlowNode)
      → ((k : Text) → Memᴰ k ids → kept k ≡ true → Memᴰ k ids')
      → HasParentIn ids n
      → HasParentIn ids' (cleared_parent n)
  kept_parent ids ids' n w p = if_cleared-HasParentIn gone (test n) ids ids' n (test_key n) w p

  removed-IsWhole :
      (spec : FlowSpec) (from : Option Text) (stop : Bool)
      → ((k : Text) → present from ≡ some k → stop ≡ false → gone k ≡ false)
      → IsWhole from spec
      → IsWhole (if stop then none else from) (
          set_edges
            (filter avoid spec.edges)
            (set_nodes (map cleared_parent (filter (λ n. kept (node_id n)) spec.nodes)) spec))
  removed-IsWhole spec from stop stop_key h =
      let same : (n : FlowNode) → node_id (cleared_parent n) ≡ node_id n =
        λ n. node_id-if_cleared (test n) n in
      (
        filtered-IsClosed kept cleared_parent avoid same kept_parent avoided spec h.0,
        from-IsParentIn gone stop (ids_of spec) _ from stop_key
            (kept-Memᴰ kept cleared_parent avoid same kept_parent avoided spec.nodes) h.1,
      )

module _ (s : Editor) (i : IsIntact s) where
  pub remove_node-IsIntact : (id : Text) → IsIntact (remove_node id s)
  unfolding remove_node without_node
  remove_node-IsIntact id = IsIntact-if s.can_edit s _ i (
      removed-IsWhole (λ k. text_eq k id) (λ n. has_parent n id) (avoids id)
        (λ n. has_parent-key n id) (λ e. both (text_eq e.source id) (text_eq e.target id))
        s.flow_spec s.connect_from_id (is_id s.connect_from_id id) (is_id-key s.connect_from_id id)
        i)

  drop_selected_nodes-IsIntact : IsIntact (drop_selected_nodes s)
  unfolding without_nodes
  drop_selected_nodes-IsIntact =
      let ids = s.selected_node_ids in
      IsIntact-if (is_empty ids) _ s
        (removed-IsWhole (λ k. mem k ids) (has_parent_among ids) (avoids_all ids)
          (λ n. has_parent_among-key n ids) (λ e. both (mem e.source ids) (mem e.target ids))
          s.flow_spec s.connect_from_id (is_id_among ids s.connect_from_id)
          (is_id_among-key s.connect_from_id ids) i)
        i

  without_edge-IsWhole : (id : Text) → IsWhole s.connect_from_id (without_edge id s.flow_spec)
  without_edge-IsWhole id = (
    set_edges-IsClosed s.flow_spec (filter (is_other_edge id) s.flow_spec.edges)
        (filter-All (HasEndsIn (ids_of s.flow_spec)) (is_other_edge id) s.flow_spec.edges i.0.ends)
        i.0,
    i.1,
  )

  pub remove_edge-IsIntact : (id : Text) → IsIntact (remove_edge id s)
  unfolding remove_edge
  remove_edge-IsIntact id = IsIntact-if s.can_edit s _ i (without_edge-IsWhole id)

drop_selected_edge-IsIntact :
    (o : Option Text) (s : Editor) → IsIntact s → IsIntact (drop_selected_edge o s)
drop_selected_edge-IsIntact none s i = i
drop_selected_edge-IsIntact (some []) s i = i
drop_selected_edge-IsIntact (some (c ∷ id)) s i = without_edge-IsWhole s i (c ∷ id)

pub remove_selected_nodes-IsIntact : (s : Editor) → IsIntact s → IsIntact (remove_selected_nodes s)
unfolding remove_selected_nodes
remove_selected_nodes-IsIntact s i =
    let dropped = drop_selected_edge s.selected_edge_id (drop_selected_nodes s) in
    IsIntact-if s.can_edit s _ i (
      IsIntact-if (is_empty s.selected_node_ids && is_absent s.selected_edge_id)
        (record dropped { dirty = true; notice = [] }) s
        (drop_selected_edge-IsIntact s.selected_edge_id (drop_selected_nodes s)
          (drop_selected_nodes-IsIntact s i))
        i)
