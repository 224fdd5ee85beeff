-- ===== src/Editor/Intact.antt =====
-- The references of a flow in the editor, and the handlers of web/src/pages/Flow.tsx that change nodes
-- in place or put them into each other.
pub mod Added
pub mod Removed
pub mod Linked
pub mod Dragged
pub mod Run
use mc_gantry.Base.{
  present, ◌≡◌, refl, sym, subst, ◌⊎◌, inl, inr, Bool, true, false, ◌||◌, ◌&&◌, not, List, [], ◌∷◌,
  map, Memᴰ, Option, none, some, Option-cases, Bool-cases, any, if◌then◌else◌, arith, Text, text_eq,
  is_empty,
}
use mc_gantry.Base.Int.{ℤ}
use mc_gantry.Base.Map.{get, mem}
use mc_gantry.Flow.Types.{FlowNode, FlowSpec, Position, entity, mock, node_id}
use mc_gantry.Flow.Graph.{absolute_in, parent_key, has_parent, node_map_of}
use mc_gantry.Flow.Copies.Clones.{IsParentIn, IsClosed, ids_of}
use mc_gantry.Flow.Fields.{with_position, with_parent, with_locked, with_z_index}
use mc_gantry.Editor.State.{Editor, where_allowed, set_nodes}
use mc_gantry.Editor.Closed.{
  Keeps, Keeps-refl, Keeps-if, map_nodes-IsClosed, map_nodes-ids, get-node_map_of,
}
use mc_gantry.Editor.Nodes.{
  Delta, Patch, badge, shape, label, subtitle, color, width, height, position, locked, patched,
  patch_node, is_nudged, moved_by, nudge_node, nudge_selected_nodes, lock_node,
  toggle_lock_selected, next_z, raise_node, adjust_z_index, update_node,
}
use mc_gantry.Editor.Nesting.{
  lift_out, has_parent_key, unnest_node, unnest_selected, free_child, unnest_all_children,
  relative_to, is_descendant, put_into, nested, drop_on, end_drag,
}

-- All references of the flow lead to its own nodes, and so does the start of a connection.
abbrev pub IsWhole : Option Text → FlowSpec → Type 0
IsWhole from spec = IsClosed spec × IsParentIn (ids_of spec) (present from)

abbrev pub IsIntact : Editor → Type 0
IsIntact s = IsWhole s.connect_from_id s.flow_spec

pub IsIntact-if :
    (b : Bool) (s t : Editor) → IsIntact s → IsIntact t → IsIntact (if b then t else s)
IsIntact-if true s t hs ht = ht
IsIntact-if false s t hs ht = hs

pub present-IsParentIn :
    (ids : List Text) (o : Option Text)
    → ((k : Text) → o ≡ some k → Memᴰ k ids)
    → IsParentIn ids (present o)
present-IsParentIn ids none h = tt
present-IsParentIn ids (some []) h = tt
present-IsParentIn ids (some (c ∷ k)) h = h (c ∷ k) refl

pub mapped-IsWhole :
    (from : Option Text) (spec : FlowSpec) (f : FlowNode → FlowNode)
    → ((n : FlowNode) → Keeps (ids_of spec) n (f n))
    → IsWhole from spec
    → IsWhole from (set_nodes (map f spec.nodes) spec)
mapped-IsWhole from spec f h (c, p) = (
  map_nodes-IsClosed spec f h c,
  subst (λ ids. IsParentIn ids (present from)) (sym (map_nodes-ids spec f h)) p,
)

pub Keeps-with_position :
    (ids : List Text) (p : Position) (n : FlowNode) → Keeps ids n (with_position p n)
Keeps-with_position ids p (entity n) = (refl, λ h. h)
Keeps-with_position ids p (mock n) = (refl, λ h. h)

Keeps-with_locked :
    (ids : List Text) (l : Option Bool) (n : FlowNode) → Keeps ids n (with_locked l n)
Keeps-with_locked ids l (entity n) = (refl, λ h. h)
Keeps-with_locked ids l (mock n) = (refl, λ h. h)

Keeps-with_z_index :
    (ids : List Text) (z : Option ℤ) (n : FlowNode) → Keeps ids n (with_z_index z n)
Keeps-with_z_index ids z (entity n) = (refl, λ h. h)
Keeps-with_z_index ids z (mock n) = (refl, λ h. h)

Keeps-with_parent :
    (ids : List Text) (parent : Option Text) (p : Position) (n : FlowNode)
    → IsParentIn ids (present parent)
    → Keeps ids n (with_parent parent (with_position p n))
Keeps-with_parent ids parent p (entity n) h = (refl, λ _. h)
Keeps-with_parent ids parent p (mock n) h = (refl, λ _. h)

Keeps-patched : (ids : List Text) (patch : Patch) (n : FlowNode) → Keeps ids n (patched patch n)
Keeps-patched ids (badge b) (entity n) = (refl, λ h. h)
Keeps-patched ids (badge b) (mock n) = (refl, λ h. h)
Keeps-patched ids (shape b) (entity n) = (refl, λ h. h)
Keeps-patched ids (shape b) (mock n) = (refl, λ h. h)
Keeps-patched ids (label b) (entity n) = (refl, λ h. h)
Keeps-patched ids (label b) (mock n) = (refl, λ h. h)
Keeps-patched ids (subtitle b) (entity n) = (refl, λ h. h)
Keeps-patched ids (subtitle b) (mock n) = (refl, λ h. h)
Keeps-patched ids (color b) (entity n) = (refl, λ h. h)
Keeps-patched ids (color b) (mock n) = (refl, λ h. h)
Keeps-patched ids (width b) (entity n) = (refl, λ h. h)
Keeps-patched ids (width b) (mock n) = (refl, λ h. h)
Keeps-patched ids (height b) (entity n) = (refl, λ h. h)
Keeps-patched ids (height b) (mock n) = (refl, λ h. h)
Keeps-patched ids (position p) n = Keeps-with_position ids p n
Keeps-patched ids (locked l) n = Keeps-with_locked ids l n

-- A handler that changes nodes in place, whatever it does to the rest of the state.
module _ (s : Editor) (i : IsIntact s) where
  pub Intact-map :
      (f : FlowNode → FlowNode)
      → ((n : FlowNode) → Keeps (ids_of s.flow_spec) n (f n))
      → IsWhole s.connect_from_id (set_nodes (map f s.flow_spec.nodes) s.flow_spec)
  Intact-map f h = mapped-IsWhole s.connect_from_id s.flow_spec f h i

  pub nudge_selected_nodes-IsIntact :
      (at_once : Bool) (dx dy : ℤ) → IsIntact (nudge_selected_nodes at_once dx dy s)
  unfolding nudge_selected_nodes
  nudge_selected_nodes-IsIntact at_once dx dy =
      let ids = s.selected_node_ids in
      let moved =
        Intact-map (nudge_node ids dx dy)
          (λ n. Keeps-if _ (is_nudged ids n) n (moved_by dx dy n) (Keeps-with_position _ _ n)) in
      elim (Bool-cases (not s.can_edit || is_empty ids)) [
        | inl e ↦ rw e i
        | inr e ↦ rw e (elim (Bool-cases (at_once && any (is_nudged ids) s.flow_spec.nodes)) [
          | inl a ↦ rw a moved
          | inr a ↦ rw a moved
        ])
      ]

  pub toggle_lock_selected-IsIntact : IsIntact (toggle_lock_selected s)
  unfolding toggle_lock_selected
  toggle_lock_selected-IsIntact =
      let ids = s.selected_node_ids in
      IsIntact-if (not s.can_edit || is_empty ids) _ s
        (Intact-map (lock_node ids _)
          (λ n. Keeps-if _ (mem (node_id n) ids) n _ (Keeps-with_locked _ _ n)))
        i

  pub adjust_z_index-IsIntact : (delta : Delta) → IsIntact (adjust_z_index delta s)
  unfolding adjust_z_index
  adjust_z_index-IsIntact delta =
      let ids = s.selected_node_ids in
      IsIntact-if (not s.can_edit || is_empty ids) _ s
        (Intact-map (raise_node ids delta s.flow_spec.nodes)
          (λ n. Keeps-if _ (mem (node_id n) ids) n _ (Keeps-with_z_index _ _ n)))
        i

  pub update_node-IsIntact : (id : Text) (patch : Patch) → IsIntact (update_node id patch s)
  unfolding update_node
  update_node-IsIntact id patch = IsIntact-if s.can_edit s _ i (
      Intact-map (patch_node id patch)
        (λ n. Keeps-if _ (text_eq (node_id n) id) n _ (Keeps-patched _ patch n)))

  pub unnest_selected-IsIntact : IsIntact (unnest_selected s)
  unfolding unnest_selected
  unnest_selected-IsIntact =
      let ids = s.selected_node_ids in
      IsIntact-if (not s.can_edit || is_empty ids) _ s
        (Intact-map (unnest_node ids (node_map_of s.flow_spec.nodes)) (λ n.
          Keeps-if _ (mem (node_id n) ids && has_parent_key n) n _
            (Keeps-with_parent _ none _ n tt)))
        i

  pub unnest_all_children-IsIntact : (id : Text) → IsIntact (unnest_all_children id s)
  unfolding unnest_all_children
  unnest_all_children-IsIntact id = IsIntact-if s.can_edit s _ i (
      Intact-map (free_child id (node_map_of s.flow_spec.nodes))
        (λ n. Keeps-if _ (has_parent n id) n _ (Keeps-with_parent _ none _ n tt)))

put_into-IsWhole :
    (from : Option Text) (spec : FlowSpec) (id target : Text) (p : Position)
    → Memᴰ target (ids_of spec)
    → IsWhole from spec
    → IsWhole from (set_nodes (map (put_into id p target) spec.nodes) spec)
put_into-IsWhole from spec id target p m h =
    mapped-IsWhole from spec (put_into id p target)
      (λ n.
        Keeps-if _ (text_eq (node_id n) id) n _
          (Keeps-with_parent _ (some target) p n (known target m)))
      h
  where
    known : (t : Text) → Memᴰ t (ids_of spec) → IsParentIn (ids_of spec) (present (some t))
    known [] m = tt
    known (c ∷ t) m = m

nested-IsWhole :
    (from : Option Text) (spec : FlowSpec) (id target : Text)
    → IsWhole from spec
    → IsWhole from (nested id target spec)
unfolding nested
nested-IsWhole from spec id target h = elim (Option-cases (get id (node_map_of spec.nodes))) [
  | inl e ↦ rw (e, nested) h
  | inr (node, e) ↦ elim (Option-cases (get target (node_map_of spec.nodes))) [
    | inl e' ↦ rw (e, e', nested) h
    | inr (target_node, e') ↦
        let put =
          put_into-IsWhole from spec id target
            (relative_to (absolute_in (node_map_of spec.nodes) target_node)
              (absolute_in (node_map_of spec.nodes) node))
            (get-node_map_of spec.nodes target target_node e') h in
        elim (Bool-cases
          (text_eq target (node_id node) || is_descendant spec.nodes (node_id node) target)) [
            | inl b ↦ rw (e, e', b, nested) h
            | inr b ↦ rw (e, e', b, nested) put
          ]
  ]
]

pub end_drag-IsIntact :
    (s : Editor) (id : Text) (target : Option Text) → IsIntact s → IsIntact (end_drag id target s)
unfolding end_drag
end_drag-IsIntact s id none i = i
end_drag-IsIntact s id (some []) i = i
end_drag-IsIntact s id (some (c ∷ target)) i =
    nested-IsWhole s.connect_from_id s.flow_spec id (c ∷ target) i
