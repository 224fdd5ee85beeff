-- ===== src/Editor/Acyclic.antt =====
-- Which node lies in which, when a node is dropped on another in the editor of web/src/pages/Flow.tsx:
-- the end of `handleUp`.
use mc_gantry.Base.{
  ◌≡◌, refl, sym, ◌∙◌, ap, subst, ◌⊎◌, ◌≢◌, inl, inr, ⊎_elim, Bool, true, false, ◌||◌, List, [],
  ◌∷◌, map, Memᴰ, Option, none, some, Option-cases, Bool-cases, arith, Text, text_eq, text_eq_iff,
}
use mathlib.Core.List.Memᴰ
use mc_gantry.Base.Map.{get, mem}
use mc_gantry.Flow.Types.{FlowNode, FlowSpec, Position, entity, mock, node_id}
use mc_gantry.Flow.Graph.{absolute_in, has_parent, node_map_of}
use mc_gantry.Flow.Graph.Scan.{IsChild}
use mc_gantry.Flow.Graph.Descendants.{Below, child, deeper, collect_descendants-decides}
use mc_gantry.Flow.Fields.{with_position, with_parent}
use mc_gantry.Editor.State.{Editor}
use mc_gantry.Editor.Closed.{found-is_node}
use mc_gantry.Editor.Nesting.{is_descendant, put_into, nested, end_drag, relative_to}

-- No chain of parents comes back to where it starts.
abbrev pub IsAcyclic : List FlowNode → Type 0
IsAcyclic nodes = (root : Text) → ¬ Below nodes root root

Below-trans :
    (nodes : List FlowNode) (a b : Text)
    → Below nodes a b
    → {c : Text} → Below nodes b c
    → Below nodes a c
Below-trans nodes a b h (child c) = deeper h c
Below-trans nodes a b h (deeper k c) = deeper (Below-trans nodes a b h k) c

map-Memᴰ-inv :
    (f : FlowNode → FlowNode) (n' : FlowNode) (nodes : List FlowNode)
    → Memᴰ n' (map f nodes)
    → (n : FlowNode) × Memᴰ n nodes × (n' ≡ f n)
map-Memᴰ-inv f n' [] m = absurd (Memᴰ.not-nil m)
map-Memᴰ-inv f n' (x ∷ nodes) m =
    ⊎_elim (λ e. (x, Memᴰ.head refl, e))
      (λ later. let (n, k, e) = map-Memᴰ-inv f n' nodes later in (n, Memᴰ.tail k, e))
      (Memᴰ.cases_cons m)

node_id-with_parent :
    (o : Option Text) (p : Position) (n : FlowNode)
    → node_id (with_parent o (with_position p n)) ≡ node_id n
node_id-with_parent o p (entity n) = refl
node_id-with_parent o p (mock n) = refl

has_parent-with_parent :
    (t : Text) (p : Position) (n : FlowNode) (k : Text)
    → has_parent (with_parent (some t) (with_position p n)) k ≡ text_eq t k
has_parent-with_parent t p (entity n) k = refl
has_parent-with_parent t p (mock n) k = refl

module _ (nodes : List FlowNode) (id target : Text) (p : Position) where
  abbrev after : List FlowNode
  after = map (put_into id p target) nodes

  -- The one new link, or a link of before that does not lead to the node that was dropped.
  put_into-IsChild :
      (current c : Text)
      → IsChild after current c
      → ((current ≡ target) × (c ≡ id)) ⊎ IsChild nodes current c
  put_into-IsChild current c (n', m, has, e) =
      let (n, k, same) = map-Memᴰ-inv (put_into id p target) n' nodes m in
      split n k (subst (λ x. has_parent x current ≡ true) same has) (sym (ap node_id same) ∙ e)
    where
      split :
          (n : FlowNode)
          → Memᴰ n nodes
          → has_parent (put_into id p target n) current ≡ true
          → node_id (put_into id p target n) ≡ c
          → ((current ≡ target) × (c ≡ id)) ⊎ IsChild nodes current c
      split n k has e = elim (Bool-cases (text_eq (node_id n) id)) [
        | inl b ↦
            let has' : text_eq target current ≡ true =
              sym (has_parent-with_parent target p n current) ∙ (rw b at has) in
            let e' : node_id n ≡ c = sym (node_id-with_parent (some target) p n) ∙ (rw b at e) in
            inl
              (sym ((text_eq_iff target current).0 has'), sym e' ∙ (text_eq_iff (node_id n) id).0 b)
        | inr b ↦ inr (n, k, rw b at has, rw b at e)
      ]

  module _ (apart : target ≢ id) (not_below : ¬ Below nodes id target) where
    abbrev Way : Text → Text → Type 0
    Way a b = ((a ≡ target) ⊎ Below nodes a target) × ((b ≡ id) ⊎ Below nodes id b)

    no_way : (b : Text) → (b ≡ id) ⊎ Below nodes id b → b ≢ target
    no_way b (inl e) t = apart (sym t ∙ e)
    no_way b (inr h) t = not_below (subst (Below nodes id) t h)

    put_into-Below : (a : Text) {b : Text} → Below after a b → Below nodes a b ⊎ Way a b
    put_into-Below a {b} (child c) =
        ⊎_elim (λ (s, e). inr (inl s, inl e)) (λ h. inl (child h)) (put_into-IsChild a b c)
    put_into-Below a {b} (deeper {current} h c) =
        ⊎_elim
          (λ (s, e).
            ⊎_elim (λ k. inr (inr (subst (Below nodes a) s k), inl e))
              (λ w. absurd (no_way current w.1 s)) (put_into-Below a h))
          (λ link.
            ⊎_elim (λ k. inl (deeper k link)) (λ w. inr (w.0, inr (further current link w.1)))
              (put_into-Below a h))
          (put_into-IsChild current b c)
      where
        further :
            (current : Text)
            → IsChild nodes current b
            → (current ≡ id) ⊎ Below nodes id current
            → Below nodes id b
        further current link (inl e) = child (subst (λ k. IsChild nodes k b) e link)
        further current link (inr k) = deeper k link

    put_into-IsAcyclic : IsAcyclic nodes → IsAcyclic after
    put_into-IsAcyclic acyclic root h = ⊎_elim (acyclic root) no_ring (put_into-Below root h)
      where
        no_ring : ¬ Way root root
        no_ring (inl t, w) = no_way root w t
        no_ring (inr k, inl e) = not_below (subst (λ a. Below nodes a target) e k)
        no_ring (inr k, inr w) = not_below (Below-trans nodes id root w k)

is_descendant_iff :
    (nodes : List FlowNode) (root id : Text)
    → is_descendant nodes root id ≡ false
    → ¬ Below nodes root id
unfolding is_descendant
is_descendant_iff nodes root id e h =
    let (d, found, decides) = collect_descendants-decides nodes root in
    let there : mem id d ≡ false = rw (found, is_descendant) at e in
    false_is_true (sym there ∙ (decides id).1 h)
  where
    false_is_true : false ≢ true
    false_is_true e = cc

found_id :
    (nodes : List FlowNode) (id : Text) (node : FlowNode)
    → get id (node_map_of nodes) ≡ some node
    → id ≡ node_id node
unfolding node_map_of
found_id nodes id node e = (found-is_node node_id nodes id node e).0

text_neq : (a b c : Text) → b ≡ c → text_eq a c ≡ false → a ≢ b
text_neq a b c e f h = ground (arith, text_eq_iff a c, h ∙ e)

nested-IsAcyclic :
    (id target : Text) (spec : FlowSpec)
    → IsAcyclic spec.nodes
    → IsAcyclic (nested id target spec).nodes
unfolding nested
nested-IsAcyclic id target spec h = elim (Option-cases (get id (node_map_of spec.nodes))) [
  | inl e ↦ rw (e, nested) h
  | inr (node, e) ↦ elim (Option-cases (get target (node_map_of spec.nodes))) [
    | inl e' ↦ rw (e, e', nested) h
    | inr (target_node, e') ↦
        let position =
          relative_to (absolute_in (node_map_of spec.nodes) target_node)
            (absolute_in (node_map_of spec.nodes) node) in
        elim (guard_cases (text_eq target (node_id node))
          (is_descendant spec.nodes (node_id node) target)) [
            | inl b ↦ rw (e, e', b, nested) h
            | inr (b, same, below) ↦
                rw (e, e', b, nested)
                  (put_into-IsAcyclic spec.nodes id target position (apart node (known node e) same)
                    (not_below node (known node e) below) h)
          ]
  ]
]
  where
    known : (node : FlowNode) → get id (node_map_of spec.nodes) ≡ some node → id ≡ node_id node
    known node e = found_id spec.nodes id node e

    guard_cases :
        (a b : Bool) → ((a || b) ≡ true) ⊎ (((a || b) ≡ false) × (a ≡ false) × (b ≡ false))
    guard_cases true b = inl refl
    guard_cases false true = inl refl
    guard_cases false false = inr (refl, refl, refl)

    apart :
        (node : FlowNode) → id ≡ node_id node → text_eq target (node_id node) ≡ false → target ≢ id
    apart node k same = text_neq target id (node_id node) k same

    not_below :
        (node : FlowNode)
        → id ≡ node_id node
        → is_descendant spec.nodes (node_id node) target ≡ false
        → ¬ Below spec.nodes id target
    not_below node k below h =
        is_descendant_iff spec.nodes (node_id node) target below
          (subst (λ r. Below spec.nodes r target) k h)

-- After the drag of a node ended, on another node or beside all of them, no chain of parents comes back
-- to where it starts, if none did before.
pub end_drag-IsAcyclic :
    (id : Text) (target : Option Text) (s : Editor)
    → IsAcyclic s.flow_spec.nodes
    → IsAcyclic (end_drag id target s).flow_spec.nodes
unfolding end_drag
end_drag-IsAcyclic id none s h = h
end_drag-IsAcyclic id (some []) s h = h
end_drag-IsAcyclic id (some (c ∷ target)) s h = nested-IsAcyclic id (c ∷ target) s.flow_spec h
