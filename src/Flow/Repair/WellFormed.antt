-- ===== src/Flow/Repair/WellFormed.antt =====
-- What a repaired flow is like: `ensureFlowSpec` of web/src/lib/flow.tsx.
use mc_gantry.Base.{
  ℕ, ◌≡◌, refl, inl, inr, Bool, true, false, ◌&&◌, not, List, is_empty, Text, codes, All,
  Bool-cases, trim, arith,
}
use mc_gantry.Utils.Json.{Json, undef, null, bool, num, str, arr, obj, Items, nil, cons}
use mc_gantry.Flow.Types.{FlowNode, entity, mock, FlowEdge, FlowSpec}
use mc_gantry.Flow.Repair.{
  is_text, is_object, visible_or, at, calls_after, is_named, nodes_of_one, nodes_of, edge_of,
  is_complete, edges_of, items_of, calls_after_all, ensure_flow_spec,
}

-- An entity node names its entity, and a mock node shows a label.
abbrev pub IsNamed : FlowNode → Type 0
IsNamed (entity n) = (is_empty n.entity_ref.kind ≡ false) × (is_empty n.entity_ref.name ≡ false)
IsNamed (mock n) = is_empty (trim n.label) ≡ false

-- An edge has two ends and a relation.
abbrev pub IsFilled : FlowEdge → Type 0
IsFilled e =
    (is_empty e.source ≡ false) × (is_empty e.target ≡ false) × (is_empty e.relation ≡ false)

pub record IsWellFormed (spec : FlowSpec) : Type 0 where
  pub named : All IsNamed spec.nodes
  pub filled : All IsFilled spec.edges

visible_or-visible : (v : Json) → is_empty (trim (visible_or (codes "Mock Node") v)) ≡ false
visible_or-visible (str s) = elim (Bool-cases (is_empty (trim s))) [
  | inl e ↦ rw (e, visible_or) (unfold trim in refl)
  | inr e ↦ rw (e, visible_or) e
]
visible_or-visible undef = unfold trim in refl
visible_or-visible null = unfold trim in refl
visible_or-visible (bool b) = unfold trim in refl
visible_or-visible (num n) = unfold trim in refl
visible_or-visible (arr vs) = unfold trim in refl
visible_or-visible (obj fs) = unfold trim in refl

both : (a b : Bool) → (not a && not b) ≡ true → (a ≡ false) × (b ≡ false)
both a b h = ground arith

three : (a b c : Bool) → (not a && not b && not c) ≡ true → (a ≡ false) × (b ≡ false) × (c ≡ false)
three a b c h = ground arith

module _ (to_string : Json → Text) (uuid : ℕ → Text) where
  nodes_of_one-IsNamed :
      (i : ℕ) (node : Json) (rest : List FlowNode)
      → All IsNamed rest
      → All IsNamed (nodes_of_one to_string uuid i node rest)
  nodes_of_one-IsNamed i node rest h = elim (Bool-cases (is_text "mock" (at "nodeType" node))) [
    | inl e ↦ rw (e, nodes_of_one) (visible_or-visible (at "label" node), h)
    | inr e ↦ elim (Bool-cases (is_named to_string uuid node)) [
      | inl named ↦ rw (e, named, nodes_of_one) (both _ _ named, h)
      | inr named ↦ rw (e, named, nodes_of_one) h
    ]
  ]

  nodes_of-IsNamed : (i : ℕ) (nodes : Items) → All IsNamed (nodes_of to_string uuid i nodes)
  unfolding nodes_of
  nodes_of-IsNamed i nil = tt
  nodes_of-IsNamed i (cons node nodes) = elim (Bool-cases (is_object node)) [
    | inl e ↦ rw e (
        nodes_of_one-IsNamed i node _
          (nodes_of-IsNamed (calls_after to_string uuid i (at "id" node)) nodes))
    | inr e ↦ rw e (nodes_of-IsNamed i nodes)
  ]

  edges_of-IsFilled : (i : ℕ) (edges : Items) → All IsFilled (edges_of to_string uuid i edges)
  unfolding edges_of
  edges_of-IsFilled i nil = tt
  edges_of-IsFilled i (cons edge edges) =
      let rest = edges_of-IsFilled (calls_after to_string uuid i (at "id" edge)) edges in
      elim (Bool-cases (is_object edge)) [
        | inl e ↦ elim (Bool-cases (is_complete to_string uuid (edge_of to_string uuid i edge))) [
          | inl f ↦ rw (e, f) (three _ _ _ f, rest)
          | inr f ↦ rw (e, f) rest
        ]
        | inr e ↦ rw e (edges_of-IsFilled i edges)
      ]

-- Whatever the stored value is, in the flow that is read from it every entity node has a kind and a
-- name, every mock node has a label that is not blank, and every edge has a source, a target and
-- a relation.
pub ensure_flow_spec-IsWellFormed :
    (to_string : Json → Text) (uuid : ℕ → Text) (spec : Json)
    → IsWellFormed (ensure_flow_spec to_string uuid spec)
unfolding ensure_flow_spec
ensure_flow_spec-IsWellFormed to_string uuid spec = record {
  named = nodes_of-IsNamed to_string uuid 0 (items_of (at "nodes" spec));
  filled =
      edges_of-IsFilled to_string uuid
        (calls_after_all to_string uuid 0 (items_of (at "nodes" spec)))
        (items_of (at "edges" spec));
}
