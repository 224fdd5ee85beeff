-- ===== src/Flow/Repair/Tests.antt =====
-- Flows from concrete values.
use mc_gantry.Base.{ℕ, ◌≡◌, refl, List, [], ◌∷◌, ◌++◌, map, Text, codes, text_eq, trim}
use mc_gantry.Base.Int.{pos}
use mc_gantry.Export.Bytes.{decimal}
use mc_gantry.Utils.Json.{Json, undef, num, str, arr, obj, nil, cons, end, field}
use mc_gantry.Flow.Types.{FlowEdge, node_id}
use mc_gantry.Flow.Repair.{at, nodes_of, edges_of, calls_after_all, ensure_flow_spec}
use mc_gantry.Flow.Repair.WellFormed.{IsWellFormed, ensure_flow_spec-IsWellFormed}

abbrev to_string : Json → Text
to_string v = codes "?"

abbrev uuid : ℕ → Text
uuid i = codes "n" ++ decimal i

abbrev ref : Json
ref =
    obj
      (field (codes "kind") (str (codes "Service")) (field (codes "name") (str (codes "pay")) end))

-- An entity, something that is no node, a mock without anything, an entity without a name, and an
-- edge of which the relation is missing.
abbrev stored : Json
stored = obj (
    field (codes "nodes")
      (arr (
        cons (obj (field (codes "id") (str (codes "a")) (field (codes "entityRef") ref end))) (
          cons (num (pos 3))
            (cons (obj (field (codes "nodeType") (str (codes "mock")) end)) (cons (obj end) nil)))))
      (field (codes "edges")
        (arr (
          cons
            (obj (
              field (codes "source") (str (codes "a"))
                (field (codes "target") (str (codes "n0")) end)))
            (cons (obj end) nil)))
        end))

abbrev edge_texts : FlowEdge → List Text
edge_texts e = e.id ∷ e.source ∷ e.target ∷ e.relation ∷ []

repair_tests :
    (map node_id (ensure_flow_spec to_string uuid stored).nodes ≡ codes "a" ∷ codes "n0" ∷ [])
    × (map edge_texts (ensure_flow_spec to_string uuid stored).edges
        ≡ (codes "n2" ∷ codes "a" ∷ codes "n0" ∷ codes "calls" ∷ []) ∷ [])
    × ((ensure_flow_spec to_string uuid undef).nodes ≡ [])
unfolding ensure_flow_spec at nodes_of edges_of calls_after_all text_eq trim decimal
repair_tests = (refl, refl, refl)

ensure_flow_spec-IsWellFormed_example : IsWellFormed (ensure_flow_spec to_string uuid stored)
ensure_flow_spec-IsWellFormed_example = ensure_flow_spec-IsWellFormed to_string uuid stored
