-- ===== src/Flow/Copies/Tests.antt =====
-- Duplicates of concrete flows.
use mc_gantry.Base.{
  ℕ, ◌≡◌, ◌≢◌, refl, ◌⊎◌, true, false, List, [], ◌∷◌, ◌++◌, map, Option, none, some, Text, codes,
  text_eq, text_ne, ascii_lower,
}
use mc_gantry.Base.Map.{mem, get}
use mc_gantry.Flow.Types.{FlowNode, FlowEdge, FlowSpec, mock, box, node_parent, one_way}
use mc_gantry.Base.Int.{pos}
use mc_gantry.Export.Bytes.{decimal}
use mc_gantry.Flow.Copies.{copy_base_of, next_duplicate_flow_name, clone_flow_spec_with_new_ids}
use mc_gantry.Flow.Copies.Names.{IsFirstFree, next_duplicate_flow_name-IsFirstFree}
use mc_gantry.Flow.Copies.Clones.{
  IsClosed, ids_of, uuids_for, clone_flow_spec_with_new_ids-IsClosed,
  ids-clone_flow_spec_with_new_ids,
}

abbrev lower : Text → Text
lower = map ascii_lower

abbrev taken : List Text
taken = codes "pay" ∷ codes "pay-copy" ∷ codes "pay-copy-2" ∷ []

names_tests :
    (next_duplicate_flow_name lower (codes "Pay") taken ≡ some (codes "pay-copy-3"))
    × (next_duplicate_flow_name lower (codes "?") taken ≡ some (codes "flow-copy"))
unfolding next_duplicate_flow_name mem ascii_lower text_eq decimal
names_tests = (refl, refl)

next_duplicate_flow_name-IsFirstFree_example :
    (name : Text) × (next_duplicate_flow_name lower (codes "Pay") taken ≡ some name)
    × (mem name taken ≡ false)
    × ((name ≡ copy_base_of lower (codes "Pay"))
        ⊎ (mem (copy_base_of lower (codes "Pay")) taken ≡ true)
          × IsFirstFree taken (copy_base_of lower (codes "Pay")) 2 name)
next_duplicate_flow_name-IsFirstFree_example =
    next_duplicate_flow_name-IsFirstFree lower (codes "Pay") taken

abbrev step : Text → Option Text → FlowNode
step id parent = mock (record {
  id = id;
  label = id;
  subtitle = none;
  shape = box;
  color = none;
  width = none;
  height = none;
  position = record { x = pos 10; y = pos 1 };
  locked = none;
  z_index = none;
  parent_id = parent;
  badge = none;
})

abbrev link : Text → Text → FlowEdge
link source target = record {
  id = codes "e";
  source = source;
  target = target;
  relation = codes "calls";
  direction = one_way;
  label = none;
  animated = false;
  source_handle = none;
  target_handle = none;
}

-- A flow in which one edge leads to no node.
abbrev spec : FlowSpec
spec = record {
  viewport = record { x = pos 0; y = pos 0; zoom = pos 100 };
  nodes = step (codes "a") none ∷ step (codes "b") (some (codes "a")) ∷ [];
  edges = link (codes "a") (codes "z") ∷ link (codes "a") (codes "b") ∷ [];
}

abbrev uuid : ℕ → Text
uuid i = codes "n" ++ decimal i

abbrev edge_ids : FlowEdge → List Text
edge_ids e = e.id ∷ e.source ∷ e.target ∷ []

clone_test :
    (map node_parent (clone_flow_spec_with_new_ids uuid spec).nodes ≡ none ∷ some (codes "n0") ∷ [])
    × (map edge_ids (clone_flow_spec_with_new_ids uuid spec).edges
        ≡ (codes "n2" ∷ codes "n0" ∷ codes "n1" ∷ []) ∷ [])
unfolding clone_flow_spec_with_new_ids get text_eq decimal
clone_test = (refl, refl)

clone_flow_spec_with_new_ids-IsClosed_example : IsClosed (clone_flow_spec_with_new_ids uuid spec)
clone_flow_spec_with_new_ids-IsClosed_example = clone_flow_spec_with_new_ids-IsClosed uuid spec

b_ne_a : codes "b" ≢ codes "a"
unfolding text_eq
b_ne_a = text_ne (codes "b") (codes "a") refl

ids-clone_flow_spec_with_new_ids_example :
    ids_of (clone_flow_spec_with_new_ids uuid spec) ≡ uuids_for uuid 0 spec.nodes
ids-clone_flow_spec_with_new_ids_example =
    ids-clone_flow_spec_with_new_ids uuid spec ((b_ne_a, tt), (tt, tt))
