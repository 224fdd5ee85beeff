-- ===== src/Editor/Tests.antt =====
-- The editor at concrete flows.
use mc_gantry.Base.{
  ◌≡◌, ◌≢◌, refl, ⊎_elim, true, false, List, [], ◌∷◌, map, none, some, Text, codes, text_eq,
}
use mathlib.Core.List.Memᴰ
use mc_gantry.Base.Int.{pos, ◌+ℤ◌, ◌-ℤ◌}
use mc_gantry.Utils.Json.{Json, str, obj, arr, cons, nil, end, field}
use mc_gantry.Export.Bytes.{decimal}
use mc_gantry.Flow.Types.{FlowNode, FlowEdge, box, node_id, node_parent, node_position}
use mc_gantry.Flow.Graph.Scan.{IsChild}
use mc_gantry.Flow.Graph.Descendants.{child, deeper}
use mc_gantry.Editor.State.{Editor, Entity, view, no_guides, at_e}
use mc_gantry.Editor.Dragging.{drag_move, release, drag_handle}
use mc_gantry.Editor.Actions.{
  Action, act, toggle_connect, nudge, arrange, press, drag_to, drag_end, press_handle,
  drag_handle_by, let_go, press_node, press_handle_of, duplicate, connect_from, add_mock, click,
  seed, remove, run,
}
use mc_gantry.Editor.Nodes.{nudge_selected_nodes}
use mc_gantry.Editor.Adding.{Template, duplicate_selected_nodes, add_mock_node}
use mc_gantry.Editor.Removing.{remove_node}
use mc_gantry.Flow.Graph.{has_parent}
use mc_gantry.Editor.Acyclic.{IsAcyclic, end_drag-IsAcyclic}
use mc_gantry.Editor.Nesting.{end_drag}
use mc_gantry.Editor.Intact.{IsIntact}
use mc_gantry.Editor.Intact.Run.{run-IsIntact}
use mc_gantry.Editor.Guards.{run-read_only}
use mc_gantry.Editor.Marks.{every_at_once, run-unmarked}
use mc_gantry.Editor.Edges.{click_node, seed_edges_from_relationships}
use mc_gantry.Editor.Links.{IsTidy, seed_edges_from_relationships-IsTidy}
use mc_gantry.Editor.Titles.{next_duplicate_flow_title}
use mc_gantry.Editor.Samples.{
  half, size_of, uuid, to_string, step_node, service_node, with_nodes, two_steps,
}

abbrev box_template : Template
box_template = record { label = codes "Box"; subtitle = []; shape = box; color = codes "red" }

-- Two nodes are joined, one is copied, and one is removed.
abbrev session : List Action
session =
    click false (codes "a")
    ∷ connect_from
    ∷ click false (codes "b")
    ∷ add_mock box_template
    ∷ duplicate
    ∷ remove (codes "a")
    ∷ []

session_tests :
    (map node_id
        (run uuid to_string half size_of session (with_nodes true two_steps)).flow_spec.nodes
      ≡ codes "b" ∷ codes "n1" ∷ codes "n2" ∷ [])
    × ((run uuid to_string half size_of session (with_nodes true two_steps)).flow_spec.edges ≡ [])
    × ((run uuid to_string half size_of session (with_nodes true two_steps)).dirty ≡ true)
unfolding run decimal text_eq act remove_node duplicate_selected_nodes add_mock_node toggle_connect
    click_node
session_tests = (refl, refl, refl)

run-IsIntact_example :
    IsIntact (run uuid to_string half size_of session (with_nodes true two_steps))
run-IsIntact_example =
    run-IsIntact uuid to_string half size_of session (with_nodes true two_steps)
      (record { parents = (tt, (tt, tt)); ends = tt }, tt)

-- Somebody without the permission, after the editing mode is left.
abbrev reader : Editor
reader = record (with_nodes false two_steps) { mode = view }

abbrev attempts : List Action
attempts = arrange ∷ press false (codes "a") ∷ drag_end (some (codes "b")) ∷ session

run-read_only_example :
    ((run uuid to_string half size_of attempts reader).flow_spec ≡ reader.flow_spec)
    × ((run uuid to_string half size_of attempts reader).dirty ≡ false)
run-read_only_example =
    run-read_only uuid to_string half size_of attempts reader (refl, refl, refl, refl)

-- The first step is dragged to another place, and dropped on the second; its handle is dragged.
abbrev pointer : List Action
pointer =
    press false (codes "a")
    ∷ drag_to (λ v. v) (record { x = pos 40; y = pos 5 }) no_guides
    ∷ drag_end (some (codes "b"))
    ∷ press_handle at_e (codes "b")
    ∷ drag_handle_by (pos 30) (pos 0)
    ∷ let_go
    ∷ []

pointer_tests :
    (map node_position
        (run uuid to_string half size_of pointer (with_nodes true two_steps)).flow_spec.nodes
      ≡ record { x = pos 30; y = pos 4 } ∷ record { x = pos 10; y = pos 1 } ∷ [])
    × (map node_parent
          (run uuid to_string half size_of pointer (with_nodes true two_steps)).flow_spec.nodes
        ≡ some (codes "b") ∷ none ∷ [])
unfolding run text_eq act press_node drag_move release press_handle_of drag_handle ◌+ℤ◌ ◌-ℤ◌
pointer_tests = (refl, refl)

-- A click and a nudge of what is not there change nothing.
abbrev idle : List Action
idle = click true (codes "a") ∷ click true (codes "a") ∷ nudge true (pos 4) (pos 0) ∷ seed [] ∷ []

idle_is_unmarked : (run uuid to_string half size_of idle (with_nodes true two_steps)).dirty ≡ false
unfolding run text_eq act seed_edges_from_relationships nudge_selected_nodes click_node
idle_is_unmarked = refl

run-unmarked_example :
    ((run uuid to_string half size_of idle (with_nodes true two_steps)).flow_spec
      ≡ (with_nodes true two_steps).flow_spec)
    × ((with_nodes true two_steps).dirty ≡ false)
unfolding every_at_once
run-unmarked_example =
    run-unmarked uuid to_string half size_of idle (with_nodes true two_steps) refl idle_is_unmarked

-- A step in a step.
abbrev nested_steps : List FlowNode
nested_steps = step_node (codes "a") none ∷ step_node (codes "b") (some (codes "a")) ∷ []

-- The outer step is not put into the inner one.
nesting_tests :
    (map node_parent
        (end_drag (codes "a") (some (codes "b")) (with_nodes true nested_steps)).flow_spec.nodes
      ≡ none ∷ some (codes "a") ∷ [])
    × (map node_parent
          (end_drag (codes "a") (some (codes "b")) (with_nodes true two_steps)).flow_spec.nodes
        ≡ some (codes "b") ∷ none ∷ [])
unfolding end_drag text_eq
nesting_tests = (refl, refl)

no-IsChild : (current id : Text) → ¬ IsChild two_steps current id
no-IsChild current id (n, m, has, e) =
    ⊎_elim (λ same. orphan n (step_node (codes "a") none) same refl has)
      (λ later.
        ⊎_elim (λ same. orphan n (step_node (codes "b") none) same refl has)
          (λ rest. Memᴰ.not-nil rest) (Memᴰ.cases_cons later))
      (Memᴰ.cases_cons m)
  where
    orphan : (n x : FlowNode) → n ≡ x → node_parent x ≡ none → has_parent n current ≢ true
    orphan n x same alone h = cc

two_steps-IsAcyclic : IsAcyclic two_steps
two_steps-IsAcyclic root (child c) = no-IsChild root root c
two_steps-IsAcyclic root (deeper {current} h c) = no-IsChild current root c

end_drag-IsAcyclic_example :
    IsAcyclic (end_drag (codes "a") (some (codes "b")) (with_nodes true two_steps)).flow_spec.nodes
end_drag-IsAcyclic_example =
    end_drag-IsAcyclic (codes "a") (some (codes "b")) (with_nodes true two_steps)
      two_steps-IsAcyclic

-- A service that depends on another, twice.
abbrev dependency : Json
dependency =
    obj (
      field (codes "kind") (str (codes "Service"))
        (field (codes "name") (str (codes "ledger")) end))

abbrev catalog : List Entity
catalog =
    record {
      kind = codes "Service";
      metadata = record {
        name = codes "pay";
        namespace = none;
        title = none;
        description = none;
        owner = none;
      };
      spec = obj (field (codes "dependsOn") (arr (cons dependency (cons dependency nil))) end);
    }
    ∷ []

abbrev services : List FlowNode
services = service_node (codes "p") (codes "pay") ∷ service_node (codes "l") (codes "ledger") ∷ []

abbrev ends_of : FlowEdge → Text × Text
ends_of e = (e.source, e.target)

seed_test :
    map ends_of
      (seed_edges_from_relationships uuid to_string catalog
        (with_nodes true services)).flow_spec.edges
    ≡ (codes "p", codes "l") ∷ []
unfolding seed_edges_from_relationships text_eq decimal
seed_test = refl

no_edges-IsTidy : IsTidy []
unfolding IsTidy
no_edges-IsTidy = tt

seed_edges_from_relationships-IsTidy_example :
    IsTidy
      (seed_edges_from_relationships uuid to_string catalog
        (with_nodes true services)).flow_spec.edges
seed_edges_from_relationships-IsTidy_example =
    seed_edges_from_relationships-IsTidy uuid to_string catalog (with_nodes true services)
      no_edges-IsTidy

title_tests :
    (next_duplicate_flow_title (codes "Pay") ≡ codes "Pay Copy")
    × (next_duplicate_flow_title (codes "Pay Copy") ≡ codes "Pay Copy 2")
    × (next_duplicate_flow_title (codes " Pay Copy 19 ") ≡ codes "Pay Copy 20")
unfolding next_duplicate_flow_title
title_tests = (refl, refl, refl)
