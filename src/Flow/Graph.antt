-- ===== src/Flow/Graph.antt =====
-- Nesting of nodes: `getAbsolutePosition` and `collectDescendants` of web/src/lib/flow.tsx. The
-- source's recursion and its `while` loop take fuel here, and `none` means that it ran out.
pub mod Absolute
pub mod Scan
pub mod Descendants
mod Tests
use mc_gantry.Base.{
  present, ℕ, zero, suc, ◌+◌, Bool, true, false, ◌&&◌, not, List, [], ◌∷◌, ◌++◌, map, Option, none,
  some, if◌then◌else◌, Text, text_eq, length,
}
use mc_gantry.Base.Int.{◌+ℤ◌}
use mc_gantry.Base.Map.{get, set_all, mem}
use mc_gantry.Flow.Types.{Position, FlowNode, node_id, node_parent, node_position}

-- `new Map(nodes.map((node) => [node.id, node]))`: the last node of an id counts.
unfoldable pub node_map_of : List FlowNode → List (Text × FlowNode)
unfolding set_all
node_map_of nodes = set_all [] (map (λ n. (node_id n, n)) nodes)

-- `!node.parentId` fails on a missing and on an empty id.
abbrev pub parent_key : FlowNode → Option Text
parent_key n = present (node_parent n)

abbrev pub add_position : Position → Position → Position
add_position base p = record { x = base.x +ℤ p.x; y = base.y +ℤ p.y }

abbrev pub offset_by : FlowNode → Option Position → Option Position
offset_by n none = none
offset_by n (some base) = some (add_position base (node_position n))

module _ (node_map : List (Text × FlowNode)) where
  -- The parent that the recursion goes on with, if there is one.
  pub next_parent : FlowNode → List Text → Option FlowNode
  unfolding get mem
  next_parent node visited =
      if mem (node_id node) visited
      then none
      else elim (parent_key node) [ none ↦ none | some k ↦ get k node_map ]

  pub absolute_from : ℕ → FlowNode → List Text → Option Position
  unfolding next_parent
  absolute_from zero node visited = none
  absolute_from (suc fuel) node visited = elim (next_parent node visited) [
    | none ↦ some (node_position node)
    | some parent ↦ offset_by node (absolute_from fuel parent (node_id node ∷ visited))
  ]

  unfoldable pub get_absolute_position : FlowNode → Option Position
  unfolding absolute_from
  get_absolute_position node = absolute_from (length node_map + 2) node []

pub record Search : Type 0 where
  pub descendants : List Text
  pub queue : List Text

-- The position on the canvas; `getAbsolutePosition` always ends, so that the second case is none.
unfoldable pub absolute_in : List (Text × FlowNode) → FlowNode → Position
unfolding get_absolute_position
absolute_in node_map node = elim (get_absolute_position node_map node) [
  | some p ↦ p
  | none ↦ node_position node
]

-- `n.parentId === current`
abbrev pub has_parent : FlowNode → Text → Bool
has_parent n current = elim (node_parent n) [ none ↦ false | some p ↦ text_eq p current ]

abbrev pub visit : Search → Text → Search
visit s id = record { descendants = s.descendants ++ id ∷ []; queue = s.queue ++ id ∷ [] }

-- The body of the `for` loop, and the loop over the nodes.
pub offer : Text → Search → FlowNode → Search
unfolding mem text_eq
offer current s n =
    if has_parent n current && not (mem (node_id n) s.descendants) then visit s (node_id n) else s

pub scan : Text → Search → List FlowNode → Search
unfolding offer
scan current s [] = s
scan current s (n ∷ nodes) = scan current (offer current s n) nodes

module _ (nodes : List FlowNode) where
  -- One round of the `while` loop, after `current` left the queue.
  pub expand : Search → Text → List Text → Search
  unfolding scan
  expand s current rest = scan current (record { descendants = s.descendants; queue = rest }) nodes

  pub loop : ℕ → Search → Option (List Text)
  unfolding expand
  loop zero s = elim s.queue [ [] ↦ some s.descendants | _ ∷ _ ↦ none ]
  loop (suc fuel) s = elim s.queue [
    | [] ↦ some s.descendants
    | current ∷ rest ↦ loop fuel (expand s current rest)
  ]

  unfoldable pub collect_descendants : Text → Option (List Text)
  unfolding loop
  collect_descendants node_id =
      loop (length nodes + 1) (record { descendants = []; queue = node_id ∷ [] })
