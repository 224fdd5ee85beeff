-- ===== src/Flow/Arrange.antt =====
-- The levels of the nodes in `autoArrangeNodes` of web/src/lib/flow.tsx, up to the grouping by level: the
-- graph of the nodes that lie in no other, and the longest paths in it by Kahn's algorithm.
pub mod Ends
pub mod Rows
use mc_gantry.Base.{
  ℕ, zero, suc, ◌+◌, max, Bool, true, false, ◌||◌, ◌&&◌, not, ◌==◌, List, [], ◌∷◌, ◌++◌, Option,
  none, some, map, filter, length, if◌then◌else◌, Text, text_eq,
}
use mc_gantry.Base.Int.{ℤ, pos, negsuc, ◌-ℤ◌}
use mc_gantry.Base.Map.{get, set, has, mem}
use mc_gantry.Flow.Types.{FlowNode, FlowEdge, FlowSpec, node_id}
use mc_gantry.Flow.Graph.{parent_key}

-- `!n.parentId`
abbrev pub is_top_level : FlowNode → Bool
is_top_level n = elim (parent_key n) [ none ↦ true | some k ↦ false ]

-- `incoming.get(id)!`; the source says that the key is there.
abbrev pub neighbours : Text → List (Text × List Text) → List Text
neighbours id m = elim (get id m) [ none ↦ [] | some ids ↦ ids ]

-- `outgoing.get(from)!.add(to)`
abbrev pub add_neighbour : Text → Text → List (Text × List Text) → List (Text × List Text)
add_neighbour from to m =
    let ids = neighbours from m in set from (if mem to ids then ids else ids ++ to ∷ []) m

pub record Links : Type 0 where
  pub incoming : List (Text × List Text)
  pub outgoing : List (Text × List Text)

unfoldable pub no_links : List FlowNode → List (Text × List Text) → List (Text × List Text)
unfolding set
no_links [] m = m
no_links (n ∷ nodes) m = no_links nodes (set (node_id n) [] m)

-- An edge between two of the nodes, and not from one to itself.
abbrev pub is_link : List Text → FlowEdge → Bool
is_link ids e = not (text_eq e.source e.target) && mem e.source ids && mem e.target ids

unfoldable pub add_links : List Text → List FlowEdge → Links → Links
unfolding get set mem text_eq
add_links ids [] l = l
add_links ids (e ∷ edges) l =
    let next : Links = record {
      outgoing = add_neighbour e.source e.target l.outgoing;
      incoming = add_neighbour e.target e.source l.incoming;
    } in
    if is_link ids e then add_links ids edges next else add_links ids edges l

unfoldable pub links_of : List FlowNode → List FlowEdge → Links
unfolding no_links add_links
links_of nodes edges =
    add_links (map node_id nodes) edges
      (record { incoming = no_links nodes []; outgoing = no_links nodes [] })

-- The state of the `while` loop.
pub record Layering : Type 0 where
  pub level : List (Text × ℕ)
  pub remaining : List (Text × ℤ)
  pub queue : List Text

-- `level.get(id) ?? 0`
abbrev pub level_or_zero : Text → List (Text × ℕ) → ℕ
level_or_zero id level = elim (get id level) [ none ↦ 0 | some l ↦ l ]

abbrev pub is_zero : ℤ → Bool
is_zero (pos zero) = true
is_zero (pos (suc k)) = false
is_zero (negsuc k) = false

-- A target's number of predecessors goes down; at zero it is queued. A missing one is not a number.
unfoldable pub count_down : Text → Layering → Layering
unfolding get set
count_down target s = elim (get target s.remaining) [
  | none ↦ s
  | some count ↦
      let next = count -ℤ pos 1 in
      record s {
        remaining = set target next s.remaining;
        queue = if is_zero next then s.queue ++ target ∷ [] else s.queue;
      }
]

-- The body of the `for` loop over the targets.
unfoldable pub relax : ℕ → Text → Layering → Layering
unfolding count_down get set
relax my_level target s =
    count_down target
      (record s { level = set target (max (level_or_zero target s.level) (my_level + 1)) s.level })

unfoldable pub relax_all : ℕ → List Text → Layering → Layering
unfolding relax
relax_all my_level [] s = s
relax_all my_level (target ∷ targets) s = relax_all my_level targets (relax my_level target s)

-- One round of the `while` loop, after `id` left the queue.
abbrev pub visit_level : List (Text × List Text) → Layering → Text → List Text → Layering
visit_level outgoing s id rest =
    relax_all (level_or_zero id s.level) (neighbours id outgoing) (record s { queue = rest })

module _ (outgoing : List (Text × List Text)) where
  unfoldable pub layer_loop : ℕ → Layering → Option Layering
  unfolding relax_all get
  layer_loop zero s = elim s.queue [ [] ↦ some s | id ∷ rest ↦ none ]
  layer_loop (suc fuel) s = elim s.queue [
    | [] ↦ some s
    | id ∷ rest ↦ layer_loop fuel (visit_level outgoing s id rest)
  ]

-- `remainingInDegree`, in the order of its entries.
unfoldable pub in_degrees :
    List (Text × List Text) → List FlowNode → List (Text × ℤ) → List (Text × ℤ)
unfolding get set
in_degrees incoming [] m = m
in_degrees incoming (n ∷ nodes) m =
    in_degrees incoming nodes (set (node_id n) (pos (length (neighbours (node_id n) incoming))) m)

-- The nodes without predecessors start at level 0.
unfoldable pub start_level : List (Text × ℤ) → List (Text × ℕ) → List (Text × ℕ)
unfolding set
start_level [] level = level
start_level ((id, count) ∷ counts) level =
    let next = set id 0 level in
    if is_zero count then start_level counts next else start_level counts level

unfoldable pub start_queue : List (Text × ℤ) → List Text
start_queue [] = []
start_queue ((id, count) ∷ counts) =
    let rest = start_queue counts in if is_zero count then id ∷ rest else rest

unfoldable pub start_layering : List (Text × ℤ) → Layering
unfolding start_level start_queue
start_layering counts = record {
  level = start_level counts [];
  remaining = counts;
  queue = start_queue counts;
}

-- `Math.max(...predLevels) + 1`, or 0 where no predecessor has a level.
unfoldable pub level_after : List (Text × ℕ) → List Text → ℕ
unfolding get
level_after level [] = 0
level_after level (p ∷ preds) =
    let rest = level_after level preds in
    elim (get p level) [ none ↦ rest | some l ↦ max (l + 1) rest ]

-- The nodes of cycles get a level after those of their predecessors that have one.
unfoldable pub complete :
    List (Text × List Text) → List FlowNode → List (Text × ℕ) → List (Text × ℕ)
unfolding get set level_after
complete incoming [] level = level
complete incoming (n ∷ nodes) level =
    let id = node_id n in
    let next = set id (level_after level (neighbours id incoming)) level in
    if has id level then complete incoming nodes level else complete incoming nodes next

-- The levels of the nodes; one round more than there are nodes is enough.
unfoldable pub levels_of : List FlowNode → List FlowEdge → Option (List (Text × ℕ))
unfolding links_of in_degrees start_layering layer_loop complete
levels_of top_level edges =
    let links = links_of top_level edges in
    let counts = in_degrees links.incoming top_level [] in
    elim (layer_loop links.outgoing (length counts) (start_layering counts)) [
      | none ↦ none
      | some s ↦ some (complete links.incoming top_level s.level)
    ]
