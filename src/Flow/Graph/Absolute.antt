-- ===== src/Flow/Graph/Absolute.antt =====
-- `getAbsolutePosition` ends, and adds up the offsets: web/src/lib/flow.tsx.
use mc_gantry.Base.{
  ℕ, zero, suc, ◌+◌, ◌≤◌, ◌<◌, ◌≡◌, refl, ap, subst, ◌∙◌, inl, inr, true, false, List, [], ◌∷◌, map,
  Option, none, some, arith, Text, text_eq, text_eq_iff, length, Bool-cases, Option-cases,
  if◌then◌else◌,
}
use mc_gantry.Base.Map.{get, set, set_all, mem, get-set}
use mc_gantry.Flow.Types.{Position, FlowNode, node_id, node_position}
use mc_gantry.Flow.Graph.{
  node_map_of, parent_key, add_position, offset_by, next_parent, absolute_from,
  get_absolute_position,
}

-- Each key leads to a node of that id.
pub IsKeyed : List (Text × FlowNode) → Type 0
IsKeyed m = (k : Text) (n : FlowNode) → get k m ≡ some n → node_id n ≡ k

-- How many keys have not been visited.
unvisited : List (Text × FlowNode) → List Text → ℕ
unvisited [] visited = 0
unvisited ((k, n) ∷ m) visited = (if mem k visited then 0 else 1) + unvisited m visited

unvisited_le :
    (m : List (Text × FlowNode)) (k : Text) (visited : List Text)
    → unvisited m (k ∷ visited) ≤ unvisited m visited
unfolding unvisited mem
unvisited_le [] k visited = omega arith
unvisited_le ((j, n) ∷ m) k visited = ground (arith, unvisited_le m k visited)

unvisited_lt :
    (m : List (Text × FlowNode)) (k : Text) (n : FlowNode) (visited : List Text)
    → get k m ≡ some n
    → mem k visited ≡ false
    → unvisited m (k ∷ visited) < unvisited m visited
unfolding unvisited mem get
unvisited_lt [] k n visited e h = cc
unvisited_lt ((j, x) ∷ m) k n visited e h =
    ground (
      arith,
      unvisited_le m k visited,
      unvisited_lt m k n visited,
      text_eq_iff j k,
      text_eq_iff k j,
    )

unvisited_le_length :
    (m : List (Text × FlowNode)) (visited : List Text) → unvisited m visited ≤ length m
unfolding unvisited
unvisited_le_length [] visited = omega arith
unvisited_le_length ((j, x) ∷ m) visited = ground (arith, unvisited_le_length m visited)

module _ (m : List (Text × FlowNode)) where
  -- The node that a node lies in, whatever was visited.
  unfoldable pub parent_of : FlowNode → Option FlowNode
  unfolding get
  parent_of n = elim (parent_key n) [ none ↦ none | some k ↦ get k m ]

  parent_of-key : (n p : FlowNode) → parent_of n ≡ some p → (k : Text) × (get k m ≡ some p)
  unfolding parent_of
  parent_of-key n p e = elim (Option-cases (parent_key n)) [
    | inl none_there ↦ absurd (ground arith)
    | inr (k, there) ↦ (k, ground arith)
  ]

  next_parent-eq_some :
      (n p : FlowNode) (visited : List Text)
      → next_parent m n visited ≡ some p
      → (mem (node_id n) visited ≡ false) × (parent_of n ≡ some p)
  unfolding next_parent parent_of
  next_parent-eq_some n p visited e = ground arith

  next_parent-new :
      (n : FlowNode) (visited : List Text)
      → mem (node_id n) visited ≡ false
      → next_parent m n visited ≡ parent_of n
  unfolding next_parent parent_of
  next_parent-new n visited h = rw h

  parent-in_map : IsKeyed m → (n p : FlowNode) → parent_of n ≡ some p → get (node_id p) m ≡ some p
  unfolding IsKeyed
  parent-in_map keyed n p e = let (k, found) = parent_of-key n p e in rw (keyed k p found) found

  absolute_ends :
      IsKeyed m
      → (fuel : ℕ) (n : FlowNode) (visited : List Text) → get (node_id n) m ≡ some n
      → unvisited m visited < fuel
      → (q : Position) × (absolute_from m fuel n visited ≡ some q)
  unfolding absolute_from
  absolute_ends keyed zero n visited here h = absurd (omega arith)
  absolute_ends keyed (suc fuel) n visited here h = elim (Option-cases (next_parent m n visited)) [
    | inl e ↦ (node_position n, rw (e, absolute_from))
    | inr (p, e) ↦
        let (new, up) = next_parent-eq_some n p visited e in
        let (q, found) =
          absolute_ends keyed fuel p (node_id n ∷ visited) (parent-in_map keyed n p up)
            (omega (arith, unvisited_lt m (node_id n) n visited here new)) in
        (add_position q (node_position n), rw (e, absolute_from) (rw found))
  ]

  -- The sum of the offsets along a chain of `d` parents that ends at a node that lies in none.
  abbrev pub Placed : ℕ → FlowNode → Position → Type 0
  Placed zero n q = (parent_of n ≡ none) × (q ≡ node_position n)
  Placed (suc d) n q =
      (p : FlowNode) × (base : Position) × (parent_of n ≡ some p)
      × Placed d p base
      × (q ≡ add_position base (node_position n))

  same_parent : (n p p' : FlowNode) → parent_of n ≡ some p → parent_of n ≡ some p' → p ≡ p'
  same_parent n p p' e f = cc

  depth_unique : (d e : ℕ) (n : FlowNode) (q r : Position) → Placed d n q → Placed e n r → d ≡ e
  depth_unique zero zero n q r h k = refl
  depth_unique zero (suc e) n q r (h, _) (p, base, k, _, _) = cc
  depth_unique (suc d) zero n q r (p, base, h, _, _) (k, _) = cc
  depth_unique (suc d) (suc e) n q r (p, base, h, hs, _) (p', base', k, ks, _) =
      ap suc (depth_unique d e p base base' hs (rw (same_parent n p p' h k) ks))

  -- The visited ids are those of nodes that lie deeper than `d`.
  abbrev Deeper : ℕ → List Text → Type 0
  Deeper d visited =
      (k : Text) (x : FlowNode)
      → mem k visited ≡ true
      → get k m ≡ some x
      → (e : ℕ) × (r : Position) × (d < e) × Placed e x r

  Deeper-cons :
      (d : ℕ) (n : FlowNode) (q : Position) (visited : List Text)
      → get (node_id n) m ≡ some n
      → Placed (suc d) n q
      → Deeper (suc d) visited
      → Deeper d (node_id n ∷ visited)
  unfolding mem
  Deeper-cons d n q visited here placed deep k x seen found =
      elim (Bool-cases (text_eq (node_id n) k)) [
        | inl same ↦
            let key = (text_eq_iff (node_id n) k).0 same in
            let again : get (node_id n) m ≡ some x = rw key found in
            let self : n ≡ x = cc in
            (suc d, q, omega arith, subst (λ y. Placed (suc d) y q) self placed)
        | inr other ↦
            let old : mem k visited ≡ true = ground arith in
            let (e, r, h, there) = deep k x old found in (e, r, omega arith, there)
      ]

  not_visited :
      (d : ℕ) (n : FlowNode) (visited : List Text) (q : Position)
      → get (node_id n) m ≡ some n
      → Placed d n q
      → Deeper d visited
      → mem (node_id n) visited ≡ false
  not_visited d n visited q here placed deep = elim (Bool-cases (mem (node_id n) visited)) [
    | inl seen ↦
        let (e, r, h, there) = deep (node_id n) n seen here in
        absurd (omega (arith, depth_unique d e n q r placed there))
    | inr new ↦ new
  ]

  absolute_step :
      (fuel : ℕ) (n p : FlowNode) (visited : List Text)
      → next_parent m n visited ≡ some p
      → absolute_from m (suc fuel) n visited
        ≡ offset_by n (absolute_from m fuel p (node_id n ∷ visited))
  unfolding absolute_from
  absolute_step fuel n p visited e = rw (e, absolute_from)

  absolute_correct :
      IsKeyed m
      → (d fuel : ℕ) (n : FlowNode) (visited : List Text) (q r : Position)
      → get (node_id n) m ≡ some n
      → Placed d n q
      → Deeper d visited
      → absolute_from m fuel n visited ≡ some r
      → r ≡ q
  unfolding absolute_from
  absolute_correct keyed d zero n visited q r here placed deep found = cc
  absolute_correct keyed zero (suc fuel) n visited q r here (top, at) deep found =
      let new = next_parent-new n visited (not_visited zero n visited q here (top, at) deep) in
      let stop : next_parent m n visited ≡ none = new ∙ top in
      let done = rw (stop, absolute_from) at found in cc
  absolute_correct keyed (suc d) (suc fuel) n visited q r here (p, base, up, placed, at) deep
        found =
      let new =
        next_parent-new n visited
          (not_visited (suc d) n visited q here (p, base, up, placed, at) deep) in
      let step = absolute_step fuel n p visited (new ∙ up) in
      elim (Option-cases (absolute_from m fuel p (node_id n ∷ visited))) [
        | inl e ↦ absurd (ground arith)
        | inr (b, e) ↦
            let ih =
              absolute_correct keyed d fuel p (node_id n ∷ visited) base b
                (parent-in_map keyed n p up) placed
                (Deeper-cons d n q visited here (p, base, up, placed, at) deep) e in
            ground arith
      ]

IsKeyed-set_all :
    (m : List (Text × FlowNode)) (nodes : List FlowNode)
    → IsKeyed m
    → IsKeyed (set_all m (map (λ n. (node_id n, n)) nodes))
unfolding set_all IsKeyed
IsKeyed-set_all m [] h = h
IsKeyed-set_all m (n ∷ nodes) h =
    IsKeyed-set_all (set (node_id n) n m) nodes
      λ k x e. ground (arith, get-set (node_id n) k n m, h k x, text_eq_iff (node_id n) k)

IsKeyed-node_map_of : (nodes : List FlowNode) → IsKeyed (node_map_of nodes)
unfolding node_map_of IsKeyed
IsKeyed-node_map_of nodes = IsKeyed-set_all [] nodes (λ k x e. unfold get in cc)

module _ (m : List (Text × FlowNode)) where
  -- The node to start from need not be one of the map.
  ends_from_start :
      IsKeyed m
      → (fuel : ℕ) (n : FlowNode) → length m < fuel
      → (q : Position) × (absolute_from m (suc fuel) n [] ≡ some q)
  ends_from_start keyed fuel n h = elim (Option-cases (next_parent m n [])) [
    | inl e ↦ (node_position n, unfold absolute_from in rw (e, absolute_from))
    | inr (p, e) ↦
        let (new, up) = next_parent-eq_some m n p [] e in
        let (q, found) =
          absolute_ends m keyed fuel p (node_id n ∷ []) (parent-in_map m keyed n p up)
            (omega (arith, unvisited_le_length m (node_id n ∷ []))) in
        (add_position q (node_position n), rw (absolute_step m fuel n p [] e) (rw found))
  ]

-- The recursion ends for every node and every list of nodes, also where the parents form a cycle.
pub get_absolute_position-ends :
    (nodes : List FlowNode) (n : FlowNode)
    → (q : Position) × (get_absolute_position (node_map_of nodes) n ≡ some q)
unfolding get_absolute_position
get_absolute_position-ends nodes n =
    let m = node_map_of nodes in
    let two : length m + 2 ≡ suc (length m + 1) = omega arith in
    rw two (ends_from_start m (IsKeyed-node_map_of nodes) (length m + 1) n (omega arith))

-- For a node that its id leads to and whose chain of parents ends, the result is the sum of the
-- node's offset and the offsets of all nodes that it lies in.
pub get_absolute_position-Placed :
    (nodes : List FlowNode) (n : FlowNode) (d : ℕ) (q : Position)
    → get (node_id n) (node_map_of nodes) ≡ some n
    → Placed (node_map_of nodes) d n q
    → get_absolute_position (node_map_of nodes) n ≡ some q
get_absolute_position-Placed nodes n d q here placed =
    let m = node_map_of nodes in
    let (r, found) = get_absolute_position-ends nodes n in
    let same =
      absolute_correct m (IsKeyed-node_map_of nodes) d (length m + 2) n [] q r here placed
        (λ k x seen _. unfold mem in cc) (unfold get_absolute_position in found) in
    found ∙ ap some same
