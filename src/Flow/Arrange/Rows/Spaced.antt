-- ===== src/Flow/Arrange/Rows/Spaced.antt =====
-- The nodes of one row stand apart: `autoArrangeNodes` of web/src/lib/flow.tsx.
use mc_gantry.Base.{
  ◌≡◌, refl, ◌⊎◌, inl, inr, Bool, true, List, [], ◌∷◌, none, All, All-imp, Memᴰ, Bool-cases,
  text_eq, text_eq_iff, arith,
}
use mathlib.Core.List.Memᴰ
use mc_gantry.Flow.Dimensions.{get_node_dimensions}
use mc_gantry.Flow.Graph.Descendants.{Below, collect_descendants-decides}
use mc_gantry.Base.Int.{ℤ, pos, ◌+ℤ◌, ◌-ℤ◌, ◌≤ℤ◌, min_ℤ, max_ℤ, +ℤ_parts, -ℤ_parts}
use mc_gantry.Flow.Types.{FlowNode, Position, node_id}
use mc_gantry.Flow.Graph.{absolute_in, node_map_of}
use mc_gantry.Flow.Arrange.Rows.{
  Bounds, is_included, stretch, stretch_all, get_node_effective_bounds, width_of, place_row,
}

-- The bounds reach from `l`, or further left, to `r`, or further right.
abbrev Covers : Bounds → ℤ → ℤ → Type 0
Covers b l r = (b.min_x ≤ℤ l) × (r ≤ℤ b.max_x)

min_le : (a b c : ℤ) → a ≤ℤ c → min_ℤ a b ≤ℤ c
unfolding min_ℤ
min_le a b c h = ground arith

le_max : (a b c : ℤ) → c ≤ℤ a → c ≤ℤ max_ℤ a b
unfolding max_ℤ
le_max a b c h = ground arith

min_right : (a b : ℤ) → min_ℤ a b ≤ℤ b
unfolding min_ℤ
min_right a b = ground arith

max_right : (a b : ℤ) → b ≤ℤ max_ℤ a b
unfolding max_ℤ
max_right a b = ground arith

module _ (included : FlowNode → Bool) (abs : FlowNode → Position) (root_abs : Position) where
  -- What is covered stays covered.
  stretch_all-Covers :
      (nodes : List FlowNode) (b : Bounds) (l r : ℤ)
      → Covers b l r
      → Covers (stretch_all included abs root_abs nodes b) l r
  unfolding stretch_all
  stretch_all-Covers [] b l r h = h
  stretch_all-Covers (node ∷ nodes) b l r (h, k) = elim (Bool-cases (included node)) [
    | inl e ↦ rw e (
        stretch_all-Covers nodes (stretch node root_abs (abs node) b) l r
          (min_le b.min_x _ l h, le_max b.max_x _ r k))
    | inr e ↦ rw e (stretch_all-Covers nodes b l r (h, k))
  ]

  -- The width of every node that is included is covered.
  stretch_all-Covers_node :
      (nodes : List FlowNode) (b : Bounds) (x : FlowNode)
      → Memᴰ x nodes
      → included x ≡ true
      → Covers
          (stretch_all included abs root_abs nodes b)
          ((abs x).x -ℤ root_abs.x)
          ((abs x).x -ℤ root_abs.x +ℤ pos (get_node_dimensions x none none).width)
  unfolding stretch_all
  stretch_all-Covers_node [] b x m i = absurd (Memᴰ.not-nil m)
  stretch_all-Covers_node (node ∷ nodes) b x m i = elim (Memᴰ.cases_cons m) [
    | inl here ↦
        rw (← here, i)
          (stretch_all-Covers nodes (stretch x root_abs (abs x) b) _ _
            (min_right b.min_x _, max_right b.max_x _))
    | inr later ↦ elim (Bool-cases (included node)) [
      | inl e ↦ rw e (stretch_all-Covers_node nodes (stretch node root_abs (abs node) b) x later i)
      | inr e ↦ rw e (stretch_all-Covers_node nodes b x later i)
    ]
  ]

get_node_effective_bounds-Covers :
    (root : FlowNode) (nodes : List FlowNode)
    → Covers (get_node_effective_bounds root nodes) (pos 0) (pos 0)
unfolding get_node_effective_bounds
get_node_effective_bounds-Covers root nodes =
    stretch_all-Covers (λ node. is_included nodes (node_id root) (node_id node))
      (absolute_in (node_map_of nodes)) (absolute_in (node_map_of nodes) root) nodes _ (pos 0)
      (pos 0) (omega arith, omega arith)

-- `x` is the node itself, or one that a chain of parents leads from to it.
abbrev pub LiesIn : List FlowNode → FlowNode → FlowNode → Type 0
LiesIn all n x = Memᴰ x all × ((node_id x ≡ node_id n) ⊎ Below all (node_id n) (node_id x))

LiesIn-is_included :
    (all : List FlowNode) (n x : FlowNode)
    → LiesIn all n x
    → is_included all (node_id n) (node_id x) ≡ true
unfolding is_included
LiesIn-is_included all n x (m, inl same) = rw ((text_eq_iff (node_id x) (node_id n)).1 same) refl
LiesIn-is_included all n x (m, inr below) =
    let (d, found, decides) = collect_descendants-decides all (node_id n) in
    elim (Bool-cases (text_eq (node_id x) (node_id n))) [
      | inl e ↦ rw e refl
      | inr e ↦ rw (e, found) ((decides (node_id x)).1 below)
    ]

-- How far `x` lies to the right of `n`, by their absolute positions.
abbrev pub offset_in : List FlowNode → FlowNode → FlowNode → ℤ
offset_in all n x = (absolute_in (node_map_of all) x).x -ℤ (absolute_in (node_map_of all) n).x

node-Covers :
    (all : List FlowNode) (n x : FlowNode)
    → LiesIn all n x
    → Covers
        (get_node_effective_bounds n all)
        (offset_in all n x)
        (offset_in all n x +ℤ pos (get_node_dimensions x none none).width)
unfolding get_node_effective_bounds
node-Covers all n x h =
    stretch_all-Covers_node (λ node. is_included all (node_id n) (node_id node))
      (absolute_in (node_map_of all)) (absolute_in (node_map_of all) n) all _ x h.0
      (LiesIn-is_included all n x h)

-- Every two elements, the one before the other, are related.
unfoldable pub IsSpaced {ℓ} : {A : Type ℓ} → (A → A → Type 0) → List A → Type ℓ
IsSpaced R [] = Unit
IsSpaced R (a ∷ placed) = All (R a) placed × IsSpaced R placed

module _ (bounds : FlowNode → Bounds) where
  -- Between the bounds of the two are at least 80 units.
  abbrev AreApart : FlowNode × Position → FlowNode × Position → Type 0
  AreApart (n, p) (m, q) = p.x +ℤ (bounds n).max_x +ℤ pos 80 ≤ℤ q.x +ℤ (bounds m).min_x

  -- Everything starts at `x` or further right.
  abbrev StartsAt : ℤ → FlowNode × Position → Type 0
  StartsAt x (n, p) = x ≤ℤ p.x +ℤ (bounds n).min_x

  ≤ℤ-trans : (a b c : ℤ) → a ≤ℤ b → b ≤ℤ c → a ≤ℤ c
  ≤ℤ-trans a b c h k = omega arith

  first_start : (x b : ℤ) → x ≤ℤ x -ℤ b +ℤ b
  first_start x b = omega (arith, -ℤ_parts x b, +ℤ_parts (x -ℤ b) b)

  next_start : (x l r : ℤ) → l ≤ℤ pos 0 → pos 0 ≤ℤ r → x ≤ℤ x +ℤ (r -ℤ l) +ℤ pos 80
  next_start x l r h k =
      omega (arith, -ℤ_parts r l, +ℤ_parts x (r -ℤ l), +ℤ_parts (x +ℤ (r -ℤ l)) (pos 80))

  end_of_first : (x l r y : ℤ) → x +ℤ (r -ℤ l) +ℤ pos 80 ≤ℤ y → x -ℤ l +ℤ r +ℤ pos 80 ≤ℤ y
  end_of_first x l r y h = omega (
    arith,
    -ℤ_parts r l,
    +ℤ_parts x (r -ℤ l),
    +ℤ_parts (x +ℤ (r -ℤ l)) (pos 80),
    -ℤ_parts x l,
    +ℤ_parts (x -ℤ l) r,
    +ℤ_parts (x -ℤ l +ℤ r) (pos 80),
  )

  module _ (half : ℤ → ℤ) (around : (n : FlowNode) → Covers (bounds n) (pos 0) (pos 0)) where
    place_row-StartsAt :
        (row_y level_h x : ℤ) (nodes : List FlowNode)
        → All (StartsAt x) (place_row bounds half row_y level_h x nodes)
    unfolding place_row
    place_row-StartsAt row_y level_h x [] = tt
    place_row-StartsAt row_y level_h x (n ∷ nodes) =
        let b = bounds n in
        let next = x +ℤ width_of b +ℤ pos 80 in
        (
          first_start x b.min_x,
          All-imp
              (λ a h.
                ≤ℤ-trans x next (a.1.x +ℤ (bounds a.0).min_x)
                  (next_start x b.min_x b.max_x (around n).0 (around n).1) h)
              (place_row bounds half row_y level_h next nodes)
              (place_row-StartsAt row_y level_h next nodes),
        )

    place_row-IsSpaced :
        (row_y level_h x : ℤ) (nodes : List FlowNode)
        → IsSpaced AreApart (place_row bounds half row_y level_h x nodes)
    unfolding place_row IsSpaced
    place_row-IsSpaced row_y level_h x [] = tt
    place_row-IsSpaced row_y level_h x (n ∷ nodes) =
        let b = bounds n in
        let next = x +ℤ width_of b +ℤ pos 80 in
        (
          All-imp (λ a h. end_of_first x b.min_x b.max_x (a.1.x +ℤ (bounds a.0).min_x) h)
              (place_row bounds half row_y level_h next nodes)
              (place_row-StartsAt row_y level_h next nodes),
          place_row-IsSpaced row_y level_h next nodes,
        )

-- Where `n` is put at `p` and `m` at `q`, everything in `n`, which moves with it, ends at least 80 units
-- before anything in `m` starts.
abbrev pub IsApart : List FlowNode → FlowNode × Position → FlowNode × Position → Type 0
IsApart all (n, p) (m, q) =
    (x y : FlowNode)
    → LiesIn all n x
    → LiesIn all m y
    → p.x +ℤ offset_in all n x +ℤ pos (get_node_dimensions x none none).width +ℤ pos 80
      ≤ℤ q.x +ℤ offset_in all m y

apart :
    (p q o w o' l r : ℤ)
    → o +ℤ w ≤ℤ r
    → l ≤ℤ o'
    → p +ℤ r +ℤ pos 80 ≤ℤ q +ℤ l
    → p +ℤ o +ℤ w +ℤ pos 80 ≤ℤ q +ℤ o'
apart p q o w o' l r h k g = omega (
  arith,
  +ℤ_parts o w,
  +ℤ_parts p r,
  +ℤ_parts (p +ℤ r) (pos 80),
  +ℤ_parts q l,
  +ℤ_parts p o,
  +ℤ_parts (p +ℤ o) w,
  +ℤ_parts (p +ℤ o +ℤ w) (pos 80),
  +ℤ_parts q o',
)

AreApart-IsApart :
    (all : List FlowNode) (a b : FlowNode × Position)
    → AreApart (λ n. get_node_effective_bounds n all) a b
    → IsApart all a b
AreApart-IsApart all (n, p) (m, q) h x y i j =
    apart p.x q.x (offset_in all n x) _ (offset_in all m y) _ _ (node-Covers all n x i).1
      (node-Covers all m y j).0 h

IsSpaced-IsApart :
    (all : List FlowNode) (placed : List (FlowNode × Position))
    → IsSpaced (AreApart (λ n. get_node_effective_bounds n all)) placed
    → IsSpaced (IsApart all) placed
unfolding IsSpaced
IsSpaced-IsApart all [] h = tt
IsSpaced-IsApart all (a ∷ placed) (h, k) =
    (All-imp (λ b g. AreApart-IsApart all a b g) placed h, IsSpaced-IsApart all placed k)

-- In a row, each node and all that lies in it, at any depth, end at least 80 units before a later node
-- of the row and all that lies in that start, by their absolute positions and widths, wherever the
-- row is.
pub row-IsSpaced :
    (half : ℤ → ℤ) (all : List FlowNode) (row_y level_h x : ℤ) (nodes : List FlowNode)
    → IsSpaced
        (IsApart all)
        (place_row (λ n. get_node_effective_bounds n all) half row_y level_h x nodes)
row-IsSpaced half all row_y level_h x nodes = IsSpaced-IsApart all _ (
    place_row-IsSpaced (λ n. get_node_effective_bounds n all) half
      (λ n. get_node_effective_bounds-Covers n all) row_y level_h x nodes)
