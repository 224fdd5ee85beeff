-- ===== src/Flow/Arrange/Ends.antt =====
-- The levels in `autoArrangeNodes` of web/src/lib/flow.tsx are found in finitely many rounds.
use mc_gantry.Base.{
  ℕ, zero, suc, ◌+◌, ◌≤◌, ◌<◌, ◌≡◌, refl, ap, inl, inr, List, [], ◌∷◌, ◌++◌, Option, none, some,
  Option-cases, Bool-cases, List-cases, length, length-append, max, if◌then◌else◌, arith, Text,
  text_eq,
}
use mc_gantry.Base.Int.{ℤ, pos, negsuc, ◌-ℤ◌, -ℤ_parts, eq_of_parts}
use mc_gantry.Base.Map.{get, set}
use mc_gantry.Flow.Types.{FlowNode, FlowEdge}
use mc_gantry.Flow.Arrange.{
  neighbours, Layering, is_zero, count_down, relax, relax_all, level_or_zero, visit_level,
  layer_loop, start_queue, start_layering, in_degrees, links_of, complete, levels_of,
}

-- Whether a node still waits for a predecessor.
abbrev waits : ℤ → ℕ
waits (pos zero) = 0
waits (pos (suc k)) = 1
waits (negsuc k) = 0

unfoldable waiting : List (Text × ℤ) → ℕ
waiting [] = 0
waiting ((id, count) ∷ counts) = waits count + waiting counts

abbrev work : Layering → ℕ
work s = length s.queue + waiting s.remaining

waiting-set :
    (k : Text) (v w : ℤ) (m : List (Text × ℤ))
    → get k m ≡ some v
    → waiting (set k w m) + waits v ≡ waiting m + waits w
unfolding waiting get set
waiting-set k v w [] h = absurd cc
waiting-set k v w ((j, u) ∷ m) h = elim (Bool-cases (text_eq j k)) [
  | inl e ↦ rw e (let same : u ≡ v = the_same u v (rw e at h) in rw same (omega arith))
  | inr e ↦ rw e (omega (arith, waiting-set k v w m (rw e at h)))
]
  where
    the_same : (u v : ℤ) → some u ≡ some v → u ≡ v
    the_same u v e = cc

one_less : (k : ℕ) → pos (suc k) -ℤ pos 1 ≡ pos k
one_less k = eq_of_parts _ _ (omega (arith, -ℤ_parts (pos (suc k)) (pos 1)))

one_below : (k : ℕ) → negsuc k -ℤ pos 1 ≡ negsuc (suc k)
one_below k = eq_of_parts _ _ (omega (arith, -ℤ_parts (negsuc k) (pos 1)))

none_below : pos 0 -ℤ pos 1 ≡ negsuc 0
none_below = eq_of_parts _ _ (omega (arith, -ℤ_parts (pos 0) (pos 1)))

abbrev queued : ℤ → ℕ
queued v = if is_zero v then 1 else 0

waits_down : (v : ℤ) → queued (v -ℤ pos 1) + waits (v -ℤ pos 1) ≤ waits v
waits_down (pos zero) = rw none_below (omega arith)
waits_down (pos (suc zero)) = rw (one_less 0) (omega arith)
waits_down (pos (suc (suc k))) = rw (one_less (suc k)) (omega arith)
waits_down (negsuc k) = rw (one_below k) (omega arith)

length-queued :
    (v : ℤ) (queue : List Text) (id : Text)
    → length (if is_zero v then queue ++ id ∷ [] else queue) ≡ length queue + queued v
length-queued v queue id = elim (Bool-cases (is_zero v)) [
  | inl e ↦ rw e (length-append queue (id ∷ []))
  | inr e ↦ rw e (omega arith)
]

count_down-work : (target : Text) (s : Layering) → work (count_down target s) ≤ work s
unfolding count_down
count_down-work target s = elim (Option-cases (get target s.remaining)) [
  | inl e ↦ rw (e, count_down) (omega arith)
  | inr (v, e) ↦
      rw (e, count_down)
        (omega (
          arith,
          waiting-set target v (v -ℤ pos 1) s.remaining e,
          waits_down v,
          length-queued (v -ℤ pos 1) s.queue target,
        ))
]

relax_all-work :
    (my_level : ℕ) (targets : List Text) (s : Layering)
    → work (relax_all my_level targets s) ≤ work s
unfolding relax_all relax
relax_all-work my_level [] s = omega arith
relax_all-work my_level (target ∷ targets) s =
    let raised : Layering = record s {
      level = set target (max (level_or_zero target s.level) (my_level + 1)) s.level;
    } in
    omega (
      arith,
      count_down-work target raised,
      relax_all-work my_level targets (relax my_level target s),
    )

visit_level-work :
    (outgoing : List (Text × List Text)) (s : Layering) (id : Text) (rest : List Text)
    → s.queue ≡ id ∷ rest
    → work (visit_level outgoing s id rest) < work s
visit_level-work outgoing s id rest e = omega (
  arith,
  relax_all-work (level_or_zero id s.level) (neighbours id outgoing) (record s { queue = rest }),
  ap length e,
)

layer_loop-ends :
    (outgoing : List (Text × List Text)) (fuel : ℕ) (s : Layering)
    → work s ≤ fuel
    → (t : Layering) × (layer_loop outgoing fuel s ≡ some t)
unfolding layer_loop
layer_loop-ends outgoing zero s h = elim (List-cases s.queue) [
  | inl e ↦ (s, ap (λ q. elim q as (λ _. Option Layering) [ [] ↦ some s | id ∷ rest ↦ none ]) e)
  | inr (id, rest, e) ↦ absurd (omega (arith, ap length e))
]
layer_loop-ends outgoing (suc fuel) s h = elim (List-cases s.queue) [
  | inl e ↦ (
    s,
    ap
        (λ q. elim q as (λ _. Option Layering) [
          | [] ↦ some s
          | id ∷ rest ↦ layer_loop outgoing fuel (visit_level outgoing s id rest)
        ])
        e,
  )
  | inr (id, rest, e) ↦
      let (t, k) =
        layer_loop-ends outgoing fuel (visit_level outgoing s id rest)
          (omega (arith, visit_level-work outgoing s id rest e)) in
      (t, rw (e, layer_loop) k)
]

start-work :
    (counts : List (Text × ℤ)) → length (start_queue counts) + waiting counts ≤ length counts
unfolding start_queue waiting
start-work [] = omega arith
start-work ((id, pos zero) ∷ counts) = omega (arith, start-work counts)
start-work ((id, pos (suc k)) ∷ counts) = omega (arith, start-work counts)
start-work ((id, negsuc k) ∷ counts) = omega (arith, start-work counts)

-- The levels are found for every list of nodes and edges, also where the edges form cycles: the loop
-- ends within as many rounds as there are nodes.
pub levels_of-ends :
    (top_level : List FlowNode) (edges : List FlowEdge)
    → (levels : List (Text × ℕ)) × (levels_of top_level edges ≡ some levels)
unfolding levels_of start_layering
levels_of-ends top_level edges =
    let links = links_of top_level edges in
    let counts = in_degrees links.incoming top_level [] in
    let (s, e) =
      layer_loop-ends links.outgoing (length counts) (start_layering counts) (start-work counts) in
    (complete links.incoming top_level s.level, rw (e, levels_of) refl)
