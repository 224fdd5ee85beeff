-- ===== src/Flow/Graph/Scan.antt =====
-- The inner loop of `collectDescendants`: web/src/lib/flow.tsx.
use mc_gantry.Base.{
  ℕ, ◌+◌, ◌≤◌, ◌<◌, ◌≡◌, refl, ◌↔◌, ◌⊎◌, inl, inr, ⊎_elim, true, false, ◌||◌, List, [], ◌∷◌, ◌++◌,
  Memᴰ, Memᴰ-cons, Memᴰ-concat, arith, if◌then◌else◌, Text, text_eq, text_eq_iff, text_eq_refl,
  length, length-append,
}
use mathlib.Core.List.Memᴰ
use mc_gantry.Base.Map.{mem}
use mc_gantry.Flow.Types.{FlowNode, node_id}
use mc_gantry.Flow.Graph.{Search, has_parent, offer, scan}

pub mem-concat : (k j : Text) (s : List Text) → mem k (s ++ j ∷ []) ≡ (mem k s || text_eq j k)
unfolding mem
mem-concat k j [] = ground arith
mem-concat k j (i ∷ s) = ground (arith, mem-concat k j s)

pub mem_iff : (k : Text) (s : List Text) → (mem k s ≡ true) ↔ Memᴰ k s
unfolding mem
mem_iff k [] = (λ e. cc, λ m. absurd (Memᴰ.not-nil m))
mem_iff k (j ∷ s) =
    let (to, from) = mem_iff k s in ground (arith, Memᴰ-cons k j s, text_eq_iff j k, to, from)

-- How many nodes are not among the descendants yet.
pub unseen : List FlowNode → List Text → ℕ
unseen [] d = 0
unseen (n ∷ nodes) d = (if mem (node_id n) d then 0 else 1) + unseen nodes d

unseen-visit_le :
    (nodes : List FlowNode) (d : List Text) (id : Text)
    → unseen nodes (d ++ id ∷ []) ≤ unseen nodes d
unfolding unseen
unseen-visit_le [] d id = omega arith
unseen-visit_le (n ∷ nodes) d id =
    ground (arith, unseen-visit_le nodes d id, mem-concat (node_id n) id d)

unseen-visit_lt :
    (nodes : List FlowNode) (n : FlowNode) (d : List Text)
    → Memᴰ n nodes
    → mem (node_id n) d ≡ false
    → unseen nodes (d ++ node_id n ∷ []) < unseen nodes d
unfolding unseen
unseen-visit_lt [] n d m h = absurd (Memᴰ.not-nil m)
unseen-visit_lt (x ∷ nodes) n d m h = elim (Memᴰ.cases_cons m) [
  | inl e ↦ rw (← e) (
      ground (
        arith,
        unseen-visit_le nodes d (node_id n),
        mem-concat (node_id n) (node_id n) d,
        text_eq_refl (node_id n),
      ))
  | inr later ↦
      ground (arith, unseen-visit_lt nodes n d later h, mem-concat (node_id x) (node_id n) d)
]

pub unseen-nil : (nodes : List FlowNode) → unseen nodes [] ≡ length nodes
unfolding unseen mem
unseen-nil [] = refl
unseen-nil (n ∷ nodes) = omega (arith, unseen-nil nodes)

offer-work :
    (all : List FlowNode) (current : Text) (s : Search) (n : FlowNode)
    → Memᴰ n all
    → unseen all (offer current s n).descendants + length (offer current s n).queue
      ≤ unseen all s.descendants + length s.queue
unfolding offer
offer-work all current s n m =
    ground (arith, unseen-visit_lt all n s.descendants m, length-append s.queue (node_id n ∷ []))

-- A round of the loop queues no more than it marks.
pub scan-work :
    (all : List FlowNode) (current : Text) (s : Search) (nodes : List FlowNode)
    → ((n : FlowNode) → Memᴰ n nodes → Memᴰ n all)
    → unseen all (scan current s nodes).descendants + length (scan current s nodes).queue
      ≤ unseen all s.descendants + length s.queue
unfolding scan
scan-work all current s [] h = omega arith
scan-work all current s (n ∷ nodes) h = omega (
  arith,
  offer-work all current s n (h n (Memᴰ.head refl)),
  scan-work all current (offer current s n) nodes (λ m k. h m (Memᴰ.tail k)),
)

-- The children of `current` among the nodes, by id.
abbrev pub IsChild : List FlowNode → Text → Text → Type 0
IsChild nodes current id =
    (n : FlowNode) × Memᴰ n nodes × (has_parent n current ≡ true) × (node_id n ≡ id)

IsChild-cons :
    (n : FlowNode) (nodes : List FlowNode) (current id : Text)
    → IsChild (n ∷ nodes) current id
      ↔ ((has_parent n current ≡ true) × (node_id n ≡ id) ⊎ IsChild nodes current id)
IsChild-cons n nodes current id = (
  λ (x, m, p, e).
      ⊎_elim (λ h. inl (rw h at p, rw h at e)) (λ h. inr (x, h, p, e)) (Memᴰ.cases_cons m),
  ⊎_elim (λ h. (n, Memᴰ.head refl, h.0, h.1)) (λ (x, m, p, e). (x, Memᴰ.tail m, p, e)),
)

offer-mem :
    (current : Text) (s : Search) (n : FlowNode) (id : Text)
    → (mem id (offer current s n).descendants ≡ true)
      ↔ ((mem id s.descendants ≡ true) ⊎ (has_parent n current ≡ true) × (node_id n ≡ id))
unfolding offer
offer-mem current s n id =
    ground (arith, mem-concat id (node_id n) s.descendants, text_eq_iff (node_id n) id)

-- A round marks exactly the children of the node that left the queue.
pub scan-mem :
    (current : Text) (s : Search) (nodes : List FlowNode) (id : Text)
    → (mem id (scan current s nodes).descendants ≡ true)
      ↔ ((mem id s.descendants ≡ true) ⊎ IsChild nodes current id)
unfolding scan
scan-mem current s [] id = (inl, ⊎_elim (λ m. m) (λ c. absurd (Memᴰ.not-nil c.1)))
scan-mem current s (n ∷ nodes) id =
    let (to, from) = scan-mem current (offer current s n) nodes id in
    let (here, back) = offer-mem current s n id in
    let (down, up) = IsChild-cons n nodes current id in
    (
      λ m. ⊎_elim (λ h. ⊎_elim inl (λ c. inr (up (inl c))) (here h)) (λ c. inr (up (inr c))) (to m),
      ⊎_elim (λ h. from (inl (back (inl h))))
          (λ c. ⊎_elim (λ h. from (inl (back (inr h)))) (λ k. from (inr k)) (down c)),
    )

offer-queue :
    (current : Text) (s : Search) (n : FlowNode) (id : Text)
    → Memᴰ id (offer current s n).queue ↔ (
        Memᴰ id s.queue
        ⊎ (mem id (offer current s n).descendants ≡ true) × (mem id s.descendants ≡ false))
unfolding offer
offer-queue current s n id = ground (
  arith,
  mem-concat id (node_id n) s.descendants,
  text_eq_iff (node_id n) id,
  Memᴰ-concat id (node_id n) s.queue,
)

-- A round queues exactly what it marks anew.
pub scan-queue :
    (current : Text) (s : Search) (nodes : List FlowNode) (id : Text)
    → Memᴰ id (scan current s nodes).queue ↔ (
        Memᴰ id s.queue
        ⊎ (mem id (scan current s nodes).descendants ≡ true) × (mem id s.descendants ≡ false))
unfolding scan
scan-queue current s [] id = (inl, ⊎_elim (λ m. m) (λ (now, before). cc))
scan-queue current s (n ∷ nodes) id = ground (
  arith,
  scan-queue current (offer current s n) nodes id,
  offer-queue current s n id,
  offer-mem current s n id,
  scan-mem current (offer current s n) nodes id,
)
