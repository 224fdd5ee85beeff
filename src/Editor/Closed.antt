-- ===== src/Editor/Closed.antt =====
-- Changes of a flow that keep all its references within it, for the handlers of
-- web/src/pages/Flow.tsx.
use mc_gantry.Base.{
  ◌≡◌, refl, sym, ap, ap₂, subst, ◌∙◌, ◌≢◌, ◌⊎◌, inl, inr, ⊎_elim, Bool, true, false, List, [], ◌∷◌,
  ◌++◌, map, map-append, Memᴰ, Option, none, some, filter, if◌then◌else◌, All, All-imp, All-append,
  Bool-cases, Text, text_eq, text_eq_iff,
}
use mathlib.Core.List.Memᴰ
use mc_gantry.Base.Map.{get, set, set_all, get-set}
use mc_gantry.Flow.Types.{FlowNode, FlowEdge, FlowSpec, node_id}
use mc_gantry.Flow.Graph.{parent_key, node_map_of}
use mc_gantry.Flow.Copies.Clones.{IsParentIn, HasParentIn, HasEndsIn, IsClosed, ids_of}
use mc_gantry.Editor.State.{set_nodes, set_edges}

-- The new node has the id of the old one, and a parent among the ids if the old one has.
abbrev pub Keeps : List Text → FlowNode → FlowNode → Type 0
Keeps ids n n' = (node_id n' ≡ node_id n) × (HasParentIn ids n → HasParentIn ids n')

pub Keeps-refl : (ids : List Text) (n : FlowNode) → Keeps ids n n
Keeps-refl ids n = (refl, λ h. h)

pub Keeps-if :
    (ids : List Text) (b : Bool) (n n' : FlowNode)
    → Keeps ids n n'
    → Keeps ids n (if b then n' else n)
Keeps-if ids true n n' h = h
Keeps-if ids false n n' h = Keeps-refl ids n

ids_of-map :
    (ids : List Text) (f : FlowNode → FlowNode) (nodes : List FlowNode)
    → ((n : FlowNode) → Keeps ids n (f n))
    → map node_id (map f nodes) ≡ map node_id nodes
ids_of-map ids f [] h = refl
ids_of-map ids f (n ∷ nodes) h = ap₂ ◌∷◌ (h n).0 (ids_of-map ids f nodes h)

All-map_parents :
    (ids : List Text) (f : FlowNode → FlowNode) (nodes : List FlowNode)
    → ((n : FlowNode) → Keeps ids n (f n))
    → All (HasParentIn ids) nodes
    → All (HasParentIn ids) (map f nodes)
All-map_parents ids f [] h all = tt
All-map_parents ids f (n ∷ nodes) h (p, all) = ((h n).1 p, All-map_parents ids f nodes h all)

-- The ids of the flow stay the same, and so do its edges.
pub map_nodes-IsClosed :
    (spec : FlowSpec) (f : FlowNode → FlowNode)
    → ((n : FlowNode) → Keeps (ids_of spec) n (f n))
    → IsClosed spec
    → IsClosed (set_nodes (map f spec.nodes) spec)
map_nodes-IsClosed spec f h c =
    let same = sym (ids_of-map (ids_of spec) f spec.nodes h) in
    record {
      parents =
          subst (λ ids. All (HasParentIn ids) (map f spec.nodes)) same
            (All-map_parents (ids_of spec) f spec.nodes h c.parents);
      ends = subst (λ ids. All (HasEndsIn ids) spec.edges) same c.ends;
    }

pub map_nodes-ids :
    (spec : FlowSpec) (f : FlowNode → FlowNode)
    → ((n : FlowNode) → Keeps (ids_of spec) n (f n))
    → ids_of (set_nodes (map f spec.nodes) spec) ≡ ids_of spec
map_nodes-ids spec f h = ids_of-map (ids_of spec) f spec.nodes h

abbrev pub IsWithin : List Text → List Text → Type 0
IsWithin ids ids' = (k : Text) → Memᴰ k ids → Memᴰ k ids'

IsParentIn-mono :
    (ids ids' : List Text) (o : Option Text)
    → IsWithin ids ids'
    → IsParentIn ids o
    → IsParentIn ids' o
IsParentIn-mono ids ids' none w h = tt
IsParentIn-mono ids ids' (some k) w h = w k h

HasEndsIn-mono :
    (ids ids' : List Text) (e : FlowEdge) → IsWithin ids ids' → HasEndsIn ids e → HasEndsIn ids' e
HasEndsIn-mono ids ids' e w (s, t) = (w e.source s, w e.target t)

-- More nodes and edges, whose references lead to the old nodes and the new ones.
pub append-IsClosed :
    (spec : FlowSpec) (nodes : List FlowNode) (edges : List FlowEdge)
    → All (HasParentIn (ids_of spec ++ map node_id nodes)) nodes
    → All (HasEndsIn (ids_of spec ++ map node_id nodes)) edges
    → IsClosed spec
    → IsClosed (set_edges (spec.edges ++ edges) (set_nodes (spec.nodes ++ nodes) spec))
append-IsClosed spec nodes edges p e c =
    let ids' = ids_of spec ++ map node_id nodes in
    let same : ids' ≡ map node_id (spec.nodes ++ nodes) =
      sym (map-append node_id spec.nodes nodes) in
    let w : IsWithin (ids_of spec) ids' = λ k m. Memᴰ.append_left _ m in
    record {
      parents =
          subst (λ ids. All (HasParentIn ids) (spec.nodes ++ nodes)) same
            (All-append (HasParentIn ids') spec.nodes nodes
              (All-imp (λ n h. IsParentIn-mono (ids_of spec) ids' (parent_key n) w h) spec.nodes
                c.parents)
              p);
      ends =
          subst (λ ids. All (HasEndsIn ids) (spec.edges ++ edges)) same
            (All-append (HasEndsIn ids') spec.edges edges
              (All-imp (λ x h. HasEndsIn-mono (ids_of spec) ids' x w h) spec.edges c.ends) e);
    }

-- Other edges between the same nodes.
pub set_edges-IsClosed :
    (spec : FlowSpec) (edges : List FlowEdge)
    → All (HasEndsIn (ids_of spec)) edges
    → IsClosed spec
    → IsClosed (set_edges edges spec)
set_edges-IsClosed spec edges e c = record { parents = c.parents; ends = e }

pub filter-All {ℓ κ} :
    {A : Type ℓ} (P : A → Type κ) (p : A → Bool) (xs : List A) → All P xs → All P (filter p xs)
unfolding filter
filter-All P p [] h = tt
filter-All P p (x ∷ xs) (h, hs) = elim (Bool-cases (p x)) [
  | inl e ↦ rw e (h, filter-All P p xs hs)
  | inr e ↦ rw e (filter-All P p xs hs)
]

-- Nodes leave by their ids: what referred to them is cleared or leaves too.
module _ (keep : Text → Bool) (clear : FlowNode → FlowNode) (avoid : FlowEdge → Bool)
    (clear_id : (n : FlowNode) → node_id (clear n) ≡ node_id n)
    (clear_parent : (ids ids' : List Text) (n : FlowNode)
      → ((k : Text) → Memᴰ k ids → keep k ≡ true → Memᴰ k ids')
      → HasParentIn ids n
      → HasParentIn ids' (clear n))
    (avoids : (e : FlowEdge)
      → avoid e ≡ true
      → (keep e.source ≡ true) × (keep e.target ≡ true)) where
  pub kept-Memᴰ :
      (nodes : List FlowNode) (k : Text)
      → Memᴰ k (map node_id nodes)
      → keep k ≡ true
      → Memᴰ k (map node_id (map clear (filter (λ n. keep (node_id n)) nodes)))
  unfolding filter
  kept-Memᴰ [] k m h = absurd (Memᴰ.not-nil m)
  kept-Memᴰ (n ∷ nodes) k m h = elim (Bool-cases (keep (node_id n))) [
    | inl e ↦ rw e (
        ⊎_elim (λ here. Memᴰ.head (here ∙ sym (clear_id n)))
          (λ later. Memᴰ.tail (kept-Memᴰ nodes k later h)) (Memᴰ.cases_cons m))
    | inr e ↦ rw e (
        ⊎_elim (λ here. absurd (not_kept n k here e h)) (λ later. kept-Memᴰ nodes k later h)
          (Memᴰ.cases_cons m))
  ]
    where
      not_kept :
          (n : FlowNode) (k : Text) → k ≡ node_id n → keep (node_id n) ≡ false → keep k ≡ true → ⊥
      not_kept n k here e h = cc

  cleared-All :
      (ids ids' : List Text) (nodes : List FlowNode)
      → ((k : Text) → Memᴰ k ids → keep k ≡ true → Memᴰ k ids')
      → All (HasParentIn ids) nodes
      → All (HasParentIn ids') (map clear nodes)
  cleared-All ids ids' [] w h = tt
  cleared-All ids ids' (n ∷ nodes) w (p, h) =
      (clear_parent ids ids' n w p, cleared-All ids ids' nodes w h)

  avoided-All :
      (ids ids' : List Text) (edges : List FlowEdge)
      → ((k : Text) → Memᴰ k ids → keep k ≡ true → Memᴰ k ids')
      → All (HasEndsIn ids) edges
      → All (HasEndsIn ids') (filter avoid edges)
  unfolding filter
  avoided-All ids ids' [] w h = tt
  avoided-All ids ids' (e ∷ edges) w ((s, t), h) = elim (Bool-cases (avoid e)) [
    | inl a ↦
        let (ks, kt) = avoids e a in
        rw a ((w e.source s ks, w e.target t kt), avoided-All ids ids' edges w h)
    | inr a ↦ rw a (avoided-All ids ids' edges w h)
  ]

  pub filtered-IsClosed :
      (spec : FlowSpec)
      → IsClosed spec
      → IsClosed (
          set_edges
            (filter avoid spec.edges)
            (set_nodes (map clear (filter (λ n. keep (node_id n)) spec.nodes)) spec))
  filtered-IsClosed spec c =
      let ids' = map node_id (map clear (filter (λ n. keep (node_id n)) spec.nodes)) in
      let w : (k : Text) → Memᴰ k (ids_of spec) → keep k ≡ true → Memᴰ k ids' =
        kept-Memᴰ spec.nodes in
      record {
        parents =
            cleared-All (ids_of spec) ids' (filter (λ n. keep (node_id n)) spec.nodes) w
              (filter-All (HasParentIn (ids_of spec)) (λ n. keep (node_id n)) spec.nodes c.parents);
        ends = avoided-All (ids_of spec) ids' spec.edges w c.ends;
      }

-- What a map of nodes by a key finds was there before, or is one of the nodes, under its key.
pub get-set_all :
    (key : FlowNode → Text) (m : List (Text × FlowNode)) (nodes : List FlowNode) (k : Text)
    (n : FlowNode)
    → get k (set_all m (map (λ x. (key x, x)) nodes)) ≡ some n
    → ((k ≡ key n) × Memᴰ n nodes) ⊎ (get k m ≡ some n)
unfolding set_all
get-set_all key m [] k n h = inr h
get-set_all key m (x ∷ nodes) k n h =
    ⊎_elim (λ (e, later). inl (e, Memᴰ.tail later)) (λ here. split here)
      (get-set_all key (set (key x) x m) nodes k n h)
  where
    same : (x n : FlowNode) → some x ≡ some n → x ≡ n
    same x n e = cc

    split :
        get k (set (key x) x m) ≡ some n → ((k ≡ key n) × Memᴰ n (x ∷ nodes)) ⊎ (get k m ≡ some n)
    split here = elim (Bool-cases (text_eq (key x) k)) [
      | inl e ↦
          let eq : x ≡ n = same x n (rw (get-set (key x) k x m, e) at here) in
          inl (sym ((text_eq_iff (key x) k).0 e) ∙ ap key eq, Memᴰ.head (sym eq))
      | inr e ↦ inr (rw (get-set (key x) k x m, e) at here)
    ]

pub map-Memᴰ :
    (f : FlowNode → Text) (n : FlowNode) (nodes : List FlowNode)
    → Memᴰ n nodes
    → Memᴰ (f n) (map f nodes)
map-Memᴰ f n [] m = absurd (Memᴰ.not-nil m)
map-Memᴰ f n (x ∷ nodes) m =
    ⊎_elim (λ e. Memᴰ.head (ap f e)) (λ later. Memᴰ.tail (map-Memᴰ f n nodes later))
      (Memᴰ.cases_cons m)

pub found-is_node :
    (key : FlowNode → Text) (nodes : List FlowNode) (k : Text) (n : FlowNode)
    → get k (set_all [] (map (λ x. (key x, x)) nodes)) ≡ some n
    → (k ≡ key n) × Memᴰ n nodes
unfolding get
found-is_node key nodes k n h =
    ⊎_elim (λ m. m) (λ e. absurd (nothing n e)) (get-set_all key [] nodes k n h)
  where
    nothing : (n : FlowNode) → none ≢ some n
    nothing n e = cc

-- What the map of the nodes finds has the id of a node.
pub get-node_map_of :
    (nodes : List FlowNode) (k : Text) (n : FlowNode)
    → get k (node_map_of nodes) ≡ some n
    → Memᴰ k (map node_id nodes)
unfolding node_map_of
get-node_map_of nodes k n h =
    let (e, m) = found-is_node node_id nodes k n h in
    subst (λ j. Memᴰ j (map node_id nodes)) (sym e) (map-Memᴰ node_id n nodes m)
