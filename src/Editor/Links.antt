-- ===== src/Editor/Links.antt =====
-- The links that grow from relationships, `seedEdgesFromRelationships` of web/src/pages/Flow.tsx, are new
-- ones between two nodes.
use mc_gantry.Base.{
  ℕ, ◌+◌, ◌≡◌, refl, Bool, true, false, ◌||◌, ◌&&◌, List, [], ◌∷◌, ◌++◌, map, any, Bool-cases, inl,
  inr, if◌then◌else◌, arith, Text, text_eq, text_eq_iff,
}
use mc_gantry.Base.Map.{set_all}
use mc_gantry.Utils.Json.{Json}
use mc_gantry.Flow.Types.{FlowEdge}
use mc_gantry.Editor.State.{Editor, Entity}
use mc_gantry.Editor.Adding.{entity_key}
use mc_gantry.Editor.Edges.{
  Seeding, is_same_link, maybe_add, new_edge, seed_edges_from_relationships,
}
use mc_gantry.Editor.Seeds.{seed_nodes-Good}

-- No edge leads from a node to itself, and no two edges have the same ends and the same relation.
unfoldable pub IsTidy : List FlowEdge → Type 0
IsTidy [] = Unit
IsTidy (e ∷ edges) =
    (text_eq e.source e.target ≡ false)
    × (any (is_same_link e.source e.target e.relation) edges ≡ false)
    × IsTidy edges

any-concat :
    (p : FlowEdge → Bool) (edges : List FlowEdge) (x : FlowEdge)
    → any p (edges ++ x ∷ []) ≡ (any p edges || p x)
unfolding any
any-concat p [] x = ground arith
any-concat p (e ∷ edges) x = ground (arith, any-concat p edges x)

is_same_link_sym :
    (a b c x y z : Text)
    → (text_eq a x && text_eq b y && text_eq c z) ≡ false
    → (text_eq x a && text_eq y b && text_eq z c) ≡ false
is_same_link_sym a b c x y z h = ground (
  arith,
  text_eq_iff a x,
  text_eq_iff b y,
  text_eq_iff c z,
  text_eq_iff x a,
  text_eq_iff y b,
  text_eq_iff z c,
)

concat-IsTidy :
    (id source target rel : Text) (edges : List FlowEdge)
    → text_eq source target ≡ false
    → any (is_same_link source target rel) edges ≡ false
    → IsTidy edges
    → IsTidy (edges ++ new_edge id source target rel ∷ [])
unfolding IsTidy any
concat-IsTidy id source target rel [] h k t = (h, refl, tt)
concat-IsTidy id source target rel (e ∷ edges) h k (loop, twins, t) =
    let x = new_edge id source target rel in
    let apart : is_same_link e.source e.target e.relation x ≡ false =
      is_same_link_sym e.source e.target e.relation source target rel
        (left (is_same_link source target rel e) (any (is_same_link source target rel) edges) k) in
    (
      loop,
      neither (is_same_link e.source e.target e.relation) edges x twins apart,
      concat-IsTidy id source target rel edges h
          (right (is_same_link source target rel e) (any (is_same_link source target rel) edges) k)
          t,
    )
  where
    left : (a b : Bool) → (a || b) ≡ false → a ≡ false
    left a b h = ground arith

    right : (a b : Bool) → (a || b) ≡ false → b ≡ false
    right a b h = ground arith

    neither :
        (p : FlowEdge → Bool) (edges : List FlowEdge) (x : FlowEdge)
        → any p edges ≡ false
        → p x ≡ false
        → any p (edges ++ x ∷ []) ≡ false
    neither p edges x h k = ground (arith, any-concat p edges x)

maybe_add-IsTidy :
    (uuid : ℕ → Text) (first : ℕ) (source target rel : Text) (s : Seeding)
    → IsTidy s.next_edges
    → IsTidy (maybe_add uuid first source target rel s).next_edges
maybe_add-IsTidy uuid first source target rel s t = elim (Bool-cases (text_eq source target)) [
  | inl b ↦ rw b t
  | inr b ↦ rw b (elim (Bool-cases (any (is_same_link source target rel) s.next_edges)) [
    | inl d ↦ rw d t
    | inr d ↦ rw d (concat-IsTidy (uuid (first + s.added)) source target rel s.next_edges b d t)
  ])
]

-- Edges that are made from relationships of the entities neither lead from a node to itself nor repeat
-- another one with the same ends and relation, if this is so for the edges that are there.
pub seed_edges_from_relationships-IsTidy :
    (uuid : ℕ → Text) (to_string : Json → Text) (available : List Entity) (s : Editor)
    → IsTidy s.flow_spec.edges
    → IsTidy (seed_edges_from_relationships uuid to_string available s).flow_spec.edges
unfolding seed_edges_from_relationships
seed_edges_from_relationships-IsTidy uuid to_string available s t =
    let start : Seeding = record { next_edges = s.flow_spec.edges; added = 0 } in
    let nodes = s.flow_spec.nodes in
    either _ s.can_edit (
      seed_nodes-Good uuid to_string s.next_uuid nodes (λ x. IsTidy x.next_edges)
        (λ source target rel x ms mt h. maybe_add-IsTidy uuid s.next_uuid source target rel x h)
        (set_all [] (map (λ e. (entity_key e, e)) available)) nodes start (λ n m. m) t)
  where
    either :
        (u : Editor) (b : Bool)
        → IsTidy u.flow_spec.edges
        → IsTidy (if b then u else s).flow_spec.edges
    either u true h = h
    either u false h = t
