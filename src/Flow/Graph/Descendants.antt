-- ===== src/Flow/Graph/Descendants.antt =====
-- `collectDescendants` finds exactly the descendants: web/src/lib/flow.tsx.
use mc_gantry.Base.{
  ℕ, zero, suc, ◌+◌, ◌≤◌, ◌<◌, ◌≡◌, refl, sym, ap, subst, ◌↔◌, ◌⊎◌, inl, inr, ⊎_elim, true, List,
  [], ◌∷◌, Memᴰ, Memᴰ-cons, Option, some, arith, Text, length, Bool-cases, List-cases,
}
use mathlib.Core.List.Memᴰ
use mc_gantry.Base.Map.{mem}
use mc_gantry.Flow.Types.{FlowNode}
use mc_gantry.Flow.Graph.{Search, expand, loop, collect_descendants}
use mc_gantry.Flow.Graph.Scan.{
  unseen, unseen-nil, scan-work, scan-mem, scan-queue, IsChild, mem_iff,
}

-- `id` is below `root`: a child of it, or a child of what is below it.
pub data Below (nodes : List FlowNode) (root : Text) : Text → Type 0 where
  child : {id : Text} → IsChild nodes root id → Below nodes root id
  deeper :
      {current id : Text}
      → Below nodes root current
      → IsChild nodes current id
      → Below nodes root id

module _ (nodes : List FlowNode) where
  abbrev work : Search → ℕ
  work s = unseen nodes s.descendants + length s.queue

  expand-work :
      (s : Search) (current : Text) (rest : List Text)
      → s.queue ≡ current ∷ rest
      → work (expand nodes s current rest) < work s
  unfolding expand
  expand-work s current rest e =
      let start : Search = record { descendants = s.descendants; queue = rest } in
      omega (arith, scan-work nodes current start nodes (λ n m. m), ap length e)

  -- What holds of the search at every round.
  record Inv (root : Text) (s : Search) : Type 0 where
    sound : (id : Text) → mem id s.descendants ≡ true → Below nodes root id
    waiting : (id : Text) → Memᴰ id s.queue → (id ≡ root) ⊎ (mem id s.descendants ≡ true)
    root_closed :
        (id : Text) → IsChild nodes root id → Memᴰ root s.queue ⊎ (mem id s.descendants ≡ true)
    closed :
        (current id : Text)
        → mem current s.descendants ≡ true
        → IsChild nodes current id
        → Memᴰ current s.queue ⊎ (mem id s.descendants ≡ true)

  Inv-start : (root : Text) → Inv root (record { descendants = []; queue = root ∷ [] })
  Inv-start root = record {
    sound = λ id m. absurd (Memᴰ.not-nil ((mem_iff id []).0 m));
    waiting = λ id q. inl (Memᴰ.eq_of_singleton q);
    root_closed = λ id c. inl (Memᴰ.head refl);
    closed = λ current id m c. absurd (Memᴰ.not-nil ((mem_iff current []).0 m));
  }

  Inv-expand :
      (root : Text) (s : Search) (current : Text) (rest : List Text)
      → s.queue ≡ current ∷ rest
      → Inv root s
      → Inv root (expand nodes s current rest)
  unfolding expand
  Inv-expand root s current rest e h =
      let start : Search = record { descendants = s.descendants; queue = rest } in
      let flags = λ (id : Text). scan-mem current start nodes id in
      let queued = λ (id : Text). scan-queue current start nodes id in
      let head =
        λ (id : Text) (q : Memᴰ id s.queue). (Memᴰ-cons id current rest).0 (subst (Memᴰ id) e q) in
      let later = λ (id : Text) (q : Memᴰ id rest).
        subst (Memᴰ id) (sym e) ((Memᴰ-cons id current rest).1 (inr q)) in
      let first = subst (Memᴰ current) (sym e) (Memᴰ.head refl) in
      record {
        sound = λ id m.
            ⊎_elim (h.sound id)
              (λ c.
                ⊎_elim (λ same. child (subst (λ k. IsChild nodes k id) same c))
                  (λ marked. deeper (h.sound current marked) c) (h.waiting current first))
              ((flags id).0 m);
        waiting = λ id q.
            ⊎_elim (λ r. ⊎_elim inl (λ m. inr ((flags id).1 (inl m))) (h.waiting id (later id r)))
              (λ new. inr new.0) ((queued id).0 q);
        root_closed = λ id c.
            ⊎_elim
              (λ q.
                ⊎_elim (λ same. inr ((flags id).1 (inr (subst (λ k. IsChild nodes k id) same c))))
                  (λ r. inl ((queued root).1 (inl r))) (head root q))
              (λ m. inr ((flags id).1 (inl m))) (h.root_closed id c);
        closed = λ x id m c. elim (Bool-cases (mem x s.descendants)) [
          | inl old ↦
              ⊎_elim
                (λ q.
                  ⊎_elim (λ same. inr ((flags id).1 (inr (subst (λ k. IsChild nodes k id) same c))))
                    (λ r. inl ((queued x).1 (inl r))) (head x q))
                (λ k. inr ((flags id).1 (inl k))) (h.closed x id old c)
          | inr new ↦ inl ((queued x).1 (inr (m, new)))
        ];
      }

  -- With an empty queue all that is below the root is marked.
  complete :
      (root : Text) (s : Search)
      → Inv root s
      → s.queue ≡ []
      → {id : Text} → Below nodes root id
      → mem id s.descendants ≡ true
  complete root s h e (child {id} c) =
      ⊎_elim (λ q. absurd (Memᴰ.not-nil (subst (Memᴰ root) e q))) (λ m. m) (h.root_closed id c)
  complete root s h e (deeper {current} {id} b c) =
      ⊎_elim (λ q. absurd (Memᴰ.not-nil (subst (Memᴰ current) e q))) (λ m. m)
        (h.closed current id (complete root s h e b) c)

  abbrev Decided : Text → Option (List Text) → Type 0
  Decided root found =
      (d : List Text) × (found ≡ some d) × ((id : Text) → (mem id d ≡ true) ↔ Below nodes root id)

  finish :
      (root : Text) (s : Search) → Inv root s → s.queue ≡ [] → Decided root (some s.descendants)
  finish root s h e = (s.descendants, refl, λ id. (h.sound id, complete root s h e))

  loop_decides :
      (root : Text) (fuel : ℕ) (s : Search)
      → Inv root s
      → work s ≤ fuel
      → Decided root (loop nodes fuel s)
  unfolding loop
  loop_decides root zero s h k = elim (List-cases s.queue) [
    | inl e ↦ rw e (finish root s h e)
    | inr (current, rest, e) ↦ absurd (omega (arith, ap length e))
  ]
  loop_decides root (suc fuel) s h k = elim (List-cases s.queue) [
    | inl e ↦ rw e (finish root s h e)
    | inr (current, rest, e) ↦ rw e (
        loop_decides root fuel (expand nodes s current rest) (Inv-expand root s current rest e h)
          (omega (arith, expand-work s current rest e)))
  ]

-- The search ends within one round more than there are nodes, also where parents form a cycle, and
-- what it returns holds an id exactly if a chain of parents leads from it up to the given one.
pub collect_descendants-decides :
    (nodes : List FlowNode) (root : Text)
    → (d : List Text) × (collect_descendants nodes root ≡ some d)
      × ((id : Text) → (mem id d ≡ true) ↔ Below nodes root id)
unfolding collect_descendants
collect_descendants-decides nodes root =
    loop_decides nodes root (length nodes + 1) (record { descendants = []; queue = root ∷ [] })
      (Inv-start nodes root) (omega (arith, unseen-nil nodes))
