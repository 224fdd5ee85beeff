-- ===== src/Base/StringLaws.antt =====
-- What the string methods of `Text` do to every unit of a text.
use mc_gantry.Base.Lists.{All, All-append, is_empty}
use mc_gantry.Base.Tests.{if◌then◌else◌, Bool-cases, List-cases}
use mc_gantry.Base.Strings.{Text, drop_start, drop_end, replace_each, replace_runs, next_is}
use Prim.Native.Nat.{ℕ}
use mathlib.Core.Path.{◌≡◌, refl}
use mathlib.Core.Logic.{inl, inr}
use mathlib.Core.Bool.{◌&&◌, Bool, true, false}
use mathlib.Core.List.{[], ◌∷◌}
use native.Mathlib.Omega.{arith}

module _ {κ} (P : ℕ → Type κ) (p : ℕ → Bool) where
  pub drop_start-All : (s : Text) → All P s → All P (drop_start p s)
  unfolding drop_start
  drop_start-All [] h = tt
  drop_start-All (c ∷ s) (q, h) = elim (Bool-cases (p c)) [
    | inl e ↦ rw e (drop_start-All s h)
    | inr e ↦ rw e (q, h)
  ]

  pub drop_end-All : (s : Text) → All P s → All P (drop_end p s)
  unfolding drop_end
  drop_end-All [] h = tt
  drop_end-All (c ∷ s) (q, h) = ground (arith, drop_end-All s h)

  pub replace_each-All :
      (r s : Text) → All P r → ((c : ℕ) → p c ≡ false → P c) → All P (replace_each p r s)
  unfolding replace_each
  replace_each-All r [] h k = tt
  replace_each-All r (c ∷ s) h k =
      All-append P (if p c then r else c ∷ []) (replace_each p r s)
        (elim (Bool-cases (p c)) [ inl e ↦ rw e h | inr e ↦ rw e (k c e, tt) ])
        (replace_each-All r s h k)

  pub replace_runs-All : (r s : Text) → All P r → All P s → All P (replace_runs p r s)
  unfolding replace_runs
  replace_runs-All r [] h k = tt
  replace_runs-All r (c ∷ s) h (q, k) =
      All-append P (if p c then (if next_is p s then [] else r) else c ∷ []) (replace_runs p r s)
        (ground arith) (replace_runs-All r s h k)

-- The last unit of a text.
abbrev pub LastIs : (ℕ → Type 0) → Text → Type 0
LastIs P [] = Unit
LastIs P (c ∷ []) = P c
LastIs P (c ∷ d ∷ s) = LastIs P (d ∷ s)

abbrev pub FirstIs : (ℕ → Type 0) → Text → Type 0
FirstIs P [] = Unit
FirstIs P (c ∷ s) = P c

module _ (p : ℕ → Bool) where
  pub drop_start-FirstIs : (s : Text) → FirstIs (λ c. p c ≡ false) (drop_start p s)
  unfolding drop_start
  drop_start-FirstIs [] = tt
  drop_start-FirstIs (c ∷ s) = elim (Bool-cases (p c)) [
    | inl e ↦ rw e (drop_start-FirstIs s)
    | inr e ↦ rw (e, FirstIs) e
  ]

  pub drop_end-FirstIs : (P : ℕ → Type 0) (s : Text) → FirstIs P s → FirstIs P (drop_end p s)
  unfolding drop_end
  drop_end-FirstIs P [] h = tt
  drop_end-FirstIs P (c ∷ s) h = ground arith

  pub drop_end-LastIs : (s : Text) → LastIs (λ c. p c ≡ false) (drop_end p s)
  unfolding drop_end
  drop_end-LastIs [] = tt
  drop_end-LastIs (c ∷ s) = elim (List-cases (drop_end p s)) [
    | inl e ↦ elim (Bool-cases (p c)) [ inl f ↦ rw (e, f) tt | inr f ↦ rw (e, f) f ]
    | inr (d, t, e) ↦ rw e (rw e at (drop_end-LastIs s))
  ]

-- No two neighbours are both in the class.
abbrev pub NoRuns : (ℕ → Bool) → Text → Type 0
NoRuns p [] = Unit
NoRuns p (c ∷ s) = (p c ≡ true → next_is p s ≡ false) × NoRuns p s

module _ (p : ℕ → Bool) where
  next_is-replace_runs : (r s : Text) → next_is p s ≡ false → next_is p (replace_runs p r s) ≡ false
  unfolding replace_runs
  next_is-replace_runs r [] h = refl
  next_is-replace_runs r (c ∷ s) h = rw h h

  pub replace_runs-NoRuns : (d : ℕ) (s : Text) → NoRuns p (replace_runs p (d ∷ []) s)
  unfolding replace_runs
  replace_runs-NoRuns d [] = tt
  replace_runs-NoRuns d (c ∷ s) = elim (Bool-cases (p c)) [
    | inl e ↦ elim (Bool-cases (next_is p s)) [
      | inl f ↦ rw (e, f) (replace_runs-NoRuns d s)
      | inr f ↦ rw (e, f) (λ _. next_is-replace_runs (d ∷ []) s f, replace_runs-NoRuns d s)
    ]
    | inr e ↦ rw e (λ f. cc, replace_runs-NoRuns d s)
  ]

  pub drop_start-NoRuns : (q : ℕ → Bool) (s : Text) → NoRuns p s → NoRuns p (drop_start q s)
  unfolding drop_start
  drop_start-NoRuns q [] h = tt
  drop_start-NoRuns q (c ∷ s) h = elim (Bool-cases (q c)) [
    | inl e ↦ rw e (drop_start-NoRuns q s h.1)
    | inr e ↦ rw e h
  ]

  next_is-drop_end :
      (q : ℕ → Bool) (s : Text) → next_is p s ≡ false → next_is p (drop_end q s) ≡ false
  unfolding drop_end
  next_is-drop_end q [] h = refl
  next_is-drop_end q (c ∷ s) h = ground arith

  pub drop_end-NoRuns : (q : ℕ → Bool) (s : Text) → NoRuns p s → NoRuns p (drop_end q s)
  unfolding drop_end
  drop_end-NoRuns q [] h = tt
  drop_end-NoRuns q (c ∷ s) (h, k) = elim (Bool-cases (is_empty (drop_end q s) && q c)) [
    | inl e ↦ rw e tt
    | inr e ↦ rw e (λ f. next_is-drop_end q s (h f), drop_end-NoRuns q s k)
  ]

-- Texts that a method leaves as they are.
module _ (p : ℕ → Bool) where
  pub drop_start-eq_self : (s : Text) → FirstIs (λ c. p c ≡ false) s → drop_start p s ≡ s
  unfolding drop_start
  drop_start-eq_self [] h = refl
  drop_start-eq_self (c ∷ s) h = rw h

  pub drop_end-eq_self : (s : Text) → LastIs (λ c. p c ≡ false) s → drop_end p s ≡ s
  unfolding drop_end
  drop_end-eq_self [] h = refl
  drop_end-eq_self (c ∷ []) h = rw h
  drop_end-eq_self (c ∷ d ∷ s) h = rw (drop_end-eq_self (d ∷ s) h)

  pub replace_each-eq_self : (r s : Text) → All (λ c. p c ≡ false) s → replace_each p r s ≡ s
  unfolding replace_each
  replace_each-eq_self r [] h = refl
  replace_each-eq_self r (c ∷ s) (h, k) = rw (h, replace_each-eq_self r s k)

  pub replace_runs-eq_self : (r s : Text) → All (λ c. p c ≡ false) s → replace_runs p r s ≡ s
  unfolding replace_runs
  replace_runs-eq_self r [] h = refl
  replace_runs-eq_self r (c ∷ s) (h, k) = rw (h, replace_runs-eq_self r s k)

  pub replace_runs-NoRuns-eq_self :
      (d : ℕ)
      → ((c : ℕ) → p c ≡ true → c ≡ d)
      → (s : Text) → NoRuns p s
      → replace_runs p (d ∷ []) s ≡ s
  unfolding replace_runs
  replace_runs-NoRuns-eq_self d only [] h = refl
  replace_runs-NoRuns-eq_self d only (c ∷ s) (h, k) = elim (Bool-cases (p c)) [
    | inl e ↦ rw (e, h e, replace_runs-NoRuns-eq_self d only s k, only c e)
    | inr e ↦ rw (e, replace_runs-NoRuns-eq_self d only s k)
  ]
