-- ===== src/Flow/Copies/Names.antt =====
-- A duplicate gets a name that is free: `nextDuplicateFlowName` of web/src/pages/Flow.tsx.
use mc_gantry.Base.{
  ℕ, zero, suc, ◌≤◌, ◌<◌, ◌≡◌, refl, sym, ap, ◌∙◌, ◌≢◌, inl, inr, true, false, not, List, [], ◌∷◌,
  ◌++◌, some, arith, length, filter, Text, text_eq, text_eq_iff, codes, Bool-cases, ◌⊎◌, ℕ_discrete,
}
use mc_gantry.Base.Map.{mem}
use mc_gantry.Export.Bytes.{decimal}
use mc_gantry.Export.Decimal.{decimal-injective}
use mc_gantry.Flow.Copies.{numbered, first_free, copy_base_of, next_duplicate_flow_name}

append-cancel : (xs ys zs : Text) → xs ++ ys ≡ xs ++ zs → ys ≡ zs
append-cancel [] ys zs e = e
append-cancel (x ∷ xs) ys zs e = append-cancel xs ys zs (ap tail e)
  where
    tail : Text → Text
    tail [] = []
    tail (c ∷ s) = s

numbered-injective : (base : Text) (m n : ℕ) → numbered base m ≡ numbered base n → m ≡ n
numbered-injective base m n e =
    decimal-injective m n
      (append-cancel (codes "-") (decimal m) (decimal n) (append-cancel base _ _ e))

-- All the names but one.
abbrev without : Text → List Text → List Text
without k names = filter (λ j. not (text_eq j k)) names

mem-without : (k j : Text) (names : List Text) → k ≢ j → mem j (without k names) ≡ mem j names
unfolding mem filter
mem-without k j [] h = refl
mem-without k j (i ∷ names) h =
    ground (arith, text_eq_iff i k, text_eq_iff i j, mem-without k j names h)

length-without_le : (k : Text) (names : List Text) → length (without k names) ≤ length names
unfolding filter
length-without_le k [] = omega arith
length-without_le k (i ∷ names) = ground (arith, length-without_le k names)

length-without :
    (k : Text) (names : List Text) → mem k names ≡ true → length (without k names) < length names
unfolding mem filter
length-without k [] h = ground arith
length-without k (i ∷ names) h = ground (arith, length-without_le k names, length-without k names)

first_free-cong :
    (base : Text) (fuel counter : ℕ) (xs ys : List Text)
    → ((k : ℕ) → counter ≤ k → mem (numbered base k) xs ≡ mem (numbered base k) ys)
    → first_free xs base fuel counter ≡ first_free ys base fuel counter
unfolding first_free
first_free-cong base zero counter xs ys h = refl
first_free-cong base (suc fuel) counter xs ys h = rw (
  h counter (omega arith),
  first_free-cong base fuel (suc counter) xs ys (λ k le. h k (omega (arith, le))),
)

not_lt_zero : (a : ℕ) → ¬ (a < 0)
not_lt_zero a = omega arith

not_between : (a b : ℕ) → a ≤ b → ¬ (b < a)
not_between a b h = omega (arith, h)

suc_le_ne : (a b : ℕ) → suc a ≤ b → a ≢ b
suc_le_ne a b h = omega (arith, h)

-- Fuel beyond the number of the names that exist is enough.
first_free-enough :
    (base : Text) (fuel counter : ℕ) (names : List Text)
    → length names < fuel
    → (name : Text) × (first_free names base fuel counter ≡ some name)
unfolding first_free
first_free-enough base zero counter names h = absurd (not_lt_zero (length names) h)
first_free-enough base (suc fuel) counter names h =
    let here = numbered base counter in
    elim (Bool-cases (mem here names)) [
      | inl e ↦
          let (name, found) =
            first_free-enough base fuel (suc counter) (without here names)
              (fewer (length-without here names e) h) in
          let same = first_free-cong base fuel (suc counter) (without here names) names (λ k le.
            mem-without here (numbered base k) names
              (λ eq. absurd (suc_le_ne counter k le (numbered-injective base counter k eq)))) in
          (name, rw e (sym same ∙ found))
      | inr e ↦ (here, rw e refl)
    ]
  where
    fewer : {a b : ℕ} → a < b → b < suc fuel → a < fuel
    fewer l m = omega (arith, l, m)

-- What the loop returns is free and is the first number that is.
pub IsFirstFree : List Text → Text → ℕ → Text → Type 0
IsFirstFree names base counter name =
    (n : ℕ) × (counter ≤ n)
    × (name ≡ numbered base n)
    × (mem name names ≡ false)
    × ((k : ℕ) → counter ≤ k → k < n → mem (numbered base k) names ≡ true)

first_free-IsFirstFree :
    (base : Text) (fuel counter : ℕ) (names : List Text) (name : Text)
    → first_free names base fuel counter ≡ some name
    → IsFirstFree names base counter name
unfolding first_free IsFirstFree
first_free-IsFirstFree base zero counter names name h = ground arith
first_free-IsFirstFree base (suc fuel) counter names name h =
    let here = numbered base counter in
    elim (Bool-cases (mem here names)) [
      | inl e ↦
          let (n, le, eq, free, before) =
            first_free-IsFirstFree base fuel (suc counter) names name (rw e at h) in
          (
            n,
            omega (arith, le),
            eq,
            free,
            λ k l m. elim (ℕ_discrete counter k) [
              | yes same ↦ rw (← same) e
              | no other ↦ before k (omega (arith, l, other)) m
            ],
          )
      | inr e ↦
          let eq : here ≡ name = ground (arith, rw e at h) in
          (counter, omega arith, sym eq, rw (← eq) e, λ k l m. absurd (not_between counter k l m))
    ]

mem_of_IsFirstFree :
    (names : List Text) (base : Text) (counter : ℕ) (name : Text)
    → IsFirstFree names base counter name
    → mem name names ≡ false
unfolding IsFirstFree
mem_of_IsFirstFree names base counter name (n, le, eq, free, before) = free

-- A duplicate of a flow always gets a name, and one that no flow has: `<name>-copy` where that is
-- free, and else `<name>-copy-<n>` with the least `n` from 2 on that is.
pub next_duplicate_flow_name-IsFirstFree :
    (to_lower : Text → Text) (base_name : Text) (existing_names : List Text)
    → (name : Text) × (next_duplicate_flow_name to_lower base_name existing_names ≡ some name)
      × (mem name existing_names ≡ false)
      × ((name ≡ copy_base_of to_lower base_name)
          ⊎ (mem (copy_base_of to_lower base_name) existing_names ≡ true)
            × IsFirstFree existing_names (copy_base_of to_lower base_name) 2 name)
unfolding next_duplicate_flow_name
next_duplicate_flow_name-IsFirstFree to_lower base_name existing_names =
    let base = copy_base_of to_lower base_name in
    elim (Bool-cases (mem base existing_names)) [
      | inl e ↦
          let (name, found) =
            first_free-enough base (suc (length existing_names)) 2 existing_names (omega arith) in
          let first : IsFirstFree existing_names base 2 name =
            first_free-IsFirstFree base (suc (length existing_names)) 2 existing_names name found in
          (name, rw e found, mem_of_IsFirstFree existing_names base 2 name first, inr (e, first))
      | inr e ↦ (base, rw e refl, e, inl refl)
    ]
