-- ===== src/Utils/EntityName/Valid.antt =====
-- What `sanitizeEntityName` returns is a valid entity name (web/src/lib/utils.ts).
use mc_gantry.Base.{
  ℕ, ◌≡◌, refl, ◌≢◌, inl, inr, ◌≤◌, Bool, true, false, not, [], ◌∷◌, arith, Text, length, All,
  Bool-cases, is_space, is_alnum, drop_end, trim_start, replace_each, replace_runs,
}
use mc_gantry.Base.StringLaws.{
  FirstIs, LastIs, NoRuns, drop_start-All, drop_end-All, replace_each-All, replace_runs-All,
  drop_start-FirstIs, drop_end-FirstIs, drop_end-LastIs, replace_runs-NoRuns, drop_start-NoRuns,
  drop_end-NoRuns,
}
use mc_gantry.Utils.EntityName.{
  is_name_char, is_dash, dash, ends_with_separator, squeeze, ends_as_name, matches_name,
  is_valid_entity_name, sanitize_entity_name_input, sanitize_entity_name,
}

-- The parts of a squeezed name: only name characters, no two dashes together, and a letter or
-- digit in front.
pub record IsSqueezed (s : Text) : Type 0 where
  pub chars : All (λ c. is_name_char c ≡ true) s
  pub first : FirstIs (λ c. not (is_alnum c) ≡ false) s
  pub single : NoRuns is_dash s

squeeze-IsSqueezed : (s : Text) → IsSqueezed (squeeze s)
unfolding squeeze
squeeze-IsSqueezed s =
    let hyphenated = replace_runs is_space dash s in
    let allowed = replace_each (λ c. not (is_name_char c)) dash hyphenated in
    let chars =
      replace_each-All (λ c. is_name_char c ≡ true) (λ c. not (is_name_char c)) dash hyphenated
        (unfold is_name_char in (refl, tt)) (λ c h. ground arith) in
    record {
      chars =
          drop_start-All _ (λ c. not (is_alnum c)) _
            (replace_runs-All _ is_dash dash _ (unfold is_name_char in (refl, tt)) chars);
      first = drop_start-FirstIs (λ c. not (is_alnum c)) (replace_runs is_dash dash allowed);
      single =
          drop_start-NoRuns is_dash (λ c. not (is_alnum c)) (replace_runs is_dash dash allowed)
            (replace_runs-NoRuns is_dash b'-' allowed);
    }

drop_end-IsSqueezed : (p : ℕ → Bool) (s : Text) → IsSqueezed s → IsSqueezed (drop_end p s)
drop_end-IsSqueezed p s h = record {
  chars = drop_end-All _ p s h.chars;
  first = drop_end-FirstIs p (λ c. not (is_alnum c) ≡ false) s h.first;
  single = drop_end-NoRuns is_dash p s h.single;
}

module _ (to_lower : Text → Text) (value : Text) where
  pub sanitize_entity_name_input-IsSqueezed : IsSqueezed (sanitize_entity_name_input to_lower value)
  unfolding sanitize_entity_name_input
  sanitize_entity_name_input-IsSqueezed =
      let next = trim_start (to_lower value) in
      elim (Bool-cases (ends_with_separator next)) [
        | inl e ↦ rw e (squeeze-IsSqueezed next)
        | inr e ↦ rw e (drop_end-IsSqueezed _ _ (squeeze-IsSqueezed next))
      ]

  pub sanitize_entity_name-IsSqueezed : IsSqueezed (sanitize_entity_name to_lower value)
  unfolding sanitize_entity_name
  sanitize_entity_name-IsSqueezed = drop_end-IsSqueezed _ _ sanitize_entity_name_input-IsSqueezed

  pub sanitize_entity_name-LastIs :
      LastIs (λ c. not (is_alnum c) ≡ false) (sanitize_entity_name to_lower value)
  unfolding sanitize_entity_name
  sanitize_entity_name-LastIs =
      drop_end-LastIs (λ c. not (is_alnum c)) (sanitize_entity_name_input to_lower value)

ends_as_name_of_parts :
    (c : ℕ) (s : Text)
    → All (λ c. is_name_char c ≡ true) (c ∷ s)
    → LastIs (λ c. not (is_alnum c) ≡ false) (c ∷ s)
    → ends_as_name (c ∷ s) ≡ true
unfolding ends_as_name
ends_as_name_of_parts c [] h k = ground arith
ends_as_name_of_parts c (d ∷ s) (h, hs) k = ground (arith, ends_as_name_of_parts d s hs k)

matches_name_of_parts :
    (s : Text)
    → s ≢ []
    → IsSqueezed s
    → LastIs (λ c. not (is_alnum c) ≡ false) s
    → matches_name s ≡ true
unfolding matches_name
matches_name_of_parts [] n h k = absurd (n refl)
matches_name_of_parts (c ∷ []) n h k = ground (arith, h.first)
matches_name_of_parts (c ∷ d ∷ s) n h k =
    ground (arith, h.first, ends_as_name_of_parts d s h.chars.1 k)

-- Whatever is typed, and whatever lowercasing does, `sanitizeEntityName` returns the empty text or
-- a text that `isValidEntityName` accepts, unless it is longer than 253 units.
pub sanitize-is_valid :
    (to_lower : Text → Text) (value : Text)
    → sanitize_entity_name to_lower value ≢ []
    → length (sanitize_entity_name to_lower value) ≤ 253
    → is_valid_entity_name (sanitize_entity_name to_lower value) ≡ true
unfolding is_valid_entity_name
sanitize-is_valid to_lower value n h = ground (
  arith,
  matches_name_of_parts (sanitize_entity_name to_lower value) n
      (sanitize_entity_name-IsSqueezed to_lower value) (sanitize_entity_name-LastIs to_lower value),
)
