-- ===== src/Utils/EntityName.antt =====
-- The entity names of web/src/lib/utils.ts. `to_lower` stands for
-- `String.prototype.toLowerCase`, whose table of characters is not part of the repository.
pub mod Valid
pub mod Stable
mod Tests
use mc_gantry.Base.{
  ℕ, Bool, true, false, ◌&&◌, ◌||◌, not, [], ◌∷◌, ◌==◌, leb, if◌then◌else◌, Text, length, is_space,
  is_alnum, drop_start, drop_end, trim_start, replace_each, replace_runs,
}

-- `[a-z0-9.-]`
unfoldable pub is_name_char : ℕ → Bool
unfolding is_alnum
is_name_char c = is_alnum c || c == b'.' || c == b'-'

abbrev pub is_dash : ℕ → Bool
is_dash c = c == b'-'

abbrev pub dash : Text
dash = b'-' ∷ []

-- `/[\s.-]$/.test(s)`
ends_with_separator : Text → Bool
unfolding is_space
ends_with_separator [] = false
ends_with_separator (c ∷ []) = is_space c || c == b'.' || c == b'-'
ends_with_separator (c ∷ d ∷ s) = ends_with_separator (d ∷ s)

-- The chain of replacements in `sanitizeEntityNameInput`, without the last one.
squeeze : Text → Text
unfolding replace_runs replace_each drop_start is_space is_name_char
squeeze next =
    let hyphenated = replace_runs is_space dash next in
    let allowed = replace_each (λ c. not (is_name_char c)) dash hyphenated in
    let single = replace_runs is_dash dash allowed in drop_start (λ c. not (is_alnum c)) single

-- `[a-z0-9.-]*[a-z0-9]` to the end of the text.
unfoldable pub ends_as_name : Text → Bool
unfolding is_alnum is_name_char
ends_as_name [] = false
ends_as_name (c ∷ []) = is_alnum c
ends_as_name (c ∷ d ∷ s) = is_name_char c && ends_as_name (d ∷ s)

-- `/^[a-z0-9](?:[a-z0-9.-]*[a-z0-9])?$/.test(s)`
unfoldable pub matches_name : Text → Bool
unfolding ends_as_name
matches_name [] = false
matches_name (c ∷ []) = is_alnum c
matches_name (c ∷ d ∷ s) = is_alnum c && ends_as_name (d ∷ s)

unfoldable pub is_valid_entity_name : Text → Bool
unfolding matches_name
is_valid_entity_name value = matches_name value && leb (length value) 253

module _ (to_lower : Text → Text) where
  unfoldable pub sanitize_entity_name_input : Text → Text
  unfolding trim_start ends_with_separator squeeze drop_end
  sanitize_entity_name_input value =
      let next = trim_start (to_lower value) in
      if ends_with_separator next
      then squeeze next
      else drop_end (λ c. not (is_alnum c)) (squeeze next)

  unfoldable pub sanitize_entity_name : Text → Text
  unfolding sanitize_entity_name_input drop_end
  sanitize_entity_name value = drop_end (λ c. not (is_alnum c)) (sanitize_entity_name_input value)
