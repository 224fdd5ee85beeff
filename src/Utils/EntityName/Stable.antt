-- ===== src/Utils/EntityName/Stable.antt =====
-- Valid entity names without doubled dashes are left as they are by `sanitizeEntityName`
-- (web/src/lib/utils.ts).
use mc_gantry.Base.{
  ℕ, ◌≡◌, refl, ◌∙◌, inl, inr, ◌<◌, true, false, not, [], ◌∷◌, map, arith, Text, All, All-imp,
  Bool-cases, is_space, is_alnum, ascii_lower, trim_start,
}
use mc_gantry.Base.StringLaws.{
  LastIs, NoRuns, drop_start-eq_self, drop_end-eq_self, replace_each-eq_self, replace_runs-eq_self,
  replace_runs-NoRuns-eq_self,
}
use mc_gantry.Utils.EntityName.{
  is_name_char, is_dash, dash, ends_with_separator, squeeze, ends_as_name, matches_name,
  is_valid_entity_name, sanitize_entity_name_input, sanitize_entity_name,
}
use mc_gantry.Utils.EntityName.Valid.{
  IsSqueezed, sanitize_entity_name-IsSqueezed, sanitize_entity_name-LastIs,
}

-- Documented behaviour of `toLowerCase`: on ASCII texts it lowers each letter.
abbrev pub LowersAscii : (Text → Text) → Type 0
LowersAscii to_lower = (s : Text) → All (λ c. c < 128) s → to_lower s ≡ map ascii_lower s

module _ (c : ℕ) (h : is_name_char c ≡ true) where
  name_char-lt : c < 128
  unfolding is_name_char
  name_char-lt = ground arith

  name_char-lower : ascii_lower c ≡ c
  unfolding is_name_char ascii_lower
  name_char-lower = ground arith

  name_char-not_space : is_space c ≡ false
  unfolding is_name_char is_space
  name_char-not_space = ground arith

map-ascii_lower-eq_self : (s : Text) → All (λ c. is_name_char c ≡ true) s → map ascii_lower s ≡ s
map-ascii_lower-eq_self [] h = refl
map-ascii_lower-eq_self (c ∷ s) (h, k) = rw (name_char-lower c h, map-ascii_lower-eq_self s k)

squeeze-eq_self : (s : Text) → IsSqueezed s → squeeze s ≡ s
unfolding squeeze
squeeze-eq_self s h = rw (
  replace_runs-eq_self is_space dash s (All-imp name_char-not_space s h.chars),
  replace_each-eq_self (λ c. not (is_name_char c)) dash s (All-imp (λ c k. ground arith) s h.chars),
  replace_runs-NoRuns-eq_self is_dash b'-' (λ c k. ground arith) s h.single,
  drop_start-eq_self (λ c. not (is_alnum c)) s h.first,
)

trim_start-eq_self : (s : Text) → IsSqueezed s → trim_start s ≡ s
unfolding trim_start
trim_start-eq_self [] h = refl
trim_start-eq_self (c ∷ s) h = drop_start-eq_self is_space (c ∷ s) (name_char-not_space c h.chars.0)

sanitize_of_parts :
    (to_lower : Text → Text)
    → LowersAscii to_lower
    → (s : Text) → IsSqueezed s
    → LastIs (λ c. not (is_alnum c) ≡ false) s
    → sanitize_entity_name to_lower s ≡ s
unfolding sanitize_entity_name sanitize_entity_name_input
sanitize_of_parts to_lower lowers s h k =
    let lowered = lowers s (All-imp name_char-lt s h.chars) ∙ map-ascii_lower-eq_self s h.chars in
    let ended = drop_end-eq_self (λ c. not (is_alnum c)) s k in
    elim (Bool-cases (ends_with_separator s)) [
      | inl e ↦ rw (lowered, trim_start-eq_self s h, e, squeeze-eq_self s h) ended
      | inr e ↦ rw (lowered, trim_start-eq_self s h, e, squeeze-eq_self s h, ended) ended
    ]

-- Where lowercasing is the usual one on ASCII, sanitizing an entity name twice is sanitizing it
-- once.
pub sanitize-idempotent :
    (to_lower : Text → Text)
    → LowersAscii to_lower
    → (value : Text)
    → sanitize_entity_name to_lower (sanitize_entity_name to_lower value)
      ≡ sanitize_entity_name to_lower value
sanitize-idempotent to_lower lowers value =
    sanitize_of_parts to_lower lowers (sanitize_entity_name to_lower value)
      (sanitize_entity_name-IsSqueezed to_lower value) (sanitize_entity_name-LastIs to_lower value)

ends_as_name-parts :
    (c : ℕ) (s : Text)
    → ends_as_name (c ∷ s) ≡ true
    → All (λ c. is_name_char c ≡ true) (c ∷ s) × LastIs (λ c. not (is_alnum c) ≡ false) (c ∷ s)
unfolding ends_as_name is_name_char
ends_as_name-parts c [] h = ground arith
ends_as_name-parts c (d ∷ s) h = ground (arith, ends_as_name-parts d s)

-- A name that `isValidEntityName` accepts and that has no two dashes in a row is its own
-- sanitized form, where lowercasing is the usual one on ASCII.
pub sanitize-eq_self :
    (to_lower : Text → Text)
    → LowersAscii to_lower
    → (name : Text) → is_valid_entity_name name ≡ true
    → NoRuns is_dash name
    → sanitize_entity_name to_lower name ≡ name
unfolding is_valid_entity_name matches_name
sanitize-eq_self to_lower lowers [] h k = cc
sanitize-eq_self to_lower lowers (c ∷ []) h k =
    sanitize_of_parts to_lower lowers (c ∷ [])
      (record { chars = unfold is_name_char in ground arith; first = ground arith; single = k })
      (ground arith)
sanitize-eq_self to_lower lowers (c ∷ d ∷ s) h k =
    let tail : ends_as_name (d ∷ s) ≡ true = ground arith in
    let (chars, last) = ends_as_name-parts d s tail in
    sanitize_of_parts to_lower lowers (c ∷ d ∷ s)
      (record {
        chars = (unfold is_name_char in ground arith, chars);
        first = ground arith;
        single = k;
      })
      last
