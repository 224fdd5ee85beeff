-- ===== src/Utils/Path.antt =====
-- `encodePathSegment` and `catalogEntityPath` of web/src/lib/utils.ts. `encode` stands for
-- `encodeURIComponent`.
pub mod Segments
mod Tests
use mc_gantry.Base.{
  ℕ, ◌+◌, ◌-◌, ◌/◌, ◌%◌, Bool, ◌||◌, ◌==◌, ltb, List, [], ◌∷◌, ◌++◌, Option, none, some,
  if◌then◌else◌, Text, text_eq, codes,
}

-- `[!'()*]`
unfoldable pub is_extra : ℕ → Bool
is_extra c = c == b'!' || c == 39 || c == b'(' || c == b')' || c == b'*'

-- A digit of `toString(16).toUpperCase()`.
abbrev pub hex_digit : ℕ → ℕ
hex_digit d = if ltb d 10 then 48 + d else 55 + d

-- The units of `%` and the hexadecimal number of a unit between 16 and 255.
abbrev pub percent : ℕ → Text
percent c = 37 ∷ hex_digit (c / 16) ∷ hex_digit (c % 16) ∷ []

unfoldable pub escape_extra : Text → Text
unfolding is_extra
escape_extra [] = []
escape_extra (c ∷ s) = (if is_extra c then percent c else c ∷ []) ++ escape_extra s

module _ (encode : Text → Text) where
  unfoldable pub encode_path_segment : Text → Text
  unfolding escape_extra
  encode_path_segment value = escape_extra (encode value)

  -- `namespace && namespace !== 'default'`
  abbrev pub namespace_suffix : Option Text → Text
  namespace_suffix none = []
  namespace_suffix (some []) = []
  namespace_suffix (some (c ∷ s)) =
      if text_eq (c ∷ s) (codes "default") then [] else codes "?namespace=" ++ encode (c ∷ s)

  unfoldable pub catalog_entity_path : Text → Text → Option Text → Text
  unfolding encode_path_segment text_eq
  catalog_entity_path kind name namespace =
      codes "/catalog/"
      ++ (encode_path_segment kind
          ++ (codes "/" ++ (encode_path_segment name ++ namespace_suffix namespace)))
