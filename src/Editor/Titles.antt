-- ===== src/Editor/Titles.antt =====
-- The title of a copy: `nextDuplicateFlowTitle` of web/src/pages/Flow.tsx. The regular expression
-- `^(.*) Copy(?: (\d+))?$` is read from the end: at most one of its two forms fits.
use mc_gantry.Base.{
  ℕ, suc, ◌+◌, ◌*◌, ◌-◌, Bool, ◌||◌, ◌&&◌, ◌==◌, leb, [], ◌∷◌, ◌++◌, Option, none, some, any,
  is_empty, foldl, if◌then◌else◌, Text, codes, or_text, trim,
}
use mathlib.Core.List.{reverse}
use mc_gantry.Export.Bytes.{decimal}

abbrev pub is_digit : ℕ → Bool
is_digit c = leb 48 c && leb c 57

-- The digits at the start of a text, and the rest.
unfoldable pub digits_of : Text → Text
digits_of [] = []
digits_of (c ∷ s) = let rest = digits_of s in if is_digit c then c ∷ rest else []

unfoldable pub after_digits : Text → Text
after_digits [] = []
after_digits (c ∷ s) = let rest = after_digits s in if is_digit c then rest else c ∷ s

-- `Number(digits)`, exact up to `2 ^ 53`.
abbrev pub value_of_digits : Text → ℕ
value_of_digits ds = foldl (λ n d. 10 * n + (d - 48)) 0 ds

-- What `.` does not match.
abbrev pub is_line_end : ℕ → Bool
is_line_end c = c == 10 || c == 13 || c == 8232 || c == 8233

-- The text before `suffix`, both read from the end.
unfoldable pub before_suffix : Text → Text → Option Text
before_suffix [] s = some s
before_suffix (c ∷ suffix) [] = none
before_suffix (c ∷ suffix) (d ∷ s) =
    let rest = before_suffix suffix s in if c == d then rest else none

abbrev pub copy_mark : Text
copy_mark = reverse (codes " Copy")

-- `match[1]` and `match[2]` of a text that is read from the end.
abbrev pub without_number : Text → Option (Text × Option Text)
without_number s = elim (before_suffix copy_mark s) [
  | none ↦ none
  | some p ↦ if any is_line_end p then none else some (reverse p, none)
]

abbrev pub with_number : Text → Text → Option (Text × Option Text)
with_number number s = elim (before_suffix (32 ∷ copy_mark) s) [
  | none ↦ none
  | some p ↦ if any is_line_end p then none else some (reverse p, some (reverse number))
]

unfoldable pub match_copy : Text → Option (Text × Option Text)
unfolding digits_of after_digits before_suffix any
match_copy trimmed =
    let s = reverse trimmed in
    let number = digits_of s in
    if is_empty number then without_number s else with_number number (after_digits s)

-- `match[2] ? Number(match[2]) + 1 : 2`
abbrev pub next_number : Option Text → ℕ
next_number none = 2
next_number (some ds) = suc (value_of_digits ds)

abbrev pub title_after : Text → Option (Text × Option Text) → Text
title_after trimmed none = trimmed ++ codes " Copy"
title_after trimmed (some (prefix, number)) =
    or_text (trim prefix) (codes "Flow") ++ (codes " Copy " ++ decimal (next_number number))

unfoldable pub next_duplicate_flow_title : Text → Text
unfolding trim match_copy decimal
next_duplicate_flow_title base_title =
    let trimmed = or_text (trim base_title) (codes "Flow") in
    title_after trimmed (match_copy trimmed)
