-- ===== src/Export/FileName.antt =====
-- `sanitizeFileName` of web/src/lib/flow-export.ts and `sanitizeFlowName` of
-- web/src/pages/Flow.tsx. `to_lower` stands for `toLowerCase`.
mod Tests
use mc_gantry.Base.{
  ℕ, ◌≡◌, refl, ◌≢◌, Bool, true, false, ◌||◌, not, [], ◌∷◌, ◌==◌, arith, Text, codes, All, or_text,
  is_space, is_alnum, drop_start, drop_end, trim, replace_each, replace_runs, List-cases, inl, inr,
  if◌then◌else◌,
}
use mc_gantry.Base.StringLaws.{
  FirstIs, LastIs, NoRuns, drop_start-All, drop_end-All, replace_each-All, replace_runs-All,
  drop_start-FirstIs, drop_end-FirstIs, drop_end-LastIs, replace_runs-NoRuns, drop_start-NoRuns,
  drop_end-NoRuns,
}

abbrev pub is_dash : ℕ → Bool
is_dash c = c == b'-'

-- `[a-z0-9-_]` and `[a-z0-9-]`
unfoldable pub is_file_char : ℕ → Bool
unfolding is_alnum
is_file_char c = is_alnum c || c == b'-' || c == b'_'

unfoldable pub is_flow_char : ℕ → Bool
unfolding is_alnum
is_flow_char c = is_alnum c || c == b'-'

-- What the two functions share: trimmed and lowered, spaces and other units as dashes, dashes
-- squeezed and taken off both ends.
unfoldable pub slug : (Text → Text) → (ℕ → Bool) → Text → Text
unfolding trim replace_runs replace_each drop_start drop_end is_space
slug to_lower allowed value =
    let hyphenated = replace_runs is_space (codes "-") (to_lower (trim value)) in
    let plain = replace_each (λ c. not (allowed c)) (codes "-") hyphenated in
    drop_end is_dash (drop_start is_dash (replace_runs is_dash (codes "-") plain))

unfoldable pub sanitize_file_name : (Text → Text) → Text → Text
unfolding slug is_file_char
sanitize_file_name to_lower value = or_text (slug to_lower is_file_char value) (codes "flow")

unfoldable pub sanitize_flow_name : (Text → Text) → Text → Text
unfolding slug is_flow_char
sanitize_flow_name to_lower value = slug to_lower is_flow_char value

-- A clean name: only allowed units, no dash at either end, no two dashes together.
pub record IsSlug (allowed : ℕ → Bool) (s : Text) : Type 0 where
  pub chars : All (λ c. allowed c ≡ true) s
  pub first : FirstIs (λ c. is_dash c ≡ false) s
  pub last : LastIs (λ c. is_dash c ≡ false) s
  pub single : NoRuns is_dash s

slug-IsSlug :
    (to_lower : Text → Text) (allowed : ℕ → Bool) (value : Text)
    → allowed b'-' ≡ true
    → IsSlug allowed (slug to_lower allowed value)
unfolding slug
slug-IsSlug to_lower allowed value h =
    let hyphenated = replace_runs is_space (codes "-") (to_lower (trim value)) in
    let plain = replace_each (λ c. not (allowed c)) (codes "-") hyphenated in
    let squeezed = replace_runs is_dash (codes "-") plain in
    let P = λ (c : ℕ). allowed c ≡ true in
    let plain_chars =
      replace_each-All P (λ c. not (allowed c)) (codes "-") hyphenated (h, tt)
        (λ c e. ground arith) in
    record {
      chars = drop_end-All P is_dash (drop_start is_dash squeezed) (
          drop_start-All P is_dash squeezed
            (replace_runs-All P is_dash (codes "-") plain (h, tt) plain_chars));
      first =
          drop_end-FirstIs is_dash (λ c. is_dash c ≡ false) (drop_start is_dash squeezed)
            (drop_start-FirstIs is_dash squeezed);
      last = drop_end-LastIs is_dash (drop_start is_dash squeezed);
      single =
          drop_end-NoRuns is_dash is_dash (drop_start is_dash squeezed)
            (drop_start-NoRuns is_dash is_dash squeezed (replace_runs-NoRuns is_dash b'-' plain));
    }

flow-IsSlug : IsSlug is_file_char (codes "flow")
unfolding is_file_char
flow-IsSlug = record {
  chars = (refl, (refl, (refl, (refl, tt))));
  first = refl;
  last = refl;
  single = ground arith;
}

-- A file name is never empty, and has only lower-case letters, digits, single dashes and
-- underscores, with no dash at either end, whatever the title and whatever lowercasing does.
pub sanitize_file_name-IsSlug :
    (to_lower : Text → Text) (value : Text)
    → (sanitize_file_name to_lower value ≢ [])
      × IsSlug is_file_char (sanitize_file_name to_lower value)
unfolding sanitize_file_name
sanitize_file_name-IsSlug to_lower value = elim (List-cases (slug to_lower is_file_char value)) [
  | inl e ↦ rw e (λ h. cc, flow-IsSlug)
  | inr (c, s, e) ↦
      rw e
        (λ h. cc, rw e at (slug-IsSlug to_lower is_file_char value (unfold is_file_char in refl)))
]

-- The same of the name of a flow, which can be empty.
pub sanitize_flow_name-IsSlug :
    (to_lower : Text → Text) (value : Text)
    → IsSlug is_flow_char (sanitize_flow_name to_lower value)
unfolding sanitize_flow_name
sanitize_flow_name-IsSlug to_lower value =
    slug-IsSlug to_lower is_flow_char value (unfold is_flow_char in refl)
