-- ===== src/Export/Wrap.antt =====
-- `wrapText` of web/src/lib/flow-export.ts.
pub mod Bounds
pub mod Content
mod Tests
use mc_gantry.Base.{
  ℕ, zero, suc, ◌-◌, Bool, true, false, ◌&&◌, not, List, [], ◌∷◌, ◌++◌, ◌==◌, leb, ltb, max,
  if◌then◌else◌, Text, length, take, drop, is_empty, is_space, filter, trim, next_is, split_lines,
}

-- `s.split(/\s+/)`: a run of spaces closes the part at its last unit.
split_spaces : Text → Text → List Text
unfolding is_space
split_spaces part [] = part ∷ []
split_spaces part (c ∷ s) =
    let same = split_spaces part s in
    let closed = part ∷ split_spaces [] s in
    let longer = split_spaces (part ++ c ∷ []) s in
    if is_space c then (if next_is is_space s then same else closed) else longer

words_of : Text → List Text
unfolding split_spaces filter
words_of segment = filter (λ w. not (is_empty w)) (split_spaces [] segment)

-- The loop that cuts a long word: `fuel` rounds, of which the word's length is enough.
slices : ℕ → ℕ → Text → List Text
slices zero max_chars word = []
slices (suc fuel) max_chars word =
    let more = take max_chars word ∷ slices fuel max_chars (drop max_chars word) in
    if is_empty word then [] else more

abbrev flush : Text → List Text
flush [] = []
flush (c ∷ s) = (c ∷ s) ∷ []

abbrev join_word : Text → Text → Text
join_word [] word = word
join_word (c ∷ s) word = (c ∷ s) ++ b' ' ∷ word

-- The loop over the words of a segment: what it pushes, with `current` as the open line.
place_words : ℕ → Text → List Text → List Text
unfolding slices
place_words max_chars current [] = flush current
place_words max_chars current (word ∷ words) =
    let cut =
      flush current ++ (slices (length word) max_chars word ++ place_words max_chars [] words) in
    let candidate = join_word current word in
    let joined = place_words max_chars candidate words in
    let closed = current ∷ place_words max_chars word words in
    if ltb max_chars (length word)
    then cut
    else if leb (length candidate) max_chars
    then joined
    else closed

-- The lines of one segment; a segment without words is an empty line.
segment_lines : ℕ → Text → List Text
unfolding place_words words_of
segment_lines max_chars segment =
    if is_empty (words_of segment) then [] ∷ [] else place_words max_chars [] (words_of segment)

all_segments : ℕ → List Text → List Text
unfolding segment_lines
all_segments max_chars [] = []
all_segments max_chars (segment ∷ segments) =
    segment_lines max_chars segment ++ all_segments max_chars segments

-- The lines before their number is limited.
unfoldable pub unclamped_lines : Text → ℕ → List Text
unfolding all_segments split_lines
unclamped_lines normalized max_chars = all_segments max_chars (split_lines [] normalized)

-- The last line that is kept, with an ellipsis (one code unit) for what is left out.
unfoldable pub shorten : ℕ → Text → Text
shorten max_chars last =
    if leb max_chars (length last)
    then take (max 1 (max_chars - 1)) last ++ 0x2026 ∷ []
    else last ++ 0x2026 ∷ []

-- With `maxLines` at 0 the source would fail; here no line is left. The source calls it with 3
-- and 4.
shorten_last : ℕ → List Text → List Text
unfolding shorten
shorten_last max_chars [] = []
shorten_last max_chars (last ∷ []) = shorten max_chars last ∷ []
shorten_last max_chars (line ∷ next ∷ lines) = line ∷ shorten_last max_chars (next ∷ lines)

unfoldable pub wrap_text : Text → ℕ → ℕ → List Text
unfolding trim unclamped_lines shorten_last
wrap_text text max_chars max_lines =
    let normalized = trim text in
    let lines = unclamped_lines normalized max_chars in
    let clamped = shorten_last max_chars (take max_lines lines) in
    if is_empty normalized then [] else if leb (length lines) max_lines then lines else clamped
