-- ===== src/Export/Wrap/Bounds.antt =====
-- A wrapped text fits its box: web/src/lib/flow-export.ts.
use mc_gantry.Base.{
  split_lines, ℕ, zero, suc, ◌-◌, ◌≤◌, ◌≡◌, refl, List, [], ◌∷◌, ◌++◌, max, arith, Text, length,
  take, drop, All, All-append, All-take, length-append, length-take, trim,
}
use mc_gantry.Export.Wrap.{
  slices, flush, join_word, place_words, words_of, segment_lines, all_segments, unclamped_lines,
  shorten, shorten_last, wrap_text,
}

module _ (max_chars : ℕ) where
  abbrev Fits : Text → Type 0
  Fits line = length line ≤ max_chars

  slices-Fits : (fuel : ℕ) (word : Text) → All Fits (slices fuel max_chars word)
  unfolding slices
  slices-Fits zero word = tt
  slices-Fits (suc fuel) word =
      ground (arith, slices-Fits fuel (drop max_chars word), length-take max_chars word)

  flush-Fits : (current : Text) → Fits current → All Fits (flush current)
  flush-Fits [] h = tt
  flush-Fits (c ∷ s) h = (h, tt)

  place_words-Fits :
      (current : Text) (words : List Text)
      → Fits current
      → All Fits (place_words max_chars current words)
  unfolding place_words
  place_words-Fits current [] h = flush-Fits current h
  place_words-Fits current (word ∷ words) h = ground (
    arith,
    All-append Fits (flush current)
        (slices (length word) max_chars word ++ place_words max_chars [] words)
        (flush-Fits current h)
        (All-append Fits (slices (length word) max_chars word) (place_words max_chars [] words)
          (slices-Fits (length word) word) (place_words-Fits [] words (omega arith))),
    place_words-Fits (join_word current word) words,
    place_words-Fits word words,
  )

  segment_lines-Fits : (segment : Text) → All Fits (segment_lines max_chars segment)
  unfolding segment_lines
  segment_lines-Fits segment = ground (arith, place_words-Fits [] (words_of segment) (omega arith))

  all_segments-Fits : (segments : List Text) → All Fits (all_segments max_chars segments)
  unfolding all_segments
  all_segments-Fits [] = tt
  all_segments-Fits (segment ∷ segments) =
      All-append Fits (segment_lines max_chars segment) (all_segments max_chars segments)
        (segment_lines-Fits segment) (all_segments-Fits segments)

  shorten-Fits : (line : Text) → 2 ≤ max_chars → Fits (shorten max_chars line)
  unfolding shorten
  shorten-Fits line h = ground (
    arith,
    length-append (take (max 1 (max_chars - 1)) line) (0x2026 ∷ []),
    length-append line (0x2026 ∷ []),
    length-take (max 1 (max_chars - 1)) line,
  )

  shorten_last-Fits :
      (lines : List Text) → 2 ≤ max_chars → All Fits lines → All Fits (shorten_last max_chars lines)
  unfolding shorten_last
  shorten_last-Fits [] h k = tt
  shorten_last-Fits (line ∷ []) h k = (shorten-Fits line h, tt)
  shorten_last-Fits (line ∷ next ∷ lines) h (k, ks) = (k, shorten_last-Fits (next ∷ lines) h ks)

  length-shorten_last : (lines : List Text) → length (shorten_last max_chars lines) ≡ length lines
  unfolding shorten_last
  length-shorten_last [] = refl
  length-shorten_last (line ∷ []) = refl
  length-shorten_last (line ∷ next ∷ lines) = omega (arith, length-shorten_last (next ∷ lines))

-- At two or more units to a line, `wrapText` returns at most `maxLines` lines, none of them longer
-- than `maxChars` units, also where words are cut and where an ellipsis is added.
pub wrap_text-fits :
    (text : Text) (max_chars max_lines : ℕ)
    → 2 ≤ max_chars
    → (length (wrap_text text max_chars max_lines) ≤ max_lines)
      × All (λ line. length line ≤ max_chars) (wrap_text text max_chars max_lines)
unfolding wrap_text unclamped_lines
wrap_text-fits text max_chars max_lines h =
    let lines = all_segments max_chars (split_lines [] (trim text)) in
    let fit = all_segments-Fits max_chars (split_lines [] (trim text)) in
    let kept = take max_lines lines in
    ground (
      arith,
      fit,
      length-shorten_last max_chars kept,
      length-take max_lines lines,
      shorten_last-Fits max_chars kept h (All-take (Fits max_chars) max_lines lines fit),
    )
