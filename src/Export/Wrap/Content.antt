-- ===== src/Export/Wrap/Content.antt =====
-- What a wrapped text says: web/src/lib/flow-export.ts.
use mc_gantry.Base.{
  split_lines, ℕ, zero, suc, ◌≤◌, ◌≡◌, refl, sym, ap, ◌∙◌, true, not, List, [], ◌∷◌, ◌++◌,
  append_assoc, append-nil, arith, leb, ltb, if◌then◌else◌, Text, length, take, drop, is_empty,
  is_space, filter, trim, drop_start, drop_end, Bool-cases, List-cases, length-drop,
  take-append-drop, inl, inr,
}
use mc_gantry.Export.Wrap.{
  slices, flush, join_word, place_words, words_of, segment_lines, all_segments, split_spaces,
  unclamped_lines, wrap_text,
}

-- The units of a text that are not white space, and those of a list of texts.
pub ink : Text → Text
unfolding filter
ink = filter (λ c. not (is_space c))

pub ink_all : List Text → Text
ink_all [] = []
ink_all (s ∷ texts) = ink s ++ ink_all texts

ink-append : (s t : Text) → ink (s ++ t) ≡ ink s ++ ink t
unfolding ink
ink-append [] t = refl
ink-append (c ∷ s) t = ground (arith, ink-append s t)

ink_all-append : (xs ys : List Text) → ink_all (xs ++ ys) ≡ ink_all xs ++ ink_all ys
unfolding ink_all
ink_all-append [] ys = refl
ink_all-append (s ∷ xs) ys = rw (ink_all-append xs ys) (sym (append_assoc (ink s) _ _))

ink_all-cons : (s : Text) (texts : List Text) → ink_all (s ∷ texts) ≡ ink s ++ ink_all texts
unfolding ink_all
ink_all-cons s texts = refl

ink_all-slices :
    (fuel max_chars : ℕ) (word : Text)
    → length word ≤ fuel
    → 1 ≤ max_chars
    → ink_all (slices fuel max_chars word) ≡ ink word
unfolding slices ink_all
ink_all-slices zero max_chars [] h k = unfold ink in refl
ink_all-slices zero max_chars (c ∷ s) h k = absurd (omega arith)
ink_all-slices (suc fuel) max_chars [] h k = unfold ink in refl
ink_all-slices (suc fuel) max_chars (c ∷ s) h k =
    let shorter = length-drop max_chars (c ∷ s) in
    let parts = take-append-drop max_chars (c ∷ s) in
    rw (ink_all-slices fuel max_chars (drop max_chars (c ∷ s)) (omega arith) k)
      (sym (ink-append (take max_chars (c ∷ s)) (drop max_chars (c ∷ s))) ∙ ap ink parts)

ink_all-flush : (current : Text) → ink_all (flush current) ≡ ink current
unfolding ink_all
ink_all-flush [] = unfold ink in refl
ink_all-flush (c ∷ s) = append-nil _

ink-join_word : (current word : Text) → ink (join_word current word) ≡ ink current ++ ink word
ink-join_word [] word = unfold ink in refl
ink-join_word (c ∷ s) word =
    ink-append (c ∷ s) (b' ' ∷ word) ∙ ap (◌++◌ (ink (c ∷ s))) (unfold ink is_space in refl)

ink_all-place_words :
    (max_chars : ℕ)
    → 1 ≤ max_chars
    → (current : Text) (words : List Text)
    → ink_all (place_words max_chars current words) ≡ ink current ++ ink_all words
unfolding place_words
ink_all-place_words max_chars h current [] =
    ink_all-flush current ∙ sym (unfold ink_all in append-nil _)
ink_all-place_words max_chars h current (word ∷ words) =
    elim (Bool-cases (ltb max_chars (length word))) [
      | inl long ↦
          rw
            (
              long,
              ink_all-append,
              ink_all-append,
              ink_all-flush,
              ink_all-slices (length word) max_chars word (omega arith) h,
              ink_all-place_words max_chars h [] words,
            )
            (unfold ink ink_all in refl)
      | inr short ↦ elim (Bool-cases (leb (length (join_word current word)) max_chars)) [
        | inl fits ↦
            rw
              (
                short,
                fits,
                ink_all-place_words max_chars h (join_word current word) words,
                ink-join_word current word,
              )
              (append_assoc (ink current) (ink word) (ink_all words) ∙ unfold ink_all in refl)
        | inr full ↦
            rw (short, full)
              (ink_all-cons current (place_words max_chars word words)
                ∙ ap (◌++◌ (ink current))
                    (ink_all-place_words max_chars h word words ∙ sym (ink_all-cons word words)))
      ]
    ]

ink_all-filter :
    (texts : List Text) → ink_all (filter (λ w. not (is_empty w)) texts) ≡ ink_all texts
unfolding ink_all filter ink
ink_all-filter [] = refl
ink_all-filter ([] ∷ texts) = ink_all-filter texts
ink_all-filter ((c ∷ s) ∷ texts) = rw (ink_all-filter texts)

-- The two ways to split lose only white space.
ink-concat :
    (part : Text) (c : ℕ) (s : Text) → ink (part ++ c ∷ []) ++ ink s ≡ ink part ++ ink (c ∷ s)
ink-concat part c s = rw (ink-append part (c ∷ [])) (
    append_assoc (ink part) (ink (c ∷ [])) (ink s)
    ∙ ap (◌++◌ (ink part)) (sym (ink-append (c ∷ []) s)))

ink-space : (c : ℕ) (s : Text) → is_space c ≡ true → ink (c ∷ s) ≡ ink s
unfolding ink
ink-space c s h = rw h

ink_all-split_spaces : (part s : Text) → ink_all (split_spaces part s) ≡ ink part ++ ink s
unfolding split_spaces ink_all
ink_all-split_spaces part [] = unfold ink in refl
ink_all-split_spaces part (c ∷ s) = ground (
  arith,
  ink_all-split_spaces part s,
  ink_all-split_spaces [] s,
  ink_all-split_spaces (part ++ c ∷ []) s,
  ink-space c s,
  ink-concat part c s,
  nil,
)
  where
    nil : ink [] ≡ []
    nil = unfold ink in refl

line_end-space : (c : ℕ) → ((c ≡ 13) → is_space c ≡ true) × ((c ≡ 10) → is_space c ≡ true)
unfolding is_space
line_end-space c = (λ e. rw e refl, λ e. rw e refl)

ink_all-split_lines : (part s : Text) → ink_all (split_lines part s) ≡ ink part ++ ink s
unfolding split_lines ink_all
ink_all-split_lines part [] = unfold ink in refl
ink_all-split_lines part (c ∷ s) = ground (
  arith,
  ink_all-split_lines part s,
  ink_all-split_lines [] s,
  ink_all-split_lines (part ++ c ∷ []) s,
  ink-space c s,
  line_end-space c,
  ink-concat part c s,
  nil,
)
  where
    nil : ink [] ≡ []
    nil = unfold ink in refl

ink_all-words_of : (segment : Text) → ink_all (words_of segment) ≡ ink segment
unfolding words_of
ink_all-words_of segment =
    ink_all-filter (split_spaces [] segment) ∙ ink_all-split_spaces [] segment ∙ unfold ink in refl

ink_all-placed :
    (max_chars : ℕ)
    → 1 ≤ max_chars
    → (words : List Text)
    → ink_all (if is_empty words then [] ∷ [] else place_words max_chars [] words) ≡ ink_all words
ink_all-placed max_chars h [] = unfold ink_all ink in refl
ink_all-placed max_chars h (w ∷ words) =
    ink_all-place_words max_chars h [] (w ∷ words) ∙ unfold ink in refl

ink_all-segment_lines :
    (max_chars : ℕ)
    → 1 ≤ max_chars
    → (segment : Text) → ink_all (segment_lines max_chars segment) ≡ ink segment
unfolding segment_lines
ink_all-segment_lines max_chars h segment =
    ink_all-placed max_chars h (words_of segment) ∙ ink_all-words_of segment

ink_all-all_segments :
    (max_chars : ℕ)
    → 1 ≤ max_chars
    → (segments : List Text) → ink_all (all_segments max_chars segments) ≡ ink_all segments
unfolding all_segments
ink_all-all_segments max_chars h [] = refl
ink_all-all_segments max_chars h (segment ∷ segments) =
    ink_all-append (segment_lines max_chars segment) (all_segments max_chars segments)
    ∙ rw (ink_all-segment_lines max_chars h segment, ink_all-all_segments max_chars h segments)
        (unfold ink_all in refl)

ink-drop_start : (s : Text) → ink (drop_start is_space s) ≡ ink s
unfolding drop_start
ink-drop_start [] = refl
ink-drop_start (c ∷ s) = ground (arith, ink-drop_start s, ink-space c s)

ink-drop_end : (s : Text) → ink (drop_end is_space s) ≡ ink s
unfolding drop_end ink
ink-drop_end [] = refl
ink-drop_end (c ∷ s) = elim (List-cases (drop_end is_space s)) [
  | inl e ↦ ground (arith, ink-drop_end s)
  | inr (d, t, e) ↦ ground (arith, ink-drop_end s)
]

ink-trim : (s : Text) → ink (trim s) ≡ ink s
unfolding trim
ink-trim s = ink-drop_end (drop_start is_space s) ∙ ink-drop_start s

-- Where the lines need not be cut down to `maxLines`, they hold every unit of the text that is not
-- white space, in order and once.
pub wrap_text-keeps :
    (text : Text) (max_chars max_lines : ℕ)
    → 1 ≤ max_chars
    → length (unclamped_lines (trim text) max_chars) ≤ max_lines
    → ink_all (wrap_text text max_chars max_lines) ≡ ink text
unfolding wrap_text
wrap_text-keeps text max_chars max_lines h k = elim (List-cases (trim text)) [
  | inl e ↦ rw e (unfold ink_all in unfold ink in sym (ap ink e) ∙ ink-trim text)
  | inr (c, s, e) ↦ ground (arith, held)
]
  where
    held : ink_all (unclamped_lines (trim text) max_chars) ≡ ink text
    held =
        unfold unclamped_lines in
        ink_all-all_segments max_chars h (split_lines [] (trim text))
        ∙ ink_all-split_lines [] (trim text)
        ∙ unfold ink in ink-trim text
