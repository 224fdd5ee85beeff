-- ===== src/Export/Escape.antt =====
-- `escapeXml` of web/src/lib/flow-export.ts.
mod Tests
use mc_gantry.Base.{
  ℕ, zero, suc, ◌≡◌, refl, sym, ap, ◌∙◌, ◌≢◌, Bool, true, false, [], ◌∷◌, ◌++◌, append_assoc, arith,
  ◌==◌, if◌then◌else◌, Text, codes, All, All-append, Bool-cases, replace_each, starts_with, ◌≡⟨◌⟩◌,
  ◌∎,
}

-- Five replacements in a row, `&` first.
unfoldable pub escape_xml : Text → Text
unfolding replace_each
escape_xml value =
    let amps = replace_each (λ c. c == b'&') (codes "&amp;") value in
    let lts = replace_each (λ c. c == b'<') (codes "&lt;") amps in
    let gts = replace_each (λ c. c == b'>') (codes "&gt;") lts in
    let quots = replace_each (λ c. c == 34) (codes "&quot;") gts in
    replace_each (λ c. c == 39) (codes "&apos;") quots

-- What one unit is to become.
abbrev entity : ℕ → Text
entity c =
    if c == b'&'
    then codes "&amp;"
    else if c == b'<'
    then codes "&lt;"
    else if c == b'>'
    then codes "&gt;"
    else if c == 34
    then codes "&quot;"
    else if c == 39
    then codes "&apos;"
    else c ∷ []

unfoldable pub escape_once : Text → Text
escape_once [] = []
escape_once (c ∷ s) = entity c ++ escape_once s

replace_each-append :
    (p : ℕ → Bool) (r s t : Text)
    → replace_each p r (s ++ t) ≡ replace_each p r s ++ replace_each p r t
unfolding replace_each
replace_each-append p r [] t = refl
replace_each-append p r (c ∷ s) t =
    rw (replace_each-append p r s t) (sym (append_assoc (if p c then r else c ∷ []) _ _))

escape_xml-append : (s t : Text) → escape_xml (s ++ t) ≡ escape_xml s ++ escape_xml t
escape_xml-append s t = unfold escape_xml in simp replace_each-append

escape_xml-unit : (c : ℕ) → escape_xml (c ∷ []) ≡ entity c
unfolding escape_xml
escape_xml-unit c = ground arith

-- The five passes amount to one pass that replaces each unit once: no entity that one pass writes
-- is changed by a later pass.
pub escape_xml-eq-escape_once : (s : Text) → escape_xml s ≡ escape_once s
unfolding escape_once
escape_xml-eq-escape_once [] = unfold escape_xml in refl
escape_xml-eq-escape_once (c ∷ s) =
    escape_xml (c ∷ s)
    ≡⟨ escape_xml-append (c ∷ []) s ⟩ escape_xml (c ∷ []) ++ escape_xml s
    ≡⟨ (rw (escape_xml-unit c, escape_xml-eq-escape_once s)) ⟩ entity c ++ escape_once s ∎

-- A unit that can stand in character data and in a quoted attribute value.
abbrev pub IsPlain : ℕ → Type 0
IsPlain c = (c ≢ b'<') × (c ≢ b'>') × (c ≢ 34) × (c ≢ 39)

escape_once-IsPlain : (s : Text) → All IsPlain (escape_once s)
unfolding escape_once
escape_once-IsPlain [] = tt
escape_once-IsPlain (c ∷ s) =
    All-append IsPlain (entity c) (escape_once s) (ground arith) (escape_once-IsPlain s)

-- The escaped text has no `<`, `>`, `"` or `'`, so it neither opens a tag nor ends an attribute.
pub escape_xml-IsPlain : (s : Text) → All IsPlain (escape_xml s)
escape_xml-IsPlain s = rw (escape_xml-eq-escape_once s) (escape_once-IsPlain s)

-- The reading of the five entities, as a way to get the text back. The number counts the units of
-- an entity that are still to be skipped.
unescape : ℕ → Text → Text
unfolding starts_with
unescape k [] = []
unescape (suc k) (c ∷ s) = unescape k s
unescape zero (c ∷ s) =
    let amp = b'&' ∷ unescape 4 s in
    let lt = b'<' ∷ unescape 3 s in
    let gt = b'>' ∷ unescape 3 s in
    let quot = 34 ∷ unescape 5 s in
    let apos = 39 ∷ unescape 5 s in
    let other = c ∷ unescape 0 s in
    if starts_with (c ∷ s) (codes "&amp;")
    then amp
    else if starts_with (c ∷ s) (codes "&lt;")
    then lt
    else if starts_with (c ∷ s) (codes "&gt;")
    then gt
    else if starts_with (c ∷ s) (codes "&quot;")
    then quot
    else if starts_with (c ∷ s) (codes "&apos;")
    then apos
    else other

unescape-escape_once : (s : Text) → unescape 0 (escape_once s) ≡ s
unfolding unescape escape_once
unescape-escape_once [] = refl
unescape-escape_once (c ∷ s) = ground (arith, unescape-escape_once s)

-- Escaping loses nothing: texts with the same escaped form are the same.
pub escape_xml-injective : (s t : Text) → escape_xml s ≡ escape_xml t → s ≡ t
escape_xml-injective s t e =
    sym (unescape-escape_once s)
    ∙ ap (unescape 0) (sym (escape_xml-eq-escape_once s) ∙ e ∙ escape_xml-eq-escape_once t)
    ∙ unescape-escape_once t
