-- ===== src/Utils/Path/Segments.antt =====
-- The path of an entity has the segments that it is made of: web/src/lib/utils.ts.
use mc_gantry.Base.{
  ℕ, ◌≡◌, refl, sym, ap, ◌∙◌, inl, inr, true, false, ◌&&◌, not, ◌==◌, List, [], ◌∷◌, ◌++◌, Option,
  none, some, if◌then◌else◌, Text, text_eq, codes, All, All-append, Bool-cases, arith, append_assoc,
  append-nil,
}
use mc_gantry.Utils.Path.{
  is_extra, percent, escape_extra, encode_path_segment, namespace_suffix, catalog_entity_path,
}

-- No slash, no question mark and no number sign.
abbrev pub IsInSegment : ℕ → Type 0
IsInSegment c = (not (c == 47) && not (c == 63) && not (c == 35)) ≡ true

-- The segments of a path up to its query; the first is the open one.
unfoldable pub segments : Text → Text → List Text
segments part [] = part ∷ []
segments part (c ∷ s) =
    let next = part ∷ segments [] s in
    let longer = segments (part ++ c ∷ []) s in
    if c == 63 then part ∷ [] else if c == 47 then next else longer

pub segments_through :
    (part s rest : Text) → All IsInSegment s → segments part (s ++ rest) ≡ segments (part ++ s) rest
unfolding segments
segments_through part [] rest h = ap (λ p. segments p rest) (sym (append-nil part))
segments_through part (c ∷ s) rest (h, hs) =
    let later = segments_through (part ++ c ∷ []) s rest hs in
    rw (no_query c h, no_slash c h)
      (later ∙ ap (λ p. segments p rest) (append_assoc part (c ∷ []) s))
  where
    no_query : (c : ℕ) → IsInSegment c → (c == 63) ≡ false
    no_query c h = ground arith

    no_slash : (c : ℕ) → IsInSegment c → (c == 47) ≡ false
    no_slash c h = ground arith

percent-IsInSegment : (c : ℕ) → is_extra c ≡ true → All IsInSegment (percent c)
unfolding is_extra
percent-IsInSegment c h = ground arith

escape_extra-IsInSegment : (s : Text) → All IsInSegment s → All IsInSegment (escape_extra s)
unfolding escape_extra
escape_extra-IsInSegment [] h = tt
escape_extra-IsInSegment (c ∷ s) (h, hs) = elim (Bool-cases (is_extra c)) [
  | inl e ↦ rw e (
      All-append IsInSegment (percent c) _ (percent-IsInSegment c e)
        (escape_extra-IsInSegment s hs))
  | inr e ↦ rw e (h, escape_extra-IsInSegment s hs)
]

-- A slash ends the open segment.
pub segments-slash : (part s : Text) → segments part (codes "/" ++ s) ≡ part ∷ segments [] s
unfolding segments
segments-slash part s = refl

catalog-IsInSegment : All IsInSegment (codes "catalog")
catalog-IsInSegment = (refl, (refl, (refl, (refl, (refl, (refl, (refl, tt)))))))

module _ (encode : Text → Text) (encode-IsInSegment : (s : Text) → All IsInSegment (encode s)) where
  pub segments-namespace_suffix :
      (part : Text) (namespace : Option Text)
      → segments part (namespace_suffix encode namespace) ≡ part ∷ []
  unfolding segments
  segments-namespace_suffix part none = refl
  segments-namespace_suffix part (some []) = refl
  segments-namespace_suffix part (some (c ∷ s)) =
      elim (Bool-cases (text_eq (c ∷ s) (codes "default"))) [
        | inl e ↦ rw (e, namespace_suffix) refl
        | inr e ↦ rw (e, namespace_suffix) refl
      ]

  pub encoded-IsInSegment : (value : Text) → All IsInSegment (encode_path_segment encode value)
  unfolding encode_path_segment
  encoded-IsInSegment value = escape_extra-IsInSegment (encode value) (encode-IsInSegment value)

  -- The path of an entity has four segments: the empty one before the first slash, `catalog`, and
  -- the encoded kind and name, whatever these and the namespace are, if `encodeURIComponent` leaves
  -- no slash, question mark or number sign.
  pub segments-catalog_entity_path :
      (kind name : Text) (namespace : Option Text)
      → segments [] (catalog_entity_path encode kind name namespace)
        ≡ []
          ∷ codes "catalog"
          ∷ encode_path_segment encode kind
          ∷ encode_path_segment encode name
          ∷ []
  unfolding catalog_entity_path
  segments-catalog_entity_path kind name namespace =
      let k = encode_path_segment encode kind in
      let n = encode_path_segment encode name in
      let suffix = namespace_suffix encode namespace in
      let rest = k ++ (codes "/" ++ (n ++ suffix)) in
      let named : segments [] (n ++ suffix) ≡ n ∷ [] =
        segments_through [] n suffix (encoded-IsInSegment name)
        ∙ segments-namespace_suffix n namespace in
      let kinded : segments [] rest ≡ k ∷ n ∷ [] =
        segments_through [] k (codes "/" ++ (n ++ suffix)) (encoded-IsInSegment kind)
        ∙ segments-slash k (n ++ suffix)
        ∙ ap (◌∷◌ k) named in
      segments-slash [] (codes "catalog" ++ (codes "/" ++ rest))
      ∙ ap (◌∷◌ []) (
          segments_through [] (codes "catalog") (codes "/" ++ rest) catalog-IsInSegment
          ∙ segments-slash (codes "catalog") rest
          ∙ ap (◌∷◌ (codes "catalog")) kinded)
