-- ===== src/Editor/Resize/Bounds.antt =====
-- How large a resized node can get, and which of its edges stays: web/src/pages/Flow.tsx.
use mc_gantry.Base.{
  ◌≡◌, refl, sym, subst, inl, inr, Bool, true, false, ◌&&◌, List, [], ◌∷◌, ◌++◌, Option, none, some,
  Bool-cases, All, All-append, if◌then◌else◌, leb, arith, Text,
}
use mc_gantry.Base.Int.{ℤ, ◌+ℤ◌, ◌-ℤ◌, ◌≤ℤ◌}
use mc_gantry.Flow.Types.{FlowNode, node_id}
use mc_gantry.Flow.Dimensions.{Size}
use mc_gantry.Editor.Resize.{
  ResizeHandle, at_n, at_e, at_s, at_w, at_ne, at_se, at_sw, at_nw, drag_left, drag_right, drag_top,
  drag_bottom, Span, min_width, min_height, max_width, dragged, at_least, next_horizontal,
  next_vertical, Match, magnitude, consider, best, offers, all_offers, snapped, fits_width,
  fits_height, targets_x, targets_y, parent_position, get_resize_alignment, resized,
}
use mc_gantry.Editor.Resize.Anchors.{
  IsAnchored, plus_minus, end_at, end_before, IsAnchored-trans, IsAnchored-refl, limited-IsAnchored,
  next_horizontal-IsAnchored, within-at_least, within-at_most, still_at_least,
}

-- A span that keeps the other end and has a size that fits.
module _ (half : ℤ → ℤ) (fits : ℤ → Bool) (parent : ℤ) (low high : Bool) (span : Span)
    (one_end : (low && high) ≡ false) where
  abbrev span_of : Match → Span
  span_of m = record { start = m.start; size = m.size }

  abbrev IsGood : Match → Type 0
  IsGood m = (fits m.size ≡ true) × IsAnchored low span (span_of m)

  consider-All :
      (current guide start size : ℤ)
      → IsAnchored low span (record { start = start -ℤ parent; size = size })
      → All IsGood (consider fits parent current guide start size)
  consider-All current guide start size h =
      elim (Bool-cases (fits size && leb (magnitude (guide -ℤ current)) 10)) [
        | inl e ↦ rw e ((left (fits size) (leb (magnitude (guide -ℤ current)) 10) e, h), tt)
        | inr e ↦ rw e tt
      ]
    where
      left : (a b : Bool) → (a && b) ≡ true → a ≡ true
      left a b h = ground arith

  if-All :
      (b : Bool) (ms : List Match) → (b ≡ true → All IsGood ms) → All IsGood (if b then ms else [])
  if-All true ms h = h refl
  if-All false ms h = tt

  low-IsAnchored :
      (new : Span)
      → low ≡ true
      → new.start +ℤ new.size ≡ span.start +ℤ span.size
      → IsAnchored low span new
  low-IsAnchored new e h = subst (λ b. IsAnchored b span new) (sym e) h

  high-IsAnchored : (new : Span) → high ≡ true → new.start ≡ span.start → IsAnchored low span new
  high-IsAnchored new e h = subst (λ b. IsAnchored b span new) (sym (other low high one_end e)) h
    where
      other : (a b : Bool) → (a && b) ≡ false → b ≡ true → a ≡ false
      other a b h k = ground arith

  offers-All : (target : ℤ) → All IsGood (offers half fits parent low high span target)
  offers-All target =
      let x = parent +ℤ span.start in
      let end = x +ℤ span.size in
      let center = x +ℤ half span.size in
      let below = end -ℤ target in
      let above = target -ℤ x in
      All-append IsGood
        (if low
          then consider fits parent x target target below
            ++ consider fits parent center target (end -ℤ (below +ℤ below)) (below +ℤ below)
          else [])
        (if high
          then consider fits parent end target x above
            ++ consider fits parent center target x (above +ℤ above)
          else [])
        (if-All low _ (λ e.
          All-append IsGood (consider fits parent x target target below) _
            (consider-All x target target below
              (low-IsAnchored _ e (end_at parent span.start span.size target)))
            (consider-All center target (end -ℤ (below +ℤ below)) (below +ℤ below)
              (low-IsAnchored _ e (end_before parent span.start span.size (below +ℤ below))))))
        (if-All high _ (λ e.
          All-append IsGood (consider fits parent end target x above) _
            (consider-All end target x above (high-IsAnchored _ e (plus_minus parent span.start)))
            (consider-All center target x (above +ℤ above)
              (high-IsAnchored _ e (plus_minus parent span.start)))))

  all_offers-All :
      (targets : List ℤ) → All IsGood (all_offers half fits parent low high span targets)
  unfolding all_offers
  all_offers-All [] = tt
  all_offers-All (target ∷ targets) =
      All-append IsGood (offers half fits parent low high span target) _ (offers-All target)
        (all_offers-All targets)

  abbrev IsGoodIn : Option Match → Type 0
  IsGoodIn none = Unit
  IsGoodIn (some m) = IsGood m

  best-IsGoodIn : (ms : List Match) → All IsGood ms → IsGoodIn (best ms)
  unfolding best
  best-IsGoodIn [] h = tt
  best-IsGoodIn (m ∷ ms) (h, hs) = of_rest (best ms) (best-IsGoodIn ms hs)
    where
      either :
          (b : Bool) (other : Match) → IsGood other → IsGoodIn (if b then some m else some other)
      either true other k = h
      either false other k = k

      of_rest :
          (o : Option Match)
          → IsGoodIn o
          → IsGoodIn (elim o as (λ _. Option Match) [
            | none ↦ some m
            | some other ↦
                if leb (magnitude m.delta) (magnitude other.delta) then some m else some other
          ])
      of_rest none k = h
      of_rest (some other) k = either (leb (magnitude m.delta) (magnitude other.delta)) other k

  -- What is snapped to lines keeps the other end, and its size fits if the size of before does.
  snapped-IsAnchored :
      (targets : List ℤ)
      → fits span.size ≡ true
      → (fits (snapped half fits parent low high span targets).0.size ≡ true)
        × IsAnchored low span (snapped half fits parent low high span targets).0
  snapped-IsAnchored targets f =
      of_best (best (all_offers half fits parent low high span targets))
        (best-IsGoodIn (all_offers half fits parent low high span targets) (all_offers-All targets))
    where
      of_best :
          (o : Option Match)
          → IsGoodIn o
          → let x = elim o as (λ _. Span × Option ℤ) [
            | none ↦ (span, none)
            | some m ↦ (record { start = m.start; size = m.size }, some m.guide)
          ] in
            (fits x.0.size ≡ true) × IsAnchored low span x.0
      of_best none k = (f, IsAnchored-refl low span)
      of_best (some m) k = k

fits_width_iff : (z : ℤ) → min_width ≤ℤ z → z ≤ℤ max_width → fits_width z ≡ true
fits_width_iff z h k = ground arith

fits_width-bounds : (z : ℤ) → fits_width z ≡ true → (min_width ≤ℤ z) × (z ≤ℤ max_width)
fits_width-bounds z h = ground arith

fits_height_iff : (z : ℤ) → min_height ≤ℤ z → fits_height z ≡ true
fits_height_iff z h = ground arith

fits_height-bounds : (z : ℤ) → fits_height z ≡ true → min_height ≤ℤ z
fits_height-bounds z h = ground arith

left_or_right : (h : ResizeHandle) → (drag_left h && drag_right h) ≡ false
left_or_right at_n = refl
left_or_right at_e = refl
left_or_right at_s = refl
left_or_right at_w = refl
left_or_right at_ne = refl
left_or_right at_se = refl
left_or_right at_sw = refl
left_or_right at_nw = refl

top_or_bottom : (h : ResizeHandle) → (drag_top h && drag_bottom h) ≡ false
top_or_bottom at_n = refl
top_or_bottom at_e = refl
top_or_bottom at_s = refl
top_or_bottom at_w = refl
top_or_bottom at_ne = refl
top_or_bottom at_se = refl
top_or_bottom at_sw = refl
top_or_bottom at_nw = refl

-- However far the pointer moves, and whatever lines of other nodes are near, a resized node is between
-- 96 and 440 wide and at least 64 high, and the edge opposite to a dragged left or top one, or else the
-- left or the top one, stays in its place.
pub resized-IsAnchored :
    (half : ℤ → ℤ) (size_of : FlowNode → Size) (node : FlowNode) (h : ResizeHandle) (dx dy : ℤ)
    (x y : Span) (node_map : List (Text × FlowNode))
    → let after = resized half size_of node h dx dy x y node_map in
      (min_width ≤ℤ after.horizontal.size)
      × (after.horizontal.size ≤ℤ max_width)
      × (min_height ≤ℤ after.vertical.size)
      × IsAnchored (drag_left h) x after.horizontal
      × IsAnchored (drag_top h) y after.vertical
unfolding resized get_resize_alignment
resized-IsAnchored half size_of node h dx dy x y node_map =
    let parent = parent_position node_map node in
    let nx = next_horizontal h dx x in
    let ny = next_vertical h dy y in
    let left = drag_left h in
    let start = at_least left min_width x (dragged left (drag_right h) dx x) in
    let wide =
      fits_width_iff nx.size
        (still_at_least left min_width max_width x start (omega arith)
          (within-at_least left min_width x (dragged left (drag_right h) dx x)))
        (within-at_most left max_width x start) in
    let high =
      fits_height_iff ny.size
        (within-at_least (drag_top h) min_height y (dragged (drag_top h) (drag_bottom h) dy y)) in
    let (fx, ax) =
      snapped-IsAnchored half fits_width parent.x left (drag_right h) nx (left_or_right h)
        (targets_x half size_of (node_id node) node_map node_map) wide in
    let (fy, ay) =
      snapped-IsAnchored half fits_height parent.y (drag_top h) (drag_bottom h) ny (top_or_bottom h)
        (targets_y half size_of (node_id node) node_map node_map) high in
    let (least, most) = fits_width-bounds _ fx in
    (
      least,
      most,
      fits_height-bounds _ fy,
      IsAnchored-trans left x nx _ (next_horizontal-IsAnchored h dx x) ax,
      IsAnchored-trans (drag_top h) y ny _
          (limited-IsAnchored (drag_top h) (drag_bottom h) dy y min_height) ay,
    )
