-- ===== src/Editor/Resize/Anchors.antt =====
-- The end of a span that stays when the other end is dragged: web/src/pages/Flow.tsx.
use mc_gantry.Base.{◌≡◌, refl, ◌∙◌, inl, inr, Bool, true, false, Bool-cases, if◌then◌else◌, arith}
use mc_gantry.Base.Int.{ℤ, ◌+ℤ◌, ◌-ℤ◌, ◌≤ℤ◌, +ℤ_parts, -ℤ_parts, eq_of_parts}
use mc_gantry.Editor.Resize.{
  ResizeHandle, drag_left, drag_right, Span, min_width, max_width, is_less, dragged, cut_to,
  at_least, at_most, next_horizontal,
}

pub plus_minus : (p x : ℤ) → p +ℤ x -ℤ p ≡ x
plus_minus p x = eq_of_parts _ _ (omega (arith, +ℤ_parts p x, -ℤ_parts (p +ℤ x) p))

-- The end stays where a span starts at `t` and ends where the old one did.
pub end_at : (p x z t : ℤ) → (t -ℤ p) +ℤ (p +ℤ x +ℤ z -ℤ t) ≡ x +ℤ z
end_at p x z t = eq_of_parts _ _ (
    omega (
      arith,
      +ℤ_parts p x,
      +ℤ_parts (p +ℤ x) z,
      +ℤ_parts x z,
      -ℤ_parts t p,
      -ℤ_parts (p +ℤ x +ℤ z) t,
      +ℤ_parts (t -ℤ p) (p +ℤ x +ℤ z -ℤ t),
    ))

pub end_before : (p x z c : ℤ) → (p +ℤ x +ℤ z -ℤ c -ℤ p) +ℤ c ≡ x +ℤ z
end_before p x z c = eq_of_parts _ _ (
    omega (
      arith,
      +ℤ_parts p x,
      +ℤ_parts (p +ℤ x) z,
      +ℤ_parts x z,
      -ℤ_parts (p +ℤ x +ℤ z) c,
      -ℤ_parts (p +ℤ x +ℤ z -ℤ c) p,
      +ℤ_parts (p +ℤ x +ℤ z -ℤ c -ℤ p) c,
    ))

minus_plus : (x z l : ℤ) → (x +ℤ z -ℤ l) +ℤ l ≡ x +ℤ z
minus_plus x z l =
    eq_of_parts _ _ (omega (arith, +ℤ_parts x z, -ℤ_parts (x +ℤ z) l, +ℤ_parts (x +ℤ z -ℤ l) l))

moved_end : (x z d : ℤ) → (x +ℤ d) +ℤ (z -ℤ d) ≡ x +ℤ z
moved_end x z d =
    eq_of_parts _ _
      (omega (arith, +ℤ_parts x z, +ℤ_parts x d, -ℤ_parts z d, +ℤ_parts (x +ℤ d) (z -ℤ d)))

-- What a drag at one end leaves in place: the other end.
abbrev pub IsAnchored : Bool → Span → Span → Type 0
IsAnchored true old new = new.start +ℤ new.size ≡ old.start +ℤ old.size
IsAnchored false old new = new.start ≡ old.start

pub IsAnchored-trans :
    (low : Bool) (a b c : Span) → IsAnchored low a b → IsAnchored low b c → IsAnchored low a c
IsAnchored-trans true a b c h k = k ∙ h
IsAnchored-trans false a b c h k = k ∙ h

pub IsAnchored-refl : (low : Bool) (a : Span) → IsAnchored low a a
IsAnchored-refl true a = refl
IsAnchored-refl false a = refl

IsAnchored-if :
    (low b : Bool) (old x y : Span)
    → IsAnchored low old x
    → IsAnchored low old y
    → IsAnchored low old (if b then x else y)
IsAnchored-if low true old x y h k = h
IsAnchored-if low false old x y h k = k

dragged-IsAnchored :
    (low high : Bool) (d : ℤ) (old : Span) → IsAnchored low old (dragged low high d old)
dragged-IsAnchored true high d old = moved_end old.start old.size d
dragged-IsAnchored false true d old = refl
dragged-IsAnchored false false d old = refl

cut_to-IsAnchored :
    (low : Bool) (limit : ℤ) (old span : Span)
    → IsAnchored low old span
    → IsAnchored low old (cut_to low limit old span)
cut_to-IsAnchored true limit old span h = minus_plus old.start old.size limit
cut_to-IsAnchored false limit old span h = h

pub limited-IsAnchored :
    (low high : Bool) (d : ℤ) (old : Span) (limit : ℤ)
    → IsAnchored low old (at_least low limit old (dragged low high d old))
limited-IsAnchored low high d old limit =
    let h = dragged-IsAnchored low high d old in
    IsAnchored-if low (is_less (dragged low high d old).size limit) old _ _
      (cut_to-IsAnchored low limit old (dragged low high d old) h) h

pub next_horizontal-IsAnchored :
    (h : ResizeHandle) (dx : ℤ) (old : Span)
    → IsAnchored (drag_left h) old (next_horizontal h dx old)
next_horizontal-IsAnchored h dx old =
    let low = drag_left h in
    let span = at_least low min_width old (dragged low (drag_right h) dx old) in
    let k = limited-IsAnchored low (drag_right h) dx old min_width in
    IsAnchored-if low (is_less max_width span.size) old _ _
      (cut_to-IsAnchored low max_width old span k) k

-- A size within the limits, for a test that says so.
pub within-at_least :
    (low : Bool) (limit : ℤ) (old span : Span) → limit ≤ℤ (at_least low limit old span).size
within-at_least low limit old span = elim (Bool-cases (is_less span.size limit)) [
  | inl e ↦ rw e (omega arith)
  | inr e ↦ rw e (not_less span.size limit e)
]
  where
    not_less : (a b : ℤ) → is_less a b ≡ false → b ≤ℤ a
    not_less a b h = ground arith

not_less : (a b : ℤ) → is_less a b ≡ false → b ≤ℤ a
not_less a b h = ground arith

pub within-at_most :
    (low : Bool) (limit : ℤ) (old span : Span) → (at_most low limit old span).size ≤ℤ limit
within-at_most low limit old span = elim (Bool-cases (is_less limit span.size)) [
  | inl e ↦ rw e (omega arith)
  | inr e ↦ rw e (not_less limit span.size e)
]

pub still_at_least :
    (low : Bool) (least limit : ℤ) (old span : Span)
    → least ≤ℤ limit
    → least ≤ℤ span.size
    → least ≤ℤ (at_most low limit old span).size
still_at_least low least limit old span h k = elim (Bool-cases (is_less limit span.size)) [
  | inl e ↦ rw e h
  | inr e ↦ rw e k
]
