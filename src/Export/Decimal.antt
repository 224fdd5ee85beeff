-- ===== src/Export/Decimal.antt =====
-- The number that decimal digits stand for: what `String(n)` writes in web/src/lib/flow-export.ts and in
-- web/src/pages/Flow.tsx can be read again.
use mc_gantry.Base.{
  ℕ, zero, suc, ◌+◌, ◌-◌, ◌*◌, ◌/◌, ◌<◌, ◌≡◌, refl, sym, ap, ◌∙◌, inl, inr, leb, leb→le, [], ◌∷◌,
  ◌++◌, arith, Bool-cases, Text, digits_rev,
}
use mathlib.Core.List.{reverse, reverse-cons}
use mc_gantry.Export.Bytes.{decimal}

-- The number that some decimal digits stand for, behind a number.
unfoldable pub value_from : ℕ → Text → ℕ
value_from n [] = n
value_from n (c ∷ t) = value_from (n * 10 + (c - b'0')) t

unfoldable pub value_of : Text → ℕ
unfolding value_from
value_of t = value_from 0 t

value_from-append : (n : ℕ) (a b : Text) → value_from n (a ++ b) ≡ value_from (value_from n a) b
unfolding value_from
value_from-append n [] b = refl
value_from-append n (c ∷ a) b = value_from-append (n * 10 + (c - b'0')) a b

-- The number that digits stand for from the last to the first.
value_rev : Text → ℕ
value_rev [] = 0
value_rev (c ∷ t) = (c - b'0') + value_rev t * 10

value_of-reverse : (t : Text) → value_of (reverse t) ≡ value_rev t
unfolding value_of value_from value_rev
value_of-reverse [] = refl
value_of-reverse (c ∷ t) =
    ap value_of (reverse-cons c t)
    ∙ value_from-append 0 (reverse t) (c ∷ [])
    ∙ step (value_of (reverse t)) (value_of-reverse t)
  where
    step : (v : ℕ) → v ≡ value_rev t → v * 10 + (c - b'0') ≡ (c - b'0') + value_rev t * 10
    step v h = omega arith

value_rev-digits_rev : (fuel n : ℕ) → n < fuel → value_rev (digits_rev fuel n) ≡ n
unfolding value_rev digits_rev
value_rev-digits_rev zero n h = omega arith
value_rev-digits_rev (suc fuel) n h = elim (Bool-cases (leb 10 n)) [
  | inl e ↦ rw (e, value_rev-digits_rev fuel (n / 10) (omega (arith, leb→le 10 n e))) (omega arith)
  | inr e ↦ rw e (ground arith)
]

pub value_of-decimal : (n : ℕ) → value_of (decimal n) ≡ n
unfolding decimal
value_of-decimal n =
    value_of-reverse (digits_rev (suc n) n) ∙ value_rev-digits_rev (suc n) n (omega arith)

pub decimal-injective : (m n : ℕ) → decimal m ≡ decimal n → m ≡ n
decimal-injective m n e = sym (value_of-decimal m) ∙ ap value_of e ∙ value_of-decimal n
