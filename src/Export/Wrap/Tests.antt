-- ===== src/Export/Wrap/Tests.antt =====
-- `wrapText` at concrete inputs.
use mc_gantry.Base.{◌≡◌, refl, ◌≤◌, [], ◌∷◌, codes, length, All, arith, ◌++◌, trim}
use mc_gantry.Export.Wrap.{wrap_text, unclamped_lines}
use mc_gantry.Export.Wrap.Bounds.{wrap_text-fits}
use mc_gantry.Export.Wrap.Content.{ink, ink_all, wrap_text-keeps}

wrap_tests :
    (wrap_text (codes " the quick  brown fox ") 9 4 ≡ codes "the quick" ∷ codes "brown fox" ∷ [])
    × (wrap_text (codes "a abcdefgh b") 3 4
        ≡ codes "a" ∷ codes "abc" ∷ codes "def" ∷ (codes "gh" ++ 0x2026 ∷ []) ∷ [])
    × (wrap_text (codes "ab cd") 2 1 ≡ (codes "a" ++ 0x2026 ∷ []) ∷ [])
unfolding wrap_text
wrap_tests = (refl, refl, refl)

wrap_text-fits_example :
    (length (wrap_text (codes "ab cd") 2 1) ≤ 1)
    × All (λ line. length line ≤ 2) (wrap_text (codes "ab cd") 2 1)
wrap_text-fits_example = wrap_text-fits (codes "ab cd") 2 1 (omega arith)

two_lines : length (unclamped_lines (trim (codes "ab cd")) 2) ≡ 2
unfolding unclamped_lines trim
two_lines = refl

wrap_text-keeps_example : ink_all (wrap_text (codes "ab cd") 2 2) ≡ ink (codes "ab cd")
wrap_text-keeps_example =
    wrap_text-keeps (codes "ab cd") 2 2 (omega arith) (rw two_lines (omega arith))
