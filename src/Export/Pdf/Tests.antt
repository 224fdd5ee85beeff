-- ===== src/Export/Pdf/Tests.antt =====
-- A small PDF.
use mc_gantry.Base.{ℕ, ◌+◌, ◌≡◌, refl, List, [], ◌∷◌, codes}
use mc_gantry.Export.Bytes.{Bytes, concat_bytes, joined, concat_bytes-eq-joined, decimal}
use mc_gantry.Export.Pdf.{pdf_objects, build_pdf_from_jpeg}
use mc_gantry.Export.Pdf.Offsets.{IsReadable, build_pdf_from_jpeg-offsets}

-- Whole numbers stand in for the source's arithmetic.
abbrev number : ℕ → ℕ
number n = n

abbrev plus : ℕ → ℕ → ℕ
plus a b = a + b

abbrev objects : List Bytes
objects = pdf_objects number plus plus plus plus decimal (255 ∷ 216 ∷ []) 2 3

decimal_tests : (decimal 0 ≡ codes "0") × (decimal 120 ≡ codes "120")
unfolding decimal
decimal_tests = (refl, refl)

concat_bytes_tests : concat_bytes ((1 ∷ 2 ∷ []) ∷ [] ∷ (3 ∷ []) ∷ []) ≡ 1 ∷ 2 ∷ 3 ∷ []
unfolding concat_bytes
concat_bytes_tests = refl

concat_bytes-eq-joined_example :
    concat_bytes ((1 ∷ 2 ∷ []) ∷ (3 ∷ []) ∷ []) ≡ joined ((1 ∷ 2 ∷ []) ∷ (3 ∷ []) ∷ [])
concat_bytes-eq-joined_example = concat_bytes-eq-joined ((1 ∷ 2 ∷ []) ∷ (3 ∷ []) ∷ [])

build_pdf_from_jpeg-offsets_example :
    IsReadable objects (build_pdf_from_jpeg number plus plus plus plus decimal (255 ∷ 216 ∷ []) 2 3)
build_pdf_from_jpeg-offsets_example =
    build_pdf_from_jpeg-offsets number plus plus plus plus decimal (255 ∷ 216 ∷ []) 2 3
