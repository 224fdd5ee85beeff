-- ===== src/Export/Pdf/Reading.antt =====
-- How a reader takes the places of the objects from the end of a PDF with five objects, as
-- web/src/lib/flow-export.ts writes it.
use mc_gantry.Base.{ℕ, zero, suc, ◌-◌, ◌≡◌, refl, List, [], ◌∷◌, ◌++◌, length, Text, codes}
use mc_gantry.Export.Bytes.{Bytes}
use mc_gantry.Export.Decimal.{value_from, value_of}
use mc_gantry.Export.Pdf.{zeros_before, pad_start}

-- The lines of the table, each behind a line break, for the texts of the places.
unfoldable pub table_lines : List Text → Text
table_lines [] = []
table_lines (digits ∷ entries) = 10 ∷ [] ++ ((digits ++ codes " 00000 n ") ++ table_lines entries)

-- The end of the document, from the table on.
abbrev pub ending : List Text → Text → Bytes
ending entries start =
    codes "xref\n0 6\n0000000000 65535 f "
    ++ (table_lines entries
        ++ (codes "\ntrailer\n<< /Size 6 /Root 1 0 R >>\nstartxref\n"
            ++ (start ++ codes "\n%%EOF")))

value_of-zeros : (k : ℕ) (t : Text) → value_of (zeros_before k ++ t) ≡ value_of t
unfolding value_of value_from zeros_before
value_of-zeros zero t = refl
value_of-zeros (suc k) t = value_of-zeros k t

pub value_of-pad_start : (width : ℕ) (t : Text) → value_of (pad_start width t) ≡ value_of t
unfolding pad_start
value_of-pad_start width t = value_of-zeros (width - length t) t
