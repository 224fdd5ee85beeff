-- ===== src/Export/Pdf/Offsets.antt =====
-- Every offset that a document states is right: `buildPdfFromJpeg` of web/src/lib/flow-export.ts.
use mc_gantry.Base.{
  ℕ, suc, ◌+◌, ◌≡◌, refl, sym, ap, subst, ◌∙◌, List, [], ◌∷◌, ◌++◌, append_assoc, append-nil, arith,
  length, length-append, Text, codes, map, ap₂,
}
use mc_gantry.Export.Bytes.{Bytes, decimal, joined, joined-append, concat_bytes-eq-joined}
use mc_gantry.Export.Pdf.Reading.{table_lines, ending, value_of-pad_start}
use mc_gantry.Export.Decimal.{value_of, value_of-decimal}
use mc_gantry.Export.Pdf.{
  newline, pad_start, xref_entry, xref_entries, Body, object_prefix, object_suffix, add_object,
  add_objects, header, body_of, closing, document_of, pdf_objects, build_pdf_from_jpeg,
}

-- The bytes of an object with its number.
abbrev pub object_bytes : ℕ → Bytes → Bytes
object_bytes number object = decimal number ++ (codes " 0 obj\n" ++ (object ++ codes "\nendobj\n"))

-- `part` stands in `whole`, `offset` bytes from the start.
abbrev pub StandsAt : Bytes → Bytes → ℕ → Type 0
StandsAt whole part offset =
    (before : Bytes) × (after : Bytes) × (whole ≡ before ++ (part ++ after))
    × (length before ≡ offset)

-- The objects, numbered on from `index`, stand at the offsets.
abbrev pub AllStandAt : Bytes → ℕ → List Bytes → List ℕ → Type 0
AllStandAt whole index [] [] = Unit
AllStandAt whole index [] (offset ∷ offsets) = ⊥
AllStandAt whole index (object ∷ objects) [] = ⊥
AllStandAt whole index (object ∷ objects) (offset ∷ offsets) =
    StandsAt whole (object_bytes (suc index) object) offset
    × AllStandAt whole (suc index) objects offsets

-- What `add_objects` puts behind what is there.
new_bytes : ℕ → List Bytes → Bytes
new_bytes index [] = []
new_bytes index (object ∷ objects) =
    object_bytes (suc index) object ++ new_bytes (suc index) objects

abbrev size_of : ℕ → Bytes → ℕ
size_of number object = length (object_prefix number) + length object + length object_suffix

new_offsets : ℕ → ℕ → List Bytes → List ℕ
new_offsets index offset [] = []
new_offsets index offset (object ∷ objects) =
    offset ∷ new_offsets (suc index) (offset + size_of (suc index) object) objects

length-object_bytes :
    (number : ℕ) (object : Bytes) → length (object_bytes number object) ≡ size_of number object
length-object_bytes number object = omega (
  arith,
  length-append (decimal number) (codes " 0 obj\n"),
  length-append (decimal number) (codes " 0 obj\n" ++ (object ++ object_suffix)),
  length-append object object_suffix,
)

joined-object :
    (number : ℕ) (object : Bytes)
    → joined (object_prefix number ∷ object ∷ object_suffix ∷ []) ≡ object_bytes number object
unfolding joined
joined-object number object =
    ap (λ b. object_prefix number ++ (object ++ b)) (append-nil object_suffix)
    ∙ append_assoc (decimal number) (codes " 0 obj\n") (object ++ object_suffix)

add_objects-chunks :
    (index : ℕ) (objects : List Bytes) (s : Body)
    → joined (add_objects index objects s).chunks ≡ joined s.chunks ++ new_bytes index objects
unfolding add_objects new_bytes
add_objects-chunks index [] s = sym (append-nil _)
add_objects-chunks index (object ∷ objects) s =
    add_objects-chunks (suc index) objects (add_object index object s)
    ∙ ap (λ b. b ++ new_bytes (suc index) objects)
        (joined-append s.chunks _ ∙ ap (◌++◌ (joined s.chunks)) (joined-object (suc index) object))
    ∙ append_assoc (joined s.chunks) (object_bytes (suc index) object) _

add_objects-offsets :
    (index : ℕ) (objects : List Bytes) (s : Body)
    → (add_objects index objects s).offsets ≡ s.offsets ++ new_offsets index s.offset objects
unfolding add_objects new_offsets
add_objects-offsets index [] s = sym (append-nil _)
add_objects-offsets index (object ∷ objects) s =
    add_objects-offsets (suc index) objects (add_object index object s)
    ∙ append_assoc s.offsets (s.offset ∷ []) _

add_objects-offset :
    (index : ℕ) (objects : List Bytes) (s : Body)
    → length (joined s.chunks) ≡ s.offset
    → length (joined (add_objects index objects s).chunks) ≡ (add_objects index objects s).offset
unfolding add_objects
add_objects-offset index [] s h = h
add_objects-offset index (object ∷ objects) s h =
    add_objects-offset (suc index) objects (add_object index object s) (
      ap length
        (joined-append s.chunks _ ∙ ap (◌++◌ (joined s.chunks)) (joined-object (suc index) object))
      ∙ length-append (joined s.chunks) (object_bytes (suc index) object)
      ∙ omega (arith, length-object_bytes (suc index) object))

new_bytes-AllStandAt :
    (whole front after : Bytes) (index offset : ℕ) (objects : List Bytes)
    → whole ≡ front ++ (new_bytes index objects ++ after)
    → length front ≡ offset
    → AllStandAt whole index objects (new_offsets index offset objects)
unfolding new_bytes new_offsets
new_bytes-AllStandAt whole front after index offset [] e h = tt
new_bytes-AllStandAt whole front after index offset (object ∷ objects) e h =
    let this = object_bytes (suc index) object in
    let rest = new_bytes (suc index) objects in
    let split : whole ≡ front ++ (this ++ (rest ++ after)) =
      e ∙ ap (◌++◌ front) (append_assoc this rest after) in
    (
      (front, rest ++ after, split, h),
      new_bytes-AllStandAt whole (front ++ this) after (suc index)
          (offset + size_of (suc index) object) objects
          (split ∙ sym (append_assoc front this (rest ++ after)))
          (omega (arith, length-append front this, length-object_bytes (suc index) object)),
    )

document_of-split :
    (objects : List Bytes)
    → document_of objects
      ≡ header
        ++ (new_bytes 0 objects
            ++ closing (length objects) (body_of objects).offsets (body_of objects).offset)
unfolding document_of body_of
document_of-split objects =
    let start : Body = record { chunks = header ∷ []; offsets = []; offset = length header } in
    let body = add_objects 0 objects start in
    let end = closing (length objects) body.offsets body.offset in
    let first : joined (header ∷ []) ≡ header = unfold joined in append-nil header in
    let last : joined (end ∷ []) ≡ end = unfold joined in append-nil end in
    concat_bytes-eq-joined (body.chunks ++ end ∷ [])
    ∙ joined-append body.chunks (end ∷ [])
    ∙ ap (λ b. b ++ joined (end ∷ []))
        (add_objects-chunks 0 objects start ∙ ap (λ b. b ++ new_bytes 0 objects) first)
    ∙ ap (◌++◌ (header ++ new_bytes 0 objects)) last
    ∙ append_assoc header (new_bytes 0 objects) end

body_of-offsets :
    (objects : List Bytes) → (body_of objects).offsets ≡ new_offsets 0 (length header) objects
unfolding body_of
body_of-offsets objects = add_objects-offsets 0 objects _

body_of-offset :
    (objects : List Bytes) → length (header ++ new_bytes 0 objects) ≡ (body_of objects).offset
unfolding body_of
body_of-offset objects =
    let start : Body = record { chunks = header ∷ []; offsets = []; offset = length header } in
    let first : joined start.chunks ≡ header = unfold joined in append-nil header in
    ap length (sym (add_objects-chunks 0 objects start ∙ ap (λ b. b ++ new_bytes 0 objects) first))
    ∙ add_objects-offset 0 objects start (ap length first)

document_of-StandsAt :
    (objects : List Bytes) → AllStandAt (document_of objects) 0 objects (body_of objects).offsets
document_of-StandsAt objects =
    let end = closing (length objects) (body_of objects).offsets (body_of objects).offset in
    subst (AllStandAt (document_of objects) 0 objects) (sym (body_of-offsets objects)) (
      new_bytes-AllStandAt (document_of objects) header end 0 (length header) objects
        (document_of-split objects) refl)

-- The texts of the numbers that `closing` writes, in ten digits or more.
abbrev ten_digits : ℕ → Text
ten_digits offset = pad_start 10 (decimal offset)

xref_entries-table_lines :
    (offsets : List ℕ) → xref_entries offsets ≡ table_lines (map ten_digits offsets)
unfolding xref_entries table_lines
xref_entries-table_lines [] = refl
xref_entries-table_lines (offset ∷ offsets) =
    ap (λ t. newline ++ (xref_entry offset ++ t)) (xref_entries-table_lines offsets)

closing-ending :
    (offsets : List ℕ) (xref_offset : ℕ)
    → closing 5 offsets xref_offset ≡ ending (map ten_digits offsets) (decimal xref_offset)
unfolding closing decimal
closing-ending offsets xref_offset = rw (xref_entries-table_lines offsets) refl

values_of-ten_digits : (offsets : List ℕ) → map value_of (map ten_digits offsets) ≡ offsets
values_of-ten_digits [] = refl
values_of-ten_digits (offset ∷ offsets) =
    ap₂ ◌∷◌ (value_of-ten_digits offset) (values_of-ten_digits offsets)
  where
    value_of-ten_digits : (offset : ℕ) → value_of (ten_digits offset) ≡ offset
    value_of-ten_digits offset = value_of-pad_start 10 (decimal offset) ∙ value_of-decimal offset

-- A PDF of five objects that a reader can find its way in: it ends with a table and the place where
-- the table starts, and the numbers that are read there are where the table and the objects stand.
abbrev pub IsReadable : List Bytes → Bytes → Type 0
IsReadable objects pdf =
    (entries : List Text) × (start : Text) × (before : Bytes) × (pdf
      ≡ before ++ ending entries start)
    × (value_of start ≡ length before)
    × AllStandAt pdf 0 objects (map value_of entries)

document_of-IsReadable :
    (objects : List Bytes) → length objects ≡ 5 → IsReadable objects (document_of objects)
document_of-IsReadable objects five =
    let body = body_of objects in
    let before = header ++ new_bytes 0 objects in
    (
      map ten_digits body.offsets,
      decimal body.offset,
      before,
      document_of-split objects
          ∙ sym (append_assoc header (new_bytes 0 objects) _)
          ∙ ap (λ n. before ++ closing n body.offsets body.offset) five
          ∙ ap (◌++◌ before) (closing-ending body.offsets body.offset),
      value_of-decimal body.offset ∙ sym (body_of-offset objects),
      subst (AllStandAt (document_of objects) 0 objects) (sym (values_of-ten_digits body.offsets))
          (document_of-StandsAt objects),
    )

-- The PDF of an image ends with a table of the places of its five objects and, behind `startxref`, the
-- place of the table. Each number that is read there in decimal is right: it is how many bytes stand
-- before the table, or before the object with its number in front, whatever the image and however
-- numbers with fractions are computed and written.
pub build_pdf_from_jpeg-offsets :
    {Number : Type 0} (of_ℕ : ℕ → Number)
    (subtract multiply divide minimum : Number → Number → Number) (format : Number → Text)
    (jpeg_bytes : Bytes) (width height : ℕ)
    → IsReadable
        (pdf_objects of_ℕ subtract multiply divide minimum format jpeg_bytes width height)
        (build_pdf_from_jpeg of_ℕ subtract multiply divide minimum format jpeg_bytes width height)
build_pdf_from_jpeg-offsets of_ℕ subtract multiply divide minimum format jpeg_bytes width height =
    let objects =
      pdf_objects of_ℕ subtract multiply divide minimum format jpeg_bytes width height in
    let five : length objects ≡ 5 = unfold pdf_objects in refl in
    unfold build_pdf_from_jpeg in document_of-IsReadable objects five
