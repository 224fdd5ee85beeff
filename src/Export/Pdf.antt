-- ===== src/Export/Pdf.antt =====
-- `buildPdfFromJpeg` of web/src/lib/flow-export.ts. The source's arithmetic on fractions and its
-- `formatPdfNumber` are parameters; all texts are ASCII, so `encodeAscii` leaves them as they are.
pub mod Offsets
pub mod Reading
mod Tests
use mc_gantry.Base.{
  ℕ, zero, suc, ◌+◌, ◌-◌, ◌*◌, Bool, true, false, List, [], ◌∷◌, ◌++◌, leb, max, if◌then◌else◌,
  length, Text, codes,
}
use mc_gantry.Export.Bytes.{Bytes, concat_bytes, decimal, joined}

pub record PageSize : Type 0 where
  pub width : ℕ
  pub height : ℕ

abbrev pub pdf_portrait : PageSize
pdf_portrait = record { width = 612; height = 792 }

abbrev pub pdf_landscape : PageSize
pdf_landscape = record { width = 792; height = 612 }

abbrev pub page_size : ℕ → ℕ → PageSize
page_size image_width image_height =
    if leb image_height image_width then pdf_landscape else pdf_portrait

abbrev pub newline : Text
newline = 10 ∷ []

-- The text of an object up to its body, and what follows the body.
abbrev pub object_prefix : ℕ → Bytes
object_prefix number = decimal number ++ (codes " 0 obj" ++ newline)

abbrev pub object_suffix : Bytes
object_suffix = newline ++ (codes "endobj" ++ newline)

-- `bodyChunks`, `offsets` without the 0 that the source puts in front, and `offset`.
pub record Body : Type 0 where
  pub chunks : List Bytes
  pub offsets : List ℕ
  pub offset : ℕ

-- One round of `forEach`; objects are numbered from 1.
abbrev pub add_object : ℕ → Bytes → Body → Body
add_object index object s = record {
  chunks = s.chunks ++ (object_prefix (suc index) ∷ object ∷ object_suffix ∷ []);
  offsets = s.offsets ++ s.offset ∷ [];
  offset = s.offset + (length (object_prefix (suc index)) + length object + length object_suffix);
}

unfoldable pub add_objects : ℕ → List Bytes → Body → Body
add_objects index [] s = s
add_objects index (object ∷ objects) s = add_objects (suc index) objects (add_object index object s)

abbrev pub header : Bytes
header = codes "%PDF-1.4" ++ newline

unfoldable pub body_of : List Bytes → Body
unfolding add_objects
body_of objects =
    add_objects 0 objects (record { chunks = header ∷ []; offsets = []; offset = length header })

-- `s.padStart(10, '0')`
unfoldable pub zeros_before : ℕ → Text
zeros_before zero = []
zeros_before (suc n) = b'0' ∷ zeros_before n

unfoldable pub pad_start : ℕ → Text → Text
unfolding zeros_before
pad_start width s = zeros_before (width - length s) ++ s

abbrev pub xref_entry : ℕ → Text
xref_entry offset = pad_start 10 (decimal offset) ++ codes " 00000 n "

-- The lines of the table after its first three, each behind a line break (`join('\n')`).
unfoldable pub xref_entries : List ℕ → Text
xref_entries [] = []
xref_entries (offset ∷ offsets) = newline ++ (xref_entry offset ++ xref_entries offsets)

-- The table of offsets and the trailer, for a number of objects.
unfoldable pub closing : ℕ → List ℕ → ℕ → Text
unfolding xref_entries
closing count offsets xref_offset =
    codes "xref"
    ++ (newline
        ++ (codes "0 "
            ++ (decimal (suc count)
                ++ (newline
                    ++ (codes "0000000000 65535 f "
                        ++ (xref_entries offsets
                            ++ (newline
                                ++ (codes "trailer"
                                    ++ (newline
                                        ++ (codes "<< /Size "
                                            ++ (decimal (suc count)
                                                ++ (codes " /Root 1 0 R >>"
                                                    ++ (newline
                                                        ++ (codes "startxref"
                                                            ++ (newline
                                                            ++ (decimal xref_offset
                                                            ++ (newline
                                                            ++ codes "%%EOF")))))))))))))))))

-- The document of some objects.
unfoldable pub document_of : List Bytes → Bytes
unfolding body_of closing concat_bytes
document_of objects =
    let body = body_of objects in
    concat_bytes (body.chunks ++ closing (length objects) body.offsets body.offset ∷ [])

module _ {Number : Type 0} (of_ℕ : ℕ → Number)
    (subtract multiply divide minimum : Number → Number → Number)
    (format_pdf_number : Number → Text) where
  abbrev page_text : PageSize → ℕ → ℕ → Text
  page_text page image_width image_height =
      let inner_width = subtract (of_ℕ page.width) (multiply (of_ℕ 24) (of_ℕ 2)) in
      let inner_height = subtract (of_ℕ page.height) (multiply (of_ℕ 24) (of_ℕ 2)) in
      let scale =
        minimum (divide inner_width (of_ℕ image_width)) (divide inner_height (of_ℕ image_height)) in
      let draw_width = multiply (of_ℕ image_width) scale in
      let draw_height = multiply (of_ℕ image_height) scale in
      let x = divide (subtract (of_ℕ page.width) draw_width) (of_ℕ 2) in
      let y = divide (subtract (of_ℕ page.height) draw_height) (of_ℕ 2) in
      codes "q"
      ++ (newline
          ++ (format_pdf_number draw_width
              ++ (codes " 0 0 "
                  ++ (format_pdf_number draw_height
                      ++ (codes " "
                          ++ (format_pdf_number x
                              ++ (codes " "
                                  ++ (format_pdf_number y
                                      ++ (codes " cm"
                                          ++ (newline
                                              ++ (codes "/Im0 Do"
                                                  ++ (newline ++ (codes "Q" ++ newline)))))))))))))

  abbrev page_object : PageSize → Text
  page_object page =
      codes "<< /Type /Page /Parent 2 0 R /MediaBox [0 0 "
      ++ (format_pdf_number (of_ℕ page.width)
          ++ (codes " "
              ++ (format_pdf_number (of_ℕ page.height)
                  ++ codes
                      "] /Resources << /XObject << /Im0 4 0 R >> /ProcSet [/PDF /ImageC] >> /Contents 5 0 R >>")))

  abbrev image_object : Bytes → ℕ → ℕ → Bytes
  image_object jpeg_bytes image_width image_height =
      codes "<< /Type /XObject /Subtype /Image /Width "
      ++ (decimal (max 1 image_width)
          ++ (codes " /Height "
              ++ (decimal (max 1 image_height)
                  ++ (codes
                        " /ColorSpace /DeviceRGB /BitsPerComponent 8 /Filter /DCTDecode /Length "
                      ++ (decimal (length jpeg_bytes)
                          ++ (codes " >>"
                              ++ (newline
                                  ++ (codes "stream"
                                      ++ (newline
                                          ++ (jpeg_bytes ++ (newline ++ codes "endstream")))))))))))

  abbrev content_object : Text → Bytes
  content_object content_stream =
      codes "<< /Length "
      ++ (decimal (length content_stream)
          ++ (codes " >>"
              ++ (newline
                  ++ (codes "stream" ++ (newline ++ (content_stream ++ codes "endstream"))))))

  unfoldable pub pdf_objects : Bytes → ℕ → ℕ → List Bytes
  pdf_objects jpeg_bytes image_width image_height =
      let page = page_size image_width image_height in
      codes "<< /Type /Catalog /Pages 2 0 R >>"
      ∷ codes "<< /Type /Pages /Kids [3 0 R] /Count 1 >>"
      ∷ page_object page
      ∷ image_object jpeg_bytes image_width image_height
      ∷ content_object (page_text page image_width image_height)
      ∷ []

  unfoldable pub build_pdf_from_jpeg : Bytes → ℕ → ℕ → Bytes
  unfolding pdf_objects document_of
  build_pdf_from_jpeg jpeg_bytes image_width image_height =
      document_of (pdf_objects jpeg_bytes image_width image_height)
