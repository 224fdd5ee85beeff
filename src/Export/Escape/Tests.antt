-- ===== src/Export/Escape/Tests.antt =====
-- `escapeXml` at concrete inputs.
use mc_gantry.Base.{◌≡◌, refl, codes, All}
use mc_gantry.Export.Escape.{escape_xml, escape_xml-injective, escape_xml-IsPlain, IsPlain}

escape_tests :
    (escape_xml (codes "a<b & 'c'") ≡ codes "a&lt;b &amp; &apos;c&apos;")
    × (escape_xml (codes "&lt;") ≡ codes "&amp;lt;")
unfolding escape_xml
escape_tests = (refl, refl)

escape_xml-injective_example : codes "a&b" ≡ codes "a&b"
escape_xml-injective_example = escape_xml-injective (codes "a&b") (codes "a&b") refl

escape_xml-IsPlain_example : All IsPlain (escape_xml (codes "<a>"))
escape_xml-IsPlain_example = escape_xml-IsPlain (codes "<a>")
