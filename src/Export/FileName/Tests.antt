-- ===== src/Export/FileName/Tests.antt =====
-- File names at concrete inputs.
use mc_gantry.Base.{◌≡◌, refl, ◌≢◌, [], map, Text, codes, ascii_lower}
use mc_gantry.Export.FileName.{
  sanitize_file_name, sanitize_flow_name, is_file_char, is_flow_char, IsSlug,
  sanitize_file_name-IsSlug, sanitize_flow_name-IsSlug,
}

abbrev lower : Text → Text
lower = map ascii_lower

file_name_tests :
    (sanitize_file_name lower (codes " Checkout  Flow_1 (EU)") ≡ codes "checkout-flow_1-eu")
    × (sanitize_file_name lower (codes "???") ≡ codes "flow")
    × (sanitize_flow_name lower (codes "Checkout_Flow ") ≡ codes "checkout-flow")
unfolding sanitize_file_name sanitize_flow_name ascii_lower
file_name_tests = (refl, refl, refl)

sanitize_file_name-IsSlug_example :
    (sanitize_file_name lower (codes "A  b") ≢ [])
    × IsSlug is_file_char (sanitize_file_name lower (codes "A  b"))
sanitize_file_name-IsSlug_example = sanitize_file_name-IsSlug lower (codes "A  b")

sanitize_flow_name-IsSlug_example : IsSlug is_flow_char (sanitize_flow_name lower (codes "A  b"))
sanitize_flow_name-IsSlug_example = sanitize_flow_name-IsSlug lower (codes "A  b")
