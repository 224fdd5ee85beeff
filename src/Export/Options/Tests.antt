-- ===== src/Export/Options/Tests.antt =====
-- Options of concrete exports.
use mc_gantry.Base.{◌≡◌, refl, ◌≢◌, [], none, some, Text, codes, trim}
use mc_gantry.Export.Options.{
  FlowExportOptions, pdf, png, clean, transparent, dark, normalize_export_options,
  get_document_background, get_document_background-pdf,
}

abbrev no_styles : Text → Text
no_styles name = []

abbrev see_through : FlowExportOptions
see_through = record { style = some clean; background = some transparent; theme = some dark }

abbrev nothing_set : FlowExportOptions
nothing_set = record { style = none; background = none; theme = none }

options_tests :
    (get_document_background (normalize_export_options no_styles see_through png) ≡ [])
    × (get_document_background (normalize_export_options no_styles see_through pdf)
        ≡ codes "#FFFFFF")
    × (get_document_background (normalize_export_options no_styles nothing_set pdf)
        ≡ codes "#F8FAFC")
unfolding normalize_export_options trim
options_tests = (refl, refl, refl)

get_document_background-pdf_example :
    get_document_background (normalize_export_options no_styles see_through pdf) ≢ []
get_document_background-pdf_example = get_document_background-pdf no_styles see_through
