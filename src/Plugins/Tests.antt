-- ===== src/Plugins/Tests.antt =====
-- Plugins at concrete bundles. The code of a component is a number.
use mc_gantry.Base.{ℕ, ◌≡◌, refl, true, false, [], ◌∷◌, some, if◌then◌else◌, Text, text_eq, codes}
use mc_gantry.Plugins.{
  entity_panel, widget, own, inherited, missing, get_entity_panels, get_widget, no_plugins, Module,
  rejected, register, Response, plugins, load_plugins, add_entity_panel, add_widget, look_up,
}
use mc_gantry.Plugins.Log.{added}
use mc_gantry.Plugins.Loaded.{Shows, load_plugins-Shows}

abbrev import_module : Text → Module ℕ
import_module url =
    if text_eq url (codes "/a.js")
    then register (
        entity_panel (codes "Service") 1
        ∷ entity_panel (codes "constructor") 2
        ∷ entity_panel (codes "Service") 3
        ∷ [])
    else if text_eq url (codes "/b.js")
    then register
        (entity_panel (codes "Service") 4 ∷ widget (codes "w") 5 ∷ widget (codes "w") 6 ∷ [])
    else rejected

-- The first plugin throws, the second does not load, the third is not enabled.
abbrev response : Response
response = plugins (
    record { name = codes "a"; enabled = true; bundle_url = some (codes "/a.js") }
    ∷ record { name = codes "x"; enabled = true; bundle_url = some (codes "/x.js") }
    ∷ record { name = codes "c"; enabled = false; bundle_url = some (codes "/b.js") }
    ∷ record { name = codes "b"; enabled = true; bundle_url = some (codes "/b.js") }
    ∷ [])

plugin_tests :
    (get_entity_panels (codes "Service") (load_plugins import_module response no_plugins)
      ≡ own (1 ∷ 4 ∷ []))
    × (get_widget (codes "w") (load_plugins import_module response no_plugins) ≡ own 6)
    × (get_widget (codes "v") (load_plugins import_module response no_plugins) ≡ missing)
    × (get_widget (codes "toString") (load_plugins import_module response no_plugins) ≡ inherited)
unfolding load_plugins text_eq look_up add_entity_panel add_widget
plugin_tests = (refl, refl, refl, refl)

load_plugins-Shows_example :
    Shows (added import_module response) (load_plugins import_module response no_plugins)
load_plugins-Shows_example = load_plugins-Shows import_module response
