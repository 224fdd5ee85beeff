-- ===== src/Editor/Page/Tests.antt =====
-- Drafts of concrete flows: web/src/pages/Flow.tsx.
use mc_gantry.Base.{
  ◌≡◌, text_eq, refl, true, false, List, [], ◌∷◌, none, some, codes, ascii_lower, trim,
}
use mc_gantry.Flow.Types.{FlowSpec}
use mc_gantry.Utils.Json.{Json, obj, end}
use mc_gantry.Export.FileName.{sanitize_flow_name}
use mc_gantry.Flow.Repair.{ensure_flow_spec}
use mc_gantry.Editor.State.{Editor, Entity, edit, default_flow_spec}
use mc_gantry.Editor.Draft.{Saving, save_flow, on_saved, on_loaded}
use mc_gantry.Editor.Page.{
  Event, loaded, start_new, choose, overview, save, save_failed, run_page, kept_by_server,
  on_saved-save_flow,
}
use mc_gantry.Editor.Samples.{lower, half, size_of, uuid, to_string, with_nodes, two_steps}

abbrev page : List Event → Editor → Editor
page = run_page lower to_string uuid (λ a b. true) half size_of

abbrev unsaved : Editor
unsaved = record (with_nodes true two_steps) { dirty = true }

abbrev stored : Entity
stored = record {
  kind = codes "Flow";
  metadata = record {
    name = codes "other";
    namespace = none;
    title = none;
    description = none;
    owner = none;
  };
  spec = obj end;
}

-- The user does not want to discard, and the name is refused.
abbrev careful : List Event
careful = choose false stored ∷ start_new false ∷ overview ∷ save ∷ save_failed (codes "taken") ∷ []

abbrev draft : Editor
draft = with_nodes true []

abbrev request : Saving
request = record {
  for_name = none;
  metadata = record {
    name = codes "pay";
    namespace = some (codes "default");
    title = some (codes "Payments");
    description = none;
    owner = none;
  };
  spec = default_flow_spec;
  namespace = codes "default";
}

draft_is_sent : (save_flow lower to_string uuid draft).1 ≡ some request
unfolding save_flow ascii_lower
draft_is_sent = refl

-- The draft is empty, and so is what the server keeps of it.
abbrev to_json : FlowSpec → Json
to_json spec = obj end

abbrev after_save : Editor
after_save =
    on_saved lower to_string uuid (λ a b. true) request
      (kept_by_server lower to_string uuid (λ a b. true) half size_of to_json request) unsaved

on_saved-save_flow_example :
    (after_save.flow_spec ≡ ensure_flow_spec to_string uuid (to_json default_flow_spec))
    × (after_save.flow_title_value ≡ trim (codes " Payments"))
    × (after_save.flow_description ≡ trim [])
    × (after_save.flow_owner ≡ trim [])
    × (after_save.current_namespace ≡ codes "default")
    × (after_save.current_flow_name ≡ some (sanitize_flow_name lower (trim (codes "Pay "))))
    × (after_save.dirty ≡ false)
    × (after_save.saving ≡ false)
on_saved-save_flow_example =
    on_saved-save_flow lower to_string uuid (λ a b. true) half size_of to_json draft request unsaved
      draft_is_sent

-- The page loads again for another flow in its address, and the changes are gone.
abbrev loaded_again : Editor
loaded_again =
    page
      (loaded (record {
        can_edit = true;
        editor_role = codes "developer";
        flow_entities = stored ∷ [];
        requested_flow = codes "other";
        requested_namespace = codes "default";
        requested_mode = edit;
      })
        ∷ [])
      unsaved

load_tests :
    (loaded_again.dirty ≡ false)
    × (loaded_again.flow_spec ≡ default_flow_spec)
    × (loaded_again.current_flow_name ≡ some (codes "other"))
unfolding run_page text_eq ensure_flow_spec on_loaded
load_tests = (refl, refl, refl)
