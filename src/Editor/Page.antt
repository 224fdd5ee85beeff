-- ===== src/Editor/Page.antt =====
-- The editor and its drafts together, as events in any order, and what becomes of unsaved changes:
-- web/src/pages/Flow.tsx.
mod Tests
use mc_gantry.Base.{
  ℕ, ◌≡◌, refl, sym, ◌∙◌, ap, ◌≢◌, ⊎_elim, inl, inr, Bool, true, false, not, List, [], ◌∷◌, none,
  some, Bool-cases, Text, present, trim, is_empty, codes,
}
use mc_gantry.Utils.Json.{Json}
use mc_gantry.Export.FileName.{sanitize_flow_name}
use mc_gantry.Base.Int.{ℤ}
use mc_gantry.Flow.Types.{FlowNode, FlowSpec}
use mc_gantry.Flow.Dimensions.{Size}
use mc_gantry.Flow.Health.{namespace_or_default}
use mc_gantry.Flow.Repair.{ensure_flow_spec}
use mc_gantry.Editor.State.{Editor, Entity}
use mc_gantry.Editor.Actions.{Action, act}
use mc_gantry.Editor.Draft.{
  Meta, Saving, Deleting, start_new_flow, select_flow, open_editor, open_overview, leave_editor,
  Loaded, on_loaded, on_load_failed, duplicate_current_flow, set_meta, save_flow, on_saved,
  on_save_failed, delete_flow, on_deleted, on_delete_failed, load_flow, metadata_of, text_or_empty,
}

-- `Bool` is the answer to the question whether to discard the changes, or to delete.
pub data Event : Type 0 where
  user : Action → Event
  start_new duplicate_flow delete : Bool → Event
  choose : Bool → Entity → Event
  open_edit overview permission_check save : Event
  meta : Meta → Event
  saved : Saving → Entity → Event
  deleted : Deleting → Event
  loaded : Loaded → Event
  save_failed delete_failed load_failed : Text → Event

-- Whether a draft may be given up: after a question was answered with yes, after an answer of the server
-- to a save or a deletion, with the deletion of a draft that was never saved, or when the page has
-- loaded, which it does again, without a question, when the query of its address changes.
abbrev pub gives_up : Event → Bool
gives_up (start_new answer) = answer
gives_up (duplicate_flow answer) = answer
gives_up (delete answer) = true
gives_up (choose answer flow) = answer
gives_up (saved request flow) = true
gives_up (deleted request) = true
gives_up (loaded answer) = true
gives_up e = false

-- Whether the event is an action on the flow itself.
abbrev pub is_user : Event → Bool
is_user (user a) = true
is_user e = false

module _ (to_lower : Text → Text) (to_string : Json → Text) (uuid : ℕ → Text)
    (titles_le : Text → Text → Bool) (half : ℤ → ℤ) (size_of : FlowNode → Size) where
  unfoldable pub step : Event → Editor → Editor
  step (user a) s = act uuid to_string half size_of a s
  step (start_new answer) s = start_new_flow answer s
  step (duplicate_flow answer) s = duplicate_current_flow to_lower to_string uuid answer s
  step (delete answer) s = (delete_flow to_lower to_string uuid answer s).0
  step (choose answer flow) s = select_flow to_lower to_string uuid answer flow s
  step open_edit s = open_editor s
  step overview s = open_overview s
  step permission_check s = leave_editor s
  step save s = (save_flow to_lower to_string uuid s).0
  step (meta m) s = set_meta to_lower to_string uuid m s
  step (saved request flow) s = on_saved to_lower to_string uuid titles_le request flow s
  step (deleted request) s = on_deleted to_lower to_string uuid request s
  step (loaded answer) s = on_loaded to_lower to_string uuid titles_le answer s
  step (load_failed message) s = on_load_failed to_lower to_string uuid message s
  step (save_failed message) s = on_save_failed to_lower to_string uuid message s
  step (delete_failed message) s = on_delete_failed to_lower to_string uuid message s

  unfoldable pub run_page : List Event → Editor → Editor
  unfolding step
  run_page [] s = s
  run_page (e ∷ events) s = run_page events (step e s)

  -- The changes are still marked, and the flow is the same.
  abbrev IsHeld : Editor → Editor → Type 0
  IsHeld s t = (t.dirty ≡ true) × (t.flow_spec ≡ s.flow_spec)

  some-metadata : (a b : Saving) → some a ≡ some b → b.metadata ≡ a.metadata
  some-metadata a b e = ap (λ r. r.metadata) (sym (same a b e))
    where
      same : (a b : Saving) → some a ≡ some b → a ≡ b
      same a b e = cc

  request-metadata :
      (s : Editor) (request : Saving)
      → (save_flow to_lower to_string uuid s).1 ≡ some request
      → request.metadata
        ≡ metadata_of to_lower to_string uuid (sanitize_flow_name to_lower (trim s.flow_name)) s
  unfolding save_flow
  request-metadata s request h = elim (Bool-cases (not s.can_edit)) [
    | inl e ↦ absurd (nothing (rw e at h))
    | inr e ↦ elim (Bool-cases (is_empty (sanitize_flow_name to_lower (trim s.flow_name)))) [
      | inl e' ↦ absurd (nothing (rw (e, e') at h))
      | inr e' ↦ some-metadata _ request (rw (e, e') at h)
    ]
  ]
    where
      nothing : none ≢ some request
      nothing e = cc

  text_or_empty-present : (t : Text) → text_or_empty (present (some t)) ≡ t
  text_or_empty-present [] = refl
  text_or_empty-present (c ∷ t) = refl

  request-spec :
      (s : Editor) (request : Saving)
      → (save_flow to_lower to_string uuid s).1 ≡ some request
      → request.spec ≡ s.flow_spec
  unfolding save_flow
  request-spec s request h = elim (Bool-cases (not s.can_edit)) [
    | inl e ↦ absurd (nothing (rw e at h))
    | inr e ↦ elim (Bool-cases (is_empty (sanitize_flow_name to_lower (trim s.flow_name)))) [
      | inl e' ↦ absurd (nothing (rw (e, e') at h))
      | inr e' ↦ same _ request (rw (e, e') at h)
    ]
  ]
    where
      nothing : none ≢ some request
      nothing e = cc

      same : (a b : Saving) → some a ≡ some b → b.spec ≡ a.spec
      same a b e = cc

  -- The entity that a server returns that keeps what it was sent; `to_json` is what becomes of a flow
  -- that is sent as JSON.
  abbrev pub kept_by_server : (FlowSpec → Json) → Saving → Entity
  kept_by_server to_json request = record {
    kind = codes "Flow";
    metadata = request.metadata;
    spec = to_json request.spec;
  }

  -- A save that the server answers with what it was sent, while the user may do anything else, shows the
  -- flow that was there when it was sent, after its way through JSON and the repair, with its trimmed
  -- texts, and no unsaved changes.
  pub on_saved-save_flow :
      (to_json : FlowSpec → Json) (s : Editor) (request : Saving) (t : Editor)
      → (save_flow to_lower to_string uuid s).1 ≡ some request
      → let after =
          on_saved to_lower to_string uuid titles_le request (kept_by_server to_json request) t in
        (after.flow_spec ≡ ensure_flow_spec to_string uuid (to_json s.flow_spec))
        × (after.flow_title_value ≡ trim s.flow_title_value)
        × (after.flow_description ≡ trim s.flow_description)
        × (after.flow_owner ≡ trim s.flow_owner)
        × (after.current_namespace ≡ namespace_or_default (some s.current_namespace))
        × (after.current_flow_name ≡ some (sanitize_flow_name to_lower (trim s.flow_name)))
        × (after.dirty ≡ false)
        × (after.saving ≡ false)
  unfolding on_saved load_flow
  on_saved-save_flow to_json s request t h =
      let m = request-metadata s request h in
      (
        ap (λ spec. ensure_flow_spec to_string uuid (to_json spec)) (request-spec s request h),
        ap (λ m. text_or_empty m.title) m ∙ text_or_empty-present (trim s.flow_title_value),
        ap (λ m. text_or_empty m.description) m ∙ text_or_empty-present (trim s.flow_description),
        ap (λ m. text_or_empty m.owner) m ∙ text_or_empty-present (trim s.flow_owner),
        ap (λ m. namespace_or_default m.namespace) m,
        ap (λ m. some m.name) m,
        refl,
        refl,
      )
