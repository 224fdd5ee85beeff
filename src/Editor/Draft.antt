-- ===== src/Editor/Draft.antt =====
-- The draft of a flow and where it comes from and goes to: `resetDraft`, `loadFlow`, `confirmDiscard`,
-- `startNewFlow`, `selectFlow`, `openEditor`, `openOverview`, `duplicateCurrentFlow`, `saveFlow` and
-- `deleteFlow` of web/src/pages/Flow.tsx. A save or a deletion is a request and, later, its answer.
-- `answer` is what `window.confirm` returns if it is asked; `titles_le a b` is `a.localeCompare(b) <= 0`.
use mc_gantry.Base.{
  ℕ, ◌+◌, Bool, true, false, ◌&&◌, not, List, [], ◌∷◌, ◌++◌, Option, none, some, map, filter,
  is_empty, length, if◌then◌else◌, Text, text_eq, codes, or_text, present, trim,
}
use mc_gantry.Utils.Json.{Json}
use mc_gantry.Utils.EntityName.{sanitize_entity_name_input}
use mc_gantry.Flow.Types.{FlowSpec}
use mc_gantry.Flow.Health.{namespace_or_default}
use mc_gantry.Flow.Repair.{ensure_flow_spec}
use mc_gantry.Flow.Copies.{next_duplicate_flow_name, clone_flow_spec_with_new_ids}
use mc_gantry.Export.FileName.{sanitize_flow_name}
use mc_gantry.Editor.State.{
  Editor, Entity, EntityMetadata, Mode, view, edit, find, fit, default_flow_spec, origin, no_guides,
  is_id,
}
use mc_gantry.Editor.Titles.{next_duplicate_flow_title}

abbrev pub text_or_empty : Option Text → Text
text_or_empty none = []
text_or_empty (some t) = t

-- What `resetDraft` and `loadFlow` clear alike.
abbrev pub cleared : Editor → Editor
cleared s = record s {
  selected_node_id = none;
  selected_node_ids = [];
  selected_edge_id = none;
  connect_from_id = none;
  nest_target = none;
  alignment_guides = no_guides;
  dirty = false;
  notice = [];
  error = [];
  zoom_mode = fit;
  pan_offset = origin;
}

unfoldable pub reset_draft : Editor → Editor
reset_draft s = record (cleared s) {
  current_flow_name = none;
  current_namespace = codes "default";
  flow_name = [];
  flow_title_value = [];
  flow_description = [];
  flow_owner = [];
  flow_spec = default_flow_spec;
}

-- `!dirty || window.confirm(…)`
abbrev pub confirm_discard : Bool → Editor → Bool
confirm_discard answer s = if s.dirty then answer else true

-- The message where the role does not suffice.
abbrev pub refused : Editor → Editor
refused s = record s {
  error = codes "Editing flows requires the " ++ (s.editor_role ++ codes " role or higher.");
}

unfoldable pub start_new_flow : Bool → Editor → Editor
unfolding reset_draft
start_new_flow answer s =
    if not s.can_edit
    then refused s
    else if confirm_discard answer s
    then record (reset_draft s) { mode = edit }
    else s

unfoldable pub open_editor : Editor → Editor
open_editor s = if s.can_edit then record s { mode = edit } else refused s

unfoldable pub open_overview : Editor → Editor
open_overview s = record s { mode = view; connect_from_id = none }

-- The effect that leaves the editing mode when the permission is gone.
unfoldable pub leave_editor : Editor → Editor
leave_editor s =
    if s.can_edit
    then s
    else elim s.mode [ view ↦ s | edit ↦ record s { mode = view; connect_from_id = none } ]

-- `setMeta` with what is typed into one of the fields of the panel.
pub data Meta : Type 0 where
  type_name type_title type_description type_owner : Text → Meta

-- What `saveFlow` sends, with the flow that it creates or updates.
pub record Saving : Type 0 where
  pub for_name : Option Text
  pub metadata : EntityMetadata
  pub spec : FlowSpec
  pub namespace : Text

-- What `deleteFlow` sends, and the flows that were there.
pub record Deleting : Type 0 where
  pub name : Text
  pub namespace : Text
  pub flows : List Entity

-- `flow.metadata.name === currentFlowName && (flow.metadata.namespace || 'default') === currentNamespace`
abbrev pub is_current : Option Text → Text → Entity → Bool
is_current current_flow_name current_namespace flow =
    is_id current_flow_name flow.metadata.name
    && text_eq (namespace_or_default flow.metadata.namespace) current_namespace

-- What the page has loaded, and what the query of its address asks for.
pub record Loaded : Type 0 where
  pub can_edit : Bool
  pub editor_role : Text
  pub flow_entities : List Entity
  pub requested_flow : Text
  pub requested_namespace : Text
  pub requested_mode : Mode

abbrev pub is_requested : Loaded → Entity → Bool
is_requested answer flow =
    text_eq flow.metadata.name answer.requested_flow
    && text_eq (namespace_or_default flow.metadata.namespace) answer.requested_namespace

abbrev pub other_flows : Option Text → Text → List Entity → List Entity
other_flows current_flow_name current_namespace flows =
    filter (λ flow. not (is_current current_flow_name current_namespace flow)) flows

-- `flow.metadata.title || flow.metadata.name`
abbrev pub flow_title : Entity → Text
flow_title flow = or_text (text_or_empty flow.metadata.title) flow.metadata.name

-- `!currentFlowName`
abbrev pub is_new : Option Text → Bool
is_new none = true
is_new (some []) = true
is_new (some (c ∷ t)) = false

abbrev pub flow_is_needed : Text
flow_is_needed = codes "Flow name is required. Use lowercase letters, numbers, hyphens, or dots."

module _ (titles_le : Text → Text → Bool) where
  -- A stable sort by title.
  unfoldable pub insert_flow : Entity → List Entity → List Entity
  insert_flow x [] = x ∷ []
  insert_flow x (y ∷ flows) =
      let rest = insert_flow x flows in
      if titles_le (flow_title x) (flow_title y) then x ∷ y ∷ flows else y ∷ rest

  unfoldable pub sort_flows : List Entity → List Entity
  unfolding insert_flow
  sort_flows [] = []
  sort_flows (x ∷ flows) = insert_flow x (sort_flows flows)

module _ (to_lower : Text → Text) (to_string : Json → Text) (uuid : ℕ → Text) where
  -- `uuid i` is here what the call number `i` of those that this load makes returns.
  unfoldable pub load_flow : Entity → Editor → Editor
  unfolding sanitize_flow_name ensure_flow_spec
  load_flow flow s = record (cleared s) {
    current_flow_name = some flow.metadata.name;
    current_namespace = namespace_or_default flow.metadata.namespace;
    flow_name = or_text (sanitize_flow_name to_lower flow.metadata.name) flow.metadata.name;
    flow_title_value = text_or_empty flow.metadata.title;
    flow_description = text_or_empty flow.metadata.description;
    flow_owner = text_or_empty flow.metadata.owner;
    flow_spec = ensure_flow_spec to_string uuid flow.spec;
  }

  unfoldable pub select_flow : Bool → Entity → Editor → Editor
  unfolding load_flow
  select_flow answer flow s =
      if confirm_discard answer s then record (load_flow flow s) { mode = view } else s

  abbrev pub base_name : Editor → Text
  base_name s =
      or_text (text_or_empty s.current_flow_name) (or_text (trim s.flow_name) (codes "flow"))

  abbrev pub names_in_namespace : Editor → List Text
  names_in_namespace s =
      map (λ flow. flow.metadata.name)
        (filter (λ flow. text_eq (namespace_or_default flow.metadata.namespace) s.current_namespace)
          s.flows)

  abbrev pub clone_of : Editor → FlowSpec
  clone_of s = clone_flow_spec_with_new_ids (λ i. uuid (s.next_uuid + i)) s.flow_spec

  abbrev pub duplicated : Text → Editor → Editor
  duplicated duplicate_name s = record s {
    current_flow_name = none;
    flow_name = duplicate_name;
    flow_title_value = next_duplicate_flow_title (or_text (trim s.flow_title_value) (base_name s));
    flow_spec = clone_of s;
    selected_node_id = none;
    selected_node_ids = [];
    selected_edge_id = none;
    connect_from_id = none;
    nest_target = none;
    mode = edit;
    dirty = true;
    error = [];
    notice =
        codes "Created a duplicate draft named \""
        ++ (duplicate_name ++ codes "\". Save to create the new flow.");
    next_uuid = s.next_uuid + length s.flow_spec.nodes + length (clone_of s).edges;
  }

  -- `nextDuplicateFlowName` always finds a name, so that the last case is none.
  unfoldable pub duplicate_current_flow : Bool → Editor → Editor
  unfolding next_duplicate_flow_name next_duplicate_flow_title clone_flow_spec_with_new_ids filter
      trim
  duplicate_current_flow answer s =
      if not s.can_edit
      then refused s
      else if not (confirm_discard answer s)
      then s
      else elim (next_duplicate_flow_name to_lower (base_name s) (names_in_namespace s)) [
        | some duplicate_name ↦ duplicated duplicate_name s
        | none ↦ s
      ]

  abbrev pub metadata_of : Text → Editor → EntityMetadata
  metadata_of name s = record {
    name = name;
    namespace = some s.current_namespace;
    title = present (some (trim s.flow_title_value));
    description = present (some (trim s.flow_description));
    owner = present (some (trim s.flow_owner));
  }

  abbrev pub set_field : Meta → Editor → Editor
  set_field (type_name t) s = record s { flow_name = sanitize_entity_name_input to_lower t }
  set_field (type_title t) s = record s { flow_title_value = t }
  set_field (type_description t) s = record s { flow_description = t }
  set_field (type_owner t) s = record s { flow_owner = t }

  unfoldable pub set_meta : Meta → Editor → Editor
  set_meta m s = record (set_field m s) { dirty = true; notice = [] }

  -- `saveFlow` up to the request.
  unfoldable pub save_flow : Editor → Editor × Option Saving
  unfolding sanitize_flow_name trim text_eq
  save_flow s =
      let raw_name = trim s.flow_name in
      let name = sanitize_flow_name to_lower raw_name in
      if not s.can_edit
      then (refused s, none)
      else if is_empty name
      then (record s { error = flow_is_needed }, none)
      else (
        record s {
          flow_name = if text_eq raw_name name then s.flow_name else name;
          saving = true;
          error = [];
          notice = [];
        },
        some (record {
          for_name = present s.current_flow_name;
          metadata = metadata_of name s;
          spec = s.flow_spec;
          namespace = s.current_namespace;
        }),
      )

  -- The answer to a save, and its failure with a message.
  unfoldable pub on_saved : (Text → Text → Bool) → Saving → Entity → Editor → Editor
  unfolding sort_flows load_flow filter text_eq
  on_saved titles_le request saved s =
      let flows =
        sort_flows titles_le
          (other_flows request.for_name request.namespace s.flows ++ saved ∷ []) in
      record (load_flow saved (record s { flows = flows })) {
        notice = if is_new request.for_name then codes "Flow created." else codes "Flow saved.";
        saving = false;
      }

  unfoldable pub on_save_failed : Text → Editor → Editor
  on_save_failed message s = record s {
    error = or_text message (codes "Failed to save Flow");
    saving = false;
  }

  -- `deleteFlow` up to the request.
  unfoldable pub delete_flow : Bool → Editor → Editor × Option Deleting
  unfolding reset_draft
  delete_flow answer s =
      if not s.can_edit then (refused s, none) else elim (present s.current_flow_name) [
        | none ↦ (reset_draft s, none)
        | some name ↦
            if answer
            then (
              s,
              some (record { name = name; namespace = s.current_namespace; flows = s.flows }),
            )
            else (s, none)
      ]

  abbrev pub show_first : List Entity → Editor → Editor
  show_first [] s = reset_draft s
  show_first (flow ∷ flows) s = load_flow flow s

  unfoldable pub on_deleted : Deleting → Editor → Editor
  unfolding load_flow reset_draft filter text_eq
  on_deleted request s =
      let remaining = other_flows (some request.name) request.namespace request.flows in
      record (show_first remaining (record s { flows = remaining })) {
        notice = codes "Flow deleted.";
      }

  unfoldable pub on_delete_failed : Text → Editor → Editor
  on_delete_failed message s = record s { error = or_text message (codes "Failed to delete Flow") }

  -- The flow that is asked for, or the first one, or a new draft where there is none.
  unfoldable pub show_requested : Loaded → List Entity → Editor → Editor
  unfolding find load_flow reset_draft text_eq
  show_requested answer [] s = reset_draft s
  show_requested answer (first ∷ flows) s = elim (find (is_requested answer) (first ∷ flows)) [
    | none ↦ load_flow first s
    | some requested ↦ load_flow requested s
  ]

  -- The effect that loads the page, once all its answers are there, and its failure. It runs again
  -- when the query of the address changes.
  unfoldable pub on_loaded : (Text → Text → Bool) → Loaded → Editor → Editor
  unfolding sort_flows show_requested
  on_loaded titles_le answer s =
      let sorted_flows = sort_flows titles_le answer.flow_entities in
      let settings = record s {
        can_edit = answer.can_edit;
        editor_role = answer.editor_role;
        flows = sorted_flows;
      } in
      record (show_requested answer sorted_flows settings) {
        mode = if answer.can_edit then answer.requested_mode else view;
      }

  unfoldable pub on_load_failed : Text → Editor → Editor
  on_load_failed message s = record s { error = or_text message (codes "Failed to load Flow data") }
