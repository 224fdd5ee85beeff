-- ===== src/Plugins.antt =====
-- Extension points for plugins and their loader: web/src/lib/plugin-runtime.ts. `Code` stands for
-- the components and callbacks that plugins hand over and that the host only keeps. What a `fetch`
-- and an `import` give is an argument.
pub mod Log
pub mod Calls
pub mod Loaded
mod Tests
use mc_gantry.Base.{
  Bool, true, false, ◌&&◌, not, List, [], ◌∷◌, ◌++◌, Option, none, some, if◌then◌else◌, Text,
  text_eq, codes,
}
use mc_gantry.Base.Map.{get, set, mem}

pub data Role : Type 0 where
  viewer developer admin : Role

pub record NavItem (Code : Type 0) : Type 0 where
  pub id : Text
  pub label : Text
  pub path : Text
  pub icon : Option Code
  pub role : Option Role

pub record ActionTypeDefinition (Code : Type 0) : Type 0 where
  pub type : Text
  pub label : Text
  pub output_renderer : Option Code

pub record AuthProvider (Code : Type 0) : Type 0 where
  pub id : Text
  pub label : Text
  pub initiate_login : Code

-- The registries of the module. Those that are objects hold their own entries.
pub record Registry (Code : Type 0) : Type 0 where
  pub entity_panels : List (Text × List Code)
  pub widgets : List (Text × Code)
  pub nav_items : List (NavItem Code)
  pub action_types : List (Text × ActionTypeDefinition Code)
  pub auth_providers : List (AuthProvider Code)

-- One call of a function of `pluginRuntime`.
pub data Contribution (Code : Type 0) : Type 0 where
  entity_panel : Text → Code → Contribution Code
  widget : Text → Code → Contribution Code
  nav_item : NavItem Code → Contribution Code
  action_type : ActionTypeDefinition Code → Contribution Code
  auth_provider : AuthProvider Code → Contribution Code

abbrev pub proto : Text
proto = codes "__proto__"

-- What every object literal has from `Object.prototype`.
abbrev pub prototype_names : List Text
prototype_names =
    proto
    ∷ codes "constructor"
    ∷ codes "hasOwnProperty"
    ∷ codes "isPrototypeOf"
    ∷ codes "propertyIsEnumerable"
    ∷ codes "toLocaleString"
    ∷ codes "toString"
    ∷ codes "valueOf"
    ∷ codes "__defineGetter__"
    ∷ codes "__defineSetter__"
    ∷ codes "__lookupGetter__"
    ∷ codes "__lookupSetter__"
    ∷ []

unfoldable pub is_inherited : Text → Bool
unfolding mem
is_inherited k = mem k prototype_names

-- What `o[k]` finds: an entry, something of the prototype, or nothing.
pub data Found (A : Type 0) : Type 0 where
  own : A → Found A
  inherited : Found A
  missing : Found A

module _ {A : Type 0} where
  unfoldable pub look_up : Text → List (Text × A) → Found A
  unfolding get is_inherited
  look_up k o = elim (get k o) [
    | some v ↦ own v
    | none ↦ if is_inherited k then inherited else missing
  ]

  -- `o[k] = v`: under `__proto__` this makes no entry.
  unfoldable pub assign : Text → A → List (Text × A) → List (Text × A)
  unfolding set text_eq
  assign k v o = if text_eq proto k then o else set k v o

module _ {Code : Type 0} where
  abbrev pub no_plugins : Registry Code
  no_plugins = record {
    entity_panels = [];
    widgets = [];
    nav_items = [];
    action_types = [];
    auth_providers = [];
  }

  -- `none` is a TypeError: what a prototype has under the kind has no `push`.
  unfoldable pub add_entity_panel : Text → Code → Registry Code → Option (Registry Code)
  unfolding look_up assign
  add_entity_panel entity_kind component r = elim (look_up entity_kind r.entity_panels) [
    | own panels ↦ some (record {
      entity_panels = assign entity_kind (panels ++ component ∷ []) r.entity_panels;
      widgets = r.widgets;
      nav_items = r.nav_items;
      action_types = r.action_types;
      auth_providers = r.auth_providers;
    })
    | missing ↦ some (record {
      entity_panels = assign entity_kind (component ∷ []) r.entity_panels;
      widgets = r.widgets;
      nav_items = r.nav_items;
      action_types = r.action_types;
      auth_providers = r.auth_providers;
    })
    | inherited ↦ none
  ]

  unfoldable pub add_widget : Text → Code → Registry Code → Registry Code
  unfolding assign
  add_widget id component r = record {
    entity_panels = r.entity_panels;
    widgets = assign id component r.widgets;
    nav_items = r.nav_items;
    action_types = r.action_types;
    auth_providers = r.auth_providers;
  }

  unfoldable pub add_nav_item : NavItem Code → Registry Code → Registry Code
  add_nav_item item r = record {
    entity_panels = r.entity_panels;
    widgets = r.widgets;
    nav_items = r.nav_items ++ item ∷ [];
    action_types = r.action_types;
    auth_providers = r.auth_providers;
  }

  unfoldable pub add_action_type : ActionTypeDefinition Code → Registry Code → Registry Code
  unfolding assign
  add_action_type def r = record {
    entity_panels = r.entity_panels;
    widgets = r.widgets;
    nav_items = r.nav_items;
    action_types = assign def.type def r.action_types;
    auth_providers = r.auth_providers;
  }

  unfoldable pub add_auth_provider : AuthProvider Code → Registry Code → Registry Code
  add_auth_provider provider r = record {
    entity_panels = r.entity_panels;
    widgets = r.widgets;
    nav_items = r.nav_items;
    action_types = r.action_types;
    auth_providers = r.auth_providers ++ provider ∷ [];
  }

  abbrev pub contribute : Contribution Code → Registry Code → Option (Registry Code)
  contribute (entity_panel entity_kind component) r = add_entity_panel entity_kind component r
  contribute (widget id component) r = some (add_widget id component r)
  contribute (nav_item item) r = some (add_nav_item item r)
  contribute (action_type def) r = some (add_action_type def r)
  contribute (auth_provider provider) r = some (add_auth_provider provider r)

  -- `_entityPanels[kind] ?? []` and the other accessors.
  abbrev pub get_entity_panels : Text → Registry Code → Found (List Code)
  get_entity_panels kind r = elim (look_up kind r.entity_panels) [
    | own panels ↦ own panels
    | inherited ↦ inherited
    | missing ↦ own []
  ]

  abbrev pub get_widget : Text → Registry Code → Found Code
  get_widget id r = look_up id r.widgets

  abbrev pub get_nav_items : Registry Code → List (NavItem Code)
  get_nav_items r = r.nav_items

  abbrev pub get_action_type : Text → Registry Code → Found (ActionTypeDefinition Code)
  get_action_type type r = look_up type r.action_types

  abbrev pub get_auth_providers : Registry Code → List (AuthProvider Code)
  get_auth_providers r = r.auth_providers

  -- A plugin's register function makes calls until one throws or it is done.
  unfoldable pub run_register : List (Contribution Code) → Registry Code → Registry Code
  run_register [] r = r
  run_register (c ∷ calls) r = elim (contribute c r) [ none ↦ r | some r' ↦ run_register calls r' ]

pub record Plugin : Type 0 where
  pub name : Text
  pub enabled : Bool
  pub bundle_url : Option Text

-- What `import(bundleUrl)` gives: a rejection, a module without a default function, or one whose
-- function makes these calls of `pluginRuntime` (and then returns or throws).
pub data Module (Code : Type 0) : Type 0 where
  rejected : Module Code
  no_function : Module Code
  register : List (Contribution Code) → Module Code

-- What `fetch` and `res.json()` give: an error of either, an answer that is not ok, or the plugins.
pub data Response : Type 0 where
  failed : Response
  not_ok : Response
  plugins : List Plugin → Response

-- `!bundleUrl` holds of a missing and of an empty one.
abbrev pub url_of : Plugin → Option Text
url_of p =
    if p.enabled
    then elim p.bundle_url [ none ↦ none | some [] ↦ none | some (c ∷ s) ↦ some (c ∷ s) ]
    else none

-- `mod.default(pluginRuntime)` where it is a function.
abbrev pub run_module : {Code : Type 0} → Module Code → Registry Code → Registry Code
run_module rejected r = r
run_module no_function r = r
run_module (register calls) r = run_register calls r

module _ {Code : Type 0} (import_module : Text → Module Code) where
  abbrev pub load_plugin : Plugin → Registry Code → Registry Code
  load_plugin p r = elim (url_of p) [ none ↦ r | some url ↦ run_module (import_module url) r ]

  unfoldable pub load_all : List Plugin → Registry Code → Registry Code
  unfolding run_register
  load_all [] r = r
  load_all (p ∷ ps) r = load_all ps (load_plugin p r)

  unfoldable pub load_plugins : Response → Registry Code → Registry Code
  unfolding load_all
  load_plugins failed r = r
  load_plugins not_ok r = r
  load_plugins (plugins ps) r = load_all ps r
