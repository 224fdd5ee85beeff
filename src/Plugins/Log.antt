-- ===== src/Plugins/Log.antt =====
-- What a list of contributions amounts to, apart from any registry.
use mc_gantry.Base.{Bool, false, List, [], ◌∷◌, ◌++◌, none, some, if◌then◌else◌, Text, text_eq}
use mc_gantry.Plugins.{
  Contribution, entity_panel, widget, nav_item, action_type, auth_provider, NavItem,
  ActionTypeDefinition, AuthProvider, Found, own, is_inherited, Plugin, Module, rejected,
  no_function, register, Response, failed, not_ok, plugins, url_of,
}

module _ {Code : Type 0} where
  abbrev pub panel_for : Text → Contribution Code → List Code
  panel_for k (entity_panel j c) = if text_eq j k then c ∷ [] else []
  panel_for k _ = []

  unfoldable pub panels_of : Text → List (Contribution Code) → List Code
  unfolding text_eq
  panels_of k [] = []
  panels_of k (c ∷ cs) = panel_for k c ++ panels_of k cs

  -- The last widget of an id, or what was there before.
  abbrev pub widget_for : Text → Found Code → Contribution Code → Found Code
  widget_for k before (widget j c) = if text_eq j k then own c else before
  widget_for k before _ = before

  unfoldable pub last_widget : Text → Found Code → List (Contribution Code) → Found Code
  unfolding text_eq
  last_widget k before [] = before
  last_widget k before (c ∷ cs) = last_widget k (widget_for k before c) cs

  abbrev pub action_type_for :
      Text
      → Found (ActionTypeDefinition Code)
      → Contribution Code
      → Found (ActionTypeDefinition Code)
  action_type_for k before (action_type d) = if text_eq d.type k then own d else before
  action_type_for k before _ = before

  unfoldable pub last_action_type :
      Text
      → Found (ActionTypeDefinition Code)
      → List (Contribution Code)
      → Found (ActionTypeDefinition Code)
  unfolding text_eq
  last_action_type k before [] = before
  last_action_type k before (c ∷ cs) = last_action_type k (action_type_for k before c) cs

  abbrev pub nav_item_for : Contribution Code → List (NavItem Code)
  nav_item_for (nav_item i) = i ∷ []
  nav_item_for _ = []

  unfoldable pub nav_items_of : List (Contribution Code) → List (NavItem Code)
  nav_items_of [] = []
  nav_items_of (c ∷ cs) = nav_item_for c ++ nav_items_of cs

  abbrev pub auth_provider_for : Contribution Code → List (AuthProvider Code)
  auth_provider_for (auth_provider p) = p ∷ []
  auth_provider_for _ = []

  unfoldable pub auth_providers_of : List (Contribution Code) → List (AuthProvider Code)
  auth_providers_of [] = []
  auth_providers_of (c ∷ cs) = auth_provider_for c ++ auth_providers_of cs

  -- A panel for a kind that names something of the prototype throws.
  abbrev pub throws : Contribution Code → Bool
  throws (entity_panel k c) = is_inherited k
  throws _ = false

  unfoldable pub before_throw : List (Contribution Code) → List (Contribution Code)
  unfolding is_inherited
  before_throw [] = []
  before_throw (c ∷ cs) = let rest = before_throw cs in if throws c then [] else c ∷ rest

  abbrev pub added_by_module : Module Code → List (Contribution Code)
  added_by_module rejected = []
  added_by_module no_function = []
  added_by_module (register calls) = before_throw calls

  -- What a plugin adds, and all the plugins of an answer in their order.
  abbrev pub added_by : (Text → Module Code) → Plugin → List (Contribution Code)
  added_by import_module p = elim (url_of p) [
    | none ↦ []
    | some url ↦ added_by_module (import_module url)
  ]

  unfoldable pub added_by_all : (Text → Module Code) → List Plugin → List (Contribution Code)
  unfolding before_throw
  added_by_all import_module [] = []
  added_by_all import_module (p ∷ ps) = added_by import_module p ++ added_by_all import_module ps

  unfoldable pub added : (Text → Module Code) → Response → List (Contribution Code)
  unfolding added_by_all
  added import_module failed = []
  added import_module not_ok = []
  added import_module (plugins ps) = added_by_all import_module ps
