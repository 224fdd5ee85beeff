-- ===== src/Plugins/Loaded.antt =====
-- What the host finds after loading: web/src/lib/plugin-runtime.ts.
use mc_gantry.Base.{
  ◌≡◌, refl, sym, ap, subst, ◌∙◌, inl, inr, false, List, [], ◌∷◌, ◌++◌, append_assoc, append-nil,
  Option-cases, if◌then◌else◌, Text, All-append,
}
use mc_gantry.Base.Map.{get}
use mc_gantry.Plugins.{
  Registry, Contribution, own, inherited, missing, is_inherited, look_up, get_entity_panels,
  get_widget, get_nav_items, get_action_type, get_auth_providers, no_plugins, Plugin, Module,
  rejected, no_function, register, Response, failed, not_ok, plugins, url_of, load_plugin, load_all,
  run_module, load_plugins,
}
use mc_gantry.Plugins.Log.{
  panels_of, last_widget, last_action_type, nav_items_of, auth_providers_of, added_by,
  added_by_module, throws, added_by_all, added,
}
use mc_gantry.Plugins.Calls.{
  IsClean, put, put_all, panels_in, GoesOn, run_register-put_all, put_all-append,
  before_throw-GoesOn, nav_items-put, auth_providers-put, get_widget-put, get_action_type-put,
  panels_in-put,
}

module _ {Code : Type 0} where
  -- The host finds in a registry what a list of contributions amounts to.
  pub record Shows (cs : List (Contribution Code)) (r : Registry Code) : Type 0 where
    pub panels : (k : Text) → is_inherited k ≡ false → get_entity_panels k r ≡ own (panels_of k cs)
    pub widgets : (k : Text) → is_inherited k ≡ false → get_widget k r ≡ last_widget k missing cs
    pub action_types :
        (k : Text) → is_inherited k ≡ false → get_action_type k r ≡ last_action_type k missing cs
    pub nav_items : get_nav_items r ≡ nav_items_of cs
    pub auth_providers : get_auth_providers r ≡ auth_providers_of cs

  nav_items-put_all :
      (cs : List (Contribution Code)) (r : Registry Code)
      → GoesOn cs
      → (put_all cs r).nav_items ≡ r.nav_items ++ nav_items_of cs
  unfolding put_all nav_items_of
  nav_items-put_all [] r h = sym (append-nil r.nav_items)
  nav_items-put_all (c ∷ cs) r (h, hs) =
      nav_items-put_all cs (put c r) hs
      ∙ ap (λ items. items ++ nav_items_of cs) (nav_items-put c r h)
      ∙ append_assoc r.nav_items _ _

  auth_providers-put_all :
      (cs : List (Contribution Code)) (r : Registry Code)
      → GoesOn cs
      → (put_all cs r).auth_providers ≡ r.auth_providers ++ auth_providers_of cs
  unfolding put_all auth_providers_of
  auth_providers-put_all [] r h = sym (append-nil r.auth_providers)
  auth_providers-put_all (c ∷ cs) r (h, hs) =
      auth_providers-put_all cs (put c r) hs
      ∙ ap (λ items. items ++ auth_providers_of cs) (auth_providers-put c r h)
      ∙ append_assoc r.auth_providers _ _

  panels_in-put_all :
      (cs : List (Contribution Code)) (r : Registry Code) (k : Text)
      → GoesOn cs
      → panels_in k (put_all cs r) ≡ panels_in k r ++ panels_of k cs
  unfolding put_all panels_of
  panels_in-put_all [] r k h = sym (append-nil (panels_in k r))
  panels_in-put_all (c ∷ cs) r k (h, hs) =
      panels_in-put_all cs (put c r) k hs
      ∙ ap (λ panels. panels ++ panels_of k cs) (panels_in-put c r k h)
      ∙ append_assoc (panels_in k r) _ _

  get_widget-put_all :
      (cs : List (Contribution Code)) (r : Registry Code) (k : Text)
      → GoesOn cs
      → is_inherited k ≡ false
      → get_widget k (put_all cs r) ≡ last_widget k (get_widget k r) cs
  unfolding put_all last_widget
  get_widget-put_all [] r k h own_key = refl
  get_widget-put_all (c ∷ cs) r k (h, hs) own_key =
      get_widget-put_all cs (put c r) k hs own_key
      ∙ ap (λ before. last_widget k before cs) (get_widget-put c r k h own_key)

  get_action_type-put_all :
      (cs : List (Contribution Code)) (r : Registry Code) (k : Text)
      → GoesOn cs
      → is_inherited k ≡ false
      → get_action_type k (put_all cs r) ≡ last_action_type k (get_action_type k r) cs
  unfolding put_all last_action_type
  get_action_type-put_all [] r k h own_key = refl
  get_action_type-put_all (c ∷ cs) r k (h, hs) own_key =
      get_action_type-put_all cs (put c r) k hs own_key
      ∙ ap (λ before. last_action_type k before cs) (get_action_type-put c r k h own_key)

  get_entity_panels-panels_in :
      (k : Text) (r : Registry Code)
      → is_inherited k ≡ false
      → get_entity_panels k r ≡ own (panels_in k r)
  unfolding look_up
  get_entity_panels-panels_in k r h = elim (Option-cases (get k r.entity_panels)) [
    | inl e ↦ rw (e, h, get_entity_panels, look_up, panels_in) refl
    | inr (panels, e) ↦ rw (e, get_entity_panels, look_up, panels_in) refl
  ]

  put_all-Shows : (cs : List (Contribution Code)) → GoesOn cs → Shows cs (put_all cs no_plugins)
  unfolding look_up get
  put_all-Shows cs h = record {
    panels = λ k own_key.
        get_entity_panels-panels_in k (put_all cs no_plugins) own_key
        ∙ ap own (panels_in-put_all cs no_plugins k h);
    widgets = λ k own_key.
        get_widget-put_all cs no_plugins k h own_key
        ∙ ap (λ b. last_widget k (if b then inherited else missing) cs) own_key;
    action_types = λ k own_key.
        get_action_type-put_all cs no_plugins k h own_key
        ∙ ap (λ b. last_action_type k (if b then inherited else missing) cs) own_key;
    nav_items = nav_items-put_all cs no_plugins h;
    auth_providers = auth_providers-put_all cs no_plugins h;
  }

no_plugins-IsClean : {Code : Type 0} → IsClean (no_plugins {Code = Code})
unfolding get
no_plugins-IsClean k h = refl

module _ {Code : Type 0} (import_module : Text → Module Code) where
  run_module-put_all :
      (m : Module Code) (r : Registry Code)
      → IsClean r
      → (run_module m r ≡ put_all (added_by_module m) r) × IsClean (run_module m r)
  unfolding put_all
  run_module-put_all rejected r clean = (refl, clean)
  run_module-put_all no_function r clean = (refl, clean)
  run_module-put_all (register calls) r clean = run_register-put_all calls r clean

  added_by_module-GoesOn : (m : Module Code) → GoesOn (added_by_module m)
  added_by_module-GoesOn rejected = tt
  added_by_module-GoesOn no_function = tt
  added_by_module-GoesOn (register calls) = before_throw-GoesOn calls

  load_plugin-put_all :
      (p : Plugin) (r : Registry Code)
      → IsClean r
      → (load_plugin import_module p r ≡ put_all (added_by import_module p) r)
        × IsClean (load_plugin import_module p r)
        × GoesOn (added_by import_module p)
  unfolding put_all
  load_plugin-put_all p r clean = elim (Option-cases (url_of p)) [
    | inl e ↦ rw (e, load_plugin, added_by) (refl, clean, tt)
    | inr (url, e) ↦
        let (same, still) = run_module-put_all (import_module url) r clean in
        rw (e, load_plugin, added_by) (same, still, added_by_module-GoesOn (import_module url))
  ]

  load_all-put_all :
      (ps : List Plugin) (r : Registry Code)
      → IsClean r
      → (load_all import_module ps r ≡ put_all (added_by_all import_module ps) r)
        × GoesOn (added_by_all import_module ps)
  unfolding load_all added_by_all
  load_all-put_all [] r clean = (unfold put_all in refl, tt)
  load_all-put_all (p ∷ ps) r clean =
      let (same, still, goes_on) = load_plugin-put_all p r clean in
      let (rest, more) = load_all-put_all ps (load_plugin import_module p r) still in
      (
        rest
            ∙ ap (put_all (added_by_all import_module ps)) same
            ∙ sym (put_all-append (added_by import_module p) (added_by_all import_module ps) r),
        All-append (λ c. throws c ≡ false) (added_by import_module p)
            (added_by_all import_module ps) goes_on more,
      )

-- After the loading into empty registries the host finds exactly what the enabled plugins with a
-- bundle contributed, in their order: the panels of each kind, the last widget of each id, the last
-- action type of each name, the navigation items and the providers. A plugin that does not load adds
-- nothing, one that throws keeps what it added before, and neither stops the others. Names of
-- `Object.prototype` are left aside for panels, widgets and action types.
pub load_plugins-Shows :
    {Code : Type 0} (import_module : Text → Module Code) (response : Response)
    → Shows (added import_module response) (load_plugins import_module response no_plugins)
unfolding load_plugins added
load_plugins-Shows import_module failed = unfold put_all in put_all-Shows [] tt
load_plugins-Shows import_module not_ok = unfold put_all in put_all-Shows [] tt
load_plugins-Shows import_module (plugins ps) =
    let (same, goes_on) = load_all-put_all import_module ps no_plugins no_plugins-IsClean in
    subst (Shows (added_by_all import_module ps)) (sym same)
      (put_all-Shows (added_by_all import_module ps) goes_on)
