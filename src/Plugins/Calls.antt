-- ===== src/Plugins/Calls.antt =====
-- What one call of `pluginRuntime` changes, and which calls a plugin gets to make:
-- web/src/lib/plugin-runtime.ts.
use mc_gantry.Base.{
  ◌≡◌, refl, sym, ap, ◌∙◌, inl, inr, Bool, true, false, List, [], ◌∷◌, ◌++◌, append-nil, Option,
  none, some, Option-cases, if◌then◌else◌, Text, text_eq, text_eq_iff, arith, Bool-cases, All, ◌⊎◌,
}
use mc_gantry.Base.Map.{get, get-set, mem}
use mc_gantry.Plugins.{
  Registry, Contribution, entity_panel, widget, nav_item, action_type, auth_provider, own,
  inherited, missing, is_inherited, proto, look_up, assign, add_entity_panel, add_widget,
  add_nav_item, add_action_type, add_auth_provider, contribute, get_widget, get_action_type,
  run_register,
}
use mc_gantry.Plugins.Log.{
  panel_for, widget_for, action_type_for, nav_item_for, auth_provider_for, throws, before_throw,
}

proto-ne : (k : Text) → is_inherited k ≡ false → text_eq proto k ≡ false
unfolding is_inherited mem
proto-ne k h = ground arith

module _ {A : Type 0} where
  get-assign :
      (k j : Text) (v : A) (o : List (Text × A))
      → is_inherited k ≡ false
      → get j (assign k v o) ≡ (if text_eq k j then some v else get j o)
  unfolding assign
  get-assign k j v o h = rw (proto-ne k h) (get-set k j v o)

  look_up-assign :
      (k j : Text) (v : A) (o : List (Text × A))
      → is_inherited j ≡ false
      → look_up j (assign k v o) ≡ (if text_eq k j then own v else look_up j o)
  unfolding assign look_up
  look_up-assign k j v o h = elim (Bool-cases (text_eq proto k)) [
    | inl e ↦ rw e (rw (other e) refl)
    | inr e ↦ rw (e, get-set k j v o) (split (text_eq k j))
  ]
    where
      other : text_eq proto k ≡ true → text_eq k j ≡ false
      other e = ground (arith, proto-ne j h, text_eq_iff proto k, text_eq_iff k j)

      split :
          (b : Bool)
          → elim (if b then some v else get j o) [
            | some w ↦ own w
            | none ↦ if is_inherited j then inherited else missing
          ]
            ≡ (if b then own v else elim (get j o) [
              | some w ↦ own w
              | none ↦ if is_inherited j then inherited else missing
            ])
      split true = refl
      split false = refl

module _ {Code : Type 0} where
  -- No panels under a name of the prototype.
  abbrev pub IsClean : Registry Code → Type 0
  IsClean r = (k : Text) → is_inherited k ≡ true → get k r.entity_panels ≡ none

  -- The registry after a call, the same where the call throws.
  abbrev pub put : Contribution Code → Registry Code → Registry Code
  put c r = elim (contribute c r) [ none ↦ r | some r' ↦ r' ]

  unfoldable pub put_all : List (Contribution Code) → Registry Code → Registry Code
  put_all [] r = r
  put_all (c ∷ cs) r = put_all cs (put c r)

  abbrev pub panels_in : Text → Registry Code → List Code
  panels_in k r = elim (get k r.entity_panels) [ none ↦ [] | some panels ↦ panels ]

  abbrev with_panel : Text → Code → Registry Code → Registry Code
  with_panel k c r = record {
    entity_panels = assign k (panels_in k r ++ c ∷ []) r.entity_panels;
    widgets = r.widgets;
    nav_items = r.nav_items;
    action_types = r.action_types;
    auth_providers = r.auth_providers;
  }

  add_entity_panel-inherited :
      (k : Text) (c : Code) (r : Registry Code)
      → IsClean r
      → is_inherited k ≡ true
      → add_entity_panel k c r ≡ none
  unfolding add_entity_panel look_up
  add_entity_panel-inherited k c r clean h = rw (clean k h, h, add_entity_panel, look_up) refl

  add_entity_panel-own :
      (k : Text) (c : Code) (r : Registry Code)
      → is_inherited k ≡ false
      → add_entity_panel k c r ≡ some (with_panel k c r)
  unfolding add_entity_panel look_up
  add_entity_panel-own k c r h = elim (Option-cases (get k r.entity_panels)) [
    | inl e ↦ rw (e, h, add_entity_panel, look_up, panels_in) refl
    | inr (panels, e) ↦ rw (e, add_entity_panel, look_up, panels_in) refl
  ]

  put_panel :
      (k : Text) (c : Code) (r : Registry Code)
      → is_inherited k ≡ false
      → put (entity_panel k c) r ≡ with_panel k c r
  put_panel k c r h =
      ap (λ (o : Option (Registry Code)). elim o [ none ↦ r | some r' ↦ r' ])
        (add_entity_panel-own k c r h)

  contribute-throws :
      (c : Contribution Code) (r : Registry Code)
      → IsClean r
      → throws c ≡ true
      → contribute c r ≡ none
  contribute-throws (entity_panel k c) r clean h = add_entity_panel-inherited k c r clean h
  contribute-throws (widget k c) r clean h = ground arith
  contribute-throws (nav_item i) r clean h = ground arith
  contribute-throws (action_type d) r clean h = ground arith
  contribute-throws (auth_provider p) r clean h = ground arith

  contribute-put :
      (c : Contribution Code) (r : Registry Code)
      → throws c ≡ false
      → contribute c r ≡ some (put c r)
  contribute-put (entity_panel k c) r h =
      add_entity_panel-own k c r h ∙ ap some (sym (put_panel k c r h))
  contribute-put (widget k c) r h = refl
  contribute-put (nav_item i) r h = refl
  contribute-put (action_type d) r h = refl
  contribute-put (auth_provider p) r h = refl

  put-IsClean :
      (c : Contribution Code) (r : Registry Code) → throws c ≡ false → IsClean r → IsClean (put c r)
  put-IsClean (entity_panel k c) r h clean = λ j e. rw (put_panel k c r h) (
      get-assign k j (panels_in k r ++ c ∷ []) r.entity_panels h
      ∙ ground (arith, text_eq_iff k j, clean j e))
  put-IsClean (widget k c) r h clean = unfold add_widget in clean
  put-IsClean (nav_item i) r h clean = unfold add_nav_item in clean
  put-IsClean (action_type d) r h clean = unfold add_action_type in clean
  put-IsClean (auth_provider p) r h clean = unfold add_auth_provider in clean

  pub run_register-put_all :
      (cs : List (Contribution Code)) (r : Registry Code)
      → IsClean r
      → (run_register cs r ≡ put_all (before_throw cs) r) × IsClean (run_register cs r)
  unfolding run_register put_all before_throw
  run_register-put_all [] r clean = (refl, clean)
  run_register-put_all (c ∷ cs) r clean = elim (Bool-cases (throws c)) [
    | inl e ↦ rw (e, contribute-throws c r clean e, run_register) (refl, clean)
    | inr e ↦
        let ih = run_register-put_all cs (put c r) (put-IsClean c r e clean) in
        rw (e, contribute-put c r e, run_register) ih
  ]

  pub put_all-append :
      (xs ys : List (Contribution Code)) (r : Registry Code)
      → put_all (xs ++ ys) r ≡ put_all ys (put_all xs r)
  unfolding put_all
  put_all-append [] ys r = refl
  put_all-append (c ∷ xs) ys r = put_all-append xs ys (put c r)

  abbrev pub GoesOn : List (Contribution Code) → Type 0
  GoesOn cs = All (λ c. throws c ≡ false) cs

  pub before_throw-GoesOn : (cs : List (Contribution Code)) → GoesOn (before_throw cs)
  unfolding before_throw
  before_throw-GoesOn [] = tt
  before_throw-GoesOn (c ∷ cs) = elim (Bool-cases (throws c)) [
    | inl e ↦ rw e tt
    | inr e ↦ rw e (e, before_throw-GoesOn cs)
  ]

  -- The accessors after one call that does not throw.
  pub nav_items-put :
      (c : Contribution Code) (r : Registry Code)
      → throws c ≡ false
      → (put c r).nav_items ≡ r.nav_items ++ nav_item_for c
  unfolding add_widget add_nav_item add_action_type add_auth_provider
  nav_items-put (entity_panel k c) r h = rw (put_panel k c r h) (sym (append-nil r.nav_items))
  nav_items-put (widget k c) r h = sym (append-nil r.nav_items)
  nav_items-put (nav_item i) r h = refl
  nav_items-put (action_type d) r h = sym (append-nil r.nav_items)
  nav_items-put (auth_provider p) r h = sym (append-nil r.nav_items)

  pub auth_providers-put :
      (c : Contribution Code) (r : Registry Code)
      → throws c ≡ false
      → (put c r).auth_providers ≡ r.auth_providers ++ auth_provider_for c
  unfolding add_widget add_nav_item add_action_type add_auth_provider
  auth_providers-put (entity_panel k c) r h =
      rw (put_panel k c r h) (sym (append-nil r.auth_providers))
  auth_providers-put (widget k c) r h = sym (append-nil r.auth_providers)
  auth_providers-put (nav_item i) r h = sym (append-nil r.auth_providers)
  auth_providers-put (action_type d) r h = sym (append-nil r.auth_providers)
  auth_providers-put (auth_provider p) r h = refl

  pub get_widget-put :
      (c : Contribution Code) (r : Registry Code) (k : Text)
      → throws c ≡ false
      → is_inherited k ≡ false
      → get_widget k (put c r) ≡ widget_for k (get_widget k r) c
  unfolding add_widget add_nav_item add_action_type add_auth_provider
  get_widget-put (entity_panel j c) r k h own_key = rw (put_panel j c r h) refl
  get_widget-put (widget j c) r k h own_key = look_up-assign j k c r.widgets own_key
  get_widget-put (nav_item i) r k h own_key = refl
  get_widget-put (action_type d) r k h own_key = refl
  get_widget-put (auth_provider p) r k h own_key = refl

  pub get_action_type-put :
      (c : Contribution Code) (r : Registry Code) (k : Text)
      → throws c ≡ false
      → is_inherited k ≡ false
      → get_action_type k (put c r) ≡ action_type_for k (get_action_type k r) c
  unfolding add_widget add_nav_item add_action_type add_auth_provider
  get_action_type-put (entity_panel j c) r k h own_key = rw (put_panel j c r h) refl
  get_action_type-put (widget j c) r k h own_key = refl
  get_action_type-put (nav_item i) r k h own_key = refl
  get_action_type-put (action_type d) r k h own_key =
      look_up-assign d.type k d r.action_types own_key
  get_action_type-put (auth_provider p) r k h own_key = refl

  pub panels_in-put :
      (c : Contribution Code) (r : Registry Code) (k : Text)
      → throws c ≡ false
      → panels_in k (put c r) ≡ panels_in k r ++ panel_for k c
  unfolding add_widget add_nav_item add_action_type add_auth_provider
  panels_in-put (entity_panel j c) r k h = rw (put_panel j c r h) (
      ap (λ (o : Option (List Code)). elim o [ none ↦ [] | some panels ↦ panels ])
        (get-assign j k (panels_in j r ++ c ∷ []) r.entity_panels h)
      ∙ split (Bool-cases (text_eq j k)))
    where
      split :
          (text_eq j k ≡ true) ⊎ (text_eq j k ≡ false)
          → elim (if text_eq j k then some (panels_in j r ++ c ∷ []) else get k r.entity_panels) [
            | none ↦ []
            | some panels ↦ panels
          ]
            ≡ panels_in k r ++ (if text_eq j k then c ∷ [] else [])
      split (inl e) = rw e (rw ((text_eq_iff j k).0 e) refl)
      split (inr e) = rw e (sym (append-nil (panels_in k r)))
  panels_in-put (widget j c) r k h = sym (append-nil (panels_in k r))
  panels_in-put (nav_item i) r k h = sym (append-nil (panels_in k r))
  panels_in-put (action_type d) r k h = sym (append-nil (panels_in k r))
  panels_in-put (auth_provider p) r k h = sym (append-nil (panels_in k r))
