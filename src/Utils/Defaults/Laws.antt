-- ===== src/Utils/Defaults/Laws.antt =====
-- What `applySchemaDefaults` of web/src/lib/utils.ts puts under each key.
use mc_gantry.Base.{
  List, [], ◌∷◌, codes, ◌≡◌, refl, ◌∙◌, ◌≢◌, ◌⊎◌, inl, inr, true, false, ◌||◌, not, Option, none,
  some, if◌then◌else◌, Text, text_eq, text_eq_iff, text_eq_refl, arith, Bool-cases,
}
use mc_gantry.Base.Map.{mem}
use mc_gantry.Utils.Json.{
  Json, undef, null, bool, num, str, arr, obj, Fields, get_field, get-set_field, is_undef,
}
use mc_gantry.Utils.Defaults.{
  Schema, absent, object, value, Props, done, prop, ItemSchema, no_items, items, Progress,
  put_child, close, over_items, is_end, with_default, own_fields, apply_field, apply_props,
  apply_item, values_or_empty,
}

-- The key is none of the properties' keys.
abbrev pub IsFree : Text → Props → Type 0
IsFree j done = Unit
IsFree j (prop k schema props) = (k ≢ j) × IsFree j props

-- The keys of an object's properties are distinct.
abbrev pub HasDistinctKeys : Props → Type 0
HasDistinctKeys done = Unit
HasDistinctKeys (prop k schema props) = IsFree k props × HasDistinctKeys props

-- The keys that every object inherits from `Object.prototype`, under which the source finds a value
-- where there is none of the object's own.
abbrev pub inherited_keys : List Text
inherited_keys =
    codes "constructor"
    ∷ codes "hasOwnProperty"
    ∷ codes "isPrototypeOf"
    ∷ codes "propertyIsEnumerable"
    ∷ codes "toLocaleString"
    ∷ codes "toString"
    ∷ codes "valueOf"
    ∷ codes "__defineGetter__"
    ∷ codes "__defineSetter__"
    ∷ codes "__lookupGetter__"
    ∷ codes "__lookupSetter__"
    ∷ codes "__proto__"
    ∷ []

-- No property of the schema, at any depth, has such a key.
unfoldable mutual
  pub AreOwn : Props → Type 0
  AreOwn done = Unit
  AreOwn (prop k schema props) = (mem k inherited_keys ≡ false) × IsOwn schema × AreOwn props

  pub IsOwn : Schema → Type 0
  IsOwn absent = Unit
  IsOwn (object d props) = AreOwn props
  IsOwn (value d item) = IsOwnItem item

  pub IsOwnItem : ItemSchema → Type 0
  IsOwnItem no_items = Unit
  IsOwnItem (items schema) = IsOwn schema

-- What is to stand under a key.
pub value_under : Props → Text → Fields → Json
value_under done j fs = get_field j fs
value_under (prop k schema props) j fs =
    if text_eq k j then apply_field schema (get_field j fs) else value_under props j fs

pub with_default-eq_self : (d : Option Json) (v : Json) → v ≢ undef → with_default d v ≡ v
with_default-eq_self none v h = refl
with_default-eq_self (some d) undef h = absurd (h refl)
with_default-eq_self (some d) v h = refl

over_items-ne-undef : (f : Json → Json) (v : Json) → v ≢ undef → over_items f v ≢ undef
over_items-ne-undef f (arr vs) h = λ e. cc
over_items-ne-undef f v h = h

apply_item-ne-undef : (item : ItemSchema) (v : Json) → v ≢ undef → apply_item item v ≢ undef
unfolding apply_field
apply_item-ne-undef no_items v h = h
apply_item-ne-undef (items schema) v h = over_items-ne-undef (apply_field schema) v h

close-ne-undef : (next : Json) (s : Progress) → next ≢ undef → close next s ≢ undef
close-ne-undef next s h = elim (Bool-cases (s.should_return || not (is_end s.next_object))) [
  | inl e ↦ rw e (λ f. cc)
  | inr e ↦ rw e h
]

-- A value that is there is never taken away.
pub apply_field-ne-undef : (schema : Schema) (v : Json) → v ≢ undef → apply_field schema v ≢ undef
unfolding apply_field
apply_field-ne-undef absent v h = h
apply_field-ne-undef (object d props) v h = rw (with_default-eq_self d v h) (
    close-ne-undef v
      (apply_props props (record { next_object = own_fields v; should_return = not (is_undef v) }))
      h)
apply_field-ne-undef (value d item) v h =
    rw (with_default-eq_self d v h) (apply_item-ne-undef item v h)

pub undef-cases : (v : Json) → (v ≡ undef) ⊎ (v ≢ undef)
undef-cases undef = inl refl
undef-cases null = inr (λ e. cc)
undef-cases (bool b) = inr (λ e. cc)
undef-cases (num n) = inr (λ e. cc)
undef-cases (str s) = inr (λ e. cc)
undef-cases (arr vs) = inr (λ e. cc)
undef-cases (obj fs) = inr (λ e. cc)

pub undef_of_apply_field : (schema : Schema) (v : Json) → apply_field schema v ≡ undef → v ≡ undef
undef_of_apply_field schema v e = elim (undef-cases v) [
  | inl h ↦ h
  | inr h ↦ absurd (apply_field-ne-undef schema v h e)
]

get-put_child :
    (j k : Text) (child : Json) (s : Progress)
    → get_field j (put_child k child s).next_object ≡ (
        if is_undef child
        then get_field j s.next_object
        else if text_eq k j
        then child
        else get_field j s.next_object)
get-put_child j k undef s = refl
get-put_child j k child s = get-set_field k j child s.next_object

-- What one step of the loop puts under its own key and under another.
pub get-child_self :
    (k : Text) (schema : Schema) (s : Progress)
    → get_field k (put_child k (apply_field schema (get_field k s.next_object)) s).next_object
      ≡ apply_field schema (get_field k s.next_object)
get-child_self k schema s =
    let child = apply_field schema (get_field k s.next_object) in
    elim (undef-cases child) [
      | inl e ↦
          rw (get-put_child k k child s, e)
            (undef_of_apply_field schema (get_field k s.next_object) e)
      | inr h ↦
          let there : is_undef child ≡ false = is_undef-false child h in
          rw (get-put_child k k child s, there, text_eq_refl k)
    ]
  where
    is_undef-false : (v : Json) → v ≢ undef → is_undef v ≡ false
    is_undef-false undef h = absurd (h refl)
    is_undef-false v h = refl

get-child_other :
    (j k : Text) (child : Json) (s : Progress)
    → k ≢ j
    → get_field j (put_child k child s).next_object ≡ get_field j s.next_object
get-child_other j k child s h = ground (arith, get-put_child j k child s, text_eq_iff k j)

pub get-apply_props_free :
    (j : Text) (props : Props) (s : Progress)
    → IsFree j props
    → get_field j (apply_props props s).next_object ≡ get_field j s.next_object
unfolding apply_field
get-apply_props_free j done s h = refl
get-apply_props_free j (prop k schema props) s (h, free) =
    let child = apply_field schema (get_field k s.next_object) in
    get-apply_props_free j props (put_child k child s) free ∙ get-child_other j k child s h

value_under-free :
    (props : Props) (j : Text) (fs : Fields)
    → IsFree j props
    → value_under props j fs ≡ get_field j fs
unfolding value_under
value_under-free done j fs h = refl
value_under-free (prop k schema props) j fs (h, free) =
    ground (arith, text_eq_iff k j, value_under-free props j fs free)

value_under-cong :
    (props : Props) (j : Text) (fs gs : Fields)
    → get_field j fs ≡ get_field j gs
    → value_under props j fs ≡ value_under props j gs
unfolding value_under
value_under-cong done j fs gs e = e
value_under-cong (prop k schema props) j fs gs e = ground (arith, value_under-cong props j fs gs e)

pub get-apply_props :
    (props : Props) (s : Progress) (j : Text)
    → HasDistinctKeys props
    → get_field j (apply_props props s).next_object ≡ value_under props j s.next_object
unfolding apply_field value_under
get-apply_props done s j h = refl
get-apply_props (prop k schema props) s j (free, h) =
    let child = apply_field schema (get_field k s.next_object) in
    let s' = put_child k child s in
    elim (Bool-cases (text_eq k j)) [
      | inl e ↦
          let same = (text_eq_iff k j).0 e in
          rw e (rw (← same) (get-apply_props_free k props s' free ∙ get-child_self k schema s))
      | inr e ↦
          let other : k ≢ j = λ same. ground (arith, text_eq_iff k j) in
          rw e (
            get-apply_props props s' j h
            ∙ value_under-cong props j s'.next_object s.next_object
                (get-child_other j k child s other))
    ]

pub should_return-apply_props :
    (props : Props) (s : Progress)
    → s.should_return ≡ true
    → (apply_props props s).should_return ≡ true
unfolding apply_field
should_return-apply_props done s h = h
should_return-apply_props (prop k schema props) s h =
    should_return-apply_props props _
      (should_return-put_child (apply_field schema (get_field k s.next_object)))
  where
    should_return-put_child : (child : Json) → (put_child k child s).should_return ≡ true
    should_return-put_child undef = h
    should_return-put_child child = refl

pub values_or_empty-ne-undef : (v : Json) → is_undef (values_or_empty v) ≡ false
values_or_empty-ne-undef undef = refl
values_or_empty-ne-undef null = refl
values_or_empty-ne-undef v = refl
