-- ===== src/Utils/Defaults.antt =====
-- `applySchemaDefaults` and `applyFieldSchemaDefaults` of web/src/lib/utils.ts. A schema is read as
-- one of three kinds: what is no object (nothing is applied), a schema with properties or of type
-- `object`, and any other, which may have a schema for items. A missing `properties` is `{}`. A
-- default is copied (`cloneSchemaDefault`), so here it is the value itself. A value under a key is one of
-- the object's own; what `nextObject[key]` inherits for a property like `constructor` is left out
-- (`inherited_keys` in Laws).
pub mod Laws
pub mod Stable
mod Tests
use mc_gantry.Base.{Bool, true, false, ◌||◌, not, [], ◌∷◌, Option, none, some, if◌then◌else◌, Text}
use mc_gantry.Utils.Json.{
  Json, undef, null, bool, num, str, arr, obj, Items, nil, cons, Fields, end, field, get_field,
  set_field, is_undef,
}

mutual
  pub data Schema : Type 0 where
    absent : Schema
    object : (default : Option Json) → Props → Schema
    value : (default : Option Json) → ItemSchema → Schema

  pub data Props : Type 0 where
    done : Props
    prop : Text → Schema → Props → Props

  pub data ItemSchema : Type 0 where
    no_items : ItemSchema
    items : Schema → ItemSchema

-- `nextValue === undefined && 'default' in fieldSchema`
abbrev pub with_default : Option Json → Json → Json
with_default (some d) undef = d
with_default default v = v

-- `{ ...nextValue }` for an object, `{}` for anything else.
abbrev pub own_fields : Json → Fields
own_fields (obj fs) = fs
own_fields v = end

-- The object under construction, and `shouldReturnObject`.
pub record Progress : Type 0 where
  pub next_object : Fields
  pub should_return : Bool

abbrev pub put_child : Text → Json → Progress → Progress
put_child k undef s = s
put_child k child s = record { next_object = set_field k child s.next_object; should_return = true }

abbrev pub is_end : Fields → Bool
is_end end = true
is_end (field k v fs) = false

abbrev pub close : Json → Progress → Json
close next s = if s.should_return || not (is_end s.next_object) then obj s.next_object else next

unfoldable pub map_items : (Json → Json) → Items → Items
map_items f nil = nil
map_items f (cons v vs) = cons (f v) (map_items f vs)

abbrev pub over_items : (Json → Json) → Json → Json
over_items f (arr vs) = arr (map_items f vs)
over_items f v = v

unfoldable mutual
  pub apply_field : Schema → Json → Json
  apply_field absent v = v
  apply_field (object default props) v =
      let next = with_default default v in
      close next (
        apply_props props
          (record { next_object = own_fields next; should_return = not (is_undef next) }))
  apply_field (value default item) v = apply_item item (with_default default v)

  pub apply_props : Props → Progress → Progress
  apply_props done s = s
  apply_props (prop k schema props) s =
      apply_props props (put_child k (apply_field schema (get_field k s.next_object)) s)

  pub apply_item : ItemSchema → Json → Json
  apply_item no_items next = next
  apply_item (items schema) next = over_items (apply_field schema) next

-- `values ?? {}`
abbrev pub values_or_empty : Json → Json
values_or_empty undef = obj end
values_or_empty null = obj end
values_or_empty v = v

unfoldable pub apply_schema_defaults : Props → Json → Fields
unfolding apply_field
apply_schema_defaults props values =
    own_fields (apply_field (object none props) (values_or_empty values))
