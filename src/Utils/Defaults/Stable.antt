-- ===== src/Utils/Defaults/Stable.antt =====
-- Applying the defaults of a schema twice: web/src/lib/utils.ts.
use mc_gantry.Base.{
  ◌≡◌, refl, sym, ap, ◌∙◌, ◌≢◌, ◌⊎◌, inl, inr, true, ◌||◌, not, Option, none, some, Text, arith,
  Bool-cases,
}
use mc_gantry.Utils.Json.{
  Json, undef, arr, obj, Items, nil, cons, Fields, get_field, set_field, set-get_field, is_undef,
}
use mc_gantry.Utils.Defaults.{
  Schema, absent, object, value, Props, done, prop, ItemSchema, no_items, items, Progress,
  put_child, close, is_end, with_default, own_fields, map_items, over_items, apply_field,
  apply_props, apply_item, values_or_empty, apply_schema_defaults,
}
use mc_gantry.Utils.Defaults.Laws.{
  HasDistinctKeys, with_default-eq_self, apply_field-ne-undef, undef-cases, undef_of_apply_field,
  get-child_self, get-apply_props_free, should_return-apply_props, values_or_empty-ne-undef,
}

-- A schema whose objects have distinct property keys, at every depth.
mutual
  pub data IsRegular : Schema → Type 0 where
    regular_absent : IsRegular absent
    regular_object :
        (d : Option Json) {props : Props}
        → HasDistinctKeys props
        → AreRegular props
        → IsRegular (object d props)
    regular_value :
        (d : Option Json) {item : ItemSchema} → IsRegularItem item → IsRegular (value d item)

  pub data AreRegular : Props → Type 0 where
    regular_done : AreRegular done
    regular_prop :
        (k : Text) {schema : Schema} {props : Props}
        → IsRegular schema
        → AreRegular props
        → AreRegular (prop k schema props)

  pub data IsRegularItem : ItemSchema → Type 0 where
    regular_none : IsRegularItem no_items
    regular_items : {schema : Schema} → IsRegular schema → IsRegularItem (items schema)

-- Every property has its defaults applied already.
abbrev IsSettled : Props → Fields → Type 0
IsSettled done fs = Unit
IsSettled (prop k schema props) fs =
    (apply_field schema (get_field k fs) ≡ get_field k fs) × IsSettled props fs

abbrev returning : Fields → Progress
returning fs = record { next_object = fs; should_return = true }

put_child-settled :
    (k : Text) (child : Json) (fs : Fields)
    → child ≡ get_field k fs
    → put_child k child (record { next_object = fs; should_return = true })
      ≡ record { next_object = fs; should_return = true }
put_child-settled k undef fs e = refl
put_child-settled k child fs e =
    ap returning (ap (λ v. set_field k v fs) e ∙ set-get_field k fs (λ u. cc (e ∙ u)))

apply_props-settled :
    (props : Props) (fs : Fields)
    → IsSettled props fs
    → apply_props props (record { next_object = fs; should_return = true })
      ≡ record { next_object = fs; should_return = true }
unfolding apply_field
apply_props-settled done fs h = refl
apply_props-settled (prop k schema props) fs (h, hs) =
    rw (put_child-settled k (apply_field schema (get_field k fs)) fs h)
      (apply_props-settled props fs hs)

map_items_idem :
    (f : Json → Json)
    → ((v : Json) → f (f v) ≡ f v)
    → (vs : Items) → map_items f (map_items f vs) ≡ map_items f vs
unfolding map_items
map_items_idem f h nil = refl
map_items_idem f h (cons v vs) = rw (h v, map_items_idem f h vs)

over_items_idem :
    (f : Json → Json)
    → ((v : Json) → f (f v) ≡ f v)
    → (v : Json) → over_items f (over_items f v) ≡ over_items f v
over_items_idem f h (arr vs) = ap arr (map_items_idem f h vs)
over_items_idem f h v = refl

close-eq_undef :
    (next : Json) (s : Progress)
    → close next s ≢ undef
    → s.should_return ≡ true ⊎ (next ≡ undef)
    → close next s ≡ obj s.next_object
close-eq_undef next s h (inl e) = rw e
close-eq_undef next s h (inr e) =
    elim (Bool-cases (s.should_return || not (is_end s.next_object))) [
      | inl f ↦ rw f
      | inr f ↦ absurd (h (rw f e))
    ]

-- A result of an object schema that is there is the object that the loop built.
object-result :
    (d : Option Json) (props : Props) (v : Json)
    → apply_field (object d props) v ≢ undef
    → apply_field (object d props) v
      ≡ obj
          (apply_props props (record {
            next_object = own_fields (with_default d v);
            should_return = not (is_undef (with_default d v));
          })).next_object
unfolding apply_field
object-result d props v h = elim (undef-cases (with_default d v)) [
  | inl e ↦ close-eq_undef (with_default d v) _ h (inr e)
  | inr n ↦
      close-eq_undef (with_default d v) _ h
        (inl (should_return-apply_props props _ (flag (with_default d v) n)))
]
  where
    flag : (w : Json) → w ≢ undef → not (is_undef w) ≡ true
    flag undef n = absurd (n refl)
    flag w n = refl

-- Where the result is missing so is the value, and both calls are the same one.
idem_of_undef :
    (schema : Schema) (v : Json)
    → apply_field schema v ≡ undef
    → apply_field schema (apply_field schema v) ≡ apply_field schema v
idem_of_undef schema v e = ap (apply_field schema) (e ∙ sym (undef_of_apply_field schema v e))

object-settled :
    (d : Option Json) (props : Props) (fs : Fields)
    → IsSettled props fs
    → apply_field (object d props) (obj fs) ≡ obj fs
unfolding apply_field
object-settled none props fs h = rw (apply_props-settled props fs h)
object-settled (some d) props fs h = rw (apply_props-settled props fs h)

object_idem :
    (d : Option Json) (props : Props)
    → ((s : Progress) → IsSettled props (apply_props props s).next_object)
    → (v : Json)
    → apply_field (object d props) (apply_field (object d props) v) ≡ apply_field (object d props) v
object_idem d props settled v = elim (undef-cases (apply_field (object d props) v)) [
  | inl e ↦ idem_of_undef (object d props) v e
  | inr h ↦
      let built = object-result d props v h in
      ap (apply_field (object d props)) built ∙ object-settled d props _ (settled _) ∙ sym built
]

value_idem :
    (d : Option Json) (item : ItemSchema)
    → ((v : Json) → apply_item item (apply_item item v) ≡ apply_item item v)
    → (v : Json)
    → apply_field (value d item) (apply_field (value d item) v) ≡ apply_field (value d item) v
value_idem d item h v = elim (undef-cases (apply_field (value d item) v)) [
  | inl e ↦ idem_of_undef (value d item) v e
  | inr n ↦
      unfold apply_field in
      ap (apply_item item) (with_default-eq_self d (apply_item item (with_default d v)) n)
      ∙ h (with_default d v)
]

mutual
  unfolding apply_field

  apply_field_idem :
      {schema : Schema}
      → IsRegular schema
      → (v : Json) → apply_field schema (apply_field schema v) ≡ apply_field schema v
  apply_field_idem regular_absent v = refl
  apply_field_idem (regular_object d {props} distinct regular) v =
      object_idem d props (apply_props-IsSettled regular distinct) v
  apply_field_idem (regular_value d {item} regular) v =
      value_idem d item (apply_item_idem regular) v

  apply_item_idem :
      {item : ItemSchema}
      → IsRegularItem item
      → (v : Json) → apply_item item (apply_item item v) ≡ apply_item item v
  apply_item_idem regular_none v = refl
  apply_item_idem (regular_items {schema} regular) v =
      over_items_idem (apply_field schema) (apply_field_idem regular) v

  apply_props-IsSettled :
      {props : Props}
      → AreRegular props
      → HasDistinctKeys props
      → (s : Progress) → IsSettled props (apply_props props s).next_object
  apply_props-IsSettled regular_done distinct s = tt
  apply_props-IsSettled (regular_prop k {schema} {props} regular more) (free, distinct) s =
      let s' = put_child k (apply_field schema (get_field k s.next_object)) s in
      let at = get-apply_props_free k props s' free ∙ get-child_self k schema s in
      (
        rw at (apply_field_idem regular (get_field k s.next_object)),
        apply_props-IsSettled more distinct s',
      )

-- Applying the defaults of a schema to what they were applied to already changes nothing, if the
-- property keys of each object in the schema are distinct.
pub apply_schema_defaults-idempotent :
    (props : Props) (values : Json)
    → HasDistinctKeys props
    → AreRegular props
    → apply_schema_defaults props (obj (apply_schema_defaults props values))
      ≡ apply_schema_defaults props values
unfolding apply_schema_defaults
apply_schema_defaults-idempotent props values distinct regular =
    let v = values_or_empty values in
    let schema = object none props in
    let there : v ≢ undef = λ e. ground (arith, values_or_empty-ne-undef values) in
    let built = object-result none props v (apply_field-ne-undef schema v there) in
    ap own_fields (
      ap (apply_field schema) (ap (λ w. obj (own_fields w)) built ∙ sym built)
      ∙ apply_field_idem (regular_object none distinct regular) v)
