-- ===== src/Utils/Prune.antt =====
-- `pruneEmpty` and `pruneValue` of web/src/lib/utils.ts; `none` is `undefined`. The keys of an object
-- are distinct, so each assignment of `pruneEmpty` appends.
pub mod Laws
mod Tests
use mc_gantry.Base.{[], ◌∷◌, Option, none, some, Text}
use mc_gantry.Utils.Json.{
  Json, undef, null, bool, num, str, arr, obj, Items, nil, cons, Fields, end, field,
}

-- An array or object that nothing is left of is left out.
abbrev pub arr_unless_empty : Items → Option Json
arr_unless_empty nil = none
arr_unless_empty (cons v vs) = some (arr (cons v vs))

abbrev pub obj_unless_empty : Fields → Option Json
obj_unless_empty end = none
obj_unless_empty (field k v fs) = some (obj (field k v fs))

abbrev pub cons_if : Option Json → Items → Items
cons_if none vs = vs
cons_if (some v) vs = cons v vs

abbrev pub field_if : Text → Option Json → Fields → Fields
field_if k none fs = fs
field_if k (some v) fs = field k v fs

unfoldable mutual
  pub prune_value : Json → Option Json
  prune_value undef = none
  prune_value null = none
  prune_value (str []) = none
  prune_value (str (c ∷ s)) = some (str (c ∷ s))
  prune_value (bool b) = some (bool b)
  prune_value (num n) = some (num n)
  prune_value (arr vs) = arr_unless_empty (prune_items vs)
  prune_value (obj fs) = obj_unless_empty (prune_empty fs)

  pub prune_items : Items → Items
  prune_items nil = nil
  prune_items (cons v vs) = cons_if (prune_value v) (prune_items vs)

  pub prune_empty : Fields → Fields
  prune_empty end = end
  prune_empty (field k v fs) = field_if k (prune_value v) (prune_empty fs)
