-- ===== src/Utils/Prune/Laws.antt =====
-- What `pruneEmpty` of web/src/lib/utils.ts leaves.
use mc_gantry.Base.{ℕ, Bool, ◌∙◌, ap₂, ◌≡◌, refl, List, [], ◌∷◌, ◌++◌, Option, none, some, Text}
use mc_gantry.Base.Int.{ℤ}
use mc_gantry.Utils.Json.{
  Json, undef, null, bool, num, str, arr, obj, Items, nil, cons, Fields, end, field,
}
use mc_gantry.Utils.Prune.{
  prune_value, prune_items, prune_empty, arr_unless_empty, obj_unless_empty, cons_if, field_if,
}

-- Nothing empty at any depth: no `undefined`, no `null`, no empty text, array or object.
mutual
  pub data Full : Json → Type 0 where
    full_bool : (b : Bool) → Full (bool b)
    full_num : (n : ℤ) → Full (num n)
    full_str : (c : ℕ) (s : Text) → Full (str (c ∷ s))
    full_arr : (v : Json) (vs : Items) → FullItems (cons v vs) → Full (arr (cons v vs))
    full_obj :
        (k : Text) (v : Json) (fs : Fields) → FullFields (field k v fs) → Full (obj (field k v fs))

  pub data FullItems : Items → Type 0 where
    full_nil : FullItems nil
    full_cons : {v : Json} {vs : Items} → Full v → FullItems vs → FullItems (cons v vs)

  pub data FullFields : Fields → Type 0 where
    full_end : FullFields end
    full_field :
        {k : Text} {v : Json} {fs : Fields} → Full v → FullFields fs → FullFields (field k v fs)

abbrev FullOption : Option Json → Type 0
FullOption none = Unit
FullOption (some v) = Full v

full_arr_unless : (vs : Items) → FullItems vs → FullOption (arr_unless_empty vs)
full_arr_unless nil h = tt
full_arr_unless (cons v vs) h = full_arr v vs h

full_obj_unless : (fs : Fields) → FullFields fs → FullOption (obj_unless_empty fs)
full_obj_unless end h = tt
full_obj_unless (field k v fs) h = full_obj k v fs h

full_cons_if :
    (o : Option Json) (vs : Items) → FullOption o → FullItems vs → FullItems (cons_if o vs)
full_cons_if none vs h k = k
full_cons_if (some v) vs h k = full_cons h k

full_field_if :
    (k : Text) (o : Option Json) (fs : Fields)
    → FullOption o
    → FullFields fs
    → FullFields (field_if k o fs)
full_field_if k none fs h g = g
full_field_if k (some v) fs h g = full_field h g

mutual
  unfolding prune_value

  prune_value-Full : (v : Json) → FullOption (prune_value v)
  prune_value-Full undef = tt
  prune_value-Full null = tt
  prune_value-Full (str []) = tt
  prune_value-Full (str (c ∷ s)) = full_str c s
  prune_value-Full (bool b) = full_bool b
  prune_value-Full (num n) = full_num n
  prune_value-Full (arr vs) = full_arr_unless (prune_items vs) (prune_items-Full vs)
  prune_value-Full (obj fs) = full_obj_unless (prune_empty fs) (prune_fields-Full fs)

  prune_items-Full : (vs : Items) → FullItems (prune_items vs)
  prune_items-Full nil = full_nil
  prune_items-Full (cons v vs) =
      full_cons_if (prune_value v) (prune_items vs) (prune_value-Full v) (prune_items-Full vs)

  prune_fields-Full : (fs : Fields) → FullFields (prune_empty fs)
  prune_fields-Full end = full_end
  prune_fields-Full (field k v fs) =
      full_field_if k (prune_value v) (prune_empty fs) (prune_value-Full v) (prune_fields-Full fs)

mutual
  unfolding prune_value

  prune_value_of_Full : {v : Json} → Full v → prune_value v ≡ some v
  prune_value_of_Full (full_bool b) = refl
  prune_value_of_Full (full_num n) = refl
  prune_value_of_Full (full_str c s) = refl
  prune_value_of_Full (full_arr v vs h) = rw (prune_items_of_Full h)
  prune_value_of_Full (full_obj k v fs h) = rw (prune_fields_of_Full h)

  prune_items_of_Full : {vs : Items} → FullItems vs → prune_items vs ≡ vs
  prune_items_of_Full full_nil = refl
  prune_items_of_Full (full_cons h k) = rw (prune_value_of_Full h, prune_items_of_Full k)

  prune_fields_of_Full : {fs : Fields} → FullFields fs → prune_empty fs ≡ fs
  prune_fields_of_Full full_end = refl
  prune_fields_of_Full (full_field h k) = rw (prune_value_of_Full h, prune_fields_of_Full k)

-- What `pruneEmpty` returns holds nothing empty at any depth.
pub prune_empty-Full : (fs : Fields) → FullFields (prune_empty fs)
prune_empty-Full fs = prune_fields-Full fs

-- Pruning twice is pruning once.
pub prune_empty-idempotent : (fs : Fields) → prune_empty (prune_empty fs) ≡ prune_empty fs
prune_empty-idempotent fs = prune_fields_of_Full (prune_fields-Full fs)

-- The contents of a value: its numbers, truth values and texts that are not empty, in order, each
-- with the keys that lead to it.
mutual
  pub contents : List Text → Json → List (List Text × Json)
  contents p undef = []
  contents p null = []
  contents p (str []) = []
  contents p (str (c ∷ s)) = (p, str (c ∷ s)) ∷ []
  contents p (bool b) = (p, bool b) ∷ []
  contents p (num n) = (p, num n) ∷ []
  contents p (arr vs) = contents_items p vs
  contents p (obj fs) = contents_fields p fs

  pub contents_items : List Text → Items → List (List Text × Json)
  contents_items p nil = []
  contents_items p (cons v vs) = contents p v ++ contents_items p vs

  pub contents_fields : List Text → Fields → List (List Text × Json)
  contents_fields p end = []
  contents_fields p (field k v fs) = contents (p ++ k ∷ []) v ++ contents_fields p fs

abbrev contents_option : List Text → Option Json → List (List Text × Json)
contents_option p none = []
contents_option p (some v) = contents p v

contents_arr_unless :
    (p : List Text) (vs : Items) → contents_option p (arr_unless_empty vs) ≡ contents_items p vs
unfolding contents
contents_arr_unless p nil = refl
contents_arr_unless p (cons v vs) = refl

contents_obj_unless :
    (p : List Text) (fs : Fields) → contents_option p (obj_unless_empty fs) ≡ contents_fields p fs
unfolding contents
contents_obj_unless p end = refl
contents_obj_unless p (field k v fs) = refl

contents_cons_if :
    (p : List Text) (o : Option Json) (vs : Items)
    → contents_items p (cons_if o vs) ≡ contents_option p o ++ contents_items p vs
unfolding contents
contents_cons_if p none vs = refl
contents_cons_if p (some v) vs = refl

contents_field_if :
    (p : List Text) (k : Text) (o : Option Json) (fs : Fields)
    → contents_fields p (field_if k o fs) ≡ contents_option (p ++ k ∷ []) o ++ contents_fields p fs
unfolding contents
contents_field_if p k none fs = refl
contents_field_if p k (some v) fs = refl

mutual
  unfolding prune_value contents

  contents-prune_value :
      (p : List Text) (v : Json) → contents_option p (prune_value v) ≡ contents p v
  contents-prune_value p undef = refl
  contents-prune_value p null = refl
  contents-prune_value p (str []) = refl
  contents-prune_value p (str (c ∷ s)) = refl
  contents-prune_value p (bool b) = refl
  contents-prune_value p (num n) = refl
  contents-prune_value p (arr vs) =
      contents_arr_unless p (prune_items vs) ∙ contents-prune_items p vs
  contents-prune_value p (obj fs) =
      contents_obj_unless p (prune_empty fs) ∙ contents-prune_fields p fs

  contents-prune_items :
      (p : List Text) (vs : Items) → contents_items p (prune_items vs) ≡ contents_items p vs
  contents-prune_items p nil = refl
  contents-prune_items p (cons v vs) =
      contents_cons_if p (prune_value v) (prune_items vs)
      ∙ ap₂ (λ a b. a ++ b) (contents-prune_value p v) (contents-prune_items p vs)

  contents-prune_fields :
      (p : List Text) (fs : Fields) → contents_fields p (prune_empty fs) ≡ contents_fields p fs
  contents-prune_fields p end = refl
  contents-prune_fields p (field k v fs) =
      contents_field_if p k (prune_value v) (prune_empty fs)
      ∙ ap₂ (λ a b. a ++ b) (contents-prune_value (p ++ k ∷ []) v) (contents-prune_fields p fs)

-- Pruning keeps every number, truth value (`0` and `false` too) and text that is not empty, in
-- order and under the same keys.
pub contents-prune_empty :
    (fs : Fields) → contents_fields [] (prune_empty fs) ≡ contents_fields [] fs
contents-prune_empty fs = contents-prune_fields [] fs
