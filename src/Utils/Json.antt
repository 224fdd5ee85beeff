-- ===== src/Utils/Json.antt =====
-- The values that web/src/lib/utils.ts walks through (`any` in the source): those of JSON, with
-- `undefined`. A number is a whole number. The fields of an object stand in their order, and each
-- key stands once.
use mc_gantry.Base.{
  ◌≡◌, refl, ◌≢◌, Bool, true, false, if◌then◌else◌, Text, text_eq, text_eq_iff, arith,
}
use mc_gantry.Base.Int.{ℤ}

mutual
  pub data Json : Type 0 where
    undef null : Json
    bool : Bool → Json
    num : ℤ → Json
    str : Text → Json
    arr : Items → Json
    obj : Fields → Json

  pub data Items : Type 0 where
    nil : Items
    cons : Json → Items → Items

  pub data Fields : Type 0 where
    end : Fields
    field : Text → Json → Fields → Fields

-- `o[k]`
unfoldable pub get_field : Text → Fields → Json
get_field k end = undef
get_field k (field j v fs) = if text_eq j k then v else get_field k fs

-- `o[k] = v`: a key that is there keeps its place.
unfoldable pub set_field : Text → Json → Fields → Fields
set_field k v end = field k v end
set_field k v (field j w fs) = if text_eq j k then field j v fs else field j w (set_field k v fs)

pub get-set_field :
    (k j : Text) (v : Json) (fs : Fields)
    → get_field j (set_field k v fs) ≡ (if text_eq k j then v else get_field j fs)
unfolding get_field set_field
get-set_field k j v end = refl
get-set_field k j v (field i w fs) =
    ground (arith, text_eq_iff k j, text_eq_iff i k, text_eq_iff i j, get-set_field k j v fs)

-- To write what is there already changes nothing.
pub set-get_field :
    (k : Text) (fs : Fields) → get_field k fs ≢ undef → set_field k (get_field k fs) fs ≡ fs
unfolding get_field set_field
set-get_field k end h = absurd (h refl)
set-get_field k (field j v fs) h = ground (arith, set-get_field k fs)

abbrev pub is_undef : Json → Bool
is_undef undef = true
is_undef v = false
