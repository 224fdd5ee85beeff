-- ===== src/Utils/Defaults/Tests.antt =====
-- Defaults at a concrete schema.
use mc_gantry.Base.{◌≡◌, refl, none, some, codes, text_eq, text_ne}
use mc_gantry.Base.Int.{pos}
use mc_gantry.Utils.Json.{Json, num, str, obj, end, field, get_field, set_field}
use mc_gantry.Utils.Defaults.{
  Schema, object, value, Props, done, prop, no_items, apply_schema_defaults,
}
use mc_gantry.Utils.Defaults.Laws.{HasDistinctKeys}
use mc_gantry.Utils.Defaults.Stable.{
  AreRegular, regular_object, regular_value, regular_done, regular_prop, regular_none,
  apply_schema_defaults-idempotent,
}

abbrev port : Schema
port = value (some (num (pos 8080))) no_items

abbrev service : Props
service =
    prop (codes "name") (value none no_items)
      (prop (codes "http") (object none (prop (codes "port") port done)) done)

abbrev given : Json
given = obj (field (codes "name") (str (codes "pay")) end)

defaults_test :
    apply_schema_defaults service given
    ≡ field
        (codes "name")
        (str (codes "pay"))
        (field (codes "http") (obj (field (codes "port") (num (pos 8080)) end)) end)
unfolding apply_schema_defaults get_field set_field text_eq
defaults_test = refl

service-HasDistinctKeys : HasDistinctKeys service
unfolding text_eq
service-HasDistinctKeys = ((text_ne _ _ refl, tt), (tt, tt))

service-AreRegular : AreRegular service
service-AreRegular = regular_prop (codes "name") (regular_value none regular_none) (
    regular_prop (codes "http")
      (regular_object none (tt, tt)
        (regular_prop (codes "port") (regular_value (some (num (pos 8080))) regular_none)
          regular_done))
      regular_done)

apply_schema_defaults-idempotent_example :
    apply_schema_defaults service (obj (apply_schema_defaults service given))
    ≡ apply_schema_defaults service given
apply_schema_defaults-idempotent_example =
    apply_schema_defaults-idempotent service given service-HasDistinctKeys service-AreRegular
