-- ===== src/Utils/EntityName/Tests.antt =====
-- The entity names of web/src/lib/utils.ts at concrete inputs.
use mc_gantry.Base.{◌≡◌, refl, true, false, map, [], arith, Text, codes, ascii_lower}
use mc_gantry.Utils.EntityName.{
  is_valid_entity_name, sanitize_entity_name_input, sanitize_entity_name,
}
use mc_gantry.Utils.EntityName.Valid.{sanitize-is_valid}
use mc_gantry.Utils.EntityName.Stable.{LowersAscii, sanitize-idempotent, sanitize-eq_self}

abbrev lower : Text → Text
lower = map ascii_lower

lower-LowersAscii : LowersAscii lower
lower-LowersAscii s h = refl

sanitize_tests :
    (sanitize_entity_name lower (codes "  My Service (v2)! ") ≡ codes "my-service-v2")
    × (sanitize_entity_name_input lower (codes "My API ") ≡ codes "my-api-")
    × (sanitize_entity_name_input lower (codes "My API!") ≡ codes "my-api")
    × (sanitize_entity_name lower (codes "-.-") ≡ [])
    × (is_valid_entity_name (codes "a..b") ≡ true)
    × (is_valid_entity_name (codes "a-") ≡ false)
unfolding sanitize_entity_name sanitize_entity_name_input is_valid_entity_name ascii_lower
sanitize_tests = (refl, refl, refl, refl, refl, refl)

sample_name : sanitize_entity_name lower (codes "Pay API") ≡ codes "pay-api"
unfolding sanitize_entity_name ascii_lower
sample_name = refl

sanitize-is_valid_example :
    is_valid_entity_name (sanitize_entity_name lower (codes "Pay API")) ≡ true
sanitize-is_valid_example =
    sanitize-is_valid lower (codes "Pay API") (λ e. cc sample_name) (rw sample_name (omega arith))

sanitize-idempotent_example :
    sanitize_entity_name lower (sanitize_entity_name lower (codes "Pay API"))
    ≡ sanitize_entity_name lower (codes "Pay API")
sanitize-idempotent_example = sanitize-idempotent lower lower-LowersAscii (codes "Pay API")

valid_sample : is_valid_entity_name (codes "a-b") ≡ true
unfolding is_valid_entity_name
valid_sample = refl

sanitize-eq_self_example : sanitize_entity_name lower (codes "a-b") ≡ codes "a-b"
sanitize-eq_self_example =
    sanitize-eq_self lower lower-LowersAscii (codes "a-b") valid_sample (ground arith)
