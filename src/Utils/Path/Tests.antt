-- ===== src/Utils/Path/Tests.antt =====
-- Paths of concrete entities. The encoder here leaves out what would end a segment, and leaves the
-- rest as it is.
use mc_gantry.Base.{
  ℕ, ◌≡◌, refl, Bool, inl, inr, not, ◌&&◌, ◌==◌, [], ◌∷◌, some, Text, text_eq, codes, All,
  Bool-cases, filter,
}
use mc_gantry.Utils.Path.{catalog_entity_path}
use mc_gantry.Utils.Path.Segments.{IsInSegment}

abbrev is_safe : ℕ → Bool
is_safe c = not (c == 47) && not (c == 63) && not (c == 35)

abbrev encode : Text → Text
encode = filter is_safe

encode-IsInSegment : (s : Text) → All IsInSegment (encode s)
unfolding filter
encode-IsInSegment [] = tt
encode-IsInSegment (c ∷ s) = elim (Bool-cases (is_safe c)) [
  | inl e ↦ rw e (e, encode-IsInSegment s)
  | inr e ↦ rw e (encode-IsInSegment s)
]

path_tests :
    (catalog_entity_path encode (codes "Service") (codes "pay(1)") (some (codes "eu"))
      ≡ codes "/catalog/Service/pay%281%29?namespace=eu")
    × (catalog_entity_path encode (codes "Service") (codes "pay") (some (codes "default"))
        ≡ codes "/catalog/Service/pay")
unfolding catalog_entity_path filter text_eq
path_tests = (refl, refl)
