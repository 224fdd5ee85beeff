-- ===== src/Api/Tests.antt =====
-- Requests of concrete calls. The encoder here leaves out what would end a segment.
use mc_gantry.Base.{
  ℕ, ◌≡◌, refl, Bool, inl, inr, not, ◌&&◌, ◌==◌, List, [], ◌∷◌, ◌++◌, Option, none, some, Text,
  codes, All, Bool-cases, filter,
}
use mc_gantry.Utils.Json.{undef, end}
use mc_gantry.Utils.Path.Segments.{IsInSegment, segments}
use mc_gantry.Export.Bytes.{decimal}
use mc_gantry.Api.Entities.{
  get_entity, update_entity, delete_entity, get_entity_graph, list_entity_documentation,
  update_flow, delete_flow,
}
use mc_gantry.Api.Runs.{list_all_action_runs}
use mc_gantry.Api.Routes.{seg, get_entity-segments}

abbrev is_safe : ℕ → Bool
is_safe c = not (c == 47) && not (c == 63) && not (c == 35)

abbrev encode : Text → Text
encode = filter is_safe

encode-IsInSegment : (s : Text) → All IsInSegment (encode s)
unfolding filter
encode-IsInSegment [] = tt
encode-IsInSegment (c ∷ s) = elim (Bool-cases (is_safe c)) [
  | inl e ↦ rw e (e, encode-IsInSegment s)
  | inr e ↦ rw e (encode-IsInSegment s)
]

abbrev form : List (Text × Text) → Text
form [] = []
form ((k, v) ∷ []) = k ++ (codes "=" ++ v)
form ((k, v) ∷ next ∷ pairs) = k ++ (codes "=" ++ v) ++ (codes "&" ++ form (next ∷ pairs))

request_tests :
    ((list_all_action_runs encode form (some 20) (some 0)).path ≡ codes "/actions/runs?limit=20")
    × ((list_all_action_runs encode form none (some 40)).path ≡ codes "/actions/runs?offset=40")
    × ((list_all_action_runs encode form none none).path ≡ codes "/actions/runs")
unfolding list_all_action_runs decimal
request_tests = (refl, refl, refl)

abbrev kind : Text
kind = codes "Service"

abbrev name : Text
name = codes "a/b"

abbrev eu : Option Text
eu = some (codes "eu")

get_entity-segments_example :
    (segments [] (get_entity encode form kind name eu).path
      ≡ [] ∷ codes "entities" ∷ seg encode kind ∷ seg encode name ∷ [])
    × ((update_entity encode form kind name undef eu).path
        ≡ (get_entity encode form kind name eu).path)
    × ((delete_entity encode form kind name eu).path ≡ (get_entity encode form kind name eu).path)
    × (segments [] (get_entity_graph encode form kind name eu).path
        ≡ [] ∷ codes "graph" ∷ seg encode kind ∷ seg encode name ∷ [])
    × (segments [] (list_entity_documentation encode form kind name eu).path
        ≡ [] ∷ codes "entities" ∷ seg encode kind ∷ seg encode name ∷ codes "documentation" ∷ [])
    × (segments [] (update_flow encode form name end undef eu).path
        ≡ [] ∷ codes "plugins" ∷ codes "flow" ∷ codes "entities" ∷ seg encode name ∷ [])
    × (segments [] (delete_flow encode form name eu).path
        ≡ [] ∷ codes "plugins" ∷ codes "flow" ∷ codes "entities" ∷ seg encode name ∷ [])
get_entity-segments_example =
    get_entity-segments encode form encode-IsInSegment kind name eu undef end
