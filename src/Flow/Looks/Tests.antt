-- ===== src/Flow/Looks/Tests.antt =====
-- Colours at concrete inputs.
use mc_gantry.Base.{◌≡◌, refl, none, codes}
use mc_gantry.Base.Int.{pos}
use mc_gantry.Flow.Types.{FlowEntityNode, entity}
use mc_gantry.Flow.Looks.{with_alpha, node_color, node_badge}

abbrev api : FlowEntityNode
api = record {
  id = codes "n1";
  entity_ref = record { kind = codes "API"; name = codes "pay"; namespace = none };
  shape = none;
  width = none;
  height = none;
  position = record { x = pos 0; y = pos 0 };
  locked = none;
  z_index = none;
  parent_id = none;
  badge = none;
}

looks_tests :
    (with_alpha (node_color (entity api)) (codes "66") ≡ codes "#10B98166")
    × (with_alpha (codes "red") (codes "66") ≡ codes "red")
    × (node_badge (entity api) ≡ codes "API")
unfolding with_alpha node_color node_badge
looks_tests = (refl, refl, refl)
