-- ===== src/Flow/Looks.antt =====
-- Colours, shapes and labels of nodes and edges: web/src/lib/flow.tsx and `resolveEdgeColor` of
-- web/src/lib/flow-export.ts. The table of colours is read at its own keys; the names that every
-- JavaScript object inherits are no kinds.
mod Tests
use mc_gantry.Base.{
  ℕ, ◌≡◌, refl, sym, ◌≢◌, Bool, true, false, ◌&&◌, ◌||◌, List, [], ◌∷◌, ◌++◌, Option, none, some,
  ◌==◌, leb, arith, if◌then◌else◌, Text, codes, or_text, text_eq, text_eq_iff, all, length,
  Option-cases, inl, inr,
}
use mc_gantry.Flow.Types.{
  FlowNode, entity, mock, FlowMockShape, box, pill, diamond, note, FlowEntityNode,
}
use mc_gantry.Flow.Health.{Status, healthy, unhealthy, unknown}

abbrev pub flow_edge_stroke : Text
flow_edge_stroke = codes "#64748B"

abbrev pub flow_edge_healthy_stroke : Text
flow_edge_healthy_stroke = codes "#10B981"

abbrev pub flow_edge_unhealthy_stroke : Text
flow_edge_unhealthy_stroke = codes "var(--gantry-danger)"

unfoldable pub edge_stroke_for_health : Option Status → Text
edge_stroke_for_health (some healthy) = flow_edge_healthy_stroke
edge_stroke_for_health (some unhealthy) = flow_edge_unhealthy_stroke
edge_stroke_for_health other = flow_edge_stroke

-- `FLOW_KIND_COLORS[kind] || '#64748B'`
unfoldable pub kind_color : Text → Text
unfolding text_eq
kind_color kind =
    if text_eq kind (codes "Service")
    then codes "#3B82F6"
    else if text_eq kind (codes "API")
    then codes "#10B981"
    else if text_eq kind (codes "Infrastructure")
    then codes "#F59E0B"
    else if text_eq kind (codes "Team")
    then codes "#8B5CF6"
    else if text_eq kind (codes "Environment")
    then codes "#06B6D4"
    else if text_eq kind (codes "Documentation")
    then codes "#EC4899"
    else if text_eq kind (codes "Action")
    then codes "#EF4444"
    else if text_eq kind (codes "Flow")
    then codes "#0EA5E9"
    else codes "#64748B"

abbrev color_or_default : Option Text → Text
color_or_default none = codes "#64748B"
color_or_default (some color) = or_text color (codes "#64748B")

unfoldable pub node_color : FlowNode → Text
unfolding kind_color
node_color (mock n) = color_or_default n.color
node_color (entity n) = kind_color n.entity_ref.kind

abbrev shape_or_box : Option FlowMockShape → FlowMockShape
shape_or_box none = box
shape_or_box (some shape) = shape

unfoldable pub node_shape : FlowNode → FlowMockShape
node_shape (mock n) = n.shape
node_shape (entity n) = shape_or_box n.shape

abbrev text_or_empty : Option Text → Text
text_or_empty none = []
text_or_empty (some s) = s

unfoldable pub node_subtitle : FlowNode → Text
node_subtitle (mock n) = text_or_empty n.subtitle
node_subtitle (entity n) = n.entity_ref.name

unfoldable pub mock_shape_label : FlowMockShape → Text
mock_shape_label pill = codes "Pill"
mock_shape_label diamond = codes "Diamond"
mock_shape_label note = codes "Note"
mock_shape_label box = codes "Box"

abbrev badge_or : Option Text → Text → Text
badge_or none fallback = fallback
badge_or (some badge) fallback = badge

unfoldable pub node_badge : FlowNode → Text
unfolding mock_shape_label
node_badge (mock n) = badge_or n.badge (codes "Mock " ++ mock_shape_label n.shape)
node_badge (entity n) = badge_or n.badge n.entity_ref.kind

-- `[0-9a-fA-F]`
unfoldable pub is_hex : ℕ → Bool
is_hex c = (leb b'0' c && leb c b'9') || (leb b'a' c && leb c b'f') || (leb b'A' c && leb c b'F')

-- `/^#[0-9a-fA-F]{6}$/.test(color)`
unfoldable pub is_hex_color : Text → Bool
unfolding is_hex all
is_hex_color [] = false
is_hex_color (c ∷ s) = c == b'#' && length s == 6 && all is_hex s

unfoldable pub with_alpha : Text → Text → Text
unfolding is_hex_color
with_alpha color alpha = if is_hex_color color then color ++ alpha else color

unfoldable pub mock_fold_fill : Text → Text
unfolding with_alpha
mock_fold_fill color = with_alpha color (codes "22")

-- `resolveEdgeColor`; of the palette only the colour for danger is used.
unfoldable pub resolve_edge_color : Text → Text → Text
unfolding text_eq
resolve_edge_color color danger =
    if text_eq color flow_edge_unhealthy_stroke || text_eq color (codes "var(--gantry-danger)")
    then danger
    else color

kind_color-IsHex : (kind : Text) → is_hex_color (kind_color kind) ≡ true
unfolding is_hex_color
kind_color-IsHex kind = unfold is_hex_color kind_color in ground arith

-- The colour of an entity node always takes an alpha: each of the kinds' colours, and the one for
-- other kinds, has the form `#rrggbb`.
pub with_alpha-entity :
    (n : FlowEntityNode) (alpha : Text)
    → with_alpha (node_color (entity n)) alpha ≡ node_color (entity n) ++ alpha
unfolding with_alpha node_color
with_alpha-entity n alpha = unfold is_hex_color in rw (kind_color-IsHex n.entity_ref.kind)

-- An exported edge has the export's colour for danger exactly when its health is unhealthy, if
-- that colour is none of the two fixed strokes; a stroke that stands for a style sheet's variable
-- never reaches the document.
pub resolve_edge_color-danger :
    (health : Option Status) (danger : Text)
    → danger ≢ flow_edge_stroke
    → danger ≢ flow_edge_healthy_stroke
    → (resolve_edge_color (edge_stroke_for_health health) danger ≡ danger → health ≡ some unhealthy)
      × (health ≡ some unhealthy
          → resolve_edge_color (edge_stroke_for_health health) danger ≡ danger)
unfolding resolve_edge_color edge_stroke_for_health
resolve_edge_color-danger none danger h k = (λ e. absurd (h (sym e)), λ e. cc)
resolve_edge_color-danger (some healthy) danger h k = (λ e. absurd (k (sym e)), λ e. cc)
resolve_edge_color-danger (some unhealthy) danger h k = (λ e. refl, λ e. refl)
resolve_edge_color-danger (some unknown) danger h k = (λ e. absurd (h (sym e)), λ e. cc)
