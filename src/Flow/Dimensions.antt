-- ===== src/Flow/Dimensions.antt =====
-- The size of a node: `estimateWrappedLines` and `getNodeDimensions` of web/src/lib/flow.tsx.
-- Widths and heights are whole numbers; the share of a diamond's width that
-- takes text, 0.44 or 0.42 of it, is computed in hundredths.
pub mod Bounds
mod Tests
use mc_gantry.Base.{
  ℕ, zero, suc, ◌+◌, ◌-◌, ◌*◌, ◌/◌, ◌≡◌, min, max, Bool, true, false, List, [], ◌∷◌, Option, none,
  some, ltb, if◌then◌else◌, Text, length, is_empty, trim, split_lines,
}
use mc_gantry.Base.Int.{ℤ, pos, negsuc, pos_part}
use mc_gantry.Flow.Types.{
  FlowNode, entity, mock, FlowMockShape, box, pill, diamond, note, node_width, node_height,
}
use mc_gantry.Flow.Looks.{node_shape, node_subtitle}

abbrev pub max_node_width : ℕ
max_node_width = 440

abbrev pub min_node_height : ℕ
min_node_height = 92

unfoldable pub clamp : ℕ → ℕ → ℕ → ℕ
clamp value lo hi = min hi (max lo value)

-- `Math.ceil(length / chars)`
abbrev ceil_div : ℕ → ℕ → ℕ
ceil_div length chars = (length + chars - 1) / chars

lines_of : ℕ → List Text → ℕ
lines_of chars [] = 0
lines_of chars (line ∷ lines) =
    max 1 (ceil_div (length (trim line)) (max 1 chars)) + lines_of chars lines

unfoldable pub estimate_wrapped_lines : Text → ℕ → ℕ
unfolding lines_of trim split_lines
estimate_wrapped_lines text chars_per_line =
    if is_empty (trim text) then 0 else lines_of chars_per_line (split_lines [] text)

pub record Size : Type 0 where
  pub width : ℕ
  pub height : ℕ

abbrev text_or : Option Text → Text → Text
text_or none fallback = fallback
text_or (some s) fallback = s

abbrev node_name : FlowNode → Text
node_name (entity n) = n.entity_ref.name
node_name (mock n) = n.label

-- `typeof node.width === 'number' && node.width > 0 ? node.width : null`, then `?? base`
abbrev manual_or : Option ℤ → ℕ → ℕ
manual_or none base = base
manual_or (some (pos (suc n))) base = suc n
manual_or (some w) base = base

-- `node.height || 0`, under a maximum with a positive number: a negative height is as good as 0.
abbrev asked_height : Option ℤ → ℕ
asked_height none = 0
asked_height (some h) = pos_part h

-- Pills, notes and boxes: the width grows with the text between two bounds, and the lines that
-- fit decide the height.
module _ (node : FlowNode) (title subtitle : Text) (longest : ℕ) where
  plain_size :
      (start threshold step base_max lo inset least_height above title_line below : ℕ) → Size
  unfolding clamp estimate_wrapped_lines
  plain_size start threshold step base_max lo inset least_height above title_line below =
      let base_width = clamp (start + (longest - threshold) * step) start base_max in
      let width = clamp (manual_or (node_width node) base_width) lo max_node_width in
      let chars = max 8 ((width - inset) / 8) in
      let title_lines = estimate_wrapped_lines title chars in
      let subtitle_lines = estimate_wrapped_lines subtitle chars in
      let base_height =
        max least_height (above + title_lines * title_line + subtitle_lines * 16 + below) in
      record { width = width; height = max (asked_height (node_height node)) base_height }

  -- Diamonds: `share` hundredths of the width take text, and the height is bounded above too.
  diamond_size : (start threshold lo share start_height subtitle_line most_height : ℕ) → Size
  unfolding clamp estimate_wrapped_lines
  diamond_size start threshold lo share start_height subtitle_line most_height =
      let base_width = clamp (start + (longest - threshold) * 10) start max_node_width in
      let width = clamp (manual_or (node_width node) base_width) lo max_node_width in
      let chars = max 7 (width * share / 800) in
      let title_lines = estimate_wrapped_lines title chars in
      let subtitle_lines = estimate_wrapped_lines subtitle chars in
      let base_height =
        clamp (start_height + (title_lines - 1) * 22 + subtitle_lines * subtitle_line) start_height
          most_height in
      record { width = width; height = max (asked_height (node_height node)) base_height }

  -- The two `switch` statements, for an entity node and for a mock node.
  sized : FlowMockShape → FlowNode → Size
  unfolding plain_size diamond_size
  sized pill (entity n) = plain_size 220 14 8 max_node_width 148 68 104 58 20 18
  sized pill (mock n) = plain_size 188 12 7 340 132 44 84 48 18 18
  sized diamond (entity n) = diamond_size 292 11 212 44 136 18 280
  sized diamond (mock n) = diamond_size 272 10 196 42 120 20 220
  sized note (entity n) = plain_size 220 14 7 max_node_width 156 62 110 64 20 20
  sized note (mock n) = plain_size 196 14 7 360 148 52 min_node_height 56 18 24
  sized box (entity n) = plain_size 216 14 7 max_node_width 144 58 104 58 20 18
  sized box (mock n) = plain_size 180 14 6 320 128 36 min_node_height 48 18 18

abbrev least_text : FlowNode → ℕ
least_text (entity n) = 16
least_text (mock n) = 12

-- The title and subtitle are those of the node where the caller gives none.
unfoldable pub get_node_dimensions : FlowNode → Option Text → Option Text → Size
unfolding sized node_shape node_subtitle trim
get_node_dimensions node title subtitle =
    let t = trim (text_or title (node_name node)) in
    let s = trim (text_or subtitle (node_subtitle node)) in
    let longest = max (max (length t) (length s)) (least_text node) in
    sized node t s longest (node_shape node) node
