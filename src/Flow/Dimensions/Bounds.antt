-- ===== src/Flow/Dimensions/Bounds.antt =====
-- Every node has a size that can be drawn: web/src/lib/flow.tsx.
use mc_gantry.Base.{ℕ, zero, suc, ◌≤◌, ◌≡◌, max, Option, some, arith, Text, length, trim}
use mc_gantry.Base.Int.{pos}
use mc_gantry.Flow.Types.{
  FlowNode, entity, mock, FlowMockShape, box, pill, diamond, note, node_width, node_height,
}
use mc_gantry.Flow.Looks.{node_shape, node_subtitle}
use mc_gantry.Flow.Dimensions.{
  clamp, Size, asked_height, plain_size, diamond_size, sized, text_or, node_name, least_text,
  get_node_dimensions,
}

pub record IsDrawable (node : FlowNode) (size : Size) : Type 0 where
  pub wide : 128 ≤ size.width
  pub narrow : size.width ≤ 440
  pub tall : 84 ≤ size.height
  pub asked : asked_height (node_height node) ≤ size.height

module _ (node : FlowNode) (title subtitle : Text) (longest : ℕ) where
  plain_size-IsDrawable :
      (start threshold step base_max lo inset least_height above title_line below : ℕ)
      → 128 ≤ lo
      → lo ≤ 440
      → 84 ≤ least_height
      → IsDrawable node (
          plain_size node title subtitle longest start threshold step base_max lo inset least_height
            above title_line below)
  unfolding plain_size clamp
  plain_size-IsDrawable start threshold step base_max lo inset least_height above title_line below h
        k l =
      omega arith

  diamond_size-IsDrawable :
      (start threshold lo share start_height subtitle_line most_height : ℕ)
      → 128 ≤ lo
      → lo ≤ 440
      → 84 ≤ start_height
      → 84 ≤ most_height
      → IsDrawable node (
          diamond_size node title subtitle longest start threshold lo share start_height
            subtitle_line most_height)
  unfolding diamond_size clamp
  diamond_size-IsDrawable start threshold lo share start_height subtitle_line most_height h k l m =
      omega arith

  sized-IsDrawable :
      (shape : FlowMockShape) → IsDrawable node (sized node title subtitle longest shape node)
  unfolding sized
  sized-IsDrawable shape = pick node shape
    where
      pick :
          (n : FlowNode) (shape : FlowMockShape)
          → IsDrawable node (sized node title subtitle longest shape n)
      pick (entity n) pill =
          plain_size-IsDrawable 220 14 8 440 148 68 104 58 20 18 (omega arith) (omega arith)
            (omega arith)
      pick (mock n) pill =
          plain_size-IsDrawable 188 12 7 340 132 44 84 48 18 18 (omega arith) (omega arith)
            (omega arith)
      pick (entity n) diamond =
          diamond_size-IsDrawable 292 11 212 44 136 18 280 (omega arith) (omega arith) (omega arith)
            (omega arith)
      pick (mock n) diamond =
          diamond_size-IsDrawable 272 10 196 42 120 20 220 (omega arith) (omega arith) (omega arith)
            (omega arith)
      pick (entity n) note =
          plain_size-IsDrawable 220 14 7 440 156 62 110 64 20 20 (omega arith) (omega arith)
            (omega arith)
      pick (mock n) note =
          plain_size-IsDrawable 196 14 7 360 148 52 92 56 18 24 (omega arith) (omega arith)
            (omega arith)
      pick (entity n) box =
          plain_size-IsDrawable 216 14 7 440 144 58 104 58 20 18 (omega arith) (omega arith)
            (omega arith)
      pick (mock n) box =
          plain_size-IsDrawable 180 14 6 320 128 36 92 48 18 18 (omega arith) (omega arith)
            (omega arith)

-- Whatever the node's own width and height and whatever the texts, a node is between 128 and 440
-- wide, at least 84 high, and at least as high as its own height asks for.
pub get_node_dimensions-IsDrawable :
    (node : FlowNode) (title subtitle : Option Text)
    → IsDrawable node (get_node_dimensions node title subtitle)
unfolding get_node_dimensions
get_node_dimensions-IsDrawable node title subtitle =
    let t = trim (text_or title (node_name node)) in
    let s = trim (text_or subtitle (node_subtitle node)) in
    sized-IsDrawable node t s (max (max (length t) (length s)) (least_text node)) (node_shape node)

-- A width set by hand that lies between 212 and 440 is the node's width, for every shape.
pub get_node_dimensions-width :
    (node : FlowNode) (title subtitle : Option Text) (w : ℕ)
    → node_width node ≡ some (pos w)
    → 212 ≤ w
    → w ≤ 440
    → (get_node_dimensions node title subtitle).width ≡ w
unfolding get_node_dimensions sized plain_size diamond_size clamp node_shape
get_node_dimensions-width node title subtitle zero e h k = absurd (omega arith)
get_node_dimensions-width (entity n) title subtitle (suc w) e h k = ground arith
get_node_dimensions-width (mock n) title subtitle (suc w) e h k = ground arith
