-- ===== src/LutBridge/Limit.antt =====
-- `limit_component` and `lut_bridge_limit_packed_step` of board/src/lut_bridge.c.
use hispark_soc_china.Prelude.{
  ℕ, ◌+◌, ◌-◌, ◌*◌, ◌/◌, ◌%◌, ◌^◌, Option, none, some, List, [], ◌∷◌, ltb, ◌==◌, ◌||◌, not,
  if◌then◌else◌,
}

-- PIPELINE_ISP_CLUT_NODE_COUNT, LUT_MAX
abbrev pub clut_node_count : ℕ
clut_node_count = 5508

abbrev pub lut_max : ℕ
lut_max = 1023

-- The operands are below 1024 and the step below 1024, so no `unsigned` sum wraps, and the
-- difference is taken only where it is not negative.
unfoldable pub limit_component : ℕ → ℕ → ℕ → ℕ
limit_component previous candidate max_step =
    if ltb (previous + max_step) candidate
    then previous + max_step
    else if ltb (candidate + max_step) previous
    then previous - max_step
    else candidate

-- The three channels of a packed node: `(w >> 20) & LUT_MAX` and so on.
abbrev pub red : ℕ → ℕ
red w = w / 2 ^ 20 % 1024

abbrev pub green : ℕ → ℕ
green w = w / 2 ^ 10 % 1024

abbrev pub blue : ℕ → ℕ
blue w = w % 1024

-- `(r << 20) | (g << 10) | b`, where each channel is below 1024: the three do not overlap.
abbrev pub pack_channels : ℕ → ℕ → ℕ → ℕ
pack_channels r g b = r * 2 ^ 20 + g * 2 ^ 10 + b

-- One round of the loop.
unfoldable pub limit_word : ℕ → ℕ → ℕ → ℕ
limit_word max_step previous candidate =
    pack_channels (limit_component (red previous) (red candidate) max_step)
      (limit_component (green previous) (green candidate) max_step)
      (limit_component (blue previous) (blue candidate) max_step)

-- The loop, over the arrays as far as both go.
unfoldable pub limit_words : ℕ → List ℕ → List ℕ → List ℕ
limit_words max_step (p ∷ ps) (c ∷ cs) = limit_word max_step p c ∷ limit_words max_step ps cs
limit_words max_step _ _ = []

-- `none` is the answer -1; NULL pointers are `none` too. `count` is the length of both arrays.
unfoldable pub limit_packed_step : Option (List ℕ) → Option (List ℕ) → ℕ → ℕ → Option (List ℕ)
limit_packed_step none candidate count max_step = none
limit_packed_step (some previous) none count max_step = none
limit_packed_step (some previous) (some candidate) count max_step =
    if not (count == clut_node_count) || (max_step == 0 || ltb lut_max max_step)
    then none
    else some (limit_words max_step previous candidate)

-- The distance of two channel values.
abbrev pub gap : ℕ → ℕ → ℕ
gap a b = (a - b) + (b - a)
