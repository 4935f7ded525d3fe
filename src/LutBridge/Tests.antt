-- ===== src/LutBridge/Tests.antt =====
-- Runs of the models of board/src/lut_bridge.c.
use hispark_soc_china.Prelude.{ℕ, ◌≡◌, refl, none, some, List, [], ◌∷◌, length, replicate, arith}
use hispark_soc_china.Prelude.{true, zero, suc}
use hispark_soc_china.Floats.Thousandths.{thousandths}
use hispark_soc_china.LutBridge.Pack.{Node, nodes, cubic_index, lut_float_count}
use hispark_soc_china.LutBridge.Bridge.{
  lut_bridge_default_cfg, interleaved, cfg_ok, value_at, sound, sound_nodes, lut_bridge_pack,
  lut_bridge_pack_total,
}
use hispark_soc_china.LutBridge.Identity.{make_identity}
use hispark_soc_china.LutBridge.Cube.{own_sixteenths}
use hispark_soc_china.LutBridge.Unchanged.{SixteenthLaws, make_identity-interleaved}
use hispark_soc_china.LutBridge.Limit.{
  limit_packed_step, limit_component, limit_word, clut_node_count, pack_channels,
}
use hispark_soc_china.LutBridge.Approach.{
  EachApproaches, limit_packed_step-EachApproaches, follow, follow-reaches, node_bits,
}

abbrev black : ℕ
black = pack_channels 0 0 0

abbrev orange : ℕ
orange = pack_channels 1000 500 20

orange_step : limit_word 64 black orange ≡ pack_channels 64 64 20
unfolding limit_word limit_component
orange_step = refl

limit_packed_step-EachApproaches_example :
    (out : List ℕ) × (limit_packed_step
        (some (replicate clut_node_count black))
        (some (replicate clut_node_count orange))
        (length (replicate clut_node_count orange))
        64
      ≡ some out)
    × EachApproaches 64 (replicate clut_node_count black) (replicate clut_node_count orange) out
limit_packed_step-EachApproaches_example =
    limit_packed_step-EachApproaches (replicate clut_node_count black)
      (replicate clut_node_count orange) 64 refl refl (omega arith) (omega arith)

follow-reaches_example :
    follow 16 64 (black ∷ orange ∷ []) (orange ∷ black ∷ []) ≡ node_bits (orange ∷ black ∷ [])
follow-reaches_example =
    follow-reaches 16 64 (black ∷ orange ∷ []) (orange ∷ black ∷ []) refl
      (omega arith, (omega arith, tt)) (omega arith)

-- A LUT of one value throughout.
abbrev grey : ℕ → List ℕ
grey k = replicate k 500

grey_is_sound : (k i : ℕ) → sound thousandths (value_at thousandths (grey k) i) ≡ true
unfolding sound value_at
grey_is_sound zero i = refl
grey_is_sound (suc k) zero = refl
grey_is_sound (suc k) (suc i) = grey_is_sound k i

grey_nodes_are_sound : (k : ℕ) (ns : List Node) → sound_nodes thousandths (grey k) ns ≡ true
unfolding sound_nodes
grey_nodes_are_sound k [] = refl
grey_nodes_are_sound k (n ∷ ns) = ground (
  arith,
  grey_is_sound k (cubic_index 0 n),
  grey_is_sound k (cubic_index 1 n),
  grey_is_sound k (cubic_index 2 n),
  grey_nodes_are_sound k ns,
)

default_cfg_ok : cfg_ok thousandths (lut_bridge_default_cfg thousandths) ≡ true
unfolding cfg_ok lut_bridge_default_cfg
default_cfg_ok = refl

lut_bridge_pack_total_example :
    (out : List ℕ) × (lut_bridge_pack thousandths
        (some (lut_bridge_default_cfg thousandths))
        (some (grey lut_float_count))
        (length (grey lut_float_count))
        true
        clut_node_count
      ≡ some out)
    × (length out ≡ clut_node_count)
lut_bridge_pack_total_example =
    lut_bridge_pack_total thousandths (lut_bridge_default_cfg thousandths) (grey lut_float_count)
      default_cfg_ok refl (grey_nodes_are_sound lut_float_count nodes)

thousandths-SixteenthLaws : SixteenthLaws thousandths
unfolding cfg_ok lut_bridge_default_cfg sound
thousandths-SixteenthLaws = record {
  settings = refl;
  is_sound = λ k h. ground arith;
  not_below = λ k h. ground arith;
  not_above = λ k h. ground arith;
  mixed = λ k h. ground arith;
  plus_quarter = λ k h. ground arith;
  less_quarter = λ k h. ground arith;
  plus_boost = λ k h. ground arith;
  ordered = λ k h. ground arith;
}

make_identity-interleaved_example :
    make_identity thousandths none true clut_node_count
    ≡ some (interleaved thousandths (own_sixteenths thousandths))
make_identity-interleaved_example =
    make_identity-interleaved thousandths thousandths-SixteenthLaws none
