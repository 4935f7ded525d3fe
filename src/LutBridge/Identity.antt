-- ===== src/LutBridge/Identity.antt =====
-- `lut_bridge_make_identity` of board/src/lut_bridge.c.
use hispark_soc_china.Prelude.{ℕ, Bool, Option, some, List, [], ◌∷◌, ◌++◌}
use hispark_soc_china.Floats.{FloatOps}
use hispark_soc_china.LutBridge.Pack.{Node, lut_dim, lut_float_count, count_onto, flat_map}
use hispark_soc_china.LutBridge.Bridge.{
  LutBridgeCfg, lut_bridge_default_cfg, own_axis, lut_bridge_pack,
}

-- The nodes of one channel in the order of `cubic_index`: r, then g, then b.
unfoldable pub planar_nodes : List Node
unfolding count_onto flat_map
planar_nodes =
    let axis = count_onto lut_dim [] in
    flat_map (λ r. flat_map (λ g. flat_map (λ b. record { r = r; g = g; b = b } ∷ []) axis) axis)
      axis

module _ (fl : FloatOps) where
  open fl use {F, div, lit}

  unfoldable pub plane : ℕ → List Node → List F
  unfolding own_axis
  plane c [] = []
  plane c (n ∷ ns) = div (lit (own_axis fl c n) 1) (lit 16 1) ∷ plane c ns

  -- The array that the three loops fill: each index is written once.
  unfoldable pub identity : List F
  unfolding plane planar_nodes
  identity = plane 0 planar_nodes ++ (plane 1 planar_nodes ++ plane 2 planar_nodes)

  -- The configuration that is given is not used.
  unfoldable pub make_identity : Option (LutBridgeCfg fl) → Bool → ℕ → Option (List ℕ)
  make_identity cfg out_given packed_count =
      lut_bridge_pack fl (some (lut_bridge_default_cfg fl)) (some identity) lut_float_count
        out_given packed_count
