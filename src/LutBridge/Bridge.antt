-- ===== src/LutBridge/Bridge.antt =====
-- The safety limits and the interleaving of `lut_bridge_pack` (board/src/lut_bridge.c).
use hispark_soc_china.Prelude.{
  ℕ, zero, suc, ◌+◌, ◌-◌, ◌*◌, ◌%◌, ◌^◌, ◌≡◌, refl, Bool, true, not, ◌&&◌, ◌||◌, Option, none, some,
  List, [], ◌∷◌, ◌++◌, length, length-append, ltb, ◌==◌, bit_or, arith, if◌then◌else◌,
}
use hispark_soc_china.Floats.{FloatOps}
use hispark_soc_china.LutBridge.Limit.{clut_node_count}
use hispark_soc_china.LutBridge.Pack.{
  Node, lut_dim, lut_float_count, cubic_index, count_onto, flat_map, nodes, bank, bank_counts,
  counts_match, counts_match_lem,
}

module _ (fl : FloatOps) where
  open fl use {F, lt, le, add, sub, mul, div, neg, lit, finite, truncated}

  pub record LutBridgeCfg : Type 0 where
    pub strength : F
    pub max_identity_delta : F
    pub highlight_boost_limit : F
    pub preserve_cube_endpoints : Bool
    pub enforce_axis_monotonicity : Bool

  unfoldable pub lut_bridge_default_cfg : LutBridgeCfg
  lut_bridge_default_cfg = record {
    strength = lit 1 1;
    max_identity_delta = lit 1 4;
    highlight_boost_limit = lit 2 100;
    preserve_cube_endpoints = true;
    enforce_axis_monotonicity = true;
  }

  -- A setting is a number from 0 to 1.
  unfoldable pub in_unit : F → Bool
  in_unit x = finite x && (not (lt x (lit 0 1)) && not (lt (lit 1 1) x))

  unfoldable pub cfg_ok : LutBridgeCfg → Bool
  unfolding in_unit
  cfg_ok cfg =
      in_unit cfg.strength && (in_unit cfg.max_identity_delta && in_unit cfg.highlight_boost_limit)

  unfoldable pub value_at : List F → ℕ → F
  value_at [] i = lit 0 1
  value_at (x ∷ xs) zero = x
  value_at (x ∷ xs) (suc i) = value_at xs i

  -- A raw value that does not end the call.
  unfoldable pub sound : F → Bool
  sound raw = finite raw && (not (lt raw (neg (lit 5 100))) && not (lt (lit 105 100) raw))

  -- The coordinate of the channel's own axis.
  unfoldable pub own_axis : ℕ → Node → ℕ
  own_axis c n = if c == 0 then n.r else if c == 1 then n.g else n.b

  unfoldable pub at_end : ℕ → Bool
  at_end k = k == 0 || k == lut_dim - 1

  unfoldable pub clamp_unit : F → F
  clamp_unit x =
      let low = if lt x (lit 0 1) then lit 0 1 else x in if lt (lit 1 1) low then lit 1 1 else low

  -- The first stage, for one channel of one node.
  unfoldable pub safe_value : LutBridgeCfg → List F → ℕ → Node → F
  unfolding clamp_unit own_axis at_end
  safe_value cfg cubic c n =
      let raw = clamp_unit (value_at cubic (cubic_index c n)) in
      let identity = div (lit (own_axis c n) 1) (lit 16 1) in
      let high = add identity cfg.max_identity_delta in
      let low = sub identity cfg.max_identity_delta in
      let boosted = add identity cfg.highlight_boost_limit in
      let mixed = add identity (mul cfg.strength (sub raw identity)) in
      let below = if lt high mixed then high else mixed in
      let within = if lt below low then low else below in
      let light = if le (lit 875 1000) identity && lt boosted within then boosted else within in
      let kept =
        if cfg.preserve_cube_endpoints && (at_end n.r && (at_end n.g && at_end n.b))
        then identity
        else light in
      clamp_unit kept

  -- The second stage: the running maximum along an axis, in the order of the loop.
  unfoldable pub run_max : (ℕ → F) → ℕ → F
  run_max f zero = f zero
  run_max f (suc k) =
      let before = run_max f k in if lt (f (suc k)) before then before else f (suc k)

  unfoldable pub along_axis : (ℕ → Node → F) → ℕ → Node → F
  unfolding run_max
  along_axis safe c n =
      if c == 0
      then run_max (λ r. safe c (record n { r = r })) n.r
      else if c == 1
      then run_max (λ g. safe c (record n { g = g })) n.g
      else run_max (λ b. safe c (record n { b = b })) n.b

  unfoldable pub bridged : LutBridgeCfg → List F → ℕ → Node → F
  unfolding safe_value along_axis
  bridged cfg cubic c n =
      if cfg.enforce_axis_monotonicity
      then along_axis (safe_value cfg cubic) c n
      else safe_value cfg cubic c n

  -- The words are of 32 bits.
  unfoldable pub pack_rgb : F → F → F → ℕ
  pack_rgb red green blue =
      let word : F → ℕ = λ x. truncated (add (mul x (lit 1023 1)) (lit 1 2)) in
      bit_or (bit_or (word red * 2 ^ 20 % 2 ^ 32) (word green * 2 ^ 10 % 2 ^ 32)) (word blue)

  unfoldable pub node_at : List Node → ℕ → Option Node
  node_at [] i = none
  node_at (n ∷ ns) zero = some n
  node_at (n ∷ ns) (suc i) = node_at ns i

  -- `pack_rgb(banks[bank][i])`; a place of a bank that was not filled holds zeros.
  unfoldable pub bank_word : (ℕ → Node → F) → ℕ → ℕ → ℕ
  unfolding pack_rgb node_at
  bank_word value k i = elim (node_at (bank k) i) [
    | none ↦ pack_rgb (lit 0 1) (lit 0 1) (lit 0 1)
    | some n ↦ pack_rgb (value 0 n) (value 1 n) (value 2 n)
  ]

  -- One round of the interleaving: four banks from `k` on, of which the second and fourth run out,
  -- and the third goes on in the fourth.
  unfoldable pub four_words : (ℕ → Node → F) → ℕ → ℕ → ℕ → ℕ → ℕ → List ℕ
  four_words value k second third fourth i =
      bank_word value k i
      ∷ (if ltb i second then bank_word value (k + 1) i else 0)
      ∷ (if ltb i third then bank_word value (k + 2) i else bank_word value (k + 3) (i - third))
      ∷ (if ltb i fourth then bank_word value (k + 3) i else 0)
      ∷ []

  unfoldable pub interleaved : (ℕ → Node → F) → List ℕ
  unfolding four_words
  interleaved value =
      flat_map (four_words value 0 648 648 576) (count_onto 729 [])
      ++ flat_map (four_words value 4 576 576 512) (count_onto 648 [])

  -- Every value that the first stage reads.
  unfoldable pub sound_nodes : List F → List Node → Bool
  unfolding sound
  sound_nodes cubic [] = true
  sound_nodes cubic (n ∷ ns) =
      sound (value_at cubic (cubic_index 0 n))
      && (sound (value_at cubic (cubic_index 1 n))
          && (sound (value_at cubic (cubic_index 2 n)) && sound_nodes cubic ns))

  -- `none` is the answer -1, and a NULL pointer; `out_given` says whether `packed_out` is one.
  unfoldable pub lut_bridge_pack :
      Option LutBridgeCfg → Option (List F) → ℕ → Bool → ℕ → Option (List ℕ)
  unfolding cfg_ok sound_nodes bridged interleaved
  lut_bridge_pack none cubic cubic_count out_given packed_count = none
  lut_bridge_pack (some cfg) none cubic_count out_given packed_count = none
  lut_bridge_pack (some cfg) (some cubic) cubic_count out_given packed_count =
      if not out_given
        || (not (cubic_count == lut_float_count) || not (packed_count == clut_node_count))
      then none
      else if not (cfg_ok cfg)
      then none
      else if not (sound_nodes cubic nodes)
      then none
      else if not (counts_match 0 bank_counts)
      then none
      else if length (interleaved (bridged cfg cubic)) == clut_node_count
      then some (interleaved (bridged cfg cubic))
      else none

  length-flat_map :
      {A : Type 0} {B : Type 0} (f : A → List B) (xs : List A)
      → ((x : A) → length (f x) ≡ 4)
      → length (flat_map f xs) ≡ length xs * 4
  unfolding flat_map
  length-flat_map f [] h = omega arith
  length-flat_map f (x ∷ xs) h =
      omega (arith, length-append (f x) (flat_map f xs), h x, length-flat_map f xs h)

  length-count_onto : (n : ℕ) (rest : List ℕ) → length (count_onto n rest) ≡ n + length rest
  unfolding count_onto
  length-count_onto zero rest = omega arith
  length-count_onto (suc n) rest = omega (arith, length-count_onto n (n ∷ rest))

  length-interleaved : (value : ℕ → Node → F) → length (interleaved value) ≡ clut_node_count
  unfolding interleaved four_words
  length-interleaved value =
      let early =
        length-flat_map (four_words value 0 648 648 576) (count_onto 729 []) (λ i. refl) in
      let late = length-flat_map (four_words value 4 576 576 512) (count_onto 648 []) (λ i. refl) in
      omega (
        arith,
        length-append (flat_map (four_words value 0 648 648 576) (count_onto 729 []))
            (flat_map (four_words value 4 576 576 512) (count_onto 648 [])),
        early,
        late,
        length-count_onto 729 [],
        length-count_onto 648 [],
      )

  -- What the call answers if nothing ends it early.
  pub lut_bridge_pack_run :
      (cfg : LutBridgeCfg) (cubic : List F) (count : ℕ)
      → cfg_ok cfg ≡ true
      → count ≡ lut_float_count
      → sound_nodes cubic nodes ≡ true
      → lut_bridge_pack (some cfg) (some cubic) count true clut_node_count
        ≡ some (interleaved (bridged cfg cubic))
  unfolding lut_bridge_pack
  lut_bridge_pack_run cfg cubic count ok size good =
      ground (arith, counts_match_lem, length-interleaved (bridged cfg cubic))

  -- For a configuration whose three settings are finite and from 0 to 1, and a LUT of the network's
  -- size whose values are all finite and from -0.05 to 1.05, the call succeeds and fills exactly
  -- the ISP's array: no bank overflows or stays short.
  pub lut_bridge_pack_total :
      (cfg : LutBridgeCfg) (cubic : List F)
      → cfg_ok cfg ≡ true
      → length cubic ≡ lut_float_count
      → sound_nodes cubic nodes ≡ true
      → (out : List ℕ) × (lut_bridge_pack
            (some cfg)
            (some cubic)
            (length cubic)
            true
            clut_node_count
          ≡ some out)
        × (length out ≡ clut_node_count)
  lut_bridge_pack_total cfg cubic ok size good = (
    interleaved (bridged cfg cubic),
    lut_bridge_pack_run cfg cubic (length cubic) ok size good,
    length-interleaved (bridged cfg cubic),
  )
