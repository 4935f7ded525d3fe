-- ===== src/LutBridge/Unchanged.antt =====
-- `lut_bridge_make_identity` of board/src/lut_bridge.c: the stages of `lut_bridge_pack` leave the identity
-- as it is.
use hispark_soc_china.Prelude.{
  ℕ, zero, suc, ◌+◌, ◌-◌, ◌≤◌, ◌<◌, ◌≡◌, refl, ap, ap₂, sym, ◌∙◌, Bool, true, false, ◌&&◌, Option,
  none, some, List, [], ◌∷◌, ◌++◌, arith, if_both, if◌then◌else◌, ltb, ◌==◌,
}
use hispark_soc_china.Floats.{FloatOps}
use hispark_soc_china.LutBridge.Pack.{
  Node, lut_float_count, cubic_index, count_onto, flat_map, nodes, bank, keep_bank, bank_of,
}
use hispark_soc_china.LutBridge.Bridge.{
  LutBridgeCfg, lut_bridge_default_cfg, cfg_ok, value_at, sound, sound_nodes, own_axis, clamp_unit,
  safe_value, run_max, along_axis, bridged, node_at, bank_word, pack_rgb, at_end, four_words,
  interleaved, lut_bridge_pack_run,
}
use hispark_soc_china.LutBridge.Identity.{identity, make_identity}
use hispark_soc_china.LutBridge.Cube.{own_sixteenths, identity-cubic_index}
use hispark_soc_china.LutBridge.Limit.{clut_node_count}

-- A node of the cube.
record InCube (n : Node) : Type 0 where
  r_below : n.r < 17
  g_below : n.g < 17
  b_below : n.b < 17

unfoldable all_in_cube : List Node → Bool
all_in_cube [] = true
all_in_cube (n ∷ ns) = (ltb n.r 17 && (ltb n.g 17 && ltb n.b 17)) && all_in_cube ns

nodes_lem : all_in_cube nodes ≡ true
unfolding all_in_cube nodes count_onto flat_map
nodes_lem = refl

module _ (fl : FloatOps) where
  open fl use {F, lt, add, sub, mul, div, lit}

  abbrev pub sixteenth : ℕ → F
  sixteenth k = div (lit k 1) (lit 16 1)

  -- What IEEE 754 says of the numbers from 0/16 to 16/16, which are exact: they are in their order and
  -- in the ranges that the packing asks of a value, and adding or taking away a positive constant does
  -- not turn that order round.
  pub record SixteenthLaws : Type 0 where
    pub settings : cfg_ok fl (lut_bridge_default_cfg fl) ≡ true
    pub is_sound : (k : ℕ) → k ≤ 16 → sound fl (sixteenth k) ≡ true
    pub not_below : (k : ℕ) → k ≤ 16 → lt (sixteenth k) (lit 0 1) ≡ false
    pub not_above : (k : ℕ) → k ≤ 16 → lt (lit 1 1) (sixteenth k) ≡ false
    pub mixed :
        (k : ℕ)
        → k ≤ 16
        → add (sixteenth k) (mul (lit 1 1) (sub (sixteenth k) (sixteenth k))) ≡ sixteenth k
    pub plus_quarter : (k : ℕ) → k ≤ 16 → lt (add (sixteenth k) (lit 1 4)) (sixteenth k) ≡ false
    pub less_quarter : (k : ℕ) → k ≤ 16 → lt (sixteenth k) (sub (sixteenth k) (lit 1 4)) ≡ false
    pub plus_boost : (k : ℕ) → k ≤ 16 → lt (add (sixteenth k) (lit 2 100)) (sixteenth k) ≡ false
    pub ordered : (k : ℕ) → suc k ≤ 16 → lt (sixteenth (suc k)) (sixteenth k) ≡ false

  own_axis_le : (c : ℕ) (n : Node) → InCube n → own_axis fl c n ≤ 16
  unfolding own_axis
  own_axis_le c n v = ground arith

  kept_is :
      (at_corner light : Bool) (x y : F)
      → (if at_corner then x else (if light && false then y else x)) ≡ x
  kept_is true light x y = refl
  kept_is false true x y = refl
  kept_is false false x y = refl

  -- Two values for each channel of the cube that are the same are interleaved in the same way.
  abbrev Agree : (ℕ → Node → F) → (ℕ → Node → F) → Type 0
  Agree u v = (c : ℕ) (n : Node) → c < 3 → InCube n → u c n ≡ v c n

  abbrev AllInCube : List Node → Type 0
  AllInCube [] = Unit
  AllInCube (n ∷ ns) = InCube n × AllInCube ns

  keep_bank-AllInCube : (k : ℕ) (ns : List Node) → AllInCube ns → AllInCube (keep_bank k ns)
  unfolding keep_bank
  keep_bank-AllInCube k [] v = v
  keep_bank-AllInCube k (n ∷ ns) v =
      let rest = keep_bank-AllInCube k ns v.1 in
      if_both (bank_of n == k) AllInCube (λ e. (v.0, rest)) (λ e. rest)

  all_in_cube-AllInCube : (ns : List Node) → all_in_cube ns ≡ true → AllInCube ns
  unfolding all_in_cube
  all_in_cube-AllInCube [] e = tt
  all_in_cube-AllInCube (n ∷ ns) e = (
    record { r_below = ground arith; g_below = ground arith; b_below = ground arith },
    all_in_cube-AllInCube ns (ground arith),
  )

  bank-AllInCube : (k : ℕ) → AllInCube (bank k)
  unfolding bank
  bank-AllInCube k = keep_bank-AllInCube k nodes (all_in_cube-AllInCube nodes nodes_lem)

  word_at : (ℕ → Node → F) → Option Node → ℕ
  word_at u none = pack_rgb fl (lit 0 1) (lit 0 1) (lit 0 1)
  word_at u (some n) = pack_rgb fl (u 0 n) (u 1 n) (u 2 n)

  node_word :
      (u v : ℕ → Node → F) (ns : List Node) (i : ℕ)
      → Agree u v
      → AllInCube ns
      → word_at u (node_at fl ns i) ≡ word_at v (node_at fl ns i)
  unfolding node_at word_at
  node_word u v [] i h a = refl
  node_word u v (n ∷ ns) zero h a =
      rw (h 0 n (omega arith) a.0, h 1 n (omega arith) a.0, h 2 n (omega arith) a.0) refl
  node_word u v (n ∷ ns) (suc i) h a = node_word u v ns i h a.1

  bank_word_is :
      (u : ℕ → Node → F) (k i : ℕ) → bank_word fl u k i ≡ word_at u (node_at fl (bank k) i)
  unfolding bank_word word_at
  bank_word_is u k i =
      elim (node_at fl (bank k) i)
        as (λ o.
          (elim o [
            | none ↦ pack_rgb fl (lit 0 1) (lit 0 1) (lit 0 1)
            | some n ↦ pack_rgb fl (u 0 n) (u 1 n) (u 2 n)
          ])
          ≡ word_at u o) [ none ↦ refl | some n ↦ refl ]

  bank_word-Agree :
      (u v : ℕ → Node → F) (k i : ℕ) → Agree u v → bank_word fl u k i ≡ bank_word fl v k i
  bank_word-Agree u v k i h =
      bank_word_is u k i ∙ node_word u v (bank k) i h (bank-AllInCube k) ∙ sym (bank_word_is v k i)

  four_words-Agree :
      (u v : ℕ → Node → F) (k second third fourth i : ℕ)
      → Agree u v
      → four_words fl u k second third fourth i ≡ four_words fl v k second third fourth i
  unfolding four_words
  four_words-Agree u v k second third fourth i h =
      rw
        (
          bank_word-Agree u v k i h,
          bank_word-Agree u v (k + 1) i h,
          bank_word-Agree u v (k + 2) i h,
          bank_word-Agree u v (k + 3) (i - third) h,
          bank_word-Agree u v (k + 3) i h,
        )
        refl

  flat_map_same :
      (f g : ℕ → List ℕ) (xs : List ℕ) → ((i : ℕ) → f i ≡ g i) → flat_map f xs ≡ flat_map g xs
  unfolding flat_map
  flat_map_same f g [] h = refl
  flat_map_same f g (x ∷ xs) h = ap₂ (λ a b. a ++ b) (h x) (flat_map_same f g xs h)

  interleaved-Agree : (u v : ℕ → Node → F) → Agree u v → interleaved fl u ≡ interleaved fl v
  unfolding interleaved
  interleaved-Agree u v h =
      ap₂ (λ a b. a ++ b)
        (flat_map_same (four_words fl u 0 648 648 576) (four_words fl v 0 648 648 576)
          (count_onto 729 []) (λ i. four_words-Agree u v 0 648 648 576 i h))
        (flat_map_same (four_words fl u 4 576 576 512) (four_words fl v 4 576 576 512)
          (count_onto 648 []) (λ i. four_words-Agree u v 4 576 576 512 i h))

  run_max_is :
      (f : ℕ → F) (k : ℕ)
      → SixteenthLaws
      → k ≤ 16
      → ((i : ℕ) → i ≤ k → f i ≡ sixteenth i)
      → run_max fl f k ≡ sixteenth k
  unfolding run_max
  run_max_is f zero laws h e = e 0 (omega arith)
  run_max_is f (suc k) laws h e =
      rw
        (
          run_max_is f k laws (omega arith) (λ i l. e i (omega arith)),
          e (suc k) (omega arith),
          laws.ordered k h,
        )
        refl

  module _ (laws : SixteenthLaws) where
    clamp_unit-sixteenth : (k : ℕ) → k ≤ 16 → clamp_unit fl (sixteenth k) ≡ sixteenth k
    unfolding clamp_unit
    clamp_unit-sixteenth k h = rw (laws.not_below k h, laws.not_above k h) refl

    safe_value-identity :
        (c : ℕ) (n : Node)
        → c < 3
        → InCube n
        → safe_value fl (lut_bridge_default_cfg fl) (identity fl) c n ≡ own_sixteenths fl c n
    unfolding safe_value lut_bridge_default_cfg clamp_unit
    safe_value-identity c n hc v =
        let k = own_axis fl c n in
        let h = own_axis_le c n v in
        rw
          (
            identity-cubic_index fl c n hc v.r_below v.g_below v.b_below,
            clamp_unit-sixteenth k h,
            laws.mixed k h,
            laws.plus_quarter k h,
            laws.less_quarter k h,
            laws.plus_boost k h,
          )
          (ap (clamp_unit fl) (
              kept_is (at_end fl n.r && (at_end fl n.g && at_end fl n.b))
                (fl.le (lit 875 1000) (sixteenth k)) (sixteenth k) (add (sixteenth k) (lit 2 100)))
            ∙ clamp_unit-sixteenth k h)

    -- The running maximum of values that rise is each value itself.
    bridged-identity :
        (c : ℕ) (n : Node)
        → c < 3
        → InCube n
        → bridged fl (lut_bridge_default_cfg fl) (identity fl) c n ≡ own_sixteenths fl c n
    unfolding bridged lut_bridge_default_cfg along_axis own_axis
    bridged-identity zero n hc v = run_max_is _ n.r laws (omega (arith, v.r_below)) (λ i l.
        safe_value-identity 0 (record n { r = i }) (omega arith)
          (record { r_below = omega (arith, v.r_below); g_below = v.g_below; b_below = v.b_below }))
    bridged-identity (suc zero) n hc v = run_max_is _ n.g laws (omega (arith, v.g_below)) (λ i l.
        safe_value-identity 1 (record n { g = i }) (omega arith)
          (record { r_below = v.r_below; g_below = omega (arith, v.g_below); b_below = v.b_below }))
    bridged-identity (suc (suc zero)) n hc v =
        run_max_is _ n.b laws (omega (arith, v.b_below)) (λ i l.
          safe_value-identity 2 (record n { b = i }) (omega arith)
            (record {
              r_below = v.r_below;
              g_below = v.g_below;
              b_below = omega (arith, v.b_below);
            }))
    bridged-identity (suc (suc (suc c))) n hc v = absurd (omega arith)

    sound_nodes-AllInCube : (ns : List Node) → AllInCube ns → sound_nodes fl (identity fl) ns ≡ true
    unfolding sound_nodes
    sound_nodes-AllInCube [] v = refl
    sound_nodes-AllInCube (n ∷ ns) v = ground (
      arith,
      sound_here 0 n (omega arith) v.0,
      sound_here 1 n (omega arith) v.0,
      sound_here 2 n (omega arith) v.0,
      sound_nodes-AllInCube ns v.1,
    )
      where
        sound_here :
            (c : ℕ) (m : Node)
            → c < 3
            → InCube m
            → sound fl (value_at fl (identity fl) (cubic_index c m)) ≡ true
        sound_here c m hc w =
            ap (sound fl) (identity-cubic_index fl c m hc w.r_below w.g_below w.b_below)
            ∙ laws.is_sound (own_axis fl c m) (own_axis_le c m w)

    -- For numbers that keep the laws of the sixteenths, and whatever configuration is given:
    -- `lut_bridge_make_identity` succeeds, if there is an array of the ISP's size, and what it packs at
    -- each node of the cube is the node itself: for red, green and blue the coordinate of that axis, in
    -- sixteenths. No safety stage moves a value.
    pub make_identity-interleaved :
        (cfg : Option (LutBridgeCfg fl))
        → make_identity fl cfg true clut_node_count ≡ some (interleaved fl (own_sixteenths fl))
    unfolding make_identity
    make_identity-interleaved cfg =
        lut_bridge_pack_run fl (lut_bridge_default_cfg fl) (identity fl) lut_float_count
          laws.settings refl (sound_nodes-AllInCube nodes (all_in_cube-AllInCube nodes nodes_lem))
        ∙ ap some (
            interleaved-Agree (bridged fl (lut_bridge_default_cfg fl) (identity fl))
              (own_sixteenths fl) bridged-identity)
