-- ===== src/LutBridge/Near.antt =====
-- How far one LUT is from another, channel by channel (board/src/lut_bridge.c).
use hispark_soc_china.Prelude.{
  ℕ, ◌≤◌, ◌<◌, ◌≡◌, some, List, [], ◌∷◌, arith, length, sym, ap, ◌∙◌, subst,
}
use mathlib.Core.Option.{some-injective}
use hispark_soc_china.LutBridge.Limit.{
  limit_packed_step, red, green, blue, gap, clut_node_count, lut_max,
}
use hispark_soc_china.LutBridge.Approach.{
  WordApproaches, EachApproaches, limit_packed_step-EachApproaches,
}

pub record NodeNear (k p r : ℕ) : Type 0 where
  pub on_red : gap (red r) (red p) ≤ k
  pub on_green : gap (green r) (green p) ≤ k
  pub on_blue : gap (blue r) (blue p) ≤ k

-- LUTs of one length, each channel of each node at most `k` apart.
abbrev pub Near : ℕ → List ℕ → List ℕ → Type 0
Near k [] [] = Unit
Near k (p ∷ ps) (r ∷ rs) = NodeNear k p r × Near k ps rs
Near k _ _ = ⊥

pub Near-refl : (k : ℕ) (ps : List ℕ) → Near k ps ps
Near-refl k [] = tt
Near-refl k (p ∷ ps) =
    (record { on_red = omega arith; on_green = omega arith; on_blue = omega arith }, Near-refl k ps)

NodeNear-WordApproaches : (k p c r : ℕ) → WordApproaches k p c r → NodeNear k p r
NodeNear-WordApproaches k p c r v = record {
  on_red = ground (arith, v.on_red.moved);
  on_green = ground (arith, v.on_green.moved);
  on_blue = ground (arith, v.on_blue.moved);
}

Near-EachApproaches : (k : ℕ) (ps cs rs : List ℕ) → EachApproaches k ps cs rs → Near k ps rs
Near-EachApproaches k [] [] [] v = tt
Near-EachApproaches k [] [] (r ∷ rs) v = v
Near-EachApproaches k [] (c ∷ cs) rs v = absurd v
Near-EachApproaches k (p ∷ ps) [] rs v = absurd v
Near-EachApproaches k (p ∷ ps) (c ∷ cs) [] v = v
Near-EachApproaches k (p ∷ ps) (c ∷ cs) (r ∷ rs) v =
    (NodeNear-WordApproaches k p c r v.0, Near-EachApproaches k ps cs rs v.1)

-- What a step gives, whenever it gives anything.
pub limit_packed_step-Near :
    (ps cs out : List ℕ) (k : ℕ)
    → length ps ≡ clut_node_count
    → length cs ≡ clut_node_count
    → 0 < k
    → k ≤ lut_max
    → limit_packed_step (some ps) (some cs) clut_node_count k ≡ some out
    → Near k ps out
limit_packed_step-Near ps cs out k hp hc pos le e =
    let r = limit_packed_step-EachApproaches ps cs k hp hc pos le in
    let same : r.0 ≡ out =
      some-injective r.0 out
        (sym r.1 ∙ ap (λ n. limit_packed_step (some ps) (some cs) n k) hc ∙ e) in
    subst (Near k ps) same (Near-EachApproaches k ps cs r.0 r.2)
