-- ===== src/LutBridge/Pack.antt =====
-- `lut_bridge_pack` of board/src/lut_bridge.c: the network's LUT, made safe and put in the order of
-- the ISP.
use hispark_soc_china.Prelude.{
  ℕ, zero, suc, ◌+◌, ◌*◌, ◌%◌, ◌≡◌, refl, Bool, true, ◌&&◌, List, [], ◌∷◌, ◌++◌, length, ◌==◌,
  if◌then◌else◌,
}

-- LUT_DIM, PIPELINE_COTF_LUT_FLOAT_COUNT
abbrev pub lut_dim : ℕ
lut_dim = 17

abbrev pub lut_float_count : ℕ
lut_float_count = 14739

-- A node of the cube: r, g and b.
pub record Node : Type 0 where
  pub r : ℕ
  pub g : ℕ
  pub b : ℕ

unfoldable pub cubic_index : ℕ → Node → ℕ
cubic_index channel n = ((channel * lut_dim + n.r) * lut_dim + n.g) * lut_dim + n.b

-- The numbers below a bound, in order, in front of a list.
unfoldable pub count_onto : ℕ → List ℕ → List ℕ
count_onto zero rest = rest
count_onto (suc n) rest = count_onto n (n ∷ rest)

unfoldable pub flat_map {ℓ ℓ'} : {A : Type ℓ} {B : Type ℓ'} → (A → List B) → List A → List B
flat_map f [] = []
flat_map f (x ∷ xs) = f x ++ flat_map f xs

-- The three nested loops: b, then g, then r.
unfoldable pub nodes : List Node
unfolding count_onto flat_map
nodes =
    let axis = count_onto lut_dim [] in
    flat_map (λ b. flat_map (λ g. flat_map (λ r. record { r = r; g = g; b = b } ∷ []) axis) axis)
      axis

-- `(r & 1u) | ((g & 1u) << 1) | ((b & 1u) << 2)`
unfoldable pub bank_of : Node → ℕ
bank_of n = n.r % 2 + 2 * (n.g % 2) + 4 * (n.b % 2)

unfoldable pub keep_bank : ℕ → List Node → List Node
unfolding bank_of
keep_bank k [] = []
keep_bank k (n ∷ ns) = let rest = keep_bank k ns in if bank_of n == k then n ∷ rest else rest

-- The nodes of a bank in the order in which `positions[bank]++` places them.
unfoldable pub bank : ℕ → List Node
unfolding keep_bank nodes
bank k = keep_bank k nodes

-- `g_bank_counts`
abbrev pub bank_counts : List ℕ
bank_counts = 729 ∷ 648 ∷ 648 ∷ 576 ∷ 648 ∷ 576 ∷ 576 ∷ 512 ∷ []

-- The comparison of `positions` with `g_bank_counts`. A position that passes its count fails the
-- last comparison too.
unfoldable pub counts_match : ℕ → List ℕ → Bool
unfolding bank
counts_match k [] = true
counts_match k (c ∷ cs) = length (bank k) == c && counts_match (suc k) cs

-- No bank overflows, and none is left short.
pub counts_match_lem : counts_match 0 bank_counts ≡ true
unfolding counts_match
counts_match_lem = refl
