-- ===== src/LutBridge/Cube.antt =====
-- `lut_bridge_make_identity` of board/src/lut_bridge.c packs the identity: where each value of its array
-- comes to lie.
use hispark_soc_china.Prelude.{
  ℕ, zero, suc, ◌+◌, ◌*◌, ◌<◌, ◌≡◌, refl, ap, sym, ◌∙◌, none, some, List, [], ◌∷◌, ◌++◌, length,
  length-append, get_elem?, arith, inl, inr, ◌⊎◌,
}
use hispark_soc_china.Floats.{FloatOps}
use hispark_soc_china.LutBridge.Pack.{
  Node, lut_dim, lut_float_count, cubic_index, count_onto, flat_map,
}
use hispark_soc_china.LutBridge.Bridge.{value_at, own_axis}
use hispark_soc_china.LutBridge.Identity.{planar_nodes, plane, identity}

get_elem?_before {ℓ} :
    {A : Type ℓ} (xs ys : List A) (i : ℕ) → i < length xs → get_elem? (xs ++ ys) i ≡ get_elem? xs i
get_elem?_before [] ys i h = absurd (omega arith)
get_elem?_before (x ∷ xs) ys zero h = refl
get_elem?_before (x ∷ xs) ys (suc i) h = get_elem?_before xs ys i (omega arith)

get_elem?_behind {ℓ} :
    {A : Type ℓ} (xs ys : List A) (i : ℕ) → get_elem? (xs ++ ys) (length xs + i) ≡ get_elem? ys i
get_elem?_behind [] ys i = ap (get_elem? ys) (omega arith)
get_elem?_behind (x ∷ xs) ys i =
    ap (get_elem? (x ∷ (xs ++ ys))) (suc_add (length xs) i) ∙ get_elem?_behind xs ys i
  where
    suc_add : (n k : ℕ) → length (x ∷ xs) + k ≡ suc (length xs + k)
    suc_add n k = omega arith

get_elem?-count_onto_rest :
    (n : ℕ) (rest : List ℕ) (i : ℕ) → get_elem? (count_onto n rest) (n + i) ≡ get_elem? rest i
unfolding count_onto
get_elem?-count_onto_rest zero rest i = ap (get_elem? rest) (omega arith)
get_elem?-count_onto_rest (suc n) rest i =
    ap (get_elem? (count_onto n (n ∷ rest))) (omega arith)
    ∙ get_elem?-count_onto_rest n (n ∷ rest) (suc i)

below_suc : (i n : ℕ) → i < suc n → (i < n) ⊎ (i ≡ n + 0)
below_suc i n h = ground arith

get_elem?-count_onto :
    (n : ℕ) (rest : List ℕ) (i : ℕ) → i < n → get_elem? (count_onto n rest) i ≡ some i
unfolding count_onto
get_elem?-count_onto zero rest i h = absurd (omega arith)
get_elem?-count_onto (suc n) rest i h = elim (below_suc i n h) [
  | inl less ↦ get_elem?-count_onto n (n ∷ rest) i less
  | inr same ↦
      ap (get_elem? (count_onto n (n ∷ rest))) same
      ∙ get_elem?-count_onto_rest n (n ∷ rest) 0
      ∙ last_one n rest
      ∙ ap some (omega arith)
]
  where
    last_one : (m : ℕ) (later : List ℕ) → get_elem? (m ∷ later) 0 ≡ some m
    last_one m later = refl

-- The index of the value `j` in the part `i`, when each part has `k` of them.
offset : ℕ → ℕ → ℕ → ℕ
offset k zero j = j
offset k (suc i) j = k + offset k i j

offset_1 : (i j : ℕ) → offset 1 i j ≡ i + j
unfolding offset
offset_1 zero j = omega arith
offset_1 (suc i) j = omega (arith, offset_1 i j)

offset_17 : (i j : ℕ) → offset 17 i j ≡ i * 17 + j
unfolding offset
offset_17 zero j = omega arith
offset_17 (suc i) j = omega (arith, offset_17 i j)

offset_289 : (i j : ℕ) → offset 289 i j ≡ i * 289 + j
unfolding offset
offset_289 zero j = omega arith
offset_289 (suc i) j = omega (arith, offset_289 i j)

get_elem?-flat_map {ℓ} :
    {A : Type ℓ} (f : ℕ → List A) (k : ℕ) (xs : List ℕ) (i j x : ℕ)
    → ((y : ℕ) → length (f y) ≡ k)
    → j < k
    → get_elem? xs i ≡ some x
    → get_elem? (flat_map f xs) (offset k i j) ≡ get_elem? (f x) j
unfolding flat_map offset
get_elem?-flat_map f k [] i j x size h e = absurd (ground arith)
get_elem?-flat_map f k (y ∷ ys) zero j x size h e =
    get_elem?_before (f y) (flat_map f ys) j (omega (arith, size y))
    ∙ ap (λ o. get_elem? (f (elim o [ none ↦ x | some z ↦ z ])) j) e
get_elem?-flat_map f k (y ∷ ys) (suc i) j x size h e =
    ap (λ n. get_elem? (f y ++ flat_map f ys) (n + offset k i j)) (sym (size y))
    ∙ get_elem?_behind (f y) (flat_map f ys) (offset k i j)
    ∙ get_elem?-flat_map f k ys i j x size h e

axis : List ℕ
unfolding count_onto
axis = count_onto lut_dim []

row : ℕ → ℕ → List Node
unfolding flat_map axis
row r g = flat_map (λ b. record { r = r; g = g; b = b } ∷ []) axis

slice : ℕ → List Node
unfolding flat_map axis row
slice r = flat_map (row r) axis

length-row : (r g : ℕ) → length (row r g) ≡ 17
unfolding row axis flat_map count_onto
length-row r g = refl

length-slice : (r : ℕ) → length (slice r) ≡ 289
unfolding slice row axis flat_map count_onto
length-slice r = refl

length-planar_nodes : length planar_nodes ≡ 4913
unfolding planar_nodes count_onto flat_map
length-planar_nodes = refl

get_elem?-axis : (i : ℕ) → i < 17 → get_elem? axis i ≡ some i
unfolding axis
get_elem?-axis i h = get_elem?-count_onto 17 [] i h

get_elem?-row :
    (r g b : ℕ)
    → b < 17
    → get_elem? (row r g) (offset 1 b 0) ≡ some (record { r = r; g = g; b = b })
unfolding row
get_elem?-row r g b h =
    get_elem?-flat_map (λ b'. record { r = r; g = g; b = b' } ∷ []) 1 axis b 0 b (λ y. refl)
      (omega arith) (get_elem?-axis b h)

get_elem?-slice :
    (r g b : ℕ)
    → g < 17
    → b < 17
    → get_elem? (slice r) (offset 17 g (offset 1 b 0)) ≡ some (record { r = r; g = g; b = b })
unfolding slice
get_elem?-slice r g b hg hb =
    get_elem?-flat_map (row r) 17 axis g (offset 1 b 0) g (length-row r)
      (omega (arith, offset_1 b 0)) (get_elem?-axis g hg)
    ∙ get_elem?-row r g b hb

get_elem?-planar_nodes :
    (n : Node)
    → n.r < 17
    → n.g < 17
    → n.b < 17
    → get_elem? planar_nodes (n.r * 289 + n.g * 17 + n.b) ≡ some n
unfolding planar_nodes slice row axis
get_elem?-planar_nodes n hr hg hb =
    let inner = offset 17 n.g (offset 1 n.b 0) in
    ap (get_elem? planar_nodes) {x = n.r * 289 + n.g * 17 + n.b} {y = offset 289 n.r inner}
      (omega (arith, offset_289 n.r inner, offset_17 n.g (offset 1 n.b 0), offset_1 n.b 0))
    ∙ get_elem?-flat_map slice 289 axis n.r inner n.r length-slice
        (omega (arith, offset_17 n.g (offset 1 n.b 0), offset_1 n.b 0)) (get_elem?-axis n.r hr)
    ∙ get_elem?-slice n.r n.g n.b hg hb

module _ (fl : FloatOps) where
  open fl use {F, div, lit}

  -- The coordinate of the channel's own axis, in sixteenths.
  abbrev pub own_sixteenths : ℕ → Node → F
  own_sixteenths c n = div (lit (own_axis fl c n) 1) (lit 16 1)

  length-plane : (c : ℕ) (ns : List Node) → length (plane fl c ns) ≡ length ns
  unfolding plane
  length-plane c [] = refl
  length-plane c (n ∷ ns) = omega (arith, length-plane c ns)

  value_at-plane :
      (c : ℕ) (ns : List Node) (i : ℕ) (n : Node)
      → get_elem? ns i ≡ some n
      → value_at fl (plane fl c ns) i ≡ own_sixteenths c n
  unfolding plane value_at
  value_at-plane c [] i n e = absurd (ground arith)
  value_at-plane c (m ∷ ns) zero n e =
      ap (λ o. own_sixteenths c (elim o [ none ↦ n | some z ↦ z ])) e
  value_at-plane c (m ∷ ns) (suc i) n e = value_at-plane c ns i n e

  value_at_before :
      (xs ys : List F) (i : ℕ) → i < length xs → value_at fl (xs ++ ys) i ≡ value_at fl xs i
  unfolding value_at
  value_at_before [] ys i h = absurd (omega arith)
  value_at_before (x ∷ xs) ys zero h = refl
  value_at_before (x ∷ xs) ys (suc i) h = value_at_before xs ys i (omega arith)

  value_at_behind :
      (k : ℕ) (xs ys : List F) (i : ℕ)
      → length xs ≡ k
      → value_at fl (xs ++ ys) (k + i) ≡ value_at fl ys i
  unfolding value_at
  value_at_behind zero [] ys i e = ap (value_at fl ys) (omega arith)
  value_at_behind zero (x ∷ xs) ys i e = absurd (omega arith)
  value_at_behind (suc k) [] ys i e = absurd (omega arith)
  value_at_behind (suc k) (x ∷ xs) ys i e =
      ap (value_at fl (x ∷ (xs ++ ys))) (suc_add k) ∙ value_at_behind k xs ys i (omega arith)
    where
      suc_add : (m : ℕ) → suc m + i ≡ suc (m + i)
      suc_add m = omega arith

  length-channel : (c : ℕ) → length (plane fl c planar_nodes) ≡ 4913
  length-channel c = length-plane c planar_nodes ∙ length-planar_nodes

  pub length-identity : length (identity fl) ≡ lut_float_count
  unfolding identity
  length-identity = omega (
    arith,
    length-append (plane fl 0 planar_nodes) (plane fl 1 planar_nodes ++ plane fl 2 planar_nodes),
    length-append (plane fl 1 planar_nodes) (plane fl 2 planar_nodes),
    length-channel 0,
    length-channel 1,
    length-channel 2,
  )

  -- The array that `lut_bridge_make_identity` packs is the identity: at the index of a channel of a
  -- node, `cubic_index`, it holds the coordinate of the channel's own axis, in sixteenths, for each of
  -- the three channels and each node of the cube.
  pub identity-cubic_index :
      (c : ℕ) (n : Node)
      → c < 3
      → n.r < 17
      → n.g < 17
      → n.b < 17
      → value_at fl (identity fl) (cubic_index c n) ≡ own_sixteenths c n
  unfolding identity cubic_index
  identity-cubic_index c n hc hr hg hb = go c hc
    where
      i : ℕ
      i = n.r * 289 + n.g * 17 + n.b

      channel : (k : ℕ) → value_at fl (plane fl k planar_nodes) i ≡ own_sixteenths k n
      channel k = value_at-plane k planar_nodes i n (get_elem?-planar_nodes n hr hg hb)

      within : (k : ℕ) → i < length (plane fl k planar_nodes)
      within k = omega (arith, length-channel k)

      later : List F
      later = plane fl 1 planar_nodes ++ plane fl 2 planar_nodes

      go : (k : ℕ) → k < 3 → value_at fl (identity fl) (cubic_index k n) ≡ own_sixteenths k n
      go zero h =
          ap (value_at fl (identity fl)) (omega arith)
          ∙ value_at_before (plane fl 0 planar_nodes) later i (within 0)
          ∙ channel 0
      go (suc zero) h =
          ap (value_at fl (identity fl)) (omega arith)
          ∙ value_at_behind 4913 (plane fl 0 planar_nodes) later i (length-channel 0)
          ∙ value_at_before (plane fl 1 planar_nodes) (plane fl 2 planar_nodes) i (within 1)
          ∙ channel 1
      go (suc (suc zero)) h =
          ap (value_at fl (identity fl)) (omega arith)
          ∙ value_at_behind 4913 (plane fl 0 planar_nodes) later (4913 + i) (length-channel 0)
          ∙ value_at_behind 4913 (plane fl 1 planar_nodes) (plane fl 2 planar_nodes) i
              (length-channel 1)
          ∙ channel 2
      go (suc (suc (suc k))) h = absurd (omega arith)
