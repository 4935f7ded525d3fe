-- ===== src/LutBridge/Approach.antt =====
-- How `lut_bridge_limit_packed_step` (board/src/lut_bridge.c) moves a LUT towards its target.
use hispark_soc_china.Prelude.{
  ℕ, zero, suc, ◌-◌, ◌*◌, ◌/◌, ◌%◌, ◌^◌, ◌≤◌, ◌<◌, ◌≡◌, refl, ap₂, sym, ◌∙◌, some, List, [], ◌∷◌,
  length, arith, min,
}
use hispark_soc_china.LutBridge.Limit.{
  limit_component, limit_word, limit_words, limit_packed_step, red, green, blue, pack_channels, gap,
  clut_node_count, lut_max,
}

-- The channel `r` is on the way from `p` to `c`: a step `k` further, or at `c` if that is nearer.
pub record Approaches (k p c r : ℕ) : Type 0 where
  pub moved : gap r p ≡ min k (gap p c)
  pub left : gap r c ≡ gap p c - k

pub record WordApproaches (k p c r : ℕ) : Type 0 where
  pub on_red : Approaches k (red p) (red c) (red r)
  pub on_green : Approaches k (green p) (green c) (green r)
  pub on_blue : Approaches k (blue p) (blue c) (blue r)

-- Node by node, over arrays of one length.
abbrev pub EachApproaches : ℕ → List ℕ → List ℕ → List ℕ → Type 0
EachApproaches k [] [] [] = Unit
EachApproaches k (p ∷ ps) (c ∷ cs) (r ∷ rs) = WordApproaches k p c r × EachApproaches k ps cs rs
EachApproaches k _ _ _ = ⊥

limit_component-Approaches : (k p c : ℕ) → Approaches k p c (limit_component p c k)
unfolding limit_component
limit_component-Approaches k p c = ground arith

limit_component-lt : (k p c : ℕ) → p < 1024 → c < 1024 → limit_component p c k < 1024
unfolding limit_component
limit_component-lt k p c hp hc = ground arith

red-pack_channels :
    (r g b : ℕ)
    → r < 1024
    → g < 1024
    → b < 1024
    → (red (pack_channels r g b) ≡ r)
      × (green (pack_channels r g b) ≡ g)
      × (blue (pack_channels r g b) ≡ b)
red-pack_channels r g b hr hg hb = omega arith

limit_word-channels :
    (k p c : ℕ)
    → (red (limit_word k p c) ≡ limit_component (red p) (red c) k)
      × (green (limit_word k p c) ≡ limit_component (green p) (green c) k)
      × (blue (limit_word k p c) ≡ limit_component (blue p) (blue c) k)
unfolding limit_word
limit_word-channels k p c =
    red-pack_channels _ _ _ (limit_component-lt k (red p) (red c) (omega arith) (omega arith))
      (limit_component-lt k (green p) (green c) (omega arith) (omega arith))
      (limit_component-lt k (blue p) (blue c) (omega arith) (omega arith))

limit_word-WordApproaches : (k p c : ℕ) → WordApproaches k p c (limit_word k p c)
limit_word-WordApproaches k p c =
    let e = limit_word-channels k p c in
    record {
      on_red = rw e.0 (limit_component-Approaches k (red p) (red c));
      on_green = rw e.1 (limit_component-Approaches k (green p) (green c));
      on_blue = rw e.2 (limit_component-Approaches k (blue p) (blue c));
    }

limit_words-EachApproaches :
    (k : ℕ) (ps cs : List ℕ) → length ps ≡ length cs → EachApproaches k ps cs (limit_words k ps cs)
unfolding limit_words
limit_words-EachApproaches k [] [] e = tt
limit_words-EachApproaches k [] (c ∷ cs) e = absurd (omega arith)
limit_words-EachApproaches k (p ∷ ps) [] e = absurd (omega arith)
limit_words-EachApproaches k (p ∷ ps) (c ∷ cs) e =
    (limit_word-WordApproaches k p c, limit_words-EachApproaches k ps cs (omega arith))

accepted_step :
    (ps cs : List ℕ) (count k : ℕ)
    → count ≡ clut_node_count
    → 0 < k
    → k ≤ lut_max
    → limit_packed_step (some ps) (some cs) count k ≡ some (limit_words k ps cs)
unfolding limit_packed_step
accepted_step ps cs count k h pos le = ground arith

-- For two LUTs of the ISP's size and a step from 1 to 1023 the call succeeds, and each channel of
-- each node is moved from its previous value towards the candidate, by the step or as far as the
-- candidate if that is nearer.
pub limit_packed_step-EachApproaches :
    (ps cs : List ℕ) (k : ℕ)
    → length ps ≡ clut_node_count
    → length cs ≡ clut_node_count
    → 0 < k
    → k ≤ lut_max
    → (out : List ℕ) × (limit_packed_step (some ps) (some cs) (length cs) k ≡ some out)
      × EachApproaches k ps cs out
limit_packed_step-EachApproaches ps cs k hp hc pos le = (
  limit_words k ps cs,
  accepted_step ps cs (length cs) k hc pos le,
  limit_words-EachApproaches k ps cs (hp ∙ sym hc),
)

-- Refreshing `n` times with one candidate, each time from the LUT that the last refresh left.
pub follow : ℕ → ℕ → List ℕ → List ℕ → List ℕ
follow zero k ps cs = ps
follow (suc n) k ps cs = follow n k (limit_words k ps cs) cs

-- The candidate as its 30 bits.
abbrev pub node_bits : List ℕ → List ℕ
node_bits [] = []
node_bits (c ∷ cs) = (c % 2 ^ 30) ∷ node_bits cs

follow_word : ℕ → ℕ → ℕ → ℕ → ℕ
follow_word zero k p c = p
follow_word (suc n) k p c = follow_word n k (limit_word k p c) c

follow-cons :
    (n k p c : ℕ) (ps cs : List ℕ)
    → follow n k (p ∷ ps) (c ∷ cs) ≡ follow_word n k p c ∷ follow n k ps cs
unfolding follow follow_word limit_words
follow-cons zero k p c ps cs = refl
follow-cons (suc n) k p c ps cs = follow-cons n k (limit_word k p c) c (limit_words k ps cs) cs

follow-nil : (n k : ℕ) → follow n k [] [] ≡ []
unfolding follow limit_words
follow-nil zero k = refl
follow-nil (suc n) k = follow-nil n k

-- The gaps of the channels after `n` refreshes.
follow_word-gaps :
    (n k p c : ℕ)
    → (gap (red (follow_word n k p c)) (red c) ≡ gap (red p) (red c) - n * k)
      × (gap (green (follow_word n k p c)) (green c) ≡ gap (green p) (green c) - n * k)
      × (gap (blue (follow_word n k p c)) (blue c) ≡ gap (blue p) (blue c) - n * k)
unfolding follow_word
follow_word-gaps zero k p c = (omega arith, omega arith, omega arith)
follow_word-gaps (suc n) k p c =
    let ih = follow_word-gaps n k (limit_word k p c) c in
    let w = limit_word-WordApproaches k p c in
    (
      ih.0 ∙ omega (arith, w.on_red.left),
      ih.1 ∙ omega (arith, w.on_green.left),
      ih.2 ∙ omega (arith, w.on_blue.left),
    )

limit_word-lt : (k p c : ℕ) → limit_word k p c < 2 ^ 30
unfolding limit_word
limit_word-lt k p c = omega (
  arith,
  limit_component-lt k (red p) (red c) (omega arith) (omega arith),
  limit_component-lt k (green p) (green c) (omega arith) (omega arith),
  limit_component-lt k (blue p) (blue c) (omega arith) (omega arith),
)

follow_word-lt : (n k p c : ℕ) → p < 2 ^ 30 → follow_word n k p c < 2 ^ 30
unfolding follow_word
follow_word-lt zero k p c lt = lt
follow_word-lt (suc n) k p c lt = follow_word-lt n k (limit_word k p c) c (limit_word-lt k p c)

-- A node is its three channels.
node_of_channels :
    (x c : ℕ)
    → x < 2 ^ 30
    → gap (red x) (red c) ≡ 0
    → gap (green x) (green c) ≡ 0
    → gap (blue x) (blue c) ≡ 0
    → x ≡ c % 2 ^ 30
node_of_channels x c lt r g b = omega arith

gap-lt : (a b : ℕ) → gap (a % 1024) (b % 1024) ≤ 1023
gap-lt a b = omega arith

follow_word-reaches : (n k p c : ℕ) → 1023 ≤ n * k → p < 2 ^ 30 → follow_word n k p c ≡ c % 2 ^ 30
follow_word-reaches n k p c far lt =
    let g = follow_word-gaps n k p c in
    node_of_channels (follow_word n k p c) c (follow_word-lt n k p c lt)
      (g.0 ∙ omega (arith, gap-lt (p / 2 ^ 20) (c / 2 ^ 20)))
      (g.1 ∙ omega (arith, gap-lt (p / 2 ^ 10) (c / 2 ^ 10))) (g.2 ∙ omega (arith, gap-lt p c))

-- Every node of the LUT has 30 bits.
abbrev pub AllNodes : List ℕ → Type 0
AllNodes [] = Unit
AllNodes (p ∷ ps) = (p < 2 ^ 30) × AllNodes ps

-- Enough refreshes with one candidate reach it: `n` of them, if `n` steps make up the whole range of
-- a channel, and whatever the LUT was before.
pub follow-reaches :
    (n k : ℕ) (ps cs : List ℕ)
    → length ps ≡ length cs
    → AllNodes ps
    → 1023 ≤ n * k
    → follow n k ps cs ≡ node_bits cs
follow-reaches n k [] [] e v far = follow-nil n k
follow-reaches n k [] (c ∷ cs) e v far = absurd (omega arith)
follow-reaches n k (p ∷ ps) [] e v far = absurd (omega arith)
follow-reaches n k (p ∷ ps) (c ∷ cs) e v far =
    follow-cons n k p c ps cs
    ∙ ap₂ ◌∷◌ (follow_word-reaches n k p c far v.0) (follow-reaches n k ps cs (omega arith) v.1 far)
