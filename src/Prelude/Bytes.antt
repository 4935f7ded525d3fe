-- ===== src/Prelude/Bytes.antt =====
-- Bytes as native numbers below 256: big-endian words, and laws checked over every byte.
use Prim.Native.Nat.{ℕ, zero, suc, ◌%◌, ◌<◌}
use mathlib.Core.Path.{◌≡◌}
use mathlib.Core.Bool.{Bool, true, ◌&&◌}
use mathlib.Core.List.{List, [], ◌∷◌}
use native.Mathlib.Omega.{arith}

-- `(uint8_t)x`
abbrev pub to_byte : ℕ → ℕ
to_byte x = x % 256

-- Every element is a byte.
abbrev pub AllBytes : List ℕ → Type 0
AllBytes [] = Unit
AllBytes (x ∷ xs) = (x < 256) × AllBytes xs

-- Whether a test passes at every number under a bound, by trying them all.
unfoldable pub passes_under : (ℕ → Bool) → ℕ → Bool
passes_under test zero = true
passes_under test (suc bound) = passes_under test bound && test bound

pub passes_at :
    (test : ℕ → Bool) {bound k : ℕ} → passes_under test bound ≡ true → k < bound → test k ≡ true
unfolding passes_under
passes_at test {bound = zero} table below = absurd (omega arith)
passes_at test {bound = suc bound} {k = k} table below =
    ground (arith, passes_at test {bound = bound} {k = k})
