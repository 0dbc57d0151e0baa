-- ===== src/Common/Lanes.antt =====
-- The bytes of a 32-bit word, the lowest first.
use Prim.Native.Nat.{ℕ, zero, suc, ◌+◌, ◌-◌, ◌*◌, ◌/◌, ◌%◌, ◌<◌}
use mathlib.Core.Path.{◌≡◌, refl}
use mathlib.Core.Logic.{◌≢◌}
use native.Mathlib.Omega.{arith}

-- The weight of a byte.
abbrev pub lane : ℕ → ℕ
lane zero = 1
lane (suc zero) = 0x100
lane (suc (suc zero)) = 0x1_0000
lane (suc (suc (suc r))) = 0x100_0000

-- The word with another byte in its place `r`.
abbrev pub with_byte : ℕ → ℕ → ℕ → ℕ
with_byte w r v = w - w / lane r % 256 * lane r + v % 256 * lane r

pub with_byte-same : (w r v : ℕ) → with_byte w r v / lane r % 256 ≡ v % 256
with_byte-same w zero v = omega arith
with_byte-same w (suc zero) v = omega arith
with_byte-same w (suc (suc zero)) v = omega arith
with_byte-same w (suc (suc (suc r))) v = omega arith

pub with_byte-other :
    (w r s v : ℕ) → r < 4 → s < 4 → r ≢ s → with_byte w r v / lane s % 256 ≡ w / lane s % 256
with_byte-other w zero zero v p q ne = absurd (ne refl)
with_byte-other w zero (suc zero) v p q ne = omega arith
with_byte-other w zero (suc (suc zero)) v p q ne = omega arith
with_byte-other w zero (suc (suc (suc s))) v p q ne = omega arith
with_byte-other w (suc zero) zero v p q ne = omega arith
with_byte-other w (suc zero) (suc zero) v p q ne = absurd (ne refl)
with_byte-other w (suc zero) (suc (suc zero)) v p q ne = omega arith
with_byte-other w (suc zero) (suc (suc (suc s))) v p q ne = omega arith
with_byte-other w (suc (suc zero)) zero v p q ne = omega arith
with_byte-other w (suc (suc zero)) (suc zero) v p q ne = omega arith
with_byte-other w (suc (suc zero)) (suc (suc zero)) v p q ne = absurd (ne refl)
with_byte-other w (suc (suc zero)) (suc (suc (suc s))) v p q ne = omega arith
with_byte-other w (suc (suc (suc r))) zero v p q ne = omega arith
with_byte-other w (suc (suc (suc r))) (suc zero) v p q ne = omega arith
with_byte-other w (suc (suc (suc r))) (suc (suc zero)) v p q ne = omega arith
with_byte-other w (suc (suc (suc r))) (suc (suc (suc s))) v p q ne = absurd (omega arith)
