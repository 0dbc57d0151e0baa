-- ===== src/Common/Fields.antt =====
-- Bit fields: `&` and `|` on the high and on the low bits, and a field of three bits replaced.
use Prim.Native.Nat.{ℕ, zero, suc, ◌+◌, ◌-◌, ◌*◌, ◌/◌, ◌^◌, ◌<◌, bit_and, bit_or, bit_xor}
use mathlib.Core.Path.{◌≡◌, ap, ap₂, ◌∙◌}
use native.Mathlib.Nat.{mod-eq_of_lt, pow-suc, one-le-pow}
use native.Mathlib.Omega.{arith}
use rpi2_baremetal.Common.Bits.{
  bit_and_step, bit_or_step, bit_xor_step, bit_xor-zero, double_shift, bit_and_mask, bit_and_shift,
  bit_or_fields, bit_or-zero,
}

and_split :
    (k q r h l : ℕ)
    → r < 2 ^ k
    → l < 2 ^ k
    → bit_and (q * 2 ^ k + r) (h * 2 ^ k + l) ≡ bit_and q h * 2 ^ k + bit_and r l
and_split zero q r h l hr hl =
    let r0 : r ≡ 0 = omega arith in
    let l0 : l ≡ 0 = omega arith in
    let q1 : q * 1 + 0 ≡ q = omega arith in
    let h1 : h * 1 + 0 ≡ h = omega arith in rw (r0, l0, q1, h1) (omega arith)
and_split (suc k) q r h l hr hl = ground (
  arith,
  bit_and_step (q * 2 ^ suc k + r) (h * 2 ^ suc k + l),
  bit_and_step r l,
  double_shift q k,
  double_shift h k,
  double_shift (bit_and q h) k,
  pow-suc 2 k,
  and_split k q (r / 2) h (l / 2) (omega (arith, pow-suc 2 k)) (omega (arith, pow-suc 2 k)),
)

pub or_split :
    (k q r h l : ℕ)
    → r < 2 ^ k
    → l < 2 ^ k
    → bit_or (q * 2 ^ k + r) (h * 2 ^ k + l) ≡ bit_or q h * 2 ^ k + bit_or r l
or_split zero q r h l hr hl =
    let r0 : r ≡ 0 = omega arith in
    let l0 : l ≡ 0 = omega arith in
    let q1 : q * 1 + 0 ≡ q = omega arith in
    let h1 : h * 1 + 0 ≡ h = omega arith in rw (r0, l0, q1, h1) (omega arith)
or_split (suc k) q r h l hr hl = ground (
  arith,
  bit_or_step (q * 2 ^ suc k + r) (h * 2 ^ suc k + l),
  bit_or_step r l,
  double_shift q k,
  double_shift h k,
  double_shift (bit_or q h) k,
  pow-suc 2 k,
  or_split k q (r / 2) h (l / 2) (omega (arith, pow-suc 2 k)) (omega (arith, pow-suc 2 k)),
)

-- An exclusive or of low bits leaves the high ones.
pub xor_low :
    (k q r s : ℕ) → r < 2 ^ k → s < 2 ^ k → bit_xor (q * 2 ^ k + r) s ≡ q * 2 ^ k + bit_xor r s
xor_low zero q r s hr hs =
    let r0 : r ≡ 0 = omega arith in
    let s0 : s ≡ 0 = omega arith in rw (r0, s0) (bit_xor-zero (q * 1 + 0))
xor_low (suc k) q r s hr hs = ground (
  arith,
  bit_xor_step (q * 2 ^ suc k + r) s,
  bit_xor_step r s,
  double_shift q k,
  pow-suc 2 k,
  xor_low k q (r / 2) (s / 2) (omega (arith, pow-suc 2 k)) (omega (arith, pow-suc 2 k)),
)

-- `(v & ~(7 << k)) | (f << k)`: the field of three bits from bit `k` on is `f` then.
pub set_field :
    (k j q r f : ℕ)
    → r < 2 ^ k
    → q / 8 < 2 ^ j
    → f < 8
    → bit_or (bit_and (q * 2 ^ k + r) ((2 ^ j - 1) * 8 * 2 ^ k + (2 ^ k - 1))) (f * 2 ^ k)
      ≡ (q / 8 * 8 + f) * 2 ^ k + r
set_field k j q r f low high small =
    ap (λ (t : ℕ). bit_or t (f * 2 ^ k)) cleared
    ∙ (ap (bit_or (q / 8 * 8 * 2 ^ k + r)) (omega arith)
        ∙ (or_split k (q / 8 * 8) r f 0 low (one-le-pow k 2 (omega arith))
            ∙ ap₂ (λ (s t : ℕ). s * 2 ^ k + t) (bit_or_fields 3 (q / 8) f small) (bit_or-zero r)))
  where
    cleared :
        bit_and (q * 2 ^ k + r) ((2 ^ j - 1) * 8 * 2 ^ k + (2 ^ k - 1)) ≡ q / 8 * 8 * 2 ^ k + r
    cleared =
        and_split k q r ((2 ^ j - 1) * 8) (2 ^ k - 1) low
          (omega (arith, one-le-pow k 2 (omega arith)))
        ∙ ap₂ (λ (s t : ℕ). s * 2 ^ k + t)
            (bit_and_shift 3 q (2 ^ j - 1)
              ∙ ap (λ (t : ℕ). t * 8) (bit_and_mask j (q / 8) ∙ mod-eq_of_lt high))
            (bit_and_mask k r ∙ mod-eq_of_lt low)
