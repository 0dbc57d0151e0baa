-- ===== src/Common/Bits.antt =====
-- `&`, `|` and shifts of uint32_t as arithmetic, at every width.
use Prim.Native.Nat.{
  ℕ, zero, suc, ◌+◌, ◌-◌, ◌*◌, ◌/◌, ◌%◌, ◌^◌, ◌≤◌, ◌<◌, min, max, bit_and, bit_or, bit_xor, differ,
  digits, bitwise, bit_and-bitwise, bit_or-bitwise, bit_xor-bitwise,
}
use mathlib.Core.Path.{◌≡◌, refl, ap, sym, ◌∙◌}
use native.Mathlib.Nat.{
  add-mul-mod_self_right, mod-eq_of_lt, div-add-mod', mod-lt, add-zero, add-suc, pow-suc,
  one-le-pow, le_refl, div-div-eq-div-mul,
}
use native.Mathlib.Omega.{arith}

-- A value of type uint32_t.
abbrev pub u32 : ℕ → ℕ
u32 n = n % 2 ^ 32

-- What `-1` is as a uint32_t.
abbrev pub minus_one : ℕ
minus_one = 0xffff_ffff

-- a - b in uint32_t; 2 ^ 32 is added first since `-` on ℕ stops at 0.
abbrev pub sub32 : ℕ → ℕ → ℕ
sub32 a b = (a + 2 ^ 32 - b) % 2 ^ 32

-- `bitwise` is a recursion on the binary digits with the number as its fuel; any fuel from the
-- number up gives the same.
module _ (rest : ℕ → ℕ) (op : ℕ → ℕ → ℕ) where
  more_fuel : (fuel x y : ℕ) → x ≤ fuel → digits rest op fuel x y ≡ digits rest op (suc fuel) x y
  more_fuel zero zero y le = refl
  more_fuel (suc fuel) zero y le = refl
  more_fuel zero (suc x) y le = absurd (omega arith)
  more_fuel (suc fuel) (suc x) y le = rw (more_fuel fuel (suc x / 2) (y / 2) (omega arith)) refl

  spare_fuel : (spare x y : ℕ) → digits rest op (x + spare) x y ≡ digits rest op x x y
  spare_fuel zero x y = rw add-zero refl
  spare_fuel (suc spare) x y =
      rw add-suc (sym (more_fuel (x + spare) x y (omega arith)) ∙ spare_fuel spare x y)

  lowest_digit :
      (x y : ℕ)
      → op (suc x % 2) (y % 2) + 2 * bitwise rest op (suc x / 2) (y / 2) ≡ bitwise rest op (suc x) y
  lowest_digit x y =
      let enough : suc x / 2 + (x - suc x / 2) ≡ x = omega arith in
      omega (arith, rw enough at (spare_fuel (x - suc x / 2) (suc x / 2) (y / 2)))

-- One digit of `&`, then one of `|`.
pub bit_and_step : (x y : ℕ) → min (x % 2) (y % 2) + 2 * bit_and (x / 2) (y / 2) ≡ bit_and x y
bit_and_step zero y = simp bit_and-bitwise (omega arith)
bit_and_step (suc x) y = simp bit_and-bitwise (omega (arith, lowest_digit (λ rest. 0) min x y))

pub bit_or_step : (x y : ℕ) → max (x % 2) (y % 2) + 2 * bit_or (x / 2) (y / 2) ≡ bit_or x y
bit_or_step zero y = simp bit_or-bitwise (omega arith)
bit_or_step (suc x) y = simp bit_or-bitwise (omega (arith, lowest_digit (λ rest. rest) max x y))

-- One digit of an exclusive or.
pub bit_xor_step : (x y : ℕ) → differ (x % 2) (y % 2) + 2 * bit_xor (x / 2) (y / 2) ≡ bit_xor x y
bit_xor_step zero y = simp bit_xor-bitwise (ground arith)
bit_xor_step (suc x) y =
    simp bit_xor-bitwise (omega (arith, lowest_digit (λ rest. rest) differ x y))

differ_zero : (x : ℕ) → differ x 0 ≡ x
differ_zero zero = refl
differ_zero (suc x) = refl

xor_zero : (bound a : ℕ) → a ≤ bound → bit_xor a 0 ≡ a
xor_zero zero zero le = refl
xor_zero zero (suc a) le = absurd (omega arith)
xor_zero (suc bound) zero le = refl
xor_zero (suc bound) (suc a) le = ground (
  arith,
  bit_xor_step (suc a) 0,
  differ_zero (suc a % 2),
  xor_zero bound (suc a / 2) (omega arith),
)

pub bit_xor-zero : (a : ℕ) → bit_xor a 0 ≡ a
bit_xor-zero a = xor_zero a a (le_refl _)

with_zero : (bound a : ℕ) → a ≤ bound → (bit_or a 0 ≡ a) × (bit_and a 0 ≡ 0)
with_zero zero zero le = (refl, refl)
with_zero zero (suc a) le = absurd (omega arith)
with_zero (suc bound) zero le = (refl, refl)
with_zero (suc bound) (suc a) le =
    let (or, and) = with_zero bound (suc a / 2) (omega arith) in
    (omega (arith, bit_or_step (suc a) 0, or), omega (arith, bit_and_step (suc a) 0, and))

pub bit_or-zero : (a : ℕ) → bit_or a 0 ≡ a
bit_or-zero a = (with_zero a a (le_refl _)).0

pub bit_and-zero : (a : ℕ) → bit_and a 0 ≡ 0
bit_and-zero a = (with_zero a a (le_refl _)).1

pub double_shift : (q k : ℕ) → q * 2 ^ suc k ≡ 2 * (q * 2 ^ k)
double_shift q k = omega (arith, ap (λ (t : ℕ). q * t) (pow-suc 2 k))

-- `(high << k) | low` is a sum where `low` fits `k` bits.
pub bit_or_fields : (k high low : ℕ) → low < 2 ^ k → bit_or (high * 2 ^ k) low ≡ high * 2 ^ k + low
bit_or_fields zero high low fits =
    let none_left : low ≡ 0 = omega arith in
    let whole : high * 1 ≡ high = omega arith in
    rw (none_left, whole) (bit_or-zero high ∙ omega arith)
bit_or_fields (suc k) high low fits =
    let shifted = double_shift high k in
    let upper = bit_or_fields k high (low / 2) (omega (arith, pow-suc 2 k)) in
    ground (arith, upper, shifted, bit_or_step (high * 2 ^ suc k) low)

pub half_shift : (k a : ℕ) → a / 2 / 2 ^ k ≡ a / 2 ^ suc k
half_shift k a =
    rw (div-div-eq-div-mul a 2 (2 ^ k)) (ap (λ (t : ℕ). a / t) (omega (arith, pow-suc 2 k)))

-- A mask of one bit reads that bit.
pub bit_and_pow : (k a : ℕ) → bit_and a (2 ^ k) ≡ a / 2 ^ k % 2 * 2 ^ k
bit_and_pow zero a = omega (arith, bit_and_step a 1, bit_and-zero (a / 2))
bit_and_pow (suc k) a = ground (
  arith,
  bit_and_step a (2 ^ suc k),
  pow-suc 2 k,
  half_shift k a,
  bit_and_pow k (a / 2),
  double_shift (a / 2 ^ suc k % 2) k,
)

-- A mask of the high bits clears the low ones.
pub bit_and_shift : (k a b : ℕ) → bit_and a (b * 2 ^ k) ≡ bit_and (a / 2 ^ k) b * 2 ^ k
bit_and_shift zero a b = rw one_times (rw whole (omega arith))
  where
    one_times : b * 1 ≡ b
    one_times = omega arith

    whole : a / 1 ≡ a
    whole = omega arith
bit_and_shift (suc k) a b = ground (
  arith,
  bit_and_step a (b * 2 ^ suc k),
  double_shift b k,
  double_shift (bit_and (a / 2 ^ suc k) b) k,
  half_shift k a,
  bit_and_shift k (a / 2) b,
)

-- The lowest digit of a remainder apart from the rest of it.
pub low_digits : (k a : ℕ) → a % 2 ^ suc k ≡ 2 * (a / 2 % 2 ^ k) + a % 2
low_digits k a =
    ap (λ (t : ℕ). t % 2 ^ suc k) split
    ∙ (add-mul-mod_self_right (2 * (a / 2 % 2 ^ k) + a % 2) (a / 2 / 2 ^ k) (2 ^ suc k)
        ∙ mod-eq_of_lt fits)
  where
    split : a ≡ 2 * (a / 2 % 2 ^ k) + a % 2 + a / 2 / 2 ^ k * 2 ^ suc k
    split = omega (arith, div-add-mod' (a / 2) (2 ^ k), double_shift (a / 2 / 2 ^ k) k)

    fits : 2 * (a / 2 % 2 ^ k) + a % 2 < 2 ^ suc k
    fits = omega (arith, pow-suc 2 k, mod-lt (a / 2) (one-le-pow k 2 (omega arith)))

-- A mask of `k` low bits is the remainder by `2 ^ k`.
pub bit_and_mask : (k a : ℕ) → bit_and a (2 ^ k - 1) ≡ a % 2 ^ k
bit_and_mask zero a = rw (bit_and-zero a) (omega arith)
bit_and_mask (suc k) a = ground (
  arith,
  one-le-pow k 2,
  pow-suc 2 k,
  bit_and_step a (2 ^ suc k - 1),
  bit_and_mask k (a / 2),
  low_digits k a,
)

-- `|` of low bits leaves the high ones.
pub bit_or_low :
    (k q r s : ℕ) → r < 2 ^ k → s < 2 ^ k → bit_or (q * 2 ^ k + r) s ≡ q * 2 ^ k + bit_or r s
bit_or_low zero q r s hr hs =
    let r0 : r ≡ 0 = omega arith in
    let s0 : s ≡ 0 = omega arith in rw (r0, s0) (bit_or-zero (q * 1 + 0))
bit_or_low (suc k) q r s hr hs = ground (
  arith,
  bit_or_step (q * 2 ^ suc k + r) s,
  bit_or_step r s,
  double_shift q k,
  pow-suc 2 k,
  bit_or_low k q (r / 2) (s / 2) (omega (arith, pow-suc 2 k)) (omega (arith, pow-suc 2 k)),
)
