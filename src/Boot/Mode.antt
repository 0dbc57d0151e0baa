-- ===== src/Boot/Mode.antt =====
-- `safe_svcmode_maskall` of boot.s: every core gets to supervisor mode.
use Prim.Native.Nat.{bit_xor}
use rpi2_baremetal.Common.{
  ℕ, zero, suc, ◌+◌, ◌*◌, ◌/◌, ◌%◌, ◌^◌, ◌<◌, ◌≡◌, ◌≢◌, refl, bit_and, bit_or, some, Bool, true,
  false, ◌&&◌, ◌||◌, not, inl, inr, ltb, ==_false, ◌==◌, Bool-cases, bit_and_mask, bit_and_shift,
  bit_or-zero, or_split, xor_low, arith,
}
use rpi2_baremetal.Boot.{
  Boot, mode_bits, hyp_mode, psr_usr, psr_svc, write_control, safe_svcmode_maskall,
}

-- `n ^ 0x1a` fits the mode field, and is 0 for HYP mode alone.
abbrev fits : ℕ → Bool
fits n = ltb (bit_xor n hyp_mode) 32 && (n == hyp_mode || not (bit_xor n hyp_mode == 0))

abbrev all_fit : ℕ → Bool
all_fit zero = true
all_fit (suc n) = fits n && all_fit n

all_fit-below : (n r : ℕ) → all_fit n ≡ true → r < n → fits r ≡ true
all_fit-below zero r all lt = absurd (omega arith)
all_fit-below (suc n) r all lt = elim (Bool-cases (r == n)) [
  | inl same ↦ let e : r ≡ n = ground arith in rw e (ground arith)
  | inr ne ↦ all_fit-below n r (ground arith) (ground arith)
]

-- `tst` of the macro tells HYP mode from the others.
tests_mode : (cpsr : ℕ) → cpsr % 32 ≢ hyp_mode → (bit_and (bit_xor cpsr hyp_mode) 0x1f == 0) ≡ false
tests_mode cpsr ne =
    let fit = all_fit-below 32 (cpsr % 32) refl (omega arith) in
    let low = xor_low 5 (cpsr / 32) (cpsr % 32) hyp_mode (omega arith) (omega arith) in
    let whole : cpsr / 32 * 32 + cpsr % 32 ≡ cpsr = omega arith in
    let masked = bit_and_mask 5 (bit_xor cpsr hyp_mode) in ground (arith, rw whole at low)

tests_hyp : (cpsr : ℕ) → cpsr % 32 ≡ hyp_mode → (bit_and (bit_xor cpsr hyp_mode) 0x1f == 0) ≡ true
tests_hyp cpsr e =
    let low = xor_low 5 (cpsr / 32) hyp_mode hyp_mode (omega arith) (omega arith) in
    let whole : cpsr / 32 * 32 + hyp_mode ≡ cpsr = omega arith in
    let masked = bit_and_mask 5 (bit_xor cpsr hyp_mode) in ground (arith, rw whole at low)

-- The mode bits of what the macro writes.
supervisor_bits : (t : ℕ) → bit_or (bit_and t 0xffff_ffe0) 0xd3 % 32 ≡ psr_svc
supervisor_bits t =
    let high = bit_and_shift 5 t 0x7ff_ffff in
    let split = or_split 5 (bit_and (t / 32) 0x7ff_ffff) 0 6 0x13 (omega arith) (omega arith) in
    let no_low : bit_and (t / 32) 0x7ff_ffff * 2 ^ 5 + 0 ≡ bit_and (t / 32) 0x7ff_ffff * 2 ^ 5 =
      omega arith in
    rw high (omega (arith, rw no_low at split))

abort_bit : (reg : ℕ) → reg % 32 ≡ psr_svc → bit_or reg 0x100 % 32 ≡ psr_svc
abort_bit reg svc =
    let split = or_split 5 (reg / 32) (reg % 32) 8 0 (omega arith) (omega arith) in
    let whole : reg / 32 * 32 + reg % 32 ≡ reg = omega arith in
    omega (arith, rw whole at split, bit_or-zero (reg % 32))

-- From every mode but user mode the macro gets to supervisor mode, and changes nothing else.
pub safe_svcmode_maskall-mode :
    (s : Boot)
    → mode_bits s ≢ psr_usr
    → (c : ℕ) × (safe_svcmode_maskall s ≡ some (record s { cpsr = c })) × (c % 32 ≡ psr_svc)
unfolding safe_svcmode_maskall write_control
safe_svcmode_maskall-mode s privileged =
    let reg = bit_or (bit_and (bit_xor s.cpsr hyp_mode) 0xffff_ffe0) 0xd3 in
    let svc = supervisor_bits (bit_xor s.cpsr hyp_mode) in
    elim (Bool-cases (mode_bits s == hyp_mode)) [
      | inl hyp ↦ (bit_or reg 0x100, rw (tests_hyp s.cpsr (ground arith)) refl, abort_bit reg svc)
      | inr other ↦ (
        s.cpsr / 256 * 256 + reg % 256,
        rw (tests_mode s.cpsr (ground arith), other, ==_false (mode_bits s) psr_usr privileged)
            refl,
        omega arith,
      )
    ]
