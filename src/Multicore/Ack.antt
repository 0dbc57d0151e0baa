-- ===== src/Multicore/Ack.antt =====
-- `local_int_handler`: which request a core takes from its mailbox.
use rpi2_baremetal.Common.{
  ℕ, zero, suc, ◌+◌, ◌*◌, ◌/◌, ◌%◌, ◌^◌, ◌<◌, ◌≡◌, ◌≢◌, sym, ap, ◌∙◌, true, false, inl, inr, arith,
  bit_and, bit_and_mask, ==_false, half_shift, low_digits, ◌==◌, Bool-cases,
}
use native.Mathlib.Nat.{pow-suc}
use rpi2_baremetal.Machine.{Machine, Hw, done, pure, ◌>>◌, io_read, io_write, get_prid, bind-done}
use rpi2_baremetal.Multicore.{irq_pending0, mailbox0_clr0, ipi_scan, ipi_handler, local_int_handler}

-- `n` is the lowest bit set in `mask`.
pub record IsLowest (mask n : ℕ) : Type 0 where
  pub set_bit : mask / 2 ^ n % 2 ≡ 1
  pub none_below : mask % 2 ^ n ≡ 0

even_word : (mask : ℕ) → (bit_and mask 1 == 0) ≡ true → mask % 2 ≡ 0
even_word mask e = ground (arith, bit_and_mask 1 mask)

odd_word : (mask : ℕ) → (bit_and mask 1 == 0) ≡ false → mask % 2 ≡ 1
odd_word mask e = ground (arith, bit_and_mask 1 mask)

ipi_scan-IsLowest :
    (hw : Hw) (fuel mask n : ℕ) (m : Machine)
    → mask < 2 ^ fuel
    → mask ≢ 0
    → (k : ℕ) × (ipi_scan hw fuel mask n m ≡ done (n + k) m) × IsLowest mask k × (k < fuel)
unfolding ipi_scan
ipi_scan-IsLowest hw zero mask n m fits ne = absurd (ne (omega arith))
ipi_scan-IsLowest hw (suc fuel) mask n m fits ne = elim (Bool-cases (bit_and mask 1 == 0)) [
  | inr odd ↦
      let here : n ≡ n + 0 = omega arith in
      (
        0,
        rw odd (ap (λ (t : ℕ). done t m) here),
        record { set_bit = omega (arith, odd_word mask odd); none_below = omega arith },
        omega arith,
      )
  | inl even ↦
      let (k, e, f, below) =
        ipi_scan-IsLowest hw fuel (mask / 2) (n + 1) m (omega (arith, fits, pow-suc 2 fuel))
          (λ z. ne (omega (arith, z, even_word mask even))) in
      let there : n + 1 + k ≡ n + suc k = omega arith in
      (
        suc k,
        rw even (e ∙ ap (λ (t : ℕ). done t m) there),
        record {
          set_bit = rw (sym (half_shift k mask)) f.set_bit;
          none_below = omega (arith, low_digits k mask, f.none_below, even_word mask even);
        },
        omega arith,
      )
]

-- The bus after a read.
abbrev pub read_one : Machine → Machine
read_one m = record m { bus = record (m.bus) { ticks = m.bus.ticks + 1 } }

-- A core with a request pending and a mailbox that gives a 32-bit word that is not 0 takes the
-- lowest request of the word: `local_int_handler` writes that bit, and no other, to the mailbox's
-- clear register, handles that request, and answers yes if the handling returns.
pub local_int_handler-IsLowest :
    (hw : Hw) (m : Machine)
    → bit_and (hw.read m.bus (irq_pending0 + 4 * m.cpu)) 0x10 ≢ 0
    → hw.read (read_one m).bus (mailbox0_clr0 + 0x10 * m.cpu) ≢ 0
    → hw.read (read_one m).bus (mailbox0_clr0 + 0x10 * m.cpu) < 2 ^ 32
    → (n_ipi : ℕ) × (n_ipi < 32)
      × IsLowest (hw.read (read_one m).bus (mailbox0_clr0 + 0x10 * m.cpu)) n_ipi
      × (local_int_handler hw m
          ≡ (do
            io_write (mailbox0_clr0 + 0x10 * m.cpu) (2 ^ n_ipi)
            ipi_handler hw m.cpu n_ipi
            pure true)
              (read_one (read_one m)))
unfolding local_int_handler io_read get_prid
local_int_handler-IsLowest hw m pending some_ipi fits =
    let mask = hw.read (read_one m).bus (mailbox0_clr0 + 0x10 * m.cpu) in
    let (k, e, f, below) = ipi_scan-IsLowest hw 32 mask 0 (read_one (read_one m)) fits some_ipi in
    let start : 0 + k ≡ k = omega arith in
    (
      k,
      below,
      f,
      rw (==_false (bit_and (hw.read m.bus (irq_pending0 + 4 * m.cpu)) 0x10) 0 pending) (
          rw (==_false mask 0 some_ipi)
            (bind-done (ipi_scan hw 32 mask 0) _ (read_one (read_one m)) (rw start at e))),
    )
