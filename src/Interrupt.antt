-- ===== src/Interrupt.antt =====
-- interrupt.c: from a pending line to its handler.
pub mod Scan
pub mod Svc
pub mod Vectors
use rpi2_baremetal.Common.{
  ◌-◌, ℕ, zero, suc, ◌+◌, ◌*◌, ◌/◌, ◌%◌, ◌^◌, Bool, true, false, Option, none, some, bit_and,
  bit_or, u32, get_elem?, set, ltb, ◌==◌, if◌then◌else◌,
}
use rpi2_baremetal.Machine.{
  Machine, Hw, M, Outcome, done, out_of_fuel, IrqHandler, aux_handler, pure, ◌>>=◌, ◌>>◌, elem,
  io_read, io_write, get_prid,
}
use rpi2_baremetal.Multicore.{local_int_handler}
use rpi2_baremetal.Uart.Setup.{mu_iir}
use rpi2_baremetal.Uart.{
  codes, mu_io, mu_lsr, mu_lsr_rx_ready, uart_send, uart_puts, hexstring, register_value_puts,
}

abbrev pub irq_basic_pend : ℕ
irq_basic_pend = 0x3f00_b200

abbrev pub irq_pend1 : ℕ
irq_pend1 = 0x3f00_b204

abbrev pub irq_pend2 : ℕ
irq_pend2 = 0x3f00_b208

abbrev pub enable_irq1 : ℕ
enable_irq1 = 0x3f00_b210

abbrev pub enable_irq2 : ℕ
enable_irq2 = 0x3f00_b214

abbrev pub enable_basic_irq : ℕ
enable_basic_irq = 0x3f00_b218

abbrev pub disable_irq1 : ℕ
disable_irq1 = 0x3f00_b21c

abbrev pub disable_irq2 : ℕ
disable_irq2 = 0x3f00_b220

abbrev pub disable_basic_irq : ℕ
disable_basic_irq = 0x3f00_b224

-- `ARM_IC_IRQS_ENABLE(irq)`, `ARM_IC_IRQS_DISABLE(irq)` and `ARM_IRQ_MASK(irq)`
unfoldable pub arm_ic_irqs_enable : ℕ → ℕ
arm_ic_irqs_enable irq =
    if ltb irq 32 then enable_irq1 else if ltb irq 64 then enable_irq2 else enable_basic_irq

unfoldable pub arm_ic_irqs_disable : ℕ → ℕ
arm_ic_irqs_disable irq =
    if ltb irq 32 then disable_irq1 else if ltb irq 64 then disable_irq2 else disable_basic_irq

unfoldable pub arm_irq_mask : ℕ → ℕ
arm_irq_mask irq = 2 ^ bit_and irq (32 - 1)

unfoldable pub enable_irq : ℕ → M (Unit {0})
enable_irq n_irq = io_write (arm_ic_irqs_enable n_irq) (arm_irq_mask n_irq)

unfoldable pub disable_irq : ℕ → M (Unit {0})
disable_irq n_irq = io_write (arm_ic_irqs_disable n_irq) (arm_irq_mask n_irq)

unfoldable pub init_irq_handler : M (Unit {0})
init_irq_handler m =
    done tt (record m { irq_handlers = set m.irq_handlers 0x1d (some aux_handler) })

-- `m_ap_irq_handler[n_irq]`
unfoldable pub irq_handler : ℕ → M (Option IrqHandler)
irq_handler n_irq m = elem (get_elem? m.irq_handlers n_irq) m

module _ (hw : Hw) where
  -- `while(!(IO_READ(MU_LSR) & 0x1))`
  unfoldable pub wait_rx : ℕ → M (Unit {0})
  wait_rx zero = λ _. out_of_fuel
  wait_rx (suc polls) = do
    v ← io_read hw mu_lsr
    if bit_and v mu_lsr_rx_ready == 0 then wait_rx polls else pure tt

  -- A byte that has come in is sent back.
  unfoldable pub echo : M (Unit {0})
  echo = do wait_rx hw.polls; rc ← io_read hw mu_io; uart_send hw rc

  -- The loop of `aux_int_handler`.
  unfoldable pub aux_loop : ℕ → M (Unit {0})
  aux_loop zero = λ _. out_of_fuel
  aux_loop (suc polls) = do
    rb ← io_read hw mu_iir
    if bit_and rb 1 == 1
        then pure tt
        else (do (if bit_and rb 6 == 4 then echo else pure tt); aux_loop polls)

  unfoldable pub aux_int_handler : M (Unit {0})
  aux_int_handler = aux_loop hw.polls

  -- `handlers` is the address of `m_ap_irq_handler`, which is printed.
  module _ (handlers : ℕ) where
    unfoldable pub call_irq_handler : ℕ → M Bool
    call_irq_handler n_irq = do
      p_handler ← irq_handler n_irq
      elim p_handler [
        | some aux_handler ↦ (do aux_int_handler; pure true)
        | none ↦ (do
          uart_puts hw (codes "In call_irq_handler\n")
          register_value_puts hw (codes "n_irq: ") n_irq
          register_value_puts hw (codes "m_ap_irq_handler: ") handlers
          disable_irq n_irq
          pure false)
      ]

    -- The `do ... while` on the bits of one register; 32 rounds shift every bit out.
    unfoldable pub scan_bits : ℕ → ℕ → ℕ → M Bool
    scan_bits zero n_pending n_irq = λ _. out_of_fuel
    scan_bits (suc fuel) n_pending n_irq = do
      hit ← (if bit_and n_pending 1 == 0 then pure false else call_irq_handler n_irq)
      if hit
          then pure true
          else (if n_pending / 2 == 0
              then pure false
              else scan_bits fuel (n_pending / 2) (n_irq + 1))

    -- One register of the three.
    unfoldable pub scan_register : ℕ → ℕ → M Bool
    scan_register n_reg n_pending =
        if n_pending == 0 then pure false else scan_bits 32 n_pending (n_reg * 32)

    -- What follows `local_int_handler` in `_interrupt_handler`.
    unfoldable pub scan_pending : M (Unit {0})
    scan_pending = do
      pending0 ← io_read hw irq_pend1
      pending1 ← io_read hw irq_pend2
      basic ← io_read hw irq_basic_pend
      let pending2 = bit_and basic 0xff
      hit0 ← scan_register 0 pending0
      if hit0 then pure tt else (do
        hit1 ← scan_register 1 pending1
        if hit1 then pure tt else (do _ ← scan_register 2 pending2; pure tt))

    -- `_interrupt_handler`
    unfoldable pub interrupt_handler : M (Unit {0})
    interrupt_handler = do local ← local_int_handler hw; if local then pure tt else scan_pending
