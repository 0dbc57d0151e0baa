-- ===== src/Multicore.antt =====
-- multicore.c and experiment.c: mailboxes between the cores, and the start of cores 1 to 3.
pub mod Ack
pub mod Start
use rpi2_baremetal.Common.{
  List, ℕ, zero, suc, ◌+◌, ◌-◌, ◌*◌, ◌/◌, ◌%◌, ◌^◌, Bool, true, false, bit_and, bit_or, u32, ltb,
  ◌==◌, if◌then◌else◌,
}
use rpi2_baremetal.Machine.{
  Machine, Hw, M, out_of_fuel, pure, ◌>>=◌, ◌>>◌, exp_lock, io_read, io_write, load, get_prid,
}
use rpi2_baremetal.Uart.{codes, spin_req, spin_rel, uart_puts, hexstring, register_value_puts}
use rpi2_baremetal.Sysinfo.{num_cpu}

abbrev pub gpu_int_routing : ℕ
gpu_int_routing = 0x4000_000c

abbrev pub mailbox_int_control0 : ℕ
mailbox_int_control0 = 0x4000_0050

abbrev pub irq_pending0 : ℕ
irq_pending0 = 0x4000_0060

abbrev pub mailbox0_set0 : ℕ
mailbox0_set0 = 0x4000_0080

abbrev pub mailbox3_set0 : ℕ
mailbox3_set0 = 0x4000_008c

abbrev pub mailbox0_clr0 : ℕ
mailbox0_clr0 = 0x4000_00c0

abbrev pub mailbox3_clr0 : ℕ
mailbox3_clr0 = 0x4000_00cc

unfoldable pub send_ipi : ℕ → ℕ → M (Unit {0})
send_ipi n_core n_ipi = io_write (mailbox0_set0 + 0x10 * n_core) (2 ^ n_ipi)

module _ (hw : Hw) where
  -- experiment.c; `address` is read from RAM.
  unfoldable pub check_address : ℕ → M (Unit {0})
  check_address address = do
    hexstring hw address
    uart_puts hw (codes ": ")
    v ← load address
    hexstring hw v
    uart_puts hw (codes "\n")

  -- `for (i = 0x00000000; i < 0x43000000; i += 0x00100000)`, with `n` sections left.
  unfoldable pub check_loop : ℕ → ℕ → M (Unit {0})
  check_loop zero i = pure tt
  check_loop (suc n) i = do check_address i; check_loop n (i + 0x10_0000)

  unfoldable pub output_access_policy : M (Unit {0})
  output_access_policy = do
    spin_req hw exp_lock
    uart_puts hw (codes "========================================================\n")
    prid ← get_prid
    register_value_puts hw (codes "CPUID: ") prid
    check_loop 0x430 0
    uart_puts hw (codes "========================================================\n")
    spin_rel hw exp_lock

  -- The loop over the cores, with `n` of them left.
  unfoldable pub policy_loop : ℕ → ℕ → M (Unit {0})
  policy_loop zero i = pure tt
  policy_loop (suc n) i = do
    prid ← get_prid
    (if i == prid then output_access_policy else if ltb 1 i then send_ipi i 0x2 else pure tt)
    policy_loop n (i + 1)

  unfoldable pub output_all_pm_access_policy : M (Unit {0})
  output_all_pm_access_policy = policy_loop num_cpu 0

  unfoldable pub ipi_handler : ℕ → ℕ → M (Unit {0})
  ipi_handler n_core n_ipi =
      if n_ipi == 0x1
      then (do prid ← get_prid; register_value_puts hw (codes "Hello from CPU core ") prid)
      else if n_ipi == 0x2
      then output_access_policy
      else pure tt

  -- `for (n_ipi = 0; !(n_ipi_mask & 1); n_ipi++) n_ipi_mask >>= 1;` on fuel.
  unfoldable pub ipi_scan : ℕ → ℕ → ℕ → M ℕ
  ipi_scan zero mask n_ipi = λ _. out_of_fuel
  ipi_scan (suc fuel) mask n_ipi =
      if bit_and mask 1 == 0 then ipi_scan fuel (mask / 2) (n_ipi + 1) else pure n_ipi

  unfoldable pub local_int_handler : M Bool
  local_int_handler = do
    n_core ← get_prid
    pending ← io_read hw (irq_pending0 + 4 * n_core)
    if bit_and pending 0x10 == 0 then pure false else (do
      let n_mb_clr = mailbox0_clr0 + 0x10 * n_core
      n_ipi_mask ← io_read hw n_mb_clr
      if n_ipi_mask == 0 then pure false else (do
        n_ipi ← ipi_scan 32 n_ipi_mask 0
        io_write n_mb_clr (2 ^ n_ipi)
        ipi_handler n_core n_ipi
        pure true))

  -- `while (read32(n_mb_clr) != 0) { ...; if (++n_timeout > 1000000) ... }`, with `left` rounds
  -- before the time is over; whether the mailbox was seen empty. The first of the two loops
  -- prints its count.
  unfoldable pub mailbox_wait : Bool → ℕ → ℕ → ℕ → M Bool
  mailbox_wait loud n_mb_clr zero n_timeout = do
    v ← io_read hw n_mb_clr
    if v == 0 then pure true else (do
      (if loud then register_value_puts hw (codes "n_timeout: ") n_timeout else pure tt)
      pure false)
  mailbox_wait loud n_mb_clr (suc left) n_timeout = do
    v ← io_read hw n_mb_clr
    if v == 0 then pure true else (do
      (if loud then register_value_puts hw (codes "n_timeout: ") n_timeout else pure tt)
      mailbox_wait loud n_mb_clr left (n_timeout + 1))

  unfoldable pub give_up : ℕ → List ℕ → M Bool
  give_up n_core message = do
    uart_puts hw (codes "CPU core ")
    hexstring hw n_core
    uart_puts hw message
    pure false

  -- `entry` is the address of `_secondary_start`, `limit` the 1000000 of the source. The loops of
  -- the source that only count down are left out.
  module _ (entry limit : ℕ) where
    unfoldable pub start_loop : ℕ → ℕ → M Bool
    start_loop zero n_core = pure true
    start_loop (suc n) n_core = do
      let n_mb_clr = mailbox3_clr0 + 0x10 * n_core
      responds ← mailbox_wait true n_mb_clr limit 0
      if responds
          then (do
            io_write (mailbox3_set0 + 0x10 * n_core) entry
            started ← mailbox_wait false n_mb_clr limit 0
            if started then start_loop n (n_core + 1) else give_up n_core (codes "did not start\n"))
          else give_up n_core (codes "does not respond\n")

    unfoldable pub start_secondary_core : M Bool
    start_secondary_core = do
      n_routing ← io_read hw gpu_int_routing
      io_write gpu_int_routing (bit_or (bit_and n_routing 0xffff_fff3) (2 ^ 2))
      io_write mailbox_int_control0 1
      start_loop 3 1
