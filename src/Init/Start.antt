-- ===== src/Init/Start.antt =====
-- init.c: what the cores run when they start, and the start of the kernel on several cores. Waits
-- that only count down are left out.
use rpi2_baremetal.Common.{
  ℕ, zero, suc, ◌+◌, ◌-◌, ◌*◌, ◌^◌, none, false, u32, leb, replicate, ◌==◌, if◌then◌else◌,
}
use rpi2_baremetal.Machine.{
  Hw, M, done, out_of_fuel, pure, ◌>>=◌, ◌>>◌, update, uart_lock, smp_queue_lock, exp_lock,
  io_write, load, store, store_byte, get_prid, mask_irq,
}
use rpi2_baremetal.Uart.Setup.{mini_uart_init}
use rpi2_baremetal.Sysinfo.{
  pcore, get_pm, get_prev_pm, get_sys_struct_info, struct_info, get_waking_cores, inc_waking_cores,
}
use rpi2_baremetal.Sysinfo.Config.{init_sysinfos}
use rpi2_baremetal.Mmu.Switch.{init_mmu, start_mmu_no_lock}
use rpi2_baremetal.Heap.{kmalloc, kfree}
use rpi2_baremetal.Interrupt.{enable_irq1, disable_irq1, init_irq_handler}
use rpi2_baremetal.Multicore.{
  mailbox3_clr0, mailbox_int_control0, start_secondary_core, output_all_pm_access_policy,
}
use rpi2_baremetal.Init.{init_ttbs}

abbrev pub all_smp_mode : ℕ
all_smp_mode = 0

-- `smp_queue_lock = 0`
unfoldable pub clear_queue_lock : M (Unit {0})
clear_queue_lock m = done tt (record m { lock = update m.lock smp_queue_lock 0 })

-- The variables of the program that lie in .bss and are fields of the machine.
unfoldable pub clear_variables : M (Unit {0})
clear_variables m = done tt (record m {
  lock = update (update (update m.lock uart_lock 0) smp_queue_lock 0) exp_lock 0;
  irq_handlers = replicate 72 none;
})

-- `n` bytes from `pBSS` on are cleared.
unfoldable pub bss_loop : ℕ → ℕ → M (Unit {0})
bss_loop zero pBSS = pure tt
bss_loop (suc n) pBSS = do store_byte pBSS 0; bss_loop n (u32 (pBSS + 1))

-- `map` is the address of the pointer `smp_tsk_alc_map`, `fuel` that of the allocator's loops;
-- `entry` and `limit` are those of `start_secondary_core`.
module _ (hw : Hw) (map fuel entry limit : ℕ) where
  -- `while(1) { if (get_waking_cores() >= 4) break; }`
  unfoldable pub waking_wait : ℕ → M (Unit {0})
  waking_wait zero = λ _. out_of_fuel
  waking_wait (suc polls) = do
    waking ← get_waking_cores hw
    if leb 4 waking then pure tt else waking_wait polls

  unfoldable pub init_smp_kernel : M (Unit {0})
  init_smp_kernel = do
    cpuid ← get_prid
    pm ← get_pm
    _ ← get_prev_pm
    if cpuid == pcore
        then (do
          clear_queue_lock
          _ ← get_sys_struct_info hw cpuid pm
          old ← load map
          (if old == 0 then pure tt else kfree hw fuel old)
          first ← struct_info all_smp_mode
          new ← kmalloc hw fuel (u32 (8 * first.max_num_task_space))
          store map new
          _ ← start_secondary_core hw entry limit
          waking_wait hw.polls
          output_all_pm_access_policy hw)
        else (do mask_irq false; if cpuid == 1 then inc_waking_cores hw else pure tt)

  -- `cpsr` is what `_get_cpsr` gives, which is printed.
  module _ (cpsr : ℕ) where
    unfoldable pub sys_init_primary : ℕ → ℕ → M (Unit {0})
    sys_init_primary bss_start bss_end = do
      bss_loop (bss_end - bss_start) bss_start
      clear_variables
      init_irq_handler
      io_write disable_irq1 (2 ^ 29)
      mini_uart_init hw
      io_write enable_irq1 (2 ^ 29)
      mask_irq false
      init_sysinfos
      init_ttbs hw
      init_mmu
      cpuid ← get_prid
      pm ← get_pm
      start_mmu_no_lock hw cpsr cpuid pm
      inc_waking_cores hw
      init_smp_kernel

    unfoldable pub sys_init_secondary : M (Unit {0})
    sys_init_secondary = do
      mask_irq false
      cpuid ← get_prid
      pm ← get_pm
      init_ttbs hw
      init_mmu
      start_mmu_no_lock hw cpsr cpuid pm
      io_write (mailbox3_clr0 + 0x10 * cpuid) 0
      io_write (mailbox_int_control0 + 4 * cpuid) 1
      mask_irq false
      inc_waking_cores hw
      init_smp_kernel
