-- ===== src/Init/Primary.antt =====
-- The start of core 0 up to its tables: .bss, the UART and the entries.
pub mod Booted
pub mod Up
use rpi2_baremetal.Common.{
  ℕ, zero, suc, ◌+◌, ◌-◌, ◌*◌, ◌%◌, ◌^◌, ◌≤◌, ◌<◌, ◌≡◌, ◌≢◌, ◌⊎◌, refl, sym, ap, ◌∙◌, inl, inr,
  Bool, true, false, List, [], ◌∷◌, ◌++◌, none, some, get_elem?, get_elem?-IsSome, length, set,
  replicate, arith, bit_and, bit_or, u32, ◌==◌, if◌then◌else◌, ==_true,
}
use rpi2_baremetal.Machine.{
  Machine, SysStructInfo, Bus, Hw, M, done, pure, ◌>>=◌, ◌>>◌, update, uart_lock, common_lock,
  smp_queue_lock, exp_lock, struct_lock, aux_handler, io_write, load, store, get_prid, mask_irq,
  maintain, caches, tlb_all, bind-done, then-done,
}
use rpi2_baremetal.Uart.{spin_req, spin_rel}
use rpi2_baremetal.Uart.Locks.{mmu_on, with_lock, spin_req-core0, spin_rel-core0}
use rpi2_baremetal.Uart.Prints.{Drains, IsQuiet}
use rpi2_baremetal.Uart.Gives.{on_bus, Gives}
use rpi2_baremetal.Uart.Setup.{
  mini_uart_init, mini_uart_init-pins, line_writes, pin_writes, gpio_sel1,
}
use rpi2_baremetal.Sysinfo.{
  pcore, get_pm, get_prev_pm, get_sys_struct_info, struct_info, inc_waking_cores, common_info,
  set_common_info,
}
use rpi2_baremetal.Sysinfo.Config.{init_sysinfos}
use rpi2_baremetal.Sysinfo.Init.{configured, configured-length, unlocked, init_sysinfos-configured}
use rpi2_baremetal.Sysinfo.Modes.{IsMode, index_of, index-lt, get_sys_struct_info-valid}
use rpi2_baremetal.Mmu.Table.{slot}
use rpi2_baremetal.Mmu.Entries.{word_of}
use rpi2_baremetal.Mmu.Switch.{
  init_mmu, stop_mmu, get_sctlr, set_sctlr, set_control, invalidate_caches, invalidate_all_tlbs,
  start_mmu_no_lock,
}
use rpi2_baremetal.Mmu.Switch.Start.{started, start_mmu_no_lock-IsOn}
use rpi2_baremetal.Interrupt.{enable_irq1, disable_irq1, init_irq_handler}
use rpi2_baremetal.Heap.Empty.{self_ring, kmalloc-null}
use rpi2_baremetal.Heap.{kmalloc, kfree}
use rpi2_baremetal.Multicore.{output_all_pm_access_policy, start_secondary_core}
use rpi2_baremetal.Multicore.Start.{Ends, start_secondary_core-Ends}
use rpi2_baremetal.Init.{init_ttbs}
use rpi2_baremetal.Init.Tables.{table_map, init_ttbs-FillsAll, AllFilled}
use rpi2_baremetal.Init.Start.{
  all_smp_mode, clear_variables, clear_queue_lock, bss_loop, waking_wait, init_smp_kernel,
  sys_init_primary,
}
use rpi2_baremetal.Init.Clear.{AllWords, bss_loop-zero}

-- The lock words after .bss is cleared, the UART is set up and the entries are.
abbrev pub start_locks : (ℕ → ℕ) → ℕ → ℕ
start_locks f =
    unlocked
      (update (update (update (update f uart_lock 0) smp_queue_lock 0) exp_lock 0) uart_lock 0)

-- The machine up to the tables, with memory `mem` and the console `b`.
abbrev pub prepared : (ℕ → ℕ) → Bus → Machine → Machine
prepared mem b m = record m {
  mem = mem;
  bus = b;
  irq_masked = false;
  irq_handlers = set (replicate 72 none) 0x1d (some aux_handler);
  lock = start_locks m.lock;
  structs = configured m.common.base_ttba;
}

-- Core 0 at its reset: a valid mode, seven entries, nobody in the lock of the common information,
-- memory of 32-bit words. .bss has `n` bytes from `first` on and lies below the tables, which begin
-- at `b` times 16 KB and end below the heaps; the pointer `smp_tsk_alc_map` is a word of .bss.
pub record IsAtReset (b map first n : ℕ) (m : Machine) : Type 0 where
  pub core : m.cpu ≡ 0
  pub mode : IsMode m.common.pm
  pub seven : length m.structs ≡ 7
  pub free : m.lock common_lock ≡ 0
  pub words : AllWords m.mem
  pub at_base : m.common.base_ttba ≡ b * 2 ^ 14
  pub room : b + 7 ≤ 2 ^ 15
  pub aligned : map % 4 ≡ 0
  pub starts : first ≤ map
  pub ends : map + 4 ≤ first + n
  pub below : first + n ≤ b * 2 ^ 14

-- `init_smp_kernel` with `k` in place of what core 0 does from its wait for the other cores on, and
-- then `sys_init_primary` with it.
module _ (hw : Hw) (map fuel entry limit cpsr : ℕ) (k : M (Unit {0})) where
  abbrev pub kernel_then : M (Unit {0})
  kernel_then = do
    cpuid ← get_prid
    pm ← get_pm
    _ ← get_prev_pm
    if cpuid == pcore
        then (do
          clear_queue_lock
          _ ← get_sys_struct_info hw cpuid pm
          old ← load map
          (if old == 0 then pure tt else kfree hw fuel old)
          first ← struct_info all_smp_mode
          new ← kmalloc hw fuel (u32 (8 * first.max_num_task_space))
          store map new
          _ ← start_secondary_core hw entry limit
          k)
        else (do mask_irq false; if cpuid == 1 then inc_waking_cores hw else pure tt)

  -- What follows `init_sysinfos`.
  abbrev pub rest : M (Unit {0})
  rest = do
    init_ttbs hw
    init_mmu
    cpuid ← get_prid
    pm ← get_pm
    start_mmu_no_lock hw cpsr cpuid pm
    inc_waking_cores hw
    kernel_then

  abbrev pub primary_then : ℕ → ℕ → M (Unit {0})
  primary_then bss_start bss_end = do
    bss_loop (bss_end - bss_start) bss_start
    clear_variables
    init_irq_handler
    io_write disable_irq1 (2 ^ 29)
    mini_uart_init hw
    io_write enable_irq1 (2 ^ 29)
    mask_irq false
    init_sysinfos
    rest

-- `sys_init_primary` is `primary_then` with the wait of the source and what follows it.
pub sys_init_primary-primary_then :
    (hw : Hw) (map fuel entry limit cpsr : ℕ)
    → sys_init_primary hw map fuel entry limit cpsr
      ≡ primary_then hw map fuel entry limit cpsr
          (waking_wait hw map fuel entry limit hw.polls >> output_all_pm_access_policy hw)
unfolding sys_init_primary init_smp_kernel
sys_init_primary-primary_then hw map fuel entry limit cpsr = refl

module _ (hw : Hw) (map fuel entry limit cpsr : ℕ) where
  module _ (b first n : ℕ) (m : Machine) (reset : IsAtReset b map first n m) where
    pub prepare :
        ((bus : Bus) (reg : ℕ) → hw.read bus reg < 2 ^ 32)
        → (mem : ℕ → ℕ) × (bus : Bus) × (mem map ≡ 0)
          × ((k : M (Unit {0}))
              → primary_then hw map fuel entry limit cpsr k first (first + n) m
                ≡ rest hw map fuel entry limit cpsr k (prepared mem bus m))
    unfolding clear_variables init_irq_handler io_write mask_irq
    prepare reads =
        let (mem, e, null) =
          bss_loop-zero n first map m reset.words (omega (arith, reset.below, reset.room))
            reset.aligned reset.starts reset.ends in
        let whole : first + n - first ≡ n = omega arith in
        let cleared : Machine = record m {
          mem = mem;
          bus = record (m.bus) { writes = m.bus.writes ++ (disable_irq1, 2 ^ 29) ∷ [] };
          irq_handlers = set (replicate 72 none) 0x1d (some aux_handler);
          lock = update (update (update m.lock uart_lock 0) smp_queue_lock 0) exp_lock 0;
        } in
        let before : Bus = record {
          writes = cleared.bus.writes ++ line_writes;
          ticks = m.bus.ticks;
        } in
        let v : ℕ = hw.read before gpio_sel1 in
        let bus : Bus = record {
          writes =
              (cleared.bus.writes ++ line_writes ++ pin_writes v) ++ (enable_irq1, 2 ^ 29) ∷ [];
          ticks = m.bus.ticks + 1;
        } in
        let enabled : Machine = record cleared {
          bus = bus;
          lock = update cleared.lock uart_lock 0;
          irq_masked = false;
        } in
        (
          mem,
          bus,
          null,
          λ k.
              then-done (bss_loop (first + n - first) first) _ m
                (ap (λ (k : ℕ). bss_loop k first m) whole ∙ e)
              ∙ (then-done (mini_uart_init hw) _ cleared
                    (mini_uart_init-pins hw cleared {v = v} refl (reads before gpio_sel1))
                  ∙ then-done init_sysinfos _ enabled
                      (init_sysinfos-configured enabled reset.seven)),
        )
