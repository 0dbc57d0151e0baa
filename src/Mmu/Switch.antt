-- ===== src/Mmu/Switch.antt =====
-- The rest of mmu.c: starting and stopping the MMU, and switching to another table and ASID.
-- Barriers have no counterpart: each step is seen in program order.
pub mod Order
pub mod Start
use rpi2_baremetal.Common.{
  ℕ, zero, suc, ◌+◌, Bool, true, false, List, ◌∷◌, bit_and, bit_or, if◌then◌else◌,
}
use rpi2_baremetal.Machine.{
  Machine, Hw, M, done, pure, ◌>>=◌, ◌>>◌, load, mask_irq, maintain, Maintenance, tlb_asid, tlb_all,
  caches, contextidr_write, ttbr0_write, ttbr1_write,
}
use rpi2_baremetal.Uart.{codes, is_mmu_enabled, uart_puts, register_value_puts}
use rpi2_baremetal.Sysinfo.{get_sys_struct_info, struct_info}
use rpi2_baremetal.Sysinfo.Asid.{reserved_asid_num, take_kernel_asid, set_user_asid}

abbrev pub ttb_mask : ℕ
ttb_mask = 0xffff_c000

abbrev pub sctlr_mmu_option : ℕ
sctlr_mmu_option = 0x1827

-- The registers, read and written.
unfoldable pub get_sctlr : M ℕ
get_sctlr m = done m.cp15.sctlr m

unfoldable pub set_sctlr : ℕ → M (Unit {0})
set_sctlr v m = done tt (record m { cp15 = record (m.cp15) { sctlr = v } })

unfoldable pub get_ttbr0 : M ℕ
get_ttbr0 m = done m.cp15.ttbr0 m

unfoldable pub get_ttbr1 : M ℕ
get_ttbr1 m = done m.cp15.ttbr1 m

unfoldable pub get_ttba0 : M ℕ
get_ttba0 = do ttbr0 ← get_ttbr0; pure (bit_and ttbr0 ttb_mask)

unfoldable pub get_ttba1 : M ℕ
get_ttba1 = do ttbr1 ← get_ttbr1; pure (bit_and ttbr1 ttb_mask)

unfoldable pub set_contextidr : ℕ → M (Unit {0})
set_contextidr v m = done tt (record m {
  cp15 = record (m.cp15) { contextidr = v };
  maintenance = contextidr_write v ∷ m.maintenance;
})

unfoldable pub get_contextidr : M ℕ
get_contextidr m = done m.cp15.contextidr m

-- TTBR0, then TTBR1
unfoldable pub set_ttbrs : ℕ → M (Unit {0})
set_ttbrs v m = done tt (record m {
  cp15 = record (m.cp15) { ttbr0 = v; ttbr1 = v };
  maintenance = ttbr1_write v ∷ ttbr0_write v ∷ m.maintenance;
})

unfoldable pub set_asid : ℕ → M (Unit {0})
set_asid asid = do r2 ← get_contextidr; set_contextidr (bit_or (bit_and r2 0xffff_ff00) asid)

unfoldable pub invalidate_caches : M (Unit {0})
invalidate_caches = maintain caches

unfoldable pub invalidate_tlbs : ℕ → M (Unit {0})
invalidate_tlbs asid = maintain (tlb_asid asid)

unfoldable pub invalidate_all_tlbs : M (Unit {0})
invalidate_all_tlbs = maintain tlb_all

unfoldable pub stop_mmu : M (Unit {0})
stop_mmu = do r2 ← get_sctlr; set_sctlr (bit_and r2 0xffff_e7d8)

unfoldable pub set_control : M (Unit {0})
set_control m = done tt (record m {
  cp15 = record (m.cp15) { actlr = bit_or m.cp15.actlr 0x40; dacr = 0xffff_ffff; ttbcr = 0 };
})

unfoldable pub init_mmu : M (Unit {0})
init_mmu = do stop_mmu; invalidate_caches; invalidate_all_tlbs; set_control

module _ (hw : Hw) where
  unfoldable pub sync_ttba_change : ℕ → ℕ → ℕ → M (Unit {0})
  sync_ttba_change new_ttba cpuid pm = do
    uart_puts hw (codes "dsb finished\n")
    mask_irq true
    uart_puts hw (codes "start to take asid\n")
    asid ← take_kernel_asid hw cpuid pm
    register_value_puts hw (codes "ASID: ") asid
    set_asid reserved_asid_num
    set_ttbrs (bit_or 0x4a new_ttba)
    set_asid asid
    mask_irq false

  unfoldable pub sync_ttba_change_no_lock : ℕ → M (Unit {0})
  sync_ttba_change_no_lock new_ttba = do
    mask_irq true
    before ← get_ttba0
    register_value_puts hw (codes "PRE TTBA0: ") before
    set_asid reserved_asid_num
    set_ttbrs (bit_or 0x4a new_ttba)
    set_asid reserved_asid_num
    invalidate_all_tlbs
    invalidate_caches
    current ← get_ttba0
    register_value_puts hw (codes "CURRENT TTBA0: ") current
    mask_irq false

  -- `task->ttba` is the word at offset 12.
  unfoldable pub sync_user_ttba_change : ℕ → ℕ → ℕ → M (Unit {0})
  sync_user_ttba_change task cpuid pm = do
    uart_puts hw (codes "dsb finished\n")
    mask_irq true
    uart_puts hw (codes "start to take asid\n")
    asid ← set_user_asid hw task cpuid pm
    register_value_puts hw (codes "ASID: ") asid
    r2 ← get_contextidr
    set_contextidr (bit_and r2 0xffff_ff00)
    ttba ← load (task + 12)
    set_ttbrs (bit_or 0x4a ttba)
    set_asid asid
    mask_irq false

  unfoldable pub start_mmu : ℕ → ℕ → ℕ → ℕ → M (Unit {0})
  start_mmu tlb_base_address sctlr_flags cpuid pm = do
    sync_ttba_change tlb_base_address cpuid pm
    sctlr ← get_sctlr
    set_sctlr (bit_or sctlr sctlr_flags)
    uart_puts hw (codes "Enable MMU\n")

  -- `cpsr` is what `_get_cpsr` gives, which is printed.
  unfoldable pub start_mmu_no_lock : ℕ → ℕ → ℕ → M (Unit {0})
  start_mmu_no_lock cpsr cpuid pm = do
    on ← is_mmu_enabled
    (if on then stop_mmu else pure tt)
    index ← get_sys_struct_info hw cpuid pm
    ssi ← struct_info index
    sync_ttba_change_no_lock ssi.ttba
    register_value_puts hw (codes "CPUID: ") cpuid
    register_value_puts hw (codes "CPSR: ") cpsr
    old ← get_sctlr
    let sctlr = bit_or old sctlr_mmu_option
    register_value_puts hw (codes "Updated SCTLR: ") sctlr
    set_sctlr sctlr
    uart_puts hw (codes "Enable MMU\n")
