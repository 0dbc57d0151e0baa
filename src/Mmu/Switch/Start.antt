-- ===== src/Mmu/Switch/Start.antt =====
-- The start of the MMU on core 0, with the table of the core's mode.
use rpi2_baremetal.Common.{
  ℕ, ◌≡◌, inl, inr, true, false, ◌∷◌, some, get_elem?, length, arith, bit_and, bit_or, not,
  if◌then◌else◌, ap, ◌∙◌, Bool-cases,
}
use rpi2_baremetal.Machine.{
  Machine, SysStructInfo, Bus, Hw, M, ◌>>=◌, ◌>>◌, mask_irq, maintain, contextidr_write,
  ttbr0_write, ttbr1_write, tlb_all, caches, bind-done, then-done,
}
use rpi2_baremetal.Uart.{codes, uart_puts, register_value_puts, is_mmu_enabled}
use rpi2_baremetal.Uart.Locks.{mmu_on}
use rpi2_baremetal.Uart.Prints.{Drains, IsQuiet}
use rpi2_baremetal.Uart.Gives.{on_bus, Gives, puts-Gives, value-Gives}
use rpi2_baremetal.Sysinfo.{get_sys_struct_info, struct_info}
use rpi2_baremetal.Sysinfo.Modes.{IsMode, index_of, get_sys_struct_info-valid, struct_info-some}
use rpi2_baremetal.Sysinfo.Asid.{reserved_asid_num}
use rpi2_baremetal.Init.Cold.{sctlr-on}
use rpi2_baremetal.Mmu.Switch.{
  ttb_mask, sctlr_mmu_option, get_sctlr, set_sctlr, stop_mmu, get_contextidr, set_contextidr,
  set_ttbrs, set_asid, get_ttba0, get_ttbr0, invalidate_all_tlbs, invalidate_caches,
  sync_ttba_change_no_lock, start_mmu_no_lock,
}

-- The machine with the table at `ttba` under the reserved ASID, which is set before and after.
abbrev pub moved : ℕ → Machine → Machine
moved ttba m =
    let first = bit_or (bit_and m.cp15.contextidr 0xffff_ff00) reserved_asid_num in
    let last = bit_or (bit_and first 0xffff_ff00) reserved_asid_num in
    let ttbr = bit_or 0x4a ttba in
    record m {
      irq_masked = false;
      cp15 = record (m.cp15) { ttbr0 = ttbr; ttbr1 = ttbr; contextidr = last };
      maintenance =
          caches
          ∷ tlb_all
          ∷ contextidr_write last
          ∷ ttbr1_write ttbr
          ∷ ttbr0_write ttbr
          ∷ contextidr_write first
          ∷ m.maintenance;
    }

abbrev pub with_sctlr : ℕ → Machine → Machine
with_sctlr v m = record m { cp15 = record (m.cp15) { sctlr = v } }

-- What is left of the control register when a running MMU has been stopped.
abbrev pub stopped_sctlr : Machine → ℕ
stopped_sctlr m = if mmu_on m then bit_and m.cp15.sctlr 0xffff_e7d8 else m.cp15.sctlr

-- The machine after the start of the MMU with the table at `ttba`.
abbrev pub started : ℕ → Machine → Machine
started ttba m = with_sctlr (bit_or (stopped_sctlr m) sctlr_mmu_option) (moved ttba m)

-- What `start_mmu_no_lock` does on core 0 with the table of the mode.
abbrev switch_on : Hw → ℕ → ℕ → M (Unit {0})
switch_on hw cpsr ttba = do
  sync_ttba_change_no_lock hw ttba
  register_value_puts hw (codes "CPUID: ") 0
  register_value_puts hw (codes "CPSR: ") cpsr
  old ← get_sctlr
  let sctlr = bit_or old sctlr_mmu_option
  register_value_puts hw (codes "Updated SCTLR: ") sctlr
  set_sctlr sctlr
  uart_puts hw (codes "Enable MMU\n")

module _ {hw : Hw} (live : Drains hw) where
  sync_ttba_change_no_lock-Gives :
      (ttba : ℕ) (m : Machine)
      → IsQuiet m
      → Gives tt (moved ttba m) (sync_ttba_change_no_lock hw ttba m)
  unfolding sync_ttba_change_no_lock mask_irq get_ttba0 get_ttbr0 set_asid get_contextidr
      set_contextidr set_ttbrs invalidate_all_tlbs invalidate_caches maintain
  sync_ttba_change_no_lock-Gives ttba m quiet =
      let masked : Machine = record m { irq_masked = true } in
      let before = bit_and m.cp15.ttbr0 ttb_mask in
      let (b, e) =
        value-Gives live masked (record { free = quiet.free; calm = quiet.calm })
          (codes "PRE TTBA0: ") before in
      let next : Machine = record (on_bus (moved ttba m) b) { irq_masked = true } in
      let current = bit_and (bit_or 0x4a ttba) ttb_mask in
      let (b', e') =
        value-Gives live next (record { free = quiet.free; calm = quiet.calm })
          (codes "CURRENT TTBA0: ") current in
      (
        b',
        then-done (register_value_puts hw (codes "PRE TTBA0: ") before) _ masked e
            ∙ then-done (register_value_puts hw (codes "CURRENT TTBA0: ") current) _ next e',
      )

  switch_on-Gives :
      (cpsr : ℕ) (ttba : ℕ) (m : Machine)
      → IsQuiet m
      → m.cpu ≡ 0
      → Gives tt
          (with_sctlr (bit_or m.cp15.sctlr sctlr_mmu_option) (moved ttba m))
          (switch_on hw cpsr ttba m)
  unfolding get_sctlr set_sctlr
  switch_on-Gives cpsr ttba m quiet core =
      let new : ℕ = bit_or m.cp15.sctlr sctlr_mmu_option in
      let end : Machine = with_sctlr new (moved ttba m) in
      let hushed : (b : Bus) → IsQuiet (on_bus (moved ttba m) b) =
        λ b. record { free = quiet.free; calm = inl core } in
      let (b1, e1) = sync_ttba_change_no_lock-Gives ttba m quiet in
      let (b2, e2) = value-Gives live (on_bus (moved ttba m) b1) (hushed b1) (codes "CPUID: ") 0 in
      let (b3, e3) =
        value-Gives live (on_bus (moved ttba m) b2) (hushed b2) (codes "CPSR: ") cpsr in
      let (b4, e4) =
        value-Gives live (on_bus (moved ttba m) b3) (hushed b3) (codes "Updated SCTLR: ") new in
      let (b5, e5) =
        puts-Gives live (on_bus end b4) (record { free = quiet.free; calm = inl core })
          (codes "Enable MMU\n") in
      (
        b5,
        then-done (sync_ttba_change_no_lock hw ttba) _ m e1
            ∙ (then-done (register_value_puts hw (codes "CPUID: ") 0) _ (on_bus (moved ttba m) b1)
                  e2
                ∙ (then-done (register_value_puts hw (codes "CPSR: ") cpsr) _
                      (on_bus (moved ttba m) b2) e3
                    ∙ (then-done (register_value_puts hw (codes "Updated SCTLR: ") new) _
                          (on_bus (moved ttba m) b3) e4
                        ∙ e5))),
      )

module _ {hw : Hw} (live : Drains hw) (cpsr pm : ℕ) {s : SysStructInfo} (valid : IsMode pm) where
  find_table-Gives :
      (m : Machine)
      → IsQuiet m
      → m.cpu ≡ 0
      → length m.structs ≡ 7
      → get_elem? m.structs (index_of 0 pm) ≡ some s
      → Gives tt (with_sctlr (bit_or m.cp15.sctlr sctlr_mmu_option) (moved s.ttba m)) (
          (do
            index ← get_sys_struct_info hw 0 pm
            ssi ← struct_info index
            switch_on hw cpsr ssi.ttba)
            m)
  find_table-Gives m quiet core seven found =
      let (b, e) = switch_on-Gives live cpsr s.ttba m quiet core in
      (
        b,
        bind-done (get_sys_struct_info hw 0 pm) _ m
              (get_sys_struct_info-valid hw 0 pm m seven (omega arith) valid)
            ∙ (bind-done (struct_info (index_of 0 pm)) _ m
                  (struct_info-some (index_of 0 pm) m found)
                ∙ e),
      )

-- Core 0 with a console that can be used, a table of seven entries and a valid mode: whether its
-- MMU was on or not, `start_mmu_no_lock` returns with it on and with interrupts on. The writes
-- are, in this order: the reserved ASID, the table of the mode's entry with the bits of 0x4a to
-- TTBR0 and TTBR1, the reserved ASID again, then the whole TLB and the caches are invalidated. Of
-- the machine nothing else changes but the control register and the console.
pub start_mmu_no_lock-IsOn :
    (hw : Hw) (cpsr pm : ℕ) (m : Machine) {s : SysStructInfo}
    → Drains hw
    → IsQuiet m
    → m.cpu ≡ 0
    → length m.structs ≡ 7
    → IsMode pm
    → get_elem? m.structs (index_of 0 pm) ≡ some s
    → Gives tt (started s.ttba m) (start_mmu_no_lock hw cpsr 0 pm m)
      × (mmu_on (started s.ttba m) ≡ true)
unfolding start_mmu_no_lock is_mmu_enabled stop_mmu get_sctlr set_sctlr
start_mmu_no_lock-IsOn hw cpsr pm m {s} live quiet core seven valid found = (
  elim (Bool-cases (mmu_on m)) [
    | inl on ↦ rw on (
        find_table-Gives live cpsr pm valid (with_sctlr (bit_and m.cp15.sctlr 0xffff_e7d8) m)
          (record { free = quiet.free; calm = inl core }) core seven found)
    | inr off ↦ rw off (find_table-Gives live cpsr pm valid m quiet core seven found)
  ],
  ap not (sctlr-on (stopped_sctlr m)),
)
