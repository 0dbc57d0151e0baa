-- ===== src/Init/Secondary.antt =====
-- The start of a core other than core 0.
use rpi2_baremetal.Common.{
  ℕ, ◌+◌, ◌*◌, ◌^◌, ◌<◌, ◌≡◌, refl, sym, ◌≢◌, get_elem?-IsSome, ap, ◌∙◌, inr, false, List,
  get_elem?, length, arith, bit_or, not, true, if◌then◌else◌,
}
use rpi2_baremetal.Machine.{
  uart_lock, Machine, SysStructInfo, Hw, M, pure, hang, ◌>>=◌, ◌>>◌, io_write, mask_irq, get_prid,
  bind-done, bind-start, then-done, then-hang,
}
use rpi2_baremetal.Uart.{codes, uart_puts, register_value_puts, is_mmu_enabled}
use rpi2_baremetal.Uart.Locks.{secondary-hang, mmu_on}
use rpi2_baremetal.Uart.Prints.{Drains}
use rpi2_baremetal.Uart.Gives.{on_bus}
use rpi2_baremetal.Sysinfo.{get_pm, inc_waking_cores, get_sys_struct_info, struct_info}
use rpi2_baremetal.Sysinfo.Init.{configured, configured-length}
use rpi2_baremetal.Sysinfo.Modes.{
  IsMode, index_of, index-lt, get_sys_struct_info-valid, struct_info-some,
}
use rpi2_baremetal.Mmu.Switch.{
  stop_mmu, sync_ttba_change_no_lock, sctlr_mmu_option, get_sctlr, set_sctlr, init_mmu,
  start_mmu_no_lock,
}
use rpi2_baremetal.Init.{init_ttbs}
use rpi2_baremetal.Init.Start.{init_smp_kernel, sys_init_secondary}
use rpi2_baremetal.Multicore.{mailbox3_clr0, mailbox_int_control0}
use rpi2_baremetal.Init.Tables.{init_ttbs-FillsAll}
use rpi2_baremetal.Init.Cold.{
  sctlr-on, Passes, then-Passes, read-Passes, value-Stays, sync_ttba_change_no_lock-Stays,
  init_mmu-Stays,
}

-- `start_mmu_no_lock` with `k` in place of its last message.
abbrev pub start_then : Hw → ℕ → M (Unit {0}) → ℕ → ℕ → M (Unit {0})
start_then hw cpsr k cpuid pm = do
  on ← is_mmu_enabled
  (if on then stop_mmu else pure tt)
  index ← get_sys_struct_info hw cpuid pm
  ssi ← struct_info index
  sync_ttba_change_no_lock hw ssi.ttba
  register_value_puts hw (codes "CPUID: ") cpuid
  register_value_puts hw (codes "CPSR: ") cpsr
  old ← get_sctlr
  let sctlr = bit_or old sctlr_mmu_option
  register_value_puts hw (codes "Updated SCTLR: ") sctlr
  set_sctlr sctlr
  k

-- `sys_init_secondary` with it, and with `after` in place of what follows.
abbrev pub secondary_then : Hw → ℕ → M (Unit {0}) → (ℕ → M (Unit {0})) → M (Unit {0})
secondary_then hw cpsr k after = do
  mask_irq false
  cpuid ← get_prid
  pm ← get_pm
  init_ttbs hw
  init_mmu
  start_then hw cpsr k cpuid pm
  after cpuid

-- The last message of `start_mmu_no_lock`.
abbrev pub enable_mmu : Hw → M (Unit {0})
enable_mmu hw = uart_puts hw (codes "Enable MMU\n")

-- What the source has behind the call of `start_mmu_no_lock`.
abbrev pub count_in : Hw → ℕ → ℕ → ℕ → ℕ → ℕ → M (Unit {0})
count_in hw map fuel entry limit cpuid = do
  io_write (mailbox3_clr0 + 0x10 * cpuid) 0
  io_write (mailbox_int_control0 + 4 * cpuid) 1
  mask_irq false
  inc_waking_cores hw
  init_smp_kernel hw map fuel entry limit

sys_init_secondary-secondary_then :
    (hw : Hw) (map fuel entry limit cpsr : ℕ)
    → sys_init_secondary hw map fuel entry limit cpsr
      ≡ secondary_then hw cpsr (enable_mmu hw) (count_in hw map fuel entry limit)
unfolding sys_init_secondary start_mmu_no_lock
sys_init_secondary-secondary_then hw map fuel entry limit cpsr = refl

module _ (c p : ℕ) (t : List SysStructInfo) where
  enable-Passes : c ≢ 0 → (v : ℕ) → Passes c p t (λ k. set_sctlr (bit_or v sctlr_mmu_option) >> k)
  unfolding set_sctlr
  enable-Passes other v m cold = (
    record m { cp15 = record (m.cp15) { sctlr = bit_or v sctlr_mmu_option } },
    λ k. refl,
    record { other = λ e. other (sym cold.core ∙ e); on = ap not (sctlr-on v) },
  )

  start_then-Passes :
      {hw : Hw}
      → Drains hw
      → length t ≡ 7
      → c ≢ 0
      → c < 4
      → IsMode p
      → (cpsr : ℕ) → Passes c p t (λ k. start_then hw cpsr k c p)
  unfolding is_mmu_enabled get_sctlr
  start_then-Passes {hw} live seven other lt valid cpsr m cold =
      let (s, found) =
        get_elem?-IsSome t (index_of c p) (omega (arith, seven, index-lt hw c p m lt)) in
      let (m', run, on) =
        then-Passes c p t (sync_ttba_change_no_lock-Stays c p t live s.ttba)
          (then-Passes c p t (value-Stays c p t live (codes "CPUID: ") c) (
            then-Passes c p t (value-Stays c p t live (codes "CPSR: ") cpsr) (
              read-Passes c p t {f = get_sctlr} (λ n chill. (n.cp15.sctlr, refl))
                λ old.
                  then-Passes c p t
                    (value-Stays c p t live (codes "Updated SCTLR: ") (bit_or old sctlr_mmu_option))
                    (enable-Passes other old))))
          m cold in
      (
        m',
        λ k. rw cold.off (
            bind-done (get_sys_struct_info hw c p) _ m
              (get_sys_struct_info-valid hw c p m (ap length cold.table ∙ seven) lt valid)
            ∙ (bind-done (struct_info (index_of c p)) _ m (
                  struct_info-some (index_of c p) m
                    (ap (λ l. get_elem? l (index_of c p)) cold.table ∙ found))
                ∙ run k)),
        on,
      )

-- The program on a core other than core 0, with its MMU off and nobody in `uart_lock`, after core 0
-- has filled the table of entries, in a valid mode, the base of the tables at a multiple of 16 KB
-- that leaves room for seven of them below 4 GB: however the transmitter drains, the start of the
-- core gets to the last message of `start_mmu_no_lock` with its MMU on, waits for ever in that
-- message, and so never comes to what `sys_init_secondary` has behind that call: the mailbox, its
-- interrupts, and `inc_waking_cores`.
pub sys_init_secondary-hang :
    (hw : Hw) (map fuel entry limit cpsr base b : ℕ) (m : Machine)
    → Drains hw
    → m.structs ≡ configured base
    → m.lock uart_lock ≡ 0
    → mmu_on m ≡ false
    → m.cpu ≢ 0
    → m.cpu < 4
    → IsMode m.common.pm
    → m.common.base_ttba ≡ b * 2 ^ 14
    → b + 7 < 2 ^ 18
    → (m' : Machine) × (sys_init_secondary hw map fuel entry limit cpsr
        ≡ secondary_then hw cpsr (enable_mmu hw) (count_in hw map fuel entry limit))
      × ((k : M (Unit {0})) (after : ℕ → M (Unit {0}))
          → secondary_then hw cpsr k after m ≡ (k >> after m.cpu) m')
      × (mmu_on m' ≡ true)
      × (enable_mmu hw m' ≡ hang)
      × (sys_init_secondary hw map fuel entry limit cpsr m ≡ hang)
unfolding mask_irq get_prid get_pm
sys_init_secondary-hang hw map fuel entry limit cpsr base b m live entries free off other lt valid
      at_base fits =
    let awake : Machine = record m { irq_masked = false } in
    let (new, (bus, e), filled) =
      init_ttbs-FillsAll hw base b awake live
        (record { entries = entries; quiet = record { free = free; calm = inr off } }) at_base
        fits in
    let tabled = on_bus (record awake { mem = new }) bus in
    let (cold_m, e', cold) =
      init_mmu-Stays m.cpu m.common.pm m.structs tabled
        (record { core = refl; mode = refl; table = refl; free = free; off = off }) in
    let (m', run, secondary) =
      start_then-Passes m.cpu m.common.pm m.structs live
        (ap length entries ∙ configured-length base) other lt valid cpsr cold_m cold in
    let gets : (k : M (Unit {0})) (after : ℕ → M (Unit {0}))
        → secondary_then hw cpsr k after m ≡ (k >> after m.cpu) m' =
      λ k after.
        then-done (init_ttbs hw) _ awake e
        ∙ (then-done init_mmu _ tabled e'
            ∙ bind-start (start_then hw cpsr k m.cpu m.common.pm) (λ _. k m') (λ _. after m.cpu)
                cold_m (run k)) in
    let hangs = (secondary-hang hw m' 0 0 (codes "Enable MMU\n") secondary).1 in
    let program = sys_init_secondary-secondary_then hw map fuel entry limit cpsr in
    (
      m',
      program,
      gets,
      secondary.on,
      hangs,
      ap (λ (f : M (Unit {0})). f m) program
          ∙ (gets (enable_mmu hw) (count_in hw map fuel entry limit)
              ∙ then-hang (enable_mmu hw) (count_in hw map fuel entry limit m.cpu) m' hangs),
    )
