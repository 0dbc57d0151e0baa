-- ===== src/Tests/Boot.antt =====
-- The theorems on initialisation, heap, interrupts and cores at concrete machines.
use rpi2_baremetal.Common.{
  ℕ, ◌+◌, ◌*◌, ◌^◌, ◌<◌, ◌≡◌, refl, inr, true, false, some, get_elem?, arith,
}
use rpi2_baremetal.Machine.{
  SysStructInfo, Machine, M, done, hang, pure, ◌>>=◌, ◌>>◌, io_write, io_read, get_prid,
}
use rpi2_baremetal.Sysinfo.{is_amp}
use rpi2_baremetal.Sysinfo.Config.{area}
use rpi2_baremetal.Sysinfo.Init.{entry, configured}
use rpi2_baremetal.Sysinfo.Modes.{index_of}
use rpi2_baremetal.Sysinfo.Asid.{first_user_asid}
use rpi2_baremetal.Sysinfo.Asid.Grant.{IsReady}
use rpi2_baremetal.Sysinfo.Asid.Search.{IsCall}
use rpi2_baremetal.Mmu.Switch.{sync_user_ttba_change, start_mmu_no_lock}
use rpi2_baremetal.Mmu.Switch.Start.{started, start_mmu_no_lock-IsOn}
use rpi2_baremetal.Uart.Locks.{mmu_on}
use rpi2_baremetal.Uart.Gives.{Gives}
use rpi2_baremetal.Mmu.Switch.Order.{Switched, sync_user_ttba_change-Switched}
use rpi2_baremetal.Heap.{kmalloc}
use rpi2_baremetal.Heap.Empty.{self_ring, kmalloc-null}
use rpi2_baremetal.Init.{init_ttbs}
use rpi2_baremetal.Init.Start.{sys_init_secondary}
use rpi2_baremetal.Init.Secondary.{secondary_then, enable_mmu, count_in, sys_init_secondary-hang}
use rpi2_baremetal.Init.Tables.{IsSetUp, FillsAll, init_ttbs-FillsAll}
use rpi2_baremetal.Interrupt.{call_irq_handler, interrupt_handler}
use rpi2_baremetal.Interrupt.Scan.{serve, read_on, pending_word, interrupt_handler-serve}
use rpi2_baremetal.Multicore.{mailbox0_clr0, ipi_handler, local_int_handler}
use rpi2_baremetal.Multicore.Ack.{IsLowest, read_one, local_int_handler-IsLowest}
use rpi2_baremetal.Tests.{hw, ipi_hw, machine, hw-Drains, core0-IsQuiet}

machine-IsSetUp : IsSetUp 0x2_0000 (machine 0 0)
unfolding configured
machine-IsSetUp = record { entries = refl; quiet = core0-IsQuiet 0 }

init_ttbs-FillsAll_example : FillsAll 8 0 (machine 0 0) (init_ttbs hw (machine 0 0))
init_ttbs-FillsAll_example =
    init_ttbs-FillsAll hw 0x2_0000 8 (machine 0 0) hw-Drains machine-IsSetUp refl (omega arith)

abbrev pub all_together : SysStructInfo
all_together =
    entry 0x2_0000 4 (area 0x1f00_0000 0x21ff_ffff) (area 0x2200_0000 0x23ff_ffff)
      (area 0x2400_0000 0x3eff_ffff) (area 0 256) 431

pub all_found : get_elem? (machine 0 1).structs (index_of 0 0) ≡ some all_together
unfolding is_amp
all_found = refl

kmalloc-null_example :
    kmalloc hw 1 760 (machine 0 1)
    ≡ done 0 (record (machine 0 1) { mem = self_ring (λ a. 0) 0x2200_0000 })
kmalloc-null_example =
    kmalloc-null hw 0 760 (machine 0 1) {s = all_together} refl (omega arith) (inr (inr (inr refl)))
      all_found refl

no_request : local_int_handler hw (machine 0 1) ≡ done false (read_one (machine 0 1))
unfolding local_int_handler io_read get_prid
no_request = refl

interrupt_handler-serve_example :
    interrupt_handler hw 0x9000 (machine 0 1)
    ≡ (serve
            (λ n_irq. call_irq_handler hw 0x9000 n_irq)
            (pending_word hw (read_one (machine 0 1)))
            72
            0
          >>= λ _. pure tt)
        (read_on (read_on (read_on (read_one (machine 0 1)) 1) 1) 1)
interrupt_handler-serve_example =
    interrupt_handler-serve hw 0x9000 false (machine 0 1) (read_one (machine 0 1)) no_request
      (omega arith) (omega arith)

local_int_handler-IsLowest_example :
    (n_ipi : ℕ) × (n_ipi < 32)
    × IsLowest 0x30 n_ipi
    × (local_int_handler ipi_hw (machine 2 0)
        ≡ (do
          io_write (mailbox0_clr0 + 0x10 * 2) (2 ^ n_ipi)
          ipi_handler ipi_hw 2 n_ipi
          pure true)
            (read_one (read_one (machine 2 0))))
local_int_handler-IsLowest_example =
    local_int_handler-IsLowest ipi_hw (machine 2 0) (λ e. omega (arith, e)) (λ e. omega (arith, e))
      (omega arith)

together-IsReady : IsReady (index_of 0 0) (machine 0 1)
unfolding is_amp
together-IsReady = record { quiet = core0-IsQuiet 1; open_lock = refl }

together-IsCall : IsCall (machine 0 1) 0 0 all_together
unfolding is_amp
together-IsCall = record {
  table = refl;
  core = omega arith;
  mode = inr (inr (inr refl));
  found = refl;
  fits = omega arith;
  room = omega arith;
}

sync_user_ttba_change-Switched_example :
    Switched 0x2400_0000
      (first_user_asid 0)
      256
      (machine 0 1)
      (sync_user_ttba_change hw 0x2400_0000 0 0 (machine 0 1))
sync_user_ttba_change-Switched_example =
    sync_user_ttba_change-Switched hw-Drains 0x2400_0000 0 0 (machine 0 1) together-IsReady
      together-IsCall refl

sys_init_secondary-hang_example :
    (m' : Machine) × (sys_init_secondary hw 0x1e00_0000 8 0x8000 1000 0x13
      ≡ secondary_then hw 0x13 (enable_mmu hw) (count_in hw 0x1e00_0000 8 0x8000 1000))
    × ((k : M (Unit {0})) (after : ℕ → M (Unit {0}))
        → secondary_then hw 0x13 k after (machine 1 0) ≡ (k >> after 1) m')
    × (mmu_on m' ≡ true)
    × (enable_mmu hw m' ≡ hang)
    × (sys_init_secondary hw 0x1e00_0000 8 0x8000 1000 0x13 (machine 1 0) ≡ hang)
unfolding configured
sys_init_secondary-hang_example =
    sys_init_secondary-hang hw 0x1e00_0000 8 0x8000 1000 0x13 0x2_0000 8 (machine 1 0) hw-Drains
      refl refl refl (λ e. omega (arith, e)) (omega arith) (inr (inr (inr refl))) refl (omega arith)

start_mmu_no_lock-IsOn_example :
    Gives tt (started 0x3_0000 (machine 0 0)) (start_mmu_no_lock hw 0x13 0 0 (machine 0 0))
    × (mmu_on (started 0x3_0000 (machine 0 0)) ≡ true)
unfolding configured is_amp
start_mmu_no_lock-IsOn_example =
    start_mmu_no_lock-IsOn hw 0x13 0 (machine 0 0) hw-Drains (core0-IsQuiet 0) refl refl
      (inr (inr (inr refl))) refl
