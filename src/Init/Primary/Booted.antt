-- ===== src/Init/Primary/Booted.antt =====
-- What core 0 has set up when it begins to wait for the other cores.
use rpi2_baremetal.Common.{
  ℕ, ◌+◌, ◌*◌, ◌^◌, ◌%◌, ◌≤◌, ◌<◌, ◌≡◌, true, false, some, get_elem?, bit_or, u32,
}
use rpi2_baremetal.Machine.{Machine, SysStructInfo, Hw, aux_handler}
use rpi2_baremetal.Uart.Locks.{mmu_on}
use rpi2_baremetal.Sysinfo.Init.{configured}
use rpi2_baremetal.Sysinfo.Modes.{index_of}
use rpi2_baremetal.Mmu.Table.{slot}
use rpi2_baremetal.Mmu.Entries.{word_of}
use rpi2_baremetal.Init.Tables.{table_map}
use rpi2_baremetal.Init.Primary.{IsAtReset}
use rpi2_baremetal.Init.Primary.Up.{found_entry}

-- An entry's table, free list and heap.
abbrev Describes : ℕ → ℕ → SysStructInfo → Type 0
Describes base i s =
    (s.ttba ≡ u32 (base + i * 0x4000))
    × (s.kernel_heap_freep ≡ 0)
    × (0x2000_0000 ≤ s.kernel_heap_area.bottom)

-- The seven tables are filled, and the MMU runs with the one of the core's mode; the entries are
-- those of sysconfs.c; the locks are free, the handler of the UART is there and interrupts are on;
-- the core has counted itself, and the pointer to the map of the tasks' spaces is NULL.
pub record IsBooted (b map : ℕ) (m m' : Machine) : Type 0 where
  pub on : mmu_on m' ≡ true
  pub table : m'.cp15.ttbr0 ≡ bit_or 0x4a ((b + index_of 0 m.common.pm) * 2 ^ 14)
  pub tables :
      (j q : ℕ) → j < 7 → q < 4096 → m'.mem (slot ((b + j) * 2 ^ 14) q) ≡ word_of (table_map j q) q
  pub entries : m'.structs ≡ configured m.common.base_ttba
  pub free : (l : ℕ) → l ≤ 10 → m'.lock l ≡ 0
  pub handler : get_elem? m'.irq_handlers 0x1d ≡ some (some aux_handler)
  pub unmasked : m'.irq_masked ≡ false
  pub counted : m'.common.waking_cores ≡ (m.common.waking_cores + 1) % 2 ^ 32
  pub no_map : m'.mem map ≡ 0

module _ (hw : Hw) (map fuel entry limit cpsr b first n : ℕ) (m : Machine)
    (reset : IsAtReset b map first n m) where
  mine : SysStructInfo
  mine = (found_entry hw map fuel entry limit cpsr b first n m reset).0
