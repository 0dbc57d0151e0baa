-- ===== src/Tests/Tables.antt =====
-- The theorems on the translation tables at concrete machines.
use rpi2_baremetal.Common.{ℕ, ◌*◌, ◌%◌, ◌^◌, ◌<◌, ◌≤◌, ◌≡◌, refl, ◌≢◌, ◌⊎◌, some, get_elem?, arith}
use rpi2_baremetal.Machine.{SysStructInfo, done}
use rpi2_baremetal.Sysinfo.Config.{area}
use rpi2_baremetal.Sysinfo.Init.{entry, configured}
use rpi2_baremetal.Mmu.{amp_tbl_setup, smp_tbl_setup, cre_usr_tbl}
use rpi2_baremetal.Mmu.Table.{slot, Fills}
use rpi2_baremetal.Mmu.Entries.{word_of}
use rpi2_baremetal.Mmu.Access.{amp_map, amp_tbl_setup-map}
use rpi2_baremetal.Mmu.Shared.{smp_map, tasks_end, FillsPrinting, smp_tbl_setup-map}
use rpi2_baremetal.Mmu.User.{usr_map, cre_usr_tbl-map}
use rpi2_baremetal.Mmu.Isolation.{amp_tbl_setup-isolates, smp_tbl_setup-isolates}
use rpi2_baremetal.Uart.Gives.{Gives}
use rpi2_baremetal.Tests.{hw, machine, hw-Drains, core0-IsQuiet}

-- The entries of core 1 alone, of core 2 alone, and of cores 0 and 1 together.
abbrev first : SysStructInfo
first =
    entry 0x2_0000 1 (area 0x2700_0000 0x27ff_ffff) (area 0x2800_0000 0x28ff_ffff)
      (area 0x2900_0000 0x2eff_ffff) (area 64 128) 95

abbrev second : SysStructInfo
second =
    entry 0x2_0000 2 (area 0x2f00_0000 0x2fff_ffff) (area 0x3000_0000 0x30ff_ffff)
      (area 0x3100_0000 0x36ff_ffff) (area 128 192) 95

abbrev pair : SysStructInfo
pair =
    entry 0x2_0000 6 (area 0x1f00_0000 0x21ff_ffff) (area 0x2200_0000 0x23ff_ffff)
      (area 0x2400_0000 0x2eff_ffff) (area 0 128) 175

first_found : get_elem? (configured 0x2_0000) 1 ≡ some first
unfolding configured
first_found = refl

second_found : get_elem? (configured 0x2_0000) 2 ≡ some second
unfolding configured
second_found = refl

pair_found : get_elem? (configured 0x2_0000) 6 ≡ some pair
unfolding configured
pair_found = refl

amp_tbl_setup-map_example :
    Fills
      (10 * 2 ^ 14)
      (λ q. word_of (amp_map 2 q) q)
      0
      (machine 0 0)
      (amp_tbl_setup
        (10 * 2 ^ 14)
        second.kernel_ram_area
        second.user_ram_area
        second.kernel_heap_area
        0x30_0000
        (machine 0 0))
amp_tbl_setup-map_example = amp_tbl_setup-map 0x2_0000 2 10 (machine 0 0) second_found (omega arith)

smp_tbl_setup-map_example :
    FillsPrinting
      (14 * 2 ^ 14)
      (λ q. word_of (smp_map 2 (tasks_end 2) q) q)
      (machine 0 0)
      (smp_tbl_setup hw
        (14 * 2 ^ 14)
        pair.kernel_ram_area
        pair.user_ram_area
        pair.kernel_heap_area
        0x10_0000
        2
        (machine 0 0))
smp_tbl_setup-map_example =
    smp_tbl_setup-map hw 0x2_0000 2 14 (machine 0 0) hw-Drains (core0-IsQuiet 0) pair_found
      (omega arith) (omega arith)

cre_usr_tbl-map_example :
    Fills
      (0x9000 * 2 ^ 14)
      (λ q. word_of (usr_map (0x9000 * 2 ^ 14) q) q)
      0
      (machine 0 1)
      (cre_usr_tbl (0x9000 * 2 ^ 14) (machine 0 1))
cre_usr_tbl-map_example = cre_usr_tbl-map 0x9000 (machine 0 1)

amp_tbl_setup-isolates_example :
    (new new' : ℕ → ℕ) × (amp_tbl_setup
        (9 * 2 ^ 14)
        first.kernel_ram_area
        first.user_ram_area
        first.kernel_heap_area
        0x20_0000
        (machine 0 0)
      ≡ done tt (record (machine 0 0) { mem = new }))
    × (amp_tbl_setup
          (10 * 2 ^ 14)
          second.kernel_ram_area
          second.user_ram_area
          second.kernel_heap_area
          0x30_0000
          (machine 2 0)
        ≡ done tt (record (machine 2 0) { mem = new' }))
    × ((q : ℕ)
        → 0x1f0 ≤ q ⊎ q ≡ 2
        → q < 0x3f0
        → new (slot (9 * 2 ^ 14) q) % 4 ≢ 0
        → new' (slot (10 * 2 ^ 14) q) % 4 ≡ 0)
amp_tbl_setup-isolates_example =
    amp_tbl_setup-isolates 0x2_0000 1 2 9 10 (machine 0 0) (machine 2 0) first_found second_found
      (omega arith) (omega arith) (omega arith)

smp_tbl_setup-isolates_example :
    (new new' : ℕ → ℕ) × Gives tt
      (record (machine 0 0) { mem = new })
      (smp_tbl_setup hw
        (14 * 2 ^ 14)
        pair.kernel_ram_area
        pair.user_ram_area
        pair.kernel_heap_area
        0x10_0000
        2
        (machine 0 0))
    × (amp_tbl_setup
          (10 * 2 ^ 14)
          second.kernel_ram_area
          second.user_ram_area
          second.kernel_heap_area
          0x30_0000
          (machine 2 0)
        ≡ done tt (record (machine 2 0) { mem = new' }))
    × ((q : ℕ)
        → 0x1f0 ≤ q ⊎ (1 ≤ q × q ≤ 4)
        → q < 0x3f0
        → new (slot (14 * 2 ^ 14) q) % 4 ≢ 0
        → new' (slot (10 * 2 ^ 14) q) % 4 ≡ 0)
smp_tbl_setup-isolates_example =
    smp_tbl_setup-isolates hw 0x2_0000 2 2 14 10 (machine 0 0) (machine 2 0) hw-Drains
      (core0-IsQuiet 0) pair_found second_found (omega arith) (omega arith) (omega arith)
