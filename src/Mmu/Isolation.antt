-- ===== src/Mmu/Isolation.antt =====
-- The tables of mmu.c keep the cores apart: what one core reaches of the RAM that is shared out,
-- another core with another table cannot.
use rpi2_baremetal.Common.{
  ℕ, zero, suc, ◌+◌, ◌-◌, ◌*◌, ◌%◌, ◌^◌, ◌<◌, ◌≤◌, ◌≡◌, ◌≢◌, Option, some, none, arith, get_elem?,
  ◌⊎◌,
}
use rpi2_baremetal.Machine.{SysStructInfo, Machine, Hw, done}
use rpi2_baremetal.Uart.Prints.{Drains, IsQuiet}
use rpi2_baremetal.Uart.Gives.{Gives}
use rpi2_baremetal.Sysinfo.Config.{section_size}
use rpi2_baremetal.Sysinfo.Init.{configured}
use rpi2_baremetal.Mmu.{sp_base, amp_tbl_setup, smp_tbl_setup}
use rpi2_baremetal.Mmu.Table.{slot}
use rpi2_baremetal.Mmu.Entries.{word_of}
use rpi2_baremetal.Mmu.Access.{amp_map, amp_tbl_setup-map}
use rpi2_baremetal.Mmu.Shared.{smp_map, tasks_end, smp_tbl_setup-map}

disjoint :
    (i j q : ℕ)
    → i < 4
    → j < 4
    → i ≢ j
    → 0x1f0 ≤ q ⊎ q ≡ 1 + i
    → q < 0x3f0
    → amp_map i q ≢ none
    → amp_map j q ≡ none
disjoint i j q li lj ne low high mapped = ground arith

-- A descriptor that is not a fault has type 2 in its lowest bits.
mapped_word : (q : ℕ) (o : Option ℕ) → word_of o q % 4 ≢ 0 → o ≢ none
mapped_word q none h e = h (omega arith)
mapped_word q (some flags) h e = cc

-- Two cores that run alone, each with the table that `amp_tbl_setup` makes of its entry: what the
-- one can reach of the RAM above the shared memory, sections 0x1f0 to 0x3ef, and its own stack, is
-- a fault for the other.
pub amp_tbl_setup-isolates :
    (base i j t u : ℕ) {s s' : SysStructInfo} (m m' : Machine)
    → get_elem? (configured base) i ≡ some s
    → get_elem? (configured base) j ≡ some s'
    → i < 4
    → j < 4
    → i ≢ j
    → (new new' : ℕ → ℕ) × (amp_tbl_setup
          (t * 2 ^ 14)
          s.kernel_ram_area
          s.user_ram_area
          s.kernel_heap_area
          (sp_base + section_size * i)
          m
        ≡ done tt (record m { mem = new }))
      × (amp_tbl_setup
            (u * 2 ^ 14)
            s'.kernel_ram_area
            s'.user_ram_area
            s'.kernel_heap_area
            (sp_base + section_size * j)
            m'
          ≡ done tt (record m' { mem = new' }))
      × ((q : ℕ)
          → 0x1f0 ≤ q ⊎ q ≡ 1 + i
          → q < 0x3f0
          → new (slot (t * 2 ^ 14) q) % 4 ≢ 0
          → new' (slot (u * 2 ^ 14) q) % 4 ≡ 0)
amp_tbl_setup-isolates base i j t u m m' ei ej li lj ne =
    let (new, r, f) = amp_tbl_setup-map base i t m ei li in
    let (new', r', f') = amp_tbl_setup-map base j u m' ej lj in
    (
      new,
      new',
      r,
      r',
      λ q low high h.
          let own : amp_map i q ≢ none =
            mapped_word q (amp_map i q) (rw (f.inside q (omega arith) (omega arith)) at h) in
          rw (f'.inside q (omega arith) (omega arith), disjoint i j q li lj ne low high own)
            (omega arith),
    )

apart :
    (n j q : ℕ)
    → 2 ≤ n
    → n ≤ j
    → j < 4
    → q < 0x3f0
    → 0x1f0 ≤ q ⊎ (1 ≤ q × q ≤ 4)
    → smp_map n (tasks_end n) q ≢ none
    → amp_map j q ≡ none
apart zero j q low le high inside where_ mapped = absurd (omega arith)
apart (suc zero) j q low le high inside where_ mapped = absurd (omega arith)
apart (suc (suc zero)) j q low le high inside where_ mapped = ground arith
apart (suc (suc (suc zero))) j q low le high inside where_ mapped = ground arith
apart (suc (suc (suc (suc n)))) j q low le high inside where_ mapped = absurd (omega arith)

-- Cores 0 to n - 1 run together and core `j`, not one of them, runs alone, each with the table that
-- `smp_tbl_setup` and `amp_tbl_setup` make of its entry; the console can be used. Both calls
-- return, and what the former reach of the RAM above the shared memory, sections 0x1f0 to 0x3ef,
-- and of the stacks, sections 1 to 4, is a fault for the latter.
pub smp_tbl_setup-isolates :
    (hw : Hw) (base n j t u : ℕ) {s s' : SysStructInfo} (m m' : Machine)
    → Drains hw
    → IsQuiet m
    → get_elem? (configured base) (8 - n) ≡ some s
    → get_elem? (configured base) j ≡ some s'
    → 2 ≤ n
    → n ≤ j
    → j < 4
    → (new new' : ℕ → ℕ) × Gives tt
        (record m { mem = new })
        (smp_tbl_setup hw
          (t * 2 ^ 14)
          s.kernel_ram_area
          s.user_ram_area
          s.kernel_heap_area
          sp_base
          n
          m)
      × (amp_tbl_setup
            (u * 2 ^ 14)
            s'.kernel_ram_area
            s'.user_ram_area
            s'.kernel_heap_area
            (sp_base + section_size * j)
            m'
          ≡ done tt (record m' { mem = new' }))
      × ((q : ℕ)
          → 0x1f0 ≤ q ⊎ (1 ≤ q × q ≤ 4)
          → q < 0x3f0
          → new (slot (t * 2 ^ 14) q) % 4 ≢ 0
          → new' (slot (u * 2 ^ 14) q) % 4 ≡ 0)
smp_tbl_setup-isolates hw base n j t u m m' live quiet es ej low le high =
    let (new, r, f) = smp_tbl_setup-map hw base n t m live quiet es low (omega arith) in
    let (new', r', f') = amp_tbl_setup-map base j u m' ej high in
    (
      new,
      new',
      r,
      r',
      λ q where_ inside h.
          let own : smp_map n (tasks_end n) q ≢ none =
            mapped_word q (smp_map n (tasks_end n) q)
              (rw (f.inside q (omega arith) (omega arith)) at h) in
          rw (f'.inside q (omega arith) (omega arith), apart n j q low le high inside where_ own)
            (omega arith),
    )
