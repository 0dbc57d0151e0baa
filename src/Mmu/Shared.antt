-- ===== src/Mmu/Shared.antt =====
-- The tables of the cores that run together, by `smp_tbl_setup` of mmu.c.
use rpi2_baremetal.Common.{
  ℕ, zero, suc, ◌-◌, ◌*◌, ◌^◌, ◌<◌, ◌≤◌, ◌≡◌, Option, some, none, arith, ◌==◌, ◌&&◌, if◌then◌else◌,
  ltb, leb, ap, ◌∙◌, get_elem?,
}
use rpi2_baremetal.Machine.{Area, SysStructInfo, Machine, Hw, Outcome, then-done}
use rpi2_baremetal.Uart.{codes, register_value_puts}
use rpi2_baremetal.Uart.Prints.{Drains, IsQuiet}
use rpi2_baremetal.Uart.Gives.{Gives, on_bus, value-Gives}
use rpi2_baremetal.Sysinfo.Config.{area}
use rpi2_baremetal.Sysinfo.Init.{configured}
use rpi2_baremetal.Mmu.{sp_base, smp_tbl_setup, smp_entry, section_loop}
use rpi2_baremetal.Mmu.Table.{Fills, IsFilled, table-Fills}
use rpi2_baremetal.Mmu.Entries.{word_of, pick, smp_rungs, smp_entry-Writes}
use rpi2_baremetal.Mmu.Access.{among, HasAreas, HasAreas-same, Fills-same}

-- The flags of section `q` in the table of the `n` cores that run together, with `last` the first
-- section past their tasks' memory.
abbrev pub smp_map : ℕ → ℕ → ℕ → Option ℕ
smp_map n last q =
    if q == 0
    then some 0x10c0c
    else if among 1 n q
    then some 0x408
    else if among 0x5 0x1eb q
    then some 0x10c08
    else if among 0x1f0 0x50 q
    then some 0x1040c
    else if leb 0x240 q && ltb q last
    then some 0xc0c
    else if among 0x3f0 0x14 q
    then some 0xc04
    else if ltb 0x404 q
    then some 0xc04
    else none

-- The first section past the tasks' memory of `n` cores together.
abbrev pub tasks_end : ℕ → ℕ
tasks_end n = if n == 4 then 0x3f0 else if n == 3 then 0x370 else 0x2f0

-- The areas of the entry of `n` cores.
abbrev kram : Area
kram = area 0x1f00_0000 0x21ff_ffff

abbrev kheap : Area
kheap = area 0x2200_0000 0x23ff_ffff

abbrev uram : ℕ → Area
uram n = area 0x2400_0000 (tasks_end n * 2 ^ 20 - 1)

smp_areas :
    (base n : ℕ) {s : SysStructInfo}
    → get_elem? (configured base) (8 - n) ≡ some s
    → 2 ≤ n
    → n ≤ 4
    → HasAreas s kram (uram n) kheap
unfolding configured
smp_areas base zero e low high = absurd (omega arith)
smp_areas base (suc zero) e low high = absurd (omega arith)
smp_areas base (suc (suc zero)) e low high = HasAreas-same e
smp_areas base (suc (suc (suc zero))) e low high = HasAreas-same e
smp_areas base (suc (suc (suc (suc zero)))) e low high = HasAreas-same e
smp_areas base (suc (suc (suc (suc (suc n))))) e low high = absurd (omega arith)

smp_rungs-map :
    (n q : ℕ)
    → 2 ≤ n
    → n ≤ 4
    → q < 4096
    → pick (smp_rungs kram (uram n) kheap sp_base n (q * 2 ^ 20)) ≡ smp_map n (tasks_end n) q
unfolding smp_rungs
smp_rungs-map zero q low high lt = absurd (omega arith)
smp_rungs-map (suc zero) q low high lt = absurd (omega arith)
smp_rungs-map (suc (suc zero)) q low high lt = ground arith
smp_rungs-map (suc (suc (suc zero))) q low high lt = ground arith
smp_rungs-map (suc (suc (suc (suc zero)))) q low high lt = ground arith
smp_rungs-map (suc (suc (suc (suc (suc n))))) q low high lt = absurd (omega arith)

-- The call returns with the table filled, whatever was printed.
abbrev pub FillsPrinting : ℕ → (ℕ → ℕ) → Machine → Outcome (Unit {0}) → Type 0
FillsPrinting ttba word m r =
    (new : ℕ → ℕ) × Gives tt (record m { mem = new }) r × IsFilled ttba word 0 m.mem new

smp_loop-Fills :
    (n t : ℕ) {s : SysStructInfo} (m : Machine)
    → HasAreas s kram (uram n) kheap
    → 2 ≤ n
    → n ≤ 4
    → Fills
        (t * 2 ^ 14)
        (λ q. word_of (smp_map n (tasks_end n) q) q)
        0
        m
        (section_loop 4096
          (smp_entry (t * 2 ^ 14) s.kernel_ram_area s.user_ram_area s.kernel_heap_area sp_base n)
          0
          m)
smp_loop-Fills n t m h low high =
    rw (h.ram, h.user, h.heap)
      (Fills-same (t * 2 ^ 14) _ _ m _
        (λ q l. ap (λ (o : Option ℕ). word_of o q) (smp_rungs-map n q low high l))
        (table-Fills (t * 2 ^ 14) _ _ (smp_entry-Writes t kram (uram n) kheap sp_base n) m))

-- With the entry of `n` cores together after `init_sysinfos`, n being 2, 3 or 4, and a console
-- that can be used, `smp_tbl_setup` returns, and has then written to each section's descriptor
-- what `smp_map` says of it, and to no other word of memory; else it has changed the console only.
pub smp_tbl_setup-map :
    (hw : Hw) (base n t : ℕ) {s : SysStructInfo} (m : Machine)
    → Drains hw
    → IsQuiet m
    → get_elem? (configured base) (8 - n) ≡ some s
    → 2 ≤ n
    → n ≤ 4
    → FillsPrinting
        (t * 2 ^ 14)
        (λ q. word_of (smp_map n (tasks_end n) q) q)
        m
        (smp_tbl_setup hw
          (t * 2 ^ 14)
          s.kernel_ram_area
          s.user_ram_area
          s.kernel_heap_area
          sp_base
          n
          m)
unfolding smp_tbl_setup
smp_tbl_setup-map hw base n t {s} m live quiet e low high =
    let (b, printed) = value-Gives live m quiet (codes "KHA BOTTOM: ") s.kernel_heap_area.bottom in
    let (new, returned, f) =
      smp_loop-Fills n t (on_bus m b) (smp_areas base n e low high) low high in
    (new, (b, then-done (register_value_puts hw _ _) _ m printed ∙ returned), f)
