-- ===== src/Mmu/Access.antt =====
-- Who may reach which section by the tables of mmu.c, with the areas that sysconfs.c sets.
use rpi2_baremetal.Common.{
  ℕ, zero, suc, ◌+◌, ◌*◌, ◌^◌, ◌<◌, ◌≡◌, Bool, Option, some, none, arith, ◌==◌, ◌&&◌, if◌then◌else◌,
  ltb, leb, ap, ◌∙◌, get_elem?,
}
use rpi2_baremetal.Machine.{Area, SysStructInfo, Machine, Outcome}
use rpi2_baremetal.Sysinfo.Config.{section_size, area}
use rpi2_baremetal.Sysinfo.Init.{configured}
use rpi2_baremetal.Mmu.{sp_base, amp_tbl_setup}
use rpi2_baremetal.Mmu.Table.{Fills, table-Fills}
use rpi2_baremetal.Mmu.Entries.{word_of, pick, amp_rungs, amp_entry-Writes}

-- Section `q` is one of the `n` sections from section `first`.
abbrev pub among : ℕ → ℕ → ℕ → Bool
among first n q = leb first q && ltb q (first + n)

-- The flags of section `q` in the table of core `i` alone: the first section is for all; the
-- stack of the core; the shared memory; its kernel's memory and heap; its tasks' memory; devices.
abbrev pub amp_map : ℕ → ℕ → Option ℕ
amp_map i q =
    if q == 0
    then some 0x11c0c
    else if q == 1 + i
    then some 0x408
    else if among 0x5 0x1eb q
    then some 0x10c08
    else if among (0x1f0 + 0x80 * i) 0x10 q
    then some 0x140c
    else if among (0x200 + 0x80 * i) 0x10 q
    then some 0x1140c
    else if among (0x210 + 0x80 * i) 0x60 q
    then some 0x1c0c
    else if among 0x3f0 0x14 q
    then some 0xc04
    else none

-- The areas of the entry of core `i`.
module _ (i : ℕ) where
  abbrev kram : Area
  kram = area (0x1f00_0000 + 0x800_0000 * i) (0x1fff_ffff + 0x800_0000 * i)

  abbrev kheap : Area
  kheap = area (0x2000_0000 + 0x800_0000 * i) (0x20ff_ffff + 0x800_0000 * i)

  abbrev uram : Area
  uram = area (0x2100_0000 + 0x800_0000 * i) (0x26ff_ffff + 0x800_0000 * i)

pub record HasAreas (s : SysStructInfo) (k u h : Area) : Type 0 where
  pub ram : s.kernel_ram_area ≡ k
  pub user : s.user_ram_area ≡ u
  pub heap : s.kernel_heap_area ≡ h

pub HasAreas-same :
    {s t : SysStructInfo}
    → some s ≡ some t
    → HasAreas t s.kernel_ram_area s.user_ram_area s.kernel_heap_area
HasAreas-same e = record { ram = cc; user = cc; heap = cc }

amp_areas :
    (base i : ℕ) {s : SysStructInfo}
    → get_elem? (configured base) i ≡ some s
    → i < 4
    → HasAreas s (kram i) (uram i) (kheap i)
unfolding configured
amp_areas base zero e lt = HasAreas-same e
amp_areas base (suc zero) e lt = HasAreas-same e
amp_areas base (suc (suc zero)) e lt = HasAreas-same e
amp_areas base (suc (suc (suc zero))) e lt = HasAreas-same e
amp_areas base (suc (suc (suc (suc i)))) e lt = absurd (omega arith)

amp_rungs-map :
    (i q : ℕ)
    → i < 4
    → q < 4096
    → pick (amp_rungs (kram i) (uram i) (kheap i) (sp_base + section_size * i) (q * 2 ^ 20))
      ≡ amp_map i q
unfolding amp_rungs
amp_rungs-map zero q lt h = ground arith
amp_rungs-map (suc zero) q lt h = ground arith
amp_rungs-map (suc (suc zero)) q lt h = ground arith
amp_rungs-map (suc (suc (suc zero))) q lt h = ground arith
amp_rungs-map (suc (suc (suc (suc i)))) q lt h = absurd (omega arith)

-- A table with the words `word` is a table with the words `other` if they agree.
pub Fills-same :
    (ttba : ℕ) (word other : ℕ → ℕ) (m : Machine) (r : Outcome (Unit {0}))
    → ((q : ℕ) → q < 4096 → word q ≡ other q)
    → Fills ttba word 0 m r
    → Fills ttba other 0 m r
Fills-same ttba word other m r same (new, e, f) = (
  new,
  e,
  record { inside = λ q l h. f.inside q l h ∙ same q h; outside = λ a ne. f.outside a ne },
)

-- With the entry of core `i` after `init_sysinfos`, `amp_tbl_setup` returns, and has then written
-- to each section's descriptor what `amp_map` says of it, and to no other word of memory.
pub amp_tbl_setup-map :
    (base i t : ℕ) {s : SysStructInfo} (m : Machine)
    → get_elem? (configured base) i ≡ some s
    → i < 4
    → Fills
        (t * 2 ^ 14)
        (λ q. word_of (amp_map i q) q)
        0
        m
        (amp_tbl_setup
          (t * 2 ^ 14)
          s.kernel_ram_area
          s.user_ram_area
          s.kernel_heap_area
          (sp_base + section_size * i)
          m)
unfolding amp_tbl_setup
amp_tbl_setup-map base i t {s} m e lt =
    let h = amp_areas base i e lt in
    rw (h.ram, h.user, h.heap)
      (Fills-same (t * 2 ^ 14) _ _ m _
        (λ q l. ap (λ (o : Option ℕ). word_of o q) (amp_rungs-map i q lt l))
        (table-Fills (t * 2 ^ 14) _ _
          (amp_entry-Writes t (kram i) (uram i) (kheap i) (sp_base + section_size * i)) m))
