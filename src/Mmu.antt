-- ===== src/Mmu.antt =====
-- mmu.c and mmu.h: first-level translation tables of 4096 sections of 1 MB, in RAM.
pub mod Access
pub mod Entries
pub mod Isolation
pub mod Shared
pub mod Switch
pub mod Table
pub mod User
use rpi2_baremetal.Common.{
  ℕ, zero, suc, ◌+◌, ◌*◌, ◌/◌, ◌%◌, ◌^◌, ◌&&◌, bit_and, bit_or, u32, leb, ltb, Bool, ◌==◌,
  if◌then◌else◌,
}
use rpi2_baremetal.Machine.{Area, Machine, Hw, M, out_of_fuel, pure, ◌>>=◌, ◌>>◌, store}
use rpi2_baremetal.Uart.{codes, register_value_puts}
use rpi2_baremetal.Sysinfo.Config.{section_size}

abbrev pub fld_sba_mask : ℕ
fld_sba_mask = 0xfff * 2 ^ 20

abbrev pub fld_fault_type : ℕ
fld_fault_type = 0x0

abbrev pub fld_section_type : ℕ
fld_section_type = 0x2

abbrev pub fld_plv_access : ℕ
fld_plv_access = 0x400

abbrev pub fld_full_access : ℕ
fld_full_access = 0xc00

abbrev pub shareable_section : ℕ
shareable_section = 0x1_0000

abbrev pub shareable_dev : ℕ
shareable_dev = 0x4

abbrev pub wt_nwa : ℕ
wt_nwa = 0x8

abbrev pub wb_wa : ℕ
wb_wa = 0x100c

abbrev pub wb_nwa : ℕ
wb_nwa = 0xc

abbrev pub sp_base : ℕ
sp_base = 0x10_0000

abbrev pub shared_bottom : ℕ
shared_bottom = 0x50_0000

abbrev pub shared_limit : ℕ
shared_limit = 0x1f00_0000

abbrev pub periph_bottom : ℕ
periph_bottom = 0x3f00_0000

abbrev pub periph_limit : ℕ
periph_limit = 0x4040_0000

-- `*(uint32_t *)(ttba | (tblid << 2)) = (pa & FLD_SBA_MASK) | flags | FLD_SECTION_TYPE`
unfoldable pub mmu_section : ℕ → ℕ → ℕ → ℕ → M (Unit {0})
mmu_section va pa flags ttba =
    let tblid = va / 2 ^ 20 in
    let l1descpa = bit_or ttba (tblid * 2 ^ 2) in
    store l1descpa (bit_or (bit_or (bit_and pa fld_sba_mask) flags) fld_section_type)

unfoldable pub mmu_fault : ℕ → ℕ → ℕ → M (Unit {0})
mmu_fault va pa ttba =
    let tblid = va / 2 ^ 20 in
    let l1descpa = bit_or ttba (tblid * 2 ^ 2) in
    store l1descpa (bit_or (bit_and pa fld_sba_mask) fld_fault_type)

-- `va >= a->bottom && va < a->limit`
abbrev pub within : ℕ → ℕ → ℕ → Bool
within bottom limit va = leb bottom va && ltb va limit

-- `for (va = 0;; va += SECTION_SIZE) { body; if (va == 0xFFF00000) break; }` at `va`.
unfoldable pub section_loop : ℕ → (ℕ → M (Unit {0})) → ℕ → M (Unit {0})
section_loop zero body va = λ _. out_of_fuel
section_loop (suc fuel) body va = do
  body va
  if va == 0xfff0_0000 then pure tt else section_loop fuel body (u32 (va + section_size))

abbrev pub sections : ℕ
sections = 4096

unfoldable pub usr_entry : ℕ → ℕ → M (Unit {0})
usr_entry ttba va =
    if va == ttba
    then mmu_section va ttba (bit_or (bit_or shareable_section wb_wa) fld_full_access) ttba
    else if ltb va ttba
    then mmu_section va va (bit_or (bit_or shareable_section wb_wa) fld_full_access) ttba
    else if within shared_bottom shared_limit va
    then mmu_section va va (bit_or (bit_or shareable_section wt_nwa) fld_full_access) ttba
    else if within periph_bottom periph_limit va
    then mmu_section va va (bit_or shareable_dev fld_full_access) ttba
    else mmu_fault va va ttba

unfoldable pub cre_usr_tbl : ℕ → M (Unit {0})
cre_usr_tbl ttba = section_loop sections (usr_entry ttba) 0

unfoldable pub amp_entry : ℕ → Area → Area → Area → ℕ → ℕ → M (Unit {0})
amp_entry ttba kram_area uram_area kheap_area sp_bottom va =
    if ltb va sp_base
    then mmu_section va va (bit_or (bit_or shareable_section wb_wa) fld_full_access) ttba
    else if within sp_bottom (u32 (sp_bottom + section_size)) va
    then mmu_section va va (bit_or wt_nwa fld_plv_access) ttba
    else if within shared_bottom shared_limit va
    then mmu_section va va (bit_or (bit_or shareable_section wt_nwa) fld_full_access) ttba
    else if within kram_area.bottom kram_area.limit va
    then mmu_section va va (bit_or wb_wa fld_plv_access) ttba
    else if within kheap_area.bottom kheap_area.limit va
    then mmu_section va va (bit_or (bit_or shareable_section wb_wa) fld_plv_access) ttba
    else if within uram_area.bottom uram_area.limit va
    then mmu_section va va (bit_or wb_wa fld_full_access) ttba
    else if within periph_bottom periph_limit va
    then mmu_section va va (bit_or shareable_dev fld_full_access) ttba
    else mmu_fault va va ttba

unfoldable pub amp_tbl_setup : ℕ → Area → Area → Area → ℕ → M (Unit {0})
amp_tbl_setup ttba kram_area uram_area kheap_area sp_bottom =
    section_loop sections (amp_entry ttba kram_area uram_area kheap_area sp_bottom) 0

unfoldable pub smp_entry : ℕ → Area → Area → Area → ℕ → ℕ → ℕ → M (Unit {0})
smp_entry ttba kram_area uram_area kheap_area sp_bottom cpus va =
    if ltb va sp_base
    then mmu_section va va (bit_or (bit_or shareable_section wb_nwa) fld_full_access) ttba
    else if within sp_bottom (u32 (sp_bottom + section_size * cpus)) va
    then mmu_section va va (bit_or wt_nwa fld_plv_access) ttba
    else if within shared_bottom shared_limit va
    then mmu_section va va (bit_or (bit_or shareable_section wt_nwa) fld_full_access) ttba
    else if within kram_area.bottom kram_area.limit va
    then mmu_section va va (bit_or (bit_or shareable_section wb_nwa) fld_plv_access) ttba
    else if within kheap_area.bottom kheap_area.limit va
    then mmu_section va va (bit_or (bit_or shareable_section wb_nwa) fld_plv_access) ttba
    else if within uram_area.bottom uram_area.limit va
    then mmu_section va va (bit_or wb_nwa fld_full_access) ttba
    else if within periph_bottom periph_limit va
    then mmu_section va va (bit_or shareable_dev fld_full_access) ttba
    else if ltb periph_limit va
    then mmu_section va va (bit_or shareable_dev fld_full_access) ttba
    else mmu_fault va va ttba

unfoldable pub smp_tbl_setup : Hw → ℕ → Area → Area → Area → ℕ → ℕ → M (Unit {0})
smp_tbl_setup hw ttba kram_area uram_area kheap_area sp_bottom cpus = do
  register_value_puts hw (codes "KHA BOTTOM: ") kheap_area.bottom
  section_loop sections (smp_entry ttba kram_area uram_area kheap_area sp_bottom cpus) 0
