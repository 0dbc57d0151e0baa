-- ===== src/Init.antt =====
-- init.c: the translation tables of all modes.
pub mod Clear
pub mod Cold
pub mod Main
pub mod Primary
pub mod Secondary
pub mod Start
pub mod Tables
use rpi2_baremetal.Common.{
  ℕ, zero, suc, ◌+◌, ◌-◌, ◌*◌, ◌%◌, ◌^◌, List, [], ◌∷◌, u32, get_elem?, ltb, if◌then◌else◌,
}
use rpi2_baremetal.Machine.{Machine, Hw, M, pure, ◌>>=◌, ◌>>◌, elem}
use rpi2_baremetal.Sysinfo.{
  num_cpu, pcore, common_info, get_kernel_ram_area, get_user_ram_area, get_kernel_heap_area,
}
use rpi2_baremetal.Sysinfo.Config.{section_size, section_tbl_size}
use rpi2_baremetal.Mmu.{sp_base, amp_tbl_setup, smp_tbl_setup}

abbrev pub amp_pm : ℕ
amp_pm = 0xf

abbrev pub smp_pm : List ℕ
smp_pm = 0x0 ∷ 0x8 ∷ 0xc ∷ []

module _ (hw : Hw) where
  -- The body of the loop.
  unfoldable pub setup_ttb : ℕ → ℕ → M (Unit {0})
  setup_ttb i ttba =
      if ltb i num_cpu
      then (do
        kram ← get_kernel_ram_area hw i amp_pm
        uram ← get_user_ram_area hw i amp_pm
        kheap ← get_kernel_heap_area hw i amp_pm
        amp_tbl_setup ttba kram uram kheap (u32 (sp_base + section_size * i)))
      else (do
        pm ← elem (get_elem? smp_pm (i - num_cpu))
        kram ← get_kernel_ram_area hw pcore pm
        uram ← get_user_ram_area hw pcore pm
        kheap ← get_kernel_heap_area hw pcore pm
        smp_tbl_setup hw ttba kram uram kheap sp_base (num_cpu - (i - num_cpu)))

  -- The loop, with `n` tables left.
  unfoldable pub ttb_loop : ℕ → ℕ → ℕ → M (Unit {0})
  ttb_loop zero i ttba = pure tt
  ttb_loop (suc n) i ttba = do setup_ttb i ttba; ttb_loop n (i + 1) (u32 (ttba + section_tbl_size))

  unfoldable pub init_ttbs : M (Unit {0})
  unfolding ttb_loop
  init_ttbs = do c ← common_info; ttb_loop (2 * num_cpu - 1) 0 c.base_ttba
