-- ===== src/Sysinfo/Config.antt =====
-- sysconfs.c: the memory and ASID areas of the seven entries, and `init_sysinfos` of sysinfo.c.
use rpi2_baremetal.Common.{ℕ, zero, suc, ◌+◌, ◌*◌, ◌/◌, List, [], ◌∷◌, get_elem?, u32, sub32}
use rpi2_baremetal.Machine.{
  Area, SysCommonInfo, M, done, pure, ◌>>=◌, ◌>>◌, elem, struct_lock, update,
}
use rpi2_baremetal.Sysinfo.{common_info, struct_info, set_struct_info}

abbrev pub section_size : ℕ
section_size = 0x10_0000

abbrev pub section_tbl_size : ℕ
section_tbl_size = 0x4000

abbrev pub area : ℕ → ℕ → Area
area b l = record { bottom = b; limit = l }

abbrev pub kram_areas : List Area
kram_areas =
    area 0x1f00_0000 0x1fff_ffff
    ∷ area 0x2700_0000 0x27ff_ffff
    ∷ area 0x2f00_0000 0x2fff_ffff
    ∷ area 0x3700_0000 0x37ff_ffff
    ∷ area 0x1f00_0000 0x21ff_ffff
    ∷ area 0x1f00_0000 0x21ff_ffff
    ∷ area 0x1f00_0000 0x21ff_ffff
    ∷ []

abbrev pub uram_areas : List Area
uram_areas =
    area 0x2100_0000 0x26ff_ffff
    ∷ area 0x2900_0000 0x2eff_ffff
    ∷ area 0x3100_0000 0x36ff_ffff
    ∷ area 0x3900_0000 0x3eff_ffff
    ∷ area 0x2400_0000 0x3eff_ffff
    ∷ area 0x2400_0000 0x36ff_ffff
    ∷ area 0x2400_0000 0x2eff_ffff
    ∷ []

abbrev pub kheap_areas : List Area
kheap_areas =
    area 0x2000_0000 0x20ff_ffff
    ∷ area 0x2800_0000 0x28ff_ffff
    ∷ area 0x3000_0000 0x30ff_ffff
    ∷ area 0x3800_0000 0x38ff_ffff
    ∷ area 0x2200_0000 0x23ff_ffff
    ∷ area 0x2200_0000 0x23ff_ffff
    ∷ area 0x2200_0000 0x23ff_ffff
    ∷ []

abbrev pub asid_size : ℕ
asid_size = 256 / 4

abbrev pub asid_areas : List Area
asid_areas =
    area (asid_size * 0) (asid_size * 1)
    ∷ area (asid_size * 1) (asid_size * 2)
    ∷ area (asid_size * 2) (asid_size * 3)
    ∷ area (asid_size * 3) (asid_size * 4)
    ∷ area (asid_size * 0) (asid_size * 4)
    ∷ area (asid_size * 0) (asid_size * 3)
    ∷ area (asid_size * 0) (asid_size * 2)
    ∷ []

-- The initial value of `sys_common_info`.
abbrev pub sys_common_info : SysCommonInfo
sys_common_info = record { pm = 0; prev_pm = 0; base_ttba = 0x2_0000; waking_cores = 0 }

-- `ssi->lock = 0`
unfoldable pub reset_lock : ℕ → M (Unit {0})
reset_lock l m = done tt (record m { lock = update m.lock l 0 })

-- The loop of `init_sysinfos` from entry `i`, with `n` entries left.
unfoldable pub init_loop : ℕ → ℕ → ℕ → M (Unit {0})
init_loop zero i base_ttba = pure tt
init_loop (suc n) i base_ttba = do
  _ ← struct_info i
  reset_lock (struct_lock i)
  kram ← elem (get_elem? kram_areas i)
  uram ← elem (get_elem? uram_areas i)
  kheap ← elem (get_elem? kheap_areas i)
  asid ← elem (get_elem? asid_areas i)
  set_struct_info i (record {
    ttba = u32 (base_ttba + i * section_tbl_size);
    kernel_ram_area = kram;
    user_ram_area = uram;
    kernel_heap_area = kheap;
    kernel_heap_freep = 0;
    asid_area = asid;
    max_num_task_space = sub32 uram.limit uram.bottom / section_size;
  })
  init_loop n (i + 1) base_ttba

unfoldable pub init_sysinfos : M (Unit {0})
unfolding init_loop
init_sysinfos = do c ← common_info; init_loop 7 0 c.base_ttba
