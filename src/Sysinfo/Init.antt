-- ===== src/Sysinfo/Init.antt =====
-- What the entries hold after `init_sysinfos`, and whose memory they describe.
use rpi2_baremetal.Common.{ℕ, ◌+◌, ◌*◌, ◌≡◌, refl, List, [], ◌∷◌, arith, length, u32}
use rpi2_baremetal.Machine.{Area, SysStructInfo, Machine, done, update}
use rpi2_baremetal.Sysinfo.{struct_info, set_struct_info, common_info}
use rpi2_baremetal.Sysinfo.Config.{area, init_sysinfos, reset_lock, section_tbl_size}

-- The entry `i`, by its areas.
abbrev pub entry : ℕ → ℕ → Area → Area → Area → Area → ℕ → SysStructInfo
entry base i kram kheap uram asid spaces = record {
  ttba = u32 (base + i * section_tbl_size);
  kernel_ram_area = kram;
  user_ram_area = uram;
  kernel_heap_area = kheap;
  kernel_heap_freep = 0;
  asid_area = asid;
  max_num_task_space = spaces;
}

-- The table after initialisation. Cores 0 to 3 alone, then 4, 3 and 2 cores together.
unfoldable pub configured : ℕ → List SysStructInfo
configured base =
    entry base 0 (area 0x1f00_0000 0x1fff_ffff) (area 0x2000_0000 0x20ff_ffff)
      (area 0x2100_0000 0x26ff_ffff) (area 0 64) 95
    ∷ entry base 1 (area 0x2700_0000 0x27ff_ffff) (area 0x2800_0000 0x28ff_ffff)
        (area 0x2900_0000 0x2eff_ffff) (area 64 128) 95
    ∷ entry base 2 (area 0x2f00_0000 0x2fff_ffff) (area 0x3000_0000 0x30ff_ffff)
        (area 0x3100_0000 0x36ff_ffff) (area 128 192) 95
    ∷ entry base 3 (area 0x3700_0000 0x37ff_ffff) (area 0x3800_0000 0x38ff_ffff)
        (area 0x3900_0000 0x3eff_ffff) (area 192 256) 95
    ∷ entry base 4 (area 0x1f00_0000 0x21ff_ffff) (area 0x2200_0000 0x23ff_ffff)
        (area 0x2400_0000 0x3eff_ffff) (area 0 256) 431
    ∷ entry base 5 (area 0x1f00_0000 0x21ff_ffff) (area 0x2200_0000 0x23ff_ffff)
        (area 0x2400_0000 0x36ff_ffff) (area 0 192) 303
    ∷ entry base 6 (area 0x1f00_0000 0x21ff_ffff) (area 0x2200_0000 0x23ff_ffff)
        (area 0x2400_0000 0x2eff_ffff) (area 0 128) 175
    ∷ []

pub configured-length : (base : ℕ) → length (configured base) ≡ 7
unfolding configured
configured-length base = refl

unfoldable pub unlocked : (ℕ → ℕ) → ℕ → ℕ
unlocked f =
    update (update (update (update (update (update (update f 4 0) 5 0) 6 0) 7 0) 8 0) 9 0) 10 0

record Seven (xs : List SysStructInfo) : Type 0 where
  s0 : SysStructInfo
  s1 : SysStructInfo
  s2 : SysStructInfo
  s3 : SysStructInfo
  s4 : SysStructInfo
  s5 : SysStructInfo
  s6 : SysStructInfo
  eq : xs ≡ s0 ∷ s1 ∷ s2 ∷ s3 ∷ s4 ∷ s5 ∷ s6 ∷ []

seven : (xs : List SysStructInfo) → length xs ≡ 7 → Seven xs
seven (a ∷ b ∷ c ∷ d ∷ e ∷ f ∷ g ∷ []) h = record {
  s0 = a;
  s1 = b;
  s2 = c;
  s3 = d;
  s4 = e;
  s5 = f;
  s6 = g;
  eq = refl;
}
seven [] h = absurd (omega arith)
seven (_ ∷ []) h = absurd (omega arith)
seven (_ ∷ _ ∷ []) h = absurd (omega arith)
seven (_ ∷ _ ∷ _ ∷ []) h = absurd (omega arith)
seven (_ ∷ _ ∷ _ ∷ _ ∷ []) h = absurd (omega arith)
seven (_ ∷ _ ∷ _ ∷ _ ∷ _ ∷ []) h = absurd (omega arith)
seven (_ ∷ _ ∷ _ ∷ _ ∷ _ ∷ _ ∷ []) h = absurd (omega arith)
seven (_ ∷ _ ∷ _ ∷ _ ∷ _ ∷ _ ∷ _ ∷ _ ∷ r) h = absurd (omega arith)

-- `init_sysinfos` on a table of seven entries returns with the table `configured` (the areas and
-- sizes of sysconfs.c, no free list, the translation tables one after the other from the base) and
-- with the lock of every entry free; the rest of the machine is as it was.
pub init_sysinfos-configured :
    (m : Machine)
    → length m.structs ≡ 7
    → init_sysinfos m
      ≡ done tt (record m { structs = configured m.common.base_ttba; lock = unlocked m.lock })
unfolding init_sysinfos configured unlocked struct_info set_struct_info common_info reset_lock
init_sysinfos-configured m h = let s = seven m.structs h in rw s.eq
