-- ===== src/Tests/Modes.antt =====
-- The theorems on sysinfo.c at a concrete machine.
use rpi2_baremetal.Common.{ℕ, ◌⊎◌, true, replicate, ◌≡◌, refl, inl, inr, set, arith}
use rpi2_baremetal.Machine.{Machine, SysStructInfo, done, fault}
use rpi2_baremetal.Sysinfo.{is_amp, is_smp, get_sys_struct_info, struct_info}
use rpi2_baremetal.Sysinfo.Modes.{index_of, get_sys_struct_info-fault}
use rpi2_baremetal.Sysinfo.Config.{area, init_sysinfos}
use rpi2_baremetal.Sysinfo.Init.{entry}
use rpi2_baremetal.Sysinfo.Partition.{AreApart, init_sysinfos-AreApart}
use rpi2_baremetal.Sysinfo.Asid.{first_user_asid, set_user_asid, take_kernel_asid}
use rpi2_baremetal.Sysinfo.Asid.Grant.{IsReady}
use rpi2_baremetal.Sysinfo.Asid.Search.{
  IsCall, Searched, set_user_asid-Searched, take_kernel_asid-second,
}
use rpi2_baremetal.Tests.{hw, machine, hw-Drains, core0-IsQuiet}

get_sys_struct_info-fault_example : get_sys_struct_info hw 5 0x8 (machine 0 1) ≡ fault
get_sys_struct_info-fault_example =
    get_sys_struct_info-fault hw 5 0x8 (machine 0 1) hw-Drains (core0-IsQuiet 1) refl
      (inl (omega arith))

init_sysinfos-AreApart_example :
    (m' : Machine) × (i j : ℕ) × (s t : SysStructInfo) × (init_sysinfos (machine 0 1) ≡ done tt m')
    × (get_sys_struct_info hw 1 0x8 m' ≡ done i m')
    × (struct_info i m' ≡ done s m')
    × (get_sys_struct_info hw 3 0x8 m' ≡ done j m')
    × (struct_info j m' ≡ done t m')
    × (((i ≡ j) × ((◌≡◌ {A = ℕ} 1 3) ⊎ ((is_smp 1 0x8 ≡ true) × (is_smp 3 0x8 ≡ true))))
        ⊎ AreApart s t)
init_sysinfos-AreApart_example =
    init_sysinfos-AreApart hw 1 3 0x8 (machine 0 1) refl (omega arith) (omega arith)
      (inr (inr (inl refl)))

abbrev pub own_entry : SysStructInfo
own_entry =
    entry 0x2_0000 0 (area 0x1f00_0000 0x1fff_ffff) (area 0x2000_0000 0x20ff_ffff)
      (area 0x2100_0000 0x26ff_ffff) (area 0 64) 95

pub own-IsReady : IsReady (index_of 0 0xf) (machine 0 1)
unfolding is_amp
own-IsReady = record { quiet = core0-IsQuiet 1; open_lock = refl }

pub own-IsCall : IsCall (machine 0 1) 0 0xf own_entry
unfolding is_amp
own-IsCall = record {
  table = refl;
  core = omega arith;
  mode = inl refl;
  found = refl;
  fits = omega arith;
  room = omega arith;
}

set_user_asid-Searched_example :
    Searched 0x2100_0000
      (first_user_asid 0)
      64
      (machine 0 1)
      (set_user_asid hw 0x2100_0000 0 0xf (machine 0 1))
set_user_asid-Searched_example =
    set_user_asid-Searched hw 0x2100_0000 0 0xf (machine 0 1) hw-Drains own-IsReady own-IsCall refl

take_kernel_asid-second_example :
    take_kernel_asid hw 0 0xf (machine 0 1)
    ≡ done 1 (record (machine 0 1) { asid_head = set (replicate 256 0) 1 1 })
take_kernel_asid-second_example =
    take_kernel_asid-second hw 0x2100_0000 0 0xf (machine 0 1) own-IsCall
