-- ===== src/Tests/Tasks.antt =====
-- The theorems on tasks at a concrete machine: core 1 alone, its MMU off, all slots taken.
use rpi2_baremetal.Common.{◌≡◌, refl, inl, inr, arith}
use rpi2_baremetal.Machine.{SysStructInfo, Machine, hang}
use rpi2_baremetal.Uart.Prints.{IsQuiet}
use rpi2_baremetal.Sysinfo.{is_amp}
use rpi2_baremetal.Sysinfo.Config.{area, sys_common_info}
use rpi2_baremetal.Sysinfo.Init.{entry}
use rpi2_baremetal.Task.{move_task_spaces}
use rpi2_baremetal.Task.Move.{IsMover, move_task_spaces-hang}
use rpi2_baremetal.Tests.{hw, machine, hw-Drains}

abbrev full : Machine
full = record (machine 1 0) { common = record sys_common_info { pm = 0xf }; mem = λ a. 1 }

abbrev own : SysStructInfo
own =
    entry 0x2_0000 1 (area 0x2700_0000 0x27ff_ffff) (area 0x2800_0000 0x28ff_ffff)
      (area 0x2900_0000 0x2eff_ffff) (area 64 128) 95

full-IsQuiet : IsQuiet full
full-IsQuiet = record { free = refl; calm = inr refl }

full-IsMover : IsMover full own
unfolding is_amp
full-IsMover = record {
  table = refl;
  core = omega arith;
  mode = inl refl;
  found = refl;
  room = λ e. omega (arith, e);
}

move_task_spaces-hang_example : move_task_spaces hw 0x2800_0008 10 full ≡ hang
move_task_spaces-hang_example =
    move_task_spaces-hang hw 0x2800_0008 10 48 full hw-Drains full-IsQuiet full-IsMover refl
      (omega arith) (omega arith) (λ e. omega (arith, e))
