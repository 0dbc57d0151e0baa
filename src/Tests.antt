-- ===== src/Tests.antt =====
-- A machine to run the code on, and one application of each theorem that has hypotheses.
pub mod Asids
pub mod Boot
pub mod Console
pub mod Cores
pub mod Creation
pub mod Heaps
pub mod Modes
pub mod Queues
pub mod Starts
pub mod Tables
pub mod Tasks
use rpi2_baremetal.Common.{
  ℕ, zero, suc, ◌+◌, ◌^◌, ◌<◌, ◌≡◌, refl, Bool, true, false, List, [], ◌∷◌, inl, none, replicate,
  arith,
}
use rpi2_baremetal.Machine.{Area, SysCommonInfo, SysStructInfo, Bus, Cp15, Machine, Hw, update}
use rpi2_baremetal.Sysinfo.Config.{area, sys_common_info}
use rpi2_baremetal.Sysinfo.Init.{entry}
use rpi2_baremetal.Uart.Prints.{Drains, IsQuiet}

-- Devices whose status registers always read 0x21: a byte is there, the transmitter is empty.
abbrev pub hw : Hw
hw = record { read = λ b reg. 0x21; polls = 1 }

-- Every register reads 0x30: a mailbox interrupt, with the requests 4 and 5.
abbrev pub ipi_hw : Hw
ipi_hw = record { read = λ b reg. 0x30; polls = 1 }

pub hw-Drains : Drains hw
hw-Drains = record { drains = λ b. (0, omega arith, omega arith) }

abbrev pub table : List SysStructInfo
table =
    entry 0x2_0000 0 (area 0x1f00_0000 0x1fff_ffff) (area 0x2000_0000 0x20ff_ffff)
      (area 0x2100_0000 0x26ff_ffff) (area 0 64) 95
    ∷ entry 0x2_0000 1 (area 0x2700_0000 0x27ff_ffff) (area 0x2800_0000 0x28ff_ffff)
        (area 0x2900_0000 0x2eff_ffff) (area 64 128) 95
    ∷ entry 0x2_0000 2 (area 0x2f00_0000 0x2fff_ffff) (area 0x3000_0000 0x30ff_ffff)
        (area 0x3100_0000 0x36ff_ffff) (area 128 192) 95
    ∷ entry 0x2_0000 3 (area 0x3700_0000 0x37ff_ffff) (area 0x3800_0000 0x38ff_ffff)
        (area 0x3900_0000 0x3eff_ffff) (area 192 256) 95
    ∷ entry 0x2_0000 4 (area 0x1f00_0000 0x21ff_ffff) (area 0x2200_0000 0x23ff_ffff)
        (area 0x2400_0000 0x3eff_ffff) (area 0 256) 431
    ∷ entry 0x2_0000 5 (area 0x1f00_0000 0x21ff_ffff) (area 0x2200_0000 0x23ff_ffff)
        (area 0x2400_0000 0x36ff_ffff) (area 0 192) 303
    ∷ entry 0x2_0000 6 (area 0x1f00_0000 0x21ff_ffff) (area 0x2200_0000 0x23ff_ffff)
        (area 0x2400_0000 0x2eff_ffff) (area 0 128) 175
    ∷ []

-- Core `cpu` after the initialisation, with SCTLR `sctlr` and no ASID in use.
abbrev pub machine : ℕ → ℕ → Machine
machine cpu sctlr = record {
  cpu = cpu;
  irq_masked = false;
  cp15 = record {
    sctlr = sctlr;
    actlr = 0;
    dacr = 0;
    ttbcr = 0;
    ttbr0 = 0;
    ttbr1 = 0;
    contextidr = 0;
  };
  lock = λ l. 0;
  bus = record { writes = []; ticks = 0 };
  common = sys_common_info;
  structs = table;
  asid_head = replicate 256 0;
  maintenance = [];
  irq_handlers = replicate 72 none;
  mem = λ a. 0;
}

pub core0-IsQuiet : (sctlr : ℕ) → IsQuiet (machine 0 sctlr)
core0-IsQuiet sctlr = record { free = refl; calm = inl refl }
