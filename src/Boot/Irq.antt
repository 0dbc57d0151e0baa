-- ===== src/Boot/Irq.antt =====
-- `_irq` of boot.s, the entry of interrupts, and interrupts that come while it runs. The bits of the
-- status register that the core sets on an exception, other than the mode and the mask, are left out.
pub mod Return
use rpi2_baremetal.Common.{ℕ, ◌+◌, ◌-◌, ◌*◌, ◌/◌, ◌%◌, ◌^◌, ◌≤◌, ◌<◌, ◌≡◌, List, length, u32, sub32}
use rpi2_baremetal.Machine.{update}
use rpi2_baremetal.Boot.{ldmia, stmia, psr_irq, psr_i}

-- A core that has interrupts: r0 to r12, the program counter and the status register; of IRQ mode
-- the saved status register, the link register and the stack pointer; and memory.
pub record Core : Type 0 where
  pub registers : List ℕ
  pub pc : ℕ
  pub cpsr : ℕ
  pub spsr : ℕ
  pub lr : ℕ
  pub sp : ℕ
  pub mem : ℕ → ℕ

-- The core takes an interrupt: it goes to the vector at 0x18 in IRQ mode, with interrupts off.
unfoldable pub take_irq : Core → Core
take_irq s = record s {
  pc = 0x18;
  lr = u32 (s.pc + 4);
  spsr = s.cpsr;
  cpsr = s.cpsr / 256 * 256 + psr_i + s.cpsr / 64 % 2 * 64 + psr_irq;
}

-- `sub lr, lr, #4` and `stmfd sp!, {r0-r12, lr}`
unfoldable pub save : Core → Core
save s =
    let lr = sub32 s.lr 4 in
    let sp = sub32 s.sp 56 in
    record s { lr = lr; sp = sp; mem = update (stmia s.registers sp s.mem) (sp + 52) lr }

-- `cpsie i`
unfoldable pub cpsie : Core → Core
cpsie s = record s { cpsr = s.cpsr / 256 * 256 + s.cpsr % 128 }

-- `ldmfd sp!, {r0-r12, pc}^`, which takes the status register from the saved one.
unfoldable pub restore : Core → Core
restore s = record s {
  registers = ldmia 13 s.sp s.mem;
  pc = s.mem (s.sp + 52);
  sp = u32 (s.sp + 56);
  cpsr = s.spsr;
}

pub record IsCore (s : Core) : Type 0 where
  pub registers : length s.registers ≡ 13
  pub pc : s.pc < 2 ^ 32
  pub sp : s.sp < 2 ^ 32

-- What the call of `interrupt_handler` keeps: the stack pointer and what lies on the stack, and the
-- status registers, as the handlers of the source do not change them.
pub record Handles (s t : Core) : Type 0 where
  pub core : IsCore t
  pub sp : t.sp ≡ s.sp
  pub cpsr : t.cpsr ≡ s.cpsr
  pub spsr : t.spsr ≡ s.spsr
  pub stack : (x : ℕ) → s.sp ≤ x → t.mem x ≡ s.mem x

-- `n` interrupts, one after the other, each with its own that come between `cpsie i` and the return.
pub data Interrupted : Core → Core → ℕ → Type 0 where
  none_yet : {s : Core} → Interrupted s s 0
  one_more :
      {s t u v : Core} {n k : ℕ}
      → Interrupted s t n
      → t.cpsr / 128 % 2 ≡ 0
      → 56 ≤ t.sp
      → Handles (save (take_irq t)) u
      → Interrupted (cpsie u) v k
      → Interrupted s (restore v) (n + 1)
