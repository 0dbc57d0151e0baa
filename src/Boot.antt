-- ===== src/Boot.antt =====
-- boot.s from `_reset_` up to the call of `sys_init_primary` or `sys_init_secondary`: the vectors, the
-- mode and the stacks of a core. `mov` of a constant and the reads of registers are folded into the
-- instructions that use them.
pub mod Mode
pub mod Irq
pub mod Ready
pub mod Reset
pub mod Vectors
use Prim.Native.Nat.{bit_xor}
use rpi2_baremetal.Common.{
  ℕ, zero, suc, ◌+◌, ◌*◌, ◌/◌, ◌%◌, bit_and, bit_or, Option, none, some, List, [], ◌∷◌, u32, sub32,
  ◌==◌, if◌then◌else◌,
}
use rpi2_baremetal.Machine.{update}

infixl 5 ◌>>=◌
abbrev pub ◌>>=◌ : {A B : Type 0} → Option A → (A → Option B) → Option B
none >>= f = none
some a >>= f = f a

-- The program status register, the stack pointers of the modes, and memory by words.
pub record Boot : Type 0 where
  pub cpsr : ℕ
  pub sp : ℕ → ℕ
  pub mem : ℕ → ℕ

abbrev pub psr_fiq : ℕ
psr_fiq = 0x11

abbrev pub psr_irq : ℕ
psr_irq = 0x12

abbrev pub psr_svc : ℕ
psr_svc = 0x13

abbrev pub psr_abt : ℕ
psr_abt = 0x17

abbrev pub psr_i : ℕ
psr_i = 0x80

abbrev pub psr_f : ℕ
psr_f = 0x40

abbrev pub psr_usr : ℕ
psr_usr = 0x10

-- The mode that the firmware may start a core in.
abbrev pub hyp_mode : ℕ
hyp_mode = 0x1a

abbrev pub stack_base_addr : ℕ
stack_base_addr = 0x10_0000

abbrev pub stack_size : ℕ
stack_size = 0x4_0000

abbrev pub mode_bits : Boot → ℕ
mode_bits s = s.cpsr % 32

-- `msr cpsr_c`: the lowest byte is written. In user mode it stays, and from HYP mode, which only an
-- exception return leaves, there is no defined result.
unfoldable pub write_control : ℕ → Boot → Option Boot
write_control c s =
    if mode_bits s == hyp_mode
    then none
    else if mode_bits s == psr_usr
    then some s
    else some (record s { cpsr = s.cpsr / 256 * 256 + c % 256 })

-- From HYP mode `eret` goes on with all of the status register.
unfoldable pub safe_svcmode_maskall : Boot → Option Boot
safe_svcmode_maskall s =
    let tested = bit_xor s.cpsr hyp_mode in
    let reg = bit_or (bit_and tested 0xffff_ffe0) 0xd3 in
    if bit_and tested 0x1f == 0
    then some (record s { cpsr = bit_or reg 0x100 })
    else write_control reg s

-- `mov sp`
abbrev pub set_sp : ℕ → Boot → Boot
set_sp v s = record s { sp = update s.sp (mode_bits s) v }

-- `n` words from `a` on, to registers and from them.
unfoldable pub ldmia : ℕ → ℕ → (ℕ → ℕ) → List ℕ
ldmia zero a mem = []
ldmia (suc n) a mem = mem a ∷ ldmia n (a + 4) mem

unfoldable pub stmia : List ℕ → ℕ → (ℕ → ℕ) → ℕ → ℕ
stmia [] a mem = mem
stmia (v ∷ vs) a mem = stmia vs (a + 4) (update mem a v)

unfoldable pub move_vectors : (ℕ → ℕ) → ℕ → ℕ
move_vectors mem =
    let first = stmia (ldmia 8 0x8000 mem) 0x0 mem in stmia (ldmia 8 0x8020 first) 0x20 first

-- The stacks of the modes, each of the size of a stack, from `base` up; the last ends a word before.
unfoldable pub set_stacks : ℕ → Boot → Option Boot
set_stacks base s = do
  s1 ← write_control (bit_or psr_fiq (bit_or psr_i psr_f)) s
  let fiq = u32 (base + stack_size)
  s2 ← write_control (bit_or psr_irq (bit_or psr_i psr_f)) (set_sp fiq s1)
  let irq = u32 (fiq + stack_size)
  s3 ← write_control (bit_or psr_abt (bit_or psr_i psr_f)) (set_sp irq s2)
  let abt = u32 (irq + stack_size)
  s4 ← write_control (bit_or psr_svc (bit_or psr_i psr_f)) (set_sp abt s3)
  let svc = sub32 (u32 (abt + stack_size)) 0x4
  some (set_sp svc s4)

unfoldable pub start_secondary : ℕ → Boot → Option Boot
start_secondary mpidr s = do
  s1 ← safe_svcmode_maskall s
  let r1 = bit_and mpidr 0x3
  set_stacks (u32 (stack_base_addr + u32 (r1 * stack_base_addr))) s1

unfoldable pub reset : ℕ → Boot → Option Boot
reset mpidr s = do
  s1 ← safe_svcmode_maskall s
  if bit_and mpidr 0x3 == 0
      then set_stacks stack_base_addr (record s1 { mem = move_vectors s1.mem })
      else start_secondary mpidr s1
