-- ===== src/Interrupt/Svc.antt =====
-- `_svc_handler` of boot.s, and `get_prid` of cpu.c, which goes through it.
use rpi2_baremetal.Common.{ℕ, zero, suc, ◌%◌, ◌^◌, ◌<◌, ◌≡◌, refl, ap, ◌∙◌, arith, bit_and}
use rpi2_baremetal.Machine.{Machine, Hw, M, done, pure, ◌>>=◌, get_prid, bind-done, then-done}
use rpi2_baremetal.Uart.{codes, register_value_puts}
use rpi2_baremetal.Uart.Prints.{Drains, IsQuiet}
use rpi2_baremetal.Uart.Gives.{on_bus, Gives, value-Gives}
use rpi2_baremetal.Sysinfo.Asid.Grant.{on_bus-IsQuiet}
use rpi2_baremetal.Interrupt.Vectors.{software_interrupt_handler}

-- The word of `svc #10`.
abbrev pub svc_10 : ℕ
svc_10 = 0xef00_000a

module _ (hw : Hw) (stack : ℕ) where
  -- The handler is given the number in the instruction, its low 24 bits.
  unfoldable pub svc_handler : ℕ → M ℕ
  svc_handler instruction = software_interrupt_handler hw stack (instruction % 2 ^ 24)

  unfoldable pub svc_get_prid : M ℕ
  svc_get_prid = do r0 ← svc_handler svc_10; pure (bit_and r0 0x3)

low_bits : (c : ℕ) → c < 4 → bit_and c 0x3 ≡ c
low_bits zero lt = refl
low_bits (suc zero) lt = refl
low_bits (suc (suc zero)) lt = refl
low_bits (suc (suc (suc zero))) lt = refl
low_bits (suc (suc (suc (suc c)))) lt = absurd (omega arith)

-- By the supervisor call a core gets its own number, and three lines on the console.
pub svc_get_prid-Gives :
    (hw : Hw) (stack : ℕ) (m : Machine)
    → Drains hw
    → IsQuiet m
    → m.cpu < 4
    → Gives m.cpu m (svc_get_prid hw stack m)
unfolding svc_get_prid svc_handler software_interrupt_handler get_prid
svc_get_prid-Gives hw stack m live quiet lt =
    let (b, e) = value-Gives live m quiet (codes "SWI: ") 10 in
    let (b', e') =
      value-Gives live (on_bus m b) (on_bus-IsQuiet m b quiet) (codes "SWI CORE: ") m.cpu in
    let (b'', e'') =
      value-Gives live (on_bus m b') (on_bus-IsQuiet m b' quiet) (codes "StackPointer: ") stack in
    (
      b'',
      bind-done (software_interrupt_handler hw stack 10) _ m (
            then-done (register_value_puts hw (codes "SWI: ") 10) _ m e
            ∙ (then-done (register_value_puts hw (codes "SWI CORE: ") m.cpu) _ (on_bus m b) e'
                ∙ then-done (register_value_puts hw (codes "StackPointer: ") stack) _ (on_bus m b')
                    e''))
          ∙ ap (λ (c : ℕ). done c (on_bus m b'')) (low_bits m.cpu lt),
    )
