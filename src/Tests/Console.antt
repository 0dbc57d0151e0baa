-- ===== src/Tests/Console.antt =====
-- The console's theorems at a concrete machine.
use rpi2_baremetal.Common.{ℕ, ◌≡◌, refl, List, [], ◌∷◌, ◌++◌, length, arith}
use rpi2_baremetal.Machine.{hang}
use rpi2_baremetal.Uart.{codes, spin_req, uart_puts, hexstring, register_value_puts}
use rpi2_baremetal.Uart.Locks.{IsSecondary, secondary-hang}
use rpi2_baremetal.Uart.Prints.{Prints, wires, hexstring_text, register_text, console-Prints}
use rpi2_baremetal.Uart.Hex.{AllHexDigits, read_hex, hexstring-reads_back}
use rpi2_baremetal.Tests.{hw, machine, hw-Drains, core0-IsQuiet}

console-Prints_example :
    Prints (wires (codes "PM\n")) (uart_puts hw (codes "PM\n")) (machine 0 1)
    × Prints (wires (hexstring_text 0x2a)) (hexstring hw 0x2a) (machine 0 1)
    × Prints
        (wires (register_text (codes "PM\n") 0x2a))
        (register_value_puts hw (codes "PM\n") 0x2a)
        (machine 0 1)
console-Prints_example =
    console-Prints hw (machine 0 1) (codes "PM\n") 0x2a hw-Drains (core0-IsQuiet 1)

second-IsSecondary : IsSecondary (machine 2 1)
second-IsSecondary = record { other = λ e. omega (arith, e); on = refl }

secondary-hang_example :
    (spin_req hw 1 (machine 2 1) ≡ hang)
    × (uart_puts hw (codes "hello") (machine 2 1) ≡ hang)
    × (hexstring hw 7 (machine 2 1) ≡ hang)
    × (register_value_puts hw (codes "hello") 7 (machine 2 1) ≡ hang)
secondary-hang_example = secondary-hang hw (machine 2 1) 1 7 (codes "hello") second-IsSecondary

hexstring-reads_back_example :
    (text : List ℕ) × Prints (wires (text ++ 0x20 ∷ [])) (hexstring hw 0x1bad_cafe) (machine 0 1)
    × (length text ≡ 8)
    × AllHexDigits text
    × (read_hex 0 text ≡ 0x1bad_cafe)
hexstring-reads_back_example =
    hexstring-reads_back hw (machine 0 1) 0x1bad_cafe hw-Drains (core0-IsQuiet 1) (omega arith)
