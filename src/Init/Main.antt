-- ===== src/Init/Main.antt =====
-- main.c: what runs after the start of a core. `main` only waits; `other` waits for a variable that
-- nothing sets, and then prints without end, so that what stands behind its loops never runs.
use rpi2_baremetal.Common.{ℕ, zero, suc, ◌==◌, if◌then◌else◌}
use rpi2_baremetal.Machine.{Hw, M, hang, out_of_fuel, pure, ◌>>=◌, ◌>>◌, load, get_prid}
use rpi2_baremetal.Uart.{codes, uart_puts, register_value_puts}

abbrev pub initialized : ℕ
initialized = 1

unfoldable pub main : M ℕ
main m = hang

-- `init_status` is the address of `__init_status`.
module _ (hw : Hw) (init_status : ℕ) where
  unfoldable pub status_wait : ℕ → M (Unit {0})
  status_wait zero = λ _. out_of_fuel
  status_wait (suc rounds) = do
    status ← load init_status
    if status == initialized then pure tt else (do
      again ← load init_status
      register_value_puts hw (codes "init status: ") again
      status_wait rounds)

  unfoldable pub haha_loop : ℕ → M ℕ
  haha_loop zero = λ _. out_of_fuel
  haha_loop (suc rounds) = do
    uart_puts hw (codes "FooooooooooooooHAHAHAHAHAHAHA!!!!!!!!\n")
    haha_loop rounds

  unfoldable pub other : ℕ → M ℕ
  other rounds = do
    uart_puts hw (codes "other\n")
    _ ← get_prid
    status_wait rounds
    haha_loop rounds
