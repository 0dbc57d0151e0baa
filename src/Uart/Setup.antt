-- ===== src/Uart/Setup.antt =====
-- The rest of uart.c: how the UART and the timer are set up, and the reads of their registers. The
-- waits that call `dummy`, an empty function, leave nothing to model.
use rpi2_baremetal.Common.{
  ℕ, zero, suc, ◌+◌, ◌-◌, ◌*◌, ◌/◌, ◌%◌, ◌^◌, ◌<◌, ◌≡◌, refl, ap, ◌∙◌, List, [], ◌∷◌, ◌++◌,
  append_assoc, arith, bit_and, bit_or, set_field, ◌==◌, if◌then◌else◌,
}
use rpi2_baremetal.Machine.{
  Machine, Hw, M, done, out_of_fuel, pure, ◌>>=◌, ◌>>◌, update, uart_lock, io_read, io_write,
}
use rpi2_baremetal.Uart.{mu_io, mu_lsr, mu_lsr_rx_ready}

abbrev pub aux_enables : ℕ
aux_enables = 0x3f21_5004

abbrev pub mu_ier : ℕ
mu_ier = 0x3f21_5044

abbrev pub mu_iir : ℕ
mu_iir = 0x3f21_5048

abbrev pub mu_lcr : ℕ
mu_lcr = 0x3f21_504c

abbrev pub mu_mcr : ℕ
mu_mcr = 0x3f21_5050

abbrev pub mu_cntl : ℕ
mu_cntl = 0x3f21_5060

abbrev pub mu_baud : ℕ
mu_baud = 0x3f21_5068

abbrev pub gpio_sel1 : ℕ
gpio_sel1 = 0x3f20_0004

abbrev pub gpio_gppud : ℕ
gpio_gppud = 0x3f20_0094

abbrev pub gpio_gppudclk0 : ℕ
gpio_gppudclk0 = 0x3f20_0098

abbrev pub arm_timer_ctl : ℕ
arm_timer_ctl = 0x3f00_b408

abbrev pub arm_timer_cnt : ℕ
arm_timer_cnt = 0x3f00_b420

abbrev pub mu_io_rx_data : ℕ
mu_io_rx_data = 0xff

-- `~a` of a 32-bit word.
abbrev pub complement : ℕ → ℕ
complement a = 0xffff_ffff - a

-- The four lines that give the pins 14 and 15 their alternate function 5.
unfoldable pub select_pins : ℕ → ℕ
select_pins ra =
    let ra1 = bit_and ra (complement (7 * 2 ^ 12)) in
    let ra2 = bit_or ra1 (2 * 2 ^ 12) in
    let ra3 = bit_and ra2 (complement (7 * 2 ^ 15)) in bit_or ra3 (2 * 2 ^ 15)

-- `uart_lock = 0`
unfoldable pub clear_uart_lock : M (Unit {0})
clear_uart_lock m = done tt (record m { lock = update m.lock uart_lock 0 })

module _ (hw : Hw) where
  unfoldable pub uart_lcr : M ℕ
  uart_lcr = io_read hw mu_lsr

  -- `while(1) { if (IO_READ(MU_LSR) & MU_LSR_RX_READY) break; }`
  unfoldable pub recv_wait : ℕ → M (Unit {0})
  recv_wait zero = λ _. out_of_fuel
  recv_wait (suc polls) = do
    v ← io_read hw mu_lsr
    if bit_and v mu_lsr_rx_ready == 0 then recv_wait polls else pure tt

  unfoldable pub uart_recv : M ℕ
  uart_recv = do recv_wait hw.polls; v ← io_read hw mu_io; pure (bit_and v mu_io_rx_data)

  unfoldable pub uart_check : M ℕ
  uart_check = do v ← io_read hw mu_lsr; if bit_and v mu_lsr_rx_ready == 0 then pure 0 else pure 1

  -- `while(1) { if ((IO_READ(MU_LSR) & 0x100) == 0) break; }`
  unfoldable pub flush_wait : ℕ → M (Unit {0})
  flush_wait zero = λ _. out_of_fuel
  flush_wait (suc polls) = do
    v ← io_read hw mu_lsr
    if bit_and v 0x100 == 0 then pure tt else flush_wait polls

  unfoldable pub uart_flush : M (Unit {0})
  uart_flush = flush_wait hw.polls

  unfoldable pub mini_uart_init : M (Unit {0})
  mini_uart_init = do
    io_write aux_enables 0x01
    io_write mu_ier 0x00
    io_write mu_cntl 0x00
    io_write mu_lcr 0x03
    io_write mu_mcr 0x00
    io_write mu_ier 0x05
    io_write mu_iir 0xc6
    io_write mu_baud 270
    ra ← io_read hw gpio_sel1
    io_write gpio_sel1 (select_pins ra)
    io_write gpio_gppud 0
    let ac = bit_or (2 ^ 14) (2 ^ 15)
    io_write gpio_gppudclk0 ac
    io_write gpio_gppudclk0 0
    io_write mu_cntl 0x3
    clear_uart_lock

  unfoldable pub timer_tick : M ℕ
  timer_tick = io_read hw arm_timer_cnt

unfoldable pub timer_init : M (Unit {0})
timer_init = do io_write arm_timer_ctl 0x00f9_0000; io_write arm_timer_ctl 0x00f9_0200

first_pin :
    (v : ℕ)
    → v < 2 ^ 32
    → bit_or (bit_and v (complement (7 * 2 ^ 12))) (2 * 2 ^ 12)
      ≡ (v / 2 ^ 12 / 8 * 8 + 2) * 2 ^ 12 + v % 2 ^ 12
first_pin v word =
    ap (λ (t : ℕ). bit_or (bit_and t 0xffff_8fff) 0x2000) (omega arith)
    ∙ set_field 12 17 (v / 2 ^ 12) (v % 2 ^ 12) 2 (omega arith) (omega arith) (omega arith)

second_pin :
    (v : ℕ)
    → v < 2 ^ 32
    → bit_or (bit_and v (complement (7 * 2 ^ 15))) (2 * 2 ^ 15)
      ≡ (v / 2 ^ 15 / 8 * 8 + 2) * 2 ^ 15 + v % 2 ^ 15
second_pin v word =
    ap (λ (t : ℕ). bit_or (bit_and t 0xfffc_7fff) 0x1_0000) (omega arith)
    ∙ set_field 15 14 (v / 2 ^ 15) (v % 2 ^ 15) 2 (omega arith) (omega arith) (omega arith)

select_pins-fields :
    (v : ℕ)
    → v < 2 ^ 32
    → select_pins v ≡ v / 2 ^ 18 * 2 ^ 18 + 2 * 2 ^ 15 + 2 * 2 ^ 12 + v % 2 ^ 12
unfolding select_pins
select_pins-fields v word =
    ap (λ (t : ℕ). bit_or (bit_and t (complement (7 * 2 ^ 15))) (2 * 2 ^ 15)) (first_pin v word)
    ∙ (second_pin ((v / 2 ^ 12 / 8 * 8 + 2) * 2 ^ 12 + v % 2 ^ 12) (omega arith) ∙ omega arith)

-- The writes before the pins are selected, and those from there on, when the register of the pins'
-- functions held `v`.
abbrev pub line_writes : List (ℕ × ℕ)
line_writes =
    (aux_enables, 1)
    ∷ (mu_ier, 0)
    ∷ (mu_cntl, 0)
    ∷ (mu_lcr, 3)
    ∷ (mu_mcr, 0)
    ∷ (mu_ier, 5)
    ∷ (mu_iir, 0xc6)
    ∷ (mu_baud, 270)
    ∷ []

abbrev pub pin_writes : ℕ → List (ℕ × ℕ)
pin_writes v =
    (gpio_sel1, v / 2 ^ 18 * 2 ^ 18 + 2 * 2 ^ 15 + 2 * 2 ^ 12 + v % 2 ^ 12)
    ∷ (gpio_gppud, 0)
    ∷ (gpio_gppudclk0, 2 ^ 14 + 2 ^ 15)
    ∷ (gpio_gppudclk0, 0)
    ∷ (mu_cntl, 3)
    ∷ []

-- The register of the pins' functions holds a 32-bit word when it is read: `mini_uart_init` writes
-- the registers of the UART, gives the pins 14 and 15 their alternate function 5 with the functions
-- of the other eight pins as they were, asserts the clock of those two pins, turns the receiver and
-- the transmitter on last, and leaves `uart_lock` free, whoever held it.
pub mini_uart_init-pins :
    (hw : Hw) (m : Machine) {v : ℕ}
    → hw.read (record { writes = m.bus.writes ++ line_writes; ticks = m.bus.ticks }) gpio_sel1 ≡ v
    → v < 2 ^ 32
    → mini_uart_init hw m
      ≡ done tt (record m {
        bus = record {
          writes = m.bus.writes ++ line_writes ++ pin_writes v;
          ticks = m.bus.ticks + 1;
        };
        lock = update m.lock uart_lock 0;
      })
unfolding mini_uart_init io_read io_write clear_uart_lock
mini_uart_init-pins hw m {v} held word =
    simp append_assoc (rw (held, select_pins-fields v word) refl)
