-- ===== src/Uart.antt =====
-- uart.c, and the spin locks of cpu.c that it is tangled with: printing takes `uart_lock`, and
-- taking or giving back a lock prints on every core but core 0.
-- `_spin_req` and `_spin_rel` are those of boot.s, as this core sees them when no other core
-- writes the lock word: a wait on a word that this core would have to write itself never ends.
pub mod Gives
pub mod Hex
pub mod Locks
pub mod Prints
pub mod Setup
use Prim.Native.Char.{code}
use Prim.Native.String.{String}
use rpi2_baremetal.Common.{
  ℕ, zero, suc, ◌+◌, ◌*◌, ◌/◌, ◌%◌, ◌^◌, bit_and, Bool, not, ◌||◌, List, [], ◌∷◌, ltb, ◌==◌,
  if◌then◌else◌,
}
use rpi2_baremetal.Machine.{
  Machine, Hw, M, hang, out_of_fuel, done, pure, ◌>>=◌, ◌>>◌, update, uart_lock, io_read, io_write,
  get_prid,
}

-- The codes of a C string literal.
abbrev pub codes : String → List ℕ
codes String.[] = []
codes (String.◌∷◌ c s) = code c ∷ codes s

abbrev pub mu_io : ℕ
mu_io = 0x3f21_5040

abbrev pub mu_lsr : ℕ
mu_lsr = 0x3f21_5054

abbrev pub mu_lsr_rx_ready : ℕ
mu_lsr_rx_ready = 2 ^ 0

abbrev pub mu_lsr_tx_empty : ℕ
mu_lsr_tx_empty = 2 ^ 5

-- `is_mmu_enabled()`
unfoldable pub is_mmu_enabled : M Bool
is_mmu_enabled m = done (not (bit_and m.cp15.sctlr 1 == 0)) m

-- `_spin_req`: loops until the word is 0, then sets it to 1.
unfoldable pub raw_spin_req : ℕ → M (Unit {0})
raw_spin_req l m = if m.lock l == 0 then done tt (record m { lock = update m.lock l 1 }) else hang

-- `_spin_rel`: loops until the word is 1, then sets it to 0.
unfoldable pub raw_spin_rel : ℕ → M (Unit {0})
raw_spin_rel l m = if m.lock l == 1 then done tt (record m { lock = update m.lock l 0 }) else hang

-- The character of a hexadecimal digit.
unfoldable pub hex_char : ℕ → ℕ
hex_char rc = if ltb 9 rc then rc + 0x37 else rc + 0x30

module _ (hw : Hw) where
  -- `while (1) { if (IO_READ(MU_LSR) & MU_LSR_TX_EMPTY) break; }`
  unfoldable pub wait_tx : ℕ → M (Unit {0})
  wait_tx zero = λ _. out_of_fuel
  wait_tx (suc polls) =
      io_read hw mu_lsr >>= λ v. if bit_and v mu_lsr_tx_empty == 0 then wait_tx polls else pure tt

  -- A newline and a carriage return both go out as the two of them.
  unfoldable pub uart_send : ℕ → M (Unit {0})
  uart_send c = do
    wait_tx hw.polls
    if c % 256 == 0x0a || c % 256 == 0x0d
        then (do io_write mu_io 0x0a; wait_tx hw.polls; io_write mu_io 0x0d)
        else io_write mu_io (c % 256)

  -- `while (*c != '\0') { uart_send(*c); c++; }`
  unfoldable pub send_all : List ℕ → M (Unit {0})
  send_all [] = pure tt
  send_all (c ∷ cs) = do uart_send c; send_all cs

  -- The loop of `hexstring`, from the digit below bit `4 * n`.
  unfoldable pub hex_loop : ℕ → ℕ → M (Unit {0})
  hex_loop zero d = pure tt
  hex_loop (suc n) d = do uart_send (hex_char (bit_and (d / 2 ^ (4 * n)) 0xf)); hex_loop n d

  -- The body of `hexstring`, with or without the lock around it.
  unfoldable pub hex_body : ℕ → M (Unit {0})
  unfolding hex_loop
  hex_body d = do hex_loop 8 d; uart_send 0x20

  -- `depth` bounds how deep printing and locking call each other.
  unfoldable mutual
    pub spin_req_at : ℕ → ℕ → M (Unit {0})
    spin_req_at zero l = λ _. out_of_fuel
    spin_req_at (suc depth) l = do
      raw_spin_req l
      prid ← get_prid
      if prid == 0 then pure tt else register_value_puts_at depth (codes "get lock from: ") prid

    pub spin_rel_at : ℕ → ℕ → M (Unit {0})
    spin_rel_at zero l = λ _. out_of_fuel
    spin_rel_at (suc depth) l = do
      raw_spin_rel l
      prid ← get_prid
      if prid == 0 then pure tt else register_value_puts_at depth (codes "release lock from: ") prid

    pub uart_puts_at : ℕ → List ℕ → M (Unit {0})
    uart_puts_at zero s = λ _. out_of_fuel
    uart_puts_at (suc depth) s = do
      on ← is_mmu_enabled
      if on
          then (do spin_req_at depth uart_lock; send_all s; spin_rel_at depth uart_lock)
          else send_all s

    pub hexstring_at : ℕ → ℕ → M (Unit {0})
    hexstring_at zero d = λ _. out_of_fuel
    hexstring_at (suc depth) d = do
      on ← is_mmu_enabled
      if on
          then (do spin_req_at depth uart_lock; hex_body d; spin_rel_at depth uart_lock)
          else hex_body d

    pub register_value_puts_at : ℕ → List ℕ → ℕ → M (Unit {0})
    register_value_puts_at zero s d = λ _. out_of_fuel
    register_value_puts_at (suc depth) s d = do
      uart_puts_at depth s
      hexstring_at depth d
      uart_send 0x0a

-- Enough for every call: the chain lock, print, lock, print is cut after two locks at most.
abbrev pub depth : ℕ
depth = 8

module _ (hw : Hw) where
  unfoldable pub spin_req : ℕ → M (Unit {0})
  spin_req l = spin_req_at hw depth l

  unfoldable pub spin_rel : ℕ → M (Unit {0})
  spin_rel l = spin_rel_at hw depth l

  unfoldable pub uart_puts : List ℕ → M (Unit {0})
  uart_puts s = uart_puts_at hw depth s

  unfoldable pub hexstring : ℕ → M (Unit {0})
  hexstring d = hexstring_at hw depth d

  unfoldable pub register_value_puts : List ℕ → ℕ → M (Unit {0})
  register_value_puts s d = register_value_puts_at hw depth s d
