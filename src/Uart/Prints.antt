-- ===== src/Uart/Prints.antt =====
-- Total correctness of the printing functions of uart.c: with a transmitter that drains, each call
-- returns, writes its text to the UART and leaves the rest of the machine as it was.
use rpi2_baremetal.Common.{
  ℕ, zero, suc, ◌+◌, ◌*◌, ◌/◌, ◌%◌, ◌^◌, ◌<◌, ◌≡◌, refl, ◌≢◌, ◌⊎◌, inl, inr, true, false, ◌||◌,
  List, [], ◌∷◌, ◌++◌, append_assoc, append-nil, arith, ==_false, ◌==◌, if◌then◌else◌, Bool-cases,
  bit_and, ap, ◌∙◌,
}
use native.Mathlib.Nat.{add-zero}
use rpi2_baremetal.Machine.{
  Machine, Bus, Hw, M, done, pure, ◌>>=◌, ◌>>◌, io_read, io_write, uart_lock, then-done,
}
use rpi2_baremetal.Uart.Locks.{mmu_on, update-update, with_lock, spin_req-core0, spin_rel-core0}
use rpi2_baremetal.Uart.{
  mu_io, mu_lsr, mu_lsr_tx_empty, is_mmu_enabled, hex_char, wait_tx, uart_send, send_all, hex_loop,
  hex_body, spin_req_at, spin_rel_at, uart_puts_at, hexstring_at, register_value_puts_at, uart_puts,
  hexstring, register_value_puts,
}

-- From every state of the bus the transmitter reports empty within `polls` reads.
pub record Drains (hw : Hw) : Type 0 where
  pub drains :
      (b : Bus)
      → (d : ℕ) × (d < hw.polls)
        × (bit_and (hw.read (record b { ticks = b.ticks + d }) mu_lsr) mu_lsr_tx_empty ≢ 0)

abbrev pub with_bus : Machine → List (ℕ × ℕ) → ℕ → Machine
with_bus m ws t = record m { bus = record { writes = m.bus.writes ++ ws; ticks = t } }

abbrev with_tick : Machine → Machine
with_tick m = record m { bus = record (m.bus) { ticks = m.bus.ticks + 1 } }

-- The call returns, and all that it has changed is the bus: `ws` is written, some reads are made.
abbrev pub Prints : List (ℕ × ℕ) → M (Unit {0}) → Machine → Type 0
Prints ws c m = (t : ℕ) × (c m ≡ done tt (with_bus m ws t))

-- What `uart_send` writes for a byte, and for a text.
unfoldable pub wire : ℕ → List (ℕ × ℕ)
wire c =
    if c % 256 == 0x0a || c % 256 == 0x0d
    then (mu_io, 0x0a) ∷ (mu_io, 0x0d) ∷ []
    else (mu_io, c % 256) ∷ []

unfoldable pub wires : List ℕ → List (ℕ × ℕ)
wires [] = []
wires (c ∷ cs) = wire c ++ wires cs

pub wires-append : (xs ys : List ℕ) → wires (xs ++ ys) ≡ wires xs ++ wires ys
unfolding wires
wires-append [] ys = refl
wires-append (x ∷ xs) ys = rw (wires-append xs ys) (rw append_assoc)

pub Prints-pure : (m : Machine) → Prints [] (pure tt) m
Prints-pure m = (m.bus.ticks, rw append-nil)

pub Prints-seq :
    (a b : List (ℕ × ℕ)) (x y : M (Unit {0})) (m : Machine)
    → Prints a x m
    → ((t : ℕ) → Prints b y (with_bus m a t))
    → Prints (a ++ b) (x >> y) m
Prints-seq a b x y m (t, e) next =
    let (t', e') = next t in (t', rw (e, ◌>>◌, ◌>>=◌) (e' ∙ rw (append_assoc)))

Prints-io_write : (reg val : ℕ) (m : Machine) → Prints ((reg, val) ∷ []) (io_write reg val) m
unfolding io_write
Prints-io_write reg val m = (m.bus.ticks, refl)

module _ (hw : Hw) where
  wait_tx-Prints :
      (polls d : ℕ) (m : Machine)
      → d < polls
      → bit_and (hw.read (record (m.bus) { ticks = m.bus.ticks + d }) mu_lsr) mu_lsr_tx_empty ≢ 0
      → Prints [] (wait_tx hw polls) m
  unfolding wait_tx io_read
  wait_tx-Prints zero d m lt ready = absurd (omega arith)
  wait_tx-Prints (suc polls) zero m lt ready =
      let now : (bit_and (hw.read m.bus mu_lsr) mu_lsr_tx_empty == 0) ≡ false =
        ==_false _ 0 (rw (add-zero m.bus.ticks) at ready) in
      rw now (m.bus.ticks + 1, rw append-nil)
  wait_tx-Prints (suc polls) (suc d) m lt ready =
      elim (Bool-cases (bit_and (hw.read m.bus mu_lsr) mu_lsr_tx_empty == 0)) [
        | inl busy ↦ rw busy (wait_tx-Prints polls d (with_tick m) (omega arith) later)
        | inr idle ↦ rw idle (m.bus.ticks + 1, rw append-nil)
      ]
    where
      later :
          bit_and (hw.read (record (m.bus) { ticks = m.bus.ticks + 1 + d }) mu_lsr) mu_lsr_tx_empty
          ≢ 0
      later = let e : m.bus.ticks + 1 + d ≡ m.bus.ticks + suc d = omega arith in rw e ready

module _ {hw : Hw} (live : Drains hw) where
  wait-Prints : (m : Machine) → Prints [] (wait_tx hw hw.polls) m
  wait-Prints m = let (d, lt, ready) = live.drains m.bus in wait_tx-Prints hw hw.polls d m lt ready

  pub uart_send-Prints : (c : ℕ) (m : Machine) → Prints (wire c) (uart_send hw c) m
  unfolding uart_send wire
  uart_send-Prints c m = elim (Bool-cases (c % 256 == 0x0a || c % 256 == 0x0d)) [
    | inl newline ↦ rw newline (
        Prints-seq [] _ (wait_tx hw hw.polls) _ m (wait-Prints m) λ t.
          Prints-seq ((mu_io, 0x0a) ∷ []) _ (io_write mu_io 0x0a) _ _ (Prints-io_write mu_io 0x0a _)
            λ t'.
              Prints-seq [] _ (wait_tx hw hw.polls) _ _ (wait-Prints _)
                λ t''. Prints-io_write mu_io 0x0d _)
    | inr other ↦ rw other (
        Prints-seq [] _ (wait_tx hw hw.polls) _ m (wait-Prints m)
          λ t. Prints-io_write mu_io (c % 256) _)
  ]

  pub send_all-Prints : (s : List ℕ) (m : Machine) → Prints (wires s) (send_all hw s) m
  unfolding send_all wires
  send_all-Prints [] m = Prints-pure m
  send_all-Prints (c ∷ s) m =
      Prints-seq (wire c) (wires s) (uart_send hw c) (send_all hw s) m (uart_send-Prints c m)
        (λ t. send_all-Prints s (with_bus m (wire c) t))

-- The digits that `hex_loop` sends, and the whole text of `hexstring`.
unfoldable pub hex_text : ℕ → ℕ → List ℕ
hex_text zero d = []
hex_text (suc n) d = hex_char (bit_and (d / 2 ^ (4 * n)) 0xf) ∷ hex_text n d

abbrev pub hexstring_text : ℕ → List ℕ
hexstring_text d = hex_text 8 d ++ 0x20 ∷ []

abbrev pub register_text : List ℕ → ℕ → List ℕ
register_text s d = s ++ (hexstring_text d ++ 0x0a ∷ [])

-- The console can be used: nobody has `uart_lock`, and the core is core 0 or its MMU is off.
pub record IsQuiet (m : Machine) : Type 0 where
  pub free : m.lock uart_lock ≡ 0
  pub calm : (m.cpu ≡ 0) ⊎ (mmu_on m ≡ false)

core0 : (m : Machine) → IsQuiet m → mmu_on m ≡ true → m.cpu ≡ 0
core0 m quiet on = ground (arith, quiet.calm)

module _ {hw : Hw} (live : Drains hw) where
  hex_loop-Prints : (n d : ℕ) (m : Machine) → Prints (wires (hex_text n d)) (hex_loop hw n d) m
  unfolding hex_loop hex_text wires
  hex_loop-Prints zero d m = Prints-pure m
  hex_loop-Prints (suc n) d m =
      Prints-seq _ _ (uart_send hw _) (hex_loop hw n d) m (uart_send-Prints live _ m)
        (λ t. hex_loop-Prints n d _)

  hex_body-Prints : (d : ℕ) (m : Machine) → Prints (wires (hexstring_text d)) (hex_body hw d) m
  hex_body-Prints d m =
      rw (wires-append (hex_text 8 d) (0x20 ∷ []), wires_one)
        (unfold hex_body in
          Prints-seq _ _ (hex_loop hw 8 d) (uart_send hw 0x20) m (hex_loop-Prints 8 d m)
            (λ t. uart_send-Prints live 0x20 _))
    where
      wires_one : wires (0x20 ∷ []) ≡ wire 0x20
      wires_one = unfold wires in append-nil (wire 0x20)

  -- On core 0 a text is printed under the lock, which is free again after it.
  locked-Prints :
      (depth : ℕ) (ws : List (ℕ × ℕ)) (c : M (Unit {0})) (m : Machine)
      → m.cpu ≡ 0
      → m.lock uart_lock ≡ 0
      → ((m' : Machine) → Prints ws c m')
      → Prints ws
          (spin_req_at hw (suc depth) uart_lock >> (c >> spin_rel_at hw (suc depth) uart_lock))
          m
  locked-Prints depth ws c m cpu0 free prints =
      let (t, e) = prints (with_lock m uart_lock 1) in
      (
        t,
        then-done (spin_req_at hw (suc depth) uart_lock) _ m
              (spin_req-core0 hw depth uart_lock m cpu0 free)
            ∙ (then-done c (spin_rel_at hw (suc depth) uart_lock) (with_lock m uart_lock 1) e
                ∙ (spin_rel-core0 hw depth uart_lock (with_bus (with_lock m uart_lock 1) ws t) cpu0
                      refl
                    ∙ ap (λ f. done tt (record (with_bus m ws t) { lock = f }))
                        (update-update m.lock uart_lock free))),
      )

  module _ (depth : ℕ) (m : Machine) (quiet : IsQuiet m) where
    puts-Prints : (s : List ℕ) → Prints (wires s) (uart_puts_at hw (suc (suc depth)) s) m
    unfolding uart_puts_at is_mmu_enabled
    puts-Prints s = elim (Bool-cases (mmu_on m)) [
      | inl on ↦ rw on (
          locked-Prints depth (wires s) (send_all hw s) m (core0 m quiet on) quiet.free
            (send_all-Prints live s))
      | inr off ↦ rw off (send_all-Prints live s m)
    ]

    hex-Prints : (d : ℕ) → Prints (wires (hexstring_text d)) (hexstring_at hw (suc (suc depth)) d) m
    unfolding hexstring_at is_mmu_enabled
    hex-Prints d = elim (Bool-cases (mmu_on m)) [
      | inl on ↦ rw on (
          locked-Prints depth (wires (hexstring_text d)) (hex_body hw d) m (core0 m quiet on)
            quiet.free (hex_body-Prints d))
      | inr off ↦ rw off (hex_body-Prints d m)
    ]

  pub value-Prints :
      (depth : ℕ) (m : Machine)
      → IsQuiet m
      → (s : List ℕ) (d : ℕ)
      → Prints (wires (register_text s d)) (register_value_puts_at hw (suc (suc (suc depth))) s d) m
  unfolding register_value_puts_at
  value-Prints depth m quiet s d =
      rw
        (
          wires-append s (hexstring_text d ++ 0x0a ∷ []),
          wires-append (hexstring_text d) (0x0a ∷ []),
          wires_newline,
        )
        (Prints-seq _ _ (uart_puts_at hw (suc (suc depth)) s) _ m (puts-Prints depth m quiet s) λ t.
          Prints-seq _ _ (hexstring_at hw (suc (suc depth)) d) _ (with_bus m (wires s) t)
            (hex-Prints depth _ (record { free = quiet.free; calm = quiet.calm }) d)
            λ t'. uart_send-Prints live 0x0a _)
    where
      wires_newline : wires (0x0a ∷ []) ≡ wire 0x0a
      wires_newline = unfold wires in append-nil (wire 0x0a)

-- On core 0, or before the MMU is on, with `uart_lock` free and a transmitter that drains:
-- `uart_puts`, `hexstring` and `register_value_puts` return, the UART gets exactly the text, with
-- each newline sent as a newline and a carriage return, and nothing else of the machine changes.
pub console-Prints :
    (hw : Hw) (m : Machine) (s : List ℕ) (d : ℕ)
    → Drains hw
    → IsQuiet m
    → Prints (wires s) (uart_puts hw s) m
      × Prints (wires (hexstring_text d)) (hexstring hw d) m
      × Prints (wires (register_text s d)) (register_value_puts hw s d) m
unfolding uart_puts hexstring register_value_puts
console-Prints hw m s d live quiet =
    (puts-Prints live 6 m quiet s, hex-Prints live 6 m quiet d, value-Prints live 5 m quiet s d)
