-- ===== src/Interrupt/Scan.antt =====
-- `_interrupt_handler` against a reference: the 72 lines in ascending order.
use rpi2_baremetal.Common.{
  ℕ, zero, suc, ◌+◌, ◌*◌, ◌/◌, ◌%◌, ◌^◌, ◌<◌, ◌≤◌, ◌≡◌, refl, sym, ap, ◌∙◌, Bool, true, false, not,
  inl, inr, arith, bit_and, bit_and_mask, ◌==◌, if◌then◌else◌, Bool-cases,
}
use native.Mathlib.Nat.{pow-suc, div-div-eq-div-mul}
use rpi2_baremetal.Machine.{
  Machine, Hw, M, done, pure, ◌>>=◌, io_read, bind-done, bind-same, bind-bind, bind-start,
}
use rpi2_baremetal.Interrupt.{
  irq_pend1, irq_pend2, irq_basic_pend, call_irq_handler, scan_bits, scan_register, scan_pending,
  interrupt_handler,
}
use rpi2_baremetal.Multicore.{local_int_handler}

-- The reference: of the `n` lines from `line`, in this order, those whose bit is set in `word` are
-- served, up to the first that has a handler.
unfoldable pub serve : (ℕ → M Bool) → ℕ → ℕ → ℕ → M Bool
serve call word zero line = pure false
serve call word (suc n) line = do
  hit ← (if word / 2 ^ line % 2 == 1 then call line else pure false)
  if hit then pure true else serve call word n (line + 1)

-- After a line: stop if it had a handler, else go on.
unless_hit :
    (rest rest' : M Bool)
    → ((m : Machine) → rest m ≡ rest' m)
    → (hit : Bool) (m : Machine)
    → (if hit then pure true else rest) m ≡ (if hit then pure true else rest') m
unless_hit rest rest' same true m = refl
unless_hit rest rest' same false m = same m

unless_hit-bind :
    (first second whole : M Bool)
    → ((m : Machine) → whole m ≡ (first >>= λ hit. if hit then pure true else second) m)
    → (hit : Bool) (m : Machine)
    → (if hit then pure true else whole) m
      ≡ ((if hit then pure true else first) >>= λ hit. if hit then pure true else second) m
unless_hit-bind first second whole same true m = refl
unless_hit-bind first second whole same false m = same m

double : (n q : ℕ) → q * 2 ^ suc n ≡ 2 * (q * 2 ^ n)
double n q = omega (arith, ap (λ (t : ℕ). q * t) (pow-suc 2 n))

module _ (call : ℕ → M Bool) (word : ℕ) where
  pub next_line : (line : ℕ) → word / 2 ^ (line + 1) ≡ word / 2 ^ line / 2
  next_line line =
      ap (λ (t : ℕ). word / t) (ap (λ (e : ℕ). 2 ^ e) (omega arith) ∙ pow-suc 2 line)
      ∙ sym (div-div-eq-div-mul word (2 ^ line) 2)

  serve-none :
      (n line q : ℕ) (m : Machine)
      → word / 2 ^ line ≡ q * 2 ^ n
      → serve call word n line m ≡ done false m
  unfolding serve
  serve-none zero line q m e = refl
  serve-none (suc n) line q m e =
      let even : (word / 2 ^ line % 2 == 1) ≡ false = ground (arith, e, double n q) in
      rw even (serve-none n (line + 1) q m (omega (arith, next_line line, e, double n q)))

  serve-append :
      (a b line : ℕ) (m : Machine)
      → serve call word (a + b) line m
        ≡ (serve call word a line >>= λ hit.
              if hit then pure true else serve call word b (line + a))
            m
  unfolding serve
  serve-append zero b line m =
      let z : 0 + b ≡ b = omega arith in let l : line + 0 ≡ line = omega arith in rw (z, l) refl
  serve-append (suc a) b line m =
      let s : suc a + b ≡ suc (a + b) = omega arith in
      let l : line + suc a ≡ line + 1 + a = omega arith in
      rw (s, l)
        (bind-same (if word / 2 ^ line % 2 == 1 then call line else pure false) _ _ m
            (unless_hit-bind _ _ _ (serve-append a b (line + 1)))
          ∙ sym (bind-bind (if word / 2 ^ line % 2 == 1 then call line else pure false) _ _ m))

bit_test : (p : ℕ) → (bit_and p 1 == 0) ≡ not (p % 2 == 1)
bit_test p = ground (arith, bit_and_mask 1 p)

if-not : {A : Type 0} (b : Bool) (x y : A) → (if not b then x else y) ≡ (if b then y else x)
if-not true x y = refl
if-not false x y = refl

more_bits : (n p : ℕ) → p < 2 ^ suc n → 0 < p / 2 → 0 < n
more_bits zero p fits h = absurd (omega arith)
more_bits (suc n) p fits h = omega arith

module _ (hw : Hw) (handlers : ℕ) (word : ℕ) where
  abbrev call : ℕ → M Bool
  call n_irq = call_irq_handler hw handlers n_irq

  -- The bits of a register with bit 0 at `line`, the highest set bit below `n`.
  scan_bits-serve :
      (fuel n p q line : ℕ) (m : Machine)
      → word / 2 ^ line ≡ p + q * 2 ^ n
      → p < 2 ^ n
      → n ≤ fuel
      → 0 < n
      → scan_bits hw handlers fuel p line m ≡ serve call word n line m
  unfolding serve scan_bits
  scan_bits-serve zero n p q line m e fits le pos = absurd (omega arith)
  scan_bits-serve (suc fuel) zero p q line m e fits le pos = absurd (omega arith)
  scan_bits-serve (suc fuel) (suc n) p q line m e fits le pos =
      let low : word / 2 ^ line % 2 ≡ p % 2 = omega (arith, e, double n q) in
      rw (bit_test p, if-not (p % 2 == 1) (pure false) (call line), low)
        (bind-same (if p % 2 == 1 then call line else pure false) _ _ m (
          unless_hit _ _ λ m'. elim (Bool-cases (p / 2 == 0)) [
            | inl last ↦ rw last (
                sym (
                  serve-none call word n (line + 1) q m'
                    (ground (arith, next_line call word line, e, double n q))))
            | inr more ↦ rw more (
                scan_bits-serve fuel n (p / 2) q (line + 1) m'
                  (omega (arith, next_line call word line, e, double n q))
                  (omega (arith, fits, pow-suc 2 n)) (omega arith)
                  (more_bits n p fits (ground arith)))
          ]))

  scan_register-serve :
      (k n p q : ℕ) (m : Machine)
      → word / 2 ^ (k * 32) ≡ p + q * 2 ^ n
      → p < 2 ^ n
      → n ≤ 32
      → 0 < n
      → scan_register hw handlers k p m ≡ serve call word n (k * 32) m
  unfolding scan_register
  scan_register-serve k n p q m e fits le pos = elim (Bool-cases (p == 0)) [
    | inl none_pending ↦ rw none_pending (sym (serve-none call word n (k * 32) q m (ground arith)))
    | inr some_pending ↦ rw some_pending (scan_bits-serve 32 n p q (k * 32) m e fits le pos)
  ]

  -- A register, and what follows it if none of its lines has a handler.
  register_step :
      (k n n' p q : ℕ) (rest : M (Unit {0})) (m : Machine)
      → word / 2 ^ (k * 32) ≡ p + q * 2 ^ n
      → p < 2 ^ n
      → n ≤ 32
      → 0 < n
      → ((m' : Machine) → rest m' ≡ (serve call word n' (k * 32 + n) >>= λ _. pure tt) m')
      → (scan_register hw handlers k p >>= λ hit. if hit then pure tt else rest) m
        ≡ (serve call word (n + n') (k * 32) >>= λ _. pure tt) m
  register_step k n n' p q rest m e fits le pos same =
      bind-start (scan_register hw handlers k p) (serve call word n (k * 32)) _ m
        (scan_register-serve k n p q m e fits le pos)
      ∙ (bind-same (serve call word n (k * 32)) _ _ m (λ hit m'. each hit m')
          ∙ (sym (bind-bind (serve call word n (k * 32)) _ (λ _. pure tt) m)
              ∙ sym (
                  bind-start (serve call word (n + n') (k * 32))
                    (serve call word n (k * 32) >>= λ hit.
                      if hit then pure true else serve call word n' (k * 32 + n))
                    (λ _. pure tt) m (serve-append call word n n' (k * 32) m))))
    where
      each :
          (hit : Bool) (m' : Machine)
          → (if hit then pure tt else rest) m'
            ≡ ((if hit then pure true else serve call word n' (k * 32 + n)) >>= λ _. pure tt) m'
      each true m' = refl
      each false m' = same m'

three_words :
    (hw : Hw) (handlers p0 p1 p2 : ℕ) (m : Machine)
    → p0 < 2 ^ 32
    → p1 < 2 ^ 32
    → p2 < 2 ^ 8
    → (scan_register hw handlers 0 p0 >>= λ hit0.
          if hit0
          then pure tt
          else (scan_register hw handlers 1 p1 >>= λ hit1.
              if hit1 then pure tt else (scan_register hw handlers 2 p2 >>= λ _. pure tt)))
        m
      ≡ (serve (λ n_irq. call_irq_handler hw handlers n_irq) (p0 + p1 * 2 ^ 32 + p2 * 2 ^ 64) 72 0
            >>= λ _. pure tt)
          m
three_words hw handlers p0 p1 p2 m f0 f1 f2 =
    let word = p0 + p1 * 2 ^ 32 + p2 * 2 ^ 64 in
    register_step hw handlers word 0 32 40 p0 (p1 + p2 * 2 ^ 32) _ m (omega arith) f0 (omega arith)
      (omega arith)
      λ m'.
        register_step hw handlers word 1 32 8 p1 p2 _ m' (omega arith) f1 (omega arith)
          (omega arith)
          λ m''.
            bind-start (scan_register hw handlers 2 p2)
              (serve (λ n_irq. call_irq_handler hw handlers n_irq) word 8 64) _ m''
              (scan_register-serve hw handlers word 2 8 p2 0 m'' (omega arith) f2 (omega arith)
                (omega arith))

-- The bus after `n` reads.
abbrev pub read_on : Machine → ℕ → Machine
read_on m n = record m { bus = record (m.bus) { ticks = m.bus.ticks + n } }

-- The three pending words that the devices give from a machine on, as one word of 72 bits.
unfoldable pub pending_word : Hw → Machine → ℕ
pending_word hw m =
    hw.read m.bus irq_pend1
    + hw.read (read_on m 1).bus irq_pend2 * 2 ^ 32
    + hw.read (read_on (read_on m 1) 1).bus irq_basic_pend % 2 ^ 8 * 2 ^ 64

scan_pending-serve :
    (hw : Hw) (handlers : ℕ) (m : Machine)
    → hw.read m.bus irq_pend1 < 2 ^ 32
    → hw.read (read_on m 1).bus irq_pend2 < 2 ^ 32
    → scan_pending hw handlers m
      ≡ (serve (λ n_irq. call_irq_handler hw handlers n_irq) (pending_word hw m) 72 0 >>= λ _.
            pure tt)
          (read_on (read_on (read_on m 1) 1) 1)
unfolding scan_pending pending_word io_read
scan_pending-serve hw handlers m fits0 fits1 =
    let basic = hw.read (read_on (read_on m 1) 1).bus irq_basic_pend in
    rw (bit_and_mask 8 basic) (
      three_words hw handlers _ _ (basic % 2 ^ 8) (read_on (read_on (read_on m 1) 1) 1) fits0 fits1
        (omega arith))

-- When `local_int_handler` returns, and the pending registers give 32-bit words after it: if it
-- has taken a request, `_interrupt_handler` does nothing more; if it has taken none, the scan of
-- the three registers serves the 72 lines in ascending order, each pending line up to the first
-- that has a handler, and no other line, whatever a call for a line does to the machine.
pub interrupt_handler-serve :
    (hw : Hw) (handlers : ℕ) (taken : Bool) (m m' : Machine)
    → local_int_handler hw m ≡ done taken m'
    → hw.read m'.bus irq_pend1 < 2 ^ 32
    → hw.read (read_on m' 1).bus irq_pend2 < 2 ^ 32
    → interrupt_handler hw handlers m ≡ (
        if taken
        then pure tt m'
        else (serve (λ n_irq. call_irq_handler hw handlers n_irq) (pending_word hw m') 72 0 >>= λ _.
              pure tt)
            (read_on (read_on (read_on m' 1) 1) 1))
unfolding interrupt_handler
interrupt_handler-serve hw handlers true m m' e fits0 fits1 = bind-done (local_int_handler hw) _ m e
interrupt_handler-serve hw handlers false m m' e fits0 fits1 =
    bind-done (local_int_handler hw) _ m e ∙ scan_pending-serve hw handlers m' fits0 fits1
