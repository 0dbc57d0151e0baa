-- ===== src/Uart/Gives.antt =====
-- Calls described up to the console: what the caller of a printing function can rely on.
use rpi2_baremetal.Common.{
  ℕ, ◌≡◌, refl, ◌≢◌, inl, inr, List, ◌==◌, if◌then◌else◌, arith, ◌∙◌, ap, Bool-cases,
}
use rpi2_baremetal.Machine.{
  Machine, Bus, Hw, M, Outcome, done, ◌>>=◌, ◌>>◌, get_prid, uart_lock, bind-done, then-done,
}
use rpi2_baremetal.Uart.{
  codes, raw_spin_req, raw_spin_rel, spin_req_at, spin_rel_at, register_value_puts_at, spin_req,
  spin_rel, uart_puts, register_value_puts,
}
use rpi2_baremetal.Uart.Locks.{with_lock, update-update, raw_spin_req-free, raw_spin_rel-taken}
use rpi2_baremetal.Uart.Prints.{Drains, IsQuiet, value-Prints, console-Prints}

abbrev pub on_bus : Machine → Bus → Machine
on_bus m b = record m { bus = b }

-- The outcome is `a` in the machine `m`, whatever was printed.
abbrev pub Gives : {A : Type 0} → A → Machine → Outcome A → Type 0
Gives a m r = (b : Bus) × (r ≡ done a (on_bus m b))

-- The same of a call in a machine known up to the console.
pub Gives-bind :
    {A B : Type 0} (c : M A) (k : A → M B) (m m' : Machine) (a : A) (m'' : Machine) (z : B)
    → Gives a m' (c m)
    → ((b : Bus) → Gives z m'' (k a (on_bus m' b)))
    → Gives z m'' ((c >>= k) m)
Gives-bind c k m m' a m'' z (b, e) next = let (b', e') = next b in (b', bind-done c k m e ∙ e')

pub Gives-then :
    {B : Type 0} (c : M (Unit {0})) (k : M B) (m m' m'' : Machine) (z : B)
    → Gives tt m' (c m)
    → ((b : Bus) → Gives z m'' (k (on_bus m' b)))
    → Gives z m'' ((c >> k) m)
Gives-then c k m m' m'' z g next = Gives-bind c (λ _. k) m m' tt m'' z g next

module _ {hw : Hw} (live : Drains hw) (m : Machine) (quiet : IsQuiet m) where
  pub puts-Gives : (s : List ℕ) → Gives tt m (uart_puts hw s m)
  puts-Gives s = let (t, e) = (console-Prints hw m s 0 live quiet).0 in (_, e)

  pub value-Gives : (s : List ℕ) (d : ℕ) → Gives tt m (register_value_puts hw s d m)
  value-Gives s d = let (t, e) = (console-Prints hw m s d live quiet).2 in (_, e)

  lock-IsQuiet : (l v : ℕ) → l ≢ uart_lock → IsQuiet (with_lock m l v)
  lock-IsQuiet l v ne = record { free = ground (arith, quiet.free); calm = quiet.calm }

  message-Gives :
      (l v : ℕ) (s : List ℕ)
      → l ≢ uart_lock
      → Gives tt (with_lock m l v) (
          (if m.cpu == 0 then (λ m'. done tt m') else register_value_puts_at hw 7 s m.cpu)
            (with_lock m l v))
  message-Gives l v s ne = elim (Bool-cases (m.cpu == 0)) [
    | inl zero_core ↦ rw zero_core (m.bus, refl)
    | inr other ↦
        rw other (
          let (t, e) = value-Prints live 4 (with_lock m l v) (lock-IsQuiet l v ne) s m.cpu in
          (_, e))
  ]

  -- Another lock than `uart_lock`, taken and given back on a quiet machine.
  pub spin_req-Gives :
      (l : ℕ) → l ≢ uart_lock → m.lock l ≡ 0 → Gives tt (with_lock m l 1) (spin_req hw l m)
  unfolding spin_req spin_req_at get_prid
  spin_req-Gives l ne free =
      let (b, e) = message-Gives l 1 (codes "get lock from: ") ne in
      (b, then-done (raw_spin_req l) _ m (raw_spin_req-free l m free) ∙ e)

  pub spin_rel-Gives :
      (l : ℕ) → l ≢ uart_lock → m.lock l ≡ 1 → Gives tt (with_lock m l 0) (spin_rel hw l m)
  unfolding spin_rel spin_rel_at get_prid
  spin_rel-Gives l ne taken =
      let (b, e) = message-Gives l 0 (codes "release lock from: ") ne in
      (b, then-done (raw_spin_rel l) _ m (raw_spin_rel-taken l m taken) ∙ e)

module _ {hw : Hw} (live : Drains hw) (m : Machine) (quiet : IsQuiet m) where
  -- Giving back a lock that was free before it was taken.
  pub spin_rel-restores :
      (l : ℕ) → l ≢ uart_lock → m.lock l ≡ 0 → Gives tt m (spin_rel hw l (with_lock m l 1))
  spin_rel-restores l ne free =
      let (b, e) =
        spin_rel-Gives live (with_lock m l 1) (lock-IsQuiet live m quiet l 1 ne) l ne
          (ground arith) in
      (b, e ∙ ap (λ f. done tt (record (on_bus m b) { lock = f })) (update-update m.lock l free))
