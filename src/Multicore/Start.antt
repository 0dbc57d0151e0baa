-- ===== src/Multicore/Start.antt =====
-- The start of the secondary cores ends, whether they answer or not.
use rpi2_baremetal.Common.{
  List, [], ℕ, zero, suc, ◌+◌, ◌≤◌, ◌<◌, ◌≡◌, ◌≢◌, ◌*◌, arith, refl, Bool, true, false, inl, inr,
  ◌==◌, if◌then◌else◌, Bool-cases, ◌∙◌,
}
use rpi2_baremetal.Machine.{Machine, Bus, Hw, M, Outcome, pure, ◌>>=◌, io_read, io_write, bind-done}
use rpi2_baremetal.Uart.{codes, uart_puts, hexstring, register_value_puts}
use rpi2_baremetal.Uart.Prints.{Drains, IsQuiet, console-Prints}
use rpi2_baremetal.Uart.Gives.{on_bus, Gives, puts-Gives, value-Gives}
use rpi2_baremetal.Multicore.{
  mailbox3_clr0, mailbox_wait, give_up, start_loop, start_secondary_core,
}

-- The mailbox register `reg` reads 0, or another value, at some time.
abbrev IsEmpty : Hw → ℕ → Type 0
IsEmpty hw reg = (bus : Bus) × (hw.read bus reg ≡ 0)

abbrev IsFull : Hw → ℕ → Type 0
IsFull hw reg = (bus : Bus) × (hw.read bus reg ≢ 0)

-- The register in which core `core` takes what mailbox 3 has for it.
abbrev pub mailbox3_clr : ℕ → ℕ
mailbox3_clr core = mailbox3_clr0 + 0x10 * core

-- The call returns a value with the property, and has changed nothing but what its devices have
-- seen.
abbrev pub Ends : (Bool → Type 0) → Machine → Outcome Bool → Type 0
Ends P m r = (ok : Bool) × Gives ok m r × P ok

module _ {P : Bool → Type 0} where
  Ends-bind :
      {A : Type 0} (c : M A) (k : A → M Bool) (m : Machine) {a : A}
      → Gives a m (c m)
      → ((b : Bus) → Ends P m (k a (on_bus m b)))
      → Ends P m ((c >>= k) m)
  Ends-bind c k m (b, e) next =
      let (ok, (b', e'), p) = next b in (ok, (b', bind-done c k m e ∙ e'), p)

  Ends-seq :
      {Q : Bool → Type 0} (c : M Bool) (k : Bool → M Bool) (m : Machine)
      → Ends Q m (c m)
      → ((ok : Bool) (b : Bus) → Q ok → Ends P m (k ok (on_bus m b)))
      → Ends P m ((c >>= k) m)
  Ends-seq c k m (ok, (b, e), q) next =
      let (ok', (b', e'), p) = next ok b q in (ok', (b', bind-done c k m e ∙ e'), p)

  Ends-if :
      (Q : Bool → Type 0) (ok : Bool) (x y : M Bool) (m m' : Machine)
      → Q ok
      → (Q true → Ends P m (x m'))
      → (Q false → Ends P m (y m'))
      → Ends P m ((if ok then x else y) m')
  Ends-if Q true x y m m' q if_true if_false = if_true q
  Ends-if Q false x y m m' q if_true if_false = if_false q

read-Gives : (hw : Hw) (reg : ℕ) (m : Machine) → Gives (hw.read m.bus reg) m (io_read hw reg m)
unfolding io_read
read-Gives hw reg m = (_, refl)

write-Gives : (reg v : ℕ) (m : Machine) → Gives tt m (io_write reg v m)
unfolding io_write
write-Gives reg v m = (_, refl)

on_bus-IsQuiet : (m : Machine) (b : Bus) → IsQuiet m → IsQuiet (on_bus m b)
on_bus-IsQuiet m b q = record { free = q.free; calm = q.calm }

-- What the result of a wait tells of the register, and the result of the start of the cores from
-- `core` on, `n` of them.
abbrev Seen : Hw → ℕ → Bool → Type 0
Seen hw reg true = IsEmpty hw reg
Seen hw reg false = IsFull hw reg

abbrev AllEmpty : Hw → ℕ → ℕ → Type 0
AllEmpty hw zero core = Unit {0}
AllEmpty hw (suc n) core = IsEmpty hw (mailbox3_clr core) × AllEmpty hw n (core + 1)

abbrev pub Tells : Hw → ℕ → ℕ → Bool → Type 0
Tells hw n core true = AllEmpty hw n core
Tells hw n core false = (i : ℕ) × (core ≤ i) × (i < core + n) × IsFull hw (mailbox3_clr i)

module _ {hw : Hw} (live : Drains hw) where
  loud-Gives :
      (loud : Bool) (n : ℕ) (m : Machine)
      → IsQuiet m
      → Gives tt m ((if loud then register_value_puts hw (codes "n_timeout: ") n else pure tt) m)
  loud-Gives true n m quiet = value-Gives live m quiet (codes "n_timeout: ") n
  loud-Gives false n m quiet = (m.bus, refl)

  mailbox_wait-Ends :
      (loud : Bool) (reg left n : ℕ) (m : Machine)
      → IsQuiet m
      → Ends (Seen hw reg) m (mailbox_wait hw loud reg left n m)
  unfolding mailbox_wait
  mailbox_wait-Ends loud reg zero n m quiet =
      Ends-bind (io_read hw reg) _ m (read-Gives hw reg m) λ b.
        elim (Bool-cases (hw.read m.bus reg == 0)) [
          | inl empty ↦ rw empty (true, (b, refl), (m.bus, ground arith))
          | inr full ↦ rw full (
              Ends-bind (if loud then register_value_puts hw _ n else pure tt) _ (on_bus m b)
                (loud-Gives loud n (on_bus m b) (on_bus-IsQuiet m b quiet))
                λ b'. (false, (b', refl), (m.bus, λ e. ground arith)))
        ]
  mailbox_wait-Ends loud reg (suc left) n m quiet =
      Ends-bind (io_read hw reg) _ m (read-Gives hw reg m) λ b.
        elim (Bool-cases (hw.read m.bus reg == 0)) [
          | inl empty ↦ rw empty (true, (b, refl), (m.bus, ground arith))
          | inr full ↦ rw full (
              Ends-bind (if loud then register_value_puts hw _ n else pure tt) _ (on_bus m b)
                (loud-Gives loud n (on_bus m b) (on_bus-IsQuiet m b quiet))
                λ b'.
                  mailbox_wait-Ends loud reg left (n + 1) (on_bus m b') (on_bus-IsQuiet m b' quiet))
        ]

  hex-Gives : (n : ℕ) (m : Machine) → IsQuiet m → Gives tt m (hexstring hw n m)
  hex-Gives n m quiet = let (_, (t, e), _) = console-Prints hw m [] n live quiet in (_, e)

  give_up-Ends :
      {P : Bool → Type 0} (n : ℕ) (s : List ℕ) (m : Machine)
      → IsQuiet m
      → P false
      → Ends P m (give_up hw n s m)
  unfolding give_up
  give_up-Ends n s m quiet p = Ends-bind (uart_puts hw _) _ m (puts-Gives live m quiet _) λ b.
      Ends-bind (hexstring hw n) _ (on_bus m b)
        (hex-Gives n (on_bus m b) (on_bus-IsQuiet m b quiet))
        λ b.
          Ends-bind (uart_puts hw s) _ (on_bus m b)
            (puts-Gives live (on_bus m b) (on_bus-IsQuiet m b quiet) s) λ b. (false, (b, refl), p)

  Tells-again :
      (n core : ℕ) (ok : Bool)
      → IsEmpty hw (mailbox3_clr core)
      → Tells hw n (core + 1) ok
      → Tells hw (suc n) core ok
  Tells-again n core true empty all = (empty, all)
  Tells-again n core false empty (i, low, below, full) = (i, omega arith, omega arith, full)

  module _ (entry limit : ℕ) where
    start_loop-Ends :
        (n core : ℕ) (m : Machine)
        → IsQuiet m
        → Ends (Tells hw n core) m (start_loop hw entry limit n core m)
    unfolding start_loop
    start_loop-Ends zero core m quiet = (true, (m.bus, refl), tt)
    start_loop-Ends (suc n) core m quiet =
        Ends-seq (mailbox_wait hw true _ limit 0) _ m
          (mailbox_wait-Ends true (mailbox3_clr core) limit 0 m quiet)
          λ ok b seen.
            Ends-if (Seen hw (mailbox3_clr core)) ok _ (give_up hw core _) m (on_bus m b) seen
              (λ empty.
                Ends-bind (io_write _ entry) _ (on_bus m b) (write-Gives _ entry (on_bus m b)) λ b.
                  Ends-seq (mailbox_wait hw false _ limit 0) _ (on_bus m b)
                    (mailbox_wait-Ends false (mailbox3_clr core) limit 0 (on_bus m b)
                      (on_bus-IsQuiet m b quiet))
                    λ ok b seen.
                      Ends-if (Seen hw (mailbox3_clr core)) ok
                        (start_loop hw entry limit n (core + 1)) (give_up hw core _) m (on_bus m b)
                        seen
                        (λ started.
                          let (ok', given, tells) =
                            start_loop-Ends n (core + 1) (on_bus m b) (on_bus-IsQuiet m b quiet) in
                          (ok', given, Tells-again n core ok' empty tells))
                        (failed _ b))
              (failed _ b)
      where
        failed :
            (message : List ℕ) (b : Bus)
            → IsFull hw (mailbox3_clr core)
            → Ends (Tells hw (suc n) core) m (give_up hw core message (on_bus m b))
        failed message b full =
            give_up-Ends core _ (on_bus m b) (on_bus-IsQuiet m b quiet)
              (core, omega arith, omega arith, full)

pub start_secondary_core-Ends :
    (hw : Hw) (entry limit : ℕ) (m : Machine)
    → Drains hw
    → IsQuiet m
    → Ends (Tells hw 3 1) m (start_secondary_core hw entry limit m)
unfolding start_secondary_core
start_secondary_core-Ends hw entry limit m live quiet =
    Ends-bind (io_read hw _) _ m (read-Gives hw _ m) λ b.
      Ends-bind (io_write _ _) _ (on_bus m b) (write-Gives _ _ (on_bus m b)) λ b.
        Ends-bind (io_write _ _) _ (on_bus m b) (write-Gives _ _ (on_bus m b))
          λ b. start_loop-Ends live entry limit 3 1 (on_bus m b) (on_bus-IsQuiet m b quiet)
