-- ===== src/Init/Cold.antt =====
-- A core whose MMU is off, and the calls that leave it so: what the start of a core runs until it turns
-- its MMU on.
use rpi2_baremetal.Common.{
  ℕ, ◌≡◌, refl, ap, ◌∙◌, inr, Bool, true, false, List, arith, bit_and, bit_or, not, ◌==◌,
  bit_and_pow, bit_and_shift, bit_or_step,
}
use rpi2_baremetal.Machine.{
  uart_lock, Bus, Maintenance, Machine, SysStructInfo, Hw, M, done, ◌>>=◌, ◌>>◌, mask_irq, maintain,
  caches, tlb_all, bind-done, then-done,
}
use rpi2_baremetal.Uart.{codes, register_value_puts}
use rpi2_baremetal.Uart.Locks.{mmu_on, IsSecondary}
use rpi2_baremetal.Uart.Prints.{Drains, IsQuiet}
use rpi2_baremetal.Uart.Gives.{on_bus, value-Gives}
use rpi2_baremetal.Mmu.Switch.{
  ttb_mask, sctlr_mmu_option, get_sctlr, set_sctlr, stop_mmu, init_mmu, set_control,
  sync_ttba_change_no_lock, set_asid, set_ttbrs, get_contextidr, set_contextidr, get_ttba0,
  get_ttbr0, invalidate_all_tlbs, invalidate_caches,
}

-- The options that start the MMU have its bit, the mask that stops it has not.
pub sctlr-on : (v : ℕ) → (bit_and (bit_or v sctlr_mmu_option) 1 == 0) ≡ false
sctlr-on v =
    ground (arith, bit_and_pow 0 (bit_or v sctlr_mmu_option), bit_or_step v sctlr_mmu_option)

sctlr-off : (v : ℕ) → (bit_and (bit_and v 0xffff_e7d8) 1 == 0) ≡ true
sctlr-off v = ground (arith, bit_and_pow 0 (bit_and v 0xffff_e7d8), bit_and_shift 3 v 0x1fff_fcfb)

-- The machine of core `c` in mode `p` with the table `t` of entries: nobody has `uart_lock`, and the
-- MMU is off.
pub record IsCold (c p : ℕ) (t : List SysStructInfo) (m : Machine) : Type 0 where
  pub core : m.cpu ≡ c
  pub mode : m.common.pm ≡ p
  pub table : m.structs ≡ t
  pub free : m.lock uart_lock ≡ 0
  pub off : mmu_on m ≡ false

module _ (c p : ℕ) (t : List SysStructInfo) where
  -- A call that returns, from each such machine, in such a machine; and a program that gets from each
  -- such machine to the end `k` of it, on a core other than core 0 whose MMU is on by then.
  abbrev pub Stays : M (Unit {0}) → Type 0
  Stays f = (m : Machine) → IsCold c p t m → (m' : Machine) × (f m ≡ done tt m') × IsCold c p t m'

  abbrev pub Passes : (M (Unit {0}) → M (Unit {0})) → Type 0
  Passes f =
      (m : Machine)
      → IsCold c p t m
      → (m' : Machine) × ((k : M (Unit {0})) → f k m ≡ k m') × IsSecondary m'

  abbrev Reads : {A : Type 0} → M A → Type 0
  Reads {A} f = (m : Machine) → IsCold c p t m → (a : A) × (f m ≡ done a m)

  then-Stays : {f g : M (Unit {0})} → Stays f → Stays g → Stays (f >> g)
  then-Stays {f} {g} first second m cold =
      let (m', e, cold') = first m cold in
      let (m'', e', cold'') = second m' cold' in (m'', then-done f g m e ∙ e', cold'')

  read-Stays :
      {A : Type 0} {f : M A} {k : A → M (Unit {0})}
      → Reads f
      → ((a : A) → Stays (k a))
      → Stays (f >>= k)
  read-Stays {f = f} {k} first next m cold =
      let (a, e) = first m cold in
      let (m', e', cold') = next a m cold in (m', bind-done f k m e ∙ e', cold')

  pub then-Passes :
      {f : M (Unit {0})} {g : M (Unit {0}) → M (Unit {0})}
      → Stays f
      → Passes g
      → Passes (λ k. f >> g k)
  then-Passes {f} {g} first second m cold =
      let (m', e, cold') = first m cold in
      let (m'', run, on) = second m' cold' in (m'', λ k. then-done f (g k) m e ∙ run k, on)

  pub read-Passes :
      {A : Type 0} {f : M A} {g : A → M (Unit {0}) → M (Unit {0})}
      → Reads f
      → ((a : A) → Passes (g a))
      → Passes (λ k. f >>= λ a. g a k)
  read-Passes {f = f} {g} first next m cold =
      let (a, e) = first m cold in
      let (m', run, on) = next a m cold in (m', λ k. bind-done f (λ a. g a k) m e ∙ run k, on)

  IsCold-IsQuiet : (m : Machine) → IsCold c p t m → IsQuiet m
  IsCold-IsQuiet m cold = record { free = cold.free; calm = inr cold.off }

  -- Nothing else than these five matters.
  IsCold-like :
      (m m' : Machine)
      → m'.cpu ≡ m.cpu
      → m'.common.pm ≡ m.common.pm
      → m'.structs ≡ m.structs
      → m'.lock uart_lock ≡ m.lock uart_lock
      → mmu_on m' ≡ mmu_on m
      → IsCold c p t m
      → IsCold c p t m'
  IsCold-like m m' same_core same_mode same_table same_lock same_mmu cold = record {
    core = same_core ∙ cold.core;
    mode = same_mode ∙ cold.mode;
    table = same_table ∙ cold.table;
    free = same_lock ∙ cold.free;
    off = same_mmu ∙ cold.off;
  }

  IsCold-on_bus : (m : Machine) (b : Bus) → IsCold c p t m → IsCold c p t (on_bus m b)
  IsCold-on_bus m b cold = IsCold-like m _ refl refl refl refl refl cold

  pub value-Stays :
      {hw : Hw} → Drains hw → (s : List ℕ) (d : ℕ) → Stays (register_value_puts hw s d)
  value-Stays live s d m cold =
      let (b, e) = value-Gives live m (IsCold-IsQuiet m cold) s d in
      (on_bus m b, e, IsCold-on_bus m b cold)

  mask-Stays : (b : Bool) → Stays (mask_irq b)
  unfolding mask_irq
  mask-Stays b m cold = (_, refl, IsCold-like m _ refl refl refl refl refl cold)

  maintain-Stays : (op : Maintenance) → Stays (maintain op)
  unfolding maintain
  maintain-Stays op m cold = (_, refl, IsCold-like m _ refl refl refl refl refl cold)

  set_asid-Stays : (asid : ℕ) → Stays (set_asid asid)
  unfolding set_asid get_contextidr set_contextidr
  set_asid-Stays asid m cold = (_, refl, IsCold-like m _ refl refl refl refl refl cold)

  set_ttbrs-Stays : (v : ℕ) → Stays (set_ttbrs v)
  unfolding set_ttbrs
  set_ttbrs-Stays v m cold = (_, refl, IsCold-like m _ refl refl refl refl refl cold)

  get_ttba0-Reads : Reads get_ttba0
  unfolding get_ttba0 get_ttbr0
  get_ttba0-Reads m cold = (bit_and m.cp15.ttbr0 ttb_mask, refl)

  pub sync_ttba_change_no_lock-Stays :
      {hw : Hw} → Drains hw → (ttba : ℕ) → Stays (sync_ttba_change_no_lock hw ttba)
  unfolding sync_ttba_change_no_lock invalidate_all_tlbs invalidate_caches
  sync_ttba_change_no_lock-Stays live ttba = then-Stays (mask-Stays true) (
      read-Stays get_ttba0-Reads λ before.
        then-Stays (value-Stays live (codes "PRE TTBA0: ") before) (
          then-Stays (set_asid-Stays 0) (
            then-Stays (set_ttbrs-Stays (bit_or 0x4a ttba)) (
              then-Stays (set_asid-Stays 0) (
                then-Stays (maintain-Stays tlb_all) (
                  then-Stays (maintain-Stays caches) (
                    read-Stays get_ttba0-Reads λ current.
                      then-Stays (value-Stays live (codes "CURRENT TTBA0: ") current)
                        (mask-Stays false))))))))

  set_control-Stays : Stays set_control
  unfolding set_control
  set_control-Stays m cold = (_, refl, IsCold-like m _ refl refl refl refl refl cold)

  stop_mmu-Stays : Stays stop_mmu
  unfolding stop_mmu get_sctlr set_sctlr
  stop_mmu-Stays m cold = (
    _,
    refl,
    record {
      core = cold.core;
      mode = cold.mode;
      table = cold.table;
      free = cold.free;
      off = ap not (sctlr-off m.cp15.sctlr);
    },
  )

  pub init_mmu-Stays : Stays init_mmu
  unfolding init_mmu invalidate_all_tlbs invalidate_caches
  init_mmu-Stays =
      then-Stays stop_mmu-Stays
        (then-Stays (maintain-Stays caches) (then-Stays (maintain-Stays tlb_all) set_control-Stays))
