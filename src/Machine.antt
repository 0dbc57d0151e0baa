-- ===== src/Machine.antt =====
-- The state that the kernel's functions read and write, and the monad in which they are written:
-- one core's view of the machine. Devices are a parameter, `Hw`.
-- The records are those of sysinfo.h and util.h.
use rpi2_baremetal.Common.{
  ℕ, ◌+◌, ◌-◌, ◌/◌, ◌%◌, lane, with_byte, ◌≡◌, refl, ap, Bool, List, [], ◌∷◌, ◌++◌, Option, none,
  some, ◌≡◌, ◌==◌, if◌then◌else◌,
}

-- `ram_area_t`, `heap_area_t` and `asid_area_t`.
pub record Area : Type 0 where
  pub bottom : ℕ
  pub limit : ℕ

-- `SysCommonInfo`; its lock is a lock word of the machine, its `asid_head` the machine's array.
pub record SysCommonInfo : Type 0 where
  pub pm : ℕ
  pub prev_pm : ℕ
  pub base_ttba : ℕ
  pub waking_cores : ℕ

-- `SysStructInfo`; its lock is a lock word of the machine.
pub record SysStructInfo : Type 0 where
  pub ttba : ℕ
  pub kernel_ram_area : Area
  pub user_ram_area : Area
  pub kernel_heap_area : Area
  pub kernel_heap_freep : ℕ
  pub asid_area : Area
  pub max_num_task_space : ℕ

-- What the code writes to device registers (register and value, oldest first), and how many device
-- reads it has made.
pub record Bus : Type 0 where
  pub writes : List (ℕ × ℕ)
  pub ticks : ℕ

-- The system control registers of the core.
pub record Cp15 : Type 0 where
  pub sctlr : ℕ
  pub actlr : ℕ
  pub dacr : ℕ
  pub ttbcr : ℕ
  pub ttbr0 : ℕ
  pub ttbr1 : ℕ
  pub contextidr : ℕ

-- What the core does to its translation state: maintenance of the TLBs and the caches, and writes
-- to the registers of the tables and of the ASID.
pub data Maintenance : Type 0 where
  contextidr_write ttbr0_write ttbr1_write : ℕ → Maintenance
  tlb_asid : ℕ → Maintenance
  tlb_all caches : Maintenance

-- The handlers that `m_ap_irq_handler` of interrupt.c can point to.
pub data IrqHandler : Type 0 where
  aux_handler : IrqHandler

pub record Machine : Type 0 where
  pub cpu : ℕ  -- the number of the core that runs, MPIDR & 3
  pub irq_masked : Bool
  pub cp15 : Cp15
  pub lock : ℕ → ℕ  -- the lock words, by the numbers below
  pub bus : Bus
  pub common : SysCommonInfo
  pub structs : List SysStructInfo
  pub asid_head : List ℕ
  pub maintenance : List Maintenance  -- newest first
  pub irq_handlers : List (Option IrqHandler)  -- `m_ap_irq_handler`
  pub mem : ℕ → ℕ  -- RAM: the 32-bit word at each address

-- The lock words of the program: `uart_lock`, `SYSCommonInfo->lock`, `smp_queue_lock`, `exp_lock`
-- and the `lock` of each SysStructInfo.
abbrev pub uart_lock : ℕ
uart_lock = 0

abbrev pub common_lock : ℕ
common_lock = 1

abbrev pub smp_queue_lock : ℕ
smp_queue_lock = 2

abbrev pub exp_lock : ℕ
exp_lock = 3

abbrev pub struct_lock : ℕ → ℕ
struct_lock index = index + 4

-- The devices: what a read of a register gives, after the writes and reads so far. `polls` is the
-- fuel of each loop that waits for a device.
pub record Hw : Type 0 where
  pub read : Bus → ℕ → ℕ
  pub polls : ℕ

-- How a call ends: it returns, it spins for ever (on a lock that this core waits for alone, or in a
-- loop that does nothing), it accesses an array out of its bounds, or it runs out of fuel.
pub data Outcome (A : Type 0) : Type 0 where
  done : A → Machine → Outcome A
  hang fault out_of_fuel : Outcome A

abbrev pub M : Type 0 → Type 0
M A = Machine → Outcome A

abbrev pub pure : {A : Type 0} → A → M A
pure a m = done a m

infixl 5 ◌>>=◌ ◌>>◌
abbrev pub ◌>>=◌ : {A B : Type 0} → M A → (A → M B) → M B
◌>>=◌ c k m = elim (c m) [
  | done a m' ↦ k a m'
  | hang ↦ hang
  | fault ↦ fault
  | out_of_fuel ↦ out_of_fuel
]

abbrev pub ◌>>◌ : {B : Type 0} → M (Unit {0}) → M B → M B
x >> y = x >>= λ _. y

-- A read of an array: out of bounds it is a fault.
abbrev pub elem : {A : Type 0} → Option A → M A
elem o m = elim o [ none ↦ fault | some a ↦ done a m ]

abbrev pub update : (ℕ → ℕ) → ℕ → ℕ → ℕ → ℕ
update f k v j = if k == j then v else f j

-- `IO_READ(reg)` and `read32(reg)` at a device register.
unfoldable pub io_read : Hw → ℕ → M ℕ
io_read hw reg m =
    done (hw.read m.bus reg) (record m { bus = record (m.bus) { ticks = m.bus.ticks + 1 } })

-- `IO_WRITE(reg, val)` and `write32(reg, val)` at a device register.
unfoldable pub io_write : ℕ → ℕ → M (Unit {0})
io_write reg val m =
    done tt (record m { bus = record (m.bus) { writes = m.bus.writes ++ (reg, val) ∷ [] } })

-- `write32(pa, value)` and stores through pointers, in RAM.
unfoldable pub store : ℕ → ℕ → M (Unit {0})
store pa value m = done tt (record m { mem = update m.mem pa value })

-- `_get_prid()`
unfoldable pub get_prid : M ℕ
get_prid m = done m.cpu m

-- `cpsid i` and `cpsie i`
unfoldable pub mask_irq : Bool → M (Unit {0})
mask_irq b m = done tt (record m { irq_masked = b })

unfoldable pub maintain : Maintenance → M (Unit {0})
maintain op m = done tt (record m { maintenance = op ∷ m.maintenance })

-- Running a sequence: what follows a call that returns, or one that never does.
module _ {A B : Type 0} (c : M A) (k : A → M B) (m : Machine) where
  pub bind-done : {a : A} {m' : Machine} → c m ≡ done a m' → (c >>= k) m ≡ k a m'
  bind-done e = rw (e, ◌>>=◌)

  pub bind-fault : c m ≡ fault → (c >>= k) m ≡ fault
  bind-fault e = rw (e, ◌>>=◌)

  pub bind-hang : c m ≡ hang → (c >>= k) m ≡ hang
  bind-hang e = rw (e, ◌>>=◌)

module _ {B : Type 0} (c : M (Unit {0})) (k : M B) (m : Machine) where
  pub then-done : {m' : Machine} → c m ≡ done tt m' → (c >> k) m ≡ k m'
  then-done e = bind-done c (λ _. k) m e

  pub then-hang : c m ≡ hang → (c >> k) m ≡ hang
  then-hang e = bind-hang c (λ _. k) m e

-- `read32(pa)` and loads through pointers, in RAM.
unfoldable pub load : ℕ → M ℕ
load pa m = done (m.mem pa) m

-- Two continuations that agree make the same sequence.
after-same :
    {A B : Type 0} (r : Outcome A) (k k' : A → M B) (m : Machine)
    → ((a : A) (m' : Machine) → k a m' ≡ k' a m')
    → ((λ _. r) >>= k) m ≡ ((λ _. r) >>= k') m
after-same (done a m') k k' m same = same a m'
after-same hang k k' m same = refl
after-same fault k k' m same = refl
after-same out_of_fuel k k' m same = refl

pub bind-same :
    {A B : Type 0} (c : M A) (k k' : A → M B) (m : Machine)
    → ((a : A) (m' : Machine) → k a m' ≡ k' a m')
    → (c >>= k) m ≡ (c >>= k') m
bind-same c k k' m same = after-same (c m) k k' m same

bind-after :
    {A B C : Type 0} (r : Outcome A) (k : A → M B) (l : B → M C) (m : Machine)
    → (((λ _. r) >>= k) >>= l) m ≡ ((λ _. r) >>= λ a. k a >>= l) m
bind-after (done a m') k l m = refl
bind-after hang k l m = refl
bind-after fault k l m = refl
bind-after out_of_fuel k l m = refl

-- Sequencing is associative.
pub bind-bind :
    {A B C : Type 0} (c : M A) (k : A → M B) (l : B → M C) (m : Machine)
    → ((c >>= k) >>= l) m ≡ (c >>= λ a. k a >>= l) m
bind-bind c k l m = bind-after (c m) k l m

-- The start of a sequence may be replaced by what it does in the machine at hand.
pub bind-start :
    {A B : Type 0} (c c' : M A) (k : A → M B) (m : Machine)
    → c m ≡ c' m
    → (c >>= k) m ≡ (c' >>= k) m
bind-start c c' k m e = rw (e, ◌>>=◌) refl

-- Bytes in RAM, the lowest of a word first, as a `char *` meets them.
abbrev pub byte_at : (ℕ → ℕ) → ℕ → ℕ
byte_at mem a = mem (a - a % 4) / lane (a % 4) % 256

abbrev pub put_byte : (ℕ → ℕ) → ℕ → ℕ → ℕ → ℕ
put_byte mem a v = update mem (a - a % 4) (with_byte (mem (a - a % 4)) (a % 4) v)

unfoldable pub load_byte : ℕ → M ℕ
load_byte a m = done (byte_at m.mem a) m

unfoldable pub store_byte : ℕ → ℕ → M (Unit {0})
store_byte a v m = done tt (record m { mem = put_byte m.mem a v })

-- A call that returns has one result.
pub done-value : {A : Type 0} {a b : A} {m m' : Machine} → done a m ≡ done b m' → a ≡ b
done-value {a = a} e = ap (λ o. elim o [ done x m ↦ x | hang ↦ a | fault ↦ a | out_of_fuel ↦ a ]) e

pub done-machine : {A : Type 0} {a b : A} {m m' : Machine} → done a m ≡ done b m' → m ≡ m'
done-machine {m = m} e =
    ap (λ o. elim o [ done x m' ↦ m' | hang ↦ m | fault ↦ m | out_of_fuel ↦ m ]) e
