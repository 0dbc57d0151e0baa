-- ===== src/Sysinfo/Asid.antt =====
-- The ASID allocator of sysinfo.c. `asid_head` is the status array of the 256 ASIDs; an access
-- outside of it is a fault. A `TCB *` is an address: `task->asid` is the word at offset 16.
pub mod Grant
pub mod Search
use rpi2_baremetal.Common.{
  ℕ, zero, suc, ◌+◌, ◌-◌, ◌||◌, get_elem?, set, minus_one, ◌==◌, if◌then◌else◌,
}
use rpi2_baremetal.Machine.{
  Machine, Hw, M, done, pure, ◌>>=◌, ◌>>◌, elem, struct_lock, load, store, maintain, tlb_asid,
}
use rpi2_baremetal.Uart.{codes, spin_req, spin_rel, uart_puts, register_value_puts}
use rpi2_baremetal.Sysinfo.{get_sys_struct_info, struct_info}

abbrev pub unused_asid : ℕ
unused_asid = 0

abbrev pub active_asid : ℕ
active_asid = 1

abbrev pub finished_asid : ℕ
finished_asid = 2

abbrev pub reserved_asid_num : ℕ
reserved_asid_num = 0

abbrev pub task_asid : ℕ → ℕ
task_asid task = task + 16

-- `asid_head[asid]`, read and written.
unfoldable pub asid_status : ℕ → M ℕ
asid_status asid m = elem (get_elem? m.asid_head asid) m

unfoldable pub set_asid_status : ℕ → ℕ → M (Unit {0})
set_asid_status asid v m =
    (asid_status asid >>= λ _ m'. done tt (record m' { asid_head = set m'.asid_head asid v })) m

-- The value of the lock of an entry, which the loop prints.
unfoldable pub lock_value : ℕ → M ℕ
lock_value l m = done (m.lock l) m

-- Where the search starts in an area.
unfoldable pub first_user_asid : ℕ → ℕ
first_user_asid bottom = if bottom == reserved_asid_num then bottom + 2 else bottom + 1

module _ (hw : Hw) where
  unfoldable pub take_kernel_asid : ℕ → ℕ → M ℕ
  take_kernel_asid cpuid pm = do
    index ← get_sys_struct_info hw cpuid pm
    ssi ← struct_info index
    let asid_bottom = ssi.asid_area.bottom + 1
    if asid_bottom == reserved_asid_num
        then (do set_asid_status (asid_bottom + 1) 1; pure (asid_bottom + 1))
        else (do set_asid_status asid_bottom 1; pure asid_bottom)

  -- An ASID with status `v` that is not active: it is marked, and its TLB entries go if it was
  -- finished.
  unfoldable pub activate : ℕ → ℕ → M (Unit {0})
  activate asid v =
      if v == unused_asid
      then (do uart_puts hw (codes "UNUSED\n"); set_asid_status asid active_asid)
      else if v == finished_asid
      then (do
        uart_puts hw (codes "FINISHED\n")
        set_asid_status asid active_asid
        maintain (tlb_asid asid))
      else pure tt

  -- The loop of `set_user_asid` at `asid`, with `n` ASIDs left below the limit.
  unfoldable pub user_loop : ℕ → ℕ → ℕ → ℕ → M ℕ
  user_loop zero task index asid = pure minus_one
  user_loop (suc n) task index asid = do
    register_value_puts hw (codes "ASID: ") asid
    shown ← asid_status asid
    register_value_puts hw (codes "ASID value: ") shown
    l ← lock_value (struct_lock index)
    register_value_puts hw (codes "SSI LOCK: ") l
    spin_req hw (struct_lock index)
    v ← asid_status asid
    if asid == reserved_asid_num || v == active_asid
        then (do
          uart_puts hw (codes "RESERVED OR ACTIVE ASID\n")
          spin_rel hw (struct_lock index)
          user_loop n task index (asid + 1))
        else (do
          activate asid v
          spin_rel hw (struct_lock index)
          store (task_asid task) asid
          pure asid)

  unfoldable pub set_user_asid : ℕ → ℕ → ℕ → M ℕ
  set_user_asid task cpuid pm = do
    old ← load (task_asid task)
    if old == 0
        then (do
          index ← get_sys_struct_info hw cpuid pm
          ssi ← struct_info index
          register_value_puts hw (codes "asid bottom: ") ssi.asid_area.bottom
          register_value_puts hw (codes "asid limit: ") ssi.asid_area.limit
          uart_puts hw (codes "setup init values in take_asid\n")
          let start = first_user_asid ssi.asid_area.bottom
          user_loop (ssi.asid_area.limit - start) task index start)
        else pure old
