-- ===== src/Task.antt =====
-- task.c: tasks and the map of the spaces that they run in. A `TCB *` is an address, its fields the
-- words at offsets 0 to 28; `map` is the address of `smp_tsk_alc_map`, an array of pairs of words,
-- `fuel` that of the allocator's loops.
pub mod Asids
pub mod Create
pub mod Move
pub mod Queue
pub mod Unlink
use rpi2_baremetal.Common.{
  ℕ, zero, suc, ◌+◌, ◌-◌, ◌*◌, ◌/◌, ◌%◌, ◌^◌, u32, sub32, ltb, ◌==◌, ◌||◌, if◌then◌else◌,
}
use rpi2_baremetal.Machine.{
  Machine, Hw, M, out_of_fuel, pure, ◌>>=◌, ◌>>◌, load, store, get_prid, smp_queue_lock,
}
use rpi2_baremetal.Uart.{spin_req, spin_rel}
use rpi2_baremetal.Sysinfo.{get_pm, get_sys_struct_info, struct_info, sysstruct_amp_index}
use rpi2_baremetal.Sysinfo.Asid.{unused_asid, finished_asid, task_asid, set_asid_status}
use rpi2_baremetal.Sysinfo.Config.{section_size}
use rpi2_baremetal.Mmu.{cre_usr_tbl}
use rpi2_baremetal.Mmu.Switch.{invalidate_tlbs}
use rpi2_baremetal.Heap.{kmalloc, kfree}

abbrev pub smp_user_ram_bottom : ℕ
smp_user_ram_bottom = 0x2400_0000

-- `smp_tsk_alc_map[id].state` and `smp_tsk_alc_map[id].task`
abbrev pub map_state : ℕ → ℕ → ℕ
map_state map id = map + 8 * id

abbrev pub map_task : ℕ → ℕ → ℕ
map_task map id = map + 8 * id + 4

-- The task goes to the end of the ring whose head `task_head[pri]` points to; `slot` is the address
-- of that pointer.
unfoldable pub enqueue : ℕ → ℕ → M (Unit {0})
enqueue slot task = do
  first ← load slot
  last ← load (first + 20)
  head ← load slot
  if head == last
      then (do
        h1 ← load slot
        store (h1 + 20) task
        h2 ← load slot
        store (h2 + 24) task
        h3 ← load slot
        store (task + 20) h3
        h4 ← load slot
        store (task + 24) h4)
      else (do
        store (last + 24) task
        store (task + 20) last
        h1 ← load slot
        store (task + 24) h1
        h2 ← load slot
        store (h2 + 20) task)

-- `task->prev->next = task->next; task->next->prev = task->prev;`
unfoldable pub unlink : ℕ → M (Unit {0})
unlink task = do
  prev ← load (task + 20)
  next ← load (task + 24)
  store (prev + 24) next
  next' ← load (task + 24)
  prev' ← load (task + 20)
  store (next' + 20) prev'

module _ (hw : Hw) (map fuel : ℕ) where
  -- `l` is the lock of the queue, `task_head` the address of the array of the queues' heads. A
  -- control block has 32 bytes, a context 64, with the stack pointer at 48 and the program counter
  -- at 56.
  unfoldable pub create_task : ℕ → ℕ → ℕ → ℕ → M (Unit {0})
  create_task task_head func pri l = if task_head == 0 || func == 0 then pure tt else (do
    task ← kmalloc hw fuel 32
    context ← kmalloc hw fuel 64
    store (context + 48) 0
    store (context + 56) func
    store task 1
    store (task + 4) pri
    store (task + 8) 0
    store (task + 12) 0
    store (task + 16) 0
    store (task + 20) 0
    store (task + 24) 0
    store (task + 28) context
    spin_req hw l
    enqueue (task_head + 4 * pri) task
    spin_rel hw l)

  -- The loop of `start_task`, with `n` spaces left. It has no break.
  unfoldable pub start_loop : ℕ → ℕ → ℕ → ℕ → ℕ → M (Unit {0})
  start_loop zero task l bottom i = pure tt
  start_loop (suc n) task l bottom i = do
    spin_req hw l
    state ← load (map_state map i)
    (if state == 0
        then (do
          store (map_state map i) 1
          store (map_task map i) task
          store (task + 8) i
          store (task + 12) (u32 (i * section_size + bottom))
          ttba ← load (task + 12)
          cre_usr_tbl ttba)
        else pure tt)
    spin_rel hw l
    start_loop n task l bottom (i + 1)

  unfoldable pub start_task : ℕ → ℕ → M (Unit {0})
  start_task task l = do
    cpuid ← get_prid
    pm ← get_pm
    index ← get_sys_struct_info hw cpuid pm
    ssi ← struct_info index
    start_loop ssi.max_num_task_space task l ssi.user_ram_area.bottom 0
    store task 2

  unfoldable pub end_task : ℕ → M (Unit {0})
  end_task task = do
    asid ← load (task_asid task)
    set_asid_status asid finished_asid
    mapid ← load (task + 8)
    store (map_state map mapid) 2
    store task 8

  -- `n` words from `pa` on are set to 0. The end of the loop is taken from `task->ttba` at its start:
  -- the control block does not lie in the space that is cleared.
  unfoldable pub clear_words : ℕ → ℕ → M (Unit {0})
  clear_words zero pa = pure tt
  clear_words (suc n) pa = do store pa 0; clear_words n (u32 (pa + 4))

  unfoldable pub destroy_task : ℕ → M (Unit {0})
  destroy_task task = do
    asid ← load (task_asid task)
    invalidate_tlbs asid
    set_asid_status asid unused_asid
    ttba ← load (task + 12)
    clear_words 0x4_0000 ttba
    spin_req hw smp_queue_lock
    mapid ← load (task + 8)
    store (map_state map mapid) 0
    store (map_task map mapid) 0
    unlink task
    spin_rel hw smp_queue_lock
    context ← load (task + 28)
    kfree hw fuel context
    kfree hw fuel task

  -- The loop of `destroy_core_tasks`, with `n` slots left.
  unfoldable pub core_loop : ℕ → ℕ → M (Unit {0})
  core_loop zero mapid = pure tt
  core_loop (suc n) mapid = do
    state ← load (map_state map mapid)
    if state == 0
        then core_loop n (mapid + 1)
        else (do task ← load (map_task map mapid); destroy_task task; core_loop n (mapid + 1))

  unfoldable pub destroy_core_tasks : M (Unit {0})
  destroy_core_tasks = do
    cpuid ← get_prid
    ssi ← struct_info (sysstruct_amp_index cpuid)
    let mapid_limit = sub32 ssi.user_ram_area.limit smp_user_ram_bottom / section_size
    let mapid = sub32 ssi.kernel_ram_area.bottom smp_user_ram_bottom / section_size
    core_loop (mapid_limit - mapid) mapid

  -- `n` words are copied from `resource_pa` to `target_pa`.
  unfoldable pub copy_words : ℕ → ℕ → ℕ → M (Unit {0})
  copy_words zero resource_pa target_pa = pure tt
  copy_words (suc n) resource_pa target_pa = do
    v ← load resource_pa
    store target_pa v
    copy_words n (u32 (resource_pa + 4)) (u32 (target_pa + 4))

  -- The free slot `mapid` takes over the task of the slot `from`.
  unfoldable pub take_slot : ℕ → ℕ → ℕ → ℕ → M (Unit {0})
  take_slot from resource_pa asid_limit mapid = do
    state ← load (map_state map from)
    store (map_state map mapid) state
    task ← load (map_task map from)
    store (map_task map mapid) task
    asid ← load (task_asid task)
    (if ltb asid asid_limit
        then pure tt
        else (do invalidate_tlbs asid; set_asid_status asid unused_asid; store (task_asid task) 0))
    let target_bottom = smp_user_ram_bottom + mapid * section_size
    copy_words 0x4_0000 resource_pa target_bottom
    cre_usr_tbl target_bottom

  -- The loop of `move_task_space`, with `n` slots left.
  unfoldable pub space_loop : ℕ → ℕ → ℕ → ℕ → ℕ → M (Unit {0})
  space_loop zero from resource_pa asid_limit mapid = pure tt
  space_loop (suc n) from resource_pa asid_limit mapid = do
    spin_req hw smp_queue_lock
    state ← load (map_state map mapid)
    if state == 0
        then take_slot from resource_pa asid_limit mapid
        else (do spin_rel hw smp_queue_lock; space_loop n from resource_pa asid_limit (mapid + 1))

  unfoldable pub move_task_space : ℕ → M (Unit {0})
  move_task_space from = do
    cpuid ← get_prid
    pm ← get_pm
    index ← get_sys_struct_info hw cpuid pm
    ssi ← struct_info index
    task ← load (map_task map from)
    resource_pa ← load (task + 12)
    space_loop (sub32 ssi.user_ram_area.limit ssi.user_ram_area.bottom / section_size) from
        resource_pa ssi.asid_area.limit 0

  -- The loop of `move_task_spaces`, with `n` slots left.
  unfoldable pub spaces_loop : ℕ → ℕ → M (Unit {0})
  spaces_loop zero mapid = pure tt
  spaces_loop (suc n) mapid = do
    spin_req hw smp_queue_lock
    state ← load (map_state map mapid)
    if state == 0 then (do spin_rel hw smp_queue_lock; spaces_loop n (mapid + 1)) else (do
      move_task_space mapid
      spin_rel hw smp_queue_lock
      task ← load (map_task map mapid)
      destroy_task task
      store (map_task map mapid) 0
      store (map_state map mapid) 0
      spaces_loop n (mapid + 1))

  unfoldable pub move_task_spaces : M (Unit {0})
  move_task_spaces = do
    cpuid ← get_prid
    pm ← get_pm
    index ← get_sys_struct_info hw cpuid pm
    ssi ← struct_info index
    let bottomid = sub32 ssi.kernel_ram_area.bottom smp_user_ram_bottom / section_size
    let limitid = sub32 ssi.user_ram_area.limit smp_user_ram_bottom / section_size
    spaces_loop (limitid - bottomid) bottomid
