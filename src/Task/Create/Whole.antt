-- ===== src/Task/Create/Whole.antt =====
-- `create_task` of task.c, with what `kmalloc` gives it.
use rpi2_baremetal.Common.{
  ℕ, suc, ◌+◌, ◌*◌, ◌<◌, ◌≡◌, ◌≢◌, ◌∙◌, List, ◌∷◌, some, get_elem?, length, ==_false,
}
use rpi2_baremetal.Machine.{Machine, SysStructInfo, Hw, done, update, uart_lock, bind-done}
use rpi2_baremetal.Uart.Prints.{Drains, IsQuiet}
use rpi2_baremetal.Uart.Gives.{Gives}
use rpi2_baremetal.Sysinfo.Modes.{IsMode, index_of}
use rpi2_baremetal.Heap.{kmalloc}
use rpi2_baremetal.Heap.Ring.{update-other}
use rpi2_baremetal.Heap.Empty.{self_ring, kmalloc-null}
use rpi2_baremetal.Task.{create_task}
use rpi2_baremetal.Task.Queue.{AllOff}
use rpi2_baremetal.Task.Queue.Frame.{IsQueue-AllSame, update-AllSame}
use rpi2_baremetal.Task.Create.{IsRoom, IsCreated, set_up-IsCreated}

-- `kmalloc` gives a control block and a context that lie apart from the task's ready queue and its
-- slot, the queue's lock is free, and the console can be used: `create_task` returns with the lock
-- free again. The task is the last of its queue, ready, with its priority, with no slot, table or
-- ASID, and its context starts `func`. `map` plays no part.
pub create_task-IsCreated :
    (hw : Hw) (map fuel task_head func pri l task context head : ℕ) (tasks : List ℕ)
    (m m1 m2 : Machine)
    → Drains hw
    → task_head ≢ 0
    → func ≢ 0
    → kmalloc hw fuel 32 m ≡ done task m1
    → kmalloc hw fuel 64 m1 ≡ done context m2
    → IsQuiet m2
    → l ≢ uart_lock
    → m2.lock l ≡ 0
    → IsRoom m2.mem (task_head + 4 * pri) head task context tasks
    → (mem' : ℕ → ℕ) × Gives tt
        (record m2 { mem = mem' })
        (create_task hw map fuel task_head func pri l m)
      × IsCreated mem' head task context func pri tasks
unfolding create_task
create_task-IsCreated hw map fuel task_head func pri l task context head tasks m m1 m2 live
      some_head some_func gives_task gives_context quiet ne free room =
    let (mem', (b, e), created) =
      set_up-IsCreated live (task_head + 4 * pri) head task context func pri l tasks m2 quiet ne
        free room in
    (
      mem',
      (
        b,
        rw (==_false task_head 0 some_head, ==_false func 0 some_func)
            (bind-done (kmalloc hw fuel 32) _ m gives_task
              ∙ (bind-done (kmalloc hw fuel 64) _ m1 gives_context ∙ e)),
      ),
      created,
    )

-- Room is room after a write that is off the queue and its slot.
update-IsRoom :
    (mem : ℕ → ℕ) (slot head task context x v : ℕ) (tasks : List ℕ)
    → AllOff x (head ∷ tasks)
    → x ≢ slot
    → IsRoom mem slot head task context tasks
    → IsRoom (update mem x v) slot head task context tasks
update-IsRoom mem slot head task context x v tasks off ne room = record {
  queue =
      IsQueue-AllSame mem (update mem x v) head tasks (update-AllSame mem x v (head ∷ tasks) off)
        room.queue;
  at_slot = update-other mem x v slot ne ∙ room.at_slot;
  far = room.far;
  slot_task = room.slot_task;
  slot_queue = room.slot_queue;
  sp_task = room.sp_task;
  sp_queue = room.sp_queue;
  pc_task = room.pc_task;
  pc_queue = room.pc_queue;
  slot_sp = room.slot_sp;
  slot_pc = room.slot_pc;
}

module _ (mem : ℕ → ℕ) (slot head task context h : ℕ) (tasks : List ℕ)
    (low : AllOff h (head ∷ tasks)) (high : AllOff (h + 4) (head ∷ tasks)) (ne : h ≢ slot)
    (ne' : h + 4 ≢ slot) where
  self_ring-IsRoom :
      IsRoom mem slot head task context tasks
      → IsRoom (self_ring mem h) slot head task context tasks
  self_ring-IsRoom room =
      update-IsRoom (update mem h h) slot head task context (h + 4) 0 tasks high ne'
        (update-IsRoom mem slot head task context h h tasks low ne room)

-- The core has a valid number and mode, and the heap of its entry has no free list, as
-- `init_sysinfos` leaves it; the queue, its slot and the first word of the heap lie above the words
-- at 0 to 63 and apart from each other. Then `create_task` returns, and has written the new task's
-- control block over the words at 0 to 31, where the exception vectors are, has entered it into the
-- ready queue, and has put the context's stack pointer and program counter at 48 and 56.
pub create_task-null :
    (hw : Hw) (map fuel task_head func pri l head : ℕ) (tasks : List ℕ) (m : Machine)
    {s : SysStructInfo}
    → Drains hw
    → IsQuiet m
    → length m.structs ≡ 7
    → m.cpu < 4
    → IsMode m.common.pm
    → get_elem? m.structs (index_of m.cpu m.common.pm) ≡ some s
    → s.kernel_heap_freep ≡ 0
    → task_head ≢ 0
    → func ≢ 0
    → l ≢ uart_lock
    → m.lock l ≡ 0
    → IsRoom m.mem (task_head + 4 * pri) head 0 0 tasks
    → AllOff s.kernel_heap_area.bottom (head ∷ tasks)
    → AllOff (s.kernel_heap_area.bottom + 4) (head ∷ tasks)
    → s.kernel_heap_area.bottom ≢ task_head + 4 * pri
    → s.kernel_heap_area.bottom + 4 ≢ task_head + 4 * pri
    → (mem' : ℕ → ℕ) × Gives tt
        (record m { mem = mem' })
        (create_task hw map (suc fuel) task_head func pri l m)
      × IsCreated mem' head 0 0 func pri tasks
create_task-null hw map fuel task_head func pri l head tasks m {s} live quiet seven lt valid found
      no_list some_head some_func ne free room low high apart apart' =
    let h : ℕ = s.kernel_heap_area.bottom in
    let m1 : Machine = record m { mem = self_ring m.mem h } in
    let m2 : Machine = record m { mem = self_ring m1.mem h } in
    let again =
      self_ring-IsRoom m.mem (task_head + 4 * pri) head 0 0 h tasks low high apart apart' in
    let twice =
      self_ring-IsRoom m1.mem (task_head + 4 * pri) head 0 0 h tasks low high apart apart' in
    create_task-IsCreated hw map (suc fuel) task_head func pri l 0 0 head tasks m m1 m2 live
      some_head some_func (kmalloc-null hw fuel 32 m seven lt valid found no_list)
      (kmalloc-null hw fuel 64 m1 seven lt valid found no_list)
      (record { free = quiet.free; calm = quiet.calm }) ne free (twice (again room))
