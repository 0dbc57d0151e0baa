-- ===== src/Task/Create.antt =====
-- `create_task` of task.c from its allocations on: the control block and the context of a new task,
-- and its ready queue.
pub mod Whole
use rpi2_baremetal.Common.{
  ℕ, suc, ◌+◌, ◌*◌, ◌≤◌, ◌<◌, ◌≡◌, ◌≢◌, ◌⊎◌, inl, inr, refl, sym, ap, ◌∙◌, Bool, true, false, ◌||◌,
  List, [], ◌∷◌, ◌++◌, some, get_elem?, length, arith, ==_false, ◌==◌, if◌then◌else◌,
}
use rpi2_baremetal.Machine.{
  Machine, SysStructInfo, Bus, Hw, M, done, ◌>>=◌, ◌>>◌, update, uart_lock, store, bind-done,
  then-done,
}
use rpi2_baremetal.Uart.{spin_req, spin_rel}
use rpi2_baremetal.Uart.Locks.{with_lock}
use rpi2_baremetal.Uart.Prints.{Drains, IsQuiet}
use rpi2_baremetal.Uart.Gives.{on_bus, Gives, spin_req-Gives, spin_rel-restores}
use rpi2_baremetal.Sysinfo.Modes.{IsMode, index_of}
use rpi2_baremetal.Heap.{kmalloc}
use rpi2_baremetal.Heap.Ring.{update-same, update-other}
use rpi2_baremetal.Heap.Empty.{self_ring, kmalloc-null}
use rpi2_baremetal.Task.{enqueue, create_task}
use rpi2_baremetal.Task.Queue.{
  Links, IsFar, AllFar, Distinct, IsQueue, IsOff, AllOff, last_of, last_of-IsFar, last_of-IsOff,
  far_ne, off_ne,
}
use rpi2_baremetal.Task.Queue.Frame.{AllSame, IsQueue-AllSame, update-AllSame}
use rpi2_baremetal.Task.Queue.Enqueue.{enqueue-IsQueue}

-- Memory after the control block at `task` and the context at `context` are written.
abbrev pub written : (ℕ → ℕ) → ℕ → ℕ → ℕ → ℕ → ℕ → ℕ
written mem task context func pri =
    update
      (update
        (update
          (update
            (update
              (update
                (update (update (update (update mem (context + 48) 0) (context + 56) func) task 1)
                  (task + 4) pri)
                (task + 8) 0)
              (task + 12) 0)
            (task + 16) 0)
          (task + 20) 0)
        (task + 24) 0)
      (task + 28) context

written-off :
    (mem : ℕ → ℕ) (task context func pri x : ℕ)
    → IsOff x task
    → x ≢ context + 48
    → x ≢ context + 56
    → written mem task context func pri x ≡ mem x
written-off mem task context func pri x (inl before) sp pc = ground arith
written-off mem task context func pri x (inr after) sp pc = ground arith

written-AllSame :
    (mem : ℕ → ℕ) (task context func pri : ℕ) (bs : List ℕ)
    → AllFar task bs
    → AllOff (context + 48) bs
    → AllOff (context + 56) bs
    → AllSame mem (written mem task context func pri) bs
written-AllSame mem task context func pri [] far sp pc = tt
written-AllSame mem task context func pri (a ∷ bs) (far, fars) (sp, sps) (pc, pcs) = (
  written-off mem task context func pri (a + 20) (field 20 (omega arith))
      (off_ne (context + 48) a 20 sp (omega arith)) (off_ne (context + 56) a 20 pc (omega arith)),
  written-off mem task context func pri (a + 24) (field 24 (omega arith))
      (off_ne (context + 48) a 24 sp (omega arith)) (off_ne (context + 56) a 24 pc (omega arith)),
  written-AllSame mem task context func pri bs fars sps pcs,
)
  where
    field : (i : ℕ) → i < 32 → IsOff (a + i) task
    field i lt = elim far [ inl l ↦ inr (omega arith) | inr r ↦ inl (omega arith) ]

-- The queue whose head the slot points to, and a control block and a context for one more task, with
-- none of the words that `create_task` writes in the others' blocks.
pub record IsRoom (mem : ℕ → ℕ) (slot head task context : ℕ) (tasks : List ℕ) : Type 0 where
  pub queue : IsQueue mem head tasks
  pub at_slot : mem slot ≡ head
  pub far : AllFar task (head ∷ tasks)
  pub slot_task : IsOff slot task
  pub slot_queue : AllOff slot (head ∷ tasks)
  pub sp_task : IsOff (context + 48) task
  pub sp_queue : AllOff (context + 48) (head ∷ tasks)
  pub pc_task : IsOff (context + 56) task
  pub pc_queue : AllOff (context + 56) (head ∷ tasks)
  pub slot_sp : slot ≢ context + 48
  pub slot_pc : slot ≢ context + 56

-- The task is the last of its queue and ready, without a space, a table and an ASID, and its context
-- is to run `func`.
pub record IsCreated (mem : ℕ → ℕ) (head task context func pri : ℕ) (tasks : List ℕ) : Type 0 where
  pub queue : IsQueue mem head (tasks ++ task ∷ [])
  pub state : mem task ≡ 1
  pub priority : mem (task + 4) ≡ pri
  pub mapid : mem (task + 8) ≡ 0
  pub ttba : mem (task + 12) ≡ 0
  pub asid : mem (task + 16) ≡ 0
  pub its_context : mem (task + 28) ≡ context
  pub sp : mem (context + 48) ≡ 0
  pub pc : mem (context + 56) ≡ func

-- What `create_task` does with the two blocks.
abbrev pub set_up : Hw → ℕ → ℕ → ℕ → ℕ → ℕ → ℕ → M (Unit {0})
set_up hw slot l task context func pri = do
  store (context + 48) 0
  store (context + 56) func
  store task 1
  store (task + 4) pri
  store (task + 8) 0
  store (task + 12) 0
  store (task + 16) 0
  store (task + 20) 0
  store (task + 24) 0
  store (task + 28) context
  spin_req hw l
  enqueue slot task
  spin_rel hw l

-- What has been written there.
written-block :
    (mem : ℕ → ℕ) (task context func pri : ℕ)
    → (written mem task context func pri (task + 0) ≡ 1)
      × (written mem task context func pri (task + 4) ≡ pri)
      × (written mem task context func pri (task + 8) ≡ 0)
      × (written mem task context func pri (task + 12) ≡ 0)
      × (written mem task context func pri (task + 16) ≡ 0)
      × (written mem task context func pri (task + 28) ≡ context)
written-block mem task context func pri = ground arith

written-sp :
    (mem : ℕ → ℕ) (task context func pri : ℕ)
    → IsOff (context + 48) task
    → written mem task context func pri (context + 48) ≡ 0
written-sp mem task context func pri (inl before) = ground arith
written-sp mem task context func pri (inr after) = ground arith

written-pc :
    (mem : ℕ → ℕ) (task context func pri : ℕ)
    → IsOff (context + 56) task
    → written mem task context func pri (context + 56) ≡ func
written-pc mem task context func pri (inl before) = ground arith
written-pc mem task context func pri (inr after) = ground arith

module _ (mem mem' : ℕ → ℕ) (slot head task context func pri : ℕ) (tasks : List ℕ)
    (room : IsRoom mem slot head task context tasks)
    (same : (x : ℕ)
      → x ≢ last_of head tasks + 24
      → x ≢ task + 20
      → x ≢ task + 24
      → x ≢ head + 20
      → mem' x ≡ written mem task context func pri x) where
  field_same :
      (i : ℕ)
      → i < 32
      → i ≢ 20
      → i ≢ 24
      → mem' (task + i) ≡ written mem task context func pri (task + i)
  field_same i lt prev next =
      same (task + i)
        (far_ne task (last_of head tasks) i 24 (last_of-IsFar task head tasks room.far.0 room.far.1)
          lt (omega arith))
        (λ e. prev (omega arith)) (λ e. next (omega arith))
        (far_ne task head i 20 room.far.0 lt (omega arith))

  context_same :
      (x : ℕ)
      → IsOff x task
      → AllOff x (head ∷ tasks)
      → mem' x ≡ written mem task context func pri x
  context_same x off offs =
      same x
        (λ e.
          off_ne x (last_of head tasks) 24 (last_of-IsOff x head tasks offs.0 offs.1) (omega arith)
            (sym e))
        (λ e. off_ne x task 20 off (omega arith) (sym e))
        (λ e. off_ne x task 24 off (omega arith) (sym e))
        (λ e. off_ne x head 20 offs.0 (omega arith) (sym e))

  same-IsCreated :
      IsQueue mem' head (tasks ++ task ∷ []) → IsCreated mem' head task context func pri tasks
  same-IsCreated queue =
      let block = written-block mem task context func pri in
      record {
        queue = queue;
        state =
            ap mem' (omega arith)
            ∙ field_same 0 (omega arith) (λ e. omega arith) (λ e. omega arith)
            ∙ block.0;
        priority = field_same 4 (omega arith) (λ e. omega arith) (λ e. omega arith) ∙ block.1;
        mapid = field_same 8 (omega arith) (λ e. omega arith) (λ e. omega arith) ∙ block.2;
        ttba = field_same 12 (omega arith) (λ e. omega arith) (λ e. omega arith) ∙ block.3;
        asid = field_same 16 (omega arith) (λ e. omega arith) (λ e. omega arith) ∙ block.4;
        its_context = field_same 28 (omega arith) (λ e. omega arith) (λ e. omega arith) ∙ block.5;
        sp =
            context_same (context + 48) room.sp_task room.sp_queue
            ∙ written-sp mem task context func pri room.sp_task;
        pc =
            context_same (context + 56) room.pc_task room.pc_queue
            ∙ written-pc mem task context func pri room.pc_task;
      }

module _ {hw : Hw} (live : Drains hw) (slot head task context func pri l : ℕ) (tasks : List ℕ) where
  pub set_up-IsCreated :
      (m : Machine)
      → IsQuiet m
      → l ≢ uart_lock
      → m.lock l ≡ 0
      → IsRoom m.mem slot head task context tasks
      → (mem' : ℕ → ℕ) × Gives tt
          (record m { mem = mem' })
          (set_up hw slot l task context func pri m)
        × IsCreated mem' head task context func pri tasks
  unfolding store
  set_up-IsCreated m quiet ne free room =
      let filled : Machine = record m { mem = written m.mem task context func pri } in
      let (b, e) =
        spin_req-Gives live filled (record { free = quiet.free; calm = quiet.calm }) l ne free in
      let locked : Machine = on_bus (with_lock filled l 1) b in
      let (mem', e', queue, same) =
        enqueue-IsQueue slot task head tasks locked
          (IsQueue-AllSame m.mem locked.mem head tasks
            (written-AllSame m.mem task context func pri (head ∷ tasks) room.far room.sp_queue
              room.pc_queue)
            room.queue)
          (written-off m.mem task context func pri slot room.slot_task room.slot_sp room.slot_pc
            ∙ room.at_slot)
          room.far.0 room.far.1 room.slot_task room.slot_queue in
      let last : Machine = on_bus (record m { mem = mem' }) b in
      let (b', e'') =
        spin_rel-restores live last (record { free = quiet.free; calm = quiet.calm }) l ne free in
      (
        mem',
        (
          b',
          then-done (spin_req hw l) _ filled e ∙ (then-done (enqueue slot task) _ locked e' ∙ e''),
        ),
        same-IsCreated m.mem mem' slot head task context func pri tasks room same queue,
      )
