-- ===== src/Tests/Creation.antt =====
-- The creation of a task at a concrete heap and queue.
use rpi2_baremetal.Common.{ℕ, ◌≡◌, refl, inl, inr, [], ◌∷◌, ◌==◌, if◌then◌else◌, arith}
use rpi2_baremetal.Machine.{Machine, done, update, load, store, get_prid}
use rpi2_baremetal.Uart.Gives.{Gives}
use rpi2_baremetal.Sysinfo.{
  is_amp, get_pm, get_kernel_heap_limit, get_kernel_heap_bottom, get_kernel_heap_free_head,
  get_sys_struct_info, struct_info, ssi_field, get_sys_struct_info_index, is_valid_cpuid,
  is_valid_pm, sysstruct_smp_index,
}
use rpi2_baremetal.Heap.{kmalloc, malloc_from, malloc_loop, take_block, units}
use rpi2_baremetal.Task.{create_task}
use rpi2_baremetal.Task.Queue.{IsQueue}
use rpi2_baremetal.Task.Create.{IsRoom, IsCreated}
use rpi2_baremetal.Task.Create.Whole.{create_task-IsCreated, create_task-null}
use rpi2_baremetal.Tests.{hw, machine, hw-Drains}
use rpi2_baremetal.Tests.Heaps.{heap_entry}
use rpi2_baremetal.Tests.Boot.{all_together, all_found}
use rpi2_baremetal.Tests.Queues.{slot, head, only, linked, linked-IsQueue, queued}

-- The same queue, and a heap with one free block of 20 units.
abbrev heaped : ℕ → ℕ
heaped a =
    if a == 0x2200_0000
    then 0x2200_0008
    else (if a == 0x2200_0008 then 0x2200_0000 else (if a == 0x2200_000c then 20 else linked a))

abbrev planned : Machine
planned = record (machine 0 1) {
  mem = heaped;
  structs =
      heap_entry ∷ heap_entry ∷ heap_entry ∷ heap_entry ∷ heap_entry ∷ heap_entry ∷ heap_entry ∷ [];
}

abbrev with_task : Machine
with_task = record planned { mem = update (update heaped 0x2200_000c 15) 0x2200_0084 5 }

abbrev with_both : Machine
with_both = record with_task { mem = update (update with_task.mem 0x2200_000c 6) 0x2200_003c 9 }

gives_task : kmalloc hw 2 32 planned ≡ done 0x2200_0088 with_task
unfolding kmalloc malloc_from malloc_loop take_block units load store is_amp get_prid get_pm
    get_kernel_heap_limit get_kernel_heap_bottom get_kernel_heap_free_head get_sys_struct_info
    struct_info ssi_field get_sys_struct_info_index is_valid_cpuid is_valid_pm sysstruct_smp_index
gives_task = refl

gives_context : kmalloc hw 2 64 with_task ≡ done 0x2200_0040 with_both
unfolding kmalloc malloc_from malloc_loop take_block units load store is_amp get_prid get_pm
    get_kernel_heap_limit get_kernel_heap_bottom get_kernel_heap_free_head get_sys_struct_info
    struct_info ssi_field get_sys_struct_info_index is_valid_cpuid is_valid_pm sysstruct_smp_index
gives_context = refl

both-IsQueue : IsQueue with_both.mem head (only ∷ [])
both-IsQueue = record {
  links = (refl, refl, (refl, refl));
  distinct = ((inl (omega arith), tt), (tt, tt));
}

with_both-IsRoom : IsRoom with_both.mem slot head 0x2200_0088 0x2200_0040 (only ∷ [])
with_both-IsRoom = record {
  queue = both-IsQueue;
  at_slot = refl;
  far = (inl (omega arith), (inl (omega arith), tt));
  slot_task = inl (omega arith);
  slot_queue = (inl (omega arith), (inl (omega arith), tt));
  sp_task = inl (omega arith);
  sp_queue = (inl (omega arith), (inl (omega arith), tt));
  pc_task = inl (omega arith);
  pc_queue = (inl (omega arith), (inl (omega arith), tt));
  slot_sp = λ e. omega (arith, e);
  slot_pc = λ e. omega (arith, e);
}

create_task-IsCreated_example :
    (mem' : ℕ → ℕ) × Gives tt
      (record with_both { mem = mem' })
      (create_task hw 0xe004 2 0x1e00_0008 0x9000 2 2 planned)
    × IsCreated mem' head 0x2200_0088 0x2200_0040 0x9000 2 (only ∷ [])
create_task-IsCreated_example =
    create_task-IsCreated hw 0xe004 2 0x1e00_0008 0x9000 2 2 0x2200_0088 0x2200_0040 head
      (only ∷ []) planned with_task with_both hw-Drains (λ e. omega (arith, e))
      (λ e. omega (arith, e)) gives_task gives_context (record { free = refl; calm = inl refl })
      (λ e. omega (arith, e)) refl with_both-IsRoom

vectors-IsRoom : IsRoom linked slot head 0 0 (only ∷ [])
vectors-IsRoom = record {
  queue = linked-IsQueue;
  at_slot = refl;
  far = (inl (omega arith), (inl (omega arith), tt));
  slot_task = inr (omega arith);
  slot_queue = (inl (omega arith), (inl (omega arith), tt));
  sp_task = inr (omega arith);
  sp_queue = (inl (omega arith), (inl (omega arith), tt));
  pc_task = inr (omega arith);
  pc_queue = (inl (omega arith), (inl (omega arith), tt));
  slot_sp = λ e. omega (arith, e);
  slot_pc = λ e. omega (arith, e);
}

create_task-null_example :
    (mem' : ℕ → ℕ) × Gives tt
      (record queued { mem = mem' })
      (create_task hw 0xe004 1 0x1e00_0008 0x9000 2 2 queued)
    × IsCreated mem' head 0 0 0x9000 2 (only ∷ [])
create_task-null_example =
    create_task-null hw 0xe004 0 0x1e00_0008 0x9000 2 2 head (only ∷ []) queued {s = all_together}
      hw-Drains (record { free = refl; calm = inl refl }) refl (omega arith) (inr (inr (inr refl)))
      all_found refl (λ e. omega (arith, e)) (λ e. omega (arith, e)) (λ e. omega (arith, e)) refl
      vectors-IsRoom (inl (omega arith), (inl (omega arith), tt))
      (inl (omega arith), (inl (omega arith), tt)) (λ e. omega (arith, e)) (λ e. omega (arith, e))
