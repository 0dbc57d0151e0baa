-- ===== src/Lib.antt =====
-- The bare-metal kernel for the Raspberry Pi 2 of this repository: four cores that run apart (AMP)
-- or together (SMP), as the processing mode says, each with its own share of RAM, its own
-- translation table and its own range of ASIDs.
--
-- The program's parts, and the files here that model them. Names are those of the source.
--   Boot         boot.s from `_reset_` to the call of the kernel. Mode: supervisor mode. Vectors:
--                the vectors that core 0 moves. Reset and Ready: the stacks, and the whole start.
--                Irq, with Return: `_irq`, and interrupts that come while it runs.
--   Machine      what the functions share: sysinfo.h's structures, lock words, the control
--                registers, RAM as a function from addresses to words, and the writes to devices.
--                What a device register reads is the parameter `Hw`. A function is a step on the
--                machine that returns, waits for ever (`hang`), leaves an array's bounds (`fault`),
--                or runs out of fuel.
--   Uart         uart.c and the locks of cpu.c and boot.s, which call each other. Locks: what a
--                lock does on each core. Prints: what reaches the wire. Hex: `hexstring` read back.
--                Gives: calls described up to what they print. Setup: the set-up of the UART and
--                the timer, and the reads of their registers.
--   Cores        `inc_waking_cores` of cpu.c on any number of cores at the same time, with the
--                locks of boot.s instruction by instruction. Invariant: who has the lock.
--                Exclusion, Alone, Progress and Stuck: what follows from it, what a core does on
--                its own, and what its messages about the lock do. Refines: the locks of Uart and
--                these instructions.
--   Sysinfo      sysinfo.c and the counters of cpu.c. Modes: validity of modes, choice of an entry.
--                Change: `set_pm` and `change_pm`. Config and Init: sysconfs.c and `init_sysinfos`.
--                Partition: the areas. Asid, with Grant and Search: `take_kernel_asid` and
--                `set_user_asid`.
--   Mmu          mmu.c. Table: the loops over the 4096 sections. Entries: the descriptors. Access,
--                Shared and User: the three kinds of tables, for one core, for two to four cores
--                and for a task. Isolation: the tables of different cores together. Switch, with
--                Order and Start: the control registers, and the change to another table and ASID.
--   Init         init.c and main.c. Tables: `init_ttbs` fills the seven tables. Start: what the
--                cores run when they start. Clear and Primary, with Up and Booted: the start of
--                core 0. Cold and Secondary: the start of another core. Main: main.c.
--   Heap         util.c. Blocks, with Fit and Joined: the heap without its memory. Ring: the free
--                list in memory. Taken, Search and Malloc: `_malloc`. Join and Free: `_free`. Held
--                and Live: the heap in use. Return: `_malloc` and then `_free`. Empty: the heap as
--                the kernel sets it up. Bytes: `memset`, `memcpy` and `heap_init`.
--   Task         task.c: the map of the spaces that tasks run in. Move: `move_task_spaces`. Queue,
--                with Frame, Writes and Enqueue, and Unlink: the ready queues. Create, with Whole:
--                `create_task`. Asids, with Exclusive and Uses: tasks that take and give back
--                ASIDs.
--   Interrupt    interrupt.c: the dispatch of the 72 lines and the handler of the UART (Scan), the
--                exception vectors (Vectors), and `_svc_handler` of boot.s with `get_prid` of cpu.c
--                (Svc).
--   Multicore    multicore.c and experiment.c: mailboxes, and the start of cores 1 to 3.
--   Common       numbers, lists and bits. Tests: a machine, and each theorem at work on it.
--
-- How they interact: a mode and a core give an index into the table of seven entries (Sysinfo); the
-- entry gives areas, from which Init has Mmu fill one table for each entry, and ASIDs, which a
-- switch takes (Mmu.Switch). All print by Uart, which takes a lock once the MMU is on.
--
-- Integers are natural numbers with the wrap-around of uint32_t written out. A `SysStructInfo *` is
-- the index of its entry, a `TCB *` or a `HEADER *` an address. Memory is read and written by
-- words, and by bytes in `memset` and `memcpy`, the lowest byte of a word first. A read of
-- SYSStructTop, asid_head or m_ap_irq_handler out of bounds is a fault. Outside Cores one core is
-- seen at a time: a lock word that it would have to write itself is waited for without end, and
-- what other cores do in between is left out. In Cores a step is one access to memory, which all
-- cores see at once, the only function that cores run is `inc_waking_cores`, and a message about the
-- lock is a step that a core can make only if its messages return.
--
-- Fuel: the loops over sections take 4096, the number of sections; the bits of a register 32, its
-- width; the loops that wait for a device `polls` reads, which is enough by `Drains` where a
-- theorem says that the call returns; printing and locking call each other to depth 8, where two
-- locks in one another already end every chain; `_malloc` and `_free` take as fuel the blocks that
-- they may visit, of which there are fewer than the area has units; the loops of `other`, which
-- never end, take any number of rounds.
--
-- Not modelled: boot.s beyond what is named above (`_dabort`, and accessors that nothing calls);
-- psr.c, which nothing calls; the lines of main.c behind its endless loops; dispatcher.c, whose
-- code is commented out; the mask of the fast interrupts; barriers, and loops that only count down.
--
-- Words of the results: a console can be used (`Drains`, `IsQuiet`) if the transmitter reports
-- empty within `polls` reads, nobody has `uart_lock`, and the core is core 0 or has its MMU off. A
-- section is 1 MB, and section `q` begins at `q` MB.
mod Common
pub mod Boot
pub mod Cores
pub mod Heap
pub mod Init
pub mod Interrupt
pub mod Machine
pub mod Mmu
pub mod Multicore
pub mod Sysinfo
pub mod Task
pub mod Tests
pub mod Uart
