-- ===== src/Tests/Heaps.antt =====
-- The theorems on the heap at a concrete one: its head, a block of 4 units, then one of 20.
use rpi2_baremetal.Common.{
  ℕ, ◌+◌, ◌*◌, ◌^◌, ◌<◌, ◌≤◌, ◌≡◌, refl, ◌⊎◌, inl, inr, List, [], ◌∷◌, ◌==◌, if◌then◌else◌, some,
  arith,
}
use rpi2_baremetal.Machine.{Machine, SysStructInfo, done, update, load, store}
use rpi2_baremetal.Sysinfo.Config.{area}
use rpi2_baremetal.Sysinfo.Init.{entry}
use rpi2_baremetal.Heap.{heap_unit_size, units, take_block, malloc_loop, malloc_from, free_to}
use rpi2_baremetal.Heap.Blocks.{Block, release, first_fit}
use rpi2_baremetal.Heap.Blocks.Joined.{CanJoin}
use rpi2_baremetal.Heap.Ring.{sentinel, IsHeap}
use rpi2_baremetal.Heap.Malloc.{Malloced, malloc_from-Malloced, malloc_from-InArea}
use rpi2_baremetal.Heap.Free.{IsFreed, free_to-IsHeap}
use rpi2_baremetal.Heap.Live.{Reach, start, step, gives, IsSound, Reach-IsSound}
use rpi2_baremetal.Heap.Bytes.{memcpy, IsCopied, memcpy-IsCopied}
use rpi2_baremetal.Heap.Return.{free_to-malloc_from}
use rpi2_baremetal.Tests.{machine}

abbrev pub base : ℕ
base = 0x2200_0000

abbrev limit : ℕ
limit = 0x23ff_ffff

abbrev small : Block
small = record { address = 0x2200_0008; size = 4 }

abbrev large : Block
large = record { address = 0x2200_0068; size = 20 }

-- A block that is not free, right after the small one.
abbrev used : Block
used = record { address = 0x2200_0028; size = 3 }

abbrev blocks : List Block
blocks = small ∷ large ∷ []

abbrev words : ℕ → ℕ
words a =
    if a == 0x2200_0000
    then 0x2200_0008
    else (if a == 0x2200_0008
        then 0x2200_0068
        else (if a == 0x2200_000c
            then 4
            else (if a == 0x2200_0068
                then 0x2200_0000
                else (if a == 0x2200_006c then 20 else (if a == 0x2200_002c then 3 else 0)))))

abbrev pub heap_entry : SysStructInfo
heap_entry =
    record (entry 0x2_0000 4 (area 0x1f00_0000 0x21ff_ffff) (area 0x2200_0000 0x23ff_ffff)
      (area 0x2400_0000 0x3eff_ffff) (area 0 256) 431) { kernel_heap_freep = base }

abbrev heap_machine : Machine
heap_machine = record (machine 0 1) {
  mem = words;
  structs =
      heap_entry ∷ heap_entry ∷ heap_entry ∷ heap_entry ∷ heap_entry ∷ heap_entry ∷ heap_entry ∷ [];
}

blocks-IsHeap : IsHeap words base limit blocks
blocks-IsHeap = record {
  not_null = omega arith;
  in_range = omega arith;
  linked = (refl, refl, (refl, refl, (refl, refl, tt)));
  ordered = (omega arith, omega arith, omega arith, (omega arith, omega arith, omega arith, tt));
}

malloc_from-Malloced_example :
    Malloced base limit 40 blocks heap_machine (malloc_from 3 base base 40 heap_machine)
malloc_from-Malloced_example =
    malloc_from-Malloced base limit 3 40 blocks heap_machine blocks-IsHeap (omega arith)

malloc_from-InArea_example :
    (address : ℕ) × (m' : Machine) × (malloc_from 3 base base 24 heap_machine ≡ done address m')
    × ((address ≡ 0)
        ⊎ ((base + 2 * heap_unit_size ≤ address) × (address + 24 ≤ limit) × (limit < 2 ^ 32)))
malloc_from-InArea_example =
    malloc_from-InArea base limit 3 24 blocks heap_machine blocks-IsHeap (omega arith) (omega arith)

used-CanJoin : CanJoin limit (base + heap_unit_size) used blocks
used-CanJoin = record {
  above = omega arith;
  some_size = omega arith;
  below = omega arith;
  apart = (inr (omega arith), (inl (omega arith), tt));
}

free_to-IsHeap_example :
    (mem' : ℕ → ℕ) × (free_to 3 base 0x2200_0030 heap_machine
      ≡ done tt (record heap_machine { mem = mem' }))
    × IsHeap mem' base limit (release used blocks)
    × IsFreed words mem' base (sentinel base) used blocks
free_to-IsHeap_example =
    free_to-IsHeap base limit 3 used blocks heap_machine blocks-IsHeap (omega arith) used-CanJoin
      refl

abbrev after_taking : Machine
after_taking = record heap_machine { mem = update words base 0x2200_0068 }

took :
    Reach base 0x500_0000 heap_machine after_taking
      (record { address = 0x2200_0008; size = units 24 } ∷ [])
unfolding malloc_from malloc_loop take_block units load store
took = step start (gives 24 0x2200_0008 refl)

Reach-IsSound_example :
    IsSound base limit 24 after_taking (record { address = 0x2200_0008; size = units 24 } ∷ [])
Reach-IsSound_example =
    Reach-IsSound base limit 0x500_0000 blocks heap_machine blocks-IsHeap (omega arith) took

abbrev rest_of_large : Block
rest_of_large = record { address = 0x2200_0068; size = 14 }

fits :
    first_fit (units 40) blocks
    ≡ some (record { address = 0x2200_00d8; size = 6 }, small ∷ rest_of_large ∷ [])
unfolding first_fit units
fits = refl

free_to-malloc_from_example :
    (address : ℕ) × (mem' : ℕ → ℕ) × (mem'' : ℕ → ℕ) × (malloc_from 0x500_0000 base base 40
        heap_machine
      ≡ done address (record heap_machine { mem = mem' }))
    × (free_to 0x500_0000 base address (record heap_machine { mem = mem' })
        ≡ done tt (record heap_machine { mem = mem'' }))
    × IsHeap mem'' base limit blocks
free_to-malloc_from_example =
    free_to-malloc_from base limit 0x500_0000 40 blocks heap_machine blocks-IsHeap (omega arith)
      fits

memcpy-IsCopied_example :
    (mem' : ℕ → ℕ) × (memcpy 0x2200_0001 0x2200_0003 6 heap_machine
      ≡ done 0x2200_0001 (record heap_machine { mem = mem' }))
    × IsCopied words mem' 0x2200_0001 0x2200_0003 6
memcpy-IsCopied_example =
    memcpy-IsCopied 0x2200_0001 0x2200_0003 6 heap_machine (omega arith) (omega arith)
      (inl (omega arith))
