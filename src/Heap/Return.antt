-- ===== src/Heap/Return.antt =====
-- `_malloc` and then `_free` of util.c, on a heap whose free list has been set up.
use rpi2_baremetal.Common.{ℕ, ◌+◌, ◌/◌, ◌<◌, ◌≡◌, sym, inl, inr, ◌∙◌, List, some, arith}
use rpi2_baremetal.Machine.{Machine, done}
use rpi2_baremetal.Heap.{heap_unit_size, units, malloc_from, free_to}
use rpi2_baremetal.Heap.Blocks.{Block, first_fit}
use rpi2_baremetal.Heap.Blocks.Fit.{first_fit-IsGiven}
use rpi2_baremetal.Heap.Ring.{IsHeap}
use rpi2_baremetal.Heap.Malloc.{malloc_from-Malloced, units-positive}
use rpi2_baremetal.Heap.Free.{free_to-IsHeap}
use rpi2_baremetal.Heap.Held.{IsOrdered-length}

-- The free list is the blocks `bs` with its head at `base`, one of them is big enough for the size,
-- and the fuel is more than the limit has units: `_malloc` returns an address, `_free` of it
-- returns, and the free list is then `bs` again, whether a whole block or the tail of one was taken.
pub free_to-malloc_from :
    (base limit fuel nbytes : ℕ) (bs : List Block) (m : Machine) {b : Block} {rest : List Block}
    → IsHeap m.mem base limit bs
    → limit / heap_unit_size < fuel
    → first_fit (units nbytes) bs ≡ some (b, rest)
    → (address : ℕ) × (mem' : ℕ → ℕ) × (mem'' : ℕ → ℕ) × (malloc_from fuel base base nbytes m
        ≡ done address (record m { mem = mem' }))
      × (free_to fuel base address (record m { mem = mem' }) ≡ done tt (record m { mem = mem'' }))
      × IsHeap mem'' base limit bs
free_to-malloc_from base limit fuel nbytes bs m heap enough fits =
    elim (malloc_from-Malloced base limit fuel nbytes bs m heap
      (omega (arith, IsOrdered-length limit (base + heap_unit_size) bs heap.ordered))) [
        | inl (missing, null) ↦ absurd (ground (arith, sym missing ∙ fits))
        | inr (a, cs, mem', found, ret, given, heap', taken) ↦
            let (_, back) =
              first_fit-IsGiven limit (base + heap_unit_size) (units nbytes) bs a cs
                (units-positive nbytes) heap.ordered found in
            let (mem'', e, restored, freed) =
              free_to-IsHeap base limit fuel a cs (record m { mem = mem' }) heap'
                (omega (arith, IsOrdered-length limit (base + heap_unit_size) cs given.ordered))
                (record {
                  above = given.above;
                  some_size = omega (arith, given.size, units-positive nbytes);
                  below = given.below;
                  apart = given.apart;
                })
                taken.size in
            (a.address + heap_unit_size, mem', mem'', ret, e, rw back at restored)
      ]
