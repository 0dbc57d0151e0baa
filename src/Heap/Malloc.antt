-- ===== src/Heap/Malloc.antt =====
-- `_malloc` of util.c on a free list in memory.
use rpi2_baremetal.Common.{
  ℕ, ◌+◌, ◌-◌, ◌*◌, ◌^◌, ◌≤◌, ◌<◌, ◌≡◌, ◌⊎◌, inl, inr, refl, ◌∙◌, List, none, some, arith, ==_false,
  length,
}
use rpi2_baremetal.Machine.{Machine, Outcome, done, load}
use rpi2_baremetal.Heap.{heap_unit_size, units, malloc_loop, malloc_from}
use rpi2_baremetal.Heap.Blocks.{Block, first_fit}
use rpi2_baremetal.Heap.Blocks.Fit.{first_fit-IsGiven, IsGiven}
use rpi2_baremetal.Heap.Ring.{sentinel, IsHeap}
use rpi2_baremetal.Heap.Taken.{IsTaken}
use rpi2_baremetal.Heap.Search.{malloc_loop-Allocates}

-- How `_malloc` of a size ends on the free list `bs`: NULL and nothing changed, or the block of first
-- fit, behind its header; the rest is the free list then.
abbrev pub Malloced : ℕ → ℕ → ℕ → List Block → Machine → Outcome ℕ → Type 0
Malloced base limit nbytes bs m r =
    ((first_fit (units nbytes) bs ≡ none) × (r ≡ done 0 m))
    ⊎ ((a : Block) × (cs : List Block) × (mem' : ℕ → ℕ) × (first_fit (units nbytes) bs
          ≡ some (a, cs))
        × (r ≡ done (a.address + heap_unit_size) (record m { mem = mem' }))
        × IsGiven limit (base + heap_unit_size) (units nbytes) bs a cs
        × IsHeap mem' base limit cs
        × IsTaken m.mem mem' base (sentinel base) bs a cs)

pub units-positive : (nbytes : ℕ) → 0 < units nbytes
unfolding units
units-positive nbytes = omega arith

malloc_from-start :
    (base fuel nbytes : ℕ) (m : Machine) {first : ℕ}
    → 0 < base
    → m.mem base ≡ first
    → malloc_from fuel base base nbytes m ≡ malloc_loop fuel base base first (units nbytes) m
unfolding malloc_from load
malloc_from-start base fuel nbytes m positive ptr = rw (==_false base 0 (omega arith), ptr) refl

-- The free list is the blocks `bs`, and the fuel is for one block more: `_malloc` of any size takes
-- the first block that is big enough, or the tail of it, and leaves a free list of the other blocks,
-- in order and apart from the block that it gives; if there is none it returns NULL and changes
-- nothing. Outside the free blocks it changes no word but the list's head.
pub malloc_from-Malloced :
    (base limit fuel nbytes : ℕ) (bs : List Block) (m : Machine)
    → IsHeap m.mem base limit bs
    → length bs < fuel
    → Malloced base limit nbytes bs m (malloc_from fuel base base nbytes m)
malloc_from-Malloced base limit fuel nbytes bs m heap enough =
    let (size, ptr, links) = heap.linked in
    let start = malloc_from-start base fuel nbytes m heap.not_null ptr in
    let loop =
      malloc_loop-Allocates base limit (units nbytes) (units-positive nbytes) heap.in_range bs fuel
        (base + heap_unit_size) (sentinel base) m enough (omega arith) (omega arith) heap.ordered
        heap.linked size in
    elim loop [
      | inl (missing, null) ↦ inl (missing, start ∙ null)
      | inr (a, cs, mem', found, ret, taken) ↦
          let (given, _) =
            first_fit-IsGiven limit (base + heap_unit_size) (units nbytes) bs a cs
              (units-positive nbytes) heap.ordered found in
          inr (
            a,
            cs,
            mem',
            found,
            start ∙ ret,
            given,
            record {
              not_null = heap.not_null;
              in_range = heap.in_range;
              linked = taken.linked;
              ordered = given.ordered;
            },
            taken,
          )
    ]

-- The units are enough for the bytes and a header.
units-enough :
    (nbytes : ℕ)
    → nbytes + heap_unit_size - 1 < 2 ^ 32
    → nbytes + heap_unit_size ≤ units nbytes * heap_unit_size
unfolding units
units-enough nbytes small = omega arith

-- The free list is blocks between the head's header and `limit`, the fuel is for one block more,
-- and the size does not overflow when it is rounded up: `_malloc` returns, NULL or an address whose
-- `nbytes` bytes lie behind a header in that area.
pub malloc_from-InArea :
    (base limit fuel nbytes : ℕ) (bs : List Block) (m : Machine)
    → IsHeap m.mem base limit bs
    → length bs < fuel
    → nbytes + heap_unit_size - 1 < 2 ^ 32
    → (address : ℕ) × (m' : Machine) × (malloc_from fuel base base nbytes m ≡ done address m')
      × ((address ≡ 0)
          ⊎ ((base + 2 * heap_unit_size ≤ address) × (address + nbytes ≤ limit) × (limit < 2 ^ 32)))
malloc_from-InArea base limit fuel nbytes bs m heap enough small =
    elim (malloc_from-Malloced base limit fuel nbytes bs m heap enough) [
      | inl (missing, null) ↦ (0, m, null, inl refl)
      | inr (a, cs, mem', found, ret, given, heap', taken) ↦ (
        a.address + heap_unit_size,
        record m { mem = mem' },
        ret,
        inr (
          omega (arith, given.above),
          omega (arith, given.below, given.size, units-enough nbytes small),
          heap.in_range,
        ),
      )
    ]
