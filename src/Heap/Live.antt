-- ===== src/Heap/Live.antt =====
-- The heap of util.c in use: blocks are given, given back, and written by those who hold them.
use rpi2_baremetal.Common.{
  Picked, ℕ, ◌+◌, ◌/◌, ◌≤◌, ◌<◌, ◌≡◌, inl, inr, sym, ap, ap₂, ◌∙◌, List, [], ◌∷◌, some, arith,
  length,
}
use rpi2_baremetal.Machine.{done-value, done-machine, Machine, done, store}
use rpi2_baremetal.Heap.{heap_unit_size, units, malloc_from, free_to}
use rpi2_baremetal.Heap.Blocks.{Block, end, IsOrdered, release, first_fit}
use rpi2_baremetal.Heap.Blocks.Fit.{first_fit-IsGiven}
use rpi2_baremetal.Heap.Ring.{IsHeap, update-other}
use rpi2_baremetal.Heap.Malloc.{malloc_from-Malloced, units-positive}
use rpi2_baremetal.Heap.Free.{free_to-IsHeap}
use rpi2_baremetal.Heap.Held.{
  total, AllHeld, release-total, Picked-total, IsOrdered-length, AllApart-outside, Picked-IsHeld,
  AllHeld-given, AllHeld-freed, AllHeld-written, IsLinked-written,
}

-- A use of the heap, with the blocks that are held before and after it. The holder of a block may
-- write every word of it behind the header.
pub data Step (base fuel : ℕ) (m : Machine) (live : List Block) (m' : Machine)
    : List Block → Type 0 where
  gives :
      (nbytes address : ℕ)
      → malloc_from fuel base base nbytes m ≡ done (address + heap_unit_size) m'
      → Step base fuel m live m' (record { address = address; size = units nbytes } ∷ live)
  refuses :
      (nbytes : ℕ) → malloc_from fuel base base nbytes m ≡ done 0 m' → Step base fuel m live m' live
  takes_back :
      (b : Block) {rest : List Block}
      → Picked b live rest
      → free_to fuel base (b.address + heap_unit_size) m ≡ done tt m'
      → Step base fuel m live m' rest
  writes :
      (b : Block) {rest : List Block} (x v : ℕ)
      → Picked b live rest
      → b.address + heap_unit_size ≤ x
      → x < end b
      → store x v m ≡ done tt m'
      → Step base fuel m live m' live

-- The machines that uses of the heap lead to, with the blocks held.
pub data Reach (base fuel : ℕ) (m : Machine) : Machine → List Block → Type 0 where
  start : Reach base fuel m m []
  step :
      {m' m'' : Machine} {live live' : List Block}
      → Reach base fuel m m' live
      → Step base fuel m' live m'' live'
      → Reach base fuel m m'' live'

-- The free list is whole, the held blocks are sound, and together they have `count` units.
pub record IsSound (base limit count : ℕ) (m : Machine) (live : List Block) : Type 0 where
  pub free : List Block
  pub heap : IsHeap m.mem base limit free
  pub held : AllHeld base limit m.mem free live
  pub all_units : total free + total live ≡ count

given-total :
    (limit low n : ℕ) (bs cs : List Block) (a : Block)
    → 0 < n
    → IsOrdered limit low bs
    → first_fit n bs ≡ some (a, cs)
    → total bs ≡ a.size + total cs
given-total limit low n bs cs a positive ordered found =
    let (given, back) = first_fit-IsGiven limit low n bs a cs positive ordered found in
    ap total (sym back) ∙ release-total a cs

module _ (base limit count fuel : ℕ) (enough : limit / heap_unit_size < fuel) where
  fits-fuel : (bs : List Block) → IsOrdered limit (base + heap_unit_size) bs → length bs < fuel
  fits-fuel bs ordered = omega (arith, IsOrdered-length limit (base + heap_unit_size) bs ordered)

  given-IsSound :
      (nbytes address : ℕ) (m m' : Machine) (live : List Block)
      → IsSound base limit count m live
      → malloc_from fuel base base nbytes m ≡ done (address + heap_unit_size) m'
      → IsSound base limit count m' (record { address = address; size = units nbytes } ∷ live)
  given-IsSound nbytes address m m' live sound ran =
      elim (malloc_from-Malloced base limit fuel nbytes sound.free m sound.heap
        (fits-fuel sound.free sound.heap.ordered)) [
          | inl (missing, null) ↦ absurd (omega (arith, done-value (sym ran ∙ null)))
          | inr (a, cs, mem', found, ret, given, heap, taken) ↦
              let at_a : address ≡ a.address = omega (arith, done-value (sym ran ∙ ret)) in
              let same : record { address = address; size = units nbytes } ≡ a =
                ap₂ (λ x y. record { address = x; size = y }) at_a (sym given.size) in
              let (held, apart) =
                AllHeld-given base limit (units nbytes) m.mem mem' sound.free cs a live given taken
                  sound.held in
              rw (done-machine (sym ran ∙ ret), same)
                (record {
                  free = cs;
                  heap = heap;
                  held = (
                    record {
                      above = given.above;
                      some_size = omega (arith, given.size, units-positive nbytes);
                      below = given.below;
                      apart = given.apart;
                    },
                    taken.size,
                    apart,
                    held,
                  );
                  all_units = omega (
                    arith,
                    given-total limit (base + heap_unit_size) (units nbytes) sound.free cs a
                        (units-positive nbytes) sound.heap.ordered found,
                    sound.all_units,
                  );
                })
        ]

  refused-IsSound :
      (nbytes : ℕ) (m m' : Machine) (live : List Block)
      → IsSound base limit count m live
      → malloc_from fuel base base nbytes m ≡ done 0 m'
      → IsSound base limit count m' live
  refused-IsSound nbytes m m' live sound ran =
      elim (malloc_from-Malloced base limit fuel nbytes sound.free m sound.heap
        (fits-fuel sound.free sound.heap.ordered)) [
          | inl (missing, null) ↦ rw (done-machine (sym ran ∙ null)) sound
          | inr (a, cs, mem', found, ret, given, heap, taken) ↦
              absurd (omega (arith, done-value (sym ran ∙ ret)))
        ]

  returned-IsSound :
      (b : Block) (m m' : Machine) (live rest : List Block)
      → IsSound base limit count m live
      → Picked b live rest
      → free_to fuel base (b.address + heap_unit_size) m ≡ done tt m'
      → IsSound base limit count m' rest
  returned-IsSound b m m' live rest sound pick ran =
      let (this, apart, others) = Picked-IsHeld base limit {mem = m.mem} pick sound.held in
      let (mem', ret, heap, freed) =
        free_to-IsHeap base limit fuel b sound.free m sound.heap
          (fits-fuel sound.free sound.heap.ordered) this.can this.size in
      rw (done-machine (sym ran ∙ ret)) (record {
        free = release b sound.free;
        heap = heap;
        held =
            AllHeld-freed base limit m.mem mem' sound.free b rest this.can.some_size apart freed
              others;
        all_units = omega (arith, release-total b sound.free, Picked-total pick, sound.all_units);
      })

  written-IsSound :
      (b : Block) (x v : ℕ) (m m' : Machine) (live rest : List Block)
      → IsSound base limit count m live
      → Picked b live rest
      → b.address + heap_unit_size ≤ x
      → x < end b
      → store x v m ≡ done tt m'
      → IsSound base limit count m' live
  unfolding store
  written-IsSound b x v m m' live rest sound pick le lt ran =
      let (this, apart, others) = Picked-IsHeld base limit {mem = m.mem} pick sound.held in
      let (size, ptr, links) = sound.heap.linked in
      rw (sym (done-machine ran)) (record {
        free = sound.free;
        heap = record {
          not_null = sound.heap.not_null;
          in_range = sound.heap.in_range;
          linked = (
            update-other m.mem x v (base + 4) (omega (arith, this.can.above)) ∙ size,
            update-other m.mem x v base (omega (arith, this.can.above)) ∙ ptr,
            IsLinked-written m.mem base limit (base + heap_unit_size) sound.free x v
                sound.heap.ordered (AllApart-outside b sound.free x this.can.apart (omega arith) lt)
                links,
          );
          ordered = sound.heap.ordered;
        };
        held = AllHeld-written base limit m.mem sound.free b x v pick le lt sound.held;
        all_units = sound.all_units;
      })

  Step-IsSound :
      {m m' : Machine} {live live' : List Block}
      → Step base fuel m live m' live'
      → IsSound base limit count m live
      → IsSound base limit count m' live'
  Step-IsSound {m} {m'} {live} (gives nbytes address ran) sound =
      given-IsSound nbytes address m m' live sound ran
  Step-IsSound {m} {m'} {live} (refuses nbytes ran) sound =
      refused-IsSound nbytes m m' live sound ran
  Step-IsSound {m} {m'} {live} (takes_back b {rest} pick ran) sound =
      returned-IsSound b m m' live rest sound pick ran
  Step-IsSound {m} {m'} {live} (writes b {rest} x v pick le lt ran) sound =
      written-IsSound b x v m m' live rest sound pick le lt ran

-- The heap starts with the free blocks `bs` and none held. However blocks are then given, given back
-- and written behind their headers by those who hold them, the free list stays a ring of blocks in
-- order; every held block is in the area, apart from the free blocks and from the other held ones,
-- with its size in its header; and no unit is lost.
pub Reach-IsSound :
    (base limit fuel : ℕ) (bs : List Block) (m : Machine) {m' : Machine} {live : List Block}
    → IsHeap m.mem base limit bs
    → limit / heap_unit_size < fuel
    → Reach base fuel m m' live
    → IsSound base limit (total bs) m' live
Reach-IsSound base limit fuel bs m heap enough start = record {
  free = bs;
  heap = heap;
  held = tt;
  all_units = omega arith;
}
Reach-IsSound base limit fuel bs m heap enough (step reach next) =
    Step-IsSound base limit (total bs) fuel enough next
      (Reach-IsSound base limit fuel bs m heap enough reach)
