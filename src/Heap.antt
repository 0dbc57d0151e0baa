-- ===== src/Heap.antt =====
-- util.c: the kernel's allocator. A `HEADER *` is an address: the pointer is the word at it, the
-- size the word after; NULL is 0.
pub mod Blocks
pub mod Bytes
pub mod Empty
pub mod Free
pub mod Held
pub mod Join
pub mod Live
pub mod Malloc
pub mod Return
pub mod Search
pub mod Ring
pub mod Taken
use rpi2_baremetal.Common.{
  ltb, ◌&&◌, ◌||◌, sub32, ℕ, zero, suc, ◌+◌, ◌-◌, ◌*◌, ◌/◌, ◌%◌, ◌^◌, Bool, u32, sub32, leb, ◌==◌,
  if◌then◌else◌,
}
use rpi2_baremetal.Machine.{Machine, Hw, M, out_of_fuel, pure, ◌>>=◌, ◌>>◌, load, store, get_prid}
use rpi2_baremetal.Sysinfo.{
  get_pm, get_kernel_heap_bottom, get_kernel_heap_limit, get_kernel_heap_free_head,
}

abbrev pub heap_unit_size : ℕ
heap_unit_size = 8

-- The addresses of `p->s.ptr` and `p->s.size`.
abbrev pub header_ptr : ℕ → ℕ
header_ptr p = p

abbrev pub header_size : ℕ → ℕ
header_size p = p + 4

unfoldable pub units : ℕ → ℕ
units nbytes = u32 (nbytes + heap_unit_size - 1) / heap_unit_size + 1

-- The block `p` is big enough: it is taken whole, or its tail is.
unfoldable pub take_block : ℕ → ℕ → ℕ → M ℕ
take_block prevp p nunits = do
  size ← load (header_size p)
  if size == nunits
      then (do
        next ← load (header_ptr p)
        store (header_ptr prevp) next
        pure (u32 (p + heap_unit_size)))
      else (do
        store (header_size p) (size - nunits)
        let tail = u32 (p + (size - nunits) * heap_unit_size)
        store (header_size tail) nunits
        pure (u32 (tail + heap_unit_size)))

-- The `for` of `_malloc`; `fuel` bounds the blocks that it visits.
unfoldable pub malloc_loop : ℕ → ℕ → ℕ → ℕ → ℕ → M ℕ
malloc_loop zero freep prevp p nunits = λ _. out_of_fuel
malloc_loop (suc fuel) freep prevp p nunits = do
  size ← load (header_size p)
  if leb nunits size
      then take_block prevp p nunits
      else (if p == freep
          then pure 0
          else (do next ← load (header_ptr p); malloc_loop fuel freep p next nunits))

unfoldable pub malloc_from : ℕ → ℕ → ℕ → ℕ → M ℕ
malloc_from fuel base freep nbytes =
    if freep == 0
    then (do
      store (header_ptr base) base
      store (header_size base) 0
      first ← load (header_ptr base)
      malloc_loop fuel base base first (units nbytes))
    else (do first ← load (header_ptr freep); malloc_loop fuel freep freep first (units nbytes))

unfoldable pub kmalloc : Hw → ℕ → ℕ → M ℕ
kmalloc hw fuel nbytes = do
  pm ← get_pm
  cpuid ← get_prid
  _ ← get_kernel_heap_limit hw cpuid pm
  _ ← get_kernel_heap_bottom hw cpuid pm
  base ← get_kernel_heap_bottom hw cpuid pm
  freep ← get_kernel_heap_free_head hw cpuid pm
  malloc_from fuel base freep nbytes

-- The `for` of `_free`: the block of the list after which `p` goes; `fuel` bounds the search.
unfoldable pub free_find : ℕ → ℕ → ℕ → M ℕ
free_find zero p prevp = λ _. out_of_fuel
free_find (suc fuel) p prevp = do
  next ← load (header_ptr prevp)
  if ltb prevp p && ltb p next
      then pure prevp
      else (if leb next prevp && (ltb prevp p || ltb p next)
          then pure prevp
          else free_find fuel p next)

-- The rest of `_free`: `p` is joined with the block after it, then with the block before it.
unfoldable pub join_next : ℕ → ℕ → M (Unit {0})
join_next p prevp = do
  size ← load (header_size p)
  next ← load (header_ptr prevp)
  if u32 (p + size * heap_unit_size) == next
      then (do
        next_size ← load (header_size next)
        store (header_size p) (u32 (size + next_size))
        after ← load (header_ptr prevp) >>= λ n. load (header_ptr n)
        store (header_ptr p) after)
      else store (header_ptr p) next

unfoldable pub join_prev : ℕ → ℕ → M (Unit {0})
join_prev p prevp = do
  prev_size ← load (header_size prevp)
  if u32 (prevp + prev_size * heap_unit_size) == p
      then (do
        size ← load (header_size p)
        store (header_size prevp) (u32 (prev_size + size))
        after ← load (header_ptr p)
        store (header_ptr prevp) after)
      else store (header_ptr prevp) p

unfoldable pub free_join : ℕ → ℕ → M (Unit {0})
free_join p prevp = do join_next p prevp; join_prev p prevp

unfoldable pub free_to : ℕ → ℕ → ℕ → M (Unit {0})
free_to fuel freep ap = do
  let p = sub32 ap heap_unit_size
  prevp ← free_find fuel p freep
  free_join p prevp

unfoldable pub kfree : Hw → ℕ → ℕ → M (Unit {0})
kfree hw fuel ap = do
  pm ← get_pm
  cpuid ← get_prid
  freep ← get_kernel_heap_free_head hw cpuid pm
  free_to fuel freep ap
