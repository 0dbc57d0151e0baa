-- ===== src/Heap/Empty.antt =====
-- `kmalloc` as the kernel is set up: the free list is empty, and it stays so.
use rpi2_baremetal.Common.{
  ℕ, suc, ◌+◌, ◌<◌, ◌≡◌, refl, ◌∙◌, some, get_elem?, length, arith, true, false, leb, ◌==◌,
}
use rpi2_baremetal.Machine.{
  Machine, SysStructInfo, Hw, done, update, load, store, get_prid, bind-done,
}
use rpi2_baremetal.Sysinfo.{
  get_pm, get_sys_struct_info, struct_info, ssi_field, get_kernel_heap_bottom,
  get_kernel_heap_limit, get_kernel_heap_free_head,
}
use rpi2_baremetal.Sysinfo.Modes.{IsMode, index_of, get_sys_struct_info-valid, struct_info-some}
use rpi2_baremetal.Heap.{units, malloc_loop, malloc_from, kmalloc}

-- A field of the entry of a valid core and mode.
pub ssi_field-valid :
    {A : Type 0} (hw : Hw) (f : SysStructInfo → A) (cpuid pm : ℕ) (m : Machine) {s : SysStructInfo}
    → length m.structs ≡ 7
    → cpuid < 4
    → IsMode pm
    → get_elem? m.structs (index_of cpuid pm) ≡ some s
    → ssi_field hw f cpuid pm m ≡ done (f s) m
unfolding ssi_field
ssi_field-valid hw f cpuid pm m {s} seven lt valid found =
    bind-done (get_sys_struct_info hw cpuid pm) _ m
      (get_sys_struct_info-valid hw cpuid pm m seven lt valid)
    ∙ bind-done (struct_info (index_of cpuid pm)) _ m (struct_info-some (index_of cpuid pm) m found)

-- The memory after the header at `base` is made a list of itself, of size 0.
abbrev pub self_ring : (ℕ → ℕ) → ℕ → ℕ → ℕ
self_ring mem base = update (update mem base base) (base + 4) 0

malloc_from-empty :
    (fuel base nbytes : ℕ) (m : Machine)
    → malloc_from (suc fuel) base 0 nbytes m ≡ done 0 (record m { mem = self_ring m.mem base })
unfolding malloc_from malloc_loop units load store
malloc_from-empty fuel base nbytes m =
    let apart : (base + 4 == base) ≡ false = ground arith in
    let same : (base == base) ≡ true = ground arith in
    let itself : (base + 4 == base + 4) ≡ true = ground arith in
    let small : leb (units nbytes) 0 ≡ false = unfold units in ground arith in
    rw (apart, same, itself) (rw small (rw same refl))

-- `kmalloc` works on the heap of the entry of the running core and mode.
module _ (hw : Hw) (fuel : ℕ) (m : Machine) {s : SysStructInfo} (seven : length m.structs ≡ 7)
    (lt : m.cpu < 4) (valid : IsMode m.common.pm)
    (found : get_elem? m.structs (index_of m.cpu m.common.pm) ≡ some s) where
  field : {A : Type 0} (f : SysStructInfo → A) → ssi_field hw f m.cpu m.common.pm m ≡ done (f s) m
  field f = ssi_field-valid hw f m.cpu m.common.pm m seven lt valid found

  kmalloc-malloc_from :
      (nbytes : ℕ)
      → kmalloc hw fuel nbytes m
        ≡ malloc_from fuel s.kernel_heap_area.bottom s.kernel_heap_freep nbytes m
  unfolding kmalloc get_pm get_prid get_kernel_heap_bottom get_kernel_heap_limit
      get_kernel_heap_free_head
  kmalloc-malloc_from nbytes =
      bind-done (get_kernel_heap_limit hw m.cpu m.common.pm) _ m
        (field (λ ssi. ssi.kernel_heap_area.limit))
      ∙ (bind-done (get_kernel_heap_bottom hw m.cpu m.common.pm) _ m
            (field (λ ssi. ssi.kernel_heap_area.bottom))
          ∙ (bind-done (get_kernel_heap_bottom hw m.cpu m.common.pm) _ m
                (field (λ ssi. ssi.kernel_heap_area.bottom))
              ∙ bind-done (get_kernel_heap_free_head hw m.cpu m.common.pm) _ m
                  (field (λ ssi. ssi.kernel_heap_freep))))

-- The core that runs has a valid number and mode, whose entry in the table of seven has no free
-- list, as `init_sysinfos` leaves it: whatever the size, `kmalloc` returns NULL, with fuel for one
-- block. It writes an empty header at the bottom of the heap and nothing else; the entry keeps its
-- null pointer.
pub kmalloc-null :
    (hw : Hw) (fuel nbytes : ℕ) (m : Machine) {s : SysStructInfo}
    → length m.structs ≡ 7
    → m.cpu < 4
    → IsMode m.common.pm
    → get_elem? m.structs (index_of m.cpu m.common.pm) ≡ some s
    → s.kernel_heap_freep ≡ 0
    → kmalloc hw (suc fuel) nbytes m
      ≡ done 0 (record m { mem = self_ring m.mem s.kernel_heap_area.bottom })
kmalloc-null hw fuel nbytes m {s} seven lt valid found null =
    kmalloc-malloc_from hw (suc fuel) m seven lt valid found nbytes
    ∙ rw null (malloc_from-empty fuel s.kernel_heap_area.bottom nbytes m)
