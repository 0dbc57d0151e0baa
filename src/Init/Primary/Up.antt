-- ===== src/Init/Primary/Up.antt =====
-- Core 0 from `init_ttbs` on: the tables, the MMU, and the kernel up to the wait for the others.
use rpi2_baremetal.Common.{
  ℕ, suc, ◌+◌, ◌%◌, ◌^◌, ◌<◌, ◌≡◌, refl, ap, ◌∙◌, inl, ◌∷◌, some, get_elem?, get_elem?-IsSome,
  arith, bit_and, bit_or, ==_true,
}
use rpi2_baremetal.Machine.{
  Machine, SysStructInfo, Bus, Hw, M, done, ◌>>◌, update, common_lock, smp_queue_lock, load, store,
  get_prid, maintain, caches, tlb_all, bind-done, then-done,
}
use rpi2_baremetal.Uart.{spin_req, spin_rel}
use rpi2_baremetal.Uart.Locks.{spin_req-core0, spin_rel-core0}
use rpi2_baremetal.Uart.Prints.{Drains}
use rpi2_baremetal.Sysinfo.{
  get_pm, get_prev_pm, get_sys_struct_info, struct_info, inc_waking_cores, common_info,
  set_common_info,
}
use rpi2_baremetal.Sysinfo.Init.{configured, configured-length, unlocked}
use rpi2_baremetal.Sysinfo.Modes.{index_of, index-lt, get_sys_struct_info-valid}
use rpi2_baremetal.Mmu.Switch.{
  init_mmu, stop_mmu, get_sctlr, set_sctlr, set_control, invalidate_caches, invalidate_all_tlbs,
  start_mmu_no_lock,
}
use rpi2_baremetal.Mmu.Switch.Start.{started, start_mmu_no_lock-IsOn}
use rpi2_baremetal.Heap.Empty.{self_ring, kmalloc-null}
use rpi2_baremetal.Heap.{kmalloc}
use rpi2_baremetal.Multicore.{start_secondary_core}
use rpi2_baremetal.Multicore.Start.{start_secondary_core-Ends}
use rpi2_baremetal.Init.{init_ttbs}
use rpi2_baremetal.Init.Tables.{init_ttbs-FillsAll, AllFilled}
use rpi2_baremetal.Init.Start.{clear_queue_lock}
use rpi2_baremetal.Init.Primary.{IsAtReset, prepared, rest, kernel_then}

-- Core 0 counts itself.
inc_waking_cores-core0 :
    (hw : Hw) (m : Machine)
    → m.cpu ≡ 0
    → m.lock common_lock ≡ 0
    → inc_waking_cores hw m
      ≡ done tt (record m {
        lock = update (update m.lock common_lock 1) common_lock 0;
        common = record (m.common) { waking_cores = (m.common.waking_cores + 1) % 2 ^ 32 };
      })
unfolding inc_waking_cores spin_req spin_rel common_info set_common_info
inc_waking_cores-core0 hw m core free =
    then-done (spin_req hw common_lock) _ m (spin_req-core0 hw 7 common_lock m core free)
    ∙ spin_rel-core0 hw 7 common_lock _ core refl

-- The machine after `init_mmu`.
abbrev pub readied : Machine → Machine
readied m = record m {
  cp15 = record (m.cp15) {
    sctlr = bit_and m.cp15.sctlr 0xffff_e7d8;
    actlr = bit_or m.cp15.actlr 0x40;
    dacr = 0xffff_ffff;
    ttbcr = 0;
  };
  maintenance = tlb_all ∷ caches ∷ m.maintenance;
}

init_mmu-readied : (m : Machine) → init_mmu m ≡ done tt (readied m)
unfolding init_mmu stop_mmu get_sctlr set_sctlr set_control invalidate_caches invalidate_all_tlbs
    maintain
init_mmu-readied m = refl

module _ (hw : Hw) (map fuel entry limit cpsr b first n : ℕ) (m : Machine)
    (reset : IsAtReset b map first n m) where
  -- The machine once the MMU is on and core 0 has counted itself.
  abbrev pub awake : ℕ → (ℕ → ℕ) → Bus → Machine
  awake ttba mem bus =
      let on = started ttba (readied (prepared mem bus m)) in
      record on {
        lock = update (update on.lock common_lock 1) common_lock 0;
        common = record (m.common) { waking_cores = (m.common.waking_cores + 1) % 2 ^ 32 };
      }

  pub found_entry :
      (s : SysStructInfo) × (get_elem? (configured m.common.base_ttba) (index_of 0 m.common.pm)
        ≡ some s)
  found_entry = get_elem?-IsSome (configured m.common.base_ttba) (index_of 0 m.common.pm) (
      omega
        (arith, configured-length m.common.base_ttba, index-lt hw 0 m.common.pm m (omega arith)))

  pub bring_up :
      Drains hw
      → (mem : ℕ → ℕ) (bus : Bus)
      → (new : ℕ → ℕ) × (bus' : Bus) × AllFilled b 0 mem new
        × ((k : M (Unit {0}))
            → rest hw map fuel entry limit cpsr k (prepared mem bus m)
              ≡ kernel_then hw map fuel entry limit cpsr k (awake found_entry.0.ttba new bus'))
  unfolding get_prid get_pm unlocked
  bring_up live mem bus =
      let ready = prepared mem bus m in
      let (new, (bus1, e1), filled) =
        init_ttbs-FillsAll hw m.common.base_ttba b ready live
          (record { entries = refl; quiet = record { free = refl; calm = inl reset.core } })
          reset.at_base (omega (arith, reset.room)) in
      let cold = readied (prepared new bus1 m) in
      let ((bus2, e2), on) =
        start_mmu_no_lock-IsOn hw cpsr m.common.pm cold live
          (record { free = refl; calm = inl reset.core }) reset.core
          (configured-length m.common.base_ttba) reset.mode found_entry.1 in
      let hot = started found_entry.0.ttba (readied (prepared new bus2 m)) in
      (
        new,
        bus2,
        filled,
        λ k.
            then-done (init_ttbs hw) _ ready e1
            ∙ (then-done init_mmu _ (prepared new bus1 m) (init_mmu-readied (prepared new bus1 m))
                ∙ (ap
                      (λ (c : ℕ).
                        (do
                          start_mmu_no_lock hw cpsr c m.common.pm
                          inc_waking_cores hw
                          kernel_then hw map fuel entry limit cpsr k)
                          cold)
                      reset.core
                    ∙ (then-done (start_mmu_no_lock hw cpsr 0 m.common.pm) _ cold e2
                        ∙ then-done (inc_waking_cores hw) _ hot
                            (inc_waking_cores-core0 hw hot reset.core reset.free)))),
      )

  abbrev pub heap_bottom : ℕ
  heap_bottom = found_entry.0.kernel_heap_area.bottom

  -- The machine in which core 0 begins to wait for the others.
  abbrev pub waiting : (ℕ → ℕ) → Bus → Machine
  waiting mem bus =
      let on = awake found_entry.0.ttba mem bus in
      record on {
        lock = update on.lock smp_queue_lock 0;
        mem = update (self_ring mem heap_bottom) map 0;
      }

  pub kernel_up :
      (left : ℕ) (mem : ℕ → ℕ) (bus : Bus)
      → Drains hw
      → mem map ≡ 0
      → found_entry.0.kernel_heap_freep ≡ 0
      → (bus' : Bus) × ((k : M (Unit {0}))
          → kernel_then hw map (suc left) entry limit cpsr k (awake found_entry.0.ttba mem bus)
            ≡ k (waiting mem bus'))
  unfolding get_prid get_pm get_prev_pm clear_queue_lock load store configured unlocked struct_info
  kernel_up left mem bus live null no_list =
      let on = awake found_entry.0.ttba mem bus in
      let start : Machine = record on { lock = update on.lock smp_queue_lock 0 } in
      let empty : Machine = record start { mem = self_ring mem heap_bottom } in
      let mapped : Machine = record start { mem = update (self_ring mem heap_bottom) map 0 } in
      let found : get_elem? start.structs (index_of start.cpu start.common.pm)
          ≡ some found_entry.0 =
        ap (λ (c : ℕ). get_elem? start.structs (index_of c m.common.pm)) reset.core
        ∙ found_entry.1 in
      let small : start.cpu < 4 = omega (arith, reset.core) in
      let (ok, (bus', e), tells) =
        start_secondary_core-Ends hw entry limit mapped live
          (record { free = refl; calm = inl reset.core }) in
      (
        bus',
        λ k. rw (==_true m.cpu 0 reset.core) (
            bind-done (get_sys_struct_info hw start.cpu start.common.pm) _ start (
              get_sys_struct_info-valid hw start.cpu start.common.pm start
                (configured-length m.common.base_ttba) small reset.mode)
            ∙ rw (==_true (mem map) 0 null) (
                bind-done (kmalloc hw (suc left) 760) _ start (
                  kmalloc-null hw left 760 start (configured-length m.common.base_ttba) small
                    reset.mode found no_list)
                ∙ bind-done (start_secondary_core hw entry limit) _ mapped e)),
      )
