-- ===== src/Task/Move.antt =====
-- `move_task_spaces` takes `smp_queue_lock` twice.
use rpi2_baremetal.Common.{
  ℕ, zero, suc, ◌+◌, ◌/◌, ◌<◌, ◌≡◌, ◌≤◌, refl, sym, ap, ◌≢◌, inl, inr, arith, some, get_elem?,
  length, sub32, ◌==◌, Bool-cases, ◌∙◌,
}
use rpi2_baremetal.Machine.{
  Machine, SysStructInfo, Hw, hang, load, get_prid, smp_queue_lock, bind-done, then-done, then-hang,
}
use rpi2_baremetal.Uart.{raw_spin_req, spin_req, spin_req_at, spin_rel}
use rpi2_baremetal.Uart.Locks.{with_lock}
use rpi2_baremetal.Uart.Prints.{Drains, IsQuiet}
use rpi2_baremetal.Uart.Gives.{on_bus, spin_req-Gives, spin_rel-restores}
use rpi2_baremetal.Sysinfo.Asid.Grant.{on_bus-IsQuiet}
use rpi2_baremetal.Sysinfo.{get_pm, get_sys_struct_info, struct_info}
use rpi2_baremetal.Sysinfo.Config.{section_size}
use rpi2_baremetal.Sysinfo.Modes.{IsMode, index_of, get_sys_struct_info-valid, struct_info-some}
use rpi2_baremetal.Task.{
  smp_user_ram_bottom, map_state, space_loop, move_task_space, spaces_loop, move_task_spaces,
}

raw_held : (l : ℕ) (m : Machine) → m.lock l ≡ 1 → raw_spin_req l m ≡ hang
unfolding raw_spin_req
raw_held l m held = rw held refl

held-hang : (hw : Hw) (l : ℕ) (m : Machine) → m.lock l ≡ 1 → spin_req hw l m ≡ hang
unfolding spin_req spin_req_at
held-hang hw l m held = then-hang (raw_spin_req l) _ m (raw_held l m held)

-- What `move_task_spaces` needs to get to its loop: a valid core and mode, with an entry that has
-- room for at least one task.
pub record IsMover (m : Machine) (s : SysStructInfo) : Type 0 where
  pub table : length m.structs ≡ 7
  pub core : m.cpu < 4
  pub mode : IsMode m.common.pm
  pub found : get_elem? m.structs (index_of m.cpu m.common.pm) ≡ some s
  pub room : sub32 s.user_ram_area.limit s.user_ram_area.bottom / section_size ≢ 0

module _ (hw : Hw) (map fuel : ℕ) where
  space_loop-hang :
      (n from pa limit id : ℕ) (m : Machine)
      → n ≢ 0
      → m.lock smp_queue_lock ≡ 1
      → space_loop hw map fuel n from pa limit id m ≡ hang
  unfolding space_loop
  space_loop-hang zero from pa limit id m some_slot held = absurd (some_slot refl)
  space_loop-hang (suc n) from pa limit id m some_slot held =
      then-hang (spin_req hw smp_queue_lock) _ m (held-hang hw smp_queue_lock m held)

  move_task_space-hang :
      (from : ℕ) (m : Machine) {s : SysStructInfo}
      → IsMover m s
      → m.lock smp_queue_lock ≡ 1
      → move_task_space hw map fuel from m ≡ hang
  unfolding move_task_space get_prid get_pm load
  move_task_space-hang from m {s} mover held =
      bind-done (get_sys_struct_info hw m.cpu m.common.pm) _ m
        (get_sys_struct_info-valid hw m.cpu m.common.pm m mover.table mover.core mover.mode)
      ∙ (bind-done (struct_info (index_of m.cpu m.common.pm)) _ m
            (struct_info-some (index_of m.cpu m.common.pm) m mover.found)
          ∙ space_loop-hang _ from _ _ 0 m mover.room held)

  module _ (live : Drains hw) where
    spaces_loop-hang :
        (n mapid j : ℕ) (m : Machine) {s : SysStructInfo}
        → IsMover m s
        → IsQuiet m
        → m.lock smp_queue_lock ≡ 0
        → mapid ≤ j
        → j < mapid + n
        → m.mem (map_state map j) ≢ 0
        → spaces_loop hw map fuel n mapid m ≡ hang
    unfolding spaces_loop load
    spaces_loop-hang zero mapid j m mover quiet free low high used = absurd (omega arith)
    spaces_loop-hang (suc n) mapid j m {s} mover quiet free low high used =
        let (b, e) = spin_req-Gives live m quiet smp_queue_lock (λ eq. omega (arith, eq)) free in
        let inner : Machine = on_bus (with_lock m smp_queue_lock 1) b in
        elim (Bool-cases (m.mem (map_state map mapid) == 0)) [
          | inr occupied ↦
              then-done (spin_req hw smp_queue_lock) _ m e
              ∙ rw occupied (
                  then-hang (move_task_space hw map fuel mapid) _ inner (
                    move_task_space-hang mapid inner {s = s}
                      (record {
                        table = mover.table;
                        core = mover.core;
                        mode = mover.mode;
                        found = mover.found;
                        room = mover.room;
                      })
                      refl))
          | inl empty ↦
              let (b', e') =
                spin_rel-restores live (on_bus m b) (on_bus-IsQuiet m b quiet) smp_queue_lock
                  (λ eq. omega (arith, eq)) free in
              let unused : m.mem (map_state map mapid) ≡ 0 = ground arith in
              let later : mapid ≢ j =
                λ eq. used (ap (λ (i : ℕ). m.mem (map_state map i)) (sym eq) ∙ unused) in
              then-done (spin_req hw smp_queue_lock) _ m e
              ∙ rw empty (
                  then-done (spin_rel hw smp_queue_lock) _ inner e'
                  ∙ spaces_loop-hang n (mapid + 1) j (on_bus m b') {s = s}
                      (record {
                        table = mover.table;
                        core = mover.core;
                        mode = mover.mode;
                        found = mover.found;
                        room = mover.room;
                      })
                      (on_bus-IsQuiet m b' quiet) free (omega arith) (omega arith) used)
        ]

-- With a console that can be used, a valid core and mode whose entry has room for a task, and
-- `smp_queue_lock` free: `move_task_spaces` never returns if the map has a task in any of the
-- slots that it goes through. It holds `smp_queue_lock` when it calls `move_task_space`, which
-- waits for that lock.
pub move_task_spaces-hang :
    (hw : Hw) (map fuel j : ℕ) (m : Machine) {s : SysStructInfo}
    → Drains hw
    → IsQuiet m
    → IsMover m s
    → m.lock smp_queue_lock ≡ 0
    → sub32 s.kernel_ram_area.bottom smp_user_ram_bottom / section_size ≤ j
    → j < sub32 s.user_ram_area.limit smp_user_ram_bottom / section_size
    → m.mem (map_state map j) ≢ 0
    → move_task_spaces hw map fuel m ≡ hang
unfolding move_task_spaces get_prid get_pm
move_task_spaces-hang hw map fuel j m {s} live quiet mover free low high used =
    bind-done (get_sys_struct_info hw m.cpu m.common.pm) _ m
      (get_sys_struct_info-valid hw m.cpu m.common.pm m mover.table mover.core mover.mode)
    ∙ (bind-done (struct_info (index_of m.cpu m.common.pm)) _ m
          (struct_info-some (index_of m.cpu m.common.pm) m mover.found)
        ∙ spaces_loop-hang hw map fuel live _ _ j m mover quiet free low (omega arith) used)
