-- ===== src/Task/Asids/Exclusive.antt =====
-- What a task that takes an ASID, and one that ends, leave of the ASIDs of the others.
use rpi2_baremetal.Common.{
  Picked, ℕ, zero, suc, ◌+◌, ◌≤◌, ◌<◌, ◌≡◌, ◌≢◌, refl, sym, ap, ◌∙◌, true, ◌||◌, List, [], ◌∷◌,
  some, get_elem?, set, length, length-set, get_elem?-set_self, get_elem?-set_ne, arith, ◌==◌,
}
use rpi2_baremetal.Machine.{Bus, Machine, SysStructInfo, Hw, done, update, load, store, then-done}
use rpi2_baremetal.Uart.Gives.{on_bus}
use rpi2_baremetal.Heap.Ring.{update-same, update-other}
use rpi2_baremetal.Sysinfo.Asid.{task_asid, set_asid_status}
use rpi2_baremetal.Sysinfo.Asid.Grant.{granted, IsReady, set_asid_status-some}
use rpi2_baremetal.Sysinfo.Asid.Search.{IsCall}
use rpi2_baremetal.Sysinfo.Modes.{index_of}
use rpi2_baremetal.Task.{map_state, end_task}
use rpi2_baremetal.Task.Asids.{
  AllExclusive, AllSpared, IsStatus, AllKept, AllOther, AllDiffer-new, AllExclusive-kept,
  idle-AllOther, Picked-AllExclusive,
}

-- One area of ASIDs, and the machine that the allocator is called in: the tasks `holders` have ASIDs
-- that are active, each its own.
pub record IsExclusive (cpuid pm : ℕ) (ssi : SysStructInfo) (m : Machine) (holders : List ℕ)
    : Type 0 where
  pub ready : IsReady (index_of cpuid pm) m
  pub call : IsCall m cpuid pm ssi
  pub size : length m.asid_head ≡ 256
  pub statuses : IsStatus m
  pub exclusive : AllExclusive m holders

set-IsStatus :
    (xs : List ℕ) (a w : ℕ)
    → w ≤ 2
    → ((i v : ℕ) → get_elem? xs i ≡ some v → v ≤ 2)
    → (i v : ℕ) → get_elem? (set xs a w) i ≡ some v
    → v ≤ 2
set-IsStatus [] a w le all i v found = all i v found
set-IsStatus (x ∷ xs) zero w le all zero v found = ground arith
set-IsStatus (x ∷ xs) zero w le all (suc i) v found = all (suc i) v found
set-IsStatus (x ∷ xs) (suc a) w le all zero v found = all zero v found
set-IsStatus (x ∷ xs) (suc a) w le all (suc i) v found =
    set-IsStatus xs a w le (λ j u e. all (suc j) u e) i v found

-- A write to an address that is no task's ASID field.
update-AllKept :
    (m m' : Machine) (x w : ℕ) (ts : List ℕ)
    → ((k : ℕ) → m'.mem k ≡ update m.mem x w k)
    → AllSpared x ts
    → AllKept m m' ts
update-AllKept m m' x w [] mem spared = tt
update-AllKept m m' x w (t ∷ ts) mem (ne, spared) = (
  mem (task_asid t) ∙ update-other m.mem x w (task_asid t) ne,
  update-AllKept m m' x w ts mem spared,
)

updates-AllKept :
    (m m' : Machine) (x w y u : ℕ) (ts : List ℕ)
    → ((k : ℕ) → m'.mem k ≡ update (update m.mem x w) y u k)
    → AllSpared x ts
    → AllSpared y ts
    → AllKept m m' ts
updates-AllKept m m' x w y u [] mem spared spared' = tt
updates-AllKept m m' x w y u (t ∷ ts) mem (ne, spared) (ne', spared') = (
  mem (task_asid t)
      ∙ (update-other (update m.mem x w) y u (task_asid t) ne'
          ∙ update-other m.mem x w (task_asid t) ne),
  updates-AllKept m m' x w y u ts mem spared spared',
)

end_task-run :
    (hw : Hw) (map fuel task : ℕ) (m : Machine) {w : ℕ}
    → get_elem? m.asid_head (m.mem (task_asid task)) ≡ some w
    → end_task hw map fuel task m
      ≡ done tt (record m {
        asid_head = set m.asid_head (m.mem (task_asid task)) 2;
        mem = update (update m.mem (map_state map (m.mem (task + 8))) 2) task 8;
      })
unfolding end_task load store
end_task-run hw map fuel task m found =
    then-done (set_asid_status (m.mem (task_asid task)) 2) _ m
      (set_asid_status-some (m.mem (task_asid task)) 2 m found)

module _ (cpuid pm : ℕ) (ssi : SysStructInfo) where
  pub granted-IsExclusive :
      (task a v : ℕ) (m : Machine) (b : Bus) (holders : List ℕ)
      → get_elem? m.asid_head a ≡ some v
      → v ≢ 1
      → a < length m.asid_head
      → AllSpared (task_asid task) holders
      → IsExclusive cpuid pm ssi m holders
      → IsExclusive cpuid pm ssi (on_bus (granted task a v m) b) (task ∷ holders)
  unfolding granted
  granted-IsExclusive task a v m b holders found idle lt spared inv = rw marked (record {
    ready = record {
      quiet = record { free = inv.ready.quiet.free; calm = inv.ready.quiet.calm };
      open_lock = inv.ready.open_lock;
    };
    call = record {
      table = inv.call.table;
      core = inv.call.core;
      mode = inv.call.mode;
      found = inv.call.found;
      fits = omega (arith, inv.call.fits, length-set m.asid_head a 1);
      room = inv.call.room;
    };
    size = length-set m.asid_head a 1 ∙ inv.size;
    statuses = set-IsStatus m.asid_head a 1 (omega arith) inv.statuses;
    exclusive = (
      ap (get_elem? (set m.asid_head a 1)) (update-same m.mem (task_asid task) a)
          ∙ get_elem?-set_self m.asid_head a 1 lt,
      AllDiffer-new m m' task a holders (update-same m.mem (task_asid task) a) kept others,
      AllExclusive-kept m m' a holders
          (λ i ne. get_elem?-set_ne m.asid_head a i 1 (λ e. ne (sym e))) kept others inv.exclusive,
    );
  })
    where
      marked : (v == 0 || v == 2) ≡ true
      marked = ground (arith, inv.statuses a v found)

      m' : Machine
      m' = record m { asid_head = set m.asid_head a 1; mem = update m.mem (task_asid task) a }

      kept : AllKept m m' holders
      kept = update-AllKept m m' (task_asid task) a holders (λ k. refl) spared

      others : AllOther m a holders
      others = idle-AllOther m a v holders found idle inv.exclusive

  pub ended-IsExclusive :
      (hw : Hw) (map fuel task : ℕ) (m : Machine) (holders rest : List ℕ)
      → Picked task holders rest
      → AllSpared (map_state map (m.mem (task + 8))) rest
      → AllSpared task rest
      → IsExclusive cpuid pm ssi m holders
      → (m' : Machine) × (end_task hw map fuel task m ≡ done tt m')
        × IsExclusive cpuid pm ssi m' rest
  ended-IsExclusive hw map fuel task m holders rest pick spared spared' inv =
      let (holder, others, left) = Picked-AllExclusive m pick inv.exclusive in
      let a : ℕ = m.mem (task_asid task) in
      let m' : Machine = record m {
        asid_head = set m.asid_head a 2;
        mem = update (update m.mem (map_state map (m.mem (task + 8))) 2) task 8;
      } in
      (
        m',
        end_task-run hw map fuel task m holder,
        record {
          ready = record {
            quiet = record { free = inv.ready.quiet.free; calm = inv.ready.quiet.calm };
            open_lock = inv.ready.open_lock;
          };
          call = record {
            table = inv.call.table;
            core = inv.call.core;
            mode = inv.call.mode;
            found = inv.call.found;
            fits = omega (arith, inv.call.fits, length-set m.asid_head a 2);
            room = inv.call.room;
          };
          size = length-set m.asid_head a 2 ∙ inv.size;
          statuses = set-IsStatus m.asid_head a 2 (omega arith) inv.statuses;
          exclusive =
              AllExclusive-kept m m' a rest
                (λ i ne. get_elem?-set_ne m.asid_head a i 2 (λ e. ne (sym e)))
                (updates-AllKept m m' (map_state map (m.mem (task + 8))) 2 task 8 rest (λ k. refl)
                  spared spared')
                others left;
        },
      )
