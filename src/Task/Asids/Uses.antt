-- ===== src/Task/Asids/Uses.antt =====
-- Tasks that share an area of ASIDs: `set_user_asid` of sysinfo.c and `end_task` of task.c.
use rpi2_baremetal.Common.{
  Picked, ℕ, ◌+◌, ◌≡◌, ◌≢◌, inl, inr, sym, ◌∙◌, List, [], ◌∷◌, arith, minus_one,
}
use rpi2_baremetal.Machine.{done-value, done-machine, Bus, Machine, SysStructInfo, Hw, done}
use rpi2_baremetal.Uart.Prints.{Drains}
use rpi2_baremetal.Uart.Gives.{on_bus}
use rpi2_baremetal.Sysinfo.Asid.{task_asid, set_user_asid}
use rpi2_baremetal.Sysinfo.Asid.Search.{set_user_asid-Searched}
use rpi2_baremetal.Task.{map_state, end_task}
use rpi2_baremetal.Task.Asids.{AllSpared}
use rpi2_baremetal.Task.Asids.Exclusive.{IsExclusive, granted-IsExclusive, ended-IsExclusive}

-- A use of the allocator on a core: a task without an ASID asks for one, or one that has an ASID
-- ends. The fields that are written are not the ASID fields of the others.
pub data Use (hw : Hw) (map fuel cpuid pm : ℕ) (m : Machine) (holders : List ℕ) (m' : Machine)
    : List ℕ → Type 0 where
  takes :
      (task asid : ℕ)
      → m.mem (task_asid task) ≡ 0
      → AllSpared (task_asid task) holders
      → asid ≢ minus_one
      → set_user_asid hw task cpuid pm m ≡ done asid m'
      → Use hw map fuel cpuid pm m holders m' (task ∷ holders)
  fails :
      (task : ℕ)
      → m.mem (task_asid task) ≡ 0
      → AllSpared (task_asid task) holders
      → set_user_asid hw task cpuid pm m ≡ done minus_one m'
      → Use hw map fuel cpuid pm m holders m' holders
  ends :
      (task : ℕ) {rest : List ℕ}
      → Picked task holders rest
      → AllSpared (map_state map (m.mem (task + 8))) rest
      → AllSpared task rest
      → end_task hw map fuel task m ≡ done tt m'
      → Use hw map fuel cpuid pm m holders m' rest

pub data Uses (hw : Hw) (map fuel cpuid pm : ℕ) (m : Machine) : Machine → List ℕ → Type 0 where
  start : Uses hw map fuel cpuid pm m m []
  use_on :
      {m' m'' : Machine} {holders holders' : List ℕ}
      → Uses hw map fuel cpuid pm m m' holders
      → Use hw map fuel cpuid pm m' holders m'' holders'
      → Uses hw map fuel cpuid pm m m'' holders'

module _ {hw : Hw} (live : Drains hw) (map fuel cpuid pm : ℕ) (ssi : SysStructInfo) where
  takes-IsExclusive :
      (task asid : ℕ) (m m' : Machine) (holders : List ℕ)
      → m.mem (task_asid task) ≡ 0
      → AllSpared (task_asid task) holders
      → asid ≢ minus_one
      → set_user_asid hw task cpuid pm m ≡ done asid m'
      → IsExclusive cpuid pm ssi m holders
      → IsExclusive cpuid pm ssi m' (task ∷ holders)
  takes-IsExclusive task asid m m' holders none_yet spared got ran inv =
      elim (set_user_asid-Searched hw task cpuid pm m live inv.ready inv.call none_yet) [
        | inl (all, (b, e)) ↦ absurd (got (done-value (sym ran ∙ e)))
        | inr (a, v, f, (b, e)) ↦ rw (done-machine (sym ran ∙ e)) (
            granted-IsExclusive cpuid pm ssi task a v m b holders f.status f.idle
              (omega (arith, f.below, inv.call.fits)) spared inv)
      ]

  on_bus-IsExclusive :
      (m : Machine) (b : Bus) (holders : List ℕ)
      → IsExclusive cpuid pm ssi m holders
      → IsExclusive cpuid pm ssi (on_bus m b) holders
  on_bus-IsExclusive m b holders inv = record {
    ready = record {
      quiet = record { free = inv.ready.quiet.free; calm = inv.ready.quiet.calm };
      open_lock = inv.ready.open_lock;
    };
    call = record {
      table = inv.call.table;
      core = inv.call.core;
      mode = inv.call.mode;
      found = inv.call.found;
      fits = inv.call.fits;
      room = inv.call.room;
    };
    size = inv.size;
    statuses = inv.statuses;
    exclusive = inv.exclusive;
  }

  fails-IsExclusive :
      (task : ℕ) (m m' : Machine) (holders : List ℕ)
      → m.mem (task_asid task) ≡ 0
      → set_user_asid hw task cpuid pm m ≡ done minus_one m'
      → IsExclusive cpuid pm ssi m holders
      → IsExclusive cpuid pm ssi m' holders
  fails-IsExclusive task m m' holders none_yet ran inv =
      elim (set_user_asid-Searched hw task cpuid pm m live inv.ready inv.call none_yet) [
        | inl (all, (b, e)) ↦ rw (done-machine (sym ran ∙ e)) (on_bus-IsExclusive m b holders inv)
        | inr (a, v, f, (b, e)) ↦
            absurd (omega (arith, f.below, inv.call.fits, inv.size, done-value (sym ran ∙ e)))
      ]

  Use-IsExclusive :
      {m m' : Machine} {holders holders' : List ℕ}
      → Use hw map fuel cpuid pm m holders m' holders'
      → IsExclusive cpuid pm ssi m holders
      → IsExclusive cpuid pm ssi m' holders'
  Use-IsExclusive {m} {m'} {holders} (takes task asid none_yet spared got ran) inv =
      takes-IsExclusive task asid m m' holders none_yet spared got ran inv
  Use-IsExclusive {m} {m'} {holders} (fails task none_yet spared ran) inv =
      fails-IsExclusive task m m' holders none_yet ran inv
  Use-IsExclusive {m} {m'} {holders} (ends task {rest} pick spared spared' ran) inv =
      let (n, e, kept) =
        ended-IsExclusive cpuid pm ssi hw map fuel task m holders rest pick spared spared' inv in
      rw (done-machine (sym ran ∙ e)) kept

-- The transmitter drains, and the machine is set up for the allocator: a valid core and mode, whose
-- entry has an area of ASIDs inside of the 256 statuses, each of them unused, active or finished,
-- and a free lock. However tasks without an ASID then ask for one and tasks with an ASID end, one
-- call after the other, the ASID of every task that holds one is active, and no two have the same.
pub Uses-IsExclusive :
    (hw : Hw) (map fuel cpuid pm : ℕ) (ssi : SysStructInfo) (m : Machine) {m' : Machine}
    {holders : List ℕ}
    → Drains hw
    → IsExclusive cpuid pm ssi m []
    → Uses hw map fuel cpuid pm m m' holders
    → IsExclusive cpuid pm ssi m' holders
Uses-IsExclusive hw map fuel cpuid pm ssi m live inv start = inv
Uses-IsExclusive hw map fuel cpuid pm ssi m live inv (use_on uses next) =
    Use-IsExclusive live map fuel cpuid pm ssi next
      (Uses-IsExclusive hw map fuel cpuid pm ssi m live inv uses)
