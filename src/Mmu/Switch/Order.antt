-- ===== src/Mmu/Switch/Order.antt =====
-- The order of a switch to a task: by way of the reserved ASID, with interrupts off.
use rpi2_baremetal.Common.{
  ℕ, ◌+◌, ◌≡◌, ◌⊎◌, inl, inr, true, false, List, ◌∷◌, bit_and, bit_or, minus_one, ◌∙◌,
}
use rpi2_baremetal.Machine.{
  Machine, Bus, Hw, Outcome, done, SysStructInfo, load, mask_irq, contextidr_write, ttbr0_write,
  ttbr1_write, bind-done, then-done,
}
use rpi2_baremetal.Uart.{codes, uart_puts, register_value_puts}
use rpi2_baremetal.Uart.Prints.{Drains, IsQuiet}
use rpi2_baremetal.Uart.Gives.{on_bus, Gives, puts-Gives, value-Gives}
use rpi2_baremetal.Sysinfo.Modes.{index_of}
use rpi2_baremetal.Sysinfo.Asid.{task_asid, first_user_asid, set_user_asid}
use rpi2_baremetal.Sysinfo.Asid.Grant.{granted, IsReady, on_bus-IsQuiet}
use rpi2_baremetal.Sysinfo.Asid.Search.{IsCall, IsFirst, AllActive, set_user_asid-Searched}
use rpi2_baremetal.Mmu.Switch.{
  get_contextidr, set_contextidr, set_ttbrs, set_asid, sync_user_ttba_change,
}

-- The machine after a switch to the table of `task` under `asid`.
abbrev pub switched : ℕ → ℕ → Machine → Machine
switched task asid m =
    let cleared = bit_and m.cp15.contextidr 0xffff_ff00 in
    let ttbr = bit_or 0x4a (m.mem (task + 12)) in
    let last = bit_or (bit_and cleared 0xffff_ff00) asid in
    record m {
      irq_masked = false;
      cp15 = record (m.cp15) { ttbr0 = ttbr; ttbr1 = ttbr; contextidr = last };
      maintenance =
          contextidr_write last
          ∷ ttbr1_write ttbr
          ∷ ttbr0_write ttbr
          ∷ contextidr_write cleared
          ∷ m.maintenance;
    }

abbrev masked : Machine → Bus → Machine
masked m b = record (on_bus m b) { irq_masked = true }

abbrev opening : List ℕ
opening = codes "dsb finished\n"

abbrev search : List ℕ
search = codes "start to take asid\n"

-- How a switch ends, by how the search for an ASID does.
abbrev pub Switched : ℕ → ℕ → ℕ → Machine → Outcome (Unit {0}) → Type 0
Switched task start limit m r =
    (AllActive m.asid_head start limit × Gives tt (switched task minus_one m) r)
    ⊎ ((a : ℕ) × (v : ℕ) × IsFirst m.asid_head start limit a v
        × Gives tt (switched task a (granted task a v m)) r)

module _ {hw : Hw} (live : Drains hw) (task cpuid pm : ℕ) (m : Machine) where
  finish :
      (b1 b2 : Bus) (a : ℕ) (m' : Machine)
      → IsQuiet m'
      → uart_puts hw opening m ≡ done tt (on_bus m b1)
      → uart_puts hw search (masked m b1) ≡ done tt (masked m b2)
      → Gives a m' (set_user_asid hw task cpuid pm (masked m b2))
      → Gives tt (switched task a m') (sync_user_ttba_change hw task cpuid pm m)
  unfolding sync_user_ttba_change set_asid get_contextidr set_contextidr set_ttbrs load mask_irq
  finish b1 b2 a m' quiet' e1 e2 (b3, e3) =
      let (b4, e4) =
        value-Gives live (on_bus m' b3) (on_bus-IsQuiet m' b3 quiet') (codes "ASID: ") a in
      (
        b4,
        then-done (uart_puts hw opening) _ m e1
            ∙ (then-done (uart_puts hw search) _ (masked m b1) e2
                ∙ (bind-done (set_user_asid hw task cpuid pm) _ (masked m b2) e3
                    ∙ then-done (register_value_puts hw (codes "ASID: ") a) _ (on_bus m' b3) e4)),
      )

  masked-IsQuiet : (b : Bus) → IsQuiet m → IsQuiet (masked m b)
  masked-IsQuiet b q = record { free = q.free; calm = q.calm }

  -- With a console that can be used, the lock of the entry free, and a valid core and mode whose
  -- entry has an ASID area of at least two ASIDs inside of the status array, a switch to a task
  -- without an ASID returns with interrupts on. The search for an ASID starts at the second
  -- ASID of the core's area, or at the third if the first is the reserved one, 0, and the first from
  -- there that is not active goes to the task; the writes are, in this order: the reserved ASID,
  -- the task's table to TTBR0 and TTBR1, the task's ASID. If all from the search's start to the
  -- area's end are active the switch is made all the same, with 0xFFFFFFFF for the ASID.
  pub sync_user_ttba_change-Switched :
      {ssi : SysStructInfo}
      → IsReady (index_of cpuid pm) m
      → IsCall m cpuid pm ssi
      → m.mem (task_asid task) ≡ 0
      → Switched task
          (first_user_asid ssi.asid_area.bottom)
          ssi.asid_area.limit
          m
          (sync_user_ttba_change hw task cpuid pm m)
  unfolding granted
  sync_user_ttba_change-Switched {ssi} ready call none_yet =
      let (b1, e1) = puts-Gives live m ready.quiet opening in
      let (b2, e2) = puts-Gives live (masked m b1) (masked-IsQuiet b1 ready.quiet) search in
      elim (set_user_asid-Searched hw task cpuid pm (masked m b2) {ssi = ssi} live (again b2)
        (same_call b2) none_yet) [
          | inl (all, g) ↦ inl (
            all,
            finish b1 b2 minus_one (record m { irq_masked = true })
                (masked-IsQuiet m.bus ready.quiet) e1 e2 g,
          )
          | inr (a, v, f, g) ↦ inr (
            a,
            v,
            f,
            finish b1 b2 a (granted task a v (record m { irq_masked = true }))
                (record { free = ready.quiet.free; calm = ready.quiet.calm }) e1 e2 g,
          )
        ]
    where
      again : (b : Bus) → IsReady (index_of cpuid pm) (masked m b)
      again b = record {
        quiet = record { free = ready.quiet.free; calm = ready.quiet.calm };
        open_lock = ready.open_lock;
      }

      same_call : (b : Bus) → IsCall (masked m b) cpuid pm ssi
      same_call b = record {
        table = call.table;
        core = call.core;
        mode = call.mode;
        found = call.found;
        fits = call.fits;
        room = call.room;
      }
