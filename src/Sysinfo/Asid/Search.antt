-- ===== src/Sysinfo/Asid/Search.antt =====
-- `set_user_asid` and `take_kernel_asid` of sysinfo.c: which ASID they give, and what they change.
use rpi2_baremetal.Common.{
  ℕ, zero, suc, ◌+◌, ◌-◌, ◌<◌, ◌≤◌, ◌≡◌, refl, ◌≢◌, ◌⊎◌, inl, inr, false, List, some, get_elem?,
  get_elem?-IsSome, length, set, minus_one, ◌==◌, arith, Bool-cases, ==_true, ==_false, ◌∙◌,
}
use rpi2_baremetal.Machine.{
  SysStructInfo, Machine, Bus, Hw, Outcome, done, load, bind-done, then-done,
}
use rpi2_baremetal.Uart.{uart_puts, register_value_puts}
use rpi2_baremetal.Uart.Prints.{Drains}
use rpi2_baremetal.Uart.Gives.{on_bus, Gives, Gives-bind, Gives-then, puts-Gives, value-Gives}
use rpi2_baremetal.Sysinfo.{get_sys_struct_info, struct_info}
use rpi2_baremetal.Sysinfo.Asid.{
  task_asid, set_asid_status, take_kernel_asid, user_loop, first_user_asid, set_user_asid,
}
use rpi2_baremetal.Sysinfo.Asid.Grant.{
  granted, IsReady, on_bus-IsQuiet, round-busy, round-grant, set_asid_status-some,
}
use rpi2_baremetal.Sysinfo.Modes.{IsMode, index_of, get_sys_struct_info-valid, struct_info-some}

-- The search, as the loop meets the statuses: either every ASID left is active, or the first one
-- that is not is granted.
pub record IsFirst (statuses : List ℕ) (start limit a v : ℕ) : Type 0 where
  pub from : start ≤ a
  pub below : a < limit
  pub status : get_elem? statuses a ≡ some v
  pub idle : v ≢ 1
  pub skipped : (b : ℕ) → start ≤ b → b < a → get_elem? statuses b ≡ some 1

abbrev pub AllActive : List ℕ → ℕ → ℕ → Type 0
AllActive statuses start limit = (b : ℕ) → start ≤ b → b < limit → get_elem? statuses b ≡ some 1

-- How a search for an ASID in a range ends.
abbrev pub Searched : ℕ → ℕ → ℕ → Machine → Outcome ℕ → Type 0
Searched task start limit m r =
    (AllActive m.asid_head start limit × Gives minus_one m r)
    ⊎ ((a : ℕ) × (v : ℕ) × IsFirst m.asid_head start limit a v × Gives a (granted task a v m) r)

search_statuses :
    (statuses : List ℕ) (n start limit : ℕ)
    → start + n ≡ limit
    → limit ≤ length statuses
    → AllActive statuses start limit ⊎ ((a : ℕ) × (v : ℕ) × IsFirst statuses start limit a v)
search_statuses statuses zero start limit sum fits = inl λ b p q. absurd (omega arith)
search_statuses statuses (suc n) start limit sum fits =
    let (v, e) = get_elem?-IsSome statuses start (omega arith) in
    elim (Bool-cases (v == 1)) [
      | inr idle ↦ inr (
        start,
        v,
        record {
          from = omega arith;
          below = omega arith;
          status = e;
          idle = ground arith;
          skipped = λ b p q. absurd (omega arith);
        },
      )
      | inl active ↦ elim (search_statuses statuses n (start + 1) limit (omega arith) fits) [
        | inl all ↦ inl λ b p q. elim (Bool-cases (b == start)) [
          | inl here ↦ ground arith
          | inr later ↦ all b (ground arith) q
        ]
        | inr (a, w, f) ↦ inr (
          a,
          w,
          record {
            from = omega (arith, f.from);
            below = f.below;
            status = f.status;
            idle = f.idle;
            skipped = λ b p q. elim (Bool-cases (b == start)) [
              | inl here ↦ ground arith
              | inr later ↦ f.skipped b (ground arith) q
            ];
          },
        )
      ]
    ]

module _ {hw : Hw} (live : Drains hw) (task index : ℕ) where
  loop-AllActive :
      (n asid limit : ℕ) (m : Machine)
      → asid + n ≡ limit
      → IsReady index m
      → AllActive m.asid_head asid limit
      → Gives minus_one m (user_loop hw n task index asid m)
  loop-AllActive zero asid limit m sum ready all = (m.bus, unfold user_loop in refl)
  loop-AllActive (suc n) asid limit m sum ready all =
      round-busy live index asid m ready (all asid (omega arith) (omega arith)) n task minus_one m
        (ground arith)
        λ b.
          loop-AllActive n (asid + 1) limit (on_bus m b) (omega arith)
            (record { quiet = on_bus-IsQuiet m b ready.quiet; open_lock = ready.open_lock })
            (λ c p q. all c (omega arith) q)

  loop-IsFirst :
      (n asid limit a v : ℕ) (m : Machine)
      → asid + n ≡ limit
      → 0 < asid
      → IsReady index m
      → IsFirst m.asid_head asid limit a v
      → Gives a (granted task a v m) (user_loop hw n task index asid m)
  unfolding granted
  loop-IsFirst zero asid limit a v m sum pos ready f = absurd (omega (arith, f.from, f.below))
  loop-IsFirst (suc n) asid limit a v m sum pos ready f = elim (Bool-cases (a == asid)) [
    | inl here ↦
        let e : asid ≡ a = ground arith in
        rw e (round-grant live index a m ready f.status n task (ground (arith, f.idle)))
    | inr later ↦
        round-busy live index asid m ready (f.skipped asid (omega arith) (ground (arith, f.from))) n
          task a (granted task a v m) (ground arith)
          λ b.
            loop-IsFirst n (asid + 1) limit a v (on_bus m b) (omega arith) (omega arith)
              (record { quiet = on_bus-IsQuiet m b ready.quiet; open_lock = ready.open_lock })
              (record {
                from = ground (arith, f.from);
                below = f.below;
                status = f.status;
                idle = f.idle;
                skipped = λ c p q. f.skipped c (omega arith) q;
              })
  ]

-- What the allocator is called with: a valid core and mode whose entry is `ssi`, with an ASID
-- area that is not empty above the search's start and inside of the status array.
pub record IsCall (m : Machine) (cpuid pm : ℕ) (ssi : SysStructInfo) : Type 0 where
  pub table : length m.structs ≡ 7
  pub core : cpuid < 4
  pub mode : IsMode pm
  pub found : get_elem? m.structs (index_of cpuid pm) ≡ some ssi
  pub fits : ssi.asid_area.limit ≤ length m.asid_head
  pub room : ssi.asid_area.bottom + 2 ≤ ssi.asid_area.limit

module _ (hw : Hw) (task cpuid pm : ℕ) (m : Machine) where
  -- What precedes the loop changes the console only.
  to_loop :
      {ssi : SysStructInfo}
      → Drains hw
      → IsReady (index_of cpuid pm) m
      → IsCall m cpuid pm ssi
      → m.mem (task_asid task) ≡ 0
      → (z : ℕ) (m' : Machine)
      → ((b : Bus)
          → Gives z m' (
              user_loop hw
                (ssi.asid_area.limit - first_user_asid ssi.asid_area.bottom)
                task
                (index_of cpuid pm)
                (first_user_asid ssi.asid_area.bottom)
                (on_bus m b)))
      → Gives z m' (set_user_asid hw task cpuid pm m)
  unfolding set_user_asid load
  to_loop {ssi} live ready call none_yet z m' next =
      rw (==_true (m.mem (task_asid task)) 0 none_yet) (
        Gives-bind (get_sys_struct_info hw cpuid pm) _ m m (index_of cpuid pm) m' z
          (m.bus, get_sys_struct_info-valid hw cpuid pm m call.table call.core call.mode)
          λ b.
            Gives-bind (struct_info (index_of cpuid pm)) _ (on_bus m b) m ssi m' z
              (b, struct_info-some (index_of cpuid pm) (on_bus m b) call.found)
              λ b.
                Gives-then (register_value_puts hw _ _) _ (on_bus m b) m m' z
                  (value-Gives live (on_bus m b) (on_bus-IsQuiet m b ready.quiet) _ _)
                  λ b.
                    Gives-then (register_value_puts hw _ _) _ (on_bus m b) m m' z
                      (value-Gives live (on_bus m b) (on_bus-IsQuiet m b ready.quiet) _ _)
                      λ b.
                        Gives-then (uart_puts hw _) _ (on_bus m b) m m' z
                          (puts-Gives live (on_bus m b) (on_bus-IsQuiet m b ready.quiet) _) next)

  -- With a console that can be used, the lock of the entry free, and a valid core and mode whose
  -- entry has an ASID area of at least two ASIDs inside of the status array: a task without an
  -- ASID gets the first one of its core's area, from the search's start, that is not active. It
  -- becomes active if it was unused or finished, its TLB entries go if it was finished, and it is
  -- written into the task. If all are active the result is -1 and nothing but the console has
  -- changed.
  pub set_user_asid-Searched :
      {ssi : SysStructInfo}
      → Drains hw
      → IsReady (index_of cpuid pm) m
      → IsCall m cpuid pm ssi
      → m.mem (task_asid task) ≡ 0
      → Searched task
          (first_user_asid ssi.asid_area.bottom)
          ssi.asid_area.limit
          m
          (set_user_asid hw task cpuid pm m)
  set_user_asid-Searched {ssi} live ready call none_yet =
      elim (search_statuses m.asid_head (limit - start) start limit (omega (arith, start-le))
        call.fits) [
          | inl all ↦ inl (
            all,
            to_loop live ready call none_yet minus_one m λ b.
                loop-AllActive live task (index_of cpuid pm) (limit - start) start limit
                  (on_bus m b) (omega (arith, start-le)) (again b) all,
          )
          | inr (a, v, f) ↦ inr (
            a,
            v,
            f,
            to_loop live ready call none_yet a (granted task a v m) λ b.
                unfold granted in
                loop-IsFirst live task (index_of cpuid pm) (limit - start) start limit a v
                  (on_bus m b) (omega (arith, start-le)) (unfold first_user_asid in ground arith)
                  (again b) f,
          )
        ]
    where
      limit : ℕ
      limit = ssi.asid_area.limit

      start : ℕ
      start = first_user_asid ssi.asid_area.bottom

      start-le : start ≤ limit
      start-le = unfold first_user_asid in ground (arith, call.room)

      again : (b : Bus) → IsReady (index_of cpuid pm) (on_bus m b)
      again b = record { quiet = on_bus-IsQuiet m b ready.quiet; open_lock = ready.open_lock }

  -- A task that has an ASID keeps it.
  pub set_user_asid-kept :
      m.mem (task_asid task) ≢ 0
      → set_user_asid hw task cpuid pm m ≡ done (m.mem (task_asid task)) m
  unfolding set_user_asid load
  set_user_asid-kept ne = rw (==_false (m.mem (task_asid task)) 0 ne)

  -- For a valid core and mode whose entry has an ASID area of at least two ASIDs inside of the
  -- status array, the kernel's ASID is the second of the area, whatever its status is: it is
  -- marked active with no look at whether a task has it, and nothing else changes.
  pub take_kernel_asid-second :
      {ssi : SysStructInfo}
      → IsCall m cpuid pm ssi
      → take_kernel_asid hw cpuid pm m
        ≡ done
            (ssi.asid_area.bottom + 1)
            (record m { asid_head = set m.asid_head (ssi.asid_area.bottom + 1) 1 })
  unfolding take_kernel_asid
  take_kernel_asid-second {ssi} call =
      let b = ssi.asid_area.bottom + 1 in
      let (v, e) = get_elem?-IsSome m.asid_head b (omega (arith, call.room, call.fits)) in
      let not_reserved : (b == 0) ≡ false = ground arith in
      bind-done (get_sys_struct_info hw cpuid pm) _ m
        (get_sys_struct_info-valid hw cpuid pm m call.table call.core call.mode)
      ∙ (bind-done (struct_info (index_of cpuid pm)) _ m
            (struct_info-some (index_of cpuid pm) m call.found)
          ∙ rw not_reserved (then-done (set_asid_status b 1) _ m (set_asid_status-some b 1 m e)))
