-- ===== src/Task/Asids.antt =====
-- Tasks with ASIDs, as the words of memory and the status array of sysinfo.c hold them.
pub mod Exclusive
pub mod Uses
use rpi2_baremetal.Common.{
  Picked, here, there, ℕ, zero, suc, ◌+◌, ◌*◌, ◌≤◌, ◌<◌, ◌≡◌, ◌≢◌, ◌⊎◌, inl, inr, refl, sym, ap,
  ◌∙◌, true, false, ◌||◌, List, [], ◌∷◌, some, none, get_elem?, set, length, length-set,
  get_elem?-set_self, get_elem?-set_ne, get_elem?-IsSome, get_elem?-none, arith, minus_one, ◌==◌,
  if◌then◌else◌, Bool-cases,
}
use rpi2_baremetal.Machine.{
  Bus, Machine, SysStructInfo, Hw, Outcome, done, hang, fault, out_of_fuel, update, load, store,
  then-done, bind-done,
}
use rpi2_baremetal.Uart.Prints.{Drains}
use rpi2_baremetal.Uart.Gives.{on_bus, Gives}
use rpi2_baremetal.Heap.Ring.{update-same, update-other}
use rpi2_baremetal.Sysinfo.Asid.{task_asid, set_user_asid, set_asid_status, first_user_asid}
use rpi2_baremetal.Sysinfo.Asid.Grant.{granted, IsReady, set_asid_status-some}
use rpi2_baremetal.Sysinfo.Asid.Search.{IsFirst, IsCall, Searched, set_user_asid-Searched}
use rpi2_baremetal.Sysinfo.Modes.{index_of}
use rpi2_baremetal.Task.{map_state, end_task}

-- The task `t` has an ASID, which is active.
abbrev pub IsHolder : Machine → ℕ → Type 0
IsHolder m t = get_elem? m.asid_head (m.mem (task_asid t)) ≡ some 1

-- No other task has the same.
abbrev pub AllDiffer : Machine → ℕ → List ℕ → Type 0
AllDiffer m t [] = Unit {0}
AllDiffer m t (u ∷ us) = (m.mem (task_asid t) ≢ m.mem (task_asid u)) × AllDiffer m t us

abbrev pub AllExclusive : Machine → List ℕ → Type 0
AllExclusive m [] = Unit {0}
AllExclusive m (t ∷ ts) = IsHolder m t × AllDiffer m t ts × AllExclusive m ts

-- An address that is no task's ASID field.
abbrev pub AllSpared : ℕ → List ℕ → Type 0
AllSpared x [] = Unit {0}
AllSpared x (t ∷ ts) = (x ≢ task_asid t) × AllSpared x ts

-- Every status is one of the three.
abbrev pub IsStatus : Machine → Type 0
IsStatus m = (i v : ℕ) → get_elem? m.asid_head i ≡ some v → v ≤ 2

-- The tasks keep their ASIDs, none of which is `a`.
abbrev pub AllKept : Machine → Machine → List ℕ → Type 0
AllKept m m' [] = Unit {0}
AllKept m m' (t ∷ ts) = (m'.mem (task_asid t) ≡ m.mem (task_asid t)) × AllKept m m' ts

abbrev pub AllOther : Machine → ℕ → List ℕ → Type 0
AllOther m a [] = Unit {0}
AllOther m a (t ∷ ts) = (m.mem (task_asid t) ≢ a) × AllOther m a ts

module _ (m m' : Machine) where
  AllDiffer-kept :
      (t : ℕ) (ts : List ℕ)
      → m'.mem (task_asid t) ≡ m.mem (task_asid t)
      → AllKept m m' ts
      → AllDiffer m t ts
      → AllDiffer m' t ts
  AllDiffer-kept t [] same kept differ = tt
  AllDiffer-kept t (u ∷ us) same (this, kept) (ne, differ) =
      ((λ e. ne (sym same ∙ e ∙ this)), AllDiffer-kept t us same kept differ)

  -- Only the status of `a` has changed.
  pub AllExclusive-kept :
      (a : ℕ) (ts : List ℕ)
      → ((i : ℕ) → i ≢ a → get_elem? m'.asid_head i ≡ get_elem? m.asid_head i)
      → AllKept m m' ts
      → AllOther m a ts
      → AllExclusive m ts
      → AllExclusive m' ts
  AllExclusive-kept a [] statuses kept others exclusive = tt
  AllExclusive-kept a (t ∷ ts) statuses (same, kept) (other, others) (holder, differ, exclusive) = (
    ap (get_elem? m'.asid_head) same ∙ statuses (m.mem (task_asid t)) other ∙ holder,
    AllDiffer-kept t ts same kept differ,
    AllExclusive-kept a ts statuses kept others exclusive,
  )

  pub AllDiffer-new :
      (t a : ℕ) (ts : List ℕ)
      → m'.mem (task_asid t) ≡ a
      → AllKept m m' ts
      → AllOther m a ts
      → AllDiffer m' t ts
  AllDiffer-new t a [] new kept others = tt
  AllDiffer-new t a (u ∷ us) new (same, kept) (other, others) =
      ((λ e. other (sym same ∙ sym e ∙ new)), AllDiffer-new t a us new kept others)

-- An ASID that is not active is no holder's.
pub idle-AllOther :
    (m : Machine) (a v : ℕ) (ts : List ℕ)
    → get_elem? m.asid_head a ≡ some v
    → v ≢ 1
    → AllExclusive m ts
    → AllOther m a ts
idle-AllOther m a v [] found idle exclusive = tt
idle-AllOther m a v (t ∷ ts) found idle (holder, differ, exclusive) = (
  (λ e. idle (some_value (sym found ∙ ap (get_elem? m.asid_head) (sym e) ∙ holder))),
  idle-AllOther m a v ts found idle exclusive,
)
  where
    some_value : some v ≡ some 1 → v ≡ 1
    some_value e = ap (λ o. elim o [ none ↦ 0 | some w ↦ w ]) e

AllDiffer-AllOther :
    (m : Machine) (t : ℕ) (ts : List ℕ) → AllDiffer m t ts → AllOther m (m.mem (task_asid t)) ts
AllDiffer-AllOther m t [] differ = tt
AllDiffer-AllOther m t (u ∷ us) (ne, differ) = ((λ e. ne (sym e)), AllDiffer-AllOther m t us differ)

Picked-AllDiffer :
    (m : Machine) (u : ℕ) {t : ℕ} {ts rest : List ℕ}
    → Picked t ts rest
    → AllDiffer m u ts
    → (m.mem (task_asid u) ≢ m.mem (task_asid t)) × AllDiffer m u rest
Picked-AllDiffer m u here (ne, differ) = (ne, differ)
Picked-AllDiffer m u (there pick) (ne, differ) =
    let (one, left) = Picked-AllDiffer m u pick differ in (one, (ne, left))

-- A holder, and the others.
pub Picked-AllExclusive :
    (m : Machine) {t : ℕ} {ts rest : List ℕ}
    → Picked t ts rest
    → AllExclusive m ts
    → IsHolder m t × AllOther m (m.mem (task_asid t)) rest × AllExclusive m rest
Picked-AllExclusive m {t = t} (here {xs = rest}) (holder, differ, exclusive) =
    (holder, AllDiffer-AllOther m t rest differ, exclusive)
Picked-AllExclusive m (there {x = u} pick) (holder, differ, exclusive) =
    let (one, others, left) = Picked-AllExclusive m pick exclusive in
    let (ne, rest) = Picked-AllDiffer m u pick differ in (one, (ne, others), (holder, rest, left))
