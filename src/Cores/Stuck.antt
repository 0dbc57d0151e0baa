-- ===== src/Cores/Stuck.antt =====
-- What a message that does not return does to the cores in `inc_waking_cores`.
use rpi2_baremetal.Common.{ℕ, ◌≡◌, ◌≢◌, refl, ap, ◌∙◌, Bool, true, false, arith}
use rpi2_baremetal.Cores.{
  Shared, Pc, has_lock, Move, call, Cores, Step, move, lose, Runs, Reach, start, later,
}
use rpi2_baremetal.Cores.Alone.{Move-answers}
use rpi2_baremetal.Cores.Invariant.{owns, guard, Inv, Reach-Inv, Step-Inv}
use rpi2_baremetal.Cores.Exclusion.{in_section, in_section-owns}

-- Core `j` has the lock, and is in a message that does not return.
record IsStuck (j : ℕ) (s : Cores) : Type 0 where
  at : s.pc j ≡ has_lock
  silent : s.mem.answers j ≡ false

-- No other move of core `j`, and no store by another core, is possible.
Move-IsStuck :
    {i j k : ℕ} {m m' : Shared} {q p : Pc} (pc : ℕ → Pc)
    → Move i m q m' p k
    → pc i ≡ q
    → ((a : ℕ) → owns (pc a) ≡ true → a ≡ j)
    → pc j ≡ has_lock
    → m.answers j ≡ false
    → (i ≢ j) × (k ≡ 0)
Move-IsStuck {i} pc call e only at silent = ground (arith, only i)
Move-IsStuck {i} pc mv e only at silent = ground (arith, guard mv, only i)

module _ {count n j : ℕ} where
  only_owner :
      {s : Cores} → Inv count n s.mem s.pc → IsStuck j s → (a : ℕ) → owns (s.pc a) ≡ true → a ≡ j
  only_owner inv stuck a own = inv.unique a j own (ap owns stuck.at)

  Step-IsStuck :
      {s t : Cores} {k : ℕ}
      → Inv count n s.mem s.pc
      → IsStuck j s
      → Step s t k
      → IsStuck j t × (k ≡ 0)
  Step-IsStuck {s} inv stuck (move i {p = p} mv) =
      let (other, none) = Move-IsStuck s.pc mv refl (only_owner inv stuck) stuck.at stuck.silent in
      (
        record {
          at = ground (arith, stuck.at);
          silent = ap (λ (f : ℕ → Bool). f j) (Move-answers mv) ∙ stuck.silent;
        },
        none,
      )
  Step-IsStuck inv stuck (lose i) = (record { at = stuck.at; silent = stuck.silent }, refl)

Runs-IsStuck :
    {count n j : ℕ} {s t : Cores} {k : ℕ}
    → Inv count n s.mem s.pc
    → IsStuck j s
    → Runs s t k
    → IsStuck j t × (k ≡ 0) × (n' : ℕ) × Inv count n' t.mem t.pc
Runs-IsStuck inv stuck start = (stuck, refl, _, inv)
Runs-IsStuck inv stuck (later runs step) =
    let (stuck', none, n', inv') = Runs-IsStuck inv stuck runs in
    let (stuck'', none') = Step-IsStuck inv' stuck' step in
    (stuck'', omega arith, _, Step-Inv step inv')

-- A core that has got the lock of `inc_waking_cores`, and whose message about it does not return, is
-- the end for all: however any number of cores go on from there, the core stays in its message, the
-- lock word stays 1, no core but it gets between `_spin_req` and `_spin_rel`, and the counter is
-- never stored again.
pub Reach-stuck :
    (answers : ℕ → Bool) (count : ℕ) {n : ℕ} {s t : Cores} {k : ℕ}
    → Reach answers count s n
    → (j : ℕ) → s.pc j ≡ has_lock
    → s.mem.answers j ≡ false
    → Runs s t k
    → (t.pc j ≡ has_lock)
      × (t.mem.lock ≡ 1)
      × ((i : ℕ) → in_section (t.pc i) ≡ true → i ≡ j)
      × (k ≡ 0)
Reach-stuck answers count {t = t} reach j at silent runs =
    let (stuck, none, _, inv) =
      Runs-IsStuck (Reach-Inv answers count reach) (record { at = at; silent = silent }) runs in
    let own : owns (t.pc j) ≡ true = ap owns stuck.at in
    (
      stuck.at,
      inv.held j own,
      λ i inside. inv.unique i j (in_section-owns (t.pc i) inside) own,
      none,
    )
