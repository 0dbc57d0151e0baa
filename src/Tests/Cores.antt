-- ===== src/Tests/Cores.antt =====
-- The theorems on cores that count themselves at the same time, at a run of three cores: core 0 takes
-- the lock between two instructions of core 1, which then waits, and core 2 has not begun.
use rpi2_baremetal.Common.{ℕ, ◌≡◌, refl, Bool, true, not, ◌==◌, arith}
use rpi2_baremetal.Uart.{raw_spin_req, raw_spin_rel}
use rpi2_baremetal.Cores.{
  Shared, outside, req_ldrex, has_lock, rel_ldrex, released, call, req_load, req_test, req_take,
  req_fail, req_result, req_return, req_message, load_count, store_count, Cores, move, Runs, Reach,
  at_rest, start, later,
}
use rpi2_baremetal.Cores.Alone.{Alone}
use rpi2_baremetal.Cores.Stuck.{Reach-stuck}
use rpi2_baremetal.Cores.Exclusion.{in_section, Reach-exclusion, Reach-waking_cores}
use rpi2_baremetal.Cores.Progress.{Reach-no_deadlock}
use rpi2_baremetal.Cores.Refines.{Refines, raw_spin-Refines}
use rpi2_baremetal.Tests.{machine}

-- The messages of cores 0 and 2 return.
abbrev returning : ℕ → Bool
returning i = not (i == 1)

record Found (n : ℕ) : Type 0 where
  state : Cores
  reach : Reach returning 2 state n

abbrev taken : Found 0
taken = record {
  state = _;
  reach =
      later
        (later
          (later
            (later
              (later
                (later (later (later (later start (move 1 call)) (move 0 call)) (move 1 req_load))
                  (move 0 req_load))
                (move 0 req_test))
              (move 1 req_test))
            (move 0 (req_take refl)))
          (move 0 req_result))
        (move 1 (req_fail refl));
}

abbrev inside : Found 0
inside = record {
  state = _;
  reach = later (later taken.reach (move 0 req_return)) (move 0 (req_message refl));
}

abbrev counted : Found 1
counted = record {
  state = _;
  reach = later (later inside.reach (move 0 load_count)) (move 0 store_count);
}

Reach-exclusion_example : (◌≡◌ {A = ℕ} 0 0) × (inside.state.mem.lock ≡ 1)
Reach-exclusion_example = Reach-exclusion returning 2 inside.reach 0 0 refl refl

Reach-waking_cores_example : counted.state.mem.waking_cores ≡ 3
Reach-waking_cores_example = Reach-waking_cores returning 2 counted.reach

Reach-no_deadlock_example :
    (t : Cores) × (k : ℕ) × Runs counted.state t k
    × (t.pc 2 ≡ outside)
    × (t.mem.lock ≡ 0)
    × (m : Shared) × Alone 2 t.mem outside m outside 1
Reach-no_deadlock_example =
    Reach-no_deadlock returning 2 counted.reach (λ j own. ground arith) 2 refl refl

-- Core 1 alone, up to its message.
abbrev in_message : Found 0
in_message = record {
  state = _;
  reach =
      later
        (later
          (later (later (later (later start (move 1 call)) (move 1 req_load)) (move 1 req_test))
            (move 1 (req_take refl)))
          (move 1 req_result))
        (move 1 req_return);
}

-- From there core 0 calls `_spin_req`, and loads the word.
abbrev waiting : Found 0
waiting = record {
  state = _;
  reach = later (later in_message.reach (move 0 call)) (move 0 req_load);
}

Reach-stuck_example :
    (waiting.state.pc 1 ≡ has_lock)
    × (waiting.state.mem.lock ≡ 1)
    × ((i : ℕ) → in_section (waiting.state.pc i) ≡ true → i ≡ 1)
    × (◌≡◌ {A = ℕ} 0 0)
Reach-stuck_example =
    Reach-stuck returning 2 in_message.reach 1 refl refl
      (later (later start (move 0 call)) (move 0 req_load))

raw_spin-Refines_example :
    Refines (raw_spin_req 1) 1 req_ldrex has_lock (machine 0 1) 0 (at_rest returning 2).mem
    × Refines (raw_spin_rel 1) 1 rel_ldrex released (machine 0 1) 0 (at_rest returning 2).mem
raw_spin-Refines_example = raw_spin-Refines 1 0 (machine 0 1) (at_rest returning 2).mem refl
