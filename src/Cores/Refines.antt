-- ===== src/Cores/Refines.antt =====
-- The locks that the other modules take a call at a time are those of boot.s, an instruction at a
-- time, while no other core writes the word.
use rpi2_baremetal.Common.{ℕ, ◌≡◌, ◌⊎◌, inl, inr, refl, Bool-cases, ◌==◌, arith}
use rpi2_baremetal.Machine.{Machine, M, done, hang}
use rpi2_baremetal.Uart.{raw_spin_req, raw_spin_rel}
use rpi2_baremetal.Uart.Locks.{
  with_lock, raw_spin_req-free, raw_spin_req-taken, raw_spin_rel-taken, raw_spin_rel-free,
}
use rpi2_baremetal.Cores.{Shared, Pc, req_ldrex, has_lock, rel_ldrex, released, put_lock}
use rpi2_baremetal.Cores.Alone.{Alone, here, req-run, rel-run, req-Waits, rel-Waits}

-- The call `c` and the instructions from `p` to `q` do the same to the lock `l`, whose word is that
-- of `s`: both end, with the same word, or neither ever ends.
abbrev pub Refines : M (Unit {0}) → ℕ → Pc → Pc → Machine → ℕ → Shared → Type 0
Refines c l p q m i s =
    ((v : ℕ) × (c m ≡ done tt (with_lock m l v)) × Alone i s p (put_lock v s) q 0)
    ⊎ ((c m ≡ hang) × ((s' : Shared) (k : ℕ) → Alone i s p s' q k → ⊥))

-- As long as no step of another core comes between and no mark is lost, `raw_spin_req` and
-- `raw_spin_rel` do what the instructions of `_spin_req` and `_spin_rel` do: where the one returns
-- the instructions reach their end and leave the same word, and where it waits for ever no run of
-- the instructions gets there.
pub raw_spin-Refines :
    (l i : ℕ) (m : Machine) (s : Shared)
    → s.lock ≡ m.lock l
    → Refines (raw_spin_req l) l req_ldrex has_lock m i s
      × Refines (raw_spin_rel l) l rel_ldrex released m i s
raw_spin-Refines l i m s word = (
  elim (Bool-cases (m.lock l == 0)) [
    | inl free ↦ inl (1, raw_spin_req-free l m (ground arith), req-run i (ground arith) here)
    | inr taken ↦ inr (
      raw_spin_req-taken l m (ground arith),
      λ s' k run. (req-Waits s.lock (ground arith) refl run).1,
    )
  ],
  elim (Bool-cases (m.lock l == 1)) [
    | inl taken ↦ inl (0, raw_spin_rel-taken l m (ground arith), rel-run i (ground arith) here)
    | inr free ↦ inr (
      raw_spin_rel-free l m (ground arith),
      λ s' k run. (rel-Waits s.lock (ground arith) refl run).1,
    )
  ],
)
