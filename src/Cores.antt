-- ===== src/Cores.antt =====
-- Cores that count themselves by `inc_waking_cores` of cpu.c at the same time: an access to shared
-- memory is a step of its own. `_spin_req` and `_spin_rel` of boot.s are taken instruction by
-- instruction; the instructions that load a constant, the barriers and the returns are left out.
-- `r2` is the register of that name, `z` the flag that `cmp` sets, `eq` instructions test.
pub mod Alone
pub mod Exclusion
pub mod Invariant
pub mod Progress
pub mod Refines
pub mod Stuck
use rpi2_baremetal.Common.{ℕ, ◌+◌, ◌%◌, ◌^◌, ◌≡◌, Bool, true, false, ◌&&◌, not, ◌==◌, if◌then◌else◌}

-- The memory that the cores share: `SYSCommonInfo->lock`, `SYSCommonInfo->waking_cores`, and which
-- cores have the lock's word marked for exclusive access. `answers` tells the cores whose messages
-- about a lock return: core 0, which prints none, and those that print with the MMU off. It stays.
pub record Shared : Type 0 where
  pub lock : ℕ
  pub waking_cores : ℕ
  pub marked : ℕ → Bool
  pub answers : ℕ → Bool

-- Where a core stands, with what it has in registers there.
pub data Pc : Type 0 where
  outside : Pc
  req_ldrex : Pc
  req_cmp : (r2 : ℕ) → Pc
  req_strexeq : (r2 : ℕ) (z : Bool) → Pc
  req_cmpeq : (r2 : ℕ) (z : Bool) → Pc
  req_bne : (z : Bool) → Pc
  has_lock : Pc  -- `_spin_req` has returned; next, a core other than core 0 prints a message
  section : Pc
  has_count : (count : ℕ) → Pc
  rel_ldrex : Pc
  rel_cmp : (r2 : ℕ) → Pc
  rel_strexeq : (r2 : ℕ) (z : Bool) → Pc
  rel_cmpeq : (r2 : ℕ) (z : Bool) → Pc
  rel_bne : (z : Bool) → Pc
  released : Pc  -- `_spin_rel` has returned; next, a core other than core 0 prints a message

abbrev pub set_mark : (ℕ → Bool) → ℕ → Bool → ℕ → Bool
set_mark f i b j = if i == j then b else f j

-- `ldrex` marks the word for the core.
abbrev pub mark : ℕ → Shared → Shared
mark i m = record m { marked = set_mark m.marked i true }

-- A store to the word takes every core's mark.
abbrev pub put_lock : ℕ → Shared → Shared
put_lock v m = record m { lock = v; marked = λ _. false }

-- A `strex` that fails changes no memory and takes the core's mark.
abbrev pub unmark : ℕ → Shared → Shared
unmark i m = record m { marked = set_mark m.marked i false }

-- A step of core `i`. The last index is how often it has stored the counter: once or not at all.
pub data Move (i : ℕ) (m : Shared) : Pc → Shared → Pc → ℕ → Type 0 where
  call : Move i m outside m req_ldrex 0
  req_load : Move i m req_ldrex (mark i m) (req_cmp m.lock) 0
  req_test : {r2 : ℕ} → Move i m (req_cmp r2) m (req_strexeq r2 (r2 == 0)) 0
  req_skip : {r2 : ℕ} → Move i m (req_strexeq r2 false) m (req_cmpeq r2 false) 0
  req_take :
      {r2 : ℕ}
      → m.marked i ≡ true
      → Move i m (req_strexeq r2 true) (put_lock 1 m) (req_cmpeq 0 true) 0
  req_fail :
      {r2 : ℕ}
      → m.marked i ≡ false
      → Move i m (req_strexeq r2 true) (unmark i m) (req_cmpeq 1 true) 0
  req_result : {r2 : ℕ} {z : Bool} → Move i m (req_cmpeq r2 z) m (req_bne (z && r2 == 0)) 0
  req_again : Move i m (req_bne false) m req_ldrex 0
  req_return : Move i m (req_bne true) m has_lock 0
  req_message : m.answers i ≡ true → Move i m has_lock m section 0
  load_count : Move i m section m (has_count m.waking_cores) 0
  store_count :
      {count : ℕ}
      → Move i m (has_count count) (record m { waking_cores = (count + 1) % 2 ^ 32 }) rel_ldrex 1
  rel_load : Move i m rel_ldrex (mark i m) (rel_cmp m.lock) 0
  rel_test : {r2 : ℕ} → Move i m (rel_cmp r2) m (rel_strexeq r2 (r2 == 1)) 0
  rel_skip : {r2 : ℕ} → Move i m (rel_strexeq r2 false) m (rel_cmpeq r2 false) 0
  rel_clear :
      {r2 : ℕ}
      → m.marked i ≡ true
      → Move i m (rel_strexeq r2 true) (put_lock 0 m) (rel_cmpeq 0 true) 0
  rel_fail :
      {r2 : ℕ}
      → m.marked i ≡ false
      → Move i m (rel_strexeq r2 true) (unmark i m) (rel_cmpeq 1 true) 0
  rel_result : {r2 : ℕ} {z : Bool} → Move i m (rel_cmpeq r2 z) m (rel_bne (z && r2 == 0)) 0
  rel_again : Move i m (rel_bne false) m rel_ldrex 0
  rel_return : Move i m (rel_bne true) m released 0
  rel_message : m.answers i ≡ true → Move i m released m outside 0

pub record Cores : Type 0 where
  pub mem : Shared
  pub pc : ℕ → Pc

abbrev pub set_pc : (ℕ → Pc) → ℕ → Pc → ℕ → Pc
set_pc f i p j = if i == j then p else f j

-- One of the cores makes a step; or a core loses its mark, which may happen at any time.
pub data Step (s : Cores) : Cores → ℕ → Type 0 where
  move :
      (i : ℕ) {m : Shared} {p : Pc} {k : ℕ}
      → Move i s.mem (s.pc i) m p k
      → Step s (record { mem = m; pc = set_pc s.pc i p }) k
  lose : (i : ℕ) → Step s (record s { mem = unmark i s.mem }) 0

-- The lock is free, and no core is in `inc_waking_cores`.
abbrev pub at_rest : (ℕ → Bool) → ℕ → Cores
at_rest answers count = record {
  mem = record { lock = 0; waking_cores = count % 2 ^ 32; marked = λ _. false; answers = answers };
  pc = λ _. outside;
}

-- Any number of cores from `s` on, in any order of their steps, with the counter stored `n` times.
pub data Runs (s : Cores) : Cores → ℕ → Type 0 where
  start : Runs s s 0
  later : {t u : Cores} {n k : ℕ} → Runs s t n → Step t u k → Runs s u (n + k)

-- The states that they get to.
abbrev pub Reach : (ℕ → Bool) → ℕ → Cores → ℕ → Type 0
Reach answers count = Runs (at_rest answers count)
