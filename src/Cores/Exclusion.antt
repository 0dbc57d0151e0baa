-- ===== src/Cores/Exclusion.antt =====
-- What the lock of `inc_waking_cores` is for: one core at a time, and no update that is lost.
use rpi2_baremetal.Common.{ℕ, ◌+◌, ◌%◌, ◌^◌, ◌≡◌, Bool, true, false, arith}
use rpi2_baremetal.Cores.{Pc, outside, has_lock, section, has_count, rel_ldrex, Cores, Reach}
use rpi2_baremetal.Cores.Invariant.{owns, Reach-Inv}

-- Between the return of `spin_req` and the call of `spin_rel`.
abbrev pub in_section : Pc → Bool
in_section has_lock = true
in_section section = true
in_section (has_count _) = true
in_section rel_ldrex = true
in_section _ = false

pub in_section-owns : (p : Pc) → in_section p ≡ true → owns p ≡ true
in_section-owns outside e = e
in_section-owns p e = ground arith

-- However many cores run `inc_waking_cores`, as often as they like and in whatever order their
-- accesses to memory come, with exclusive marks lost at any time: no two of them are between
-- `_spin_req` and `_spin_rel` at once, and while one is, the lock word is 1.
pub Reach-exclusion :
    (answers : ℕ → Bool) (count : ℕ) {n : ℕ} {s : Cores}
    → Reach answers count s n
    → (i j : ℕ) → in_section (s.pc i) ≡ true
    → in_section (s.pc j) ≡ true
    → (i ≡ j) × (s.mem.lock ≡ 1)
Reach-exclusion answers count {s = s} reach i j in_i in_j =
    let inv = Reach-Inv answers count reach in
    let own = in_section-owns (s.pc i) in_i in
    (inv.unique i j own (in_section-owns (s.pc j) in_j), inv.held i own)

-- However many cores run `inc_waking_cores`, in whatever order: no increment is lost. After `n` of
-- them have been stored the counter is `n` more than it was, as a 32-bit word.
pub Reach-waking_cores :
    (answers : ℕ → Bool) (count : ℕ) {n : ℕ} {s : Cores}
    → Reach answers count s n
    → s.mem.waking_cores ≡ (count + n) % 2 ^ 32
Reach-waking_cores answers count reach = (Reach-Inv answers count reach).counted
