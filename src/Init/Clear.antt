-- ===== src/Init/Clear.antt =====
-- The clearing of .bss at the start of `sys_init_primary`.
use rpi2_baremetal.Common.{
  ℕ, zero, suc, ◌+◌, ◌-◌, ◌/◌, ◌%◌, ◌^◌, ◌≤◌, ◌<◌, ◌≡◌, refl, sym, ap, ◌∙◌, arith, u32, lane,
  with_byte,
}
use rpi2_baremetal.Machine.{Machine, done, done-machine, byte_at, put_byte, store_byte}
use rpi2_baremetal.Heap.Bytes.{set_loop, set_loop-IsFilled}
use rpi2_baremetal.Init.Start.{bss_loop}

-- Every word of memory has 32 bits.
abbrev pub AllWords : (ℕ → ℕ) → Type 0
AllWords mem = (a : ℕ) → mem a < 2 ^ 32

with_byte_bound : (w r : ℕ) → w < 2 ^ 32 → with_byte w r 0 < 2 ^ 32
with_byte_bound w zero lt = omega arith
with_byte_bound w (suc zero) lt = omega arith
with_byte_bound w (suc (suc zero)) lt = omega arith
with_byte_bound w (suc (suc (suc r))) lt = omega arith

put_byte-AllWords : (mem : ℕ → ℕ) (a : ℕ) → AllWords mem → AllWords (put_byte mem a 0)
put_byte-AllWords mem a words b =
    ground (arith, words b, with_byte_bound (mem (a - a % 4)) (a % 4) (words (a - a % 4)))

-- The loop is that of `memset`.
bss_loop-set_loop : (n p : ℕ) (m : Machine) → bss_loop n p m ≡ set_loop n p 0 m
unfolding bss_loop set_loop store_byte
bss_loop-set_loop zero p m = refl
bss_loop-set_loop (suc n) p m =
    bss_loop-set_loop n (u32 (p + 1)) (record m { mem = put_byte m.mem p 0 })

set_loop-AllWords :
    (n p : ℕ) (m : Machine) (mem' : ℕ → ℕ)
    → set_loop n p 0 m ≡ done tt (record m { mem = mem' })
    → AllWords m.mem
    → AllWords mem'
unfolding set_loop store_byte
set_loop-AllWords zero p m mem' e words =
    λ a. rw (sym (ap (λ n. n.mem a) (done-machine e))) (words a)
set_loop-AllWords (suc n) p m mem' e words =
    set_loop-AllWords n (u32 (p + 1)) (record m { mem = put_byte m.mem p 0 }) mem' e
      (put_byte-AllWords m.mem p words)

word-zero :
    (w : ℕ)
    → w < 2 ^ 32
    → w / lane 0 % 256 ≡ 0
    → w / lane 1 % 256 ≡ 0
    → w / lane 2 % 256 ≡ 0
    → w / lane 3 % 256 ≡ 0
    → w ≡ 0
word-zero w lt e0 e1 e2 e3 = omega arith

byte_zero :
    (mem : ℕ → ℕ) (a r : ℕ) → a % 4 ≡ 0 → r < 4 → byte_at mem (a + r) ≡ 0 → mem a / lane r % 256 ≡ 0
byte_zero mem a r aligned lt e =
    ap (λ (k : ℕ). mem k / lane r % 256) start
    ∙ (ap (λ (k : ℕ). mem (a + r - (a + r) % 4) / lane k % 256) place ∙ e)
  where
    start : a ≡ a + r - (a + r) % 4
    start = omega arith

    place : r ≡ (a + r) % 4
    place = omega arith

-- A word of .bss is 0 once the `n` bytes from `first` on are cleared.
pub bss_loop-zero :
    (n first a : ℕ) (m : Machine)
    → AllWords m.mem
    → first + n < 2 ^ 32
    → a % 4 ≡ 0
    → first ≤ a
    → a + 4 ≤ first + n
    → (mem' : ℕ → ℕ) × (bss_loop n first m ≡ done tt (record m { mem = mem' })) × (mem' a ≡ 0)
bss_loop-zero n first a m words fits aligned low high =
    let (mem', e, filled) = set_loop-IsFilled n first 0 m fits in
    let zero_at : (r : ℕ) → r < 4 → mem' a / lane r % 256 ≡ 0 =
      λ r lt. byte_zero mem' a r aligned lt (filled.inside (a + r) (omega arith) (omega arith)) in
    (
      mem',
      bss_loop-set_loop n first m ∙ e,
      word-zero (mem' a) (set_loop-AllWords n first m mem' e words a) (zero_at 0 (omega arith))
          (zero_at 1 (omega arith)) (zero_at 2 (omega arith)) (zero_at 3 (omega arith)),
    )
