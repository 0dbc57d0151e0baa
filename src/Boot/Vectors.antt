-- ===== src/Boot/Vectors.antt =====
-- The vectors that core 0 moves to address 0.
use rpi2_baremetal.Common.{
  ℕ, zero, suc, ◌+◌, ◌*◌, ◌%◌, ◌^◌, ◌<◌, ◌≤◌, ◌≡◌, refl, ap, ◌∙◌, ◌⊎◌, inl, inr, arith, ◌-◌, ltb,
  Bool-cases,
}
use rpi2_baremetal.Boot.{ldmia, stmia, move_vectors}

-- `ldr pc, [pc, #24]`, as each of the eight vectors is: the word 32 bytes after it is where it jumps
-- to.
abbrev pub ldr_pc : ℕ
ldr_pc = 0xe59f_f018

-- Where a vector of this form jumps to. `pc` reads as the address of the instruction and 8.
abbrev pub vector : (ℕ → ℕ) → ℕ → ℕ
vector mem n = mem (4 * n + 8 + mem (4 * n) % 2 ^ 12)

stmia-other :
    (n a b x : ℕ) (old mem : ℕ → ℕ) → x < b ⊎ b + 4 * n ≤ x → stmia (ldmia n a old) b mem x ≡ mem x
unfolding ldmia stmia
stmia-other zero a b x old mem off = refl
stmia-other (suc n) a b x old mem (inl lt) =
    stmia-other n (a + 4) (b + 4) x old _ (inl (omega arith)) ∙ ground arith
stmia-other (suc n) a b x old mem (inr le) =
    stmia-other n (a + 4) (b + 4) x old _ (inr (omega arith)) ∙ ground arith

stmia-ldmia :
    (n a b k : ℕ) (old mem : ℕ → ℕ)
    → k < n
    → stmia (ldmia n a old) b mem (b + 4 * k) ≡ old (a + 4 * k)
unfolding ldmia stmia
stmia-ldmia zero a b k old mem lt = absurd (omega arith)
stmia-ldmia (suc n) a b zero old mem lt =
    ap (stmia (ldmia n (a + 4) old) (b + 4) _) (omega arith)
    ∙ (stmia-other n (a + 4) (b + 4) b old _ (inl (omega arith)) ∙ ground arith)
stmia-ldmia (suc n) a b (suc k) old mem lt =
    ap (stmia (ldmia n (a + 4) old) (b + 4) _) (omega arith)
    ∙ (stmia-ldmia n (a + 4) (b + 4) k old _ (omega arith) ∙ ap old (omega arith))

-- The sixteen words from 0x8000 on are those from 0 on; the rest of memory stays.
pub move_vectors-words :
    (mem : ℕ → ℕ) (n : ℕ) → n < 16 → move_vectors mem (4 * n) ≡ mem (0x8000 + 4 * n)
unfolding move_vectors
move_vectors-words mem n lt = elim (Bool-cases (ltb n 8)) [
  | inl low ↦
      stmia-other 8 0x8020 0x20 (4 * n) _ _ (inl (ground arith))
      ∙ (ap (stmia (ldmia 8 0x8000 mem) 0x0 mem) (omega arith)
          ∙ stmia-ldmia 8 0x8000 0x0 n mem mem (ground arith))
  | inr high ↦
      ap (stmia (ldmia 8 0x8020 (stmia (ldmia 8 0x8000 mem) 0x0 mem)) 0x20 _) (ground arith)
      ∙ (stmia-ldmia 8 0x8020 0x20 (n - 8) _ _ (ground arith)
          ∙ (stmia-other 8 0x8000 0x0 (0x8020 + 4 * (n - 8)) mem mem (inr (omega arith))
              ∙ ap mem (ground arith)))
]

pub move_vectors-other : (mem : ℕ → ℕ) (x : ℕ) → 64 ≤ x → move_vectors mem x ≡ mem x
unfolding move_vectors
move_vectors-other mem x le =
    stmia-other 8 0x8020 0x20 x _ _ (inr (omega arith))
    ∙ stmia-other 8 0x8000 0x0 x mem mem (inr (omega arith))

pub move_vectors-vector :
    (mem : ℕ → ℕ) (n : ℕ)
    → n < 8
    → mem (0x8000 + 4 * n) ≡ ldr_pc
    → vector (move_vectors mem) n ≡ mem (0x8020 + 4 * n)
move_vectors-vector mem n lt image =
    let instruction : move_vectors mem (4 * n) ≡ ldr_pc =
      move_vectors-words mem n (omega arith) ∙ image in
    rw instruction (
      ap (move_vectors mem) (omega arith)
      ∙ (move_vectors-words mem (8 + n) (omega arith) ∙ ap mem (omega arith)))
