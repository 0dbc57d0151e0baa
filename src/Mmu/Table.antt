-- ===== src/Mmu/Table.antt =====
-- The loops that fill a translation table: each ends, writes each of the 4096 descriptors once,
-- and no other word.
use rpi2_baremetal.Common.{
  ℕ, zero, suc, ◌+◌, ◌*◌, ◌/◌, ◌^◌, ◌<◌, ◌≤◌, ◌≡◌, refl, ◌≢◌, inl, inr, arith, bit_and, bit_or,
  bit_or_fields, bit_or-zero, bit_or_low, sym, bit_and_shift, bit_and_mask, ◌==◌, Bool-cases,
  ==_true, ==_false, ap, ap₂, ◌∙◌, u32,
}
use rpi2_baremetal.Machine.{Machine, M, Outcome, done, store, update, then-done}
use rpi2_baremetal.Mmu.{mmu_section, mmu_fault, section_loop, fld_sba_mask}

-- The address of the descriptor for section `q`.
abbrev pub slot : ℕ → ℕ → ℕ
slot ttba q = ttba + 4 * q

-- A section descriptor and a fault descriptor for a section of its own address.
abbrev pub descriptor : ℕ → ℕ → ℕ
descriptor q flags = q * 2 ^ 20 + bit_or flags 2

module _ (t q : ℕ) (lt : q < 4096) where
  table_id : q * 2 ^ 20 / 2 ^ 20 ≡ q
  table_id = omega arith

  address : bit_or (t * 2 ^ 14) (q * 2 ^ 20 / 2 ^ 20 * 2 ^ 2) ≡ slot (t * 2 ^ 14) q
  address = rw table_id (bit_or_fields 14 t (q * 4) (omega arith) ∙ omega arith)

  base : bit_and (q * 2 ^ 20) fld_sba_mask ≡ q * 2 ^ 20
  base = bit_and_shift 20 (q * 2 ^ 20) 0xfff ∙ rw table_id (rw (bit_and_mask 12 q) (omega arith))

  section_word :
      (flags : ℕ)
      → flags < 2 ^ 20
      → bit_or (bit_or (bit_and (q * 2 ^ 20) fld_sba_mask) flags) 2 ≡ descriptor q flags
  section_word flags fits =
      ap (λ (x : ℕ). bit_or (bit_or x flags) 2) base
      ∙ (ap (λ (x : ℕ). bit_or x 2) (bit_or_fields 20 q flags fits)
          ∙ bit_or_low 20 q flags 2 fits (omega arith))

  pub mmu_section-store :
      (flags : ℕ) (m : Machine)
      → flags < 2 ^ 20
      → mmu_section (q * 2 ^ 20) (q * 2 ^ 20) flags (t * 2 ^ 14) m
        ≡ done tt (record m { mem = update m.mem (slot (t * 2 ^ 14) q) (descriptor q flags) })
  unfolding mmu_section store
  mmu_section-store flags m fits =
      ap₂ (λ (a w : ℕ). done tt (record m { mem = update m.mem a w })) address
        (section_word flags fits)

  pub mmu_fault-store :
      (m : Machine)
      → mmu_fault (q * 2 ^ 20) (q * 2 ^ 20) (t * 2 ^ 14) m
        ≡ done tt (record m { mem = update m.mem (slot (t * 2 ^ 14) q) (q * 2 ^ 20) })
  unfolding mmu_fault store
  mmu_fault-store m =
      ap₂ (λ (a w : ℕ). done tt (record m { mem = update m.mem a w })) address
        (ap (λ (x : ℕ). bit_or x 0) base ∙ bit_or-zero (q * 2 ^ 20))

-- The body of a loop writes the word `word q` for section `q` into its slot, and nothing else.
abbrev pub Writes : ℕ → (ℕ → ℕ) → (ℕ → M (Unit {0})) → Type 0
Writes ttba word body =
    (q : ℕ) (m : Machine)
    → q < 4096
    → body (q * 2 ^ 20) m ≡ done tt (record m { mem = update m.mem (slot ttba q) (word q) })

-- Memory in which the sections from `first` on have their words, and all else is as in `old`.
pub record IsFilled (ttba : ℕ) (word : ℕ → ℕ) (first : ℕ) (old new : ℕ → ℕ) : Type 0 where
  pub inside : (q : ℕ) → first ≤ q → q < 4096 → new (slot ttba q) ≡ word q
  pub outside : (a : ℕ) → ((q : ℕ) → first ≤ q → q < 4096 → a ≢ slot ttba q) → new a ≡ old a

-- The loop returns with the memory `new`.
abbrev pub Fills : ℕ → (ℕ → ℕ) → ℕ → Machine → Outcome (Unit {0}) → Type 0
Fills ttba word first m r =
    (new : ℕ → ℕ) × (r ≡ done tt (record m { mem = new })) × IsFilled ttba word first m.mem new

IsFilled-step :
    (ttba : ℕ) (word : ℕ → ℕ) (q : ℕ) (old new : ℕ → ℕ)
    → q < 4096
    → IsFilled ttba word (q + 1) (update old (slot ttba q) (word q)) new
    → IsFilled ttba word q old new
IsFilled-step ttba word q old new lt f = record {
  inside = λ r l h. elim (Bool-cases (r == q)) [
    | inl here ↦
        let e : r ≡ q = ground arith in
        rw e (
          f.outside (slot ttba q) (λ r' l' h'. omega arith)
          ∙ rw (==_true (slot ttba q) (slot ttba q) refl))
    | inr later ↦ f.inside r (ground arith) h
  ];
  outside = λ a ne.
      f.outside a (λ r l h. ne r (omega arith) h)
      ∙ rw (==_false (slot ttba q) a (λ e. ne q (omega arith) lt (sym e)));
}

module _ (ttba : ℕ) (word : ℕ → ℕ) (body : ℕ → M (Unit {0})) (writes : Writes ttba word body) where
  loop-Fills :
      (n q : ℕ) (m : Machine)
      → q + n ≡ 4096
      → 0 < n
      → Fills ttba word q m (section_loop n body (q * 2 ^ 20) m)
  unfolding section_loop
  loop-Fills zero q m sum pos = absurd (omega arith)
  loop-Fills (suc n) q m sum pos = elim (Bool-cases (q * 2 ^ 20 == 0xfff0_0000)) [
    | inl last ↦ (
      update m.mem (slot ttba q) (word q),
      then-done (body (q * 2 ^ 20)) _ m (writes q m (omega arith)) ∙ rw last,
      record {
        inside = λ r l h.
            let e : r ≡ q = ground arith in rw (e, ==_true (slot ttba q) (slot ttba q) refl);
        outside =
            λ a ne. rw (==_false (slot ttba q) a (λ e. ne q (omega arith) (omega arith) (sym e)));
      },
    )
    | inr more ↦
        let m1 : Machine = record m { mem = update m.mem (slot ttba q) (word q) } in
        let (new, e, f) = loop-Fills n (q + 1) m1 (omega arith) (ground arith) in
        let next : u32 (q * 2 ^ 20 + 0x10_0000) ≡ (q + 1) * 2 ^ 20 = ground arith in
        (
          new,
          then-done (body (q * 2 ^ 20)) _ m (writes q m (omega arith)) ∙ rw (more, next) e,
          IsFilled-step ttba word q m.mem new (omega arith) f,
        )
  ]

  pub table-Fills : (m : Machine) → Fills ttba word 0 m (section_loop 4096 body 0 m)
  table-Fills m = loop-Fills 4096 0 m refl (omega arith)
