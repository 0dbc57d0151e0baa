-- ===== src/Mmu/Entries.antt =====
-- What the three tables of mmu.c hold in each section, as descriptor words.
use rpi2_baremetal.Common.{
  List, [], ◌∷◌, ℕ, ◌+◌, ◌*◌, ◌^◌, ◌<◌, ◌≡◌, refl, Bool, true, false, Option, some, none, arith,
  if◌then◌else◌, ltb, u32, ap, ◌∙◌,
}
use rpi2_baremetal.Machine.{Area, Machine, M, done, update}
use rpi2_baremetal.Sysinfo.Config.{section_size}
use rpi2_baremetal.Mmu.{
  within, sp_base, shared_bottom, shared_limit, periph_bottom, periph_limit, mmu_section, mmu_fault,
  amp_entry, smp_entry,
}
use rpi2_baremetal.Mmu.Table.{slot, descriptor, Writes, mmu_section-store, mmu_fault-store}

-- One descriptor: the flags of a section, or none for a fault.
unfoldable put : ℕ → ℕ → Option ℕ → M (Unit {0})
put ttba va none = mmu_fault va va ttba
put ttba va (some flags) = mmu_section va va flags ttba

abbrev pub word_of : Option ℕ → ℕ → ℕ
word_of none q = q * 2 ^ 20
word_of (some flags) q = descriptor q flags

abbrev Small : Option ℕ → Type 0
Small none = Unit
Small (some flags) = flags < 2 ^ 20

put-store :
    (t q : ℕ) (o : Option ℕ) (m : Machine)
    → q < 4096
    → Small o
    → put (t * 2 ^ 14) (q * 2 ^ 20) o m
      ≡ done tt (record m { mem = update m.mem (slot (t * 2 ^ 14) q) (word_of o q) })
unfolding put
put-store t q none m lt s = mmu_fault-store t q lt m
put-store t q (some flags) m lt s = mmu_section-store t q lt flags m s

-- A ladder of tests: the flags of the first that holds.
abbrev pub pick : List (Bool × ℕ) → Option ℕ
pick [] = none
pick ((b, flags) ∷ rest) = if b then some flags else pick rest

-- The same ladder as the code's chain of `else if`.
abbrev pub ladder : ℕ → ℕ → List (Bool × ℕ) → M (Unit {0})
ladder ttba va [] = mmu_fault va va ttba
ladder ttba va ((b, flags) ∷ rest) = if b then mmu_section va va flags ttba else ladder ttba va rest

ladder-put :
    (ttba va : ℕ) (rungs : List (Bool × ℕ)) → ladder ttba va rungs ≡ put ttba va (pick rungs)
unfolding put
ladder-put ttba va [] = refl
ladder-put ttba va ((true, flags) ∷ rest) = refl
ladder-put ttba va ((false, flags) ∷ rest) = ladder-put ttba va rest

abbrev AllSmall : List (Bool × ℕ) → Type 0
AllSmall [] = Unit
AllSmall ((b, flags) ∷ rest) = (flags < 2 ^ 20) × AllSmall rest

pick-Small : (rungs : List (Bool × ℕ)) → AllSmall rungs → Small (pick rungs)
pick-Small [] s = tt
pick-Small ((true, flags) ∷ rest) (s, t) = s
pick-Small ((false, flags) ∷ rest) (s, t) = pick-Small rest t

unfoldable pub amp_rungs : Area → Area → Area → ℕ → ℕ → List (Bool × ℕ)
amp_rungs kram uram kheap sp va =
    (ltb va sp_base, 0x11c0c)
    ∷ (within sp (u32 (sp + section_size)) va, 0x408)
    ∷ (within shared_bottom shared_limit va, 0x10c08)
    ∷ (within kram.bottom kram.limit va, 0x140c)
    ∷ (within kheap.bottom kheap.limit va, 0x1140c)
    ∷ (within uram.bottom uram.limit va, 0x1c0c)
    ∷ (within periph_bottom periph_limit va, 0xc04)
    ∷ []

unfoldable pub smp_rungs : Area → Area → Area → ℕ → ℕ → ℕ → List (Bool × ℕ)
smp_rungs kram uram kheap sp cpus va =
    (ltb va sp_base, 0x10c0c)
    ∷ (within sp (u32 (sp + section_size * cpus)) va, 0x408)
    ∷ (within shared_bottom shared_limit va, 0x10c08)
    ∷ (within kram.bottom kram.limit va, 0x1040c)
    ∷ (within kheap.bottom kheap.limit va, 0x1040c)
    ∷ (within uram.bottom uram.limit va, 0xc0c)
    ∷ (within periph_bottom periph_limit va, 0xc04)
    ∷ (ltb periph_limit va, 0xc04)
    ∷ []

module _ (t q : ℕ) (m : Machine) (lt : q < 4096) where
  pub rungs-store :
      (rungs : List (Bool × ℕ))
      → AllSmall rungs
      → ladder (t * 2 ^ 14) (q * 2 ^ 20) rungs m
        ≡ done tt (record m { mem = update m.mem (slot (t * 2 ^ 14) q) (word_of (pick rungs) q) })
  rungs-store rungs s =
      ap (λ (c : M (Unit {0})). c m) (ladder-put (t * 2 ^ 14) (q * 2 ^ 20) rungs)
      ∙ put-store t q (pick rungs) m lt (pick-Small rungs s)

module _ (t : ℕ) (kram uram kheap : Area) (sp : ℕ) where
  pub amp_entry-Writes :
      Writes
        (t * 2 ^ 14)
        (λ q. word_of (pick (amp_rungs kram uram kheap sp (q * 2 ^ 20))) q)
        (amp_entry (t * 2 ^ 14) kram uram kheap sp)
  unfolding amp_entry amp_rungs
  amp_entry-Writes q m lt =
      rungs-store t q m lt (amp_rungs kram uram kheap sp (q * 2 ^ 20)) (ground arith)

  pub smp_entry-Writes :
      (cpus : ℕ)
      → Writes
          (t * 2 ^ 14)
          (λ q. word_of (pick (smp_rungs kram uram kheap sp cpus (q * 2 ^ 20))) q)
          (smp_entry (t * 2 ^ 14) kram uram kheap sp cpus)
  unfolding smp_entry smp_rungs
  smp_entry-Writes cpus q m lt =
      rungs-store t q m lt (smp_rungs kram uram kheap sp cpus (q * 2 ^ 20)) (ground arith)
