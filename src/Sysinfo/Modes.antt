-- ===== src/Sysinfo/Modes.antt =====
-- Which processing modes are valid, and which entry of the table a core uses in one.
use rpi2_baremetal.Common.{
  ℕ, zero, suc, ◌*◌, ◌/◌, ◌%◌, ◌<◌, ◌≡◌, refl, ◌≢◌, ◌⊎◌, ◌↔◌, inl, inr, Bool, true, false, List, [],
  Option, none, some, arith, bit_and, bit_and_pow, bit_and_mask, minus_one, get_elem?,
  get_elem?-IsSome, get_elem?-none, length, ◌≤◌, ltb, ◌==◌, if◌then◌else◌, ◌∙◌, ap, Bool-cases,
  append-nil, ltb-true,
}
use rpi2_baremetal.Machine.{
  Machine, Hw, M, done, fault, pure, ◌>>◌, SysStructInfo, bind-done, bind-fault, then-done,
}
use rpi2_baremetal.Uart.{codes, uart_puts}
use rpi2_baremetal.Uart.Prints.{Drains, IsQuiet, with_bus, wires, console-Prints}
use rpi2_baremetal.Sysinfo.{
  is_smp, is_amp, is_valid_cpuid, is_valid_pm, sysstruct_smp_index, sysstruct_amp_index,
  get_sys_struct_info_index, get_sys_struct_info, struct_info,
}

-- The mode says SMP for the first cores and AMP for the rest, and one core alone is not SMP:
-- all cores AMP, or 2, 3 or 4 of them SMP. Only the low four bits count.
abbrev pub IsMode : ℕ → Type 0
IsMode pm = (pm % 16 ≡ 0xf) ⊎ (pm % 16 ≡ 0xc) ⊎ (pm % 16 ≡ 0x8) ⊎ (pm % 16 ≡ 0x0)

-- The message of `is_valid_pm`, from whether each core is SMP.
verdict : Bool → Bool → Bool → Bool → Option (List ℕ)
verdict false true _ _ = some (codes "invalid pm, PCore is amp but other core is smp\n")
verdict false false true _ = some (codes "invalid pm, PCore is amp but other core is smp\n")
verdict false false false true = some (codes "invalid pm, PCore is amp but other core is smp\n")
verdict false false false false = none
verdict true false _ _ = some (codes "smp is not single core\n")
verdict true true false true = some (codes "entire smp cores are continuous\n")
verdict true true _ _ = none

report : Hw → Option (List ℕ) → M Bool
report hw none = pure true
report hw (some s) = do uart_puts hw s; pure false

module _ (hw : Hw) (pm : ℕ) (m : Machine) where
  by_bits :
      (a b c d : Bool)
      → (bit_and pm 1 == 0) ≡ a
      → (bit_and pm 2 == 0) ≡ b
      → (bit_and pm 4 == 0) ≡ c
      → (bit_and pm 8 == 0) ≡ d
      → is_valid_pm hw pm m ≡ report hw (verdict a b c d) m
  unfolding is_valid_pm verdict report
  by_bits false false false false p q r s = rw (p, q, r, s)
  by_bits false false false true p q r s = rw (p, q, r, s)
  by_bits false false true d p q r s = rw (p, q, r)
  by_bits false true c d p q r s = rw (p, q)
  by_bits true false c d p q r s = rw (p, q)
  by_bits true true false false p q r s = rw (p, q, r, s)
  by_bits true true false true p q r s = rw (p, q, r, s)
  by_bits true true true false p q r s = rw (p, q, r, s)
  by_bits true true true true p q r s = rw (p, q, r, s)

-- The bits of a number as digits.
pub bit_tests :
    (pm : ℕ)
    → (bit_and pm 1 ≡ pm % 2)
      × (bit_and pm 2 ≡ pm / 2 % 2 * 2)
      × (bit_and pm 4 ≡ pm / 4 % 2 * 4)
      × (bit_and pm 8 ≡ pm / 8 % 2 * 8)
bit_tests pm =
    (bit_and_pow 0 pm ∙ omega arith, bit_and_pow 1 pm, bit_and_pow 2 pm, bit_and_pow 3 pm)

the_verdict : ℕ → Option (List ℕ)
the_verdict pm =
    verdict (bit_and pm 1 == 0) (bit_and pm 2 == 0) (bit_and pm 4 == 0) (bit_and pm 8 == 0)

verdict-none : (pm : ℕ) → (the_verdict pm ≡ none) ↔ IsMode pm
unfolding the_verdict verdict
verdict-none pm = ground (arith, bit_tests pm)

is_valid_pm-report :
    (hw : Hw) (pm : ℕ) (m : Machine) → is_valid_pm hw pm m ≡ report hw (the_verdict pm) m
unfolding the_verdict
is_valid_pm-report hw pm m = by_bits hw pm m _ _ _ _ refl refl refl refl

Option-cases : {A : Type 0} (o : Option A) → (o ≡ none) ⊎ ((a : A) × (o ≡ some a))
Option-cases none = inl refl
Option-cases (some a) = inr (a, refl)

-- A valid mode is accepted at once.
pub is_valid_pm-valid :
    (hw : Hw) (pm : ℕ) (m : Machine) → IsMode pm → is_valid_pm hw pm m ≡ done true m
is_valid_pm-valid hw pm m valid =
    is_valid_pm-report hw pm m ∙ rw ((verdict-none pm).1 valid) (unfold report in refl)

some-ne-none : {A : Type 0} {o : Option A} {a : A} → o ≡ some a → o ≡ none → ⊥
some-ne-none p q = cc

report-some :
    (hw : Hw) (o : Option (List ℕ)) (m : Machine)
    → Drains hw
    → IsQuiet m
    → o ≢ none
    → (ws : List (ℕ × ℕ)) × (t : ℕ) × (report hw o m ≡ done false (with_bus m ws t))
unfolding report
report-some hw none m live quiet ne = absurd (ne refl)
report-some hw (some s) m live quiet ne =
    let (t, e) = (console-Prints hw m s 0 live quiet).0 in
    (wires s, t, then-done (uart_puts hw s) (pure false) m e)

-- With a console that can be used, `is_valid_pm` returns, changes nothing but the console, and
-- answers yes exactly for the modes in which the SMP cores are none, or the first two, three or
-- four.
pub is_valid_pm-decides :
    (hw : Hw) (pm : ℕ) (m : Machine)
    → Drains hw
    → IsQuiet m
    → (ok : Bool) × (ws : List (ℕ × ℕ)) × (t : ℕ) × (is_valid_pm hw pm m
        ≡ done ok (with_bus m ws t))
      × ((ok ≡ true) ↔ IsMode pm)
is_valid_pm-decides hw pm m live quiet = elim (Option-cases (the_verdict pm)) [
  | inl fine ↦ (
    true,
    [],
    m.bus.ticks,
    is_valid_pm-report hw pm m ∙ rw fine (unfold report in rw append-nil),
    (λ _. (verdict-none pm).0 fine, λ _. refl),
  )
  | inr (s, bad) ↦
      let (ws, t, e) = report-some hw (the_verdict pm) m live quiet (λ fine. cc) in
      (
        false,
        ws,
        t,
        is_valid_pm-report hw pm m ∙ e,
        (λ contra. cc, λ valid. absurd (some-ne-none bad ((verdict-none pm).1 valid))),
      )
]

-- The index for a valid core and mode: the core's own entry if it is AMP; for an SMP core the
-- entry of the mode, from 4 for four SMP cores to 6 for two.
abbrev pub index_of : ℕ → ℕ → ℕ
index_of cpuid pm =
    if is_amp cpuid pm then cpuid else if pm % 16 == 0x0 then 4 else if pm % 16 == 0x8 then 5 else 6

all-amp : (cpuid pm : ℕ) → cpuid < 4 → pm % 16 ≡ 0xf → is_amp cpuid pm ≡ true
unfolding is_amp
all-amp zero pm lt e = ground (arith, bit_tests pm)
all-amp (suc zero) pm lt e = ground (arith, bit_tests pm)
all-amp (suc (suc zero)) pm lt e = ground (arith, bit_tests pm)
all-amp (suc (suc (suc zero))) pm lt e = ground (arith, bit_tests pm)
all-amp (suc (suc (suc (suc n)))) pm lt e = absurd (omega arith)

smp-index :
    (pm : ℕ)
    → IsMode pm
    → pm % 16 ≢ 0xf
    → sysstruct_smp_index pm ≡ (if pm % 16 == 0x0 then 4 else if pm % 16 == 0x8 then 5 else 6)
unfolding sysstruct_smp_index
smp-index pm valid ne = ground (arith, bit_and_mask 4 pm)

module _ (i : ℕ) (m : Machine) where
  pub struct_info-some :
      {ssi : SysStructInfo} → get_elem? m.structs i ≡ some ssi → struct_info i m ≡ done ssi m
  unfolding struct_info
  struct_info-some e = rw e

  pub struct_info-none : length m.structs ≤ i → struct_info i m ≡ fault
  unfolding struct_info
  struct_info-none h = rw (get_elem?-none m.structs i h)

module _ (hw : Hw) (cpuid pm : ℕ) (m : Machine) where
  pub index-valid :
      cpuid < 4 → IsMode pm → get_sys_struct_info_index hw cpuid pm m ≡ done (index_of cpuid pm) m
  unfolding get_sys_struct_info_index is_valid_cpuid sysstruct_amp_index
  index-valid lt valid = rw (ltb-true cpuid 4 lt) (
      bind-done (is_valid_pm hw pm) _ m (is_valid_pm-valid hw pm m valid)
      ∙ elim (Bool-cases (is_amp cpuid pm)) [
        | inl amp ↦ rw amp refl
        | inr smp ↦ rw smp (ap (λ i. done i m) (smp-index pm valid λ f. cc (all-amp cpuid pm lt f)))
      ])

  pub index-lt : cpuid < 4 → index_of cpuid pm < 7
  index-lt lt = ground arith

  index-invalid :
      Drains hw
      → IsQuiet m
      → ¬ (cpuid < 4) ⊎ ¬ IsMode pm
      → (ws : List (ℕ × ℕ)) × (t : ℕ) × (get_sys_struct_info_index hw cpuid pm m
          ≡ done minus_one (with_bus m ws t))
  unfolding get_sys_struct_info_index is_valid_cpuid
  index-invalid live quiet bad = elim (Bool-cases (ltb cpuid 4)) [
    | inr out ↦ ([], m.bus.ticks, rw out (rw append-nil))
    | inl inside ↦
        let mode : ¬ IsMode pm = λ v. elim bad [ inl b ↦ b (ground arith) | inr b ↦ b v ] in
        let (ws, t, e) =
          report-some hw (the_verdict pm) m live quiet (λ f. mode ((verdict-none pm).0 f)) in
        (ws, t, rw inside (bind-done (is_valid_pm hw pm) _ m (is_valid_pm-report hw pm m ∙ e)))
  ]

  -- For a core number or a mode that is not valid, with a console that can be used and a table of
  -- seven entries, `get_sys_struct_info` accesses the table out of its bounds: it does not return
  -- the null pointer that its callers test for.
  pub get_sys_struct_info-fault :
      Drains hw
      → IsQuiet m
      → length m.structs ≡ 7
      → ¬ (cpuid < 4) ⊎ ¬ IsMode pm
      → get_sys_struct_info hw cpuid pm m ≡ fault
  unfolding get_sys_struct_info
  get_sys_struct_info-fault live quiet seven bad =
      let (ws, t, e) = index-invalid live quiet bad in
      bind-done (get_sys_struct_info_index hw cpuid pm) _ m e
      ∙ bind-fault (struct_info minus_one) _ _
          (struct_info-none minus_one (with_bus m ws t) (omega (arith, seven)))

  -- For a valid core number and mode, with a table of seven entries, `get_sys_struct_info` returns
  -- the entry `index_of` and changes nothing: the core's own entry if it is AMP, else that of the
  -- mode.
  pub get_sys_struct_info-valid :
      length m.structs ≡ 7
      → cpuid < 4
      → IsMode pm
      → get_sys_struct_info hw cpuid pm m ≡ done (index_of cpuid pm) m
  unfolding get_sys_struct_info
  get_sys_struct_info-valid seven lt valid =
      let (ssi, found) =
        get_elem?-IsSome m.structs (index_of cpuid pm) (omega (arith, seven, index-lt lt)) in
      bind-done (get_sys_struct_info_index hw cpuid pm) _ m (index-valid lt valid)
      ∙ bind-done (struct_info (index_of cpuid pm)) _ m
          (struct_info-some (index_of cpuid pm) m found)

-- For two core numbers below 4 and a valid mode, `get_sys_struct_info_index` gives both cores the
-- same index exactly if they are one core or both SMP.
pub index-shared :
    (hw : Hw) (c d pm : ℕ) (m : Machine)
    → c < 4
    → d < 4
    → IsMode pm
    → (get_sys_struct_info_index hw c pm m ≡ get_sys_struct_info_index hw d pm m)
      ↔ ((c ≡ d) ⊎ ((is_smp c pm ≡ true) × (is_smp d pm ≡ true)))
unfolding is_smp is_amp
index-shared hw c d pm m lc ld valid =
    rw (index-valid hw c pm m lc valid, index-valid hw d pm m ld valid) (ground arith)
