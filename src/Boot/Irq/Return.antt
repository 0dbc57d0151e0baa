-- ===== src/Boot/Irq/Return.antt =====
-- What `_irq` returns to.
use rpi2_baremetal.Common.{
  ℕ, zero, suc, ◌+◌, ◌*◌, ◌/◌, ◌%◌, ◌≤◌, ◌<◌, ◌≡◌, refl, sym, ap, ap₂, ◌∙◌, ◌⊎◌, inl, inr, List, [],
  ◌∷◌, length, u32, sub32, arith,
}
use rpi2_baremetal.Machine.{update}
use rpi2_baremetal.Boot.{ldmia, stmia, psr_irq}
use rpi2_baremetal.Boot.Irq.{
  Core, take_irq, save, cpsie, restore, IsCore, Handles, Interrupted, none_yet, one_more,
}

-- Words that agree are read alike.
ldmia-same :
    (n a : ℕ) (f g : ℕ → ℕ)
    → ((x : ℕ) → a ≤ x → x < a + 4 * n → f x ≡ g x)
    → ldmia n a f ≡ ldmia n a g
unfolding ldmia
ldmia-same zero a f g same = refl
ldmia-same (suc n) a f g same =
    ap₂ (λ (v : ℕ) (vs : List ℕ). v ∷ vs) (same a (omega arith) (omega arith))
      (ldmia-same n (a + 4) f g (λ x low high. same x (omega arith) (omega arith)))

-- A store of registers leaves the words off them.
stmia-off :
    (vs : List ℕ) (b x : ℕ) (mem : ℕ → ℕ) → x < b ⊎ b + 4 * length vs ≤ x → stmia vs b mem x ≡ mem x
unfolding stmia
stmia-off [] b x mem off = refl
stmia-off (v ∷ vs) b x mem (inl lt) = stmia-off vs (b + 4) x _ (inl (omega arith)) ∙ ground arith
stmia-off (v ∷ vs) b x mem (inr le) = stmia-off vs (b + 4) x _ (inr (omega arith)) ∙ ground arith

-- Registers that are stored are read back.
ldmia-stmia : (vs : List ℕ) (b : ℕ) (mem : ℕ → ℕ) → ldmia (length vs) b (stmia vs b mem) ≡ vs
unfolding ldmia stmia
ldmia-stmia [] b mem = refl
ldmia-stmia (v ∷ vs) b mem =
    ap₂ (λ (w : ℕ) (ws : List ℕ). w ∷ ws)
      (stmia-off vs (b + 4) b _ (inl (omega arith)) ∙ ground arith) (ldmia-stmia vs (b + 4) _)

-- What is the same after interrupts as before.
pub record Resumes (s t : Core) : Type 0 where
  pub registers : t.registers ≡ s.registers
  pub pc : t.pc ≡ s.pc
  pub sp : t.sp ≡ s.sp
  pub stack : (x : ℕ) → s.sp ≤ x → t.mem x ≡ s.mem x

-- An interrupt whose own ones leave the core as they should.
resume :
    (t u v : Core)
    → IsCore t
    → 56 ≤ t.sp
    → Handles (save (take_irq t)) u
    → Resumes (cpsie u) v
    → Resumes t (restore v)
unfolding save take_irq cpsie restore
resume t u v core room handles inner = record {
  registers = rw at (ldmia-same 13 sp v.mem _ saved ∙ read_back);
  pc = on_stack (v.sp + 52) (omega (arith, at)) ∙ pc_saved;
  sp = omega (arith, at);
  stack = λ x le.
      on_stack x (omega arith)
      ∙ (ground arith ∙ stmia-off t.registers sp x t.mem (inr (omega (arith, core.registers))));
}
  where
    sp : ℕ
    sp = sub32 t.sp 56

    lr : ℕ
    lr = sub32 (u32 (t.pc + 4)) 4

    at : v.sp ≡ sp
    at = inner.sp ∙ handles.sp

    on_stack : (x : ℕ) → sp ≤ x → v.mem x ≡ update (stmia t.registers sp t.mem) (sp + 52) lr x
    on_stack x le = inner.stack x (omega (arith, handles.sp, le)) ∙ handles.stack x le

    saved : (x : ℕ) → sp ≤ x → x < sp + 4 * 13 → v.mem x ≡ stmia t.registers sp t.mem x
    saved x low high = on_stack x low ∙ ground arith

    read_back : ldmia 13 sp (stmia t.registers sp t.mem) ≡ t.registers
    read_back =
        ap (λ (n : ℕ). ldmia n sp (stmia t.registers sp t.mem)) (sym core.registers)
        ∙ ldmia-stmia t.registers sp t.mem

    pc_saved : update (stmia t.registers sp t.mem) (sp + 52) lr (v.sp + 52) ≡ t.pc
    pc_saved = rw at (ground arith)

Resumes-trans : {s t u : Core} → Resumes s t → Resumes t u → Resumes s u
Resumes-trans r r' = record {
  registers = r'.registers ∙ r.registers;
  pc = r'.pc ∙ r.pc;
  sp = r'.sp ∙ r.sp;
  stack = λ x le. r'.stack x (omega (arith, r.sp)) ∙ r.stack x le;
}

Resumes-IsCore : {s t : Core} → IsCore s → Resumes s t → IsCore t
Resumes-IsCore core r = record {
  registers = ap length r.registers ∙ core.registers;
  pc = omega (arith, r.pc, core.pc);
  sp = omega (arith, r.sp, core.sp);
}

cpsie-IsCore : {u : Core} → IsCore u → IsCore (cpsie u)
unfolding cpsie
cpsie-IsCore core = record { registers = core.registers; pc = core.pc; sp = core.sp }

Interrupted-Resumes : {s t : Core} {n : ℕ} → IsCore s → Interrupted s t n → Resumes s t
Interrupted-Resumes core none_yet = record {
  registers = refl;
  pc = refl;
  sp = refl;
  stack = λ x le. refl;
}
Interrupted-Resumes core (one_more {t = t} {u = u} {v = v} before enabled room handles inner) =
    let r = Interrupted-Resumes core before in
    Resumes-trans r (
      resume t u v (Resumes-IsCore core r) room handles
        (Interrupted-Resumes (cpsie-IsCore handles.core) inner))

-- The saved status register after `k` interrupts that came in IRQ mode.
abbrev Saved : Core → Core → ℕ → Type 0
Saved s t k = ((k ≡ 0) × (t.spsr ≡ s.spsr)) ⊎ ((0 < k) × (t.spsr % 32 ≡ psr_irq))

entered_mode : (t u : Core) → Handles (save (take_irq t)) u → (cpsie u).cpsr % 32 ≡ psr_irq
unfolding save take_irq cpsie
entered_mode t u handles = omega (arith, handles.cpsr)

entered_spsr : (t u : Core) → Handles (save (take_irq t)) u → (cpsie u).spsr ≡ t.cpsr
unfolding save take_irq cpsie
entered_spsr t u handles = handles.spsr

Interrupted-Saved :
    {s t : Core} {n : ℕ}
    → s.cpsr % 32 ≡ psr_irq
    → Interrupted s t n
    → (t.cpsr % 32 ≡ psr_irq) × Saved s t n
unfolding restore
Interrupted-Saved mode none_yet = (mode, inl (refl, refl))
Interrupted-Saved mode (one_more {t = t} {u = u} {v = v} before enabled room handles inner) =
    let (at, _) = Interrupted-Saved mode before in
    let (_, saved) = Interrupted-Saved (entered_mode t u handles) inner in
    let spsr : v.spsr % 32 ≡ psr_irq = elim saved [
      | inl (_, same) ↦ omega (arith, same, entered_spsr t u handles, at)
      | inr (_, irq) ↦ irq
    ] in
    (spsr, inr (omega arith, spsr))

-- An interrupt is taken, and `k` more come between `cpsie i` and the return of `_irq`, each with its
-- own; the stack has room, and the handlers keep what lies on it. `_irq` returns to the instruction that was next, with r0 to r12,
-- the stack pointer and the stack as they were. With no further interrupt the status register is as
-- it was too; with one or more the core goes on in IRQ mode, whatever mode it was in.
pub irq-Resumes :
    (t u v : Core) {k : ℕ}
    → IsCore t
    → t.cpsr / 128 % 2 ≡ 0
    → 56 ≤ t.sp
    → Handles (save (take_irq t)) u
    → Interrupted (cpsie u) v k
    → Resumes t (restore v)
      × (((k ≡ 0) × ((restore v).cpsr ≡ t.cpsr)) ⊎ ((0 < k) × ((restore v).cpsr % 32 ≡ psr_irq)))
unfolding restore
irq-Resumes t u v core enabled room handles inner =
    let (_, saved) = Interrupted-Saved (entered_mode t u handles) inner in
    (
      resume t u v core room handles (Interrupted-Resumes (cpsie-IsCore handles.core) inner),
      elim saved [
        | inl (none, same) ↦ inl (none, same ∙ entered_spsr t u handles)
        | inr later ↦ inr later
      ],
    )
