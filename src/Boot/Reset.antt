-- ===== src/Boot/Reset.antt =====
-- What a core is like when boot.s calls the kernel.
use rpi2_baremetal.Common.{
  ℕ, ◌+◌, ◌*◌, ◌/◌, ◌%◌, ◌<◌, ◌≡◌, ◌≢◌, refl, ap, ◌∙◌, inl, inr, bit_and, Option, some, u32,
  ==_false, ◌==◌, if◌then◌else◌, Bool-cases, bit_and_mask, arith,
}
use rpi2_baremetal.Boot.{
  Boot, mode_bits, hyp_mode, psr_usr, psr_fiq, psr_irq, psr_abt, psr_svc, stack_base_addr,
  write_control, ◌>>=◌, move_vectors, set_stacks, start_secondary, reset,
}
use rpi2_baremetal.Boot.Mode.{safe_svcmode_maskall-mode}

-- The stack pointers of core `core`, whose section is the one with the number 1 + `core`.
abbrev pub stack_tops : ℕ → (ℕ → ℕ) → ℕ → ℕ
stack_tops core sp md =
    if md == psr_fiq
    then 0x10_0000 * (1 + core) + 0x4_0000
    else if md == psr_irq
    then 0x10_0000 * (1 + core) + 0x8_0000
    else if md == psr_abt
    then 0x10_0000 * (1 + core) + 0xc_0000
    else if md == psr_svc
    then 0x10_0000 * (1 + core) + 0xf_fffc
    else sp md

abbrev at_mode : ℕ → ℕ → (ℕ → ℕ) → (ℕ → ℕ) → Boot
at_mode h c sp mem = record { cpsr = h * 256 + c; sp = sp; mem = mem }

write_control-at :
    (h x c : ℕ) (sp mem : ℕ → ℕ)
    → x < 256
    → x % 32 ≢ hyp_mode
    → x % 32 ≢ psr_usr
    → write_control c (at_mode h x sp mem) ≡ some (at_mode h (c % 256) sp mem)
unfolding write_control
write_control-at h x c sp mem lt not_hyp not_usr =
    let same : (h * 256 + x) % 32 ≡ x % 32 = omega arith in
    let high : (h * 256 + x) / 256 ≡ h = omega arith in
    rw (same, ==_false (x % 32) hyp_mode not_hyp, ==_false (x % 32) psr_usr not_usr, high) refl

bind-some : {A B : Type 0} (o : Option A) {a : A} (f : A → Option B) → o ≡ some a → (o >>= f) ≡ f a
bind-some o f e = ap (λ p. p >>= f) e

set_stacks-tops :
    (core h x : ℕ) (sp mem : ℕ → ℕ)
    → core < 4
    → x < 256
    → x % 32 ≡ psr_svc
    → (sp' : ℕ → ℕ) × (set_stacks (0x10_0000 * (1 + core)) (at_mode h x sp mem)
        ≡ some (at_mode h 0xd3 sp' mem))
      × ((md : ℕ) → sp' md ≡ stack_tops core sp md)
unfolding set_stacks
set_stacks-tops core h x sp mem lt byte svc = (
  _,
  bind-some _ _ (write_control-at h x 0xd1 sp mem byte (omega arith) (omega arith))
      ∙ (bind-some _ _
            (write_control-at h 0xd1 0xd2 _ mem (omega arith) (omega arith) (omega arith))
          ∙ (bind-some _ _
                (write_control-at h 0xd2 0xd7 _ mem (omega arith) (omega arith) (omega arith))
              ∙ bind-some _ _
                  (write_control-at h 0xd7 0xd3 _ mem (omega arith) (omega arith) (omega arith)))),
  λ md.
      let fiq : (h * 256 + 0xd1) % 32 ≡ psr_fiq = omega arith in
      let irq : (h * 256 + 0xd2) % 32 ≡ psr_irq = omega arith in
      let abt : (h * 256 + 0xd7) % 32 ≡ psr_abt = omega arith in
      let svc : (h * 256 + 0xd3) % 32 ≡ psr_svc = omega arith in
      rw (fiq, irq, abt, svc) (ground arith),
)

-- A core that is ready for the kernel: supervisor mode with interrupts off, and the stacks of its
-- section; core 0 has moved the vectors.
pub record IsReady (core : ℕ) (s t : Boot) : Type 0 where
  pub control : t.cpsr % 256 ≡ 0xd3
  pub stacks : (md : ℕ) → t.sp md ≡ stack_tops core s.sp md
  pub memory : t.mem ≡ (if core == 0 then move_vectors s.mem else s.mem)

stacks-IsReady :
    (core c : ℕ) (s : Boot) (mem : ℕ → ℕ)
    → core < 4
    → c % 32 ≡ psr_svc
    → mem ≡ (if core == 0 then move_vectors s.mem else s.mem)
    → (t : Boot) × (set_stacks (0x10_0000 * (1 + core)) (record { cpsr = c; sp = s.sp; mem = mem })
        ≡ some t)
      × IsReady core s t
stacks-IsReady core c s mem lt svc moved =
    let (sp', e, tops) =
      set_stacks-tops core (c / 256) (c % 256) s.sp mem lt (omega arith) (omega arith) in
    let whole : c / 256 * 256 + c % 256 ≡ c = omega arith in
    (_, rw whole at e, record { control = omega arith; stacks = tops; memory = moved })

pub reset_lem :
    (mpidr : ℕ) (s : Boot)
    → mode_bits s ≢ psr_usr
    → (t : Boot) × (reset mpidr s ≡ some t) × IsReady (mpidr % 4) s t
unfolding reset start_secondary
reset_lem mpidr s privileged =
    let (c, e, svc) = safe_svcmode_maskall-mode s privileged in
    let number = bit_and_mask 2 mpidr in
    elim (Bool-cases (bit_and mpidr 0x3 == 0)) [
      | inl zero ↦
          let core0 : mpidr % 4 ≡ 0 = ground arith in
          let base : 0x10_0000 * (1 + mpidr % 4) ≡ stack_base_addr = omega arith in
          let (t, run, ready) =
            stacks-IsReady (mpidr % 4) c s (move_vectors s.mem) (omega arith) svc (rw core0 refl) in
          (t, bind-some _ _ e ∙ rw zero (rw base at run), ready)
      | inr other ↦
          let (c', e', svc') =
            safe_svcmode_maskall-mode (record s { cpsr = c }) (λ h. omega arith) in
          let some_core : mpidr % 4 ≢ 0 = λ h. ground arith in
          let base : 0x10_0000 * (1 + mpidr % 4)
              ≡ u32 (stack_base_addr + u32 (bit_and mpidr 0x3 * stack_base_addr)) =
            omega arith in
          let (t, run, ready) =
            stacks-IsReady (mpidr % 4) c' s s.mem (omega arith) svc'
              (rw (==_false (mpidr % 4) 0 some_core) refl) in
          (t, bind-some _ _ e ∙ rw other (bind-some _ _ e' ∙ rw base at run), ready)
    ]
