-- ===== src/Tests/Starts.antt =====
-- The theorems on boot.s at concrete cores.
use rpi2_baremetal.Common.{ℕ, ◌+◌, ◌%◌, ◌<◌, ◌≡◌, ◌⊎◌, refl, inl, inr, some, replicate, arith}
use rpi2_baremetal.Boot.{Boot, psr_irq, psr_svc, psr_abt, reset, move_vectors}
use rpi2_baremetal.Boot.Vectors.{ldr_pc, vector}
use rpi2_baremetal.Boot.Reset.{IsReady}
use rpi2_baremetal.Boot.Ready.{InSection, AreApart, reset-IsReady, reset-AreApart}
use rpi2_baremetal.Boot.Irq.{
  Core, take_irq, save, cpsie, restore, Handles, Interrupted, none_yet, one_more,
}
use rpi2_baremetal.Boot.Irq.Return.{Resumes, irq-Resumes}

-- A core in HYP mode, with an image of vectors in every word.
abbrev started : Boot
started = record { cpsr = 0x1da; sp = λ md. 0; mem = λ a. ldr_pc }

reset-IsReady_example :
    (t : Boot) × (reset 0x8000_0000 started ≡ some t)
    × IsReady (0x8000_0000 % 4) started t
    × ((n : ℕ) → n < 8 → vector (move_vectors started.mem) n ≡ ldr_pc)
reset-IsReady_example = reset-IsReady 0x8000_0000 started (λ e. omega arith) (λ n lt. refl)

reset-AreApart_example :
    (t t' : Boot) × (reset 0x8000_0001 started ≡ some t)
    × (reset 0x8000_0002 started ≡ some t')
    × InSection (1 + 0x8000_0001 % 4) (t.sp psr_svc)
    × InSection (1 + 0x8000_0002 % 4) (t'.sp psr_abt)
    × AreApart (t.sp psr_svc) (t'.sp psr_abt)
reset-AreApart_example =
    reset-AreApart 0x8000_0001 0x8000_0002 psr_svc psr_abt started started (λ e. omega arith)
      (λ e. omega arith) (inr (inr (inr refl))) (inr (inr (inl refl))) (inl (λ e. omega arith))

-- A core in supervisor mode, with interrupts on.
abbrev working : Core
working = record {
  registers = replicate 13 7;
  pc = 0x9000;
  cpsr = 0x13;
  spsr = 0;
  lr = 0;
  sp = 0x18_0000;
  mem = λ a. 0;
}

abbrev entered : Core
entered = save (take_irq working)

abbrev entered_again : Core
entered_again = save (take_irq (cpsie entered))

handled : Handles (save (take_irq working)) entered
unfolding save take_irq
handled = record {
  core = record { registers = refl; pc = omega arith; sp = omega arith };
  sp = refl;
  cpsr = refl;
  spsr = refl;
  stack = λ x le. refl;
}

handled_again : Handles (save (take_irq (cpsie entered))) entered_again
unfolding save take_irq cpsie
handled_again = record {
  core = record { registers = refl; pc = omega arith; sp = omega arith };
  sp = refl;
  cpsr = refl;
  spsr = refl;
  stack = λ x le. refl;
}

nested : Interrupted (cpsie entered) (restore (cpsie entered_again)) 1
unfolding save take_irq cpsie
nested = one_more none_yet refl (omega arith) handled_again none_yet

irq-Resumes_example :
    Resumes working (restore (restore (cpsie entered_again)))
    × (((◌≡◌ {A = ℕ} 1 0) × ((restore (restore (cpsie entered_again))).cpsr ≡ working.cpsr))
        ⊎ ((0 < 1) × ((restore (restore (cpsie entered_again))).cpsr % 32 ≡ psr_irq)))
irq-Resumes_example =
    irq-Resumes working entered (restore (cpsie entered_again))
      (record { registers = refl; pc = omega arith; sp = omega arith }) refl (omega arith) handled
      nested
