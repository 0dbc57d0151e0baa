-- ===== src/Boot/Ready.antt =====
-- The start of the four cores by boot.s.
use rpi2_baremetal.Common.{ℕ, ◌+◌, ◌*◌, ◌%◌, ◌<◌, ◌≤◌, ◌≡◌, ◌≢◌, ◌⊎◌, some, arith}
use rpi2_baremetal.Boot.{
  Boot, mode_bits, psr_usr, psr_fiq, psr_irq, psr_abt, psr_svc, move_vectors, reset,
}
use rpi2_baremetal.Boot.Vectors.{ldr_pc, vector, move_vectors-vector}
use rpi2_baremetal.Boot.Reset.{stack_tops, IsReady, reset_lem}

-- Whatever privileged mode a core is started in, HYP mode among them, `_reset_` gets to the call of
-- the kernel in supervisor mode with interrupts off. The stack pointers of the modes FIQ, IRQ, ABT
-- and SVC are those of the core's section; those of the other modes are not set. Core 0, and no
-- other, moves the vectors, and where the image at 0x8000 has a vector that jumps by the word 32
-- bytes after it, the vector moved to address 0 jumps to the same handler.
pub reset-IsReady :
    (mpidr : ℕ) (s : Boot)
    → mode_bits s ≢ psr_usr
    → ((n : ℕ) → n < 8 → s.mem (0x8000 + 4 * n) ≡ ldr_pc)
    → (t : Boot) × (reset mpidr s ≡ some t)
      × IsReady (mpidr % 4) s t
      × ((n : ℕ) → n < 8 → vector (move_vectors s.mem) n ≡ s.mem (0x8020 + 4 * n))
reset-IsReady mpidr s privileged image =
    let (t, run, ready) = reset_lem mpidr s privileged in
    (t, run, ready, λ n lt. move_vectors-vector s.mem n lt (image n lt))

-- The modes that get a stack.
abbrev pub HasStack : ℕ → Type 0
HasStack md = (md ≡ psr_fiq) ⊎ (md ≡ psr_irq) ⊎ (md ≡ psr_abt) ⊎ (md ≡ psr_svc)

-- Below the top `top` lie the 0x3fffc bytes of a stack, all of them in section `q`.
abbrev pub InSection : ℕ → ℕ → Type 0
InSection q top = (0x10_0000 * q + 0x3_fffc ≤ top) × (top ≤ 0x10_0000 * (q + 1))

abbrev pub AreApart : ℕ → ℕ → Type 0
AreApart top top' = (top + 0x3_fffc ≤ top') ⊎ (top' + 0x3_fffc ≤ top)

top-InSection :
    (core md : ℕ) (sp : ℕ → ℕ) → HasStack md → InSection (1 + core) (stack_tops core sp md)
top-InSection core md sp has = ground arith

tops-AreApart :
    (core core' md md' : ℕ) (sp sp' : ℕ → ℕ)
    → HasStack md
    → HasStack md'
    → (core ≢ core') ⊎ (md ≢ md')
    → AreApart (stack_tops core sp md) (stack_tops core' sp' md')
tops-AreApart core core' md md' sp sp' has has' ne = ground arith

-- Two cores are started, each from a privileged mode, and two modes are looked at: unless both the
-- cores and the modes are the same, the two stacks, of 0x3fffc bytes each, do not overlap, and each
-- lies in the section of its core.
pub reset-AreApart :
    (mpidr mpidr' md md' : ℕ) (s s' : Boot)
    → mode_bits s ≢ psr_usr
    → mode_bits s' ≢ psr_usr
    → HasStack md
    → HasStack md'
    → (mpidr % 4 ≢ mpidr' % 4) ⊎ (md ≢ md')
    → (t t' : Boot) × (reset mpidr s ≡ some t)
      × (reset mpidr' s' ≡ some t')
      × InSection (1 + mpidr % 4) (t.sp md)
      × InSection (1 + mpidr' % 4) (t'.sp md')
      × AreApart (t.sp md) (t'.sp md')
reset-AreApart mpidr mpidr' md md' s s' priv priv' has has' ne =
    let (t, run, ready) = reset_lem mpidr s priv in
    let (t', run', ready') = reset_lem mpidr' s' priv' in
    (
      t,
      t',
      run,
      run',
      rw (ready.stacks md) (top-InSection (mpidr % 4) md s.sp has),
      rw (ready'.stacks md') (top-InSection (mpidr' % 4) md' s'.sp has'),
      rw (ready.stacks md, ready'.stacks md')
          (tops-AreApart (mpidr % 4) (mpidr' % 4) md md' s.sp s'.sp has has' ne),
    )
