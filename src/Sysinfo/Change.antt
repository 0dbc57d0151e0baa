-- ===== src/Sysinfo/Change.antt =====
-- `set_pm` and `change_pm` of sysinfo.c: who may set which mode.
use rpi2_baremetal.Common.{
  ℕ, ◌≡◌, refl, ◌≢◌, ◌⊎◌, inl, inr, true, false, minus_one, arith, Bool-cases, ◌∙◌,
}
use rpi2_baremetal.Machine.{
  SysCommonInfo, Machine, Bus, Hw, M, pure, ◌>>=◌, ◌>>◌, common_lock, mask_irq, bind-done,
}
use rpi2_baremetal.Uart.{codes, spin_req, spin_rel, register_value_puts}
use rpi2_baremetal.Uart.Locks.{with_lock}
use rpi2_baremetal.Uart.Prints.{Drains, IsQuiet, with_bus}
use rpi2_baremetal.Uart.Gives.{
  on_bus, Gives, Gives-then, value-Gives, spin_req-Gives, spin_rel-restores,
}
use rpi2_baremetal.Sysinfo.{is_valid_pm, common_info, set_common_info, set_pm, change_pm}
use rpi2_baremetal.Sysinfo.Modes.{IsMode, is_valid_pm-decides}

not_uart : common_lock ≢ 0
not_uart e = omega (arith, e)

module _ {hw : Hw} (live : Drains hw) where
  -- The lock, an update of the common information, and the lock given back.
  locked_update-Gives :
      {A : Type 0} (f : SysCommonInfo → SysCommonInfo) (k : M A) (m m'' : Machine) (z : A)
      → IsQuiet m
      → m.lock common_lock ≡ 0
      → ((b : Bus) → Gives z m'' (k (record (on_bus m b) { common = f m.common })))
      → Gives z m'' (
          (spin_req hw common_lock
              >> (common_info >>= λ c. set_common_info (f c) >> (spin_rel hw common_lock >> k)))
            m)
  unfolding set_common_info common_info
  locked_update-Gives f k m m'' z quiet free next =
      Gives-then (spin_req hw common_lock) _ m (with_lock m common_lock 1) m'' z
        (spin_req-Gives live m quiet common_lock not_uart free)
        λ b.
          let m2 : Machine = record (on_bus m b) { common = f m.common } in
          Gives-then (spin_rel hw common_lock) k (with_lock m2 common_lock 1) m2 m'' z
            (spin_rel-restores live m2 (record { free = quiet.free; calm = quiet.calm }) common_lock
              not_uart free)
            next

-- With a console that can be used and the common lock free, `set_pm` returns: it stores a valid mode
-- and gives it back; for another it gives -1. Nothing else changes but the console.
pub set_pm-decides :
    (hw : Hw) (pm : ℕ) (m : Machine)
    → Drains hw
    → IsQuiet m
    → m.lock common_lock ≡ 0
    → (IsMode pm × Gives pm (record m { common = record (m.common) { pm = pm } }) (set_pm hw pm m))
      ⊎ (¬ IsMode pm × Gives minus_one m (set_pm hw pm m))
unfolding set_pm common_info
set_pm-decides hw pm m live quiet free =
    let (ok, ws, t, e, both) = is_valid_pm-decides hw pm m live quiet in
    let m1 : Machine = with_bus m ws t in
    elim (Bool-cases ok) [
      | inl valid ↦
          let (b, f) =
            locked_update-Gives live (λ c. record c { pm = pm }) (pure pm) m1
              (record m { common = record (m.common) { pm = pm } }) pm
              (record { free = quiet.free; calm = quiet.calm }) free (λ b. (b, refl)) in
          inl (both.0 valid, (b, bind-done (is_valid_pm hw pm) _ m e ∙ rw valid f))
      | inr invalid ↦ inr (
        (λ mode. cc (both.1 mode)),
        (m1.bus, bind-done (is_valid_pm hw pm) _ m e ∙ rw invalid refl),
      )
    ]

-- With a console that can be used and the common lock free, `change_pm` returns 1 for every word:
-- it makes it the mode with no test of it, keeps the mode before as the previous one, and turns
-- interrupts on. Nothing else changes but the console.
pub change_pm-stores :
    (hw : Hw) (pm : ℕ) (m : Machine)
    → Drains hw
    → IsQuiet m
    → m.lock common_lock ≡ 0
    → Gives 1
        (record m {
          irq_masked = false;
          common = record (m.common) { prev_pm = m.common.pm; pm = pm };
        })
        (change_pm hw pm m)
unfolding change_pm common_info mask_irq
change_pm-stores hw pm m live quiet free =
    let c = record (m.common) { prev_pm = m.common.pm; pm = pm } in
    let m0 : Machine = record m { irq_masked = true } in
    let m'' : Machine = record m { irq_masked = false; common = c } in
    locked_update-Gives live (λ c. record c { prev_pm = c.pm; pm = pm })
      (do c' ← common_info; register_value_puts hw (codes "SCI PM: ") c'.pm; mask_irq false; pure 1)
      m0 m'' 1 (record { free = quiet.free; calm = quiet.calm }) free
      λ b.
        let m2 : Machine = record (on_bus m0 b) { common = c } in
        Gives-then (register_value_puts hw _ pm) (mask_irq false >> pure 1) m2 m2 m'' 1
          (value-Gives live m2 (record { free = quiet.free; calm = quiet.calm }) _ pm)
          λ b. (b, refl)
