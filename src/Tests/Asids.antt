-- ===== src/Tests/Asids.antt =====
-- The theorem on the tasks that share ASIDs, on core 0 alone.
use rpi2_baremetal.Common.{
  ℕ, zero, suc, ◌≤◌, ◌≡◌, refl, ap, inl, inr, [], ◌∷◌, none, some, get_elem?, replicate, arith,
  Bool-cases, ◌==◌,
}
use rpi2_baremetal.Machine.{Machine, Bus, done}
use rpi2_baremetal.Uart.Gives.{on_bus}
use rpi2_baremetal.Sysinfo.Asid.{first_user_asid, set_user_asid}
use rpi2_baremetal.Sysinfo.Asid.Grant.{granted}
use rpi2_baremetal.Sysinfo.Asid.Search.{Searched, IsFirst, set_user_asid-Searched}
use rpi2_baremetal.Task.Asids.Exclusive.{IsExclusive}
use rpi2_baremetal.Task.Asids.Uses.{Uses, start, use_on, takes, Uses-IsExclusive}
use rpi2_baremetal.Tests.{hw, machine, hw-Drains}
use rpi2_baremetal.Tests.Modes.{own_entry, own-IsReady, own-IsCall}

some_value : {v w : ℕ} → some v ≡ some w → v ≡ w
some_value {v} e = ap (λ o. elim o [ none ↦ v | some w ↦ w ]) e

zeros : (n i v : ℕ) → get_elem? (replicate n 0) i ≡ some v → v ≤ 2
zeros zero i v e = absurd (ground (arith, e))
zeros (suc n) zero v e = omega (arith, some_value e)
zeros (suc n) (suc i) v e = zeros n i v e

none_yet : IsExclusive 0 0xf own_entry (machine 0 1) []
none_yet = record {
  ready = own-IsReady;
  call = own-IsCall;
  size = refl;
  statuses = zeros 256;
  exclusive = tt;
}

second_idle : get_elem? (machine 0 1).asid_head 2 ≡ some 1 → ⊥
second_idle e = omega (arith, some_value e)

first_is_two : (a v : ℕ) → IsFirst (machine 0 1).asid_head 2 64 a v → a ≡ 2
first_is_two a v f = elim (Bool-cases (a == 2)) [
  | inl two ↦ ground arith
  | inr more ↦ absurd (second_idle (f.skipped 2 (omega arith) (ground (arith, f.from))))
]

got :
    (b : Bus) × (v : ℕ) × (set_user_asid hw 0x2100_0000 0 0xf (machine 0 1)
      ≡ done 2 (on_bus (granted 0x2100_0000 2 v (machine 0 1)) b))
unfolding first_user_asid
got = elim set_user_asid_searched [
  | inl (all, _) ↦ absurd (second_idle (all 2 (omega arith) (omega arith)))
  | inr (a, v, f, (b, e)) ↦ (b, v, rw (first_is_two a v f) at e)
]
  where
    set_user_asid_searched :
        Searched 0x2100_0000 2 64 (machine 0 1) (set_user_asid hw 0x2100_0000 0 0xf (machine 0 1))
    set_user_asid_searched =
        set_user_asid-Searched hw 0x2100_0000 0 0xf (machine 0 1) hw-Drains own-IsReady own-IsCall
          refl

abbrev after_taking : Machine
after_taking = on_bus (granted 0x2100_0000 2 got.1 (machine 0 1)) got.0

one_use : Uses hw 0x2400_0000 8 0 0xf (machine 0 1) after_taking (0x2100_0000 ∷ [])
one_use = use_on start (takes 0x2100_0000 2 refl tt (λ e. omega (arith, e)) got.2)

Uses-IsExclusive_example : IsExclusive 0 0xf own_entry after_taking (0x2100_0000 ∷ [])
Uses-IsExclusive_example =
    Uses-IsExclusive hw 0x2400_0000 8 0 0xf own_entry (machine 0 1) hw-Drains none_yet one_use
