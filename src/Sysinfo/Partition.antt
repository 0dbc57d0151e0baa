-- ===== src/Sysinfo/Partition.antt =====
-- Which memory and which ASIDs the entries of a mode share out, by sysconfs.c.
use rpi2_baremetal.Common.{
  ℕ, zero, suc, ◌+◌, ◌-◌, ◌*◌, ◌%◌, ◌<◌, ◌≤◌, ◌≡◌, ◌≢◌, sym, ap, ◌∙◌, ◌⊎◌, inl, inr, true, length,
  some, arith, get_elem?, get_elem?-IsSome, ltb, ◌==◌, if◌then◌else◌, Bool-cases,
}
use mathlib.Core.Path.{subst}
use rpi2_baremetal.Machine.{Area, SysStructInfo, Machine, Hw, done}
use rpi2_baremetal.Sysinfo.{is_amp, is_smp, get_sys_struct_info, struct_info}
use rpi2_baremetal.Sysinfo.Config.{init_sysinfos}
use rpi2_baremetal.Sysinfo.Init.{configured, configured-length, unlocked, init_sysinfos-configured}
use rpi2_baremetal.Sysinfo.Modes.{
  IsMode, index_of, bit_tests, index-lt, index-valid, index-shared, get_sys_struct_info-valid,
  struct_info-some,
}

-- The limits of RAM and heap areas are their last addresses.
abbrev pub InArea : Area → ℕ → Type 0
InArea a x = (a.bottom ≤ x) × (x ≤ a.limit)

abbrev pub Owns : SysStructInfo → ℕ → Type 0
Owns s x = InArea s.kernel_ram_area x ⊎ InArea s.kernel_heap_area x ⊎ InArea s.user_ram_area x

abbrev pub HasAsid : SysStructInfo → ℕ → Type 0
HasAsid s x = (s.asid_area.bottom ≤ x) × (x < s.asid_area.limit)

-- The entry of core `c` by the mode, spelt out.
index_in : ℕ → ℕ → ℕ
index_in c r =
    if r == 0xf
    then c
    else if r == 0x0
    then 4
    else if r == 0x8
    then (if ltb c 3 then 5 else 3)
    else if ltb c 2
    then 6
    else c

index_of-index_in : (c pm : ℕ) → c < 4 → IsMode pm → index_of c pm ≡ index_in c (pm % 16)
unfolding index_in is_amp
index_of-index_in zero pm lt valid = ground (arith, bit_tests pm)
index_of-index_in (suc zero) pm lt valid = ground (arith, bit_tests pm)
index_of-index_in (suc (suc zero)) pm lt valid = ground (arith, bit_tests pm)
index_of-index_in (suc (suc (suc zero))) pm lt valid = ground (arith, bit_tests pm)
index_of-index_in (suc (suc (suc (suc c)))) pm lt valid = absurd (omega arith)

-- From where to where an entry owns memory, and its ASIDs.
low : ℕ → ℕ
low i = if ltb i 4 then 0x1f00_0000 + i * 0x800_0000 else 0x1f00_0000

high : ℕ → ℕ
high i =
    if ltb i 4
    then 0x26ff_ffff + i * 0x800_0000
    else if i == 4
    then 0x3eff_ffff
    else if i == 5
    then 0x36ff_ffff
    else 0x2eff_ffff

record Entry (i x : ℕ) (s : SysStructInfo) : Type 0 where
  lower : Owns s x → low i ≤ x
  upper : Owns s x → x ≤ high i
  asids :
      (s.asid_area.bottom ≡ (if ltb i 4 then i * 64 else 0))
      × (s.asid_area.limit ≡ (if ltb i 4 then i * 64 + 64 else (8 - i) * 64))

same : {i x : ℕ} {s t : SysStructInfo} → some s ≡ some t → Entry i x s → Entry i x t
same {i} {x} e h = subst (λ u. Entry i x u) (cc) h

configured-Entry :
    (base i x : ℕ) {s : SysStructInfo} → get_elem? (configured base) i ≡ some s → Entry i x s
unfolding configured low high
configured-Entry base zero x e = same e (omega arith)
configured-Entry base (suc zero) x e = same e (omega arith)
configured-Entry base (suc (suc zero)) x e = same e (omega arith)
configured-Entry base (suc (suc (suc zero))) x e = same e (omega arith)
configured-Entry base (suc (suc (suc (suc zero)))) x e = same e (omega arith)
configured-Entry base (suc (suc (suc (suc (suc zero))))) x e = same e (omega arith)
configured-Entry base (suc (suc (suc (suc (suc (suc zero)))))) x e = same e (omega arith)
configured-Entry base (suc (suc (suc (suc (suc (suc (suc i))))))) x e = cc

-- No address and no ASID belongs to both entries.
abbrev pub AreApart : SysStructInfo → SysStructInfo → Type 0
AreApart s t = ((x : ℕ) → Owns s x → ¬ Owns t x) × ((x : ℕ) → HasAsid s x → ¬ HasAsid t x)

entries-AreApart :
    (base pm c d : ℕ) {s t : SysStructInfo}
    → c < 4
    → d < 4
    → IsMode pm
    → get_elem? (configured base) (index_of c pm) ≡ some s
    → get_elem? (configured base) (index_of d pm) ≡ some t
    → index_of c pm ≢ index_of d pm
    → AreApart s t
unfolding low high index_in
entries-AreApart base pm c d lc ld valid es et ne =
    let of_c = index_of-index_in c pm lc valid in
    let of_d = index_of-index_in d pm ld valid in
    (
      λ x hs ht.
          let p = configured-Entry base (index_of c pm) x es in
          let q = configured-Entry base (index_of d pm) x et in
          ground (arith, p.lower hs, p.upper hs, q.lower ht, q.upper ht, of_c, of_d),
      λ x hs ht.
          let p = configured-Entry base (index_of c pm) x es in
          let q = configured-Entry base (index_of d pm) x et in
          ground (arith, p.asids, q.asids, hs, ht, of_c, of_d),
    )

-- The table has seven entries: after `init_sysinfos`, `get_sys_struct_info` and `struct_info` give
-- each of two cores an entry, in every valid mode. Either it is one entry, and they are one core or
-- both SMP, or no address (of their kernel's memory, its heap or their tasks' memory) and no ASID
-- belongs to both entries.
pub init_sysinfos-AreApart :
    (hw : Hw) (c d pm : ℕ) (m : Machine)
    → length m.structs ≡ 7
    → c < 4
    → d < 4
    → IsMode pm
    → (m' : Machine) × (i j : ℕ) × (s t : SysStructInfo) × (init_sysinfos m ≡ done tt m')
      × (get_sys_struct_info hw c pm m' ≡ done i m')
      × (struct_info i m' ≡ done s m')
      × (get_sys_struct_info hw d pm m' ≡ done j m')
      × (struct_info j m' ≡ done t m')
      × (((i ≡ j) × ((c ≡ d) ⊎ ((is_smp c pm ≡ true) × (is_smp d pm ≡ true)))) ⊎ AreApart s t)
init_sysinfos-AreApart hw c d pm m seven lc ld valid =
    let base = m.common.base_ttba in
    let m' : Machine = record m { structs = configured base; lock = unlocked m.lock } in
    let seven' = configured-length base in
    let (s, fs) =
      get_elem?-IsSome (configured base) (index_of c pm)
        (omega (arith, seven', index-lt hw c pm m lc)) in
    let (t, ft) =
      get_elem?-IsSome (configured base) (index_of d pm)
        (omega (arith, seven', index-lt hw d pm m ld)) in
    (
      m',
      index_of c pm,
      index_of d pm,
      s,
      t,
      init_sysinfos-configured m seven,
      get_sys_struct_info-valid hw c pm m' seven' lc valid,
      struct_info-some (index_of c pm) m' fs,
      get_sys_struct_info-valid hw d pm m' seven' ld valid,
      struct_info-some (index_of d pm) m' ft,
      elim (Bool-cases (index_of c pm == index_of d pm)) [
        | inl one ↦
            let same : index_of c pm ≡ index_of d pm = ground arith in
            inl (
              same,
              (index-shared hw c d pm m lc ld valid).0 (
                  index-valid hw c pm m lc valid
                  ∙ (ap (λ (i : ℕ). done i m) same ∙ sym (index-valid hw d pm m ld valid))),
            )
        | inr two ↦ inr (entries-AreApart base pm c d lc ld valid fs ft (λ e. ground arith))
      ],
    )
