-- ===== src/Init/Tables.antt =====
-- `init_ttbs` fills all seven tables.
use rpi2_baremetal.Common.{
  ℕ, zero, suc, ◌+◌, ◌-◌, ◌*◌, ◌^◌, ◌<◌, ◌≤◌, ◌≡◌, refl, ◌≢◌, ap, ◌∙◌, inl, inr, some, Option,
  get_elem?-IsSome, get_elem?, length, arith, ltb, u32, ◌==◌, if◌then◌else◌, Bool-cases,
}
use rpi2_baremetal.Machine.{
  Area, Machine, SysStructInfo, Hw, M, Outcome, done, ◌>>=◌, bind-done, then-done,
}
use rpi2_baremetal.Uart.Prints.{Drains, IsQuiet}
use rpi2_baremetal.Uart.Gives.{on_bus, Gives}
use rpi2_baremetal.Sysinfo.{
  is_amp, pcore, get_kernel_ram_area, get_user_ram_area, get_kernel_heap_area, ssi_field,
  common_info,
}
use rpi2_baremetal.Sysinfo.Init.{configured, configured-length}
use rpi2_baremetal.Sysinfo.Modes.{IsMode, index_of}
use rpi2_baremetal.Mmu.{sp_base, amp_tbl_setup, smp_tbl_setup}
use rpi2_baremetal.Mmu.Table.{slot, IsFilled}
use rpi2_baremetal.Mmu.Entries.{word_of}
use rpi2_baremetal.Mmu.Access.{amp_map, amp_tbl_setup-map}
use rpi2_baremetal.Mmu.Shared.{smp_map, tasks_end, smp_tbl_setup-map, FillsPrinting}
use rpi2_baremetal.Heap.Empty.{ssi_field-valid}
use rpi2_baremetal.Init.{amp_pm, smp_pm, setup_ttb, ttb_loop, init_ttbs}

-- The flags of section `q` in table `i`: tables 0 to 3 are those of one core alone, 4 to 6 those of
-- four, three and two cores together.
abbrev pub table_map : ℕ → ℕ → Option ℕ
table_map i q = if ltb i 4 then amp_map i q else smp_map (8 - i) (tasks_end (8 - i)) q

-- The machine has the table of entries, and a console that can be used.
pub record IsSetUp (base : ℕ) (m : Machine) : Type 0 where
  pub entries : m.structs ≡ configured base
  pub quiet : IsQuiet m

amp_index : (i : ℕ) → i < 4 → index_of i 0xf ≡ i
unfolding is_amp
amp_index zero lt = refl
amp_index (suc zero) lt = refl
amp_index (suc (suc zero)) lt = refl
amp_index (suc (suc (suc zero))) lt = refl
amp_index (suc (suc (suc (suc i)))) lt = absurd (omega arith)

-- The mode by which `init_ttbs` finds entry `i`, from 4 on.
record HasMode (i : ℕ) : Type 0 where
  pm : ℕ
  listed : get_elem? smp_pm (i - 4) ≡ some pm
  mode : IsMode pm
  index : index_of pcore pm ≡ i

mode_of : (i : ℕ) → 4 ≤ i → i < 7 → HasMode i
unfolding is_amp
mode_of (suc (suc (suc (suc zero)))) l h = record {
  pm = 0x0;
  listed = refl;
  mode = inr (inr (inr refl));
  index = refl;
}
mode_of (suc (suc (suc (suc (suc zero))))) l h = record {
  pm = 0x8;
  listed = refl;
  mode = inr (inr (inl refl));
  index = refl;
}
mode_of (suc (suc (suc (suc (suc (suc zero)))))) l h = record {
  pm = 0xc;
  listed = refl;
  mode = inr (inl refl);
  index = refl;
}
mode_of (suc (suc (suc (suc (suc (suc (suc i))))))) l h = absurd (omega arith)
mode_of zero l h = absurd (omega arith)
mode_of (suc zero) l h = absurd (omega arith)
mode_of (suc (suc zero)) l h = absurd (omega arith)
mode_of (suc (suc (suc zero))) l h = absurd (omega arith)

module _ {hw : Hw} (live : Drains hw) (base : ℕ) (m : Machine) (set_up : IsSetUp base m) where
  -- The reads of the three areas of entry `i`.
  areas_read :
      (c pm i : ℕ) {s : SysStructInfo} (k : Area → Area → Area → M (Unit {0}))
      → c < 4
      → IsMode pm
      → index_of c pm ≡ i
      → get_elem? (configured base) i ≡ some s
      → (get_kernel_ram_area hw c pm >>= λ kram. get_user_ram_area hw c pm >>= λ uram.
            get_kernel_heap_area hw c pm >>= λ kheap. k kram uram kheap)
          m
        ≡ k s.kernel_ram_area s.user_ram_area s.kernel_heap_area m
  unfolding get_kernel_ram_area get_user_ram_area get_kernel_heap_area
  areas_read c pm i {s} k lt valid index found =
      bind-done (get_kernel_ram_area hw c pm) _ m (field (λ ssi. ssi.kernel_ram_area))
      ∙ (bind-done (get_user_ram_area hw c pm) _ m (field (λ ssi. ssi.user_ram_area))
          ∙ bind-done (get_kernel_heap_area hw c pm) _ m (field (λ ssi. ssi.kernel_heap_area)))
    where
      field : {A : Type 0} (f : SysStructInfo → A) → ssi_field hw f c pm m ≡ done (f s) m
      field f =
          ssi_field-valid hw f c pm m (ap length set_up.entries ∙ configured-length base) lt valid
            (rw (index, set_up.entries) found)

  setup_ttb-FillsPrinting :
      (i t : ℕ)
      → i < 7
      → FillsPrinting
          (t * 2 ^ 14)
          (λ q. word_of (table_map i q) q)
          m
          (setup_ttb hw i (t * 2 ^ 14) m)
  unfolding setup_ttb
  setup_ttb-FillsPrinting i t lt =
      let (s, found) =
        get_elem?-IsSome (configured base) i (omega (arith, lt, configured-length base)) in
      elim (Bool-cases (ltb i 4)) [
        | inl alone ↦
            let small : i < 4 = ground arith in
            let no_wrap : u32 (sp_base + 0x10_0000 * i) ≡ sp_base + 0x10_0000 * i = omega arith in
            let (new, e, f) = amp_tbl_setup-map base i t m found small in
            rw (alone, no_wrap)
              (
                new,
                (
                  m.bus,
                  areas_read i amp_pm i
                        (λ kram uram kheap.
                          amp_tbl_setup (t * 2 ^ 14) kram uram kheap (sp_base + 0x10_0000 * i))
                        small (inl refl) (amp_index i small) found
                      ∙ e,
                ),
                f,
              )
        | inr together ↦
            let h = mode_of i (ground arith) lt in
            let n : 4 - (i - 4) ≡ 8 - i = ground arith in
            let back : 8 - (8 - i) ≡ i = ground arith in
            let (new, (b, e), f) =
              smp_tbl_setup-map hw base (8 - i) t {s = s} m live set_up.quiet (rw back found)
                (omega arith) (ground arith) in
            rw (together, h.listed, n)
              (
                new,
                (
                  b,
                  areas_read pcore h.pm i
                        (λ kram uram kheap.
                          smp_tbl_setup hw (t * 2 ^ 14) kram uram kheap sp_base (8 - i))
                        (omega arith) h.mode h.index found
                      ∙ e,
                ),
                f,
              )
      ]

-- Memory in which the tables from `first` on are filled, table `j` at `(b + j) * 2 ^ 14`, and all
-- else is as in `old`.
pub record AllFilled (b first : ℕ) (old new : ℕ → ℕ) : Type 0 where
  pub inside :
      (j q : ℕ)
      → first ≤ j
      → j < 7
      → q < 4096
      → new (slot ((b + j) * 2 ^ 14) q) ≡ word_of (table_map j q) q
  pub outside :
      (a : ℕ)
      → ((j q : ℕ) → first ≤ j → j < 7 → q < 4096 → a ≢ slot ((b + j) * 2 ^ 14) q)
      → new a ≡ old a

AllFilled-step :
    (b i : ℕ) (old mid new : ℕ → ℕ)
    → i < 7
    → IsFilled ((b + i) * 2 ^ 14) (λ q. word_of (table_map i q) q) 0 old mid
    → AllFilled b (i + 1) mid new
    → AllFilled b i old new
AllFilled-step b i old mid new lt f g = record {
  inside = λ j q l h hq. elim (Bool-cases (j == i)) [
    | inl here ↦
        let e : j ≡ i = ground arith in
        rw e (
          g.outside (slot ((b + i) * 2 ^ 14) q) (λ j' q' l' h' hq' eq. omega (arith, eq))
          ∙ f.inside q (omega arith) hq)
    | inr later ↦ g.inside j q (ground arith) h hq
  ];
  outside = λ a ne.
      g.outside a (λ j q l h hq. ne j q (omega arith) h hq)
      ∙ f.outside a (λ q l hq. ne i q (omega arith) lt hq);
}

-- The loop returns with the tables from `first` on filled, whatever was printed.
abbrev pub FillsAll : ℕ → ℕ → Machine → Outcome (Unit {0}) → Type 0
FillsAll b first m r =
    (new : ℕ → ℕ) × Gives tt (record m { mem = new }) r × AllFilled b first m.mem new

module _ {hw : Hw} (live : Drains hw) (base b : ℕ) (fits : b + 7 < 2 ^ 18) where
  ttb_loop-FillsAll :
      (n i : ℕ) (m : Machine)
      → i + n ≡ 7
      → IsSetUp base m
      → FillsAll b i m (ttb_loop hw n i ((b + i) * 2 ^ 14) m)
  unfolding ttb_loop
  ttb_loop-FillsAll zero i m sum set_up = (
    m.mem,
    (m.bus, refl),
    record { inside = λ j q l h hq. absurd (omega arith); outside = λ a ne. refl },
  )
  ttb_loop-FillsAll (suc n) i m sum set_up =
      let (mid, (bus, e), f) = setup_ttb-FillsPrinting live base m set_up i (b + i) (omega arith) in
      let m1 : Machine = on_bus (record m { mem = mid }) bus in
      let next : u32 ((b + i) * 2 ^ 14 + 0x4000) ≡ (b + (i + 1)) * 2 ^ 14 = omega arith in
      let quiet1 : IsQuiet m1 = record { free = set_up.quiet.free; calm = set_up.quiet.calm } in
      let (new, (bus', e'), g) =
        ttb_loop-FillsAll n (i + 1) m1 (omega arith)
          (record { entries = set_up.entries; quiet = quiet1 }) in
      (
        new,
        (
          bus',
          then-done (setup_ttb hw i ((b + i) * 2 ^ 14)) _ m e
              ∙ (ap (λ (t : ℕ). ttb_loop hw n (i + 1) t m1) next ∙ e'),
        ),
        AllFilled-step b i m.mem mid new (omega arith) f g,
      )

-- After `init_sysinfos`, with a base of the tables at a multiple of 16 KB that leaves room for seven
-- of them below 4 GB, and with a console that can be used, `init_ttbs` returns, and has then filled
-- the seven tables, each section's descriptor as `table_map` says, and written to no other word of
-- memory; else it has changed the console only.
pub init_ttbs-FillsAll :
    (hw : Hw) (base b : ℕ) (m : Machine)
    → Drains hw
    → IsSetUp base m
    → m.common.base_ttba ≡ b * 2 ^ 14
    → b + 7 < 2 ^ 18
    → FillsAll b 0 m (init_ttbs hw m)
unfolding init_ttbs common_info
init_ttbs-FillsAll hw base b m live set_up at_base fits =
    let start : b * 2 ^ 14 ≡ (b + 0) * 2 ^ 14 = omega arith in
    let (new, (bus, e), f) = ttb_loop-FillsAll live base b fits 7 0 m refl set_up in
    (new, (bus, ap (λ (t : ℕ). ttb_loop hw 7 0 t m) (at_base ∙ start) ∙ e), f)
