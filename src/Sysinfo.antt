-- ===== src/Sysinfo.antt =====
-- sysinfo.c: processing modes, and the accessors of the system information.
-- A `SysStructInfo *` is the index of its entry in `SYSStructTop`; an access outside of that table
-- is a fault. The tests `index < 0` and `ssi == NULL` of the source stand on a uint32_t and on an
-- entry of the table, so they never hold and have no counterpart here.
pub mod Asid
pub mod Change
pub mod Config
pub mod Init
pub mod Modes
pub mod Partition
use rpi2_baremetal.Common.{
  ℕ, zero, suc, ◌+◌, ◌-◌, ◌*◌, ◌%◌, ◌^◌, Bool, true, false, not, ◌&&◌, bit_and, minus_one,
  get_elem?, set, ltb, ◌==◌, if◌then◌else◌,
}
use rpi2_baremetal.Machine.{
  Area, SysCommonInfo, SysStructInfo, Machine, Hw, M, done, pure, ◌>>=◌, ◌>>◌, elem, common_lock,
  struct_lock, mask_irq,
}
use rpi2_baremetal.Uart.{codes, spin_req, spin_rel, uart_puts, register_value_puts}

abbrev pub num_cpu : ℕ
num_cpu = 4

abbrev pub pcore : ℕ
pcore = 0

-- `SMP_PROC_NUM(pm)`
unfoldable pub smp_proc_num : ℕ → ℕ
smp_proc_num pm =
    if bit_and pm 0xf == 0xc
    then 2
    else if bit_and pm 0xf == 0x8
    then 3
    else if bit_and pm 0xf == 0x0
    then 4
    else 0

-- `SYSSTRUCT_SMP_INDEX(pm)` and `SYSSTRUCT_AMP_INDEX(cpuid)`
unfoldable pub sysstruct_smp_index : ℕ → ℕ
unfolding smp_proc_num
sysstruct_smp_index pm = num_cpu + (num_cpu - smp_proc_num pm)

unfoldable pub sysstruct_amp_index : ℕ → ℕ
sysstruct_amp_index cpuid = cpuid

unfoldable pub is_smp : ℕ → ℕ → Bool
is_smp cpuid pm = bit_and pm (2 ^ cpuid) == 0

unfoldable pub is_amp : ℕ → ℕ → Bool
is_amp cpuid pm = not (bit_and pm (2 ^ cpuid) == 0)

unfoldable pub is_valid_cpuid : ℕ → Bool
is_valid_cpuid cpuid = ltb cpuid num_cpu

module _ (hw : Hw) where
  -- Core 0 is AMP: the loop over the other cores, with `n` of them left.
  unfoldable pub amp_scan : ℕ → ℕ → ℕ → M Bool
  amp_scan zero cpuid pm = pure true
  amp_scan (suc n) cpuid pm =
      if is_smp cpuid pm
      then (do uart_puts hw (codes "invalid pm, PCore is amp but other core is smp\n"); pure false)
      else amp_scan n (cpuid + 1) pm

  -- Core 0 is SMP: the same, with `smp_continuous_flg`.
  unfoldable pub smp_scan : ℕ → ℕ → ℕ → Bool → M Bool
  smp_scan zero cpuid pm flg = pure true
  smp_scan (suc n) cpuid pm flg =
      if is_smp cpuid pm && not flg
      then (do uart_puts hw (codes "entire smp cores are continuous\n"); pure false)
      else if cpuid == pcore + 1 && is_amp cpuid pm
      then (do uart_puts hw (codes "smp is not single core\n"); pure false)
      else smp_scan n (cpuid + 1) pm (if is_amp cpuid pm && flg then false else flg)

  unfoldable pub is_valid_pm : ℕ → M Bool
  unfolding amp_scan smp_scan is_smp is_amp
  is_valid_pm pm =
      if is_amp pcore pm then amp_scan 3 (pcore + 1) pm else smp_scan 3 (pcore + 1) pm true

  unfoldable pub get_sys_struct_info_index : ℕ → ℕ → M ℕ
  get_sys_struct_info_index cpuid pm =
      if is_valid_cpuid cpuid
      then (do
        ok ← is_valid_pm pm
        if ok
            then (if is_amp cpuid pm
                then pure (sysstruct_amp_index cpuid)
                else pure (sysstruct_smp_index pm))
            else pure minus_one)
      else pure minus_one

-- `SYSStructTop[index]`, and a store to one of its fields.
unfoldable pub struct_info : ℕ → M SysStructInfo
struct_info index m = elem (get_elem? m.structs index) m

unfoldable pub set_struct_info : ℕ → SysStructInfo → M (Unit {0})
set_struct_info index ssi m = done tt (record m { structs = set m.structs index ssi })

-- A field of the common information, and a store to it.
unfoldable pub common_info : M SysCommonInfo
common_info m = done m.common m

unfoldable pub set_common_info : SysCommonInfo → M (Unit {0})
set_common_info c m = done tt (record m { common = c })

unfoldable pub get_pm : M ℕ
get_pm m = done m.common.pm m

unfoldable pub get_prev_pm : M ℕ
get_prev_pm m = done m.common.prev_pm m

module _ (hw : Hw) where
  -- The pointer that the callers read the fields of.
  unfoldable pub get_sys_struct_info : ℕ → ℕ → M ℕ
  get_sys_struct_info cpuid pm = do
    index ← get_sys_struct_info_index hw cpuid pm
    _ ← struct_info index
    pure index

  -- A field of the entry for `cpuid` and `pm`, as the accessors below read it.
  unfoldable pub ssi_field : {A : Type 0} → (SysStructInfo → A) → ℕ → ℕ → M A
  ssi_field f cpuid pm = do
    index ← get_sys_struct_info cpuid pm
    ssi ← struct_info index
    pure (f ssi)

  unfoldable pub set_pm : ℕ → M ℕ
  set_pm pm = do
    ok ← is_valid_pm hw pm
    if ok
        then (do
          spin_req hw common_lock
          c ← common_info
          set_common_info (record c { pm = pm })
          spin_rel hw common_lock
          pure pm)
        else pure minus_one

  unfoldable pub set_prev_pm : ℕ → M ℕ
  set_prev_pm pm = do
    ok ← is_valid_pm hw pm
    if ok
        then (do
          spin_req hw common_lock
          c ← common_info
          set_common_info (record c { prev_pm = pm })
          spin_rel hw common_lock
          pure pm)
        else pure minus_one

  unfoldable pub get_ttba : ℕ → ℕ → M ℕ
  get_ttba cpuid pm = do
    index ← get_sys_struct_info_index hw cpuid pm
    ssi ← struct_info index
    pure ssi.ttba

  unfoldable pub set_ttba : ℕ → ℕ → ℕ → M ℕ
  set_ttba cpuid pm ttba = do
    index ← get_sys_struct_info_index hw cpuid pm
    _ ← struct_info index
    spin_req hw (struct_lock index)
    ssi ← struct_info index
    set_struct_info index (record ssi { ttba = ttba })
    spin_rel hw (struct_lock index)
    pure ttba

  unfoldable pub get_kernel_ram_bottom : ℕ → ℕ → M ℕ
  unfolding ssi_field
  get_kernel_ram_bottom = ssi_field (λ ssi. ssi.kernel_ram_area.bottom)

  unfoldable pub get_kernel_ram_limit : ℕ → ℕ → M ℕ
  unfolding ssi_field
  get_kernel_ram_limit = ssi_field (λ ssi. ssi.kernel_ram_area.limit)

  unfoldable pub get_kernel_ram_area : ℕ → ℕ → M Area
  unfolding ssi_field
  get_kernel_ram_area = ssi_field (λ ssi. ssi.kernel_ram_area)

  unfoldable pub get_user_ram_bottom : ℕ → ℕ → M ℕ
  unfolding ssi_field
  get_user_ram_bottom = ssi_field (λ ssi. ssi.user_ram_area.bottom)

  unfoldable pub get_user_ram_limit : ℕ → ℕ → M ℕ
  unfolding ssi_field
  get_user_ram_limit = ssi_field (λ ssi. ssi.user_ram_area.limit)

  unfoldable pub get_user_ram_area : ℕ → ℕ → M Area
  unfolding ssi_field
  get_user_ram_area = ssi_field (λ ssi. ssi.user_ram_area)

  unfoldable pub get_kernel_heap_bottom : ℕ → ℕ → M ℕ
  unfolding ssi_field
  get_kernel_heap_bottom = ssi_field (λ ssi. ssi.kernel_heap_area.bottom)

  unfoldable pub get_kernel_heap_limit : ℕ → ℕ → M ℕ
  unfolding ssi_field
  get_kernel_heap_limit = ssi_field (λ ssi. ssi.kernel_heap_area.limit)

  unfoldable pub get_kernel_heap_area : ℕ → ℕ → M Area
  unfolding ssi_field
  get_kernel_heap_area = ssi_field (λ ssi. ssi.kernel_heap_area)

  unfoldable pub get_kernel_heap_free_head : ℕ → ℕ → M ℕ
  unfolding ssi_field
  get_kernel_heap_free_head = ssi_field (λ ssi. ssi.kernel_heap_freep)

  -- No test of `pm` here.
  unfoldable pub change_pm : ℕ → M ℕ
  change_pm pm = do
    mask_irq true
    spin_req hw common_lock
    c ← common_info
    set_common_info (record c { prev_pm = c.pm; pm = pm })
    spin_rel hw common_lock
    c' ← common_info
    register_value_puts hw (codes "SCI PM: ") c'.pm
    mask_irq false
    pure 1

  -- cpu.c
  unfoldable pub get_waking_cores : M ℕ
  get_waking_cores = do
    spin_req hw common_lock
    c ← common_info
    spin_rel hw common_lock
    pure c.waking_cores

  unfoldable pub inc_waking_cores : M (Unit {0})
  inc_waking_cores = do
    spin_req hw common_lock
    c ← common_info
    set_common_info (record c { waking_cores = (c.waking_cores + 1) % 2 ^ 32 })
    spin_rel hw common_lock
