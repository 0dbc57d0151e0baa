-- ===== src/Sysinfo/Asid/Grant.antt =====
-- One round of the loop of `set_user_asid` in sysinfo.c: it passes an ASID over or grants it.
use rpi2_baremetal.Common.{
  ℕ, suc, ◌+◌, ◌≡◌, refl, ◌≢◌, inl, inr, true, false, ◌||◌, ◌∷◌, some, get_elem?, set, ◌==◌,
  if◌then◌else◌, arith, Bool-cases, ◌∙◌,
}
use rpi2_baremetal.Machine.{
  Machine, Bus, Hw, M, done, ◌>>=◌, ◌>>◌, update, struct_lock, uart_lock, store, maintain, tlb_asid,
  bind-done, then-done,
}
use rpi2_baremetal.Uart.{codes, spin_req, spin_rel, uart_puts, register_value_puts}
use rpi2_baremetal.Uart.Locks.{with_lock}
use rpi2_baremetal.Uart.Prints.{Drains, IsQuiet}
use rpi2_baremetal.Uart.Gives.{
  on_bus, Gives, Gives-bind, Gives-then, puts-Gives, value-Gives, spin_req-Gives, spin_rel-restores,
}
use rpi2_baremetal.Sysinfo.Asid.{
  task_asid, asid_status, set_asid_status, lock_value, activate, user_loop,
}

-- The machine after ASID `a`, of status `v`, has been granted to `task`.
unfoldable pub granted : ℕ → ℕ → ℕ → Machine → Machine
granted task a v m = record m {
  asid_head = if v == 0 || v == 2 then set m.asid_head a 1 else m.asid_head;
  maintenance = if v == 2 then tlb_asid a ∷ m.maintenance else m.maintenance;
  mem = update m.mem (task_asid task) a;
}

-- Marking alone.
activated : ℕ → ℕ → Machine → Machine
activated a v m = record m {
  asid_head = if v == 0 || v == 2 then set m.asid_head a 1 else m.asid_head;
  maintenance = if v == 2 then tlb_asid a ∷ m.maintenance else m.maintenance;
}

pub asid_status-some :
    (a : ℕ) {v : ℕ} (m : Machine) → get_elem? m.asid_head a ≡ some v → asid_status a m ≡ done v m
unfolding asid_status
asid_status-some a m e = rw e

pub set_asid_status-some :
    (a v : ℕ) {w : ℕ} (m : Machine)
    → get_elem? m.asid_head a ≡ some w
    → set_asid_status a v m ≡ done tt (record m { asid_head = set m.asid_head a v })
unfolding set_asid_status
set_asid_status-some a v m e = bind-done (asid_status a) _ m (asid_status-some a m e)

module _ {hw : Hw} (live : Drains hw) where
  activate-Gives :
      (a v : ℕ) (m : Machine)
      → IsQuiet m
      → get_elem? m.asid_head a ≡ some v
      → Gives tt (activated a v m) (activate hw a v m)
  unfolding activate activated maintain
  activate-Gives a v m quiet e = elim (Bool-cases (v == 0)) [
    | inl unused ↦
        let (b, p) = puts-Gives live m quiet (codes "UNUSED\n") in
        let not_two : (v == 2) ≡ false = ground arith in
        rw (unused, not_two)
          (
            b,
            then-done (uart_puts hw (codes "UNUSED\n")) _ m p
                ∙ set_asid_status-some a 1 (on_bus m b) e,
          )
    | inr used ↦ elim (Bool-cases (v == 2)) [
      | inl finished ↦
          let (b, p) = puts-Gives live m quiet (codes "FINISHED\n") in
          rw (used, finished)
            (
              b,
              then-done (uart_puts hw (codes "FINISHED\n")) _ m p
                  ∙ then-done (set_asid_status a 1) _ (on_bus m b)
                      (set_asid_status-some a 1 (on_bus m b) e),
            )
      | inr other ↦ rw (used, other) (m.bus, refl)
    ]
  ]

-- The start of a round, up to the status that decides it.
opening : Hw → (index asid : ℕ) → (ℕ → M ℕ) → M ℕ
opening hw index asid k = do
  register_value_puts hw (codes "ASID: ") asid
  shown ← asid_status asid
  register_value_puts hw (codes "ASID value: ") shown
  l ← lock_value (struct_lock index)
  register_value_puts hw (codes "SSI LOCK: ") l
  spin_req hw (struct_lock index)
  v ← asid_status asid
  k v

-- What a round needs: a quiet console, the lock of the entry free, a status to read.
pub record IsReady (index : ℕ) (m : Machine) : Type 0 where
  pub quiet : IsQuiet m
  pub open_lock : m.lock (struct_lock index) ≡ 0

pub on_bus-IsQuiet : (m : Machine) (b : Bus) → IsQuiet m → IsQuiet (on_bus m b)
on_bus-IsQuiet m b q = record { free = q.free; calm = q.calm }

locked-IsQuiet :
    (m : Machine) (l v : ℕ) (b : Bus)
    → l ≢ uart_lock
    → IsQuiet m
    → IsQuiet (on_bus (with_lock m l v) b)
locked-IsQuiet m l v b ne q = record { free = ground (arith, q.free); calm = q.calm }

module _ {hw : Hw} (live : Drains hw) (index asid : ℕ) (m : Machine) (ready : IsReady index m)
    {v : ℕ} (e : get_elem? m.asid_head asid ≡ some v) where
  abbrev lk : ℕ
  lk = struct_lock index

  abbrev held : Machine
  held = with_lock m lk 1

  opening-Gives :
      (k : ℕ → M ℕ) (z : ℕ) (m' : Machine)
      → ((b : Bus) → Gives z m' (k v (on_bus held b)))
      → Gives z m' (opening hw index asid k m)
  unfolding opening lock_value
  opening-Gives k z m' next =
      Gives-then (register_value_puts hw _ asid) _ m m m' z (value-Gives live m ready.quiet _ asid)
        λ b.
          Gives-bind (asid_status asid) _ (on_bus m b) m v m' z
            (b, asid_status-some asid (on_bus m b) e)
            λ b.
              Gives-then (register_value_puts hw _ v) _ (on_bus m b) m m' z
                (value-Gives live (on_bus m b) (on_bus-IsQuiet m b ready.quiet) _ v)
                λ b.
                  Gives-then (register_value_puts hw _ (m.lock lk)) _ (on_bus m b) m m' z
                    (value-Gives live (on_bus m b) (on_bus-IsQuiet m b ready.quiet) _ (m.lock lk))
                    λ b.
                      Gives-then (spin_req hw lk) _ (on_bus m b) held m' z
                        (spin_req-Gives live (on_bus m b) (on_bus-IsQuiet m b ready.quiet) lk
                          (omega arith) ready.open_lock)
                        λ b.
                          Gives-bind (asid_status asid) _ (on_bus held b) held v m' z
                            (b, asid_status-some asid (on_bus held b) e) next

  -- A round at an active ASID gives the lock back and goes on.
  pub round-busy :
      (n task : ℕ) (z : ℕ) (m' : Machine)
      → (asid == 0 || v == 1) ≡ true
      → ((b : Bus) → Gives z m' (user_loop hw n task index (asid + 1) (on_bus m b)))
      → Gives z m' (user_loop hw (suc n) task index asid m)
  unfolding user_loop opening
  round-busy n task z m' busy next = opening-Gives _ z m' λ b. rw busy (
      Gives-then (uart_puts hw _) _ (on_bus held b) held m' z
        (puts-Gives live (on_bus held b) (locked-IsQuiet m lk 1 b (omega arith) ready.quiet) _)
        λ b.
          Gives-then (spin_rel hw lk) _ (on_bus held b) m m' z
            (spin_rel-restores live (on_bus m b) (on_bus-IsQuiet m b ready.quiet) lk (omega arith)
              ready.open_lock)
            next)

  -- A round at any other ASID grants it.
  pub round-grant :
      (n task : ℕ)
      → (asid == 0 || v == 1) ≡ false
      → Gives asid (granted task asid v m) (user_loop hw (suc n) task index asid m)
  unfolding user_loop opening granted activated store
  round-grant n task free = opening-Gives _ asid (granted task asid v m) λ b. rw free (
      Gives-then (activate hw asid v) _ (on_bus held b) (activated asid v held)
        (granted task asid v m) asid
        (activate-Gives live asid v (on_bus held b)
          (locked-IsQuiet m lk 1 b (omega arith) ready.quiet) e)
        λ b.
          Gives-then (spin_rel hw lk) _ (on_bus (activated asid v held) b) (activated asid v m)
            (granted task asid v m) asid
            (spin_rel-restores live (on_bus (activated asid v m) b)
              (record { free = ready.quiet.free; calm = ready.quiet.calm }) lk (omega arith)
              ready.open_lock)
            λ b. (b, refl))
