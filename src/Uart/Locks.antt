-- ===== src/Uart/Locks.antt =====
-- The spin locks: on core 0 they take and give back one word, on another core that runs with its
-- MMU on they never return, since the message about the lock waits for `uart_lock` twice.
use rpi2_baremetal.Common.{
  ℕ, suc, ◌≡◌, refl, ◌≢◌, inl, inr, Bool, true, not, ◌==◌, arith, bit_and, fun_ext, ◌∙◌, List,
  ==_true, ==_false, Bool-cases,
}
use rpi2_baremetal.Machine.{
  Machine, Hw, done, hang, get_prid, then-done, then-hang, update, uart_lock,
}
use rpi2_baremetal.Uart.{
  codes, is_mmu_enabled, raw_spin_req, raw_spin_rel, spin_req_at, spin_rel_at, uart_puts_at,
  hexstring_at, register_value_puts_at, spin_req, uart_puts, hexstring, register_value_puts,
}

abbrev pub mmu_on : Machine → Bool
mmu_on m = not (bit_and m.cp15.sctlr 1 == 0)

-- Taking a lock and giving it back leaves the lock words as they were.
pub update-update : (f : ℕ → ℕ) (l : ℕ) → f l ≡ 0 → update (update f l 1) l 0 ≡ f
update-update f l e = fun_ext λ j. ground arith

abbrev pub with_lock : Machine → ℕ → ℕ → Machine
with_lock m l v = record m { lock = update m.lock l v }

module _ (l : ℕ) (m : Machine) where
  pub raw_spin_req-free : m.lock l ≡ 0 → raw_spin_req l m ≡ done tt (with_lock m l 1)
  unfolding raw_spin_req
  raw_spin_req-free free = rw (==_true (m.lock l) 0 free)

  pub raw_spin_req-taken : m.lock l ≢ 0 → raw_spin_req l m ≡ hang
  unfolding raw_spin_req
  raw_spin_req-taken taken = rw (==_false (m.lock l) 0 taken)

  pub raw_spin_rel-taken : m.lock l ≡ 1 → raw_spin_rel l m ≡ done tt (with_lock m l 0)
  unfolding raw_spin_rel
  raw_spin_rel-taken taken = rw (==_true (m.lock l) 1 taken)

  pub raw_spin_rel-free : m.lock l ≢ 1 → raw_spin_rel l m ≡ hang
  unfolding raw_spin_rel
  raw_spin_rel-free free = rw (==_false (m.lock l) 1 free)

module _ (hw : Hw) (depth l : ℕ) (m : Machine) where
  pub spin_req-core0 :
      m.cpu ≡ 0 → m.lock l ≡ 0 → spin_req_at hw (suc depth) l m ≡ done tt (with_lock m l 1)
  unfolding spin_req_at get_prid
  spin_req-core0 cpu0 free =
      then-done (raw_spin_req l) _ m (raw_spin_req-free l m free) ∙ rw (==_true m.cpu 0 cpu0)

  pub spin_rel-core0 :
      m.cpu ≡ 0 → m.lock l ≡ 1 → spin_rel_at hw (suc depth) l m ≡ done tt (with_lock m l 0)
  unfolding spin_rel_at get_prid
  spin_rel-core0 cpu0 taken =
      then-done (raw_spin_rel l) _ m (raw_spin_rel-taken l m taken) ∙ rw (==_true m.cpu 0 cpu0)

  -- A lock that is taken is waited for in vain.
  pub spin_req-hang : m.lock l ≢ 0 → spin_req_at hw (suc depth) l m ≡ hang
  unfolding spin_req_at
  spin_req-hang taken = then-hang (raw_spin_req l) _ m (raw_spin_req-taken l m taken)

-- What a core other than core 0 runs into with its MMU on.
pub record IsSecondary (m : Machine) : Type 0 where
  pub other : m.cpu ≢ 0
  pub on : mmu_on m ≡ true

module _ (hw : Hw) where
  puts-taken :
      (depth : ℕ) (s : List ℕ) (m : Machine)
      → mmu_on m ≡ true
      → m.lock uart_lock ≢ 0
      → uart_puts_at hw (suc (suc depth)) s m ≡ hang
  unfolding uart_puts_at is_mmu_enabled
  puts-taken depth s m on taken = rw on (
      then-hang (spin_req_at hw (suc depth) uart_lock) _ m
        (spin_req-hang hw depth uart_lock m taken))

  value-taken :
      (depth : ℕ) (s : List ℕ) (d : ℕ) (m : Machine)
      → mmu_on m ≡ true
      → m.lock uart_lock ≢ 0
      → register_value_puts_at hw (suc (suc (suc depth))) s d m ≡ hang
  unfolding register_value_puts_at
  value-taken depth s d m on taken =
      then-hang (uart_puts_at hw (suc (suc depth)) s) _ m (puts-taken depth s m on taken)

  -- A core that has taken a word goes on to print about it.
  req-secondary :
      (depth l : ℕ) (m : Machine)
      → m.cpu ≢ 0
      → ((m' : Machine)
          → m' ≡ with_lock m l 1
          → register_value_puts_at hw depth (codes "get lock from: ") m.cpu m' ≡ hang)
      → spin_req_at hw (suc depth) l m ≡ hang
  unfolding spin_req_at get_prid
  req-secondary depth l m other message = elim (Bool-cases (m.lock l == 0)) [
    | inl free ↦
        then-done (raw_spin_req l) _ m (raw_spin_req-free l m (ground arith))
        ∙ rw (==_false m.cpu 0 other) (message _ refl)
    | inr taken ↦ then-hang (raw_spin_req l) _ m (raw_spin_req-taken l m (ground arith))
  ]

  req_uart-hang :
      (depth : ℕ) (m : Machine)
      → IsSecondary m
      → spin_req_at hw (suc (suc (suc (suc depth)))) uart_lock m ≡ hang
  req_uart-hang depth m h =
      req-secondary (suc (suc (suc depth))) uart_lock m h.other
        λ m' e. rw e (value-taken depth _ m.cpu (with_lock m uart_lock 1) h.on (omega arith))

  uart_puts-hang :
      (depth : ℕ) (s : List ℕ) (m : Machine)
      → IsSecondary m
      → uart_puts_at hw (suc (suc (suc (suc (suc depth))))) s m ≡ hang
  unfolding uart_puts_at is_mmu_enabled
  uart_puts-hang depth s m h = rw h.on (
      then-hang (spin_req_at hw (suc (suc (suc (suc depth)))) uart_lock) _ m
        (req_uart-hang depth m h))

  hexstring-hang :
      (depth d : ℕ) (m : Machine)
      → IsSecondary m
      → hexstring_at hw (suc (suc (suc (suc (suc depth))))) d m ≡ hang
  unfolding hexstring_at is_mmu_enabled
  hexstring-hang depth d m h = rw h.on (
      then-hang (spin_req_at hw (suc (suc (suc (suc depth)))) uart_lock) _ m
        (req_uart-hang depth m h))

  value-hang :
      (depth : ℕ) (s : List ℕ) (d : ℕ) (m : Machine)
      → IsSecondary m
      → register_value_puts_at hw (suc (suc (suc (suc (suc (suc depth)))))) s d m ≡ hang
  unfolding register_value_puts_at
  value-hang depth s d m h =
      then-hang (uart_puts_at hw (suc (suc (suc (suc (suc depth))))) s) _ m
        (uart_puts-hang depth s m h)

  req-hang :
      (depth l : ℕ) (m : Machine)
      → IsSecondary m
      → spin_req_at hw (suc (suc (suc (suc (suc (suc (suc depth))))))) l m ≡ hang
  req-hang depth l m h = req-secondary (suc (suc (suc (suc (suc (suc depth)))))) l m h.other λ m' e.
      rw e (value-hang depth _ m.cpu (with_lock m l 1) (record { other = h.other; on = h.on }))

-- On a core other than core 0 that runs with its MMU on, no call of `spin_req` and no call that
-- prints ever returns, whatever the lock words hold: `spin_req` takes the word, prints a message
-- about it, and waits for `uart_lock`, which that message has taken already.
pub secondary-hang :
    (hw : Hw) (m : Machine) (l d : ℕ) (s : List ℕ)
    → IsSecondary m
    → (spin_req hw l m ≡ hang)
      × (uart_puts hw s m ≡ hang)
      × (hexstring hw d m ≡ hang)
      × (register_value_puts hw s d m ≡ hang)
unfolding spin_req uart_puts hexstring register_value_puts
secondary-hang hw m l d s h = (
  req-hang hw 1 l m h,
  uart_puts-hang hw 3 s m h,
  hexstring-hang hw 3 d m h,
  value-hang hw 2 s d m h,
)
