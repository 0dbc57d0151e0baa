-- ===== src/Heap/Taken.antt =====
-- What `_malloc` of util.c does with the block that it takes.
use rpi2_baremetal.Common.{
  ℕ, suc, ◌+◌, ◌-◌, ◌*◌, ◌^◌, ◌≤◌, ◌<◌, ◌≡◌, ◌≢◌, refl, sym, ◌∙◌, List, ◌∷◌, arith, u32, ==_true,
  ==_false,
}
use native.Mathlib.Nat.{mod-eq_of_lt}
use rpi2_baremetal.Machine.{Machine, done, update, load, store}
use rpi2_baremetal.Heap.{heap_unit_size, take_block}
use rpi2_baremetal.Heap.Blocks.{Block, end, IsOrdered}
use rpi2_baremetal.Heap.Ring.{
  IsLinked, AllOutside, outside_ne, IsLinked-frame, update-same, update-other,
}

pub u32-small : (x : ℕ) → x < 2 ^ 32 → u32 x ≡ x
u32-small x lt = mod-eq_of_lt lt

module _ (prevp p n : ℕ) (m : Machine) where
  pub take_block-exact :
      m.mem (p + 4) ≡ n
      → p + heap_unit_size < 2 ^ 32
      → take_block prevp p n m
        ≡ done (p + heap_unit_size) (record m { mem = update m.mem prevp (m.mem p) })
  unfolding take_block load store
  take_block-exact e lt = rw (==_true (m.mem (p + 4)) n e, u32-small (p + 8) lt) refl

  abbrev tail_of : ℕ → ℕ
  tail_of size = p + (size - n) * heap_unit_size

  pub take_block-tail :
      (size : ℕ)
      → m.mem (p + 4) ≡ size
      → 0 < n
      → n < size
      → p + size * heap_unit_size < 2 ^ 32
      → take_block prevp p n m
        ≡ done
            (tail_of size + heap_unit_size)
            (record m { mem = update (update m.mem (p + 4) (size - n)) (tail_of size + 4) n })
  unfolding take_block load store
  take_block-tail size e positive lt fits =
      rw
        (
          e,
          ==_false size n (omega arith),
          u32-small (tail_of size) (omega arith),
          u32-small (tail_of size + 8) (omega arith),
        )
        refl

-- What an allocation does to the memory: behind the header `c` the free list is `cs` now, the block
-- `a` has its size, and the rest is as it was.
pub record IsTaken (mem mem' : ℕ → ℕ) (base : ℕ) (c : Block) (bs : List Block) (a : Block)
    (cs : List Block) : Type 0 where
  pub linked : IsLinked mem' base (c ∷ cs)
  pub size : mem' (a.address + 4) ≡ a.size
  pub same : (x : ℕ) → x ≢ c.address → AllOutside x bs → mem' x ≡ mem x

pub update-apart : (f : ℕ → ℕ) (k v l w j : ℕ) → k ≢ j → l ≢ j → update (update f k v) l w j ≡ f j
update-apart f k v l w j ne ne' = ground arith

module _ (limit low base : ℕ) (mem : ℕ → ℕ) (c b : Block) (bs : List Block) where
  pub exact-IsTaken :
      c.address + heap_unit_size ≤ low
      → IsOrdered limit low (b ∷ bs)
      → IsLinked mem base (c ∷ b ∷ bs)
      → IsTaken mem (update mem c.address (mem b.address)) base c (b ∷ bs) b bs
  exact-IsTaken room (from, some_size, fits, rest) (c_size, c_ptr, (b_size, b_ptr, links)) =
      record {
        linked = (
          update-other mem c.address (mem b.address) (c.address + 4) (omega arith) ∙ c_size,
          update-same mem c.address (mem b.address) ∙ b_ptr,
          IsLinked-frame mem _ base limit (suc (end b)) bs rest
              (λ x le. update-other mem c.address (mem b.address) x (omega arith)) links,
        );
        size = update-other mem c.address (mem b.address) (b.address + 4) (omega arith) ∙ b_size;
        same = λ x ne outside. update-other mem c.address (mem b.address) x (λ e. ne (sym e));
      }

  pub tail-IsTaken :
      (n : ℕ)
      → 0 < n
      → n < b.size
      → c.address + heap_unit_size ≤ low
      → IsOrdered limit low (b ∷ bs)
      → IsLinked mem base (c ∷ b ∷ bs)
      → IsTaken mem
          (update
            (update mem (b.address + 4) (b.size - n))
            (b.address + (b.size - n) * heap_unit_size + 4)
            n)
          base
          c
          (b ∷ bs)
          (record { address = b.address + (b.size - n) * heap_unit_size; size = n })
          (record { address = b.address; size = b.size - n } ∷ bs)
  tail-IsTaken n positive lt room (from, some_size, fits, rest)
        (c_size, c_ptr, (b_size, b_ptr, links)) =
      record {
        linked = (
          spared (c.address + 4) (omega arith) (omega arith) ∙ c_size,
          spared c.address (omega arith) (omega arith) ∙ c_ptr,
          (
            update-other (update mem (b.address + 4) (b.size - n)) (t + 4) n (b.address + 4)
                  (omega arith)
                ∙ update-same mem (b.address + 4) (b.size - n),
            spared b.address (omega arith) (omega arith) ∙ b_ptr,
            IsLinked-frame mem _ base limit (suc (end b)) bs rest
                (λ x le. spared x (omega arith) (omega arith)) links,
          ),
        );
        size = update-same (update mem (b.address + 4) (b.size - n)) (t + 4) n;
        same = λ x ne (here, others).
            spared x (outside_ne b x (b.address + 4) here (omega arith) (omega arith))
              (outside_ne b x (t + 4) here (omega arith) (omega arith));
      }
    where
      t : ℕ
      t = b.address + (b.size - n) * heap_unit_size

      spared :
          (x : ℕ)
          → b.address + 4 ≢ x
          → t + 4 ≢ x
          → update (update mem (b.address + 4) (b.size - n)) (t + 4) n x ≡ mem x
      spared x ne ne' = update-apart mem (b.address + 4) (b.size - n) (t + 4) n x ne ne'
