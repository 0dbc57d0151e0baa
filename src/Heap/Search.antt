-- ===== src/Heap/Search.antt =====
-- The loop of `_malloc` (util.c), which looks for a block that is big enough.
use rpi2_baremetal.Common.{
  ℕ, zero, suc, ◌+◌, ◌-◌, ◌*◌, ◌^◌, ◌≤◌, ◌<◌, ◌≡◌, ◌≢◌, ◌⊎◌, inl, inr, refl, sym, ap, ◌∙◌, List, [],
  ◌∷◌, none, some, arith, ◌==◌, leb, true, false, Bool-cases, ==_true, ==_false, length,
}
use rpi2_baremetal.Machine.{Machine, Outcome, done, update, load}
use rpi2_baremetal.Heap.{heap_unit_size, take_block, malloc_loop}
use rpi2_baremetal.Heap.Blocks.{Block, end, IsOrdered, first_fit}
use rpi2_baremetal.Heap.Ring.{first_of, IsLinked, AllOutside, AllOutside-before, outside_ne}
use rpi2_baremetal.Heap.Taken.{
  take_block-exact, take_block-tail, exact-IsTaken, tail-IsTaken, IsTaken,
}

-- How an allocation of `n` units among the blocks `bs` behind the header `c` ends: no block is big
-- enough and NULL is returned, or the block of first fit is.
abbrev pub Allocates : ℕ → ℕ → Block → List Block → Machine → Outcome ℕ → Type 0
Allocates base n c bs m r =
    ((first_fit n bs ≡ none) × (r ≡ done 0 m))
    ⊎ ((a : Block) × (cs : List Block) × (mem' : ℕ → ℕ) × (first_fit n bs ≡ some (a, cs))
        × (r ≡ done (a.address + heap_unit_size) (record m { mem = mem' }))
        × IsTaken m.mem mem' base c bs a cs)

module _ (limit low base n : ℕ) (positive : 0 < n) (in_range : limit < 2 ^ 32) (c b : Block)
    (bs : List Block) (m : Machine) (room : c.address + heap_unit_size ≤ low)
    (ordered : IsOrdered limit low (b ∷ bs)) (linked : IsLinked m.mem base (c ∷ b ∷ bs)) where
  found-Allocates :
      {r : Outcome ℕ}
      → n ≤ b.size
      → r ≡ take_block c.address b.address n m
      → Allocates base n c (b ∷ bs) m r
  found-Allocates le e =
      let (from, some_size, fits, rest) = ordered in
      let (_, _, (b_size, _, _)) = linked in
      elim (Bool-cases (n == b.size)) [
        | inl exact ↦ inr (
          b,
          bs,
          update m.mem c.address (m.mem b.address),
          unfold first_fit in rw (big, exact) refl,
          e ∙ take_block-exact c.address b.address n m (b_size ∙ ground arith) (omega arith),
          exact-IsTaken limit low base m.mem c b bs room ordered linked,
        )
        | inr more ↦ inr (
          record { address = b.address + (b.size - n) * heap_unit_size; size = n },
          record { address = b.address; size = b.size - n } ∷ bs,
          update (update m.mem (b.address + 4) (b.size - n))
              (b.address + (b.size - n) * heap_unit_size + 4) n,
          unfold first_fit in rw (big, more) refl,
          e
              ∙ take_block-tail c.address b.address n m b.size b_size positive (ground arith)
                  (omega arith),
          tail-IsTaken limit low base m.mem c b bs n positive (ground arith) room ordered linked,
        )
      ]
    where
      big : leb n b.size ≡ true
      big = ground arith

  later-IsTaken :
      {mem' : ℕ → ℕ} {a : Block} {cs : List Block}
      → IsTaken m.mem mem' base b bs a cs
      → IsTaken m.mem mem' base c (b ∷ bs) a (b ∷ cs)
  later-IsTaken taken =
      let (from, some_size, fits, rest) = ordered in
      let (c_size, c_ptr, _) = linked in
      record {
        linked = (
          taken.same (c.address + 4) (omega arith) (before (c.address + 4) (omega arith) rest)
              ∙ c_size,
          taken.same c.address (omega arith) (before c.address (omega arith) rest) ∙ c_ptr,
          taken.linked,
        );
        size = taken.size;
        same = λ x ne (here, others).
            taken.same x (λ e. outside_ne b x b.address here (omega arith) (omega arith) (sym e))
              others;
      }
    where
      before : (x : ℕ) → x < suc (end b) → IsOrdered limit (suc (end b)) bs → AllOutside x bs
      before x lt rest = AllOutside-before limit (suc (end b)) x bs lt rest

  later-Allocates :
      {r r' : Outcome ℕ}
      → b.size < n
      → r ≡ r'
      → Allocates base n b bs m r'
      → Allocates base n c (b ∷ bs) m r
  later-Allocates lt e (inl (missing, null)) =
      inl (unfold first_fit in rw (small, missing) refl, e ∙ null)
    where
      small : leb n b.size ≡ false
      small = ground arith
  later-Allocates lt e (inr (a, cs, mem', found, ret, taken)) =
      inr
        (a, b ∷ cs, mem', unfold first_fit in rw (small, found) refl, e ∙ ret, later-IsTaken taken)
    where
      small : leb n b.size ≡ false
      small = ground arith

module _ (base limit n : ℕ) (positive : 0 < n) (in_range : limit < 2 ^ 32) where
  last_round :
      (fuel : ℕ) (prevp : ℕ) (m : Machine)
      → m.mem (base + 4) ≡ 0
      → malloc_loop (suc fuel) base prevp base n m ≡ done 0 m
  unfolding malloc_loop load
  last_round fuel prevp m empty = rw (empty, large, ==_true base base refl) refl
    where
      large : leb n 0 ≡ false
      large = ground arith

  round-take :
      (fuel prevp p : ℕ) (m : Machine)
      → n ≤ m.mem (p + 4)
      → malloc_loop (suc fuel) base prevp p n m ≡ take_block prevp p n m
  unfolding malloc_loop load
  round-take fuel prevp p m le = rw big refl
    where
      big : leb n (m.mem (p + 4)) ≡ true
      big = ground arith

  round-next :
      (fuel prevp p : ℕ) (m : Machine)
      → m.mem (p + 4) < n
      → p ≢ base
      → malloc_loop (suc fuel) base prevp p n m ≡ malloc_loop fuel base p (m.mem p) n m
  unfolding malloc_loop load
  round-next fuel prevp p m lt ne = rw (small, ==_false p base ne) refl
    where
      small : leb n (m.mem (p + 4)) ≡ false
      small = ground arith

  pub malloc_loop-Allocates :
      (bs : List Block) (fuel low : ℕ) (c : Block) (m : Machine)
      → length bs < fuel
      → base < low
      → c.address + heap_unit_size ≤ low
      → IsOrdered limit low bs
      → IsLinked m.mem base (c ∷ bs)
      → m.mem (base + 4) ≡ 0
      → Allocates base n c bs m (malloc_loop fuel base c.address (first_of base bs) n m)
  malloc_loop-Allocates bs zero low c m enough above room ordered linked empty =
      absurd (omega arith)
  malloc_loop-Allocates [] (suc fuel) low c m enough above room ordered linked empty =
      inl (unfold first_fit in refl, last_round fuel c.address m empty)
  malloc_loop-Allocates (b ∷ bs) (suc fuel) low c m enough above room ordered linked empty =
      let (from, some_size, fits, rest) = ordered in
      let (_, _, links) = linked in
      let (b_size, b_ptr, _) = links in
      elim (Bool-cases (leb n b.size)) [
        | inl big ↦
            found-Allocates limit low base n positive in_range c b bs m room ordered linked
              (ground arith) (round-take fuel c.address b.address m (rw b_size (ground arith)))
        | inr small ↦
            later-Allocates limit low base n positive in_range c b bs m room ordered linked
              (ground arith)
              (round-next fuel c.address b.address m (rw b_size (ground arith)) (omega arith)
                ∙ ap (λ (p : ℕ). malloc_loop fuel base b.address p n m) b_ptr)
              (malloc_loop-Allocates bs fuel (suc (end b)) b m (omega arith) (omega arith)
                (omega arith) rest links empty)
      ]
