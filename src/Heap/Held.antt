-- ===== src/Heap/Held.antt =====
-- Blocks that are held while others are free: what an allocation, a release and a write by a holder
-- leave of them.
use rpi2_baremetal.Common.{
  Picked, here, there, ℕ, suc, ◌+◌, ◌-◌, ◌*◌, ◌≤◌, ◌<◌, ◌≡◌, ◌≢◌, ◌⊎◌, inl, inr, refl, sym, ◌∙◌,
  List, [], ◌∷◌, arith, ◌==◌, ltb, Bool-cases, length,
}
use rpi2_baremetal.Machine.{update}
use rpi2_baremetal.Heap.{heap_unit_size}
use rpi2_baremetal.Heap.Blocks.{Block, end, IsOrdered, join, release, AllApart, IsApart}
use rpi2_baremetal.Heap.Blocks.Joined.{CanJoin, release-apart}
use rpi2_baremetal.Heap.Blocks.Fit.{IsGiven}
use rpi2_baremetal.Heap.Ring.{IsLinked, sentinel, AllOutside, outside_ne, update-other}
use rpi2_baremetal.Heap.Taken.{IsTaken}
use rpi2_baremetal.Heap.Free.{IsFreed}

-- All the units of some blocks.
abbrev pub total : List Block → ℕ
total [] = 0
total (b ∷ bs) = b.size + total bs

-- The held blocks: in the area, apart from the free blocks and from each other, their sizes in their
-- headers.
abbrev pub AllHeld : ℕ → ℕ → (ℕ → ℕ) → List Block → List Block → Type 0
AllHeld base limit mem bs [] = Unit {0}
AllHeld base limit mem bs (l ∷ ls) =
    CanJoin limit (base + heap_unit_size) l bs
    × (mem (l.address + 4) ≡ l.size)
    × AllApart l ls
    × AllHeld base limit mem bs ls

join-total : (b : Block) (bs : List Block) → total (join b bs) ≡ b.size + total bs
unfolding join
join-total b [] = refl
join-total b (c ∷ cs) = elim (Bool-cases (end b == c.address)) [
  | inl touch ↦ rw touch (omega arith)
  | inr gap ↦ rw gap refl
]

pub release-total : (b : Block) (bs : List Block) → total (release b bs) ≡ b.size + total bs
unfolding release
release-total b [] = refl
release-total b (c ∷ cs) = elim (Bool-cases (ltb b.address c.address)) [
  | inl before ↦ rw before (join-total b (c ∷ cs))
  | inr after ↦ rw (after, join-total c (release b cs), release-total b cs) (omega arith)
]

pub IsOrdered-length :
    (limit low : ℕ) (bs : List Block)
    → IsOrdered limit low bs
    → length bs * heap_unit_size ≤ limit - low
IsOrdered-length limit low [] ordered = omega arith
IsOrdered-length limit low (b ∷ bs) (from, some_size, fits, rest) =
    omega (arith, IsOrdered-length limit (suc (end b)) bs rest)

-- Words of a block that is apart from others are outside them.
pub AllApart-outside :
    (l : Block) (bs : List Block) (x : ℕ)
    → AllApart l bs
    → l.address ≤ x
    → x < end l
    → AllOutside x bs
AllApart-outside l [] x apart le lt = tt
AllApart-outside l (b ∷ bs) x (this, others) le lt =
    (one this, AllApart-outside l bs x others le lt)
  where
    one : IsApart l b → (x < b.address) ⊎ (end b ≤ x)
    one (inl before) = inl (omega arith)
    one (inr after) = inr (omega arith)

IsApart-sym : (a b : Block) → IsApart a b → IsApart b a
IsApart-sym a b (inl before) = inr before
IsApart-sym a b (inr after) = inl after

pub Picked-total :
    {b : Block} {ls rest : List Block} → Picked b ls rest → total ls ≡ b.size + total rest
Picked-total here = refl
Picked-total (there pick) = omega (arith, Picked-total pick)

Picked-IsApart :
    {b : Block} {ls rest : List Block} (l : Block)
    → Picked b ls rest
    → AllApart l ls
    → IsApart l b × AllApart l rest
Picked-IsApart l here (this, others) = (this, others)
Picked-IsApart l (there pick) (this, others) =
    let (one, left) = Picked-IsApart l pick others in (one, (this, left))

-- What is known of one held block.
pub record IsHeld (base limit : ℕ) (mem : ℕ → ℕ) (bs : List Block) (b : Block) : Type 0 where
  pub can : CanJoin limit (base + heap_unit_size) b bs
  pub size : mem (b.address + 4) ≡ b.size

module _ (base limit : ℕ) where
  pub Picked-IsHeld :
      {b : Block} {mem : ℕ → ℕ} {bs ls rest : List Block}
      → Picked b ls rest
      → AllHeld base limit mem bs ls
      → IsHeld base limit mem bs b × AllApart b rest × AllHeld base limit mem bs rest
  Picked-IsHeld here (can, size, apart, held) = (record { can = can; size = size }, apart, held)
  Picked-IsHeld {b = b} (there {x = l} pick) (can, size, apart, held) =
      let (this, others, left) = Picked-IsHeld pick held in
      let (one, rest_apart) = Picked-IsApart l pick apart in
      (this, (IsApart-sym l b one, others), (can, size, rest_apart, left))

  -- A header of a held block is outside the free blocks and is not the head's.
  pub held-outside :
      (l : Block) (bs : List Block)
      → CanJoin limit (base + heap_unit_size) l bs
      → AllOutside (l.address + 4) bs
  held-outside l bs can =
      AllApart-outside l bs (l.address + 4) can.apart (omega arith) (omega (arith, can.some_size))

  pub AllHeld-given :
      (n : ℕ) (mem mem' : ℕ → ℕ) (bs cs : List Block) (a : Block) (ls : List Block)
      → IsGiven limit (base + heap_unit_size) n bs a cs
      → IsTaken mem mem' base (sentinel base) bs a cs
      → AllHeld base limit mem bs ls
      → AllHeld base limit mem' cs ls × AllApart a ls
  AllHeld-given n mem mem' bs cs a [] given taken held = (tt, tt)
  AllHeld-given n mem mem' bs cs a (l ∷ ls) given taken (can, size, apart, held) =
      let (rest, others) = AllHeld-given n mem mem' bs cs a ls given taken held in
      let (one, left) = given.covers l can.some_size can.apart in
      (
        (
          record { above = can.above; some_size = can.some_size; below = can.below; apart = left },
          taken.same (l.address + 4) (omega (arith, can.above)) (held-outside l bs can) ∙ size,
          apart,
          rest,
        ),
        (IsApart-sym l a one, others),
      )

  pub AllHeld-freed :
      (mem mem' : ℕ → ℕ) (bs : List Block) (b : Block) (ls : List Block)
      → 0 < b.size
      → AllApart b ls
      → IsFreed mem mem' base (sentinel base) b bs
      → AllHeld base limit mem bs ls
      → AllHeld base limit mem' (release b bs) ls
  AllHeld-freed mem mem' bs b [] some_size apart freed held = tt
  AllHeld-freed mem mem' bs b (l ∷ ls) some_size (this, others) freed (can, size, apart, held) = (
    record {
      above = can.above;
      some_size = can.some_size;
      below = can.below;
      apart = release-apart l b bs can.some_size (IsApart-sym b l this) can.apart;
    },
    freed.same (l.address + 4) (omega (arith, can.above)) (omega (arith, can.above))
          (outside this can.some_size) (held-outside l bs can)
        ∙ size,
    apart,
    AllHeld-freed mem mem' bs b ls some_size others freed held,
  )
    where
      outside : IsApart b l → 0 < l.size → (l.address + 4 < b.address) ⊎ (end b ≤ l.address + 4)
      outside (inl before) some_l = inr (omega arith)
      outside (inr after) some_l = inl (omega arith)

  -- A held block's words behind its header are no header.
  spared_all :
      (mem : ℕ → ℕ) (bs : List Block) (b : Block) (ls : List Block) (x v : ℕ)
      → AllApart b ls
      → b.address ≤ x
      → x < end b
      → AllHeld base limit mem bs ls
      → AllHeld base limit (update mem x v) bs ls
  spared_all mem bs b [] x v apart le lt held = tt
  spared_all mem bs b (l ∷ ls) x v (this, others) le lt (can, size, apart, held) = (
    can,
    update-other mem x v (l.address + 4) (other this can.some_size) ∙ size,
    apart,
    spared_all mem bs b ls x v others le lt held,
  )
    where
      other : IsApart b l → 0 < l.size → x ≢ l.address + 4
      other (inl before) some_l e = omega arith
      other (inr after) some_l e = omega arith

  pub AllHeld-written :
      (mem : ℕ → ℕ) (bs : List Block) (b : Block) {ls rest : List Block} (x v : ℕ)
      → Picked b ls rest
      → b.address + heap_unit_size ≤ x
      → x < end b
      → AllHeld base limit mem bs ls
      → AllHeld base limit (update mem x v) bs ls
  AllHeld-written mem bs b x v (here {xs = ls}) le lt (can, size, apart, held) = (
    can,
    update-other mem x v (b.address + 4) (omega arith) ∙ size,
    apart,
    spared_all mem bs b ls x v apart (omega arith) lt held,
  )
  AllHeld-written mem bs b x v (there {x = l} pick) le lt (can, size, apart, held) = (
    can,
    update-other mem x v (l.address + 4) (other (Picked-IsApart l pick apart).0 can.some_size)
        ∙ size,
    apart,
    AllHeld-written mem bs b x v pick le lt held,
  )
    where
      other : IsApart l b → 0 < l.size → x ≢ l.address + 4
      other (inl before) some_l e = omega arith
      other (inr after) some_l e = omega arith

-- A write outside the free blocks spares the free list.
pub IsLinked-written :
    (mem : ℕ → ℕ) (stop limit low : ℕ) (bs : List Block) (x v : ℕ)
    → IsOrdered limit low bs
    → AllOutside x bs
    → IsLinked mem stop bs
    → IsLinked (update mem x v) stop bs
IsLinked-written mem stop limit low [] x v ordered outside linked = tt
IsLinked-written mem stop limit low (b ∷ bs) x v (from, some_size, fits, rest) (this, others)
      (size, ptr, links) =
    (
      update-other mem x v (b.address + 4)
            (λ e. outside_ne b x (b.address + 4) this (omega arith) (omega arith) (sym e))
          ∙ size,
      update-other mem x v b.address
            (λ e. outside_ne b x b.address this (omega arith) (omega arith) (sym e))
          ∙ ptr,
      IsLinked-written mem stop limit (suc (end b)) bs x v rest others links,
    )
