-- ===== src/Heap/Blocks/Joined.antt =====
-- A block put back among the others: the order and what stays apart.
use rpi2_baremetal.Common.{
  ℕ, suc, ◌+◌, ◌≤◌, ◌<◌, ◌≡◌, refl, inl, inr, List, [], ◌∷◌, arith, ltb, ◌==◌, Bool-cases,
}
use rpi2_baremetal.Heap.Blocks.{
  Block, end, IsOrdered, IsApart, AllApart, join, release, IsOrdered-lower,
}

-- A block that may be put among the free ones.
pub record CanJoin (limit low : ℕ) (b : Block) (bs : List Block) : Type 0 where
  pub above : low ≤ b.address
  pub some_size : 0 < b.size
  pub below : end b ≤ limit
  pub apart : AllApart b bs

-- A block joined with what follows it at once or later.
pub join-IsOrdered :
    (limit low : ℕ) (b : Block) (bs : List Block)
    → low ≤ b.address
    → 0 < b.size
    → end b ≤ limit
    → IsOrdered limit (end b) bs
    → IsOrdered limit low (join b bs)
unfolding join
join-IsOrdered limit low b [] from some_size fits ordered = (from, some_size, fits, tt)
join-IsOrdered limit low b (c ∷ cs) from some_size fits (next, some_next, fits_next, rest) =
    elim (Bool-cases (end b == c.address)) [
      | inl touch ↦ rw touch (
        from,
        omega arith,
        ground arith,
        IsOrdered-lower limit (suc (end c)) _ cs (ground arith) rest,
      )
      | inr gap ↦ rw gap (from, some_size, fits, (ground arith, some_next, fits_next, rest))
    ]

join-apart :
    (l b : Block) (bs : List Block)
    → 0 < l.size
    → IsApart l b
    → AllApart l bs
    → AllApart l (join b bs)
unfolding join
join-apart l b [] some_size here others = (here, tt)
join-apart l b (c ∷ cs) some_size here (next, others) = elim (Bool-cases (end b == c.address)) [
  | inl touch ↦ rw touch (both here next (ground arith), others)
  | inr gap ↦ rw gap (here, (next, others))
]
  where
    both :
        IsApart l b
        → IsApart l c
        → end b ≡ c.address
        → IsApart l (record { address = b.address; size = b.size + c.size })
    both (inl before) q e = inl before
    both (inr after) (inl before) e = absurd (omega arith)
    both (inr after) (inr later) e = inr (omega arith)

pub IsApart-before :
    (b c : Block) → IsApart b c → b.address < c.address → 0 < c.size → end b ≤ c.address
IsApart-before b c (inl before) lt some_size = before
IsApart-before b c (inr after) lt some_size = absurd (omega arith)

pub IsApart-after :
    (b c : Block) → IsApart b c → c.address ≤ b.address → 0 < b.size → end c ≤ b.address
IsApart-after b c (inl before) le some_size = absurd (omega arith)
IsApart-after b c (inr after) le some_size = after

-- The blocks stay in order with room between them, and apart from what was apart from them all.
pub release-IsOrdered :
    (limit low : ℕ) (b : Block) (bs : List Block)
    → IsOrdered limit low bs
    → CanJoin limit low b bs
    → IsOrdered limit low (release b bs)
unfolding release
release-IsOrdered limit low b [] ordered can = (can.above, can.some_size, can.below, tt)
release-IsOrdered limit low b (c ∷ cs) (from, some_size, fits, rest) can =
    let (apart, others) = can.apart in
    elim (Bool-cases (ltb b.address c.address)) [
      | inl before ↦ rw before (
          join-IsOrdered limit low b (c ∷ cs) can.above can.some_size can.below
            (IsApart-before b c apart (ground arith) some_size, some_size, fits, rest))
      | inr after ↦ rw after (
          join-IsOrdered limit low c (release b cs) from some_size fits (
            release-IsOrdered limit (end c) b cs
              (IsOrdered-lower limit (suc (end c)) (end c) cs (omega arith) rest)
              (record {
                above = IsApart-after b c apart (ground arith) can.some_size;
                some_size = can.some_size;
                below = can.below;
                apart = others;
              })))
    ]

pub release-apart :
    (l b : Block) (bs : List Block)
    → 0 < l.size
    → IsApart l b
    → AllApart l bs
    → AllApart l (release b bs)
unfolding release
release-apart l b [] some_size here others = (here, tt)
release-apart l b (c ∷ cs) some_size here (next, others) =
    elim (Bool-cases (ltb b.address c.address)) [
      | inl before ↦ rw before (join-apart l b (c ∷ cs) some_size here (next, others))
      | inr after ↦ rw after (
          join-apart l c (release b cs) some_size next (release-apart l b cs some_size here others))
    ]

-- The first block of a joined list has the joined block's address.
pub join-first :
    (b : Block) (bs : List Block)
    → (c : Block) × (cs : List Block) × (join b bs ≡ c ∷ cs) × (c.address ≡ b.address)
unfolding join
join-first b [] = (b, [], refl, refl)
join-first b (c ∷ cs) = elim (Bool-cases (end b == c.address)) [
  | inl touch ↦ (record { address = b.address; size = b.size + c.size }, cs, rw touch refl, refl)
  | inr gap ↦ (b, c ∷ cs, rw gap refl, refl)
]
