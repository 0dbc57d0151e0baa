-- ===== src/Heap/Blocks.antt =====
-- The heap of util.c without its memory: blocks in the order of their addresses, first fit and
-- joining of neighbours, as `_malloc` and `_free` mean them.
pub mod Fit
pub mod Joined
use rpi2_baremetal.Common.{
  ℕ, suc, ◌+◌, ◌-◌, ◌*◌, ◌≤◌, ◌<◌, ◌≡◌, refl, sym, ◌⊎◌, inl, inr, List, [], ◌∷◌, Option, none, some,
  arith, leb, ltb, ◌==◌, if◌then◌else◌, Bool-cases, ap, ◌∙◌, ==_true, ==_false, ltb-true, ltb-false,
}
use rpi2_baremetal.Heap.{heap_unit_size}

-- A block of memory: the address of its header, and its size in units, the header's included.
pub record Block : Type 0 where
  pub address : ℕ
  pub size : ℕ

-- Where the block ends.
abbrev pub end : Block → ℕ
end b = b.address + b.size * heap_unit_size

-- Blocks in order from `low` on, none of them empty, with room between each two, below `limit`.
abbrev pub IsOrdered : ℕ → ℕ → List Block → Type 0
IsOrdered limit low [] = Unit {0}
IsOrdered limit low (b ∷ bs) =
    (low ≤ b.address) × (0 < b.size) × (end b ≤ limit) × IsOrdered limit (suc (end b)) bs

-- Two blocks that do not overlap.
abbrev pub IsApart : Block → Block → Type 0
IsApart a b = (end a ≤ b.address) ⊎ (end b ≤ a.address)

abbrev pub AllApart : Block → List Block → Type 0
AllApart a [] = Unit {0}
AllApart a (b ∷ bs) = IsApart a b × AllApart a bs

-- First fit: the block that is given and the blocks that stay free. Of a block that is too big its
-- tail is given.
unfoldable pub first_fit : ℕ → List Block → Option (Block × List Block)
first_fit n [] = none
first_fit n (b ∷ bs) =
    if leb n b.size
    then (if n == b.size
        then some (b, bs)
        else some (
          record { address = b.address + (b.size - n) * heap_unit_size; size = n },
          record { address = b.address; size = b.size - n } ∷ bs,
        ))
    else elim (first_fit n bs) [ none ↦ none | some (a, cs) ↦ some (a, b ∷ cs) ]

-- A block before a list, one with the list's first block when they touch.
unfoldable pub join : Block → List Block → List Block
join b [] = b ∷ []
join b (c ∷ cs) =
    if end b == c.address
    then record { address = b.address; size = b.size + c.size } ∷ cs
    else b ∷ c ∷ cs

-- A block is put in its place and joined with its neighbours.
unfoldable pub release : Block → List Block → List Block
release b [] = b ∷ []
release b (c ∷ cs) = if ltb b.address c.address then join b (c ∷ cs) else join c (release b cs)

pub IsOrdered-lower :
    (limit low low' : ℕ) (bs : List Block)
    → low' ≤ low
    → IsOrdered limit low bs
    → IsOrdered limit low' bs
IsOrdered-lower limit low low' [] le ordered = tt
IsOrdered-lower limit low low' (b ∷ bs) le (from, some_size, fits, rest) =
    (omega arith, some_size, fits, rest)

pub IsOrdered-apart :
    (limit low : ℕ) (a : Block) (bs : List Block)
    → end a ≤ low
    → IsOrdered limit low bs
    → AllApart a bs
IsOrdered-apart limit low a [] le ordered = tt
IsOrdered-apart limit low a (b ∷ bs) le (from, some_size, fits, rest) =
    (inl (omega arith), IsOrdered-apart limit (suc (end b)) a bs (omega arith) rest)

-- A block with room after it stays as it is.
pub join-far :
    (limit : ℕ) (b : Block) (bs : List Block)
    → IsOrdered limit (suc (end b)) bs
    → join b bs ≡ b ∷ bs
unfolding join
join-far limit b [] ordered = refl
join-far limit b (c ∷ cs) (from, some_size, fits, rest) =
    rw (==_false (end b) c.address (omega arith)) refl

pub release-front :
    (limit : ℕ) (b : Block) (bs : List Block)
    → IsOrdered limit (suc (end b)) bs
    → release b bs ≡ b ∷ bs
unfolding release
release-front limit b [] ordered = refl
release-front limit b (c ∷ cs) (from, some_size, fits, rest) =
    rw (ltb-true b.address c.address (omega arith))
      (join-far limit b (c ∷ cs) (from, some_size, fits, rest))
