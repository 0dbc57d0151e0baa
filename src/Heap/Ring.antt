-- ===== src/Heap/Ring.antt =====
-- The free list in memory: a ring of headers, from the list's head through the free blocks and back.
use rpi2_baremetal.Common.{
  ℕ, suc, ◌+◌, ◌^◌, ◌≤◌, ◌<◌, ◌≡◌, ◌≢◌, ◌⊎◌, inl, inr, ◌∙◌, List, [], ◌∷◌, arith,
}
use rpi2_baremetal.Machine.{update}
use rpi2_baremetal.Heap.{heap_unit_size}
use rpi2_baremetal.Heap.Blocks.{Block, end, IsOrdered}

-- The address of the first block of a list, or where an empty list leads.
abbrev pub first_of : ℕ → List Block → ℕ
first_of stop [] = stop
first_of stop (b ∷ bs) = b.address

-- In memory each header has its block's size and leads to the next one, the last one to `stop`.
abbrev pub IsLinked : (ℕ → ℕ) → ℕ → List Block → Type 0
IsLinked mem stop [] = Unit {0}
IsLinked mem stop (b ∷ bs) =
    (mem (b.address + 4) ≡ b.size) × (mem b.address ≡ first_of stop bs) × IsLinked mem stop bs

-- The head of the ring, a block of no units.
abbrev pub sentinel : ℕ → Block
sentinel base = record { address = base; size = 0 }

-- The free list: a ring from its head `base`, which is not NULL, through the blocks `bs`, which
-- stand in order behind the head's header and below `limit`, an address.
pub record IsHeap (mem : ℕ → ℕ) (base limit : ℕ) (bs : List Block) : Type 0 where
  pub not_null : 0 < base
  pub in_range : limit < 2 ^ 32
  pub linked : IsLinked mem base (sentinel base ∷ bs)
  pub ordered : IsOrdered limit (base + heap_unit_size) bs

-- An address outside the blocks.
abbrev pub AllOutside : ℕ → List Block → Type 0
AllOutside x [] = Unit {0}
AllOutside x (b ∷ bs) = ((x < b.address) ⊎ (end b ≤ x)) × AllOutside x bs

pub outside_ne :
    (b : Block) (x k : ℕ) → (x < b.address) ⊎ (end b ≤ x) → b.address ≤ k → k < end b → k ≢ x
outside_ne b x k (inl before) le lt e = omega arith
outside_ne b x k (inr after) le lt e = omega arith

pub AllOutside-before :
    (limit low x : ℕ) (bs : List Block) → x < low → IsOrdered limit low bs → AllOutside x bs
AllOutside-before limit low x [] lt ordered = tt
AllOutside-before limit low x (b ∷ bs) lt (from, some_size, fits, rest) =
    (inl (omega arith), AllOutside-before limit (suc (end b)) x bs (omega arith) rest)

-- A list in memory survives every change that spares the addresses from its lowest on.
pub IsLinked-frame :
    (mem mem' : ℕ → ℕ) (stop limit low : ℕ) (bs : List Block)
    → IsOrdered limit low bs
    → ((x : ℕ) → low ≤ x → mem' x ≡ mem x)
    → IsLinked mem stop bs
    → IsLinked mem' stop bs
IsLinked-frame mem mem' stop limit low [] ordered same linked = tt
IsLinked-frame mem mem' stop limit low (b ∷ bs) (from, some_size, fits, rest) same
      (size, ptr, links) =
    (
      same (b.address + 4) (omega arith) ∙ size,
      same b.address from ∙ ptr,
      IsLinked-frame mem mem' stop limit (suc (end b)) bs rest (λ x le. same x (omega arith)) links,
    )

pub update-same : (f : ℕ → ℕ) (k v : ℕ) → update f k v k ≡ v
update-same f k v = ground arith

pub update-other : (f : ℕ → ℕ) (k v j : ℕ) → k ≢ j → update f k v j ≡ f j
update-other f k v j ne = ground arith
