-- ===== src/Heap/Blocks/Fit.antt =====
-- First fit: what it gives, and that giving it back restores the list.
use rpi2_baremetal.Common.{
  ℕ, suc, ◌+◌, ◌-◌, ◌*◌, ◌≤◌, ◌<◌, ◌≡◌, refl, sym, ◌⊎◌, inl, inr, List, [], ◌∷◌, none, some, arith,
  leb, ◌==◌, Bool-cases, ap, ◌∙◌, ==_true, ltb-false,
}
use rpi2_baremetal.Heap.{heap_unit_size}
use rpi2_baremetal.Heap.Blocks.{
  Block, end, IsOrdered, IsApart, AllApart, first_fit, join, release, IsOrdered-lower,
  IsOrdered-apart, join-far, release-front,
}

-- What first fit gives.
pub record IsGiven (limit low n : ℕ) (bs : List Block) (a : Block) (cs : List Block) : Type 0 where
  pub size : a.size ≡ n
  pub above : low ≤ a.address
  pub below : end a ≤ limit
  pub ordered : IsOrdered limit low cs
  pub apart : AllApart a cs
  pub covers : (l : Block) → 0 < l.size → AllApart l bs → IsApart l a × AllApart l cs

IsApart-part : (l b c : Block) → b.address ≤ c.address → end c ≤ end b → IsApart l b → IsApart l c
IsApart-part l b c from to (inl before) = inl (omega arith)
IsApart-part l b c from to (inr after) = inr (omega arith)

module _ (limit low n : ℕ) (positive : 0 < n) (b : Block) (bs : List Block) where
  exact-IsGiven : n ≡ b.size → IsOrdered limit low (b ∷ bs) → IsGiven limit low n (b ∷ bs) b bs
  exact-IsGiven e (from, some_size, fits, rest) = record {
    size = sym e;
    above = from;
    below = fits;
    ordered = IsOrdered-lower limit (suc (end b)) low bs (omega arith) rest;
    apart = IsOrdered-apart limit (suc (end b)) b bs (omega arith) rest;
    covers = λ l some_size all. all;
  }

  abbrev head : Block
  head = record { address = b.address; size = b.size - n }

  abbrev tail : Block
  tail = record { address = b.address + (b.size - n) * heap_unit_size; size = n }

  tail-IsGiven :
      n < b.size → IsOrdered limit low (b ∷ bs) → IsGiven limit low n (b ∷ bs) tail (head ∷ bs)
  tail-IsGiven lt (from, some_size, fits, rest) = record {
    size = refl;
    above = omega arith;
    below = omega arith;
    ordered = (
      from,
      omega arith,
      omega arith,
      IsOrdered-lower limit (suc (end b)) (suc (end head)) bs (omega arith) rest,
    );
    apart = (inr (omega arith), IsOrdered-apart limit (suc (end b)) tail bs (omega arith) rest);
    covers = λ l some_size (here, others). (
      IsApart-part l b tail (omega arith) (omega arith) here,
      (IsApart-part l b head (omega arith) (omega arith) here, others),
    );
  }

  later-IsGiven :
      {a : Block} {cs : List Block}
      → IsOrdered limit low (b ∷ bs)
      → IsGiven limit (suc (end b)) n bs a cs
      → IsGiven limit low n (b ∷ bs) a (b ∷ cs)
  later-IsGiven (from, some_size, fits, rest) given = record {
    size = given.size;
    above = omega (arith, given.above);
    below = given.below;
    ordered = (from, some_size, fits, given.ordered);
    apart = (inr (omega (arith, given.above)), given.apart);
    covers = λ l some_size (here, others).
        let (new, left) = given.covers l some_size others in (new, (here, left));
  }

  tail-release : n < b.size → IsOrdered limit low (b ∷ bs) → release tail (head ∷ bs) ≡ b ∷ bs
  unfolding release join
  tail-release lt (from, some_size, fits, rest) =
      rw
        (
          ltb-false tail.address head.address (omega arith),
          release-front limit tail bs
              (IsOrdered-lower limit (suc (end b)) (suc (end tail)) bs (omega arith) rest),
          ==_true (end head) tail.address refl,
        )
        (ap (λ (s : ℕ). record { address = b.address; size = s } ∷ bs) (omega arith))

  later-release :
      (a : Block) (cs : List Block)
      → IsOrdered limit low (b ∷ bs)
      → b.address ≤ a.address
      → release a cs ≡ bs
      → release a (b ∷ cs) ≡ b ∷ bs
  unfolding release
  later-release a cs (from, some_size, fits, rest) le back =
      rw (ltb-false a.address b.address le, back) (join-far limit b bs rest)

-- First fit finds no block, or one that it takes out of the list; giving it back restores the list.
pub first_fit-cases :
    (limit low n : ℕ) (bs : List Block)
    → 0 < n
    → IsOrdered limit low bs
    → (first_fit n bs ≡ none)
      ⊎ ((a : Block) × (cs : List Block) × (first_fit n bs ≡ some (a, cs))
          × IsGiven limit low n bs a cs
          × (release a cs ≡ bs))
unfolding first_fit release
first_fit-cases limit low n [] positive ordered = inl refl
first_fit-cases limit low n (b ∷ bs) positive ordered =
    let (from, some_size, fits, rest) = ordered in
    elim (Bool-cases (leb n b.size)) [
      | inl big ↦ elim (Bool-cases (n == b.size)) [
        | inl exact ↦ inr (
          b,
          bs,
          rw (big, exact) refl,
          exact-IsGiven limit low n positive b bs (ground arith) ordered,
          release-front limit b bs rest,
        )
        | inr tail ↦ inr (
          _,
          _,
          rw (big, tail) refl,
          tail-IsGiven limit low n positive b bs (ground arith) ordered,
          tail-release limit low n positive b bs (ground arith) ordered,
        )
      ]
      | inr small ↦ elim (first_fit-cases limit (suc (end b)) n bs positive rest) [
        | inl missing ↦ inl (rw (small, missing) refl)
        | inr (a, cs, e, given, back) ↦ inr (
          a,
          b ∷ cs,
          rw (small, e) refl,
          later-IsGiven limit low n positive b bs ordered given,
          later-release limit low n positive b bs a cs ordered (omega (arith, given.above)) back,
        )
      ]
    ]

-- What first fit gives, when it gives a block, and that giving the block back restores the list.
pub first_fit-IsGiven :
    (limit low n : ℕ) (bs : List Block) (a : Block) (cs : List Block)
    → 0 < n
    → IsOrdered limit low bs
    → first_fit n bs ≡ some (a, cs)
    → IsGiven limit low n bs a cs × (release a cs ≡ bs)
first_fit-IsGiven limit low n bs a cs positive ordered found =
    elim (first_fit-cases limit low n bs positive ordered) [
      | inl missing ↦ absurd (ground (arith, sym missing ∙ found))
      | inr (b, ds, e, given, back) ↦
          let same : some (a, cs) ≡ some (b, ds) = sym found ∙ e in
          let block : a ≡ b = ap (λ o. elim o [ none ↦ a | some (x, xs) ↦ x ]) same in
          let rest : cs ≡ ds = ap (λ o. elim o [ none ↦ cs | some (x, xs) ↦ xs ]) same in
          rw (block, rest) (given, back)
    ]
