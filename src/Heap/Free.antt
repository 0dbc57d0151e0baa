-- ===== src/Heap/Free.antt =====
-- `_free` of util.c on a free list in memory.
use rpi2_baremetal.Common.{
  ℕ, zero, suc, ◌+◌, ◌^◌, ◌≤◌, ◌<◌, ◌≡◌, ◌≢◌, ◌⊎◌, inl, inr, refl, sym, ap, ◌∙◌, List, [], ◌∷◌,
  arith, sub32, leb, ltb, ltb-true, ltb-false, true, false, Bool-cases, ==_false, length,
}
use rpi2_baremetal.Machine.{Machine, Outcome, bind-done, bind-start, done, load, ◌>>=◌}
use rpi2_baremetal.Heap.{heap_unit_size, free_find, free_join, free_to}
use rpi2_baremetal.Heap.Blocks.{Block, end, IsOrdered, join, IsOrdered-lower, join-far, release}
use rpi2_baremetal.Heap.Blocks.Joined.{
  join-first, release-IsOrdered, CanJoin, IsApart-before, IsApart-after,
}
use rpi2_baremetal.Heap.Ring.{IsLinked, sentinel, IsHeap, AllOutside, AllOutside-before, outside_ne}
use rpi2_baremetal.Heap.Join.{free_join-joins}

-- A round of the search: the block goes behind `prevp`, or the search goes on.
module _ (fuel p prevp next : ℕ) (m : Machine) (e : m.mem prevp ≡ next) where
  free_find-between : prevp < p → p < next → free_find (suc fuel) p prevp m ≡ done prevp m
  unfolding free_find load
  free_find-between above below = rw (e, ltb-true prevp p above, ltb-true p next below) refl

  free_find-last : next ≤ prevp → prevp < p → free_find (suc fuel) p prevp m ≡ done prevp m
  unfolding free_find load
  free_find-last wraps above =
      rw (e, ltb-true prevp p above, ltb-false p next (omega arith), le) refl
    where
      le : leb next prevp ≡ true
      le = ground arith

  free_find-further :
      prevp < next → next ≤ p → free_find (suc fuel) p prevp m ≡ free_find fuel p next m
  unfolding free_find load
  free_find-further above below =
      rw (e, ltb-true prevp p (omega arith), ltb-false p next below, gt) refl
    where
      gt : leb next prevp ≡ false
      gt = ground arith

-- What `_free` of the block `b` behind the header `c`, before the blocks `cs`, leaves.
pub record IsFreed (mem mem' : ℕ → ℕ) (base : ℕ) (c b : Block) (cs : List Block) : Type 0 where
  pub linked : IsLinked mem' base (join c (release b cs))
  pub same :
      (x : ℕ)
      → x ≢ c.address
      → x ≢ c.address + 4
      → (x < b.address) ⊎ (end b ≤ x)
      → AllOutside x cs
      → mem' x ≡ mem x

release-behind :
    (c b d : Block) (ds : List Block)
    → ltb b.address d.address ≡ false
    → end c < d.address
    → join c (release b (d ∷ ds)) ≡ c ∷ join d (release b ds)
unfolding release
release-behind c b d ds ge gap =
    let (f, fs, joined, same) = join-first d (release b ds) in
    rw (ge, joined) (unfold join in rw (==_false (end c) f.address (omega arith)) refl)

module _ (base limit : ℕ) (in_range : limit < 2 ^ 32) where
  here-IsFreed :
      (c b : Block) (cs : List Block) (fuel : ℕ) (m : Machine)
      → free_find fuel b.address c.address m ≡ done c.address m
      → release b cs ≡ join b cs
      → base < b.address
      → c.address + heap_unit_size ≤ b.address
      → end c ≤ b.address
      → 0 < b.size
      → end b ≤ limit
      → IsOrdered limit (end b) cs
      → m.mem (b.address + 4) ≡ b.size
      → IsLinked m.mem base (c ∷ cs)
      → (mem' : ℕ → ℕ) × ((free_find fuel b.address c.address >>= free_join b.address) m
          ≡ done tt (record m { mem = mem' }))
        × IsFreed m.mem mem' base c b cs
  here-IsFreed c b cs fuel m found joined above room before some_size fits ordered size linked =
      let (mem', e, links, same) =
        free_join-joins base limit in_range c b cs m above room before some_size fits ordered size
          linked in
      (
        mem',
        bind-done (free_find fuel b.address c.address) (free_join b.address) m found ∙ e,
        record {
          linked = rw joined links;
          same = λ x p q here others.
              same x p q (λ e. outside_ne b x b.address here (omega arith) (omega arith) (sym e))
                (λ e. outside_ne b x (b.address + 4) here (omega arith) (omega arith) (sym e));
        },
      )

  further-IsFreed :
      {low : ℕ} {r r' : Outcome (Unit {0})} (c b d : Block) (ds : List Block) (m : Machine)
      → c.address + heap_unit_size ≤ low
      → end c < low
      → c.address + heap_unit_size ≤ b.address
      → low ≤ d.address
      → ltb b.address d.address ≡ false
      → IsOrdered limit low (d ∷ ds)
      → CanJoin limit (end c) b (d ∷ ds)
      → IsLinked m.mem base (c ∷ d ∷ ds)
      → r ≡ r'
      → (mem' : ℕ → ℕ) × (r' ≡ done tt (record m { mem = mem' })) × IsFreed m.mem mem' base d b ds
      → (mem' : ℕ → ℕ) × (r ≡ done tt (record m { mem = mem' }))
        × IsFreed m.mem mem' base c b (d ∷ ds)
  further-IsFreed c b d ds m room before behind next ge ordered can linked start (mem', e, freed) =
      let (_, some_next, fits, rest) = ordered in
      let (c_size, c_ptr, _) = linked in
      let (f, fs, joined, same) = join-first d (release b ds) in
      let outside : (x : ℕ) → x < d.address → AllOutside x ds =
        λ x lt. AllOutside-before limit (suc (end d)) x ds (omega arith) rest in
      (
        mem',
        start ∙ e,
        record {
          linked = rw (release-behind c b d ds ge (omega arith)) (
            freed.same (c.address + 4) (omega arith) (omega arith) (inl (omega arith))
                  (outside (c.address + 4) (omega arith))
                ∙ c_size,
            freed.same c.address (omega arith) (omega arith) (inl (omega arith))
                  (outside c.address (omega arith))
                ∙ c_ptr
                ∙ rw joined (sym same),
            freed.linked,
          );
          same = λ x p q here (there, others).
              freed.same x (λ e. outside_ne d x d.address there (omega arith) (omega arith) (sym e))
                (λ e. outside_ne d x (d.address + 4) there (omega arith) (omega arith) (sym e)) here
                others;
        },
      )

  pub free_find-IsFreed :
      (cs : List Block) (fuel low : ℕ) (c b : Block) (m : Machine)
      → length cs < fuel
      → base < low
      → base ≤ c.address
      → c.address + heap_unit_size ≤ low
      → end c < low
      → c.address + heap_unit_size ≤ b.address
      → IsOrdered limit low cs
      → CanJoin limit (end c) b cs
      → m.mem (b.address + 4) ≡ b.size
      → IsLinked m.mem base (c ∷ cs)
      → (mem' : ℕ → ℕ) × ((free_find fuel b.address c.address >>= free_join b.address) m
          ≡ done tt (record m { mem = mem' }))
        × IsFreed m.mem mem' base c b cs
  free_find-IsFreed cs zero low c b m enough above from room before behind ordered can size linked =
      absurd (omega arith)
  free_find-IsFreed [] (suc fuel) low c b m enough above from room before behind ordered can size
        linked =
      let (c_size, c_ptr, links) = linked in
      here-IsFreed c b [] (suc fuel) m
        (free_find-last fuel b.address c.address base m c_ptr from (omega arith))
        (unfold release join in refl) (omega arith) behind can.above can.some_size can.below tt size
        linked
  free_find-IsFreed (d ∷ ds) (suc fuel) low c b m enough above from room before behind ordered can
        size linked =
      let (next, some_next, fits, rest) = ordered in
      let (c_size, c_ptr, links) = linked in
      let (apart, others) = can.apart in
      elim (Bool-cases (ltb b.address d.address)) [
        | inl lt ↦
            here-IsFreed c b (d ∷ ds) (suc fuel) m
              (free_find-between fuel b.address c.address d.address m c_ptr (omega arith)
                (ground arith))
              (unfold release in rw lt refl) (omega arith) behind can.above can.some_size can.below
              (IsApart-before b d apart (ground arith) some_next, some_next, fits, rest) size linked
        | inr ge ↦
            further-IsFreed c b d ds m room before behind next ge ordered can linked
              (bind-start (free_find (suc fuel) b.address c.address)
                (free_find fuel b.address d.address) (free_join b.address) m
                (free_find-further fuel b.address c.address d.address m c_ptr (omega arith)
                  (ground arith)))
              (free_find-IsFreed ds fuel (suc (end d)) d b m (omega arith) (omega arith)
                (omega arith) (omega arith) (omega arith)
                (omega (arith, IsApart-after b d apart (ground arith) can.some_size)) rest
                (record {
                  above = IsApart-after b d apart (ground arith) can.some_size;
                  some_size = can.some_size;
                  below = can.below;
                  apart = others;
                })
                size links)
      ]

-- The free list is the blocks `bs`, and the fuel is for one block more. `b` is a block behind the
-- head, below the limit and apart from the free ones, with its size in its header: `_free` of it
-- returns, and the free list is then `bs` with `b` in its place, joined with the neighbours that it
-- touches, in order. Outside the free blocks and `b` it changes no word but the list's head.
pub free_to-IsHeap :
    (base limit fuel : ℕ) (b : Block) (bs : List Block) (m : Machine)
    → IsHeap m.mem base limit bs
    → length bs < fuel
    → CanJoin limit (base + heap_unit_size) b bs
    → m.mem (b.address + 4) ≡ b.size
    → (mem' : ℕ → ℕ) × (free_to fuel base (b.address + heap_unit_size) m
        ≡ done tt (record m { mem = mem' }))
      × IsHeap mem' base limit (release b bs)
      × IsFreed m.mem mem' base (sentinel base) b bs
unfolding free_to
free_to-IsHeap base limit fuel b bs m heap enough can size =
    let (mem', e, freed) =
      free_find-IsFreed base limit heap.in_range bs fuel (base + heap_unit_size) (sentinel base) b m
        enough (omega arith) (omega arith) (omega arith) (omega arith) can.above heap.ordered
        (record {
          above = omega (arith, can.above);
          some_size = can.some_size;
          below = can.below;
          apart = can.apart;
        })
        size heap.linked in
    let sorted = release-IsOrdered limit (base + heap_unit_size) b bs heap.ordered can in
    (
      mem',
      ap (λ (p : ℕ). (free_find fuel p base >>= free_join p) m) header ∙ e,
      record {
        not_null = heap.not_null;
        in_range = heap.in_range;
        linked =
            rw
              (join-far limit (sentinel base) (release b bs) (
                IsOrdered-lower limit (base + heap_unit_size) (suc (base + 0)) (release b bs)
                  (omega arith) sorted))
              at freed.linked;
        ordered = sorted;
      },
      freed,
    )
  where
    header : sub32 (b.address + heap_unit_size) heap_unit_size ≡ b.address
    header = omega (arith, can.below, heap.in_range)
