-- ===== src/Heap/Join.antt =====
-- The second half of `_free` of util.c: a block is joined with its neighbours in the free list.
use rpi2_baremetal.Common.{
  ℕ, suc, ◌+◌, ◌*◌, ◌^◌, ◌≤◌, ◌<◌, ◌≡◌, ◌≢◌, inl, inr, refl, sym, ap, ◌∙◌, List, [], ◌∷◌, arith,
  ◌==◌, Bool-cases, ==_true, ==_false,
}
use native.Mathlib.Nat.{le_refl}
use rpi2_baremetal.Machine.{Machine, then-done, done, update, load, store}
use rpi2_baremetal.Heap.{heap_unit_size, join_next, join_prev, free_join}
use rpi2_baremetal.Heap.Blocks.{Block, end, IsOrdered, join}
use rpi2_baremetal.Heap.Blocks.Joined.{join-first, join-IsOrdered}
use rpi2_baremetal.Heap.Ring.{first_of, IsLinked, IsLinked-frame, update-same, update-other}
use rpi2_baremetal.Heap.Taken.{u32-small, update-apart}

-- The block `p` and what follows it.
module _ (p prevp size next : ℕ) (m : Machine) (e_size : m.mem (p + 4) ≡ size)
    (e_next : m.mem prevp ≡ next) (fits : p + size * heap_unit_size < 2 ^ 32) where
  join_next-apart :
      p + size * heap_unit_size ≢ next
      → join_next p prevp m ≡ done tt (record m { mem = update m.mem p next })
  unfolding join_next load store
  join_next-apart ne =
      rw (e_size, e_next, u32-small (p + size * 8) fits, ==_false (p + size * 8) next ne) refl

  join_next-touch :
      (next_size after : ℕ)
      → p + size * heap_unit_size ≡ next
      → m.mem (next + 4) ≡ next_size
      → m.mem next ≡ after
      → size + next_size < 2 ^ 32
      → p + 4 ≢ prevp
      → p + 4 ≢ next
      → join_next p prevp m
        ≡ done tt (record m { mem = update (update m.mem (p + 4) (size + next_size)) p after })
  unfolding join_next load store
  join_next-touch next_size after touch e_next_size e_after small ne ne' =
      rw
        (
          e_size,
          e_next,
          u32-small (p + size * 8) fits,
          ==_true (p + size * 8) next touch,
          e_next_size,
          u32-small (size + next_size) small,
          ==_false (p + 4) prevp ne,
          e_next,
          ==_false (p + 4) next ne',
          e_after,
        )
        refl

module _ (p prevp prev_size : ℕ) (m : Machine) (e_size : m.mem (prevp + 4) ≡ prev_size)
    (fits : prevp + prev_size * heap_unit_size < 2 ^ 32) where
  join_prev-apart :
      prevp + prev_size * heap_unit_size ≢ p
      → join_prev p prevp m ≡ done tt (record m { mem = update m.mem prevp p })
  unfolding join_prev load store
  join_prev-apart ne =
      rw (e_size, u32-small (prevp + prev_size * 8) fits, ==_false (prevp + prev_size * 8) p ne)
        refl

  join_prev-touch :
      (size after : ℕ)
      → prevp + prev_size * heap_unit_size ≡ p
      → m.mem (p + 4) ≡ size
      → m.mem p ≡ after
      → prev_size + size < 2 ^ 32
      → prevp + 4 ≢ p
      → join_prev p prevp m
        ≡ done tt
            (record m { mem = update (update m.mem (prevp + 4) (prev_size + size)) prevp after })
  unfolding join_prev load store
  join_prev-touch size after touch e e_after small ne =
      rw
        (
          e_size,
          u32-small (prevp + prev_size * 8) fits,
          ==_true (prevp + prev_size * 8) p touch,
          e,
          u32-small (prev_size + size) small,
          ==_false (prevp + 4) p ne,
          e_after,
        )
        refl

-- What a step does that writes the header at `p` only.
pub record Changed (mem mem' : ℕ → ℕ) (stop p : ℕ) (bs : List Block) : Type 0 where
  pub linked : IsLinked mem' stop bs
  pub same : (x : ℕ) → x ≢ p → x ≢ p + 4 → mem' x ≡ mem x

-- A header is written before a list.
module _ (mem : ℕ → ℕ) (stop limit low : ℕ) (b : Block) (cs : List Block)
    (room : b.address + heap_unit_size ≤ low) (ordered : IsOrdered limit low cs)
    (linked : IsLinked mem stop cs) where
  header-ptr :
      mem (b.address + 4) ≡ b.size
      → Changed mem (update mem b.address (first_of stop cs)) stop b.address (b ∷ cs)
  header-ptr size = record {
    linked = (
      update-other mem b.address (first_of stop cs) (b.address + 4) (omega arith) ∙ size,
      update-same mem b.address (first_of stop cs),
      IsLinked-frame mem _ stop limit low cs ordered
          (λ x le. update-other mem b.address (first_of stop cs) x (omega arith)) linked,
    );
    same = λ x ne ne'. update-other mem b.address (first_of stop cs) x (λ e. ne (sym e));
  }

  header-both :
      Changed mem
        (update (update mem (b.address + 4) b.size) b.address (first_of stop cs))
        stop
        b.address
        (b ∷ cs)
  header-both = record {
    linked = (
      update-other (update mem (b.address + 4) b.size) b.address (first_of stop cs) (b.address + 4)
            (omega arith)
          ∙ update-same mem (b.address + 4) b.size,
      update-same (update mem (b.address + 4) b.size) b.address (first_of stop cs),
      IsLinked-frame mem _ stop limit low cs ordered
          (λ x le.
            update-apart mem (b.address + 4) b.size b.address (first_of stop cs) x (omega arith)
              (omega arith))
          linked,
    );
    same = λ x ne ne'.
        update-apart mem (b.address + 4) b.size b.address (first_of stop cs) x (λ e. ne' (sym e))
          (λ e. ne (sym e));
  }

module _ (base limit : ℕ) (in_range : limit < 2 ^ 32) where
  join_next-joins :
      (b : Block) (cs : List Block) (prevp : ℕ) (m : Machine)
      → base < b.address
      → prevp + heap_unit_size ≤ b.address
      → 0 < b.size
      → end b ≤ limit
      → IsOrdered limit (end b) cs
      → m.mem (b.address + 4) ≡ b.size
      → m.mem prevp ≡ first_of base cs
      → IsLinked m.mem base cs
      → (mem' : ℕ → ℕ) × (join_next b.address prevp m ≡ done tt (record m { mem = mem' }))
        × Changed m.mem mem' base b.address (join b cs)
  unfolding join
  join_next-joins b [] prevp m above room some_size fits ordered size ptr linked = (
    update m.mem b.address base,
    join_next-apart b.address prevp b.size base m size ptr (omega arith) (omega arith),
    header-ptr m.mem base limit (end b) b [] (omega arith) tt tt size,
  )
  join_next-joins b (c ∷ cs) prevp m above room some_size fits ordered size ptr linked =
      let (next, some_next, fits_next, rest) = ordered in
      let (c_size, c_ptr, links) = linked in
      elim (Bool-cases (end b == c.address)) [
        | inl touch ↦ rw touch (
          update (update m.mem (b.address + 4) (b.size + c.size)) b.address (first_of base cs),
          join_next-touch b.address prevp b.size c.address m size ptr (omega arith) c.size
              (first_of base cs) (ground arith) c_size c_ptr (omega arith) (omega arith)
              (omega arith),
          header-both m.mem base limit (suc (end c))
              (record { address = b.address; size = b.size + c.size }) cs (omega arith) rest links,
        )
        | inr gap ↦ rw gap (
          update m.mem b.address c.address,
          join_next-apart b.address prevp b.size c.address m size ptr (omega arith) (ground arith),
          header-ptr m.mem base limit (end b) b (c ∷ cs) (omega arith) ordered linked size,
        )
      ]

  join_prev-joins :
      (c e : Block) (es : List Block) (m : Machine)
      → c.address + heap_unit_size ≤ e.address
      → end c ≤ e.address
      → IsOrdered limit (end c) (e ∷ es)
      → m.mem (c.address + 4) ≡ c.size
      → IsLinked m.mem base (e ∷ es)
      → (mem' : ℕ → ℕ) × (join_prev e.address c.address m ≡ done tt (record m { mem = mem' }))
        × Changed m.mem mem' base c.address (join c (e ∷ es))
  unfolding join
  join_prev-joins c e es m room before ordered size linked =
      let (next, some_size, fits, rest) = ordered in
      let (e_size, e_ptr, links) = linked in
      elim (Bool-cases (end c == e.address)) [
        | inl touch ↦ rw touch (
          update (update m.mem (c.address + 4) (c.size + e.size)) c.address (first_of base es),
          join_prev-touch e.address c.address c.size m size (omega arith) e.size (first_of base es)
              (ground arith) e_size e_ptr (omega arith) (omega arith),
          header-both m.mem base limit (suc (end e))
              (record { address = c.address; size = c.size + e.size }) es (omega arith) rest links,
        )
        | inr gap ↦ rw gap (
          update m.mem c.address e.address,
          join_prev-apart e.address c.address c.size m size (omega arith) (ground arith),
          header-ptr m.mem base limit e.address c (e ∷ es) room
              (le_refl e.address, some_size, fits, rest) linked size,
        )
      ]

  pub free_join-joins :
      (c b : Block) (cs : List Block) (m : Machine)
      → base < b.address
      → c.address + heap_unit_size ≤ b.address
      → end c ≤ b.address
      → 0 < b.size
      → end b ≤ limit
      → IsOrdered limit (end b) cs
      → m.mem (b.address + 4) ≡ b.size
      → IsLinked m.mem base (c ∷ cs)
      → (mem' : ℕ → ℕ) × (free_join b.address c.address m ≡ done tt (record m { mem = mem' }))
        × IsLinked mem' base (join c (join b cs))
        × ((x : ℕ)
            → x ≢ c.address
            → x ≢ c.address + 4
            → x ≢ b.address
            → x ≢ b.address + 4
            → mem' x ≡ m.mem x)
  unfolding free_join
  free_join-joins c b cs m above room before some_size fits ordered size (c_size, c_ptr, links) =
      let (mem', first, changed) =
        join_next-joins b cs c.address m above room some_size fits ordered size c_ptr links in
      let (e, es, joined, same) = join-first b cs in
      let sorted : IsOrdered limit (end c) (join b cs) =
        join-IsOrdered limit (end c) b cs before some_size fits ordered in
      let (mem'', second, rejoined) =
        join_prev-joins c e es (record m { mem = mem' }) (omega arith) (omega arith)
          (rw joined at sorted) (changed.same (c.address + 4) (omega arith) (omega arith) ∙ c_size)
          (rw joined at changed.linked) in
      (
        mem'',
        then-done (join_next b.address c.address) (join_prev b.address c.address) m first
            ∙ ap (λ (p : ℕ). join_prev p c.address (record m { mem = mem' })) (sym same)
            ∙ second,
        rw joined rejoined.linked,
        λ x p q r s. rejoined.same x p q ∙ changed.same x r s,
      )
