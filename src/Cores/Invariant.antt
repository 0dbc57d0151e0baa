-- ===== src/Cores/Invariant.antt =====
-- Who holds the lock of `inc_waking_cores`, in every state that cores get to.
use rpi2_baremetal.Common.{
  ℕ, ◌+◌, ◌%◌, ◌^◌, ◌≡◌, refl, ◌⊎◌, inl, inr, Bool, true, false, ◌&&◌, not, ◌==◌, arith,
}
use rpi2_baremetal.Cores.{
  Shared, Pc, outside, req_cmp, req_strexeq, req_cmpeq, req_bne, has_lock, section, has_count,
  rel_ldrex, rel_cmp, rel_strexeq, rel_cmpeq, rel_bne, Move, call, req_take, req_fail, rel_clear,
  rel_fail, req_message, rel_message, Cores, Step, move, lose, set_pc, unmark, at_rest, Reach,
  start, later,
}

-- From the `strex` that takes the lock to the one that frees it.
abbrev pub owns : Pc → Bool
owns (req_cmpeq r2 z) = z && r2 == 0
owns (req_bne z) = z
owns has_lock = true
owns section = true
owns (has_count _) = true
owns rel_ldrex = true
owns (rel_cmp _) = true
owns (rel_strexeq _ _) = true
owns (rel_cmpeq r2 z) = not (z && r2 == 0)
owns (rel_bne z) = not z
owns _ = false

-- What the registers of core `i` say about memory.
abbrev pub IsFresh : Shared → ℕ → Pc → Type 0
IsFresh m i (req_cmp r2) = m.marked i ≡ true → m.lock ≡ r2
IsFresh m i (req_strexeq r2 z) = (z ≡ (r2 == 0)) × (m.marked i ≡ true → m.lock ≡ r2)
IsFresh m i (has_count count) = m.waking_cores ≡ count
IsFresh m i (rel_cmp r2) = r2 ≡ 1
IsFresh m i (rel_strexeq r2 z) = (r2 ≡ 1) × (z ≡ true)
IsFresh m i _ = Unit {0}

pub record Inv (count n : ℕ) (m : Shared) (pc : ℕ → Pc) : Type 0 where
  pub word : (m.lock ≡ 0) ⊎ ((m.lock ≡ 1) × (i : ℕ) × (owns (pc i) ≡ true))
  pub held : (i : ℕ) → owns (pc i) ≡ true → m.lock ≡ 1
  pub unique : (i j : ℕ) → owns (pc i) ≡ true → owns (pc j) ≡ true → i ≡ j
  pub fresh : (i : ℕ) → IsFresh m i (pc i)
  pub counted : m.waking_cores ≡ (count + n) % 2 ^ 32

-- The premise of a move.
abbrev pub Guard : {i : ℕ} {m m' : Shared} {p p' : Pc} {k : ℕ} → Move i m p m' p' k → Type 0
Guard {i} {m} (req_take _) = m.marked i ≡ true
Guard {i} {m} (req_fail _) = m.marked i ≡ false
Guard {i} {m} (rel_clear _) = m.marked i ≡ true
Guard {i} {m} (rel_fail _) = m.marked i ≡ false
Guard {i} {m} (req_message _) = m.answers i ≡ true
Guard {i} {m} (rel_message _) = m.answers i ≡ true
Guard _ = Unit {0}

pub guard : {i : ℕ} {m m' : Shared} {p p' : Pc} {k : ℕ} (mv : Move i m p m' p' k) → Guard mv
guard (req_take g) = g
guard (req_fail g) = g
guard (rel_clear g) = g
guard (rel_fail g) = g
guard (req_message g) = g
guard (rel_message g) = g
guard _ = tt

module _ {count n : ℕ} {m : Shared} {pc : ℕ → Pc} (inv : Inv count n m pc) (i : ℕ) where
  open inv use {word, held, unique, fresh, counted}

  Move-held :
      {p p' : Pc} {m' : Shared} {k : ℕ}
      → Move i m p m' p' k
      → pc i ≡ p
      → (j : ℕ) → owns (set_pc pc i p' j) ≡ true
      → m'.lock ≡ 1
  Move-held call e j o = ground (arith, held j)
  Move-held mv e j o = ground (arith, guard mv, fresh i, held i, held j, unique i j)

  Move-unique :
      {p p' : Pc} {m' : Shared} {k : ℕ}
      → Move i m p m' p' k
      → pc i ≡ p
      → (a b : ℕ) → owns (set_pc pc i p' a) ≡ true
      → owns (set_pc pc i p' b) ≡ true
      → a ≡ b
  Move-unique call e a b oa ob = ground (arith, unique a b)
  Move-unique mv e a b oa ob =
      ground (arith, guard mv, fresh i, held a, held b, held i, unique a b, unique i a, unique i b)

  Move-IsFresh :
      {p p' : Pc} {m' : Shared} {k : ℕ}
      → Move i m p m' p' k
      → pc i ≡ p
      → (j : ℕ) → IsFresh m' j (set_pc pc i p' j)
  Move-IsFresh call e j = ground (arith, fresh j)
  Move-IsFresh mv e j = ground (arith, guard mv, fresh j, fresh i, held i, held j, unique i j)

  Move-counted :
      {p p' : Pc} {m' : Shared} {k : ℕ}
      → Move i m p m' p' k
      → pc i ≡ p
      → m'.waking_cores ≡ (count + (n + k)) % 2 ^ 32
  Move-counted call e = omega arith
  Move-counted mv e = ground (arith, guard mv, fresh i)

  -- Whoever has the lock keeps it over a move that does not write the word.
  Move-owner :
      {p p' : Pc} {m' : Shared} {k : ℕ}
      → Move i m p m' p' k
      → pc i ≡ p
      → m'.lock ≡ m.lock
      → (j : ℕ) → owns (pc j) ≡ true
      → owns (set_pc pc i p' j) ≡ true
  Move-owner call e same j o = ground arith
  Move-owner mv e same j o = ground (arith, guard mv, fresh i, held j, held i)

  Move-word :
      {p p' : Pc} {m' : Shared} {k : ℕ}
      → Move i m p m' p' k
      → pc i ≡ p
      → (m'.lock ≡ 0) ⊎ ((m'.lock ≡ 1) × (j : ℕ) × (owns (set_pc pc i p' j) ≡ true))
  Move-word (req_take g) e = inr (refl, i, ground arith)
  Move-word (rel_clear g) e = inl refl
  Move-word call e = elim word [
    | inl free ↦ inl free
    | inr (taken, j, o) ↦ inr (taken, j, Move-owner call e refl j o)
  ]
  Move-word mv e = elim word [
    | inl free ↦ inl (ground arith)
    | inr (taken, j, o) ↦ inr (ground arith, j, Move-owner mv e (ground arith) j o)
  ]

  Move-Inv :
      {p' : Pc} {m' : Shared} {k : ℕ}
      → Move i m (pc i) m' p' k
      → Inv count (n + k) m' (set_pc pc i p')
  Move-Inv mv = record {
    word = Move-word mv refl;
    held = Move-held mv refl;
    unique = Move-unique mv refl;
    fresh = Move-IsFresh mv refl;
    counted = Move-counted mv refl;
  }

  unmark-IsFresh : (j : ℕ) (p : Pc) → IsFresh m j p → IsFresh (unmark i m) j p
  unmark-IsFresh j outside f = f
  unmark-IsFresh j p f = ground arith

  lose-Inv : Inv count (n + 0) (unmark i m) pc
  lose-Inv = record {
    word = word;
    held = held;
    unique = unique;
    fresh = λ j. unmark-IsFresh j (pc j) (fresh j);
    counted = omega arith;
  }

pub Step-Inv :
    {count n k : ℕ} {s t : Cores}
    → Step s t k
    → Inv count n s.mem s.pc
    → Inv count (n + k) t.mem t.pc
Step-Inv (move i mv) inv = Move-Inv inv i mv
Step-Inv (lose i) inv = lose-Inv inv i

start-Inv :
    (answers : ℕ → Bool) (count : ℕ)
    → Inv count 0 (at_rest answers count).mem (at_rest answers count).pc
start-Inv answers count = record {
  word = inl refl;
  held = λ i o. cc;
  unique = λ i j o o'. cc;
  fresh = λ i. tt;
  counted = omega arith;
}

pub Reach-Inv :
    (answers : ℕ → Bool) (count : ℕ) {n : ℕ} {s : Cores}
    → Reach answers count s n
    → Inv count n s.mem s.pc
Reach-Inv answers count start = start-Inv answers count
Reach-Inv answers count (later reach step) = Step-Inv step (Reach-Inv answers count reach)
