-- ===== src/Cores/Progress.antt =====
-- From every state that cores get to, the lock can be freed, and every core can go through.
use mathlib.Core.Path.{subst}
use rpi2_baremetal.Common.{
  ℕ, ◌≡◌, ◌≢◌, refl, sym, ap, ◌∙◌, inl, inr, Bool, true, arith, ==_true, Bool-cases,
}
use rpi2_baremetal.Cores.{
  Shared, Pc, outside, req_ldrex, req_cmp, req_strexeq, req_cmpeq, req_bne, has_lock, section,
  has_count, rel_ldrex, rel_cmp, rel_strexeq, rel_cmpeq, rel_bne, released, Move, req_result,
  req_return, req_message, load_count, store_count, rel_test, rel_clear, rel_fail, rel_result,
  rel_again, rel_return, Cores, move, set_pc, Runs, Reach, start, later,
}
use rpi2_baremetal.Cores.Invariant.{owns, IsFresh, Reach-Inv}
use rpi2_baremetal.Cores.Alone.{Alone, Alone-answers, here, next, rel-run, call-run}

-- Core `i` gets on its own from `p` to the return of `_spin_rel`, and the word is 0 then.
abbrev Frees : ℕ → Shared → Pc → Type 0
Frees i m p = (m' : Shared) × (k : ℕ) × Alone i m p m' released k × (m'.lock ≡ 0)

module _ (i : ℕ) {m : Shared} {p : Pc} where
  from_ldrex : {m' : Shared} {k : ℕ} → Alone i m p m' rel_ldrex k → m'.lock ≡ 1 → Frees i m p
  from_ldrex run taken = (_, _, rel-run i taken run, refl)

  from_section : {m' : Shared} {k : ℕ} → Alone i m p m' section k → m'.lock ≡ 1 → Frees i m p
  from_section run taken = from_ldrex (next (next run load_count) store_count) taken

  from_bne :
      {m' : Shared} {k : ℕ}
      → Alone i m p m' (req_bne true) k
      → m'.lock ≡ 1
      → m'.answers i ≡ true
      → Frees i m p
  from_bne run taken answer = from_section (next (next run req_return) (req_message answer)) taken

  from_strexeq :
      {m' : Shared} {k : ℕ} (r2 : ℕ)
      → Alone i m p m' (rel_strexeq r2 true) k
      → m'.lock ≡ 1
      → Frees i m p
  from_strexeq {m'} r2 run taken = elim (Bool-cases (m'.marked i)) [
    | inl marked ↦ (_, _, next (next (next run (rel_clear marked)) rel_result) rel_return, refl)
    | inr lost ↦ from_ldrex (next (next (next run (rel_fail lost)) rel_result) rel_again) taken
  ]

-- Wherever a core with the lock stands.
owner-Frees :
    (i : ℕ) (m : Shared) (p : Pc)
    → owns p ≡ true
    → IsFresh m i p
    → m.lock ≡ 1
    → m.answers i ≡ true
    → Frees i m p
owner-Frees i m has_lock own fresh taken answer =
    from_section i (next here (req_message answer)) taken
owner-Frees i m section own fresh taken answer = from_section i here taken
owner-Frees i m (has_count _) own fresh taken answer = from_ldrex i (next here store_count) taken
owner-Frees i m rel_ldrex own fresh taken answer = from_ldrex i here taken
owner-Frees i m (rel_cmp r2) own fresh taken answer =
    from_strexeq i r2
      (subst (λ b. Alone i m (rel_cmp r2) m (rel_strexeq r2 b) 0) (==_true r2 1 fresh)
        (next here rel_test))
      taken
owner-Frees i m (rel_strexeq r2 z) own (loaded, test) taken answer =
    from_strexeq i r2 (subst (λ b. Alone i m (rel_strexeq r2 z) m (rel_strexeq r2 b) 0) test here)
      taken
owner-Frees i m (req_cmpeq r2 z) own fresh taken answer =
    from_bne i (subst (λ b. Alone i m (req_cmpeq r2 z) m (req_bne b) 0) own (next here req_result))
      taken answer
owner-Frees i m (req_bne z) own fresh taken answer =
    from_bne i (subst (λ b. Alone i m (req_bne z) m (req_bne b) 0) own here) taken answer
owner-Frees i m (rel_cmpeq r2 z) own fresh taken answer =
    from_ldrex i
      (next
        (subst (λ b. Alone i m (rel_cmpeq r2 z) m (rel_bne b) 0) (ground arith)
          (next here rel_result))
        rel_again)
      taken
owner-Frees i m (rel_bne z) own fresh taken answer =
    from_ldrex i
      (next (subst (λ b. Alone i m (rel_bne z) m (rel_bne b) 0) (ground arith) here) rel_again)
      taken
owner-Frees i m outside own fresh taken answer = absurd (cc)
owner-Frees i m req_ldrex own fresh taken answer = absurd (cc)
owner-Frees i m (req_cmp _) own fresh taken answer = absurd (cc)
owner-Frees i m (req_strexeq _ _) own fresh taken answer = absurd (cc)
owner-Frees i m released own fresh taken answer = absurd (cc)

-- What a core does on its own is a run of the cores.
Alone-Runs :
    {i : ℕ} {s : Cores} {m : Shared} {p : Pc} {k : ℕ}
    → Alone i s.mem (s.pc i) m p k
    → (pc : ℕ → Pc) × Runs s (record { mem = m; pc = pc }) k
      × (pc i ≡ p)
      × ((j : ℕ) → i ≢ j → pc j ≡ s.pc j)
Alone-Runs {s = s} here = (s.pc, start, refl, λ j ne. refl)
Alone-Runs {i} {s = s} (next {m'} {m''} {p'' = q} {k = k'} run mv) =
    let (pc, runs, at, others) = Alone-Runs {s = s} run in
    (
      set_pc pc i q,
      later runs (move i (subst (λ p. Move i m' p m'' q k') (sym at) mv)),
      ground arith,
      λ j ne. ground (arith, others j ne),
    )

-- However many cores run `inc_waking_cores`, in whatever state they get to in which the core that has
-- the lock, if one has it, is one whose messages return: for a core outside, with messages that
-- return, there is a way for the others to go on after which the lock is free, and the core goes all
-- the way through on its own, storing the counter once.
pub Reach-no_deadlock :
    (answers : ℕ → Bool) (count : ℕ) {n : ℕ} {s : Cores}
    → Reach answers count s n
    → ((j : ℕ) → owns (s.pc j) ≡ true → s.mem.answers j ≡ true)
    → (i : ℕ) → s.pc i ≡ outside
    → s.mem.answers i ≡ true
    → (t : Cores) × (k : ℕ) × Runs s t k
      × (t.pc i ≡ outside)
      × (t.mem.lock ≡ 0)
      × (m : Shared) × Alone i t.mem outside m outside 1
Reach-no_deadlock answers count {s = s} reach owner i out answer =
    let inv = Reach-Inv answers count reach in
    elim inv.word [
      | inl free ↦ (s, 0, start, out, free, _, call-run i s.mem free answer)
      | inr (taken, j, own) ↦
          let (m', k, run, free) =
            owner-Frees j s.mem (s.pc j) own (inv.fresh j) taken (owner j own) in
          let (pc, runs, at, others) = Alone-Runs {s = s} run in
          (
            record { mem = m'; pc = pc },
            k,
            runs,
            others i (other own) ∙ out,
            free,
            _,
            call-run i m' free (ap (λ (f : ℕ → Bool). f i) (Alone-answers run) ∙ answer),
          )
    ]
  where
    other : {j : ℕ} → owns (s.pc j) ≡ true → j ≢ i
    other {j} own e = cc (ap (λ (k : ℕ). owns (s.pc k)) e, ap owns out)
