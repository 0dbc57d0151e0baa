-- ===== src/Cores/Alone.antt =====
-- A core whose steps no other core's come between.
use rpi2_baremetal.Common.{ℕ, ◌+◌, ◌%◌, ◌^◌, ◌≡◌, refl, ◌∙◌, ◌≢◌, true, false, arith, ==_true}
use mathlib.Core.Path.{subst}
use rpi2_baremetal.Cores.{
  Shared, Pc, outside, req_ldrex, req_cmp, req_strexeq, req_cmpeq, req_bne, has_lock, rel_ldrex,
  rel_cmp, rel_strexeq, rel_cmpeq, rel_bne, released, Move, call, req_load, req_test, req_take,
  req_result, req_return, req_message, load_count, store_count, rel_load, rel_test, rel_clear,
  rel_result, rel_return, rel_message, put_lock, mark,
}

pub data Alone (i : ℕ) (m : Shared) (p : Pc) : Shared → Pc → ℕ → Type 0 where
  here : Alone i m p m p 0
  next :
      {m' m'' : Shared} {p' p'' : Pc} {n k : ℕ}
      → Alone i m p m' p' n
      → Move i m' p' m'' p'' k
      → Alone i m p m'' p'' (n + k)

-- `_spin_req` finds the word 0 and takes it; `_spin_rel` finds it 1 and clears it.
module _ (i : ℕ) {m m' : Shared} {p : Pc} where
  pub req-run : m'.lock ≡ 0 → Alone i m p m' req_ldrex 0 → Alone i m p (put_lock 1 m') has_lock 0
  req-run free run =
      let tested =
        subst (λ b. Alone i m p (mark i m') (req_strexeq m'.lock b) 0) (==_true m'.lock 0 free)
          (next (next run req_load) req_test) in
      next (next (next tested (req_take marked)) req_result) req_return
    where
      marked : (mark i m').marked i ≡ true
      marked = ground arith

  pub rel-run :
      {n : ℕ}
      → m'.lock ≡ 1
      → Alone i m p m' rel_ldrex n
      → Alone i m p (put_lock 0 m') released (n + 0 + 0 + 0 + 0 + 0)
  rel-run {n} taken run =
      let tested =
        subst (λ b. Alone i m p (mark i m') (rel_strexeq m'.lock b) (n + 0 + 0))
          (==_true m'.lock 1 taken) (next (next run rel_load) rel_test) in
      next (next (next tested (rel_clear marked)) rel_result) rel_return
    where
      marked : (mark i m').marked i ≡ true
      marked = ground arith

-- The whole call, when the word is 0 and the core's messages return.
pub call-run :
    (i : ℕ) (m : Shared)
    → m.lock ≡ 0
    → m.answers i ≡ true
    → Alone i m outside
        (record {
          lock = 0;
          waking_cores = (m.waking_cores + 1) % 2 ^ 32;
          marked = λ _. false;
          answers = m.answers;
        })
        outside
        1
call-run i m free answer =
    next
      (rel-run i refl (
        next (next (next (req-run i free (next here call)) (req_message answer)) load_count)
          store_count))
      (rel_message answer)

pub Move-answers :
    {i k : ℕ} {m m' : Shared} {p p' : Pc} → Move i m p m' p' k → m'.answers ≡ m.answers
Move-answers call = refl
Move-answers mv = refl

-- Which cores' messages return stays.
pub Alone-answers :
    {i : ℕ} {m : Shared} {p : Pc} {m' : Shared} {p' : Pc} {k : ℕ}
    → Alone i m p m' p' k
    → m'.answers ≡ m.answers
Alone-answers here = refl
Alone-answers (next run mv) = Move-answers mv ∙ Alone-answers run

-- Where a core is while it waits in `_spin_req` for a word that is `v`, or in `_spin_rel`.
abbrev pub Waits : ℕ → Pc → Type 0
Waits v req_ldrex = Unit {0}
Waits v (req_cmp r2) = r2 ≡ v
Waits v (req_strexeq r2 z) = (r2 ≡ v) × (z ≡ false)
Waits v (req_cmpeq r2 z) = z ≡ false
Waits v (req_bne z) = z ≡ false
Waits v _ = ⊥

abbrev pub WaitsBack : ℕ → Pc → Type 0
WaitsBack v rel_ldrex = Unit {0}
WaitsBack v (rel_cmp r2) = r2 ≡ v
WaitsBack v (rel_strexeq r2 z) = (r2 ≡ v) × (z ≡ false)
WaitsBack v (rel_cmpeq r2 z) = z ≡ false
WaitsBack v (rel_bne z) = z ≡ false
WaitsBack v _ = ⊥

module _ (v : ℕ) where
  Waits-move :
      {i k : ℕ} {m m' : Shared} {p p' : Pc}
      → v ≢ 0
      → Move i m p m' p' k
      → (m.lock ≡ v) × Waits v p
      → (m'.lock ≡ v) × Waits v p'
  Waits-move ne call w = ground arith
  Waits-move ne mv w = ground arith

  WaitsBack-move :
      {i k : ℕ} {m m' : Shared} {p p' : Pc}
      → v ≢ 1
      → Move i m p m' p' k
      → (m.lock ≡ v) × WaitsBack v p
      → (m'.lock ≡ v) × WaitsBack v p'
  WaitsBack-move ne call w = ground arith
  WaitsBack-move ne mv w = ground arith

  pub req-Waits :
      {i : ℕ} {m m' : Shared} {p' : Pc} {k : ℕ}
      → v ≢ 0
      → m.lock ≡ v
      → Alone i m req_ldrex m' p' k
      → (m'.lock ≡ v) × Waits v p'
  req-Waits ne e here = (e, tt)
  req-Waits ne e (next run mv) = Waits-move ne mv (req-Waits ne e run)

  pub rel-Waits :
      {i : ℕ} {m m' : Shared} {p' : Pc} {k : ℕ}
      → v ≢ 1
      → m.lock ≡ v
      → Alone i m rel_ldrex m' p' k
      → (m'.lock ≡ v) × WaitsBack v p'
  rel-Waits ne e here = (e, tt)
  rel-Waits ne e (next run mv) = WaitsBack-move ne mv (rel-Waits ne e run)
