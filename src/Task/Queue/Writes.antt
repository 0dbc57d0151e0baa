-- ===== src/Task/Queue/Writes.antt =====
-- What the writes of `enqueue` (task.c) leave in memory, on each of its branches.
use rpi2_baremetal.Common.{
  ℕ, ◌+◌, ◌<◌, ◌≡◌, ◌≢◌, inl, inr, refl, sym, ap, ◌∙◌, arith, ==_true, ==_false,
}
use rpi2_baremetal.Machine.{Machine, done, update, load, store}
use rpi2_baremetal.Task.{enqueue}
use rpi2_baremetal.Task.Queue.{IsFar, far_ne, IsNode, IsLinkedIn, IsOff, off_ne}

module _ (slot head last task : ℕ) (m : Machine) (at_slot : m.mem slot ≡ head)
    (at_last : m.mem (head + 20) ≡ last) (new : IsFar task head) (off_head : IsOff slot head)
    (off_task : IsOff slot task) where
  enqueue-first :
      head ≡ last
      → enqueue slot task m
        ≡ done tt (record m {
          mem =
              update
                (update (update (update m.mem (head + 20) task) (head + 24) task) (task + 20) head)
                (task + 24)
                head;
        })
  unfolding enqueue load store
  enqueue-first alone =
      rw
        (
          at_slot,
          at_last,
          ==_true head last alone,
          at_slot,
          ==_false (head + 20) slot (off_ne slot head 20 off_head (omega arith)),
          ==_false (head + 24) slot (off_ne slot head 24 off_head (omega arith)),
          ==_false (task + 20) slot (off_ne slot task 20 off_task (omega arith)),
        )
        refl

  enqueue-next :
      head ≢ last
      → IsOff slot last
      → enqueue slot task m
        ≡ done tt (record m {
          mem =
              update
                (update (update (update m.mem (last + 24) task) (task + 20) last) (task + 24) head)
                (head + 20)
                task;
        })
  unfolding enqueue load store
  enqueue-next more off_last =
      rw
        (
          at_slot,
          at_last,
          ==_false head last more,
          ==_false (last + 24) slot (off_ne slot last 24 off_last (omega arith)),
          ==_false (task + 20) slot (off_ne slot task 20 off_task (omega arith)),
          ==_false (task + 24) slot (off_ne slot task 24 off_task (omega arith)),
          at_slot,
        )
        refl

-- Four writes to words that differ.
module _ (f : ℕ → ℕ) (k l i j a b c d : ℕ) (kl : k ≢ l) (ki : k ≢ i) (kj : k ≢ j) (li : l ≢ i)
    (lj : l ≢ j) (ij : i ≢ j) where
  abbrev four : ℕ → ℕ
  four = update (update (update (update f k a) l b) i c) j d

  four-first : four k ≡ a
  four-first = ground arith

  four-second : four l ≡ b
  four-second = ground arith

  four-third : four i ≡ c
  four-third = ground arith

  four-fourth : four j ≡ d
  four-fourth = ground arith

  four-other : (x : ℕ) → x ≢ k → x ≢ l → x ≢ i → x ≢ j → four x ≡ f x
  four-other x p q r s = ground arith

module _ (f : ℕ → ℕ) (head last task : ℕ) (new : IsFar task head) where
  -- The task's fields are no fields of the head.
  task_head : (i j : ℕ) → i < 32 → j < 32 → task + i ≢ head + j
  task_head i j p q = far_ne task head i j new p q

  head_task : (i j : ℕ) → i < 32 → j < 32 → head + i ≢ task + j
  head_task i j p q e = far_ne task head j i new q p (sym e)

  first-IsLinkedIn :
      head ≡ last
      → IsLinkedIn f
          (update
            (update (update (update f (head + 20) task) (head + 24) task) (task + 20) head)
            (task + 24)
            head)
          head
          last
          task
  first-IsLinkedIn alone = record {
    last_next =
        ap (λ (k : ℕ). mem' (k + 24)) (sym alone)
        ∙ four-second f (head + 20) (head + 24) (task + 20) (task + 24) task task head head kl ki kj
            li lj ij;
    task_prev =
        four-third f (head + 20) (head + 24) (task + 20) (task + 24) task task head head kl ki kj li
          lj ij
        ∙ alone;
    task_next =
        four-fourth f (head + 20) (head + 24) (task + 20) (task + 24) task task head head kl ki kj
          li lj ij;
    head_prev =
        four-first f (head + 20) (head + 24) (task + 20) (task + 24) task task head head kl ki kj li
          lj ij;
    same = λ x p q r s.
        four-other f (head + 20) (head + 24) (task + 20) (task + 24) task task head head kl ki kj li
          lj ij x s (λ e. p (e ∙ ap (λ (k : ℕ). k + 24) alone)) q r;
  }
    where
      mem' : ℕ → ℕ
      mem' =
          update (update (update (update f (head + 20) task) (head + 24) task) (task + 20) head)
            (task + 24) head

      kl : head + 20 ≢ head + 24
      kl e = omega arith

      ki : head + 20 ≢ task + 20
      ki = head_task 20 20 (omega arith) (omega arith)

      kj : head + 20 ≢ task + 24
      kj = head_task 20 24 (omega arith) (omega arith)

      li : head + 24 ≢ task + 20
      li = head_task 24 20 (omega arith) (omega arith)

      lj : head + 24 ≢ task + 24
      lj = head_task 24 24 (omega arith) (omega arith)

      ij : task + 20 ≢ task + 24
      ij e = omega arith

  next-IsLinkedIn :
      IsFar task last
      → IsFar head last
      → IsLinkedIn f
          (update
            (update (update (update f (last + 24) task) (task + 20) last) (task + 24) head)
            (head + 20)
            task)
          head
          last
          task
  next-IsLinkedIn far apart = record {
    last_next =
        four-first f (last + 24) (task + 20) (task + 24) (head + 20) task last head task kl ki kj li
          lj ij;
    task_prev =
        four-second f (last + 24) (task + 20) (task + 24) (head + 20) task last head task kl ki kj
          li lj ij;
    task_next =
        four-third f (last + 24) (task + 20) (task + 24) (head + 20) task last head task kl ki kj li
          lj ij;
    head_prev =
        four-fourth f (last + 24) (task + 20) (task + 24) (head + 20) task last head task kl ki kj
          li lj ij;
    same = λ x p q r s.
        four-other f (last + 24) (task + 20) (task + 24) (head + 20) task last head task kl ki kj li
          lj ij x p q r s;
  }
    where
      kl : last + 24 ≢ task + 20
      kl e = far_ne task last 20 24 far (omega arith) (omega arith) (sym e)

      ki : last + 24 ≢ task + 24
      ki e = far_ne task last 24 24 far (omega arith) (omega arith) (sym e)

      kj : last + 24 ≢ head + 20
      kj e = far_ne head last 20 24 apart (omega arith) (omega arith) (sym e)

      li : task + 20 ≢ task + 24
      li e = omega arith

      lj : task + 20 ≢ head + 20
      lj = task_head 20 20 (omega arith) (omega arith)

      ij : task + 24 ≢ head + 20
      ij = task_head 24 20 (omega arith) (omega arith)

module _ (slot head last task : ℕ) (m : Machine) (at_slot : m.mem slot ≡ head)
    (at_last : m.mem (head + 20) ≡ last) (new : IsFar task head) (off_head : IsOff slot head)
    (off_task : IsOff slot task) (off_last : IsOff slot last) (far : IsFar task last) where
  pub enqueue-IsLinkedIn :
      IsNode head last
      → (mem' : ℕ → ℕ) × (enqueue slot task m ≡ done tt (record m { mem = mem' }))
        × IsLinkedIn m.mem mem' head last task
  enqueue-IsLinkedIn (inl alone) = (
    _,
    enqueue-first slot head last task m at_slot at_last new off_head off_task alone,
    first-IsLinkedIn m.mem head last task new alone,
  )
  enqueue-IsLinkedIn (inr apart) = (
    _,
    enqueue-next slot head last task m at_slot at_last new off_head off_task
        (λ e. far_ne head last 0 0 apart (omega arith) (omega arith) (omega arith)) off_last,
    next-IsLinkedIn m.mem head last task new far apart,
  )
