-- ===== src/Task/Queue/Enqueue.antt =====
-- A task enters a queue in task.c.
use rpi2_baremetal.Common.{ℕ, ◌+◌, ◌≡◌, ◌≢◌, inl, inr, refl, sym, ◌∙◌, List, [], ◌∷◌, ◌++◌, arith}
use rpi2_baremetal.Machine.{Machine, done}
use rpi2_baremetal.Task.{enqueue}
use rpi2_baremetal.Task.Queue.{
  Links, IsFar, AllFar, Distinct, IsQueue, last_of, Links-last, last_of-IsFar, far_ne, IsFar-sym,
  IsNode, node_ne, last_IsNode, IsLinkedIn, IsOff, AllOff, last_of-IsOff,
}
use rpi2_baremetal.Task.Queue.Writes.{enqueue-IsLinkedIn}

module _ (mem mem' : ℕ → ℕ) (head task : ℕ) (new : IsFar task head) where
  Links-linked_in :
      (a : ℕ) (bs : List ℕ)
      → IsNode head a
      → IsFar task a
      → AllFar task bs
      → AllFar head bs
      → Distinct (a ∷ bs)
      → Links mem head a bs
      → IsLinkedIn mem mem' head (last_of a bs) task
      → Links mem' head a (bs ++ task ∷ [])
  Links-linked_in a [] node far none apart distinct links step =
      (step.last_next, step.task_prev, (step.task_next, step.head_prev))
  Links-linked_in a (b ∷ bs) node far (far_b, fars) (apart, aparts) (all, others)
        (next, prev, links) step =
      (
        step.same (a + 24)
              (far_ne a (last_of b bs) 24 24 (last_of-IsFar a b bs all.0 all.1) (omega arith)
                (omega arith))
              (λ e. far_ne task a 20 24 far (omega arith) (omega arith) (sym e))
              (λ e. far_ne task a 24 24 far (omega arith) (omega arith) (sym e))
              (λ e. node_ne head a 20 24 node (omega arith) (omega arith) (omega arith) (sym e))
            ∙ next,
        step.same (b + 20)
              (node_ne b (last_of b bs) 20 24 (last_IsNode b bs others.0) (omega arith)
                (omega arith) (omega arith))
              (λ e. far_ne task b 20 20 far_b (omega arith) (omega arith) (sym e))
              (λ e. far_ne task b 24 20 far_b (omega arith) (omega arith) (sym e))
              (λ e. far_ne head b 20 20 apart (omega arith) (omega arith) (sym e))
            ∙ prev,
        Links-linked_in b bs (inr apart) far_b fars aparts others links step,
      )

AllFar-end : (a : ℕ) (bs : List ℕ) (t : ℕ) → AllFar a bs → IsFar a t → AllFar a (bs ++ t ∷ [])
AllFar-end a [] t all far = (far, tt)
AllFar-end a (b ∷ bs) t (one, all) far = (one, AllFar-end a bs t all far)

Distinct-end : (bs : List ℕ) (t : ℕ) → AllFar t bs → Distinct bs → Distinct (bs ++ t ∷ [])
Distinct-end [] t far distinct = (tt, tt)
Distinct-end (b ∷ bs) t (one, far) (all, distinct) =
    (AllFar-end b bs t all (IsFar-sym t b one), Distinct-end bs t far distinct)

-- The slot holds the head of the queue `tasks`, and neither it nor the control block of a new task
-- overlaps with the head's or with a queued one: `enqueue` puts the task at the end, whether the
-- queue was empty or not, and changes no word but the links of the task, the head and the last block.
pub enqueue-IsQueue :
    (slot task head : ℕ) (tasks : List ℕ) (m : Machine)
    → IsQueue m.mem head tasks
    → m.mem slot ≡ head
    → IsFar task head
    → AllFar task tasks
    → IsOff slot task
    → AllOff slot (head ∷ tasks)
    → (mem' : ℕ → ℕ) × (enqueue slot task m ≡ done tt (record m { mem = mem' }))
      × IsQueue mem' head (tasks ++ task ∷ [])
      × ((x : ℕ)
          → x ≢ last_of head tasks + 24
          → x ≢ task + 20
          → x ≢ task + 24
          → x ≢ head + 20
          → mem' x ≡ m.mem x)
enqueue-IsQueue slot task head tasks m queue at_slot new news off_task offs =
    let (distinct, others) = queue.distinct in
    let at_last = Links-last m.mem head head tasks queue.links in
    let (mem', e, step) =
      enqueue-IsLinkedIn slot head (last_of head tasks) task m at_slot at_last new offs.0 off_task
        (last_of-IsOff slot head tasks offs.0 offs.1) (last_of-IsFar task head tasks new news)
        (last_IsNode head tasks distinct) in
    (
      mem',
      e,
      record {
        links =
            Links-linked_in m.mem mem' head task new head tasks (inl refl) new news distinct
              (distinct, others) queue.links step;
        distinct = (
          AllFar-end head tasks task distinct (IsFar-sym task head new),
          Distinct-end tasks task news others,
        );
      },
      step.same,
    )
