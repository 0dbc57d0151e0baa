-- ===== src/Task/Unlink.antt =====
-- A task leaves its queue in task.c.
use rpi2_baremetal.Common.{
  ℕ, ◌+◌, ◌<◌, ◌≡◌, ◌≢◌, inl, inr, refl, sym, ◌∙◌, List, [], ◌∷◌, ◌++◌, arith, ==_false,
}
use rpi2_baremetal.Machine.{Machine, done, update, load, store}
use rpi2_baremetal.Task.{unlink}
use rpi2_baremetal.Task.Queue.{
  Links, IsFar, AllFar, Distinct, IsQueue, IsNode, last_of, last_of-IsFar, last_IsNode, far_ne,
  node_ne, IsFar-sym,
}

abbrev pub first_of : ℕ → List ℕ → ℕ
first_of stop [] = stop
first_of stop (b ∷ bs) = b

-- The memory after the blocks `p` and `n` have been linked to each other.
record IsJoined (mem mem' : ℕ → ℕ) (p n : ℕ) : Type 0 where
  next : mem' (p + 24) ≡ n
  prev : mem' (n + 20) ≡ p
  same : (x : ℕ) → x ≢ p + 24 → x ≢ n + 20 → mem' x ≡ mem x

-- The neighbours of a block in the middle.
Links-neighbours :
    (mem : ℕ → ℕ) (stop a : ℕ) (xs : List ℕ) (t : ℕ) (ys : List ℕ)
    → Links mem stop a (xs ++ t ∷ ys)
    → (mem (t + 20) ≡ last_of a xs) × (mem (t + 24) ≡ first_of stop ys)
Links-neighbours mem stop a [] t [] (next, prev, (next', prev')) = (prev, next')
Links-neighbours mem stop a [] t (y ∷ ys) (next, prev, (next', prev', links)) = (prev, next')
Links-neighbours mem stop a (x ∷ xs) t ys (next, prev, links) =
    Links-neighbours mem stop x xs t ys links

AllFar-split :
    (a : ℕ) (xs : List ℕ) (t : ℕ) (ys : List ℕ)
    → AllFar a (xs ++ t ∷ ys)
    → IsFar a t × AllFar a ys × AllFar a (xs ++ ys)
AllFar-split a [] t ys (far, all) = (far, all, all)
AllFar-split a (x ∷ xs) t ys (far, all) =
    let (far_t, all_ys, rest) = AllFar-split a xs t ys all in (far_t, all_ys, (far, rest))

Distinct-split : (xs : List ℕ) (t : ℕ) (ys : List ℕ) → Distinct (xs ++ t ∷ ys) → Distinct (xs ++ ys)
Distinct-split [] t ys (all, distinct) = distinct
Distinct-split (x ∷ xs) t ys (all, distinct) =
    ((AllFar-split x xs t ys all).2, Distinct-split xs t ys distinct)

module _ (mem mem' : ℕ → ℕ) (stop p n : ℕ) (step : IsJoined mem mem' p n) where
  spared : (a i : ℕ) → i < 32 → (a + i ≢ p + 24) → (a + i ≢ n + 20) → mem' (a + i) ≡ mem (a + i)
  spared a i lt ne ne' = step.same (a + i) ne ne'

  -- The links behind the two blocks stay.
  Links-frame :
      (c : ℕ) (cs : List ℕ)
      → IsNode stop p
      → IsFar stop n
      → AllFar p (c ∷ cs)
      → IsNode n c
      → AllFar n cs
      → Links mem stop c cs
      → Links mem' stop c cs
  Links-frame c [] stop_p stop_n (far, all) node apart (next, prev) = (
    spared c 24 (omega arith) (λ e. far_ne p c 24 24 far (omega arith) (omega arith) (sym e))
          (λ e. node_ne n c 20 24 node (omega arith) (omega arith) (omega arith) (sym e))
        ∙ next,
    spared stop 20 (omega arith)
          (node_ne stop p 20 24 stop_p (omega arith) (omega arith) (omega arith))
          (far_ne stop n 20 20 stop_n (omega arith) (omega arith))
        ∙ prev,
  )
  Links-frame c (d ∷ ds) stop_p stop_n (far, (far', all)) node (apart, aparts) (next, prev, links) =
      (
        spared c 24 (omega arith) (λ e. far_ne p c 24 24 far (omega arith) (omega arith) (sym e))
              (λ e. node_ne n c 20 24 node (omega arith) (omega arith) (omega arith) (sym e))
            ∙ next,
        spared d 20 (omega arith) (λ e. far_ne p d 24 20 far' (omega arith) (omega arith) (sym e))
              (λ e. far_ne n d 20 20 apart (omega arith) (omega arith) (sym e))
            ∙ prev,
        Links-frame d ds stop_p stop_n (far', all) (inr apart) aparts links,
      )

first_IsNode :
    (stop a : ℕ) (ys : List ℕ) → IsNode stop a → AllFar a ys → IsNode (first_of stop ys) a
first_IsNode stop a [] node all = node
first_IsNode stop a (y ∷ ys) node (far, all) = inr (IsFar-sym a y far)

first_IsFar : (stop a : ℕ) (ys : List ℕ) → IsFar stop a → AllFar a ys → IsFar (first_of stop ys) a
first_IsFar stop a [] far all = far
first_IsFar stop a (y ∷ ys) far (one, all) = IsFar-sym a y one

AllFar-take : (a : ℕ) (xs ys : List ℕ) → AllFar a (xs ++ ys) → AllFar a xs
AllFar-take a [] ys all = tt
AllFar-take a (x ∷ xs) ys (far, all) = (far, AllFar-take a xs ys all)

first-joined :
    (mem mem' : ℕ → ℕ) (stop t a : ℕ) (ys : List ℕ)
    → IsJoined mem mem' a (first_of stop ys)
    → IsNode stop a
    → AllFar stop (t ∷ ys)
    → Distinct (a ∷ t ∷ ys)
    → Links mem stop a (t ∷ ys)
    → Links mem' stop a ys
first-joined mem mem' stop t a [] step node all distinct links = (step.next, step.prev)
first-joined mem mem' stop t a (y ∷ ys) step node (_, (far, all))
      ((_, behind), (_, (apart, distinct))) (_, _, (_, _, links)) =
    (
      step.next,
      step.prev,
      Links-frame mem mem' stop a y step y ys node far behind (inl refl) apart links,
    )

module _ (mem mem' : ℕ → ℕ) (stop t : ℕ) (ys : List ℕ) where
  Links-joined :
      (a : ℕ) (xs : List ℕ)
      → IsJoined mem mem' (last_of a xs) (first_of stop ys)
      → IsNode stop a
      → AllFar stop (xs ++ t ∷ ys)
      → Distinct (a ∷ (xs ++ t ∷ ys))
      → Links mem stop a (xs ++ t ∷ ys)
      → Links mem' stop a (xs ++ ys)
  Links-joined a [] step node all distinct links =
      first-joined mem mem' stop t a ys step node all distinct links
  Links-joined a (x ∷ xs) step node (far, all) (far_a, distinct) (next, prev, links) =
      let (all_x, others) = distinct in
      let (x_t, x_ys, x_rest) = AllFar-split x xs t ys all_x in
      let (a_t, a_ys, a_rest) = AllFar-split a xs t ys far_a.1 in
      (
        step.same (a + 24)
              (far_ne a (last_of x xs) 24 24
                (last_of-IsFar a x xs far_a.0 (AllFar-take a xs (t ∷ ys) far_a.1)) (omega arith)
                (omega arith))
              (λ e.
                node_ne (first_of stop ys) a 20 24 (first_IsNode stop a ys node a_ys) (omega arith)
                  (omega arith) (omega arith) (sym e))
            ∙ next,
        step.same (x + 20)
              (node_ne x (last_of x xs) 20 24 (last_IsNode x xs (AllFar-take x xs (t ∷ ys) all_x))
                (omega arith) (omega arith) (omega arith))
              (λ e.
                far_ne (first_of stop ys) x 20 20 (first_IsFar stop x ys far x_ys) (omega arith)
                  (omega arith) (sym e))
            ∙ prev,
        Links-joined x xs step (inr far) all distinct links,
      )

module _ (stop t : ℕ) (ys : List ℕ) where
  last-IsFar : (a : ℕ) (xs : List ℕ) → IsFar a t → Distinct (xs ++ t ∷ ys) → IsFar (last_of a xs) t
  last-IsFar a [] far distinct = far
  last-IsFar a (x ∷ xs) far (all, distinct) =
      last-IsFar x xs (AllFar-split x xs t ys all).0 distinct

  ends_IsNode :
      (a : ℕ) (xs : List ℕ)
      → IsNode stop a
      → AllFar a ys
      → AllFar stop (xs ++ t ∷ ys)
      → Distinct (xs ++ t ∷ ys)
      → IsNode (first_of stop ys) (last_of a xs)
  ends_IsNode a [] node apart all distinct = first_IsNode stop a ys node apart
  ends_IsNode a (x ∷ xs) node apart (far, all) (all_x, distinct) =
      ends_IsNode x xs (inr far) (AllFar-split x xs t ys all_x).1 all distinct

unlink-run :
    (task p n : ℕ) (m : Machine)
    → m.mem (task + 20) ≡ p
    → m.mem (task + 24) ≡ n
    → IsFar p task
    → unlink task m ≡ done tt (record m { mem = update (update m.mem (p + 24) n) (n + 20) p })
unfolding unlink load store
unlink-run task p n m at_prev at_next far =
    rw
      (
        at_prev,
        at_next,
        ==_false (p + 24) (task + 24) (far_ne p task 24 24 far (omega arith) (omega arith)),
        ==_false (p + 24) (task + 20) (far_ne p task 24 20 far (omega arith) (omega arith)),
      )
      refl

update-IsJoined :
    (f : ℕ → ℕ) (p n : ℕ)
    → n + 20 ≢ p + 24
    → IsJoined f (update (update f (p + 24) n) (n + 20) p) p n
update-IsJoined f p n ne = record {
  next = ground arith;
  prev = ground arith;
  same = λ x q r. ground arith;
}

-- A task of a queue leaves it: `unlink` returns, the others stay in the queue in their order, and it
-- changes no word but the links of the task's two neighbours.
pub unlink-IsQueue :
    (head task : ℕ) (xs ys : List ℕ) (m : Machine)
    → IsQueue m.mem head (xs ++ task ∷ ys)
    → (mem' : ℕ → ℕ) × (unlink task m ≡ done tt (record m { mem = mem' }))
      × IsQueue mem' head (xs ++ ys)
      × ((x : ℕ) → x ≢ last_of head xs + 24 → x ≢ first_of head ys + 20 → mem' x ≡ m.mem x)
unlink-IsQueue head task xs ys m queue =
    let (distinct, others) = queue.distinct in
    let (at_prev, at_next) = Links-neighbours m.mem head head xs task ys queue.links in
    let (far, behind, rest) = AllFar-split head xs task ys distinct in
    let p : ℕ = last_of head xs in
    let n : ℕ = first_of head ys in
    let step = update-IsJoined m.mem p n (
      node_ne n p 20 24 (ends_IsNode head task ys head xs (inl refl) behind distinct others)
        (omega arith) (omega arith) (omega arith)) in
    (
      update (update m.mem (p + 24) n) (n + 20) p,
      unlink-run task p n m at_prev at_next (last-IsFar head task ys head xs far others),
      record {
        links =
            Links-joined m.mem _ head task ys head xs step (inl refl) distinct queue.distinct
              queue.links;
        distinct = (rest, Distinct-split xs task ys others);
      },
      step.same,
    )
