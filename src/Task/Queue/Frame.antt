-- ===== src/Task/Queue/Frame.antt =====
-- A queue in memory that has changed elsewhere.
use rpi2_baremetal.Common.{ℕ, ◌+◌, ◌≡◌, sym, ◌∙◌, List, [], ◌∷◌, arith}
use rpi2_baremetal.Machine.{update}
use rpi2_baremetal.Heap.Ring.{update-other}
use rpi2_baremetal.Task.Queue.{Links, IsQueue, AllOff, off_ne}

-- What the blocks of a queue need of memory.
abbrev pub AllSame : (ℕ → ℕ) → (ℕ → ℕ) → List ℕ → Type 0
AllSame mem mem' [] = Unit {0}
AllSame mem mem' (a ∷ bs) =
    (mem' (a + 20) ≡ mem (a + 20)) × (mem' (a + 24) ≡ mem (a + 24)) × AllSame mem mem' bs

Links-AllSame :
    (mem mem' : ℕ → ℕ) (stop a : ℕ) (bs : List ℕ)
    → mem' (stop + 20) ≡ mem (stop + 20)
    → mem' (a + 24) ≡ mem (a + 24)
    → AllSame mem mem' bs
    → Links mem stop a bs
    → Links mem' stop a bs
Links-AllSame mem mem' stop a [] end here same (next, prev) = (here ∙ next, end ∙ prev)
Links-AllSame mem mem' stop a (b ∷ bs) end here (prev_same, next_same, same) (next, prev, links) =
    (here ∙ next, prev_same ∙ prev, Links-AllSame mem mem' stop b bs end next_same same links)

pub IsQueue-AllSame :
    (mem mem' : ℕ → ℕ) (head : ℕ) (tasks : List ℕ)
    → AllSame mem mem' (head ∷ tasks)
    → IsQueue mem head tasks
    → IsQueue mem' head tasks
IsQueue-AllSame mem mem' head tasks (prev, next, same) queue = record {
  links = Links-AllSame mem mem' head head tasks prev next same queue.links;
  distinct = queue.distinct;
}

pub update-AllSame :
    (mem : ℕ → ℕ) (x v : ℕ) (bs : List ℕ) → AllOff x bs → AllSame mem (update mem x v) bs
update-AllSame mem x v [] off = tt
update-AllSame mem x v (a ∷ bs) (off, offs) = (
  update-other mem x v (a + 20) (λ e. off_ne x a 20 off (omega arith) (sym e)),
  update-other mem x v (a + 24) (λ e. off_ne x a 24 off (omega arith) (sym e)),
  update-AllSame mem x v bs offs,
)
