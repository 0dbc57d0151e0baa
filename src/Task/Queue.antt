-- ===== src/Task/Queue.antt =====
-- The ready queues of task.c: rings of control blocks, linked both ways, each with a head.
pub mod Enqueue
pub mod Frame
pub mod Writes
use rpi2_baremetal.Common.{
  ℕ, ◌+◌, ◌≤◌, ◌<◌, ◌≡◌, ◌≢◌, ◌⊎◌, inl, inr, refl, sym, ap, ◌∙◌, List, [], ◌∷◌, ◌++◌, arith,
  ==_true, ==_false,
}
use rpi2_baremetal.Machine.{Machine, done, update, load, store}
use rpi2_baremetal.Task.{enqueue}

-- From the block `a` the links lead through the blocks in order to `stop` and back.
abbrev pub Links : (ℕ → ℕ) → ℕ → ℕ → List ℕ → Type 0
Links mem stop a [] = (mem (a + 24) ≡ stop) × (mem (stop + 20) ≡ a)
Links mem stop a (b ∷ bs) = (mem (a + 24) ≡ b) × (mem (b + 20) ≡ a) × Links mem stop b bs

-- Control blocks that do not overlap.
abbrev pub IsFar : ℕ → ℕ → Type 0
IsFar a b = (a + 32 ≤ b) ⊎ (b + 32 ≤ a)

abbrev pub AllFar : ℕ → List ℕ → Type 0
AllFar a [] = Unit {0}
AllFar a (b ∷ bs) = IsFar a b × AllFar a bs

abbrev pub Distinct : List ℕ → Type 0
Distinct [] = Unit {0}
Distinct (a ∷ bs) = AllFar a bs × Distinct bs

-- The queue of the head `head`: the tasks, first to last.
pub record IsQueue (mem : ℕ → ℕ) (head : ℕ) (tasks : List ℕ) : Type 0 where
  pub links : Links mem head head tasks
  pub distinct : Distinct (head ∷ tasks)

abbrev pub last_of : ℕ → List ℕ → ℕ
last_of a [] = a
last_of a (b ∷ bs) = last_of b bs

pub Links-last :
    (mem : ℕ → ℕ) (stop a : ℕ) (bs : List ℕ) → Links mem stop a bs → mem (stop + 20) ≡ last_of a bs
Links-last mem stop a [] (next, prev) = prev
Links-last mem stop a (b ∷ bs) (next, prev, links) = Links-last mem stop b bs links

pub last_of-IsFar : (a b : ℕ) (bs : List ℕ) → IsFar a b → AllFar a bs → IsFar a (last_of b bs)
last_of-IsFar a b [] far all = far
last_of-IsFar a b (c ∷ cs) far (one, all) = last_of-IsFar a c cs one all

-- Fields of blocks that are one or far apart.
pub far_ne : (a b i j : ℕ) → IsFar a b → i < 32 → j < 32 → a + i ≢ b + j
far_ne a b i j (inl before) p q e = omega arith
far_ne a b i j (inr after) p q e = omega arith

pub IsFar-sym : (a b : ℕ) → IsFar a b → IsFar b a
IsFar-sym a b (inl before) = inr before
IsFar-sym a b (inr after) = inl after

-- Two blocks that are one or far apart.
abbrev pub IsNode : ℕ → ℕ → Type 0
IsNode a b = (a ≡ b) ⊎ IsFar a b

pub node_ne : (a b i j : ℕ) → IsNode a b → i < 32 → j < 32 → i ≢ j → a + i ≢ b + j
node_ne a b i j (inl same) p q ne e = ne (omega arith)
node_ne a b i j (inr far) p q ne e = far_ne a b i j far p q e

pub last_IsNode : (b : ℕ) (bs : List ℕ) → AllFar b bs → IsNode b (last_of b bs)
last_IsNode b [] all = inl refl
last_IsNode b (c ∷ cs) (one, all) = inr (last_of-IsFar b c cs one all)

-- The memory after `task` has been put between `last` and `head`.
pub record IsLinkedIn (mem mem' : ℕ → ℕ) (head last task : ℕ) : Type 0 where
  pub last_next : mem' (last + 24) ≡ task
  pub task_prev : mem' (task + 20) ≡ last
  pub task_next : mem' (task + 24) ≡ head
  pub head_prev : mem' (head + 20) ≡ task
  pub same :
      (x : ℕ) → x ≢ last + 24 → x ≢ task + 20 → x ≢ task + 24 → x ≢ head + 20 → mem' x ≡ mem x

-- An address outside the control block `a`.
abbrev pub IsOff : ℕ → ℕ → Type 0
IsOff x a = (x < a) ⊎ (a + 32 ≤ x)

abbrev pub AllOff : ℕ → List ℕ → Type 0
AllOff x [] = Unit {0}
AllOff x (a ∷ bs) = IsOff x a × AllOff x bs

pub last_of-IsOff : (x a : ℕ) (bs : List ℕ) → IsOff x a → AllOff x bs → IsOff x (last_of a bs)
last_of-IsOff x a [] off all = off
last_of-IsOff x a (b ∷ bs) off (one, all) = last_of-IsOff x b bs one all

pub off_ne : (x a i : ℕ) → IsOff x a → i < 32 → a + i ≢ x
off_ne x a i (inl before) lt e = omega arith
off_ne x a i (inr after) lt e = omega arith
