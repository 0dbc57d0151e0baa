-- ===== src/Tests/Queues.antt =====
-- The theorems on queues at a concrete one, with one task.
use rpi2_baremetal.Common.{ℕ, ◌≢◌, ◌+◌, ◌≡◌, refl, inl, [], ◌∷◌, ◌==◌, if◌then◌else◌, arith}
use rpi2_baremetal.Machine.{Machine, done}
use rpi2_baremetal.Task.{unlink}
use rpi2_baremetal.Task.Queue.{IsQueue}
use rpi2_baremetal.Task.Unlink.{unlink-IsQueue}
use rpi2_baremetal.Tests.{machine}

abbrev pub slot : ℕ
slot = 0x1e00_0010

abbrev pub head : ℕ
head = 0x2300_0000

abbrev pub only : ℕ
only = 0x2300_0100

abbrev newcomer : ℕ
newcomer = 0x2300_0200

abbrev pub linked : ℕ → ℕ
linked a =
    if a == 0x1e00_0010
    then 0x2300_0000
    else (if a == 0x2300_0014
        then 0x2300_0100
        else (if a == 0x2300_0018
            then 0x2300_0100
            else (if a == 0x2300_0114
                then 0x2300_0000
                else (if a == 0x2300_0118 then 0x2300_0000 else 0))))

abbrev pub queued : Machine
queued = record (machine 0 1) { mem = linked }

pub linked-IsQueue : IsQueue linked head (only ∷ [])
linked-IsQueue = record {
  links = (refl, refl, (refl, refl));
  distinct = ((inl (omega arith), tt), (tt, tt));
}

unlink-IsQueue_example :
    (mem' : ℕ → ℕ) × (unlink only queued ≡ done tt (record queued { mem = mem' }))
    × IsQueue mem' head []
    × ((x : ℕ) → x ≢ head + 24 → x ≢ head + 20 → mem' x ≡ linked x)
unlink-IsQueue_example = unlink-IsQueue head only [] [] queued linked-IsQueue
