-- ===== src/Tasks.antt =====
-- The tasks of the kernel from their start to their end: sched.c and the calls of sys.c that move a
-- task struct from one queue to another.
pub mod Dispatch
pub mod Apart
pub mod Ends
pub mod Joins
pub mod Threads
pub mod Forks
pub mod Switches
pub mod Life
pub mod Runs
use zeos_soa.Base.{
  ℕ, ◌+◌, ◌-◌, ◌*◌, ◌/◌, ◌%◌, ◌^◌, ◌≤◌, ◌<◌, ◌≡◌, ◌≢◌, List, [], ◌∷◌, All, Distinct, Disjoint,
}
use zeos_soa.KernelList.Ring.{IsRing}
use zeos_soa.Mm.Paging.{nr_tasks}
use zeos_soa.Kernel.{Kernel, Layout, list_of}
use zeos_soa.Sched.Turns.{nodes, Turn}

-- What a task struct's place is: a page of the task array, with its node at no head of a queue.
abbrev pub IsSlot : Layout → ℕ → Type 0
IsSlot at t =
    (t % 2 ^ 12 ≡ 0)
    × (list_of t ≢ at.freequeue)
    × (list_of t ≢ at.readyqueue)
    × (at.task ≤ t)
    × (t + 2 ^ 12 ≤ at.task + 4096 * nr_tasks)
    × (t + 2 ^ 12 ≤ 2 ^ 32)

-- The task at `c` runs, those at `ts` wait in this order, and the structs at `fs` are free.
pub record Population (k : Kernel) (c : ℕ) (ts fs : List ℕ) : Type 0 where
  pub turn : Turn k c ts
  pub free : IsRing k.links k.at.freequeue (nodes fs)
  pub heads : k.at.freequeue ≢ k.at.readyqueue
  pub busy_slots : All (IsSlot k.at) (c ∷ ts)
  pub free_slots : All (IsSlot k.at) fs
  pub free_distinct : Distinct fs
  pub apart : Disjoint fs (c ∷ ts)
