-- ===== src/Sched/Turns.antt =====
-- Round robin as a state machine: the task that runs, the tasks that wait in the ready queue, and the
-- entries into the kernel that move the processor on.
pub mod Moves
pub mod Fair
pub mod Liveness
use zeos_soa.Base.{
  ℕ, ◌+◌, ◌-◌, ◌*◌, ◌/◌, ◌%◌, ◌^◌, ◌≤◌, ◌<◌, ◌≡◌, ◌≢◌, List, [], ◌∷◌, All, Fresh, Distinct,
}
use zeos_soa.KernelList.Ring.{IsRing}
use zeos_soa.Io.{Console}
use zeos_soa.Kernel.{Kernel, st_run, list_of, current}
use zeos_soa.Sched.Switch.{OnStack}
use zeos_soa.Interrupt.{clock_routine}
use zeos_soa.Sys.{sys_yield}

abbrev pub nodes : List ℕ → List ℕ
nodes [] = []
nodes (t ∷ ts) = list_of t ∷ nodes ts

-- A task struct starts a page, and the quantum of its task is not 0.
abbrev pub IsTask : Kernel → ℕ → Type 0
IsTask k t = (t % 2 ^ 12 ≡ 0) × (0 < (k.task t).total_quantum) × ((k.task t).total_quantum < 2 ^ 32)

-- The task at `c` runs, and those at `ts` wait for their turns, in this order.
pub record Turn (k : Kernel) (c : ℕ) (ts : List ℕ) : Type 0 where
  pub now : current k ≡ c
  pub running : (k.task c).state ≡ st_run
  pub queue : IsRing k.links k.at.readyqueue (nodes ts)
  pub there : k.at.readyqueue ≢ 0
  pub tasks : All (IsTask k) (c ∷ ts)
  pub stacks : All (OnStack k) ts
  pub distinct : Distinct (c ∷ ts)
  pub apart : list_of c ≢ k.at.readyqueue
  pub budget : (0 < k.remaining_quantum) × (k.remaining_quantum < 2 ^ 32)

-- The running task works on its own until it enters the kernel: it moves its stack and frame
-- pointers within the page of its struct, and writes to memory.
abbrev pub enter : Kernel → (esp ebp : ℕ) → (word : ℕ → ℕ) → Kernel
enter k esp ebp word = record k { esp = esp; ebp = ebp; word = word }

abbrev pub CanEnter : Kernel → (esp ebp : ℕ) → Type 0
CanEnter k esp ebp =
    ((esp - 4) / 2 ^ 12 * 2 ^ 12 ≡ current k) × (current k ≤ ebp) × (ebp + 4 < current k + 2 ^ 12)

-- One entry: a tick of the clock or a yield.
pub data Step (show_clock : ℕ → Console → Console) (k : Kernel) : Kernel → Type 0 where
  tick :
      (esp ebp : ℕ) (word : ℕ → ℕ)
      → CanEnter k esp ebp
      → Step show_clock k (clock_routine show_clock (enter k esp ebp word))
  yielded :
      (esp ebp : ℕ) (word : ℕ → ℕ)
      → CanEnter k esp ebp
      → Step show_clock k (sys_yield (enter k esp ebp word)).1
