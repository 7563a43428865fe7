-- ===== src/Semaphore/Queues.antt =====
-- A semaphore's count and the queue of the tasks that are blocked on it.
use zeos_soa.Base.{ℕ, ◌+◌, ◌^◌, ◌≤◌, ◌<◌, ◌≡◌, ◌↔◌, false, List, [], ◌∷◌, Disjoint, length, arith}
use zeos_soa.KernelList.Ring.{IsRing}
use zeos_soa.Kernel.{Kernel, current}
use zeos_soa.Sched.{blocked_of}
use zeos_soa.Semaphore.{my_sem, refused}

-- With nobody blocked the count is not negative; else it is minus the number of blocked tasks.
abbrev pub CountFits : ℕ → List ℕ → Type 0
CountFits c [] = c < 2 ^ 31
CountFits c (b ∷ bs) = (c + length (b ∷ bs) ≡ 2 ^ 32) × (2 ^ 31 < c)

-- The nodes `bs` are blocked on the semaphore at `s`, the nodes `rs` are in the ready queue `rq`.
pub record Queues (k : Kernel) (rq s : ℕ) (bs rs : List ℕ) : Type 0 where
  pub blocked : IsRing k.links (blocked_of s) bs
  pub ready : IsRing k.links rq rs
  pub apart : Disjoint (blocked_of s ∷ bs) (rq ∷ rs)
  pub count : CountFits (k.sem s).count bs

-- A call on a semaphore goes through exactly if the index is at most 10 and the array holds there
-- a semaphore with that identifier, created by the caller's process.
pub refused_iff :
    (k : Kernel) (sem_id : ℕ)
    → (refused k sem_id ≡ false) ↔ (
        (sem_id ≤ 10)
        × ((k.sem (my_sem k sem_id)).pid ≡ (k.task (current k)).pid)
        × ((k.sem (my_sem k sem_id)).semid ≡ sem_id))
unfolding refused
refused_iff k sem_id = ((λ h. ground arith), (λ h. ground arith))
