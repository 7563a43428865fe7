-- ===== src/Tests/Semaphores.antt =====
-- Applications of the theorems on the semaphores.
use zeos_soa.Base.{[], ◌∷◌, ◌≡◌, ◌⊎◌, ◌<◌, ℕ, arith, refl, false, inr, update}
use zeos_soa.Kernel.{Kernel, current, list_head_to_task_struct, st_ready}
use zeos_soa.Sched.{free_sem, num_sem}
use zeos_soa.Semaphore.{
  my_sem, refused, sys_sem_create, sys_sem_wait, sys_sem_signal, sys_sem_destroy,
}
use zeos_soa.Semaphore.Queues.{Queues}
use zeos_soa.Semaphore.Wait.{GaveUp, sys_sem_wait_blocks}
use zeos_soa.Semaphore.Signal.{sys_sem_signal_wakes}
use zeos_soa.Semaphore.Balance.{sys_sem_signal-sys_sem_wait}
use zeos_soa.Semaphore.Create.{Created, NoneFree, sys_sem_create-cases}
use zeos_soa.Semaphore.Destroy.{Parted, AreReady, sys_sem_destroy_releases}
use zeos_soa.Tests.State.{machine, n1, n2, n3, n5, ready-IsRing, blocked-IsRing}

-- Semaphore 0 has two units left and nobody blocked.
abbrev open_sem : Kernel
open_sem = record machine {
  sem = update (λ _. free_sem) 0x2000 (record { semid = 0; count = 2; pid = 1 });
}

machine-accepts : refused machine 0 ≡ false
unfolding refused current
machine-accepts = refl

open-accepts : refused open_sem 0 ≡ false
unfolding refused current
open-accepts = refl

machine-Queues : Queues machine 0x1008 (my_sem machine 0) (n5 ∷ []) (n2 ∷ n3 ∷ [])
unfolding current
machine-Queues = record {
  blocked = blocked-IsRing;
  ready = ready-IsRing;
  apart = omega arith;
  count = omega arith;
}

sys_sem_wait_blocks_example :
    ((sys_sem_wait machine 0).0 ≡ 0)
    × Queues (sys_sem_wait machine 0).1 0x1008 (my_sem machine 0) (n1 ∷ n5 ∷ []) (n3 ∷ [])
    × GaveUp machine (sys_sem_wait machine 0).1 (list_head_to_task_struct n2)
unfolding current list_head_to_task_struct
sys_sem_wait_blocks_example =
    sys_sem_wait_blocks machine 0 (n5 ∷ []) n2 (n3 ∷ []) machine-accepts machine-Queues
      (inr (omega arith)) (omega arith) (omega arith) (omega arith)

sys_sem_signal_wakes_example :
    ((sys_sem_signal machine 0).0 ≡ 0)
    × Queues (sys_sem_signal machine 0).1 0x1008 (my_sem machine 0) [] (n5 ∷ n2 ∷ n3 ∷ [])
    × (((sys_sem_signal machine 0).1.task (list_head_to_task_struct n5)).state ≡ st_ready)
sys_sem_signal_wakes_example =
    sys_sem_signal_wakes machine 0 n5 [] (n2 ∷ n3 ∷ []) machine-accepts machine-Queues

sys_sem_create-cases_example :
    ((i : ℕ) × (i < num_sem) × Created machine 0 3 i (sys_sem_create machine 3))
    ⊎ NoneFree machine 0 num_sem (sys_sem_create machine 3)
sys_sem_create-cases_example = sys_sem_create-cases machine 3

sys_sem_destroy_releases_example :
    ((sys_sem_destroy machine 0).0 ≡ 0)
    × Parted (sys_sem_destroy machine 0).1 0x1008 (my_sem machine 0) [] (n2 ∷ n3 ∷ n5 ∷ [])
    × AreReady (sys_sem_destroy machine 0).1.task (n5 ∷ [])
    × ((sys_sem_destroy machine 0).1.sem ≡ update machine.sem (my_sem machine 0) free_sem)
unfolding current list_head_to_task_struct
sys_sem_destroy_releases_example =
    sys_sem_destroy_releases machine 0 (n5 ∷ []) (n2 ∷ n3 ∷ []) machine-accepts
      (record { blocked = blocked-IsRing; ready = ready-IsRing; apart = omega arith }) (refl, tt)
      (omega arith)

sys_sem_signal-sys_sem_wait_example : sys_sem_signal (sys_sem_wait open_sem 0).1 0 ≡ (0, open_sem)
unfolding current
sys_sem_signal-sys_sem_wait_example =
    sys_sem_signal-sys_sem_wait open_sem 0 open-accepts (omega arith) (omega arith)
