-- ===== src/Semaphore/Balance.antt =====
-- A wait and a signal that undo each other.
use mathlib.Core.Path.{fun_ext}
use zeos_soa.Base.{ℕ, ◌+◌, ◌-◌, ◌^◌, ◌<◌, ◌≡◌, ap, ◌∙◌, false, arith}
use zeos_soa.Kernel.{Kernel, current}
use zeos_soa.Semaphore.{my_sem, set_sem, refused, sys_sem_wait, sys_sem_signal}
use zeos_soa.Semaphore.Wait.{sys_sem_wait_passes}
use zeos_soa.Semaphore.Signal.{sys_sem_signal_frees}

-- The kernel after a wait that passes.
abbrev taken : Kernel → (sem_id : ℕ) → Kernel
taken k sem_id =
    let s = my_sem k sem_id in set_sem k s (record (k.sem s) { count = (k.sem s).count - 1 })

refused-taken :
    (k : Kernel) (sem_id : ℕ) → refused k sem_id ≡ false → refused (taken k sem_id) sem_id ≡ false
unfolding refused current
refused-taken k sem_id ok = ground arith

signal-taken :
    (k : Kernel) (sem_id : ℕ)
    → 0 < (k.sem (my_sem k sem_id)).count
    → set_sem
        (taken k sem_id)
        (my_sem (taken k sem_id) sem_id)
        (record ((taken k sem_id).sem (my_sem (taken k sem_id) sem_id)) {
          count = ((taken k sem_id).sem (my_sem (taken k sem_id) sem_id)).count + 1;
        })
      ≡ k
unfolding current
signal-taken k sem_id pos = ap (λ f. record k { sem = f }) (fun_ext λ a. ground arith)

-- On a semaphore that lets the caller pass, a signal right after the wait returns 0 and gives back
-- the whole state from before the wait.
pub sys_sem_signal-sys_sem_wait :
    (k : Kernel) (sem_id : ℕ)
    → refused k sem_id ≡ false
    → 0 < (k.sem (my_sem k sem_id)).count
    → (k.sem (my_sem k sem_id)).count < 2 ^ 31
    → sys_sem_signal (sys_sem_wait k sem_id).1 sem_id ≡ (0, k)
unfolding current
sys_sem_signal-sys_sem_wait k sem_id ok pos small =
    ap (λ r. sys_sem_signal r.1 sem_id) (sys_sem_wait_passes k sem_id ok pos small)
    ∙ sys_sem_signal_frees (taken k sem_id) sem_id (refused-taken k sem_id ok) (ground arith)
    ∙ ap (λ q. (0, q)) (signal-taken k sem_id pos)
