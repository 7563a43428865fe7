-- ===== src/Sys/Report.antt =====
-- sys.c: `sys_get_stats`, the outcomes of the call.
use native.Mathlib.Decide.{ℕ_discrete}
use zeos_soa.Base.{
  ℕ, zero, suc, ◌+◌, ◌≤◌, ◌<◌, ◌≡◌, ◌≢◌, inl, inr, subst, true, false, ◌==◌, Bool-cases, Option,
  none, some, is_neg, arith,
}
use zeos_soa.Errno.{einval, efault, esrch}
use zeos_soa.Mm.Paging.{nr_tasks}
use zeos_soa.Utils.{verify_write, access_ok}
use zeos_soa.Kernel.{Kernel, Stats, set_task}
use zeos_soa.Sys.{task_at, get_stats_loop, sys_get_stats}

-- The statistics of the task at an address, with what is left of the quantum now.
abbrev pub stats_now : Kernel → ℕ → Stats
stats_now k t = record ((k.task t).p_stats) { remaining_ticks = k.remaining_quantum }

-- The slots from `i` up to `n` hold no task with the PID `pid`.
abbrev pub NotAmong : Kernel → (pid i n : ℕ) → Type 0
NotAmong k pid i n = (j : ℕ) → i ≤ j → j < n → (k.task (task_at k j)).pid ≢ pid

-- What the call may come to.
pub data Reported (pid st : ℕ) (k : Kernel) : ℕ × Option Stats × Kernel → Type 0 where
  bad_place : access_ok verify_write st 28 none ≡ false → Reported pid st k (efault, none, k)
  negative :
      access_ok verify_write st 28 none ≡ true
      → is_neg pid ≡ true
      → Reported pid st k (einval, none, k)
  found :
      access_ok verify_write st 28 none ≡ true
      → is_neg pid ≡ false
      → (i : ℕ) → i < nr_tasks
      → (k.task (task_at k i)).pid ≡ pid
      → NotAmong k pid 0 i
      → Reported pid st k (
        0,
        some (stats_now k (task_at k i)),
        set_task k
            (task_at k i)
            (record (k.task (task_at k i)) { p_stats = stats_now k (task_at k i) }),
      )
  missing :
      access_ok verify_write st 28 none ≡ true
      → is_neg pid ≡ false
      → NotAmong k pid 0 nr_tasks
      → Reported pid st k (esrch, none, k)

module _ (pid st : ℕ) (k : Kernel) (ok : access_ok verify_write st 28 none ≡ true)
    (positive : is_neg pid ≡ false) where
  next-NotAmong :
      (i : ℕ) → NotAmong k pid 0 i → (k.task (task_at k i)).pid ≢ pid → NotAmong k pid 0 (i + 1)
  next-NotAmong i before other j lo hi = elim (ℕ_discrete j i) [
    | yes here ↦ λ e. other (subst (λ q. (k.task (task_at k q)).pid ≡ pid) here e)
    | no earlier ↦ before j lo (omega (arith, hi, earlier))
  ]

  get_stats_loop-Reported :
      (n i : ℕ)
      → i + n ≡ nr_tasks
      → NotAmong k pid 0 i
      → Reported pid st k (get_stats_loop n i pid k)
  unfolding get_stats_loop
  get_stats_loop-Reported zero i e before =
      missing ok positive (λ j lo hi. before j lo (omega (arith, e, hi)))
  get_stats_loop-Reported (suc n) i e before =
      elim (Bool-cases ((k.task (task_at k i)).pid == pid)) [
        | inl here ↦
            rw (here, get_stats_loop)
              (found ok positive i (omega (arith, e)) (ground (arith, here)) before)
        | inr other ↦
            rw (other, get_stats_loop)
              (get_stats_loop-Reported n (i + 1) (omega (arith, e))
                (next-NotAmong i before (ground (arith, other))))
      ]

-- `sys_get_stats` finds the first of the ten task structs with the PID, stores what is left of the
-- quantum in its statistics, changes nothing else and hands these statistics out; it returns ESRCH
-- if no struct has the PID, EINVAL for a negative one and EFAULT for a place that `access_ok` refuses
-- for writing, and then changes nothing.
pub sys_get_stats-Reported : (pid st : ℕ) (k : Kernel) → Reported pid st k (sys_get_stats pid st k)
unfolding sys_get_stats
sys_get_stats-Reported pid st k = elim (Bool-cases (access_ok verify_write st 28 none)) [
  | inr no_place ↦ rw (no_place, sys_get_stats) (bad_place no_place)
  | inl ok ↦ elim (Bool-cases (is_neg pid)) [
    | inl minus ↦ rw (ok, minus, sys_get_stats) (negative ok minus)
    | inr positive ↦
        rw (ok, positive, sys_get_stats)
          (get_stats_loop-Reported pid st k ok positive nr_tasks 0 (omega arith)
            (λ j lo hi. absurd (omega (arith, hi))))
  ]
]
