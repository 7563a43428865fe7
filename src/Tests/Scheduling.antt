-- ===== src/Tests/Scheduling.antt =====
-- Applications of the theorems on the scheduler, the clock and the end of a task.
use zeos_soa.Base.{[], ◌∷◌, arith, refl}
use zeos_soa.Kernel.{current, list_head_to_task_struct}
use zeos_soa.Sched.{schedule, force_task_switch}
use zeos_soa.Sched.Policy.{CanRotate, Rotated, schedule-Rotated, force_task_switch-Rotated}
use zeos_soa.Interrupt.{clock_routine}
use zeos_soa.Interrupt.Clock.{clock_routine-Rotated}
use zeos_soa.Sys.Exit.{CanEnd, Ended, sys_exit, sys_exit-Ended}
use zeos_soa.Tests.State.{machine, n2, n3, n4, ready-IsRing, free-IsRing}

machine-CanRotate : CanRotate machine n2 (n3 ∷ [])
unfolding current list_head_to_task_struct
machine-CanRotate = record {
  ring = ready-IsRing;
  running = refl;
  there = omega arith;
  apart = omega arith;
  fresh = omega arith;
  other = omega arith;
}

machine-CanEnd : CanEnd machine n2 (n3 ∷ []) (n4 ∷ [])
unfolding current list_head_to_task_struct
machine-CanEnd = record {
  ready = ready-IsRing;
  free = free-IsRing;
  other = omega arith;
  not_head = omega arith;
  not_free = omega arith;
  not_ready = omega arith;
  apart = omega arith;
}

schedule-Rotated_example :
    Rotated machine (schedule machine) (list_head_to_task_struct n2) (n3 ∷ [])
schedule-Rotated_example = schedule-Rotated machine n2 (n3 ∷ []) refl machine-CanRotate

force_task_switch-Rotated_example :
    Rotated machine (force_task_switch machine) (list_head_to_task_struct n2) (n3 ∷ [])
force_task_switch-Rotated_example = force_task_switch-Rotated machine n2 (n3 ∷ []) machine-CanRotate

clock_routine-Rotated_example :
    Rotated machine (clock_routine (λ n c. c) machine) (list_head_to_task_struct n2) (n3 ∷ [])
clock_routine-Rotated_example =
    clock_routine-Rotated (λ n c. c) machine n2 (n3 ∷ []) refl machine-CanRotate

sys_exit-Ended_example :
    Ended machine (sys_exit machine) (list_head_to_task_struct n2) (n3 ∷ []) (n4 ∷ [])
unfolding current
sys_exit-Ended_example = sys_exit-Ended machine n2 (n3 ∷ []) (n4 ∷ []) machine-CanEnd (omega arith)
