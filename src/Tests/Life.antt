-- ===== src/Tests/Life.antt =====
-- Applications of the theorems on the life of the tasks: the running task of the small state ends,
-- and the machine that `main` started takes a tick.
use zeos_soa.Base.{ℕ, ◌≡◌, [], ◌∷◌, refl, arith}
use zeos_soa.Io.{Console}
use zeos_soa.Kernel.{Kernel, current}
use zeos_soa.Sched.Turns.{enter}
use zeos_soa.Interrupt.{clock_routine}
use zeos_soa.Sys.Exit.{sys_exit}
use zeos_soa.KernelList.{list_empty}
use zeos_soa.System.Booted.{main-Booted}
use zeos_soa.System.Runs.{slots, in_kernel, main-Run}
use zeos_soa.Tasks.{Population}
use zeos_soa.Tasks.Life.{
  Spec, Change, finish, Event, act_of, Shows, works, ticks, exits, Event-Change,
}
use zeos_soa.Tasks.Runs.{Run, here, next, members, total}
use zeos_soa.Tests.State.{machine, t1, t2, t3, free-IsRing}
use zeos_soa.Tests.Turns.{machine-Turn}
use zeos_soa.Tests.Booting.{symbols, started, started-CanBoot}

abbrev no_clock : ℕ → Console → Console
no_clock n s = s

abbrev t4 : ℕ
t4 = 0x14000

machine-Population : Population machine t1 (t2 ∷ t3 ∷ []) (t4 ∷ [])
machine-Population = record {
  turn = machine-Turn;
  free = free-IsRing;
  heads = omega arith;
  busy_slots = omega arith;
  free_slots = omega arith;
  free_distinct = omega arith;
  apart = omega arith;
}

abbrev before : Spec
before = record { running = t1; ready = t2 ∷ t3 ∷ []; free = t4 ∷ [] }

machine_exits : Event no_clock machine (sys_exit machine)
unfolding list_empty current
machine_exits = exits refl (omega arith)

-- The move is the end of the running task.
Event-Change_example : (s' : Spec) × Change before s' finish × Shows (sys_exit machine) s'
unfolding act_of machine_exits
Event-Change_example =
    Event-Change no_clock machine (sys_exit machine) before machine-Population machine_exits

-- The first process enters the kernel with 0x100 bytes on its stack.
abbrev first : Kernel
first = in_kernel (λ idt. idt) symbols started started-CanBoot 0x11f00

abbrev working : Kernel
working = enter first 0x11e00 0x11e10 (λ _. 0)

working-Run : Run no_clock first (clock_routine no_clock working)
unfolding current
working-Run = next (next here (works 0x11e00 0x11e10 (λ _. 0) (omega arith))) (ticks (omega arith))

main-Run_example :
    (s : Spec) × Shows (clock_routine no_clock working) s
    × ((weight : ℕ → ℕ) → total weight (members s) ≡ total weight (slots 9 1 0x10000))
main-Run_example =
    main-Run (λ idt. idt) symbols started started-CanBoot no_clock 0x11f00
      (clock_routine no_clock working) (omega arith)
      (omega (arith, (main-Booted (λ idt. idt) symbols started started-CanBoot).stacks.0))
      working-Run
