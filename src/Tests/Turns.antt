-- ===== src/Tests/Turns.antt =====
-- Applications of the theorems on turns: a machine that enters the kernel by ticks for ever.
use zeos_soa.Base.{ℕ, zero, suc, ◌+◌, ◌≤◌, ◌≡◌, [], ◌∷◌, refl, arith}
use zeos_soa.KernelList.Ring.{IsRing}
use zeos_soa.Io.{Console}
use zeos_soa.Kernel.{Kernel, current}
use zeos_soa.Sched.{force_task_switch}
use zeos_soa.Sched.Alone.{force_task_switch_alone}
use zeos_soa.Sched.Turns.{Turn, Step, tick, enter}
use zeos_soa.Sched.Turns.Fair.{Moved, Step-Moved}
use zeos_soa.Sched.Turns.Liveness.{runs_eventually}
use zeos_soa.Interrupt.{clock_routine}
use zeos_soa.Tests.State.{machine, t1, t2, t3, ready-IsRing, lone_links, lone-IsRing}

abbrev no_clock : ℕ → Console → Console
no_clock n s = s

pub machine-Turn : Turn machine t1 (t2 ∷ t3 ∷ [])
unfolding current
machine-Turn = record {
  now = refl;
  running = refl;
  queue = ready-IsRing;
  there = omega arith;
  tasks = omega arith;
  stacks = omega arith;
  distinct = omega arith;
  apart = omega arith;
  budget = omega arith;
}

-- Every task enters with its pointers near the end of its page.
ticking : ℕ → Kernel
ticking zero = machine
ticking (suc n) =
    let k = ticking n in
    clock_routine no_clock (enter k (current k + 0xf00) (current k + 0xf00) k.word)

ticking-Step : (n : ℕ) → Step no_clock (ticking n) (ticking (suc n))
unfolding ticking current
ticking-Step n =
    tick (current (ticking n) + 0xf00) (current (ticking n) + 0xf00) (ticking n).word (omega arith)

Step-Moved_example : Moved machine (ticking 1) t1 t2 (t3 ∷ [])
unfolding ticking
Step-Moved_example =
    Step-Moved no_clock machine (ticking 1) t1 t2 (t3 ∷ []) machine-Turn (ticking-Step 0)

runs_eventually_example : (m : ℕ) × (m ≤ 11) × (current (ticking m) ≡ t3)
unfolding ticking
runs_eventually_example =
    runs_eventually no_clock 11 ticking t1 (t2 ∷ []) t3 [] ticking-Step machine-Turn (omega arith)

abbrev alone : Kernel
alone = record machine { links = lone_links }

force_task_switch_alone_example :
    ((force_task_switch alone).esp ≡ (alone.task (current alone)).register_esp + 8)
    × IsRing (force_task_switch alone).links 0x1008 []
unfolding current
force_task_switch_alone_example =
    force_task_switch_alone alone refl (omega arith) lone-IsRing (omega arith)
