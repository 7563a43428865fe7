-- ===== src/Tests/Forking.antt =====
-- Applications of the theorems on new processes.
use zeos_soa.Base.{
  ℕ, ◌+◌, ◌-◌, ◌*◌, ◌/◌, ◌≡◌, inl, [], ◌∷◌, refl, arith, ◌&&◌, ◌==◌, leb, ltb, if◌then◌else◌, some,
}
use zeos_soa.Errno.{eagain}
use zeos_soa.KernelList.{list_first}
use zeos_soa.Mm.Paging.{PageMem, mapping, zero_entry, get_frame, num_pag_data}
use zeos_soa.Kernel.{Kernel, current, list_head_to_task_struct, get_pt}
use zeos_soa.Sys.Fork.{sys_fork}
use zeos_soa.Sys.Fork.Frames.{FreeFrames}
use zeos_soa.Sys.Fork.Prepare.{CanCopy}
use zeos_soa.Sys.Fork.Process.{CanForkProcess, ForkedProcess, sys_fork-ForkedProcess}
use zeos_soa.Sys.Fork.Refusal.{CannotFork, ForkUndone, sys_fork-ForkUndone}
use zeos_soa.Tests.State.{machine, n2, n3, ready-IsRing, free-IsRing}

-- The tables of tasks 1 and 4 are at 0x31000 and 0x34000; task 1 has frames 600 to 619.
abbrev pages : PageMem
pages a =
    if a == 0x21000
    then mapping 0x31 1 1
    else if a == 0x24000
    then mapping 0x34 1 1
    else if leb 0x31420 a && ltb a 0x31470
    then mapping (600 + (a - 0x31420) / 4) 1 1
    else zero_entry

abbrev forking : Kernel
forking = record machine {
  page_mem = pages;
  phys_mem = λ f. if leb 600 f && ltb f 620 then 1 else 0;
}

forking-FreeFrames : FreeFrames num_pag_data forking.phys_mem (λ i. 256 + 2 * i)
forking-FreeFrames = record {
  user = λ i l. omega arith;
  free = λ i l. ground arith;
  distinct = λ i j l u. omega arith;
}

forking-CanCopy : CanCopy 0x31000 0x34000 (forking.task 0x11000) forking.page_mem forking.phys_mem
unfolding get_frame
forking-CanCopy = record {
  apart = inl (omega arith);
  dir_kept = λ j l. omega arith;
  no_heap = omega arith;
  present = λ p d. ground arith;
  used = λ p d. ground arith;
}

forking-CanForkProcess : CanForkProcess forking (n2 ∷ n3 ∷ []) [] (λ i. 256 + 2 * i)
unfolding current list_head_to_task_struct list_first get_pt
forking-CanForkProcess = record {
  free = free-IsRing;
  ready = ready-IsRing;
  apart = omega arith;
  sems_free = λ j l. omega arith;
  sems_ready = λ j l. omega arith;
  node = refl;
  other = omega arith;
  frames = forking-FreeFrames;
  layout = forking-CanCopy;
}

sys_fork-ForkedProcess_example :
    (pid : ℕ) × (k' : Kernel) × (sys_fork 0x10600 forking ≡ some (pid, k'))
    × ForkedProcess forking (n2 ∷ n3 ∷ []) [] pid k'
sys_fork-ForkedProcess_example =
    sys_fork-ForkedProcess 0x10600 forking (n2 ∷ n3 ∷ []) [] (λ i. 256 + 2 * i)
      forking-CanForkProcess

-- No frame is free.
abbrev exhausted : Kernel
exhausted = record forking { phys_mem = λ f. 1 }

exhausted-CannotFork : CannotFork exhausted []
unfolding current list_head_to_task_struct list_first
exhausted-CannotFork = record {
  free = free-IsRing;
  sems_free = λ j l. omega arith;
  node = refl;
  first_used = refl;
  too_few = λ g h. omega (arith, h.free 0 (omega arith));
}

sys_fork-ForkUndone_example :
    (k' : Kernel) × (sys_fork 0x10600 exhausted ≡ some (eagain, k')) × ForkUndone exhausted [] k'
sys_fork-ForkUndone_example = sys_fork-ForkUndone 0x10600 exhausted [] exhausted-CannotFork
