-- ===== src/System/Runs.antt =====
-- The kernel from its start: system.c and all that follows.
use zeos_soa.Base.{
  ℕ, zero, suc, ◌+◌, ◌*◌, ◌≤◌, ◌<◌, ◌≡◌, ◌≢◌, refl, sym, ap, subst, List, [], ◌∷◌, All, Fresh,
  Distinct, Disjoint, arith,
}
use zeos_soa.KernelList.Ring.{IsRing}
use zeos_soa.Mm.Paging.{nr_tasks}
use zeos_soa.Io.{Console}
use zeos_soa.Kernel.{Kernel, Layout, list_of}
use zeos_soa.Sched.Boot.{task_nodes}
use zeos_soa.Sched.Turns.{nodes}
use zeos_soa.Interrupt.{Gate}
use zeos_soa.System.{Machine, Symbols, main}
use zeos_soa.System.Queues.{QueuesApart, task_at}
use zeos_soa.System.Booted.{CanBoot, main-Booted}
use zeos_soa.Tasks.{IsSlot}
use zeos_soa.Tasks.Life.{Spec, Shows}
use zeos_soa.Tasks.Runs.{Run, members, total, Run-Changes}

-- `n` task structs of the array, from the `i`-th on.
abbrev pub slots : (n i task : ℕ) → List ℕ
slots zero i task = []
slots (suc n) i task = (task + 4096 * i) ∷ slots n (i + 1) task

nodes-slots : (n i task : ℕ) → nodes (slots n i task) ≡ task_nodes n i task
nodes-slots zero i task = refl
nodes-slots (suc n) i task = ap (λ l. list_of (task + 4096 * i) ∷ l) (nodes-slots n (i + 1) task)

slots-IsSlot :
    (n i : ℕ) (at : Layout)
    → QueuesApart at
    → i + n ≤ nr_tasks
    → All (IsSlot at) (slots n i at.task)
slots-IsSlot zero i at a h = tt
slots-IsSlot (suc n) i at a h =
    let free = a.free_off in
    let ready = a.ready_off in
    (
      (
        omega (arith, a.aligned),
        λ e. omega (arith, free, e, h),
        λ e. omega (arith, ready, e, h),
        omega arith,
        omega (arith, h),
        omega (arith, a.small, h),
      ),
      slots-IsSlot n (i + 1) at a (omega (arith, h)),
    )

below-Fresh : (n i task a : ℕ) → a < task + 4096 * i → Fresh a (slots n i task)
below-Fresh zero i task a h = tt
below-Fresh (suc n) i task a h =
    ((λ e. omega (arith, h, e)), below-Fresh n (i + 1) task a (omega (arith, h)))

slots-Distinct : (n i task : ℕ) → Distinct (slots n i task)
slots-Distinct zero i task = tt
slots-Distinct (suc n) i task =
    (below-Fresh n (i + 1) task (task + 4096 * i) (omega arith), slots-Distinct n (i + 1) task)

slots-Disjoint : (n i task a : ℕ) → a < task + 4096 * i → Disjoint (slots n i task) (a ∷ [])
slots-Disjoint zero i task a h = tt
slots-Disjoint (suc n) i task a h =
    (((λ e. omega (arith, h, e)), tt), slots-Disjoint n (i + 1) task a (omega (arith, h)))

-- The first process runs, no task waits, and the structs behind its own are free.
abbrev pub first_spec : ℕ → Spec
first_spec task = record { running = task + 4096 * 1; ready = []; free = slots 8 2 task }

module _ (set_handlers : (ℕ → Gate) → ℕ → Gate) (at : Symbols) (m : Machine)
    (b : CanBoot at m) where
  -- The first process in the kernel, its stack pointer at `esp`.
  abbrev pub in_kernel : ℕ → Kernel
  in_kernel esp = record (main set_handlers at m).kernel { esp = esp }

  booted-Shows :
      (esp : ℕ)
      → task_at m.kernel 1 + 4 ≤ esp
      → esp ≤ (main set_handlers at m).kernel.tss_esp0
      → Shows (in_kernel esp) (first_spec m.kernel.at.task)
  booted-Shows esp lo hi =
      let booted = main-Booted set_handlers at m b in
      let task = m.kernel.at.task in
      let a = b.queues in
      let same = sym booted.place in
      let slot = slots-IsSlot 9 1 m.kernel.at a (omega arith) in
      let free =
        subst (IsRing (in_kernel esp).links m.kernel.at.freequeue) (sym (nodes-slots 8 2 task))
          booted.queues.free in
      record {
        turn = booted.turn esp lo hi;
        free =
            subst (λ l. IsRing (in_kernel esp).links l.freequeue (nodes (slots 8 2 task))) same
              free;
        heads = subst (λ l. l.freequeue ≢ l.readyqueue) same (λ e. a.distinct (sym e));
        busy_slots = subst (λ l. All (IsSlot l) (task_at m.kernel 1 ∷ [])) same (slot.0, tt);
        free_slots = subst (λ l. All (IsSlot l) (slots 8 2 task)) same slot.1;
        free_distinct = slots-Distinct 8 2 task;
        apart = slots-Disjoint 8 2 task (task_at m.kernel 1) (omega arith);
      }

  -- From the start of the kernel on: when `main` is done, the first process has entered the kernel,
  -- and then ticks, yields, exits, threads and forks follow in any order and number, each with what
  -- it needs, the kernel's state shows the task that runs, the ready queue and the free queue, and
  -- these hold exactly the nine task structs behind the idle task's, each once: the sums over them,
  -- whatever is summed, agree.
  pub main-Run :
      (show_clock : ℕ → Console → Console) (esp : ℕ) (k : Kernel)
      → task_at m.kernel 1 + 4 ≤ esp
      → esp ≤ (main set_handlers at m).kernel.tss_esp0
      → Run show_clock (in_kernel esp) k
      → (s : Spec) × Shows k s
        × ((weight : ℕ → ℕ) → total weight (members s) ≡ total weight (slots 9 1 m.kernel.at.task))
  main-Run show_clock esp k lo hi run =
      let (s, _, shown, same) =
        Run-Changes show_clock (in_kernel esp) k (first_spec m.kernel.at.task)
          (booted-Shows esp lo hi) run in
      (s, shown, λ a. sym (same a))
