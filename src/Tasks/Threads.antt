-- ===== src/Tasks/Threads.antt =====
-- sys.c: `sys_threadCreate`, in the life of the tasks.
use zeos_soa.Base.{
  ℕ, ◌-◌, ◌/◌, ◌<◌, ◌≡◌, ◌≢◌, refl, sym, ap, ◌∙◌, subst, false, some, List, [], ◌∷◌, ◌++◌, arith,
  neg,
}
use zeos_soa.Mm.Frames.{total_pages, alloc_frame}
use zeos_soa.Mm.Paging.{page_size}
use zeos_soa.Kernel.{
  Kernel, list_of, list_head_to_task_struct, current, kernel_stack_size, stack_at, get_ticks,
  init_stats,
}
use zeos_soa.Sched.Turns.{nodes}
use zeos_soa.Sched.Turns.Moves.{head-node}
use zeos_soa.Sys.{copy_union}
use zeos_soa.Sys.Heap.{heap_pointer}
use zeos_soa.Sys.Thread.{bad_pointers, thread_union, start_thread, sys_thread_create}
use zeos_soa.Sys.Thread.Fields.{
  with_stack, give_stack-eq, taken, unioned, sys_thread_create-eq, parent-thread_union,
  memory-thread_union,
}
use zeos_soa.Sys.Thread.Spawn.{CanSpawn, Spawned, spawn-Spawned}
use zeos_soa.Tasks.{Population}
use zeos_soa.Tasks.Apart.{queues_apart}
use zeos_soa.Tasks.Joins.{Joined, joined-Population}

-- What the parts of the call leave as it was.
module _ (k : Kernel) (c t pag function parameter wrapp : ℕ) (ne : t ≢ c) where
  abbrev made : Kernel
  made = thread_union k c t

  abbrev begun : Kernel
  begun = (start_thread t pag wrapp (with_stack c t function parameter made)).1

  begun-rest :
      (begun.at ≡ k.at) × (begun.esp ≡ k.esp) × (begun.remaining_quantum ≡ k.remaining_quantum)
  unfolding thread_union copy_union start_thread init_stats get_ticks
  begun-rest = (refl, refl, refl)

  begun-running : (begun.task c).state ≡ (k.task c).state
  unfolding thread_union copy_union start_thread init_stats get_ticks
  begun-running = ground arith

  begun-quanta : (u : ℕ) → u ≢ t → (begun.task u).total_quantum ≡ (k.task u).total_quantum
  unfolding thread_union copy_union start_thread init_stats get_ticks
  begun-quanta u other = ground arith

  begun-stacks : (u : ℕ) → u ≢ t → (begun.task u).register_esp ≡ (k.task u).register_esp
  unfolding thread_union copy_union start_thread init_stats get_ticks
  begun-stacks u other = ground arith

  begun-quantum : (begun.task t).total_quantum ≡ (k.task c).total_quantum
  unfolding thread_union copy_union start_thread init_stats get_ticks
  begun-quantum = ground arith

  begun-stack : (begun.task t).register_esp ≡ stack_at t (kernel_stack_size - 18)
  unfolding thread_union copy_union start_thread init_stats get_ticks
  begun-stack = ground arith

-- What the call needs beside a struct that is free.
pub record HasRoom (k : Kernel) (function parameter wrapp : ℕ) : Type 0 where
  pub pointers : bad_pointers k function parameter wrapp ≡ false
  pub page : heap_pointer k (current k) / page_size < total_pages
  pub frame : (alloc_frame k.phys_mem).0 ≢ neg 1

module _ (k : Kernel) (function parameter wrapp f : ℕ) (ts fs : List ℕ)
    (p : Population k (current k) ts (f ∷ fs)) (room : HasRoom k function parameter wrapp) where
  abbrev n : ℕ
  n = list_of f

  same : list_head_to_task_struct n ≡ f
  same = head-node f p.free_slots.0.0

  can_spawn : CanSpawn k function parameter wrapp n (nodes ts) (nodes fs)
  can_spawn = record {
    pointers = room.pointers;
    free = p.free;
    ready = p.turn.queue;
    apart = queues_apart k (current k) ts (f ∷ fs) p;
    node = ap list_of same;
    other = λ e. p.apart.0.0 (sym same ∙ e);
    page = room.page;
    frame = room.frame;
  }

  abbrev union : Kernel
  union = unioned k n

  abbrev started : ℕ × Kernel
  started =
      start_thread (list_head_to_task_struct n) (heap_pointer union (current k) / page_size) wrapp
        (with_stack (current k) (list_head_to_task_struct n) function parameter union)

  started-eq : sys_thread_create function parameter wrapp k ≡ some started
  started-eq =
      let par =
        parent-thread_union (taken k n) (current k) (list_head_to_task_struct n) can_spawn.other in
      let mem = memory-thread_union (taken k n) (current k) (list_head_to_task_struct n) in
      sys_thread_create-eq k function parameter wrapp n (nodes fs) room.pointers p.free
      ∙ give_stack-eq (current k) (list_head_to_task_struct n) function parameter wrapp union
          (subst (λ t. t.heap_pointer_proc / page_size < total_pages) (sym par) room.page)
          (subst (λ m. (alloc_frame m).0 ≢ neg 1) (sym mem.0) room.frame)

  started-Spawned : Spawned k started (list_head_to_task_struct n) (nodes ts) (nodes fs)
  started-Spawned = spawn-Spawned k function parameter wrapp n (nodes ts) (nodes fs) can_spawn

  begun-Joined : Joined k started.1 (list_head_to_task_struct n) ts fs
  unfolding current
  begun-Joined =
      let c = current k in
      let t = list_head_to_task_struct n in
      let k0 = taken k n in
      let ne = can_spawn.other in
      let pag = heap_pointer union c / page_size in
      let (place, stack, budget) = begun-rest k0 c t pag function parameter wrapp ne in
      let s = started-Spawned in
      record {
        place = place;
        stack = stack;
        budget = budget;
        running = begun-running k0 c t pag function parameter wrapp ne;
        quanta = λ u other. begun-quanta k0 c t pag function parameter wrapp ne u other;
        stacks = λ u other. begun-stacks k0 c t pag function parameter wrapp ne u other;
        quantum = begun-quantum k0 c t pag function parameter wrapp ne;
        own =
            omega (arith, begun-stack k0 c t pag function parameter wrapp ne, same, p.free_slots.0);
        ready = s.ready;
        free = s.free;
      }

  -- The thread waits behind the others.
  pub thread_create-Population :
      (r : ℕ × Kernel) × (sys_thread_create function parameter wrapp k ≡ some r)
      × Population r.1 (current k) (ts ++ (f ∷ [])) fs
  thread_create-Population = (
    started,
    started-eq,
    joined-Population k started.1 f ts fs p
        (subst (λ u. Joined k started.1 u ts fs) same begun-Joined),
  )
