-- ===== src/Tasks/Forks.antt =====
-- sys.c: `sys_fork`, in the life of the tasks.
use zeos_soa.Base.{
  ℕ, ◌+◌, ◌^◌, ◌≤◌, ◌<◌, ◌≡◌, ◌≢◌, refl, sym, ap, ◌∙◌, subst, some, List, [], ◌∷◌, ◌++◌, Disjoint,
  arith, add32, sub32,
}
use zeos_soa.KernelList.{list_first}
use zeos_soa.KernelList.Ring.{IsRing, list_first-IsRing, list_empty_iff}
use zeos_soa.Mm.Paging.{num_pag_data}
use zeos_soa.Kernel.{
  Kernel, list_of, list_head_to_task_struct, current, get_pt, get_ticks, init_stats,
}
use zeos_soa.Sched.{num_sem, sem_at, blocked_of}
use zeos_soa.Sched.Boot.{OffTasks}
use zeos_soa.Sched.Sems.{SemsApart}
use zeos_soa.Sched.Turns.{nodes}
use zeos_soa.Sched.Turns.Moves.{head-node}
use zeos_soa.Sys.Fork.{start_child, sys_fork}
use zeos_soa.Sys.Fork.Frames.{FreeFrames}
use zeos_soa.Sys.Fork.Memory.{with_memory}
use zeos_soa.Sys.Fork.Prepare.{
  child_pt, at-prepared, CanCopy, registers-prepared, other-prepared, quantum-prepared,
}
use zeos_soa.Sys.Fork.Process.{
  child_of, taken, before, CanForkProcess, before-memory, sys_fork-eq, started-queues,
}
use zeos_soa.Tasks.{Population}
use zeos_soa.Tasks.Apart.{queues_apart, slots-OffTasks}
use zeos_soa.Tasks.Joins.{Joined, joined-Population}

-- What the call needs beside a struct that is free: twenty frames, a caller without a heap whose data
-- pages are mapped, semaphores apart from the task array and the queues, and the frame pointer in the
-- caller's page.
pub record HasMemory (k : Kernel) (g : ℕ → ℕ) : Type 0 where
  pub sems_off :
      (j : ℕ) → j < num_sem → OffTasks k.at (blocked_of (sem_at (k.task (current k)).semafors j))
  pub sems_free : SemsApart (k.task (current k)).semafors (k.at.freequeue ∷ [])
  pub sems_ready : SemsApart (k.task (current k)).semafors (k.at.readyqueue ∷ [])
  pub frames : FreeFrames num_pag_data k.phys_mem g
  pub layout :
      CanCopy
        (get_pt k (current k))
        (child_pt k (child_of k))
        (k.task (current k))
        k.page_mem
        k.phys_mem
  pub frame : (current k + 4 ≤ k.ebp) × (k.ebp + 4 < current k + 2 ^ 12)

-- What the end of the call leaves as it was.
module _ (parent child ret : ℕ) (k : Kernel) where
  abbrev made : Kernel
  made = (start_child parent child ret k).1

  made-rest : (made.at ≡ k.at) × (made.esp ≡ k.esp) × (made.remaining_quantum ≡ k.remaining_quantum)
  unfolding start_child init_stats get_ticks
  made-rest = (refl, refl, refl)

  made-others : (u : ℕ) → u ≢ child → made.task u ≡ k.task u
  unfolding start_child init_stats get_ticks
  made-others u other = ground arith

  made-quantum : (made.task child).total_quantum ≡ (k.task child).total_quantum
  unfolding start_child init_stats get_ticks
  made-quantum = ground arith

  made-stack : (made.task child).register_esp ≡ sub32 (add32 (sub32 k.ebp parent) child) 4
  unfolding start_child init_stats get_ticks
  made-stack = ground arith

module _ (ret : ℕ) (k : Kernel) (f : ℕ) (ts fs : List ℕ) (g : ℕ → ℕ)
    (p : Population k (current k) ts (f ∷ fs)) (room : HasMemory k g) where
  first : list_first k.links k.at.freequeue ≡ list_of f
  first = list_first-IsRing p.free

  same : child_of k ≡ f
  same = ap list_head_to_task_struct first ∙ head-node f p.free_slots.0.0

  can_fork : CanForkProcess k (nodes ts) (nodes fs) g
  can_fork =
      let n = list_first k.links k.at.freequeue in
      record {
        free = subst (λ z. IsRing k.links k.at.freequeue (z ∷ nodes fs)) (sym first) p.free;
        ready = p.turn.queue;
        apart =
            subst (λ z. Disjoint (k.at.freequeue ∷ z ∷ nodes fs) (k.at.readyqueue ∷ nodes ts))
              (sym first) (queues_apart k (current k) ts (f ∷ fs) p);
        sems_free = λ j h. (
          (room.sems_free j h).0,
          slots-OffTasks k.at (blocked_of (sem_at (k.task (current k)).semafors j)) fs
              (room.sems_off j h) p.free_slots.1,
        );
        sems_ready = λ j h. (
          (room.sems_ready j h).0,
          slots-OffTasks k.at (blocked_of (sem_at (k.task (current k)).semafors j)) ts
              (room.sems_off j h) p.busy_slots.1,
        );
        node = first ∙ sym (ap list_of same);
        other = λ e. p.apart.0.0 (sym same ∙ e);
        frames = room.frames;
        layout = room.layout;
      }

  module _ (k5 : Kernel)
      (kept : k5 ≡ with_memory (before k) k5.page_mem k5.phys_mem k5.frame_data) where
    abbrev child : ℕ
    child = child_of k

    abbrev forked : Kernel
    forked = made (current k) child ret k5

    fork-Joined : Joined k forked child ts fs
    unfolding current
    fork-Joined =
        let c = current k in
        let k0 = taken k in
        let (place, stack, budget) = made-rest c child ret k5 in
        let (esp, ebp, left) = registers-prepared k0 c child in
        let other : c ≢ child = λ e. can_fork.other (sym e) in
        let task_of : (u : ℕ) → u ≢ child → forked.task u ≡ k.task u = λ u ne.
          made-others c child ret k5 u ne
          ∙ ap (λ (q : Kernel). q.task u) kept
          ∙ other-prepared k0 c child u ne in
        let ebp5 : k5.ebp ≡ k.ebp = ap (λ (q : Kernel). q.ebp) kept ∙ ebp in
        let queues = started-queues ret k (nodes ts) (nodes fs) g k5 can_fork kept in
        record {
          place = place ∙ ap (λ (q : Kernel). q.at) kept ∙ at-prepared k0 c child;
          stack = stack ∙ ap (λ (q : Kernel). q.esp) kept ∙ esp;
          budget = budget ∙ ap (λ (q : Kernel). q.remaining_quantum) kept ∙ left;
          running = ap (λ t. t.state) (task_of c other);
          quanta = λ u ne. ap (λ t. t.total_quantum) (task_of u ne);
          stacks = λ u ne. ap (λ t. t.register_esp) (task_of u ne);
          quantum =
              made-quantum c child ret k5
              ∙ ap (λ (q : Kernel). (q.task child).total_quantum) kept
              ∙ quantum-prepared k0 c child;
          own = omega (
            arith,
            made-stack c child ret k5,
            ebp5,
            room.frame,
            same,
            p.free_slots.0,
            p.busy_slots.0,
          );
          ready = queues.0;
          free = queues.1;
        }

  -- The child waits behind the others.
  pub fork-Population :
      (pid : ℕ) × (k' : Kernel) × (sys_fork ret k ≡ some (pid, k'))
      × Population k' (current k) (ts ++ (f ∷ [])) fs
  fork-Population =
      let (k4, k5, e, e', kept, mem) = before-memory k (nodes ts) (nodes fs) g can_fork in
      let r = start_child (current k) (child_of k) ret k5 in
      (
        r.0,
        r.1,
        sys_fork-eq ret k k4 k5 num_pag_data
            (list_empty_iff k.links k.at.freequeue (list_first k.links k.at.freequeue ∷ nodes fs)
              can_fork.free)
            e e',
        joined-Population k r.1 f ts fs p
            (subst (λ u. Joined k r.1 u ts fs) same (fork-Joined k5 kept)),
      )
