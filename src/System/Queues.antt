-- ===== src/System/Queues.antt =====
-- sched.c: the queues after `init_sched`, `init_idle` and `init_task1`.
use zeos_soa.Base.{
  ℕ, suc, ◌+◌, ◌*◌, ◌%◌, ◌^◌, ◌≤◌, ◌<◌, ◌≡◌, ◌≢◌, ◌∙◌, ap, [], ◌∷◌, Fresh, Disjoint-symm, arith,
}
use zeos_soa.KernelList.{Links, list_del}
use zeos_soa.KernelList.Ring.{IsRing, list_first-IsRing}
use zeos_soa.KernelList.Delete.{list_del-IsRing, list_del-frame}
use zeos_soa.Mm.Paging.{nr_tasks}
use zeos_soa.Kernel.{Kernel, Layout, list_of, set_links, get_ticks, init_stats, allocate_dir}
use zeos_soa.Sched.{
  take_free, num_sem, sem_at, blocked_of, init_sems_loop, init_sched, set_up_idle, init_idle,
  set_up_task1, init_task1,
}
use zeos_soa.Sched.Boot.{task_nodes, OffTasks, OffTasks-Fresh, init_sched-IsRing, init_sched-rest}
use zeos_soa.Sched.Turns.Moves.{head-node}
use zeos_soa.Sched.Sems.{SemsApart, init_sems_loop-IsRing}

-- The linker's addresses: the task array starts a page, and the list heads lie outside it.
pub record QueuesApart (at : Layout) : Type 0 where
  pub aligned : at.task % 2 ^ 12 ≡ 0
  pub small : at.task + 4096 * nr_tasks ≤ 2 ^ 32
  pub free_off : OffTasks at at.freequeue
  pub ready_off : OffTasks at at.readyqueue
  pub distinct : at.readyqueue ≢ at.freequeue
  pub there : at.readyqueue ≢ 0
  pub sems_off : (j : ℕ) → j < num_sem → OffTasks at (blocked_of (sem_at at.semafor_proces j))
  pub sems_free : SemsApart at.semafor_proces (at.freequeue ∷ [])
  pub sems_ready : SemsApart at.semafor_proces (at.readyqueue ∷ [])

-- The free queue holds `n` task structs from the `i`-th on, and no task is ready.
pub record FreeTasks (at : Layout) (l : Links) (n i : ℕ) : Type 0 where
  pub free : IsRing l at.freequeue (task_nodes n i at.task)
  pub ready : IsRing l at.readyqueue []

-- The address of `task[i]`.
abbrev pub task_at : Kernel → ℕ → ℕ
task_at k i = k.at.task + 4096 * i

head_of_free :
    (k : Kernel) (n i : ℕ)
    → k.at.task % 2 ^ 12 ≡ 0
    → FreeTasks k.at k.links (suc n) i
    → take_free k ≡ (task_at k i, set_links k (list_del k.links (list_of (task_at k i))))
head_of_free k n i aligned q =
    let t = task_at k i in
    rw (list_first-IsRing q.free) (
      ap (λ u. (u, set_links k (list_del k.links (list_of t))))
        (head-node t (omega (arith, aligned))))

rest_of_free :
    (k : Kernel) (n i : ℕ)
    → QueuesApart k.at
    → i + suc n ≤ nr_tasks
    → FreeTasks k.at k.links (suc n) i
    → FreeTasks k.at (list_del k.links (list_of (task_at k i))) n (i + 1)
rest_of_free k n i a h q =
    let e = list_of (task_at k i) in
    let rest = task_nodes n (i + 1) k.at.task in
    let off = OffTasks-Fresh k.at k.at.readyqueue (suc n) i a.ready_off h in
    record {
      free = list_del-IsRing [] e rest q.free;
      ready = list_del-frame [] e rest q.free q.ready (
          Disjoint-symm (k.at.readyqueue ∷ []) (k.at.freequeue ∷ e ∷ rest) ((a.distinct, off), tt));
    }

init_idle-eq :
    (cpu_idle : ℕ) (k : Kernel) (n i : ℕ)
    → k.at.task % 2 ^ 12 ≡ 0
    → FreeTasks k.at k.links (suc n) i
    → init_idle cpu_idle k
      ≡ set_up_idle cpu_idle (task_at k i) (set_links k (list_del k.links (list_of (task_at k i))))
unfolding init_idle
init_idle-eq cpu_idle k n i aligned q =
    ap (λ r. set_up_idle cpu_idle r.0 r.1) (head_of_free k n i aligned q)

init_task1-eq :
    (k : Kernel) (n i : ℕ)
    → k.at.task % 2 ^ 12 ≡ 0
    → FreeTasks k.at k.links (suc n) i
    → init_task1 k
      ≡ init_sems_loop num_sem k.at.semafor_proces 0
          (set_up_task1 (task_at k i) (set_links k (list_del k.links (list_of (task_at k i)))))
unfolding init_task1 set_up_task1 init_stats get_ticks allocate_dir
init_task1-eq k n i aligned q =
    ap (λ r. let k' = set_up_task1 r.0 r.1 in init_sems_loop num_sem k'.at.semafor_proces 0 k')
      (head_of_free k n i aligned q)

-- The states after `init_sched`, after `init_idle` and at the loop of `init_task1`, with the list
-- operations carried out.
abbrev pub scheduled : Kernel → Kernel
scheduled k = record k { links = (init_sched k).links; task = (init_sched k).task }

abbrev pub idle_links : Kernel → Links
idle_links k = list_del (init_sched k).links (list_of (task_at k 0))

abbrev pub after_idle : (cpu_idle : ℕ) → Kernel → Kernel
after_idle cpu_idle k = set_up_idle cpu_idle (task_at k 0) (set_links (scheduled k) (idle_links k))

abbrev pub task1_links : Kernel → Links
task1_links k = list_del (idle_links k) (list_of (task_at k 1))

abbrev pub before_sems : (cpu_idle : ℕ) → Kernel → Kernel
before_sems cpu_idle k =
    set_up_task1 (task_at k 1) (set_links (after_idle cpu_idle k) (task1_links k))

abbrev pub sems_loop : (cpu_idle : ℕ) → Kernel → Kernel
sems_loop cpu_idle k = init_sems_loop num_sem k.at.semafor_proces 0 (before_sems cpu_idle k)

module _ (cpu_idle : ℕ) (k : Kernel) (a : QueuesApart k.at) where
  sched_queues : FreeTasks k.at (init_sched k).links 10 0
  sched_queues =
      let (free, ready) = init_sched-IsRing k a.free_off a.ready_off a.distinct in
      record { free = free; ready = ready }

  idle_queues : FreeTasks k.at (idle_links k) 9 1
  idle_queues = rest_of_free (scheduled k) 9 0 a (omega arith) sched_queues

  task1_queues : FreeTasks k.at (task1_links k) 8 2
  task1_queues =
      rest_of_free (set_links (scheduled k) (idle_links k)) 8 1 a (omega arith) idle_queues

  init_idle-after : init_idle cpu_idle (init_sched k) ≡ after_idle cpu_idle k
  init_idle-after =
      ap (init_idle cpu_idle) (init_sched-rest k)
      ∙ init_idle-eq cpu_idle (scheduled k) 9 0 a.aligned sched_queues

  -- The calls of `main` from `init_sched` to `init_task1`, as one state.
  pub init_task1-after : init_task1 (init_idle cpu_idle (init_sched k)) ≡ sems_loop cpu_idle k
  unfolding set_up_idle init_stats get_ticks allocate_dir
  init_task1-after =
      ap init_task1 init_idle-after
      ∙ init_task1-eq (after_idle cpu_idle k) 8 1 a.aligned idle_queues

  sem_heads_away :
      (q n i j : ℕ)
      → SemsApart k.at.semafor_proces (q ∷ [])
      → i + n ≤ 10
      → j < num_sem
      → Fresh (blocked_of (sem_at k.at.semafor_proces j)) (q ∷ task_nodes n i k.at.task)
  sem_heads_away q n i j s l h = (
    (s j h).0,
    OffTasks-Fresh k.at (blocked_of (sem_at k.at.semafor_proces j)) n i (a.sems_off j h) l,
  )

  -- The loop over the semaphores leaves the two queues alone.
  pub sems_loop-FreeTasks : FreeTasks k.at (sems_loop cpu_idle k).links 8 2
  unfolding set_up_idle set_up_task1 init_stats get_ticks allocate_dir
  sems_loop-FreeTasks =
      let q = task1_queues in
      record {
        free =
            init_sems_loop-IsRing num_sem k.at.semafor_proces 0 (before_sems cpu_idle k)
              k.at.freequeue (task_nodes 8 2 k.at.task)
              (λ j l u. sem_heads_away k.at.freequeue 8 2 j a.sems_free (omega arith) u) q.free;
        ready =
            init_sems_loop-IsRing num_sem k.at.semafor_proces 0 (before_sems cpu_idle k)
              k.at.readyqueue [] (λ j l u. a.sems_ready j u) q.ready;
      }
