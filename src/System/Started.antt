-- ===== src/System/Started.antt =====
-- sched.c: the kernel's data after `init_sched`, `init_idle` and `init_task1`.
use zeos_soa.Base.{ℕ, ◌+◌, ◌-◌, ◌*◌, ◌/◌, ◌%◌, ◌^◌, ◌<◌, ◌≡◌, refl, sym, subst, ◌∙◌, [], arith}
use zeos_soa.KernelList.Ring.{IsRing}
use zeos_soa.Mm.Frames.{total_pages}
use zeos_soa.Mm.Paging.{init_heap, set_user_pages}
use zeos_soa.Kernel.{
  Kernel, set_links, st_run, kernel_stack_size, stack_at, get_ticks, init_stats, allocate_dir,
  get_dir, get_pt,
}
use zeos_soa.Sched.{
  default_quantum, num_sem, sem_at, blocked_of, free_sem, init_sched, set_up_idle, init_idle,
  set_up_task1, init_task1,
}
use zeos_soa.Sched.Sems.{init_sems_loop-rest, init_sems_loop_empty, sem-init_sems_loop}
use zeos_soa.System.Queues.{
  QueuesApart, FreeTasks, task_at, after_idle, task1_links, before_sems, sems_loop,
  init_task1-after, sems_loop-FreeTasks,
}

-- What the idle task's struct holds: the first switch to it returns into `cpu_idle`.
pub record IsIdle (cpu_idle t : ℕ) (k : Kernel) : Type 0 where
  pub pid : (k.task t).pid ≡ 0
  pub tid : (k.task t).tid ≡ 0
  pub quantum : (k.task t).total_quantum ≡ default_quantum
  pub stack : (k.task t).register_esp ≡ stack_at t (kernel_stack_size - 2)
  pub entry : k.word ((k.task t).register_esp + 4) ≡ cpu_idle
  pub chosen : k.idle_task ≡ t

-- What the struct of the first user process holds.
pub record IsFirst (t : ℕ) (k : Kernel) : Type 0 where
  pub pid : (k.task t).pid ≡ 1
  pub tid : (k.task t).tid ≡ 1
  pub state : (k.task t).state ≡ st_run
  pub quantum : (k.task t).total_quantum ≡ default_quantum
  pub heap : (k.task t).heap_start_proc ≡ init_heap
  pub heap_pointer : (k.task t).heap_pointer_proc ≡ init_heap
  pub heap_end : (k.task t).heap_end_proc ≡ total_pages * 2 ^ 12
  pub semafors : (k.task t).semafors ≡ k.at.semafor_proces
  pub dir : (k.task t).dir_pages_base_addr ≡ k.at.dir_pages + 4096

-- `k'` is `k` after the three calls.
pub record Started (cpu_idle : ℕ) (k k' : Kernel) : Type 0 where
  pub place : k'.at ≡ k.at
  pub queues : FreeTasks k.at k'.links 8 2
  pub sems : (j : ℕ) → j < num_sem → k'.sem (sem_at k.at.semafor_proces j) ≡ free_sem
  pub waiting :
      (j : ℕ) → j < num_sem → IsRing k'.links (blocked_of (sem_at k.at.semafor_proces j)) []
  pub idle : IsIdle cpu_idle (task_at k 0) k'
  pub first : IsFirst (task_at k 1) k'
  pub budget : k'.remaining_quantum ≡ default_quantum
  pub tss : k'.tss_esp0 ≡ stack_at (task_at k 1) kernel_stack_size
  pub msr : k'.msr_esp ≡ stack_at (task_at k 1) kernel_stack_size
  pub cr3 : k'.cr3 ≡ k.at.dir_pages + 4096
  pub pages :
      k'.page_mem
      ≡ (set_user_pages
          ((k.page_mem (k.at.dir_pages + 4096)).pbase_addr * 2 ^ 12 % 2 ^ 32)
          (k.phys_mem, k.page_mem)).1
  pub frames :
      k'.phys_mem
      ≡ (set_user_pages
          ((k.page_mem (k.at.dir_pages + 4096)).pbase_addr * 2 ^ 12 % 2 ^ 32)
          (k.phys_mem, k.page_mem)).0

-- The directory that `allocate_DIR` gives to the task at `c`, and the table it leads to.
abbrev dir_of : Kernel → ℕ → ℕ
dir_of k c = k.at.dir_pages + 4096 * ((c - k.at.task) / 4096)

abbrev table_at : Kernel → ℕ → ℕ
table_at k dir = (k.page_mem dir).pbase_addr * 2 ^ 12 % 2 ^ 32

set_up_task1-pages :
    (c : ℕ) (k : Kernel)
    → ((set_up_task1 c k).page_mem
        ≡ (set_user_pages (table_at k (dir_of k c)) (k.phys_mem, k.page_mem)).1)
      × ((set_up_task1 c k).phys_mem
          ≡ (set_user_pages (table_at k (dir_of k c)) (k.phys_mem, k.page_mem)).0)
unfolding set_up_task1 init_stats get_ticks allocate_dir get_pt
set_up_task1-pages c k = (ground arith, ground arith)

module _ (cpu_idle : ℕ) (k : Kernel) where
  second_dir : k.at.dir_pages + 4096 * ((task_at k 1 - k.at.task) / 4096) ≡ k.at.dir_pages + 4096
  second_dir = omega arith

  before_sems-IsIdle : IsIdle cpu_idle (task_at k 0) (before_sems cpu_idle k)
  unfolding set_up_idle set_up_task1 init_stats get_ticks allocate_dir
  before_sems-IsIdle = record {
    pid = ground arith;
    tid = ground arith;
    quantum = ground arith;
    stack = ground arith;
    entry = ground arith;
    chosen = omega arith;
  }

  before_sems-IsFirst : IsFirst (task_at k 1) (before_sems cpu_idle k)
  unfolding set_up_idle set_up_task1 init_stats get_ticks allocate_dir
  before_sems-IsFirst = record {
    pid = ground arith;
    tid = ground arith;
    state = ground arith;
    quantum = ground arith;
    heap = ground arith;
    heap_pointer = ground arith;
    heap_end = ground arith;
    semafors = ground arith;
    dir = ground (arith, second_dir);
  }

  task1_pages :
      let made = set_user_pages (table_at k (k.at.dir_pages + 4096)) (k.phys_mem, k.page_mem) in
      ((before_sems cpu_idle k).page_mem ≡ made.1) × ((before_sems cpu_idle k).phys_mem ≡ made.0)
  unfolding set_up_idle init_stats get_ticks allocate_dir
  task1_pages =
      subst
        (λ d.
          ((before_sems cpu_idle k).page_mem
            ≡ (set_user_pages (table_at k d) (k.phys_mem, k.page_mem)).1)
          × ((before_sems cpu_idle k).phys_mem
              ≡ (set_user_pages (table_at k d) (k.phys_mem, k.page_mem)).0))
        second_dir
        (set_up_task1-pages (task_at k 1) (set_links (after_idle cpu_idle k) (task1_links k)))

  module _ (a : QueuesApart k.at) where
    abbrev looped : Kernel
    looped = sems_loop cpu_idle k

    abbrev flat : Kernel
    flat = record (before_sems cpu_idle k) { sem = looped.sem; links = looped.links }

    flat-Started : Started cpu_idle k flat
    unfolding set_up_idle set_up_task1 init_stats get_ticks allocate_dir get_pt get_dir
    flat-Started =
        let idle = before_sems-IsIdle in
        let first = before_sems-IsFirst in
        record {
          place = refl;
          queues = sems_loop-FreeTasks cpu_idle k a;
          sems = λ j h.
              sem-init_sems_loop num_sem k.at.semafor_proces 0 j (before_sems cpu_idle k)
                (omega arith) h;
          waiting = λ j h.
              init_sems_loop_empty num_sem k.at.semafor_proces 0 j (before_sems cpu_idle k)
                (omega arith) h;
          idle = record {
            pid = idle.pid;
            tid = idle.tid;
            quantum = idle.quantum;
            stack = idle.stack;
            entry = idle.entry;
            chosen = idle.chosen;
          };
          first = record {
            pid = first.pid;
            tid = first.tid;
            state = first.state;
            quantum = first.quantum;
            heap = first.heap;
            heap_pointer = first.heap_pointer;
            heap_end = first.heap_end;
            semafors = first.semafors;
            dir = first.dir;
          };
          budget = ground arith;
          tss = refl;
          msr = refl;
          cr3 = ground (arith, second_dir);
          pages = task1_pages.0;
          frames = task1_pages.1;
        }

    -- The whole of it.
    pub init_task1-Started : Started cpu_idle k (init_task1 (init_idle cpu_idle (init_sched k)))
    init_task1-Started =
        subst (Started cpu_idle k)
          (sym (
            init_task1-after cpu_idle k a
            ∙ init_sems_loop-rest num_sem k.at.semafor_proces 0 (before_sems cpu_idle k)))
          flat-Started
