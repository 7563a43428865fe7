-- ===== src/Tests/State.antt =====
-- A small kernel state: task 1 runs, tasks 2 and 3 are ready, task 4 is free, and task 5 is blocked
-- on semaphore 0.
use zeos_soa.Base.{ℕ, ◌+◌, ◌*◌, [], ◌∷◌, arith, neg, update}
use zeos_soa.KernelList.{Links}
use zeos_soa.KernelList.Ring.{IsRing}
use zeos_soa.Mm.Paging.{zero_entry, init_heap}
use zeos_soa.Kernel.{Kernel, Task, TaskState, st_run, st_ready, st_blocked, Stats, Layout}
use zeos_soa.Sched.{free_sem}

abbrev pub zero_stats : Stats
zero_stats = record {
  user_ticks = 0;
  system_ticks = 0;
  blocked_ticks = 0;
  ready_ticks = 0;
  elapsed_total_ticks = 0;
  total_trans = 0;
  remaining_ticks = 0;
}

abbrev pub layout : Layout
layout = record {
  task = 0x10000;
  dir_pages = 0x20000;
  pagusr_table = 0x30000;
  freequeue = 0x1000;
  readyqueue = 0x1008;
  semafor_proces = 0x2000;
}

abbrev pub t1 : ℕ
t1 = 0x11000

abbrev pub t2 : ℕ
t2 = 0x12000

abbrev pub t3 : ℕ
t3 = 0x13000

abbrev pub n1 : ℕ
n1 = 0x1100c

abbrev pub n2 : ℕ
n2 = 0x1200c

abbrev pub n3 : ℕ
n3 = 0x1300c

abbrev pub n4 : ℕ
n4 = 0x1400c

abbrev pub n5 : ℕ
n5 = 0x1500c

-- The address of semaphore 0's `blocked` head.
abbrev pub b0 : ℕ
b0 = 0x2008

abbrev a_task : ℕ → TaskState → Task
a_task i s = record {
  pid = 1;
  tid = i;
  dir_pages_base_addr = 0x20000 + 4096 * i;
  register_esp = 0x10000 + 4096 * i + 4000;
  state = s;
  total_quantum = 10;
  p_stats = zero_stats;
  heap_start_proc = init_heap;
  heap_end_proc = 0x400000;
  heap_pointer_proc = init_heap;
  ustack = 0;
  semafors = 0x2000;
}

-- The ready queue holds tasks 2 and 3, the free queue task 4, semaphore 0 task 5.
abbrev pub links : Links
links = record {
  next =
      update
        (update
          (update (update (update (update (update (λ _. 0) 0x1008 n2) n2 n3) n3 0x1008) 0x1000 n4)
            n4 0x1000)
          b0 n5)
        n5 b0;
  prev =
      update
        (update
          (update (update (update (update (update (λ _. 0) n2 0x1008) n3 n2) 0x1008 n3) n4 0x1000)
            0x1000 n4)
          n5 b0)
        b0 n5;
}

abbrev pub machine : Kernel
machine = record {
  at = layout;
  links = links;
  task =
      update
        (update (update (update (λ _. a_task 0 st_run) t1 (a_task 1 st_run)) t2 (a_task 2 st_ready))
          t3 (a_task 3 st_ready))
        0x15000 (a_task 5 st_blocked);
  sem = update (λ _. free_sem) 0x2000 (record { semid = 0; count = neg 1; pid = 1 });
  page_mem = λ _. zero_entry;
  phys_mem = λ _. 0;
  word = λ _. 7;
  frame_data = λ f o. f;
  esp = 0x11f00;
  ebp = 0x11f40;
  tss_esp0 = 0x12000;
  msr_esp = 0x12000;
  cr3 = 0x21000;
  remaining_quantum = 1;
  idle_task = 0x10000;
  global_pid = 1000;
  global_tid = 1000;
  zeos_ticks = 0;
  console = record {
    x = 0;
    y = 19;
    text_color = 2;
    text_background = 0;
    screen = λ _. 0;
    port = [];
  };
  clock = λ n. 5 * n;
  reads = 0;
}

pub ready-IsRing : IsRing links 0x1008 (n2 ∷ n3 ∷ [])
ready-IsRing = omega arith

pub free-IsRing : IsRing links 0x1000 (n4 ∷ [])
free-IsRing = omega arith

pub blocked-IsRing : IsRing links b0 (n5 ∷ [])
blocked-IsRing = omega arith

-- No task is ready.
abbrev pub lone_links : Links
lone_links = record {
  next = update links.next 0x1008 0x1008;
  prev = update links.prev 0x1008 0x1008;
}

pub lone-IsRing : IsRing lone_links 0x1008 []
lone-IsRing = omega arith
