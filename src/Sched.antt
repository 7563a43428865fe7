-- ===== src/Sched.antt =====
-- sched.c: round-robin scheduling and the switch from one task to another.
pub mod Boot
pub mod Switch
pub mod Policy
pub mod Turns
pub mod Alone
pub mod Sems
use zeos_soa.Base.{
  ℕ, zero, suc, ◌+◌, ◌-◌, ◌*◌, ◌^◌, Bool, true, false, not, ◌&&◌, ◌==◌, if◌then◌else◌, neg, add32,
  sub32, update,
}
use zeos_soa.KernelList.{init_list_head, list_add_tail, list_del, list_empty, list_first}
use zeos_soa.Mm.Frames.{total_pages}
use zeos_soa.Mm.Paging.{nr_tasks, init_heap, set_user_pages}
use zeos_soa.Kernel.{
  Kernel, Task, TaskState, st_run, st_ready, st_blocked, Counter, user, system, ready, Sem, list_of,
  list_head_to_task_struct, current, kernel_stack_size, stack_at, set_task, set_state, set_links,
  get_ticks, update_stats, init_stats, get_dir, get_pt, allocate_dir, get_quantum,
}

abbrev pub default_quantum : ℕ
default_quantum = 10

unfoldable pub update_sched_data_rr : Kernel → Kernel
update_sched_data_rr k = record k { remaining_quantum = sub32 k.remaining_quantum 1 }

-- The result says whether to switch; where no other task is ready, a fresh quantum begins.
unfoldable pub needs_sched_rr : Kernel → Bool × Kernel
unfolding get_quantum
needs_sched_rr k =
    if k.remaining_quantum == 0 && not (list_empty k.links k.at.readyqueue)
    then (true, k)
    else if k.remaining_quantum == 0
    then (false, record k { remaining_quantum = get_quantum k (current k) })
    else (false, k)

abbrev pub is_run : TaskState → Bool
is_run st_run = true
is_run _ = false

-- `if (t->state!=ST_RUN) list_del(&(t->list));`
unfoldable pub leave_queue : Kernel → ℕ → Kernel
leave_queue k t = if is_run (k.task t).state then k else set_links k (list_del k.links (list_of t))

-- `dst_queue` is the address of a list head, or 0 for NULL.
unfoldable pub update_process_state_rr : Kernel → (t dst_queue : ℕ) → Kernel
unfolding leave_queue
update_process_state_rr k t dst_queue =
    let k = leave_queue k t in
    if dst_queue == 0
    then set_state k t st_run
    else let k = set_links k (list_add_tail k.links (list_of t) dst_queue) in
      if dst_queue == k.at.readyqueue
      then set_state (update_stats k t system) t st_ready
      else set_state k t st_blocked

-- kernel-utils.S: the frame pointer goes to `*save_sp`, the stack to `new_sp`; then `popl %ebp`
-- and `ret` take two words off it.
unfoldable pub switch_stack : Kernel → (old new_sp : ℕ) → Kernel
switch_stack k old new_sp =
    let k = set_task k old (record (k.task old) { register_esp = k.ebp }) in
    record k { esp = new_sp + 8; ebp = k.word new_sp }

unfoldable pub inner_task_switch : Kernel → ℕ → Kernel
unfolding switch_stack
inner_task_switch k new =
    let k = record k {
      tss_esp0 = stack_at new kernel_stack_size;
      msr_esp = stack_at new kernel_stack_size;
      cr3 = get_dir k new;
    } in
    switch_stack k (current k) (k.task new).register_esp

-- The first part of `sched_next_rr`: the task that comes next.
unfoldable pub pick_next : Kernel → ℕ × Kernel
pick_next k =
    if list_empty k.links k.at.readyqueue
    then (k.idle_task, k)
    else let e = list_first k.links k.at.readyqueue in
      (list_head_to_task_struct e, set_links k (list_del k.links e))

-- `t->p_stats.total_trans++`.
abbrev pub count_transition : Kernel → ℕ → Kernel
count_transition k t =
    let s = (k.task t).p_stats in
    set_task k t (record (k.task t) { p_stats = record s { total_trans = add32 s.total_trans 1 } })

-- The rest of it: run `t`.
unfoldable pub run_next : Kernel → ℕ → Kernel
run_next k t =
    let k = set_state k t st_run in
    let k = record k { remaining_quantum = get_quantum k t } in
    let k = update_stats k (current k) system in
    let k = update_stats k t ready in inner_task_switch (count_transition k t) t

unfoldable pub sched_next_rr : Kernel → Kernel
sched_next_rr k = let (t, k) = pick_next k in run_next k t

unfoldable pub schedule : Kernel → Kernel
schedule k =
    let (switch, k) = needs_sched_rr (update_sched_data_rr k) in
    if switch then sched_next_rr (update_process_state_rr k (current k) k.at.readyqueue) else k

unfoldable pub force_task_switch : Kernel → Kernel
force_task_switch k = sched_next_rr (update_process_state_rr k (current k) k.at.readyqueue)

-- The loop of `init_freequeue` over the task array.
unfoldable pub free_tasks_loop : ℕ → (i : ℕ) → Kernel → Kernel
free_tasks_loop zero i k = k
free_tasks_loop (suc n) i k =
    let t = k.at.task + 4096 * i in
    let k = set_task k t (record (k.task t) { pid = neg 1 }) in
    free_tasks_loop n (i + 1) (set_links k (list_add_tail k.links (list_of t) k.at.freequeue))

unfoldable pub init_freequeue : Kernel → Kernel
init_freequeue k = free_tasks_loop nr_tasks 0 (set_links k (init_list_head k.links k.at.freequeue))

unfoldable pub init_sched : Kernel → Kernel
init_sched k = let k = init_freequeue k in set_links k (init_list_head k.links k.at.readyqueue)

-- Takes the first task struct off the free queue.
abbrev pub take_free : Kernel → ℕ × Kernel
take_free k =
    let l = list_first k.links k.at.freequeue in
    (list_head_to_task_struct l, set_links k (list_del k.links l))

-- The rest of `init_idle`, for the task at `c`; `cpu_idle` is the address of that function.
unfoldable pub set_up_idle : (cpu_idle c : ℕ) → Kernel → Kernel
set_up_idle cpu_idle c k =
    let k =
      set_task k c (record (k.task c) { pid = 0; tid = 0; total_quantum = default_quantum }) in
    let k = allocate_dir (init_stats k c) c in
    let k = record k { word = update k.word (stack_at c (kernel_stack_size - 1)) cpu_idle } in
    let k = record k { word = update k.word (stack_at c (kernel_stack_size - 2)) 0 } in
    let k =
      set_task k c (record (k.task c) { register_esp = stack_at c (kernel_stack_size - 2) }) in
    record k { idle_task = c }

unfoldable pub init_idle : (cpu_idle : ℕ) → Kernel → Kernel
init_idle cpu_idle k = let (c, k) = take_free k in set_up_idle cpu_idle c k

abbrev pub num_sem : ℕ
num_sem = 10

-- The address of `semafors[i]`, and of its `blocked` head: a `struct sem_t` takes 20 bytes.
abbrev pub sem_at : (semafors i : ℕ) → ℕ
sem_at semafors i = semafors + 20 * i

abbrev pub blocked_of : ℕ → ℕ
blocked_of s = s + 8

abbrev pub free_sem : Sem
free_sem = record { semid = neg 1; count = 0; pid = neg 1 }

-- The loop that resets the semaphores of an array, in `init_task1` and in `sys_fork`.
unfoldable pub init_sems_loop : ℕ → (semafors i : ℕ) → Kernel → Kernel
init_sems_loop zero semafors i k = k
init_sems_loop (suc n) semafors i k =
    let s = sem_at semafors i in
    init_sems_loop n semafors (i + 1)
      (record k { sem = update k.sem s free_sem; links = init_list_head k.links (blocked_of s) })

-- The rest of `init_task1`, for the task at `c`, up to the loop over the semaphores.
unfoldable pub set_up_task1 : (c : ℕ) → Kernel → Kernel
set_up_task1 c k =
    let k = set_task k c (record (k.task c) {
      pid = 1;
      tid = 1;
      total_quantum = default_quantum;
      state = st_run;
      heap_end_proc = total_pages * 2 ^ 12;
      heap_start_proc = init_heap;
      heap_pointer_proc = init_heap;
    }) in
    let k = record k { remaining_quantum = (k.task c).total_quantum } in
    let k = allocate_dir (init_stats k c) c in
    let (phys, pages) = set_user_pages (get_pt k c) (k.phys_mem, k.page_mem) in
    let top = stack_at c kernel_stack_size in
    let k = record k {
      phys_mem = phys;
      page_mem = pages;
      tss_esp0 = top;
      msr_esp = top;
      cr3 = get_dir k c;
    } in
    set_task k c (record (k.task c) { semafors = k.at.semafor_proces })

unfoldable pub init_task1 : Kernel → Kernel
init_task1 k =
    let (c, k) = take_free k in
    let k = set_up_task1 c k in init_sems_loop num_sem k.at.semafor_proces 0 k
