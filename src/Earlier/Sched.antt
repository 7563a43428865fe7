-- ===== src/Earlier/Sched.antt =====
-- zeOSpparri/sched.c: the scheduler of the earlier kernel.
use zeos_soa.Base.{
  ℕ, zero, suc, ◌+◌, ◌-◌, ◌*◌, Bool, true, false, not, ◌&&◌, ◌||◌, ◌==◌, if◌then◌else◌, sub32,
  update,
}
use zeos_soa.KernelList.{init_list_head, list_add, list_add_tail, list_del, list_empty, list_first}
use zeos_soa.Mm.Paging.{nr_tasks}
use zeos_soa.Kernel.{TaskState, st_run, st_ready, st_blocked, kernel_stack_size, stack_at}
use zeos_soa.Earlier.{
  Kernel, list_head_to_task_struct, list_of, kids_of, set_task, set_status, set_links, current,
  get_dir, get_pt, allocate_dir,
}
use zeos_soa.Earlier.Mm.{set_user_pages}

-- A task that runs becomes ready, at the tail of `dst_queue`; one that is ready leaves its queue and
-- runs; one that is blocked stays as it is.
unfoldable pub update_process_state_rr : Kernel → (t dst_queue : ℕ) → Kernel
update_process_state_rr k t dst_queue = elim ((k.task t).status) [
  | st_run ↦ set_status (set_links k (list_add_tail k.links (list_of t) dst_queue)) t st_ready
  | st_ready ↦ set_status (set_links k (list_del k.links (list_of t))) t st_run
  | st_blocked ↦ k
]

-- `cambio_contexto` keeps the frame pointer in the old task; `popl %ebp` and `ret` take two words
-- off the new stack.
unfoldable pub inner_task_switch : Kernel → ℕ → Kernel
inner_task_switch k new =
    let k = record k {
      tss_esp0 = stack_at new kernel_stack_size;
      msr_esp = stack_at new kernel_stack_size;
      cr3 = get_dir k new;
    } in
    let c = current k in
    let new_sp = (k.task new).kernel_esp in
    let k = set_task k c (record (k.task c) { kernel_esp = k.ebp }) in
    record k { esp = new_sp + 8; ebp = k.word new_sp }

unfoldable pub sched_next_rr : Kernel → Kernel
sched_next_rr k =
    let t = list_head_to_task_struct (list_first k.links k.at.readyqueue) in
    let ready = update_process_state_rr k t 0 in
    let next = if list_empty k.links k.at.readyqueue then k.idle_task else t in
    let k = if list_empty k.links k.at.readyqueue then k else ready in
    inner_task_switch (record k { qticks = (k.task next).quantum }) next

abbrev pub is_blocked : TaskState → Bool
is_blocked st_blocked = true
is_blocked _ = false

unfoldable pub needs_sched_rr : Kernel → Bool
needs_sched_rr k =
    (k.qticks == 0 && not (list_empty k.links k.at.readyqueue))
    || is_blocked (k.task (current k)).status

unfoldable pub update_sched_data_rr : Kernel → Kernel
update_sched_data_rr k = record k { qticks = sub32 k.qticks 1 }

unfoldable pub scheduler : Kernel → Kernel
scheduler k =
    let k = update_sched_data_rr k in
    if needs_sched_rr k
    then sched_next_rr (update_process_state_rr k (current k) k.at.readyqueue)
    else k

-- `cpu_idle` is the address of that function.
unfoldable pub init_idle : (cpu_idle : ℕ) → Kernel → Kernel
init_idle cpu_idle k =
    let e = list_first k.links k.at.freequeue in
    let t = list_head_to_task_struct e in
    let k = set_links k (init_list_head (list_del k.links e) (kids_of t)) in
    let k =
      set_task k t
        (record (k.task t) { pid = 0; quantum = 1000; pending_unblocks = 0; status = st_ready }) in
    let k = allocate_dir k t in
    let k = record k { word = update k.word (stack_at t (kernel_stack_size - 2)) 0 } in
    let k = record k { word = update k.word (stack_at t (kernel_stack_size - 1)) cpu_idle } in
    let k = set_task k t (record (k.task t) { kernel_esp = stack_at t (kernel_stack_size - 2) }) in
    record k { idle_task = t }

unfoldable pub init_task1 : Kernel → Kernel
init_task1 k =
    let e = list_first k.links k.at.freequeue in
    let t = list_head_to_task_struct e in
    let k = set_links k (init_list_head (list_del k.links e) (kids_of t)) in
    let k =
      set_task k t
        (record (k.task t) { pid = 1; quantum = 1000; pending_unblocks = 0; status = st_run }) in
    let k = allocate_dir k t in
    let (phys, pages) = set_user_pages (get_pt k t) (k.phys_mem, k.page_mem) in
    record k {
      phys_mem = phys;
      page_mem = pages;
      tss_esp0 = stack_at t kernel_stack_size;
      msr_esp = stack_at t kernel_stack_size;
      cr3 = get_dir k t;
      task_1 = t;
    }

-- The loop of `init_sched`: each task struct goes to the front.
unfoldable pub free_tasks_loop : ℕ → (i : ℕ) → Kernel → Kernel
free_tasks_loop zero i k = k
free_tasks_loop (suc n) i k =
    free_tasks_loop n (i + 1)
      (set_links k (list_add k.links (list_of (k.at.task + 4096 * i)) k.at.freequeue))

unfoldable pub init_sched : Kernel → Kernel
init_sched k =
    let l = init_list_head k.links k.at.freequeue in
    let l = init_list_head (init_list_head l k.at.readyqueue) k.at.blocked in
    record (free_tasks_loop nr_tasks 0 (set_links k l)) { qticks = 1000 }
