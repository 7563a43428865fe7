-- ===== src/Kernel.antt =====
-- include/sched.h, include/stats.h: the kernel's data, and the state that its functions share.
-- p_stats.c, utils.c (`get_ticks`) and the small accessors of sched.c.
use zeos_soa.Base.{ℕ, ◌+◌, ◌-◌, ◌*◌, ◌/◌, ◌%◌, ◌^◌, add32, sub32, update}
use zeos_soa.KernelList.{Links}
use zeos_soa.Io.{Console}
use zeos_soa.Mm.Frames.{PhysMem}
use zeos_soa.Mm.Paging.{PageMem}

-- `enum state_t`.
pub data TaskState : Type 0 where
  st_run st_ready st_blocked : TaskState

-- `struct stats`.
pub record Stats : Type 0 where
  pub user_ticks : ℕ
  pub system_ticks : ℕ
  pub blocked_ticks : ℕ
  pub ready_ticks : ℕ
  pub elapsed_total_ticks : ℕ
  pub total_trans : ℕ
  pub remaining_ticks : ℕ

-- `struct sem_t`, less its `blocked` head, which lies among the links.
pub record Sem : Type 0 where
  pub semid : ℕ
  pub count : ℕ
  pub pid : ℕ

-- `struct task_struct`, less its `list` node, which lies among the links.
pub record Task : Type 0 where
  pub pid : ℕ
  pub tid : ℕ
  pub dir_pages_base_addr : ℕ
  pub register_esp : ℕ
  pub state : TaskState
  pub total_quantum : ℕ
  pub p_stats : Stats
  pub heap_start_proc : ℕ
  pub heap_end_proc : ℕ
  pub heap_pointer_proc : ℕ
  pub ustack : ℕ
  pub semafors : ℕ

-- The addresses that the linker gives to the kernel's objects.
pub record Layout : Type 0 where
  pub task : ℕ
  pub dir_pages : ℕ
  pub pagusr_table : ℕ
  pub freequeue : ℕ
  pub readyqueue : ℕ
  pub semafor_proces : ℕ

-- `clock n` is what the n-th call of `get_ticks` returns, and `reads` counts the calls so far.
-- `word` is the 32-bit word at an address, `frame_data` what a physical frame holds.
pub record Kernel : Type 0 where
  pub at : Layout
  pub links : Links
  pub task : ℕ → Task
  pub sem : ℕ → Sem
  pub page_mem : PageMem
  pub phys_mem : PhysMem
  pub word : ℕ → ℕ
  pub frame_data : ℕ → ℕ → ℕ
  pub esp : ℕ
  pub ebp : ℕ
  pub tss_esp0 : ℕ
  pub msr_esp : ℕ
  pub cr3 : ℕ
  pub remaining_quantum : ℕ
  pub idle_task : ℕ
  pub global_pid : ℕ
  pub global_tid : ℕ
  pub zeos_ticks : ℕ
  pub console : Console
  pub clock : ℕ → ℕ
  pub reads : ℕ

-- The `list` field of the task struct at `t`: behind PID, TID and the directory.
abbrev pub list_of : ℕ → ℕ
list_of t = t + 12

-- `(struct task_struct*)((int)l&0xfffff000)`.
unfoldable pub list_head_to_task_struct : ℕ → ℕ
list_head_to_task_struct l = l / 2 ^ 12 * 2 ^ 12

-- `current()`: the page of a local variable, which lies below the stack pointer.
unfoldable pub current : Kernel → ℕ
current k = (k.esp - 4) / 2 ^ 12 * 2 ^ 12

abbrev pub kernel_stack_size : ℕ
kernel_stack_size = 1024

-- The address of `stack[i]` in the union of the task at `t`.
abbrev pub stack_at : (t i : ℕ) → ℕ
stack_at t i = t + 4 * i

-- A write to the task struct at `t`.
abbrev pub set_task : Kernel → ℕ → Task → Kernel
set_task k t v = record k { task = update k.task t v }

abbrev pub set_state : Kernel → ℕ → TaskState → Kernel
set_state k t s = set_task k t (record (k.task t) { state = s })

abbrev pub set_links : Kernel → Links → Kernel
set_links k l = record k { links = l }

unfoldable pub get_ticks : Kernel → ℕ × Kernel
get_ticks k = (k.clock k.reads, record k { reads = k.reads + 1 })

-- The counters of `struct stats` that `update_stats` is called on.
pub data Counter : Type 0 where
  user system ready : Counter

abbrev pub add_ticks : Counter → Stats → ℕ → Stats
add_ticks user s n = record s { user_ticks = add32 s.user_ticks n }
add_ticks system s n = record s { system_ticks = add32 s.system_ticks n }
add_ticks ready s n = record s { ready_ticks = add32 s.ready_ticks n }

-- `*v += current_ticks - *elapsed; *elapsed = current_ticks;` in the stats of the task at `t`.
unfoldable pub update_stats : Kernel → ℕ → Counter → Kernel
unfolding get_ticks
update_stats k t c =
    let (now, k) = get_ticks k in
    let s = (k.task t).p_stats in
    set_task k t (record (k.task t) {
      p_stats = record (add_ticks c s (sub32 now s.elapsed_total_ticks)) {
        elapsed_total_ticks = now;
      };
    })

unfoldable pub init_stats : Kernel → ℕ → Kernel
unfolding get_ticks
init_stats k t =
    let (elapsed, k) = get_ticks k in
    let (remaining, k) = get_ticks k in
    set_task k t (record (k.task t) {
      p_stats = record {
        user_ticks = 0;
        system_ticks = 0;
        blocked_ticks = 0;
        ready_ticks = 0;
        elapsed_total_ticks = elapsed;
        total_trans = 0;
        remaining_ticks = remaining;
      };
    })

unfoldable pub get_dir : Kernel → ℕ → ℕ
get_dir k t = (k.task t).dir_pages_base_addr

unfoldable pub get_pt : Kernel → ℕ → ℕ
get_pt k t = (k.page_mem (k.task t).dir_pages_base_addr).pbase_addr * 2 ^ 12 % 2 ^ 32

-- `pos` is the index of `t` in the task array; a row of `dir_pages` takes 4096 bytes.
unfoldable pub allocate_dir : Kernel → ℕ → Kernel
allocate_dir k t =
    let pos = (t - k.at.task) / 4096 in
    set_task k t (record (k.task t) { dir_pages_base_addr = k.at.dir_pages + 4096 * pos })

unfoldable pub get_quantum : Kernel → ℕ → ℕ
get_quantum k t = (k.task t).total_quantum

unfoldable pub set_quantum : Kernel → ℕ → ℕ → Kernel
set_quantum k t n = set_task k t (record (k.task t) { total_quantum = n })
