-- ===== src/Earlier.antt =====
-- zeOSpparri/include/sched.h, sched.c: the tasks of the earlier kernel, and the state that its
-- functions share.
pub mod Mm
pub mod Sched
pub mod Blocks
pub mod Fork
pub mod Exit
pub mod Write
pub mod Devices
pub mod Boot
pub mod Libc
use zeos_soa.Base.{ℕ, ◌+◌, ◌-◌, ◌*◌, ◌/◌, ◌^◌, update, sub32}
use zeos_soa.KernelList.{Links}
use zeos_soa.Mm.Frames.{PhysMem}
use zeos_soa.Mm.Paging.{PageMem}
use zeos_soa.Io.{Console}
use zeos_soa.Kernel.{TaskState}

-- `struct task_struct`, less its nodes `list` and `kids`, which lie among the links.
pub record Task : Type 0 where
  pub pid : ℕ
  pub dir_pages_base_addr : ℕ
  pub kernel_esp : ℕ
  pub quantum : ℕ
  pub status : TaskState
  pub pending_unblocks : ℕ
  pub dad : ℕ

-- The addresses that the linker gives.
pub record Layout : Type 0 where
  pub task : ℕ
  pub dir_pages : ℕ
  pub pagusr_table : ℕ
  pub freequeue : ℕ
  pub readyqueue : ℕ
  pub blocked : ℕ

pub record Kernel : Type 0 where
  pub at : Layout
  pub links : Links
  pub task : ℕ → Task
  pub page_mem : PageMem
  pub phys_mem : PhysMem
  pub word : ℕ → ℕ
  pub frame_data : ℕ → ℕ → ℕ
  pub esp : ℕ
  pub ebp : ℕ
  pub tss_esp0 : ℕ
  pub msr_esp : ℕ
  pub cr3 : ℕ
  pub qticks : ℕ
  pub idle_task : ℕ
  pub task_1 : ℕ
  pub sum_pid : ℕ
  pub zeos_ticks : ℕ
  pub console : Console

-- The nodes in the task struct at `t`.
abbrev pub list_of : ℕ → ℕ
list_of t = t + 8

-- `list_entry`: the address of the node less its place in the struct.
unfoldable pub list_head_to_task_struct : ℕ → ℕ
list_head_to_task_struct l = sub32 l 8

abbrev pub kids_of : ℕ → ℕ
kids_of t = t + 32

abbrev pub set_task : Kernel → ℕ → Task → Kernel
set_task k t v = record k { task = update k.task t v }

abbrev pub set_status : Kernel → ℕ → TaskState → Kernel
set_status k t s = set_task k t (record (k.task t) { status = s })

abbrev pub set_links : Kernel → Links → Kernel
set_links k l = record k { links = l }

-- `current()`: the page of the stack pointer.
unfoldable pub current : Kernel → ℕ
current k = k.esp / 2 ^ 12 * 2 ^ 12

unfoldable pub get_dir : Kernel → ℕ → ℕ
get_dir k t = (k.task t).dir_pages_base_addr

unfoldable pub get_pt : Kernel → ℕ → ℕ
get_pt k t = (k.page_mem (k.task t).dir_pages_base_addr).pbase_addr * 2 ^ 12

unfoldable pub allocate_dir : Kernel → ℕ → Kernel
allocate_dir k t =
    let pos = (t - k.at.task) / 4096 in
    set_task k t (record (k.task t) { dir_pages_base_addr = k.at.dir_pages + 4096 * pos })
