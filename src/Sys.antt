-- ===== src/Sys.antt =====
-- sys.c: the system calls on processes, threads, heaps and the console.
pub mod Heap
pub mod Exit
pub mod Fork
pub mod Thread
pub mod Write
pub mod Report
use zeos_soa.Base.{
  ℕ, zero, suc, ◌+◌, ◌-◌, ◌*◌, Bool, true, false, ◌==◌, leb, ltb, ◌&&◌, if◌then◌else◌, Option, none,
  some, is_neg, update,
}
use zeos_soa.Errno.{ebadf, eacces, einval, efault, esrch, enosys}
use zeos_soa.KernelList.{Links}
use zeos_soa.Mm.Paging.{nr_tasks}
use zeos_soa.Utils.{verify_write, access_ok, HeapBounds}
use zeos_soa.Io.{Sprite, cursor_move, asthetic_change, sprite_draw}
use zeos_soa.Kernel.{Kernel, Task, Stats, list_of, current, set_task, update_stats, user, system}
use zeos_soa.Sched.{force_task_switch}

abbrev pub escriptura : ℕ
escriptura = 1

unfoldable pub check_fd : (fd permissions : ℕ) → ℕ
check_fd fd permissions = if fd == 1 then if permissions == escriptura then 0 else eacces else ebadf

unfoldable pub user_to_system : Kernel → Kernel
user_to_system k = update_stats k (current k) user

unfoldable pub system_to_user : Kernel → Kernel
system_to_user k = update_stats k (current k) system

unfoldable pub sys_ni_syscall : ℕ
sys_ni_syscall = enosys

unfoldable pub sys_getpid : Kernel → ℕ
sys_getpid k = (k.task (current k)).pid

unfoldable pub sys_gettime : Kernel → ℕ
sys_gettime k = k.zeos_ticks

unfoldable pub sys_yield : Kernel → ℕ × Kernel
sys_yield k = (0, force_task_switch k)

unfoldable pub sys_goto_xy : (pos_x pos_y : ℕ) → Kernel → ℕ × Kernel
sys_goto_xy pos_x pos_y k =
    let (r, s) = cursor_move k.console pos_x pos_y in (r, record k { console = s })

unfoldable pub sys_set_color : (color background : ℕ) → Kernel → ℕ × Kernel
sys_set_color color background k =
    let (r, s) = asthetic_change k.console color background in (r, record k { console = s })

-- `byte` is the memory and `at_sp` the sprite at the address `sp`.
unfoldable pub sys_sprite_put :
    (byte : ℕ → ℕ) → (pos_x pos_y sp : ℕ) → (at_sp : Sprite) → Kernel → ℕ × Kernel
sys_sprite_put byte pos_x pos_y sp at_sp k =
    let (r, s) = sprite_draw byte pos_y pos_x sp at_sp k.console in (r, record k { console = s })

-- `task[i]`.
abbrev pub task_at : Kernel → ℕ → ℕ
task_at k i = k.at.task + 4096 * i

-- The loop of `sys_get_stats`. The option is what is copied to the user's structure.
unfoldable pub get_stats_loop : ℕ → (i pid : ℕ) → Kernel → ℕ × Option Stats × Kernel
get_stats_loop zero i pid k = (esrch, none, k)
get_stats_loop (suc n) i pid k =
    let t = task_at k i in
    let s = record ((k.task t).p_stats) { remaining_ticks = k.remaining_quantum } in
    elim ((k.task t).pid == pid) [
      | true ↦ (0, some s, set_task k t (record (k.task t) { p_stats = s }))
      | false ↦ get_stats_loop n (i + 1) pid k
    ]

unfoldable pub sys_get_stats : (pid st : ℕ) → Kernel → ℕ × Option Stats × Kernel
sys_get_stats pid st k =
    if access_ok verify_write st 28 none
    then if is_neg pid then (einval, none, k) else get_stats_loop nr_tasks 0 pid k
    else (efault, none, k)

-- The heap bounds that `access_ok` reads from a task.
abbrev pub heap_bounds : Kernel → ℕ → HeapBounds
heap_bounds k t = some ((k.task t).heap_start_proc, (k.task t).heap_end_proc)

-- `copy_data(current(), uchild, sizeof(union task_union))`: the struct, its list node and the
-- words of the kernel stack.
unfoldable pub copy_union : Kernel → (parent child : ℕ) → Kernel
copy_union k parent child = record k {
  task = update k.task child (k.task parent);
  links = record {
    next = update k.links.next (list_of child) (k.links.next (list_of parent));
    prev = update k.links.prev (list_of child) (k.links.prev (list_of parent));
  };
  word =
      λ a. if leb child a && ltb a (child + 4096) then k.word (parent + (a - child)) else k.word a;
}
