-- ===== src/Earlier/Blocks.antt =====
-- zeOSpparri/sys.c: the calls of the earlier kernel with which a process blocks itself and a parent
-- unblocks its children.
pub mod Wait
use zeos_soa.Base.{
  ℕ, zero, suc, ◌+◌, ◌-◌, ◌*◌, ◌/◌, ◌%◌, ◌^◌, Bool, true, false, not, ◌&&◌, ◌||◌, ◌==◌, leb, ltb,
  if◌then◌else◌, neg, is_neg, add32, sub32, update, Option, none, some, ◌>>=◌, List, [], ◌∷◌,
}
use zeos_soa.KernelList.{
  Links, init_list_head, list_add, list_add_tail, list_del, list_empty, list_first,
}
use zeos_soa.Mm.Frames.{PhysMem}
use zeos_soa.Mm.Paging.{PageMem, nr_tasks}
use zeos_soa.Kernel.{TaskState, st_run, st_ready, st_blocked, kernel_stack_size, stack_at}
use zeos_soa.Earlier.{
  Kernel, Task, Layout, list_head_to_task_struct, list_of, kids_of, set_task, set_status, set_links,
  current, get_dir, get_pt, allocate_dir,
}
use zeos_soa.Earlier.Sched.{scheduler, is_blocked}

unfoldable pub sys_block : Kernel → Kernel
sys_block k =
    let c = current k in
    let pu = (k.task c).pending_unblocks in
    if pu == 0
    then scheduler
        (set_links (set_status k c st_blocked) (list_add_tail k.links (list_of c) k.at.blocked))
    else set_task k c (record (k.task c) { pending_unblocks = sub32 pu 1 })

-- What happens to the child that has the PID; `e` is its node in the parent's list.
unfoldable pub unblock_child : (e : ℕ) → Kernel → Kernel
unblock_child e k =
    let t = list_head_to_task_struct e in
    let c = current k in
    let k' = set_status k t st_ready in
    if is_blocked (k.task t).status
    then set_links k' (list_add_tail (list_del k.links (list_of t)) e k.at.readyqueue)
    else set_task k c (record (k.task c) { pending_unblocks = add32 (k.task c).pending_unblocks 1 })

-- The walk over the children; `none` where it has not come back to its head in the rounds given.
unfoldable pub unblock_loop : ℕ → (e pid : ℕ) → Kernel → Option (ℕ × Kernel)
unblock_loop zero e pid k = none
unblock_loop (suc n) e pid k = elim (e == kids_of (current k)) [
  | true ↦ some (neg 1, k)
  | false ↦ elim ((k.task (list_head_to_task_struct e)).pid == pid) [
    | true ↦ some (0, unblock_child e k)
    | false ↦ unblock_loop n (k.links.next e) pid k
  ]
]

unfoldable pub sys_unblock : (fuel pid : ℕ) → Kernel → Option (ℕ × Kernel)
sys_unblock fuel pid k = unblock_loop fuel (k.links.next (kids_of (current k))) pid k
