-- ===== src/Earlier/Exit.antt =====
-- zeOSpparri/sys.c: `sys_exit` of the earlier kernel, and its short calls.
pub mod Children
use zeos_soa.Base.{ℕ, zero, suc, ◌+◌, ◌/◌, Bool, ◌==◌, true, false, update, if◌then◌else◌}
use zeos_soa.Errno.{ebadf, eacces, enosys}
use zeos_soa.KernelList.{list_add_tail, list_del, list_first}
use zeos_soa.Mm.Paging.{PageMem, entry_at}
use zeos_soa.Earlier.{
  Kernel, list_head_to_task_struct, list_of, kids_of, set_task, set_links, current, get_pt,
}
use zeos_soa.Earlier.Mm.{free_user_pages}
use zeos_soa.Earlier.Sched.{sched_next_rr}

abbrev pub escriptura : ℕ
escriptura = 1

unfoldable pub check_fd : (fd permissions : ℕ) → ℕ
check_fd fd permissions = if fd == 1 then if permissions == escriptura then 0 else eacces else ebadf

unfoldable pub sys_ni_syscall : ℕ
sys_ni_syscall = enosys

unfoldable pub sys_getpid : Kernel → ℕ
sys_getpid k = (k.task (current k)).pid

unfoldable pub sys_gettime : Kernel → ℕ
sys_gettime k = k.zeos_ticks

-- One child goes to the idle task. `list_del` is the last step, so the node that the walk reads its
-- successor from is cleared.
unfoldable pub adopt : (e : ℕ) → Kernel → Kernel
adopt e k =
    let k = set_links k (list_add_tail k.links e (kids_of k.idle_task)) in
    let t = list_head_to_task_struct e in
    let k = set_task k t (record (k.task t) { dad = k.idle_task }) in
    set_links k (list_del k.links e)

-- What comes of a call: the state that it leaves, a page fault in the kernel, or a walk that has not
-- come back to its head in the rounds given.
pub data Outcome : Type 0 where
  returns : Kernel → Outcome
  page_fault : Outcome
  unfinished : Outcome

-- The page of an address below 4 MB is mapped by the table at `pt`.
unfoldable pub is_mapped : PageMem → (pt a : ℕ) → Bool
is_mapped pm pt a = (pm (entry_at pt (a / 4096))).present == 1

-- The walk over the children. It writes to each node, which faults where the node's page is not
-- mapped.
unfoldable pub adopt_loop : ℕ → (e kids pt : ℕ) → Kernel → Outcome
adopt_loop zero e kids pt k = unfinished
adopt_loop (suc n) e kids pt k = elim (e == kids) [
  | true ↦ returns k
  | false ↦ elim (is_mapped k.page_mem pt e) [
    | true ↦ let k' = adopt e k in adopt_loop n (k'.links.next e) kids pt k'
    | false ↦ page_fault
  ]
]

-- The frames of the data pages, the task struct, and the switch.
unfoldable pub end_task : (c : ℕ) → Kernel → Kernel
end_task c k =
    let (phys, pages) = free_user_pages (get_pt k c) (k.phys_mem, k.page_mem) in
    let k = record k { phys_mem = phys; page_mem = pages } in
    sched_next_rr (set_links k (list_add_tail k.links (list_of c) k.at.freequeue))

unfoldable pub exit_after : (c : ℕ) → Outcome → Outcome
exit_after c (returns k) = returns (end_task c k)
exit_after c page_fault = page_fault
exit_after c unfinished = unfinished

unfoldable pub sys_exit : (fuel : ℕ) → Kernel → Outcome
sys_exit fuel k =
    let c = current k in
    let kids = kids_of c in
    elim (list_first k.links kids == 0) [
      | true ↦ returns (end_task c k)
      | false ↦ exit_after c (adopt_loop fuel (k.links.next kids) kids (get_pt k c) k)
    ]
