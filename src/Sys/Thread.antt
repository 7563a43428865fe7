-- ===== src/Sys/Thread.antt =====
-- sys.c: `sys_threadCreate`.
pub mod Fields
pub mod Spawn
use zeos_soa.Base.{
  ℕ, ◌+◌, ◌-◌, ◌*◌, ◌/◌, ◌%◌, ◌^◌, Bool, true, false, not, ◌&&◌, ◌==◌, ltb, if◌then◌else◌, neg,
  add32, update, Option, none, some, ◌>>=◌,
}
use zeos_soa.Errno.{efault, eagain, enomem}
use zeos_soa.KernelList.{list_add_tail, list_empty}
use zeos_soa.Mm.Frames.{total_pages, alloc_frame}
use zeos_soa.Mm.Paging.{page_size, entry_at, set_ss_pag}
use zeos_soa.Utils.{verify_read, access_ok}
use zeos_soa.Kernel.{
  Kernel, Task, st_ready, list_of, current, kernel_stack_size, stack_at, set_task, set_links,
  init_stats, get_pt,
}
use zeos_soa.Sched.{take_free}
use zeos_soa.Sys.{heap_bounds, copy_union}
use zeos_soa.Sys.Heap.{heap_pointer, set_heap_pointer, heap_fuel}
use zeos_soa.Sys.Exit.{exit_heap_loop}

-- A word in a frame, the lowest byte first.
abbrev pub put_word : (ℕ → ℕ) → (offset w : ℕ) → ℕ → ℕ
put_word m offset w =
    update
      (update (update (update m offset (w % 2 ^ 8)) (offset + 1) (w / 2 ^ 8 % 2 ^ 8)) (offset + 2)
        (w / 2 ^ 16 % 2 ^ 8))
      (offset + 3) (w / 2 ^ 24 % 2 ^ 8)

-- The three pointers, each of which is to be in the user's pages or in the heap.
unfoldable pub bad_pointers : Kernel → (function parameter wrapp : ℕ) → Bool
bad_pointers k function parameter wrapp =
    let bounds = heap_bounds k (current k) in
    if not (access_ok verify_read function 4 bounds)
    then true
    else if not (parameter == 0) && not (access_ok verify_read parameter 4 bounds)
    then true
    else not (access_ok verify_read wrapp 4 bounds)

-- The copy of the parent's union that becomes the thread, with the thread's own fields.
unfoldable pub thread_union : Kernel → (parent child : ℕ) → Kernel
thread_union k parent child =
    let k = copy_union k parent child in
    let tid = add32 k.global_tid 1 in
    let k = record k { global_tid = tid } in
    set_task k child (record (k.task child) {
      tid = tid;
      pid = (k.task parent).pid;
      state = st_ready;
      semafors = (k.task parent).semafors;
    })

-- The three words on the user's stack, at the end of page `pag`, which the table at `pt` maps. `none`
-- is a page fault in the kernel: the table has 1024 entries, so that page 1024 is never mapped.
unfoldable pub store_stack : (pt pag function parameter : ℕ) → Kernel → Option Kernel
store_stack pt pag function parameter k =
    let e = k.page_mem (entry_at pt pag) in
    let page = put_word (k.frame_data e.pbase_addr) (4 * 1021) 0x777 in
    let page = put_word page (4 * 1022) function in
    let page = put_word page (4 * 1023) parameter in
    if ltb pag total_pages && e.present == 1
    then some (record k { frame_data = update k.frame_data e.pbase_addr page })
    else none

-- The words of the kernel stack with which the thread starts, and its place in the ready queue.
unfoldable pub start_thread : (child pag wrapp : ℕ) → Kernel → ℕ × Kernel
start_thread child pag wrapp k =
    let ustack = pag * 2 ^ 12 % 2 ^ 32 in
    let top = update k.word (stack_at child (kernel_stack_size - 2)) (ustack + 4 * 1021) in
    let k = record k { word = update top (stack_at child (kernel_stack_size - 5)) wrapp } in
    let k = set_task k child (record (k.task child) {
      ustack = ustack;
      register_esp = stack_at child (kernel_stack_size - 18);
    }) in
    let k = init_stats k child in
    ((k.task child).tid, set_links k (list_add_tail k.links (list_of child) k.at.readyqueue))

-- A page of the caller's heap becomes the thread's stack. A heap pointer beyond page 1024 ends the
-- call with the task struct already taken. `none` is a page fault in the kernel.
unfoldable pub give_stack :
    (parent child function parameter wrapp : ℕ) → Kernel → Option (ℕ × Kernel)
give_stack parent child function parameter wrapp k =
    let pag = heap_pointer k parent / page_size in
    let pt = get_pt k child in
    let (f, phys) = alloc_frame k.phys_mem in
    let mapped = record k { phys_mem = phys; page_mem = set_ss_pag k.page_mem pt pag f } in
    let grown = set_heap_pointer mapped parent (add32 (heap_pointer k parent) page_size) in
    let back = exit_heap_loop heap_fuel parent pt (record k { phys_mem = phys }) in
    if ltb total_pages pag
    then some (neg 1, k)
    else if f == neg 1
    then some (eagain, set_links back (list_add_tail back.links (list_of child) back.at.freequeue))
    else do
      stored ← store_stack pt pag function parameter grown
      some (start_thread child pag wrapp stored)

unfoldable pub sys_thread_create : (function parameter wrapp : ℕ) → Kernel → Option (ℕ × Kernel)
sys_thread_create function parameter wrapp k =
    let parent = current k in
    let (child, taken) = take_free k in
    if bad_pointers k function parameter wrapp
    then some (efault, k)
    else if list_empty k.links k.at.freequeue
    then some (enomem, k)
    else give_stack parent child function parameter wrapp (thread_union taken parent child)
