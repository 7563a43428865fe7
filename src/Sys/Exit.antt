-- ===== src/Sys/Exit.antt =====
-- sys.c: `sys_exit` and `sys_threadExit`.
use zeos_soa.Base.{
  ℕ, zero, suc, ◌+◌, ◌/◌, ◌≡◌, ◌≤◌, ◌≢◌, update, Disjoint-symm, Disjoint-append, refl, sym, subst,
  true, false, List, [], ◌∷◌, ◌++◌, Fresh, Disjoint, ltb, neg, sub32, arith,
}
use zeos_soa.KernelList.{list_add_tail}
use zeos_soa.KernelList.Ring.{IsRing}
use zeos_soa.KernelList.Insert.{list_add_tail-IsRing, list_add_tail-frame}
use zeos_soa.Mm.Paging.{page_size, free_user_pages}
use zeos_soa.Mm.Paging.Free.{DataFreed, free_user_pages-DataFreed}
use zeos_soa.Kernel.{
  Kernel, list_of, list_head_to_task_struct, current, set_task, set_links, get_pt,
}
use zeos_soa.Sched.{sched_next_rr}
use zeos_soa.Sched.Switch.{Runs, sched_next_rr-cons, sched_next_rr-memory}
use zeos_soa.Sys.Heap.{heap_pointer, set_heap_pointer, give_back, heap_fuel}

-- `while(current()->heap_pointer_proc < current()->heap_start_proc)`: each round frees the frame
-- of the page under the heap pointer and takes a page off it.
unfoldable pub exit_heap_loop : ℕ → (c pt : ℕ) → Kernel → Kernel
exit_heap_loop zero c pt k = k
exit_heap_loop (suc n) c pt k = elim (ltb (heap_pointer k c) (k.task c).heap_start_proc) [
  | true ↦ exit_heap_loop n c pt (
      set_heap_pointer (give_back k pt (heap_pointer k c / page_size)) c
        (sub32 (heap_pointer k c) page_size))
  | false ↦ k
]

-- `for (i=0; i<NUM_PAG_DATA; i++)`: the frames of the data pages.
abbrev pub exit_data : Kernel → (pt : ℕ) → Kernel
exit_data k pt =
    let (phys, pages) = free_user_pages pt (k.phys_mem, k.page_mem) in
    record k { phys_mem = phys; page_mem = pages }

unfoldable pub sys_exit : Kernel → Kernel
sys_exit k =
    let c = current k in
    let pt = get_pt k c in
    let k = exit_heap_loop heap_fuel c pt (exit_data k pt) in
    let k = set_links k (list_add_tail k.links (list_of c) k.at.freequeue) in
    sched_next_rr (set_task k c (record (k.task c) { pid = neg 1 }))

unfoldable pub sys_thread_exit : Kernel → Kernel
sys_thread_exit k =
    let c = current k in
    let page = heap_pointer k c / page_size in
    let k = give_back k (get_pt k c) page in
    let k = set_heap_pointer k c (sub32 (heap_pointer k c) page_size) in
    sched_next_rr (set_links k (list_add_tail k.links (list_of c) k.at.freequeue))

-- `k'` is `k` after the running task ended: its struct lies at the tail of the free queue with
-- PID -1, its data pages are given back, and the task at `t`, whose node has left the ready queue,
-- runs.
pub record Ended (k k' : Kernel) (t : ℕ) (es fs : List ℕ) : Type 0 where
  pub stack : k'.esp ≡ (k.task t).register_esp + 8
  pub quantum : k'.remaining_quantum ≡ (k.task t).total_quantum
  pub address_space : k'.cr3 ≡ (k.task t).dir_pages_base_addr
  pub ready : IsRing k'.links k.at.readyqueue es
  pub free : IsRing k'.links k.at.freequeue (fs ++ (list_of (current k) ∷ []))
  pub no_pid : (k'.task (current k)).pid ≡ neg 1
  pub frames : DataFreed (get_pt k (current k)) k.phys_mem k'.phys_mem k.page_mem k'.page_mem

-- The task that ends is in neither queue, and the queues share no node.
pub record CanEnd (k : Kernel) (e : ℕ) (es fs : List ℕ) : Type 0 where
  pub ready : IsRing k.links k.at.readyqueue (e ∷ es)
  pub free : IsRing k.links k.at.freequeue fs
  pub other : list_head_to_task_struct e ≢ current k
  pub not_head : list_of (current k) ≢ k.at.freequeue
  pub not_free : Fresh (list_of (current k)) fs
  pub not_ready : Fresh (list_of (current k)) (k.at.readyqueue ∷ e ∷ es)
  pub apart : Disjoint (k.at.freequeue ∷ fs) (k.at.readyqueue ∷ e ∷ es)

exit_heap_loop-none :
    (n c pt : ℕ) (k : Kernel)
    → (k.task c).heap_start_proc ≤ heap_pointer k c
    → exit_heap_loop n c pt k ≡ k
unfolding exit_heap_loop
exit_heap_loop-none zero c pt k h = refl
exit_heap_loop-none (suc n) c pt k h = ground arith

-- The state in which `sys_exit` calls the scheduler, when the heap loop makes no round.
abbrev pub exiting : Kernel → Kernel
exiting k =
    let c = current k in
    let (phys, pages) = free_user_pages (get_pt k c) (k.phys_mem, k.page_mem) in
    record k {
      phys_mem = phys;
      page_mem = pages;
      links = list_add_tail k.links (list_of c) k.at.freequeue;
      task = update k.task c (record (k.task c) { pid = neg 1 });
    }

pub sys_exit-eq :
    (k : Kernel)
    → (k.task (current k)).heap_start_proc ≤ heap_pointer k (current k)
    → sys_exit k ≡ sched_next_rr (exiting k)
unfolding sys_exit
sys_exit-eq k h = rw (
    exit_heap_loop-none heap_fuel (current k) (get_pt k (current k))
      (exit_data k (get_pt k (current k))) h)

Ended-exiting :
    (k k' : Kernel) (t : ℕ) (es fs : List ℕ)
    → Runs (exiting k) k' t
    → t ≢ current k
    → IsRing k'.links k.at.readyqueue es
    → IsRing k'.links k.at.freequeue (fs ++ (list_of (current k) ∷ []))
    → ((u : ℕ) → (k'.task u).pid ≡ ((exiting k).task u).pid)
    → k'.page_mem ≡ (exiting k).page_mem
    → k'.phys_mem ≡ (exiting k).phys_mem
    → Ended k k' t es fs
unfolding current
Ended-exiting k k' t es fs r ne ready free pids pages phys = record {
  stack = ground (arith, r.stack);
  quantum = ground (arith, r.quantum);
  address_space = ground (arith, r.address_space);
  ready = ready;
  free = free;
  no_pid = ground (arith, pids (current k));
  frames =
      rw (pages, phys) (free_user_pages-DataFreed (get_pt k (current k)) k.phys_mem k.page_mem);
}

-- `sys_exit` of a task whose heap pointer is not below its heap's start: the struct goes to the tail
-- of the free queue with PID -1, and the head of the ready queue runs. The frames of the 20 data
-- pages are free, but for a frame that is not above the kernel's last, and the entries of these pages
-- are clear; no other frame is freed, that of a heap page neither, and no other entry has changed.
pub sys_exit-Ended :
    (k : Kernel) (e : ℕ) (es fs : List ℕ)
    → CanEnd k e es fs
    → (k.task (current k)).heap_start_proc ≤ heap_pointer k (current k)
    → Ended k (sys_exit k) (list_head_to_task_struct e) es fs
sys_exit-Ended k e es fs can h =
    let c = list_of (current k) in
    let ready = list_add_tail-frame c can.free can.ready can.apart can.not_ready in
    let free = list_add_tail-IsRing c can.free can.not_head can.not_free in
    let s = sched_next_rr-cons (exiting k) e es ready in
    let m = sched_next_rr-memory (exiting k) e es ready in
    let apart : Disjoint (k.at.readyqueue ∷ e ∷ es) (k.at.freequeue ∷ (fs ++ (c ∷ []))) =
      Disjoint-symm (k.at.freequeue ∷ (fs ++ (c ∷ []))) (k.at.readyqueue ∷ e ∷ es) (
        Disjoint-append (k.at.freequeue ∷ fs) (c ∷ []) (k.at.readyqueue ∷ e ∷ es) can.apart
          (can.not_ready, tt)) in
    subst (λ q. Ended k q (list_head_to_task_struct e) es fs) (sym (sys_exit-eq k h))
      (Ended-exiting k (sched_next_rr (exiting k)) (list_head_to_task_struct e) es fs s.0 can.other
        s.1 (s.2 k.at.freequeue (fs ++ (c ∷ [])) free apart) m.0 m.1 m.2)
