-- ===== src/Sys/Thread/Spawn.antt =====
-- What `sys_threadCreate` does when it creates a thread.
use zeos_soa.Base.{
  ℕ, ◌*◌, ◌/◌, ◌%◌, ◌^◌, ◌<◌, ◌≡◌, ◌≢◌, sym, ap, subst, ◌∙◌, false, some, List, [], ◌∷◌, ◌++◌,
  Disjoint, neg, add32,
}
use zeos_soa.KernelList.{list_add_tail, list_del}
use zeos_soa.KernelList.Ring.{IsRing}
use zeos_soa.Mm.Frames.{total_pages, alloc_frame}
use zeos_soa.Mm.Paging.{page_size, set_ss_pag}
use zeos_soa.Kernel.{Kernel, st_ready, list_of, list_head_to_task_struct, current, get_pt}
use zeos_soa.Sys.Heap.{heap_pointer}
use zeos_soa.Sys.Thread.{bad_pointers, start_thread, sys_thread_create}
use zeos_soa.Sys.Thread.Fields.{
  copied_links, parent-thread_union, child-thread_union, child-start_thread, parent-start_thread,
  rest-start_thread, with_stack, give_stack-eq, taken, unioned, sys_thread_create-eq, child-grown,
  parent-grown, links-spawn, memory-thread_union, queues_after,
}

-- The thread's task struct, at `t`, comes from the head of the free queue and waits behind the
-- nodes `rs` that were ready; it shares the caller's process, address space and semaphores, and
-- the page at the caller's heap pointer is now mapped to a fresh frame.
pub record Spawned (k : Kernel) (r : ℕ × Kernel) (t : ℕ) (rs fs : List ℕ) : Type 0 where
  pub result : r.0 ≡ add32 k.global_tid 1
  pub tid : (r.1.task t).tid ≡ r.0
  pub pid : (r.1.task t).pid ≡ (k.task (current k)).pid
  pub semafors : (r.1.task t).semafors ≡ (k.task (current k)).semafors
  pub space : (r.1.task t).dir_pages_base_addr ≡ (k.task (current k)).dir_pages_base_addr
  pub state : (r.1.task t).state ≡ st_ready
  pub ready : IsRing r.1.links k.at.readyqueue (rs ++ (list_of t ∷ []))
  pub free : IsRing r.1.links k.at.freequeue fs
  pub heap : (r.1.task (current k)).heap_pointer_proc ≡ add32 (heap_pointer k (current k)) page_size
  pub marked : r.1.phys_mem ≡ (alloc_frame k.phys_mem).1
  pub mapped :
      r.1.page_mem
      ≡ set_ss_pag k.page_mem
          (get_pt k (current k))
          (heap_pointer k (current k) / page_size)
          (alloc_frame k.phys_mem).0

-- The pointers are good, a task struct, a page and a frame are free, and the queues share no node.
pub record CanSpawn (k : Kernel) (function parameter wrapp n : ℕ) (rs fs : List ℕ) : Type 0 where
  pub pointers : bad_pointers k function parameter wrapp ≡ false
  pub free : IsRing k.links k.at.freequeue (n ∷ fs)
  pub ready : IsRing k.links k.at.readyqueue rs
  pub apart : Disjoint (k.at.freequeue ∷ n ∷ fs) (k.at.readyqueue ∷ rs)
  pub node : list_of (list_head_to_task_struct n) ≡ n
  pub other : list_head_to_task_struct n ≢ current k
  pub page : heap_pointer k (current k) / page_size < total_pages
  pub frame : (alloc_frame k.phys_mem).0 ≢ neg 1

pub spawn-Spawned :
    (k : Kernel) (function parameter wrapp n : ℕ) (rs fs : List ℕ)
    → CanSpawn k function parameter wrapp n rs fs
    → let p = current k in
      let c = list_head_to_task_struct n in
      let u = unioned k n in
      Spawned k
        (start_thread c (heap_pointer u p / page_size) wrapp (with_stack p c function parameter u))
        c
        rs
        fs
unfolding get_pt
spawn-Spawned k function parameter wrapp n rs fs can =
    let p = current k in
    let c = list_head_to_task_struct n in
    let u = unioned k n in
    let g = with_stack p c function parameter u in
    let pag = heap_pointer u p / page_size in
    let cs = child-start_thread c pag wrapp g in
    let rest = rest-start_thread c pag wrapp g in
    let own = child-grown u p c can.other ∙ child-thread_union (taken k n) p c can.other in
    let par = parent-thread_union (taken k n) p c can.other in
    let mem = memory-thread_union (taken k n) p c in
    let links = rest.0 ∙ links-spawn (taken k n) p c in
    let queues =
      queues_after k.links k.at.freequeue k.at.readyqueue n (list_of p) fs rs can.free can.ready
        can.apart in
    let final : (start_thread c pag wrapp g).1.links
        ≡ list_add_tail (copied_links (list_del k.links n) n (list_of p)) n k.at.readyqueue =
      links
      ∙ ap (λ z. list_add_tail (copied_links (list_del k.links n) z (list_of p)) z k.at.readyqueue)
          can.node in
    let tid = ap (λ t. t.tid) own in
    let pt : get_pt u c ≡ get_pt k p =
      ap (λ m. (m (u.task c).dir_pages_base_addr).pbase_addr * 2 ^ 12 % 2 ^ 32) mem.1
      ∙ ap (λ t. (k.page_mem t.dir_pages_base_addr).pbase_addr * 2 ^ 12 % 2 ^ 32)
          (child-thread_union (taken k n) p c can.other) in
    let hp : heap_pointer u p ≡ heap_pointer k p = ap (λ t. t.heap_pointer_proc) par in
    record {
      result = cs.0 ∙ tid;
      tid = cs.1 ∙ sym cs.0;
      pid = cs.2 ∙ ap (λ t. t.pid) own;
      semafors = cs.3 ∙ ap (λ t. t.semafors) own;
      space = cs.4 ∙ ap (λ t. t.dir_pages_base_addr) own;
      state = cs.5 ∙ ap (λ t. t.state) own;
      ready =
          subst (λ z. IsRing (start_thread c pag wrapp g).1.links k.at.readyqueue (rs ++ (z ∷ [])))
            (sym can.node)
            (subst (λ l. IsRing l k.at.readyqueue (rs ++ (n ∷ []))) (sym final) queues.0);
      free = subst (λ l. IsRing l k.at.freequeue fs) (sym final) queues.1;
      heap =
          ap (λ t. t.heap_pointer_proc) (parent-start_thread c pag wrapp p g can.other)
          ∙ parent-grown u p c
          ∙ ap (λ t. add32 t.heap_pointer_proc page_size) par;
      marked = rest.1 ∙ ap (λ m. (alloc_frame m).1) mem.0;
      mapped = rest.2 ∙ cc (mem.0, mem.1, pt, hp);
    }

-- `sys_threadCreate` with good pointers, with a task struct and a frame free and the heap pointer in
-- one of the 1024 pages of the table: it comes to its end and returns the next TID; the struct at the
-- head of the free queue is the thread's, ready behind the others, in the caller's process with its
-- semaphores; and the page at the caller's heap pointer, which moves up by a page, is mapped to the
-- frame that was allocated.
pub sys_thread_create-Spawned :
    (k : Kernel) (function parameter wrapp n : ℕ) (rs fs : List ℕ)
    → CanSpawn k function parameter wrapp n rs fs
    → (r : ℕ × Kernel) × (sys_thread_create function parameter wrapp k ≡ some r)
      × Spawned k r (list_head_to_task_struct n) rs fs
sys_thread_create-Spawned k function parameter wrapp n rs fs can =
    let p = current k in
    let c = list_head_to_task_struct n in
    let u = unioned k n in
    let par = parent-thread_union (taken k n) p c can.other in
    let mem = memory-thread_union (taken k n) p c in
    let page : heap_pointer u p / page_size < total_pages =
      subst (λ t. t.heap_pointer_proc / page_size < total_pages) (sym par) can.page in
    let frame : (alloc_frame u.phys_mem).0 ≢ neg 1 =
      subst (λ m. (alloc_frame m).0 ≢ neg 1) (sym mem.0) can.frame in
    (
      start_thread c (heap_pointer u p / page_size) wrapp (with_stack p c function parameter u),
      sys_thread_create-eq k function parameter wrapp n fs can.pointers can.free
          ∙ give_stack-eq p c function parameter wrapp u page frame,
      spawn-Spawned k function parameter wrapp n rs fs can,
    )
