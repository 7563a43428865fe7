-- ===== src/Sys/Thread/Fields.antt =====
-- What the steps of `sys_threadCreate` do to the fields of the kernel and to its queues.
use zeos_soa.Base.{
  ℕ, ◌*◌, ◌/◌, ◌<◌, ◌≡◌, ◌≢◌, refl, sym, true, false, ◌==◌, ltb, update, some, List, [], ◌∷◌, ◌++◌,
  Disjoint, Disjoint-symm, arith, neg, add32,
}
use zeos_soa.KernelList.{Links, set_next, set_prev, list_add_tail, list_del}
use zeos_soa.KernelList.Ring.{IsRing, list_empty_iff, list_first-IsRing, IsRing-set_prev-set_next}
use zeos_soa.KernelList.Insert.{list_add_tail-IsRing, list_add_tail-frame}
use zeos_soa.KernelList.Delete.{list_del-IsRing, list_del-frame}
use zeos_soa.Mm.Frames.{total_pages, alloc_frame}
use zeos_soa.Mm.Paging.{page_size, entry_at, mapping, set_ss_pag}
use zeos_soa.Kernel.{
  Kernel, st_ready, list_of, list_head_to_task_struct, current, set_links, get_pt, get_ticks,
  init_stats,
}
use zeos_soa.Sys.{copy_union}
use zeos_soa.Sys.Heap.{heap_pointer, set_heap_pointer}
use zeos_soa.Sys.Thread.{
  bad_pointers, put_word, thread_union, store_stack, start_thread, give_stack, sys_thread_create,
}

-- The links after the node left the free queue and the parent's node was copied over it.
abbrev pub copied_links : Links → (n p : ℕ) → Links
copied_links m n p = set_prev (set_next m n (m.next p)) n (m.prev p)

links-thread_union :
    (k : Kernel) (parent child : ℕ)
    → (thread_union k parent child).links ≡ copied_links k.links (list_of child) (list_of parent)
unfolding thread_union copy_union set_next set_prev
links-thread_union k parent child = refl

-- The fields of the union that the thread takes over from its parent or gets.
pub parent-thread_union :
    (k : Kernel) (parent child : ℕ)
    → child ≢ parent
    → (thread_union k parent child).task parent ≡ k.task parent
unfolding thread_union copy_union
parent-thread_union k parent child ne = ground arith

pub child-thread_union :
    (k : Kernel) (parent child : ℕ)
    → child ≢ parent
    → (thread_union k parent child).task child
      ≡ record (k.task parent) { tid = add32 k.global_tid 1; state = st_ready }
unfolding thread_union copy_union
child-thread_union k parent child ne = ground arith

-- What `start_thread` leaves of the fields of the thread and of another task.
pub child-start_thread :
    (child pag wrapp : ℕ) (k : Kernel)
    → let r = start_thread child pag wrapp k in
      (r.0 ≡ (k.task child).tid)
      × ((r.1.task child).tid ≡ (k.task child).tid)
      × ((r.1.task child).pid ≡ (k.task child).pid)
      × ((r.1.task child).semafors ≡ (k.task child).semafors)
      × ((r.1.task child).dir_pages_base_addr ≡ (k.task child).dir_pages_base_addr)
      × ((r.1.task child).state ≡ (k.task child).state)
unfolding start_thread init_stats get_ticks
child-start_thread child pag wrapp k =
    (ground arith, ground arith, ground arith, ground arith, ground arith, ground arith)

pub parent-start_thread :
    (child pag wrapp parent : ℕ) (k : Kernel)
    → child ≢ parent
    → (start_thread child pag wrapp k).1.task parent ≡ k.task parent
unfolding start_thread init_stats get_ticks
parent-start_thread child pag wrapp parent k ne = ground arith

pub rest-start_thread :
    (child pag wrapp : ℕ) (k : Kernel)
    → let r = start_thread child pag wrapp k in
      (r.1.links ≡ list_add_tail k.links (list_of child) k.at.readyqueue)
      × (r.1.phys_mem ≡ k.phys_mem)
      × (r.1.page_mem ≡ k.page_mem)
unfolding start_thread init_stats get_ticks
rest-start_thread child pag wrapp k = (refl, refl, refl)

-- The caller's heap has grown by the page that is mapped to a new frame.
abbrev pub grown : Kernel → (parent child : ℕ) → Kernel
grown k parent child =
    let (f, phys) = alloc_frame k.phys_mem in
    set_heap_pointer
      (record k {
        phys_mem = phys;
        page_mem = set_ss_pag k.page_mem (get_pt k child) (heap_pointer k parent / page_size) f;
      })
      parent (add32 (heap_pointer k parent) page_size)

-- The user's stack has its three words.
abbrev pub filled : (pt pag function parameter : ℕ) → Kernel → Kernel
filled pt pag function parameter k =
    let f = (k.page_mem (entry_at pt pag)).pbase_addr in
    let page = put_word (k.frame_data f) (4 * 1021) 0x777 in
    record k {
      frame_data =
          update k.frame_data f (put_word (put_word page (4 * 1022) function) (4 * 1023) parameter);
    }

store_stack-eq :
    (pt pag f function parameter : ℕ) (k : Kernel)
    → pag < total_pages
    → k.page_mem (entry_at pt pag) ≡ mapping f 1 1
    → store_stack pt pag function parameter k ≡ some (filled pt pag function parameter k)
unfolding store_stack
store_stack-eq pt pag f function parameter k page e =
    let low : ltb pag total_pages ≡ true = ground arith in
    let there : ((k.page_mem (entry_at pt pag)).present == 1) ≡ true = rw (e) refl in
    rw (low, there) refl

-- The kernel in which the thread's own state is set up.
abbrev pub with_stack : (parent child function parameter : ℕ) → Kernel → Kernel
with_stack parent child function parameter k =
    filled (get_pt k child) (heap_pointer k parent / page_size) function parameter
      (grown k parent child)

pub give_stack-eq :
    (parent child function parameter wrapp : ℕ) (k : Kernel)
    → heap_pointer k parent / page_size < total_pages
    → (alloc_frame k.phys_mem).0 ≢ neg 1
    → give_stack parent child function parameter wrapp k
      ≡ some (
          start_thread child
            (heap_pointer k parent / page_size)
            wrapp
            (with_stack parent child function parameter k))
unfolding give_stack set_ss_pag
give_stack-eq parent child function parameter wrapp k page frame =
    let pag = heap_pointer k parent / page_size in
    let few : ltb total_pages pag ≡ false = ground arith in
    let found : ((alloc_frame k.phys_mem).0 == neg 1) ≡ false = ground arith in
    let stored =
      store_stack-eq (get_pt k child) pag (alloc_frame k.phys_mem).0 function parameter
        (grown k parent child) page (ground arith) in
    rw (few, found, give_stack, stored) refl

-- The kernel in which the thread gets its stack.
abbrev pub taken : Kernel → (n : ℕ) → Kernel
taken k n = set_links k (list_del k.links n)

abbrev pub unioned : Kernel → (n : ℕ) → Kernel
unioned k n = thread_union (taken k n) (current k) (list_head_to_task_struct n)

pub sys_thread_create-eq :
    (k : Kernel) (function parameter wrapp n : ℕ) (fs : List ℕ)
    → bad_pointers k function parameter wrapp ≡ false
    → IsRing k.links k.at.freequeue (n ∷ fs)
    → sys_thread_create function parameter wrapp k
      ≡ give_stack (current k) (list_head_to_task_struct n) function parameter wrapp (unioned k n)
unfolding sys_thread_create
sys_thread_create-eq k function parameter wrapp n fs ok r =
    rw (ok, list_empty_iff k.links k.at.freequeue (n ∷ fs) r, list_first-IsRing r)

pub child-grown :
    (k : Kernel) (parent child : ℕ)
    → child ≢ parent
    → (grown k parent child).task child ≡ k.task child
child-grown k parent child ne = ground arith

pub parent-grown :
    (k : Kernel) (parent child : ℕ)
    → ((grown k parent child).task parent).heap_pointer_proc
      ≡ add32 (heap_pointer k parent) page_size
parent-grown k parent child = ground arith

pub links-spawn :
    (k : Kernel) (parent child : ℕ)
    → (list_add_tail
        (grown (thread_union k parent child) parent child).links
        (list_of child)
        (grown (thread_union k parent child) parent child).at.readyqueue)
      ≡ list_add_tail
          (copied_links k.links (list_of child) (list_of parent))
          (list_of child)
          k.at.readyqueue
unfolding thread_union copy_union set_next set_prev
links-spawn k parent child = refl

pub memory-thread_union :
    (k : Kernel) (parent child : ℕ)
    → ((thread_union k parent child).phys_mem ≡ k.phys_mem)
      × ((thread_union k parent child).page_mem ≡ k.page_mem)
unfolding thread_union copy_union
memory-thread_union k parent child = (refl, refl)

-- The two queues after the node went from one to the other.
pub queues_after :
    (m : Links) (fq rq n p : ℕ) (fs rs : List ℕ)
    → IsRing m fq (n ∷ fs)
    → IsRing m rq rs
    → Disjoint (fq ∷ n ∷ fs) (rq ∷ rs)
    → let after = list_add_tail (copied_links (list_del m n) n p) n rq in
      IsRing after rq (rs ++ (n ∷ [])) × IsRing after fq fs
queues_after m fq rq n p fs rs free ready apart =
    let m' = list_del m n in
    let ready1 =
      IsRing-set_prev-set_next n (m'.next p) (m'.prev p) (list_del-frame [] n fs free ready apart)
        apart.1.0.0 apart.1.0.1 in
    let free1 =
      IsRing-set_prev-set_next n (m'.next p) (m'.prev p) (list_del-IsRing [] n fs free)
        (λ e. free.away.0 (sym e)) free.distinct.0 in
    (
      list_add_tail-IsRing n ready1 apart.1.0.0 apart.1.0.1,
      list_add_tail-frame n ready1 free1 (Disjoint-symm (fq ∷ fs) (rq ∷ rs) (apart.0, apart.1.1))
          ((λ e. free.away.0 (sym e)), free.distinct.0),
    )
