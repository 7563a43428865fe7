-- ===== src/Sys/Fork/Process.antt =====
-- What `sys_fork` does when there are a task struct and frames for the child.
use zeos_soa.Base.{
  ℕ, ◌≡◌, ◌≢◌, refl, sym, ap, subst, ◌∙◌, Option, some, Bool, ◌>>=◌, List, [], ◌∷◌, ◌++◌, Disjoint,
  true, false, add32,
}
use zeos_soa.KernelList.{list_empty, list_first, list_del, list_add_tail}
use zeos_soa.KernelList.Ring.{IsRing, list_empty_iff}
use zeos_soa.Sched.Sems.{SemsApart}
use zeos_soa.Sys.Fork.Queues.{fork_queues}
use zeos_soa.Mm.Paging.{num_pag_data}
use zeos_soa.Kernel.{
  Kernel, Layout, st_ready, list_of, current, list_head_to_task_struct, set_links, get_pt,
  get_ticks, init_stats,
}
use zeos_soa.Errno.{eagain}
use zeos_soa.Sys.Fork.{undo_fork, data_pages_loop, copy_space, start_child, sys_fork}
use zeos_soa.Sys.Fork.Frames.{FreeFrames}
use zeos_soa.Sys.Fork.Start.{memory-start_child, child-start_child}
use zeos_soa.Sys.Fork.Memory.{ForkedMemory, ForkedMemory-same, with_memory, fork_memory}
use zeos_soa.Sys.Fork.Prepare.{
  prepared, child_dir, child_pt, page_mem-prepared, phys_mem-prepared, frame_data-prepared,
  global_pid-prepared, parent-prepared, at-prepared, dir-prepared, pt-prepared, CanCopy,
}

-- The task struct at the head of the free queue.
abbrev pub child_of : Kernel → ℕ
child_of k = list_head_to_task_struct (list_first k.links k.at.freequeue)

-- The struct is off the free queue.
abbrev pub taken : Kernel → Kernel
taken k = set_links k (list_del k.links (list_first k.links k.at.freequeue))

-- The state in which the child is prepared.
abbrev pub before : Kernel → Kernel
before k = prepared (taken k) (current k) (child_of k)

-- What the child gets: the next PID, the state ready, a directory of its own, and its memory.
pub record ForkedProcess (k : Kernel) (rs fs : List ℕ) (pid : ℕ) (k' : Kernel) : Type 0 where
  pub next_pid : pid ≡ add32 k.global_pid 1
  pub counted : k'.global_pid ≡ pid
  pub child_pid : (k'.task (child_of k)).pid ≡ pid
  pub state : (k'.task (child_of k)).state ≡ st_ready
  pub dir : (k'.task (child_of k)).dir_pages_base_addr ≡ child_dir k (child_of k)
  pub ready : IsRing k'.links k.at.readyqueue (rs ++ (list_of (child_of k) ∷ []))
  pub free : IsRing k'.links k.at.freequeue fs
  pub memory :
      ForkedMemory
        (get_pt k (current k))
        (child_pt k (child_of k))
        k.page_mem
        k.phys_mem
        k.frame_data
        k'.page_mem
        k'.phys_mem
        k'.frame_data

-- The end of `sys_fork`, after the allocation of the frames.
abbrev pub after_frames : (ret : ℕ) → Kernel → Bool × ℕ × Kernel → Option (ℕ × Kernel)
after_frames ret k (enough, pag, k4) = elim enough [
  | false ↦ some (eagain, undo_fork (get_pt (before k) (child_of k)) pag (list_of (child_of k)) k4)
  | true ↦ do
    k5 ← copy_space (get_pt k4 (current k)) (get_pt (before k) (child_of k)) (current k) k4
    some (start_child (current k) (child_of k) ret k5)
]

pub sys_fork-frames :
    (ret : ℕ) (k : Kernel)
    → list_empty k.links k.at.freequeue ≡ false
    → sys_fork ret k
      ≡ after_frames ret k
          (data_pages_loop num_pag_data (get_pt (before k) (child_of k)) 0 (before k))
unfolding sys_fork prepared
sys_fork-frames ret k some_task = rw (some_task, sys_fork) refl

pub sys_fork-eq :
    (ret : ℕ) (k k4 k5 : Kernel) (pag : ℕ)
    → list_empty k.links k.at.freequeue ≡ false
    → data_pages_loop num_pag_data (get_pt (before k) (child_of k)) 0 (before k) ≡ (true, pag, k4)
    → copy_space (get_pt k4 (current k)) (get_pt (before k) (child_of k)) (current k) k4 ≡ some k5
    → sys_fork ret k ≡ some (start_child (current k) (child_of k) ret k5)
sys_fork-eq ret k k4 k5 pag some_task enough copies =
    sys_fork-frames ret k some_task ∙ ap (after_frames ret k) enough ∙ rw (copies) refl

-- The conditions: a task struct that is not the caller's, queues that share no node with each other
-- or with the heads of the caller's semaphores, twenty frames, and the memory laid out as `CanCopy`
-- says.
pub record CanForkProcess (k : Kernel) (rs fs : List ℕ) (g : ℕ → ℕ) : Type 0 where
  pub free : IsRing k.links k.at.freequeue (list_first k.links k.at.freequeue ∷ fs)
  pub ready : IsRing k.links k.at.readyqueue rs
  pub apart :
      Disjoint (k.at.freequeue ∷ list_first k.links k.at.freequeue ∷ fs) (k.at.readyqueue ∷ rs)
  pub sems_free : SemsApart (k.task (current k)).semafors (k.at.freequeue ∷ fs)
  pub sems_ready : SemsApart (k.task (current k)).semafors (k.at.readyqueue ∷ rs)
  pub node : list_first k.links k.at.freequeue ≡ list_of (child_of k)
  pub other : child_of k ≢ current k
  pub frames : FreeFrames num_pag_data k.phys_mem g
  pub layout :
      CanCopy
        (get_pt k (current k))
        (child_pt k (child_of k))
        (k.task (current k))
        k.page_mem
        k.phys_mem

pt-before :
    (k : Kernel) → child_of k ≢ current k → get_pt (before k) (current k) ≡ get_pt k (current k)
unfolding get_pt
pt-before k other =
    let t = taken k in
    let pm : (before k).page_mem ≡ k.page_mem = page_mem-prepared t (current k) (child_of k) in
    let par : (before k).task (current k) ≡ k.task (current k) =
      parent-prepared t (current k) (child_of k) other in
    rw (par, pm) refl

-- The memory before the preparation and after it is the same.
pub before-memory :
    (k : Kernel) (rs fs : List ℕ) (g : ℕ → ℕ)
    → CanForkProcess k rs fs g
    → (k4 k5 : Kernel) × (data_pages_loop num_pag_data (get_pt (before k) (child_of k)) 0 (before k)
        ≡ (true, num_pag_data, k4))
      × (copy_space (get_pt k4 (current k)) (get_pt (before k) (child_of k)) (current k) k4
          ≡ some k5)
      × (k5 ≡ with_memory (before k) k5.page_mem k5.phys_mem k5.frame_data)
      × ForkedMemory
          (get_pt k (current k))
          (child_pt k (child_of k))
          k.page_mem
          k.phys_mem
          k.frame_data
          k5.page_mem
          k5.phys_mem
          k5.frame_data
before-memory k rs fs g can =
    let t = taken k in
    let p = current k in
    let c = child_of k in
    let pm : (before k).page_mem ≡ k.page_mem = page_mem-prepared t p c in
    let m : (before k).phys_mem ≡ k.phys_mem = phys_mem-prepared t p c in
    let fd : (before k).frame_data ≡ k.frame_data = frame_data-prepared t p c in
    let par : (before k).task p ≡ k.task p = parent-prepared t p c can.other in
    let cpt : get_pt (before k) c ≡ child_pt k c = pt-prepared t p c in
    let frames = subst (λ z. FreeFrames num_pag_data z g) (sym m) can.frames in
    let layout : CanCopy (get_pt k p) (child_pt k c) ((before k).task p) (before k).page_mem
        (before k).phys_mem =
      rw (par, pm, m) can.layout in
    let (k4, k5, e, e', same, mem) =
      fork_memory (get_pt k p) (child_pt k c) p (before k) g (pt-before k can.other) layout
        frames in
    (
      k4,
      k5,
      rw (cpt) e,
      rw (cpt) e',
      same,
      ForkedMemory-same (get_pt k p) (child_pt k c) k.page_mem (before k).page_mem k.phys_mem
          (before k).phys_mem k.frame_data (before k).frame_data k5.page_mem k5.phys_mem
          k5.frame_data pm m fd mem,
    )

-- The queues at the end.
pub started-queues :
    (ret : ℕ) (k : Kernel) (rs fs : List ℕ) (g : ℕ → ℕ) (k5 : Kernel)
    → CanForkProcess k rs fs g
    → k5 ≡ with_memory (before k) k5.page_mem k5.phys_mem k5.frame_data
    → let l = (start_child (current k) (child_of k) ret k5).1.links in
      IsRing l k.at.readyqueue (rs ++ (list_of (child_of k) ∷ [])) × IsRing l k.at.freequeue fs
unfolding start_child init_stats get_ticks
started-queues ret k rs fs g k5 can same =
    let n = list_first k.links k.at.freequeue in
    let t = taken k in
    let links : k5.links ≡ (before k).links = ap (λ (q : Kernel). q.links) same in
    let at : k5.at ≡ k.at =
      ap (λ (q : Kernel). q.at) same ∙ at-prepared t (current k) (child_of k) in
    let queues =
      fork_queues k (current k) (child_of k) n rs fs can.node can.free can.ready can.apart
        can.sems_free can.sems_ready in
    subst
      (λ z.
        IsRing z k.at.readyqueue (rs ++ (list_of (child_of k) ∷ [])) × IsRing z k.at.freequeue fs)
      (ap (λ z. list_add_tail (before k).links z k.at.readyqueue) can.node
        ∙ sym (cc (links, ap (λ (l : Layout). l.readyqueue) at)))
      (subst
        (λ z.
          IsRing (list_add_tail (before k).links n k.at.readyqueue) k.at.readyqueue (rs ++ (z ∷ []))
          × IsRing (list_add_tail (before k).links n k.at.readyqueue) k.at.freequeue fs)
        can.node queues)

-- `sys_fork` with a task struct and twenty frames free, for a caller that has its data pages and no
-- heap: it returns the next PID, without a page fault in the kernel; the struct at the head of the
-- free queue is the child's, last in the ready queue, with that PID and a directory of its own;
-- each of its data pages has a frame of its own that was free and now holds the bytes of the
-- caller's page; its pages of kernel and code are the caller's frames, all of them writable and
-- open to user mode; and the caller's pages, their bytes included, are as they were, and none of
-- the child's is left in its table.
pub sys_fork-ForkedProcess :
    (ret : ℕ) (k : Kernel) (rs fs : List ℕ) (g : ℕ → ℕ)
    → CanForkProcess k rs fs g
    → (pid : ℕ) × (k' : Kernel) × (sys_fork ret k ≡ some (pid, k')) × ForkedProcess k rs fs pid k'
sys_fork-ForkedProcess ret k rs fs g can =
    let p = current k in
    let c = child_of k in
    let (k4, k5, e, e', same, mem) = before-memory k rs fs g can in
    let r = start_child p c ret k5 in
    let (pid, counted, child_pid, state, dir) = child-start_child p c ret k5 in
    let (pm, m, fd) = memory-start_child p c ret k5 in
    let t = taken k in
    let count = ap (λ (q : Kernel). q.global_pid) same ∙ global_pid-prepared t p c in
    let queues = started-queues ret k rs fs g k5 can same in
    (
      r.0,
      r.1,
      sys_fork-eq ret k k4 k5 num_pag_data
          (list_empty_iff k.links k.at.freequeue (list_first k.links k.at.freequeue ∷ fs) can.free)
          e e',
      record {
        next_pid = pid ∙ ap (λ n. add32 n 1) count;
        counted = counted;
        child_pid = child_pid;
        state = state;
        dir = dir ∙ ap (λ (q : Kernel). (q.task c).dir_pages_base_addr) same ∙ dir-prepared t p c;
        ready = queues.0;
        free = queues.1;
        memory = rw (pm, m, fd) mem;
      },
    )
