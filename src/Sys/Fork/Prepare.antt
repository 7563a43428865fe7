-- ===== src/Sys/Fork/Prepare.antt =====
-- The state in which `sys_fork` makes its copies.
use zeos_soa.Base.{ℕ, ◌+◌, ◌-◌, ◌*◌, ◌/◌, ◌%◌, ◌^◌, ◌≤◌, ◌<◌, ◌≡◌, ◌≢◌, sym, ap, subst, ◌∙◌, arith}
use zeos_soa.Mm.Frames.{PhysMem, free_mark, used_mark}
use zeos_soa.Mm.Frames.Alloc.{IsUserFrame}
use zeos_soa.Mm.Paging.{Entry, PageMem, num_pag_data, pag_log_init_data, entry_at, get_frame}
use zeos_soa.Kernel.{Kernel, Task, get_pt, allocate_dir}
use zeos_soa.Sched.{num_sem, init_sems_loop}
use zeos_soa.Sched.Sems.{init_sems_loop-rest}
use zeos_soa.Sys.{copy_union}
use zeos_soa.Sys.Fork.Copy.{Apart}
use zeos_soa.Sys.Fork.Space.{entries-Apart, IsDataPage, CanFork}
use zeos_soa.Sys.Fork.Frames.{OwnFrames, data_entry}

-- The child's struct is a copy of the parent's, with a directory of its own.
unfoldable pub prepared : Kernel → (parent child : ℕ) → Kernel
prepared k parent child =
    let k2 = copy_union k parent child in
    allocate_dir (init_sems_loop num_sem (k2.task child).semafors 0 k2) child

-- The address of the child's directory, and of the table that it leads to.
abbrev pub child_dir : Kernel → ℕ → ℕ
child_dir k child = k.at.dir_pages + 4096 * ((child - k.at.task) / 4096)

abbrev pub child_pt : Kernel → ℕ → ℕ
child_pt k child = (k.page_mem (child_dir k child)).pbase_addr * 2 ^ 12 % 2 ^ 32

-- What the preparation leaves as it was.
module _ (k : Kernel) (parent child : ℕ) where
  sems_reset : Kernel
  sems_reset =
      let k2 = copy_union k parent child in init_sems_loop num_sem (k2.task child).semafors 0 k2

  sems_kept :
      sems_reset
      ≡ record (copy_union k parent child) { sem = sems_reset.sem; links = sems_reset.links }
  unfolding sems_reset
  sems_kept =
      let k2 = copy_union k parent child in
      init_sems_loop-rest num_sem (k2.task child).semafors 0 k2

  pub page_mem-prepared : (prepared k parent child).page_mem ≡ k.page_mem
  unfolding prepared sems_reset allocate_dir copy_union
  page_mem-prepared = ap (λ (q : Kernel). q.page_mem) sems_kept

  pub phys_mem-prepared : (prepared k parent child).phys_mem ≡ k.phys_mem
  unfolding prepared sems_reset allocate_dir copy_union
  phys_mem-prepared = ap (λ (q : Kernel). q.phys_mem) sems_kept

  pub frame_data-prepared : (prepared k parent child).frame_data ≡ k.frame_data
  unfolding prepared sems_reset allocate_dir copy_union
  frame_data-prepared = ap (λ (q : Kernel). q.frame_data) sems_kept

  pub global_pid-prepared : (prepared k parent child).global_pid ≡ k.global_pid
  unfolding prepared sems_reset allocate_dir copy_union
  global_pid-prepared = ap (λ (q : Kernel). q.global_pid) sems_kept

  pub at-prepared : (prepared k parent child).at ≡ k.at
  unfolding prepared sems_reset allocate_dir copy_union
  at-prepared = ap (λ (q : Kernel). q.at) sems_kept

  pub registers-prepared :
      ((prepared k parent child).esp ≡ k.esp)
      × ((prepared k parent child).ebp ≡ k.ebp)
      × ((prepared k parent child).remaining_quantum ≡ k.remaining_quantum)
  unfolding prepared sems_reset allocate_dir copy_union
  registers-prepared = (
    ap (λ (q : Kernel). q.esp) sems_kept,
    ap (λ (q : Kernel). q.ebp) sems_kept,
    ap (λ (q : Kernel). q.remaining_quantum) sems_kept,
  )

  pub other-prepared : (u : ℕ) → u ≢ child → (prepared k parent child).task u ≡ k.task u
  unfolding prepared sems_reset allocate_dir copy_union
  other-prepared u ne =
      let same : sems_reset.task u ≡ k.task u =
        ap (λ (q : Kernel). q.task u) sems_kept ∙ ground arith in
      ground (arith, same)

  pub quantum-prepared :
      ((prepared k parent child).task child).total_quantum ≡ (k.task parent).total_quantum
  unfolding prepared sems_reset allocate_dir copy_union
  quantum-prepared =
      let same : sems_reset.task child ≡ k.task parent =
        ap (λ (q : Kernel). q.task child) sems_kept ∙ ground arith in
      ground (arith, same)

  pub parent-prepared : child ≢ parent → (prepared k parent child).task parent ≡ k.task parent
  parent-prepared ne = other-prepared parent (λ e. ne (sym e))

  pub dir-prepared : ((prepared k parent child).task child).dir_pages_base_addr ≡ child_dir k child
  unfolding prepared sems_reset allocate_dir copy_union
  dir-prepared =
      let of_sems : ((prepared k parent child).task child).dir_pages_base_addr
          ≡ child_dir sems_reset child =
        ground arith in
      of_sems ∙ ap (λ (q : Kernel). q.at.dir_pages + 4096 * ((child - q.at.task) / 4096)) sems_kept

  pub pt-prepared : get_pt (prepared k parent child) child ≡ child_pt k child
  unfolding get_pt
  pt-prepared =
      ap (λ d. ((prepared k parent child).page_mem d).pbase_addr * 2 ^ 12 % 2 ^ 32) dir-prepared
      ∙ ap (λ (m : PageMem). (m (child_dir k child)).pbase_addr * 2 ^ 12 % 2 ^ 32) page_mem-prepared

-- What `sys_fork` relies on: the child's table at `cpt` shares no memory with the parent's at `ppt`
-- and does not hold the parent's directory; the parent, whose task is `t`, has its data pages, in
-- frames that are marked used, and no heap.
pub record CanCopy (ppt cpt : ℕ) (t : Task) (pm : PageMem) (m : PhysMem) : Type 0 where
  pub apart : Apart ppt cpt
  pub dir_kept : (j : ℕ) → j < 1024 → t.dir_pages_base_addr ≢ entry_at cpt j
  pub no_heap : t.heap_pointer_proc ≤ t.heap_start_proc
  pub present : (p : ℕ) → IsDataPage p → (pm (entry_at ppt p)).present ≡ 1
  pub used : (p : ℕ) → IsDataPage p → m (get_frame pm ppt p) ≡ used_mark

-- The frames that the child got are fit for the copies.
module _ (ppt cpt parent : ℕ) (k k' : Kernel)
    (c : CanCopy ppt cpt (k.task parent) k.page_mem k.phys_mem)
    (o : OwnFrames num_pag_data cpt 0 k k') where
  pub parent_entry : (p : ℕ) → p < 1024 → k'.page_mem (entry_at ppt p) ≡ k.page_mem (entry_at ppt p)
  parent_entry p h =
      o.others (entry_at ppt p)
        (λ j l u. entries-Apart ppt cpt p (pag_log_init_data + j) c.apart h (omega arith))

  pub parent_frame : (p : ℕ) → p < 1024 → get_frame k'.page_mem ppt p ≡ get_frame k.page_mem ppt p
  unfolding get_frame
  parent_frame p h = ap (λ (e : Entry). e.pbase_addr) (parent_entry p h)

  parent_task : k'.task parent ≡ k.task parent
  parent_task = ap (λ (q : Kernel). q.task parent) o.rest

  -- A data page by its index among them.
  pub by_index :
      (P : ℕ → Type 0)
      → ((j : ℕ) → 0 ≤ j → j < 0 + num_pag_data → P (pag_log_init_data + j))
      → (p : ℕ) → IsDataPage p
      → P p
  by_index P h p d =
      let index : pag_log_init_data + (p - pag_log_init_data) ≡ p = omega arith in
      subst P index (h (p - pag_log_init_data) (omega arith) (omega arith))

  pub child_frame_user : (p : ℕ) → IsDataPage p → IsUserFrame (get_frame k'.page_mem cpt p)
  unfolding get_frame
  child_frame_user = by_index _ o.user

  pub child_frame_free :
      (p : ℕ) → IsDataPage p → k.phys_mem (get_frame k'.page_mem cpt p) ≡ free_mark
  unfolding get_frame
  child_frame_free = by_index _ o.was_free

  pub child_frames_distinct :
      (p q : ℕ)
      → IsDataPage p
      → IsDataPage q
      → p < q
      → get_frame k'.page_mem cpt q ≢ get_frame k'.page_mem cpt p
  unfolding get_frame
  child_frames_distinct p q d e l z =
      let at_p : data_entry cpt (p - pag_log_init_data) ≡ entry_at cpt p = omega arith in
      let at_q : data_entry cpt (q - pag_log_init_data) ≡ entry_at cpt q = omega arith in
      o.distinct (p - pag_log_init_data) (q - pag_log_init_data) (omega arith) (omega arith)
        (omega arith)
        (ap (λ a. (k'.page_mem a).pbase_addr) at_q
          ∙ z
          ∙ sym (ap (λ a. (k'.page_mem a).pbase_addr) at_p))

  child_frame_fresh :
      (p q : ℕ)
      → IsDataPage p
      → IsDataPage q
      → get_frame k'.page_mem ppt q ≢ get_frame k'.page_mem cpt p
  child_frame_fresh p q d e z =
      let both : used_mark ≡ free_mark =
        sym (c.used q e)
        ∙ ap k.phys_mem (sym (parent_frame q (omega arith)) ∙ z)
        ∙ child_frame_free p d in
      omega arith

  pub own_frames-CanFork : CanFork ppt cpt parent k'
  own_frames-CanFork = record {
    apart = c.apart;
    no_heap = subst (λ t. t.heap_pointer_proc ≤ t.heap_start_proc) (sym parent_task) c.no_heap;
    present = λ p d. ap (λ (e : Entry). e.present) (parent_entry p (omega arith)) ∙ c.present p d;
    small = λ p d. omega (arith, child_frame_user p d);
    distinct = child_frames_distinct;
    fresh = child_frame_fresh;
  }
