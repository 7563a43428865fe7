-- ===== src/Sys/Fork/Memory.antt =====
-- The frames and the copies of `sys_fork` together.
use zeos_soa.Base.{ℕ, ◌+◌, ◌<◌, ◌≡◌, ◌≢◌, refl, sym, ap, subst, ◌∙◌, some, true, arith}
use zeos_soa.Mm.Frames.{PhysMem, free_mark, used_mark}
use zeos_soa.Mm.Paging.{
  Entry, PageMem, mapping, zero_entry, num_pag_data, pag_log_init_data, entry_at, get_frame,
}
use zeos_soa.Kernel.{Kernel, get_pt}
use zeos_soa.Sys.Fork.{data_pages_loop, copy_space}
use zeos_soa.Sys.Fork.Space.{IsSharedPage, IsDataPage, first_data, Forked}
use zeos_soa.Sys.Fork.Child.{copy_space-Forked}
use zeos_soa.Sys.Fork.Frames.{FreeFrames, OwnFrames, data_pages_loop-OwnFrames}
use zeos_soa.Sys.Fork.Prepare.{
  CanCopy, own_frames-CanFork, child_frame_free, child_frames_distinct, by_index, parent_entry,
  parent_frame,
}

-- What the frames hold.
abbrev pub FrameData : Type 0
FrameData = ℕ → ℕ → ℕ

-- The memory before and after: the child's data pages have frames of their own that were free, with
-- the bytes of the parent's pages; the pages of kernel and code are the parent's frames, writable
-- and open to user mode; the parent's pages and their bytes are as they were, and the pages that it
-- borrowed are unmapped.
pub record ForkedMemory (ppt cpt : ℕ) (pm : PageMem) (m : PhysMem) (fd : FrameData) (pm' : PageMem)
    (m' : PhysMem) (fd' : FrameData) : Type 0 where
  pub was_free : (p : ℕ) → IsDataPage p → m (get_frame pm' cpt p) ≡ free_mark
  pub is_used : (p : ℕ) → IsDataPage p → m' (get_frame pm' cpt p) ≡ used_mark
  pub distinct :
      (p q : ℕ) → IsDataPage p → IsDataPage q → p < q → get_frame pm' cpt q ≢ get_frame pm' cpt p
  pub child_bytes : (p : ℕ) → IsDataPage p → fd' (get_frame pm' cpt p) ≡ fd (get_frame pm ppt p)
  pub parent_bytes : (p : ℕ) → IsDataPage p → fd' (get_frame pm' ppt p) ≡ fd (get_frame pm ppt p)
  pub parent_table :
      (p : ℕ) → p < first_data + num_pag_data → pm' (entry_at ppt p) ≡ pm (entry_at ppt p)
  pub borrowed : (p : ℕ) → IsDataPage p → pm' (entry_at ppt (p + num_pag_data)) ≡ zero_entry
  pub shared : (p : ℕ) → IsSharedPage p → pm' (entry_at cpt p) ≡ mapping (get_frame pm ppt p) 1 1

-- The memory before may be replaced by one that is the same.
pub ForkedMemory-same :
    (ppt cpt : ℕ) (pm pm0 : PageMem) (m m0 : PhysMem) (fd fd0 : FrameData) (pm' : PageMem)
    (m' : PhysMem) (fd' : FrameData)
    → pm0 ≡ pm
    → m0 ≡ m
    → fd0 ≡ fd
    → ForkedMemory ppt cpt pm0 m0 fd0 pm' m' fd'
    → ForkedMemory ppt cpt pm m fd pm' m' fd'
ForkedMemory-same ppt cpt pm pm0 m m0 fd fd0 pm' m' fd' a b c f =
    subst (λ z. ForkedMemory ppt cpt z m fd pm' m' fd') a
      (subst (λ z. ForkedMemory ppt cpt pm0 z fd pm' m' fd') b
        (subst (λ z. ForkedMemory ppt cpt pm0 m0 z pm' m' fd') c f))

-- The parent's table is where it was.
pt-OwnFrames :
    (ppt cpt parent : ℕ) (k k' : Kernel)
    → CanCopy ppt cpt (k.task parent) k.page_mem k.phys_mem
    → OwnFrames num_pag_data cpt 0 k k'
    → get_pt k' parent ≡ get_pt k parent
unfolding get_pt
pt-OwnFrames ppt cpt parent k k' c o =
    let dir : (k'.task parent).dir_pages_base_addr ≡ (k.task parent).dir_pages_base_addr =
      ap (λ (q : Kernel). (q.task parent).dir_pages_base_addr) o.rest in
    let entry : k'.page_mem (k.task parent).dir_pages_base_addr
        ≡ k.page_mem (k.task parent).dir_pages_base_addr =
      o.others (k.task parent).dir_pages_base_addr
        (λ j l u. c.dir_kept (pag_log_init_data + j) (omega arith)) in
    rw (dir, entry) refl

module _ (ppt cpt parent : ℕ) (k k4 k5 : Kernel)
    (c : CanCopy ppt cpt (k.task parent) k.page_mem k.phys_mem)
    (o : OwnFrames num_pag_data cpt 0 k k4) (f : Forked ppt cpt k4 k5) where
  child_frame : (p : ℕ) → IsDataPage p → get_frame k5.page_mem cpt p ≡ get_frame k4.page_mem cpt p
  unfolding get_frame
  child_frame p d = ap (λ (e : Entry). e.pbase_addr) (f.own p d)

  table_kept :
      (p : ℕ)
      → p < first_data + num_pag_data
      → k5.page_mem (entry_at ppt p) ≡ k.page_mem (entry_at ppt p)
  table_kept p l = f.parent_table p l ∙ parent_entry ppt cpt parent k k4 c o p (omega arith)

  frame_kept :
      (p : ℕ)
      → p < first_data + num_pag_data
      → get_frame k5.page_mem ppt p ≡ get_frame k4.page_mem ppt p
  unfolding get_frame
  frame_kept p l = ap (λ (e : Entry). e.pbase_addr) (f.parent_table p l)

  frame_of_parent : (p : ℕ) → p < 1024 → get_frame k4.page_mem ppt p ≡ get_frame k.page_mem ppt p
  frame_of_parent = parent_frame ppt cpt parent k k4 c o

  data_kept : (h : ℕ) → k4.frame_data h ≡ k.frame_data h
  data_kept h = ap (λ (q : Kernel). q.frame_data h) o.rest

  frames_used : (p : ℕ) → IsDataPage p → k4.phys_mem (get_frame k4.page_mem cpt p) ≡ used_mark
  unfolding get_frame
  frames_used = by_index ppt cpt parent k k4 c o _ o.is_used

  frames-ForkedMemory :
      ForkedMemory ppt cpt k.page_mem k.phys_mem k.frame_data k5.page_mem k5.phys_mem k5.frame_data
  frames-ForkedMemory = record {
    was_free =
        λ p d. ap k.phys_mem (child_frame p d) ∙ child_frame_free ppt cpt parent k k4 c o p d;
    is_used = λ p d.
        ap k5.phys_mem (child_frame p d)
        ∙ ap (λ (q : Kernel). q.phys_mem (get_frame k4.page_mem cpt p)) f.rest
        ∙ frames_used p d;
    distinct = λ p q d e l.
        rw (child_frame p d, child_frame q e)
          (child_frames_distinct ppt cpt parent k k4 c o p q d e l);
    child_bytes = λ p d.
        ap k5.frame_data (child_frame p d)
        ∙ f.child_bytes p d
        ∙ ap k4.frame_data (frame_of_parent p (omega arith))
        ∙ data_kept (get_frame k.page_mem ppt p);
    parent_bytes = λ p d.
        ap k5.frame_data (frame_kept p (omega arith))
        ∙ f.parent_bytes p d
        ∙ ap k4.frame_data (frame_of_parent p (omega arith))
        ∙ data_kept (get_frame k.page_mem ppt p);
    parent_table = table_kept;
    borrowed = f.borrowed;
    shared = λ p s. f.shared p s ∙ ap (λ b. mapping b 1 1) (frame_of_parent p (omega arith));
  }

abbrev pub with_memory : Kernel → PageMem → PhysMem → FrameData → Kernel
with_memory k pm m fd = record k { page_mem = pm; phys_mem = m; frame_data = fd }

memory_only :
    (k k4 k5 : Kernel)
    → k4 ≡ record k { phys_mem = k4.phys_mem; page_mem = k4.page_mem }
    → k5 ≡ record k4 { page_mem = k5.page_mem; frame_data = k5.frame_data }
    → k5 ≡ with_memory k k5.page_mem k5.phys_mem k5.frame_data
memory_only k k4 k5 e f =
    f
    ∙ ap (λ (q : Kernel). record q { page_mem = k5.page_mem; frame_data = k5.frame_data }) e
    ∙ ap (λ m. with_memory k k5.page_mem m k5.frame_data) (sym (ap (λ (q : Kernel). q.phys_mem) f))

-- The frames are found, the copies end without a page fault, and this is the memory then.
pub fork_memory :
    (ppt cpt parent : ℕ) (k : Kernel) (g : ℕ → ℕ)
    → get_pt k parent ≡ ppt
    → CanCopy ppt cpt (k.task parent) k.page_mem k.phys_mem
    → FreeFrames num_pag_data k.phys_mem g
    → (k4 k5 : Kernel) × (data_pages_loop num_pag_data cpt 0 k ≡ (true, num_pag_data, k4))
      × (copy_space (get_pt k4 parent) cpt parent k4 ≡ some k5)
      × (k5 ≡ with_memory k k5.page_mem k5.phys_mem k5.frame_data)
      × ForkedMemory ppt cpt k.page_mem k.phys_mem k.frame_data k5.page_mem k5.phys_mem
          k5.frame_data
fork_memory ppt cpt parent k g at_ppt c h =
    let (k4, e, o) = data_pages_loop-OwnFrames num_pag_data cpt 0 k g h in
    let (k5, e', f) =
      copy_space-Forked ppt cpt parent k4 (own_frames-CanFork ppt cpt parent k k4 c o) in
    let pt : get_pt k4 parent ≡ ppt = pt-OwnFrames ppt cpt parent k k4 c o ∙ at_ppt in
    (
      k4,
      k5,
      e,
      rw (pt) e',
      memory_only k k4 k5 o.rest f.rest,
      frames-ForkedMemory ppt cpt parent k k4 k5 c o f,
    )
