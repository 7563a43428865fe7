-- ===== src/Sys/Fork/Child.antt =====
-- The copies of `sys_fork`, from the first page to the last.
use zeos_soa.Base.{ℕ, ◌+◌, ◌≤◌, ◌<◌, ◌≡◌, sym, ap, subst, ◌∙◌, some, arith}
use native.Mathlib.Decide.{dec_lt}
use zeos_soa.Mm.Frames.{num_pag_kernel}
use zeos_soa.Mm.Paging.{
  Entry, mapping, num_pag_code, num_pag_data, pag_log_init_code, entry_at, get_frame,
}
use zeos_soa.Kernel.{Kernel}
use zeos_soa.Sys.Heap.{heap_pointer}
use zeos_soa.Sys.Fork.{share_loop, heap_copy_loop, copy_space, region_fuel}
use zeos_soa.Sys.Fork.Copy.{Apart, Copyable, Copied}
use zeos_soa.Sys.Fork.Pages.{copy_pages_loop-Copied}
use zeos_soa.Sys.Fork.Space.{
  Shared, share_loop-Shared, heap_copy_loop-empty, entries-Apart, first_data, CanFork, Forked,
}

-- The two loops that share pages, one after the other.
Shared-append :
    (ppt cpt n m : ℕ) (k k1 k2 : Kernel)
    → Apart ppt cpt
    → n + m ≤ 1024
    → Shared ppt cpt 0 n k k1
    → Shared ppt cpt n m k1 k2
    → Shared ppt cpt 0 (n + m) k k2
unfolding get_frame
Shared-append ppt cpt n m k k1 k2 apart h s t = record {
  shared = λ j l u. elim (dec_lt j n) [
    | yes lt ↦
        t.others (entry_at cpt j) (λ i l' u'. omega arith) ∙ s.shared j (omega arith) (omega arith)
    | no ge ↦
        t.shared j (omega arith) (omega arith)
        ∙ ap (λ (e : Entry). mapping e.pbase_addr 1 1)
            (s.others (entry_at ppt j)
              (λ i l' u'. entries-Apart ppt cpt j i apart (omega arith) (omega arith)))
  ];
  others = λ a ne.
      t.others a (λ j l u. ne j (omega arith) (omega arith))
      ∙ s.others a (λ j l u. ne j (omega arith) (omega arith));
  rest = t.rest ∙ ap (λ (q : Kernel). record q { page_mem = k2.page_mem }) s.rest;
}

-- What the shared pages leave for the copy of the data.
module _ (ppt cpt parent : ℕ) (k k1 : Kernel) (c : CanFork ppt cpt parent k)
    (s : Shared ppt cpt 0 first_data k k1) where
  parent_entry : (p : ℕ) → p < 1024 → k1.page_mem (entry_at ppt p) ≡ k.page_mem (entry_at ppt p)
  parent_entry p h =
      s.others (entry_at ppt p)
        (λ i l u. entries-Apart ppt cpt p i c.apart (omega arith) (omega arith))

  child_entry :
      (p : ℕ) → first_data ≤ p → k1.page_mem (entry_at cpt p) ≡ k.page_mem (entry_at cpt p)
  child_entry p h = s.others (entry_at cpt p) (λ i l u. omega arith)

  child_frame : (p : ℕ) → first_data ≤ p → get_frame k1.page_mem cpt p ≡ get_frame k.page_mem cpt p
  unfolding get_frame
  child_frame p h = ap (λ (e : Entry). e.pbase_addr) (child_entry p h)

  parent_frame : (p : ℕ) → p < 1024 → get_frame k1.page_mem ppt p ≡ get_frame k.page_mem ppt p
  unfolding get_frame
  parent_frame p h = ap (λ (e : Entry). e.pbase_addr) (parent_entry p h)

  shared-Copyable : Copyable ppt cpt first_data num_pag_data k1
  shared-Copyable = record {
    parent_kept = λ j l u i l' u'. omega arith;
    child_kept = λ j l u i l' u' q.
        entries-Apart ppt cpt (i + num_pag_data) j c.apart (omega arith) (omega arith) (sym q);
    present = λ j l u. rw (parent_entry j (omega arith)) (c.present j (l, u));
    small = λ j l u. rw (child_frame j l) (c.small j (l, u));
    distinct = λ i j l m u.
        rw (child_frame j (omega arith), child_frame i l)
          (c.distinct i j (l, omega arith) (omega arith, u) m);
    fresh = λ i j l u l' u'.
        rw (parent_frame j (omega arith), child_frame i l) (c.fresh i j (l, u) (l', u'));
  }

  module _ (k2 : Kernel) (d : Copied ppt cpt first_data num_pag_data k1 k2) where
    copied-Forked : Forked ppt cpt k k2
    copied-Forked = record {
      shared = λ p h.
          d.other_entries (entry_at cpt p) (λ j l u q.
            entries-Apart ppt cpt (j + num_pag_data) p c.apart (omega arith) (omega arith) (sym q))
          ∙ s.shared p (omega arith) (omega arith);
      own = λ p h.
          d.other_entries (entry_at cpt p) (λ j l u q.
            entries-Apart ppt cpt (j + num_pag_data) p c.apart (omega arith) (omega arith) (sym q))
          ∙ child_entry p h.0;
      child_bytes = λ p h.
          ap k2.frame_data (sym (child_frame p h.0))
          ∙ d.same_bytes p h.0 h.1
          ∙ ap k1.frame_data (parent_frame p (omega arith))
          ∙ ap (λ (q : Kernel). q.frame_data (get_frame k.page_mem ppt p)) s.rest;
      parent_bytes = λ p h.
          d.other_frames (get_frame k.page_mem ppt p)
            (λ j l u q. c.fresh j p (l, u) h (q ∙ child_frame j l))
          ∙ ap (λ (q : Kernel). q.frame_data (get_frame k.page_mem ppt p)) s.rest;
      parent_table = λ p h.
          d.other_entries (entry_at ppt p) (λ j l u. omega arith) ∙ parent_entry p (omega arith);
      borrowed = λ p h. d.returned p h.0 h.1;
      rest =
          d.rest
          ∙ ap (λ (q : Kernel). record q { page_mem = k2.page_mem; frame_data = k2.frame_data })
              s.rest;
    }

no_heap_copied :
    (ppt cpt parent : ℕ) (k k2 : Kernel)
    → CanFork ppt cpt parent k
    → Forked ppt cpt k k2
    → heap_copy_loop region_fuel ppt cpt
        (k2.task parent).heap_start_proc
        (heap_pointer k2 parent)
        k2
      ≡ some k2
no_heap_copied ppt cpt parent k k2 c f =
    let same : k2.task ≡ k.task = ap (λ (q : Kernel). q.task) f.rest in
    heap_copy_loop-empty region_fuel ppt cpt (k2.task parent).heap_start_proc
      (heap_pointer k2 parent) k2
      (subst (λ t. (t parent).heap_pointer_proc ≤ (t parent).heap_start_proc) (sym same) c.no_heap)

-- Between page tables that share no memory, for a parent that has its data pages and no heap, and
-- for frames of the child's own, the copies of `sys_fork` end without a page fault. Then the child's
-- pages of kernel and code are the parent's frames, mapped writable and open to user mode whatever
-- the parent's entry allows; its data pages keep their own frames, which hold the bytes of the
-- parent's; the parent's bytes and its pages below the borrowed ones are as before, and the borrowed
-- ones are unmapped.
pub copy_space-Forked :
    (ppt cpt parent : ℕ) (k : Kernel)
    → CanFork ppt cpt parent k
    → (k' : Kernel) × (copy_space ppt cpt parent k ≡ some k') × Forked ppt cpt k k'
unfolding copy_space
copy_space-Forked ppt cpt parent k c =
    let k0 = share_loop num_pag_kernel ppt cpt 0 k in
    let k1 = share_loop num_pag_code ppt cpt pag_log_init_code k0 in
    let s : Shared ppt cpt 0 first_data k k1 =
      Shared-append ppt cpt num_pag_kernel num_pag_code k k0 k1 c.apart (omega arith)
        (share_loop-Shared num_pag_kernel ppt cpt 0 k c.apart (omega arith))
        (share_loop-Shared num_pag_code ppt cpt pag_log_init_code k0 c.apart (omega arith)) in
    let (k2, e, d) =
      copy_pages_loop-Copied num_pag_data ppt cpt first_data k1
        (shared-Copyable ppt cpt parent k k1 c s) in
    let f : Forked ppt cpt k k2 = copied-Forked ppt cpt parent k k1 c s k2 d in
    (k2, rw (e) (no_heap_copied ppt cpt parent k k2 c f), f)
