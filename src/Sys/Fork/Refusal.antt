-- ===== src/Sys/Fork/Refusal.antt =====
-- What `sys_fork` does when there are not enough frames for the child.
use zeos_soa.Base.{
  ℕ, ◌+◌, ◌-◌, ◌≤◌, ◌<◌, ◌≡◌, ◌≢◌, sym, ap, subst, ◌∙◌, inl, inr, Bool-cases, some, false, List, [],
  ◌∷◌, ◌++◌, Fresh, arith,
}
use zeos_soa.Errno.{eagain}
use zeos_soa.KernelList.{list_empty, list_first}
use zeos_soa.KernelList.Ring.{IsRing, list_empty_iff}
use zeos_soa.KernelList.Insert.{list_add_tail-IsRing}
use zeos_soa.KernelList.Delete.{list_del-IsRing}
use zeos_soa.Mm.Frames.{used_mark, num_pag_kernel}
use zeos_soa.Mm.Paging.{num_pag_data, pag_log_init_data, entry_at}
use zeos_soa.Kernel.{Kernel, Layout, list_of, current, get_pt}
use zeos_soa.Sys.Fork.{data_pages_loop, undo_fork, sys_fork}
use zeos_soa.Sys.Fork.Frames.{FreeFrames, OwnFrames, data_entry}
use zeos_soa.Sys.Fork.Prepare.{
  child_pt, page_mem-prepared, phys_mem-prepared, at-prepared, pt-prepared,
}
use zeos_soa.Sched.Sems.{SemsApart}
use zeos_soa.Sys.Fork.Queues.{prepared-IsRing}
use zeos_soa.Sys.Fork.Process.{child_of, taken, before, after_frames, sys_fork-frames}
use zeos_soa.Mm.Paging.Free.{free_pages_loop-entry}
use zeos_soa.Sys.Fork.Undo.{data_pages_loop-cases, frames_restored}

-- A task struct is free and frame 256 is in use, but no twenty frames are free. The free queue holds
-- neither the heads of the caller's semaphores nor a node twice.
pub record CannotFork (k : Kernel) (fs : List ℕ) : Type 0 where
  pub free : IsRing k.links k.at.freequeue (list_first k.links k.at.freequeue ∷ fs)
  pub sems_free : SemsApart (k.task (current k)).semafors (k.at.freequeue ∷ fs)
  pub node : list_first k.links k.at.freequeue ≡ list_of (child_of k)
  pub first_used : k.phys_mem num_pag_kernel ≡ used_mark
  pub too_few : (g : ℕ → ℕ) → FreeFrames num_pag_data k.phys_mem g → ⊥

-- The marks of the frames are as they were, so are all page table entries but those of the child's
-- data pages, and the task struct is back in the free queue, now at its tail.
pub record ForkUndone (k : Kernel) (fs : List ℕ) (k' : Kernel) : Type 0 where
  pub frames : k'.phys_mem ≡ k.phys_mem
  pub entries :
      (a : ℕ)
      → ((j : ℕ) → j < num_pag_data → a ≢ data_entry (child_pt k (child_of k)) j)
      → k'.page_mem a ≡ k.page_mem a
  pub free : IsRing k'.links k.at.freequeue (fs ++ (list_of (child_of k) ∷ []))

-- Frames of the child's own would have been free frames.
frames_counted :
    (k k' : Kernel) (pt : ℕ)
    → OwnFrames num_pag_data pt 0 k k'
    → FreeFrames num_pag_data k.phys_mem (λ j. (k'.page_mem (data_entry pt j)).pbase_addr)
frames_counted k k' pt o = record {
  user = λ i l. o.user i (omega arith) (omega arith);
  free = λ i l. o.was_free i (omega arith) (omega arith);
  distinct = λ i j l u. o.distinct i j (omega arith) l (omega arith);
}

-- The allocation fails, after fewer than twenty rounds.
allocation_fails :
    (k : Kernel) (pt : ℕ)
    → ((g : ℕ → ℕ) → FreeFrames num_pag_data k.phys_mem g → ⊥)
    → (i : ℕ) × (k' : Kernel) × (data_pages_loop num_pag_data pt 0 k ≡ (false, i, k'))
      × (i ≤ num_pag_data)
      × OwnFrames i pt 0 k k'
allocation_fails k pt few =
    let (ok, i, k', e, (full, le), o) = data_pages_loop-cases num_pag_data pt 0 k in
    elim (Bool-cases ok) [
      | inl t ↦
          let all = subst (λ n. OwnFrames n pt 0 k k') (full t) o in
          absurd
            (few (λ j. (k'.page_mem (data_entry pt j)).pbase_addr) (frames_counted k k' pt all))
      | inr f ↦ let z : 0 + i ≡ i = omega arith in (i, k', e ∙ cc (f, z), le, o)
    ]

-- `undo_fork` on the state at which the allocation stops.
module _ (k k4 : Kernel) (fs : List ℕ) (pt i : ℕ) (can : CannotFork k fs) (le : i ≤ num_pag_data)
    (o : OwnFrames i pt 0 (before k) k4) where
  abbrev undone : Kernel
  undone = undo_fork pt i (list_of (child_of k)) k4

  frames_undone : undone.phys_mem ≡ k.phys_mem
  unfolding undo_fork
  frames_undone =
      let same : (before k).phys_mem ≡ k.phys_mem =
        phys_mem-prepared (taken k) (current k) (child_of k) in
      frames_restored i pt (before k) k4 (ap (λ m. m num_pag_kernel) same ∙ can.first_used) o ∙ same

  entries_undone :
      (a : ℕ)
      → ((j : ℕ) → j < num_pag_data → a ≢ data_entry pt j)
      → undone.page_mem a ≡ k.page_mem a
  unfolding undo_fork
  entries_undone a h =
      free_pages_loop-entry i pt pag_log_init_data k4.phys_mem k4.page_mem a (λ j l u q.
        let at : entry_at pt j ≡ data_entry pt (j - pag_log_init_data) = omega arith in
        h (j - pag_log_init_data) (omega arith) (q ∙ at))
      ∙ o.others a (λ j l u. h j (omega arith))
      ∙ ap (λ m. m a) (page_mem-prepared (taken k) (current k) (child_of k))

  queue_undone : IsRing undone.links k.at.freequeue (fs ++ (list_of (child_of k) ∷ []))
  unfolding undo_fork
  queue_undone =
      let n = list_first k.links k.at.freequeue in
      let fq = k.at.freequeue in
      let at : k4.at ≡ k.at =
        ap (λ (q : Kernel). q.at) o.rest ∙ at-prepared (taken k) (current k) (child_of k) in
      let out : Fresh n (fq ∷ fs) = ((λ e. can.free.away.0 (sym e)), can.free.distinct.0) in
      let out' : Fresh (list_of (child_of k)) (fq ∷ fs) =
        subst (λ z. Fresh z (fq ∷ fs)) can.node out in
      let ring : IsRing (before k).links fq fs =
        prepared-IsRing (taken k) (current k) (child_of k) fq fs out' can.sems_free
          (list_del-IsRing [] n fs can.free) in
      let added = list_add_tail-IsRing (list_of (child_of k)) ring out'.0 out'.1 in
      let links : k4.links ≡ (before k).links = ap (λ (q : Kernel). q.links) o.rest in
      let head : k4.at.freequeue ≡ fq = ap (λ (l : Layout). l.freequeue) at in
      subst (λ z. IsRing z fq (fs ++ (list_of (child_of k) ∷ []))) (sym (cc (links, head))) added

-- `sys_fork` with a task struct free but fewer than twenty frames returns EAGAIN, and undoes what it
-- did: every frame is marked as before, no page table entry has changed but those of the data pages
-- in the child's table, and the task struct is in the free queue again, now its last. Frame 256,
-- which is never given back, has to be in use.
pub sys_fork-ForkUndone :
    (ret : ℕ) (k : Kernel) (fs : List ℕ)
    → CannotFork k fs
    → (k' : Kernel) × (sys_fork ret k ≡ some (eagain, k')) × ForkUndone k fs k'
sys_fork-ForkUndone ret k fs can =
    let n = list_first k.links k.at.freequeue in
    let c = child_of k in
    let phys : (before k).phys_mem ≡ k.phys_mem = phys_mem-prepared (taken k) (current k) c in
    let cpt : get_pt (before k) c ≡ child_pt k c = pt-prepared (taken k) (current k) c in
    let (i, k4, e, le, o) =
      allocation_fails (before k) (get_pt (before k) c)
        (subst (λ m. (g : ℕ → ℕ) → FreeFrames num_pag_data m g → ⊥) (sym phys) can.too_few) in
    let some_task : list_empty k.links k.at.freequeue ≡ false =
      list_empty_iff k.links k.at.freequeue (n ∷ fs) can.free in
    (
      undo_fork (get_pt (before k) c) i (list_of c) k4,
      sys_fork-frames ret k some_task ∙ ap (after_frames ret k) e,
      record {
        frames = frames_undone k k4 fs (get_pt (before k) c) i can le o;
        entries = λ a h.
            entries_undone k k4 fs (get_pt (before k) c) i can le o a
              (λ j l q. h j l (q ∙ ap (λ z. data_entry z j) cpt));
        free = queue_undone k k4 fs (get_pt (before k) c) i can le o;
      },
    )
